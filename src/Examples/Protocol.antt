-- ===== src/Examples/Protocol.antt =====
-- Packets, chunks and manifests at concrete inputs.

use xychat_project.Prelude.{ℕ, ◌≡◌, refl, true, List, [], ◌∷◌, ◌++◌, none, some, arith, replicate}
use xychat_project.Prelude.Int.{pos}
use xychat_project.Protocol.Packet.{Packet, IsSendable}
use xychat_project.Protocol.Codec.{PacketCodec, encode, no_error}
use xychat_project.Protocol.Codec.Stream.{Received, on_ready_read}
use xychat_project.Protocol.Codec.Stream.Split.{
  on_ready_read-append, on_ready_read_total, on_ready_read-encode_all, encode_all,
}
use xychat_project.Protocol.FileProtocol.{
  is_chunking_valid, chunk_count_for, is_sha256_hex, is_hex_lower,
}
use xychat_project.Protocol.FileProtocol.Chunks.{chunks_tile, bytes_before}
use xychat_project.Protocol.FileProtocol.Manifest.{
  FileManifest, is_valid, Encoding, encode_file_manifest, decode_file_manifest, manifest_object,
}
use xychat_project.Protocol.FileProtocol.Manifest.Laws.{decode-encode_file_manifest}
use xychat_project.Prelude.Json.{codes}

abbrev ping : Packet
ping = record { version = 1; message_type = 3; request_id = 7; payload = 123 ∷ 125 ∷ [] }

abbrev logout : Packet
logout = record { version = 1; message_type = 12; request_id = 8; payload = [] }

ping-IsSendable : IsSendable ping
ping-IsSendable = omega arith

logout-IsSendable : IsSendable logout
logout-IsSendable = omega arith

abbrev idle : PacketCodec
idle = record { buffer = [] }

on_ready_read-encode_all_example :
    on_ready_read idle (encode_all (ping ∷ logout ∷ []))
    ≡ some (record { packets = ping ∷ logout ∷ []; codec = idle; error = no_error })
on_ready_read-encode_all_example =
    on_ready_read-encode_all (ping ∷ logout ∷ []) (ping-IsSendable, (logout-IsSendable, tt))

on_ready_read-append_example :
    on_ready_read idle ((encode ping ++ []) ++ (encode logout ++ []))
    ≡ some (record { packets = ping ∷ logout ∷ []; codec = idle; error = no_error })
on_ready_read-append_example =
    on_ready_read-append idle (encode ping ++ []) (encode logout ++ [])
      (record { packets = ping ∷ []; codec = idle; error = no_error })
      (record { packets = logout ∷ []; codec = idle; error = no_error })
      (on_ready_read-encode_all (ping ∷ []) (ping-IsSendable, tt)) refl
      (on_ready_read-encode_all (logout ∷ []) (logout-IsSendable, tt))

-- 2.5 MiB in three chunks of 1 MiB.
abbrev two_and_a_half : ℕ
two_and_a_half = 2621440

abbrev mebibyte : ℕ
mebibyte = 1048576

layout : is_chunking_valid (pos two_and_a_half) (pos mebibyte) (pos 3) ≡ true
unfolding is_chunking_valid chunk_count_for
layout = refl

chunks_tile_example : bytes_before (pos two_and_a_half) (pos mebibyte) (pos 3) 3 ≡ two_and_a_half
chunks_tile_example = (chunks_tile (pos two_and_a_half) (pos mebibyte) (pos 3) layout).1

abbrev sixty_four : List ℕ
sixty_four = replicate 64 b'a'

-- A manifest of that file.
abbrev photo : FileManifest
photo = record {
  file_id = pos 12;
  name = codes "a.jpg";
  mime = codes "image/jpeg";
  plain_size = pos 2621392;
  cipher_size = pos two_and_a_half;
  chunk_size = pos mebibyte;
  sha256_hex = sixty_four;
  key = replicate 32 7;
  iv = replicate 12 1;
  width = pos 640;
  height = pos 480;
  duration_ms = pos 0;
  thumbnail = 255 ∷ 216 ∷ [];
}

photo_valid : is_valid photo ≡ true
unfolding is_valid is_sha256_hex is_hex_lower chunk_count_for
photo_valid = refl

-- A JSON library that knows this one object, and an identity for base64.
abbrev plain_encoding : Encoding
plain_encoding = record {
  to_json = λ o. b'{' ∷ [];
  from_json = λ t. some (manifest_object identity photo);
  to_base64 = λ b. b;
  decode_base64 = λ b. b;
  parse_long_long = λ t. pos 0;
}
  where
    identity : Encoding
    identity = record {
      to_json = λ o. [];
      from_json = λ t. none;
      to_base64 = λ b. b;
      decode_base64 = λ b. b;
      parse_long_long = λ t. pos 0;
    }

decode-encode_file_manifest_example :
    decode_file_manifest plain_encoding (encode_file_manifest plain_encoding photo) ≡ (photo, true)
decode-encode_file_manifest_example =
    decode-encode_file_manifest plain_encoding
      (record { decode_encode = λ b. refl; decode_empty = refl }) photo photo_valid (refl, refl)
      refl (λ e. cc)

on_ready_read_total_example : (r : Received) × (on_ready_read idle (88 ∷ 89 ∷ []) ≡ some r)
on_ready_read_total_example = on_ready_read_total idle (88 ∷ 89 ∷ [])
