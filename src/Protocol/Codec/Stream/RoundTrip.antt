-- ===== src/Protocol/Codec/Stream/RoundTrip.antt =====
-- Decoding what was encoded.
use mathlib.Core.List.{append_assoc}
use native.Mathlib.Nat.{pow-suc}
use xychat_project.Prelude.{
  ℕ, zero, suc, ◌+◌, ◌*◌, ◌/◌, ◌%◌, ◌^◌, ◌<◌, ◌≡◌, refl, ◌∙◌, List, [], ◌∷◌, ◌++◌, length,
  length-append, take-length, drop-length, arith,
}
use xychat_project.Protocol.Packet.{Packet, IsSendable, magic, header_size}
use xychat_project.Protocol.Codec.{
  write_uint, from_bytes, read_uint, encode_header, encode, read_header, decode_with, next_packet,
  Header, packet_ready, no_error,
}

from_bytes-append :
    (acc : ℕ) (xs : List ℕ) (b : ℕ) → from_bytes acc (xs ++ (b ∷ [])) ≡ from_bytes acc xs * 256 + b
unfolding from_bytes
from_bytes-append acc [] b = refl
from_bytes-append acc (x ∷ xs) b = from_bytes-append (acc * 256 + x) xs b

pub length-write_uint : (k v : ℕ) → length (write_uint k v) ≡ k
unfolding write_uint
length-write_uint zero v = refl
length-write_uint (suc k) v =
    omega
      (arith, length-append (write_uint k (v / 256)) (v % 256 ∷ []), length-write_uint k (v / 256))

from_bytes-write_uint : (k v : ℕ) → v < 256 ^ k → from_bytes 0 (write_uint k v) ≡ v
unfolding write_uint
from_bytes-write_uint zero v h = unfold from_bytes in omega arith
from_bytes-write_uint (suc k) v h =
    from_bytes-append 0 (write_uint k (v / 256)) (v % 256)
    ∙ omega (arith, from_bytes-write_uint k (v / 256) (omega (arith, pow-suc 256 k)))

-- A field that was written is read back, and what follows it is left.
pub read_uint-write_uint :
    (k v : ℕ) (rest : List ℕ) → v < 256 ^ k → read_uint k (write_uint k v ++ rest) ≡ (v, rest)
unfolding read_uint
read_uint-write_uint k v rest h = rw (
  take-length (write_uint k v) rest k (length-write_uint k v),
  drop-length (write_uint k v) rest k (length-write_uint k v),
  from_bytes-write_uint k v h,
)

length-encode_header : (p : Packet) → length (encode_header p) ≡ header_size
unfolding encode_header
length-encode_header p = simp (length-append, length-write_uint)

header_of : Packet → Header
header_of p = record {
  magic_read = magic;
  version_read = p.version;
  type_read = p.message_type;
  id_read = p.request_id;
  payload_length = length p.payload;
}

read_header-encode_header :
    (p : Packet) (rest : List ℕ)
    → IsSendable p
    → read_header (encode_header p ++ rest) ≡ header_of p
unfolding encode_header read_header header_of
read_header-encode_header p rest v = simp append_assoc (
    rw (
      read_uint-write_uint 4 magic _ (omega arith),
      read_uint-write_uint 2 p.version _ (omega arith),
      read_uint-write_uint 2 p.message_type _ v.type_fits,
      read_uint-write_uint 8 p.request_id _ v.id_fits,
      read_uint-write_uint 4 (length p.payload) rest (omega arith),
    ))

-- A sendable packet at the front of the buffer is decoded as it was sent, and the codec keeps the
-- bytes that follow it.
pub next_packet-encode :
    (p q : Packet) (rest : List ℕ)
    → IsSendable p
    → next_packet (record { buffer = encode p ++ rest }) q ≡ record {
      codec = record { buffer = rest };
      packet = p;
      error = no_error;
      status = packet_ready;
    }
unfolding next_packet encode decode_with header_of
next_packet-encode p q rest v = ground (
  arith,
  read_header-encode_header p (p.payload ++ rest) v,
  append_assoc (encode_header p) p.payload rest,
  length-append (encode_header p) (p.payload ++ rest),
  length-append p.payload rest,
  length-encode_header p,
  drop-length (encode_header p) (p.payload ++ rest) header_size (length-encode_header p),
  take-length p.payload rest (length p.payload) refl,
  drop-length (encode_header p ++ p.payload) rest (header_size + length p.payload),
  length-append (encode_header p) p.payload,
)
