-- ===== src/Protocol/Codec.antt =====
-- CommonModule/protocol/PacketCodec.cpp: encoding a packet, and decoding from a growing buffer.
-- `QDataStream` in big-endian order is `write_uint` and `read_uint`.
pub mod Stream
use xychat_project.Prelude.{
  ℕ, zero, suc, ◌+◌, ◌*◌, ◌/◌, ◌%◌, ◌^◌, Bool, true, false, not, List, [], ◌∷◌, ◌++◌, ltb, ◌==◌,
  length, take, drop, if◌then◌else◌,
}
use xychat_project.Protocol.Packet.{Packet, magic, current_version, header_size, max_payload_size}

-- `stream << v` for an unsigned integer of `k` bytes, the highest byte first.
pub write_uint : ℕ → ℕ → List ℕ
write_uint zero v = []
write_uint (suc k) v = write_uint k (v / 256) ++ (v % 256 ∷ [])

pub from_bytes : ℕ → List ℕ → ℕ
from_bytes acc [] = acc
from_bytes acc (b ∷ bs) = from_bytes (acc * 256 + b) bs

-- `stream >> v`: the value and what is left to read.
pub read_uint : ℕ → List ℕ → ℕ × List ℕ
unfolding from_bytes
read_uint k bytes = (from_bytes 0 (take k bytes), drop k bytes)

pub encode_header : Packet → List ℕ
encode_header p =
    write_uint 4 magic
    ++ (write_uint 2 p.version
        ++ (write_uint 2 p.message_type
            ++ (write_uint 8 p.request_id ++ write_uint 4 (length p.payload))))

-- `PacketCodec::encode`: an oversized payload gives the empty array.
pub encode : Packet → List ℕ
encode p = if ltb max_payload_size (length p.payload) then [] else encode_header p ++ p.payload

pub data DecodeStatus : Type 0 where
  need_more_data packet_ready invalid_data : DecodeStatus

pub data DecodeError : Type 0 where
  no_error invalid_magic unsupported_version payload_too_large : DecodeError

-- The codec's one field, `m_buffer`.
pub record PacketCodec : Type 0 where
  pub buffer : List ℕ

-- The codec after `nextPacket`, its two output arguments and its result.
pub record Decoded : Type 0 where
  pub codec : PacketCodec
  pub packet : Packet
  pub error : DecodeError
  pub status : DecodeStatus

pub record Header : Type 0 where
  pub magic_read : ℕ
  pub version_read : ℕ
  pub type_read : ℕ
  pub id_read : ℕ
  pub payload_length : ℕ

pub read_header : List ℕ → Header
read_header bytes =
    let (m, r₁) = read_uint 4 bytes in
    let (v, r₂) = read_uint 2 r₁ in
    let (t, r₃) = read_uint 2 r₂ in
    let (i, r₄) = read_uint 8 r₃ in
    let (l, r₅) = read_uint 4 r₄ in
    record { magic_read = m; version_read = v; type_read = t; id_read = i; payload_length = l }

pub append_data : PacketCodec → List ℕ → PacketCodec
append_data c more = record c { buffer = c.buffer ++ more }

-- What `nextPacket` does once a whole header is there; `packet` keeps its old value on failure.
pub decode_with : PacketCodec → Packet → Header → Decoded
decode_with c p h =
    if not (h.magic_read == magic)
    then record {
      codec = record { buffer = [] };
      packet = p;
      error = invalid_magic;
      status = invalid_data;
    }
    else if not (h.version_read == current_version)
    then record {
      codec = record { buffer = [] };
      packet = p;
      error = unsupported_version;
      status = invalid_data;
    }
    else if ltb max_payload_size h.payload_length
    then record {
      codec = record { buffer = [] };
      packet = p;
      error = payload_too_large;
      status = invalid_data;
    }
    else if ltb (length c.buffer) (header_size + h.payload_length)
    then record { codec = c; packet = p; error = no_error; status = need_more_data }
    else record {
      codec = record { buffer = drop (header_size + h.payload_length) c.buffer };
      packet = record {
        version = h.version_read;
        message_type = h.type_read;
        request_id = h.id_read;
        payload = take h.payload_length (drop header_size c.buffer);
      };
      error = no_error;
      status = packet_ready;
    }

-- `PacketCodec::nextPacket`.
pub next_packet : PacketCodec → Packet → Decoded
next_packet c p =
    if ltb (length c.buffer) header_size
    then record { codec = c; packet = p; error = no_error; status = need_more_data }
    else decode_with c p (read_header c.buffer)

pub reset : PacketCodec → PacketCodec
reset c = record { buffer = [] }

pub buffered_size : PacketCodec → ℕ
buffered_size c = length c.buffer
