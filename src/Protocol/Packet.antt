-- ===== src/Protocol/Packet.antt =====
-- CommonModule/protocol/Packet.h: the packet and its constants. A byte is a number below 256.
use xychat_project.Prelude.{ℕ, ◌+◌, ◌*◌, ◌≤◌, ◌<◌, ◌^◌, ◌≡◌, List, length, All}

abbrev pub magic : ℕ
magic = 0x58594350

abbrev pub current_version : ℕ
current_version = 1

-- sizeof(quint32) + sizeof(quint16) + sizeof(quint16) + sizeof(quint64) + sizeof(quint32)
abbrev pub header_size : ℕ
header_size = 4 + 2 + 2 + 8 + 4

abbrev pub max_payload_size : ℕ
max_payload_size = 4 * 1024 * 1024

-- `enum class MessageType : quint16` holds any 16-bit value: the decoder casts what it reads.
pub record Packet : Type 0 where
  pub version : ℕ
  pub message_type : ℕ
  pub request_id : ℕ
  pub payload : List ℕ

-- A packet that fits the field widths, of the current version and within the payload limit.
pub record IsSendable (p : Packet) : Type 0 where
  pub current : p.version ≡ current_version
  pub type_fits : p.message_type < 256 ^ 2
  pub id_fits : p.request_id < 256 ^ 8
  pub payload_fits : length p.payload ≤ max_payload_size
  pub payload_bytes : All (λ b. b < 256) p.payload
