-- ===== src/Protocol/Codec/Stream.antt =====
-- RequestHandler::onReadyRead of Chat-Server/core/RequestHandler.cpp, the loop that takes packets
-- out of what a connection has delivered so far.
pub mod RoundTrip
pub mod Split
use xychat_project.Prelude.{ℕ, zero, suc, ◌+◌, List, [], ◌∷◌, Option, none, some, length}
use xychat_project.Protocol.Packet.{Packet, current_version}
use xychat_project.Protocol.Codec.{
  PacketCodec, Decoded, DecodeStatus, DecodeError, need_more_data, packet_ready, invalid_data,
  next_packet, append_data,
}

-- `Packet packet;`, with the message type `Error`.
abbrev pub default_packet : Packet
default_packet = record {
  version = current_version;
  message_type = 5;
  request_id = 0;
  payload = [];
}

-- The packets handed to `processPacket`, in order, the codec that is left, and whether the loop
-- ended by `NeedMoreData` (`no_error`) or by an error after which the connection is closed.
pub record Received : Type 0 where
  pub packets : List Packet
  pub codec : PacketCodec
  pub error : DecodeError

abbrev pub add_packet : Packet → Option Received → Option Received
add_packet p none = none
add_packet p (some r) = some (record r { packets = p ∷ r.packets })

-- The `while (true)` loop; `none` means that the fuel ran out.
pub read_loop : ℕ → PacketCodec → Option Received
read_loop zero c = none
read_loop (suc fuel) c =
    let d = next_packet c default_packet in
    let rest = read_loop fuel d.codec in
    elim d.status [
      | need_more_data ↦ some (record { packets = []; codec = d.codec; error = d.error })
      | invalid_data ↦ some (record { packets = []; codec = d.codec; error = d.error })
      | packet_ready ↦ add_packet d.packet rest
    ]

-- Every packet takes its header at least, so one round for each buffered byte and one more do.
pub on_ready_read : PacketCodec → List ℕ → Option Received
unfolding read_loop
on_ready_read c bytes = let c' = append_data c bytes in read_loop (suc (length c'.buffer)) c'
