-- ===== src/Examples/FileData.antt =====
-- The data that the examples on files share: an upload of three bytes as one chunk.
use xychat_project.Prelude.{ℕ, ◌+◌, ◌%◌, false, List, [], ◌∷◌, length, none, some, replicate}
use xychat_project.Prelude.Int.{pos}
use xychat_project.Prelude.Json.{codes}
use xychat_project.Server.Storage.{Storage, no_blob, update}
use xychat_project.Server.Database.Files.{FileRecord, Files, uploading, ready}
use xychat_project.Server.Database.Messages.{Message}
use xychat_project.Server.Database.Tickets.{Ticket, Tickets}

abbrev pub key : List ℕ
key = replicate 32 b'a'

abbrev pub toy_sha256 : List ℕ → List ℕ
toy_sha256 x = (b'0' + length x % 10) ∷ replicate 63 b'0'

abbrev pub file_bytes : List ℕ
file_bytes = 1 ∷ 2 ∷ 3 ∷ []

abbrev pub in_progress : FileRecord
in_progress = record {
  id = pos 1;
  blob_key = key;
  uploader_id = pos 7;
  uploader_device_id = b'd' ∷ [];
  size_bytes = pos 3;
  chunk_size = pos 65536;
  chunk_count = pos 1;
  sha256_hex = toy_sha256 file_bytes;
  status = uploading;
  created_at = 1000;
  completed_at = none;
}

abbrev pub finished : FileRecord
finished = record in_progress { status = ready; completed_at = some 1010 }

abbrev pub table : FileRecord → Files
table f = record { rows = f ∷ []; next_id = 2 }

abbrev pub no_storage : Storage
no_storage k = no_blob

abbrev pub received_storage : Storage
received_storage = update no_storage key (record no_blob { parts = (0, file_bytes) ∷ [] })

abbrev pub object_storage : Storage
object_storage = update no_storage key (record no_blob { object = some file_bytes })

abbrev pub carrier : Message
carrier = record {
  id = 1;
  conversation_id = 5;
  sender_id = 7;
  content = b'x' ∷ [];
  content_type = codes "text";
  client_message_id = none;
  sender_device_id = none;
  file_id = some 1;
  reply_to_message_id = none;
  edited_at = none;
  deleted = false;
}

abbrev pub hash : List ℕ
hash = b'h' ∷ []

abbrev pub ticket_of : List ℕ → Ticket
ticket_of kind = record {
  id = pos 1;
  ticket_hash = hash;
  file_id = pos 1;
  user_id = pos 7;
  kind = kind;
  used = false;
  expires_at = 2000;
  created_at = 1000;
}

abbrev pub tickets_of : List ℕ → Tickets
tickets_of kind = record { rows = ticket_of kind ∷ []; next_id = 2 }
