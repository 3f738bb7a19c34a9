-- ===== src/Server/FileControl.antt =====
-- Chat-Server/core/RequestHandler.cpp: the requests around the upload and the download of files, for an
-- authenticated user. A handler is one step; Races takes two of them apart. Which statements and
-- system calls are carried out, what the random generators give and what Qt computes is `World`.
pub mod Sound
pub mod Creation
pub mod Integrity
pub mod Races
use xychat_project.Prelude.{
  ℕ, ◌+◌, ◌*◌, Bool, true, false, ◌||◌, ◌&&◌, not, List, [], ◌∷◌, ltb, leb, length, Option, none,
  some, if◌then◌else◌,
}
use xychat_project.Prelude.Int.{ℤ, pos, pos_part, leb_int, ltb_int, eq_int}
use xychat_project.Prelude.Json.{Json, Fields, value, to_text, to_long_long, to_int, codes}
use xychat_project.Protocol.FileProtocol.{max_file_size, is_sha256_hex, is_chunking_valid}
use xychat_project.Server.RateWindow.{RateWindow, allow}
use xychat_project.Server.Storage.{
  Storage, Io, FinalizeStatus, finalized, invalid_arguments, incomplete, chunk_size_mismatch,
  checksum_mismatch, storage_error, finalize, remove, received_chunks, allocate_blob_key,
}
use xychat_project.Server.Database.Messages.{Message}
use xychat_project.Server.Database.Members.{Member}
use xychat_project.Server.Database.Files.{
  Files, FileRecord, FileStatus, uploading, ready, cancelled, failed, NewFile, CreateResult,
  created, quota_exceeded, not_created, create_file_record, get_file_record, mark_file_ready,
  mark_file_cancelled, mark_file_failed, can_user_access_file, is_empty,
}
use xychat_project.Server.Database.Tickets.{Tickets, issue_file_ticket, revoke_file_tickets}
use xychat_project.Server.FileHttp.{upload_kind, download_kind, download_ticket_ttl_seconds}

abbrev pub upload_ticket_ttl_seconds : ℕ
upload_ticket_ttl_seconds = 24 * 3600

abbrev pub max_concurrent_uploads_per_user : ℕ
max_concurrent_uploads_per_user = 8

pub record World : Type 0 where
  pub long_of_text : List ℕ → ℤ
  pub trimmed : List ℕ → List ℕ
  pub to_lower : List ℕ → List ℕ
  pub random_key : Option (List ℕ)
  pub random_ticket : List ℕ
  pub ticket_hash : List ℕ → List ℕ
  pub sha256 : List ℕ → List ℕ
  pub answers_file : Bool
  pub answers_own : Bool
  pub answers_shared : Bool
  pub creates : Bool
  pub issues : Bool
  pub marks : Bool
  pub revokes : Bool
  pub io : Io

-- The tables and the storage, with the two limits of the connection.
pub record FileServer : Type 0 where
  pub files : Files
  pub tickets : Tickets
  pub storage : Storage
  pub members : List Member
  pub messages : List Message
  pub upload_window : RateWindow
  pub ops_window : RateWindow

pub record User : Type 0 where
  pub user_id : ℤ
  pub device_id : List ℕ
  pub has_storage : Bool

pub data FileError : Type 0 where
  invalid_request file_too_large rate_limited file_storage_failed file_quota_exceeded internal_error
        file_not_found file_not_ready file_checksum_mismatch :
      FileError

-- The answers: an error; a new upload with its ticket; the state of an upload with the received
-- chunks; missing chunks with those received; a completed or cancelled upload; a download ticket.
pub data FileReply : Type 0 where
  refused : FileError → FileReply
  upload_created : ℤ → List ℕ → FileReply
  upload_state : FileRecord → List ℕ → FileReply
  upload_incomplete : FileRecord → List ℕ → FileReply
  upload_complete : FileRecord → FileReply
  upload_cancelled : ℤ → FileReply
  download_ticket : FileRecord → List ℕ → FileReply

abbrev pub refuse : FileServer → FileError → FileServer × FileReply
refuse s e = (s, refused e)

-- The ticket of a new upload; without one the record is cancelled.
unfoldable pub issue_upload_ticket : World → FileServer → User → ℤ → ℕ → FileServer × FileReply
issue_upload_ticket w s me file now =
    let t =
      issue_file_ticket w.issues s.tickets file me.user_id upload_kind
        (w.ticket_hash w.random_ticket) (pos upload_ticket_ttl_seconds) now in
    if is_empty w.random_ticket || not t.1
    then (record s { files = (mark_file_cancelled w.marks s.files file).0 }, refused internal_error)
    else (record s { tickets = t.0 }, upload_created file w.random_ticket)

abbrev pub create_result :
    World → FileServer → User → ℕ → Files × CreateResult → FileServer × FileReply
create_result w s me now (t, quota_exceeded) = refuse (record s { files = t }) file_quota_exceeded
create_result w s me now (t, not_created) = refuse (record s { files = t }) internal_error
create_result w s me now (t, created file) =
    issue_upload_ticket w (record s { files = t }) me file now

-- The steps after the storage key was allocated.
unfoldable pub create_upload :
    World → FileServer → User → ℤ → ℤ → ℤ → List ℕ → ℕ → FileServer × FileReply
create_upload w s me size chunk count sha now =
    let key = allocate_blob_key w.random_key in
    if is_empty key
    then refuse s file_storage_failed
    else create_result w s me now (
        create_file_record w.creates s.files
          (record {
            uploader_id = me.user_id;
            uploader_device_id = me.device_id;
            blob_key = key;
            size_bytes = size;
            chunk_size = chunk;
            chunk_count = count;
            sha256_hex = sha;
          })
          (pos max_concurrent_uploads_per_user) now)

-- `processFileUploadCreateRequest`.
unfoldable pub process_file_upload_create_request :
    World → FileServer → User → Fields → ℕ → FileServer × FileReply
process_file_upload_create_request w s me request now =
    let size = to_long_long w.long_of_text (value request "sizeBytes") in
    let chunk = to_long_long w.long_of_text (value request "chunkSize") in
    let count = to_int (value request "chunkCount") (pos 0) in
    let sha = w.to_lower (w.trimmed (to_text (value request "sha256"))) in
    let a = allow s.upload_window now in
    let s₁ = record s { upload_window = a.0 } in
    if ltb_int (pos max_file_size) size
    then refuse s file_too_large
    else if not (is_sha256_hex sha)
    then refuse s invalid_request
    else if not (is_chunking_valid size chunk count)
    then refuse s invalid_request
    else if not a.1
    then refuse s₁ rate_limited
    else if not me.has_storage
    then refuse s₁ file_storage_failed
    else create_upload w s₁ me size chunk count sha now

-- `requireOwnedFile`.
abbrev pub if_owned : User → Option FileRecord → Option FileRecord
if_owned me none = none
if_owned me (some f) = if eq_int f.uploader_id me.user_id then some f else none

unfoldable pub require_owned_file : World → FileServer → User → ℤ → Option FileRecord
require_owned_file w s me file = if_owned me (get_file_record w.answers_file s.files file)

-- What a handler does with the file that the user owns, or the answer that there is none.
abbrev pub with_owned :
    FileServer → Option FileRecord → (FileRecord → FileServer × FileReply) → FileServer × FileReply
with_owned s none act = refuse s file_not_found
with_owned s (some f) act = act f

-- The steps that the requests on one file share: its id, the limit, and the owner.
abbrev pub on_owned_file :
    World
    → FileServer
    → User
    → Fields
    → ℕ
    → (FileServer → FileRecord → FileServer × FileReply)
    → FileServer × FileReply
on_owned_file w s me request now act =
    let file = to_long_long w.long_of_text (value request "fileId") in
    let a = allow s.ops_window now in
    let s₁ = record s { ops_window = a.0 } in
    if leb_int file (pos 0)
    then refuse s invalid_request
    else if not a.1
    then refuse s₁ rate_limited
    else with_owned s₁ (require_owned_file w s₁ me file) (act s₁)

abbrev pub is_uploading : FileStatus → Bool
is_uploading uploading = true
is_uploading ready = false
is_uploading cancelled = false
is_uploading failed = false

abbrev pub received : FileServer → User → FileRecord → List ℕ
received s me f =
    if is_uploading f.status && me.has_storage then received_chunks s.storage f.blob_key else []

-- `processFileUploadQueryRequest`.
unfoldable pub process_file_upload_query_request :
    World → FileServer → User → Fields → ℕ → FileServer × FileReply
process_file_upload_query_request w s me request now =
    on_owned_file w s me request now (λ s₁ f. (s₁, upload_state f (received s₁ me f)))

abbrev pub revoked : World → FileServer → ℤ → FileServer
revoked w s file = record s {
  tickets = (revoke_file_tickets w.revokes s.tickets file upload_kind).0;
}

-- A data fault cannot be repaired: the upload fails and its data is removed.
abbrev pub fail_upload : World → FileServer → FileRecord → FileServer × FileReply
fail_upload w s f = (
  revoked w
      (record s {
        files = (mark_file_failed w.marks s.files f.id).0;
        storage = (remove w.io s.storage f.blob_key).0;
      })
      f.id,
  refused file_checksum_mismatch,
)

-- The assembled object becomes a ready file.
abbrev pub finish_upload : World → FileServer → FileRecord → Files × Bool → FileServer × FileReply
finish_upload w s f (t, false) = refuse (record s { files = t }) internal_error
finish_upload w s f (t, true) = (revoked w (record s { files = t }) f.id, upload_complete f)

unfoldable pub after_finalize :
    World → FileServer → FileRecord → ℕ → FinalizeStatus → FileServer × FileReply
after_finalize w s f now finalized = finish_upload w s f (mark_file_ready w.marks s.files f.id now)
after_finalize w s f now incomplete =
    (s, upload_incomplete f (received_chunks s.storage f.blob_key))
after_finalize w s f now storage_error = refuse s file_storage_failed
after_finalize w s f now invalid_arguments = fail_upload w s f
after_finalize w s f now chunk_size_mismatch = fail_upload w s f
after_finalize w s f now checksum_mismatch = fail_upload w s f

unfoldable pub complete_uploading :
    World → FileServer → User → FileRecord → ℕ → FileServer × FileReply
complete_uploading w s me f now =
    let r =
      finalize w.sha256 w.io s.storage f.blob_key f.size_bytes f.chunk_size f.chunk_count
        f.sha256_hex in
    if not me.has_storage
    then refuse s file_storage_failed
    else after_finalize w (record s { storage = r.0 }) f now r.1

abbrev pub complete_in :
    World → FileServer → User → FileRecord → ℕ → FileStatus → FileServer × FileReply
complete_in w s me f now ready = (s, upload_complete f)
complete_in w s me f now uploading = complete_uploading w s me f now
complete_in w s me f now cancelled = refuse s file_not_ready
complete_in w s me f now failed = refuse s file_not_ready

-- `processFileUploadCompleteRequest`.
unfoldable pub process_file_upload_complete_request :
    World → FileServer → User → Fields → ℕ → FileServer × FileReply
process_file_upload_complete_request w s me request now =
    on_owned_file w s me request now (λ s₁ f. complete_in w s₁ me f now f.status)

-- The status first, then the data; a failure to remove it is only logged.
abbrev pub cancel_result :
    World → FileServer → User → FileRecord → Files × Bool → FileServer × FileReply
cancel_result w s me f (t, false) = refuse (record s { files = t }) file_not_ready
cancel_result w s me f (t, true) = (
  revoked w
      (record s {
        files = t;
        storage = if me.has_storage then (remove w.io s.storage f.blob_key).0 else s.storage;
      })
      f.id,
  upload_cancelled f.id,
)

abbrev pub cancel_in : World → FileServer → User → FileRecord → FileStatus → FileServer × FileReply
cancel_in w s me f cancelled = (s, upload_cancelled f.id)
cancel_in w s me f uploading = cancel_result w s me f (mark_file_cancelled w.marks s.files f.id)
cancel_in w s me f ready = refuse s file_not_ready
cancel_in w s me f failed = refuse s file_not_ready

-- `processFileUploadCancelRequest`.
unfoldable pub process_file_upload_cancel_request :
    World → FileServer → User → Fields → ℕ → FileServer × FileReply
process_file_upload_cancel_request w s me request now =
    on_owned_file w s me request now (λ s₁ f. cancel_in w s₁ me f f.status)

-- The ticket of a download, of a file that is ready.
abbrev pub download_in :
    World → FileServer → User → ℕ → FileRecord → FileStatus → FileServer × FileReply
download_in w s me now f uploading = refuse s file_not_ready
download_in w s me now f cancelled = refuse s file_not_ready
download_in w s me now f failed = refuse s file_not_ready
download_in w s me now f ready =
    let t =
      issue_file_ticket w.issues s.tickets f.id me.user_id download_kind
        (w.ticket_hash w.random_ticket) (pos download_ticket_ttl_seconds) now in
    if is_empty w.random_ticket || not t.1
    then refuse s internal_error
    else (record s { tickets = t.0 }, download_ticket f w.random_ticket)

abbrev pub issue_download_ticket :
    World → FileServer → User → ℕ → Option FileRecord → FileServer × FileReply
issue_download_ticket w s me now none = refuse s file_not_ready
issue_download_ticket w s me now (some f) = download_in w s me now f f.status

-- `processFileDownloadTicketRequest`: whether the user may have the file is asked first.
unfoldable pub process_file_download_ticket_request :
    World → FileServer → User → Fields → ℕ → FileServer × FileReply
process_file_download_ticket_request w s me request now =
    let file = to_long_long w.long_of_text (value request "fileId") in
    let a = allow s.ops_window now in
    let s₁ = record s { ops_window = a.0 } in
    if leb_int file (pos 0)
    then refuse s invalid_request
    else if not a.1
    then refuse s₁ rate_limited
    else if not (
        can_user_access_file w.answers_own w.answers_shared s.files s.members s.messages file
          me.user_id)
    then refuse s₁ file_not_found
    else issue_download_ticket w s₁ me now (get_file_record w.answers_file s.files file)

-- The requests on files.
pub data FileRequest : Type 0 where
  upload_create upload_query upload_complete upload_cancel download : FileRequest

unfoldable pub handle :
    FileRequest → World → FileServer → User → Fields → ℕ → FileServer × FileReply
handle upload_create w s me request now = process_file_upload_create_request w s me request now
handle upload_query w s me request now = process_file_upload_query_request w s me request now
handle upload_complete w s me request now = process_file_upload_complete_request w s me request now
handle upload_cancel w s me request now = process_file_upload_cancel_request w s me request now
handle download w s me request now = process_file_download_ticket_request w s me request now
