-- ===== src/Server/FileHttp.antt =====
-- Chat-Server/http/FileHttpService.cpp: the service that takes the chunks of files and hands files out.
-- One clock reading in seconds serves a request. Queries and statements of the database may fail, as
-- `HttpWorld` says; so may the system calls of the storage. Logging is left out.
pub mod Parse
pub mod Ranges
pub mod Windows
pub mod Limit
pub mod Access
pub mod Transfer
pub mod Downloads
pub mod Serving
pub mod Start
use xychat_project.Prelude.{
  ℕ, ◌+◌, ◌*◌, Bool, true, false, ◌||◌, ◌&&◌, not, List, [], ◌∷◌, ltb, leb, length, Option, none,
  some, if◌then◌else◌,
}
use xychat_project.Prelude.Int.{ℤ, pos, pos_part, leb_int, ltb_int, eq_int}
use xychat_project.Prelude.Assoc.{text_beq}
use xychat_project.Prelude.Json.{codes}
use xychat_project.Protocol.FileProtocol.{max_chunk_count, max_chunk_size, expected_chunk_bytes}
use xychat_project.Server.Storage.{Storage, Io, put_chunk, blob_size, read_range}
use xychat_project.Server.Database.Files.{
  Files, FileRecord, get_file_record, same_status, uploading, ready,
}
use xychat_project.Server.Database.Tickets.{
  Ticket, Tickets, validate_file_ticket, renew_file_ticket,
}
use xychat_project.Server.FileHttp.Parse.{
  NumberFormat, RangeResult, absent, malformed, unsatisfiable, range, parse_range,
  parse_path_number,
}
use xychat_project.Server.FileHttp.Windows.{
  FailureWindows, reject_if_abusing, note_auth_failure, is_empty,
}

abbrev pub max_single_get_bytes : ℕ
max_single_get_bytes = 4 * 1024 * 1024

abbrev pub download_ticket_ttl_seconds : ℕ
download_ticket_ttl_seconds = 300

abbrev pub download_ticket_max_lifetime_seconds : ℕ
download_ticket_max_lifetime_seconds = 24 * 3600

abbrev pub upload_kind : List ℕ
upload_kind = codes "upload"

abbrev pub download_kind : List ℕ
download_kind = codes "download"

pub record HttpWorld : Type 0 where
  pub format : NumberFormat
  pub ticket_hash : List ℕ → List ℕ
  pub answers_ticket : Bool
  pub renews : Bool
  pub answers_file : Bool
  pub io : Io

-- The members of the service, with the tables and the storage it works on.
pub record FileHttpService : Type 0 where
  pub failure_windows : FailureWindows
  pub tickets : Tickets
  pub files : Files
  pub storage : Storage

-- What the handlers read of a request.
pub record HttpRequest : Type 0 where
  pub ip : List ℕ
  pub ticket : List ℕ
  pub range_header : List ℕ
  pub body : List ℕ

pub data Status : Type 0 where
  bad_request unauthorized not_found conflict payload_too_large too_many_requests
        internal_server_error :
      Status

-- The answers: an error; the expected size of a chunk; a stored chunk with its file, index and size;
-- a range that cannot be satisfied, or an object that is too large, with the object's size; and
-- the whole object, or the part at an offset, with the object's size.
pub data Answer : Type 0 where
  error : Status → Answer
  wrong_size : ℤ → Answer
  stored : ℤ → ℤ → ℕ → Answer
  range_not_satisfiable : ℤ → Answer
  too_large : ℤ → Answer
  whole : List ℕ → ℤ → Answer
  partial_content : ℕ → List ℕ → ℤ → Answer

abbrev pub respond : FileHttpService → Status → FileHttpService × Answer
respond s e = (s, error e)

-- An error that counts as a failure of the address.
abbrev pub respond_noted : FileHttpService → HttpRequest → Status → ℕ → FileHttpService × Answer
respond_noted s r e now =
    (record s { failure_windows = note_auth_failure s.failure_windows r.ip now }, error e)

-- The ticket that the header names, if it is valid for the kind and belongs to the file.
abbrev pub if_of_file : ℤ → Option Ticket → Option Ticket
if_of_file file none = none
if_of_file file (some x) = if eq_int x.file_id file then some x else none

unfoldable pub find_grant :
    HttpWorld → FileHttpService → HttpRequest → ℤ → List ℕ → ℕ → Option Ticket
find_grant w s r file kind now =
    if is_empty r.ticket
    then none
    else if is_empty (w.ticket_hash r.ticket)
    then none
    else if_of_file file
        (validate_file_ticket w.answers_ticket s.tickets (w.ticket_hash r.ticket) kind now)

-- A granted download ticket is renewed, whether or not that works.
abbrev pub renew_grant : HttpWorld → FileHttpService → List ℕ → Ticket → ℕ → FileHttpService
renew_grant w s kind x now =
    if text_beq kind download_kind
    then record s {
      tickets =
          (renew_file_ticket w.renews s.tickets x.id (pos download_ticket_ttl_seconds)
            (pos download_ticket_max_lifetime_seconds) now).0;
    }
    else s

-- `authorizeTicket`, with what the caller does next as `then_do`.
abbrev pub on_grant :
    HttpWorld
    → FileHttpService
    → HttpRequest
    → List ℕ
    → ℕ
    → (FileHttpService → FileHttpService × Answer)
    → Option Ticket
    → FileHttpService × Answer
on_grant w s r kind now then_do none = respond_noted s r unauthorized now
on_grant w s r kind now then_do (some x) = then_do (renew_grant w s kind x now)

unfoldable pub authorize_ticket :
    HttpWorld
    → FileHttpService
    → HttpRequest
    → ℤ
    → List ℕ
    → ℕ
    → (FileHttpService → FileHttpService × Answer)
    → FileHttpService × Answer
authorize_ticket w s r file kind now then_do =
    on_grant w s r kind now then_do (find_grant w s r file kind now)

-- The part of `handleChunkPut` on the file's record.
unfoldable pub put_to :
    HttpWorld → FileHttpService → HttpRequest → ℤ → ℤ → FileRecord → FileHttpService × Answer
put_to w s r file index f =
    let expected = expected_chunk_bytes f.size_bytes f.chunk_size f.chunk_count index in
    let p = put_chunk w.io s.storage f.blob_key index r.body in
    if not (same_status f.status uploading)
    then respond s conflict
    else if ltb_int expected (pos 0)
    then respond s bad_request
    else if ltb max_chunk_size (length r.body)
    then respond s payload_too_large
    else if not (eq_int (pos (length r.body)) expected)
    then (s, wrong_size expected)
    else if not p.1
    then (record s { storage = p.0 }, error internal_server_error)
    else (record s { storage = p.0 }, stored file index (length r.body))

abbrev pub put_found :
    HttpWorld → HttpRequest → ℤ → ℤ → Option FileRecord → FileHttpService → FileHttpService × Answer
put_found w r file index none s = respond s not_found
put_found w r file index (some f) s = put_to w s r file index f

abbrev pub put_authorized :
    HttpWorld → HttpRequest → ℤ → ℤ → FileHttpService → FileHttpService × Answer
put_authorized w r file index s =
    put_found w r file index (get_file_record w.answers_file s.files file) s

abbrev pub put_index :
    HttpWorld → FileHttpService → HttpRequest → ℕ → ℤ → Option ℤ → FileHttpService × Answer
put_index w s r now file none = respond_noted s r bad_request now
put_index w s r now file (some index) =
    if leb_int (pos max_chunk_count) index
    then respond_noted s r bad_request now
    else authorize_ticket w s r file upload_kind now (put_authorized w r file index)

abbrev pub put_file :
    HttpWorld → FileHttpService → HttpRequest → List ℕ → ℕ → Option ℤ → FileHttpService × Answer
put_file w s r index_text now none = respond_noted s r bad_request now
put_file w s r index_text now (some file) =
    if leb_int file (pos 0)
    then respond_noted s r bad_request now
    else put_index w s r now file (parse_path_number w.format index_text)

-- `handleChunkPut`.
unfoldable pub handle_chunk_put :
    HttpWorld → FileHttpService → HttpRequest → List ℕ → List ℕ → ℕ → FileHttpService × Answer
handle_chunk_put w s r file_text index_text now =
    let a = reject_if_abusing s.failure_windows r.ip now in
    let s₁ = record s { failure_windows = a.0 } in
    if a.1
    then respond s₁ too_many_requests
    else put_file w s₁ r index_text now (parse_path_number w.format file_text)

-- The bytes that were read, unless there are fewer than were asked for.
unfoldable pub send_range :
    HttpWorld → FileHttpService → FileRecord → ℤ → ℕ → ℕ → Bool → FileHttpService × Answer
send_range w s f size offset count is_partial =
    let bytes = read_range w.io s.storage f.blob_key (pos offset) (pos count) in
    if not (eq_int (pos (length bytes)) (pos count))
    then respond s internal_server_error
    else if is_partial
    then (s, partial_content offset bytes size)
    else (s, whole bytes size)

abbrev pub get_range :
    HttpWorld → FileHttpService → FileRecord → ℤ → RangeResult → FileHttpService × Answer
get_range w s f size malformed = respond s bad_request
get_range w s f size unsatisfiable = (s, range_not_satisfiable size)
get_range w s f size absent =
    if ltb_int (pos max_single_get_bytes) size
    then (s, too_large size)
    else send_range w s f size 0 (pos_part size) false
get_range w s f size (range offset count) =
    if ltb max_single_get_bytes count
    then respond s payload_too_large
    else send_range w s f size offset count true

-- The part of `handleBlobGet` on the file's record.
unfoldable pub get_from :
    HttpWorld → FileHttpService → HttpRequest → FileRecord → FileHttpService × Answer
get_from w s r f =
    let size = blob_size s.storage f.blob_key in
    if not (same_status f.status ready)
    then respond s conflict
    else if leb_int size (pos 0)
    then respond s conflict
    else get_range w s f size (parse_range w.format r.range_header size)

abbrev pub get_found :
    HttpWorld → HttpRequest → Option FileRecord → FileHttpService → FileHttpService × Answer
get_found w r none s = respond s not_found
get_found w r (some f) s = get_from w s r f

abbrev pub get_authorized : HttpWorld → HttpRequest → ℤ → FileHttpService → FileHttpService × Answer
get_authorized w r file s = get_found w r (get_file_record w.answers_file s.files file) s

abbrev pub get_file :
    HttpWorld → FileHttpService → HttpRequest → ℕ → Option ℤ → FileHttpService × Answer
get_file w s r now none = respond_noted s r bad_request now
get_file w s r now (some file) =
    if leb_int file (pos 0)
    then respond_noted s r bad_request now
    else authorize_ticket w s r file download_kind now (get_authorized w r file)

-- `handleBlobGet`.
unfoldable pub handle_blob_get :
    HttpWorld → FileHttpService → HttpRequest → List ℕ → ℕ → FileHttpService × Answer
handle_blob_get w s r file_text now =
    let a = reject_if_abusing s.failure_windows r.ip now in
    let s₁ = record s { failure_windows = a.0 } in
    if a.1
    then respond s₁ too_many_requests
    else get_file w s₁ r now (parse_path_number w.format file_text)
