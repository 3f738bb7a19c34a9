-- ===== src/Examples/FileHttp.antt =====
-- The file service at concrete requests: numbers are read as decimal digits, an upload of three bytes.
use xychat_project.Prelude.{
  ℕ, ◌+◌, ◌*◌, ◌-◌, ◌≡◌, refl, true, false, ◌||◌, ◌&&◌, List, [], ◌∷◌, leb, min, take, drop, some,
  arith,
}
use xychat_project.Prelude.Int.{ℤ, pos}
use xychat_project.Prelude.Json.{codes}
use xychat_project.Protocol.FileProtocol.{
  expected_chunk_bytes, is_chunking_valid, chunk_count_for, is_hex_lower,
}
use xychat_project.Server.Storage.{
  put_chunk, is_valid_blob_key, blob_size, read_range, is_finalized, object_bytes,
}
use xychat_project.Server.Storage.Upload.{working}
use xychat_project.Server.Database.Files.{find_file, get_file_record}
use xychat_project.Server.Database.Tickets.{validate_file_ticket, find_ticket, renew_file_ticket}
use xychat_project.Server.FileHttp.Parse.{
  NumberFormat, trim_start, trim_end, trimmed, same_letters, contains_byte, index_of, range_between,
  range_end, range_start, range_spec, parse_range, all_digits, parse_path_number,
}
use xychat_project.Server.FileHttp.Ranges.{range_header}
use xychat_project.Server.FileHttp.Windows.{prune_failure_windows, reject_if_abusing}
use xychat_project.Server.FileHttp.Limit.{
  WindowEvent, checked, noted, after_events, abusing_address_refused,
}
use xychat_project.Server.FileHttp.Access.{Stored, stored_answer-Stored}
use xychat_project.Server.FileHttp.Downloads.{Fetched, content_answer-Fetched}
use xychat_project.Server.FileHttp.Serving.{handle_blob_get-serves}
use xychat_project.Server.FileHttp.Start.{Network, Settings, local_host, start, start-listening}
use xychat_project.Server.FileHttp.{
  HttpWorld, FileHttpService, HttpRequest, error, too_many_requests, partial_content, find_grant,
  authorize_ticket, put_to, send_range, get_from, handle_chunk_put, handle_blob_get, upload_kind,
  download_kind,
}
use xychat_project.Examples.FileData.{
  key, in_progress, finished, table, no_storage, object_storage, hash, ticket_of, tickets_of,
  file_bytes,
}

abbrev digits_from : ℕ → List ℕ → ℕ
digits_from n [] = n
digits_from n (c ∷ cs) = digits_from (n * 10 + (c - 48)) cs

abbrev decimal_format : NumberFormat
decimal_format = record {
  to_long_long = λ t. some (pos (digits_from 0 t));
  is_digit = λ c. leb 48 c && leb c 57;
}

abbrev world : HttpWorld
world = record {
  format = decimal_format;
  ticket_hash = λ t. hash;
  answers_ticket = true;
  renews = true;
  answers_file = true;
  io = working;
}

abbrev uploading_service : FileHttpService
uploading_service = record {
  failure_windows = [];
  tickets = tickets_of upload_kind;
  files = table in_progress;
  storage = no_storage;
}

abbrev download_service : FileHttpService
download_service = record {
  failure_windows = [];
  tickets = tickets_of download_kind;
  files = table finished;
  storage = object_storage;
}

abbrev ip : List ℕ
ip = codes "10.0.0.1"

abbrev request : List ℕ → List ℕ → HttpRequest
request range_text body = record {
  ip = ip;
  ticket = b't' ∷ [];
  range_header = range_text;
  body = body;
}

stored_answer-Stored_example :
    Stored world uploading_service
      (request [] file_bytes)
      (pos 1)
      (pos 0)
      1500
      (handle_chunk_put world uploading_service
        (request [] file_bytes)
        (codes "1")
        (codes "0")
        1500).0
unfolding handle_chunk_put parse_path_number all_digits prune_failure_windows reject_if_abusing
    authorize_ticket find_grant validate_file_ticket find_ticket get_file_record find_file put_to
    put_chunk is_valid_blob_key is_hex_lower expected_chunk_bytes is_chunking_valid chunk_count_for
    is_finalized
stored_answer-Stored_example =
    stored_answer-Stored world uploading_service (request [] file_bytes) (codes "1") (codes "0")
      1500 (pos 1) (pos 0) 3 refl

content_answer-Fetched_example :
    (file : ℤ) × (parse_path_number decimal_format (codes "1") ≡ some file)
    × Fetched world download_service
        (request (codes "bytes=1-9") [])
        file
        1500
        (record { offset = 1; bytes = 2 ∷ 3 ∷ []; size = pos 3 })
unfolding handle_blob_get parse_path_number all_digits prune_failure_windows reject_if_abusing
    authorize_ticket find_grant validate_file_ticket find_ticket renew_file_ticket get_file_record
    find_file get_from send_range blob_size read_range is_finalized is_valid_blob_key is_hex_lower
    parse_range same_letters trimmed trim_start trim_end range_spec contains_byte index_of
    range_start range_end range_between
content_answer-Fetched_example =
    content_answer-Fetched world download_service (request (codes "bytes=1-9") []) (codes "1") 1500
      (record { offset = 1; bytes = 2 ∷ 3 ∷ []; size = pos 3 }) refl

handle_blob_get-serves_example :
    (handle_blob_get world download_service
      (request (range_header (codes "1") (codes "9")) [])
      (codes "1")
      1500).1
    ≡ partial_content 1
        (take (min 9 (3 - 1) - 1 + 1) (drop 1 (object_bytes (object_storage key))))
        (pos 3)
unfolding parse_path_number all_digits prune_failure_windows reject_if_abusing validate_file_ticket
    find_ticket get_file_record find_file blob_size is_finalized is_valid_blob_key is_hex_lower
handle_blob_get-serves_example =
    handle_blob_get-serves world download_service
      (request (range_header (codes "1") (codes "9")) []) (codes "1") (codes "1") (codes "9") 1500
      (ticket_of download_kind) finished 1 9 3
      (record {
        named = refl;
        positive = refl;
        allowed = refl;
        has_ticket = refl;
        has_hash = refl;
        valid = refl;
        known = refl;
        finished = refl;
        readable = refl;
        there = refl;
        total = refl;
        header = refl;
        decimal = (refl, refl);
        not_empty = (refl, refl);
        reads_first = refl;
        reads_last = refl;
        ordered = (omega arith, omega arith);
        few = omega arith;
      })

abbrev failing : FileHttpService
failing = record download_service {
  failure_windows = (ip, record { window_start = 1500; count = 29 }) ∷ [];
}

abbrev events : List WindowEvent
events = checked ip 1510 ∷ noted ip 1510 ∷ checked (codes "10.0.0.2") 1520 ∷ []

-- The address failed 29 times, and once more.
abusing_address_refused_example :
    let s' = record failing { failure_windows = after_events failing.failure_windows events } in
    let put = handle_chunk_put world s' (request [] file_bytes) (codes "1") (codes "0") 1530 in
    let get = handle_blob_get world s' (request [] file_bytes) (codes "1") 1530 in
    (put.1 ≡ error too_many_requests)
    × (get.1 ≡ error too_many_requests)
    × ((put.0).tickets ≡ failing.tickets)
    × ((put.0).files ≡ failing.files)
    × ((put.0).storage ≡ failing.storage)
    × ((get.0).tickets ≡ failing.tickets)
    × ((get.0).files ≡ failing.files)
    × ((get.0).storage ≡ failing.storage)
abusing_address_refused_example =
    abusing_address_refused world failing (request [] file_bytes) (codes "1") (codes "0") 1500 29
      1530 events refl refl refl (omega arith) (omega arith) refl

abbrev network : Network
network = record {
  initializes_database = true;
  set_address = λ t. some t;
  is_loopback = λ a. true;
  listens = true;
  binds = true;
}

abbrev settings : Settings
settings = record {
  has_storage = true;
  tls_enabled = false;
  allow_plaintext = true;
  bind_host = [];
  allow_public_bind = false;
  advertised_host = local_host;
}

start-listening_example :
    (settings.has_storage ≡ true)
    × (false ≡ settings.tls_enabled)
    × (settings.tls_enabled || settings.allow_plaintext ≡ true)
    × (network.is_loopback local_host || settings.allow_public_bind ≡ true)
    × (some local_host ≡ some local_host)
unfolding start
start-listening_example = start-listening network settings local_host false refl
