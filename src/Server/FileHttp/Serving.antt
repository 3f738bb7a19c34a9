-- ===== src/Server/FileHttp/Serving.antt =====
-- Chat-Server/http/FileHttpService.cpp: a download that is in order is served.
use xychat_project.Prelude.{
  ℕ, ◌+◌, ◌-◌, ◌≤◌, ◌<◌, ◌≡◌, true, false, List, length, take, drop, min, some, arith, Option-cases,
  inl, inr, length-take, length-drop,
}
use xychat_project.Prelude.Int.{pos, leb_int, eq_int_iff}
use xychat_project.Server.Storage.{Storage, blob_size, object_bytes, is_finalized}
use xychat_project.Server.Storage.Access.{read_range-slice}
use xychat_project.Server.Database.Files.{FileRecord, get_file_record, ready}
use xychat_project.Server.Database.Tickets.{Ticket, validate_file_ticket}
use xychat_project.Server.FileHttp.Parse.{parse_path_number, parse_range, is_empty, range}
use xychat_project.Server.FileHttp.Ranges.{is_decimal, range_header, parse_range-request}
use xychat_project.Server.FileHttp.Windows.{reject_if_abusing}
use xychat_project.Server.FileHttp.Access.{checked}
use xychat_project.Server.FileHttp.{
  HttpWorld, FileHttpService, HttpRequest, partial_content, download_kind, find_grant,
  authorize_ticket, send_range, get_from, handle_blob_get, renew_grant, max_single_get_bytes,
}

-- The request names a file that is ready with a stored object of `size` bytes, its address is not
-- refused, it carries a valid download ticket of the file, and its Range header asks, in decimal
-- digits, for the bytes from `a` to `b`.
pub record IsServable (w : HttpWorld) (s : FileHttpService) (r : HttpRequest)
    (file_text first last : List ℕ) (now : ℕ) (x : Ticket) (f : FileRecord) (a b size : ℕ)
    : Type 0 where
  pub named : parse_path_number w.format file_text ≡ some (x.file_id)
  pub positive : leb_int x.file_id (pos 0) ≡ false
  pub allowed : (reject_if_abusing s.failure_windows r.ip now).1 ≡ false
  pub has_ticket : is_empty r.ticket ≡ false
  pub has_hash : is_empty (w.ticket_hash r.ticket) ≡ false
  pub valid :
      validate_file_ticket w.answers_ticket s.tickets (w.ticket_hash r.ticket) download_kind now
      ≡ some x
  pub known : get_file_record w.answers_file s.files x.file_id ≡ some f
  pub finished : f.status ≡ ready
  pub readable : w.io.read_object ≡ true
  pub there : is_finalized s.storage f.blob_key ≡ true
  pub total : blob_size s.storage f.blob_key ≡ pos size
  pub header : r.range_header ≡ range_header first last
  pub decimal : (is_decimal first ≡ true) × (is_decimal last ≡ true)
  pub not_empty : (is_empty first ≡ false) × (is_empty last ≡ false)
  pub reads_first : w.format.to_long_long first ≡ some (pos a)
  pub reads_last : w.format.to_long_long last ≡ some (pos b)
  pub ordered : (a ≤ b) × (a < size)
  pub few : min b (size - 1) - a + 1 ≤ max_single_get_bytes

object_length :
    (s : Storage) (key : List ℕ) (n : ℕ)
    → blob_size s key ≡ pos n
    → length (object_bytes (s key)) ≡ n
unfolding blob_size
object_length s key n h = elim (Option-cases (s key).object) [
  | inl e ↦ absurd (ground (arith, e, h))
  | inr (o, e) ↦ ground (arith, e, h)
]

send_range_lem :
    (w : HttpWorld) (s : FileHttpService) (f : FileRecord) (a n size : ℕ)
    → is_finalized s.storage f.blob_key ≡ true
    → w.io.read_object ≡ true
    → length (object_bytes (s.storage f.blob_key)) ≡ size
    → 0 < n
    → a + n ≤ size
    → (send_range w s f (pos size) a n true).1
      ≡ partial_content a (take n (drop a (object_bytes (s.storage f.blob_key)))) (pos size)
unfolding send_range
send_range_lem w s f a n size t r l z m =
    let b = object_bytes (s.storage f.blob_key) in
    let e = read_range-slice w.io s.storage f.blob_key a n t r z in
    let k : length (take n (drop a b)) ≡ n =
      omega (arith, length-take n (drop a b), length-drop a b, l) in
    ground (arith, e, k, eq_int_iff (pos n) (pos n))

get_from_lem :
    (w : HttpWorld) (s : FileHttpService) (r : HttpRequest) (f : FileRecord) (a n size : ℕ)
    → f.status ≡ ready
    → blob_size s.storage f.blob_key ≡ pos size
    → parse_range w.format r.range_header (pos size) ≡ range a n
    → n ≤ max_single_get_bytes
    → 0 < size
    → (get_from w s r f).1 ≡ (send_range w s f (pos size) a n true).1
unfolding get_from
get_from_lem w s r f a n size h t p m z = ground (arith, h, t, p)

-- A download is answered with status 206 and the bytes of the file's object from `a` to `b`, or to its
-- end where `b` is past it, if all of this holds: the path names a positive file id; the address is
-- not refused for failures; the request has a ticket whose hash is not empty and that is a valid
-- download ticket of that file in the database; the row of the file is found and ready; its object
-- is finalized, has `size` bytes and can be read; the Range header is `bytes=first-last`, `first`
-- and `last` are non-empty decimal digits and read as the numbers `a` and `b`; `a` is at most `b`
-- and below `size`; and the bytes asked for are at most the maximum of one download.
pub handle_blob_get-serves :
    (w : HttpWorld) (s : FileHttpService) (r : HttpRequest) (file_text first last : List ℕ)
    (now : ℕ) (x : Ticket) (f : FileRecord) (a b size : ℕ)
    → IsServable w s r file_text first last now x f a b size
    → (handle_blob_get w s r file_text now).1
      ≡ partial_content a
          (take (min b (size - 1) - a + 1) (drop a (object_bytes (s.storage f.blob_key))))
          (pos size)
unfolding handle_blob_get authorize_ticket find_grant
handle_blob_get-serves w s r file_text first last now x f a b size h =
    let n = min b (size - 1) - a + 1 in
    let s₁ = renew_grant w (checked s r now) download_kind x now in
    let p : parse_range w.format r.range_header (pos size) ≡ range a n = rw h.header (
      parse_range-request w.format first last a b size (h.decimal.0) (h.decimal.1) (h.not_empty.0)
        (h.not_empty.1) h.reads_first h.reads_last (h.ordered.0) (h.ordered.1)) in
    let from =
      get_from_lem w s₁ r f a n size h.finished h.total p h.few (omega (arith, h.ordered.1)) in
    let sent =
      send_range_lem w s₁ f a n size h.there h.readable
        (object_length s.storage f.blob_key size h.total) (omega arith)
        (omega (arith, h.ordered.0, h.ordered.1)) in
    ground (
      arith,
      h.allowed,
      h.named,
      h.positive,
      h.has_ticket,
      h.has_hash,
      h.valid,
      eq_int_iff x.file_id x.file_id,
      h.known,
      from,
      sent,
    )
