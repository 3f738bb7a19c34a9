-- ===== src/Server/FileHttp/Access.antt =====
-- Chat-Server/http/FileHttpService.cpp: what an answer of the service says about the request's ticket,
-- the file and the stored data.
use xychat_project.Prelude.{
  ℕ, ◌≡◌, refl, ap, sym, Bool, true, false, List, length, Option, none, some, arith, Option-cases,
  Bool-cases, inl, inr,
}
use xychat_project.Prelude.Int.{ℤ, pos, leb_int, eq_int_iff}
use xychat_project.Protocol.FileProtocol.{max_chunk_count, expected_chunk_bytes}
use xychat_project.Server.Storage.{put_chunk}
use xychat_project.Server.Database.Files.{
  FileStatus, FileRecord, get_file_record, same_status, uploading, ready, cancelled, failed,
}
use xychat_project.Server.Database.Tickets.{Ticket, validate_file_ticket}
use xychat_project.Server.FileHttp.Parse.{parse_path_number}
use xychat_project.Server.FileHttp.Windows.{reject_if_abusing}
use xychat_project.Server.FileHttp.{
  HttpWorld, FileHttpService, HttpRequest, Answer, stored, upload_kind, find_grant, on_grant,
  authorize_ticket, put_to, put_found, put_authorized, put_index, put_file, handle_chunk_put,
  renew_grant,
}

uploading_lem : (s : FileStatus) → same_status s uploading ≡ true → s ≡ uploading
uploading_lem uploading h = refl
uploading_lem ready h = absurd (cc)
uploading_lem cancelled h = absurd (cc)
uploading_lem failed h = absurd (cc)

-- What stands behind a chunk that was stored for a file.
pub record Stored (w : HttpWorld) (s : FileHttpService) (r : HttpRequest) (file index : ℤ) (now : ℕ)
    (o : FileHttpService) : Type 0 where
  pub ticket : Ticket
  pub row : FileRecord
  pub valid :
      validate_file_ticket w.answers_ticket s.tickets (w.ticket_hash r.ticket) upload_kind now
      ≡ some ticket
  pub bound : ticket.file_id ≡ file
  pub known : get_file_record w.answers_file s.files file ≡ some row
  pub in_progress : row.status ≡ uploading
  pub size :
      pos (length r.body) ≡ expected_chunk_bytes row.size_bytes row.chunk_size row.chunk_count index
  pub accepted : (put_chunk w.io s.storage row.blob_key index r.body).1 ≡ true
  pub written : o.storage ≡ (put_chunk w.io s.storage row.blob_key index r.body).0

pub grant_valid :
    (w : HttpWorld) (s : FileHttpService) (r : HttpRequest) (file : ℤ) (kind : List ℕ) (now : ℕ)
    (x : Ticket)
    → find_grant w s r file kind now ≡ some x
    → (validate_file_ticket w.answers_ticket s.tickets (w.ticket_hash r.ticket) kind now ≡ some x)
      × (x.file_id ≡ file)
unfolding find_grant
grant_valid w s r file kind now x h =
    elim (Option-cases
      (validate_file_ticket w.answers_ticket s.tickets (w.ticket_hash r.ticket) kind now)) [
        | inl e ↦ absurd (ground (arith, e, h))
        | inr (y, e) ↦ ground (arith, e, h, eq_int_iff y.file_id file)
      ]

stored_by_put_to :
    (w : HttpWorld) (s : FileHttpService) (r : HttpRequest) (file index i j : ℤ) (n : ℕ)
    (f : FileRecord)
    → (put_to w s r file index f).1 ≡ stored i j n
    → (i ≡ file)
      × (j ≡ index)
      × (f.status ≡ uploading)
      × (pos (length r.body) ≡ expected_chunk_bytes f.size_bytes f.chunk_size f.chunk_count index)
      × ((put_chunk w.io s.storage f.blob_key index r.body).1 ≡ true)
      × ((put_to w s r file index f).0.storage
          ≡ (put_chunk w.io s.storage f.blob_key index r.body).0)
unfolding put_to
stored_by_put_to w s r file index i j n f h = ground (
  arith,
  h,
  uploading_lem f.status,
  eq_int_iff (pos (length r.body))
      (expected_chunk_bytes f.size_bytes f.chunk_size f.chunk_count index),
)

-- The state in which the checks of a request are made.
abbrev pub checked : FileHttpService → HttpRequest → ℕ → FileHttpService
checked s r now = record s { failure_windows = (reject_if_abusing s.failure_windows r.ip now).0 }

-- Whether an answer says that a chunk was stored.
abbrev pub is_stored : Answer → Bool
is_stored (stored file index n) = true
is_stored _ = false

module _ (w : HttpWorld) (s : FileHttpService) (r : HttpRequest) (now : ℕ) where
  abbrev Claim : ℤ → ℤ → FileHttpService × Answer → Type 0
  Claim i j o = (o.1 ≡ stored i j (length r.body)) × Stored w s r i j now (o.0)

  stored_by_record :
      (file index i j : ℤ) (n : ℕ) (x : Ticket) (f : FileRecord) (s₁ : FileHttpService)
      → validate_file_ticket w.answers_ticket s.tickets (w.ticket_hash r.ticket) upload_kind now
        ≡ some x
      → x.file_id ≡ file
      → get_file_record w.answers_file s.files file ≡ some f
      → s₁.storage ≡ s.storage
      → (put_to w s₁ r file index f).1 ≡ stored i j n
      → Stored w s r i j now (put_to w s₁ r file index f).0
  stored_by_record file index i j n x f s₁ v b k e h =
      let p = stored_by_put_to w s₁ r file index i j n f h in
      record {
        ticket = x;
        row = f;
        valid = v;
        bound = ground (arith, b, p);
        known = ground (arith, k, p);
        in_progress = ground (arith, p);
        size = ground (arith, p);
        accepted = ground (arith, p, e);
        written = ground (arith, p, e);
      }

  stored_by_found :
      (file index i j : ℤ) (n : ℕ) (x : Ticket) (o : Option FileRecord) (s₁ : FileHttpService)
      → validate_file_ticket w.answers_ticket s.tickets (w.ticket_hash r.ticket) upload_kind now
        ≡ some x
      → x.file_id ≡ file
      → get_file_record w.answers_file s.files file ≡ o
      → s₁.storage ≡ s.storage
      → (put_found w r file index o s₁).1 ≡ stored i j n
      → Stored w s r i j now (put_found w r file index o s₁).0
  stored_by_found file index i j n x none s₁ v b k e h = absurd (ground (arith, h))
  stored_by_found file index i j n x (some f) s₁ v b k e h =
      stored_by_record file index i j n x f s₁ v b k e h

  stored_by_grant :
      (file index i j : ℤ) (n : ℕ) (o : Option Ticket) (s₁ : FileHttpService)
      → find_grant w s r file upload_kind now ≡ o
      → s₁.storage ≡ s.storage
      → s₁.files ≡ s.files
      → (on_grant w s₁ r upload_kind now (put_authorized w r file index) o).1 ≡ stored i j n
      → Stored w s r i j now (on_grant w s₁ r upload_kind now (put_authorized w r file index) o).0
  stored_by_grant file index i j n none s₁ g e k h = absurd (ground (arith, h))
  stored_by_grant file index i j n (some x) s₁ g e k h =
      let v = grant_valid w s r file upload_kind now x g in
      stored_by_found file index i j n x (get_file_record w.answers_file s₁.files file)
        (renew_grant w s₁ upload_kind x now) (v.0) (v.1)
        (ap (λ t. get_file_record w.answers_file t file) (sym k)) e h

  pub grant_of_checked :
      (file : ℤ) (kind : List ℕ)
      → find_grant w (checked s r now) r file kind now ≡ find_grant w s r file kind now
  unfolding find_grant
  grant_of_checked file kind = refl

  stored_by_index :
      (file i j : ℤ) (n : ℕ) (o : Option ℤ)
      → (put_index w (checked s r now) r now file o).1 ≡ stored i j n
      → Stored w s r i j now (put_index w (checked s r now) r now file o).0
  unfolding authorize_ticket
  stored_by_index file i j n none h = absurd (ground (arith, h))
  stored_by_index file i j n (some index) h =
      elim (Bool-cases (leb_int (pos max_chunk_count) index)) [
        | inl e ↦ absurd (ground (arith, e, h))
        | inr e ↦ rw e (
            stored_by_grant file index i j n (find_grant w (checked s r now) r file upload_kind now)
              (checked s r now) (sym (grant_of_checked file upload_kind)) refl refl (rw e at h))
      ]

  stored_by_file :
      (index_text : List ℕ) (i j : ℤ) (n : ℕ) (o : Option ℤ)
      → (put_file w (checked s r now) r index_text now o).1 ≡ stored i j n
      → Stored w s r i j now (put_file w (checked s r now) r index_text now o).0
  stored_by_file index_text i j n none h = absurd (ground (arith, h))
  stored_by_file index_text i j n (some file) h = elim (Bool-cases (leb_int file (pos 0))) [
    | inl e ↦ absurd (ground (arith, e, h))
    | inr e ↦ rw e (stored_by_index file i j n (parse_path_number w.format index_text) (rw e at h))
  ]

-- If the service answers that a chunk of a file is stored, then the request carried a valid upload
-- ticket of just this file, the file's upload is in progress, the body has exactly the size that the
-- file's layout gives the chunk, and the storage took it under the file's own blob key: the stored
-- data afterwards is the result of that one write.
pub stored_answer-Stored :
    (w : HttpWorld) (s : FileHttpService) (r : HttpRequest) (file_text index_text : List ℕ)
    (now : ℕ) (file index : ℤ) (n : ℕ)
    → (handle_chunk_put w s r file_text index_text now).1 ≡ stored file index n
    → Stored w s r file index now (handle_chunk_put w s r file_text index_text now).0
unfolding handle_chunk_put
stored_answer-Stored w s r file_text index_text now file index n h =
    elim (Bool-cases (reject_if_abusing s.failure_windows r.ip now).1) [
      | inl e ↦ absurd (ground (arith, e, h))
      | inr e ↦ rw e (
          stored_by_file w s r now index_text file index n (parse_path_number w.format file_text)
            (rw e at h))
    ]

put_to-unchanged :
    (w : HttpWorld) (s : FileHttpService) (r : HttpRequest) (file index : ℤ) (f : FileRecord)
    → is_stored (put_to w s r file index f).1 ≡ false
    → (put_to w s r file index f).0.storage ≡ s.storage
unfolding put_to put_chunk
put_to-unchanged w s r file index f h = ground (arith, h)

put_found-unchanged :
    (w : HttpWorld) (s : FileHttpService) (r : HttpRequest) (file index : ℤ) (o : Option FileRecord)
    → is_stored (put_found w r file index o s).1 ≡ false
    → (put_found w r file index o s).0.storage ≡ s.storage
put_found-unchanged w s r file index none h = refl
put_found-unchanged w s r file index (some f) h = put_to-unchanged w s r file index f h

put_index-unchanged :
    (w : HttpWorld) (s : FileHttpService) (r : HttpRequest) (now : ℕ) (file : ℤ) (o : Option ℤ)
    → is_stored (put_index w s r now file o).1 ≡ false
    → (put_index w s r now file o).0.storage ≡ s.storage
unfolding authorize_ticket
put_index-unchanged w s r now file none h = refl
put_index-unchanged w s r now file (some index) h =
    elim (Bool-cases (leb_int (pos max_chunk_count) index)) [
      | inl e ↦ ground (arith, e)
      | inr e ↦ elim (Option-cases (find_grant w s r file upload_kind now)) [
        | inl g ↦ ground (arith, e, g)
        | inr (x, g) ↦
            let s₁ = renew_grant w s upload_kind x now in
            let same : s₁.storage ≡ s.storage = ground arith in
            ground (
              arith,
              e,
              g,
              h,
              same,
              put_found-unchanged w s₁ r file index (get_file_record w.answers_file s₁.files file),
            )
      ]
    ]

put_file-unchanged :
    (w : HttpWorld) (s : FileHttpService) (r : HttpRequest) (t : List ℕ) (now : ℕ) (o : Option ℤ)
    → is_stored (put_file w s r t now o).1 ≡ false
    → (put_file w s r t now o).0.storage ≡ s.storage
put_file-unchanged w s r t now none h = refl
put_file-unchanged w s r t now (some file) h =
    ground (arith, h, put_index-unchanged w s r now file (parse_path_number w.format t))

-- Any other answer to an upload leaves the stored data as it was.
pub other_answer_unchanged :
    (w : HttpWorld) (s : FileHttpService) (r : HttpRequest) (file_text index_text : List ℕ)
    (now : ℕ)
    → is_stored (handle_chunk_put w s r file_text index_text now).1 ≡ false
    → (handle_chunk_put w s r file_text index_text now).0.storage ≡ s.storage
unfolding handle_chunk_put
other_answer_unchanged w s r file_text index_text now h = ground (
  arith,
  h,
  put_file-unchanged w (checked s r now) r index_text now (parse_path_number w.format file_text),
)
