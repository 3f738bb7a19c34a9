-- ===== src/Server/FileHttp/Downloads.antt =====
-- Chat-Server/http/FileHttpService.cpp: who gets which part of a file.
use xychat_project.Prelude.{
  ℕ, ◌≡◌, refl, ap, sym, List, Option, none, some, arith, Bool-cases, inl, inr,
}
use xychat_project.Prelude.Int.{ℤ, pos, leb_int}
use xychat_project.Server.Database.Files.{FileRecord, get_file_record, ready}
use xychat_project.Server.Database.Tickets.{Ticket, validate_file_ticket}
use xychat_project.Server.FileHttp.Parse.{parse_path_number}
use xychat_project.Server.FileHttp.Windows.{reject_if_abusing}
use xychat_project.Server.FileHttp.Access.{checked, grant_valid, grant_of_checked}
use xychat_project.Server.FileHttp.Transfer.{Part, content, IsPart, part_of_file}
use xychat_project.Server.FileHttp.{
  HttpWorld, FileHttpService, HttpRequest, download_kind, find_grant, on_grant, authorize_ticket,
  get_found, get_authorized, get_file, handle_blob_get, renew_grant,
}

-- What stands behind bytes that are handed out.
pub record Fetched (w : HttpWorld) (s : FileHttpService) (r : HttpRequest) (file : ℤ) (now : ℕ)
    (p : Part) : Type 0 where
  pub ticket : Ticket
  pub row : FileRecord
  pub valid :
      validate_file_ticket w.answers_ticket s.tickets (w.ticket_hash r.ticket) download_kind now
      ≡ some ticket
  pub bound : ticket.file_id ≡ file
  pub known : get_file_record w.answers_file s.files file ≡ some row
  pub finished : row.status ≡ ready
  pub part : IsPart s.storage row.blob_key p

module _ (w : HttpWorld) (s : FileHttpService) (r : HttpRequest) (now : ℕ) (p : Part) where
  Fetched-by_found :
      (file : ℤ) (x : Ticket) (o : Option FileRecord) (s₁ : FileHttpService)
      → validate_file_ticket w.answers_ticket s.tickets (w.ticket_hash r.ticket) download_kind now
        ≡ some x
      → x.file_id ≡ file
      → get_file_record w.answers_file s.files file ≡ o
      → s₁.storage ≡ s.storage
      → content (get_found w r o s₁).1 ≡ some p
      → Fetched w s r file now p
  Fetched-by_found file x none s₁ v b k e h = absurd (ground (arith, h))
  Fetched-by_found file x (some f) s₁ v b k e h =
      let q = part_of_file w s₁ r f p h in
      record {
        ticket = x;
        row = f;
        valid = v;
        bound = b;
        known = k;
        finished = q.0;
        part = rw (sym e) (q.1);
      }

  Fetched-by_grant :
      (file : ℤ) (o : Option Ticket) (s₁ : FileHttpService)
      → find_grant w s r file download_kind now ≡ o
      → s₁.storage ≡ s.storage
      → s₁.files ≡ s.files
      → content (on_grant w s₁ r download_kind now (get_authorized w r file) o).1 ≡ some p
      → Fetched w s r file now p
  Fetched-by_grant file none s₁ g e k h = absurd (ground (arith, h))
  Fetched-by_grant file (some x) s₁ g e k h =
      let v = grant_valid w s r file download_kind now x g in
      Fetched-by_found file x (get_file_record w.answers_file s₁.files file)
        (renew_grant w s₁ download_kind x now) (v.0) (v.1)
        (ap (λ t. get_file_record w.answers_file t file) (sym k)) e h

  Fetched-by_file :
      (o : Option ℤ)
      → content (get_file w (checked s r now) r now o).1 ≡ some p
      → (file : ℤ) × (o ≡ some file) × Fetched w s r file now p
  unfolding authorize_ticket
  Fetched-by_file none h = absurd (ground (arith, h))
  Fetched-by_file (some file) h = elim (Bool-cases (leb_int file (pos 0))) [
    | inl e ↦ absurd (ground (arith, e, h))
    | inr e ↦ (
      file,
      refl,
      Fetched-by_grant file (find_grant w (checked s r now) r file download_kind now)
          (checked s r now) (sym (grant_of_checked w s r now file download_kind)) refl refl
          (rw e at h),
    )
  ]

-- If a download answers with bytes, then the path names a file, the request carried a valid download
-- ticket of just this file, the file is ready, and the bytes are the part of its stored object that
-- begins at the offset of the answer, at least one byte and at most 4 MiB; the size that the answer
-- states is the object's.
pub content_answer-Fetched :
    (w : HttpWorld) (s : FileHttpService) (r : HttpRequest) (file_text : List ℕ) (now : ℕ)
    (p : Part)
    → content (handle_blob_get w s r file_text now).1 ≡ some p
    → (file : ℤ) × (parse_path_number w.format file_text ≡ some file) × Fetched w s r file now p
unfolding handle_blob_get
content_answer-Fetched w s r file_text now p h =
    elim (Bool-cases (reject_if_abusing s.failure_windows r.ip now).1) [
      | inl e ↦ absurd (ground (arith, e, h))
      | inr e ↦ Fetched-by_file w s r now p (parse_path_number w.format file_text) (rw e at h)
    ]
