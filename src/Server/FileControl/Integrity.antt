-- ===== src/Server/FileControl/Integrity.antt =====
-- Chat-Server/core/RequestHandler.cpp: every request on files keeps the table and the storage sound.
use mathlib.Core.Path.{subst}
use xychat_project.Prelude.{
  ℕ, ◌≡◌, refl, sym, ◌∙◌, Bool, true, false, ◌||◌, not, [], Option, none, some, arith, Option-cases,
  Bool-cases, inl, inr, some_inj,
}
use xychat_project.Prelude.Int.{ℤ, pos, leb_int, eq_int_iff}
use xychat_project.Prelude.Json.{Fields, value, to_long_long}
use xychat_project.Server.Storage.{
  Storage, FinalizeStatus, finalized, invalid_arguments, incomplete, chunk_size_mismatch,
  checksum_mismatch, storage_error, finalize, remove,
}
use xychat_project.Server.Storage.Access.{other_keys}
use xychat_project.Server.Database.Files.{
  FileStatus, Files, FileRecord, find_file, get_file_record, same_status, uploading, ready,
  cancelled, failed, mark_file_ready, mark_file_cancelled, is_empty, can_user_access_file,
}
use xychat_project.Server.Database.Files.Rows.{find-id}
use xychat_project.Server.FileControl.Sound.{
  IsSound, is_backed, storage-IsSound, transition-IsSound, IsConsistent, assembled_backed,
}
use xychat_project.Server.FileHttp.{download_kind, download_ticket_ttl_seconds}
use xychat_project.Server.RateWindow.{allow}
use xychat_project.Server.Database.Tickets.{issue_file_ticket}
use xychat_project.Server.FileControl.{
  World, FileServer, User, FileReply, require_owned_file, on_owned_file,
  process_file_upload_query_request, fail_upload, finish_upload, after_finalize, complete_uploading,
  complete_in, process_file_upload_complete_request, cancel_result, cancel_in,
  process_file_upload_cancel_request, issue_download_ticket, process_file_download_ticket_request,
  upload_state, received, download_in, FileRequest, handle, upload_create, upload_query,
  upload_complete, upload_cancel, download,
}
use xychat_project.Server.FileControl.Creation.{
  cancelled_by_failure, failed_by_fault, create_request-IsConsistent,
}

owned_found :
    (w : World) (s : FileServer) (me : User) (file : ℤ) (f : FileRecord)
    → require_owned_file w s me file ≡ some f
    → (find_file f.id s.files.rows ≡ some f) × (f.uploader_id ≡ me.user_id)
unfolding require_owned_file get_file_record
owned_found w s me file f h = elim (Option-cases (find_file file s.files.rows)) [
  | inl e ↦ absurd (ground (arith, e, h))
  | inr (g, e) ↦
      ground (arith, e, h, find-id file s.files.rows g e, eq_int_iff g.uploader_id me.user_id)
]

on_owned-IsConsistent :
    (w : World) (s : FileServer) (me : User) (request : Fields) (now : ℕ)
    (act : FileServer → FileRecord → FileServer × FileReply)
    → ((s₁ : FileServer) (f : FileRecord)
        → IsConsistent s₁
        → find_file f.id s₁.files.rows ≡ some f
        → IsConsistent (act s₁ f).0)
    → IsConsistent s
    → IsConsistent (on_owned_file w s me request now act).0
on_owned-IsConsistent w s me request now act k v =
    let file = to_long_long w.long_of_text (value request "fileId") in
    let a = allow s.ops_window now in
    let s₁ = record s { ops_window = a.0 } in
    elim (Bool-cases (leb_int file (pos 0))) [
      | inl e ↦ rw e v
      | inr e ↦ elim (Bool-cases a.1) [
        | inr l ↦ rw (e, l) v
        | inl l ↦ elim (Option-cases (require_owned_file w s₁ me file)) [
          | inl n ↦ rw (e, l, n) v
          | inr (f, h) ↦ rw (e, l, h) (k s₁ f v ((owned_found w s₁ me file f h).0))
        ]
      ]
    ]

uploading_not_ready : (f : FileRecord) → f.status ≡ uploading → same_status f.status ready ≡ false
uploading_not_ready f e = rw e refl

-- Its data is removed, or changed by the assembly: no other key's.
removed-IsSound :
    (w : World) (t : Files) (s : Storage) (f : FileRecord)
    → find_file f.id t.rows ≡ some f
    → same_status f.status ready ≡ false
    → IsSound t s
    → IsSound t (remove w.io s f.blob_key).0
removed-IsSound w t s f h n v =
    storage-IsSound t s (remove w.io s f.blob_key).0 f.id f v h n
      (λ k d. (other_keys w.sha256 w.io s f.blob_key k [] [] (pos 0) (pos 0) (pos 0) (pos 0) d).2)

assembled-IsSound :
    (w : World) (t : Files) (s : Storage) (f : FileRecord)
    → find_file f.id t.rows ≡ some f
    → same_status f.status ready ≡ false
    → IsSound t s
    → IsSound t
        (finalize w.sha256 w.io s f.blob_key f.size_bytes f.chunk_size f.chunk_count f.sha256_hex).0
assembled-IsSound w t s f h n v =
    storage-IsSound t s
      (finalize w.sha256 w.io s f.blob_key f.size_bytes f.chunk_size f.chunk_count f.sha256_hex).0
      f.id f v h n
      (λ k d.
        (other_keys w.sha256 w.io s f.blob_key k [] f.sha256_hex (pos 0) f.size_bytes f.chunk_size
          f.chunk_count d).1)

faulty-IsConsistent :
    (w : World) (s : FileServer) (f : FileRecord)
    → find_file f.id s.files.rows ≡ some f
    → same_status f.status ready ≡ false
    → IsConsistent s
    → IsConsistent (fail_upload w s f).0
faulty-IsConsistent w s f h n v =
    failed_by_fault w.marks s.files (remove w.io s.storage f.blob_key).0 f.id
      (removed-IsSound w s.files s.storage f h n v)

finish-IsConsistent :
    (w : World) (s : FileServer) (f : FileRecord) (r : Files × Bool)
    → IsSound (r.0) s.storage
    → IsConsistent (finish_upload w s f r).0
finish-IsConsistent w s f (t, false) v = v
finish-IsConsistent w s f (t, true) v = v

after_finalize-IsConsistent :
    (w : World) (s : FileServer) (f : FileRecord) (now : ℕ) (st : FinalizeStatus)
    → find_file f.id s.files.rows ≡ some f
    → same_status f.status ready ≡ false
    → (st ≡ finalized → is_backed s.storage f ≡ true)
    → IsConsistent s
    → IsConsistent (after_finalize w s f now st).0
unfolding after_finalize mark_file_ready
after_finalize-IsConsistent w s f now finalized h n b v =
    finish-IsConsistent w s f (mark_file_ready w.marks s.files f.id now) (
      transition-IsSound w.marks s.files s.storage f.id ready (some now)
        (λ g hg e. subst (λ x. is_backed s.storage x ≡ true) (some_inj (sym h ∙ hg)) (b refl)) v)
after_finalize-IsConsistent w s f now incomplete h n b v = v
after_finalize-IsConsistent w s f now storage_error h n b v = v
after_finalize-IsConsistent w s f now invalid_arguments h n b v = faulty-IsConsistent w s f h n v
after_finalize-IsConsistent w s f now chunk_size_mismatch h n b v = faulty-IsConsistent w s f h n v
after_finalize-IsConsistent w s f now checksum_mismatch h n b v = faulty-IsConsistent w s f h n v

complete_in-IsConsistent :
    (w : World) (s : FileServer) (me : User) (f : FileRecord) (now : ℕ) (st : FileStatus)
    → f.status ≡ st
    → find_file f.id s.files.rows ≡ some f
    → IsConsistent s
    → w.io.lost_at_close ≡ 0
    → IsConsistent (complete_in w s me f now st).0
unfolding complete_uploading
complete_in-IsConsistent w s me f now ready e h v l = v
complete_in-IsConsistent w s me f now cancelled e h v l = v
complete_in-IsConsistent w s me f now failed e h v l = v
complete_in-IsConsistent w s me f now uploading e h v l = elim (Bool-cases me.has_storage) [
  | inr o ↦ rw o v
  | inl o ↦
      let r =
        finalize w.sha256 w.io s.storage f.blob_key f.size_bytes f.chunk_size f.chunk_count
          f.sha256_hex in
      let n = uploading_not_ready f e in
      rw o (
        after_finalize-IsConsistent w (record s { storage = r.0 }) f now r.1 h n
          (assembled_backed w.sha256 w.io s.storage f l)
          (assembled-IsSound w s.files s.storage f h n v))
]

cancel_result-IsConsistent :
    (w : World) (s : FileServer) (me : User) (f : FileRecord) (r : Files × Bool)
    → IsSound (r.0) s.storage
    → IsSound (r.0) (remove w.io s.storage f.blob_key).0
    → IsConsistent (cancel_result w s me f r).0
cancel_result-IsConsistent w s me f (t, false) v u = v
cancel_result-IsConsistent w s me f (t, true) v u = elim (Bool-cases me.has_storage) [
  | inl o ↦ rw o u
  | inr o ↦ rw o v
]

cancel_in-IsConsistent :
    (w : World) (s : FileServer) (me : User) (f : FileRecord) (st : FileStatus)
    → f.status ≡ st
    → find_file f.id s.files.rows ≡ some f
    → IsConsistent s
    → IsConsistent (cancel_in w s me f st).0
cancel_in-IsConsistent w s me f ready e h v = v
cancel_in-IsConsistent w s me f cancelled e h v = v
cancel_in-IsConsistent w s me f failed e h v = v
cancel_in-IsConsistent w s me f uploading e h v =
    cancel_result-IsConsistent w s me f (mark_file_cancelled w.marks s.files f.id)
      (cancelled_by_failure w.marks s.files s.storage f.id v)
      (cancelled_by_failure w.marks s.files (remove w.io s.storage f.blob_key).0 f.id
        (removed-IsSound w s.files s.storage f h (uploading_not_ready f e) v))

download_in-IsConsistent :
    (w : World) (s : FileServer) (me : User) (now : ℕ) (f : FileRecord) (st : FileStatus)
    → IsConsistent s
    → IsConsistent (download_in w s me now f st).0
download_in-IsConsistent w s me now f uploading v = v
download_in-IsConsistent w s me now f cancelled v = v
download_in-IsConsistent w s me now f failed v = v
download_in-IsConsistent w s me now f ready v =
    let t =
      issue_file_ticket w.issues s.tickets f.id me.user_id download_kind
        (w.ticket_hash w.random_ticket) (pos download_ticket_ttl_seconds) now in
    elim (Bool-cases (is_empty w.random_ticket || not t.1)) [ inl e ↦ rw e v | inr e ↦ rw e v ]

download-IsConsistent :
    (w : World) (s : FileServer) (me : User) (now : ℕ) (o : Option FileRecord)
    → IsConsistent s
    → IsConsistent (issue_download_ticket w s me now o).0
download-IsConsistent w s me now none v = v
download-IsConsistent w s me now (some f) v = download_in-IsConsistent w s me now f f.status v

download_request-IsConsistent :
    (w : World) (s : FileServer) (me : User) (request : Fields) (now : ℕ)
    → IsConsistent s
    → IsConsistent (process_file_download_ticket_request w s me request now).0
unfolding process_file_download_ticket_request
download_request-IsConsistent w s me request now v =
    let file = to_long_long w.long_of_text (value request "fileId") in
    let a = allow s.ops_window now in
    let s₁ = record s { ops_window = a.0 } in
    let may =
      can_user_access_file w.answers_own w.answers_shared s.files s.members s.messages file
        me.user_id in
    elim (Bool-cases (leb_int file (pos 0))) [
      | inl e ↦ rw e v
      | inr e ↦ elim (Bool-cases a.1) [
        | inr l ↦ rw (e, l) v
        | inl l ↦ elim (Bool-cases may) [
          | inr m ↦ rw (e, l, m) v
          | inl m ↦
              rw (e, l, m)
                (download-IsConsistent w s₁ me now (get_file_record w.answers_file s.files file) v)
        ]
      ]
    ]

-- If the ids were given out by the table, no two files share a blob key, and every file that is ready
-- has its object with the declared size, and closing a temporary file writes all buffered bytes, then
-- the same holds after each of the five requests on files, by any user, whichever queries, statements
-- and other system calls fail.
pub handle-IsConsistent :
    (q : FileRequest) (w : World) (s : FileServer) (me : User) (request : Fields) (now : ℕ)
    → IsConsistent s
    → w.io.lost_at_close ≡ 0
    → IsConsistent (handle q w s me request now).0
unfolding handle process_file_upload_query_request process_file_upload_complete_request
    process_file_upload_cancel_request
handle-IsConsistent upload_create w s me request now v l =
    create_request-IsConsistent w s me request now v
handle-IsConsistent upload_query w s me request now v l =
    on_owned-IsConsistent w s me request now (λ s₁ f. (s₁, upload_state f (received s₁ me f)))
      (λ s₁ f u h. u) v
handle-IsConsistent upload_complete w s me request now v l =
    on_owned-IsConsistent w s me request now (λ s₁ f. complete_in w s₁ me f now f.status)
      (λ s₁ f u h. complete_in-IsConsistent w s₁ me f now f.status refl h u l) v
handle-IsConsistent upload_cancel w s me request now v l =
    on_owned-IsConsistent w s me request now (λ s₁ f. cancel_in w s₁ me f f.status)
      (λ s₁ f u h. cancel_in-IsConsistent w s₁ me f f.status refl h u) v
handle-IsConsistent download w s me request now v l =
    download_request-IsConsistent w s me request now v
