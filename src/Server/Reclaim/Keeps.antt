-- ===== src/Server/Reclaim/Keeps.antt =====
-- Chat-Server/core/Server.cpp: what the reclamation never takes away.
use xychat_project.Prelude.{
  ℕ, ◌≡◌, refl, ap, ◌∙◌, Bool, true, false, ◌||◌, ◌&&◌, List, [], ◌∷◌, arith, Bool-cases, inl, inr,
}
use xychat_project.Prelude.Int.{ℤ, pos, leb_int, pos_part}
use xychat_project.Server.Storage.{remove}
use xychat_project.Server.Database.Messages.{Message}
use xychat_project.Server.Database.Files.{
  FileRecord, FileStatus, same_status, uploading, ready, cancelled, failed,
  is_file_referenced_by_message, delete_file_record, cancel_unreferenced_ready_file,
}
use xychat_project.Server.Database.Files.Keys.{IsMember, same_row, is_keyed}
use xychat_project.Server.Database.Tickets.{prune_expired_file_tickets}
use xychat_project.Server.FileControl.Sound.{IsSound}
use xychat_project.Server.Reclaim.{
  Maintenance, Store, reap_upload, reap_stale, delete_record, reap_row, reap_terminal,
  mark_orphaned, round_one, round_two, prune_file_uploads, get_stale_uploads, get_terminal_files,
  creation, is_older, stale_upload_hours, query_limit, get_unreferenced_ready_files,
}
use xychat_project.Server.Reclaim.Rows.{listed}
use xychat_project.Server.Reclaim.Steps.{
  Unready, Unready-IsSound, mark_file_cancelled-Reaps, cancel_unreferenced-Reaps,
  delete_file_record-Reaps,
}

-- No file that is ready has the blob key of a listed row.
abbrev pub AllUnready : Store → List FileRecord → Type 0
AllUnready s fs = (f : FileRecord) → IsMember f fs → Unready s.files f.blob_key

abbrev pub IsWhole : Store → Type 0
IsWhole s = IsSound s.files s.storage

-- A row that is not ready makes its key unready.
row-Unready :
    (s : Store) (f : FileRecord)
    → is_keyed s.files.rows ≡ true
    → IsMember f s.files.rows
    → same_status f.status ready ≡ false
    → Unready s.files f.blob_key
row-Unready s f k m n g l e =
    ap (λ (x : FileRecord). same_status x.status ready) (same_row g f s.files.rows k l m e) ∙ n

not_ready_of_uploading :
    (st : FileStatus) → same_status st uploading ≡ true → same_status st ready ≡ false
not_ready_of_uploading uploading h = refl
not_ready_of_uploading ready h = absurd (cc)
not_ready_of_uploading cancelled h = absurd (cc)
not_ready_of_uploading failed h = absurd (cc)

not_ready_of_terminal :
    (st : FileStatus)
    → same_status st cancelled || same_status st failed ≡ true
    → same_status st ready ≡ false
not_ready_of_terminal uploading h = absurd (cc)
not_ready_of_terminal ready h = absurd (cc)
not_ready_of_terminal cancelled h = refl
not_ready_of_terminal failed h = refl

pub stale_unready :
    (answers : Bool) (s : Store) (now : ℕ) (hours limit : ℤ)
    → is_keyed s.files.rows ≡ true
    → AllUnready s (get_stale_uploads answers s.files now hours limit)
unfolding get_stale_uploads
stale_unready answers s now hours limit k f m =
    let p = λ (x : FileRecord). same_status x.status uploading && is_older now hours x.created_at in
    elim (Bool-cases (leb_int hours (pos 0) || leb_int limit (pos 0))) [
      | inl e ↦ absurd (rw e at m)
      | inr e ↦ elim (Bool-cases answers) [
        | inr a ↦ absurd (rw (e, a) at m)
        | inl a ↦
            let q = listed creation p (pos_part limit) f s.files.rows (rw (e, a) at m) in
            row-Unready s f k (q.0) (not_ready_of_uploading f.status (ground (arith, q)))
      ]
    ]

pub terminal_unready :
    (answers : Bool) (s : Store) (now : ℕ) (hours limit : ℤ)
    → is_keyed s.files.rows ≡ true
    → AllUnready s (get_terminal_files answers s.files now hours limit)
unfolding get_terminal_files
terminal_unready answers s now hours limit k f m =
    let p = λ (x : FileRecord).
      (same_status x.status cancelled || same_status x.status failed)
      && is_older now hours x.created_at in
    elim (Bool-cases (leb_int hours (pos 0) || leb_int limit (pos 0))) [
      | inl e ↦ absurd (rw e at m)
      | inr e ↦ elim (Bool-cases answers) [
        | inr a ↦ absurd (rw (e, a) at m)
        | inl a ↦
            let q = listed creation p (pos_part limit) f s.files.rows (rw (e, a) at m) in
            row-Unready s f k (q.0) (not_ready_of_terminal f.status (ground (arith, q)))
      ]
    ]

-- A step of a round keeps the store whole, and makes no listed file ready.
reap_upload-IsWhole :
    (w : Maintenance) (f : FileRecord) (s : Store)
    → IsWhole s
    → Unready s.files f.blob_key
    → IsWhole (reap_upload w f s)
reap_upload-IsWhole w f s v u =
    let r = remove (w.io f.id) s.storage f.blob_key in
    let v' = Unready-IsSound (w.io f.id) s.files s.storage f.blob_key v u in
    let p = mark_file_cancelled-Reaps (w.marks f.id) s.files f.id in
    elim (Bool-cases r.1) [ inr e ↦ rw e v' | inl e ↦ rw e (p.sound (r.0) v') ]

pub reap_upload-Unready :
    (w : Maintenance) (f : FileRecord) (s : Store) (k : List ℕ)
    → Unready s.files k
    → Unready (reap_upload w f s).files k
reap_upload-Unready w f s k u =
    let r = remove (w.io f.id) s.storage f.blob_key in
    let p = mark_file_cancelled-Reaps (w.marks f.id) s.files f.id in
    elim (Bool-cases r.1) [ inr e ↦ rw e u | inl e ↦ rw e (p.unready k u) ]

pub stale-IsWhole :
    (w : Maintenance) (fs : List FileRecord) (s : Store)
    → IsWhole s
    → AllUnready s fs
    → IsWhole (reap_stale w fs s)
unfolding reap_stale
stale-IsWhole w [] s v u = v
stale-IsWhole w (f ∷ fs) s v u =
    stale-IsWhole w fs (reap_upload w f s) (reap_upload-IsWhole w f s v (u f (inl refl)))
      (λ g m. reap_upload-Unready w f s g.blob_key (u g (inr m)))

deleted-IsWhole :
    (w : Maintenance) (ms : List Message) (f : FileRecord) (s : Store)
    → IsWhole s
    → IsWhole (delete_record w ms f s)
deleted-IsWhole w ms f s v =
    let d = delete_file_record (w.answers_again f.id) (w.deletes f.id) s.files ms f.id in
    let p = delete_file_record-Reaps (w.answers_again f.id) (w.deletes f.id) s.files ms f.id in
    elim (Bool-cases d.1) [ inl e ↦ rw e (p.sound s.storage v) | inr e ↦ rw e v ]

deleted-Unready :
    (w : Maintenance) (ms : List Message) (f : FileRecord) (s : Store) (k : List ℕ)
    → Unready s.files k
    → Unready (delete_record w ms f s).files k
deleted-Unready w ms f s k u =
    let d = delete_file_record (w.answers_again f.id) (w.deletes f.id) s.files ms f.id in
    let p = delete_file_record-Reaps (w.answers_again f.id) (w.deletes f.id) s.files ms f.id in
    elim (Bool-cases d.1) [ inl e ↦ rw e (p.unready k u) | inr e ↦ rw e u ]

reap_row-IsWhole :
    (w : Maintenance) (ms : List Message) (f : FileRecord) (s : Store)
    → IsWhole s
    → Unready s.files f.blob_key
    → IsWhole (reap_row w ms f s)
reap_row-IsWhole w ms f s v u =
    let r = remove (w.io f.id) s.storage f.blob_key in
    let s' = record s { storage = r.0 } in
    let v' = Unready-IsSound (w.io f.id) s.files s.storage f.blob_key v u in
    elim (Bool-cases (is_file_referenced_by_message (w.answers f.id) ms f.id)) [
      | inl a ↦ rw a v
      | inr a ↦ elim (Bool-cases r.1) [
        | inr e ↦ rw (a, e) v'
        | inl e ↦ rw (a, e) (deleted-IsWhole w ms f s' v')
      ]
    ]

pub reap_row-Unready :
    (w : Maintenance) (ms : List Message) (f : FileRecord) (s : Store) (k : List ℕ)
    → Unready s.files k
    → Unready (reap_row w ms f s).files k
reap_row-Unready w ms f s k u =
    let r = remove (w.io f.id) s.storage f.blob_key in
    let s' = record s { storage = r.0 } in
    elim (Bool-cases (is_file_referenced_by_message (w.answers f.id) ms f.id)) [
      | inl a ↦ rw a u
      | inr a ↦ elim (Bool-cases r.1) [
        | inr e ↦ rw (a, e) u
        | inl e ↦ rw (a, e) (deleted-Unready w ms f s' k u)
      ]
    ]

pub terminal-IsWhole :
    (w : Maintenance) (ms : List Message) (fs : List FileRecord) (s : Store)
    → IsWhole s
    → AllUnready s fs
    → IsWhole (reap_terminal w ms fs s)
unfolding reap_terminal
terminal-IsWhole w ms [] s v u = v
terminal-IsWhole w ms (f ∷ fs) s v u =
    terminal-IsWhole w ms fs (reap_row w ms f s) (reap_row-IsWhole w ms f s v (u f (inl refl)))
      (λ g m. reap_row-Unready w ms f s g.blob_key (u g (inr m)))

orphaned-IsWhole :
    (w : Maintenance) (ms : List Message) (fs : List FileRecord) (s : Store)
    → IsWhole s
    → IsWhole (mark_orphaned w ms fs s)
unfolding mark_orphaned
orphaned-IsWhole w ms [] s v = v
orphaned-IsWhole w ms (f ∷ fs) s v =
    orphaned-IsWhole w ms fs
      (record s { files = (cancel_unreferenced_ready_file (w.cancels f.id) s.files ms f.id).0 })
      ((cancel_unreferenced-Reaps (w.cancels f.id) s.files ms f.id).sound s.storage v)

-- If the ids were given out by the table, no two files share a blob key, and every file that is ready
-- has its object with the declared size, then the same holds after a run of the reclamation,
-- whichever queries, statements and system calls fail.
pub prune_file_uploads-IsSound :
    (w : Maintenance) (has_storage : Bool) (ms : List Message) (now : ℕ) (s : Store)
    → IsSound s.files s.storage
    → let s' = prune_file_uploads w has_storage ms now s in IsSound s'.files s'.storage
unfolding prune_file_uploads
prune_file_uploads-IsSound w false ms now s v = v
prune_file_uploads-IsSound w true ms now s v =
    let s₁ = record s { tickets = (prune_expired_file_tickets w.prunes s.tickets now).0 } in
    let s₂ = round_one w now s₁ in
    let v₂ : IsWhole s₂ =
      stale-IsWhole w (get_stale_uploads w.lists_stale s.files now stale_upload_hours query_limit)
        s₁ v (stale_unready w.lists_stale s₁ now stale_upload_hours query_limit v.keyed) in
    let s₃ = round_two w ms now s₂ in
    let v₃ : IsWhole s₃ =
      terminal-IsWhole w ms
        (get_terminal_files w.lists_terminal s₂.files now stale_upload_hours query_limit) s₂ v₂
        (terminal_unready w.lists_terminal s₂ now stale_upload_hours query_limit v₂.keyed) in
    orphaned-IsWhole w ms
      (get_unreferenced_ready_files w.lists_orphaned s₃.files ms now stale_upload_hours query_limit)
      s₃ v₃
