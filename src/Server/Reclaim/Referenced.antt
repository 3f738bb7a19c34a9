-- ===== src/Server/Reclaim/Referenced.antt =====
-- Chat-Server/core/Server.cpp: the reclamation and the files that messages carry.
use xychat_project.Prelude.{
  ℕ, ◌≡◌, ◌≢◌, refl, sym, ◌∙◌, Bool, true, false, List, [], ◌∷◌, some, arith, Bool-cases, inl, inr,
}
use xychat_project.Prelude.Int.{ℤ}
use xychat_project.Server.Storage.{Blob, remove}
use xychat_project.Server.Database.Messages.{Message}
use xychat_project.Server.Database.Files.{
  Files, FileRecord, FileCall, same_status, ready, any_reference, find_file,
  is_file_referenced_by_message, delete_file_record, cancel_unreferenced_ready_file, step,
  mark_cancelled, cancel_unreferenced, delete,
}
use xychat_project.Server.Database.Files.Rows.{find-id}
use xychat_project.Server.Database.Files.Keys.{found_member}
use xychat_project.Server.Database.Files.Steps.{find-step}
use xychat_project.Server.Database.Files.Lifecycle.{after_kept, sees_reference}
use xychat_project.Server.Database.Tickets.{prune_expired_file_tickets}
use xychat_project.Server.FileControl.Sound.{IsSound}
use xychat_project.Server.Reclaim.{
  Maintenance, Store, reap_upload, reap_stale, delete_record, reap_row, reap_terminal,
  mark_orphaned, round_one, round_two, prune_file_uploads, get_stale_uploads, get_terminal_files,
  stale_upload_hours, query_limit, get_unreferenced_ready_files,
}
use xychat_project.Server.Reclaim.Steps.{Unready, removed_elsewhere}
use xychat_project.Server.Reclaim.Keeps.{
  AllUnready, IsWhole, stale_unready, terminal_unready, reap_upload-Unready, reap_row-Unready,
  stale-IsWhole,
}

module _ (i : ℤ) (f : FileRecord) (b : Blob) (is_ready : f.status ≡ ready) where
  -- The file's row and the data under its key are these.
  abbrev Has : Store → Type 0
  Has s = (find_file i s.files.rows ≡ some f) × (s.storage f.blob_key ≡ b)

  kept_row :
      (t : Files) (c : FileCall)
      → find_file i t.rows ≡ some f
      → sees_reference i c ≡ true
      → find_file i (step t c).rows ≡ some f
  kept_row t c h r = find-step i f t c h ∙ after_kept i f c (find-id i t.rows f h) is_ready r

  kept_data :
      (w : Maintenance) (j : ℤ) (s : Store) (k : List ℕ)
      → Has s
      → Unready s.files k
      → (remove (w.io j) s.storage k).0 f.blob_key ≡ b
  kept_data w j s k h u =
      let ready_lem : same_status f.status ready ≡ true = rw is_ready refl in
      let d : k ≢ f.blob_key =
        λ e. ground (arith, ready_lem, u f (found_member i f s.files.rows (h.0)) (sym e)) in
      removed_elsewhere (w.io j) s.storage k f.blob_key d ∙ h.1

  reap_upload-Has :
      (w : Maintenance) (g : FileRecord) (s : Store)
      → Has s
      → Unready s.files g.blob_key
      → Has (reap_upload w g s)
  unfolding step
  reap_upload-Has w g s h u =
      let r = remove (w.io g.id) s.storage g.blob_key in
      let d = kept_data w g.id s g.blob_key h u in
      let row = kept_row s.files (mark_cancelled (w.marks g.id) g.id) (h.0) refl in
      elim (Bool-cases r.1) [ inr e ↦ rw e (h.0, d) | inl e ↦ rw e (row, d) ]

  delete_record-Has :
      (w : Maintenance) (ms : List Message) (g : FileRecord) (s : Store)
      → any_reference i ms ≡ true
      → Has s
      → Has (delete_record w ms g s)
  unfolding step
  delete_record-Has w ms g s a h =
      let t = delete_file_record (w.answers_again g.id) (w.deletes g.id) s.files ms g.id in
      let row = kept_row s.files (delete (w.answers_again g.id) (w.deletes g.id) ms g.id) (h.0) a in
      elim (Bool-cases t.1) [ inl e ↦ rw e (row, h.1) | inr e ↦ rw e h ]

  reap_row-Has :
      (w : Maintenance) (ms : List Message) (g : FileRecord) (s : Store)
      → any_reference i ms ≡ true
      → Has s
      → Unready s.files g.blob_key
      → Has (reap_row w ms g s)
  reap_row-Has w ms g s a h u =
      let r = remove (w.io g.id) s.storage g.blob_key in
      let s' = record s { storage = r.0 } in
      let d : Has s' = (h.0, kept_data w g.id s g.blob_key h u) in
      elim (Bool-cases (is_file_referenced_by_message (w.answers g.id) ms g.id)) [
        | inl e ↦ rw e h
        | inr e ↦ elim (Bool-cases r.1) [
          | inr q ↦ rw (e, q) d
          | inl q ↦ rw (e, q) (delete_record-Has w ms g s' a d)
        ]
      ]

  stale-Has :
      (w : Maintenance) (fs : List FileRecord) (s : Store)
      → Has s
      → AllUnready s fs
      → Has (reap_stale w fs s)
  unfolding reap_stale
  stale-Has w [] s h u = h
  stale-Has w (g ∷ gs) s h u =
      stale-Has w gs (reap_upload w g s) (reap_upload-Has w g s h (u g (inl refl)))
        (λ x m. reap_upload-Unready w g s x.blob_key (u x (inr m)))

  terminal-Has :
      (w : Maintenance) (ms : List Message) (fs : List FileRecord) (s : Store)
      → any_reference i ms ≡ true
      → Has s
      → AllUnready s fs
      → Has (reap_terminal w ms fs s)
  unfolding reap_terminal
  terminal-Has w ms [] s a h u = h
  terminal-Has w ms (g ∷ gs) s a h u =
      terminal-Has w ms gs (reap_row w ms g s) a (reap_row-Has w ms g s a h (u g (inl refl)))
        (λ x m. reap_row-Unready w ms g s x.blob_key (u x (inr m)))

  orphaned-Has :
      (w : Maintenance) (ms : List Message) (fs : List FileRecord) (s : Store)
      → any_reference i ms ≡ true
      → Has s
      → Has (mark_orphaned w ms fs s)
  unfolding mark_orphaned step
  orphaned-Has w ms [] s a h = h
  orphaned-Has w ms (g ∷ gs) s a h =
      orphaned-Has w ms gs
        (record s { files = (cancel_unreferenced_ready_file (w.cancels g.id) s.files ms g.id).0 }) a
        (kept_row s.files (cancel_unreferenced (w.cancels g.id) ms g.id) (h.0) a, h.1)

-- A run of the reclamation leaves a file that is ready, and that an undeleted message carries, as it
-- is: its row, and all the data under its blob key, whichever queries, statements and system calls
-- fail, where the table and the storage fit together.
pub referenced_file_survives :
    (w : Maintenance) (has_storage : Bool) (ms : List Message) (now : ℕ) (s : Store) (i : ℤ)
    (f : FileRecord)
    → IsSound s.files s.storage
    → find_file i s.files.rows ≡ some f
    → f.status ≡ ready
    → any_reference i ms ≡ true
    → let s' = prune_file_uploads w has_storage ms now s in
      (find_file i s'.files.rows ≡ some f) × (s'.storage f.blob_key ≡ s.storage f.blob_key)
unfolding prune_file_uploads
referenced_file_survives w false ms now s i f v h r a = (h, refl)
referenced_file_survives w true ms now s i f v h r a =
    let b = s.storage f.blob_key in
    let s₁ = record s { tickets = (prune_expired_file_tickets w.prunes s.tickets now).0 } in
    let stale = get_stale_uploads w.lists_stale s.files now stale_upload_hours query_limit in
    let u₁ = stale_unready w.lists_stale s₁ now stale_upload_hours query_limit v.keyed in
    let s₂ = round_one w now s₁ in
    let v₂ : IsWhole s₂ = stale-IsWhole w stale s₁ v u₁ in
    let h₂ = stale-Has i f b r w stale s₁ (h, refl) u₁ in
    let terminal =
      get_terminal_files w.lists_terminal s₂.files now stale_upload_hours query_limit in
    let s₃ = round_two w ms now s₂ in
    let h₃ =
      terminal-Has i f b r w ms terminal s₂ a h₂
        (terminal_unready w.lists_terminal s₂ now stale_upload_hours query_limit v₂.keyed) in
    orphaned-Has i f b r w ms
      (get_unreferenced_ready_files w.lists_orphaned s₃.files ms now stale_upload_hours query_limit)
      s₃ a h₃
