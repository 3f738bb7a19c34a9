-- ===== src/Server/Reclaim.antt =====
-- Chat-Server/core/Server.cpp: `pruneFileUploads`, which reclaims the data of uploads that were never
-- finished, cancelled or failed, and of files that no message carries; and the queries of
-- Chat-Server/database/DatabaseManager.cpp that it works through. One clock reading serves a run.
pub mod Rows
pub mod Steps
pub mod Keeps
pub mod Referenced
use xychat_project.Prelude.{
  ℕ, ◌+◌, ◌*◌, Bool, true, false, ◌||◌, ◌&&◌, not, List, [], ◌∷◌, ltb, leb, take, Option, none,
  some, if◌then◌else◌,
}
use xychat_project.Prelude.Int.{ℤ, pos, leb_int, pos_part}
use xychat_project.Server.Storage.{Storage, Io, remove}
use xychat_project.Server.Database.Messages.{Message}
use xychat_project.Server.Database.Files.{
  Files, FileRecord, FileStatus, same_status, uploading, ready, cancelled, failed, any_reference,
  mark_file_cancelled, is_file_referenced_by_message, delete_file_record,
  cancel_unreferenced_ready_file,
}
use xychat_project.Server.Database.Tickets.{Tickets, prune_expired_file_tickets, cascade}

abbrev pub stale_upload_hours : ℤ
stale_upload_hours = pos 48

abbrev pub query_limit : ℤ
query_limit = pos 100

-- `ORDER BY`, ascending by a time.
unfoldable pub insert_by : (FileRecord → ℕ) → FileRecord → List FileRecord → List FileRecord
insert_by time f [] = f ∷ []
insert_by time f (g ∷ gs) = if ltb (time f) (time g) then f ∷ (g ∷ gs) else g ∷ insert_by time f gs

unfoldable pub sort_by : (FileRecord → ℕ) → List FileRecord → List FileRecord
sort_by time [] = []
sort_by time (f ∷ fs) = insert_by time f (sort_by time fs)

unfoldable pub select : (FileRecord → Bool) → List FileRecord → List FileRecord
select p [] = []
select p (f ∷ fs) = let rest = select p fs in if p f then f ∷ rest else rest

abbrev pub creation : FileRecord → ℕ
creation f = f.created_at

-- `COALESCE(completed_at, created_at)`.
abbrev pub completion : FileRecord → ℕ
completion f = elim f.completed_at [ none ↦ f.created_at | some t ↦ t ]

-- `time < datetime('now', '-hours hours')`.
abbrev pub is_older : ℕ → ℤ → ℕ → Bool
is_older now hours time = ltb (time + pos_part hours * 3600) now

unfoldable pub get_stale_uploads : Bool → Files → ℕ → ℤ → ℤ → List FileRecord
get_stale_uploads answers t now hours limit =
    if leb_int hours (pos 0) || leb_int limit (pos 0)
    then []
    else if not answers
    then []
    else take (pos_part limit) (
        sort_by creation
          (select (λ f. same_status f.status uploading && is_older now hours f.created_at) t.rows))

unfoldable pub get_terminal_files : Bool → Files → ℕ → ℤ → ℤ → List FileRecord
get_terminal_files answers t now hours limit =
    if leb_int hours (pos 0) || leb_int limit (pos 0)
    then []
    else if not answers
    then []
    else take (pos_part limit) (
        sort_by creation (
          select
            (λ f.
              (same_status f.status cancelled || same_status f.status failed)
              && is_older now hours f.created_at)
            t.rows))

unfoldable pub get_unreferenced_ready_files :
    Bool → Files → List Message → ℕ → ℤ → ℤ → List FileRecord
get_unreferenced_ready_files answers t ms now hours limit =
    if leb_int hours (pos 0) || leb_int limit (pos 0)
    then []
    else if not answers
    then []
    else take (pos_part limit) (
        sort_by completion (
          select
            (λ f.
              same_status f.status ready
              && (is_older now hours (completion f) && not (any_reference f.id ms)))
            t.rows))

-- Which queries and statements are carried out, and the system calls, for each file.
pub record Maintenance : Type 0 where
  pub prunes : Bool
  pub lists_stale : Bool
  pub lists_terminal : Bool
  pub lists_orphaned : Bool
  pub io : ℤ → Io
  pub marks : ℤ → Bool
  pub answers : ℤ → Bool
  pub answers_again : ℤ → Bool
  pub deletes : ℤ → Bool
  pub cancels : ℤ → Bool

-- The tables and the storage that the maintenance works on.
pub record Store : Type 0 where
  pub files : Files
  pub tickets : Tickets
  pub storage : Storage

-- The first round: the data of a stale upload, then its status.
abbrev pub reap_upload : Maintenance → FileRecord → Store → Store
reap_upload w f s =
    let r = remove (w.io f.id) s.storage f.blob_key in
    if not r.1
    then record s { storage = r.0 }
    else record s { storage = r.0; files = (mark_file_cancelled (w.marks f.id) s.files f.id).0 }

unfoldable pub reap_stale : Maintenance → List FileRecord → Store → Store
reap_stale w [] s = s
reap_stale w (f ∷ fs) s = reap_stale w fs (reap_upload w f s)

-- A deleted row takes its tickets with it.
abbrev pub delete_record : Maintenance → List Message → FileRecord → Store → Store
delete_record w ms f s =
    let d = delete_file_record (w.answers_again f.id) (w.deletes f.id) s.files ms f.id in
    if d.1 then record s { files = d.0; tickets = cascade s.tickets f.id } else s

-- The second round: the data of a cancelled or failed upload, then its row, unless a message carries
-- the file.
abbrev pub reap_row : Maintenance → List Message → FileRecord → Store → Store
reap_row w ms f s =
    let r = remove (w.io f.id) s.storage f.blob_key in
    if is_file_referenced_by_message (w.answers f.id) ms f.id
    then s
    else if not r.1
    then record s { storage = r.0 }
    else delete_record w ms f (record s { storage = r.0 })

unfoldable pub reap_terminal : Maintenance → List Message → List FileRecord → Store → Store
reap_terminal w ms [] s = s
reap_terminal w ms (f ∷ fs) s = reap_terminal w ms fs (reap_row w ms f s)

-- The third round: files that no message carries become cancelled.
unfoldable pub mark_orphaned : Maintenance → List Message → List FileRecord → Store → Store
mark_orphaned w ms [] s = s
mark_orphaned w ms (f ∷ fs) s =
    mark_orphaned w ms fs
      (record s { files = (cancel_unreferenced_ready_file (w.cancels f.id) s.files ms f.id).0 })

abbrev pub round_one : Maintenance → ℕ → Store → Store
round_one w now s =
    reap_stale w (get_stale_uploads w.lists_stale s.files now stale_upload_hours query_limit) s

abbrev pub round_two : Maintenance → List Message → ℕ → Store → Store
round_two w ms now s =
    reap_terminal w ms
      (get_terminal_files w.lists_terminal s.files now stale_upload_hours query_limit) s

abbrev pub round_three : Maintenance → List Message → ℕ → Store → Store
round_three w ms now s =
    mark_orphaned w ms
      (get_unreferenced_ready_files w.lists_orphaned s.files ms now stale_upload_hours query_limit)
      s

-- `pruneFileUploads`; without a storage only the tickets are pruned.
unfoldable pub prune_file_uploads : Maintenance → Bool → List Message → ℕ → Store → Store
prune_file_uploads w has_storage ms now s =
    let s₁ = record s { tickets = (prune_expired_file_tickets w.prunes s.tickets now).0 } in
    if not has_storage then s₁ else round_three w ms now (round_two w ms now (round_one w now s₁))
