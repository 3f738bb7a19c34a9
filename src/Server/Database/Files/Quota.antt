-- ===== src/Server/Database/Files/Quota.antt =====
-- Chat-Server/database/DatabaseManager.cpp: the quota of uploads in progress.

use xychat_project.Prelude.{ℕ, ◌≤◌, ◌≡◌, Bool, true, ◌&&◌, List, [], ◌∷◌, none, some, arith, All}
use xychat_project.Prelude.Int.{ℤ, pos, leb_int, ltb_int, eq_int_iff}
use xychat_project.Server.Database.Files.{
  Files, new_row, ready, cancelled, failed, uploading_count, create_file_record,
  transition_file_status, mark_file_ready, mark_file_cancelled, mark_file_failed,
  cancel_unreferenced_ready_file, delete_file_record, FileCall, create, mark_ready, mark_cancelled,
  mark_failed, cancel_unreferenced, delete, step, run,
}
use xychat_project.Server.Database.Files.Rows.{
  uploading_count-append, uploading_count-transition, uploading_count-cancel,
  uploading_count-delete_rows,
}

-- A call that creates a file does so under the limit `n`.
abbrev pub is_limited : ℕ → FileCall → Bool
is_limited n (create executes new max now) = ltb_int (pos 0) max && leb_int max (pos n)
is_limited n _ = true

step_count :
    (n : ℕ) (u : ℤ) (t : Files) (c : FileCall)
    → is_limited n c ≡ true
    → uploading_count u t.rows ≤ n
    → uploading_count u (step t c).rows ≤ n
unfolding step create_file_record transition_file_status mark_file_ready mark_file_cancelled
    mark_file_failed cancel_unreferenced_ready_file delete_file_record
step_count n u t (create executes new max now) l h = ground (
  arith,
  uploading_count-append u t.rows (new_row t.next_id new now),
  eq_int_iff new.uploader_id u,
)
step_count n u t (mark_ready executes i now) l h =
    ground (arith, uploading_count-transition u i ready (some now) t.rows)
step_count n u t (mark_cancelled executes i) l h =
    ground (arith, uploading_count-transition u i cancelled none t.rows)
step_count n u t (mark_failed executes i) l h =
    ground (arith, uploading_count-transition u i failed none t.rows)
step_count n u t (cancel_unreferenced executes ms i) l h =
    ground (arith, uploading_count-cancel u i ms t.rows)
step_count n u t (delete answers executes ms i) l h =
    ground (arith, uploading_count-delete_rows u i t.rows)

-- In any sequence of calls in which each creation has a positive limit of at most `n`, whichever
-- statements fail: a user who has at most `n` uploads in progress never gets more than `n`.
pub quota_kept :
    (n : ℕ) (u : ℤ) (t : Files) (cs : List FileCall)
    → All (λ c. is_limited n c ≡ true) cs
    → uploading_count u t.rows ≤ n
    → uploading_count u (run t cs).rows ≤ n
unfolding run
quota_kept n u t [] l h = h
quota_kept n u t (c ∷ cs) l h = quota_kept n u (step t c) cs l.1 (step_count n u t c l.0 h)
