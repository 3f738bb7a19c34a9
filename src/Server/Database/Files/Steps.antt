-- ===== src/Server/Database/Files/Steps.antt =====
-- Chat-Server/database/DatabaseManager.cpp: what one call does to one row of `files`.

use xychat_project.Prelude.{
  ◌||◌, ℕ, ◌+◌, ◌≡◌, refl, Bool, true, false, Option, none, some, if◌then◌else◌, arith, not,
}
use xychat_project.Prelude.Int.{ℤ, pos, leb_int, ltb_int, eq_int}
use xychat_project.Server.Database.Files.{
  FileRecord, Files, find_file, transition_row, cancel_row, new_row, ready, cancelled, failed,
  is_file_referenced_by_message, create_file_record, transition_file_status, mark_file_ready,
  mark_file_cancelled, mark_file_failed, cancel_unreferenced_ready_file, delete_file_record,
  FileCall, create, mark_ready, mark_cancelled, mark_failed, cancel_unreferenced, delete, step,
}
use xychat_project.Server.Database.Files.Rows.{
  find-map, find-append, find-delete_rows, transition-KeepsId, cancel-KeepsId, is_below,
  is_below-map, is_below-append, is_below-delete_rows,
}

-- Whether a statement on the file with the id `j` is not reached or not carried out.
abbrev pub is_skipped : Bool → ℤ → Bool
is_skipped executes j = leb_int j (pos 0) || not executes

-- What a call makes of the row `f` with the id `i`.
abbrev pub after : ℤ → FileRecord → FileCall → Option FileRecord
after i f (create executes new max now) = some f
after i f (mark_ready executes j now) =
    some (if is_skipped executes j then f else transition_row j ready (some now) f)
after i f (mark_cancelled executes j) =
    some (if is_skipped executes j then f else transition_row j cancelled none f)
after i f (mark_failed executes j) =
    some (if is_skipped executes j then f else transition_row j failed none f)
after i f (cancel_unreferenced executes ms j) =
    some (if is_skipped executes j then f else cancel_row j ms f)
after i f (delete answers executes ms j) =
    if is_skipped executes j || (is_file_referenced_by_message answers ms j || not (eq_int j i))
    then some f
    else none

pub find-step :
    (i : ℤ) (f : FileRecord) (t : Files) (c : FileCall)
    → find_file i t.rows ≡ some f
    → find_file i (step t c).rows ≡ after i f c
unfolding step create_file_record transition_file_status mark_file_ready mark_file_cancelled
    mark_file_failed cancel_unreferenced_ready_file delete_file_record
find-step i f t (create executes new max now) h =
    ground (arith, h, find-append i t.rows (new_row t.next_id new now))
find-step i f t (mark_ready executes j now) h = ground (
  arith,
  h,
  find-map (transition_row j ready (some now)) (transition-KeepsId j ready (some now)) i t.rows,
)
find-step i f t (mark_cancelled executes j) h = ground (
  arith,
  h,
  find-map (transition_row j cancelled none) (transition-KeepsId j cancelled none) i t.rows,
)
find-step i f t (mark_failed executes j) h =
    ground (
      arith,
      h,
      find-map (transition_row j failed none) (transition-KeepsId j failed none) i t.rows,
    )
find-step i f t (cancel_unreferenced executes ms j) h =
    ground (arith, h, find-map (cancel_row j ms) (cancel-KeepsId j ms) i t.rows)
find-step i f t (delete answers executes ms j) h = ground (arith, h, find-delete_rows i j t.rows)

-- The ids were given out by the table.
abbrev pub IsTable : Files → Type 0
IsTable t = is_below t.next_id t.rows ≡ true

pub step-IsTable : (t : Files) (c : FileCall) → IsTable t → IsTable (step t c)
unfolding step create_file_record transition_file_status mark_file_ready mark_file_cancelled
    mark_file_failed cancel_unreferenced_ready_file delete_file_record
step-IsTable t (create executes new max now) h =
    ground (arith, h, is_below-append t.next_id t.rows (new_row t.next_id new now) refl)
step-IsTable t (mark_ready executes j now) h = ground (
  arith,
  h,
  is_below-map (transition_row j ready (some now)) (transition-KeepsId j ready (some now)) t.next_id
      t.rows,
)
step-IsTable t (mark_cancelled executes j) h = ground (
  arith,
  h,
  is_below-map (transition_row j cancelled none) (transition-KeepsId j cancelled none) t.next_id
      t.rows,
)
step-IsTable t (mark_failed executes j) h = ground (
  arith,
  h,
  is_below-map (transition_row j failed none) (transition-KeepsId j failed none) t.next_id t.rows,
)
step-IsTable t (cancel_unreferenced executes ms j) h =
    ground (arith, h, is_below-map (cancel_row j ms) (cancel-KeepsId j ms) t.next_id t.rows)
step-IsTable t (delete answers executes ms j) h =
    ground (arith, h, is_below-delete_rows t.next_id j t.rows)

-- An id that was given out and is not there does not come back.
abbrev pub IsGone : ℤ → Files → Type 0
IsGone i t = (find_file i t.rows ≡ none) × (ltb_int i (pos t.next_id) ≡ true)

ltb_int_suc : (i : ℤ) (n : ℕ) → ltb_int i (pos n) ≡ true → ltb_int i (pos (n + 1)) ≡ true
ltb_int_suc (pos a) n h = ground arith
ltb_int_suc _ n h = refl

not_next : (i : ℤ) (n : ℕ) → ltb_int i (pos n) ≡ true → eq_int (pos n) i ≡ false
not_next (pos a) n h = ground arith
not_next _ n h = refl

pub step-IsGone : (i : ℤ) (t : Files) (c : FileCall) → IsGone i t → IsGone i (step t c)
unfolding step create_file_record transition_file_status mark_file_ready mark_file_cancelled
    mark_file_failed cancel_unreferenced_ready_file delete_file_record
step-IsGone i t (create executes new max now) (h, l) = ground (
  arith,
  h,
  l,
  find-append i t.rows (new_row t.next_id new now),
  not_next i t.next_id,
  ltb_int_suc i t.next_id,
)
step-IsGone i t (mark_ready executes j now) (h, l) = ground (
  arith,
  h,
  l,
  find-map (transition_row j ready (some now)) (transition-KeepsId j ready (some now)) i t.rows,
)
step-IsGone i t (mark_cancelled executes j) (h, l) = ground (
  arith,
  h,
  l,
  find-map (transition_row j cancelled none) (transition-KeepsId j cancelled none) i t.rows,
)
step-IsGone i t (mark_failed executes j) (h, l) = ground (
  arith,
  h,
  l,
  find-map (transition_row j failed none) (transition-KeepsId j failed none) i t.rows,
)
step-IsGone i t (cancel_unreferenced executes ms j) (h, l) =
    ground (arith, h, l, find-map (cancel_row j ms) (cancel-KeepsId j ms) i t.rows)
step-IsGone i t (delete answers executes ms j) (h, l) =
    ground (arith, h, l, find-delete_rows i j t.rows)
