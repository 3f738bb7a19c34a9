-- ===== src/Server/Database/Files.antt =====
-- Chat-Server/database/DatabaseManager.cpp: the table `files`. Its rows stand in the order of their
-- ids; times are seconds. `executes` is whether SQLite carries a statement out, apart from what a
-- unique column refuses; a question that reads the messages is given their rows.
pub mod Rows
pub mod Keys
pub mod Quota
pub mod Steps
pub mod Lifecycle
use xychat_project.Prelude.{
  ℕ, zero, suc, ◌+◌, ◌*◌, Bool, true, false, ◌||◌, ◌&&◌, not, List, [], ◌∷◌, ◌++◌, map, ltb, leb,
  Option, none, some, if◌then◌else◌,
}
use xychat_project.Prelude.Assoc.{text_beq}
use xychat_project.Prelude.Int.{ℤ, pos, leb_int, ltb_int, eq_int, minus_one, pos_part}
use xychat_project.Server.Database.Messages.{Message}
use xychat_project.Server.Database.Members.{Member, any_member}

pub data FileStatus : Type 0 where
  uploading ready cancelled failed : FileStatus

abbrev pub same_status : FileStatus → FileStatus → Bool
same_status uploading uploading = true
same_status ready ready = true
same_status cancelled cancelled = true
same_status failed failed = true
same_status _ _ = false

pub record FileRecord : Type 0 where
  pub id : ℤ
  pub blob_key : List ℕ
  pub uploader_id : ℤ
  pub uploader_device_id : List ℕ
  pub size_bytes : ℤ
  pub chunk_size : ℤ
  pub chunk_count : ℤ
  pub sha256_hex : List ℕ
  pub status : FileStatus
  pub created_at : ℕ
  pub completed_at : Option ℕ

pub record Files : Type 0 where
  pub rows : List FileRecord
  pub next_id : ℕ

-- The arguments of `createFileRecord`.
pub record NewFile : Type 0 where
  pub uploader_id : ℤ
  pub uploader_device_id : List ℕ
  pub blob_key : List ℕ
  pub size_bytes : ℤ
  pub chunk_size : ℤ
  pub chunk_count : ℤ
  pub sha256_hex : List ℕ

-- The id, or -1 with and without the flag `quotaExceeded`.
pub data CreateResult : Type 0 where
  created : ℤ → CreateResult
  quota_exceeded : CreateResult
  not_created : CreateResult

abbrev pub is_empty : List ℕ → Bool
is_empty [] = true
is_empty (c ∷ cs) = false

abbrev pub has_blob_key : List ℕ → List FileRecord → Bool
has_blob_key k [] = false
has_blob_key k (f ∷ fs) = if text_beq f.blob_key k then true else has_blob_key k fs

abbrev pub is_uploading_of : ℤ → FileRecord → Bool
is_uploading_of u f = eq_int f.uploader_id u && same_status f.status uploading

unfoldable pub uploading_count : ℤ → List FileRecord → ℕ
uploading_count u [] = 0
uploading_count u (f ∷ fs) = (if is_uploading_of u f then 1 else 0) + uploading_count u fs

-- `uploading_count_for_user`: -1 for a query that fails.
unfoldable pub uploading_count_for_user : Bool → Files → ℤ → ℤ
uploading_count_for_user answers t u =
    if leb_int u (pos 0)
    then pos 0
    else if answers
    then pos (uploading_count u t.rows)
    else minus_one

abbrev pub new_row : ℕ → NewFile → ℕ → FileRecord
new_row i n now = record {
  id = pos i;
  blob_key = n.blob_key;
  uploader_id = n.uploader_id;
  uploader_device_id = n.uploader_device_id;
  size_bytes = n.size_bytes;
  chunk_size = n.chunk_size;
  chunk_count = n.chunk_count;
  sha256_hex = n.sha256_hex;
  status = uploading;
  created_at = now;
  completed_at = none;
}

abbrev pub is_bad_file : NewFile → Bool
is_bad_file n =
    leb_int n.uploader_id (pos 0)
    || (is_empty n.blob_key
        || (leb_int n.size_bytes (pos 0)
            || (leb_int n.chunk_size (pos 0)
                || (leb_int n.chunk_count (pos 0) || is_empty n.sha256_hex))))

-- The condition of the insertion: with a limit, fewer uploads than that are in progress.
abbrev pub is_over_quota : Files → NewFile → ℤ → Bool
is_over_quota t n max =
    ltb_int (pos 0) max && leb_int max (pos (uploading_count n.uploader_id t.rows))

unfoldable pub create_file_record : Bool → Files → NewFile → ℤ → ℕ → Files × CreateResult
create_file_record executes t n max now =
    if is_bad_file n
    then (t, not_created)
    else if not executes
    then (t, not_created)
    else if is_over_quota t n max
    then (t, quota_exceeded)
    else if has_blob_key n.blob_key t.rows
    then (t, not_created)
    else (
      record { rows = t.rows ++ (new_row t.next_id n now ∷ []); next_id = t.next_id + 1 },
      created (pos t.next_id),
    )

unfoldable pub find_file : ℤ → List FileRecord → Option FileRecord
find_file i [] = none
find_file i (f ∷ fs) = if eq_int f.id i then some f else find_file i fs

unfoldable pub get_file_record : Bool → Files → ℤ → Option FileRecord
get_file_record answers t i =
    if leb_int i (pos 0) then none else if answers then find_file i t.rows else none

-- `WHERE id = ? AND status = ...`.
abbrev pub is_file_in : ℤ → FileStatus → FileRecord → Bool
is_file_in i s f = eq_int f.id i && same_status f.status s

abbrev pub any_file_in : ℤ → FileStatus → List FileRecord → Bool
any_file_in i s [] = false
any_file_in i s (f ∷ fs) = if is_file_in i s f then true else any_file_in i s fs

abbrev pub stamp : Option ℕ → Option ℕ → Option ℕ
stamp none old = old
stamp (some now) old = some now

abbrev pub transition_row : ℤ → FileStatus → Option ℕ → FileRecord → FileRecord
transition_row i s completed f =
    if is_file_in i uploading f
    then record f { status = s; completed_at = stamp completed f.completed_at }
    else f

-- `transitionFileStatus`: only out of `uploading`; true if a row was changed.
unfoldable pub transition_file_status : Bool → Files → ℤ → FileStatus → Option ℕ → Files × Bool
transition_file_status executes t i s completed =
    if leb_int i (pos 0) then (t, false) else if not executes then (t, false) else (
      record t { rows = map (transition_row i s completed) t.rows },
      any_file_in i uploading t.rows,
    )

unfoldable pub mark_file_ready : Bool → Files → ℤ → ℕ → Files × Bool
mark_file_ready executes t i now = transition_file_status executes t i ready (some now)

unfoldable pub mark_file_cancelled : Bool → Files → ℤ → Files × Bool
mark_file_cancelled executes t i = transition_file_status executes t i cancelled none

unfoldable pub mark_file_failed : Bool → Files → ℤ → Files × Bool
mark_file_failed executes t i = transition_file_status executes t i failed none

abbrev pub carries : ℤ → Option ℕ → Bool
carries i none = false
carries i (some f) = eq_int (pos f) i

-- `m.file_id = ? AND m.deleted = 0`.
abbrev pub refers_to : ℤ → Message → Bool
refers_to i m = carries i m.file_id && not m.deleted

unfoldable pub any_reference : ℤ → List Message → Bool
any_reference i [] = false
any_reference i (m ∷ ms) = if refers_to i m then true else any_reference i ms

-- A query that fails counts as a reference.
unfoldable pub is_file_referenced_by_message : Bool → List Message → ℤ → Bool
is_file_referenced_by_message answers ms i =
    if leb_int i (pos 0) then false else if answers then any_reference i ms else true

-- The join of the messages with the members of their conversations.
unfoldable pub any_shared : ℤ → ℤ → List Member → List Message → Bool
any_shared i u members [] = false
any_shared i u members (m ∷ ms) =
    if refers_to i m && any_member (pos m.conversation_id) u members
    then true
    else any_shared i u members ms

abbrev pub any_own : ℤ → ℤ → List FileRecord → Bool
any_own i u [] = false
any_own i u (f ∷ fs) = if eq_int f.id i && eq_int f.uploader_id u then true else any_own i u fs

-- `canUserAccessFile`, with whether its two queries are carried out.
unfoldable pub can_user_access_file :
    Bool → Bool → Files → List Member → List Message → ℤ → ℤ → Bool
can_user_access_file answers answers' t members ms i u =
    if leb_int i (pos 0) || leb_int u (pos 0)
    then false
    else if answers && any_own i u t.rows
    then true
    else answers' && any_shared i u members ms

unfoldable pub delete_rows : ℤ → List FileRecord → List FileRecord
delete_rows i [] = []
delete_rows i (f ∷ fs) = let rest = delete_rows i fs in if eq_int f.id i then rest else f ∷ rest

-- `deleteFileRecord`; a row that is not there is no failure.
unfoldable pub delete_file_record : Bool → Bool → Files → List Message → ℤ → Files × Bool
delete_file_record answers executes t ms i =
    if leb_int i (pos 0)
    then (t, false)
    else if is_file_referenced_by_message answers ms i
    then (t, false)
    else if not executes
    then (t, false)
    else (record t { rows = delete_rows i t.rows }, true)

abbrev pub cancel_row : ℤ → List Message → FileRecord → FileRecord
cancel_row i ms f =
    if is_file_in i ready f && not (any_reference f.id ms)
    then record f { status = cancelled }
    else f

abbrev pub any_cancellable : ℤ → List Message → List FileRecord → Bool
any_cancellable i ms [] = false
any_cancellable i ms (f ∷ fs) =
    if is_file_in i ready f && not (any_reference f.id ms) then true else any_cancellable i ms fs

unfoldable pub cancel_unreferenced_ready_file : Bool → Files → List Message → ℤ → Files × Bool
cancel_unreferenced_ready_file executes t ms i =
    if leb_int i (pos 0)
    then (t, false)
    else if not executes
    then (t, false)
    else (record t { rows = map (cancel_row i ms) t.rows }, any_cancellable i ms t.rows)

-- The calls that change the table.
pub data FileCall : Type 0 where
  create : Bool → NewFile → ℤ → ℕ → FileCall
  mark_ready : Bool → ℤ → ℕ → FileCall
  mark_cancelled : Bool → ℤ → FileCall
  mark_failed : Bool → ℤ → FileCall
  cancel_unreferenced : Bool → List Message → ℤ → FileCall
  delete : Bool → Bool → List Message → ℤ → FileCall

unfoldable pub step : Files → FileCall → Files
step t (create executes n max now) = (create_file_record executes t n max now).0
step t (mark_ready executes i now) = (mark_file_ready executes t i now).0
step t (mark_cancelled executes i) = (mark_file_cancelled executes t i).0
step t (mark_failed executes i) = (mark_file_failed executes t i).0
step t (cancel_unreferenced executes ms i) = (cancel_unreferenced_ready_file executes t ms i).0
step t (delete answers executes ms i) = (delete_file_record answers executes t ms i).0

unfoldable pub run : Files → List FileCall → Files
run t [] = t
run t (c ∷ cs) = run (step t c) cs
