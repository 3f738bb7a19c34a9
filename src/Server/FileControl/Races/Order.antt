-- ===== src/Server/FileControl/Races/Order.antt =====
-- Chat-Server/core/RequestHandler.cpp: a cancel request marks the row before it removes the data, so that
-- no interleaving with a complete request leaves a ready file without its data.
use xychat_project.Prelude.{
  ℕ, ◌≡◌, refl, ap, sym, ◌∙◌, Bool, true, false, ◌||◌, not, List, [], ◌∷◌, map, Option, none, some,
  if◌then◌else◌, arith, Option-cases, inl, inr, some_inj,
}
use xychat_project.Prelude.Int.{ℤ, pos, leb_int, eq_int, eq_int_iff}
use xychat_project.Server.Storage.{finalized}
use xychat_project.Server.Database.Files.{
  Files, FileRecord, FileStatus, find_file, same_status, uploading, ready, cancelled, failed,
  transition_row, transition_file_status, any_file_in, mark_file_ready, mark_file_cancelled,
  mark_file_failed,
}
use xychat_project.Server.Database.Files.Rows.{find-map, transition-KeepsId}
use xychat_project.Server.FileControl.Sound.{is_backed, assembled_backed}
use xychat_project.Server.FileControl.Races.{
  Completer, assembled, Canceller, marked, Reaper, not_running, Threads, Step, assemble, mark_ready,
  mark_failed, remove_failed, mark_cancelled, remove_cancelled, remove_stale, cancel_stale, Reach,
  here, next,
}

-- There is at most one row with the id.
abbrev pub is_only : ℤ → List FileRecord → Bool
is_only i [] = true
is_only i (x ∷ xs) =
    if eq_int x.id i then elim (find_file i xs) [ none ↦ true | some g ↦ false ] else is_only i xs

not_in :
    (i : ℤ) (s : FileStatus) (rows : List FileRecord)
    → find_file i rows ≡ none
    → any_file_in i s rows ≡ false
unfolding find_file
not_in i s [] h = refl
not_in i s (x ∷ xs) h = ground (arith, h, not_in i s xs)

changed-found :
    (i : ℤ) (s : FileStatus) (rows : List FileRecord) (g : FileRecord)
    → is_only i rows ≡ true
    → find_file i rows ≡ some g
    → any_file_in i s rows ≡ same_status g.status s
unfolding find_file
changed-found i s [] g o h = absurd (ground (arith, h))
changed-found i s (x ∷ xs) g o h = elim (Option-cases (find_file i xs)) [
  | inl e ↦ ground (arith, o, h, e, not_in i s xs e, changed-found i s xs g)
  | inr (y, e) ↦ ground (arith, o, h, e, changed-found i s xs g)
]

is_only-map :
    (i : ℤ) (h : FileRecord → FileRecord) (rows : List FileRecord)
    → ((f : FileRecord) → (h f).id ≡ f.id)
    → is_only i rows ≡ true
    → is_only i (map h rows) ≡ true
is_only-map i h [] k o = refl
is_only-map i h (x ∷ xs) k o = elim (Option-cases (find_file i xs)) [
  | inl e ↦ ground (arith, o, e, k x, find-map h k i xs, is_only-map i h xs k)
  | inr (y, e) ↦ ground (arith, o, e, k x, find-map h k i xs, is_only-map i h xs k)
]

-- What a change of status makes of the row.
abbrev moved : Bool → ℤ → FileStatus → Option ℕ → FileRecord → FileRecord
moved executes i s o row =
    if leb_int i (pos 0) || not executes then row else transition_row i s o row

module _ (executes : Bool) (t : Files) (i : ℤ) (s : FileStatus) (o : Option ℕ) (row : FileRecord)
    (only : is_only i t.rows ≡ true) (there : find_file i t.rows ≡ some row) where
  moved-found :
      find_file i (transition_file_status executes t i s o).0.rows ≡ some (moved executes i s o row)
  unfolding transition_file_status
  moved-found =
      ground (arith, there, find-map (transition_row i s o) (transition-KeepsId i s o) i t.rows)

  moved-only : is_only i (transition_file_status executes t i s o).0.rows ≡ true
  unfolding transition_file_status
  moved-only =
      ground (arith, only, is_only-map i (transition_row i s o) t.rows (transition-KeepsId i s o))

  moved_won :
      (transition_file_status executes t i s o).1 ≡ true
      → (same_status row.status uploading ≡ true)
        × (moved executes i s o row ≡ transition_row i s o row)
  unfolding transition_file_status
  moved_won h = ground (arith, h, changed-found i uploading t.rows row only there)

-- The completer has not passed the point after which the file may be ready.
abbrev is_before_ready : Completer → Bool
is_before_ready Completer.over = false
is_before_ready _ = true

pub record IsSafe (f : FileRecord) (a : Threads) : Type 0 where
  row : FileRecord
  there : find_file f.id a.files.rows ≡ some row
  only : is_only f.id a.files.rows ≡ true
  id : row.id ≡ f.id
  backed : same_status row.status ready ≡ true → is_backed a.storage f ≡ true
  ready_late : is_before_ready a.completer ≡ true → same_status row.status ready ≡ false
  ready_next :
      a.completer ≡ assembled finalized
      → same_status row.status uploading ≡ true
      → is_backed a.storage f ≡ true
  marked_row : a.canceller ≡ marked true → same_status row.status cancelled ≡ true
  no_reaper : a.reaper ≡ not_running

-- One status at a time.
only_one :
    (st : FileStatus)
    → (same_status st cancelled ≡ true
        → (same_status st ready ≡ false) × (same_status st uploading ≡ false))
      × (same_status st uploading ≡ true → same_status st ready ≡ false)
only_one uploading = ground arith
only_one ready = ground arith
only_one cancelled = ground arith
only_one failed = ground arith

abbrev is_marked : Canceller → Bool
is_marked (marked won) = true
is_marked _ = false

abbrev has_won : Canceller → Bool
has_won (marked won) = won
has_won _ = false

abbrev is_running : Reaper → Bool
is_running not_running = false
is_running _ = true

abbrev is_assembled : Completer → Bool
is_assembled (assembled st) = true
is_assembled _ = false

module _ (sha256 : List ℕ → List ℕ) (f : FileRecord) where
  Step-IsSafe : {a b : Threads} → Step sha256 f 0 a b → IsSafe f a → IsSafe f b
  unfolding mark_file_ready mark_file_failed mark_file_cancelled
  Step-IsSafe (assemble io a l c) h = record {
    row = h.row;
    there = h.there;
    only = h.only;
    id = h.id;
    backed = λ r. absurd (ground (arith, r, h.ready_late (ap is_before_ready c)));
    ready_late = λ e. h.ready_late (ap is_before_ready c);
    ready_next = λ e u.
        assembled_backed sha256 io a.storage f (omega (arith, l))
          (ap (λ x. elim x [ assembled st ↦ st | _ ↦ finalized ]) e);
    marked_row = h.marked_row;
    no_reaper = h.no_reaper;
  }
  Step-IsSafe (mark_ready x now a c) h = record {
    row = moved x f.id ready (some now) h.row;
    there = moved-found x a.files f.id ready (some now) h.row h.only h.there;
    only = moved-only x a.files f.id ready (some now) h.row h.only h.there;
    id = ground (arith, h.id);
    backed = λ r. ground (arith, r, h.backed, h.ready_next c);
    ready_late = λ e. absurd (ground (arith, e));
    ready_next = λ e u. absurd (ground (arith, ap is_before_ready e));
    marked_row = λ e. ground (arith, h.marked_row e, only_one h.row.status);
    no_reaper = h.no_reaper;
  }
  Step-IsSafe (mark_failed x st a c d) h = record {
    row = moved x f.id failed none h.row;
    there = moved-found x a.files f.id failed none h.row h.only h.there;
    only = moved-only x a.files f.id failed none h.row h.only h.there;
    id = ground (arith, h.id);
    backed = λ r. ground (arith, r, h.backed);
    ready_late = λ e. ground (arith, h.ready_late (ap is_before_ready c));
    ready_next = λ e u. absurd (ground (arith, ap is_assembled e));
    marked_row = λ e. ground (arith, h.marked_row e, only_one h.row.status);
    no_reaper = h.no_reaper;
  }
  Step-IsSafe (remove_failed io a c) h = record {
    row = h.row;
    there = h.there;
    only = h.only;
    id = h.id;
    backed = λ r. absurd (ground (arith, r, h.ready_late (ap is_before_ready c)));
    ready_late = λ e. absurd (ground (arith, e));
    ready_next = λ e u. absurd (ground (arith, ap is_before_ready e));
    marked_row = h.marked_row;
    no_reaper = h.no_reaper;
  }
  Step-IsSafe (mark_cancelled x a c) h = record {
    row = moved x f.id cancelled none h.row;
    there = moved-found x a.files f.id cancelled none h.row h.only h.there;
    only = moved-only x a.files f.id cancelled none h.row h.only h.there;
    id = ground (arith, h.id);
    backed = λ r. ground (arith, r, h.backed);
    ready_late = λ e. ground (arith, h.ready_late e);
    ready_next = λ e u. ground (arith, u, h.ready_next e);
    marked_row = λ e.
        let q = moved_won x a.files f.id cancelled none h.row h.only h.there (ap has_won e) in
        ground (arith, q, h.id, eq_int_iff h.row.id f.id);
    no_reaper = h.no_reaper;
  }
  Step-IsSafe (remove_cancelled io a c) h = record {
    row = h.row;
    there = h.there;
    only = h.only;
    id = h.id;
    backed = λ r. absurd (ground (arith, r, h.marked_row c, only_one h.row.status));
    ready_late = h.ready_late;
    ready_next = λ e u. absurd (ground (arith, u, h.marked_row c, only_one h.row.status));
    marked_row = λ e. absurd (ground (arith, ap is_marked e));
    no_reaper = h.no_reaper;
  }
  Step-IsSafe (remove_stale io a c) h = absurd (ground (arith, ap is_running (sym c ∙ h.no_reaper)))
  Step-IsSafe (cancel_stale x a c) h = absurd (ground (arith, ap is_running (sym c ∙ h.no_reaper)))

  Reach-IsSafe : {a b : Threads} → IsSafe f a → Reach sha256 f 0 a b → IsSafe f b
  Reach-IsSafe h here = h
  Reach-IsSafe h (next r st) = Step-IsSafe st (Reach-IsSafe h r)

-- The file's upload is in progress, a complete and a cancel request have read that, and the
-- reclamation is not at work.
pub record IsStart (f : FileRecord) (a : Threads) : Type 0 where
  pub there : find_file f.id a.files.rows ≡ some f
  pub only : is_only f.id a.files.rows ≡ true
  pub status : f.status ≡ uploading
  pub completing : a.completer ≡ Completer.before
  pub cancelling : a.canceller ≡ Canceller.before
  pub no_reaper : a.reaper ≡ not_running

start-IsSafe : (f : FileRecord) (a : Threads) → IsStart f a → IsSafe f a
start-IsSafe f a h = record {
  row = f;
  there = h.there;
  only = h.only;
  id = refl;
  backed = λ r. absurd (ground (arith, r, h.status));
  ready_late = λ e. ground (arith, h.status);
  ready_next = λ e u. absurd (ground (arith, ap is_assembled (sym h.completing ∙ e)));
  marked_row = λ e. absurd (ground (arith, ap is_marked (sym h.cancelling ∙ e)));
  no_reaper = h.no_reaper;
}

-- However the statements and storage calls of a complete and a cancel request of one upload come
-- between each other, and whichever of the calls that report a failure fail: if the file is ready in
-- the end, its object is there with the declared size, provided that the reclamation is not at work
-- on it and that closing a temporary file writes all that is buffered (`Reach … 0`).
pub ready_file_backed :
    (sha256 : List ℕ → List ℕ) (f row : FileRecord) (a b : Threads)
    → IsStart f a
    → Reach sha256 f 0 a b
    → find_file f.id b.files.rows ≡ some row
    → row.status ≡ ready
    → is_backed b.storage f ≡ true
ready_file_backed sha256 f row a b h r e d =
    let v = Reach-IsSafe sha256 f (start-IsSafe f a h) r in
    v.backed (ground (arith, ap (λ (x : FileRecord). x.status) (some_inj (sym v.there ∙ e)), d))
