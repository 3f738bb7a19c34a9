-- ===== src/Server/Database/Files/Lifecycle.antt =====
-- Chat-Server/database/DatabaseManager.cpp: the life of one file, through any sequence
-- of calls.
use mathlib.Core.Path.{subst}
use xychat_project.Prelude.{
  ◌||◌, ℕ, zero, suc, take, ◌≢◌, ◌≤◌, ◌≡◌, refl, ap, sym, ◌∙◌, Bool, true, false, List, [], ◌∷◌,
  Option, none, some, if◌then◌else◌, arith, All, Option-cases, inl, inr, some_inj, not,
}
use xychat_project.Prelude.Int.{ℤ, pos, ltb_int, eq_int, eq_int_iff}
use xychat_project.Server.Database.Messages.{Message}
use xychat_project.Server.Database.Files.{
  FileStatus, FileRecord, Files, find_file, transition_row, cancel_row, uploading, ready, cancelled,
  failed, any_reference, same_status, is_file_referenced_by_message, create_file_record,
  transition_file_status, mark_file_ready, mark_file_cancelled, mark_file_failed,
  cancel_unreferenced_ready_file, delete_file_record, FileCall, create, mark_ready, mark_cancelled,
  mark_failed, cancel_unreferenced, delete, step, run,
}
use xychat_project.Server.Database.Files.Rows.{find-id, is_below}
use xychat_project.Server.Database.Files.Steps.{
  is_skipped, after, find-step, IsTable, step-IsTable, IsGone, step-IsGone,
}

-- The changes of status that the code makes, with none and with several in a row.
abbrev pub may_become : FileStatus → FileStatus → Bool
may_become uploading s = true
may_become ready ready = true
may_become ready cancelled = true
may_become cancelled cancelled = true
may_become failed failed = true
may_become _ _ = false

may_become_refl : (s : FileStatus) → may_become s s ≡ true
may_become_refl uploading = refl
may_become_refl ready = refl
may_become_refl cancelled = refl
may_become_refl failed = refl

may_become_trans :
    (a b c : FileStatus) → may_become a b ≡ true → may_become b c ≡ true → may_become a c ≡ true
may_become_trans uploading b c h g = refl
may_become_trans ready ready c h g = g
may_become_trans ready cancelled cancelled h g = refl
may_become_trans cancelled cancelled c h g = g
may_become_trans failed failed c h g = g
may_become_trans ready uploading c h g = absurd (cc)
may_become_trans ready cancelled uploading h g = absurd (cc)
may_become_trans ready cancelled ready h g = absurd (cc)
may_become_trans ready cancelled failed h g = absurd (cc)
may_become_trans ready failed c h g = absurd (cc)
may_become_trans cancelled uploading c h g = absurd (cc)
may_become_trans cancelled ready c h g = absurd (cc)
may_become_trans cancelled failed c h g = absurd (cc)
may_become_trans failed uploading c h g = absurd (cc)
may_become_trans failed ready c h g = absurd (cc)
may_become_trans failed cancelled c h g = absurd (cc)

-- The second record is a later state of the first: all but the status and the time of completion
-- is the same.
pub record Follows (f g : FileRecord) : Type 0 where
  pub same : g ≡ record f { status = g.status; completed_at = g.completed_at }
  pub allowed : may_become f.status g.status ≡ true

Follows-refl : (f : FileRecord) → Follows f f
Follows-refl f = record { same = refl; allowed = may_become_refl f.status }

Follows-trans : (f g h : FileRecord) → Follows f g → Follows g h → Follows f h
Follows-trans f g h a b = record {
  same =
      b.same
      ∙ ap (λ (x : FileRecord). record x { status = h.status; completed_at = h.completed_at })
          a.same;
  allowed = may_become_trans f.status g.status h.status a.allowed b.allowed;
}

same_status_eq : (a b : FileStatus) → same_status a b ≡ true → a ≡ b
same_status_eq uploading uploading h = refl
same_status_eq uploading ready h = absurd (cc)
same_status_eq uploading cancelled h = absurd (cc)
same_status_eq uploading failed h = absurd (cc)
same_status_eq ready uploading h = absurd (cc)
same_status_eq ready ready h = refl
same_status_eq ready cancelled h = absurd (cc)
same_status_eq ready failed h = absurd (cc)
same_status_eq cancelled uploading h = absurd (cc)
same_status_eq cancelled ready h = absurd (cc)
same_status_eq cancelled cancelled h = refl
same_status_eq cancelled failed h = absurd (cc)
same_status_eq failed uploading h = absurd (cc)
same_status_eq failed ready h = absurd (cc)
same_status_eq failed cancelled h = absurd (cc)
same_status_eq failed failed h = refl

transition-Follows :
    (i : ℤ) (s : FileStatus) (o : Option ℕ) (f : FileRecord) → Follows f (transition_row i s o f)
transition-Follows i s o f = record {
  same = ground arith;
  allowed = ground (arith, may_become_refl f.status, same_status_eq f.status uploading);
}

cancel-Follows : (i : ℤ) (ms : List Message) (f : FileRecord) → Follows f (cancel_row i ms f)
cancel-Follows i ms f = record {
  same = ground arith;
  allowed = ground (arith, may_become_refl f.status, same_status_eq f.status ready);
}

-- What became of a row: it is gone, or it is a later state of what it was.
abbrev Became : FileRecord → Option FileRecord → Type 0
Became f none = Unit {0}
Became f (some g) = Follows f g

if-Follows : (b : Bool) (f g : FileRecord) → Follows f g → Follows f (if b then f else g)
if-Follows true f g h = Follows-refl f
if-Follows false f g h = h

if-Became : (b : Bool) (f : FileRecord) → Became f (if b then some f else none)
if-Became true f = Follows-refl f
if-Became false f = tt

after-Became : (i : ℤ) (f : FileRecord) (c : FileCall) → Became f (after i f c)
after-Became i f (create executes new max now) = Follows-refl f
after-Became i f (mark_ready executes j now) =
    if-Follows (is_skipped executes j) f (transition_row j ready (some now) f)
      (transition-Follows j ready (some now) f)
after-Became i f (mark_cancelled executes j) =
    if-Follows (is_skipped executes j) f (transition_row j cancelled none f)
      (transition-Follows j cancelled none f)
after-Became i f (mark_failed executes j) =
    if-Follows (is_skipped executes j) f (transition_row j failed none f)
      (transition-Follows j failed none f)
after-Became i f (cancel_unreferenced executes ms j) =
    if-Follows (is_skipped executes j) f (cancel_row j ms f) (cancel-Follows j ms f)
after-Became i f (delete answers executes ms j) =
    if-Became
      (is_skipped executes j || (is_file_referenced_by_message answers ms j || not (eq_int j i))) f

file_below :
    (n : ℕ) (i : ℤ) (rows : List FileRecord) (f : FileRecord)
    → is_below n rows ≡ true
    → find_file i rows ≡ some f
    → ltb_int i (pos n) ≡ true
unfolding find_file
file_below n i [] f b h = absurd (ground arith)
file_below n i (x ∷ xs) f b h = ground (arith, b, h, eq_int_iff x.id i, file_below n i xs f)

ltb_int_le : (i : ℤ) (m n : ℕ) → m ≤ n → ltb_int i (pos m) ≡ true → ltb_int i (pos n) ≡ true
ltb_int_le (pos a) m n l h = ground arith
ltb_int_le _ m n l h = refl

next_id_grows : (t : Files) (c : FileCall) → t.next_id ≤ (step t c).next_id
unfolding step create_file_record transition_file_status mark_file_ready mark_file_cancelled
    mark_file_failed cancel_unreferenced_ready_file delete_file_record
next_id_grows t (create executes new max now) = ground arith
next_id_grows t (mark_ready executes j now) = ground arith
next_id_grows t (mark_cancelled executes j) = ground arith
next_id_grows t (mark_failed executes j) = ground arith
next_id_grows t (cancel_unreferenced executes ms j) = ground arith
next_id_grows t (delete answers executes ms j) = ground arith

run-IsGone :
    (i : ℤ) (t : Files) (cs : List FileCall) → IsGone i t → find_file i (run t cs).rows ≡ none
unfolding run
run-IsGone i t [] h = h.0
run-IsGone i t (c ∷ cs) h = run-IsGone i (step t c) cs (step-IsGone i t c h)

Follows-run :
    (i : ℤ) (f g : FileRecord) (t : Files) (cs : List FileCall)
    → IsTable t
    → find_file i t.rows ≡ some f
    → find_file i (run t cs).rows ≡ some g
    → Follows f g
unfolding run
Follows-run i f g t [] v h k = subst (Follows f) (some_inj (sym h ∙ k)) (Follows-refl f)
Follows-run i f g t (c ∷ cs) v h k = elim (Option-cases (after i f c)) [
  | inl e ↦
      let gone = run-IsGone i (step t c) cs (
        find-step i f t c h ∙ e,
        ltb_int_le i t.next_id (step t c).next_id (next_id_grows t c)
            (file_below t.next_id i t.rows f v h),
      ) in
      absurd (ground (arith, gone, k))
  | inr (x, e) ↦
      Follows-trans f x g (subst (Became f) e (after-Became i f c))
        (Follows-run i x g (step t c) cs (step-IsTable t c v) (find-step i f t c h ∙ e) k)
]

never_gone :
    (i : ℤ) (f g : FileRecord) (t : Files) (cs : List FileCall) (n : ℕ)
    → IsTable t
    → find_file i t.rows ≡ some f
    → find_file i (run t cs).rows ≡ some g
    → find_file i (run t (take n cs)).rows ≢ none
unfolding run
never_gone i f g t cs zero v h k = λ e. ground (arith, e, h)
never_gone i f g t [] (suc n) v h k = λ e. ground (arith, e, h)
never_gone i f g t (c ∷ cs) (suc n) v h k = elim (Option-cases (after i f c)) [
  | inl e ↦
      let gone = run-IsGone i (step t c) cs (
        find-step i f t c h ∙ e,
        ltb_int_le i t.next_id (step t c).next_id (next_id_grows t c)
            (file_below t.next_id i t.rows f v h),
      ) in
      absurd (ground (arith, gone, k))
  | inr (x, e) ↦ never_gone i x g (step t c) cs n (step-IsTable t c v) (find-step i f t c h ∙ e) k
]

-- Once a file has its id, and is found after a sequence of calls, whichever statements fail, it was there
-- after each of the calls in between, so that a file that is gone does not come back; and it is the same
-- upload, by the same user and with the same blob key, sizes, chunks and checksum; its status has
-- changed only from `uploading` to another, or from `ready` to `cancelled`, so that a cancelled or
-- failed one never becomes ready.
pub run-Follows :
    (i : ℤ) (f g : FileRecord) (t : Files) (cs : List FileCall)
    → IsTable t
    → find_file i t.rows ≡ some f
    → find_file i (run t cs).rows ≡ some g
    → Follows f g × ((n : ℕ) → find_file i (run t (take n cs)).rows ≢ none)
run-Follows i f g t cs v h k = (Follows-run i f g t cs v h k, λ n. never_gone i f g t cs n v h k)

-- Where a call reads the messages, one that is not deleted carries the file `i`.
abbrev pub sees_reference : ℤ → FileCall → Bool
sees_reference i (cancel_unreferenced executes ms j) = any_reference i ms
sees_reference i (delete answers executes ms j) = any_reference i ms
sees_reference i _ = true

pub after_kept :
    (i : ℤ) (f : FileRecord) (c : FileCall)
    → f.id ≡ i
    → f.status ≡ ready
    → sees_reference i c ≡ true
    → after i f c ≡ some f
unfolding is_file_referenced_by_message
after_kept i f (create executes new max now) n r s = refl
after_kept i f (mark_ready executes j now) n r s = ground (arith, r)
after_kept i f (mark_cancelled executes j) n r s = ground (arith, r)
after_kept i f (mark_failed executes j) n r s = ground (arith, r)
after_kept i f (cancel_unreferenced executes ms j) n r s = ground (arith, r, n, s)
after_kept i f (delete answers executes ms j) n r s = ground (arith, r, s, eq_int_iff j i)

-- A file that is ready, and that an undeleted message carries whenever a call reads the messages,
-- stays exactly as it is in any sequence of calls, whichever queries and statements fail: no upload
-- handler, no cancellation and no reclamation takes it away.
pub referenced_file_kept :
    (i : ℤ) (f : FileRecord) (t : Files) (cs : List FileCall)
    → find_file i t.rows ≡ some f
    → f.status ≡ ready
    → All (λ c. sees_reference i c ≡ true) cs
    → find_file i (run t cs).rows ≡ some f
unfolding run
referenced_file_kept i f t [] h r s = h
referenced_file_kept i f t (c ∷ cs) h r s =
    referenced_file_kept i f (step t c) cs
      (find-step i f t c h ∙ after_kept i f c (find-id i t.rows f h) r s.0) r s.1
