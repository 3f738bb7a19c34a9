-- ===== src/Server/Database/Messages/Tombstones.antt =====
-- Chat-Server/database/DatabaseManager.cpp: a deleted message stays deleted.
use mathlib.Core.Path.{subst}
use xychat_project.Prelude.{
  ℕ, ◌≤◌, ◌<◌, ◌≡◌, refl, sym, Bool, true, false, ◌&&◌, List, [], ◌∷◌, ◌++◌, map, ◌==◌,
  if◌then◌else◌, arith, inl, inr,
}
use xychat_project.Server.Database.Messages.{
  Text, Message, Messages, Draft, Statements, is_empty, new_message, send_message, edit_row,
  edit_message, any_editable, delete_row, delete_message, MessageCall, send, edit, delete, step,
  run,
}
use xychat_project.Server.Database.Messages.Idempotency.{send-rows, edit-rows, delete-rows}

-- Every row with the id `i` is a tombstone: deleted, and without content.
abbrev pub is_tombstone : ℕ → Message → Bool
is_tombstone i m = if m.id == i then m.deleted && is_empty m.content else true

abbrev pub are_tombstones : ℕ → List Message → Bool
are_tombstones i [] = true
are_tombstones i (m ∷ ms) = is_tombstone i m && are_tombstones i ms

-- Fresh ids are above `i`.
abbrev pub Deleted : ℕ → Messages → Type 0
Deleted i t = (are_tombstones i t.rows ≡ true) × (i < t.next_id)

delete_row-are_tombstones :
    (i : ℕ) (rows : List Message) → are_tombstones i (map (delete_row i) rows) ≡ true
delete_row-are_tombstones i [] = refl
delete_row-are_tombstones i (m ∷ ms) = ground (arith, delete_row-are_tombstones i ms)

edit-are_tombstones :
    (i j : ℕ) (content content_type : Text) (now : ℕ) (rows : List Message)
    → are_tombstones i rows ≡ true
    → are_tombstones i (map (edit_row j content content_type now) rows) ≡ true
edit-are_tombstones i j content content_type now [] h = refl
edit-are_tombstones i j content content_type now (m ∷ ms) h =
    ground (arith, edit-are_tombstones i j content content_type now ms)

delete-are_tombstones :
    (i j : ℕ) (rows : List Message)
    → are_tombstones i rows ≡ true
    → are_tombstones i (map (delete_row j) rows) ≡ true
delete-are_tombstones i j [] h = refl
delete-are_tombstones i j (m ∷ ms) h = ground (arith, delete-are_tombstones i j ms)

append-are_tombstones :
    (i : ℕ) (rows : List Message) (m : Message)
    → are_tombstones i rows ≡ true
    → is_tombstone i m ≡ true
    → are_tombstones i (rows ++ (m ∷ [])) ≡ true
append-are_tombstones i [] m h g = ground (arith, g)
append-are_tombstones i (x ∷ xs) m h g = ground (arith, append-are_tombstones i xs m, g)

send-next_id :
    (q : Statements) (t : Messages) (d : Draft) (now : ℕ)
    → t.next_id ≤ (send_message q t d now).0.next_id
unfolding send_message
send-next_id q t d now = ground arith

fixed-next_id :
    (executes : Bool) (t : Messages) (j : ℕ) (content content_type : Text) (now : ℕ)
    → ((edit_message executes t j content content_type now).0.next_id ≡ t.next_id)
      × ((delete_message executes t j).0.next_id ≡ t.next_id)
unfolding edit_message delete_message
fixed-next_id executes t j content content_type now = (ground arith, ground arith)

abbrev Tombstones : ℕ → List Message → Type 0
Tombstones i rows = are_tombstones i rows ≡ true

step-Deleted : (i : ℕ) (t : Messages) (c : MessageCall) → Deleted i t → Deleted i (step t c)
unfolding step
step-Deleted i t (send q d now) (h, l) = (
  elim (send-rows q t d now) [
    | inl r ↦ subst (Tombstones i) (sym r) h
    | inr r ↦
        subst (Tombstones i) (sym r)
          (append-are_tombstones i t.rows (new_message t.next_id d) h (ground arith))
  ],
  omega (arith, send-next_id q t d now),
)
step-Deleted i t (edit executes j content content_type now) (h, l) = (
  elim (edit-rows executes t j content content_type now) [
    | inl r ↦ subst (Tombstones i) (sym r) h
    | inr r ↦
        subst (Tombstones i) (sym r) (edit-are_tombstones i j content content_type now t.rows h)
  ],
  omega (arith, (fixed-next_id executes t j content content_type now).0),
)
step-Deleted i t (delete executes j) (h, l) = (
  elim (delete-rows executes t j) [
    | inl r ↦ subst (Tombstones i) (sym r) h
    | inr r ↦ subst (Tombstones i) (sym r) (delete-are_tombstones i j t.rows h)
  ],
  omega (arith, (fixed-next_id executes t j [] [] 0).1),
)

run-Deleted : (i : ℕ) (t : Messages) (cs : List MessageCall) → Deleted i t → Deleted i (run t cs)
unfolding run
run-Deleted i t [] h = h
run-Deleted i t (c ∷ cs) h = run-Deleted i (step t c) cs (step-Deleted i t c h)

not_editable :
    (i : ℕ) (rows : List Message) → are_tombstones i rows ≡ true → any_editable i rows ≡ false
not_editable i [] h = refl
not_editable i (m ∷ ms) h = ground (arith, not_editable i ms)

delete_message-Deleted :
    (t : Messages) (i : ℕ)
    → i < t.next_id
    → (delete_message true t i).1 ≡ true
    → Deleted i (delete_message true t i).0
unfolding delete_message
delete_message-Deleted t i l h =
    (ground (arith, h, delete_row-are_tombstones i t.rows), ground (arith, l))

-- After a successful deletion the message has no content and stays deleted, whatever is sent,
-- edited and deleted later, and every attempt to edit it reports that nothing was changed.
pub delete_message_final :
    (t : Messages) (i : ℕ) (cs : List MessageCall) (executes : Bool) (content content_type : Text)
    (now : ℕ)
    → i < t.next_id
    → (delete_message true t i).1 ≡ true
    → (are_tombstones i (run (delete_message true t i).0 cs).rows ≡ true)
      × ((edit_message executes (run (delete_message true t i).0 cs) i content content_type now).1
          ≡ false)
unfolding edit_message
delete_message_final t i cs executes content content_type now l h =
    let (d, _) = run-Deleted i (delete_message true t i).0 cs (delete_message-Deleted t i l h) in
    (d, ground (arith, not_editable i (run (delete_message true t i).0 cs).rows d))
