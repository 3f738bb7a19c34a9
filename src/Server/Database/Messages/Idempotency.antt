-- ===== src/Server/Database/Messages/Idempotency.antt =====
-- Chat-Server/database/DatabaseManager.cpp: a client key stores one message.
use mathlib.Core.Path.{subst}
use xychat_project.Prelude.{
  ℕ, ◌+◌, ◌≡◌, sym, ◌∙◌, ap, Bool, true, false, List, [], ◌∷◌, ◌++◌, map, none, some, arith, inl,
  inr, ◌⊎◌, Bool-cases, Option-cases,
}
use xychat_project.Prelude.Assoc.{text_beq_iff}
use xychat_project.Server.Database.Messages.{
  Text, Message, Messages, Draft, Statements, message_id, file_not_ready, failed, is_empty,
  has_client_key, find_client_key, get_message_by_client_key, new_message, send_message, edit_row,
  edit_message, delete_row, delete_message, MessageCall, send, edit, delete, step, run,
}

-- The first row with the client key of a draft has the id `i`.
abbrev pub Stored : Draft → ℕ → List Message → Type 0
Stored d i rows =
    (m : Message) × (find_client_key d.sender_id d.sender_device_id d.client_message_id rows
      ≡ some m)
    × (m.id ≡ i)

find_client_key-append :
    (s : ℕ) (d c : Text) (rows more : List Message) (m : Message)
    → find_client_key s d c rows ≡ some m
    → find_client_key s d c (rows ++ more) ≡ some m
find_client_key-append s d c [] more m e = ground (arith, e)
find_client_key-append s d c (x ∷ xs) more m e =
    ground (arith, e, find_client_key-append s d c xs more m)

append-none :
    (s : ℕ) (d c : Text) (rows : List Message) (m : Message)
    → find_client_key s d c rows ≡ none
    → has_client_key s d c m ≡ false
    → find_client_key s d c (rows ++ (m ∷ [])) ≡ none
append-none s d c [] m e h = ground (arith, h)
append-none s d c (x ∷ xs) m e h = ground (arith, e, h, append-none s d c xs m)

append-find_client_key :
    (s : ℕ) (d c : Text) (rows : List Message) (m : Message)
    → find_client_key s d c rows ≡ none
    → has_client_key s d c m ≡ true
    → find_client_key s d c (rows ++ (m ∷ [])) ≡ some m
append-find_client_key s d c [] m e h = ground (arith, h)
append-find_client_key s d c (x ∷ xs) m e h =
    ground (arith, e, h, append-find_client_key s d c xs m)

-- A change of rows that keeps the ids and the client keys.
abbrev KeepsKey : (Message → Message) → Type 0
KeepsKey f =
    (s : ℕ) (d c : Text) (m : Message)
    → (has_client_key s d c (f m) ≡ has_client_key s d c m) × ((f m).id ≡ m.id)

edit-KeepsKey :
    (i : ℕ) (content content_type : Text) (now : ℕ) → KeepsKey (edit_row i content content_type now)
edit-KeepsKey i content content_type now s d c m = (ground arith, ground arith)

delete-KeepsKey : (i : ℕ) → KeepsKey (delete_row i)
delete-KeepsKey i s d c m = (ground arith, ground arith)

find_client_key-map :
    (f : Message → Message)
    → KeepsKey f
    → (s : ℕ) (d c : Text) (rows : List Message) (m : Message) → find_client_key s d c rows ≡ some m
    → find_client_key s d c (map f rows) ≡ some (f m)
find_client_key-map f k s d c [] m e = ground (arith, e)
find_client_key-map f k s d c (x ∷ xs) m e =
    ground (arith, e, k s d c x, find_client_key-map f k s d c xs m)

map-Stored :
    (f : Message → Message)
    → KeepsKey f
    → (d : Draft) (i : ℕ) (rows : List Message) → Stored d i rows
    → Stored d i (map f rows)
map-Stored f k d i rows (m, e, h) =
    let (_, same) = k d.sender_id d.sender_device_id d.client_message_id m in
    (
      f m,
      find_client_key-map f k d.sender_id d.sender_device_id d.client_message_id rows m e,
      same ∙ h,
    )

-- What sending does to the rows: nothing, or one more row.
pub send-rows :
    (q : Statements) (t : Messages) (d : Draft) (now : ℕ)
    → ((send_message q t d now).0.rows ≡ t.rows)
      ⊎ ((send_message q t d now).0.rows ≡ t.rows ++ (new_message t.next_id d ∷ []))
unfolding send_message
send-rows q t d now = ground arith

pub edit-rows :
    (executes : Bool) (t : Messages) (j : ℕ) (content content_type : Text) (now : ℕ)
    → ((edit_message executes t j content content_type now).0.rows ≡ t.rows)
      ⊎ ((edit_message executes t j content content_type now).0.rows
          ≡ map (edit_row j content content_type now) t.rows)
unfolding edit_message
edit-rows executes t j content content_type now = ground arith

pub delete-rows :
    (executes : Bool) (t : Messages) (j : ℕ)
    → ((delete_message executes t j).0.rows ≡ t.rows)
      ⊎ ((delete_message executes t j).0.rows ≡ map (delete_row j) t.rows)
unfolding delete_message
delete-rows executes t j = ground arith

append-Stored :
    (d : Draft) (i : ℕ) (rows more : List Message) → Stored d i rows → Stored d i (rows ++ more)
append-Stored d i rows more (m, f, h) =
    (m, find_client_key-append d.sender_id d.sender_device_id d.client_message_id rows more m f, h)

step-Stored :
    (d : Draft) (i : ℕ) (t : Messages) (c : MessageCall)
    → Stored d i t.rows
    → Stored d i (step t c).rows
unfolding step
step-Stored d i t (send q e now) s = elim (send-rows q t e now) [
  | inl r ↦ subst (Stored d i) (sym r) s
  | inr r ↦ subst (Stored d i) (sym r) (append-Stored d i t.rows (new_message t.next_id e ∷ []) s)
]
step-Stored d i t (edit executes j content content_type now) s =
    elim (edit-rows executes t j content content_type now) [
      | inl r ↦ subst (Stored d i) (sym r) s
      | inr r ↦ subst (Stored d i) (sym r) (
          map-Stored (edit_row j content content_type now)
            (edit-KeepsKey j content content_type now) d i t.rows s)
    ]
step-Stored d i t (delete executes j) s = elim (delete-rows executes t j) [
  | inl r ↦ subst (Stored d i) (sym r) s
  | inr r ↦ subst (Stored d i) (sym r) (map-Stored (delete_row j) (delete-KeepsKey j) d i t.rows s)
]

run-Stored :
    (d : Draft) (i : ℕ) (t : Messages) (cs : List MessageCall)
    → Stored d i t.rows
    → Stored d i (run t cs).rows
unfolding run
run-Stored d i t [] s = s
run-Stored d i t (c ∷ cs) s = run-Stored d i (step t c) cs (step-Stored d i t c s)

new-has_client_key :
    (i : ℕ) (d : Draft)
    → is_empty d.client_message_id ≡ false
    → is_empty d.sender_device_id ≡ false
    → has_client_key d.sender_id d.sender_device_id d.client_message_id (new_message i d) ≡ true
new-has_client_key i d c e = ground (
  arith,
  c,
  e,
  text_beq_iff d.client_message_id d.client_message_id,
  text_beq_iff d.sender_device_id d.sender_device_id,
)

stored_new :
    (q : Statements) (t : Messages) (d : Draft) (now i : ℕ)
    → is_empty d.client_message_id ≡ false
    → is_empty d.sender_device_id ≡ false
    → find_client_key d.sender_id d.sender_device_id d.client_message_id t.rows ≡ none
    → (send_message q t d now).1 ≡ message_id i
    → find_client_key d.sender_id d.sender_device_id d.client_message_id
        (send_message q t d now).0.rows
      ≡ some (new_message t.next_id d)
unfolding send_message get_message_by_client_key
stored_new q t d now i c e f h = ground (
  arith,
  c,
  f,
  h,
  append-find_client_key d.sender_id d.sender_device_id d.client_message_id t.rows
      (new_message t.next_id d) f (new-has_client_key t.next_id d c e),
)

-- With its key in the table a draft changes nothing, and gets the id that is there or none.
pub sent_again :
    (q : Statements) (t : Messages) (d : Draft) (now : ℕ) (m : Message)
    → is_empty d.client_message_id ≡ false
    → is_empty d.sender_device_id ≡ false
    → find_client_key d.sender_id d.sender_device_id d.client_message_id t.rows ≡ some m
    → ((send_message q t d now).0 ≡ t)
      × (((send_message q t d now).1 ≡ message_id m.id)
          ⊎ ((q.looks_up ≡ false)
              × (((send_message q t d now).1 ≡ failed)
                  ⊎ ((send_message q t d now).1 ≡ file_not_ready))))
unfolding send_message get_message_by_client_key
sent_again q t d now m c v f = (ground (arith, c, v, f), ground (arith, c, v, f))

-- A draft that was given an id is stored under it.
sent-Stored :
    (q : Statements) (t : Messages) (d : Draft) (now i : ℕ)
    → is_empty d.client_message_id ≡ false
    → is_empty d.sender_device_id ≡ false
    → (send_message q t d now).1 ≡ message_id i
    → Stored d i (send_message q t d now).0.rows
unfolding send_message get_message_by_client_key
sent-Stored q t d now i c e h =
    elim (Option-cases
      (find_client_key d.sender_id d.sender_device_id d.client_message_id t.rows)) [
        | inl f ↦ (new_message t.next_id d, stored_new q t d now i c e f h, ground (arith, c, f, h))
        | inr (m, f) ↦ (m, ground (arith, c, e, f), ground (arith, c, e, f, h))
      ]

same_key :
    (t : Messages) (d e : Draft) (m : Message)
    → find_client_key d.sender_id d.sender_device_id d.client_message_id t.rows ≡ some m
    → e.sender_id ≡ d.sender_id
    → e.sender_device_id ≡ d.sender_device_id
    → e.client_message_id ≡ d.client_message_id
    → find_client_key e.sender_id e.sender_device_id e.client_message_id t.rows ≡ some m
same_key t d e m g a b f = ground (arith, a, b, f, g)

-- A message that was stored with a client id and a device id is stored once: whatever is sent,
-- edited and deleted later, sending a draft with the same sender, device and client id changes
-- nothing, whatever its content is and whichever statements fail. It gives the id of the first one,
-- or, only if the first lookup did not see the message, no id.
pub send_message_once :
    (q q' : Statements) (t : Messages) (d e : Draft) (now now' i : ℕ) (cs : List MessageCall)
    → is_empty d.client_message_id ≡ false
    → is_empty d.sender_device_id ≡ false
    → (send_message q t d now).1 ≡ message_id i
    → e.sender_id ≡ d.sender_id
    → e.sender_device_id ≡ d.sender_device_id
    → e.client_message_id ≡ d.client_message_id
    → ((send_message q' (run (send_message q t d now).0 cs) e now').0
        ≡ run (send_message q t d now).0 cs)
      × (((send_message q' (run (send_message q t d now).0 cs) e now').1 ≡ message_id i)
          ⊎ ((q'.looks_up ≡ false)
              × (((send_message q' (run (send_message q t d now).0 cs) e now').1 ≡ failed)
                  ⊎ ((send_message q' (run (send_message q t d now).0 cs) e now').1
                      ≡ file_not_ready))))
send_message_once q q' t d e now now' i cs c v h a b f =
    let (m, g, same) =
      run-Stored d i (send_message q t d now).0 cs (sent-Stored q t d now i c v h) in
    let later = run (send_message q t d now).0 cs in
    let (kept, answer) =
      sent_again q' later e now' m (ap is_empty f ∙ c) (ap is_empty b ∙ v)
        (same_key later d e m g a b f) in
    (kept, elim answer [ inl r ↦ inl (r ∙ ap message_id same) | inr r ↦ inr r ])

abbrev all_work : Statements
all_work = record { looks_up = true; inserts = true; looks_up_again = true }

-- Without a device id the key is not found again: the same draft is stored a second time.
pub send_message_twice :
    (t : Messages) (d : Draft) (now : ℕ)
    → d.sender_device_id ≡ []
    → d.file_id ≡ 0
    → get_message_by_client_key true t d.sender_id d.sender_device_id d.client_message_id ≡ none
    → let r = send_message all_work t d now in
      (r.1 ≡ message_id t.next_id)
      × ((send_message all_work r.0 d now).1 ≡ message_id (t.next_id + 1))
unfolding send_message get_message_by_client_key
send_message_twice t d now a b n = elim (Bool-cases (is_empty d.client_message_id)) [
  | inl c ↦ (ground (arith, a, b, c), ground (arith, a, b, c))
  | inr c ↦
      let f : find_client_key d.sender_id d.sender_device_id d.client_message_id t.rows ≡ none =
        ground (arith, n, c) in
      let g =
        append-none d.sender_id d.sender_device_id d.client_message_id t.rows
          (new_message t.next_id d) f (ground (arith, a)) in
      (ground (arith, a, b, c, f), ground (arith, a, b, c, f, g))
]
