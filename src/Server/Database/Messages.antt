-- ===== src/Server/Database/Messages.antt =====
-- Chat-Server/database/DatabaseManager.cpp: storing, editing and deleting messages. A column that
-- may be NULL is an `Option`; rows stand in the order of their ids. `executes` is whether SQLite
-- carries a statement out, apart from what the unique index refuses. The statements of
-- `sendMessage` are separate: its first lookup finds nothing where it fails or ran before another
-- connection stored the message, and then the unique index decides (`Statements`).
pub mod Idempotency
pub mod Tombstones
use xychat_project.Prelude.{
  ℕ, zero, suc, ◌+◌, ◌≤◌, Bool, true, false, ◌||◌, ◌&&◌, not, List, [], ◌∷◌, ◌++◌, map, ltb, leb,
  ◌==◌, length, Option, none, some, if◌then◌else◌,
}
use xychat_project.Prelude.Assoc.{text_beq}

abbrev pub Text : Type 0
Text = List ℕ

pub record Message : Type 0 where
  pub id : ℕ
  pub conversation_id : ℕ
  pub sender_id : ℕ
  pub content : Text
  pub content_type : Text
  pub client_message_id : Option Text
  pub sender_device_id : Option Text
  pub file_id : Option ℕ
  pub reply_to_message_id : Option ℕ
  pub edited_at : Option ℕ
  pub deleted : Bool

-- `ready_files` are the ids of the files whose status is `ready`; `conversations` are ids with
-- the time of the last update.
pub record Messages : Type 0 where
  pub rows : List Message
  pub next_id : ℕ
  pub ready_files : List ℕ
  pub conversations : List (ℕ × ℕ)

-- What a caller gives to `sendMessage`; 0 stands for no file and no reply.
pub record Draft : Type 0 where
  pub conversation_id : ℕ
  pub sender_id : ℕ
  pub content : Text
  pub content_type : Text
  pub client_message_id : Text
  pub sender_device_id : Text
  pub file_id : ℕ
  pub reply_to_message_id : ℕ

-- The id that is returned, or -1 with and without the flag `fileNotReady`.
pub data SendResult : Type 0 where
  message_id : ℕ → SendResult
  file_not_ready : SendResult
  failed : SendResult

abbrev pub is_empty : Text → Bool
is_empty [] = true
is_empty (c ∷ cs) = false

abbrev pub text_or_null : Text → Option Text
text_or_null t = if is_empty t then none else some t

abbrev pub id_or_null : ℕ → Option ℕ
id_or_null i = if ltb 0 i then some i else none

-- `column = ?`, which does not hold of NULL.
abbrev pub sql_equals : Option Text → Text → Bool
sql_equals none t = false
sql_equals (some u) t = text_beq u t

abbrev pub has_client_key : ℕ → Text → Text → Message → Bool
has_client_key sender device client m =
    (m.sender_id == sender)
    && (sql_equals m.sender_device_id device && sql_equals m.client_message_id client)

abbrev pub find_client_key : ℕ → Text → Text → List Message → Option Message
find_client_key sender device client [] = none
find_client_key sender device client (m ∷ ms) =
    if has_client_key sender device client m
    then some m
    else find_client_key sender device client ms

-- With whether the query gives its result.
unfoldable pub get_message_by_client_key : Bool → Messages → ℕ → Text → Text → Option Message
get_message_by_client_key answers t sender device client =
    if is_empty client || not answers then none else find_client_key sender device client t.rows

-- The statements of one `sendMessage`: whether the two lookups see the table, and whether the
-- `INSERT` is carried out where the index allows it.
pub record Statements : Type 0 where
  pub looks_up : Bool
  pub inserts : Bool
  pub looks_up_again : Bool

abbrev pub is_some : Option Message → Bool
is_some none = false
is_some (some m) = true

-- The unique index on sender, device and client id; NULL is different from NULL.
abbrev pub violates_index : Messages → Draft → Bool
violates_index t d =
    not (is_empty d.client_message_id)
    && (not (is_empty d.sender_device_id)
        && is_some (find_client_key d.sender_id d.sender_device_id d.client_message_id t.rows))

abbrev pub has_id : ℕ → List ℕ → Bool
has_id i [] = false
has_id i (j ∷ js) = if j == i then true else has_id i js

abbrev pub touch_conversation : ℕ → ℕ → List (ℕ × ℕ) → List (ℕ × ℕ)
touch_conversation c now [] = []
touch_conversation c now ((j, u) ∷ cs) =
    (if j == c then (j, now) else (j, u)) ∷ touch_conversation c now cs

abbrev pub new_message : ℕ → Draft → Message
new_message i d = record {
  id = i;
  conversation_id = d.conversation_id;
  sender_id = d.sender_id;
  content = d.content;
  content_type = d.content_type;
  client_message_id = text_or_null d.client_message_id;
  sender_device_id = text_or_null d.sender_device_id;
  file_id = id_or_null d.file_id;
  reply_to_message_id = id_or_null d.reply_to_message_id;
  edited_at = none;
  deleted = false;
}

-- After a failed statement the key is looked up once more.
abbrev pub retry_key : Bool → Messages → Draft → SendResult
retry_key answers t d =
    elim (get_message_by_client_key answers t d.sender_id d.sender_device_id d.client_message_id) [
      | none ↦ failed
      | some m ↦ message_id m.id
    ]

-- The insertion; with a file it depends on the file's status in the same statement.
abbrev pub insert_message : Statements → Messages → Draft → ℕ → Messages × SendResult
insert_message q t d now =
    if not q.inserts
    then (t, retry_key q.looks_up_again t d)
    else if ltb 0 d.file_id && not (has_id d.file_id t.ready_files)
    then (t, file_not_ready)
    else if violates_index t d
    then (t, retry_key q.looks_up_again t d)
    else (
      record t {
        rows = t.rows ++ (new_message t.next_id d ∷ []);
        next_id = t.next_id + 1;
        conversations = touch_conversation d.conversation_id now t.conversations;
      },
      message_id t.next_id,
    )

-- `sendMessage`: a message with the same client key is returned, not stored again.
unfoldable pub send_message : Statements → Messages → Draft → ℕ → Messages × SendResult
send_message q t d now =
    elim (get_message_by_client_key q.looks_up t d.sender_id d.sender_device_id
      d.client_message_id) [ none ↦ insert_message q t d now | some m ↦ (t, message_id m.id) ]

abbrev pub edit_row : ℕ → Text → Text → ℕ → Message → Message
edit_row i content content_type now m =
    if (m.id == i) && not m.deleted
    then record m { content = content; content_type = content_type; edited_at = some now }
    else m

abbrev pub any_editable : ℕ → List Message → Bool
any_editable i [] = false
any_editable i (m ∷ ms) = if (m.id == i) && not m.deleted then true else any_editable i ms

-- `editMessage`: true if a row was changed.
unfoldable pub edit_message : Bool → Messages → ℕ → Text → Text → ℕ → Messages × Bool
edit_message executes t i content content_type now =
    if (i == 0) || (is_empty content || is_empty content_type)
    then (t, false)
    else if not executes
    then (t, false)
    else (
      record t { rows = map (edit_row i content content_type now) t.rows },
      any_editable i t.rows,
    )

abbrev pub delete_row : ℕ → Message → Message
delete_row i m = if m.id == i then record m { deleted = true; content = [] } else m

-- `deleteMessage` leaves a tombstone; a second deletion succeeds too.
unfoldable pub delete_message : Bool → Messages → ℕ → Messages × Bool
delete_message executes t i =
    if i == 0
    then (t, false)
    else if not executes
    then (t, false)
    else (record t { rows = map (delete_row i) t.rows }, true)

pub data MessageCall : Type 0 where
  send : Statements → Draft → ℕ → MessageCall
  edit : Bool → ℕ → Text → Text → ℕ → MessageCall
  delete : Bool → ℕ → MessageCall

unfoldable pub step : Messages → MessageCall → Messages
step t (send q d now) = (send_message q t d now).0
step t (edit executes i content content_type now) =
    (edit_message executes t i content content_type now).0
step t (delete executes i) = (delete_message executes t i).0

unfoldable pub run : Messages → List MessageCall → Messages
run t [] = t
run t (c ∷ cs) = run (step t c) cs
