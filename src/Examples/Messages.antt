-- ===== src/Examples/Messages.antt =====
-- Messages at concrete calls.
use xychat_project.Prelude.{◌≡◌, ◌⊎◌, refl, true, false, [], ◌∷◌, arith}
use xychat_project.Prelude.Json.{codes}
use xychat_project.Server.Database.Messages.{
  Messages, Draft, Statements, message_id, file_not_ready, failed, send_message,
  get_message_by_client_key, edit_message, delete_message, send, edit, delete, run,
}
use xychat_project.Server.Database.Messages.Idempotency.{send_message_once}
use xychat_project.Server.Database.Messages.Tombstones.{are_tombstones, delete_message_final}

abbrev table : Messages
table = record { rows = []; next_id = 1; ready_files = 4 ∷ []; conversations = (3, 0) ∷ [] }

abbrev hello : Draft
hello = record {
  conversation_id = 3;
  sender_id = 7;
  content = codes "hello";
  content_type = codes "text";
  client_message_id = codes "k1";
  sender_device_id = codes "phone";
  file_id = 4;
  reply_to_message_id = 0;
}

abbrev again : Draft
again = record hello { content = codes "other" }

abbrev all_work : Statements
all_work = record { looks_up = true; inserts = true; looks_up_again = true }

-- The statements of a connection whose first lookup was too early.
abbrev too_early : Statements
too_early = record { looks_up = false; inserts = true; looks_up_again = true }

abbrev stored : Messages
stored = (send_message all_work table hello 50).0

abbrev later : Messages
later = run stored (edit true 1 (codes "x") (codes "text") 60 ∷ delete true 1 ∷ [])

-- The same key again, after the message was edited and deleted.
send_message_once_example :
    ((send_message too_early later again 70).0 ≡ later)
    × (((send_message too_early later again 70).1 ≡ message_id 1)
        ⊎ ((false ≡ false)
            × (((send_message too_early later again 70).1 ≡ failed)
                ⊎ ((send_message too_early later again 70).1 ≡ file_not_ready))))
unfolding send_message get_message_by_client_key
send_message_once_example =
    send_message_once all_work too_early table hello again 50 70 1
      (edit true 1 (codes "x") (codes "text") 60 ∷ delete true 1 ∷ []) refl refl refl refl refl refl

delete_message_final_example :
    (are_tombstones 1
        (run
          (delete_message true stored 1).0
          (edit true 1 (codes "x") (codes "text") 60 ∷ send all_work again 70 ∷ [])).rows
      ≡ true)
    × ((edit_message true
          (run
            (delete_message true stored 1).0
            (edit true 1 (codes "x") (codes "text") 60 ∷ send all_work again 70 ∷ []))
          1
          (codes "y")
          (codes "text")
          80).1
        ≡ false)
unfolding send_message get_message_by_client_key delete_message
delete_message_final_example =
    delete_message_final stored 1
      (edit true 1 (codes "x") (codes "text") 60 ∷ send all_work again 70 ∷ []) true (codes "y")
      (codes "text") 80 (omega arith) refl
