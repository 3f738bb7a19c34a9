-- ===== src/Server/Send/Handler.antt =====
-- Chat-Server/core/RequestHandler.cpp: `processSendMessageRequest`, for a private message. A request
-- with a conversation goes on to the group path, which is an outcome here. The sender is the
-- authenticated user of the connection with its device; one clock reading serves the request. Whether
-- each statement is carried out, and whether the transaction begins and commits, is given: the code
-- goes on when the transaction does not begin, a prekey is not consumed or an event is not stored. A
-- rollback undoes what the transaction did. The checks and the statements of one request are not
-- interleaved with other connections, except that a lookup may miss a message (`Statements`).

use xychat_project.Prelude.{
  ℕ, ◌+◌, Bool, true, false, ◌||◌, ◌&&◌, not, List, [], ◌∷◌, ◌++◌, ltb, ◌==◌, length, Option, none,
  some, if◌then◌else◌,
}
use xychat_project.Prelude.Int.{ℤ, pos, pos_part, leb_int, ltb_int, eq_int}
use xychat_project.Prelude.Json.{Json, str, Fields, value, to_text, to_long_long, codes}
use xychat_project.Server.RateWindow.{allow}
use xychat_project.Server.Database.Messages.{
  Message, Messages, Draft, SendResult, message_id, file_not_ready, failed, send_message,
  get_message_by_client_key, is_empty, has_id,
}
use xychat_project.Server.Database.Prekeys.{consume_prekeys}
use xychat_project.Server.Send.Checks.{
  max_client_id_length, Conversation, MessageEvent, Server, Sender, World, Outcome, refuse,
  parse_reply_target, check_message_file, check_envelope, invalid_request, rate_limited,
  cannot_send_to_self, file_not_available, invalid_envelope, internal_error, sent, reused, to_group,
}

abbrev pub find_private : ℕ → ℕ → List Conversation → Option ℕ
find_private a b [] = none
find_private a b (c ∷ cs) =
    if c.is_private && (has_id a c.members && has_id b c.members)
    then some c.id
    else find_private a b cs

-- `getOrCreatePrivateConversation` for two different users.
abbrev pub open_conversation : World → Server → ℕ → ℕ → ℕ → Option ℕ → Server × Option ℕ
open_conversation w s a b now (some c) = (s, some c)
open_conversation w s a b now none = if not w.inserts_conversation then (s, none) else (
  record s {
    conversations =
        s.conversations
        ++ (record { id = s.next_conversation; is_private = true; members = a ∷ b ∷ [] } ∷ []);
    next_conversation = s.next_conversation + 1;
    messages = record (s.messages) {
      conversations = s.messages.conversations ++ ((s.next_conversation, now) ∷ []);
    };
  },
  some s.next_conversation,
)

unfoldable pub get_or_create_private_conversation : World → Server → ℕ → ℕ → ℕ → Server × Option ℕ
get_or_create_private_conversation w s a b now =
    open_conversation w s a b now (find_private a b s.conversations)

abbrev pub in_conversation : ℕ → ℕ → List Message → Bool
in_conversation i c [] = false
in_conversation i c (m ∷ ms) =
    if (m.id == i) && (m.conversation_id == c) then true else in_conversation i c ms

-- `resolveReplyTarget`; without a reply there is nothing to resolve.
abbrev pub is_bad_reply : Server → ℕ → ℕ → Bool
is_bad_reply s reply c = ltb 0 reply && not (in_conversation reply c s.messages.rows)

abbrev pub event_of : ℕ → Draft → MessageEvent
event_of i d = record {
  message_id = i;
  conversation_id = d.conversation_id;
  sender_id = d.sender_id;
  content = d.content;
  content_type = d.content_type;
  client_message_id = d.client_message_id;
  file_id = d.file_id;
  reply_to_message_id = d.reply_to_message_id;
}

-- `appendSyncEvent`.
abbrev pub append_sync_event :
    Bool → ℕ → MessageEvent → List (ℕ × MessageEvent) → List (ℕ × MessageEvent)
append_sync_event false user e events = events
append_sync_event true user e events = events ++ ((user, e) ∷ [])

-- After the transaction: the events, the notification and the answer.
abbrev pub deliver : World → Server → ℕ → Draft → ℕ → Outcome
deliver w s target d i = record {
  server = record s {
    sync_events =
        append_sync_event w.appends_own d.sender_id (event_of i d)
          (append_sync_event w.appends target (event_of i d) s.sync_events);
  };
  reply = sent i d.conversation_id;
  notified = (target, event_of i d) ∷ [];
}

-- The end of the transaction. If it does not commit, what was done is undone; if it did not begin
-- there is nothing to roll back, and the statements stay.
abbrev pub commit_sent : World → Server → Server → ℕ → Draft → ℕ → Outcome
commit_sent w s s₁ target d i =
    if w.commits
    then deliver w s₁ target d i
    else refuse (if w.begins then s else s₁) internal_error

-- The statements of the transaction: the message, then its prekeys.
abbrev pub store_result : World → Server → ℕ → Draft → List ℕ → Messages × SendResult → Outcome
store_result w s target d ids (t, file_not_ready) = refuse s file_not_available
store_result w s target d ids (t, failed) = refuse s internal_error
store_result w s target d ids (t, message_id i) =
    commit_sent w s (record s { messages = t; prekeys = consume_prekeys w.consumes s.prekeys ids })
      target d i

unfoldable pub store : World → Server → ℕ → Draft → List ℕ → ℕ → Outcome
store w s target d ids now =
    store_result w s target d ids (send_message w.statements s.messages d now)

-- `toString("text")`.
abbrev pub text_or : List ℕ → Json → List ℕ
text_or d (str t) = t
text_or d _ = d

-- The steps after the conversation is known.
abbrev pub send_in : World → Sender → ℕ → Draft → List ℕ → ℕ → Server × Option ℕ → Outcome
send_in w me target d ids now (s, none) = refuse s internal_error
send_in w me target d ids now (s, some c) =
    if is_bad_reply s d.reply_to_message_id c
    then refuse s invalid_request
    else store w s target (record d { conversation_id = c }) ids now

-- The steps after the file was checked.
abbrev pub send_checked : World → Server → Sender → ℕ → Draft → ℕ → Option (List ℕ) → Outcome
send_checked w s me target d now none = refuse s invalid_envelope
send_checked w s me target d now (some ids) =
    send_in w me target d ids now (get_or_create_private_conversation w s me.user_id target now)

-- The steps for a draft whose conversation is not known yet: an earlier message with the same
-- key answers the request before anything else is checked.
unfoldable pub send_private : World → Server → Sender → ℕ → Draft → ℤ → ℕ → Outcome
send_private w s me target d file now =
    elim (get_message_by_client_key w.looks_up s.messages me.user_id me.device_id
      d.client_message_id) [
        | some m ↦ record { server = s; reply = reused m.id m.conversation_id; notified = [] }
        | none ↦ elim (check_message_file s me file) [
          | some e ↦ refuse s e
          | none ↦ send_checked w s me target d now (check_envelope w s me target d.content)
        ]
      ]

abbrev pub draft_of : Sender → Fields → List ℕ → ℤ → ℕ → Draft
draft_of me request client file reply = record {
  conversation_id = 0;
  sender_id = me.user_id;
  content = to_text (value request "content");
  content_type = text_or (codes "text") (value request "contentType");
  client_message_id = client;
  sender_device_id = me.device_id;
  file_id = pos_part file;
  reply_to_message_id = reply;
}

-- The steps after the send limit.
unfoldable pub send_allowed : World → Server → Sender → Fields → List ℕ → ℕ → ℕ → Outcome
send_allowed w s me request client reply now =
    let group = to_long_long w.long_of_text (value request "conversationId") in
    let target = to_long_long w.long_of_text (value request "toUserId") in
    let file = to_long_long w.long_of_text (value request "fileId") in
    let d = draft_of me request client file reply in
    if ltb_int (pos 0) group
    then record { server = s; reply = to_group group; notified = [] }
    else if leb_int target (pos 0) || eq_int target (pos me.user_id)
    then refuse s cannot_send_to_self
    else if is_empty (to_text (value request "content"))
    then refuse s invalid_request
    else send_private w s me (pos_part target) d file now

-- The steps after the reply was parsed: the send limit counts the request.
abbrev pub send_parsed : World → Server → Sender → Fields → List ℕ → ℕ → Option ℕ → Outcome
send_parsed w s me request client now none = refuse s invalid_request
send_parsed w s me request client now (some reply) =
    let r = allow s.send_window now in
    let s₁ = record s { send_window = r.0 } in
    if not r.1 then refuse s₁ rate_limited else send_allowed w s₁ me request client reply now

-- `processSendMessageRequest`.
unfoldable pub process_send_message_request : World → Server → Sender → Fields → ℕ → Outcome
process_send_message_request w s me request now =
    let client = w.trimmed (to_text (value request "clientMessageId")) in
    if is_empty client || ltb max_client_id_length (length client)
    then refuse s invalid_request
    else send_parsed w s me request client now
        (parse_reply_target (value request "replyToMessageId"))
