-- ===== src/Server/Send/Checks.antt =====
-- Chat-Server/core/RequestHandler.cpp: the state that `processSendMessageRequest` works on, and its
-- checks: the reply, the file and the envelope with its prekeys.

use xychat_project.Prelude.{
  ℕ, ◌^◌, Bool, true, false, ◌&&◌, not, List, [], ◌∷◌, ◌++◌, ◌==◌, Option, none, some,
  if◌then◌else◌,
}
use xychat_project.Prelude.Assoc.{text_beq}
use xychat_project.Prelude.Int.{ℤ, pos, pos_part, leb_int, ltb_int, eq_int}
use xychat_project.Prelude.Json.{Json, undefined, null, number}
use xychat_project.Crypto.Envelope.{Decoder, EnvelopeEntry, decode_envelope, self_copy_prekey_id}
use xychat_project.Server.RateWindow.{RateWindow}
use xychat_project.Server.Database.Messages.{Messages, Statements, has_id}
use xychat_project.Server.Database.Prekeys.{Prekeys, validate_claimed_prekey, has_text}

abbrev pub max_client_id_length : ℕ
max_client_id_length = 128

pub record Conversation : Type 0 where
  pub id : ℕ
  pub is_private : Bool
  pub members : List ℕ

pub record FileOwner : Type 0 where
  pub file_id : ℕ
  pub uploader_id : ℕ

-- What is sent to other devices and kept in the event stream.
pub record MessageEvent : Type 0 where
  pub message_id : ℕ
  pub conversation_id : ℕ
  pub sender_id : ℕ
  pub content : List ℕ
  pub content_type : List ℕ
  pub client_message_id : List ℕ
  pub file_id : ℕ
  pub reply_to_message_id : ℕ

-- The tables, and the send limit of the connection. `sync_events` are pairs of a user and an event.
pub record Server : Type 0 where
  pub messages : Messages
  pub prekeys : Prekeys
  pub conversations : List Conversation
  pub next_conversation : ℕ
  pub files : List FileOwner
  pub sync_events : List (ℕ × MessageEvent)
  pub send_window : RateWindow

pub record Sender : Type 0 where
  pub user_id : ℕ
  pub device_id : List ℕ
  pub has_storage : Bool

-- What Qt does, and which statements are carried out: the handler's lookup of the client key, the
-- transaction and what is in it, the `UPDATE` of each prekey, and the two inserts of the event.
pub record World : Type 0 where
  pub decoder : Decoder
  pub trimmed : List ℕ → List ℕ
  pub long_of_text : List ℕ → ℤ
  pub inserts_conversation : Bool
  pub looks_up : Bool
  pub begins : Bool
  pub statements : Statements
  pub consumes : ℕ → Bool
  pub commits : Bool
  pub appends : Bool
  pub appends_own : Bool

pub data Refusal : Type 0 where
  invalid_request rate_limited cannot_send_to_self file_storage_failed file_not_found
        file_not_available invalid_envelope internal_error :
      Refusal

-- The answer: an error, or a message id with its conversation, new or from an earlier request.
pub data Reply : Type 0 where
  refused : Refusal → Reply
  sent : ℕ → ℕ → Reply
  reused : ℕ → ℕ → Reply
  to_group : ℤ → Reply

-- `notified` are the packets that go to users who are online.
pub record Outcome : Type 0 where
  pub server : Server
  pub reply : Reply
  pub notified : List (ℕ × MessageEvent)

abbrev pub refuse : Server → Refusal → Outcome
refuse s e = record { server = s; reply = refused e; notified = [] }

-- `parseReplyTarget`: 0 for no reply; none for a malformed one.
abbrev pub parse_reply_target : Json → Option ℕ
parse_reply_target undefined = some 0
parse_reply_target null = some 0
parse_reply_target (number n) =
    if leb_int n (pos 0)
    then (if eq_int n (pos 0) then some 0 else none)
    else if ltb_int (pos (2 ^ 53)) n
    then none
    else some (pos_part n)
parse_reply_target _ = none

abbrev pub find_owner : ℕ → List FileOwner → Option ℕ
find_owner i [] = none
find_owner i (f ∷ fs) = if f.file_id == i then some f.uploader_id else find_owner i fs

abbrev pub owned_file : Server → Sender → ℕ → Option ℕ → Option Refusal
owned_file s me i none = some file_not_found
owned_file s me i (some uploader) =
    if not (uploader == me.user_id)
    then some file_not_found
    else if not (has_id i s.messages.ready_files)
    then some file_not_available
    else none

-- `checkMessageFile`: none if the file may be sent, or there is none.
unfoldable pub check_message_file : Server → Sender → ℤ → Option Refusal
check_message_file s me i =
    if leb_int i (pos 0)
    then none
    else if not me.has_storage
    then some file_storage_failed
    else owned_file s me (pos_part i) (find_owner (pos_part i) s.files)

-- The loop over the entries: the prekeys to consume, or none for a bad envelope.
unfoldable pub check_entries :
    Server → Sender → ℕ → List EnvelopeEntry → List (List ℕ) → Bool → List ℕ → Option (List ℕ)
check_entries s me target [] seen self_copy ids = some ids
check_entries s me target (e ∷ es) seen self_copy ids =
    let next_self = check_entries s me target es seen true ids in
    let next_peer =
      check_entries s me target es (e.device_id ∷ seen) self_copy (ids ++ (e.prekey_id ∷ [])) in
    if text_beq e.device_id me.device_id && (e.prekey_id == self_copy_prekey_id)
    then (if self_copy then none else next_self)
    else if has_text e.device_id seen
    then none
    else if not (validate_claimed_prekey s.prekeys target e.device_id e.prekey_id)
    then none
    else next_peer

abbrev pub no_ids : List ℕ → Bool
no_ids [] = true
no_ids (i ∷ is) = false

-- The envelope, its entries, and at least one recipient.
unfoldable pub check_envelope : World → Server → Sender → ℕ → List ℕ → Option (List ℕ)
check_envelope w s me target content = elim (decode_envelope w.decoder content) [
  | none ↦ none
  | some entries ↦ elim (check_entries s me target entries [] false []) [
    | none ↦ none
    | some ids ↦ if no_ids ids then none else some ids
  ]
]
