-- ===== src/Server/Gateway.antt =====
-- Chat-Server/core/RequestHandler.cpp: what happens to a packet before its handler runs: replay
-- protection, the session check and the dispatch. The cache is shared by all connections, the
-- sessions stand in the database. The clock is read anew for the timestamp, for the cache, for the
-- expiry of the session and for its last activity (`Readings`). What Qt and OpenSSL compute is
-- `Platform`. Logging is left out.
pub mod Replay
pub mod Access
use Prim.Native.String.{String}
use xychat_project.Prelude.{
  ℕ, zero, suc, ◌+◌, ◌-◌, ◌*◌, ◌≤◌, Bool, true, false, ◌||◌, ◌&&◌, not, List, [], ◌∷◌, ltb, leb,
  ◌==◌, length, Option, none, some, if◌then◌else◌,
}
use xychat_project.Prelude.Int.{ℤ, pos, negsuc, pos_part, leb_int, ltb_int, eq_int}
use xychat_project.Prelude.Assoc.{text_beq}
use xychat_project.Prelude.Json.{
  Json, undefined, null, bool, number, str, array, object, Fields, value, has_key, to_text,
  to_long_long, codes,
}
use xychat_project.Protocol.Packet.{Packet}
use xychat_project.Server.NonceCache.{NonceCache, check_and_insert}

abbrev pub replay_tolerance : ℕ
replay_tolerance = 300

abbrev pub max_nonce_length : ℕ
max_nonce_length = 128

-- `from_json` gives the object that a payload holds, if it is JSON and an object; `from_iso_date`
-- the seconds of a valid date; `hash_token` is the hash of a token; `long_of_text` is how a
-- `QVariant` reads a text as a number.
pub record Platform : Type 0 where
  pub from_json : List ℕ → Option Fields
  pub trimmed : List ℕ → List ℕ
  pub from_iso_date : List ℕ → Option ℕ
  pub hash_token : List ℕ → List ℕ
  pub long_of_text : List ℕ → ℤ

-- The clock in seconds, as it is read for one packet.
pub record Readings : Type 0 where
  pub received : ℕ
  pub cached : ℕ
  pub checked : ℕ
  pub active : ℕ

pub record SessionInfo : Type 0 where
  pub id : ℤ
  pub user_id : ℤ
  pub device_id : List ℕ
  pub token_hash : List ℕ
  pub last_active_at : ℕ
  pub expires_at : List ℕ

-- The members of a connection that the checks read, with the shared cache and the session table.
pub record Gateway : Type 0 where
  pub nonce_cache : Option NonceCache
  pub sessions : List SessionInfo
  pub current_session_id : ℤ
  pub authenticated_user_id : ℤ

-- The handlers that `processPacket` calls.
pub data Handler : Type 0 where
  register login logout token_renew terminate_session search_users add_contact get_contacts
        get_conversations send_message ack_message sync_messages sync_events register_keys
        fetch_keys create_group invite_group_members leave_group kick_group_member get_group_info
        fetch_group_keys set_conversation_prefs edit_message delete_message delete_conversation
        typing file_upload_create file_upload_query file_upload_complete file_upload_cancel
        file_download_ticket :
      Handler

pub data Outcome : Type 0 where
  pong : Outcome
  invalid_json replay_rejected session_invalid unknown_type : Outcome
  handle : Handler → Fields → Outcome

abbrev pub is_double : Json → Bool
is_double (number n) = true
is_double _ = false

abbrev pub is_empty : List ℕ → Bool
is_empty [] = true
is_empty (u ∷ us) = false

-- |a - b|.
abbrev pub distance : ℕ → ℕ → ℕ
distance a b = (a - b) + (b - a)

-- The last test of the replay protection: without a cache every request is refused.
abbrev pub check_nonce : Option NonceCache → List ℕ → ℕ → Option NonceCache × Bool
check_nonce none nonce now = (none, false)
check_nonce (some c) nonce now =
    (some (check_and_insert c nonce now).0, (check_and_insert c nonce now).1)

unfoldable pub check_replay_protection :
    Platform → Option NonceCache → Fields → Readings → Option NonceCache × Bool
check_replay_protection q cache request r =
    let timestamp = to_long_long q.long_of_text (value request "timestamp") in
    let nonce = q.trimmed (to_text (value request "nonce")) in
    if not (has_key request "timestamp") || not (is_double (value request "timestamp"))
    then (cache, false)
    else if leb_int timestamp (pos 0)
    then (cache, false)
    else if ltb replay_tolerance (distance r.received (pos_part timestamp))
    then (cache, false)
    else if is_empty nonce || ltb max_nonce_length (length nonce)
    then (cache, false)
    else check_nonce cache nonce r.cached

abbrev pub get_session_by_id : ℤ → List SessionInfo → Option SessionInfo
get_session_by_id i [] = none
get_session_by_id i (x ∷ xs) = if eq_int x.id i then some x else get_session_by_id i xs

abbrev pub update_session_last_active : ℤ → ℕ → List SessionInfo → List SessionInfo
update_session_last_active i now [] = []
update_session_last_active i now (x ∷ xs) =
    (if eq_int x.id i then record x { last_active_at = now } else x)
    ∷ update_session_last_active i now xs

-- Whether the stored date is valid and, except for a renewal, not in the past.
abbrev pub is_current : Option ℕ → Bool → ℕ → Bool
is_current none is_renew now = false
is_current (some expires) is_renew now = is_renew || leb now expires

-- The part of `validateSession` after the session is found.
abbrev pub validate_found : Platform → Gateway → Fields → ℕ → SessionInfo → Bool
validate_found q s request now x =
    let is_renew = text_beq (to_text (value request "type")) (codes "token_renew") in
    let token = to_text (value request "token") in
    if not (eq_int x.user_id s.authenticated_user_id)
    then false
    else if not (is_current (q.from_iso_date x.expires_at) is_renew now)
    then false
    else if is_empty token
    then false
    else text_beq (q.hash_token token) x.token_hash

unfoldable pub validate_session : Platform → Gateway → Fields → ℕ → Bool
validate_session q s request now =
    if leb_int s.current_session_id (pos 0) || leb_int s.authenticated_user_id (pos 0)
    then false
    else elim (get_session_by_id s.current_session_id s.sessions) [
      | none ↦ false
      | some x ↦ validate_found q s request now x
    ]

-- One entry of the dispatch: the message type, the values of `type`, and the handler.
abbrev pub Route : Type 0
Route = ℕ × List String × Handler

abbrev pub is_named : List ℕ → List String → Bool
is_named t [] = false
is_named t (n ∷ ns) = if text_beq t (codes n) then true else is_named t ns

-- The first entry that the packet's type or its `type` field fits.
unfoldable pub route : List Route → ℕ → List ℕ → Option Handler
route [] m t = none
route ((code, names, h) ∷ rs) m t = if (m == code) || is_named t names then some h else route rs m t

-- The requests that need no session.
abbrev pub open_routes : List Route
open_routes = (10, "register" ∷ [], register) ∷ (1, "login" ∷ [], login) ∷ []

-- The other requests, in the order of the code's tests.
abbrev pub session_routes : List Route
session_routes =
    (12, "logout" ∷ [], logout)
    ∷ (14, "token_renew" ∷ [], token_renew)
    ∷ (16, "force_logout" ∷ "terminate_session" ∷ [], terminate_session)
    ∷ (20, "search_users" ∷ [], search_users)
    ∷ (22, "add_contact" ∷ [], add_contact)
    ∷ (24, "get_contacts" ∷ [], get_contacts)
    ∷ (30, "get_conversations" ∷ [], get_conversations)
    ∷ (32, "send_message" ∷ [], send_message)
    ∷ (35, "ack_message" ∷ [], ack_message)
    ∷ (37, "sync_messages" ∷ [], sync_messages)
    ∷ (40, "sync_events" ∷ [], sync_events)
    ∷ (50, "register_keys" ∷ [], register_keys)
    ∷ (52, "fetch_keys" ∷ [], fetch_keys)
    ∷ (60, "create_group" ∷ [], create_group)
    ∷ (62, "invite_group_members" ∷ [], invite_group_members)
    ∷ (64, "leave_group" ∷ [], leave_group)
    ∷ (66, "kick_group_member" ∷ [], kick_group_member)
    ∷ (68, "get_group_info" ∷ [], get_group_info)
    ∷ (71, "fetch_group_keys" ∷ [], fetch_group_keys)
    ∷ (81, "set_conversation_prefs" ∷ [], set_conversation_prefs)
    ∷ (84, "edit_message" ∷ [], edit_message)
    ∷ (86, "delete_message" ∷ [], delete_message)
    ∷ (100, "delete_conversation" ∷ [], delete_conversation)
    ∷ (103, "typing" ∷ [], typing)
    ∷ (90, "file_upload_create" ∷ [], file_upload_create)
    ∷ (92, "file_upload_query" ∷ [], file_upload_query)
    ∷ (94, "file_upload_complete" ∷ [], file_upload_complete)
    ∷ (96, "file_upload_cancel" ∷ [], file_upload_cancel)
    ∷ (98, "file_download_ticket" ∷ [], file_download_ticket)
    ∷ []

abbrev pub chosen : Fields → Option Handler → Outcome
chosen request none = unknown_type
chosen request (some h) = handle h request

-- `processPacket` after the replay protection.
unfoldable pub dispatch : Platform → Gateway → ℕ → Fields → Readings → Gateway × Outcome
dispatch q s m request r =
    let t = to_text (value request "type") in
    elim (route open_routes m t) [
      | some h ↦ (s, handle h request)
      | none ↦ if not (validate_session q s request r.checked) then (s, session_invalid) else (
        record s { sessions = update_session_last_active s.current_session_id r.active s.sessions },
        chosen request (route session_routes m t),
      )
    ]

abbrev pub process_object : Platform → Gateway → ℕ → Fields → Readings → Gateway × Outcome
process_object q s m request r =
    let c = check_replay_protection q s.nonce_cache request r in
    let s₁ = record s { nonce_cache = c.0 } in
    if not c.1 then (s₁, replay_rejected) else dispatch q s₁ m request r

unfoldable pub process_packet : Platform → Gateway → Packet → Readings → Gateway × Outcome
process_packet q s p r = if p.message_type == 3 then (s, pong) else elim (q.from_json p.payload) [
  | none ↦ (s, invalid_json)
  | some request ↦
      if p.message_type == 4
      then dispatch q s p.message_type request r
      else process_object q s p.message_type request r
]
