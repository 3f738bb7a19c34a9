-- ===== src/Server/Send/Answers.antt =====
-- Chat-Server/core/RequestHandler.cpp: what each answer to `send_message` says, for the whole handler.
use mathlib.Core.Path.{subst}
use xychat_project.Prelude.{
  ℕ, ◌≡◌, refl, sym, ◌∙◌, Bool, true, false, ◌||◌, not, List, [], ◌∷◌, ltb, length, Option, none,
  some, if◌then◌else◌, arith, inl, inr, ◌⊎◌, Option-cases,
}
use xychat_project.Prelude.Int.{ℤ, pos, pos_part, leb_int, ltb_int, eq_int}
use xychat_project.Prelude.Json.{Fields, value, to_text, to_long_long, codes}
use xychat_project.Crypto.Envelope.{EnvelopeEntry}
use xychat_project.Server.RateWindow.{allow}
use xychat_project.Server.Database.Messages.{
  Message, Draft, get_message_by_client_key, is_empty, text_or_null, id_or_null,
}
use xychat_project.Server.Database.Prekeys.{consume_prekeys}
use xychat_project.Server.Send.Checks.{
  World, Server, Sender, MessageEvent, Reply, refused, sent, reused, to_group, Outcome, refuse,
  check_envelope, invalid_request, rate_limited, cannot_send_to_self, check_message_file,
  parse_reply_target, max_client_id_length, Refusal,
}
use xychat_project.Server.Send.Handler.{
  get_or_create_private_conversation, find_private, send_checked, send_private, send_allowed,
  process_send_message_request, open_conversation, draft_of, send_parsed, append_sync_event,
  text_or,
}
use xychat_project.Server.Send.Recipients.{
  recipients, prekeys_of, AllClaimed, IsEnvelope, check_envelope-IsEnvelope,
}
use xychat_project.Server.Send.Delivery.{
  SameTables, IsStored, Meaning, is_fresh, send_in-Good, opened,
}

-- What the request names.
abbrev pub client_of : World → Fields → List ℕ
client_of w request = w.trimmed (to_text (value request "clientMessageId"))

abbrev pub recipient_of : World → Fields → ℕ
recipient_of w request = pos_part (to_long_long w.long_of_text (value request "toUserId"))

abbrev pub content_of : Fields → List ℕ
content_of request = to_text (value request "content")

abbrev pub file_of : World → Fields → ℕ
file_of w request = pos_part (to_long_long w.long_of_text (value request "fileId"))

-- The row that the request stores as message `i` of the conversation `c`.
abbrev pub message_of : World → Sender → Fields → ℕ → ℕ → ℕ → Message
message_of w me request reply i c = record {
  id = i;
  conversation_id = c;
  sender_id = me.user_id;
  content = content_of request;
  content_type = text_or (codes "text") (value request "contentType");
  client_message_id = text_or_null (client_of w request);
  sender_device_id = text_or_null me.device_id;
  file_id = id_or_null (file_of w request);
  reply_to_message_id = id_or_null reply;
  edited_at = none;
  deleted = false;
}

-- What the devices are told of it.
abbrev pub announced : World → Sender → Fields → ℕ → ℕ → ℕ → MessageEvent
announced w me request reply i c = record {
  message_id = i;
  conversation_id = c;
  sender_id = me.user_id;
  content = content_of request;
  content_type = text_or (codes "text") (value request "contentType");
  client_message_id = client_of w request;
  file_id = file_of w request;
  reply_to_message_id = reply;
}

abbrev pub earlier : World → Server → Sender → Fields → Option Message
earlier w s me request =
    get_message_by_client_key w.looks_up s.messages me.user_id me.device_id (client_of w request)

-- The request was sent as message `i` of the conversation `c`.
pub record IsSent (w : World) (s : Server) (me : Sender) (request : Fields) (i c : ℕ) (o : Outcome)
    : Type 0 where
  pub reply : ℕ
  pub parsed : parse_reply_target (value request "replyToMessageId") ≡ some reply
  pub entries : List EnvelopeEntry
  pub envelope : IsEnvelope w s me (recipient_of w request) (content_of request) entries
  pub fresh : earlier w s me request ≡ none
  pub stored :
      IsStored w s
        (draft_of me request
          (client_of w request)
          (to_long_long w.long_of_text (value request "fileId"))
          reply)
        (message_of w me request reply i c)
        o.server.messages.rows
        i
  pub consumed :
      o.server.prekeys ≡ consume_prekeys w.consumes s.prekeys (prekeys_of (recipients me entries))
  pub events :
      o.server.sync_events
      ≡ append_sync_event w.appends_own me.user_id (announced w me request reply i c) (
          append_sync_event w.appends
            (recipient_of w request)
            (announced w me request reply i c)
            s.sync_events)
  pub pushed : o.notified ≡ (recipient_of w request, announced w me request reply i c) ∷ []

-- What each answer stands for.
abbrev pub Answer : World → Server → Sender → Fields → Outcome → Reply → Type 0
Answer w s me request o (refused e) =
    (SameTables s o.server ⊎ (w.begins ≡ false)) × (o.notified ≡ [])
Answer w s me request o (reused i c) =
    SameTables s o.server
    × (o.notified ≡ [])
    × ((m : Message) × (earlier w s me request ≡ some m) × (m.id ≡ i) × (m.conversation_id ≡ c))
Answer w s me request o (to_group g) = SameTables s o.server × (o.notified ≡ [])
Answer w s me request o (sent i c) = IsSent w s me request i c o

answered :
    (w : World) (s : Server) (me : Sender) (request : Fields) (reply : ℕ) (o : Outcome) (r : Reply)
    → parse_reply_target (value request "replyToMessageId") ≡ some reply
    → Meaning w s me
        (draft_of me request
          (client_of w request)
          (to_long_long w.long_of_text (value request "fileId"))
          reply)
        (recipient_of w request)
        o
        r
    → Answer w s me request o r
answered w s me request reply o (refused e) p m = m
answered w s me request reply o (reused i c) p m = m
answered w s me request reply o (to_group g) p m = m
answered w s me request reply o (sent i c) p m = record {
  reply = reply;
  parsed = p;
  entries = m.entries;
  envelope = m.envelope;
  fresh = m.fresh;
  stored = m.stored;
  consumed = m.consumed;
  events = m.events;
  pushed = m.pushed;
}

module _ (w : World) (s : Server) (me : Sender) (now : ℕ) where
  module _ (d : Draft) (target : ℕ) where
    abbrev Good : Outcome → Type 0
    Good o = Meaning w s me d target o o.reply

    send_checked-Good :
        (s' : Server) (o : Option (List ℕ))
        → SameTables s s'
        → is_fresh w s d ≡ none
        → check_envelope w s' me target d.content ≡ o
        → Good (send_checked w s' me target d now o)
    unfolding get_or_create_private_conversation
    send_checked-Good s' none same fresh e = (inl same, refl)
    send_checked-Good s' (some ids) same fresh e =
        let found = find_private me.user_id target s'.conversations in
        let r = open_conversation w s' me.user_id target now found in
        let (entries, listed, (decoded, claimed, any)) =
          check_envelope-IsEnvelope w s' me target d.content ids e in
        let envelope : IsEnvelope w s me target d.content entries =
          (decoded, subst (λ k. AllClaimed k target (recipients me entries)) same.2 claimed, any) in
        send_in-Good w s me target now r.0 d ids r.1
          (opened w s me target now s' found same, fresh, (entries, listed, envelope))

    same_lookup :
        (s' : Server)
        → s'.messages.rows ≡ s.messages.rows
        → get_message_by_client_key w.looks_up s.messages me.user_id me.device_id
            d.client_message_id
          ≡ get_message_by_client_key w.looks_up s'.messages me.user_id me.device_id
              d.client_message_id
    unfolding get_message_by_client_key
    same_lookup s' e = ground (arith, e)

    Found : Server → Option Message → Type 0
    Found s' o =
        get_message_by_client_key w.looks_up s'.messages me.user_id me.device_id d.client_message_id
        ≡ o

    send_private-Good :
        (s' : Server) (file : ℤ)
        → SameTables s s'
        → d.sender_id ≡ me.user_id
        → d.sender_device_id ≡ me.device_id
        → Good (send_private w s' me target d file now)
    unfolding send_private Found
    send_private-Good s' file same u v =
        elim (Option-cases (
          get_message_by_client_key w.looks_up s'.messages me.user_id me.device_id
            d.client_message_id)) [
              | inr (m, e) ↦
                  subst Good (sym (again m e)) (same, refl, (m, own (some m) e, refl, refl))
              | inl e ↦ elim (Option-cases (check_message_file s' me file)) [
                | inr (x, f) ↦ subst Good (sym (bad_file x e f)) (inl same, refl)
                | inl f ↦ subst Good (sym (good_file e f)) (
                    send_checked-Good s' (check_envelope w s' me target d.content) same (own none e)
                      refl)
              ]
            ]
      where
        own : (o : Option Message) → Found s' o → is_fresh w s d ≡ o
        own o e = rw (u, v) (same_lookup s' same.0 ∙ e)

        again :
            (m : Message)
            → Found s' (some m)
            → send_private w s' me target d file now
              ≡ record { server = s'; reply = reused m.id m.conversation_id; notified = [] }
        again m e = rw (send_private, e) refl

        bad_file :
            (x : Refusal)
            → Found s' none
            → check_message_file s' me file ≡ some x
            → send_private w s' me target d file now ≡ refuse s' x
        bad_file x e f = rw (send_private, e) (rw f refl)

        good_file :
            Found s' none
            → check_message_file s' me file ≡ none
            → send_private w s' me target d file now
              ≡ send_checked w s' me target d now (check_envelope w s' me target d.content)
        good_file e f = rw (send_private, e) (rw f refl)

  module _ (request : Fields) where
    abbrev Told : Outcome → Type 0
    Told o = Answer w s me request o o.reply

    if_Told : (b : Bool) (x y : Outcome) → Told x → Told y → Told (if b then x else y)
    if_Told true x y g h = g
    if_Told false x y g h = h

    or_refuse :
        (b : Bool) (s' : Server) (e : Refusal) (y : Outcome)
        → SameTables s s'
        → Told y
        → Told (if b then refuse s' e else y)
    or_refuse b s' e y same g = if_Told b (refuse s' e) y (inl same, refl) g

    send_allowed-Told :
        (s' : Server) (reply : ℕ)
        → SameTables s s'
        → parse_reply_target (value request "replyToMessageId") ≡ some reply
        → Told (send_allowed w s' me request (client_of w request) reply now)
    unfolding send_allowed
    send_allowed-Told s' reply same p =
        let file = to_long_long w.long_of_text (value request "fileId") in
        let user = to_long_long w.long_of_text (value request "toUserId") in
        let d = draft_of me request (client_of w request) file reply in
        let group = to_long_long w.long_of_text (value request "conversationId") in
        let on : Outcome = record { server = s'; reply = to_group group; notified = [] } in
        let last = send_private w s' me (pos_part user) d file now in
        let full : Outcome =
          if is_empty (to_text (value request "content"))
          then refuse s' invalid_request
          else last in
        let valid : Outcome =
          if leb_int user (pos 0) || eq_int user (pos me.user_id)
          then refuse s' cannot_send_to_self
          else full in
        if_Told (ltb_int (pos 0) group) on valid (same, refl)
          (or_refuse (leb_int user (pos 0) || eq_int user (pos me.user_id)) s' cannot_send_to_self
            full same
            (or_refuse (is_empty (to_text (value request "content"))) s' invalid_request last same (
              answered w s me request reply last last.reply p
                (send_private-Good d (pos_part user) s' file same refl refl))))

    send_parsed-Told :
        (o : Option ℕ)
        → parse_reply_target (value request "replyToMessageId") ≡ o
        → Told (send_parsed w s me request (client_of w request) now o)
    send_parsed-Told none p = (inl (refl, refl, refl, refl), refl)
    send_parsed-Told (some reply) p =
        let s₁ = record s { send_window = (allow s.send_window now).0 } in
        or_refuse (not (allow s.send_window now).1) s₁ rate_limited
          (send_allowed w s₁ me request (client_of w request) reply now) (refl, refl, refl, refl)
          (send_allowed-Told s₁ reply (refl, refl, refl, refl) p)

  pub process_send_message_request-Answer :
      (request : Fields)
      → Answer w s me request
          (process_send_message_request w s me request now)
          (process_send_message_request w s me request now).reply
  unfolding process_send_message_request
  process_send_message_request-Answer request =
      let client = client_of w request in
      let reply = parse_reply_target (value request "replyToMessageId") in
      or_refuse request (is_empty client || ltb max_client_id_length (length client)) s
        invalid_request (send_parsed w s me request client now reply) (refl, refl, refl, refl)
        (send_parsed-Told request reply refl)
