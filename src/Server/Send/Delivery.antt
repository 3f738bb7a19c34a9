-- ===== src/Server/Send/Delivery.antt =====
-- Chat-Server/core/RequestHandler.cpp: what an answer to `send_message` says of the tables, for a
-- draft that is given.
use mathlib.Core.Path.{subst}
use xychat_project.Prelude.{
  ℕ, ◌≡◌, refl, sym, ◌∙◌, ap, Bool, true, false, List, [], ◌∷◌, ◌++◌, Option, none, some, arith,
  inl, inr, ◌⊎◌, Bool-cases, Option-cases, if◌then◌else◌,
}
use xychat_project.Crypto.Envelope.{EnvelopeEntry}
use xychat_project.Server.Database.Messages.{
  Message, Messages, Draft, Statements, SendResult, message_id, file_not_ready, failed,
  send_message, get_message_by_client_key, find_client_key, new_message, is_empty,
}
use xychat_project.Server.Database.Prekeys.{consume_prekeys}
use xychat_project.Server.Send.Checks.{
  World, Server, Sender, Reply, refused, sent, reused, to_group, Outcome, refuse, internal_error,
}
use xychat_project.Server.Send.Handler.{
  event_of, deliver, store, store_result, open_conversation, send_in, is_bad_reply,
  append_sync_event,
}
use xychat_project.Server.Send.Recipients.{recipients, prekeys_of, IsEnvelope}

-- The tables that matter, of two states.
abbrev pub SameTables : Server → Server → Type 0
SameTables s s' =
    (s'.messages.rows ≡ s.messages.rows)
    × (s'.messages.next_id ≡ s.messages.next_id)
    × (s'.prekeys ≡ s.prekeys)
    × (s'.sync_events ≡ s.sync_events)

-- Message `m`, with the number `i`, is new and the last row; or `i` is a message that was there with
-- the same key before, which the lookup did not see, and no row is added.
abbrev pub IsStored : World → Server → Draft → Message → List Message → ℕ → Type 0
IsStored w s d m rows i =
    ((rows ≡ s.messages.rows ++ (m ∷ [])) × (i ≡ s.messages.next_id))
    ⊎ ((w.looks_up ≡ false)
        × (rows ≡ s.messages.rows)
        × ((old : Message) × (find_client_key d.sender_id d.sender_device_id d.client_message_id
                s.messages.rows
              ≡ some old)
            × (old.id ≡ i)))

abbrev pub is_fresh : World → Server → Draft → Option Message
is_fresh w s d =
    get_message_by_client_key w.looks_up s.messages d.sender_id d.sender_device_id
      d.client_message_id

-- The draft was sent as message `i`.
pub record IsDelivered (w : World) (s : Server) (me : Sender) (d : Draft) (target i : ℕ)
    (o : Outcome) : Type 0 where
  pub entries : List EnvelopeEntry
  pub envelope : IsEnvelope w s me target d.content entries
  pub fresh : is_fresh w s d ≡ none
  pub stored : IsStored w s d (new_message i d) o.server.messages.rows i
  pub consumed :
      o.server.prekeys ≡ consume_prekeys w.consumes s.prekeys (prekeys_of (recipients me entries))
  pub events :
      o.server.sync_events
      ≡ append_sync_event w.appends_own d.sender_id
          (event_of i d)
          (append_sync_event w.appends target (event_of i d) s.sync_events)
  pub pushed : o.notified ≡ (target, event_of i d) ∷ []

-- What each answer stands for, for a draft whose conversation is still to be found.
abbrev pub Meaning : World → Server → Sender → Draft → ℕ → Outcome → Reply → Type 0
Meaning w s me d target o (refused e) =
    (SameTables s o.server ⊎ (w.begins ≡ false)) × (o.notified ≡ [])
Meaning w s me d target o (reused i c) =
    SameTables s o.server
    × (o.notified ≡ [])
    × ((m : Message) × (is_fresh w s d ≡ some m) × (m.id ≡ i) × (m.conversation_id ≡ c))
Meaning w s me d target o (to_group g) = SameTables s o.server × (o.notified ≡ [])
Meaning w s me d target o (sent i c) =
    IsDelivered w s me (record d { conversation_id = c }) target i o

any_conversation :
    (w : World) (s : Server) (me : Sender) (d : Draft) (c target : ℕ) (o : Outcome) (r : Reply)
    → Meaning w s me (record d { conversation_id = c }) target o r
    → Meaning w s me d target o r
any_conversation w s me d c target o (refused e) m = m
any_conversation w s me d c target o (reused i k) m = m
any_conversation w s me d c target o (to_group g) m = m
any_conversation w s me d c target o (sent i k) m = m

sent_existing :
    (q : Statements) (t : Messages) (d : Draft) (now i : ℕ) (m : Message)
    → find_client_key d.sender_id d.sender_device_id d.client_message_id t.rows ≡ some m
    → is_empty d.client_message_id ≡ false
    → (send_message q t d now).1 ≡ message_id i
    → (((send_message q t d now).0.rows ≡ t.rows ++ (new_message i d ∷ [])) × (i ≡ t.next_id))
      ⊎ (((send_message q t d now).0.rows ≡ t.rows) × (m.id ≡ i))
unfolding send_message get_message_by_client_key
sent_existing q t d now i m f c h = ground (arith, f, c, h)

-- What sending did when it gave an id and the lookup before had found nothing.
send_cases :
    (answers : Bool) (q : Statements) (t : Messages) (d : Draft) (now i : ℕ)
    → get_message_by_client_key answers t d.sender_id d.sender_device_id d.client_message_id ≡ none
    → (send_message q t d now).1 ≡ message_id i
    → (((send_message q t d now).0.rows ≡ t.rows ++ (new_message i d ∷ [])) × (i ≡ t.next_id))
      ⊎ ((answers ≡ false)
          × ((send_message q t d now).0.rows ≡ t.rows)
          × ((old : Message) × (find_client_key d.sender_id d.sender_device_id d.client_message_id
                  t.rows
                ≡ some old)
              × (old.id ≡ i)))
unfolding send_message get_message_by_client_key
send_cases answers q t d now i n h =
    elim (Option-cases
      (find_client_key d.sender_id d.sender_device_id d.client_message_id t.rows)) [
        | inl f ↦ inl (ground (arith, f, h), ground (arith, f, h))
        | inr (m, f) ↦ elim (Bool-cases (is_empty d.client_message_id)) [
          | inl c ↦ inl (ground (arith, c, h), ground (arith, c, h))
          | inr c ↦ elim (sent_existing q t d now i m f c h) [
            | inl a ↦ inl a
            | inr (a, b) ↦ inr (ground (arith, n, f, c), a, (m, f, b))
          ]
        ]
      ]

module _ (w : World) (s : Server) (me : Sender) (target : ℕ) (now : ℕ) where
  abbrev pub Good : Draft → Outcome → Type 0
  Good d o = Meaning w s me d target o o.reply

  same_lookup :
      (s' : Server) (d : Draft)
      → s'.messages.rows ≡ s.messages.rows
      → is_fresh w s d ≡ is_fresh w s' d
  unfolding get_message_by_client_key
  same_lookup s' d e = ground (arith, e)

  abbrev Prepared : Server → Draft → List ℕ → Type 0
  Prepared s' d ids =
      SameTables s s'
      × (is_fresh w s d ≡ none)
      × ((entries : List EnvelopeEntry) × (ids ≡ prekeys_of (recipients me entries))
          × IsEnvelope w s me target d.content entries)

  commit-Good :
      (s' : Server) (d : Draft) (ids : List ℕ) (t : Messages) (i : ℕ)
      → Prepared s' d ids
      → IsStored w s d (new_message i d) t.rows i
      → Good d (store_result w s' target d ids (t, message_id i))
  commit-Good s' d ids t i (same, fresh, (entries, listed, envelope)) stored =
      elim (Bool-cases w.commits) [
        | inl e ↦ subst (Good d) (sym (committed e)) delivered
        | inr e ↦ elim (Bool-cases w.begins) [
          | inl b ↦ subst (Good d) (sym (rolled_back e b)) (inl same, refl)
          | inr b ↦ subst (Good d) (sym (not_begun e)) (inr b, refl)
        ]
      ]
    where
      s₁ : Server
      s₁ = record s' { messages = t; prekeys = consume_prekeys w.consumes s'.prekeys ids }

      committed :
          w.commits ≡ true
          → store_result w s' target d ids (t, message_id i) ≡ deliver w s₁ target d i
      committed e = rw e refl

      rolled_back :
          w.commits ≡ false
          → w.begins ≡ true
          → store_result w s' target d ids (t, message_id i) ≡ refuse s' internal_error
      rolled_back e b = rw e (rw b refl)

      not_begun :
          w.commits ≡ false
          → store_result w s' target d ids (t, message_id i)
            ≡ refuse (if w.begins then s' else s₁) internal_error
      not_begun e = rw e refl

      delivered : Good d (deliver w s₁ target d i)
      delivered =
          let (rows, next, keys, events) = same in
          record {
            entries = entries;
            envelope = envelope;
            fresh = fresh;
            stored = stored;
            consumed =
                ap (λ k. consume_prekeys w.consumes k ids) keys
                ∙ ap (consume_prekeys w.consumes s.prekeys) listed;
            events =
                ap
                  (λ es.
                    append_sync_event w.appends_own d.sender_id (event_of i d)
                      (append_sync_event w.appends target (event_of i d) es))
                  events;
            pushed = refl;
          }

  moved :
      (s' : Server) (d : Draft) (m : Message) (rows : List Message) (i : ℕ)
      → SameTables s s'
      → IsStored w s' d m rows i
      → IsStored w s d m rows i
  moved s' d m rows i (same, next, _, _) (inl (r, n)) =
      inl (r ∙ ap (λ x. x ++ (m ∷ [])) same, n ∙ next)
  moved s' d m rows i (same, next, _, _) (inr (b, r, (old, f, g))) = inr (
    b,
    r ∙ same,
    (
      old,
      ap (find_client_key d.sender_id d.sender_device_id d.client_message_id) (sym same) ∙ f,
      g,
    ),
  )

  result-Good :
      (s' : Server) (d : Draft) (ids : List ℕ) (r : Messages × SendResult)
      → Prepared s' d ids
      → ((i : ℕ) → r.1 ≡ message_id i → IsStored w s' d (new_message i d) r.0.rows i)
      → Good d (store_result w s' target d ids r)
  result-Good s' d ids (t, file_not_ready) (same, _, _) f = (inl same, refl)
  result-Good s' d ids (t, failed) (same, _, _) f = (inl same, refl)
  result-Good s' d ids (t, message_id i) p f =
      commit-Good s' d ids t i p (moved s' d (new_message i d) t.rows i p.0 (f i refl))

  pub store-Good :
      (s' : Server) (d : Draft) (ids : List ℕ)
      → Prepared s' d ids
      → Good d (store w s' target d ids now)
  unfolding store
  store-Good s' d ids p =
      result-Good s' d ids (send_message w.statements s'.messages d now) p (λ i h.
        send_cases w.looks_up w.statements s'.messages d now i (sym (same_lookup s' d p.0.0) ∙ p.1)
          h)

  pub send_in-Good :
      (s' : Server) (d : Draft) (ids : List ℕ) (c : Option ℕ)
      → Prepared s' d ids
      → Good d (send_in w me target d ids now (s', c))
  send_in-Good s' d ids none p = (inl p.0, refl)
  send_in-Good s' d ids (some c) p = elim (Bool-cases (is_bad_reply s' d.reply_to_message_id c)) [
    | inl e ↦ rw e (inl p.0, refl)
    | inr e ↦ rw e (
        let o = store w s' target (record d { conversation_id = c }) ids now in
        any_conversation w s me d c target o o.reply
          (store-Good s' (record d { conversation_id = c }) ids p))
  ]

  pub opened :
      (s' : Server) (o : Option ℕ)
      → SameTables s s'
      → SameTables s (open_conversation w s' me.user_id target now o).0
  opened s' (some c) same = same
  opened s' none same = elim (Bool-cases w.inserts_conversation) [
    | inl e ↦ (
      ground (arith, e, same.0),
      ground (arith, e, same.1),
      ground (arith, e, same.2),
      ground (arith, e, same.3),
    )
    | inr e ↦ (
      ground (arith, e, same.0),
      ground (arith, e, same.1),
      ground (arith, e, same.2),
      ground (arith, e, same.3),
    )
  ]
