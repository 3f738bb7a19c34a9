-- ===== src/Server/Send/Recipients.antt =====
-- Chat-Server/core/RequestHandler.cpp: the recipients of an envelope, and what its check says of them.
use xychat_project.Prelude.{
  some_inj, ℕ, ◌≡◌, refl, sym, ◌∙◌, ap, Bool, true, false, ◌&&◌, List, [], ◌∷◌, ◌++◌, map, ◌==◌,
  append_assoc, some, if◌then◌else◌, arith, inl, inr, Bool-cases, Option-cases, All,
}
use xychat_project.Prelude.Assoc.{text_beq}
use xychat_project.Crypto.Envelope.{EnvelopeEntry, decode_envelope, self_copy_prekey_id}
use xychat_project.Server.Database.Prekeys.{Prekeys, validate_claimed_prekey}
use xychat_project.Server.Send.Checks.{World, Server, Sender, check_entries, check_envelope, no_ids}

-- The entries but those for the sender's own device without a prekey.
unfoldable pub recipients : Sender → List EnvelopeEntry → List EnvelopeEntry
recipients me [] = []
recipients me (e ∷ es) =
    if text_beq e.device_id me.device_id && (e.prekey_id == self_copy_prekey_id)
    then recipients me es
    else e ∷ recipients me es

abbrev pub prekeys_of : List EnvelopeEntry → List ℕ
prekeys_of = map (λ e. e.prekey_id)

-- The prekey of every entry was handed out for that device of the user and is still claimed.
abbrev pub AllClaimed : Prekeys → ℕ → List EnvelopeEntry → Type 0
AllClaimed t target es =
    All (λ (e : EnvelopeEntry). validate_claimed_prekey t target e.device_id e.prekey_id ≡ true) es

append_empty : (ids : List ℕ) → ids ++ [] ≡ ids
append_empty [] = refl
append_empty (i ∷ is) = ap (◌∷◌ i) (append_empty is)

check_entries_lem :
    (s : Server) (me : Sender) (target : ℕ) (es : List EnvelopeEntry) (seen : List (List ℕ))
    (own : Bool) (ids out : List ℕ)
    → check_entries s me target es seen own ids ≡ some out
    → (out ≡ ids ++ prekeys_of (recipients me es)) × AllClaimed s.prekeys target (recipients me es)
unfolding check_entries recipients
check_entries_lem s me target [] seen own ids out e =
    (sym (some_inj e) ∙ sym (append_empty ids), tt)
check_entries_lem s me target (x ∷ xs) seen own ids out e =
    elim (Bool-cases (text_beq x.device_id me.device_id && (x.prekey_id == self_copy_prekey_id))) [
      | inl a ↦
          let (same, all) =
            check_entries_lem s me target xs seen true ids out (ground (arith, a, e)) in
          rw a (same, all)
      | inr a ↦
          elim (Bool-cases (validate_claimed_prekey s.prekeys target x.device_id x.prekey_id)) [
            | inl v ↦
                let (same, all) =
                  check_entries_lem s me target xs (x.device_id ∷ seen) own
                    (ids ++ (x.prekey_id ∷ [])) out (ground (arith, a, v, e)) in
                rw a (
                  same ∙ append_assoc ids (x.prekey_id ∷ []) (prekeys_of (recipients me xs)),
                  (v, all),
                )
            | inr v ↦ ground (arith, a, v, e)
          ]
    ]

-- The content is an envelope of `entries` whose recipients, at least one, have claimed prekeys.
abbrev pub IsEnvelope : World → Server → Sender → ℕ → List ℕ → List EnvelopeEntry → Type 0
IsEnvelope w s me target content entries =
    (decode_envelope w.decoder content ≡ some entries)
    × AllClaimed s.prekeys target (recipients me entries)
    × (no_ids (prekeys_of (recipients me entries)) ≡ false)

pub check_envelope-IsEnvelope :
    (w : World) (s : Server) (me : Sender) (target : ℕ) (content ids : List ℕ)
    → check_envelope w s me target content ≡ some ids
    → (entries : List EnvelopeEntry) × (ids ≡ prekeys_of (recipients me entries))
      × IsEnvelope w s me target content entries
unfolding check_envelope
check_envelope-IsEnvelope w s me target content ids e =
    elim (Option-cases (decode_envelope w.decoder content)) [
      | inl f ↦ ground (arith, f, e)
      | inr (es, f) ↦ elim (Option-cases (check_entries s me target es [] false [])) [
        | inl g ↦ ground (arith, f, g, e)
        | inr (out, g) ↦
            let found : out ≡ ids = some_inj (ground (arith, f, g, e)) in
            let (same, all) = check_entries_lem s me target es [] false [] out g in
            let any : no_ids out ≡ false = ground (arith, f, g, e) in
            (es, sym found ∙ same, (f, all, ap no_ids (sym same) ∙ any))
      ]
    ]
