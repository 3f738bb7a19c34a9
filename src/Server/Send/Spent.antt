-- ===== src/Server/Send/Spent.antt =====
-- Chat-Server/core/RequestHandler.cpp: the prekeys of a message that was stored.
use xychat_project.Prelude.{ℕ, ◌≡◌, sym, Bool, true, false, List, [], ◌∷◌, All, some, arith}
use mathlib.Core.Path.{subst}
use xychat_project.Prelude.Json.{Fields}
use xychat_project.Crypto.Envelope.{EnvelopeEntry, decode_envelope}
use xychat_project.Server.Database.Prekeys.{
  Prekeys, validate_claimed_prekey, consume_prekeys, PrekeyCall, run, handed_out,
}
use xychat_project.Server.Database.Prekeys.Rows.{IsTable}
use xychat_project.Server.Database.Prekeys.Held.{Others}
use xychat_project.Server.Database.Prekeys.Spent.{has_id, consumed_once}
use xychat_project.Server.Send.Checks.{World, Server, Sender, sent, no_ids}
use xychat_project.Server.Send.Handler.{process_send_message_request}
use xychat_project.Server.Send.Recipients.{recipients, prekeys_of, AllClaimed}
use xychat_project.Server.Send.Answers.{Answer, content_of, process_send_message_request-Answer}

-- Whatever calls come later, the prekey passes no check and is not handed out.
abbrev pub IsSpent : Prekeys → ℕ → Type 0
IsSpent t k =
    (user : ℕ) (d : List ℕ) (cs : List PrekeyCall)
    → (validate_claimed_prekey (run t cs) user d k ≡ false) × Others k (handed_out t cs)

consume_prekeys-IsSpent :
    (t : Prekeys) (executes : ℕ → Bool) (target : ℕ) (ids : List ℕ) (rest : List EnvelopeEntry)
    → IsTable t
    → ((k : ℕ) → executes k ≡ true)
    → AllClaimed t target rest
    → All (λ k. has_id k ids ≡ true) (prekeys_of rest)
    → All (IsSpent (consume_prekeys executes t ids)) (prekeys_of rest)
consume_prekeys-IsSpent t executes target ids [] s x h m = tt
consume_prekeys-IsSpent t executes target ids (e ∷ es) s x (h, hs) (m, ms) = (
  (λ user d cs.
      consumed_once t executes ids e.prekey_id target user e.device_id d cs s h m (x e.prekey_id)),
  consume_prekeys-IsSpent t executes target ids es s x hs ms,
)

more_ids :
    (j : ℕ) (ids rest : List ℕ)
    → All (λ k. has_id k ids ≡ true) rest
    → All (λ k. has_id k (j ∷ ids) ≡ true) rest
more_ids j ids [] h = tt
more_ids j ids (k ∷ ks) (h, hs) = (ground (arith, h), more_ids j ids ks hs)

own_ids : (ids : List ℕ) → All (λ k. has_id k ids ≡ true) ids
own_ids [] = tt
own_ids (k ∷ ks) = (ground arith, more_ids k ks ks (own_ids ks))

-- After the answer that a private message was sent, every prekey that the content's envelope names
-- for a recipient, and there is at least one, is spent: no later message with it passes, and no
-- client gets it again. The prekey table must be in order, and each `UPDATE` that consumes a prekey
-- must be carried out.
pub sent_prekeys-IsSpent :
    (w : World) (s : Server) (me : Sender) (now i c : ℕ) (request : Fields)
    → IsTable s.prekeys
    → ((k : ℕ) → w.consumes k ≡ true)
    → (process_send_message_request w s me request now).reply ≡ sent i c
    → (entries : List EnvelopeEntry) × (decode_envelope w.decoder (content_of request)
        ≡ some entries)
      × (no_ids (prekeys_of (recipients me entries)) ≡ false)
      × All
          (IsSpent (process_send_message_request w s me request now).server.prekeys)
          (prekeys_of (recipients me entries))
sent_prekeys-IsSpent w s me now i c request table works e =
    let o = process_send_message_request w s me request now in
    let d =
      subst (Answer w s me request o) e (process_send_message_request-Answer w s me now request) in
    let (decoded, claimed, any) = d.envelope in
    let ids = prekeys_of (recipients me d.entries) in
    (
      d.entries,
      decoded,
      any,
      subst (λ t. All (IsSpent t) ids) (sym d.consumed)
          (consume_prekeys-IsSpent s.prekeys w.consumes _ ids (recipients me d.entries) table works
            claimed (own_ids ids)),
    )
