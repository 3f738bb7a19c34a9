-- ===== src/Crypto/GroupE2ee/Once.antt =====
-- CommonModule/encryption/GroupE2eeCrypto.cpp: an iteration that gave a text is used up for good.
use mathlib.Core.Path.{subst}
use xychat_project.Prelude.{
  ℕ, zero, suc, ◌+◌, ◌-◌, ◌≤◌, ◌≡◌, ◌≢◌, refl, ap, inl, inr, Bool, List, [], ◌∷◌, length, drop,
  arith, Option-cases, Option, none, some,
}
use xychat_project.Crypto.Primitives.{OpenSsl}
use xychat_project.Crypto.GroupE2ee.{
  EncryptedMessage, ReceiverChain, SkippedKeys, find_key, insert_key, erase_key, insert_all,
  max_skipped_message_keys, advance, ratchet_chain_key, decrypt_message, commit, find_skipped,
  erase_skipped,
}
use xychat_project.Crypto.GroupE2ee.Replay.{
  IsCache, Ahead, Cached, Ahead-IsCache, decrypt_message_cases, refused_by_cases,
  find_skipped-IsCache, erased, cached_below,
}

-- No key is kept for iteration `i`.
abbrev Lacks : ℕ → SkippedKeys → Type 0
Lacks i m = find_key i m ≡ none

insert_key-Lacks :
    (i j : ℕ) (v : List ℕ) (m : SkippedKeys) → j ≢ i → Lacks i m → Lacks i (insert_key j v m)
insert_key-Lacks i j v [] d h = ground (arith, d)
insert_key-Lacks i j v ((k, w) ∷ m) d h = ground (arith, d, insert_key-Lacks i j v m d)

insert_all-Lacks : (i : ℕ) (p m : SkippedKeys) → Lacks i p → Lacks i m → Lacks i (insert_all p m)
insert_all-Lacks i [] m h k = k
insert_all-Lacks i ((j, v) ∷ p) m h k =
    insert_all-Lacks i p (insert_key j v m) (ground arith)
      (insert_key-Lacks i j v m (λ e. ground arith) k)

drop-Lacks : (i d : ℕ) (m : SkippedKeys) → Lacks i m → Lacks i (drop d m)
drop-Lacks i zero m h = h
drop-Lacks i (suc d) [] h = refl
drop-Lacks i (suc d) ((j, v) ∷ m) h = drop-Lacks i d m (ground arith)

erase_key-Lacks : (i j : ℕ) (m : SkippedKeys) → Lacks i m → Lacks i (erase_key j m)
erase_key-Lacks i j [] h = refl
erase_key-Lacks i j ((k, v) ∷ m) h = ground (arith, erase_key-Lacks i j m)

-- Iteration `i` is behind the chain and has no kept key.
abbrev IsUsed : ℕ → ReceiverChain → Type 0
IsUsed i r = (i ≤ r.iteration) × (find_skipped i r.skipped ≡ none)

commit-IsUsed :
    (i j : ℕ) (chain : List ℕ) (p : SkippedKeys) (s : Option SkippedKeys)
    → i ≤ j
    → Lacks i p
    → find_skipped i s ≡ none
    → IsUsed i (commit chain j p s)
commit-IsUsed i j chain p none le h k = (le, refl)
commit-IsUsed i j chain p (some m) le h k = (
  le,
  drop-Lacks i (length (insert_all p m) - max_skipped_message_keys) (insert_all p m)
      (insert_all-Lacks i p m h k),
)

erase_skipped-lacks :
    (i j : ℕ) (s : Option SkippedKeys)
    → find_skipped i s ≡ none
    → find_skipped i (erase_skipped j s) ≡ none
erase_skipped-lacks i j none h = refl
erase_skipped-lacks i j (some m) h = erase_key-Lacks i j m h

module _ (o : OpenSsl) (decimal : ℕ → List ℕ) where
  -- The loop keeps keys of later iterations only.
  advance-Lacks :
      (k : ℕ) (chain : List ℕ) (i j : ℕ) (keep : Bool) (c : List ℕ) (p : SkippedKeys)
      → advance o decimal k chain i keep ≡ some (c, p)
      → j ≤ i
      → Lacks j p
  unfolding advance
  advance-Lacks zero chain i j keep c p e le = ground arith
  advance-Lacks (suc k) chain i j keep c p e le =
      elim (Option-cases (advance o decimal k (ratchet_chain_key o decimal chain) (i + 1) keep)) [
        | inl n ↦ ground arith
        | inr ((c', p'), q) ↦
            let ih =
              advance-Lacks k (ratchet_chain_key o decimal chain) (i + 1) j keep c' p' q
                (omega arith) in
            ground (arith, ih)
      ]

  decrypt_message-IsUsed :
      (r : ReceiverChain) (pk : List ℕ) (msg : EncryptedMessage) (i : ℕ)
      → IsUsed i r
      → IsUsed i (decrypt_message o decimal r pk msg).0
  unfolding Ahead Cached
  decrypt_message-IsUsed r pk msg i (le, h) = elim (decrypt_message_cases o decimal r pk msg) [
    | inl f ↦ rw f (le, h)
    | inr (_, inl (chain, p, e, lt, q)) ↦ rw q (
        commit-IsUsed i msg.iteration chain p r.skipped (omega arith)
          (advance-Lacks _ _ _ i _ chain p e le) h)
    | inr (_, inr (key, e, q)) ↦ rw q (le, erase_skipped-lacks i msg.iteration r.skipped h)
  ]

  accepted-IsUsed :
      (r : ReceiverChain) (pk : List ℕ) (msg : EncryptedMessage)
      → IsCache r.iteration r.skipped
      → (decrypt_message o decimal r pk msg).1 ≢ []
      → IsUsed msg.iteration (decrypt_message o decimal r pk msg).0
  unfolding Cached
  accepted-IsUsed r pk msg c t = elim (decrypt_message_cases o decimal r pk msg) [
    | inl f ↦ absurd (t (ap (λ (x : ReceiverChain × List ℕ). x.1) f))
    | inr (_, inl a) ↦
        let r' = (decrypt_message o decimal r pk msg).0 in
        let (c', i) = Ahead-IsCache o decimal r r' msg c a in
        (
          omega arith,
          subst (λ n. find_skipped n r'.skipped ≡ none) i
              (find_skipped-IsCache o decimal r'.iteration r'.skipped c'),
        )
    | inr (_, inr (key, f, q)) ↦
        let low = cached_below o decimal r.iteration msg.iteration key r.skipped c f in
        rw q (omega arith, erased o decimal msg.iteration r.skipped)
  ]

  -- The receiver after messages, each checked with a key of its own.
  unfoldable pub decrypt_all : ReceiverChain → List (List ℕ × EncryptedMessage) → ReceiverChain
  decrypt_all r [] = r
  decrypt_all r ((pk, msg) ∷ later) = decrypt_all (decrypt_message o decimal r pk msg).0 later

  decrypt_all-IsUsed :
      (r : ReceiverChain) (i : ℕ) (later : List (List ℕ × EncryptedMessage))
      → IsUsed i r
      → IsUsed i (decrypt_all r later)
  unfolding decrypt_all
  decrypt_all-IsUsed r i [] u = u
  decrypt_all-IsUsed r i ((pk, msg) ∷ later) u =
      decrypt_all-IsUsed (decrypt_message o decimal r pk msg).0 i later
        (decrypt_message-IsUsed r pk msg i u)

  -- Each iteration gives a text once: after a message was accepted, every message with the same
  -- iteration, the same one or a forged one, under whatever signing key, is refused, at once or
  -- after any further messages. The receiver's kept keys must be of past iterations and at most
  -- 1000 when the message is accepted.
  pub decrypt_message_replay :
      (r : ReceiverChain) (pk pk' : List ℕ) (msg again : EncryptedMessage)
      (later : List (List ℕ × EncryptedMessage))
      → IsCache r.iteration r.skipped
      → (decrypt_message o decimal r pk msg).1 ≢ []
      → again.iteration ≡ msg.iteration
      → (decrypt_message o decimal
          (decrypt_all (decrypt_message o decimal r pk msg).0 later)
          pk'
          again).1
        ≡ []
  decrypt_message_replay r pk pk' msg again later c t e =
      let (le, h) =
        decrypt_all-IsUsed (decrypt_message o decimal r pk msg).0 msg.iteration later
          (accepted-IsUsed r pk msg c t) in
      refused_by_cases o decimal (decrypt_all (decrypt_message o decimal r pk msg).0 later) pk'
        again (omega arith) (rw e h)
