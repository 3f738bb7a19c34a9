-- ===== src/Crypto/GroupE2ee/Replay.antt =====
-- What a received message can do to the receiver's state, whoever made it.
use xychat_project.Prelude.{
  ℕ, zero, suc, ◌+◌, ◌-◌, ◌≤◌, ◌<◌, ◌≡◌, ◌≢◌, refl, ap, ◌∙◌, inl, inr, ◌⊎◌, Bool, List, [], ◌∷◌,
  length, drop, length-drop, arith, Bool-cases, Option-cases, Option, none, some, ltb, leb,
}
use xychat_project.Crypto.Primitives.{OpenSsl}
use xychat_project.Crypto.GroupE2ee.{
  EncryptedMessage, ReceiverChain, SkippedKeys, find_key, insert_key, erase_key, insert_all, trim,
  max_skipped_message_keys, advance, authenticate, ratchet_chain_key, derive_message_key,
  decrypt_ahead, decrypt_message, commit, is_some, is_empty, find_skipped, erase_skipped,
  is_bad_input, max_ratchet_steps,
}

-- Every cached key belongs to an iteration before `n`.
abbrev pub KeysBelow : ℕ → SkippedKeys → Type 0
KeysBelow n [] = Unit {0}
KeysBelow n ((j, k) ∷ m) = (j < n) × KeysBelow n m

pub KeysBelow-mono : (a b : ℕ) (m : SkippedKeys) → a ≤ b → KeysBelow a m → KeysBelow b m
KeysBelow-mono a b [] h v = tt
KeysBelow-mono a b ((j, k) ∷ m) h (v, vs) = (omega arith, KeysBelow-mono a b m h vs)

insert_key-KeysBelow :
    (n i : ℕ) (v : List ℕ) (m : SkippedKeys)
    → i < n
    → KeysBelow n m
    → KeysBelow n (insert_key i v m)
insert_key-KeysBelow n i v [] h k = (h, tt)
insert_key-KeysBelow n i v ((j, w) ∷ m) h (k, ks) =
    ground (arith, insert_key-KeysBelow n i v m h ks)

insert_all-KeysBelow :
    (n : ℕ) (p m : SkippedKeys) → KeysBelow n p → KeysBelow n m → KeysBelow n (insert_all p m)
insert_all-KeysBelow n [] m h k = k
insert_all-KeysBelow n ((i, v) ∷ p) m (h, hs) k =
    insert_all-KeysBelow n p (insert_key i v m) hs (insert_key-KeysBelow n i v m h k)

erase_key-KeysBelow : (n i : ℕ) (m : SkippedKeys) → KeysBelow n m → KeysBelow n (erase_key i m)
erase_key-KeysBelow n i [] h = tt
erase_key-KeysBelow n i ((j, k) ∷ m) (h, hs) = ground (arith, erase_key-KeysBelow n i m hs)

drop-KeysBelow : (n d : ℕ) (m : SkippedKeys) → KeysBelow n m → KeysBelow n (drop d m)
drop-KeysBelow n zero m h = h
drop-KeysBelow n (suc d) [] h = tt
drop-KeysBelow n (suc d) (x ∷ m) (h, hs) = drop-KeysBelow n d m hs

pub find_key-KeysBelow : (n : ℕ) (m : SkippedKeys) → KeysBelow n m → find_key n m ≡ none
find_key-KeysBelow n [] h = refl
find_key-KeysBelow n ((j, k) ∷ m) (h, hs) = ground (arith, find_key-KeysBelow n m hs)

find_key-erase_key : (i : ℕ) (m : SkippedKeys) → find_key i (erase_key i m) ≡ none
find_key-erase_key i [] = refl
find_key-erase_key i ((j, k) ∷ m) = ground (arith, find_key-erase_key i m)

length-erase_key-le : (i : ℕ) (m : SkippedKeys) → length (erase_key i m) ≤ length m
length-erase_key-le i [] = omega arith
length-erase_key-le i ((j, k) ∷ m) = ground (arith, length-erase_key-le i m)

find_key_below :
    (n i : ℕ) (k : List ℕ) (m : SkippedKeys) → KeysBelow n m → find_key i m ≡ some k → i < n
find_key_below n i k [] h e = cc
find_key_below n i k ((j, w) ∷ m) (h, hs) e = ground (arith, find_key_below n i k m hs)

-- The cache of a receiver: past iterations only, and within the capacity.
abbrev pub IsCache : ℕ → Option SkippedKeys → Type 0
IsCache n none = Unit {0}
IsCache n (some m) = KeysBelow n m × (length m ≤ max_skipped_message_keys)

length-trim-le : (m : SkippedKeys) → length (trim m) ≤ max_skipped_message_keys
length-trim-le m = omega (arith, length-drop (length m - max_skipped_message_keys) m)

module _ (o : OpenSsl) (decimal : ℕ → List ℕ) where
  pub advance-KeysBelow :
      (k : ℕ) (chain : List ℕ) (i : ℕ) (keep : Bool) (c : List ℕ) (p : SkippedKeys)
      → advance o decimal k chain i keep ≡ some (c, p)
      → KeysBelow (i + k) p
  unfolding advance
  advance-KeysBelow zero chain i keep c p e = ground arith
  advance-KeysBelow (suc k) chain i keep c p e =
      elim (Option-cases (advance o decimal k (ratchet_chain_key o decimal chain) (i + 1) keep)) [
        | inl n ↦ ground arith
        | inr ((c', p'), q) ↦
            let ih = advance-KeysBelow k (ratchet_chain_key o decimal chain) (i + 1) keep c' p' q in
            let ih' = KeysBelow-mono (i + 1 + k) (i + suc k) p' (omega arith) ih in
            ground (arith, ih')
      ]

  -- The two ways in which a message is accepted.
  unfoldable pub Ahead : ReceiverChain → EncryptedMessage → ReceiverChain → Type 0
  Ahead r msg r' =
      (chain : List ℕ) × (pending : SkippedKeys) × (advance o decimal (msg.iteration - r.iteration)
          r.chain_key r.iteration (is_some r.skipped)
        ≡ some (chain, pending))
      × (r.iteration < msg.iteration)
      × (r' ≡ commit chain msg.iteration pending r.skipped)

  unfoldable pub Cached : ReceiverChain → EncryptedMessage → ReceiverChain → Type 0
  Cached r msg r' =
      (key : List ℕ) × (find_skipped msg.iteration r.skipped ≡ some key)
      × (r' ≡ record r { skipped = erase_skipped msg.iteration r.skipped })

  decrypt_ahead_cases :
      (r : ReceiverChain) (pk : List ℕ) (msg : EncryptedMessage)
      → (decrypt_ahead o decimal r pk msg ≡ (r, []))
        ⊎ (((decrypt_ahead o decimal r pk msg).1 ≢ [])
            × Ahead r msg (decrypt_ahead o decimal r pk msg).0)
  unfolding decrypt_ahead Ahead
  decrypt_ahead_cases r pk msg =
      elim (Option-cases (
        advance o decimal (msg.iteration - r.iteration) r.chain_key r.iteration
          (is_some r.skipped))) [
            | inl n ↦ ground arith
            | inr ((chain, pending), e) ↦
                elim (Bool-cases (
                  is_empty (
                    authenticate o decimal (derive_message_key o decimal chain msg.iteration) pk
                      msg))) [
                        | inl f ↦ ground arith
                        | inr f ↦ elim (Bool-cases (leb msg.iteration r.iteration)) [
                          | inl old ↦ inl (ground arith)
                          | inr new ↦
                              elim (Bool-cases
                                (ltb max_ratchet_steps (msg.iteration - r.iteration))) [
                                  | inl far ↦ inl (ground arith)
                                  | inr near ↦
                                      elim (Bool-cases (
                                        is_empty
                                          (derive_message_key o decimal chain msg.iteration))) [
                                            | inl failed ↦ inl (ground arith)
                                            | inr derived ↦ inr (
                                              λ n. ground arith,
                                              (chain, pending, e, ground arith, ground arith),
                                            )
                                          ]
                                ]
                        ]
                      ]
          ]

  -- A message is refused and changes nothing, or it gives a text and is accepted in one of the two
  -- ways.
  pub decrypt_message_cases :
      (r : ReceiverChain) (pk : List ℕ) (msg : EncryptedMessage)
      → (decrypt_message o decimal r pk msg ≡ (r, []))
        ⊎ (((decrypt_message o decimal r pk msg).1 ≢ [])
            × (Ahead r msg (decrypt_message o decimal r pk msg).0
                ⊎ Cached r msg (decrypt_message o decimal r pk msg).0))
  unfolding decrypt_message Cached
  decrypt_message_cases r pk msg = elim (Bool-cases (is_bad_input r msg)) [
    | inl bad ↦ inl (ground arith)
    | inr good ↦ elim (Option-cases (find_skipped msg.iteration r.skipped)) [
      | inl n ↦
          let same : decrypt_message o decimal r pk msg ≡ decrypt_ahead o decimal r pk msg =
            ground arith in
          elim (decrypt_ahead_cases r pk msg) [
            | inl f ↦ inl (same ∙ f)
            | inr (t, a) ↦ inr (rw same (t, inl a))
          ]
      | inr (key, e) ↦ elim (Bool-cases (is_empty (authenticate o decimal key pk msg))) [
        | inl f ↦ inl (ground arith)
        | inr f ↦ inr (λ n. ground arith, inr (key, e, ground arith))
      ]
    ]
  ]

  -- Nothing but an authenticated message changes the state: if no text comes out, chain, iteration
  -- and cached keys are as they were, whatever the message was.
  pub decrypt_message_failure :
      (r : ReceiverChain) (pk : List ℕ) (msg : EncryptedMessage)
      → (decrypt_message o decimal r pk msg).1 ≡ []
      → (decrypt_message o decimal r pk msg).0 ≡ r
  decrypt_message_failure r pk msg e = elim (decrypt_message_cases r pk msg) [
    | inl f ↦ ap (λ (x : ReceiverChain × List ℕ). x.0) f
    | inr (t, _) ↦ absurd (t e)
  ]

  commit-IsCache :
      (chain : List ℕ) (i : ℕ) (pending : SkippedKeys) (s : Option SkippedKeys)
      → KeysBelow i pending
      → IsCache i s
      → IsCache i (commit chain i pending s).skipped
  commit-IsCache chain i pending none h c = tt
  commit-IsCache chain i pending (some m) h (c, _) = (
    drop-KeysBelow i _ (insert_all pending m) (insert_all-KeysBelow i pending m h c),
    length-trim-le (insert_all pending m),
  )

  IsCache-mono : (a b : ℕ) (s : Option SkippedKeys) → a ≤ b → IsCache a s → IsCache b s
  IsCache-mono a b none h c = tt
  IsCache-mono a b (some m) h (c, l) = (KeysBelow-mono a b m h c, l)

  erase_skipped-IsCache :
      (n i : ℕ) (s : Option SkippedKeys) → IsCache n s → IsCache n (erase_skipped i s)
  erase_skipped-IsCache n i none c = tt
  erase_skipped-IsCache n i (some m) (c, l) =
      (erase_key-KeysBelow n i m c, omega (arith, length-erase_key-le i m))

  pub Ahead-IsCache :
      (r r' : ReceiverChain) (msg : EncryptedMessage)
      → IsCache r.iteration r.skipped
      → Ahead r msg r'
      → IsCache r'.iteration r'.skipped × (r'.iteration ≡ msg.iteration)
  unfolding Ahead
  Ahead-IsCache r r' msg c (chain, pending, e, lt, q) =
      let below = advance-KeysBelow _ _ _ _ chain pending e in
      let below' =
        KeysBelow-mono (r.iteration + (msg.iteration - r.iteration)) msg.iteration pending
          (omega arith) below in
      let up = IsCache-mono r.iteration msg.iteration r.skipped (omega arith) c in
      let done = commit-IsCache chain msg.iteration pending r.skipped below' up in
      rw q (commit_state chain msg.iteration pending r.skipped done)
    where
      commit_state :
          (chain : List ℕ) (i : ℕ) (pending : SkippedKeys) (s : Option SkippedKeys)
          → IsCache i (commit chain i pending s).skipped
          → IsCache (commit chain i pending s).iteration (commit chain i pending s).skipped
            × ((commit chain i pending s).iteration ≡ i)
      commit_state chain i pending none d = (tt, refl)
      commit_state chain i pending (some m) d = (d, refl)

  -- The cache holds keys of past iterations only and at most 1000 of them, after any message.
  pub decrypt_message-IsCache :
      (r : ReceiverChain) (pk : List ℕ) (msg : EncryptedMessage)
      → IsCache r.iteration r.skipped
      → IsCache
          (decrypt_message o decimal r pk msg).0.iteration
          (decrypt_message o decimal r pk msg).0.skipped
  unfolding Cached
  decrypt_message-IsCache r pk msg c = elim (decrypt_message_cases r pk msg) [
    | inl f ↦ rw f c
    | inr (_, inl a) ↦ (Ahead-IsCache r _ msg c a).0
    | inr (_, inr (key, e, q)) ↦ rw q (erase_skipped-IsCache r.iteration msg.iteration r.skipped c)
  ]

  pub refused_by_cases :
      (r : ReceiverChain) (pk : List ℕ) (msg : EncryptedMessage)
      → msg.iteration ≤ r.iteration
      → find_skipped msg.iteration r.skipped ≡ none
      → (decrypt_message o decimal r pk msg).1 ≡ []
  unfolding decrypt_message decrypt_ahead
  refused_by_cases r pk msg h n = ground arith

  pub find_skipped-IsCache :
      (n : ℕ) (s : Option SkippedKeys) → IsCache n s → find_skipped n s ≡ none
  find_skipped-IsCache n none c = refl
  find_skipped-IsCache n (some m) (c, _) = find_key-KeysBelow n m c

  pub erased : (i : ℕ) (s : Option SkippedKeys) → find_skipped i (erase_skipped i s) ≡ none
  erased i none = refl
  erased i (some m) = find_key-erase_key i m

  pub cached_below :
      (n i : ℕ) (k : List ℕ) (s : Option SkippedKeys)
      → IsCache n s
      → find_skipped i s ≡ some k
      → i < n
  cached_below n i k none c e = cc
  cached_below n i k (some m) (c, _) e = find_key_below n i k m c e
