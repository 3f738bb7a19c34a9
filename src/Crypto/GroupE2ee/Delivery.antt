-- ===== src/Crypto/GroupE2ee/Delivery.antt =====
-- Delivery of group messages: in order with gaps, and late.

use xychat_project.Prelude.{
  ℕ, zero, suc, ◌+◌, ◌-◌, ◌≤◌, ◌<◌, ◌≡◌, refl, sym, ap, ◌∙◌, inl, inr, true, List, [], ◌∷◌, length,
  arith, Bool-cases, Option, none, some, if◌then◌else◌, ◌==◌,
}
use xychat_project.Crypto.Primitives.{OpenSsl, key_size}
use xychat_project.Crypto.GroupE2ee.{
  SenderKey, EncryptedMessage, ReceiverChain, SkippedKeys, find_key, insert_key, insert_all, trim,
  max_skipped_message_keys, max_ratchet_steps, advance, ratchet_chain_key, encrypt_message,
  seal_message, decrypt_ahead, decrypt_message, commit, is_some, find_skipped,
}
use xychat_project.Crypto.GroupE2ee.Ratchet.{
  IsWorking, chain_at, key_at, Follows, keys_from, Sent, Readable, sealed-Readable, encrypt_parts,
  advance-chain_at, chain_step, chain_at-length, derive-length, not_empty,
}
use xychat_project.Crypto.GroupE2ee.Replay.{
  KeysBelow-mono, find_key-KeysBelow, IsCache, Ahead, Cached, decrypt_message_cases,
}

module _ (o : OpenSsl) (decimal : ℕ → List ℕ) (private_key public_key : List ℕ)
    (w : IsWorking o private_key public_key) where
  Sent-Readable :
      (seed plain : List ℕ) (msg : EncryptedMessage)
      → length seed ≡ key_size
      → Sent o decimal private_key public_key w seed plain msg
      → Readable o decimal private_key public_key w seed plain msg
  Sent-Readable seed plain msg hs s =
      let k = s.sender in
      let k' : SenderKey = record k {
        chain_key = ratchet_chain_key o decimal k.chain_key;
        iteration = k.iteration + 1;
      } in
      let v : (encrypt_message o decimal k s.nonce plain).1.valid ≡ true =
        ap (λ (m : EncryptedMessage). m.valid) s.written ∙ s.good in
      let (text, q) = encrypt_parts o decimal private_key public_key w k s.nonce plain v in
      let same : seal_message o decimal k' s.nonce plain ≡ msg = sym q ∙ s.written in
      let read =
        sealed-Readable o decimal private_key public_key w seed plain s.nonce k' hs s.own_key
          (ap (ratchet_chain_key o decimal) s.in_step
            ∙ sym (chain_step o decimal private_key public_key w k.iteration seed))
          (omega arith) s.nonce_length text
          (ap (λ (m : EncryptedMessage). m.valid) same ∙ s.good) in
      rw same at read

  reached :
      (seed : List ℕ) (r : ReceiverChain) (n : ℕ)
      → length seed ≡ key_size
      → Follows o decimal seed r
      → r.iteration < n
      → advance o decimal (n - r.iteration) r.chain_key r.iteration (is_some r.skipped)
        ≡ some (
          chain_at o decimal n seed,
          if is_some r.skipped
              then keys_from o decimal private_key public_key w
                  (n - r.iteration - 1)
                  r.iteration
                  seed
              else [],
        )
  reached seed r n hs f lt =
      let e : r.iteration + (n - r.iteration) ≡ n = omega arith in
      rw f (
        rw e at (
          advance-chain_at o decimal private_key public_key w (n - r.iteration) r.iteration
            (is_some r.skipped) seed hs))

  -- Whatever arrives, forged or not, the receiver's chain stays the sender's chain at the
  -- receiver's iteration.
  pub decrypt_message-Follows :
      (seed pk : List ℕ) (r : ReceiverChain) (msg : EncryptedMessage)
      → length seed ≡ key_size
      → Follows o decimal seed r
      → Follows o decimal seed (decrypt_message o decimal r pk msg).0
  unfolding Ahead Cached
  decrypt_message-Follows seed pk r msg hs f = elim (decrypt_message_cases o decimal r pk msg) [
    | inl e ↦ rw e f
    | inr (_, inl (chain, pending, e, lt, q)) ↦ rw q (
        committed chain pending r.skipped (ground (arith, e, reached seed r msg.iteration hs f lt)))
    | inr (_, inr (key, e, q)) ↦ rw q f
  ]
    where
      committed :
          (chain : List ℕ) (pending : SkippedKeys) (s : Option SkippedKeys)
          → chain ≡ chain_at o decimal msg.iteration seed
          → Follows o decimal seed (commit chain msg.iteration pending s)
      committed chain pending none e = e
      committed chain pending (some m) e = e

  -- The text and the new state of a genuine message ahead of the receiver, within the step limit.
  ahead_of :
      (seed plain : List ℕ) (r : ReceiverChain) (msg : EncryptedMessage)
      → length seed ≡ key_size
      → Follows o decimal seed r
      → IsCache msg.iteration r.skipped
      → Sent o decimal private_key public_key w seed plain msg
      → r.iteration < msg.iteration
      → msg.iteration ≤ r.iteration + max_ratchet_steps
      → decrypt_message o decimal r public_key msg ≡ (
        commit
            (chain_at o decimal msg.iteration seed)
            msg.iteration
            (if is_some r.skipped
              then keys_from o decimal private_key public_key w
                  (msg.iteration - r.iteration - 1)
                  r.iteration
                  seed
              else [])
            r.skipped,
        plain,
      )
  unfolding decrypt_message decrypt_ahead
  ahead_of seed plain r msg hs f c s lt near =
      let read = Sent-Readable seed plain msg hs s in
      let hc = chain_at-length o decimal private_key public_key w r.iteration seed hs in
      let bad = read.well_formed r (rw f hc) in
      let miss = missing r.skipped c in
      let go = reached seed r msg.iteration hs f lt in
      let key = not_empty o decimal private_key public_key w _ (
        derive-length o decimal private_key public_key w (chain_at o decimal msg.iteration seed)
          msg.iteration
          (chain_at-length o decimal private_key public_key w msg.iteration seed hs)) in
      rw (bad, decrypt_message)
        (rw (miss, decrypt_message) (ground (arith, go, key, read.opens, read.some_text)))
    where
      missing :
          (s : Option SkippedKeys) → IsCache msg.iteration s → find_skipped msg.iteration s ≡ none
      missing none k = refl
      missing (some m) (k, _) = find_key-KeysBelow msg.iteration m k

  -- A genuine message ahead of the receiver, at most 2000 iterations, is read, and the receiver's
  -- chain moves to its iteration; what was received before, in whatever order, does not matter.
  pub decrypt_message-Sent :
      (seed plain : List ℕ) (r : ReceiverChain) (msg : EncryptedMessage)
      → length seed ≡ key_size
      → Follows o decimal seed r
      → IsCache msg.iteration r.skipped
      → Sent o decimal private_key public_key w seed plain msg
      → r.iteration < msg.iteration
      → msg.iteration ≤ r.iteration + max_ratchet_steps
      → ((decrypt_message o decimal r public_key msg).1 ≡ plain)
        × ((decrypt_message o decimal r public_key msg).0.iteration ≡ msg.iteration)
  decrypt_message-Sent seed plain r msg hs f c s lt near =
      rw (ahead_of seed plain r msg hs f c s lt near) (
        refl,
        moved _
            (if is_some r.skipped
              then keys_from o decimal private_key public_key w (msg.iteration - r.iteration - 1)
                  r.iteration seed
              else [])
            r.skipped,
      )
    where
      moved :
          (chain : List ℕ) (p : SkippedKeys) (m : Option SkippedKeys)
          → (commit chain msg.iteration p m).iteration ≡ msg.iteration
      moved chain p none = refl
      moved chain p (some m) = refl

  find_key-insert_key :
      (k i : ℕ) (v : List ℕ) (m : SkippedKeys)
      → find_key k (insert_key i v m) ≡ (if i == k then some v else find_key k m)
  find_key-insert_key k i v [] = refl
  find_key-insert_key k i v ((j, x) ∷ m) = ground (arith, find_key-insert_key k i v m)

  abbrev keys : ℕ → ℕ → List ℕ → SkippedKeys
  keys n i seed = keys_from o decimal private_key public_key w n i seed

  -- The keys of later iterations leave an entry alone.
  find_key_kept :
      (n i k : ℕ) (seed : List ℕ) (m : SkippedKeys)
      → k ≤ i
      → find_key k (insert_all (keys n i seed) m) ≡ find_key k m
  unfolding keys_from
  find_key_kept zero i k seed m h = refl
  find_key_kept (suc n) i k seed m h =
      find_key_kept n (i + 1) k seed (insert_key (i + 1) (key_at o decimal (i + 1) seed) m)
        (omega arith)
      ∙ ground (arith, find_key-insert_key k (i + 1) (key_at o decimal (i + 1) seed) m)

  find_key_skipped :
      (n i k : ℕ) (seed : List ℕ) (m : SkippedKeys)
      → i < k
      → k ≤ i + n
      → find_key k (insert_all (keys n i seed) m) ≡ some (key_at o decimal k seed)
  unfolding keys_from
  find_key_skipped zero i k seed m h le = absurd (omega arith)
  find_key_skipped (suc n) i k seed m h le = elim (Bool-cases (i + 1 == k)) [
    | inl here ↦
        find_key_kept n (i + 1) k seed (insert_key (i + 1) (key_at o decimal (i + 1) seed) m)
          (ground arith)
        ∙ ground (arith, find_key-insert_key k (i + 1) (key_at o decimal (i + 1) seed) m)
    | inr there ↦
        find_key_skipped n (i + 1) k seed (insert_key (i + 1) (key_at o decimal (i + 1) seed) m)
          (ground arith) (omega arith)
  ]

  length-insert_key-le :
      (i : ℕ) (v : List ℕ) (m : SkippedKeys) → length (insert_key i v m) ≤ suc (length m)
  length-insert_key-le i v [] = omega arith
  length-insert_key-le i v ((j, x) ∷ m) = ground (arith, length-insert_key-le i v m)

  length-insert_all-le :
      (n i : ℕ) (seed : List ℕ) (m : SkippedKeys)
      → length (insert_all (keys n i seed) m) ≤ n + length m
  unfolding keys_from
  length-insert_all-le zero i seed m = omega arith
  length-insert_all-le (suc n) i seed m =
      let k = key_at o decimal (i + 1) seed in
      omega (
        arith,
        length-insert_all-le n (i + 1) seed (insert_key (i + 1) k m),
        length-insert_key-le (i + 1) k m,
      )

  -- With room in the cache, the keys on the way are there afterwards.
  skipped_after :
      (n i k : ℕ) (seed : List ℕ) (m : SkippedKeys)
      → i < k
      → k ≤ i + n
      → n + length m ≤ max_skipped_message_keys
      → find_key k (trim (insert_all (keys n i seed) m)) ≡ some (key_at o decimal k seed)
  skipped_after n i k seed m h le room =
      let e : length (insert_all (keys n i seed) m) - max_skipped_message_keys ≡ 0 =
        omega (arith, length-insert_all-le n i seed m) in
      rw e (find_key_skipped n i k seed m h le)

  from_cache :
      (seed plain : List ℕ) (r : ReceiverChain) (msg : EncryptedMessage)
      → length r.chain_key ≡ key_size
      → Readable o decimal private_key public_key w seed plain msg
      → find_skipped msg.iteration r.skipped ≡ some (key_at o decimal msg.iteration seed)
      → (decrypt_message o decimal r public_key msg).1 ≡ plain
  unfolding decrypt_message
  from_cache seed plain r msg hc read e =
      rw (read.well_formed r hc, decrypt_message)
        (rw (e, decrypt_message) (ground (arith, read.opens, read.some_text)))

  -- Two genuine messages that arrive in the wrong order are both read: the later one first, then
  -- the earlier one from the cache, as long as the cache has room for the iterations skipped.
  pub decrypt_message_out_of_order :
      (seed text₁ text₂ : List ℕ) (r : ReceiverChain) (m : SkippedKeys)
      (early late : EncryptedMessage)
      → length seed ≡ key_size
      → Follows o decimal seed r
      → r.skipped ≡ some m
      → IsCache r.iteration r.skipped
      → Sent o decimal private_key public_key w seed text₁ early
      → Sent o decimal private_key public_key w seed text₂ late
      → r.iteration < early.iteration
      → early.iteration < late.iteration
      → (late.iteration - r.iteration) + length m ≤ max_skipped_message_keys
      → ((decrypt_message o decimal r public_key late).1 ≡ text₂)
        × ((decrypt_message o decimal
              (decrypt_message o decimal r public_key late).0
              public_key
              early).1
            ≡ text₁)
  decrypt_message_out_of_order seed text₁ text₂ r m early late hs f q c s₁ s₂ h₁ h₂ room =
      let n = late.iteration - r.iteration - 1 in
      let c' = IsCache-mono' r.skipped c in
      let go = ahead_of seed text₂ r late hs f c' s₂ (omega arith) (omega arith) in
      let found =
        skipped_after n r.iteration early.iteration seed m h₁ (omega arith) (omega arith) in
      let hc = chain_at-length o decimal private_key public_key w late.iteration seed hs in
      let r' : ReceiverChain = record {
        chain_key = chain_at o decimal late.iteration seed;
        iteration = late.iteration;
        skipped = some (trim (insert_all (keys n r.iteration seed) m));
      } in
      let after : decrypt_message o decimal r public_key late ≡ (r', text₂) =
        ground (arith, go, q) in
      rw after
        (refl, from_cache seed text₁ r' early hc (Sent-Readable seed text₁ early hs s₁) found)
    where
      IsCache-mono' : (x : Option SkippedKeys) → IsCache r.iteration x → IsCache late.iteration x
      IsCache-mono' none k = tt
      IsCache-mono' (some m) (k, l) =
          (KeysBelow-mono r.iteration late.iteration m (omega (arith, h₁, h₂)) k, l)
