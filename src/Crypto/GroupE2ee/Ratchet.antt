-- ===== src/Crypto/GroupE2ee/Ratchet.antt =====
-- A receiver that follows a sender's chain reads what the sender wrote, also out of order.
use mathlib.Core.Path.{ap₂}
use native.Mathlib.Numerals.{add-one}
use xychat_project.Prelude.{
  ℕ, zero, suc, ◌+◌, ◌-◌, ◌&&◌, ◌<◌, ◌≡◌, refl, ◌∙◌, inl, inr, Bool, true, false, List, [], ◌∷◌,
  ◌++◌, length, arith, Bool-cases, Option-cases, some, if◌then◌else◌, ltb,
}
use xychat_project.Crypto.Primitives.{
  OpenSsl, IsAead, key_size, gcm_iv_size, signature_size, aes_gcm_encrypt, seal_opens,
}
use xychat_project.Crypto.GroupE2ee.{
  SenderKey, EncryptedMessage, ReceiverChain, SkippedKeys, advance, authenticate, ratchet_chain_key,
  derive_message_key, sign, verify, seal_message, chain_salt, message_info, encrypt_message,
  is_empty, is_bad_input,
}

-- OpenSSL without failures, and a pair of signing keys.
pub record IsWorking (o : OpenSsl) (private_key public_key : List ℕ) : Type 0 where
  pub aead : IsAead o
  pub hkdf_total : (key salt info : List ℕ) → (out : List ℕ) × (o.hkdf key salt info ≡ some out)
  pub public_length : length public_key ≡ key_size
  pub sign_length : (m s : List ℕ) → o.sign_raw private_key m ≡ some s → length s ≡ signature_size
  pub verify_sign :
      (m s : List ℕ) → o.sign_raw private_key m ≡ some s → o.verify_raw public_key m s ≡ true

module _ (o : OpenSsl) (decimal : ℕ → List ℕ) where
  -- The chain key after `n` steps from `seed`.
  unfoldable pub chain_at : ℕ → List ℕ → List ℕ
  chain_at zero seed = seed
  chain_at (suc n) seed = ratchet_chain_key o decimal (chain_at n seed)

  abbrev pub key_at : ℕ → List ℕ → List ℕ
  key_at n seed = derive_message_key o decimal (chain_at n seed) n

  -- The receiver's chain is the sender's, some steps behind or ahead.
  abbrev pub Follows : List ℕ → ReceiverChain → Type 0
  Follows seed r = r.chain_key ≡ chain_at r.iteration seed

module _ (o : OpenSsl) (decimal : ℕ → List ℕ) (private_key public_key : List ℕ)
    (w : IsWorking o private_key public_key) where
  pub ratchet-length :
      (c : List ℕ) → length c ≡ key_size → length (ratchet_chain_key o decimal c) ≡ key_size
  unfolding ratchet_chain_key
  ratchet-length c h =
      let (out, e) = w.hkdf_total c chain_salt [] in
      ground (arith, e, w.aead.hkdf_length c chain_salt [] out e)

  pub derive-length :
      (c : List ℕ) (i : ℕ)
      → length c ≡ key_size
      → length (derive_message_key o decimal c i) ≡ key_size
  unfolding derive_message_key
  derive-length c i h =
      let (out, e) = w.hkdf_total c chain_salt (message_info ++ decimal i) in
      ground (arith, e, w.aead.hkdf_length c chain_salt (message_info ++ decimal i) out e)

  pub chain_at-length :
      (n : ℕ) (seed : List ℕ)
      → length seed ≡ key_size
      → length (chain_at o decimal n seed) ≡ key_size
  unfolding chain_at
  chain_at-length zero seed h = h
  chain_at-length (suc n) seed h =
      ratchet-length (chain_at o decimal n seed) (chain_at-length n seed h)

  pub not_empty : (x : List ℕ) → length x ≡ key_size → is_empty x ≡ false
  not_empty [] h = absurd (omega arith)
  not_empty (b ∷ bs) h = refl

  -- The keys of the iterations `i + 1` to `i + k`.
  unfoldable pub keys_from : ℕ → ℕ → List ℕ → SkippedKeys
  keys_from zero i seed = []
  keys_from (suc k) i seed = (i + 1, key_at o decimal (i + 1) seed) ∷ keys_from k (i + 1) seed

  advance-suc :
      (k : ℕ) (chain : List ℕ) (i : ℕ) (keep : Bool) (c : List ℕ) (p : SkippedKeys)
      → is_empty (ratchet_chain_key o decimal chain) ≡ false
      → is_empty (derive_message_key o decimal (ratchet_chain_key o decimal chain) (i + 1)) ≡ false
      → advance o decimal k (ratchet_chain_key o decimal chain) (i + 1) keep ≡ some (c, p)
      → advance o decimal (suc k) chain i keep
        ≡ some (
          c,
          if ltb 0 k && keep
              then (i + 1, derive_message_key o decimal (ratchet_chain_key o decimal chain) (i + 1))
                ∷ p
              else p,
        )
  unfolding advance
  advance-suc k chain i keep c p r d e = elim (Bool-cases (ltb 0 k && keep)) [
    | inl t ↦ rw (r, advance) (rw (t, advance) (rw (d, advance) (rw (e, advance))))
    | inr f ↦ rw (r, advance) (rw (f, advance) (rw e))
  ]

  pub chain_step :
      (i : ℕ) (seed : List ℕ)
      → chain_at o decimal (i + 1) seed ≡ ratchet_chain_key o decimal (chain_at o decimal i seed)
  unfolding chain_at
  chain_step i seed = rw add-one

  keys_join :
      (k i : ℕ) (keep : Bool) (seed : List ℕ)
      → (if ltb 0 k && keep
          then (
            i + 1,
            derive_message_key o decimal
                (ratchet_chain_key o decimal (chain_at o decimal i seed))
                (i + 1),
          )
            ∷ (if keep then keys_from (k - 1) (i + 1) seed else [])
          else (if keep then keys_from (k - 1) (i + 1) seed else []))
        ≡ (if keep then keys_from (suc k - 1) i seed else [])
  unfolding keys_from
  keys_join zero i keep seed = ground arith
  keys_join (suc k) i true seed = ground (arith, chain_step i seed)
  keys_join (suc k) i false seed = ground arith

  -- The loop of `decryptMessage` arrives at the sender's chain, with the keys on the way.
  pub advance-chain_at :
      (k i : ℕ) (keep : Bool) (seed : List ℕ)
      → length seed ≡ key_size
      → advance o decimal k (chain_at o decimal i seed) i keep
        ≡ some (chain_at o decimal (i + k) seed, if keep then keys_from (k - 1) i seed else [])
  advance-chain_at zero i keep seed h = unfold advance keys_from in ground arith
  advance-chain_at (suc k) i keep seed h =
      let c = chain_at o decimal i seed in
      let next = ratchet_chain_key o decimal c in
      let n = ratchet-length c (chain_at-length i seed h) in
      let e =
        advance-suc k c i keep _ _ (not_empty next n)
          (not_empty (derive_message_key o decimal next (i + 1)) (derive-length next (i + 1) n))
          (rw chain_step at (advance-chain_at k (i + 1) keep seed h)) in
      e
      ∙ ap₂ (λ (x : ℕ) y. some (chain_at o decimal x seed, y)) (omega arith)
          (keys_join k i keep seed)

  -- `msg` is what the owner of the private key writes, with some nonce, when his chain is one step
  -- before `msg.iteration`.
  pub record Sent (seed plain : List ℕ) (msg : EncryptedMessage) : Type 0 where
    pub sender : SenderKey
    pub nonce : List ℕ
    pub own_key : sender.private_signing_key ≡ private_key
    pub in_step : sender.chain_key ≡ chain_at o decimal sender.iteration seed
    pub nonce_length : length nonce ≡ gcm_iv_size
    pub written : (encrypt_message o decimal sender nonce plain).1 ≡ msg
    pub good : msg.valid ≡ true

  -- What the receiver needs to know of such a message.
  pub record Readable (seed plain : List ℕ) (msg : EncryptedMessage) : Type 0 where
    pub some_text : is_empty plain ≡ false
    pub later : 0 < msg.iteration
    pub well_formed :
        (r : ReceiverChain) → length r.chain_key ≡ key_size → is_bad_input r msg ≡ false
    pub opens : authenticate o decimal (key_at o decimal msg.iteration seed) public_key msg ≡ plain

  sign_verifies :
      (m : List ℕ)
      → is_empty (sign o decimal private_key m) ≡ false
      → (verify o decimal public_key m (sign o decimal private_key m) ≡ true)
        × (length (sign o decimal private_key m) ≡ signature_size)
  unfolding sign verify
  sign_verifies m h = elim (Option-cases (o.sign_raw private_key m)) [
    | inl n ↦ ground arith
    | inr (s, e) ↦ ground (arith, e, w.public_length, w.sign_length m s e, w.verify_sign m s e)
  ]

  sealed_parts :
      (k : SenderKey) (iv plain : List ℕ)
      → (seal_message o decimal k iv plain).valid ≡ true
      → (sealed : List ℕ) × (aes_gcm_encrypt o
            (derive_message_key o decimal k.chain_key k.iteration)
            iv
            plain
          ≡ some sealed)
        × (is_empty (sign o decimal k.private_signing_key (iv ++ sealed)) ≡ false)
        × (seal_message o decimal k iv plain ≡ record {
          key_id = k.key_id;
          iteration = k.iteration;
          iv = iv;
          ciphertext = sealed;
          signature = sign o decimal k.private_signing_key (iv ++ sealed);
          valid = true;
        })
  unfolding seal_message
  sealed_parts k iv plain v =
      elim (Option-cases
        (aes_gcm_encrypt o (derive_message_key o decimal k.chain_key k.iteration) iv plain)) [
          | inl n ↦ ground arith
          | inr (sealed, e) ↦ (sealed, e, ground arith, ground arith)
        ]

  pub encrypt_parts :
      (k : SenderKey) (iv plain : List ℕ)
      → (encrypt_message o decimal k iv plain).1.valid ≡ true
      → (is_empty plain ≡ false)
        × ((encrypt_message o decimal k iv plain).1
            ≡ seal_message o decimal
                (record k {
                  chain_key = ratchet_chain_key o decimal k.chain_key;
                  iteration = k.iteration + 1;
                })
                iv
                plain)
  unfolding encrypt_message
  encrypt_parts k iv plain v = (ground arith, ground arith)

  pub sealed-Readable :
      (seed plain iv : List ℕ) (k : SenderKey)
      → length seed ≡ key_size
      → k.private_signing_key ≡ private_key
      → k.chain_key ≡ chain_at o decimal k.iteration seed
      → 0 < k.iteration
      → length iv ≡ gcm_iv_size
      → is_empty plain ≡ false
      → (seal_message o decimal k iv plain).valid ≡ true
      → Readable seed plain (seal_message o decimal k iv plain)
  unfolding authenticate
  sealed-Readable seed plain iv k hs own step pos hi text v =
      let (sealed, e, sg, q) = sealed_parts k iv plain v in
      let (vs, ls) = sign_verifies (iv ++ sealed) (rw own at sg) in
      let hk =
        derive-length k.chain_key k.iteration (rw step (chain_at-length k.iteration seed hs)) in
      let (op, ln) = seal_opens o w.aead _ iv plain sealed hk hi e in
      rw q (record {
        some_text = text;
        later = pos;
        well_formed = λ r h. ground (arith, own, ls, ln, h);
        opens = ground (arith, own, step, op, vs, text);
      })
