-- ===== src/Crypto/Primitives.antt =====
-- CommonModule/encryption/E2eeCrypto.cpp: the wrappers over OpenSSL with their length checks. An
-- empty array stands for failure, as in the code. What OpenSSL computes is a parameter.
use xychat_project.Prelude.{
  arith, ℕ, ◌+◌, ◌≡◌, Bool, ◌||◌, not, List, [], ltb, ◌==◌, length, Option, none, some,
  if◌then◌else◌,
}

abbrev pub key_size : ℕ
key_size = 32

abbrev pub gcm_iv_size : ℕ
gcm_iv_size = 12

abbrev pub gcm_tag_size : ℕ
gcm_tag_size = 16

abbrev pub signature_size : ℕ
signature_size = 64

-- HKDF (key, salt, info), AES-256-GCM (key, iv, data, additional data) and Ed25519. The sealed text
-- ends in the tag. `none` is an error, and for `open_sealed` also a tag that does not match.
pub record OpenSsl : Type 0 where
  pub hkdf : List ℕ → List ℕ → List ℕ → Option (List ℕ)
  pub seal : List ℕ → List ℕ → List ℕ → List ℕ → Option (List ℕ)
  pub open_sealed : List ℕ → List ℕ → List ℕ → List ℕ → Option (List ℕ)
  pub sign_raw : List ℕ → List ℕ → Option (List ℕ)
  pub verify_raw : List ℕ → List ℕ → List ℕ → Bool

-- What the code relies on: derived keys have 32 bytes, opening undoes sealing, the tag adds 16
-- bytes.
pub record IsAead (o : OpenSsl) : Type 0 where
  pub hkdf_length :
      (key salt info : List ℕ) (out : List ℕ)
      → o.hkdf key salt info ≡ some out
      → length out ≡ key_size
  pub open_seal :
      (key iv plain aad sealed : List ℕ)
      → o.seal key iv plain aad ≡ some sealed
      → o.open_sealed key iv sealed aad ≡ some plain
  pub seal_length :
      (key iv plain aad sealed : List ℕ)
      → o.seal key iv plain aad ≡ some sealed
      → length sealed ≡ length plain + gcm_tag_size

abbrev pub or_empty : Option (List ℕ) → List ℕ
or_empty none = []
or_empty (some x) = x

module _ (o : OpenSsl) where
  -- `aesGcmEncrypt`: `iv` is what `RAND_bytes` gave. The result is the ciphertext with its tag.
  unfoldable pub aes_gcm_encrypt : List ℕ → List ℕ → List ℕ → Option (List ℕ)
  aes_gcm_encrypt key iv plain =
      if not (length key == key_size) then none else o.seal key iv plain []

  unfoldable pub aes_gcm_decrypt : List ℕ → List ℕ → List ℕ → List ℕ
  aes_gcm_decrypt key iv sealed =
      if not (length key == key_size)
        || (not (length iv == gcm_iv_size) || ltb (length sealed) gcm_tag_size)
      then []
      else or_empty (o.open_sealed key iv sealed [])

  unfoldable pub aes_gcm_encrypt_aad : List ℕ → List ℕ → List ℕ → List ℕ → List ℕ
  aes_gcm_encrypt_aad key nonce plain aad =
      if not (length key == key_size) || not (length nonce == gcm_iv_size)
      then []
      else or_empty (o.seal key nonce plain aad)

  unfoldable pub aes_gcm_decrypt_aad : List ℕ → List ℕ → List ℕ → List ℕ → List ℕ
  aes_gcm_decrypt_aad key nonce sealed aad =
      if not (length key == key_size)
        || (not (length nonce == gcm_iv_size) || ltb (length sealed) gcm_tag_size)
      then []
      else or_empty (o.open_sealed key nonce sealed aad)

  -- What was encrypted is decrypted, and is one tag longer.
  pub seal_opens :
      IsAead o
      → (key iv plain sealed : List ℕ) → length key ≡ key_size
      → length iv ≡ gcm_iv_size
      → aes_gcm_encrypt key iv plain ≡ some sealed
      → (aes_gcm_decrypt key iv sealed ≡ plain) × (length sealed ≡ length plain + gcm_tag_size)
  unfolding aes_gcm_encrypt aes_gcm_decrypt
  seal_opens law key iv plain sealed hk hi e =
      let s : o.seal key iv plain [] ≡ some sealed = ground arith in
      let l = law.seal_length key iv plain [] sealed s in
      (ground (arith, law.open_seal key iv plain [] sealed s, l), l)
