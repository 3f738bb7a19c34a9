-- ===== src/Crypto/GroupE2ee.antt =====
-- CommonModule/encryption/GroupE2eeCrypto.cpp: the sender-key ratchet of group messages.
-- Iterations are natural numbers: the code refuses a negative one as it refuses 0.
pub mod Ratchet
pub mod Replay
pub mod Once
pub mod Delivery
use Prim.Native.String.{String}
use xychat_project.Prelude.{
  ℕ, zero, suc, ◌+◌, ◌-◌, ◌/◌, ◌%◌, Bool, true, false, ◌||◌, ◌&&◌, not, List, [], ◌∷◌, ◌++◌, ltb,
  leb, ◌==◌, length, drop, Option, none, some, if◌then◌else◌,
}
use xychat_project.Prelude.Json.{codes}
use xychat_project.Crypto.Primitives.{
  OpenSsl, key_size, gcm_iv_size, gcm_tag_size, signature_size, or_empty, aes_gcm_encrypt,
  aes_gcm_decrypt,
}

abbrev pub max_ratchet_steps : ℕ
max_ratchet_steps = 2000

abbrev pub max_skipped_message_keys : ℕ
max_skipped_message_keys = 1000

pub record SenderKey : Type 0 where
  pub key_id : List ℕ
  pub chain_key : List ℕ
  pub public_signing_key : List ℕ
  pub private_signing_key : List ℕ
  pub iteration : ℕ
  pub valid : Bool

pub record EncryptedMessage : Type 0 where
  pub key_id : List ℕ
  pub iteration : ℕ
  pub iv : List ℕ
  pub ciphertext : List ℕ
  pub signature : List ℕ
  pub valid : Bool

abbrev pub no_message : EncryptedMessage
no_message = record {
  key_id = [];
  iteration = 0;
  iv = [];
  ciphertext = [];
  signature = [];
  valid = false;
}

-- `QMap<int, QByteArray>`: ascending in the iteration.
abbrev pub SkippedKeys : Type 0
SkippedKeys = List (ℕ × List ℕ)

abbrev pub find_key : ℕ → SkippedKeys → Option (List ℕ)
find_key i [] = none
find_key i ((j, k) ∷ m) = if j == i then some k else find_key i m

abbrev pub insert_key : ℕ → List ℕ → SkippedKeys → SkippedKeys
insert_key i v [] = (i, v) ∷ []
insert_key i v ((j, k) ∷ m) =
    if j == i
    then (i, v) ∷ m
    else if ltb i j
    then (i, v) ∷ ((j, k) ∷ m)
    else (j, k) ∷ insert_key i v m

abbrev pub erase_key : ℕ → SkippedKeys → SkippedKeys
erase_key i [] = []
erase_key i ((j, k) ∷ m) = if j == i then erase_key i m else (j, k) ∷ erase_key i m

abbrev pub insert_all : SkippedKeys → SkippedKeys → SkippedKeys
insert_all [] m = m
insert_all ((i, v) ∷ pending) m = insert_all pending (insert_key i v m)

-- The smallest iterations go first.
abbrev pub trim : SkippedKeys → SkippedKeys
trim m = drop (length m - max_skipped_message_keys) m

-- What a receiver keeps for one sender; `skipped` is null where the caller passes no cache.
pub record ReceiverChain : Type 0 where
  pub chain_key : List ℕ
  pub iteration : ℕ
  pub skipped : Option SkippedKeys

abbrev pub is_empty : List ℕ → Bool
is_empty [] = true
is_empty (c ∷ cs) = false

abbrev pub is_some : Option SkippedKeys → Bool
is_some none = false
is_some (some m) = true

-- The update of the stored state after a message was authenticated.
abbrev pub commit : List ℕ → ℕ → SkippedKeys → Option SkippedKeys → ReceiverChain
commit chain i pending none = record { chain_key = chain; iteration = i; skipped = none }
commit chain i pending (some m) = record {
  chain_key = chain;
  iteration = i;
  skipped = some (trim (insert_all pending m));
}

abbrev pub find_skipped : ℕ → Option SkippedKeys → Option (List ℕ)
find_skipped i none = none
find_skipped i (some m) = find_key i m

abbrev pub erase_skipped : ℕ → Option SkippedKeys → Option SkippedKeys
erase_skipped i none = none
erase_skipped i (some m) = some (erase_key i m)

abbrev pub is_bad_input : ReceiverChain → EncryptedMessage → Bool
is_bad_input r msg =
    not msg.valid
    || (not (length msg.iv == gcm_iv_size)
        || (ltb (length msg.ciphertext) gcm_tag_size
            || (not (length msg.signature == signature_size)
                || (msg.iteration == 0 || not (length r.chain_key == key_size)))))

abbrev pub chain_salt : List ℕ
chain_salt = codes "xychat-grp-chain"

abbrev pub message_info : List ℕ
message_info = codes "xychat-grp-msg"

-- `QByteArray::number` of an iteration; the digits are made by Qt.
module _ (o : OpenSsl) (decimal : ℕ → List ℕ) where
  unfoldable pub ratchet_chain_key : List ℕ → List ℕ
  ratchet_chain_key chain =
      if not (length chain == key_size) then [] else or_empty (o.hkdf chain chain_salt [])

  unfoldable pub derive_message_key : List ℕ → ℕ → List ℕ
  derive_message_key chain iteration =
      if not (length chain == key_size)
      then []
      else or_empty (o.hkdf chain chain_salt (message_info ++ decimal iteration))

  unfoldable pub sign : List ℕ → List ℕ → List ℕ
  sign key message =
      if not (length key == key_size) || is_empty message
      then []
      else or_empty (o.sign_raw key message)

  unfoldable pub verify : List ℕ → List ℕ → List ℕ → Bool
  verify key message signature =
      if not (length key == key_size)
        || (not (length signature == signature_size) || is_empty message)
      then false
      else o.verify_raw key message signature

  -- `encryptMessage` after the ratchet step; the key state is already advanced.
  unfoldable pub seal_message : SenderKey → List ℕ → List ℕ → EncryptedMessage
  seal_message k iv plain =
      elim (aes_gcm_encrypt o (derive_message_key k.chain_key k.iteration) iv plain) [
        | none ↦ no_message
        | some sealed ↦
            let signature = sign k.private_signing_key (iv ++ sealed) in
            if is_empty (derive_message_key k.chain_key k.iteration) || is_empty signature
            then no_message
            else record {
              key_id = k.key_id;
              iteration = k.iteration;
              iv = iv;
              ciphertext = sealed;
              signature = signature;
              valid = true;
            }
      ]

  -- `encryptMessage`: the chain moves one step before the message key is derived.
  unfoldable pub encrypt_message : SenderKey → List ℕ → List ℕ → SenderKey × EncryptedMessage
  encrypt_message k iv plain =
      if not k.valid || is_empty plain
      then (k, no_message)
      else let next = ratchet_chain_key k.chain_key in
        if is_empty next
        then (k, no_message)
        else let k' = record k { chain_key = next; iteration = k.iteration + 1 } in
          (k', seal_message k' iv plain)

  -- Opening, then checking the signature; empty if either fails.
  unfoldable pub authenticate : List ℕ → List ℕ → EncryptedMessage → List ℕ
  authenticate key public_key msg =
      let plain = aes_gcm_decrypt o key msg.iv msg.ciphertext in
      if is_empty plain
      then []
      else if not (verify public_key (msg.iv ++ msg.ciphertext) msg.signature)
      then []
      else plain

  -- The `while (currentIteration < msg.iteration)` loop, with the number of rounds left: the chain
  -- at the end and the keys of the iterations on the way, if they are kept.
  unfoldable pub advance : ℕ → List ℕ → ℕ → Bool → Option (List ℕ × SkippedKeys)
  advance zero chain i keep = some (chain, [])
  advance (suc k) chain i keep =
      let next = ratchet_chain_key chain in
      let rest = advance k next (i + 1) keep in
      let key = derive_message_key next (i + 1) in
      if is_empty next
      then none
      else if ltb 0 k && keep
      then (if is_empty key
          then none
          else elim rest [ none ↦ none | some (c, pending) ↦ some (c, (i + 1, key) ∷ pending) ])
      else rest

  -- Decrypting ahead of the stored chain.
  unfoldable pub decrypt_ahead : ReceiverChain → List ℕ → EncryptedMessage → ReceiverChain × List ℕ
  decrypt_ahead r public_key msg =
      if leb msg.iteration r.iteration
      then (r, [])
      else if ltb max_ratchet_steps (msg.iteration - r.iteration)
      then (r, [])
      else elim (advance (msg.iteration - r.iteration) r.chain_key r.iteration
          (is_some r.skipped)) [
            | none ↦ (r, [])
            | some (chain, pending) ↦
                let plain = authenticate (derive_message_key chain msg.iteration) public_key msg in
                if is_empty (derive_message_key chain msg.iteration)
                then (r, [])
                else if is_empty plain
                then (r, [])
                else (commit chain msg.iteration pending r.skipped, plain)
          ]

  -- `decryptMessage`: the new state and the plaintext, empty on failure.
  unfoldable pub decrypt_message :
      ReceiverChain → List ℕ → EncryptedMessage → ReceiverChain × List ℕ
  decrypt_message r public_key msg =
      if is_bad_input r msg then (r, []) else elim (find_skipped msg.iteration r.skipped) [
        | none ↦ decrypt_ahead r public_key msg
        | some key ↦
            let plain = authenticate key public_key msg in
            if is_empty plain
            then (r, [])
            else (record r { skipped = erase_skipped msg.iteration r.skipped }, plain)
      ]
