-- ===== src/Examples/Crypto.antt =====
-- Group messages with a toy cipher in place of OpenSSL.
use xychat_project.Prelude.{
  ℕ, ◌-◌, ◌≡◌, ◌≢◌, refl, true, List, [], ◌∷◌, ◌++◌, length, length-append, take, take-length,
  replicate, some, arith,
}
use xychat_project.Crypto.Primitives.{OpenSsl, IsAead, aes_gcm_encrypt}
use xychat_project.Crypto.GroupE2ee.{
  SenderKey, EncryptedMessage, ReceiverChain, encrypt_message, decrypt_message, ratchet_chain_key,
  seal_message, sign, derive_message_key,
}
use xychat_project.Crypto.GroupE2ee.Ratchet.{IsWorking, Sent, chain_at}
use xychat_project.Crypto.GroupE2ee.Replay.{decrypt_message_failure}
use xychat_project.Crypto.GroupE2ee.Once.{decrypt_all, decrypt_message_replay}
use xychat_project.Crypto.GroupE2ee.Delivery.{decrypt_message-Sent, decrypt_message_out_of_order}

abbrev zeros : ℕ → List ℕ
zeros n = replicate n 0

-- Sealing appends 16 zeros; every signature is 64 zeros and is accepted.
abbrev toy : OpenSsl
toy = record {
  hkdf = λ key salt info. some (zeros 32);
  seal = λ key iv plain aad. some (plain ++ zeros 16);
  open_sealed = λ key iv sealed aad. some (take (length sealed - 16) sealed);
  sign_raw = λ key m. some (zeros 64);
  verify_raw = λ key m s. true;
}

toy_opens : (plain : List ℕ) → take (length (plain ++ zeros 16) - 16) (plain ++ zeros 16) ≡ plain
toy_opens plain =
    take-length plain (zeros 16) (length (plain ++ zeros 16) - 16)
      (omega (arith, length-append plain (zeros 16)))

toy-IsAead : IsAead toy
toy-IsAead = record {
  hkdf_length = λ key salt info out e. ground (arith, e);
  open_seal = λ key iv plain aad sealed e. ground (arith, e, toy_opens plain);
  seal_length = λ key iv plain aad sealed e. ground (arith, e, length-append plain (zeros 16));
}

toy-IsWorking : IsWorking toy (zeros 32) (zeros 32)
toy-IsWorking = record {
  aead = toy-IsAead;
  hkdf_total = λ key salt info. (zeros 32, refl);
  public_length = refl;
  sign_length = λ m s e. ground (arith, e);
  verify_sign = λ m s e. refl;
}

abbrev digits : ℕ → List ℕ
digits n = n ∷ []

abbrev sender_at : ℕ → SenderKey
sender_at n = record {
  key_id = b'k' ∷ [];
  chain_key = zeros 32;
  public_signing_key = zeros 32;
  private_signing_key = zeros 32;
  iteration = n;
  valid = true;
}

abbrev message : ℕ → List ℕ → EncryptedMessage
message n plain = record {
  key_id = b'k' ∷ [];
  iteration = n;
  iv = zeros 12;
  ciphertext = plain ++ zeros 16;
  signature = zeros 64;
  valid = true;
}

abbrev hello : List ℕ
hello = b'h' ∷ b'i' ∷ []

abbrev bye : List ℕ
bye = b'b' ∷ b'y' ∷ b'e' ∷ []

abbrev receiver : ReceiverChain
receiver = record { chain_key = zeros 32; iteration = 0; skipped = some [] }

first-Sent : Sent toy digits (zeros 32) (zeros 32) toy-IsWorking (zeros 32) hello (message 1 hello)
unfolding chain_at ratchet_chain_key encrypt_message seal_message sign derive_message_key
    aes_gcm_encrypt
first-Sent = record {
  sender = sender_at 0;
  nonce = zeros 12;
  own_key = refl;
  in_step = refl;
  nonce_length = refl;
  written = refl;
  good = refl;
}

third-Sent : Sent toy digits (zeros 32) (zeros 32) toy-IsWorking (zeros 32) bye (message 3 bye)
unfolding chain_at ratchet_chain_key encrypt_message seal_message sign derive_message_key
    aes_gcm_encrypt
third-Sent = record {
  sender = sender_at 2;
  nonce = zeros 12;
  own_key = refl;
  in_step = refl;
  nonce_length = refl;
  written = refl;
  good = refl;
}

decrypt_message-Sent_example :
    ((decrypt_message toy digits receiver (zeros 32) (message 3 bye)).1 ≡ bye)
    × ((decrypt_message toy digits receiver (zeros 32) (message 3 bye)).0.iteration ≡ 3)
unfolding chain_at
decrypt_message-Sent_example =
    decrypt_message-Sent toy digits (zeros 32) (zeros 32) toy-IsWorking (zeros 32) bye receiver
      (message 3 bye) refl refl (tt, omega arith) third-Sent (omega arith) (omega arith)

decrypt_message_out_of_order_example :
    ((decrypt_message toy digits receiver (zeros 32) (message 3 bye)).1 ≡ bye)
    × ((decrypt_message toy digits
          (decrypt_message toy digits receiver (zeros 32) (message 3 bye)).0
          (zeros 32)
          (message 1 hello)).1
        ≡ hello)
unfolding chain_at
decrypt_message_out_of_order_example =
    decrypt_message_out_of_order toy digits (zeros 32) (zeros 32) toy-IsWorking (zeros 32) hello bye
      receiver [] (message 1 hello) (message 3 bye) refl refl refl (tt, omega arith) first-Sent
      third-Sent (omega arith) (omega arith) (omega arith)

third_read : (decrypt_message toy digits receiver (zeros 32) (message 3 bye)).1 ≢ []
third_read = λ e. cc (decrypt_message-Sent_example.0, e)

-- The third message again, after the first one has come late.
decrypt_message_replay_example :
    (decrypt_message toy digits
      (decrypt_all toy digits
        (decrypt_message toy digits receiver (zeros 32) (message 3 bye)).0
        ((zeros 32, message 1 hello) ∷ []))
      (zeros 32)
      (message 3 hello)).1
    ≡ []
decrypt_message_replay_example =
    decrypt_message_replay toy digits receiver (zeros 32) (zeros 32) (message 3 bye)
      (message 3 hello) ((zeros 32, message 1 hello) ∷ []) (tt, omega arith) third_read refl

-- A message whose signature is too short changes nothing.
abbrev clipped : EncryptedMessage
clipped = record {
  key_id = b'k' ∷ [];
  iteration = 3;
  iv = zeros 12;
  ciphertext = bye ++ zeros 16;
  signature = zeros 63;
  valid = true;
}

clipped_refused : (decrypt_message toy digits receiver (zeros 32) clipped).1 ≡ []
unfolding decrypt_message
clipped_refused = refl

decrypt_message_failure_example :
    (decrypt_message toy digits receiver (zeros 32) clipped).0 ≡ receiver
decrypt_message_failure_example =
    decrypt_message_failure toy digits receiver (zeros 32) clipped clipped_refused
