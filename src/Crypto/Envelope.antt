-- ===== src/Crypto/Envelope.antt =====
-- CommonModule/encryption/E2eeCrypto.cpp: the envelope of a private message, one ciphertext for each
-- device. JSON and Base64 are decoded by Qt.

use xychat_project.Prelude.{
  ℕ, Bool, true, false, ◌||◌, not, List, [], ◌∷◌, ltb, ◌==◌, length, Option, none, some,
  if◌then◌else◌,
}
use xychat_project.Prelude.Int.{ℤ, pos, pos_part, ltb_int, eq_int, minus_one}
use xychat_project.Crypto.Primitives.{gcm_iv_size, gcm_tag_size}
use xychat_project.Prelude.Json.{
  Json, number, array, object, Items, nil, cons, Fields, value, to_text, to_int,
}

abbrev pub envelope_version : ℤ
envelope_version = pos 1

abbrev pub x25519_key_size : ℕ
x25519_key_size = 32

abbrev pub self_copy_prekey_id : ℕ
self_copy_prekey_id = 0

pub record EnvelopeEntry : Type 0 where
  pub device_id : List ℕ
  pub prekey_id : ℕ
  pub ephemeral_public_key : List ℕ
  pub iv : List ℕ
  pub ciphertext : List ℕ

-- `from_json` gives the object of a text; a text that is not Base64 gives no bytes.
pub record Decoder : Type 0 where
  pub from_json : List ℕ → Option Fields
  pub from_base64 : List ℕ → List ℕ

-- `toDouble()` of a whole number, 0 for another type.
abbrev pub to_number : Json → ℤ
to_number (number n) = n
to_number _ = pos 0

abbrev pub is_empty : List ℕ → Bool
is_empty [] = true
is_empty (c ∷ cs) = false

module _ (q : Decoder) where
  -- One element of `devices`; none if it is malformed.
  abbrev pub decode_entry : Fields → Option EnvelopeEntry
  decode_entry obj =
      let device = to_text (value obj "deviceId") in
      let prekey = to_number (value obj "prekeyId") in
      let eph = q.from_base64 (to_text (value obj "eph")) in
      let iv = q.from_base64 (to_text (value obj "iv")) in
      let ct = q.from_base64 (to_text (value obj "ct")) in
      if is_empty device
        || (ltb_int prekey (pos 0)
            || (not (length eph == x25519_key_size)
                || (not (length iv == gcm_iv_size) || ltb (length ct) gcm_tag_size)))
      then none
      else some (record {
        device_id = device;
        prekey_id = pos_part prekey;
        ephemeral_public_key = eph;
        iv = iv;
        ciphertext = ct;
      })

  abbrev pub more_entries :
      Option EnvelopeEntry → Option (List EnvelopeEntry) → Option (List EnvelopeEntry)
  more_entries none rest = none
  more_entries (some e) none = none
  more_entries (some e) (some es) = some (e ∷ es)

  -- The loop over the elements.
  unfoldable pub decode_entries : Items → Option (List EnvelopeEntry)
  decode_entries nil = some []
  decode_entries (cons (object obj) rest) = more_entries (decode_entry obj) (decode_entries rest)
  decode_entries (cons _ rest) = none

  abbrev pub decode_devices : Json → Option (List EnvelopeEntry)
  decode_devices (array nil) = none
  decode_devices (array (cons j js)) = decode_entries (cons j js)
  decode_devices _ = none

  -- `decodeEnvelope`; none stands for `ok == false`.
  unfoldable pub decode_envelope : List ℕ → Option (List EnvelopeEntry)
  decode_envelope content = elim (q.from_json content) [
    | none ↦ none
    | some root ↦
        if not (eq_int (to_int (value root "v") minus_one) envelope_version)
        then none
        else decode_devices (value root "devices")
  ]
