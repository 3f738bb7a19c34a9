-- ===== src/Examples/Prekeys.antt =====
-- Prekeys at concrete calls.
use xychat_project.Prelude.{some, ℕ, ◌≡◌, ◌≢◌, refl, true, false, List, [], ◌∷◌, none, arith, All}
use xychat_project.Server.Database.Prekeys.{
  Prekey, Prekeys, ClaimedPrekey, consume_prekeys, claimed, unused, claim, upload, run, handed_out,
  claim_prekeys, validate_claimed_prekey,
}
use xychat_project.Server.Database.Prekeys.Lifecycle.{claimed_once}
use xychat_project.Server.Database.Prekeys.Spent.{consumed_once}

abbrev phone : List ℕ
phone = b'p' ∷ []

abbrev row : ℕ → Prekey
row i = record {
  id = i;
  user_id = 7;
  device_id = phone;
  pub_key = 1 ∷ [];
  status = unused;
  claimed_at = none;
}

abbrev stock : Prekeys
stock = record { rows = row 1 ∷ row 2 ∷ []; next_id = 3 }

abbrev taken : Prekeys
taken = record {
  rows = (record (row 1) { status = claimed; claimed_at = some 900 }) ∷ row 2 ∷ [];
  next_id = 3;
}

-- Consumed, then a claim, an upload and a claim long after.
consumed_once_example :
    (validate_claimed_prekey
        (run (consume_prekeys (λ i. true) taken (1 ∷ [])) (
          claim true true 7 1000
          ∷ upload true true 7 phone ((5 ∷ []) ∷ [])
          ∷ claim true true 7 9000
          ∷ []))
        7
        phone
        1
      ≡ false)
    × All
        (λ (c : ClaimedPrekey). c.prekey_id ≢ 1)
        (handed_out (consume_prekeys (λ i. true) taken (1 ∷ [])) (
          claim true true 7 1000
          ∷ upload true true 7 phone ((5 ∷ []) ∷ [])
          ∷ claim true true 7 9000
          ∷ []))
unfolding validate_claimed_prekey
consumed_once_example =
    consumed_once taken (λ i. true) (1 ∷ []) 1 7 7 phone phone
      (claim true true 7 1000
        ∷ upload true true 7 phone ((5 ∷ []) ∷ [])
        ∷ claim true true 7 9000
        ∷ [])
      refl refl refl refl

-- Two claims within ten minutes.
claimed_once_example :
    All
      (λ (c : ClaimedPrekey).
        All
          (λ (e : ClaimedPrekey). e.prekey_id ≢ c.prekey_id)
          (handed_out (claim_prekeys true true stock 7 1000).0 (claim true true 7 1500 ∷ [])))
      (claim_prekeys true true stock 7 1000).1
claimed_once_example =
    claimed_once stock true true 7 1000 (claim true true 7 1500 ∷ []) refl (omega arith, tt)
