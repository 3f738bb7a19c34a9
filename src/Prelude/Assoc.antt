-- ===== src/Prelude/Assoc.antt =====
-- Association lists for `QHash` and `QMap`: one entry for each key, looked up by a Boolean test.
use Prim.Native.Nat.{ℕ}
use mathlib.Core.Path.{◌≡◌, refl}
use mathlib.Core.Bool.{Bool, true, false}
use mathlib.Core.Logic.{◌↔◌}
use mathlib.Core.List.{List, [], ◌∷◌}
use mathlib.Core.Option.{Option, none, some}
use native.Mathlib.Omega.{arith}
use xychat_project.Prelude.Tests.{if◌then◌else◌, ◌==◌}
use xychat_project.Prelude.Int.{ℤ, eq_int, eq_int_iff}

-- A Boolean equality with its meaning.
pub record Eq {ℓ} (A : Type ℓ) : Type ℓ where
  pub beq : A → A → Bool
  pub beq_iff : (a b : A) → (beq a b ≡ true) ↔ (a ≡ b)

pub nat_beq_iff : (a b : ℕ) → ((a == b) ≡ true) ↔ (a ≡ b)
nat_beq_iff a b = ground arith

instance abbrev pub nat_eq : Eq ℕ
nat_eq = record { beq = λ a b. a == b; beq_iff = nat_beq_iff }

instance abbrev pub int_eq : Eq ℤ
int_eq = record { beq = eq_int; beq_iff = eq_int_iff }

abbrev pub text_beq : List ℕ → List ℕ → Bool
text_beq [] [] = true
text_beq [] (y ∷ ys) = false
text_beq (x ∷ xs) [] = false
text_beq (x ∷ xs) (y ∷ ys) = if x == y then text_beq xs ys else false

pub text_beq_iff : (a b : List ℕ) → (text_beq a b ≡ true) ↔ (a ≡ b)
text_beq_iff [] [] = ground arith
text_beq_iff [] (y ∷ ys) = ground arith
text_beq_iff (x ∷ xs) [] = ground arith
text_beq_iff (x ∷ xs) (y ∷ ys) = ground (arith, text_beq_iff xs ys)

instance abbrev pub text_eq : Eq (List ℕ)
text_eq = record { beq = text_beq; beq_iff = text_beq_iff }

module _ {ℓ} {K : Type 0} {V : Type ℓ} (e : Eq K) where
  -- `QHash::constFind`.
  abbrev pub lookup : K → List (K × V) → Option V
  lookup k [] = none
  lookup k ((j, v) ∷ m) = if e.beq j k then some v else lookup k m

  -- `QHash::insert`: a key that is there gets the new value.
  abbrev pub insert : K → V → List (K × V) → List (K × V)
  insert k v [] = (k, v) ∷ []
  insert k v ((j, w) ∷ m) = if e.beq j k then (k, v) ∷ m else (j, w) ∷ insert k v m

  -- `QHash::erase`, of every entry with the key.
  abbrev pub erase : K → List (K × V) → List (K × V)
  erase k [] = []
  erase k ((j, w) ∷ m) = if e.beq j k then erase k m else (j, w) ∷ erase k m

module _ {ℓ} {K : Type 0} {V : Type ℓ} (e : Eq K) where
  pub lookup-insert :
      (n k : K) (v : V) (m : List (K × V))
      → lookup e n (insert e k v m) ≡ (if e.beq k n then some v else lookup e n m)
  lookup-insert n k v [] = refl
  lookup-insert n k v ((j, w) ∷ m) =
      ground (arith, e.beq_iff k n, e.beq_iff j k, e.beq_iff j n, lookup-insert n k v m)

  pub lookup-erase :
      (n k : K) (m : List (K × V))
      → lookup e n (erase e k m) ≡ (if e.beq k n then none else lookup e n m)
  lookup-erase n k [] = ground arith
  lookup-erase n k ((j, w) ∷ m) =
      ground (arith, e.beq_iff k n, e.beq_iff j k, e.beq_iff j n, lookup-erase n k m)

  -- Whether a key has an entry.
  abbrev pub has_key : K → List (K × V) → Bool
  has_key n [] = false
  has_key n ((j, w) ∷ m) = if e.beq j n then true else has_key n m

  -- Every key has one entry.
  abbrev pub is_functional : List (K × V) → Bool
  is_functional [] = true
  is_functional ((j, w) ∷ m) = if has_key j m then false else is_functional m

  has_key-insert :
      (n k : K) (v : V) (m : List (K × V))
      → has_key n (insert e k v m) ≡ (if e.beq k n then true else has_key n m)
  has_key-insert n k v [] = refl
  has_key-insert n k v ((j, w) ∷ m) =
      ground (arith, e.beq_iff k n, e.beq_iff j k, e.beq_iff j n, has_key-insert n k v m)

  has_key-erase :
      (n k : K) (m : List (K × V))
      → has_key n (erase e k m) ≡ (if e.beq k n then false else has_key n m)
  has_key-erase n k [] = ground arith
  has_key-erase n k ((j, w) ∷ m) =
      ground (arith, e.beq_iff k n, e.beq_iff j k, e.beq_iff j n, has_key-erase n k m)

  pub is_functional-insert :
      (k : K) (v : V) (m : List (K × V))
      → is_functional m ≡ true
      → is_functional (insert e k v m) ≡ true
  is_functional-insert k v [] h = refl
  is_functional-insert k v ((j, w) ∷ m) h =
      ground
        (arith, h, e.beq_iff j k, e.beq_iff k j, has_key-insert j k v m, is_functional-insert k v m)

  pub is_functional-erase :
      (k : K) (m : List (K × V)) → is_functional m ≡ true → is_functional (erase e k m) ≡ true
  is_functional-erase k [] h = refl
  is_functional-erase k ((j, w) ∷ m) h =
      ground (arith, h, e.beq_iff j k, has_key-erase j k m, is_functional-erase k m)
