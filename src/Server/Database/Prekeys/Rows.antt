-- ===== src/Server/Database/Prekeys/Rows.antt =====
-- Chat-Server/database/DatabaseManager.cpp: the rows of the prekey table, found by id, and how the
-- statements on them act.
use xychat_project.Prelude.{
  some_inj, ℕ, suc, ◌≤◌, ◌<◌, ◌≡◌, refl, sym, ◌∙◌, ap, Bool, true, ◌&&◌, List, [], ◌∷◌, map, leb,
  ◌==◌, Option, none, some, if◌then◌else◌, arith, inl, inr, Bool-cases,
}
use xychat_project.Prelude.Assoc.{text_beq, text_beq_iff}
use xychat_project.Server.Database.Prekeys.{
  Prekey, Prekeys, is_unused, reclaim_row, claim_row, consume_row, first_unused,
}

-- The row of an id.
abbrev pub find : ℕ → List Prekey → Option Prekey
find i [] = none
find i (p ∷ ps) = if p.id == i then some p else find i ps

-- The ids ascend from `lo` and stay below `hi`.
abbrev pub is_sorted : ℕ → ℕ → List Prekey → Bool
is_sorted lo hi [] = leb lo hi
is_sorted lo hi (p ∷ ps) = leb lo p.id && is_sorted (suc p.id) hi ps

abbrev pub IsTable : Prekeys → Type 0
IsTable t = is_sorted 0 t.next_id t.rows ≡ true

abbrev pub KeepsId : (Prekey → Prekey) → Type 0
KeepsId f = (p : Prekey) → (f p).id ≡ p.id

pub reclaim-KeepsId : (now : ℕ) → KeepsId (reclaim_row now)
reclaim-KeepsId now p = ground arith

pub claim-KeepsId : (i now : ℕ) → KeepsId (claim_row i now)
claim-KeepsId i now p = ground arith

pub consume-KeepsId : (i : ℕ) → KeepsId (consume_row i)
consume-KeepsId i p = ground arith

pub find-map :
    (f : Prekey → Prekey)
    → KeepsId f
    → (i : ℕ) (rows : List Prekey) (p : Prekey) → find i rows ≡ some p
    → find i (map f rows) ≡ some (f p)
find-map f k i [] p e = ground (arith, e)
find-map f k i (x ∷ xs) p e = ground (arith, e, k x, find-map f k i xs p)

pub map-is_sorted :
    (f : Prekey → Prekey)
    → KeepsId f
    → (lo hi : ℕ) (rows : List Prekey) → is_sorted lo hi rows ≡ true
    → is_sorted lo hi (map f rows) ≡ true
map-is_sorted f k lo hi [] h = h
map-is_sorted f k lo hi (x ∷ xs) h = ground (arith, k x, map-is_sorted f k (suc x.id) hi xs)

pub below :
    (i lo hi : ℕ) (rows : List Prekey) → is_sorted lo hi rows ≡ true → i < lo → find i rows ≡ none
below i lo hi [] h l = refl
below i lo hi (x ∷ xs) h l = ground (arith, below i (suc x.id) hi xs (ground arith) (ground arith))

pub here :
    (user : ℕ) (d : List ℕ) (lo hi : ℕ) (x : Prekey) (xs : List Prekey)
    → is_sorted lo hi (x ∷ xs) ≡ true
    → ((x.user_id == user) && (text_beq x.device_id d && is_unused x.status)) ≡ true
    → (find x.id (x ∷ xs) ≡ some x)
      × (is_unused x.status ≡ true)
      × (x.user_id ≡ user)
      × (x.device_id ≡ d)
      × (lo ≤ x.id)
here user d lo hi x xs h e = (
  ground arith,
  ground arith,
  ground arith,
  ground (arith, text_beq_iff x.device_id d),
  ground arith,
)

-- What `first_unused` gives is an unused row that its id finds.
pub first-found :
    (user : ℕ) (d : List ℕ) (lo hi : ℕ) (rows : List Prekey) (p : Prekey)
    → is_sorted lo hi rows ≡ true
    → first_unused user d rows ≡ some p
    → (find p.id rows ≡ some p)
      × (is_unused p.status ≡ true)
      × (p.user_id ≡ user)
      × (p.device_id ≡ d)
      × (lo ≤ p.id)
unfolding first_unused
first-found user d lo hi [] p h e = ground (arith, e)
first-found user d lo hi (x ∷ xs) p h e =
    elim (Bool-cases ((x.user_id == user) && (text_beq x.device_id d && is_unused x.status))) [
      | inl yes_x ↦
          let same : x ≡ p = some_inj (ground (arith, e, yes_x)) in
          let back = sym same in
          let (f, u, v, w, l) = here user d lo hi x xs h yes_x in
          (
            ap (λ y. find y.id (x ∷ xs)) back ∙ f ∙ ap some same,
            ap (λ y. is_unused y.status) back ∙ u,
            ap (λ y. y.user_id) back ∙ v,
            ap (λ y. y.device_id) back ∙ w,
            omega (arith, l, ap (λ y. y.id) back),
          )
      | inr no_x ↦
          let (f, u, v, w, l) =
            first-found user d (suc x.id) hi xs p (ground arith) (ground (arith, e, no_x)) in
          (ground (arith, f), u, v, w, ground arith)
    ]
