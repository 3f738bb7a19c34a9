-- ===== src/Server/Database/Prekeys/Spent.antt =====
-- Chat-Server/database/DatabaseManager.cpp: `consumePrekeys` after `validateClaimedPrekey`.
use xychat_project.Prelude.{
  some_inj, ℕ, suc, ◌≡◌, sym, ap, Bool, true, false, not, ◌||◌, ◌&&◌, ◌⊎◌, List, [], ◌∷◌, map, ◌==◌,
  some, if◌then◌else◌, arith, inl, inr, Bool-cases,
}
use xychat_project.Server.Database.Prekeys.{
  Prekey, used, Prekeys, is_unused, is_claimed, consume_row, consume_rows, consume_prekeys,
  validate_claimed_prekey, any_claimed, PrekeyCall, run, handed_out,
}
use xychat_project.Server.Database.Prekeys.Rows.{
  find, is_sorted, IsTable, consume-KeepsId, find-map, map-is_sorted,
}
use xychat_project.Server.Database.Prekeys.Held.{Others}
use xychat_project.Server.Database.Prekeys.Lifecycle.{none_below, spent_prekey}

any_claimed-find :
    (user k lo hi : ℕ) (d : List ℕ) (rows : List Prekey)
    → is_sorted lo hi rows ≡ true
    → any_claimed user d k rows ≡ true
    → (p : Prekey) × (find k rows ≡ some p) × (is_claimed p.status ≡ true)
any_claimed-find user k lo hi d [] h e = ground (arith, e)
any_claimed-find user k lo hi d (x ∷ xs) h e = elim (Bool-cases (x.id == k)) [
  | inl a ↦ (
    x,
    ground (arith, a),
    ground (arith, a, e, none_below user k (suc x.id) hi d xs (ground arith) (ground arith)),
  )
  | inr a ↦
      let (p, f, c) =
        any_claimed-find user k (suc x.id) hi d xs (ground arith) (ground (arith, a, e)) in
      (p, ground (arith, a, f), c)
]

find-id : (k : ℕ) (rows : List Prekey) (p : Prekey) → find k rows ≡ some p → p.id ≡ k
find-id k [] p e = ground (arith, e)
find-id k (x ∷ xs) p e = elim (Bool-cases (x.id == k)) [
  | inl a ↦
      let same : x ≡ p = some_inj (ground (arith, a, e)) in
      let back : p.id ≡ x.id = ap (λ y. y.id) (sym same) in ground (arith, a, back)
  | inr a ↦ find-id k xs p (ground (arith, a, e))
]

-- Claimed until it is consumed, and used then.
abbrev After : Bool → ℕ → List Prekey → Type 0
After consumed k rows =
    (p : Prekey) × (find k rows ≡ some p)
    × ((if consumed then is_claimed p.status || is_unused p.status else not (is_claimed p.status))
        ≡ false)

consume-After :
    (consumed b : Bool) (j k : ℕ) (rows : List Prekey)
    → After consumed k rows
    → After (consumed || (b && (j == k))) k (if b then map (consume_row j) rows else rows)
consume-After consumed false j k rows (p, f, c) = (p, f, ground (arith, c))
consume-After consumed true j k rows (p, f, c) = (
  consume_row j p,
  find-map (consume_row j) (consume-KeepsId j) k rows p f,
  ground (arith, c, find-id k rows p f),
)

abbrev pub has_id : ℕ → List ℕ → Bool
has_id k [] = false
has_id k (j ∷ js) = if j == k then true else has_id k js

all_consumed :
    (consumed : Bool) (executes : ℕ → Bool) (ids : List ℕ) (k : ℕ) (rows : List Prekey)
    → executes k ≡ true
    → After consumed k rows
    → (consumed || has_id k ids) ≡ true
    → After true k (consume_rows executes ids rows)
all_consumed consumed executes [] k rows x (p, f, c) h = (p, f, ground (arith, c, h))
all_consumed consumed executes (j ∷ js) k rows x a h =
    all_consumed (consumed || (executes j && (j == k))) executes js k
      (if executes j then map (consume_row j) rows else rows) x
      (consume-After consumed (executes j) j k rows a) (counted (Bool-cases (j == k)))
  where
    counted :
        ((j == k) ≡ true) ⊎ ((j == k) ≡ false)
        → ((consumed || (executes j && (j == k))) || has_id k js) ≡ true
    counted (inl e) = let same : j ≡ k = ground (arith, e) in rw same (ground (arith, x))
    counted (inr e) = ground (arith, e, h)

consume_row-is_sorted :
    (hi j : ℕ) (b : Bool) (rows : List Prekey)
    → is_sorted 0 hi rows ≡ true
    → is_sorted 0 hi (if b then map (consume_row j) rows else rows) ≡ true
consume_row-is_sorted hi j false rows h = h
consume_row-is_sorted hi j true rows h =
    map-is_sorted (consume_row j) (consume-KeepsId j) 0 hi rows h

consume_rows-is_sorted :
    (hi : ℕ) (executes : ℕ → Bool) (ids : List ℕ) (rows : List Prekey)
    → is_sorted 0 hi rows ≡ true
    → is_sorted 0 hi (consume_rows executes ids rows) ≡ true
consume_rows-is_sorted hi executes [] rows h = h
consume_rows-is_sorted hi executes (j ∷ js) rows h =
    consume_rows-is_sorted hi executes js (if executes j then map (consume_row j) rows else rows)
      (consume_row-is_sorted hi j (executes j) rows h)

status_used : (p : Prekey) → (is_claimed p.status || is_unused p.status) ≡ false → p.status ≡ used
status_used p h = ground (arith, h)

-- A prekey that passed the check of an envelope and was consumed, with an `UPDATE` that was carried
-- out, is spent: whatever calls of claiming, consuming and uploading come later, at whatever times,
-- none hands it out, and afterwards it passes no check, for whichever user and device.
pub consumed_once :
    (table : Prekeys) (executes : ℕ → Bool) (ids : List ℕ) (k target user : ℕ) (device d : List ℕ)
    (cs : List PrekeyCall)
    → IsTable table
    → validate_claimed_prekey table target device k ≡ true
    → has_id k ids ≡ true
    → executes k ≡ true
    → (validate_claimed_prekey (run (consume_prekeys executes table ids) cs) user d k ≡ false)
      × Others k (handed_out (consume_prekeys executes table ids) cs)
unfolding validate_claimed_prekey consume_prekeys
consumed_once table executes ids k target user device d cs s v m x =
    let (p, f, c) = any_claimed-find target k 0 table.next_id device table.rows s v in
    let (q, g, u) = all_consumed false executes ids k table.rows x (p, f, ground (arith, c)) m in
    spent_prekey (consume_prekeys executes table ids) k user d q cs
      (consume_rows-is_sorted table.next_id executes ids table.rows s) g (status_used q u)
