-- ===== src/Server/Storage/Chunks.antt =====
-- Chat-Server/storage/LocalFileStorage.cpp: the chunks of one upload, as `receivedChunks` lists them.
use xychat_project.Prelude.{
  ℕ, zero, suc, ◌+◌, ◌≤◌, ◌<◌, ◌≡◌, refl, Bool, true, ◌&&◌, Bool-cases, List, [], ◌∷◌, ltb, leb,
  ◌==◌, length, none, some, if◌then◌else◌, arith, inl, inr, sym, ◌∙◌, ◌≢◌,
}
use xychat_project.Server.Storage.{Parts, find_part, write_part, indexes, counts_from}

-- The indexes ascend strictly from `lo` on.
abbrev pub is_above : ℕ → Parts → Bool
is_above lo [] = true
is_above lo ((j, d) ∷ m) = leb lo j && is_above (suc j) m

pub write_part-is_above :
    (i : ℕ) (v : List ℕ) (m : Parts) (lo : ℕ)
    → is_above lo m ≡ true
    → lo ≤ i
    → is_above lo (write_part i v m) ≡ true
write_part-is_above i v [] lo h l = ground arith
write_part-is_above i v ((j, d) ∷ m) lo h l = elim (Bool-cases (ltb j i)) [
  | inl e ↦ ground (arith, write_part-is_above i v m (suc j) (ground arith) (ground arith))
  | inr f ↦ ground arith
]

pub find_part-write_part :
    (k i : ℕ) (v : List ℕ) (m : Parts)
    → find_part k (write_part i v m) ≡ (if i == k then some v else find_part k m)
find_part-write_part k i v [] = refl
find_part-write_part k i v ((j, d) ∷ m) = ground (arith, find_part-write_part k i v m)

-- Nothing is found below the first index.
pub find_part-below : (k lo : ℕ) (m : Parts) → is_above lo m ≡ true → k < lo → find_part k m ≡ none
find_part-below k lo [] h l = refl
find_part-below k lo ((j, d) ∷ m) h l =
    ground (arith, find_part-below k (suc j) m (ground arith) (ground arith))

not_above :
    (i lo j : ℕ) (d : List ℕ) (m : Parts)
    → is_above lo ((j, d) ∷ m) ≡ true
    → i ≢ j
    → find_part i ((j, d) ∷ m) ≡ find_part i m
not_above i lo j d m h n = ground (arith, n)

starts_at :
    (lo j : ℕ) (d e : List ℕ) (m : Parts)
    → is_above lo ((j, d) ∷ m) ≡ true
    → find_part lo ((j, d) ∷ m) ≡ some e
    → j ≡ lo
starts_at lo j d e m h f = elim (Bool-cases (ltb lo j)) [
  | inl l ↦ ground (arith, find_part-below lo (suc j) m (ground arith) (ground arith))
  | inr g ↦ ground arith
]

-- An upload with exactly the chunks from `lo` to `lo + n` is counted as complete.
pub indexes_complete :
    (n lo : ℕ) (m : Parts)
    → is_above lo m ≡ true
    → ((i : ℕ) → lo ≤ i → i < lo + n → (d : List ℕ) × (find_part i m ≡ some d))
    → ((i : ℕ) → lo + n ≤ i → find_part i m ≡ none)
    → (length (indexes m) ≡ n) × (counts_from lo (indexes m) ≡ true)
unfolding counts_from
indexes_complete zero lo [] h f g = (refl, refl)
indexes_complete (suc n) lo [] h f g =
    let (d, e) = f lo (omega arith) (omega arith) in ground (arith, e)
indexes_complete zero lo ((j, d) ∷ m) h f g = ground (arith, g j (ground arith))
indexes_complete (suc n) lo ((j, d) ∷ m) h f g =
    let (b, e) = f lo (omega arith) (omega arith) in
    let at = starts_at lo j d b m h e in
    let (l, c) =
      indexes_complete n (suc lo) m (ground (arith, at))
        (λ i p q.
          let (b, e) = f i (omega arith) (omega arith) in
          (b, sym (not_above i lo j d m h (λ r. absurd (omega (arith, r, at)))) ∙ e))
        (λ i p.
          sym (not_above i lo j d m h (λ r. absurd (omega (arith, r, at)))) ∙ g i (omega arith)) in
    (omega (arith, l), ground (arith, at, c))
