-- ===== src/Server/Storage/Access.antt =====
-- Chat-Server/storage/LocalFileStorage.cpp: reading an object by ranges, and the independence of keys.
use xychat_project.Prelude.{
  ℕ, zero, suc, ◌+◌, ◌-◌, ◌≤◌, ◌<◌, ◌≡◌, refl, ap, sym, ◌∙◌, true, Bool-cases, List, [], ◌∷◌, ◌++◌,
  ◌==◌, length, if◌then◌else◌, inl, inr, arith, ◌≢◌, leb, take, drop, min, length-drop,
}
use xychat_project.Prelude.Assoc.{text_beq_iff}
use xychat_project.Prelude.Int.{ℤ, pos, pos_part}
use xychat_project.Server.Storage.{
  Storage, Io, put_chunk, finalize, finalize_locked, publish, remove, read_range, object_bytes,
  is_finalized, read_chunk, is_bad_index,
}
use xychat_project.Server.Storage.Chunks.{find_part-write_part}

-- The operations on one key leave the chunks, the object and the temporary files of every other
-- key as they were, whatever fails.
pub other_keys :
    (sha256 : List ℕ → List ℕ) (io : Io) (s : Storage) (key k bytes sha : List ℕ)
    (index cipher chunk count : ℤ)
    → key ≢ k
    → ((put_chunk io s key index bytes).0 k ≡ s k)
      × ((finalize sha256 io s key cipher chunk count sha).0 k ≡ s k)
      × ((remove io s key).0 k ≡ s k)
unfolding put_chunk finalize finalize_locked publish remove
other_keys sha256 io s key k bytes sha index cipher chunk count n = (
  ground (arith, n, text_beq_iff key k),
  ground (arith, n, text_beq_iff key k),
  ground (arith, n, text_beq_iff key k),
)

take_none : (n : ℕ) → take {A = ℕ} n [] ≡ []
take_none zero = refl
take_none (suc n) = refl

drop_none : (n : ℕ) → drop {A = ℕ} n [] ≡ []
drop_none zero = refl
drop_none (suc n) = refl

suc_add : (m n : ℕ) → suc (m + n) ≡ suc m + n
suc_add m n = omega arith

take-add : (m n : ℕ) (xs : List ℕ) → take m xs ++ take n (drop m xs) ≡ take (m + n) xs
take-add zero n xs = ground arith
take-add (suc m) n [] = take_none n ∙ sym (take_none (suc m + n))
take-add (suc m) n (x ∷ xs) = ap (◌∷◌ x) (take-add m n xs) ∙ ap (λ k. take k (x ∷ xs)) (suc_add m n)

drop-add : (m n : ℕ) (xs : List ℕ) → drop n (drop m xs) ≡ drop (m + n) xs
drop-add zero n xs = ground arith
drop-add (suc m) n [] = drop_none n ∙ sym (drop_none (suc m + n))
drop-add (suc m) n (x ∷ xs) = drop-add m n xs ∙ ap (λ k. drop k (x ∷ xs)) (suc_add m n)

take-min : (n : ℕ) (xs : List ℕ) → take (min n (length xs)) xs ≡ take n xs
take-min zero xs = ground arith
take-min (suc n) [] = ground arith
take-min (suc n) (x ∷ xs) = ground (arith, take-min n xs)

-- A chunk that was stored is what is read back, until it is stored again.
pub read-put_chunk :
    (io : Io) (s : Storage) (key bytes : List ℕ) (index j : ℤ)
    → (put_chunk io s key index bytes).1 ≡ true
    → io.read_part (pos_part j) ≡ true
    → read_chunk io (put_chunk io s key index bytes).0 key j ≡ (
        if is_bad_index j
        then []
        else if pos_part index == pos_part j
        then bytes
        else read_chunk io s key j)
unfolding put_chunk read_chunk
read-put_chunk io s key bytes index j h r = ground (
  arith,
  h,
  r,
  text_beq_iff key key,
  find_part-write_part (pos_part j) (pos_part index) bytes (s key).parts,
)

past_end : (a : ℕ) (xs : List ℕ) → length xs ≤ a → drop a xs ≡ []
past_end zero [] h = refl
past_end zero (x ∷ xs) h = absurd (omega arith)
past_end (suc a) [] h = refl
past_end (suc a) (x ∷ xs) h = past_end a xs (omega arith)

cut_at_end : (a n : ℕ) (xs : List ℕ) → take (min n (length xs - a)) (drop a xs) ≡ take n (drop a xs)
cut_at_end a n xs =
    ap (λ l. take (min n l) (drop a xs)) (sym (length-drop a xs)) ∙ take-min n (drop a xs)

-- A range of a stored object, cut at its end.
pub read_range-slice :
    (io : Io) (s : Storage) (key : List ℕ) (a n : ℕ)
    → is_finalized s key ≡ true
    → io.read_object ≡ true
    → 0 < n
    → read_range io s key (pos a) (pos n) ≡ take n (drop a (object_bytes (s key)))
unfolding read_range
read_range-slice io s key a n f r h = elim (Bool-cases (leb (length (object_bytes (s key))) a)) [
  | inl e ↦ ground (arith, f, r, e, past_end a (object_bytes (s key)), take_none n)
  | inr e ↦ ground (arith, f, r, e, cut_at_end a n (object_bytes (s key)))
]

-- Two reads of adjacent ranges of a stored object are the read of the whole range, also where
-- one or both reach past the end.
pub read_range-adjacent :
    (io : Io) (s : Storage) (key : List ℕ) (a m n : ℕ)
    → is_finalized s key ≡ true
    → io.read_object ≡ true
    → 0 < m
    → 0 < n
    → read_range io s key (pos a) (pos m) ++ read_range io s key (pos (a + m)) (pos n)
      ≡ read_range io s key (pos a) (pos (m + n))
read_range-adjacent io s key a m n f r h₁ h₂ =
    let b = object_bytes (s key) in
    rw
      (
        read_range-slice io s key a m f r h₁,
        read_range-slice io s key (a + m) n f r h₂,
        read_range-slice io s key a (m + n) f r (omega arith),
        sym (drop-add a m b),
      )
      (take-add m n (drop a b))
