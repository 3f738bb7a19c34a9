-- ===== src/Server/Storage/Finalize.antt =====
-- Chat-Server/storage/LocalFileStorage.cpp: what the result of `finalize` says of the stored object.
use xychat_project.Prelude.{
  ℕ, zero, suc, ◌+◌, ◌≡◌, ap, sym, ◌∙◌, true, false, Bool-cases, Option-cases, List, [], ◌++◌,
  length, some, inl, inr, arith, ◌≢◌, ◌⊎◌, append_assoc, right_unit, take, refl, ◌∷◌,
}
use xychat_project.Prelude.Assoc.{text_beq_iff}
use xychat_project.Prelude.Int.{ℤ, pos, pos_part, eq_int_iff}
use xychat_project.Server.Storage.{
  Storage, Io, stopped, written, finalized, read_chunk, assemble, publish, finalize,
  finalize_locked, is_finalized, blob_size, closed,
}

-- The bytes that `f` gives for `k` indexes from `i` on, joined.
unfoldable pub joined : (ℕ → List ℕ) → ℕ → ℕ → List ℕ
joined f zero i = []
joined f (suc k) i = f i ++ joined f k (i + 1)

take_all : (out : List ℕ) → take (length out) out ≡ out
take_all [] = refl
take_all (x ∷ xs) = ap (◌∷◌ x) (take_all xs)

pub closed_lem : (io : Io) (out : List ℕ) → io.lost_at_close ≡ 0 → closed io out ≡ out
closed_lem io out c = ap (λ n. take n out) (omega (arith, c)) ∙ take_all out

module _ (sha256 : List ℕ → List ℕ) (io : Io) (s : Storage) (key : List ℕ) (cipher chunk count : ℤ)
    (sha : List ℕ) where
  pub assemble-written :
      (k i : ℕ) (out o : List ℕ)
      → assemble io s key cipher chunk count k i out ≡ written o
      → o ≡ out ++ joined (λ j. read_chunk io s key (pos j)) k i
  unfolding assemble joined
  assemble-written zero i out o h = ground (arith, right_unit out)
  assemble-written (suc k) i out o h =
      let bytes = read_chunk io s key (pos i) in
      ground (
        arith,
        assemble-written k (i + 1) (out ++ bytes) o,
        append_assoc out bytes (joined (λ j. read_chunk io s key (pos j)) k (i + 1)),
      )

  -- On success, the object is there.
  publish-finalized :
      (out : List ℕ)
      → io.lost_at_close ≡ 0
      → (publish sha256 io s key cipher sha out).1 ≡ finalized
      → (((publish sha256 io s key cipher sha out).0 key).object ≡ some out)
        × (pos (length out) ≡ cipher)
        × (sha256 out ≡ sha)
  unfolding publish
  publish-finalized out c h = ground (
    arith,
    closed_lem io out c,
    eq_int_iff (pos (length out)) cipher,
    text_beq_iff (sha256 out) sha,
    text_beq_iff key key,
  )

  assemble-stopped :
      (k i : ℕ) (out : List ℕ) → assemble io s key cipher chunk count k i out ≢ stopped finalized
  unfolding assemble
  assemble-stopped zero i out h = ground (arith, h)
  assemble-stopped (suc k) i out h =
      ground (arith, h, assemble-stopped k (i + 1) (out ++ read_chunk io s key (pos i)))

  already :
      is_finalized s key ≡ true
      → (finalize sha256 io s key cipher chunk count sha).1 ≡ finalized
      → (o : List ℕ) × (((finalize sha256 io s key cipher chunk count sha).0 key).object ≡ some o)
        × (pos (length o) ≡ cipher)
  unfolding finalize finalize_locked is_finalized blob_size
  already f h = elim (Option-cases (s key).object) [
    | inl e ↦ ground (arith, e)
    | inr (o, e) ↦ (o, ground (arith, e), ground (arith, e, eq_int_iff (pos (length o)) cipher))
  ]

  -- The only other way to succeed is through the assembly.
  through :
      is_finalized s key ≡ false
      → (finalize sha256 io s key cipher chunk count sha).1 ≡ finalized
      → (o : List ℕ) × (assemble io s key cipher chunk count (pos_part count) 0 [] ≡ written o)
        × (finalize sha256 io s key cipher chunk count sha ≡ publish sha256 io s key cipher sha o)
  unfolding finalize finalize_locked
  through f h = ground (arith, assemble-stopped (pos_part count) 0 [])

  -- Where closing the temporary file writes all buffered bytes, a `finalize` that succeeds has an
  -- object of exactly the declared size; and unless it was there before, it is the received chunks
  -- from 0 on, joined, and has the declared checksum.
  pub finalize-finalized :
      io.lost_at_close ≡ 0
      → (finalize sha256 io s key cipher chunk count sha).1 ≡ finalized
      → (o : List ℕ) × (((finalize sha256 io s key cipher chunk count sha).0 key).object ≡ some o)
        × (pos (length o) ≡ cipher)
        × ((is_finalized s key ≡ true)
            ⊎ ((sha256 o ≡ sha)
                × (o ≡ joined (λ j. read_chunk io s key (pos j)) (pos_part count) 0)))
  finalize-finalized c h = elim (Bool-cases (is_finalized s key)) [
    | inl f ↦ let (o, p, l) = already f h in (o, p, l, inl f)
    | inr f ↦
        let (o, w, e) = through f h in
        let (p, l, d) = publish-finalized o c (sym (ap (λ r. r.1) e) ∙ h) in
        (
          o,
          ap (λ r. (r.0 key).object) e ∙ p,
          l,
          inr (d, assemble-written (pos_part count) 0 [] o w),
        )
  ]

  -- Any other status leaves every object and every received chunk, of all keys, as they were.
  pub finalize_failure :
      (k : List ℕ)
      → (finalize sha256 io s key cipher chunk count sha).1 ≢ finalized
      → (((finalize sha256 io s key cipher chunk count sha).0 k).object ≡ (s k).object)
        × (((finalize sha256 io s key cipher chunk count sha).0 k).parts ≡ (s k).parts)
  unfolding finalize finalize_locked publish
  finalize_failure k h = ground (arith, text_beq_iff key k)
