-- ===== src/Protocol/FileProtocol/Chunks.antt =====
-- The chunk layout: chunks tile the file, and the two ways to count them agree.
use native.Mathlib.Nat.{div-add-mod', mod-lt}
use xychat_project.Prelude.{
  ℕ, zero, suc, ◌+◌, ◌-◌, ◌*◌, ◌/◌, ◌≤◌, ◌<◌, ◌≡◌, ◌↔◌, refl, ap, true, ltb, arith, if◌then◌else◌,
}
use xychat_project.Prelude.Int.{ℤ, pos, negsuc, pos_part, minus_one}
use xychat_project.Protocol.FileProtocol.{
  min_chunk_size, max_chunk_size, max_file_size, max_chunk_count, chunk_count_for,
  is_chunking_valid, expected_chunk_bytes,
}

less_one : (q s : ℕ) → 0 < q → (q - 1) * s + s ≡ q * s
less_one zero s h = absurd (omega arith)
less_one (suc q) s h = let e : suc q - 1 ≡ q = omega arith in rw e (omega arith)

ceil_pos : (c s : ℕ) → 0 < c → 0 < s → 0 < (c + s - 1) / s
ceil_pos c s h k = grind (arith, div-add-mod' (c + s - 1) s, mod-lt (c + s - 1) k)

ceil_bounds : (c s q : ℕ) → 0 < c → 0 < s → q ≡ (c + s - 1) / s → ((q - 1) * s < c) × (c ≤ q * s)
ceil_bounds c s q h k e = omega (
  arith,
  less_one q s (omega (arith, ceil_pos c s h k)),
  ap (λ (x : ℕ). x * s) e,
  div-add-mod' (c + s - 1) s,
  mod-lt (c + s - 1) k,
)

-- What the server accepts as a layout, in numbers.
pub record IsLayout (c s n : ℕ) : Type 0 where
  pub some_bytes : 0 < c
  pub size_bounded : c ≤ max_file_size
  pub chunk_min : min_chunk_size ≤ s
  pub chunk_max : s ≤ max_chunk_size
  pub count_pos : 0 < n
  pub count_max : n ≤ max_chunk_count
  pub covers : c ≤ n * s
  pub last_used : (n - 1) * s < c

pub IsLayout-of_valid :
    (cipher chunk count : ℤ)
    → is_chunking_valid cipher chunk count ≡ true
    → (c : ℕ) × (s : ℕ) × (n : ℕ) × (cipher ≡ pos c)
      × (chunk ≡ pos s)
      × (count ≡ pos n)
      × IsLayout c s n
unfolding is_chunking_valid chunk_count_for
IsLayout-of_valid (negsuc c) chunk count e = cc
IsLayout-of_valid (pos c) (negsuc s) count e = ground arith
IsLayout-of_valid (pos c) (pos s) (negsuc n) e = ground arith
IsLayout-of_valid (pos c) (pos s) (pos n) e =
    (c, s, n, refl, refl, refl, ground (arith, ceil_bounds c s n))

-- The length of chunk `i`, in numbers.
abbrev pub chunk_bytes : ℕ → ℕ → ℕ → ℕ → ℕ
chunk_bytes c s n i = if ltb (i + 1) n then s else c - (n - 1) * s

expected-chunk_bytes :
    (c s n i : ℕ)
    → is_chunking_valid (pos c) (pos s) (pos n) ≡ true
    → IsLayout c s n
    → i < n
    → expected_chunk_bytes (pos c) (pos s) (pos n) (pos i) ≡ pos (chunk_bytes c s n i)
unfolding expected_chunk_bytes
expected-chunk_bytes c s n i v l h = ground arith

chunk_bytes_bounds :
    (c s n i : ℕ) → IsLayout c s n → i < n → (0 < chunk_bytes c s n i) × (chunk_bytes c s n i ≤ s)
chunk_bytes_bounds c s n i l h = ground (arith, less_one n s l.count_pos)

-- The server accepts a chunk index exactly within the declared count, and every accepted chunk has
-- between one byte and the chunk size; any other index is answered by -1.
pub expected_chunk_bytes_bounds :
    (cipher chunk count : ℤ) (i : ℕ)
    → is_chunking_valid cipher chunk count ≡ true
    → (i < pos_part count
        → (b : ℕ) × (expected_chunk_bytes cipher chunk count (pos i) ≡ pos b)
          × (0 < b)
          × (b ≤ pos_part chunk))
      × (pos_part count ≤ i → expected_chunk_bytes cipher chunk count (pos i) ≡ minus_one)
expected_chunk_bytes_bounds cipher chunk count i v =
    let (c, s, n, ec, es, en, l) = IsLayout-of_valid cipher chunk count v in
    rw (ec, es, en)
      (
        λ h. (
          chunk_bytes c s n i,
          expected-chunk_bytes c s n i (rw (ec, es, en) at v) l h,
          (chunk_bytes_bounds c s n i l h).0,
          (chunk_bytes_bounds c s n i l h).1,
        ),
        λ h. unfold expected_chunk_bytes in ground arith,
      )

-- The bytes of the first `k` chunks.
unfoldable pub bytes_before : ℤ → ℤ → ℤ → ℕ → ℕ
bytes_before cipher chunk count zero = 0
bytes_before cipher chunk count (suc k) =
    bytes_before cipher chunk count k + pos_part (expected_chunk_bytes cipher chunk count (pos k))

full_chunks :
    (c s n k : ℕ)
    → is_chunking_valid (pos c) (pos s) (pos n) ≡ true
    → IsLayout c s n
    → k < n
    → bytes_before (pos c) (pos s) (pos n) k ≡ k * s
unfolding bytes_before
full_chunks c s n zero v l h = omega arith
full_chunks c s n (suc k) v l h =
    ground
      (arith, full_chunks c s n k v l (omega arith), expected-chunk_bytes c s n k v l (omega arith))

all_chunks :
    (c s n : ℕ)
    → is_chunking_valid (pos c) (pos s) (pos n) ≡ true
    → IsLayout c s n
    → bytes_before (pos c) (pos s) (pos n) n ≡ c
unfolding bytes_before
all_chunks c s zero v l = absurd (omega arith)
all_chunks c s (suc k) v l = ground (
  arith,
  full_chunks c s (suc k) k v l (omega arith),
  expected-chunk_bytes c s (suc k) k v l (omega arith),
  chunk_bytes_bounds c s (suc k) k l (omega arith),
)

-- The chunks of an accepted layout tile the file: chunk `k` begins at `k` times the chunk size, and
-- all of them together have exactly the declared number of bytes.
pub chunks_tile :
    (cipher chunk count : ℤ)
    → is_chunking_valid cipher chunk count ≡ true
    → ((k : ℕ) → k < pos_part count → bytes_before cipher chunk count k ≡ k * pos_part chunk)
      × (bytes_before cipher chunk count (pos_part count) ≡ pos_part cipher)
chunks_tile cipher chunk count v =
    let (c, s, n, ec, es, en, l) = IsLayout-of_valid cipher chunk count v in
    rw (ec, es, en)
      (
        λ k h. full_chunks c s n k (rw (ec, es, en) at v) l h,
        all_chunks c s n (rw (ec, es, en) at v) l,
      )

-- The count that `chunkCountFor` computes is the one that `isChunkingValid` accepts: for sizes in
-- range it accepts that count unless it is above the limit, and no other.
pub chunk_count_for_unique :
    (c s n : ℕ)
    → 0 < c
    → c ≤ max_file_size
    → min_chunk_size ≤ s
    → s ≤ max_chunk_size
    → (is_chunking_valid (pos c) (pos s) (pos n) ≡ true)
      ↔ ((chunk_count_for (pos c) (pos s) ≡ n) × (n ≤ max_chunk_count))
unfolding is_chunking_valid chunk_count_for
chunk_count_for_unique c s n h₁ h₂ h₃ h₄ = ground (arith, ceil_pos c s)
