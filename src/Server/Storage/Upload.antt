-- ===== src/Server/Storage/Upload.antt =====
-- Chat-Server/storage/LocalFileStorage.cpp: from the first chunk to the finished object.
use xychat_project.Prelude.{
  ℕ, zero, suc, ◌+◌, ◌≤◌, ◌<◌, ◌≡◌, refl, ap, sym, ◌∙◌, Bool, true, false, List, [], ◌∷◌, ◌++◌,
  ◌==◌, length, Option, none, some, if◌then◌else◌, arith, length-append, append_assoc, right_unit,
  All,
}
use xychat_project.Prelude.Assoc.{text_beq_iff}
use xychat_project.Prelude.Int.{ℤ, pos, pos_part, eq_int_iff}
use xychat_project.Protocol.FileProtocol.{
  expected_chunk_bytes, is_chunking_valid, is_sha256_hex, max_chunk_count,
}
use xychat_project.Protocol.FileProtocol.Chunks.{
  expected_chunk_bytes_bounds, bytes_before, chunks_tile, IsLayout-of_valid,
}
use xychat_project.Server.Storage.{
  Storage, Io, written, finalized, read_chunk, assemble, publish, put_chunk, finalize,
  finalize_locked, is_valid_blob_key, is_finalized, received_chunks, counts_from, no_blob, is_empty,
  find_part, write_part, indexes,
}
use xychat_project.Server.Storage.Chunks.{
  is_above, write_part-is_above, find_part-write_part, indexes_complete,
}
use xychat_project.Server.Storage.Finalize.{joined, closed_lem}

-- Every call of the operating system succeeds.
abbrev pub working : Io
working = record {
  make_dir = true;
  save_part = true;
  tmp_name = true;
  open_tmp = true;
  read_part = λ i. true;
  write_tmp = λ i. true;
  lost_at_close = 0;
  remove_tmp = true;
  make_blob_dir = true;
  rename = true;
  remove_parts = true;
  remove_object = true;
  read_object = true;
}

abbrev pub contains : ℕ → List ℕ → Bool
contains i [] = false
contains i (j ∷ js) = if j == i then true else contains i js

-- A client that puts the chunks of `bytes` in the order of `order`, which may repeat an index.
unfoldable pub upload : List ℕ → (ℕ → List ℕ) → List ℕ → Storage → Storage
upload key bytes [] s = s
upload key bytes (i ∷ is) s = upload key bytes is (put_chunk working s key (pos i) (bytes i)).0

module _ (key : List ℕ) (bytes : ℕ → List ℕ) (valid : is_valid_blob_key key ≡ true) where
  put-parts :
      (s : Storage) (i : ℕ)
      → i < max_chunk_count
      → is_empty (bytes i) ≡ false
      → (((put_chunk working s key (pos i) (bytes i)).0 key).parts
          ≡ write_part i (bytes i) (s key).parts)
        × (((put_chunk working s key (pos i) (bytes i)).0 key).object ≡ (s key).object)
  unfolding put_chunk
  put-parts s i h e = ground (arith, text_beq_iff key key)

  put_found :
      (k i : ℕ) (is : List ℕ) (s : Storage) {r : Option (List ℕ)}
      → r ≡ (
          if contains k is
          then some (bytes k)
          else find_part k ((put_chunk working s key (pos i) (bytes i)).0 key).parts)
      → ((put_chunk working s key (pos i) (bytes i)).0 key).parts
        ≡ write_part i (bytes i) (s key).parts
      → r ≡ (if contains k (i ∷ is) then some (bytes k) else find_part k (s key).parts)
  put_found k i is s f p =
      f
      ∙ ap (λ q. if contains k is then some (bytes k) else find_part k q) p
      ∙ ground (arith, find_part-write_part k i (bytes i) (s key).parts)

  upload-parts :
      (order : List ℕ) (s : Storage)
      → All (λ i. i < max_chunk_count) order
      → All (λ i. is_empty (bytes i) ≡ false) order
      → is_above 0 (s key).parts ≡ true
      → (is_above 0 (upload key bytes order s key).parts ≡ true)
        × ((upload key bytes order s key).object ≡ (s key).object)
        × ((k : ℕ)
            → find_part k (upload key bytes order s key).parts
              ≡ (if contains k order then some (bytes k) else find_part k (s key).parts))
  unfolding upload
  upload-parts [] s h e a = (a, refl, λ k. refl)
  upload-parts (i ∷ is) s (h, hs) (e, es) a =
      let (p, o) = put-parts s i h e in
      let above : is_above 0 ((put_chunk working s key (pos i) (bytes i)).0 key).parts ≡ true =
        rw p (write_part-is_above i (bytes i) (s key).parts 0 a (omega arith)) in
      let (b, q, f) = upload-parts is (put_chunk working s key (pos i) (bytes i)).0 hs es above in
      (b, q ∙ o, λ k. put_found k i is s (f k) p)

module _ (s : Storage) (key : List ℕ) (bytes : ℕ → List ℕ) (cipher chunk count : ℤ) where
  -- The assembly of chunks that are all there, with the sizes of the layout.
  assemble_all :
      (k i : ℕ) (out : List ℕ)
      → ((j : ℕ) → i ≤ j → j < i + k → read_chunk working s key (pos j) ≡ bytes j)
      → ((j : ℕ)
          → i ≤ j
          → j < i + k
          → expected_chunk_bytes cipher chunk count (pos j) ≡ pos (length (bytes j)))
      → assemble working s key cipher chunk count k i out ≡ written (out ++ joined bytes k i)
  unfolding assemble joined
  assemble_all zero i out r l = rw (right_unit out)
  assemble_all (suc k) i out r l = ground (
    arith,
    r i,
    l i,
    eq_int_iff (pos (length (bytes i))) (expected_chunk_bytes cipher chunk count (pos i)),
    append_assoc out (bytes i) (joined bytes k (i + 1)),
    assemble_all k (i + 1) (out ++ bytes i) (λ j p q. r j (omega arith) (omega arith))
        (λ j p q. l j (omega arith) (omega arith)),
  )

module _ (bytes : ℕ → List ℕ) (cipher chunk count : ℤ) where
  length-joined :
      (k i : ℕ)
      → ((j : ℕ)
          → i ≤ j
          → j < i + k
          → expected_chunk_bytes cipher chunk count (pos j) ≡ pos (length (bytes j)))
      → bytes_before cipher chunk count i + length (joined bytes k i)
        ≡ bytes_before cipher chunk count (i + k)
  unfolding joined bytes_before
  length-joined zero i l =
      let same : bytes_before cipher chunk count i + 0 ≡ bytes_before cipher chunk count i =
        omega arith in
      same ∙ ap (bytes_before cipher chunk count) (omega arith)
  length-joined (suc k) i l = ground (
    arith,
    l i,
    length-append (bytes i) (joined bytes k (i + 1)),
    length-joined k (i + 1) (λ j p q. l j (omega arith) (omega arith)),
  )

sum_start : (cipher chunk count : ℤ) (l : ℕ) → l ≡ bytes_before cipher chunk count 0 + l
unfolding bytes_before
sum_start cipher chunk count l = omega arith

not_empty : (l : List ℕ) (k : ℕ) → pos (length l) ≡ pos k → 0 < k → is_empty l ≡ false
not_empty [] k e h = ground (arith, e)
not_empty (x ∷ l) k e h = refl

layout_facts :
    (bytes : ℕ → List ℕ) (cipher chunk : ℤ) (n : ℕ)
    → is_chunking_valid cipher chunk (pos n) ≡ true
    → ((i : ℕ) → i < n → pos (length (bytes i)) ≡ expected_chunk_bytes cipher chunk (pos n) (pos i))
    → (pos (length (joined bytes n 0)) ≡ cipher)
      × (n ≤ max_chunk_count)
      × ((i : ℕ) → i < n → is_empty (bytes i) ≡ false)
layout_facts bytes cipher chunk n v sizes =
    let (c, w, m, ec, ew, en, l) = IsLayout-of_valid cipher chunk (pos n) v in
    let (lengths, total) = chunks_tile cipher chunk (pos n) v in
    let sum = length-joined bytes cipher chunk (pos n) n 0 (λ j p q. sym (sizes j (omega arith))) in
    let start : length (joined bytes n 0)
        ≡ bytes_before cipher chunk (pos n) 0 + length (joined bytes n 0) =
      sum_start cipher chunk (pos n) (length (joined bytes n 0)) in
    let whole : 0 + n ≡ n = omega arith in
    (
      ap pos (start ∙ sum ∙ ap (bytes_before cipher chunk (pos n)) whole ∙ total)
          ∙ ap (λ z. pos (pos_part z)) ec
          ∙ sym ec,
      ground (arith, en, l.count_max),
      λ i h.
          let (k, e, p, q) = (expected_chunk_bytes_bounds cipher chunk (pos n) i v).0 h in
          not_empty (bytes i) k (sizes i h ∙ e) p,
    )

within_layout :
    (bytes : ℕ → List ℕ) (n : ℕ) (order : List ℕ)
    → n ≤ max_chunk_count
    → ((i : ℕ) → i < n → is_empty (bytes i) ≡ false)
    → All (λ i. i < n) order
    → All (λ i. i < max_chunk_count) order × All (λ i. is_empty (bytes i) ≡ false) order
within_layout bytes n [] m f a = (tt, tt)
within_layout bytes n (i ∷ is) m f (a, b) =
    let (p, q) = within_layout bytes n is m f b in ((omega arith, p), (f i a, q))

outside : (i n : ℕ) (order : List ℕ) → All (λ i. i < n) order → n ≤ i → contains i order ≡ false
outside i n [] a h = refl
outside i n (j ∷ js) (a, b) h = ground (arith, outside i n js b h)

read-found :
    (t : Storage) (key : List ℕ) (bytes : ℕ → List ℕ) (j : ℕ)
    → is_valid_blob_key key ≡ true
    → j < max_chunk_count
    → find_part j (t key).parts ≡ some (bytes j)
    → read_chunk working t key (pos j) ≡ bytes j
unfolding read_chunk
read-found t key bytes j v h f = ground (arith, f)

finalize_complete :
    (sha256 : List ℕ → List ℕ) (t : Storage) (key : List ℕ) (cipher chunk : ℤ) (n : ℕ)
    (out : List ℕ)
    → is_valid_blob_key key ≡ true
    → is_chunking_valid cipher chunk (pos n) ≡ true
    → is_sha256_hex (sha256 out) ≡ true
    → (t key).object ≡ none
    → length (indexes (t key).parts) ≡ n
    → counts_from 0 (indexes (t key).parts) ≡ true
    → assemble working t key cipher chunk (pos n) n 0 [] ≡ written out
    → pos (length out) ≡ cipher
    → let r = finalize sha256 working t key cipher chunk (pos n) (sha256 out) in
      (r.1 ≡ finalized) × ((r.0 key).object ≡ some out) × ((r.0 key).parts ≡ [])
unfolding finalize finalize_locked publish received_chunks is_finalized
finalize_complete sha256 t key cipher chunk n out v l h o c r w e = ground (
  arith,
  closed_lem working out,
  v,
  l,
  h,
  o,
  c,
  r,
  w,
  e,
  text_beq_iff key key,
  text_beq_iff (sha256 out) (sha256 out),
  eq_int_iff (pos (length out)) cipher,
)

-- Chunks of the sizes of a valid layout, uploaded in any order and with repeats, every one at
-- least once, to a valid key without data, with every call of the operating system working:
-- `finalize` with the well-formed checksum of the whole succeeds, the object is the chunks joined
-- in the order of their indexes, and no chunks remain.
pub finalize-upload :
    (sha256 : List ℕ → List ℕ) (s : Storage) (key : List ℕ) (bytes : ℕ → List ℕ) (order : List ℕ)
    (cipher chunk : ℤ) (n : ℕ)
    → is_valid_blob_key key ≡ true
    → s key ≡ no_blob
    → is_chunking_valid cipher chunk (pos n) ≡ true
    → is_sha256_hex (sha256 (joined bytes n 0)) ≡ true
    → ((i : ℕ) → i < n → pos (length (bytes i)) ≡ expected_chunk_bytes cipher chunk (pos n) (pos i))
    → All (λ i. i < n) order
    → ((i : ℕ) → i < n → contains i order ≡ true)
    → let r =
        finalize sha256 working
          (upload key bytes order s)
          key
          cipher
          chunk
          (pos n)
          (sha256 (joined bytes n 0)) in
      (r.1 ≡ finalized) × ((r.0 key).object ≡ some (joined bytes n 0)) × ((r.0 key).parts ≡ [])
finalize-upload sha256 s key bytes order cipher chunk n valid fresh layout hex sizes within all =
    let (e, m, b) = layout_facts bytes cipher chunk n layout sizes in
    let (small, full) = within_layout bytes n order m b within in
    let (above, none_yet, found) =
      upload-parts key bytes valid order s small full (rw fresh refl) in
    let find_all : (i : ℕ)
        → find_part i (upload key bytes order s key).parts
          ≡ (if contains i order then some (bytes i) else none) =
      λ i.
        found i
        ∙ ap (λ q. if contains i order then some (bytes i) else find_part i q.parts) fresh in
    let (count, row) =
      indexes_complete n 0 (upload key bytes order s key).parts above
        (λ i p q. (bytes i, ground (arith, find_all i, all i)))
        (λ i p. find_all i ∙ rw (outside i n order within (omega arith))) in
    let read = λ (j : ℕ) (p : 0 ≤ j) (q : j < 0 + n).
      read-found (upload key bytes order s) key bytes j valid (omega arith)
        (find_all j ∙ rw (all j (omega arith))) in
    finalize_complete sha256 (upload key bytes order s) key cipher chunk n (joined bytes n 0) valid
      layout hex (none_yet ∙ ap (λ q. q.object) fresh) count row
      (assemble_all (upload key bytes order s) key bytes cipher chunk (pos n) n 0 [] read
        (λ j p q. sym (sizes j (omega arith))))
      e
