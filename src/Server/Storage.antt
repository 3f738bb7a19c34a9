-- ===== src/Server/Storage.antt =====
-- Chat-Server/storage/LocalFileStorage.{h,cpp} and IObjectStorage.h: chunks of an upload, their
-- assembly into an object, and reading it. A blob's three places on disk are a record; the parts
-- directory lists its chunks in ascending order. Each call of the operating system that can fail
-- is a Boolean of `Io`. The stripe lock makes `finalize` and `remove` of one key one step each;
-- `putChunk` does not take it, so that a chunk that is written in the middle of an assembly of the
-- same key is not modelled.
pub mod Chunks
pub mod Finalize
pub mod Upload
pub mod Access
use xychat_project.Prelude.{
  ℕ, zero, suc, ◌+◌, ◌-◌, ◌≤◌, Bool, true, false, ◌||◌, ◌&&◌, not, List, [], ◌∷◌, ◌++◌, map, ltb,
  leb, ◌==◌, length, take, drop, min, Option, none, some, if◌then◌else◌,
}
use xychat_project.Prelude.Assoc.{text_beq}
use xychat_project.Prelude.Int.{ℤ, pos, negsuc, pos_part, leb_int, ltb_int, eq_int, minus_one}
use xychat_project.Protocol.FileProtocol.{
  max_chunk_count, is_chunking_valid, is_sha256_hex, is_hex_lower, expected_chunk_bytes,
}

abbrev pub blob_key_length : ℕ
blob_key_length = 32

abbrev pub max_chunk_index : ℕ
max_chunk_index = max_chunk_count - 1

-- The files `<index>.part` of one upload, ascending.
abbrev pub Parts : Type 0
Parts = List (ℕ × List ℕ)

abbrev pub find_part : ℕ → Parts → Option (List ℕ)
find_part i [] = none
find_part i ((j, d) ∷ m) = if j == i then some d else find_part i m

abbrev pub write_part : ℕ → List ℕ → Parts → Parts
write_part i v [] = (i, v) ∷ []
write_part i v ((j, d) ∷ m) =
    if j == i
    then (i, v) ∷ m
    else if ltb i j
    then (i, v) ∷ ((j, d) ∷ m)
    else (j, d) ∷ write_part i v m

abbrev pub indexes : Parts → List ℕ
indexes [] = []
indexes ((j, d) ∷ m) = j ∷ indexes m

-- `object` is the assembled file, `tmp_files` counts left-over temporary files.
pub record Blob : Type 0 where
  pub parts : Parts
  pub tmp_files : ℕ
  pub object : Option (List ℕ)

abbrev pub Storage : Type 0
Storage = List ℕ → Blob

abbrev pub no_blob : Blob
no_blob = record { parts = []; tmp_files = 0; object = none }

abbrev pub update : Storage → List ℕ → Blob → Storage
update s key b k = if text_beq key k then b else s k

unfoldable pub is_valid_blob_key : List ℕ → Bool
is_valid_blob_key key = (length key == blob_key_length) && is_hex_lower key

-- `generateRandomBytes` and `toHex` gave `random`; an empty key stands for failure.
unfoldable pub allocate_blob_key : Option (List ℕ) → List ℕ
allocate_blob_key none = []
allocate_blob_key (some hex) = if is_valid_blob_key hex then hex else []

-- `index < 0 || index > MaxChunkIndex`.
abbrev pub is_bad_index : ℤ → Bool
is_bad_index i = ltb_int i (pos 0) || ltb_int (pos max_chunk_index) i

abbrev pub is_empty : List ℕ → Bool
is_empty [] = true
is_empty (b ∷ bs) = false

pub data FinalizeStatus : Type 0 where
  finalized invalid_arguments incomplete chunk_size_mismatch checksum_mismatch storage_error :
      FinalizeStatus

-- Which calls of the operating system succeed. `remove_parts` holds also where the directory is
-- not there; a directory that cannot be removed keeps all its files. `lost_at_close` is how many
-- buffered bytes at the end `close` fails to write, which it does not report.
pub record Io : Type 0 where
  pub make_dir : Bool
  pub save_part : Bool
  pub tmp_name : Bool
  pub open_tmp : Bool
  pub read_part : ℕ → Bool
  pub write_tmp : ℕ → Bool
  pub lost_at_close : ℕ
  pub remove_tmp : Bool
  pub make_blob_dir : Bool
  pub rename : Bool
  pub remove_parts : Bool
  pub remove_object : Bool
  pub read_object : Bool

unfoldable pub put_chunk : Io → Storage → List ℕ → ℤ → List ℕ → Storage × Bool
put_chunk io s key index bytes =
    if not (is_valid_blob_key key) || (is_bad_index index || is_empty bytes)
    then (s, false)
    else if not io.make_dir
    then (s, false)
    else if not io.save_part
    then (s, false)
    else (
      update s key (record (s key) { parts = write_part (pos_part index) bytes (s key).parts }),
      true,
    )

unfoldable pub received_chunks : Storage → List ℕ → List ℕ
received_chunks s key = if not (is_valid_blob_key key) then [] else indexes (s key).parts

abbrev pub read_found : Bool → Option (List ℕ) → List ℕ
read_found works none = []
read_found works (some d) = if works then d else []

unfoldable pub read_chunk : Io → Storage → List ℕ → ℤ → List ℕ
read_chunk io s key index =
    if not (is_valid_blob_key key) || is_bad_index index
    then []
    else read_found (io.read_part (pos_part index)) (find_part (pos_part index) (s key).parts)

unfoldable pub is_finalized : Storage → List ℕ → Bool
is_finalized s key = is_valid_blob_key key && (elim (s key).object [ none ↦ false | some o ↦ true ])

unfoldable pub blob_size : Storage → List ℕ → ℤ
blob_size s key =
    if not (is_finalized s key)
    then minus_one
    else elim (s key).object [ none ↦ minus_one | some o ↦ pos (length o) ]

-- `received.at(i) != i` for no `i`, from `i` on.
unfoldable pub counts_from : ℕ → List ℕ → Bool
counts_from i [] = true
counts_from i (j ∷ js) = if j == i then counts_from (i + 1) js else false

pub data Assembly : Type 0 where
  stopped : FinalizeStatus → Assembly
  written : List ℕ → Assembly

-- The assembly loop over the chunks from `i` on, `k` of them; `out` is what was written so far.
unfoldable pub assemble : Io → Storage → List ℕ → ℤ → ℤ → ℤ → ℕ → ℕ → List ℕ → Assembly
assemble io s key cipher chunk count zero i out = written out
assemble io s key cipher chunk count (suc k) i out =
    let bytes = read_chunk io s key (pos i) in
    let expected = expected_chunk_bytes cipher chunk count (pos i) in
    let rest = assemble io s key cipher chunk count k (i + 1) (out ++ bytes) in
    if not (eq_int (pos (length bytes)) expected)
    then stopped chunk_size_mismatch
    else if not (io.write_tmp i)
    then stopped storage_error
    else rest

-- After a failure the temporary file is removed, if that works.
abbrev pub drop_tmp : Io → Blob → Blob
drop_tmp io b = if io.remove_tmp then b else record b { tmp_files = b.tmp_files + 1 }

-- What the closed temporary file holds.
abbrev pub closed : Io → List ℕ → List ℕ
closed io out = take (length out - io.lost_at_close) out

-- From the closed temporary file to the final object; size and digest are of what was written.
-- `sha256` is the lower-case hex digest.
unfoldable pub publish :
    (List ℕ → List ℕ) → Io → Storage → List ℕ → ℤ → List ℕ → List ℕ → Storage × FinalizeStatus
publish sha256 io s key cipher expected_sha out =
    let failed = update s key (drop_tmp io (s key)) in
    if not (eq_int (pos (length out)) cipher)
    then (failed, chunk_size_mismatch)
    else if not (text_beq (sha256 out) expected_sha)
    then (failed, checksum_mismatch)
    else if not io.make_blob_dir
    then (failed, storage_error)
    else if not io.rename
    then (failed, storage_error)
    else (
      update s key (record (s key) {
        object = some (closed io out);
        parts = if io.remove_parts then [] else (s key).parts;
      }),
      finalized,
    )

abbrev pub after_assembly :
    (List ℕ → List ℕ) → Io → Storage → List ℕ → ℤ → List ℕ → Assembly → Storage × FinalizeStatus
after_assembly sha256 io s key cipher expected_sha (stopped e) =
    (update s key (drop_tmp io (s key)), e)
after_assembly sha256 io s key cipher expected_sha (written out) =
    publish sha256 io s key cipher expected_sha out

-- The part of `finalize` under the stripe lock.
unfoldable pub finalize_locked :
    (List ℕ → List ℕ) → Io → Storage → List ℕ → ℤ → ℤ → ℤ → List ℕ → Storage × FinalizeStatus
finalize_locked sha256 io s key cipher chunk count expected_sha =
    if is_finalized s key
    then (s, if eq_int (blob_size s key) cipher then finalized else checksum_mismatch)
    else if not (length (received_chunks s key) == pos_part count)
    then (s, incomplete)
    else if not (counts_from 0 (received_chunks s key))
    then (s, incomplete)
    else if not io.make_dir
    then (s, storage_error)
    else if not io.tmp_name
    then (s, storage_error)
    else if not io.open_tmp
    then (s, storage_error)
    else after_assembly sha256 io s key cipher expected_sha
        (assemble io s key cipher chunk count (pos_part count) 0 [])

unfoldable pub finalize :
    (List ℕ → List ℕ) → Io → Storage → List ℕ → ℤ → ℤ → ℤ → List ℕ → Storage × FinalizeStatus
finalize sha256 io s key cipher chunk count expected_sha =
    if not (is_valid_blob_key key)
    then (s, invalid_arguments)
    else if not (is_chunking_valid cipher chunk count)
    then (s, invalid_arguments)
    else if not (is_sha256_hex expected_sha)
    then (s, invalid_arguments)
    else finalize_locked sha256 io s key cipher chunk count expected_sha

abbrev pub object_bytes : Blob → List ℕ
object_bytes b = elim b.object [ none ↦ [] | some o ↦ o ]

-- `readRange`: a range that reaches past the end is cut to what there is.
unfoldable pub read_range : Io → Storage → List ℕ → ℤ → ℤ → List ℕ
read_range io s key offset count =
    if not (is_finalized s key) || (ltb_int offset (pos 0) || leb_int count (pos 0))
    then []
    else if not io.read_object
    then []
    else let bytes = object_bytes (s key) in
      if leb (length bytes) (pos_part offset)
      then []
      else take (min (pos_part count) (length bytes - pos_part offset))
          (drop (pos_part offset) bytes)

-- `remove`: parts, temporary files and the object; false if any of them stays.
unfoldable pub remove : Io → Storage → List ℕ → Storage × Bool
remove io s key =
    if not (is_valid_blob_key key)
    then (s, false)
    else let b = s key in
      let tmp_gone = io.remove_tmp || (b.tmp_files == 0) in
      let object_gone = io.remove_object || not (is_finalized s key) in
      (
        update s key (record {
          parts = if io.remove_parts then [] else b.parts;
          tmp_files = if io.remove_tmp then 0 else b.tmp_files;
          object = if io.remove_object then none else b.object;
        }),
        io.remove_parts && (tmp_gone && object_gone),
      )
