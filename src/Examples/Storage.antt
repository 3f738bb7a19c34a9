-- ===== src/Examples/Storage.antt =====
-- The chunk storage at concrete inputs: an upload of three bytes as one chunk.
use xychat_project.Prelude.{
  ℕ, ◌+◌, ◌%◌, ◌≡◌, ◌⊎◌, refl, true, List, [], ◌∷◌, length, some, arith, replicate,
}
use xychat_project.Prelude.Int.{pos}
use xychat_project.Protocol.FileProtocol.{
  is_chunking_valid, chunk_count_for, is_sha256_hex, is_hex_lower, expected_chunk_bytes,
}
use xychat_project.Server.Storage.{
  Storage, no_blob, is_valid_blob_key, finalize, finalized, read_chunk, is_finalized, update,
  finalize_locked, assemble, publish, blob_size, received_chunks, counts_from,
}
use xychat_project.Server.Storage.Finalize.{joined, finalize-finalized}
use xychat_project.Server.Storage.Upload.{upload, working, contains, finalize-upload}

abbrev key : List ℕ
key = replicate 32 b'a'

abbrev chunk_data : ℕ → List ℕ
chunk_data i = 1 ∷ 2 ∷ 3 ∷ []

abbrev toy_sha256 : List ℕ → List ℕ
toy_sha256 x = (b'0' + length x % 10) ∷ replicate 63 b'0'

abbrev empty_storage : Storage
empty_storage k = no_blob

abbrev size : ℕ
size = 65536

one_chunk : (i : ℕ) → i ≡ 0 → pos 3 ≡ expected_chunk_bytes (pos 3) (pos size) (pos 1) (pos i)
unfolding expected_chunk_bytes is_chunking_valid chunk_count_for
one_chunk i e = rw e refl

once : (i : ℕ) → i ≡ 0 → contains i (0 ∷ 0 ∷ []) ≡ true
once i e = rw e refl

-- One chunk of three bytes, sent twice.
finalize-upload_example :
    let r =
      finalize toy_sha256 working
        (upload key chunk_data (0 ∷ 0 ∷ []) empty_storage)
        key
        (pos 3)
        (pos size)
        (pos 1)
        (toy_sha256 (joined chunk_data 1 0)) in
    (r.1 ≡ finalized) × ((r.0 key).object ≡ some (joined chunk_data 1 0)) × ((r.0 key).parts ≡ [])
unfolding is_valid_blob_key is_hex_lower is_sha256_hex is_chunking_valid chunk_count_for
    expected_chunk_bytes joined
finalize-upload_example =
    finalize-upload toy_sha256 empty_storage key chunk_data (0 ∷ 0 ∷ []) (pos 3) (pos size) 1 refl
      refl refl refl (λ i h. one_chunk i (omega arith)) (omega arith, (omega arith, tt))
      (λ i h. once i (omega arith))

abbrev uploaded : Storage
uploaded = update empty_storage key (record no_blob { parts = (0, 1 ∷ 2 ∷ 3 ∷ []) ∷ [] })

abbrev sha : List ℕ
sha = toy_sha256 (1 ∷ 2 ∷ 3 ∷ [])

finalize-finalized_example :
    (o : List ℕ) × (((finalize toy_sha256 working uploaded key (pos 3) (pos size) (pos 1) sha).0
        key).object
      ≡ some o)
    × (pos (length o) ≡ pos 3)
    × ((is_finalized uploaded key ≡ true)
        ⊎ ((toy_sha256 o ≡ sha) × (o ≡ joined (λ j. read_chunk working uploaded key (pos j)) 1 0)))
unfolding is_valid_blob_key is_hex_lower is_sha256_hex is_chunking_valid chunk_count_for
    expected_chunk_bytes finalize finalize_locked assemble publish is_finalized blob_size
    received_chunks counts_from read_chunk
finalize-finalized_example =
    finalize-finalized toy_sha256 working uploaded key (pos 3) (pos size) (pos 1) sha refl refl
