-- ===== src/Protocol/FileProtocol.antt =====
-- CommonModule/protocol/FileProtocol.{h,cpp}: limits and chunk arithmetic that client and server
-- share. `qint64` and `int` are integers; the limits keep every sum far below their range.
pub mod Chunks
pub mod Manifest
use xychat_project.Prelude.{
  ℕ, zero, suc, ◌+◌, ◌-◌, ◌*◌, ◌/◌, ◌≤◌, ◌<◌, Bool, true, false, ◌||◌, ◌&&◌, not, List, [], ◌∷◌,
  ltb, leb, ◌==◌, length, if◌then◌else◌,
}
use xychat_project.Prelude.Int.{ℤ, pos, negsuc, pos_part, leb_int, ltb_int, sub_ℕ, minus_one}

abbrev pub default_chunk_size : ℕ
default_chunk_size = 1 * 1024 * 1024

abbrev pub min_chunk_size : ℕ
min_chunk_size = 64 * 1024

abbrev pub max_chunk_size : ℕ
max_chunk_size = 4 * 1024 * 1024

abbrev pub max_file_size : ℕ
max_file_size = 2 * 1024 * 1024 * 1024

abbrev pub max_chunk_count : ℕ
max_chunk_count = 4096

abbrev pub max_file_name_length : ℕ
max_file_name_length = 255

abbrev pub max_thumbnail_bytes : ℕ
max_thumbnail_bytes = 4096

abbrev pub gcm_tag_size : ℕ
gcm_tag_size = 16

abbrev pub sha256_hex_length : ℕ
sha256_hex_length = 64

-- `cipherSize <= 0 || cipherSize > MaxFileSize`, and the range of `chunkSize`.
abbrev pub is_bad_size : ℤ → Bool
is_bad_size s = leb_int s (pos 0) || ltb_int (pos max_file_size) s

abbrev pub is_bad_chunk : ℤ → Bool
is_bad_chunk s = ltb_int s (pos min_chunk_size) || ltb_int (pos max_chunk_size) s

-- `chunkCountFor`: the rounded-up quotient, 0 for arguments out of range.
unfoldable pub chunk_count_for : ℤ → ℤ → ℕ
chunk_count_for cipher chunk =
    if is_bad_size cipher
    then 0
    else if is_bad_chunk chunk
    then 0
    else (pos_part cipher + pos_part chunk - 1) / pos_part chunk

pub plain_size_of_chunk : ℤ → ℤ
plain_size_of_chunk bytes =
    if ltb_int bytes (pos gcm_tag_size) then minus_one else pos (pos_part bytes - gcm_tag_size)

pub cipher_size_of_chunk : ℤ → ℤ
cipher_size_of_chunk bytes =
    if ltb_int bytes (pos 0) then minus_one else pos (pos_part bytes + gcm_tag_size)

unfoldable pub is_chunking_valid : ℤ → ℤ → ℤ → Bool
is_chunking_valid cipher chunk count =
    if is_bad_size cipher
    then false
    else if is_bad_chunk chunk
    then false
    else if leb_int count (pos 0) || ltb_int (pos max_chunk_count) count
    then false
    else chunk_count_for cipher chunk == pos_part count

-- `expectedChunkBytes`: -1 where there is no such chunk.
unfoldable pub expected_chunk_bytes : ℤ → ℤ → ℤ → ℤ → ℤ
expected_chunk_bytes cipher chunk count index =
    if not (is_chunking_valid cipher chunk count)
    then minus_one
    else if ltb_int index (pos 0) || leb_int count index
    then minus_one
    else if ltb (pos_part index + 1) (pos_part count)
    then chunk
    else sub_ℕ (pos_part cipher) ((pos_part count - 1) * pos_part chunk)

abbrev pub is_hex_digit : ℕ → Bool
is_hex_digit c = (leb b'0' c && leb c b'9') || (leb b'a' c && leb c b'f')

-- `isHexLower`, over UTF-16 code units.
unfoldable pub is_hex_lower : List ℕ → Bool
is_hex_lower [] = true
is_hex_lower (c ∷ cs) = if is_hex_digit c then is_hex_lower cs else false

unfoldable pub is_sha256_hex : List ℕ → Bool
is_sha256_hex hex = (length hex == sha256_hex_length) && is_hex_lower hex
