-- ===== src/Protocol/FileProtocol/Manifest.antt =====
-- CommonModule/protocol/FileProtocol.{h,cpp}: the manifest of a file message, its self-check and
-- its JSON form. Byte arrays and texts are lists of numbers.
pub mod Laws
use Prim.Native.String.{String}
use xychat_project.Prelude.{
  ℕ, zero, suc, ◌+◌, ◌≡◌, Bool, true, false, ◌||◌, ◌&&◌, not, List, [], ◌∷◌, ltb, leb, ◌==◌, length,
  Option, none, some, if◌then◌else◌, ◌++◌,
}
use xychat_project.Prelude.Int.{ℤ, pos, negsuc, pos_part, leb_int, ltb_int}
use xychat_project.Prelude.Assoc.{text_beq}
use xychat_project.Prelude.Json.{
  Json, number, str, Fields, end, field, value, put, to_text, to_int, to_long_long, codes,
}
use xychat_project.Protocol.FileProtocol.{
  max_file_size, max_file_name_length, max_thumbnail_bytes, gcm_tag_size, max_chunk_count,
  is_bad_size, is_bad_chunk, chunk_count_for, is_sha256_hex,
}

abbrev pub file_manifest_version : ℤ
file_manifest_version = pos 1

abbrev pub file_key_size : ℕ
file_key_size = 32

abbrev pub file_iv_size : ℕ
file_iv_size = 12

pub record FileManifest : Type 0 where
  pub file_id : ℤ
  pub name : List ℕ
  pub mime : List ℕ
  pub plain_size : ℤ
  pub cipher_size : ℤ
  pub chunk_size : ℤ
  pub sha256_hex : List ℕ
  pub key : List ℕ
  pub iv : List ℕ
  pub width : ℤ
  pub height : ℤ
  pub duration_ms : ℤ
  pub thumbnail : List ℕ

-- A default-constructed manifest.
abbrev pub empty_manifest : FileManifest
empty_manifest = record {
  file_id = pos 0;
  name = [];
  mime = [];
  plain_size = pos 0;
  cipher_size = pos 0;
  chunk_size = pos 0;
  sha256_hex = [];
  key = [];
  iv = [];
  width = pos 0;
  height = pos 0;
  duration_ms = pos 0;
  thumbnail = [];
}

abbrev is_empty : List ℕ → Bool
is_empty [] = true
is_empty (c ∷ cs) = false

-- The checks on the chunk layout: `chunks <= 0 || chunks > MaxChunkCount`.
abbrev is_bad_count : ℕ → Bool
is_bad_count n = leb n 0 || ltb max_chunk_count n

-- `FileManifest::isValid`, in the order of its early returns. After `plainSize < 0` was refused
-- the natural part of `plainSize` is its value.
unfoldable pub is_valid : FileManifest → Bool
is_valid m =
    if leb_int m.file_id (pos 0)
    then false
    else if not (length m.key == file_key_size) || not (length m.iv == file_iv_size)
    then false
    else if is_bad_size m.cipher_size
    then false
    else if ltb_int m.plain_size (pos 0) || ltb_int (pos max_file_size) m.plain_size
    then false
    else if ltb_int m.cipher_size (pos (pos_part m.plain_size + gcm_tag_size))
    then false
    else if not (is_sha256_hex m.sha256_hex)
    then false
    else if is_bad_chunk m.chunk_size
    then false
    else if is_bad_count (chunk_count_for m.cipher_size m.chunk_size)
    then false
    else if is_empty m.name || ltb max_file_name_length (length m.name)
    then false
    else if ltb max_file_name_length (length m.mime)
    then false
    else if ltb_int m.width (pos 0) || ltb_int m.height (pos 0) || ltb_int m.duration_ms (pos 0)
    then false
    else if ltb max_thumbnail_bytes (length m.thumbnail)
    then false
    else true

-- What the code takes from Qt: the JSON text of an object, base64, and numbers read from texts.
pub record Encoding : Type 0 where
  pub to_json : Fields → List ℕ
  pub from_json : List ℕ → Option Fields
  pub to_base64 : List ℕ → List ℕ
  pub decode_base64 : List ℕ → List ℕ
  pub parse_long_long : List ℕ → ℤ

module _ (q : Encoding) where
  -- `fromBase64`.
  abbrev pub from_base64 : List ℕ → List ℕ
  from_base64 [] = []
  from_base64 (c ∷ cs) = q.decode_base64 (c ∷ cs)

  -- The optional thumbnail.
  abbrev pub put_thumbnail : List ℕ → Fields → Fields
  put_thumbnail [] o = o
  put_thumbnail (b ∷ bs) o = put "thumb" (str (q.to_base64 (b ∷ bs))) o

  -- The object that `encodeFileManifest` fills in.
  abbrev pub manifest_object : FileManifest → Fields
  manifest_object m = put_thumbnail m.thumbnail (
      put "durationMs" (number m.duration_ms) (
        put "height" (number m.height) (
          put "width" (number m.width) (
            put "iv" (str (q.to_base64 m.iv)) (
              put "key" (str (q.to_base64 m.key)) (
                put "sha256" (str m.sha256_hex) (
                  put "chunkSize" (number m.chunk_size) (
                    put "cipherSize" (number m.cipher_size) (
                      put "plainSize" (number m.plain_size) (
                        put "mime" (str m.mime) (
                          put "name" (str m.name) (
                            put "fileId" (number m.file_id) (
                              put "kind" (str (codes "file"))
                                (put "v" (number file_manifest_version) end))))))))))))))

  pub encode_file_manifest : FileManifest → List ℕ
  encode_file_manifest m = if is_valid m then q.to_json (manifest_object m) else []

  -- The fields that `decodeFileManifest` reads.
  pub read_manifest : Fields → FileManifest
  read_manifest o = record {
    file_id = to_long_long q.parse_long_long (value o "fileId");
    name = to_text (value o "name");
    mime = to_text (value o "mime");
    plain_size = to_long_long q.parse_long_long (value o "plainSize");
    cipher_size = to_long_long q.parse_long_long (value o "cipherSize");
    chunk_size = to_long_long q.parse_long_long (value o "chunkSize");
    sha256_hex = to_text (value o "sha256");
    key = from_base64 (to_text (value o "key"));
    iv = from_base64 (to_text (value o "iv"));
    width = to_int (value o "width") (pos 0);
    height = to_int (value o "height") (pos 0);
    duration_ms = to_long_long q.parse_long_long (value o "durationMs");
    thumbnail = from_base64 (to_text (value o "thumb"));
  }

  abbrev is_current : Fields → Bool
  is_current o =
      leb_int (to_int (value o "v") (pos 0)) file_manifest_version
      && leb_int file_manifest_version (to_int (value o "v") (pos 0))

  pub decode_object : Fields → FileManifest × Bool
  decode_object o =
      if not (is_current o)
      then (empty_manifest, false)
      else if not (text_beq (to_text (value o "kind")) (codes "file"))
      then (empty_manifest, false)
      else if not (is_valid (read_manifest o))
      then (empty_manifest, false)
      else (read_manifest o, true)

  -- `decodeFileManifest`, with its output argument `ok`.
  pub decode_file_manifest : List ℕ → FileManifest × Bool
  decode_file_manifest [] = (empty_manifest, false)
  decode_file_manifest (c ∷ cs) = elim (q.from_json (c ∷ cs)) [
    | none ↦ (empty_manifest, false)
    | some o ↦ decode_object o
  ]

  -- `filePreviewText`: the name of the file and nothing else of the manifest.
  pub file_preview_text : List ℕ → List ℕ
  file_preview_text content =
      let (m, good) = decode_file_manifest content in
      if not good || is_empty m.name then codes "[File]" else codes "[File] " ++ m.name
