-- ===== src/Protocol/FileProtocol/Manifest/Laws.antt =====
-- What a manifest that passes its self-check guarantees, and the JSON round trip.

use xychat_project.Prelude.{
  ℕ, ◌+◌, ◌≤◌, ◌≡◌, ◌≢◌, refl, inl, inr, ◌⊎◌, true, false, List, [], ◌∷◌, length, some, arith,
  Option-cases,
}
use xychat_project.Prelude.Int.{ℤ, pos, negsuc, pos_part, leb_int, ltb_int}
use xychat_project.Prelude.Json.{Fields, is_int}
use xychat_project.Protocol.FileProtocol.{
  gcm_tag_size, is_chunking_valid, chunk_count_for, is_sha256_hex,
}
use xychat_project.Protocol.FileProtocol.Manifest.{
  FileManifest, empty_manifest, is_valid, Encoding, encode_file_manifest, manifest_object,
  from_base64, read_manifest, decode_object, decode_file_manifest, file_key_size, file_iv_size,
}

sizes :
    (p c : ℤ)
    → ltb_int p (pos 0) ≡ false
    → leb_int c (pos 0) ≡ false
    → ltb_int c (pos (pos_part p + gcm_tag_size)) ≡ false
    → pos_part p + gcm_tag_size ≤ pos_part c
sizes p (negsuc c) h k e = cc
sizes (negsuc p) (pos c) h k e = cc
sizes (pos p) (pos c) h k e = ground arith

-- A manifest that passes the self-check carries a layout that the server's own check accepts, a
-- key and a nonce of the right length, a name, and room for one tag at least.
pub is_valid-layout :
    (m : FileManifest)
    → is_valid m ≡ true
    → (is_chunking_valid m.cipher_size m.chunk_size
          (pos (chunk_count_for m.cipher_size m.chunk_size))
        ≡ true)
      × (length m.key ≡ file_key_size)
      × (length m.iv ≡ file_iv_size)
      × (pos_part m.plain_size + gcm_tag_size ≤ pos_part m.cipher_size)
      × (m.name ≢ [])
      × (is_sha256_hex m.sha256_hex ≡ true)
unfolding is_valid is_chunking_valid
is_valid-layout m e = (
  ground arith,
  ground arith,
  ground arith,
  sizes m.plain_size m.cipher_size (ground arith) (ground arith) (ground arith),
  λ n. ground arith,
  ground arith,
)

module _ (q : Encoding) where
  decode_object_cases :
      (o : Fields)
      → (((decode_object q o).1 ≡ true) × (is_valid (decode_object q o).0 ≡ true))
        ⊎ (decode_object q o ≡ (empty_manifest, false))
  unfolding decode_object
  decode_object_cases o = ground arith

  -- Decoding fails closed: either it reports success and the manifest passes the self-check, or it
  -- reports failure and hands out the empty manifest, whose key is empty.
  pub decode_file_manifest_cases :
      (json : List ℕ)
      → (((decode_file_manifest q json).1 ≡ true)
          × (is_valid (decode_file_manifest q json).0 ≡ true))
        ⊎ (decode_file_manifest q json ≡ (empty_manifest, false))
  unfolding decode_file_manifest
  decode_file_manifest_cases [] = inr refl
  decode_file_manifest_cases (c ∷ cs) = elim (Option-cases (q.from_json (c ∷ cs))) [
    | inl e ↦ inr (rw (e, decode_file_manifest))
    | inr (o, e) ↦ ground (arith, e, decode_object_cases o)
  ]

-- The integers of a manifest that are `int` in the source fit an `int`.
abbrev pub IntsFit : FileManifest → Type 0
IntsFit m = (is_int m.width ≡ true) × (is_int m.height ≡ true)

-- Base64 as documented: decoding undoes encoding, and the empty text stands for no bytes.
pub record IsBase64 (q : Encoding) : Type 0 where
  pub decode_encode : (b : List ℕ) → q.decode_base64 (q.to_base64 b) ≡ b
  pub decode_empty : q.decode_base64 [] ≡ []

module _ (q : Encoding) (law : IsBase64 q) where
  from_base64-to_base64 : (b : List ℕ) → from_base64 q (q.to_base64 b) ≡ b
  from_base64-to_base64 b = ground (arith, law.decode_encode b, law.decode_empty)

  read_manifest_object :
      (m : FileManifest) (t : List ℕ)
      → m.thumbnail ≡ t
      → IntsFit m
      → read_manifest q (manifest_object q m) ≡ m
  unfolding read_manifest
  read_manifest_object m [] e (w, x) =
      ground (arith, from_base64-to_base64 m.key, from_base64-to_base64 m.iv)
  read_manifest_object m (b ∷ bs) e (w, x) = ground (
    arith,
    from_base64-to_base64 m.key,
    from_base64-to_base64 m.iv,
    from_base64-to_base64 (b ∷ bs),
  )

  decode_object-manifest :
      (m : FileManifest) (t : List ℕ)
      → m.thumbnail ≡ t
      → IntsFit m
      → is_valid m ≡ true
      → decode_object q (manifest_object q m) ≡ (m, true)
  unfolding decode_object
  decode_object-manifest m [] e f v = ground (arith, read_manifest_object m [] e f)
  decode_object-manifest m (b ∷ bs) e f v = ground (arith, read_manifest_object m (b ∷ bs) e f)

  -- A manifest that passes the self-check survives the JSON round trip unchanged, if the JSON
  -- library reads back the object that it wrote and writes no empty text for it.
  pub decode-encode_file_manifest :
      (m : FileManifest)
      → is_valid m ≡ true
      → IntsFit m
      → q.from_json (q.to_json (manifest_object q m)) ≡ some (manifest_object q m)
      → q.to_json (manifest_object q m) ≢ []
      → decode_file_manifest q (encode_file_manifest q m) ≡ (m, true)
  unfolding encode_file_manifest decode_file_manifest
  decode-encode_file_manifest m v f back full =
      ground (arith, decode_object-manifest m m.thumbnail refl f v)
