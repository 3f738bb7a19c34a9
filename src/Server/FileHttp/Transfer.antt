-- ===== src/Server/FileHttp/Transfer.antt =====
-- Chat-Server/http/FileHttpService.cpp: what a download hands out.
use xychat_project.Prelude.{
  ℕ, ◌+◌, ◌≤◌, ◌<◌, ◌≡◌, ◌≢◌, refl, ap, Bool, true, false, List, ltb, length, take, drop, Option,
  none, some, if◌then◌else◌, arith, Bool-cases, inl, inr, length-take, length-drop,
}
use xychat_project.Prelude.Int.{ℤ, pos, pos_part, leb_int, ltb_int, eq_int_iff}
use xychat_project.Server.Storage.{Storage, Io, blob_size, read_range, object_bytes, is_finalized}
use xychat_project.Server.Storage.Access.{read_range-slice}
use xychat_project.Server.Database.Files.{
  FileStatus, FileRecord, same_status, uploading, ready, cancelled, failed,
}
use xychat_project.Server.FileHttp.Parse.{
  RangeResult, absent, malformed, unsatisfiable, range, parse_range,
}
use xychat_project.Server.FileHttp.Ranges.{is_within, parse_range-within}
use xychat_project.Server.FileHttp.{
  HttpWorld, FileHttpService, HttpRequest, Answer, whole, partial_content, send_range, get_range,
  get_from, max_single_get_bytes,
}

-- A part of an object that an answer hands out.
pub record Part : Type 0 where
  pub offset : ℕ
  pub bytes : List ℕ
  pub size : ℤ

abbrev pub content : Answer → Option Part
content (whole bytes size) = some (record { offset = 0; bytes = bytes; size = size })
content (partial_content offset bytes size) =
    some (record { offset = offset; bytes = bytes; size = size })
content _ = none

ready_lem : (s : FileStatus) → same_status s ready ≡ true → s ≡ ready
ready_lem ready h = refl
ready_lem uploading h = absurd (cc)
ready_lem cancelled h = absurd (cc)
ready_lem failed h = absurd (cc)

not_read :
    (io : Io) (s : Storage) (key : List ℕ) (a n : ℕ)
    → is_finalized s key ≡ true
    → io.read_object ≡ false
    → 0 < n
    → length (read_range io s key (pos a) (pos n)) ≢ n
unfolding read_range
not_read io s key a n f r l h = ground (arith, f, r, h)

not_there :
    (io : Io) (s : Storage) (key : List ℕ) (a n : ℕ)
    → is_finalized s key ≡ false
    → 0 < n
    → length (read_range io s key (pos a) (pos n)) ≢ n
unfolding read_range
not_there io s key a n f l h = ground (arith, f, h)

-- A read that gives as many bytes as it was asked for gives that part of the object.
full_read :
    (io : Io) (s : Storage) (key : List ℕ) (a n : ℕ)
    → 0 < n
    → length (read_range io s key (pos a) (pos n)) ≡ n
    → (read_range io s key (pos a) (pos n) ≡ take n (drop a (object_bytes (s key))))
      × (a + n ≤ length (object_bytes (s key)))
full_read io s key a n l h = elim (Bool-cases (is_finalized s key)) [
  | inl f ↦ elim (Bool-cases io.read_object) [
    | inl r ↦
        let e = read_range-slice io s key a n f r l in
        let b = object_bytes (s key) in
        (e, omega (arith, h, ap length e, length-take n (drop a b), length-drop a b))
    | inr r ↦ absurd (not_read io s key a n f r l h)
  ]
  | inr f ↦ absurd (not_there io s key a n f l h)
]

sent_bytes :
    (w : HttpWorld) (s : FileHttpService) (f : FileRecord) (size : ℤ) (a n : ℕ) (b : Bool)
    (p : Part)
    → content (send_range w s f size a n b).1 ≡ some p
    → (p.bytes ≡ read_range w.io s.storage f.blob_key (pos a) (pos n))
      × (length (read_range w.io s.storage f.blob_key (pos a) (pos n)) ≡ n)
      × (p.offset ≡ (if b then a else 0))
      × (p.size ≡ size)
unfolding send_range
sent_bytes w s f size a n b p h =
    let bytes = read_range w.io s.storage f.blob_key (pos a) (pos n) in
    ground (arith, h, eq_int_iff (pos (length bytes)) (pos n))

-- The bytes are those of the stored object from the offset on, they lie in it, and are at least one
-- and at most 4 MiB.
pub record IsPart (s : Storage) (key : List ℕ) (p : Part) : Type 0 where
  pub slice : p.bytes ≡ take (length p.bytes) (drop p.offset (object_bytes (s key)))
  pub inside : p.offset + length p.bytes ≤ length (object_bytes (s key))
  pub bounded : (0 < length p.bytes) × (length p.bytes ≤ max_single_get_bytes)
  pub total : p.size ≡ blob_size s key

part_sent :
    (w : HttpWorld) (s : FileHttpService) (f : FileRecord) (a n : ℕ) (b : Bool) (p : Part)
    → 0 < n
    → n ≤ max_single_get_bytes
    → (if b then a else 0) ≡ a
    → content (send_range w s f (blob_size s.storage f.blob_key) a n b).1 ≡ some p
    → IsPart s.storage f.blob_key p
part_sent w s f a n b p l m z h =
    let e = sent_bytes w s f (blob_size s.storage f.blob_key) a n b p h in
    let r = full_read w.io s.storage f.blob_key a n l (e.1) in
    let len : length p.bytes ≡ n = ground (arith, e) in
    let off : p.offset ≡ a = ground (arith, e, z) in
    record {
      slice = ground (arith, e, r, len, off);
      inside = ground (arith, r, len, off);
      bounded = ground (arith, len, l, m);
      total = ground (arith, e);
    }

positive : (size : ℤ) → leb_int size (pos 0) ≡ false → 0 < pos_part size
positive (pos n) h = ground arith
positive _ h = absurd (ground (arith, h))

small :
    (size : ℤ)
    → ltb_int (pos max_single_get_bytes) size ≡ false
    → pos_part size ≤ max_single_get_bytes
small (pos n) h = ground arith
small _ h = omega arith

within_any :
    (w : HttpWorld) (r : HttpRequest) (size : ℤ)
    → leb_int size (pos 0) ≡ false
    → is_within (pos_part size) (parse_range w.format r.range_header size) ≡ true
within_any w r (pos n) h = parse_range-within w.format r.range_header n
within_any w r _ h = absurd (ground (arith, h))

part_of_range :
    (w : HttpWorld) (s : FileHttpService) (f : FileRecord) (rr : RangeResult) (p : Part)
    → leb_int (blob_size s.storage f.blob_key) (pos 0) ≡ false
    → is_within (pos_part (blob_size s.storage f.blob_key)) rr ≡ true
    → content (get_range w s f (blob_size s.storage f.blob_key) rr).1 ≡ some p
    → IsPart s.storage f.blob_key p
part_of_range w s f malformed p z i h = absurd (ground (arith, h))
part_of_range w s f unsatisfiable p z i h = absurd (ground (arith, h))
part_of_range w s f absent p z i h =
    let size = blob_size s.storage f.blob_key in
    elim (Bool-cases (ltb_int (pos max_single_get_bytes) size)) [
      | inl e ↦ absurd (ground (arith, e, h))
      | inr e ↦
          part_sent w s f 0 (pos_part size) false p (positive size z) (small size e) refl
            (rw e at h)
    ]
part_of_range w s f (range a n) p z i h = elim (Bool-cases (ltb max_single_get_bytes n)) [
  | inl e ↦ absurd (ground (arith, e, h))
  | inr e ↦ part_sent w s f a n true p (ground (arith, i)) (ground (arith, e)) refl (rw e at h)
]

pub part_of_file :
    (w : HttpWorld) (s : FileHttpService) (r : HttpRequest) (f : FileRecord) (p : Part)
    → content (get_from w s r f).1 ≡ some p
    → (f.status ≡ ready) × IsPart s.storage f.blob_key p
unfolding get_from
part_of_file w s r f p h =
    let size = blob_size s.storage f.blob_key in
    elim (Bool-cases (same_status f.status ready)) [
      | inl e ↦ elim (Bool-cases (leb_int size (pos 0))) [
        | inl z ↦ absurd (ground (arith, e, z, h))
        | inr z ↦ (
          ready_lem f.status e,
          part_of_range w s f (parse_range w.format r.range_header size) p z (within_any w r size z)
              (rw (e, z) at h),
        )
      ]
      | inr e ↦ absurd (ground (arith, e, h))
    ]
