-- ===== src/Server/FileControl/Sound.antt =====
-- Chat-Server: the invariant that ties the table `files` to the object storage, and how the statements
-- of the table and the calls of the storage keep it.
use mathlib.Core.Path.{subst}
use xychat_project.Prelude.{
  ℕ, ◌≡◌, ◌≢◌, ap, sym, ◌∙◌, Bool, true, false, ◌&&◌, List, map, length, Option, none, some, arith,
  Option-cases, Bool-cases, inl, inr,
}
use xychat_project.Prelude.Assoc.{text_beq, text_beq_iff}
use xychat_project.Prelude.Int.{ℤ, pos, leb_int, eq_int, eq_int_iff}
use xychat_project.Server.Storage.{Storage, Blob, Io, finalize, finalized}
use xychat_project.Server.Storage.Finalize.{finalize-finalized}
use xychat_project.Server.Database.Files.{
  FileStatus, Files, FileRecord, find_file, same_status, uploading, ready, transition_row,
  transition_file_status,
}
use xychat_project.Server.FileControl.{FileServer}
use xychat_project.Server.Database.Files.Rows.{find-map, find-id, transition-KeepsId, is_below-map}
use xychat_project.Server.Database.Files.Steps.{IsTable}
use xychat_project.Server.Database.Files.Keys.{is_keyed, is_keyed-map, same_row, found_member}

abbrev pub has_length : ℤ → Option (List ℕ) → Bool
has_length n none = false
has_length n (some o) = eq_int (pos (length o)) n

-- The object of a file is there, with the size that was declared for the file.
abbrev pub is_backed : Storage → FileRecord → Bool
is_backed s f = has_length f.size_bytes (s f.blob_key).object

-- The ids were given out by the table, no two files share a blob key, and every file that is ready has
-- its object.
pub record IsSound (t : Files) (s : Storage) : Type 0 where
  pub table : IsTable t
  pub keyed : is_keyed t.rows ≡ true
  pub backed :
      (i : ℤ) (f : FileRecord)
      → find_file i t.rows ≡ some f
      → same_status f.status ready ≡ true
      → is_backed s f ≡ true

-- Two files with one blob key are one file.
same_file :
    (t : Files) (s : Storage) (i j : ℤ) (f g : FileRecord)
    → IsSound t s
    → find_file i t.rows ≡ some f
    → find_file j t.rows ≡ some g
    → f.blob_key ≡ g.blob_key
    → f ≡ g
same_file t s i j f g v h k =
    same_row f g t.rows v.keyed (found_member i f t.rows h) (found_member j g t.rows k)

-- The storage changed only for a file that is not ready.
pub storage-IsSound :
    (t : Files) (s s' : Storage) (i : ℤ) (f : FileRecord)
    → IsSound t s
    → find_file i t.rows ≡ some f
    → same_status f.status ready ≡ false
    → ((k : List ℕ) → f.blob_key ≢ k → s' k ≡ s k)
    → IsSound t s'
storage-IsSound t s s' i f v h n e = record {
  table = v.table;
  keyed = v.keyed;
  backed = λ j g hg r. elim (Bool-cases (text_beq f.blob_key g.blob_key)) [
    | inl same ↦
        let key : f.blob_key ≡ g.blob_key = (text_beq_iff f.blob_key g.blob_key).0 same in
        let row : f ≡ g = same_file t s i j f g v h hg key in
        absurd (ground (arith, n, r, ap (λ (x : FileRecord). same_status x.status ready) row))
    | inr other ↦
        let out : f.blob_key ≢ g.blob_key =
          λ q. ground (arith, other, (text_beq_iff f.blob_key g.blob_key).1 q) in
        ap (λ (b : Blob). has_length g.size_bytes b.object) (e g.blob_key out) ∙ v.backed j g hg r
  ];
}

-- The storage kept every object.
pub objects-IsSound :
    (t : Files) (s s' : Storage)
    → IsSound t s
    → ((k : List ℕ) → (s' k).object ≡ (s k).object)
    → IsSound t s'
objects-IsSound t s s' v e = record {
  table = v.table;
  keyed = v.keyed;
  backed = λ i f h r. ap (has_length f.size_bytes) (e f.blob_key) ∙ v.backed i f h r;
}

-- The row that was there before, if its image under `g` is found.
abbrev pub Before : (FileRecord → FileRecord) → ℤ → List FileRecord → FileRecord → Type 0
Before g i rows y = (x : FileRecord) × (find_file i rows ≡ some x) × (y ≡ g x)

pub Before-map :
    (g : FileRecord → FileRecord)
    → ((f : FileRecord) → (g f).id ≡ f.id)
    → (i : ℤ) (rows : List FileRecord) (y : FileRecord) → find_file i (map g rows) ≡ some y
    → Before g i rows y
Before-map g k i rows y h = elim (Option-cases (find_file i rows)) [
  | inl e ↦ absurd (ground (arith, e, h, find-map g k i rows))
  | inr (x, e) ↦ (x, e, ground (arith, e, h, find-map g k i rows))
]

-- The rows were mapped, with the same ids, blob keys and sizes, and a file that is ready afterwards has
-- its object.
pub map-IsSound :
    (t : Files) (s : Storage) (g : FileRecord → FileRecord)
    → ((f : FileRecord) → (g f).id ≡ f.id)
    → ((f : FileRecord) → (g f).blob_key ≡ f.blob_key)
    → ((i : ℤ) (f : FileRecord)
        → find_file i t.rows ≡ some f
        → same_status (g f).status ready ≡ true
        → is_backed s (g f) ≡ true)
    → IsSound t s
    → IsSound (record t { rows = map g t.rows }) s
map-IsSound t s g k b r v = record {
  table = is_below-map g k t.next_id t.rows v.table;
  keyed = is_keyed-map g b t.rows ∙ v.keyed;
  backed = λ i x hx rx.
      let (f, hf, ef) = Before-map g k i t.rows x hx in
      subst (λ z. is_backed s z ≡ true) (sym ef)
        (r i f hf (sym (ap (λ (z : FileRecord). same_status z.status ready) ef) ∙ rx));
}

transition_kept :
    (s : Storage) (i : ℤ) (st : FileStatus) (o : Option ℕ) (f : FileRecord)
    → (same_status st ready ≡ true → eq_int f.id i ≡ true → is_backed s f ≡ true)
    → (same_status f.status ready ≡ true → is_backed s f ≡ true)
    → same_status (transition_row i st o f).status ready ≡ true
    → is_backed s (transition_row i st o f) ≡ true
transition_kept s i st o f new old r =
    elim (Bool-cases (eq_int f.id i && same_status f.status uploading)) [
      | inl e ↦ ground (arith, e, r, new)
      | inr e ↦ ground (arith, e, r, old)
    ]

transition_key :
    (i : ℤ) (st : FileStatus) (o : Option ℕ) (f : FileRecord)
    → (transition_row i st o f).blob_key ≡ f.blob_key
transition_key i st o f = ground arith

-- A change of status, where the file has its object if it becomes ready.
pub transition-IsSound :
    (executes : Bool) (t : Files) (s : Storage) (i : ℤ) (st : FileStatus) (o : Option ℕ)
    → ((f : FileRecord)
        → find_file i t.rows ≡ some f
        → same_status st ready ≡ true
        → is_backed s f ≡ true)
    → IsSound t s
    → IsSound (transition_file_status executes t i st o).0 s
unfolding transition_file_status
transition-IsSound executes t s i st o h v =
    let mapped =
      map-IsSound t s (transition_row i st o) (transition-KeepsId i st o) (transition_key i st o)
        (λ j f hf r.
          transition_kept s i st o f
            (λ e q.
              h f
                (ap (λ k. find_file k t.rows)
                    (sym ((eq_int_iff f.id i).0 q) ∙ find-id j t.rows f hf)
                  ∙ hf)
                e)
            (v.backed j f hf) r)
        v in
    elim (Bool-cases (leb_int i (pos 0))) [
      | inl e ↦ rw e v
      | inr e ↦ elim (Bool-cases executes) [ inl x ↦ rw (e, x) mapped | inr x ↦ rw (e, x) v ]
    ]

-- The tables and the storage of a server fit together.
abbrev pub IsConsistent : FileServer → Type 0
IsConsistent s = IsSound s.files s.storage

-- What the assembly that succeeds leaves under the file's key.
pub assembled_backed :
    (sha256 : List ℕ → List ℕ) (io : Io) (s : Storage) (f : FileRecord)
    → io.lost_at_close ≡ 0
    → (finalize sha256 io s f.blob_key f.size_bytes f.chunk_size f.chunk_count f.sha256_hex).1
      ≡ finalized
    → is_backed
        (finalize sha256 io s f.blob_key f.size_bytes f.chunk_size f.chunk_count f.sha256_hex).0
        f
      ≡ true
assembled_backed sha256 io s f c h =
    let (o, p, l, d) =
      finalize-finalized sha256 io s f.blob_key f.size_bytes f.chunk_size f.chunk_count f.sha256_hex
        c h in
    ap (has_length f.size_bytes) p ∙ (eq_int_iff (pos (length o)) f.size_bytes).1 l
