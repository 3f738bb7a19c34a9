-- ===== src/Server/Database/Files/Keys.antt =====
-- Chat-Server/database/DatabaseManager.cpp: the unique column `blob_key` of the table `files`.
use xychat_project.Prelude.{
  ℕ, ◌≡◌, ◌≢◌, refl, ap, sym, ◌∙◌, Bool, true, false, ◌||◌, List, [], ◌∷◌, ◌++◌, some,
  if◌then◌else◌, arith, Bool-cases, inl, inr, ◌⊎◌, map, some_inj,
}
use xychat_project.Prelude.Assoc.{text_beq, text_beq_iff}
use xychat_project.Prelude.Int.{ℤ, eq_int}
use xychat_project.Server.Database.Files.{FileRecord, find_file, has_blob_key, delete_rows}

abbrev pub IsMember : FileRecord → List FileRecord → Type 0
IsMember f [] = ⊥
IsMember f (g ∷ gs) = (f ≡ g) ⊎ IsMember f gs

-- No two rows share a blob key.
abbrev pub is_keyed : List FileRecord → Bool
is_keyed [] = true
is_keyed (f ∷ fs) = if has_blob_key f.blob_key fs then false else is_keyed fs

member_key :
    (k : List ℕ) (f : FileRecord) (rows : List FileRecord)
    → has_blob_key k rows ≡ false
    → IsMember f rows
    → f.blob_key ≢ k
member_key k f [] h m e = absurd m
member_key k f (x ∷ xs) h (inl q) e =
    ground (arith, h, text_beq_iff x.blob_key k, ap (λ (z : FileRecord). z.blob_key) q, e)
member_key k f (x ∷ xs) h (inr m) e = member_key k f xs (ground (arith, h)) m e

pub found_member :
    (i : ℤ) (f : FileRecord) (rows : List FileRecord) → find_file i rows ≡ some f → IsMember f rows
unfolding find_file
found_member i f [] h = absurd (ground (arith, h))
found_member i f (x ∷ xs) h = elim (Bool-cases (eq_int x.id i)) [
  | inl e ↦ inl (some_inj (sym (ground (arith, e, h))))
  | inr e ↦ inr (found_member i f xs (rw e at h))
]

-- Two rows with one blob key are one row.
pub same_row :
    (f g : FileRecord) (rows : List FileRecord)
    → is_keyed rows ≡ true
    → IsMember f rows
    → IsMember g rows
    → f.blob_key ≡ g.blob_key
    → f ≡ g
same_row f g [] k m n e = absurd m
same_row f g (x ∷ xs) k (inl p) (inl q) e = p ∙ sym q
same_row f g (x ∷ xs) k (inr m) (inr n) e = same_row f g xs (ground (arith, k)) m n e
same_row f g (x ∷ xs) k (inl p) (inr n) e = absurd (
    member_key x.blob_key g xs (ground (arith, k)) n
      (sym e ∙ ap (λ (z : FileRecord). z.blob_key) p))
same_row f g (x ∷ xs) k (inr m) (inl q) e =
    absurd
      (member_key x.blob_key f xs (ground (arith, k)) m (e ∙ ap (λ (z : FileRecord). z.blob_key) q))

has_blob_key-map :
    (h : FileRecord → FileRecord)
    → ((f : FileRecord) → (h f).blob_key ≡ f.blob_key)
    → (k : List ℕ) (rows : List FileRecord) → has_blob_key k (map h rows) ≡ has_blob_key k rows
has_blob_key-map h e k [] = refl
has_blob_key-map h e k (x ∷ xs) = ground (arith, e x, has_blob_key-map h e k xs)

pub is_keyed-map :
    (h : FileRecord → FileRecord)
    → ((f : FileRecord) → (h f).blob_key ≡ f.blob_key)
    → (rows : List FileRecord) → is_keyed (map h rows) ≡ is_keyed rows
is_keyed-map h e [] = refl
is_keyed-map h e (x ∷ xs) =
    ground (arith, e x, is_keyed-map h e xs, has_blob_key-map h e x.blob_key xs)

has_blob_key-delete_rows :
    (i : ℤ) (k : List ℕ) (rows : List FileRecord)
    → has_blob_key k rows ≡ false
    → has_blob_key k (delete_rows i rows) ≡ false
unfolding delete_rows
has_blob_key-delete_rows i k [] h = refl
has_blob_key-delete_rows i k (x ∷ xs) h = ground (arith, h, has_blob_key-delete_rows i k xs)

pub is_keyed-delete_rows :
    (i : ℤ) (rows : List FileRecord) → is_keyed rows ≡ true → is_keyed (delete_rows i rows) ≡ true
unfolding delete_rows
is_keyed-delete_rows i [] h = refl
is_keyed-delete_rows i (x ∷ xs) h =
    ground (arith, h, is_keyed-delete_rows i xs, has_blob_key-delete_rows i x.blob_key xs)

has_blob_key-append :
    (k : List ℕ) (rows : List FileRecord) (x : FileRecord)
    → has_blob_key k (rows ++ (x ∷ [])) ≡ has_blob_key k rows || text_beq x.blob_key k
has_blob_key-append k [] x = ground arith
has_blob_key-append k (y ∷ ys) x = ground (arith, has_blob_key-append k ys x)

pub is_keyed-append :
    (rows : List FileRecord) (x : FileRecord)
    → is_keyed rows ≡ true
    → has_blob_key x.blob_key rows ≡ false
    → is_keyed (rows ++ (x ∷ [])) ≡ true
is_keyed-append [] x k h = refl
is_keyed-append (y ∷ ys) x k h = ground (
  arith,
  k,
  h,
  is_keyed-append ys x,
  has_blob_key-append y.blob_key ys x,
  text_beq_iff x.blob_key y.blob_key,
  text_beq_iff y.blob_key x.blob_key,
)
