-- ===== src/Server/Database/Files/Rows.antt =====
-- Chat-Server/database/DatabaseManager.cpp: the rows of the table `files`, found by id, and how the
-- statements on them act.
use xychat_project.Prelude.{
  ℕ, ◌+◌, ◌≤◌, ◌≡◌, refl, Bool, true, false, List, [], ◌∷◌, ◌++◌, map, Option, none, some,
  if◌then◌else◌, arith,
}
use xychat_project.Prelude.Int.{ℤ, pos, ltb_int, eq_int, eq_int_iff}
use xychat_project.Server.Database.Messages.{Message}
use xychat_project.Server.Database.Files.{
  FileStatus, FileRecord, find_file, delete_rows, transition_row, cancel_row, uploading,
  uploading_count, same_status,
}

abbrev pub KeepsId : (FileRecord → FileRecord) → Type 0
KeepsId g = (f : FileRecord) → (g f).id ≡ f.id

pub transition-KeepsId : (i : ℤ) (s : FileStatus) (o : Option ℕ) → KeepsId (transition_row i s o)
transition-KeepsId i s o f = ground arith

pub cancel-KeepsId : (i : ℤ) (ms : List Message) → KeepsId (cancel_row i ms)
cancel-KeepsId i ms f = ground arith

pub find-map :
    (g : FileRecord → FileRecord)
    → KeepsId g
    → (i : ℤ) (rows : List FileRecord)
    → find_file i (map g rows) ≡ elim (find_file i rows) [ none ↦ none | some f ↦ some (g f) ]
unfolding find_file
find-map g k i [] = refl
find-map g k i (x ∷ xs) = ground (arith, k x, find-map g k i xs)

pub find-append :
    (i : ℤ) (rows : List FileRecord) (x : FileRecord)
    → find_file i (rows ++ (x ∷ []))
      ≡ elim (find_file i rows) [ none ↦ if eq_int x.id i then some x else none | some f ↦ some f ]
unfolding find_file
find-append i [] x = ground arith
find-append i (y ∷ ys) x = ground (arith, find-append i ys x)

pub find-delete_rows :
    (i j : ℤ) (rows : List FileRecord)
    → find_file i (delete_rows j rows) ≡ (if eq_int j i then none else find_file i rows)
unfolding find_file delete_rows
find-delete_rows i j [] = ground arith
find-delete_rows i j (x ∷ xs) =
    ground (arith, eq_int_iff j i, eq_int_iff x.id i, eq_int_iff x.id j, find-delete_rows i j xs)

-- The row that is found has the id.
pub find-id :
    (i : ℤ) (rows : List FileRecord) (f : FileRecord) → find_file i rows ≡ some f → f.id ≡ i
unfolding find_file
find-id i [] f e = absurd (ground arith)
find-id i (x ∷ xs) f e = ground (arith, e, eq_int_iff x.id i, find-id i xs f)

-- Every id is below the next one.
abbrev pub is_below : ℕ → List FileRecord → Bool
is_below n [] = true
is_below n (f ∷ fs) = if ltb_int f.id (pos n) then is_below n fs else false

pub is_below-map :
    (g : FileRecord → FileRecord)
    → KeepsId g
    → (n : ℕ) (rows : List FileRecord) → is_below n rows ≡ true
    → is_below n (map g rows) ≡ true
is_below-map g k n [] h = refl
is_below-map g k n (x ∷ xs) h = ground (arith, h, k x, is_below-map g k n xs)

pub is_below-delete_rows :
    (n : ℕ) (i : ℤ) (rows : List FileRecord)
    → is_below n rows ≡ true
    → is_below n (delete_rows i rows) ≡ true
unfolding delete_rows
is_below-delete_rows n i [] h = refl
is_below-delete_rows n i (x ∷ xs) h = ground (arith, h, is_below-delete_rows n i xs)

ltb_int_suc : (i : ℤ) (n : ℕ) → ltb_int i (pos n) ≡ true → ltb_int i (pos (n + 1)) ≡ true
ltb_int_suc (pos a) n h = ground arith
ltb_int_suc _ n h = refl

pub is_below-append :
    (n : ℕ) (rows : List FileRecord) (x : FileRecord)
    → x.id ≡ pos n
    → is_below n rows ≡ true
    → is_below (n + 1) (rows ++ (x ∷ [])) ≡ true
is_below-append n [] x e h = rw e (ground arith)
is_below-append n (y ∷ ys) x e h = ground (arith, h, ltb_int_suc y.id n, is_below-append n ys x e)

-- The number of uploads in progress, after each statement.
pub uploading_count-append :
    (u : ℤ) (rows : List FileRecord) (x : FileRecord)
    → x.status ≡ uploading
    → uploading_count u (rows ++ (x ∷ []))
      ≡ uploading_count u rows + (if eq_int x.uploader_id u then 1 else 0)
unfolding uploading_count
uploading_count-append u [] x e = ground (arith, e)
uploading_count-append u (y ∷ ys) x e = ground (arith, uploading_count-append u ys x e)

pub uploading_count-transition :
    (u i : ℤ) (s : FileStatus) (o : Option ℕ) (rows : List FileRecord)
    → same_status s uploading ≡ false
    → uploading_count u (map (transition_row i s o) rows) ≤ uploading_count u rows
unfolding uploading_count
uploading_count-transition u i s o [] h = omega arith
uploading_count-transition u i s o (x ∷ xs) h =
    ground (arith, h, uploading_count-transition u i s o xs h)

pub uploading_count-cancel :
    (u i : ℤ) (ms : List Message) (rows : List FileRecord)
    → uploading_count u (map (cancel_row i ms) rows) ≤ uploading_count u rows
unfolding uploading_count
uploading_count-cancel u i ms [] = omega arith
uploading_count-cancel u i ms (x ∷ xs) = ground (arith, uploading_count-cancel u i ms xs)

pub uploading_count-delete_rows :
    (u i : ℤ) (rows : List FileRecord)
    → uploading_count u (delete_rows i rows) ≤ uploading_count u rows
unfolding uploading_count delete_rows
uploading_count-delete_rows u i [] = omega arith
uploading_count-delete_rows u i (x ∷ xs) = ground (arith, uploading_count-delete_rows u i xs)
