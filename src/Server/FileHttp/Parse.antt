-- ===== src/Server/FileHttp/Parse.antt =====
-- Chat-Server/http/FileHttpService.cpp: the parsing of the Range header and of numbers in a path.
-- How Qt reads a number and which characters it takes for digits is `NumberFormat`.
use xychat_project.Prelude.{
  ℕ, ◌+◌, ◌-◌, Bool, true, false, ◌||◌, ◌&&◌, not, List, [], ◌∷◌, ltb, leb, ◌==◌, length, take,
  drop, Option, none, some, if◌then◌else◌,
}
use xychat_project.Prelude.Int.{ℤ, pos, pos_part, leb_int, ltb_int}
use xychat_project.Prelude.Json.{codes}

-- `toLongLong` of a text, none where it says that it failed.
pub record NumberFormat : Type 0 where
  pub to_long_long : List ℕ → Option ℤ
  pub is_digit : ℕ → Bool

-- `QByteArray::trimmed`.
abbrev pub is_space : ℕ → Bool
is_space c = (leb 9 c && leb c 13) || (c == 32)

unfoldable pub trim_start : List ℕ → List ℕ
trim_start [] = []
trim_start (c ∷ cs) = if is_space c then trim_start cs else c ∷ cs

abbrev pub is_empty : List ℕ → Bool
is_empty [] = true
is_empty (c ∷ cs) = false

unfoldable pub trim_end : List ℕ → List ℕ
trim_end [] = []
trim_end (c ∷ cs) = let rest = trim_end cs in if is_empty rest && is_space c then [] else c ∷ rest

unfoldable pub trimmed : List ℕ → List ℕ
trimmed t = trim_end (trim_start t)

abbrev pub to_lower : ℕ → ℕ
to_lower c = if leb b'A' c && leb c b'Z' then c + 32 else c

-- A comparison without case.
unfoldable pub same_letters : List ℕ → List ℕ → Bool
same_letters [] [] = true
same_letters [] (y ∷ ys) = false
same_letters (x ∷ xs) [] = false
same_letters (x ∷ xs) (y ∷ ys) = if to_lower x == to_lower y then same_letters xs ys else false

unfoldable pub contains_byte : ℕ → List ℕ → Bool
contains_byte c [] = false
contains_byte c (x ∷ xs) = if x == c then true else contains_byte c xs

-- `indexOf`; none for -1.
unfoldable pub index_of : ℕ → List ℕ → Option ℕ
index_of c [] = none
index_of c (x ∷ xs) =
    if x == c then some 0 else elim (index_of c xs) [ none ↦ none | some i ↦ some (i + 1) ]

abbrev pub starts_with : ℕ → List ℕ → Bool
starts_with c [] = false
starts_with c (x ∷ xs) = x == c

pub data RangeResult : Type 0 where
  absent malformed unsatisfiable : RangeResult
  range : ℕ → ℕ → RangeResult

-- With the start and the end as they were read; an end past the object is cut.
unfoldable pub range_between : ℤ → ℤ → ℤ → RangeResult
range_between size start end =
    let last = if leb_int size end then pos_part size - 1 else pos_part end in
    if leb_int size start
    then unsatisfiable
    else if ltb last (pos_part start)
    then malformed
    else range (pos_part start) (last - pos_part start + 1)

-- The end: the rest of the object if the text is empty.
unfoldable pub range_end : NumberFormat → ℤ → ℤ → List ℕ → RangeResult
range_end q size start t =
    if is_empty t
    then range_between size start (pos (pos_part size - 1))
    else elim (q.to_long_long t) [
      | none ↦ malformed
      | some end ↦ if ltb_int end (pos 0) then malformed else range_between size start end
    ]

unfoldable pub range_start : NumberFormat → ℤ → List ℕ → ℕ → RangeResult
range_start q size spec dash = elim (q.to_long_long (trimmed (take dash spec))) [
  | none ↦ malformed
  | some start ↦
      if ltb_int start (pos 0)
      then malformed
      else range_end q size start (trimmed (drop (dash + 1) spec))
]

abbrev pub range_at : NumberFormat → ℤ → List ℕ → Option ℕ → RangeResult
range_at q size spec none = malformed
range_at q size spec (some dash) = if dash == 0 then malformed else range_start q size spec dash

unfoldable pub range_spec : NumberFormat → ℤ → List ℕ → RangeResult
range_spec q size spec =
    if is_empty spec || (contains_byte b',' spec || starts_with b'-' spec)
    then malformed
    else range_at q size spec (index_of b'-' spec)

-- `parseRange`, for an object that is not empty.
unfoldable pub parse_range : NumberFormat → List ℕ → ℤ → RangeResult
parse_range q header size =
    if is_empty header
    then absent
    else if not (same_letters (take 6 header) (codes "bytes="))
    then malformed
    else range_spec q size (trimmed (drop 6 header))

unfoldable pub all_digits : NumberFormat → List ℕ → Bool
all_digits q [] = true
all_digits q (c ∷ cs) = if q.is_digit c then all_digits q cs else false

-- `parsePathNumber`.
abbrev pub not_negative : Option ℤ → Option ℤ
not_negative none = none
not_negative (some v) = if ltb_int v (pos 0) then none else some v

unfoldable pub parse_path_number : NumberFormat → List ℕ → Option ℤ
parse_path_number q t =
    if is_empty t || ltb 19 (length t)
    then none
    else if not (all_digits q t)
    then none
    else not_negative (q.to_long_long t)
