-- ===== src/Server/FileHttp/Ranges.antt =====
-- Chat-Server/http/FileHttpService.cpp: what the Range header means.
use xychat_project.Prelude.{
  ℕ, ◌+◌, ◌-◌, ◌≤◌, ◌<◌, ◌≡◌, refl, Bool, true, false, ◌&&◌, List, [], ◌∷◌, ◌++◌, ltb, leb, length,
  take, drop, min, some, if◌then◌else◌, arith, Option-cases, inl, inr, take-length,
}
use xychat_project.Prelude.Int.{ℤ, pos, ltb_int}
use xychat_project.Prelude.Json.{codes}
use xychat_project.Server.FileHttp.Parse.{
  NumberFormat, is_space, trim_start, trim_end, trimmed, is_empty, same_letters, contains_byte,
  index_of, RangeResult, range, range_between, range_end, range_start, range_spec, parse_range,
}

-- A range that lies in an object of `size` bytes and is not empty, or no range.
abbrev pub is_within : ℕ → RangeResult → Bool
is_within size (range offset count) = ltb 0 count && leb (offset + count) size
is_within size _ = true

within-between :
    (size : ℕ) (start end : ℤ)
    → ltb_int start (pos 0) ≡ false
    → is_within size (range_between (pos size) start end) ≡ true
unfolding range_between
within-between size (pos a) end h = ground arith
within-between size _ end h = absurd (ground arith)

within-end :
    (q : NumberFormat) (size : ℕ) (start : ℤ) (t : List ℕ)
    → ltb_int start (pos 0) ≡ false
    → is_within size (range_end q (pos size) start t) ≡ true
unfolding range_end
within-end q size start t h = elim (Option-cases (q.to_long_long t)) [
  | inl e ↦ ground (arith, e, within-between size start (pos (size - 1)) h)
  | inr (end, e) ↦
      ground
        (arith, e, within-between size start (pos (size - 1)) h, within-between size start end h)
]

within-start :
    (q : NumberFormat) (size : ℕ) (spec : List ℕ) (dash : ℕ)
    → is_within size (range_start q (pos size) spec dash) ≡ true
unfolding range_start
within-start q size spec dash = elim (Option-cases (q.to_long_long (trimmed (take dash spec)))) [
  | inl e ↦ ground (arith, e)
  | inr (start, e) ↦ ground (arith, e, within-end q size start (trimmed (drop (dash + 1) spec)))
]

-- Whatever the header holds, a range that is read from it is not empty and lies in the object.
pub parse_range-within :
    (q : NumberFormat) (header : List ℕ) (size : ℕ)
    → is_within size (parse_range q header (pos size)) ≡ true
unfolding parse_range range_spec
parse_range-within q header size =
    let spec = trimmed (drop 6 header) in
    elim (Option-cases (index_of b'-' spec)) [
      | inl e ↦ ground (arith, e)
      | inr (dash, e) ↦ ground (arith, e, within-start q size spec dash)
    ]

-- Decimal digits only.
abbrev pub is_decimal : List ℕ → Bool
is_decimal [] = true
is_decimal (c ∷ cs) = if leb b'0' c && leb c b'9' then is_decimal cs else false

abbrev has_no_space : List ℕ → Bool
has_no_space [] = true
has_no_space (c ∷ cs) = if is_space c then false else has_no_space cs

decimal_no_space : (t : List ℕ) → is_decimal t ≡ true → has_no_space t ≡ true
decimal_no_space [] h = refl
decimal_no_space (c ∷ cs) h = ground (arith, h, decimal_no_space cs)

no_space_append :
    (s t : List ℕ) → has_no_space s ≡ true → has_no_space t ≡ true → has_no_space (s ++ t) ≡ true
no_space_append [] t h g = g
no_space_append (c ∷ cs) t h g = ground (arith, h, no_space_append cs t)

trim_end_lem : (t : List ℕ) → has_no_space t ≡ true → trim_end t ≡ t
unfolding trim_end
trim_end_lem [] h = refl
trim_end_lem (c ∷ cs) h = ground (arith, h, trim_end_lem cs)

trim_start_lem : (t : List ℕ) → has_no_space t ≡ true → trim_start t ≡ t
unfolding trim_start
trim_start_lem [] h = refl
trim_start_lem (c ∷ cs) h = ground (arith, h)

trimmed_lem : (t : List ℕ) → has_no_space t ≡ true → trimmed t ≡ t
unfolding trimmed
trimmed_lem t h = ground (arith, trim_start_lem t h, trim_end_lem t h)

no_comma :
    (s t : List ℕ)
    → is_decimal s ≡ true
    → is_decimal t ≡ true
    → contains_byte b',' (s ++ (b'-' ∷ t)) ≡ false
unfolding contains_byte
no_comma [] [] h g = refl
no_comma [] (d ∷ ds) h g = ground (arith, g, no_comma [] ds)
no_comma (c ∷ cs) t h g = ground (arith, h, no_comma cs t)

index-dash :
    (s t : List ℕ) → is_decimal s ≡ true → index_of b'-' (s ++ (b'-' ∷ t)) ≡ some (length s)
unfolding index_of
index-dash [] t h = refl
index-dash (c ∷ cs) t h = ground (arith, h, index-dash cs t)

-- The header that asks for the bytes from `s` to `t`.
abbrev pub range_header : List ℕ → List ℕ → List ℕ
range_header s t = codes "bytes=" ++ (s ++ (b'-' ∷ t))

spec_of_header :
    (s t : List ℕ)
    → is_decimal s ≡ true
    → is_decimal t ≡ true
    → trimmed (s ++ (b'-' ∷ t)) ≡ s ++ (b'-' ∷ t)
spec_of_header s t h g =
    trimmed_lem (s ++ (b'-' ∷ t))
      (no_space_append s (b'-' ∷ t) (decimal_no_space s h) (decimal_no_space t g))

range_between_lem :
    (a b size : ℕ)
    → a ≤ b
    → a < size
    → range_between (pos size) (pos a) (pos b) ≡ range a (min b (size - 1) - a + 1)
unfolding range_between
range_between_lem a b size h l = ground arith

drop_past : (s t : List ℕ) → drop (length s + 1) (s ++ (b'-' ∷ t)) ≡ t
drop_past [] t = refl
drop_past (c ∷ cs) t = ground (arith, drop_past cs t)

start_of_lem :
    (q : NumberFormat) (s t : List ℕ) (a b size : ℕ)
    → is_decimal s ≡ true
    → is_decimal t ≡ true
    → is_empty t ≡ false
    → q.to_long_long s ≡ some (pos a)
    → q.to_long_long t ≡ some (pos b)
    → range_start q (pos size) (s ++ (b'-' ∷ t)) (length s)
      ≡ range_between (pos size) (pos a) (pos b)
unfolding range_start range_end
start_of_lem q s t a b size hs ht nt ea eb =
    let cut : take (length s) (s ++ (b'-' ∷ t)) ≡ s = take-length s (b'-' ∷ t) (length s) refl in
    let rest : drop (length s + 1) (s ++ (b'-' ∷ t)) ≡ t = drop_past s t in
    ground (
      arith,
      cut,
      rest,
      trimmed_lem s (decimal_no_space s hs),
      trimmed_lem t (decimal_no_space t ht),
      ea,
      eb,
      nt,
    )

prefix_lem : same_letters (codes "bytes=") (codes "bytes=") ≡ true
unfolding same_letters
prefix_lem = refl

-- A request for the bytes from `a` to `b`, written in decimal digits that Qt reads as these numbers,
-- is a range from `a` to `b` or to the end of the object, whichever comes first.
pub parse_range-request :
    (q : NumberFormat) (s t : List ℕ) (a b size : ℕ)
    → is_decimal s ≡ true
    → is_decimal t ≡ true
    → is_empty s ≡ false
    → is_empty t ≡ false
    → q.to_long_long s ≡ some (pos a)
    → q.to_long_long t ≡ some (pos b)
    → a ≤ b
    → a < size
    → parse_range q (range_header s t) (pos size) ≡ range a (min b (size - 1) - a + 1)
unfolding parse_range range_spec
parse_range-request q [] t a b size hs ht ns nt ea eb l m = absurd (ground arith)
parse_range-request q (c ∷ cs) t a b size hs ht ns nt ea eb l m = ground (
  arith,
  prefix_lem,
  spec_of_header (c ∷ cs) t hs ht,
  no_comma (c ∷ cs) t hs ht,
  index-dash (c ∷ cs) t hs,
  start_of_lem q (c ∷ cs) t a b size hs ht nt ea eb,
  range_between_lem a b size l m,
  hs,
)
