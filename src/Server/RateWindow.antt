-- ===== src/Server/RateWindow.antt =====
-- Chat-Server/core/RateWindow.h: a fixed-window rate limiter. Times are Unix seconds, so natural
-- numbers; `nowSecs - m_windowStart >= m_windowSeconds` is written without the difference.
use xychat_project.Prelude.{
  ℕ, suc, ◌+◌, ◌*◌, ◌≤◌, ◌<◌, ◌≡◌, refl, inl, inr, Bool-cases, Bool, true, false, not, ◌||◌, ◌&&◌,
  List, [], ◌∷◌, ltb, leb, arith, if◌then◌else◌,
}

pub record RateWindow : Type 0 where
  pub max_count : ℕ
  pub window_seconds : ℕ
  pub window_start : ℕ
  pub count : ℕ
  pub initialized : Bool

-- The constructor.
pub init : ℕ → ℕ → RateWindow
init m w = record {
  max_count = m;
  window_seconds = w;
  window_start = 0;
  count = 0;
  initialized = false;
}

-- The first `if` of `allow`: a window that has run out starts anew.
unfoldable pub roll : RateWindow → ℕ → RateWindow
roll w now =
    if not w.initialized || leb (w.window_start + w.window_seconds) now
    then record w { window_start = now; count = 0; initialized = true }
    else w

unfoldable pub allow : RateWindow → ℕ → RateWindow × Bool
unfolding roll
allow w now =
    let r = roll w now in
    if leb r.max_count r.count then (r, false) else (record r { count = r.count + 1 }, true)

pub reset : RateWindow → RateWindow
reset w = record w { window_start = 0; count = 0; initialized = false }

-- How many calls at the given times are allowed and lie in `[a, b)`.
pub allowed_between : ℕ → ℕ → RateWindow → List ℕ → ℕ
allowed_between a b w [] = 0
allowed_between a b w (t ∷ ts) =
    let (w', passed) = allow w t in
    let rest = allowed_between a b w' ts in
    if passed && (leb a t && ltb t b) then suc rest else rest

-- The times of successive calls do not fall.
abbrev pub Ascending : ℕ → List ℕ → Type 0
Ascending lo [] = Unit {0}
Ascending lo (t ∷ ts) = (lo ≤ t) × Ascending t ts

-- Calls at or after `b` are not counted.
after_end :
    (a b : ℕ) (w : RateWindow) (lo : ℕ) (ts : List ℕ)
    → b ≤ lo
    → Ascending lo ts
    → allowed_between a b w ts ≡ 0
unfolding allowed_between
after_end a b w lo [] h s = omega arith
after_end a b w lo (t ∷ ts) h (s, ss) =
    ground (arith, after_end a b (allow w t).0 t ts (omega arith) ss)

-- The settings of a limiter, and a count within them.
abbrev pub IsWithin : ℕ → ℕ → RateWindow → Type 0
IsWithin m s w = (w.max_count ≡ m) × (w.window_seconds ≡ s) × (w.count ≤ m)

allow-IsWithin : (m s : ℕ) (w : RateWindow) (t : ℕ) → IsWithin m s w → IsWithin m s (allow w t).0
unfolding allow
allow-IsWithin m s w t h = ground arith

-- A window that began in the interval lets its remainder through at most.
begun_inside :
    (m s a : ℕ) (w : RateWindow) (lo : ℕ) (ts : List ℕ)
    → IsWithin m s w
    → w.initialized ≡ true
    → a ≤ w.window_start
    → Ascending lo ts
    → allowed_between a (a + s) w ts + w.count ≤ m
unfolding allowed_between allow
begun_inside m s a w lo [] h i k up = omega arith
begun_inside m s a w lo (t ∷ ts) h i k (up, ups) = ground (
  arith,
  after_end a (a + s) (allow w t).0 t ts,
  begun_inside m s a (allow w t).0 t ts (allow-IsWithin m s w t h),
)

-- From the interval's start on, at most the window that is running and one more are used up.
begun_before :
    (m s a : ℕ) (w : RateWindow) (lo : ℕ) (ts : List ℕ)
    → IsWithin m s w
    → a ≤ lo
    → Ascending lo ts
    → allowed_between a (a + s) w ts + w.count ≤ m + m
unfolding allowed_between allow
begun_before m s a w lo [] h k up = omega arith
begun_before m s a w lo (t ∷ ts) h k (up, ups) = ground (
  arith,
  begun_inside m s a (allow w t).0 t ts (allow-IsWithin m s w t h),
  begun_before m s a (allow w t).0 t ts (allow-IsWithin m s w t h),
)

allowed_within :
    (m s a : ℕ) (w : RateWindow) (lo : ℕ) (ts : List ℕ)
    → IsWithin m s w
    → Ascending lo ts
    → allowed_between a (a + s) w ts ≤ m + m
unfolding allowed_between
allowed_within m s a w lo [] h up = omega arith
allowed_within m s a w lo (t ∷ ts) h (up, ups) = elim (Bool-cases (leb a t)) [
  | inl late ↦ omega (arith, begun_before m s a w t (t ∷ ts) h (ground arith) (omega arith, ups))
  | inr early ↦
      ground (arith, allowed_within m s a (allow w t).0 t ts (allow-IsWithin m s w t h) ups)
]

-- However the calls are spread, a limiter that was just set up allows at most twice its count in
-- any stretch of time as long as its window, if the clock does not run backwards.
pub allowed_between-init :
    (m s a : ℕ) (ts : List ℕ) → Ascending 0 ts → allowed_between a (a + s) (init m s) ts ≤ 2 * m
unfolding init
allowed_between-init m s a ts up =
    omega (arith, allowed_within m s a (init m s) 0 ts (refl, refl, omega arith) up)

-- Once the current window has run out, or before any was begun, the next call is allowed and
-- begins a window of its own with a count of one, if the limiter allows anything.
pub allow_recovers :
    (w : RateWindow) (now : ℕ)
    → 0 < w.max_count
    → (w.initialized ≡ true → w.window_start + w.window_seconds ≤ now)
    → ((allow w now).1 ≡ true) × ((allow w now).0.count ≡ 1) × ((allow w now).0.window_start ≡ now)
unfolding allow
allow_recovers w now h k = elim (Bool-cases w.initialized) [
  | inl e ↦ ground (arith, k e)
  | inr e ↦ ground arith
]
