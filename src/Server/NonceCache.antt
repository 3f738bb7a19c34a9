-- ===== src/Server/NonceCache.antt =====
-- Chat-Server/core/NonceCache.{h,cpp}: the replay cache shared by all connections. A nonce is its
-- code units; times are Unix seconds. `now - t > ttl` is written `t + ttl < now`, which is the same
-- over the integers. The mutex makes each call one step.
pub mod Replay
use xychat_project.Prelude.{
  ℕ, zero, suc, ◌+◌, ◌/◌, Bool, true, false, List, [], ◌∷◌, ltb, leb, length, if◌then◌else◌, Option,
  none, some,
}
use xychat_project.Prelude.Assoc.{lookup, insert, text_eq}

abbrev pub Nonces : Type 0
Nonces = List (List ℕ × ℕ)

pub record NonceCache : Type 0 where
  pub nonces : Nonces
  pub ttl_seconds : ℕ
  pub max_entries : ℕ

pub init : ℕ → ℕ → NonceCache
init ttl cap = record { nonces = []; ttl_seconds = ttl; max_entries = cap }

-- The erasing loops keep the entries that were first seen at `oldest + slack >= bound`.
unfoldable pub keep_since : ℕ → ℕ → Nonces → Nonces
keep_since slack bound [] = []
keep_since slack bound ((n, t) ∷ m) =
    if ltb (t + slack) bound then keep_since slack bound m else (n, t) ∷ keep_since slack bound m

-- `purgeExpired`, also the lazy clean-up of `checkAndInsert`.
unfoldable pub purge_expired : NonceCache → ℕ → NonceCache
purge_expired c now = record c { nonces = keep_since c.ttl_seconds now c.nonces }

unfoldable pub lazy_purge : NonceCache → ℕ → NonceCache
lazy_purge c now = if ltb (c.max_entries / 2) (length c.nonces) then purge_expired c now else c

-- Whether the nonce is there and still within its lifetime.
unfoldable pub is_replay : NonceCache → List ℕ → ℕ → Bool
is_replay c nonce now = elim (lookup text_eq nonce c.nonces) [
  | none ↦ false
  | some t ↦ leb now (t + c.ttl_seconds)
]

-- At the limit, entries older than half the lifetime go.
unfoldable pub make_room : NonceCache → ℕ → NonceCache
make_room c now =
    if leb c.max_entries (length c.nonces)
    then record c { nonces = keep_since (c.ttl_seconds / 2) now c.nonces }
    else c

unfoldable pub record_nonce : NonceCache → List ℕ → ℕ → NonceCache
record_nonce c nonce now = record c { nonces = insert text_eq nonce now c.nonces }

-- `checkAndInsert`: true for a nonce that is seen for the first time.
unfoldable pub check_and_insert : NonceCache → List ℕ → ℕ → NonceCache × Bool
check_and_insert c [] now = (c, false)
check_and_insert c (u ∷ us) now =
    let c₁ = lazy_purge c now in
    if is_replay c₁ (u ∷ us) now
    then (c₁, false)
    else (record_nonce (make_room c₁ now) (u ∷ us) now, true)

pub size : NonceCache → ℕ
size c = length c.nonces

pub data Call : Type 0 where
  check : List ℕ → Call
  purge : Call

-- One call at a time.
unfoldable pub step : NonceCache → ℕ × Call → NonceCache
step c (now, check nonce) = (check_and_insert c nonce now).0
step c (now, purge) = purge_expired c now

unfoldable pub run : NonceCache → List (ℕ × Call) → NonceCache
run c [] = c
run c (x ∷ xs) = run (step c x) xs
