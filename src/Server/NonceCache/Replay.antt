-- ===== src/Server/NonceCache/Replay.antt =====
-- What the cache promises: a nonce is accepted once, and what the size limit does to that.
use native.Mathlib.Decide.{ℕ_discrete}
use xychat_project.Prelude.{
  ℕ, ◌+◌, ◌/◌, ◌≤◌, ◌<◌, ◌≡◌, ◌≢◌, refl, ◌∙◌, inl, inr, ◌⊎◌, true, false, List, [], ◌∷◌, length,
  if◌then◌else◌, none, some, arith, All,
}
use xychat_project.Prelude.Assoc.{lookup, insert, text_eq, text_beq_iff}
use xychat_project.Server.NonceCache.{
  Nonces, NonceCache, keep_since, purge_expired, lazy_purge, is_replay, make_room, record_nonce,
  check_and_insert, Call, check, purge, step, run, size,
}

text_discrete : Discrete (List ℕ)
text_discrete = hlevel ℕ_discrete

lookup-keep_since :
    (slack bound : ℕ) (n : List ℕ) (t : ℕ) (m : Nonces)
    → lookup text_eq n m ≡ some t
    → bound ≤ t + slack
    → lookup text_eq n (keep_since slack bound m) ≡ some t
unfolding keep_since
lookup-keep_since slack bound n t [] e h = cc
lookup-keep_since slack bound n t ((k, u) ∷ m) e h =
    ground (arith, lookup-keep_since slack bound n t m)

lookup-insert :
    (k n : List ℕ) (v : ℕ) (m : Nonces)
    → lookup text_eq n (insert text_eq k v m)
      ≡ (if text_eq.beq k n then some v else lookup text_eq n m)
lookup-insert k n v [] = refl
lookup-insert k n v ((j, w) ∷ m) =
    ground (arith, text_beq_iff k n, text_beq_iff j k, text_beq_iff j n, lookup-insert k n v m)

-- The cache remembers that the nonce was seen at `t`.
abbrev pub Remembers : List ℕ → ℕ → NonceCache → Type 0
Remembers n t c = lookup text_eq n c.nonces ≡ some t

lazy_purge-Remembers :
    (c : NonceCache) (n : List ℕ) (t now : ℕ)
    → Remembers n t c
    → now ≤ t + c.ttl_seconds
    → Remembers n t (lazy_purge c now)
unfolding lazy_purge purge_expired
lazy_purge-Remembers c n t now e h =
    ground (arith, lookup-keep_since c.ttl_seconds now n t c.nonces)

-- The clean-up at the limit spares what is younger than half the lifetime, and runs only at the limit.
make_room-Remembers :
    (c : NonceCache) (n : List ℕ) (t now : ℕ)
    → Remembers n t c
    → (now ≤ t + c.ttl_seconds / 2) ⊎ (length c.nonces < c.max_entries)
    → Remembers n t (make_room c now)
unfolding make_room
make_room-Remembers c n t now e (inl h) =
    ground (arith, lookup-keep_since (c.ttl_seconds / 2) now n t c.nonces)
make_room-Remembers c n t now e (inr h) = ground arith

settings_kept :
    (c : NonceCache) (x : ℕ × Call)
    → ((step c x).ttl_seconds ≡ c.ttl_seconds) × ((step c x).max_entries ≡ c.max_entries)
unfolding step check_and_insert lazy_purge purge_expired make_room record_nonce
settings_kept c (now, check []) = ground arith
settings_kept c (now, check (u ∷ us)) = ground arith
settings_kept c (now, purge) = ground arith

is_replay_of_Remembers :
    (c : NonceCache) (n : List ℕ) (t now : ℕ)
    → Remembers n t c
    → now ≤ t + c.ttl_seconds
    → is_replay c n now ≡ true
unfolding is_replay
is_replay_of_Remembers c n t now e h = ground arith

lazy_purge_settings :
    (c : NonceCache) (now : ℕ)
    → ((lazy_purge c now).ttl_seconds ≡ c.ttl_seconds)
      × ((lazy_purge c now).max_entries ≡ c.max_entries)
unfolding lazy_purge purge_expired
lazy_purge_settings c now = ground arith

-- A remembered nonce is refused for its whole lifetime.
refused_while_remembered :
    (c : NonceCache) (n : List ℕ) (t now : ℕ)
    → Remembers n t c
    → now ≤ t + c.ttl_seconds
    → (check_and_insert c n now).1 ≡ false
unfolding check_and_insert
refused_while_remembered c [] t now e h = refl
refused_while_remembered c (u ∷ us) t now e h = ground (
  arith,
  lazy_purge_settings c now,
  is_replay_of_Remembers (lazy_purge c now) (u ∷ us) t now
      (lazy_purge-Remembers c (u ∷ us) t now e h),
)

length-keep_since-le : (slack bound : ℕ) (m : Nonces) → length (keep_since slack bound m) ≤ length m
unfolding keep_since
length-keep_since-le slack bound [] = omega arith
length-keep_since-le slack bound ((k, u) ∷ m) = ground (arith, length-keep_since-le slack bound m)

length-lazy_purge-le :
    (c : NonceCache) (now : ℕ) → length (lazy_purge c now).nonces ≤ length c.nonces
unfolding lazy_purge purge_expired
length-lazy_purge-le c now = ground (arith, length-keep_since-le c.ttl_seconds now c.nonces)

record_nonce-Remembers :
    (c : NonceCache) (k n : List ℕ) (t now : ℕ)
    → k ≢ n
    → Remembers n t c
    → Remembers n t (record_nonce c k now)
unfolding record_nonce
record_nonce-Remembers c k n t now d e =
    ground (arith, lookup-insert k n now c.nonces, text_beq_iff k n)

abbrev Spares : ℕ → ℕ → NonceCache → Type 0
Spares t now c =
    (now ≤ t + c.ttl_seconds) × ((now ≤ t + c.ttl_seconds / 2) ⊎ (length c.nonces < c.max_entries))

check-Remembers :
    (c : NonceCache) (k n : List ℕ) (t now : ℕ)
    → Spares t now c
    → Remembers n t c
    → Remembers n t (check_and_insert c k now).0
unfolding check_and_insert
check-Remembers c [] n t now (h, room) e = e
check-Remembers c (u ∷ us) n t now (h, room) e =
    let c₁ = lazy_purge c now in
    let e₁ = lazy_purge-Remembers c n t now e h in
    let (s, m) = lazy_purge_settings c now in
    elim (text_discrete (u ∷ us) n) [
      | yes same ↦ ground (arith, same, s, is_replay_of_Remembers c₁ n t now e₁)
      | no other ↦ ground (
        arith,
        s,
        m,
        e₁,
        length-lazy_purge-le c now,
        make_room-Remembers c₁ n t now e₁,
        record_nonce-Remembers (make_room c₁ now) (u ∷ us) n t now other,
      )
    ]

step-Remembers :
    (c : NonceCache) (n : List ℕ) (t now : ℕ) (x : Call)
    → Spares t now c
    → Remembers n t c
    → Remembers n t (step c (now, x))
unfolding step purge_expired
step-Remembers c n t now (check k) h e = check-Remembers c k n t now h e
step-Remembers c n t now purge (h, _) e = lookup-keep_since c.ttl_seconds now n t c.nonces e h

-- Every call comes within the lifetime of a nonce seen at `t`, and after more than half of it only
-- while the cache is below its limit.
abbrev pub Calm : ℕ → NonceCache → List (ℕ × Call) → Type 0
Calm t c [] = Unit {0}
Calm t c ((now, x) ∷ xs) = Spares t now c × Calm t (step c (now, x)) xs

run-Remembers :
    (c : NonceCache) (n : List ℕ) (t : ℕ) (xs : List (ℕ × Call))
    → Calm t c xs
    → Remembers n t c
    → Remembers n t (run c xs)
unfolding run
run-Remembers c n t [] h e = e
run-Remembers c n t ((now, x) ∷ xs) (h, hs) e =
    run-Remembers (step c (now, x)) n t xs hs (step-Remembers c n t now x h e)

run_settings : (c : NonceCache) (xs : List (ℕ × Call)) → (run c xs).ttl_seconds ≡ c.ttl_seconds
unfolding run
run_settings c [] = refl
run_settings c (x ∷ xs) = run_settings (step c x) xs ∙ (settings_kept c x).0

accepted-Remembers :
    (c : NonceCache) (n : List ℕ) (t : ℕ)
    → (check_and_insert c n t).1 ≡ true
    → Remembers n t (check_and_insert c n t).0
unfolding check_and_insert record_nonce
accepted-Remembers c [] t h = cc
accepted-Remembers c (u ∷ us) t h = ground (
  arith,
  lookup-insert (u ∷ us) (u ∷ us) t (make_room (lazy_purge c t) t).nonces,
  text_beq_iff (u ∷ us) (u ∷ us),
)

check_ttl :
    (c : NonceCache) (n : List ℕ) (t : ℕ) → (check_and_insert c n t).0.ttl_seconds ≡ c.ttl_seconds
unfolding step
check_ttl c n t = (settings_kept c (t, check n)).0

-- A nonce that was accepted at `t` is refused for its whole lifetime, whatever calls come in
-- between: unconditionally for half the lifetime, and after that as long as those later calls find
-- the cache below its limit.
pub accepted_once :
    (c : NonceCache) (n : List ℕ) (t now : ℕ) (xs : List (ℕ × Call))
    → (check_and_insert c n t).1 ≡ true
    → Calm t (check_and_insert c n t).0 xs
    → now ≤ t + c.ttl_seconds
    → (check_and_insert (run (check_and_insert c n t).0 xs) n now).1 ≡ false
accepted_once c n t now xs a h le =
    let c' = (check_and_insert c n t).0 in
    refused_while_remembered (run c' xs) n t now
      (run-Remembers c' n t xs h (accepted-Remembers c n t a))
      (omega (arith, run_settings c' xs, check_ttl c n t))

keep_since-All :
    (slack bound : ℕ) (m : Nonces)
    → All (λ (x : List ℕ × ℕ). bound ≤ x.1 + slack) m
    → keep_since slack bound m ≡ m
unfolding keep_since
keep_since-All slack bound [] h = refl
keep_since-All slack bound ((k, t) ∷ m) (h, hs) = ground (arith, keep_since-All slack bound m hs)

length-insert_new :
    (k : List ℕ) (v : ℕ) (m : Nonces)
    → lookup text_eq k m ≡ none
    → length (insert text_eq k v m) ≡ length m + 1
length-insert_new k v [] e = refl
length-insert_new k v ((j, w) ∷ m) e = ground (arith, length-insert_new k v m)

-- The limit is not a hard one: while every entry is younger than half the lifetime, a new nonce is
-- accepted and the cache grows by one entry, however many it holds.
pub grows_past_limit :
    (c : NonceCache) (n : List ℕ) (now : ℕ)
    → n ≢ []
    → lookup text_eq n c.nonces ≡ none
    → All (λ (x : List ℕ × ℕ). now ≤ x.1 + c.ttl_seconds / 2) c.nonces
    → ((check_and_insert c n now).1 ≡ true) × (size (check_and_insert c n now).0 ≡ size c + 1)
unfolding check_and_insert size lazy_purge purge_expired is_replay make_room record_nonce
grows_past_limit c [] now h e young = absurd (h refl)
grows_past_limit c (u ∷ us) now h e young =
    let half = keep_since-All (c.ttl_seconds / 2) now c.nonces young in
    let full = keep_since-All c.ttl_seconds now c.nonces (weaken c.nonces young) in
    ground (arith, half, full, length-insert_new (u ∷ us) now c.nonces e)
  where
    weaken :
        (m : Nonces)
        → All (λ (x : List ℕ × ℕ). now ≤ x.1 + c.ttl_seconds / 2) m
        → All (λ (x : List ℕ × ℕ). now ≤ x.1 + c.ttl_seconds) m
    weaken [] y = tt
    weaken (x ∷ xs) (y, ys) = (omega arith, weaken xs ys)
