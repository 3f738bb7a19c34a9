-- ===== src/Server/OnlineRegistry/Refinement.antt =====
-- Chat-Server/core/OnlineRegistry.h: the registry as a set of pairs of a user and a session.
use xychat_project.Prelude.{
  ◌≡◌, ◌↔◌, refl, sym, ◌∙◌, Bool, true, false, ◌||◌, ◌&&◌, List, [], ◌∷◌, length, Option, none,
  some, if◌then◌else◌, arith, Option-cases, Bool-cases, inl, inr,
}
use xychat_project.Prelude.Assoc.{
  int_eq, lookup, insert, erase, lookup-insert, lookup-erase, has_key, is_functional,
  is_functional-insert, is_functional-erase,
}
use xychat_project.Prelude.Int.{ℤ, pos, leb_int, eq_int, eq_int_iff}
use xychat_project.Server.OnlineRegistry.{
  OnlineRegistry, contains, with_session, without_session, is_empty_set, is_bad_pair, set_or_empty,
  add_session, remove_session, is_online_set, is_online, online_user_ids, online_user_count,
  RegistryCall, add, remove, step, run,
}

-- The abstract view: which pairs of a user and a session are there.
abbrev pub Pairs : Type 0
Pairs = ℤ → ℤ → Bool

abbrev pub nobody : Pairs
nobody user session = false

-- A set, changed at one pair.
abbrev pub changed_at : ℤ → ℤ → Bool → Pairs → Pairs
changed_at user session b p u s = if eq_int user u && eq_int session s then b else p u s

-- What a call does to the set of pairs.
abbrev pub on_pairs : RegistryCall → Pairs → Pairs
on_pairs (add user session) p =
    if is_bad_pair user session then p else changed_at user session true p
on_pairs (remove user session) p =
    if is_bad_pair user session then p else changed_at user session false p

abbrev pub replay : Pairs → List RegistryCall → Pairs
replay p [] = p
replay p (c ∷ cs) = replay (on_pairs c p) cs

abbrev pub holds : OnlineRegistry → Pairs
holds r u s = contains s (set_or_empty (lookup int_eq u r))

contains-with_session :
    (n s : ℤ) (ts : List ℤ)
    → contains n (with_session s ts) ≡ (if eq_int s n then true else contains n ts)
contains-with_session n s ts = elim (Bool-cases (contains s ts)) [
  | inl e ↦ ground (arith, e, eq_int_iff s n)
  | inr e ↦ ground (arith, e)
]

contains-without_session :
    (n s : ℤ) (ts : List ℤ)
    → contains n (without_session s ts) ≡ (if eq_int s n then false else contains n ts)
contains-without_session n s [] = ground arith
contains-without_session n s (t ∷ ts) =
    ground (arith, eq_int_iff s n, eq_int_iff t s, eq_int_iff t n, contains-without_session n s ts)

holds-add_session :
    (r : OnlineRegistry) (user session u s : ℤ)
    → holds (add_session r user session) u s ≡ on_pairs (add user session) (holds r) u s
unfolding add_session
holds-add_session r user session u s =
    let ts = set_or_empty (lookup int_eq user r) in
    ground (
      arith,
      lookup-insert int_eq u user (with_session session ts) r,
      contains-with_session s session ts,
      eq_int_iff user u,
    )

holds-remove_session :
    (r : OnlineRegistry) (user session u s : ℤ)
    → holds (remove_session r user session) u s ≡ on_pairs (remove user session) (holds r) u s
unfolding remove_session
holds-remove_session r user session u s = elim (Option-cases (lookup int_eq user r)) [
  | inl e ↦ ground (arith, e, eq_int_iff user u)
  | inr (ts, e) ↦ elim (Bool-cases (is_empty_set (without_session session ts))) [
    | inl f ↦ ground (
      arith,
      e,
      f,
      lookup-erase int_eq u user r,
      contains-without_session s session ts,
      eq_int_iff user u,
    )
    | inr f ↦ ground (
      arith,
      e,
      f,
      lookup-insert int_eq u user (without_session session ts) r,
      contains-without_session s session ts,
      eq_int_iff user u,
    )
  ]
]

holds-step :
    (r : OnlineRegistry) (c : RegistryCall) (u s : ℤ)
    → holds (step r c) u s ≡ on_pairs c (holds r) u s
unfolding step
holds-step r (add user session) u s = holds-add_session r user session u s
holds-step r (remove user session) u s = holds-remove_session r user session u s

-- No set is empty, and no user has an id that is not positive.
abbrev pub is_tidy : OnlineRegistry → Bool
is_tidy [] = true
is_tidy ((u, ts) ∷ r) = if leb_int u (pos 0) || is_empty_set ts then false else is_tidy r

is_tidy-insert :
    (u : ℤ) (ts : List ℤ) (r : OnlineRegistry)
    → leb_int u (pos 0) ≡ false
    → is_empty_set ts ≡ false
    → is_tidy r ≡ true
    → is_tidy (insert int_eq u ts r) ≡ true
is_tidy-insert u ts [] hu ht h = ground (arith, hu, ht)
is_tidy-insert u ts ((v, xs) ∷ r) hu ht h = ground (arith, hu, ht, h, is_tidy-insert u ts r hu ht)

is_tidy-erase : (u : ℤ) (r : OnlineRegistry) → is_tidy r ≡ true → is_tidy (erase int_eq u r) ≡ true
is_tidy-erase u [] h = refl
is_tidy-erase u ((v, xs) ∷ r) h = ground (arith, h, is_tidy-erase u r)

record IsValid (r : OnlineRegistry) : Type 0 where
  tidy : is_tidy r ≡ true
  functional : is_functional int_eq r ≡ true

not_empty : (s : ℤ) (ts : List ℤ) → is_empty_set (with_session s ts) ≡ false
not_empty s [] = refl
not_empty s (t ∷ ts) = ground arith

step-IsValid : (r : OnlineRegistry) (c : RegistryCall) → IsValid r → IsValid (step r c)
unfolding step add_session remove_session
step-IsValid r (add u s) h =
    let ts = set_or_empty (lookup int_eq u r) in
    record {
      tidy = ground (arith, h.tidy, not_empty s ts, is_tidy-insert u (with_session s ts) r);
      functional =
          ground (arith, h.functional, is_functional-insert int_eq u (with_session s ts) r);
    }
step-IsValid r (remove u s) h =
    let ts = set_or_empty (lookup int_eq u r) in
    record {
      tidy = ground (arith, h.tidy, is_tidy-insert u (without_session s ts) r, is_tidy-erase u r);
      functional = ground (
        arith,
        h.functional,
        is_functional-insert int_eq u (without_session s ts) r,
        is_functional-erase int_eq u r,
      );
    }

run-IsValid : (r : OnlineRegistry) (cs : List RegistryCall) → IsValid r → IsValid (run r cs)
unfolding run
run-IsValid r [] h = h
run-IsValid r (c ∷ cs) h = run-IsValid (step r c) cs (step-IsValid r c h)

on_pairs-ext :
    (c : RegistryCall) (p q : Pairs)
    → ((u s : ℤ) → p u s ≡ q u s)
    → (u s : ℤ) → on_pairs c p u s ≡ on_pairs c q u s
on_pairs-ext (add user session) p q h u s = ground (arith, h u s)
on_pairs-ext (remove user session) p q h u s = ground (arith, h u s)

replay-ext :
    (cs : List RegistryCall) (p q : Pairs)
    → ((u s : ℤ) → p u s ≡ q u s)
    → (u s : ℤ) → replay p cs u s ≡ replay q cs u s
replay-ext [] p q h u s = h u s
replay-ext (c ∷ cs) p q h u s =
    replay-ext cs (on_pairs c p) (on_pairs c q) (on_pairs-ext c p q h) u s

holds-run :
    (r : OnlineRegistry) (cs : List RegistryCall) (u s : ℤ)
    → holds (run r cs) u s ≡ replay (holds r) cs u s
unfolding run
holds-run r [] u s = refl
holds-run r (c ∷ cs) u s =
    holds-run (step r c) cs u s
    ∙ replay-ext cs (holds (step r c)) (on_pairs c (holds r)) (holds-step r c) u s

online_of_pair :
    (r : OnlineRegistry) (u s : ℤ) → is_tidy r ≡ true → holds r u s ≡ true → is_online r u ≡ true
unfolding is_online
online_of_pair [] u s t h = absurd (ground arith)
online_of_pair ((v, []) ∷ r) u s t h = absurd (ground arith)
online_of_pair ((v, x ∷ xs) ∷ r) u s t h =
    ground (arith, t, h, eq_int_iff v u, online_of_pair r u s)

contains_head : (x : ℤ) (xs : List ℤ) → contains x (x ∷ xs) ≡ true
contains_head x xs = ground (arith, eq_int_iff x x)

pair_in :
    (r : OnlineRegistry) (u : ℤ) (o : Option (List ℤ))
    → lookup int_eq u r ≡ o
    → is_online_set o ≡ true
    → (s : ℤ) × (holds r u s ≡ true)
pair_in r u none e h = absurd (ground arith)
pair_in r u (some []) e h = absurd (ground arith)
pair_in r u (some (x ∷ xs)) e h = (x, ground (arith, e, contains_head x xs))

pair_of_online :
    (r : OnlineRegistry) (u : ℤ) → is_online r u ≡ true → (s : ℤ) × (holds r u s ≡ true)
unfolding is_online
pair_of_online r u h = pair_in r u (lookup int_eq u r) refl (ground (arith, h))

listed :
    (r : OnlineRegistry) (u : ℤ) → is_tidy r ≡ true → contains u (online_user_ids r) ≡ is_online r u
unfolding is_online online_user_ids
listed [] u t = ground arith
listed ((v, []) ∷ r) u t = absurd (ground arith)
listed ((v, x ∷ xs) ∷ r) u t = ground (arith, t, eq_int_iff v u, listed r u)

-- No id occurs twice.
abbrev pub is_distinct : List ℤ → Bool
is_distinct [] = true
is_distinct (u ∷ us) = if contains u us then false else is_distinct us

contains-online_user_ids :
    (u : ℤ) (r : OnlineRegistry) → contains u (online_user_ids r) ≡ has_key int_eq u r
unfolding online_user_ids
contains-online_user_ids u [] = refl
contains-online_user_ids u ((v, ts) ∷ r) = ground (arith, contains-online_user_ids u r)

is_distinct-online_user_ids :
    (r : OnlineRegistry)
    → is_functional int_eq r ≡ true
    → (is_distinct (online_user_ids r) ≡ true) × (length (online_user_ids r) ≡ online_user_count r)
unfolding online_user_ids online_user_count
is_distinct-online_user_ids [] h = ground arith
is_distinct-online_user_ids ((v, ts) ∷ r) h =
    ground (arith, h, contains-online_user_ids v r, is_distinct-online_user_ids r)

empty-IsValid : IsValid []
empty-IsValid = record { tidy = refl; functional = refl }

-- After any sequence of calls on an empty registry, in particular any interleaving of the calls
-- of several connections: a session is registered for a user exactly if it is in the set of pairs
-- to which each call adds its pair, or from which it removes it, while calls with an id that is
-- not positive change nothing; a user is online exactly if a session is registered for the user;
-- and the listed ids are those of the users who are online, each once, as many as are counted.
pub run_refines :
    (cs : List RegistryCall) (u : ℤ)
    → ((s : ℤ) → holds (run [] cs) u s ≡ replay nobody cs u s)
      × ((is_online (run [] cs) u ≡ true) ↔ ((s : ℤ) × (replay nobody cs u s ≡ true)))
      × (contains u (online_user_ids (run [] cs)) ≡ is_online (run [] cs) u)
      × (is_distinct (online_user_ids (run [] cs)) ≡ true)
      × (length (online_user_ids (run [] cs)) ≡ online_user_count (run [] cs))
run_refines cs u =
    let r = run [] cs in
    let v : IsValid r = run-IsValid [] cs empty-IsValid in
    let d = is_distinct-online_user_ids r v.functional in
    let to : (is_online r u ≡ true) → (s : ℤ) × (replay nobody cs u s ≡ true) =
      λ h. let p = pair_of_online r u h in (p.0, sym (holds-run [] cs u (p.0)) ∙ p.1) in
    let from : (s : ℤ) × (replay nobody cs u s ≡ true) → is_online r u ≡ true =
      λ p. online_of_pair r u (p.0) v.tidy (holds-run [] cs u (p.0) ∙ p.1) in
    (holds-run [] cs u, (to, from), listed r u v.tidy, d.0, d.1)
