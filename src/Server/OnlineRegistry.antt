-- ===== src/Server/OnlineRegistry.antt =====
-- Chat-Server/core/OnlineRegistry.h: which sessions of each user have an authenticated connection.
-- The hash from users to sets of sessions is an association list with lists; the mutex makes each
-- call one step, so that the calls of all threads are one sequence.
pub mod Refinement
use xychat_project.Prelude.{
  ℕ, Bool, true, false, ◌||◌, not, List, [], ◌∷◌, length, Option, none, some, if◌then◌else◌,
}
use xychat_project.Prelude.Assoc.{int_eq, lookup, insert, erase}
use xychat_project.Prelude.Int.{ℤ, pos, leb_int, eq_int}

abbrev pub OnlineRegistry : Type 0
OnlineRegistry = List (ℤ × List ℤ)

-- `QSet::contains`, `QSet::insert`, `QSet::remove` and `QSet::isEmpty`.
abbrev pub contains : ℤ → List ℤ → Bool
contains s [] = false
contains s (t ∷ ts) = if eq_int t s then true else contains s ts

abbrev pub with_session : ℤ → List ℤ → List ℤ
with_session s ts = if contains s ts then ts else s ∷ ts

abbrev pub without_session : ℤ → List ℤ → List ℤ
without_session s [] = []
without_session s (t ∷ ts) =
    let rest = without_session s ts in if eq_int t s then rest else t ∷ rest

abbrev pub is_empty_set : List ℤ → Bool
is_empty_set [] = true
is_empty_set (t ∷ ts) = false

-- `userId <= 0 || sessionId <= 0`.
abbrev pub is_bad_pair : ℤ → ℤ → Bool
is_bad_pair user session = leb_int user (pos 0) || leb_int session (pos 0)

-- `m_sessionsByUser[userId]`, which is an empty set for a new user.
abbrev pub set_or_empty : Option (List ℤ) → List ℤ
set_or_empty none = []
set_or_empty (some ts) = ts

unfoldable pub add_session : OnlineRegistry → ℤ → ℤ → OnlineRegistry
add_session r user session =
    if is_bad_pair user session
    then r
    else insert int_eq user (with_session session (set_or_empty (lookup int_eq user r))) r

-- A set that becomes empty is erased.
abbrev pub remove_found : OnlineRegistry → ℤ → ℤ → Option (List ℤ) → OnlineRegistry
remove_found r user session none = r
remove_found r user session (some ts) =
    if is_empty_set (without_session session ts)
    then erase int_eq user r
    else insert int_eq user (without_session session ts) r

unfoldable pub remove_session : OnlineRegistry → ℤ → ℤ → OnlineRegistry
remove_session r user session =
    if is_bad_pair user session then r else remove_found r user session (lookup int_eq user r)

abbrev pub is_online_set : Option (List ℤ) → Bool
is_online_set none = false
is_online_set (some ts) = not (is_empty_set ts)

unfoldable pub is_online : OnlineRegistry → ℤ → Bool
is_online r user = if leb_int user (pos 0) then false else is_online_set (lookup int_eq user r)

-- The keys of the hash are distinct, so that the set of ids is the list of keys.
unfoldable pub online_user_ids : OnlineRegistry → List ℤ
online_user_ids [] = []
online_user_ids ((user, ts) ∷ r) = user ∷ online_user_ids r

unfoldable pub online_user_count : OnlineRegistry → ℕ
online_user_count r = length r

pub data RegistryCall : Type 0 where
  add : ℤ → ℤ → RegistryCall
  remove : ℤ → ℤ → RegistryCall

unfoldable pub step : OnlineRegistry → RegistryCall → OnlineRegistry
step r (add user session) = add_session r user session
step r (remove user session) = remove_session r user session

unfoldable pub run : OnlineRegistry → List RegistryCall → OnlineRegistry
run r [] = r
run r (c ∷ cs) = run (step r c) cs
