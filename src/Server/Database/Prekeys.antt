-- ===== src/Server/Database/Prekeys.antt =====
-- Chat-Server/database/DatabaseManager.cpp: the one-time prekeys of the pairwise encryption. The
-- table is its rows in the order of their ids, which the database gives out ascending; times are
-- seconds. A transaction may fail to begin or to commit, and each `UPDATE` of `consumePrekeys` may
-- fail; the statements inside the other two transactions succeed.
pub mod Rows
pub mod Held
pub mod Lifecycle
pub mod Spent
use xychat_project.Prelude.{
  ℕ, zero, suc, ◌+◌, ◌≤◌, Bool, true, false, ◌||◌, ◌&&◌, not, List, [], ◌∷◌, ◌++◌, map, ltb, leb,
  ◌==◌, length, Option, none, some, if◌then◌else◌,
}
use xychat_project.Prelude.Assoc.{text_beq}

pub data PrekeyStatus : Type 0 where
  unused claimed used : PrekeyStatus

pub record Prekey : Type 0 where
  pub id : ℕ
  pub user_id : ℕ
  pub device_id : List ℕ
  pub pub_key : List ℕ
  pub status : PrekeyStatus
  pub claimed_at : Option ℕ

pub record Prekeys : Type 0 where
  pub rows : List Prekey
  pub next_id : ℕ

pub record ClaimedPrekey : Type 0 where
  pub device_id : List ℕ
  pub prekey_id : ℕ
  pub prekey_pub : List ℕ

abbrev pub claim_timeout : ℕ
claim_timeout = 600

abbrev pub is_unused : PrekeyStatus → Bool
is_unused unused = true
is_unused claimed = false
is_unused used = false

abbrev pub is_claimed : PrekeyStatus → Bool
is_claimed unused = false
is_claimed claimed = true
is_claimed used = false

-- `claimed_at <= now - 600 seconds`, which does not hold of NULL.
abbrev pub is_overdue : Option ℕ → ℕ → Bool
is_overdue none now = false
is_overdue (some t) now = leb (t + claim_timeout) now

abbrev pub reclaim_row : ℕ → Prekey → Prekey
reclaim_row now p =
    if is_claimed p.status && is_overdue p.claimed_at now
    then record p { status = unused; claimed_at = none }
    else p

abbrev pub claim_row : ℕ → ℕ → Prekey → Prekey
claim_row i now p =
    if (p.id == i) && is_unused p.status
    then record p { status = claimed; claimed_at = some now }
    else p

abbrev pub consume_row : ℕ → Prekey → Prekey
consume_row i p = if (p.id == i) && is_claimed p.status then record p { status = used } else p

abbrev pub has_text : List ℕ → List (List ℕ) → Bool
has_text d [] = false
has_text d (e ∷ es) = if text_beq d e then true else has_text d es

-- `SELECT DISTINCT device_id` of the user's unused prekeys.
unfoldable pub devices_in_stock : ℕ → List Prekey → List (List ℕ)
devices_in_stock user [] = []
devices_in_stock user (p ∷ ps) =
    let rest = devices_in_stock user ps in
    if (p.user_id == user) && is_unused p.status
    then (if has_text p.device_id rest then rest else p.device_id ∷ rest)
    else rest

-- `ORDER BY id LIMIT 1` of the unused prekeys of a device.
unfoldable pub first_unused : ℕ → List ℕ → List Prekey → Option Prekey
first_unused user device [] = none
first_unused user device (p ∷ ps) =
    if (p.user_id == user) && (text_beq p.device_id device && is_unused p.status)
    then some p
    else first_unused user device ps

-- The loop over the devices; a device without stock is skipped.
unfoldable pub claim_each : ℕ → ℕ → List (List ℕ) → List Prekey → List Prekey × List ClaimedPrekey
claim_each user now [] rows = (rows, [])
claim_each user now (d ∷ ds) rows = elim (first_unused user d rows) [
  | none ↦ claim_each user now ds rows
  | some p ↦
      let r = claim_each user now ds (map (claim_row p.id now) rows) in
      (r.0, record { device_id = d; prekey_id = p.id; prekey_pub = p.pub_key } ∷ r.1)
]

-- `claimPrekeys`, with whether the transaction begins and commits.
unfoldable pub claim_prekeys : Bool → Bool → Prekeys → ℕ → ℕ → Prekeys × List ClaimedPrekey
claim_prekeys begins commits t user now =
    let rows = map (reclaim_row now) t.rows in
    let r = claim_each user now (devices_in_stock user rows) rows in
    if not begins then (t, []) else if not commits then (t, []) else (record t { rows = r.0 }, r.1)

abbrev pub any_claimed : ℕ → List ℕ → ℕ → List Prekey → Bool
any_claimed user device i [] = false
any_claimed user device i (p ∷ ps) =
    if (p.id == i) && ((p.user_id == user) && (text_beq p.device_id device && is_claimed p.status))
    then true
    else any_claimed user device i ps

unfoldable pub validate_claimed_prekey : Prekeys → ℕ → List ℕ → ℕ → Bool
validate_claimed_prekey t user device i = any_claimed user device i t.rows

-- One `UPDATE` for each id, with whether it is carried out.
abbrev pub consume_rows : (ℕ → Bool) → List ℕ → List Prekey → List Prekey
consume_rows executes [] rows = rows
consume_rows executes (i ∷ is) rows =
    consume_rows executes is (if executes i then map (consume_row i) rows else rows)

-- `consumePrekeys`, whose number of changed rows no caller reads.
unfoldable pub consume_prekeys : (ℕ → Bool) → Prekeys → List ℕ → Prekeys
consume_prekeys executes t ids = record t { rows = consume_rows executes ids t.rows }

abbrev pub is_empty : List ℕ → Bool
is_empty [] = true
is_empty (c ∷ cs) = false

-- The inserting loop of `uploadPrekeys`; empty keys are skipped.
unfoldable pub insert_prekeys : ℕ → List ℕ → List (List ℕ) → Prekeys → Prekeys
insert_prekeys user device [] t = t
insert_prekeys user device (k ∷ ks) t =
    if is_empty k
    then insert_prekeys user device ks t
    else insert_prekeys user device ks (record {
      rows =
          t.rows
          ++ (record {
            id = t.next_id;
            user_id = user;
            device_id = device;
            pub_key = k;
            status = unused;
            claimed_at = none;
          }
              ∷ []);
      next_id = t.next_id + 1;
    })

abbrev pub no_keys : List (List ℕ) → Bool
no_keys [] = true
no_keys (k ∷ ks) = false

unfoldable pub upload_prekeys : Bool → Bool → Prekeys → ℕ → List ℕ → List (List ℕ) → Prekeys
upload_prekeys begins commits t user device ks =
    if is_empty device || no_keys ks
    then t
    else if not begins
    then t
    else if not commits
    then t
    else insert_prekeys user device ks t

-- The calls that change the table, apart from the removal of a device.
pub data PrekeyCall : Type 0 where
  claim : Bool → Bool → ℕ → ℕ → PrekeyCall
  consume : (ℕ → Bool) → List ℕ → PrekeyCall
  upload : Bool → Bool → ℕ → List ℕ → List (List ℕ) → PrekeyCall

-- The new table, and the prekeys that the call hands out.
unfoldable pub step : Prekeys → PrekeyCall → Prekeys × List ClaimedPrekey
step t (claim begins commits user now) = claim_prekeys begins commits t user now
step t (consume executes ids) = (consume_prekeys executes t ids, [])
step t (upload begins commits user device ks) = (upload_prekeys begins commits t user device ks, [])

unfoldable pub run : Prekeys → List PrekeyCall → Prekeys
run t [] = t
run t (c ∷ cs) = run (step t c).0 cs

-- All prekeys that a sequence of calls hands out.
unfoldable pub handed_out : Prekeys → List PrekeyCall → List ClaimedPrekey
handed_out t [] = []
handed_out t (c ∷ cs) = (step t c).1 ++ handed_out (step t c).0 cs
