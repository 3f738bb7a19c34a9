-- ===== src/Server/Database/Groups.antt =====
-- Chat-Server/database/DatabaseManager.cpp: groups, which are rows of `conversations` with rows of
-- `conversation_members`. `inserts` and the like are whether SQLite carries a statement out, apart from
-- what a key of a conversation or the unique pair of a conversation and a user refuses.
pub mod Counts
pub mod Within
pub mod Limit
pub mod Founding
use xychat_project.Prelude.{
  ℕ, ◌+◌, ◌-◌, Bool, true, false, ◌||◌, ◌&&◌, not, List, [], ◌∷◌, ◌++◌, map, ltb, leb, ◌==◌, length,
  Option, none, some, if◌then◌else◌,
}
use xychat_project.Prelude.Assoc.{text_beq}
use xychat_project.Prelude.Int.{ℤ, pos, pos_part, leb_int, eq_int}
use xychat_project.Prelude.Json.{codes}
use xychat_project.Server.Database.Members.{
  Role, owner, admin, member, Member, is_row, any_member, is_conversation_member,
}

abbrev pub max_group_members : ℕ
max_group_members = 200

-- A row of `conversations`.
pub record ConversationRow : Type 0 where
  pub id : ℕ
  pub is_group : Bool
  pub name : List ℕ

pub record Groups : Type 0 where
  pub conversations : List ConversationRow
  pub members : List Member
  pub next_id : ℕ

abbrev pub is_empty : List ℕ → Bool
is_empty [] = true
is_empty (c ∷ cs) = false

abbrev pub has_conversation : ℤ → List ConversationRow → Bool
has_conversation c [] = false
has_conversation c (x ∷ xs) = if eq_int (pos x.id) c then true else has_conversation c xs

-- `SELECT COUNT(*) FROM conversation_members WHERE conversation_id = ?`.
unfoldable pub member_count : ℤ → List Member → ℕ
member_count c [] = 0
member_count c (m ∷ ms) = (if eq_int m.conversation_id c then 1 else 0) + member_count c ms

abbrev pub new_member : ℤ → ℤ → Role → ℕ → Member
new_member c u role now = record {
  conversation_id = c;
  user_id = u;
  role = role;
  joined_at = now;
  pinned = false;
  muted = false;
}

-- `insertMember`; none where it fails.
unfoldable pub insert_member :
    Bool → List ConversationRow → List Member → ℤ → ℤ → Role → ℕ → Option (List Member)
insert_member executes cs ms c u role now =
    if not executes || (not (has_conversation c cs) || any_member c u ms)
    then none
    else some (ms ++ (new_member c u role now ∷ []))

abbrev pub contains : ℤ → List ℤ → Bool
contains u [] = false
contains u (v ∷ vs) = if eq_int v u then true else contains u vs

abbrev pub is_skipped : ℤ → List ℤ → Bool
is_skipped u seen = leb_int u (pos 0) || contains u seen

-- The loop of `createGroup`: not more than the limit, with the owner.
unfoldable pub insert_initial :
    (ℤ → Bool) → List ConversationRow → ℤ → ℕ → List ℤ → List ℤ → List Member → Option (List Member)
insert_initial inserts cs c now [] added ms = some ms
insert_initial inserts cs c now (u ∷ us) added ms = elim (leb max_group_members (length added)) [
  | true ↦ some ms
  | false ↦ elim (is_skipped u added) [
    | true ↦ insert_initial inserts cs c now us added ms
    | false ↦ elim (insert_member (inserts u) cs ms c u member now) [
      | none ↦ none
      | some rows ↦ insert_initial inserts cs c now us (u ∷ added) rows
    ]
  ]
]

-- Which statements of `createGroup` are carried out, and how Qt trims a name.
pub record Creation : Type 0 where
  pub trimmed : List ℕ → List ℕ
  pub begins : Bool
  pub inserts_conversation : Bool
  pub inserts : ℤ → Bool
  pub commits : Bool

abbrev pub with_conversation : Groups → List ℕ → List ConversationRow
with_conversation t name =
    t.conversations ++ (record { id = t.next_id; is_group = true; name = name } ∷ [])

-- The end of the transaction; a rollback leaves the tables as they were.
abbrev pub commit_group : Creation → Groups → List ℕ → Option (List Member) → Groups × Option ℕ
commit_group w t name none = (t, none)
commit_group w t name (some rows) = if not w.commits then (t, none) else (
  record { conversations = with_conversation t name; members = rows; next_id = t.next_id + 1 },
  some t.next_id,
)

abbrev pub insert_all :
    Creation
    → List ConversationRow
    → ℤ
    → ℤ
    → List ℤ
    → ℕ
    → Option (List Member)
    → Option (List Member)
insert_all w cs c user ids now none = none
insert_all w cs c user ids now (some rows) = insert_initial w.inserts cs c now ids (user ∷ []) rows

-- `createGroup`: the id of the new conversation, or none for -1.
unfoldable pub create_group : Creation → Groups → ℤ → List ℕ → List ℤ → ℕ → Groups × Option ℕ
create_group w t user name ids now =
    let n = w.trimmed name in
    let cs = with_conversation t n in
    let c = pos t.next_id in
    if leb_int user (pos 0) || is_empty n
    then (t, none)
    else if not w.begins || not w.inserts_conversation
    then (t, none)
    else commit_group w t n (
        insert_all w cs c user ids now
          (insert_member (w.inserts user) cs t.members c user owner now))

-- Which statements of `addGroupMembers` are carried out, for each user.
-- The `COUNT` and the `INSERT` of a user are separate statements outside any transaction: `unseen`
-- is how many members other connections inserted between the two. An invitation of several users
-- that others come between is given as several calls.
pub record Addition : Type 0 where
  pub answers : ℤ → Bool
  pub counts : ℤ → Bool
  pub unseen : ℤ → ℕ
  pub inserts : ℤ → Bool

-- `addGroupMembers`; the rows that were inserted before a failure stay.
unfoldable pub add_each :
    Addition → List ConversationRow → ℤ → ℕ → List ℤ → List ℤ → List Member → List Member × Bool
add_each w cs c now [] seen ms = (ms, true)
add_each w cs c now (u ∷ us) seen ms = elim (is_skipped u seen) [
  | true ↦ add_each w cs c now us seen ms
  | false ↦ elim (is_conversation_member (w.answers u) ms c u) [
    | true ↦ add_each w cs c now us (u ∷ seen) ms
    | false ↦ elim (not (w.counts u)) [
      | true ↦ (ms, false)
      | false ↦ elim (leb max_group_members (member_count c ms - w.unseen u)) [
        | true ↦ (ms, true)
        | false ↦ elim (insert_member (w.inserts u) cs ms c u member now) [
          | none ↦ (ms, false)
          | some rows ↦ add_each w cs c now us (u ∷ seen) rows
        ]
      ]
    ]
  ]
]

unfoldable pub add_group_members : Addition → Groups → ℤ → List ℤ → ℕ → Groups × Bool
add_group_members w t c ids now =
    let r = add_each w t.conversations c now ids [] t.members in (record t { members = r.0 }, r.1)

unfoldable pub delete_member : ℤ → ℤ → List Member → List Member
delete_member c u [] = []
delete_member c u (m ∷ ms) =
    let rest = delete_member c u ms in if is_row c u m then rest else m ∷ rest

unfoldable pub remove_group_member : Bool → Groups → ℤ → ℤ → Groups × Bool
remove_group_member executes t c u =
    if not executes
    then (t, false)
    else (record t { members = delete_member c u t.members }, any_member c u t.members)

-- A role as text; none for any other.
unfoldable pub role_of : List ℕ → Option Role
role_of t =
    if text_beq t (codes "owner")
    then some owner
    else if text_beq t (codes "admin")
    then some admin
    else if text_beq t (codes "member")
    then some member
    else none

abbrev pub set_role : ℤ → ℤ → Role → Member → Member
set_role c u role m = if is_row c u m then record m { role = role } else m

abbrev pub update_to : Bool → Groups → ℤ → ℤ → Option Role → Groups × Bool
update_to executes t c u none = (t, false)
update_to executes t c u (some role) =
    if not executes
    then (t, false)
    else (record t { members = map (set_role c u role) t.members }, any_member c u t.members)

unfoldable pub update_member_role : Bool → Groups → ℤ → ℤ → List ℕ → Groups × Bool
update_member_role executes t c u role = update_to executes t c u (role_of role)

-- `groupRole`; none for the empty text.
unfoldable pub find_role : ℤ → ℤ → List Member → Option Role
find_role c u [] = none
find_role c u (m ∷ ms) = if is_row c u m then some m.role else find_role c u ms

unfoldable pub group_role : Bool → Groups → ℤ → ℤ → Option Role
group_role answers t c u = if answers then find_role c u t.members else none

-- `memberCountExcluding`.
abbrev pub counts_other : ℤ → ℤ → Member → Bool
counts_other c u m = eq_int m.conversation_id c && not (eq_int m.user_id u)

unfoldable pub count_other : ℤ → ℤ → List Member → ℕ
count_other c u [] = 0
count_other c u (m ∷ ms) = (if counts_other c u m then 1 else 0) + count_other c u ms

unfoldable pub member_count_excluding : Bool → Groups → ℤ → ℤ → ℕ
member_count_excluding answers t c u = if answers then count_other c u t.members else 0

abbrev pub set_prefs : ℤ → ℤ → Bool → Bool → Member → Member
set_prefs c u pinned muted m =
    if is_row c u m then record m { pinned = pinned; muted = muted } else m

unfoldable pub set_conversation_prefs : Bool → Groups → ℤ → ℤ → Bool → Bool → Groups × Bool
set_conversation_prefs executes t c u pinned muted =
    if leb_int c (pos 0) || leb_int u (pos 0)
    then (t, false)
    else if not executes
    then (t, false)
    else (
      record t { members = map (set_prefs c u pinned muted) t.members },
      any_member c u t.members,
    )

abbrev pub is_group_row : ℤ → ConversationRow → Bool
is_group_row c x = eq_int (pos x.id) c && x.is_group

abbrev pub any_group : ℤ → List ConversationRow → Bool
any_group c [] = false
any_group c (x ∷ xs) = if is_group_row c x then true else any_group c xs

abbrev pub set_name : ℤ → List ℕ → ConversationRow → ConversationRow
set_name c name x = if is_group_row c x then record x { name = name } else x

-- `setGroupName`, of a name that was trimmed.
unfoldable pub set_group_name : Bool → Groups → ℤ → List ℕ → Groups × Bool
set_group_name executes t c name =
    if is_empty name then (t, false) else if not executes then (t, false) else (
      record t { conversations = map (set_name c name) t.conversations },
      any_group c t.conversations,
    )

-- The calls that change the tables.
pub data GroupCall : Type 0 where
  create : Creation → ℤ → List ℕ → List ℤ → ℕ → GroupCall
  add : Addition → ℤ → List ℤ → ℕ → GroupCall
  remove : Bool → ℤ → ℤ → GroupCall
  change_role : Bool → ℤ → ℤ → List ℕ → GroupCall
  change_prefs : Bool → ℤ → ℤ → Bool → Bool → GroupCall
  rename : Bool → ℤ → List ℕ → GroupCall

unfoldable pub step : Groups → GroupCall → Groups
step t (create w user name ids now) = (create_group w t user name ids now).0
step t (add w c ids now) = (add_group_members w t c ids now).0
step t (remove executes c u) = (remove_group_member executes t c u).0
step t (change_role executes c u role) = (update_member_role executes t c u role).0
step t (change_prefs executes c u pinned muted) =
    (set_conversation_prefs executes t c u pinned muted).0
step t (rename executes c name) = (set_group_name executes t c name).0

unfoldable pub run : Groups → List GroupCall → Groups
run t [] = t
run t (x ∷ xs) = run (step t x) xs
