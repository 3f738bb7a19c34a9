-- ===== src/Examples/Groups.antt =====
-- Groups at concrete calls.
use xychat_project.Prelude.{ℕ, ◌+◌, ◌≤◌, ◌≡◌, ◌⊎◌, refl, true, List, [], ◌∷◌, none, arith}
use xychat_project.Prelude.Int.{pos}
use xychat_project.Prelude.Json.{codes}
use xychat_project.Server.Database.Groups
use xychat_project.Server.Database.Members
use xychat_project.Server.Database.Groups.{
  Groups, Creation, Addition, GroupCall, create, add, change_role, max_group_members, member_count,
  create_group,
}
use xychat_project.Server.Database.Groups.Limit.{IsValid, members_limited}
use xychat_project.Server.Database.Groups.Founding.{Founded, create_group_atomic}

abbrev no_groups : Groups
no_groups = record { conversations = []; members = []; next_id = 1 }

no_groups-IsValid : (k : ℕ) → IsValid k no_groups
unfolding member_count
no_groups-IsValid k = record {
  limited = λ d. omega arith;
  known_members = refl;
  known_conversations = refl;
}

abbrev creation : Creation
creation = record {
  trimmed = λ t. t;
  begins = true;
  inserts_conversation = true;
  inserts = λ u. true;
  commits = true;
}

abbrev addition : Addition
addition = record { answers = λ u. true; counts = λ u. true; unseen = λ u. 1; inserts = λ u. true }

abbrev calls : List GroupCall
calls =
    create creation (pos 7) (codes "friends") (pos 8 ∷ pos 8 ∷ pos 7 ∷ []) 1000
    ∷ add addition (pos 1) (pos 9 ∷ pos 8 ∷ []) 1010
    ∷ change_role true (pos 1) (pos 8) (codes "admin")
    ∷ []

members_limited_example :
    member_count (pos 1) (Groups.run no_groups calls).members ≤ max_group_members + 1
members_limited_example =
    members_limited 1 no_groups calls (pos 1) (no_groups-IsValid 1)
      (tt, ((λ u. omega arith), (tt, tt)))

create_group_atomic_example :
    let r = create_group creation no_groups (pos 7) (codes "friends") (pos 8 ∷ []) 1000 in
    ((r ≡ (no_groups, none)) ⊎ Founded no_groups (pos 7) r)
create_group_atomic_example =
    create_group_atomic creation no_groups (pos 7) (codes "friends") (pos 8 ∷ []) 1000
      (no_groups-IsValid 0)

-- Three members: the calls take effect.
three_members : member_count (pos 1) (Groups.run no_groups calls).members ≡ 3
unfolding member_count Groups.run Groups.step Groups.create_group Groups.insert_member
    Groups.insert_initial Groups.add_group_members Groups.add_each Groups.update_member_role
    Groups.role_of Members.any_member Members.is_conversation_member
three_members = refl
