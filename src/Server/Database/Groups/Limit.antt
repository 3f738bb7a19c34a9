-- ===== src/Server/Database/Groups/Limit.antt =====
-- Chat-Server/database/DatabaseManager.cpp: the limit on the members of a conversation.
use xychat_project.Prelude.{
  ℕ, ◌+◌, ◌≤◌, ◌≡◌, refl, ◌∙◌, Bool, true, false, ◌||◌, not, List, [], ◌∷◌, ◌++◌, map, Option, none,
  some, All, arith, Bool-cases, Option-cases, inl, inr,
}
use xychat_project.Prelude.Int.{ℤ, pos, leb_int}
use xychat_project.Server.Database.Members.{Role, owner, Member}
use xychat_project.Server.Database.Groups.{
  ConversationRow, Groups, max_group_members, member_count, insert_member, Creation, is_empty,
  with_conversation, commit_group, insert_all, create_group, add_group_members, remove_group_member,
  role_of, set_role, update_to, update_member_role, set_prefs, set_conversation_prefs, is_group_row,
  set_name, set_group_name, GroupCall, create, add, remove, change_role, change_prefs, rename, step,
  run,
}
use xychat_project.Server.Database.Groups.Counts.{
  are_below, ids_below, member_count-map, are_below-map, member_count-delete, are_below-delete,
  no_members, are_below_weaken,
}
use xychat_project.Server.Database.Groups.Within.{
  IsWithin, insert-IsWithin, initial-IsWithin, add-IsWithin,
}

-- No conversation has more members than the limit and `k`, and the ids were given out by the table.
pub record IsValid (k : ℕ) (t : Groups) : Type 0 where
  pub limited : (d : ℤ) → member_count d t.members ≤ max_group_members + k
  pub known_members : are_below t.next_id t.members ≡ true
  pub known_conversations : ids_below t.next_id t.conversations ≡ true

ids_below-append :
    (n : ℕ) (name : List ℕ) (is_group : Bool) (cs : List ConversationRow)
    → ids_below n cs ≡ true
    → ids_below (n + 1) (cs ++ (record { id = n; is_group = is_group; name = name } ∷ [])) ≡ true
ids_below-append n name g [] h = ground arith
ids_below-append n name g (x ∷ xs) h = ground (arith, h, ids_below-append n name g xs)

ids_below-map :
    (c : ℤ) (name : List ℕ) (n : ℕ) (cs : List ConversationRow)
    → ids_below n (map (set_name c name) cs) ≡ ids_below n cs
ids_below-map c name n [] = refl
ids_below-map c name n (x ∷ xs) = elim (Bool-cases (is_group_row c x)) [
  | inl e ↦ rw (e, ids_below-map c name n xs) refl
  | inr e ↦ rw (e, ids_below-map c name n xs) refl
]

next-IsWithin : (k : ℕ) (t : Groups) → IsValid k t → IsWithin k (t.next_id + 1) t.members
next-IsWithin k t v = record {
  limited = v.limited;
  known = are_below_weaken t.next_id t.members v.known_members;
}

-- The rows after the insertions of `createGroup`.
pub all-IsWithin :
    (k : ℕ) (w : Creation) (t : Groups) (user : ℤ) (name : List ℕ) (ids : List ℤ) (now : ℕ)
    (rows : List Member)
    → IsValid k t
    → insert_all w (with_conversation t name) (pos t.next_id) user ids now (
        insert_member
          (w.inserts user)
          (with_conversation t name)
          t.members
          (pos t.next_id)
          user
          owner
          now)
      ≡ some rows
    → IsWithin k (t.next_id + 1) rows
all-IsWithin k w t user name ids now rows v h =
    let cs = with_conversation t name in
    let c = pos t.next_id in
    let b = ids_below-append t.next_id name true t.conversations v.known_conversations in
    let z = no_members t.next_id t.members v.known_members in
    elim (Option-cases (insert_member (w.inserts user) cs t.members c user owner now)) [
      | inl e ↦ absurd (ground (arith, e, h))
      | inr (r, e) ↦
          let p =
            insert-IsWithin k (t.next_id + 1) cs c now b (w.inserts user) t.members user owner r
              (next-IsWithin k t v) (ground (arith, z)) e in
          initial-IsWithin k (t.next_id + 1) cs c now b w.inserts ids (user ∷ []) r rows (p.0)
            (ground (arith, p.1, z)) (rw e at h)
    ]

commit_group-IsValid :
    (k : ℕ) (w : Creation) (t : Groups) (name : List ℕ) (o : Option (List Member))
    → IsValid k t
    → ((rows : List Member) → o ≡ some rows → IsWithin k (t.next_id + 1) rows)
    → IsValid k (commit_group w t name o).0
commit_group-IsValid k w t name none v h = v
commit_group-IsValid k w t name (some rows) v h = elim (Bool-cases (not w.commits)) [
  | inl e ↦ rw e v
  | inr e ↦ rw e (record {
    limited = (h rows refl).limited;
    known_members = (h rows refl).known;
    known_conversations =
        ids_below-append t.next_id name true t.conversations v.known_conversations;
  })
]

create-IsValid :
    (k : ℕ) (w : Creation) (t : Groups) (user : ℤ) (name : List ℕ) (ids : List ℤ) (now : ℕ)
    → IsValid k t
    → IsValid k (create_group w t user name ids now).0
unfolding create_group
create-IsValid k w t user name ids now v =
    let n = w.trimmed name in
    let p =
      commit_group-IsValid k w t n
        (insert_all w (with_conversation t n) (pos t.next_id) user ids now (
          insert_member (w.inserts user) (with_conversation t n) t.members (pos t.next_id) user
            owner now))
        v (λ rows e. all-IsWithin k w t user n ids now rows v e) in
    elim (Bool-cases (leb_int user (pos 0) || is_empty n)) [
      | inl e ↦ rw e v
      | inr e ↦ elim (Bool-cases (not w.begins || not w.inserts_conversation)) [
        | inl b ↦ rw (e, b) v
        | inr b ↦ rw (e, b) p
      ]
    ]

-- The rows changed only in columns other than the conversation.
map-IsValid :
    (k : ℕ) (t : Groups) (g : Member → Member)
    → ((m : Member) → (g m).conversation_id ≡ m.conversation_id)
    → IsValid k t
    → IsValid k (record t { members = map g t.members })
map-IsValid k t g same v = record {
  limited = λ d. ground (arith, v.limited d, member_count-map g same d t.members);
  known_members = are_below-map g same t.next_id t.members ∙ v.known_members;
  known_conversations = v.known_conversations;
}

role-IsValid :
    (k : ℕ) (executes : Bool) (t : Groups) (c u : ℤ) (o : Option Role)
    → IsValid k t
    → IsValid k (update_to executes t c u o).0
role-IsValid k executes t c u none v = v
role-IsValid k false t c u (some r) v = v
role-IsValid k true t c u (some r) v = map-IsValid k t (set_role c u r) (λ m. ground arith) v

prefs-IsValid :
    (k : ℕ) (executes : Bool) (t : Groups) (c u : ℤ) (pinned muted : Bool)
    → IsValid k t
    → IsValid k (set_conversation_prefs executes t c u pinned muted).0
unfolding set_conversation_prefs
prefs-IsValid k executes t c u pinned muted v =
    let p = map-IsValid k t (set_prefs c u pinned muted) (λ m. ground arith) v in
    elim (Bool-cases (leb_int c (pos 0) || leb_int u (pos 0))) [
      | inl e ↦ rw e v
      | inr e ↦ elim (Bool-cases executes) [ inl b ↦ rw (e, b) p | inr b ↦ rw (e, b) v ]
    ]

name-IsValid :
    (k : ℕ) (executes : Bool) (t : Groups) (c : ℤ) (name : List ℕ)
    → IsValid k t
    → IsValid k (set_group_name executes t c name).0
unfolding set_group_name
name-IsValid k executes t c [] v = v
name-IsValid k false t c (x ∷ xs) v = v
name-IsValid k true t c (x ∷ xs) v = record {
  limited = v.limited;
  known_members = v.known_members;
  known_conversations = ids_below-map c (x ∷ xs) t.next_id t.conversations ∙ v.known_conversations;
}

-- No invitation misses more than `k` members in its count.
abbrev pub MissesAtMost : ℕ → GroupCall → Type 0
MissesAtMost k (create w user name ids now) = Unit {0}
MissesAtMost k (add w c ids now) = (u : ℤ) → w.unseen u ≤ k
MissesAtMost k (remove executes c u) = Unit {0}
MissesAtMost k (change_role executes c u role) = Unit {0}
MissesAtMost k (change_prefs executes c u pinned muted) = Unit {0}
MissesAtMost k (rename executes c name) = Unit {0}

step-IsValid :
    (k : ℕ) (t : Groups) (x : GroupCall) → MissesAtMost k x → IsValid k t → IsValid k (step t x)
unfolding step add_group_members remove_group_member update_member_role
step-IsValid k t (create w user name ids now) x v = create-IsValid k w t user name ids now v
step-IsValid k t (add w c ids now) x v =
    let p =
      add-IsWithin k t.next_id t.conversations c now v.known_conversations w ids [] t.members x
        (record { limited = v.limited; known = v.known_members }) in
    record {
      limited = p.limited;
      known_members = p.known;
      known_conversations = v.known_conversations;
    }
step-IsValid k t (remove false c u) x v = v
step-IsValid k t (remove true c u) x v = record {
  limited = λ d. omega (arith, member_count-delete c u d t.members, v.limited d);
  known_members = are_below-delete t.next_id c u t.members v.known_members;
  known_conversations = v.known_conversations;
}
step-IsValid k t (change_role executes c u role) x v =
    role-IsValid k executes t c u (role_of role) v
step-IsValid k t (change_prefs executes c u pinned muted) x v =
    prefs-IsValid k executes t c u pinned muted v
step-IsValid k t (rename executes c name) x v = name-IsValid k executes t c name v

run-IsValid :
    (k : ℕ) (t : Groups) (xs : List GroupCall)
    → All (MissesAtMost k) xs
    → IsValid k t
    → IsValid k (run t xs)
unfolding run
run-IsValid k t [] h v = v
run-IsValid k t (x ∷ xs) (h, hs) v = run-IsValid k (step t x) xs hs (step-IsValid k t x h v)

-- Where no conversation has more than 200 + `k` members, and the table gave out the ids of the
-- conversations, no calls that create groups, add and remove members, change their roles and
-- preferences, and rename groups, with any failures of statements, lead to a conversation with more
-- than 200 + `k` members, provided that between the count and the insertion of an invitation other
-- connections insert at most `k` members. Without concurrent invitations the limit is 200.
pub members_limited :
    (k : ℕ) (t : Groups) (xs : List GroupCall) (d : ℤ)
    → IsValid k t
    → All (MissesAtMost k) xs
    → member_count d (run t xs).members ≤ max_group_members + k
members_limited k t xs d v h = (run-IsValid k t xs h v).limited d
