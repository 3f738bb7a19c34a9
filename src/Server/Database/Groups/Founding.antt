-- ===== src/Server/Database/Groups/Founding.antt =====
-- Chat-Server/database/DatabaseManager.cpp: a group is created as a whole or not at all.
use xychat_project.Prelude.{
  ℕ, ◌≤◌, ◌≡◌, ◌⊎◌, refl, sym, Bool, true, false, ◌||◌, not, List, [], ◌∷◌, ◌++◌, leb, length,
  Option, none, some, arith, Bool-cases, Option-cases, inl, inr, some_inj,
}
use xychat_project.Prelude.Int.{ℤ, pos, leb_int, eq_int_iff}
use xychat_project.Server.Database.Members.{Role, owner, member, Member, any_member}
use xychat_project.Server.Database.Groups.{
  ConversationRow, Groups, max_group_members, member_count, new_member, insert_member, is_skipped,
  insert_initial, Creation, is_empty, with_conversation, commit_group, insert_all, create_group,
  find_role, group_role,
}
use xychat_project.Server.Database.Groups.Counts.{insert_member-some}
use xychat_project.Server.Database.Groups.Limit.{IsValid, all-IsWithin}

role-append :
    (c u : ℤ) (r : Role) (ms : List Member) (m : Member)
    → find_role c u ms ≡ some r
    → find_role c u (ms ++ (m ∷ [])) ≡ some r
unfolding find_role
role-append c u r [] m h = absurd (ground (arith, h))
role-append c u r (x ∷ xs) m h = ground (arith, h, role-append c u r xs m)

role_of_new :
    (c u : ℤ) (r : Role) (now : ℕ) (ms : List Member)
    → any_member c u ms ≡ false
    → find_role c u (ms ++ (new_member c u r now ∷ [])) ≡ some r
unfolding find_role any_member
role_of_new c u r now [] h = ground (arith, eq_int_iff c c, eq_int_iff u u)
role_of_new c u r now (x ∷ xs) h = ground (arith, h, role_of_new c u r now xs)

inserted_role :
    (executes : Bool) (cs : List ConversationRow) (ms rows : List Member) (c u : ℤ) (r : Role)
    (now : ℕ)
    → insert_member executes cs ms c u r now ≡ some rows
    → find_role c u rows ≡ some r
unfolding insert_member
inserted_role executes cs ms rows c u r now h = elim (Bool-cases (any_member c u ms)) [
  | inl e ↦ absurd (ground (arith, e, h))
  | inr e ↦ ground (arith, e, h, role_of_new c u r now ms e)
]

initial_role :
    (inserts : ℤ → Bool) (cs : List ConversationRow) (c v : ℤ) (r : Role) (now : ℕ)
    (us added : List ℤ) (ms rows : List Member)
    → find_role c v ms ≡ some r
    → insert_initial inserts cs c now us added ms ≡ some rows
    → find_role c v rows ≡ some r
unfolding insert_initial
initial_role inserts cs c v r now [] added ms rows k h = rw (sym (some_inj h)) k
initial_role inserts cs c v r now (u ∷ us) added ms rows k h =
    elim (Bool-cases (leb max_group_members (length added))) [
      | inl e ↦ let q : some ms ≡ some rows = rw (insert_initial, e) at h in rw (sym (some_inj q)) k
      | inr e ↦ elim (Bool-cases (is_skipped u added)) [
        | inl s ↦
            initial_role inserts cs c v r now us added ms rows k (rw (insert_initial, e, s) at h)
        | inr s ↦ elim (Option-cases (insert_member (inserts u) cs ms c u member now)) [
          | inl o ↦ absurd (ground (arith, e, s, o, h))
          | inr (x, o) ↦
              let p = insert_member-some (inserts u) cs ms c u member now x o in
              initial_role inserts cs c v r now us (u ∷ added) x rows
                (rw (p.0) (role-append c v r ms (new_member c u member now) k))
                (rw (insert_initial, e, s, o) at h)
        ]
      ]
    ]

all_role :
    (w : Creation) (cs : List ConversationRow) (ms rows : List Member) (c user : ℤ) (ids : List ℤ)
    (now : ℕ)
    → insert_all w cs c user ids now (insert_member (w.inserts user) cs ms c user owner now)
      ≡ some rows
    → find_role c user rows ≡ some owner
all_role w cs ms rows c user ids now h =
    elim (Option-cases (insert_member (w.inserts user) cs ms c user owner now)) [
      | inl e ↦ absurd (ground (arith, e, h))
      | inr (x, e) ↦
          initial_role w.inserts cs c user owner now ids (user ∷ []) x rows
            (inserted_role (w.inserts user) cs ms x c user owner now e) (rw e at h)
    ]

-- A group that is there: the id, the owner's role and the number of members.
abbrev pub Founded : Groups → ℤ → Groups × Option ℕ → Type 0
Founded t user r =
    (r.1 ≡ some t.next_id)
    × (group_role true r.0 (pos t.next_id) user ≡ some owner)
    × (member_count (pos t.next_id) (r.0).members ≤ max_group_members)

commit_group_cases :
    (w : Creation) (t : Groups) (name : List ℕ) (user : ℤ) (o : Option (List Member))
    → ((rows : List Member)
        → o ≡ some rows
        → (find_role (pos t.next_id) user rows ≡ some owner)
          × (member_count (pos t.next_id) rows ≤ max_group_members))
    → ((commit_group w t name o ≡ (t, none)) ⊎ Founded t user (commit_group w t name o))
unfolding group_role
commit_group_cases w t name user none h = inl refl
commit_group_cases w t name user (some rows) h = elim (Bool-cases (not w.commits)) [
  | inl e ↦ inl (rw e refl)
  | inr e ↦ inr (rw e (refl, (h rows refl).0, (h rows refl).1))
]

-- Where the table gave out the ids of the conversations and keeps the limit, the creation of a group
-- either fails and leaves all tables as they were, whichever statement fails, or gives the next id, under
-- which the user is the owner, with not more than 200 members.
pub create_group_atomic :
    (w : Creation) (t : Groups) (user : ℤ) (name : List ℕ) (ids : List ℤ) (now : ℕ)
    → IsValid 0 t
    → ((create_group w t user name ids now ≡ (t, none))
        ⊎ Founded t user (create_group w t user name ids now))
unfolding create_group
create_group_atomic w t user name ids now v =
    let n = w.trimmed name in
    let cs = with_conversation t n in
    let c = pos t.next_id in
    let o =
      insert_all w cs c user ids now
        (insert_member (w.inserts user) cs t.members c user owner now) in
    let p = commit_group_cases w t n user o (λ rows e. (
      all_role w cs t.members rows c user ids now e,
      (all-IsWithin 0 w t user n ids now rows v e).limited c,
    )) in
    elim (Bool-cases (leb_int user (pos 0) || is_empty n)) [
      | inl e ↦ inl (rw e refl)
      | inr e ↦ elim (Bool-cases (not w.begins || not w.inserts_conversation)) [
        | inl b ↦ inl (rw (e, b) refl)
        | inr b ↦ rw (e, b) p
      ]
    ]
