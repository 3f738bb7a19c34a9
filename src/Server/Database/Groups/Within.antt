-- ===== src/Server/Database/Groups/Within.antt =====
-- Chat-Server/database/DatabaseManager.cpp: what insertions into `conversation_members` keep of the limit
-- on the members of a conversation.
use xychat_project.Prelude.{
  ℕ, ◌+◌, ◌-◌, ◌≤◌, ◌<◌, ◌≡◌, ap, sym, Bool, true, not, List, [], ◌∷◌, ◌++◌, leb, length, some,
  arith, Bool-cases, Option-cases, inl, inr, some_inj,
}
use xychat_project.Prelude.Int.{ℤ, eq_int, eq_int_iff}
use xychat_project.Server.Database.Members.{Role, member, Member, is_conversation_member}
use xychat_project.Server.Database.Groups.{
  ConversationRow, max_group_members, member_count, new_member, insert_member, is_skipped,
  insert_initial, Addition, add_each,
}
use xychat_project.Server.Database.Groups.Counts.{
  is_id_below, are_below, ids_below, member_count-append, are_below-append, has-below,
  insert_member-some,
}

-- The rows of the members alone; the limit may be exceeded by `k`.
pub record IsWithin (k n : ℕ) (ms : List Member) : Type 0 where
  pub limited : (d : ℤ) → member_count d ms ≤ max_group_members + k
  pub known : are_below n ms ≡ true

append-IsWithin :
    (k n : ℕ) (ms : List Member) (c u : ℤ) (role : Role) (now : ℕ)
    → IsWithin k n ms
    → is_id_below n c ≡ true
    → member_count c ms < max_group_members + k
    → IsWithin k n (ms ++ (new_member c u role now ∷ []))
append-IsWithin k n ms c u role now v b l = record {
  limited = λ d. elim (Bool-cases (eq_int c d)) [
    | inl e ↦
        let p = (eq_int_iff c d).0 e in
        ground (
          arith,
          e,
          l,
          ap (λ i. member_count i ms) p,
          member_count-append d ms (new_member c u role now),
        )
    | inr e ↦ ground (arith, e, v.limited d, member_count-append d ms (new_member c u role now))
  ];
  known = are_below-append n ms (new_member c u role now) v.known b;
}

module _ (k n : ℕ) (cs : List ConversationRow) (c : ℤ) (now : ℕ)
    (below : ids_below n cs ≡ true) where
  pub insert-IsWithin :
      (executes : Bool) (ms : List Member) (u : ℤ) (role : Role) (rows : List Member)
      → IsWithin k n ms
      → member_count c ms < max_group_members + k
      → insert_member executes cs ms c u role now ≡ some rows
      → IsWithin k n rows × (member_count c rows ≤ member_count c ms + 1)
  insert-IsWithin executes ms u role rows v l h =
      let p = insert_member-some executes cs ms c u role now rows h in
      (
        rw (p.0) (append-IsWithin k n ms c u role now v (has-below n c cs below (p.1)) l),
        ground
            (arith, ap (member_count c) (p.0), member_count-append c ms (new_member c u role now)),
      )

  pub initial-IsWithin :
      (inserts : ℤ → Bool) (us added : List ℤ) (ms rows : List Member)
      → IsWithin k n ms
      → member_count c ms ≤ length added
      → insert_initial inserts cs c now us added ms ≡ some rows
      → IsWithin k n rows
  unfolding insert_initial
  initial-IsWithin inserts [] added ms rows v l h = rw (sym (some_inj h)) v
  initial-IsWithin inserts (u ∷ us) added ms rows v l h =
      elim (Bool-cases (leb max_group_members (length added))) [
        | inl e ↦
            let q : some ms ≡ some rows = rw (insert_initial, e) at h in rw (sym (some_inj q)) v
        | inr e ↦ elim (Bool-cases (is_skipped u added)) [
          | inl s ↦ initial-IsWithin inserts us added ms rows v l (rw (insert_initial, e, s) at h)
          | inr s ↦ elim (Option-cases (insert_member (inserts u) cs ms c u member now)) [
            | inl o ↦ absurd (ground (arith, e, s, o, h))
            | inr (r, o) ↦
                let p = insert-IsWithin (inserts u) ms u member r v (ground (arith, e, l)) o in
                initial-IsWithin inserts us (u ∷ added) r rows (p.0) (ground (arith, p.1, l))
                  (rw (insert_initial, e, s, o) at h)
          ]
        ]
      ]

  pub add-IsWithin :
      (w : Addition) (us seen : List ℤ) (ms : List Member)
      → ((u : ℤ) → w.unseen u ≤ k)
      → IsWithin k n ms
      → IsWithin k n (add_each w cs c now us seen ms).0
  unfolding add_each
  add-IsWithin w [] seen ms x v = v
  add-IsWithin w (u ∷ us) seen ms x v = elim (Bool-cases (is_skipped u seen)) [
    | inl s ↦ rw (add_each, s) (add-IsWithin w us seen ms x v)
    | inr s ↦ elim (Bool-cases (is_conversation_member (w.answers u) ms c u)) [
      | inl i ↦ rw (add_each, s, i) (add-IsWithin w us (u ∷ seen) ms x v)
      | inr i ↦ elim (Bool-cases (not (w.counts u))) [
        | inl f ↦ rw (add_each, s, i, f) v
        | inr f ↦ elim (Bool-cases (leb max_group_members (member_count c ms - w.unseen u))) [
          | inl e ↦ rw (add_each, s, i, f, e) v
          | inr e ↦ elim (Option-cases (insert_member (w.inserts u) cs ms c u member now)) [
            | inl o ↦ rw (add_each, s, i, f, e, o) v
            | inr (r, o) ↦
                rw (add_each, s, i, f, e, o)
                  (let p =
                      insert-IsWithin (w.inserts u) ms u member r v (ground (arith, e, x u)) o in
                    add-IsWithin w us (u ∷ seen) r x (p.0))
          ]
        ]
      ]
    ]
  ]
