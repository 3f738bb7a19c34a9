-- ===== src/Server/Database/Groups/Counts.antt =====
-- Chat-Server/database/DatabaseManager.cpp: how the statements on `conversation_members` change the
-- number of members of each conversation, and to which conversations the rows belong.
use xychat_project.Prelude.{
  ℕ, ◌+◌, ◌≤◌, ◌≡◌, refl, Bool, true, false, List, [], ◌∷◌, ◌++◌, map, ltb, some, if◌then◌else◌,
  arith,
}
use xychat_project.Prelude.Int.{ℤ, pos, negsuc, eq_int}
use xychat_project.Server.Database.Members.{Role, Member}
use xychat_project.Server.Database.Groups.{
  ConversationRow, has_conversation, member_count, new_member, insert_member, delete_member,
}

abbrev pub is_id_below : ℕ → ℤ → Bool
is_id_below n (pos k) = ltb k n
is_id_below n (negsuc k) = false

-- Every row belongs to a conversation with an id below `n`.
abbrev pub are_below : ℕ → List Member → Bool
are_below n [] = true
are_below n (m ∷ ms) = if is_id_below n m.conversation_id then are_below n ms else false

abbrev pub ids_below : ℕ → List ConversationRow → Bool
ids_below n [] = true
ids_below n (x ∷ xs) = if ltb x.id n then ids_below n xs else false

pub member_count-append :
    (c : ℤ) (ms : List Member) (m : Member)
    → member_count c (ms ++ (m ∷ []))
      ≡ (if eq_int m.conversation_id c then 1 else 0) + member_count c ms
unfolding member_count
member_count-append c [] m = refl
member_count-append c (x ∷ xs) m = omega (arith, member_count-append c xs m)

pub are_below-append :
    (n : ℕ) (ms : List Member) (m : Member)
    → are_below n ms ≡ true
    → is_id_below n m.conversation_id ≡ true
    → are_below n (ms ++ (m ∷ [])) ≡ true
are_below-append n [] m h k = ground (arith, k)
are_below-append n (x ∷ xs) m h k = ground (arith, h, k, are_below-append n xs m)

pub member_count-map :
    (g : Member → Member)
    → ((m : Member) → (g m).conversation_id ≡ m.conversation_id)
    → (c : ℤ) (ms : List Member) → member_count c (map g ms) ≡ member_count c ms
unfolding member_count
member_count-map g k c [] = refl
member_count-map g k c (x ∷ xs) = rw (k x, member_count-map g k c xs) refl

pub are_below-map :
    (g : Member → Member)
    → ((m : Member) → (g m).conversation_id ≡ m.conversation_id)
    → (n : ℕ) (ms : List Member) → are_below n (map g ms) ≡ are_below n ms
are_below-map g k n [] = refl
are_below-map g k n (x ∷ xs) = rw (k x, are_below-map g k n xs) refl

pub member_count-delete :
    (c u d : ℤ) (ms : List Member) → member_count d (delete_member c u ms) ≤ member_count d ms
unfolding member_count delete_member
member_count-delete c u d [] = omega arith
member_count-delete c u d (m ∷ ms) = ground (arith, member_count-delete c u d ms)

pub are_below-delete :
    (n : ℕ) (c u : ℤ) (ms : List Member)
    → are_below n ms ≡ true
    → are_below n (delete_member c u ms) ≡ true
unfolding delete_member
are_below-delete n c u [] h = refl
are_below-delete n c u (m ∷ ms) h = ground (arith, h, are_below-delete n c u ms)

-- Rows for ids that were not given out are none.
is_id_below_lem : (n : ℕ) (d : ℤ) → is_id_below n d ≡ true → eq_int d (pos n) ≡ false
is_id_below_lem n (pos k) h = ground (arith, h)
is_id_below_lem n (negsuc k) h = ground (arith, h)

pub no_members : (n : ℕ) (ms : List Member) → are_below n ms ≡ true → member_count (pos n) ms ≡ 0
unfolding member_count
no_members n [] h = refl
no_members n (m ∷ ms) h = ground (arith, h, is_id_below_lem n m.conversation_id, no_members n ms)

pub id_weaken : (n : ℕ) (d : ℤ) → is_id_below n d ≡ true → is_id_below (n + 1) d ≡ true
id_weaken n (pos k) h = ground (arith, h)
id_weaken n (negsuc k) h = ground (arith, h)

pub are_below_weaken :
    (n : ℕ) (ms : List Member) → are_below n ms ≡ true → are_below (n + 1) ms ≡ true
are_below_weaken n [] h = refl
are_below_weaken n (m ∷ ms) h =
    ground (arith, h, id_weaken n m.conversation_id, are_below_weaken n ms)

pub has-below :
    (n : ℕ) (c : ℤ) (cs : List ConversationRow)
    → ids_below n cs ≡ true
    → has_conversation c cs ≡ true
    → is_id_below n c ≡ true
has-below n c [] h k = absurd (ground (arith, k))
has-below n (pos i) (x ∷ xs) h k = ground (arith, h, k, has-below n (pos i) xs)
has-below n (negsuc i) (x ∷ xs) h k = ground (arith, h, k, has-below n (negsuc i) xs)

-- What an insertion that succeeds does.
pub insert_member-some :
    (executes : Bool) (cs : List ConversationRow) (ms : List Member) (c u : ℤ) (role : Role)
    (now : ℕ) (rows : List Member)
    → insert_member executes cs ms c u role now ≡ some rows
    → (rows ≡ ms ++ (new_member c u role now ∷ [])) × (has_conversation c cs ≡ true)
unfolding insert_member
insert_member-some executes cs ms c u role now rows h = ground (arith, h)
