-- ===== src/Server/Database/Members.antt =====
-- Chat-Server/database/DatabaseManager.cpp: the table `conversation_members`, as its rows, with the
-- questions about membership. `answers` is whether SQLite carries a query out.
use xychat_project.Prelude.{ℕ, Bool, true, false, ◌&&◌, List, [], ◌∷◌, if◌then◌else◌}
use xychat_project.Prelude.Int.{ℤ, eq_int}

pub data Role : Type 0 where
  owner admin member : Role

pub record Member : Type 0 where
  pub conversation_id : ℤ
  pub user_id : ℤ
  pub role : Role
  pub joined_at : ℕ
  pub pinned : Bool
  pub muted : Bool

abbrev pub is_row : ℤ → ℤ → Member → Bool
is_row c u m = eq_int m.conversation_id c && eq_int m.user_id u

-- The count of the rows of a user in a conversation is positive.
unfoldable pub any_member : ℤ → ℤ → List Member → Bool
any_member c u [] = false
any_member c u (m ∷ ms) = if is_row c u m then true else any_member c u ms

unfoldable pub is_conversation_member : Bool → List Member → ℤ → ℤ → Bool
is_conversation_member answers ms c u = answers && any_member c u ms
