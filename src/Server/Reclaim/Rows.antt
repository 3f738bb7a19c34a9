-- ===== src/Server/Reclaim/Rows.antt =====
-- Chat-Server/core/Server.cpp: the rows that the reclamation works through are rows of the table.
use xychat_project.Prelude.{
  ℕ, zero, suc, ◌≡◌, ap, ◌∙◌, Bool, true, List, [], ◌∷◌, ltb, take, Bool-cases, inl, inr, ◌⊎◌,
}
use xychat_project.Server.Database.Files.{FileRecord}
use xychat_project.Server.Reclaim.{insert_by, sort_by, select}
use xychat_project.Server.Database.Files.Keys.{IsMember}

member-take :
    (n : ℕ) (f : FileRecord) (fs : List FileRecord) → IsMember f (take n fs) → IsMember f fs
member-take zero f fs m = absurd m
member-take (suc n) f [] m = absurd m
member-take (suc n) f (g ∷ gs) (inl e) = inl e
member-take (suc n) f (g ∷ gs) (inr m) = inr (member-take n f gs m)

member-insert_by :
    (time : FileRecord → ℕ) (f g : FileRecord) (fs : List FileRecord)
    → IsMember f (insert_by time g fs)
    → (f ≡ g) ⊎ IsMember f fs
unfolding insert_by
member-insert_by time f g [] m = m
member-insert_by time f g (h ∷ hs) m = elim (Bool-cases (ltb (time g) (time h))) [
  | inl e ↦ rw e at m
  | inr e ↦
      let k : (f ≡ h) ⊎ IsMember f (insert_by time g hs) = rw e at m in
      elim k [
        | inl q ↦ inr (inl q)
        | inr n ↦ elim (member-insert_by time f g hs n) [ inl q ↦ inl q | inr r ↦ inr (inr r) ]
      ]
]

member-sort_by :
    (time : FileRecord → ℕ) (f : FileRecord) (fs : List FileRecord)
    → IsMember f (sort_by time fs)
    → IsMember f fs
unfolding sort_by
member-sort_by time f [] m = m
member-sort_by time f (g ∷ gs) m = elim (member-insert_by time f g (sort_by time gs) m) [
  | inl e ↦ inl e
  | inr n ↦ inr (member-sort_by time f gs n)
]

member-select :
    (p : FileRecord → Bool) (f : FileRecord) (fs : List FileRecord)
    → IsMember f (select p fs)
    → IsMember f fs × (p f ≡ true)
unfolding select
member-select p f [] m = absurd m
member-select p f (g ∷ gs) m = elim (Bool-cases (p g)) [
  | inl e ↦
      let k : (f ≡ g) ⊎ IsMember f (select p gs) = rw e at m in
      elim k [
        | inl q ↦ (inl q, ap p q ∙ e)
        | inr n ↦ let q = member-select p f gs n in (inr (q.0), q.1)
      ]
  | inr e ↦ let q = member-select p f gs (rw e at m) in (inr (q.0), q.1)
]

-- A row that is listed is a row of the table, and fits the condition.
pub listed :
    (time : FileRecord → ℕ) (p : FileRecord → Bool) (n : ℕ) (f : FileRecord)
    (rows : List FileRecord)
    → IsMember f (take n (sort_by time (select p rows)))
    → IsMember f rows × (p f ≡ true)
listed time p n f rows m =
    member-select p f rows
      (member-sort_by time f (select p rows) (member-take n f (sort_by time (select p rows)) m))
