-- ===== src/Server/Database/Prekeys/Lifecycle.antt =====
-- Chat-Server/database/DatabaseManager.cpp: what a prekey's status promises over all later calls.
use xychat_project.Prelude.{
  some_inj, ℕ, suc, ◌+◌, ◌≤◌, ◌<◌, ◌≡◌, refl, sym, ◌∙◌, ap, Bool, true, false, List, [], ◌∷◌, map,
  ◌==◌, some, arith, inl, inr, Bool-cases, Option-cases, All,
}
use mathlib.Core.Path.{subst}
use xychat_project.Server.Database.Prekeys.{
  Prekey, used, Prekeys, ClaimedPrekey, is_unused, is_claimed, reclaim_row, claim_row, first_unused,
  claim_each, claim_prekeys, validate_claimed_prekey, any_claimed, PrekeyCall, claim, consume,
  upload, run, handed_out, devices_in_stock,
}
use xychat_project.Server.Database.Prekeys.Rows.{
  find, is_sorted, IsTable, reclaim-KeepsId, claim-KeepsId, find-map, map-is_sorted, first-found,
}
use xychat_project.Server.Database.Prekeys.Held.{
  is_held, IsHeld, Others, claim_each_end, claim_each-none, claim_each-some, claim_each-Claims,
  InTime, run-Held,
}

last_claim : List PrekeyCall → ℕ
last_claim [] = 0
last_claim (claim b k user now ∷ cs) = now + last_claim cs
last_claim (consume executes ids ∷ cs) = last_claim cs
last_claim (upload b k user d ks ∷ cs) = last_claim cs

all-InTime : (t : ℕ) (cs : List PrekeyCall) → last_claim cs ≤ t → InTime t cs
unfolding last_claim
all-InTime t [] h = tt
all-InTime t (claim b k user now ∷ cs) h = (omega arith, all-InTime t cs (omega arith))
all-InTime t (consume executes ids ∷ cs) h = all-InTime t cs h
all-InTime t (upload b k user d ks ∷ cs) h = all-InTime t cs h

used-is_held : (t : ℕ) (p : Prekey) → p.status ≡ used → is_held t p ≡ true
used-is_held t p u = ground (arith, u)

-- Held at two different times is used.
always_held :
    (t : ℕ) (p q : Prekey)
    → p ≡ q
    → is_held t p ≡ true
    → is_held (t + 1) q ≡ true
    → is_claimed p.status ≡ false
always_held t p q e h g =
    let g' : is_held (t + 1) p ≡ true = ap (is_held (t + 1)) e ∙ g in ground (arith, h, g')

pub none_below :
    (user i lo hi : ℕ) (d : List ℕ) (rows : List Prekey)
    → is_sorted lo hi rows ≡ true
    → i < lo
    → any_claimed user d i rows ≡ false
none_below user i lo hi d [] h l = refl
none_below user i lo hi d (x ∷ xs) h l =
    ground (arith, none_below user i (suc x.id) hi d xs (ground arith) (ground arith))

not-any_claimed :
    (user i lo hi : ℕ) (d : List ℕ) (rows : List Prekey) (p : Prekey)
    → is_sorted lo hi rows ≡ true
    → find i rows ≡ some p
    → is_claimed p.status ≡ false
    → any_claimed user d i rows ≡ false
not-any_claimed user i lo hi d [] p h f n = refl
not-any_claimed user i lo hi d (x ∷ xs) p h f n = elim (Bool-cases (x.id == i)) [
  | inl e ↦
      let same : x ≡ p = some_inj (ground (arith, f, e)) in
      let m : is_claimed x.status ≡ false = ap (λ y. is_claimed y.status) same ∙ n in
      ground (arith, m, none_below user i (suc x.id) hi d xs (ground arith) (ground arith))
  | inr e ↦ ground (
    arith,
    e,
    not-any_claimed user i (suc x.id) hi d xs p (ground arith) (ground (arith, f, e)) n,
  )
]

-- A used prekey stays spent: whatever calls of claiming, consuming and uploading come, at whatever
-- times, none hands it out, and afterwards it does not pass the check of an envelope.
pub spent_prekey :
    (table : Prekeys) (i user : ℕ) (d : List ℕ) (p : Prekey) (cs : List PrekeyCall)
    → IsTable table
    → find i table.rows ≡ some p
    → p.status ≡ used
    → (validate_claimed_prekey (run table cs) user d i ≡ false) × Others i (handed_out table cs)
unfolding validate_claimed_prekey
spent_prekey table i user d p cs s f u =
    let t = last_claim cs in
    let (one, others) =
      run-Held t i table cs (all-InTime t cs (omega arith)) (s, (p, f, used-is_held t p u)) in
    let (two, _) =
      run-Held (t + 1) i table cs (all-InTime (t + 1) cs (omega arith))
        (s, (p, f, used-is_held (t + 1) p u)) in
    let (sorted, held) = one in
    let (q, g, h) = held in
    let (_, held') = two in
    let (q', g', h') = held' in
    let same : q ≡ q' = some_inj (sym g ∙ g') in
    (
      not-any_claimed user i 0 (run table cs).next_id d (run table cs).rows q sorted g
          (always_held t q q' same h h'),
      others,
    )

just-is_held :
    (t : ℕ) (p : Prekey) → is_unused p.status ≡ true → is_held t (claim_row p.id t p) ≡ true
just-is_held t p u = ground (arith, u)

abbrev Exclusive : ℕ → List PrekeyCall → List Prekey × List ClaimedPrekey → Type 0
Exclusive hi cs r =
    All
      (λ (c : ClaimedPrekey).
        Others c.prekey_id (handed_out (record { rows = r.0; next_id = hi }) cs))
      r.1

claim_each-Exclusive :
    (user t : ℕ) (ds : List (List ℕ)) (rows : List Prekey) (hi : ℕ) (cs : List PrekeyCall)
    → is_sorted 0 hi rows ≡ true
    → InTime t cs
    → Exclusive hi cs (claim_each user t ds rows)
claim_each-Exclusive user t [] rows hi cs s l =
    subst (Exclusive hi cs) (claim_each_end user t rows) tt
claim_each-Exclusive user t (d ∷ ds) rows hi cs s l =
    elim (Option-cases (first_unused user d rows)) [
      | inl e ↦
          subst (Exclusive hi cs) (sym (claim_each-none user t d ds rows e))
            (claim_each-Exclusive user t ds rows hi cs s l)
      | inr (q, e) ↦
          let (g, u, _, _, _) = first-found user d 0 hi rows q s e in
          let marked = map (claim_row q.id t) rows in
          let sorted = map-is_sorted (claim_row q.id t) (claim-KeepsId q.id t) 0 hi rows s in
          let row : IsHeld t q.id marked = (
            claim_row q.id t q,
            find-map (claim_row q.id t) (claim-KeepsId q.id t) q.id rows q g,
            just-is_held t q u,
          ) in
          let (kept, _) = claim_each-Claims t q.id hi user t ds marked (sorted, row) in
          let (_, first) =
            run-Held t q.id (record { rows = (claim_each user t ds marked).0; next_id = hi }) cs l
              kept in
          subst (Exclusive hi cs) (sym (claim_each-some user t d ds rows q e))
            (first, claim_each-Exclusive user t ds marked hi cs sorted l)
    ]

-- A prekey that was handed out is not handed out again before its claim is overdue.
pub claimed_once :
    (table : Prekeys) (begins commits : Bool) (user t : ℕ) (cs : List PrekeyCall)
    → IsTable table
    → InTime t cs
    → All
        (λ (c : ClaimedPrekey).
          Others c.prekey_id (handed_out (claim_prekeys begins commits table user t).0 cs))
        (claim_prekeys begins commits table user t).1
unfolding claim_prekeys
claimed_once table false commits user t cs s l = tt
claimed_once table true false user t cs s l = tt
claimed_once table true true user t cs s l =
    let rows = map (reclaim_row t) table.rows in
    claim_each-Exclusive user t (devices_in_stock user rows) rows table.next_id cs
      (map-is_sorted (reclaim_row t) (reclaim-KeepsId t) 0 table.next_id table.rows s) l
