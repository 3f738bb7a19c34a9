-- ===== src/Server/Database/Prekeys/Held.antt =====
-- Chat-Server/database/DatabaseManager.cpp: a prekey that is used, or claimed in time, through all
-- calls.
use xychat_project.Prelude.{
  some_inj, ℕ, suc, ◌+◌, ◌<◌, ◌≡◌, ◌≢◌, refl, sym, ◌∙◌, ap, Bool, true, false, ◌||◌, List, [], ◌∷◌,
  ◌++◌, map, ◌==◌, none, some, if◌then◌else◌, arith, inl, inr, Option-cases, All,
}
use mathlib.Core.Path.{subst}
use xychat_project.Server.Database.Prekeys.{
  Prekey, unused, claimed, used, Prekeys, ClaimedPrekey, claim_timeout, is_unused, reclaim_row,
  claim_row, consume_row, first_unused, claim_each, claim_prekeys, consume_rows, consume_prekeys,
  insert_prekeys, upload_prekeys, PrekeyCall, claim, consume, upload, step, run, handed_out,
  devices_in_stock, is_empty, no_keys,
}
use xychat_project.Server.Database.Prekeys.Rows.{
  find, is_sorted, reclaim-KeepsId, claim-KeepsId, consume-KeepsId, find-map, map-is_sorted,
  first-found,
}

-- A prekey that is used, or claimed at `t`.
abbrev pub is_held : ℕ → Prekey → Bool
is_held t p = elim p.status [
  | unused ↦ false
  | claimed ↦ elim p.claimed_at [ none ↦ false | some u ↦ u == t ]
  | used ↦ true
]

abbrev pub IsHeld : ℕ → ℕ → List Prekey → Type 0
IsHeld t i rows = (p : Prekey) × (find i rows ≡ some p) × (is_held t p ≡ true)

pub reclaim-is_held :
    (t now : ℕ) (p : Prekey) → now < t + claim_timeout → is_held t p ≡ true → reclaim_row now p ≡ p
reclaim-is_held t now p l h = ground arith

pub claim-is_held : (t i now : ℕ) (p : Prekey) → is_held t p ≡ true → claim_row i now p ≡ p
claim-is_held t i now p h = ground arith

pub consume-is_held :
    (t i : ℕ) (p : Prekey) → is_held t p ≡ true → is_held t (consume_row i p) ≡ true
consume-is_held t i p h = ground arith

pub differs :
    (t : ℕ) (q p : Prekey) (i : ℕ) (rows : List Prekey)
    → find q.id rows ≡ some q
    → find i rows ≡ some p
    → q.id ≡ i
    → is_unused q.status ≡ true
    → is_held t p ≡ true
    → ⊥
differs t q p i rows g f same u h =
    let e : q ≡ p = some_inj (sym g ∙ ap (λ j. find j rows) same ∙ f) in
    let v : is_unused p.status ≡ true = ap (λ x. is_unused x.status) (sym e) ∙ u in
    ground (arith, v, h)

-- The state between two calls, for a prekey that is held.
abbrev pub Keeps : ℕ → ℕ → ℕ → List Prekey → Type 0
Keeps t i hi rows = (is_sorted 0 hi rows ≡ true) × IsHeld t i rows

abbrev pub Others : ℕ → List ClaimedPrekey → Type 0
Others i cs = All (λ (c : ClaimedPrekey). c.prekey_id ≢ i) cs

abbrev pub given : List ℕ → Prekey → ClaimedPrekey
given d p = record { device_id = d; prekey_id = p.id; prekey_pub = p.pub_key }

pub claim_each_end : (user now : ℕ) (rows : List Prekey) → (rows, []) ≡ claim_each user now [] rows
unfolding claim_each
claim_each_end user now rows = refl

pub claim_each-none :
    (user now : ℕ) (d : List ℕ) (ds : List (List ℕ)) (rows : List Prekey)
    → first_unused user d rows ≡ none
    → claim_each user now (d ∷ ds) rows ≡ claim_each user now ds rows
unfolding claim_each
claim_each-none user now d ds rows e = rw (claim_each, e) refl

pub claim_each-some :
    (user now : ℕ) (d : List ℕ) (ds : List (List ℕ)) (rows : List Prekey) (p : Prekey)
    → first_unused user d rows ≡ some p
    → claim_each user now (d ∷ ds) rows ≡ (
      (claim_each user now ds (map (claim_row p.id now) rows)).0,
      given d p ∷ (claim_each user now ds (map (claim_row p.id now) rows)).1,
    )
unfolding claim_each
claim_each-some user now d ds rows p e = rw (claim_each, e) refl

pub claim_row-Keeps :
    (t i hi now : ℕ) (q : Prekey) (rows : List Prekey)
    → Keeps t i hi rows
    → Keeps t i hi (map (claim_row q.id now) rows)
claim_row-Keeps t i hi now q rows (s, held) =
    let (p, f, h) = held in
    let row : IsHeld t i (map (claim_row q.id now) rows) = (
      p,
      find-map (claim_row q.id now) (claim-KeepsId q.id now) i rows p f
          ∙ ap some (claim-is_held t q.id now p h),
      h,
    ) in
    (map-is_sorted (claim_row q.id now) (claim-KeepsId q.id now) 0 hi rows s, row)

abbrev pub Claims : ℕ → ℕ → ℕ → List Prekey × List ClaimedPrekey → Type 0
Claims t i hi r = Keeps t i hi r.0 × Others i r.1

pub claim_each-Claims :
    (t i hi user now : ℕ) (ds : List (List ℕ)) (rows : List Prekey)
    → Keeps t i hi rows
    → Claims t i hi (claim_each user now ds rows)
claim_each-Claims t i hi user now [] rows k =
    subst (Claims t i hi) (claim_each_end user now rows) (k, tt)
claim_each-Claims t i hi user now (d ∷ ds) rows k =
    let (s, held) = k in
    let (p, f, h) = held in
    elim (Option-cases (first_unused user d rows)) [
      | inl e ↦
          subst (Claims t i hi) (sym (claim_each-none user now d ds rows e))
            (claim_each-Claims t i hi user now ds rows k)
      | inr (q, e) ↦
          let (g, u, _, _, _) = first-found user d 0 hi rows q s e in
          let (kept, o) =
            claim_each-Claims t i hi user now ds (map (claim_row q.id now) rows)
              (claim_row-Keeps t i hi now q rows k) in
          subst (Claims t i hi) (sym (claim_each-some user now d ds rows q e))
            (kept, ((λ (same : q.id ≡ i). differs t q p i rows g f same u h), o))
    ]

-- The same for a whole table.
abbrev pub Held : ℕ → ℕ → Prekeys → Type 0
Held t i table = Keeps t i table.next_id table.rows

-- Every claim in the calls comes before the claim at `t` is overdue.
abbrev pub InTime : ℕ → List PrekeyCall → Type 0
InTime t [] = Unit {0}
InTime t (claim b k user now ∷ cs) = (now < t + claim_timeout) × InTime t cs
InTime t (consume executes ids ∷ cs) = InTime t cs
InTime t (upload b k user d ks ∷ cs) = InTime t cs

pub reclaim-Keeps :
    (t i hi now : ℕ) (rows : List Prekey)
    → now < t + claim_timeout
    → Keeps t i hi rows
    → Keeps t i hi (map (reclaim_row now) rows)
reclaim-Keeps t i hi now rows l (s, held) =
    let (p, f, h) = held in
    let row : IsHeld t i (map (reclaim_row now) rows) = (
      p,
      find-map (reclaim_row now) (reclaim-KeepsId now) i rows p f
          ∙ ap some (reclaim-is_held t now p l h),
      h,
    ) in
    (map-is_sorted (reclaim_row now) (reclaim-KeepsId now) 0 hi rows s, row)

pub claim_prekeys-Held :
    (t i user now : ℕ) (b k : Bool) (table : Prekeys)
    → now < t + claim_timeout
    → Held t i table
    → Held t i (claim_prekeys b k table user now).0
      × All (λ (c : ClaimedPrekey). c.prekey_id ≢ i) (claim_prekeys b k table user now).1
unfolding claim_prekeys
claim_prekeys-Held t i user now false k table l h = (h, tt)
claim_prekeys-Held t i user now true false table l h = (h, tt)
claim_prekeys-Held t i user now true true table l h =
    claim_each-Claims t i table.next_id user now
      (devices_in_stock user (map (reclaim_row now) table.rows)) (map (reclaim_row now) table.rows)
      (reclaim-Keeps t i table.next_id now table.rows l h)

consume_row-Keeps :
    (t i hi j : ℕ) (b : Bool) (rows : List Prekey)
    → Keeps t i hi rows
    → Keeps t i hi (if b then map (consume_row j) rows else rows)
consume_row-Keeps t i hi j false rows k = k
consume_row-Keeps t i hi j true rows (s, (p, f, h)) = (
  map-is_sorted (consume_row j) (consume-KeepsId j) 0 hi rows s,
  (
    consume_row j p,
    find-map (consume_row j) (consume-KeepsId j) i rows p f,
    consume-is_held t j p h,
  ),
)

pub consume-Keeps :
    (t i hi : ℕ) (executes : ℕ → Bool) (ids : List ℕ) (rows : List Prekey)
    → Keeps t i hi rows
    → Keeps t i hi (consume_rows executes ids rows)
consume-Keeps t i hi executes [] rows k = k
consume-Keeps t i hi executes (j ∷ js) rows k =
    consume-Keeps t i hi executes js (if executes j then map (consume_row j) rows else rows)
      (consume_row-Keeps t i hi j (executes j) rows k)

pub append-is_sorted :
    (lo hi : ℕ) (rows : List Prekey) (p : Prekey)
    → p.id ≡ hi
    → is_sorted lo hi rows ≡ true
    → is_sorted lo (hi + 1) (rows ++ (p ∷ [])) ≡ true
append-is_sorted lo hi [] p e h = ground (arith, e)
append-is_sorted lo hi (x ∷ xs) p e h = ground (arith, append-is_sorted (suc x.id) hi xs p e)

pub find-append :
    (i : ℕ) (rows more : List Prekey) (p : Prekey)
    → find i rows ≡ some p
    → find i (rows ++ more) ≡ some p
find-append i [] more p e = ground (arith, e)
find-append i (x ∷ xs) more p e = ground (arith, e, find-append i xs more p)

pub insert_prekeys-Held :
    (t i user : ℕ) (d : List ℕ) (ks : List (List ℕ)) (table : Prekeys)
    → Held t i table
    → Held t i (insert_prekeys user d ks table)
unfolding insert_prekeys
insert_prekeys-Held t i user d [] table h = h
insert_prekeys-Held t i user d ([] ∷ ks) table h = insert_prekeys-Held t i user d ks table h
insert_prekeys-Held t i user d ((u ∷ us) ∷ ks) table (s, held) =
    let (p, f, h) = held in
    let new : Prekey = record {
      id = table.next_id;
      user_id = user;
      device_id = d;
      pub_key = u ∷ us;
      status = unused;
      claimed_at = none;
    } in
    let row : IsHeld t i (table.rows ++ (new ∷ [])) =
      (p, find-append i table.rows (new ∷ []) p f, h) in
    insert_prekeys-Held t i user d ks
      (record { rows = table.rows ++ (new ∷ []); next_id = table.next_id + 1 })
      (append-is_sorted 0 table.next_id table.rows new refl s, row)

pub either_table :
    (t i : ℕ) (table table' : Prekeys) (test : Bool)
    → Held t i table
    → Held t i table'
    → Held t i (if test then table else table')
either_table t i table table' true h g = h
either_table t i table table' false h g = g

pub upload_prekeys-Held :
    (t i user : ℕ) (b k : Bool) (d : List ℕ) (ks : List (List ℕ)) (table : Prekeys)
    → Held t i table
    → Held t i (upload_prekeys b k table user d ks)
unfolding upload_prekeys
upload_prekeys-Held t i user false k d ks table h =
    either_table t i table table (is_empty d || no_keys ks) h h
upload_prekeys-Held t i user true false d ks table h =
    either_table t i table table (is_empty d || no_keys ks) h h
upload_prekeys-Held t i user true true d ks table h =
    either_table t i table (insert_prekeys user d ks table) (is_empty d || no_keys ks) h
      (insert_prekeys-Held t i user d ks table h)

pub step-Held :
    (t i : ℕ) (table : Prekeys) (c : PrekeyCall)
    → InTime t (c ∷ [])
    → Held t i table
    → Held t i (step table c).0 × All (λ (c : ClaimedPrekey). c.prekey_id ≢ i) (step table c).1
unfolding step consume_prekeys
step-Held t i table (claim b k user now) (l, _) h = claim_prekeys-Held t i user now b k table l h
step-Held t i table (consume executes ids) _ h =
    (consume-Keeps t i table.next_id executes ids table.rows h, tt)
step-Held t i table (upload b k user d ks) _ h = (upload_prekeys-Held t i user b k d ks table h, tt)

pub append-Others :
    (i : ℕ) (xs ys : List ClaimedPrekey) → Others i xs → Others i ys → Others i (xs ++ ys)
append-Others i [] ys h g = g
append-Others i (x ∷ xs) ys (h, hs) g = (h, append-Others i xs ys hs g)

pub split :
    (t : ℕ) (c : PrekeyCall) (cs : List PrekeyCall)
    → InTime t (c ∷ cs)
    → InTime t (c ∷ []) × InTime t cs
split t (claim b k user now) cs (l, r) = ((l, tt), r)
split t (consume executes ids) cs r = (tt, r)
split t (upload b k user d ks) cs r = (tt, r)

pub run-Held :
    (t i : ℕ) (table : Prekeys) (cs : List PrekeyCall)
    → InTime t cs
    → Held t i table
    → Held t i (run table cs) × All (λ (c : ClaimedPrekey). c.prekey_id ≢ i) (handed_out table cs)
unfolding run handed_out
run-Held t i table [] _ h = (h, tt)
run-Held t i table (c ∷ cs) l h =
    let (l₁, l₂) = split t c cs l in
    let (h₁, o₁) = step-Held t i table c l₁ h in
    let (h₂, o₂) = run-Held t i (step table c).0 cs l₂ h₁ in
    (h₂, append-Others i (step table c).1 (handed_out (step table c).0 cs) o₁ o₂)
