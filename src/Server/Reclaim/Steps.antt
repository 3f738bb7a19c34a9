-- ===== src/Server/Reclaim/Steps.antt =====
-- Chat-Server/core/Server.cpp: what each statement of the reclamation does to files that are ready.
use xychat_project.Prelude.{
  ℕ, ◌≡◌, ◌≢◌, refl, ap, sym, ◌∙◌, Bool, true, false, List, [], ◌∷◌, map, none, some, arith,
  Bool-cases, inl, inr, ◌⊎◌,
}
use xychat_project.Prelude.Assoc.{text_beq, text_beq_iff}
use xychat_project.Prelude.Int.{ℤ, pos, leb_int, eq_int}
use xychat_project.Server.Storage.{Storage, Blob, Io, remove}
use xychat_project.Server.Storage.Access.{other_keys}
use xychat_project.Server.Database.Messages.{Message}
use xychat_project.Server.Database.Files.{
  Files, FileRecord, same_status, ready, cancelled, find_file, delete_rows, transition_row,
  cancel_row, mark_file_cancelled, transition_file_status, is_file_referenced_by_message,
  delete_file_record, cancel_unreferenced_ready_file,
}
use xychat_project.Server.Database.Files.Rows.{
  find-delete_rows, is_below-delete_rows, cancel-KeepsId,
}
use xychat_project.Server.Database.Files.Keys.{IsMember, is_keyed-delete_rows, found_member}
use xychat_project.Server.FileControl.Sound.{IsSound, is_backed, has_length, map-IsSound}
use xychat_project.Server.FileControl.Creation.{cancelled_by_failure}

-- No file with the blob key is ready.
abbrev pub Unready : Files → List ℕ → Type 0
Unready t k =
    (f : FileRecord) → IsMember f t.rows → f.blob_key ≡ k → same_status f.status ready ≡ false

pub removed_elsewhere :
    (io : Io) (s : Storage) (key k : List ℕ) → key ≢ k → (remove io s key).0 k ≡ s k
removed_elsewhere io s key k d =
    (other_keys (λ x. x) io s key k [] [] (pos 0) (pos 0) (pos 0) (pos 0) d).2

-- Removing the data of such a key keeps every other key's data.
pub Unready-IsSound :
    (io : Io) (t : Files) (s : Storage) (key : List ℕ)
    → IsSound t s
    → Unready t key
    → IsSound t (remove io s key).0
Unready-IsSound io t s key v u = record {
  table = v.table;
  keyed = v.keyed;
  backed = λ i f h r. elim (Bool-cases (text_beq key f.blob_key)) [
    | inl e ↦ absurd (
        ground
          (arith, r, u f (found_member i f t.rows h) (sym ((text_beq_iff key f.blob_key).0 e))))
    | inr e ↦
        let d : key ≢ f.blob_key = λ q. ground (arith, e, (text_beq_iff key f.blob_key).1 q) in
        ap (λ (b : Blob). has_length f.size_bytes b.object)
          (removed_elsewhere io s key f.blob_key d)
        ∙ v.backed i f h r
  ];
}

member-map :
    (g : FileRecord → FileRecord) (y : FileRecord) (rows : List FileRecord)
    → IsMember y (map g rows)
    → (x : FileRecord) × IsMember x rows × (y ≡ g x)
member-map g y [] m = absurd m
member-map g y (x ∷ xs) (inl e) = (x, inl refl, e)
member-map g y (x ∷ xs) (inr m) = let (z, n, e) = member-map g y xs m in (z, inr n, e)

member-delete_rows :
    (i : ℤ) (y : FileRecord) (rows : List FileRecord)
    → IsMember y (delete_rows i rows)
    → IsMember y rows
unfolding delete_rows
member-delete_rows i y [] m = absurd m
member-delete_rows i y (x ∷ xs) m = elim (Bool-cases (eq_int x.id i)) [
  | inl e ↦ inr (member-delete_rows i y xs (rw e at m))
  | inr e ↦
      let k : (y ≡ x) ⊎ IsMember y (delete_rows i xs) = rw e at m in
      elim k [ inl q ↦ inl q | inr n ↦ inr (member-delete_rows i y xs n) ]
]

-- The statement keeps the table sound, and makes no file ready.
pub record Reaps (t t' : Files) : Type 0 where
  pub sound : (s : Storage) → IsSound t s → IsSound t' s
  pub unready : (k : List ℕ) → Unready t k → Unready t' k

pub Reaps-refl : (t : Files) → Reaps t t
Reaps-refl t = record { sound = λ s v. v; unready = λ k u. u }

map-Unready :
    (t : Files) (g : FileRecord → FileRecord)
    → ((f : FileRecord) → (g f).blob_key ≡ f.blob_key)
    → ((f : FileRecord)
        → same_status f.status ready ≡ false
        → same_status (g f).status ready ≡ false)
    → (k : List ℕ) → Unready t k
    → Unready (record t { rows = map g t.rows }) k
map-Unready t g b r k u y m e =
    let (x, n, q) = member-map g y t.rows m in
    ap (λ (z : FileRecord). same_status z.status ready) q
    ∙ r x (u x n (sym (b x) ∙ sym (ap (λ (z : FileRecord). z.blob_key) q) ∙ e))

cancelled_key :
    (i : ℤ) (f : FileRecord)
    → ((transition_row i cancelled none f).blob_key ≡ f.blob_key)
      × (same_status f.status ready ≡ false
          → same_status (transition_row i cancelled none f).status ready ≡ false)
cancelled_key i f = (ground arith, λ h. ground (arith, h))

unreferenced_key :
    (i : ℤ) (ms : List Message) (f : FileRecord)
    → ((cancel_row i ms f).blob_key ≡ f.blob_key)
      × (same_status f.status ready ≡ false → same_status (cancel_row i ms f).status ready ≡ false)
unreferenced_key i ms f = (ground arith, λ h. ground (arith, h))

cancelled-Unready :
    (executes : Bool) (t : Files) (i : ℤ) (k : List ℕ)
    → Unready t k
    → Unready (mark_file_cancelled executes t i).0 k
unfolding mark_file_cancelled transition_file_status
cancelled-Unready executes t i k u =
    let mapped =
      map-Unready t (transition_row i cancelled none) (λ f. (cancelled_key i f).0)
        (λ f. (cancelled_key i f).1) k u in
    elim (Bool-cases (leb_int i (pos 0))) [
      | inl e ↦ rw e u
      | inr e ↦ elim (Bool-cases executes) [ inl x ↦ rw (e, x) mapped | inr x ↦ rw (e, x) u ]
    ]

pub mark_file_cancelled-Reaps :
    (executes : Bool) (t : Files) (i : ℤ) → Reaps t (mark_file_cancelled executes t i).0
mark_file_cancelled-Reaps executes t i = record {
  sound = λ s v. cancelled_by_failure executes t s i v;
  unready = λ k u. cancelled-Unready executes t i k u;
}

unreferenced_kept :
    (s : Storage) (i : ℤ) (ms : List Message) (f : FileRecord)
    → (same_status f.status ready ≡ true → is_backed s f ≡ true)
    → same_status (cancel_row i ms f).status ready ≡ true
    → is_backed s (cancel_row i ms f) ≡ true
unreferenced_kept s i ms f b r = ground (arith, r, b)

pub cancel_unreferenced-Reaps :
    (executes : Bool) (t : Files) (ms : List Message) (i : ℤ)
    → Reaps t (cancel_unreferenced_ready_file executes t ms i).0
unfolding cancel_unreferenced_ready_file
cancel_unreferenced-Reaps executes t ms i =
    let mapped : Reaps t (record t { rows = map (cancel_row i ms) t.rows }) = record {
      sound = λ s v.
          map-IsSound t s (cancel_row i ms) (cancel-KeepsId i ms) (λ f. (unreferenced_key i ms f).0)
            (λ j f h r. unreferenced_kept s i ms f (v.backed j f h) r) v;
      unready = λ k u.
          map-Unready t (cancel_row i ms) (λ f. (unreferenced_key i ms f).0)
            (λ f. (unreferenced_key i ms f).1) k u;
    } in
    elim (Bool-cases (leb_int i (pos 0))) [
      | inl e ↦ rw e (Reaps-refl t)
      | inr e ↦ elim (Bool-cases executes) [
        | inl x ↦ rw (e, x) mapped
        | inr x ↦ rw (e, x) (Reaps-refl t)
      ]
    ]

found_before :
    (i j : ℤ) (f : FileRecord) (rows : List FileRecord)
    → find_file j (delete_rows i rows) ≡ some f
    → find_file j rows ≡ some f
found_before i j f rows h = ground (arith, h, find-delete_rows j i rows)

deleted-Reaps : (t : Files) (i : ℤ) → Reaps t (record t { rows = delete_rows i t.rows })
deleted-Reaps t i = record {
  sound = λ s v. record {
    table = is_below-delete_rows t.next_id i t.rows v.table;
    keyed = is_keyed-delete_rows i t.rows v.keyed;
    backed = λ j f h r. v.backed j f (found_before i j f t.rows h) r;
  };
  unready = λ k u f m e. u f (member-delete_rows i f t.rows m) e;
}

pub delete_file_record-Reaps :
    (answers executes : Bool) (t : Files) (ms : List Message) (i : ℤ)
    → Reaps t (delete_file_record answers executes t ms i).0
unfolding delete_file_record
delete_file_record-Reaps answers executes t ms i = elim (Bool-cases (leb_int i (pos 0))) [
  | inl e ↦ rw e (Reaps-refl t)
  | inr e ↦ elim (Bool-cases (is_file_referenced_by_message answers ms i)) [
    | inl r ↦ rw (e, r) (Reaps-refl t)
    | inr r ↦ elim (Bool-cases executes) [
      | inl x ↦ rw (e, r, x) (deleted-Reaps t i)
      | inr x ↦ rw (e, r, x) (Reaps-refl t)
    ]
  ]
]
