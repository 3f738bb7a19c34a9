-- ===== src/Server/Database/Tickets/Origin.antt =====
-- Chat-Server/database/DatabaseManager.cpp: what a file ticket that is accepted was issued for.
use xychat_project.Prelude.{
  ℕ, ◌≤◌, ◌≡◌, refl, Bool, true, false, ◌||◌, ◌&&◌, List, [], ◌∷◌, ◌++◌, map, some, if◌then◌else◌,
  arith,
}
use xychat_project.Prelude.Assoc.{text_beq, text_beq_iff}
use xychat_project.Prelude.Int.{ℤ, eq_int, eq_int_iff}
use xychat_project.Server.Database.Tickets.{
  Ticket, Tickets, new_ticket, use_row, renew_row, delete_where, is_for, is_expired, is_of_file,
  issue_file_ticket, mark_file_ticket_used, renew_file_ticket, revoke_file_tickets,
  prune_expired_file_tickets, cascade, find_ticket, is_accepted, validate_file_ticket, TicketCall,
  issue, mark_used, renew, revoke, prune, delete_file, step, run,
}

-- The same hash, kind, file and user.
abbrev pub is_same_grant : Ticket → List ℕ → List ℕ → ℤ → ℤ → Bool
is_same_grant x hash kind file user =
    text_beq x.ticket_hash hash
    && (text_beq x.kind kind && (eq_int x.file_id file && eq_int x.user_id user))

abbrev is_known : Ticket → List Ticket → Bool
is_known x [] = false
is_known x (y ∷ ys) =
    if is_same_grant x y.ticket_hash y.kind y.file_id y.user_id then true else is_known x ys

-- The call issues a ticket with the same hash, kind, file and user.
abbrev pub is_issue : Ticket → TicketCall → Bool
is_issue x (issue executes file user kind hash ttl now) = is_same_grant x hash kind file user
is_issue x _ = false

abbrev pub any_issue : Ticket → List TicketCall → Bool
any_issue x [] = false
any_issue x (c ∷ cs) = if is_issue x c then true else any_issue x cs

is_known-append :
    (x y : Ticket) (ys : List Ticket)
    → is_known x (ys ++ (y ∷ [])) ≡ true
    → is_known x ys || is_same_grant x y.ticket_hash y.kind y.file_id y.user_id ≡ true
is_known-append x y [] h = ground (arith, h)
is_known-append x y (z ∷ zs) h = ground (arith, h, is_known-append x y zs)

is_known-use_row :
    (x : Ticket) (i : ℤ) (ys : List Ticket) → is_known x (map (use_row i) ys) ≡ is_known x ys
is_known-use_row x i [] = refl
is_known-use_row x i (y ∷ ys) = ground (arith, is_known-use_row x i ys)

is_known-renew_row :
    (x : Ticket) (i ttl lifetime : ℤ) (now : ℕ) (ys : List Ticket)
    → is_known x (map (renew_row i ttl lifetime now) ys) ≡ is_known x ys
is_known-renew_row x i ttl lifetime now [] = refl
is_known-renew_row x i ttl lifetime now (y ∷ ys) =
    ground (arith, is_known-renew_row x i ttl lifetime now ys)

is_known-delete_where :
    (x : Ticket) (p : Ticket → Bool) (ys : List Ticket)
    → is_known x (delete_where p ys) ≡ true
    → is_known x ys ≡ true
unfolding delete_where
is_known-delete_where x p [] h = h
is_known-delete_where x p (y ∷ ys) h = ground (arith, h, is_known-delete_where x p ys)

step_known :
    (x : Ticket) (t : Tickets) (c : TicketCall)
    → is_known x (step t c).rows ≡ true
    → is_known x t.rows || is_issue x c ≡ true
unfolding step issue_file_ticket mark_file_ticket_used renew_file_ticket revoke_file_tickets
    prune_expired_file_tickets cascade
step_known x t (issue executes file user kind hash ttl now) h =
    ground (arith, h, is_known-append x (new_ticket t.next_id file user kind hash ttl now) t.rows)
step_known x t (mark_used executes i) h = ground (arith, h, is_known-use_row x i t.rows)
step_known x t (renew executes i ttl lifetime now) h =
    ground (arith, h, is_known-renew_row x i ttl lifetime now t.rows)
step_known x t (revoke executes file kind) h =
    ground (arith, h, is_known-delete_where x (is_for file kind) t.rows)
step_known x t (prune executes now) h =
    ground (arith, h, is_known-delete_where x (is_expired now) t.rows)
step_known x t (delete_file file) h =
    ground (arith, h, is_known-delete_where x (is_of_file file) t.rows)

run_known :
    (x : Ticket) (t : Tickets) (cs : List TicketCall)
    → is_known x (run t cs).rows ≡ true
    → is_known x t.rows || any_issue x cs ≡ true
unfolding run
run_known x t [] h = ground (arith, h)
run_known x t (c ∷ cs) h = ground (arith, run_known x (step t c) cs h, step_known x t c)

found_known :
    (hash kind : List ℕ) (now : ℕ) (x : Ticket) (xs : List Ticket)
    → find_ticket hash kind now xs ≡ some x
    → (is_known x xs ≡ true) × (is_accepted hash kind now x ≡ true)
unfolding find_ticket
found_known hash kind now x [] h = absurd (ground arith)
found_known hash kind now x (y ∷ ys) h = ground (
  arith,
  h,
  found_known hash kind now x ys,
  text_beq_iff x.ticket_hash x.ticket_hash,
  text_beq_iff x.kind x.kind,
  eq_int_iff x.file_id x.file_id,
  eq_int_iff x.user_id x.user_id,
)

abbrev pub no_tickets : Tickets
no_tickets = record { rows = []; next_id = 1 }

-- After any calls on an empty table, a ticket that the check accepts has the hash and the kind that
-- were asked for, is unused and unexpired, and was issued by one of the calls for its file and
-- its user.
pub accepted_ticket_issued :
    (cs : List TicketCall) (answers : Bool) (hash kind : List ℕ) (now : ℕ) (x : Ticket)
    → validate_file_ticket answers (run no_tickets cs) hash kind now ≡ some x
    → (x.ticket_hash ≡ hash)
      × (x.kind ≡ kind)
      × (x.used ≡ false)
      × (now ≤ x.expires_at)
      × (any_issue x cs ≡ true)
unfolding validate_file_ticket
accepted_ticket_issued cs answers hash kind now x h =
    let rows = (run no_tickets cs).rows in
    let e : find_ticket hash kind now rows ≡ some x = ground (arith, h) in
    let k = found_known hash kind now x rows e in
    let i = run_known x no_tickets cs (k.0) in
    (
      ground (arith, k, text_beq_iff x.ticket_hash hash),
      ground (arith, k, text_beq_iff x.kind kind),
      ground (arith, k),
      ground (arith, k),
      ground (arith, i),
    )
