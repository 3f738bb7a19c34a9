-- ===== src/Server/Database/Tickets/Lifetime.antt =====
-- Chat-Server/database/DatabaseManager.cpp: how long a file ticket can be used.
use xychat_project.Prelude.{
  ℕ, ◌+◌, ◌≤◌, ◌≡◌, refl, Bool, true, false, not, List, [], ◌∷◌, ◌++◌, map, leb, none,
  if◌then◌else◌, arith, All,
}
use xychat_project.Prelude.Assoc.{text_beq}
use xychat_project.Prelude.Int.{ℤ, pos_part}
use xychat_project.Server.Database.Tickets.{
  Ticket, Tickets, new_ticket, use_row, renew_row, delete_where, is_for, is_expired, is_of_file,
  issue_file_ticket, mark_file_ticket_used, renew_file_ticket, revoke_file_tickets,
  prune_expired_file_tickets, cascade, find_ticket, validate_file_ticket, TicketCall, issue,
  mark_used, renew, revoke, prune, delete_file, step, run,
}

-- No ticket expires later than `life` seconds after its creation.
abbrev pub is_bounded : ℕ → List Ticket → Bool
is_bounded life [] = true
is_bounded life (x ∷ xs) =
    if leb x.expires_at (x.created_at + life) then is_bounded life xs else false

is_bounded-append :
    (life : ℕ) (xs : List Ticket) (x : Ticket)
    → is_bounded life xs ≡ true
    → x.expires_at ≤ x.created_at + life
    → is_bounded life (xs ++ (x ∷ [])) ≡ true
is_bounded-append life [] x h l = ground arith
is_bounded-append life (y ∷ ys) x h l = ground (arith, h, is_bounded-append life ys x)

is_bounded-use_row :
    (life : ℕ) (i : ℤ) (xs : List Ticket)
    → is_bounded life xs ≡ true
    → is_bounded life (map (use_row i) xs) ≡ true
is_bounded-use_row life i [] h = refl
is_bounded-use_row life i (x ∷ xs) h = ground (arith, h, is_bounded-use_row life i xs)

is_bounded-renew_row :
    (life : ℕ) (i ttl lifetime : ℤ) (now : ℕ) (xs : List Ticket)
    → pos_part lifetime ≤ life
    → is_bounded life xs ≡ true
    → is_bounded life (map (renew_row i ttl lifetime now) xs) ≡ true
is_bounded-renew_row life i ttl lifetime now [] l h = refl
is_bounded-renew_row life i ttl lifetime now (x ∷ xs) l h =
    ground (arith, h, is_bounded-renew_row life i ttl lifetime now xs l)

is_bounded-delete_where :
    (life : ℕ) (p : Ticket → Bool) (xs : List Ticket)
    → is_bounded life xs ≡ true
    → is_bounded life (delete_where p xs) ≡ true
unfolding delete_where
is_bounded-delete_where life p [] h = refl
is_bounded-delete_where life p (x ∷ xs) h = ground (arith, h, is_bounded-delete_where life p xs)

-- The call's time to live and lifetime are at most `life`.
abbrev pub is_short : ℕ → TicketCall → Bool
is_short life (issue executes file user kind hash ttl now) = leb (pos_part ttl) life
is_short life (renew executes i ttl lifetime now) = leb (pos_part lifetime) life
is_short life _ = true

step_bounded :
    (life : ℕ) (t : Tickets) (c : TicketCall)
    → is_short life c ≡ true
    → is_bounded life t.rows ≡ true
    → is_bounded life (step t c).rows ≡ true
unfolding step issue_file_ticket mark_file_ticket_used renew_file_ticket revoke_file_tickets
    prune_expired_file_tickets cascade
step_bounded life t (issue executes file user kind hash ttl now) s h =
    ground (
      arith,
      s,
      h,
      is_bounded-append life t.rows (new_ticket t.next_id file user kind hash ttl now),
    )
step_bounded life t (mark_used executes i) s h = ground (arith, h, is_bounded-use_row life i t.rows)
step_bounded life t (renew executes i ttl lifetime now) s h =
    ground (arith, s, h, is_bounded-renew_row life i ttl lifetime now t.rows)
step_bounded life t (revoke executes file kind) s h =
    ground (arith, h, is_bounded-delete_where life (is_for file kind) t.rows)
step_bounded life t (prune executes now) s h =
    ground (arith, h, is_bounded-delete_where life (is_expired now) t.rows)
step_bounded life t (delete_file file) s h = is_bounded-delete_where life (is_of_file file) t.rows h

-- However often tickets are renewed: if no call asks for a time to live on issue, or for a lifetime
-- on renewal, above `life`, then every ticket still expires at most `life` seconds after its creation.
pub lifetime_bounded :
    (life : ℕ) (t : Tickets) (cs : List TicketCall)
    → All (λ c. is_short life c ≡ true) cs
    → is_bounded life t.rows ≡ true
    → is_bounded life (run t cs).rows ≡ true
unfolding run
lifetime_bounded life t [] s h = h
lifetime_bounded life t (c ∷ cs) s h =
    lifetime_bounded life (step t c) cs s.1 (step_bounded life t c s.0 h)

-- What a call does to the rows keeps a ticket from being accepted.
append-rejected :
    (hash kind : List ℕ) (now : ℕ) (xs : List Ticket) (x : Ticket)
    → text_beq x.ticket_hash hash ≡ false
    → find_ticket hash kind now xs ≡ none
    → find_ticket hash kind now (xs ++ (x ∷ [])) ≡ none
unfolding find_ticket
append-rejected hash kind now [] x n h = ground (arith, n)
append-rejected hash kind now (y ∷ ys) x n h =
    ground (arith, n, h, append-rejected hash kind now ys x)

use_row-rejected :
    (hash kind : List ℕ) (now : ℕ) (i : ℤ) (xs : List Ticket)
    → find_ticket hash kind now xs ≡ none
    → find_ticket hash kind now (map (use_row i) xs) ≡ none
unfolding find_ticket
use_row-rejected hash kind now i [] h = refl
use_row-rejected hash kind now i (x ∷ xs) h = ground (arith, h, use_row-rejected hash kind now i xs)

renew_row-rejected :
    (hash kind : List ℕ) (now later : ℕ) (i ttl lifetime : ℤ) (xs : List Ticket)
    → now ≤ later
    → find_ticket hash kind now xs ≡ none
    → find_ticket hash kind now (map (renew_row i ttl lifetime later) xs) ≡ none
unfolding find_ticket
renew_row-rejected hash kind now later i ttl lifetime [] l h = refl
renew_row-rejected hash kind now later i ttl lifetime (x ∷ xs) l h =
    ground (arith, l, h, renew_row-rejected hash kind now later i ttl lifetime xs l)

delete_where-rejected :
    (hash kind : List ℕ) (now : ℕ) (p : Ticket → Bool) (xs : List Ticket)
    → find_ticket hash kind now xs ≡ none
    → find_ticket hash kind now (delete_where p xs) ≡ none
unfolding find_ticket delete_where
delete_where-rejected hash kind now p [] h = refl
delete_where-rejected hash kind now p (x ∷ xs) h =
    ground (arith, h, delete_where-rejected hash kind now p xs)

later-rejected :
    (hash kind : List ℕ) (now later : ℕ) (xs : List Ticket)
    → now ≤ later
    → find_ticket hash kind now xs ≡ none
    → find_ticket hash kind later xs ≡ none
unfolding find_ticket
later-rejected hash kind now later [] l h = refl
later-rejected hash kind now later (x ∷ xs) l h =
    ground (arith, l, h, later-rejected hash kind now later xs l)

-- The call is not before `now`, and issues no ticket with the hash.
abbrev pub is_other : List ℕ → ℕ → TicketCall → Bool
is_other hash now (issue executes file user kind h ttl t) = not (text_beq h hash)
is_other hash now (renew executes i ttl lifetime t) = leb now t
is_other hash now _ = true

step_rejected :
    (hash kind : List ℕ) (now : ℕ) (t : Tickets) (c : TicketCall)
    → is_other hash now c ≡ true
    → find_ticket hash kind now t.rows ≡ none
    → find_ticket hash kind now (step t c).rows ≡ none
unfolding step issue_file_ticket mark_file_ticket_used renew_file_ticket revoke_file_tickets
    prune_expired_file_tickets cascade
step_rejected hash kind now t (issue executes file user k h ttl n) o r =
    ground
      (arith, o, r, append-rejected hash kind now t.rows (new_ticket t.next_id file user k h ttl n))
step_rejected hash kind now t (mark_used executes i) o r =
    ground (arith, r, use_row-rejected hash kind now i t.rows)
step_rejected hash kind now t (renew executes i ttl lifetime n) o r =
    ground (arith, o, r, renew_row-rejected hash kind now n i ttl lifetime t.rows)
step_rejected hash kind now t (revoke executes file k) o r =
    ground (arith, r, delete_where-rejected hash kind now (is_for file k) t.rows)
step_rejected hash kind now t (prune executes n) o r =
    ground (arith, r, delete_where-rejected hash kind now (is_expired n) t.rows)
step_rejected hash kind now t (delete_file file) o r =
    delete_where-rejected hash kind now (is_of_file file) t.rows r

run_rejected :
    (hash kind : List ℕ) (now : ℕ) (t : Tickets) (cs : List TicketCall)
    → All (λ c. is_other hash now c ≡ true) cs
    → find_ticket hash kind now t.rows ≡ none
    → find_ticket hash kind now (run t cs).rows ≡ none
unfolding run
run_rejected hash kind now t [] o r = r
run_rejected hash kind now t (c ∷ cs) o r =
    run_rejected hash kind now (step t c) cs o.1 (step_rejected hash kind now t c o.0 r)

-- A ticket that the check refuses at a time when the query is carried out, because it expired, was
-- used, was revoked or never existed, is refused at every later time after any further calls: no
-- renewal revives it, as long as no ticket with its hash is issued.
pub refused_ticket_stays_refused :
    (hash kind : List ℕ) (now later : ℕ) (answers : Bool) (t : Tickets) (cs : List TicketCall)
    → validate_file_ticket true t hash kind now ≡ none
    → All (λ c. is_other hash now c ≡ true) cs
    → now ≤ later
    → validate_file_ticket answers (run t cs) hash kind later ≡ none
unfolding validate_file_ticket
refused_ticket_stays_refused hash kind now later answers t cs h o l = ground (
  arith,
  h,
  l,
  run_rejected hash kind now t cs o,
  later-rejected hash kind now later (run t cs).rows l,
)
