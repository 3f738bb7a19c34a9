-- ===== src/Server/Database/Tickets.antt =====
-- Chat-Server/database/DatabaseManager.cpp: the table `file_tickets`. Its rows stand in the order of
-- their ids; times are seconds, which the database compares as texts of one format. `executes` is
-- whether SQLite carries a statement out, apart from what the unique column refuses.
pub mod Lifetime
pub mod Origin
use xychat_project.Prelude.{
  ℕ, ◌+◌, Bool, true, false, ◌||◌, ◌&&◌, not, List, [], ◌∷◌, ◌++◌, map, ltb, leb, min, Option, none,
  some, if◌then◌else◌,
}
use xychat_project.Prelude.Assoc.{text_beq}
use xychat_project.Prelude.Int.{ℤ, pos, leb_int, eq_int, minus_one, pos_part}

pub record Ticket : Type 0 where
  pub id : ℤ
  pub ticket_hash : List ℕ
  pub file_id : ℤ
  pub user_id : ℤ
  pub kind : List ℕ
  pub used : Bool
  pub expires_at : ℕ
  pub created_at : ℕ

pub record Tickets : Type 0 where
  pub rows : List Ticket
  pub next_id : ℕ

abbrev pub is_empty : List ℕ → Bool
is_empty [] = true
is_empty (c ∷ cs) = false

abbrev pub has_hash : List ℕ → List Ticket → Bool
has_hash h [] = false
has_hash h (x ∷ xs) = if text_beq x.ticket_hash h then true else has_hash h xs

abbrev pub new_ticket : ℕ → ℤ → ℤ → List ℕ → List ℕ → ℤ → ℕ → Ticket
new_ticket i file user kind hash ttl now = record {
  id = pos i;
  ticket_hash = hash;
  file_id = file;
  user_id = user;
  kind = kind;
  used = false;
  expires_at = now + pos_part ttl;
  created_at = now;
}

unfoldable pub issue_file_ticket : Bool → Tickets → ℤ → ℤ → List ℕ → List ℕ → ℤ → ℕ → Tickets × Bool
issue_file_ticket executes t file user kind hash ttl now =
    if leb_int file (pos 0)
      || (leb_int user (pos 0) || (is_empty kind || (is_empty hash || leb_int ttl (pos 0))))
    then (t, false)
    else if not executes
    then (t, false)
    else if has_hash hash t.rows
    then (t, false)
    else (
      record {
        rows = t.rows ++ (new_ticket t.next_id file user kind hash ttl now ∷ []);
        next_id = t.next_id + 1;
      },
      true,
    )

-- `used = 0 AND expires_at >= datetime('now')`.
abbrev pub is_live : ℕ → Ticket → Bool
is_live now x = not x.used && leb now x.expires_at

abbrev pub is_accepted : List ℕ → List ℕ → ℕ → Ticket → Bool
is_accepted hash kind now x = text_beq x.ticket_hash hash && (text_beq x.kind kind && is_live now x)

unfoldable pub find_ticket : List ℕ → List ℕ → ℕ → List Ticket → Option Ticket
find_ticket hash kind now [] = none
find_ticket hash kind now (x ∷ xs) =
    if is_accepted hash kind now x then some x else find_ticket hash kind now xs

unfoldable pub validate_file_ticket : Bool → Tickets → List ℕ → List ℕ → ℕ → Option Ticket
validate_file_ticket answers t hash kind now =
    if is_empty hash || is_empty kind
    then none
    else if answers
    then find_ticket hash kind now t.rows
    else none

abbrev pub use_row : ℤ → Ticket → Ticket
use_row i x = if eq_int x.id i && not x.used then record x { used = true } else x

abbrev pub any_unused : ℤ → List Ticket → Bool
any_unused i [] = false
any_unused i (x ∷ xs) = if eq_int x.id i && not x.used then true else any_unused i xs

unfoldable pub mark_file_ticket_used : Bool → Tickets → ℤ → Tickets × Bool
mark_file_ticket_used executes t i =
    if leb_int i (pos 0)
    then (t, false)
    else if not executes
    then (t, false)
    else (record t { rows = map (use_row i) t.rows }, any_unused i t.rows)

-- The later expiry, which the creation bounds.
abbrev pub renew_row : ℤ → ℤ → ℤ → ℕ → Ticket → Ticket
renew_row i ttl lifetime now x =
    if eq_int x.id i && is_live now x
    then record x { expires_at = min (now + pos_part ttl) (x.created_at + pos_part lifetime) }
    else x

abbrev pub any_live : ℤ → ℕ → List Ticket → Bool
any_live i now [] = false
any_live i now (x ∷ xs) = if eq_int x.id i && is_live now x then true else any_live i now xs

unfoldable pub renew_file_ticket : Bool → Tickets → ℤ → ℤ → ℤ → ℕ → Tickets × Bool
renew_file_ticket executes t i ttl lifetime now =
    if leb_int i (pos 0) || (leb_int ttl (pos 0) || leb_int lifetime (pos 0))
    then (t, false)
    else if not executes
    then (t, false)
    else (record t { rows = map (renew_row i ttl lifetime now) t.rows }, any_live i now t.rows)

-- `DELETE FROM file_tickets WHERE ...`, with the number of rows that go.
unfoldable pub delete_where : (Ticket → Bool) → List Ticket → List Ticket
delete_where p [] = []
delete_where p (x ∷ xs) = let rest = delete_where p xs in if p x then rest else x ∷ rest

unfoldable pub count_where : (Ticket → Bool) → List Ticket → ℕ
count_where p [] = 0
count_where p (x ∷ xs) = (if p x then 1 else 0) + count_where p xs

abbrev pub is_for : ℤ → List ℕ → Ticket → Bool
is_for file kind x = eq_int x.file_id file && text_beq x.kind kind

unfoldable pub revoke_file_tickets : Bool → Tickets → ℤ → List ℕ → Tickets × ℤ
revoke_file_tickets executes t file kind =
    if leb_int file (pos 0) || is_empty kind
    then (t, minus_one)
    else if not executes
    then (t, minus_one)
    else (
      record t { rows = delete_where (is_for file kind) t.rows },
      pos (count_where (is_for file kind) t.rows),
    )

abbrev pub is_expired : ℕ → Ticket → Bool
is_expired now x = ltb x.expires_at now

unfoldable pub prune_expired_file_tickets : Bool → Tickets → ℕ → Tickets × ℤ
prune_expired_file_tickets executes t now = if not executes then (t, minus_one) else (
  record t { rows = delete_where (is_expired now) t.rows },
  pos (count_where (is_expired now) t.rows),
)

-- `ON DELETE CASCADE` of the column `file_id`.
abbrev pub is_of_file : ℤ → Ticket → Bool
is_of_file file x = eq_int x.file_id file

unfoldable pub cascade : Tickets → ℤ → Tickets
cascade t file = record t { rows = delete_where (is_of_file file) t.rows }

pub data TicketCall : Type 0 where
  issue : Bool → ℤ → ℤ → List ℕ → List ℕ → ℤ → ℕ → TicketCall
  mark_used : Bool → ℤ → TicketCall
  renew : Bool → ℤ → ℤ → ℤ → ℕ → TicketCall
  revoke : Bool → ℤ → List ℕ → TicketCall
  prune : Bool → ℕ → TicketCall
  delete_file : ℤ → TicketCall

unfoldable pub step : Tickets → TicketCall → Tickets
step t (issue executes file user kind hash ttl now) =
    (issue_file_ticket executes t file user kind hash ttl now).0
step t (mark_used executes i) = (mark_file_ticket_used executes t i).0
step t (renew executes i ttl lifetime now) = (renew_file_ticket executes t i ttl lifetime now).0
step t (revoke executes file kind) = (revoke_file_tickets executes t file kind).0
step t (prune executes now) = (prune_expired_file_tickets executes t now).0
step t (delete_file file) = cascade t file

unfoldable pub run : Tickets → List TicketCall → Tickets
run t [] = t
run t (c ∷ cs) = run (step t c) cs
