-- ===== src/Examples/Files.antt =====
-- The tables of files and file tickets at concrete calls.
use xychat_project.Prelude.{
  ℕ, ◌≤◌, ◌≡◌, ◌≢◌, refl, take, true, false, List, [], ◌∷◌, none, some, arith,
}
use xychat_project.Prelude.Int.{pos}
use xychat_project.Server.Database.Files.{
  Files, FileRecord, NewFile, uploading, ready, cancelled, uploading_count, find_file, create,
  FileCall, mark_ready, cancel_unreferenced, mark_cancelled,
}
use xychat_project.Server.Database.Files
use xychat_project.Server.Database.Files.Quota.{quota_kept}
use xychat_project.Server.Database.Files.Lifecycle.{Follows, run-Follows}
use xychat_project.Server.Database.Tickets
use xychat_project.Server.Database.Tickets.{
  Tickets, Ticket, TicketCall, issue, renew, revoke, validate_file_ticket,
}
use xychat_project.Server.Database.Tickets.Lifetime.{
  is_bounded, lifetime_bounded, refused_ticket_stays_refused,
}
use xychat_project.Server.Database.Tickets.Origin.{any_issue, accepted_ticket_issued}
use xychat_project.Server.FileHttp.{download_kind}
use xychat_project.Examples.FileData.{
  in_progress, table, hash, ticket_of, tickets_of, toy_sha256, file_bytes,
}

abbrev upload_of : List ℕ → NewFile
upload_of k = record {
  uploader_id = pos 7;
  uploader_device_id = b'd' ∷ [];
  blob_key = k;
  size_bytes = pos 3;
  chunk_size = pos 65536;
  chunk_count = pos 1;
  sha256_hex = toy_sha256 file_bytes;
}

abbrev creations : List FileCall
creations =
    create true (upload_of (1 ∷ [])) (pos 2) 1001
    ∷ create true (upload_of (2 ∷ [])) (pos 2) 1002
    ∷ mark_ready true (pos 1) 1003
    ∷ create true (upload_of (3 ∷ [])) (pos 2) 1004
    ∷ []

-- A limit of two uploads, with one in progress at first.
quota_kept_example : uploading_count (pos 7) (Files.run (table in_progress) creations).rows ≤ 2
unfolding uploading_count
quota_kept_example =
    quota_kept 2 (pos 7) (table in_progress) creations (refl, (refl, (refl, (refl, tt))))
      (omega arith)

abbrev life : List FileCall
life = mark_ready true (pos 1) 1010 ∷ cancel_unreferenced true [] (pos 1) ∷ []

run-Follows_example :
    Follows in_progress (record in_progress { status = cancelled; completed_at = some 1010 })
    × ((n : ℕ) → find_file (pos 1) (Files.run (table in_progress) (take n life)).rows ≢ none)
unfolding find_file Files.run Files.step Files.mark_file_ready Files.transition_file_status
    Files.cancel_unreferenced_ready_file Files.any_reference
run-Follows_example =
    run-Follows (pos 1) in_progress
      (record in_progress { status = cancelled; completed_at = some 1010 }) (table in_progress) life
      refl refl refl

abbrev renewals : List TicketCall
renewals =
    renew true (pos 1) (pos 300) (pos 1200) 1900 ∷ renew true (pos 1) (pos 300) (pos 1200) 2100 ∷ []

lifetime_bounded_example :
    is_bounded 1200 (Tickets.run (tickets_of download_kind) renewals).rows ≡ true
lifetime_bounded_example =
    lifetime_bounded 1200 (tickets_of download_kind) renewals (refl, (refl, tt)) refl

-- Expired at 2001; a renewal at 2100 does not help at 2200.
refused_ticket_stays_refused_example :
    validate_file_ticket true
      (Tickets.run (tickets_of download_kind) (renew true (pos 1) (pos 300) (pos 9000) 2100 ∷ []))
      hash
      download_kind
      2200
    ≡ none
unfolding validate_file_ticket Tickets.find_ticket
refused_ticket_stays_refused_example =
    refused_ticket_stays_refused hash download_kind 2001 2200 true (tickets_of download_kind)
      (renew true (pos 1) (pos 300) (pos 9000) 2100 ∷ []) refl (refl, tt) (omega arith)

abbrev issues : List TicketCall
issues =
    issue true (pos 1) (pos 7) download_kind hash (pos 300) 1000
    ∷ renew true (pos 1) (pos 300) (pos 9000) 1200
    ∷ []

abbrev accepted : Ticket
accepted = record (ticket_of download_kind) { expires_at = 1500 }

accepted_ticket_issued_example :
    (accepted.ticket_hash ≡ hash)
    × (accepted.kind ≡ download_kind)
    × (accepted.used ≡ false)
    × (1400 ≤ accepted.expires_at)
    × (any_issue accepted issues ≡ true)
unfolding validate_file_ticket Tickets.find_ticket Tickets.run Tickets.step
    Tickets.issue_file_ticket Tickets.renew_file_ticket
accepted_ticket_issued_example =
    accepted_ticket_issued issues true hash download_kind 1400 accepted refl
