-- ===== src/Server/FileControl/Creation.antt =====
-- Chat-Server/core/RequestHandler.cpp: the creation of an upload keeps the table and the storage sound.

use xychat_project.Prelude.{
  ℕ, ◌+◌, ◌≡◌, refl, Bool, false, ◌||◌, not, List, [], ◌∷◌, ◌++◌, none, arith, Option-cases,
  Bool-cases, inl, inr,
}
use xychat_project.Prelude.Int.{ℤ, pos, ltb_int}
use xychat_project.Prelude.Json.{Fields, value, to_long_long, to_text, to_int}
use xychat_project.Server.Storage.{Storage, allocate_blob_key}
use xychat_project.Server.Database.Files.{
  Files, NewFile, CreateResult, created, quota_exceeded, not_created, find_file, cancelled, failed,
  mark_file_cancelled, mark_file_failed, create_file_record, new_row, has_blob_key, is_bad_file,
  is_over_quota, is_empty,
}
use xychat_project.Server.Database.Files.Rows.{find-append, is_below-append}
use xychat_project.Server.Database.Files.Keys.{is_keyed-append}
use xychat_project.Server.FileControl.Sound.{IsSound, transition-IsSound, IsConsistent}
use xychat_project.Server.FileHttp.{upload_kind}
use xychat_project.Server.RateWindow.{allow}
use xychat_project.Protocol.FileProtocol.{max_file_size, is_sha256_hex, is_chunking_valid}
use xychat_project.Server.Database.Tickets.{issue_file_ticket}
use xychat_project.Server.FileControl.{
  World, FileServer, User, issue_upload_ticket, create_result, create_upload,
  process_file_upload_create_request, max_concurrent_uploads_per_user, upload_ticket_ttl_seconds,
}

appended-IsSound :
    (t : Files) (s : Storage) (n : NewFile) (now : ℕ)
    → has_blob_key n.blob_key t.rows ≡ false
    → IsSound t s
    → IsSound
        (record { rows = t.rows ++ (new_row t.next_id n now ∷ []); next_id = t.next_id + 1 })
        s
appended-IsSound t s n now u v =
    let x = new_row t.next_id n now in
    record {
      table = is_below-append t.next_id t.rows x refl v.table;
      keyed = is_keyed-append t.rows x v.keyed u;
      backed = λ i f hf r. elim (Option-cases (find_file i t.rows)) [
        | inl ei ↦ absurd (ground (arith, ei, hf, r, find-append i t.rows x))
        | inr (h, ei) ↦ v.backed i f (ground (arith, ei, hf, find-append i t.rows x)) r
      ];
    }

create-IsSound :
    (executes : Bool) (t : Files) (s : Storage) (n : NewFile) (max : ℤ) (now : ℕ)
    → IsSound t s
    → IsSound (create_file_record executes t n max now).0 s
unfolding create_file_record
create-IsSound executes t s n max now v = elim (Bool-cases (is_bad_file n)) [
  | inl e ↦ rw e v
  | inr e ↦ elim (Bool-cases executes) [
    | inr x ↦ rw (e, x) v
    | inl x ↦ elim (Bool-cases (is_over_quota t n max)) [
      | inl q ↦ rw (e, x, q) v
      | inr q ↦ elim (Bool-cases (has_blob_key n.blob_key t.rows)) [
        | inl u ↦ rw (e, x, q, u) v
        | inr u ↦ rw (e, x, q, u) (appended-IsSound t s n now u v)
      ]
    ]
  ]
]

pub cancelled_by_failure :
    (executes : Bool) (t : Files) (s : Storage) (i : ℤ)
    → IsSound t s
    → IsSound (mark_file_cancelled executes t i).0 s
unfolding mark_file_cancelled
cancelled_by_failure executes t s i v =
    transition-IsSound executes t s i cancelled none (λ f h e. absurd (ground (arith, e))) v

pub failed_by_fault :
    (executes : Bool) (t : Files) (s : Storage) (i : ℤ)
    → IsSound t s
    → IsSound (mark_file_failed executes t i).0 s
unfolding mark_file_failed
failed_by_fault executes t s i v =
    transition-IsSound executes t s i failed none (λ f h e. absurd (ground (arith, e))) v

issued-IsConsistent :
    (w : World) (s : FileServer) (me : User) (file : ℤ) (now : ℕ)
    → IsConsistent s
    → IsConsistent (issue_upload_ticket w s me file now).0
unfolding issue_upload_ticket
issued-IsConsistent w s me file now v =
    let t =
      issue_file_ticket w.issues s.tickets file me.user_id upload_kind
        (w.ticket_hash w.random_ticket) (pos upload_ticket_ttl_seconds) now in
    elim (Bool-cases (is_empty w.random_ticket || not t.1)) [
      | inl e ↦ rw e (cancelled_by_failure w.marks s.files s.storage file v)
      | inr e ↦ rw e v
    ]

create_result-IsConsistent :
    (w : World) (s : FileServer) (me : User) (now : ℕ) (r : Files × CreateResult)
    → IsSound (r.0) s.storage
    → IsConsistent (create_result w s me now r).0
create_result-IsConsistent w s me now (t, quota_exceeded) v = v
create_result-IsConsistent w s me now (t, not_created) v = v
create_result-IsConsistent w s me now (t, created file) v =
    issued-IsConsistent w (record s { files = t }) me file now v

create_upload-IsConsistent :
    (w : World) (s : FileServer) (me : User) (size chunk count : ℤ) (sha : List ℕ) (now : ℕ)
    → IsConsistent s
    → IsConsistent (create_upload w s me size chunk count sha now).0
unfolding create_upload
create_upload-IsConsistent w s me size chunk count sha now v =
    let key = allocate_blob_key w.random_key in
    let n : NewFile = record {
      uploader_id = me.user_id;
      uploader_device_id = me.device_id;
      blob_key = key;
      size_bytes = size;
      chunk_size = chunk;
      chunk_count = count;
      sha256_hex = sha;
    } in
    let max = pos max_concurrent_uploads_per_user in
    elim (Bool-cases (is_empty key)) [
      | inl e ↦ rw e v
      | inr e ↦ rw e (
          create_result-IsConsistent w s me now (create_file_record w.creates s.files n max now)
            (create-IsSound w.creates s.files s.storage n max now v))
    ]

pub create_request-IsConsistent :
    (w : World) (s : FileServer) (me : User) (request : Fields) (now : ℕ)
    → IsConsistent s
    → IsConsistent (process_file_upload_create_request w s me request now).0
unfolding process_file_upload_create_request
create_request-IsConsistent w s me request now v =
    let size = to_long_long w.long_of_text (value request "sizeBytes") in
    let chunk = to_long_long w.long_of_text (value request "chunkSize") in
    let count = to_int (value request "chunkCount") (pos 0) in
    let sha = w.to_lower (w.trimmed (to_text (value request "sha256"))) in
    let a = allow s.upload_window now in
    let s₁ = record s { upload_window = a.0 } in
    elim (Bool-cases (ltb_int (pos max_file_size) size)) [
      | inl e ↦ rw e v
      | inr e ↦ elim (Bool-cases (is_sha256_hex sha)) [
        | inr h ↦ rw (e, h) v
        | inl h ↦ elim (Bool-cases (is_chunking_valid size chunk count)) [
          | inr c ↦ rw (e, h, c) v
          | inl c ↦ elim (Bool-cases a.1) [
            | inr l ↦ rw (e, h, c, l) v
            | inl l ↦ elim (Bool-cases me.has_storage) [
              | inr o ↦ rw (e, h, c, l, o) v
              | inl o ↦
                  simp (e, h, c, l, o)
                    (create_upload-IsConsistent w s₁ me size chunk count sha now v)
            ]
          ]
        ]
      ]
    ]
