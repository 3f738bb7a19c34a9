-- ===== src/Server/FileControl/Races/Stale.antt =====
-- Chat-Server/core/Server.cpp: the reclamation of a stale upload removes the data before it marks the row,
-- so that a complete request that comes between is lost.
use xychat_project.Prelude.{ℕ, ◌≡◌, ap, true, false, List, none, some, arith}
use xychat_project.Prelude.Assoc.{text_beq_iff}
use xychat_project.Prelude.Int.{pos, leb_int, eq_int_iff}
use xychat_project.Server.Storage.{Storage, Io, finalized, remove, is_valid_blob_key}
use xychat_project.Server.Database.Files.{
  Files, FileRecord, find_file, uploading, ready, mark_file_ready,
}
use xychat_project.Server.Database.Files.{transition_row, transition_file_status}
use xychat_project.Server.Database.Files.Rows.{find-map, transition-KeepsId}
use xychat_project.Server.FileControl.Races.{
  Completer, assembled, listed, removed, Threads, assembly, assemble, mark_ready, remove_stale,
  Reach, here, next,
}

marked_ready :
    (t : Files) (f : FileRecord) (now : ℕ)
    → leb_int f.id (pos 0) ≡ false
    → f.status ≡ uploading
    → find_file f.id t.rows ≡ some f
    → find_file f.id (mark_file_ready true t f.id now).0.rows
      ≡ some (record f { status = ready; completed_at = some now })
unfolding mark_file_ready transition_file_status
marked_ready t f now p u h = ground (
  arith,
  p,
  u,
  h,
  eq_int_iff f.id f.id,
  find-map (transition_row f.id ready (some now)) (transition-KeepsId f.id ready (some now)) f.id
      t.rows,
)

removed_object :
    (io : Io) (s : Storage) (key : List ℕ)
    → is_valid_blob_key key ≡ true
    → io.remove_object ≡ true
    → ((remove io s key).0 key).object ≡ none
unfolding remove
removed_object io s key v r = ground (arith, v, r, text_beq_iff key key)

-- Let the upload of a file be in progress, all its chunks be there, and the reclamation have listed
-- it as stale when a complete request comes. Then there is an interleaving after which the file is ready
-- and its object is gone: the request assembles the object, the reclamation removes it, and the
-- request marks the file as ready.
pub stale_file_lost :
    (sha256 : List ℕ → List ℕ) (io : Io) (now : ℕ) (f : FileRecord) (a : Threads)
    → find_file f.id a.files.rows ≡ some f
    → f.status ≡ uploading
    → leb_int f.id (pos 0) ≡ false
    → is_valid_blob_key f.blob_key ≡ true
    → a.completer ≡ Completer.before
    → a.reaper ≡ listed
    → (assembly sha256 io a.storage f).1 ≡ finalized
    → io.remove_object ≡ true
    → (b : Threads) × Reach sha256 f io.lost_at_close a b
      × (find_file f.id b.files.rows ≡ some (record f { status = ready; completed_at = some now }))
      × ((b.storage f.blob_key).object ≡ none)
stale_file_lost sha256 io now f a h u p v c r d o =
    let a₁ = record a {
      storage = (assembly sha256 io a.storage f).0;
      completer = assembled (assembly sha256 io a.storage f).1;
    } in
    let a₂ = record a₁ {
      storage = (remove io a₁.storage f.blob_key).0;
      reaper = removed (remove io a₁.storage f.blob_key).1;
    } in
    let a₃ = record a₂ {
      files = (mark_file_ready true a₂.files f.id now).0;
      completer = Completer.over;
    } in
    (
      a₃,
      next (next (next here (assemble io a (omega arith) c)) (remove_stale io a₁ r))
          (mark_ready true now a₂ (ap assembled d)),
      marked_ready a.files f now p u h,
      removed_object io a₁.storage f.blob_key v o,
    )
