-- ===== src/Examples/FileControl.antt =====
-- The requests on files, their interleavings and the reclamation at concrete inputs.
use mathlib.Core.Path.{subst}
use xychat_project.Prelude.{◌≡◌, refl, true, [], ◌∷◌, some, none, arith}
use xychat_project.Prelude.Int.{ℤ, pos}
use xychat_project.Prelude.Json.{Fields, field, end, number}
use xychat_project.Server.RateWindow.{init}
use xychat_project.Server.Storage.{
  finalized, is_valid_blob_key, finalize, finalize_locked, assemble, publish, read_chunk,
  counts_from, received_chunks, is_finalized,
}
use xychat_project.Server.Storage.Upload.{working}
use xychat_project.Protocol.FileProtocol.{
  expected_chunk_bytes, is_chunking_valid, chunk_count_for, is_hex_lower, is_sha256_hex,
}
use xychat_project.Server.Database.Files.{
  FileRecord, find_file, any_reference, mark_file_ready, transition_file_status,
}
use xychat_project.Server.FileHttp.{upload_kind}
use xychat_project.Server.FileControl.{World, FileServer, User, handle, upload_complete}
use xychat_project.Server.FileControl.Sound.{IsSound, IsConsistent, is_backed}
use xychat_project.Server.FileControl.Integrity.{handle-IsConsistent}
use xychat_project.Server.FileControl.Races.{
  Completer, Canceller, Threads, not_running, listed, assembly, Reach, here, next,
}
use xychat_project.Server.FileControl.Races
use xychat_project.Server.FileControl.Races.Order.{ready_file_backed}
use xychat_project.Server.FileControl.Races.Stale.{stale_file_lost}
use xychat_project.Server.Reclaim.{Maintenance, Store, prune_file_uploads}
use xychat_project.Server.Reclaim.Keeps.{prune_file_uploads-IsSound}
use xychat_project.Server.Reclaim.Referenced.{referenced_file_survives}
use xychat_project.Examples.FileData.{
  key, in_progress, finished, table, received_storage, object_storage, hash, tickets_of, toy_sha256,
  carrier,
}

abbrev world : World
world = record {
  long_of_text = λ t. pos 0;
  trimmed = λ t. t;
  to_lower = λ t. t;
  random_key = some key;
  random_ticket = b't' ∷ [];
  ticket_hash = λ t. hash;
  sha256 = toy_sha256;
  answers_file = true;
  answers_own = true;
  answers_shared = true;
  creates = true;
  issues = true;
  marks = true;
  revokes = true;
  io = working;
}

abbrev server : FileServer
server = record {
  files = table in_progress;
  tickets = tickets_of upload_kind;
  storage = received_storage;
  members = [];
  messages = [];
  upload_window = init 30 60;
  ops_window = init 120 60;
}

abbrev user : User
user = record { user_id = pos 7; device_id = b'd' ∷ []; has_storage = true }

abbrev request : Fields
request = field "fileId" (number (pos 1)) end

server-IsConsistent : IsConsistent server
unfolding find_file
server-IsConsistent = record {
  table = refl;
  keyed = refl;
  backed = λ i f h r. absurd (ground (arith, h, r));
}

-- The request that completes the upload.
handle-IsConsistent_example : IsConsistent (handle upload_complete world server user request 1010).0
handle-IsConsistent_example =
    handle-IsConsistent upload_complete world server user request 1010 server-IsConsistent refl

abbrev threads : Threads
threads = record {
  files = table in_progress;
  storage = received_storage;
  completer = Completer.before;
  canceller = Canceller.before;
  reaper = not_running;
}

abbrev assembled_threads : Threads
assembled_threads = record threads {
  storage = (assembly toy_sha256 working received_storage in_progress).0;
  completer = Races.assembled finalized;
}

abbrev completed_threads : Threads
completed_threads = record assembled_threads {
  files = (mark_file_ready true (table in_progress) (pos 1) 1010).0;
  completer = Completer.over;
}

completed : Reach toy_sha256 in_progress 0 threads completed_threads
unfolding finalize finalize_locked assemble publish read_chunk counts_from received_chunks
    is_finalized is_valid_blob_key is_hex_lower is_sha256_hex expected_chunk_bytes is_chunking_valid
    chunk_count_for
completed =
    next (next here (Races.assemble working threads (omega arith) refl))
      (Races.mark_ready true 1010 assembled_threads refl)

ready_file_backed_example : is_backed completed_threads.storage in_progress ≡ true
unfolding find_file mark_file_ready transition_file_status
ready_file_backed_example =
    ready_file_backed toy_sha256 in_progress finished threads completed_threads
      (record {
        there = refl;
        only = refl;
        status = refl;
        completing = refl;
        cancelling = refl;
        no_reaper = refl;
      })
      completed refl refl

abbrev reaped_threads : Threads
reaped_threads = record threads { reaper = listed }

stale_file_lost_example :
    (b : Threads) × Reach toy_sha256 in_progress 0 reaped_threads b
    × (find_file (pos 1) b.files.rows ≡ some finished)
    × ((b.storage key).object ≡ none)
unfolding find_file finalize finalize_locked assemble publish read_chunk counts_from received_chunks
    is_finalized is_valid_blob_key is_hex_lower is_sha256_hex expected_chunk_bytes is_chunking_valid
    chunk_count_for
stale_file_lost_example =
    stale_file_lost toy_sha256 working 1010 in_progress reaped_threads refl refl refl refl refl refl
      refl refl

abbrev maintenance : Maintenance
maintenance = record {
  prunes = true;
  lists_stale = true;
  lists_terminal = true;
  lists_orphaned = true;
  io = λ i. working;
  marks = λ i. true;
  answers = λ i. true;
  answers_again = λ i. true;
  deletes = λ i. true;
  cancels = λ i. true;
}

abbrev stale_store : Store
stale_store = record {
  files = table in_progress;
  tickets = tickets_of upload_kind;
  storage = received_storage;
}

prune_file_uploads-IsSound_example :
    let s' = prune_file_uploads maintenance true [] 1000000 stale_store in
    IsSound s'.files s'.storage
prune_file_uploads-IsSound_example =
    prune_file_uploads-IsSound maintenance true [] 1000000 stale_store server-IsConsistent

abbrev finished_store : Store
finished_store = record {
  files = table finished;
  tickets = tickets_of upload_kind;
  storage = object_storage;
}

only_row : (i : ℤ) (f g : FileRecord) → find_file i (g ∷ []) ≡ some f → g ≡ f
unfolding find_file
only_row i f g h = ground (arith, h)

finished-IsSound : IsSound (table finished) object_storage
finished-IsSound = record {
  table = refl;
  keyed = refl;
  backed = λ i f h r. subst (λ g. is_backed object_storage g ≡ true) (only_row i f finished h) refl;
}

referenced_file_survives_example :
    let s' = prune_file_uploads maintenance true (carrier ∷ []) 1000000 finished_store in
    (find_file (pos 1) s'.files.rows ≡ some finished) × (s'.storage key ≡ object_storage key)
unfolding find_file any_reference
referenced_file_survives_example =
    referenced_file_survives maintenance true (carrier ∷ []) 1000000 finished_store (pos 1) finished
      finished-IsSound refl refl refl
