-- ===== src/Server/FileControl/Races.antt =====
-- Chat-Server/core/RequestHandler.cpp and Server.cpp: the requests that complete and cancel an upload, and
-- the reclamation of a stale one, taken apart into the statements and storage calls that other
-- threads can come between. Each has read the file's record while the upload was in progress.
pub mod Order
pub mod Stale
use xychat_project.Prelude.{
  ℕ, ◌≡◌, ◌≤◌, Bool, true, false, List, [], ◌∷◌, Option, none, some, if◌then◌else◌,
}
use xychat_project.Prelude.Int.{ℤ}
use xychat_project.Server.Storage.{
  Storage, Io, FinalizeStatus, finalized, invalid_arguments, incomplete, chunk_size_mismatch,
  checksum_mismatch, storage_error, finalize, remove,
}
use xychat_project.Server.Database.Files.{
  Files, FileRecord, mark_file_ready, mark_file_cancelled, mark_file_failed,
}

-- How far the thread of a complete request is.
pub data Completer : Type 0 where
  before : Completer
  assembled : FinalizeStatus → Completer
  marked_failed : Completer
  over : Completer

-- How far the thread of a cancel request is, with whether its statement changed the row.
pub data Canceller : Type 0 where
  before : Canceller
  marked : Bool → Canceller
  over : Canceller

-- How far the reclamation is with the file, with whether it removed the data.
pub data Reaper : Type 0 where
  not_running : Reaper
  listed : Reaper
  removed : Bool → Reaper
  over : Reaper

pub record Threads : Type 0 where
  pub files : Files
  pub storage : Storage
  pub completer : Completer
  pub canceller : Canceller
  pub reaper : Reaper

abbrev pub is_data_fault : FinalizeStatus → Bool
is_data_fault finalized = false
is_data_fault incomplete = false
is_data_fault storage_error = false
is_data_fault invalid_arguments = true
is_data_fault chunk_size_mismatch = true
is_data_fault checksum_mismatch = true

-- `finalize` with the values of the record that the handler read.
abbrev pub assembly : (List ℕ → List ℕ) → Io → Storage → FileRecord → Storage × FinalizeStatus
assembly sha256 io s f =
    finalize sha256 io s f.blob_key f.size_bytes f.chunk_size f.chunk_count f.sha256_hex

-- One statement or storage call of one thread, on the file that the record `f` was read from, where
-- closing a temporary file loses at most `lost` bytes.
pub data Step (sha256 : List ℕ → List ℕ) (f : FileRecord) (lost : ℕ)
    : Threads → Threads → Type 0 where
  assemble :
      (io : Io) (a : Threads)
      → io.lost_at_close ≤ lost
      → a.completer ≡ Completer.before
      → Step sha256 f lost a (record a {
        storage = (assembly sha256 io a.storage f).0;
        completer = assembled (assembly sha256 io a.storage f).1;
      })
  mark_ready :
      (executes : Bool) (now : ℕ) (a : Threads)
      → a.completer ≡ assembled finalized
      → Step sha256 f lost a (record a {
        files = (mark_file_ready executes a.files f.id now).0;
        completer = Completer.over;
      })
  mark_failed :
      (executes : Bool) (st : FinalizeStatus) (a : Threads)
      → a.completer ≡ assembled st
      → is_data_fault st ≡ true
      → Step sha256 f lost a (record a {
        files = (mark_file_failed executes a.files f.id).0;
        completer = marked_failed;
      })
  remove_failed :
      (io : Io) (a : Threads)
      → a.completer ≡ marked_failed
      → Step sha256 f lost a
          (record a { storage = (remove io a.storage f.blob_key).0; completer = Completer.over })
  mark_cancelled :
      (executes : Bool) (a : Threads)
      → a.canceller ≡ Canceller.before
      → Step sha256 f lost a (record a {
        files = (mark_file_cancelled executes a.files f.id).0;
        canceller = marked (mark_file_cancelled executes a.files f.id).1;
      })
  remove_cancelled :
      (io : Io) (a : Threads)
      → a.canceller ≡ marked true
      → Step sha256 f lost a
          (record a { storage = (remove io a.storage f.blob_key).0; canceller = Canceller.over })
  remove_stale :
      (io : Io) (a : Threads)
      → a.reaper ≡ listed
      → Step sha256 f lost a (record a {
        storage = (remove io a.storage f.blob_key).0;
        reaper = removed (remove io a.storage f.blob_key).1;
      })
  cancel_stale :
      (executes : Bool) (a : Threads)
      → a.reaper ≡ removed true
      → Step sha256 f lost a
          (record a { files = (mark_file_cancelled executes a.files f.id).0; reaper = Reaper.over })

-- Any interleaving of the threads.
pub data Reach (sha256 : List ℕ → List ℕ) (f : FileRecord) (lost : ℕ) (a : Threads)
    : Threads → Type 0 where
  here : Reach sha256 f lost a a
  next :
      {b c : Threads} → Reach sha256 f lost a b → Step sha256 f lost b c → Reach sha256 f lost a c
