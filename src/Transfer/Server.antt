-- ===== src/Transfer/Server.antt =====
-- rust/filedrop-core/src/transfer/server.rs: receiving a file. What comes from outside is a
-- parameter: the headers and body that the HTTP library delivers, the hash, the failures of the file
-- system, and what other tasks do to the session while the handler waits.
pub mod Body
pub mod Handler
pub mod Prepare
pub mod Received
pub mod Loop
pub mod Finish
pub mod Run
pub mod Effects
pub mod Sessions
pub mod Integrity
pub mod Resume
pub mod Complete
pub mod Short
use Prim.Native.String.{String}
use filedrop.Base.{
  ℕ, zero, suc, ◌+◌, ◌%◌, ◌^◌, ◌≡◌, Bool, true, false, not, Option, none, some, List, [], ◌∷◌, ◌++◌,
  ltb, ◌==◌, nat_eq, list_eq, if◌then◌else◌, Text, text, length, take,
}
use filedrop.Base.Dict.{Dict, lookup, insert, remove, map_option}
use filedrop.Base.Words.{add_u64}
use filedrop.Base.Strings.{split_first, strip_prefix}
use filedrop.Base.Paths.{components}
use filedrop.Errors.{Uuid, Result, ok, err, display}
use filedrop.Security.Filename.{sanitize_filename}
use filedrop.Security.FilePath.{safe_join}
use filedrop.Security.Checksum.{Sha256, ReadPlan, hex_encode, sha256_file}
use filedrop.Storage.StoragePaths.{StoragePaths, received_files_dir, staging_dir}
use filedrop.Transfer.Session.{
  TransferStatus, in_progress, paused, receive, TransferSession, Store, new_session,
  with_initial_bytes, add_bytes, bytes_transferred, pause, resume, is_paused, cancel, is_cancelled,
}
use filedrop.Transfer.Decimal.{show_u64, parse_u64}
use filedrop.Transfer.Files.{FileKey, FileSystem, update_file, write_at}

pub record Response : Type 0 where
  pub status : ℕ
  pub body : Text

-- A call by another task that holds the session.
pub data Control : Type 0 where
  pauses resumes cancels : Control

-- What `stream.next()` yields.
pub data Chunk : Type 0 where
  chunk_ok : List ℕ → Chunk
  chunk_err : Text → Chunk

-- One item of the body's stream, and what happens around it: the calls of other tasks before the
-- handler looks at the session, those during each sleep of the pause loop, and the failure of the
-- write, with the number of bytes that were written before it.
pub record Item : Type 0 where
  pub chunk : Chunk
  pub controls : List Control
  pub sleeps : List (List Control)
  pub write_fault : Option (Text × ℕ)

-- The request: what `headers.get(name)` and `to_str` give, and the body.
pub record Request : Type 0 where
  pub header : Text → Option Text
  pub items : List Item

-- The failures of the calls to the file system outside the stream, with their messages; a removal
-- fails silently.
pub record Faults : Type 0 where
  pub mkdir : Option Text
  pub open_file : Option Text
  pub seek : Option Text
  pub flush : Option Text
  pub rename : Option Text
  pub remove_file : Bool
  pub reads : ReadPlan

-- The shared state that the handler uses: the files, the sessions' cells, and the map of sessions.
pub record AppState : Type 0 where
  pub fs : FileSystem
  pub store : Store
  pub sessions : Dict Uuid TransferSession

-- The handler replies, panics, or is still waiting when the schedule ends.
pub data Outcome : Type 0 where
  replied : Response → Outcome
  panicked : Outcome
  suspended : Outcome

abbrev pub reply : ℕ → Text → Outcome
reply status body = replied (record { status = status; body = body })

-- `GET /api/v1/transfer/{transfer_id}/status`
pub record TransferStatusResponse : Type 0 where
  pub transfer_id : Uuid
  pub bytes_received : ℕ
  pub total_bytes : ℕ
  pub status : TransferStatus

pub data StatusReply : Type 0 where
  found : TransferStatusResponse → StatusReply
  not_found : StatusReply

unfoldable pub transfer_status : AppState → Uuid → StatusReply
unfolding lookup
transfer_status st id = elim (lookup id st.sessions) [
  | none ↦ not_found
  | some s ↦ found (record {
    transfer_id = id;
    bytes_received = bytes_transferred st.store s;
    total_bytes = s.total_bytes;
    status = if is_paused st.store s then paused else in_progress;
  })
]

-- What the handler has made out before it touches a file.
pub record Job : Type 0 where
  pub id : Uuid
  pub safe_name : Text
  pub total_size : ℕ
  pub expected_sha256 : Option Text
  pub staging : FileKey
  pub final : FileKey
  pub offset : ℕ

-- What the handler does next: it goes on, or it returns.
pub data Flow {ℓ} (A : Type ℓ) : Type ℓ where
  proceeds : A → Flow A
  returns : Outcome → AppState → Flow A

unfoldable pub end_session : Uuid → AppState → AppState
unfolding remove
end_session id app = record app { sessions = remove id app.sessions }

-- `let _ = remove_file(..)`: a failure is ignored.
abbrev pub remove_staging : Bool → FileKey → AppState → AppState
remove_staging fails staging app =
    if fails then app else record app { fs = update_file app.fs staging none }
