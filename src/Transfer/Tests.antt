-- ===== src/Transfer/Tests.antt =====
-- Runs of the transfer server at concrete inputs.
mod Sending
mod Routing
use filedrop.Base.{
  ℕ, zero, suc, ◌+◌, ◌%◌, ◌^◌, ◌≤◌, ◌<◌, ◌≡◌, ◌≢◌, ◌⊎◌, inl, inr, refl, Bool, true, false, Option,
  none, some, List, [], ◌∷◌, ◌++◌, arith, Text, text, length, concat, All, ◌==◌, nat_eq, list_eq,
  if◌then◌else◌,
}
use filedrop.Base.Dict.{lookup}
use filedrop.Base.Paths.{root_dir, normal, components}
use filedrop.Errors.{Uuid}
use filedrop.Security.FilePath.Named.{IsName, IsSafeName-IsName}
use filedrop.Security.Filename.{sanitize_filename}
use filedrop.Security.Filename.Safe.{sanitize_filename-IsSafeName}
use filedrop.Security.SampleHash.{echo, echo-IsStreaming}
use filedrop.Storage.StoragePaths.{StoragePaths}
use filedrop.Transfer.Session.{Cell}
use filedrop.Transfer.Decimal.{show_u64, parse_u64}
use filedrop.Transfer.Files.{FileKey}
use filedrop.Transfer.Server.{
  Item, chunk_ok, Request, Faults, AppState, Outcome, reply, Job, not_found, transfer_status,
}
use filedrop.Transfer.Server.Handler.{parse_resume_offset, receive_transfer}
use filedrop.Transfer.Server.Prepare.{IsPrepared, below}
use filedrop.Transfer.Server.Effects.{complete, receive_transfer-confined}
use filedrop.Transfer.Server.Sessions.{
  receive_transfer-other_sessions, receive_transfer-own_session, transfer_status-partial,
}
use filedrop.Transfer.Server.Integrity.{IsStored, receive_transfer-IsStored}
use filedrop.Transfer.Server.Resume.{receive_transfer-resumed}
use filedrop.Transfer.Server.Complete.{IsCalm, IsHealthy, IsUpload, receive_transfer-complete}
use filedrop.Base.{append-nil, take}
use filedrop.Errors.{ok}
use filedrop.Security.Checksum.{digest, hex_encode}
use filedrop.Transfer.Session.{TransferSession, send}
use filedrop.Transfer.Client.{
  Source, default_options, outgoing, source_name, content_range, send_file,
}
use filedrop.Transfer.Client.Delivery.{
  request_of, answer_of, IsReadable, send_file-delivers, parse_resume_offset-content_range,
}
use filedrop.Transfer.Session.{queued}
use filedrop.Transfer.Queue.{QueuedTransfer, find_session, pending_count}
use filedrop.Transfer.Queue.Tasks.{
  World, begin_with, spawn, spawns, Reachable, at_first, then_step, IsBalanced,
  Reachable-IsBalanced,
}
use filedrop.Transfer.Queue.Leak.{Reachable-leak}

abbrev pub paths : StoragePaths
paths = record { app_data_dir = text "/data" }

-- The transfer 0 is shown as `id`.
abbrev pub show_id : Uuid → Text
show_id id = text "id"

abbrev pub no_faults : Faults
no_faults = record {
  mkdir = none;
  open_file = none;
  seek = none;
  flush = none;
  rename = none;
  remove_file = false;
  reads = λ j. some 0;
}

abbrev item : List ℕ → Item
item bytes = record { chunk = chunk_ok bytes; controls = []; sleeps = []; write_fault = none }

abbrev header : Text → Option Text → Text → Option Text
header size range name =
    if name == text "X-FileDrop-Filename"
    then some (text "../a.txt")
    else if name == text "X-FileDrop-Total-Size"
    then some size
    else if name == text "Content-Range"
    then range
    else none

-- Four bytes in two chunks.
abbrev pub upload : Request
upload = record {
  header = header (text "4") none;
  items = item (1 ∷ 2 ∷ []) ∷ item (3 ∷ 4 ∷ []) ∷ [];
}

-- The same, cut off after the first chunk, and the rest of it.
abbrev first_half : Request
first_half = record { header = header (text "4") none; items = item (1 ∷ 2 ∷ []) ∷ [] }

abbrev second_half : Request
second_half = record {
  header = header (text "4") (some (text "bytes 2-3/4"));
  items = item (3 ∷ 4 ∷ []) ∷ [];
}

abbrev no_session : Cell
no_session = record { bytes_transferred = 0; is_paused = false; is_cancelled = false }

-- Nothing stored, nothing in progress.
abbrev pub idle : AppState
idle = record {
  fs = λ k. none;
  store = record { next = 0; cells = λ i. no_session };
  sessions = [];
}

abbrev pub receive : Request → AppState → Outcome × AppState
receive request st = receive_transfer echo show_id paths no_faults 0 request st

upload-completes : (receive upload idle).0 ≡ complete
unfolding receive_transfer filedrop.Base.ℕ_discrete list_eq
    filedrop.Storage.StoragePaths.staging_dir filedrop.Storage.StoragePaths.received_files_dir
upload-completes = refl

first_half-partial :
    (receive first_half idle).0 ≡ reply 206 (text "received 2 of 4 bytes; resumable")
unfolding receive_transfer filedrop.Base.ℕ_discrete list_eq
    filedrop.Storage.StoragePaths.staging_dir filedrop.Storage.StoragePaths.received_files_dir
    show_u64
first_half-partial = refl

second_half-completes : (receive second_half (receive first_half idle).1).0 ≡ complete
unfolding receive_transfer filedrop.Base.ℕ_discrete list_eq
    filedrop.Storage.StoragePaths.staging_dir filedrop.Storage.StoragePaths.received_files_dir
second_half-completes = refl

second_half-offset : parse_resume_offset second_half.header ≡ some 2
unfolding parse_resume_offset filedrop.Base.ℕ_discrete list_eq
second_half-offset = refl

part-sanitized : sanitize_filename (text "id.part") ≡ some (text "id.part")
unfolding sanitize_filename filedrop.Base.ℕ_discrete
part-sanitized = refl

pub part-IsName : IsName (text "id.part")
part-IsName =
    IsSafeName-IsName (text "id.part")
      (sanitize_filename-IsSafeName (text "id.part") (text "id.part") part-sanitized)

pub no_faults-IsHealthy : IsHealthy no_faults
no_faults-IsHealthy = record { made = refl; opens = refl; flushes = refl; renames = refl }

item-IsCalm : (bytes : List ℕ) → IsCalm (item bytes)
item-IsCalm bytes = record { delivers = (bytes, refl); quiet = refl; awake = refl; writes = refl }

upload-IsUpload : IsUpload echo upload
unfolding sanitize_filename parse_u64 parse_resume_offset filedrop.Base.ℕ_discrete list_eq
upload-IsUpload = record {
  raw_name = text "../a.txt";
  safe_name = text "a.txt";
  raw_size = text "4";
  name_header = refl;
  sanitized = refl;
  size_header = refl;
  parsed = refl;
  small = omega arith;
  whole = refl;
  calm = (item-IsCalm (1 ∷ 2 ∷ []), (item-IsCalm (3 ∷ 4 ∷ []), tt));
  digest_header = inl refl;
}

receive_transfer-complete_example : (receive upload idle).0 ≡ complete
receive_transfer-complete_example =
    receive_transfer-complete echo echo-IsStreaming show_id paths no_faults 0 upload idle
      upload-IsUpload part-IsName no_faults-IsHealthy

receive_transfer-IsStored_example :
    (job : Job) × IsPrepared show_id paths 0 upload job
    × IsStored echo show_id paths no_faults 0 upload idle job (receive upload idle).1
receive_transfer-IsStored_example =
    receive_transfer-IsStored echo show_id paths no_faults 0 upload idle echo-IsStreaming
      upload-completes

-- A file that is in neither directory.
abbrev history : FileKey
history = normal (text "history.json") ∷ []

root-apart : (w : Text) (xs ys : FileKey) → (normal w ∷ xs) ≢ (root_dir ∷ ys)
root-apart w xs ys h = cc

history-apart : (name : Text) (rel : FileKey) → history ≢ below paths name ++ rel
unfolding components filedrop.Base.ℕ_discrete list_eq
history-apart name rel h = root-apart (text "history.json") _ _ h

receive_transfer-confined_example : (receive upload idle).1.fs history ≡ none
receive_transfer-confined_example =
    receive_transfer-confined echo show_id paths no_faults 0 upload idle history
      (history-apart (text "staging")) (inl (history-apart (text "received")))

receive_transfer-own_session_example : lookup 0 (receive upload idle).1.sessions ≡ none
receive_transfer-own_session_example =
    receive_transfer-own_session echo show_id paths no_faults 0 upload idle 200
      (text "transfer complete") upload-completes (λ h. absurd (omega arith))
      (λ h. absurd (omega arith))

transfer_status-partial_example : transfer_status (receive first_half idle).1 0 ≡ not_found
transfer_status-partial_example =
    transfer_status-partial echo show_id paths no_faults 0 first_half idle _ first_half-partial

first_half-fresh : parse_resume_offset first_half.header ≡ none
unfolding parse_resume_offset filedrop.Base.ℕ_discrete list_eq
first_half-fresh = refl

receive_transfer-resumed_example :
    (job : Job) × IsPrepared show_id paths 0 second_half job
    × ((receive second_half (receive first_half idle).1).1.fs job.final ≡ some (1 ∷ 2 ∷ 3 ∷ 4 ∷ []))
receive_transfer-resumed_example =
    receive_transfer-resumed echo show_id paths 0 first_half second_half no_faults no_faults idle _
      echo-IsStreaming first_half-fresh first_half-partial second_half-offset second_half-completes
