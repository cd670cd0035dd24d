-- ===== src/Engine.antt =====
-- rust/filedrop-core/src/lib.rs: the engine, which bundles the subsystems.
mod Tests
use filedrop.Base.{ℕ, Option, none, some, List, [], ◌∷◌, Text}
use filedrop.Base.Dict.{Dict}
use filedrop.Errors.{Uuid, io, Result, ok, err}
use filedrop.Pairing.{PairingStateMachine, empty_machine}
use filedrop.Storage.StoragePaths.{StoragePaths, history_file, ensure_dirs}
use filedrop.Storage.History.{Json, HistoryStore, Fault, load}
use filedrop.Transfer.Session.{TransferSession}
use filedrop.Transfer.Queue.{TransferQueue, new_queue}

-- The parts that are shared behind an `Arc` are held as values: each is changed through this one
-- engine only. The cells of its sessions stand beside it, in a `Store`.
pub record FileDropEngine : Type 0 where
  pub device_id : Uuid
  pub device_name : Text
  pub paths : StoragePaths
  pub history : HistoryStore
  pub queue : TransferQueue
  pub pairing : PairingStateMachine
  pub sessions : Dict Uuid TransferSession

-- What the file system answers while an engine is set up: the failure of `create_dir_all` by path,
-- the failure of the read, and the content of a file by its path.
pub record Disk : Type 0 where
  pub create_dir_all : Text → Option Text
  pub read_fault : Fault
  pub content : Text → Option (List ℕ)

module _ (json : Json) (disk : Disk) where
  abbrev with_history : Uuid → Text → StoragePaths → HistoryStore → FileDropEngine
  with_history new_id device_name paths history = record {
    device_id = new_id;
    device_name = device_name;
    paths = paths;
    history = history;
    queue = new_queue;
    pairing = empty_machine;
    sessions = [];
  }

  -- `FileDropEngine::init`, with the id that `Uuid::new_v4` gives; beside the result, the directories
  -- that have been created.
  unfoldable pub init : Uuid → Text → Text → Result FileDropEngine × List Text
  unfolding ensure_dirs history_file load
  init new_id device_name app_data_dir =
      let paths : StoragePaths = record { app_data_dir = app_data_dir } in
      let dirs = ensure_dirs disk.create_dir_all paths in
      elim dirs.0 [
        | err e ↦ (err e, dirs.1)
        | ok _ ↦ elim (load json disk.read_fault (disk.content (history_file paths))) [
          | err e ↦ (err e, dirs.1)
          | ok history ↦ (ok (with_history new_id device_name paths history), dirs.1)
        ]
      ]
