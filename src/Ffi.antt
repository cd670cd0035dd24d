-- ===== src/Ffi.antt =====
-- rust/filedrop-ffi/src/: the runtime of the process, and what the calls of the application share.
-- `show_uuid` is the `Display` of `Uuid`.
pub mod Events
pub mod Channel
pub mod SampleChannel
pub mod Samples
pub mod Dto
pub mod Nearby
pub mod PairDevice
pub mod Sending
pub mod Queries
pub mod CAbi
pub mod Startup
pub mod Stream
pub mod Control
use filedrop.Base.{ℕ, Option, none, some, List, [], Text, text}
use filedrop.Discovery.Service.{DiscoveryService}
use filedrop.Discovery.Udp.{Port, free}
use filedrop.Engine.{FileDropEngine}
use filedrop.Errors.{Uuid}
use filedrop.Transfer.Session.{Floats, Store}
use filedrop.Ffi.Events.{FileDropEvent}
use filedrop.Ffi.Channel.{Broadcast}

-- `Result<T, String>`
pub data Reply {ℓ} (A : Type ℓ) : Type ℓ where
  done : A → Reply A
  refused : Text → Reply A

abbrev pub not_initialized : Text
not_initialized = text "engine not initialized; call init_engine first"

-- `EVENT_CHANNEL_CAPACITY`
abbrev pub event_channel_capacity : ℕ
event_channel_capacity = 1024

-- What `let _ = shutdown_rx.await` of a server's task waits for: the sender is there, has sent, or has
-- been dropped.
pub data Shutdown : Type 0 where
  held sent dropped : Shutdown

-- A task that serves on a port.
pub record Server : Type 0 where
  pub port : ℕ
  pub shutdown : Shutdown

-- The arguments of a spawned `run_queued_send`; the address is its text.
pub record SendTask : Type 0 where
  pub addr : Text
  pub transfer_id : Uuid
  pub path : Text
  pub file_name : Text
  pub total_bytes : ℕ

module _ (F : Floats) (B : Broadcast (FileDropEvent F)) where
  -- `FfiRuntime`, where `server_shutdown` holds the number of the server whose sender it is; and
  -- beside it what its tasks and handles reach: the cells of sessions, the servers, by number,
  -- the broadcast port, and the tasks of `send_files` that have been spawned.
  pub record Runtime : Type 0 where
    pub engine : Option FileDropEngine
    pub events_tx : B.Sender
    pub poll_rx : B.Receiver
    pub server_shutdown : Option ℕ
    pub discovery : Option DiscoveryService
    pub store : Store
    pub servers : List Server
    pub udp_port : Port
    pub tasks : List SendTask

  -- `FfiRuntime::new`
  unfoldable pub new_runtime : Store → Runtime
  new_runtime store = record {
    engine = none;
    events_tx = (B.channel event_channel_capacity).0;
    poll_rx = (B.channel event_channel_capacity).1;
    server_shutdown = none;
    discovery = none;
    store = store;
    servers = [];
    udp_port = free;
    tasks = [];
  }

  -- The error of `send`, for want of a receiver, is dropped.
  abbrev pub emit : Runtime → FileDropEvent F → Runtime
  emit rt event = record rt { events_tx = B.send rt.events_tx event }
