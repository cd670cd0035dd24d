-- ===== src/Ffi/Startup.antt =====
-- rust/filedrop-ffi/src/api/mod.rs: `init_engine`, `start_server` and `stop_server`. What the operating
-- system answers is an argument.
pub mod Serving
pub mod Calls
mod Tests
use filedrop.Base.{
  ℕ, zero, suc, Bool, true, false, Option, none, some, List, [], ◌∷◌, ◌++◌, ◌==◌, nat_eq,
  if◌then◌else◌, Text, text, length,
}
use filedrop.Errors.{Uuid, FileDropError, Result, ok, err, display}
use filedrop.Engine.{FileDropEngine, Disk, init}
use filedrop.Networking.LanAddress.{UdpRoute, local_ipv4_addresses}
use filedrop.Networking.PortScan.{pick_server_port}
use filedrop.Storage.History.{Json}
use filedrop.Transfer.Session.{Floats}
use filedrop.Ffi.Events.{FileDropEvent}
use filedrop.Ffi.Channel.{Broadcast}
use filedrop.Ffi.Dto.{ResolvedEndpointDto}
use filedrop.Ffi.{
  Reply, done, refused, not_initialized, Runtime, Server, Shutdown, held, sent, dropped,
}

-- A number of the list is replaced.
unfoldable pub set_shutdown : ℕ → Shutdown → List Server → List Server
set_shutdown n s [] = []
set_shutdown zero s (server ∷ servers) = record server { shutdown = s } ∷ servers
set_shutdown (suc n) s (server ∷ servers) = server ∷ set_shutdown n s servers

-- The sender that is taken or overwritten.
abbrev pub end_sender : Option ℕ → Shutdown → List Server → List Server
end_sender none s servers = servers
end_sender (some n) s servers = set_shutdown n s servers

-- What the system answers to `start_server`: which ports are free for `pick_server_port`, the failures
-- of `bind` and `local_addr`, and the route that `local_ipv4_addresses` asks for.
pub record Network : Type 0 where
  pub is_free : ℕ → Bool
  pub bind : Option Text
  pub local_addr : Option Text
  pub route : UdpRoute

-- `.unwrap_or_default()`, then `.first()` with its default.
abbrev pub first_or : Text → Result (List Text) → Text
first_or default (err e) = default
first_or default (ok []) = default
first_or default (ok (address ∷ more)) = address

module _ {F : Floats} {B : Broadcast (FileDropEvent F)} where
  -- `OnceCell::set`
  unfoldable pub set_engine :
      Runtime F B → Option FileDropEngine → FileDropEngine → Reply Uuid × Runtime F B
  set_engine rt (some old) engine = (refused (text "engine already initialized"), rt)
  set_engine rt none engine = (done engine.device_id, record rt { engine = some engine })

  -- The new sender overwrites the old one, which is dropped; the server's task is spawned.
  unfoldable pub serve : Runtime F B → ℕ → Runtime F B
  unfolding set_shutdown
  serve rt port = record rt {
    server_shutdown = some (length rt.servers);
    servers =
        end_sender rt.server_shutdown dropped rt.servers
        ++ (record { port = port; shutdown = held } ∷ []);
  }

  -- `take()`, and a message on the sender, if there is one.
  unfoldable pub stop_server : Runtime F B → Reply (Unit {0}) × Runtime F B
  unfolding set_shutdown
  stop_server rt = (
    done tt,
    record rt { server_shutdown = none; servers = end_sender rt.server_shutdown sent rt.servers },
  )

module _ {F : Floats} {B : Broadcast (FileDropEvent F)} (show_uuid : Uuid → Text) where
  -- `init_engine`, with the id that is drawn; beside the reply, the directories that it has created.
  unfoldable pub init_engine :
      Json → Disk → Uuid → Runtime F B → Text → Text → (Reply Uuid × Runtime F B) × List Text
  unfolding set_engine init
  init_engine json disk new_id rt device_name app_data_dir =
      let made = init json disk new_id device_name app_data_dir in
      elim made.0 [
        | err e ↦ ((refused (display show_uuid e), rt), made.1)
        | ok engine ↦ (set_engine rt rt.engine engine, made.1)
      ]

  unfoldable pub start_server : Network → Runtime F B → Reply ResolvedEndpointDto × Runtime F B
  unfolding serve pick_server_port local_ipv4_addresses
  start_server net rt = elim rt.engine [
    | none ↦ (refused not_initialized, rt)
    | some eng ↦ elim (pick_server_port net.is_free) [
      | err e ↦ (refused (display show_uuid e), rt)
      | ok port ↦ elim net.bind [
        | some e ↦ (refused e, rt)
        | none ↦ elim net.local_addr [
          | some e ↦ (refused e, rt)
          | none ↦ (
            done (record {
              address = first_or (text "0.0.0.0") (local_ipv4_addresses net.route);
              port = port;
            }),
            serve rt port,
          )
        ]
      ]
    ]
  ]
