-- ===== src/Transfer/Routes.antt =====
-- rust/filedrop-core/src/transfer/server.rs: `build_router`, which engines serve by `router` of lib.rs, and
-- the requests that reach its handlers. The crate axum is an argument.
pub mod Axum
pub mod Served
pub mod Sent
use filedrop.Base.{ℕ, Option, none, some, List, [], ◌∷◌, Text, text}
use filedrop.Errors.{Uuid}
use filedrop.Security.Checksum.{Sha256}
use filedrop.Storage.StoragePaths.{StoragePaths}
use filedrop.Transfer.Server.{
  Request, Faults, AppState, Outcome, reply, TransferStatusResponse, StatusReply, found, not_found,
  transfer_status,
}
use filedrop.Transfer.Server.Handler.{receive_transfer}

pub data Method : Type 0 where
  get post : Method

-- The handlers, by name.
pub data Endpoint : Type 0 where
  to_health to_receive_transfer to_transfer_status : Endpoint

pub record Route : Type 0 where
  pub template : Text
  pub method : Method
  pub endpoint : Endpoint

-- What the library makes of a method and a path: a handler, with the values of the parameters of its
-- template, or the status of a refusal.
pub data Routed : Type 0 where
  dispatched : Endpoint → List Text → Routed
  unrouted : ℕ → Routed

-- The library: its router, the bodies of its refusals, how `Path<Uuid>` reads a parameter, and how `Json`
-- writes a status.
pub record Library : Type 0 where
  pub route : List Route → Method → Text → Routed
  pub refusal : ℕ → Text
  pub parse_uuid : Text → Option Uuid
  pub status_json : TransferStatusResponse → Text

abbrev pub build_router : List Route
build_router =
    record { template = text "/health"; method = get; endpoint = to_health }
    ∷ record {
      template = text "/api/v1/transfer/{transfer_id}";
      method = post;
      endpoint = to_receive_transfer;
    }
    ∷ record {
      template = text "/api/v1/transfer/{transfer_id}/status";
      method = get;
      endpoint = to_transfer_status;
    }
    ∷ []

abbrev pub health : Text
health = text "ok"

-- The replies of `transfer_status`.
unfoldable pub status_outcome : Library → StatusReply → Outcome
status_outcome lib (found response) = reply 200 (lib.status_json response)
status_outcome lib not_found = reply 404 (text "unknown transfer")

-- `Path<Uuid>`, on a template with one parameter.
abbrev pub path_id : Library → List Text → Option Uuid
path_id lib [] = none
path_id lib (value ∷ []) = lib.parse_uuid value
path_id lib (value ∷ other ∷ more) = none

module _ (H : Sha256) (show_uuid : Uuid → Text) (paths : StoragePaths) (faults : Faults)
    (lib : Library) where
  unfoldable pub run_endpoint : Endpoint → Option Uuid → Request → AppState → Outcome × AppState
  unfolding status_outcome transfer_status receive_transfer
  run_endpoint to_health id request st = (reply 200 health, st)
  run_endpoint to_receive_transfer none request st = (reply 400 (lib.refusal 400), st)
  run_endpoint to_receive_transfer (some id) request st =
      receive_transfer H show_uuid paths faults id request st
  run_endpoint to_transfer_status none request st = (reply 400 (lib.refusal 400), st)
  run_endpoint to_transfer_status (some id) request st =
      (status_outcome lib (transfer_status st id), st)

  -- A request to the server.
  unfoldable pub serve_request : Method → Text → Request → AppState → Outcome × AppState
  unfolding run_endpoint
  serve_request method path request st = elim (lib.route build_router method path) [
    | unrouted status ↦ (reply status (lib.refusal status), st)
    | dispatched endpoint params ↦ run_endpoint endpoint (path_id lib params) request st
  ]
