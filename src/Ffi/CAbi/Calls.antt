-- ===== src/Ffi/CAbi/Calls.antt =====
-- rust/filedrop-ffi/src/c_abi.rs: the exported functions. `block_on` runs the call of the application to its
-- end, so each function is one step of the runtime.
use filedrop.Base.{none, some, ◌++◌, map, Text, text}
use filedrop.Engine.{Disk}
use filedrop.Errors.{Uuid}
use filedrop.Storage.History.{Json}
use filedrop.Transfer.Session.{Floats}
use filedrop.Ffi.CAbi.{
  Serde, CStr, from_c_string, to_c_string, json_err, ok_or_err, body_or_err, list_or_err, init_body,
  event_text,
}
use filedrop.Ffi.Channel.{Broadcast}
use filedrop.Ffi.Control.{
  accept_transfer, reject_transfer, pause_transfer, resume_transfer, cancel_transfer,
}
use filedrop.Ffi.Events.{FileDropEvent}
use filedrop.Ffi.Nearby.{Answers, start_discovery, stop_discovery, get_nearby_devices}
use filedrop.Ffi.PairDevice.{Surroundings, pair_device}
use filedrop.Ffi.Queries.{get_transfer_status, get_transfer_history}
use filedrop.Ffi.Sending.{Chosen, send_files}
use filedrop.Ffi.Startup.{Network, init_engine, start_server, stop_server}
use filedrop.Ffi.Stream.{poll_event}
use filedrop.Ffi.{Reply, done, refused, Runtime}

module _ {F : Floats} {B : Broadcast (FileDropEvent F)} (serde : Serde F) where
  -- An error that is returned before anything is done.
  abbrev pub fail : Runtime F B → Text → Text × Runtime F B
  fail rt msg = (to_c_string (json_err serde msg), rt)

  -- What is returned, and the runtime after the call.
  abbrev answer {ℓ} : {A : Type ℓ} → (Reply A → Text) → Reply A × Runtime F B → Text × Runtime F B
  answer write out = (to_c_string (write out.0), out.1)

  unfoldable pub filedrop_init_engine :
      Json → Disk → Uuid → Runtime F B → CStr → CStr → Text × Runtime F B
  unfolding from_c_string to_c_string json_err init_body init_engine
  filedrop_init_engine json disk new_id rt device_name app_data_dir =
      elim (from_c_string device_name) [
        | none ↦ fail rt (text "invalid device_name")
        | some name ↦ elim (from_c_string app_data_dir) [
          | none ↦ fail rt (text "invalid app_data_dir")
          | some dir ↦
              answer (init_body serde) (init_engine serde.show_uuid json disk new_id rt name dir).0
        ]
      ]

  unfoldable pub filedrop_start_server : Network → Runtime F B → Text × Runtime F B
  unfolding to_c_string body_or_err start_server
  filedrop_start_server net rt =
      answer (body_or_err serde (text "endpoint") serde.of_endpoint)
        (start_server serde.show_uuid net rt)

  unfoldable pub filedrop_stop_server : Runtime F B → Text × Runtime F B
  unfolding to_c_string ok_or_err stop_server
  filedrop_stop_server rt = answer (ok_or_err serde) (stop_server rt)

  unfoldable pub filedrop_start_discovery : Answers → Runtime F B → CStr → Text × Runtime F B
  unfolding from_c_string to_c_string json_err ok_or_err start_discovery
  filedrop_start_discovery answers rt self_device_json = elim (from_c_string self_device_json) [
    | none ↦ fail rt (text "invalid self_device_json")
    | some json ↦ elim (serde.to_device json) [
      | refused e ↦ fail rt (text "bad device json: " ++ e)
      | done dto ↦ answer (ok_or_err serde) (start_discovery answers rt dto)
    ]
  ]

  unfoldable pub filedrop_stop_discovery : Runtime F B → Text × Runtime F B
  unfolding to_c_string ok_or_err stop_discovery
  filedrop_stop_discovery rt = answer (ok_or_err serde) (stop_discovery rt)

  unfoldable pub filedrop_get_nearby_devices : Runtime F B → Text × Runtime F B
  unfolding to_c_string list_or_err get_nearby_devices
  filedrop_get_nearby_devices rt =
      answer (list_or_err serde serde.of_devices) (get_nearby_devices rt, rt)

  unfoldable pub filedrop_pair_device :
      Surroundings → Runtime F B → CStr → CStr → Text × Runtime F B
  unfolding from_c_string to_c_string json_err body_or_err pair_device
  filedrop_pair_device env rt peer_device_id peer_name = elim (from_c_string peer_device_id) [
    | none ↦ fail rt (text "invalid arguments")
    | some id_str ↦ elim (from_c_string peer_name) [
      | none ↦ fail rt (text "invalid arguments")
      | some name ↦ elim (serde.parse_uuid id_str) [
        | none ↦ fail rt (text "invalid peer_device_id")
        | some id ↦
            answer (body_or_err serde (text "payload") serde.of_payload)
              (pair_device env rt id name)
      ]
    ]
  ]

  -- `chosen` is what the file system says of each path, with the id that is drawn for it.
  unfoldable pub filedrop_send_files :
      (parse : Text → Reply Text) (chosen : Text → Chosen) → Runtime F B → CStr → Text × Runtime F B
  unfolding from_c_string to_c_string json_err body_or_err send_files
  filedrop_send_files parse chosen rt request_json = elim (from_c_string request_json) [
    | none ↦ fail rt (text "invalid request_json")
    | some json ↦ elim (serde.to_request json) [
      | refused e ↦ fail rt (text "bad request json: " ++ e)
      | done req ↦ answer (body_or_err serde (text "transfer_ids") serde.of_ids) (
          send_files parse rt req.peer_address req.peer_port req.peer_device_id
            (map chosen req.file_paths))
    ]
  ]

  -- The macro `transfer_id_fn`, for a call `f` of the application.
  unfoldable pub transfer_id_fn :
      (Runtime F B → Uuid → Reply (Unit {0}) × Runtime F B)
      → Runtime F B
      → CStr
      → Text × Runtime F B
  unfolding from_c_string to_c_string json_err ok_or_err
  transfer_id_fn f rt transfer_id = elim (from_c_string transfer_id) [
    | none ↦ fail rt (text "invalid transfer_id")
    | some id_str ↦ elim (serde.parse_uuid id_str) [
      | none ↦ fail rt (text "transfer_id is not a valid UUID")
      | some id ↦ answer (ok_or_err serde) (f rt id)
    ]
  ]

  abbrev pub filedrop_accept_transfer : Runtime F B → CStr → Text × Runtime F B
  filedrop_accept_transfer = transfer_id_fn (accept_transfer serde.show_uuid)

  abbrev pub filedrop_reject_transfer : Runtime F B → CStr → Text × Runtime F B
  filedrop_reject_transfer = transfer_id_fn (reject_transfer serde.show_uuid)

  abbrev pub filedrop_pause_transfer : Runtime F B → CStr → Text × Runtime F B
  filedrop_pause_transfer = transfer_id_fn (pause_transfer serde.show_uuid)

  abbrev pub filedrop_resume_transfer : Runtime F B → CStr → Text × Runtime F B
  filedrop_resume_transfer = transfer_id_fn (resume_transfer serde.show_uuid)

  abbrev pub filedrop_cancel_transfer : Runtime F B → CStr → Text × Runtime F B
  filedrop_cancel_transfer = transfer_id_fn (cancel_transfer serde.show_uuid)

  unfoldable pub filedrop_get_transfer_status : F.F64 → Runtime F B → CStr → Text × Runtime F B
  unfolding from_c_string to_c_string json_err body_or_err get_transfer_status
  filedrop_get_transfer_status elapsed rt transfer_id = elim (from_c_string transfer_id) [
    | none ↦ fail rt (text "invalid transfer_id")
    | some id_str ↦ elim (serde.parse_uuid id_str) [
      | none ↦ fail rt (text "transfer_id is not a valid UUID")
      | some id ↦
          answer (body_or_err serde (text "progress") serde.of_progress)
            (get_transfer_status serde.show_uuid elapsed rt id, rt)
    ]
  ]

  unfoldable pub filedrop_get_transfer_history : Runtime F B → Text × Runtime F B
  unfolding to_c_string list_or_err get_transfer_history
  filedrop_get_transfer_history rt =
      answer (list_or_err serde serde.of_history)
        (get_transfer_history serde.to_string_lossy rt, rt)

  unfoldable pub filedrop_poll_event : Runtime F B → Text × Runtime F B
  unfolding to_c_string event_text poll_event
  filedrop_poll_event rt =
      let out = poll_event F B rt in (to_c_string (event_text serde out.0), out.1)
