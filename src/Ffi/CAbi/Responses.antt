-- ===== src/Ffi/CAbi/Responses.antt =====
-- Every exported function answers with an envelope, whatever it is given.
use filedrop.Base.{
  ℕ, nat_eq, ◌≡◌, ◌⊎◌, refl, inl, inr, Bool, true, false, Option, none, some, List, [], ◌∷◌, ◌++◌,
  map, Text, text, Option-cases,
}
use filedrop.Engine.{Disk}
use filedrop.Errors.{Uuid}
use filedrop.Storage.History.{Json}
use filedrop.Transfer.Session.{Floats}
use filedrop.Ffi.CAbi.{Serde, CStr, from_c_string, to_c_string, ok_or_err, body_or_err, init_body}
use filedrop.Ffi.CAbi.Calls.{
  filedrop_init_engine, filedrop_start_server, filedrop_stop_server, filedrop_start_discovery,
  filedrop_stop_discovery, filedrop_pair_device, filedrop_send_files, filedrop_get_transfer_status,
}
use filedrop.Ffi.CAbi.Envelope.{
  has_nul, IsJson, IsEnvelope, has_envelope, returned, ok_or_err-IsResponse, body_or_err-IsResponse,
  init_body-IsResponse, fail-IsEnvelope, transfer_id_fn-IsEnvelope,
}
use filedrop.Ffi.CAbi.Machine
use filedrop.Ffi.CAbi.Machine.{CCall, c_call}
use filedrop.Ffi.Channel.{Broadcast}
use filedrop.Ffi.Control.{
  accept_transfer, reject_transfer, pause_transfer, resume_transfer, cancel_transfer,
}
use filedrop.Ffi.Events.{FileDropEvent}
use filedrop.Ffi.Nearby.{Answers, start_discovery, stop_discovery}
use filedrop.Ffi.PairDevice.{Surroundings, pair_device}
use filedrop.Ffi.Queries.{get_transfer_status}
use filedrop.Ffi.Sending.{Chosen, send_files}
use filedrop.Ffi.Startup.{Network, init_engine, start_server, stop_server}
use filedrop.Ffi.{Reply, done, refused, Runtime}

pub Reply-cases {ℓ} :
    {A : Type ℓ} (r : Reply A)
    → ((message : Text) × (r ≡ refused message)) ⊎ ((a : A) × (r ≡ done a))
Reply-cases (refused message) = inl (message, refl)
Reply-cases (done a) = inr (a, refl)

payload_clean : has_nul (text "payload") ≡ false
unfolding filedrop.Base.ℕ_discrete
payload_clean = refl

ids_clean : has_nul (text "transfer_ids") ≡ false
unfolding filedrop.Base.ℕ_discrete
ids_clean = refl

progress_clean : has_nul (text "progress") ≡ false
unfolding filedrop.Base.ℕ_discrete
progress_clean = refl

endpoint_clean : has_nul (text "endpoint") ≡ false
unfolding filedrop.Base.ℕ_discrete
endpoint_clean = refl

module _ {F : Floats} {B : Broadcast (FileDropEvent F)} (serde : Serde F) (J : IsJson serde)
    (rt : Runtime F B) where
  reply-IsEnvelope : (r : Reply (Unit {0})) → IsEnvelope (to_c_string (ok_or_err serde r))
  reply-IsEnvelope r = returned (ok_or_err serde r) (ok_or_err-IsResponse serde J r)

  init_engine-IsEnvelope :
      (json : Json) (disk : Disk) (id : Uuid) (name dir : CStr)
      → IsEnvelope (filedrop_init_engine serde json disk id rt name dir).0
  unfolding filedrop_init_engine
  init_engine-IsEnvelope json disk id name dir = elim (Option-cases (from_c_string name)) [
    | inl e ↦ rw (e, filedrop_init_engine) (fail-IsEnvelope serde J rt (text "invalid device_name"))
    | inr (n, e) ↦ elim (Option-cases (from_c_string dir)) [
      | inl k ↦
          rw (e, k, filedrop_init_engine) (fail-IsEnvelope serde J rt (text "invalid app_data_dir"))
      | inr (d, k) ↦
          let r = (init_engine serde.show_uuid json disk id rt n d).0.0 in
          rw (e, k, filedrop_init_engine)
            (returned (init_body serde r) (init_body-IsResponse serde J r))
    ]
  ]

  start_discovery-IsEnvelope :
      (answers : Answers) (json : CStr)
      → IsEnvelope (filedrop_start_discovery serde answers rt json).0
  unfolding filedrop_start_discovery
  start_discovery-IsEnvelope answers json = elim (Option-cases (from_c_string json)) [
    | inl e ↦
        rw (e, filedrop_start_discovery)
          (fail-IsEnvelope serde J rt (text "invalid self_device_json"))
    | inr (s, e) ↦ elim (Reply-cases (serde.to_device s)) [
      | inl (m, k) ↦
          rw (e, k, filedrop_start_discovery)
            (fail-IsEnvelope serde J rt (text "bad device json: " ++ m))
      | inr (dto, k) ↦
          rw (e, k, filedrop_start_discovery) (reply-IsEnvelope (start_discovery answers rt dto).0)
    ]
  ]

  pair_device-IsEnvelope :
      (env : Surroundings) (id name : CStr)
      → IsEnvelope (filedrop_pair_device serde env rt id name).0
  unfolding filedrop_pair_device
  pair_device-IsEnvelope env id name = elim (Option-cases (from_c_string id)) [
    | inl e ↦ rw (e, filedrop_pair_device) (fail-IsEnvelope serde J rt (text "invalid arguments"))
    | inr (s, e) ↦ elim (Option-cases (from_c_string name)) [
      | inl k ↦
          rw (e, k, filedrop_pair_device) (fail-IsEnvelope serde J rt (text "invalid arguments"))
      | inr (n, k) ↦ elim (Option-cases (serde.parse_uuid s)) [
        | inl p ↦
            rw (e, k, p, filedrop_pair_device)
              (fail-IsEnvelope serde J rt (text "invalid peer_device_id"))
        | inr (u, p) ↦
            let r = (pair_device env rt u n).0 in
            rw (e, k, p, filedrop_pair_device)
              (returned (body_or_err serde (text "payload") serde.of_payload r) (
                body_or_err-IsResponse serde J (text "payload") serde.of_payload r payload_clean
                  J.payloads))
      ]
    ]
  ]

  send_files-IsEnvelope :
      (parse : Text → Reply Text) (chosen : Text → Chosen) (json : CStr)
      → IsEnvelope (filedrop_send_files serde parse chosen rt json).0
  unfolding filedrop_send_files
  send_files-IsEnvelope parse chosen json = elim (Option-cases (from_c_string json)) [
    | inl e ↦ rw (e, filedrop_send_files) (fail-IsEnvelope serde J rt (text "invalid request_json"))
    | inr (s, e) ↦ elim (Reply-cases (serde.to_request s)) [
      | inl (m, k) ↦
          rw (e, k, filedrop_send_files)
            (fail-IsEnvelope serde J rt (text "bad request json: " ++ m))
      | inr (req, k) ↦
          let r =
            (send_files parse rt req.peer_address req.peer_port req.peer_device_id
              (map chosen req.file_paths)).0 in
          rw (e, k, filedrop_send_files)
            (returned (body_or_err serde (text "transfer_ids") serde.of_ids r)
              (body_or_err-IsResponse serde J (text "transfer_ids") serde.of_ids r ids_clean J.ids))
    ]
  ]

  get_transfer_status-IsEnvelope :
      (elapsed : F.F64) (id : CStr)
      → IsEnvelope (filedrop_get_transfer_status serde elapsed rt id).0
  unfolding filedrop_get_transfer_status
  get_transfer_status-IsEnvelope elapsed id = elim (Option-cases (from_c_string id)) [
    | inl e ↦
        rw (e, filedrop_get_transfer_status)
          (fail-IsEnvelope serde J rt (text "invalid transfer_id"))
    | inr (s, e) ↦ elim (Option-cases (serde.parse_uuid s)) [
      | inl k ↦
          rw (e, k, filedrop_get_transfer_status)
            (fail-IsEnvelope serde J rt (text "transfer_id is not a valid UUID"))
      | inr (u, k) ↦
          let r = get_transfer_status serde.show_uuid elapsed rt u in
          rw (e, k, filedrop_get_transfer_status)
            (returned (body_or_err serde (text "progress") serde.of_progress r) (
              body_or_err-IsResponse serde J (text "progress") serde.of_progress r progress_clean
                J.progresses))
    ]
  ]

  start_server-IsEnvelope : (net : Network) → IsEnvelope (filedrop_start_server serde net rt).0
  unfolding filedrop_start_server
  start_server-IsEnvelope net =
      let r = (start_server serde.show_uuid net rt).0 in
      returned (body_or_err serde (text "endpoint") serde.of_endpoint r) (
        body_or_err-IsResponse serde J (text "endpoint") serde.of_endpoint r endpoint_clean
          J.endpoints)

  -- Every exported function but the two that list devices and transfers, and the poll, answers with an
  -- envelope, `{"ok":true...` or `{"ok":false,"error":...`, in every state and whatever it is given: null
  -- pointers, bytes that are not UTF-8, texts that are no JSON or no UUID.
  pub c_call-IsEnvelope : (c : CCall F) → has_envelope c ≡ true → IsEnvelope (c_call serde c rt).0
  unfolding c_call filedrop_stop_server filedrop_stop_discovery
  c_call-IsEnvelope (Machine.CCall.init_engine json disk id name dir) h =
      init_engine-IsEnvelope json disk id name dir
  c_call-IsEnvelope (Machine.CCall.start_server net) h = start_server-IsEnvelope net
  c_call-IsEnvelope Machine.CCall.stop_server h = reply-IsEnvelope (stop_server rt).0
  c_call-IsEnvelope (Machine.CCall.start_discovery answers json) h =
      start_discovery-IsEnvelope answers json
  c_call-IsEnvelope Machine.CCall.stop_discovery h = reply-IsEnvelope (stop_discovery rt).0
  c_call-IsEnvelope Machine.CCall.get_nearby_devices h = cc
  c_call-IsEnvelope (Machine.CCall.pair_device env id name) h = pair_device-IsEnvelope env id name
  c_call-IsEnvelope (Machine.CCall.send_files parse chosen json) h =
      send_files-IsEnvelope parse chosen json
  c_call-IsEnvelope (Machine.CCall.accept_transfer id) h =
      transfer_id_fn-IsEnvelope serde J rt (accept_transfer serde.show_uuid) id
  c_call-IsEnvelope (Machine.CCall.reject_transfer id) h =
      transfer_id_fn-IsEnvelope serde J rt (reject_transfer serde.show_uuid) id
  c_call-IsEnvelope (Machine.CCall.pause_transfer id) h =
      transfer_id_fn-IsEnvelope serde J rt (pause_transfer serde.show_uuid) id
  c_call-IsEnvelope (Machine.CCall.resume_transfer id) h =
      transfer_id_fn-IsEnvelope serde J rt (resume_transfer serde.show_uuid) id
  c_call-IsEnvelope (Machine.CCall.cancel_transfer id) h =
      transfer_id_fn-IsEnvelope serde J rt (cancel_transfer serde.show_uuid) id
  c_call-IsEnvelope (Machine.CCall.get_transfer_status elapsed id) h =
      get_transfer_status-IsEnvelope elapsed id
  c_call-IsEnvelope Machine.CCall.get_transfer_history h = cc
  c_call-IsEnvelope Machine.CCall.poll_event h = cc
