-- ===== src/Ffi/CAbi/Run.antt =====
-- Any run of the program, seen through the C interface.
use mathlib.Core.Path.{subst}
use filedrop.Base.{nat_eq, refl, sym, inl, inr, List, [], ◌∷◌, arith, Text, Option-cases}
use filedrop.Discovery.{DiscoveredDevice}
use filedrop.Engine.{Disk}
use filedrop.Errors.{Uuid}
use filedrop.Storage.History.{Json}
use filedrop.Transfer.Session.{Floats, Store, pause, resume, cancel}
use filedrop.Ffi.CAbi.{Serde, CStr, from_c_string}
use filedrop.Ffi.CAbi.Calls
use filedrop.Ffi.CAbi.Machine
use filedrop.Ffi.CAbi.Machine.{CCall, c_call, Happening, happen, happen_all, after_begin}
use filedrop.Ffi.CAbi.Responses.{Reply-cases}
use filedrop.Ffi.CAbi.Whole.{
  Kept, IsWhole, IsWhole-Kept, transfer_id_fn-Kept, begin_send-Kept, on_session-Kept,
  accept_transfer-Kept, reject_transfer-Kept, poll_event-Kept, c_pair_device-Kept,
  c_send_files-Kept, c_status-Kept,
}
use filedrop.Ffi.Channel.{Broadcast}
use filedrop.Ffi.Control.{
  accept_transfer, reject_transfer, pause_transfer, resume_transfer, cancel_transfer,
}
use filedrop.Ffi.Dto.{DiscoveredDeviceDto}
use filedrop.Ffi.Events.{FileDropEvent, transfer_paused}
use filedrop.Ffi.Nearby.{
  Answers, start_discovery, stop_discovery, started, device_found, late_device_found, datagram,
}
use filedrop.Ffi.Nearby.Devices
use filedrop.Ffi.Nearby.Devices.{
  IsHeard, start_discovery-IsHeard, stop_discovery-IsHeard, device_found-IsHeard, act-IsHeard,
}
use filedrop.Ffi.Sending.{begin_send, finish_send}
use filedrop.Ffi.Startup.{Network, init_engine, start_server, stop_server, serve}
use filedrop.Ffi.Startup.Calls.{
  ports-start_server, ports-stop_server, start_server-cases, init_engine-cases,
}
use filedrop.Ffi.Startup.Serving.{IsServed}
use filedrop.Ffi.{Runtime, new_runtime, emit}

module _ {F : Floats} {B : Broadcast (FileDropEvent F)} where
  start_server-IsWhole :
      (show : Uuid → Text) (net : Network) (rt : Runtime F B)
      → IsWhole rt
      → IsWhole (start_server show net rt).1
  unfolding serve
  start_server-IsWhole show net rt h = (
    (ports-start_server show net rt h.0).0,
    elim (start_server-cases show net rt) [
      | inl (message, e) ↦ subst (λ out. IsHeard out.1) (sym e) h.1
      | inr (endpoint, e, _) ↦ subst (λ out. IsHeard out.1) (sym e) h.1
    ],
  )

  init_engine-IsWhole :
      (show : Uuid → Text) (json : Json) (disk : Disk) (id : Uuid) (rt : Runtime F B)
      (name dir : Text)
      → IsWhole rt
      → IsWhole (init_engine show json disk id rt name dir).0.1
  init_engine-IsWhole show json disk id rt name dir h =
      elim (init_engine-cases show json disk id rt name dir) [
        | inl (message, e) ↦ subst (λ out. IsWhole out.1) (sym e) h
        | inr (eng, _, e) ↦ subst (λ out. IsWhole out.1) (sym e) h
      ]

  stop_server-IsWhole : (rt : Runtime F B) → IsWhole rt → IsWhole (stop_server rt).1
  unfolding stop_server
  stop_server-IsWhole rt h = ((ports-stop_server rt h.0).0, h.1)

  start_discovery-IsServed :
      (answers : Answers) (rt : Runtime F B) (dto : DiscoveredDeviceDto)
      → IsServed rt
      → IsServed (start_discovery answers rt dto).1
  unfolding start_discovery started
  start_discovery-IsServed answers rt dto h = ground arith

  stop_discovery-IsServed : (rt : Runtime F B) → IsServed rt → IsServed (stop_discovery rt).1
  unfolding stop_discovery
  stop_discovery-IsServed rt h = ground arith

  device_found-IsServed :
      (rt : Runtime F B) (device : DiscoveredDevice)
      → IsServed rt
      → IsServed (device_found rt device)
  unfolding device_found
  device_found-IsServed rt device h = ground arith

module _ {F : Floats} {B : Broadcast (FileDropEvent F)} (serde : Serde F) where
  c_init-IsWhole :
      (json : Json) (disk : Disk) (id : Uuid) (rt : Runtime F B) (name dir : CStr)
      → IsWhole rt
      → IsWhole (Calls.filedrop_init_engine serde json disk id rt name dir).1
  unfolding Calls.filedrop_init_engine
  c_init-IsWhole json disk id rt name dir h = elim (Option-cases (from_c_string name)) [
    | inl e ↦ rw (e, Calls.filedrop_init_engine) h
    | inr (n, e) ↦ elim (Option-cases (from_c_string dir)) [
      | inl k ↦ rw (e, k, Calls.filedrop_init_engine) h
      | inr (d, k) ↦
          rw (e, k, Calls.filedrop_init_engine)
            (init_engine-IsWhole serde.show_uuid json disk id rt n d h)
    ]
  ]

  c_start_discovery-IsWhole :
      (answers : Answers) (rt : Runtime F B) (json : CStr)
      → IsWhole rt
      → IsWhole (Calls.filedrop_start_discovery serde answers rt json).1
  unfolding Calls.filedrop_start_discovery
  c_start_discovery-IsWhole answers rt json h = elim (Option-cases (from_c_string json)) [
    | inl e ↦ rw (e, Calls.filedrop_start_discovery) h
    | inr (s, e) ↦ elim (Reply-cases (serde.to_device s)) [
      | inl (m, k) ↦ rw (e, k, Calls.filedrop_start_discovery) h
      | inr (dto, k) ↦
          rw (e, k, Calls.filedrop_start_discovery)
            (
              start_discovery-IsServed answers rt dto h.0,
              start_discovery-IsHeard answers rt dto h.1,
            )
    ]
  ]

  pause-Kept : (r : Runtime F B) (id : Uuid) → Kept r (pause_transfer serde.show_uuid r id).1
  pause-Kept r id =
      on_session-Kept serde.show_uuid pause (λ x. emit F B x (transfer_paused id))
        (λ x. (refl, refl, refl, refl)) r id

  resume-Kept : (r : Runtime F B) (id : Uuid) → Kept r (resume_transfer serde.show_uuid r id).1
  resume-Kept r id =
      on_session-Kept serde.show_uuid resume (λ x. x) (λ x. (refl, refl, refl, refl)) r id

  cancel-Kept : (r : Runtime F B) (id : Uuid) → Kept r (cancel_transfer serde.show_uuid r id).1
  cancel-Kept r id =
      on_session-Kept serde.show_uuid cancel (λ x. x) (λ x. (refl, refl, refl, refl)) r id

  c_call-IsWhole : (c : CCall F) (rt : Runtime F B) → IsWhole rt → IsWhole (c_call serde c rt).1
  unfolding c_call Calls.filedrop_start_server Calls.filedrop_stop_server
      Calls.filedrop_stop_discovery Calls.filedrop_get_nearby_devices
      Calls.filedrop_get_transfer_history Calls.filedrop_poll_event
  c_call-IsWhole (Machine.CCall.init_engine json disk id name dir) rt h =
      c_init-IsWhole json disk id rt name dir h
  c_call-IsWhole (Machine.CCall.start_server net) rt h =
      start_server-IsWhole serde.show_uuid net rt h
  c_call-IsWhole Machine.CCall.stop_server rt h = stop_server-IsWhole rt h
  c_call-IsWhole (Machine.CCall.start_discovery answers json) rt h =
      c_start_discovery-IsWhole answers rt json h
  c_call-IsWhole Machine.CCall.stop_discovery rt h =
      (stop_discovery-IsServed rt h.0, stop_discovery-IsHeard rt h.1)
  c_call-IsWhole Machine.CCall.get_nearby_devices rt h = h
  c_call-IsWhole (Machine.CCall.pair_device env id name) rt h =
      IsWhole-Kept rt (c_call serde (Machine.CCall.pair_device env id name) rt).1
        (c_pair_device-Kept serde env rt id name) h
  c_call-IsWhole (Machine.CCall.send_files parse chosen json) rt h =
      IsWhole-Kept rt (c_call serde (Machine.CCall.send_files parse chosen json) rt).1
        (c_send_files-Kept serde parse chosen rt json) h
  c_call-IsWhole (Machine.CCall.accept_transfer id) rt h =
      IsWhole-Kept rt (c_call serde (Machine.CCall.accept_transfer id) rt).1
        (transfer_id_fn-Kept serde (accept_transfer serde.show_uuid)
          (accept_transfer-Kept serde.show_uuid) rt id)
        h
  c_call-IsWhole (Machine.CCall.reject_transfer id) rt h =
      IsWhole-Kept rt (c_call serde (Machine.CCall.reject_transfer id) rt).1
        (transfer_id_fn-Kept serde (reject_transfer serde.show_uuid)
          (reject_transfer-Kept serde.show_uuid) rt id)
        h
  c_call-IsWhole (Machine.CCall.pause_transfer id) rt h =
      IsWhole-Kept rt (c_call serde (Machine.CCall.pause_transfer id) rt).1
        (transfer_id_fn-Kept serde (pause_transfer serde.show_uuid) pause-Kept rt id) h
  c_call-IsWhole (Machine.CCall.resume_transfer id) rt h =
      IsWhole-Kept rt (c_call serde (Machine.CCall.resume_transfer id) rt).1
        (transfer_id_fn-Kept serde (resume_transfer serde.show_uuid) resume-Kept rt id) h
  c_call-IsWhole (Machine.CCall.cancel_transfer id) rt h =
      IsWhole-Kept rt (c_call serde (Machine.CCall.cancel_transfer id) rt).1
        (transfer_id_fn-Kept serde (cancel_transfer serde.show_uuid) cancel-Kept rt id) h
  c_call-IsWhole (Machine.CCall.get_transfer_status elapsed id) rt h =
      IsWhole-Kept rt (c_call serde (Machine.CCall.get_transfer_status elapsed id) rt).1
        (c_status-Kept serde elapsed rt id) h
  c_call-IsWhole Machine.CCall.get_transfer_history rt h = h
  c_call-IsWhole Machine.CCall.poll_event rt h =
      IsWhole-Kept rt (c_call serde Machine.CCall.poll_event rt).1 (poll_event-Kept rt) h

  happen-IsWhole : (x : Happening F) (rt : Runtime F B) → IsWhole rt → IsWhole (happen serde x rt)
  unfolding happen late_device_found datagram finish_send
  happen-IsWhole (Machine.Happening.calls c) rt h = c_call-IsWhole c rt h
  happen-IsWhole (Machine.Happening.finds device) rt h =
      (device_found-IsServed rt device h.0, device_found-IsHeard rt device h.1)
  happen-IsWhole (Machine.Happening.finds_late device) rt h = h
  happen-IsWhole Machine.Happening.datagrams rt h = (h.0, act-IsHeard Devices.Act.datagrams rt h.1)
  happen-IsWhole (Machine.Happening.begins task) rt h = elim (Option-cases rt.engine) [
    | inl e ↦ simp (e, happen) h
    | inr (eng, e) ↦
        simp (e, happen)
          (IsWhole-Kept rt (after_begin serde rt (begin_send rt eng task))
            (begin_send-Kept serde rt eng task) h)
  ]
  happen-IsWhole (Machine.Happening.finishes task result digest) rt h =
      elim (Option-cases rt.engine) [
        | inl e ↦ simp (e, happen) h
        | inr (eng, e) ↦ simp (e, happen) h
      ]

  happen_all-kept :
      (xs : List (Happening F)) (rt : Runtime F B) → IsWhole rt → IsWhole (happen_all serde xs rt)
  unfolding happen_all
  happen_all-kept [] rt h = h
  happen_all-kept (x ∷ xs) rt h = happen_all-kept xs (happen serde x rt) (happen-IsWhole x rt h)

module _ (F : Floats) (B : Broadcast (FileDropEvent F)) where
  -- In every state that the program reaches by calls of the exported functions, with any arguments and any
  -- answers of the system, and by what its tasks do in between: exactly the server whose sender the
  -- runtime holds has not been told to shut down, and the runtime has a discovery service exactly while a
  -- listener holds the broadcast port that will go on listening.
  pub happen_all-IsWhole :
      (serde : Serde F) (xs : List (Happening F)) (store : Store)
      → IsWhole (happen_all serde xs (new_runtime F B store))
  unfolding new_runtime
  happen_all-IsWhole serde xs store = happen_all-kept serde xs (new_runtime F B store) (refl, refl)
