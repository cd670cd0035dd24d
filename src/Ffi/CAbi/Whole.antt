-- ===== src/Ffi/CAbi/Whole.antt =====
-- The invariants of the parts, over every exported function and everything that happens between calls.
use filedrop.Base.{ℕ, nat_eq, ◌≡◌, refl, inl, inr, some, List, map, arith, Text, Option-cases}
use filedrop.Engine.{FileDropEngine}
use filedrop.Errors.{Uuid}
use filedrop.Transfer.Session.{Floats, TransferSession, Store}
use filedrop.Transfer.Queue.{find_session}
use filedrop.Ffi.CAbi.{Serde, CStr, from_c_string}
use filedrop.Ffi.CAbi.Calls
use filedrop.Ffi.CAbi.Machine.{after_begin}
use filedrop.Ffi.CAbi.Responses.{Reply-cases}
use filedrop.Ffi.Channel.{Broadcast}
use filedrop.Ffi.Control.{accept_transfer, reject_transfer, on_session}
use filedrop.Ffi.Events.{FileDropEvent}
use filedrop.Ffi.Nearby.Devices.{IsHeard}
use filedrop.Ffi.PairDevice.{Surroundings, pair_device}
use filedrop.Ffi.Sending.{Chosen, send_files, begin_send, begun}
use filedrop.Ffi.Startup.Serving.{IsServed}
use filedrop.Ffi.Stream.{poll_event}
use filedrop.Ffi.{Reply, Runtime, SendTask}

-- What a call may leave alone: the servers, the discovery, and what belongs to them.
abbrev pub Kept :
    {F : Floats} {B : Broadcast (FileDropEvent F)} → Runtime F B → Runtime F B → Type 0
Kept rt rt' =
    (rt.servers ≡ rt'.servers)
    × (rt.server_shutdown ≡ rt'.server_shutdown)
    × (rt.discovery ≡ rt'.discovery)
    × (rt.udp_port ≡ rt'.udp_port)

-- At most one server serves, and the listener is the service's.
abbrev pub IsWhole : {F : Floats} {B : Broadcast (FileDropEvent F)} → Runtime F B → Type 0
IsWhole rt = IsServed rt × IsHeard rt

module _ {F : Floats} {B : Broadcast (FileDropEvent F)} where
  pair_device-Kept :
      (env : Surroundings) (rt : Runtime F B) (id : Uuid) (name : Text)
      → Kept rt (pair_device env rt id name).1
  unfolding pair_device
  pair_device-Kept env rt id name = ground arith

  send_files-Kept :
      (parse : Text → Reply Text) (rt : Runtime F B) (host : Text) (port : ℕ) (peer : Uuid)
      (files : List Chosen)
      → Kept rt (send_files parse rt host port peer files).1
  unfolding send_files
  send_files-Kept parse rt host port peer files = ground arith

  pub on_session-Kept :
      (show : Uuid → Text) (f : Store → TransferSession → Store)
      (announce : Runtime F B → Runtime F B) (kept : (r : Runtime F B) → Kept r (announce r))
      (rt : Runtime F B) (id : Uuid)
      → Kept rt (on_session show f announce rt id).1
  unfolding on_session
  on_session-Kept show f announce kept rt id = elim (Option-cases rt.engine) [
    | inl e ↦ simp (e, on_session) (refl, refl, refl, refl)
    | inr (eng, e) ↦ elim (Option-cases (find_session eng.queue id)) [
      | inl k ↦ simp (e, k, on_session) (refl, refl, refl, refl)
      | inr (s, k) ↦
          simp (e, k, on_session) (kept (record rt { engine = some eng; store = f rt.store s }))
    ]
  ]

  pub accept_transfer-Kept :
      (show : Uuid → Text) (rt : Runtime F B) (id : Uuid) → Kept rt (accept_transfer show rt id).1
  unfolding accept_transfer
  accept_transfer-Kept show rt id = ground arith

  pub reject_transfer-Kept :
      (show : Uuid → Text) (rt : Runtime F B) (id : Uuid) → Kept rt (reject_transfer show rt id).1
  unfolding reject_transfer
  reject_transfer-Kept show rt id = ground arith

  pub poll_event-Kept : (rt : Runtime F B) → Kept rt (poll_event F B rt).1
  unfolding poll_event
  poll_event-Kept rt = (refl, refl, refl, refl)

  pub IsWhole-Kept : (rt rt' : Runtime F B) → Kept rt rt' → IsWhole rt → IsWhole rt'
  IsWhole-Kept rt rt' (a, b, c, d) h = rw⁻¹ (a, b, c, d) h

module _ {F : Floats} {B : Broadcast (FileDropEvent F)} (serde : Serde F) where
  pub begin_send-Kept :
      (rt : Runtime F B) (eng : FileDropEngine) (task : SendTask)
      → Kept rt (after_begin serde rt (begin_send rt eng task))
  unfolding begin_send begun after_begin
  begin_send-Kept rt eng task = ground arith

  pub transfer_id_fn-Kept :
      (f : Runtime F B → Uuid → Reply (Unit {0}) × Runtime F B)
      (kept : (r : Runtime F B) (id : Uuid) → Kept r (f r id).1) (rt : Runtime F B) (id : CStr)
      → Kept rt (Calls.transfer_id_fn serde f rt id).1
  unfolding Calls.transfer_id_fn
  transfer_id_fn-Kept f kept rt id = elim (Option-cases (from_c_string id)) [
    | inl e ↦ rw (e, Calls.transfer_id_fn) (refl, refl, refl, refl)
    | inr (s, e) ↦ elim (Option-cases (serde.parse_uuid s)) [
      | inl k ↦ rw (e, k, Calls.transfer_id_fn) (refl, refl, refl, refl)
      | inr (u, k) ↦ rw (e, k, Calls.transfer_id_fn) (kept rt u)
    ]
  ]

  pub c_pair_device-Kept :
      (env : Surroundings) (rt : Runtime F B) (id name : CStr)
      → Kept rt (Calls.filedrop_pair_device serde env rt id name).1
  unfolding Calls.filedrop_pair_device
  c_pair_device-Kept env rt id name = elim (Option-cases (from_c_string id)) [
    | inl e ↦ rw (e, Calls.filedrop_pair_device) (refl, refl, refl, refl)
    | inr (s, e) ↦ elim (Option-cases (from_c_string name)) [
      | inl k ↦ rw (e, k, Calls.filedrop_pair_device) (refl, refl, refl, refl)
      | inr (n, k) ↦ elim (Option-cases (serde.parse_uuid s)) [
        | inl p ↦ rw (e, k, p, Calls.filedrop_pair_device) (refl, refl, refl, refl)
        | inr (u, p) ↦ rw (e, k, p, Calls.filedrop_pair_device) (pair_device-Kept env rt u n)
      ]
    ]
  ]

  pub c_send_files-Kept :
      (parse : Text → Reply Text) (chosen : Text → Chosen) (rt : Runtime F B) (json : CStr)
      → Kept rt (Calls.filedrop_send_files serde parse chosen rt json).1
  unfolding Calls.filedrop_send_files
  c_send_files-Kept parse chosen rt json = elim (Option-cases (from_c_string json)) [
    | inl e ↦ rw (e, Calls.filedrop_send_files) (refl, refl, refl, refl)
    | inr (s, e) ↦ elim (Reply-cases (serde.to_request s)) [
      | inl (m, k) ↦ rw (e, k, Calls.filedrop_send_files) (refl, refl, refl, refl)
      | inr (req, k) ↦
          rw (e, k, Calls.filedrop_send_files)
            (send_files-Kept parse rt req.peer_address req.peer_port req.peer_device_id
              (map chosen req.file_paths))
    ]
  ]

  pub c_status-Kept :
      (elapsed : F.F64) (rt : Runtime F B) (id : CStr)
      → Kept rt (Calls.filedrop_get_transfer_status serde elapsed rt id).1
  unfolding Calls.filedrop_get_transfer_status
  c_status-Kept elapsed rt id = ground arith
