-- ===== src/Ffi/CAbi/Machine.antt =====
-- The exported functions as the calls of one machine, together with what else happens to the runtime.
use filedrop.Base.{none, some, List, [], ◌∷◌, Text}
use filedrop.Discovery.{DiscoveredDevice}
use filedrop.Engine.{Disk}
use filedrop.Errors.{Uuid, Result}
use filedrop.Storage.History.{Json}
use filedrop.Transfer.Session.{Floats}
use filedrop.Ffi.CAbi.{Serde, CStr}
use filedrop.Ffi.CAbi.Calls.{
  filedrop_init_engine, filedrop_start_server, filedrop_stop_server, filedrop_start_discovery,
  filedrop_stop_discovery, filedrop_get_nearby_devices, filedrop_pair_device, filedrop_send_files,
  filedrop_accept_transfer, filedrop_reject_transfer, filedrop_pause_transfer,
  filedrop_resume_transfer, filedrop_cancel_transfer, filedrop_get_transfer_status,
  filedrop_get_transfer_history, filedrop_poll_event,
}
use filedrop.Ffi.Channel.{Broadcast}
use filedrop.Ffi.Events.{FileDropEvent}
use filedrop.Ffi.Nearby.{Answers, device_found, late_device_found, datagram}
use filedrop.Ffi.PairDevice.{Surroundings}
use filedrop.Ffi.Sending.{Chosen, Begun, waits, returns, sends, begin_send, finish_send}
use filedrop.Ffi.Startup.{Network}
use filedrop.Ffi.{Reply, Runtime, SendTask}

-- A call of an exported function, with its arguments and with what the system answers to it.
pub data CCall (F : Floats) : Type 0 where
  init_engine : Json → Disk → Uuid → CStr → CStr → CCall F
  start_server : Network → CCall F
  stop_server : CCall F
  start_discovery : Answers → CStr → CCall F
  stop_discovery : CCall F
  get_nearby_devices : CCall F
  pair_device : Surroundings → CStr → CStr → CCall F
  send_files : (Text → Reply Text) → (Text → Chosen) → CStr → CCall F
  accept_transfer : CStr → CCall F
  reject_transfer : CStr → CCall F
  pause_transfer : CStr → CCall F
  resume_transfer : CStr → CCall F
  cancel_transfer : CStr → CCall F
  get_transfer_status : F.F64 → CStr → CCall F
  get_transfer_history : CCall F
  poll_event : CCall F

-- A call, or what the tasks of the program do between calls: a device comes from the discovery, a datagram
-- wakes the listener, a queued transfer begins or ends.
pub data Happening (F : Floats) : Type 0 where
  calls : CCall F → Happening F
  finds : DiscoveredDevice → Happening F
  finds_late : DiscoveredDevice → Happening F
  datagrams : Happening F
  begins : SendTask → Happening F
  finishes : SendTask → Result (Unit {0}) → Result Text → Happening F

module _ {F : Floats} {B : Broadcast (FileDropEvent F)} (serde : Serde F) where
  unfoldable pub c_call : CCall F → Runtime F B → Text × Runtime F B
  c_call (init_engine json disk id name dir) rt =
      filedrop_init_engine serde json disk id rt name dir
  c_call (start_server net) rt = filedrop_start_server serde net rt
  c_call stop_server rt = filedrop_stop_server serde rt
  c_call (start_discovery answers json) rt = filedrop_start_discovery serde answers rt json
  c_call stop_discovery rt = filedrop_stop_discovery serde rt
  c_call get_nearby_devices rt = filedrop_get_nearby_devices serde rt
  c_call (pair_device env id name) rt = filedrop_pair_device serde env rt id name
  c_call (send_files parse chosen json) rt = filedrop_send_files serde parse chosen rt json
  c_call (accept_transfer id) rt = filedrop_accept_transfer serde rt id
  c_call (reject_transfer id) rt = filedrop_reject_transfer serde rt id
  c_call (pause_transfer id) rt = filedrop_pause_transfer serde rt id
  c_call (resume_transfer id) rt = filedrop_resume_transfer serde rt id
  c_call (cancel_transfer id) rt = filedrop_cancel_transfer serde rt id
  c_call (get_transfer_status elapsed id) rt = filedrop_get_transfer_status serde elapsed rt id
  c_call get_transfer_history rt = filedrop_get_transfer_history serde rt
  c_call poll_event rt = filedrop_poll_event serde rt

  unfoldable pub after_begin : Runtime F B → Begun (Runtime F B) → Runtime F B
  after_begin rt waits = rt
  after_begin rt returns = rt
  after_begin rt (sends session rt') = rt'

  unfoldable pub happen : Happening F → Runtime F B → Runtime F B
  unfolding c_call after_begin device_found late_device_found datagram begin_send finish_send
  happen (calls c) rt = (c_call c rt).1
  happen (finds device) rt = device_found rt device
  happen (finds_late device) rt = late_device_found rt device
  happen datagrams rt = datagram rt
  happen (begins task) rt = elim rt.engine [
    | none ↦ rt
    | some eng ↦ after_begin rt (begin_send rt eng task)
  ]
  happen (finishes task result digest) rt = elim rt.engine [
    | none ↦ rt
    | some eng ↦ finish_send serde.show_uuid rt eng task result digest
  ]

  unfoldable pub happen_all : List (Happening F) → Runtime F B → Runtime F B
  unfolding happen
  happen_all [] rt = rt
  happen_all (h ∷ hs) rt = happen_all hs (happen h rt)
