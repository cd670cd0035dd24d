-- ===== src/Ffi/Nearby/Devices.antt =====
-- The discovery over any sequence of calls, devices and datagrams.
use filedrop.Base.{
  nat_eq, ◌≡◌, refl, sym, ap, ◌∙◌, inl, inr, Bool, true, false, Option, none, some, List, [], ◌∷◌,
  arith, text, Text, Option-cases,
}
use filedrop.Errors.{Uuid, Result, ok, err}
use filedrop.Discovery.{DiscoveredDevice}
use filedrop.Discovery.Service
use filedrop.Discovery.Service.{DiscoveryService, Started, new_service}
use filedrop.Discovery.Service.Starts.{IsStart, start-IsStart}
use filedrop.Discovery.Udp
use filedrop.Discovery.Udp.{Port, free, listening, SocketFaults, address_in_use, wake}
use filedrop.Transfer.Session.{Floats, Store}
use filedrop.Ffi.Events.{FileDropEvent}
use filedrop.Ffi.Channel.{Broadcast}
use filedrop.Ffi.Dto.{DiscoveredDeviceDto, to_device}
use filedrop.Ffi.{Runtime, new_runtime}
use filedrop.Ffi.Nearby.{
  Answers, started, start_discovery, stop_discovery, device_found, late_device_found, datagram,
}

-- What happens to the discovery.
pub data Act : Type 0 where
  starts : Answers → DiscoveredDeviceDto → Act
  stops : Act
  finds : DiscoveredDevice → Act
  finds_late : DiscoveredDevice → Act
  datagrams : Act

abbrev is_some {ℓ} : {A : Type ℓ} → Option A → Bool
is_some none = false
is_some (some a) = true

abbrev is_running : Port → Bool
is_running free = false
is_running (listening running) = running

-- The listener goes on after a datagram exactly while the runtime has a service.
abbrev pub IsHeard : {F : Floats} {B : Broadcast (FileDropEvent F)} → Runtime F B → Type 0
IsHeard rt = is_some rt.discovery ≡ is_running rt.udp_port

wake-running : (port : Port) → is_running port ≡ is_running (wake port)
unfolding wake
wake-running free = refl
wake-running (listening true) = refl
wake-running (listening false) = refl

module _ {F : Floats} {B : Broadcast (FileDropEvent F)} where
  started-IsHeard :
      (show : Uuid → Text) (rt : Runtime F B) (service : DiscoveryService)
      (out : Result (Unit {0}) × Port)
      → IsHeard rt
      → IsStart rt.udp_port out
      → IsHeard (started show (record rt { udp_port = out.1 }) service out.0).1
  unfolding started
  started-IsHeard show rt service (ok _, port) h s = ap is_running (sym s)
  started-IsHeard show rt service (err e, port) h s = h ∙ ap is_running (sym s)

  pub start_discovery-IsHeard :
      (answers : Answers) (rt : Runtime F B) (device : DiscoveredDeviceDto)
      → IsHeard rt
      → IsHeard (start_discovery answers rt device).1
  unfolding start_discovery new_service
  start_discovery-IsHeard answers rt device h = elim (Option-cases answers.daemon) [
    | inr (e, k) ↦ rw (k, start_discovery, new_service) h
    | inl k ↦
        let service : DiscoveryService = record { service_name = text "filedrop"; devices = [] } in
        let s =
          Service.start answers.library answers.sockets rt.udp_port service (to_device device) in
        rw (k, start_discovery, new_service)
          (started-IsHeard answers.library.show_uuid rt service (s.result, s.port) h
            (start-IsStart answers.library answers.sockets rt.udp_port service (to_device device)))
  ]

  pub stop_discovery-IsHeard : (rt : Runtime F B) → IsHeard rt → IsHeard (stop_discovery rt).1
  unfolding stop_discovery Service.stop Udp.stop
  stop_discovery-IsHeard rt h = elim (Option-cases rt.discovery) [
    | inl k ↦ simp (k, stop_discovery) (ground arith)
    | inr (service, k) ↦ simp (k, stop_discovery) (ground arith)
  ]

  abbrev pub act : Act → Runtime F B → Runtime F B
  act (starts answers device) rt = (start_discovery answers rt device).1
  act stops rt = (stop_discovery rt).1
  act (finds device) rt = device_found rt device
  act (finds_late device) rt = late_device_found rt device
  act datagrams rt = datagram rt

  unfoldable pub run_acts : List Act → Runtime F B → Runtime F B
  run_acts [] rt = rt
  run_acts (a ∷ acts) rt = run_acts acts (act a rt)

  pub device_found-IsHeard :
      (rt : Runtime F B) (device : DiscoveredDevice) → IsHeard rt → IsHeard (device_found rt device)
  unfolding device_found
  device_found-IsHeard rt device h = elim (Option-cases rt.discovery) [
    | inl k ↦ simp (k, device_found) (ground arith)
    | inr (service, k) ↦ simp (k, device_found) (ground arith)
  ]

  pub act-IsHeard : (a : Act) (rt : Runtime F B) → IsHeard rt → IsHeard (act a rt)
  unfolding late_device_found datagram wake
  act-IsHeard (starts answers device) rt h = start_discovery-IsHeard answers rt device h
  act-IsHeard stops rt h = stop_discovery-IsHeard rt h
  act-IsHeard (finds device) rt h = device_found-IsHeard rt device h
  act-IsHeard (finds_late device) rt h = h
  act-IsHeard datagrams rt h = h ∙ wake-running rt.udp_port

  run_acts-kept : (acts : List Act) (rt : Runtime F B) → IsHeard rt → IsHeard (run_acts acts rt)
  unfolding run_acts
  run_acts-kept [] rt h = h
  run_acts-kept (a ∷ acts) rt h = run_acts-kept acts (act a rt) (act-IsHeard a rt h)

module _ (F : Floats) (B : Broadcast (FileDropEvent F)) where
  -- Whatever is started, stopped and heard, in any order: the runtime has a discovery service exactly
  -- while a listener holds the broadcast port that will go on listening.
  pub run_acts-IsHeard :
      (acts : List Act) (store : Store) → IsHeard (run_acts acts (new_runtime F B store))
  unfolding new_runtime
  run_acts-IsHeard acts store = run_acts-kept acts (new_runtime F B store) refl
