-- ===== src/Ffi/Nearby.antt =====
-- rust/filedrop-ffi/src/api/mod.rs: `start_discovery`, `stop_discovery`, `get_nearby_devices`, and the tasks
-- between the discovery and the application.
pub mod Devices
pub mod Restart
mod Tests
use filedrop.Base.{ℕ, nat_eq, Bool, true, false, Option, none, some, List, [], ◌∷◌, map, Text, text}
use filedrop.Base.Dict.{insert}
use filedrop.Errors.{Uuid, Result, ok, err, display}
use filedrop.Discovery.{DiscoveredDevice}
use filedrop.Discovery.Mdns.{Library}
use filedrop.Discovery.Service
use filedrop.Discovery.Service.{DiscoveryService, Started, new_service, nearby_devices}
use filedrop.Discovery.Udp.{SocketFaults, wake}
use filedrop.Transfer.Session.{Floats}
use filedrop.Ffi.Events.{FileDropEvent, device_discovered}
use filedrop.Ffi.Channel.{Broadcast}
use filedrop.Ffi.Dto.{DiscoveredDeviceDto, to_device, of_device}
use filedrop.Ffi.{Reply, done, refused, Runtime, emit}

-- What the library and the operating system answer to `start_discovery`.
pub record Answers : Type 0 where
  pub daemon : Option Text
  pub library : Library
  pub sockets : SocketFaults

abbrev cache : DiscoveredDevice → DiscoveryService → DiscoveryService
cache device service = record service { devices = insert device.device_id device service.devices }

module _ {F : Floats} {B : Broadcast (FileDropEvent F)} where
  unfoldable pub started :
      (Uuid → Text)
      → Runtime F B
      → DiscoveryService
      → Result (Unit {0})
      → Reply (Unit {0}) × Runtime F B
  started show rt service (err e) = (refused (display show e), rt)
  started show rt service (ok _) = (done tt, record rt { discovery = some service })

  -- A service that fails to start is dropped.
  unfoldable pub start_discovery :
      Answers → Runtime F B → DiscoveredDeviceDto → Reply (Unit {0}) × Runtime F B
  unfolding started new_service Service.start to_device
  start_discovery answers rt self_device = elim (new_service answers.daemon (text "filedrop")) [
    | err e ↦ (refused (display answers.library.show_uuid e), rt)
    | ok service ↦
        let out =
          Service.start answers.library answers.sockets rt.udp_port service
            (to_device self_device) in
        started answers.library.show_uuid (record rt { udp_port = out.port }) service out.result
  ]

  unfoldable pub stop_discovery : Runtime F B → Reply (Unit {0}) × Runtime F B
  unfolding Service.stop
  stop_discovery rt = elim rt.discovery [
    | none ↦ (done tt, rt)
    | some service ↦
        (done tt, record rt { discovery = none; udp_port = (Service.stop rt.udp_port service).1 })
  ]

  unfoldable pub get_nearby_devices : Runtime F B → Reply (List DiscoveredDeviceDto)
  unfolding nearby_devices of_device
  get_nearby_devices rt = elim rt.discovery [
    | some service ↦ done (map of_device (nearby_devices service))
    | none ↦ done []
  ]

  -- A device comes from the browser or the listener of the service that runs: `forward_devices` puts it
  -- into the cache and sends it on, and the task of `start_discovery` emits the event.
  unfoldable pub device_found : Runtime F B → DiscoveredDevice → Runtime F B
  unfolding insert
  device_found rt device = elim rt.discovery [
    | none ↦ rt
    | some service ↦
        emit F B (record rt { discovery = some (cache device service) }) (device_discovered device)
  ]

  -- A device comes from a task of a service that has been stopped or was never kept: the cache is not that
  -- of the runtime, and the event is emitted all the same.
  unfoldable pub late_device_found : Runtime F B → DiscoveredDevice → Runtime F B
  late_device_found rt device = emit F B rt (device_discovered device)

  -- A datagram reaches the listener.
  unfoldable pub datagram : Runtime F B → Runtime F B
  unfolding wake
  datagram rt = record rt { udp_port = wake rt.udp_port }
