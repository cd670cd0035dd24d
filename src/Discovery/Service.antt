-- ===== src/Discovery/Service.antt =====
-- rust/filedrop-core/src/discovery/mod.rs: the service that merges what mDNS and UDP hear.
pub mod Starts
use filedrop.Base.{Bool, true, false, Option, none, some, List, [], ◌∷◌, ◌++◌, Text, text}
use filedrop.Base.Dict.{Dict, insert, values}
use filedrop.Errors.{Uuid, FileDropError, discovery, Result, ok, err}
use filedrop.Discovery.{DiscoveredDevice}
use filedrop.Discovery.Mdns
use filedrop.Discovery.Mdns.{Library, ServiceInfo, advertise}
use filedrop.Discovery.Udp
use filedrop.Discovery.Udp.{Port, SocketFaults}

-- The daemon is the library's; the sockets and their flag are the `Port`.
pub record DiscoveryService : Type 0 where
  pub service_name : Text
  pub devices : Dict Uuid DiscoveredDevice

-- `DiscoveryService::new`, by the failure of `ServiceDaemon::new`.
unfoldable pub new_service : Option Text → Text → Result DiscoveryService
new_service (some e) service_name = err (discovery (text "mdns daemon init failed: " ++ e))
new_service none service_name = ok (record { service_name = service_name; devices = [] })

-- What `start` leaves: the port, and the service that is advertised, if there is one.
pub record Started : Type 0 where
  pub result : Result (Unit {0})
  pub port : Port
  pub advertised : Option ServiceInfo

with_udp : Option ServiceInfo → Result (Unit {0}) × Port → Started
with_udp advertised (result, port) = record {
  result = result;
  port = port;
  advertised = advertised;
}

-- `browse`, and then the start of the UDP discovery.
with_browse : Library → SocketFaults → Port → Option ServiceInfo → Option Text → Started
unfolding with_udp Udp.start
with_browse lib faults port advertised (some e) = record {
  result = err (discovery (text "mdns browse failed: " ++ e));
  port = port;
  advertised = advertised;
}
with_browse lib faults port advertised none = with_udp advertised (Udp.start faults port)

with_advertise : Library → SocketFaults → Port → Result (Unit {0}) × Option ServiceInfo → Started
unfolding with_browse
with_advertise lib faults port (err e, advertised) = record {
  result = err e;
  port = port;
  advertised = advertised;
}
with_advertise lib faults port (ok _, advertised) =
    with_browse lib faults port advertised lib.browse

unfoldable pub start : Library → SocketFaults → Port → DiscoveryService → DiscoveredDevice → Started
unfolding with_advertise advertise
start lib faults port service self_device =
    with_advertise lib faults port (advertise lib service.service_name self_device)

-- The cache is cleared; the port is as `Udp.stop` leaves it.
unfoldable pub stop : Port → DiscoveryService → DiscoveryService × Port
unfolding Udp.stop
stop port service = (record service { devices = [] }, Udp.stop port)

unfoldable pub nearby_devices : DiscoveryService → List DiscoveredDevice
nearby_devices service = values service.devices
