-- ===== src/Discovery/Service/Starts.antt =====
-- What the start of a service does to the broadcast port.
use filedrop.Base.{Bool, true, ◌≡◌, refl, inl, inr, Option, none, arith, Option-cases}
use filedrop.Errors.{io, Result, ok, err}
use filedrop.Discovery.{DiscoveredDevice}
use filedrop.Discovery.Mdns.{Library, ServiceInfo, advertise}
use filedrop.Discovery.Udp
use filedrop.Discovery.Udp.{Port, free, listening, SocketFaults, address_in_use}
use filedrop.Discovery.Service.{DiscoveryService, start, with_udp, with_browse, with_advertise}

-- The result of a start goes with the port: it is held afresh when the start succeeds, and as before, or
-- free, when it does not.
abbrev pub IsStart : Port → Result (Unit {0}) × Port → Type 0
IsStart before (ok _, after) = after ≡ listening true
IsStart before (err e, after) = after ≡ before

pub IsStart-held :
    (before : Port) (out : Result (Unit {0}) × Port)
    → IsStart before out
    → out.0 ≡ ok tt
    → out.1 ≡ listening true
IsStart-held before (ok _, after) h e = h
IsStart-held before (err x, after) h e = cc

udp_start-IsStart : (faults : SocketFaults) (port : Port) → IsStart port (Udp.start faults port)
unfolding Udp.start
udp_start-IsStart faults (listening running) = refl
udp_start-IsStart faults free = ground arith

with_advertise-IsStart :
    (lib : Library) (faults : SocketFaults) (port : Port)
    (out : Result (Unit {0}) × Option ServiceInfo)
    → let s = with_advertise lib faults port out in IsStart port (s.result, s.port)
unfolding with_advertise with_browse with_udp
with_advertise-IsStart lib faults port (err e, advertised) = refl
with_advertise-IsStart lib faults port (ok _, advertised) = elim (Option-cases lib.browse) [
  | inr (e, h) ↦ rw (h, with_browse) refl
  | inl h ↦ rw (h, with_browse) (udp_start-IsStart faults port)
]

pub start-IsStart :
    (lib : Library) (faults : SocketFaults) (port : Port) (service : DiscoveryService)
    (device : DiscoveredDevice)
    → let s = start lib faults port service device in IsStart port (s.result, s.port)
unfolding start
start-IsStart lib faults port service device =
    with_advertise-IsStart lib faults port (advertise lib service.service_name device)

with_advertise-held :
    (lib : Library) (faults : SocketFaults) (running : Bool)
    (out : Result (Unit {0}) × Option ServiceInfo)
    → out.0 ≡ ok tt
    → lib.browse ≡ none
    → let s = with_advertise lib faults (listening running) out in
      (s.result ≡ err (io address_in_use)) × (s.port ≡ listening running)
unfolding with_advertise with_browse with_udp Udp.start
with_advertise-held lib faults running (err e, advertised) a b = cc
with_advertise-held lib faults running (ok _, advertised) a b = rw (b, with_browse) (refl, refl)

-- With mDNS at work, a start whose port is held is refused.
pub start-held :
    (lib : Library) (faults : SocketFaults) (running : Bool) (service : DiscoveryService)
    (device : DiscoveredDevice)
    → (advertise lib service.service_name device).0 ≡ ok tt
    → lib.browse ≡ none
    → let s = start lib faults (listening running) service device in
      (s.result ≡ err (io address_in_use)) × (s.port ≡ listening running)
unfolding start Udp.start
start-held lib faults running service device a b =
    with_advertise-held lib faults running (advertise lib service.service_name device) a b
