-- ===== src/Ffi/Nearby/Restart.antt =====
-- Stopping the discovery and starting it again.
use filedrop.Base.{nat_eq, ◌≡◌, refl, sym, ap, ◌∙◌, Bool, true, false, none, some, [], text, Text}
use filedrop.Errors.{Uuid, io, Result, ok, err, display}
use filedrop.Discovery.Mdns.{advertise}
use filedrop.Discovery.Service
use filedrop.Discovery.Service.{DiscoveryService, Started, new_service}
use filedrop.Discovery.Service.Starts.{start-IsStart, start-held, IsStart-held}
use filedrop.Discovery.Udp
use filedrop.Discovery.Udp.{Port, free, listening, address_in_use, wake}
use filedrop.Transfer.Session.{Floats}
use filedrop.Ffi.Events.{FileDropEvent}
use filedrop.Ffi.Channel.{Broadcast}
use filedrop.Ffi.Dto.{DiscoveredDeviceDto, to_device}
use filedrop.Ffi.{done, refused, Runtime}
use filedrop.Ffi.Nearby.{
  Answers, started, start_discovery, stop_discovery, get_nearby_devices, datagram,
}

abbrev fresh_service : DiscoveryService
fresh_service = record { service_name = text "filedrop"; devices = [] }

-- mDNS works: the daemon starts, the device is advertised, and the browser starts.
pub record IsMdnsUp (answers : Answers) (device : DiscoveredDeviceDto) : Type 0 where
  pub daemon : answers.daemon ≡ none
  pub advertised : (advertise answers.library (text "filedrop") (to_device device)).0 ≡ ok tt
  pub browsing : answers.library.browse ≡ none

module _ {F : Floats} {B : Broadcast (FileDropEvent F)} where
  start_discovery-up :
      (answers : Answers) (rt : Runtime F B) (device : DiscoveredDeviceDto)
      → answers.daemon ≡ none
      → let s =
          Service.start answers.library answers.sockets rt.udp_port fresh_service
            (to_device device) in
        start_discovery answers rt device
        ≡ started answers.library.show_uuid (record rt { udp_port = s.port }) fresh_service s.result
  unfolding start_discovery new_service
  start_discovery-up answers rt device k = rw (k, start_discovery, new_service) refl

  started-done :
      (show : Uuid → Text) (rt : Runtime F B) (service : DiscoveryService) (r : Result (Unit {0}))
      → (started show rt service r).0 ≡ done tt
      → (r ≡ ok tt) × ((started show rt service r).1 ≡ record rt { discovery = some service })
  unfolding started
  started-done show rt service (ok _) h = (refl, refl)
  started-done show rt service (err e) h = cc

  started-reply :
      (show : Uuid → Text) (rt rt' : Runtime F B) (service : DiscoveryService)
      (r : Result (Unit {0}))
      → (started show rt service r).0 ≡ (started show rt' service r).0
  unfolding started
  started-reply show rt rt' service (ok _) = refl
  started-reply show rt rt' service (err e) = refl

  -- What a start replies depends on the runtime only by the port.
  start_discovery-port :
      (answers : Answers) (rt rt' : Runtime F B) (device : DiscoveredDeviceDto)
      → answers.daemon ≡ none
      → rt.udp_port ≡ rt'.udp_port
      → (start_discovery answers rt device).0 ≡ (start_discovery answers rt' device).0
  start_discovery-port answers rt rt' device k same =
      let s = λ (port : Port).
        Service.start answers.library answers.sockets port fresh_service (to_device device) in
      let show = answers.library.show_uuid in
      ap (λ out. out.0) (start_discovery-up answers rt device k)
      ∙ started-reply show (record rt { udp_port = (s rt.udp_port).port })
          (record rt' { udp_port = (s rt'.udp_port).port }) fresh_service (s rt.udp_port).result
      ∙ ap
          (λ port.
            (started show (record rt' { udp_port = (s rt'.udp_port).port }) fresh_service
              (s port).result).0)
          same
      ∙ ap (λ out. out.0) (sym (start_discovery-up answers rt' device k))

  -- After a successful start there is a service, and the port is held by its listener.
  start_discovery-done :
      (answers : Answers) (rt : Runtime F B) (device : DiscoveredDeviceDto)
      → answers.daemon ≡ none
      → (start_discovery answers rt device).0 ≡ done tt
      → let rt' = (start_discovery answers rt device).1 in
        (rt'.discovery ≡ some fresh_service) × (rt'.udp_port ≡ listening true)
  start_discovery-done answers rt device k h =
      let s =
        Service.start answers.library answers.sockets rt.udp_port fresh_service
          (to_device device) in
      let up = start_discovery-up answers rt device k in
      let (result, after) =
        started-done answers.library.show_uuid (record rt { udp_port = s.port }) fresh_service
          s.result (ap (λ out. out.0) (sym up) ∙ h) in
      let held : s.port ≡ listening true =
        IsStart-held rt.udp_port (s.result, s.port)
          (start-IsStart answers.library answers.sockets rt.udp_port fresh_service
            (to_device device))
          result in
      (
        ap (λ out. out.1.discovery) up ∙ ap (λ r. r.discovery) after,
        ap (λ out. out.1.udp_port) up ∙ ap (λ r. r.udp_port) after ∙ held,
      )

  start_discovery-held :
      (answers : Answers) (rt : Runtime F B) (running : Bool) (device : DiscoveredDeviceDto)
      → IsMdnsUp answers device
      → rt.udp_port ≡ listening running
      → (start_discovery answers rt device).0
        ≡ refused (display answers.library.show_uuid (io address_in_use))
  unfolding started
  start_discovery-held answers rt running device up held =
      let s =
        Service.start answers.library answers.sockets rt.udp_port fresh_service
          (to_device device) in
      let refusal : s.result ≡ err (io address_in_use) =
        ap
          (λ port.
            (Service.start answers.library answers.sockets port fresh_service
              (to_device device)).result)
          held
        ∙ (start-held answers.library answers.sockets running fresh_service (to_device device)
            up.advertised up.browsing).0 in
      ap (λ out. out.0) (start_discovery-up answers rt device up.daemon)
      ∙ ap
          (λ r.
            (started answers.library.show_uuid (record rt { udp_port = s.port }) fresh_service r).0)
          refusal

  stop_discovery-some :
      (rt : Runtime F B) (service : DiscoveryService)
      → rt.discovery ≡ some service
      → let out = stop_discovery rt in
        (out.1.udp_port ≡ Udp.stop rt.udp_port) × (get_nearby_devices out.1 ≡ done [])
  unfolding stop_discovery get_nearby_devices Service.stop
  stop_discovery-some rt service h = simp (h, stop_discovery, get_nearby_devices) (refl, refl)

  -- A discovery that was started from a free port and then stopped shows no devices; it cannot be started
  -- again, whatever the device: the port is still in use, and is until a datagram arrives. From then on a
  -- start replies what it would have at first.
  pub start_discovery-stop_discovery :
      (answers later : Answers) (rt : Runtime F B) (device again : DiscoveredDeviceDto)
      → answers.daemon ≡ none
      → IsMdnsUp later again
      → rt.udp_port ≡ free
      → (start_discovery answers rt device).0 ≡ done tt
      → let stopped = (stop_discovery (start_discovery answers rt device).1).1 in
        (get_nearby_devices stopped ≡ done [])
        × ((start_discovery later stopped again).0
            ≡ refused (display later.library.show_uuid (io address_in_use)))
        × ((start_discovery later (datagram stopped) again).0 ≡ (start_discovery later rt again).0)
  unfolding datagram wake Udp.stop
  start_discovery-stop_discovery answers later rt device again k up at_first h =
      let begun = (start_discovery answers rt device).1 in
      let (service, held) = start_discovery-done answers rt device k h in
      let (left, gone) = stop_discovery-some begun fresh_service service in
      let stopped = (stop_discovery begun).1 in
      let in_use : stopped.udp_port ≡ listening false = left ∙ ap Udp.stop held in
      (
        gone,
        start_discovery-held later stopped false again up in_use,
        start_discovery-port later (datagram stopped) rt again up.daemon
            (ap wake in_use ∙ sym at_first),
      )
