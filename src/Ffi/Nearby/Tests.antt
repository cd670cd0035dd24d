-- ===== src/Ffi/Nearby/Tests.antt =====
-- Runs of the discovery calls at concrete inputs.
use filedrop.Base.{◌≡◌, refl, []}
use filedrop.Errors.{io, display}
use filedrop.Discovery.Udp.{address_in_use}
use filedrop.Ffi.Nearby.{start_discovery, stop_discovery, get_nearby_devices, datagram}
use filedrop.Ffi.Nearby.Restart.{IsMdnsUp, start_discovery-stop_discovery}
use filedrop.Ffi.Samples.{runtime, answers, desk}
use filedrop.Ffi.{done, refused}

answers-IsMdnsUp : IsMdnsUp answers desk
unfolding filedrop.Discovery.Mdns.advertise
answers-IsMdnsUp = record { daemon = refl; advertised = refl; browsing = refl }

first_start : (start_discovery answers runtime desk).0 ≡ done tt
unfolding start_discovery
first_start = refl

start_discovery-stop_discovery_example :
    (get_nearby_devices (stop_discovery (start_discovery answers runtime desk).1).1 ≡ done [])
    × ((start_discovery answers (stop_discovery (start_discovery answers runtime desk).1).1 desk).0
        ≡ refused (display answers.library.show_uuid (io address_in_use)))
    × ((start_discovery answers
          (datagram (stop_discovery (start_discovery answers runtime desk).1).1)
          desk).0
        ≡ (start_discovery answers runtime desk).0)
start_discovery-stop_discovery_example =
    start_discovery-stop_discovery answers answers runtime desk desk refl answers-IsMdnsUp refl
      first_start
