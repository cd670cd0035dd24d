-- ===== src/Discovery/Tests.antt =====
-- Runs of the listener at concrete inputs.
use filedrop.Base.{
  ℕ, zero, suc, ◌≡◌, refl, true, false, Option, none, some, List, [], ◌∷◌, ◌++◌, nat_eq, list_eq,
  Text, text,
}
use filedrop.Base.Dict.{lookup}
use filedrop.Discovery.{DiscoveredDevice, AnnouncePacket, Json, announce_magic}
use filedrop.Discovery.Mdns.{
  service_type, sanitize_instance, Library, service_info, Resolved, service_resolved,
  resolved_device,
}
use filedrop.Discovery.Mdns.Names.{resolved_device-service_info}
use filedrop.Errors.{Uuid}

abbrev alice : DiscoveredDevice
alice = record {
  device_id = 7;
  name = text "alice";
  address = text "10.0.0.2";
  port = 53317;
  platform = text "linux";
  paired = true;
}

abbrev her_packet : AnnouncePacket
her_packet = record {
  magic = announce_magic;
  device_id = 7;
  name = text "alice";
  port = 53317;
  platform = text "linux";
}

-- A library that knows one byte, her packet, and writes nothing.
abbrev one_packet : Json
one_packet = record { to_vec = λ p. none; from_slice = λ b. some her_packet }

abbrev show_id : Uuid → Text
show_id zero = []
show_id (suc n) = b'i' ∷ show_id n

abbrev parse_id : Text → Option Uuid
parse_id [] = some zero
parse_id (c ∷ s) = elim (parse_id s) [ none ↦ none | some n ↦ some (suc n) ]

parse_id-show_id : (id : Uuid) → parse_id (show_id id) ≡ some id
parse_id-show_id zero = refl
parse_id-show_id (suc n) = rw (parse_id-show_id n, parse_id) refl

abbrev library : Library
library = record {
  show_uuid = show_id;
  parse_uuid = parse_id;
  is_ip = λ s. true;
  build = λ info. none;
  register = λ info. none;
  browse = none;
}

abbrev phone : DiscoveredDevice
phone = record {
  device_id = 2;
  name = text "Ann's phone";
  address = text "192.168.1.7";
  port = 53317;
  platform = text "android";
  paired = false;
}

abbrev found : Resolved
found = record {
  property = λ key. lookup key (service_info library (text "filedrop") phone).properties;
  addresses_v4 = text "192.168.1.7" ∷ [];
  fullname = text "filedrop" ++ (text "." ++ service_type);
  port = 53317;
}

resolved_device-service_info_example :
    resolved_device library 99 (service_resolved found)
    ≡ some (record phone {
      name = sanitize_instance (text "filedrop");
      address = text "192.168.1.7";
      paired = false;
    })
unfolding service_info sanitize_instance filedrop.Base.ℕ_discrete
resolved_device-service_info_example =
    resolved_device-service_info library (text "filedrop") (text "192.168.1.7") [] 99 phone found
      parse_id-show_id (λ key. refl) refl refl refl

-- A dot in the name is replaced.
sanitize_instance_dots : sanitize_instance (text "a.b") ≡ text "a-b"
unfolding sanitize_instance filedrop.Base.ℕ_discrete
sanitize_instance_dots = refl
