-- ===== src/Discovery/Mdns.antt =====
-- rust/filedrop-core/src/discovery/mdns.rs: what is advertised over mDNS, and what is made of the services
-- that are found. The crate `mdns-sd` is an argument: its failures, and the events of its browser.
pub mod Names
use filedrop.Base.{
  ℕ, Bool, true, false, Option, none, some, List, [], ◌∷◌, ◌++◌, ◌==◌, nat_eq, Text, text,
}
use filedrop.Base.Dict.{Dict}
use filedrop.Base.Strings.{replace_char, trim_end, trim_end_text}
use filedrop.Discovery.{DiscoveredDevice}
use filedrop.Errors.{Uuid, discovery, Result, ok, err}

-- `SERVICE_TYPE`
abbrev pub service_type : Text
service_type = text "_filedrop._tcp.local."

unfoldable pub sanitize_instance : Text → Text
sanitize_instance name = replace_char b'.' b'-' name

-- The arguments of `ServiceInfo::new`; the address is its text.
pub record ServiceInfo : Type 0 where
  pub ty : Text
  pub instance_name : Text
  pub host_name : Text
  pub ip : Text
  pub port : ℕ
  pub properties : Dict Text Text

-- The `Display` of `Uuid`, whether a text is an IP address, and the failures of the library.
pub record Library : Type 0 where
  pub show_uuid : Uuid → Text
  pub parse_uuid : Text → Option Uuid
  pub is_ip : Text → Bool
  pub build : ServiceInfo → Option Text
  pub register : ServiceInfo → Option Text
  pub browse : Option Text

-- What `advertise` hands to the library.
unfoldable pub service_info : Library → Text → DiscoveredDevice → ServiceInfo
unfolding sanitize_instance
service_info lib service_name device = record {
  ty = service_type;
  instance_name = sanitize_instance service_name;
  host_name = sanitize_instance device.name ++ text ".local.";
  ip = device.address;
  port = device.port;
  properties =
      (text "device_id", lib.show_uuid device.device_id) ∷ (text "platform", device.platform) ∷ [];
}

-- Beside the result, the service that is registered with the daemon, if it is.
unfoldable pub advertise :
    Library → Text → DiscoveredDevice → Result (Unit {0}) × Option ServiceInfo
unfolding service_info
advertise lib service_name device = elim (lib.is_ip device.address) [
  | false ↦ (err (discovery (text "invalid advertise address")), none)
  | true ↦
      let info = service_info lib service_name device in
      elim (lib.build info) [
        | some e ↦ (err (discovery (text "service info build failed: " ++ e)), none)
        | none ↦ elim (lib.register info) [
          | some e ↦ (err (discovery (text "mdns register failed: " ++ e)), none)
          | none ↦ (ok tt, some info)
        ]
      ]
]

-- What a resolved service says of itself.
pub record Resolved : Type 0 where
  pub property : Text → Option Text
  pub addresses_v4 : List Text
  pub fullname : Text
  pub port : ℕ

pub data ServiceEvent : Type 0 where
  service_resolved : Resolved → ServiceEvent
  other_event : ServiceEvent

-- `.and_then(|s| Uuid::parse_str(s).ok()).unwrap_or_else(Uuid::new_v4)`
abbrev id_or : (Text → Option Uuid) → Uuid → Option Text → Uuid
id_or parse fresh none = fresh
id_or parse fresh (some s) = elim (parse s) [ none ↦ fresh | some id ↦ id ]

abbrev or_unknown : Option Text → Text
or_unknown none = text "unknown"
or_unknown (some platform) = platform

unfoldable pub display_name : Text → Text
unfolding trim_end trim_end_text
display_name fullname = trim_end (λ c. c == b'.') (trim_end_text service_type fullname)

-- The device of an event, by the id that `Uuid::new_v4` would draw.
unfoldable pub resolved_device : Library → Uuid → ServiceEvent → Option DiscoveredDevice
unfolding display_name
resolved_device lib fresh other_event = none
resolved_device lib fresh (service_resolved info) = elim info.addresses_v4 [
  | [] ↦ none
  | addr ∷ more ↦ some (record {
    device_id = id_or lib.parse_uuid fresh (info.property (text "device_id"));
    name = display_name info.fullname;
    address = addr;
    port = info.port;
    platform = or_unknown (info.property (text "platform"));
    paired = false;
  })
]

-- The task of `browse`: each event with the id that would be drawn, and whether the receiver takes a
-- device. What is sent on.
unfoldable pub browse_loop : Library → List (ServiceEvent × Uuid × Bool) → List DiscoveredDevice
unfolding resolved_device
browse_loop lib [] = []
browse_loop lib ((event, fresh, takes) ∷ events) =
    let rest = browse_loop lib events in
    elim (resolved_device lib fresh event) [
      | none ↦ rest
      | some device ↦ elim takes [ true ↦ device ∷ rest | false ↦ [] ]
    ]
