-- ===== src/Discovery.antt =====
-- rust/filedrop-core/src/discovery/{device,udp_broadcast,mod}.rs: the devices that are heard of. The
-- sockets are arguments: the datagrams that arrive. So is the JSON library.
pub mod Cache
pub mod Mdns
pub mod Udp
pub mod Service
mod Tests
use filedrop.Base.{
  ℕ, Bool, true, false, not, ◌||◌, Option, none, some, List, [], ◌∷◌, ◌==◌, nat_eq, list_eq,
  if◌then◌else◌, Text, text,
}
use filedrop.Base.Dict.{Dict, insert}
use filedrop.Errors.{Uuid}

pub record DiscoveredDevice : Type 0 where
  pub device_id : Uuid
  pub name : Text
  pub address : Text
  pub port : ℕ
  pub platform : Text
  pub paired : Bool

pub record AnnouncePacket : Type 0 where
  pub magic : Text
  pub device_id : Uuid
  pub name : Text
  pub port : ℕ
  pub platform : Text

-- `serde_json` on packets.
pub record Json : Type 0 where
  pub to_vec : AnnouncePacket → Option (List ℕ)
  pub from_slice : List ℕ → Option AnnouncePacket

-- `MAGIC`
abbrev pub announce_magic : Text
announce_magic = text "FILEDROP_ANNOUNCE_V1"

-- What `recv_from` gives: an error, or a datagram with the address of its sender.
abbrev pub Received : Type 0
Received = Option (List ℕ × Text)

module _ (json : Json) where
  -- The payload of the announcer task.
  unfoldable pub announcement : DiscoveredDevice → Option (List ℕ)
  announcement device = json.to_vec (record {
    magic = announce_magic;
    device_id = device.device_id;
    name = device.name;
    port = device.port;
    platform = device.platform;
  })

  abbrev pub parse_announce : List ℕ → Option AnnouncePacket
  parse_announce bytes = json.from_slice bytes

  -- One round of the listener task; `none` is `continue`.
  unfoldable pub listen_round : Uuid → Received → Option DiscoveredDevice
  listen_round self_id none = none
  listen_round self_id (some (bytes, from)) = elim (parse_announce bytes) [
    | none ↦ none
    | some packet ↦
        if not (packet.magic == announce_magic) || packet.device_id == self_id
        then none
        else some (record {
          device_id = packet.device_id;
          name = packet.name;
          address = from;
          port = packet.port;
          platform = packet.platform;
          paired = false;
        })
  ]

  -- The devices that the listener sends on.
  unfoldable pub listen : Uuid → List Received → List DiscoveredDevice
  unfolding listen_round
  listen self_id [] = []
  listen self_id (r ∷ rs) =
      let rest = listen self_id rs in
      elim (listen_round self_id r) [ none ↦ rest | some device ↦ device ∷ rest ]

-- `forward_devices`: each device with whether the next receiver is still there.
unfoldable pub forward_devices :
    List (DiscoveredDevice × Bool) → Dict Uuid DiscoveredDevice → Dict Uuid DiscoveredDevice
unfolding insert
forward_devices [] devices = devices
forward_devices ((device, sent) ∷ rest) devices =
    let seen = insert device.device_id device devices in
    let more = forward_devices rest seen in if sent then more else seen
