-- ===== src/Ffi/PairDevice.antt =====
-- rust/filedrop-ffi/src/api/mod.rs: `pair_device`. The clock, the random bytes and the encoding are
-- arguments, and so is the route of this machine.
pub mod Payload
mod Tests
use filedrop.Base.{ℕ, Option, none, some, List, Text, text}
use filedrop.Base.Words.{ℤ, pos, add_i64}
use filedrop.Engine.{FileDropEngine}
use filedrop.Errors.{Uuid, Result}
use filedrop.Networking.LanAddress.{UdpRoute, local_ipv4_addresses}
use filedrop.Networking.PortScan.{default_port}
use filedrop.Pairing.{now_unix, create_request}
use filedrop.Pairing.Token.{generate_pairing_token}
use filedrop.Transfer.Session.{Floats}
use filedrop.Ffi.Events.{FileDropEvent, pairing_requested}
use filedrop.Ffi.Channel.{Broadcast}
use filedrop.Ffi.Dto.{QrPairingPayloadDto}
use filedrop.Ffi.Startup.{first_or}
use filedrop.Ffi.{Reply, done, refused, not_initialized, Runtime, emit}

-- The clock as `create_request` and `chrono_now_plus_secs` read it, one after the other.
pub record Surroundings : Type 0 where
  pub encode : List ℕ → Text
  pub random_bytes : List ℕ
  pub clock : Option ℕ
  pub clock_after : Option ℕ
  pub route : UdpRoute

unfoldable pub chrono_now_plus_secs : Option ℕ → ℤ → ℤ
unfolding add_i64
chrono_now_plus_secs clock secs = add_i64 (now_unix clock) secs

-- The payload, with the token that is drawn.
unfoldable pub payload : Surroundings → FileDropEngine → Text → QrPairingPayloadDto
unfolding chrono_now_plus_secs local_ipv4_addresses
payload env eng token = record {
  version = 1;
  device_id = eng.device_id;
  device_name = eng.device_name;
  address = first_or (text "") (local_ipv4_addresses env.route);
  port = default_port;
  token = token;
  expires_at = chrono_now_plus_secs env.clock_after (pos 300);
}

module _ {F : Floats} {B : Broadcast (FileDropEvent F)} where
  unfoldable pub pair_device :
      Surroundings → Runtime F B → Uuid → Text → Reply QrPairingPayloadDto × Runtime F B
  unfolding payload generate_pairing_token create_request
  pair_device env rt peer_device_id peer_name = elim rt.engine [
    | none ↦ (refused not_initialized, rt)
    | some eng ↦
        let token = generate_pairing_token env.encode env.random_bytes in
        let pairing =
          (create_request eng.pairing env.clock peer_device_id peer_name token (pos 300)).1 in
        (
          done (payload env eng token),
          emit F B (record rt { engine = some (record eng { pairing = pairing }) })
              (pairing_requested peer_device_id peer_name token),
        )
  ]
