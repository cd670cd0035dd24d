-- ===== src/Pairing.antt =====
-- rust/filedrop-core/src/pairing/state.rs: the pairing state machine. The map behind the lock is the
-- state; the lock makes each method one step. The clock is an argument: the seconds that
-- `duration_since(UNIX_EPOCH)` gives, or `none` if it fails.
pub mod Qr
pub mod Token
pub mod Steps
pub mod History
mod Tests
use filedrop.Base.{
  ℕ, ◌≡◌, Bool, true, false, not, ◌&&◌, Option, none, some, List, [], ◌∷◌, ◌==◌, nat_eq, Eq,
  if◌then◌else◌, Text,
}
use filedrop.Base.Dict.{Dict, lookup, insert, map_values}
use filedrop.Base.Words.{ℤ, pos, leb_ℤ, as_i64, add_i64}
use filedrop.Errors.{Uuid, invalid_pairing_token, device_not_found, Result, ok, err}
use filedrop.Security.Token.{tokens_match}

pub data PairingState : Type 0 where
  pending awaiting_confirmation paired rejected : PairingState

pub record PairingRequest : Type 0 where
  pub peer_device_id : Uuid
  pub peer_name : Text
  pub token : Text
  pub state : PairingState
  pub created_at : ℤ
  pub expires_at : ℤ

abbrev pub PairingStateMachine : Type 0
PairingStateMachine = Dict Uuid PairingRequest

abbrev pub empty_machine : PairingStateMachine
empty_machine = []

abbrev pub is_expired : PairingRequest → ℤ → Bool
is_expired r now = leb_ℤ r.expires_at now

-- `now_unix`
abbrev pub now_unix : Option ℕ → ℤ
now_unix none = pos 0
now_unix (some secs) = as_i64 secs

unfoldable pub create_request :
    PairingStateMachine → Option ℕ → Uuid → Text → Text → ℤ → PairingRequest × PairingStateMachine
unfolding insert add_i64
create_request m clock peer name token ttl_secs =
    let now : ℤ = now_unix clock in
    let request : PairingRequest = record {
      peer_device_id = peer;
      peer_name = name;
      token = token;
      state = pending;
      created_at = now;
      expires_at = add_i64 now ttl_secs;
    } in
    (request, insert peer request m)

-- `request.state = s`, through the mutable reference into the map.
abbrev pub set_state : PairingRequest → PairingState → PairingRequest
set_state r s = record r { state = s }

unfoldable pub present_token :
    PairingStateMachine → Option ℕ → Uuid → Text → Result (Unit {0}) × PairingStateMachine
unfolding lookup insert tokens_match
present_token m clock peer presented = elim (lookup peer m) [
  | none ↦ (err invalid_pairing_token, m)
  | some r ↦
      if is_expired r (now_unix clock)
      then (err invalid_pairing_token, insert peer (set_state r rejected) m)
      else if not (tokens_match r.token presented)
      then (err invalid_pairing_token, m)
      else (ok tt, insert peer (set_state r awaiting_confirmation) m)
]

unfoldable pub confirm :
    PairingStateMachine → Uuid → Bool → Result PairingState × PairingStateMachine
unfolding lookup insert
confirm m peer accept = elim (lookup peer m) [
  | none ↦ (err (device_not_found peer), m)
  | some r ↦
      let s : PairingState = if accept then paired else rejected in
      (ok s, insert peer (set_state r s) m)
]

abbrev pub get : PairingStateMachine → Uuid → Option PairingRequest
get m peer = lookup peer m

abbrev pub state_of : Option PairingRequest → Option PairingState
state_of none = none
state_of (some r) = some r.state

abbrev is_paired_state : PairingState → Bool
is_paired_state pending = false
is_paired_state awaiting_confirmation = false
is_paired_state paired = true
is_paired_state rejected = false

abbrev pub is_paired_request : Option PairingRequest → Bool
is_paired_request none = false
is_paired_request (some r) = is_paired_state r.state

unfoldable pub is_paired : PairingStateMachine → Uuid → Bool
unfolding lookup
is_paired m peer = is_paired_request (lookup peer m)

-- What the sweep does to one request.
abbrev pub swept : ℤ → PairingRequest → PairingRequest
swept now r = if not (is_paired_state r.state) && is_expired r now then set_state r rejected else r

unfoldable pub sweep_expired : PairingStateMachine → Option ℕ → PairingStateMachine
sweep_expired m clock = map_values (swept (now_unix clock)) m
