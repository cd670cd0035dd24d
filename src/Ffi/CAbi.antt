-- ===== src/Ffi/CAbi.antt =====
-- rust/filedrop-ffi/src/c_abi.rs: the C interface. A C string is given by its bytes before the NUL, and
-- returned as the text whose UTF-8 form it is; `serde_json` and `uuid` are arguments.
pub mod Calls
pub mod Envelope
pub mod Machine
pub mod Responses
pub mod Whole
pub mod Run
mod Tests
use filedrop.Base.{
  ℕ, Bool, true, false, Option, none, some, List, [], ◌∷◌, ◌++◌, ◌==◌, nat_eq, if◌then◌else◌, any,
  Text, text,
}
use filedrop.Base.Utf8.Decode.{from_utf8}
use filedrop.Errors.{Uuid}
use filedrop.Transfer.Session.{Floats}
use filedrop.Ffi.Dto.{
  ResolvedEndpointDto, DiscoveredDeviceDto, QrPairingPayloadDto, TransferProgressDto,
  TransferRecordDto,
}
use filedrop.Ffi.Events.{FileDropEvent, or_text, to_json}
use filedrop.Ffi.{Reply, done, refused}

-- The body of `filedrop_send_files`.
pub record Req : Type 0 where
  pub peer_address : Text
  pub peer_port : ℕ
  pub peer_device_id : Uuid
  pub file_paths : List Text

-- `serde_json::to_string` by type, and the two `from_str` with the messages of their failures; the
-- `Display` of `Uuid`, `Uuid::parse_str`, and `to_string_lossy` on paths.
pub record Serde (F : Floats) : Type 0 where
  pub show_uuid : Uuid → Text
  pub to_string_lossy : Text → Text
  pub parse_uuid : Text → Option Uuid
  pub of_string : Text → Option Text
  pub of_endpoint : ResolvedEndpointDto → Option Text
  pub of_devices : List DiscoveredDeviceDto → Option Text
  pub of_payload : QrPairingPayloadDto → Option Text
  pub of_ids : List Uuid → Option Text
  pub of_progress : TransferProgressDto F → Option Text
  pub of_history : List TransferRecordDto → Option Text
  pub of_event : FileDropEvent F → Option Text
  pub to_device : Text → Reply DiscoveredDeviceDto
  pub to_request : Text → Reply Req

-- A pointer that a caller hands over: null, or the bytes before the NUL.
abbrev pub CStr : Type 0
CStr = Option (List ℕ)

unfoldable pub from_c_string : CStr → Option Text
unfolding from_utf8
from_c_string none = none
from_c_string (some bytes) = from_utf8 bytes

abbrev pub nul_response : Text
nul_response = text "{\"error\":\"interior NUL in response\"}"

-- `CString::new` refuses a text with a NUL.
unfoldable pub to_c_string : Text → Text
to_c_string s = if any (λ c. c == 0) s then nul_response else s

module _ {F : Floats} (serde : Serde F) where
  unfoldable pub json_err : Text → Text
  json_err msg =
      text "{\"ok\":false,\"error\":" ++ (or_text (text "") (serde.of_string msg) ++ text "}")

  unfoldable pub ok_or_err : Reply (Unit {0}) → Text
  unfolding json_err
  ok_or_err (done _) = text "{\"ok\":true}"
  ok_or_err (refused e) = json_err e

  -- `{"ok":true,"<field>":<body>}`, where the body could be serialized.
  unfoldable pub ok_body : Text → Option Text → Text
  unfolding json_err
  ok_body field none = json_err (text "serialization failure")
  ok_body field (some body) =
      text "{\"ok\":true,\"" ++ (field ++ (text "\":" ++ (body ++ text "}")))

  unfoldable pub body_or_err {ℓ} : {A : Type ℓ} → Text → (A → Option Text) → Reply A → Text
  unfolding ok_body json_err
  body_or_err field of_body (done a) = ok_body field (of_body a)
  body_or_err field of_body (refused e) = json_err e

  -- The two calls whose result is not put into an envelope.
  unfoldable pub list_or_err {ℓ} : {A : Type ℓ} → (A → Option Text) → Reply A → Text
  unfolding json_err
  list_or_err of_list (done a) = or_text (text "[]") (of_list a)
  list_or_err of_list (refused e) = json_err e

  -- The result of `filedrop_init_engine`.
  unfoldable pub init_body : Reply Uuid → Text
  unfolding json_err
  init_body (done id) = text "{\"ok\":true,\"device_id\":\"" ++ (serde.show_uuid id ++ text "\"}")
  init_body (refused e) = json_err e

  -- What `filedrop_poll_event` writes.
  unfoldable pub event_text : Option (FileDropEvent F) → Text
  unfolding to_json
  event_text none = text "null"
  event_text (some event) = to_json F serde.of_event event
