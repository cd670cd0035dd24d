-- ===== src/Ffi/Dto.antt =====
-- rust/filedrop-ffi/src/api/mod.rs: the types that cross the bridge, and the conversions into them.
use filedrop.Base.{ℕ, Bool, Option, Text}
use filedrop.Base.Dict.{map_option}
use filedrop.Base.Words.{ℤ}
use filedrop.Errors.{Uuid}
use filedrop.Discovery.{DiscoveredDevice}
use filedrop.Networking.Mode
use filedrop.Networking.Mode.{ConnectionMode, PlatformDirectCapability}
use filedrop.Pairing.Qr.{QrPairingPayload}
use filedrop.Storage.History
use filedrop.Storage.History.{TransferRecordStatus, TransferRecord}
use filedrop.Transfer.Session
use filedrop.Transfer.Session.{Floats, TransferStatus, TransferProgress}
use filedrop.Ffi.Events
use filedrop.Ffi.Events.{FileDropEvent}

pub record ResolvedEndpointDto : Type 0 where
  pub address : Text
  pub port : ℕ

pub record DiscoveredDeviceDto : Type 0 where
  pub device_id : Uuid
  pub name : Text
  pub address : Text
  pub port : ℕ
  pub platform : Text
  pub paired : Bool

unfoldable pub to_device : DiscoveredDeviceDto → DiscoveredDevice
to_device dto = record {
  device_id = dto.device_id;
  name = dto.name;
  address = dto.address;
  port = dto.port;
  platform = dto.platform;
  paired = dto.paired;
}

unfoldable pub of_device : DiscoveredDevice → DiscoveredDeviceDto
of_device d = record {
  device_id = d.device_id;
  name = d.name;
  address = d.address;
  port = d.port;
  platform = d.platform;
  paired = d.paired;
}

pub record QrPairingPayloadDto : Type 0 where
  pub version : ℕ
  pub device_id : Uuid
  pub device_name : Text
  pub address : Text
  pub port : ℕ
  pub token : Text
  pub expires_at : ℤ

unfoldable pub to_payload : QrPairingPayloadDto → QrPairingPayload
to_payload dto = record {
  version = dto.version;
  device_id = dto.device_id;
  device_name = dto.device_name;
  address = dto.address;
  port = dto.port;
  token = dto.token;
  expires_at = dto.expires_at;
}

pub data TransferStatusDto : Type 0 where
  queued connecting in_progress paused completed failed cancelled : TransferStatusDto

unfoldable pub of_status : TransferStatus → TransferStatusDto
of_status Session.TransferStatus.queued = queued
of_status Session.TransferStatus.connecting = connecting
of_status Session.TransferStatus.in_progress = in_progress
of_status Session.TransferStatus.paused = paused
of_status Session.TransferStatus.completed = completed
of_status Session.TransferStatus.failed = failed
of_status Session.TransferStatus.cancelled = cancelled

pub data TransferRecordStatusDto : Type 0 where
  completed failed cancelled : TransferRecordStatusDto

unfoldable pub of_record_status : TransferRecordStatus → TransferRecordStatusDto
of_record_status History.TransferRecordStatus.completed = TransferRecordStatusDto.completed
of_record_status History.TransferRecordStatus.failed = TransferRecordStatusDto.failed
of_record_status History.TransferRecordStatus.cancelled = TransferRecordStatusDto.cancelled

pub record TransferRecordDto : Type 0 where
  pub id : Uuid
  pub file_name : Text
  pub file_size_bytes : ℕ
  pub peer_device_id : Uuid
  pub peer_name : Text
  pub outgoing : Bool
  pub status : TransferRecordStatusDto
  pub sha256 : Option Text
  pub started_at : ℤ
  pub completed_at : ℤ
  pub saved_path : Option Text

-- `to_string_lossy` is that of the library, on a path.
unfoldable pub of_record : (to_string_lossy : Text → Text) → TransferRecord → TransferRecordDto
unfolding of_record_status
of_record to_string_lossy r = record {
  id = r.id;
  file_name = r.file_name;
  file_size_bytes = r.file_size_bytes;
  peer_device_id = r.peer_device_id;
  peer_name = r.peer_name;
  outgoing = r.outgoing;
  status = of_record_status r.status;
  sha256 = r.sha256;
  started_at = r.started_at;
  completed_at = r.completed_at;
  saved_path = map_option to_string_lossy r.saved_path;
}

pub data ConnectionModeDto : Type 0 where
  existing_lan local_only_hotspot wifi_direct : ConnectionModeDto

unfoldable pub of_mode : ConnectionMode → ConnectionModeDto
of_mode Mode.ConnectionMode.existing_lan = existing_lan
of_mode Mode.ConnectionMode.local_only_hotspot = local_only_hotspot
of_mode Mode.ConnectionMode.wifi_direct = wifi_direct

pub data PlatformDirectCapabilityDto : Type 0 where
  available : ConnectionModeDto → PlatformDirectCapabilityDto
  requires_platform_channel : ConnectionModeDto → Text → PlatformDirectCapabilityDto
  unsupported : PlatformDirectCapabilityDto

unfoldable pub of_capability : PlatformDirectCapability → PlatformDirectCapabilityDto
unfolding of_mode
of_capability (Mode.PlatformDirectCapability.available mode) = available (of_mode mode)
of_capability (Mode.PlatformDirectCapability.requires_platform_channel mode reason) =
    requires_platform_channel (of_mode mode) reason
of_capability Mode.PlatformDirectCapability.unsupported = unsupported

module _ (F : Floats) where
  pub record TransferProgressDto : Type 0 where
    pub transfer_id : Uuid
    pub file_name : Text
    pub bytes : ℕ
    pub total : ℕ
    pub status : TransferStatusDto
    pub bytes_per_sec : F.F64
    pub error : Option Text

  unfoldable pub of_progress : TransferProgress F → TransferProgressDto
  unfolding of_status
  of_progress p = record {
    transfer_id = p.transfer_id;
    file_name = p.file_name;
    bytes = p.bytes;
    total = p.total;
    status = of_status p.status;
    bytes_per_sec = p.bytes_per_sec;
    error = p.error;
  }

  pub data FileDropEventDto : Type 0 where
    device_discovered : DiscoveredDeviceDto → FileDropEventDto
    device_connected : Uuid → FileDropEventDto
    pairing_requested : Uuid → Text → Text → FileDropEventDto
    transfer_started : Uuid → Text → ℕ → FileDropEventDto
    transfer_progress : TransferProgressDto → FileDropEventDto
    transfer_paused : Uuid → FileDropEventDto
    transfer_completed : Uuid → Text → FileDropEventDto
    transfer_failed : Uuid → Text → FileDropEventDto
    device_disconnected : Uuid → FileDropEventDto

  unfoldable pub of_event : FileDropEvent F → FileDropEventDto
  unfolding of_device of_progress
  of_event (Events.FileDropEvent.device_discovered device) = device_discovered (of_device device)
  of_event (Events.FileDropEvent.device_connected device_id) = device_connected device_id
  of_event (Events.FileDropEvent.pairing_requested device_id device_name token) =
      pairing_requested device_id device_name token
  of_event (Events.FileDropEvent.transfer_started transfer_id file_name total_bytes) =
      transfer_started transfer_id file_name total_bytes
  of_event (Events.FileDropEvent.transfer_progress progress) =
      transfer_progress (of_progress progress)
  of_event (Events.FileDropEvent.transfer_paused transfer_id) = transfer_paused transfer_id
  of_event (Events.FileDropEvent.transfer_completed transfer_id sha256) =
      transfer_completed transfer_id sha256
  of_event (Events.FileDropEvent.transfer_failed transfer_id error) =
      transfer_failed transfer_id error
  of_event (Events.FileDropEvent.device_disconnected device_id) = device_disconnected device_id
