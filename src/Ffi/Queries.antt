-- ===== src/Ffi/Queries.antt =====
-- rust/filedrop-ffi/src/api/mod.rs: the calls that only look: the status of a transfer, the history, the
-- platform's capability and the local network.
use filedrop.Base.{Option, none, some, List, ◌++◌, map, Text, text}
use filedrop.Errors.{Uuid, Result, ok, err, display}
use filedrop.Networking.LanAddress.{IpAddr, Interface, usable_lan_ipv4}
use filedrop.Networking.Mode.{platform_capability}
use filedrop.Storage.History.{list}
use filedrop.Transfer.Queue.{find_session}
use filedrop.Transfer.Session.{Floats, in_progress, progress}
use filedrop.Ffi.Events.{FileDropEvent}
use filedrop.Ffi.Channel.{Broadcast}
use filedrop.Ffi.Dto.{
  TransferProgressDto, TransferRecordDto, PlatformDirectCapabilityDto, of_progress, of_record,
  of_capability,
}
use filedrop.Ffi.{Reply, done, refused, not_initialized, Runtime}

module _ {F : Floats} {B : Broadcast (FileDropEvent F)} (show_uuid : Uuid → Text) where
  -- The time since the session began is an argument.
  unfoldable pub get_transfer_status : F.F64 → Runtime F B → Uuid → Reply (TransferProgressDto F)
  unfolding of_progress progress
  get_transfer_status elapsed rt transfer_id = elim rt.engine [
    | none ↦ refused not_initialized
    | some eng ↦ elim (find_session eng.queue transfer_id) [
      | none ↦ refused (text "transfer " ++ (show_uuid transfer_id ++ text " not found"))
      | some s ↦ done (of_progress F (progress F rt.store s elapsed in_progress none))
    ]
  ]

module _ {F : Floats} {B : Broadcast (FileDropEvent F)} where
  -- The order of the records of equal times is that of the map.
  unfoldable pub get_transfer_history :
      (to_string_lossy : Text → Text) → Runtime F B → Reply (List TransferRecordDto)
  unfolding of_record list
  get_transfer_history to_string_lossy rt = elim rt.engine [
    | none ↦ refused not_initialized
    | some eng ↦ done (map (of_record to_string_lossy) (list eng.history))
  ]

unfoldable pub platform_direct_capability : Text → PlatformDirectCapabilityDto
unfolding of_capability platform_capability
platform_direct_capability target_os = of_capability (platform_capability target_os)

shown : (Uuid → Text) → (IpAddr → Text) → Result (Option IpAddr) → Reply (Option Text)
shown show_uuid show_ip (err e) = refused (display show_uuid e)
shown show_uuid show_ip (ok none) = done none
shown show_uuid show_ip (ok (some ip)) = done (some (show_ip ip))

-- `show_ip` is the `Display` of `IpAddr`.
unfoldable pub check_usable_lan :
    (show_uuid : Uuid → Text) (show_ip : IpAddr → Text)
    → Result (List Interface)
    → Reply (Option Text)
unfolding shown usable_lan_ipv4
check_usable_lan show_uuid show_ip interfaces = shown show_uuid show_ip (usable_lan_ipv4 interfaces)
