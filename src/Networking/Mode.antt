-- ===== src/Networking/Mode.antt =====
-- rust/filedrop-core/src/networking/mode.rs: what each platform can do without a router.
use filedrop.Base.{◌++◌, ◌==◌, nat_eq, list_eq, if◌then◌else◌, Text, text}

pub data ConnectionMode : Type 0 where
  existing_lan local_only_hotspot wifi_direct : ConnectionMode

pub data PlatformDirectCapability : Type 0 where
  available : ConnectionMode → PlatformDirectCapability
  requires_platform_channel : ConnectionMode → Text → PlatformDirectCapability
  unsupported : PlatformDirectCapability

android_reason : Text
android_reason =
    text "Android Wi-Fi Direct requires android.net.wifi.p2p.WifiP2pManager, callable "
    ++ (text "only from Kotlin/Java via a Flutter MethodChannel. TODO(phase5): implement "
        ++ (text "the Kotlin platform-channel handler and have it report link-established "
            ++ (text "IP/port back to Rust over FFI so filedrop-core can start its HTTP server on "
                ++ (text "that interface."))))

macos_reason : Text
macos_reason =
    text "macOS local-only hotspot / direct Bonjour link requires "
    ++ (text "NEHotspotConfiguration / Network.framework, callable only from "
        ++ (text "Swift/Objective-C via a Flutter platform channel, and requires the Hotspot "
            ++ (text
                  "Configuration entitlement. TODO(phase5): implement the Swift platform-channel "
                ++ (text
                      "handler; mdns-sd discovery (crate::discovery) can run over the resulting link "
                    ++ (text "unmodified once it exists.")))))

windows_reason : Text
windows_reason =
    text "Windows direct networking requires the WinRT Windows.Devices.WiFiDirect API. "
    ++ (text "Reachable from Rust via the `windows` crate in principle, but needs a Windows "
        ++ (text "target, appxmanifest capability declarations, and hardware to validate. "
            ++ (text
                "TODO(phase5): implement using the `windows` crate on a Windows-focused pass.")))

linux_reason : Text
linux_reason =
    text "Linux ad hoc hotspot AP creation is reachable generically via "
    ++ (text "NetworkManager's D-Bus API (e.g. through the `zbus` crate) without a Flutter "
        ++ (text "platform channel, making it the one 'no router' mode Rust could plausibly own "
            ++ (text "end-to-end. TODO(phase5): implement NetworkManager D-Bus hotspot control in "
                ++ (text "filedrop-core::networking."))))

-- `ConnectionMode::platform_capability`
unfoldable pub platform_capability : Text → PlatformDirectCapability
unfolding android_reason macos_reason windows_reason linux_reason
platform_capability target_os =
    if target_os == text "android"
    then requires_platform_channel wifi_direct android_reason
    else if target_os == text "macos"
    then requires_platform_channel local_only_hotspot macos_reason
    else if target_os == text "windows"
    then requires_platform_channel wifi_direct windows_reason
    else if target_os == text "linux"
    then requires_platform_channel local_only_hotspot linux_reason
    else unsupported
