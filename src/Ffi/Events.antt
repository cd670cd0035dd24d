-- ===== src/Ffi/Events.antt =====
-- rust/filedrop-ffi/src/events.rs: the events that the application hears of. `serde_json` is an argument.
use filedrop.Base.{ℕ, Option, none, some, Text, text}
use filedrop.Errors.{Uuid}
use filedrop.Discovery.{DiscoveredDevice}
use filedrop.Transfer.Session.{Floats, TransferProgress}

-- `unwrap_or_else`
abbrev pub or_text : Text → Option Text → Text
or_text default none = default
or_text default (some s) = s

module _ (F : Floats) where
  pub data FileDropEvent : Type 0 where
    device_discovered : DiscoveredDevice → FileDropEvent
    device_connected : Uuid → FileDropEvent
    pairing_requested : Uuid → Text → Text → FileDropEvent
    transfer_started : Uuid → Text → ℕ → FileDropEvent
    transfer_progress : TransferProgress F → FileDropEvent
    transfer_paused : Uuid → FileDropEvent
    transfer_completed : Uuid → Text → FileDropEvent
    transfer_failed : Uuid → Text → FileDropEvent
    device_disconnected : Uuid → FileDropEvent

  unfoldable pub to_json : (to_string : FileDropEvent → Option Text) → FileDropEvent → Text
  to_json to_string event = or_text (text "{}") (to_string event)
