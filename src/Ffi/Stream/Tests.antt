-- ===== src/Ffi/Stream/Tests.antt =====
-- Runs of the two ways to the application at concrete inputs.
use filedrop.Base.{◌≡◌, refl, true, false, none, some, List, [], ◌∷◌, ◌++◌, arith, text, length}
use filedrop.Ffi.Events.{FileDropEvent, transfer_paused, transfer_failed}
use filedrop.Ffi.SampleChannel.{log_channel-IsBroadcast}
use filedrop.Ffi.Samples.{whole, channel, store}
use filedrop.Ffi.{event_channel_capacity, new_runtime}
use filedrop.Ffi.Stream.{Act, emits, asks, Turn, sends, runs, poll_run, subscribe_events}
use filedrop.Ffi.Stream.Mailbox.{replay, relay, emitted, got, left}
use filedrop.Ffi.Stream.Delivery.{poll_run-mailbox, subscribe_events-mailbox, poll_run-lossless}

abbrev failure : FileDropEvent whole
failure = transfer_failed 5 (text "network")

abbrev acts : List (Act (FileDropEvent whole))
acts = asks ∷ emits (transfer_paused 5) ∷ emits failure ∷ asks ∷ []

poll_run-mailbox_example :
    (poll_run whole channel acts (new_runtime whole channel store)).0 ≡ (replay acts []).0
poll_run-mailbox_example =
    poll_run-mailbox (log_channel-IsBroadcast (FileDropEvent whole) event_channel_capacity) acts
      store

poll_run-lossless_example :
    (waiting_at_end : List (FileDropEvent whole)) × (got
          (poll_run whole channel acts (new_runtime whole channel store)).0
        ++ waiting_at_end
      ≡ emitted acts)
    × (length waiting_at_end ≡ left 0 acts)
poll_run-lossless_example =
    poll_run-lossless (log_channel-IsBroadcast (FileDropEvent whole) event_channel_capacity) acts
      store (omega arith)

abbrev turns : List (Turn (FileDropEvent whole))
turns =
    sends failure ∷ runs true ∷ runs true ∷ sends (transfer_paused 5) ∷ runs false ∷ runs true ∷ []

subscribe_events-mailbox_example :
    subscribe_events whole channel turns (new_runtime whole channel store) ≡ relay turns []
subscribe_events-mailbox_example =
    subscribe_events-mailbox (log_channel-IsBroadcast (FileDropEvent whole) event_channel_capacity)
      turns (new_runtime whole channel store)

-- The sink gets the first event, then nothing, and is closed at the second.
subscribe_events_closed :
    subscribe_events whole channel turns (new_runtime whole channel store)
    ≡ some failure ∷ none ∷ none ∷ []
unfolding subscribe_events new_runtime
subscribe_events_closed = refl
