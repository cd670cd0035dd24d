-- ===== src/Ffi/Stream.antt =====
-- How the events reach the application: `filedrop_poll_event` of rust/filedrop-ffi/src/c_abi.rs, and
-- `subscribe_events` of rust/filedrop-ffi/src/api/mod.rs.
pub mod Mailbox
pub mod Delivery
mod Tests
use filedrop.Base.{Bool, Option, none, some, List, [], ◌∷◌, if◌then◌else◌}
use filedrop.Transfer.Session.{Floats}
use filedrop.Ffi.Events.{FileDropEvent}
use filedrop.Ffi.Channel.{Received, value, lagged, closed, waiting, Broadcast}
use filedrop.Ffi.{Runtime, emit}

-- What the poller makes of the answer of `recv` within its 50 ms.
abbrev pub polled {ℓ} : {E : Type ℓ} → Received E → Option E
polled (value event) = some event
polled (lagged n) = none
polled closed = none
polled waiting = none

-- One round of the loop of `subscribe_events`, by whether the sink takes an event: what the sink gets,
-- and the receiver with which the loop goes on, if it does.
abbrev pub forward {ℓ κ} : {E : Type ℓ} {R : Type κ} → Bool → Received E × R → Option E × Option R
forward takes (value event, rx) = if takes then (some event, some rx) else (none, none)
forward takes (lagged n, rx) = (none, some rx)
forward takes (closed, rx) = (none, none)
forward takes (waiting, rx) = (none, some rx)

-- What happens, in the order in which it happens: some part of the program emits an event, or the
-- receiver is asked.
pub data Act {ℓ} (E : Type ℓ) : Type ℓ where
  emits : E → Act E
  asks : Act E

-- The same for the task that forwards: it runs one round of its loop, and the sink takes an event or not.
pub data Turn {ℓ} (E : Type ℓ) : Type ℓ where
  sends : E → Turn E
  runs : Bool → Turn E

module _ (F : Floats) (B : Broadcast (FileDropEvent F)) where
  -- The event that `filedrop_poll_event` answers with.
  unfoldable pub poll_event : Runtime F B → Option (FileDropEvent F) × Runtime F B
  poll_event rt =
      let out = B.recv rt.events_tx rt.poll_rx in (polled out.0, record rt { poll_rx = out.1 })

  unfoldable pub poll_run :
      List (Act (FileDropEvent F)) → Runtime F B → List (Option (FileDropEvent F)) × Runtime F B
  unfolding poll_event
  poll_run [] rt = ([], rt)
  poll_run (emits event ∷ acts) rt = poll_run acts (emit F B rt event)
  poll_run (asks ∷ acts) rt =
      let out = poll_event rt in let rest = poll_run acts out.1 in (out.0 ∷ rest.0, rest.1)

  -- The task of `subscribe_events`: what its sink gets, while other parts emit.
  unfoldable pub subscribe_run :
      List (Turn (FileDropEvent F)) → B.Sender → B.Receiver → List (Option (FileDropEvent F))
  subscribe_run [] tx rx = []
  subscribe_run (sends event ∷ turns) tx rx = subscribe_run turns (B.send tx event) rx
  subscribe_run (runs takes ∷ turns) tx rx =
      let on = subscribe_run turns tx in
      let out = forward takes (B.recv tx rx) in out.0 ∷ elim out.1 [ none ↦ [] | some rx' ↦ on rx' ]

  -- `runtime().events_tx.subscribe()`, and the loop.
  unfoldable pub subscribe_events :
      List (Turn (FileDropEvent F)) → Runtime F B → List (Option (FileDropEvent F))
  unfolding subscribe_run
  subscribe_events turns rt = subscribe_run turns rt.events_tx (B.subscribe rt.events_tx)
