-- ===== src/Ffi/Control.antt =====
-- rust/filedrop-ffi/src/api/mod.rs: accepting, rejecting, pausing, resuming and cancelling a transfer.
use filedrop.Base.{
  ◌≡◌, refl, ap, ◌∙◌, Bool, true, false, none, some, ◌++◌, arith, nat_eq, Text, text,
}
use filedrop.Base.Dict.{lookup}
use filedrop.Errors.{Uuid, device_not_found, Result, ok, err, display}
use filedrop.Pairing.{PairingState, PairingStateMachine, confirm}
use filedrop.Transfer.Session.{
  Floats, TransferSession, Store, pause, resume, cancel, is_paused, is_cancelled, bytes_transferred,
}
use filedrop.Transfer.Queue.{find_session}
use filedrop.Engine.{FileDropEngine}
use filedrop.Ffi.Events.{FileDropEvent, transfer_paused}
use filedrop.Ffi.Channel.{Broadcast}
use filedrop.Ffi.{Reply, done, refused, Runtime, emit, not_initialized}

confirm-unknown :
    (m : PairingStateMachine) (id : Uuid) (accept : Bool)
    → lookup id m ≡ none
    → confirm m id accept ≡ (err (device_not_found id), m)
unfolding confirm
confirm-unknown m id accept k = rw (k, confirm) refl

module _ {F : Floats} {B : Broadcast (FileDropEvent F)} (show_uuid : Uuid → Text) where
  unfoldable pub confirmed :
      Runtime F B
      → FileDropEngine
      → Result PairingState × PairingStateMachine
      → Reply (Unit {0}) × Runtime F B
  confirmed rt eng (ok s, m) = (done tt, record rt { engine = some (record eng { pairing = m }) })
  confirmed rt eng (err e, m) =
      (refused (display show_uuid e), record rt { engine = some (record eng { pairing = m }) })

  abbrev answer_transfer : Bool → Runtime F B → Uuid → Reply (Unit {0}) × Runtime F B
  answer_transfer accept rt transfer_id = elim rt.engine [
    | none ↦ (refused not_initialized, rt)
    | some eng ↦ confirmed rt eng (confirm eng.pairing transfer_id accept)
  ]

  unfoldable pub accept_transfer : Runtime F B → Uuid → Reply (Unit {0}) × Runtime F B
  unfolding confirmed
  accept_transfer rt transfer_id = answer_transfer true rt transfer_id

  unfoldable pub reject_transfer : Runtime F B → Uuid → Reply (Unit {0}) × Runtime F B
  unfolding confirmed
  reject_transfer rt transfer_id = answer_transfer false rt transfer_id

  -- A call on the session of an active transfer, with the event that it emits.
  unfoldable pub on_session :
      (Store → TransferSession → Store)
      → (Runtime F B → Runtime F B)
      → Runtime F B
      → Uuid
      → Reply (Unit {0}) × Runtime F B
  on_session f announce rt transfer_id = elim rt.engine [
    | none ↦ (refused not_initialized, rt)
    | some eng ↦ elim (find_session eng.queue transfer_id) [
      | none ↦ (refused (text "transfer " ++ (show_uuid transfer_id ++ text " not active")), rt)
      | some s ↦ (done tt, announce (record rt { store = f rt.store s }))
    ]
  ]

  abbrev pub pause_transfer : Runtime F B → Uuid → Reply (Unit {0}) × Runtime F B
  pause_transfer rt transfer_id =
      on_session pause (λ r. emit F B r (transfer_paused transfer_id)) rt transfer_id

  abbrev pub resume_transfer : Runtime F B → Uuid → Reply (Unit {0}) × Runtime F B
  resume_transfer = on_session resume (λ r. r)

  abbrev pub cancel_transfer : Runtime F B → Uuid → Reply (Unit {0}) × Runtime F B
  cancel_transfer = on_session cancel (λ r. r)

  on_session-active :
      (f : Store → TransferSession → Store) (announce : Runtime F B → Runtime F B)
      (rt : Runtime F B) (eng : FileDropEngine) (transfer_id : Uuid) (s : TransferSession)
      → rt.engine ≡ some eng
      → find_session eng.queue transfer_id ≡ some s
      → on_session f announce rt transfer_id
        ≡ (done tt, announce (record rt { store = f rt.store s }))
  unfolding on_session
  on_session-active f announce rt eng transfer_id s h k = simp (h, k, on_session) refl

  -- Pausing and then resuming an active transfer leaves the queue and the pairings as they were, and
  -- every session but for the pause of this one; the pause is announced, and afterwards the transfer's
  -- session is not paused.
  pub resume_transfer-pause_transfer :
      (rt : Runtime F B) (eng : FileDropEngine) (transfer_id : Uuid) (s : TransferSession)
      → rt.engine ≡ some eng
      → find_session eng.queue transfer_id ≡ some s
      → (t : Store) × ((resume_transfer (pause_transfer rt transfer_id).1 transfer_id)
          ≡ (done tt, emit F B (record rt { store = t }) (transfer_paused transfer_id)))
        × ((is_paused t s ≡ false)
            × ((is_cancelled t s ≡ is_cancelled rt.store s)
                × (bytes_transferred t s ≡ bytes_transferred rt.store s)))
  resume_transfer-pause_transfer rt eng transfer_id s h f = (
    resume (pause rt.store s) s,
    (let announce : Runtime F B → Runtime F B = λ r. emit F B r (transfer_paused transfer_id) in
        ap (λ r. resume_transfer r.1 transfer_id)
          (on_session-active pause announce rt eng transfer_id s h f)
        ∙ on_session-active resume (λ r. r) (announce (record rt { store = pause rt.store s })) eng
            transfer_id s h f),
    (ground arith, (ground arith, ground arith)),
  )

  -- Accepting a transfer looks its id up among the peers that are to be paired: with an id that is no
  -- peer's, whatever transfers there are, the call fails as for an unknown device and changes nothing.
  pub accept_transfer-unpaired :
      (rt : Runtime F B) (eng : FileDropEngine) (transfer_id : Uuid)
      → rt.engine ≡ some eng
      → lookup transfer_id eng.pairing ≡ none
      → accept_transfer rt transfer_id ≡ (
        refused (display show_uuid (device_not_found transfer_id)),
        record rt { engine = some eng },
      )
  unfolding accept_transfer confirmed
  accept_transfer-unpaired rt eng transfer_id h k =
      rw (h, accept_transfer, answer_transfer)
        (rw (confirm-unknown eng.pairing transfer_id true k, confirmed) refl)
