-- ===== src/Ffi/Stream/Delivery.antt =====
-- The receivers of the program against the mailbox.
use filedrop.Base.{
  ◌+◌, ◌-◌, ◌≤◌, ◌<◌, ◌≡◌, refl, sym, ap, ◌∙◌, inl, inr, Bool, true, false, Option, none, some,
  List, [], ◌∷◌, ◌++◌, arith, ltb, Bool-cases, length, drop, length-append, length-drop, drop_all,
  drop-drop, drop-append, drop-get_elem?,
}
use filedrop.Transfer.Session.{Floats, Store}
use filedrop.Ffi.Events.{FileDropEvent}
use filedrop.Ffi.Channel.{Received, value, lagged, closed, waiting, Broadcast, IsBroadcast}
use filedrop.Ffi.{event_channel_capacity, Runtime, new_runtime, emit}
use filedrop.Ffi.Stream.{
  Act, emits, asks, Turn, sends, runs, polled, forward, poll_event, poll_run, subscribe_run,
  subscribe_events,
}
use filedrop.Ffi.Stream.Mailbox.{
  first, ask, replay, pass_on, relay, emitted, got, KeepsUp, left, replay-KeepsUp, left-replay,
  Shows,
}

abbrev is_closed {ℓ} : {E : Type ℓ} → Received E → Bool
is_closed closed = true
is_closed (value event) = false
is_closed (lagged n) = false
is_closed waiting = false

module _ {E : Type 0} {B : Broadcast E} (L : IsBroadcast B event_channel_capacity) where
  Shows-send :
      (tx : B.Sender) (rx : B.Receiver) (mailbox : List E) (event : E)
      → Shows L tx rx mailbox
      → Shows L (B.send tx event) rx (mailbox ++ (event ∷ []))
  Shows-send tx rx mailbox event h = record {
    ahead =
        ap (drop (L.seen rx)) (L.sent-send tx event)
        ∙ drop-append (L.seen rx) (L.sent tx) (event ∷ []) h.past
        ∙ ap (λ m. m ++ (event ∷ [])) h.ahead;
    past =
        omega
          (arith, h.past, ap length (L.sent-send tx event), length-append (L.sent tx) (event ∷ []));
  }

  Shows-length :
      (tx : B.Sender) (rx : B.Receiver) (mailbox : List E)
      → Shows L tx rx mailbox
      → length (L.sent tx) ≡ L.seen rx + length mailbox
  Shows-length tx rx mailbox h =
      omega (arith, h.past, length-drop (L.seen rx) (L.sent tx), ap length h.ahead)

  -- An answer of the channel, with the receiver after it, is that of the mailbox.
  abbrev pub Answers : B.Sender → Received E × B.Receiver → Option E × List E → Type 0
  Answers tx out answer =
      (polled out.0 ≡ answer.0) × (is_closed out.0 ≡ false) × Shows L tx out.1 answer.1

  recv-lagging :
      (tx : B.Sender) (rx : B.Receiver) (mailbox : List E)
      → Shows L tx rx mailbox
      → event_channel_capacity < length mailbox
      → Answers tx (B.recv tx rx) (none, drop (length mailbox - event_channel_capacity) mailbox)
  recv-lagging tx rx mailbox h late =
      let total = Shows-length tx rx mailbox h in
      let (answer, seen') = L.recv-lagged tx rx (omega (arith, total)) in
      let places : length (L.sent tx) - event_channel_capacity
          ≡ L.seen rx + (length mailbox - event_channel_capacity) =
        omega (arith, total) in
      (
        ap polled answer,
        ap is_closed answer,
        record {
          ahead =
              ap (λ n. drop n (L.sent tx)) (seen' ∙ places)
              ∙ sym (drop-drop (length mailbox - event_channel_capacity) (L.seen rx) (L.sent tx))
              ∙ ap (drop (length mailbox - event_channel_capacity)) h.ahead;
          past = omega (arith, total, seen');
        },
      )

  recv-first :
      (tx : B.Sender) (rx : B.Receiver) (mailbox : List E)
      → Shows L tx rx mailbox
      → length mailbox ≤ event_channel_capacity
      → Answers tx (B.recv tx rx) (first mailbox)
  recv-first tx rx [] h small =
      let (answer, seen') = L.recv-waiting tx rx (omega (arith, Shows-length tx rx [] h)) in
      (
        ap polled answer,
        ap is_closed answer,
        record {
          ahead = ap (λ n. drop n (L.sent tx)) seen' ∙ h.ahead;
          past = omega (arith, h.past, seen');
        },
      )
  recv-first tx rx (event ∷ rest) h small =
      let total = Shows-length tx rx (event ∷ rest) h in
      let (here, next) = drop-get_elem? (L.seen rx) (L.sent tx) rest event h.ahead in
      let (answer, seen') = L.recv-value tx rx event here (omega (arith, total)) in
      (
        ap polled answer,
        ap is_closed answer,
        record {
          ahead = ap (λ n. drop n (L.sent tx)) seen' ∙ next;
          past = omega (arith, total, seen');
        },
      )

  pub recv-ask :
      (tx : B.Sender) (rx : B.Receiver) (mailbox : List E)
      → Shows L tx rx mailbox
      → Answers tx (B.recv tx rx) (ask mailbox)
  unfolding ask
  recv-ask tx rx mailbox h = elim (Bool-cases (ltb event_channel_capacity (length mailbox))) [
    | inl late ↦ rw late (recv-lagging tx rx mailbox h (ground arith))
    | inr small ↦ rw small (recv-first tx rx mailbox h (ground arith))
  ]

  forward-pass_on :
      (tx : B.Sender) (takes : Bool) (out : Received E × B.Receiver) (answer : Option E × List E)
      (on : B.Receiver → List (Option E)) (more : List (Option E))
      → Answers tx out answer
      → on out.1 ≡ more
      → let passed = forward takes out in
        (passed.0 ∷ elim passed.1 [ none ↦ [] | some rx' ↦ on rx' ]) ≡ pass_on takes answer.0 more
  unfolding pass_on
  forward-pass_on tx takes (value event, rx) (none, m) on more h e = cc (h.0)
  forward-pass_on tx true (value event, rx) (some x, m) on more h e = cc (h.0)
  forward-pass_on tx false (value event, rx) (some x, m) on more h e = refl
  forward-pass_on tx takes (lagged n, rx) (none, m) on more h e = ap (◌∷◌ none) e
  forward-pass_on tx takes (lagged n, rx) (some x, m) on more h e = cc (h.0)
  forward-pass_on tx takes (closed, rx) (none, m) on more h e = cc (h.1)
  forward-pass_on tx takes (closed, rx) (some x, m) on more h e = cc (h.0)
  forward-pass_on tx takes (waiting, rx) (none, m) on more h e = ap (◌∷◌ none) e
  forward-pass_on tx takes (waiting, rx) (some x, m) on more h e = cc (h.0)

module _ {F : Floats} {B : Broadcast (FileDropEvent F)}
    (L : IsBroadcast B event_channel_capacity) where
  poll_run-replay :
      (acts : List (Act (FileDropEvent F))) (rt : Runtime F B) (mailbox : List (FileDropEvent F))
      → Shows L rt.events_tx rt.poll_rx mailbox
      → (poll_run F B acts rt).0 ≡ (replay acts mailbox).0
  unfolding poll_run replay poll_event
  poll_run-replay [] rt mailbox h = refl
  poll_run-replay (emits event ∷ acts) rt mailbox h =
      poll_run-replay acts (emit F B rt event) (mailbox ++ (event ∷ []))
        (Shows-send L rt.events_tx rt.poll_rx mailbox event h)
  poll_run-replay (asks ∷ acts) rt mailbox h =
      let (answer, _, after) = recv-ask L rt.events_tx rt.poll_rx mailbox h in
      let more =
        poll_run-replay acts (record rt { poll_rx = (B.recv rt.events_tx rt.poll_rx).1 })
          (ask mailbox).1 after in
      cc (answer, more)

  subscribe_run-relay :
      (turns : List (Turn (FileDropEvent F))) (tx : B.Sender) (rx : B.Receiver)
      (mailbox : List (FileDropEvent F))
      → Shows L tx rx mailbox
      → subscribe_run F B turns tx rx ≡ relay turns mailbox
  unfolding subscribe_run relay
  subscribe_run-relay [] tx rx mailbox h = refl
  subscribe_run-relay (sends event ∷ turns) tx rx mailbox h =
      subscribe_run-relay turns (B.send tx event) rx (mailbox ++ (event ∷ []))
        (Shows-send L tx rx mailbox event h)
  subscribe_run-relay (runs takes ∷ turns) tx rx mailbox h =
      let answers = recv-ask L tx rx mailbox h in
      forward-pass_on L tx takes (B.recv tx rx) (ask mailbox) (subscribe_run F B turns tx)
        (relay turns (ask mailbox).1) answers
        (subscribe_run-relay turns tx (B.recv tx rx).1 (ask mailbox).1 answers.2)

  -- Whatever is emitted, and however often the application polls, the answers of the poll are those of a
  -- mailbox: the events in their order, one for each poll, and nothing for a poll when no event is
  -- waiting or when more than 1024 are, of which then only the last 1024 are kept.
  pub poll_run-mailbox :
      (acts : List (Act (FileDropEvent F))) (store : Store)
      → (poll_run F B acts (new_runtime F B store)).0 ≡ (replay acts []).0
  unfolding new_runtime
  poll_run-mailbox acts store = poll_run-replay acts (new_runtime F B store) [] (record {
    ahead = simp (L.sent-channel, L.seen-channel) refl;
    past = omega (arith, L.seen-channel);
  })

  -- A subscription gets, of the events that are emitted after it began, what a mailbox gives, up to the
  -- first event that its sink refuses.
  pub subscribe_events-mailbox :
      (turns : List (Turn (FileDropEvent F))) (rt : Runtime F B)
      → subscribe_events F B turns rt ≡ relay turns []
  unfolding subscribe_events
  subscribe_events-mailbox turns rt =
      subscribe_run-relay turns rt.events_tx (B.subscribe rt.events_tx) [] (record {
        ahead =
            drop_all (L.seen (B.subscribe rt.events_tx)) (L.sent rt.events_tx)
              (omega (arith, L.seen-subscribe rt.events_tx));
        past = omega (arith, L.seen-subscribe rt.events_tx);
      })

  -- As long as no more than 1024 events wait when the application polls, every poll takes one of the events
  -- that wait, if there are any: what it gets is all that is emitted, in order and once each, but for
  -- the last ones, and those are as many as there are more events than polls to take them.
  pub poll_run-lossless :
      (acts : List (Act (FileDropEvent F))) (store : Store)
      → KeepsUp 0 acts
      → (waiting_at_end : List (FileDropEvent F)) × (got
              (poll_run F B acts (new_runtime F B store)).0
            ++ waiting_at_end
          ≡ emitted acts)
        × (length waiting_at_end ≡ left 0 acts)
  poll_run-lossless acts store h = (
    (replay acts []).1,
    ap (λ answers. got answers ++ (replay acts []).1) (poll_run-mailbox acts store)
        ∙ replay-KeepsUp acts [] h,
    left-replay acts [] h,
  )
