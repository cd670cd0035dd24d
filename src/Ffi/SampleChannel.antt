-- ===== src/Ffi/SampleChannel.antt =====
-- A broadcast channel that meets the promises: the sender keeps all values, a receiver its place.
use filedrop.Base.{
  ℕ, zero, suc, ◌+◌, ◌-◌, ◌≤◌, ◌≡◌, refl, Option, none, some, List, [], ◌∷◌, ◌++◌, arith, ltb,
  if◌then◌else◌, length, get_elem?,
}
use filedrop.Ffi.Channel.{Received, value, lagged, waiting, Broadcast, IsBroadcast}

module _ {E : Type 0} where
  abbrev answer : List E → ℕ → Option E → Received E × ℕ
  answer log place none = (waiting, place)
  answer log place (some event) = (value event, place + 1)

  abbrev receive : ℕ → List E → ℕ → Received E × ℕ
  receive capacity log place =
      if ltb (place + capacity) (length log)
      then (lagged (length log - capacity - place), length log - capacity)
      else answer log place (get_elem? log place)

  get_elem?-past : (log : List E) (n : ℕ) → length log ≤ n → get_elem? log n ≡ none
  get_elem?-past [] n h = refl
  get_elem?-past (x ∷ log) zero h = absurd (omega arith)
  get_elem?-past (x ∷ log) (suc n) h = get_elem?-past log n (omega arith)

abbrev pub log_channel : (E : Type 0) → ℕ → Broadcast E
log_channel E capacity = record {
  Sender = List E;
  Receiver = ℕ;
  channel = λ n. ([], 0);
  send = λ log event. log ++ (event ∷ []);
  subscribe = λ log. length log;
  recv = receive capacity;
}

pub log_channel-IsBroadcast :
    (E : Type 0) (capacity : ℕ) → IsBroadcast (log_channel E capacity) capacity
log_channel-IsBroadcast E capacity = record {
  sent = λ log. log;
  seen = λ place. place;
  sent-channel = refl;
  seen-channel = refl;
  sent-send = λ log event. refl;
  seen-subscribe = λ log. refl;
  recv-value = λ log place event here near. ground arith;
  recv-lagged = λ log place late. ground arith;
  recv-waiting = λ log place all. ground (arith, get_elem?-past log place all);
}
