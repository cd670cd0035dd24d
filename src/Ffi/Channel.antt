-- ===== src/Ffi/Channel.antt =====
-- The broadcast channel that rust/filedrop-ffi/src/runtime.rs takes from the crate `tokio`: its operations,
-- and what its documentation promises.
use filedrop.Base.{ℕ, ◌+◌, ◌-◌, ◌≤◌, ◌<◌, ◌≡◌, some, List, [], ◌∷◌, ◌++◌, length, get_elem?}

-- What an attempt to receive comes to: a value, the number of values that were skipped, the end of the
-- channel, or nothing yet.
pub data Received {ℓ} (E : Type ℓ) : Type ℓ where
  value : E → Received E
  lagged : ℕ → Received E
  closed : Received E
  waiting : Received E

pub record Broadcast (E : Type 0) : Type 1 where
  pub Sender : Type 0
  pub Receiver : Type 0
  pub channel : ℕ → Sender × Receiver
  pub send : Sender → E → Sender
  pub subscribe : Sender → Receiver
  pub recv : Sender → Receiver → Received E × Receiver

-- With `sent` for the values that were sent and `seen` for the number of those that a receiver is past:
-- a receiver gets the values that are sent after it has subscribed, one by one and in order; when more
-- than the capacity are ahead of it, it is told how many it has lost and goes on with the oldest that
-- is kept. Neither `closed` nor an error of `send` occurs while sender and receiver are alive.
pub record IsBroadcast {E : Type 0} (B : Broadcast E) (capacity : ℕ) : Type 0 where
  pub sent : B.Sender → List E
  pub seen : B.Receiver → ℕ
  pub sent-channel : sent (B.channel capacity).0 ≡ []
  pub seen-channel : seen (B.channel capacity).1 ≡ 0
  pub sent-send : (s : B.Sender) (e : E) → sent (B.send s e) ≡ sent s ++ (e ∷ [])
  pub seen-subscribe : (s : B.Sender) → seen (B.subscribe s) ≡ length (sent s)
  pub recv-value :
      (s : B.Sender) (r : B.Receiver) (e : E)
      → get_elem? (sent s) (seen r) ≡ some e
      → length (sent s) ≤ seen r + capacity
      → ((B.recv s r).0 ≡ value e) × (seen (B.recv s r).1 ≡ seen r + 1)
  pub recv-lagged :
      (s : B.Sender) (r : B.Receiver)
      → seen r + capacity < length (sent s)
      → ((B.recv s r).0 ≡ lagged (length (sent s) - capacity - seen r))
        × (seen (B.recv s r).1 ≡ length (sent s) - capacity)
  pub recv-waiting :
      (s : B.Sender) (r : B.Receiver)
      → length (sent s) ≤ seen r
      → ((B.recv s r).0 ≡ waiting) × (seen (B.recv s r).1 ≡ seen r)
