-- ===== src/Discovery/Udp.antt =====
-- rust/filedrop-core/src/discovery/udp_broadcast.rs: starting and stopping the announcer and the listener.
use filedrop.Base.{ℕ, ◌≡◌, refl, Bool, true, false, Option, none, some, List, [], ◌∷◌, Text, text}
use filedrop.Errors.{io, Result, ok, err}

-- `BROADCAST_PORT`, which `broadcast_port()` gives.
abbrev pub broadcast_port : ℕ
broadcast_port = 53318

-- The broadcast port on this machine: nobody holds it, or the listener of a discovery that has been
-- started, with the `running` flag that it shares with its `UdpBroadcastDiscovery`.
pub data Port : Type 0 where
  free : Port
  listening : Bool → Port

-- The failures of the calls on the two sockets, apart from a port that is taken.
pub record SocketFaults : Type 0 where
  pub bind : Option Text
  pub set_broadcast : Option Text
  pub bind_sender : Option Text
  pub set_sender_broadcast : Option Text

-- `call.await?` for a call that fails with a message or not.
abbrev try_io {ℓ} : {A : Type ℓ} → Option Text → Result A → Result A
try_io none rest = rest
try_io (some message) rest = err (io message)

abbrev pub address_in_use : Text
address_in_use = text "Address already in use (os error 98)"

-- A socket that is bound when a later call fails is dropped, and the port with it.
abbrev bound : SocketFaults → Result (Unit {0})
bound faults = try_io faults.bind (
    try_io faults.set_broadcast
      (try_io faults.bind_sender (try_io faults.set_sender_broadcast (ok tt))))

abbrev port_after : Result (Unit {0}) → Port
port_after (ok _) = listening true
port_after (err e) = free

-- `UdpBroadcastDiscovery::start` of a new discovery; the operating system refuses a port that is held.
unfoldable pub start : SocketFaults → Port → Result (Unit {0}) × Port
start faults (listening running) = (err (io address_in_use), listening running)
start faults free = (bound faults, port_after (bound faults))

-- `stop` of the discovery whose listener holds the port.
unfoldable pub stop : Port → Port
stop free = free
stop (listening running) = listening false

-- The listener looks at the flag after each datagram, and only then: a datagram, or an error, wakes it.
unfoldable pub wake : Port → Port
wake free = free
wake (listening true) = listening true
wake (listening false) = free

-- The announcer's loop, by the flag at each of its rounds: what it sends.
unfoldable pub announce : Option (List ℕ) → List Bool → List (List ℕ)
announce none flags = []
announce (some payload) [] = []
announce (some payload) (running ∷ flags) =
    let rest = announce (some payload) flags in elim running [ true ↦ payload ∷ rest | false ↦ [] ]

-- After a stop, the port is held until a datagram comes, so that a new discovery cannot start; once one
-- has come, it starts as at first.
pub start-stop :
    (faults later : SocketFaults)
    → (start faults free).0 ≡ ok tt
    → let stopped = stop (start faults free).1 in
      (start later stopped ≡ (err (io address_in_use), stopped))
      × (start later (wake stopped) ≡ start later free)
unfolding start stop wake
start-stop faults later h = rw h (refl, refl)
