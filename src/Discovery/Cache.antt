-- ===== src/Discovery/Cache.antt =====
-- What the listener lets through, and what the cache of devices holds.
use filedrop.Base.{
  ℕ, ◌≡◌, ◌≢◌, refl, sym, ap, ◌∙◌, inl, inr, Bool, true, false, not, ◌||◌, none, some, List, [],
  ◌∷◌, arith, ◌==◌, ==_iff, nat_eq, list_eq, Text, All, Bool-cases, Option-cases,
}
use filedrop.Base.Dict.{Dict, lookup, insert, lookup-insert}
use filedrop.Errors.{Uuid}
use filedrop.Discovery.{
  DiscoveredDevice, AnnouncePacket, Json, announce_magic, Received, announcement, listen_round,
  listen, forward_devices,
}

-- A device other than this one, that is not paired.
abbrev pub IsOther : Uuid → DiscoveredDevice → Type 0
IsOther self_id device = ((device.device_id == self_id) ≡ false) × (device.paired ≡ false)

none-apart : (d : DiscoveredDevice) → none ≢ some d
none-apart d h = cc

some-same : (c d : DiscoveredDevice) → some c ≡ some d → c ≡ d
some-same c d h = cc

or-false : (a b : Bool) → (a || b) ≡ false → b ≡ false
or-false a b h = ground arith

module _ (json : Json) (self_id : Uuid) where
  round-IsOther :
      (r : Received) (device : DiscoveredDevice)
      → listen_round json self_id r ≡ some device
      → IsOther self_id device
  unfolding listen_round
  round-IsOther none device h = cc
  round-IsOther (some (bytes, from)) device h = elim (Option-cases (json.from_slice bytes)) [
    | inl e ↦ absurd (none-apart device (rw (e, listen_round) at h))
    | inr (packet, e) ↦
        elim (Bool-cases (not (packet.magic == announce_magic) || packet.device_id == self_id)) [
          | inl t ↦ absurd (none-apart device (rw (e, listen_round, t) at h))
          | inr f ↦
              let same = some-same _ device (rw (e, listen_round, f) at h) in
              (
                ap (λ d. d.device_id == self_id) (sym same) ∙ or-false _ _ f,
                ap (λ d. d.paired) (sym same),
              )
        ]
  ]

  -- The listener sends on only devices other than this one, whatever arrives, and none as paired.
  listen-IsOther : (rs : List Received) → All (IsOther self_id) (listen json self_id rs)
  unfolding listen
  listen-IsOther [] = tt
  listen-IsOther (r ∷ rs) = elim (Option-cases (listen_round json self_id r)) [
    | inl e ↦ rw (e, listen) (listen-IsOther rs)
    | inr (device, e) ↦ rw (e, listen) (round-IsOther r device e, listen-IsOther rs)
  ]

-- Which of them are sent on.
abbrev pub with_flags : List DiscoveredDevice → List Bool → List (DiscoveredDevice × Bool)
with_flags [] flags = []
with_flags (d ∷ ds) [] = (d, true) ∷ with_flags ds []
with_flags (d ∷ ds) (f ∷ flags) = (d, f) ∷ with_flags ds flags

forward-none :
    (self_id : Uuid) (ds : List DiscoveredDevice) (flags : List Bool)
    (devices : Dict Uuid DiscoveredDevice)
    → All (IsOther self_id) ds
    → lookup self_id devices ≡ none
    → lookup self_id (forward_devices (with_flags ds flags) devices) ≡ none
unfolding forward_devices
forward-none self_id [] flags devices h k = k
forward-none self_id (d ∷ ds) [] devices h k =
    forward-none self_id ds [] (insert d.device_id d devices) h.1
      (lookup-insert self_id d.device_id d devices ∙ rw (h.0.0) k)
forward-none self_id (d ∷ ds) (true ∷ flags) devices h k =
    forward-none self_id ds flags (insert d.device_id d devices) h.1
      (lookup-insert self_id d.device_id d devices ∙ rw (h.0.0) k)
forward-none self_id (d ∷ ds) (false ∷ flags) devices h k =
    lookup-insert self_id d.device_id d devices ∙ rw (h.0.0) k

-- This device never lists itself among the nearby ones by UDP: whatever datagrams arrive, its own
-- announcements included, and whenever the channel behind the cache is closed, there is no entry under
-- its own id if there was none before.
pub forward_devices-listen :
    (json : Json) (self_id : Uuid) (rs : List Received) (flags : List Bool)
    (devices : Dict Uuid DiscoveredDevice)
    → lookup self_id devices ≡ none
    → lookup self_id (forward_devices (with_flags (listen json self_id rs) flags) devices) ≡ none
forward_devices-listen json self_id rs flags devices h =
    forward-none self_id (listen json self_id rs) flags devices (listen-IsOther json self_id rs) h

-- What one device announces another one hears: the device's own data, with the address of the sender,
-- as not paired. The JSON library reads back what it has written.
pub listen_round-announcement :
    (json : Json) (device : DiscoveredDevice) (self_id : Uuid) (payload : List ℕ) (from : Text)
    → ((packet : AnnouncePacket) (raw : List ℕ)
        → json.to_vec packet ≡ some raw
        → json.from_slice raw ≡ some packet)
    → announcement json device ≡ some payload
    → device.device_id ≢ self_id
    → listen_round json self_id (some (payload, from))
      ≡ some (record device { address = from; paired = false })
unfolding announcement listen_round
listen_round-announcement json device self_id payload from reads h n =
    let back = reads _ payload h in
    let other : (device.device_id == self_id) ≡ false = ground arith in
    let own : (announce_magic == announce_magic) ≡ true =
      (==_iff announce_magic announce_magic).1 refl in
    rw (back, listen_round, own, other) refl
