-- ===== src/Networking/LanAddress.antt =====
-- rust/filedrop-core/src/networking/local_iface.rs: private addresses, and the search for one among the
-- interfaces. The list of interfaces (crate `if-addrs`) is an argument.
use filedrop.Base.{
  ℕ, ◌+◌, ◌*◌, ◌/◌, ◌^◌, ◌<◌, ◌≡◌, ◌↔◌, refl, ◌∙◌, ap, ◌⊎◌, inl, inr, Bool, true, false, not, ◌&&◌,
  Option, none, some, List, [], ◌∷◌, ◌++◌, arith, leb, ◌==◌, nat_eq, if◌then◌else◌, any, Bool-cases,
  Text,
}
use filedrop.Errors.{io, Result, ok, err}

-- What the system answers to a UDP socket: the failures of `bind` and of `local_addr`, whether `connect`
-- finds a route, and the address of that route, as its text.
pub record UdpRoute : Type 0 where
  pub bind : Option Text
  pub connects : Bool
  pub local_addr : Option Text
  pub ip : Text

unfoldable pub local_ipv4_addresses : UdpRoute → Result (List Text)
local_ipv4_addresses route = elim route.bind [
  | some e ↦ err (io e)
  | none ↦ elim route.connects [
    | false ↦ ok []
    | true ↦ elim route.local_addr [ some e ↦ err (io e) | none ↦ ok (route.ip ∷ []) ]
  ]
]

-- `Ipv4Addr`, by its octets.
pub record Ipv4Addr : Type 0 where
  pub o0 : ℕ
  pub o1 : ℕ
  pub o2 : ℕ
  pub o3 : ℕ

pub data IpAddr : Type 0 where
  v4 : Ipv4Addr → IpAddr
  v6 : ℕ → IpAddr

-- What `if_addrs` says of an interface.
pub record Interface : Type 0 where
  pub is_loopback : Bool
  pub ip : IpAddr

unfoldable pub is_private_ipv4 : Ipv4Addr → Bool
is_private_ipv4 a =
    if a.o0 == 10
    then true
    else if a.o0 == 172
    then leb 16 a.o1 && leb a.o1 31
    else if a.o0 == 192
    then a.o1 == 168
    else false

-- The loop of `usable_lan_ipv4`.
unfoldable pub first_private : List Interface → Option IpAddr
unfolding is_private_ipv4
first_private [] = none
first_private (i ∷ rest) =
    let next = first_private rest in
    if i.is_loopback
    then next
    else elim i.ip [ v4 a ↦ if is_private_ipv4 a then some (v4 a) else next | v6 n ↦ next ]

unfoldable pub usable_lan_ipv4 : Result (List Interface) → Result (Option IpAddr)
unfolding first_private
usable_lan_ipv4 (ok interfaces) = ok (first_private interfaces)
usable_lan_ipv4 (err e) = err e

-- An address as a number of 32 bits.
abbrev pub to_u32 : Ipv4Addr → ℕ
to_u32 a = ((a.o0 * 256 + a.o1) * 256 + a.o2) * 256 + a.o3

pub record IsOctets (a : Ipv4Addr) : Type 0 where
  pub b0 : a.o0 < 256
  pub b1 : a.o1 < 256
  pub b2 : a.o2 < 256
  pub b3 : a.o3 < 256

-- An address is private exactly if its leading bits are those of 10.0.0.0/8, 172.16.0.0/12 or
-- 192.168.0.0/16.
pub is_private_ipv4_iff :
    (a : Ipv4Addr)
    → IsOctets a
    → (is_private_ipv4 a ≡ true) ↔ (
        (to_u32 a / 2 ^ 24 ≡ 10)
        ⊎ ((to_u32 a / 2 ^ 20 ≡ 172 * 16 + 1) ⊎ (to_u32 a / 2 ^ 16 ≡ 192 * 256 + 168)))
unfolding is_private_ipv4
is_private_ipv4_iff a h = ground (arith, h.b0, h.b1, h.b2, h.b3)

abbrev is_private_ip : IpAddr → Bool
is_private_ip (v4 a) = is_private_ipv4 a
is_private_ip (v6 n) = false

-- An interface that the search can return.
abbrev pub is_usable : Interface → Bool
is_usable i = not i.is_loopback && is_private_ip i.ip

first_private-cons :
    (i : Interface) (rest : List Interface)
    → first_private (i ∷ rest) ≡ (if is_usable i then some i.ip else first_private rest)
unfolding first_private
first_private-cons i rest = ground arith

-- The search returns the address of the first usable interface, with no usable one before it, and none
-- only if no interface is usable.
pub usable_lan_ipv4-first :
    (interfaces : List Interface)
    → ((before after : List Interface) × ((i : Interface) × (interfaces ≡ before ++ (i ∷ after))
          × ((any is_usable before ≡ false)
              × ((is_usable i ≡ true) × (usable_lan_ipv4 (ok interfaces) ≡ ok (some i.ip))))))
      ⊎ ((any is_usable interfaces ≡ false) × (usable_lan_ipv4 (ok interfaces) ≡ ok none))
unfolding usable_lan_ipv4
usable_lan_ipv4-first [] = inr (refl, refl)
usable_lan_ipv4-first (i ∷ rest) = elim (Bool-cases (is_usable i)) [
  | inl e ↦ inl ([], rest, (i, refl, (refl, (e, ap ok (first_private-cons i rest ∙ rw e refl)))))
  | inr e ↦
      let step = first_private-cons i rest in
      elim (usable_lan_ipv4-first rest) [
        | inl (before, after, (j, same, (none_before, (usable, found)))) ↦ inl (
          i ∷ before,
          after,
          (
            j,
            ap (◌∷◌ i) same,
            (rw (e, none_before) refl, (usable, ap ok (step ∙ rw e refl) ∙ found)),
          ),
        )
        | inr (no_other, found) ↦ inr (rw (e, no_other) refl, ap ok (step ∙ rw e refl) ∙ found)
      ]
]
