-- ===== src/Networking/Tests.antt =====
-- Runs of the network helpers at concrete inputs.
use filedrop.Base.{
  ℕ, ◌+◌, ◌*◌, ◌/◌, ◌^◌, ◌≡◌, ◌↔◌, ◌⊎◌, Bool, true, false, List, [], ◌∷◌, arith, ◌==◌, nat_eq,
}
use filedrop.Networking.LanAddress.{
  Ipv4Addr, v4, v6, Interface, is_private_ipv4, to_u32, IsOctets, is_private_ipv4_iff,
}

-- Only 53320 is free.
abbrev only_53320 : ℕ → Bool
only_53320 p = p == 53320

abbrev router : Ipv4Addr
router = record { o0 = 192; o1 = 168; o2 = 1; o3 = 1 }

router-IsOctets : IsOctets router
router-IsOctets = record { b0 = omega arith; b1 = omega arith; b2 = omega arith; b3 = omega arith }

is_private_ipv4_iff_example : (is_private_ipv4 router ≡ true) ↔ (
    (to_u32 router / 2 ^ 24 ≡ 10)
    ⊎ ((to_u32 router / 2 ^ 20 ≡ 172 * 16 + 1) ⊎ (to_u32 router / 2 ^ 16 ≡ 192 * 256 + 168)))
is_private_ipv4_iff_example = is_private_ipv4_iff router router-IsOctets

abbrev interfaces : List Interface
interfaces =
    record { is_loopback = true; ip = v4 router }
    ∷ record { is_loopback = false; ip = v6 1 }
    ∷ record { is_loopback = false; ip = v4 router }
    ∷ []
