-- ===== src/Networking/PortScan.antt =====
-- rust/filedrop-core/src/networking/resolve.rs: choosing a free port.
use filedrop.Base.{
  ℕ, zero, suc, ◌+◌, ◌-◌, ◌≤◌, ◌<◌, ◌≡◌, refl, ◌⊎◌, inl, inr, Bool, true, false, arith,
  if◌then◌else◌, ◌++◌, text, Bool-cases,
}
use filedrop.Errors.{network, Result, ok, err}
use filedrop.Transfer.Decimal.{show_u64}

-- `DEFAULT_PORT` and the bounds of `PORT_SCAN_RANGE`
abbrev pub default_port : ℕ
default_port = 53317

abbrev pub last_port : ℕ
last_port = 53350

-- `no free port found in range {start}-{end}`
unfoldable pub no_port : Result ℕ
unfolding show_u64
no_port = err (
    network (
      text "no free port found in range "
      ++ (show_u64 default_port ++ (text "-" ++ show_u64 last_port))))

module _ (is_free : ℕ → Bool) where
  -- The loop, on the number of ports that are left and the next one. `is_free p` says whether
  -- `TcpListener::bind` succeeds on `p`.
  pub scan : ℕ → ℕ → Result ℕ
  scan zero port = no_port
  scan (suc left) port = let rest = scan left (suc port) in if is_free port then ok port else rest

  unfoldable pub pick_server_port : Result ℕ
  unfolding scan
  pick_server_port = scan (suc last_port - default_port) default_port

  -- The first free port from `port` on.
  pub record IsFirst (low high port : ℕ) : Type 0 where
    pub from : low ≤ port
    pub to : port < high
    pub free : is_free port ≡ true
    pub first : (p : ℕ) → low ≤ p → p < port → is_free p ≡ false

  scan-IsFirst :
      (left port : ℕ)
      → ((p : ℕ) × (scan left port ≡ ok p) × IsFirst port (port + left) p)
        ⊎ ((scan left port ≡ no_port) × ((p : ℕ) → port ≤ p → p < port + left → is_free p ≡ false))
  unfolding scan
  scan-IsFirst zero port = inr (refl, λ p h k. absurd (omega arith))
  scan-IsFirst (suc left) port = elim (Bool-cases (is_free port)) [
    | inl e ↦ inl (
      port,
      rw (e, scan) refl,
      record {
        from = omega arith;
        to = omega arith;
        free = e;
        first = λ p h k. absurd (omega arith);
      },
    )
    | inr e ↦
        let skip : (p : ℕ) → port ≤ p → (p ≡ port) ⊎ (suc port ≤ p) = λ p h. ground arith in
        elim (scan-IsFirst left (suc port)) [
          | inl (q, s, f) ↦ inl (
            q,
            rw (e, scan) s,
            record {
              from = omega (arith, f.from);
              to = omega (arith, f.to);
              free = f.free;
              first =
                  λ p h k. elim (skip p h) [ inl same ↦ rw same e | inr more ↦ f.first p more k ];
            },
          )
          | inr (s, f) ↦ inr (
            rw (e, scan) s,
            λ p h k. elim (skip p h) [ inl same ↦ rw same e | inr more ↦ f p more (omega arith) ],
          )
        ]
  ]

  -- The port that is picked is the first one from 53317 to 53350 that is free; and there is none only
  -- if none of them is.
  pub pick_server_port-IsFirst :
      ((p : ℕ) × (pick_server_port ≡ ok p) × IsFirst default_port (suc last_port) p)
      ⊎ ((pick_server_port ≡ no_port)
          × ((p : ℕ) → default_port ≤ p → p ≤ last_port → is_free p ≡ false))
  unfolding pick_server_port
  pick_server_port-IsFirst = elim (scan-IsFirst 34 default_port) [
    | inl (p, s, f) ↦ inl (p, s, f)
    | inr (s, f) ↦ inr (s, λ p h k. f p h (omega arith))
  ]
