-- ===== src/Pairing/History.antt =====
-- What holds after any sequence of calls on a fresh state machine.
use filedrop.Base.{
  ℕ, ◌≡◌, refl, ◌∙◌, inl, inr, Bool, true, false, Option, none, some, List, [], ◌∷◌, arith, ◌==◌,
  nat_eq, if◌then◌else◌, Text, Option-cases,
}
use filedrop.Base.Dict.{lookup, insert, lookup-insert, map_option}
use filedrop.Base.Words.{ℤ}
use filedrop.Errors.{Uuid}
use filedrop.Pairing.{
  awaiting_confirmation, paired, rejected, PairingRequest, PairingStateMachine, empty_machine,
  create_request, present_token, confirm, set_state, is_paired, swept, sweep_expired, now_unix,
}
use filedrop.Pairing.Steps.{lookup-sweep_expired, sweep_expired-is_paired}

pub data Call : Type 0 where
  creates : Option ℕ → Uuid → Text → Text → ℤ → Call
  presents : Option ℕ → Uuid → Text → Call
  confirms : Uuid → Bool → Call
  sweeps : Option ℕ → Call

unfoldable pub step : PairingStateMachine → Call → PairingStateMachine
step m (creates clock peer name token ttl) = (create_request m clock peer name token ttl).1
step m (presents clock peer token) = (present_token m clock peer token).1
step m (confirms peer accept) = (confirm m peer accept).1
step m (sweeps clock) = sweep_expired m clock

unfoldable pub run : PairingStateMachine → List Call → PairingStateMachine
run m [] = m
run m (c ∷ cs) = run (step m c) cs

-- The user's last word on a peer since its last request: an independent reading of the calls.
unfoldable pub approved : Uuid → Bool → List Call → Bool
approved peer sofar [] = sofar
approved peer sofar (creates clock p name token ttl ∷ cs) =
    approved peer (if p == peer then false else sofar) cs
approved peer sofar (presents clock p token ∷ cs) = approved peer sofar cs
approved peer sofar (confirms p accept ∷ cs) =
    approved peer (if p == peer then accept else sofar) cs
approved peer sofar (sweeps clock ∷ cs) = approved peer sofar cs

is_paired-create_request :
    (m : PairingStateMachine) (clock : Option ℕ) (p peer : Uuid) (name token : Text) (ttl : ℤ)
    → is_paired (create_request m clock p name token ttl).1 peer
      ≡ (if p == peer then false else is_paired m peer)
unfolding create_request is_paired
is_paired-create_request m clock p peer name token ttl =
    ground (arith, lookup-insert peer p (create_request m clock p name token ttl).0 m)

-- Presenting a token pairs nobody.
is_paired-present_token :
    (m : PairingStateMachine) (clock : Option ℕ) (p peer : Uuid) (token : Text)
    → is_paired (present_token m clock p token).1 peer ≡ true
    → is_paired m peer ≡ true
unfolding present_token is_paired
is_paired-present_token m clock p peer token h = elim (Option-cases (lookup p m)) [
  | inl e ↦ rw (e, present_token) at h
  | inr (r, e) ↦
      let k = rw (e, present_token) at h in
      ground (
        arith,
        lookup-insert peer p (set_state r rejected) m,
        lookup-insert peer p (set_state r awaiting_confirmation) m,
      )
]

is_paired-confirm :
    (m : PairingStateMachine) (p peer : Uuid) (accept : Bool)
    → is_paired (confirm m p accept).1 peer ≡ true
    → (if p == peer then accept else is_paired m peer) ≡ true
unfolding confirm is_paired
is_paired-confirm m p peer accept h = elim (Option-cases (lookup p m)) [
  | inl e ↦ let k = rw (e, confirm) at h in ground arith
  | inr (r, e) ↦
      let k = rw (e, confirm) at h in
      ground (
        arith,
        lookup-insert peer p (set_state r rejected) m,
        lookup-insert peer p (set_state r paired) m,
      )
]

approved_mono :
    (peer : Uuid) (a b : Bool) (cs : List Call)
    → (a ≡ true → b ≡ true)
    → approved peer a cs ≡ true
    → approved peer b cs ≡ true
unfolding approved
approved_mono peer a b [] f h = f h
approved_mono peer a b (creates clock p name token ttl ∷ cs) f h =
    approved_mono peer (if p == peer then false else a) (if p == peer then false else b) cs
      (λ k. ground arith) h
approved_mono peer a b (presents clock p token ∷ cs) f h = approved_mono peer a b cs f h
approved_mono peer a b (confirms p accept ∷ cs) f h =
    approved_mono peer (if p == peer then accept else a) (if p == peer then accept else b) cs
      (λ k. ground arith) h
approved_mono peer a b (sweeps clock ∷ cs) f h = approved_mono peer a b cs f h

is_paired-run_from :
    (m : PairingStateMachine) (peer : Uuid) (cs : List Call)
    → is_paired (run m cs) peer ≡ true
    → approved peer (is_paired m peer) cs ≡ true
unfolding run step approved
is_paired-run_from m peer [] h = h
is_paired-run_from m peer (creates clock p name token ttl ∷ cs) h =
    rw is_paired-create_request at
      (is_paired-run_from (create_request m clock p name token ttl).1 peer cs h)
is_paired-run_from m peer (presents clock p token ∷ cs) h =
    approved_mono peer _ (is_paired m peer) cs (is_paired-present_token m clock p peer token)
      (is_paired-run_from (present_token m clock p token).1 peer cs h)
is_paired-run_from m peer (confirms p accept ∷ cs) h =
    approved_mono peer _ (if p == peer then accept else is_paired m peer) cs
      (is_paired-confirm m p peer accept) (is_paired-run_from (confirm m p accept).1 peer cs h)
is_paired-run_from m peer (sweeps clock ∷ cs) h =
    rw ((sweep_expired-is_paired m clock peer).0) at
      (is_paired-run_from (sweep_expired m clock) peer cs h)

-- Nobody is paired without the user: if a peer is paired after any calls on a fresh state machine, the
-- last decision about it since its last request was to accept.
pub is_paired-run :
    (peer : Uuid) (cs : List Call)
    → is_paired (run empty_machine cs) peer ≡ true
    → approved peer false cs ≡ true
unfolding is_paired lookup
is_paired-run peer cs h = is_paired-run_from empty_machine peer cs h

-- Every request is stored under the id of its own peer.
abbrev pub IsKeyed : PairingStateMachine → Type 0
IsKeyed m = (p : Uuid) (r : PairingRequest) → lookup p m ≡ some r → r.peer_device_id ≡ p

insert-IsKeyed :
    (m : PairingStateMachine) (p : Uuid) (r : PairingRequest)
    → IsKeyed m
    → r.peer_device_id ≡ p
    → IsKeyed (insert p r m)
insert-IsKeyed m p r h k q s e = ground (arith, lookup-insert q p r m, h q s)

present_token-IsKeyed :
    (m : PairingStateMachine) (clock : Option ℕ) (p : Uuid) (token : Text)
    → IsKeyed m
    → IsKeyed (present_token m clock p token).1
unfolding present_token
present_token-IsKeyed m clock p token h q s e = elim (Option-cases (lookup p m)) [
  | inl f ↦ h q s (rw (f, present_token) at e)
  | inr (r, f) ↦
      let k = rw (f, present_token) at e in
      ground (
        arith,
        h q s,
        insert-IsKeyed m p (set_state r rejected) h (h p r f) q s,
        insert-IsKeyed m p (set_state r awaiting_confirmation) h (h p r f) q s,
      )
]

confirm-IsKeyed :
    (m : PairingStateMachine) (p : Uuid) (accept : Bool)
    → IsKeyed m
    → IsKeyed (confirm m p accept).1
unfolding confirm
confirm-IsKeyed m p accept h q s e = elim (Option-cases (lookup p m)) [
  | inl f ↦ h q s (rw (f, confirm) at e)
  | inr (r, f) ↦
      let k = rw (f, confirm) at e in
      insert-IsKeyed m p (set_state r (if accept then paired else rejected)) h (h p r f) q s k
]

swept-id :
    (now : ℤ) (o : Option PairingRequest) (s : PairingRequest)
    → map_option (swept now) o ≡ some s
    → (r : PairingRequest) × (o ≡ some r) × (s.peer_device_id ≡ r.peer_device_id)
swept-id now none s e = cc
swept-id now (some r) s e = (r, refl, ground arith)

sweep_expired-IsKeyed :
    (m : PairingStateMachine) (clock : Option ℕ) → IsKeyed m → IsKeyed (sweep_expired m clock)
sweep_expired-IsKeyed m clock h q s e =
    let (r, f, same) = swept-id (now_unix clock) (lookup q m) s (rw lookup-sweep_expired at e) in
    same ∙ h q r f

step-IsKeyed : (m : PairingStateMachine) (c : Call) → IsKeyed m → IsKeyed (step m c)
unfolding step create_request
step-IsKeyed m (creates clock p name token ttl) h = insert-IsKeyed m p _ h refl
step-IsKeyed m (presents clock p token) h = present_token-IsKeyed m clock p token h
step-IsKeyed m (confirms p accept) h = confirm-IsKeyed m p accept h
step-IsKeyed m (sweeps clock) h = sweep_expired-IsKeyed m clock h

-- If a machine keeps every request under the id of its peer, it still does after any calls.
pub run-IsKeyed : (m : PairingStateMachine) (cs : List Call) → IsKeyed m → IsKeyed (run m cs)
unfolding run
run-IsKeyed m [] h = h
run-IsKeyed m (c ∷ cs) h = run-IsKeyed (step m c) cs (step-IsKeyed m c h)
