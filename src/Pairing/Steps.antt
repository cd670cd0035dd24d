-- ===== src/Pairing/Steps.antt =====
-- What one call does, on every branch, to the request that it names and to the others.
use filedrop.Base.{
  ℕ, ◌+◌, ◌^◌, ◌<◌, ◌≡◌, ◌≢◌, ◌↔◌, ap, ◌∙◌, ◌⊎◌, inl, inr, Bool, true, false, Option, none, some,
  arith, nat_eq, if◌then◌else◌, Text, Option-cases,
}
use filedrop.Base.Dict.{
  lookup, insert, lookup-insert, lookup-insert_self, map_option, lookup-map_values,
}
use filedrop.Base.Utf8.{IsText}
use filedrop.Base.Words.{ℤ, pos, add_i64-pos, as_i64-pos}
use filedrop.Errors.{Uuid, device_not_found, invalid_pairing_token, ok, err}
use filedrop.Security.Token.{tokens_match}
use filedrop.Security.Token.Compare.{tokens_match_iff}
use filedrop.Pairing.{
  awaiting_confirmation, paired, rejected, PairingRequest, PairingStateMachine, is_expired,
  now_unix, create_request, present_token, confirm, set_state, is_paired_request, is_paired, swept,
  sweep_expired,
}

present_token-none :
    (m : PairingStateMachine) (clock : Option ℕ) (peer : Uuid) (presented : Text)
    → lookup peer m ≡ none
    → present_token m clock peer presented ≡ (err invalid_pairing_token, m)
unfolding present_token
present_token-none m clock peer presented e = rw (e, present_token)

present_token-found :
    (m : PairingStateMachine) (clock : Option ℕ) (peer other : Uuid) (presented : Text)
    (r : PairingRequest)
    → lookup peer m ≡ some r
    → IsText r.token
    → IsText presented
    → other ≢ peer
    → let out = present_token m clock peer presented in
      ((out.0 ≡ ok tt) ↔ ((is_expired r (now_unix clock) ≡ false) × (r.token ≡ presented)))
      × ((out.0 ≡ ok tt) ⊎ (out.0 ≡ err invalid_pairing_token))
      × (lookup peer out.1
          ≡ some (
              if is_expired r (now_unix clock)
              then set_state r rejected
              else if tokens_match r.token presented
              then set_state r awaiting_confirmation
              else r))
      × (lookup other out.1 ≡ lookup other m)
unfolding present_token
present_token-found m clock peer other presented r found ht hp apart =
    rw (found, present_token)
      (ground (
        arith,
        tokens_match_iff r.token presented ht hp,
        lookup-insert peer peer (set_state r rejected) m,
        lookup-insert other peer (set_state r rejected) m,
        lookup-insert peer peer (set_state r awaiting_confirmation) m,
        lookup-insert other peer (set_state r awaiting_confirmation) m,
      ))

-- The whole effect of `present_token`: without a request of the peer it fails and changes nothing. With
-- one it succeeds exactly if the request has not expired and carries the presented token, and else
-- fails in the same way; an expired request is rejected, one that is answered with its token waits for
-- confirmation, any other stays as it was, and so do the requests of other peers. The tokens are texts.
pub present_token_lem :
    (m : PairingStateMachine) (clock : Option ℕ) (peer other : Uuid) (presented : Text)
    → ((r : PairingRequest) → lookup peer m ≡ some r → IsText r.token)
    → IsText presented
    → other ≢ peer
    → let out = present_token m clock peer presented in
      ((lookup peer m ≡ none) × (out.0 ≡ err invalid_pairing_token) × (out.1 ≡ m))
      ⊎ ((r : PairingRequest) × (lookup peer m ≡ some r)
          × ((out.0 ≡ ok tt) ↔ ((is_expired r (now_unix clock) ≡ false) × (r.token ≡ presented)))
          × ((out.0 ≡ ok tt) ⊎ (out.0 ≡ err invalid_pairing_token))
          × (lookup peer out.1
              ≡ some (
                  if is_expired r (now_unix clock)
                  then set_state r rejected
                  else if tokens_match r.token presented
                  then set_state r awaiting_confirmation
                  else r))
          × (lookup other out.1 ≡ lookup other m))
present_token_lem m clock peer other presented ht hp apart = elim (Option-cases (lookup peer m)) [
  | inl e ↦
      let failed = present_token-none m clock peer presented e in
      inl (e, ap (λ out. out.0) failed, ap (λ out. out.1) failed)
  | inr (r, e) ↦
      let effect = present_token-found m clock peer other presented r e (ht r e) hp apart in
      inr (r, e, effect.0, effect.1, effect.2, effect.3)
]

present_token-accepts :
    (m : PairingStateMachine) (clock : Option ℕ) (peer : Uuid) (presented : Text)
    (r : PairingRequest)
    → lookup peer m ≡ some r
    → IsText r.token
    → IsText presented
    → ((present_token m clock peer presented).0 ≡ ok tt)
      ↔ ((is_expired r (now_unix clock) ≡ false) × (r.token ≡ presented))
unfolding present_token
present_token-accepts m clock peer presented r found ht hp =
    rw (found, present_token) (ground (arith, tokens_match_iff r.token presented ht hp))

-- A request that was created at `s` with a lifetime of `t` seconds can be answered with its token,
-- and only with it, and only before `s + t`.
pub present_token-create_request :
    (m : PairingStateMachine) (s t later : ℕ) (peer : Uuid) (name token presented : Text)
    → s + t < 2 ^ 63
    → later < 2 ^ 63
    → IsText token
    → IsText presented
    → let m' = (create_request m (some s) peer name token (pos t)).1 in
      ((present_token m' (some later) peer presented).0 ≡ ok tt)
      ↔ ((later < s + t) × (token ≡ presented))
unfolding create_request
present_token-create_request m s t later peer name token presented hs hl ht hp =
    let r = (create_request m (some s) peer name token (pos t)).0 in
    let m' = (create_request m (some s) peer name token (pos t)).1 in
    let found : lookup peer m' ≡ some r = lookup-insert_self peer r m in
    let effect = present_token-accepts m' (some later) peer presented r found ht hp in
    let expiry : r.expires_at ≡ pos (s + t) =
      rw (as_i64-pos s (omega arith)) (add_i64-pos s t hs) in
    let open_yet : (is_expired r (now_unix (some later)) ≡ false) ↔ (later < s + t) =
      rw (expiry, as_i64-pos later hl) (ground arith) in
    (λ h. (open_yet.0 (effect.0 h).0, (effect.0 h).1), λ k. effect.1 (open_yet.1 k.0, k.1))

-- The whole effect of `confirm`: it sets the state of the named request to the decision, changes nothing
-- else of it and reports the decision, so that the peer is paired exactly after a yes; or it reports
-- that there is no request and changes nothing. The other requests stay as they were.
pub confirm_lem :
    (m : PairingStateMachine) (peer other : Uuid) (accept : Bool)
    → other ≢ peer
    → let out = confirm m peer accept in
      ((lookup peer m ≡ none) × (out.0 ≡ err (device_not_found peer)) × (out.1 ≡ m))
      ⊎ ((r : PairingRequest) × (lookup peer m ≡ some r)
          × (out.0 ≡ ok (if accept then paired else rejected))
          × (lookup peer out.1 ≡ some (set_state r (if accept then paired else rejected)))
          × (is_paired out.1 peer ≡ accept)
          × (lookup other out.1 ≡ lookup other m))
unfolding confirm is_paired
confirm_lem m peer other accept ne = elim (Option-cases (lookup peer m)) [
  | inl e ↦ inl (e, rw (e, confirm), rw (e, confirm))
  | inr (r, e) ↦ inr (
    r,
    e,
    rw (e, confirm),
    rw (e, confirm) (lookup-insert_self peer (set_state r (if accept then paired else rejected)) m),
    rw (e, confirm)
        (ground (
          arith,
          lookup-insert_self peer (set_state r paired) m,
          lookup-insert_self peer (set_state r rejected) m,
        )),
    rw (e, confirm)
        (ground (
          arith,
          lookup-insert other peer (set_state r paired) m,
          lookup-insert other peer (set_state r rejected) m,
        )),
  )
]

-- `confirm` asks for no state: a request that was only created is paired by it, although no token
-- has been presented.
pub confirm-create_request :
    (m : PairingStateMachine) (clock : Option ℕ) (peer : Uuid) (name token : Text) (ttl : ℤ)
    → is_paired (confirm (create_request m clock peer name token ttl).1 peer true).1 peer ≡ true
unfolding create_request confirm is_paired
confirm-create_request m clock peer name token ttl =
    let r = (create_request m clock peer name token ttl).0 in
    let found = lookup-insert_self peer r m in
    rw (found, confirm, is_paired)
      (ground (arith, lookup-insert_self peer (set_state r paired) (insert peer r m)))

present_token-inv :
    (m : PairingStateMachine) (clock : Option ℕ) (peer : Uuid) (presented : Text)
    (r : PairingRequest)
    → lookup peer m ≡ some r
    → (present_token m clock peer presented).0 ≡ ok tt
    → (is_expired r (now_unix clock) ≡ false) × (tokens_match r.token presented ≡ true)
unfolding present_token
present_token-inv m clock peer presented r found done =
    let h = rw (found, present_token) at done in ground arith

present_token-ok :
    (m : PairingStateMachine) (clock : Option ℕ) (peer : Uuid) (presented : Text)
    (r : PairingRequest)
    → lookup peer m ≡ some r
    → is_expired r (now_unix clock) ≡ false
    → tokens_match r.token presented ≡ true
    → present_token m clock peer presented
      ≡ (ok tt, insert peer (set_state r awaiting_confirmation) m)
unfolding present_token
present_token-ok m clock peer presented r found live match =
    rw (found, present_token) (ground arith)

confirm-accept :
    (m : PairingStateMachine) (peer : Uuid) (r : PairingRequest)
    → lookup peer m ≡ some r
    → confirm m peer true ≡ (ok paired, insert peer (set_state r paired) m)
unfolding confirm
confirm-accept m peer r found = rw (found, confirm)

is_paired-insert :
    (peer : Uuid) (r : PairingRequest) (m : PairingStateMachine)
    → is_paired (insert peer r m) peer ≡ is_paired_request (some r)
unfolding is_paired
is_paired-insert peer r m = rw (lookup-insert_self peer r m)

-- A token is not used up: presenting it a second time at the same moment succeeds again, also where
-- the user has accepted in between, and then takes the pairing back.
pub present_token_again :
    (m : PairingStateMachine) (clock : Option ℕ) (peer : Uuid) (presented : Text)
    (r : PairingRequest)
    → lookup peer m ≡ some r
    → (present_token m clock peer presented).0 ≡ ok tt
    → let m' = (confirm (present_token m clock peer presented).1 peer true).1 in
      (is_paired m' peer ≡ true)
      × ((present_token m' clock peer presented).0 ≡ ok tt)
      × (is_paired (present_token m' clock peer presented).1 peer ≡ false)
present_token_again m clock peer presented r found done =
    let (live, match) = present_token-inv m clock peer presented r found done in
    let r1 = set_state r awaiting_confirmation in
    let m1 = insert peer r1 m in
    let r2 = set_state r paired in
    let m2 = insert peer r2 m1 in
    let first = present_token-ok m clock peer presented r found live match in
    let second = confirm-accept m1 peer r1 (lookup-insert_self peer r1 m) in
    let third =
      present_token-ok m2 clock peer presented r2 (lookup-insert_self peer r2 m1) live match in
    rw (first, second)
      (
        is_paired-insert peer r2 m1,
        ap (λ x. x.0) third,
        ap (λ x. is_paired x.1 peer) third
            ∙ is_paired-insert peer (set_state r2 awaiting_confirmation) m2,
      )

pub lookup-sweep_expired :
    (m : PairingStateMachine) (clock : Option ℕ) (peer : Uuid)
    → lookup peer (sweep_expired m clock) ≡ map_option (swept (now_unix clock)) (lookup peer m)
unfolding sweep_expired
lookup-sweep_expired m clock peer = lookup-map_values (swept (now_unix clock)) peer m

-- A sweep neither adds nor drops a request, and changes nothing about which peers are paired.
pub sweep_expired-is_paired :
    (m : PairingStateMachine) (clock : Option ℕ) (peer : Uuid)
    → (is_paired (sweep_expired m clock) peer ≡ is_paired m peer)
      × ((lookup peer m ≡ none) ↔ (lookup peer (sweep_expired m clock) ≡ none))
unfolding is_paired
sweep_expired-is_paired m clock peer =
    rw (lookup-sweep_expired m clock peer) (ground arith, ground arith)

expired-settled :
    (now : ℤ) (o : Option PairingRequest) (r : PairingRequest)
    → map_option (swept now) o ≡ some r
    → is_expired r now ≡ true
    → (r.state ≡ paired) ⊎ (r.state ≡ rejected)
expired-settled now o r h k = ground arith

-- After a sweep every request that has expired is paired or rejected.
pub sweep_expired-settled :
    (m : PairingStateMachine) (clock : Option ℕ) (peer : Uuid) (r : PairingRequest)
    → lookup peer (sweep_expired m clock) ≡ some r
    → is_expired r (now_unix clock) ≡ true
    → (r.state ≡ paired) ⊎ (r.state ≡ rejected)
sweep_expired-settled m clock peer r h k =
    expired-settled (now_unix clock) (lookup peer m) r (rw lookup-sweep_expired at h) k
