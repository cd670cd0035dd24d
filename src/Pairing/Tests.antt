-- ===== src/Pairing/Tests.antt =====
-- Runs of the pairing state machine at concrete inputs.
use mathlib.Core.Path.{subst}
use filedrop.Base.{
  ℕ, zero, suc, ◌+◌, ◌*◌, ◌/◌, ◌^◌, ◌<◌, ◌≡◌, ◌≢◌, ◌↔◌, ◌⊎◌, refl, sym, ap, ◌∙◌, Bool, true, false,
  Option, none, some, List, [], ◌∷◌, ◌++◌, arith, Text, text, length, length-replicate, All,
  replicate, ◌==◌, nat_eq, list_eq, if◌then◌else◌,
}
use filedrop.Base.Dict.{lookup}
use filedrop.Base.Utf8.{IsText}
use filedrop.Base.Words.{pos}
use filedrop.Errors.{device_not_found, invalid_pairing_token, ok, err}
use filedrop.Security.Token.{tokens_match}
use filedrop.Pairing.{
  PairingState, pending, awaiting_confirmation, paired, rejected, PairingRequest,
  PairingStateMachine, empty_machine, is_expired, now_unix, create_request, present_token, confirm,
  set_state, is_paired, sweep_expired,
}
use filedrop.Pairing.Steps.{present_token_lem, confirm_lem, confirm-create_request}
use filedrop.Pairing.History.{
  Call, creates, presents, confirms, sweeps, run, approved, is_paired-run, IsKeyed, run-IsKeyed,
}

-- One peer, known by the token `ab` from 10 on for 300 seconds.
abbrev alice : PairingRequest
alice = record {
  peer_device_id = 7;
  peer_name = text "alice";
  token = text "ab";
  state = pending;
  created_at = pos 10;
  expires_at = pos 310;
}

abbrev one_peer : PairingStateMachine
one_peer = (7, alice) ∷ []

abbrev or_alice : Option PairingRequest → PairingRequest
or_alice none = alice
or_alice (some r) = r

one_peer-lookup : lookup 7 one_peer ≡ some alice
unfolding lookup filedrop.Base.ℕ_discrete
one_peer-lookup = refl

ab-IsText : IsText (text "ab")
ab-IsText = (omega arith, (omega arith, tt))

some_inj : (a b : PairingRequest) → some a ≡ some b → a ≡ b
some_inj a b h = ap (or_alice) h

one_peer-IsText : (r : PairingRequest) → lookup 7 one_peer ≡ some r → IsText r.token
one_peer-IsText r h =
    let same : alice ≡ r = some_inj alice r (sym one_peer-lookup ∙ h) in
    subst (λ q. IsText q.token) same ab-IsText

present_token_lem_example :
    let out = present_token one_peer (some 20) 7 (text "ab") in
    ((lookup 7 one_peer ≡ none) × (out.0 ≡ err invalid_pairing_token) × (out.1 ≡ one_peer))
    ⊎ ((r : PairingRequest) × (lookup 7 one_peer ≡ some r)
        × ((out.0 ≡ ok tt) ↔ ((is_expired r (now_unix (some 20)) ≡ false) × (r.token ≡ text "ab")))
        × ((out.0 ≡ ok tt) ⊎ (out.0 ≡ err invalid_pairing_token))
        × (lookup 7 out.1
            ≡ some (
                if is_expired r (now_unix (some 20))
                then set_state r rejected
                else if tokens_match r.token (text "ab")
                then set_state r awaiting_confirmation
                else r))
        × (lookup 8 out.1 ≡ lookup 8 one_peer))
present_token_lem_example =
    present_token_lem one_peer (some 20) 7 8 (text "ab") one_peer-IsText ab-IsText
      (λ h. absurd (omega arith))

confirm_lem_example :
    ((lookup 7 one_peer ≡ none)
      × ((confirm one_peer 7 true).0 ≡ err (device_not_found 7))
      × ((confirm one_peer 7 true).1 ≡ one_peer))
    ⊎ ((r : PairingRequest) × (lookup 7 one_peer ≡ some r)
        × ((confirm one_peer 7 true).0 ≡ ok (if true then paired else rejected))
        × (lookup 7 (confirm one_peer 7 true).1
            ≡ some (set_state r (if true then paired else rejected)))
        × (is_paired (confirm one_peer 7 true).1 7 ≡ true)
        × (lookup 8 (confirm one_peer 7 true).1 ≡ lookup 8 one_peer))
confirm_lem_example = confirm_lem one_peer 7 8 true (λ h. absurd (omega arith))

confirm-create_request_example :
    is_paired
      (confirm
        (create_request empty_machine (some 10) 7 (text "alice") (text "ab") (pos 300)).1
        7
        true).1
      7
    ≡ true
confirm-create_request_example =
    confirm-create_request empty_machine (some 10) 7 (text "alice") (text "ab") (pos 300)

swept_one : lookup 7 (sweep_expired one_peer (some 400)) ≡ some (set_state alice rejected)
unfolding sweep_expired lookup filedrop.Base.ℕ_discrete
swept_one = refl

abbrev calls : List Call
calls =
    creates (some 10) 7 (text "alice") (text "ab") (pos 300)
    ∷ presents (some 20) 7 (text "ab")
    ∷ confirms 7 true
    ∷ sweeps (some 400)
    ∷ []

calls-paired : is_paired (run empty_machine calls) 7 ≡ true
unfolding is_paired run create_request present_token confirm sweep_expired filedrop.Base.ℕ_discrete
    filedrop.Pairing.History.step
calls-paired = refl

is_paired-run_example : approved 7 false calls ≡ true
is_paired-run_example = is_paired-run 7 calls calls-paired
