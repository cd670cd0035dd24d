-- ===== src/Ffi/PairDevice/Payload.antt =====
-- The payload of `pair_device` against the pairing state machine and the server.
use filedrop.Base.{
  ℕ, ◌+◌, ◌^◌, ◌<◌, ◌≡◌, ◌≢◌, Bool, true, false, ◌↔◌, refl, sym, ap, ◌∙◌, inl, inr, some, arith,
  Text, Option-cases,
}
use filedrop.Base.Utf8.{IsText}
use filedrop.Base.Words.{pos, add_i64-pos, as_i64-pos}
use filedrop.Engine.{FileDropEngine}
use filedrop.Errors.{Uuid, ok}
use filedrop.Networking.PortScan.{default_port, no_port, pick_server_port, pick_server_port-IsFirst}
use filedrop.Pairing.{present_token, create_request}
use filedrop.Pairing.Steps.{present_token-create_request}
use filedrop.Pairing.Token.{generate_pairing_token}
use filedrop.Transfer.Session.{Floats}
use filedrop.Ffi.Events.{FileDropEvent}
use filedrop.Ffi.Channel.{Broadcast}
use filedrop.Ffi.Dto.{ResolvedEndpointDto, QrPairingPayloadDto}
use filedrop.Ffi.Startup.{Network, start_server}
use filedrop.Ffi.Startup.Calls.{start_server-cases}
use filedrop.Ffi.{Reply, done, refused, Runtime}
use filedrop.Ffi.PairDevice.{Surroundings, chrono_now_plus_secs, payload, pair_device}

chrono-pos : (t : ℕ) → t + 300 < 2 ^ 63 → chrono_now_plus_secs (some t) (pos 300) ≡ pos (t + 300)
unfolding chrono_now_plus_secs
chrono-pos t h = rw (as_i64-pos t (omega arith)) (add_i64-pos t 300 h)

-- The port of a reply.
abbrev port_of : Reply QrPairingPayloadDto → ℕ
port_of (done p) = p.port
port_of (refused message) = default_port

done-same {ℓ} : {A : Type ℓ} (a b : A) → done a ≡ done b → a ≡ b
done-same a b h = cc

done-apart {ℓ} : {A : Type ℓ} (a : A) (message : Text) → done a ≢ refused message
done-apart a message h = cc

true-apart : true ≢ false
true-apart h = cc

-- A port that is picked was free.
port-taken :
    (is_free : ℕ → Bool) (port : ℕ)
    → pick_server_port is_free ≡ ok port
    → port ≡ default_port
    → is_free default_port ≢ false
unfolding no_port
port-taken is_free port picked e taken = elim (pick_server_port-IsFirst is_free) [
  | inl (q, found, first) ↦
      let same : q ≡ port = cc (found, picked) in
      true-apart (sym first.free ∙ ap is_free (same ∙ e) ∙ taken)
  | inr (found, all) ↦ cc (found, picked)
]

module _ {F : Floats} {B : Broadcast (FileDropEvent F)} (env : Surroundings) (rt : Runtime F B)
    (peer : Uuid) (name : Text) where
  -- The payload says when its token ends: the peer's token, presented at `later`, is accepted exactly if it
  -- is that of the payload and fewer than 300 seconds have passed since the request; when the two reads of
  -- the clock agree, that is before the time that the payload tells.
  pub pair_device-present_token :
      (eng : FileDropEngine) (s t later : ℕ) (presented : Text)
      → rt.engine ≡ some eng
      → env.clock ≡ some s
      → env.clock_after ≡ some t
      → s + 300 < 2 ^ 63
      → t + 300 < 2 ^ 63
      → later < 2 ^ 63
      → IsText (generate_pairing_token env.encode env.random_bytes)
      → IsText presented
      → let out = pair_device env rt peer name in
        (p : QrPairingPayloadDto) × (eng' : FileDropEngine) × (out.0 ≡ done p)
        × (out.1.engine ≡ some eng')
        × (p.expires_at ≡ pos (t + 300))
        × (((present_token eng'.pairing (some later) peer presented).0 ≡ ok tt)
            ↔ ((later < s + 300) × (p.token ≡ presented)))
  unfolding pair_device payload
  pair_device-present_token eng s t later presented h cs ct hs ht hl token_text presented_text =
      let token = generate_pairing_token env.encode env.random_bytes in
      (
        payload env eng token,
        record eng { pairing = (create_request eng.pairing env.clock peer name token (pos 300)).1 },
        simp (h, pair_device) refl,
        simp (h, pair_device) refl,
        ap (λ c. chrono_now_plus_secs c (pos 300)) ct ∙ chrono-pos t ht,
        rw cs (
            present_token-create_request eng.pairing s 300 later peer name token presented hs hl
              token_text presented_text),
      )

  reply-port : port_of (pair_device env rt peer name).0 ≡ default_port
  unfolding pair_device payload
  reply-port = elim (Option-cases rt.engine) [
    | inl k ↦ simp (k, pair_device) refl
    | inr (eng, k) ↦ simp (k, pair_device) refl
  ]

  -- When another program holds port 53317, a server that has been started listens on another port, but the
  -- payload names 53317.
  pub pair_device-start_server :
      (show_uuid : Uuid → Text) (net : Network) (before : Runtime F B)
      (endpoint : ResolvedEndpointDto) (p : QrPairingPayloadDto)
      → net.is_free default_port ≡ false
      → start_server show_uuid net before ≡ (done endpoint, rt)
      → (pair_device env rt peer name).0 ≡ done p
      → (p.port ≡ default_port) × (endpoint.port ≢ default_port)
  pair_device-start_server show_uuid net before endpoint p taken h k = (
    sym (ap port_of k) ∙ reply-port,
    λ e. elim (start_server-cases show_uuid net before) [
      | inl (message, f) ↦ done-apart endpoint message (ap (λ out. out.0) (sym h ∙ f))
      | inr (other, f, picked) ↦
          let same : endpoint ≡ other = done-same endpoint other (ap (λ out. out.0) (sym h ∙ f)) in
          port-taken net.is_free other.port picked (sym (ap (λ r. r.port) same) ∙ e) taken
    ],
  )
