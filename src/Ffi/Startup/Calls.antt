-- ===== src/Ffi/Startup/Calls.antt =====
-- What starting and stopping leave behind, call by call and for any sequence of calls.
use mathlib.Core.Path.{subst}
use filedrop.Base.{
  ℕ, ◌+◌, ◌≡◌, refl, sym, ap, ◌∙◌, ◌⊎◌, inl, inr, Option, none, some, List, [], ◌∷◌, ◌++◌, arith,
  Text, text, length, Option-cases,
}
use filedrop.Errors.{Uuid, ok, display, Result-cases}
use filedrop.Engine.{FileDropEngine, Disk, init}
use filedrop.Networking.LanAddress.{local_ipv4_addresses}
use filedrop.Networking.PortScan.{pick_server_port}
use filedrop.Storage.History.{Json}
use filedrop.Transfer.Session.{Floats, Store}
use filedrop.Ffi.Events.{FileDropEvent}
use filedrop.Ffi.Channel.{Broadcast}
use filedrop.Ffi.Dto.{ResolvedEndpointDto}
use filedrop.Ffi.{Runtime, sent, dropped, done, refused, not_initialized, new_runtime}
use filedrop.Ffi.Startup.{
  end_sender, first_or, Network, init_engine, serve, start_server, stop_server, set_engine,
}
use filedrop.Ffi.Startup.Serving.{
  ports, IsServed, serving_from-append, ports-append, ports-nil, length-end_sender, end_sender-none,
}

module _ {F : Floats} {B : Broadcast (FileDropEvent F)} where
  serve-IsServed : (rt : Runtime F B) (port : ℕ) → IsServed rt → IsServed (serve rt port)
  unfolding serve
  serve-IsServed rt port h =
      let others = end_sender rt.server_shutdown dropped rt.servers in
      serving_from-append 0 port others
      ∙ ap (λ ns. ns ++ ((0 + length others) ∷ []))
          (end_sender-none dropped tt rt.server_shutdown rt.servers h)
      ∙ ap (λ k. k ∷ []) (omega (arith, length-end_sender rt.server_shutdown dropped rt.servers))

  ports-serve :
      (rt : Runtime F B) (port : ℕ) → IsServed rt → ports (serve rt port).servers ≡ port ∷ []
  unfolding serve
  ports-serve rt port h =
      let others = end_sender rt.server_shutdown dropped rt.servers in
      ports-append port others
      ∙ ap (λ ns. ns ++ (port ∷ []))
          (ports-nil 0 others (end_sender-none dropped tt rt.server_shutdown rt.servers h))

  -- After `stop_server` no server is left that has not been told to shut down.
  pub ports-stop_server :
      (rt : Runtime F B)
      → IsServed rt
      → IsServed (stop_server rt).1 × (ports (stop_server rt).1.servers ≡ [])
  unfolding stop_server
  ports-stop_server rt h =
      let ended = end_sender-none sent tt rt.server_shutdown rt.servers h in
      (ended, ports-nil 0 (end_sender rt.server_shutdown sent rt.servers) ended)

module _ {F : Floats} {B : Broadcast (FileDropEvent F)} (show_uuid : Uuid → Text) where
  -- `start_server` fails and changes nothing, or serves on the port that it replies with.
  pub start_server-cases :
      (net : Network) (rt : Runtime F B)
      → ((message : Text) × (start_server show_uuid net rt ≡ (refused message, rt)))
        ⊎ ((endpoint : ResolvedEndpointDto) × (start_server show_uuid net rt
              ≡ (done endpoint, serve rt endpoint.port))
            × (pick_server_port net.is_free ≡ ok endpoint.port))
  unfolding start_server
  start_server-cases net rt = elim (Option-cases rt.engine) [
    | inl e ↦ inl (not_initialized, simp (e, start_server) refl)
    | inr (eng, e) ↦ elim (Result-cases (pick_server_port net.is_free)) [
      | inl (x, p) ↦ inl (display show_uuid x, simp (e, p, start_server) refl)
      | inr (port, p) ↦ elim (Option-cases net.bind) [
        | inr (x, b) ↦ inl (x, simp (e, p, b, start_server) refl)
        | inl b ↦ elim (Option-cases net.local_addr) [
          | inr (x, l) ↦ inl (x, simp (e, p, b, l, start_server) refl)
          | inl l ↦ inr (
            record {
              address = first_or (text "0.0.0.0") (local_ipv4_addresses net.route);
              port = port;
            },
            simp (e, p, b, l, start_server) refl,
            p,
          )
        ]
      ]
    ]
  ]

  -- A server that has been started is the only one that has not been told to shut down, and it is on the
  -- port of the reply; a call that fails changes nothing.
  pub ports-start_server :
      (net : Network) (rt : Runtime F B)
      → IsServed rt
      → let out = start_server show_uuid net rt in
        IsServed out.1
        × (((message : Text) × (out ≡ (refused message, rt)))
            ⊎ ((endpoint : ResolvedEndpointDto) × (out.0 ≡ done endpoint)
                × (ports out.1.servers ≡ endpoint.port ∷ [])))
  ports-start_server net rt h = elim (start_server-cases net rt) [
    | inl (message, e) ↦ (rw e h, inl (message, e))
    | inr (endpoint, e, _) ↦ (
      rw e (serve-IsServed rt endpoint.port h),
      inr (endpoint, ap (λ r. r.0) e, rw e (ports-serve rt endpoint.port h)),
    )
  ]

-- A call of the application, with what the system answers to it.
pub data Call : Type 0 where
  inits : Json → Disk → Uuid → Text → Text → Call
  starts : Network → Call
  stops : Call

module _ {F : Floats} {B : Broadcast (FileDropEvent F)} (show_uuid : Uuid → Text) where
  abbrev pub call : Call → Runtime F B → Runtime F B
  call (inits json disk id name dir) rt = (init_engine show_uuid json disk id rt name dir).0.1
  call (starts net) rt = (start_server show_uuid net rt).1
  call stops rt = (stop_server rt).1

  unfoldable pub run_calls : List Call → Runtime F B → Runtime F B
  run_calls [] rt = rt
  run_calls (c ∷ calls) rt = run_calls calls (call c rt)

  set_engine-cases :
      (rt : Runtime F B) (old : Option FileDropEngine) (eng : FileDropEngine)
      → ((message : Text) × (set_engine rt old eng ≡ (refused message, rt)))
        ⊎ ((old ≡ none)
            × (set_engine rt old eng ≡ (done eng.device_id, record rt { engine = some eng })))
  unfolding set_engine
  set_engine-cases rt none eng = inr (refl, refl)
  set_engine-cases rt (some old) eng = inl (text "engine already initialized", refl)

  -- `init_engine` fails and changes nothing in the runtime, or there was no engine before it, and there
  -- is one with the id of the reply after it; so an engine is never replaced.
  pub init_engine-cases :
      (json : Json) (disk : Disk) (id : Uuid) (rt : Runtime F B) (name dir : Text)
      → let out = (init_engine show_uuid json disk id rt name dir).0 in
        ((message : Text) × (out ≡ (refused message, rt)))
        ⊎ ((eng : FileDropEngine) × (rt.engine ≡ none)
            × (out ≡ (done eng.device_id, record rt { engine = some eng })))
  unfolding init_engine
  init_engine-cases json disk id rt name dir = elim (Result-cases (init json disk id name dir).0) [
    | inl (x, e) ↦ inl (display show_uuid x, rw (e, init_engine) refl)
    | inr (eng, e) ↦ elim (set_engine-cases rt rt.engine eng) [
      | inl (message, k) ↦ inl (message, rw (e, init_engine) k)
      | inr (before, k) ↦ inr (eng, before, rw (e, init_engine) k)
    ]
  ]

  pub call-IsServed : (c : Call) (rt : Runtime F B) → IsServed rt → IsServed (call c rt)
  call-IsServed (inits json disk id name dir) rt h =
      elim (init_engine-cases json disk id rt name dir) [
        | inl (message, e) ↦ subst (λ out. IsServed out.1) (sym e) h
        | inr (eng, _, e) ↦ subst (λ out. IsServed out.1) (sym e) h
      ]
  call-IsServed (starts net) rt h = (ports-start_server show_uuid net rt h).0
  call-IsServed stops rt h = (ports-stop_server rt h).0

  run_calls-kept :
      (calls : List Call) (rt : Runtime F B) → IsServed rt → IsServed (run_calls calls rt)
  unfolding run_calls
  run_calls-kept [] rt h = h
  run_calls-kept (c ∷ calls) rt h = run_calls-kept calls (call c rt) (call-IsServed c rt h)

module _ (F : Floats) (B : Broadcast (FileDropEvent F)) (show_uuid : Uuid → Text) where
  -- However the application starts and stops the server, at every time exactly the server whose sender
  -- the runtime holds has not been told to shut down: there is at most one, and starting a second one
  -- ends the first.
  pub run_calls-IsServed :
      (calls : List Call) (store : Store)
      → IsServed (run_calls show_uuid calls (new_runtime F B store))
  unfolding new_runtime
  run_calls-IsServed calls store = run_calls-kept show_uuid calls (new_runtime F B store) refl
