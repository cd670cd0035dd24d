-- ===== src/Ffi/Startup/Serving.antt =====
-- At most one server serves, and the runtime holds its sender.
use filedrop.Base.{
  ℕ, zero, suc, ◌+◌, ◌≤◌, ◌≡◌, refl, ap, ◌∙◌, Option, none, some, List, [], ◌∷◌, ◌++◌, arith,
  length,
}
use filedrop.Transfer.Session.{Floats}
use filedrop.Ffi.Events.{FileDropEvent}
use filedrop.Ffi.Channel.{Broadcast}
use filedrop.Ffi.{Runtime, Server, Shutdown, held, sent, dropped}
use filedrop.Ffi.Startup.{set_shutdown, end_sender}

abbrev keep : Shutdown → ℕ → List ℕ → List ℕ
keep held n ns = n ∷ ns
keep sent n ns = ns
keep dropped n ns = ns

-- The numbers of the servers that have not been told to shut down.
abbrev pub serving_from : ℕ → List Server → List ℕ
serving_from n [] = []
serving_from n (server ∷ servers) = keep server.shutdown n (serving_from (suc n) servers)

-- Their ports.
abbrev pub ports : List Server → List ℕ
ports [] = []
ports (server ∷ servers) = keep server.shutdown server.port (ports servers)

abbrev pub to_list : Option ℕ → List ℕ
to_list none = []
to_list (some n) = n ∷ []

-- Exactly the server whose sender the runtime holds has not been told to shut down.
abbrev pub IsServed : {F : Floats} {B : Broadcast (FileDropEvent F)} → Runtime F B → Type 0
IsServed rt = serving_from 0 rt.servers ≡ to_list rt.server_shutdown

cons-le :
    (s : Shutdown) (n i : ℕ) (ns more : List ℕ)
    → ((j : ℕ) (js : List ℕ) → ns ≡ j ∷ js → suc n ≤ j)
    → keep s n ns ≡ i ∷ more
    → n ≤ i
cons-le held n i ns more h e = ground arith
cons-le sent n i ns more h e = omega (arith, h i more e)
cons-le dropped n i ns more h e = omega (arith, h i more e)

serving_from-le :
    (n : ℕ) (servers : List Server) (i : ℕ) (more : List ℕ)
    → serving_from n servers ≡ i ∷ more
    → n ≤ i
serving_from-le n [] i more h = cc
serving_from-le n (server ∷ servers) i more h =
    cons-le server.shutdown n i (serving_from (suc n) servers) more
      (λ j js e. serving_from-le (suc n) servers j js e) h

abbrev pub IsEnd : Shutdown → Type 0
IsEnd held = ⊥
IsEnd sent = Unit {0}
IsEnd dropped = Unit {0}

keep-IsEnd : (s : Shutdown) (n : ℕ) (ns : List ℕ) → IsEnd s → keep s n ns ≡ ns
keep-IsEnd held n ns h = absurd h
keep-IsEnd sent n ns h = refl
keep-IsEnd dropped n ns h = refl

ended-here :
    (s : Shutdown) (n : ℕ) (ns : List ℕ)
    → ((j : ℕ) (js : List ℕ) → ns ≡ j ∷ js → suc n ≤ j)
    → keep s n ns ≡ (n + 0) ∷ []
    → ns ≡ []
ended-here held n ns h e = ground arith
ended-here sent n ns h e = absurd (omega (arith, h (n + 0) [] e))
ended-here dropped n ns h e = absurd (omega (arith, h (n + 0) [] e))

ended-later :
    (s : Shutdown) (n m : ℕ) (ns ns' : List ℕ)
    → (ns ≡ (suc n + m) ∷ [] → ns' ≡ [])
    → keep s n ns ≡ (n + suc m) ∷ []
    → keep s n ns' ≡ []
ended-later held n m ns ns' h e = absurd (ground arith)
ended-later sent n m ns ns' h e = h (e ∙ ap (λ k. k ∷ []) (omega arith))
ended-later dropped n m ns ns' h e = h (e ∙ ap (λ k. k ∷ []) (omega arith))

-- When the only server that serves is told to end, none serves.
serving_from-set_shutdown :
    (s : Shutdown)
    → IsEnd s
    → (n m : ℕ) (servers : List Server) → serving_from n servers ≡ (n + m) ∷ []
    → serving_from n (set_shutdown m s servers) ≡ []
unfolding set_shutdown
serving_from-set_shutdown s is_end n m [] h = cc
serving_from-set_shutdown s is_end n zero (server ∷ servers) h =
    keep-IsEnd s n (serving_from (suc n) servers) is_end
    ∙ ended-here server.shutdown n (serving_from (suc n) servers)
        (λ j js e. serving_from-le (suc n) servers j js e) h
serving_from-set_shutdown s is_end n (suc m) (server ∷ servers) h =
    ended-later server.shutdown n m (serving_from (suc n) servers)
      (serving_from (suc n) (set_shutdown m s servers))
      (serving_from-set_shutdown s is_end (suc n) m servers) h

pub end_sender-none :
    (s : Shutdown)
    → IsEnd s
    → (sender : Option ℕ) (servers : List Server) → serving_from 0 servers ≡ to_list sender
    → serving_from 0 (end_sender sender s servers) ≡ []
end_sender-none s is_end none servers h = h
end_sender-none s is_end (some n) servers h =
    serving_from-set_shutdown s is_end 0 n servers (h ∙ ap (λ k. k ∷ []) (omega arith))

keep-append : (s : Shutdown) (n : ℕ) (ns ms : List ℕ) → keep s n (ns ++ ms) ≡ keep s n ns ++ ms
keep-append held n ns ms = refl
keep-append sent n ns ms = refl
keep-append dropped n ns ms = refl

pub serving_from-append :
    (n port : ℕ) (servers : List Server)
    → serving_from n (servers ++ (record { port = port; shutdown = held } ∷ []))
      ≡ serving_from n servers ++ ((n + length servers) ∷ [])
serving_from-append n port [] = ap (λ k. k ∷ []) (omega arith)
serving_from-append n port (server ∷ servers) =
    ap (keep server.shutdown n) (
      serving_from-append (suc n) port servers
      ∙ ap (λ k. serving_from (suc n) servers ++ (k ∷ [])) (omega arith))
    ∙ keep-append server.shutdown n (serving_from (suc n) servers)
        ((n + length (server ∷ servers)) ∷ [])

pub ports-append :
    (port : ℕ) (servers : List Server)
    → ports (servers ++ (record { port = port; shutdown = held } ∷ []))
      ≡ ports servers ++ (port ∷ [])
ports-append port [] = refl
ports-append port (server ∷ servers) =
    ap (keep server.shutdown server.port) (ports-append port servers)
    ∙ keep-append server.shutdown server.port (ports servers) (port ∷ [])

keep-nil :
    (s : Shutdown) (n k : ℕ) (ns ms : List ℕ)
    → (ns ≡ [] → ms ≡ [])
    → keep s n ns ≡ []
    → keep s k ms ≡ []
keep-nil held n k ns ms h e = cc
keep-nil sent n k ns ms h e = h e
keep-nil dropped n k ns ms h e = h e

pub ports-nil : (n : ℕ) (servers : List Server) → serving_from n servers ≡ [] → ports servers ≡ []
ports-nil n [] h = refl
ports-nil n (server ∷ servers) h =
    keep-nil server.shutdown n server.port (serving_from (suc n) servers) (ports servers)
      (ports-nil (suc n) servers) h

length-set_shutdown :
    (n : ℕ) (s : Shutdown) (servers : List Server)
    → length (set_shutdown n s servers) ≡ length servers
unfolding set_shutdown
length-set_shutdown n s [] = refl
length-set_shutdown zero s (server ∷ servers) = refl
length-set_shutdown (suc n) s (server ∷ servers) = ap suc (length-set_shutdown n s servers)

pub length-end_sender :
    (sender : Option ℕ) (s : Shutdown) (servers : List Server)
    → length (end_sender sender s servers) ≡ length servers
length-end_sender none s servers = refl
length-end_sender (some n) s servers = length-set_shutdown n s servers
