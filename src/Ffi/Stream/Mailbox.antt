-- ===== src/Ffi/Stream/Mailbox.antt =====
-- The abstract view of a receiver: a mailbox of the events that it has not got yet.
use filedrop.Base.{
  ℕ, suc, ◌+◌, ◌-◌, ◌≤◌, ◌≡◌, refl, sym, ap, ◌∙◌, Bool, Option, none, some, List, [], ◌∷◌, ◌++◌,
  arith, append-nil, append_assoc, ltb, if◌then◌else◌, length, drop, length-append,
}
use filedrop.Ffi.Channel.{Broadcast, IsBroadcast}
use filedrop.Ffi.{event_channel_capacity}
use filedrop.Ffi.Stream.{Act, emits, asks, Turn, sends, runs}

pred-suc : (n : ℕ) → suc n - 1 ≡ n
pred-suc n = omega arith

module _ {ℓ} {E : Type ℓ} where
  abbrev pub first : List E → Option E × List E
  first [] = (none, [])
  first (event ∷ rest) = (some event, rest)

  -- Asking a mailbox: its first event; but if more than the capacity are in it, nothing, and all but the
  -- last ones are lost.
  unfoldable pub ask : List E → Option E × List E
  ask mailbox =
      if ltb event_channel_capacity (length mailbox)
      then (none, drop (length mailbox - event_channel_capacity) mailbox)
      else first mailbox

  unfoldable pub replay : List (Act E) → List E → List (Option E) × List E
  replay [] mailbox = ([], mailbox)
  replay (emits event ∷ acts) mailbox = replay acts (mailbox ++ (event ∷ []))
  replay (asks ∷ acts) mailbox =
      let out = ask mailbox in let rest = replay acts out.1 in (out.0 ∷ rest.0, rest.1)

  -- What a sink gets of a mailbox, until it refuses an event.
  unfoldable pub pass_on : Bool → Option E → List (Option E) → List (Option E)
  pass_on takes none more = none ∷ more
  pass_on takes (some event) more = if takes then some event ∷ more else none ∷ []

  unfoldable pub relay : List (Turn E) → List E → List (Option E)
  unfolding pass_on
  relay [] mailbox = []
  relay (sends event ∷ turns) mailbox = relay turns (mailbox ++ (event ∷ []))
  relay (runs takes ∷ turns) mailbox =
      let out = ask mailbox in let more = relay turns out.1 in pass_on takes out.0 more

  -- All that is emitted, and all that is got.
  abbrev pub emitted : List (Act E) → List E
  emitted [] = []
  emitted (emits event ∷ acts) = event ∷ emitted acts
  emitted (asks ∷ acts) = emitted acts

  abbrev pub got : List (Option E) → List E
  got [] = []
  got (none ∷ answers) = got answers
  got (some event ∷ answers) = event ∷ got answers

  -- No more than the capacity are ever waiting when the receiver is asked, with `n` waiting at first.
  abbrev pub KeepsUp : ℕ → List (Act E) → Type 0
  KeepsUp n [] = Unit {0}
  KeepsUp n (emits event ∷ acts) = KeepsUp (n + 1) acts
  KeepsUp n (asks ∷ acts) = (n ≤ event_channel_capacity) × KeepsUp (n - 1) acts

  -- How many wait at the end, with `n` waiting at first, when each event that is emitted adds one and
  -- each question takes one, if there is one.
  abbrev pub left : ℕ → List (Act E) → ℕ
  left n [] = n
  left n (emits event ∷ acts) = left (n + 1) acts
  left n (asks ∷ acts) = left (n - 1) acts

  ask_small :
      (mailbox : List E) → length mailbox ≤ event_channel_capacity → ask mailbox ≡ first mailbox
  unfolding ask
  ask_small mailbox h = ground arith

  -- Nothing is lost, and the order is kept, by a receiver that keeps up.
  pub replay-KeepsUp :
      (acts : List (Act E)) (mailbox : List E)
      → KeepsUp (length mailbox) acts
      → got (replay acts mailbox).0 ++ (replay acts mailbox).1 ≡ mailbox ++ emitted acts
  unfolding replay
  replay-KeepsUp [] mailbox h = sym (append-nil mailbox)
  replay-KeepsUp (emits event ∷ acts) mailbox h =
      replay-KeepsUp acts (mailbox ++ (event ∷ [])) (rw (length-append mailbox (event ∷ [])) h)
      ∙ append_assoc mailbox (event ∷ []) (emitted acts)
  replay-KeepsUp (asks ∷ acts) [] h = rw (ask_small [] h.0) (replay-KeepsUp acts [] h.1)
  replay-KeepsUp (asks ∷ acts) (event ∷ mailbox) h =
      rw (ask_small (event ∷ mailbox) h.0)
        (ap (◌∷◌ event) (replay-KeepsUp acts mailbox (rw (pred-suc (length mailbox)) at h.1)))

  pub left-replay :
      (acts : List (Act E)) (mailbox : List E)
      → KeepsUp (length mailbox) acts
      → length (replay acts mailbox).1 ≡ left (length mailbox) acts
  unfolding replay
  left-replay [] mailbox h = refl
  left-replay (emits event ∷ acts) mailbox h =
      left-replay acts (mailbox ++ (event ∷ [])) (rw (length-append mailbox (event ∷ [])) h)
      ∙ ap (λ n. left n acts) (length-append mailbox (event ∷ []))
  left-replay (asks ∷ acts) [] h = rw (ask_small [] h.0) (left-replay acts [] h.1)
  left-replay (asks ∷ acts) (event ∷ mailbox) h = rw (ask_small (event ∷ mailbox) h.0) (
      left-replay acts mailbox (rw (pred-suc (length mailbox)) at h.1)
      ∙ ap (λ n. left n acts) (sym (pred-suc (length mailbox))))

-- The receiver `rx` is as far behind `tx` as the mailbox says.
pub record Shows {E : Type 0} {B : Broadcast E} (L : IsBroadcast B event_channel_capacity)
    (tx : B.Sender) (rx : B.Receiver) (mailbox : List E) : Type 0 where
  pub ahead : drop (L.seen rx) (L.sent tx) ≡ mailbox
  pub past : L.seen rx ≤ length (L.sent tx)
