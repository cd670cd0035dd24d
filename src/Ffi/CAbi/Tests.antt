-- ===== src/Ffi/CAbi/Tests.antt =====
-- Runs of the C interface at concrete inputs.
use filedrop.Base.{ℕ, nat_eq, ◌≡◌, refl, true, false, none, some, List, [], ◌∷◌, Text, text}
use filedrop.Errors.{Uuid}
use filedrop.Ffi.CAbi.{Serde}
use filedrop.Ffi.CAbi.Envelope.{has_nul, IsJson, IsEnvelope}
use filedrop.Ffi.CAbi.Machine
use filedrop.Ffi.CAbi.Machine.{CCall, c_call, Happening, happen_all}
use filedrop.Ffi.CAbi.Responses.{c_call-IsEnvelope}
use filedrop.Ffi.CAbi.Run.{happen_all-IsWhole}
use filedrop.Ffi.CAbi.Whole.{IsWhole}
use filedrop.Ffi.Samples.{whole, channel, store, runtime, serde, answers, net, show_id}
use filedrop.Ffi.{new_runtime}

show_id_clean : (id : Uuid) → has_nul (show_id id) ≡ false
unfolding filedrop.Base.ℕ_discrete
show_id_clean filedrop.Base.zero = refl
show_id_clean (filedrop.Base.suc id) = show_id_clean id

serde-IsJson : IsJson serde
unfolding filedrop.Base.ℕ_discrete
serde-IsJson = record {
  ids_shown = show_id_clean;
  strings = λ s. refl;
  endpoints = λ e. refl;
  payloads = λ p. refl;
  ids = λ l. refl;
  progresses = λ p. refl;
}

-- The id is not UTF-8.
c_call-IsEnvelope_example :
    IsEnvelope (c_call serde (Machine.CCall.cancel_transfer (some (0xFF ∷ []))) runtime).0
c_call-IsEnvelope_example =
    c_call-IsEnvelope serde serde-IsJson runtime (Machine.CCall.cancel_transfer (some (0xFF ∷ [])))
      refl

abbrev happenings : List (Happening whole)
happenings =
    Machine.Happening.calls (Machine.CCall.start_discovery answers (some []))
    ∷ Machine.Happening.calls (Machine.CCall.start_server net)
    ∷ Machine.Happening.datagrams
    ∷ Machine.Happening.calls Machine.CCall.stop_discovery
    ∷ Machine.Happening.calls Machine.CCall.stop_server
    ∷ []

happen_all-IsWhole_example : IsWhole (happen_all serde happenings (new_runtime whole channel store))
happen_all-IsWhole_example = happen_all-IsWhole whole channel serde happenings store

-- Of a response with a NUL only a fixed error is left, which has no field `ok`.
to_c_string_nul :
    filedrop.Ffi.CAbi.to_c_string (0 ∷ []) ≡ text "{\"error\":\"interior NUL in response\"}"
unfolding filedrop.Ffi.CAbi.to_c_string filedrop.Base.ℕ_discrete
to_c_string_nul = refl
