-- ===== src/Ffi/CAbi/Envelope.antt =====
-- What the exported functions return.
use filedrop.Base.{
  ℕ, ◌≡◌, refl, ap, ◌∙◌, ◌⊎◌, inl, inr, Bool, true, false, ◌||◌, Option, none, some, List, [], ◌∷◌,
  ◌++◌, append_assoc, arith, ◌==◌, nat_eq, any, Text, text, Option-cases,
}
use filedrop.Base.Strings.Laws.{any-append}
use filedrop.Errors.{Uuid}
use filedrop.Transfer.Session.{Floats}
use filedrop.Ffi.CAbi.{
  Serde, CStr, from_c_string, to_c_string, json_err, ok_or_err, ok_body, body_or_err, init_body,
}
use filedrop.Ffi.CAbi.Calls
use filedrop.Ffi.CAbi.Machine
use filedrop.Ffi.CAbi.Machine.{CCall, c_call}
use filedrop.Ffi.Channel.{Broadcast}
use filedrop.Ffi.Events.{FileDropEvent, or_text}
use filedrop.Ffi.{Reply, done, refused, Runtime}

abbrev pub has_nul : Text → Bool
has_nul = any (λ c. c == 0)

-- JSON escapes control characters, so what is serialized has no NUL.
abbrev pub IsNulFree {ℓ} : {A : Type ℓ} → (A → Option Text) → Type ℓ
IsNulFree {A = A} f = (a : A) → has_nul (or_text (text "") (f a)) ≡ false

pub record IsJson {F : Floats} (serde : Serde F) : Type 0 where
  pub ids_shown : (id : Uuid) → has_nul (serde.show_uuid id) ≡ false
  pub strings : IsNulFree serde.of_string
  pub endpoints : IsNulFree serde.of_endpoint
  pub payloads : IsNulFree serde.of_payload
  pub ids : IsNulFree serde.of_ids
  pub progresses : IsNulFree serde.of_progress

abbrev pub ok_prefix : Text
ok_prefix = text "{\"ok\":true"

abbrev pub err_prefix : Text
err_prefix = text "{\"ok\":false,\"error\":"

-- An envelope, of a success or of a failure.
abbrev pub IsEnvelope : Text → Type 0
IsEnvelope t = (rest : Text) × ((t ≡ ok_prefix ++ rest) ⊎ (t ≡ err_prefix ++ rest))

to_c_string-same : (s : Text) → has_nul s ≡ false → to_c_string s ≡ s
unfolding to_c_string
to_c_string-same s h = rw h refl

-- A text that is to be returned, an envelope with no NUL.
abbrev pub IsResponse : Text → Type 0
IsResponse t = (has_nul t ≡ false) × IsEnvelope t

pub returned : (t : Text) → IsResponse t → IsEnvelope (to_c_string t)
returned t (clean, (rest, inl e)) = (rest, inl (to_c_string-same t clean ∙ e))
returned t (clean, (rest, inr e)) = (rest, inr (to_c_string-same t clean ∙ e))

module _ {F : Floats} (serde : Serde F) (J : IsJson serde) where
  pub json_err-IsResponse : (msg : Text) → IsResponse (json_err serde msg)
  unfolding json_err filedrop.Base.ℕ_discrete
  json_err-IsResponse msg = (
    any-append (λ c. c == 0) err_prefix (or_text (text "") (serde.of_string msg) ++ text "}") refl
        (any-append (λ c. c == 0) (or_text (text "") (serde.of_string msg)) (text "}")
          (J.strings msg) refl),
    (or_text (text "") (serde.of_string msg) ++ text "}", inr refl),
  )

  pub ok_or_err-IsResponse : (r : Reply (Unit {0})) → IsResponse (ok_or_err serde r)
  unfolding ok_or_err filedrop.Base.ℕ_discrete
  ok_or_err-IsResponse (done _) = (refl, (text "}", inl refl))
  ok_or_err-IsResponse (refused e) = json_err-IsResponse e

  ok_body-IsResponse :
      (field : Text) (o : Option Text)
      → has_nul field ≡ false
      → has_nul (or_text (text "") o) ≡ false
      → IsResponse (ok_body serde field o)
  unfolding ok_body filedrop.Base.ℕ_discrete
  ok_body-IsResponse field none h k = json_err-IsResponse (text "serialization failure")
  ok_body-IsResponse field (some body) h k = (
    any-append (λ c. c == 0) (text "{\"ok\":true,\"") (field ++ (text "\":" ++ (body ++ text "}")))
        refl
        (any-append (λ c. c == 0) field (text "\":" ++ (body ++ text "}")) h
          (any-append (λ c. c == 0) (text "\":") (body ++ text "}") refl
            (any-append (λ c. c == 0) body (text "}") k refl))),
    (text ",\"" ++ (field ++ (text "\":" ++ (body ++ text "}"))), inl refl),
  )

  pub body_or_err-IsResponse {ℓ} :
      {A : Type ℓ} (field : Text) (of_body : A → Option Text) (r : Reply A)
      → has_nul field ≡ false
      → IsNulFree of_body
      → IsResponse (body_or_err serde field of_body r)
  unfolding body_or_err
  body_or_err-IsResponse field of_body (done a) h k = ok_body-IsResponse field (of_body a) h (k a)
  body_or_err-IsResponse field of_body (refused e) h k = json_err-IsResponse e

  pub init_body-IsResponse : (r : Reply Uuid) → IsResponse (init_body serde r)
  unfolding init_body filedrop.Base.ℕ_discrete
  init_body-IsResponse (done id) = (
    any-append (λ c. c == 0) (text "{\"ok\":true,\"device_id\":\"")
        (serde.show_uuid id ++ text "\"}") refl
        (any-append (λ c. c == 0) (serde.show_uuid id) (text "\"}") (J.ids_shown id) refl),
    (text ",\"device_id\":\"" ++ (serde.show_uuid id ++ text "\"}"), inl refl),
  )
  init_body-IsResponse (refused e) = json_err-IsResponse e

-- The calls whose result is put into an envelope: all but the two lists and the poll.
abbrev pub has_envelope : {F : Floats} → CCall F → Bool
has_envelope Machine.CCall.get_nearby_devices = false
has_envelope Machine.CCall.get_transfer_history = false
has_envelope Machine.CCall.poll_event = false
has_envelope c = true

module _ {F : Floats} {B : Broadcast (FileDropEvent F)} (serde : Serde F) (J : IsJson serde)
    (rt : Runtime F B) where
  pub fail-IsEnvelope : (msg : Text) → IsEnvelope (Calls.fail serde rt msg).0
  fail-IsEnvelope msg = returned (json_err serde msg) (json_err-IsResponse serde J msg)

  pub transfer_id_fn-IsEnvelope :
      (f : Runtime F B → Uuid → Reply (Unit {0}) × Runtime F B) (id : CStr)
      → IsEnvelope (Calls.transfer_id_fn serde f rt id).0
  unfolding Calls.transfer_id_fn
  transfer_id_fn-IsEnvelope f id = elim (Option-cases (from_c_string id)) [
    | inl e ↦ rw (e, Calls.transfer_id_fn) (fail-IsEnvelope (text "invalid transfer_id"))
    | inr (s, e) ↦ elim (Option-cases (serde.parse_uuid s)) [
      | inl k ↦
          rw (e, k, Calls.transfer_id_fn) (fail-IsEnvelope (text "transfer_id is not a valid UUID"))
      | inr (u, k) ↦
          rw (e, k, Calls.transfer_id_fn)
            (returned (ok_or_err serde (f rt u).0) (ok_or_err-IsResponse serde J (f rt u).0))
    ]
  ]
