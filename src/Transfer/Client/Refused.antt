-- ===== src/Transfer/Client/Refused.antt =====
-- A name that the server does not read.
use filedrop.Base.{
  ℕ, zero, suc, ◌+◌, ◌-◌, ◌%◌, ◌≤◌, ◌<◌, ◌≡◌, ◌≢◌, refl, sym, ap, ◌∙◌, ◌⊎◌, inl, inr, Bool, true,
  false, not, ◌&&◌, ◌||◌, Option, none, some, List, [], ◌∷◌, ◌++◌, arith, ltb, leb, ◌==◌, nat_eq,
  list_eq, if◌then◌else◌, Text, text, length, concat, drop, All, Bool-cases, Option-cases,
}
use filedrop.Base.Dict.{lookup}
use filedrop.Errors.{Uuid, FileDropError, err, Result-cases}
use filedrop.Security.Checksum.{Sha256}
use filedrop.Security.Checksum.Streamed.{sha256_file-answers}
use filedrop.Storage.StoragePaths.{StoragePaths}
use filedrop.Transfer.Server.{Request, Faults, AppState, Outcome, reply}
use filedrop.Transfer.Server.Handler.{prepare, receive_transfer}
use filedrop.Transfer.Client.{
  Source, Outgoing, Answer, source_name, outgoing, SendOptions, send_content, send_file,
}
use filedrop.Errors.{io}
use filedrop.Transfer.Client.{to_result, SendOptions}
use filedrop.Transfer.Client.Delivery.{IsVisible, IsToStr, request_of, answer_of}

-- Characters that the client's library takes in a header: all but control characters.
abbrev pub is_sendable : ℕ → Bool
is_sendable c = (leb 32 c && not (c == 127)) || c == 9

module _ (H : Sha256) (to_str : Text → Option Text) (T : IsToStr to_str)
    (cut : List ℕ → List (List ℕ)) (source : Source) (hidden : IsVisible (source_name source) → ⊥)
    (show_uuid : Uuid → Text) (paths : StoragePaths) (faults : Faults) (id : Uuid)
    (st : AppState) where
  abbrev at_peer : Request → Outcome × AppState
  at_peer request = receive_transfer H show_uuid paths faults id request st

  abbrev answer : Outgoing → Answer
  answer out = answer_of (at_peer (request_of to_str cut out)).0

  refused :
      (content : List ℕ) (checksum : Option Text) (from : ℕ)
      → at_peer (request_of to_str cut (outgoing (source_name source) content checksum from))
        ≡ (reply 400 (text "missing X-FileDrop-Filename"), st)
  unfolding outgoing receive_transfer prepare lookup filedrop.Base.ℕ_discrete list_eq
  refused content checksum from = rw (T.others (source_name source) hidden, receive_transfer) refl

  -- What the client makes of that.
  refused_result :
      (content : List ℕ) (checksum : Option Text) (from : ℕ)
      → (e : FileDropError) × (to_result
            (answer (outgoing (source_name source) content checksum from))
          ≡ err e)
  refused_result content checksum from =
      (_, ap (λ out. to_result (answer_of out.0)) (refused content checksum from))

  send_content-refused :
      (opts : SendOptions) (content : List ℕ) (checksum : Option Text)
      → (e : FileDropError) × (send_content H answer source opts content checksum ≡ err e)
  unfolding send_content
  send_content-refused opts content checksum =
      let (e, k) = refused_result content checksum opts.resume_from in
      elim (Bool-cases (ltb 0 opts.resume_from)) [
        | inr z ↦
            let step : send_content H answer source opts content checksum
                ≡ to_result
                    (answer (outgoing (source_name source) content checksum opts.resume_from)) =
              simp (z, send_content) refl in
            (e, step ∙ k)
        | inl p ↦ elim (Option-cases source.seek) [
          | inl n ↦
              let step : send_content H answer source opts content checksum
                  ≡ to_result
                      (answer (outgoing (source_name source) content checksum opts.resume_from)) =
                simp (p, n, send_content) refl in
              (e, step ∙ k)
          | inr (m, n) ↦ (io m, simp (p, n, send_content) refl)
        ]
      ]

  -- A file whose name is not of visible ASCII cannot be sent: although the client's library takes such a
  -- name in a header, if it has no control characters, the server does not read it, answers 400 as if
  -- the header was missing, and changes nothing; the client reports an error, with any options.
  pub send_file-refused :
      (opts : SendOptions)
      → All (λ c. is_sendable c ≡ true) (source_name source)
      → ((e : FileDropError) × (send_file H answer source opts ≡ some (err e)))
        × ((content : List ℕ) (checksum : Option Text)
            → at_peer (
                request_of to_str cut
                  (outgoing (source_name source) content checksum opts.resume_from))
              ≡ (reply 400 (text "missing X-FileDrop-Filename"), st))
  unfolding send_file
  send_file-refused opts sendable = (
    elim (Option-cases source.content) [
      | inl n ↦ (io (text "metadata failed"), rw (n, send_file) refl)
      | inr (content, n) ↦ elim (Bool-cases opts.verify_checksum) [
        | inr v ↦
            let (e, k) = send_content-refused opts content none in
            let step : send_file H answer source opts
                ≡ some (send_content H answer source opts content none) =
              simp (n, v, send_file) refl in
            (e, step ∙ ap some k)
        | inl v ↦
            let (r, a) = sha256_file-answers H source.reads (some content) in
            elim (Result-cases r) [
              | inl (e, k) ↦ (e, simp (n, v, a, k, send_file) refl)
              | inr (sum, k) ↦
                  let (e, l) = send_content-refused opts content (some sum) in
                  let step : send_file H answer source opts
                      ≡ some (send_content H answer source opts content (some sum)) =
                    simp (n, v, a, k, send_file) refl in
                  (e, step ∙ ap some l)
            ]
      ]
    ],
    λ content checksum. refused content checksum opts.resume_from,
  )
