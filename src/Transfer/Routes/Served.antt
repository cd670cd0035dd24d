-- ===== src/Transfer/Routes/Served.antt =====
-- Which handler a request reaches.
use filedrop.Base.{
  ℕ, ◌≡◌, refl, sym, ap, ◌∙◌, Bool, true, false, ◌&&◌, ◌||◌, Option, none, some, List, [], ◌∷◌,
  ◌++◌, arith, leb, ◌==◌, nat_eq, list_eq, Text, text, length, concat, All, All-append, any,
}
use filedrop.Base.Paths.{is_slash}
use filedrop.Base.Paths.Plain.{split-same}
use filedrop.Base.Strings.{split}
use filedrop.Base.Strings.Cuts.{split-sep}
use filedrop.Base.Strings.Laws.{any-append}
use filedrop.Errors.{Uuid}
use filedrop.Security.Checksum.{Sha256}
use filedrop.Storage.StoragePaths.{StoragePaths}
use filedrop.Transfer.Server.{Request, Faults, AppState, reply, transfer_status}
use filedrop.Transfer.Server.Handler.{receive_transfer}
use filedrop.Transfer.Routes.{
  get, post, Endpoint, Route, Library, build_router, health, status_outcome, run_endpoint,
  serve_request,
}
use filedrop.Transfer.Routes.Axum.{is_percent, fits, fitting, IsRouter}

-- The characters of a UUID as it is shown.
abbrev pub is_uuid_char : ℕ → Bool
is_uuid_char c = (leb b'0' c && leb c b'9') || ((leb b'a' c && leb c b'f') || c == b'-')

pub record IsUuidText (id : Text) : Type 0 where
  pub chars : All (λ c. is_uuid_char c ≡ true) id
  pub not_empty : (id == []) ≡ false

no_slash : (id : Text) → All (λ c. is_uuid_char c ≡ true) id → All (λ c. is_slash c ≡ false) id
no_slash [] h = tt
no_slash (c ∷ id) h = (ground (arith, h.0), no_slash id h.1)

abbrev pub transfer_path : Text → Text
transfer_path id = text "/api/v1/transfer/" ++ id

abbrev transfer_segments : List Text
transfer_segments = [] ∷ text "api" ∷ text "v1" ∷ text "transfer" ∷ []

split-transfer_path :
    (rest : Text) → split is_slash (transfer_path rest) ≡ transfer_segments ++ split is_slash rest
unfolding split filedrop.Base.ℕ_discrete
split-transfer_path rest = split-sep is_slash b'/' (text "/api/v1/transfer") rest refl

abbrev receive_route : Route
receive_route = record {
  template = text "/api/v1/transfer/{transfer_id}";
  method = post;
  endpoint = Endpoint.to_receive_transfer;
}

abbrev status_route : Route
status_route = record {
  template = text "/api/v1/transfer/{transfer_id}/status";
  method = get;
  endpoint = Endpoint.to_transfer_status;
}

split-id : (id : Text) → IsUuidText id → split is_slash id ≡ id ∷ []
split-id id h = split-same id (no_slash id h.chars)

fitting-id :
    (id : Text)
    → IsUuidText id
    → fitting build_router (transfer_segments ++ (id ∷ [])) ≡ (receive_route, id ∷ []) ∷ []
unfolding fitting fits split filedrop.Base.ℕ_discrete list_eq
fitting-id id h = rw h.not_empty refl

fitting-transfer_path :
    (id : Text)
    → IsUuidText id
    → fitting build_router (split is_slash (transfer_path id)) ≡ (receive_route, id ∷ []) ∷ []
fitting-transfer_path id h = rw (split-transfer_path id, split-id id h) (fitting-id id h)

split-status :
    (id : Text) → IsUuidText id → split is_slash (id ++ text "/status") ≡ id ∷ text "status" ∷ []
unfolding split filedrop.Base.ℕ_discrete
split-status id h =
    split-sep is_slash b'/' id (text "status") refl
    ∙ ap (λ ws. ws ++ split is_slash (text "status")) (split-id id h)

fitting-id_status :
    (id : Text)
    → IsUuidText id
    → fitting build_router (transfer_segments ++ (id ∷ text "status" ∷ []))
      ≡ (status_route, id ∷ []) ∷ []
unfolding fitting fits split filedrop.Base.ℕ_discrete list_eq
fitting-id_status id h = rw h.not_empty refl

fitting-status_path :
    (id : Text)
    → IsUuidText id
    → fitting build_router (split is_slash (transfer_path (id ++ text "/status")))
      ≡ (status_route, id ∷ []) ∷ []
fitting-status_path id h =
    rw (split-transfer_path (id ++ text "/status"), split-status id h) (fitting-id_status id h)

abbrev health_route : Route
health_route = record { template = text "/health"; method = get; endpoint = Endpoint.to_health }

fitting-health : fitting build_router (split is_slash (text "/health")) ≡ (health_route, []) ∷ []
unfolding fitting fits split filedrop.Base.ℕ_discrete list_eq
fitting-health = refl

plain-id : (id : Text) → All (λ c. is_uuid_char c ≡ true) id → any is_percent id ≡ false
plain-id [] h = refl
plain-id (c ∷ id) h = ground (arith, h.0, plain-id id h.1)

plain_path :
    (rest : Text) → any is_percent rest ≡ false → any is_percent (transfer_path rest) ≡ false
unfolding filedrop.Base.ℕ_discrete
plain_path rest h = any-append is_percent (text "/api/v1/transfer/") rest refl h

module _ (H : Sha256) (show_uuid : Uuid → Text) (paths : StoragePaths) (faults : Faults)
    (lib : Library) (R : IsRouter lib) (id : Uuid)
    (parsed : lib.parse_uuid (show_uuid id) ≡ some id) (shown : IsUuidText (show_uuid id)) where
  pub serve_post :
      (request : Request) (st : AppState)
      → serve_request H show_uuid paths faults lib post (transfer_path (show_uuid id)) request st
        ≡ receive_transfer H show_uuid paths faults id request st
  unfolding serve_request run_endpoint
  serve_post request st =
      rw
        (
          R.dispatches (transfer_path (show_uuid id)) receive_route (show_uuid id ∷ [])
              (plain_path (show_uuid id) (plain-id (show_uuid id) shown.chars))
              (fitting-transfer_path (show_uuid id) shown),
          serve_request,
          parsed,
        )
        refl

  -- The three routes, for an id that is shown as a UUID and read back as it was: a POST to the transfer
  -- is its upload, and a GET of its status says what the map of sessions says and changes nothing, as
  -- does that of the health. A GET of the transfer itself is refused with 405, and so is a POST to its
  -- status.
  pub serve_request-routes :
      (request : Request) (st : AppState)
      → let serve = serve_request H show_uuid paths faults lib in
        let path = transfer_path (show_uuid id) in
        let status_path = transfer_path (show_uuid id ++ text "/status") in
        (serve post path request st ≡ receive_transfer H show_uuid paths faults id request st)
        × (serve get status_path request st ≡ (status_outcome lib (transfer_status st id), st))
        × (serve get (text "/health") request st ≡ (reply 200 health, st))
        × (serve get path request st ≡ (reply 405 (lib.refusal 405), st))
        × (serve post status_path request st ≡ (reply 405 (lib.refusal 405), st))
  unfolding serve_request run_endpoint filedrop.Base.ℕ_discrete
  serve_request-routes request st = (
    serve_post request st,
    rw
        (
          R.dispatches (transfer_path (show_uuid id ++ text "/status")) status_route
              (show_uuid id ∷ [])
              (plain_path (show_uuid id ++ text "/status") (
                any-append is_percent (show_uuid id) (text "/status")
                  (plain-id (show_uuid id) shown.chars) refl))
              (fitting-status_path (show_uuid id) shown),
          serve_request,
          parsed,
        )
        refl,
    rw (R.dispatches (text "/health") health_route [] refl fitting-health, serve_request) refl,
    rw
        (
          R.not_allowed (transfer_path (show_uuid id)) receive_route (show_uuid id ∷ []) get
              (fitting-transfer_path (show_uuid id) shown) (λ e. cc),
          serve_request,
        )
        refl,
    rw
        (
          R.not_allowed (transfer_path (show_uuid id ++ text "/status")) status_route
              (show_uuid id ∷ []) post (fitting-status_path (show_uuid id) shown) (λ e. cc),
          serve_request,
        )
        refl,
  )
