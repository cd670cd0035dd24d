-- ===== src/Transfer/Tests/Routing.antt =====
-- A router and a URL library, and requests to them.
use filedrop.Base.{
  ℕ, ◌≡◌, ◌≢◌, refl, ◌∙◌, Bool, true, false, Option, none, some, List, [], ◌∷◌, ◌++◌, arith, ◌==◌,
  nat_eq, list_eq, if◌then◌else◌, Text, text, any, append-nil, drop,
}
use filedrop.Base.Paths.{is_slash}
use filedrop.Base.Strings.{split}
use filedrop.Errors.{Uuid, ok}
use filedrop.Security.FilePath.Named.{IsName, IsSafeName-IsName}
use filedrop.Security.Checksum.{digest, hex_encode}
use filedrop.Security.Filename.{sanitize_filename}
use filedrop.Security.Filename.Safe.{sanitize_filename-IsSafeName}
use filedrop.Security.SampleHash.{echo, echo-IsStreaming}
use filedrop.Transfer.Server.{Request, AppState, Outcome, reply, Job, transfer_status}
use filedrop.Transfer.Server.Handler.{receive_transfer}
use filedrop.Transfer.Server.Prepare.{IsPrepared}
use filedrop.Transfer.Client.{default_options, source_name, outgoing, url, send_file}
use filedrop.Transfer.Client.Delivery.{request_of, answer_of}
use filedrop.Transfer.Routes.{
  Method, get, post, Route, Routed, dispatched, unrouted, Library, health, status_outcome,
  serve_request,
}
use filedrop.Transfer.Routes.Axum.{fitting, IsRouter}
use filedrop.Transfer.Routes.Served.{IsUuidText, transfer_path, serve_request-routes}
use filedrop.Transfer.Routes.Sent.{IsHttp, send_file-serve_request}
use filedrop.Transfer.Tests.{paths, no_faults, idle, no_faults-IsHealthy, upload}
use filedrop.Transfer.Tests.Sending.{
  to_str, to_str-IsToStr, four_bytes, whole, source, source-IsReadable,
}

abbrev is_method : Method → Method → Bool
is_method get get = true
is_method get post = false
is_method post get = false
is_method post post = true

abbrev pick : Method → List (Route × List Text) → Routed
pick method [] = unrouted 404
pick method ((route, values) ∷ []) =
    if is_method route.method method then dispatched route.endpoint values else unrouted 405
pick method (a ∷ b ∷ more) = unrouted 404

abbrev show_hex : Uuid → Text
show_hex id = text "a1"

abbrev lib : Library
lib = record {
  route = λ routes method path. pick method (fitting routes (split is_slash path));
  refusal = λ status. [];
  parse_uuid = λ s. if s == text "a1" then some 0 else none;
  status_json = λ response. text "{}";
}

is_method-same : (m : Method) → is_method m m ≡ true
is_method-same get = refl
is_method-same post = refl

is_method-other : (m n : Method) → m ≢ n → is_method m n ≡ false
is_method-other get get h = absurd (h refl)
is_method-other get post h = refl
is_method-other post get h = refl
is_method-other post post h = absurd (h refl)

lib-IsRouter : IsRouter lib
lib-IsRouter = record {
  dispatches = λ path route values plain h. rw (h, is_method-same route.method) refl;
  not_allowed = λ path route values m h n. rw (h, is_method-other route.method m n) refl;
  unknown = λ path m h. rw h refl;
}

abbrev after_host : Text → Text
after_host [] = []
after_host (c ∷ s) = let rest = after_host s in if is_slash c then c ∷ s else rest

abbrev path_of : Text → Text
path_of u = after_host (drop 7 u)

after_host-append :
    (host path : Text)
    → any is_slash host ≡ false
    → after_host (host ++ (b'/' ∷ path)) ≡ b'/' ∷ path
unfolding filedrop.Base.ℕ_discrete
after_host-append [] path h = refl
after_host-append (c ∷ host) path h = ground (arith, after_host-append host path)

path_of-IsHttp : IsHttp path_of
path_of-IsHttp host path h k = after_host-append host path h

a1-IsUuidText : IsUuidText (text "a1")
unfolding filedrop.Base.ℕ_discrete list_eq
a1-IsUuidText = record { chars = (refl, (refl, tt)); not_empty = refl }

a1-parsed : lib.parse_uuid (text "a1") ≡ some 0
unfolding filedrop.Base.ℕ_discrete list_eq
a1-parsed = refl

part-sanitized : sanitize_filename (text "a1.part") ≡ some (text "a1.part")
unfolding sanitize_filename filedrop.Base.ℕ_discrete
part-sanitized = refl

part-IsName : IsName (text "a1.part")
part-IsName =
    IsSafeName-IsName (text "a1.part")
      (sanitize_filename-IsSafeName (text "a1.part") (text "a1.part") part-sanitized)

host-plain : any is_slash (text "192.168.1.2:53317") ≡ false
unfolding filedrop.Base.ℕ_discrete
host-plain = refl

abbrev peer : Request → AppState → Outcome × AppState
peer =
    serve_request echo show_hex paths no_faults lib post
      (path_of (url (text "192.168.1.2:53317") (text "a1")))

abbrev sent_request : Request
sent_request = request_of to_str whole (
    outgoing (source_name source) (1 ∷ 2 ∷ 3 ∷ 4 ∷ [])
      (some (hex_encode (digest echo (1 ∷ 2 ∷ 3 ∷ 4 ∷ [])))) 0)

send_file-serve_request_example :
    (send_file echo
        (λ out. answer_of (peer (request_of to_str whole out) idle).0)
        source
        default_options
      ≡ some (ok tt))
    × ((job : Job) × IsPrepared show_hex paths 0 sent_request job
        × ((peer sent_request idle).1.fs job.final ≡ some (1 ∷ 2 ∷ 3 ∷ 4 ∷ [])))
send_file-serve_request_example =
    send_file-serve_request echo echo-IsStreaming to_str whole source (1 ∷ 2 ∷ 3 ∷ 4 ∷ [])
      (text "a.txt") to_str-IsToStr four_bytes (λ b. append-nil b) source-IsReadable show_hex paths
      no_faults lib path_of (text "192.168.1.2:53317") 0 idle lib-IsRouter path_of-IsHttp a1-parsed
      a1-IsUuidText host-plain part-IsName no_faults-IsHealthy

abbrev serve : Method → Text → Request → AppState → Outcome × AppState
serve = serve_request echo show_hex paths no_faults lib

serve_request-routes_example :
    (serve post (transfer_path (text "a1")) upload idle
      ≡ receive_transfer echo show_hex paths no_faults 0 upload idle)
    × (serve get (transfer_path (text "a1/status")) upload idle
        ≡ (status_outcome lib (transfer_status idle 0), idle))
    × (serve get (text "/health") upload idle ≡ (reply 200 health, idle))
    × (serve get (transfer_path (text "a1")) upload idle ≡ (reply 405 [], idle))
    × (serve post (transfer_path (text "a1/status")) upload idle ≡ (reply 405 [], idle))
serve_request-routes_example =
    serve_request-routes echo show_hex paths no_faults lib lib-IsRouter 0 a1-parsed a1-IsUuidText
      upload idle
