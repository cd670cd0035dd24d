-- ===== src/Transfer/Routes/Sent.antt =====
-- A file that is sent to the router.
use mathlib.Core.Path.{fun_ext, subst}
use filedrop.Base.{
  ℕ, ◌<◌, ◌≡◌, refl, sym, ap, ◌∙◌, Bool, true, false, ◌&&◌, ◌||◌, Option, none, some, List, [], ◌∷◌,
  ◌++◌, arith, leb, ◌==◌, not, any, nat_eq, list_eq, Text, text, length, concat, All, All-append,
}
use filedrop.Base.Paths.{is_slash}
use filedrop.Errors.{Uuid, ok}
use filedrop.Security.Checksum.{Sha256, IsStreaming, digest, hex_encode}
use filedrop.Security.FilePath.Named.{IsName}
use filedrop.Storage.StoragePaths.{StoragePaths}
use filedrop.Transfer.Server.{Request, Faults, AppState, Job}
use filedrop.Transfer.Server.Handler.{receive_transfer}
use filedrop.Transfer.Server.Prepare.{IsPrepared}
use filedrop.Transfer.Server.Complete.{IsHealthy}
use filedrop.Transfer.Client.{default_options, Source, source_name, outgoing, url, send_file}
use filedrop.Transfer.Client.Delivery.{
  request_of, answer_of, IsToStr, IsReadable, send_file-delivers,
}
use filedrop.Transfer.Routes.{post, Library, serve_request}
use filedrop.Transfer.Routes.Axum.{IsRouter}
use filedrop.Base.Strings.Laws.{any-append}
use filedrop.Transfer.Routes.Served.{is_uuid_char, IsUuidText, transfer_path, serve_post}

-- What stands for itself in the path of a URL.
abbrev pub is_escaped : ℕ → Bool
is_escaped c =
    not (is_slash c || ((leb b'0' c && leb c b'9') || ((leb b'a' c && leb c b'z') || c == b'-')))

-- What the client's library does with a URL: it asks the host for the path.
abbrev pub IsHttp : (Text → Text) → Type 0
IsHttp path_of =
    (host path : Text)
    → any is_slash host ≡ false
    → any is_escaped path ≡ false
    → path_of (text "http://" ++ (host ++ (b'/' ∷ path))) ≡ b'/' ∷ path

uuid-plain : (id : Text) → All (λ c. is_uuid_char c ≡ true) id → any is_escaped id ≡ false
uuid-plain [] h = refl
uuid-plain (c ∷ id) h = ground (arith, h.0, uuid-plain id h.1)

prefix-plain : any is_escaped (text "api/v1/transfer/") ≡ false
unfolding filedrop.Base.ℕ_discrete
prefix-plain = refl

path_of-url :
    (path_of : Text → Text) (host id : Text)
    → IsHttp path_of
    → any is_slash host ≡ false
    → All (λ c. is_uuid_char c ≡ true) id
    → path_of (url host id) ≡ transfer_path id
unfolding url
path_of-url path_of host id P h k =
    P host (text "api/v1/transfer/" ++ id) h
      (any-append is_escaped (text "api/v1/transfer/") id prefix-plain (uuid-plain id k))

-- A file that is sent to a peer whose server works arrives whole: the URL that the client makes leads the
-- router of the peer to the upload of the same transfer, the client reports success, and the peer has
-- the content of the file under the sanitized name. The conditions are those on the file and its name,
-- the network, the digest and the file system of the peer, and that ids are shown as UUIDs and read back.
pub send_file-serve_request :
    (H : Sha256) (L : IsStreaming H) (to_str : Text → Option Text) (cut : List ℕ → List (List ℕ))
    (source : Source) (content safe_name : List ℕ)
    → IsToStr to_str
    → All (λ b. b < 256) (digest H content)
    → ((b : List ℕ) → concat (cut b) ≡ b)
    → IsReadable source content safe_name
    → (show_uuid : Uuid → Text) (paths : StoragePaths) (faults : Faults) (lib : Library)
      (path_of : Text → Text) (host : Text) (id : Uuid) (st : AppState)
    → IsRouter lib
    → IsHttp path_of
    → lib.parse_uuid (show_uuid id) ≡ some id
    → IsUuidText (show_uuid id)
    → any is_slash host ≡ false
    → IsName (show_uuid id ++ text ".part")
    → IsHealthy faults
    → let peer =
        serve_request H show_uuid paths faults lib post (path_of (url host (show_uuid id))) in
      let request =
        request_of to_str cut
          (outgoing (source_name source) content (some (hex_encode (digest H content))) 0) in
      (send_file H (λ out. answer_of (peer (request_of to_str cut out) st).0) source default_options
        ≡ some (ok tt))
      × ((job : Job) × IsPrepared show_uuid paths id request job
          × ((peer request st).1.fs job.final ≡ some content))
send_file-serve_request H L to_str cut source content safe_name T bytes cuts h show_uuid paths
      faults lib path_of host id st R P parsed shown no_slash n healthy =
    let direct =
      send_file-delivers H L to_str T cut source content safe_name bytes cuts h show_uuid paths
        faults id st n healthy in
    let same : (request : Request)
        → receive_transfer H show_uuid paths faults id request st
          ≡ serve_request H show_uuid paths faults lib post (path_of (url host (show_uuid id)))
              request st =
      λ request.
        sym (serve_post H show_uuid paths faults lib R id parsed shown request st)
        ∙ ap (λ path. serve_request H show_uuid paths faults lib post path request st)
            (sym (path_of-url path_of host (show_uuid id) P no_slash shown.chars)) in
    subst
      (λ peer.
        (send_file H (λ out. answer_of (peer (request_of to_str cut out)).0) source default_options
          ≡ some (ok tt))
        × ((job : Job) × IsPrepared show_uuid paths id
              (request_of to_str cut
                (outgoing (source_name source) content (some (hex_encode (digest H content))) 0))
              job
            × ((peer (
                    request_of to_str cut (
                      outgoing (source_name source) content (some (hex_encode (digest H content)))
                        0))).1.fs
                  job.final
                ≡ some content)))
      (fun_ext same) direct
