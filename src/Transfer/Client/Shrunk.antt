-- ===== src/Transfer/Client/Shrunk.antt =====
-- A file that becomes shorter while it is sent.
use filedrop.Base.{
  ℕ, ◌+◌, ◌%◌, ◌<◌, ◌≡◌, refl, sym, ap, ◌∙◌, inl, inr, Bool, true, false, Option, none, some, List,
  [], ◌∷◌, ◌++◌, arith, ltb, leb, ◌==◌, nat_eq, list_eq, if◌then◌else◌, Text, text, length, concat,
  drop, All,
}
use filedrop.Base.Dict.{lookup}
use filedrop.Base.Paths.{components, push}
use filedrop.Errors.{Uuid, ok}
use filedrop.Security.Checksum.{Sha256, IsStreaming, digest, hex_encode}
use filedrop.Security.FilePath.Named.{IsName}
use filedrop.Storage.StoragePaths.{StoragePaths, staging_dir}
use filedrop.Transfer.Decimal.{show_u64, parse_u64-show_u64, show_u64-IsDigit}
use filedrop.Transfer.Server.{Request, Faults, AppState}
use filedrop.Transfer.Server.Handler.{parse_resume_offset, receive_transfer}
use filedrop.Transfer.Server.Received.{payload}
use filedrop.Transfer.Server.Complete.{IsHealthy}
use filedrop.Transfer.Server.Short.{IsShort, partly, receive_transfer-short}
use filedrop.Transfer.Client.{
  default_options, Source, source_name, outgoing, send_content, send_file,
}
use filedrop.Transfer.Client.Delivery.{
  IsToStr, digits-IsVisible, request_of, answer_of, payload-items, items-IsCalm, readable-hashed,
  IsReadable,
}

module _ (H : Sha256) (L : IsStreaming H) (to_str : Text → Option Text) (T : IsToStr to_str)
    (cut : List ℕ → List (List ℕ)) (source : Source) (content safe_name : List ℕ)
    (h : IsReadable source content safe_name)
    (shrunk : length (concat (cut content)) < length content) where
  abbrev hash : Text
  hash = hex_encode (digest H content)

  abbrev request : Request
  request = request_of to_str cut (outgoing (source_name source) content (some hash) 0)

  arrives : concat (payload request.items) ≡ concat (cut content)
  unfolding outgoing
  arrives = ap concat (payload-items (cut content))

  request-IsShort : IsShort request (length content)
  unfolding outgoing lookup parse_resume_offset filedrop.Base.ℕ_discrete list_eq
  request-IsShort = record {
    raw_name = source_name source;
    safe_name = safe_name;
    raw_size = show_u64 (length content);
    name_header = T.visible (source_name source) h.ascii;
    sanitized = h.named;
    size_header =
        T.visible (show_u64 (length content))
          (digits-IsVisible (show_u64 (length content)) (show_u64-IsDigit (length content)));
    parsed = parse_u64-show_u64 (length content) h.small;
    short = rw arrives shrunk;
    small = h.small;
    whole = refl;
    calm = items-IsCalm (cut content);
  }

  -- A file of which less arrives than its length was when the client asked for it, because it has become
  -- shorter since, is reported as sent, although the server has answered 206 and keeps the part that
  -- came in its staging file, to be resumed. Nothing else goes wrong: the conditions are those of a
  -- delivery, but for the body.
  pub send_file-shrunk :
      (show_uuid : Uuid → Text) (paths : StoragePaths) (faults : Faults) (id : Uuid) (st : AppState)
      → IsName (show_uuid id ++ text ".part")
      → IsHealthy faults
      → let out =
          receive_transfer H show_uuid paths faults id
            (request_of to_str cut
              (outgoing (source_name source) content (some (hex_encode (digest H content))) 0))
            st in
        (send_file H
            (λ sent.
              answer_of
                (receive_transfer H show_uuid paths faults id (request_of to_str cut sent) st).0)
            source
            default_options
          ≡ some (ok tt))
        × (out.0 ≡ partly (length (concat (cut content))) (length content))
        × (out.1.fs (components (push (staging_dir paths) (show_uuid id ++ text ".part")))
            ≡ some (concat (cut content)))
  unfolding send_file send_content
  send_file-shrunk show_uuid paths faults id st n f =
      let (answered, kept) =
        receive_transfer-short H show_uuid paths faults id request (length content) st
          request-IsShort n f in
      (
        rw (h.has, send_file, readable-hashed H L source content safe_name h, answered) refl,
        answered ∙ ap (λ b. partly (length b) (length content)) arrives,
        kept ∙ ap some arrives,
      )
