-- ===== src/Transfer/Client/Delivery.antt =====
-- What arrives of what is sent: the client's request in the hands of the server.
use filedrop.Base.{
  ℕ, zero, suc, ◌+◌, ◌-◌, ◌%◌, ◌≤◌, ◌<◌, ◌≡◌, ◌≢◌, refl, sym, ap, ◌∙◌, ◌⊎◌, inl, inr, Bool, true,
  false, not, ◌&&◌, ◌||◌, Option, none, some, List, [], ◌∷◌, ◌++◌, arith, ltb, leb, ◌==◌, nat_eq,
  list_eq, if◌then◌else◌, Text, text, length, concat, drop, All, Bool-cases, Option-cases,
}
use filedrop.Base.Dict.{lookup}
use filedrop.Base.Strings.{split_first, strip_prefix}
use filedrop.Base.Words.{u64_mod}
use filedrop.Errors.{Uuid, ok}
use filedrop.Security.Checksum.{Sha256, IsStreaming, digest, hex_encode, sha256_file}
use filedrop.Security.Checksum.Hex.{is_hex, hex_encode-format}
use filedrop.Security.Checksum.Streamed.{sha256_file-digest}
use filedrop.Security.Filename.{sanitize_filename}
use filedrop.Security.FilePath.Named.{IsName}
use filedrop.Storage.StoragePaths.{StoragePaths}
use filedrop.Transfer.Decimal.{is_digit, show_u64, parse_u64-show_u64, show_u64-IsDigit}
use filedrop.Transfer.Session.{TransferSession, Store, bytes_transferred}
use filedrop.Transfer.Server.{
  Item, chunk_ok, Request, Faults, AppState, Outcome, replied, panicked, suspended, Job,
}
use filedrop.Transfer.Server.Handler.{option_bind, or_zero, parse_resume_offset, receive_transfer}
use filedrop.Transfer.Server.Received.{payload}
use filedrop.Transfer.Server.Prepare.{IsPrepared}
use filedrop.Transfer.Server.Integrity.{received-fresh, receive_transfer-IsStored}
use filedrop.Transfer.Server.Complete.{IsCalm, IsHealthy, IsUpload, receive_transfer-complete}
use filedrop.Transfer.Client.{
  default_options, Source, Outgoing, Answer, answered, failed, source_name, content_range, outgoing,
  send_content, send_file, poll_read, poll_all,
}

split_first-digits :
    (ds rest : Text)
    → All (λ c. is_digit c ≡ true) ds
    → split_first (λ c. c == b'-') (ds ++ (b'-' ∷ rest)) ≡ ds
unfolding split_first
split_first-digits [] rest h = ground arith
split_first-digits (d ∷ ds) rest h =
    let plain : (d == b'-') ≡ false = ground (arith, h.0) in
    rw plain (ap (◌∷◌ d) (split_first-digits ds rest h.1))

strip_bytes : (s : Text) → strip_prefix (text "bytes ") (text "bytes " ++ s) ≡ some s
unfolding strip_prefix filedrop.Base.ℕ_discrete
strip_bytes s = refl

-- The header that the client makes for a resumed transfer is read by the server as the offset that the
-- client resumes from.
pub parse_resume_offset-content_range :
    (header : Text → Option Text) (from total : ℕ)
    → from < u64_mod
    → header (text "Content-Range") ≡ some (content_range from total)
    → parse_resume_offset header ≡ some from
unfolding parse_resume_offset content_range
parse_resume_offset-content_range header from total h e =
    rw (e, strip_bytes, split_first-digits (show_u64 from) _ (show_u64-IsDigit from))
      (parse_u64-show_u64 from h)

abbrev pub is_visible : ℕ → Bool
is_visible c = (leb 32 c && ltb c 127) || c == 9

-- Characters that a header can hold and that are read back as text: visible ASCII, and tabs.
abbrev pub IsVisible : Text → Type 0
IsVisible = All (λ c. is_visible c ≡ true)

-- What the HTTP library documents of `to_str`: a value of visible ASCII is given as it is, and no other
-- is given.
pub record IsToStr (to_str : Text → Option Text) : Type 0 where
  pub visible : (s : Text) → IsVisible s → to_str s ≡ some s
  pub others : (s : Text) → (IsVisible s → ⊥) → to_str s ≡ none

pub digits-IsVisible : (ds : Text) → All (λ c. is_digit c ≡ true) ds → IsVisible ds
digits-IsVisible [] h = tt
digits-IsVisible (d ∷ ds) h = (ground (arith, h.0), digits-IsVisible ds h.1)

hex-IsVisible : (s : Text) → All (λ c. is_hex c ≡ true) s → IsVisible s
hex-IsVisible [] h = tt
hex-IsVisible (c ∷ s) h = (ground (arith, h.0), hex-IsVisible s h.1)

-- What the server gets: the headers by their names, as far as `to_str` gives them, and the body in chunks,
-- with nothing in between.
abbrev item : List ℕ → Item
item bytes = record { chunk = chunk_ok bytes; controls = []; sleeps = []; write_fault = none }

abbrev items : List (List ℕ) → List Item
items [] = []
items (c ∷ cs) = item c ∷ items cs

abbrev pub request_of :
    (to_str : Text → Option Text) → (List ℕ → List (List ℕ)) → Outgoing → Request
request_of to_str cut out = record {
  header = λ name. option_bind (lookup name out.headers) to_str;
  items = items (cut out.body);
}

abbrev pub answer_of : Outcome → Answer
answer_of (replied r) = answered r
answer_of panicked = failed []
answer_of suspended = failed []

pub payload-items : (cs : List (List ℕ)) → payload (items cs) ≡ cs
payload-items [] = refl
payload-items (c ∷ cs) = ap (◌∷◌ c) (payload-items cs)

pub items-IsCalm : (cs : List (List ℕ)) → All IsCalm (items cs)
items-IsCalm [] = tt
items-IsCalm (c ∷ cs) =
    (record { delivers = (c, refl); quiet = refl; awake = refl; writes = refl }, items-IsCalm cs)

none-apart : (n : ℕ) → none ≢ some n
none-apart n h = cc

abbrev pub sum : List ℕ → ℕ
sum [] = 0
sum (n ∷ ns) = n + sum ns

-- A file that can be read, whose name is of visible ASCII and can be sanitized.
pub record IsReadable (source : Source) (content safe_name : List ℕ) : Type 0 where
  pub ascii : IsVisible (source_name source)
  pub has : source.content ≡ some content
  pub named : sanitize_filename (source_name source) ≡ some safe_name
  pub small : length content < u64_mod
  pub readable : (j : ℕ) → (n : ℕ) × (source.reads j ≡ some n)

pub readable-hashed :
    (H : Sha256) (L : IsStreaming H) (source : Source) (content safe_name : List ℕ)
    → IsReadable source content safe_name
    → sha256_file H source.reads (some content) ≡ some (ok (hex_encode (digest H content)))
readable-hashed H L source content safe_name h =
    elim (sha256_file-digest H source.reads L content) [
      | inr e ↦ e
      | inl (j, e, f) ↦ let (n, k) = h.readable j in absurd (none-apart n (sym e ∙ k))
    ]

module _ (H : Sha256) (L : IsStreaming H) (to_str : Text → Option Text) (T : IsToStr to_str)
    (cut : List ℕ → List (List ℕ)) (source : Source) (content safe_name : List ℕ)
    (bytes : All (λ b. b < 256) (digest H content)) (cuts : (b : List ℕ) → concat (cut b) ≡ b)
    (h : IsReadable source content safe_name) where
  abbrev hash : Text
  hash = hex_encode (digest H content)

  abbrev request : Request
  request = request_of to_str cut (outgoing (source_name source) content (some hash) 0)

  arrives : concat (payload request.items) ≡ content
  unfolding outgoing
  arrives = ap concat (payload-items (cut content)) ∙ cuts content

  request-IsUpload : IsUpload H request
  unfolding outgoing lookup parse_resume_offset filedrop.Base.ℕ_discrete list_eq
  request-IsUpload = record {
    raw_name = source_name source;
    safe_name = safe_name;
    raw_size = show_u64 (length content);
    name_header = T.visible (source_name source) h.ascii;
    sanitized = h.named;
    size_header =
        T.visible (show_u64 (length content))
          (digits-IsVisible (show_u64 (length content)) (show_u64-IsDigit (length content)));
    parsed = parse_u64-show_u64 (length content) h.small ∙ ap some (ap length (sym arrives));
    small = rw arrives h.small;
    whole = refl;
    calm = items-IsCalm (cut content);
    digest_header = inr (
        T.visible hash (hex-IsVisible hash (hex_encode-format (digest H content) bytes).1)
        ∙ ap some (ap hex_encode (ap (digest H) (sym arrives))));
  }

  -- A file that is sent to a server that works is received whole: the client reports success, and the
  -- server has, below its directory of received files, the content of the file under the sanitized name.
  -- The name of the file is of visible ASCII, which is what the server reads of a header; the network
  -- delivers the headers and the body, cut into any chunks; the file can be read and has less than 2^64
  -- bytes, the server's file system does not fail, and no task pauses or cancels. The digest is a
  -- sequence of bytes that does not depend on how the data is cut.
  pub send_file-delivers :
      (show_uuid : Uuid → Text) (paths : StoragePaths) (faults : Faults) (id : Uuid) (st : AppState)
      → IsName (show_uuid id ++ text ".part")
      → IsHealthy faults
      → (send_file H
            (λ out.
              answer_of
                (receive_transfer H show_uuid paths faults id (request_of to_str cut out) st).0)
            source
            default_options
          ≡ some (ok tt))
        × ((job : Job) × IsPrepared show_uuid paths id request job
            × ((receive_transfer H show_uuid paths faults id request st).1.fs job.final
                ≡ some content))
  unfolding send_file send_content
  send_file-delivers show_uuid paths faults id st n f =
      let done =
        receive_transfer-complete H L show_uuid paths faults id request st request-IsUpload n f in
      let (job, p, s) = receive_transfer-IsStored H show_uuid paths faults id request st L done in
      (
        rw (h.has, send_file, readable-hashed H L source content safe_name h, done) refl,
        (
          job,
          p,
          s.stored
              ∙ ap some (
                  received-fresh H show_uuid paths faults id request st job
                    (p.offset_of ∙ ap or_zero request-IsUpload.whole)
                  ∙ arrives),
        ),
      )

poll_read-counts :
    (s : TransferSession) (st : Store) (n : ℕ)
    → bytes_transferred (poll_read s st n) s % u64_mod ≡ (bytes_transferred st s + n) % u64_mod
unfolding poll_read
poll_read-counts s st n = ground arith

-- Reading the body counts its bytes: the session's counter grows by their number, modulo 2^64.
pub poll_all-counts :
    (s : TransferSession) (st : Store) (reads : List ℕ)
    → bytes_transferred (poll_all s st reads) s % u64_mod
      ≡ (bytes_transferred st s + sum reads) % u64_mod
unfolding poll_all poll_read
poll_all-counts s st [] = omega arith
poll_all-counts s st (n ∷ reads) =
    omega (arith, poll_all-counts s (poll_read s st n) reads, poll_read-counts s st n)
