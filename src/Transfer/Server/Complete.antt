-- ===== src/Transfer/Server/Complete.antt =====
-- An upload that nothing disturbs.
use filedrop.Base.{
  ℕ, zero, suc, ◌+◌, ◌-◌, ◌*◌, ◌%◌, ◌^◌, ◌≤◌, ◌<◌, ◌≡◌, ◌≢◌, refl, sym, ap, ◌∙◌, ◌⊎◌, inl, inr,
  Bool, true, false, Option, none, some, List, [], ◌∷◌, ◌++◌, append-nil, append_assoc, arith, ltb,
  ◌==◌, nat_eq, list_eq, if◌then◌else◌, Text, text, length, length-append, take, drop,
  take-append-drop, concat, Bool-cases, Option-cases, ==_iff,
}
use filedrop.Base.Words.{add_u64, u64_mod}
use filedrop.Base.Paths.{component_eq}
use filedrop.Base.Paths.{components}
use filedrop.Errors.{Uuid}
use filedrop.Security.Checksum.{Sha256}
use filedrop.Storage.StoragePaths.{StoragePaths}
use filedrop.Transfer.Session.{TransferSession}
use filedrop.Transfer.Server.{Item, Request, AppState, Outcome, Job, Faults, proceeds, returns}
use filedrop.Transfer.Server.Body.{Progress, receive_stream}
use filedrop.Transfer.Server.Handler.{
  prepare, open_staging, run_job, finish_transfer, receive_transfer,
}
use filedrop.Transfer.Server.Prepare.{opened}
use filedrop.Transfer.Server.Loop.{receive_stream-cases}
use filedrop.Transfer.Server.Received.{payload, HasReceived}
use filedrop.Transfer.Server.Run.{start, own_session}
use filedrop.Transfer.Server.Effects.{complete}
use filedrop.Security.Checksum.{IsStreaming, digest, hex_encode}
use filedrop.Transfer.Server.Handler.{parse_resume_offset}
use filedrop.Base.{All}
use filedrop.Base.Paths.{push}
use filedrop.Security.Filename.{sanitize_filename}
use filedrop.Security.Filename.Safe.{sanitize_filename-IsSafeName}
use filedrop.Security.FilePath.Named.{IsName, safe_join-name, IsSafeName-IsName}
use filedrop.Storage.StoragePaths.{received_files_dir, staging_dir}
use filedrop.Transfer.Decimal.{parse_u64}
use filedrop.Transfer.Session.{is_paused, is_cancelled, add_bytes}
use filedrop.Transfer.Server.{chunk_ok}
use filedrop.Transfer.Server.Body.{
  write_staging, apply_controls, wait_resumed, write_chunk, receive_chunk,
}
use filedrop.Transfer.Server.Handler.{check_digest, publish, actual_sha256}

-- An item that is delivered and written, with no call of another task in between.
pub record IsCalm (item : Item) : Type 0 where
  pub delivers : (bytes : List ℕ) × (item.chunk ≡ chunk_ok bytes)
  pub quiet : item.controls ≡ []
  pub awake : item.sleeps ≡ []
  pub writes : item.write_fault ≡ none

pub flow-apart :
    (H : Sha256) (q : Progress H) (o : Outcome) (a : AppState) → proceeds q ≢ returns o a
flow-apart H q o a h = cc

module _ (H : Sha256) where
  -- The variables after a chunk.
  abbrev after : Job → TransferSession → List ℕ → Progress H → Progress H
  after job s bytes p = record {
    app = record (write_staging job.staging p.position bytes p.app) {
      store = add_bytes p.app.store s (length bytes);
    };
    hasher = H.update p.hasher bytes;
    position = p.position + length bytes;
    written = add_u64 p.written (length bytes);
  }

  calm-round :
      (job : Job) (s : TransferSession) (remove_fails : Bool) (item : Item) (p : Progress H)
      → IsCalm item
      → is_cancelled p.app.store s ≡ false
      → is_paused p.app.store s ≡ false
      → (q : Progress H) × (receive_chunk H job s remove_fails item p ≡ proceeds q)
        × ((is_cancelled q.app.store s ≡ false) × (is_paused q.app.store s ≡ false))
  unfolding receive_chunk write_chunk apply_controls wait_resumed
  calm-round job s remove_fails item p h c w =
      let (bytes, e) = h.delivers in
      (
        after job s bytes p,
        simp
            (
              e, h.quiet, h.awake, h.writes, c, w, receive_chunk, write_chunk, apply_controls,
              wait_resumed,
            )
            refl,
        (ground (arith, c), ground (arith, w)),
      )

  pub calm-stream :
      (job : Job) (s : TransferSession) (remove_fails : Bool) (items : List Item) (p : Progress H)
      → All IsCalm items
      → is_cancelled p.app.store s ≡ false
      → is_paused p.app.store s ≡ false
      → (q : Progress H) × (receive_stream H job s remove_fails items p ≡ proceeds q)
  unfolding receive_stream
  calm-stream job s remove_fails [] p h c w = (p, refl)
  calm-stream job s remove_fails (item ∷ items) p h c w =
      let (q, e, (c', w')) = calm-round job s remove_fails item p h.0 c w in
      let (z, k) = calm-stream job s remove_fails items q h.1 c' w' in
      (z, simp (e, receive_stream) k)

-- No call to the file system fails, apart from the removals.
pub record IsHealthy (faults : Faults) : Type 0 where
  pub made : faults.mkdir ≡ none
  pub opens : faults.open_file ≡ none
  pub flushes : faults.flush ≡ none
  pub renames : faults.rename ≡ none

-- What is made out of the headers of an upload that begins at the start.
abbrev pub fresh_job :
    (show_uuid : Uuid → Text) (paths : StoragePaths) (id : Uuid) (request : Request)
    (safe_name : Text) (total : ℕ)
    → Job
fresh_job show_uuid paths id request safe_name total = record {
  id = id;
  safe_name = safe_name;
  total_size = total;
  expected_sha256 = request.header (text "X-FileDrop-Sha256");
  staging = components (push (staging_dir paths) (show_uuid id ++ text ".part"));
  final = components (push (received_files_dir paths) safe_name);
  offset = 0;
}

pub prepare-fresh :
    (show_uuid : Uuid → Text) (paths : StoragePaths) (id : Uuid) (request : Request) (st : AppState)
    (raw_name safe_name raw_size : Text) (total : ℕ)
    → request.header (text "X-FileDrop-Filename") ≡ some raw_name
    → sanitize_filename raw_name ≡ some safe_name
    → request.header (text "X-FileDrop-Total-Size") ≡ some raw_size
    → parse_u64 raw_size ≡ some total
    → parse_resume_offset request.header ≡ none
    → IsName (show_uuid id ++ text ".part")
    → prepare show_uuid paths id request st
      ≡ proceeds (fresh_job show_uuid paths id request safe_name total)
unfolding prepare
prepare-fresh show_uuid paths id request st raw_name safe_name raw_size total name_header sanitized
      size_header parsed whole n =
    let staging = safe_join-name (staging_dir paths) _ n in
    let name =
      IsSafeName-IsName safe_name (sanitize_filename-IsSafeName raw_name safe_name sanitized) in
    let final = safe_join-name (received_files_dir paths) safe_name name in
    simp (name_header, sanitized, size_header, parsed, whole, staging, final, prepare) refl

-- A request to upload a whole file, with nothing left out.
pub record IsUpload (H : Sha256) (request : Request) : Type 0 where
  pub raw_name : Text
  pub safe_name : Text
  pub raw_size : Text
  pub name_header : request.header (text "X-FileDrop-Filename") ≡ some raw_name
  pub sanitized : sanitize_filename raw_name ≡ some safe_name
  pub size_header : request.header (text "X-FileDrop-Total-Size") ≡ some raw_size
  pub parsed : parse_u64 raw_size ≡ some (length (concat (payload request.items)))
  pub small : length (concat (payload request.items)) < u64_mod
  pub whole : parse_resume_offset request.header ≡ none
  pub calm : All IsCalm request.items
  pub digest_header :
      (request.header (text "X-FileDrop-Sha256") ≡ none)
      ⊎ (request.header (text "X-FileDrop-Sha256")
          ≡ some (hex_encode (digest H (concat (payload request.items)))))

module _ (H : Sha256) (L : IsStreaming H) (show_uuid : Uuid → Text) (paths : StoragePaths)
    (faults : Faults) (id : Uuid) (request : Request) (st : AppState) (u : IsUpload H request) where
  abbrev job : Job
  job = fresh_job show_uuid paths id request u.safe_name (length (concat (payload request.items)))

  prepared :
      IsName (show_uuid id ++ text ".part") → prepare show_uuid paths id request st ≡ proceeds job
  prepared n =
      prepare-fresh show_uuid paths id request st u.raw_name u.safe_name u.raw_size
        (length (concat (payload request.items))) u.name_header u.sanitized u.size_header u.parsed
        u.whole n

  published :
      IsHealthy faults
      → (q : Progress H) → HasReceived H job.staging (start H job st) (payload request.items) q
      → (finish_transfer H show_uuid job faults q).0 ≡ complete
  unfolding finish_transfer check_digest actual_sha256 publish filedrop.Base.ℕ_discrete
  published f q r =
      let len = length (concat (payload request.items)) in
      let bound = r.bounded (omega arith) in
      let same : q.written ≡ len = omega (arith, r.counted, bound, u.small) in
      let counted : (q.written == len) ≡ true = (==_iff q.written len).1 same in
      elim u.digest_header [
        | inl n ↦ simp (f.flushes, counted, n, f.renames, finish_transfer, publish) refl
        | inr s ↦
            let hash : hex_encode (H.finalize q.hasher)
                ≡ hex_encode (digest H (concat (payload request.items))) =
              ap (λ h. hex_encode (H.finalize h)) r.hashed
              ∙ ap hex_encode (L.streams (payload request.items)) in
            let agrees = (==_iff _ _).1 hash in
            simp
              (
                f.flushes, counted, s, check_digest, actual_sha256, agrees, f.renames,
                finish_transfer, publish,
              )
              refl
      ]

  ran :
      IsHealthy faults → (run_job H show_uuid job faults request.items (opened job st)).0 ≡ complete
  unfolding run_job
  ran f =
      let s = own_session job st in
      let (q, e) =
        calm-stream H job s faults.remove_file request.items (start H job st) u.calm (ground arith)
          (ground arith) in
      elim (receive_stream-cases H job s faults.remove_file request.items (start H job st)) [
        | inl (z, e', r) ↦ simp (e', run_job) (published f z r)
        | inr (o, (a, (bytes, (rest, e', k)))) ↦ absurd (flow-apart H q o a (sym e ∙ e'))
      ]

  -- A whole upload that nothing disturbs is completed: its headers name a file that can be sanitized,
  -- its length, and its digest or none; every chunk is delivered and written without a call of another
  -- task in between; and no call to the file system fails.
  pub receive_transfer-complete :
      IsName (show_uuid id ++ text ".part")
      → IsHealthy faults
      → (receive_transfer H show_uuid paths faults id request st).0 ≡ complete
  unfolding receive_transfer open_staging filedrop.Base.ℕ_discrete
  receive_transfer-complete n f =
      let is_open : open_staging H job faults st ≡ proceeds (opened job st) =
        simp (f.made, f.opens, open_staging) refl in
      simp (prepared n, is_open, receive_transfer) (ran f)
