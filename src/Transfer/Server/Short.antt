-- ===== src/Transfer/Server/Short.antt =====
-- An upload whose body ends early, although nothing fails.
use filedrop.Base.{
  ℕ, ◌+◌, ◌%◌, ◌^◌, ◌<◌, ◌≡◌, ◌≢◌, refl, sym, ap, ◌∙◌, inl, inr, Bool, true, false, Option, none,
  some, List, [], ◌∷◌, ◌++◌, arith, ◌==◌, nat_eq, list_eq, if◌then◌else◌, Text, text, length,
  concat, All, Bool-cases, ==_iff,
}
use filedrop.Base.Words.{u64_mod}
use filedrop.Base.Paths.{component_eq, components, push}
use filedrop.Errors.{Uuid}
use filedrop.Security.Checksum.{Sha256}
use filedrop.Security.Filename.{sanitize_filename}
use filedrop.Security.FilePath.Named.{IsName}
use filedrop.Storage.StoragePaths.{StoragePaths, staging_dir}
use filedrop.Transfer.Decimal.{show_u64, parse_u64}
use filedrop.Transfer.Server.{Request, AppState, Outcome, reply, Job, Faults, proceeds, end_session}
use filedrop.Transfer.Server.Body.{Progress}
use filedrop.Transfer.Server.Handler.{
  parse_resume_offset, prepare, open_staging, run_job, finish_transfer, receive_transfer,
}
use filedrop.Transfer.Server.Prepare.{opened}
use filedrop.Transfer.Server.Loop.{receive_stream-cases}
use filedrop.Transfer.Server.Received.{payload, HasReceived}
use filedrop.Transfer.Server.Run.{start, own_session}
use filedrop.Transfer.Server.Integrity.{received-fresh, staged-received}
use filedrop.Transfer.Server.Complete.{
  IsCalm, IsHealthy, calm-stream, flow-apart, fresh_job, prepare-fresh,
}

-- A request whose body has fewer bytes than it announces, with nothing else left out.
pub record IsShort (request : Request) (total : ℕ) : Type 0 where
  pub raw_name : Text
  pub safe_name : Text
  pub raw_size : Text
  pub name_header : request.header (text "X-FileDrop-Filename") ≡ some raw_name
  pub sanitized : sanitize_filename raw_name ≡ some safe_name
  pub size_header : request.header (text "X-FileDrop-Total-Size") ≡ some raw_size
  pub parsed : parse_u64 raw_size ≡ some total
  pub short : length (concat (payload request.items)) < total
  pub small : total < u64_mod
  pub whole : parse_resume_offset request.header ≡ none
  pub calm : All IsCalm request.items

abbrev pub partly : ℕ → ℕ → Outcome
partly received total = reply 206 (
    text "received "
    ++ (show_u64 received ++ (text " of " ++ (show_u64 total ++ text " bytes; resumable"))))

module _ (H : Sha256) (show_uuid : Uuid → Text) (paths : StoragePaths) (faults : Faults) (id : Uuid)
    (request : Request) (total : ℕ) (st : AppState) (u : IsShort request total) where
  abbrev body : List ℕ
  body = concat (payload request.items)

  abbrev job : Job
  job = fresh_job show_uuid paths id request u.safe_name total

  prepared :
      IsName (show_uuid id ++ text ".part") → prepare show_uuid paths id request st ≡ proceeds job
  prepared n =
      prepare-fresh show_uuid paths id request st u.raw_name u.safe_name u.raw_size total
        u.name_header u.sanitized u.size_header u.parsed u.whole n

  -- The reply, and what is left in the staging file.
  abbrev IsKept : Outcome × AppState → Type 0
  IsKept out = (out.0 ≡ partly (length body) total) × (out.1.fs job.staging ≡ some body)

  kept :
      IsHealthy faults
      → (q : Progress H) → HasReceived H job.staging (start H job st) (payload request.items) q
      → IsKept (finish_transfer H show_uuid job faults q)
  unfolding finish_transfer end_session
  kept f q r =
      let bound = r.bounded (omega arith) in
      let same : q.written ≡ length body = omega (arith, r.counted, bound, u.small, u.short) in
      let fewer : (q.written == total) ≡ false = elim (Bool-cases (q.written == total)) [
        | inl e ↦ absurd (omega (arith, (==_iff q.written total).0 e, same, u.short))
        | inr e ↦ e
      ] in
      let file : q.app.fs job.staging ≡ some body =
        staged-received H show_uuid paths faults id request st job q r
        ∙ ap some (received-fresh H show_uuid paths faults id request st job refl) in
      simp (f.flushes, fewer, finish_transfer) (ap (λ n. partly n total) same, file)

  ran : IsHealthy faults → IsKept (run_job H show_uuid job faults request.items (opened job st))
  unfolding run_job
  ran f =
      let s = own_session job st in
      let (q, e) =
        calm-stream H job s faults.remove_file request.items (start H job st) u.calm (ground arith)
          (ground arith) in
      elim (receive_stream-cases H job s faults.remove_file request.items (start H job st)) [
        | inl (z, e', r) ↦ simp (e', run_job) (kept f z r)
        | inr (o, (a, (bytes, (rest, e', k)))) ↦ absurd (flow-apart H q o a (sym e ∙ e'))
      ]

  -- An upload whose body ends before the announced length, with no error, is kept to be resumed: the reply
  -- is 206 with the number of bytes, and the staging file holds just what came, if nothing else disturbs
  -- the upload and no call to the file system fails.
  pub receive_transfer-short :
      IsName (show_uuid id ++ text ".part")
      → IsHealthy faults
      → let out = receive_transfer H show_uuid paths faults id request st in
        (out.0 ≡ partly (length (concat (payload request.items))) total)
        × (out.1.fs (components (push (staging_dir paths) (show_uuid id ++ text ".part")))
            ≡ some (concat (payload request.items)))
  unfolding receive_transfer open_staging filedrop.Base.ℕ_discrete
  receive_transfer-short n f =
      let is_open : open_staging H job faults st ≡ proceeds (opened job st) =
        simp (f.made, f.opens, open_staging) refl in
      simp (prepared n, is_open, receive_transfer) (ran f)
