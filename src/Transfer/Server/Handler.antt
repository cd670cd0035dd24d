-- ===== src/Transfer/Server/Handler.antt =====
-- rust/filedrop-core/src/transfer/server.rs, `receive_transfer`: what comes before the loop and after it.
use filedrop.Base.{
  ℕ, Option, none, some, List, [], ◌++◌, ◌==◌, nat_eq, list_eq, if◌then◌else◌, Text, text,
}
use filedrop.Base.Dict.{insert}
use filedrop.Base.Strings.{split_first, strip_prefix}
use filedrop.Base.Paths.{components}
use filedrop.Errors.{Uuid, Result, ok, err, display}
use filedrop.Security.Filename.{sanitize_filename}
use filedrop.Security.FilePath.{safe_join}
use filedrop.Security.Checksum.{Sha256, hex_encode, sha256_file}
use filedrop.Storage.StoragePaths.{StoragePaths, received_files_dir, staging_dir}
use filedrop.Transfer.Session.{receive, new_session, with_initial_bytes}
use filedrop.Transfer.Decimal.{show_u64, parse_u64}
use filedrop.Transfer.Files.{update_file}
use filedrop.Transfer.Server.{
  Item, Request, Faults, AppState, Outcome, panicked, suspended, reply, Job, Flow, proceeds,
  returns, end_session, remove_staging,
}
use filedrop.Transfer.Server.Body.{Progress, receive_stream}

abbrev pub option_bind {ℓ κ} : {A : Type ℓ} {B : Type κ} → Option A → (A → Option B) → Option B
option_bind none f = none
option_bind (some a) f = f a

-- `Content-Range: bytes START-END/TOTAL`
unfoldable pub parse_resume_offset : (Text → Option Text) → Option ℕ
unfolding strip_prefix split_first parse_u64
parse_resume_offset header = option_bind (header (text "Content-Range")) λ raw.
    option_bind (strip_prefix (text "bytes ") raw)
      λ after_bytes. parse_u64 (split_first (λ c. c == b'-') after_bytes)

abbrev pub or_empty : Option (List ℕ) → List ℕ
or_empty none = []
or_empty (some c) = c

abbrev pub or_zero : Option ℕ → ℕ
or_zero none = 0
or_zero (some n) = n

module _ (show_uuid : Uuid → Text) (paths : StoragePaths) where
  -- The headers and the two paths.
  unfoldable pub prepare : Uuid → Request → AppState → Flow Job
  unfolding sanitize_filename safe_join parse_resume_offset
  prepare id request st = elim (request.header (text "X-FileDrop-Filename")) [
    | none ↦ returns (reply 400 (text "missing X-FileDrop-Filename")) st
    | some raw ↦ elim (option_bind (request.header (text "X-FileDrop-Total-Size")) parse_u64) [
      | none ↦ returns (reply 400 (text "missing X-FileDrop-Total-Size")) st
      | some total ↦ elim (sanitize_filename raw) [
        | none ↦ returns panicked st
        | some safe_name ↦ elim (safe_join (staging_dir paths) (show_uuid id ++ text ".part")) [
          | err e ↦ returns (reply 400 (display show_uuid e)) st
          | ok staging ↦ elim (safe_join (received_files_dir paths) safe_name) [
            | err e ↦ returns (reply 400 (display show_uuid e)) st
            | ok final ↦ proceeds (record {
              id = id;
              safe_name = safe_name;
              total_size = total;
              expected_sha256 = request.header (text "X-FileDrop-Sha256");
              staging = components staging;
              final = components final;
              offset = or_zero (parse_resume_offset request.header);
            })
          ]
        ]
      ]
    ]
  ]

module _ (H : Sha256) where
  module _ (job : Job) (faults : Faults) where
    -- The rename and the reply after it.
    unfoldable pub publish : AppState → Outcome × AppState
    unfolding end_session
    publish app = elim faults.rename [
      | some e ↦ (reply 500 e, app)
      | none ↦
          let moved =
            update_file (update_file app.fs job.final (app.fs job.staging)) job.staging none in
          (reply 200 (text "transfer complete"), end_session job.id (record app { fs = moved }))
    ]

    -- The digest that is compared with the header's; `none` is `sha256_file` without an answer.
    unfoldable pub actual_sha256 : Progress H → Option (Result Text)
    unfolding sha256_file hex_encode
    actual_sha256 p =
        if job.offset == 0
        then some (ok (hex_encode (H.finalize p.hasher)))
        else sha256_file H faults.reads (p.app.fs job.staging)

    -- Opening creates the file, and empties it unless the upload resumes.
    unfoldable pub open_staging : AppState → Flow AppState
    open_staging st = elim faults.mkdir [
      | some e ↦ returns (reply 500 e) st
      | none ↦ elim faults.open_file [
        | some e ↦ returns (reply 500 e) st
        | none ↦
            let content = if job.offset == 0 then [] else or_empty (st.fs job.staging) in
            let opened = record st { fs = update_file st.fs job.staging (some content) } in
            if job.offset == 0
            then proceeds opened
            else elim faults.seek [ some e ↦ returns (reply 500 e) opened | none ↦ proceeds opened ]
      ]
    ]

  module _ (show_uuid : Uuid → Text) (job : Job) (faults : Faults) where
    unfoldable pub check_digest : Text → Progress H → Outcome × AppState
    unfolding actual_sha256 publish
    check_digest expected p = elim (actual_sha256 job faults p) [
      | none ↦ (suspended, p.app)
      | some (err e) ↦ (reply 500 (display show_uuid e), p.app)
      | some (ok actual) ↦ if actual == expected then publish job faults p.app else (
        reply 422 (text "checksum mismatch: expected " ++ (expected ++ (text ", got " ++ actual))),
        remove_staging faults.remove_file job.staging (end_session job.id p.app),
      )
    ]

    -- What follows the loop.
    unfoldable pub finish_transfer : Progress H → Outcome × AppState
    unfolding check_digest show_u64
    finish_transfer p = elim faults.flush [
      | some e ↦ (reply 500 e, p.app)
      | none ↦
          if p.written == job.total_size
          then elim job.expected_sha256 [
            | none ↦ publish job faults p.app
            | some expected ↦ check_digest expected p
          ]
          else (
            reply 206 (
                text "received "
                ++ (show_u64 p.written
                    ++ (text " of " ++ (show_u64 job.total_size ++ text " bytes; resumable")))),
            end_session job.id p.app,
          )
    ]

    -- The session is made and put into the map, the loop runs, and what follows it.
    unfoldable pub run_job : List Item → AppState → Outcome × AppState
    unfolding insert receive_stream finish_transfer
    run_job items st =
        let (s, fresh) = new_session st.store job.id job.safe_name job.total_size receive in
        let app = record st {
          store = with_initial_bytes fresh s job.offset;
          sessions = insert job.id s st.sessions;
        } in
        let start : Progress H = record {
          app = app;
          hasher = H.new;
          position = job.offset;
          written = job.offset;
        } in
        elim (receive_stream H job s faults.remove_file items start) [
          | proceeds p ↦ finish_transfer p
          | returns o left ↦ (o, left)
        ]

  module _ (show_uuid : Uuid → Text) (paths : StoragePaths) where
    -- `POST /api/v1/transfer/{transfer_id}`
    unfoldable pub receive_transfer : Faults → Uuid → Request → AppState → Outcome × AppState
    unfolding prepare open_staging run_job
    receive_transfer faults id request st = elim (prepare show_uuid paths id request st) [
      | returns o app ↦ (o, app)
      | proceeds job ↦ elim (open_staging job faults st) [
        | returns o app ↦ (o, app)
        | proceeds app ↦ run_job show_uuid job faults request.items app
      ]
    ]
