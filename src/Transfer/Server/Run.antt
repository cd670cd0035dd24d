-- ===== src/Transfer/Server/Run.antt =====
-- The whole handler: every way in which it can end.
use filedrop.Base.{ℕ, ◌≡◌, inl, inr, false, List, ◌++◌, ◌==◌, nat_eq, list_eq, Text, concat}
use filedrop.Base.Dict.{insert}
use filedrop.Base.Paths.{component_eq}
use filedrop.Errors.{Uuid}
use filedrop.Security.Checksum.{Sha256}
use filedrop.Storage.StoragePaths.{StoragePaths}
use filedrop.Transfer.Files.{FileKey}
use filedrop.Transfer.Session.{TransferSession, receive, new_session, with_initial_bytes}
use filedrop.Transfer.Server.{Request, AppState, Outcome, reply, Job, Faults}
use filedrop.Transfer.Server.Body.{Progress}
use filedrop.Transfer.Server.Handler.{run_job, receive_transfer}
use filedrop.Transfer.Server.Prepare.{
  IsPrepared, IsRefusal, prepare-cases, opened, open_staging-cases,
}
use filedrop.Transfer.Server.Loop.{receive_stream-cases}
use filedrop.Transfer.Server.Received.{payload, HasReceived, HasLeft}
use filedrop.Transfer.Server.Finish.{Finished, finish_transfer-Finished}

-- The session that the handler makes, and the variables that its loop begins with.
abbrev pub own_session : Job → AppState → TransferSession
own_session job st = (new_session st.store job.id job.safe_name job.total_size receive).0

module _ (H : Sha256) where
  abbrev pub start : Job → AppState → Progress H
  start job st = record {
    app = record (opened job st) {
      store =
          with_initial_bytes (new_session st.store job.id job.safe_name job.total_size receive).1
            (own_session job st) job.offset;
      sessions = insert job.id (own_session job st) st.sessions;
    };
    hasher = H.new;
    position = job.offset;
    written = job.offset;
  }

  module _ (show_uuid : Uuid → Text) (paths : StoragePaths) (faults : Faults) (id : Uuid)
      (request : Request) (st : AppState) where
    -- How the handler ended.
    pub data Handled : Outcome × AppState → Type 0 where
      refused : (o : Outcome) → IsRefusal o → Handled (o, st)
      unopened :
          (job : Job)
          → IsPrepared show_uuid paths id request job
          → (m : Text) (a : AppState)
          → ((k : FileKey) → (k == job.staging) ≡ false → a.fs k ≡ st.fs k)
          → a.sessions ≡ st.sessions
          → Handled (reply 500 m, a)
      stopped :
          (job : Job)
          → IsPrepared show_uuid paths id request job
          → (o : Outcome) (a : AppState) (bytes rest : List ℕ)
          → bytes ++ rest ≡ concat (payload request.items)
          → HasLeft H job faults.remove_file (start job st) bytes o a
          → Handled (o, a)
      finished :
          (job : Job)
          → IsPrepared show_uuid paths id request job
          → (q : Progress H) → HasReceived H job.staging (start job st) (payload request.items) q
          → (r : Outcome × AppState) → Finished H show_uuid job faults q r
          → Handled r

    run_job-Handled :
        (job : Job)
        → IsPrepared show_uuid paths id request job
        → Handled (run_job H show_uuid job faults request.items (opened job st))
    unfolding run_job
    run_job-Handled job h =
        elim (receive_stream-cases H job (own_session job st) faults.remove_file request.items
          (start job st)) [
            | inl (q, e, r) ↦
                simp (e, run_job)
                  (finished job h q r _ (finish_transfer-Finished H show_uuid job faults q))
            | inr (o, (a, (bytes, (rest, e, (k, l))))) ↦
                simp (e, run_job) (stopped job h o a bytes rest k l)
          ]

    pub receive_transfer-Handled : Handled (receive_transfer H show_uuid paths faults id request st)
    unfolding receive_transfer
    receive_transfer-Handled = elim (prepare-cases show_uuid paths id request st) [
      | inr (o, e, r) ↦ simp (e, receive_transfer) (refused o r)
      | inl (job, e, h) ↦ elim (open_staging-cases H job faults st) [
        | inl (m, (a, e', (f, s))) ↦ simp (e, e', receive_transfer) (unopened job h m a f s)
        | inr e' ↦ simp (e, e', receive_transfer) (run_job-Handled job h)
      ]
    ]
