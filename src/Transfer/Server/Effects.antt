-- ===== src/Transfer/Server/Effects.antt =====
-- What the handler changes on the disk and in the map of sessions.
use filedrop.Base.{
  ◌≡◌, ◌≢◌, refl, ◌∙◌, ◌⊎◌, inl, inr, false, ◌++◌, ◌==◌, nat_eq, list_eq, Text, text, Bool-cases,
  ==_iff,
}
use filedrop.Base.Paths.{component_eq}
use filedrop.Errors.{Uuid}
use filedrop.Security.Checksum.{Sha256}
use filedrop.Storage.StoragePaths.{StoragePaths}
use filedrop.Transfer.Files.{FileKey}
use filedrop.Transfer.Server.{Request, AppState, Outcome, end_session, reply, Job, Faults}
use filedrop.Transfer.Server.Body.{Progress}
use filedrop.Transfer.Server.Handler.{receive_transfer}
use filedrop.Transfer.Server.Prepare.{IsPrepared, below, final-below, staging-below}
use filedrop.Transfer.Server.Received.{remove_staging-others}
use filedrop.Transfer.Server.Finish.{Finished, broken, partial, mismatched, completed}
use filedrop.Transfer.Server.Run.{
  Handled, refused, unopened, stopped, finished, receive_transfer-Handled,
}

-- The reply of a completed upload.
abbrev pub complete : Outcome
complete = reply 200 (text "transfer complete")

module _ (H : Sha256) (show_uuid : Uuid → Text) (paths : StoragePaths) (faults : Faults) (id : Uuid)
    (request : Request) (st : AppState) where
  -- The files below a directory of the application.
  abbrev pub IsBelow : Text → FileKey → Type 0
  IsBelow name k = (rel : FileKey) × (k ≡ below paths name ++ rel)

  outside :
      (job : Job) (k : FileKey)
      → IsPrepared show_uuid paths id request job
      → (IsBelow (text "staging") k → ⊥)
      → (k == job.staging) ≡ false
  outside job k h n = elim (Bool-cases (k == job.staging)) [
    | inr e ↦ e
    | inl e ↦
        let (rel, s) = staging-below show_uuid paths id request job h in
        absurd (n (rel, (==_iff k job.staging).0 e ∙ s))
  ]

  outside-final :
      (job : Job) (k : FileKey)
      → IsPrepared show_uuid paths id request job
      → (IsBelow (text "received") k → ⊥)
      → (k == job.final) ≡ false
  outside-final job k h n = elim (Bool-cases (k == job.final)) [
    | inr e ↦ e
    | inl e ↦
        let (rel, s) = final-below show_uuid paths id request job h in
        absurd (n (rel, (==_iff k job.final).0 e ∙ s))
  ]

  Finished-others :
      (job : Job) (q : Progress H) (r : Outcome × AppState) (k : FileKey)
      → Finished H show_uuid job faults q r
      → (k == job.staging) ≡ false
      → ((r.0 ≡ complete) → (k == job.final) ≡ false)
      → r.1.fs k ≡ q.app.fs k
  unfolding end_session
  Finished-others job q _ k (broken m) n f = refl
  Finished-others job q _ k (partial m e) n f = refl
  Finished-others job q _ k (mismatched m expected s e) n f =
      remove_staging-others faults.remove_file job.staging _ k n
  Finished-others job q _ k (completed e g v) n f = rw (n, f refl) refl

  Handled-others :
      (r : Outcome × AppState) (k : FileKey)
      → Handled H show_uuid paths faults id request st r
      → (IsBelow (text "staging") k → ⊥)
      → ((r.0 ≡ complete) → IsBelow (text "received") k → ⊥)
      → r.1.fs k ≡ st.fs k
  Handled-others _ k (refused o e) n f = refl
  Handled-others _ k (unopened job h m a c s) n f = c k (outside job k h n)
  Handled-others _ k (stopped job h o a bytes rest e l) n f =
      l.others k (outside job k h n) ∙ rw (outside job k h n) refl
  Handled-others _ k (finished job h q r _ e) n f =
      Finished-others job q _ k e (outside job k h n) (λ c. outside-final job k h (f c))
      ∙ r.others k (outside job k h n)
      ∙ rw (outside job k h n) refl

  -- The handler changes no file outside the directories of staged and received files; and unless it
  -- replies that the upload is complete, it changes no file outside the directory of staged files.
  pub receive_transfer-confined :
      (k : FileKey)
      → ((rel : FileKey) → k ≢ below paths (text "staging") ++ rel)
      → ((rel : FileKey) → k ≢ below paths (text "received") ++ rel)
        ⊎ ((receive_transfer H show_uuid paths faults id request st).0 ≢ complete)
      → (receive_transfer H show_uuid paths faults id request st).1.fs k ≡ st.fs k
  receive_transfer-confined k n f =
      Handled-others _ k (receive_transfer-Handled H show_uuid paths faults id request st)
        (λ b. n b.0 b.1) (λ c b. elim f [ inl g ↦ g b.0 b.1 | inr g ↦ g c ])
