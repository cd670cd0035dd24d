-- ===== src/Transfer/Server/Sessions.antt =====
-- What the handler leaves in the map of sessions, and in the staging file of an upload that it does not
-- complete.
use filedrop.Base.{
  ℕ, ◌≡◌, ◌≢◌, refl, sym, ap, ◌∙◌, ◌⊎◌, inl, inr, false, none, ◌++◌, arith, ◌==◌, nat_eq, list_eq,
  Text, text,
}
use filedrop.Base.Dict.{Dict, lookup, insert, remove}
use filedrop.Base.Paths.{component_eq}
use filedrop.Errors.{Uuid}
use filedrop.Security.Checksum.{Sha256}
use filedrop.Storage.StoragePaths.{StoragePaths}
use filedrop.Transfer.Session.{TransferSession}
use filedrop.Transfer.Server.{
  Request, AppState, Outcome, end_session, suspended, reply, Job, Faults,
}
use filedrop.Transfer.Server.Body.{Progress}
use filedrop.Transfer.Server.Handler.{receive_transfer}
use filedrop.Transfer.Server.Prepare.{IsPrepared}
use filedrop.Transfer.Server.Received.{
  payload, HasReceived, cancelled, reply-status, replied-ne, replied-ne_panicked,
  remove_staging-sessions,
}
use filedrop.Transfer.Server.Finish.{Finished, broken, partial, mismatched, completed}
use filedrop.Transfer.Server.Run.{
  Handled, refused, unopened, stopped, finished, receive_transfer-Handled, start, own_session,
}
use filedrop.Base.Dict.{lookup-insert, lookup-remove}
use filedrop.Transfer.Server.{not_found, transfer_status}

status-unknown :
    (st : AppState) (id : Uuid) → lookup id st.sessions ≡ none → transfer_status st id ≡ not_found
unfolding transfer_status
status-unknown st id h = rw (h, transfer_status) refl

module _ (H : Sha256) (show_uuid : Uuid → Text) (paths : StoragePaths) (faults : Faults) (id : Uuid)
    (request : Request) (st : AppState) where
  abbrev result : Outcome × AppState
  result = receive_transfer H show_uuid paths faults id request st

  -- Removing the entry, after it has been inserted.
  own-gone :
      (job : Job)
      → lookup job.id (remove job.id (insert job.id (own_session job st) st.sessions)) ≡ none
  own-gone job =
      ground (arith, lookup-remove job.id job.id (insert job.id (own_session job st) st.sessions))

  other-inserted :
      (job : Job) (j : Uuid)
      → IsPrepared show_uuid paths id request job
      → (id == j) ≡ false
      → lookup j (insert job.id (own_session job st) st.sessions) ≡ lookup j st.sessions
  other-inserted job j h n = lookup-insert j job.id _ _ ∙ rw (h.id_of, n) refl

  other-removed :
      (job : Job) (j : Uuid) (d : Dict Uuid TransferSession)
      → IsPrepared show_uuid paths id request job
      → (id == j) ≡ false
      → lookup j (remove job.id d) ≡ lookup j d
  other-removed job j d h n = lookup-remove j job.id d ∙ rw (h.id_of, n) refl

  Finished-other :
      (job : Job) (q : Progress H) (r : Outcome × AppState) (j : Uuid)
      → IsPrepared show_uuid paths id request job
      → (id == j) ≡ false
      → Finished H show_uuid job faults q r
      → lookup j r.1.sessions ≡ lookup j q.app.sessions
  unfolding end_session
  Finished-other job q _ j h n (broken m) = refl
  Finished-other job q _ j h n (partial m e) = other-removed job j _ h n
  Finished-other job q _ j h n (mismatched m expected s e) =
      ap (lookup j)
        (remove_staging-sessions faults.remove_file job.staging (end_session job.id q.app))
      ∙ other-removed job j _ h n
  Finished-other job q _ j h n (completed e g v) = other-removed job j _ h n

  left-ne :
      (o : Outcome)
      → (o ≡ cancelled H)
        ⊎ (((m : Text) × (o ≡ reply 400 (text "stream error: " ++ m)))
            ⊎ ((m : Text) × (o ≡ reply 500 m)))
      → o ≢ suspended
  left-ne o (inl p) s = replied-ne _ (sym p ∙ s)
  left-ne o (inr (inl (m, p))) s = replied-ne _ (sym p ∙ s)
  left-ne o (inr (inr (m, p))) s = replied-ne _ (sym p ∙ s)

  Handled-other :
      (r : Outcome × AppState) (j : Uuid)
      → (id == j) ≡ false
      → Handled H show_uuid paths faults id request st r
      → lookup j r.1.sessions ≡ lookup j st.sessions
  Handled-other _ j n (refused o e) = refl
  Handled-other _ j n (unopened job h m a c s) = ap (lookup j) s
  Handled-other _ j n (stopped job h o a bytes rest e l) = elim l.answer [
    | inl w ↦ ap (lookup j) (l.waits w) ∙ other-inserted job j h n
    | inr w ↦
        ap (lookup j) (l.ended (left-ne o w)) ∙ other-removed job j _ h n ∙ other-inserted job j h n
  ]
  Handled-other _ j n (finished job h q r _ e) =
      Finished-other job q _ j h n e ∙ ap (lookup j) r.sessions ∙ other-inserted job j h n

  Finished-own :
      (job : Job) (q : Progress H) (r : Outcome × AppState) (code : ℕ) (m : Text)
      → HasReceived H job.staging (start H job st) (payload request.items) q
      → r.0 ≡ reply code m
      → code ≢ 500
      → Finished H show_uuid job faults q r
      → lookup job.id r.1.sessions ≡ none
  unfolding end_session
  Finished-own job q _ code m c k n (broken e) = absurd (n (sym (reply-status 500 code e m k)))
  Finished-own job q _ code m c k n (partial _ e) =
      ap (λ d. lookup job.id (remove job.id d)) c.sessions ∙ own-gone job
  Finished-own job q _ code m c k n (mismatched _ expected s e) =
      ap (lookup job.id)
        (remove_staging-sessions faults.remove_file job.staging (end_session job.id q.app))
      ∙ ap (λ d. lookup job.id (remove job.id d)) c.sessions
      ∙ own-gone job
  Finished-own job q _ code m c k n (completed e g v) =
      ap (λ d. lookup job.id (remove job.id d)) c.sessions ∙ own-gone job

  Handled-own :
      (r : Outcome × AppState) (code : ℕ) (m : Text)
      → r.0 ≡ reply code m
      → code ≢ 400
      → code ≢ 500
      → Handled H show_uuid paths faults id request st r
      → lookup id r.1.sessions ≡ none
  Handled-own _ code m k b n (refused o e) = elim e [
    | inl p ↦ absurd (replied-ne_panicked _ (sym k ∙ p))
    | inr (t, p) ↦ absurd (b (sym (reply-status 400 code t m (sym p ∙ k))))
  ]
  Handled-own _ code m k b n (unopened job h t a c s) =
      absurd (n (sym (reply-status 500 code t m k)))
  Handled-own _ code m k b n (stopped job h o a bytes rest e l) =
      ap (λ i. lookup i a.sessions) (sym h.id_of)
      ∙ ap (lookup job.id) (l.ended (λ s. replied-ne _ (sym k ∙ s)))
      ∙ own-gone job
  Handled-own r' code m k b n (finished job h q r _ e) =
      ap (λ i. lookup i r'.1.sessions) (sym h.id_of) ∙ Finished-own job q _ code m r k n e

  -- The handler leaves the sessions of all other transfers alone.
  pub receive_transfer-other_sessions :
      (j : Uuid) → (id == j) ≡ false → lookup j result.1.sessions ≡ lookup j st.sessions
  receive_transfer-other_sessions j n =
      Handled-other result j n (receive_transfer-Handled H show_uuid paths faults id request st)

  -- When the handler replies with a code other than 400 and 500, its own session is gone.
  pub receive_transfer-own_session :
      (code : ℕ) (m : Text)
      → result.0 ≡ reply code m
      → code ≢ 400
      → code ≢ 500
      → lookup id result.1.sessions ≡ none
  receive_transfer-own_session code m k b n =
      Handled-own result code m k b n
        (receive_transfer-Handled H show_uuid paths faults id request st)

  -- After an upload that was cut short (206), the sender that asks how far it came is told that the
  -- transfer is unknown.
  pub transfer_status-partial :
      (m : Text) → result.0 ≡ reply 206 m → transfer_status result.1 id ≡ not_found
  transfer_status-partial m k =
      let gone =
        receive_transfer-own_session 206 m k (λ e. absurd (omega arith))
          (λ e. absurd (omega arith)) in
      status-unknown result.1 id gone
