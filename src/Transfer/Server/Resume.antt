-- ===== src/Transfer/Server/Resume.antt =====
-- An upload in two requests: the first is cut short, the second goes on where it stopped.
use filedrop.Base.{
  ℕ, ◌≡◌, sym, ap, ◌∙◌, inl, inr, true, false, none, some, List, [], ◌∷◌, ◌++◌, arith, ◌==◌, nat_eq,
  list_eq, if◌then◌else◌, Text, length, concat,
}
use filedrop.Base.Paths.{component_eq}
use filedrop.Base.Paths.{components}
use filedrop.Errors.{Uuid}
use filedrop.Security.Checksum.{Sha256}
use filedrop.Storage.StoragePaths.{StoragePaths}
use filedrop.Transfer.Server.{Request, AppState, Outcome, end_session, reply, Job, Faults}
use filedrop.Transfer.Server.Body.{Progress}
use filedrop.Transfer.Server.Handler.{receive_transfer}
use filedrop.Transfer.Server.Prepare.{IsPrepared}
use filedrop.Transfer.Server.Received.{
  payload, HasReceived, reply-status, replied-ne, replied-ne_panicked,
}
use filedrop.Transfer.Server.Finish.{Finished, broken, partial, mismatched, completed}
use filedrop.Transfer.Server.Run.{
  Handled, refused, unopened, stopped, finished, receive_transfer-Handled, start,
}
use filedrop.Transfer.Server.Effects.{complete}
use filedrop.Security.Checksum.{IsStreaming}
use filedrop.Errors.{ok}
use filedrop.Transfer.Files.{write_at, write_at-start}
use filedrop.Transfer.Server.Handler.{or_empty, or_zero, parse_resume_offset}
use filedrop.Transfer.Files.{write_at-end}
use filedrop.Transfer.Server.Integrity.{
  received, received-fresh, staged-received, receive_transfer-IsStored,
}

module _ (H : Sha256) (show_uuid : Uuid → Text) (paths : StoragePaths) (faults : Faults) (id : Uuid)
    (request : Request) (st : AppState) where
  abbrev result : Outcome × AppState
  result = receive_transfer H show_uuid paths faults id request st

  Finished-partial :
      (job : Job) (q : Progress H) (r : Outcome × AppState) (m : Text)
      → HasReceived H job.staging (start H job st) (payload request.items) q
      → r.0 ≡ reply 206 m
      → Finished H show_uuid job faults q r
      → r.1.fs job.staging ≡ some (received H show_uuid paths faults id request st job)
  unfolding end_session
  Finished-partial job q _ t r c (broken m) =
      let same = reply-status 500 206 _ _ c in absurd (omega arith)
  Finished-partial job q _ t r c (partial m e) =
      staged-received H show_uuid paths faults id request st job q r
  Finished-partial job q _ t r c (mismatched m expected s e) =
      let same = reply-status 422 206 _ _ c in absurd (omega arith)
  Finished-partial job q _ t r c (completed e g v) =
      let same = reply-status 200 206 _ _ c in absurd (omega arith)

  Handled-partial :
      (r : Outcome × AppState) (m : Text)
      → r.0 ≡ reply 206 m
      → Handled H show_uuid paths faults id request st r
      → (job : Job) × IsPrepared show_uuid paths id request job
        × (r.1.fs job.staging ≡ some (received H show_uuid paths faults id request st job))
  Handled-partial _ m c (refused o e) = elim e [
    | inl p ↦ absurd (replied-ne_panicked _ (sym c ∙ p))
    | inr (t, p) ↦ let same = reply-status 400 206 _ _ (sym p ∙ c) in absurd (omega arith)
  ]
  Handled-partial _ m c (unopened job h t a f s) =
      let same = reply-status 500 206 _ _ c in absurd (omega arith)
  Handled-partial _ m c (stopped job h o a bytes rest e l) = elim l.answer [
    | inl p ↦ absurd (replied-ne _ (sym c ∙ p))
    | inr (inl p) ↦ let same = reply-status 499 206 _ _ (sym p ∙ c) in absurd (omega arith)
    | inr (inr (inl (t, p))) ↦
        let same = reply-status 400 206 _ _ (sym p ∙ c) in absurd (omega arith)
    | inr (inr (inr (t, p))) ↦
        let same = reply-status 500 206 _ _ (sym p ∙ c) in absurd (omega arith)
  ]
  Handled-partial _ m c (finished job h q r _ e) = (job, h, Finished-partial job q _ m r c e)

  -- An upload that is cut short (206) leaves what it has received in the staging file: what that held
  -- before the offset, and then the body.
  pub receive_transfer-partial :
      (m : Text)
      → result.0 ≡ reply 206 m
      → (job : Job) × IsPrepared show_uuid paths id request job
        × (result.1.fs job.staging ≡ some (received H show_uuid paths faults id request st job))
  receive_transfer-partial m c =
      Handled-partial result m c (receive_transfer-Handled H show_uuid paths faults id request st)

-- Resuming at the end of what is there.
write_at-resumed :
    (offset : ℕ) (c bs : List ℕ)
    → offset ≡ length c
    → write_at (if offset == 0 then [] else c) offset bs ≡ c ++ bs
write_at-resumed offset [] bs h =
    let zero_is : (offset == 0) ≡ true = ground arith in rw zero_is (rw h (write_at-start bs))
write_at-resumed offset (x ∷ c) bs h =
    let nonzero : (offset == 0) ≡ false = ground arith in
    rw nonzero (rw h (write_at-end (x ∷ c) bs))

ok-same : (a b : Text) → ok a ≡ ok b → a ≡ b
ok-same a b h = cc

-- The two jobs of one transfer have one staging file.
same-staging :
    (show_uuid : Uuid → Text) (paths : StoragePaths) (id : Uuid) (r s : Request) (i j : Job)
    → IsPrepared show_uuid paths id r i
    → IsPrepared show_uuid paths id s j
    → i.staging ≡ j.staging
same-staging show_uuid paths id r s i j h k =
    let (p, e, f) = h.staging_of in
    let (q, g, l) = k.staging_of in f ∙ ap components (ok-same p q (sym e ∙ g)) ∙ sym l

-- An upload that is cut short and then resumed is whole: if a first request without an offset is
-- answered with 206, and a second one, whose offset is the number of bytes that the first delivered, is
-- answered with 200, then the file holds the bytes of the first body followed by those of the second.
pub receive_transfer-resumed :
    (H : Sha256) (show_uuid : Uuid → Text) (paths : StoragePaths) (id : Uuid)
    → (first second : Request) (f g : Faults) (st : AppState) (m : Text) → IsStreaming H
    → parse_resume_offset first.header ≡ none
    → (receive_transfer H show_uuid paths f id first st).0 ≡ reply 206 m
    → parse_resume_offset second.header ≡ some (length (concat (payload first.items)))
    → (receive_transfer H show_uuid paths g id second
        (receive_transfer H show_uuid paths f id first st).1).0
      ≡ complete
    → (job : Job) × IsPrepared show_uuid paths id second job
      × ((receive_transfer H show_uuid paths g id second
              (receive_transfer H show_uuid paths f id first st).1).1.fs
            job.final
          ≡ some (concat (payload first.items) ++ concat (payload second.items)))
receive_transfer-resumed H show_uuid paths id first second f g st m L n c o d =
    let st1 = (receive_transfer H show_uuid paths f id first st).1 in
    let (i, hi, e) = receive_transfer-partial H show_uuid paths f id first st m c in
    let (j, hj, s) = receive_transfer-IsStored H show_uuid paths g id second st1 L d in
    let fresh : received H show_uuid paths f id first st i ≡ concat (payload first.items) =
      received-fresh H show_uuid paths f id first st i (hi.offset_of ∙ ap or_zero n) in
    let there : or_empty (st1.fs j.staging) ≡ concat (payload first.items) =
      ap (λ k. or_empty (st1.fs k)) (sym (same-staging show_uuid paths id first second i j hi hj))
      ∙ ap or_empty e
      ∙ fresh in
    let at : j.offset ≡ length (or_empty (st1.fs j.staging)) =
      hj.offset_of ∙ ap or_zero o ∙ sym (ap length there) in
    (
      j,
      hj,
      s.stored
          ∙ ap some (
              write_at-resumed j.offset _ _ at
              ∙ ap (λ c. c ++ concat (payload second.items)) there),
    )
