-- ===== src/Transfer/Server/Finish.antt =====
-- What follows the receiving loop: all ways in which the handler can end there.
use filedrop.Base.{
  ◌≡◌, refl, ap, ◌∙◌, ◌⊎◌, inl, inr, true, false, none, some, ◌==◌, nat_eq, list_eq, Text, text,
  Bool-cases, Option-cases, ==_iff,
}
use filedrop.Base.Paths.{component_eq}
use filedrop.Errors.{Uuid}
use filedrop.Errors.{Result, ok, Result-cases}
use filedrop.Security.Checksum.{Sha256, hex_encode}
use filedrop.Security.Checksum.Streamed.{sha256_file-answers}
use filedrop.Transfer.Files.{FileSystem, update_file}
use filedrop.Transfer.Server.{AppState, Outcome, reply, Job, Faults, end_session, remove_staging}
use filedrop.Transfer.Server.Body.{Progress}
use filedrop.Transfer.Server.Handler.{publish, actual_sha256, check_digest, finish_transfer}

-- The file system after the rename.
abbrev pub moved : Job → FileSystem → FileSystem
moved job fs = update_file (update_file fs job.final (fs job.staging)) job.staging none

module _ (H : Sha256) (show_uuid : Uuid → Text) (job : Job) (faults : Faults) (q : Progress H) where
  -- No digest was asked for, or the one that was computed is the one asked for.
  abbrev pub IsVerified : Type 0
  IsVerified =
      (job.expected_sha256 ≡ none)
      ⊎ ((expected : Text) × (job.expected_sha256 ≡ some expected)
          × (actual_sha256 H job faults q ≡ some (ok expected)))

  pub data Finished : Outcome × AppState → Type 0 where
    broken : (m : Text) → Finished (reply 500 m, q.app)
    partial :
        (m : Text)
        → (q.written == job.total_size) ≡ false
        → Finished (reply 206 m, end_session job.id q.app)
    mismatched :
        (m expected : Text)
        → job.expected_sha256 ≡ some expected
        → (q.written == job.total_size) ≡ true
        → Finished
            (reply 422 m, remove_staging faults.remove_file job.staging (end_session job.id q.app))
    completed :
        (q.written == job.total_size) ≡ true
        → faults.rename ≡ none
        → IsVerified
        → Finished (
          reply 200 (text "transfer complete"),
          end_session job.id (record q.app { fs = moved job q.app.fs }),
        )

  actual_sha256-answers : (r : Result Text) × (actual_sha256 H job faults q ≡ some r)
  unfolding actual_sha256
  actual_sha256-answers = elim (Bool-cases (job.offset == 0)) [
    | inl e ↦ (ok (hex_encode (H.finalize q.hasher)), simp (e, actual_sha256) refl)
    | inr e ↦ simp (e, actual_sha256) (sha256_file-answers H faults.reads (q.app.fs job.staging))
  ]

  publish-Finished :
      (q.written == job.total_size) ≡ true → IsVerified → Finished (publish H job faults q.app)
  unfolding publish
  publish-Finished h v = elim (Option-cases faults.rename) [
    | inl e ↦ simp (e, publish) (completed h e v)
    | inr (m, e) ↦ simp (e, publish) (broken m)
  ]

  check_digest-Finished :
      (expected : Text)
      → job.expected_sha256 ≡ some expected
      → (q.written == job.total_size) ≡ true
      → Finished (check_digest H show_uuid job faults expected q)
  unfolding check_digest
  check_digest-Finished expected s h =
      let (r, a) = actual_sha256-answers in
      elim (Result-cases r) [
        | inl (e, k) ↦ simp (a, k, check_digest) (broken _)
        | inr (actual, k) ↦ elim (Bool-cases (actual == expected)) [
          | inl same ↦
              simp (a, k, same, check_digest)
                (publish-Finished h
                  (inr (expected, s, a ∙ ap some (k ∙ ap ok ((==_iff actual expected).0 same)))))
          | inr differs ↦ simp (a, k, differs, check_digest) (mismatched _ expected s h)
        ]
      ]

  pub finish_transfer-Finished : Finished (finish_transfer H show_uuid job faults q)
  unfolding finish_transfer
  finish_transfer-Finished = elim (Option-cases faults.flush) [
    | inr (m, e) ↦ simp (e, finish_transfer) (broken m)
    | inl e ↦ elim (Bool-cases (q.written == job.total_size)) [
      | inr n ↦ simp (e, n, finish_transfer) (partial _ n)
      | inl y ↦ elim (Option-cases job.expected_sha256) [
        | inl s ↦ simp (e, y, s, finish_transfer) (publish-Finished y (inl s))
        | inr (expected, s) ↦ simp (e, y, s, finish_transfer) (check_digest-Finished expected s y)
      ]
    ]
  ]
