-- ===== src/Transfer/Server/Integrity.antt =====
-- What a completed upload has stored, and what one that is not completed leaves to be resumed.
use filedrop.Base.{
  ℕ, zero, suc, ◌+◌, ◌-◌, ◌*◌, ◌%◌, ◌^◌, ◌≤◌, ◌<◌, ◌≡◌, ◌≢◌, refl, sym, ap, ◌∙◌, ◌⊎◌, inl, inr,
  Bool, true, false, Option, none, some, List, [], ◌∷◌, ◌++◌, append-nil, append_assoc, arith, ltb,
  ◌==◌, nat_eq, list_eq, if◌then◌else◌, Text, text, length, length-append, take, drop,
  take-append-drop, length-take, drop_all, concat, Bool-cases, Option-cases, ==_iff,
}
use filedrop.Base.Words.{u64_mod}
use filedrop.Base.Paths.{component_eq}
use filedrop.Errors.{Uuid}
use filedrop.Security.Checksum.{Sha256}
use filedrop.Storage.StoragePaths.{StoragePaths}
use filedrop.Transfer.Server.{Request, AppState, Outcome, end_session, Job, Faults}
use filedrop.Transfer.Server.Body.{Progress}
use filedrop.Transfer.Server.Handler.{receive_transfer}
use filedrop.Transfer.Server.Prepare.{IsPrepared, final-ne, old_content}
use filedrop.Transfer.Server.Received.{
  payload, HasReceived, reply-status, replied-ne, replied-ne_panicked,
}
use filedrop.Transfer.Server.Finish.{moved, Finished, broken, partial, mismatched, completed}
use filedrop.Transfer.Server.Run.{
  Handled, refused, unopened, stopped, finished, receive_transfer-Handled, start,
}
use filedrop.Transfer.Server.Effects.{complete}
use filedrop.Security.Checksum.{IsStreaming, digest, hex_encode, sha256_file}
use filedrop.Security.Checksum.Streamed.{sha256_file-digest}
use filedrop.Errors.{FileDropError, ok, err}
use filedrop.Transfer.Files.{write_at, write_at-start, write_at-within}
use filedrop.Transfer.Server.Handler.{actual_sha256}

answer-same : (a b : Text) → some (ok a) ≡ some (ok b) → a ≡ b
answer-same a b h = cc

answer-apart : (e : FileDropError) (b : Text) → some (err e) ≢ some (ok b)
answer-apart e b h = cc

module _ (H : Sha256) (show_uuid : Uuid → Text) (paths : StoragePaths) (faults : Faults) (id : Uuid)
    (request : Request) (st : AppState) where
  abbrev result : Outcome × AppState
  result = receive_transfer H show_uuid paths faults id request st

  -- The staging file with the whole body written to it.
  abbrev pub received : Job → List ℕ
  received job = write_at (old_content job st) job.offset (concat (payload request.items))

  pub staged-received :
      (job : Job) (q : Progress H)
      → HasReceived H job.staging (start H job st) (payload request.items) q
      → q.app.fs job.staging ≡ some (received job)
  staged-received job q r = r.content (old_content job st) (ground arith)

  pub received-fresh : (job : Job) → job.offset ≡ 0 → received job ≡ concat (payload request.items)
  unfolding filedrop.Base.ℕ_discrete
  received-fresh job z = rw z (write_at-start (concat (payload request.items)))

  -- The digest that was compared is the digest of the staging file.
  verified-digest :
      IsStreaming H
      → (job : Job) (q : Progress H) (expected : Text)
      → HasReceived H job.staging (start H job st) (payload request.items) q
      → actual_sha256 H job faults q ≡ some (ok expected)
      → hex_encode (digest H (received job)) ≡ expected
  unfolding actual_sha256
  verified-digest L job q expected r v = elim (Bool-cases (job.offset == 0)) [
    | inl z ↦
        let zero_of = (==_iff job.offset 0).0 z in
        let v' : some (ok (hex_encode (H.finalize q.hasher))) ≡ some (ok expected) =
          simp (z, actual_sha256) at v in
        ap (λ c. hex_encode (digest H c)) (received-fresh job zero_of)
        ∙ ap hex_encode (sym (L.streams (payload request.items)))
        ∙ ap (λ h. hex_encode (H.finalize h)) (sym r.hashed)
        ∙ answer-same _ _ v'
    | inr z ↦
        let v' : sha256_file H faults.reads (q.app.fs job.staging) ≡ some (ok expected) =
          simp (z, actual_sha256) at v in
        let file : sha256_file H faults.reads (some (received job)) ≡ some (ok expected) =
          ap (sha256_file H faults.reads) (sym (staged-received job q r)) ∙ v' in
        elim (sha256_file-digest H faults.reads L (received job)) [
          | inl (j, f, e) ↦ absurd (answer-apart _ _ (sym e ∙ file))
          | inr e ↦ answer-same _ _ (sym e ∙ file)
        ]
  ]

  -- Where the staging file reaches up to the offset, what is before the offset and what is behind the end of
  -- the body is kept.
  received-within :
      (job : Job)
      → let old = old_content job st in
        let body = concat (payload request.items) in
        job.offset ≤ length old
        → received job ≡ take job.offset old ++ (body ++ drop (job.offset + length body) old)
  received-within job h = write_at-within (old_content job st) job.offset _ h

  -- Where it does not reach behind the end of the body either, the file is what was before the offset and
  -- the body.
  received-exact :
      (job : Job)
      → let old = old_content job st in
        let body = concat (payload request.items) in
        job.offset ≤ length old
        → length old ≤ job.offset + length body
        → (received job ≡ take job.offset old ++ body)
          × (length (received job) ≡ job.offset + length body)
  received-exact job h k =
      let old = old_content job st in
      let body = concat (payload request.items) in
      let file : received job ≡ take job.offset old ++ body =
        received-within job h
        ∙ ap (λ rest. take job.offset old ++ (body ++ rest))
            (drop_all (job.offset + length body) old k)
        ∙ ap (λ rest. take job.offset old ++ rest) (append-nil body) in
      (
        file,
        omega (
          arith,
          ap length file,
          length-append (take job.offset old) body,
          length-take job.offset old,
          h,
        ),
      )

  -- What a completed upload is: the file under the name that was made out is the body written to the
  -- staging file at the offset, where offset and body make up the announced length, and it has the
  -- digest that was asked for.
  pub record IsStored (job : Job) (a : AppState) : Type 0 where
    pub stored : a.fs job.final ≡ some (received job)
    pub moved_away : a.fs job.staging ≡ none
    pub size :
        (job.offset + length (concat (payload request.items))) % u64_mod ≡ job.total_size % u64_mod
    pub within :
        job.offset ≤ length (old_content job st)
        → a.fs job.final
          ≡ some (
              take job.offset (old_content job st)
              ++ (concat (payload request.items)
                  ++ drop
                      (job.offset + length (concat (payload request.items)))
                      (old_content job st)))
    pub exact :
        job.offset ≤ length (old_content job st)
        → length (old_content job st) ≤ job.offset + length (concat (payload request.items))
        → (a.fs job.final
            ≡ some (take job.offset (old_content job st) ++ concat (payload request.items)))
          × (length (received job) % u64_mod ≡ job.total_size % u64_mod)
    pub digest_matches :
        (job.expected_sha256 ≡ none)
        ⊎ (job.expected_sha256 ≡ some (hex_encode (digest H (received job))))

  Finished-IsStored :
      IsStreaming H
      → (job : Job) (q : Progress H) (r : Outcome × AppState)
      → IsPrepared show_uuid paths id request job
      → HasReceived H job.staging (start H job st) (payload request.items) q
      → r.0 ≡ complete
      → Finished H show_uuid job faults q r
      → IsStored job r.1
  unfolding end_session
  Finished-IsStored L job q _ h r c (broken m) =
      let same = reply-status 500 200 _ _ c in absurd (omega arith)
  Finished-IsStored L job q _ h r c (partial m e) =
      let same = reply-status 206 200 _ _ c in absurd (omega arith)
  Finished-IsStored L job q _ h r c (mismatched m expected s e) =
      let same = reply-status 422 200 _ _ c in absurd (omega arith)
  Finished-IsStored L job q _ h r c (completed e g v) =
      let total = (==_iff q.written job.total_size).0 e in
      let kept : moved job q.app.fs job.final ≡ some (received job) =
        rw (final-ne show_uuid paths id request job h) (ground (arith, staged-received job q r)) in
      let sized = sym r.counted ∙ ap (λ n. n % u64_mod) total in
      record {
        stored = kept;
        moved_away = ground arith;
        size = sized;
        within = λ k. kept ∙ ap some (received-within job k);
        exact = λ k l.
            let (file, long) = received-exact job k l in
            (kept ∙ ap some file, ap (λ n. n % u64_mod) long ∙ sized);
        digest_matches = elim v [
          | inl n ↦ inl n
          | inr (x, m, k) ↦ inr (m ∙ ap some (sym (verified-digest L job q x r k)))
        ];
      }

  Handled-IsStored :
      IsStreaming H
      → (r : Outcome × AppState) → r.0 ≡ complete
      → Handled H show_uuid paths faults id request st r
      → (job : Job) × IsPrepared show_uuid paths id request job × IsStored job r.1
  Handled-IsStored L _ c (refused o e) = elim e [
    | inl p ↦ absurd (replied-ne_panicked _ (sym c ∙ p))
    | inr (t, p) ↦ let same = reply-status 400 200 _ _ (sym p ∙ c) in absurd (omega arith)
  ]
  Handled-IsStored L _ c (unopened job h t a f s) =
      let same = reply-status 500 200 _ _ c in absurd (omega arith)
  Handled-IsStored L _ c (stopped job h o a bytes rest e l) = elim l.answer [
    | inl p ↦ absurd (replied-ne _ (sym c ∙ p))
    | inr (inl p) ↦ let same = reply-status 499 200 _ _ (sym p ∙ c) in absurd (omega arith)
    | inr (inr (inl (m, p))) ↦
        let same = reply-status 400 200 _ _ (sym p ∙ c) in absurd (omega arith)
    | inr (inr (inr (m, p))) ↦
        let same = reply-status 500 200 _ _ (sym p ∙ c) in absurd (omega arith)
  ]
  Handled-IsStored L _ c (finished job h q r _ e) = (job, h, Finished-IsStored L job q _ h r c e)

  -- What the handler calls complete is stored: if it replies 200, the file at the name that was made out of
  -- the request is the staging file with the body written into it at the offset, its SHA-256 digest is
  -- the one in the header if there is one, and the staging file is gone. The offset and the length of
  -- the body, not the length of the file, make up the announced length, as 64-bit numbers: where the
  -- staging file reached up to the offset, the file keeps what was before the offset and also what was
  -- behind the end of the body; where it was not longer than that end, the file is what was before the
  -- offset followed by the body, and has the announced length. The hash is one whose digest does not
  -- depend on how the data is cut.
  pub receive_transfer-IsStored :
      IsStreaming H
      → result.0 ≡ complete
      → (job : Job) × IsPrepared show_uuid paths id request job × IsStored job result.1
  receive_transfer-IsStored L c =
      Handled-IsStored L result c (receive_transfer-Handled H show_uuid paths faults id request st)
