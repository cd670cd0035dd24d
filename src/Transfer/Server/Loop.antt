-- ===== src/Transfer/Server/Loop.antt =====
-- The ways through the receiving loop.
use filedrop.Base.{
  ℕ, ◌≡◌, refl, sym, ap, ◌∙◌, ◌⊎◌, inl, inr, Bool, Option, none, some, List, [], ◌∷◌, ◌++◌,
  append-nil, append_assoc, arith, nat_eq, list_eq, Text, text, take, drop, take-append-drop,
  concat, Bool-cases, Option-cases,
}
use filedrop.Base.Paths.{component_eq}
use filedrop.Security.Checksum.{Sha256}
use filedrop.Transfer.Session.{TransferSession, Store, is_cancelled}
use filedrop.Transfer.Files.{write_at}
use filedrop.Transfer.Server.{
  Chunk, chunk_ok, chunk_err, Item, AppState, Outcome, suspended, reply, Job, Flow, proceeds,
  returns, end_session, remove_staging,
}
use filedrop.Transfer.Server.Body.{
  apply_controls, wait_resumed, Progress, write_chunk, receive_chunk, receive_stream,
}
use filedrop.Transfer.Server.Received.{
  payload, reply-status, remove_staging-others, remove_staging-sessions, remove_staging-gone,
  HasReceived, received-nil, received-cons, received-chunk, cancelled, HasLeft, left-after,
}

module _ (H : Sha256) where
  Chunk-cases :
      (c : Chunk) → ((e : Text) × (c ≡ chunk_err e)) ⊎ ((bytes : List ℕ) × (c ≡ chunk_ok bytes))
  Chunk-cases (chunk_err e) = inl (e, refl)
  Chunk-cases (chunk_ok bytes) = inr (bytes, refl)

  Flow-cases :
      (f : Flow (Progress H))
      → ((q : Progress H) × (f ≡ proceeds q))
        ⊎ ((o : Outcome) × ((a : AppState) × (f ≡ returns o a)))
  Flow-cases (proceeds q) = inl (q, refl)
  Flow-cases (returns o a) = inr (o, (a, refl))

  module _ (job : Job) (s : TransferSession) (remove_fails : Bool) where
    -- What can come of a round for a chunk.
    pub Round : List ℕ → Progress H → Flow (Progress H) → Type 0
    Round bytes p (proceeds q) = HasReceived H job.staging p (bytes ∷ []) q
    Round bytes p (returns o a) = (n : ℕ) × HasLeft H job remove_fails p (take n bytes) o a

    write_chunk-Round :
        (bytes : List ℕ) (fault : Option (Text × ℕ)) (p : Progress H)
        → Round bytes p (write_chunk H job s remove_fails bytes fault p)
    unfolding write_chunk end_session Round
    write_chunk-Round bytes none p = received-chunk H job.staging s p bytes _
    write_chunk-Round bytes (some (e, n)) p = (
      n,
      record {
        others = λ k h. rw h refl;
        answer = inr (inr (inr (e, refl)));
        ended = λ h. refl;
        waits = λ h. cc;
        kept = λ n c h. rw h (ground arith);
        removed = λ h. let same = reply-status 500 499 _ _ h in absurd (omega arith);
      },
    )

    Round-store :
        (bytes : List ℕ) (p : Progress H) (store : Store) (f : Flow (Progress H))
        → Round bytes (record p { app = record p.app { store = store } }) f
        → Round bytes p f
    unfolding Round
    Round-store bytes p store (proceeds q) r = record {
      content = r.content;
      others = r.others;
      hashed = r.hashed;
      at = r.at;
      counted = r.counted;
      bounded = r.bounded;
      sessions = r.sessions;
    }
    Round-store bytes p store (returns o a) (n, l) = (
      n,
      record {
        others = l.others;
        answer = l.answer;
        ended = l.ended;
        waits = l.waits;
        kept = l.kept;
        removed = l.removed;
      },
    )

    cancel-left :
        (p : Progress H) (store : Store)
        → HasLeft H job remove_fails p [] (cancelled H) (
            remove_staging remove_fails job.staging
              (end_session job.id (record p.app { store = store })))
    unfolding end_session
    cancel-left p store = record {
      others = λ k h. remove_staging-others remove_fails job.staging _ k h;
      answer = inr (inl refl);
      ended = λ h. remove_staging-sessions remove_fails job.staging _;
      waits = λ h. cc;
      kept = λ n c h. absurd (n refl);
      removed = λ h f. remove_staging-gone remove_fails job.staging _ f;
    }

    wait-left :
        (p : Progress H) (store : Store)
        → HasLeft H job remove_fails p [] suspended (record p.app { store = store })
    unfolding write_at
    wait-left p store = record {
      others = λ k h. refl;
      answer = inl refl;
      ended = λ h. absurd (h refl);
      waits = λ h. refl;
      kept = λ n c h. h;
      removed = λ h. cc;
    }

    receive_chunk-Round :
        (item : Item) (p : Progress H)
        → ((e : Text) × (item.chunk ≡ chunk_err e)
            × ((a : AppState) × (receive_chunk H job s remove_fails item p
                  ≡ returns (reply 400 (text "stream error: " ++ e)) a)
                × HasLeft H job remove_fails p [] (reply 400 (text "stream error: " ++ e)) a))
          ⊎ ((bytes : List ℕ) × (item.chunk ≡ chunk_ok bytes)
              × Round bytes p (receive_chunk H job s remove_fails item p))
    unfolding receive_chunk end_session Round write_at
    receive_chunk-Round item p = elim (Chunk-cases item.chunk) [
      | inl (e, h) ↦ inl (
        e,
        h,
        (
          end_session job.id (record p.app { store = apply_controls s p.app.store item.controls }),
          rw (h, receive_chunk) refl,
          record {
            others = λ k h. refl;
            answer = inr (inr (inl (e, refl)));
            ended = λ h. refl;
            waits = λ h. cc;
            kept = λ n c h. h;
            removed = λ h. let same = reply-status 400 499 _ _ h in absurd (omega arith);
          },
        ),
      )
      | inr (bytes, h) ↦ inr (
        bytes,
        h,
        let store = apply_controls s p.app.store item.controls in
            elim (Bool-cases (is_cancelled store s)) [
              | inl c ↦ rw (h, c, receive_chunk) (0, cancel-left p store)
              | inr c ↦ elim (Option-cases (wait_resumed s store item.sleeps)) [
                | inl w ↦ rw (h, c, w, receive_chunk) (0, wait-left p store)
                | inr (resumed, w) ↦
                    rw (h, c, w, receive_chunk)
                      (Round-store bytes p resumed _ (
                        write_chunk-Round bytes item.write_fault
                          (record p { app = record p.app { store = resumed } })))
              ]
            ],
      )
    ]

    -- The loop comes to the end of the stream with all chunks written, hashed and counted, or the
    -- handler leaves it with the first bytes of the stream written.
    pub receive_stream-cases :
        (items : List Item) (p : Progress H)
        → ((q : Progress H) × (receive_stream H job s remove_fails items p ≡ proceeds q)
            × HasReceived H job.staging p (payload items) q)
          ⊎ ((o : Outcome) × ((a : AppState) × ((bytes : List ℕ) × ((rest : List ℕ)
                    × (receive_stream H job s remove_fails items p ≡ returns o a)
                    × ((bytes ++ rest ≡ concat (payload items))
                        × HasLeft H job remove_fails p bytes o a)))))
    unfolding receive_stream Round
    receive_stream-cases [] p = inl (p, refl, received-nil H job.staging p)
    receive_stream-cases (item ∷ items) p = elim (receive_chunk-Round item p) [
      | inl (e, h, (a, q, l)) ↦
          inr (
            _,
            (a, ([], (concat (payload (item ∷ items)), rw (q, receive_stream) refl, (refl, l)))),
          )
      | inr (bytes, h, r) ↦
          let here : payload (item ∷ items) ≡ bytes ∷ payload items = rw h refl in
          elim (Flow-cases (receive_chunk H job s remove_fails item p)) [
            | inl (q, e) ↦
                let now : HasReceived H job.staging p (bytes ∷ []) q = rw e at r in
                elim (receive_stream-cases items q) [
                  | inl (z, e', r') ↦ inl (
                    z,
                    rw (e, receive_stream) e',
                    rw here (received-cons H job.staging p q z bytes _ now r'),
                  )
                  | inr (o, (a, (w, (rest, e', (k, l))))) ↦ inr (
                    o,
                    (
                      a,
                      (
                        (bytes ++ []) ++ w,
                        (
                          rest,
                          rw (e, receive_stream) e',
                          (
                            rw here (
                                ap (λ x. (x ++ w) ++ rest) (append-nil bytes)
                                ∙ append_assoc bytes w rest
                                ∙ ap (λ x. bytes ++ x) k),
                            left-after H job remove_fails p q (bytes ∷ []) w o a now l,
                          ),
                        ),
                      ),
                    ),
                  )
                ]
            | inr (o, (a, e)) ↦
                let (n, l) : (n : ℕ) × HasLeft H job remove_fails p (take n bytes) o a =
                  rw e at r in
                inr (
                  o,
                  (
                    a,
                    (
                      take n bytes,
                      (
                        drop n bytes ++ concat (payload items),
                        rw (e, receive_stream) refl,
                        (
                          rw here (
                              sym (append_assoc (take n bytes) (drop n bytes) _)
                              ∙ ap (λ x. x ++ concat (payload items)) (take-append-drop n bytes)),
                          l,
                        ),
                      ),
                    ),
                  ),
                )
          ]
    ]
