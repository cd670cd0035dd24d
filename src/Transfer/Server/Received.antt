-- ===== src/Transfer/Server/Received.antt =====
-- What the receiving loop leaves in the staging file, the hasher and the shared state.
use filedrop.Base.{
  ℕ, ◌+◌, ◌%◌, ◌<◌, ◌≡◌, ◌≢◌, refl, sym, ap, ◌∙◌, ◌⊎◌, Bool, true, false, none, some, List, [], ◌∷◌,
  ◌++◌, append-nil, arith, ◌==◌, nat_eq, list_eq, Text, text, length, length-append, concat,
}
use filedrop.Base.Dict.{remove, map_option}
use filedrop.Base.Words.{add_u64, u64_mod}
use filedrop.Base.Paths.{component_eq}
use filedrop.Security.Checksum.{Sha256, update_all}
use filedrop.Transfer.Session.{TransferSession, Store}
use filedrop.Transfer.Files.{FileKey, update_file, write_at, write_at-write_at}
use filedrop.Transfer.Server.{
  Response, chunk_ok, chunk_err, Item, AppState, Outcome, replied, panicked, suspended, reply, Job,
  remove_staging,
}
use filedrop.Transfer.Server.Body.{Progress}

-- The bytes that a body delivers, chunk by chunk.
abbrev pub payload : List Item → List (List ℕ)
payload [] = []
payload (item ∷ items) = elim item.chunk [
  | chunk_ok bytes ↦ bytes ∷ payload items
  | chunk_err e ↦ payload items
]

abbrev status_code : Outcome → ℕ
status_code (replied r) = r.status
status_code panicked = 0
status_code suspended = 1

-- Replies with different codes differ.
pub reply-status : (a b : ℕ) (m n : Text) → reply a m ≡ reply b n → a ≡ b
reply-status a b m n h = ap status_code h

pub replied-ne : (r : Response) → replied r ≢ suspended
replied-ne r h = cc

pub replied-ne_panicked : (r : Response) → replied r ≢ panicked
replied-ne_panicked r h = cc

-- Removing the staging file changes that file only, if any.
pub remove_staging-others :
    (fails : Bool) (staging : FileKey) (app : AppState) (k : FileKey)
    → (k == staging) ≡ false
    → (remove_staging fails staging app).fs k ≡ app.fs k
remove_staging-others true staging app k h = refl
remove_staging-others false staging app k h = rw h refl

pub remove_staging-sessions :
    (fails : Bool) (staging : FileKey) (app : AppState)
    → (remove_staging fails staging app).sessions ≡ app.sessions
remove_staging-sessions true staging app = refl
remove_staging-sessions false staging app = refl

pub remove_staging-gone :
    (fails : Bool) (staging : FileKey) (app : AppState)
    → fails ≡ false
    → (remove_staging fails staging app).fs staging ≡ none
remove_staging-gone true staging app h = cc
remove_staging-gone false staging app h = ground arith

module _ (H : Sha256) where
  -- `q` is `p` after the chunks have gone through the loop.
  pub record HasReceived (staging : FileKey) (p : Progress H) (chunks : List (List ℕ))
      (q : Progress H) : Type 0 where
    pub content :
        (c : List ℕ)
        → p.app.fs staging ≡ some c
        → q.app.fs staging ≡ some (write_at c p.position (concat chunks))
    pub others : (k : FileKey) → (k == staging) ≡ false → q.app.fs k ≡ p.app.fs k
    pub hashed : q.hasher ≡ update_all H p.hasher chunks
    pub at : q.position ≡ p.position + length (concat chunks)
    pub counted : q.written % u64_mod ≡ (p.written + length (concat chunks)) % u64_mod
    pub bounded : p.written < u64_mod → q.written < u64_mod
    pub sessions : q.app.sessions ≡ p.app.sessions

  pub received-nil : (staging : FileKey) (p : Progress H) → HasReceived staging p [] p
  unfolding write_at
  received-nil staging p = record {
    content = λ c h. h;
    others = λ k h. refl;
    hashed = refl;
    at = omega arith;
    counted = omega arith;
    bounded = λ h. h;
    sessions = refl;
  }

  pub received-cons :
      (staging : FileKey) (p q r : Progress H) (bytes : List ℕ) (chunks : List (List ℕ))
      → HasReceived staging p (bytes ∷ []) q
      → HasReceived staging q chunks r
      → HasReceived staging p (bytes ∷ chunks) r
  received-cons staging p q r bytes chunks a b = record {
    content = λ c h.
        b.content _ (a.content c h)
        ∙ ap some (
            ap (λ k. write_at (write_at c p.position (bytes ++ [])) k (concat chunks)) a.at
            ∙ write_at-write_at c p.position (bytes ++ []) (concat chunks)
            ∙ ap (write_at c p.position) (ap (λ x. x ++ concat chunks) (append-nil bytes)));
    others = λ k h. b.others k h ∙ a.others k h;
    hashed = b.hashed ∙ ap (λ h. update_all H h chunks) a.hashed;
    at = omega (arith, a.at, b.at, length-append bytes (concat chunks), length-append bytes []);
    counted =
        omega (
          arith,
          a.counted,
          b.counted,
          length-append bytes (concat chunks),
          length-append bytes [],
        );
    bounded = λ h. b.bounded (a.bounded h);
    sessions = b.sessions ∙ a.sessions;
  }

  -- What `write_chunk` does to the variables.
  pub received-chunk :
      (staging : FileKey) (s : TransferSession) (p : Progress H) (bytes : List ℕ) (store : Store)
      → HasReceived staging p (bytes ∷ []) (record {
        app = record p.app {
          fs =
              update_file p.app.fs staging
                (map_option (λ c. write_at c p.position bytes) (p.app.fs staging));
          store = store;
        };
        hasher = H.update p.hasher bytes;
        position = p.position + length bytes;
        written = add_u64 p.written (length bytes);
      })
  received-chunk staging s p bytes store = record {
    content = λ c h. rw (h, append-nil bytes) (ground arith);
    others = λ k h. rw h refl;
    hashed = refl;
    at = ap (λ x. p.position + length x) (sym (append-nil bytes));
    counted = omega (arith, length-append bytes []);
    bounded = λ h. omega arith;
    sessions = refl;
  }

  abbrev pub cancelled : Outcome
  cancelled = reply 499 (text "transfer cancelled")

  -- The handler returned `o` from within the loop, `bytes` after `p`.
  pub record HasLeft (job : Job) (remove_fails : Bool) (p : Progress H) (bytes : List ℕ)
      (o : Outcome) (a : AppState) : Type 0 where
    pub others : (k : FileKey) → (k == job.staging) ≡ false → a.fs k ≡ p.app.fs k
    pub answer :
        (o ≡ suspended)
        ⊎ ((o ≡ cancelled)
            ⊎ (((m : Text) × (o ≡ reply 400 (text "stream error: " ++ m)))
                ⊎ ((m : Text) × (o ≡ reply 500 m))))
    pub ended : o ≢ suspended → a.sessions ≡ remove job.id p.app.sessions
    pub waits : o ≡ suspended → a.sessions ≡ p.app.sessions
    pub kept :
        o ≢ cancelled
        → (c : List ℕ) → p.app.fs job.staging ≡ some c
        → a.fs job.staging ≡ some (write_at c p.position bytes)
    pub removed : o ≡ cancelled → remove_fails ≡ false → a.fs job.staging ≡ none

  pub left-after :
      (job : Job) (remove_fails : Bool) (p q : Progress H) (chunks : List (List ℕ)) (bytes : List ℕ)
      (o : Outcome) (a : AppState)
      → HasReceived job.staging p chunks q
      → HasLeft job remove_fails q bytes o a
      → HasLeft job remove_fails p (concat chunks ++ bytes) o a
  left-after job remove_fails p q chunks bytes o a r l = record {
    others = λ k h. l.others k h ∙ r.others k h;
    answer = l.answer;
    ended = λ n. l.ended n ∙ ap (remove job.id) r.sessions;
    waits = λ n. l.waits n ∙ r.sessions;
    kept = λ n c h.
        l.kept n _ (r.content c h)
        ∙ ap some (
            ap (λ k. write_at (write_at c p.position (concat chunks)) k bytes) r.at
            ∙ write_at-write_at c p.position (concat chunks) bytes);
    removed = l.removed;
  }
