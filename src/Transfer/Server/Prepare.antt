-- ===== src/Transfer/Server/Prepare.antt =====
-- What precedes the receiving loop: the headers, the two paths and the staging file.
use mathlib.Core.List.{head-eq_of_cons-eq, tail-eq_of_cons-eq}
use filedrop.Base.{
  ℕ, zero, suc, ◌+◌, ◌-◌, ◌*◌, ◌%◌, ◌^◌, ◌≤◌, ◌<◌, ◌≡◌, ◌≢◌, refl, sym, ap, ◌∙◌, ◌⊎◌, inl, inr,
  Bool, true, false, Option, none, some, List, [], ◌∷◌, ◌++◌, append-nil, append_assoc, arith, ltb,
  ◌==◌, nat_eq, list_eq, if◌then◌else◌, Text, text, length, length-append, take, drop,
  take-append-drop, concat, Bool-cases, Option-cases, ==_iff,
}
use filedrop.Base.Paths.{Component, component_eq}
use filedrop.Errors.{Uuid}
use filedrop.Base.Paths.{normal, components, push}
use filedrop.Base.Paths.Laws.{components-push}
use filedrop.Base.Paths.Plain.{IsPlain, components-plain, IsPlain-IsRelative}
use filedrop.Errors.{ok, Result-cases, display}
use filedrop.Security.Checksum.{Sha256}
use filedrop.Security.Filename.{sanitize_filename}
use filedrop.Security.FilePath.{safe_join}
use filedrop.Security.FilePath.Confined.{normals, parts, safe_join-confined}
use filedrop.Storage.StoragePaths.{StoragePaths, received_files_dir, staging_dir}
use filedrop.Transfer.Decimal.{parse_u64}
use filedrop.Transfer.Files.{FileKey, update_file}
use filedrop.Transfer.Server.{
  Request, AppState, Outcome, panicked, reply, Job, Faults, proceeds, returns,
}
use filedrop.Transfer.Server.Handler.{parse_resume_offset, or_zero, or_empty, prepare, open_staging}

-- A directory of the application.
abbrev pub below : StoragePaths → Text → FileKey
below paths name = components paths.app_data_dir ++ (normal name ∷ [])

dir-components :
    (paths : StoragePaths) (name : Text)
    → IsPlain name
    → components (push paths.app_data_dir name) ≡ below paths name
dir-components paths name h =
    components-push paths.app_data_dir name (IsPlain-IsRelative name h)
    ∙ ap (λ x. components paths.app_data_dir ++ x) (components-plain name h)

received-IsPlain : IsPlain (text "received")
unfolding filedrop.Base.ℕ_discrete list_eq
received-IsPlain = record {
  no_slash = (refl, (refl, (refl, (refl, (refl, (refl, (refl, (refl, tt))))))));
  not_empty = refl;
  not_dot = refl;
  not_dots = refl;
}

staging-IsPlain : IsPlain (text "staging")
unfolding filedrop.Base.ℕ_discrete list_eq
staging-IsPlain = record {
  no_slash = (refl, (refl, (refl, (refl, (refl, (refl, (refl, tt)))))));
  not_empty = refl;
  not_dot = refl;
  not_dots = refl;
}

pub staging-components :
    (paths : StoragePaths) → components (staging_dir paths) ≡ below paths (text "staging")
unfolding staging_dir
staging-components paths = dir-components paths (text "staging") staging-IsPlain

pub received-components :
    (paths : StoragePaths) → components (received_files_dir paths) ≡ below paths (text "received")
unfolding received_files_dir
received-components paths = dir-components paths (text "received") received-IsPlain

-- What a job is made of.
pub record IsPrepared (show_uuid : Uuid → Text) (paths : StoragePaths) (id : Uuid)
    (request : Request) (job : Job) : Type 0 where
  pub id_of : job.id ≡ id
  pub name_of :
      (raw : Text) × (request.header (text "X-FileDrop-Filename") ≡ some raw)
      × (sanitize_filename raw ≡ some job.safe_name)
  pub size_of :
      (raw : Text) × (request.header (text "X-FileDrop-Total-Size") ≡ some raw)
      × (parse_u64 raw ≡ some job.total_size)
  pub digest_of : job.expected_sha256 ≡ request.header (text "X-FileDrop-Sha256")
  pub offset_of : job.offset ≡ or_zero (parse_resume_offset request.header)
  pub staging_of :
      (path : Text) × (safe_join (staging_dir paths) (show_uuid id ++ text ".part") ≡ ok path)
      × (job.staging ≡ components path)
  pub final_of :
      (path : Text) × (safe_join (received_files_dir paths) job.safe_name ≡ ok path)
      × (job.final ≡ components path)

-- The answer to a request that is refused before any file is touched.
abbrev pub IsRefusal : Outcome → Type 0
IsRefusal o = (o ≡ panicked) ⊎ ((m : Text) × (o ≡ reply 400 m))

abbrev job : Uuid → Request → Text → ℕ → FileKey → FileKey → Job
job id request name total staging final = record {
  id = id;
  safe_name = name;
  total_size = total;
  expected_sha256 = request.header (text "X-FileDrop-Sha256");
  staging = staging;
  final = final;
  offset = or_zero (parse_resume_offset request.header);
}

module _ (show_uuid : Uuid → Text) (paths : StoragePaths) where
  pub prepare-cases :
      (id : Uuid) (request : Request) (st : AppState)
      → ((job : Job) × (prepare show_uuid paths id request st ≡ proceeds job)
          × IsPrepared show_uuid paths id request job)
        ⊎ ((o : Outcome) × (prepare show_uuid paths id request st ≡ returns o st) × IsRefusal o)
  unfolding prepare
  prepare-cases id request st = elim (Option-cases (request.header (text "X-FileDrop-Filename"))) [
    | inl e ↦
        inr (reply 400 (text "missing X-FileDrop-Filename"), simp (e, prepare) refl, inr (_, refl))
    | inr (raw, e) ↦ elim (Option-cases (request.header (text "X-FileDrop-Total-Size"))) [
      | inl t ↦ inr (
        reply 400 (text "missing X-FileDrop-Total-Size"),
        simp (e, t, prepare) refl,
        inr (_, refl),
      )
      | inr (size, t) ↦ elim (Option-cases (parse_u64 size)) [
        | inl u ↦ inr (
          reply 400 (text "missing X-FileDrop-Total-Size"),
          simp (e, t, u, prepare) refl,
          inr (_, refl),
        )
        | inr (total, u) ↦ elim (Option-cases (sanitize_filename raw)) [
          | inl n ↦ inr (panicked, simp (e, t, u, n, prepare) refl, inl refl)
          | inr (name, n) ↦
              elim (Result-cases (safe_join (staging_dir paths) (show_uuid id ++ text ".part"))) [
                | inl (f, k) ↦ inr (
                  reply 400 (display show_uuid f),
                  simp (e, t, u, n, k, prepare) refl,
                  inr (_, refl),
                )
                | inr (staging, k) ↦
                    elim (Result-cases (safe_join (received_files_dir paths) name)) [
                      | inl (f, l) ↦ inr (
                        reply 400 (display show_uuid f),
                        simp (e, t, u, n, k, l, prepare) refl,
                        inr (_, refl),
                      )
                      | inr (final, l) ↦ inl (
                        job id request name total (components staging) (components final),
                        simp (e, t, u, n, k, l, prepare) refl,
                        record {
                          id_of = refl;
                          name_of = (raw, e, n);
                          size_of = (size, t, u);
                          digest_of = refl;
                          offset_of = refl;
                          staging_of = (staging, k, refl);
                          final_of = (final, l, refl);
                        },
                      )
                    ]
              ]
        ]
      ]
    ]
  ]

-- The final file is below the directory of received files, and not the staging file.
pub final-below :
    (show_uuid : Uuid → Text) (paths : StoragePaths) (id : Uuid) (request : Request) (job : Job)
    → IsPrepared show_uuid paths id request job
    → (rel : FileKey) × (job.final ≡ below paths (text "received") ++ rel)
final-below show_uuid paths id request job h =
    let (path, j, k) = h.final_of in
    (
      normals (parts job.safe_name),
      k
          ∙ (safe_join-confined _ _ path j).0
          ∙ ap (λ x. x ++ normals (parts job.safe_name)) (received-components paths),
    )

abbrev initial : Component → ℕ
initial (normal (c ∷ w)) = c
initial _ = 0

dirs-apart : normal (text "received") ≢ normal (text "staging")
dirs-apart h = let same = ap initial h in absurd (omega arith)

pub staging-below :
    (show_uuid : Uuid → Text) (paths : StoragePaths) (id : Uuid) (request : Request) (job : Job)
    → IsPrepared show_uuid paths id request job
    → (rel : FileKey) × (job.staging ≡ below paths (text "staging") ++ rel)
staging-below show_uuid paths id request job h =
    let (path, j, k) = h.staging_of in
    let rel = normals (parts (show_uuid id ++ text ".part")) in
    (rel, k ∙ (safe_join-confined _ _ path j).0 ∙ ap (λ x. x ++ rel) (staging-components paths))

append-apart : (xs rs ss : FileKey) (a b : Component) → a ≢ b → (xs ++ (a ∷ rs)) ≢ (xs ++ (b ∷ ss))
append-apart [] rs ss a b n h = n (head-eq_of_cons-eq h)
append-apart (x ∷ xs) rs ss a b n h = append-apart xs rs ss a b n (tail-eq_of_cons-eq h)

pub final-ne :
    (show_uuid : Uuid → Text) (paths : StoragePaths) (id : Uuid) (request : Request) (job : Job)
    → IsPrepared show_uuid paths id request job
    → (job.final == job.staging) ≡ false
final-ne show_uuid paths id request job h =
    let (r, f) = final-below show_uuid paths id request job h in
    let (s, g) = staging-below show_uuid paths id request job h in
    elim (Bool-cases (job.final == job.staging)) [
      | inr e ↦ e
      | inl e ↦
          let same = (==_iff job.final job.staging).0 e in
          let same' : below paths (text "received") ++ r ≡ below paths (text "staging") ++ s =
            sym f ∙ same ∙ g in
          absurd (
            append-apart (components paths.app_data_dir) r s _ _ dirs-apart
              (sym (append_assoc _ _ r) ∙ same' ∙ append_assoc _ _ s))
    ]

-- The content of the staging file that is written to.
abbrev pub old_content : Job → AppState → List ℕ
old_content job st = if job.offset == 0 then [] else or_empty (st.fs job.staging)

abbrev pub opened : Job → AppState → AppState
opened job st = record st { fs = update_file st.fs job.staging (some (old_content job st)) }

-- Opening fails and changes at most the staging file, or gives the staging file that is written to.
pub open_staging-cases :
    (H : Sha256) (job : Job) (faults : Faults) (st : AppState)
    → ((m : Text) × ((a : AppState) × (open_staging H job faults st ≡ returns (reply 500 m) a)
          × (((k : FileKey) → (k == job.staging) ≡ false → a.fs k ≡ st.fs k)
              × (a.sessions ≡ st.sessions))))
      ⊎ (open_staging H job faults st ≡ proceeds (opened job st))
unfolding open_staging
open_staging-cases H job faults st = elim (Option-cases faults.mkdir) [
  | inr (m, e) ↦ inl (m, (st, simp (e, open_staging) refl, (λ k n. refl, refl)))
  | inl e ↦ elim (Option-cases faults.open_file) [
    | inr (m, f) ↦ inl (m, (st, simp (e, f, open_staging) refl, (λ k n. refl, refl)))
    | inl f ↦ elim (Bool-cases (job.offset == 0)) [
      | inl z ↦ inr (simp (e, f, z, open_staging) refl)
      | inr z ↦ elim (Option-cases faults.seek) [
        | inl g ↦ inr (simp (e, f, z, g, open_staging) refl)
        | inr (m, g) ↦
            inl (m, (opened job st, simp (e, f, z, g, open_staging) refl, (λ k n. rw n refl, refl)))
      ]
    ]
  ]
]
