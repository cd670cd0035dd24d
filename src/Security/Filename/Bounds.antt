-- ===== src/Security/Filename/Bounds.antt =====
-- How long a sanitized name is, when there is one, and what names that need no cut satisfy.
use filedrop.Base.{
  ℕ, zero, suc, ◌+◌, ◌-◌, ◌≤◌, ◌<◌, ◌≡◌, refl, sym, ap, ◌∙◌, ◌⊎◌, inl, inr, Bool, true, false, not,
  ◌&&◌, ◌||◌, Option, none, some, List, [], ◌∷◌, ◌++◌, arith, ltb, ◌==◌, nat_eq, if◌then◌else◌,
  Text, text, any, retain, All, All-retain, All-append_left, All-imp, Bool-cases, Option-cases,
  replicate, length,
}
use filedrop.Base.Utf8.{byte_len, IsAscii}
use filedrop.Base.Strings.{rsplit_first, rfind_dot}
use filedrop.Base.Strings.Laws.{
  starts_free, ends_free, rsplit_first-All, trim_matches-All, byte_len-rsplit_first,
  byte_len-retain, byte_len-trim_matches, rsplit_first-same, retain-same, trim_matches-same,
}
use filedrop.Base.Strings.Cuts.{rfind_dot-append, truncate-ascii}
use filedrop.Security.Filename.{
  is_separator, is_kept, is_trimmed, is_reserved, max_filename_len, clean, or_unnamed,
  guard_reserved, cut, split_ext, limit, sanitize_filename,
}
use filedrop.Security.Filename.Safe.{IsClean, sanitized-IsClean}

clean-IsAscii : (s : Text) → IsAscii s → IsAscii (clean s)
unfolding clean
clean-IsAscii s h =
    trim_matches-All _ is_trimmed _ (All-retain _ is_kept _ (rsplit_first-All _ is_separator s h))

or_unnamed-IsAscii : (s : Text) → IsAscii s → IsAscii (or_unnamed s)
unfolding or_unnamed
or_unnamed-IsAscii [] h = omega arith
or_unnamed-IsAscii (c ∷ s) h = h

guard_reserved-IsAscii : (s : Text) → IsAscii s → IsAscii (guard_reserved s)
unfolding guard_reserved
guard_reserved-IsAscii s h = elim (Bool-cases (is_reserved s)) [
  | inl e ↦ rw e (omega arith, h)
  | inr e ↦ rw e h
]

cut-total : (stem ext : Text) → IsAscii stem → (r : Text) × (cut stem ext ≡ some r)
unfolding cut
cut-total stem ext h =
    let (t, e) = truncate-ascii (max_filename_len - byte_len ext) stem h in (t ++ ext, rw (e, cut))

cut_ext-total :
    (name : Text) (o : Option (Text × Text))
    → IsAscii name
    → rfind_dot name ≡ o
    → (r : Text) × (cut (split_ext name o).0 (split_ext name o).1 ≡ some r)
unfolding split_ext
cut_ext-total name none h q = cut-total name [] h
cut_ext-total name (some ([], ext)) h q = cut-total name [] h
cut_ext-total name (some (c ∷ stem, ext)) h q = cut-total (c ∷ stem) ext (
    All-append_left (λ d. d < 0x80) (c ∷ stem) ext
      (rw (rfind_dot-append name (c ∷ stem) ext q) at h))

limit-total : (name : Text) → IsAscii name → (r : Text) × (limit name ≡ some r)
unfolding limit
limit-total name h = elim (Bool-cases (ltb max_filename_len (byte_len name))) [
  | inl long ↦ rw long (cut_ext-total name (rfind_dot name) h refl)
  | inr short ↦ (name, rw short)
]

-- An ASCII name, as every HTTP header that can be read as a string is, is sanitized without a panic.
pub sanitize_filename-total :
    (untrusted : Text)
    → IsAscii untrusted
    → (name : Text) × (sanitize_filename untrusted ≡ some name)
unfolding sanitize_filename
sanitize_filename-total untrusted h =
    limit-total _ (guard_reserved-IsAscii _ (or_unnamed-IsAscii _ (clean-IsAscii untrusted h)))

byte_len-clean : (s : Text) → byte_len (clean s) ≤ byte_len s
unfolding clean
byte_len-clean s = omega (
  arith,
  byte_len-trim_matches is_trimmed (retain is_kept (rsplit_first is_separator s)),
  byte_len-retain is_kept (rsplit_first is_separator s),
  byte_len-rsplit_first is_separator s,
)

or_unnamed-fits : (s : Text) → byte_len s ≤ 254 → byte_len (or_unnamed s) ≤ 254
unfolding or_unnamed byte_len
or_unnamed-fits [] h = omega arith
or_unnamed-fits (c ∷ s) h = h

guard_reserved-fits : (s : Text) → byte_len s ≤ 254 → byte_len (guard_reserved s) ≤ 255
unfolding guard_reserved byte_len
guard_reserved-fits s h = elim (Bool-cases (is_reserved s)) [
  | inl e ↦ rw e (omega arith)
  | inr e ↦ rw e (omega arith)
]

pub limit-fits : (s : Text) → byte_len s ≤ 255 → limit s ≡ some s
unfolding limit
limit-fits s h = ground arith

underscore-not_reserved : (s : Text) → is_reserved (b'_' ∷ s) ≡ false
unfolding is_reserved filedrop.Base.ℕ_discrete
underscore-not_reserved s = refl

guard_reserved-not_reserved : (s : Text) → is_reserved (guard_reserved s) ≡ false
unfolding guard_reserved
guard_reserved-not_reserved s = elim (Bool-cases (is_reserved s)) [
  | inl e ↦ rw e (underscore-not_reserved s)
  | inr e ↦ rw e e
]

-- A name that every target file system takes.
pub record IsPortable (name : Text) : Type 0 where
  pub fits : byte_len name ≤ max_filename_len
  pub unreserved : is_reserved name ≡ false
  pub starts : starts_free is_trimmed name ≡ true
  pub ends : ends_free is_trimmed name ≡ true

-- A name of at most 254 bytes is not cut: what comes back has at most 255 bytes, is no reserved
-- device name, and neither begins nor ends with a dot or white space.
pub sanitize_filename-IsPortable :
    (untrusted : Text)
    → byte_len untrusted ≤ 254
    → (name : Text) × (sanitize_filename untrusted ≡ some name) × IsPortable name
unfolding sanitize_filename
sanitize_filename-IsPortable untrusted h =
    let short = or_unnamed-fits (clean untrusted) (omega (arith, byte_len-clean untrusted)) in
    let fits = guard_reserved-fits (or_unnamed (clean untrusted)) short in
    let c = sanitized-IsClean untrusted in
    (
      guard_reserved (or_unnamed (clean untrusted)),
      limit-fits _ fits,
      record {
        fits = fits;
        unreserved = guard_reserved-not_reserved (or_unnamed (clean untrusted));
        starts = c.starts;
        ends = c.ends;
      },
    )

pub clean-same : (s : Text) → IsClean s → clean s ≡ s
unfolding clean
clean-same s h =
    let a = rsplit_first-same is_separator s (All-imp (λ c k. k.0) s h.chars) in
    let b = retain-same is_kept s (All-imp (λ c k. k.1) s h.chars) in
    rw (a, b) (trim_matches-same is_trimmed s h.starts h.ends)

or_unnamed-same : (s : Text) → starts_free is_trimmed s ≡ true → or_unnamed s ≡ s
unfolding or_unnamed
or_unnamed-same [] h = cc
or_unnamed-same (c ∷ s) h = refl

pub guard_reserved-same : (s : Text) → is_reserved s ≡ false → guard_reserved s ≡ s
unfolding guard_reserved
guard_reserved-same s h = rw h

-- Sanitizing once is enough: a name that was not cut is left alone by a second pass.
pub sanitize_filename_idem :
    (untrusted name : Text)
    → byte_len untrusted ≤ 254
    → sanitize_filename untrusted ≡ some name
    → sanitize_filename name ≡ some name
unfolding sanitize_filename
sanitize_filename_idem untrusted name h e =
    let short = or_unnamed-fits (clean untrusted) (omega (arith, byte_len-clean untrusted)) in
    let fits = guard_reserved-fits (or_unnamed (clean untrusted)) short in
    let c = sanitized-IsClean untrusted in
    let n = guard_reserved (or_unnamed (clean untrusted)) in
    let same : n ≡ name = ground (arith, limit-fits n fits) in
    rw (← same) (
      rw
        (
          clean-same n c,
          or_unnamed-same n c.starts,
          guard_reserved-same n (guard_reserved-not_reserved (or_unnamed (clean untrusted))),
        )
        (limit-fits n fits))
