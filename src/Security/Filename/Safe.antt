-- ===== src/Security/Filename/Safe.antt =====
-- What a sanitized name can be used for: it is a single, plain path component.
use filedrop.Base.{
  ℕ, ◌-◌, ◌≤◌, ◌<◌, ◌≡◌, refl, sym, ◌∙◌, append-nil, ◌⊎◌, inl, inr, Bool, true, false, not, ◌&&◌,
  ◌||◌, Option, none, some, List, [], ◌∷◌, ◌++◌, arith, ltb, ◌==◌, nat_eq, if◌then◌else◌, Text,
  text, any, retain, All, All-append, All-append_left, All-append_right, All-imp, All-retain,
  All-both, Bool-cases, Option-cases,
}
use filedrop.Base.Utf8.{byte_len}
use filedrop.Base.Strings.{rsplit_first, rfind_dot, truncate}
use filedrop.Base.Strings.Laws.{
  All-rsplit_first, All-retain-true, trim_matches-free, trim_matches-All, starts_free, ends_free,
  ends_free-append, any-starts_free, any-ends_free, any-append_right,
}
use filedrop.Base.Strings.Cuts.{rfind_dot-append, rfind_dot-dot, truncate-All, truncate-head}
use filedrop.Security.Filename.{
  is_separator, is_kept, is_trimmed, is_reserved, max_filename_len, clean, or_unnamed,
  guard_reserved, cut, split_ext, limit, sanitize_filename,
}

-- A character that a name may hold: no separator, none of `<>:"|?*`, no control character.
abbrev pub IsNameChar : ℕ → Type 0
IsNameChar c = (is_separator c ≡ false) × (is_kept c ≡ true)

-- A name of such characters that are not all dots and white space. So it is neither empty nor blank,
-- nor `.` nor `..`.
pub record IsSafeName (name : Text) : Type 0 where
  pub chars : All IsNameChar name
  pub visible : any (λ c. not (is_trimmed c)) name ≡ true

-- What holds of the name before it is cut to length.
pub record IsClean (name : Text) : Type 0 where
  pub chars : All IsNameChar name
  pub starts : starts_free is_trimmed name ≡ true
  pub ends : ends_free is_trimmed name ≡ true

clean-chars : (s : Text) → All IsNameChar (clean s)
unfolding clean
clean-chars s = trim_matches-All IsNameChar is_trimmed _ (
    All-both (λ c. is_separator c ≡ false) (λ c. is_kept c ≡ true) _
      (All-retain (λ c. is_separator c ≡ false) is_kept _ (All-rsplit_first is_separator s))
      (All-retain-true is_kept (rsplit_first is_separator s)))

unnamed-IsClean : IsClean (text "unnamed_file")
unfolding filedrop.Base.ℕ_discrete
unnamed-IsClean = record { chars = ground arith; starts = refl; ends = refl }

or_unnamed-IsClean :
    (s : Text)
    → All IsNameChar s
    → (s ≡ []) ⊎ ((starts_free is_trimmed s ≡ true) × (ends_free is_trimmed s ≡ true))
    → IsClean (or_unnamed s)
unfolding or_unnamed
or_unnamed-IsClean [] h e = unnamed-IsClean
or_unnamed-IsClean (c ∷ s) h (inl e) = cc
or_unnamed-IsClean (c ∷ s) h (inr e) = record { chars = h; starts = e.0; ends = e.1 }

underscore-IsClean : (s : Text) → IsClean s → IsClean (b'_' ∷ s)
unfolding filedrop.Base.ℕ_discrete
underscore-IsClean [] h = record { chars = ((refl, refl), tt); starts = refl; ends = refl }
underscore-IsClean (c ∷ s) h = record {
  chars = ((refl, refl), h.chars);
  starts = refl;
  ends = h.ends;
}

guard_reserved-IsClean : (s : Text) → IsClean s → IsClean (guard_reserved s)
unfolding guard_reserved
guard_reserved-IsClean s h = elim (Bool-cases (is_reserved s)) [
  | inl e ↦ rw e (underscore-IsClean s h)
  | inr e ↦ rw e h
]

clean-free :
    (s : Text)
    → (clean s ≡ [])
      ⊎ ((starts_free is_trimmed (clean s) ≡ true) × (ends_free is_trimmed (clean s) ≡ true))
unfolding clean
clean-free s = trim_matches-free is_trimmed _

pub sanitized-IsClean : (s : Text) → IsClean (guard_reserved (or_unnamed (clean s)))
sanitized-IsClean s =
    guard_reserved-IsClean _ (or_unnamed-IsClean (clean s) (clean-chars s) (clean-free s))

IsClean-IsSafeName : (s : Text) → IsClean s → IsSafeName s
IsClean-IsSafeName s h = record { chars = h.chars; visible = any-starts_free is_trimmed s h.starts }

-- With no extension the cut keeps the first character.
cut_whole-IsSafeName : (name r : Text) → IsClean name → cut name [] ≡ some r → IsSafeName r
unfolding cut
cut_whole-IsSafeName [] r h e = absurd (ground (arith, h.starts))
cut_whole-IsSafeName (c ∷ name) r h e = elim (Option-cases (truncate 255 (c ∷ name))) [
  | inl q ↦ absurd (ground arith)
  | inr (t, q) ↦
      let (u, qu) = truncate-head 254 c name t q in
      let k : r ≡ t ++ [] = ground arith in
      rw (k, append-nil)
        (record {
          chars = truncate-All IsNameChar 255 (c ∷ name) t h.chars q;
          visible = any-starts_free is_trimmed t (rw qu (ground (arith, h.starts)));
        })
]

-- With one the cut keeps all of it, and its last character.
cut-IsSafeName :
    (name stem ext r : Text)
    → IsClean name
    → rfind_dot name ≡ some (stem, ext)
    → cut stem ext ≡ some r
    → IsSafeName r
unfolding cut
cut-IsSafeName name stem ext r h e k =
    elim (Option-cases (truncate (max_filename_len - byte_len ext) stem)) [
      | inl q ↦ absurd (ground arith)
      | inr (t, q) ↦
          let split = rfind_dot-append name stem ext e in
          let (u, dot) = rfind_dot-dot name stem ext e in
          let chars : All IsNameChar (stem ++ ext) = rw split at h.chars in
          let ends : ends_free is_trimmed (stem ++ ext) ≡ true = rw split at h.ends in
          let last : ends_free is_trimmed ext ≡ true =
            rw dot (sym (ends_free-append is_trimmed stem b'.' u) ∙ rw dot at ends) in
          let out : r ≡ t ++ ext = ground arith in
          rw out (record {
            chars =
                All-append IsNameChar t ext
                  (truncate-All IsNameChar _ stem t (All-append_left IsNameChar stem ext chars) q)
                  (All-append_right IsNameChar stem ext chars);
            visible =
                any-append_right (λ c. not (is_trimmed c)) t ext
                  (any-ends_free is_trimmed ext last);
          })
    ]

cut_ext-IsSafeName :
    (name r : Text) (o : Option (Text × Text))
    → IsClean name
    → rfind_dot name ≡ o
    → cut (split_ext name o).0 (split_ext name o).1 ≡ some r
    → IsSafeName r
unfolding split_ext
cut_ext-IsSafeName name r none h q e = cut_whole-IsSafeName name r h e
cut_ext-IsSafeName name r (some ([], ext)) h q e = cut_whole-IsSafeName name r h e
cut_ext-IsSafeName name r (some (c ∷ stem, ext)) h q e = cut-IsSafeName name (c ∷ stem) ext r h q e

limit-IsSafeName : (name r : Text) → IsClean name → limit name ≡ some r → IsSafeName r
unfolding limit
limit-IsSafeName name r h e = elim (Bool-cases (ltb max_filename_len (byte_len name))) [
  | inl long ↦ cut_ext-IsSafeName name r (rfind_dot name) h refl (rw long at e)
  | inr short ↦ let same : name ≡ r = ground arith in rw (← same) (IsClean-IsSafeName name h)
]

-- Whatever the peer sent, a name that comes back has no separator, no forbidden and no control
-- character in it, and is not all dots and white space: it is neither empty nor `.` nor `..`.
pub sanitize_filename-IsSafeName :
    (untrusted name : Text) → sanitize_filename untrusted ≡ some name → IsSafeName name
unfolding sanitize_filename
sanitize_filename-IsSafeName untrusted name e =
    limit-IsSafeName _ name (sanitized-IsClean untrusted) e
