-- ===== src/Base/Strings/Laws.antt =====
-- What trimming and filtering keep, and what their results satisfy.
use filedrop.Base.{
  ℕ, ◌+◌, ◌≤◌, ◌≡◌, ◌≢◌, refl, ◌⊎◌, inl, Bool, true, false, not, [], ◌∷◌, ◌++◌, arith, nat_eq, Text,
  any, retain, All,
}
use filedrop.Base.Utf8.{len_utf8, byte_len}
use filedrop.Base.Strings.{rsplit_first, trim_start, keep_end, trim_end, trim_matches}

module _ (p : ℕ → Bool) where
  pub any-false : (s : Text) → any p s ≡ false → All (λ c. p c ≡ false) s
  any-false [] h = tt
  any-false (c ∷ s) h = ground (arith, any-false s)

  -- No character of the last segment is a separator.
  pub All-rsplit_first : (s : Text) → All (λ c. p c ≡ false) (rsplit_first p s)
  unfolding rsplit_first
  All-rsplit_first [] = tt
  All-rsplit_first (c ∷ s) = ground (arith, All-rsplit_first s, any-false (c ∷ s))

  pub All-retain-true : (s : Text) → All (λ c. p c ≡ true) (retain p s)
  All-retain-true [] = tt
  All-retain-true (c ∷ s) = ground (arith, All-retain-true s)

  -- The first character is there, and does not match.
  abbrev pub starts_free : Text → Bool
  starts_free [] = false
  starts_free (c ∷ s) = not (p c)

  -- The last character is there, and does not match.
  abbrev pub ends_free : Text → Bool
  ends_free [] = false
  ends_free (c ∷ []) = not (p c)
  ends_free (c ∷ d ∷ s) = ends_free (d ∷ s)

  pub trim_start-starts_free :
      (s : Text) → (trim_start p s ≡ []) ⊎ (starts_free (trim_start p s) ≡ true)
  unfolding trim_start
  trim_start-starts_free [] = inl refl
  trim_start-starts_free (c ∷ s) = ground (arith, trim_start-starts_free s)

  keep_end-ends_free :
      (c : ℕ) (s : Text)
      → (s ≡ []) ⊎ (ends_free s ≡ true)
      → (keep_end p c s ≡ []) ⊎ (ends_free (keep_end p c s) ≡ true)
  unfolding keep_end
  keep_end-ends_free c [] h = ground arith
  keep_end-ends_free c (d ∷ s) h = ground arith

  pub trim_end-ends_free : (s : Text) → (trim_end p s ≡ []) ⊎ (ends_free (trim_end p s) ≡ true)
  unfolding trim_end
  trim_end-ends_free [] = inl refl
  trim_end-ends_free (c ∷ s) = keep_end-ends_free c (trim_end p s) (trim_end-ends_free s)

  keep_end-starts_free : (c : ℕ) (s : Text) → p c ≡ false → starts_free (keep_end p c s) ≡ true
  unfolding keep_end
  keep_end-starts_free c [] h = ground arith
  keep_end-starts_free c (d ∷ s) h = ground arith

  trim_end-starts_free : (s : Text) → starts_free s ≡ true → starts_free (trim_end p s) ≡ true
  unfolding trim_end
  trim_end-starts_free [] h = h
  trim_end-starts_free (c ∷ s) h = keep_end-starts_free c (trim_end p s) (ground arith)

  -- What is left between the trimmed ends is empty, or begins and ends with a character to keep.
  pub trim_matches-free :
      (s : Text)
      → (trim_matches p s ≡ [])
        ⊎ ((starts_free (trim_matches p s) ≡ true) × (ends_free (trim_matches p s) ≡ true))
  unfolding trim_matches
  trim_matches-free s = ground (
    arith,
    trim_start-starts_free s,
    trim_end-starts_free (trim_start p s),
    trim_end-ends_free (trim_start p s),
  )

module _ {ℓ} (P : ℕ → Type ℓ) (p : ℕ → Bool) where
  pub rsplit_first-All : (s : Text) → All P s → All P (rsplit_first p s)
  unfolding rsplit_first
  rsplit_first-All [] h = tt
  rsplit_first-All (c ∷ s) h = ground (arith, rsplit_first-All s h.1)

  trim_start-All : (s : Text) → All P s → All P (trim_start p s)
  unfolding trim_start
  trim_start-All [] h = tt
  trim_start-All (c ∷ s) h = ground (arith, trim_start-All s h.1)

  keep_end-All : (c : ℕ) (s : Text) → P c → All P s → All P (keep_end p c s)
  unfolding keep_end
  keep_end-All c [] pc h = ground arith
  keep_end-All c (d ∷ s) pc h = (pc, h)

  trim_end-All : (s : Text) → All P s → All P (trim_end p s)
  unfolding trim_end
  trim_end-All [] h = tt
  trim_end-All (c ∷ s) h = keep_end-All c (trim_end p s) h.0 (trim_end-All s h.1)

  pub trim_matches-All : (s : Text) → All P s → All P (trim_matches p s)
  unfolding trim_matches
  trim_matches-All s h = trim_end-All (trim_start p s) (trim_start-All s h)

-- The operations make no text longer.
module _ (p : ℕ → Bool) where
  pub byte_len-rsplit_first : (s : Text) → byte_len (rsplit_first p s) ≤ byte_len s
  unfolding rsplit_first byte_len
  byte_len-rsplit_first [] = omega arith
  byte_len-rsplit_first (c ∷ s) = ground (arith, byte_len-rsplit_first s)

  pub byte_len-retain : (s : Text) → byte_len (retain p s) ≤ byte_len s
  unfolding byte_len
  byte_len-retain [] = omega arith
  byte_len-retain (c ∷ s) = ground (arith, byte_len-retain s)

  byte_len-trim_start : (s : Text) → byte_len (trim_start p s) ≤ byte_len s
  unfolding trim_start byte_len
  byte_len-trim_start [] = omega arith
  byte_len-trim_start (c ∷ s) = ground (arith, byte_len-trim_start s)

  byte_len-keep_end : (c : ℕ) (s : Text) → byte_len (keep_end p c s) ≤ len_utf8 c + byte_len s
  unfolding keep_end byte_len
  byte_len-keep_end c [] = ground arith
  byte_len-keep_end c (d ∷ s) = ground arith

  byte_len-trim_end : (s : Text) → byte_len (trim_end p s) ≤ byte_len s
  unfolding trim_end byte_len
  byte_len-trim_end [] = omega arith
  byte_len-trim_end (c ∷ s) = omega (arith, byte_len-keep_end c (trim_end p s), byte_len-trim_end s)

  pub byte_len-trim_matches : (s : Text) → byte_len (trim_matches p s) ≤ byte_len s
  unfolding trim_matches
  byte_len-trim_matches s = omega (arith, byte_len-trim_end (trim_start p s), byte_len-trim_start s)

pub ends_free-append :
    (p : ℕ → Bool) (s : Text) (c : ℕ) (t : Text) → ends_free p (s ++ (c ∷ t)) ≡ ends_free p (c ∷ t)
ends_free-append p [] c t = refl
ends_free-append p (d ∷ []) c t = refl
ends_free-append p (d ∷ e ∷ s) c t = ends_free-append p (e ∷ s) c t

module _ (p : ℕ → Bool) where
  pub any-starts_free : (s : Text) → starts_free p s ≡ true → any (λ c. not (p c)) s ≡ true
  any-starts_free [] h = cc
  any-starts_free (c ∷ s) h = ground arith

  pub any-ends_free : (s : Text) → ends_free p s ≡ true → any (λ c. not (p c)) s ≡ true
  any-ends_free [] h = cc
  any-ends_free (c ∷ []) h = ground arith
  any-ends_free (c ∷ d ∷ s) h = ground (arith, any-ends_free (d ∷ s) h)

  pub any-append_right : (s t : Text) → any p t ≡ true → any p (s ++ t) ≡ true
  any-append_right [] t h = h
  any-append_right (c ∷ s) t h = ground (arith, any-append_right s t h)

-- Texts that the operations leave alone.
module _ (p : ℕ → Bool) where
  any-of_All : (s : Text) → All (λ c. p c ≡ false) s → any p s ≡ false
  any-of_All [] h = refl
  any-of_All (c ∷ s) h = ground (arith, any-of_All s h.1)

  pub rsplit_first-same : (s : Text) → All (λ c. p c ≡ false) s → rsplit_first p s ≡ s
  unfolding rsplit_first
  rsplit_first-same [] h = refl
  rsplit_first-same (c ∷ s) h = ground (arith, any-of_All s h.1)

  pub retain-same : (s : Text) → All (λ c. p c ≡ true) s → retain p s ≡ s
  retain-same [] h = refl
  retain-same (c ∷ s) h = ground (arith, retain-same s h.1)

  trim_start-same : (s : Text) → starts_free p s ≡ true → trim_start p s ≡ s
  unfolding trim_start
  trim_start-same [] h = refl
  trim_start-same (c ∷ s) h = ground arith

  trim_end-same : (s : Text) → ends_free p s ≡ true → trim_end p s ≡ s
  unfolding trim_end keep_end
  trim_end-same [] h = refl
  trim_end-same (c ∷ []) h = ground arith
  trim_end-same (c ∷ d ∷ s) h = rw (trim_end-same (d ∷ s) h)

  pub trim_matches-same :
      (s : Text) → starts_free p s ≡ true → ends_free p s ≡ true → trim_matches p s ≡ s
  unfolding trim_matches
  trim_matches-same s h k = rw (trim_start-same s h) (trim_end-same s k)

-- A text with a character that is not trimmed is not trimmed away.
module _ (p : ℕ → Bool) where
  visible-trim_start :
      (s : Text) → any (λ c. not (p c)) s ≡ true → any (λ c. not (p c)) (trim_start p s) ≡ true
  unfolding trim_start
  visible-trim_start [] h = h
  visible-trim_start (c ∷ s) h = ground (arith, visible-trim_start s)

  visible-trim_end : (s : Text) → any (λ c. not (p c)) s ≡ true → trim_end p s ≢ []
  unfolding trim_end keep_end
  visible-trim_end [] h e = cc
  visible-trim_end (c ∷ s) h e = ground (arith, visible-trim_end s)

  pub trim_matches-visible : (s : Text) → any (λ c. not (p c)) s ≡ true → trim_matches p s ≢ []
  unfolding trim_matches
  trim_matches-visible s h = visible-trim_end (trim_start p s) (visible-trim_start s h)

pub any-append :
    (p : ℕ → Bool) (s t : Text) → any p s ≡ false → any p t ≡ false → any p (s ++ t) ≡ false
any-append p [] t h k = k
any-append p (c ∷ s) t h k = ground (arith, any-append p s t)
