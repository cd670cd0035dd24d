-- ===== src/Base/Strings/Cuts.antt =====
-- Where a text is cut: at its last dot, at a length in bytes, and at separators.
use filedrop.Base.{
  ℕ, zero, suc, ◌-◌, ◌≤◌, ◌≡◌, refl, ap, inl, inr, Bool, true, false, some, List, [], ◌∷◌, ◌++◌,
  arith, nat_eq, Text, All, Bool-cases, Option-cases,
}
use filedrop.Base.Utf8.{len_utf8, byte_len, IsAscii}
use filedrop.Base.Strings.{rfind_dot, truncate, split, push_char}

-- The two slices at the last dot make up the text, and the second begins with the dot.
pub rfind_dot-append : (s stem ext : Text) → rfind_dot s ≡ some (stem, ext) → s ≡ stem ++ ext
unfolding rfind_dot
rfind_dot-append [] stem ext h = cc
rfind_dot-append (c ∷ s) stem ext h = elim (Option-cases (rfind_dot s)) [
  | inl e ↦ ground arith
  | inr (r, e) ↦ ground (arith, rfind_dot-append s r.0 r.1)
]

pub truncate-All {ℓ} :
    (P : ℕ → Type ℓ) (n : ℕ) (s t : Text) → All P s → truncate n s ≡ some t → All P t
unfolding truncate
truncate-All P n [] t h e = ground arith
truncate-All P zero (c ∷ s) t h e = ground arith
truncate-All P (suc n) (c ∷ s) t h e = elim (Option-cases (truncate (suc n - len_utf8 c) s)) [
  | inl e' ↦ ground arith
  | inr (t', e') ↦ let ih = truncate-All P (suc n - len_utf8 c) s t' h.1 e' in ground arith
]

-- A truncated text fits.
pub byte_len-truncate : (n : ℕ) (s t : Text) → truncate n s ≡ some t → byte_len t ≤ n
unfolding truncate byte_len
byte_len-truncate n [] t e = ground arith
byte_len-truncate zero (c ∷ s) t e = ground arith
byte_len-truncate (suc n) (c ∷ s) t e = elim (Option-cases (truncate (suc n - len_utf8 c) s)) [
  | inl e' ↦ ground arith
  | inr (t', e') ↦ let ih = byte_len-truncate (suc n - len_utf8 c) s t' e' in ground arith
]

-- On ASCII text no index is inside a character.
pub truncate-ascii : (n : ℕ) (s : Text) → IsAscii s → (t : Text) × (truncate n s ≡ some t)
unfolding truncate
truncate-ascii n [] h = ([], refl)
truncate-ascii zero (c ∷ s) h = ([], refl)
truncate-ascii (suc n) (c ∷ s) h =
    let (t, e) = truncate-ascii (suc n - len_utf8 c) s h.1 in (c ∷ t, ground arith)

-- The second slice begins with the dot.
pub rfind_dot-dot :
    (s stem ext : Text) → rfind_dot s ≡ some (stem, ext) → (t : Text) × (ext ≡ b'.' ∷ t)
unfolding rfind_dot
rfind_dot-dot [] stem ext h = cc
rfind_dot-dot (c ∷ s) stem ext h = elim (Option-cases (rfind_dot s)) [
  | inl e ↦ (s, ground arith)
  | inr (r, e) ↦ let (t, q) = rfind_dot-dot s r.0 r.1 e in (t, ground arith)
]

-- A truncation to more than no bytes keeps the first character.
pub truncate-head :
    (n c : ℕ) (s t : Text) → truncate (suc n) (c ∷ s) ≡ some t → (r : Text) × (t ≡ c ∷ r)
unfolding truncate
truncate-head n c s t e = elim (Option-cases (truncate (suc n - len_utf8 c) s)) [
  | inl e' ↦ absurd (ground arith)
  | inr (r, e') ↦ (r, ground arith)
]

pub split-cons : (p : ℕ → Bool) (s : Text) → (w : Text) × (ws : List Text) × (split p s ≡ w ∷ ws)
unfolding split push_char
split-cons p [] = ([], [], refl)
split-cons p (c ∷ s) = elim (Bool-cases (p c)) [
  | inl e ↦ ([], split p s, rw e)
  | inr e ↦ let (w, ws, q) = split-cons p s in (c ∷ w, ws, rw (e, q))
]

-- A separator cuts the pieces in two.
pub split-sep :
    (p : ℕ → Bool) (d : ℕ) (s t : Text)
    → p d ≡ true
    → split p (s ++ (d ∷ t)) ≡ split p s ++ split p t
unfolding split push_char
split-sep p d [] t h = rw h
split-sep p d (c ∷ s) t h = elim (Bool-cases (p c)) [
  | inl e ↦ rw e (ap (◌∷◌ []) (split-sep p d s t h))
  | inr e ↦ let (w, ws, q) = split-cons p s in rw (e, split-sep p d s t h, q)
]

-- No piece holds a separator.
pub split-free : (p : ℕ → Bool) (s : Text) → All (All (λ c. p c ≡ false)) (split p s)
unfolding split push_char
split-free p [] = (tt, tt)
split-free p (c ∷ s) = elim (Bool-cases (p c)) [
  | inl e ↦ rw e (tt, split-free p s)
  | inr e ↦
      let (w, ws, q) = split-cons p s in
      let h : All (All (λ d. p d ≡ false)) (w ∷ ws) = rw q at (split-free p s) in
      rw (e, q) ((e, h.0), h.1)
]
