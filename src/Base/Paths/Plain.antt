-- ===== src/Base/Paths/Plain.antt =====
-- Names that can be the components of a path.
use filedrop.Base.{
  ◌≡◌, refl, sym, ◌∙◌, inl, inr, false, List, [], ◌∷◌, arith, ◌==◌, nat_eq, list_eq, Text, text,
  Bool-cases, All, All-append, ==_iff,
}
use filedrop.Base.Strings.{split}
use filedrop.Base.Strings.Cuts.{split-free}
use filedrop.Base.Paths.{
  Component, normal, is_slash, segment, segments, first_segments, components, has_root,
  component_eq,
}
use filedrop.Base.Paths.Laws.{IsRelative, first_segments-cons, components-other, segments-cons}

-- A name that can be a path component: not empty, not `.` or `..`, with no separator in it.
pub record IsPlain (w : Text) : Type 0 where
  pub no_slash : All (λ c. is_slash c ≡ false) w
  pub not_empty : (w == []) ≡ false
  pub not_dot : (w == text ".") ≡ false
  pub not_dots : (w == text "..") ≡ false

pub split-same : (w : Text) → All (λ c. is_slash c ≡ false) w → split is_slash w ≡ w ∷ []
unfolding split
split-same [] h = refl
split-same (c ∷ w) h = rw (h.0, split-same w h.1)

segments-plain : (w : Text) → IsPlain w → segments (w ∷ []) ≡ normal w ∷ []
unfolding segments
segments-plain w h = rw (h.not_empty, h.not_dot, h.not_dots)

pub components-plain : (w : Text) → IsPlain w → components w ≡ normal w ∷ []
components-plain [] h = absurd (ground (arith, h.not_empty, ==_iff {A = Text} [] []))
components-plain (c ∷ s) h =
    rw
      (
        components-other c s h.no_slash.0,
        split-same (c ∷ s) h.no_slash,
        first_segments-cons (c ∷ s) [],
        h.not_dot,
        ← segments-cons (c ∷ s) [],
      )
      (segments-plain (c ∷ s) h)

has_root-plain : (w : Text) → All (λ c. is_slash c ≡ false) w → has_root w ≡ false
unfolding has_root
has_root-plain [] h = refl
has_root-plain (c ∷ s) h = h.0

pub IsPlain-IsRelative : (w : Text) → IsPlain w → IsRelative w
IsPlain-IsRelative w h = (
  has_root-plain w h.no_slash,
  components-plain w h ∙ sym (rw (split-same w h.no_slash) (segments-plain w h)),
)

-- Every normal component of a path is such a name.
abbrev pub IsPlainPart : Component → Type 0
IsPlainPart (normal w) = IsPlain w
IsPlainPart _ = Unit {0}

segment-IsPlainPart : (w : Text) → All (λ c. is_slash c ≡ false) w → All IsPlainPart (segment w)
unfolding segment
segment-IsPlainPart w h = elim (Bool-cases (w == [])) [
  | inl e ↦ rw e tt
  | inr e ↦ elim (Bool-cases (w == text ".")) [
    | inl e' ↦ rw (e, e') tt
    | inr e' ↦ elim (Bool-cases (w == text "..")) [
      | inl e'' ↦ rw (e, e', e'') (tt, tt)
      | inr e'' ↦
          rw (e, e', e'') (record { no_slash = h; not_empty = e; not_dot = e'; not_dots = e'' }, tt)
    ]
  ]
]

pieces-no_slash : (s : Text) → All (All (λ c. is_slash c ≡ false)) (split is_slash s)
pieces-no_slash s = split-free is_slash s

segments-IsPlainPart :
    (ws : List Text) → All (All (λ c. is_slash c ≡ false)) ws → All IsPlainPart (segments ws)
unfolding segments
segments-IsPlainPart [] h = tt
segments-IsPlainPart (w ∷ ws) h =
    All-append IsPlainPart (segment w) (segments ws) (segment-IsPlainPart w h.0)
      (segments-IsPlainPart ws h.1)

first-nil : All IsPlainPart (first_segments [])
unfolding first_segments
first-nil = tt

first_segments-IsPlainPart :
    (ws : List Text) → All (All (λ c. is_slash c ≡ false)) ws → All IsPlainPart (first_segments ws)
first_segments-IsPlainPart [] h = first-nil
first_segments-IsPlainPart (w ∷ ws) h =
    rw (first_segments-cons w ws) (elim (Bool-cases (w == text ".")) [
      | inl e ↦ rw e (tt, segments-IsPlainPart ws h.1)
      | inr e ↦ rw e (
          All-append IsPlainPart (segment w) (segments ws) (segment-IsPlainPart w h.0)
            (segments-IsPlainPart ws h.1))
    ])

pub components-IsPlainPart : (s : Text) → All IsPlainPart (components s)
unfolding components
components-IsPlainPart [] = tt
components-IsPlainPart (c ∷ s) = elim (Bool-cases (is_slash c)) [
  | inl e ↦ rw e (tt, segments-IsPlainPart (split is_slash s) (pieces-no_slash s))
  | inr e ↦
      rw (components-other c s e)
        (first_segments-IsPlainPart (split is_slash (c ∷ s)) (pieces-no_slash (c ∷ s)))
]
