-- ===== src/Base/Paths/Laws.antt =====
-- The components of a joined path.
use filedrop.Base.{
  ℕ, ◌≡◌, refl, sym, ap, ◌∙◌, ◌≢◌, ◌⊎◌, inl, inr, Bool, true, false, not, ◌&&◌, List, [], ◌∷◌, ◌++◌,
  append_assoc, append-nil, arith, ◌==◌, nat_eq, list_eq, if◌then◌else◌, Text, text, Bool-cases,
  All, All-append, ==_iff,
}
use filedrop.Base.Strings.{split}
use filedrop.Base.Strings.Cuts.{split-cons, split-sep}
use filedrop.Base.Paths.{
  Component, root_dir, cur_dir, is_slash, segment, segments, first_segments, components, has_root,
  need_sep, push, is_prefix, starts_with, component_eq,
}

pub segments-cons : (w : Text) (ws : List Text) → segments (w ∷ ws) ≡ segment w ++ segments ws
unfolding segments
segments-cons w ws = refl

segments-append : (v w : List Text) → segments (v ++ w) ≡ segments v ++ segments w
unfolding segments
segments-append [] w = refl
segments-append (a ∷ v) w =
    rw (segments-append v w) (sym (append_assoc (segment a) (segments v) (segments w)))

-- How `push` puts a relative path behind a buffer.
abbrev body : Text → Text → Text
body b t = if need_sep b then b ++ (b'/' ∷ t) else b ++ t

body-cases :
    (b t : Text)
    → ((b ≡ []) × (body b t ≡ t))
      ⊎ ((body b t ≡ b ++ (b'/' ∷ t))
          ⊎ ((r : Text) × (b ≡ r ++ (b'/' ∷ [])) × (body b t ≡ r ++ (b'/' ∷ t))))
unfolding need_sep
body-cases [] t = inl (refl, refl)
body-cases (c ∷ []) t = elim (Bool-cases (is_slash c)) [
  | inl e ↦ inr (inr ([], ground arith, ground arith))
  | inr e ↦ inr (inl (ground arith))
]
body-cases (c ∷ d ∷ s) t = elim (body-cases (d ∷ s) t) [
  | inl e ↦ absurd (cc (e.0))
  | inr (inl e) ↦ inr (inl (ground arith))
  | inr (inr (r, e, q)) ↦ inr (inr (c ∷ r, ap (◌∷◌ c) e, ground arith))
]

-- `/` matches.
slash : is_slash b'/' ≡ true
unfolding filedrop.Base.ℕ_discrete
slash = refl

segments-split_sep :
    (b t : Text)
    → segments (split is_slash (b ++ (b'/' ∷ t)))
      ≡ segments (split is_slash b) ++ segments (split is_slash t)
segments-split_sep b t =
    ap segments (split-sep is_slash b'/' b t slash)
    ∙ segments-append (split is_slash b) (split is_slash t)

segments-split_end :
    (r : Text) → segments (split is_slash (r ++ (b'/' ∷ []))) ≡ segments (split is_slash r)
unfolding segments segment split list_eq
segments-split_end r = segments-split_sep r [] ∙ append-nil (segments (split is_slash r))

pub segments-body :
    (b t : Text)
    → segments (split is_slash (body b t))
      ≡ segments (split is_slash b) ++ segments (split is_slash t)
unfolding segments segment split list_eq need_sep
segments-body b t = elim (body-cases b t) [
  | inl (e, q) ↦ rw (e, need_sep)
  | inr (inl q) ↦ ap (λ x. segments (split is_slash x)) q ∙ segments-split_sep b t
  | inr (inr (r, e, q)) ↦
      ap (λ x. segments (split is_slash x)) q
      ∙ segments-split_sep r t
      ∙ ap (λ x. x ++ segments (split is_slash t))
          (sym (ap (λ x. segments (split is_slash x)) e ∙ segments-split_end r))
]

pub first_segments-cons :
    (a : Text) (v : List Text)
    → first_segments (a ∷ v)
      ≡ (if a == text "." then cur_dir ∷ segments v else segment a ++ segments v)
unfolding first_segments
first_segments-cons a v = refl

first_segments-append :
    (a : Text) (v w : List Text)
    → first_segments (a ∷ (v ++ w)) ≡ first_segments (a ∷ v) ++ segments w
first_segments-append a v w =
    rw (first_segments-cons a (v ++ w), first_segments-cons a v)
      (elim (Bool-cases (a == text ".")) [
        | inl e ↦ rw e (ap (◌∷◌ cur_dir) (segments-append v w))
        | inr e ↦
            rw (e, segments-append v w) (sym (append_assoc (segment a) (segments v) (segments w)))
      ])

first-split_sep :
    (b t : Text)
    → first_segments (split is_slash (b ++ (b'/' ∷ t)))
      ≡ first_segments (split is_slash b) ++ segments (split is_slash t)
first-split_sep b t =
    let (w, ws, q) = split-cons is_slash b in
    ap first_segments (split-sep is_slash b'/' b t slash)
    ∙ rw q (first_segments-append w ws (split is_slash t))

first-split_end :
    (r : Text)
    → first_segments (split is_slash (r ++ (b'/' ∷ []))) ≡ first_segments (split is_slash r)
unfolding segments segment split list_eq
first-split_end r = first-split_sep r [] ∙ append-nil (first_segments (split is_slash r))

first-body :
    (b t : Text)
    → b ≢ []
    → first_segments (split is_slash (body b t))
      ≡ first_segments (split is_slash b) ++ segments (split is_slash t)
first-body b t h = elim (body-cases b t) [
  | inl (e, q) ↦ absurd (h e)
  | inr (inl q) ↦ ap (λ x. first_segments (split is_slash x)) q ∙ first-split_sep b t
  | inr (inr (r, e, q)) ↦
      ap (λ x. first_segments (split is_slash x)) q
      ∙ first-split_sep r t
      ∙ ap (λ x. x ++ segments (split is_slash t))
          (sym (ap (λ x. first_segments (split is_slash x)) e ∙ first-split_end r))
]

-- A path with no root and no leading `.`.
abbrev pub IsRelative : Text → Type 0
IsRelative t = (has_root t ≡ false) × (components t ≡ segments (split is_slash t))

components-body_nil : (t : Text) → components (body [] t) ≡ components [] ++ components t
unfolding components need_sep
components-body_nil t = refl

has_root-push : (b t : Text) → has_root b ≡ false → has_root t ≡ false → has_root (push b t) ≡ false
unfolding push has_root need_sep
has_root-push [] t h k = rw (k, push) k
has_root-push (c ∷ b) t h k = ground arith

segments-push :
    (b t : Text)
    → has_root t ≡ false
    → segments (split is_slash (push b t))
      ≡ segments (split is_slash b) ++ segments (split is_slash t)
unfolding push
segments-push b t h = rw (h, push) (segments-body b t)

body-cons : (c : ℕ) (s t : Text) → is_slash c ≡ true → body (c ∷ s) t ≡ c ∷ body s t
unfolding need_sep
body-cons c [] t h = ground arith
body-cons c (d ∷ s) t h = ground arith

body-head : (c : ℕ) (s t : Text) → (r : Text) × (body (c ∷ s) t ≡ c ∷ r)
unfolding need_sep
body-head c s t = elim (Bool-cases (need_sep (c ∷ s))) [
  | inl e ↦ (s ++ (b'/' ∷ t), rw e)
  | inr e ↦ (s ++ t, rw e)
]

components-root :
    (c : ℕ) (s : Text)
    → is_slash c ≡ true
    → components (c ∷ s) ≡ root_dir ∷ segments (split is_slash s)
unfolding components
components-root c s h = rw h

pub components-other :
    (c : ℕ) (s : Text)
    → is_slash c ≡ false
    → components (c ∷ s) ≡ first_segments (split is_slash (c ∷ s))
unfolding components
components-other c s h = rw h

components-body : (b t : Text) → IsRelative t → components (body b t) ≡ components b ++ components t
components-body [] t h = components-body_nil t
components-body (c ∷ s) t h = elim (Bool-cases (is_slash c)) [
  | inl e ↦
      rw (body-cons c s t e, components-root c (body s t) e, components-root c s e, h.1)
        (ap (◌∷◌ root_dir) (segments-body s t))
  | inr e ↦
      let (r, q) = body-head c s t in
      ap components q
      ∙ components-other c r e
      ∙ ap (λ x. first_segments (split is_slash x)) (sym q)
      ∙ first-body (c ∷ s) t (λ k. cc)
      ∙ rw (components-other c s e, h.1)
]

-- Joining a relative path puts its components behind those of the buffer.
pub components-push :
    (b t : Text) → IsRelative t → components (push b t) ≡ components b ++ components t
unfolding push
components-push b t h = rw (h.0, push) (components-body b t h)

-- What is joined to a relative path is again one.
pub push-IsRelative : (b t : Text) → IsRelative b → IsRelative t → IsRelative (push b t)
push-IsRelative b t h k =
    (has_root-push b t h.0 k.0, components-push b t k ∙ rw (h.1, k.1) (sym (segments-push b t k.0)))

pub nil-IsRelative : IsRelative []
unfolding has_root components segments segment split list_eq
nil-IsRelative = (refl, refl)

is_prefix-append : (cs ds : List Component) → is_prefix cs (cs ++ ds) ≡ true
unfolding is_prefix
is_prefix-append [] ds = refl
is_prefix-append (c ∷ cs) ds = rw ((==_iff c c).1 refl, is_prefix-append cs ds)

-- A joined path starts with what it was joined to.
pub starts_with-push : (b t : Text) → IsRelative t → starts_with (push b t) b ≡ true
unfolding starts_with
starts_with-push b t h = rw (components-push b t h) (is_prefix-append (components b) (components t))
