-- ===== src/Security/FilePath/Named.antt =====
-- A sanitized name joined to a directory.
use filedrop.Base.{
  ℕ, ◌≡◌, ◌≢◌, refl, sym, ap, ◌∙◌, inl, inr, Bool, true, false, not, ◌&&◌, ◌||◌, List, [], ◌∷◌,
  ◌++◌, arith, ◌==◌, nat_eq, list_eq, if◌then◌else◌, Text, text, any, Bool-cases, All, All-imp,
  ==_iff,
}
use filedrop.Base.Strings.{is_whitespace, trim_matches, replace_char}
use filedrop.Base.Strings.Laws.{trim_matches-visible}
use filedrop.Base.Paths.{normal, push}
use filedrop.Base.Paths.Plain.{IsPlain, IsPlain-IsRelative, components-plain}
use filedrop.Errors.{ok}
use filedrop.Security.Filename.{is_separator, is_kept, is_trimmed}
use filedrop.Security.Filename.Safe.{IsSafeName}
use filedrop.Security.FilePath.{is_empty, resolve, safe_join}
use filedrop.Security.FilePath.Confined.{finish-ok, parts}

-- What `safe_join` needs of one component.
pub record IsName (name : Text) : Type 0 where
  pub plain : IsPlain name
  pub no_nul : any (λ c. c == 0) name ≡ false
  pub no_backslash : All (λ c. (c == b'\\') ≡ false) name
  pub not_blank : is_empty (trim_matches is_whitespace name) ≡ false

replace_char-same : (a b : ℕ) (s : Text) → All (λ c. (c == a) ≡ false) s → replace_char a b s ≡ s
replace_char-same a b [] h = refl
replace_char-same a b (c ∷ s) h = rw (h.0, replace_char-same a b s h.1)

parts-name : (name : Text) → IsName name → parts name ≡ normal name ∷ []
parts-name name h =
    rw (replace_char-same b'\\' b'/' name h.no_backslash) (components-plain name h.plain)

push-nil : (name : Text) → push [] name ≡ name
unfolding push
push-nil name = ground arith

is_empty-plain : (name : Text) → IsPlain name → is_empty name ≡ false
is_empty-plain [] h = absurd (ground (arith, h.not_empty, ==_iff {A = Text} [] []))
is_empty-plain (c ∷ s) h = refl

-- A name is joined as it is.
pub safe_join-name : (base name : Text) → IsName name → safe_join base name ≡ ok (push base name)
unfolding safe_join
safe_join-name base name h =
    rw (h.no_nul, h.not_blank, parts-name name h, resolve)
      (rw (push-nil name)
        (finish-ok base name name (IsPlain-IsRelative name h.plain) (is_empty-plain name h.plain)))

-- A text that is equal to one that is all dots and white space is so itself.
visible-ne :
    (name other : Text)
    → any (λ c. not (is_trimmed c)) name ≡ true
    → any (λ c. not (is_trimmed c)) other ≡ false
    → (name == other) ≡ false
visible-ne name other h k = elim (Bool-cases (name == other)) [
  | inl e ↦
      let same : name ≡ other = (==_iff name other).0 e in
      cc (ap (any (λ c. not (is_trimmed c))) same)
  | inr e ↦ e
]

any_none : (s : Text) → All (λ c. (c == 0) ≡ false) s → any (λ c. c == 0) s ≡ false
any_none [] h = refl
any_none (c ∷ s) h = rw (h.0, any_none s h.1)

kept-not_nul : (c : ℕ) → is_kept c ≡ true → (c == 0) ≡ false
kept-not_nul c h = ground arith

not_separator : (c : ℕ) → is_separator c ≡ false → ((c == b'/') ≡ false) × ((c == b'\\') ≡ false)
not_separator c h = ground arith

not-or_right : (a b : Bool) → not (a || b) ≡ true → not b ≡ true
not-or_right true b h = cc
not-or_right false b h = h

or_mono :
    (a a' b b' : Bool)
    → (a ≡ true → a' ≡ true)
    → (b ≡ true → b' ≡ true)
    → (a || b) ≡ true
    → (a' || b') ≡ true
or_mono a a' b b' f g h = ground arith

visible-white :
    (s : Text) → any (λ c. not (is_trimmed c)) s ≡ true → any (λ c. not (is_whitespace c)) s ≡ true
visible-white [] h = h
visible-white (c ∷ s) h =
    or_mono _ _ _ _ (not-or_right (c == b'.') (is_whitespace c)) (visible-white s) h

is_empty-ne : (s : Text) → s ≢ [] → is_empty s ≡ false
is_empty-ne [] h = absurd (h refl)
is_empty-ne (c ∷ s) h = refl

-- A sanitized name is such a component.
pub IsSafeName-IsName : (name : Text) → IsSafeName name → IsName name
unfolding filedrop.Base.ℕ_discrete
IsSafeName-IsName name h = record {
  plain = record {
    no_slash = All-imp (λ c k. (not_separator c k.0).0) name h.chars;
    not_empty = visible-ne name [] h.visible refl;
    not_dot = visible-ne name (text ".") h.visible refl;
    not_dots = visible-ne name (text "..") h.visible refl;
  };
  no_nul = any_none name (All-imp (λ c k. kept-not_nul c k.1) name h.chars);
  no_backslash = All-imp (λ c k. (not_separator c k.0).1) name h.chars;
  not_blank =
      is_empty-ne _ (trim_matches-visible is_whitespace name (visible-white name h.visible));
}
