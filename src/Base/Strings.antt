-- ===== src/Base/Strings.antt =====
-- The `str` and `char` operations of the standard library that the program calls, on texts.
pub mod Laws
pub mod Cuts
use filedrop.Base.{
  ℕ, zero, suc, ◌-◌, Bool, true, false, ◌&&◌, ◌||◌, Option, none, some, List, [], ◌∷◌, ◌++◌, map,
  leb, ltb, ◌==◌, nat_eq, list_eq, if◌then◌else◌, Text, any,
}
use filedrop.Base.Utf8.{len_utf8}

-- `char::is_control`: general category Cc.
abbrev pub is_control : ℕ → Bool
is_control c = leb c 0x1F || (leb 0x7F c && leb c 0x9F)

-- `char::is_whitespace`: the property White_Space.
abbrev pub is_whitespace : ℕ → Bool
is_whitespace c =
    (leb 9 c && leb c 13)
    || (c == 32
        || (c == 0x85
            || (c == 0xA0
                || (c == 0x1680
                    || ((leb 0x2000 c && leb c 0x200A)
                        || (c == 0x2028
                            || (c == 0x2029 || (c == 0x202F || (c == 0x205F || c == 0x3000)))))))))

-- `char::to_ascii_uppercase`
abbrev pub to_ascii_uppercase : ℕ → ℕ
to_ascii_uppercase c = if leb b'a' c && leb c b'z' then c - 32 else c

module _ (p : ℕ → Bool) where
  -- `s.rsplit(p).next()`: what follows the last match.
  unfoldable pub rsplit_first : Text → Text
  rsplit_first [] = []
  rsplit_first (c ∷ s) = if any p (c ∷ s) then rsplit_first s else c ∷ s

  -- `s.split(p).next()`: what precedes the first match.
  unfoldable pub split_first : Text → Text
  split_first [] = []
  split_first (c ∷ s) = if p c then [] else c ∷ split_first s

  -- `s.trim_start_matches(p)`
  unfoldable pub trim_start : Text → Text
  trim_start [] = []
  trim_start (c ∷ s) = if p c then trim_start s else c ∷ s

  unfoldable pub keep_end : ℕ → Text → Text
  keep_end c [] = if p c then [] else c ∷ []
  keep_end c (d ∷ s) = c ∷ d ∷ s

  -- `s.trim_end_matches(p)`
  unfoldable pub trim_end : Text → Text
  unfolding keep_end
  trim_end [] = []
  trim_end (c ∷ s) = keep_end c (trim_end s)

  -- `s.trim_matches(p)`
  unfoldable pub trim_matches : Text → Text
  unfolding trim_start trim_end
  trim_matches s = trim_end (trim_start s)

  push_char : ℕ → List Text → List Text
  push_char c [] = (c ∷ []) ∷ []
  push_char c (w ∷ ws) = (c ∷ w) ∷ ws

  -- `s.split(p)`
  unfoldable pub split : Text → List Text
  unfolding push_char
  split [] = [] ∷ []
  split (c ∷ s) = if p c then [] ∷ split s else push_char c (split s)

-- `s.rfind('.')` with the two slices that it cuts the text into, `&s[..idx]` and `&s[idx..]`.
unfoldable pub rfind_dot : Text → Option (Text × Text)
rfind_dot [] = none
rfind_dot (c ∷ s) = elim (rfind_dot s) [
  | some (stem, ext) ↦ some (c ∷ stem, ext)
  | none ↦ if c == b'.' then some ([], c ∷ s) else none
]

-- `s.truncate(n)` on bytes; `none` is the panic at an index inside a character.
unfoldable pub truncate : ℕ → Text → Option Text
truncate n [] = some []
truncate zero (c ∷ s) = some []
truncate (suc n) (c ∷ s) =
    let rest = truncate (suc n - len_utf8 c) s in
    if ltb (suc n) (len_utf8 c) then none else elim rest [ none ↦ none | some t ↦ some (c ∷ t) ]

-- `s.replace(a, b)` for characters.
abbrev pub replace_char : ℕ → ℕ → Text → Text
replace_char a b = map (λ c. if c == a then b else c)

-- `s.strip_prefix(t)`
unfoldable pub strip_prefix : Text → Text → Option Text
strip_prefix [] s = some s
strip_prefix (a ∷ t) [] = none
strip_prefix (a ∷ t) (c ∷ s) = if a == c then strip_prefix t s else none

-- `s.trim_end_matches(t)` for a text `t` that is not empty: cut off as often as it ends the text. Where
-- the rest of the text is trimmed already, only the whole text can be one more `t`.
unfoldable pub trim_end_text : Text → Text → Text
trim_end_text t [] = []
trim_end_text t (c ∷ s) = let rest = c ∷ trim_end_text t s in if rest == t then [] else rest
