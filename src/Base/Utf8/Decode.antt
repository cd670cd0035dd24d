-- ===== src/Base/Utf8/Decode.antt =====
-- `str::from_utf8`: the well-formed sequences of bytes, as the Unicode standard lists them.
use Prim.Native.Nat.{ℕ, zero, suc, ◌+◌, ◌-◌, ◌*◌, ◌≤◌, ◌<◌}
use mathlib.Core.Path.{◌≡◌, refl, ap, ◌∙◌}
use mathlib.Core.Logic.{◌⊎◌}
use mathlib.Core.Bool.{Bool, ◌&&◌}
use mathlib.Core.Option.{Option, none, some}
use mathlib.Core.List.{List, [], ◌∷◌, ◌++◌}
use native.Mathlib.Omega.{arith}
use filedrop.Base.Tests.{Text, ltb, leb, if◌then◌else◌}
use filedrop.Base.Lists.{All, length}
use filedrop.Base.Utf8.{encode_char, as_bytes}

abbrev within : ℕ → ℕ → ℕ → Bool
within low high b = leb low b && leb b high

abbrev a_is : ℕ → ℕ → Bool
a_is n a = leb n a && leb a n

-- A character of two, three or four bytes, by its first byte and the range of the second one.
two : ℕ → List ℕ → Option (ℕ × List ℕ)
two a [] = none
two a (b ∷ s) = if within 0x80 0xBF b then some ((a - 0xC0) * 64 + (b - 0x80), s) else none

three : ℕ → ℕ → ℕ → List ℕ → Option (ℕ × List ℕ)
three a low high [] = none
three a low high (b ∷ []) = none
three a low high (b ∷ c ∷ s) =
    if within low high b && within 0x80 0xBF c
    then some ((a - 0xE0) * 4096 + ((b - 0x80) * 64 + (c - 0x80)), s)
    else none

four : ℕ → ℕ → ℕ → List ℕ → Option (ℕ × List ℕ)
four a low high [] = none
four a low high (b ∷ []) = none
four a low high (b ∷ c ∷ []) = none
four a low high (b ∷ c ∷ d ∷ s) =
    if within low high b && (within 0x80 0xBF c && within 0x80 0xBF d)
    then some ((a - 0xF0) * 262144 + ((b - 0x80) * 4096 + ((c - 0x80) * 64 + (d - 0x80))), s)
    else none

-- The first character, and the bytes behind it.
next_char : List ℕ → Option (ℕ × List ℕ)
unfolding two three four
next_char [] = none
next_char (a ∷ s) =
    if ltb a 0x80
    then some (a, s)
    else if within 0xC2 0xDF a
    then two a s
    else if a_is 0xE0 a
    then three a 0xA0 0xBF s
    else if a_is 0xED a
    then three a 0x80 0x9F s
    else if within 0xE1 0xEF a
    then three a 0x80 0xBF s
    else if a_is 0xF0 a
    then four a 0x90 0xBF s
    else if within 0xF1 0xF3 a
    then four a 0x80 0xBF s
    else if a_is 0xF4 a
    then four a 0x80 0x8F s
    else none

cons_text : ℕ → Option Text → Option Text
cons_text c none = none
cons_text c (some s) = some (c ∷ s)

-- On fuel, the number of bytes.
decode_with : ℕ → List ℕ → Option Text
unfolding next_char cons_text
decode_with fuel [] = some []
decode_with zero (a ∷ s) = none
decode_with (suc fuel) (a ∷ s) =
    let on = decode_with fuel in
    elim (next_char (a ∷ s)) [ none ↦ none | some (c, rest) ↦ cons_text c (on rest) ]

unfoldable pub from_utf8 : List ℕ → Option Text
unfolding decode_with
from_utf8 bytes = decode_with (length bytes) bytes

-- A Unicode scalar value, as a Rust `char` is.
abbrev pub IsScalar : ℕ → Type 0
IsScalar c = (c < 0xD800) ⊎ ((0xE000 ≤ c) × (c < 0x110000))

next_char-encode_char :
    (c : ℕ) (rest : List ℕ) → IsScalar c → next_char (encode_char c ++ rest) ≡ some (c, rest)
unfolding next_char two three four
next_char-encode_char c rest h = ground arith

decode_with-step :
    (fuel : ℕ) (bytes rest : List ℕ) (c : ℕ)
    → next_char bytes ≡ some (c, rest)
    → decode_with (suc fuel) bytes ≡ cons_text c (decode_with fuel rest)
unfolding decode_with next_char
decode_with-step fuel [] rest c h = cc
decode_with-step fuel (a ∷ s) rest c h = rw (h, decode_with) refl

encode_char-some : (c : ℕ) (rest : List ℕ) → length rest < length (encode_char c ++ rest)
encode_char-some c rest = ground arith

decode_with-as_bytes :
    (fuel : ℕ) (s : Text)
    → All IsScalar s
    → length (as_bytes s) ≤ fuel
    → decode_with fuel (as_bytes s) ≡ some s
unfolding decode_with as_bytes cons_text
decode_with-as_bytes fuel [] h n = refl
decode_with-as_bytes zero (c ∷ s) h n = absurd (omega (arith, encode_char-some c (as_bytes s)))
decode_with-as_bytes (suc fuel) (c ∷ s) h n =
    decode_with-step fuel (encode_char c ++ as_bytes s) (as_bytes s) c
      (next_char-encode_char c (as_bytes s) h.0)
    ∙ ap (cons_text c)
        (decode_with-as_bytes fuel s h.1 (omega (arith, encode_char-some c (as_bytes s))))

-- Reading the bytes of a text gives the text back.
pub from_utf8-as_bytes : (s : Text) → All IsScalar s → from_utf8 (as_bytes s) ≡ some s
unfolding from_utf8
from_utf8-as_bytes s h = decode_with-as_bytes (length (as_bytes s)) s h (omega arith)
