-- ===== src/Base/Utf8.antt =====
-- `str::len`, `str::as_bytes`: a text as its UTF-8 bytes.
pub mod Decode
use Prim.Native.Nat.{ℕ, ◌+◌, ◌/◌, ◌%◌, ◌<◌}
use mathlib.Core.Path.{◌≡◌, refl}
use mathlib.Core.List.{List, [], ◌∷◌, ◌++◌}
use native.Mathlib.Omega.{arith}
use filedrop.Base.Tests.{Text, ltb, if◌then◌else◌}
use filedrop.Base.Lists.{All, length}

-- The UTF-8 bytes of one character.
abbrev pub encode_char : ℕ → List ℕ
encode_char c =
    if ltb c 0x80
    then c ∷ []
    else if ltb c 0x800
    then (0xC0 + c / 64) ∷ (0x80 + c % 64) ∷ []
    else if ltb c 0x10000
    then (0xE0 + c / 4096) ∷ (0x80 + c / 64 % 64) ∷ (0x80 + c % 64) ∷ []
    else (0xF0 + c / 262144) ∷ (0x80 + c / 4096 % 64) ∷ (0x80 + c / 64 % 64) ∷ (0x80 + c % 64) ∷ []

-- `s.as_bytes()`
unfoldable pub as_bytes : Text → List ℕ
as_bytes [] = []
as_bytes (c ∷ s) = encode_char c ++ as_bytes s

abbrev pub len_utf8 : ℕ → ℕ
len_utf8 c = if ltb c 0x80 then 1 else if ltb c 0x800 then 2 else if ltb c 0x10000 then 3 else 4

-- `s.len()`
unfoldable pub byte_len : Text → ℕ
byte_len [] = 0
byte_len (c ∷ s) = len_utf8 c + byte_len s

-- Every element is a Unicode code point.
abbrev pub IsText : Text → Type 0
IsText = All (λ c. c < 0x110000)

abbrev pub IsAscii : Text → Type 0
IsAscii = All (λ c. c < 0x80)

encode_char_inj :
    (c d : ℕ) (r s : List ℕ)
    → c < 0x110000
    → d < 0x110000
    → encode_char c ++ r ≡ encode_char d ++ s
    → (c ≡ d) × (r ≡ s)
encode_char_inj c d r s hc hd e = ground arith

-- The bytes determine the text.
pub as_bytes_inj : (s t : Text) → IsText s → IsText t → as_bytes s ≡ as_bytes t → s ≡ t
unfolding as_bytes
as_bytes_inj [] [] hs ht e = refl
as_bytes_inj [] (d ∷ t) hs ht e = ground arith
as_bytes_inj (c ∷ s) [] hs ht e = ground arith
as_bytes_inj (c ∷ s) (d ∷ t) hs ht e =
    let (p, q) = encode_char_inj c d (as_bytes s) (as_bytes t) hs.0 ht.0 e in
    cc (p, as_bytes_inj s t hs.1 ht.1 q)

pub byte_len-ascii : (s : Text) → IsAscii s → byte_len s ≡ length s
unfolding byte_len
byte_len-ascii [] h = refl
byte_len-ascii (c ∷ s) h = ground (arith, byte_len-ascii s h.1)

pub byte_len-append : (s t : Text) → byte_len (s ++ t) ≡ byte_len s + byte_len t
unfolding byte_len
byte_len-append [] t = omega arith
byte_len-append (c ∷ s) t = ground (arith, byte_len-append s t)
