-- ===== src/Security/Checksum/Hex.antt =====
-- Hexadecimal text stands for its bytes.
use filedrop.Base.{
  ℕ, ◌*◌, ◌/◌, ◌%◌, ◌<◌, ◌≡◌, refl, Bool, true, ◌&&◌, ◌||◌, List, [], ◌∷◌, arith, leb, length, All,
}
use filedrop.Security.Checksum.{hex_digit, hex_encode}

hex_digit_inj : (a b : ℕ) → a < 16 → b < 16 → hex_digit a ≡ hex_digit b → a ≡ b
unfolding hex_digit
hex_digit_inj a b ha hb e = ground arith

-- Two digests have the same hexadecimal text exactly when they are the same bytes, so the comparison
-- of the texts is one of the digests.
pub hex_encode_inj :
    (as' bs : List ℕ)
    → All (λ b. b < 256) as'
    → All (λ b. b < 256) bs
    → hex_encode as' ≡ hex_encode bs
    → as' ≡ bs
unfolding hex_encode
hex_encode_inj [] [] ha hb e = refl
hex_encode_inj [] (b ∷ bs) ha hb e = cc
hex_encode_inj (a ∷ as') [] ha hb e = cc
hex_encode_inj (a ∷ as') (b ∷ bs) ha hb e = ground (
  arith,
  hex_digit_inj (a / 16) (b / 16),
  hex_digit_inj (a % 16) (b % 16),
  hex_encode_inj as' bs ha.1 hb.1,
)

abbrev pub is_hex : ℕ → Bool
is_hex c = (leb b'0' c && leb c b'9') || (leb b'a' c && leb c b'f')

-- The text has two lower-case hexadecimal digits for each byte.
pub hex_encode-format :
    (bs : List ℕ)
    → All (λ b. b < 256) bs
    → (length (hex_encode bs) ≡ 2 * length bs) × All (λ c. is_hex c ≡ true) (hex_encode bs)
unfolding hex_encode
hex_encode-format [] h = (refl, tt)
hex_encode-format (b ∷ bs) h =
    let (n, hex) = hex_encode-format bs h.1 in
    (omega arith, (ground (arith, h.0), (ground (arith, h.0), hex)))
