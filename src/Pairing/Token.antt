-- ===== src/Pairing/Token.antt =====
-- rust/filedrop-core/src/pairing/token.rs: token generation. The random bytes (crate `rand`) and the
-- encoding (crate `base64`) are parameters.
use filedrop.Base.{
  ℕ, ◌+◌, ◌*◌, ◌/◌, ◌<◌, ◌≡◌, refl, true, List, arith, Text, length, All, all, ◌==◌, nat_eq, [],
  ◌∷◌,
}
use filedrop.Base.Utf8.{as_bytes, byte_len, byte_len-ascii, IsAscii}
use filedrop.Errors.{ok}
use filedrop.Security.Token.{
  token_byte_len, is_token_byte, expected_encoded_len, validate_token_format,
}

-- `URL_SAFE_NO_PAD.encode`, on the array that `fill_bytes` has filled.
unfoldable pub generate_pairing_token : (encode : List ℕ → Text) → List ℕ → Text
generate_pairing_token encode bytes = encode bytes

-- What the encoding's documentation says: four characters of the URL-safe alphabet for three bytes,
-- with no padding.
pub record IsUrlSafe (encode : List ℕ → Text) : Type 0 where
  pub size : (bytes : List ℕ) → length (encode bytes) ≡ (4 * length bytes + 2) / 3
  pub alphabet : (bytes : List ℕ) → All (λ c. is_token_byte c ≡ true) (encode bytes)

token_byte-ascii : (c : ℕ) → is_token_byte c ≡ true → c < 0x80
token_byte-ascii c h = ground arith

alphabet-IsAscii : (s : Text) → All (λ c. is_token_byte c ≡ true) s → IsAscii s
alphabet-IsAscii [] h = tt
alphabet-IsAscii (c ∷ s) h = (token_byte-ascii c h.0, alphabet-IsAscii s h.1)

as_bytes-ascii : (s : Text) → IsAscii s → as_bytes s ≡ s
unfolding as_bytes
as_bytes-ascii [] h = refl
as_bytes-ascii (c ∷ s) h = ground (arith, as_bytes-ascii s h.1)

all-All : (s : Text) → All (λ c. is_token_byte c ≡ true) s → all is_token_byte s ≡ true
all-All [] h = refl
all-All (c ∷ s) h = ground (arith, all-All s h.1)

-- Every token that is generated passes the format check that peers' tokens go through.
pub generate_pairing_token-valid :
    (encode : List ℕ → Text)
    → IsUrlSafe encode
    → (bytes : List ℕ) → length bytes ≡ token_byte_len
    → validate_token_format (generate_pairing_token encode bytes) ≡ ok tt
unfolding validate_token_format generate_pairing_token
generate_pairing_token-valid encode u bytes h =
    let ascii = alphabet-IsAscii (encode bytes) (u.alphabet bytes) in
    let size : (byte_len (encode bytes) == expected_encoded_len) ≡ true =
      ground (arith, u.size bytes, byte_len-ascii (encode bytes) ascii) in
    rw (size, as_bytes-ascii (encode bytes) ascii, all-All (encode bytes) (u.alphabet bytes))
