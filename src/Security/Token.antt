-- ===== src/Security/Token.antt =====
-- rust/filedrop-core/src/security/token.rs: the format check and the comparison of pairing tokens.
pub mod Compare
use Prim.Native.Nat.{bit_or, bit_xor}
use filedrop.Base.{
  ℕ, Bool, true, false, ◌&&◌, ◌||◌, List, [], ◌∷◌, leb, ◌==◌, nat_eq, not, if◌then◌else◌, Text,
  length, all,
}
use filedrop.Base.Utf8.{as_bytes, byte_len}
use filedrop.Errors.{invalid_pairing_token, Result, ok, err}

-- `TOKEN_BYTE_LEN`
abbrev pub token_byte_len : ℕ
token_byte_len = 32

-- `EXPECTED_ENCODED_LEN`
abbrev pub expected_encoded_len : ℕ
expected_encoded_len = 43

abbrev is_ascii_alphanumeric : ℕ → Bool
is_ascii_alphanumeric b =
    (leb b'0' b && leb b b'9') || ((leb b'A' b && leb b b'Z') || (leb b'a' b && leb b b'z'))

-- The alphabet of URL-safe base64.
abbrev pub is_token_byte : ℕ → Bool
is_token_byte b = is_ascii_alphanumeric b || (b == b'-' || b == b'_')

unfoldable pub validate_token_format : Text → Result (Unit {0})
unfolding as_bytes byte_len
validate_token_format token =
    if not (byte_len token == expected_encoded_len)
    then err invalid_pairing_token
    else if not (all is_token_byte (as_bytes token))
    then err invalid_pairing_token
    else ok tt

-- `for (x, y) in a.iter().zip(b.iter()) { diff |= x ^ y; }`
diff_loop : ℕ → List ℕ → List ℕ → ℕ
diff_loop diff [] ys = diff
diff_loop diff (x ∷ xs) [] = diff
diff_loop diff (x ∷ xs) (y ∷ ys) = diff_loop (bit_or diff (bit_xor x y)) xs ys

-- The comparison after `as_bytes`.
bytes_match : List ℕ → List ℕ → Bool
unfolding diff_loop
bytes_match a b = if not (length a == length b) then false else diff_loop 0 a b == 0

unfoldable pub tokens_match : Text → Text → Bool
unfolding bytes_match as_bytes
tokens_match a b = bytes_match (as_bytes a) (as_bytes b)
