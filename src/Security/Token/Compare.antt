-- ===== src/Security/Token/Compare.antt =====
-- `tokens_match` decides equality of texts; the format check on well-formed tokens.
use Prim.Native.Nat.{bit_or, bit_xor, compare, Ordering}
use filedrop.Base.{
  ap, ℕ, zero, suc, ◌<◌, ◌≡◌, ◌↔◌, refl, Bool, true, false, not, ◌&&◌, if◌then◌else◌, List, [], ◌∷◌,
  arith, ltb, nat_eq, Text, length, All, All-append,
}
use filedrop.Base.Utf8.{as_bytes, as_bytes_inj, IsText, encode_char}
use filedrop.Security.Token.{diff_loop, bytes_match, tokens_match}

abbrev beq : ℕ → ℕ → Bool
beq a b = elim (compare a b) [ Ordering.eq ↦ true | _ ↦ false ]

abbrev same : Bool → Bool → Bool
same true b = b
same false b = not b

-- A test of all numbers below a bound, and what its success says of each.
holds_below : (ℕ → Bool) → ℕ → Bool
holds_below test zero = true
holds_below test (suc bound) = if test bound then holds_below test bound else false

holds_below_lem :
    (test : ℕ → Bool) (i bound : ℕ) → i < bound → holds_below test bound ≡ true → test i ≡ true
unfolding holds_below
holds_below_lem test i zero below all = absurd (omega arith)
holds_below_lem test i (suc bound) below all = ground (arith, holds_below_lem test i bound)

-- What the loop needs of two bytes.
abbrev byte_facts : ℕ → ℕ → Bool
byte_facts a b =
    ltb (bit_or a b) 256
    && ltb (bit_xor a b) 256
    && same (beq (bit_or a b) 0) (beq a 0 && beq b 0)
    && same (beq (bit_xor a b) 0) (beq a b)

byte_table : holds_below (λ a. holds_below (byte_facts a) 256) 256 ≡ true
unfolding holds_below
byte_table = refl

byte_facts_lem : (a b : ℕ) → a < 256 → b < 256 → byte_facts a b ≡ true
byte_facts_lem a b ha hb =
    holds_below_lem (byte_facts a) b 256 hb (holds_below_lem _ a 256 ha byte_table)

abbrev Bytes : List ℕ → Type 0
Bytes = All (λ b. b < 256)

or-lt : (a b : ℕ) → a < 256 → b < 256 → bit_or a b < 256
or-lt a b ha hb = ground (arith, byte_facts_lem a b ha hb)

xor-lt : (a b : ℕ) → a < 256 → b < 256 → bit_xor a b < 256
xor-lt a b ha hb = ground (arith, byte_facts_lem a b ha hb)

or-eq-zero : (a b : ℕ) → a < 256 → b < 256 → (bit_or a b ≡ 0) ↔ ((a ≡ 0) × (b ≡ 0))
or-eq-zero a b ha hb = ground (arith, byte_facts_lem a b ha hb)

xor-eq-zero : (a b : ℕ) → a < 256 → b < 256 → (bit_xor a b ≡ 0) ↔ (a ≡ b)
xor-eq-zero a b ha hb = ground (arith, byte_facts_lem a b ha hb)

-- The accumulated difference is zero exactly for equal lists.
diff_loop-zero :
    (diff : ℕ) (xs ys : List ℕ)
    → diff < 256
    → Bytes xs
    → Bytes ys
    → length xs ≡ length ys
    → (diff_loop diff xs ys ≡ 0) ↔ ((diff ≡ 0) × (xs ≡ ys))
unfolding diff_loop
diff_loop-zero diff [] [] hd hx hy e = ground arith
diff_loop-zero diff [] (y ∷ ys) hd hx hy e = absurd (omega arith)
diff_loop-zero diff (x ∷ xs) [] hd hx hy e = absurd (omega arith)
diff_loop-zero diff (x ∷ xs) (y ∷ ys) hd hx hy e =
    let lt = xor-lt x y hx.0 hy.0 in
    let step =
      diff_loop-zero (bit_or diff (bit_xor x y)) xs ys (or-lt diff (bit_xor x y) hd lt) hx.1 hy.1
        (omega arith) in
    ground (arith, step, or-eq-zero diff (bit_xor x y) hd lt, xor-eq-zero x y hx.0 hy.0)

encode_char-Bytes : (c : ℕ) → c < 0x110000 → Bytes (encode_char c)
encode_char-Bytes c h = ground arith

as_bytes-Bytes : (s : Text) → IsText s → Bytes (as_bytes s)
unfolding as_bytes
as_bytes-Bytes [] h = tt
as_bytes-Bytes (c ∷ s) h =
    All-append _ (encode_char c) (as_bytes s) (encode_char-Bytes c h.0) (as_bytes-Bytes s h.1)

bytes_match_iff : (a b : List ℕ) → Bytes a → Bytes b → (bytes_match a b ≡ true) ↔ (a ≡ b)
unfolding bytes_match
bytes_match_iff a b ha hb =
    ground (arith, diff_loop-zero 0 a b (omega arith) ha hb, ap length {x = a} {y = b})

-- The comparison accepts a presented token exactly when it is the expected text: the loop over the
-- bytes misses no difference, and the early exit on lengths refuses no equal pair.
pub tokens_match_iff : (a b : Text) → IsText a → IsText b → (tokens_match a b ≡ true) ↔ (a ≡ b)
unfolding tokens_match
tokens_match_iff a b ha hb =
    let bytes =
      bytes_match_iff (as_bytes a) (as_bytes b) (as_bytes-Bytes a ha) (as_bytes-Bytes b hb) in
    (λ h. as_bytes_inj a b ha hb (bytes.0 h), λ e. bytes.1 (ap as_bytes e))
