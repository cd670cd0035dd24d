-- ===== src/Transfer/Decimal.antt =====
-- `u64::to_string` and `str::parse::<u64>`.
use filedrop.Base.{
  ℕ, zero, suc, ◌+◌, ◌-◌, ◌*◌, ◌/◌, ◌%◌, ◌^◌, ◌≤◌, ◌<◌, ◌≡◌, ◌≢◌, refl, sym, ap, ◌∙◌, Bool, true,
  false, not, ◌&&◌, Option, none, some, [], ◌∷◌, ◌++◌, append_assoc, append-nil, arith, ltb, leb,
  ◌==◌, nat_eq, if◌then◌else◌, Text, All, All-append, Bool-cases, inl, inr,
}
use native.Mathlib.Nat.{pow-suc}
use filedrop.Base.Words.{u64_mod}

abbrev pub is_digit : ℕ → Bool
is_digit c = leb b'0' c && leb c b'9'

-- The digits of a number with at most as many of them as the fuel.
pub show_digits : ℕ → ℕ → Text
show_digits zero n = []
show_digits (suc fuel) n =
    let rest = show_digits fuel (n / 10) in
    if ltb n 10 then (b'0' + n) ∷ [] else rest ++ ((b'0' + n % 10) ∷ [])

-- `n.to_string()`: a `u64` has at most 20 digits.
unfoldable pub show_u64 : ℕ → Text
unfolding show_digits
show_u64 n = show_digits 20 n

-- The digits after the sign, with the checks for overflow.
pub parse_digits : ℕ → Text → Option ℕ
parse_digits acc [] = some acc
parse_digits acc (c ∷ s) =
    let next = parse_digits (acc * 10 + (c - b'0')) s in
    if not (is_digit c) then none else if leb u64_mod (acc * 10 + (c - b'0')) then none else next

pub parse_first : Text → Option ℕ
unfolding parse_digits
parse_first [] = none
parse_first (c ∷ s) = parse_digits 0 (c ∷ s)

-- `s.parse::<u64>().ok()`
unfoldable pub parse_u64 : Text → Option ℕ
unfolding parse_first
parse_u64 [] = none
parse_u64 (c ∷ s) = if c == b'+' then parse_first s else parse_first (c ∷ s)

append-ne : (s : Text) (c : ℕ) → s ++ (c ∷ []) ≢ []
append-ne [] c h = cc
append-ne (d ∷ s) c h = cc

parse_digits-nil : (n : ℕ) → parse_digits n [] ≡ some n
unfolding parse_digits
parse_digits-nil n = refl

div-lt-pow : (n fuel : ℕ) → n < 10 ^ suc fuel → n / 10 < 10 ^ fuel
div-lt-pow n fuel h = let k : n < 10 ^ fuel * 10 = rw (pow-suc 10 fuel) at h in omega arith

show_digits-IsDigit : (fuel n : ℕ) → All (λ c. is_digit c ≡ true) (show_digits fuel n)
unfolding show_digits
show_digits-IsDigit zero n = tt
show_digits-IsDigit (suc fuel) n = elim (Bool-cases (ltb n 10)) [
  | inl e ↦ rw e (ground arith, tt)
  | inr e ↦ rw e (
      All-append (λ c. is_digit c ≡ true) (show_digits fuel (n / 10)) ((b'0' + n % 10) ∷ [])
        (show_digits-IsDigit fuel (n / 10)) (ground arith, tt))
]

pub show_u64-IsDigit : (n : ℕ) → All (λ c. is_digit c ≡ true) (show_u64 n)
unfolding show_u64
show_u64-IsDigit n = show_digits-IsDigit 20 n

parse_digits-step :
    (acc d : ℕ) (s : Text)
    → d < 10
    → acc * 10 + d < u64_mod
    → parse_digits acc ((b'0' + d) ∷ s) ≡ parse_digits (acc * 10 + d) s
unfolding parse_digits
parse_digits-step acc d s h k =
    let same : b'0' + d - b'0' ≡ d = omega arith in rw same (ground arith)

-- A number of several digits needs more fuel than one round.
fuel_left : (fuel n : ℕ) → n < 10 ^ suc fuel → 10 ≤ n → 0 < fuel
fuel_left zero n h k = absurd (omega arith)
fuel_left (suc fuel) n h k = omega arith

parse_digits-show :
    (fuel n : ℕ) (s : Text)
    → n < 10 ^ fuel
    → n < u64_mod
    → 0 < fuel
    → parse_digits 0 (show_digits fuel n ++ s) ≡ parse_digits n s
unfolding show_digits
parse_digits-show zero n s h k p = absurd (omega arith)
parse_digits-show (suc fuel) n s h k p = elim (Bool-cases (ltb n 10)) [
  | inl e ↦ rw e (
      parse_digits-step 0 n s (ground arith) (omega arith)
      ∙ ap (λ m. parse_digits m s) (omega arith))
  | inr e ↦
      let big : 10 ≤ n = ground arith in
      let digit = (b'0' + n % 10) ∷ [] in
      rw e (
        ap (parse_digits 0) (append_assoc (show_digits fuel (n / 10)) digit s)
        ∙ parse_digits-show fuel (n / 10) (digit ++ s) (div-lt-pow n fuel h) (omega arith)
            (fuel_left fuel n h big)
        ∙ parse_digits-step (n / 10) (n % 10) s (omega arith) (omega arith)
        ∙ ap (λ m. parse_digits m s) (omega arith))
]

parse_u64-digits :
    (s : Text) (n : ℕ)
    → All (λ c. is_digit c ≡ true) s
    → parse_digits 0 s ≡ some n
    → s ≢ []
    → parse_u64 s ≡ some n
unfolding parse_u64
parse_u64-digits [] n h e ne = absurd (ne refl)
parse_u64-digits (c ∷ s) n h e ne =
    let plain : (c == b'+') ≡ false = ground (arith, h.0) in rw plain e

show_digits-ne : (fuel n : ℕ) → show_digits (suc fuel) n ≢ []
unfolding show_digits
show_digits-ne fuel n h = elim (Bool-cases (ltb n 10)) [
  | inl e ↦ cc (rw e at h)
  | inr e ↦ append-ne (show_digits fuel (n / 10)) (b'0' + n % 10) (rw e at h)
]

-- What is printed is read back, for every `u64`.
pub parse_u64-show_u64 : (n : ℕ) → n < u64_mod → parse_u64 (show_u64 n) ≡ some n
unfolding show_u64
parse_u64-show_u64 n h =
    parse_u64-digits (show_digits 20 n) n (show_digits-IsDigit 20 n)
      (ap (parse_digits 0) (sym (append-nil (show_digits 20 n)))
        ∙ parse_digits-show 20 n [] (omega arith) h (omega arith)
        ∙ parse_digits-nil n)
      (show_digits-ne 19 n)
