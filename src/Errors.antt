-- ===== src/Errors.antt =====
-- rust/filedrop-core/src/error.rs: the crate's error type. The payloads of `std::io::Error` and
-- `serde_json::Error` are their messages.
use filedrop.Base.{ℕ, ◌≡◌, refl, ◌⊎◌, inl, inr, ◌++◌, Text, text}

-- A `uuid::Uuid`, by its 128-bit value.
abbrev pub Uuid : Type 0
Uuid = ℕ

pub data FileDropError : Type 0 where
  io : Text → FileDropError
  unsafe_path : Text → FileDropError
  invalid_filename : Text → FileDropError
  invalid_pairing_token : FileDropError
  checksum_mismatch : Text → Text → FileDropError
  transfer_not_found : Uuid → FileDropError
  device_not_found : Uuid → FileDropError
  storage : Text → FileDropError
  discovery : Text → FileDropError
  network : Text → FileDropError
  serde : Text → FileDropError
  unsupported_on_platform : Text → FileDropError
  invalid_state : Text → FileDropError

pub data Result {ℓ} (A : Type ℓ) : Type ℓ where
  ok : A → Result A
  err : FileDropError → Result A

pub Result-cases {ℓ} :
    {A : Type ℓ} (r : Result A) → ((e : FileDropError) × (r ≡ err e)) ⊎ ((a : A) × (r ≡ ok a))
Result-cases (err e) = inl (e, refl)
Result-cases (ok a) = inr (a, refl)

-- `?` on a `Result`.
infixl 5 ◌>>=◌
abbrev pub ◌>>=◌ {ℓ κ} : {A : Type ℓ} {B : Type κ} → Result A → (A → Result B) → Result B
err failure >>= rest = err failure
ok value >>= rest = rest value

-- `e.to_string()`, where `show` is the `Display` of `Uuid`.
unfoldable pub display : (Uuid → Text) → FileDropError → Text
display show (io m) = text "io error: " ++ m
display show (unsafe_path m) = text "invalid or unsafe path: " ++ m
display show (invalid_filename m) = text "invalid filename: " ++ m
display show invalid_pairing_token = text "pairing token invalid or expired"
display show (checksum_mismatch expected actual) =
    text "checksum mismatch: expected " ++ (expected ++ (text ", got " ++ actual))
display show (transfer_not_found id) = text "transfer not found: " ++ show id
display show (device_not_found id) = text "device not found: " ++ show id
display show (storage m) = text "storage error: " ++ m
display show (discovery m) = text "discovery error: " ++ m
display show (network m) = text "network error: " ++ m
display show (serde m) = text "serialization error: " ++ m
display show (unsupported_on_platform m) = text "operation not supported on this platform: " ++ m
display show (invalid_state m) = text "invalid state transition: " ++ m
