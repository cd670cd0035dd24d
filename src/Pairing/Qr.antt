-- ===== src/Pairing/Qr.antt =====
-- rust/filedrop-core/src/pairing/qr.rs: the payload of the pairing QR code. `serde_json` is an argument.
use filedrop.Base.{ℕ, Text}
use filedrop.Base.Words.{ℤ}
use filedrop.Errors.{Uuid, serde, Result, ok, err}

-- `QR_PAYLOAD_VERSION`
abbrev pub qr_payload_version : ℕ
qr_payload_version = 1

pub record QrPairingPayload : Type 0 where
  pub version : ℕ
  pub device_id : Uuid
  pub device_name : Text
  pub address : Text
  pub port : ℕ
  pub token : Text
  pub expires_at : ℤ

-- `serde_json` on payloads, with the message of a failure.
pub data Parsed {ℓ} (A : Type ℓ) : Type ℓ where
  parsed : A → Parsed A
  bad : Text → Parsed A

-- `?` into the crate's error type
abbrev pub of_parsed {ℓ} : {A : Type ℓ} → Parsed A → Result A
of_parsed (parsed a) = ok a
of_parsed (bad message) = err (serde message)

pub record Json : Type 0 where
  pub to_string : QrPairingPayload → Parsed Text
  pub from_str : Text → Parsed QrPairingPayload

module _ (json : Json) where
  unfoldable pub to_qr_string : QrPairingPayload → Result Text
  to_qr_string payload = of_parsed (json.to_string payload)

  unfoldable pub from_qr_string : Text → Result QrPairingPayload
  from_qr_string s = of_parsed (json.from_str s)
