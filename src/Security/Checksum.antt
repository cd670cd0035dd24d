-- ===== src/Security/Checksum.antt =====
-- rust/filedrop-core/src/security/checksum.rs: SHA-256 digests, streamed. The hash function itself
-- (crate `sha2`) is a parameter.
pub mod Hex
pub mod Streamed
use Prim.Native.Nat.{min}
use filedrop.Base.{
  ℕ, zero, suc, ◌+◌, ◌-◌, ◌*◌, ◌/◌, ◌%◌, ◌≡◌, Option, none, some, List, [], ◌∷◌, ◌++◌, ltb,
  if◌then◌else◌, Text, text, length, take, drop, concat,
}
use filedrop.Errors.{io, Result, ok, err}

-- `sha2::Sha256`: an incremental hash.
pub record Sha256 : Type 1 where
  pub State : Type 0
  pub new : State
  pub update : State → List ℕ → State
  pub finalize : State → List ℕ

module _ (H : Sha256) where
  -- The state after a sequence of `update` calls.
  abbrev pub update_all : H.State → List (List ℕ) → H.State
  update_all s [] = s
  update_all s (chunk ∷ chunks) = update_all (H.update s chunk) chunks

  -- The digest of a whole text.
  abbrev pub digest : List ℕ → List ℕ
  digest bytes = H.finalize (H.update H.new bytes)

-- What the crate documents: the digest does not depend on how the data is cut into `update` calls.
pub record IsStreaming (H : Sha256) : Type 0 where
  pub streams :
      (chunks : List (List ℕ)) → H.finalize (update_all H H.new chunks) ≡ digest H (concat chunks)

hex_digit : ℕ → ℕ
hex_digit d = if ltb d 10 then b'0' + d else b'a' + (d - 10)

-- `bytes.iter().map(|b| format!("{b:02x}")).collect()`
unfoldable pub hex_encode : List ℕ → Text
unfolding hex_digit
hex_encode [] = []
hex_encode (b ∷ bytes) = hex_digit (b / 16) ∷ hex_digit (b % 16) ∷ hex_encode bytes

-- `HASH_BUF_SIZE`
abbrev pub hash_buf_size : ℕ
hash_buf_size = 1024 * 1024

-- What the reads of an open file do: the i-th fails, or returns up to `suc n` bytes of what is left,
-- as many as the buffer holds; at the end of the file there is one more read, which returns none.
abbrev pub ReadPlan : Type 0
ReadPlan = ℕ → Option ℕ

module _ (H : Sha256) (plan : ReadPlan) where
  -- The loop of `sha256_file` on what is left of the file; the first argument is fuel.
  pub hash_loop : ℕ → ℕ → H.State → List ℕ → Option (Result Text)
  unfolding hex_encode
  hash_loop fuel i s [] = elim (plan i) [
    | none ↦ some (err (io (text "read failed")))
    | some n ↦ some (ok (hex_encode (H.finalize s)))
  ]
  hash_loop zero i s (b ∷ rest) = none
  hash_loop (suc fuel) i s (b ∷ rest) = elim (plan i) [
    | none ↦ some (err (io (text "read failed")))
    | some n ↦
        let m = suc (min n (hash_buf_size - 1)) in
        hash_loop fuel (i + 1) (H.update s (take m (b ∷ rest))) (drop m (b ∷ rest))
  ]

  -- The argument is the content of the file, if it can be opened; `none` is what the model answers when
  -- the fuel is used up.
  unfoldable pub sha256_file : Option (List ℕ) → Option (Result Text)
  unfolding hash_loop
  sha256_file none = some (err (io (text "open failed")))
  sha256_file (some content) = hash_loop (length content) 0 H.new content
