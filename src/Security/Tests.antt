-- ===== src/Security/Tests.antt =====
-- Runs of the `security` module at concrete inputs.
use filedrop.Base.{replicate, ◌++◌}
use filedrop.Base.Strings.{rfind_dot}
use filedrop.Security.Filename.{clean, or_unnamed, guard_reserved}
use filedrop.Base.{
  ℕ, ◌+◌, ◌*◌, ◌/◌, ◌≤◌, ◌<◌, ◌≡◌, ◌≢◌, ◌↔◌, ◌⊎◌, inl, inr, refl, Bool, true, false, Option, none,
  some, List, [], ◌∷◌, ◌++◌, arith, Text, text, length, concat, any, All, replicate, ◌==◌, nat_eq,
  list_eq,
}
use filedrop.Base.Utf8.{byte_len, IsText, IsAscii}
use filedrop.Base.Paths.{components}
use filedrop.Errors.{ok, err, unsafe_path, io}
use filedrop.Security.Token.{tokens_match}
use filedrop.Security.Token.Compare.{tokens_match_iff}
use filedrop.Security.Filename.{sanitize_filename}
use filedrop.Security.Filename.Safe.{IsSafeName, sanitize_filename-IsSafeName}
use filedrop.Security.Filename.Bounds.{
  IsPortable, sanitize_filename-total, sanitize_filename-IsPortable,
}
use filedrop.Security.Filename.LongExtension.{sanitize_filename-long_ext}
use filedrop.Security.FilePath.{safe_join}
use filedrop.Security.FilePath.Confined.{
  normals, parts, escapes, safe_join-confined, safe_join-escapes,
}
use filedrop.Security.Checksum.{ReadPlan, digest, hex_encode, sha256_file}
use filedrop.Security.SampleHash.{echo, echo-IsStreaming}
use filedrop.Security.Checksum.Streamed.{sha256_file-digest}

-- A path of the peer's, and what it sanitizes to.
abbrev untrusted : Text
untrusted = text "../a:b.txt"

sanitized : sanitize_filename untrusted ≡ some (text "ab.txt")
unfolding sanitize_filename filedrop.Base.ℕ_discrete
sanitized = refl

ab-IsText : IsText (text "ab")
ab-IsText = (omega arith, (omega arith, tt))

tokens_match_iff_example : (tokens_match (text "ab") (text "ab") ≡ true) ↔ (text "ab" ≡ text "ab")
tokens_match_iff_example = tokens_match_iff (text "ab") (text "ab") ab-IsText ab-IsText

sanitize_filename-IsSafeName_example : IsSafeName (text "ab.txt")
sanitize_filename-IsSafeName_example =
    sanitize_filename-IsSafeName untrusted (text "ab.txt") sanitized

con-IsAscii : IsAscii (text "con")
con-IsAscii = (omega arith, (omega arith, (omega arith, tt)))

sanitize_filename-total_example : (name : Text) × (sanitize_filename (text "con") ≡ some name)
sanitize_filename-total_example = sanitize_filename-total (text "con") con-IsAscii

con-short : byte_len (text "con") ≤ 254
unfolding byte_len
con-short = omega arith

sanitize_filename-IsPortable_example :
    (name : Text) × (sanitize_filename (text "con") ≡ some name) × IsPortable name
sanitize_filename-IsPortable_example = sanitize_filename-IsPortable (text "con") con-short

-- A dot and 300 letters.
abbrev long_ext : Text
long_ext = b'.' ∷ replicate 300 b'x'

long_ext-found :
    rfind_dot (guard_reserved (or_unnamed (clean (text "../a" ++ long_ext))))
    ≡ some (text "a", long_ext)
unfolding rfind_dot guard_reserved or_unnamed clean filedrop.Base.ℕ_discrete list_eq
long_ext-found = refl

long_ext-long : 255 ≤ byte_len long_ext
unfolding byte_len
long_ext-long = omega arith

sanitize_filename-long_ext_example :
    (sanitize_filename (text "../a" ++ long_ext) ≡ some long_ext)
    × ((t : Text) × (long_ext ≡ b'.' ∷ t))
sanitize_filename-long_ext_example =
    sanitize_filename-long_ext (text "../a" ++ long_ext) b'a' [] long_ext long_ext-found
      long_ext-long

joined : safe_join (text "/data") (text "docs\\a.txt") ≡ ok (text "/data/docs/a.txt")
unfolding safe_join filedrop.Base.ℕ_discrete list_eq
joined = refl

safe_join-confined_example :
    (components (text "/data/docs/a.txt")
      ≡ components (text "/data") ++ normals (parts (text "docs\\a.txt")))
    × (normals (parts (text "docs\\a.txt")) ≢ [])
    × (any escapes (parts (text "docs\\a.txt")) ≡ false)
safe_join-confined_example =
    safe_join-confined (text "/data") (text "docs\\a.txt") (text "/data/docs/a.txt") joined

climbs : any escapes (parts (text "a\\..\\..\\b")) ≡ true
unfolding components filedrop.Base.ℕ_discrete list_eq
climbs = refl

safe_join-escapes_example :
    (m : Text) × (safe_join (text "/data") (text "a\\..\\..\\b") ≡ err (unsafe_path m))
safe_join-escapes_example = safe_join-escapes (text "/data") (text "a\\..\\..\\b") climbs

abbrev three_bytes : List ℕ
three_bytes = 1 ∷ 2 ∷ 3 ∷ []

-- Every read returns up to two bytes.
abbrev by_twos : ReadPlan
by_twos j = some 1

sha256_file-digest_example :
    ((j : ℕ) × (by_twos j ≡ none)
      × (sha256_file echo by_twos (some three_bytes) ≡ some (err (io (text "read failed")))))
    ⊎ (sha256_file echo by_twos (some three_bytes)
        ≡ some (ok (hex_encode (digest echo three_bytes))))
sha256_file-digest_example = sha256_file-digest echo by_twos echo-IsStreaming three_bytes
