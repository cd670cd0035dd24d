-- ===== src/Security/Filename.antt =====
-- rust/filedrop-core/src/security/filename.rs: names for received files.
pub mod Safe
pub mod Bounds
pub mod LongExtension
use filedrop.Base.{
  ℕ, ◌-◌, Bool, true, false, not, ◌&&◌, ◌||◌, Option, none, some, List, [], ◌∷◌, ◌++◌, map, ltb,
  ◌==◌, nat_eq, list_eq, if◌then◌else◌, Text, text, any, retain,
}
use filedrop.Base.Utf8.{byte_len}
use filedrop.Base.Strings.{
  is_control, is_whitespace, to_ascii_uppercase, rsplit_first, split_first, trim_matches, rfind_dot,
  truncate,
}

-- `WINDOWS_RESERVED`
abbrev pub windows_reserved : List Text
windows_reserved =
    text "CON"
    ∷ text "PRN"
    ∷ text "AUX"
    ∷ text "NUL"
    ∷ text "COM1"
    ∷ text "COM2"
    ∷ text "COM3"
    ∷ text "COM4"
    ∷ text "COM5"
    ∷ text "COM6"
    ∷ text "COM7"
    ∷ text "COM8"
    ∷ text "COM9"
    ∷ text "LPT1"
    ∷ text "LPT2"
    ∷ text "LPT3"
    ∷ text "LPT4"
    ∷ text "LPT5"
    ∷ text "LPT6"
    ∷ text "LPT7"
    ∷ text "LPT8"
    ∷ text "LPT9"
    ∷ []

-- `MAX_FILENAME_LEN`
abbrev pub max_filename_len : ℕ
max_filename_len = 255

abbrev pub is_separator : ℕ → Bool
is_separator c = c == b'/' || c == b'\\'

-- The characters that the filter drops beside control characters.
abbrev pub is_forbidden : ℕ → Bool
is_forbidden c =
    c == b'<'
    || (c == b'>' || (c == b':' || (c == b'"' || (c == b'|' || (c == b'?' || c == b'*')))))

abbrev pub is_kept : ℕ → Bool
is_kept c = not (is_forbidden c) && not (is_control c)

abbrev pub is_trimmed : ℕ → Bool
is_trimmed c = c == b'.' || is_whitespace c

-- `&str == &str` on the reserved names.
abbrev pub contains : List Text → Text → Bool
contains [] t = false
contains (w ∷ ws) t = w == t || contains ws t

-- The name's stem is a reserved device name, in any case.
pub is_reserved : Text → Bool
unfolding split_first list_eq
is_reserved name =
    contains windows_reserved (map to_ascii_uppercase (split_first (λ c. c == b'.') name))

-- The stages of `sanitize_filename`: the last path segment, filtered and trimmed;
unfoldable pub clean : Text → Text
unfolding rsplit_first trim_matches
clean untrusted = trim_matches is_trimmed (retain is_kept (rsplit_first is_separator untrusted))

-- the fallback name;
unfoldable pub or_unnamed : Text → Text
or_unnamed [] = text "unnamed_file"
or_unnamed (c ∷ s) = c ∷ s

-- the underscore before a reserved name;
unfoldable pub guard_reserved : Text → Text
unfolding is_reserved
guard_reserved name = if is_reserved name then b'_' ∷ name else name

pub cut : Text → Text → Option Text
unfolding truncate byte_len
cut stem ext = elim (truncate (max_filename_len - byte_len ext) stem) [
  | none ↦ none
  | some t ↦ some (t ++ ext)
]

-- the two parts that the truncation treats apart: `Some(idx) if idx > 0`, or the whole name;
pub split_ext : Text → Option (Text × Text) → Text × Text
split_ext name none = (name, [])
split_ext name (some ([], ext)) = (name, [])
split_ext name (some (c ∷ stem, ext)) = (c ∷ stem, ext)

-- and the truncation to `MAX_FILENAME_LEN` bytes.
pub limit : Text → Option Text
unfolding cut split_ext rfind_dot byte_len
limit name =
    if ltb max_filename_len (byte_len name)
    then (let (stem, ext) = split_ext name (rfind_dot name) in cut stem ext)
    else some name

-- `none` is the panic of `String::truncate` inside a character.
unfoldable pub sanitize_filename : Text → Option Text
unfolding clean or_unnamed guard_reserved limit
sanitize_filename untrusted = limit (guard_reserved (or_unnamed (clean untrusted)))
