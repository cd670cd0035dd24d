-- ===== src/Security/FilePath.antt =====
-- rust/filedrop-core/src/security/path.rs: joining an untrusted relative path to a directory.
pub mod Confined
pub mod Named
use filedrop.Base.{
  ℕ, Bool, true, false, List, [], ◌∷◌, ◌++◌, ◌==◌, nat_eq, list_eq, if◌then◌else◌, Text, text, any,
}
use filedrop.Base.Strings.{is_whitespace, trim_matches, replace_char}
use filedrop.Base.Paths.{
  Component, root_dir, cur_dir, parent_dir, prefix, normal, components, push, starts_with,
}
use filedrop.Errors.{unsafe_path, Result, ok, err, ◌>>=◌}

abbrev pub is_empty : Text → Bool
is_empty [] = true
is_empty (c ∷ s) = false

pub parent_message : Text → Text
parent_message rel = text "parent directory traversal rejected: " ++ rel

pub absolute_message : Text → Text
absolute_message rel = text "absolute path rejected: " ++ rel

pub escape_message : Text → Text
escape_message rel = text "resolved path escapes base directory: " ++ rel

-- `for component in candidate.components()`
pub resolve : Text → Text → List Component → Result Text
unfolding push
resolve rel resolved [] = ok resolved
resolve rel resolved (normal part ∷ cs) = resolve rel (push resolved part) cs
resolve rel resolved (cur_dir ∷ cs) = resolve rel resolved cs
resolve rel resolved (parent_dir ∷ cs) = err (unsafe_path (parent_message rel))
resolve rel resolved (root_dir ∷ cs) = err (unsafe_path (absolute_message rel))
resolve rel resolved (prefix p ∷ cs) = err (unsafe_path (absolute_message rel))

-- The last checks, on what the components resolve to.
pub finish : Text → Text → Text → Result Text
unfolding push starts_with
finish base rel resolved =
    if is_empty resolved
    then err (unsafe_path (text "resolves to empty path"))
    else if starts_with (push base resolved) base
    then ok (push base resolved)
    else err (unsafe_path (escape_message rel))

unfoldable pub safe_join : Text → Text → Result Text
unfolding resolve finish trim_matches components
safe_join base rel =
    if any (λ c. c == 0) rel
    then err (unsafe_path (text "embedded NUL byte in path"))
    else if is_empty (trim_matches is_whitespace rel)
    then err (unsafe_path (text "empty path"))
    else (resolve rel [] (components (replace_char b'\\' b'/' rel)) >>= finish base rel)
