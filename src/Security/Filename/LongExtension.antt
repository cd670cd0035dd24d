-- ===== src/Security/Filename/LongExtension.antt =====
-- The case that the truncation does not handle: an extension that fills the limit by itself.
use filedrop.Base.{ℕ, zero, ◌-◌, ◌≤◌, ◌<◌, ◌≡◌, ap, true, some, ◌∷◌, ◌++◌, arith, ltb, Text}
use filedrop.Base.Utf8.{len_utf8, byte_len, byte_len-append}
use filedrop.Base.Strings.{rfind_dot, truncate}
use filedrop.Base.Strings.Cuts.{rfind_dot-append, rfind_dot-dot}
use filedrop.Security.Filename.{
  max_filename_len, clean, or_unnamed, guard_reserved, cut, split_ext, limit, sanitize_filename,
}

len_utf8-positive : (c : ℕ) → 1 ≤ len_utf8 c
len_utf8-positive c = ground arith

longer : (c : ℕ) (s t : Text) → byte_len t < byte_len ((c ∷ s) ++ t)
unfolding byte_len
longer c s t = omega (arith, byte_len-append s t, len_utf8-positive c)

cut-long_ext : (c : ℕ) (stem ext : Text) → 255 ≤ byte_len ext → cut (c ∷ stem) ext ≡ some ext
unfolding cut truncate
cut-long_ext c stem ext h =
    let none_kept : max_filename_len - byte_len ext ≡ zero = omega (arith, h) in rw (none_kept, cut)

limit-long_ext :
    (name : Text) (c : ℕ) (stem ext : Text)
    → rfind_dot name ≡ some (c ∷ stem, ext)
    → 255 ≤ byte_len ext
    → limit name ≡ some ext
unfolding limit split_ext
limit-long_ext name c stem ext found h =
    let parts = rfind_dot-append name (c ∷ stem) ext found in
    let long : ltb max_filename_len (byte_len name) ≡ true =
      ground (arith, ap byte_len parts, longer c stem ext) in
    rw (long, found) (cut-long_ext c stem ext h)

-- Where the extension alone has 255 bytes or more, with the dot, nothing of the stem is kept and the
-- extension is not cut: the name that comes back is the extension, which begins with a dot, however
-- long it is. The stem and the extension are those of the name as it is when it comes to the limit:
-- the last segment of the path, filtered, trimmed and guarded.
pub sanitize_filename-long_ext :
    (untrusted : Text) (c : ℕ) (stem ext : Text)
    → rfind_dot (guard_reserved (or_unnamed (clean untrusted))) ≡ some (c ∷ stem, ext)
    → 255 ≤ byte_len ext
    → (sanitize_filename untrusted ≡ some ext) × ((t : Text) × (ext ≡ b'.' ∷ t))
unfolding sanitize_filename
sanitize_filename-long_ext untrusted c stem ext found h = (
  limit-long_ext (guard_reserved (or_unnamed (clean untrusted))) c stem ext found h,
  rfind_dot-dot (guard_reserved (or_unnamed (clean untrusted))) (c ∷ stem) ext found,
)
