-- ===== src/Security/FilePath/Confined.antt =====
-- `safe_join` stays below its base, and takes every plain name.
use filedrop.Base.{
  ◌≡◌, ◌≢◌, refl, sym, ap, ◌∙◌, inl, inr, Bool, true, false, List, [], ◌∷◌, ◌++◌, append_assoc,
  append-nil, arith, ◌==◌, nat_eq, list_eq, Text, text, any, Bool-cases, All,
}
use filedrop.Base.Strings.{is_whitespace, trim_matches, replace_char}
use filedrop.Base.Paths.{Component, root_dir, cur_dir, parent_dir, prefix, normal, components, push}
use filedrop.Base.Paths.Laws.{
  nil-IsRelative, IsRelative, components-push, push-IsRelative, starts_with-push,
}
use filedrop.Base.Paths.Plain.{
  IsPlainPart, IsPlain-IsRelative, components-plain, components-IsPlainPart,
}
use filedrop.Errors.{unsafe_path, ok, err}
use filedrop.Security.FilePath.{
  is_empty, parent_message, absolute_message, resolve, finish, safe_join,
}

-- The normal components, which are what `safe_join` appends.
abbrev pub normals : List Component → List Component
normals [] = []
normals (normal w ∷ cs) = normal w ∷ normals cs
normals (root_dir ∷ cs) = normals cs
normals (cur_dir ∷ cs) = normals cs
normals (parent_dir ∷ cs) = normals cs
normals (prefix p ∷ cs) = normals cs

-- A component that leads out of the base.
abbrev pub escapes : Component → Bool
escapes root_dir = true
escapes cur_dir = false
escapes parent_dir = true
escapes (prefix p) = true
escapes (normal w) = false

-- The loop appends the normal components, and its buffer stays relative.
resolve-components :
    (rel resolved out : Text) (cs : List Component)
    → All IsPlainPart cs
    → IsRelative resolved
    → resolve rel resolved cs ≡ ok out
    → IsRelative out
      × (components out ≡ components resolved ++ normals cs)
      × (any escapes cs ≡ false)
unfolding resolve
resolve-components rel resolved out [] h k e =
    let same : resolved ≡ out = ground arith in
    rw (← same) (k, sym (append-nil (components resolved)), refl)
resolve-components rel resolved out (normal w ∷ cs) h k e =
    let r = IsPlain-IsRelative w h.0 in
    let (a, b, c) =
      resolve-components rel (push resolved w) out cs h.1 (push-IsRelative resolved w k r) e in
    (
      a,
      b
          ∙ rw (components-push resolved w r, components-plain w h.0)
              (append_assoc (components resolved) (normal w ∷ []) (normals cs)),
      c,
    )
resolve-components rel resolved out (cur_dir ∷ cs) h k e =
    resolve-components rel resolved out cs h.1 k e
resolve-components rel resolved out (parent_dir ∷ cs) h k e = cc
resolve-components rel resolved out (root_dir ∷ cs) h k e = cc
resolve-components rel resolved out (prefix p ∷ cs) h k e = cc

-- With nothing to append the buffer stays as it is.
resolve-none :
    (rel resolved out : Text) (cs : List Component)
    → normals cs ≡ []
    → resolve rel resolved cs ≡ ok out
    → resolved ≡ out
unfolding resolve
resolve-none rel resolved out [] h e = ground arith
resolve-none rel resolved out (normal w ∷ cs) h e = cc
resolve-none rel resolved out (cur_dir ∷ cs) h e = resolve-none rel resolved out cs h e
resolve-none rel resolved out (parent_dir ∷ cs) h e = cc
resolve-none rel resolved out (root_dir ∷ cs) h e = cc
resolve-none rel resolved out (prefix p ∷ cs) h e = cc

-- A component that leads out of the base ends the loop with an error.
resolve-escapes :
    (rel resolved : Text) (cs : List Component)
    → any escapes cs ≡ true
    → (m : Text) × (resolve rel resolved cs ≡ err (unsafe_path m))
unfolding resolve
resolve-escapes rel resolved [] h = cc
resolve-escapes rel resolved (normal w ∷ cs) h = resolve-escapes rel (push resolved w) cs h
resolve-escapes rel resolved (cur_dir ∷ cs) h = resolve-escapes rel resolved cs h
resolve-escapes rel resolved (parent_dir ∷ cs) h = (parent_message rel, refl)
resolve-escapes rel resolved (root_dir ∷ cs) h = (absolute_message rel, refl)
resolve-escapes rel resolved (prefix p ∷ cs) h = (absolute_message rel, refl)

-- Without one it succeeds.
resolve-total :
    (rel resolved : Text) (cs : List Component)
    → any escapes cs ≡ false
    → (out : Text) × (resolve rel resolved cs ≡ ok out)
unfolding resolve
resolve-total rel resolved [] h = (resolved, refl)
resolve-total rel resolved (normal w ∷ cs) h = resolve-total rel (push resolved w) cs h
resolve-total rel resolved (cur_dir ∷ cs) h = resolve-total rel resolved cs h
resolve-total rel resolved (parent_dir ∷ cs) h = cc
resolve-total rel resolved (root_dir ∷ cs) h = cc
resolve-total rel resolved (prefix p ∷ cs) h = cc

-- The components of the untrusted path, after the replacement of backslashes.
abbrev pub parts : Text → List Component
parts rel = components (replace_char b'\\' b'/' rel)

pub finish-ok :
    (base rel out : Text)
    → IsRelative out
    → is_empty out ≡ false
    → finish base rel out ≡ ok (push base out)
unfolding finish
finish-ok base rel out k h = rw (h, starts_with-push base out k)

finish-inv :
    (base rel out p : Text)
    → finish base rel out ≡ ok p
    → (p ≡ push base out) × (is_empty out ≡ false)
unfolding finish
finish-inv base rel out p e = ground arith

is_empty-nil : (s : Text) → s ≡ [] → is_empty s ≢ false
is_empty-nil [] h k = cc
is_empty-nil (c ∷ s) h k = cc

components_nil : (cs : List Component) → components [] ++ cs ≡ cs
unfolding components
components_nil cs = refl

full_of_parts :
    (out : Text) (cs : List Component) → components out ≡ cs → cs ≢ [] → is_empty out ≡ false
unfolding components
full_of_parts [] cs h k = absurd (k (sym h))
full_of_parts (c ∷ s) cs h k = refl

safe_join-inv :
    (base rel p : Text)
    → safe_join base rel ≡ ok p
    → (out : Text) × (resolve rel [] (parts rel) ≡ ok out) × (finish base rel out ≡ ok p)
unfolding safe_join
safe_join-inv base rel p e = ground arith

-- The path that comes back consists of the components of the base and behind them the normal
-- components of the untrusted path, at least one, and the untrusted path had no component that
-- leads out: no `..` and no root.
pub safe_join-confined :
    (base rel p : Text)
    → safe_join base rel ≡ ok p
    → (components p ≡ components base ++ normals (parts rel))
      × (normals (parts rel) ≢ [])
      × (any escapes (parts rel) ≡ false)
safe_join-confined base rel p e =
    let (out, a, b) = safe_join-inv base rel p e in
    let (k, c, d) =
      resolve-components rel [] out (parts rel)
        (components-IsPlainPart (replace_char b'\\' b'/' rel)) nil-IsRelative a in
    let (q, full) = finish-inv base rel out p b in
    (
      ap components q
          ∙ components-push base out k
          ∙ ap (λ x. components base ++ x) (c ∙ components_nil (normals (parts rel))),
      λ h. is_empty-nil out (sym (resolve-none rel [] out (parts rel) h a)) full,
      d,
    )

-- A path with `..` anywhere, or an absolute one, is refused, with backslashes read as separators.
pub safe_join-escapes :
    (base rel : Text)
    → any escapes (parts rel) ≡ true
    → (m : Text) × (safe_join base rel ≡ err (unsafe_path m))
unfolding safe_join
safe_join-escapes base rel h = elim (Bool-cases (any (λ c. c == 0) rel)) [
  | inl e ↦ (text "embedded NUL byte in path", rw e)
  | inr e ↦ elim (Bool-cases (is_empty (trim_matches is_whitespace rel))) [
    | inl e' ↦ (text "empty path", rw (e, e'))
    | inr e' ↦ let (m, q) = resolve-escapes rel [] (parts rel) h in (m, rw (e, e', q))
  ]
]

-- Every other path is accepted, so the last check against the base refuses nothing: with no NUL, not
-- blank, with no component that leads out and at least one normal one.
pub safe_join-total :
    (base rel : Text)
    → any (λ c. c == 0) rel ≡ false
    → is_empty (trim_matches is_whitespace rel) ≡ false
    → any escapes (parts rel) ≡ false
    → normals (parts rel) ≢ []
    → (p : Text) × (safe_join base rel ≡ ok p)
unfolding safe_join
safe_join-total base rel nul blank inside some_part =
    let (out, a) = resolve-total rel [] (parts rel) inside in
    let (k, c, d) =
      resolve-components rel [] out (parts rel)
        (components-IsPlainPart (replace_char b'\\' b'/' rel)) nil-IsRelative a in
    let full =
      full_of_parts out (normals (parts rel)) (c ∙ components_nil (normals (parts rel)))
        some_part in
    (push base out, rw (nul, blank, a) (finish-ok base rel out k full))
