-- ===== src/Base/Paths.antt =====
-- `std::path` on a Unix system, the target of the program: paths as texts, and their components.
pub mod Laws
pub mod Plain
use filedrop.Base.{
  ℕ, ◌≡◌, Bool, true, false, not, ◌&&◌, Option, none, some, List, [], ◌∷◌, ◌++◌, arith, ◌==◌,
  nat_eq, list_eq, Eq, if◌then◌else◌, Text, text, ℕ_discrete,
}
use filedrop.Base.Strings.{split}

-- `Component`; Unix paths have no `Prefix`.
pub data Component : Type 0 where
  root_dir cur_dir parent_dir : Component
  prefix : Text → Component
  normal : Text → Component

component_dec : Discrete Component
component_dec = hlevel ℕ_discrete

instance unfoldable pub component_eq : Eq Component
unfolding component_dec
component_eq = record { dec = component_dec }

abbrev pub is_slash : ℕ → Bool
is_slash c = c == b'/'

-- One piece between separators: empty ones and `.` are dropped.
unfoldable pub segment : Text → List Component
unfolding list_eq
segment w =
    if w == []
    then []
    else if w == text "."
    then []
    else if w == text ".."
    then parent_dir ∷ []
    else normal w ∷ []

unfoldable pub segments : List Text → List Component
unfolding segment
segments [] = []
segments (w ∷ ws) = segment w ++ segments ws

-- A leading `.` is kept.
unfoldable pub first_segments : List Text → List Component
unfolding segments list_eq
first_segments [] = []
first_segments (w ∷ ws) = if w == text "." then cur_dir ∷ segments ws else segments (w ∷ ws)

-- `path.components()`
unfoldable pub components : Text → List Component
unfolding segments first_segments split
components [] = []
components (c ∷ s) =
    if is_slash c
    then root_dir ∷ segments (split is_slash s)
    else first_segments (split is_slash (c ∷ s))

-- `path.has_root()`
unfoldable pub has_root : Text → Bool
has_root [] = false
has_root (c ∷ s) = is_slash c

-- Whether `push` has to add a separator: the buffer does not end in one.
unfoldable pub need_sep : Text → Bool
need_sep [] = false
need_sep (c ∷ []) = not (is_slash c)
need_sep (c ∷ d ∷ s) = need_sep (d ∷ s)

-- `buf.push(path)`, which is also `buf.join(path)`.
unfoldable pub push : Text → Text → Text
unfolding has_root need_sep
push buf path =
    if has_root path then path else if need_sep buf then buf ++ (b'/' ∷ path) else buf ++ path

-- `iter_after`
unfoldable pub is_prefix : List Component → List Component → Bool
unfolding component_eq
is_prefix [] ds = true
is_prefix (c ∷ cs) [] = false
is_prefix (c ∷ cs) (d ∷ ds) = c == d && is_prefix cs ds

-- `path.starts_with(base)`
unfoldable pub starts_with : Text → Text → Bool
unfolding components is_prefix
starts_with path base = is_prefix (components base) (components path)

last_normal : List Component → Option Text
last_normal [] = none
last_normal (normal w ∷ []) = some w
last_normal (c ∷ []) = none
last_normal (c ∷ d ∷ cs) = last_normal (d ∷ cs)

-- `path.file_name()`
unfoldable pub file_name : Text → Option Text
unfolding components last_normal
file_name path = last_normal (components path)
