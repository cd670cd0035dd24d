-- ===== src/Transfer/Routes/Axum.antt =====
-- What the documentation of axum promises of a router.
use filedrop.Base.{
  ℕ, ◌≡◌, ◌≢◌, Bool, false, Option, none, some, List, [], ◌∷◌, ◌==◌, nat_eq, list_eq, if◌then◌else◌,
  Text, any,
}
use filedrop.Base.Paths.{is_slash}
use filedrop.Base.Strings.{split}
use filedrop.Transfer.Routes.{Method, Route, dispatched, unrouted, Library, build_router}

-- `{name}`
abbrev pub is_param : Text → Bool
is_param [] = false
is_param (c ∷ s) = c == b'{'

abbrev pub push_value : Text → Option (List Text) → Option (List Text)
push_value value none = none
push_value value (some values) = some (value ∷ values)

-- A template fits a path segment by segment; a parameter takes any segment that is not empty. The values
-- of the parameters.
unfoldable pub fits : List Text → List Text → Option (List Text)
fits [] [] = some []
fits [] (s ∷ ss) = none
fits (t ∷ ts) [] = none
fits (t ∷ ts) (s ∷ ss) =
    let rest = fits ts ss in
    if is_param t
    then if s == [] then none else push_value s rest
    else if t == s
    then rest
    else none

abbrev add_fit : Route → Option (List Text) → List (Route × List Text) → List (Route × List Text)
add_fit route none more = more
add_fit route (some values) more = (route, values) ∷ more

-- The routes that fit the segments of a path, with the values.
unfoldable pub fitting : List Route → List Text → List (Route × List Text)
unfolding fits split
fitting [] segments = []
fitting (route ∷ routes) segments =
    add_fit route (fits (split is_slash route.template) segments) (fitting routes segments)

abbrev pub is_percent : ℕ → Bool
is_percent c = c == b'%'

-- On the routes of the program: a request whose path fits one template only goes there, with the values as
-- they stand when nothing in the path is escaped, or is refused when the method is another; one whose
-- path fits none is refused.
pub record IsRouter (lib : Library) : Type 0 where
  pub dispatches :
      (path : Text) (route : Route) (values : List Text)
      → any is_percent path ≡ false
      → fitting build_router (split is_slash path) ≡ (route, values) ∷ []
      → lib.route build_router route.method path ≡ dispatched route.endpoint values
  pub not_allowed :
      (path : Text) (route : Route) (values : List Text) (method : Method)
      → fitting build_router (split is_slash path) ≡ (route, values) ∷ []
      → route.method ≢ method
      → lib.route build_router method path ≡ unrouted 405
  pub unknown :
      (path : Text) (method : Method)
      → fitting build_router (split is_slash path) ≡ []
      → lib.route build_router method path ≡ unrouted 404
