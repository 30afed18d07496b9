-- ===== src/Server/Api/Routes/Mux.antt =====
-- net/http's ServeMux, as cmd/server/api.go uses it in newAPI: the pattern that it picks for a path.
use lp.Base.{
  String, Bool, true, false, List, [], ◌∷◌, Option, none, some, ◌&&◌, ◌||◌, not, ◌≡◌, inl, inr,
  refl, str_eq, str_eq-cases, is_empty, if◌then◌else◌, arith,
}
use lp.Server.Api.Routes.{Route, routes}
use lp.Server.Api.{trim_prefix}

-- The handler of the pattern that is the path itself
unfoldable pub exact_route : String → List (String × Route) → Option Route
exact_route path [] = none
exact_route path ((pattern, route) ∷ rest) =
    let later = exact_route path rest in if str_eq path pattern then some route else later

unfoldable pub has_prefix : String → String → Bool
unfolding trim_prefix
has_prefix p s = elim (trim_prefix p s) [ none ↦ false | some rest ↦ true ]

unfoldable pub ends_in_slash : String → Bool
unfolding is_empty
ends_in_slash String.[] = false
ends_in_slash (String.◌∷◌ c s) =
    let rest = ends_in_slash s in if is_empty s then str_eq (String.◌∷◌ c s) "/" else rest

-- Whether a pattern is for the path and the paths below it
unfoldable pub covers : String → String → Bool
unfolding ends_in_slash has_prefix
covers pattern path = ends_in_slash pattern && has_prefix pattern path

-- No pattern that covers the path is longer: each is a prefix of this one.
unfoldable pub is_closest : String → String → List (String × Route) → Bool
unfolding covers
is_closest pattern path [] = true
is_closest pattern path ((other, route) ∷ rest) =
    (not (covers other path) || has_prefix other pattern) && is_closest pattern path rest

-- What net/http documents of a ServeMux whose patterns have no host, method or wildcard, on a path
-- that it need not clean: the pattern that is the path, or else the longest that covers it.
pub record IsMux (clean : String → String) (table : List (String × Route))
    (pick : String → Option Route) : Type 0 where
  pub exact :
      (path : String) (route : Route)
      → clean path ≡ path
      → exact_route path table ≡ some route
      → pick path ≡ some route
  pub subtree :
      (path pattern : String) (route : Route)
      → clean path ≡ path
      → exact_route path table ≡ none
      → exact_route pattern table ≡ some route
      → covers pattern path ≡ true
      → is_closest pattern path table ≡ true
      → pick path ≡ some route

-- A test that tells two texts apart
told_apart : (f : String → Bool) (s t : String) → f s ≡ true → f t ≡ false → str_eq s t ≡ false
told_apart f s t holds fails = elim (str_eq-cases s t) [ inl same ↦ cc | inr other ↦ other ]

-- Whether a path is below /api/pipelines/
unfoldable pub is_below : String → Bool
is_below path = elim (trim_prefix "/api/pipelines/" path) [
  | none ↦ false
  | some rest ↦ not (is_empty rest)
]

pub below_all : (path : String) → is_below path ≡ true → exact_route path routes ≡ none
unfolding exact_route is_below trim_prefix is_empty
below_all path below =
    let apart : (t : String) → is_below t ≡ false → str_eq path t ≡ false =
      λ t no. told_apart is_below path t below no in
    ground (
      arith,
      apart "/" refl,
      apart "/api/status" refl,
      apart "/api/history" refl,
      apart "/api/pipelines" refl,
      apart "/api/pipelines/" refl,
      apart "/api/listeners" refl,
      apart "/ws" refl,
    )
