-- ===== src/Server/Api/Texts.antt =====
-- cmd/server/api.go: what the handlers use of `strings`, and the path of a pipeline's runs.
use Prim.Native.Char.{code}
use lp.Base.{
  ℕ, String, Bool, true, false, Option, none, some, ◌==◌, leb, ◌+◌, not, ◌&&◌, str_eq, is_empty,
  if◌then◌else◌,
}

-- Unicode simple folding, as far as it meets ASCII letters: A to Z, the Kelvin sign and the long s.
unfoldable pub fold : ℕ → ℕ
fold c =
    if leb b'A' c && leb c b'Z'
    then c + 32
    else if c == 0x212a
    then b'k'
    else if c == 0x17f
    then b's'
    else c

-- strings.EqualFold, where one text is ASCII
unfoldable pub equal_fold : String → String → Bool
unfolding fold
equal_fold String.[] String.[] = true
equal_fold String.[] (String.◌∷◌ d t) = false
equal_fold (String.◌∷◌ c s) String.[] = false
equal_fold (String.◌∷◌ c s) (String.◌∷◌ d t) = fold (code c) == fold (code d) && equal_fold s t

-- strings.TrimPrefix
unfoldable pub trim_prefix : String → String → Option String
trim_prefix String.[] s = some s
trim_prefix (String.◌∷◌ c p) String.[] = none
trim_prefix (String.◌∷◌ c p) (String.◌∷◌ d s) =
    let rest = trim_prefix p s in if code c == code d then rest else none

abbrev pub or_whole : String → Option String → String
or_whole s none = s
or_whole s (some rest) = rest

-- strings.SplitN(path, "/", 2), none for a single part
unfoldable pub split_path : String → Option (String × String)
split_path String.[] = none
split_path (String.◌∷◌ c s) = elim (code c == b'/') [
  | true ↦ some (String.[], s)
  | false ↦ elim (split_path s) [ none ↦ none | some (name, rest) ↦ some (String.◌∷◌ c name, rest) ]
]

-- The name in /api/pipelines/{name}/runs, if the path has this form
unfoldable pub runs_path_name : String → Option String
unfolding trim_prefix split_path is_empty
runs_path_name path = elim (split_path (or_whole path (trim_prefix "/api/pipelines/" path))) [
  | none ↦ none
  | some (name, rest) ↦ if str_eq rest "runs" && not (is_empty name) then some name else none
]
