-- ===== src/Server/Api/Paths.antt =====
-- cmd/server/api.go, handlePipelineRuns: the name in a path.
use Prim.Native.Char.{code}
use lp.Base.{String, Bool, false, some, ◌<>◌, ◌==◌, ◌≡◌, refl, ◌||◌, eq_refl, is_empty, arith}
use lp.Server.Api.{trim_prefix, split_path, runs_path_name}

unfoldable pub has_slash : String → Bool
has_slash String.[] = false
has_slash (String.◌∷◌ c s) = code c == b'/' || has_slash s

trim_prefix-append : (p s : String) → trim_prefix p (p <> s) ≡ some s
unfolding trim_prefix
trim_prefix-append String.[] s = refl
trim_prefix-append (String.◌∷◌ c p) s = ground (arith, trim_prefix-append p s)

split_path-append :
    (name rest : String)
    → has_slash name ≡ false
    → split_path (name <> ("/" <> rest)) ≡ some (name, rest)
unfolding split_path has_slash
split_path-append String.[] rest h = refl
split_path-append (String.◌∷◌ c s) rest h = ground (arith, split_path-append s rest)

-- The path that the handler is for
abbrev pub runs_path : String → String
runs_path name = "/api/pipelines/" <> (name <> "/runs")

pub runs_path_name-runs_path :
    (name : String)
    → is_empty name ≡ false
    → has_slash name ≡ false
    → runs_path_name (runs_path name) ≡ some name
unfolding runs_path_name
runs_path_name-runs_path name some_name plain =
    ground (arith, split_path-append name "runs" plain, some_name, eq_refl "runs")
