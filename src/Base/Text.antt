-- ===== src/Base/Text.antt =====
-- What the program uses of Go's `strings` package, on texts as lists of code points.
use Prim.Native.Nat.{ℕ, ◌+◌}
use Prim.Native.Char.{Char, code}
use Prim.Native.String.{String}
use mathlib.Core.Path.{◌≡◌, refl}
use mathlib.Core.Bool.{Bool, true, false, ◌&&◌, ◌||◌}
use mathlib.Core.List.{List, [], ◌∷◌}
use lp.Base.Tests.{leb, ◌==◌, if◌then◌else◌}

infixr 65 ◌<>◌
-- s + t
abbrev pub ◌<>◌ : String → String → String
String.[] <> t = t
(String.◌∷◌ c s) <> t = String.◌∷◌ c (s <> t)

unfoldable pub is_empty : String → Bool
is_empty String.[] = true
is_empty (String.◌∷◌ c s) = false

-- unicode.IsSpace
unfoldable pub is_space : ℕ → Bool
is_space c =
    (leb 9 c && leb c 13)
    || c == 32
    || c == 0x85
    || c == 0xa0
    || c == 0x1680
    || (leb 0x2000 c && leb c 0x200a)
    || c == 0x2028
    || c == 0x2029
    || c == 0x202f
    || c == 0x205f
    || c == 0x3000

trim_left : String → String
trim_left String.[] = String.[]
trim_left (String.◌∷◌ c s) =
    let rest = trim_left s in if is_space (code c) then rest else String.◌∷◌ c s

trim_right : String → String
trim_right String.[] = String.[]
trim_right (String.◌∷◌ c s) =
    let rest = trim_right s in
    if is_space (code c) && is_empty rest then String.[] else String.◌∷◌ c rest

-- strings.TrimSpace
unfoldable pub trim_space : String → String
unfolding trim_left trim_right is_space is_empty
trim_space s = trim_right (trim_left s)

-- unicode.ToLower, where it gives an ASCII letter; other letters stay as they are.
unfoldable pub to_lower : ℕ → ℕ
to_lower c =
    if leb b'A' c && leb c b'Z'
    then c + 32
    else if c == 0x212a
    then b'k'
    else if c == 0x130
    then b'i'
    else c

-- strings.ToLower(s) == t, for an ASCII text t
unfoldable pub lower_eq : String → String → Bool
unfolding to_lower
lower_eq String.[] String.[] = true
lower_eq String.[] (String.◌∷◌ d t) = false
lower_eq (String.◌∷◌ c s) String.[] = false
lower_eq (String.◌∷◌ c s) (String.◌∷◌ d t) = to_lower (code c) == code d && lower_eq s t

-- filepath.Ext on a name without separators: the part from the last dot on
unfoldable pub ext : String → String
unfolding is_empty
ext String.[] = String.[]
ext (String.◌∷◌ c s) =
    let rest = ext s in
    if is_empty rest then (if code c == b'.' then String.◌∷◌ c s else String.[]) else rest

-- strings.Join
unfoldable pub join : String → List String → String
join sep [] = String.[]
join sep (s ∷ []) = s
join sep (s ∷ t ∷ rest) = s <> sep <> join sep (t ∷ rest)

cons_first : Char → List String → List String
cons_first c [] = (String.◌∷◌ c String.[]) ∷ []
cons_first c (line ∷ lines) = String.◌∷◌ c line ∷ lines

-- strings.Fields: the parts between runs of space. `part` is the part that has begun.
fields_from : String → String → List String
fields_from part String.[] = elim (is_empty part) [ true ↦ [] | false ↦ part ∷ [] ]
fields_from part (String.◌∷◌ c s) =
    let next = fields_from String.[] s in
    let more = fields_from (part <> String.◌∷◌ c String.[]) s in
    if is_space (code c) then (if is_empty part then next else part ∷ next) else more

unfoldable pub fields : String → List String
unfolding fields_from is_space is_empty
fields s = fields_from String.[] s

-- strings.Split(s, sep) at a separator of one character, given by its code
unfoldable pub split : ℕ → String → List String
unfolding cons_first
split sep String.[] = String.[] ∷ []
split sep (String.◌∷◌ c s) =
    let rest = split sep s in if code c == sep then String.[] ∷ rest else cons_first c rest

fields_example : fields "  notify  --all " ≡ "notify" ∷ "--all" ∷ []
unfolding fields
fields_example = refl

split_example : split b'\n' "a\n\nb" ≡ "a" ∷ "" ∷ "b" ∷ []
unfolding split
split_example = refl

trim_space_example : trim_space " a b\n" ≡ "a b"
unfolding trim_space
trim_space_example = refl

join_example : join " " ("a" ∷ "b" ∷ []) ≡ "a b"
unfolding join
join_example = refl
