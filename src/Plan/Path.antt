-- ===== src/Plan/Path.antt =====
-- `PurePosixPath` as validation_planning.py uses it: the parts of a path and its text.
use workspace_governance_con.Prelude.{
  Bool, not, ◌||◌, ◌==◌, List, [], ◌∷◌, ℕ, String, str_eq, filter, if◌then◌else◌,
}
use workspace_governance_con.Prelude.Text.{starts_with, join}
use Prim.Native.Char.{Char, code}
use Prim.Native.String.{◌++◌ as ◌<>◌}

abbrev pub slash : ℕ
slash = 47

abbrev pub on_first : Char → List String → List String
on_first c [] = String.◌∷◌ c String.[] ∷ []
on_first c (w ∷ ws) = String.◌∷◌ c w ∷ ws

-- `text.split("/")`
unfoldable pub split : String → List String
split String.[] = "" ∷ []
split (String.◌∷◌ c s) =
    let rest = split s in if code c == slash then "" ∷ rest else on_first c rest

abbrev pub is_part : String → Bool
is_part w = not (str_eq w "" || str_eq w ".")

-- `PurePosixPath(text).parts`, without the root of an absolute path.
unfoldable pub parts : String → List String
unfolding split
parts s = filter is_part (split s)

unfoldable pub is_absolute : String → Bool
unfolding starts_with
is_absolute s = starts_with "/" s

-- The root of a path: two slashes at the start are one of their own, three are one slash.
unfoldable pub root_of : String → String
unfolding starts_with
root_of s =
    if starts_with "///" s
    then "/"
    else if starts_with "//" s
    then "//"
    else if starts_with "/" s
    then "/"
    else ""

abbrev pub dot_if_empty : String → String
dot_if_empty s = if str_eq s "" then "." else s

-- `str(PurePosixPath(text))`
unfoldable pub posix_text : String → String
unfolding root_of parts join
posix_text s = dot_if_empty (root_of s <> join "/" (parts s))
