-- ===== src/Packaging/Paths.antt =====
-- Package path of Go on paths with slashes, as far as packaging/ uses it: Clean, Dir, Base and Ext.
use mathlib.Core.List.{reverse, foldl}
use toolbox.Prelude.{Bool, false, List, [], ◌∷◌, ◌==◌, ◌||◌, if◌then◌else◌, Option, none, some}
use toolbox.Prelude.Text.{Text, text_eq, split_on, join_with}
use toolbox.Vfs.Path.{dot, dot_dot, clean_path, has_slash, up_to_last_slash}

-- strings.HasPrefix(p, "/")
abbrev pub is_rooted : Text → Bool
is_rooted [] = false
is_rooted (c ∷ p) = c == b'/'

-- `..` takes back a segment that is not itself `..`.
abbrev pub go_up : List Text → List Text
go_up [] = dot_dot ∷ []
go_up (s ∷ stack) = if text_eq s dot_dot then dot_dot ∷ s ∷ stack else stack

-- One segment of a path that is not rooted.
unfoldable pub push_relative : List Text → Text → List Text
unfolding text_eq
push_relative stack s =
    if text_eq s [] || text_eq s dot
    then stack
    else if text_eq s dot_dot
    then go_up stack
    else s ∷ stack

abbrev pub or_dot : Text → Text
or_dot [] = dot
or_dot (c ∷ p) = c ∷ p

unfoldable pub clean_relative : Text → Text
unfolding push_relative split_on join_with
clean_relative p = or_dot (join_with b'/' (reverse (foldl push_relative [] (split_on b'/' p))))

-- path.Clean
unfoldable pub clean : Text → Text
unfolding clean_path clean_relative
clean p = if is_rooted p then clean_path p else clean_relative p

-- path.Dir
unfoldable pub dir : Text → Text
unfolding clean up_to_last_slash
dir p = clean (up_to_last_slash p)

-- The text behind the last slash.
unfoldable pub behind_slash : Text → Text
behind_slash [] = []
behind_slash (c ∷ s) =
    let rest = behind_slash s in if has_slash s then rest else if c == b'/' then s else c ∷ s

-- path[0 : len(path)-1] while its last byte is a slash
unfoldable pub trim_slashes : Text → Text
trim_slashes [] = []
trim_slashes (c ∷ s) = elim (trim_slashes s) [
  | [] ↦ if c == b'/' then [] else c ∷ []
  | d ∷ t ↦ c ∷ d ∷ t
]

abbrev base_of : Text → Text
base_of [] = b'/' ∷ []
base_of (c ∷ s) = c ∷ s

-- path.Base
unfoldable pub base : Text → Text
unfolding trim_slashes behind_slash
base [] = dot
base (c ∷ p) = base_of (behind_slash (trim_slashes (c ∷ p)))

-- What stands before the last dot.
unfoldable pub before_dot : Text → Option Text
before_dot [] = none
before_dot (c ∷ s) = elim (before_dot s) [
  | none ↦ if c == b'.' then some [] else none
  | some front ↦ some (c ∷ front)
]

-- strings.TrimSuffix(s, path.Ext(s)), for a text without slashes.
unfoldable pub without_ext : Text → Text
unfolding before_dot
without_ext s = elim (before_dot s) [ none ↦ s | some front ↦ front ]
