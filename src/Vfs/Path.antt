-- ===== src/Vfs/Path.antt =====
-- vfs/memfs.go: `cleanPath` and `path.Dir`, with package path's `Clean` of a rooted path as the
-- stack of segments that it computes.
use mathlib.Core.List.{reverse, foldl}
use toolbox.Prelude.{Bool, List, [], ◌∷◌, ◌==◌, ◌||◌, if◌then◌else◌, any}
use toolbox.Prelude.Text.{Text, text_eq, split_on, join_with}

abbrev pub dot : Text
dot = b'.' ∷ []

abbrev pub dot_dot : Text
dot_dot = b'.' ∷ b'.' ∷ []

abbrev pub pop : List Text → List Text
pop [] = []
pop (s ∷ stack) = stack

-- One segment: an empty one and `.` are skipped, `..` takes the last one back, and goes no
-- further than the root.
unfoldable pub push_segment : List Text → Text → List Text
unfolding text_eq
push_segment stack s =
    if text_eq s [] || text_eq s dot
    then stack
    else if text_eq s dot_dot
    then pop stack
    else s ∷ stack

-- The segments of path.Clean("/" + p).
unfoldable pub segments : Text → List Text
unfolding push_segment split_on
segments p = reverse (foldl push_segment [] (split_on b'/' p))

-- A rooted path from its segments.
unfoldable pub render : List Text → Text
unfolding join_with
render segs = b'/' ∷ join_with b'/' segs

-- MemFS.cleanPath
unfoldable pub clean_path : Text → Text
clean_path p = render (segments p)

abbrev pub has_slash : Text → Bool
has_slash = any (λ c. c == b'/')

-- p[:strings.LastIndexByte(p, '/')+1]
unfoldable pub up_to_last_slash : Text → Text
up_to_last_slash [] = []
up_to_last_slash (c ∷ s) =
    let rest = up_to_last_slash s in
    if has_slash s then c ∷ rest else if c == b'/' then c ∷ [] else []

-- path.Dir of a rooted path
unfoldable pub path_dir : Text → Text
path_dir p = clean_path (up_to_last_slash p)
