-- ===== src/PathSimplify/Spec.antt =====
-- What `buffer_path_simplify` is for: the segments of a path, and how `.`, `..` and empty ones go.
use lighttpd_autothumb.Base.{ℕ, Bool, ◌||◌, List, [], ◌∷◌, ◌++◌, ◌==◌, if◌then◌else◌, Bytes, equal}

abbrev pub dot : Bytes
dot = b'.' ∷ []

abbrev pub dot_dot : Bytes
dot_dot = b'.' ∷ b'.' ∷ []

unfoldable pub onto_first : ℕ → List Bytes → List Bytes
onto_first c [] = (c ∷ []) ∷ []
onto_first c (g ∷ gs) = (c ∷ g) ∷ gs

-- The segments between the slashes, at least one.
unfoldable pub split : Bytes → List Bytes
split [] = [] ∷ []
split (c ∷ s) = if c == b'/' then [] ∷ split s else onto_first c (split s)

unfoldable pub parent : List Bytes → List Bytes
parent [] = []
parent (g ∷ gs) = gs

unfoldable pub is_skipped : Bytes → Bool
is_skipped g = equal g [] || equal g dot

-- A segment in front of a slash, on the stack of those kept (newest first).
unfoldable pub enter : List Bytes → Bytes → List Bytes
enter st g = if equal g dot_dot then parent st else if is_skipped g then st else g ∷ st

-- The last segment: where it is not kept, the path ends with a slash.
unfoldable pub enter_last : List Bytes → Bytes → List Bytes
enter_last st g =
    if equal g dot_dot then [] ∷ parent st else if is_skipped g then [] ∷ st else g ∷ st

unfoldable pub resolve : List Bytes → List Bytes → List Bytes
resolve st [] = st
resolve st (g ∷ []) = enter_last st g
resolve st (g ∷ h ∷ gs) = resolve (enter st g) (h ∷ gs)

unfoldable pub render : List Bytes → Bytes
render [] = []
render (g ∷ st) = render st ++ b'/' ∷ g
