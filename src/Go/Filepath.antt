-- ===== src/Go/Filepath.antt =====
-- What the program uses of `path/filepath`, on Unix: `Clean` and `Join`. A path is read as its
-- elements, between the slashes.
pub mod Clean
pub mod Below
use epochfill.Common.{
  ℕ, Bool, true, false, List, [], ◌∷◌, ◌++◌, nat_eq, ◌==◌, ◌||◌, text_equality, if◌then◌else◌,
}
use epochfill.Go.Text.{GoString, split, join}
use mathlib.Core.List.{reverse}

abbrev pub slash : ℕ
slash = 47

abbrev pub dot : GoString
dot = 46 ∷ []

abbrev pub dot_dot : GoString
dot_dot = 46 ∷ (46 ∷ [])

abbrev pub is_rooted : GoString → Bool
is_rooted [] = false
is_rooted (c ∷ s) = nat_eq c slash

-- `..` against the elements so far, the last one first.
abbrev pub go_up : Bool → List GoString → List GoString
go_up rooted [] = if rooted then [] else dot_dot ∷ []
go_up rooted (last ∷ earlier) = if last == dot_dot then dot_dot ∷ (last ∷ earlier) else earlier

abbrev pub add_element : Bool → List GoString → GoString → List GoString
add_element rooted sofar e =
    if e == [] || e == dot then sofar else if e == dot_dot then go_up rooted sofar else e ∷ sofar

abbrev pub resolve : Bool → List GoString → List GoString → List GoString
resolve rooted sofar [] = sofar
resolve rooted sofar (e ∷ r) = resolve rooted (add_element rooted sofar e) r

-- The elements of the path that `Clean` leaves.
unfoldable pub elements : GoString → List GoString
elements path = reverse (resolve (is_rooted path) [] (split slash path))

abbrev pub or_dot : GoString → GoString
or_dot [] = dot
or_dot (c ∷ s) = c ∷ s

-- `filepath.Clean`.
unfoldable pub clean : GoString → GoString
clean path =
    if is_rooted path
    then slash ∷ join (slash ∷ []) (elements path)
    else or_dot (join (slash ∷ []) (elements path))

-- `filepath.Join` of two elements: one that is empty is passed over.
unfoldable pub join_path : GoString → GoString → GoString
join_path [] [] = []
join_path [] (c ∷ t) = clean (c ∷ t)
join_path (c ∷ s) [] = clean (c ∷ s)
join_path (c ∷ s) (d ∷ t) = clean ((c ∷ s) ++ (slash ∷ (d ∷ t)))
