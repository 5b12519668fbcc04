-- ===== src/Go/Paths.antt =====
-- `path/filepath` on Unix.
use elastic_agent_system_met.Base.{
  Bool, true, false, ◌||◌, List, [], ◌∷◌, ◌++◌, if◌then◌else◌, Bytes, codes, bytes_eq, is_empty,
}
use elastic_agent_system_met.Go.Strings.{split, join, has_prefix}
use mathlib.Core.List.{reverse}

abbrev slash : Bytes
slash = codes "/"

-- `..` against the elements kept so far, the last one first.
unfoldable pub go_up : Bool → List Bytes → List Bytes
go_up rooted [] = if rooted then [] else codes ".." ∷ []
go_up rooted (top ∷ kept) = if bytes_eq top (codes "..") then codes ".." ∷ top ∷ kept else kept

unfoldable pub clean_from : Bool → List Bytes → List Bytes → List Bytes
clean_from rooted kept [] = reverse kept
clean_from rooted kept (part ∷ parts) =
    let next =
      if is_empty part || bytes_eq part (codes ".")
      then kept
      else if bytes_eq part (codes "..")
      then go_up rooted kept
      else part ∷ kept in
    clean_from rooted next parts

unfoldable pub render : Bool → List Bytes → Bytes
render true parts = slash ++ join slash parts
render false [] = codes "."
render false (p ∷ ps) = join slash (p ∷ ps)

-- `filepath.Clean`
unfoldable pub clean : Bytes → Bytes
unfolding clean_from go_up render split join has_prefix bytes_eq
clean path =
    let rooted = has_prefix slash path in render rooted (clean_from rooted [] (split b'/' path))

-- `filepath.Join`: leading empty elements are dropped, and the rest is cleaned.
unfoldable pub join_path : List Bytes → Bytes
unfolding clean
join_path [] = []
join_path (x ∷ xs) =
    let rest = join_path xs in if is_empty x then rest else clean (join slash (x ∷ xs))

-- `filepath.IsAbs`
unfoldable pub is_abs : Bytes → Bool
unfolding has_prefix
is_abs path = has_prefix slash path
