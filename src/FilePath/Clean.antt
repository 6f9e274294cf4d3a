-- ===== src/FilePath/Clean.antt =====
-- What the code uses of path/filepath on a system whose separator is a slash.
use agent_orchestrator_publi.Base.{
  ℕ, ◌≡◌, refl, Bool, true, false, ◌==◌, if◌then◌else◌, List, [], ◌∷◌, ◌++◌, reverse, Text, codes,
  text_eq, is_empty,
}
use agent_orchestrator_publi.FilePath.Split.{split, join}

abbrev pub slash : ℕ
slash = b'/'

abbrev pub dot : Text
dot = codes "."

abbrev pub dot_dot : Text
dot_dot = codes ".."

unfoldable pub is_abs : Text → Bool
is_abs [] = false
is_abs (c ∷ s) = c == slash

-- How an element bears on the elements kept so far.
pub data Element : Type 0 where
  skip up name : Element

unfoldable pub element : Text → Element
unfolding text_eq
element e =
    if is_empty e
    then skip
    else if text_eq e dot
    then skip
    else if text_eq e dot_dot
    then up
    else name

-- `..` takes away the name before it. At the root it is dropped, and where no name is left to
-- take it is kept. The elements kept stand in reverse.
unfoldable pub up_from : Bool → List Text → List Text
up_from true [] = []
up_from false [] = dot_dot ∷ []
up_from rooted (last ∷ kept) = elim (element last) [ up ↦ dot_dot ∷ last ∷ kept | _ ↦ kept ]

unfoldable pub keep : Bool → List Text → Text → List Text
unfolding up_from
keep rooted kept e = elim (element e) [ skip ↦ kept | up ↦ up_from rooted kept | name ↦ e ∷ kept ]

unfoldable pub resolve : Bool → List Text → List Text → List Text
unfolding keep
resolve rooted kept [] = kept
resolve rooted kept (e ∷ es) = resolve rooted (keep rooted kept e) es

-- The elements of the cleaned path, in order.
unfoldable pub clean_elements : Text → List Text
unfolding is_abs resolve split
clean_elements path = reverse (resolve (is_abs path) [] (split slash path))

unfoldable pub render : Bool → List Text → Text
unfolding join
render true es = slash ∷ join (slash ∷ []) es
render false [] = dot
render false (e ∷ es) = join (slash ∷ []) (e ∷ es)

unfoldable pub clean : Text → Text
unfolding render clean_elements
clean path = render (is_abs path) (clean_elements path)

-- `filepath.Join(a, b)`: empty arguments are ignored.
unfoldable pub join_path : Text → Text → Text
unfolding clean
join_path [] [] = []
join_path [] (c ∷ b) = clean (c ∷ b)
join_path (c ∷ a) [] = clean (c ∷ a)
join_path (c ∷ a) (d ∷ b) = clean ((c ∷ a) ++ (slash ∷ d ∷ b))

-- `filepath.Join` of any number of arguments: those before the first one that is not empty are
-- ignored.
unfoldable pub join_paths : List Text → Text
unfolding clean join
join_paths [] = []
join_paths ([] ∷ es) = join_paths es
join_paths ((c ∷ e) ∷ es) = clean (join (slash ∷ []) ((c ∷ e) ∷ es))

drop_slashes : Text → Text
drop_slashes [] = []
drop_slashes (c ∷ s) = let rest = drop_slashes s in if c == slash then rest else c ∷ s

last_element : List Text → Text
last_element [] = []
last_element (e ∷ []) = e
last_element (e ∷ f ∷ es) = last_element (f ∷ es)

-- `filepath.Base(path)`: trailing slashes are removed, then all up to the last slash.
unfoldable pub base : Text → Text
unfolding drop_slashes last_element split
base [] = dot
base (c ∷ s) =
    let last = last_element (split slash (reverse (drop_slashes (reverse (c ∷ s))))) in
    if is_empty last then slash ∷ [] else last

clean_tests :
    (clean (codes "a//b/../c/.") ≡ codes "a/c")
    × (clean (codes "../x/../../y/") ≡ codes "../../y")
    × (clean (codes "/../a") ≡ codes "/a")
    × (clean [] ≡ codes ".")
    × (clean (codes "a/..") ≡ codes ".")
    × (base (codes "/usr/bin/env/") ≡ codes "env")
    × (base (codes "//") ≡ codes "/")
    × (join_path (codes "/r/") (codes "../x") ≡ codes "/x")
unfolding clean base join_path element
clean_tests = (refl, refl, refl, refl, refl, refl, refl, refl)
