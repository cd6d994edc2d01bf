-- ===== src/Namespace/Paths.antt =====
-- path.Join and path.Clean of Go's standard library, as namespace/namespace.go uses them.
pub mod Plain
use cloudy_neigh.Prelude.{
  ℕ, Bool, true, false, ◌||◌, List, [], ◌∷◌, ◌++◌, Bytes, bytes_eq, ◌==◌, codes, if◌then◌else◌,
}

abbrev pub before_rest : ℕ → List Bytes → List Bytes
before_rest c [] = (c ∷ []) ∷ []
before_rest c (e ∷ es) = (c ∷ e) ∷ es

-- What stands between the slashes.
unfoldable pub split : Bytes → List Bytes
split [] = [] ∷ []
split (c ∷ s) = let rest = split s in if c == b'/' then [] ∷ rest else before_rest c rest

-- The elements with slashes between them.
unfoldable pub joined : List Bytes → Bytes
joined [] = []
joined (e ∷ []) = e
joined (e ∷ f ∷ es) = e ++ (b'/' ∷ joined (f ∷ es))

-- An element `..` takes back the one before, where there is one; a rooted path goes no further up.
abbrev pub up : Bool → List Bytes → List Bytes
up true [] = []
up false [] = codes ".." ∷ []
up rooted (top ∷ out) = if bytes_eq top (codes "..") then codes ".." ∷ top ∷ out else out

-- The elements that are kept, the last one first.
abbrev pub kept : Bool → List Bytes → Bytes → List Bytes
kept rooted out e =
    if bytes_eq e [] || bytes_eq e (codes ".")
    then out
    else if bytes_eq e (codes "..")
    then up rooted out
    else e ∷ out

unfoldable pub keep_all : Bool → List Bytes → List Bytes → List Bytes
keep_all rooted out [] = out
keep_all rooted out (e ∷ es) = keep_all rooted (kept rooted out e) es

unfoldable pub reverse_onto : List Bytes → List Bytes → List Bytes
reverse_onto [] es = es
reverse_onto (e ∷ out) es = reverse_onto out (e ∷ es)

abbrev pub is_rooted : Bytes → Bool
is_rooted [] = false
is_rooted (c ∷ s) = c == b'/'

-- The path of the elements; the empty one is `.`.
abbrev pub rebuilt : Bool → List Bytes → Bytes
rebuilt true es = b'/' ∷ joined es
rebuilt false [] = codes "."
rebuilt false (e ∷ es) = joined (e ∷ es)

-- path.Clean
unfoldable pub clean : Bytes → Bytes
unfolding split joined keep_all reverse_onto
clean s = rebuilt (is_rooted s) (reverse_onto (keep_all (is_rooted s) [] (split s)) [])

-- path.Join of two parts; an empty one is left out.
unfoldable pub join : Bytes → Bytes → Bytes
unfolding clean
join [] [] = []
join [] (d ∷ b) = clean (d ∷ b)
join (c ∷ a) [] = clean (c ∷ a)
join (c ∷ a) (d ∷ b) = clean ((c ∷ a) ++ (b'/' ∷ d ∷ b))
