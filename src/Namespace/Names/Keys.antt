-- ===== src/Namespace/Names/Keys.antt =====
-- A name holds no slash, and so the keys of different namespaces, and of different branches and
-- segments of one, are different.
use cloudy_neigh.Prelude.{
  ◌≡◌, refl, sym, ap, ◌∙◌, true, List, [], ◌∷◌, Bytes, bytes_eq, codes, ok, arith, All,
}
use cloudy_neigh.Namespace.Paths.{split, joined, join}
use cloudy_neigh.Namespace.Paths.Plain.{NoSlash, IsPlain, split-joined, join-joined}
use cloudy_neigh.Namespace.Names.{
  is_letter, all_name_bytes, validate_name, Scope, prefix_of, path_of,
}

abbrev pub IsName : Bytes → Type 0
IsName s = validate_name s ≡ ok tt

all_name_bytes-NoSlash : (s : Bytes) → all_name_bytes s ≡ true → All NoSlash s
unfolding all_name_bytes
all_name_bytes-NoSlash [] h = tt
all_name_bytes-NoSlash (c ∷ s) h = (ground arith, all_name_bytes-NoSlash s (ground arith))

-- A name has no slash.
pub IsName-NoSlash : (s : Bytes) → IsName s → All NoSlash s
unfolding validate_name
IsName-NoSlash [] h = cc
IsName-NoSlash (c ∷ s) h = (ground arith, all_name_bytes-NoSlash s (ground arith))

-- A name starts with a letter, and so it is no element that a path loses.
pub IsName-IsPlain : (s : Bytes) → IsName s → IsPlain s
unfolding validate_name is_letter bytes_eq
IsName-IsPlain [] h = cc
IsName-IsPlain (c ∷ s) h = record {
  no_slash = IsName-NoSlash (c ∷ s) h;
  not_empty = refl;
  not_here = ground arith;
  not_up = ground arith;
}

ns-IsPlain : IsPlain (codes "ns")
unfolding bytes_eq
ns-IsPlain = record {
  no_slash = (omega arith, (omega arith, tt));
  not_empty = refl;
  not_here = refl;
  not_up = refl;
}

prefix_of-joined : (s : Scope) → IsName s.name → prefix_of s ≡ joined (codes "ns" ∷ s.name ∷ [])
unfolding prefix_of
prefix_of-joined s h =
    unfold joined in
    join-joined (codes "ns") [] s.name [] (ns-IsPlain, tt) (IsName-IsPlain s.name h, tt)

-- The key of a path of plain elements in a namespace.
path_of-joined :
    (s : Scope) (e : Bytes) (es : List Bytes)
    → IsName s.name
    → All IsPlain (e ∷ es)
    → path_of s (joined (e ∷ es)) ≡ joined (codes "ns" ∷ s.name ∷ e ∷ es)
unfolding path_of
path_of-joined s e es hs h =
    ap (λ a. join a (joined (e ∷ es))) (prefix_of-joined s hs)
    ∙ join-joined (codes "ns") (s.name ∷ []) e es (ns-IsPlain, (IsName-IsPlain s.name hs, tt)) h

-- Keys of objects of two namespaces with valid names, for paths within them whose elements are plain
-- (not empty, without a slash, and neither `.` nor `..`), are equal only if the names are, and the
-- elements of the paths.
pub path_of-injective :
    (s t : Scope) (e f : Bytes) (es fs : List Bytes)
    → IsName s.name
    → IsName t.name
    → All IsPlain (e ∷ es)
    → All IsPlain (f ∷ fs)
    → path_of s (joined (e ∷ es)) ≡ path_of t (joined (f ∷ fs))
    → (s.name ≡ t.name) × (e ∷ es ≡ f ∷ fs)
path_of-injective s t e f es fs hs ht h k same =
    let keys : joined (codes "ns" ∷ s.name ∷ e ∷ es) ≡ joined (codes "ns" ∷ t.name ∷ f ∷ fs) =
      sym (path_of-joined s e es hs h) ∙ same ∙ path_of-joined t f fs ht k in
    let elements : codes "ns" ∷ s.name ∷ e ∷ es ≡ codes "ns" ∷ t.name ∷ f ∷ fs =
      sym (split-joined (codes "ns") (s.name ∷ e ∷ es) (ns-IsPlain, (IsName-IsPlain s.name hs, h)))
      ∙ ap split keys
      ∙ split-joined (codes "ns") (t.name ∷ f ∷ fs) (ns-IsPlain, (IsName-IsPlain t.name ht, k)) in
    (cc, cc)
