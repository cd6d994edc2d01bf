-- ===== src/Namespace/Names.antt =====
-- namespace/namespace.go: names of tenants, namespaces and branches, and the keys made from them.
pub mod Keys
use cloudy_neigh.Prelude.{
  ℕ, ◌+◌, Bool, true, false, ◌&&◌, ◌||◌, [], ◌∷◌, ◌++◌, Bytes, leb, ◌==◌, if◌then◌else◌, codes,
  Result, ok, err, invalid_name,
}
use cloudy_neigh.Namespace.Paths.{join}

is_letter : ℕ → Bool
is_letter c = (leb b'a' c && leb c b'z') || (leb b'A' c && leb c b'Z')

is_name_byte : ℕ → Bool
unfolding is_letter
is_name_byte c = is_letter c || (leb b'0' c && leb c b'9') || c == b'-' || c == b'_'

all_name_bytes : Bytes → Bool
unfolding is_name_byte
all_name_bytes [] = true
all_name_bytes (c ∷ s) = is_name_byte c && all_name_bytes s

-- ValidateName
unfoldable pub validate_name : Bytes → Result (Unit {0})
unfolding all_name_bytes
validate_name [] = err invalid_name
validate_name (c ∷ s) =
    if is_letter c then (if all_name_bytes s then ok tt else err invalid_name) else err invalid_name

abbrev pub default_namespace : Bytes
default_namespace = codes "default"

abbrev pub default_branch : Bytes
default_branch = codes "main"

abbrev pub default_tenant : Bytes
default_tenant = codes "cloudy"

abbrev pub catalog_file : Bytes
catalog_file = codes "ns.json"

-- A scope is its namespace's name.
pub record Scope : Type 0 where
  pub name : Bytes

-- Scope.Prefix
unfoldable pub prefix_of : Scope → Bytes
unfolding join
prefix_of s = join (codes "ns") s.name

-- Scope.Path
unfoldable pub path_of : Scope → Bytes → Bytes
unfolding join prefix_of
path_of s subpath = join (prefix_of s) subpath

unfoldable pub wal_prefix : Scope → Bytes
unfolding path_of
wal_prefix s = path_of s (codes "wal")

unfoldable pub manifest_key : Scope → Bytes → Bytes
unfolding join path_of
manifest_key s branch = path_of s (join (codes "refs/heads") (branch ++ codes ".json"))

unfoldable pub segments_prefix : Scope → Bytes
unfolding path_of
segments_prefix s = path_of s (codes "segments")

unfoldable pub segment_key : Scope → Bytes → Bytes
unfolding join path_of
segment_key s seg_id = path_of s (join (codes "segments") (seg_id ++ codes ".recordio"))

unfoldable pub branches_key : Scope → Bytes
unfolding path_of
branches_key s = path_of s (codes "branches.json")
