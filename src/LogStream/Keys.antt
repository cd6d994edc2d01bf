-- ===== src/LogStream/Keys.antt =====
-- logstream/log.go: the keys of the log, and the prefixes that are allowed.
pub mod Format
use cloudy_neigh.Prelude.{
  ℕ, zero, suc, ◌+◌, ◌-◌, ◌*◌, ◌/◌, ◌%◌, ◌^◌, Bool, true, false, ◌&&◌, ◌||◌, not, Option, none,
  some, List, [], ◌∷◌, ◌++◌, Bytes, length, is_empty, ltb, leb, ◌==◌, bytes_eq, codes,
  if◌then◌else◌, take, drop, Error, Result, ok, err, malformed_key, ◌>>=◌, ◌>>◌, guard,
}

-- The lowest `k` decimal digits of `n`, highest first.
unfoldable pub decimal : ℕ → ℕ → Bytes
decimal zero n = []
decimal (suc k) n = decimal k (n / 10) ++ ((b'0' + n % 10) ∷ [])

abbrev pub suffix : Bytes
suffix = codes ".recordio"

-- fmt.Sprintf("%s/%020d.recordio", prefix, seq): a uint64 has twenty digits at most.
unfoldable pub segment_key : Bytes → ℕ → Bytes
unfolding decimal
segment_key prefix seq = prefix ++ (b'/' ∷ (decimal 20 seq ++ suffix))

-- What stands behind the last slash.
unfoldable pub after_slash : Bytes → Bytes → Bytes
after_slash found [] = found
after_slash found (c ∷ s) = after_slash (if c == b'/' then s else found) s

-- The string with no slashes at its end.
unfoldable pub strip_slashes : Bytes → Bytes
strip_slashes [] = []
strip_slashes (c ∷ s) =
    let rest = strip_slashes s in if c == b'/' && is_empty rest then [] else c ∷ rest

-- path.Base(key). (For a key of slashes alone this is empty, where Go has "/", and for the empty key
-- it is empty, where Go has "."; none of these ends in the suffix that is asked for next.)
unfoldable pub base : Bytes → Bytes
unfolding after_slash strip_slashes
base key = let name = strip_slashes key in after_slash name name

-- strings.HasSuffix(s, t)
abbrev pub has_suffix : Bytes → Bytes → Bool
has_suffix s t = leb (length t) (length s) && bytes_eq (drop (length s - length t) s) t

-- strings.TrimSuffix(s, t), where the suffix is there
abbrev pub trim_suffix : Bytes → Bytes → Bytes
trim_suffix s t = take (length s - length t) s

is_digit : ℕ → Bool
is_digit c = leb b'0' c && leb c b'9'

-- strconv.ParseUint(raw, 10, 64), for digits that are there
unfoldable pub parse_decimal : Bytes → ℕ → Option ℕ
unfolding is_digit
parse_decimal [] acc = some acc
parse_decimal (c ∷ s) acc =
    let rest = parse_decimal s (acc * 10 + (c - b'0')) in if is_digit c then rest else none

abbrev in_uint64 : Option ℕ → Result ℕ
in_uint64 none = err malformed_key
in_uint64 (some n) = if ltb n (2 ^ 64) then ok n else err malformed_key

-- parseSeq
unfoldable pub parse_seq : Bytes → Result ℕ
unfolding base parse_decimal
parse_seq key = do
  let name = base key
  guard (has_suffix name suffix) malformed_key
  let raw = trim_suffix name suffix
  guard (length raw == 20) malformed_key
  seq ← in_uint64 (parse_decimal raw 0)
  guard (not (seq == 0)) malformed_key
  ok seq

is_prefix_byte : ℕ → Bool
unfolding is_digit
is_prefix_byte c =
    (leb b'a' c && leb c b'z')
    || (leb b'A' c && leb c b'Z')
    || is_digit c
    || c == b'_'
    || c == b'-'
    || c == b'/'

all_prefix_bytes : Bytes → Bool
unfolding is_prefix_byte
all_prefix_bytes [] = true
all_prefix_bytes (c ∷ s) = is_prefix_byte c && all_prefix_bytes s

-- strings.Contains(s, "//")
has_double_slash : Bytes → Bool
has_double_slash [] = false
has_double_slash (c ∷ []) = false
has_double_slash (c ∷ d ∷ s) = (c == b'/' && d == b'/') || has_double_slash (d ∷ s)

ends_in_slash : Bytes → Bool
ends_in_slash [] = false
ends_in_slash (c ∷ []) = c == b'/'
ends_in_slash (c ∷ d ∷ s) = ends_in_slash (d ∷ s)

starts_with_slash : Bytes → Bool
starts_with_slash [] = false
starts_with_slash (c ∷ s) = c == b'/'

unfoldable pub valid_prefix : Bytes → Bool
unfolding starts_with_slash ends_in_slash has_double_slash all_prefix_bytes
valid_prefix prefix =
    if is_empty prefix
      || starts_with_slash prefix
      || ends_in_slash prefix
      || has_double_slash prefix
    then false
    else all_prefix_bytes prefix
