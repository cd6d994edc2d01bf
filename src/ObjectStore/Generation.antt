-- ===== src/ObjectStore/Generation.antt =====
-- objectstore/local.go: the generation strings `<modtime>-<size>`, in hexadecimal.
pub mod Format
use cloudy_neigh.Prelude.{
  ℕ, zero, suc, ◌+◌, ◌-◌, ◌*◌, ◌/◌, ◌%◌, ◌^◌, Bool, true, false, ◌&&◌, ◌||◌, not, Option, none,
  some, [], ◌∷◌, ◌++◌, Bytes, is_empty, ltb, leb, ◌==◌, if◌then◌else◌,
}

hex_digit : ℕ → ℕ
hex_digit d = if ltb d 10 then b'0' + d else b'a' + (d - 10)

-- The digits of `n`, highest first; `suc fuel` digits at most.
hex_digits : ℕ → ℕ → Bytes
unfolding hex_digit
hex_digits zero n = hex_digit (n % 16) ∷ []
hex_digits (suc fuel) n =
    let rest = hex_digits fuel (n / 16) in
    if ltb n 16 then hex_digit n ∷ [] else rest ++ (hex_digit (n % 16) ∷ [])

-- strconv.FormatInt(n, 16), for an int64 given by its bits. Sixteen digits hold every uint64.
pub format_int16 : ℕ → Bytes
format_int16 n = if ltb n (2 ^ 63) then hex_digits 15 n else b'-' ∷ hex_digits 15 (2 ^ 64 - n)

-- localGeneration
unfoldable pub local_generation : ℕ → ℕ → Bytes
unfolding format_int16 hex_digits
local_generation mod_time size = format_int16 mod_time ++ (b'-' ∷ format_int16 size)

hex_value : ℕ → Option ℕ
hex_value c =
    if leb b'0' c && leb c b'9'
    then some (c - b'0')
    else if leb b'a' c && leb c b'f'
    then some (c - b'a' + 10)
    else if leb b'A' c && leb c b'F'
    then some (c - b'A' + 10)
    else none

abbrev hex_step : (ℕ → Option ℕ) → ℕ → Option ℕ → Option ℕ
hex_step go acc none = none
hex_step go acc (some d) = go (acc * 16 + d)

-- The number that the digits stand for, behind those read before.
parse_hex : Bytes → ℕ → Option ℕ
unfolding hex_value
parse_hex [] acc = some acc
parse_hex (c ∷ s) acc = hex_step (parse_hex s) acc (hex_value c)

abbrev fits : ℕ → Option ℕ → Bool
fits bound none = false
fits bound (some n) = leb n bound

-- strconv.ParseInt(s, 16, 64) returns no error: an optional sign, a digit or more, and in range.
pub parses_int16 : Bytes → Bool
parses_int16 [] = false
parses_int16 (c ∷ s) =
    if c == b'-'
    then not (is_empty s) && fits (2 ^ 63) (parse_hex s 0)
    else if c == b'+'
    then not (is_empty s) && fits (2 ^ 63 - 1) (parse_hex s 0)
    else fits (2 ^ 63 - 1) (parse_hex (c ∷ s) 0)

abbrev add_front : ℕ → Option (Bytes × Bytes) → Option (Bytes × Bytes)
add_front c none = none
add_front c (some (a, b)) = some (c ∷ a, b)

-- strings.Cut(s, sep), for a separator of one byte
pub cut : ℕ → Bytes → Option (Bytes × Bytes)
cut sep [] = none
cut sep (c ∷ s) = if c == sep then some ([], s) else add_front c (cut sep s)

abbrev both_parse : Option (Bytes × Bytes) → Bool
both_parse none = false
both_parse (some (mod_time, size)) = parses_int16 mod_time && parses_int16 size

-- validLocalGeneration
unfoldable pub valid_local_generation : Bytes → Bool
unfolding cut parses_int16 parse_hex
valid_local_generation g = both_parse (cut b'-' g)
