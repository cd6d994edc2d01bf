-- ===== src/ObjectStore/Generation/Format.antt =====
-- Generation strings: the store's own are well formed, and the modification time can be read back.
use cloudy_neigh.Prelude.{
  ℕ, zero, suc, ◌+◌, ◌*◌, ◌/◌, ◌%◌, ◌^◌, ◌<◌, ◌≡◌, refl, ◌≢◌, true, false, Option, none, some, [],
  ◌∷◌, ◌++◌, Bytes, is_empty, lt→ltb, arith, All, All-append, inl, inr, Option-cases,
}
use cloudy_neigh.ObjectStore.Generation.{
  hex_digit, hex_digits, format_int16, local_generation, hex_value, parse_hex, parses_int16, cut,
  valid_local_generation,
}

abbrev IsHexDigit : ℕ → Type 0
IsHexDigit c = (c ≢ b'-') × (c ≢ b'+')

hex_value-hex_digit : (d : ℕ) → d < 16 → hex_value (hex_digit d) ≡ some d
unfolding hex_value hex_digit
hex_value-hex_digit d h = ground arith

hex_digit-IsHexDigit : (d : ℕ) → d < 16 → IsHexDigit (hex_digit d)
unfolding hex_digit
hex_digit-IsHexDigit d h = ground arith

abbrev bind : Option ℕ → (ℕ → Option ℕ) → Option ℕ
bind none f = none
bind (some a) f = f a

parse_hex-append :
    (s t : Bytes) (acc : ℕ) → parse_hex (s ++ t) acc ≡ bind (parse_hex s acc) (parse_hex t)
unfolding parse_hex
parse_hex-append [] t acc = refl
parse_hex-append (c ∷ s) t acc = elim (Option-cases (hex_value c)) [
  | inl e ↦ rw e refl
  | inr (d, e) ↦ rw e (parse_hex-append s t (acc * 16 + d))
]

one_digit : (d acc : ℕ) → d < 16 → parse_hex (hex_digit d ∷ []) acc ≡ some (acc * 16 + d)
unfolding parse_hex
one_digit d acc h = rw (hex_value-hex_digit d h) refl

-- Digits that are printed read back.
parse_hex-hex_digits : (fuel n : ℕ) → n < 16 ^ suc fuel → parse_hex (hex_digits fuel n) 0 ≡ some n
unfolding hex_digits
parse_hex-hex_digits zero n h = ground (arith, one_digit (n % 16) 0)
parse_hex-hex_digits (suc fuel) n h = ground (
  arith,
  one_digit n 0,
  one_digit (n % 16) (n / 16),
  parse_hex-append (hex_digits fuel (n / 16)) (hex_digit (n % 16) ∷ []) 0,
  parse_hex-hex_digits fuel (n / 16) (omega arith),
)

hex_digits-IsHexDigit : (fuel n : ℕ) → All IsHexDigit (hex_digits fuel n)
unfolding hex_digits
hex_digits-IsHexDigit zero n = (hex_digit-IsHexDigit (n % 16) (omega arith), tt)
hex_digits-IsHexDigit (suc fuel) n = ground (
  arith,
  hex_digit-IsHexDigit n,
  hex_digit-IsHexDigit (n % 16) (omega arith),
  All-append IsHexDigit (hex_digits fuel (n / 16)) (hex_digit (n % 16) ∷ [])
      (hex_digits-IsHexDigit fuel (n / 16)) (hex_digit-IsHexDigit (n % 16) (omega arith), tt),
)

cut-append : (s t : Bytes) → All IsHexDigit s → cut b'-' (s ++ (b'-' ∷ t)) ≡ some (s, t)
unfolding cut
cut-append [] t h = refl
cut-append (c ∷ s) t h = ground (arith, cut-append s t)

parses-digits :
    (s : Bytes) (n : ℕ)
    → All IsHexDigit s
    → is_empty s ≡ false
    → parse_hex s 0 ≡ some n
    → n < 2 ^ 63
    → parses_int16 s ≡ true
unfolding parses_int16 is_empty
parses-digits [] n h e p b = cc
parses-digits (c ∷ s) n h e p b = ground arith

hex_digits-nonempty : (fuel n : ℕ) → is_empty (hex_digits fuel n) ≡ false
unfolding hex_digits is_empty
hex_digits-nonempty zero n = refl
hex_digits-nonempty (suc fuel) n = ground (arith, nonempty (hex_digits fuel (n / 16)))
  where
    nonempty : (s : Bytes) → is_empty (s ++ (hex_digit (n % 16) ∷ [])) ≡ false
    nonempty [] = refl
    nonempty (c ∷ s) = refl

module _ (n : ℕ) (h : n < 2 ^ 63) where
  format_int16-eq : format_int16 n ≡ hex_digits 15 n
  unfolding format_int16
  format_int16-eq = rw (lt→ltb n (2 ^ 63) h) refl

  parses-format : parses_int16 (format_int16 n) ≡ true
  parses-format = rw format_int16-eq (
      parses-digits _ n (hex_digits-IsHexDigit 15 n) (hex_digits-nonempty 15 n)
        (parse_hex-hex_digits 15 n (omega arith)) h)

  parse-format : parse_hex (format_int16 n) 0 ≡ some n
  parse-format = rw format_int16-eq (parse_hex-hex_digits 15 n (omega arith))

pub cut-local_generation :
    (m s : ℕ) → m < 2 ^ 63 → cut b'-' (local_generation m s) ≡ some (format_int16 m, format_int16 s)
unfolding local_generation
cut-local_generation m s h =
    rw (format_int16-eq m h)
      (cut-append (hex_digits 15 m) (format_int16 s) (hex_digits-IsHexDigit 15 m))

-- A generation string that is made from a time and a size of an int64 passes the check of `Put`.
pub valid-local_generation :
    (m s : ℕ) → m < 2 ^ 63 → s < 2 ^ 63 → valid_local_generation (local_generation m s) ≡ true
unfolding valid_local_generation
valid-local_generation m s h k =
    rw (cut-local_generation m s h, parses-format m h, parses-format s k) refl

-- Two generation strings that are equal were made at one time.
pub local_generation-injective :
    (m n s t : ℕ) → m < 2 ^ 63 → n < 2 ^ 63 → local_generation m s ≡ local_generation n t → m ≡ n
local_generation-injective m n s t h k e = cc (parse-format m h, parse-format n k, same)
  where
    same : format_int16 m ≡ format_int16 n
    same = cc (cut-local_generation m s h, cut-local_generation n t k, e)

pub local_generation-nonempty : (m s : ℕ) → is_empty (local_generation m s) ≡ false
unfolding local_generation
local_generation-nonempty m s = nonempty (format_int16 m)
  where
    nonempty : (a : Bytes) → is_empty (a ++ (b'-' ∷ format_int16 s)) ≡ false
    nonempty [] = unfold is_empty in refl
    nonempty (c ∷ a) = unfold is_empty in refl
