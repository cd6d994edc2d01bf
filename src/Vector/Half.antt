-- ===== src/Vector/Half.antt =====
-- vector/format.go: float32 numbers as half-precision ones, and back. A float32 is its 32 bits and a
-- half its 16, as a number; fields of bits that do not overlap are put together by a sum.
pub mod Rounding
use cloudy_neigh.Prelude.{
  ℕ, ◌+◌, ◌-◌, ◌*◌, ◌/◌, ◌%◌, ◌^◌, Bool, true, false, ◌&&◌, ◌||◌, Option, none, some, List, [], ◌∷◌,
  ltb, leb, ◌==◌, if◌then◌else◌, Result, ok, err, ◌>>=◌, non_finite, float16_overflow,
}

-- uint16(b>>16) & 0x8000
abbrev pub sign_of : ℕ → ℕ
sign_of b = b / 2 ^ 31 % 2 * 2 ^ 15

-- (b>>23) & 0xFF
abbrev pub exponent_of : ℕ → ℕ
exponent_of b = b / 2 ^ 23 % 2 ^ 8

-- b & 0x7FFFFF
abbrev pub mantissa_of : ℕ → ℕ
mantissa_of b = b % 2 ^ 23

-- A quotient by 2 ^ shift with its remainder, to the nearest, and to the even one of two.
abbrev pub rounded : ℕ → ℕ → ℕ → ℕ
rounded half rem mid = if ltb mid rem || (rem == mid && half % 2 == 1) then half + 1 else half

-- The cases -10 ≤ exp ≤ 0, with the exponent `e` of the float32: shift = 14 - exp
abbrev pub from_small : ℕ → ℕ → ℕ → Option ℕ
from_small sign e mant =
    let shift = 14 + 112 - e in
    let m = mant + 2 ^ 23 in some (sign + rounded (m / 2 ^ shift) (m % 2 ^ shift) (2 ^ (shift - 1)))

abbrev pub unless_infinite : ℕ → ℕ → Option ℕ
unless_infinite sign half = if leb (31 * 2 ^ 10) half then none else some (sign + half)

-- The cases 0 < exp < 31
abbrev pub from_normal : ℕ → ℕ → ℕ → Option ℕ
from_normal sign e mant =
    unless_infinite sign (rounded ((e - 112) * 2 ^ 10 + mant / 2 ^ 13) (mant % 2 ^ 13) (2 ^ 12))

-- fp16FromFloat32, where exp = e - 127 + 15 for the exponent e of the float32
unfoldable pub fp16_from_float32 : ℕ → Option ℕ
fp16_from_float32 b =
    let e = exponent_of b in
    if leb (31 + 112) e
    then none
    else if ltb (e + 10) 112
    then some (sign_of b)
    else if leb e 112
    then from_small (sign_of b) e (mantissa_of b)
    else from_normal (sign_of b) e (mantissa_of b)

-- math.IsNaN(float64(x)) || math.IsInf(float64(x), 0)
abbrev pub is_not_finite : ℕ → Bool
is_not_finite b = exponent_of b == 255

abbrev pub converted : Option ℕ → Result ℕ
converted none = err float16_overflow
converted (some h) = ok h

-- EncodeFP16, into a destination of the length of the source
unfoldable pub encode_fp16 : List ℕ → Result (List ℕ)
encode_fp16 [] = ok []
encode_fp16 (x ∷ xs) =
    let rest = encode_fp16 xs in
    if is_not_finite x
    then err non_finite
    else (converted (fp16_from_float32 x) >>= λ h. (rest >>= λ hs. ok (h ∷ hs)))

-- fp16ToFloat32. A subnormal number is the float32 that a multiplication gives, which is a parameter,
-- as is its negation.
unfoldable pub fp16_to_float32 : (ℕ → ℕ) → (ℕ → ℕ) → ℕ → ℕ
fp16_to_float32 scaled negated h =
    let sign = h / 2 ^ 15 % 2 in
    let e = h / 2 ^ 10 % 2 ^ 5 in
    let mant = h % 2 ^ 10 in
    if e == 0
    then (if sign == 0 then scaled mant else negated (scaled mant))
    else if e == 31
    then sign * 2 ^ 31 + 255 * 2 ^ 23 + mant * 2 ^ 13
    else sign * 2 ^ 31 + (e + 112) * 2 ^ 23 + mant * 2 ^ 13
