-- ===== src/Vector/Half/Rounding.antt =====
-- What the conversion keeps, and how it rounds.
use cloudy_neigh.Prelude.{
  ℕ, zero, suc, ◌+◌, ◌-◌, ◌*◌, ◌/◌, ◌%◌, ◌^◌, ◌≤◌, ◌<◌, ◌≡◌, ap, ◌∙◌, false, none, some, ltb, leb,
  ◌==◌, inl, inr, Bool-cases, arith, ◌&&◌, ◌||◌,
}
use native.Mathlib.Nat.{add-mul, one-mul, mod-add-div', mod-lt, one-le-pow, two-pow-succ}
use cloudy_neigh.Vector.Half.{
  sign_of, exponent_of, mantissa_of, rounded, from_small, from_normal, unless_infinite,
  fp16_from_float32, fp16_to_float32,
}

-- Rounding adds one at most, and goes to the nearest.
rounded_lem : (half rem mid : ℕ) → (half ≤ rounded half rem mid) × (rounded half rem mid ≤ half + 1)
rounded_lem half rem mid = ground arith

-- Half of `h` times the unit is within half a unit of the number.
rounded_near :
    (half rem : ℕ)
    → rem < 2 ^ 13
    → (rounded half rem (2 ^ 12) * 2 ^ 13 ≤ half * 2 ^ 13 + rem + 2 ^ 12)
      × (half * 2 ^ 13 + rem ≤ rounded half rem (2 ^ 12) * 2 ^ 13 + 2 ^ 12)
rounded_near half rem h = ground arith

-- The same for any even unit.
rounded_within :
    (half rem mid : ℕ)
    → rem < mid + mid
    → (rounded half rem mid * (mid + mid) ≤ half * (mid + mid) + rem + mid)
      × (half * (mid + mid) + rem ≤ rounded half rem mid * (mid + mid) + mid)
rounded_within half rem mid h = elim (Bool-cases (ltb mid rem || (rem == mid && half % 2 == 1))) [
  | inl up ↦
      let over : mid ≤ rem = ground arith in
      rw up (omega (arith, add-mul half 1 (mid + mid), one-mul (mid + mid)))
  | inr down ↦ let under : rem ≤ mid = ground arith in rw down (omega arith)
]

-- A number that is divided by a unit, and rounded, is within half a unit.
quotient_within :
    (x mid : ℕ)
    → 0 < mid
    → (rounded (x / (mid + mid)) (x % (mid + mid)) mid * (mid + mid) ≤ x + mid)
      × (x ≤ rounded (x / (mid + mid)) (x % (mid + mid)) mid * (mid + mid) + mid)
quotient_within x mid h =
    let unit = mid + mid in
    let whole = mod-add-div' x unit in
    let (low, high) =
      rounded_within (x / unit) (x % unit) mid (mod-lt x {m = unit} (omega arith)) in
    (omega arith, omega arith)

-- The fields of a float32 that is put together from fields.
fields :
    (s e m : ℕ)
    → s < 2
    → e < 143
    → m < 2 ^ 23
    → (sign_of (s * 2 ^ 31 + e * 2 ^ 23 + m) ≡ s * 2 ^ 15)
      × (exponent_of (s * 2 ^ 31 + e * 2 ^ 23 + m) ≡ e)
      × (mantissa_of (s * 2 ^ 31 + e * 2 ^ 23 + m) ≡ m)
fields s e m hs he hm = (omega arith, omega arith, omega arith)

from_normal-exact :
    (s e m : ℕ)
    → s < 2
    → 0 < e
    → e < 31
    → m < 2 ^ 10
    → from_normal (s * 2 ^ 15) (e + 112) (m * 2 ^ 13) ≡ some (s * 2 ^ 15 + e * 2 ^ 10 + m)
from_normal-exact s e m hs low high hm =
    let half : (e + 112 - 112) * 2 ^ 10 + m * 2 ^ 13 / 2 ^ 13 ≡ e * 2 ^ 10 + m = omega arith in
    let rem : m * 2 ^ 13 % 2 ^ 13 ≡ 0 = omega arith in
    let small : leb (31 * 2 ^ 10) (e * 2 ^ 10 + m) ≡ false = ground arith in
    let sum : s * 2 ^ 15 + (e * 2 ^ 10 + m) ≡ s * 2 ^ 15 + e * 2 ^ 10 + m = omega arith in
    rw half (rw rem (rw small (ap some sum)))

back :
    (s e m : ℕ)
    → s < 2
    → 0 < e
    → e < 31
    → m < 2 ^ 10
    → fp16_from_float32 (s * 2 ^ 31 + (e + 112) * 2 ^ 23 + m * 2 ^ 13)
      ≡ some (s * 2 ^ 15 + e * 2 ^ 10 + m)
unfolding fp16_from_float32
back s e m hs low high hm =
    let (is_sign, is_e, is_m) = fields s (e + 112) (m * 2 ^ 13) hs (omega arith) (omega arith) in
    let finite : leb (31 + 112) (e + 112) ≡ false = ground arith in
    let no_zero : ltb (e + 112 + 10) 112 ≡ false = ground arith in
    let is_normal : leb (e + 112) 112 ≡ false = ground arith in
    rw is_sign (
      rw is_e
        (rw is_m (rw finite (rw no_zero (rw is_normal (from_normal-exact s e m hs low high hm))))))

-- A normal half that is converted to a float32 is converted back to itself.
pub fp16_from_float32-fp16_to_float32 :
    (scaled negated : ℕ → ℕ) (h : ℕ)
    → h < 2 ^ 16
    → 0 < h / 2 ^ 10 % 2 ^ 5
    → h / 2 ^ 10 % 2 ^ 5 < 31
    → fp16_from_float32 (fp16_to_float32 scaled negated h) ≡ some h
unfolding fp16_from_float32 fp16_to_float32
fp16_from_float32-fp16_to_float32 scaled negated h bound low high =
    let s = h / 2 ^ 15 % 2 in
    let e = h / 2 ^ 10 % 2 ^ 5 in
    let m = h % 2 ^ 10 in
    let not_small : (e == 0) ≡ false = ground arith in
    let not_last : (e == 31) ≡ false = ground arith in
    let whole : s * 2 ^ 15 + e * 2 ^ 10 + m ≡ h = omega arith in
    rw not_small (rw not_last (back s e m (omega arith) low high (omega arith) ∙ ap some whole))

-- The quotient of the significand by the power of a shift from 14 to 24.
quotient_small : (m k : ℕ) → m < 2 ^ 24 → k ≤ 10 → m / 2 ^ (14 + k) < 2 ^ 10
quotient_small m zero h k_le = omega arith
quotient_small m (suc zero) h k_le = omega arith
quotient_small m (suc (suc zero)) h k_le = omega arith
quotient_small m (suc (suc (suc zero))) h k_le = omega arith
quotient_small m (suc (suc (suc (suc zero)))) h k_le = omega arith
quotient_small m (suc (suc (suc (suc (suc zero))))) h k_le = omega arith
quotient_small m (suc (suc (suc (suc (suc (suc zero)))))) h k_le = omega arith
quotient_small m (suc (suc (suc (suc (suc (suc (suc zero))))))) h k_le = omega arith
quotient_small m (suc (suc (suc (suc (suc (suc (suc (suc zero)))))))) h k_le = omega arith
quotient_small m (suc (suc (suc (suc (suc (suc (suc (suc (suc zero))))))))) h k_le = omega arith
quotient_small m (suc (suc (suc (suc (suc (suc (suc (suc (suc (suc zero)))))))))) h k_le =
    omega arith
quotient_small m (suc (suc (suc (suc (suc (suc (suc (suc (suc (suc (suc k))))))))))) h k_le =
    absurd (omega arith)

-- The unit of a subnormal half, in which the significand `x` of a float32 is given, is a power of two.
small_within :
    (x e : ℕ)
    → e ≤ 112
    → (rounded (x / 2 ^ (14 + 112 - e)) (x % 2 ^ (14 + 112 - e)) (2 ^ (14 + 112 - e - 1))
          * 2 ^ (126 - e)
        ≤ x + 2 ^ (125 - e))
      × (x
          ≤ rounded (x / 2 ^ (14 + 112 - e)) (x % 2 ^ (14 + 112 - e)) (2 ^ (14 + 112 - e - 1))
              * 2 ^ (126 - e)
            + 2 ^ (125 - e))
small_within x e h =
    let shift : 126 - e ≡ suc (125 - e) = omega arith in
    let before : 126 - e - 1 ≡ 125 - e = omega arith in
    let unit : 2 ^ (126 - e) ≡ 2 ^ (125 - e) + 2 ^ (125 - e) =
      ap (λ n. 2 ^ n) shift ∙ two-pow-succ (125 - e) in
    rw before (rw unit (quotient_within x (2 ^ (125 - e)) (one-le-pow (125 - e) 2 (omega arith))))

from_small_lem :
    (s e m h : ℕ)
    → s < 2
    → 112 ≤ e + 10
    → e ≤ 112
    → m < 2 ^ 23
    → from_small (s * 2 ^ 15) e m ≡ some h
    → (h / 2 ^ 15 ≡ s)
      × (h % 2 ^ 15 < 31 * 2 ^ 10)
      × (h % 2 ^ 15 * 2 ^ (126 - e) ≤ m + 2 ^ 23 + 2 ^ (125 - e))
      × (m + 2 ^ 23 ≤ h % 2 ^ 15 * 2 ^ (126 - e) + 2 ^ (125 - e))
from_small_lem s e m h hs low high hm k =
    let half = (m + 2 ^ 23) / 2 ^ (14 + 112 - e) in
    let rem = (m + 2 ^ 23) % 2 ^ (14 + 112 - e) in
    let mid = 2 ^ (14 + 112 - e - 1) in
    let shift : 14 + (112 - e) ≡ 14 + 112 - e = omega arith in
    let small : half < 2 ^ 10 =
      rw shift at (quotient_small (m + 2 ^ 23) (112 - e) (omega arith) (omega arith)) in
    let is_h : s * 2 ^ 15 + rounded half rem mid ≡ h = cc in
    let (_, most) = rounded_lem half rem mid in
    let field : h % 2 ^ 15 ≡ rounded half rem mid = rw (← is_h) (omega arith) in
    let (above, below) = small_within (m + 2 ^ 23) e high in
    (rw (← is_h) (omega arith), rw (← is_h) (omega arith), rw field above, rw field below)

unless_infinite-some :
    (sign half h : ℕ)
    → unless_infinite sign half ≡ some h
    → (half < 31 * 2 ^ 10) × (sign + half ≡ h)
unless_infinite-some sign half h k = ground arith

from_normal_lem :
    (s e m h : ℕ)
    → s < 2
    → 112 < e
    → m < 2 ^ 23
    → from_normal (s * 2 ^ 15) e m ≡ some h
    → (h / 2 ^ 15 ≡ s)
      × (h % 2 ^ 15 < 31 * 2 ^ 10)
      × (h % 2 ^ 15 * 2 ^ 13 + 112 * 2 ^ 23 ≤ e * 2 ^ 23 + m + 2 ^ 12)
      × (e * 2 ^ 23 + m ≤ h % 2 ^ 15 * 2 ^ 13 + 112 * 2 ^ 23 + 2 ^ 12)
from_normal_lem s e m h hs low hm k =
    let half = (e - 112) * 2 ^ 10 + m / 2 ^ 13 in
    let r = rounded half (m % 2 ^ 13) (2 ^ 12) in
    let (fits, is_h) = unless_infinite-some (s * 2 ^ 15) r h k in
    let (above, below) = rounded_near half (m % 2 ^ 13) (omega arith) in
    let field : h % 2 ^ 15 ≡ r = omega arith in
    (omega arith, omega arith, rw field (omega arith), rw field (omega arith))

-- The half is within half a unit in its last place of the number with the bits `b`, signs aside. From
-- the smallest normal half on, both are given in units of the last place of the float32. Below that,
-- the unit is 2 ^ (126 - e) times that of the significand of the float32, for its exponent e; and a
-- number that is less than half of the last unit gives zero.
pub data Nearest (b h : ℕ) : Type 0 where
  normal :
      112 < exponent_of b
      → h % 2 ^ 15 * 2 ^ 13 + 112 * 2 ^ 23 ≤ b % 2 ^ 31 + 2 ^ 12
      → b % 2 ^ 31 ≤ h % 2 ^ 15 * 2 ^ 13 + 112 * 2 ^ 23 + 2 ^ 12
      → Nearest b h
  subnormal :
      112 ≤ exponent_of b + 10
      → exponent_of b ≤ 112
      → h % 2 ^ 15 * 2 ^ (126 - exponent_of b) ≤ mantissa_of b + 2 ^ 23 + 2 ^ (125 - exponent_of b)
      → mantissa_of b + 2 ^ 23 ≤ h % 2 ^ 15 * 2 ^ (126 - exponent_of b) + 2 ^ (125 - exponent_of b)
      → Nearest b h
  tiny : exponent_of b + 10 < 112 → h % 2 ^ 15 ≡ 0 → Nearest b h

-- What is not refused keeps its sign, is finite, and is within half a unit in the last place of the
-- number.
pub fp16_from_float32-some :
    (b h : ℕ)
    → fp16_from_float32 b ≡ some h
    → (h / 2 ^ 15 ≡ b / 2 ^ 31 % 2) × (h % 2 ^ 15 < 31 * 2 ^ 10) × Nearest b h
unfolding fp16_from_float32
fp16_from_float32-some b h k =
    let e = exponent_of b in
    let split : b % 2 ^ 31 ≡ e * 2 ^ 23 + mantissa_of b = omega arith in
    elim (Bool-cases (leb (31 + 112) e)) [
      | inl large ↦ let never : none ≡ some h = rw large at k in cc
      | inr finite ↦ elim (Bool-cases (ltb (e + 10) 112)) [
        | inl below ↦
            let zero_h : some (sign_of b) ≡ some h = rw finite at (rw below at k) in
            let is_h : sign_of b ≡ h = cc in
            (omega arith, omega arith, tiny (ground arith) (omega arith))
        | inr more ↦ elim (Bool-cases (leb e 112)) [
          | inl small ↦
              let (sign, fits, above, under) =
                from_small_lem (b / 2 ^ 31 % 2) e (mantissa_of b) h (omega arith) (ground arith)
                  (ground arith) (omega arith) (rw finite at (rw more at (rw small at k))) in
              (sign, fits, subnormal (ground arith) (ground arith) above under)
          | inr large_enough ↦
              let (sign, fits, above, below) =
                from_normal_lem (b / 2 ^ 31 % 2) e (mantissa_of b) h (omega arith) (ground arith)
                  (omega arith) (rw finite at (rw more at (rw large_enough at k))) in
              (sign, fits, normal (ground arith) (omega arith) (omega arith))
        ]
      ]
    ]
