-- ===== src/LogStream/Jump/Head.antt =====
-- What `jump` finds, when no other client writes meanwhile and no probe fails.
use cloudy_neigh.Prelude.{
  ℕ, zero, suc, ◌+◌, ◌-◌, ◌*◌, ◌/◌, ◌%◌, ◌^◌, ◌≤◌, ◌<◌, ◌≡◌, refl, ap, ◌∙◌, Bool, true, false, ltb,
  ◌==◌, if◌then◌else◌, arith, ok, ◌⊎◌, inl, inr, Bool-cases, Result, ==_iff,
}
use native.Mathlib.Nat.{pow-suc}
use cloudy_neigh.ObjectStore.World.{World, Io, attempt, ◌>>=◌}
use cloudy_neigh.LogStream.Jump.{
  max_uint64, Phase, at_head, between, is_over, grow, halve, jump, on_probe, pick, narrow, on_next,
}

module _ (probe : ℕ → Io Bool) (w : World) (there : ℕ → Bool)
    (steady : (n : ℕ) → probe n w ≡ (ok (there n), w)) where
  -- The number is there, and the next one is not, unless it is the last of all.
  abbrev pub IsHead : ℕ → Type 0
  IsHead n = (there n ≡ true) × ((n ≡ max_uint64) ⊎ (there (n + 1) ≡ false))

  probe_bind : {A : Type 0} (n : ℕ) (f : Bool → Io A) → (probe n >>= f) w ≡ f (there n) w
  unfolding attempt
  probe_bind n f = rw (steady n) refl

  -- The search ends with a number that is there, `lo` or more, and the next one is not.
  abbrev pub Finds : ℕ → Result (ℕ × ℕ) × World → Type 0
  Finds lo r = (n : ℕ) × (k : ℕ) × (r ≡ (ok (n, k), w)) × (lo ≤ n) × (n ≤ max_uint64) × IsHead n

  Finds-mono : (lo lo' : ℕ) (r : Result (ℕ × ℕ) × World) → lo ≤ lo' → Finds lo' r → Finds lo r
  Finds-mono lo lo' r h (n, k, e, l, m, hd) = (n, k, e, omega arith, m, hd)

  halve_lem :
      (fuel low high probes : ℕ)
      → low < high
      → high ≤ max_uint64
      → high - low ≤ 2 ^ fuel
      → there low ≡ true
      → there high ≡ false
      → Finds low (halve probe fuel low high probes w)
  unfolding halve
  halve_lem zero low high probes h m b t f =
      let next : low + 1 ≡ high = omega arith in
      (low, probes, ground arith, omega arith, omega arith, (t, inr (ap there next ∙ f)))
  halve_lem (suc fuel) low high probes h m b t f = elim (Bool-cases (ltb (low + 1) high)) [
    | inl more ↦
        let mid = low + (high - low) / 2 in
        let lo_lt : low < mid = ground arith in
        let lt_hi : mid < high = ground arith in
        rw more (
          rw (probe_bind mid (pick probe (λ l h. halve probe fuel l h (probes + 1)) low mid high))
            (elim (Bool-cases (there mid)) [
              | inl hit ↦ rw hit (
                  Finds-mono low mid _ (omega arith)
                    (halve_lem fuel mid high (probes + 1) lt_hi m (omega arith) hit f))
              | inr miss ↦
                  rw miss
                    (halve_lem fuel low mid (probes + 1) lo_lt (omega arith) (omega arith) t miss)
            ]))
    | inr done ↦
        let next : low + 1 ≡ high = ground arith in
        rw done (low, probes, refl, omega arith, omega arith, (t, inr (ap there next ∙ f)))
  ]

  -- What the first loop may end with.
  abbrev IsPhase : ℕ → Phase → Type 0
  IsPhase lo (at_head n k) = (lo ≤ n) × (n ≡ max_uint64) × (there n ≡ true)
  IsPhase lo (between low high k) =
      (lo ≤ low) × (low < high) × (high ≤ max_uint64) × (there low ≡ true) × (there high ≡ false)

  IsPhase-mono : (lo lo' : ℕ) (p : Phase) → lo ≤ lo' → IsPhase lo' p → IsPhase lo p
  IsPhase-mono lo lo' (at_head n k) h (l, m, t) = (omega arith, m, t)
  IsPhase-mono lo lo' (between low high k) h (l, o, m, t, f) = (omega arith, o, m, t, f)

  -- The next number to probe, and the next step.
  abbrev next_high : ℕ → ℕ → ℕ
  next_high step high = if is_over step high then max_uint64 else (high + step * 2) % 2 ^ 64

  abbrev next_step : ℕ → ℕ → ℕ
  next_step step high = if is_over step high then step else step * 2 % 2 ^ 64

  next_high_bounds :
      (step high : ℕ)
      → high ≤ max_uint64
      → 0 < step
      → (high ≤ next_high step high) × (next_high step high ≤ max_uint64)
  next_high_bounds step high h lo = ground arith

  -- If the next number is not the last of all, then the step was doubled.
  next_step_lem :
      (step high : ℕ)
      → (next_high step high == max_uint64) ≡ false
      → high ≤ max_uint64
      → (next_step step high ≡ step * 2) × (step * 2 < 2 ^ 64)
  next_step_lem step high e h = ground arith

  apart : (m n : ℕ) → m ≤ n → there m ≡ true → there n ≡ false → m < n
  apart m n h t f = elim (Bool-cases (m == n)) [
    | inl same ↦ cc (t, f, ap there ((==_iff m n).0 same))
    | inr other ↦ ground arith
  ]

  attempt_ok :
      {A B : Type 0} (m : Io A) (f : A → Io B) (a : A) → m w ≡ (ok a, w) → (m >>= f) w ≡ f a w
  unfolding attempt
  attempt_ok m f a e = rw e refl

  narrow_lem : (lo : ℕ) (p : Phase) → IsPhase lo p → Finds lo (narrow probe p w)
  narrow_lem lo (at_head n k) (l, m, t) = (n, k, refl, l, omega arith, (t, inl m))
  narrow_lem lo (between low high k) (l, o, m, t, f) =
      Finds-mono lo low _ l (halve_lem 64 low high k o m (omega arith) t f)

  grow_lem :
      (fuel step high probes : ℕ)
      → high ≤ max_uint64
      → 0 < step
      → step < 2 ^ 64
      → 2 ^ 64 ≤ step * 2 ^ fuel
      → there high ≡ true
      → (p : Phase) × (grow probe fuel step high high probes w ≡ (ok p, w)) × IsPhase high p
  unfolding grow
  grow_lem zero step high probes h lo hi b t = absurd (omega arith)
  grow_lem (suc fuel) step high probes h lo hi b t =
      let high' = next_high step high in
      let step' = next_step step high in
      let (up, top) = next_high_bounds step high h lo in
      rw
        (probe_bind high'
          (on_probe probe (λ h. grow probe fuel step' h h (probes + 1)) high high' (probes + 1)))
        (elim (Bool-cases (there high')) [
          | inr miss ↦ rw miss (
            between high high' (probes + 1),
            refl,
            (omega arith, apart high high' up t miss, top, t, miss),
          )
          | inl hit ↦ rw hit (elim (Bool-cases (high' == max_uint64)) [
            | inl last ↦ rw last (
              at_head high' (probes + 1),
              refl,
              (omega arith, (==_iff high' max_uint64).0 last, hit),
            )
            | inr more ↦
                let (doubled, small) = next_step_lem step high more h in
                let below : high' ≤ max_uint64 = top in
                let (p, e, i) =
                  grow_lem fuel step' high' (probes + 1) below (omega (arith, doubled))
                    (omega (arith, doubled))
                    (omega (
                      arith,
                      ap (λ (x : ℕ). x * 2 ^ fuel) doubled,
                      ap (λ (x : ℕ). step * x) (pow-suc 2 fuel),
                    ))
                    hit in
                rw more (p, e, IsPhase-mono high high' p (omega arith) i)
          ])
        ])

  -- When no probe fails and all answer steadily, `jump` from a number that is there ends, both
  -- loops within their fuel, at a number no smaller that is there and whose successor is not, or at
  -- the last of uint64.
  pub jump_lem : (lo : ℕ) → lo ≤ max_uint64 → there lo ≡ true → Finds lo (jump probe lo w)
  unfolding jump
  jump_lem lo h t = elim (Bool-cases (lo == max_uint64)) [
    | inl last ↦ rw last (lo, 0, refl, omega arith, h, (t, inl ((==_iff lo max_uint64).0 last)))
    | inr more ↦
        let below : lo < max_uint64 = ground arith in
        rw more (
          rw (probe_bind (lo + 1) (on_next probe lo)) (elim (Bool-cases (there (lo + 1))) [
            | inr miss ↦ rw miss (lo, 1, refl, omega arith, h, (t, inr miss))
            | inl hit ↦
                let (p, e, i) =
                  grow_lem 65 1 (lo + 1) 1 (omega arith) (omega arith) (omega arith) (omega arith)
                    hit in
                rw hit (
                  rw (attempt_ok (grow probe 65 1 (lo + 1) (lo + 1) 1) (narrow probe) p e)
                    (Finds-mono lo (lo + 1) _ (omega arith) (narrow_lem (lo + 1) p i)))
          ]))
  ]
