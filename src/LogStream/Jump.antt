-- ===== src/LogStream/Jump.antt =====
-- logstream/log.go, `jump`: the search for the head of a log by probes, with growing steps and then
-- by halves. The loops run on fuel: a step doubles 64 times at most, and a range of uint64 is halved
-- 64 times at most.
pub mod Head
use cloudy_neigh.Prelude.{
  ℕ, zero, suc, ◌+◌, ◌-◌, ◌*◌, ◌/◌, ◌%◌, ◌^◌, Bool, true, false, ltb, ◌==◌, if◌then◌else◌, Error,
  out_of_fuel,
}
use cloudy_neigh.ObjectStore.World.{Io, pure, raise, ◌>>=◌}

abbrev pub max_uint64 : ℕ
max_uint64 = 2 ^ 64 - 1

-- What the first loop ends with: the head, or a range in which it lies; and the number of probes.
pub data Phase : Type 0 where
  at_head : ℕ → ℕ → Phase
  between : ℕ → ℕ → ℕ → Phase

-- step > (math.MaxUint64-high)/2
abbrev pub is_over : ℕ → ℕ → Bool
is_over step high = ltb ((max_uint64 - high) / 2) step

module _ (probe : ℕ → Io Bool) where
  abbrev pub on_probe : (ℕ → Io Phase) → ℕ → ℕ → ℕ → Bool → Io Phase
  on_probe again low high probes false = pure (between low high probes)
  on_probe again low high probes true =
      if high == max_uint64 then pure (at_head high probes) else again high

  -- The first loop, from the fields `step`, `low`, `high` and `probes`.
  unfoldable pub grow : ℕ → ℕ → ℕ → ℕ → ℕ → Io Phase
  grow zero step low high probes = raise out_of_fuel
  grow (suc fuel) step low high probes =
      let over = is_over step high in
      let high' = if over then max_uint64 else (high + step * 2) % 2 ^ 64 in
      let step' = if over then step else step * 2 % 2 ^ 64 in
      let again = λ (h : ℕ). grow fuel step' h h (probes + 1) in
      probe high' >>= on_probe again low high' (probes + 1)

  abbrev pub pick : (ℕ → ℕ → Io (ℕ × ℕ)) → ℕ → ℕ → ℕ → Bool → Io (ℕ × ℕ)
  pick again low mid high true = again mid high
  pick again low mid high false = again low mid

  -- The second loop.
  unfoldable pub halve : ℕ → ℕ → ℕ → ℕ → Io (ℕ × ℕ)
  halve zero low high probes = if ltb (low + 1) high then raise out_of_fuel else pure (low, probes)
  halve (suc fuel) low high probes =
      let mid = low + (high - low) / 2 in
      let again = λ (l h : ℕ). halve fuel l h (probes + 1) in
      if ltb (low + 1) high then probe mid >>= pick again low mid high else pure (low, probes)

  abbrev pub narrow : Phase → Io (ℕ × ℕ)
  narrow (at_head head probes) = pure (head, probes)
  narrow (between low high probes) = halve 64 low high probes

  abbrev pub on_next : ℕ → Bool → Io (ℕ × ℕ)
  on_next lo false = pure (lo, 1)
  on_next lo true = grow 65 1 (lo + 1) (lo + 1) 1 >>= narrow

  -- The head of a log that has the number `lo`, and the number of probes.
  unfoldable pub jump : ℕ → Io (ℕ × ℕ)
  unfolding grow halve
  jump lo = if lo == max_uint64 then pure (lo, 0) else probe (lo + 1) >>= on_next lo
