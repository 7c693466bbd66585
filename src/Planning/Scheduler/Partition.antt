-- ===== src/Planning/Scheduler/Partition.antt =====
-- `_allocate_ranges`: the ranges of the phases tile the calendar, whatever `round` returns.
use dext.Base.{ℕ, suc, ◌+◌, ◌-◌, ◌≤◌, ◌<◌, ◌≡◌, refl, ap, List, [], ◌∷◌, arith, length, ok}
use dext.Base.Floats.{Floats}
use dext.Planning.Types.{Date, PhaseTemplate}
use dext.Planning.Scheduler.Ranges.{total_weight_from, share, allocate_from, allocate_ranges}

-- The ranges follow one another without a gap from `start` to `end`, and none is empty.
abbrev pub Tiles : Date → Date → List (Date × Date) → Type 0
Tiles start end [] = start ≡ end + 1
Tiles start end ((first, last) ∷ rest) =
    (first ≡ start) × (first ≤ last) × Tiles (last + 1) end rest

module _ (fl : Floats) where
  open fl use {Float, of_ℕ}

  share_bounds :
      (total : ℕ) (weight : Float) (remaining left : ℕ) (t : PhaseTemplate Float)
      → left < remaining
      → (1 ≤ share fl total weight remaining left t)
        × (share fl total weight remaining left t + left ≤ remaining)
  unfolding share
  share_bounds total weight remaining left t h = omega arith

  allocate_from-Tiles :
      (total : ℕ) (weight : Float) (start end remaining : ℕ) (t : PhaseTemplate Float)
      (rest : List (PhaseTemplate Float))
      → length rest < remaining
      → start + remaining ≡ end + 1
      → Tiles start end (allocate_from fl total weight start remaining (t ∷ rest))
        × (length (allocate_from fl total weight start remaining (t ∷ rest)) ≡ suc (length rest))
  unfolding allocate_from
  allocate_from-Tiles total weight start end remaining t [] h e = omega arith
  allocate_from-Tiles total weight start end remaining t (u ∷ rest) h e =
      let days : ℕ = share fl total weight remaining (suc (length rest)) t in
      let bounds = share_bounds total weight remaining (suc (length rest)) t h in
      let (tiles, len) =
        allocate_from-Tiles total weight (start + days - 1 + 1) end (remaining - days) u rest
          (omega (arith, bounds)) (omega (arith, bounds)) in
      ((refl, omega (arith, bounds), tiles), ap suc len)

  -- With a day for each phase the ranges are one for each template and tile the calendar from
  -- `start` to `end`, for every `round` and every weight.
  pub allocate_ranges-Tiles :
      (start end : Date) (t : PhaseTemplate Float) (rest : List (PhaseTemplate Float))
      → start + length rest ≤ end
      → (ranges : List (Date × Date)) × (allocate_ranges fl start end (t ∷ rest) ≡ ok ranges)
        × Tiles start end ranges
        × (length ranges ≡ suc (length rest))
  unfolding allocate_ranges
  allocate_ranges-Tiles start end t rest h =
      let days : ℕ = end + 1 - start in
      let weight : Float = total_weight_from fl (of_ℕ 0) (t ∷ rest) in
      let (tiles, len) =
        allocate_from-Tiles days weight start end days t rest (omega arith) (omega arith) in
      (allocate_from fl days weight start days (t ∷ rest), ground arith, tiles, len)
