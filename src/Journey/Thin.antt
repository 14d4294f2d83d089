-- ===== src/Journey/Thin.antt =====
-- Thinning in `Assemble`: the earliest point is kept, and each later one that is far enough in time
-- from the last kept point.
pub mod Spacing
use roadbook.Prelude.{ℕ, suc, Bool, true, false, List, [], ◌∷◌, if◌then◌else◌}
use roadbook.Floats.{Float}
use roadbook.Times.{time_sub, seconds}
use roadbook.Journey.Types.{Params, TimedPoint, PointSource, source_trace, source_raw}

module _ {F : Type 0} ⦃fl : Float F⦄ where
  open fl use {le}

  abbrev pub is_spaced : Params F → TimedPoint F → TimedPoint F → Bool
  is_spaced p last pt = le p.thin_spacing_seconds (seconds (time_sub pt.time last.time))

  -- The loop behind the last kept point.
  thin_from : Params F → TimedPoint F → List (TimedPoint F) → List (TimedPoint F)
  thin_from p last [] = []
  thin_from p last (pt ∷ pts) =
      let kept = pt ∷ thin_from p pt pts in
      let passed = thin_from p last pts in if is_spaced p last pt then kept else passed

  unfoldable pub thin : Params F → List (TimedPoint F) → List (TimedPoint F)
  unfolding thin_from
  thin p [] = []
  thin p (pt ∷ pts) = pt ∷ thin_from p pt pts

abbrev is_trace : PointSource → Bool
is_trace source_trace = true
is_trace source_raw = false

-- How many kept points come from the trace, and how many from the raw positions.
unfoldable pub count_kept : {F : Type 0} → List (TimedPoint F) → ℕ × ℕ
count_kept [] = (0, 0)
count_kept (k ∷ kept) =
    let (traces, raws) = count_kept kept in
    if is_trace k.source then (suc traces, raws) else (traces, suc raws)
