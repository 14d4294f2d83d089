-- ===== src/Journey/Select.antt =====
-- The selection of `Assemble`: which trace points and raw positions of the window enter the stream,
-- and the sort. A verdict is what the body of a selection loop does with one position.
use roadbook.Prelude.{
  ℕ, suc, Bool, true, false, ◌&&◌, not, List, [], ◌∷◌, ◌++◌, map, none, some, if◌then◌else◌,
}
use roadbook.Prelude.Sort.{sort_stable}
use roadbook.Floats.{Float}
use roadbook.Times.{Time, before, after, equal}
use roadbook.Domain.{LatLng, PathPoint, RawPosition, Observations}
use roadbook.Journey.Types.{Params, PointSource, source_trace, source_raw, TimedPoint}

pub data Verdict (F : Type 0) : Type 0 where
  skipped null_island inaccurate : Verdict F
  selected : TimedPoint F → Verdict F

abbrev trace_first : PointSource → PointSource → Bool
trace_first source_trace source_raw = true
trace_first _ _ = false

unfoldable pub in_window : Time → Time → Time → Bool
in_window win_start win_end t = not (before t win_start) && not (after t win_end)

module _ {F : Type 0} where
  abbrev pub is_null_island : Verdict F → Bool
  is_null_island null_island = true
  is_null_island _ = false

  abbrev pub is_inaccurate : Verdict F → Bool
  is_inaccurate inaccurate = true
  is_inaccurate _ = false

  abbrev pub is_selected : Verdict F → Bool
  is_selected (selected p) = true
  is_selected _ = false

  -- How many verdicts of a kind there are.
  abbrev pub count_verdicts : (Verdict F → Bool) → List (Verdict F) → ℕ
  count_verdicts kind [] = 0
  count_verdicts kind (v ∷ vs) = let n = count_verdicts kind vs in if kind v then suc n else n

  abbrev pub selected_points : List (Verdict F) → List (TimedPoint F)
  selected_points [] = []
  selected_points (selected p ∷ vs) = p ∷ selected_points vs
  selected_points (v ∷ vs) = selected_points vs

  unfoldable pub point_before : TimedPoint F → TimedPoint F → Bool
  point_before a b =
      if not (equal a.time b.time) then before a.time b.time else trace_first a.source b.source

module _ {F : Type 0} ⦃fl : Float F⦄ where
  open fl use {of_ℕ, lt, eq}

  at_null_island : LatLng F → Bool
  at_null_island loc = eq loc.lat (of_ℕ 0) && eq loc.lon (of_ℕ 0)

  judge_trace : Time → Time → PathPoint F → Verdict F
  unfolding at_null_island in_window
  judge_trace win_start win_end pp = elim pp.loc [
    | none ↦ skipped
    | some loc ↦
        if not (in_window win_start win_end pp.time)
        then skipped
        else if at_null_island loc
        then null_island
        else selected (record { time = pp.time; loc = loc; source = source_trace })
  ]

  judge_raw : Params F → Time → Time → RawPosition F → Verdict F
  unfolding at_null_island in_window
  judge_raw p win_start win_end rp = elim rp.loc [
    | none ↦ skipped
    | some loc ↦
        if not (in_window win_start win_end rp.time)
        then skipped
        else if at_null_island loc
        then null_island
        else if lt (of_ℕ 0) p.max_accuracy_m && lt p.max_accuracy_m rp.accuracy_m
        then inaccurate
        else selected (record { time = rp.time; loc = loc; source = source_raw })
  ]

  unfoldable pub judge_traces : Observations F → Time → Time → List (Verdict F)
  unfolding judge_trace
  judge_traces obs win_start win_end = map (judge_trace win_start win_end) obs.points

  unfoldable pub judge_raws : Observations F → Params F → Time → Time → List (Verdict F)
  unfolding judge_raw
  judge_raws obs p win_start win_end = map (judge_raw p win_start win_end) obs.raw_positions

  -- The selected points as one stream in time, trace before raw at equal times.
  unfoldable pub select_points : Observations F → Params F → Time → Time → List (TimedPoint F)
  unfolding judge_traces judge_raws point_before
  select_points obs p win_start win_end = sort_stable point_before (
      selected_points (judge_traces obs win_start win_end)
      ++ selected_points (judge_raws obs p win_start win_end))
