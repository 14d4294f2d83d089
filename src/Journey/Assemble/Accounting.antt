-- ===== src/Journey/Assemble/Accounting.antt =====
-- About the counts of `Assemble` (internal/journey/journey.go), and the stream under its legs.
use roadbook.Prelude.{
  suc, ◌+◌, ◌≤◌, ◌≡◌, refl, ap, List, [], ◌∷◌, ◌++◌, length, length-append, arith,
}
use roadbook.Prelude.Sort.{length-sort_stable}
use roadbook.Floats.{Float}
use roadbook.Times.{Time}
use roadbook.Domain.{Observations}
use roadbook.Journey.Types.{Params, merged_points}
use roadbook.Journey.Select.{
  Verdict, skipped, null_island, inaccurate, selected, is_selected, count_verdicts, selected_points,
  point_before, judge_traces, judge_raws, select_points,
}
use roadbook.Journey.Teleports.{reject_teleports}
use roadbook.Journey.Teleports.Safety.{length-reject_teleports}
use roadbook.Journey.Thin.{thin}
use roadbook.Journey.Thin.Spacing.{length-thin-le, count_kept-length}
use roadbook.Journey.Legs.Partition.{observed_points, observed_points-split_legs}
use roadbook.Journey.Assemble.{kept_points, assemble}

length-selected_points :
    {F : Type 0} (vs : List (Verdict F))
    → length (selected_points vs) ≡ count_verdicts is_selected vs
length-selected_points [] = refl
length-selected_points (skipped ∷ vs) = length-selected_points vs
length-selected_points (null_island ∷ vs) = length-selected_points vs
length-selected_points (inaccurate ∷ vs) = length-selected_points vs
length-selected_points (selected p ∷ vs) = ap suc (length-selected_points vs)

module _ {F : Type 0} ⦃fl : Float F⦄ (obs : Observations F) (win_start win_end : Time)
    (p : Params F) where
  length-select_points :
      length (select_points obs p win_start win_end)
      ≡ count_verdicts is_selected (judge_traces obs win_start win_end)
        + count_verdicts is_selected (judge_raws obs p win_start win_end)
  unfolding select_points
  length-select_points =
      let traces = judge_traces obs win_start win_end in
      let raws = judge_raws obs p win_start win_end in
      omega (
        arith,
        length-sort_stable point_before (selected_points traces ++ selected_points raws),
        length-append (selected_points traces) (selected_points raws),
        length-selected_points traces,
        length-selected_points raws,
      )

  -- The observed legs of the journey hold as many points as it reports to have merged, and they are
  -- the thinned stream in its order.
  pub assemble-observed_points :
      (observed_points (assemble obs win_start win_end p).legs
        ≡ kept_points obs win_start win_end p)
      × (length (observed_points (assemble obs win_start win_end p).legs)
          ≡ merged_points (assemble obs win_start win_end p))
  unfolding assemble merged_points
  assemble-observed_points =
      let same = observed_points-split_legs p (kept_points obs win_start win_end p) in
      (same, omega (arith, ap length same, count_kept-length (kept_points obs win_start win_end p)))

  -- What is merged and what is rejected for speed never passes what was selected in the window.
  assemble_accounts :
      merged_points (assemble obs win_start win_end p)
        + (assemble obs win_start win_end p).rejected_speed
      ≤ (assemble obs win_start win_end p).trace_points_in_window
        + (assemble obs win_start win_end p).raw_points_in_window
  unfolding assemble merged_points
  assemble_accounts =
      let pts = select_points obs p win_start win_end in
      omega (
        arith,
        length-select_points,
        length-reject_teleports p pts,
        length-thin-le p (reject_teleports pts p).0,
        count_kept-length (thin p (reject_teleports pts p).0),
      )
