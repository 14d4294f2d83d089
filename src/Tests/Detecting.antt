-- ===== src/Tests/Detecting.antt =====
-- The theorems about detection at small inputs.
use mathlib.Core.List.{flat_map}
use roadbook.Prelude.Sort.{IsSorted}
use roadbook.Detect.Observed.{Obs, earlier, flatten, reject_outliers}
use roadbook.Detect.Observed.Located.{IsObserved}
use roadbook.Detect.Observed.Cleaned.{Cleans, reject_outliers-flatten}
use roadbook.Prelude.{◌≡◌, refl, List, [], ◌∷◌, none, some, keep, not, ◌&&◌, arith, ◌↔◌, Memᴰ}
use roadbook.Prelude.Int.{ℤ, pos, ◌+ℤ◌, ◌*ℤ◌}
use roadbook.Prelude.Sort.{sort_stable}
use roadbook.Floats.Whole.{whole}
use roadbook.Domain.{Visit}
use roadbook.Times.{Time, before, after}
use roadbook.Geo.{haversine_m}
use roadbook.Detect.PyPort.{bisect_left, bisect_right}
use roadbook.Detect.Match.{ranks_before, chosen_pairs, match_decisions}
use roadbook.Detect.Match.Greedy.{Blocks, IsMatching}
use roadbook.Detect.Match.Stable.{
  chosen_pairs-IsProduced, IsProduced, pair_at, IsCompatible, chosen_pairs-IsMatching,
  chosen_pairs-Blocks,
}
use roadbook.Detect.Spans.{find_spans}
use roadbook.Detect.Spans.Runs.{
  InSpan, IsSeparated, FarAt, find_spans-covers, find_spans-IsSeparated,
}
use roadbook.Detect.Run.{run, window}
use roadbook.Detect.Run.Window.{window-eq-keep}
use roadbook.Detect.Bases.{cell_of, home_evidence}
use roadbook.Detect.Synth.{sorted_fixes, synthesize_stays, photo_fixes}
use roadbook.Detect.Run.{all_visits}
use roadbook.Detect.Run.Total.{IsDetected, IsNumeric, run-IsDetected}
use roadbook.Tests.Samples.{
  hour, away, match_params, detect_params, candidate, candidates, decision, decisions, visits,
  observations,
}

first-IsCompatible : IsCompatible match_params (candidate 11 10 50 away) (decision 21 12 80 away)
unfolding haversine_m ◌+ℤ◌ ◌*ℤ◌
first-IsCompatible = record { overlaps = refl; is_near = refl }

chosen_pairs-Blocks_example :
    Blocks
      (chosen_pairs candidates decisions match_params)
      (pair_at 0 (candidate 11 10 50 away) 0 (decision 21 12 80 away))
chosen_pairs-Blocks_example =
    chosen_pairs-Blocks candidates decisions match_params 0 0 (candidate 11 10 50 away)
      (decision 21 12 80 away) refl refl first-IsCompatible

chosen_pairs-IsMatching_example : IsMatching (chosen_pairs candidates decisions match_params)
chosen_pairs-IsMatching_example = chosen_pairs-IsMatching candidates decisions match_params

-- The longer overlap wins, although its candidate starts later.
match_decisions_run : match_decisions candidates decisions match_params ≡ (12, 21) ∷ []
unfolding match_decisions haversine_m ◌+ℤ◌ ◌*ℤ◌ sort_stable ranks_before
match_decisions_run = refl

abbrev distances : List ℤ
distances = pos 1 ∷ pos 30_000 ∷ pos 40_000 ∷ pos 2 ∷ pos 26_000 ∷ []

find_spans-covers_example :
    InSpan 2 (find_spans distances (pos 25_000)) ↔ FarAt (pos 25_000) 2 distances
find_spans-covers_example = find_spans-covers (pos 25_000) distances 2

find_spans-IsSeparated_example : IsSeparated 0 (find_spans distances (pos 25_000))
find_spans-IsSeparated_example = find_spans-IsSeparated (pos 25_000) distances

numeric : IsNumeric detect_params observations
unfolding cell_of home_evidence all_visits synthesize_stays photo_fixes flat_map sort_stable
    sorted_fixes ◌+ℤ◌ ◌*ℤ◌
numeric = record { own = (refl, (refl, tt)); synthetic = tt }

run-IsDetected_example : IsDetected detect_params (run observations detect_params)
run-IsDetected_example = run-IsDetected detect_params observations numeric

second_pair :
    Memᴰ
      (pair_at 1 (candidate 12 40 90 away) 0 (decision 21 12 80 away))
      (chosen_pairs candidates decisions match_params)
unfolding chosen_pairs haversine_m ◌+ℤ◌ ◌*ℤ◌ sort_stable ranks_before
second_pair = Memᴰ.head refl

chosen_pairs-IsProduced_example :
    IsProduced match_params candidates decisions
      (pair_at 1 (candidate 12 40 90 away) 0 (decision 21 12 80 away))
chosen_pairs-IsProduced_example =
    chosen_pairs-IsProduced candidates decisions match_params
      (pair_at 1 (candidate 12 40 90 away) 0 (decision 21 12 80 away)) second_pair

abbrev starts : List Time
starts = hour 1 ∷ hour 5 ∷ hour 9 ∷ []

bisect_run : (bisect_left starts (hour 5) ≡ some 1) × (bisect_right starts (hour 5) ≡ some 2)
unfolding bisect_left bisect_right
bisect_run = (refl, refl)

window-eq-keep_example :
    window (λ (v : Visit ℤ). v.start) (hour 30) (hour 62) visits
    ≡ some (keep (λ v. not (before v.start (hour 30)) && not (after v.start (hour 62))) visits)
window-eq-keep_example =
    window-eq-keep (λ (v : Visit ℤ). v.start) (hour 30) (hour 62) visits (omega arith)

reject_outliers-flatten_example :
    let all = flatten visits [] observations.points [] in
    let cleaned = reject_outliers all detect_params in
    IsSorted earlier all
    × ((ob : Obs ℤ) → Memᴰ ob all ↔ IsObserved visits [] observations.points [] ob)
    × Cleans detect_params none all cleaned.0 cleaned.1
reject_outliers-flatten_example =
    reject_outliers-flatten detect_params visits [] observations.points []
