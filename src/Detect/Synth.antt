-- ===== src/Detect/Synth.antt =====
-- internal/detect/synth.go: stay-point visits from photo fixes. The time of the open stay's last
-- member is `end`; a fix without a place never reaches the sweep.
use text.Mathlib.Text.{◌==◌ as str_eq}
use roadbook.Prelude.{
  ℕ, suc, Bool, true, false, ◌||◌, List, [], ◌∷◌, ◌++◌, Option, none, some, flat_map, if◌then◌else◌,
}
use roadbook.Prelude.Sort.{sort_stable}
use roadbook.Floats.{Float}
use roadbook.Times.{Time, before, after, time_sub, minutes}
use roadbook.Domain.{LatLng, Visit, RawPosition, source_photo}
use roadbook.Geo.{haversine_m}
use roadbook.Detect.Params.{Params, SynthParams}
use roadbook.Detect.PyPort.{civil_date}
use roadbook.Detect.Bases.{Base, BaseEvidence, cluster_bases}

-- A fix with the place that it was found to have.
pub record Fix (F : Type 0) : Type 0 where
  pub time : Time
  pub loc : LatLng F

module _ {F : Type 0} where
  abbrev has_loc : Option (LatLng F) → Bool
  has_loc none = false
  has_loc (some _) = true

  unfoldable pub photo_fixes : List (RawPosition F) → List (RawPosition F)
  photo_fixes [] = []
  photo_fixes (rp ∷ raws) =
      let rest = photo_fixes raws in
      if str_eq rp.source source_photo then (if has_loc rp.loc then rp ∷ rest else rest) else rest

  abbrev fix_of : RawPosition F → List (Fix F)
  fix_of rp = elim rp.loc [ none ↦ [] | some loc ↦ record { time = rp.time; loc = loc } ∷ [] ]

  abbrev pub earlier_fix : Fix F → Fix F → Bool
  earlier_fix a b = before a.time b.time

  unfoldable pub sorted_fixes : List (RawPosition F) → List (Fix F)
  sorted_fixes fixes = sort_stable earlier_fix (flat_map fix_of fixes)

  -- The synthetic visits that start before `r`, then `r`, then what `later` makes of the others.
  merge_one : Visit F → (List (Visit F) → List (Visit F)) → List (Visit F) → List (Visit F)
  merge_one r later [] = r ∷ later []
  merge_one r later (s ∷ synth) =
      let rest = merge_one r later synth in
      if before s.start r.start then s ∷ rest else r ∷ later (s ∷ synth)

  -- Two visit lists that are sorted by start, merged; the real visit goes first in a tie.
  unfoldable pub merge_visits_by_start : List (Visit F) → List (Visit F) → List (Visit F)
  unfolding merge_one
  merge_visits_by_start [] synth = synth
  merge_visits_by_start (r ∷ real) synth = merge_one r (merge_visits_by_start real) synth

pub record OpenStay (F : Type 0) : Type 0 where
  pub sum_lat : F
  pub sum_lon : F
  pub n : ℕ
  pub start : Time
  pub end : Time

module _ {F : Type 0} ⦃fl : Float F⦄ where
  open fl use {of_ℕ, add, div, lt, le}

  abbrev pub centroid : OpenStay F → LatLng F
  centroid s = record { lat = div s.sum_lat (of_ℕ s.n); lon = div s.sum_lon (of_ℕ s.n) }

  -- `closeStay`: a stay that lasts long enough becomes a visit with no meaning.
  close_stay : SynthParams F → OpenStay F → List (Visit F)
  close_stay p s =
      if le p.stay_min_min (minutes (time_sub s.end s.start))
      then record { start = s.start; end = s.end; loc = some (centroid s); semantic_type = "" } ∷ []
      else []

  -- Whether a fix ends the open stay: a long silence, or a place too far from the centroid.
  ends_stay : SynthParams F → OpenStay F → Fix F → Bool
  ends_stay p s f =
      lt p.stay_max_gap_min (minutes (time_sub f.time s.end))
      || lt p.stay_radius_m (haversine_m (centroid s) f.loc)

  extend_stay : OpenStay F → Fix F → OpenStay F
  extend_stay s f = record {
    sum_lat = add s.sum_lat f.loc.lat;
    sum_lon = add s.sum_lon f.loc.lon;
    n = suc s.n;
    start = s.start;
    end = if after f.time s.end then f.time else s.end;
  }

  new_stay : Fix F → OpenStay F
  new_stay f = record { sum_lat = of_ℕ 0; sum_lon = of_ℕ 0; n = 0; start = f.time; end = f.time }

  -- The rest of the sweep with a stay open.
  sweep : SynthParams F → OpenStay F → List (Fix F) → List (Visit F)
  unfolding close_stay ends_stay extend_stay new_stay
  sweep p s [] = close_stay p s
  sweep p s (f ∷ fixes) =
      let goes_on = sweep p (extend_stay s f) fixes in
      let starts_anew = sweep p (extend_stay (new_stay f) f) fixes in
      if ends_stay p s f then close_stay p s ++ starts_anew else goes_on

  sweep_all : SynthParams F → List (Fix F) → List (Visit F)
  unfolding sweep
  sweep_all p [] = []
  sweep_all p (f ∷ fixes) = sweep p (extend_stay (new_stay f) f) fixes

  unfoldable pub synthesize_stays : List (RawPosition F) → SynthParams F → List (Visit F)
  unfolding sweep_all sorted_fixes
  synthesize_stays fixes p = sweep_all p (sorted_fixes fixes)

  -- The evidence of one synthetic stay.
  abbrev pub stay_evidence : Visit F → List (BaseEvidence F)
  stay_evidence s = elim s.loc [
    | none ↦ []
    | some loc ↦ record { date = civil_date s.start; loc = loc } ∷ []
  ]

  unfoldable pub derive_synthetic_bases : List (Visit F) → Params F → Option (List (Base F))
  derive_synthetic_bases stays p =
      cluster_bases (flat_map stay_evidence stays) p.bases p.synth.home_min_days
