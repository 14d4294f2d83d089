-- ===== src/Detect/Observed.antt =====
-- `flatten` and `rejectOutliers` of internal/detect/detect.go: the time-ordered observations, and
-- the points that imply an impossible speed from both neighbours.
pub mod Located
pub mod Cleaned
use roadbook.Prelude.{
  ℕ, suc, ◌+◌, Bool, true, false, ◌&&◌, List, [], ◌∷◌, ◌++◌, Option, none, some, ltb, ◌==◌,
  flat_map, if◌then◌else◌,
}
use roadbook.Prelude.Int.{pos, abs}
use roadbook.Prelude.Sort.{sort_stable}
use roadbook.Floats.{Float}
use roadbook.Times.{Time, before, time_sub, saturate, hours}
use roadbook.Domain.{LatLng, Visit, Activity, PathPoint, RawPosition}
use roadbook.Geo.{haversine_m}
use roadbook.Detect.Params.{Params}

pub record Obs (F : Type 0) : Type 0 where
  pub start : Time
  pub end : Time
  pub loc : LatLng F

module _ {F : Type 0} where
  -- One observation if there is a place, none if not.
  abbrev pub located : Time → Time → Option (LatLng F) → List (Obs F)
  located start end none = []
  located start end (some loc) = record { start = start; end = end; loc = loc } ∷ []

  -- The observations in the order in which the source appends them.
  unfoldable pub observed :
      List (Visit F) → List (Activity F) → List (PathPoint F) → List (RawPosition F) → List (Obs F)
  observed visits acts pts photos =
      flat_map (λ v. located v.start v.end v.loc) visits
      ++ (flat_map (λ a. located a.start a.start a.from ++ located a.end a.end a.to) acts
          ++ (flat_map (λ p. located p.time p.time p.loc) pts
              ++ flat_map (λ r. located r.time r.time r.loc) photos))

  abbrev pub earlier : Obs F → Obs F → Bool
  earlier a b = before a.start b.start

  unfoldable pub flatten :
      List (Visit F) → List (Activity F) → List (PathPoint F) → List (RawPosition F) → List (Obs F)
  unfolding observed
  flatten visits acts pts photos = sort_stable earlier (observed visits acts pts photos)

abbrev pub to_count : Bool → ℕ
to_count b = if b then 1 else 0

module _ {F : Type 0} ⦃fl : Float F⦄ where
  open fl use {of_ℕ, div, lt, le}

  -- What one neighbour says: whether it is considered, and whether the leg to it is too fast.
  abbrev pub judge : Params F → Obs F → Option (Obs F) → Bool × Bool
  judge p a none = (false, false)
  judge p a (some b) =
      let dt_hrs = hours (saturate (pos (abs (time_sub b.start a.start)))) in
      let km = div (haversine_m a.loc b.loc) (of_ℕ 1000) in
      if le dt_hrs (of_ℕ 0) then (false, false) else (true, lt p.max_kmh (div km dt_hrs))

  -- `considered > 0 && fast == considered`
  unfoldable pub is_bad : Params F → Option (Obs F) → Obs F → Option (Obs F) → Bool
  is_bad p prev a next =
      let (seen_prev, fast_prev) = judge p a prev in
      let (seen_next, fast_next) = judge p a next in
      let considered = to_count seen_prev + to_count seen_next in
      ltb 0 considered && (to_count fast_prev + to_count fast_next == considered)

  abbrev pub head_of : List (Obs F) → Option (Obs F)
  head_of [] = none
  head_of (a ∷ rest) = some a

  -- The flags are computed against the original neighbours.
  bad_flags : Params F → Option (Obs F) → List (Obs F) → List Bool
  unfolding is_bad
  bad_flags p prev [] = []
  bad_flags p prev (a ∷ rest) = is_bad p prev a (head_of rest) ∷ bad_flags p (some a) rest

  drop_flagged : List Bool → List (Obs F) → List (Obs F) × ℕ
  drop_flagged (b ∷ bad) (a ∷ rest) =
      let (kept, dropped) = drop_flagged bad rest in
      if b then (kept, suc dropped) else (a ∷ kept, dropped)
  drop_flagged _ rest = (rest, 0)

  unfoldable pub reject_outliers : List (Obs F) → Params F → List (Obs F) × ℕ
  unfolding bad_flags drop_flagged
  reject_outliers all p = drop_flagged (bad_flags p none all) all
