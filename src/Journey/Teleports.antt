-- ===== src/Journey/Teleports.antt =====
-- `rejectTeleports` of internal/journey/journey.go. A cluster is the slice of the stream that its two
-- indices bound; it is never empty, so it is its first point and the others.
pub mod Safety
use roadbook.Prelude.{
  ℕ, ◌+◌, Bool, ◌&&◌, ◌||◌, List, [], ◌∷◌, ◌++◌, ltb, ◌==◌, length, if◌then◌else◌,
}
use roadbook.Floats.{Float}
use roadbook.Times.{time_sub, hours}
use roadbook.Geo.{haversine_m}
use roadbook.Journey.Types.{Params, TimedPoint, last_of}

pub record Cluster (F : Type 0) : Type 0 where
  pub first : TimedPoint F
  pub others : List (TimedPoint F)

module _ {F : Type 0} where
  abbrev pub members : Cluster F → List (TimedPoint F)
  members c = c.first ∷ c.others

  abbrev pub last_point : Cluster F → TimedPoint F
  last_point c = last_of c.first c.others

module _ {F : Type 0} ⦃fl : Float F⦄ where
  open fl use {of_ℕ, div, lt, le, eq, fmax, inf}

  -- The clusters of a stream whose open cluster begins with `first` and holds `others` besides.
  clusters_from :
      Params F → TimedPoint F → List (TimedPoint F) → List (TimedPoint F) → List (Cluster F)
  clusters_from p first others [] = record { first = first; others = others } ∷ []
  clusters_from p first others (q ∷ pts) =
      let closed = clusters_from p q [] pts in
      let grown = clusters_from p first (others ++ (q ∷ [])) pts in
      if lt p.cluster_radius_m (haversine_m first.loc q.loc)
      then record { first = first; others = others } ∷ closed
      else grown

  unfoldable pub clusters_of : Params F → List (TimedPoint F) → List (Cluster F)
  unfolding clusters_from
  clusters_of p [] = []
  clusters_of p (q ∷ pts) = clusters_from p q [] pts

  -- The implied speed, its duration floored at the stream's own resolution.
  unfoldable pub speed : Params F → TimedPoint F → TimedPoint F → F
  speed p a b =
      let km = div (haversine_m a.loc b.loc) (of_ℕ 1000) in
      let h = fmax (hours (time_sub b.time a.time)) (div p.thin_spacing_seconds (of_ℕ 3600)) in
      if le h (of_ℕ 0) then (if eq km (of_ℕ 0) then of_ℕ 0 else inf) else div km h

  -- An edge of the cluster is impossible, and its neighbours are plausible without it.
  unfoldable pub is_teleport : Params F → TimedPoint F → Cluster F → Cluster F → Bool
  is_teleport p entry c next =
      let impossible =
        lt p.max_speed_kmh (speed p entry c.first)
        || lt p.max_speed_kmh (speed p (last_point c) next.first) in
      impossible && le (speed p entry next.first) p.max_speed_kmh

  -- What is kept and how many points are dropped behind an accepted cluster that ends in `entry`.
  -- The last cluster is never judged.
  judge_clusters : Params F → TimedPoint F → List (Cluster F) → List (TimedPoint F) × ℕ
  judge_clusters p entry [] = ([], 0)
  judge_clusters p entry (c ∷ []) = (members c, 0)
  judge_clusters p entry (c ∷ next ∷ more) =
      let bad = is_teleport p entry c next in
      let (kept, dropped) = judge_clusters p (if bad then entry else last_point c) (next ∷ more) in
      if bad then (kept, length (members c) + dropped) else (members c ++ kept, dropped)

  judge_all : Params F → List (Cluster F) → List (TimedPoint F) × ℕ
  unfolding judge_clusters
  judge_all p [] = ([], 0)
  judge_all p (c ∷ cs) =
      let (kept, dropped) = judge_clusters p (last_point c) cs in (members c ++ kept, dropped)

  unfoldable pub reject_teleports : List (TimedPoint F) → Params F → List (TimedPoint F) × ℕ
  unfolding judge_all
  reject_teleports pts p =
      let (kept, dropped) = judge_all p (clusters_of p pts) in
      if le p.max_speed_kmh (of_ℕ 0) || ltb (length pts) 3
      then (pts, 0)
      else if dropped == 0
      then (pts, 0)
      else (kept, dropped)
