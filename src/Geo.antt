-- ===== src/Geo.antt =====
-- internal/geo/geo.go: spherical distances, over the operations of `Floats`.
use roadbook.Prelude.{List, [], ◌∷◌, if◌then◌else◌}
use roadbook.Floats.{Float, ratio}
use roadbook.Domain.{LatLng}

module _ {F : Type 0} ⦃fl : Float F⦄ where
  open fl use {
    of_ℕ, add, sub, mul, div, neg, lt, eq, fmin, fmax, inf, pi, sin, cos, asin, sqrt, hypot,
  }

  abbrev pub mean_earth_radius_m : F
  mean_earth_radius_m = ratio 63_710_088 10

  unfoldable pub haversine_m : LatLng F → LatLng F → F
  haversine_m a b =
      let p1 = div (mul a.lat pi) (of_ℕ 180) in
      let p2 = div (mul b.lat pi) (of_ℕ 180) in
      let dp = sub p2 p1 in
      let dl = div (mul (sub b.lon a.lon) pi) (of_ℕ 180) in
      let half_p = sin (div dp (of_ℕ 2)) in
      let half_l = sin (div dl (of_ℕ 2)) in
      let h = add (mul half_p half_p) (mul (mul (mul (cos p1) (cos p2)) half_l) half_l) in
      mul (mul (of_ℕ 2) mean_earth_radius_m) (asin (sqrt h))

  -- The segment is projected into metres around `p`, which sits at the origin.
  point_to_segment_m : LatLng F → LatLng F → LatLng F → F
  point_to_segment_m p a b =
      let rad = div pi (of_ℕ 180) in
      let cos_lat = cos (mul p.lat rad) in
      let ax = mul (mul (mul (sub a.lon p.lon) rad) cos_lat) mean_earth_radius_m in
      let ay = mul (mul (sub a.lat p.lat) rad) mean_earth_radius_m in
      let bx = mul (mul (mul (sub b.lon p.lon) rad) cos_lat) mean_earth_radius_m in
      let by = mul (mul (sub b.lat p.lat) rad) mean_earth_radius_m in
      let dx = sub bx ax in
      let dy = sub by ay in
      let len_sq = add (mul dx dx) (mul dy dy) in
      let t = fmax (of_ℕ 0) (fmin (of_ℕ 1) (div (neg (add (mul ax dx) (mul ay dy))) len_sq)) in
      if eq len_sq (of_ℕ 0) then hypot ax ay else hypot (add ax (mul t dx)) (add ay (mul t dy))

  -- The loop over the segments, with the least distance so far.
  closest : LatLng F → F → List (LatLng F) → F
  unfolding point_to_segment_m
  closest p least (a ∷ b ∷ rest) =
      let d = point_to_segment_m p a b in closest p (if lt d least then d else least) (b ∷ rest)
  closest p least _ = least

  unfoldable pub point_to_polyline_m : LatLng F → List (LatLng F) → F
  unfolding closest haversine_m
  point_to_polyline_m p (a ∷ []) = haversine_m p a
  point_to_polyline_m p line = closest p inf line
