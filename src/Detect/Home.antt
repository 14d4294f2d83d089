-- ===== src/Detect/Home.antt =====
-- `homeDistM` of internal/detect/detect.go. `least` is the variable `min`, -1 before any base.
use roadbook.Prelude.{ℕ, Bool, ◌||◌, List, [], ◌∷◌, ltb, if◌then◌else◌}
use roadbook.Floats.{Float}
use roadbook.Times.{Time}
use roadbook.Domain.{LatLng}
use roadbook.Geo.{haversine_m}
use roadbook.Detect.Bases.{Base}
use roadbook.Detect.PyPort.{civil_date}

module _ {F : Type 0} ⦃fl : Float F⦄ where
  open fl use {of_ℕ, lt, le, neg}

  -- The base is outside its era at the civil day `d`.
  abbrev pub is_inactive : ℕ → Base F → Bool
  is_inactive d b = ltb d b.from || ltb b.to d

  closer : F → F → F
  closer m least = if lt least (of_ℕ 0) || lt m least then m else least

  nearest_active : ℕ → LatLng F → F → List (Base F) → F
  unfolding closer
  nearest_active d loc least [] = least
  nearest_active d loc least (b ∷ bases) =
      nearest_active d loc
        (if is_inactive d b then least else closer (haversine_m b.center loc) least) bases

  nearest_any : LatLng F → F → List (Base F) → F
  unfolding closer
  nearest_any loc least [] = least
  nearest_any loc least (b ∷ bases) =
      nearest_any loc (closer (haversine_m b.center loc) least) bases

  unfoldable pub home_dist_m : List (Base F) → Time → LatLng F → F
  unfolding nearest_active nearest_any
  home_dist_m bases t loc =
      let least = nearest_active (civil_date t) loc (neg (of_ℕ 1)) bases in
      if le (of_ℕ 0) least then least else nearest_any loc least bases
