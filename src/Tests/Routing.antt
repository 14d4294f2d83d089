-- ===== src/Tests/Routing.antt =====
-- The theorems about the routing seam at small inputs.
use roadbook.Prelude.{List, ◌≡◌, refl, [], ◌∷◌, Option, some, All, false}
use roadbook.Prelude.Int.{ℤ, pos}
use roadbook.Floats.Whole.{whole}
use roadbook.Journey.Types.{Journey, gap_unknown}
use roadbook.Journey.Legs.{gap_leg}
use roadbook.Journey.Assemble.{assemble}
use roadbook.Route.{Key, Cached, status_routed, key_for, keys_from, unknown_keys, is_unknown, apply}
use roadbook.Route.Keys.{IsDistinct, IsCollected, unknown_keys-assemble}
use roadbook.Route.Gaps.{IsApplied, apply-assemble, apply_of_IsAnswered}
use roadbook.Tests.Samples.{hour, home, away, journey_params, observations, point}

abbrev by_road : Cached ℤ
by_road = record {
  status = status_routed;
  points = home ∷ away ∷ [];
  distance_m = pos 5000;
  duration_s = pos 600;
}

-- Every question has the same answer.
abbrev lookup : Key → Option (Cached ℤ)
lookup k = some by_road

abbrev drive : Journey ℤ
drive = record (assemble observations (hour 20) (hour 50) journey_params) {
  legs =
      record (gap_leg (point 1 home) (point 21 away) journey_params) { gap_kind = gap_unknown }
      ∷ [];
}

apply-assemble_example :
    (j' : Journey ℤ) × (apply
        (assemble observations (hour 20) (hour 50) journey_params)
        "car"
        lookup
      ≡ some j')
    × IsApplied "car" lookup (assemble observations (hour 20) (hour 50) journey_params) j'
apply-assemble_example = apply-assemble "car" lookup observations (hour 20) (hour 50) journey_params

apply_of_IsAnswered_example :
    (j' : Journey ℤ) × (apply drive "car" lookup ≡ some j')
    × All (λ m. is_unknown m.kind m.gap_kind ≡ false) j'.legs
    × (j'.unknown_km ≡ whole.of_ℕ 0)
unfolding unknown_keys keys_from gap_leg
apply_of_IsAnswered_example =
    apply_of_IsAnswered "car" lookup drive (key_for home away "car" ∷ []) refl ((by_road, refl), tt)

unknown_keys-assemble_example :
    let j = assemble observations (hour 20) (hour 50) journey_params in
    (keys : List Key) × (unknown_keys j "car" ≡ some keys)
    × IsDistinct keys
    × All (IsCollected "car" keys) j.legs
unknown_keys-assemble_example =
    unknown_keys-assemble "car" observations (hour 20) (hour 50) journey_params
