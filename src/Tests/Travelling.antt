-- ===== src/Tests/Travelling.antt =====
-- The theorems about journeys at small inputs.
use roadbook.Prelude.{◌≡◌, [], ◌∷◌, some, length}
use roadbook.Prelude.Int.{pos}
use roadbook.Floats.Whole.{whole}
use roadbook.Journey.Types.{merged_points}
use roadbook.Journey.Thin.{thin}
use roadbook.Journey.Thin.Spacing.{IsSpaced, thin-IsSpaced}
use roadbook.Journey.Legs.{split_legs}
use roadbook.Journey.Legs.Partition.{
  IsAlternating, first_point, observed_points, split_legs-IsAlternating,
}
use roadbook.Journey.Assemble.{kept_points, assemble}
use roadbook.Journey.Assemble.Accounting.{assemble-observed_points}
use roadbook.Journey.Place.{place_photo}
use roadbook.Journey.Place.Placed.{IsAnswer, place_photo-assemble}
use roadbook.Tests.Samples.{hour, home, away, journey_params, observations, point, stream}

split_legs-IsAlternating_example :
    IsAlternating journey_params (split_legs journey_params stream)
    × (first_point (split_legs journey_params stream) ≡ some (point 1 home))
split_legs-IsAlternating_example =
    split_legs-IsAlternating journey_params (point 1 home)
      (point 21 away ∷ point 22 away ∷ point 60 home ∷ [])

assemble-observed_points_example :
    (observed_points (assemble observations (hour 20) (hour 50) journey_params).legs
      ≡ kept_points observations (hour 20) (hour 50) journey_params)
    × (length (observed_points (assemble observations (hour 20) (hour 50) journey_params).legs)
        ≡ merged_points (assemble observations (hour 20) (hour 50) journey_params))
assemble-observed_points_example =
    assemble-observed_points observations (hour 20) (hour 50) journey_params

place_photo-assemble_example :
    IsAnswer (pos 1000) (hour 29) home (assemble observations (hour 20) (hour 50) journey_params) (
      place_photo
        (assemble observations (hour 20) (hour 50) journey_params)
        (hour 29)
        home
        (pos 1000))
place_photo-assemble_example =
    place_photo-assemble observations (hour 20) (hour 50) journey_params (pos 1000) (hour 29) home

thin-IsSpaced_example : IsSpaced journey_params (thin journey_params stream)
thin-IsSpaced_example = thin-IsSpaced journey_params stream
