-- ===== src/Tests/Samples.antt =====
-- Test data: two places on a flat Earth, a week of times, and what a phone recorded.
use Prim.Native.String.{String}
use roadbook.Prelude.{ℕ, ◌*◌, List, [], ◌∷◌, none, some}
use roadbook.Prelude.Int.{ℤ, pos}
use roadbook.Floats.Whole.{whole}
use roadbook.Times.{Time, hour_ns}
use roadbook.Domain.{LatLng, Visit, PathPoint, Observations}
use roadbook.Detect.Params
use roadbook.Detect.Params.{default_params, default_match_params}
use roadbook.Detect.Match.{SpanRef, Anchor}
use roadbook.Journey.Types.{TimedPoint, source_trace}
use roadbook.Journey.Types

abbrev pub hour : ℕ → Time
hour n = record { instant = n * hour_ns; offset = pos 0 }

abbrev pub home : LatLng ℤ
home = record { lat = pos 2; lon = pos 2 }

abbrev pub away : LatLng ℤ
away = record { lat = pos 4; lon = pos 2 }

abbrev pub match_params : Params.MatchParams ℤ
match_params = default_match_params

abbrev pub detect_params : Params.Params ℤ
detect_params = default_params

abbrev pub journey_params : Types.Params ℤ
journey_params = Types.default_params

-- Two candidates over the same days, and two decisions for the second place.
abbrev pub candidate : ℕ → ℕ → ℕ → LatLng ℤ → SpanRef ℤ
candidate id from to dest = record { id = id; start = hour from; end = hour to; dest = dest }

abbrev pub decision : ℕ → ℕ → ℕ → LatLng ℤ → Anchor ℤ
decision id from to dest = record {
  id = id;
  start = hour from;
  end = hour to;
  dest = dest;
  created_at = hour 900;
}

abbrev pub candidates : List (SpanRef ℤ)
candidates = candidate 11 10 50 away ∷ candidate 12 40 90 away ∷ []

abbrev pub decisions : List (Anchor ℤ)
decisions = decision 21 12 80 away ∷ decision 22 12 80 home ∷ []

abbrev pub visit : ℕ → ℕ → LatLng ℤ → String → Visit ℤ
visit from to loc meaning = record {
  start = hour from;
  end = hour to;
  loc = some loc;
  semantic_type = meaning;
}

abbrev pub visits : List (Visit ℤ)
visits =
    visit 1 8 home "INFERRED_HOME"
    ∷ visit 30 33 away "UNKNOWN"
    ∷ visit 60 70 home "INFERRED_HOME"
    ∷ []

abbrev pub trace : List (PathPoint ℤ)
trace =
    record { time = hour 28; loc = some away }
    ∷ record { time = hour 28; loc = none }
    ∷ record { time = hour 29; loc = some away }
    ∷ record { time = hour 40; loc = some (record { lat = pos 0; lon = pos 0 }) }
    ∷ []

abbrev pub observations : Observations ℤ
observations = record { visits = visits; activities = []; points = trace; raw_positions = [] }

abbrev pub point : ℕ → LatLng ℤ → TimedPoint ℤ
point n loc = record { time = hour n; loc = loc; source = source_trace }

-- A flight of some 12,700 km in 20 hours, a day at the other end, and the way back.
abbrev pub stream : List (TimedPoint ℤ)
stream = point 1 home ∷ point 21 away ∷ point 22 away ∷ point 60 home ∷ []
