-- ===== src/Detect/Candidates.antt =====
-- What `Run` and `topModes` of internal/detect/detect.go make of one span: its dwells, its destination,
-- its score and its modes, and the count of repeats.
use Prim.Native.String.{String}
use text.Mathlib.Text.{◌==◌ as str_eq}
use roadbook.Prelude.{
  ℕ, suc, ◌+◌, ◌-◌, Bool, true, false, ◌&&◌, ◌||◌, List, [], ◌∷◌, ◌++◌, foldl, none, some, ltb,
  ◌==◌, length, take, if◌then◌else◌,
}
use roadbook.Prelude.Int.{ℤ}
use roadbook.Prelude.Sort.{sort_stable}
use roadbook.Floats.{Float}
use roadbook.Times.{Time, time_sub, hours, minutes}
use roadbook.Domain.{LatLng, Visit, Activity}
use roadbook.Geo.{haversine_m}
use roadbook.Detect.Params.{Params}
use roadbook.Detect.PyPort.{py_round}
use roadbook.Detect.Score.{ScoreComponent, ScoreInput, score_candidate}
use roadbook.Detect.Bases.{Base}
use roadbook.Detect.Home.{home_dist_m}
use roadbook.Detect.Spans.{Span}

pub record ModeCount : Type 0 where
  pub mode : String
  pub n : ℕ

pub record Candidate (F : Type 0) : Type 0 where
  pub start : Time
  pub end : Time
  pub days : F
  pub dest_km : ℤ
  pub track_km : ℤ
  pub stops : ℕ
  pub dest : LatLng F
  pub modes : List ModeCount
  pub repeat : ℕ
  pub obs_count : ℕ
  pub start_truncated : Bool
  pub end_truncated : Bool
  pub score : F
  pub score_breakdown : List (ScoreComponent F)

pub record Dwell (F : Type 0) : Type 0 where
  pub dist_m : F
  pub loc : LatLng F
  pub hrs : F

-- `modeCounts[m]++` with `modeOrder`: the counts in the order of first sight.
unfoldable pub count_mode : List ModeCount → String → List ModeCount
count_mode [] m = record { mode = m; n = 1 } ∷ []
count_mode (c ∷ counts) m =
    let rest = count_mode counts m in
    if str_eq c.mode m then record { mode = c.mode; n = suc c.n } ∷ counts else c ∷ rest

abbrev pub more_often : ModeCount → ModeCount → Bool
more_often a b = ltb b.n a.n

unfoldable pub top_modes : List ModeCount → ℕ → List ModeCount
top_modes counts n =
    let out = sort_stable more_often counts in if ltb n (length out) then take n out else out

module _ {F : Type 0} ⦃fl : Float F⦄ where
  open fl use {of_ℕ, add, div, lt, le, eq, to_int}

  -- The dwells among some visits.
  unfoldable pub dwell_of : List (Base F) → Params F → Visit F → List (Dwell F)
  dwell_of bases p v = elim v.loc [
    | none ↦ []
    | some loc ↦
        if le p.min_dwell_min (minutes (time_sub v.end v.start))
        then record {
          dist_m = home_dist_m bases v.start loc;
          loc = loc;
          hrs = hours (time_sub v.end v.start);
        }
          ∷ []
        else []
  ]

  -- Python's `max` on (distance, [lat, lon]).
  pub farther : Dwell F → Dwell F → Dwell F
  farther best d =
      if lt best.dist_m d.dist_m
        || (eq d.dist_m best.dist_m
            && (lt best.loc.lat d.loc.lat
                || (eq d.loc.lat best.loc.lat && lt best.loc.lon d.loc.lon)))
      then d
      else best

  -- The tests that a span with this destination has to pass.
  unfoldable pub qualifies : Params F → Dwell F → Span → F → Bool
  qualifies p best sp dur_hrs =
      if le (div best.dist_m (of_ℕ 1000)) p.far_km
        || ltb (sp.e - sp.s + 1) p.min_obs
        || lt dur_hrs p.min_hrs
      then false
      else true

  track_m : List (Activity F) → F
  track_m acts = foldl (λ sum a. add sum a.distance_m) (of_ℕ 0) acts

  mode_counts : List (Activity F) → List ModeCount
  mode_counts acts =
      foldl (λ counts a. if str_eq a.mode "" then counts else count_mode counts a.mode) [] acts

  dest_dwell_hrs : Params F → Dwell F → List (Dwell F) → F
  dest_dwell_hrs p best dwells =
      foldl
        (λ sum d.
          if le (div (haversine_m best.loc d.loc) (of_ℕ 1000)) p.score.dest_radius_km
          then add sum d.hrs
          else sum)
        (of_ℕ 0) dwells

  score_inputs : Params F → Dwell F → F → ℕ → F → List (ScoreInput F)
  score_inputs p best dwell_hrs obs_count days =
      record {
        name = "distance_from_home";
        unit = "km";
        raw = div best.dist_m (of_ℕ 1000);
        known = true;
        w = p.score.weight_distance;
        full = p.score.distance_full_km;
      }
      ∷ record {
        name = "destination_dwell";
        unit = "h";
        raw = dwell_hrs;
        known = true;
        w = p.score.weight_dwell;
        full = p.score.dwell_full_hrs;
      }
      ∷ record {
        name = "observation_density";
        unit = "obs/day";
        raw = div (of_ℕ obs_count) days;
        known = lt (of_ℕ 0) days;
        w = p.score.weight_density;
        full = p.score.density_full_per_day;
      }
      ∷ record {
        name = "span_duration";
        unit = "days";
        raw = days;
        known = true;
        w = p.score.weight_duration;
        full = p.score.duration_full_days;
      }
      ∷ []

  -- The candidate of a span whose destination qualifies; `last` is `len(all) - 1`.
  candidate_of :
      Params F
      → (sp : Span) (t0 t1 : Time) (last : ℕ) (best : Dwell F) → List (Dwell F)
      → List (Activity F)
      → Candidate F
  unfolding track_m mode_counts dest_dwell_hrs score_inputs
  candidate_of p sp t0 t1 last best dwells acts =
      let dur_hrs = hours (time_sub t1 t0) in
      let days = div dur_hrs (of_ℕ 24) in
      let obs_count = sp.e - sp.s + 1 in
      let (score, breakdown) =
        score_candidate (score_inputs p best (dest_dwell_hrs p best dwells) obs_count days) in
      record {
        start = t0;
        end = t1;
        days = py_round days 1;
        dest_km = to_int (py_round (div best.dist_m (of_ℕ 1000)) 0);
        track_km = to_int (py_round (div (track_m acts) (of_ℕ 1000)) 0);
        stops = length dwells;
        dest = record { lat = py_round best.loc.lat 4; lon = py_round best.loc.lon 4 };
        modes = top_modes (mode_counts acts) 3;
        repeat = 0;
        obs_count = obs_count;
        start_truncated = sp.s == 0;
        end_truncated = sp.e == last;
        score = score;
        score_breakdown = breakdown;
      }

  -- What a span with these dwells and activities gives: no candidate, or one.
  unfoldable pub judge_span :
      Params F
      → (sp : Span) (t0 t1 : Time) (last : ℕ) → List (Dwell F)
      → List (Activity F)
      → List (Candidate F)
  unfolding farther candidate_of
  judge_span p sp t0 t1 last [] acts = []
  judge_span p sp t0 t1 last (d ∷ dwells) acts =
      let best = foldl farther d dwells in
      if qualifies p best sp (hours (time_sub t1 t0))
      then candidate_of p sp t0 t1 last best (d ∷ dwells) acts ∷ []
      else []

  -- How many of the earlier candidates lie within 60 km of `c`.
  near_earlier : List (Candidate F) → Candidate F → ℕ
  near_earlier [] c = 0
  near_earlier (e ∷ earlier) c =
      let n = near_earlier earlier c in
      if lt (haversine_m e.dest c.dest) (of_ℕ 60_000) then suc n else n

  unfoldable pub count_repeats : List (Candidate F) → List (Candidate F) → List (Candidate F)
  unfolding near_earlier
  count_repeats earlier [] = []
  count_repeats earlier (c ∷ cands) =
      record c { repeat = near_earlier earlier c } ∷ count_repeats (earlier ++ (c ∷ [])) cands
