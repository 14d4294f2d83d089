-- ===== src/Timeline/Segments.antt =====
-- `processSegment`, the body of `parseRawSignals` and `parseLoc` of internal/timeline/parse.go.
pub mod Counts
use text.Mathlib.Text.{◌==◌ as str_eq}
use roadbook.Prelude.{
  ℕ, ◌+◌, ◌&&◌, List, [], ◌∷◌, ◌++◌, Option, none, some, ◌==◌, foldl, if◌then◌else◌,
}
use roadbook.Times.{Time}
use roadbook.Domain.{LatLng, Observations}
use roadbook.Timeline.Codec.{Codec, RawVisit, RawActivity, RawPoint, RawSegment, RawFix}

pub record Stats : Type 0 where
  pub visits : ℕ
  pub activities : ℕ
  pub points : ℕ
  pub raw_positions : ℕ
  pub skipped : ℕ

-- What one parse has seen so far.
pub record Seen (F : Type 0) : Type 0 where
  pub obs : Observations F
  pub st : Stats

abbrev pub skip : {F : Type 0} → Seen F → Seen F
skip s = record s { st = record s.st { skipped = s.st.skipped + 1 } }

-- `strings.ReplaceAll(s, "°", "")`: the sign is the bytes 194 and 176.
unfoldable pub drop_degrees : List ℕ → List ℕ
drop_degrees (a ∷ b ∷ bytes) =
    let rest = drop_degrees bytes in
    let next = drop_degrees (b ∷ bytes) in if a == 194 && b == 176 then rest else a ∷ next
drop_degrees bytes = bytes

abbrev to_head : ℕ → List (List ℕ) → List (List ℕ)
to_head b [] = (b ∷ []) ∷ []
to_head b (part ∷ parts) = (b ∷ part) ∷ parts

-- `strings.Split(s, ",")`.
unfoldable pub split_commas : List ℕ → List (List ℕ)
split_commas [] = [] ∷ []
split_commas (b ∷ bytes) =
    let rest = split_commas bytes in if b == 44 then [] ∷ rest else to_head b rest

module _ {F : Type 0} (codec : Codec F) where
  open codec use {time, json_string, json_lat_lng, trim_space, float}

  abbrev both : Option F → Option F → Option (LatLng F)
  both (some lat) (some lon) = some (record { lat = lat; lon = lon })
  both _ _ = none

  abbrev loc_of_parts : List (List ℕ) → Option (LatLng F)
  loc_of_parts (a ∷ b ∷ []) = both (float (trim_space a)) (float (trim_space b))
  loc_of_parts _ = none

  -- A string, or else an object with a string; anything else is no place.
  loc_text : List ℕ → Option (List ℕ)
  loc_text raw = elim (json_string raw) [
    | some s ↦ some s
    | none ↦ elim (json_lat_lng raw) [ none ↦ none | some [] ↦ none | some (b ∷ s) ↦ some (b ∷ s) ]
  ]

  unfoldable pub parse_loc : List ℕ → Option (LatLng F)
  unfolding loc_text drop_degrees split_commas
  parse_loc [] = none
  parse_loc (b ∷ raw) = elim (loc_text (b ∷ raw)) [
    | none ↦ none
    | some s ↦ loc_of_parts (split_commas (drop_degrees s))
  ]

  abbrev put_visit : Seen F → RawVisit → Option Time → Option Time → Seen F
  put_visit s v (some start) (some end) = record s {
    obs = record s.obs {
      visits =
          s.obs.visits
          ++ (record {
            start = start;
            end = end;
            loc = parse_loc v.place_location;
            semantic_type = v.semantic_type;
          }
              ∷ []);
    };
    st = record s.st { visits = s.st.visits + 1 };
  }
  put_visit s v _ _ = skip s

  abbrev put_activity : Seen F → RawActivity F → Option Time → Option Time → Seen F
  put_activity s a (some start) (some end) = record s {
    obs = record s.obs {
      activities =
          s.obs.activities
          ++ (record {
            start = start;
            end = end;
            from = parse_loc a.start;
            to = parse_loc a.end;
            distance_m = a.distance_meters;
            mode = a.mode;
          }
              ∷ []);
    };
    st = record s.st { activities = s.st.activities + 1 };
  }
  put_activity s a _ _ = skip s

  abbrev put_point_at : Seen F → RawPoint → Option Time → Seen F
  put_point_at s pt none = skip s
  put_point_at s pt (some t) = record s {
    obs = record s.obs {
      points = s.obs.points ++ (record { time = t; loc = parse_loc pt.point } ∷ []);
    };
    st = record s.st { points = s.st.points + 1 };
  }

  put_point : Seen F → RawPoint → Seen F
  put_point s pt = if str_eq pt.time "" then skip s else put_point_at s pt (time pt.time)

  abbrev put_path : Seen F → Option (List RawPoint) → Seen F
  unfolding put_point
  put_path s none = s
  put_path s (some pts) = foldl put_point s pts

  -- A segment of another kind changes nothing.
  unfoldable pub process_segment : Seen F → RawSegment F → Seen F
  unfolding put_point
  process_segment s seg = elim seg.visit [
    | some v ↦ put_visit s v (time seg.start_time) (time seg.end_time)
    | none ↦ elim seg.activity [
      | some a ↦ put_activity s a (time seg.start_time) (time seg.end_time)
      | none ↦ put_path s seg.timeline_path
    ]
  ]

  abbrev put_fix_at : Seen F → RawFix F → Option Time → Seen F
  put_fix_at s p none = skip s
  put_fix_at s p (some t) = record s {
    obs = record s.obs {
      raw_positions =
          s.obs.raw_positions
          ++ (record {
            time = t;
            loc = parse_loc p.lat_lng;
            accuracy_m = p.accuracy_meters;
            source = p.source;
          }
              ∷ []);
    };
    st = record s.st { raw_positions = s.st.raw_positions + 1 };
  }

  -- A signal without a position changes nothing.
  unfoldable pub process_signal : Seen F → Option (RawFix F) → Seen F
  process_signal s none = s
  process_signal s (some p) = put_fix_at s p (time p.timestamp)
