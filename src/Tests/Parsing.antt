-- ===== src/Tests/Parsing.antt =====
-- The theorems about the parser of exports at a small document.
use text.Mathlib.Text.{◌==◌ as str_eq}
use roadbook.Prelude.{
  true, ◌≡◌, refl, List, [], ◌∷◌, ◌++◌, Option, none, some, foldl, if◌then◌else◌,
}
use roadbook.Prelude.Int.{ℤ, pos}
use roadbook.Timeline.Stream.{boolean, null, number, Token, string, early_end, got, skip_value}
use roadbook.Timeline.Stream.Values.{
  atom, word, array_of, nil, cons, tokens_of, at, skip_value-tokens_of,
}
use roadbook.Timeline.Codec.{Codec, RawSegment}
use roadbook.Timeline.Segments.Counts.{IsCounted}
use roadbook.Timeline.Parse.{no_seen, no_keys, parse_stream, unrecognised}
use roadbook.Timeline.Parse.Loops.{IsParsed, parse_stream-IsParsed}
use roadbook.Timeline.Parse.Documents.{
  Member, segments, signals, other, document, add_keys, read_member, parse_stream-document,
}
use roadbook.Tests.Samples.{hour}

-- A segment is a visit, written as a string: its time.
abbrev visit_at : List Token → Option (RawSegment ℤ)
visit_at (string s ∷ []) = some (record {
  start_time = s;
  end_time = s;
  visit = some (record { place_location = []; semantic_type = "HOME" });
  activity = none;
  timeline_path = none;
})
visit_at ts = none

abbrev codec : Codec ℤ
codec = record {
  segment = visit_at;
  signal = λ ts. some none;
  time = λ s. if str_eq s "one" then some (hour 1) else none;
  json_string = λ raw. some raw;
  json_lat_lng = λ raw. none;
  trim_space = λ s. s;
  float = λ s. some (pos 1);
}

-- One good visit, one with a bad time, one element of another type, and a value to be skipped.
abbrev members : List Member
members =
    other "version" (array_of (cons (atom (boolean true)) nil))
    ∷ segments (word "one" ∷ word "two" ∷ atom null ∷ [])
    ∷ signals (atom (number (53 ∷ [])) ∷ [])
    ∷ []

skip_value-tokens_of_example :
    skip_value
      (at (tokens_of (array_of (cons (atom (boolean true)) nil)) ++ (string "next" ∷ [])) early_end)
    ≡ got tt (at (string "next" ∷ []) early_end)
skip_value-tokens_of_example =
    skip_value-tokens_of (array_of (cons (atom (boolean true)) nil)) (string "next" ∷ []) early_end

parse_stream-IsParsed_example :
    IsParsed codec IsCounted (parse_stream codec (at (document members) early_end))
parse_stream-IsParsed_example = parse_stream-IsParsed codec (at (document members) early_end)

parse_stream-document_example :
    parse_stream codec (at (document members) early_end)
    ≡ some (
      foldl (read_member codec) no_seen members,
      if (add_keys no_keys members).found
          then none
          else some (unrecognised (add_keys no_keys members).names),
    )
parse_stream-document_example =
    parse_stream-document codec members early_end ((refl, refl), (tt, (tt, tt)))
