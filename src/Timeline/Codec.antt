-- ===== src/Timeline/Codec.antt =====
-- What internal/timeline/parse.go takes from the standard library, as an interface: encoding/json's
-- decoding of a value into a struct (`none` is a type mismatch), time.Parse, strings.TrimSpace and
-- strconv.ParseFloat. The structs are those of the source, with raw JSON as bytes.
use Prim.Native.String.{String}
use roadbook.Prelude.{ℕ, List, Option}
use roadbook.Times.{Time}
use roadbook.Timeline.Stream.{Token}

pub record RawVisit : Type 0 where
  pub place_location : List ℕ
  pub semantic_type : String

pub record RawActivity (F : Type 0) : Type 0 where
  pub start : List ℕ
  pub end : List ℕ
  pub distance_meters : F
  pub mode : String

pub record RawPoint : Type 0 where
  pub point : List ℕ
  pub time : String

pub record RawSegment (F : Type 0) : Type 0 where
  pub start_time : String
  pub end_time : String
  pub visit : Option RawVisit
  pub activity : Option (RawActivity F)
  pub timeline_path : Option (List RawPoint)

pub record RawFix (F : Type 0) : Type 0 where
  pub lat_lng : List ℕ
  pub accuracy_meters : F
  pub source : String
  pub timestamp : String

pub record Codec (F : Type 0) : Type 0 where
  pub segment : List Token → Option (RawSegment F)
  -- The position of a raw signal, if it has one.
  pub signal : List Token → Option (Option (RawFix F))
  pub time : String → Option Time
  pub json_string : List ℕ → Option (List ℕ)
  -- The `latLng` of an object, empty if it has none.
  pub json_lat_lng : List ℕ → Option (List ℕ)
  pub trim_space : List ℕ → List ℕ
  pub float : List ℕ → Option F
