-- ===== src/Domain.antt =====
-- internal/domain/domain.go: the types that the parsers emit and the rest of the program exchanges.
-- A `*LatLng` that may be nil is an `Option`.
use Prim.Native.String.{String}
use roadbook.Prelude.{List, Option}
use roadbook.Times.{Time}

pub record LatLng (F : Type 0) : Type 0 where
  pub lat : F
  pub lon : F

pub record Visit (F : Type 0) : Type 0 where
  pub start : Time
  pub end : Time
  pub loc : Option (LatLng F)
  pub semantic_type : String

pub record Activity (F : Type 0) : Type 0 where
  pub start : Time
  pub end : Time
  pub from : Option (LatLng F)
  pub to : Option (LatLng F)
  pub distance_m : F
  pub mode : String

pub record PathPoint (F : Type 0) : Type 0 where
  pub time : Time
  pub loc : Option (LatLng F)

pub record RawPosition (F : Type 0) : Type 0 where
  pub time : Time
  pub loc : Option (LatLng F)
  pub accuracy_m : F
  pub source : String

abbrev pub source_photo : String
source_photo = "PHOTO"

pub record Observations (F : Type 0) : Type 0 where
  pub visits : List (Visit F)
  pub activities : List (Activity F)
  pub points : List (PathPoint F)
  pub raw_positions : List (RawPosition F)
