-- ===== src/Photo/Sidecar.antt =====
-- internal/photo/sidecar.go. json.Unmarshal, strings.ToLower and strconv.ParseInt are parameters. The
-- times are those of which the seconds since the year 1 are an int64.
pub mod Names
use roadbook.Prelude.{
  ℕ, suc, ◌+◌, ◌-◌, ◌*◌, Bool, true, false, not, List, [], ◌∷◌, Option, none, some, ◌&&◌, ◌||◌,
  ◌==◌, ltb, leb, length, take, drop, if◌then◌else◌,
}
use roadbook.Prelude.Int.{ℤ, pos, negsuc}
use roadbook.Floats.{Float}
use roadbook.Times.{Time, second_ns}
use roadbook.Domain.{LatLng}
use roadbook.Store.Tables.{Text}
use roadbook.Store.Keyed.{or_row}
use roadbook.Photo.Bytes.{same_bytes, cut}
use roadbook.Photo.Meta.{Sidecar, valid_pos}

-- The JSON of Takeout: the timestamps are texts, a position is a latitude and a longitude.
pub record RawSidecar (F : Type 0) : Type 0 where
  pub title : Text
  pub photo_taken_time : Option Text
  pub creation_time : Option Text
  pub geo_data : Option (LatLng F)
  pub geo_data_exif : Option (LatLng F)

pub data ParsedSidecar (F : Type 0) : Type 0 where
  malformed not_sidecar : ParsedSidecar F
  is_sidecar : Sidecar F → ParsedSidecar F

abbrev pub unix_epoch : ℕ
unix_epoch = 62_135_596_800

abbrev pub epoch_at : Option ℤ → Option Time
epoch_at none = none
epoch_at (some (negsuc n)) = none
epoch_at (some (pos n)) =
    if n == 0
    then none
    else some (record { instant = (unix_epoch + n) * second_ns; offset = pos 0 })

abbrev pub epoch_time : (Text → Option ℤ) → Option Text → Option Time
epoch_time parse_int none = none
epoch_time parse_int (some t) = epoch_at (parse_int t)

abbrev pub is_absent {ℓ} : {A : Type ℓ} → Option A → Bool
is_absent none = true
is_absent (some x) = false

module _ {F : Type 0} ⦃fl : Float F⦄ where
  abbrev pub geo_pos : Option (LatLng F) → Option (LatLng F)
  geo_pos none = none
  geo_pos (some p) = valid_pos p.lat p.lon

  abbrev pub read_sidecar : (Text → Option ℤ) → Option (RawSidecar F) → ParsedSidecar F
  read_sidecar parse_int none = malformed
  read_sidecar parse_int (some raw) =
      if same_bytes raw.title [] && is_absent raw.photo_taken_time && is_absent raw.geo_data
      then not_sidecar
      else is_sidecar (record {
        title = raw.title;
        taken_time =
            or_row (epoch_time parse_int raw.photo_taken_time)
              (epoch_time parse_int raw.creation_time);
        position = or_row (geo_pos raw.geo_data) (geo_pos raw.geo_data_exif);
      })

  unfoldable pub parse_sidecar :
      (List ℕ → Option (RawSidecar F)) → (Text → Option ℤ) → List ℕ → ParsedSidecar F
  unfolding valid_pos
  parse_sidecar unmarshal parse_int bytes = read_sidecar parse_int (unmarshal bytes)

-- ".json" and ".suppl".
abbrev pub json_suffix : Text
json_suffix = 46 ∷ 106 ∷ 115 ∷ 111 ∷ 110 ∷ []

abbrev pub suppl : Text
suppl = 46 ∷ 115 ∷ 117 ∷ 112 ∷ 112 ∷ 108 ∷ []

abbrev pub has_suffix : Text → Text → Bool
has_suffix s suffix =
    leb (length suffix) (length s) && same_bytes (drop (length s - length suffix) s) suffix

abbrev pub has_prefix : Text → Text → Bool
has_prefix s prefix = same_bytes (take (length prefix) s) prefix

abbrev pub last_here : Bool → ℕ → Option ℕ → Option ℕ
last_here here i (some j) = some j
last_here here i none = if here then some i else none

-- `strings.LastIndex`, of a text that is not empty, with the index of the first byte.
unfoldable pub last_index : Text → Text → ℕ → Option ℕ
last_index sub [] i = none
last_index sub (b ∷ bytes) i =
    last_here (has_prefix (b ∷ bytes) sub) i (last_index sub bytes (suc i))

unfoldable pub has_dot : Text → Bool
has_dot [] = false
has_dot (b ∷ bytes) = b == 46 || has_dot bytes

abbrev pub name_of_base : Text → Text
name_of_base base = if not (same_bytes base []) && has_dot base then base else []

abbrev pub named : Option Text → Option Text
named none = none
named (some base) = some (name_of_base base)

abbrev pub cut_marker : Text → Option ℕ → Option Text
cut_marker base none = some base
cut_marker base (some idx) = if ltb 0 idx then cut base 0 idx else some base

-- `filename[:len(filename)-len(".json")]`.
abbrev pub without_json : Text → Option Text
without_json name = if ltb (length name) 5 then none else cut name 0 (length name - 5)

module _ (to_lower : Text → Text) where
  abbrev pub without_marker : Option Text → Option Text
  without_marker none = none
  without_marker (some base) = cut_marker base (last_index suppl (to_lower base) 0)

  -- `SidecarPairName`; none is a panic, of a slice out of its bounds.
  unfoldable pub sidecar_pair_name : Text → Option Text
  unfolding last_index has_dot cut
  sidecar_pair_name name =
      if not (has_suffix (to_lower name) json_suffix)
      then some []
      else named (without_marker (without_json name))
