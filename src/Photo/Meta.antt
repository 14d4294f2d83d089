-- ===== src/Photo/Meta.antt =====
-- internal/photo/photo.go: what is known of a photo, and its capture time. `time.Date` is a parameter,
-- as the nanoseconds to a wall-clock reading in UTC.
pub mod Offset
pub mod Merged
use roadbook.Prelude.{
  ℕ, suc, ◌+◌, ◌-◌, ◌*◌, ◌/◌, Bool, true, false, Option, none, some, ◌&&◌, ◌||◌, if◌then◌else◌,
}
use roadbook.Prelude.Int.{ℤ, pos, negsuc, pos_part, neg_part, sub_ℕ, ltb_ℤ, ◌+ℤ◌, ◌*ℤ◌}
use roadbook.Floats.{Float}
use roadbook.Times.{Time, second_ns, time_sub}
use roadbook.Domain.{LatLng}
use roadbook.Store.Tables.{Text}

pub data PosSource : Type 0 where
  pos_exif pos_sidecar pos_none : PosSource

pub data TimeSource : Type 0 where
  time_gps time_exif_offset time_sidecar time_exif_local time_none : TimeSource

pub record CivilTime : Type 0 where
  pub year : ℤ
  pub month : ℤ
  pub day : ℤ
  pub hour : ℤ
  pub min : ℤ
  pub sec : ℤ

pub record Meta (F : Type 0) : Type 0 where
  pub position : Option (LatLng F)
  pub pos_source : PosSource
  pub gps_time : Option Time
  pub wall : Option CivilTime
  pub wall_offset_sec : Option ℤ
  pub sidecar_time : Option Time
  pub orientation : ℕ

pub record Sidecar (F : Type 0) : Type 0 where
  pub title : Text
  pub taken_time : Option Time
  pub position : Option (LatLng F)

pub record ResolvedTime : Type 0 where
  pub time : Time
  pub offset_sec : ℤ
  pub source : TimeSource

abbrev pub offset_round : ℕ
offset_round = 900

abbrev pub offset_max : ℕ
offset_max = 50_400

abbrev pub sign : ℤ → ℤ
sign (pos n) = pos 1
sign (negsuc n) = negsuc 0

-- The quotient of ints, which is rounded towards zero.
abbrev pub quot : ℤ → ℕ → ℤ
quot (pos n) d = pos (n / d)
quot (negsuc n) d = sub_ℕ 0 (suc n / d)

-- `((sec + offsetRound/2*sign(sec)) / offsetRound) * offsetRound`.
unfoldable pub round_offset : ℤ → ℤ
unfolding ◌+ℤ◌ ◌*ℤ◌
round_offset sec = quot (sec +ℤ pos (offset_round / 2) *ℤ sign sec) offset_round *ℤ pos offset_round

abbrev pub within_max : ℤ → Option ℤ
within_max rounded =
    if ltb_ℤ rounded (sub_ℕ 0 offset_max) || ltb_ℤ (pos offset_max) rounded
    then none
    else some rounded

module _ (date : CivilTime → ℕ) where
  -- `In`.
  abbrev pub in_offset : CivilTime → ℤ → Time
  in_offset c off = record {
    instant = date c + neg_part off * second_ns - pos_part off * second_ns;
    offset = off;
  }

  -- The wall reading less the instant, in whole seconds.
  unfoldable pub clock_difference : CivilTime → Time → ℤ
  clock_difference wall t = quot (time_sub (in_offset wall (pos 0)) t) second_ns

  unfoldable pub derive_offset : CivilTime → Time → Option ℤ
  unfolding clock_difference round_offset
  derive_offset wall t = within_max (round_offset (clock_difference wall t))

  abbrev pub told_offset : Option ℤ → Option ℤ → ℤ
  told_offset (some off) fallback = off
  told_offset none (some off) = off
  told_offset none none = pos 0

  abbrev pub derived_offset : Option ℤ → Option ℤ → Option ℤ → ℤ
  derived_offset (some off) told fallback = off
  derived_offset none told fallback = told_offset told fallback

  -- `displayOffset`.
  abbrev pub display_offset : Option CivilTime → Option ℤ → Option ℤ → Time → ℤ
  display_offset none told fallback t = told_offset told fallback
  display_offset (some wall) told fallback t = derived_offset (derive_offset wall t) told fallback

  abbrev pub by_wall : Option CivilTime → Option ℤ → Option ResolvedTime
  by_wall none fallback = none
  by_wall (some wall) none = none
  by_wall (some wall) (some off) =
      some (record { time = in_offset wall off; offset_sec = off; source = time_exif_local })

  abbrev pub by_sidecar : Option CivilTime → Option ℤ → Option ℤ → Option Time → Option ResolvedTime
  by_sidecar wall told fallback none = by_wall wall fallback
  by_sidecar wall told fallback (some t) =
      some (record {
        time = t;
        offset_sec = display_offset wall told fallback t;
        source = time_sidecar;
      })

  abbrev pub by_offset : Option CivilTime → Option ℤ → Option ℤ → Option Time → Option ResolvedTime
  by_offset (some wall) (some off) fallback t =
      some (record { time = in_offset wall off; offset_sec = off; source = time_exif_offset })
  by_offset (some wall) none fallback t = by_sidecar (some wall) none fallback t
  by_offset none told fallback t = by_sidecar none told fallback t

  abbrev pub by_gps :
      Option Time → Option CivilTime → Option ℤ → Option ℤ → Option Time → Option ResolvedTime
  by_gps none wall told fallback t = by_offset wall told fallback t
  by_gps (some gps) wall told fallback t =
      some (record {
        time = gps;
        offset_sec = display_offset wall told fallback gps;
        source = time_gps;
      })

  -- `ResolveTime`, with the fallback offset if there is one.
  unfoldable pub resolve_time : {F : Type 0} → Meta F → Option ℤ → Option ResolvedTime
  unfolding derive_offset
  resolve_time m fallback = by_gps m.gps_time m.wall m.wall_offset_sec fallback m.sidecar_time

module _ {F : Type 0} where
  abbrev pub merge_position : Option (LatLng F) → Option (LatLng F) → Meta F → Meta F
  merge_position (some p) other m = m
  merge_position none none m = m
  merge_position none (some p) m = record m { position = some p; pos_source = pos_sidecar }

  abbrev pub merge_time : Option Time → Meta F → Meta F
  merge_time none m = m
  merge_time (some t) m = record m { sidecar_time = some t }

  unfoldable pub merge_sidecar : Meta F → Sidecar F → Meta F
  merge_sidecar m s = merge_time s.taken_time (merge_position m.position s.position m)

module _ {F : Type 0} ⦃fl : Float F⦄ where
  open fl use {of_ℕ, neg, lt, eq}

  unfoldable pub valid_pos : F → F → Option (LatLng F)
  valid_pos lat lon =
      if eq lat (of_ℕ 0) && eq lon (of_ℕ 0)
      then none
      else (if lt lat (neg (of_ℕ 90))
            || lt (of_ℕ 90) lat
            || lt lon (neg (of_ℕ 180))
            || lt (of_ℕ 180) lon
          then none
          else some (record { lat = lat; lon = lon }))
