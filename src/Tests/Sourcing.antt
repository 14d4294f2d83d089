-- ===== src/Tests/Sourcing.antt =====
-- The theorems about what a batch of photos becomes, at a small batch.
use roadbook.Prelude.{
  arith, ℕ, ◌+◌, ◌*◌, ◌≡◌, refl, true, false, List, [], ◌∷◌, ◌++◌, none, some, map,
}
use roadbook.Prelude.Int.{ℤ, pos, negsuc, ◌+ℤ◌, ◌*ℤ◌}
use roadbook.Floats.Whole.{whole}
use roadbook.Times.{second_ns, hour_ns}
use roadbook.Store.Tables.{Text}
use roadbook.Store.Keyed.{or_row}
use roadbook.Photo.Meta.{
  CivilTime, Meta, Sidecar, pos_none, derive_offset, clock_difference, resolve_time, merge_sidecar,
  round_offset,
}
use roadbook.Photo.Meta.Offset.{IsNearest, derive_offset-IsNearest}
use roadbook.Photo.Meta.Merged.{with_taken, merge_sidecar-resolve_time}
use roadbook.Photo.Bytes.{cut, same_bytes}
use roadbook.Photo.Sidecar.{sidecar_pair_name, json_suffix, suppl, last_index, has_dot}
use roadbook.Photo.Sidecar.Names.{IsAscii, lower_byte, IsPairName, sidecar_pair_name-IsPairName}
use roadbook.PhotoSource.{Scanned, resolve}
use roadbook.PhotoSource.Balance.{IsResolved, resolve-IsResolved}
use roadbook.Tests.Samples.{hour, away}

abbrev day_of : ℤ → ℕ
day_of (pos n) = n
day_of (negsuc n) = 0

-- A calendar of days.
abbrev date : CivilTime → ℕ
date c = day_of c.day * 24 * hour_ns + day_of c.hour * hour_ns + day_of c.sec * second_ns

abbrev reading : CivilTime
reading = record {
  year = pos 1;
  month = pos 1;
  day = pos 3;
  hour = pos 5;
  min = pos 0;
  sec = pos 7;
}

derived : derive_offset date reading (hour 72) ≡ some (pos 18_000)
unfolding derive_offset clock_difference round_offset ◌+ℤ◌ ◌*ℤ◌
derived = refl

derive_offset-IsNearest_example : IsNearest (clock_difference date reading (hour 72)) (pos 18_000)
derive_offset-IsNearest_example = derive_offset-IsNearest date reading (hour 72) derived

abbrev walled : Meta ℤ
walled = record {
  position = none;
  pos_source = pos_none;
  gps_time = none;
  wall = some reading;
  wall_offset_sec = none;
  sidecar_time = none;
  orientation = 1;
}

-- "A.JPG".
abbrev upper_name : Text
upper_name = 65 ∷ 46 ∷ 74 ∷ 80 ∷ 71 ∷ []

abbrev takeout : Sidecar ℤ
takeout = record { title = upper_name; taken_time = some (hour 72); position = some away }

merge_sidecar-resolve_time_example :
    (resolve_time date (merge_sidecar walled takeout) none
      ≡ with_taken date (some reading) none none (some (hour 72)) (resolve_time date walled none))
    × ((merge_sidecar walled takeout).position ≡ or_row none (some away))
merge_sidecar-resolve_time_example = merge_sidecar-resolve_time date walled takeout none

-- Lowering on ASCII texts.
abbrev lower : Text → Text
lower t = map lower_byte t

abbrev side_name : Text
side_name = upper_name ++ (suppl ++ json_suffix)

side_name-IsAscii : IsAscii side_name
unfolding IsAscii
side_name-IsAscii = (
  omega arith,
  (
    omega arith,
    (
      omega arith,
      (
        omega arith,
        (
          omega arith,
          (
            omega arith,
            (
              omega arith,
              (
                omega arith,
                (
                  omega arith,
                  (
                    omega arith,
                    (
                      omega arith,
                      (omega arith, (omega arith, (omega arith, (omega arith, (omega arith, tt))))),
                    ),
                  ),
                ),
              ),
            ),
          ),
        ),
      ),
    ),
  ),
)

sidecar_pair_name-IsPairName_example : IsPairName side_name (sidecar_pair_name lower side_name)
sidecar_pair_name-IsPairName_example =
    sidecar_pair_name-IsPairName lower (λ t ascii. refl) side_name side_name-IsAscii

-- The extension and the marker are cut off.
sidecar_pair_name_test : sidecar_pair_name lower side_name ≡ some upper_name
unfolding sidecar_pair_name last_index has_dot cut same_bytes
sidecar_pair_name_test = refl

abbrev scans : List (Scanned ℤ)
scans =
    record {
      name = upper_name;
      content_hash = 5 ∷ [];
      orientation = 1;
      thumb_decodable = true;
      is_photo = true;
      meta = walled;
      sidecar = none;
      rej = none;
    }
    ∷ record {
      name = side_name;
      content_hash = [];
      orientation = 0;
      thumb_decodable = false;
      is_photo = false;
      meta = record walled { wall = none };
      sidecar = some takeout;
      rej = none;
    }
    ∷ []

resolve-IsResolved_example : IsResolved lower date scans (resolve lower date scans)
resolve-IsResolved_example =
    resolve-IsResolved lower date (λ t ascii. refl) scans (tt, (side_name-IsAscii, tt))
