-- ===== src/Photo/Meta/Merged.antt =====
-- About the capture time and the position of a photo with its sidecar.
use roadbook.Prelude.{ℕ, ◌≡◌, refl, Bool, true, false, Option, none, some, if◌then◌else◌}
use roadbook.Prelude.Int.{ℤ}
use roadbook.Times.{Time}
use roadbook.Domain.{LatLng}
use roadbook.Store.Keyed.{or_row}
use roadbook.Photo.Meta.{
  CivilTime, TimeSource, time_gps, time_exif_offset, time_sidecar, time_exif_local, time_none, Meta,
  Sidecar, ResolvedTime, display_offset, by_gps, resolve_time, merge_sidecar, merge_time,
  merge_position,
}

-- The readings that no sidecar replaces.
abbrev pub is_measured : TimeSource → Bool
is_measured time_gps = true
is_measured time_exif_offset = true
is_measured time_sidecar = false
is_measured time_exif_local = false
is_measured time_none = false

if_same {ℓ} : {A : Type ℓ} (b : Bool) (x : A) → x ≡ (if b then x else x)
if_same true x = refl
if_same false x = refl

module _ (date : CivilTime → ℕ) (wall : Option CivilTime) (told fallback : Option ℤ) where
  abbrev pub taken_or : Option Time → Option ResolvedTime → Option ResolvedTime
  taken_or none r = r
  taken_or (some t) r = some (record {
    time = t;
    offset_sec = display_offset date wall told fallback t;
    source = time_sidecar;
  })

  -- What the time of a sidecar makes of a photo's own.
  abbrev pub with_taken : Option Time → Option ResolvedTime → Option ResolvedTime
  with_taken taken none = taken_or taken none
  with_taken taken (some r) = if is_measured r.source then some r else taken_or taken (some r)

  unchanged : (r : Option ResolvedTime) → r ≡ with_taken none r
  unchanged none = refl
  unchanged (some r) = if_same (is_measured r.source) (some r)

by_gps-taken :
    (date : CivilTime → ℕ) (gps : Option Time) (wall : Option CivilTime) (told fallback : Option ℤ)
    (side taken : Option Time)
    → by_gps date gps wall told fallback (or_row taken side)
      ≡ with_taken date wall told fallback taken (by_gps date gps wall told fallback side)
by_gps-taken date gps wall told fallback side none =
    unchanged date wall told fallback (by_gps date gps wall told fallback side)
by_gps-taken date (some gps) wall told fallback side (some t) = refl
by_gps-taken date none (some wall) (some off) fallback side (some t) = refl
by_gps-taken date none none told fallback none (some t) = refl
by_gps-taken date none none told fallback (some s) (some t) = refl
by_gps-taken date none (some wall) none fallback (some s) (some t) = refl
by_gps-taken date none (some wall) none none none (some t) = refl
by_gps-taken date none (some wall) none (some off) none (some t) = refl

module _ {F : Type 0} where
  resolve_time-merge_time :
      (date : CivilTime → ℕ) (m : Meta F) (taken : Option Time) (fallback : Option ℤ)
      → resolve_time date (merge_time taken m) fallback
        ≡ with_taken date m.wall m.wall_offset_sec fallback taken (resolve_time date m fallback)
  unfolding resolve_time
  resolve_time-merge_time date m none fallback =
      by_gps-taken date m.gps_time m.wall m.wall_offset_sec fallback m.sidecar_time none
  resolve_time-merge_time date m (some t) fallback =
      by_gps-taken date m.gps_time m.wall m.wall_offset_sec fallback m.sidecar_time (some t)

  merge_sidecar-fields :
      (date : CivilTime → ℕ) (m : Meta F) (here there : Option (LatLng F)) (taken : Option Time)
      (fallback : Option ℤ)
      → m.position ≡ here
      → (resolve_time date (merge_time taken (merge_position here there m)) fallback
          ≡ with_taken date m.wall m.wall_offset_sec fallback taken (resolve_time date m fallback))
        × ((merge_time taken (merge_position here there m)).position ≡ or_row here there)
  unfolding resolve_time
  merge_sidecar-fields date m (some p) there none fallback e =
      (resolve_time-merge_time date m none fallback, e)
  merge_sidecar-fields date m (some p) there (some t) fallback e =
      (resolve_time-merge_time date m (some t) fallback, e)
  merge_sidecar-fields date m none none none fallback e =
      (resolve_time-merge_time date m none fallback, e)
  merge_sidecar-fields date m none none (some t) fallback e =
      (resolve_time-merge_time date m (some t) fallback, e)
  merge_sidecar-fields date m none (some p) none fallback e =
      (resolve_time-merge_time date m none fallback, refl)
  merge_sidecar-fields date m none (some p) (some t) fallback e =
      (resolve_time-merge_time date m (some t) fallback, refl)

  -- The capture time of a photo with its sidecar is its own if that was measured, by the GPS or with an
  -- offset of its own, else the sidecar's if it has one, else its own; the position is the photo's, else
  -- the sidecar's.
  pub merge_sidecar-resolve_time :
      (date : CivilTime → ℕ) (m : Meta F) (s : Sidecar F) (fallback : Option ℤ)
      → (resolve_time date (merge_sidecar m s) fallback
          ≡ with_taken date m.wall m.wall_offset_sec fallback s.taken_time
              (resolve_time date m fallback))
        × ((merge_sidecar m s).position ≡ or_row m.position s.position)
  unfolding merge_sidecar
  merge_sidecar-resolve_time date m s fallback =
      merge_sidecar-fields date m m.position s.position s.taken_time fallback refl
