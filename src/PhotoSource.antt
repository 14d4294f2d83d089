-- ===== src/PhotoSource.antt =====
-- internal/photosource/photosource.go: `Resolve`, on what the scan of a batch of files found.
pub mod Balance
use roadbook.Prelude.{
  ℕ, suc, Bool, true, false, not, List, [], ◌∷◌, ◌++◌, Option, none, some, ◌==◌, if◌then◌else◌,
}
use roadbook.Prelude.Int.{ℤ}
use roadbook.Floats.{Float}
use roadbook.Times.{Time}
use roadbook.Domain.{LatLng, RawPosition, source_photo}
use roadbook.Store.Tables.{Text}
use roadbook.Store.Keyed.{or_row}
use roadbook.Photo.Bytes.{same_bytes}
use roadbook.Photo.Meta.{
  PosSource, TimeSource, pos_none, time_none, CivilTime, Meta, Sidecar, ResolvedTime, resolve_time,
  merge_sidecar,
}
use roadbook.Photo.Sidecar.{sidecar_pair_name}

-- An entry of `results` before the second loop is `unset`.
pub data Verdict : Type 0 where
  unset is_fix no_position no_time sidecar_paired sidecar_unpaired unsupported : Verdict

pub record FileResult (F : Type 0) : Type 0 where
  pub name : Text
  pub verdict : Verdict
  pub message : Text
  pub content_hash : Text
  pub fix : Option (RawPosition F)
  pub pos_source : PosSource
  pub time_source : TimeSource
  pub orientation : ℕ
  pub thumb_decodable : Bool

pub record Stats : Type 0 where
  pub photos : ℕ
  pub fixes : ℕ
  pub no_position : ℕ
  pub no_time : ℕ
  pub sidecars_paired : ℕ
  pub sidecars_unpaired : ℕ
  pub unsupported : ℕ

pub record Scanned (F : Type 0) : Type 0 where
  pub name : Text
  pub content_hash : Text
  pub orientation : ℕ
  pub thumb_decodable : Bool
  pub is_photo : Bool
  pub meta : Meta F
  pub sidecar : Option (Sidecar F)
  pub rej : Option Text

-- An entry of `pairedSidecar` that is set.
pub record Pairing (F : Type 0) : Type 0 where
  pub idx : ℕ
  pub sidecar : Sidecar F

-- The variables of the second loop.
pub record Resolving (F : Type 0) : Type 0 where
  pub raw_positions : List (RawPosition F)
  pub results : List (FileResult F)
  pub st : Stats

-- "unrecognised input".
abbrev pub unrecognised : Text
unrecognised =
    117 ∷ 110 ∷ 114 ∷ 101 ∷ 99 ∷ 111 ∷ 103 ∷ 110 ∷ 105 ∷ 115 ∷ 101 ∷ 100 ∷ 32 ∷ 105 ∷ 110 ∷ 112
    ∷ 117 ∷ 116 ∷ []

abbrev pub no_stats : Stats
no_stats = record {
  photos = 0;
  fixes = 0;
  no_position = 0;
  no_time = 0;
  sidecars_paired = 0;
  sidecars_unpaired = 0;
  unsupported = 0;
}

module _ {F : Type 0} where
  -- `byName[name]`: the index of the last photo of the name.
  unfoldable pub by_name : Text → List (Scanned F) → ℕ → Option ℕ
  by_name name [] i = none
  by_name name (sc ∷ scans) i =
      or_row (by_name name scans (suc i))
        (if sc.is_photo then (if same_bytes sc.name name then some i else none) else none)

  -- `pairedSidecar[i]`, where the newest entry stands in front.
  unfoldable pub paired_sidecar : ℕ → List (Pairing F) → Option (Sidecar F)
  paired_sidecar i [] = none
  paired_sidecar i (p ∷ pairs) =
      let rest = paired_sidecar i pairs in if p.idx == i then some p.sidecar else rest

  abbrev pub blank : Scanned F → FileResult F
  blank sc = record {
    name = sc.name;
    verdict = unset;
    message = [];
    content_hash = [];
    fix = none;
    pos_source = pos_none;
    time_source = time_none;
    orientation = 0;
    thumb_decodable = false;
  }

  abbrev pub merged : Meta F → Option (Sidecar F) → Meta F
  merged m none = m
  merged m (some s) = merge_sidecar m s

  abbrev pub with_result : FileResult F → Stats → Resolving F → Resolving F
  with_result r st s = record s { results = s.results ++ (r ∷ []); st = st }

  abbrev pub count_sidecar : Scanned F → Bool → Resolving F → Resolving F
  count_sidecar sc true s =
      with_result (record (blank sc) { verdict = sidecar_paired })
        (record s.st { sidecars_paired = suc s.st.sidecars_paired }) s
  count_sidecar sc false s =
      with_result (record (blank sc) { verdict = sidecar_unpaired })
        (record s.st { sidecars_unpaired = suc s.st.sidecars_unpaired }) s

  abbrev pub reject_scan : Scanned F → Text → Resolving F → Resolving F
  reject_scan sc message s =
      with_result (record (blank sc) { verdict = unsupported; message = message })
        (record s.st { unsupported = suc s.st.unsupported }) s

abbrev pub has_target : Option ℕ → Bool
has_target none = false
has_target (some idx) = true

module _ {F : Type 0} ⦃fl : Float F⦄ (to_lower : Text → Text) (date : CivilTime → ℕ) where
  open fl use {of_ℕ}

  -- The photo that a sidecar is paired with: by its name, else by its title.
  abbrev pub target : List (Scanned F) → Sidecar F → Text → Option ℕ
  target scans s name =
      or_row (by_name name scans 0)
        (if not (same_bytes s.title []) then by_name s.title scans 0 else none)

  abbrev pub add_pairing : Option ℕ → Sidecar F → List (Pairing F) → List (Pairing F)
  add_pairing none s pairs = pairs
  add_pairing (some idx) s pairs = record { idx = idx; sidecar = s } ∷ pairs

  abbrev pub pair_named :
      List (Scanned F) → Sidecar F → Option Text → List (Pairing F) → Option (List (Pairing F))
  pair_named scans s none pairs = none
  pair_named scans s (some name) pairs = some (add_pairing (target scans s name) s pairs)

  abbrev pub pair_one :
      List (Scanned F)
      → Text
      → Option (Sidecar F)
      → Option (List (Pairing F))
      → Option (List (Pairing F))
  pair_one scans name s none = none
  pair_one scans name none (some pairs) = some pairs
  pair_one scans name (some s) (some pairs) =
      pair_named scans s (sidecar_pair_name to_lower name) pairs

  -- The first loop, over the scans that are left; none is a panic.
  unfoldable pub pair_sidecars :
      List (Scanned F) → List (Scanned F) → Option (List (Pairing F)) → Option (List (Pairing F))
  unfolding by_name sidecar_pair_name
  pair_sidecars all [] pairs = pairs
  pair_sidecars all (sc ∷ scans) pairs =
      pair_sidecars all scans (pair_one all sc.name sc.sidecar pairs)

  -- Whether the first loop paired this sidecar.
  abbrev pub is_paired : List (Scanned F) → Sidecar F → Option Text → Bool
  is_paired scans s none = false
  is_paired scans s (some name) = has_target (target scans s name)

  abbrev pub fix_at : LatLng F → ResolvedTime → RawPosition F
  fix_at loc rt = record {
    time = record { instant = rt.time.instant; offset = rt.offset_sec };
    loc = some loc;
    accuracy_m = of_ℕ 0;
    source = source_photo;
  }

  abbrev pub add_fix :
      Scanned F → Meta F → LatLng F → Option ResolvedTime → Resolving F → Resolving F
  add_fix sc m loc none s =
      with_result (record (blank sc) { verdict = no_time })
        (record s.st { photos = suc s.st.photos; no_time = suc s.st.no_time }) s
  add_fix sc m loc (some rt) s = record {
    raw_positions = s.raw_positions ++ (fix_at loc rt ∷ []);
    results =
        s.results
        ++ (record (blank sc) {
          verdict = is_fix;
          content_hash = sc.content_hash;
          fix = some (fix_at loc rt);
          pos_source = m.pos_source;
          time_source = rt.source;
          orientation = sc.orientation;
          thumb_decodable = sc.thumb_decodable;
        }
            ∷ []);
    st = record s.st { photos = suc s.st.photos; fixes = suc s.st.fixes };
  }

  abbrev pub place_photo_at : Scanned F → Meta F → Option (LatLng F) → Resolving F → Resolving F
  place_photo_at sc m none s =
      with_result (record (blank sc) { verdict = no_position })
        (record s.st { photos = suc s.st.photos; no_position = suc s.st.no_position }) s
  place_photo_at sc m (some loc) s = add_fix sc m loc (resolve_time date m none) s

  abbrev pub resolve_photo : Scanned F → Option (Sidecar F) → Resolving F → Resolving F
  resolve_photo sc paired s =
      let m = merged sc.meta paired in
      if not sc.is_photo then reject_scan sc unrecognised s else place_photo_at sc m m.position s

  abbrev pub resolve_accepted :
      List (Scanned F)
      → Scanned F
      → Option (Sidecar F)
      → Option (Sidecar F)
      → Resolving F
      → Resolving F
  resolve_accepted all sc (some side) paired s =
      count_sidecar sc (is_paired all side (sidecar_pair_name to_lower sc.name)) s
  resolve_accepted all sc none paired s = resolve_photo sc paired s

  abbrev pub resolve_scan :
      List (Scanned F) → Scanned F → Option Text → Option (Sidecar F) → Resolving F → Resolving F
  resolve_scan all sc (some message) paired s = reject_scan sc message s
  resolve_scan all sc none paired s = resolve_accepted all sc sc.sidecar paired s

  -- The second loop, from the index i on.
  unfoldable pub resolve_scans :
      List (Scanned F) → List (Pairing F) → ℕ → List (Scanned F) → Resolving F → Resolving F
  unfolding by_name paired_sidecar sidecar_pair_name resolve_time merge_sidecar
  resolve_scans all pairs i [] s = s
  resolve_scans all pairs i (sc ∷ scans) s =
      resolve_scans all pairs (suc i) scans (resolve_scan all sc sc.rej (paired_sidecar i pairs) s)

  abbrev pub resolve_paired : List (Scanned F) → Option (List (Pairing F)) → Option (Resolving F)
  resolve_paired all none = none
  resolve_paired all (some pairs) =
      some
        (resolve_scans all pairs 0 all (record { raw_positions = []; results = []; st = no_stats }))

  -- `Resolve`; none is a panic in a sidecar's name.
  unfoldable pub resolve : List (Scanned F) → Option (Resolving F)
  unfolding pair_sidecars resolve_scans
  resolve scans = resolve_paired scans (pair_sidecars scans scans (some []))
