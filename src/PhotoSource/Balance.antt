-- ===== src/PhotoSource/Balance.antt =====
-- About what `Resolve` counts.
use roadbook.Prelude.{
  All, ℕ, suc, ◌+◌, ◌≡◌, refl, sym, ap, ap₂, ◌∙◌, subst, Bool, true, false, not, List, [], ◌∷◌,
  ◌++◌, Option, none, some, length, length-append, append-nil, append_assoc, if◌then◌else◌, arith,
}
use roadbook.Floats.{Float}
use roadbook.Domain.{LatLng, RawPosition}
use roadbook.Store.Tables.{Text}
use roadbook.Photo.Meta.{CivilTime, Meta, Sidecar, ResolvedTime, resolve_time}
use roadbook.Photo.Sidecar.{sidecar_pair_name}
use roadbook.Photo.Sidecar.Names.{IsAscii, LowersAscii, IsPairName, sidecar_pair_name-IsPairName}
use roadbook.PhotoSource.{
  FileResult, Stats, Scanned, Pairing, Resolving, merged, fix_at, no_stats, with_result,
  count_sidecar, reject_scan, add_fix, place_photo_at, resolve_photo, resolve_accepted,
  resolve_scan, resolve_scans, resolve_paired, resolve, pair_sidecars, pair_one, pair_named,
  paired_sidecar, is_paired, unrecognised,
}

module _ {F : Type 0} where
  abbrev fix_of : Option (RawPosition F) → List (RawPosition F)
  fix_of none = []
  fix_of (some fix) = fix ∷ []

  abbrev pub fixes_of : List (FileResult F) → List (RawPosition F)
  fixes_of [] = []
  fixes_of (r ∷ results) = fix_of r.fix ++ fixes_of results

  abbrev pub result_names : List (FileResult F) → List Text
  result_names [] = []
  result_names (r ∷ results) = r.name ∷ result_names results

  abbrev pub scan_names : List (Scanned F) → List Text
  scan_names [] = []
  scan_names (sc ∷ scans) = sc.name ∷ scan_names scans

  -- The name of a file that is a sidecar is ASCII.
  abbrev pub HasPlainName : Option (Sidecar F) → Text → Type 0
  HasPlainName none name = Unit
  HasPlainName (some s) name = IsAscii name

  fixes_of-append :
      (xs : List (FileResult F)) (r : FileResult F)
      → fixes_of (xs ++ (r ∷ [])) ≡ fixes_of xs ++ fix_of r.fix
  fixes_of-append [] r = append-nil (fix_of r.fix)
  fixes_of-append (x ∷ xs) r =
      ap (λ l. fix_of x.fix ++ l) (fixes_of-append xs r)
      ∙ sym (append_assoc (fix_of x.fix) (fixes_of xs) (fix_of r.fix))

  result_names-append :
      (xs : List (FileResult F)) (r : FileResult F)
      → result_names (xs ++ (r ∷ [])) ≡ result_names xs ++ (r.name ∷ [])
  result_names-append [] r = refl
  result_names-append (x ∷ xs) r = ap (λ l. x.name ∷ l) (result_names-append xs r)

  scan_names-append :
      (xs : List (Scanned F)) (sc : Scanned F)
      → scan_names (xs ++ (sc ∷ [])) ≡ scan_names xs ++ (sc.name ∷ [])
  scan_names-append [] sc = refl
  scan_names-append (x ∷ xs) sc = ap (λ l. x.name ∷ l) (scan_names-append xs sc)

  -- The counts and the results are those of the files, one for each in their order.
  pub record IsBalanced (scans : List (Scanned F)) (s : Resolving F) : Type 0 where
    pub photos : s.st.photos ≡ s.st.fixes + s.st.no_position + s.st.no_time
    pub files :
        length scans
        ≡ s.st.photos + s.st.sidecars_paired + s.st.sidecars_unpaired + s.st.unsupported
    pub names : result_names s.results ≡ scan_names scans
    pub fixes : s.st.fixes ≡ length s.raw_positions
    pub same_fixes : fixes_of s.results ≡ s.raw_positions

  if-IsBalanced :
      (scans : List (Scanned F)) (b : Bool) {s s' : Resolving F}
      → IsBalanced scans s
      → IsBalanced scans s'
      → IsBalanced scans (if b then s else s')
  if-IsBalanced scans true p q = p
  if-IsBalanced scans false p q = q

  module _ (seen : List (Scanned F)) (sc : Scanned F) (s : Resolving F)
      (kept : IsBalanced seen s) where
    length_more : length (seen ++ (sc ∷ [])) ≡ suc (length seen)
    length_more = length-append seen (sc ∷ []) ∙ omega arith

    names_more :
        (r : FileResult F)
        → r.name ≡ sc.name
        → result_names (s.results ++ (r ∷ [])) ≡ scan_names (seen ++ (sc ∷ []))
    names_more r same =
        result_names-append s.results r
        ∙ ap₂ (λ l n. l ++ (n ∷ [])) kept.names same
        ∙ sym (scan_names-append seen sc)

    -- A result without a fix.
    plain-IsBalanced :
        (r : FileResult F) (st : Stats)
        → r.name ≡ sc.name
        → r.fix ≡ none
        → st.fixes ≡ s.st.fixes
        → st.photos ≡ st.fixes + st.no_position + st.no_time
        → suc (length seen) ≡ st.photos + st.sidecars_paired + st.sidecars_unpaired + st.unsupported
        → IsBalanced (seen ++ (sc ∷ [])) (with_result r st s)
    plain-IsBalanced r st same no_fix fixes photos files = record {
      photos = photos;
      files = length_more ∙ files;
      names = names_more r same;
      fixes = fixes ∙ kept.fixes;
      same_fixes =
          fixes_of-append s.results r
          ∙ ap₂ (λ l f. l ++ fix_of f) kept.same_fixes no_fix
          ∙ append-nil s.raw_positions;
    }

    reject_scan-IsBalanced :
        (message : Text) → IsBalanced (seen ++ (sc ∷ [])) (reject_scan sc message s)
    reject_scan-IsBalanced message =
        plain-IsBalanced _ _ refl refl refl kept.photos (omega (arith, kept.files))

    count_sidecar-IsBalanced : (b : Bool) → IsBalanced (seen ++ (sc ∷ [])) (count_sidecar sc b s)
    count_sidecar-IsBalanced true =
        plain-IsBalanced _ _ refl refl refl kept.photos (omega (arith, kept.files))
    count_sidecar-IsBalanced false =
        plain-IsBalanced _ _ refl refl refl kept.photos (omega (arith, kept.files))

    module _ ⦃fl : Float F⦄ (to_lower : Text → Text) (date : CivilTime → ℕ) where
      add_fix-IsBalanced :
          (m : Meta F) (loc : LatLng F) (o : Option ResolvedTime)
          → IsBalanced (seen ++ (sc ∷ [])) (add_fix to_lower date sc m loc o s)
      add_fix-IsBalanced m loc none =
          plain-IsBalanced _ _ refl refl refl (omega (arith, kept.photos))
            (omega (arith, kept.files))
      add_fix-IsBalanced m loc (some rt) = record {
        photos = omega (arith, kept.photos);
        files = length_more ∙ omega (arith, kept.files);
        names = names_more _ refl;
        fixes = ap suc kept.fixes ∙ sym (length-append s.raw_positions _ ∙ omega arith);
        same_fixes =
            fixes_of-append s.results _
            ∙ ap (λ l. l ++ (fix_at to_lower date loc rt ∷ [])) kept.same_fixes;
      }

      place_photo_at-IsBalanced :
          (m : Meta F) (o : Option (LatLng F))
          → IsBalanced (seen ++ (sc ∷ [])) (place_photo_at to_lower date sc m o s)
      place_photo_at-IsBalanced m none =
          plain-IsBalanced _ _ refl refl refl (omega (arith, kept.photos))
            (omega (arith, kept.files))
      place_photo_at-IsBalanced m (some loc) = add_fix-IsBalanced m loc (resolve_time date m none)

      resolve_photo-IsBalanced :
          (o : Option (Sidecar F))
          → IsBalanced (seen ++ (sc ∷ [])) (resolve_photo to_lower date sc o s)
      resolve_photo-IsBalanced o =
          if-IsBalanced (seen ++ (sc ∷ [])) (not sc.is_photo) (reject_scan-IsBalanced unrecognised)
            (place_photo_at-IsBalanced (merged sc.meta o) (merged sc.meta o).position)

      resolve_accepted-IsBalanced :
          (all : List (Scanned F)) (side paired : Option (Sidecar F))
          → IsBalanced (seen ++ (sc ∷ [])) (resolve_accepted to_lower date all sc side paired s)
      resolve_accepted-IsBalanced all none paired = resolve_photo-IsBalanced paired
      resolve_accepted-IsBalanced all (some side) paired =
          count_sidecar-IsBalanced
            (is_paired to_lower date all side (sidecar_pair_name to_lower sc.name))

      resolve_scan-IsBalanced :
          (all : List (Scanned F)) (rej : Option Text) (paired : Option (Sidecar F))
          → IsBalanced (seen ++ (sc ∷ [])) (resolve_scan to_lower date all sc rej paired s)
      resolve_scan-IsBalanced all (some message) paired = reject_scan-IsBalanced message
      resolve_scan-IsBalanced all none paired = resolve_accepted-IsBalanced all sc.sidecar paired

module _ {F : Type 0} ⦃fl : Float F⦄ (to_lower : Text → Text) (date : CivilTime → ℕ) where
  resolve_scans-IsBalanced :
      (all : List (Scanned F)) (pairs : List (Pairing F)) (i : ℕ) (seen scans : List (Scanned F))
      (s : Resolving F)
      → IsBalanced seen s
      → IsBalanced (seen ++ scans) (resolve_scans to_lower date all pairs i scans s)
  unfolding resolve_scans
  resolve_scans-IsBalanced all pairs i seen [] s kept =
      subst (λ l. IsBalanced l s) (sym (append-nil seen)) kept
  resolve_scans-IsBalanced all pairs i seen (sc ∷ scans) s kept =
      subst (λ l. IsBalanced l (resolve_scans to_lower date all pairs i (sc ∷ scans) s))
        (append_assoc seen (sc ∷ []) scans)
        (resolve_scans-IsBalanced all pairs (suc i) (seen ++ (sc ∷ [])) scans _ (
          resolve_scan-IsBalanced seen sc s kept to_lower date all sc.rej (paired_sidecar i pairs)))

  data IsPaired : Option (List (Pairing F)) → Type 0 where
    is_pairs : (pairs : List (Pairing F)) → IsPaired (some pairs)

  pub data IsResolved (scans : List (Scanned F)) : Option (Resolving F) → Type 0 where
    resolved : (s : Resolving F) → IsBalanced scans s → IsResolved scans (some s)

  resolve_paired-IsResolved :
      (scans : List (Scanned F)) (pairs : Option (List (Pairing F)))
      → IsPaired pairs
      → IsResolved scans (resolve_paired to_lower date scans pairs)
  resolve_paired-IsResolved scans none p = elim p [ ]
  resolve_paired-IsResolved scans (some pairs) p = resolved _ (
      resolve_scans-IsBalanced scans pairs 0 [] scans
        (record { raw_positions = []; results = []; st = no_stats })
        (record { photos = refl; files = refl; names = refl; fixes = refl; same_fixes = refl }))

  pair_named-IsPaired :
      (all : List (Scanned F)) (s : Sidecar F) (file : Text) (o : Option Text)
      (pairs : List (Pairing F))
      → IsPairName file o
      → IsPaired (pair_named to_lower date all s o pairs)
  pair_named-IsPaired all s file none pairs p = elim p [ ]
  pair_named-IsPaired all s file (some name) pairs p = is_pairs _

  module _ (lowers : LowersAscii to_lower) where
    pair_one-IsPaired :
        (all : List (Scanned F)) (name : Text) (o : Option (Sidecar F))
        (pairs : Option (List (Pairing F)))
        → HasPlainName o name
        → IsPaired pairs
        → IsPaired (pair_one to_lower date all name o pairs)
    pair_one-IsPaired all name o none plain p = elim p [ ]
    pair_one-IsPaired all name none (some pairs) plain p = p
    pair_one-IsPaired all name (some s) (some pairs) plain p =
        pair_named-IsPaired all s name (sidecar_pair_name to_lower name) pairs
          (sidecar_pair_name-IsPairName to_lower lowers name plain)

    pair_sidecars-IsPaired :
        (all scans : List (Scanned F)) (pairs : Option (List (Pairing F)))
        → All (λ (sc : Scanned F). HasPlainName sc.sidecar sc.name) scans
        → IsPaired pairs
        → IsPaired (pair_sidecars to_lower date all scans pairs)
    unfolding pair_sidecars
    pair_sidecars-IsPaired all [] pairs plain p = p
    pair_sidecars-IsPaired all (sc ∷ scans) pairs (plain, h) p =
        pair_sidecars-IsPaired all scans (pair_one to_lower date all sc.name sc.sidecar pairs) h
          (pair_one-IsPaired all sc.name sc.sidecar pairs plain p)

    -- If the names of the sidecars are ASCII, which strings.ToLower lowers byte by byte, a batch is
    -- resolved without a panic: one result for each file under its name, the counts of the kinds add up
    -- to the files and those of the photos to the photos, and the fixes are those of the results in their
    -- order.
    pub resolve-IsResolved :
        (scans : List (Scanned F))
        → All (λ (sc : Scanned F). HasPlainName sc.sidecar sc.name) scans
        → IsResolved scans (resolve to_lower date scans)
    unfolding resolve
    resolve-IsResolved scans plain =
        resolve_paired-IsResolved scans (pair_sidecars to_lower date scans scans (some []))
          (pair_sidecars-IsPaired scans scans (some []) plain (is_pairs []))
