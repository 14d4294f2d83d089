-- ===== src/Detect/Run.antt =====
-- `Run` of internal/detect/detect.go. `none` is a panic; a loop over
-- the indices of `[lo, hi)` runs over that slice.
use Prim.Native.String.{String}
use text.Mathlib.Text.{◌==◌ as str_eq}
pub mod Window
pub mod Total
use roadbook.Prelude.{
  ℕ, suc, ◌+◌, ◌-◌, Bool, true, false, ◌&&◌, ◌||◌, List, [], ◌∷◌, ◌++◌, map, foldl, Option, none,
  some, ltb, ◌==◌, length, take, slice, get_elem?, if◌then◌else◌, flat_map,
}
use roadbook.Prelude.Int.{ℤ}
use roadbook.Prelude.Sort.{sort_stable}
use roadbook.Floats.{Float}
use roadbook.Times.{Time, time_sub, hours, minutes}
use roadbook.Domain.{LatLng, Visit, Activity, Observations}
use roadbook.Geo.{haversine_m}
use roadbook.Detect.Params.{Params}
use roadbook.Detect.Candidates.{Candidate, dwell_of, judge_span, count_repeats}
use roadbook.Detect.PyPort.{py_round, bisect_left, bisect_right}
use roadbook.Detect.Score.{ScoreComponent, ScoreInput, score_candidate}
use roadbook.Detect.Bases.{Base, derive_bases}
use roadbook.Detect.Synth.{
  photo_fixes, synthesize_stays, merge_visits_by_start, derive_synthetic_bases,
}
use roadbook.Detect.Observed.{Obs, flatten, reject_outliers}
use roadbook.Detect.Home.{home_dist_m}
use roadbook.Detect.Spans.{Span, find_spans}

infixl 5 ◌>>=◌
abbrev ◌>>=◌ : {A B : Type 0} → Option A → (A → Option B) → Option B
none >>= f = none
some a >>= f = f a

pub record Result (F : Type 0) : Type 0 where
  pub bases : List (Base F)
  pub candidates : List (Candidate F)
  pub outliers_dropped : ℕ

-- The elements whose starts the two searches enclose.
unfoldable pub window : {A : Type 0} → (A → Time) → Time → Time → List A → Option (List A)
window start t0 t1 xs = do
  lo ← bisect_left (map start xs) t0
  hi ← bisect_right (map start xs) t1
  some (slice lo hi xs)

module _ {F : Type 0} ⦃fl : Float F⦄ where
  -- The body of the loop over the spans.
  span_candidates :
      Params F
      → List (Base F)
      → List (Visit F)
      → List (Activity F)
      → List (Obs F)
      → Span
      → Option (List (Candidate F))
  unfolding judge_span dwell_of window
  span_candidates p bases visits acts all sp = do
    first ← get_elem? all sp.s
    final ← get_elem? all sp.e
    vs ← window (λ v. v.start) first.start final.end visits
    as' ← window (λ a. a.start) first.start final.end acts
    some (
        judge_span p sp first.start final.end (length all - 1) (flat_map (dwell_of bases p) vs) as')

  all_candidates :
      Params F
      → List (Base F)
      → List (Visit F)
      → List (Activity F)
      → List (Obs F)
      → List Span
      → Option (List (Candidate F))
  unfolding span_candidates
  all_candidates p bases visits acts all [] = some []
  all_candidates p bases visits acts all (sp ∷ spans) =
      span_candidates p bases visits acts all sp >>= λ found.
      all_candidates p bases visits acts all spans >>= λ rest. some (found ++ rest)

  -- The visits that detection reads: the source's, with the synthetic stays merged in.
  unfoldable pub all_visits : Observations F → List (Visit F) → List (Visit F)
  all_visits o synthetic = elim synthetic [
    | [] ↦ o.visits
    | s ∷ rest ↦ merge_visits_by_start o.visits (s ∷ rest)
  ]

  -- Synthetic evidence of home is consulted only where the source's own yields nothing.
  abbrev pub synthetic_bases : Params F → List (Visit F) → Option (List (Base F))
  synthetic_bases p [] = some []
  synthetic_bases p (s ∷ rest) = derive_synthetic_bases (s ∷ rest) p

  abbrev pub own_bases : Params F → List (Visit F) → Option (List (Base F)) → Option (List (Base F))
  own_bases p synthetic none = none
  own_bases p synthetic (some []) = synthetic_bases p synthetic
  own_bases p synthetic (some (b ∷ bases)) = some (b ∷ bases)

  unfoldable pub home_bases : Params F → List (Visit F) → List (Visit F) → Option (List (Base F))
  home_bases p visits synthetic = own_bases p synthetic (derive_bases visits p.bases)

  -- Detection with the bases known: no base, no candidate.
  detect_from :
      Params F
      → List (Activity F)
      → List (Visit F)
      → List (Obs F)
      → ℕ
      → List (Base F)
      → Option (Result F)
  unfolding all_candidates count_repeats
  detect_from p acts visits all dropped [] =
      some (record { bases = []; candidates = []; outliers_dropped = dropped })
  detect_from p acts visits all dropped (b ∷ bases) = do
    let home = b ∷ bases
    let dist = map (λ ob. home_dist_m home ob.start ob.loc) all
    cands ← all_candidates p home visits acts all (find_spans dist p.near_m)
    some (record { bases = home; candidates = count_repeats [] cands; outliers_dropped = dropped })

  unfoldable pub run : Observations F → Params F → Option (Result F)
  unfolding detect_from all_visits home_bases
  run o p =
      let photos = photo_fixes o.raw_positions in
      let synthetic = synthesize_stays photos p.synth in
      let visits = all_visits o synthetic in
      let (all, dropped) = reject_outliers (flatten visits o.activities o.points photos) p in
      home_bases p visits synthetic >>= detect_from p o.activities visits all dropped
