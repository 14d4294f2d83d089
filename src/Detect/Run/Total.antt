-- ===== src/Detect/Run/Total.antt =====
-- About `run` (Run of internal/detect/detect.go): how it answers, and what its candidates have.
use roadbook.Prelude.{
  ℕ, zero, suc, ◌+◌, ◌-◌, ◌≤◌, ◌<◌, ◌≡◌, refl, subst, true, false, List, [], ◌∷◌, ◌++◌, Option,
  none, some, Bool-cases, inl, inr, length, get_elem?, map, foldl, flat_map, All, All-append, arith,
}
use native.Mathlib.Nat.{le_refl}
use roadbook.Floats.{Float}
use roadbook.Times.{Time, time_sub, hours}
use roadbook.Domain.{Visit, Activity, Observations}
use roadbook.Detect.Params.{Params}
use roadbook.Detect.PyPort.Bisect.{get_elem?-lt}
use roadbook.Detect.Bases.{Base, home_evidence, derive_bases}
use roadbook.Detect.Bases.Numbers.{length-map, HasKeys, Answered, cluster_bases-Answered}
use roadbook.Detect.Home.{home_dist_m}
use roadbook.Detect.Observed.{Obs, flatten, reject_outliers}
use roadbook.Detect.Synth.{photo_fixes, synthesize_stays, stay_evidence, derive_synthetic_bases}
use roadbook.Detect.Spans.{Span, find_spans}
use roadbook.Detect.Spans.Runs.{InSpan, IsSeparated, find_spans-covers, find_spans-IsSeparated}
use roadbook.Detect.Candidates.{
  Dwell, farther, dwell_of, Candidate, qualifies, judge_span, count_repeats,
}
use roadbook.Detect.Run.{
  Result, span_candidates, all_candidates, all_visits, home_bases, own_bases, detect_from, run,
}
use roadbook.Detect.Run.Window.{window_total}

get_elem?-some_lt {ℓ} :
    {A : Type ℓ} (xs : List A) (k : ℕ) (x : A) → get_elem? xs k ≡ some x → k < length xs
get_elem?-some_lt [] k x e = cc
get_elem?-some_lt (y ∷ xs) zero x e = omega arith
get_elem?-some_lt (y ∷ xs) (suc k) x e = omega (arith, get_elem?-some_lt xs k x e)

-- Both ends of the span are indices of a slice of this length.
abbrev IsBounded : ℕ → Span → Type 0
IsBounded n sp = (sp.s < n) × (sp.e < n)

spans-IsBounded :
    (n lo : ℕ) (spans : List Span)
    → IsSeparated lo spans
    → ((k : ℕ) → InSpan k spans → k < n)
    → All (IsBounded n) spans
spans-IsBounded n lo [] s h = tt
spans-IsBounded n lo (sp ∷ spans) s h = (
  (h sp.s (inl (le_refl sp.s, s.1)), h sp.e (inl (s.1, le_refl sp.e))),
  spans-IsBounded n (sp.e + 2) spans s.2 (λ k i. h k (inr i)),
)

qualifies_needs :
    {F : Type 0} ⦃fl : Float F⦄ (p : Params F) (best : Dwell F) (sp : Span) (dur_hrs : F)
    → qualifies p best sp dur_hrs ≡ true
    → (p.min_obs ≤ sp.e - sp.s + 1) × (fl.lt dur_hrs p.min_hrs ≡ false)
unfolding qualifies
qualifies_needs p best sp dur_hrs e = (ground arith, ground arith)

module _ {F : Type 0} ⦃fl : Float F⦄ where
  find_spans-IsBounded :
      (dist : List F) (near_m : F) → All (IsBounded (length dist)) (find_spans dist near_m)
  find_spans-IsBounded dist near_m =
      spans-IsBounded (length dist) 0 (find_spans dist near_m) (find_spans-IsSeparated near_m dist)
        λ k i.
          let (d, at, far) = (find_spans-covers near_m dist k).0 i in get_elem?-some_lt dist k d at

  -- What the detection rule asks of a candidate: enough observations, a span that is long enough,
  -- and a place dwelt at.
  pub record IsQualified (p : Params F) (c : Candidate F) : Type 0 where
    pub observed : p.min_obs ≤ c.obs_count
    pub lasting : fl.lt (hours (time_sub c.end c.start)) p.min_hrs ≡ false
    pub dwelt : 1 ≤ c.stops

  judge_span-IsQualified :
      (p : Params F) (sp : Span) (t0 t1 : Time) (last : ℕ) (dwells : List (Dwell F))
      (acts : List (Activity F))
      → All (IsQualified p) (judge_span p sp t0 t1 last dwells acts)
  unfolding judge_span
  judge_span-IsQualified p sp t0 t1 last [] acts = tt
  judge_span-IsQualified p sp t0 t1 last (d ∷ dwells) acts =
      elim (Bool-cases (qualifies p (foldl farther d dwells) sp (hours (time_sub t1 t0)))) [
        | inl e ↦
            let (enough, long) = qualifies_needs p (foldl farther d dwells) sp _ e in
            rw e (record { observed = enough; lasting = long; dwelt = omega arith }, tt)
        | inr e ↦ rw e tt
      ]

  -- A qualified candidate, or several, as an answer.
  abbrev Answers : Params F → Option (List (Candidate F)) → Type 0
  Answers p answer = (cs : List (Candidate F)) × (answer ≡ some cs) × All (IsQualified p) cs

  count_repeats-IsQualified :
      (p : Params F) (earlier cs : List (Candidate F))
      → All (IsQualified p) cs
      → All (IsQualified p) (count_repeats earlier cs)
  unfolding count_repeats
  count_repeats-IsQualified p earlier [] h = tt
  count_repeats-IsQualified p earlier (c ∷ cs) (q, qs) = (
    record { observed = q.observed; lasting = q.lasting; dwelt = q.dwelt },
    count_repeats-IsQualified p (earlier ++ (c ∷ [])) cs qs,
  )

module _ {F : Type 0} ⦃fl : Float F⦄ (p : Params F) (bases : List (Base F))
    (visits : List (Visit F)) (acts : List (Activity F)) (all : List (Obs F)) where
  span_candidates-Answers :
      (sp : Span)
      → IsBounded (length all) sp
      → Answers p (span_candidates p bases visits acts all sp)
  unfolding span_candidates
  span_candidates-Answers sp (s, e) =
      let (first, at) = get_elem?-lt all sp.s s in
      let (final, at') = get_elem?-lt all sp.e e in
      let (vs, ev) = window_total (λ (v : Visit F). v.start) first.start final.end visits in
      let (as', ea) = window_total (λ (a : Activity F). a.start) first.start final.end acts in
      let dwells = flat_map (dwell_of bases p) vs in
      let found = judge_span p sp first.start final.end (length all - 1) dwells as' in
      let answer : span_candidates p bases visits acts all sp ≡ some found =
        rw (at, at', ev, ea) refl in
      (found, answer, judge_span-IsQualified p sp first.start final.end (length all - 1) dwells as')

  all_candidates-Answers :
      (spans : List Span)
      → All (IsBounded (length all)) spans
      → Answers p (all_candidates p bases visits acts all spans)
  unfolding all_candidates
  all_candidates-Answers [] h = ([], refl, tt)
  all_candidates-Answers (sp ∷ spans) (b, bs) =
      let (cs, e, q) = span_candidates-Answers sp b in
      let (rest, e', qs) = all_candidates-Answers spans bs in
      let answer : all_candidates p bases visits acts all (sp ∷ spans) ≡ some (cs ++ rest) =
        rw (e, e') refl in
      (cs ++ rest, answer, All-append (IsQualified p) cs rest q qs)

module _ {F : Type 0} ⦃fl : Float F⦄ (p : Params F) where
  abbrev pub IsDetected : Option (Result F) → Type 0
  IsDetected answer =
      (r : Result F) × (answer ≡ some r)
      × All (IsQualified p) r.candidates
      × (r.bases ≡ [] → r.candidates ≡ [])

  detect_from-IsDetected :
      (acts : List (Activity F)) (visits : List (Visit F)) (all : List (Obs F)) (dropped : ℕ)
      (bases : List (Base F))
      → IsDetected (detect_from p acts visits all dropped bases)
  unfolding detect_from
  detect_from-IsDetected acts visits all dropped [] = (_, refl, tt, λ e. refl)
  detect_from-IsDetected acts visits all dropped (b ∷ bases) =
      let home = b ∷ bases in
      let dist = map (λ (ob : Obs F). home_dist_m home ob.start ob.loc) all in
      let bounded =
        subst (λ n. All (IsBounded n) (find_spans dist p.near_m))
          (length-map (λ (ob : Obs F). home_dist_m home ob.start ob.loc) all)
          (find_spans-IsBounded dist p.near_m) in
      let (cs, e, q) =
        all_candidates-Answers p home visits acts all (find_spans dist p.near_m) bounded in
      let r : Result F = record {
        bases = home;
        candidates = count_repeats [] cs;
        outliers_dropped = dropped;
      } in
      let answer : detect_from p acts visits all dropped home ≡ some r = rw e refl in
      (r, answer, count_repeats-IsQualified p [] cs q, λ e. cc)

  -- The grid cells of the evidence of home are keys of a map: none has a coordinate that is NaN.
  pub record IsNumeric (o : Observations F) : Type 0 where
    pub own : HasKeys p.bases (
        flat_map home_evidence
          (all_visits o (synthesize_stays (photo_fixes o.raw_positions) p.synth)))
    pub synthetic :
        HasKeys p.bases
          (flat_map stay_evidence (synthesize_stays (photo_fixes o.raw_positions) p.synth))

  own_bases-Answered :
      (synthetic : List (Visit F)) (bases : Option (List (Base F)))
      → HasKeys p.bases (flat_map stay_evidence synthetic)
      → Answered bases
      → Answered (own_bases p synthetic bases)
  unfolding derive_synthetic_bases
  own_bases-Answered synthetic none k (bs, e) = cc
  own_bases-Answered [] (some []) k a = ([], refl)
  own_bases-Answered (s ∷ rest) (some []) k a =
      cluster_bases-Answered (flat_map stay_evidence (s ∷ rest)) p.bases p.synth.home_min_days k
  own_bases-Answered synthetic (some (b ∷ bases)) k a = (b ∷ bases, refl)

  home_bases-Answered :
      (visits synthetic : List (Visit F))
      → HasKeys p.bases (flat_map home_evidence visits)
      → HasKeys p.bases (flat_map stay_evidence synthetic)
      → Answered (home_bases p visits synthetic)
  unfolding home_bases derive_bases
  home_bases-Answered visits synthetic k l =
      own_bases-Answered synthetic (derive_bases visits p.bases) l
        (cluster_bases-Answered (flat_map home_evidence visits) p.bases 0 k)

  -- If no grid cell of the evidence of home has a coordinate that is NaN, detection answers without a
  -- panic, with candidates that all pass the rule, and with none where no home base is found.
  pub run-IsDetected : (o : Observations F) → IsNumeric o → IsDetected (run o p)
  unfolding run
  run-IsDetected o numeric =
      let synthetic = synthesize_stays (photo_fixes o.raw_positions) p.synth in
      let visits = all_visits o synthetic in
      let rejected =
        reject_outliers (flatten visits o.activities o.points (photo_fixes o.raw_positions)) p in
      let (bases, e) = home_bases-Answered visits synthetic numeric.own numeric.synthetic in
      rw e (detect_from-IsDetected o.activities visits rejected.0 rejected.1 bases)
