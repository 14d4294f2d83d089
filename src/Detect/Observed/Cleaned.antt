-- ===== src/Detect/Observed/Cleaned.antt =====
-- What detection works on: the observations in order, less those of an impossible speed.
use roadbook.Prelude.{
  ℕ, suc, ◌+◌, ◌≡◌, ◌⊎◌, inl, inr, Bool, true, false, ◌&&◌, List, [], ◌∷◌, Option, none, some, Memᴰ,
  Bool-cases, ◌↔◌, ltb, ◌==◌,
}
use roadbook.Prelude.Int.{pos, abs}
use roadbook.Prelude.Sort.{IsSorted, by_key-IsOrder, sort_stable-IsSorted}
use roadbook.Floats.{Float}
use roadbook.Times.{time_sub, saturate, hours}
use roadbook.Geo.{haversine_m}
use roadbook.Domain.{Visit, Activity, PathPoint, RawPosition}
use roadbook.Detect.Params.{Params}
use roadbook.Detect.Observed.{
  Obs, observed, earlier, flatten, judge, to_count, is_bad, head_of, bad_flags, drop_flagged,
  reject_outliers,
}
use roadbook.Detect.Observed.Located.{IsObserved, flatten-Mem}

module _ {F : Type 0} ⦃fl : Float F⦄ (p : Params F) where
  -- The hours between two observations, and the kilometres per hour from one to the other.
  abbrev hours_between : Obs F → Obs F → F
  hours_between a b = hours (saturate (pos (abs (time_sub b.start a.start))))

  abbrev km_per_hour : Obs F → Obs F → F
  km_per_hour a b = fl.div (fl.div (haversine_m a.loc b.loc) (fl.of_ℕ 1000)) (hours_between a b)

  -- A neighbour at another instant, to which the speed is impossible or possible. An end of the list has
  -- no neighbour, and a neighbour at the same instant says nothing.
  abbrev pub IsFast : Obs F → Option (Obs F) → Type 0
  IsFast a none = ⊥
  IsFast a (some b) =
      (fl.le (hours_between a b) (fl.of_ℕ 0) ≡ false) × (fl.lt p.max_kmh (km_per_hour a b) ≡ true)

  abbrev pub IsSlow : Obs F → Option (Obs F) → Type 0
  IsSlow a none = ⊥
  IsSlow a (some b) =
      (fl.le (hours_between a b) (fl.of_ℕ 0) ≡ false) × (fl.lt p.max_kmh (km_per_hour a b) ≡ false)

  -- The speed to a neighbour is impossible, and to none it is possible.
  pub record IsOutlier (prev : Option (Obs F)) (a : Obs F) (next : Option (Obs F)) : Type 0 where
    pub fast : IsFast a prev ⊎ IsFast a next
    pub not_slow_before : ¬ IsSlow a prev
    pub not_slow_behind : ¬ IsSlow a next

  -- The outliers, judged among all the observations, are left out and counted; the others are kept.
  pub data Cleans : (prev : Option (Obs F)) (all kept : List (Obs F)) (dropped : ℕ) → Type 0 where
    no_more : {prev : Option (Obs F)} → Cleans prev [] [] 0
    keep :
        {prev : Option (Obs F)} {a : Obs F} {rest kept : List (Obs F)} {dropped : ℕ}
        → ¬ IsOutlier prev a (head_of rest)
        → Cleans (some a) rest kept dropped
        → Cleans prev (a ∷ rest) (a ∷ kept) dropped
    drop :
        {prev : Option (Obs F)} {a : Obs F} {rest kept : List (Obs F)} {dropped : ℕ}
        → IsOutlier prev a (head_of rest)
        → Cleans (some a) rest kept dropped
        → Cleans prev (a ∷ rest) kept (suc dropped)

  -- What one neighbour says, and whether the code counts it and finds it too fast.
  data Judged (a : Obs F) (o : Option (Obs F)) : (seen fast : Bool) → Type 0 where
    unseen : ¬ IsFast a o → ¬ IsSlow a o → Judged a o false false
    too_fast : IsFast a o → ¬ IsSlow a o → Judged a o true true
    slow : IsSlow a o → ¬ IsFast a o → Judged a o true false

  judge-Judged : (a : Obs F) (o : Option (Obs F)) → Judged a o (judge p a o).0 (judge p a o).1
  judge-Judged a none = unseen (λ x. x) (λ x. x)
  judge-Judged a (some b) = elim (Bool-cases (fl.le (hours_between a b) (fl.of_ℕ 0))) [
    | inl e ↦ rw e (unseen (λ f. cc (f.0, e)) (λ f. cc (f.0, e)))
    | inr e ↦ elim (Bool-cases (fl.lt p.max_kmh (km_per_hour a b))) [
      | inl f ↦ rw (e, f) (too_fast (e, f) (λ g. cc (g.1, f)))
      | inr f ↦ rw (e, f) (slow (e, f) (λ g. cc (g.1, f)))
    ]
  ]

  abbrev Decided : Option (Obs F) → Obs F → Option (Obs F) → Bool → Type 0
  Decided prev a next true = IsOutlier prev a next
  Decided prev a next false = ¬ IsOutlier prev a next

  is_bad-Judged :
      (prev : Option (Obs F)) (a : Obs F) (next : Option (Obs F)) {s f s' f' : Bool}
      → Judged a prev s f
      → Judged a next s' f'
      → Decided prev a next (
          ltb 0 (to_count s + to_count s')
          && (to_count f + to_count f' == to_count s + to_count s'))
  is_bad-Judged prev a next (Judged.unseen n m) (Judged.unseen n' m') =
      λ o. elim o.fast [ inl x ↦ n x | inr x ↦ n' x ]
  is_bad-Judged prev a next (Judged.unseen n m) (Judged.too_fast x m') = record {
    fast = inr x;
    not_slow_before = m;
    not_slow_behind = m';
  }
  is_bad-Judged prev a next (Judged.unseen n m) (Judged.slow x n') = λ o. o.not_slow_behind x
  is_bad-Judged prev a next (Judged.too_fast x m) (Judged.unseen n' m') = record {
    fast = inl x;
    not_slow_before = m;
    not_slow_behind = m';
  }
  is_bad-Judged prev a next (Judged.too_fast x m) (Judged.too_fast y m') = record {
    fast = inl x;
    not_slow_before = m;
    not_slow_behind = m';
  }
  is_bad-Judged prev a next (Judged.too_fast x m) (Judged.slow y n') = λ o. o.not_slow_behind y
  is_bad-Judged prev a next (Judged.slow x n) (Judged.unseen n' m') = λ o. o.not_slow_before x
  is_bad-Judged prev a next (Judged.slow x n) (Judged.too_fast y m') = λ o. o.not_slow_before x
  is_bad-Judged prev a next (Judged.slow x n) (Judged.slow y n') = λ o. o.not_slow_before x

  is_bad-Decided :
      (prev : Option (Obs F)) (a : Obs F) (next : Option (Obs F))
      → Decided prev a next (is_bad p prev a next)
  unfolding is_bad
  is_bad-Decided prev a next = is_bad-Judged prev a next (judge-Judged a prev) (judge-Judged a next)

  drop_flagged-Cleans :
      (prev : Option (Obs F)) (all : List (Obs F))
      → Cleans prev all
          (drop_flagged (bad_flags p prev all) all).0
          (drop_flagged (bad_flags p prev all) all).1
  unfolding drop_flagged bad_flags
  drop_flagged-Cleans prev [] = no_more
  drop_flagged-Cleans prev (a ∷ rest) =
      let decided = is_bad-Decided prev a (head_of rest) in
      let cleaned = drop_flagged-Cleans (some a) rest in
      elim (Bool-cases (is_bad p prev a (head_of rest))) [
        | inl e ↦ rw e (drop (rw e at decided) cleaned)
        | inr e ↦ rw e (keep (rw e at decided) cleaned)
      ]

-- The observations are in the order of their starts, and they are those of the visits, the ends of the
-- activities, the path points and the photos that have a place; outlier rejection leaves out, and counts,
-- those whose speed to a neighbour at another instant is above the limit and to no such neighbour
-- within it, and keeps the others.
pub reject_outliers-flatten :
    {F : Type 0} ⦃fl : Float F⦄ (p : Params F) (visits : List (Visit F)) (acts : List (Activity F))
    (pts : List (PathPoint F)) (photos : List (RawPosition F))
    → let all = flatten visits acts pts photos in
      let cleaned = reject_outliers all p in
      IsSorted earlier all
      × ((ob : Obs F) → Memᴰ ob all ↔ IsObserved visits acts pts photos ob)
      × Cleans p none all cleaned.0 cleaned.1
unfolding flatten reject_outliers
reject_outliers-flatten p visits acts pts photos = (
  sort_stable-IsSorted earlier (by_key-IsOrder (λ a. a.start.instant))
      (observed visits acts pts photos),
  λ ob. flatten-Mem visits acts pts photos,
  drop_flagged-Cleans p none (flatten visits acts pts photos),
)
