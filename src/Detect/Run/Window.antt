-- ===== src/Detect/Run/Window.antt =====
-- About `window`: the slice that the two searches of `Run` (internal/detect/detect.go) enclose.
use roadbook.Prelude.{
  ℕ, zero, suc, ◌-◌, ◌≡◌, refl, sym, ap, ◌∙◌, Bool, true, false, not, ◌&&◌, List, [], ◌∷◌, some,
  get_elem?, take, drop, slice, keep, map, if◌then◌else◌, arith,
}
use mathlib.Core.Path.{fun_ext}
use roadbook.Times.{Time, before, after}
use roadbook.Detect.PyPort.Bisect.{
  IsBoundary, IsChronological, bisect_total, bisect_left-IsBoundary, bisect_right-IsBoundary,
}
use roadbook.Detect.Run.{window}

module _ {ℓ} {A : Type ℓ} where
  slice_nil : (lo hi : ℕ) → slice {A = A} lo hi [] ≡ []
  slice_nil lo hi = ap (take (hi - lo)) (drop_nil lo) ∙ take_nil (hi - lo)
    where
      take_nil : (n : ℕ) → take {A = A} n [] ≡ []
      take_nil zero = refl
      take_nil (suc n) = refl

      drop_nil : (n : ℕ) → drop {A = A} n [] ≡ []
      drop_nil zero = refl
      drop_nil (suc n) = refl

  slice_empty : (lo : ℕ) (xs : List A) → slice lo 0 xs ≡ []
  slice_empty lo xs =
      let none_left : 0 - lo ≡ 0 = omega arith in ap (λ n. take n (drop lo xs)) none_left

  slice_take : (hi : ℕ) (x : A) (xs : List A) → slice 0 (suc hi) (x ∷ xs) ≡ x ∷ slice 0 hi xs
  slice_take hi x xs =
      let one_more : suc hi - 0 ≡ suc (hi - 0) = omega arith in ap (λ n. take n (x ∷ xs)) one_more

  slice_drop : (lo hi : ℕ) (x : A) (xs : List A) → slice (suc lo) (suc hi) (x ∷ xs) ≡ slice lo hi xs
  slice_drop lo hi x xs =
      let same : suc hi - suc lo ≡ hi - lo = omega arith in ap (λ n. take n (drop lo xs)) same

module _ {ℓ} {A : Type ℓ} (left right : A → Bool) where
  IsBoundary-tail :
      {test : A → Bool} {x : A} {xs : List A} {r : ℕ}
      → IsBoundary test (x ∷ xs) (suc r)
      → IsBoundary test xs r
  IsBoundary-tail b = record {
    below = λ k y lt at. b.below (suc k) y (omega arith) at;
    above = λ k y le at. b.above (suc k) y (omega arith) at;
  }

  IsBoundary-tail_zero :
      {test : A → Bool} {x : A} {xs : List A} → IsBoundary test (x ∷ xs) 0 → IsBoundary test xs 0
  IsBoundary-tail_zero b = record {
    below = λ k y lt at. absurd (omega arith);
    above = λ k y le at. b.above (suc k) y (omega arith) at;
  }

  -- Behind `lo` the first test fails, before `hi` the second passes.
  slice-eq-keep :
      (xs : List A) (lo hi : ℕ)
      → IsBoundary left xs lo
      → IsBoundary right xs hi
      → slice lo hi xs ≡ keep (λ x. not (left x) && right x) xs
  slice-eq-keep [] lo hi l r = slice_nil lo hi
  slice-eq-keep (x ∷ xs) zero zero l r = ground (
    arith,
    slice-eq-keep xs zero zero (IsBoundary-tail_zero l) (IsBoundary-tail_zero r),
    r.above 0 x (omega arith) refl,
  )
  slice-eq-keep (x ∷ xs) zero (suc hi) l r =
      slice_take hi x xs
      ∙ ground (
        arith,
        slice-eq-keep xs zero hi (IsBoundary-tail_zero l) (IsBoundary-tail r),
        l.above 0 x (omega arith) refl,
        r.below 0 x (omega arith) refl,
      )
  slice-eq-keep (x ∷ xs) (suc lo) zero l r =
      slice_empty (suc lo) (x ∷ xs)
      ∙ sym (slice_empty lo xs)
      ∙ ground (
        arith,
        slice-eq-keep xs lo zero (IsBoundary-tail l) (IsBoundary-tail_zero r),
        r.above 0 x (omega arith) refl,
      )
  slice-eq-keep (x ∷ xs) (suc lo) (suc hi) l r =
      slice_drop lo hi x xs
      ∙ ground (
        arith,
        slice-eq-keep xs lo hi (IsBoundary-tail l) (IsBoundary-tail r),
        l.below 0 x (omega arith) refl,
      )

not_lem : (b : Bool) → (if b then false else true) ≡ not b
not_lem true = refl
not_lem false = refl

module _ {A : Type 0} (start : A → Time) (t0 t1 : Time) where
  get_elem?-map :
      {B : Type 0} (f : A → B) (xs : List A) (k : ℕ) (x : A)
      → get_elem? xs k ≡ some x
      → get_elem? (map f xs) k ≡ some (f x)
  get_elem?-map f [] k x e = cc
  get_elem?-map f (y ∷ xs) zero x e = cc
  get_elem?-map f (y ∷ xs) (suc k) x e = get_elem?-map f xs k x e

  IsBoundary-map :
      (test : Time → Bool) (xs : List A) (r : ℕ)
      → IsBoundary test (map start xs) r
      → IsBoundary (λ x. test (start x)) xs r
  IsBoundary-map test xs r b = record {
    below = λ k x lt at. b.below k (start x) lt (get_elem?-map start xs k x at);
    above = λ k x le at. b.above k (start x) le (get_elem?-map start xs k x at);
  }

  -- The searches answer on any slice, so the window is never a panic.
  pub window_total : (xs : List A) → (vs : List A) × (window start t0 t1 xs ≡ some vs)
  unfolding window
  window_total xs =
      let (lo, at_lo, le) = (bisect_total (map start xs) t0).0 in
      let (hi, at_hi, le') = (bisect_total (map start xs) t1).1 in
      (slice lo hi xs, rw (at_lo, at_hi) refl)

  -- Over elements in the order of their starts, the window holds those that start within it.
  pub window-eq-keep :
      (xs : List A)
      → IsChronological (map start xs)
      → window start t0 t1 xs
        ≡ some (keep (λ x. not (before (start x) t0) && not (after (start x) t1)) xs)
  unfolding window
  window-eq-keep xs sorted =
      let (lo, at_lo, le) = (bisect_total (map start xs) t0).0 in
      let (hi, at_hi, le') = (bisect_total (map start xs) t1).1 in
      let l =
        IsBoundary-map (λ t. before t t0) xs lo
          (bisect_left-IsBoundary (map start xs) t0 sorted lo at_lo) in
      let r =
        IsBoundary-map (λ t. if before t1 t then false else true) xs hi
          (bisect_right-IsBoundary (map start xs) t1 sorted hi at_hi) in
      rw (at_lo, at_hi)
        (ap some (
          slice-eq-keep _ _ xs lo hi l r
          ∙ ap (λ test. keep test xs)
              (fun_ext
                (λ x. ap (λ b. not (before (start x) t0) && b) (not_lem (after (start x) t1))))))
