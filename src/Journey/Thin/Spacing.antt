-- ===== src/Journey/Thin/Spacing.antt =====
-- What thinning leaves.
use roadbook.Prelude.{
  ◌+◌, ◌≤◌, ◌≡◌, refl, ap, true, List, [], ◌∷◌, Bool-cases, inl, inr, arith, length,
}
use roadbook.Floats.{Float}
use roadbook.Journey.Types.{Params, TimedPoint}
use roadbook.Journey.Thin.{is_spaced, thin_from, thin, count_kept}

module _ {F : Type 0} ⦃fl : Float F⦄ (p : Params F) where
  -- Each point is far enough in time from the one before it, `last` standing before the first.
  abbrev pub IsSpacedFrom : TimedPoint F → List (TimedPoint F) → Type 0
  IsSpacedFrom last [] = Unit
  IsSpacedFrom last (pt ∷ pts) = (is_spaced p last pt ≡ true) × IsSpacedFrom pt pts

  abbrev pub IsSpaced : List (TimedPoint F) → Type 0
  IsSpaced [] = Unit
  IsSpaced (pt ∷ pts) = IsSpacedFrom pt pts

  thin_from-IsSpacedFrom :
      (last : TimedPoint F) (pts : List (TimedPoint F)) → IsSpacedFrom last (thin_from p last pts)
  unfolding thin_from
  thin_from-IsSpacedFrom last [] = tt
  thin_from-IsSpacedFrom last (pt ∷ pts) = elim (Bool-cases (is_spaced p last pt)) [
    | inl e ↦ rw e (e, thin_from-IsSpacedFrom pt pts)
    | inr e ↦ rw e (thin_from-IsSpacedFrom last pts)
  ]

  thin_from_of_IsSpacedFrom :
      (last : TimedPoint F) (pts : List (TimedPoint F))
      → IsSpacedFrom last pts
      → thin_from p last pts ≡ pts
  unfolding thin_from
  thin_from_of_IsSpacedFrom last [] s = refl
  thin_from_of_IsSpacedFrom last (pt ∷ pts) (e, s) =
      rw e (ap (λ l. pt ∷ l) (thin_from_of_IsSpacedFrom pt pts s))

  -- Consecutive kept points are at least the spacing apart.
  pub thin-IsSpaced : (pts : List (TimedPoint F)) → IsSpaced (thin p pts)
  unfolding thin
  thin-IsSpaced [] = tt
  thin-IsSpaced (pt ∷ pts) = thin_from-IsSpacedFrom pt pts

  thin_of_IsSpaced : (pts : List (TimedPoint F)) → IsSpaced pts → thin p pts ≡ pts
  unfolding thin
  thin_of_IsSpaced [] s = refl
  thin_of_IsSpaced (pt ∷ pts) s = ap (λ l. pt ∷ l) (thin_from_of_IsSpacedFrom pt pts s)

  -- A stream that is spaced is left as it is; so a second thinning changes nothing.
  thin_idem : (pts : List (TimedPoint F)) → thin p (thin p pts) ≡ thin p pts
  thin_idem pts = thin_of_IsSpaced (thin p pts) (thin-IsSpaced pts)

  length-thin_from-le :
      (last : TimedPoint F) (pts : List (TimedPoint F)) → length (thin_from p last pts) ≤ length pts
  unfolding thin_from
  length-thin_from-le last [] = omega arith
  length-thin_from-le last (pt ∷ pts) =
      ground (arith, length-thin_from-le pt pts, length-thin_from-le last pts)

  pub length-thin-le : (pts : List (TimedPoint F)) → length (thin p pts) ≤ length pts
  unfolding thin
  length-thin-le [] = omega arith
  length-thin-le (pt ∷ pts) = omega (arith, length-thin_from-le pt pts)

pub count_kept-length :
    {F : Type 0} (kept : List (TimedPoint F))
    → (count_kept kept).0 + (count_kept kept).1 ≡ length kept
unfolding count_kept
count_kept-length [] = omega arith
count_kept-length (k ∷ kept) = ground (arith, count_kept-length kept)
