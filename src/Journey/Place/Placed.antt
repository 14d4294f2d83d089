-- ===== src/Journey/Place/Placed.antt =====
-- What `PlacePhoto` answers.
use roadbook.Prelude.{
  ℕ, suc, ◌+◌, ◌≡◌, refl, ap, ◌∙◌, ◌≢◌, ◌⊎◌, inl, inr, Bool, true, false, List, [], ◌∷◌,
  if◌then◌else◌, Option, none, some, Bool-cases, All, get_elem?, take, arith,
}
use roadbook.Floats.{Float}
use roadbook.Times.{Time}
use roadbook.Domain.{LatLng, Observations}
use roadbook.Journey.Types.{Params, Journey, Leg, Stop, leg_start, leg_end}
use roadbook.Journey.Legs.Partition.{split_legs-HasPoints, HasPoints}
use roadbook.Journey.Assemble.{kept_points, assemble}
use roadbook.Journey.Place.{
  Placement, PlaceKind, place_air, place_observed, place_road, place_unknown, place_stop, within,
  placed_on_leg, placed_on_stop, place_on_stops, place_on_legs, place_photo, is_flagged,
  leg_distance, place_kind,
}

-- The element at index `i` is the first that passes the test.
pub record IsFirst {ℓ} {A : Type ℓ} (test : A → Bool) (xs : List A) (i : ℕ) (x : A) : Type ℓ where
  pub at : get_elem? xs i ≡ some x
  pub passes : test x ≡ true
  pub earlier_fail : All (λ y. test y ≡ false) (take i xs)

IsFirst-cons {ℓ} :
    {A : Type ℓ} {test : A → Bool} (xs : List A) (i : ℕ) (x y : A)
    → test y ≡ false
    → IsFirst test xs i x
    → IsFirst test (y ∷ xs) (suc i) x
IsFirst-cons xs i x y e f = record {
  at = f.at;
  passes = f.passes;
  earlier_fail = (e, f.earlier_fail);
}

IsFirst-here {ℓ} :
    {A : Type ℓ} {test : A → Bool} (xs : List A) (x : A) → test x ≡ true → IsFirst test (x ∷ xs) 0 x
IsFirst-here xs x e = record { at = refl; passes = e; earlier_fail = tt }

module _ {F : Type 0} where
  -- The instant lies within the stop, or within the leg; a leg without points holds none.
  abbrev pub stop_holds : Time → Stop F → Bool
  stop_holds t s = within t s.start s.end

  abbrev pub leg_holds : Time → Leg F → Bool
  leg_holds t l = elim (leg_start l) [
    | none ↦ false
    | some start ↦ elim (leg_end l) [ none ↦ false | some end ↦ within t start end ]
  ]

module _ {F : Type 0} ⦃fl : Float F⦄ (far_warn_m : F) (t : Time) (pos : LatLng F) where
  abbrev Outcome : Type 0
  Outcome = Option (Option (Placement F))

  place_on_stops_cases :
      (stops : List (Stop F)) (n : ℕ) (other : Outcome)
      → ((i : ℕ) × (s : Stop F) × IsFirst (stop_holds t) stops i s
          × (place_on_stops far_warn_m t pos n other stops
              ≡ some (some (placed_on_stop far_warn_m pos (n + i) s))))
        ⊎ (All (λ s. stop_holds t s ≡ false) stops
            × (place_on_stops far_warn_m t pos n other stops ≡ other))
  unfolding place_on_stops
  place_on_stops_cases [] n other = inr (tt, refl)
  place_on_stops_cases (s ∷ stops) n other = elim (Bool-cases (stop_holds t s)) [
    | inl e ↦ inl (
      0,
      s,
      IsFirst-here stops s e,
      rw e (ap (λ k. some (some (placed_on_stop far_warn_m pos k s))) (omega arith)),
    )
    | inr e ↦ elim (place_on_stops_cases stops (suc n) other) [
      | inl (i, s', first, r) ↦ inl (
        suc i,
        s',
        IsFirst-cons stops i s' s e first,
        rw (e, r) (ap (λ k. some (some (placed_on_stop far_warn_m pos k s'))) (omega arith)),
      )
      | inr (none_before, r) ↦ inr ((e, none_before), rw (e, r) refl)
    ]
  ]

  place_on_legs_nil : (n : ℕ) → place_on_legs far_warn_m t pos n [] ≡ some none
  unfolding place_on_legs
  place_on_legs_nil n = refl

  leg_step :
      (n : ℕ) (l : Leg F) (legs : List (Leg F))
      → l.points ≢ []
      → place_on_legs far_warn_m t pos n (l ∷ legs) ≡ (
          if leg_holds t l
          then some (some (placed_on_leg far_warn_m pos n l))
          else place_on_legs far_warn_m t pos (suc n) legs)
  unfolding place_on_legs
  leg_step n l legs h = ground arith

  place_on_legs_cases :
      (legs : List (Leg F)) (n : ℕ)
      → HasPoints legs
      → ((i : ℕ) × (l : Leg F) × IsFirst (leg_holds t) legs i l
          × (place_on_legs far_warn_m t pos n legs
              ≡ some (some (placed_on_leg far_warn_m pos (n + i) l))))
        ⊎ (All (λ l. leg_holds t l ≡ false) legs
            × (place_on_legs far_warn_m t pos n legs ≡ some none))
  place_on_legs_cases [] n h = inr (tt, place_on_legs_nil n)
  place_on_legs_cases (l ∷ legs) n (p, h) = elim (Bool-cases (leg_holds t l)) [
    | inl e ↦ inl (
      0,
      l,
      IsFirst-here legs l e,
      rw (leg_step n l legs p, e)
          (ap (λ k. some (some (placed_on_leg far_warn_m pos k l))) (omega arith)),
    )
    | inr e ↦ elim (place_on_legs_cases legs (suc n) h) [
      | inl (i, l', first, r) ↦ inl (
        suc i,
        l',
        IsFirst-cons legs i l' l e first,
        rw (leg_step n l legs p, e, r)
            (ap (λ k. some (some (placed_on_leg far_warn_m pos k l'))) (omega arith)),
      )
      | inr (none_before, r) ↦ inr ((e, none_before), rw (leg_step n l legs p, e, r) refl)
    ]
  ]

  -- The answer is the first stop that holds the instant; if no stop does, the first leg that does;
  -- and it is `ok == false` exactly where no stop and no leg does. It never panics.
  abbrev pub IsAnswer : Journey F → Outcome → Type 0
  IsAnswer j answer =
      ((i : ℕ) × (s : Stop F) × IsFirst (stop_holds t) j.stops i s
        × (answer ≡ some (some (placed_on_stop far_warn_m pos i s))))
      ⊎ (All (λ s. stop_holds t s ≡ false) j.stops
          × (((i : ℕ) × (l : Leg F) × IsFirst (leg_holds t) j.legs i l
                × (answer ≡ some (some (placed_on_leg far_warn_m pos i l))))
              ⊎ (All (λ l. leg_holds t l ≡ false) j.legs × (answer ≡ some none))))

  pub place_photo-IsAnswer :
      (j : Journey F) → HasPoints j.legs → IsAnswer j (place_photo j t pos far_warn_m)
  unfolding place_photo
  place_photo-IsAnswer j h =
      elim (place_on_stops_cases j.stops 0 (place_on_legs far_warn_m t pos 0 j.legs)) [
        | inl (i, s, first, r) ↦ inl (
          i,
          s,
          first,
          r ∙ ap (λ k. some (some (placed_on_stop far_warn_m pos k s))) (omega arith),
        )
        | inr (outside, r) ↦ elim (place_on_legs_cases j.legs 0 h) [
          | inl (i, l, first, r') ↦ inr (
            outside,
            inl (
              i,
              l,
              first,
              r ∙ r' ∙ ap (λ k. some (some (placed_on_leg far_warn_m pos k l))) (omega arith),
            ),
          )
          | inr (outside', r') ↦ inr (outside, inr (outside', r ∙ r'))
        ]
      ]

  -- A placement on an air leg has no distance and is never flagged; on any other leg it has a
  -- distance, and is flagged exactly when that is beyond the threshold.
  placed_on_leg_flag :
      (i : ℕ) (l : Leg F)
      → let placed = placed_on_leg far_warn_m pos i l in
        (placed.kind ≡ place_air) × (placed.distance_m ≡ none) × (placed.flagged ≡ false)
        ⊎ (placed.kind ≢ place_air)
          × ((d : F) × (placed.distance_m ≡ some d) × (placed.flagged ≡ fl.lt far_warn_m d))
  unfolding placed_on_leg leg_distance
  placed_on_leg_flag i l = flag_of (place_kind l.kind l.gap_kind)
    where
      flag_of :
          (k : PlaceKind)
          → let d = leg_distance k pos l in
            (k ≡ place_air) × (d ≡ none) × (is_flagged far_warn_m d ≡ false)
            ⊎ (k ≢ place_air)
              × ((m : F) × (d ≡ some m) × (is_flagged far_warn_m d ≡ fl.lt far_warn_m m))
      flag_of place_observed = inr ((λ e. cc), (_, refl, refl))
      flag_of place_road = inr ((λ e. cc), (_, refl, refl))
      flag_of place_unknown = inr ((λ e. cc), (_, refl, refl))
      flag_of place_air = inl (refl, refl, refl)
      flag_of place_stop = inr ((λ e. cc), (_, refl, refl))

-- On an assembled journey the answer is as described, and there is one.
pub place_photo-assemble :
    {F : Type 0} ⦃fl : Float F⦄ (obs : Observations F) (win_start win_end : Time) (p : Params F)
    (far_warn_m : F) (t : Time) (pos : LatLng F)
    → IsAnswer far_warn_m t pos
        (assemble obs win_start win_end p)
        (place_photo (assemble obs win_start win_end p) t pos far_warn_m)
unfolding assemble
place_photo-assemble obs win_start win_end p far_warn_m t pos =
    place_photo-IsAnswer far_warn_m t pos (assemble obs win_start win_end p)
      (split_legs-HasPoints p (kept_points obs win_start win_end p))
