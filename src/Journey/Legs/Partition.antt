-- ===== src/Journey/Legs/Partition.antt =====
-- About the legs of a stream: their shape, and the points of the observed ones.
use roadbook.Prelude.{
  ◌≡◌, refl, ◌∙◌, true, false, List, [], ◌∷◌, ◌++◌, Option, none, some, Bool-cases, inl, inr, All,
  ◌≢◌, append_assoc, append-nil,
}
use roadbook.Floats.{Float}
use roadbook.Journey.Types.{Params, LegKind, leg_observed, leg_gap, TimedPoint, Leg}
use roadbook.Journey.Legs.{observed_leg, gap_leg, is_silence, split_from, split_legs}

module _ {F : Type 0} where
  abbrev by_kind : LegKind → List (TimedPoint F) → List (TimedPoint F)
  by_kind leg_observed pts = pts
  by_kind leg_gap pts = []

  -- The points of the observed legs, in order.
  abbrev pub observed_points : List (Leg F) → List (TimedPoint F)
  observed_points [] = []
  observed_points (l ∷ legs) = by_kind l.kind l.points ++ observed_points legs

  abbrev pub head_point : List (TimedPoint F) → Option (TimedPoint F)
  head_point [] = none
  head_point (pt ∷ pts) = some pt

  -- The first point of the first leg.
  abbrev pub first_point : List (Leg F) → Option (TimedPoint F)
  first_point [] = none
  first_point (l ∷ legs) = head_point l.points

  abbrev pub HasPoints : List (Leg F) → Type 0
  HasPoints legs = All (λ l. l.points ≢ []) legs

  snoc-ne-nil : (run : List (TimedPoint F)) (last : TimedPoint F) → (run ++ (last ∷ [])) ≢ []
  snoc-ne-nil [] last e = cc
  snoc-ne-nil (a ∷ run) last e = cc

module _ {F : Type 0} ⦃fl : Float F⦄ (p : Params F) where
  -- No silence between two consecutive points.
  abbrev pub IsRun : List (TimedPoint F) → Type 0
  IsRun (a ∷ b ∷ rest) = (is_silence p a b ≡ false) × IsRun (b ∷ rest)
  IsRun _ = Unit

  -- Observed runs with a gap between each two: the gap joins the end of one run to the beginning of
  -- the next, over a silence, and is the gap leg of those two points.
  pub data IsAlternating : List (Leg F) → Type 0 where
    one :
        (run : List (TimedPoint F)) (last : TimedPoint F)
        → IsRun (run ++ (last ∷ []))
        → IsAlternating (observed_leg (run ++ (last ∷ [])) ∷ [])
    more :
        (run : List (TimedPoint F)) (last next : TimedPoint F) (legs : List (Leg F))
        → IsRun (run ++ (last ∷ []))
        → is_silence p last next ≡ true
        → first_point legs ≡ some next
        → IsAlternating legs
        → IsAlternating (observed_leg (run ++ (last ∷ [])) ∷ gap_leg last next p ∷ legs)

  IsRun-snoc :
      (run : List (TimedPoint F)) (prev pt : TimedPoint F)
      → IsRun (run ++ (prev ∷ []))
      → is_silence p prev pt ≡ false
      → IsRun ((run ++ (prev ∷ [])) ++ (pt ∷ []))
  IsRun-snoc [] prev pt h e = (e, tt)
  IsRun-snoc (a ∷ []) prev pt h e = (h.0, (e, tt))
  IsRun-snoc (a ∷ b ∷ run) prev pt h e = (h.0, IsRun-snoc (b ∷ run) prev pt h.1 e)

  head_snoc :
      (run : List (TimedPoint F)) (prev pt : TimedPoint F)
      → head_point ((run ++ (prev ∷ [])) ++ (pt ∷ [])) ≡ head_point (run ++ (prev ∷ []))
  head_snoc [] prev pt = refl
  head_snoc (a ∷ run) prev pt = refl

  split_from-first :
      (pts run : List (TimedPoint F)) (prev : TimedPoint F)
      → first_point (split_from p run prev pts) ≡ head_point (run ++ (prev ∷ []))
  unfolding split_from observed_leg
  split_from-first [] run prev = refl
  split_from-first (pt ∷ pts) run prev = elim (Bool-cases (is_silence p prev pt)) [
    | inl e ↦ rw e refl
    | inr e ↦ rw e (split_from-first pts (run ++ (prev ∷ [])) pt ∙ head_snoc run prev pt)
  ]

  split_from-IsAlternating :
      (pts run : List (TimedPoint F)) (prev : TimedPoint F)
      → IsRun (run ++ (prev ∷ []))
      → IsAlternating (split_from p run prev pts)
  unfolding split_from
  split_from-IsAlternating [] run prev h = IsAlternating.one run prev h
  split_from-IsAlternating (pt ∷ pts) run prev h = elim (Bool-cases (is_silence p prev pt)) [
    | inl e ↦ rw e (
        IsAlternating.more run prev pt (split_from p [] pt pts) h e (split_from-first pts [] pt)
          (split_from-IsAlternating pts [] pt tt))
    | inr e ↦
        rw e (split_from-IsAlternating pts (run ++ (prev ∷ [])) pt (IsRun-snoc run prev pt h e))
  ]

  observed_points-split_from :
      (pts run : List (TimedPoint F)) (prev : TimedPoint F)
      → observed_points (split_from p run prev pts) ≡ run ++ (prev ∷ pts)
  unfolding split_from observed_leg gap_leg
  observed_points-split_from [] run prev = append-nil (run ++ (prev ∷ []))
  observed_points-split_from (pt ∷ pts) run prev = elim (Bool-cases (is_silence p prev pt)) [
    | inl e ↦ rw (e, observed_points-split_from pts [] pt) (append_assoc run (prev ∷ []) (pt ∷ pts))
    | inr e ↦ rw e (
        observed_points-split_from pts (run ++ (prev ∷ [])) pt
        ∙ append_assoc run (prev ∷ []) (pt ∷ pts))
  ]

  -- The observed legs hold every kept point exactly once, in order.
  pub observed_points-split_legs :
      (kept : List (TimedPoint F)) → observed_points (split_legs p kept) ≡ kept
  unfolding split_legs
  observed_points-split_legs [] = refl
  observed_points-split_legs (k ∷ kept) = observed_points-split_from kept [] k

  -- The legs of a stream that is not empty alternate, and begin with its first point.
  pub split_legs-IsAlternating :
      (k : TimedPoint F) (kept : List (TimedPoint F))
      → IsAlternating (split_legs p (k ∷ kept)) × (first_point (split_legs p (k ∷ kept)) ≡ some k)
  unfolding split_legs
  split_legs-IsAlternating k kept =
      (split_from-IsAlternating kept [] k tt, split_from-first kept [] k)

  IsAlternating-HasPoints : {legs : List (Leg F)} → IsAlternating legs → HasPoints legs
  unfolding observed_leg gap_leg
  IsAlternating-HasPoints (IsAlternating.one run last h) = (snoc-ne-nil run last, tt)
  IsAlternating-HasPoints (IsAlternating.more run last next legs h e f rest) =
      (snoc-ne-nil run last, ((λ e. cc), IsAlternating-HasPoints rest))

  -- No leg is without points.
  pub split_legs-HasPoints : (kept : List (TimedPoint F)) → HasPoints (split_legs p kept)
  unfolding split_legs
  split_legs-HasPoints [] = tt
  split_legs-HasPoints (k ∷ kept) = IsAlternating-HasPoints (split_from-IsAlternating kept [] k tt)
