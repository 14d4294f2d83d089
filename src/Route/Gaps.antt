-- ===== src/Route/Gaps.antt =====
-- What `Apply` does to the legs, and what it needs of the cache to leave no unknown gap.
use Prim.Native.String.{String}
use roadbook.Prelude.{
  All_at, sym, subst, ap, ◌∙◌, ◌≡◌, refl, ◌⊎◌, inl, inr, true, false, List, [], ◌∷◌, Option, none,
  some, All, Bool-cases,
}
use mathlib.Core.Option.{some-injective}
use roadbook.Floats.{Float}
use roadbook.Times.{Time}
use roadbook.Domain.{Observations}
use roadbook.Journey.Assemble.{kept_points, assemble}
use roadbook.Journey.Types.{
  Journey, Params, LegKind, leg_observed, leg_gap, gap_road, gap_unknown, GapKind, TimedPoint, Leg,
}
use roadbook.Route.Keys.{HasEnds, IsCollected, keys_from-IsCollected, split_legs-HasEnds}
use roadbook.Route.{
  unknown_keys, apply, Key, Cached, is_unknown, road_of, key_of, decorate, apply_legs, key_for,
  Status, status_routed, status_no_route,
}

is_unknown-true :
    (k : LegKind) (g : GapKind) → is_unknown k g ≡ true → (k ≡ leg_gap) × (g ≡ gap_unknown)
is_unknown-true leg_observed g e = cc
is_unknown-true leg_gap gap_unknown e = (refl, refl)
is_unknown-true leg_gap GapKind.gap_road e = cc
is_unknown-true leg_gap GapKind.gap_air e = cc
is_unknown-true leg_gap GapKind.gap_none e = cc

is_unknown-false :
    {k : LegKind} {g : GapKind} → is_unknown k g ≡ false → ¬ ((k ≡ leg_gap) × (g ≡ gap_unknown))
is_unknown-false {k} {g} e (e', e'') = cc (rw (e', e'') at e)

status_cases : (s : Status) → (s ≡ status_routed) ⊎ (s ≡ status_no_route)
status_cases status_routed = inl refl
status_cases status_no_route = inr refl

decorated_known : (k : LegKind) → is_unknown k gap_road ≡ false
decorated_known leg_observed = refl
decorated_known leg_gap = refl

module _ {F : Type 0} ⦃fl : Float F⦄ (profile : String) where
  module _ (lookup : Key → Option (Cached F)) where
    -- A leg that is never routed.
    abbrev pub IsMeasured : Leg F → Type 0
    IsMeasured l = ¬ ((l.kind ≡ leg_gap) × (l.gap_kind ≡ gap_unknown))

    -- The two points of an unknown gap.
    pub record IsGap (l : Leg F) (a b : TimedPoint F) : Type 0 where
      pub is_gap : l.kind ≡ leg_gap
      pub is_open : l.gap_kind ≡ gap_unknown
      pub rest : List (TimedPoint F)
      pub ends : l.points ≡ a ∷ b ∷ rest

    -- A cached answer that is no road.
    pub data NoRoad : Option (Cached F) → Type 0 where
      unasked : NoRoad none
      roadless : {c : Cached F} → c.status ≡ status_no_route → NoRoad (some c)

    -- The leg with the geometry and the length of the answer beside what it had.
    pub record IsRouted (l : Leg F) (c : Cached F) (m : Leg F) : Type 0 where
      pub is_road : m.gap_kind ≡ gap_road
      pub geometry : m.routed_points ≡ c.points
      pub km : m.routed_km ≡ fl.div c.distance_m (fl.of_ℕ 1000)
      pub same_kind : m.kind ≡ l.kind
      pub same_points : m.points ≡ l.points
      pub same_distance : m.distance_km ≡ l.distance_km

    -- What becomes of the legs, with the routed and the unknown distance before and behind them.
    pub data Becomes
        : (legs : List (Leg F)) (routed unknown : F) (more : List (Leg F)) (routed' unknown' : F)
          → Type 0 where
      no_legs : {r u : F} → Becomes [] r u [] r u
      measured :
          {r u r' u' : F} {l : Leg F} {legs more : List (Leg F)}
          → IsMeasured l
          → Becomes legs r u more r' u'
          → Becomes (l ∷ legs) r u (l ∷ more) r' u'
      unanswered :
          {r u r' u' : F} {l : Leg F} {legs more : List (Leg F)} {a b : TimedPoint F}
          → IsGap l a b
          → NoRoad (lookup (key_for a.loc b.loc profile))
          → Becomes legs r (fl.add u l.distance_km) more r' u'
          → Becomes (l ∷ legs) r u (l ∷ more) r' u'
      answered :
          {r u r' u' : F} {l m : Leg F} {legs more : List (Leg F)} {a b : TimedPoint F}
          {c : Cached F}
          → IsGap l a b
          → lookup (key_for a.loc b.loc profile) ≡ some c
          → c.status ≡ status_routed
          → IsRouted l c m
          → Becomes legs (fl.add r (fl.div c.distance_m (fl.of_ℕ 1000))) u more r' u'
          → Becomes (l ∷ legs) r u (m ∷ more) r' u'

    decorate-IsRouted : (l : Leg F) (c : Cached F) → IsRouted l c (decorate l c)
    decorate-IsRouted l c = record {
      is_road = refl;
      geometry = refl;
      km = refl;
      same_kind = refl;
      same_points = refl;
      same_distance = refl;
    }

    Outcome : List (Leg F) → F → F → Option (List (Leg F) × F × F) → Type 0
    Outcome legs r u answer =
        (out : List (Leg F) × F × F) × (answer ≡ some out) × Becomes legs r u out.0 out.1 out.2

    is_unknown-IsGap :
        (l : Leg F) (pts : List (TimedPoint F)) (k : Key)
        → l.points ≡ pts
        → (l.kind ≡ leg_gap) × (l.gap_kind ≡ gap_unknown)
        → key_of profile pts ≡ some k
        → (a : TimedPoint F) × (b : TimedPoint F) × IsGap l a b × (k ≡ key_for a.loc b.loc profile)
    is_unknown-IsGap l [] k e g s = cc
    is_unknown-IsGap l (a ∷ []) k e g s = cc
    is_unknown-IsGap l (a ∷ b ∷ rest) k e (g, o) s = (
      a,
      b,
      record { is_gap = g; is_open = o; rest = rest; ends = e },
      sym (some-injective (key_for a.loc b.loc profile) k s),
    )

    -- What the cache holds is a road, or the loop takes it for none.
    road_cases :
        (o : Option (Cached F))
        → NoRoad o × (road_of o ≡ none)
          ⊎ ((c : Cached F) × (o ≡ some c) × (c.status ≡ status_routed) × (road_of o ≡ some c))
    road_cases none = inl (unasked, refl)
    road_cases (some c) = elim (status_cases c.status) [
      | inl e ↦ inr (c, refl, e, rw e refl)
      | inr e ↦ inl (roadless e, rw e refl)
    ]

    apply_legs-Outcome :
        (legs : List (Leg F)) (r u : F)
        → All (HasEnds profile) legs
        → Outcome legs r u (apply_legs profile lookup r u legs)
    unfolding apply_legs Outcome
    apply_legs-Outcome [] r u h = (([], r, u), refl, no_legs)
    apply_legs-Outcome (l ∷ legs) r u (ends, h) = elim (Bool-cases (is_unknown l.kind l.gap_kind)) [
      | inr e ↦
          let (out, eq, b) = apply_legs-Outcome legs r u h in
          ((l ∷ out.0, out.1, out.2), rw (e, eq) refl, measured (is_unknown-false e) b)
      | inl e ↦
          let (k, ek) = ends e in
          let (x, y, gap, same) = is_unknown-IsGap l l.points k refl (is_unknown-true _ _ e) ek in
          elim (road_cases (lookup k)) [
            | inl (n, s) ↦
                let (out, eq, b) = apply_legs-Outcome legs r (fl.add u l.distance_km) h in
                (
                  (l ∷ out.0, out.1, out.2),
                  rw (e, ek, s, eq) refl,
                  unanswered gap (subst (λ q. NoRoad (lookup q)) same n) b,
                )
            | inr (c, at, routed, s) ↦
                let (out, eq, b) =
                  apply_legs-Outcome legs (fl.add r (fl.div c.distance_m (fl.of_ℕ 1000))) u h in
                (
                  (decorate l c ∷ out.0, out.1, out.2),
                  rw (e, ek, s, eq) refl,
                  answered gap (ap lookup (sym same) ∙ at) routed (decorate-IsRouted l c) b,
                )
          ]
    ]

    -- A key has a cached road.
    abbrev pub IsAnswered : Key → Type 0
    IsAnswered k = (c : Cached F) × (road_of (lookup k) ≡ some c)

    no_unknown_left :
        (legs : List (Leg F)) (keys : List Key) (r u : F)
        → All IsAnswered keys
        → All (IsCollected profile keys) legs
        → (out : List (Leg F) × F × F) × (apply_legs profile lookup r u legs ≡ some out)
          × All (λ m. is_unknown m.kind m.gap_kind ≡ false) out.0
          × (out.2 ≡ u)
    unfolding apply_legs
    no_unknown_left [] keys r u a h = (([], r, u), refl, tt, refl)
    no_unknown_left (l ∷ legs) keys r u a (h, hs) =
        elim (Bool-cases (is_unknown l.kind l.gap_kind)) [
          | inr f ↦
              let (out, e, all, same) = no_unknown_left legs keys r u a hs in
              ((l ∷ out.0, out.1, out.2), rw (f, e) refl, (f, all), same)
          | inl f ↦
              let (k, ek, m) = h f in
              let (c, s) = All_at IsAnswered keys a m in
              let (out, e, all, same) =
                no_unknown_left legs keys (fl.add r (fl.div c.distance_m (fl.of_ℕ 1000))) u a hs in
              (
                (decorate l c ∷ out.0, out.1, out.2),
                rw (f, ek, s, e) refl,
                (decorated_known l.kind, all),
                same,
              )
        ]

    -- If the batch collects its keys and the cache holds a road for each of them, `Apply` answers and leaves no unknown gap
    -- and no unknown distance.
    pub apply_of_IsAnswered :
        (j : Journey F) (keys : List Key)
        → unknown_keys j profile ≡ some keys
        → All IsAnswered keys
        → (j' : Journey F) × (apply j profile lookup ≡ some j')
          × All (λ m. is_unknown m.kind m.gap_kind ≡ false) j'.legs
          × (j'.unknown_km ≡ fl.of_ℕ 0)
    unfolding apply unknown_keys
    apply_of_IsAnswered j keys e a =
        let zero_km = fl.of_ℕ 0 in
        let (out, eq, all, same) =
          no_unknown_left j.legs keys zero_km zero_km a
            (keys_from-IsCollected profile j.legs [] keys e) in
        (
          record j { legs = out.0; routed_km = out.1; unknown_km = out.2 },
          rw (eq, apply) refl,
          all,
          same,
        )

    -- Each leg has become what its cached answer says, the two distances are the sums, from zero, and
    -- nothing that was measured has changed.
    pub record IsApplied (j j' : Journey F) : Type 0 where
      pub legs_become : Becomes j.legs (fl.of_ℕ 0) (fl.of_ℕ 0) j'.legs j'.routed_km j'.unknown_km
      pub same_stops : j'.stops ≡ j.stops
      pub same_observed : j'.observed_km ≡ j.observed_km
      pub same_air : j'.air_km ≡ j.air_km
      pub same_total : j'.total_km ≡ j.total_km

    apply-IsApplied :
        (j : Journey F)
        → All (HasEnds profile) j.legs
        → (j' : Journey F) × (apply j profile lookup ≡ some j') × IsApplied j j'
    unfolding apply Outcome
    apply-IsApplied j h =
        let (out, e, all) = apply_legs-Outcome j.legs (fl.of_ℕ 0) (fl.of_ℕ 0) h in
        (
          record j { legs = out.0; routed_km = out.1; unknown_km = out.2 },
          rw (e, apply) refl,
          record {
            legs_become = all;
            same_stops = refl;
            same_observed = refl;
            same_air = refl;
            same_total = refl;
          },
        )

  -- On an assembled journey `Apply` answers for any cache: an unknown gap whose key has a cached road
  -- becomes a gap by road with the answer's points and kilometres, every other leg is left as it is, the
  -- routed and the unknown distance are the sums over the gaps with and without a road, and the stops, the
  -- total, the observed and the air distance are left as they are.
  pub apply-assemble :
      (lookup : Key → Option (Cached F)) (obs : Observations F) (win_start win_end : Time)
      (p : Params F)
      → let j = assemble obs win_start win_end p in
        (j' : Journey F) × (apply j profile lookup ≡ some j') × IsApplied lookup j j'
  unfolding assemble
  apply-assemble lookup obs win_start win_end p =
      apply-IsApplied lookup (assemble obs win_start win_end p)
        (split_legs-HasEnds profile p (kept_points obs win_start win_end p))
