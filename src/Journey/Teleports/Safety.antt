-- ===== src/Journey/Teleports/Safety.antt =====
-- What teleport rejection keeps.
use roadbook.Prelude.{
  ◌+◌, ◌≡◌, refl, sym, ap, ◌∙◌, false, List, [], ◌∷◌, ◌++◌, Option, none, some, Bool-cases, inl,
  inr, append_assoc, append-nil, length, length-append, arith,
}
use roadbook.Floats.{Float}
use roadbook.Geo.{haversine_m}
use roadbook.Journey.Types.{Params, TimedPoint}
use roadbook.Journey.Legs.Partition.{head_point}
use roadbook.Journey.Teleports.{
  Cluster, members, last_point, clusters_from, clusters_of, speed, is_teleport, judge_clusters,
  judge_all, reject_teleports,
}

module _ {F : Type 0} where
  abbrev pub all_members : List (Cluster F) → List (TimedPoint F)
  all_members [] = []
  all_members (c ∷ cs) = members c ++ all_members cs

module _ {ℓ} {A : Type ℓ} where
  abbrev or_else : Option A → Option A → Option A
  or_else none o = o
  or_else (some x) o = some x

  abbrev pub get_last? : List A → Option A
  get_last? [] = none
  get_last? (x ∷ xs) = or_else (get_last? xs) (some x)

  or_else_assoc : (a b c : Option A) → or_else (or_else a b) c ≡ or_else a (or_else b c)
  or_else_assoc none b c = refl
  or_else_assoc (some x) b c = refl

  get_last?-append : (xs ys : List A) → get_last? (xs ++ ys) ≡ or_else (get_last? ys) (get_last? xs)
  get_last?-append [] [] = refl
  get_last?-append [] (y ∷ ys) = or_else_none (or_else (get_last? ys) (some y))
    where
      or_else_none : (o : Option A) → o ≡ or_else o none
      or_else_none none = refl
      or_else_none (some x) = refl
  get_last?-append (x ∷ xs) ys =
      ap (λ o. or_else o (some x)) (get_last?-append xs ys)
      ∙ or_else_assoc (get_last? ys) (get_last? xs) (some x)

  get_last?-congr :
      (xs ys zs : List A)
      → get_last? ys ≡ get_last? zs
      → get_last? (xs ++ ys) ≡ get_last? (xs ++ zs)
  get_last?-congr [] ys zs e = e
  get_last?-congr (x ∷ xs) ys zs e = ap (λ o. or_else o (some x)) (get_last?-congr xs ys zs e)

module _ {F : Type 0} ⦃fl : Float F⦄ (p : Params F) where
  clusters_from-members :
      (first : TimedPoint F) (others pts : List (TimedPoint F))
      → all_members (clusters_from p first others pts) ≡ first ∷ (others ++ pts)
  unfolding clusters_from
  clusters_from-members first others [] = refl
  clusters_from-members first others (q ∷ pts) =
      elim (Bool-cases (fl.lt p.cluster_radius_m (haversine_m first.loc q.loc))) [
        | inl e ↦ rw (e, clusters_from-members q [] pts) refl
        | inr e ↦ rw e (
            clusters_from-members first (others ++ (q ∷ [])) pts
            ∙ ap (λ l. first ∷ l) (append_assoc others (q ∷ []) pts))
      ]

  -- The clusters cut the stream into consecutive pieces.
  pub clusters_of-members : (pts : List (TimedPoint F)) → all_members (clusters_of p pts) ≡ pts
  unfolding clusters_of
  clusters_of-members [] = refl
  clusters_of-members (q ∷ pts) = clusters_from-members q [] pts

  length-judge_clusters :
      (cs : List (Cluster F)) (entry : TimedPoint F)
      → length (judge_clusters p entry cs).0 + (judge_clusters p entry cs).1
        ≡ length (all_members cs)
  unfolding judge_clusters
  length-judge_clusters [] entry = omega arith
  length-judge_clusters (c ∷ []) entry = omega (arith, ap length (append-nil (members c)))
  length-judge_clusters (c ∷ next ∷ more) entry =
      let rest = all_members (next ∷ more) in
      elim (Bool-cases (is_teleport p entry c next)) [
        | inl e ↦ rw e (
            omega
              (arith, length-judge_clusters (next ∷ more) entry, length-append (members c) rest))
        | inr e ↦ rw e (
            omega (
              arith,
              length-judge_clusters (next ∷ more) (last_point c),
              length-append (members c) (judge_clusters p (last_point c) (next ∷ more)).0,
              length-append (members c) rest,
            ))
      ]

  length-judge_all :
      (cs : List (Cluster F))
      → length (judge_all p cs).0 + (judge_all p cs).1 ≡ length (all_members cs)
  unfolding judge_all
  length-judge_all [] = omega arith
  length-judge_all (c ∷ cs) = omega (
    arith,
    length-judge_clusters cs (last_point c),
    length-append (members c) (judge_clusters p (last_point c) cs).0,
    length-append (members c) (all_members cs),
  )

  -- Every point is kept or counted as dropped.
  pub length-reject_teleports :
      (pts : List (TimedPoint F))
      → length (reject_teleports pts p).0 + (reject_teleports pts p).1 ≡ length pts
  unfolding reject_teleports
  length-reject_teleports pts =
      ground (arith, length-judge_all (clusters_of p pts), ap length (clusters_of-members pts))

  -- No edge between the clusters is impossible, `entry` standing before the first.
  abbrev pub IsPlausibleFrom : TimedPoint F → List (Cluster F) → Type 0
  IsPlausibleFrom entry [] = Unit
  IsPlausibleFrom entry (c ∷ cs) =
      (fl.lt p.max_speed_kmh (speed p entry c.first) ≡ false) × IsPlausibleFrom (last_point c) cs

  abbrev pub IsPlausible : List (Cluster F) → Type 0
  IsPlausible [] = Unit
  IsPlausible (c ∷ cs) = IsPlausibleFrom (last_point c) cs

  judge_clusters_of_IsPlausible :
      (cs : List (Cluster F)) (entry : TimedPoint F)
      → IsPlausibleFrom entry cs
      → judge_clusters p entry cs ≡ (all_members cs, 0)
  unfolding judge_clusters is_teleport
  judge_clusters_of_IsPlausible [] entry h = refl
  judge_clusters_of_IsPlausible (c ∷ []) entry h = ap (λ l. (l, 0)) (sym (append-nil (members c)))
  judge_clusters_of_IsPlausible (c ∷ next ∷ more) entry (h, hs) =
      rw (fine, judge_clusters_of_IsPlausible (next ∷ more) (last_point c) hs) refl
    where
      fine : is_teleport p entry c next ≡ false
      fine = rw (h, hs.0) refl

  judge_all_of_IsPlausible : (cs : List (Cluster F)) → IsPlausible cs → (judge_all p cs).1 ≡ 0
  unfolding judge_all
  judge_all_of_IsPlausible [] h = refl
  judge_all_of_IsPlausible (c ∷ cs) h = rw (judge_clusters_of_IsPlausible cs (last_point c) h) refl

  -- A stream with no impossible edge keeps every point, whatever distances it covers.
  reject_teleports_of_IsPlausible :
      (pts : List (TimedPoint F))
      → IsPlausible (clusters_of p pts)
      → reject_teleports pts p ≡ (pts, 0)
  unfolding reject_teleports
  reject_teleports_of_IsPlausible pts h =
      ground (arith, judge_all_of_IsPlausible (clusters_of p pts) h)

  -- The ends of the stream are never dropped.
  judge_clusters-last :
      (cs : List (Cluster F)) (c : Cluster F) (entry : TimedPoint F)
      → get_last? (judge_clusters p entry (c ∷ cs)).0 ≡ get_last? (all_members (c ∷ cs))
  unfolding judge_clusters
  judge_clusters-last [] c entry = ap get_last? (sym (append-nil (members c)))
  judge_clusters-last (next ∷ more) c entry = elim (Bool-cases (is_teleport p entry c next)) [
    | inl e ↦ rw e (
        judge_clusters-last more next entry
        ∙ sym (
            last_behind (members c) (get_last? (next.others ++ all_members more)) next.first
              (get_last?-append (members c) (all_members (next ∷ more)))))
    | inr e ↦ rw e (get_last?-congr (members c) _ _ (judge_clusters-last more next (last_point c)))
  ]
    where
      last_behind :
          (xs : List (TimedPoint F)) (o : Option (TimedPoint F)) (y : TimedPoint F)
          {l : Option (TimedPoint F)}
          → l ≡ or_else (or_else o (some y)) (get_last? xs)
          → l ≡ or_else o (some y)
      last_behind xs none y e = e
      last_behind xs (some z) y e = e

  judge_all-last :
      (cs : List (Cluster F)) → get_last? (judge_all p cs).0 ≡ get_last? (all_members cs)
  unfolding judge_all
  judge_all-last [] = refl
  judge_all-last (c ∷ []) = refl
  judge_all-last (c ∷ d ∷ cs) =
      get_last?-congr (members c) _ _ (judge_clusters-last cs d (last_point c))

  judge_all-first :
      (cs : List (Cluster F)) → head_point (judge_all p cs).0 ≡ head_point (all_members cs)
  unfolding judge_all
  judge_all-first [] = refl
  judge_all-first (c ∷ cs) = refl

  -- The first and the last point of the stream are never dropped.
  reject_teleports_ends :
      (pts : List (TimedPoint F))
      → (head_point (reject_teleports pts p).0 ≡ head_point pts)
        × (get_last? (reject_teleports pts p).0 ≡ get_last? pts)
  unfolding reject_teleports
  reject_teleports_ends pts =
      let cs = clusters_of p pts in
      ground (
        arith,
        judge_all-first cs,
        judge_all-last cs,
        ap head_point (clusters_of-members pts),
        ap get_last? (clusters_of-members pts),
      )
