-- ===== src/Detect/Bases/Numbers.antt =====
-- About the clustering of evidence whose grid cells are numbers.
use roadbook.Prelude.{
  suc, ℕ, ◌-◌, ◌/◌, ◌%◌, ◌≤◌, ◌≡◌, refl, ap, ◌∙◌, inl, inr, true, ◌&&◌, List, [], ◌∷◌, ◌++◌, All,
  Bool-cases, Option, none, some, length, length-append, map, foldl, get_elem?, ltb, ◌==◌, arith,
}
use roadbook.Prelude.Sort.{sort_stable, length-sort_stable, sort_stable-All}
use roadbook.Floats.{Float}
use roadbook.Domain.{LatLng}
use roadbook.Geo.{haversine_m}
use roadbook.Detect.Params.{BaseParams}
use roadbook.Detect.PyPort.Bisect.{get_elem?-lt}
use roadbook.Detect.Bases.{
  BaseEvidence, Group, Cluster, is_key, cell_of, add_to_group, group_evidence, more_items,
  median_of, median_place, merge_group, merge_groups, clusters_of, enough, base_at, base_of,
  bases_of, cluster_bases, average,
}

pub length-map {ℓ κ} :
    {A : Type ℓ} {B : Type κ} (f : A → B) (xs : List A) → length (map f xs) ≡ length xs
length-map f [] = refl
length-map f (x ∷ xs) = ap suc (length-map f xs)

-- There is an answer.
abbrev pub Answered : {A : Type 0} → Option A → Type 0
Answered {A} o = (a : A) × (o ≡ some a)

average-Answered :
    {F : Type 0} ⦃fl : Float F⦄ {x y : Option F} → Answered x → Answered y → Answered (average x y)
average-Answered ⦃fl⦄ (x, e) (y, e') = (fl.div (fl.add x y) (fl.of_ℕ 2), rw (e, e') refl)

base_at-Answered :
    {F : Type 0} ⦃fl : Float F⦄ (bp : BaseParams F) (n : ℕ) (center : Option (LatLng F))
    (first final : Option ℕ)
    → Answered center
    → Answered first
    → Answered final
    → Answered (base_at bp n center first final)
base_at-Answered bp n none first final (a, e) f l = cc
base_at-Answered bp n (some center) none final c (a, e) l = cc
base_at-Answered bp n (some center) (some first) none c f (a, e) = cc
base_at-Answered bp n (some center) (some first) (some final) c f l = (_, refl)

module _ {F : Type 0} ⦃fl : Float F⦄ where
  Filled : List (BaseEvidence F) → Type 0
  Filled items = 1 ≤ length items

  abbrev FilledGroup : Group F → Type 0
  FilledGroup g = Filled g.items

  abbrev FilledCluster : Cluster F → Type 0
  FilledCluster c = Filled c.items

  append-Filled : (xs ys : List (BaseEvidence F)) → Filled xs → Filled (xs ++ ys)
  unfolding Filled
  append-Filled xs ys h = omega (arith, length-append xs ys)

  -- The grid cell of each piece of evidence is a key that a map finds.
  abbrev pub HasKeys : BaseParams F → List (BaseEvidence F) → Type 0
  HasKeys bp = All (λ e. is_key (cell_of bp e.loc) ≡ true)

  add_to_group-Filled :
      (c : LatLng F) (e : BaseEvidence F) (gs : List (Group F))
      → is_key c ≡ true
      → All FilledGroup gs
      → All FilledGroup (add_to_group c e gs)
  unfolding add_to_group Filled
  add_to_group-Filled c e [] k h = rw k (omega arith, tt)
  add_to_group-Filled c e (g ∷ gs) k (p, h) =
      elim (Bool-cases (fl.eq g.cell.lat c.lat && fl.eq g.cell.lon c.lon)) [
        | inl same ↦ rw same (append-Filled g.items (e ∷ []) p, h)
        | inr other ↦ rw other (p, add_to_group-Filled c e gs k h)
      ]

  groups-Filled :
      (bp : BaseParams F) (ev : List (BaseEvidence F)) (gs : List (Group F))
      → HasKeys bp ev
      → All FilledGroup gs
      → All FilledGroup (foldl (λ gs e. add_to_group (cell_of bp e.loc) e gs) gs ev)
  groups-Filled bp [] gs k h = h
  groups-Filled bp (e ∷ ev) gs (k, ks) h =
      groups-Filled bp ev (add_to_group (cell_of bp e.loc) e gs) ks
        (add_to_group-Filled (cell_of bp e.loc) e gs k h)

  median_of-Answered :
      (items : List (BaseEvidence F)) (f : BaseEvidence F → F)
      → Filled items
      → Answered (median_of items f)
  unfolding median_of Filled
  median_of-Answered items f h =
      let vals = sort_stable fl.lt (map f items) in
      let same : length vals ≡ length items =
        length-sort_stable fl.lt (map f items) ∙ length-map f items in
      elim (Bool-cases (length vals % 2 == 1)) [
        | inl odd ↦ rw odd (get_elem?-lt vals (length vals / 2) (omega arith))
        | inr even ↦ rw even (
            average-Answered (get_elem?-lt vals (length vals / 2 - 1) (omega arith))
              (get_elem?-lt vals (length vals / 2) (omega arith)))
      ]

  median_place-Answered :
      (items : List (BaseEvidence F)) → Filled items → Answered (median_place items)
  unfolding median_place
  median_place-Answered items h =
      let (lat, e) = median_of-Answered items (λ e. e.loc.lat) h in
      let (lon, e') = median_of-Answered items (λ e. e.loc.lon) h in
      (record { lat = lat; lon = lon }, rw (e, e') refl)

  merge_group-Filled :
      (bp : BaseParams F) (center : LatLng F) (items : List (BaseEvidence F))
      (cs : List (Cluster F))
      → Filled items
      → All FilledCluster cs
      → All FilledCluster (merge_group bp center items cs)
  unfolding merge_group
  merge_group-Filled bp center items [] f h = (f, tt)
  merge_group-Filled bp center items (c ∷ cs) f (p, h) =
      elim (Bool-cases (fl.lt (haversine_m c.center center) bp.merge_m)) [
        | inl near ↦ rw near (append-Filled c.items items p, h)
        | inr far ↦ rw far (p, merge_group-Filled bp center items cs f h)
      ]

  abbrev Clustered : Option (List (Cluster F)) → Type 0
  Clustered o = (cs : List (Cluster F)) × (o ≡ some cs) × All FilledCluster cs

  merge_groups-Clustered :
      (bp : BaseParams F) (groups : List (Group F)) (cs : List (Cluster F))
      → All FilledGroup groups
      → All FilledCluster cs
      → Clustered (merge_groups bp groups (some cs))
  unfolding merge_groups
  merge_groups-Clustered bp [] cs h f = (cs, refl, f)
  merge_groups-Clustered bp (g ∷ groups) cs (p, h) f =
      let (center, e) = median_place-Answered g.items p in
      rw e (
        merge_groups-Clustered bp groups (merge_group bp center g.items cs) h
          (merge_group-Filled bp center g.items cs p f))

  clusters_of-Clustered :
      (bp : BaseParams F) (ev : List (BaseEvidence F))
      → HasKeys bp ev
      → Clustered (clusters_of bp ev)
  unfolding clusters_of group_evidence
  clusters_of-Clustered bp ev k =
      merge_groups-Clustered bp (sort_stable more_items (group_evidence bp ev)) []
        (sort_stable-All more_items FilledGroup (group_evidence bp ev)
          (groups-Filled bp ev [] k tt))
        tt

  base_of-Answered :
      (bp : BaseParams F) (items : List (BaseEvidence F))
      → Filled items
      → Answered (base_of bp items)
  unfolding base_of Filled
  base_of-Answered bp items h =
      let days = map (λ (e : BaseEvidence F). e.date) items in
      let dates = sort_stable ltb days in
      let same : length dates ≡ length items =
        length-sort_stable ltb days ∙ length-map (λ (e : BaseEvidence F). e.date) items in
      base_at-Answered bp (length items) (median_place items) (get_elem? dates 0)
        (get_elem? dates (length dates - 1)) (median_place-Answered items h)
        (get_elem?-lt dates 0 (omega arith)) (get_elem?-lt dates (length dates - 1) (omega arith))

  bases_of-Answered :
      (bp : BaseParams F) (min_days : ℕ) (cs : List (Cluster F))
      → All FilledCluster cs
      → Answered (bases_of bp min_days cs)
  unfolding bases_of
  bases_of-Answered bp min_days [] h = ([], refl)
  bases_of-Answered bp min_days (c ∷ cs) (p, h) =
      let (rest, e) = bases_of-Answered bp min_days cs h in
      let (b, e') = base_of-Answered bp c.items p in
      elim (Bool-cases (enough bp min_days c.items)) [
        | inl on ↦ (b ∷ rest, rw (on, e, e') refl)
        | inr off ↦ (rest, rw (off, e) refl)
      ]

  -- Clustering never takes the median of nothing, if all the cells are keys.
  pub cluster_bases-Answered :
      (ev : List (BaseEvidence F)) (bp : BaseParams F) (min_days : ℕ)
      → HasKeys bp ev
      → Answered (cluster_bases ev bp min_days)
  unfolding cluster_bases
  cluster_bases-Answered ev bp min_days k =
      let (cs, e, f) = clusters_of-Clustered bp ev k in rw e (bases_of-Answered bp min_days cs f)
