-- ===== src/Detect/Bases.antt =====
-- internal/detect/bases.go: home bases from clustered evidence. The map of groups with its order of
-- first sight is one association list in that order. A cell with a NaN is a key
-- that no lookup finds: each of its pieces of evidence is a new group, which reads as empty. `none` is the
-- panic of a median of nothing.
pub mod Numbers
use text.Mathlib.Text.{◌==◌ as str_eq}
use roadbook.Prelude.{
  ℕ, ◌+◌, ◌-◌, ◌/◌, ◌%◌, Bool, ◌&&◌, ◌||◌, not, List, [], ◌∷◌, ◌++◌, map, foldl, Option, none, some,
  ltb, ◌==◌, length, if◌then◌else◌, get_elem?, flat_map,
}
use roadbook.Prelude.Sort.{sort_stable}
use roadbook.Floats.{Float}
use roadbook.Domain.{LatLng, Visit}
use roadbook.Geo.{haversine_m}
use roadbook.Detect.Params.{BaseParams}
use roadbook.Detect.PyPort.{py_round, civil_date}

pub record Base (F : Type 0) : Type 0 where
  pub center : LatLng F
  pub from : ℕ
  pub to : ℕ
  pub n : ℕ

pub record BaseEvidence (F : Type 0) : Type 0 where
  pub date : ℕ
  pub loc : LatLng F

pub record Group (F : Type 0) : Type 0 where
  pub cell : LatLng F
  pub items : List (BaseEvidence F)

pub record Cluster (F : Type 0) : Type 0 where
  pub center : LatLng F
  pub items : List (BaseEvidence F)

-- The evidence of one visit: none without a place or without the wanted meaning.
unfoldable pub home_evidence : {F : Type 0} → Visit F → List (BaseEvidence F)
home_evidence v = elim v.loc [
  | none ↦ []
  | some loc ↦
      if str_eq v.semantic_type "INFERRED_HOME"
      then record { date = civil_date v.start; loc = loc } ∷ []
      else []
]

-- The distinct days among some dates.
add_day : List ℕ → ℕ → List ℕ
add_day [] d = d ∷ []
add_day (e ∷ days) d = let rest = add_day days d in if d == e then e ∷ days else e ∷ rest

unfoldable pub distinct_days : List ℕ → List ℕ
unfolding add_day
distinct_days dates = foldl add_day [] dates

module _ {F : Type 0} ⦃fl : Float F⦄ where
  open fl use {of_ℕ, add, mul, div, lt, eq}

  -- The grid cell of a place.
  unfoldable pub cell_of : BaseParams F → LatLng F → LatLng F
  cell_of bp loc = record {
    lat = div (py_round (mul loc.lat bp.grid_per_deg) 0) bp.grid_per_deg;
    lon = div (py_round (mul loc.lon bp.grid_per_deg) 0) bp.grid_per_deg;
  }

  -- Whether a cell is found under itself in a map.
  abbrev pub is_key : LatLng F → Bool
  is_key c = eq c.lat c.lat && eq c.lon c.lon

  -- `groups[c] = append(groups[c], e)`, a new cell going last.
  unfoldable pub add_to_group : LatLng F → BaseEvidence F → List (Group F) → List (Group F)
  add_to_group c e [] = record { cell = c; items = if is_key c then e ∷ [] else [] } ∷ []
  add_to_group c e (g ∷ gs) =
      let rest = add_to_group c e gs in
      if eq g.cell.lat c.lat && eq g.cell.lon c.lon
      then record { cell = g.cell; items = g.items ++ (e ∷ []) } ∷ gs
      else g ∷ rest

  unfoldable pub group_evidence : BaseParams F → List (BaseEvidence F) → List (Group F)
  unfolding cell_of add_to_group
  group_evidence bp ev = foldl (λ gs e. add_to_group (cell_of bp e.loc) e gs) [] ev

  -- Larger groups first.
  unfoldable pub more_items : Group F → Group F → Bool
  more_items g h = ltb (length h.items) (length g.items)

  abbrev pub average : Option F → Option F → Option F
  average none y = none
  average (some x) none = none
  average (some x) (some y) = some (div (add x y) (of_ℕ 2))

  unfoldable pub median_of : List (BaseEvidence F) → (BaseEvidence F → F) → Option F
  median_of items f =
      let vals = sort_stable lt (map f items) in
      let n = length vals in
      if n % 2 == 1
      then get_elem? vals (n / 2)
      else average (get_elem? vals (n / 2 - 1)) (get_elem? vals (n / 2))

  abbrev pub place_at : Option F → Option F → Option (LatLng F)
  place_at none lon = none
  place_at (some lat) none = none
  place_at (some lat) (some lon) = some (record { lat = lat; lon = lon })

  unfoldable pub median_place : List (BaseEvidence F) → Option (LatLng F)
  unfolding median_of
  median_place items =
      place_at (median_of items (λ e. e.loc.lat)) (median_of items (λ e. e.loc.lon))

  -- The first cluster near enough takes the items; its center stays that of its first group.
  unfoldable pub merge_group :
      BaseParams F → LatLng F → List (BaseEvidence F) → List (Cluster F) → List (Cluster F)
  merge_group bp center items [] = record { center = center; items = items } ∷ []
  merge_group bp center items (c ∷ cs) =
      let rest = merge_group bp center items cs in
      if lt (haversine_m c.center center) bp.merge_m
      then record { center = c.center; items = c.items ++ items } ∷ cs
      else c ∷ rest

  abbrev pub merge_at :
      BaseParams F
      → List (BaseEvidence F)
      → Option (LatLng F)
      → List (Cluster F)
      → Option (List (Cluster F))
  merge_at bp items none cs = none
  merge_at bp items (some center) cs = some (merge_group bp center items cs)

  abbrev pub merge_next :
      BaseParams F → Option (List (Cluster F)) → Group F → Option (List (Cluster F))
  merge_next bp none g = none
  merge_next bp (some cs) g = merge_at bp g.items (median_place g.items) cs

  unfoldable pub merge_groups :
      BaseParams F → List (Group F) → Option (List (Cluster F)) → Option (List (Cluster F))
  unfolding merge_group median_place
  merge_groups bp [] cs = cs
  merge_groups bp (g ∷ groups) cs = merge_groups bp groups (merge_next bp cs g)

  unfoldable pub clusters_of : BaseParams F → List (BaseEvidence F) → Option (List (Cluster F))
  unfolding merge_groups more_items group_evidence
  clusters_of bp ev = merge_groups bp (sort_stable more_items (group_evidence bp ev)) (some [])

  -- Enough evidence, and on enough days where a number of days is asked for.
  enough : BaseParams F → ℕ → List (BaseEvidence F) → Bool
  unfolding distinct_days
  enough bp min_days items =
      let days = distinct_days (map (λ e. e.date) items) in
      not (ltb (length items) bp.min_visits)
      && (not (ltb 0 min_days) || not (ltb (length days) min_days))

  abbrev pub base_at : BaseParams F → ℕ → Option (LatLng F) → Option ℕ → Option ℕ → Option (Base F)
  base_at bp n none first final = none
  base_at bp n (some center) none final = none
  base_at bp n (some center) (some first) none = none
  base_at bp n (some center) (some first) (some final) = some (record {
    center = record { lat = py_round center.lat 6; lon = py_round center.lon 6 };
    from = first - bp.era_pad_days;
    to = final + bp.era_pad_days;
    n = n;
  })

  unfoldable pub base_of : BaseParams F → List (BaseEvidence F) → Option (Base F)
  unfolding median_place
  base_of bp items =
      let dates = sort_stable ltb (map (λ e. e.date) items) in
      base_at bp (length items) (median_place items) (get_elem? dates 0)
        (get_elem? dates (length dates - 1))

  abbrev pub add_base : Option (Base F) → Option (List (Base F)) → Option (List (Base F))
  add_base none rest = none
  add_base (some b) none = none
  add_base (some b) (some rest) = some (b ∷ rest)

  unfoldable pub bases_of : BaseParams F → ℕ → List (Cluster F) → Option (List (Base F))
  unfolding enough base_of
  bases_of bp min_days [] = some []
  bases_of bp min_days (c ∷ cs) =
      let rest = bases_of bp min_days cs in
      if enough bp min_days c.items then add_base (base_of bp c.items) rest else rest

  abbrev pub bases_at : BaseParams F → ℕ → Option (List (Cluster F)) → Option (List (Base F))
  bases_at bp min_days none = none
  bases_at bp min_days (some cs) = bases_of bp min_days cs

  unfoldable pub cluster_bases : List (BaseEvidence F) → BaseParams F → ℕ → Option (List (Base F))
  unfolding bases_of clusters_of
  cluster_bases ev bp min_days = bases_at bp min_days (clusters_of bp ev)

  unfoldable pub derive_bases : List (Visit F) → BaseParams F → Option (List (Base F))
  unfolding home_evidence cluster_bases
  derive_bases visits bp = cluster_bases (flat_map home_evidence visits) bp 0
