-- ===== src/Detect/Observed/Located.antt =====
-- About `flatten` of internal/detect/detect.go: which observations it holds.
use mathlib.Core.List.{flat_map}
use roadbook.Prelude.{
  ◌≡◌, ap₂, subst, sym, refl, ◌⊎◌, inl, inr, ◌↔◌, List, [], ◌∷◌, ◌++◌, Option, none, some, Memᴰ,
  mem_cases, ap,
}
use roadbook.Prelude.Sort.{sort_stable-Mem_of, sort_stable-Mem}
use roadbook.Times.{Time}
use roadbook.Domain.{LatLng, Visit, Activity, PathPoint, RawPosition}
use roadbook.Detect.Observed.{Obs, located, observed, earlier, flatten}

append-Mem_left {ℓ} :
    {A : Type ℓ} {a : A} {xs : List A} (ys : List A) → Memᴰ a xs → Memᴰ a (xs ++ ys)
append-Mem_left ys (Memᴰ.head e) = Memᴰ.head e
append-Mem_left ys (Memᴰ.tail m) = Memᴰ.tail (append-Mem_left ys m)

append-Mem_right {ℓ} :
    {A : Type ℓ} {a : A} (xs : List A) {ys : List A} → Memᴰ a ys → Memᴰ a (xs ++ ys)
append-Mem_right [] m = m
append-Mem_right (x ∷ xs) m = Memᴰ.tail (append-Mem_right xs m)

append-Mem_of {ℓ} :
    {A : Type ℓ} {a : A} (xs : List A) {ys : List A} → Memᴰ a (xs ++ ys) → Memᴰ a xs ⊎ Memᴰ a ys
append-Mem_of [] m = inr m
append-Mem_of (x ∷ xs) m = elim (mem_cases m) [
  | inl e ↦ inl (Memᴰ.head e)
  | inr d ↦ elim (append-Mem_of xs d) [ inl n ↦ inl (Memᴰ.tail n) | inr n ↦ inr n ]
]

flat_map-Mem {ℓ κ} :
    {A : Type ℓ} {B : Type κ} (f : A → List B) {x : A} {y : B} (xs : List A)
    → Memᴰ x xs
    → Memᴰ y (f x)
    → Memᴰ y (flat_map f xs)
unfolding flat_map
flat_map-Mem f [] d m = elim d [ ]
flat_map-Mem f {x} {y} (z ∷ xs) (Memᴰ.head e) m = append-Mem_left _ (subst (λ w. Memᴰ y (f w)) e m)
flat_map-Mem f (z ∷ xs) (Memᴰ.tail d) m = append-Mem_right (f z) (flat_map-Mem f xs d m)

flat_map-Mem_of {ℓ κ} :
    {A : Type ℓ} {B : Type κ} (f : A → List B) {y : B} (xs : List A)
    → Memᴰ y (flat_map f xs)
    → (x : A) × Memᴰ x xs × Memᴰ y (f x)
unfolding flat_map
flat_map-Mem_of f [] m = elim m [ ]
flat_map-Mem_of f (z ∷ xs) m = elim (append-Mem_of (f z) m) [
  | inl here ↦ (z, Memᴰ.head refl, here)
  | inr later ↦ let (x, d, n) = flat_map-Mem_of f xs later in (x, Memᴰ.tail d, n)
]

module _ {F : Type 0} where
  -- The observation of something at a place over a time.
  pub record IsAt (loc : Option (LatLng F)) (start end : Time) (ob : Obs F) : Type 0 where
    pub has_loc : loc ≡ some ob.loc
    pub starts : ob.start ≡ start
    pub ends : ob.end ≡ end

  -- What is observed: a visit, the departure or the arrival of an activity, a path point or a photo, if it
  -- has a place.
  pub data IsObserved (visits : List (Visit F)) (acts : List (Activity F))
      (pts : List (PathPoint F)) (photos : List (RawPosition F)) (ob : Obs F) : Type 0 where
    of_visit :
        {v : Visit F}
        → Memᴰ v visits
        → IsAt v.loc v.start v.end ob
        → IsObserved visits acts pts photos ob
    of_departure :
        {a : Activity F}
        → Memᴰ a acts
        → IsAt a.from a.start a.start ob
        → IsObserved visits acts pts photos ob
    of_arrival :
        {a : Activity F}
        → Memᴰ a acts
        → IsAt a.to a.end a.end ob
        → IsObserved visits acts pts photos ob
    of_point :
        {p : PathPoint F}
        → Memᴰ p pts
        → IsAt p.loc p.time p.time ob
        → IsObserved visits acts pts photos ob
    of_photo :
        {r : RawPosition F}
        → Memᴰ r photos
        → IsAt r.loc r.time r.time ob
        → IsObserved visits acts pts photos ob

  located-IsAt :
      (start end : Time) (loc : Option (LatLng F)) {ob : Obs F}
      → Memᴰ ob (located start end loc)
      → IsAt loc start end ob
  located-IsAt start end none m = elim m [ ]
  located-IsAt start end (some loc) {ob} m = elim (mem_cases m) [
    | inl e ↦ record {
      has_loc = ap (λ (b : Obs F). some b.loc) (sym e);
      starts = ap (λ (b : Obs F). b.start) e;
      ends = ap (λ (b : Obs F). b.end) e;
    }
    | inr n ↦ elim n [ ]
  ]

  located-Mem :
      (start end : Time) (loc : Option (LatLng F)) {ob : Obs F}
      → IsAt loc start end ob
      → Memᴰ ob (located start end loc)
  located-Mem start end loc {ob} at =
      subst (λ l. Memᴰ ob (located start end l)) (sym at.has_loc)
        (Memᴰ.head
          (ap₂ (λ (s e : Time). record { start = s; end = e; loc = ob.loc }) at.starts at.ends))

  abbrev of_visits : Visit F → List (Obs F)
  of_visits v = located v.start v.end v.loc

  abbrev of_acts : Activity F → List (Obs F)
  of_acts a = located a.start a.start a.from ++ located a.end a.end a.to

  abbrev of_pts : PathPoint F → List (Obs F)
  of_pts p = located p.time p.time p.loc

  abbrev of_photos : RawPosition F → List (Obs F)
  of_photos r = located r.time r.time r.loc

  module _ (visits : List (Visit F)) (acts : List (Activity F)) (pts : List (PathPoint F))
      (photos : List (RawPosition F)) {ob : Obs F} where
    observed-Mem : IsObserved visits acts pts photos ob → Memᴰ ob (observed visits acts pts photos)
    unfolding observed
    observed-Mem (IsObserved.of_visit {v} m at) =
        append-Mem_left _ (flat_map-Mem of_visits visits m (located-Mem v.start v.end v.loc at))
    observed-Mem (IsObserved.of_departure {a} m at) = append-Mem_right (flat_map of_visits visits) (
        append-Mem_left _
          (flat_map-Mem of_acts acts m (append-Mem_left _ (located-Mem a.start a.start a.from at))))
    observed-Mem (IsObserved.of_arrival {a} m at) = append-Mem_right (flat_map of_visits visits) (
        append-Mem_left _ (
          flat_map-Mem of_acts acts m
            (append-Mem_right (located a.start a.start a.from) (located-Mem a.end a.end a.to at))))
    observed-Mem (IsObserved.of_point {p} m at) = append-Mem_right (flat_map of_visits visits) (
        append-Mem_right (flat_map of_acts acts)
          (append-Mem_left _ (flat_map-Mem of_pts pts m (located-Mem p.time p.time p.loc at))))
    observed-Mem (IsObserved.of_photo {r} m at) = append-Mem_right (flat_map of_visits visits) (
        append-Mem_right (flat_map of_acts acts) (
          append-Mem_right (flat_map of_pts pts)
            (flat_map-Mem of_photos photos m (located-Mem r.time r.time r.loc at))))

    observed-Mem_of :
        Memᴰ ob (observed visits acts pts photos) → IsObserved visits acts pts photos ob
    unfolding observed
    observed-Mem_of m = elim (append-Mem_of (flat_map of_visits visits) m) [
      | inl d ↦
          let (v, at, n) = flat_map-Mem_of of_visits visits d in
          IsObserved.of_visit at (located-IsAt v.start v.end v.loc n)
      | inr d ↦ elim (append-Mem_of (flat_map of_acts acts) d) [
        | inl e ↦
            let (a, at, n) = flat_map-Mem_of of_acts acts e in
            elim (append-Mem_of (located a.start a.start a.from) n) [
              | inl x ↦ IsObserved.of_departure at (located-IsAt a.start a.start a.from x)
              | inr x ↦ IsObserved.of_arrival at (located-IsAt a.end a.end a.to x)
            ]
        | inr e ↦ elim (append-Mem_of (flat_map of_pts pts) e) [
          | inl x ↦
              let (p, at, n) = flat_map-Mem_of of_pts pts x in
              IsObserved.of_point at (located-IsAt p.time p.time p.loc n)
          | inr x ↦
              let (r, at, n) = flat_map-Mem_of of_photos photos x in
              IsObserved.of_photo at (located-IsAt r.time r.time r.loc n)
        ]
      ]
    ]

    pub flatten-Mem :
        Memᴰ ob (flatten visits acts pts photos) ↔ IsObserved visits acts pts photos ob
    unfolding flatten
    flatten-Mem =
        let all = observed visits acts pts photos in
        (
          λ m. observed-Mem_of (sort_stable-Mem_of earlier all m),
          λ o. sort_stable-Mem earlier all (observed-Mem o),
        )
