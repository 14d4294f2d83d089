-- ===== src/Detect/PyPort/Bisect.antt =====
-- About the binary searches of internal/detect/pyport.go: how they end and what the answer parts.
use roadbook.Prelude.{
  ◌∙◌, subst, sym, ap, All, if◌then◌else◌, not-ltb→le, ltb→lt, ℕ, zero, suc, ◌+◌, ◌-◌, ◌/◌, ◌≤◌,
  ◌<◌, ◌≡◌, refl, Bool, true, false, List, [], ◌∷◌, some, Bool-cases, inl, inr, ltb, length,
  get_elem?, arith,
}
use mathlib.Core.Option.{some-injective}
use native.Mathlib.Nat.{le_of_eq}
use roadbook.Times.{Time, before}
use roadbook.Detect.PyPort.{bisect_left, bisect_right, bisect_loop}

pub get_elem?-lt {ℓ} :
    {A : Type ℓ} (xs : List A) (k : ℕ) → k < length xs → (x : A) × (get_elem? xs k ≡ some x)
get_elem?-lt [] k h = absurd (omega arith)
get_elem?-lt (x ∷ xs) zero h = (x, refl)
get_elem?-lt (x ∷ xs) (suc k) h = get_elem?-lt xs k (omega arith)

get_elem?-ge {ℓ} :
    {A : Type ℓ} (xs : List A) (k : ℕ) (x : A) → length xs ≤ k → get_elem? xs k ≡ some x → ⊥
get_elem?-ge [] k x h e = cc
get_elem?-ge (y ∷ xs) zero x h e = absurd (omega arith)
get_elem?-ge (y ∷ xs) (suc k) x h e = get_elem?-ge xs k x (omega arith) e

-- The answer parts the elements that lie before it from those behind.
pub record IsBoundary {ℓ} {A : Type ℓ} (right : A → Bool) (xs : List A) (r : ℕ) : Type ℓ where
  pub below : (k : ℕ) (x : A) → k < r → get_elem? xs k ≡ some x → right x ≡ true
  pub above : (k : ℕ) (x : A) → r ≤ k → get_elem? xs k ≡ some x → right x ≡ false

-- Once the test fails, it fails for all that follow.
abbrev pub IsMonotone : (Time → Bool) → List Time → Type 0
IsMonotone right ts =
    (i j : ℕ) (a b : Time)
    → i ≤ j
    → get_elem? ts i ≡ some a
    → get_elem? ts j ≡ some b
    → right b ≡ true
    → right a ≡ true

module _ (right : Time → Bool) (ts : List Time) where
  bisect_loop-total :
      (fuel lo hi : ℕ)
      → lo ≤ hi
      → hi ≤ length ts
      → hi - lo < fuel
      → (r : ℕ) × (bisect_loop right ts fuel lo hi ≡ some r) × (r ≤ hi)
  unfolding bisect_loop
  bisect_loop-total zero lo hi h h' f = absurd (omega arith)
  bisect_loop-total (suc fuel) lo hi h h' f = elim (Bool-cases (ltb lo hi)) [
    | inr e ↦ (lo, rw e refl, h)
    | inl e ↦
        let (t, at) = get_elem?-lt ts ((lo + hi) / 2) (ground arith) in
        elim (Bool-cases (right t)) [
          | inl r ↦
              let (a, eq, le) =
                bisect_loop-total fuel ((lo + hi) / 2 + 1) hi (ground arith) h' (ground arith) in
              (a, rw (e, at, r) eq, le)
          | inr r ↦
              let (a, eq, le) =
                bisect_loop-total fuel lo ((lo + hi) / 2) (ground arith) (ground arith)
                  (ground arith) in
              (a, rw (e, at, r) eq, omega (arith, ltb→lt lo hi e))
        ]
  ]

  module _ (mono : IsMonotone right ts) where
    fails_behind :
        (i j : ℕ) (a b : Time)
        → i ≤ j
        → get_elem? ts i ≡ some a
        → get_elem? ts j ≡ some b
        → right a ≡ false
        → right b ≡ false
    fails_behind i j a b le at at' f = elim (Bool-cases (right b)) [
      | inl e ↦ cc (mono i j a b le at at' e)
      | inr e ↦ e
    ]

    bisect_loop-IsBoundary :
        (fuel lo hi r : ℕ)
        → lo ≤ hi
        → hi ≤ length ts
        → ((k : ℕ) (x : Time) → k < lo → get_elem? ts k ≡ some x → right x ≡ true)
        → ((k : ℕ) (x : Time) → hi ≤ k → get_elem? ts k ≡ some x → right x ≡ false)
        → bisect_loop right ts fuel lo hi ≡ some r
        → IsBoundary right ts r
    unfolding bisect_loop
    bisect_loop-IsBoundary zero lo hi r h h' below above eq = cc
    bisect_loop-IsBoundary (suc fuel) lo hi r h h' below above eq = elim (Bool-cases (ltb lo hi)) [
      | inr e ↦
          let same : lo ≡ r = some-injective lo r (rw e at eq) in
          record {
            below = λ k x lt at. below k x (omega arith) at;
            above = λ k x le at. above k x (omega (arith, not-ltb→le lo hi e)) at;
          }
      | inl e ↦
          let mid = (lo + hi) / 2 in
          let inside : mid < hi = omega (arith, ltb→lt lo hi e) in
          let (t, at) = get_elem?-lt ts mid (omega arith) in
          elim (Bool-cases (right t)) [
            | inl rt ↦
                bisect_loop-IsBoundary fuel (mid + 1) hi r (omega arith) h'
                  (λ k x lt at'. mono k mid x t (omega arith) at' at rt) above
                  (rw (e, at, rt) at eq)
            | inr rt ↦
                bisect_loop-IsBoundary fuel lo mid r (omega arith) (omega arith) below
                  (λ k x le at'. fails_behind mid k t x le at at' rt) (rw (e, at, rt) at eq)
          ]
    ]

-- Instants in order.
abbrev pub IsChronological : List Time → Type 0
IsChronological [] = Unit
IsChronological (t ∷ ts) = All (λ u. t.instant ≤ u.instant) ts × IsChronological ts

All_get {ℓ κ} :
    {A : Type ℓ} (P : A → Type κ) (xs : List A) (k : ℕ) (x : A)
    → All P xs
    → get_elem? xs k ≡ some x
    → P x
All_get P [] k x h e = cc
All_get P (y ∷ xs) zero x h e = subst P (some-injective y x e) h.0
All_get P (y ∷ xs) (suc k) x h e = All_get P xs k x h.1 e

chronological :
    (ts : List Time) (i j : ℕ) (a b : Time)
    → IsChronological ts
    → i ≤ j
    → get_elem? ts i ≡ some a
    → get_elem? ts j ≡ some b
    → a.instant ≤ b.instant
chronological [] i j a b c le at at' = cc
chronological (t ∷ ts) zero zero a b c le at at' =
    le_of_eq (ap (λ (o : Time). o.instant) (sym (some-injective t a at) ∙ some-injective t b at'))
chronological (t ∷ ts) zero (suc j) a b c le at at' =
    subst (λ (o : Time). o.instant ≤ b.instant) (some-injective t a at)
      (All_get (λ u. t.instant ≤ u.instant) ts j b c.0 at')
chronological (t ∷ ts) (suc i) zero a b c le at at' = absurd (omega arith)
chronological (t ∷ ts) (suc i) (suc j) a b c le at at' =
    chronological ts i j a b c.1 (omega arith) at at'

module _ (ts : List Time) (target : Time) where
  -- The searches answer on every slice, sorted or not, and within it.
  pub bisect_total :
      ((r : ℕ) × (bisect_left ts target ≡ some r) × (r ≤ length ts))
      × ((r : ℕ) × (bisect_right ts target ≡ some r) × (r ≤ length ts))
  unfolding bisect_left bisect_right
  bisect_total = (
    bisect_loop-total (λ t. before t target) ts (suc (length ts)) 0 (length ts) (omega arith)
        (omega arith) (omega arith),
    bisect_loop-total (λ t. if before target t then false else true) ts (suc (length ts)) 0
        (length ts) (omega arith) (omega arith) (omega arith),
  )

  module _ (sorted : IsChronological ts) where
    -- In order of time, `bisect_left` parts the instants before the target from the others.
    pub bisect_left-IsBoundary :
        (r : ℕ) → bisect_left ts target ≡ some r → IsBoundary (λ t. before t target) ts r
    unfolding bisect_left
    bisect_left-IsBoundary r =
        bisect_loop-IsBoundary (λ t. before t target) ts
          (λ i j a b le at at' e. ground (arith, chronological ts i j a b sorted le at at'))
          (suc (length ts)) 0 (length ts) r (omega arith) (omega arith)
          (λ k x lt at. absurd (omega arith)) (λ k x le at. absurd (get_elem?-ge ts k x le at))

    -- `bisect_right` parts the instants up to the target from those after it.
    pub bisect_right-IsBoundary :
        (r : ℕ)
        → bisect_right ts target ≡ some r
        → IsBoundary (λ t. if before target t then false else true) ts r
    unfolding bisect_right
    bisect_right-IsBoundary r =
        bisect_loop-IsBoundary (λ t. if before target t then false else true) ts
          (λ i j a b le at at' e. ground (arith, chronological ts i j a b sorted le at at'))
          (suc (length ts)) 0 (length ts) r (omega arith) (omega arith)
          (λ k x lt at. absurd (omega arith)) (λ k x le at. absurd (get_elem?-ge ts k x le at))
