-- ===== src/Prelude/Sort.antt =====
-- `sort.SliceStable`: the stable sort by a "less" test, as an insertion sort, and its laws.
use mathlib.Core.List.Perm
use Prim.Native.Nat.{ℕ, suc}
use native.Mathlib.Omega.{arith}
use roadbook.Prelude.Tests.{if◌then◌else◌, Bool-cases, ltb, ◌==◌}
use roadbook.Prelude.Lists.{length, All, All-map, mem_cases}
use mathlib.Core.Path.{◌≡◌, refl, ap, ◌∙◌}
use mathlib.Core.Logic.{inl, inr}
use mathlib.Core.Bool.{Bool, true, false}
use mathlib.Core.List.{List, [], ◌∷◌, Perm, Memᴰ}

module _ {ℓ} {A : Type ℓ} (less : A → A → Bool) where
  -- `x` goes before the first element that is not less than it.
  unfoldable pub insert : A → List A → List A
  insert x [] = x ∷ []
  insert x (y ∷ ys) = if less y x then y ∷ insert x ys else x ∷ y ∷ ys

  unfoldable pub sort_stable : List A → List A
  unfolding insert
  sort_stable [] = []
  sort_stable (x ∷ xs) = insert x (sort_stable xs)

  -- No element is less than one before it.
  abbrev pub IsSorted : List A → Type 0
  IsSorted [] = Unit
  IsSorted (x ∷ xs) = All (λ y. less y x ≡ false) xs × IsSorted xs

-- A "less" test that sorts: a strict weak order.
pub record IsOrder {ℓ} {A : Type ℓ} (less : A → A → Bool) : Type ℓ where
  pub asym : (a b : A) → less a b ≡ true → less b a ≡ false
  pub trans : (a b c : A) → less b a ≡ false → less c b ≡ false → less c a ≡ false

-- A strict weak order by a number, and by another order where the numbers agree.
module _ {ℓ} {A : Type ℓ} (key : A → ℕ) where
  pub by_key-IsOrder : IsOrder (λ a b. ltb (key a) (key b))
  by_key-IsOrder = record { asym = λ a b h. ground arith; trans = λ a b c h k. ground arith }

  pub lex-IsOrder :
      (next : A → A → Bool)
      → IsOrder next
      → IsOrder (λ a b. if key a == key b then next a b else ltb (key a) (key b))
  lex-IsOrder next order = record {
    asym = λ a b h. ground (arith, order.asym a b);
    trans = λ a b c h k. ground (arith, order.trans a b c);
  }

module _ {ℓ} {A : Type ℓ} (less : A → A → Bool) where
  pub IsOrder-irrefl : IsOrder less → (a : A) → less a a ≡ false
  IsOrder-irrefl order a = elim (Bool-cases (less a a)) [ inl e ↦ order.asym a a e | inr e ↦ e ]

  insert-Mem_new : {a : A} (x : A) (xs : List A) → a ≡ x → Memᴰ a (insert less x xs)
  unfolding insert
  insert-Mem_new x [] e = Memᴰ.head e
  insert-Mem_new x (y ∷ ys) e = elim (Bool-cases (less y x)) [
    | inl l ↦ rw l (Memᴰ.tail (insert-Mem_new x ys e))
    | inr l ↦ rw l (Memᴰ.head e)
  ]

  insert-Mem_old : {a : A} (x : A) (xs : List A) → Memᴰ a xs → Memᴰ a (insert less x xs)
  unfolding insert
  insert-Mem_old x [] m = Memᴰ.tail m
  insert-Mem_old x (y ∷ ys) m = elim (Bool-cases (less y x)) [
    | inl l ↦ rw l (past m (λ d. insert-Mem_old x ys d))
    | inr l ↦ rw l (Memᴰ.tail m)
  ]
    where
      past :
          {a : A}
          → Memᴰ a (y ∷ ys)
          → (Memᴰ a ys → Memᴰ a (insert less x ys))
          → Memᴰ a (y ∷ insert less x ys)
      past (Memᴰ.head e) f = Memᴰ.head e
      past (Memᴰ.tail d) f = Memᴰ.tail (f d)

  pub sort_stable-Mem : {a : A} (xs : List A) → Memᴰ a xs → Memᴰ a (sort_stable less xs)
  unfolding sort_stable
  sort_stable-Mem [] m = elim m [ ]
  sort_stable-Mem (x ∷ xs) (Memᴰ.head e) = insert-Mem_new x (sort_stable less xs) e
  sort_stable-Mem (x ∷ xs) (Memᴰ.tail m) =
      insert-Mem_old x (sort_stable less xs) (sort_stable-Mem xs m)

  insert-Mem_of : {a : A} (x : A) (xs : List A) → Memᴰ a (insert less x xs) → Memᴰ a (x ∷ xs)
  unfolding insert
  insert-Mem_of x [] m = m
  insert-Mem_of x (y ∷ ys) m = elim (Bool-cases (less y x)) [
    | inl l ↦ swap (rw l at m) (λ d. insert-Mem_of x ys d)
    | inr l ↦ rw l at m
  ]
    where
      sink : {a : A} → Memᴰ a (x ∷ ys) → Memᴰ a (x ∷ y ∷ ys)
      sink (Memᴰ.head e) = Memᴰ.head e
      sink (Memᴰ.tail d) = Memᴰ.tail (Memᴰ.tail d)

      swap :
          {a : A}
          → Memᴰ a (y ∷ insert less x ys)
          → (Memᴰ a (insert less x ys) → Memᴰ a (x ∷ ys))
          → Memᴰ a (x ∷ y ∷ ys)
      swap (Memᴰ.head e) f = Memᴰ.tail (Memᴰ.head e)
      swap (Memᴰ.tail d) f = sink (f d)

  pub sort_stable-Mem_of : {a : A} (xs : List A) → Memᴰ a (sort_stable less xs) → Memᴰ a xs
  unfolding sort_stable
  sort_stable-Mem_of [] m = m
  sort_stable-Mem_of (x ∷ xs) m = elim (mem_cases (insert-Mem_of x (sort_stable less xs) m)) [
    | inl e ↦ Memᴰ.head e
    | inr d ↦ Memᴰ.tail (sort_stable-Mem_of xs d)
  ]

  pub insert-perm : (x : A) (xs : List A) → Perm (insert less x xs) (x ∷ xs)
  unfolding insert
  insert-perm x [] = Perm.rfl
  insert-perm x (y ∷ ys) = elim (Bool-cases (less y x)) [
    | inl e ↦ rw e (Perm.trans (Perm.cons y (insert-perm x ys)) (Perm.swap x y ys))
    | inr e ↦ rw e Perm.rfl
  ]

  -- A sort loses nothing and adds nothing.
  pub sort_stable-perm : (xs : List A) → Perm (sort_stable less xs) xs
  unfolding sort_stable
  sort_stable-perm [] = Perm.rfl
  sort_stable-perm (x ∷ xs) =
      Perm.trans (insert-perm x (sort_stable less xs)) (Perm.cons x (sort_stable-perm xs))

  length-insert : (x : A) (xs : List A) → length (insert less x xs) ≡ suc (length xs)
  unfolding insert
  length-insert x [] = refl
  length-insert x (y ∷ ys) = elim (Bool-cases (less y x)) [
    | inl e ↦ rw e (ap suc (length-insert x ys))
    | inr e ↦ rw e refl
  ]

  pub length-sort_stable : (xs : List A) → length (sort_stable less xs) ≡ length xs
  unfolding sort_stable
  length-sort_stable [] = refl
  length-sort_stable (x ∷ xs) =
      length-insert x (sort_stable less xs) ∙ ap suc (length-sort_stable xs)

  pub insert-All {κ} :
      (P : A → Type κ) (x : A) (xs : List A) → P x → All P xs → All P (insert less x xs)
  unfolding insert
  insert-All P x [] p ps = (p, tt)
  insert-All P x (y ∷ ys) p (q, qs) = elim (Bool-cases (less y x)) [
    | inl e ↦ rw e (q, insert-All P x ys p qs)
    | inr e ↦ rw e (p, (q, qs))
  ]

  pub sort_stable-All {κ} : (P : A → Type κ) (xs : List A) → All P xs → All P (sort_stable less xs)
  unfolding sort_stable
  sort_stable-All P [] _ = tt
  sort_stable-All P (x ∷ xs) (p, ps) =
      insert-All P x (sort_stable less xs) p (sort_stable-All P xs ps)

  module _ (order : IsOrder less) where
    insert-IsSorted : (x : A) (xs : List A) → IsSorted less xs → IsSorted less (insert less x xs)
    unfolding insert
    insert-IsSorted x [] s = (tt, tt)
    insert-IsSorted x (y ∷ ys) (above, s) = elim (Bool-cases (less y x)) [
      | inl e ↦
          rw e (
            insert-All (λ z. less z y ≡ false) x ys (order.asym y x e) above,
            insert-IsSorted x ys s,
          )
      | inr e ↦ rw e ((e, All-map (λ z h. order.trans x y z e h) ys above), (above, s))
    ]

    pub sort_stable-IsSorted : (xs : List A) → IsSorted less (sort_stable less xs)
    unfolding sort_stable
    sort_stable-IsSorted [] = tt
    sort_stable-IsSorted (x ∷ xs) =
        insert-IsSorted x (sort_stable less xs) (sort_stable-IsSorted xs)
