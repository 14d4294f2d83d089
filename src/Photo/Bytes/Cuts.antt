-- ===== src/Photo/Bytes/Cuts.antt =====
-- About cuts of bytes, and how a loop over them ends.
use mathlib.Core.Option.{some-injective}
use roadbook.Prelude.{
  inl, inr, sym, Bool-cases, subst, ℕ, zero, suc, ◌+◌, ◌-◌, ◌≤◌, ◌<◌, ◌≡◌, refl, ap, ◌∙◌, true,
  ◌&&◌, List, [], ◌∷◌, ◌++◌, Option, none, some, length, take, drop, leb, arith,
}
use roadbook.Photo.Bytes.{
  cut, be, be_at, same_bytes, Step, stop, next, found, Ending, stuck, done, follow, walk,
}

-- `part` lies in `data` from index `i` on.
pub record IsPart (bytes : List ℕ) (i : ℕ) (part : List ℕ) : Type 0 where
  pub before : List ℕ
  pub behind : List ℕ
  pub split : bytes ≡ before ++ (part ++ behind)
  pub index : length before ≡ i

pub take-drop {ℓ} : {A : Type ℓ} (n : ℕ) (xs : List A) → xs ≡ take n xs ++ drop n xs
take-drop zero xs = refl
take-drop (suc n) [] = refl
take-drop (suc n) (x ∷ xs) = ap (λ l. x ∷ l) (take-drop n xs)

length-take {ℓ} : {A : Type ℓ} (n : ℕ) (xs : List A) → n ≤ length xs → length (take n xs) ≡ n
length-take zero xs h = refl
length-take (suc n) [] h = absurd (omega arith)
length-take (suc n) (x ∷ xs) h = ap suc (length-take n xs (omega arith))

length-drop {ℓ} : {A : Type ℓ} (n : ℕ) (xs : List A) → length (drop n xs) ≡ length xs - n
length-drop zero xs = omega arith
length-drop (suc n) [] = omega arith
length-drop (suc n) (x ∷ xs) = (length-drop n xs ∙ omega arith)

within_bounds :
    (bytes : List ℕ) (i j : ℕ) → i ≤ j → j ≤ length bytes → (leb i j && leb j (length bytes)) ≡ true
within_bounds bytes i j h h' = ground arith

pub cut-IsPart :
    (bytes : List ℕ) (i j : ℕ)
    → i ≤ j
    → j ≤ length bytes
    → (part : List ℕ) × (cut bytes i j ≡ some part) × IsPart bytes i part × (length part ≡ j - i)
unfolding cut
cut-IsPart bytes i j h h' =
    let rest = drop i bytes in
    (
      take (j - i) rest,
      rw (within_bounds bytes i j h h') refl,
      record {
        before = take i bytes;
        behind = drop (j - i) rest;
        split = take-drop i bytes ∙ ap (λ l. take i bytes ++ l) (take-drop (j - i) rest);
        index = length-take i bytes (omega arith);
      },
      length-take (j - i) rest (rw (length-drop i bytes) (omega arith)),
    )

-- A cut that does not panic is within the bounds.
pub cut-some :
    (bytes : List ℕ) (i j : ℕ) {part : List ℕ}
    → cut bytes i j ≡ some part
    → IsPart bytes i part × (length part ≡ j - i)
unfolding cut
cut-some bytes i j {part} h = elim (Bool-cases (leb i j && leb j (length bytes))) [
  | inr e ↦ cc (rw e at h)
  | inl e ↦
      let (other, eq, p, l) = cut-IsPart bytes i j (ground arith) (ground arith) in
      let same = some-injective other part (sym eq ∙ h) in
      (subst (IsPart bytes i) same p, rw same at l)
]

pub be_at-some :
    (bytes : List ℕ) (i n : ℕ) → i + n ≤ length bytes → (v : ℕ) × (be_at bytes i n ≡ some v)
unfolding be_at
be_at-some bytes i n h =
    let (part, e, p, l) = cut-IsPart bytes i (i + n) (omega arith) h in
    (be part, rw (e, be_at) refl)

pub same_bytes→eq : (a b : List ℕ) → same_bytes a b ≡ true → a ≡ b
unfolding same_bytes
same_bytes→eq [] [] h = refl
same_bytes→eq [] (y ∷ b) h = cc
same_bytes→eq (x ∷ a) [] h = cc
same_bytes→eq (x ∷ a) (y ∷ b) h = grind (arith, same_bytes→eq a b)

pub same_bytes_refl : (a : List ℕ) → same_bytes a a ≡ true
unfolding same_bytes
same_bytes_refl [] = refl
same_bytes_refl (x ∷ a) = grind (arith, same_bytes_refl a)

-- An iteration that goes on where it stands never ends the loop.
pub walk_stuck {ℓ} :
    {A : Type ℓ} (body : ℕ → Option (Step A)) (i : ℕ)
    → body i ≡ some (next i)
    → (fuel : ℕ) → walk body fuel i ≡ stuck
unfolding walk
walk_stuck body i h zero = refl
walk_stuck body i h (suc fuel) = rw h (walk_stuck body i h fuel)

module _ {ℓ} {A : Type ℓ} (P : A → Type 0) where
  abbrev pub Holds : Option A → Type 0
  Holds none = Unit
  Holds (some a) = P a

  abbrev pub IsDone : Ending A → Type ℓ
  IsDone o = (answer : Option A) × (o ≡ done answer) × Holds answer

module _ {ℓ} {A : Type ℓ} (P : A → Type 0) (Q : ℕ → Type 0) (bound : ℕ) where
  -- An iteration at `i` that goes on does so further on, at an index of the walk, and `i` was below the
  -- bound.
  abbrev pub IsProgress : ℕ → Step A → Type 0
  IsProgress i stop = Unit
  IsProgress i (next j) = (i < j) × (i < bound) × Q j
  IsProgress i (found a) = P a

  abbrev pub IsSafe : ℕ → Option (Step A) → Type ℓ
  IsSafe i o = (s : Step A) × (o ≡ some s) × IsProgress i s

  follow-IsDone :
      (rest : ℕ → Ending A) (i : ℕ) (s : Step A)
      → IsProgress i s
      → ((j : ℕ) → i < j → i < bound → Q j → IsDone P (rest j))
      → IsDone P (follow rest (some s))
  follow-IsDone rest i stop p h = (none, refl, tt)
  follow-IsDone rest i (found a) p h = (some a, refl, p)
  follow-IsDone rest i (next j) (above, below, q) h = h j above below q

  -- A loop whose iterations are safe ends, given one more step than there are indices left.
  pub walk-IsDone :
      (body : ℕ → Option (Step A))
      → ((i : ℕ) → Q i → IsSafe i (body i))
      → (fuel i : ℕ) → Q i
      → bound - i < fuel
      → IsDone P (walk body fuel i)
  unfolding walk
  walk-IsDone body safe zero i q f = absurd (omega arith)
  walk-IsDone body safe (suc fuel) i q f =
      let (s, e, p) = safe i q in
      rw e (
        follow-IsDone (λ j. walk body fuel j) i s p
          (λ j h b q'. walk-IsDone body safe fuel j q' (omega arith)))
