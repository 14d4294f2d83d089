-- ===== src/Store/Keyed.antt =====
-- Tables with a unique column of text: the lookup by that column, and the lemmas about it that the
-- tables of sessions, share links and observations share.
use native.Mathlib.Omega.{arith}
use mathlib.Core.Option.{some-injective}
use roadbook.Prelude.{
  Memᴰ, not, subst, ◌≡◌, refl, sym, ◌∙◌, ap, inl, inr, true, false, List, [], ◌∷◌, ◌++◌, Option,
  none, some, Bool, Bool-cases, ◌||◌, keep, if◌then◌else◌,
}
use roadbook.Photo.Bytes.{same_bytes}
use roadbook.Photo.Bytes.Cuts.{same_bytes→eq, same_bytes_refl}
use roadbook.Store.Tables.{Text}

-- `WHERE p`, of at most one row.
abbrev pub where_row {ℓ} : {A : Type ℓ} → (A → Bool) → Option A → Option A
where_row p none = none
where_row p (some x) = if p x then some x else none

abbrev pub or_row {ℓ} : {A : Type ℓ} → Option A → Option A → Option A
or_row none y = y
or_row (some x) y = some x

pub or_row-none {ℓ} : {A : Type ℓ} (x : Option A) → or_row x none ≡ x
or_row-none none = refl
or_row-none (some x) = refl

pub if_eq_then {ℓ} : {A : Type ℓ} {b : Bool} {x : A} (y : A) → b ≡ true → (if b then x else y) ≡ x
if_eq_then y e = rw e refl

pub if_eq_else {ℓ} : {A : Type ℓ} {b : Bool} (x : A) {y : A} → b ≡ false → (if b then x else y) ≡ y
if_eq_else x e = rw e refl

pub or_false : (a b : Bool) → (a || b) ≡ false → (a ≡ false) × (b ≡ false)
or_false true b e = cc
or_false false b e = (refl, e)

pub same_bytes_comm : (a b : Text) → same_bytes a b ≡ same_bytes b a
unfolding same_bytes
same_bytes_comm [] [] = refl
same_bytes_comm [] (y ∷ b) = refl
same_bytes_comm (x ∷ a) [] = refl
same_bytes_comm (x ∷ a) (y ∷ b) = ground (arith, same_bytes_comm a b)

module _ {ℓ} {A : Type ℓ} (key : A → Text) where
  -- `SELECT … WHERE key = h`.
  unfoldable pub lookup : Text → List A → Option A
  lookup h [] = none
  lookup h (x ∷ xs) = let rest = lookup h xs in if same_bytes (key x) h then some x else rest

  -- `EXISTS (SELECT 1 … WHERE key = h)`.
  unfoldable pub has : Text → List A → Bool
  has h [] = false
  has h (x ∷ xs) = same_bytes (key x) h || has h xs

  -- The column is unique.
  unfoldable pub IsDistinct : List A → Type 0
  unfolding has
  IsDistinct [] = Unit
  IsDistinct (x ∷ xs) = (has (key x) xs ≡ false) × IsDistinct xs

  pub lookup-append :
      (h : Text) (xs ys : List A) → lookup h (xs ++ ys) ≡ or_row (lookup h xs) (lookup h ys)
  unfolding lookup
  lookup-append h [] ys = refl
  lookup-append h (x ∷ xs) ys = elim (Bool-cases (same_bytes (key x) h)) [
    | inl e ↦ rw e refl
    | inr e ↦ rw e (lookup-append h xs ys)
  ]

  pub lookup_absent : (h : Text) (xs : List A) → has h xs ≡ false → lookup h xs ≡ none
  unfolding lookup has
  lookup_absent h [] e = refl
  lookup_absent h (x ∷ xs) e = ground (arith, lookup_absent h xs)

  pub has_absent : (h : Text) (xs : List A) → lookup h xs ≡ none → has h xs ≡ false
  unfolding lookup has
  has_absent h [] e = refl
  has_absent h (x ∷ xs) e = ground (arith, has_absent h xs)

  pub has-append : (h : Text) (xs ys : List A) → has h (xs ++ ys) ≡ (has h xs || has h ys)
  unfolding has
  has-append h [] ys = refl
  has-append h (x ∷ xs) ys = ground (arith, has-append h xs ys)

  -- The row that is found has the key.
  pub lookup_key : (h : Text) (xs : List A) {x : A} → lookup h xs ≡ some x → key x ≡ h
  unfolding lookup
  lookup_key h [] e = cc
  lookup_key h (y ∷ xs) {x} e = elim (Bool-cases (same_bytes (key y) h)) [
    | inl same ↦
        (let found_here = sym (if_eq_then _ same) ∙ e in
          ap key (sym (some-injective y x found_here)) ∙ same_bytes→eq (key y) h same)
    | inr other ↦ lookup_key h xs (sym (if_eq_else _ other) ∙ e)
  ]

  -- Fewer rows have fewer keys.
  has-keep : (h : Text) (p : A → Bool) (xs : List A) → has h xs ≡ false → has h (keep p xs) ≡ false
  unfolding has
  has-keep h p [] e = refl
  has-keep h p (x ∷ xs) e = ground (arith, has-keep h p xs)

  pub keep-IsDistinct : (p : A → Bool) (xs : List A) → IsDistinct xs → IsDistinct (keep p xs)
  unfolding IsDistinct
  keep-IsDistinct p [] d = tt
  keep-IsDistinct p (x ∷ xs) (fresh, d) = elim (Bool-cases (p x)) [
    | inl e ↦ rw e (has-keep (key x) p xs fresh, keep-IsDistinct p xs d)
    | inr e ↦ rw e (keep-IsDistinct p xs d)
  ]

  -- With a unique column, `WHERE p` is read off the one row.
  pub lookup-keep :
      (h : Text) (p : A → Bool) (xs : List A)
      → IsDistinct xs
      → lookup h (keep p xs) ≡ where_row p (lookup h xs)
  unfolding lookup IsDistinct
  lookup-keep h p [] d = refl
  lookup-keep h p (x ∷ xs) (fresh, d) = elim (Bool-cases (p x)) [
    | inl kept ↦ elim (Bool-cases (same_bytes (key x) h)) [
      | inl same ↦ rw (kept, same) (rw kept refl)
      | inr other ↦ rw (kept, other) (lookup-keep h p xs d)
    ]
    | inr gone ↦ elim (Bool-cases (same_bytes (key x) h)) [
      | inl same ↦
          rw (gone, same)
            (rw gone (
              lookup_absent h (keep p xs) (
                has-keep h p xs
                  (subst (λ k. has k xs ≡ false) (same_bytes→eq (key x) h same) fresh))))
      | inr other ↦ rw (gone, other) (lookup-keep h p xs d)
    ]
  ]

  -- A row with a new key keeps the column unique.
  pub append-IsDistinct :
      (x : A) (xs : List A) → has (key x) xs ≡ false → IsDistinct xs → IsDistinct (xs ++ (x ∷ []))
  unfolding IsDistinct has
  append-IsDistinct x [] fresh d = (refl, tt)
  append-IsDistinct x (y ∷ xs) fresh (fresh_y, d) =
      let (apart, absent) = or_false (same_bytes (key y) (key x)) (has (key x) xs) fresh in
      (
        rw (has-append (key y) xs (x ∷ []), fresh_y, same_bytes_comm (key x) (key y), apart) refl,
        append-IsDistinct x xs absent d,
      )

  -- A deleted key is found no more.
  pub lookup-delete :
      (h : Text) (xs : List A) → lookup h (keep (λ x. not (same_bytes (key x) h)) xs) ≡ none
  unfolding lookup
  lookup-delete h [] = refl
  lookup-delete h (x ∷ xs) = elim (Bool-cases (same_bytes (key x) h)) [
    | inl e ↦ rw e (lookup-delete h xs)
    | inr e ↦ rw e (rw e (lookup-delete h xs))
  ]

  -- The row that is found is in the table.
  pub lookup-Mem : (h : Text) (xs : List A) {x : A} → lookup h xs ≡ some x → Memᴰ x xs
  unfolding lookup
  lookup-Mem h [] e = cc
  lookup-Mem h (y ∷ xs) {x} e = elim (Bool-cases (same_bytes (key y) h)) [
    | inl same ↦ Memᴰ.head (sym (some-injective y x (sym (if_eq_then _ same) ∙ e)))
    | inr other ↦ Memᴰ.tail (lookup-Mem h xs (sym (if_eq_else _ other) ∙ e))
  ]

  pub has-Mem : (h : Text) (xs : List A) {x : A} → Memᴰ x xs → key x ≡ h → has h xs ≡ true
  unfolding has
  has-Mem h [] m e = elim m [ ]
  has-Mem h (y ∷ xs) (Memᴰ.head same) e = rw (sym (ap key same), e, same_bytes_refl h) refl
  has-Mem h (y ∷ xs) (Memᴰ.tail m) e = ground (arith, has-Mem h xs m e)
