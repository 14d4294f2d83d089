-- ===== src/Photo/Meta/Offset.antt =====
-- About the offset that two clocks of one photo give.
use roadbook.Prelude.{
  subst, ℕ, zero, suc, ap₂, leb, ◌+◌, ◌*◌, ◌/◌, ◌%◌, ◌≤◌, ◌≡◌, refl, sym, ap, ◌∙◌, inl, inr, Bool,
  false, some, Bool-cases, ◌||◌, arith,
}
use mathlib.Core.Option.{some-injective}
use roadbook.Prelude.Int.{ℤ, pos, negsuc, pos_part, neg_part, sub_ℕ, ltb_ℤ, ◌+ℤ◌, ◌*ℤ◌, abs}
use roadbook.Store.Keyed.{if_eq_then, if_eq_else}
use roadbook.Times.{Time}
use roadbook.Photo.Meta.{CivilTime, quot, round_offset, within_max, clock_difference, derive_offset}

-- An offset that clocks may show: a multiple of 15 minutes within 14 hours, at most 450 seconds from
-- the difference.
pub record IsNearest (sec off : ℤ) : Type 0 where
  pub multiple : abs off % 900 ≡ 0
  pub bound : abs off ≤ 50_400
  pub above : pos_part off + neg_part sec ≤ pos_part sec + neg_part off + 450
  pub below : pos_part sec + neg_part off ≤ pos_part off + neg_part sec + 450

sub_pos : (a b c : ℕ) → a ≡ b + c → sub_ℕ a b ≡ pos c
sub_pos a b c e = if_eq_then {b = leb b a} _ (ground (arith, e)) ∙ ap pos (omega (arith, e))

sub_neg : (a b c : ℕ) → b ≡ a + suc c → sub_ℕ a b ≡ negsuc c
sub_neg a b c e = if_eq_else {b = leb b a} _ (ground (arith, e)) ∙ ap negsuc (omega (arith, e))

add_pos : (a b : ℕ) → pos a +ℤ pos b ≡ pos (a + b)
unfolding ◌+ℤ◌
add_pos a b = sub_pos (a + b) 0 (a + b) (omega arith)

add_negsuc : (a b : ℕ) → negsuc a +ℤ negsuc b ≡ negsuc (a + b + 1)
unfolding ◌+ℤ◌
add_negsuc a b = sub_neg 0 (suc a + suc b) (a + b + 1) (omega arith)

mul_pos : (a : ℕ) → pos a *ℤ pos 900 ≡ pos (a * 900)
unfolding ◌*ℤ◌
mul_pos a = sub_pos (a * 900 + 0 * 0) (a * 0 + 0 * 900) (a * 900) (omega arith)

sub_zero : (a : ℕ) → sub_ℕ 0 (suc a) ≡ negsuc a
sub_zero a = sub_neg 0 (suc a) a (omega arith)

mul_neg : (q : ℕ) → sub_ℕ 0 q *ℤ pos 900 ≡ sub_ℕ 0 (q * 900)
unfolding ◌*ℤ◌
mul_neg zero = refl
mul_neg (suc q) = ap (λ z. z *ℤ pos 900) (sub_zero q) ∙ ap₂ sub_ℕ (omega arith) (omega arith)

round_offset-pos : (n : ℕ) → round_offset (pos n) ≡ pos ((n + 450) / 900 * 900)
unfolding round_offset
round_offset-pos n = ap (λ z. quot z 900 *ℤ pos 900) (add_pos n 450) ∙ mul_pos ((n + 450) / 900)

round_offset-negsuc : (n : ℕ) → round_offset (negsuc n) ≡ sub_ℕ 0 ((n + 451) / 900 * 900)
unfolding round_offset
round_offset-negsuc n =
    ap (λ z. quot z 900 *ℤ pos 900) (add_negsuc n 449)
    ∙ mul_neg (suc (n + 449 + 1) / 900)
    ∙ ap (λ k. sub_ℕ 0 (k / 900 * 900)) (omega arith)

-- Passing the test.
abbrev is_far : ℤ → Bool
is_far r = ltb_ℤ r (sub_ℕ 0 50_400) || ltb_ℤ (pos 50_400) r

near-bound : (r : ℤ) → is_far r ≡ false → abs r ≤ 50_400
near-bound (pos m) e = ground arith
near-bound (negsuc m) e = ground arith

within_max-some : (r : ℤ) {off : ℤ} → within_max r ≡ some off → (r ≡ off) × (abs r ≤ 50_400)
within_max-some r {off} e = elim (Bool-cases (is_far r)) [
  | inl far ↦ absurd (cc (sym (if_eq_then {b = is_far r} _ far) ∙ e))
  | inr near ↦
      (some-injective r off (sym (if_eq_else {b = is_far r} _ near) ∙ e), near-bound r near)
]

from_pos :
    (n : ℕ) → (n + 450) / 900 * 900 ≤ 50_400 → IsNearest (pos n) (pos ((n + 450) / 900 * 900))
from_pos n bound = record {
  multiple = omega arith;
  bound = omega (arith, bound);
  above = omega arith;
  below = omega arith;
}

from_negsuc :
    (n m : ℕ)
    → m % 900 ≡ 0
    → m ≤ suc n + 450
    → suc n ≤ m + 450
    → abs (sub_ℕ 0 m) ≤ 50_400
    → IsNearest (negsuc n) (sub_ℕ 0 m)
from_negsuc n zero mult above below = λ bound. record {
  multiple = refl;
  bound = bound;
  above = omega arith;
  below = omega (arith, below);
}
from_negsuc n (suc m) mult above below =
    subst (λ r. abs r ≤ 50_400 → IsNearest (negsuc n) r) (sym (sub_zero m))
      (λ bound. record {
        multiple = ap (λ k. k % 900) (omega arith) ∙ mult;
        bound = bound;
        above = omega (arith, above);
        below = omega (arith, below);
      })

round_offset-IsNearest :
    (sec : ℤ) → abs (round_offset sec) ≤ 50_400 → IsNearest sec (round_offset sec)
round_offset-IsNearest (pos n) =
    subst (λ r. abs r ≤ 50_400 → IsNearest (pos n) r) (sym (round_offset-pos n))
      (λ bound. from_pos n (omega (arith, bound)))
round_offset-IsNearest (negsuc n) =
    subst (λ r. abs r ≤ 50_400 → IsNearest (negsuc n) r) (sym (round_offset-negsuc n))
      (from_negsuc n ((n + 451) / 900 * 900) (omega arith) (omega arith) (omega arith))

-- An offset that is derived is a multiple of 15 minutes within 14 hours, at most 450 seconds from the
-- difference of the two clocks.
pub derive_offset-IsNearest :
    (date : CivilTime → ℕ) (wall : CivilTime) (t : Time) {off : ℤ}
    → derive_offset date wall t ≡ some off
    → IsNearest (clock_difference date wall t) off
unfolding derive_offset
derive_offset-IsNearest date wall t {off} e =
    let sec = clock_difference date wall t in
    let (same, bound) = within_max-some (round_offset sec) e in
    subst (IsNearest sec) same (round_offset-IsNearest sec bound)
