-- ===== src/Floats/Whole.antt =====
-- A concrete choice of the float operations for tests: whole numbers, with division towards zero and
-- a flat geometry whose distances are far coarser than the Earth's.
use roadbook.Prelude.{◌+◌, ◌/◌, Bool, ◌==◌, if◌then◌else◌}
use roadbook.Prelude.Int.{ℤ, pos, pos_part, neg_part, sub_ℕ, ltb_ℤ, ◌+ℤ◌, ◌*ℤ◌}
use roadbook.Floats.{Float}

abbrev negate : ℤ → ℤ
negate a = sub_ℕ (neg_part a) (pos_part a)

abbrev quotient : ℤ → ℤ → ℤ
quotient a b =
    let n = (pos_part a + neg_part a) / (pos_part b + neg_part b) in
    if ltb_ℤ (a *ℤ b) (pos 0) then negate (pos n) else pos n

abbrev not_above : ℤ → ℤ → Bool
not_above a b = if ltb_ℤ b a then Bool.false else Bool.true

instance abbrev pub whole : Float ℤ
unfolding ◌+ℤ◌ ◌*ℤ◌
whole = record {
  of_ℕ = pos;
  add = ◌+ℤ◌;
  sub = λ a b. a +ℤ negate b;
  mul = ◌*ℤ◌;
  div = quotient;
  neg = negate;
  lt = ltb_ℤ;
  le = not_above;
  eq = λ a b. pos_part a + neg_part b == pos_part b + neg_part a;
  abs = λ a. pos (pos_part a + neg_part a);
  fmin = λ a b. if ltb_ℤ b a then b else a;
  fmax = λ a b. if ltb_ℤ a b then b else a;
  inf = pos 1_000_000_000_000;
  pi = pos 180;
  sin = λ a. a;
  cos = λ a. pos 1;
  asin = λ a. a;
  sqrt = λ a. a;
  hypot = λ a b. pos (pos_part a + neg_part a + (pos_part b + neg_part b));
  round = λ a. a;
  round_decimal = λ a n. a;
  to_int = λ a. a;
}
