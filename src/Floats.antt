-- ===== src/Floats.antt =====
-- What the program uses of `float64`, `math` and `strconv`, as an interface: a component takes the
-- operations as an instance argument, and a theorem that needs a law of them names it. A decimal
-- literal of the source is a quotient of two whole numbers, which IEEE division rounds as the
-- compiler rounds the literal.
pub mod Whole
use roadbook.Prelude.{ℕ, suc, ◌/◌, ◌%◌, Bool, true, false, ◌≡◌}
use roadbook.Prelude.Int.{ℤ, pos, negsuc}

pub record Float (F : Type 0) : Type 0 where
  pub of_ℕ : ℕ → F
  pub add : F → F → F
  pub sub : F → F → F
  pub mul : F → F → F
  pub div : F → F → F
  pub neg : F → F
  pub lt : F → F → Bool
  pub le : F → F → Bool
  pub eq : F → F → Bool
  -- `math.Abs`, `math.Min`, `math.Max`, `math.Inf(1)`, `math.Pi` and the functions of geometry.
  pub abs : F → F
  pub fmin : F → F → F
  pub fmax : F → F → F
  pub inf : F
  pub pi : F
  pub sin : F → F
  pub cos : F → F
  pub asin : F → F
  pub sqrt : F → F
  pub hypot : F → F → F
  -- `math.Round`.
  pub round : F → F
  -- `FormatFloat(x, 'f', n, 64)` read back by `ParseFloat`, and the conversion `int(x)`.
  pub round_decimal : F → ℕ → F
  pub to_int : F → ℤ

module _ {F : Type 0} ⦃fl : Float F⦄ where
  open fl use {of_ℕ, add, div, neg}

  -- The literal n / 10^k, its denominator written out.
  abbrev pub ratio : ℕ → ℕ → F
  ratio n d = div (of_ℕ n) (of_ℕ d)

  -- `Duration.Hours` and the like: whole units, and the rest as a fraction of a unit.
  abbrev units_of : ℕ → ℕ → F
  units_of unit n = add (of_ℕ (n / unit)) (div (of_ℕ (n % unit)) (of_ℕ unit))

  abbrev pub in_units : ℕ → ℤ → F
  in_units unit (pos n) = units_of unit n
  in_units unit (negsuc n) = neg (units_of unit (suc n))

-- The order of the floats that are not NaN, as the laws that a theorem may name.
pub record IsOrdered (F : Type 0) ⦃fl : Float F⦄ : Type 0 where
  pub lt_asym : (a b : F) → fl.lt a b ≡ true → fl.lt b a ≡ false
  pub lt_negtrans : (a b c : F) → fl.lt b a ≡ false → fl.lt c b ≡ false → fl.lt c a ≡ false
