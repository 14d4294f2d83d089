-- ===== src/Detect/Score.antt =====
-- internal/detect/score.go: the confidence score and its breakdown.
use Prim.Native.String.{String}
use roadbook.Prelude.{Bool, ◌&&◌, List, map, foldl, if◌then◌else◌}
use roadbook.Floats.{Float}
use roadbook.Detect.PyPort.{py_round}

pub record ScoreComponent (F : Type 0) : Type 0 where
  pub name : String
  pub present : Bool
  pub weight : F
  pub raw : F
  pub unit : String
  pub normalized : F
  pub contribution : F

pub record ScoreInput (F : Type 0) : Type 0 where
  pub name : String
  pub unit : String
  pub raw : F
  pub known : Bool
  pub w : F
  pub full : F

module _ {F : Type 0} ⦃fl : Float F⦄ where
  open fl use {of_ℕ, add, mul, div, lt}

  add_weight : F → ScoreInput F → F
  add_weight w_sum input = if input.known then add w_sum input.w else w_sum

  weight_sum : List (ScoreInput F) → F
  unfolding add_weight
  weight_sum inputs = foldl add_weight (of_ℕ 0) inputs

  -- The raw value against its anchor, clamped to [0, 1].
  normalize : ScoreInput F → F
  normalize input =
      let n = if lt (of_ℕ 0) input.full then div input.raw input.full else of_ℕ 0 in
      let below = if lt (of_ℕ 1) n then of_ℕ 1 else n in if lt below (of_ℕ 0) then of_ℕ 0 else below

  -- A component is counted if it was measured and some weight is present.
  counted : F → ScoreInput F → Bool
  counted w_sum input = input.known && lt (of_ℕ 0) w_sum

  -- `in.w / wSum * n * 100`
  share : F → ScoreInput F → F
  unfolding normalize
  share w_sum input = mul (mul (div input.w w_sum) (normalize input)) (of_ℕ 100)

  component : F → ScoreInput F → ScoreComponent F
  unfolding share normalize counted
  component w_sum input =
      if counted w_sum input
      then record {
        name = input.name;
        present = input.known;
        weight = input.w;
        raw = py_round input.raw 4;
        unit = input.unit;
        normalized = py_round (normalize input) 4;
        contribution = py_round (share w_sum input) 1;
      }
      else record {
        name = input.name;
        present = input.known;
        weight = input.w;
        raw = of_ℕ 0;
        unit = input.unit;
        normalized = of_ℕ 0;
        contribution = of_ℕ 0;
      }

  add_share : F → F → ScoreInput F → F
  unfolding share counted
  add_share w_sum score input = if counted w_sum input then add score (share w_sum input) else score

  pub score_candidate : List (ScoreInput F) → F × List (ScoreComponent F)
  unfolding weight_sum component add_share
  score_candidate inputs =
      let w_sum = weight_sum inputs in
      (py_round (foldl (add_share w_sum) (of_ℕ 0) inputs) 1, map (component w_sum) inputs)
