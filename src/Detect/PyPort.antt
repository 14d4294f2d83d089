-- ===== src/Detect/PyPort.antt =====
-- internal/detect/pyport.go: rounding, civil dates and the binary searches. An index past the end of
-- a slice panics, and so does the model: `none` is that, or fuel that ran out.
pub mod Bisect
use roadbook.Prelude.{
  ℕ, zero, suc, ◌+◌, ◌/◌, Bool, true, false, List, Option, none, some, ltb, length, get_elem?,
  if◌then◌else◌,
}
use roadbook.Floats.{Float}
use roadbook.Times.{Time, before, civil_day}

-- `strconv` formats and reads back with the rounding that Python's `round` has.
abbrev pub py_round : {F : Type 0} ⦃fl : Float F⦄ → F → ℕ → F
py_round ⦃fl⦄ x n = fl.round_decimal x n

-- A civil date stands for its midnight UTC, and dates compare as those instants do.
abbrev pub civil_date : Time → ℕ
civil_date t = civil_day t

-- The loop of both searches: `right` says of a probed element that the answer lies behind it.
bisect_loop : (right : Time → Bool) (ts : List Time) (fuel lo hi : ℕ) → Option ℕ
bisect_loop right ts zero lo hi = none
bisect_loop right ts (suc fuel) lo hi =
    let mid = (lo + hi) / 2 in
    let narrow : Option ℕ = elim (get_elem? ts mid) [
      | none ↦ none
      | some t ↦ elim (right t) [
        | true ↦ bisect_loop right ts fuel (mid + 1) hi
        | false ↦ bisect_loop right ts fuel lo mid
      ]
    ] in
    if ltb lo hi then narrow else some lo

unfoldable pub bisect_left : List Time → Time → Option ℕ
unfolding bisect_loop
bisect_left ts target = bisect_loop (λ t. before t target) ts (suc (length ts)) 0 (length ts)

unfoldable pub bisect_right : List Time → Time → Option ℕ
unfolding bisect_loop
bisect_right ts target =
    bisect_loop (λ t. if before target t then false else true) ts (suc (length ts)) 0 (length ts)
