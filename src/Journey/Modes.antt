-- ===== src/Journey/Modes.antt =====
-- internal/journey/modes.go: distance and duration by the source's own mode labels. The map is an
-- association list. Modes are compared as the texts are.
use Prim.Native.Nat.{Ordering}
use Prim.Native.String.{String, compare}
use text.Mathlib.Text.{◌==◌ as str_eq}
use roadbook.Prelude.{Bool, true, false, ◌||◌, not, List, [], ◌∷◌, if◌then◌else◌}
use roadbook.Prelude.Sort.{sort_stable}
use roadbook.Floats.{Float}
use roadbook.Times.{Time, before, after, time_sub, hours}
use roadbook.Domain.{Activity}

pub record ModeKm (F : Type 0) : Type 0 where
  pub mode : String
  pub km : F
  pub hours : F

abbrev text_before : String → String → Bool
text_before s t = elim (compare s t) [ Ordering.lt ↦ true | _ ↦ false ]

abbrev pub mode_of : {F : Type 0} → Activity F → String
mode_of a = if str_eq a.mode "" then "UNKNOWN" else a.mode

module _ {F : Type 0} ⦃fl : Float F⦄ where
  open fl use {of_ℕ, add, div, lt, le, eq}

  -- The activity has a distance and overlaps the window.
  unfoldable pub counts : Time → Time → Activity F → Bool
  counts win_start win_end a =
      not (le a.distance_m (of_ℕ 0) || (before a.end win_start || after a.start win_end))

  add_activity : ModeKm F → Activity F → ModeKm F
  add_activity m a = record {
    mode = mode_of a;
    km = add m.km (div a.distance_m (of_ℕ 1000));
    hours = add m.hours (hours (time_sub a.end a.start));
  }

  -- `byMode[mode] = m`, a missing entry starting from zero.
  put_activity : Activity F → List (ModeKm F) → List (ModeKm F)
  unfolding add_activity
  put_activity a [] = add_activity (record { mode = mode_of a; km = of_ℕ 0; hours = of_ℕ 0 }) a ∷ []
  put_activity a (m ∷ ms) =
      let rest = put_activity a ms in
      if str_eq m.mode (mode_of a) then add_activity m a ∷ ms else m ∷ rest

  by_mode : Time → Time → List (ModeKm F) → List (Activity F) → List (ModeKm F)
  unfolding counts put_activity
  by_mode win_start win_end ms [] = ms
  by_mode win_start win_end ms (a ∷ acts) =
      by_mode win_start win_end (if counts win_start win_end a then put_activity a ms else ms) acts

  -- More kilometres first, ties by the mode's name.
  unfoldable pub mode_before : ModeKm F → ModeKm F → Bool
  mode_before a b = if not (eq a.km b.km) then lt b.km a.km else text_before a.mode b.mode

  unfoldable pub mode_breakdown : List (Activity F) → Time → Time → List (ModeKm F)
  unfolding by_mode
  mode_breakdown acts win_start win_end =
      sort_stable mode_before (by_mode win_start win_end [] acts)
