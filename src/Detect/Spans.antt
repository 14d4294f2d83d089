-- ===== src/Detect/Spans.antt =====
-- `findSpans` of internal/detect/detect.go. `cur` is `none` where the source holds -1.
pub mod Runs
use roadbook.Prelude.{ℕ, suc, Bool, List, [], ◌∷◌, ◌++◌, Option, none, some, if◌then◌else◌}
use roadbook.Floats.{Float}

pub record Span : Type 0 where
  pub s : ℕ
  pub e : ℕ

-- The end of a run: the span goes behind those found.
abbrev close_span : Option ℕ → ℕ → List Span → List Span
close_span none last spans = spans
close_span (some c) last spans = spans ++ (record { s = c; e = last } ∷ [])

abbrev open_span : Option ℕ → ℕ → Option ℕ
open_span none i = some i
open_span (some c) i = some c

-- The loop from index `i` on.
spans_from : (away : List Bool) (i : ℕ) (cur : Option ℕ) (last : ℕ) (spans : List Span) → List Span
spans_from [] i cur last spans = close_span cur last spans
spans_from (b ∷ away) i cur last spans =
    spans_from away (suc i) (if b then open_span cur i else none) (if b then i else last)
      (if b then spans else close_span cur last spans)

-- The tests `dist[i] > nearM`.
abbrev pub far_flags : {F : Type 0} ⦃fl : Float F⦄ → List F → F → List Bool
far_flags [] near_m = []
far_flags ⦃fl⦄ (d ∷ dist) near_m = fl.lt near_m d ∷ far_flags dist near_m

unfoldable pub find_spans : {F : Type 0} ⦃fl : Float F⦄ → List F → F → List Span
unfolding spans_from
find_spans dist near_m = spans_from (far_flags dist near_m) 0 none 0 []
