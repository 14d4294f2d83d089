-- ===== src/Detect/Match/Ranking.antt =====
-- About the order in which `Match` (internal/detect/match.go) ranks the pairs.
use roadbook.Prelude.{Bool, arith, not, ◌&&◌, if◌then◌else◌}
use roadbook.Prelude.Int.{ltb_ℤ}
use roadbook.Prelude.Sort.{IsOrder, by_key-IsOrder, lex-IsOrder}
use roadbook.Detect.Match.{Pair, by_ids, by_created_at, by_start, ranks_before}

-- A strict weak order by the overlap, longest first, and by another where the overlaps agree.
overlap-IsOrder :
    {F : Type 0} (next : Pair F → Pair F → Bool)
    → IsOrder next
    → IsOrder (λ a b.
      if not (ltb_ℤ a.overlap b.overlap) && not (ltb_ℤ b.overlap a.overlap)
      then next a b
      else ltb_ℤ b.overlap a.overlap)
overlap-IsOrder next order = record {
  asym = λ a b h. ground (arith, order.asym a b);
  trans = λ a b c h k. ground (arith, order.trans a b c);
}

by_ids-IsOrder : {F : Type 0} → IsOrder (by_ids {F = F})
unfolding by_ids
by_ids-IsOrder {F} =
    lex-IsOrder (λ (a : Pair F). a.span_ref.id) (λ a b. _)
      (by_key-IsOrder (λ (a : Pair F). a.anchor.id))

by_created_at-IsOrder : {F : Type 0} → IsOrder (by_created_at {F = F})
unfolding by_created_at
by_created_at-IsOrder {F} =
    lex-IsOrder (λ (a : Pair F). a.anchor.created_at.instant) by_ids by_ids-IsOrder

by_start-IsOrder : {F : Type 0} → IsOrder (by_start {F = F})
unfolding by_start
by_start-IsOrder {F} =
    lex-IsOrder (λ (a : Pair F). a.span_ref.start.instant) by_created_at by_created_at-IsOrder

pub ranks_before-IsOrder : {F : Type 0} → IsOrder (ranks_before {F = F})
unfolding ranks_before
ranks_before-IsOrder = overlap-IsOrder by_start by_start-IsOrder
