-- ===== src/Detect/Match.antt =====
-- internal/detect/match.go: candidates and decisions associated anew on each run. Ids are plain
-- numbers. A pair carries, beside its two indices, the elements that the source reads by them. The
-- map of the result is a list of (candidate id, decision id), a later write replacing an earlier.
pub mod Ranking
pub mod Stable
pub mod Greedy
use roadbook.Prelude.{
  ℕ, suc, Bool, false, ◌||◌, ◌&&◌, not, List, [], ◌∷◌, ◌++◌, foldl, ltb, ◌==◌, if◌then◌else◌,
}
use roadbook.Prelude.Int.{ℤ, pos, ltb_ℤ}
use roadbook.Prelude.Sort.{sort_stable}
use roadbook.Floats.{Float}
use roadbook.Times.{Time, before, after, equal, time_sub}
use roadbook.Domain.{LatLng}
use roadbook.Geo.{haversine_m}
use roadbook.Detect.Params.{MatchParams}

pub record SpanRef (F : Type 0) : Type 0 where
  pub id : ℕ
  pub start : Time
  pub end : Time
  pub dest : LatLng F

pub record Anchor (F : Type 0) : Type 0 where
  pub id : ℕ
  pub start : Time
  pub end : Time
  pub dest : LatLng F
  pub created_at : Time

pub record Pair (F : Type 0) : Type 0 where
  pub cand : ℕ
  pub dec : ℕ
  pub overlap : ℤ
  pub span_ref : SpanRef F
  pub anchor : Anchor F

abbrev min_time : Time → Time → Time
min_time a b = if before a b then a else b

abbrev max_time : Time → Time → Time
max_time a b = if after a b then a else b

-- Whether an index is among those used.
abbrev pub is_used : ℕ → List ℕ → Bool
is_used i [] = false
is_used i (j ∷ used) = i == j || is_used i used

-- `matched[k] = v`.
put_match : List (ℕ × ℕ) → ℕ × ℕ → List (ℕ × ℕ)
put_match [] e = e ∷ []
put_match ((k, v) ∷ m) e = let rest = put_match m e in if k == e.0 then e ∷ m else (k, v) ∷ rest

module _ {F : Type 0} where
  abbrev pub overlap_of : SpanRef F → Anchor F → ℤ
  overlap_of c d = time_sub (min_time c.end d.end) (max_time c.start d.start)

  -- The order of the pairs: a longer overlap, then the earlier start, the earlier decision, the ids.
  by_ids : Pair F → Pair F → Bool
  by_ids a b =
      if a.span_ref.id == b.span_ref.id
      then ltb a.anchor.id b.anchor.id
      else ltb a.span_ref.id b.span_ref.id

  by_created_at : Pair F → Pair F → Bool
  unfolding by_ids
  by_created_at a b =
      if equal a.anchor.created_at b.anchor.created_at
      then by_ids a b
      else before a.anchor.created_at b.anchor.created_at

  by_start : Pair F → Pair F → Bool
  unfolding by_created_at
  by_start a b =
      if equal a.span_ref.start b.span_ref.start
      then by_created_at a b
      else before a.span_ref.start b.span_ref.start

  unfoldable pub ranks_before : Pair F → Pair F → Bool
  unfolding by_start
  ranks_before a b =
      if not (ltb_ℤ a.overlap b.overlap) && not (ltb_ℤ b.overlap a.overlap)
      then by_start a b
      else ltb_ℤ b.overlap a.overlap

  -- The loop over the sorted pairs: each candidate and each decision is used at most once.
  unfoldable pub choose : (used_cand used_dec : List ℕ) → List (Pair F) → List (Pair F)
  choose used_cand used_dec [] = []
  choose used_cand used_dec (p ∷ pairs) =
      let skipped = choose used_cand used_dec pairs in
      let taken = choose (p.cand ∷ used_cand) (p.dec ∷ used_dec) pairs in
      if is_used p.cand used_cand || is_used p.dec used_dec then skipped else p ∷ taken

module _ {F : Type 0} ⦃fl : Float F⦄ where
  open fl use {of_ℕ, mul, lt}

  -- The pair of one candidate and one decision, if the two are compatible.
  unfoldable pub pair_of : MatchParams F → ℕ → SpanRef F → ℕ → Anchor F → List (Pair F)
  pair_of p ci c di d =
      if not (ltb_ℤ (pos 0) (overlap_of c d))
      then []
      else if lt (mul p.match_km (of_ℕ 1000)) (haversine_m c.dest d.dest)
      then []
      else record { cand = ci; dec = di; overlap = overlap_of c d; span_ref = c; anchor = d } ∷ []

  pairs_of_cand : MatchParams F → ℕ → SpanRef F → ℕ → List (Anchor F) → List (Pair F)
  unfolding pair_of
  pairs_of_cand p ci c di [] = []
  pairs_of_cand p ci c di (d ∷ decs) = pair_of p ci c di d ++ pairs_of_cand p ci c (suc di) decs

  pairs_from : MatchParams F → ℕ → List (SpanRef F) → List (Anchor F) → List (Pair F)
  unfolding pairs_of_cand
  pairs_from p ci [] decs = []
  pairs_from p ci (c ∷ cands) decs = pairs_of_cand p ci c 0 decs ++ pairs_from p (suc ci) cands decs

  -- The compatible pairs in their order of preference.
  unfoldable pub ranked_pairs : List (SpanRef F) → List (Anchor F) → MatchParams F → List (Pair F)
  unfolding pairs_from
  ranked_pairs cands decs p = sort_stable ranks_before (pairs_from p 0 cands decs)

  unfoldable pub chosen_pairs : List (SpanRef F) → List (Anchor F) → MatchParams F → List (Pair F)
  unfolding choose ranked_pairs
  chosen_pairs cands decs p = choose [] [] (ranked_pairs cands decs p)

  unfoldable pub match_decisions : List (SpanRef F) → List (Anchor F) → MatchParams F → List (ℕ × ℕ)
  unfolding chosen_pairs put_match
  match_decisions cands decs p =
      foldl (λ m q. put_match m (q.span_ref.id, q.anchor.id)) [] (chosen_pairs cands decs p)
