-- ===== src/Detect/Match/Stable.antt =====
-- What `Match` guarantees of the candidates and decisions that it is given.
use roadbook.Prelude.{
  ℕ, zero, suc, ◌+◌, ◌≡◌, refl, sym, subst, true, false, List, [], ◌∷◌, some, Memᴰ, Bool-cases,
  get_elem?, arith, inl, inr,
}
use mathlib.Core.List.Memᴰ
use mathlib.Core.Option.{some-injective}
use native.Mathlib.Nat.{add-zero}
use roadbook.Prelude.Int.{pos, ltb_ℤ}
use roadbook.Prelude.Sort.{sort_stable-Mem, sort_stable-Mem_of, sort_stable-IsSorted}
use roadbook.Floats.{Float}
use roadbook.Geo.{haversine_m}
use roadbook.Detect.Params.{MatchParams}
use roadbook.Detect.Match.{
  SpanRef, Anchor, Pair, overlap_of, pair_of, pairs_of_cand, pairs_from, ranks_before, ranked_pairs,
  chosen_pairs,
}
use roadbook.Detect.Match.Ranking.{ranks_before-IsOrder}
use roadbook.Detect.Match.Greedy.{IsMatching, Blocks, choose-IsMatching, choose-Blocks, choose-Mem}

-- The pair of the candidate and the decision at two indices.
abbrev pub pair_at : {F : Type 0} → ℕ → SpanRef F → ℕ → Anchor F → Pair F
pair_at ci c di d = record {
  cand = ci;
  dec = di;
  overlap = overlap_of c d;
  span_ref = c;
  anchor = d;
}

module _ {F : Type 0} ⦃fl : Float F⦄ (p : MatchParams F) where
  -- The spans overlap and the destinations are near enough.
  pub record IsCompatible (c : SpanRef F) (d : Anchor F) : Type 0 where
    pub overlaps : ltb_ℤ (pos 0) (overlap_of c d) ≡ true
    pub is_near : fl.lt (fl.mul p.match_km (fl.of_ℕ 1000)) (haversine_m c.dest d.dest) ≡ false

  pair_of-Mem :
      (ci di : ℕ) (c : SpanRef F) (d : Anchor F)
      → IsCompatible c d
      → Memᴰ (pair_at ci c di d) (pair_of p ci c di d)
  unfolding pair_of
  pair_of-Mem ci di c d ok = rw (ok.overlaps, ok.is_near) (Memᴰ.head refl)

  pairs_of_cand-Mem :
      (ci : ℕ) (c : SpanRef F) (decs : List (Anchor F)) (di k j : ℕ) (d : Anchor F)
      → k ≡ di + j
      → get_elem? decs j ≡ some d
      → IsCompatible c d
      → Memᴰ (pair_at ci c k d) (pairs_of_cand p ci c di decs)
  unfolding pairs_of_cand
  pairs_of_cand-Mem ci c [] di k j d e at ok = cc
  pairs_of_cand-Mem ci c (x ∷ decs) di k zero d e at ok =
      Memᴰ.append_left (pairs_of_cand p ci c (suc di) decs) (
        subst (λ y. Memᴰ (pair_at ci c k d) (pair_of p ci c di y)) (sym (some-injective x d at))
          (subst (λ n. Memᴰ (pair_at ci c n d) (pair_of p ci c di d)) (sym (omega arith))
            (pair_of-Mem ci di c d ok)))
  pairs_of_cand-Mem ci c (x ∷ decs) di k (suc j) d e at ok =
      Memᴰ.append_right (pair_of p ci c di x)
        (pairs_of_cand-Mem ci c decs (suc di) k j d (omega arith) at ok)

  pairs_from-Mem :
      (cands : List (SpanRef F)) (decs : List (Anchor F)) (ci k i j : ℕ) (c : SpanRef F)
      (d : Anchor F)
      → k ≡ ci + i
      → get_elem? cands i ≡ some c
      → get_elem? decs j ≡ some d
      → IsCompatible c d
      → Memᴰ (pair_at k c j d) (pairs_from p ci cands decs)
  unfolding pairs_from
  pairs_from-Mem [] decs ci k i j c d e at at' ok = cc
  pairs_from-Mem (x ∷ cands) decs ci k zero j c d e at at' ok =
      Memᴰ.append_left (pairs_from p (suc ci) cands decs) (
        subst (λ y. Memᴰ (pair_at k c j d) (pairs_of_cand p ci y 0 decs))
          (sym (some-injective x c at))
          (subst (λ n. Memᴰ (pair_at n c j d) (pairs_of_cand p ci c 0 decs)) (sym (omega arith))
            (pairs_of_cand-Mem ci c decs 0 j j d (omega arith) at' ok)))
  pairs_from-Mem (x ∷ cands) decs ci k (suc i) j c d e at at' ok =
      Memᴰ.append_right (pairs_of_cand p ci x 0 decs)
        (pairs_from-Mem cands decs (suc ci) k i j c d (omega arith) at at' ok)

  -- What is known of a pair that the loops produced.
  pub record IsProduced (cands : List (SpanRef F)) (decs : List (Anchor F)) (q : Pair F)
      : Type 0 where
    pub cand_at : get_elem? cands q.cand ≡ some q.span_ref
    pub dec_at : get_elem? decs q.dec ≡ some q.anchor
    pub overlap_eq : q.overlap ≡ overlap_of q.span_ref q.anchor
    pub compatible : IsCompatible q.span_ref q.anchor

  pair_of_only :
      (ci di : ℕ) (c : SpanRef F) (d : Anchor F) (q : Pair F)
      → Memᴰ q (pair_of p ci c di d)
      → (q ≡ pair_at ci c di d) × IsCompatible c d
  unfolding pair_of
  pair_of_only ci di c d q m = elim (Bool-cases (ltb_ℤ (pos 0) (overlap_of c d))) [
    | inr e ↦ absurd (Memᴰ.not-nil (rw e at m))
    | inl e ↦
        elim (Bool-cases (fl.lt (fl.mul p.match_km (fl.of_ℕ 1000)) (haversine_m c.dest d.dest))) [
          | inl f ↦ absurd (Memᴰ.not-nil (rw (e, f) at m))
          | inr f ↦ (Memᴰ.eq_of_singleton (rw (e, f) at m), record { overlaps = e; is_near = f })
        ]
  ]

  pairs_of_cand_only :
      (ci : ℕ) (c : SpanRef F) (decs : List (Anchor F)) (di : ℕ) (q : Pair F)
      → Memᴰ q (pairs_of_cand p ci c di decs)
      → (j : ℕ) × (d : Anchor F) × (get_elem? decs j ≡ some d)
        × IsCompatible c d
        × (q ≡ pair_at ci c (di + j) d)
  unfolding pairs_of_cand
  pairs_of_cand_only ci c [] di q m = elim m [ ]
  pairs_of_cand_only ci c (x ∷ decs) di q m = elim (Memᴰ.append_cases (pair_of p ci c di x) m) [
    | inl l ↦ let (e, ok) = pair_of_only ci di c x q l in (0, x, refl, ok, rw add-zero e)
    | inr r ↦
        let (j, d, at, ok, e) = pairs_of_cand_only ci c decs (suc di) q r in
        (suc j, d, at, ok, subst (λ n. q ≡ pair_at ci c n d) (omega arith) e)
  ]

  pairs_from_only :
      (cands : List (SpanRef F)) (decs : List (Anchor F)) (ci : ℕ) (q : Pair F)
      → Memᴰ q (pairs_from p ci cands decs)
      → (i : ℕ) × (j : ℕ) × (c : SpanRef F) × (d : Anchor F) × (get_elem? cands i ≡ some c)
        × (get_elem? decs j ≡ some d)
        × IsCompatible c d
        × (q ≡ pair_at (ci + i) c j d)
  unfolding pairs_from
  pairs_from_only [] decs ci q m = elim m [ ]
  pairs_from_only (x ∷ cands) decs ci q m =
      elim (Memᴰ.append_cases (pairs_of_cand p ci x 0 decs) m) [
        | inl l ↦
            let (j, d, at, ok, e) = pairs_of_cand_only ci x decs 0 q l in
            let same = subst (λ n. q ≡ pair_at ci x n d) (omega arith) e in
            (0, j, x, d, refl, at, ok, rw add-zero same)
        | inr r ↦
            let (i, j, c, d, at, at', ok, e) = pairs_from_only cands decs (suc ci) q r in
            (suc i, j, c, d, at, at', ok, subst (λ n. q ≡ pair_at n c j d) (omega arith) e)
      ]

module _ {F : Type 0} ⦃fl : Float F⦄ (cands : List (SpanRef F)) (decs : List (Anchor F))
    (p : MatchParams F) where
  -- No candidate and no decision is used twice.
  pub chosen_pairs-IsMatching : IsMatching (chosen_pairs cands decs p)
  unfolding chosen_pairs
  chosen_pairs-IsMatching = choose-IsMatching (ranked_pairs cands decs p) [] []

  -- Each compatible pair is chosen, or a chosen pair that ranks no later has its candidate or its
  -- decision.
  pub chosen_pairs-Blocks :
      (i j : ℕ) (c : SpanRef F) (d : Anchor F)
      → get_elem? cands i ≡ some c
      → get_elem? decs j ≡ some d
      → IsCompatible p c d
      → Blocks (chosen_pairs cands decs p) (pair_at i c j d)
  unfolding chosen_pairs ranked_pairs
  chosen_pairs-Blocks i j c d at at' ok =
      let pairs = pairs_from p 0 cands decs in
      choose-Blocks (ranked_pairs cands decs p) (pair_at i c j d)
        (sort_stable-IsSorted ranks_before ranks_before-IsOrder pairs)
        (sort_stable-Mem ranks_before pairs
          (pairs_from-Mem p cands decs 0 i i j c d (omega arith) at at' ok))

  -- Every chosen pair is a candidate and a decision of the input, and the two are compatible.
  pub chosen_pairs-IsProduced :
      (q : Pair F) → Memᴰ q (chosen_pairs cands decs p) → IsProduced p cands decs q
  unfolding chosen_pairs ranked_pairs
  chosen_pairs-IsProduced q m =
      let pairs = pairs_from p 0 cands decs in
      let ranked = choose-Mem (ranked_pairs cands decs p) [] [] m in
      let (i, j, c, d, at, at', ok, e) =
        pairs_from_only p cands decs 0 q (sort_stable-Mem_of ranks_before pairs ranked) in
      subst (IsProduced p cands decs) (sym e) (record {
        cand_at = subst (λ n. get_elem? cands n ≡ some c) (omega arith) at;
        dec_at = at';
        overlap_eq = refl;
        compatible = ok;
      })
