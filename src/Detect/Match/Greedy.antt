-- ===== src/Detect/Match/Greedy.antt =====
-- What the greedy loop guarantees of any ranked list of pairs.
use roadbook.Prelude.{
  ℕ, ◌≡◌, refl, sym, subst, ◌≢◌, ◌⊎◌, inl, inr, Bool, true, false, ◌||◌, List, [], ◌∷◌, ◌==◌, Memᴰ,
  Bool-cases, All, All-map, All_at, mem_cases, ap, arith,
}
use roadbook.Prelude.Sort.{IsSorted, IsOrder-irrefl}
use roadbook.Detect.Match.{Pair, is_used, ranks_before, choose}
use roadbook.Detect.Match.Ranking.{ranks_before-IsOrder}

not_used : {i j : ℕ} (used : List ℕ) → is_used i (j ∷ used) ≡ false → i ≢ j
not_used used h e = ground arith

module _ {F : Type 0} where
  -- No two of the pairs have the candidate or the decision in common.
  abbrev pub IsMatching : List (Pair F) → Type 0
  IsMatching [] = Unit
  IsMatching (p ∷ ps) = All (λ q. (q.cand ≢ p.cand) × (q.dec ≢ p.dec)) ps × IsMatching ps

  -- A chosen pair stands in the way of `p`: it has a part in common with it and ranks no later.
  pub record Blocks (chosen : List (Pair F)) (p : Pair F) : Type 0 where
    pub by : Pair F
    pub is_chosen : Memᴰ by chosen
    pub shares : (by.cand ≡ p.cand) ⊎ (by.dec ≡ p.dec)
    pub ranks : ranks_before p by ≡ false

  Blocks-cons :
      {chosen : List (Pair F)} {p : Pair F} (q : Pair F) → Blocks chosen p → Blocks (q ∷ chosen) p
  Blocks-cons q b = record {
    by = b.by;
    is_chosen = Memᴰ.tail b.is_chosen;
    shares = b.shares;
    ranks = b.ranks;
  }

  -- Neither the candidate nor the decision is used.
  abbrev IsFree : List ℕ → List ℕ → Pair F → Type 0
  IsFree used_cand used_dec q =
      (is_used q.cand used_cand ≡ false) × (is_used q.dec used_dec ≡ false)

  choose-IsFree :
      (pairs : List (Pair F)) (used_cand used_dec : List ℕ)
      → All (IsFree used_cand used_dec) (choose used_cand used_dec pairs)
  unfolding choose
  choose-IsFree [] used_cand used_dec = tt
  choose-IsFree (p ∷ pairs) used_cand used_dec =
      elim (Bool-cases (is_used p.cand used_cand || is_used p.dec used_dec)) [
        | inl used ↦ rw used (choose-IsFree pairs used_cand used_dec)
        | inr free ↦ rw free (
          ground arith,
          All-map (λ q h. ground (arith, h)) (choose (p.cand ∷ used_cand) (p.dec ∷ used_dec) pairs)
              (choose-IsFree pairs (p.cand ∷ used_cand) (p.dec ∷ used_dec)),
        )
      ]

  pub choose-IsMatching :
      (pairs : List (Pair F)) (used_cand used_dec : List ℕ)
      → IsMatching (choose used_cand used_dec pairs)
  unfolding choose
  choose-IsMatching [] used_cand used_dec = tt
  choose-IsMatching (p ∷ pairs) used_cand used_dec =
      elim (Bool-cases (is_used p.cand used_cand || is_used p.dec used_dec)) [
        | inl used ↦ rw used (choose-IsMatching pairs used_cand used_dec)
        | inr free ↦ rw free (
          All-map (λ q h. (not_used used_cand h.0, not_used used_dec h.1))
              (choose (p.cand ∷ used_cand) (p.dec ∷ used_dec) pairs)
              (choose-IsFree pairs (p.cand ∷ used_cand) (p.dec ∷ used_dec)),
          choose-IsMatching pairs (p.cand ∷ used_cand) (p.dec ∷ used_dec),
        )
      ]

  -- Every chosen pair is one of those given.
  pub choose-Mem :
      (pairs : List (Pair F)) (used_cand used_dec : List ℕ) {q : Pair F}
      → Memᴰ q (choose used_cand used_dec pairs)
      → Memᴰ q pairs
  unfolding choose
  choose-Mem [] used_cand used_dec m = m
  choose-Mem (p ∷ pairs) used_cand used_dec {q} m =
      elim (Bool-cases (is_used p.cand used_cand || is_used p.dec used_dec)) [
        | inl used ↦ Memᴰ.tail (choose-Mem pairs used_cand used_dec (rw used at m))
        | inr free ↦ elim (mem_cases (rw free at m)) [
          | inl e ↦ Memᴰ.head e
          | inr d ↦ Memᴰ.tail (choose-Mem pairs (p.cand ∷ used_cand) (p.dec ∷ used_dec) d)
        ]
      ]

  -- What an outcome is for a pair among those still to be judged.
  abbrev Outcome : List ℕ → List ℕ → List (Pair F) → Pair F → Type 0
  Outcome used_cand used_dec chosen p =
      (is_used p.cand used_cand ≡ true) ⊎ (is_used p.dec used_dec ≡ true) ⊎ Blocks chosen p

  skip-Outcome :
      (x : Pair F) (used_cand used_dec : List ℕ) {p : Pair F} (chosen : List (Pair F))
      → (is_used x.cand used_cand || is_used x.dec used_dec) ≡ true
      → p ≡ x
      → Outcome used_cand used_dec chosen p
  skip-Outcome x used_cand used_dec {p} chosen used e =
      subst (Outcome used_cand used_dec chosen) (sym e) (either _ _ used)
    where
      either : (a b : Bool) → (a || b) ≡ true → (a ≡ true) ⊎ (b ≡ true) ⊎ Blocks chosen x
      either true b h = inl refl
      either false b h = inr (inl h)

  -- An outcome behind a chosen `x` that ranks no later.
  take-Outcome :
      (x : Pair F) (used_cand used_dec : List ℕ) {p : Pair F} (chosen : List (Pair F))
      → ranks_before p x ≡ false
      → Outcome (x.cand ∷ used_cand) (x.dec ∷ used_dec) chosen p
      → Outcome used_cand used_dec (x ∷ chosen) p
  take-Outcome x used_cand used_dec {p} chosen r (inl h) = elim (Bool-cases (p.cand == x.cand)) [
    | inl e ↦ inr (
        inr (record { by = x; is_chosen = Memᴰ.head refl; shares = inl (ground arith); ranks = r }))
    | inr e ↦ inl (ground arith)
  ]
  take-Outcome x used_cand used_dec {p} chosen r (inr (inl h)) =
      elim (Bool-cases (p.dec == x.dec)) [
        | inl e ↦ inr (
            inr (record {
              by = x;
              is_chosen = Memᴰ.head refl;
              shares = inr (ground arith);
              ranks = r;
            }))
        | inr e ↦ inr (inl (ground arith))
      ]
  take-Outcome x used_cand used_dec chosen r (inr (inr b)) = inr (inr (Blocks-cons x b))

  chosen-Outcome :
      (x : Pair F) (used_cand used_dec : List ℕ) {p : Pair F} (chosen : List (Pair F))
      → p ≡ x
      → Outcome used_cand used_dec (x ∷ chosen) p
  chosen-Outcome x used_cand used_dec chosen e = inr (
      inr (record {
        by = x;
        is_chosen = Memᴰ.head refl;
        shares = inl (ap (λ (q : Pair F). q.cand) (sym e));
        ranks =
            subst (λ q. ranks_before q x ≡ false) (sym e)
              (IsOrder-irrefl ranks_before ranks_before-IsOrder x);
      }))

  choose-Outcome :
      (pairs : List (Pair F)) (used_cand used_dec : List ℕ) {p : Pair F}
      → IsSorted ranks_before pairs
      → Memᴰ p pairs
      → Outcome used_cand used_dec (choose used_cand used_dec pairs) p
  unfolding choose
  choose-Outcome [] used_cand used_dec s m = elim m [ ]
  choose-Outcome (x ∷ pairs) used_cand used_dec {p} s m =
      elim (Bool-cases (is_used x.cand used_cand || is_used x.dec used_dec)) [
        | inl used ↦ rw used (elim (mem_cases m) [
          | inl e ↦ skip-Outcome x used_cand used_dec _ used e
          | inr d ↦ choose-Outcome pairs used_cand used_dec s.1 d
        ])
        | inr free ↦ rw free (elim (mem_cases m) [
          | inl e ↦ chosen-Outcome x used_cand used_dec _ e
          | inr d ↦
              take-Outcome x used_cand used_dec _
                (All_at (λ y. ranks_before y x ≡ false) pairs s.0 d)
                (choose-Outcome pairs (x.cand ∷ used_cand) (x.dec ∷ used_dec) s.1 d)
        ])
      ]

  -- In a list in the order of the ranking, every pair is chosen or blocked by one that is.
  pub choose-Blocks :
      (pairs : List (Pair F)) (p : Pair F)
      → IsSorted ranks_before pairs
      → Memᴰ p pairs
      → Blocks (choose [] [] pairs) p
  choose-Blocks pairs p s m = fresh (choose-Outcome pairs [] [] s m)
    where
      fresh : Outcome [] [] (choose [] [] pairs) p → Blocks (choose [] [] pairs) p
      fresh (inl h) = absurd (ground arith)
      fresh (inr (inl h)) = absurd (ground arith)
      fresh (inr (inr b)) = b
