-- ===== src/Detect/Spans/Runs.antt =====
-- About `find_spans` (findSpans of internal/detect/detect.go): which indices the spans hold.
use roadbook.Prelude.{
  ℕ, zero, suc, ◌+◌, ◌≤◌, ◌≡◌, refl, subst, ap, ◌∙◌, sym, Bool, true, false, List, [], ◌∷◌, ◌++◌,
  Option, none, some, ◌↔◌, ◌⊎◌, inl, inr, arith, append_assoc, append-nil, get_elem?,
}
use mathlib.Core.Logic.Iff
use mathlib.Core.Option.{some-injective}
use native.Mathlib.Decide.{dec_le}
use roadbook.Floats.{Float}
use roadbook.Detect.Spans.{Span, spans_from, far_flags, find_spans}

-- Some span holds the index.
abbrev pub InSpan : ℕ → List Span → Type 0
InSpan k [] = ⊥
InSpan k (sp ∷ spans) = ((sp.s ≤ k) × (k ≤ sp.e)) ⊎ InSpan k spans

-- The spans stand in order, none is empty, and between two of them an index is left out.
abbrev pub IsSeparated : ℕ → List Span → Type 0
IsSeparated lo [] = Unit
IsSeparated lo (sp ∷ spans) = (lo ≤ sp.s) × (sp.s ≤ sp.e) × IsSeparated (sp.e + 2) spans

-- The flag at index `k` is set, for flags that begin at index `i`.
abbrev FlagAt : ℕ → ℕ → List Bool → Type 0
FlagAt k i [] = ⊥
FlagAt k i (b ∷ away) = ((b ≡ true) × (k ≡ i)) ⊎ FlagAt k (suc i) away

spans_from-append :
    (away : List Bool) (i : ℕ) (cur : Option ℕ) (last : ℕ) (spans : List Span)
    → spans_from away i cur last spans ≡ spans ++ spans_from away i cur last []
unfolding spans_from
spans_from-append [] i none last spans = sym (append-nil spans)
spans_from-append [] i (some c) last spans = refl
spans_from-append (true ∷ away) i none last spans = spans_from-append away (suc i) (some i) i spans
spans_from-append (true ∷ away) i (some c) last spans =
    spans_from-append away (suc i) (some c) i spans
spans_from-append (false ∷ away) i none last spans = spans_from-append away (suc i) none last spans
spans_from-append (false ∷ away) i (some c) last spans =
    let sp : Span = record { s = c; e = last } in
    spans_from-append away (suc i) none last (spans ++ (sp ∷ []))
    ∙ append_assoc spans (sp ∷ []) (spans_from away (suc i) none last [])
    ∙ ap (λ l. spans ++ l) (sym (spans_from-append away (suc i) none last (sp ∷ [])))

-- Closing a run puts its span in front of those found later.
spans_from_close :
    (away : List Bool) (i c last : ℕ)
    → spans_from (false ∷ away) i (some c) last []
      ≡ record { s = c; e = last } ∷ spans_from away (suc i) none last []
unfolding spans_from
spans_from_close away i c last =
    spans_from-append away (suc i) none last (record { s = c; e = last } ∷ [])

IsSeparated-le :
    (lo hi : ℕ) (spans : List Span) → lo ≤ hi → IsSeparated hi spans → IsSeparated lo spans
IsSeparated-le lo hi [] h s = tt
IsSeparated-le lo hi (sp ∷ spans) h s = (omega arith, s.1, s.2)

mutual
  unfolding spans_from

  IsSeparated-closed :
      (away : List Bool) (i last : ℕ) → IsSeparated i (spans_from away i none last [])
  IsSeparated-closed [] i last = tt
  IsSeparated-closed (true ∷ away) i last = IsSeparated-open away i i (omega arith)
  IsSeparated-closed (false ∷ away) i last =
      IsSeparated-le i (suc i) _ (omega arith) (IsSeparated-closed away (suc i) last)

  IsSeparated-open :
      (away : List Bool) (c last : ℕ)
      → c ≤ last
      → IsSeparated c (spans_from away (suc last) (some c) last [])
  IsSeparated-open [] c last h = (omega arith, h, tt)
  IsSeparated-open (true ∷ away) c last h = IsSeparated-open away c (suc last) (omega arith)
  IsSeparated-open (false ∷ away) c last h = rw (spans_from_close away (suc last) c last) (
    omega arith,
    h,
    IsSeparated-le (last + 2) (suc (suc last)) _ (omega arith)
        (IsSeparated-closed away (suc (suc last)) last),
  )

FlagAt-le : {k i : ℕ} (away : List Bool) → FlagAt k i away → i ≤ k
FlagAt-le [] h = elim h [ ]
FlagAt-le (b ∷ away) (inl h) = omega arith
FlagAt-le (b ∷ away) (inr h) = omega (arith, FlagAt-le away h)

-- How the indices found change with one more flag.
abbrev Within : ℕ → ℕ → ℕ → Type 0
Within c last k = (c ≤ k) × (k ≤ last)

module _ (k : ℕ) (R : Type 0) where
  begin_run : (i : ℕ) → (Within i i k ⊎ R) ↔ (((true ≡ true) × (k ≡ i)) ⊎ R)
  begin_run i = (to, from)
    where
      to : Within i i k ⊎ R → ((true ≡ true) × (k ≡ i)) ⊎ R
      to (inl h) = inl (refl, omega arith)
      to (inr h) = inr h

      from : ((true ≡ true) × (k ≡ i)) ⊎ R → Within i i k ⊎ R
      from (inl h) = inl (omega arith, omega arith)
      from (inr h) = inr h

  leave_out : (i : ℕ) → R ↔ (((false ≡ true) × (k ≡ i)) ⊎ R)
  leave_out i = (inr, from)
    where
      from : ((false ≡ true) × (k ≡ i)) ⊎ R → R
      from (inl h) = absurd (ground arith)
      from (inr h) = h

  grow_run :
      (c last : ℕ)
      → c ≤ last
      → (Within c (suc last) k ⊎ R) ↔ (Within c last k ⊎ (((true ≡ true) × (k ≡ suc last)) ⊎ R))
  grow_run c last le = (to, from)
    where
      to : Within c (suc last) k ⊎ R → Within c last k ⊎ (((true ≡ true) × (k ≡ suc last)) ⊎ R)
      to (inl h) = elim (dec_le k last) [
        | yes low ↦ inl (h.0, low)
        | no high ↦ inr (inl (refl, omega arith))
      ]
      to (inr h) = inr (inr h)

      from : Within c last k ⊎ (((true ≡ true) × (k ≡ suc last)) ⊎ R) → Within c (suc last) k ⊎ R
      from (inl h) = inl (h.0, omega arith)
      from (inr (inl h)) = inl (omega arith, omega arith)
      from (inr (inr h)) = inr h

  end_run :
      (S : Type 0) (c last : ℕ)
      → S ↔ R
      → (Within c last k ⊎ S) ↔ (Within c last k ⊎ (((false ≡ true) × (k ≡ suc last)) ⊎ R))
  end_run S c last both = (to, from)
    where
      to : Within c last k ⊎ S → Within c last k ⊎ (((false ≡ true) × (k ≡ suc last)) ⊎ R)
      to (inl h) = inl h
      to (inr h) = inr (inr (both.0 h))

      from : Within c last k ⊎ (((false ≡ true) × (k ≡ suc last)) ⊎ R) → Within c last k ⊎ S
      from (inl h) = inl h
      from (inr (inl h)) = absurd (ground arith)
      from (inr (inr h)) = inr (both.1 h)

mutual
  unfolding spans_from

  covers_closed :
      (away : List Bool) (i last k : ℕ)
      → InSpan k (spans_from away i none last []) ↔ FlagAt k i away
  covers_closed [] i last k = (λ h. h, λ h. h)
  covers_closed (true ∷ away) i last k =
      Iff.trans (covers_open away i i k (omega arith)) (begin_run k (FlagAt k (suc i) away) i)
  covers_closed (false ∷ away) i last k =
      Iff.trans (covers_closed away (suc i) last k) (leave_out k (FlagAt k (suc i) away) i)

  covers_open :
      (away : List Bool) (c last k : ℕ)
      → c ≤ last
      → InSpan k (spans_from away (suc last) (some c) last [])
        ↔ (Within c last k ⊎ FlagAt k (suc last) away)
  covers_open [] c last k h = (λ x. x, λ x. x)
  covers_open (true ∷ away) c last k h =
      Iff.trans (covers_open away c (suc last) k (omega arith))
        (grow_run k (FlagAt k (suc (suc last)) away) c last h)
  covers_open (false ∷ away) c last k h = rw (spans_from_close away (suc last) c last) (
      end_run k (FlagAt k (suc (suc last)) away)
        (InSpan k (spans_from away (suc (suc last)) none last [])) c last
        (covers_closed away (suc (suc last)) last k))

module _ {F : Type 0} ⦃fl : Float F⦄ (near_m : F) where
  -- The distance at index `k` is beyond the threshold.
  abbrev pub FarAt : ℕ → List F → Type 0
  FarAt k dist = (d : F) × (get_elem? dist k ≡ some d) × (fl.lt near_m d ≡ true)

  FlagAt→FarAt :
      (dist : List F) (i k m : ℕ) → m ≡ i + k → FlagAt m i (far_flags dist near_m) → FarAt k dist
  FlagAt→FarAt [] i k m e h = elim h [ ]
  FlagAt→FarAt (d ∷ dist) i zero m e (inl h) = (d, refl, h.0)
  FlagAt→FarAt (d ∷ dist) i zero m e (inr h) =
      absurd (omega (arith, FlagAt-le (far_flags dist near_m) h))
  FlagAt→FarAt (d ∷ dist) i (suc k) m e (inl h) = absurd (omega arith)
  FlagAt→FarAt (d ∷ dist) i (suc k) m e (inr h) = FlagAt→FarAt dist (suc i) k m (omega arith) h

  FarAt→FlagAt :
      (dist : List F) (i k m : ℕ) → m ≡ i + k → FarAt k dist → FlagAt m i (far_flags dist near_m)
  FarAt→FlagAt [] i k m e (d, at, h) = cc
  FarAt→FlagAt (d ∷ dist) i zero m e (d', at, h) =
      inl (subst (λ x. fl.lt near_m x ≡ true) (sym (some-injective d d' at)) h, omega arith)
  FarAt→FlagAt (d ∷ dist) i (suc k) m e h = inr (FarAt→FlagAt dist (suc i) k m (omega arith) h)

  -- An index lies in a span exactly when its distance is beyond the threshold.
  pub find_spans-covers : (dist : List F) (k : ℕ) → InSpan k (find_spans dist near_m) ↔ FarAt k dist
  unfolding find_spans
  find_spans-covers dist k =
      Iff.trans (covers_closed (far_flags dist near_m) 0 0 k)
        (FlagAt→FarAt dist 0 k k (omega arith), FarAt→FlagAt dist 0 k k (omega arith))

  -- The spans stand in order, none is empty, and between two of them an index is left out.
  pub find_spans-IsSeparated : (dist : List F) → IsSeparated 0 (find_spans dist near_m)
  unfolding find_spans
  find_spans-IsSeparated dist = IsSeparated-closed (far_flags dist near_m) 0 0
