-- ===== src/Photo/Boxes/Sizes.antt =====
-- About `find_box` (findBox of internal/photo/heif.go): how it ends, by the 64-bit sizes of the boxes.
use roadbook.Prelude.{
  ℕ, suc, ◌+◌, ◌-◌, ◌≤◌, ◌<◌, ◌≡◌, refl, ◌||◌, inl, inr, true, false, ◌&&◌, List, Option, none,
  some, length, ap, ◌∙◌, Bool-cases, leb, ltb, ◌==◌, arith,
}
use roadbook.Photo.Bytes.{cut, be_at, same_bytes, Step, next, found, stop, stuck, panicked, walk}
use roadbook.Photo.Bytes.Cuts.{
  IsPart, cut-IsPart, be_at-some, same_bytes_refl, walk_stuck, IsSafe, IsDone, walk-IsDone,
}
use roadbook.Photo.Boxes.{large_extent, extent, match_box, box_at, find_box}

-- A payload that ends at or before `end`.
pub record IsWithin (bytes : List ℕ) (end : ℕ) (part : List ℕ) : Type 0 where
  pub index : ℕ
  pub is_part : IsPart bytes index part
  pub bound : index + length part ≤ end

module _ (bytes : List ℕ) (start end : ℕ) where
  -- Where the boxes begin: each behind the one before, by its size, and the last may extend to the end.
  pub data IsBox : ℕ → Type 0 where
    first : IsBox start
    behind :
        {i size : ℕ}
        → IsBox i
        → be_at bytes i 4 ≡ some size
        → 8 ≤ size
        → i + size ≤ end
        → IsBox (i + size)
    behind_large :
        {i n : ℕ}
        → IsBox i
        → be_at bytes i 4 ≡ some 1
        → be_at bytes (i + 8) 8 ≡ some n
        → i + n ≤ end
        → IsBox (i + n)
    behind_last : {i : ℕ} → IsBox i → be_at bytes i 4 ≡ some 0 → IsBox end

  -- The 64-bit size of a box counts at least the 16 bytes of its own header.
  abbrev pub HasSaneSizes : Type 0
  HasSaneSizes =
      (i n : ℕ)
      → IsBox i
      → be_at bytes i 4 ≡ some 1
      → be_at bytes (i + 8) 8 ≡ some n
      → i + 16 ≤ end
      → 16 ≤ n

  abbrev Fits : ℕ → Option (ℕ × ℕ) → Type 0
  Fits i none = Unit
  Fits i (some (payload_start, box_end)) =
      (i < payload_start) × (payload_start ≤ box_end) × (box_end ≤ end) × IsBox box_end

  abbrev FitsAt : ℕ → Option (Option (ℕ × ℕ)) → Type 0
  FitsAt i o = (e : Option (ℕ × ℕ)) × (o ≡ some e) × Fits i e

  abbrev Safe : ℕ → Option (Step (List ℕ)) → Type 0
  Safe = IsSafe (IsWithin bytes end) IsBox end

  large_extent-Fits :
      (i : ℕ)
      → HasSaneSizes
      → IsBox i
      → be_at bytes i 4 ≡ some 1
      → end ≤ length bytes
      → FitsAt i (large_extent bytes i end)
  unfolding large_extent
  large_extent-Fits i sane box one h = elim (Bool-cases (ltb end (i + 16))) [
    | inl e ↦ (none, rw e refl, tt)
    | inr e ↦
        let (n, at) = be_at-some bytes (i + 8) 8 (ground arith) in
        let large = sane i n box one at (ground arith) in
        elim (Bool-cases (ltb (end - i) n)) [
          | inl f ↦ (none, rw (e, at, f) refl, tt)
          | inr f ↦ (
            some (i + 16, i + n),
            rw (e, at, f) refl,
            (ground arith, ground arith, ground arith, behind_large box one at (ground arith)),
          )
        ]
  ]

  extent-Fits :
      (i size : ℕ)
      → HasSaneSizes
      → IsBox i
      → be_at bytes i 4 ≡ some size
      → i + 8 ≤ end
      → end ≤ length bytes
      → FitsAt i (extent bytes i end size)
  unfolding extent
  extent-Fits i size sane box at h h' = elim (Bool-cases (size == 0)) [
    | inl e ↦
        let zero_size : size ≡ 0 = ground arith in
        (
          some (i + 8, end),
          rw e refl,
          (omega arith, omega arith, omega arith, behind_last box (rw zero_size at at)),
        )
    | inr e ↦ elim (Bool-cases (size == 1)) [
      | inl f ↦
          let one : size ≡ 1 = ground arith in
          rw (e, f) (large_extent-Fits i sane box (rw one at at) h')
      | inr f ↦ elim (Bool-cases (ltb size 8 || ltb end (i + size))) [
        | inl g ↦ (none, rw (e, f, g) refl, tt)
        | inr g ↦ (
          some (i + 8, i + size),
          rw (e, f, g) refl,
          (omega arith, ground arith, ground arith, behind box at (ground arith) (ground arith)),
        )
      ]
    ]
  ]

  match_box-Safe :
      (typ box_type : List ℕ) (i : ℕ) (e : Option (ℕ × ℕ))
      → Fits i e
      → i < end
      → end ≤ length bytes
      → Safe i (match_box bytes typ box_type e)
  unfolding match_box
  match_box-Safe typ box_type i none fits h h' = (stop, refl, tt)
  match_box-Safe typ box_type i (some (payload_start, box_end)) (a, b, c, d) h h' =
      elim (Bool-cases (same_bytes box_type typ)) [
        | inr f ↦ (next box_end, rw f refl, (omega arith, h, d))
        | inl f ↦
            let (part, eq, p, l) = cut-IsPart bytes payload_start box_end b (omega arith) in
            (
              found part,
              rw (f, eq) refl,
              record { index = payload_start; is_part = p; bound = omega arith },
            )
      ]

  box_at-Safe : (typ : List ℕ) (i : ℕ) → HasSaneSizes → IsBox i → Safe i (box_at bytes end typ i)
  unfolding box_at
  box_at-Safe typ i sane box = elim (Bool-cases (leb (i + 8) end && leb end (length bytes))) [
    | inr e ↦ (stop, rw e refl, tt)
    | inl e ↦
        let h : i + 8 ≤ end = ground arith in
        let h' : end ≤ length bytes = ground arith in
        let (size, at) = be_at-some bytes i 4 (omega arith) in
        let (box_type, eq, p, l) = cut-IsPart bytes (i + 4) (i + 8) (omega arith) (omega arith) in
        let (ext, ex, fits) = extent-Fits i size sane box at h h' in
        rw (e, at, eq, ex) (match_box-Safe typ box_type i ext fits (omega arith) h')
  ]

-- If no box along the walk has a 64-bit size below 16, the search ends without a panic on any fuel above
-- `end - start`, and a payload that it returns lies in the bytes and ends at or before `end`.
pub find_box-IsDone :
    (bytes : List ℕ) (start end : ℕ) (typ : List ℕ) (fuel : ℕ)
    → HasSaneSizes bytes start end
    → end - start < fuel
    → IsDone (IsWithin bytes end) (find_box bytes start end typ fuel)
unfolding find_box
find_box-IsDone bytes start end typ fuel sane h =
    walk-IsDone (IsWithin bytes end) (IsBox bytes start end) end (box_at bytes end typ)
      (λ i box. box_at-Safe bytes start end typ i sane box) fuel start first h

module _ (bytes : List ℕ) (start end : ℕ) (typ box_type : List ℕ) (h : start + 16 ≤ end)
    (h' : end ≤ length bytes) (one : be_at bytes start 4 ≡ some 1)
    (at : cut bytes (start + 4) (start + 8) ≡ some box_type) where
  large_box_at :
      (n : ℕ)
      → n ≤ end - start
      → be_at bytes (start + 8) 8 ≡ some n
      → box_at bytes end typ start ≡ match_box bytes typ box_type (some (start + 16, start + n))
  unfolding box_at extent large_extent
  large_box_at n le size64 =
      let guard : (leb (start + 8) end && leb end (length bytes)) ≡ true = ground arith in
      let fits : ltb end (start + 16) ≡ false = ground arith in
      let small : ltb (end - start) n ≡ false = ground arith in
      rw (guard, one, at, fits, size64, small) refl

-- A box whose 64-bit size is zero and whose type is another than the one wanted keeps the search where
-- it is: no fuel is enough.
pub find_box_stuck :
    (bytes : List ℕ) (start end : ℕ) (typ box_type : List ℕ) (fuel : ℕ)
    → start + 16 ≤ end
    → end ≤ length bytes
    → be_at bytes start 4 ≡ some 1
    → be_at bytes (start + 8) 8 ≡ some 0
    → cut bytes (start + 4) (start + 8) ≡ some box_type
    → same_bytes box_type typ ≡ false
    → find_box bytes start end typ fuel ≡ stuck
unfolding find_box
find_box_stuck bytes start end typ box_type fuel h h' one zero_size at other =
    let again = large_box_at bytes start end typ box_type h h' one at 0 (omega arith) zero_size in
    walk_stuck (box_at bytes end typ) start
      (again ∙ rw (other, match_box) (ap (λ k. some (next k)) (omega arith))) fuel

-- A box of the type wanted whose 64-bit size is below 16, its own header's length, makes the search
-- panic.
pub find_box_panicked :
    (bytes : List ℕ) (start end : ℕ) (typ : List ℕ) (fuel n : ℕ)
    → start + 16 ≤ end
    → end ≤ length bytes
    → be_at bytes start 4 ≡ some 1
    → be_at bytes (start + 8) 8 ≡ some n
    → n < 16
    → cut bytes (start + 4) (start + 8) ≡ some typ
    → find_box bytes start end typ (suc fuel) ≡ panicked
unfolding find_box walk match_box cut
find_box_panicked bytes start end typ fuel n h h' one size64 small at =
    let box = large_box_at bytes start end typ typ h h' one at n (omega arith) size64 in
    let out : leb (start + 16) (start + n) ≡ false = ground arith in
    rw (box, same_bytes_refl typ, out) refl
