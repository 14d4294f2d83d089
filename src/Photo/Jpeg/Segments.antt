-- ===== src/Photo/Jpeg/Segments.antt =====
-- About `find_exif_tiff` (findEXIFTIFF of internal/photo/exif.go): how it ends and what it returns.
use roadbook.Prelude.{
  ℕ, suc, ◌+◌, ◌≤◌, ◌≡◌, refl, ap, subst, ◌∙◌, inl, inr, true, List, ◌++◌, Option, length, take,
  drop, Bool-cases, leb, ltb, ◌==◌, ◌||◌, arith,
}
use roadbook.Detect.PyPort.Bisect.{get_elem?-lt}
use roadbook.Photo.Bytes.{Step, next, found, stop}
use roadbook.Photo.Bytes.Cuts.{
  take-drop, cut-IsPart, be_at-some, same_bytes→eq, IsSafe, IsDone, walk-IsDone,
}
use roadbook.Photo.Jpeg.{
  exif_header, ends_metadata, is_standalone, is_exif, payload_at, segment_at, marker_at,
  find_exif_tiff,
}

-- The bytes behind an Exif header of the file.
pub record IsBehindHeader (bytes tiff : List ℕ) : Type 0 where
  pub before : List ℕ
  pub behind : List ℕ
  pub split : bytes ≡ before ++ ((exif_header ++ tiff) ++ behind)

is_exif-header :
    (marker : ℕ) (payload : List ℕ)
    → is_exif marker payload ≡ true
    → payload ≡ exif_header ++ drop 6 payload
is_exif-header marker payload h =
    take-drop 6 payload
    ∙ ap (λ l. l ++ drop 6 payload) (same_bytes→eq (take 6 payload) exif_header (ground arith))

module _ (bytes : List ℕ) where
  abbrev Safe : ℕ → Option (Step (List ℕ)) → Type 0
  Safe = IsSafe (IsBehindHeader bytes) (λ i. Unit) (length bytes)

  payload_at-Safe :
      (i marker len : ℕ) → i + 4 ≤ length bytes → Safe i (payload_at bytes i marker len)
  unfolding payload_at
  payload_at-Safe i marker len h =
      elim (Bool-cases (ltb len 2 || ltb (length bytes) (i + 2 + len))) [
        | inl e ↦ (stop, rw e refl, tt)
        | inr e ↦
            let (part, eq, p, l) =
              cut-IsPart bytes (i + 4) (i + 2 + len) (ground arith) (ground arith) in
            elim (Bool-cases (is_exif marker part)) [
              | inl x ↦ (
                found (drop 6 part),
                rw (e, eq, x) refl,
                record {
                  before = p.before;
                  behind = p.behind;
                  split =
                      subst (λ q. bytes ≡ p.before ++ (q ++ p.behind))
                        (is_exif-header marker part x) p.split;
                },
              )
              | inr x ↦ (next (i + 2 + len), rw (e, eq, x) refl, (ground arith, ground arith, tt))
            ]
      ]

  segment_at-Safe : (i marker : ℕ) → i + 4 ≤ length bytes → Safe i (segment_at bytes i marker)
  unfolding segment_at
  segment_at-Safe i marker h = elim (Bool-cases (marker == 255)) [
    | inl e ↦ (next (i + 1), rw e refl, (omega arith, omega arith, tt))
    | inr e ↦ elim (Bool-cases (ends_metadata marker)) [
      | inl f ↦ (stop, rw (e, f) refl, tt)
      | inr f ↦ elim (Bool-cases (is_standalone marker)) [
        | inl g ↦ (next (i + 2), rw (e, f, g) refl, (omega arith, omega arith, tt))
        | inr g ↦
            let (len, at) = be_at-some bytes (i + 2) 2 (omega arith) in
            rw (e, f, g, at) (payload_at-Safe i marker len h)
      ]
    ]
  ]

  marker_at-Safe : (i : ℕ) → Safe i (marker_at bytes i)
  unfolding marker_at
  marker_at-Safe i = elim (Bool-cases (leb (i + 4) (length bytes))) [
    | inr e ↦ (stop, rw e refl, tt)
    | inl e ↦
        let (b, at) = get_elem?-lt bytes i (ground arith) in
        let (marker, at') = get_elem?-lt bytes (i + 1) (ground arith) in
        elim (Bool-cases (b == 255)) [
          | inr f ↦ (stop, rw (e, at, f) refl, tt)
          | inl f ↦ rw (e, at, f, at') (segment_at-Safe i marker (ground arith))
        ]
  ]

-- On any bytes the walk ends without a panic, and what it returns lies in the file, up to some later
-- point, right behind an Exif header.
pub find_exif_tiff-IsDone : (bytes : List ℕ) → IsDone (IsBehindHeader bytes) (find_exif_tiff bytes)
unfolding find_exif_tiff
find_exif_tiff-IsDone bytes =
    walk-IsDone (IsBehindHeader bytes) (λ i. Unit) (length bytes) (marker_at bytes)
      (λ i at. marker_at-Safe bytes i) (suc (length bytes)) 2 tt (omega arith)
