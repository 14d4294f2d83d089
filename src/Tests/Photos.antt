-- ===== src/Tests/Photos.antt =====
-- The theorems about the photo walks at small inputs.
use roadbook.Prelude.{
  ◌≤◌, length, All, ℕ, suc, ◌+◌, ◌≡◌, refl, List, [], ◌∷◌, ◌++◌, none, some, ◌⊎◌, inl, inr, sym,
  subst, arith,
}
use mathlib.Core.Option.{some-injective}
use roadbook.Photo.Bytes.{done, cut, be, be_at, same_bytes, walk, stuck, panicked}
use roadbook.Photo.Bytes.Cuts.{IsDone}
use roadbook.Photo.Jpeg.{exif_header, find_exif_tiff}
use roadbook.Photo.Jpeg.Segments.{IsBehindHeader, find_exif_tiff-IsDone}
use roadbook.Photo.Items.{infe, exif_type, exif_item_id}
use roadbook.Photo.Items.Named.{IsAnswered, exif_item_id-IsAnswered}
use roadbook.Photo.Tiff.{
  TiffReader, little_endian, max_entries, walk_ifd, read, u16, u32, uint, type_size, is_wanted,
}
use roadbook.Photo.Tiff.Entries.{IsConsumed, walk_ifd-IsConsumed}
use roadbook.Photo.Boxes.{find_box}
use roadbook.Photo.Boxes.Sizes.{
  IsBox, HasSaneSizes, IsWithin, find_box-IsDone, find_box_stuck, find_box_panicked,
}

abbrev jpeg : List ℕ
jpeg = 255 ∷ 216 ∷ 255 ∷ 225 ∷ 0 ∷ 10 ∷ (exif_header ++ (73 ∷ 73 ∷ []))

abbrev meta : List ℕ
meta = 109 ∷ 101 ∷ 116 ∷ 97 ∷ []

abbrev free : List ℕ
free = 102 ∷ 114 ∷ 101 ∷ 101 ∷ []

abbrev small_box : List ℕ
small_box = 0 ∷ 0 ∷ 0 ∷ 10 ∷ (meta ++ (7 ∷ 8 ∷ []))

-- A box with a 64-bit size.
abbrev large_box : List ℕ → ℕ → List ℕ
large_box typ size64 = 0 ∷ 0 ∷ 0 ∷ 1 ∷ (typ ++ (0 ∷ 0 ∷ 0 ∷ 0 ∷ 0 ∷ 0 ∷ 0 ∷ size64 ∷ []))

find_exif_tiff-IsDone_example : IsDone (IsBehindHeader jpeg) (find_exif_tiff jpeg)
find_exif_tiff-IsDone_example = find_exif_tiff-IsDone jpeg

-- A box with a 64-bit size of 16, and one of 10 bytes behind it.
abbrev boxes : List ℕ
boxes = large_box free 16 ++ small_box

first_size :
    (i size : ℕ)
    → (i ≡ 0) ⊎ (i ≡ 16) ⊎ (i ≡ 26)
    → be_at boxes i 4 ≡ some size
    → (i ≡ 0) × (size ≡ 1) ⊎ (i ≡ 16) × (size ≡ 10)
unfolding be_at cut be
first_size i size (inl e) at = inl (e, sym (some-injective 1 size (rw e at at)))
first_size i size (inr (inl e)) at = inr (e, sym (some-injective 10 size (rw e at at)))
first_size i size (inr (inr e)) at = let past : none ≡ some size = rw e at at in cc

large_size : (n : ℕ) → be_at boxes 8 8 ≡ some n → n ≡ 16
unfolding be_at cut be
large_size n at = sym (some-injective 16 n at)

box_places : {i : ℕ} → IsBox boxes 0 26 i → (i ≡ 0) ⊎ (i ≡ 16) ⊎ (i ≡ 26)
box_places IsBox.first = inl refl
box_places (IsBox.behind {i} {size} box at long h) = elim (first_size i size (box_places box) at) [
  | inl (e, f) ↦ absurd (omega arith)
  | inr (e, f) ↦ inr (inr (omega arith))
]
box_places (IsBox.behind_large {i} {n} box one at h) = elim (first_size i 1 (box_places box) one) [
  | inl (e, f) ↦
      let large = large_size n (subst (λ k. be_at boxes (k + 8) 8 ≡ some n) e at) in
      inr (inl (omega arith))
  | inr (e, f) ↦ absurd (omega arith)
]
box_places (IsBox.behind_last {i} box at) = inr (inr refl)

boxes-HasSaneSizes : HasSaneSizes boxes 0 26
boxes-HasSaneSizes i n box one at h = elim (first_size i 1 (box_places box) one) [
  | inl (e, f) ↦
      let large = large_size n (subst (λ k. be_at boxes (k + 8) 8 ≡ some n) e at) in omega arith
  | inr (e, f) ↦ absurd (omega arith)
]

find_box-IsDone_example : IsDone (IsWithin boxes 26) (find_box boxes 0 26 meta 27)
find_box-IsDone_example = find_box-IsDone boxes 0 26 meta 27 boxes-HasSaneSizes (omega arith)

-- The search passes the box with the 64-bit size.
find_box_test : find_box boxes 0 26 meta 27 ≡ done (some (7 ∷ 8 ∷ []))
unfolding find_box walk be_at be cut same_bytes
find_box_test = refl

find_box_stuck_example : find_box (large_box free 0) 0 16 meta 100 ≡ stuck
unfolding be_at be cut same_bytes
find_box_stuck_example =
    find_box_stuck (large_box free 0) 0 16 meta free 100 (omega arith) (omega arith) refl refl refl
      refl

find_box_panicked_example : find_box (large_box meta 8) 0 16 meta (suc 0) ≡ panicked
unfolding be_at be cut
find_box_panicked_example =
    find_box_panicked (large_box meta 8) 0 16 meta 0 8 (omega arith) (omega arith) refl refl
      (omega arith) refl

-- What the walks return.
find_exif_tiff_test : find_exif_tiff jpeg ≡ done (some (73 ∷ 73 ∷ []))
unfolding find_exif_tiff walk be_at cut be same_bytes
find_exif_tiff_test = refl

-- A little-endian directory with one entry: tag 274, a SHORT, count 1, value 6.
abbrev tiff : TiffReader
tiff = record {
  bytes = 1 ∷ 0 ∷ 18 ∷ 1 ∷ 3 ∷ 0 ∷ 1 ∷ 0 ∷ 0 ∷ 0 ∷ 6 ∷ 0 ∷ 0 ∷ 0 ∷ [];
  bo = little_endian;
}

walk_ifd-IsConsumed_example :
    All (IsConsumed tiff (274 ∷ [])) (walk_ifd tiff 0 (274 ∷ []))
    × (length (walk_ifd tiff 0 (274 ∷ [])) ≤ max_entries)
walk_ifd-IsConsumed_example = walk_ifd-IsConsumed tiff (274 ∷ []) 0

walk_ifd_test :
    walk_ifd tiff 0 (274 ∷ []) ≡ (274, record { typ = 3; cnt = 1; val = 6 ∷ 0 ∷ [] }) ∷ []
unfolding walk_ifd read u16 u32 uint type_size is_wanted cut be
walk_ifd_test = refl

-- One entry of version 2 with the id 7 and the type "Exif".
abbrev items : List ℕ
items =
    0 ∷ 0 ∷ 0 ∷ 0 ∷ 0 ∷ 1 ∷ 0 ∷ 0 ∷ 0 ∷ 20 ∷ (infe ++ (2 ∷ 0 ∷ 0 ∷ 0 ∷ 0 ∷ 7 ∷ 0 ∷ 0 ∷ exif_type))

exif_item_id-IsAnswered_example : IsAnswered items (exif_item_id items)
exif_item_id-IsAnswered_example = exif_item_id-IsAnswered items

exif_item_id_test : exif_item_id items ≡ some (some 7)
unfolding exif_item_id be_at be cut same_bytes
exif_item_id_test = refl
