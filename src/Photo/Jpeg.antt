-- ===== src/Photo/Jpeg.antt =====
-- `findEXIFTIFF` of internal/photo/exif.go: the walk over the segments of a JPEG. Bytes are numbers.
pub mod Segments
use roadbook.Prelude.{
  ℕ, suc, ◌+◌, Bool, ◌&&◌, ◌||◌, List, [], ◌∷◌, Option, none, some, ltb, leb, ◌==◌, not,
  if◌then◌else◌, length, get_elem?, take, drop,
}
use roadbook.Photo.Bytes.{cut, be_at, same_bytes, Step, stop, next, found, Ending, walk}

-- "Exif\0\0".
abbrev pub exif_header : List ℕ
exif_header = 69 ∷ 120 ∷ 105 ∷ 102 ∷ 0 ∷ 0 ∷ []

abbrev ends_metadata : ℕ → Bool
ends_metadata marker = marker == 218 || marker == 217

abbrev is_standalone : ℕ → Bool
is_standalone marker = marker == 1 || leb 208 marker && leb marker 215

abbrev is_exif : ℕ → List ℕ → Bool
is_exif marker payload =
    marker == 225 && (ltb 6 (length payload) && same_bytes (take 6 payload) exif_header)

-- A segment with a payload: `len` is its declared length.
payload_at : List ℕ → ℕ → ℕ → ℕ → Option (Step (List ℕ))
payload_at bytes i marker len =
    if ltb len 2 || ltb (length bytes) (i + 2 + len)
    then some stop
    else elim (cut bytes (i + 4) (i + 2 + len)) [
      | none ↦ none
      | some payload ↦
          some (if is_exif marker payload then found (drop 6 payload) else next (i + 2 + len))
    ]

segment_at : List ℕ → ℕ → ℕ → Option (Step (List ℕ))
unfolding payload_at
segment_at bytes i marker =
    if marker == 255
    then some (next (i + 1))
    else if ends_metadata marker
    then some stop
    else if is_standalone marker
    then some (next (i + 2))
    else elim (be_at bytes (i + 2) 2) [ none ↦ none | some len ↦ payload_at bytes i marker len ]

-- The body of the loop, with its condition.
marker_at : List ℕ → ℕ → Option (Step (List ℕ))
unfolding segment_at
marker_at bytes i =
    if not (leb (i + 4) (length bytes)) then some stop else elim (get_elem? bytes i) [
      | none ↦ none
      | some b ↦ if not (b == 255) then some stop else elim (get_elem? bytes (i + 1)) [
        | none ↦ none
        | some marker ↦ segment_at bytes i marker
      ]
    ]

-- Each iteration moves on, so that one more than there are bytes is enough fuel.
unfoldable pub find_exif_tiff : List ℕ → Ending (List ℕ)
unfolding marker_at
find_exif_tiff bytes = walk (marker_at bytes) (suc (length bytes)) 2
