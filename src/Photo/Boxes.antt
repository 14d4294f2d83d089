-- ===== src/Photo/Boxes.antt =====
-- `findBox` of internal/photo/heif.go: the walk over the boxes of a HEIF container.
pub mod Sizes
use roadbook.Prelude.{
  ℕ, ◌+◌, ◌-◌, ◌&&◌, ◌||◌, List, Option, none, some, ltb, leb, ◌==◌, not, if◌then◌else◌, length,
}
use roadbook.Photo.Bytes.{cut, be_at, same_bytes, Step, stop, next, found, Ending, walk}

-- A box with a 64-bit size.
large_extent : List ℕ → ℕ → ℕ → Option (Option (ℕ × ℕ))
large_extent bytes i end = if ltb end (i + 16) then some none else elim (be_at bytes (i + 8) 8) [
  | none ↦ none
  | some size64 ↦ some (if ltb (end - i) size64 then none else some (i + 16, i + size64))
]

-- Where the payload of the box at `i` begins and where the box ends, unless its size is inconsistent.
extent : List ℕ → ℕ → ℕ → ℕ → Option (Option (ℕ × ℕ))
unfolding large_extent
extent bytes i end size =
    if size == 0
    then some (some (i + 8, end))
    else if size == 1
    then large_extent bytes i end
    else if ltb size 8 || ltb end (i + size)
    then some none
    else some (some (i + 8, i + size))

-- The box is the one that is wanted, or the loop goes on behind it.
match_box : List ℕ → List ℕ → List ℕ → Option (ℕ × ℕ) → Option (Step (List ℕ))
match_box bytes typ box_type none = some stop
match_box bytes typ box_type (some (payload_start, box_end)) =
    if same_bytes box_type typ
    then elim (cut bytes payload_start box_end) [ none ↦ none | some part ↦ some (found part) ]
    else some (next box_end)

-- The body of the loop, with its condition.
box_at : List ℕ → ℕ → List ℕ → ℕ → Option (Step (List ℕ))
unfolding extent match_box
box_at bytes end typ i =
    if not (leb (i + 8) end && leb end (length bytes)) then some stop else elim (be_at bytes i 4) [
      | none ↦ none
      | some size ↦ elim (cut bytes (i + 4) (i + 8)) [
        | none ↦ none
        | some box_type ↦ elim (extent bytes i end size) [
          | none ↦ none
          | some e ↦ match_box bytes typ box_type e
        ]
      ]
    ]

-- The loop may have no end, so its fuel is an argument.
unfoldable pub find_box : List ℕ → ℕ → ℕ → List ℕ → ℕ → Ending (List ℕ)
unfolding box_at
find_box bytes start end typ fuel = walk (box_at bytes end typ) fuel start
