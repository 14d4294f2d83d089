-- ===== src/Photo/Items.antt =====
-- `exifItemID` of internal/photo/heif.go: the item whose type is "Exif". `none` is a panic.
pub mod Named
use roadbook.Prelude.{
  ℕ, zero, suc, ◌+◌, ◌||◌, not, List, [], ◌∷◌, Option, none, some, ltb, ◌==◌, if◌then◌else◌, length,
  get_elem?,
}
use roadbook.Photo.Bytes.{cut, be_at, same_bytes, Step, stop, next, found}

-- "infe" and "Exif".
abbrev pub infe : List ℕ
infe = 105 ∷ 110 ∷ 102 ∷ 101 ∷ []

abbrev pub exif_type : List ℕ
exif_type = 69 ∷ 120 ∷ 105 ∷ 102 ∷ []

-- An entry of a version whose id has `width` bytes and whose type stands at `j`. The source tests twice that the type
-- fits, with the same bound.
type_step : (entry : List ℕ) (width j behind : ℕ) → Option (Step ℕ)
type_step entry width j behind =
    if ltb (length entry) (j + 4) then some stop else elim (be_at entry 4 width) [
      | none ↦ none
      | some id ↦ elim (cut entry j (j + 4)) [
        | none ↦ none
        | some typ ↦ some (if same_bytes typ exif_type then found id else next behind)
      ]
    ]

-- The versions 2 and 3 of an entry; another is skipped.
version_step : (entry : List ℕ) (behind : ℕ) → Option (Step ℕ)
unfolding type_step
version_step entry behind = if ltb (length entry) 4 then some stop else elim (get_elem? entry 0) [
  | none ↦ none
  | some ver ↦
      if ver == 2
      then type_step entry 2 8 behind
      else if ver == 3
      then type_step entry 4 10 behind
      else some (next behind)
]

entry_step : (iinf : List ℕ) (i size : ℕ) → Option (Step ℕ)
unfolding version_step
entry_step iinf i size =
    if ltb size 8 || ltb (length iinf) (i + size)
    then some stop
    else elim (cut iinf (i + 4) (i + 8)) [
      | none ↦ none
      | some typ ↦
          if not (same_bytes typ infe) then some stop else elim (cut iinf (i + 8) (i + size)) [
            | none ↦ none
            | some entry ↦ version_step entry (i + size)
          ]
    ]

-- One iteration.
item_step : (iinf : List ℕ) (i : ℕ) → Option (Step ℕ)
unfolding entry_step
item_step iinf i =
    if ltb (length iinf) (i + 8)
    then some stop
    else elim (be_at iinf i 4) [ none ↦ none | some size ↦ entry_step iinf i size ]

abbrev by_step : (ℕ → Option (Option ℕ)) → Option (Step ℕ) → Option (Option ℕ)
by_step rest none = none
by_step rest (some stop) = some none
by_step rest (some (next j)) = rest j
by_step rest (some (found id)) = some (some id)

-- The loop over `count` entries.
items_from : (iinf : List ℕ) (count i : ℕ) → Option (Option ℕ)
unfolding item_step
items_from iinf zero i = some none
items_from iinf (suc count) i = by_step (λ j. items_from iinf count j) (item_step iinf i)

unfoldable pub exif_item_id : List ℕ → Option (Option ℕ)
unfolding items_from
exif_item_id iinf = if ltb (length iinf) 6 then some none else elim (get_elem? iinf 0) [
  | none ↦ none
  | some version ↦
      if version == 0
      then elim (be_at iinf 4 2) [ none ↦ none | some count ↦ items_from iinf count 6 ]
      else if ltb (length iinf) 8
      then some none
      else elim (be_at iinf 4 4) [ none ↦ none | some count ↦ items_from iinf count 8 ]
]
