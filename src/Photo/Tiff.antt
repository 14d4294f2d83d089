-- ===== src/Photo/Tiff.antt =====
-- `tiffReader`, `walkIFD` and the readers of values of internal/photo/exif.go. Each slice there stands
-- behind a test of its own bounds, so `none` is only absence: the test that fails. Offsets are sums of
-- 32-bit numbers, far from the end of an int.
pub mod Entries
use roadbook.Prelude.{
  ℕ, zero, suc, ◌+◌, ◌*◌, min, Bool, true, false, ◌&&◌, ◌||◌, not, List, [], ◌∷◌, Option, none,
  some, ltb, leb, ◌==◌, if◌then◌else◌, length, take, drop, reverse,
}
use roadbook.Floats.{Float}
use roadbook.Photo.Bytes.{cut, be}

-- The declared byte order.
pub data ByteOrder : Type 0 where
  little_endian big_endian : ByteOrder

unfoldable pub uint : ByteOrder → List ℕ → ℕ
uint little_endian bytes = be (reverse bytes)
uint big_endian bytes = be bytes

pub record TiffReader : Type 0 where
  pub bytes : List ℕ
  pub bo : ByteOrder

abbrev pub uint_of : ByteOrder → Option (List ℕ) → Option ℕ
uint_of bo none = none
uint_of bo (some part) = some (uint bo part)

-- `r.bytes`, `r.u16` and `r.u32`.
unfoldable pub read : TiffReader → ℕ → ℕ → Option (List ℕ)
read r off n = cut r.bytes off (off + n)

unfoldable pub u16 : TiffReader → ℕ → Option ℕ
unfolding read
u16 r off = uint_of r.bo (read r off 2)

unfoldable pub u32 : TiffReader → ℕ → Option ℕ
unfolding read
u32 r off = uint_of r.bo (read r off 4)

-- `typeSize`, by the number of the type.
abbrev type_sizes : List (ℕ × ℕ)
type_sizes = (1, 1) ∷ (2, 1) ∷ (3, 2) ∷ (4, 4) ∷ (5, 8) ∷ (7, 1) ∷ (9, 4) ∷ (10, 8) ∷ []

abbrev size_in : List (ℕ × ℕ) → ℕ → Option ℕ
size_in [] typ = none
size_in ((t, size) ∷ sizes) typ = if t == typ then some size else size_in sizes typ

unfoldable pub type_size : ℕ → Option ℕ
type_size typ = size_in type_sizes typ

pub record Entry : Type 0 where
  pub typ : ℕ
  pub cnt : ℕ
  pub val : List ℕ

-- The value: up to four bytes stand in the entry, longer ones at the offset that it holds.
value_at : TiffReader → ℕ → ℕ → Option (List ℕ)
unfolding read u32
value_at r base total =
    if leb total 4
    then read r (base + 8) total
    else elim (u32 r (base + 8)) [ none ↦ none | some val_off ↦ read r val_off total ]

unfoldable pub is_wanted : List ℕ → ℕ → Bool
is_wanted [] tag = false
is_wanted (w ∷ want) tag = w == tag || is_wanted want tag

-- An entry with the tag, the type and the count that were read.
entry_of : TiffReader → List ℕ → ℕ → ℕ → ℕ → ℕ → Option (ℕ × Entry)
unfolding value_at is_wanted
entry_of r want base tag typ cnt = if not (is_wanted want tag) then none else elim (type_size typ) [
  | none ↦ none
  | some size ↦ if ltb 65_536 cnt then none else elim (value_at r base (size * cnt)) [
    | none ↦ none
    | some val ↦ some (tag, record { typ = typ; cnt = cnt; val = val })
  ]
]

-- One 12-byte entry, if it is to be consumed.
entry_at : TiffReader → List ℕ → ℕ → Option (ℕ × Entry)
unfolding u16 u32 entry_of
entry_at r want base = elim (u16 r base) [
  | none ↦ none
  | some tag ↦ elim (u16 r (base + 2)) [
    | none ↦ none
    | some typ ↦ elim (u32 r (base + 4)) [
      | none ↦ none
      | some cnt ↦ entry_of r want base tag typ cnt
    ]
  ]
]

-- `out[tag] = e`.
put_entry : ℕ × Entry → List (ℕ × Entry) → List (ℕ × Entry)
put_entry te [] = te ∷ []
put_entry te (other ∷ out) =
    let rest = put_entry te out in if other.0 == te.0 then te ∷ out else other ∷ rest

abbrev put_some : Option (ℕ × Entry) → List (ℕ × Entry) → List (ℕ × Entry)
put_some none out = out
put_some (some te) out = put_entry te out

entries_from : TiffReader → List ℕ → ℕ → ℕ → List (ℕ × Entry) → List (ℕ × Entry)
unfolding entry_at put_entry
entries_from r want zero base out = out
entries_from r want (suc n) base out =
    entries_from r want n (base + 12) (put_some (entry_at r want base) out)

abbrev pub max_entries : ℕ
max_entries = 512

unfoldable pub walk_ifd : TiffReader → ℕ → List ℕ → List (ℕ × Entry)
unfolding u16 entries_from
walk_ifd r off want = elim (u16 r off) [
  | none ↦ []
  | some count ↦ entries_from r want (min count max_entries) (off + 2) []
]

-- `pointerValue` and `uintValue`.
unfoldable pub pointer_value : ByteOrder → Entry → Option ℕ
pointer_value bo e =
    if not (e.typ == 4) || ltb e.cnt 1 || ltb (length e.val) 4
    then none
    else some (uint bo (take 4 e.val))

unfoldable pub uint_value : ByteOrder → Entry → Option ℕ
uint_value bo e =
    if e.typ == 3 && leb 2 (length e.val)
    then some (uint bo (take 2 e.val))
    else if e.typ == 4 && leb 4 (length e.val)
    then some (uint bo (take 4 e.val))
    else none

module _ {F : Type 0} ⦃fl : Float F⦄ where
  open fl use {of_ℕ, add, div}

  unfoldable pub rational : ByteOrder → List ℕ → ℕ → Option F
  rational bo val i =
      let off = i * 8 in
      let num = uint bo (take 4 (drop off val)) in
      let den = uint bo (take 4 (drop (off + 4) val)) in
      if ltb (length val) (off + 8) || den == 0 then none else some (div (of_ℕ num) (of_ℕ den))

  abbrev degrees : Option F → Option F → Option F → Option F
  degrees (some d) (some m) (some s) = some (add (add d (div m (of_ℕ 60))) (div s (of_ℕ 3600)))
  degrees _ _ _ = none

  unfoldable pub dms : ByteOrder → Entry → Option F
  unfolding rational
  dms bo e =
      if not (e.typ == 5) || ltb e.cnt 3
      then none
      else degrees (rational bo e.val 0) (rational bo e.val 1) (rational bo e.val 2)
