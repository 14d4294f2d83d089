-- ===== src/Photo/Items/Named.antt =====
-- About `exif_item_id` (exifItemID of internal/photo/heif.go): its reads, and the item that it names.
use roadbook.Prelude.{
  ℕ, zero, suc, ◌+◌, ◌≤◌, ◌<◌, ◌≡◌, refl, inl, inr, ◌∙◌, ap, ◌||◌, List, Option, none, some, length,
  ltb, ◌==◌, Bool-cases, arith,
}
use roadbook.Detect.PyPort.Bisect.{get_elem?-lt}
use roadbook.Photo.Bytes.{cut, be_at, same_bytes, Step, stop, next, found}
use roadbook.Photo.Bytes.Cuts.{cut-IsPart, be_at-some, same_bytes→eq}
use roadbook.Photo.Items.{
  get_elem?, infe, exif_type, type_step, version_step, entry_step, item_step, by_step, items_from,
  exif_item_id,
}

-- An entry of version 2 has an id of two bytes and its type at 8, one of version 3 an id of four bytes
-- and its type at 10.
pub data IsExif (entry : List ℕ) (id : ℕ) : Type 0 where
  version_two :
      get_elem? entry 0 ≡ some 2
      → be_at entry 4 2 ≡ some id
      → cut entry 8 12 ≡ some exif_type
      → IsExif entry id
  version_three :
      get_elem? entry 0 ≡ some 3
      → be_at entry 4 4 ≡ some id
      → cut entry 10 14 ≡ some exif_type
      → IsExif entry id

module _ (iinf : List ℕ) where
  -- The number of entries and where the first begins, by the version of the list.
  pub data IsHeader : (count first : ℕ) → Type 0 where
    short_count :
        {count : ℕ} → get_elem? iinf 0 ≡ some 0 → be_at iinf 4 2 ≡ some count → IsHeader count 6
    long_count :
        {version count : ℕ}
        → get_elem? iinf 0 ≡ some version
        → 1 ≤ version
        → be_at iinf 4 4 ≡ some count
        → IsHeader count 8

  -- Where the entry of this number begins: behind the one before, by its size.
  pub data IsPlace (first : ℕ) : (n place : ℕ) → Type 0 where
    at_first : IsPlace first 0 first
    behind :
        {n place size : ℕ}
        → IsPlace first n place
        → be_at iinf place 4 ≡ some size
        → IsPlace first (suc n) (place + size)

  -- The box of an entry: its size, the type "infe", and the entry up to the end of the box.
  pub record IsEntry (place : ℕ) (entry : List ℕ) : Type 0 where
    pub size : ℕ
    pub has_size : be_at iinf place 4 ≡ some size
    pub is_infe : cut iinf (place + 4) (place + 8) ≡ some infe
    pub is_content : cut iinf (place + 8) (place + size) ≡ some entry

  -- The id of an entry of the list whose type is "Exif".
  pub record IsNamed (id : ℕ) : Type 0 where
    pub count : ℕ
    pub first : ℕ
    pub header : IsHeader count first
    pub n : ℕ
    pub place : ℕ
    pub listed : n < count
    pub at : IsPlace first n place
    pub entry : List ℕ
    pub is_entry : IsEntry place entry
    pub is_exif : IsExif entry id

  abbrev AnswerNamed : Option ℕ → Type 0
  AnswerNamed none = Unit
  AnswerNamed (some id) = IsNamed id

  abbrev pub IsAnswered : Option (Option ℕ) → Type 0
  IsAnswered o = (answer : Option ℕ) × (o ≡ some answer) × AnswerNamed answer

  module _ (count first : ℕ) (header : IsHeader count first) where
    abbrev Named : ℕ → Step ℕ → Type 0
    Named n (found id) = IsNamed id
    Named n (next j) = IsPlace first (suc n) j
    Named n stop = Unit

    abbrev IsSafe : ℕ → Option (Step ℕ) → Type 0
    IsSafe n o = (s : Step ℕ) × (o ≡ some s) × Named n s

    module _ (n place size : ℕ) (listed : n < count) (at : IsPlace first n place)
        (has_size : be_at iinf place 4 ≡ some size) where
      type_step-IsSafe :
          (entry : List ℕ) (width j : ℕ)
          → IsEntry place entry
          → 4 + width ≤ j + 4
          → ((id : ℕ)
              → be_at entry 4 width ≡ some id
              → cut entry j (j + 4) ≡ some exif_type
              → IsExif entry id)
          → IsSafe n (type_step entry width j (place + size))
      unfolding type_step
      type_step-IsSafe entry width j is_entry h exif =
          elim (Bool-cases (ltb (length entry) (j + 4))) [
            | inl e ↦ (stop, rw e refl, tt)
            | inr e ↦
                let (id, has_id) = be_at-some entry 4 width (ground arith) in
                let (typ, eq, q, l) = cut-IsPart entry j (j + 4) (ground arith) (ground arith) in
                elim (Bool-cases (same_bytes typ exif_type)) [
                  | inr f ↦ (next (place + size), rw (e, has_id, eq, f) refl, behind at has_size)
                  | inl f ↦
                      let has_type = eq ∙ ap some (same_bytes→eq typ exif_type f) in
                      (
                        found id,
                        rw (e, has_id, eq, f) refl,
                        record {
                          count = count;
                          first = first;
                          header = header;
                          n = n;
                          place = place;
                          listed = listed;
                          at = at;
                          entry = entry;
                          is_entry = is_entry;
                          is_exif = exif id has_id has_type;
                        },
                      )
                ]
          ]

      version_step-IsSafe :
          (entry : List ℕ) → IsEntry place entry → IsSafe n (version_step entry (place + size))
      unfolding version_step
      version_step-IsSafe entry is_entry = elim (Bool-cases (ltb (length entry) 4)) [
        | inl e ↦ (stop, rw e refl, tt)
        | inr e ↦
            let (ver, has_version) = get_elem?-lt entry 0 (ground arith) in
            elim (Bool-cases (ver == 2)) [
              | inl f ↦
                  let two : ver ≡ 2 = ground arith in
                  rw (e, has_version, f)
                    (type_step-IsSafe entry 2 8 is_entry (omega arith)
                      (λ id i t. version_two (has_version ∙ ap some two) i t))
              | inr f ↦ elim (Bool-cases (ver == 3)) [
                | inl g ↦
                    let three : ver ≡ 3 = ground arith in
                    rw (e, has_version, f, g)
                      (type_step-IsSafe entry 4 10 is_entry (omega arith)
                        (λ id i t. version_three (has_version ∙ ap some three) i t))
                | inr g ↦ (next (place + size), rw (e, has_version, f, g) refl, behind at has_size)
              ]
            ]
      ]

      entry_step-IsSafe : place + 8 ≤ length iinf → IsSafe n (entry_step iinf place size)
      unfolding entry_step
      entry_step-IsSafe h = elim (Bool-cases (ltb size 8 || ltb (length iinf) (place + size))) [
        | inl e ↦ (stop, rw e refl, tt)
        | inr e ↦
            let (typ, eq, _, _) = cut-IsPart iinf (place + 4) (place + 8) (omega arith) h in
            elim (Bool-cases (same_bytes typ infe)) [
              | inr f ↦ (stop, rw (e, eq, f) refl, tt)
              | inl f ↦
                  let (entry, eq', p, _) =
                    cut-IsPart iinf (place + 8) (place + size) (ground arith) (ground arith) in
                  rw (e, eq, f, eq')
                    (version_step-IsSafe entry (record {
                      size = size;
                      has_size = has_size;
                      is_infe = eq ∙ ap some (same_bytes→eq typ infe f);
                      is_content = eq';
                    }))
            ]
      ]

    item_step-IsSafe :
        (n place : ℕ) → n < count → IsPlace first n place → IsSafe n (item_step iinf place)
    unfolding item_step
    item_step-IsSafe n place listed at = elim (Bool-cases (ltb (length iinf) (place + 8))) [
      | inl e ↦ (stop, rw e refl, tt)
      | inr e ↦
          let (size, has_size) = be_at-some iinf place 4 (ground arith) in
          rw (e, has_size) (entry_step-IsSafe n place size listed at has_size (ground arith))
    ]

    by_step-IsAnswered :
        (rest : ℕ → Option (Option ℕ)) (n : ℕ) (s : Step ℕ)
        → Named n s
        → ((j : ℕ) → IsPlace first (suc n) j → IsAnswered (rest j))
        → IsAnswered (by_step rest (some s))
    by_step-IsAnswered rest n stop p h = (none, refl, tt)
    by_step-IsAnswered rest n (next j) p h = h j p
    by_step-IsAnswered rest n (found id) p h = (some id, refl, p)

    items_from-IsAnswered :
        (left n place : ℕ)
        → n + left ≡ count
        → IsPlace first n place
        → IsAnswered (items_from iinf left place)
    unfolding items_from
    items_from-IsAnswered zero n place h at = (none, refl, tt)
    items_from-IsAnswered (suc left) n place h at =
        let (s, e, p) = item_step-IsSafe n place (omega arith) at in
        rw e (
          by_step-IsAnswered (λ j. items_from iinf left j) n s p
            (λ j at'. items_from-IsAnswered left (suc n) j (omega arith) at'))

-- On any bytes the search answers without a panic, and an id that it finds is read from an entry of
-- the list, reached along the sizes of those before it and within the list's count, whose type is
-- "Exif"; the widths of the count and of the id and the place of the type are those of the versions.
pub exif_item_id-IsAnswered : (iinf : List ℕ) → IsAnswered iinf (exif_item_id iinf)
unfolding exif_item_id
exif_item_id-IsAnswered iinf = elim (Bool-cases (ltb (length iinf) 6)) [
  | inl e ↦ (none, rw e refl, tt)
  | inr e ↦
      let (version, at) = get_elem?-lt iinf 0 (ground arith) in
      elim (Bool-cases (version == 0)) [
        | inl f ↦
            let (count, at') = be_at-some iinf 4 2 (ground arith) in
            let old : version ≡ 0 = ground arith in
            rw (e, at, f, at')
              (items_from-IsAnswered iinf count 6 (short_count (at ∙ ap some old) at') count 0 6
                (omega arith) at_first)
        | inr f ↦ elim (Bool-cases (ltb (length iinf) 8)) [
          | inl g ↦ (none, rw (e, at, f, g) refl, tt)
          | inr g ↦
              let (count, at') = be_at-some iinf 4 4 (ground arith) in
              rw (e, at, f, g, at')
                (items_from-IsAnswered iinf count 8 (long_count at (ground arith) at') count 0 8
                  (omega arith) at_first)
        ]
      ]
]
