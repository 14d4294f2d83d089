-- ===== src/Backup/RoundTrip/Keys.antt =====
-- About one key of what `Restore` has put: a file, a name, a row of the table, an archived photo.
use roadbook.Prelude.{
  ◌≡◌, refl, sym, ap, ◌∙◌, subst, inl, inr, Bool, true, false, List, [], ◌∷◌, Option, none, some,
  Bool-cases, All, ◌||◌, if◌then◌else◌, arith, Memᴰ,
}
use roadbook.Prelude.Sort.{sort_stable, sort_stable-Mem, sort_stable-Mem_of}
use roadbook.Photo.Bytes.{same_bytes}
use roadbook.Photo.Bytes.Cuts.{same_bytes→eq, same_bytes_refl}
use roadbook.Store.Tables.{Text, owned_by}
use roadbook.Store.Rows.{owned_by-append}
use roadbook.Store.Keyed.{
  has-Mem, lookup, has, IsDistinct, or_row, or_row-none, lookup-append, lookup_absent,
}
use roadbook.Store.Photos.{PhotoRow, Photos, photo_key}
use roadbook.Store.Backup.{Files, stored_photo}
use roadbook.Backup.{ℕ, ArchivedPhoto, Thumb, thumb_key, thumb_lt}
use roadbook.Backup.Restore.{archived_key, has_text, index_photos}
use roadbook.Backup.RoundTrip.Thumbs.{
  put_file_of, files_after, names_after, put_row, put_found, table_after,
}

-- `x` where the test holds.
abbrev pub only_if {ℓ} : {A : Type ℓ} → Bool → Option A → Option A
only_if b x = if b then x else none

pub only_if-none {ℓ} : {A : Type ℓ} (b : Bool) → only_if {A = A} b none ≡ none
only_if-none true = refl
only_if-none false = refl

or_row_assoc {ℓ} : {A : Type ℓ} (x y z : Option A) → or_row (or_row x y) z ≡ or_row x (or_row y z)
or_row_assoc none y z = refl
or_row_assoc (some x) y z = refl

or_row_same {ℓ} :
    {A : Type ℓ} (a b : Bool) (x : Option A)
    → or_row (only_if a x) (only_if b x) ≡ only_if (a || b) x
or_row_same true b none = ground arith
or_row_same true b (some x) = refl
or_row_same false b x = refl

put_one :
    (known : Text → Option (List ℕ)) (h : Text) (t : Thumb) (files : Files) (o : Option (List ℕ))
    → known t.hash ≡ some t.jpeg
    → files t.hash ≡ o
    → put_file_of t files o h ≡ or_row (files h) (only_if (same_bytes t.hash h) (known h))
put_one known h t files (some old) e at = elim (Bool-cases (same_bytes t.hash h)) [
  | inl same ↦
      (let there : files h ≡ some old =
          subst (λ k. files k ≡ some old) (same_bytes→eq t.hash h same) at in
        rw there refl)
  | inr other ↦ rw (other, or_row-none (files h)) refl
]
put_one known h t files none e at = elim (Bool-cases (same_bytes t.hash h)) [
  | inl same ↦
      (let same_key = same_bytes→eq t.hash h same in
        let gone : files h ≡ none = subst (λ k. files k ≡ none) same_key at in
        let there : known h ≡ some t.jpeg = subst (λ k. known k ≡ some t.jpeg) same_key e in
        rw (same, gone, there) refl)
  | inr other ↦ rw (other, or_row-none (files h)) refl
]

put_file-at :
    (known : Text → Option (List ℕ)) (h : Text) (t : Thumb) (files : Files)
    → known t.hash ≡ some t.jpeg
    → put_file_of t files (files t.hash) h
      ≡ or_row (files h) (only_if (same_bytes t.hash h) (known h))
put_file-at known h t files e = put_one known h t files (files t.hash) e refl

pub files_after-at :
    (known : Text → Option (List ℕ)) (h : Text) (thumbs : List Thumb) (files : Files)
    → All (λ t. known t.hash ≡ some t.jpeg) thumbs
    → files_after thumbs files h ≡ or_row (files h) (only_if (has thumb_key h thumbs) (known h))
unfolding has
files_after-at known h [] files all = sym (or_row-none (files h))
files_after-at known h (t ∷ thumbs) files (e, all) =
    files_after-at known h thumbs (put_file_of t files (files t.hash)) all
    ∙ ap (λ x. or_row x (only_if (has thumb_key h thumbs) (known h)))
        (put_file-at known h t files e)
    ∙ or_row_assoc (files h) _ _
    ∙ ap (or_row (files h)) (or_row_same (same_bytes t.hash h) (has thumb_key h thumbs) (known h))

pub names_after-has :
    (h : Text) (thumbs : List Thumb) (names : List Text)
    → has_text h (names_after thumbs names) ≡ (has thumb_key h thumbs || has_text h names)
unfolding has has_text
names_after-has h [] names = refl
names_after-has h (t ∷ thumbs) names = ground (arith, names_after-has h thumbs (t.hash ∷ names))

has_sub :
    (h : Text) (xs ys : List Thumb)
    → ((t : Thumb) → Memᴰ t xs → Memᴰ t ys)
    → has thumb_key h xs ≡ true
    → has thumb_key h ys ≡ true
unfolding has
has_sub h [] ys sub e = cc
has_sub h (x ∷ xs) ys sub e = elim (Bool-cases (same_bytes x.hash h)) [
  | inl same ↦ has-Mem thumb_key h ys (sub x (Memᴰ.head refl)) (same_bytes→eq x.hash h same)
  | inr other ↦ has_sub h xs ys (λ t m. sub t (Memᴰ.tail m)) (ground (arith, other, e))
]

both_true : (a b : Bool) → (a ≡ true → b ≡ true) → (b ≡ true → a ≡ true) → a ≡ b
both_true true b f g = sym (f refl)
both_true false true f g = g refl
both_true false false f g = refl

pub has-sort_stable :
    (h : Text) (thumbs : List Thumb)
    → has thumb_key h (sort_stable thumb_lt thumbs) ≡ has thumb_key h thumbs
has-sort_stable h thumbs =
    both_true (has thumb_key h (sort_stable thumb_lt thumbs)) (has thumb_key h thumbs)
      (has_sub h (sort_stable thumb_lt thumbs) thumbs (λ t m. sort_stable-Mem_of thumb_lt thumbs m))
      (has_sub h thumbs (sort_stable thumb_lt thumbs) (λ t m. sort_stable-Mem thumb_lt thumbs m))

module _ {F : Type 0} where
  pub index_photos-lookup :
      (h : Text) (photos by_hash : List (ArchivedPhoto F))
      → IsDistinct archived_key photos
      → lookup archived_key h (index_photos photos by_hash)
        ≡ or_row (lookup archived_key h photos) (lookup archived_key h by_hash)
  unfolding lookup index_photos IsDistinct
  index_photos-lookup h [] by_hash d = refl
  index_photos-lookup h (p ∷ photos) by_hash (fresh, d) =
      index_photos-lookup h photos (p ∷ by_hash) d
      ∙ elim (Bool-cases (same_bytes p.content_hash h)) [
        | inl same ↦
            (let gone = lookup_absent archived_key h photos (
                subst (λ k. has archived_key k photos ≡ false) (same_bytes→eq p.content_hash h same)
                  fresh) in
              rw (gone, same) refl)
        | inr other ↦ rw other refl
      ]

  -- A row but for its id.
  abbrev pub bare : Option (PhotoRow F) → Option (PhotoRow F)
  bare none = none
  bare (some p) = some (record p { id = 0 })

  abbrev pub row_at : Text → Text → Photos F → Option (PhotoRow F)
  row_at user h table = lookup photo_key h (owned_by user table.rows)

  bare-or_row : (x y : Option (PhotoRow F)) → bare (or_row x y) ≡ or_row (bare x) (bare y)
  bare-or_row none y = refl
  bare-or_row (some x) y = refl

  -- The row that is found under the hash of a thumbnail, as it is stored.
  pub data IsFound (find : Text → Option (PhotoRow F)) (t : Thumb) : Type 0 where
    is_found :
        (row : PhotoRow F)
        → find t.hash ≡ some row
        → row.content_hash ≡ t.hash
        → stored_photo row.id row ≡ row
        → IsFound find t

  put_row-at :
      (user h : Text) (row : PhotoRow F) (table : Photos F) (o : Option (PhotoRow F))
      → row_at user row.content_hash table ≡ o
      → bare (row_at user h (put_row user row table o))
        ≡ or_row
            (bare (row_at user h table))
            (only_if (same_bytes row.content_hash h) (bare (some (stored_photo 0 row))))
  unfolding lookup
  put_row-at user h row table (some old) at = elim (Bool-cases (same_bytes row.content_hash h)) [
    | inl same ↦
        (let there : row_at user h table ≡ some old =
            subst (λ k. row_at user k table ≡ some old) (same_bytes→eq row.content_hash h same)
              at in
          rw there refl)
    | inr other ↦ rw (other, or_row-none (bare (row_at user h table))) refl
  ]
  put_row-at user h row table none at =
      rw
        (
          owned_by-append user table.rows
              (record { user = user; value = stored_photo table.next row } ∷ []),
          same_bytes_refl user,
          lookup-append photo_key h (owned_by user table.rows) (stored_photo table.next row ∷ []),
          bare-or_row (row_at user h table) (lookup photo_key h (stored_photo table.next row ∷ [])),
        )
        (elim (Bool-cases (same_bytes row.content_hash h)) [
          | inl same ↦ rw same refl
          | inr other ↦ rw other refl
        ])

  put_found-at :
      (user h : Text) (find : Text → Option (PhotoRow F)) (t : Thumb) (table : Photos F)
      → IsFound find t
      → bare (row_at user h (put_found user (find t.hash) table))
        ≡ or_row (bare (row_at user h table)) (only_if (same_bytes t.hash h) (bare (find h)))
  put_found-at user h find t table (is_found row at key same) = rw at (
      put_row-at user h row table (row_at user row.content_hash table) refl
      ∙ ap (or_row (bare (row_at user h table))) (elim (Bool-cases (same_bytes t.hash h)) [
        | inl here ↦
            (let found : find h ≡ some row =
                subst (λ k. find k ≡ some row) (same_bytes→eq t.hash h here) at in
              let own : same_bytes row.content_hash h ≡ true =
                ap (λ k. same_bytes k h) key ∙ here in
              rw (own, here, found) (ap bare (ap some same)))
        | inr other ↦
            (let foreign : same_bytes row.content_hash h ≡ false =
                ap (λ k. same_bytes k h) key ∙ other in
              rw (foreign, other) refl)
      ]))

  -- What the table has of a hash after the thumbnails of an archive.
  pub table_after-at :
      (user h : Text) (find : Text → Option (PhotoRow F)) (thumbs : List Thumb) (table : Photos F)
      → All (IsFound find) thumbs
      → bare (row_at user h (table_after user find thumbs table))
        ≡ or_row (bare (row_at user h table)) (only_if (has thumb_key h thumbs) (bare (find h)))
  unfolding has
  table_after-at user h find [] table all = sym (or_row-none _)
  table_after-at user h find (t ∷ thumbs) table (found, all) =
      table_after-at user h find thumbs (put_found user (find t.hash) table) all
      ∙ ap (λ x. or_row x (only_if (has thumb_key h thumbs) (bare (find h))))
          (put_found-at user h find t table found)
      ∙ or_row_assoc (bare (row_at user h table)) _ _
      ∙ ap (or_row (bare (row_at user h table)))
          (or_row_same (same_bytes t.hash h) (has thumb_key h thumbs) (bare (find h)))
