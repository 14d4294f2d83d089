-- ===== src/Api/Shares/Opened.antt =====
-- About what a share token opens.
use mathlib.Core.Option.{some-injective}
use roadbook.Prelude.{
  ℕ, ◌≡◌, refl, sym, ◌∙◌, ap, inl, inr, false, not, List, [], ◌∷◌, Memᴰ, Option, none, some, ◌||◌,
  ◌==◌, Bool-cases, arith,
}
use roadbook.Floats.{Float}
use roadbook.Times.{before, after}
use roadbook.Detect.Params.{MatchParams}
use roadbook.Store.Tables.{Text, owned_by}
use roadbook.Store.Keyed.{or_false, if_eq_then, if_eq_else}
use roadbook.Store.Photos.{PhotoRow, PhotoRecord, with_id, get_photo, get_photo_record}
use roadbook.Api.Shares.Targets.{IsShared, shared_target-IsShared}
use roadbook.Api.Shares.{
  Db, Target, Response, not_found, ok, file_of, of_decision, in_span, shared_target, thumbnail_of,
  record_thumbnail, photo_for, record_for, get_shared_photo_thumbnail,
  get_shared_import_photo_thumbnail,
}

with_id-Mem {ℓ} :
    {A : Type ℓ} (key : A → ℕ) (id : ℕ) (xs : List A) {x : A}
    → with_id key id xs ≡ some x
    → Memᴰ x xs × (key x ≡ id)
unfolding with_id
with_id-Mem key id [] e = cc
with_id-Mem key id (y ∷ xs) {x} e = elim (Bool-cases (key y == id)) [
  | inl same ↦
      (let here = sym (some-injective y x (sym (if_eq_then _ same) ∙ e)) in
        (Memᴰ.head here, ap key here ∙ ground arith))
  | inr other ↦
      (let (m, k) = with_id-Mem key id xs (sym (if_eq_else _ other) ∙ e) in (Memᴰ.tail m, k))
]

not_ok : {file : List ℕ} → not_found ≡ ok file → ⊥
not_ok e = cc

file_of-ok : (o : Option (List ℕ)) {file : List ℕ} → file_of o ≡ ok file → o ≡ some file
file_of-ok none e = cc
file_of-ok (some x) {file} e = ap some_body e
  where
    some_body : Response (List ℕ) → Option (List ℕ)
    some_body (ok y) = some y
    some_body _ = some file

module _ {F : Type 0} ⦃fl : Float F⦄ (sha256 : List ℕ → List ℕ) (p : MatchParams F) where
  -- A photo of the owner that is attached to the target's decision, with its file.
  pub IsOpened : (Text → Option (List ℕ)) → Text → ℕ → Db F → List ℕ → Type 0
  IsOpened read_thumb token id db file =
      (t : Target F) × IsShared sha256 p token db t
      × (photo : PhotoRow F) × Memᴰ photo (owned_by t.link.user_id db.photos.rows)
      × (photo.id ≡ id)
      × (photo.decision_id ≡ t.decision.id)
      × (read_thumb photo.content_hash ≡ some file)

  -- An imported photo of the owner that was taken in the target's span, with its file.
  pub IsOpenedRecord : (Text → Option (List ℕ)) → Text → ℕ → Db F → List ℕ → Type 0
  IsOpenedRecord read_thumb token id db file =
      (t : Target F) × IsShared sha256 p token db t
      × (r : PhotoRecord F) × Memᴰ r (owned_by t.link.user_id db.records)
      × (r.id ≡ id)
      × (before r.taken_at t.candidate.candidate.start ≡ false)
      × (after r.taken_at t.candidate.candidate.end ≡ false)
      × (read_thumb r.content_hash ≡ some file)

  thumbnail_of-ok :
      (read_thumb : Text → Option (List ℕ)) (token : Text) (id : ℕ) (db : Db F) (t : Target F)
      (o : Option (PhotoRow F)) {file : List ℕ}
      → IsShared sha256 p token db t
      → ((x : PhotoRow F)
          → o ≡ some x
          → Memᴰ x (owned_by t.link.user_id db.photos.rows) × (x.id ≡ id))
      → thumbnail_of sha256 p read_thumb (of_decision t.decision o) ≡ ok file
      → IsOpened read_thumb token id db file
  unfolding IsOpened
  thumbnail_of-ok read_thumb token id db t none opened inside e = cc
  thumbnail_of-ok read_thumb token id db t (some x) opened inside e =
      elim (Bool-cases (x.decision_id == t.decision.id)) [
        | inl own ↦
            (let (m, k) = inside x refl in
              let here =
                sym (ap (thumbnail_of sha256 p read_thumb) (if_eq_else _ (ap not own))) ∙ e in
              (t, opened, x, m, k, ground arith, file_of-ok (read_thumb x.content_hash) here))
        | inr other ↦
            absurd (
              not_ok
                (sym (ap (thumbnail_of sha256 p read_thumb) (if_eq_then _ (ap not other))) ∙ e))
      ]

  photo_for-ok :
      (read_thumb : Text → Option (List ℕ)) (token : Text) (id : ℕ) (db : Db F)
      (o : Option (Target F)) {file : List ℕ}
      → ((t : Target F) → o ≡ some t → IsShared sha256 p token db t)
      → photo_for sha256 p read_thumb id db o ≡ ok file
      → IsOpened read_thumb token id db file
  unfolding get_photo
  photo_for-ok read_thumb token id db none shared e = cc
  photo_for-ok read_thumb token id db (some t) shared e =
      thumbnail_of-ok read_thumb token id db t (get_photo t.link.user_id id db.photos)
        (shared t refl) (λ x. with_id-Mem (λ r. r.id) id (owned_by t.link.user_id db.photos.rows)) e

  -- A thumbnail that a share token opens is that of an own photo of the one adventure it names.
  pub get_shared_photo_thumbnail-IsOpened :
      (read_thumb : Text → Option (List ℕ)) (token : Text) (id : ℕ) (db : Db F) {file : List ℕ}
      → get_shared_photo_thumbnail sha256 p read_thumb token id db ≡ ok file
      → IsOpened read_thumb token id db file
  unfolding get_shared_photo_thumbnail
  get_shared_photo_thumbnail-IsOpened read_thumb token id db e =
      photo_for-ok read_thumb token id db (shared_target sha256 p token db)
        (λ t. shared_target-IsShared sha256 p token db) e

  record_thumbnail-ok :
      (read_thumb : Text → Option (List ℕ)) (token : Text) (id : ℕ) (db : Db F) (t : Target F)
      (o : Option (PhotoRecord F)) {file : List ℕ}
      → IsShared sha256 p token db t
      → ((x : PhotoRecord F)
          → o ≡ some x
          → Memᴰ x (owned_by t.link.user_id db.records) × (x.id ≡ id))
      → record_thumbnail sha256 p read_thumb (in_span t.candidate o) ≡ ok file
      → IsOpenedRecord read_thumb token id db file
  unfolding IsOpenedRecord
  record_thumbnail-ok read_thumb token id db t none opened inside e = cc
  record_thumbnail-ok read_thumb token id db t (some x) opened inside e =
      elim (Bool-cases (
        x.thumb_w == 0
        || before x.taken_at t.candidate.candidate.start
        || after x.taken_at t.candidate.candidate.end)) [
          | inr kept ↦
              (let (m, k) = inside x refl in
                let here =
                  sym (ap (record_thumbnail sha256 p read_thumb) (if_eq_else _ kept)) ∙ e in
                let early = before x.taken_at t.candidate.candidate.start in
                let (first, to) =
                  or_false (x.thumb_w == 0 || early) (after x.taken_at t.candidate.candidate.end)
                    kept in
                let (wide, from) = or_false (x.thumb_w == 0) early first in
                (t, opened, x, m, k, from, to, file_of-ok (read_thumb x.content_hash) here))
          | inl other ↦
              absurd
                (not_ok (sym (ap (record_thumbnail sha256 p read_thumb) (if_eq_then _ other)) ∙ e))
        ]

  record_for-ok :
      (read_thumb : Text → Option (List ℕ)) (token : Text) (id : ℕ) (db : Db F)
      (o : Option (Target F)) {file : List ℕ}
      → ((t : Target F) → o ≡ some t → IsShared sha256 p token db t)
      → record_for sha256 p read_thumb id db o ≡ ok file
      → IsOpenedRecord read_thumb token id db file
  unfolding get_photo_record
  record_for-ok read_thumb token id db none shared e = cc
  record_for-ok read_thumb token id db (some t) shared e =
      record_thumbnail-ok read_thumb token id db t (get_photo_record t.link.user_id id db.records)
        (shared t refl) (λ x. with_id-Mem (λ r. r.id) id (owned_by t.link.user_id db.records)) e

  -- An imported photo's thumbnail that a share token opens is one of the owner's, of the span.
  pub get_shared_import_photo_thumbnail-IsOpenedRecord :
      (read_thumb : Text → Option (List ℕ)) (token : Text) (id : ℕ) (db : Db F) {file : List ℕ}
      → get_shared_import_photo_thumbnail sha256 p read_thumb token id db ≡ ok file
      → IsOpenedRecord read_thumb token id db file
  unfolding get_shared_import_photo_thumbnail
  get_shared_import_photo_thumbnail-IsOpenedRecord read_thumb token id db e =
      record_for-ok read_thumb token id db (shared_target sha256 p token db)
        (λ t. shared_target-IsShared sha256 p token db) e
