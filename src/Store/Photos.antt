-- ===== src/Store/Photos.antt =====
-- internal/store/photos.go and the reads of photo_records.go: the tables of attached and of imported
-- photos, in the order of the ids. A content hash is unique for a user.
use roadbook.Prelude.{
  ℕ, suc, Bool, true, false, not, List, [], ◌∷◌, ◌++◌, Option, none, some, ◌&&◌, ◌==◌, keep, length,
  if◌then◌else◌,
}
use Prim.Native.String.{String}
use roadbook.Prelude.Int.{ℤ, pos}
use roadbook.Times.{Time}
use roadbook.Domain.{LatLng}
use roadbook.Store.Tables.{Text, Row, is_of, owned_by}
use roadbook.Store.Keyed.{lookup}

pub record PhotoRow (F : Type 0) : Type 0 where
  pub id : ℕ
  pub decision_id : ℕ
  pub content_hash : Text
  pub original_name : Text
  pub taken_at : Option Time
  pub taken_offset_sec : Option ℤ
  pub time_source : String
  pub position : Option (LatLng F)
  pub pos_source : String
  pub thumb_w : ℕ
  pub thumb_h : ℕ
  pub uploaded_at : Time

pub record PhotoRecord (F : Type 0) : Type 0 where
  pub id : ℕ
  pub import_id : ℕ
  pub content_hash : Text
  pub original_name : Text
  pub taken_at : Time
  pub time_source : String
  pub position : LatLng F
  pub pos_source : String
  pub thumb_w : ℕ
  pub thumb_h : ℕ
  pub uploaded_at : Time

-- The capture time as the row is read: its instant, with the offset of the column of its own.
abbrev pub stored_taken : Option Time → Option ℤ → Option Time
stored_taken none offset = none
stored_taken (some t) none = some (record { instant = t.instant; offset = pos 0 })
stored_taken (some t) (some sec) = some (record { instant = t.instant; offset = sec })

pub record Photos (F : Type 0) : Type 0 where
  pub rows : List (Row (PhotoRow F))
  pub next : ℕ

-- `WHERE id = id`, of at most one row.
unfoldable pub with_id {ℓ} : {A : Type ℓ} → (A → ℕ) → ℕ → List A → Option A
with_id key id [] = none
with_id key id (x ∷ xs) = let rest = with_id key id xs in if key x == id then some x else rest

module _ {F : Type 0} where
  abbrev pub photo_key : PhotoRow F → Text
  photo_key p = p.content_hash

  abbrev inserted :
      (ℕ → Bool)
      → Text
      → Time
      → PhotoRow F
      → Photos F
      → Option (PhotoRow F)
      → Option (Photos F × PhotoRow F × Bool)
  inserted is_decision user now p db (some old) = some (db, old, false)
  inserted is_decision user now p db none =
      let row = record p {
        id = db.next;
        taken_at = stored_taken p.taken_at p.taken_offset_sec;
        uploaded_at = now;
      } in
      if is_decision p.decision_id
      then some (
        record { rows = db.rows ++ (record { user = user; value = row } ∷ []); next = suc db.next },
        row,
        true,
      )
      else none

  -- With the row of the hash, and whether it is new; none if there is no such decision.
  unfoldable pub insert_photo :
      (ℕ → Bool) → Text → Time → PhotoRow F → Photos F → Option (Photos F × PhotoRow F × Bool)
  unfolding lookup
  insert_photo is_decision user now p db =
      inserted is_decision user now p db (lookup photo_key p.content_hash (owned_by user db.rows))

  unfoldable pub list_photos : Text → ℕ → Photos F → List (PhotoRow F)
  list_photos user decision_id db = keep (λ p. p.decision_id == decision_id) (owned_by user db.rows)

  unfoldable pub get_photo : Text → ℕ → Photos F → Option (PhotoRow F)
  unfolding with_id
  get_photo user id db = with_id (λ p. p.id) id (owned_by user db.rows)

  is_photo : Text → ℕ → Row (PhotoRow F) → Bool
  is_photo user id r = is_of user r && r.value.id == id

  -- With the test that a row went.
  unfoldable pub delete_photo : Text → ℕ → Photos F → Photos F × Bool
  unfolding is_photo
  delete_photo user id db = (
    record db { rows = keep (λ r. not (is_photo user id r)) db.rows },
    not (length (keep (is_photo user id) db.rows) == 0),
  )

  unfoldable pub get_photo_record : Text → ℕ → List (Row (PhotoRecord F)) → Option (PhotoRecord F)
  unfolding with_id
  get_photo_record user id records = with_id (λ r. r.id) id (owned_by user records)
