-- ===== src/Store/Backup.antt =====
-- internal/store/backup.go: the reads and the merging inserts of backup and restore, and the thumbnail
-- files of photos.go, as a function from content hashes.
use roadbook.Prelude.{
  ℕ, suc, Bool, true, false, List, [], ◌∷◌, ◌++◌, Option, none, some, ◌||◌, ◌&&◌, ◌==◌,
  if◌then◌else◌,
}
use Prim.Native.String.{String}
use text.Mathlib.Text.{◌==◌ as str_eq}
use roadbook.Floats.{Float}
use roadbook.Photo.Bytes.{same_bytes}
use roadbook.Store.Tables.{Text, Row, owned_by}
use roadbook.Store.Keyed.{lookup}
use roadbook.Store.Decisions.{Decision, Decisions, same_anchor, is_nameless, stored}
use roadbook.Store.Photos.{PhotoRow, Photos, photo_key, stored_taken}

abbrev pub Files : Type 0
Files = Text → Option (List ℕ)

-- How os.WriteFile ends: the file is written, or it fails and leaves a file, perhaps of a part, or none.
pub data Saved : Type 0 where
  saved : Saved
  unsaved : Option (List ℕ) → Saved

abbrev pub file_left : List ℕ → Saved → Option (List ℕ)
file_left jpeg saved = some jpeg
file_left jpeg (unsaved left) = left

-- The files after `WriteThumb`; `ReadThumb` is the function itself.
abbrev pub write_thumb : Text → List ℕ → Saved → Files → Files
write_thumb hash jpeg end files h = if same_bytes hash h then file_left jpeg end else files h

abbrev is_one_of : String → List String → Bool
is_one_of s [] = false
is_one_of s (t ∷ texts) = str_eq s t || is_one_of s texts

-- `CHECK (time_source IN …)` and `CHECK (pos_source IN …)`.
unfoldable pub has_sources : String → String → Bool
has_sources time_source pos_source =
    is_one_of time_source ("gps" ∷ "exif_offset" ∷ "sidecar" ∷ "exif_local" ∷ "none" ∷ [])
    && is_one_of pos_source ("exif" ∷ "sidecar" ∷ "none" ∷ [])

module _ {F : Type 0} where
  unfoldable pub list_all_photos : Text → Photos F → List (PhotoRow F)
  list_all_photos user db = owned_by user db.rows

  -- Whether there is a decision of the id, whosever: the foreign key.
  unfoldable pub has_decision_id : ℕ → List (Row (Decision F)) → Bool
  has_decision_id id [] = false
  has_decision_id id (r ∷ rows) = r.value.id == id || has_decision_id id rows

  -- A row as it is stored under an id.
  abbrev pub stored_decision : ℕ → Decision F → Decision F
  stored_decision id d = record {
    id = id;
    action = d.action;
    name = d.name;
    anchor_start = stored d.anchor_start;
    anchor_end = stored d.anchor_end;
    anchor_dest = d.anchor_dest;
    created_at = stored d.created_at;
    updated_at = stored d.updated_at;
  }

  abbrev pub stored_photo : ℕ → PhotoRow F → PhotoRow F
  stored_photo id p = record p {
    id = id;
    taken_at = stored_taken p.taken_at p.taken_offset_sec;
    uploaded_at = stored p.uploaded_at;
  }

  abbrev pub photo_restored :
      Text
      → PhotoRow F
      → List (Row (Decision F))
      → Photos F
      → Option (PhotoRow F)
      → Option (Photos F × Bool)
  photo_restored user p decisions db (some old) = some (db, false)
  photo_restored user p decisions db none =
      if has_decision_id p.decision_id decisions
      then some (
        record {
          rows = db.rows ++ (record { user = user; value = stored_photo db.next p } ∷ []);
          next = suc db.next;
        },
        true,
      )
      else none

  -- With the test that the row is new; none if there is no such decision or the schema refuses the row.
  unfoldable pub restore_photo :
      Text → PhotoRow F → List (Row (Decision F)) → Photos F → Option (Photos F × Bool)
  unfolding lookup has_decision_id has_sources
  restore_photo user p decisions db =
      if has_sources p.time_source p.pos_source
      then photo_restored user p decisions db
          (lookup photo_key p.content_hash (owned_by user db.rows))
      else none

module _ {F : Type 0} ⦃fl : Float F⦄ where
  -- The id of the row with the anchor.
  unfoldable pub find_anchor : Decision F → List (Decision F) → Option ℕ
  unfolding same_anchor
  find_anchor d [] = none
  find_anchor d (x ∷ xs) =
      let rest = find_anchor d xs in if same_anchor x d then some x.id else rest

  abbrev pub decision_restored :
      Text → Decision F → Decisions F → Option ℕ → Option (Decisions F × ℕ × Bool)
  decision_restored user d db (some id) = some (db, id, false)
  decision_restored user d db none = some (
    record {
      rows = db.rows ++ (record { user = user; value = stored_decision db.next d } ∷ []);
      next = suc db.next;
    },
    db.next,
    true,
  )

  -- With the id of the anchor's row, and whether it is new; none if the schema refuses the row, which
  -- it looks at before the anchor.
  unfoldable pub restore_decision :
      Text → Decision F → Decisions F → Option (Decisions F × ℕ × Bool)
  unfolding find_anchor
  restore_decision user d db =
      if is_nameless d.action d.name
      then none
      else decision_restored user d db (find_anchor d (owned_by user db.rows))
