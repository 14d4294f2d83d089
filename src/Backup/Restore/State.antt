-- ===== src/Backup/Restore/State.antt =====
-- internal/backup/backup.go: the variables of `Restore`, and what it reads off an archive.
use roadbook.Prelude.{
  ℕ, suc, ◌-◌, Bool, true, false, List, [], ◌∷◌, Option, none, some, ltb, leb, length, take, drop,
  if◌then◌else◌, ◌&&◌, ◌||◌,
}
use roadbook.Photo.Bytes.{same_bytes}
use roadbook.Store.Tables.{Text}
use roadbook.Store.Decisions.{Action, confirmed, dismissed, Decision, Decisions}
use roadbook.Store.Photos.{PhotoRow, Photos}
use roadbook.Store.Backup.{Files}
use roadbook.Backup.{Manifest, ArchivedDecision, ArchivedPhoto, action_name, thumbnails_dir}

pub record Report : Type 0 where
  pub manifest : Option Manifest
  pub decisions_restored : ℕ
  pub decisions_skipped : ℕ
  pub photos_restored : ℕ
  pub photos_skipped : ℕ
  pub thumbs_written : ℕ
  pub thumbs_existing : ℕ
  pub missing_thumb : List Text

pub record Identity : Type 0 where
  pub anchor : Text
  pub id : ℕ

abbrev pub identity_key : Identity → Text
identity_key i = i.anchor

abbrev pub archived_key : {F : Type 0} → ArchivedPhoto F → Text
archived_key p = p.content_hash

-- The local variables, with the instance. The maps `idByAnchor` and `photoByHash` are lists with the
-- newest entry first.
pub record Restoring (F : Type 0) : Type 0 where
  pub have_manifest : Bool
  pub photos : List (ArchivedPhoto F)
  pub photo_by_hash : List (ArchivedPhoto F)
  pub thumb_in_archive : List Text
  pub id_by_anchor : List Identity
  pub rep : Report
  pub decisions : Decisions F
  pub table : Photos F
  pub files : Files

pub data Flow (S : Type 0) : Type 0 where
  panicked : Flow S
  stopped : S → Flow S
  going : S → Flow S

abbrev pub and_then : {S : Type 0} → (S → Flow S) → Flow S → Flow S
and_then f panicked = panicked
and_then f (stopped s) = stopped s
and_then f (going s) = f s

-- How the stream ends: `io.EOF` or another error of `tr.Next`.
pub data End : Type 0 where
  eof broken : End

-- A text that is no action is refused by the schema.
abbrev pub parse_action : Text → Option Action
parse_action t =
    if same_bytes t (action_name confirmed)
    then some confirmed
    else (if same_bytes t (action_name dismissed) then some dismissed else none)

-- `hdr.Name[len("thumbnails/") : len(hdr.Name)-len(".jpg")]`; none is the panic of a slice whose end is
-- before its start.
unfoldable pub thumb_hash : Text → Option Text
thumb_hash name =
    if leb 15 (length name) then some (take (length name - 15) (drop 11 name)) else none

unfoldable pub is_thumb_name : Text → Bool
is_thumb_name name = ltb 11 (length name) && same_bytes (take 11 name) thumbnails_dir

unfoldable pub has_text : Text → List Text → Bool
has_text h [] = false
has_text h (x ∷ xs) = same_bytes x h || has_text h xs

abbrev pub count_decision : Bool → Report → Report
count_decision true rep = record rep { decisions_restored = suc rep.decisions_restored }
count_decision false rep = record rep { decisions_skipped = suc rep.decisions_skipped }

abbrev pub count_photo : Bool → Report → Report
count_photo true rep = record rep { photos_restored = suc rep.photos_restored }
count_photo false rep = record rep { photos_skipped = suc rep.photos_skipped }

module _ {F : Type 0} where
  abbrev pub decision_row : ArchivedDecision F → Action → Decision F
  decision_row d action = record {
    id = 0;
    action = action;
    name = d.name;
    anchor_start = d.anchor.span_start;
    anchor_end = d.anchor.span_end;
    anchor_dest = d.anchor.dest;
    created_at = d.created_at;
    updated_at = d.updated_at;
  }

  abbrev pub photo_row : ArchivedPhoto F → ℕ → PhotoRow F
  photo_row p id = record {
    id = 0;
    decision_id = id;
    content_hash = p.content_hash;
    original_name = p.original_name;
    taken_at = p.taken_at;
    taken_offset_sec = p.taken_offset_sec;
    time_source = p.time_source;
    position = p.position;
    pos_source = p.pos_source;
    thumb_w = p.thumb_w;
    thumb_h = p.thumb_h;
    uploaded_at = p.uploaded_at;
  }

  -- The loop that fills `photoByHash`.
  unfoldable pub index_photos :
      List (ArchivedPhoto F) → List (ArchivedPhoto F) → List (ArchivedPhoto F)
  index_photos [] by_hash = by_hash
  index_photos (p ∷ photos) by_hash = index_photos photos (p ∷ by_hash)
