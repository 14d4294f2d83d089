-- ===== src/Backup/Restore.antt =====
-- internal/backup/backup.go: `Restore`. What it has changed stays changed when it stops with an error,
-- so that every outcome but a panic carries the tables, the files and the report. Two documents of one
-- name in an archive are decoded afresh, and a broken tar stream is a list of entries with its end.
pub mod State
pub use roadbook.Backup.Restore.State.{
  Report, Identity, identity_key, archived_key, Restoring, Flow, and_then, End, parse_action,
  count_decision, count_photo, decision_row, photo_row, panicked, stopped, going, eof, broken,
}
unfoldable pub use roadbook.Backup.Restore.State.{thumb_hash, is_thumb_name, has_text, index_photos}
use roadbook.Prelude.{
  ℕ, suc, ◌-◌, Bool, true, false, List, [], ◌∷◌, ◌++◌, Option, none, some, ltb, leb, length, take,
  drop, if◌then◌else◌, ◌&&◌, ◌||◌,
}
use roadbook.Floats.{Float}
use roadbook.Photo.Bytes.{same_bytes}
use roadbook.Store.Tables.{Text}
use roadbook.Store.Keyed.{lookup}
use roadbook.Store.Decisions.{Action, confirmed, dismissed, Decision, Decisions}
use roadbook.Store.Photos.{PhotoRow, Photos}
use roadbook.Store.Backup.{
  Saved, saved, unsaved, Files, write_thumb, restore_decision, restore_photo,
}
use roadbook.Backup.{
  format_version, Manifest, AnchorRef, ArchivedDecision, ArchivedPhoto, Codec, Entry, action_name,
  manifest_json, decisions_json, photos_json, thumbnails_dir,
}

module _ {F : Type 0} (c : Codec F) where
  -- `key`.
  unfoldable pub anchor_key : AnchorRef F → Text
  anchor_key a =
      c.time a.span_start
      ++ (124 ∷ (c.time a.span_end ++ (124 ∷ (c.float a.dest.lat ++ (124 ∷ c.float a.dest.lon)))))

module _ {F : Type 0} ⦃fl : Float F⦄ (c : Codec F) (user : Text) where
  abbrev pub insert_archived :
      ArchivedDecision F → Option Action → Decisions F → Option (Decisions F × ℕ × Bool)
  insert_archived d none db = none
  insert_archived d (some action) db = restore_decision user (decision_row d action) db

  abbrev pub decision_done :
      Text → Restoring F → Option (Decisions F × ℕ × Bool) → Flow (Restoring F)
  decision_done key s none = stopped s
  decision_done key s (some (db, id, inserted)) = going (record s {
    id_by_anchor = record { anchor = key; id = id } ∷ s.id_by_anchor;
    rep = count_decision inserted s.rep;
    decisions = db;
  })

  -- `restoreDecisions`.
  unfoldable pub restore_decisions : List (ArchivedDecision F) → Restoring F → Flow (Restoring F)
  unfolding restore_decision anchor_key
  restore_decisions [] s = going s
  restore_decisions (d ∷ decs) s = and_then (restore_decisions decs) (
      decision_done (anchor_key c d.anchor) s
        (insert_archived d (parse_action d.action) s.decisions))

  abbrev pub photo_done : Restoring F → Option (Photos F × Bool) → Flow (Restoring F)
  photo_done s none = stopped s
  photo_done s (some (table, inserted)) =
      going (record s { rep = count_photo inserted s.rep; table = table })

  abbrev pub attach_photo : ArchivedPhoto F → Restoring F → Option Identity → Flow (Restoring F)
  attach_photo p s none = stopped s
  attach_photo p s (some i) =
      photo_done s (restore_photo user (photo_row p i.id) s.decisions.rows s.table)

  -- `restorePhoto`.
  unfoldable pub put_photo : ArchivedPhoto F → Restoring F → Flow (Restoring F)
  unfolding anchor_key lookup restore_photo
  put_photo p s = attach_photo p s (lookup identity_key (anchor_key c p.decision) s.id_by_anchor)

  abbrev pub thumb_existing : Restoring F → Restoring F
  thumb_existing s = record s { rep = record s.rep { thumbs_existing = suc s.rep.thumbs_existing } }

  -- The file is written before the row, and a failure of that ends the restore.
  abbrev pub put_saved : Text → List ℕ → ArchivedPhoto F → Restoring F → Saved → Flow (Restoring F)
  put_saved hash jpeg p s saved = put_photo p (record s {
    files = write_thumb hash jpeg saved s.files;
    rep = record s.rep { thumbs_written = suc s.rep.thumbs_written };
  })
  put_saved hash jpeg p s (unsaved left) =
      stopped (record s { files = write_thumb hash jpeg (unsaved left) s.files })

  -- None are bytes that cannot be read.
  abbrev pub put_new_thumb :
      Text → ArchivedPhoto F → Restoring F → Option (List ℕ) → Flow (Restoring F)
  put_new_thumb hash p s none = stopped s
  put_new_thumb hash p s (some jpeg) = put_saved hash jpeg p s (c.save hash jpeg)

  abbrev pub put_file :
      Text → ArchivedPhoto F → c.Content → Restoring F → Option (List ℕ) → Flow (Restoring F)
  put_file hash p content s (some jpeg) = put_photo p (thumb_existing s)
  put_file hash p content s none = put_new_thumb hash p s (c.read_bytes content)

  -- A thumbnail with no row is inert.
  abbrev pub put_known :
      Text → c.Content → Restoring F → Option (ArchivedPhoto F) → Flow (Restoring F)
  put_known hash content s none = going s
  put_known hash content s (some p) =
      put_file hash p content (record s { thumb_in_archive = hash ∷ s.thumb_in_archive })
        (s.files hash)

  abbrev pub read_thumb : c.Content → Restoring F → Option Text → Flow (Restoring F)
  read_thumb content s none = panicked
  read_thumb content s (some hash) =
      put_known hash content s (lookup archived_key hash s.photo_by_hash)

  abbrev pub read_manifest : Restoring F → Option Manifest → Flow (Restoring F)
  read_manifest s none = stopped s
  read_manifest s (some m) =
      let seen = record s { rep = record s.rep { manifest = some m } } in
      if ltb format_version m.format_version
      then stopped seen
      else going (record seen { have_manifest = true })

  abbrev pub read_decisions : Restoring F → Option (List (ArchivedDecision F)) → Flow (Restoring F)
  read_decisions s none = stopped s
  read_decisions s (some decs) = restore_decisions decs s

  abbrev pub read_photos : Restoring F → Option (List (ArchivedPhoto F)) → Flow (Restoring F)
  read_photos s none = stopped s
  read_photos s (some photos) =
      going (record s { photos = photos; photo_by_hash = index_photos photos s.photo_by_hash })

  -- One pass of the loop over the entries.
  unfoldable pub read_entry : Entry c.Content → Restoring F → Flow (Restoring F)
  unfolding restore_decisions put_photo index_photos thumb_hash is_thumb_name lookup
  read_entry e s =
      if same_bytes e.name manifest_json
      then read_manifest s (c.read_manifest e.content)
      else (if same_bytes e.name decisions_json
          then (if s.have_manifest
              then read_decisions s (c.read_decisions e.content)
              else stopped s)
          else (if same_bytes e.name photos_json
              then read_photos s (c.read_photos e.content)
              else (if is_thumb_name e.name
                  then read_thumb e.content s (thumb_hash e.name)
                  else going s)))

  unfoldable pub read_entries : List (Entry c.Content) → Restoring F → Flow (Restoring F)
  unfolding read_entry
  read_entries [] s = going s
  read_entries (e ∷ entries) s = and_then (read_entries entries) (read_entry e s)

  abbrev pub put_old_photo : ArchivedPhoto F → Restoring F → Option (List ℕ) → Flow (Restoring F)
  put_old_photo p s (some jpeg) = put_photo p (thumb_existing s)
  put_old_photo p s none = going (record s {
    rep = record s.rep { missing_thumb = s.rep.missing_thumb ++ (p.original_name ∷ []) };
  })

  -- The loop over the photos whose thumbnails the archive did not carry.
  unfoldable pub restore_rest : List (ArchivedPhoto F) → Restoring F → Flow (Restoring F)
  unfolding put_photo has_text
  restore_rest [] s = going s
  restore_rest (p ∷ photos) s = and_then (restore_rest photos) (
      if has_text p.content_hash s.thumb_in_archive
      then going s
      else put_old_photo p s (s.files p.content_hash))

  abbrev pub read_end : End → Restoring F → Flow (Restoring F)
  read_end broken s = stopped s
  read_end eof s = if s.have_manifest then restore_rest s.photos s else stopped s

  abbrev pub start : Decisions F → Photos F → Files → Restoring F
  start decisions table files = record {
    have_manifest = false;
    photos = [];
    photo_by_hash = [];
    thumb_in_archive = [];
    id_by_anchor = [];
    rep = record {
      manifest = none;
      decisions_restored = 0;
      decisions_skipped = 0;
      photos_restored = 0;
      photos_skipped = 0;
      thumbs_written = 0;
      thumbs_existing = 0;
      missing_thumb = [];
    };
    decisions = decisions;
    table = table;
    files = files;
  }

  -- `Restore`; no entries are bytes that gzip does not read.
  unfoldable pub restore :
      Option (List (Entry c.Content) × End) → Decisions F → Photos F → Files → Flow (Restoring F)
  unfolding read_entries restore_rest
  restore none decisions table files = stopped (start decisions table files)
  restore (some (entries, end)) decisions table files =
      and_then (read_end end) (read_entries entries (start decisions table files))
