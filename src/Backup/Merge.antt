-- ===== src/Backup/Merge.antt =====
-- About what `Restore` leaves alone, whatever the archive is.
pub mod Rows
use roadbook.Prelude.{
  ℕ, ◌≡◌, refl, sym, ◌∙◌, subst, inl, inr, Bool, true, false, List, [], ◌∷◌, ◌++◌, Option, none,
  some, Bool-cases, if◌then◌else◌,
}
use roadbook.Floats.{Float}
use roadbook.Photo.Bytes.{same_bytes}
use roadbook.Photo.Bytes.Cuts.{same_bytes→eq}
use roadbook.Store.Tables.{Text, Row, owned_by}
use roadbook.Store.Keyed.{or_row, if_eq_else, lookup}
use roadbook.Store.Decisions.{Action, Decision, Decisions, is_nameless}
use roadbook.Store.Photos.{photo_key, PhotoRow, Photos}
use roadbook.Store.Backup.{
  Saved, saved, unsaved, stored_photo, Files, write_thumb, stored_decision, find_anchor,
  restore_decision, decision_restored, photo_restored, restore_photo, has_decision_id,
}
use roadbook.Backup.{
  ltb, Codec, format_version, manifest_json, decisions_json, photos_json, Manifest,
  ArchivedDecision, ArchivedPhoto, Entry,
}
use roadbook.Backup.Restore.{
  is_thumb_name, decision_row, parse_action, identity_key, anchor_key, insert_archived, photo_row,
  restore_decisions, decision_done, attach_photo, photo_done, put_photo, Restoring, Flow, panicked,
  stopped, going, and_then, End, eof, broken, Identity, archived_key, start, restore, put_file,
  put_saved, put_new_thumb, put_known, read_thumb, thumb_existing, thumb_hash, read_manifest,
  read_decisions, read_photos, read_entry, read_entries, restore_rest, put_old_photo, read_end,
  has_text,
}
use roadbook.Backup.Merge.Rows.{
  IsLonger, IsMerged, OnFlow, and_then-OnFlow, if-OnFlow, Kept, restore_decisions-Kept,
  put_photo-Kept, same-Kept, new_file-Kept, or_row_itself, as_is,
}

module _ {F : Type 0} ⦃fl : Float F⦄ (c : Codec F) (user : Text) (db : Decisions F)
    (table : Photos F) (old : Files) where
  abbrev Keeps : Restoring F → Type 0
  Keeps = Kept c user db table old

  put_saved-Kept :
      (hash : Text) (jpeg : List ℕ) (p : ArchivedPhoto F) (s : Restoring F) (end : Saved)
      → s.files hash ≡ none
      → Keeps s
      → OnFlow Keeps (put_saved c user hash jpeg p s end)
  put_saved-Kept hash jpeg p s saved free kept = put_photo-Kept c user db table old _ p (record {
    decisions = kept.decisions;
    photos = kept.photos;
    files = λ h. new_file-Kept c user db table old s hash jpeg saved h (old h) free (kept.files h);
  })
  put_saved-Kept hash jpeg p s (unsaved left) free kept = record {
    decisions = kept.decisions;
    photos = kept.photos;
    files = λ h.
        new_file-Kept c user db table old s hash jpeg (unsaved left) h (old h) free (kept.files h);
  }

  put_new_thumb-Kept :
      (hash : Text) (p : ArchivedPhoto F) (s : Restoring F) (o : Option (List ℕ))
      → s.files hash ≡ none
      → Keeps s
      → OnFlow Keeps (put_new_thumb c user hash p s o)
  put_new_thumb-Kept hash p s none free kept = kept
  put_new_thumb-Kept hash p s (some jpeg) free kept =
      put_saved-Kept hash jpeg p s (c.save hash jpeg) free kept

  put_file-Kept :
      (hash : Text) (p : ArchivedPhoto F) (content : c.Content) (s : Restoring F)
      (o : Option (List ℕ))
      → s.files hash ≡ o
      → Keeps s
      → OnFlow Keeps (put_file c user hash p content s o)
  put_file-Kept hash p content s none free kept =
      put_new_thumb-Kept hash p s (c.read_bytes content) free kept
  put_file-Kept hash p content s (some jpeg) there kept =
      put_photo-Kept c user db table old _ p
        (same-Kept c user db table old s (thumb_existing c user s) refl refl refl kept)

  put_known-Kept :
      (hash : Text) (content : c.Content) (s : Restoring F) (o : Option (ArchivedPhoto F))
      → Keeps s
      → OnFlow Keeps (put_known c user hash content s o)
  put_known-Kept hash content s none kept = kept
  put_known-Kept hash content s (some p) kept =
      let marked : Restoring F = record s { thumb_in_archive = hash ∷ s.thumb_in_archive } in
      put_file-Kept hash p content marked (s.files hash) refl
        (same-Kept c user db table old s marked refl refl refl kept)

  read_thumb-Kept :
      (content : c.Content) (s : Restoring F) (o : Option Text)
      → Keeps s
      → OnFlow Keeps (read_thumb c user content s o)
  read_thumb-Kept content s none kept = tt
  read_thumb-Kept content s (some hash) kept =
      put_known-Kept hash content s (lookup archived_key hash s.photo_by_hash) kept

  read_manifest-Kept :
      (s : Restoring F) (o : Option Manifest) → Keeps s → OnFlow Keeps (read_manifest c user s o)
  read_manifest-Kept s none kept = kept
  read_manifest-Kept s (some m) kept =
      if-OnFlow Keeps (ltb format_version m.format_version) (stopped _) (going _)
        (same-Kept c user db table old s _ refl refl refl kept)
        (same-Kept c user db table old s _ refl refl refl kept)

  read_decisions-Kept :
      (s : Restoring F) (o : Option (List (ArchivedDecision F)))
      → Keeps s
      → OnFlow Keeps (read_decisions c user s o)
  read_decisions-Kept s none kept = kept
  read_decisions-Kept s (some decs) kept = restore_decisions-Kept c user db table old decs s kept

  read_photos-Kept :
      (s : Restoring F) (o : Option (List (ArchivedPhoto F)))
      → Keeps s
      → OnFlow Keeps (read_photos c user s o)
  read_photos-Kept s none kept = kept
  read_photos-Kept s (some photos) kept = same-Kept c user db table old s _ refl refl refl kept

  read_entry-Kept :
      (e : Entry c.Content) (s : Restoring F) → Keeps s → OnFlow Keeps (read_entry c user e s)
  unfolding read_entry
  read_entry-Kept e s kept =
      if-OnFlow Keeps (same_bytes e.name manifest_json) _ _
        (read_manifest-Kept s (c.read_manifest e.content) kept)
        (if-OnFlow Keeps (same_bytes e.name decisions_json) _ _
          (if-OnFlow Keeps s.have_manifest _ (stopped s)
            (read_decisions-Kept s (c.read_decisions e.content) kept) kept)
          (if-OnFlow Keeps (same_bytes e.name photos_json) _ _
            (read_photos-Kept s (c.read_photos e.content) kept)
            (if-OnFlow Keeps (is_thumb_name e.name) _ (going s)
              (read_thumb-Kept e.content s (thumb_hash e.name) kept) kept)))

  read_entries-Kept :
      (entries : List (Entry c.Content)) (s : Restoring F)
      → Keeps s
      → OnFlow Keeps (read_entries c user entries s)
  unfolding read_entries
  read_entries-Kept [] s kept = kept
  read_entries-Kept (e ∷ entries) s kept =
      and_then-OnFlow Keeps (read_entries c user entries) (read_entry c user e s)
        (read_entry-Kept e s kept) (read_entries-Kept entries)

  put_old_photo-Kept :
      (p : ArchivedPhoto F) (s : Restoring F) (o : Option (List ℕ))
      → Keeps s
      → OnFlow Keeps (put_old_photo c user p s o)
  put_old_photo-Kept p s none kept = same-Kept c user db table old s _ refl refl refl kept
  put_old_photo-Kept p s (some jpeg) kept =
      put_photo-Kept c user db table old _ p
        (same-Kept c user db table old s (thumb_existing c user s) refl refl refl kept)

  restore_rest-Kept :
      (photos : List (ArchivedPhoto F)) (s : Restoring F)
      → Keeps s
      → OnFlow Keeps (restore_rest c user photos s)
  unfolding restore_rest
  restore_rest-Kept [] s kept = kept
  restore_rest-Kept (p ∷ photos) s kept =
      and_then-OnFlow Keeps (restore_rest c user photos) _
        (if-OnFlow Keeps (has_text p.content_hash s.thumb_in_archive) (going s) _ kept
          (put_old_photo-Kept p s (s.files p.content_hash) kept))
        (restore_rest-Kept photos)

  read_end-Kept : (end : End) (s : Restoring F) → Keeps s → OnFlow Keeps (read_end c user end s)
  read_end-Kept broken s kept = kept
  read_end-Kept eof s kept =
      if-OnFlow Keeps s.have_manifest _ (stopped s) (restore_rest-Kept s.photos s kept) kept

  start-Kept : Keeps (start c user db table old)
  start-Kept = record { decisions = as_is; photos = as_is; files = λ h. or_row_itself (old h) }

  -- Whatever the archive is and however the restore ends short of a panic, the rows that were there stay
  -- in front as they were, the rows behind them are the user's, and a thumbnail that was there is still
  -- the same.
  pub restore-IsMerged :
      (archive : Option (List (Entry c.Content) × End))
      → OnFlow (IsMerged user db table old) (restore c user archive db table old)
  unfolding restore
  restore-IsMerged none = start-Kept
  restore-IsMerged (some (entries, end)) =
      and_then-OnFlow Keeps (read_end c user end)
        (read_entries c user entries (start c user db table old))
        (read_entries-Kept entries (start c user db table old) start-Kept) (read_end-Kept end)
