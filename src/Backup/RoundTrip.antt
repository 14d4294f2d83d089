-- ===== src/Backup/RoundTrip.antt =====
-- About `Restore` on what `Write` made, for a user of the instance who has nothing.
mod Collecting
pub mod Rows
mod Thumbs
mod Keys
pub mod Documents
pub mod Filled
use mathlib.Core.Option.{some-injective}
use roadbook.Prelude.{
  All-map, All_of, ap₂, ℕ, ◌≡◌, refl, sym, ap, ◌∙◌, subst, inl, inr, Bool, true, false, List, [],
  ◌∷◌, ◌++◌, ◌||◌, ltb, map, Option, none, some, All, All_at, Memᴰ,
}
use roadbook.Prelude.Sort.{sort_stable, sort_stable-All}
use roadbook.Floats.{Float}
use roadbook.Times.{Time}
use roadbook.Photo.Bytes.{same_bytes}
use roadbook.Store.Tables.{Text, owned_by}
use roadbook.Store.Rows.{owned_by-append}
use roadbook.Store.Keyed.{
  lookup_key, has-Mem, or_row-none, lookup, has, IsDistinct, or_row, if_eq_else, has_absent,
  lookup-Mem, lookup_absent,
}
use roadbook.Store.Decisions.{Decision, Decisions, list_decisions, stored}
use roadbook.Store.Photos.{PhotoRow, Photos, photo_key}
use roadbook.Store.Backup.{stored_photo, Files, list_all_photos, has_decision_id}
use roadbook.Backup.{
  length, photos_json, decisions_json, manifest_json, Codec, Manifest, ArchivedDecision,
  ArchivedPhoto, Entry, Thumb, thumb_key, thumb_lt, thumb_entry, Collected, archived_decision,
  anchor_ref, anchor_by_id, archive, manifest_of, entries_of, archived_as, write_collected, write,
  collect,
}
use roadbook.Backup.Restore.{
  Report, start, photo_row, has_text, restore_rest, read_entry, read_entries, index_photos,
  Restoring, Flow, Identity, identity_key, archived_key, anchor_key, eof, read_manifest, restore,
  going,
}
use roadbook.Backup.RoundTrip.Collecting.{
  IsCollected, IsOfSome, of_some, view, with_file, collect-IsCollected,
}
use roadbook.Backup.RoundTrip.Rows.{
  archived-rows_from, rows_of, IsStored, AreApart, decision_key, identities, rows_from, IsNamed,
  is_named, identities-IsNamed, with_decisions, free_anchors, restore_decisions-fresh,
  owned_by-rows_of, has_decision_id-owned_by,
}
use roadbook.Backup.RoundTrip.Thumbs.{
  resolve, IsReady, is_ready, with_thumbs, GoesTo, goes, read_entries-thumbs,
}
use roadbook.Backup.RoundTrip.Documents.{
  Plain, IsPlainPhoto, IsLossless, loaded, read_documents, restore_rest-skipped,
}
use roadbook.Backup.RoundTrip.Filled.{
  IsSound, filled, sorted, own_rows, ready, carried, view_after, file_after,
}
use roadbook.Backup.RoundTrip.Keys.{
  only_if-none, only_if, files_after-at, names_after-has, has-sort_stable, index_photos-lookup,
  bare, row_at, table_after-at, IsFound, is_found,
}

module _ {F : Type 0} ⦃fl : Float F⦄ (c : Codec F) where
  archived_as-entries :
      (m m' : Manifest) (warnings warnings' : List Text) (entries : List (Entry c.Content))
      (o : Option (List (Entry c.Content)))
      → archived_as c m warnings o ≡ some (m', warnings', entries)
      → o ≡ some entries
  archived_as-entries m m' warnings warnings' entries none e = cc
  archived_as-entries m m' warnings warnings' entries (some made) e =
      let same = some-injective _ _ e in ap (λ w. some w.2) same

  -- The entries of an archive: the three documents were written.
  data AreEntries (thumbs entries : List (Entry c.Content)) (man ds ps : Option c.Content)
      : Type 0 where
    are_entries :
        (man' ds' ps' : c.Content)
        → man ≡ some man'
        → ds ≡ some ds'
        → ps ≡ some ps'
        → record { name = manifest_json; content = man' }
            ∷ record { name = decisions_json; content = ds' }
            ∷ record { name = photos_json; content = ps' }
            ∷ thumbs
          ≡ entries
        → AreEntries thumbs entries man ds ps

  entries_of-AreEntries :
      (thumbs entries : List (Entry c.Content)) (man ds ps : Option c.Content)
      → entries_of c man ds ps thumbs ≡ some entries
      → AreEntries thumbs entries man ds ps
  entries_of-AreEntries thumbs entries none ds ps e = cc
  entries_of-AreEntries thumbs entries (some man) none ps e = cc
  entries_of-AreEntries thumbs entries (some man) (some ds) none e = cc
  entries_of-AreEntries thumbs entries (some man) (some ds) (some ps) e =
      are_entries man ds ps refl refl refl (some-injective _ _ e)

  -- What `Write` gives: the archive of what it collected.
  data IsWritten (schema : ℕ) (now : Time) (decs : List (Decision F))
      (entries : List (Entry c.Content)) (o : Option (Collected F)) : Type 0 where
    is_written :
        (got : Collected F)
        → o ≡ some got
        → archive c schema now decs got ≡ some entries
        → IsWritten schema now decs entries o

  write_collected-IsWritten :
      (schema : ℕ) (now : Time) (decs : List (Decision F)) (m : Manifest) (warnings : List Text)
      (entries : List (Entry c.Content)) (o : Option (Collected F))
      → write_collected c schema now decs o ≡ some (m, warnings, entries)
      → IsWritten schema now decs entries o
  write_collected-IsWritten schema now decs m warnings entries none e = cc
  write_collected-IsWritten schema now decs m warnings entries (some got) e = is_written got refl (
      archived_as-entries (manifest_of c schema now decs got) m got.warnings warnings entries
        (archive c schema now decs got) e)

  -- What the owner of the archive had, the new user has: the decisions in their order, under every hash
  -- the photo with the anchor of its decision if its thumbnail was there, and the thumbnails, where the
  -- instance had none under the hash.
  pub record IsRestored (user : Text) (decs : List (Decision F)) (photos : List (PhotoRow F))
      (files old : Files) (s : Restoring F) : Type 0 where
    pub same_decisions :
        map archived_decision (list_decisions user s.decisions) ≡ map archived_decision decs
    pub same_photos :
        (h : Text)
        → view (list_decisions user s.decisions) (lookup photo_key h (list_all_photos user s.table))
          ≡ with_file (files h) (view decs (lookup photo_key h photos))
    pub same_files :
        (h : Text) → s.files h ≡ or_row (old h) (only_if (has photo_key h photos) (files h))

  -- That a restore ends without an error, in such a state.
  pub data Restores (user : Text) (decs : List (Decision F)) (photos : List (PhotoRow F))
      (files old : Files) (f : Flow (Restoring F)) : Type 0 where
    restores :
        (s : Restoring F)
        → f ≡ going s
        → IsRestored user decs photos files old s
        → Restores user decs photos files old f

  module _ (user : Text) (m : Manifest) (decs : List (Decision F)) (files : Files)
      (photos : List (PhotoRow F)) (got : Collected F) (db : Decisions F) (table : Photos F)
      (old : Files) (plain : Plain F) (sound : IsSound c plain decs photos)
      (made : IsCollected decs files photos got) (nobody : owned_by user db.rows ≡ [])
      (no_photos : owned_by user table.rows ≡ []) where
    abbrev begun : Restoring F
    begun = start c user db table old

    abbrev ended : Report → Restoring F
    ended rep =
        record (with_thumbs c user (sort_stable thumb_lt got.thumbs)
          (loaded c user m decs got.photos begun)) { rep = rep }

    ended-IsRestored : (rep : Report) → IsRestored user decs photos files old (ended rep)
    unfolding list_decisions list_all_photos
    ended-IsRestored rep = record {
      same_decisions =
          ap (map archived_decision)
            (own_rows c user plain m decs files photos got begun sound made nobody refl)
          ∙ archived-rows_from db.next decs sound.rows;
      same_photos =
          view_after c user plain m decs files photos got begun sound made nobody refl no_photos;
      same_files = λ h.
          file_after c user plain m decs files photos got begun sound made nobody refl h (files h)
            refl;
    }

    rest-Restores :
        (rep : Report)
        → Restores user decs photos files old (restore_rest c user got.photos (ended rep))
    rest-Restores rep =
        restores (ended rep)
          (restore_rest-skipped c user got.photos (ended rep)
            (carried c user plain m decs files photos got begun sound made nobody refl))
          (ended-IsRestored rep)

  -- The documents of what was collected are plain.
  photos-IsPlainPhoto :
      (plain : Plain F) (decs : List (Decision F)) (photos : List (PhotoRow F)) (files : Files)
      (got : Collected F)
      → IsSound c plain decs photos
      → IsCollected decs files photos got
      → All (IsPlainPhoto plain) got.photos
  photos-IsPlainPhoto plain decs photos files got sound made =
      made.carries (IsPlainPhoto plain) sound.plain_photos

  archive-Restores :
      (plain : Plain F) (user : Text) (schema : ℕ) (now : Time) (decs : List (Decision F))
      (photos : List (PhotoRow F)) (files : Files) (got : Collected F)
      (entries : List (Entry c.Content)) (db : Decisions F) (table : Photos F) (old : Files)
      → IsLossless plain c
      → IsSound c plain decs photos
      → IsCollected decs files photos got
      → owned_by user db.rows ≡ []
      → owned_by user table.rows ≡ []
      → archive c schema now decs got ≡ some entries
      → Restores user decs photos files old (restore c user (some (entries, eof)) db table old)
  unfolding archive restore
  archive-Restores plain user schema now decs photos files got entries db table old ll sound made
        nobody no_photos e =
      let s0 : Restoring F = start c user db table old in
      let thumbs = map (thumb_entry c) (sort_stable thumb_lt got.thumbs) in
      elim (entries_of-AreEntries thumbs entries
        (c.write_manifest (manifest_of c schema now decs got))
        (c.write_decisions (map archived_decision decs)) (c.write_photos got.photos) e) [
          | are_entries man ds ps em ed ep same ↦
              let (m, read, version) = ll.manifest (manifest_of c schema now decs got) em in
              subst
                (λ es.
                  Restores user decs photos files old
                    (restore c user (some (es, eof)) db table old))
                same
                (rw
                  (read_documents c user m decs got.photos s0 man ds ps read
                    (ll.decisions (map archived_decision decs) sound.plain_decisions ed)
                    (ll.photos got.photos
                      (photos-IsPlainPhoto plain decs photos files got sound made) ep)
                    version nobody refl sound.rows sound.apart thumbs)
                  (elim (read_entries-thumbs c user (loaded c user m decs got.photos s0)
                    (sort_stable thumb_lt got.thumbs) ll.bytes ll.saves
                    (ready c user plain m decs files photos got s0 sound made nobody refl)) [
                      | goes rep e' ↦ rw e' (
                          rest-Restores user m decs files photos got db table old plain sound made
                            nobody no_photos rep)
                    ]))
        ]

  by_written :
      (plain : Plain F) (user : Text) (schema : ℕ) (now : Time) (decs : List (Decision F))
      (photos : List (PhotoRow F)) (files : Files) (entries : List (Entry c.Content))
      (db : Decisions F) (table : Photos F) (old : Files)
      → IsLossless plain c
      → IsSound c plain decs photos
      → owned_by user db.rows ≡ []
      → owned_by user table.rows ≡ []
      → IsWritten schema now decs entries (collect decs files photos)
      → Restores user decs photos files old (restore c user (some (entries, eof)) db table old)
  by_written plain user schema now decs photos files entries db table old ll sound nobody no_photos
        (is_written got e same) =
      archive-Restores plain user schema now decs photos files got entries db table old ll sound
        (collect-IsCollected decs files photos got e) nobody no_photos same

  -- If the formats keep plain documents and the disk takes the thumbnails, and the owner's rows are as
  -- the schema keeps them and plain, with unique anchors and hashes and different texts of different
  -- anchors, then a backup of the owner that is written, restored for a user who has nothing, ends without
  -- an error: the user has the same decisions in their order, under every hash the same photo with the
  -- anchor of its decision if its thumbnail was there, and the thumbnails, but for those that the instance
  -- had already.
  pub restore-write :
      (plain : Plain F) (owner user : Text) (schema : ℕ) (now : Time) (decisions : Decisions F)
      (photos : Photos F) (files : Files) (m : Manifest) (warnings : List Text)
      (entries : List (Entry c.Content)) (db : Decisions F) (table : Photos F) (old : Files)
      → IsLossless plain c
      → IsSound c plain (list_decisions owner decisions) (list_all_photos owner photos)
      → list_decisions user db ≡ []
      → list_all_photos user table ≡ []
      → write c owner schema now decisions photos files ≡ some (m, warnings, entries)
      → Restores user
          (list_decisions owner decisions)
          (list_all_photos owner photos)
          files
          old
          (restore c user (some (entries, eof)) db table old)
  unfolding write list_decisions list_all_photos
  restore-write plain owner user schema now decisions photos files m warnings entries db table old
        ll sound nobody no_photos e =
      let decs = list_decisions owner decisions in
      let rows = list_all_photos owner photos in
      by_written plain user schema now decs rows files entries db table old ll sound nobody
        no_photos
        (write_collected-IsWritten schema now decs m warnings entries (collect decs files rows) e)
