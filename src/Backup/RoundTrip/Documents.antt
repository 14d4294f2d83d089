-- ===== src/Backup/RoundTrip/Documents.antt =====
-- About the documents of an archive, and the photos whose thumbnails it carries.
use roadbook.Prelude.{ℕ, ◌≡◌, refl, ap, true, List, [], ◌∷◌, ltb, map, Option, none, some, All}
use roadbook.Floats.{Float}
use roadbook.Photo.Bytes.{same_bytes}
use roadbook.Store.Tables.{Text, owned_by}
use roadbook.Store.Keyed.{if_eq_else}
use roadbook.Times.{Time}
use roadbook.Domain.{LatLng}
use roadbook.Store.Backup.{saved}
use roadbook.Store.Decisions.{Decision}
use roadbook.Backup.{
  AnchorRef, photos_json, decisions_json, manifest_json, Codec, Manifest, ArchivedDecision,
  ArchivedPhoto, Entry, archived_decision,
}
use roadbook.Backup.Restore.{
  has_text, restore_rest, read_entry, read_entries, index_photos, Restoring, read_manifest, going,
}
use roadbook.Backup.RoundTrip.Rows.{
  IsStored, AreApart, with_decisions, free_anchors, restore_decisions-fresh,
}

-- Which texts, times and floats encoding/json keeps: texts of valid UTF-8, times of RFC 3339, and finite
-- floats.
pub record Plain (F : Type 0) : Type 1 where
  pub IsText : Text → Type 0
  pub IsTime : Time → Type 0
  pub IsNumber : F → Type 0

module _ {F : Type 0} (plain : Plain F) where
  abbrev pub IsOptional : {A : Type 0} → (A → Type 0) → Option A → Type 0
  IsOptional P none = Unit
  IsOptional P (some a) = P a

  abbrev pub IsPlainPlace : LatLng F → Type 0
  IsPlainPlace l = plain.IsNumber l.lat × plain.IsNumber l.lon

  abbrev pub IsPlainAnchor : AnchorRef F → Type 0
  IsPlainAnchor a = plain.IsTime a.span_start × plain.IsTime a.span_end × IsPlainPlace a.dest

  pub record IsPlainDecision (d : ArchivedDecision F) : Type 0 where
    pub action : plain.IsText d.action
    pub name : IsOptional plain.IsText d.name
    pub created_at : plain.IsTime d.created_at
    pub updated_at : plain.IsTime d.updated_at
    pub anchor : IsPlainAnchor d.anchor

  pub record IsPlainPhoto (p : ArchivedPhoto F) : Type 0 where
    pub content_hash : plain.IsText p.content_hash
    pub original_name : plain.IsText p.original_name
    pub taken_at : IsOptional plain.IsTime p.taken_at
    pub position : IsOptional IsPlainPlace p.position
    pub uploaded_at : plain.IsTime p.uploaded_at
    pub decision : IsPlainAnchor p.decision

  -- What the archive's formats keep: of a document that is written, the version of the format, the
  -- decisions and the photos that are plain, and all bytes. The disk takes the thumbnails.
  pub record IsLossless (c : Codec F) : Type 0 where
    pub manifest :
        (m : Manifest) {content : c.Content}
        → c.write_manifest m ≡ some content
        → (read : Manifest) × (c.read_manifest content ≡ some read)
          × (read.format_version ≡ m.format_version)
    pub decisions :
        (ds : List (ArchivedDecision F)) {content : c.Content}
        → All IsPlainDecision ds
        → c.write_decisions ds ≡ some content
        → c.read_decisions content ≡ some ds
    pub photos :
        (ps : List (ArchivedPhoto F)) {content : c.Content}
        → All IsPlainPhoto ps
        → c.write_photos ps ≡ some content
        → c.read_photos content ≡ some ps
    pub bytes : (bs : List ℕ) → c.read_bytes (c.write_bytes bs) ≡ some bs
    pub saves : (hash : Text) (jpeg : List ℕ) → c.save hash jpeg ≡ saved

module _ {F : Type 0} ⦃fl : Float F⦄ (c : Codec F) (user : Text) where
  abbrev pub loaded :
      Manifest → List (Decision F) → List (ArchivedPhoto F) → Restoring F → Restoring F
  loaded m decs photos s =
      let seen : Restoring F = record s {
        have_manifest = true;
        rep = record s.rep { manifest = some m };
      } in
      record (with_decisions c user decs seen) {
        photos = photos;
        photo_by_hash = index_photos photos [];
      }

  read_manifest-going :
      (m : Manifest) (s : Restoring F)
      → m.format_version ≡ 1
      → read_manifest c user s (some m)
        ≡ going (record s { have_manifest = true; rep = record s.rep { manifest = some m } })
  read_manifest-going m s e = if_eq_else _ (ap (λ v. ltb 1 v) e)

  -- The three documents.
  pub read_documents :
      (m : Manifest) (decs : List (Decision F)) (photos : List (ArchivedPhoto F)) (s : Restoring F)
      (man ds ps : c.Content)
      → c.read_manifest man ≡ some m
      → c.read_decisions ds ≡ some (map archived_decision decs)
      → c.read_photos ps ≡ some photos
      → m.format_version ≡ 1
      → owned_by user s.decisions.rows ≡ []
      → s.photo_by_hash ≡ []
      → All IsStored decs
      → AreApart decs
      → (entries : List (Entry c.Content))
      → read_entries c user
          (record { name = manifest_json; content = man }
            ∷ record { name = decisions_json; content = ds }
            ∷ record { name = photos_json; content = ps }
            ∷ entries)
          s
        ≡ read_entries c user entries (loaded m decs photos s)
  unfolding read_entries read_entry same_bytes
  read_documents m decs photos s man ds ps em ed ep version nobody empty all apart entries =
      let seen : Restoring F = record s {
        have_manifest = true;
        rep = record s.rep { manifest = some m };
      } in
      rw
        (
          em,
          read_manifest-going m s version,
          ed,
          restore_decisions-fresh c user decs seen all apart (free_anchors decs nobody),
          ep,
          empty,
        )
        refl

  pub restore_rest-skipped :
      (photos : List (ArchivedPhoto F)) (s : Restoring F)
      → All (λ p. has_text p.content_hash s.thumb_in_archive ≡ true) photos
      → restore_rest c user photos s ≡ going s
  unfolding restore_rest
  restore_rest-skipped [] s all = refl
  restore_rest-skipped (p ∷ photos) s (e, all) = rw e (restore_rest-skipped photos s all)
