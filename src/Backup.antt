-- ===== src/Backup.antt =====
-- internal/backup/backup.go: the archive of a user's decisions and photos, as `Write` makes it. The
-- archive is the list of its entries; tar, gzip and encoding/json are parameters, and the text forms of
-- times and floats too.
pub mod Restore
pub mod RoundTrip
pub mod Merge
use roadbook.Prelude.{
  ℕ, Bool, true, false, List, [], ◌∷◌, ◌++◌, map, Option, none, some, ◌||◌, ◌&&◌, ◌==◌, ltb, length,
  if◌then◌else◌,
}
use roadbook.Prelude.Sort.{sort_stable}
use Prim.Native.String.{String}
use roadbook.Prelude.Int.{ℤ}
use roadbook.Times.{Time}
use roadbook.Domain.{LatLng}
use roadbook.Store.Tables.{Text}
use roadbook.Store.Keyed.{has}
use roadbook.Store.Decisions.{Action, confirmed, dismissed, Decision, Decisions, list_decisions}
use roadbook.Store.Photos.{PhotoRow, Photos, with_id}
use roadbook.Store.Backup.{Saved, Files, list_all_photos}

abbrev pub format_version : ℕ
format_version = 1

pub record Manifest : Type 0 where
  pub format_version : ℕ
  pub schema_version : ℕ
  pub created_at : Time
  pub decisions : ℕ
  pub photos : ℕ
  pub thumbnails : ℕ

pub record AnchorRef (F : Type 0) : Type 0 where
  pub span_start : Time
  pub span_end : Time
  pub dest : LatLng F

pub record ArchivedDecision (F : Type 0) : Type 0 where
  pub action : Text
  pub name : Option Text
  pub created_at : Time
  pub updated_at : Time
  pub anchor : AnchorRef F

pub record ArchivedPhoto (F : Type 0) : Type 0 where
  pub content_hash : Text
  pub original_name : Text
  pub taken_at : Option Time
  pub taken_offset_sec : Option ℤ
  pub time_source : String
  pub position : Option (LatLng F)
  pub pos_source : String
  pub thumb_w : ℕ
  pub thumb_h : ℕ
  pub uploaded_at : Time
  pub decision : AnchorRef F

-- The contents of entries: encoding/json on the three documents, and raw bytes. `time` is RFC 3339 of
-- the UTC instant, `float` the verb %v, and `save` os.WriteFile of the file of a hash. A document that
-- json.MarshalIndent refuses has no content.
pub record Codec (F : Type 0) : Type 1 where
  pub Content : Type 0
  pub write_manifest : Manifest → Option Content
  pub read_manifest : Content → Option Manifest
  pub write_decisions : List (ArchivedDecision F) → Option Content
  pub read_decisions : Content → Option (List (ArchivedDecision F))
  pub write_photos : List (ArchivedPhoto F) → Option Content
  pub read_photos : Content → Option (List (ArchivedPhoto F))
  pub write_bytes : List ℕ → Content
  pub read_bytes : Content → Option (List ℕ)
  pub time : Time → Text
  pub float : F → Text
  pub save : Text → List ℕ → Saved

-- "confirmed" and "dismissed".
abbrev pub action_name : Action → Text
action_name confirmed = 99 ∷ 111 ∷ 110 ∷ 102 ∷ 105 ∷ 114 ∷ 109 ∷ 101 ∷ 100 ∷ []
action_name dismissed = 100 ∷ 105 ∷ 115 ∷ 109 ∷ 105 ∷ 115 ∷ 115 ∷ 101 ∷ 100 ∷ []

-- "manifest.json", "decisions.json", "photos.json", "thumbnails/" and ".jpg".
abbrev pub manifest_json : Text
manifest_json = 109 ∷ 97 ∷ 110 ∷ 105 ∷ 102 ∷ 101 ∷ 115 ∷ 116 ∷ 46 ∷ 106 ∷ 115 ∷ 111 ∷ 110 ∷ []

abbrev pub decisions_json : Text
decisions_json =
    100 ∷ 101 ∷ 99 ∷ 105 ∷ 115 ∷ 105 ∷ 111 ∷ 110 ∷ 115 ∷ 46 ∷ 106 ∷ 115 ∷ 111 ∷ 110 ∷ []

abbrev pub photos_json : Text
photos_json = 112 ∷ 104 ∷ 111 ∷ 116 ∷ 111 ∷ 115 ∷ 46 ∷ 106 ∷ 115 ∷ 111 ∷ 110 ∷ []

abbrev pub thumbnails_dir : Text
thumbnails_dir = 116 ∷ 104 ∷ 117 ∷ 109 ∷ 98 ∷ 110 ∷ 97 ∷ 105 ∷ 108 ∷ 115 ∷ 47 ∷ []

abbrev pub jpg : Text
jpg = 46 ∷ 106 ∷ 112 ∷ 103 ∷ []

-- The order of `sort.Strings`.
unfoldable pub text_lt : Text → Text → Bool
text_lt [] [] = false
text_lt [] (b ∷ more) = true
text_lt (a ∷ bytes) [] = false
text_lt (a ∷ bytes) (b ∷ more) = ltb a b || (a == b && text_lt bytes more)

-- A thumbnail by its hash.
pub record Thumb : Type 0 where
  pub hash : Text
  pub jpeg : List ℕ

abbrev pub thumb_key : Thumb → Text
thumb_key t = t.hash

abbrev pub thumb_lt : Thumb → Thumb → Bool
thumb_lt a b = text_lt a.hash b.hash

-- `thumbs[hash] = jpeg`, where the bytes of one hash are those of one file.
abbrev pub put_thumb : Thumb → List Thumb → List Thumb
put_thumb t thumbs = if has thumb_key t.hash thumbs then thumbs else t ∷ thumbs

module _ {F : Type 0} where
  abbrev pub anchor_ref : Decision F → AnchorRef F
  anchor_ref d = record {
    span_start = d.anchor_start;
    span_end = d.anchor_end;
    dest = d.anchor_dest;
  }

  abbrev pub archived_decision : Decision F → ArchivedDecision F
  archived_decision d = record {
    action = action_name d.action;
    name = d.name;
    created_at = d.created_at;
    updated_at = d.updated_at;
    anchor = anchor_ref d;
  }

  abbrev pub archived_photo : PhotoRow F → AnchorRef F → ArchivedPhoto F
  archived_photo p ref = record {
    content_hash = p.content_hash;
    original_name = p.original_name;
    taken_at = p.taken_at;
    taken_offset_sec = p.taken_offset_sec;
    time_source = p.time_source;
    position = p.position;
    pos_source = p.pos_source;
    thumb_w = p.thumb_w;
    thumb_h = p.thumb_h;
    uploaded_at = p.uploaded_at;
    decision = ref;
  }

  -- `anchorByID[id]`.
  abbrev pub anchor_by_id : List (Decision F) → ℕ → Option (Decision F)
  anchor_by_id decs id = with_id (λ d. d.id) id decs

-- What is collected: the photos, their thumbnails, and the names of photos without a file.
pub record Collected (F : Type 0) : Type 0 where
  pub photos : List (ArchivedPhoto F)
  pub thumbs : List Thumb
  pub warnings : List Text

module _ {F : Type 0} where
  abbrev pub collect_file : PhotoRow F → AnchorRef F → Option (List ℕ) → Collected F → Collected F
  collect_file p ref none c = record c { warnings = p.original_name ∷ c.warnings }
  collect_file p ref (some jpeg) c = record c {
    photos = archived_photo p ref ∷ c.photos;
    thumbs = put_thumb (record { hash = p.content_hash; jpeg = jpeg }) c.thumbs;
  }

  abbrev pub collect_photo :
      Files → PhotoRow F → Option (Decision F) → Option (Collected F) → Option (Collected F)
  collect_photo files p none c = none
  collect_photo files p (some d) none = none
  collect_photo files p (some d) (some c) =
      some (collect_file p (anchor_ref d) (files p.content_hash) c)

  -- The loop over the photos; none is a photo whose decision is not listed.
  unfoldable pub collect : List (Decision F) → Files → List (PhotoRow F) → Option (Collected F)
  unfolding with_id has
  collect decs files [] = some (record { photos = []; thumbs = []; warnings = [] })
  collect decs files (p ∷ photos) =
      collect_photo files p (anchor_by_id decs p.decision_id) (collect decs files photos)

pub record Entry (Content : Type 0) : Type 0 where
  pub name : Text
  pub content : Content

module _ {F : Type 0} (c : Codec F) where
  abbrev pub thumb_entry : Thumb → Entry c.Content
  thumb_entry t = record {
    name = thumbnails_dir ++ (t.hash ++ jpg);
    content = c.write_bytes t.jpeg;
  }

  -- `man`.
  abbrev pub manifest_of : ℕ → Time → List (Decision F) → Collected F → Manifest
  manifest_of schema now decs got = record {
    format_version = format_version;
    schema_version = schema;
    created_at = now;
    decisions = length decs;
    photos = length got.photos;
    thumbnails = length got.thumbs;
  }

  -- The entries of the three documents, in front of those of the thumbnails; none is a document that
  -- cannot be written.
  abbrev pub entries_of :
      Option c.Content
      → Option c.Content
      → Option c.Content
      → List (Entry c.Content)
      → Option (List (Entry c.Content))
  entries_of none ds ps thumbs = none
  entries_of (some m) none ps thumbs = none
  entries_of (some m) (some ds) none thumbs = none
  entries_of (some m) (some ds) (some ps) thumbs = some (
      record { name = manifest_json; content = m }
      ∷ record { name = decisions_json; content = ds }
      ∷ record { name = photos_json; content = ps }
      ∷ thumbs)

  -- The entries, in their order.
  unfoldable pub archive :
      ℕ → Time → List (Decision F) → Collected F → Option (List (Entry c.Content))
  unfolding sort_stable
  archive schema now decs got =
      entries_of (c.write_manifest (manifest_of schema now decs got))
        (c.write_decisions (map archived_decision decs)) (c.write_photos got.photos)
        (map thumb_entry (sort_stable thumb_lt got.thumbs))

  abbrev pub archived_as :
      Manifest
      → List Text
      → Option (List (Entry c.Content))
      → Option (Manifest × List Text × List (Entry c.Content))
  archived_as m warnings none = none
  archived_as m warnings (some entries) = some (m, warnings, entries)

  abbrev pub write_collected :
      ℕ
      → Time
      → List (Decision F)
      → Option (Collected F)
      → Option (Manifest × List Text × List (Entry c.Content))
  write_collected schema now decs none = none
  write_collected schema now decs (some got) =
      archived_as (manifest_of schema now decs got) got.warnings (archive schema now decs got)

  -- `Write`, with the manifest, the warnings and the archive; none is an error.
  unfoldable pub write :
      Text
      → ℕ
      → Time
      → Decisions F
      → Photos F
      → Files
      → Option (Manifest × List Text × List (Entry c.Content))
  unfolding collect list_decisions list_all_photos archive
  write user schema now decisions photos files =
      let decs = list_decisions user decisions in
      write_collected schema now decs (collect decs files (list_all_photos user photos))
