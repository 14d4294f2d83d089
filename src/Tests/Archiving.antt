-- ===== src/Tests/Archiving.antt =====
-- The theorems about the backup archive at a small database.
use roadbook.Prelude.{
  ltb, ◌==◌, ◌%◌, ◌&&◌, suc, true, Bool, ap, sym, All, All_at, Memᴰ, ℕ, ◌≡◌, refl, List, [], ◌∷◌,
  Option, none, some, if◌then◌else◌,
}
use roadbook.Prelude.Int.{ℤ, pos, negsuc}
use roadbook.Prelude.Sort.{sort_stable}
use roadbook.Floats.Whole.{whole}
use roadbook.Photo.Bytes.{same_bytes}
use roadbook.Store.Tables.{Text}
use roadbook.Store.Keyed.{lookup, has, IsDistinct}
use roadbook.Store.Decisions.{Decision, Decisions, confirmed, list_decisions, same_anchor}
use roadbook.Store.Photos.{PhotoRow, Photos, with_id}
use roadbook.Store.Backup.{has_sources, Files, list_all_photos}
use roadbook.Backup.{
  Codec, Collected, anchor_ref, archived_photo, manifest_json, decisions_json, photos_json,
  thumb_entry, archived_decision, Manifest, ArchivedDecision, ArchivedPhoto, Entry, write, archive,
  collect, text_lt,
}
use roadbook.Backup.Restore.{restore, eof, broken, anchor_key}
use roadbook.Backup.RoundTrip.{Restores, restore-write}
use mathlib.Core.Option.{some-injective}
use roadbook.Store.Decisions.{stored}
use roadbook.Store.Backup.{saved}
use roadbook.Backup.RoundTrip.Documents.{
  Plain, IsPlainAnchor, IsPlainDecision, IsPlainPhoto, IsLossless,
}
use roadbook.Backup.RoundTrip.Filled.{IsSound}
use roadbook.Backup.RoundTrip.Rows.{is_stored}
use roadbook.Backup.Merge.{restore-IsMerged}
use roadbook.Backup.Merge.Rows.{OnFlow, IsMerged}
use roadbook.Tests.Samples.{hour, away}

abbrev owner : Text
owner = 1 ∷ []

abbrev newcomer : Text
newcomer = 2 ∷ []

abbrev decision : ℕ → ℕ → Decision ℤ
decision id from = record {
  id = id;
  action = confirmed;
  name = some (8 ∷ []);
  anchor_start = hour from;
  anchor_end = hour 80;
  anchor_dest = away;
  created_at = hour 100;
  updated_at = hour 101;
}

abbrev decisions : Decisions ℤ
decisions = record {
  rows =
      record { user = owner; value = decision 21 12 }
      ∷ record { user = owner; value = decision 22 13 }
      ∷ [];
  next = 23;
}

abbrev photo : ℕ → ℕ → PhotoRow ℤ
photo id hash = record {
  id = id;
  decision_id = 22;
  content_hash = hash ∷ [];
  original_name = 7 ∷ hash ∷ [];
  taken_at = some (record { instant = 7_000_000_000; offset = pos 3600 });
  taken_offset_sec = some (pos 3600);
  time_source = "exif_offset";
  position = some away;
  pos_source = "exif";
  thumb_w = 4;
  thumb_h = 3;
  uploaded_at = hour 102;
}

abbrev photos : Photos ℤ
photos = record {
  rows =
      record { user = owner; value = photo 31 60 }
      ∷ record { user = owner; value = photo 32 50 }
      ∷ record { user = owner; value = photo 33 40 }
      ∷ [];
  next = 34;
}

-- The file of the last photo is missing.
abbrev files : Files
files h =
    if same_bytes (60 ∷ []) h
    then some (6 ∷ 6 ∷ [])
    else (if same_bytes (50 ∷ []) h then some (5 ∷ []) else none)

abbrev no_files : Files
no_files h = none

data Content : Type 0 where
  is_manifest : Manifest → Content
  are_decisions : List (ArchivedDecision ℤ) → Content
  are_photos : List (ArchivedPhoto ℤ) → Content
  are_bytes : List ℕ → Content

abbrev manifest_in : Content → Option Manifest
manifest_in (is_manifest m) = some (record m { created_at = stored m.created_at })
manifest_in (are_decisions ds) = none
manifest_in (are_photos ps) = none
manifest_in (are_bytes bs) = none

abbrev decisions_of : Content → Option (List (ArchivedDecision ℤ))
decisions_of (is_manifest m) = none
decisions_of (are_decisions ds) = some ds
decisions_of (are_photos ps) = none
decisions_of (are_bytes bs) = none

abbrev photos_of : Content → Option (List (ArchivedPhoto ℤ))
photos_of (is_manifest m) = none
photos_of (are_decisions ds) = none
photos_of (are_photos ps) = some ps
photos_of (are_bytes bs) = none

abbrev bytes_of : Content → Option (List ℕ)
bytes_of (is_manifest m) = none
bytes_of (are_decisions ds) = none
bytes_of (are_photos ps) = none
bytes_of (are_bytes bs) = some bs

abbrev number_text : ℤ → Text
number_text (pos n) = n ∷ []
number_text (negsuc n) = 45 ∷ n ∷ []

abbrev codec : Codec ℤ
codec = record {
  Content = Content;
  write_manifest = λ m. some (is_manifest m);
  read_manifest = manifest_in;
  write_decisions = λ ds. some (are_decisions ds);
  read_decisions = decisions_of;
  write_photos = λ ps. some (are_photos ps);
  read_photos = photos_of;
  write_bytes = are_bytes;
  read_bytes = bytes_of;
  time = λ t. t.instant ∷ [];
  float = number_text;
  save = λ hash jpeg. saved;
}

abbrev is_ascii : Text → Bool
is_ascii [] = true
is_ascii (b ∷ bytes) = ltb b 128 && is_ascii bytes

abbrev whole_minutes : ℤ → Bool
whole_minutes (pos n) = n % 60 == 0
whole_minutes (negsuc n) = suc n % 60 == 0

-- ASCII, and offsets of whole minutes; every number is finite.
abbrev plain : Plain ℤ
plain = record {
  IsText = λ t. is_ascii t ≡ true;
  IsTime = λ t. whole_minutes t.offset ≡ true;
  IsNumber = λ x. Unit;
}

lossless : IsLossless plain codec
lossless = record {
  manifest = λ m {content} e. (
    record m { created_at = stored m.created_at },
    ap manifest_in (sym (some-injective (is_manifest m) content e)),
    refl,
  );
  decisions =
      λ ds {content} p e. ap decisions_of (sym (some-injective (are_decisions ds) content e));
  photos = λ ps {content} p e. ap photos_of (sym (some-injective (are_photos ps) content e));
  bytes = λ bs. refl;
  saves = λ hash jpeg. refl;
}

abbrev manifest : Manifest
manifest = record {
  format_version = 1;
  schema_version = 12;
  created_at = hour 200;
  decisions = 2;
  photos = 2;
  thumbnails = 2;
}

abbrev got : Collected ℤ
got = record {
  photos =
      archived_photo (photo 31 60) (anchor_ref (decision 22 13))
      ∷ archived_photo (photo 32 50) (anchor_ref (decision 22 13))
      ∷ [];
  thumbs =
      record { hash = 60 ∷ []; jpeg = 6 ∷ 6 ∷ [] } ∷ record { hash = 50 ∷ []; jpeg = 5 ∷ [] } ∷ [];
  warnings = (7 ∷ 40 ∷ []) ∷ [];
}

abbrev entries : List (Entry Content)
entries =
    record { name = manifest_json; content = is_manifest manifest }
    ∷ record {
      name = decisions_json;
      content =
          are_decisions
            (archived_decision (decision 21 12) ∷ archived_decision (decision 22 13) ∷ []);
    }
    ∷ record { name = photos_json; content = are_photos got.photos }
    ∷ thumb_entry codec (record { hash = 50 ∷ []; jpeg = 5 ∷ [] })
    ∷ thumb_entry codec (record { hash = 60 ∷ []; jpeg = 6 ∷ 6 ∷ [] })
    ∷ []

written :
    write codec owner 12 (hour 200) decisions photos files
    ≡ some (manifest, (7 ∷ 40 ∷ []) ∷ [], entries)
unfolding write list_decisions list_all_photos collect archive sort_stable with_id lookup has
    same_bytes text_lt
written = refl

decisions-IsPlainAnchor :
    All (λ d. IsPlainAnchor plain (anchor_ref d)) (list_decisions owner decisions)
unfolding list_decisions same_bytes
decisions-IsPlainAnchor = ((refl, refl, (tt, tt)), ((refl, refl, (tt, tt)), tt))

decision_plain : (id from : ℕ) → IsPlainDecision plain (archived_decision (decision id from))
decision_plain id from = record {
  action = refl;
  name = refl;
  created_at = refl;
  updated_at = refl;
  anchor = (refl, refl, (tt, tt));
}

photo-IsPlainPhoto :
    (id hash : ℕ)
    → ltb hash 128 ≡ true
    → (d : Decision ℤ) → Memᴰ d (list_decisions owner decisions)
    → IsPlainPhoto plain (archived_photo (photo id hash) (anchor_ref d))
photo-IsPlainPhoto id hash ascii d m = record {
  content_hash = rw ascii refl;
  original_name = rw ascii refl;
  taken_at = refl;
  position = (tt, tt);
  uploaded_at = refl;
  decision =
      All_at (λ d. IsPlainAnchor plain (anchor_ref d)) (list_decisions owner decisions)
        decisions-IsPlainAnchor m;
}

sound : IsSound codec plain (list_decisions owner decisions) (list_all_photos owner photos)
unfolding has_sources list_decisions list_all_photos same_anchor IsDistinct anchor_key same_bytes
    has
sound = record {
  rows = (is_stored refl refl, (is_stored refl refl, tt));
  apart = ((refl, tt), (tt, tt));
  keys = (refl, (refl, tt));
  hashes = (refl, (refl, (refl, tt)));
  sources = (refl, (refl, (refl, tt)));
  instants = (λ d m. (refl, refl), (λ d m. (refl, refl), (λ d m. (refl, refl), tt)));
  plain_decisions = (decision_plain 21 12, (decision_plain 22 13, tt));
  plain_photos = (
    photo-IsPlainPhoto 31 60 refl,
    (photo-IsPlainPhoto 32 50 refl, (photo-IsPlainPhoto 33 40 refl, tt)),
  );
}

abbrev no_decisions : Decisions ℤ
no_decisions = record { rows = []; next = 5 }

abbrev no_photos : Photos ℤ
no_photos = record { rows = []; next = 9 }

nobody : list_decisions newcomer no_decisions ≡ []
unfolding list_decisions
nobody = refl

no_rows : list_all_photos newcomer no_photos ≡ []
unfolding list_all_photos
no_rows = refl

restore-write_example :
    Restores codec newcomer
      (list_decisions owner decisions)
      (list_all_photos owner photos)
      files
      no_files
      (restore codec newcomer (some (entries, eof)) no_decisions no_photos no_files)
restore-write_example =
    restore-write codec plain owner newcomer 12 (hour 200) decisions photos files manifest
      ((7 ∷ 40 ∷ []) ∷ []) entries no_decisions no_photos no_files lossless sound nobody no_rows
      written

-- Restored into an instance of another user's.
restore-IsMerged_example :
    OnFlow
      (IsMerged newcomer decisions photos files)
      (restore codec newcomer (some (entries, broken)) decisions photos files)
restore-IsMerged_example =
    restore-IsMerged codec newcomer decisions photos files (some (entries, broken))
