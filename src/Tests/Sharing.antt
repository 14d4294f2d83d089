-- ===== src/Tests/Sharing.antt =====
-- The theorems about decisions and share links at a small database.
use roadbook.Prelude.{map, ◌++◌, ℕ, ◌≡◌, refl, false, List, [], ◌∷◌, Option, none, some}
use roadbook.Prelude.Int.{ℤ, pos, ◌+ℤ◌, ◌*ℤ◌}
use roadbook.Prelude.Sort.{sort_stable}
use roadbook.Photo.Bytes.{same_bytes}
use roadbook.Floats.Whole.{whole}
use roadbook.Geo.{haversine_m}
use roadbook.Auth.{hex_encode}
use roadbook.Detect.Match.{ranks_before, match_decisions}
use roadbook.Detect.Candidates.{Candidate}
use roadbook.Store.Tables.{Text}
use roadbook.Store.Keyed.{lookup}
use roadbook.Store.Runs.{Runs}
use roadbook.Store.Decisions.{dismissed, decide_bulk, BulkDecision, confirmed, Decisions}
use roadbook.Store.Decisions.Kept.{IsKept, fresh_ids, decide_bulk-IsKept}
use roadbook.Store.Photos.{PhotoRow, PhotoRecord}
use roadbook.Api.Shares.{
  Db, ok, not_found, get_shared_photo_thumbnail, get_shared_import_photo_thumbnail,
}
use roadbook.Api.Shares.Opened.{
  IsOpened, IsOpenedRecord, get_shared_photo_thumbnail-IsOpened,
  get_shared_import_photo_thumbnail-IsOpenedRecord,
}
use roadbook.Api.Matching.{matched_decision}
use roadbook.Api.Decide.{Item, no_name, BulkResponse, bad_request, decided, decide_candidates_bulk}
use roadbook.Api.Decide.Batches.{IsDecided, decide_candidates_bulk-IsDecided}
use roadbook.Tests.Samples.{hour, away, match_params}

abbrev owner : Text
owner = 1 ∷ []

abbrev found : Candidate ℤ
found = record {
  start = hour 10;
  end = hour 50;
  days = pos 2;
  dest_km = pos 300;
  track_km = pos 700;
  stops = 2;
  dest = away;
  modes = [];
  repeat = 1;
  obs_count = 20;
  start_truncated = false;
  end_truncated = false;
  score = pos 1;
  score_breakdown = [];
}

abbrev runs : Runs ℤ
runs = record {
  runs = record { user = owner; value = record { id = 4; outliers_dropped = 0 } } ∷ [];
  candidates =
      record { user = owner; value = record { id = 11; run_id = 4; candidate = found } } ∷ [];
  next_run = 5;
  next_candidate = 12;
}

abbrev decisions : Decisions ℤ
decisions = record {
  rows =
      record {
        user = owner;
        value = record {
          id = 21;
          action = confirmed;
          name = some (8 ∷ []);
          anchor_start = hour 12;
          anchor_end = hour 80;
          anchor_dest = away;
          created_at = hour 100;
          updated_at = hour 100;
        };
      }
      ∷ [];
  next = 22;
}

abbrev photo : ℕ → ℕ → PhotoRow ℤ
photo id decision_id = record {
  id = id;
  decision_id = decision_id;
  content_hash = id ∷ [];
  original_name = [];
  taken_at = none;
  taken_offset_sec = none;
  time_source = "none";
  position = none;
  pos_source = "none";
  thumb_w = 4;
  thumb_h = 3;
  uploaded_at = hour 120;
}

abbrev imported : PhotoRecord ℤ
imported = record {
  id = 51;
  import_id = 61;
  content_hash = 51 ∷ [];
  original_name = [];
  taken_at = hour 20;
  time_source = "exif";
  position = away;
  pos_source = "exif";
  thumb_w = 4;
  thumb_h = 3;
  uploaded_at = hour 120;
}

-- One link to the adventure, of the token 7, a photo of it, and a photo of another.
abbrev db : Db ℤ
db = record {
  runs = runs;
  decisions = decisions;
  links = record {
    rows =
        record {
          id = 31;
          user_id = owner;
          decision_id = 21;
          token_hash = 48 ∷ 55 ∷ [];
          created_at = hour 110;
        }
        ∷ [];
    next = 32;
  };
  photos = record {
    rows =
        record { user = owner; value = photo 41 21 }
        ∷ record { user = owner; value = photo 42 22 }
        ∷ [];
    next = 43;
  };
  records = record { user = owner; value = imported } ∷ [];
}

abbrev sha256 : List ℕ → List ℕ
sha256 bytes = bytes

abbrev read_thumb : Text → Option (List ℕ)
read_thumb hash = some (9 ∷ hash)

opens_own :
    get_shared_photo_thumbnail sha256 match_params read_thumb (7 ∷ []) 41 db ≡ ok (9 ∷ 41 ∷ [])
unfolding get_shared_photo_thumbnail lookup same_bytes hex_encode match_decisions haversine_m ◌+ℤ◌
    ◌*ℤ◌ sort_stable ranks_before
opens_own = refl

other_absent : get_shared_photo_thumbnail sha256 match_params read_thumb (7 ∷ []) 42 db ≡ not_found
unfolding get_shared_photo_thumbnail lookup same_bytes hex_encode match_decisions haversine_m ◌+ℤ◌
    ◌*ℤ◌ sort_stable ranks_before
other_absent = refl

opens_imported :
    get_shared_import_photo_thumbnail sha256 match_params read_thumb (7 ∷ []) 51 db
    ≡ ok (9 ∷ 51 ∷ [])
unfolding get_shared_import_photo_thumbnail lookup same_bytes hex_encode match_decisions haversine_m
    ◌+ℤ◌ ◌*ℤ◌ sort_stable ranks_before
opens_imported = refl

get_shared_photo_thumbnail-IsOpened_example :
    IsOpened sha256 match_params read_thumb (7 ∷ []) 41 db (9 ∷ 41 ∷ [])
get_shared_photo_thumbnail-IsOpened_example =
    get_shared_photo_thumbnail-IsOpened sha256 match_params read_thumb (7 ∷ []) 41 db opens_own

get_shared_import_photo_thumbnail-IsOpenedRecord_example :
    IsOpenedRecord sha256 match_params read_thumb (7 ∷ []) 51 db (9 ∷ 51 ∷ [])
get_shared_import_photo_thumbnail-IsOpenedRecord_example =
    get_shared_import_photo_thumbnail-IsOpenedRecord sha256 match_params read_thumb (7 ∷ []) 51 db
      opens_imported

-- A new decision, and the old one taken again.
abbrev sweep : List (BulkDecision ℤ)
sweep =
    record {
      anchor = record { id = 12; run_id = 4; candidate = record found { start = hour 5 } };
      action = dismissed;
      name = none;
      update_id = none;
    }
    ∷ record {
      anchor = record { id = 11; run_id = 4; candidate = found };
      action = dismissed;
      name = none;
      update_id = some 21;
    }
    ∷ []

abbrev swept : Decisions ℤ
swept = elim (decide_bulk owner (hour 200) sweep decisions) [ some db' ↦ db' | none ↦ decisions ]

sweeps : decide_bulk owner (hour 200) sweep decisions ≡ some swept
unfolding decide_bulk same_bytes
sweeps = refl

abbrev as_new : BulkDecision ℤ → BulkDecision ℤ
as_new it = record it { update_id = none }

-- The same anchor twice is refused, and nothing of the batch stays.
twice_refused : decide_bulk owner (hour 200) (sweep ++ map as_new sweep) decisions ≡ none
unfolding decide_bulk same_bytes ◌+ℤ◌ ◌*ℤ◌
twice_refused = refl

decide_bulk-IsKept_example : IsKept owner (fresh_ids 22 sweep) decisions swept
decide_bulk-IsKept_example = decide_bulk-IsKept owner (hour 200) sweep decisions swept sweeps

abbrev same_text : Text → Text
same_text name = name

-- The adventure of the list, to be kept under a name.
abbrev items : List Item
items = record { id = 11; action = "confirmed"; name = some (8 ∷ []) } ∷ []

abbrev decided_once : Decisions ℤ × BulkResponse
decided_once = decide_candidates_bulk same_text match_params owner (hour 300) items runs decisions

decides :
    decide_candidates_bulk same_text match_params owner (hour 300) items runs decisions
    ≡ (decided_once.0, decided 1)
unfolding decide_candidates_bulk matched_decision same_bytes match_decisions haversine_m ◌+ℤ◌ ◌*ℤ◌
    sort_stable ranks_before
decides = refl

nameless_refused :
    decide_candidates_bulk same_text match_params owner
      (hour 300)
      (record { id = 11; action = "confirmed"; name = none } ∷ [])
      runs
      decisions
    ≡ (decisions, bad_request no_name)
unfolding decide_candidates_bulk
nameless_refused = refl

decide_candidates_bulk-IsDecided_example :
    IsDecided same_text match_params owner (hour 300) items runs decisions decided_once.0 1
decide_candidates_bulk-IsDecided_example =
    decide_candidates_bulk-IsDecided same_text match_params owner (hour 300) items runs decisions
      decided_once.0 1 decides
