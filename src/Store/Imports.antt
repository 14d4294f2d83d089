-- ===== src/Store/Imports.antt =====
-- internal/store/observations.go: imports, and the tables of observations that they fill. The text forms
-- of times and floats, the bytes of a string and SHA-256 are the standard library's, and parameters. A
-- row's `content_hash` is that of the observation that it holds, so the model computes it.
pub mod Again
use Prim.Native.String.{String}
use roadbook.Prelude.{
  ℕ, suc, ◌+◌, Bool, true, false, not, List, [], ◌∷◌, ◌++◌, Option, none, some, ◌&&◌, ◌==◌, length,
  keep, if◌then◌else◌,
}
use roadbook.Times.{Time}
use roadbook.Domain.{LatLng, Visit, Activity, PathPoint, RawPosition, Observations}
use roadbook.Auth.{hex_encode}
use roadbook.Store.Tables.{Text, Row, is_of, owned_by}
use roadbook.Store.Keyed.{has}

pub data ImportStatus : Type 0 where
  running completed import_failed : ImportStatus

pub record ImportRow : Type 0 where
  pub id : ℕ
  pub source_label : Text
  pub window_start : Option Time
  pub window_end : Option Time
  pub imported_at : Time
  pub visits : ℕ
  pub activities : ℕ
  pub points : ℕ
  pub raw_positions : ℕ
  pub skipped : ℕ
  pub status : ImportStatus
  pub error : Option Text
  pub detected_format : Option Text
  pub content_hash : Option Text
  pub detect_status : Option Text
  pub inserted : Option ℕ

pub record ImportResult : Type 0 where
  pub import_id : ℕ
  pub parsed : ℕ
  pub inserted : ℕ

-- `canonTime`, `strconv.FormatFloat`, the bytes of a string, and SHA-256.
pub record Canon (F : Type 0) : Type 0 where
  pub time : Time → Text
  pub float : F → Text
  pub bytes : String → Text
  pub sha256 : List ℕ → List ℕ

pub record Tables (F : Type 0) : Type 0 where
  pub imports : List (Row ImportRow)
  pub next_import : ℕ
  pub visits : List (Row (Visit F))
  pub activities : List (Row (Activity F))
  pub points : List (Row (PathPoint F))
  pub raw_positions : List (Row (RawPosition F))

-- `strings.Join(parts, "|")`.
unfoldable pub join : List Text → Text
join [] = []
join (part ∷ []) = part
join (part ∷ next ∷ parts) = part ++ (124 ∷ join (next ∷ parts))

module _ {F : Type 0} (c : Canon F) where
  abbrev pub hash_parts : List Text → Text
  hash_parts parts = hex_encode (c.sha256 (join parts))

  abbrev pub canon_loc : Option (LatLng F) → Text
  canon_loc none = 45 ∷ []
  canon_loc (some l) = c.float l.lat ++ (44 ∷ c.float l.lon)

  unfoldable pub hash_visit : Visit F → Text
  unfolding join
  hash_visit v =
      hash_parts (
        (118 ∷ []) ∷ c.time v.start ∷ c.time v.end ∷ canon_loc v.loc ∷ c.bytes v.semantic_type ∷ [])

  unfoldable pub hash_activity : Activity F → Text
  unfolding join
  hash_activity a = hash_parts (
      (97 ∷ [])
      ∷ c.time a.start
      ∷ c.time a.end
      ∷ canon_loc a.from
      ∷ canon_loc a.to
      ∷ c.float a.distance_m
      ∷ c.bytes a.mode
      ∷ [])

  unfoldable pub hash_point : PathPoint F → Text
  unfolding join
  hash_point p = hash_parts ((112 ∷ []) ∷ c.time p.time ∷ canon_loc p.loc ∷ [])

  unfoldable pub hash_raw_position : RawPosition F → Text
  unfolding join
  hash_raw_position r =
      hash_parts (
        (114 ∷ []) ∷ c.time r.time ∷ canon_loc r.loc ∷ c.float r.accuracy_m ∷ c.bytes r.source ∷ [])

module _ {ℓ} {A : Type ℓ} (key : A → Text) (user : Text) where
  -- `ON CONFLICT (user_id, content_hash) DO NOTHING`, row by row, with the number of new rows.
  unfoldable pub insert_all : List A → List (Row A) → List (Row A) × ℕ
  insert_all [] rows = (rows, 0)
  insert_all (x ∷ xs) rows =
      let taken = has key (key x) (owned_by user rows) in
      let (more, n) =
        insert_all xs (if taken then rows else rows ++ (record { user = user; value = x } ∷ [])) in
      (more, if taken then n else suc n)

abbrev pub is_running : ImportStatus → Bool
is_running running = true
is_running completed = false
is_running import_failed = false

-- `nullif(s, '')`.
abbrev pub nullif_empty : Text → Option Text
nullif_empty [] = none
nullif_empty (b ∷ bytes) = some (b ∷ bytes)

abbrev pub is_import : Text → ℕ → Row ImportRow → Bool
is_import user id r = is_of user r && r.value.id == id

-- `UPDATE imports SET … WHERE p`.
unfoldable pub update_imports :
    (Row ImportRow → Bool) → (ImportRow → ImportRow) → List (Row ImportRow) → List (Row ImportRow)
update_imports p f [] = []
update_imports p f (r ∷ rows) =
    let rest = update_imports p f rows in (if p r then record r { value = f r.value } else r) ∷ rest

abbrev new_import : ℕ → Text → Option Time → Option Time → Option Text → Time → ImportRow
new_import id label window_start window_end content_hash now = record {
  id = id;
  source_label = label;
  window_start = window_start;
  window_end = window_end;
  imported_at = now;
  visits = 0;
  activities = 0;
  points = 0;
  raw_positions = 0;
  skipped = 0;
  status = running;
  error = none;
  detected_format = none;
  content_hash = content_hash;
  detect_status = none;
  inserted = none;
}

abbrev pub is_open : Text → ℕ → Row ImportRow → Bool
is_open user id r = is_import user id r && is_running r.value.status

module _ {F : Type 0} where
  abbrev add_import : Text → ImportRow → Tables F → Tables F × ℕ
  add_import user row db = (
    record db {
      imports = db.imports ++ (record { user = user; value = row } ∷ []);
      next_import = suc db.next_import;
    },
    row.id,
  )

  -- With the id.
  unfoldable pub begin_import :
      Text → Text → Option Time → Option Time → Time → Tables F → Tables F × ℕ
  begin_import user label window_start window_end now db =
      add_import user (new_import db.next_import label window_start window_end none now) db

  -- Of uploads.go.
  unfoldable pub begin_upload_import : Text → Text → Text → Time → Tables F → Tables F × ℕ
  begin_upload_import user label content_hash now db =
      add_import user (new_import db.next_import label none none (some content_hash) now) db

  unfoldable pub fail_import : Text → ℕ → Text → Text → Tables F → Tables F
  unfolding update_imports
  fail_import user id detected_format message db = record db {
    imports =
        update_imports (is_import user id)
          (λ r. record r {
            status = import_failed;
            error = some message;
            detected_format = nullif_empty detected_format;
          })
          db.imports;
  }

  -- `SweepRunningImports` of uploads.go: the imports of every user.
  unfoldable pub sweep_running_imports : Text → Tables F → Tables F
  unfolding update_imports
  sweep_running_imports message db = record db {
    imports =
        update_imports (λ r. is_running r.value.status)
          (λ r. record r { status = import_failed; error = some message }) db.imports;
  }

  abbrev complete : Text → ℕ → ℕ → Observations F → ImportRow → ImportRow
  complete detected_format skipped inserted obs r = record r {
    visits = length obs.visits;
    activities = length obs.activities;
    points = length obs.points;
    raw_positions = length obs.raw_positions;
    skipped = skipped;
    status = completed;
    detected_format = nullif_empty detected_format;
    inserted = some inserted;
  }

  -- None is a transaction that is rolled back, since the import is not running.
  unfoldable pub import_observations :
      Canon F → Text → ℕ → Text → Observations F → ℕ → Tables F → Option (Tables F × ImportResult)
  unfolding insert_all update_imports
  import_observations c user id detected_format obs skipped db =
      let (visits, v) = insert_all (hash_visit c) user obs.visits db.visits in
      let (activities, a) = insert_all (hash_activity c) user obs.activities db.activities in
      let (points, p) = insert_all (hash_point c) user obs.points db.points in
      let (raw_positions, r) =
        insert_all (hash_raw_position c) user obs.raw_positions db.raw_positions in
      let inserted = v + a + p + r in
      if length (keep (is_open user id) db.imports) == 1
      then some (
        record {
          imports =
              update_imports (is_open user id) (complete detected_format skipped inserted obs)
                db.imports;
          next_import = db.next_import;
          visits = visits;
          activities = activities;
          points = points;
          raw_positions = raw_positions;
        },
        record {
          import_id = id;
          parsed =
              length obs.visits
              + length obs.activities
              + length obs.points
              + length obs.raw_positions;
          inserted = inserted;
        },
      )
      else none
