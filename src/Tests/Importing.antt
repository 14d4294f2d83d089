-- ===== src/Tests/Importing.antt =====
-- The theorems about imports at a small database.
use roadbook.Prelude.{◌≡◌, refl, [], ◌∷◌, Option, none, some}
use roadbook.Prelude.Int.{ℤ}
use roadbook.Photo.Bytes.{same_bytes}
use roadbook.Domain.{Observations}
use roadbook.Store.Tables.{Text}
use roadbook.Store.Imports.{Canon, Tables, ImportResult, begin_import, import_observations}
use roadbook.Store.Imports.Again.{import_observations-import_observations}
use roadbook.Tests.Samples.{hour, away, visit}

abbrev owner : Text
owner = 1 ∷ []

-- A visit and a path point.
abbrev observations : Observations ℤ
observations = record {
  visits = visit 1 2 away "HOME" ∷ [];
  activities = [];
  points = record { time = hour 2; loc = none } ∷ [];
  raw_positions = [];
}

-- Texts of one byte.
abbrev canon : Canon ℤ
canon = record { time = λ t. 116 ∷ []; float = λ x. []; bytes = λ s. []; sha256 = λ bytes. bytes }

abbrev no_tables : Tables ℤ
no_tables = record {
  imports = [];
  next_import = 1;
  visits = [];
  activities = [];
  points = [];
  raw_positions = [];
}

abbrev begun : Tables ℤ
begun = (begin_import owner [] none none (hour 1) no_tables).0

abbrev begun_again : Tables ℤ → Tables ℤ
begun_again db = (begin_import owner [] none none (hour 2) db).0

abbrev behind : Option (Tables ℤ × ImportResult) → Tables ℤ × ImportResult
behind (some out) = out
behind none = (no_tables, record { import_id = 0; parsed = 0; inserted = 0 })

abbrev first : Tables ℤ × ImportResult
first = behind (import_observations canon owner 1 [] observations 0 begun)

abbrev second : Tables ℤ × ImportResult
second = behind (import_observations canon owner 2 [] observations 0 (begun_again first.0))

imports_once : import_observations canon owner 1 [] observations 0 begun ≡ some (first.0, first.1)
unfolding import_observations begin_import same_bytes
imports_once = refl

imports_twice :
    import_observations canon owner 2 [] observations 0
      (record first.0 { imports = (begun_again first.0).imports; next_import = 3 })
    ≡ some (second.0, second.1)
unfolding import_observations begin_import same_bytes
imports_twice = refl

-- An import that is closed is refused.
third_refused : import_observations canon owner 2 [] observations 0 second.0 ≡ none
unfolding import_observations begin_import same_bytes
third_refused = refl

import_observations-import_observations_example :
    (second.1.inserted ≡ 0)
    × (second.0.visits ≡ first.0.visits)
    × (second.0.activities ≡ first.0.activities)
    × (second.0.points ≡ first.0.points)
    × (second.0.raw_positions ≡ first.0.raw_positions)
import_observations-import_observations_example =
    import_observations-import_observations canon owner observations 1 2 [] [] 0 0 begun first.0
      second.0 first.1 second.1 (begun_again first.0).imports 3 imports_once imports_twice
