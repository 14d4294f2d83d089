-- ===== src/Store/Runs.antt =====
-- internal/store/runs.go: detection runs and their candidates. Both tables stand in the order of the
-- ids, and the candidates of a run in that of `seq`. The parameters of a run, kept as JSON, are left
-- out, and so are the columns of a candidate that Candidate has already.
use roadbook.Prelude.{
  ℕ, suc, ◌+◌, Bool, List, [], ◌∷◌, ◌++◌, Option, none, some, ◌&&◌, ◌==◌, keep, length,
}
use roadbook.Detect.Candidates.{Candidate}
use roadbook.Store.Tables.{Text, Row, owned_by}

pub record Run : Type 0 where
  pub id : ℕ
  pub outliers_dropped : ℕ

pub record CandidateRow (F : Type 0) : Type 0 where
  pub id : ℕ
  pub run_id : ℕ
  pub candidate : Candidate F

pub record Runs (F : Type 0) : Type 0 where
  pub runs : List (Row Run)
  pub candidates : List (Row (CandidateRow F))
  -- The next ids of both.
  pub next_run : ℕ
  pub next_candidate : ℕ

-- `ORDER BY id DESC LIMIT 1`.
abbrev pub last {ℓ} : {A : Type ℓ} → List A → Option A
last [] = none
last (x ∷ []) = some x
last (x ∷ y ∷ xs) = last (y ∷ xs)

abbrev pub values {ℓ} : {A : Type ℓ} → List (Row A) → List A
values [] = []
values (r ∷ rows) = r.value ∷ values rows

module _ {F : Type 0} where
  unfoldable pub candidate_rows : Text → ℕ → ℕ → List (Candidate F) → List (Row (CandidateRow F))
  candidate_rows user run next [] = []
  candidate_rows user run next (c ∷ cs) =
      record { user = user; value = record { id = next; run_id = run; candidate = c } }
      ∷ candidate_rows user run (suc next) cs

  -- With the id of the run.
  unfoldable pub save_run : Text → ℕ → List (Candidate F) → Runs F → Runs F × ℕ
  unfolding candidate_rows
  save_run user outliers_dropped found db = (
    record {
      runs =
          db.runs
          ++ (record {
            user = user;
            value = record { id = db.next_run; outliers_dropped = outliers_dropped };
          }
              ∷ []);
      candidates = db.candidates ++ candidate_rows user db.next_run db.next_candidate found;
      next_run = suc db.next_run;
      next_candidate = db.next_candidate + length found;
    },
    db.next_run,
  )

  abbrev pub of_run : ℕ → CandidateRow F → Bool
  of_run run c = c.run_id == run

  abbrev pub candidates_for_run : ℕ → Runs F → List (CandidateRow F)
  candidates_for_run run db = keep (of_run run) (values db.candidates)

  abbrev pub with_candidates : Runs F → Option Run → Option Run × List (CandidateRow F)
  with_candidates db none = (none, [])
  with_candidates db (some r) = (some r, candidates_for_run r.id db)

  unfoldable pub latest_run : Text → Runs F → Option Run × List (CandidateRow F)
  latest_run user db = with_candidates db (last (owned_by user db.runs))

  abbrev first_row : List (CandidateRow F) → Option (CandidateRow F)
  first_row [] = none
  first_row (c ∷ cs) = some c

  abbrev pub in_run : Runs F → Text → ℕ → Option Run → Option (CandidateRow F)
  in_run db user id none = none
  in_run db user id (some r) =
      first_row (keep (λ c. c.id == id && of_run r.id c) (owned_by user db.candidates))

  unfoldable pub latest_candidate : Text → ℕ → Runs F → Option (CandidateRow F)
  latest_candidate user id db = in_run db user id (last (owned_by user db.runs))
