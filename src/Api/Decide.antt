-- ===== src/Api/Decide.antt =====
-- internal/api/server.go: `DecideCandidate` and `DecideCandidatesBulk`. strings.TrimSpace is a parameter.
pub mod Batches
use Prim.Native.String.{String}
use text.Mathlib.Text.{◌==◌ as str_eq}
use roadbook.Prelude.{
  ℕ, Bool, true, false, List, [], ◌∷◌, Option, none, some, ◌&&◌, ◌==◌, length, if◌then◌else◌,
}
use roadbook.Floats.{Float}
use roadbook.Times.{Time}
use roadbook.Auth.{is_empty}
use roadbook.Detect.Match.{is_used}
use roadbook.Detect.Params.{MatchParams}
use roadbook.Store.Tables.{Text}
use roadbook.Store.Runs.{CandidateRow, Runs, latest_candidate}
use roadbook.Store.Decisions.{
  Action, confirmed, dismissed, BulkDecision, Decisions, insert_decision, update_decision,
  decide_bulk,
}
use roadbook.Api.Matching.{matched_decision, MatchedState, matched_state_for}

pub record Item : Type 0 where
  pub id : ℕ
  pub action : String
  pub name : Option Text

pub data Problem : Type 0 where
  bad_action no_name twice : Problem

-- The action and the name that a request asks for.
pub data Asked : Type 0 where
  refused : Problem → Asked
  asked : Action → Option Text → Asked

abbrev pub valid_action : String → Option Action
valid_action action =
    if str_eq action "confirmed"
    then some confirmed
    else if str_eq action "dismissed"
    then some dismissed
    else none

abbrev pub text_or_empty : Option Text → Text
text_or_empty none = []
text_or_empty (some name) = name

module _ (trim_space : Text → Text) where
  abbrev pub asked_for : Option Text → Option Action → Asked
  asked_for name none = refused bad_action
  asked_for name (some dismissed) = asked dismissed none
  asked_for name (some confirmed) =
      let trimmed = trim_space (text_or_empty name) in
      if is_empty trimmed then refused no_name else asked confirmed (some trimmed)

  abbrev pub read_item : Item → Asked
  read_item it = asked_for it.name (valid_action it.action)

-- The items that name no candidate, and the decisions of the others.
pub data Checked (F : Type 0) : Type 0 where
  rejected : Problem → Checked F
  checked : List ℕ → List (BulkDecision F) → Checked F

module _ {F : Type 0} where
  -- `byID[id]`, where a later candidate replaces an earlier.
  abbrev newest : ℕ → CandidateRow F → Option (CandidateRow F) → Option (CandidateRow F)
  newest id c (some later) = some later
  newest id c none = if c.id == id then some c else none

  unfoldable pub by_id : ℕ → List (CandidateRow F) → Option (CandidateRow F)
  by_id id [] = none
  by_id id (c ∷ cands) = newest id c (by_id id cands)

  abbrev pub add_item :
      List (ℕ × ℕ) → Item → Action → Option Text → Option (CandidateRow F) → Checked F → Checked F
  add_item matched it action name cand (rejected p) = rejected p
  add_item matched it action name none (checked missing bulk) = checked (it.id ∷ missing) bulk
  add_item matched it action name (some c) (checked missing bulk) = checked missing (
      record { anchor = c; action = action; name = name; update_id = matched_decision c.id matched }
      ∷ bulk)

module _ {F : Type 0} (trim_space : Text → Text) (s : MatchedState F) where
  abbrev pub check_item : List ℕ → Item → Asked → Checked F → Checked F
  check_item seen it (refused p) rest = rejected p
  check_item seen it (asked action name) rest =
      if is_used it.id seen
      then rejected twice
      else add_item s.matched it action name (by_id it.id s.candidates) rest

  -- The loop over the items, with the ids seen.
  unfoldable pub check_items : List ℕ → List Item → Checked F
  unfolding by_id
  check_items seen [] = checked [] []
  check_items seen (it ∷ items) =
      check_item seen it (read_item trim_space it) (check_items (it.id ∷ seen) items)

pub data BulkResponse : Type 0 where
  no_items failed : BulkResponse
  bad_request : Problem → BulkResponse
  not_in_list : List ℕ → BulkResponse
  decided : ℕ → BulkResponse

module _ {F : Type 0} ⦃fl : Float F⦄ (trim_space : Text → Text) (p : MatchParams F) where
  abbrev pub written : ℕ → Decisions F → Option (Decisions F) → Decisions F × BulkResponse
  written n db none = (db, failed)
  written n db (some db') = (db', decided n)

  abbrev pub write_checked : Text → Time → Decisions F → Checked F → Decisions F × BulkResponse
  write_checked user now db (rejected q) = (db, bad_request q)
  write_checked user now db (checked (id ∷ missing) bulk) = (db, not_in_list (id ∷ missing))
  write_checked user now db (checked [] bulk) =
      written (length bulk) db (decide_bulk user now bulk db)

  unfoldable pub decide_candidates_bulk :
      Text → Time → List Item → Runs F → Decisions F → Decisions F × BulkResponse
  unfolding check_items decide_bulk matched_state_for
  decide_candidates_bulk user now [] runs db = (db, no_items)
  decide_candidates_bulk user now (it ∷ items) runs db =
      write_checked user now db
        (check_items trim_space (matched_state_for p user runs db) [] (it ∷ items))

  abbrev decide_matched :
      Text → Time → BulkDecision F → Option ℕ → Decisions F → Option (Decisions F)
  decide_matched user now it none db = insert_decision user now it db
  decide_matched user now it (some id) db = update_decision user now id it db

  abbrev decide_for :
      Text
      → Time
      → Runs F
      → Decisions F
      → Action
      → Option Text
      → Option (CandidateRow F)
      → Decisions F × BulkResponse
  decide_for user now runs db action name none = (db, not_in_list [])
  decide_for user now runs db action name (some c) =
      let update_id = matched_decision c.id (matched_state_for p user runs db).matched in
      written 1 db (
        decide_matched user now
          (record { anchor = c; action = action; name = name; update_id = update_id }) update_id db)

  abbrev decide_asked : Text → Time → ℕ → Runs F → Decisions F → Asked → Decisions F × BulkResponse
  decide_asked user now id runs db (refused q) = (db, bad_request q)
  decide_asked user now id runs db (asked action name) =
      decide_for user now runs db action name (latest_candidate user id runs)

  -- `DecideCandidate`.
  unfoldable pub decide_candidate :
      Text → Time → Item → Runs F → Decisions F → Decisions F × BulkResponse
  unfolding matched_decision matched_state_for latest_candidate
  decide_candidate user now it runs db =
      decide_asked user now it.id runs db (read_item trim_space it)
