-- ===== src/Store/Decisions.antt =====
-- internal/store/decisions.go: the table of decisions. The rows stand in the order of their ids, the
-- next id is that of the table's sequence, and `now` is the clock of the database. A time is stored as
-- an instant, and read with the offset of UTC. The anchor is unique for a user (migration 8), and a
-- confirmed decision has a name (migration 1), so that an insert or an update may be refused.
pub mod Kept
use roadbook.Prelude.{
  ℕ, suc, Bool, true, false, not, List, [], ◌∷◌, ◌++◌, Option, none, some, ◌&&◌, ◌||◌, ◌==◌,
  if◌then◌else◌,
}
use roadbook.Prelude.Int.{pos}
use roadbook.Floats.{Float}
use roadbook.Times.{Time, equal}
use roadbook.Domain.{LatLng}
use roadbook.Store.Tables.{Text, Row, is_of, owned_by}
use roadbook.Store.Runs.{CandidateRow}

pub data Action : Type 0 where
  confirmed dismissed : Action

pub record Decision (F : Type 0) : Type 0 where
  pub id : ℕ
  pub action : Action
  pub name : Option Text
  pub anchor_start : Time
  pub anchor_end : Time
  pub anchor_dest : LatLng F
  pub created_at : Time
  pub updated_at : Time

pub record BulkDecision (F : Type 0) : Type 0 where
  pub anchor : CandidateRow F
  pub action : Action
  pub name : Option Text
  pub update_id : Option ℕ

pub record Decisions (F : Type 0) : Type 0 where
  pub rows : List (Row (Decision F))
  pub next : ℕ

-- `CHECK (action <> 'confirmed' OR name IS NOT NULL)`.
abbrev pub is_nameless : Action → Option Text → Bool
is_nameless confirmed none = true
is_nameless confirmed (some name) = false
is_nameless dismissed name = false

abbrev pub stored : Time → Time
stored t = record { instant = t.instant; offset = pos 0 }

module _ {F : Type 0} where
  unfoldable pub list_decisions : Text → Decisions F → List (Decision F)
  list_decisions user db = owned_by user db.rows

  abbrev pub decision_of : ℕ → Time → BulkDecision F → Decision F
  decision_of id now it = record {
    id = id;
    action = it.action;
    name = it.name;
    anchor_start = stored it.anchor.candidate.start;
    anchor_end = stored it.anchor.candidate.end;
    anchor_dest = it.anchor.candidate.dest;
    created_at = now;
    updated_at = now;
  }

module _ {F : Type 0} ⦃fl : Float F⦄ where
  open fl use {lt}

  abbrev same_number : F → F → Bool
  same_number x y = not (lt x y) && not (lt y x)

  unfoldable pub same_anchor : Decision F → Decision F → Bool
  same_anchor a b =
      equal a.anchor_start b.anchor_start
      && equal a.anchor_end b.anchor_end
      && same_number a.anchor_dest.lat b.anchor_dest.lat
      && same_number a.anchor_dest.lon b.anchor_dest.lon

  -- Whether another of the user's rows has the anchor.
  unfoldable pub anchor_taken : Text → Decision F → List (Row (Decision F)) → Bool
  unfolding same_anchor
  anchor_taken user d [] = false
  anchor_taken user d (r ∷ rows) =
      (is_of user r && not (r.value.id == d.id) && same_anchor r.value d)
      || anchor_taken user d rows

  abbrev pub is_row : Text → ℕ → Row (Decision F) → Bool
  is_row user id r = is_of user r && r.value.id == id

  unfoldable pub has_row : Text → ℕ → List (Row (Decision F)) → Bool
  has_row user id [] = false
  has_row user id (r ∷ rows) = is_row user id r || has_row user id rows

  -- `UPDATE … WHERE id = $1 AND user_id = $8`; the time of creation stays.
  unfoldable pub set_row : Text → Decision F → List (Row (Decision F)) → List (Row (Decision F))
  set_row user d [] = []
  set_row user d (r ∷ rows) =
      let rest = set_row user d rows in
      (if is_row user d.id r
        then record r { value = record d { created_at = r.value.created_at } }
        else r)
      ∷ rest

  -- `InsertDecision`.
  unfoldable pub insert_decision : Text → Time → BulkDecision F → Decisions F → Option (Decisions F)
  unfolding anchor_taken
  insert_decision user now it db =
      let d = decision_of db.next now it in
      if is_nameless it.action it.name || anchor_taken user d db.rows
      then none
      else some (record {
        rows = db.rows ++ (record { user = user; value = d } ∷ []);
        next = suc db.next;
      })

  -- The update of `DecideBulk`: an id that is no row of the user's changes nothing.
  unfoldable pub update_row : Text → Time → ℕ → BulkDecision F → Decisions F → Option (Decisions F)
  unfolding anchor_taken has_row set_row
  update_row user now id it db =
      let d = decision_of id now it in
      if has_row user id db.rows && (is_nameless it.action it.name || anchor_taken user d db.rows)
      then none
      else some (record db { rows = set_row user d db.rows })

  -- `UpdateDecision`, where an id that is no row of the user's is an error.
  unfoldable pub update_decision :
      Text → Time → ℕ → BulkDecision F → Decisions F → Option (Decisions F)
  unfolding has_row update_row
  update_decision user now id it db =
      if has_row user id db.rows then update_row user now id it db else none

  -- One item of `DecideBulk`.
  abbrev pub decide_item :
      Text → Time → BulkDecision F → Option ℕ → Decisions F → Option (Decisions F)
  decide_item user now it none db = insert_decision user now it db
  decide_item user now it (some id) db = update_row user now id it db

  abbrev pub continue_bulk :
      (Decisions F → Option (Decisions F)) → Option (Decisions F) → Option (Decisions F)
  continue_bulk rest none = none
  continue_bulk rest (some db) = rest db

  -- `DecideBulk`: none is a transaction that is rolled back.
  unfoldable pub decide_bulk :
      Text → Time → List (BulkDecision F) → Decisions F → Option (Decisions F)
  unfolding insert_decision update_row
  decide_bulk user now [] db = some db
  decide_bulk user now (it ∷ items) db =
      continue_bulk (decide_bulk user now items) (decide_item user now it it.update_id db)
