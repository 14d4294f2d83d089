-- ===== src/Api/Decide/Batches.antt =====
-- About the batch that a bulk request becomes.
use mathlib.Core.Option.{some-injective}
use roadbook.Floats.{Float}
use roadbook.Times.{Time}
use roadbook.Detect.Params.{MatchParams}
use roadbook.Store.Runs.{Runs}
use roadbook.Store.Decisions.{Decisions, decide_bulk}
use roadbook.Api.Matching.{matched_state_for}
use roadbook.Prelude.{
  subst, ℕ, suc, ◌≡◌, refl, sym, ◌∙◌, ap, inl, inr, false, List, [], ◌∷◌, Memᴰ, Option, none, some,
  Bool-cases, ◌==◌, length, arith,
}
use roadbook.Detect.Match.{is_used}
use roadbook.Store.Tables.{Text}
use roadbook.Store.Keyed.{if_eq_then, if_eq_else}
use roadbook.Store.Runs.{CandidateRow}
use roadbook.Store.Decisions.{BulkDecision}
use roadbook.Api.Matching.{matched_decision, MatchedState}
use roadbook.Api.Decide.{
  refused, check_items, written, write_checked, decide_candidates_bulk, decided, BulkResponse,
  add_item, check_item, rejected, checked, Asked, Action, Checked, Problem, Item, asked, read_item,
  newest, by_id,
}

-- The ids of the items are distinct, and none of them is among those seen.
pub AreFresh : List ℕ → List Item → Type 0
AreFresh seen [] = Unit
AreFresh seen (it ∷ items) = (is_used it.id seen ≡ false) × AreFresh (it.id ∷ seen) items

none_ne : {A : Type 0} {x : A} → none ≡ some x → ⊥
none_ne e = cc

rejected_ne :
    {F : Type 0} {q : Problem} {bulk : List (BulkDecision F)} → rejected q ≡ checked [] bulk → ⊥
rejected_ne e = cc

module _ {F : Type 0} (trim_space : Text → Text) (s : MatchedState F) where
  -- The decision of an item: as it asks, on the listed candidate that it names, in the place of the
  -- decision that this candidate is matched with.
  pub record IsFor (it : Item) (b : BulkDecision F) : Type 0 where
    pub read : read_item trim_space it ≡ asked b.action b.name
    pub listed : Memᴰ b.anchor s.candidates
    pub named : b.anchor.id ≡ it.id
    pub replaced : b.update_id ≡ matched_decision it.id s.matched

  pub IsBatch : List Item → List (BulkDecision F) → Type 0
  IsBatch [] [] = Unit
  IsBatch (it ∷ items) (b ∷ bulk) = IsFor it b × IsBatch items bulk
  IsBatch _ _ = ⊥

  length-IsBatch :
      (items : List Item) (bulk : List (BulkDecision F))
      → IsBatch items bulk
      → length bulk ≡ length items
  unfolding IsBatch
  length-IsBatch [] [] h = refl
  length-IsBatch [] (b ∷ bulk) h = elim h [ ]
  length-IsBatch (it ∷ items) [] h = elim h [ ]
  length-IsBatch (it ∷ items) (b ∷ bulk) (h, hs) = ap suc (length-IsBatch items bulk hs)

  newest-Mem :
      (id : ℕ) (c : CandidateRow F) (cands : List (CandidateRow F)) (o : Option (CandidateRow F))
      {x : CandidateRow F}
      → ((y : CandidateRow F) → o ≡ some y → Memᴰ y cands × (y.id ≡ id))
      → newest id c o ≡ some x
      → Memᴰ x (c ∷ cands) × (x.id ≡ id)
  newest-Mem id c cands (some later) {x} below e = let (m, k) = below x e in (Memᴰ.tail m, k)
  newest-Mem id c cands none {x} below e = elim (Bool-cases (c.id == id)) [
    | inl same ↦
        (let here = sym (some-injective c x (sym (if_eq_then _ same) ∙ e)) in
          (Memᴰ.head here, ap (λ y. y.id) here ∙ ground arith))
    | inr other ↦ absurd (none_ne (sym (if_eq_else _ other) ∙ e))
  ]

  by_id-Mem :
      (id : ℕ) (cands : List (CandidateRow F)) {x : CandidateRow F}
      → by_id id cands ≡ some x
      → Memᴰ x cands × (x.id ≡ id)
  unfolding by_id
  by_id-Mem id [] e = cc
  by_id-Mem id (c ∷ cands) e = newest-Mem id c cands (by_id id cands) (λ y. by_id-Mem id cands) e

  abbrev missing_of : Checked F → List ℕ
  missing_of (checked missing bulk) = missing
  missing_of (rejected p) = []

  abbrev bulk_of : Checked F → List (BulkDecision F)
  bulk_of (checked missing bulk) = bulk
  bulk_of (rejected p) = []

  abbrev Extends : List ℕ → Item → List Item → List (BulkDecision F) → Type 0
  Extends seen it items bulk =
      (b : BulkDecision F) × (more : List (BulkDecision F)) × (b ∷ more ≡ bulk)
      × IsFor it b
      × IsBatch items more
      × AreFresh (it.id ∷ seen) items

  add_item-Extends :
      (seen : List ℕ) (it : Item) (items : List Item) (action : Action) (name : Option Text)
      (o : Option (CandidateRow F)) (rest : Checked F) {bulk : List (BulkDecision F)}
      → read_item trim_space it ≡ asked action name
      → ((c : CandidateRow F) → o ≡ some c → Memᴰ c s.candidates × (c.id ≡ it.id))
      → ((more : List (BulkDecision F))
          → rest ≡ checked [] more
          → IsBatch items more × AreFresh (it.id ∷ seen) items)
      → add_item s.matched it action name o rest ≡ checked [] bulk
      → Extends seen it items bulk
  add_item-Extends seen it items action name o (rejected p) read found below e = cc
  add_item-Extends seen it items action name none (checked missing more) read found below e = cc
  add_item-Extends seen it items action name (some c) (checked missing more) read found below e =
      let (listed, named) = found c refl in
      (
        record {
          anchor = c;
          action = action;
          name = name;
          update_id = matched_decision c.id s.matched;
        },
        more,
        ap bulk_of e,
        record {
          read = read;
          listed = listed;
          named = named;
          replaced = ap (λ id. matched_decision id s.matched) named;
        },
        (below more (ap (λ m. checked m more) (ap missing_of e))).0,
        (below more (ap (λ m. checked m more) (ap missing_of e))).1,
      )

  check_item-Extends :
      (seen : List ℕ) (it : Item) (items : List Item) (a : Asked) (rest : Checked F)
      {bulk : List (BulkDecision F)}
      → read_item trim_space it ≡ a
      → ((more : List (BulkDecision F))
          → rest ≡ checked [] more
          → IsBatch items more × AreFresh (it.id ∷ seen) items)
      → check_item trim_space s seen it a rest ≡ checked [] bulk
      → (is_used it.id seen ≡ false) × Extends seen it items bulk
  check_item-Extends seen it items (refused p) rest read below e = cc
  check_item-Extends seen it items (asked action name) rest read below e =
      elim (Bool-cases (is_used it.id seen)) [
        | inl used ↦ absurd (rejected_ne (sym (if_eq_then _ used) ∙ e))
        | inr free ↦ (
          free,
          add_item-Extends seen it items action name (by_id it.id s.candidates) rest read
              (λ c. by_id-Mem it.id s.candidates) below (sym (if_eq_else _ free) ∙ e),
        )
      ]

  check_items-IsBatch :
      (seen : List ℕ) (items : List Item) {bulk : List (BulkDecision F)}
      → check_items trim_space s seen items ≡ checked [] bulk
      → IsBatch items bulk × AreFresh seen items
  unfolding check_items IsBatch AreFresh
  check_items-IsBatch seen [] {bulk} e = (subst (λ l. IsBatch [] l) (ap bulk_of e) tt, tt)
  check_items-IsBatch seen (it ∷ items) {bulk} e =
      let (free, (b, more, same, for_it, batch, fresh)) =
        check_item-Extends seen it items (read_item trim_space it) _ refl
          (λ more. check_items-IsBatch (it.id ∷ seen) items) e in
      (subst (λ l. IsBatch (it ∷ items) l) same (for_it, batch), (free, fresh))

module _ {F : Type 0} ⦃fl : Float F⦄ (trim_space : Text → Text) (p : MatchParams F) where
  -- Distinct items, each with its decision, and all of these written in one batch.
  pub IsDecided : Text → Time → List Item → Runs F → Decisions F → Decisions F → ℕ → Type 0
  IsDecided user now items runs db db' n =
      (bulk : List (BulkDecision F)) × AreFresh [] items
      × IsBatch trim_space (matched_state_for p user runs db) items bulk
      × (decide_bulk user now bulk db ≡ some db')
      × (n ≡ length items)

  written-decided :
      (user : Text) (now : Time) (m : ℕ) (db : Decisions F) (o : Option (Decisions F))
      {db' : Decisions F} {n : ℕ}
      → written trim_space p m db o ≡ (db', decided n)
      → (o ≡ some db') × (n ≡ m)
  written-decided user now m db none e = cc
  written-decided user now m db (some x) {db'} {n} e =
      (ap (λ y. some y.0) e, sym (ap (λ y. count y.1) e))
    where
      count : BulkResponse → ℕ
      count (decided k) = k
      count _ = m

  write_checked-decided :
      (user : Text) (now : Time) (items : List Item) (runs : Runs F) (db : Decisions F)
      (c : Checked F) {db' : Decisions F} {n : ℕ}
      → ((bulk : List (BulkDecision F))
          → c ≡ checked [] bulk
          → IsBatch trim_space (matched_state_for p user runs db) items bulk × AreFresh [] items)
      → write_checked trim_space p user now db c ≡ (db', decided n)
      → IsDecided user now items runs db db' n
  unfolding IsDecided
  write_checked-decided user now items runs db (rejected q) good e = cc
  write_checked-decided user now items runs db (checked (id ∷ missing) bulk) good e = cc
  write_checked-decided user now items runs db (checked [] bulk) good e =
      let (batch, fresh) = good bulk refl in
      let (done, n) = written-decided user now (length bulk) db (decide_bulk user now bulk db) e in
      (
        bulk,
        fresh,
        batch,
        done,
        n ∙ length-IsBatch trim_space (matched_state_for p user runs db) items bulk batch,
      )

  -- A bulk request that answers a number has decided all of its items, which are so many, each one
  -- once, as it asks, on a candidate of the latest run.
  pub decide_candidates_bulk-IsDecided :
      (user : Text) (now : Time) (items : List Item) (runs : Runs F) (db db' : Decisions F) (n : ℕ)
      → decide_candidates_bulk trim_space p user now items runs db ≡ (db', decided n)
      → IsDecided user now items runs db db' n
  unfolding decide_candidates_bulk
  decide_candidates_bulk-IsDecided user now [] runs db db' n e = cc
  decide_candidates_bulk-IsDecided user now (it ∷ items) runs db db' n e =
      write_checked-decided user now (it ∷ items) runs db
        (check_items trim_space (matched_state_for p user runs db) [] (it ∷ items))
        (λ bulk. check_items-IsBatch trim_space (matched_state_for p user runs db) [] (it ∷ items))
        e
