-- ===== src/Store/Decisions/Kept.antt =====
-- About `decide_bulk`: what becomes of the rows that are there.
use mathlib.Core.Option.{some-injective}
use roadbook.Prelude.{
  ℕ, suc, ◌≡◌, ◌≢◌, refl, sym, ◌∙◌, ap, ap₂, inl, inr, Bool, true, false, ◌&&◌, List, [], ◌∷◌, ◌++◌,
  Option, none, some, append-nil, append_assoc, Bool-cases, ◌==◌, arith, subst,
}
use roadbook.Floats.{Float}
use roadbook.Times.{Time}
use roadbook.Photo.Bytes.{same_bytes}
use roadbook.Photo.Bytes.Cuts.{same_bytes→eq, same_bytes_refl}
use roadbook.Store.Tables.{Text, Row, is_of, owned_by}
use roadbook.Store.Rows.{owned_by-append}
use roadbook.Store.Keyed.{if_eq_then, if_eq_else}
use roadbook.Prelude.{◌||◌}
use roadbook.Store.Decisions.{
  is_nameless, Decision, BulkDecision, Decisions, decision_of, is_row, set_row, insert_decision,
  update_row, decide_item, continue_bulk, decide_bulk, has_row, anchor_taken,
}

and_true : (a b : Bool) → (a && b) ≡ true → (a ≡ true) × (b ≡ true)
and_true true b e = (refl, e)
and_true false b e = cc

other_user : (a b : Text) → a ≢ b → same_bytes a b ≡ false
other_user a b apart = elim (Bool-cases (same_bytes a b)) [
  | inl same ↦ absurd (apart (same_bytes→eq a b same))
  | inr other ↦ other
]

-- What an item takes from the sequence of ids.
abbrev given : Option ℕ → ℕ → List ℕ
given none next = next ∷ []
given (some id) next = []

abbrev next_behind : Option ℕ → ℕ → ℕ
next_behind none next = suc next
next_behind (some id) next = next

module _ {F : Type 0} where
  abbrev pub ids : List (Decision F) → List ℕ
  ids [] = []
  ids (d ∷ decs) = d.id ∷ ids decs

  ids-append : (xs ys : List (Decision F)) → ids (xs ++ ys) ≡ ids xs ++ ids ys
  ids-append [] ys = refl
  ids-append (x ∷ xs) ys = ap (λ l. x.id ∷ l) (ids-append xs ys)

  -- The ids that a batch gives out, from the next one on.
  unfoldable pub fresh_ids : ℕ → List (BulkDecision F) → List ℕ
  fresh_ids next [] = []
  fresh_ids next (it ∷ items) =
      given it.update_id next ++ fresh_ids (next_behind it.update_id next) items

module _ {F : Type 0} ⦃fl : Float F⦄ where
  owned_by-set_row_other :
      (user other : Text) (d : Decision F) (rows : List (Row (Decision F)))
      → user ≢ other
      → owned_by other (set_row user d rows) ≡ owned_by other rows
  unfolding set_row
  owned_by-set_row_other user other d [] apart = refl
  owned_by-set_row_other user other d (r ∷ rows) apart = elim (Bool-cases (is_row user d.id r)) [
    | inl e ↦
        (let (own, same) = and_true (is_of user r) (r.value.id == d.id) e in
          let foreign =
            subst (λ u. same_bytes u other ≡ false) (sym (same_bytes→eq r.user user own))
              (other_user user other apart) in
          rw (e, foreign) (owned_by-set_row_other user other d rows apart))
    | inr e ↦ rw (e, owned_by-set_row_other user other d rows apart) refl
  ]

  ids-set_row :
      (user : Text) (d : Decision F) (rows : List (Row (Decision F)))
      → ids (owned_by user (set_row user d rows)) ≡ ids (owned_by user rows)
  unfolding set_row
  ids-set_row user d [] = refl
  ids-set_row user d (r ∷ rows) = elim (Bool-cases (is_row user d.id r)) [
    | inl e ↦
        (let (own, same) = and_true (is_of user r) (r.value.id == d.id) e in
          rw (e, own) (ap₂ ◌∷◌ (ground arith) (ids-set_row user d rows)))
    | inr e ↦ rw e (elim (Bool-cases (is_of user r)) [
      | inl own ↦ rw own (ap (λ l. r.value.id ∷ l) (ids-set_row user d rows))
      | inr other ↦ rw other (ids-set_row user d rows)
    ])
  ]

  none_ne : {db : Decisions F} → none ≡ some db → ⊥
  none_ne e = cc

  -- What a run of statements leaves: the rows of other users, and the user's ids, with new ones behind.
  pub record IsKept (user : Text) (fresh : List ℕ) (db db' : Decisions F) : Type 0 where
    pub others : (other : Text) → user ≢ other → owned_by other db'.rows ≡ owned_by other db.rows
    pub own : ids (owned_by user db'.rows) ≡ ids (owned_by user db.rows) ++ fresh

  insert_decision-IsKept :
      (user : Text) (now : Time) (it : BulkDecision F) (db : Decisions F) {db' : Decisions F}
      → insert_decision user now it db ≡ some db'
      → IsKept user (db.next ∷ []) db db' × (db'.next ≡ suc db.next)
  unfolding insert_decision
  insert_decision-IsKept user now it db {db'} e =
      let d = decision_of db.next now it in
      let more : Decisions F = record {
        rows = db.rows ++ (record { user = user; value = d } ∷ []);
        next = suc db.next;
      } in
      elim (Bool-cases (is_nameless it.action it.name || anchor_taken user d db.rows)) [
        | inl taken ↦ absurd (none_ne (sym (if_eq_then _ taken) ∙ e))
        | inr free ↦
            subst (λ x. IsKept user (db.next ∷ []) db x × (x.next ≡ suc db.next))
              (some-injective more db' (sym (if_eq_else _ free) ∙ e))
              (
                record {
                  others = λ other apart.
                      rw (owned_by-append other db.rows, other_user user other apart)
                        (append-nil (owned_by other db.rows));
                  own =
                      rw
                        (
                          owned_by-append user db.rows,
                          same_bytes_refl user,
                          ids-append (owned_by user db.rows),
                        )
                        refl;
                },
                refl,
              )
      ]

  update_row-IsKept :
      (user : Text) (now : Time) (id : ℕ) (it : BulkDecision F) (db : Decisions F)
      {db' : Decisions F}
      → update_row user now id it db ≡ some db'
      → IsKept user [] db db' × (db'.next ≡ db.next)
  unfolding update_row
  update_row-IsKept user now id it db {db'} e =
      let d = decision_of id now it in
      let more : Decisions F = record db { rows = set_row user d db.rows } in
      elim (Bool-cases (
        has_row user id db.rows
        && (is_nameless it.action it.name || anchor_taken user d db.rows))) [
          | inl taken ↦ absurd (none_ne (sym (if_eq_then _ taken) ∙ e))
          | inr free ↦
              subst (λ x. IsKept user [] db x × (x.next ≡ db.next))
                (some-injective more db' (sym (if_eq_else _ free) ∙ e))
                (
                  record {
                    others = λ other apart. owned_by-set_row_other user other d db.rows apart;
                    own =
                        ids-set_row user d db.rows ∙ sym (append-nil (ids (owned_by user db.rows)));
                  },
                  refl,
                )
        ]

  decide_item-IsKept :
      (user : Text) (now : Time) (it : BulkDecision F) (o : Option ℕ) (db : Decisions F)
      {db' : Decisions F}
      → decide_item user now it o db ≡ some db'
      → IsKept user (given o db.next) db db' × (db'.next ≡ next_behind o db.next)
  decide_item-IsKept user now it none db e = insert_decision-IsKept user now it db e
  decide_item-IsKept user now it (some id) db e = update_row-IsKept user now id it db e

  continue_bulk-IsKept :
      (user : Text) (now : Time) (items : List (BulkDecision F)) (u : Option ℕ) (db : Decisions F)
      (o : Option (Decisions F)) {db' : Decisions F}
      → ((x : Decisions F)
          → o ≡ some x
          → IsKept user (given u db.next) db x × (x.next ≡ next_behind u db.next))
      → ((x : Decisions F)
          → decide_bulk user now items x ≡ some db'
          → IsKept user (fresh_ids x.next items) x db')
      → continue_bulk (decide_bulk user now items) o ≡ some db'
      → IsKept user (given u db.next ++ fresh_ids (next_behind u db.next) items) db db'
  continue_bulk-IsKept user now items u db none first rest e = cc
  continue_bulk-IsKept user now items u db (some x) first rest e =
      let (a, n) = first x refl in
      let b = rest x e in
      record {
        others = λ other apart. b.others other apart ∙ a.others other apart;
        own =
            b.own
            ∙ ap₂ ◌++◌ a.own (ap (λ k. fresh_ids k items) n)
            ∙ append_assoc (ids (owned_by user db.rows)) (given u db.next)
                (fresh_ids (next_behind u db.next) items);
      }

  -- A batch leaves the decisions of other users as they are, and the user's own in their place, with
  -- the new ones behind them.
  pub decide_bulk-IsKept :
      (user : Text) (now : Time) (items : List (BulkDecision F)) (db db' : Decisions F)
      → decide_bulk user now items db ≡ some db'
      → IsKept user (fresh_ids db.next items) db db'
  unfolding decide_bulk fresh_ids
  decide_bulk-IsKept user now [] db db' e =
      subst (λ x. IsKept user [] db x) (some-injective db db' e)
        (record {
          others = λ other apart. refl;
          own = sym (append-nil (ids (owned_by user db.rows)));
        })
  decide_bulk-IsKept user now (it ∷ items) db db' e =
      continue_bulk-IsKept user now items it.update_id db (decide_item user now it it.update_id db)
        (λ x. decide_item-IsKept user now it it.update_id db)
        (λ x. decide_bulk-IsKept user now items x db') e
