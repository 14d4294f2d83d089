-- ===== src/Backup/RoundTrip/Rows.antt =====
-- About `restoreDecisions`, for a user who has no decision of the archive's anchors.
use roadbook.Prelude.{
  ap₂, ℕ, suc, ◌≤◌, ◌≡◌, refl, sym, ap, ◌∙◌, subst, inl, inr, true, false, List, [], ◌∷◌, ◌++◌, map,
  none, some, Memᴰ, Bool-cases, All, append-nil, append_assoc, ◌==◌, arith,
}
use roadbook.Floats.{Float}
use roadbook.Photo.Bytes.{same_bytes}
use roadbook.Photo.Bytes.Cuts.{same_bytes_refl}
use roadbook.Store.Tables.{Text, Row, is_of, owned_by}
use roadbook.Store.Rows.{owned_by-append}
use roadbook.Store.Keyed.{or_false, lookup, has, IsDistinct, if_eq_then, if_eq_else}
use roadbook.Store.Decisions.{Action, confirmed, dismissed, Decision, is_nameless, same_anchor}
use roadbook.Store.Photos.{with_id}
use roadbook.Store.Backup.{stored_decision, find_anchor, restore_decision, has_decision_id}
use roadbook.Backup.{with_id, Codec, action_name, anchor_ref, anchor_by_id, archived_decision}
use roadbook.Backup.Restore.{
  Identity, identity_key, Restoring, anchor_key, parse_action, restore_decisions, going,
  count_decision, decision_done, insert_archived,
}

abbrev pub advance {ℓ} : {A : Type ℓ} → ℕ → List A → ℕ
advance n [] = n
advance n (x ∷ xs) = advance (suc n) xs

parse_action-action_name : (a : Action) → parse_action (action_name a) ≡ some a
unfolding same_bytes
parse_action-action_name confirmed = refl
parse_action-action_name dismissed = refl

module _ {F : Type 0} where
  -- The rows that the sequence of ids gives to the decisions.
  abbrev pub rows_from : ℕ → List (Decision F) → List (Decision F)
  rows_from n [] = []
  rows_from n (d ∷ decs) = stored_decision n d ∷ rows_from (suc n) decs

  abbrev pub rows_of : Text → List (Decision F) → List (Row (Decision F))
  rows_of user [] = []
  rows_of user (d ∷ decs) = record { user = user; value = d } ∷ rows_of user decs

  pub owned_by-rows_of :
      (user : Text) (decs : List (Decision F)) → owned_by user (rows_of user decs) ≡ decs
  owned_by-rows_of user [] = refl
  owned_by-rows_of user (d ∷ decs) =
      rw (same_bytes_refl user) (ap (λ l. d ∷ l) (owned_by-rows_of user decs))

  -- A row as the database holds it: its times are read at the offset of UTC, and it passes the checks.
  pub data IsStored (d : Decision F) : Type 0 where
    is_stored : stored_decision d.id d ≡ d → is_nameless d.action d.name ≡ false → IsStored d

  pub archived-rows_from :
      (n : ℕ) (decs : List (Decision F))
      → All IsStored decs
      → map archived_decision (rows_from n decs) ≡ map archived_decision decs
  archived-rows_from n [] all = refl
  archived-rows_from n (d ∷ decs) (is_stored same named, all) =
      ap₂ (λ x l. x ∷ l) (ap archived_decision same) (archived-rows_from (suc n) decs all)

  with_id-rows_from :
      (id n : ℕ) (decs : List (Decision F)) {d : Decision F}
      → anchor_by_id (rows_from n decs) id ≡ some d
      → n ≤ id
  unfolding with_id
  with_id-rows_from id n [] e = cc
  with_id-rows_from id n (x ∷ decs) e = elim (Bool-cases (n == id)) [
    | inl same ↦ ground arith
    | inr other ↦
        (let later = with_id-rows_from id (suc n) decs (sym (if_eq_else _ other) ∙ e) in
          omega (arith, later))
  ]

  pub has_decision_id-owned_by :
      (user : Text) (id : ℕ) (rows : List (Row (Decision F))) {d : Decision F}
      → anchor_by_id (owned_by user rows) id ≡ some d
      → has_decision_id id rows ≡ true
  unfolding with_id has_decision_id
  has_decision_id-owned_by user id [] e = cc
  has_decision_id-owned_by user id (r ∷ rows) e = elim (Bool-cases (r.value.id == id)) [
    | inl same ↦ rw same refl
    | inr other ↦ rw other (elim (Bool-cases (is_of user r)) [
      | inl own ↦
          has_decision_id-owned_by user id rows
            (sym (if_eq_else _ other) ∙ sym (ap (λ l. anchor_by_id l id) (if_eq_then _ own)) ∙ e)
      | inr foreign ↦
          has_decision_id-owned_by user id rows
            (sym (ap (λ l. anchor_by_id l id) (if_eq_else _ foreign)) ∙ e)
    ])
  ]

  -- The newest entries of `idByAnchor` stand in front.
  module _ (c : Codec F) where
    abbrev pub decision_key : Decision F → Text
    decision_key d = anchor_key c (anchor_ref d)

    abbrev pub identities : ℕ → List (Decision F) → List Identity → List Identity
    identities n [] ids = ids
    identities n (d ∷ decs) ids =
        identities (suc n) decs (record { anchor = decision_key d; id = n } ∷ ids)

    identities_other :
        (k : Text) (n : ℕ) (decs : List (Decision F)) (ids : List Identity)
        → has decision_key k decs ≡ false
        → lookup identity_key k (identities n decs ids) ≡ lookup identity_key k ids
    unfolding has lookup
    identities_other k n [] ids e = refl
    identities_other k n (d ∷ decs) ids e =
        let (apart, absent) =
          or_false (same_bytes (decision_key d) k) (has decision_key k decs) e in
        identities_other k (suc n) decs (record { anchor = decision_key d; id = n } ∷ ids) absent
        ∙ rw apart refl

    -- The id under an anchor is that of a row with the anchor.
    pub data IsNamed (n : ℕ) (decs : List (Decision F)) (ids : List Identity) (d : Decision F)
        : Type 0 where
      is_named :
          (i : Identity) (r : Decision F)
          → lookup identity_key (decision_key d) ids ≡ some i
          → anchor_by_id (rows_from n decs) i.id ≡ some r
          → anchor_ref r ≡ anchor_ref d
          → IsNamed n decs ids d

    pass :
        (n : ℕ) (x d : Decision F) (decs : List (Decision F)) (ids : List Identity)
        → IsNamed (suc n) decs ids d
        → IsNamed n (x ∷ decs) ids d
    unfolding with_id
    pass n x d decs ids (is_named i r at row same) =
        let later = with_id-rows_from i.id (suc n) decs row in
        is_named i r at (if_eq_else {b = n == i.id} _ (ground (arith, later)) ∙ row) same

    first :
        (n : ℕ) (d : Decision F) (decs : List (Decision F)) (ids : List Identity)
        → has decision_key (decision_key d) decs ≡ false
        → stored_decision d.id d ≡ d
        → IsNamed n (d ∷ decs) (identities n (d ∷ decs) ids) d
    unfolding with_id lookup
    first n d decs ids fresh same =
        is_named (record { anchor = decision_key d; id = n }) (stored_decision n d)
          (identities_other (decision_key d) (suc n) decs
              (record { anchor = decision_key d; id = n } ∷ ids) fresh
            ∙ if_eq_then _ (same_bytes_refl (decision_key d)))
          (if_eq_then {b = n == n} _ (ground arith)) (ap anchor_ref same)

    pub identities-IsNamed :
        (n : ℕ) (decs : List (Decision F)) (ids : List Identity) {d : Decision F}
        → IsDistinct decision_key decs
        → All IsStored decs
        → Memᴰ d decs
        → IsNamed n decs (identities n decs ids) d
    unfolding IsDistinct
    identities-IsNamed n [] ids dist all m = elim m [ ]
    identities-IsNamed n (x ∷ decs) ids {d} (fresh, dist) (is_stored same named, all)
          (Memᴰ.tail m) =
        pass n x d decs (identities n (x ∷ decs) ids) (
          identities-IsNamed (suc n) decs (record { anchor = decision_key x; id = n } ∷ ids) dist
            all m)
    identities-IsNamed n (x ∷ decs) ids {d} (fresh, dist) (is_stored same named, all)
          (Memᴰ.head e) =
        subst (IsNamed n (x ∷ decs) (identities n (x ∷ decs) ids)) (sym e)
          (first n x decs ids fresh same)

module _ {F : Type 0} ⦃fl : Float F⦄ where
  -- No two rows have one anchor: the unique index.
  abbrev pub AreApart : List (Decision F) → Type 0
  AreApart [] = Unit
  AreApart (d ∷ decs) = All (λ e. same_anchor d e ≡ false) decs × AreApart decs

  find_anchor-append :
      (e : Decision F) (decs : List (Decision F)) (x : Decision F)
      → find_anchor e decs ≡ none
      → same_anchor x e ≡ false
      → find_anchor e (decs ++ (x ∷ [])) ≡ none
  unfolding find_anchor
  find_anchor-append e [] x h apart = rw apart refl
  find_anchor-append e (d ∷ decs) x h apart = elim (Bool-cases (same_anchor d e)) [
    | inl same ↦ absurd (cc (sym (if_eq_then _ same) ∙ h))
    | inr other ↦ rw other (find_anchor-append e decs x (sym (if_eq_else _ other) ∙ h) apart)
  ]

  pub free_anchors :
      (decs : List (Decision F)) {rows : List (Decision F)}
      → rows ≡ []
      → All (λ d. find_anchor d rows ≡ none) decs
  unfolding find_anchor
  free_anchors [] e = tt
  free_anchors (d ∷ decs) e = (rw e refl, free_anchors decs e)

  module _ (c : Codec F) (user : Text) where
    -- The state after the decisions.
    abbrev pub with_decisions : List (Decision F) → Restoring F → Restoring F
    with_decisions decs s = record s {
      id_by_anchor = identities c s.decisions.next decs s.id_by_anchor;
      rep = record s.rep { decisions_restored = advance s.rep.decisions_restored decs };
      decisions = record {
        rows = s.decisions.rows ++ rows_of user (rows_from s.decisions.next decs);
        next = advance s.decisions.next decs;
      };
    }

    abbrev with_decision : Decision F → Restoring F → Restoring F
    with_decision d s = record s {
      id_by_anchor = record { anchor = decision_key c d; id = s.decisions.next } ∷ s.id_by_anchor;
      rep = count_decision true s.rep;
      decisions = record {
        rows =
            s.decisions.rows
            ++ (record { user = user; value = stored_decision s.decisions.next d } ∷ []);
        next = suc s.decisions.next;
      };
    }

    restore_one :
        (d : Decision F) (s : Restoring F)
        → is_nameless d.action d.name ≡ false
        → find_anchor d (owned_by user s.decisions.rows) ≡ none
        → decision_done c user (decision_key c d) s (
            insert_archived c user
              (archived_decision d)
              (parse_action (action_name d.action))
              s.decisions)
          ≡ going (with_decision d s)
    unfolding restore_decision find_anchor
    restore_one d s named free = rw (parse_action-action_name d.action, named, free) refl

    free_after :
        (d : Decision F) (decs : List (Decision F)) (s : Restoring F)
        → All (λ e. same_anchor d e ≡ false) decs
        → All (λ e. find_anchor e (owned_by user s.decisions.rows) ≡ none) decs
        → All (λ e. find_anchor e (owned_by user (with_decision d s).decisions.rows) ≡ none) decs
    unfolding same_anchor
    free_after d [] s apart free = tt
    free_after d (e ∷ decs) s (apart, rest) (free, free_rest) =
        let row : Row (Decision F) = record {
          user = user;
          value = stored_decision s.decisions.next d;
        } in
        (
          rw (owned_by-append user s.decisions.rows (row ∷ []), same_bytes_refl user)
              (find_anchor-append e (owned_by user s.decisions.rows) row.value free apart),
          free_after d decs s rest free_rest,
        )

    pub restore_decisions-fresh :
        (decs : List (Decision F)) (s : Restoring F)
        → All IsStored decs
        → AreApart decs
        → All (λ d. find_anchor d (owned_by user s.decisions.rows) ≡ none) decs
        → restore_decisions c user (map archived_decision decs) s ≡ going (with_decisions decs s)
    unfolding restore_decisions
    restore_decisions-fresh [] s all apart free = rw (append-nil s.decisions.rows) refl
    restore_decisions-fresh (d ∷ decs) s (is_stored same named, all) (apart, rest)
          (free, free_rest) =
        rw (restore_one d s named free) (
          restore_decisions-fresh decs (with_decision d s) all rest
            (free_after d decs s apart free_rest)
          ∙ rw
              (append_assoc s.decisions.rows
                (record { user = user; value = stored_decision s.decisions.next d } ∷ [])
                (rows_of user (rows_from (suc s.decisions.next) decs)))
              refl)
