-- ===== src/Api/Shares/Targets.antt =====
-- About the adventure that a share token names.
use mathlib.Core.Option.{some-injective}
use roadbook.Prelude.{
  ℕ, ◌≡◌, refl, sym, ◌∙◌, ap, inl, inr, Bool, true, false, List, [], ◌∷◌, Memᴰ, Option, none, some,
  ◌&&◌, ◌==◌, Bool-cases, if◌then◌else◌, arith, subst,
}
use roadbook.Floats.{Float}
use roadbook.Auth.{hash_token}
use roadbook.Detect.Params.{MatchParams}
use roadbook.Store.Tables.{Text}
use roadbook.Store.Keyed.{lookup, lookup_key, lookup-Mem, if_eq_then, if_eq_else}
use roadbook.Store.Runs.{CandidateRow, latest_run}
use roadbook.Store.Decisions.{Action, confirmed, dismissed, Decision, list_decisions}
use roadbook.Store.Shares.{ShareLink, link_key, resolve_share_link}
use roadbook.Api.Matching.{is_confirmed, matched_decision, matched_state_for}
use roadbook.Api.Shares.{
  Db, Target, shared_decision, shared_candidate, is_matched, for_decision, for_link, shared_target,
}

module _ {F : Type 0} ⦃fl : Float F⦄ (sha256 : List ℕ → List ℕ) (p : MatchParams F) where
  -- A live link of the token; its decision, the owner's own and confirmed; and a candidate of the
  -- owner's latest run that this decision is matched with.
  pub record IsShared (token : Text) (db : Db F) (t : Target F) : Type 0 where
    pub live : Memᴰ t.link db.links.rows
    pub hashed : t.link.token_hash ≡ hash_token sha256 token
    pub own : Memᴰ t.decision (list_decisions t.link.user_id db.decisions)
    pub named : t.decision.id ≡ t.link.decision_id
    pub kept : t.decision.action ≡ confirmed
    pub latest : Memᴰ t.candidate (latest_run t.link.user_id db.runs).1
    pub matched :
        matched_decision t.candidate.id
          (matched_state_for p t.link.user_id db.runs db.decisions).matched
        ≡ some t.decision.id

confirmed_of_test : (a : Action) → is_confirmed a ≡ true → a ≡ confirmed
confirmed_of_test confirmed e = refl
confirmed_of_test dismissed e = cc

and_true : (a b : Bool) → (a && b) ≡ true → (a ≡ true) × (b ≡ true)
and_true true b e = (refl, e)
and_true false b e = cc

module _ {F : Type 0} where
  abbrev IsNamed : ShareLink → List (Decision F) → Decision F → Type 0
  IsNamed link decs d = Memᴰ d decs × (d.id ≡ link.decision_id) × (d.action ≡ confirmed)

  step-IsNamed :
      (link : ShareLink) (all : List (Decision F)) (x : Decision F) (dec : Option (Decision F))
      {y : Decision F}
      → Memᴰ x all
      → (dec ≡ some y → IsNamed link all y)
      → (if x.id == link.decision_id && is_confirmed x.action then some x else dec) ≡ some y
      → IsNamed link all y
  step-IsNamed link all x dec {y} there so_far e =
      elim (Bool-cases (x.id == link.decision_id && is_confirmed x.action)) [
        | inl here ↦
            (let same = some-injective x y (sym (if_eq_then _ here) ∙ e) in
              let (id, action) = and_true (x.id == link.decision_id) (is_confirmed x.action) here in
              subst (λ z. IsNamed link all z) same
                (there, ground arith, confirmed_of_test x.action action))
        | inr other ↦ so_far (sym (if_eq_else _ other) ∙ e)
      ]

  shared_decision-IsNamed :
      (link : ShareLink) (all decs : List (Decision F)) (dec : Option (Decision F)) {d : Decision F}
      → ((x : Decision F) → Memᴰ x decs → Memᴰ x all)
      → ((x : Decision F) → dec ≡ some x → IsNamed link all x)
      → shared_decision link decs dec ≡ some d
      → IsNamed link all d
  unfolding shared_decision
  shared_decision-IsNamed link all [] dec inside so_far e = so_far _ e
  shared_decision-IsNamed link all (x ∷ decs) dec {d} inside so_far e =
      shared_decision-IsNamed link all decs
        (if x.id == link.decision_id && is_confirmed x.action then some x else dec)
        (λ y m. inside y (Memᴰ.tail m))
        (λ y. step-IsNamed link all x dec (inside x (Memᴰ.head refl)) (so_far y)) e

  matched_test : (dec : Decision F) (o : Option ℕ) → is_matched dec o ≡ true → o ≡ some dec.id
  matched_test dec none e = cc
  matched_test dec (some id) e = ap some (ground arith)

  shared_candidate-Mem :
      (link : ShareLink) (dec : Decision F) (matched : List (ℕ × ℕ)) (cands : List (CandidateRow F))
      {t : Target F}
      → shared_candidate link dec matched cands ≡ some t
      → (c : CandidateRow F) × (record { link = link; candidate = c; decision = dec } ≡ t)
        × Memᴰ c cands
        × (matched_decision c.id matched ≡ some dec.id)
  unfolding shared_candidate
  shared_candidate-Mem link dec matched [] e = cc
  shared_candidate-Mem link dec matched (c ∷ cands) {t} e =
      elim (Bool-cases (is_matched dec (matched_decision c.id matched))) [
        | inl here ↦ (
          c,
          some-injective (record { link = link; candidate = c; decision = dec }) t
              (sym (if_eq_then _ here) ∙ e),
          Memᴰ.head refl,
          matched_test dec (matched_decision c.id matched) here,
        )
        | inr other ↦
            (let (c', same, m, k) =
                shared_candidate-Mem link dec matched cands (sym (if_eq_else _ other) ∙ e) in
              (c', same, Memᴰ.tail m, k))
      ]

module _ {F : Type 0} ⦃fl : Float F⦄ (sha256 : List ℕ → List ℕ) (p : MatchParams F) where
  for_decision-IsShared :
      (token : Text) (db : Db F) (link : ShareLink) (o : Option (Decision F)) {t : Target F}
      → Memᴰ link db.links.rows
      → link.token_hash ≡ hash_token sha256 token
      → ((d : Decision F) → o ≡ some d → IsNamed link (list_decisions link.user_id db.decisions) d)
      → for_decision link (matched_state_for p link.user_id db.runs db.decisions) o ≡ some t
      → IsShared sha256 p token db t
  unfolding matched_state_for
  for_decision-IsShared token db link none live hashed named e = cc
  for_decision-IsShared token db link (some d) {t} live hashed named e =
      let (own, id, action) = named d refl in
      let s = matched_state_for p link.user_id db.runs db.decisions in
      let (c, same, latest, matched) = shared_candidate-Mem link d s.matched s.candidates e in
      subst (λ t. IsShared sha256 p token db t) same
        (record {
          live = live;
          hashed = hashed;
          own = own;
          named = id;
          kept = action;
          latest = latest;
          matched = matched;
        })

  for_link-IsShared :
      (token : Text) (db : Db F) (o : Option ShareLink) {t : Target F}
      → lookup link_key (hash_token sha256 token) db.links.rows ≡ o
      → for_link sha256 p db o ≡ some t
      → IsShared sha256 p token db t
  unfolding matched_state_for
  for_link-IsShared token db none found e = cc
  for_link-IsShared token db (some link) found e =
      let decs = list_decisions link.user_id db.decisions in
      for_decision-IsShared token db link (shared_decision link decs none)
        (lookup-Mem link_key (hash_token sha256 token) db.links.rows found)
        (lookup_key link_key (hash_token sha256 token) db.links.rows found)
        (λ d. shared_decision-IsNamed link decs decs none (λ x m. m) (λ x none_so_far. cc)) e

  pub shared_target-IsShared :
      (token : Text) (db : Db F) {t : Target F}
      → shared_target sha256 p token db ≡ some t
      → IsShared sha256 p token db t
  unfolding shared_target resolve_share_link
  shared_target-IsShared token db e = for_link-IsShared token db _ refl e
