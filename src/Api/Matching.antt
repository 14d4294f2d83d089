-- ===== src/Api/Matching.antt =====
-- internal/api/server.go: the association of the latest run's candidates with the decisions, which
-- every handler computes anew, and `confirmedDecisionFor` of photos.go.
use roadbook.Prelude.{
  ℕ, Bool, true, false, List, [], ◌∷◌, Option, none, some, map, ◌&&◌, ◌==◌, if◌then◌else◌,
}
use roadbook.Floats.{Float}
use roadbook.Detect.Params.{MatchParams}
use roadbook.Detect.Match.{SpanRef, Anchor, match_decisions}
use roadbook.Store.Tables.{Text}
use roadbook.Store.Runs.{Run, CandidateRow, Runs, latest_run}
use roadbook.Store.Decisions.{Action, confirmed, dismissed, Decision, Decisions, list_decisions}

abbrev pub is_confirmed : Action → Bool
is_confirmed confirmed = true
is_confirmed dismissed = false

-- `matched[id]`.
unfoldable pub matched_decision : ℕ → List (ℕ × ℕ) → Option ℕ
matched_decision id [] = none
matched_decision id ((k, v) ∷ matched) =
    let rest = matched_decision id matched in if k == id then some v else rest

module _ {F : Type 0} where
  abbrev pub span_ref : CandidateRow F → SpanRef F
  span_ref c = record {
    id = c.id;
    start = c.candidate.start;
    end = c.candidate.end;
    dest = c.candidate.dest;
  }

  abbrev pub anchor : Decision F → Anchor F
  anchor d = record {
    id = d.id;
    start = d.anchor_start;
    end = d.anchor_end;
    dest = d.anchor_dest;
    created_at = d.created_at;
  }

pub record MatchedState (F : Type 0) : Type 0 where
  pub run : Option Run
  pub candidates : List (CandidateRow F)
  pub decisions : List (Decision F)
  pub matched : List (ℕ × ℕ)

module _ {F : Type 0} ⦃fl : Float F⦄ where
  unfoldable pub matched_state_for : MatchParams F → Text → Runs F → Decisions F → MatchedState F
  unfolding latest_run list_decisions match_decisions
  matched_state_for p user runs decisions =
      let (run, cands) = latest_run user runs in
      let decs = list_decisions user decisions in
      record {
        run = run;
        candidates = cands;
        decisions = decs;
        matched = match_decisions (map span_ref cands) (map anchor decs) p;
      }

  abbrev pub find_confirmed : List (Decision F) → ℕ → Option (Decision F)
  find_confirmed [] id = none
  find_confirmed (d ∷ decs) id =
      let rest = find_confirmed decs id in
      if d.id == id && is_confirmed d.action then some d else rest

  abbrev pub confirmed_of : List (Decision F) → Option ℕ → Option (Decision F)
  confirmed_of decs none = none
  confirmed_of decs (some id) = find_confirmed decs id

  unfoldable pub confirmed_decision_for :
      MatchParams F → Text → ℕ → Runs F → Decisions F → Option (Decision F)
  unfolding matched_state_for matched_decision
  confirmed_decision_for p user cand_id runs decisions =
      let s = matched_state_for p user runs decisions in
      confirmed_of s.decisions (matched_decision cand_id s.matched)
