-- ===== src/Api/Shares.antt =====
-- internal/api/shares.go: what the owner of an adventure does with its links, and what a token opens.
-- The files of the thumbnails, by content hash, are a function; the assembled journey and the placed
-- photos of a shared adventure are left to the models of those parts.
pub mod Targets
pub mod Opened
use roadbook.Prelude.{
  ℕ, Bool, true, false, not, List, [], ◌∷◌, Option, none, some, ◌&&◌, ◌||◌, ◌==◌, if◌then◌else◌,
}
use roadbook.Floats.{Float}
use roadbook.Times.{Time, before, after}
use roadbook.Auth.{hash_token, new_session_token}
use roadbook.Detect.Params.{MatchParams}
use roadbook.Store.Tables.{Text, Row}
use roadbook.Store.Runs.{CandidateRow, Runs, latest_candidate}
use roadbook.Store.Decisions.{Decision, Decisions}
use roadbook.Store.Shares.{
  ShareLink, ShareLinks, Created, created, not_owned, duplicate, create_share_link,
  delete_share_link, list_share_links, resolve_share_link,
}
use roadbook.Store.Photos.{PhotoRow, PhotoRecord, Photos, get_photo, get_photo_record}
use roadbook.Api.Matching.{
  is_confirmed, matched_decision, MatchedState, matched_state_for, confirmed_decision_for,
}

-- The tables that the handlers read and write.
pub record Db (F : Type 0) : Type 0 where
  pub runs : Runs F
  pub decisions : Decisions F
  pub links : ShareLinks
  pub photos : Photos F
  pub records : List (Row (PhotoRecord F))

pub record Target (F : Type 0) : Type 0 where
  pub link : ShareLink
  pub candidate : CandidateRow F
  pub decision : Decision F

-- A response: 404, 409, a failure of the server, or the body.
pub data Response {ℓ} (A : Type ℓ) : Type ℓ where
  not_found conflict failed : Response A
  ok : A → Response A

abbrev pub file_of {ℓ} : {A : Type ℓ} → Option A → Response A
file_of none = not_found
file_of (some file) = ok file

module _ {F : Type 0} where
  -- The last decision of the loop that is the link's and confirmed.
  unfoldable pub shared_decision :
      ShareLink → List (Decision F) → Option (Decision F) → Option (Decision F)
  shared_decision link [] dec = dec
  shared_decision link (d ∷ decs) dec =
      shared_decision link decs
        (if d.id == link.decision_id && is_confirmed d.action then some d else dec)

  abbrev pub is_matched : Decision F → Option ℕ → Bool
  is_matched dec none = false
  is_matched dec (some id) = id == dec.id

  unfoldable pub shared_candidate :
      ShareLink → Decision F → List (ℕ × ℕ) → List (CandidateRow F) → Option (Target F)
  unfolding matched_decision
  shared_candidate link dec matched [] = none
  shared_candidate link dec matched (c ∷ cands) =
      let rest = shared_candidate link dec matched cands in
      if is_matched dec (matched_decision c.id matched)
      then some (record { link = link; candidate = c; decision = dec })
      else rest

  abbrev pub for_decision : ShareLink → MatchedState F → Option (Decision F) → Option (Target F)
  for_decision link s none = none
  for_decision link s (some dec) = shared_candidate link dec s.matched s.candidates

  -- A photo of another decision is as absent as anyone else's.
  abbrev pub of_decision : Decision F → Option (PhotoRow F) → Option (PhotoRow F)
  of_decision dec none = none
  of_decision dec (some p) = if not (p.decision_id == dec.id) then none else some p

  -- A record with a thumbnail, taken in the candidate's span.
  abbrev pub in_span : CandidateRow F → Option (PhotoRecord F) → Option (PhotoRecord F)
  in_span c none = none
  in_span c (some r) =
      if r.thumb_w == 0 || before r.taken_at c.candidate.start || after r.taken_at c.candidate.end
      then none
      else some r

module _ {F : Type 0} ⦃fl : Float F⦄ (sha256 : List ℕ → List ℕ) (p : MatchParams F) where
  abbrev pub for_link : Db F → Option ShareLink → Option (Target F)
  for_link db none = none
  for_link db (some link) =
      let s = matched_state_for p link.user_id db.runs db.decisions in
      for_decision link s (shared_decision link s.decisions none)

  unfoldable pub shared_target : Text → Db F → Option (Target F)
  unfolding resolve_share_link matched_state_for shared_decision shared_candidate
  shared_target token db = for_link db (resolve_share_link (hash_token sha256 token) db.links)

  abbrev pub thumbnail_of : (Text → Option (List ℕ)) → Option (PhotoRow F) → Response (List ℕ)
  thumbnail_of read_thumb none = not_found
  thumbnail_of read_thumb (some r) = file_of (read_thumb r.content_hash)

  abbrev pub record_thumbnail :
      (Text → Option (List ℕ)) → Option (PhotoRecord F) → Response (List ℕ)
  record_thumbnail read_thumb none = not_found
  record_thumbnail read_thumb (some r) = file_of (read_thumb r.content_hash)

  abbrev pub photo_for : (Text → Option (List ℕ)) → ℕ → Db F → Option (Target F) → Response (List ℕ)
  photo_for read_thumb id db none = not_found
  photo_for read_thumb id db (some t) =
      thumbnail_of read_thumb (of_decision t.decision (get_photo t.link.user_id id db.photos))

  abbrev pub record_for :
      (Text → Option (List ℕ)) → ℕ → Db F → Option (Target F) → Response (List ℕ)
  record_for read_thumb id db none = not_found
  record_for read_thumb id db (some t) =
      record_thumbnail read_thumb
        (in_span t.candidate (get_photo_record t.link.user_id id db.records))

  unfoldable pub get_shared_photo_thumbnail :
      (Text → Option (List ℕ)) → Text → ℕ → Db F → Response (List ℕ)
  unfolding shared_target get_photo
  get_shared_photo_thumbnail read_thumb token id db =
      photo_for read_thumb id db (shared_target token db)

  unfoldable pub get_shared_import_photo_thumbnail :
      (Text → Option (List ℕ)) → Text → ℕ → Db F → Response (List ℕ)
  unfolding shared_target get_photo_record
  get_shared_import_photo_thumbnail read_thumb token id db =
      record_for read_thumb id db (shared_target token db)

  abbrev pub on_created_link :
      Text → Db F → ShareLinks × Created → Db F × Response (ShareLink × Text)
  on_created_link raw db (links, created link) = (record db { links = links }, ok (link, raw))
  on_created_link raw db (links, not_owned) = (db, failed)
  on_created_link raw db (links, duplicate) = (db, failed)

  abbrev pub for_confirmed :
      List ℕ → Text → Time → Db F → Option (Decision F) → Db F × Response (ShareLink × Text)
  for_confirmed random user now db none = (db, conflict)
  for_confirmed random user now db (some dec) =
      let (raw, hash) = new_session_token sha256 random in
      on_created_link raw db (create_share_link db.decisions user dec.id hash now db.links)

  abbrev pub for_candidate :
      List ℕ → Text → Time → Db F → Option (CandidateRow F) → Db F × Response (ShareLink × Text)
  for_candidate random user now db none = (db, not_found)
  for_candidate random user now db (some cand) =
      for_confirmed random user now db (confirmed_decision_for p user cand.id db.runs db.decisions)

  -- `CreateShareLink`, with the new link and the raw token.
  unfoldable pub create_share_link_handler :
      List ℕ → Text → ℕ → Time → Db F → Db F × Response (ShareLink × Text)
  unfolding latest_candidate confirmed_decision_for create_share_link
  create_share_link_handler random user id now db =
      for_candidate random user now db (latest_candidate user id db.runs)

  -- `RevokeShareLink`: whether it answers 204, and not 404.
  unfoldable pub revoke_share_link : Text → ℕ → Db F → Db F × Bool
  unfolding delete_share_link
  revoke_share_link user id db =
      let (links, went) = delete_share_link user id db.links in (record db { links = links }, went)
