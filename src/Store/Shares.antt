-- ===== src/Store/Shares.antt =====
-- internal/store/shares.go: share links. A link is created for a decision of the caller alone, and its
-- token hash is unique.
use roadbook.Prelude.{
  ℕ, suc, Bool, false, not, List, [], ◌∷◌, ◌++◌, Option, ◌&&◌, ◌||◌, ◌==◌, keep, length,
  if◌then◌else◌,
}
use roadbook.Photo.Bytes.{same_bytes}
use roadbook.Times.{Time}
use roadbook.Store.Tables.{Text}
use roadbook.Store.Keyed.{lookup, has}
use roadbook.Store.Decisions.{Decision, Decisions, list_decisions}

pub record ShareLink : Type 0 where
  pub id : ℕ
  pub user_id : Text
  pub decision_id : ℕ
  pub token_hash : Text
  pub created_at : Time

pub record ShareLinks : Type 0 where
  pub rows : List ShareLink
  pub next : ℕ

-- `not_owned` is ErrNotOwned, `duplicate` a hash that is there already.
pub data Created : Type 0 where
  not_owned duplicate : Created
  created : ShareLink → Created

abbrev pub link_key : ShareLink → Text
link_key l = l.token_hash

unfoldable pub has_decision : {F : Type 0} → ℕ → List (Decision F) → Bool
has_decision id [] = false
has_decision id (d ∷ decisions) = d.id == id || has_decision id decisions

unfoldable pub create_share_link :
    {F : Type 0} → Decisions F → Text → ℕ → Text → Time → ShareLinks → ShareLinks × Created
unfolding list_decisions has_decision
create_share_link decisions user_id decision_id token_hash now db =
    if not (has_decision decision_id (list_decisions user_id decisions))
    then (db, not_owned)
    else if has link_key token_hash db.rows
    then (db, duplicate)
    else (let link : ShareLink = record {
      id = db.next;
      user_id = user_id;
      decision_id = decision_id;
      token_hash = token_hash;
      created_at = now;
    } in
        (record { rows = db.rows ++ (link ∷ []); next = suc db.next }, created link))

unfoldable pub list_share_links : Text → ℕ → ShareLinks → List ShareLink
list_share_links user_id decision_id db =
    keep (λ l. same_bytes l.user_id user_id && l.decision_id == decision_id) db.rows

abbrev pub is_link : Text → ℕ → ShareLink → Bool
is_link user_id id l = l.id == id && same_bytes l.user_id user_id

-- With the test that a row went.
unfoldable pub delete_share_link : Text → ℕ → ShareLinks → ShareLinks × Bool
delete_share_link user_id id db = (
  record db { rows = keep (λ l. not (is_link user_id id l)) db.rows },
  length (keep (is_link user_id id) db.rows) == 1,
)

unfoldable pub resolve_share_link : Text → ShareLinks → Option ShareLink
resolve_share_link token_hash db = lookup link_key token_hash db.rows
