-- ===== src/Store/Users.antt =====
-- `UpsertOIDCUser` (internal/store/sessions.go) and `EnsureUser` (users.go). The transaction holds a
-- lock, so it is one step. The new id is random and is an argument.
pub mod Admission
use roadbook.Prelude.{
  ℕ, zero, suc, ◌+◌, Bool, true, false, ◌||◌, List, [], ◌∷◌, ◌++◌, Option, none, some, ltb, ◌==◌,
  map, if◌then◌else◌,
}
use roadbook.Photo.Bytes.{same_bytes}
use roadbook.Store.Tables.{Text, User}

-- How the statement ends: with the id of the user's row, at the user_cap, or refused by the primary key.
pub data Admitted : Type 0 where
  admitted : Text → Admitted
  cap_reached : Admitted
  id_taken : Admitted

abbrev pub has_subject : Text → Option Text → Bool
has_subject subject none = false
has_subject subject (some s) = same_bytes s subject

abbrev is_oidc : Option Text → Bool
is_oidc none = false
is_oidc (some s) = true

-- `SELECT count(*) FROM users WHERE oidc_subject IS NOT NULL`.
unfoldable pub count_oidc : List User → ℕ
count_oidc [] = 0
count_oidc (u ∷ users) = (if is_oidc u.oidc_subject then 1 else 0) + count_oidc users

-- The id of the row with the subject.
unfoldable pub find_subject : Text → List User → Option Text
find_subject subject [] = none
find_subject subject (u ∷ users) =
    let rest = find_subject subject users in
    if has_subject subject u.oidc_subject then some u.id else rest

unfoldable pub has_id : Text → List User → Bool
has_id id [] = false
has_id id (u ∷ users) = same_bytes u.id id || has_id id users

-- `DO UPDATE SET email`.
abbrev refresh : Text → Text → User → User
refresh subject email u =
    if has_subject subject u.oidc_subject then record u { email = some email } else u

-- A subject without a row: admitted below the user_cap, where 0 is no user_cap.
unfoldable pub admit : Text → Text → Text → ℕ → List User → List User × Admitted
unfolding count_oidc has_id
admit new_id subject email user_cap users =
    if user_cap == 0 || ltb (count_oidc users) user_cap
    then if has_id new_id users then (users, id_taken) else (
      users ++ (record { id = new_id; oidc_subject = some subject; email = some email } ∷ []),
      admitted new_id,
    )
    else (users, cap_reached)

unfoldable pub upsert : Text → Text → Text → ℕ → List User → Option Text → List User × Admitted
unfolding admit
upsert new_id subject email user_cap users (some id) =
    (map (refresh subject email) users, admitted id)
upsert new_id subject email user_cap users none = admit new_id subject email user_cap users

unfoldable pub upsert_oidc_user : Text → Text → Text → ℕ → List User → List User × Admitted
unfolding find_subject upsert
upsert_oidc_user new_id subject email user_cap users =
    upsert new_id subject email user_cap users (find_subject subject users)

unfoldable pub ensure_user : Text → List User → List User
unfolding has_id
ensure_user id users =
    if has_id id users
    then users
    else users ++ (record { id = id; oidc_subject = none; email = none } ∷ [])
