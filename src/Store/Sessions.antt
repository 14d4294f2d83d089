-- ===== src/Store/Sessions.antt =====
-- `CreateSession`, `SessionUser`, `DeleteSession` and `DeleteExpiredSessions`
-- (internal/store/sessions.go) on the table of sessions. `now` is the clock of the database.
pub mod Refine
use roadbook.Prelude.{
  ℕ, ◌-◌, Bool, not, List, [], ◌∷◌, ◌++◌, Option, none, some, keep, length, if◌then◌else◌, ◌&&◌,
}
use roadbook.Photo.Bytes.{same_bytes}
use roadbook.Times.{Time, after}
use roadbook.Store.Tables.{Text, User, Session}
use roadbook.Store.Keyed.{lookup, has, where_row}

abbrev pub session_key : Session → Text
session_key s = s.token_hash

abbrev pub user_key : User → Text
user_key u = u.id

-- `expires_at > now()`.
abbrev pub is_live : Time → Session → Bool
is_live now s = after s.expires_at now

-- The statement is refused when the hash is there already or the user is not.
unfoldable pub create_session :
    List User → Text → Text → Time → List Session → Option (List Session)
create_session users token_hash user_id expires_at sessions =
    if has user_key user_id users && not (has session_key token_hash sessions)
    then some (
        sessions
        ++ (record { token_hash = token_hash; user_id = user_id; expires_at = expires_at } ∷ []))
    else none

abbrev pub user_of : Option Session → Option Text
user_of none = none
user_of (some s) = some s.user_id

unfoldable pub session_user : Time → Text → List Session → Option Text
session_user now token_hash sessions =
    user_of (where_row (is_live now) (lookup session_key token_hash sessions))

unfoldable pub delete_session : Text → List Session → List Session
delete_session token_hash = keep (λ s. not (same_bytes s.token_hash token_hash))

-- With the number of rows that went.
unfoldable pub delete_expired_sessions : Time → List Session → List Session × ℕ
delete_expired_sessions now sessions =
    let rest = keep (is_live now) sessions in (rest, length sessions - length rest)
