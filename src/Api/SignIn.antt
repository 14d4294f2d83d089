-- ===== src/Api/SignIn.antt =====
-- internal/api/auth.go: the middleware that turns a session cookie into a user, and the handlers of
-- sign-in and sign-out. SHA-256 and the provider are parameters, random bytes and the time arguments; a
-- failure of the database is not modelled.
pub mod Lifetime
use Prim.Native.String.{String}
use text.Mathlib.Text.{◌==◌ as str_eq}
use roadbook.Prelude.{
  ℕ, ◌+◌, Bool, true, false, not, ◌||◌, ◌&&◌, List, [], ◌∷◌, Option, none, some, if◌then◌else◌,
}
use roadbook.Times.{Time}
use roadbook.Auth.{
  hash_token, new_session_token, session_ttl, is_empty, Provider, Identity, SignInError,
  SignInVerdict, rejected, verified, complete_sign_in,
}
use roadbook.Store.Tables.{Text, User, Session}
use roadbook.Store.Users.{Admitted, admitted, cap_reached, id_taken, upsert_oidc_user}
use roadbook.Store.Sessions.{create_session, session_user, delete_session}

pub record Cookie : Type 0 where
  pub name : String
  pub value : Text

-- The server's configuration: no provider is the mode without sign-in.
pub record Server : Type 1 where
  pub auth : Option Provider
  pub user_cap : ℕ
  pub sha256 : List ℕ → List ℕ

-- The tables that the handlers change.
pub record Accounts : Type 0 where
  pub users : List User
  pub sessions : List Session

-- "self".
abbrev pub self_user : Text
self_user = 115 ∷ 101 ∷ 108 ∷ 102 ∷ []

-- The operations of the map `authExempt`.
unfoldable pub auth_exempt : String → Bool
auth_exempt op =
    str_eq op "GetHealth"
    || str_eq op "GetAuthSession"
    || str_eq op "StartSignIn"
    || str_eq op "CompleteSignIn"
    || str_eq op "SignOut"
    || str_eq op "GetSharedAdventure"
    || str_eq op "GetSharedPhotoThumbnail"
    || str_eq op "GetSharedImportPhotoThumbnail"

-- The first cookie of the name, or "".
unfoldable pub cookie_value : String → List Cookie → Text
cookie_value name [] = []
cookie_value name (c ∷ cookies) =
    let rest = cookie_value name cookies in if str_eq c.name name then c.value else rest

abbrev pub session_cookie : String
session_cookie = "roadbook_session"

abbrev pub state_cookie : String
state_cookie = "roadbook_auth_state"

-- `currentUser`, from the user in the context.
abbrev pub current_user : Option Text → Text
current_user none = self_user
current_user (some u) = u

-- The user that the middleware puts in the context, if any.
unfoldable pub context_user : Server → Time → List Cookie → Accounts → Option Text
unfolding cookie_value
context_user s now cookies a =
    let raw = cookie_value session_cookie cookies in
    if is_empty raw then none else session_user now (hash_token s.sha256 raw) a.sessions

-- A response: 401, or that of the handler.
pub data Served {ℓ} (A : Type ℓ) : Type ℓ where
  unauthorized : Served A
  served : A → Served A

abbrev pub admit_user {ℓ} : {A : Type ℓ} → String → (Option Text → A) → Option Text → Served A
admit_user op handler (some u) = served (handler (some u))
admit_user op handler none = if auth_exempt op then served (handler none) else unauthorized

abbrev pub guard {ℓ} :
    {A : Type ℓ} → Option Provider → String → (Option Text → A) → Option Text → Served A
guard none op handler user = served (handler none)
guard (some p) op handler user = admit_user op handler user

unfoldable pub auth_middleware {ℓ} :
    {A : Type ℓ} → Server → String → Time → List Cookie → Accounts → (Option Text → A) → Served A
unfolding context_user
auth_middleware s op now cookies a handler = guard s.auth op handler (context_user s now cookies a)

-- The responses of `CompleteSignIn`; a redirect home carries the raw token in the session cookie.
pub data SignInResponse : Type 0 where
  no_sign_in provider_error full server_error : SignInResponse
  bad_request : SignInError → SignInResponse
  signed_in : Text → SignInResponse

abbrev pub on_created : Accounts → Text → Option (List Session) → Accounts × SignInResponse
on_created a raw none = (a, server_error)
on_created a raw (some sessions) = (record a { sessions = sessions }, signed_in raw)

module _ (s : Server) (new_id : Text) (random : List ℕ) (now : Time) where
  abbrev pub on_admitted : Accounts → Admitted → Accounts × SignInResponse
  on_admitted a cap_reached = (a, full)
  on_admitted a id_taken = (a, server_error)
  on_admitted a (admitted id) =
      let (raw, hash) = new_session_token s.sha256 random in
      on_created a raw (
        create_session a.users hash id (record now { instant = now.instant + session_ttl })
          a.sessions)

  abbrev pub on_verdict : Accounts → SignInVerdict → Accounts × SignInResponse
  on_verdict a (rejected e) = (a, bad_request e)
  on_verdict a (verified ident) =
      let (users, admission) =
        upsert_oidc_user new_id ident.subject ident.email s.user_cap a.users in
      on_admitted (record a { users = users }) admission

  abbrev pub on_callback :
      Text → Text → Text → Text → Accounts → Option Provider → Accounts × SignInResponse
  on_callback error code state cookie a none = (a, no_sign_in)
  on_callback error code state cookie a (some p) =
      if not (is_empty error)
      then (a, provider_error)
      else on_verdict a (complete_sign_in p code state cookie)

  -- `CompleteSignIn`, from the parameters `error`, `code` and `state` of the callback, "" if absent.
  unfoldable pub complete_sign_in_handler :
      Text → Text → Text → List Cookie → Accounts → Accounts × SignInResponse
  unfolding cookie_value complete_sign_in
  complete_sign_in_handler error code state cookies a =
      on_callback error code state (cookie_value state_cookie cookies) a s.auth

abbrev pub forget : Server → Text → Accounts → Option Provider → Accounts
forget s raw a none = a
forget s raw a (some p) =
    if is_empty raw
    then a
    else record a { sessions = delete_session (hash_token s.sha256 raw) a.sessions }

-- `SignOut`; the session cookie is cleared in any case.
unfoldable pub sign_out : Server → List Cookie → Accounts → Accounts
unfolding cookie_value
sign_out s cookies a = forget s (cookie_value session_cookie cookies) a s.auth
