-- ===== src/Tests/Admitting.antt =====
-- The theorems about sign-in at a small server.
use roadbook.Prelude.{
  ◌+◌, ◌≡◌, ◌↔◌, ◌≢◌, refl, List, [], ◌∷◌, Option, none, some, ltb, if◌then◌else◌,
}
use roadbook.Photo.Bytes.{same_bytes}
use roadbook.Auth.{
  Provider, hex_encode, random_token, session_ttl, begin_sign_in, verified, complete_sign_in,
}
use roadbook.Auth.RoundTrip.{IsAnswer, complete_sign_in-begin_sign_in}
use roadbook.Store.Tables.{Text}
use roadbook.Store.Users.{upsert_oidc_user}
use roadbook.Store.Sessions.{create_session}
use roadbook.Store.Keyed.{has}
use roadbook.Api.SignIn.{
  Server, Cookie, Accounts, signed_in, cookie_value, state_cookie, complete_sign_in_handler, served,
  admit_user, auth_middleware, sign_out,
}
use roadbook.Api.SignIn.Lifetime.{IsUserOf, with_session, complete_sign_in_handler-auth_middleware}
use roadbook.Tests.Samples.{hour}
use roadbook.Tests.Storing.{users}

abbrev code : Text
code = 11 ∷ []

-- The provider's response to a code is the code; its token has a nonce of one random byte 2.
abbrev provider : Provider
provider = record {
  Token = Text;
  exchange = λ code. some code;
  id_token = λ code. some code;
  verify = λ raw. some (record { subject = raw; nonce = 48 ∷ 50 ∷ []; email = some [] });
}

complete_sign_in-begin_sign_in_example :
    let (own_state, nonce, cookie) = begin_sign_in (1 ∷ []) (2 ∷ []) in
    (complete_sign_in provider code own_state cookie
      ≡ verified (record { subject = 11 ∷ []; email = [] }))
    ↔ ((own_state ≡ own_state)
        × (code ≢ [])
        × IsAnswer provider code nonce (record { subject = 11 ∷ []; email = [] }))
complete_sign_in-begin_sign_in_example =
    complete_sign_in-begin_sign_in provider (1 ∷ []) (2 ∷ []) code (random_token (1 ∷ []))
      (record { subject = 11 ∷ []; email = [] }) (λ e. cc)

abbrev server : Server
server = record { auth = some provider; user_cap = 1; sha256 = λ bytes. bytes }

abbrev accounts : Accounts
accounts = record { users = users; sessions = [] }

abbrev cookies : List Cookie
cookies = record { name = "roadbook_auth_state"; value = (begin_sign_in (1 ∷ []) (2 ∷ [])).2 } ∷ []

abbrev behind : Accounts
behind =
    (complete_sign_in_handler server (2 ∷ []) (7 ∷ []) (hour 1) [] (11 ∷ []) (48 ∷ 49 ∷ []) cookies
      accounts).0

signs_in :
    complete_sign_in_handler server
      (2 ∷ [])
      (7 ∷ [])
      (hour 1)
      []
      (11 ∷ [])
      (48 ∷ 49 ∷ [])
      cookies
      accounts
    ≡ (behind, signed_in (48 ∷ 55 ∷ []))
unfolding complete_sign_in_handler hex_encode same_bytes upsert_oidc_user create_session has
signs_in = refl

-- What a handler sees of the user.
abbrev seen_as : Option Text → Option Text
seen_as user = user

complete_sign_in_handler-auth_middleware_example :
    let browser = with_session (48 ∷ 55 ∷ []) in
    let expiry = (hour 1).instant + session_ttl in
    (id : Text) × IsUserOf server
      (2 ∷ [])
      (7 ∷ [])
      (hour 1)
      accounts
      (complete_sign_in provider (11 ∷ []) (48 ∷ 49 ∷ []) (cookie_value state_cookie cookies))
      id
    × (auth_middleware server "ListImports" (hour 2) browser behind seen_as ≡ (
        if ltb (hour 2).instant expiry
        then served (seen_as (some id))
        else admit_user "ListImports" seen_as none))
    × (auth_middleware server "ListImports"
          (hour 2)
          browser
          (sign_out server browser behind)
          seen_as
        ≡ admit_user "ListImports" seen_as none)
complete_sign_in_handler-auth_middleware_example =
    complete_sign_in_handler-auth_middleware server provider (2 ∷ []) (7 ∷ []) (hour 1) [] (11 ∷ [])
      (48 ∷ 49 ∷ []) (48 ∷ 55 ∷ []) cookies accounts behind refl (λ e. cc) signs_in "ListImports"
      (hour 2) seen_as
