-- ===== src/Api/SignIn/Lifetime.antt =====
-- About the life of a session: from the sign-in that mints it to its expiry or the sign-out.
use Prim.Native.String.{String}
use mathlib.Core.Option.{some-injective}
use roadbook.Prelude.{
  ℕ, ◌+◌, ◌≡◌, ◌≢◌, refl, sym, ◌∙◌, ap, inl, inr, not, ◌&&◌, List, [], ◌∷◌, ◌++◌, Option, none,
  some, Bool, true, false, Bool-cases, ltb, if◌then◌else◌, arith,
}
use roadbook.Photo.Bytes.Cuts.{same_bytes_refl}
use roadbook.Times.{Time}
use roadbook.Auth.{
  hash_token, random_token, session_ttl, is_empty, Provider, Identity, SignInVerdict, rejected,
  verified, complete_sign_in,
}
use roadbook.Auth.RoundTrip.{is_empty-random_token}
use roadbook.Store.Tables.{Text, User, Session}
use roadbook.Store.Keyed.{
  lookup, has, lookup-append, lookup_absent, lookup-delete, if_eq_then, if_eq_else,
}
use roadbook.Store.Users.{Admitted, admitted, cap_reached, id_taken, upsert_oidc_user}
use roadbook.Store.Sessions.{session_key, user_key, create_session, session_user, delete_session}
use roadbook.Api.SignIn.{
  false, Cookie, Server, Accounts, session_cookie, state_cookie, cookie_value, context_user, served,
  admit_user, auth_middleware, guard, SignInResponse, signed_in, on_created, on_admitted,
  on_verdict, on_callback, complete_sign_in_handler, sign_out,
}

created_row :
    (users : List User) (h id : Text) (expiry : Time) (sessions more : List Session)
    → create_session users h id expiry sessions ≡ some more
    → (more ≡ sessions ++ (record { token_hash = h; user_id = id; expires_at = expiry } ∷ []))
      × (has session_key h sessions ≡ false)
unfolding create_session
created_row users h id expiry sessions more e =
    elim (Bool-cases (has user_key id users && not (has session_key h sessions))) [
      | inl ok ↦ (sym (some-injective _ more (sym (if_eq_then _ ok) ∙ e)), ground arith)
      | inr bad ↦ absurd (none_ne (sym (if_eq_else _ bad) ∙ e))
    ]
  where
    none_ne : none ≡ some more → ⊥
    none_ne e = cc

-- The accounts behind a sign-in: a new row with the hash of the new token, for an admitted user.
pub record IsSignedIn (s : Server) (random : List ℕ) (now : Time) (a a' : Accounts) (id raw : Text)
    : Type 0 where
  pub token : raw ≡ random_token random
  pub fresh : has session_key (hash_token s.sha256 (random_token random)) a.sessions ≡ false
  pub row :
      a'.sessions
      ≡ a.sessions
        ++ (record {
          token_hash = hash_token s.sha256 (random_token random);
          user_id = id;
          expires_at = record now { instant = now.instant + session_ttl };
        }
            ∷ [])

on_created-signed_in :
    (s : Server) (random : List ℕ) (now : Time) (a a' : Accounts) (id raw : Text)
    (o : Option (List Session))
    → create_session a.users
        (hash_token s.sha256 (random_token random))
        id
        (record now { instant = now.instant + session_ttl })
        a.sessions
      ≡ o
    → on_created a (random_token random) o ≡ (a', signed_in raw)
    → IsSignedIn s random now a a' id raw
on_created-signed_in s random now a a' id raw none made e = cc
on_created-signed_in s random now a a' id raw (some more) made e =
    let (row, fresh) =
      created_row a.users (hash_token s.sha256 (random_token random)) id
        (record now { instant = now.instant + session_ttl }) a.sessions more made in
    record {
      token = sym (ap raw_of (ap (λ x. x.1) e));
      fresh = fresh;
      row = sym (ap (λ x. x.0.sessions) e) ∙ row;
    }
  where
    raw_of : SignInResponse → Text
    raw_of (signed_in t) = t
    raw_of _ = []

module _ (s : Server) (new_id : Text) (random : List ℕ) (now : Time) where
  on_admitted-signed_in :
      (a a' : Accounts) (raw : Text) (d : Admitted)
      → on_admitted s new_id random now a d ≡ (a', signed_in raw)
      → (id : Text) × (d ≡ admitted id) × IsSignedIn s random now a a' id raw
  on_admitted-signed_in a a' raw cap_reached e = cc
  on_admitted-signed_in a a' raw id_taken e = cc
  on_admitted-signed_in a a' raw (admitted id) e =
      (id, refl, on_created-signed_in s random now a a' id raw _ refl e)

  -- The identity that was verified, and the user that it is.
  pub IsUserOf : Accounts → SignInVerdict → Text → Type 0
  IsUserOf a v id =
      (ident : Identity) × (v ≡ verified ident)
      × ((upsert_oidc_user new_id ident.subject ident.email s.user_cap a.users).1 ≡ admitted id)

  on_verdict-signed_in :
      (a a' : Accounts) (raw : Text) (v : SignInVerdict)
      → on_verdict s new_id random now a v ≡ (a', signed_in raw)
      → (id : Text) × IsUserOf a v id × IsSignedIn s random now a a' id raw
  unfolding IsUserOf
  on_verdict-signed_in a a' raw (rejected r) e = cc
  on_verdict-signed_in a a' raw (verified ident) e =
      let (users, admission) =
        upsert_oidc_user new_id ident.subject ident.email s.user_cap a.users in
      let (id, d, opened) = on_admitted-signed_in (record a { users = users }) a' raw admission e in
      (
        id,
        (ident, refl, d),
        record { token = opened.token; fresh = opened.fresh; row = opened.row },
      )

  callback-signed_in :
      (p : Provider) (error code state cookie : Text) (a a' : Accounts) (raw : Text)
      → on_callback s new_id random now error code state cookie a (some p) ≡ (a', signed_in raw)
      → (id : Text) × IsUserOf a (complete_sign_in p code state cookie) id
        × IsSignedIn s random now a a' id raw
  callback-signed_in p [] code state cookie a a' raw e =
      on_verdict-signed_in a a' raw (complete_sign_in p code state cookie) e
  callback-signed_in p (c ∷ error) code state cookie a a' raw e = cc

-- The browser's cookies behind the sign-in.
abbrev pub with_session : Text → List Cookie
with_session raw = record { name = session_cookie; value = raw } ∷ []

user_signed_in :
    {s : Server} {random : List ℕ} {now : Time} {a a' : Accounts} {id raw : Text}
    → IsSignedIn s random now a a' id raw
    → random ≢ []
    → (later : Time)
    → context_user s later (with_session raw) a'
      ≡ (if ltb later.instant (now.instant + session_ttl) then some id else none)
unfolding context_user cookie_value session_user lookup
user_signed_in {s} {random} {now} {a} {a'} {id} {raw} o some_bytes later =
    rw (o.token, is_empty-random_token random some_bytes, o.row, lookup-append session_key)
      (rw
        (
          lookup_absent session_key (hash_token s.sha256 (random_token random)) a.sessions o.fresh,
          same_bytes_refl (hash_token s.sha256 (random_token random)),
        )
        (elim (Bool-cases (ltb later.instant (now.instant + session_ttl))) [
          | inl live ↦ rw live refl
          | inr past ↦ rw past refl
        ]))

user_signed_out :
    (s : Server) (p : Provider) (raw : Text) (a : Accounts) (later : Time)
    → s.auth ≡ some p
    → context_user s later (with_session raw) (sign_out s (with_session raw) a) ≡ none
unfolding context_user cookie_value session_user sign_out delete_session
user_signed_out s p raw a later e = rw e (elim (Bool-cases (is_empty raw)) [
  | inl none_there ↦ rw none_there refl
  | inr there ↦ rw (there, lookup-delete session_key (hash_token s.sha256 raw) a.sessions) refl
])

guarded :
    {A : Type 0} (s : Server) (p : Provider) (op : String) (later : Time) (cookies : List Cookie)
    (a : Accounts) (handler : Option Text → A) {user : Option Text}
    → s.auth ≡ some p
    → context_user s later cookies a ≡ user
    → auth_middleware s op later cookies a handler ≡ admit_user op handler user
unfolding auth_middleware
guarded s p op later cookies a handler on e =
    ap (λ o. guard o op handler (context_user s later cookies a)) on ∙ ap (admit_user op handler) e

served_until :
    {A : Type 0} (live : Bool) (op : String) (handler : Option Text → A) (id : Text)
    → admit_user op handler (if live then some id else none)
      ≡ (if live then served (handler (some id)) else admit_user op handler none)
served_until true op handler id = refl
served_until false op handler id = refl

-- Behind a sign-in that succeeds, the browser's session is that of the verified user until it
-- expires, and no session from then on, or behind a sign-out.
pub complete_sign_in_handler-auth_middleware :
    {A : Type 0} (s : Server) (p : Provider) (new_id : Text) (random : List ℕ) (now : Time)
    (error code state raw : Text) (cookies : List Cookie) (a a' : Accounts)
    → s.auth ≡ some p
    → random ≢ []
    → complete_sign_in_handler s new_id random now error code state cookies a ≡ (a', signed_in raw)
    → (op : String) (later : Time) (handler : Option Text → A)
    → let browser = with_session raw in
      let expiry = now.instant + session_ttl in
      (id : Text) × IsUserOf s new_id random now a
        (complete_sign_in p code state (cookie_value state_cookie cookies))
        id
      × (auth_middleware s op later browser a' handler ≡ (
          if ltb later.instant expiry
          then served (handler (some id))
          else admit_user op handler none))
      × (auth_middleware s op later browser (sign_out s browser a') handler
          ≡ admit_user op handler none)
unfolding complete_sign_in_handler
complete_sign_in_handler-auth_middleware s p new_id random now error code state raw cookies a a' on
      some_bytes e op later handler =
    let back : on_callback s new_id random now error code state (cookie_value state_cookie cookies)
          a (some p)
        ≡ (a', signed_in raw) =
      sym (
        ap
          (λ o.
            on_callback s new_id random now error code state (cookie_value state_cookie cookies) a
              o)
          on)
      ∙ e in
    let (id, user, opened) =
      callback-signed_in s new_id random now p error code state (cookie_value state_cookie cookies)
        a a' raw back in
    (
      id,
      user,
      guarded s p op later (with_session raw) a' handler on (user_signed_in opened some_bytes later)
          ∙ served_until (ltb later.instant (now.instant + session_ttl)) op handler id,
      guarded s p op later (with_session raw) (sign_out s (with_session raw) a') handler on
          (user_signed_out s p raw a' later on),
    )
