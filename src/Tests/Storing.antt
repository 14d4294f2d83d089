-- ===== src/Tests/Storing.antt =====
-- The theorems about the tables of the store at small tables.
use roadbook.Prelude.{◌≤◌, ◌≡◌, refl, List, [], ◌∷◌, none, some, arith}
use roadbook.Times.{Time}
use roadbook.Store.Tables.{Text, User}
use roadbook.Store.Keyed.{IsDistinct, has, lookup}
use roadbook.Photo.Bytes.{same_bytes}
use roadbook.Store.Users.{admitted, cap_reached, count_oidc, upsert_oidc_user}
use roadbook.Store.Users.Admission.{
  IsAdmission, upsert_oidc_user-IsAdmission, sign_ins, sign_ins-bound,
}
use roadbook.Store.Sessions.{
  user_key, create_session, session_user, delete_session, delete_expired_sessions,
}
use roadbook.Store.Sessions.Refine.{
  create, ask, revoke, sweep, done, refused, user_is, book_of, Call, table_call, table_answers,
  book_answers, answers_refine,
}
use roadbook.Tests.Samples.{hour}

abbrev pub user_1 : User
user_1 = record { id = 1 ∷ []; oidc_subject = some (11 ∷ []); email = none }

-- The owner of an instance without sign-in, who does not count.
abbrev pub self : User
self = record { id = 9 ∷ []; oidc_subject = none; email = none }

abbrev pub users : List User
users = self ∷ user_1 ∷ []

newcomer_refused : upsert_oidc_user (2 ∷ []) (12 ∷ []) [] 1 users ≡ (users, cap_reached)
unfolding upsert_oidc_user same_bytes
newcomer_refused = refl

newcomer_admitted : (upsert_oidc_user (2 ∷ []) (12 ∷ []) [] 2 users).1 ≡ admitted (2 ∷ [])
unfolding upsert_oidc_user same_bytes
newcomer_admitted = refl

upsert_oidc_user-IsAdmission_example :
    IsAdmission (2 ∷ []) (12 ∷ []) 2 users (upsert_oidc_user (2 ∷ []) (12 ∷ []) [] 2 users)
upsert_oidc_user-IsAdmission_example = upsert_oidc_user-IsAdmission (2 ∷ []) (12 ∷ []) [] 2 users

one_account : count_oidc users ≡ 1
unfolding count_oidc
one_account = refl

-- Three sign-ins for two seats, one of them taken.
abbrev visits : List (Text × Text × Text)
visits = (2 ∷ [], 12 ∷ [], []) ∷ (3 ∷ [], 11 ∷ [], []) ∷ (4 ∷ [], 13 ∷ [], []) ∷ []

sign_ins-bound_example : count_oidc (sign_ins 2 users visits) ≤ 2
sign_ins-bound_example = sign_ins-bound 2 users visits (omega arith) (omega (arith, one_account))

abbrev calls : List (Time × Call)
calls =
    (hour 1, create (7 ∷ []) (1 ∷ []) (hour 3))
    ∷ (hour 1, create (7 ∷ []) (9 ∷ []) (hour 5))
    ∷ (hour 2, ask (7 ∷ []))
    ∷ (hour 3, ask (7 ∷ []))
    ∷ (hour 4, sweep)
    ∷ (hour 4, create (7 ∷ []) (9 ∷ []) (hour 9))
    ∷ (hour 5, revoke (7 ∷ []))
    ∷ (hour 6, ask (7 ∷ []))
    ∷ []

answers :
    table_answers users calls []
    ≡ done
      ∷ refused
      ∷ user_is (some (1 ∷ []))
      ∷ user_is none
      ∷ done
      ∷ done
      ∷ done
      ∷ user_is none
      ∷ []
unfolding table_answers table_call create_session session_user has lookup same_bytes delete_session
    delete_expired_sessions
answers = refl

answers_refine_example :
    table_answers users calls [] ≡ book_answers (λ u. has user_key u users) calls (book_of [])
unfolding IsDistinct
answers_refine_example = answers_refine users calls [] tt
