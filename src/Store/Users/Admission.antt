-- ===== src/Store/Users/Admission.antt =====
-- About `upsert_oidc_user`: who is admitted, and the number of accounts.
use roadbook.Prelude.{
  Option-cases, if◌then◌else◌, ℕ, ◌+◌, ◌≤◌, ◌<◌, ◌≡◌, ◌≢◌, zero, suc, sym, ◌∙◌, true, refl, ◌⊎◌,
  inl, inr, List, [], ◌∷◌, ◌++◌, map, none, some, ◌==◌, ◌||◌, ltb, Bool-cases, arith,
}
use roadbook.Photo.Bytes.Cuts.{same_bytes_refl}
use roadbook.Store.Tables.{Text, User}
use roadbook.Store.Keyed.{if_eq_then, if_eq_else}
use roadbook.Store.Users.{
  upsert, has_id, admit, upsert_oidc_user, Admitted, admitted, cap_reached, id_taken, has_subject,
  count_oidc, find_subject, refresh,
}

count_oidc-append :
    (users more : List User) → count_oidc (users ++ more) ≡ count_oidc users + count_oidc more
unfolding count_oidc
count_oidc-append [] more = omega arith
count_oidc-append (u ∷ users) more = omega (arith, count_oidc-append users more)

refresh_subject :
    (subject email : Text) (u : User) → (refresh subject email u).oidc_subject ≡ u.oidc_subject
refresh_subject subject email u = elim (Bool-cases (has_subject subject u.oidc_subject)) [
  | inl e ↦ rw e refl
  | inr e ↦ rw e refl
]

count_oidc-refresh :
    (subject email : Text) (users : List User)
    → count_oidc (map (refresh subject email) users) ≡ count_oidc users
unfolding count_oidc
count_oidc-refresh subject email [] = refl
count_oidc-refresh subject email (u ∷ users) =
    rw (refresh_subject subject email u, count_oidc-refresh subject email users) refl

find_subject-refresh :
    (other subject email : Text) (users : List User)
    → find_subject other (map (refresh subject email) users) ≡ find_subject other users
unfolding find_subject
find_subject-refresh other subject email [] = refl
find_subject-refresh other subject email (u ∷ users) =
    elim (Bool-cases (has_subject subject u.oidc_subject)) [
      | inl e ↦ rw (e, find_subject-refresh other subject email users) refl
      | inr e ↦ rw (e, find_subject-refresh other subject email users) refl
    ]

-- The four ways in which a sign-in ends: a returning subject keeps its id and the accounts; a newcomer
-- is refused when the accounts are at the cap, where nothing is written; or its new id is another row's,
-- and nothing is written; or it has a row of its own, one account more.
pub data IsAdmission (new_id subject : Text) (user_cap : ℕ) (users : List User)
    (out : List User × Admitted) : Type 0 where
  returning :
      (id : Text)
      → find_subject subject users ≡ some id
      → out.1 ≡ admitted id
      → count_oidc out.0 ≡ count_oidc users
      → ((other : Text) → find_subject other out.0 ≡ find_subject other users)
      → IsAdmission new_id subject user_cap users out
  refused :
      find_subject subject users ≡ none
      → user_cap ≢ 0
      → user_cap ≤ count_oidc users
      → out ≡ (users, cap_reached)
      → IsAdmission new_id subject user_cap users out
  taken :
      find_subject subject users ≡ none
      → has_id new_id users ≡ true
      → out ≡ (users, id_taken)
      → IsAdmission new_id subject user_cap users out
  newcomer :
      find_subject subject users ≡ none
      → (user_cap ≡ 0) ⊎ (count_oidc users < user_cap)
      → out.1 ≡ admitted new_id
      → count_oidc out.0 ≡ count_oidc users + 1
      → find_subject subject out.0 ≡ some new_id
      → IsAdmission new_id subject user_cap users out

if_open :
    {A : Type 0} (user_cap n : ℕ) (x y : A)
    → (user_cap ≡ 0) ⊎ (n < user_cap)
    → (if user_cap == 0 || ltb n user_cap then x else y) ≡ x
if_open user_cap n x y (inl e) = ground arith
if_open user_cap n x y (inr e) = ground arith

if_full :
    {A : Type 0} (user_cap n : ℕ) (x y : A)
    → user_cap ≢ 0
    → user_cap ≤ n
    → (if user_cap == 0 || ltb n user_cap then x else y) ≡ y
if_full user_cap n x y not_free full = ground arith

find_subject-append :
    (subject : Text) (users more : List User)
    → find_subject subject users ≡ none
    → find_subject subject (users ++ more) ≡ find_subject subject more
unfolding find_subject
find_subject-append subject [] more absent = refl
find_subject-append subject (u ∷ users) more absent =
    elim (Bool-cases (has_subject subject u.oidc_subject)) [
      | inl e ↦ absurd (some_ne (sym (if_eq_then _ e) ∙ absent))
      | inr e ↦ rw e (find_subject-append subject users more (sym (if_eq_else _ e) ∙ absent))
    ]
  where
    some_ne : some u.id ≡ none → ⊥
    some_ne e = cc

room_or_full :
    (user_cap n : ℕ) → ((user_cap ≡ 0) ⊎ (n < user_cap)) ⊎ ((user_cap ≢ 0) × (user_cap ≤ n))
room_or_full zero n = inl (inl refl)
room_or_full (suc c) n = elim (Bool-cases (ltb n (suc c))) [
  | inl e ↦ inl (inr (ground arith))
  | inr e ↦ inr (omega arith, ground arith)
]

admit-IsAdmission :
    (new_id subject email : Text) (user_cap : ℕ) (users : List User)
    → find_subject subject users ≡ none
    → IsAdmission new_id subject user_cap users (admit new_id subject email user_cap users)
unfolding admit has_id find_subject
admit-IsAdmission new_id subject email user_cap users absent =
    elim (room_or_full user_cap (count_oidc users)) [
      | inl room ↦
          rw (if_open user_cap (count_oidc users) _ _ room)
            (elim (Bool-cases (has_id new_id users)) [
              | inl there ↦ rw there (taken absent there refl)
              | inr free ↦ rw free (
                  newcomer absent room refl (count_oidc-append users _) (
                    rw
                      (
                        find_subject-append subject users
                            (record { id = new_id; oidc_subject = some subject; email = some email }
                              ∷ [])
                            absent,
                        same_bytes_refl subject,
                      )
                      refl))
            ])
      | inr (not_free, full) ↦
          rw (if_full user_cap (count_oidc users) _ _ not_free full)
            (refused absent not_free full refl)
    ]

-- Any sign-in ends in one of the four ways.
pub upsert_oidc_user-IsAdmission :
    (new_id subject email : Text) (user_cap : ℕ) (users : List User)
    → IsAdmission new_id subject user_cap users
        (upsert_oidc_user new_id subject email user_cap users)
unfolding upsert_oidc_user upsert
upsert_oidc_user-IsAdmission new_id subject email user_cap users =
    elim (Option-cases (find_subject subject users)) [
      | inl absent ↦ rw absent (admit-IsAdmission new_id subject email user_cap users absent)
      | inr (id, e) ↦ rw e (
          returning id e refl (count_oidc-refresh subject email users)
            (λ other. find_subject-refresh other subject email users))
    ]

-- A history of sign-ins, each with its new id, its subject and its email.
unfoldable pub sign_ins : ℕ → List User → List (Text × Text × Text) → List User
sign_ins user_cap users [] = users
sign_ins user_cap users ((new_id, subject, email) ∷ visits) =
    sign_ins user_cap (upsert_oidc_user new_id subject email user_cap users).0 visits

upsert_bound :
    (new_id subject email : Text) (user_cap : ℕ) (users : List User)
    → 0 < user_cap
    → count_oidc users ≤ user_cap
    → count_oidc (upsert_oidc_user new_id subject email user_cap users).0 ≤ user_cap
upsert_bound new_id subject email user_cap users positive below =
    elim (upsert_oidc_user-IsAdmission new_id subject email user_cap users) [
      | returning id e kept same others ↦ omega (arith, same)
      | refused e not_free full out ↦ rw out below
      | taken e there out ↦ rw out below
      | newcomer e room kept more own ↦ elim room [
        | inl free ↦ omega (arith, free)
        | inr below_cap ↦ omega (arith, more)
      ]
    ]

-- A history of sign-ins from within a cap ends within it.
pub sign_ins-bound :
    (user_cap : ℕ) (users : List User) (visits : List (Text × Text × Text))
    → 0 < user_cap
    → count_oidc users ≤ user_cap
    → count_oidc (sign_ins user_cap users visits) ≤ user_cap
unfolding sign_ins
sign_ins-bound user_cap users [] positive below = below
sign_ins-bound user_cap users ((new_id, subject, email) ∷ visits) positive below =
    sign_ins-bound user_cap (upsert_oidc_user new_id subject email user_cap users).0 visits positive
      (upsert_bound new_id subject email user_cap users positive below)
