-- ===== src/Store/Sessions/Refine.antt =====
-- About the table of sessions: it is a map from token hashes to users and expiries.
use roadbook.Prelude.{
  keep, ◌≡◌, refl, sym, ap, inl, inr, Bool, true, false, not, ◌&&◌, List, [], ◌∷◌, ◌++◌, Option,
  none, some, Bool-cases, if◌then◌else◌, arith,
}
use roadbook.Photo.Bytes.{same_bytes}
use roadbook.Photo.Bytes.Cuts.{same_bytes→eq}
use roadbook.Times.{Time, after}
use roadbook.Store.Tables.{Text, User, Session}
use roadbook.Store.Keyed.{
  lookup_absent, lookup, has, where_row, IsDistinct, lookup-append, lookup-keep, lookup_key,
  or_row-none, same_bytes_comm, keep-IsDistinct, append-IsDistinct,
}
use roadbook.Store.Sessions.{
  session_key, user_key, user_of, is_live, create_session, session_user, delete_session,
  delete_expired_sessions,
}

-- The contract: at most one user and expiry for each token hash.
pub record Grant : Type 0 where
  pub user : Text
  pub expiry : Time

abbrev pub Book : Type 0
Book = Text → Option Grant

pub data Call : Type 0 where
  create : Text → Text → Time → Call
  ask : Text → Call
  revoke : Text → Call
  sweep : Call

-- What a caller is told.
pub data Told : Type 0 where
  done : Told
  refused : Told
  user_is : Option Text → Told

abbrev unexpired : Time → Option Grant → Option Text
unexpired now none = none
unexpired now (some g) = if after g.expiry now then some g.user else none

abbrev current : Time → Option Grant → Option Grant
current now none = none
current now (some g) = if after g.expiry now then some g else none

abbrev entered : Bool → Text → Grant → Book → Book × Told
entered true h g book = ((λ k. if same_bytes h k then some g else book k), done)
entered false h g book = (book, refused)

abbrev is_none {ℓ} : {A : Type ℓ} → Option A → Bool
is_none none = true
is_none (some x) = false

-- The map's side of a call.
unfoldable pub book_call : (Text → Bool) → Time → Call → Book → Book × Told
book_call is_user now (create h user expiry) book =
    entered (is_user user && is_none (book h)) h (record { user = user; expiry = expiry }) book
book_call is_user now (ask h) book = (book, user_is (unexpired now (book h)))
book_call is_user now (revoke h) book = ((λ k. if same_bytes h k then none else book k), done)
book_call is_user now sweep book = ((λ k. current now (book k)), done)

abbrev created : Option (List Session) → List Session → List Session × Told
created none sessions = (sessions, refused)
created (some more) sessions = (more, done)

-- The table's side of a call.
unfoldable pub table_call : List User → Time → Call → List Session → List Session × Told
table_call users now (create h user expiry) sessions =
    created (create_session users h user expiry sessions) sessions
table_call users now (ask h) sessions = (sessions, user_is (session_user now h sessions))
table_call users now (revoke h) sessions = (delete_session h sessions, done)
table_call users now sweep sessions = ((delete_expired_sessions now sessions).0, done)

abbrev grant_of : Option Session → Option Grant
grant_of none = none
grant_of (some s) = some (record { user = s.user_id; expiry = s.expires_at })

-- The map that a table stands for.
abbrev pub book_of : List Session → Book
book_of sessions h = grant_of (lookup session_key h sessions)

table_call-IsDistinct :
    (users : List User) (now : Time) (call : Call) (sessions : List Session)
    → IsDistinct session_key sessions
    → IsDistinct session_key (table_call users now call sessions).0
unfolding table_call create_session delete_session delete_expired_sessions
table_call-IsDistinct users now (create h user expiry) sessions d =
    elim (Bool-cases (has user_key user users && not (has session_key h sessions))) [
      | inl e ↦ rw e (append-IsDistinct session_key _ sessions (ground arith) d)
      | inr e ↦ rw e d
    ]
table_call-IsDistinct users now (ask h) sessions d = d
table_call-IsDistinct users now (revoke h) sessions d = keep-IsDistinct session_key _ sessions d
table_call-IsDistinct users now sweep sessions d = keep-IsDistinct session_key _ sessions d

is_none-lookup :
    (h : Text) (sessions : List Session)
    → is_none (grant_of (lookup session_key h sessions)) ≡ not (has session_key h sessions)
unfolding lookup has
is_none-lookup h [] = refl
is_none-lookup h (s ∷ sessions) = elim (Bool-cases (same_bytes s.token_hash h)) [
  | inl e ↦ rw e refl
  | inr e ↦ rw e (is_none-lookup h sessions)
]

current-where_row :
    (now : Time) (s : Option Session)
    → grant_of (where_row (is_live now) s) ≡ current now (grant_of s)
current-where_row now none = refl
current-where_row now (some s) = elim (Bool-cases (is_live now s)) [
  | inl e ↦ rw e refl
  | inr e ↦ rw e refl
]

user_of-where_row :
    (now : Time) (s : Option Session)
    → user_of (where_row (is_live now) s) ≡ unexpired now (grant_of s)
user_of-where_row now none = refl
user_of-where_row now (some s) = elim (Bool-cases (is_live now s)) [
  | inl e ↦ rw e refl
  | inr e ↦ rw e refl
]

book_of-create :
    (g : Session) (sessions : List Session)
    → lookup session_key g.token_hash sessions ≡ none
    → (k : Text)
    → book_of (sessions ++ (g ∷ [])) k
      ≡ (if same_bytes g.token_hash k then grant_of (some g) else book_of sessions k)
unfolding lookup
book_of-create g sessions absent k = elim (Bool-cases (same_bytes g.token_hash k)) [
  | inl e ↦
      rw
        (
          lookup-append session_key k sessions (g ∷ []),
          e,
          sym (same_bytes→eq g.token_hash k e),
          absent,
        )
        refl
  | inr e ↦
      rw (lookup-append session_key k sessions (g ∷ []), e)
        (ap grant_of (or_row-none (lookup session_key k sessions)))
]

revoke_row :
    (h k : Text) (o : Option Session)
    → ((s : Session) → o ≡ some s → s.token_hash ≡ k)
    → grant_of (where_row (λ s. not (same_bytes s.token_hash h)) o)
      ≡ (if same_bytes h k then none else grant_of o)
revoke_row h k none keyed = elim (Bool-cases (same_bytes h k)) [
  | inl e ↦ rw e refl
  | inr e ↦ rw e refl
]
revoke_row h k (some s) keyed =
    rw (keyed s refl, same_bytes_comm h k)
      (elim (Bool-cases (same_bytes k h)) [ inl e ↦ rw e refl | inr e ↦ rw e refl ])

book_of-revoke :
    (h : Text) (sessions : List Session)
    → IsDistinct session_key sessions
    → (k : Text)
    → book_of (delete_session h sessions) k ≡ (if same_bytes h k then none else book_of sessions k)
unfolding delete_session
book_of-revoke h sessions d k =
    rw (lookup-keep session_key k (λ s. not (same_bytes s.token_hash h)) sessions d)
      (revoke_row h k (lookup session_key k sessions) (λ s. lookup_key session_key k sessions))

book_of-sweep :
    (now : Time) (sessions : List Session)
    → IsDistinct session_key sessions
    → (k : Text) → book_of (keep (is_live now) sessions) k ≡ current now (book_of sessions k)
book_of-sweep now sessions d k =
    rw (lookup-keep session_key k (is_live now) sessions d)
      (current-where_row now (lookup session_key k sessions))

call_refines :
    (users : List User) (now : Time) (call : Call) (sessions : List Session)
    → IsDistinct session_key sessions
    → let (table, answer) = table_call users now call sessions in
      (book_of table, answer) ≡ book_call (λ u. has user_key u users) now call (book_of sessions)
unfolding table_call book_call create_session session_user delete_expired_sessions
call_refines users now (create h user expiry) sessions d =
    rw (is_none-lookup h sessions)
      (elim (Bool-cases (has user_key user users && not (has session_key h sessions))) [
        | inl e ↦ rw e (λ i. (
          (λ k.
              book_of-create (record { token_hash = h; user_id = user; expires_at = expiry })
                sessions (lookup_absent session_key h sessions (ground arith)) k i),
          done,
        ))
        | inr e ↦ rw e refl
      ])
call_refines users now (ask h) sessions d =
    ap (λ u. (book_of sessions, user_is u)) (user_of-where_row now (lookup session_key h sessions))
call_refines users now (revoke h) sessions d = λ i. ((λ k. book_of-revoke h sessions d k i), done)
call_refines users now sweep sessions d = λ i. ((λ k. book_of-sweep now sessions d k i), done)

-- The answers to a history of calls, each at its time.
unfoldable pub table_answers : List User → List (Time × Call) → List Session → List Told
table_answers users [] sessions = []
table_answers users ((now, call) ∷ calls) sessions =
    let (table, answer) = table_call users now call sessions in
    answer ∷ table_answers users calls table

unfoldable pub book_answers : (Text → Bool) → List (Time × Call) → Book → List Told
book_answers is_user [] book = []
book_answers is_user ((now, call) ∷ calls) book =
    let (book', answer) = book_call is_user now call book in
    answer ∷ book_answers is_user calls book'

-- A history of calls is answered as a map from token hashes to grants answers it.
pub answers_refine :
    (users : List User) (calls : List (Time × Call)) (sessions : List Session)
    → IsDistinct session_key sessions
    → table_answers users calls sessions
      ≡ book_answers (λ u. has user_key u users) calls (book_of sessions)
unfolding table_answers book_answers
answers_refine users [] sessions d = refl
answers_refine users ((now, call) ∷ calls) sessions d =
    rw (sym (call_refines users now call sessions d)) (
      ap (λ l. (table_call users now call sessions).1 ∷ l)
        (answers_refine users calls (table_call users now call sessions).0
          (table_call-IsDistinct users now call sessions d)))
