-- ===== src/Store/Tables.antt =====
-- The tables behind internal/store, as lists of rows in the order of insertion. Texts are bytes. Each
-- method of the store is one step on the tables; a failure of the database itself (a lost connection)
-- is not modelled, and a refused statement or a transaction that is rolled back leaves the tables as
-- they were.
use roadbook.Prelude.{ℕ, Bool, List, [], ◌∷◌, Option, if◌then◌else◌}
use roadbook.Times.{Time}
use roadbook.Photo.Bytes.{same_bytes}

abbrev pub Text : Type 0
Text = List ℕ

-- A row with its owner, the column `user_id`.
pub record Row {ℓ} (A : Type ℓ) : Type ℓ where
  pub user : Text
  pub value : A

abbrev pub is_of {ℓ} : {A : Type ℓ} → Text → Row A → Bool
is_of user r = same_bytes r.user user

pub record User : Type 0 where
  pub id : Text
  pub oidc_subject : Option Text
  pub email : Option Text

pub record Session : Type 0 where
  pub token_hash : Text
  pub user_id : Text
  pub expires_at : Time

-- `WHERE user_id = user`, in the order of the ids.
abbrev pub owned_by {ℓ} : {A : Type ℓ} → Text → List (Row A) → List A
owned_by user [] = []
owned_by user (r ∷ rows) =
    let rest = owned_by user rows in if is_of user r then r.value ∷ rest else rest
