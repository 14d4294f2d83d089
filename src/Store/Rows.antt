-- ===== src/Store/Rows.antt =====
-- About tables of rows with an owner.
use roadbook.Prelude.{◌≡◌, refl, ap, inl, inr, List, [], ◌∷◌, ◌++◌, Bool-cases}
use roadbook.Store.Tables.{Text, Row, is_of, owned_by}

pub owned_by-append {ℓ} :
    {A : Type ℓ} (user : Text) (rows more : List (Row A))
    → owned_by user (rows ++ more) ≡ owned_by user rows ++ owned_by user more
owned_by-append user [] more = refl
owned_by-append user (r ∷ rows) more = elim (Bool-cases (is_of user r)) [
  | inl e ↦ rw e (ap (λ l. r.value ∷ l) (owned_by-append user rows more))
  | inr e ↦ rw e (owned_by-append user rows more)
]
