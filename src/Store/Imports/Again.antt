-- ===== src/Store/Imports/Again.antt =====
-- About the writing of observations: what it adds, and what it adds when it is done again.
use mathlib.Core.Option.{some-injective}
use roadbook.Prelude.{
  ℕ, suc, ◌+◌, ◌≡◌, refl, sym, ◌∙◌, ap, inl, inr, true, List, [], ◌∷◌, ◌++◌, none, some, append-nil,
  append_assoc, All, Bool-cases, length, keep, ◌==◌, arith,
}
use roadbook.Photo.Bytes.Cuts.{same_bytes_refl}
use roadbook.Store.Tables.{Text, Row, owned_by}
use roadbook.Store.Keyed.{has, has-append}
use roadbook.Store.Rows.{owned_by-append}
use roadbook.Domain.{Observations}
use roadbook.Store.Keyed.{if_eq_then, if_eq_else}
use roadbook.Store.Imports.{
  insert_all, Canon, Tables, ImportRow, ImportResult, hash_visit, hash_activity, hash_point,
  hash_raw_position, is_open, import_observations,
}

module _ {ℓ} {A : Type ℓ} (key : A → Text) (user : Text) where
  -- The table behind a writing: the rows before, as many new ones as it counts, and among them one
  -- with the hash of each of the elements.
  pub record IsWritten (xs : List A) (rows : List (Row A)) (out : List (Row A) × ℕ) : Type ℓ where
    pub new : List (Row A)
    pub appended : out.0 ≡ rows ++ new
    pub counted : out.1 ≡ length new
    pub present : All (λ x. has key (key x) (owned_by user out.0) ≡ true) xs

  has_behind :
      (h : Text) (rows new : List (Row A))
      → has key h (owned_by user rows) ≡ true
      → has key h (owned_by user (rows ++ new)) ≡ true
  has_behind h rows new e =
      rw (owned_by-append user rows new, has-append key h (owned_by user rows), e) refl

  has_own :
      (x : A) (rows : List (Row A))
      → has key (key x) (owned_by user (rows ++ (record { user = user; value = x } ∷ []))) ≡ true
  unfolding has
  has_own x rows =
      rw
        (
          owned_by-append user rows,
          has-append key (key x) (owned_by user rows),
          same_bytes_refl user,
          same_bytes_refl (key x),
        )
        (ground arith)

  pub insert_all-IsWritten :
      (xs : List A) (rows : List (Row A)) → IsWritten xs rows (insert_all key user xs rows)
  unfolding insert_all
  insert_all-IsWritten [] rows = record {
    new = [];
    appended = sym (append-nil rows);
    counted = refl;
    present = tt;
  }
  insert_all-IsWritten (x ∷ xs) rows = elim (Bool-cases (has key (key x) (owned_by user rows))) [
    | inl e ↦
        (let w = insert_all-IsWritten xs rows in
          rw e (record {
            new = w.new;
            appended = w.appended;
            counted = w.counted;
            present = (rw w.appended (has_behind (key x) rows w.new e), w.present);
          }))
    | inr e ↦
        (let rows' = rows ++ (record { user = user; value = x } ∷ []) in
          let w = insert_all-IsWritten xs rows' in
          rw e (record {
            new = record { user = user; value = x } ∷ w.new;
            appended =
                w.appended ∙ append_assoc rows (record { user = user; value = x } ∷ []) w.new;
            counted = ap suc w.counted;
            present = (rw w.appended (has_behind (key x) rows' w.new (has_own x rows)), w.present);
          }))
  ]

  pub insert_all_present :
      (xs : List A) (rows : List (Row A))
      → All (λ x. has key (key x) (owned_by user rows) ≡ true) xs
      → insert_all key user xs rows ≡ (rows, 0)
  unfolding insert_all
  insert_all_present [] rows present = refl
  insert_all_present (x ∷ xs) rows (e, present) = rw (e, insert_all_present xs rows present) refl

  -- A second writing adds nothing.
  pub insert_all-insert_all :
      (xs : List A) (rows : List (Row A))
      → let out = insert_all key user xs rows in insert_all key user xs out.0 ≡ (out.0, 0)
  insert_all-insert_all xs rows =
      insert_all_present xs (insert_all key user xs rows).0 (insert_all-IsWritten xs rows).present

-- What an import that is committed has written.
record IsFilled {F : Type 0} (c : Canon F) (user : Text) (obs : Observations F) (db db' : Tables F)
    (n : ℕ) : Type 0 where
  visits : db'.visits ≡ (insert_all (hash_visit c) user obs.visits db.visits).0
  activities : db'.activities ≡ (insert_all (hash_activity c) user obs.activities db.activities).0
  points : db'.points ≡ (insert_all (hash_point c) user obs.points db.points).0
  raw_positions :
      db'.raw_positions
      ≡ (insert_all (hash_raw_position c) user obs.raw_positions db.raw_positions).0
  counted :
      n
      ≡ (insert_all (hash_visit c) user obs.visits db.visits).1
        + (insert_all (hash_activity c) user obs.activities db.activities).1
        + (insert_all (hash_point c) user obs.points db.points).1
        + (insert_all (hash_raw_position c) user obs.raw_positions db.raw_positions).1

none_ne : {A : Type 0} {x : A} → none ≡ some x → ⊥
none_ne e = cc

module _ {F : Type 0} (c : Canon F) (user : Text) (obs : Observations F) where
  import_observations-IsFilled :
      (id : ℕ) (detected_format : Text) (skipped : ℕ) (db db' : Tables F) (r : ImportResult)
      → import_observations c user id detected_format obs skipped db ≡ some (db', r)
      → IsFilled c user obs db db' r.inserted
  unfolding import_observations
  import_observations-IsFilled id detected_format skipped db db' r e =
      elim (Bool-cases (length (keep (is_open user id) db.imports) == 1)) [
        | inr closed ↦ absurd (none_ne (sym (if_eq_else _ closed) ∙ e))
        | inl open_import ↦
            (let here = some-injective _ (db', r) (sym (if_eq_then _ open_import) ∙ e) in
              record {
                visits = ap (λ x. x.0.visits) (sym here);
                activities = ap (λ x. x.0.activities) (sym here);
                points = ap (λ x. x.0.points) (sym here);
                raw_positions = ap (λ x. x.0.raw_positions) (sym here);
                counted = ap (λ x. x.1.inserted) (sym here);
              })
      ]

  -- Importing the same observations again, after any change of the table of imports, finds nothing new
  -- and leaves the observations as they are.
  pub import_observations-import_observations :
      (id id' : ℕ) (detected_format detected_format' : Text) (skipped skipped' : ℕ)
      (db db' db'' : Tables F) (r r' : ImportResult) (imports : List (Row ImportRow))
      (next_import : ℕ)
      → import_observations c user id detected_format obs skipped db ≡ some (db', r)
      → import_observations c user id' detected_format' obs skipped'
          (record db' { imports = imports; next_import = next_import })
        ≡ some (db'', r')
      → (r'.inserted ≡ 0)
        × (db''.visits ≡ db'.visits)
        × (db''.activities ≡ db'.activities)
        × (db''.points ≡ db'.points)
        × (db''.raw_positions ≡ db'.raw_positions)
  import_observations-import_observations id id' detected_format detected_format' skipped skipped'
        db db' db'' r r' imports next_import first second =
      let a = import_observations-IsFilled id detected_format skipped db db' r first in
      let b =
        import_observations-IsFilled id' detected_format' skipped'
          (record db' { imports = imports; next_import = next_import }) db'' r' second in
      let v = again (hash_visit c) obs.visits db.visits a.visits in
      let t = again (hash_activity c) obs.activities db.activities a.activities in
      let p = again (hash_point c) obs.points db.points a.points in
      let w = again (hash_raw_position c) obs.raw_positions db.raw_positions a.raw_positions in
      (
        b.counted ∙ rw (v, t, p, w) refl,
        b.visits ∙ ap (λ o. o.0) v,
        b.activities ∙ ap (λ o. o.0) t,
        b.points ∙ ap (λ o. o.0) p,
        b.raw_positions ∙ ap (λ o. o.0) w,
      )
    where
      again :
          {A : Type 0} (key : A → Text) (xs : List A) (rows : List (Row A)) {rows' : List (Row A)}
          → rows' ≡ (insert_all key user xs rows).0
          → insert_all key user xs rows' ≡ (rows', 0)
      again key xs rows e = rw e (insert_all-insert_all key user xs rows)
