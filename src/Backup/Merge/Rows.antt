-- ===== src/Backup/Merge/Rows.antt =====
-- About what a restore of decisions and photos leaves alone.
use roadbook.Prelude.{
  ℕ, ◌≡◌, refl, sym, ◌∙◌, subst, inl, inr, Bool, true, false, List, [], ◌∷◌, ◌++◌, Option, none,
  some, Bool-cases, if◌then◌else◌,
}
use roadbook.Floats.{Float}
use roadbook.Photo.Bytes.{same_bytes}
use roadbook.Photo.Bytes.Cuts.{same_bytes→eq}
use roadbook.Store.Tables.{Text, Row, owned_by}
use roadbook.Store.Keyed.{if_eq_then, or_row, if_eq_else, lookup}
use roadbook.Store.Decisions.{Action, Decision, Decisions, is_nameless}
use roadbook.Store.Photos.{photo_key, PhotoRow, Photos}
use roadbook.Store.Backup.{
  Saved, has_sources, stored_photo, Files, write_thumb, stored_decision, find_anchor,
  restore_decision, decision_restored, photo_restored, restore_photo, has_decision_id,
}
use roadbook.Backup.{Codec, ArchivedDecision, ArchivedPhoto}
use roadbook.Backup.Restore.{
  decision_row, parse_action, identity_key, anchor_key, insert_archived, photo_row,
  restore_decisions, decision_done, attach_photo, photo_done, put_photo, Restoring, Flow, panicked,
  stopped, going, and_then, Identity,
}

-- Rows of one user's behind the ones that were there.
pub data IsLonger {A : Type 0} (user : Text) (old : List (Row A)) : List (Row A) → Type 0 where
  as_is : IsLonger user old old
  longer :
      (x : A) (rows : List (Row A))
      → IsLonger user old rows
      → IsLonger user old (rows ++ (record { user = user; value = x } ∷ []))

pub or_row_itself {ℓ} : {A : Type ℓ} (x : Option A) → or_row x x ≡ x
or_row_itself none = refl
or_row_itself (some x) = refl

module _ {F : Type 0} where
  pub record IsMerged (user : Text) (db : Decisions F) (table : Photos F) (old : Files)
      (s : Restoring F) : Type 0 where
    pub decisions : IsLonger user db.rows s.decisions.rows
    pub photos : IsLonger user table.rows s.table.rows
    pub files : (h : Text) → or_row (old h) (s.files h) ≡ s.files h

  -- Of the state that an outcome carries, if it does.
  abbrev pub OnFlow : (Restoring F → Type 0) → Flow (Restoring F) → Type 0
  OnFlow P panicked = Unit
  OnFlow P (stopped s) = P s
  OnFlow P (going s) = P s

  pub and_then-OnFlow :
      (P : Restoring F → Type 0) (f : Restoring F → Flow (Restoring F)) (o : Flow (Restoring F))
      → OnFlow P o
      → ((s : Restoring F) → P s → OnFlow P (f s))
      → OnFlow P (and_then f o)
  and_then-OnFlow P f panicked p keep = tt
  and_then-OnFlow P f (stopped s) p keep = p
  and_then-OnFlow P f (going s) p keep = keep s p

  pub if-OnFlow :
      (P : Restoring F → Type 0) (b : Bool) (x y : Flow (Restoring F))
      → OnFlow P x
      → OnFlow P y
      → OnFlow P (if b then x else y)
  if-OnFlow P true x y p q = p
  if-OnFlow P false x y p q = q

module _ {F : Type 0} ⦃fl : Float F⦄ (c : Codec F) (user : Text) (db : Decisions F)
    (table : Photos F) (old : Files) where
  abbrev pub Kept : Restoring F → Type 0
  Kept s = IsMerged user db table old s

  inserted_decision-Kept :
      (key : Text) (s : Restoring F) (d : Decision F) (o : Option ℕ)
      → Kept s
      → OnFlow Kept (decision_done c user key s (decision_restored user d s.decisions o))
  inserted_decision-Kept key s d (some id) kept = record {
    decisions = kept.decisions;
    photos = kept.photos;
    files = kept.files;
  }
  inserted_decision-Kept key s d none kept = record {
    decisions = longer (stored_decision s.decisions.next d) s.decisions.rows kept.decisions;
    photos = kept.photos;
    files = kept.files;
  }

  archived_decision-Kept :
      (key : Text) (s : Restoring F) (d : ArchivedDecision F) (o : Option Action)
      → Kept s
      → OnFlow Kept (decision_done c user key s (insert_archived c user d o s.decisions))
  unfolding restore_decision
  archived_decision-Kept key s d none kept = kept
  archived_decision-Kept key s d (some action) kept =
      elim (Bool-cases (is_nameless action d.name)) [
        | inl nameless ↦ rw nameless kept
        | inr named ↦ rw named (
            inserted_decision-Kept key s (decision_row d action)
              (find_anchor (decision_row d action) (owned_by user s.decisions.rows)) kept)
      ]

  pub restore_decisions-Kept :
      (decs : List (ArchivedDecision F)) (s : Restoring F)
      → Kept s
      → OnFlow Kept (restore_decisions c user decs s)
  unfolding restore_decisions
  restore_decisions-Kept [] s kept = kept
  restore_decisions-Kept (d ∷ decs) s kept =
      and_then-OnFlow Kept (restore_decisions c user decs) _
        (archived_decision-Kept (anchor_key c d.anchor) s d (parse_action d.action) kept)
        (restore_decisions-Kept decs)

  inserted_photo-Kept :
      (s : Restoring F) (p : PhotoRow F) (o : Option (PhotoRow F))
      → Kept s
      → OnFlow Kept (photo_done c user s (photo_restored user p s.decisions.rows s.table o))
  inserted_photo-Kept s p (some row) kept = record {
    decisions = kept.decisions;
    photos = kept.photos;
    files = kept.files;
  }
  inserted_photo-Kept s p none kept =
      elim (Bool-cases (has_decision_id p.decision_id s.decisions.rows)) [
        | inl there ↦ rw there record {
          decisions = kept.decisions;
          photos = longer (stored_photo s.table.next p) s.table.rows kept.photos;
          files = kept.files;
        }
        | inr gone ↦ rw gone kept
      ]

  attach_photo-Kept :
      (s : Restoring F) (p : ArchivedPhoto F) (o : Option Identity)
      → Kept s
      → OnFlow Kept (attach_photo c user p s o)
  unfolding restore_photo
  attach_photo-Kept s p none kept = kept
  attach_photo-Kept s p (some i) kept = elim (Bool-cases (has_sources p.time_source p.pos_source)) [
    | inl real ↦
        subst (λ o. OnFlow Kept (photo_done c user s o))
          (sym (if_eq_then {b = has_sources p.time_source p.pos_source} _ real))
          (inserted_photo-Kept s (photo_row p i.id)
            (lookup photo_key p.content_hash (owned_by user s.table.rows)) kept)
    | inr odd ↦
        subst (λ o. OnFlow Kept (photo_done c user s o))
          (sym (if_eq_else {b = has_sources p.time_source p.pos_source} _ odd)) kept
  ]

  pub put_photo-Kept :
      (s : Restoring F) (p : ArchivedPhoto F) → Kept s → OnFlow Kept (put_photo c user p s)
  unfolding put_photo
  put_photo-Kept s p kept =
      attach_photo-Kept s p (lookup identity_key (anchor_key c p.decision) s.id_by_anchor) kept

  pub same-Kept :
      (s s' : Restoring F)
      → s'.decisions ≡ s.decisions
      → s'.table ≡ s.table
      → s'.files ≡ s.files
      → Kept s
      → Kept s'
  same-Kept s s' d t f kept = record {
    decisions = subst (λ x. IsLonger user db.rows x.rows) (sym d) kept.decisions;
    photos = subst (λ x. IsLonger user table.rows x.rows) (sym t) kept.photos;
    files = λ h. subst (λ x. or_row (old h) (x h) ≡ x h) (sym f) (kept.files h);
  }

  pub new_file-Kept :
      (s : Restoring F) (hash : Text) (jpeg : List ℕ) (end : Saved) (h : Text) (o : Option (List ℕ))
      → s.files hash ≡ none
      → or_row o (s.files h) ≡ s.files h
      → or_row o (write_thumb hash jpeg end s.files h) ≡ write_thumb hash jpeg end s.files h
  new_file-Kept s hash jpeg end h none free kept = refl
  new_file-Kept s hash jpeg end h (some was) free kept = elim (Bool-cases (same_bytes hash h)) [
    | inl same ↦
        absurd
          (cc (sym (subst (λ k. s.files k ≡ none) (same_bytes→eq hash h same) free) ∙ sym kept))
    | inr other ↦ kept ∙ sym (if_eq_else _ other)
  ]
