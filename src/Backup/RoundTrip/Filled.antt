-- ===== src/Backup/RoundTrip/Filled.antt =====
-- About the state of `Restore` after an archive that `Write` made.
use roadbook.Prelude.{
  All-map, All_of, ap₂, ℕ, ◌≡◌, refl, sym, ap, ◌∙◌, true, List, [], ◌++◌, map, ◌||◌, Option, none,
  some, All, All_at, Memᴰ,
}
use roadbook.Prelude.Sort.{sort_stable, sort_stable-All}
use roadbook.Floats.{Float}
use roadbook.Store.Tables.{Text, owned_by}
use roadbook.Store.Rows.{owned_by-append}
use roadbook.Store.Keyed.{
  lookup_key, has-Mem, or_row-none, lookup, has, IsDistinct, or_row, has_absent, lookup-Mem,
}
use roadbook.Store.Decisions.{Decision, stored}
use roadbook.Times.{Time}
use roadbook.Store.Photos.{PhotoRow, photo_key, stored_taken}
use roadbook.Store.Backup.{has_sources, stored_photo, Files}
use roadbook.Backup.{
  Codec, Manifest, ArchivedPhoto, Thumb, thumb_key, thumb_lt, Collected, anchor_ref, anchor_by_id,
  archived_photo, archived_decision,
}
use roadbook.Backup.Restore.{
  photo_row, has_text, Restoring, Identity, identity_key, archived_key, anchor_key,
}
use roadbook.Backup.RoundTrip.Collecting.{IsCollected, IsOfSome, of_some, view, with_file}
use roadbook.Backup.RoundTrip.Rows.{
  rows_of, IsStored, AreApart, decision_key, identities, rows_from, is_named, identities-IsNamed,
  owned_by-rows_of, has_decision_id-owned_by,
}
use roadbook.Backup.RoundTrip.Thumbs.{
  stored_photo-stored_photo, resolve, IsReady, is_ready, with_thumbs,
}
use roadbook.Backup.RoundTrip.Documents.{Plain, IsPlainDecision, IsPlainPhoto, loaded}
use roadbook.Backup.RoundTrip.Keys.{
  only_if-none, only_if, files_after-at, names_after-has, has-sort_stable, index_photos-lookup,
  bare, row_at, table_after-at, IsFound, is_found,
}

-- The times of a photo are as the database keeps them.
abbrev pub AreStored : {F : Type 0} → ArchivedPhoto F → Type 0
AreStored p =
    (stored p.uploaded_at ≡ p.uploaded_at)
    × (stored_taken p.taken_at p.taken_offset_sec ≡ p.taken_at)

module _ {F : Type 0} (c : Codec F) where
  -- A photo of the archive, with what `idByAnchor` has for it.
  data IsAt (n : ℕ) (decs : List (Decision F)) (p : ArchivedPhoto F) : Type 0 where
    is_at :
        (i : Identity) (r : Decision F)
        → lookup identity_key (anchor_key c p.decision) (identities c n decs []) ≡ some i
        → anchor_by_id (rows_from n decs) i.id ≡ some r
        → anchor_ref r ≡ p.decision
        → IsAt n decs p

  of_some-IsAt :
      (n : ℕ) (decs : List (Decision F)) (p : ArchivedPhoto F)
      → IsDistinct (decision_key c) decs
      → All IsStored decs
      → IsOfSome decs p
      → IsAt n decs p
  of_some-IsAt n decs p dist all (of_some d m of) =
      elim (identities-IsNamed c n decs [] dist all m) [
        | is_named i r at row same ↦
            is_at i r
              (ap (λ a. lookup identity_key (anchor_key c a) (identities c n decs [])) of ∙ at) row
              (same ∙ sym of)
      ]

  -- A resolved row shows the photo that it was made of.
  at-view :
      (n : ℕ) (decs : List (Decision F)) (by_hash : List (ArchivedPhoto F)) (h : Text)
      (p : ArchivedPhoto F)
      → IsAt n decs p
      → lookup archived_key h by_hash ≡ some p
      → AreStored p
      → view (rows_from n decs) (bare (resolve c by_hash (identities c n decs []) h)) ≡ some p
  at-view n decs by_hash h p (is_at i r at row same) known (uploaded, taken) =
      rw (known, at, row)
        (ap₂
          (λ (ut : Time × Option Time) a.
            some (record p { uploaded_at = ut.0; taken_at = ut.1; decision = a }))
          (ap₂ (λ (u : Time) (t : Option Time). (u, t)) uploaded taken) same)

view-bare :
    {F : Type 0} (decs : List (Decision F)) (o : Option (PhotoRow F))
    → view decs (bare o) ≡ view decs o
view-bare decs none = refl
view-bare decs (some p) = refl

-- What the database has of a user: rows that pass the schema's checks, unique anchors and hashes,
-- anchors whose texts differ too, and texts, times and floats that encoding/json keeps.
pub record IsSound {F : Type 0} ⦃fl : Float F⦄ (c : Codec F) (plain : Plain F)
    (decs : List (Decision F)) (photos : List (PhotoRow F)) : Type 0 where
  pub rows : All IsStored decs
  pub apart : AreApart decs
  pub keys : IsDistinct (decision_key c) decs
  pub hashes : IsDistinct photo_key photos
  pub sources : All (λ p. has_sources p.time_source p.pos_source ≡ true) photos
  pub instants :
      All (λ p. (d : Decision F) → Memᴰ d decs → AreStored (archived_photo p (anchor_ref d))) photos
  pub plain_decisions : All (IsPlainDecision plain) (map archived_decision decs)
  pub plain_photos :
      All
        (λ p. (d : Decision F) → Memᴰ d decs → IsPlainPhoto plain (archived_photo p (anchor_ref d)))
        photos

module _ {F : Type 0} ⦃fl : Float F⦄ (c : Codec F) (user : Text) where
  module _ (plain : Plain F) (m : Manifest) (decs : List (Decision F)) (files : Files)
      (photos : List (PhotoRow F)) (got : Collected F) (s : Restoring F)
      (sound : IsSound c plain decs photos) (made : IsCollected decs files photos got)
      (nobody : owned_by user s.decisions.rows ≡ []) (no_ids : s.id_by_anchor ≡ []) where
    abbrev pub filled : Restoring F
    filled = loaded c user m decs got.photos s

    pub own_rows : owned_by user filled.decisions.rows ≡ rows_from s.decisions.next decs
    own_rows =
        owned_by-append user s.decisions.rows _
        ∙ ap (λ l. l ++ owned_by user (rows_of user (rows_from s.decisions.next decs))) nobody
        ∙ owned_by-rows_of user (rows_from s.decisions.next decs)

    photo-IsAt :
        (h : Text) {p : ArchivedPhoto F}
        → lookup archived_key h got.photos ≡ some p
        → IsAt c s.decisions.next decs p
    photo-IsAt h {p} e = of_some-IsAt c s.decisions.next decs p sound.keys sound.rows (
        All_at (IsOfSome decs) got.photos made.of_decisions
          (lookup-Mem archived_key h got.photos e))

    indexed :
        (h : Text) → lookup archived_key h filled.photo_by_hash ≡ lookup archived_key h got.photos
    unfolding lookup
    indexed h = index_photos-lookup h got.photos [] (made.distinct sound.hashes) ∙ or_row-none _

    loaded-IsReady :
        (h : Text) (o : Option (ArchivedPhoto F))
        → lookup archived_key h got.photos ≡ o
        → has archived_key h got.photos ≡ true
        → IsReady c filled h
    loaded-IsReady h none e there = absurd (cc (sym there ∙ has_absent archived_key h got.photos e))
    loaded-IsReady h (some p) e there = elim (photo-IsAt h e) [
      | is_at i r at row same ↦
          is_ready p i (indexed h ∙ e)
            (ap
                (λ ids.
                  lookup identity_key (anchor_key c p.decision)
                    (identities c s.decisions.next decs ids))
                no_ids
              ∙ at)
            (has_decision_id-owned_by user i.id filled.decisions.rows
              (ap (λ l. anchor_by_id l i.id) own_rows ∙ row))
            (All_at (λ p. has_sources p.time_source p.pos_source ≡ true) got.photos
              (made.sources sound.sources) (lookup-Mem archived_key h got.photos e))
    ]

    abbrev pub sorted : List Thumb
    sorted = sort_stable thumb_lt got.thumbs

    thumb_known : (t : Thumb) → Memᴰ t got.thumbs → has archived_key t.hash got.photos ≡ true
    thumb_known t m = sym (made.hashes t.hash) ∙ has-Mem thumb_key t.hash got.thumbs m refl

    pub ready : All (λ t. IsReady c filled t.hash) sorted
    ready =
        sort_stable-All thumb_lt (λ t. IsReady c filled t.hash) got.thumbs
          (All_of (λ t. IsReady c filled t.hash) got.thumbs
            (λ t m.
              loaded-IsReady t.hash (lookup archived_key t.hash got.photos) refl (thumb_known t m)))

    is_found_of :
        (t : Thumb)
        → IsReady c filled t.hash
        → IsFound (resolve c filled.photo_by_hash filled.id_by_anchor) t
    is_found_of t (is_ready p i known at there real) =
        is_found (stored_photo 0 (photo_row p i.id)) (rw (known, at) refl)
          (lookup_key archived_key t.hash filled.photo_by_hash known)
          (stored_photo-stored_photo 0 (photo_row p i.id))

    found : All (IsFound (resolve c filled.photo_by_hash filled.id_by_anchor)) sorted
    found = All-map is_found_of sorted ready

    pub carried :
        All
          (λ p. has_text p.content_hash (with_thumbs c user sorted filled).thumb_in_archive ≡ true)
          got.photos
    carried =
        All_of
          (λ p. has_text p.content_hash (with_thumbs c user sorted filled).thumb_in_archive ≡ true)
          got.photos
          (λ p m.
            names_after-has p.content_hash sorted s.thumb_in_archive
            ∙ ap (λ b. b || has_text p.content_hash s.thumb_in_archive)
                (has-sort_stable p.content_hash got.thumbs
                  ∙ made.hashes p.content_hash
                  ∙ has-Mem archived_key p.content_hash got.photos m refl))

    module _ (bare_hands : owned_by user s.table.rows ≡ []) where
      row_after :
          (h : Text)
          → bare (row_at user h (with_thumbs c user sorted filled).table)
            ≡ only_if
                (has archived_key h got.photos)
                (bare (resolve c filled.photo_by_hash filled.id_by_anchor h))
      unfolding lookup
      row_after h =
          table_after-at user h (resolve c filled.photo_by_hash filled.id_by_anchor) sorted s.table
            found
          ∙ ap
              (λ l. or_row (bare (lookup photo_key h l)) (
                only_if (has thumb_key h sorted)
                  (bare (resolve c filled.photo_by_hash filled.id_by_anchor h))))
              bare_hands
          ∙ ap (λ b. only_if b (bare (resolve c filled.photo_by_hash filled.id_by_anchor h)))
              (has-sort_stable h got.thumbs ∙ made.hashes h)

      shown :
          (h : Text) (o : Option (ArchivedPhoto F))
          → lookup archived_key h got.photos ≡ o
          → view (rows_from s.decisions.next decs) (
              only_if
                (has archived_key h got.photos)
                (bare (resolve c filled.photo_by_hash filled.id_by_anchor h)))
            ≡ o
      shown h none e = rw (has_absent archived_key h got.photos e) refl
      shown h (some p) e =
          rw
            (
              has-Mem archived_key h got.photos (lookup-Mem archived_key h got.photos e)
                  (lookup_key archived_key h got.photos e),
              no_ids,
            )
            (at-view c s.decisions.next decs filled.photo_by_hash h p (photo-IsAt h e)
              (indexed h ∙ e)
              (All_at AreStored got.photos (made.carries AreStored sound.instants)
                (lookup-Mem archived_key h got.photos e)))

      pub view_after :
          (h : Text)
          → view
              (owned_by user filled.decisions.rows)
              (row_at user h (with_thumbs c user sorted filled).table)
            ≡ with_file (files h) (view decs (lookup photo_key h photos))
      view_after h =
          ap (λ l. view l (row_at user h (with_thumbs c user sorted filled).table)) own_rows
          ∙ sym (
              view-bare (rows_from s.decisions.next decs)
                (row_at user h (with_thumbs c user sorted filled).table))
          ∙ ap (view (rows_from s.decisions.next decs)) (row_after h)
          ∙ shown h (lookup archived_key h got.photos) refl
          ∙ made.lookups h

    kept_at :
        (h : Text) (o : Option (List ℕ))
        → files h ≡ o
        → only_if (has archived_key h got.photos) o ≡ only_if (has photo_key h photos) o
    kept_at h none e =
        only_if-none (has archived_key h got.photos) ∙ sym (only_if-none (has photo_key h photos))
    kept_at h (some jpeg) e = ap (λ b. only_if b (some jpeg)) (made.kept h e)

    pub file_after :
        (h : Text) (o : Option (List ℕ))
        → files h ≡ o
        → (with_thumbs c user sorted filled).files h
          ≡ or_row (s.files h) (only_if (has photo_key h photos) o)
    file_after h o e =
        files_after-at files h sorted s.files
          (sort_stable-All thumb_lt (λ t. files t.hash ≡ some t.jpeg) got.thumbs made.of_files)
        ∙ ap (or_row (s.files h))
            (ap₂ only_if (has-sort_stable h got.thumbs ∙ made.hashes h) e ∙ kept_at h o e)
