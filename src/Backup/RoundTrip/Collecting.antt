-- ===== src/Backup/RoundTrip/Collecting.antt =====
-- About `collect`: the photos and the thumbnails of an archive.
use mathlib.Core.Option.{some-injective}
use roadbook.Prelude.{
  All, ℕ, ◌≡◌, refl, sym, ap, ◌∙◌, subst, inl, inr, true, false, List, [], ◌∷◌, Option, none, some,
  Memᴰ, Bool-cases, ◌||◌, ◌==◌,
}
use roadbook.Photo.Bytes.{same_bytes}
use roadbook.Photo.Bytes.Cuts.{same_bytes→eq}
use roadbook.Store.Tables.{Text}
use roadbook.Store.Keyed.{or_false, lookup, has, IsDistinct, if_eq_then, if_eq_else}
use roadbook.Store.Decisions.{Decision}
use roadbook.Store.Photos.{PhotoRow, photo_key, with_id}
use roadbook.Store.Backup.{has_sources, Files}
use roadbook.Backup.{
  ArchivedPhoto, Thumb, thumb_key, put_thumb, Collected, anchor_ref, archived_photo, anchor_by_id,
  collect_file, collect_photo, collect,
}
use roadbook.Backup.Restore.{archived_key}

has-put_thumb :
    (h : Text) (t : Thumb) (thumbs : List Thumb)
    → has thumb_key h (put_thumb t thumbs) ≡ (same_bytes t.hash h || has thumb_key h thumbs)
unfolding has
has-put_thumb h t thumbs = elim (Bool-cases (has thumb_key t.hash thumbs)) [
  | inr new ↦ rw new refl
  | inl there ↦ rw there (elim (Bool-cases (same_bytes t.hash h)) [
    | inl same ↦
        rw same (subst (λ k. has thumb_key k thumbs ≡ true) (same_bytes→eq t.hash h same) there)
    | inr other ↦ rw other refl
  ])
]

put_thumb-All :
    (files : Files) (t : Thumb) (thumbs : List Thumb)
    → files t.hash ≡ some t.jpeg
    → All (λ x. files x.hash ≡ some x.jpeg) thumbs
    → All (λ x. files x.hash ≡ some x.jpeg) (put_thumb t thumbs)
put_thumb-All files t thumbs e all = elim (Bool-cases (has thumb_key t.hash thumbs)) [
  | inl there ↦ rw there all
  | inr new ↦ rw new (e, all)
]

module _ {F : Type 0} where
  -- A row as an archive shows it, with the decision it is of.
  abbrev pub view_row : PhotoRow F → Option (Decision F) → Option (ArchivedPhoto F)
  view_row p none = none
  view_row p (some d) = some (archived_photo p (anchor_ref d))

  abbrev pub view : List (Decision F) → Option (PhotoRow F) → Option (ArchivedPhoto F)
  view decs none = none
  view decs (some p) = view_row p (anchor_by_id decs p.decision_id)

  -- What there is of a photo when its file is there.
  abbrev pub with_file : Option (List ℕ) → Option (ArchivedPhoto F) → Option (ArchivedPhoto F)
  with_file none p = none
  with_file (some jpeg) p = p

  pub data IsOfSome (decs : List (Decision F)) (p : ArchivedPhoto F) : Type 0 where
    of_some : (d : Decision F) → Memᴰ d decs → p.decision ≡ anchor_ref d → IsOfSome decs p

  -- What collecting makes of the photos of a user.
  pub record IsCollected (decs : List (Decision F)) (files : Files) (photos : List (PhotoRow F))
      (got : Collected F) : Type 1 where
    pub lookups :
        (h : Text)
        → lookup archived_key h got.photos
          ≡ with_file (files h) (view decs (lookup photo_key h photos))
    pub of_decisions : All (IsOfSome decs) got.photos
    pub of_files : All (λ t. files t.hash ≡ some t.jpeg) got.thumbs
    pub hashes : (h : Text) → has thumb_key h got.thumbs ≡ has archived_key h got.photos
    pub fewer : (h : Text) → has photo_key h photos ≡ false → has archived_key h got.photos ≡ false
    pub kept :
        (h : Text) {jpeg : List ℕ}
        → files h ≡ some jpeg
        → has archived_key h got.photos ≡ has photo_key h photos
    pub distinct : IsDistinct photo_key photos → IsDistinct archived_key got.photos
    pub sources :
        All (λ p. has_sources p.time_source p.pos_source ≡ true) photos
        → All (λ p. has_sources p.time_source p.pos_source ≡ true) got.photos
    pub carries :
        (P : ArchivedPhoto F → Type 0)
        → All (λ p. (d : Decision F) → Memᴰ d decs → P (archived_photo p (anchor_ref d))) photos
        → All P got.photos

  with_id-Mem :
      (id : ℕ) (decs : List (Decision F)) {d : Decision F}
      → anchor_by_id decs id ≡ some d
      → Memᴰ d decs
  unfolding with_id
  with_id-Mem id [] e = cc
  with_id-Mem id (x ∷ decs) {d} e = elim (Bool-cases (x.id == id)) [
    | inl same ↦ Memᴰ.head (sym (some-injective x d (sym (if_eq_then _ same) ∙ e)))
    | inr other ↦ Memᴰ.tail (with_id-Mem id decs (sym (if_eq_else _ other) ∙ e))
  ]

  with_file-none : (o : Option (List ℕ)) → with_file o none ≡ none
  with_file-none none = refl
  with_file-none (some jpeg) = refl

  module _ (decs : List (Decision F)) (files : Files) (p : PhotoRow F)
      (photos : List (PhotoRow F)) where
    -- A photo without its file is left out.
    left_out :
        (got : Collected F)
        → files p.content_hash ≡ none
        → IsCollected decs files photos got
        → IsCollected decs files
            (p ∷ photos)
            (record got { warnings = p.original_name ∷ got.warnings })
    unfolding lookup has IsDistinct
    left_out got e c = record {
      lookups = λ h. elim (Bool-cases (same_bytes p.content_hash h)) [
        | inl same ↦
            (let gone : files h ≡ none =
                subst (λ k. files k ≡ none) (same_bytes→eq p.content_hash h same) e in
              c.lookups h ∙ rw gone refl)
        | inr other ↦ rw other (c.lookups h)
      ];
      of_decisions = c.of_decisions;
      of_files = c.of_files;
      hashes = c.hashes;
      fewer =
          λ h e. c.fewer h ((or_false (same_bytes p.content_hash h) (has photo_key h photos) e).1);
      kept = λ h f. elim (Bool-cases (same_bytes p.content_hash h)) [
        | inl same ↦
            (let gone : files h ≡ none =
                subst (λ k. files k ≡ none) (same_bytes→eq p.content_hash h same) e in
              absurd (cc (sym gone ∙ f)))
        | inr other ↦ rw other (c.kept h f)
      ];
      distinct = λ d. c.distinct d.1;
      sources = λ i. c.sources i.1;
      carries = λ P i. c.carries P i.1;
    }

    archived :
        (d : Decision F) (jpeg : List ℕ) (got : Collected F)
        → anchor_by_id decs p.decision_id ≡ some d
        → files p.content_hash ≡ some jpeg
        → IsCollected decs files photos got
        → IsCollected decs files (p ∷ photos) (collect_file p (anchor_ref d) (some jpeg) got)
    unfolding lookup has IsDistinct
    archived d jpeg got of e c = record {
      lookups = λ h. elim (Bool-cases (same_bytes p.content_hash h)) [
        | inl same ↦
            (let there : files h ≡ some jpeg =
                subst (λ k. files k ≡ some jpeg) (same_bytes→eq p.content_hash h same) e in
              rw (same, there, of) refl)
        | inr other ↦ rw other (c.lookups h)
      ];
      of_decisions = (of_some d (with_id-Mem p.decision_id decs of) refl, c.of_decisions);
      of_files =
          put_thumb-All files (record { hash = p.content_hash; jpeg = jpeg }) got.thumbs e
            c.of_files;
      hashes = λ h.
          has-put_thumb h (record { hash = p.content_hash; jpeg = jpeg }) got.thumbs
          ∙ ap (λ b. same_bytes p.content_hash h || b) (c.hashes h);
      fewer = λ h e.
          (let (apart, absent) =
              or_false (same_bytes p.content_hash h) (has photo_key h photos) e in
            rw apart (c.fewer h absent));
      kept = λ h f. ap (λ b. same_bytes p.content_hash h || b) (c.kept h f);
      distinct = λ d. (c.fewer p.content_hash d.0, c.distinct d.1);
      sources = λ i. (i.0, c.sources i.1);
      carries = λ P i. (i.0 d (with_id-Mem p.decision_id decs of), c.carries P i.1);
    }

    by_file :
        (d : Decision F) (o : Option (List ℕ)) (got : Collected F)
        → anchor_by_id decs p.decision_id ≡ some d
        → files p.content_hash ≡ o
        → IsCollected decs files photos got
        → IsCollected decs files (p ∷ photos) (collect_file p (anchor_ref d) o got)
    by_file d none got of e c = left_out got e c
    by_file d (some jpeg) got of e c = archived d jpeg got of e c

    by_decision :
        (o : Option (Decision F)) (r : Option (Collected F)) {got : Collected F}
        → anchor_by_id decs p.decision_id ≡ o
        → ((g : Collected F) → r ≡ some g → IsCollected decs files photos g)
        → collect_photo files p o r ≡ some got
        → IsCollected decs files (p ∷ photos) got
    by_decision none r of rest e = cc
    by_decision (some d) none of rest e = cc
    by_decision (some d) (some g) {got} of rest e =
        subst (IsCollected decs files (p ∷ photos))
          (some-injective (collect_file p (anchor_ref d) (files p.content_hash) g) got e)
          (by_file d (files p.content_hash) g of refl (rest g refl))

  nothing :
      (decs : List (Decision F)) (files : Files)
      → IsCollected decs files [] (record { photos = []; thumbs = []; warnings = [] })
  unfolding lookup has IsDistinct
  nothing decs files = record {
    lookups = λ h. sym (with_file-none (files h));
    of_decisions = tt;
    of_files = tt;
    hashes = λ h. refl;
    fewer = λ h e. refl;
    kept = λ h f. refl;
    distinct = λ d. tt;
    sources = λ i. tt;
    carries = λ P i. tt;
  }

  pub collect-IsCollected :
      (decs : List (Decision F)) (files : Files) (photos : List (PhotoRow F)) (got : Collected F)
      → collect decs files photos ≡ some got
      → IsCollected decs files photos got
  unfolding collect
  collect-IsCollected decs files [] got e =
      subst (IsCollected decs files []) (some-injective _ got e) (nothing decs files)
  collect-IsCollected decs files (p ∷ photos) got e =
      by_decision decs files p photos (anchor_by_id decs p.decision_id) (collect decs files photos)
        refl (λ g. collect-IsCollected decs files photos g) e
