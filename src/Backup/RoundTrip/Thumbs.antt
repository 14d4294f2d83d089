-- ===== src/Backup/RoundTrip/Thumbs.antt =====
-- About the pass of `Restore` over the thumbnails of an archive.
use roadbook.Prelude.{
  All-map, All, ◌-◌, leb, ℕ, suc, ◌≡◌, refl, sym, ap, ◌∙◌, subst, true, ◌&&◌, List, [], ◌∷◌, ◌++◌,
  Option, none, some, arith, length, take, length-append,
}
use roadbook.Floats.{Float}
use roadbook.Photo.Bytes.{same_bytes}
use roadbook.Store.Tables.{Text, owned_by}
use roadbook.Store.Keyed.{lookup, if_eq_then}
use roadbook.Prelude.Int.{ℤ}
use roadbook.Times.{Time}
use roadbook.Store.Photos.{PhotoRow, Photos, photo_key, stored_taken}
use roadbook.Store.Backup.{
  has_sources, Files, write_thumb, saved, stored_photo, restore_photo, has_decision_id,
  photo_restored,
}
use roadbook.Backup.{map, ltb, Codec, ArchivedPhoto, Thumb, thumb_entry, thumbnails_dir, jpg}
use roadbook.Backup.Restore.{
  read_entries, put_new_thumb, thumb_existing, count_photo, Identity, identity_key, archived_key,
  Restoring, Report, Flow, going, anchor_key, thumb_hash, is_thumb_name, photo_row, put_photo,
  read_entry, put_known, put_file, photo_done, attach_photo,
}

take-append {ℓ} : {A : Type ℓ} (xs ys : List A) → take (length xs) (xs ++ ys) ≡ xs
take-append [] ys = refl
take-append (x ∷ xs) ys = ap (λ l. x ∷ l) (take-append xs ys)

abbrev thumb_name : Text → Text
thumb_name h = thumbnails_dir ++ (h ++ jpg)

thumb_hash-name : (h : Text) → thumb_hash (thumb_name h) ≡ some h
unfolding thumb_hash
thumb_hash-name h =
    let long : leb 15 (length (thumb_name h)) ≡ true = ground (arith, length-append h jpg) in
    let size : length (thumb_name h) - 15 ≡ length h = omega (arith, length-append h jpg) in
    if_eq_then _ long ∙ ap (λ n. some (take n (h ++ jpg))) size ∙ ap some (take-append h jpg)

is_thumb_name-name : (h : Text) → is_thumb_name (thumb_name h) ≡ true
unfolding is_thumb_name same_bytes
is_thumb_name-name h =
    let long : ltb 11 (length (thumb_name h)) ≡ true = ground (arith, length-append h jpg) in
    ap (λ b. b && true) long

stored_taken_again :
    (t : Option Time) (offset : Option ℤ)
    → stored_taken (stored_taken t offset) offset ≡ stored_taken t offset
stored_taken_again none offset = refl
stored_taken_again (some t) none = refl
stored_taken_again (some t) (some sec) = refl

pub stored_photo-stored_photo :
    {F : Type 0} (id : ℕ) (p : PhotoRow F) → stored_photo id (stored_photo 0 p) ≡ stored_photo id p
stored_photo-stored_photo id p =
    ap (λ t. record (stored_photo id p) { taken_at = t })
      (stored_taken_again p.taken_at p.taken_offset_sec)

module _ {F : Type 0} where
  abbrev resolve_identity : ArchivedPhoto F → Option Identity → Option (PhotoRow F)
  resolve_identity p none = none
  resolve_identity p (some i) = some (stored_photo 0 (photo_row p i.id))

  abbrev resolve_photo : Codec F → List Identity → Option (ArchivedPhoto F) → Option (PhotoRow F)
  resolve_photo c ids none = none
  resolve_photo c ids (some p) =
      resolve_identity p (lookup identity_key (anchor_key c p.decision) ids)

  -- The row that the archive gives a hash, but for its id.
  abbrev pub resolve : Codec F → List (ArchivedPhoto F) → List Identity → Text → Option (PhotoRow F)
  resolve c by_hash ids h = resolve_photo c ids (lookup archived_key h by_hash)

  abbrev pub put_row : Text → PhotoRow F → Photos F → Option (PhotoRow F) → Photos F
  put_row user row table (some old) = table
  put_row user row table none = record {
    rows = table.rows ++ (record { user = user; value = stored_photo table.next row } ∷ []);
    next = suc table.next;
  }

  put_row-stored_photo :
      (user : Text) (row : PhotoRow F) (table : Photos F) (o : Option (PhotoRow F))
      → put_row user (stored_photo 0 row) table o ≡ put_row user row table o
  put_row-stored_photo user row table (some old) = refl
  put_row-stored_photo user row table none =
      ap
        (λ (r : PhotoRow F). record {
          rows = table.rows ++ (record { user = user; value = r } ∷ []);
          next = suc table.next;
        })
        (stored_photo-stored_photo table.next row)

  abbrev pub put_found : Text → Option (PhotoRow F) → Photos F → Photos F
  put_found user none table = table
  put_found user (some row) table =
      put_row user row table (lookup photo_key row.content_hash (owned_by user table.rows))

  abbrev pub table_after : Text → (Text → Option (PhotoRow F)) → List Thumb → Photos F → Photos F
  table_after user find [] table = table
  table_after user find (t ∷ thumbs) table =
      table_after user find thumbs (put_found user (find t.hash) table)

  -- That the archive has the row of a hash, with a decision that is there.
  pub data IsReady (c : Codec F) (s : Restoring F) (h : Text) : Type 0 where
    is_ready :
        (p : ArchivedPhoto F) (i : Identity)
        → lookup archived_key h s.photo_by_hash ≡ some p
        → lookup identity_key (anchor_key c p.decision) s.id_by_anchor ≡ some i
        → has_decision_id i.id s.decisions.rows ≡ true
        → has_sources p.time_source p.pos_source ≡ true
        → IsReady c s h

abbrev pub put_file_of : Thumb → Files → Option (List ℕ) → Files
put_file_of t files (some old) = files
put_file_of t files none = write_thumb t.hash t.jpeg saved files

abbrev pub files_after : List Thumb → Files → Files
files_after [] files = files
files_after (t ∷ thumbs) files = files_after thumbs (put_file_of t files (files t.hash))

abbrev pub names_after : List Thumb → List Text → List Text
names_after [] names = names
names_after (t ∷ thumbs) names = names_after thumbs (t.hash ∷ names)

-- Going on in a state, whatever the report.
pub data GoesTo {F : Type 0} (f : Flow (Restoring F)) (s : Restoring F) : Type 0 where
  goes : (rep : Report) → f ≡ going (record s { rep = rep }) → GoesTo f s

module _ {F : Type 0} ⦃fl : Float F⦄ (c : Codec F) (user : Text) where
  row_done :
      (s : Restoring F) (row : PhotoRow F) (o : Option (PhotoRow F))
      → has_decision_id row.decision_id s.decisions.rows ≡ true
      → GoesTo
          (photo_done c user s (photo_restored user row s.decisions.rows s.table o))
          (record s { table = put_row user row s.table o })
  row_done s row (some old) e = goes _ refl
  row_done s row none e = goes (count_photo true s.rep) (rw e refl)

  restore_photo-real :
      (row : PhotoRow F) (s : Restoring F)
      → has_sources row.time_source row.pos_source ≡ true
      → restore_photo user row s.decisions.rows s.table
        ≡ photo_restored user row s.decisions.rows s.table
            (lookup photo_key row.content_hash (owned_by user s.table.rows))
  unfolding restore_photo
  restore_photo-real row s real = if_eq_then {b = has_sources row.time_source row.pos_source} _ real

  put_photo_goes :
      (s : Restoring F) (p : ArchivedPhoto F) (i : Identity)
      → lookup identity_key (anchor_key c p.decision) s.id_by_anchor ≡ some i
      → has_decision_id i.id s.decisions.rows ≡ true
      → has_sources p.time_source p.pos_source ≡ true
      → GoesTo
          (put_photo c user p s)
          (record s { table = put_found user (resolve_identity p (some i)) s.table })
  unfolding put_photo
  put_photo_goes s p i at there real =
      let row = photo_row p i.id in
      subst
        (λ o.
          GoesTo (attach_photo c user p s o)
            (record s { table = put_found user (resolve_identity p (some i)) s.table }))
        (sym at)
        (subst
          (λ o.
            GoesTo (photo_done c user s o)
              (record s { table = put_found user (resolve_identity p (some i)) s.table }))
          (sym (restore_photo-real row s real))
          (subst
            (λ t.
              GoesTo
                (photo_done c user s (
                  photo_restored user row s.decisions.rows s.table
                    (lookup photo_key row.content_hash (owned_by user s.table.rows))))
                (record s { table = t }))
            (sym (
              put_row-stored_photo user row s.table
                (lookup photo_key row.content_hash (owned_by user s.table.rows))))
            (row_done s row (lookup photo_key row.content_hash (owned_by user s.table.rows))
              there)))

  abbrev with_thumb : Thumb → Option (PhotoRow F) → Restoring F → Restoring F
  with_thumb t row s = record s {
    thumb_in_archive = t.hash ∷ s.thumb_in_archive;
    files = put_file_of t s.files (s.files t.hash);
    table = put_found user row s.table;
  }

  put_file_goes :
      (s : Restoring F) (t : Thumb) (p : ArchivedPhoto F) (i : Identity) (o : Option (List ℕ))
      → c.read_bytes (c.write_bytes t.jpeg) ≡ some t.jpeg
      → c.save t.hash t.jpeg ≡ saved
      → lookup identity_key (anchor_key c p.decision) s.id_by_anchor ≡ some i
      → has_decision_id i.id s.decisions.rows ≡ true
      → has_sources p.time_source p.pos_source ≡ true
      → GoesTo (put_file c user t.hash p (c.write_bytes t.jpeg) s o) (record s {
        files = put_file_of t s.files o;
        table = put_found user (resolve_identity p (some i)) s.table;
      })
  put_file_goes s t p i (some old) read saves at there real =
      elim (put_photo_goes (thumb_existing c user s) p i at there real) [ goes rep e ↦ goes rep e ]
  put_file_goes s t p i none read saves at there real =
      subst
        (λ o. GoesTo (put_new_thumb c user t.hash p s o) (record s {
          files = put_file_of t s.files none;
          table = put_found user (resolve_identity p (some i)) s.table;
        }))
        (sym read)
        (rw saves
          (elim (put_photo_goes
            (record s {
              files = write_thumb t.hash t.jpeg saved s.files;
              rep = record s.rep { thumbs_written = suc s.rep.thumbs_written };
            })
            p i at there real) [ goes rep e ↦ goes rep e ]))

  read_thumb_goes :
      (s : Restoring F) (t : Thumb)
      → c.read_bytes (c.write_bytes t.jpeg) ≡ some t.jpeg
      → c.save t.hash t.jpeg ≡ saved
      → IsReady c s t.hash
      → GoesTo
          (put_known c user t.hash
            (c.write_bytes t.jpeg)
            s
            (lookup archived_key t.hash s.photo_by_hash))
          (with_thumb t (resolve c s.photo_by_hash s.id_by_anchor t.hash) s)
  read_thumb_goes s t read saves (is_ready p i known at there real) =
      rw (known, at)
        (elim (put_file_goes (record s { thumb_in_archive = t.hash ∷ s.thumb_in_archive }) t p i
          (s.files t.hash) read saves at there real) [ goes rep e ↦ goes rep e ])

  read_entry-thumb :
      (s : Restoring F) (t : Thumb)
      → read_entry c user (thumb_entry c t) s
        ≡ put_known c user t.hash
            (c.write_bytes t.jpeg)
            s
            (lookup archived_key t.hash s.photo_by_hash)
  unfolding read_entry same_bytes
  read_entry-thumb s t = rw (is_thumb_name-name t.hash, thumb_hash-name t.hash) refl

  abbrev pub with_thumbs : List Thumb → Restoring F → Restoring F
  with_thumbs thumbs s = record s {
    thumb_in_archive = names_after thumbs s.thumb_in_archive;
    files = files_after thumbs s.files;
    table = table_after user (resolve c s.photo_by_hash s.id_by_anchor) thumbs s.table;
  }

  with_thumb-IsReady :
      (s : Restoring F) (t : Thumb) (rep : Report) (thumbs : List Thumb)
      → All (λ x. IsReady c s x.hash) thumbs
      → All
          (λ x.
            IsReady c
              (record (with_thumb t (resolve c s.photo_by_hash s.id_by_anchor t.hash) s) {
                rep = rep;
              })
              x.hash)
          thumbs
  with_thumb-IsReady s t rep thumbs ready =
      All-map
        (λ x r. elim r [ is_ready p i known at there real ↦ is_ready p i known at there real ])
        thumbs ready

  pub read_entries-thumbs :
      (s : Restoring F) (thumbs : List Thumb)
      → ((bytes : List ℕ) → c.read_bytes (c.write_bytes bytes) ≡ some bytes)
      → ((hash : Text) (jpeg : List ℕ) → c.save hash jpeg ≡ saved)
      → All (λ t. IsReady c s t.hash) thumbs
      → GoesTo (read_entries c user (map (thumb_entry c) thumbs) s) (with_thumbs thumbs s)
  unfolding read_entries
  read_entries-thumbs s [] read saves ready = goes s.rep refl
  read_entries-thumbs s (t ∷ thumbs) read saves (ready, rest) =
      rw (read_entry-thumb s t)
        (elim (read_thumb_goes s t (read t.jpeg) (saves t.hash t.jpeg) ready) [
          | goes rep e ↦
              rw e
                (elim (read_entries-thumbs
                  (record (with_thumb t (resolve c s.photo_by_hash s.id_by_anchor t.hash) s) {
                    rep = rep;
                  })
                  thumbs read saves (with_thumb-IsReady s t rep thumbs rest)) [
                    | goes rep' e' ↦ goes rep' e'
                  ])
        ])
