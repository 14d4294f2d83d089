-- ===== src/Photo/Tiff/Entries.antt =====
-- What the walk over a directory collects, whatever the bytes are.
use mathlib.Core.Option.{some-injective}
use roadbook.Prelude.{
  ℕ, zero, suc, ◌+◌, ◌*◌, ◌≤◌, ◌≡◌, subst, ◌∙◌, min, inl, inr, true, List, [], ◌∷◌, some, length,
  ltb, leb, ◌==◌, All, Bool-cases, Option-cases, arith,
}
use roadbook.Photo.Bytes.Cuts.{IsPart, cut-some}
use roadbook.Photo.Tiff.{
  TiffReader, read, u16, u32, type_size, Entry, value_at, is_wanted, entry_of, entry_at, put_entry,
  entries_from, max_entries, walk_ifd,
}

module _ (r : TiffReader) (want : List ℕ) where
  -- A wanted tag of a known type with a bounded count, whose value is a part of the bytes and as long
  -- as the type and the count say.
  pub record IsConsumed (te : ℕ × Entry) : Type 0 where
    pub wanted : is_wanted want te.0 ≡ true
    pub size : ℕ
    pub known : type_size te.1.typ ≡ some size
    pub bounded : te.1.cnt ≤ 65_536
    pub index : ℕ
    pub is_part : IsPart r.bytes index te.1.val
    pub long : length te.1.val ≡ size * te.1.cnt

  read-IsPart :
      (off n : ℕ) {val : List ℕ}
      → read r off n ≡ some val
      → IsPart r.bytes off val × (length val ≡ n)
  unfolding read
  read-IsPart off n {val} h = let (p, l) = cut-some r.bytes off (off + n) h in (p, l ∙ omega arith)

  value_at-IsPart :
      (base total : ℕ) {val : List ℕ}
      → value_at r base total ≡ some val
      → (i : ℕ) × IsPart r.bytes i val × (length val ≡ total)
  unfolding value_at
  value_at-IsPart base total {val} h = elim (Bool-cases (leb total 4)) [
    | inl e ↦ let (p, l) = read-IsPart (base + 8) total (rw e at h) in (base + 8, p, l)
    | inr e ↦ elim (Option-cases (u32 r (base + 8))) [
      | inl n ↦ cc (rw (e, n) at h)
      | inr (off, s) ↦ let (p, l) = read-IsPart off total (rw (e, s) at h) in (off, p, l)
    ]
  ]

  entry_of-IsConsumed :
      (base tag typ cnt : ℕ) {te : ℕ × Entry}
      → entry_of r want base tag typ cnt ≡ some te
      → IsConsumed te
  unfolding entry_of
  entry_of-IsConsumed base tag typ cnt {te} h = elim (Bool-cases (is_wanted want tag)) [
    | inr e ↦ cc (rw e at h)
    | inl e ↦ elim (Option-cases (type_size typ)) [
      | inl n ↦ cc (rw (e, n) at h)
      | inr (size, s) ↦ elim (Bool-cases (ltb 65_536 cnt)) [
        | inl f ↦ cc (rw (e, s, f) at h)
        | inr f ↦ elim (Option-cases (value_at r base (size * cnt))) [
          | inl n ↦ cc (rw (e, s, f, n) at h)
          | inr (val, v) ↦
              let (i, p, l) = value_at-IsPart base (size * cnt) v in
              subst IsConsumed
                (some-injective (tag, record { typ = typ; cnt = cnt; val = val }) te
                  (rw (e, s, f, v) at h))
                (record {
                  wanted = e;
                  size = size;
                  known = s;
                  bounded = ground arith;
                  index = i;
                  is_part = p;
                  long = l;
                })
        ]
      ]
    ]
  ]

  entry_at-IsConsumed : (base : ℕ) {te : ℕ × Entry} → entry_at r want base ≡ some te → IsConsumed te
  unfolding entry_at
  entry_at-IsConsumed base {te} h = elim (Option-cases (u16 r base)) [
    | inl n ↦ cc (rw (n, entry_at) at h)
    | inr (tag, e) ↦ elim (Option-cases (u16 r (base + 2))) [
      | inl n ↦ cc (rw (e, n, entry_at) at h)
      | inr (typ, f) ↦ elim (Option-cases (u32 r (base + 4))) [
        | inl n ↦ cc (rw (e, f, n, entry_at) at h)
        | inr (cnt, g) ↦ entry_of-IsConsumed base tag typ cnt (rw (e, f, g, entry_at) at h)
      ]
    ]
  ]

  -- What has been collected: consumed entries, no more than `n`.
  abbrev AllConsumed : ℕ → List (ℕ × Entry) → Type 0
  AllConsumed n out = All IsConsumed out × (length out ≤ n)

  put_entry-AllConsumed :
      (te : ℕ × Entry) (n : ℕ) (out : List (ℕ × Entry))
      → IsConsumed te
      → AllConsumed n out
      → AllConsumed (suc n) (put_entry te out)
  unfolding put_entry
  put_entry-AllConsumed te n [] c h = ((c, tt), omega arith)
  put_entry-AllConsumed te zero (other ∷ out) c (a, l) = absurd (omega arith)
  put_entry-AllConsumed te (suc n) (other ∷ out) c ((b, a), l) =
      elim (Bool-cases (other.0 == te.0)) [
        | inl e ↦ rw e ((c, a), omega arith)
        | inr e ↦
            let (more, m) = put_entry-AllConsumed te n out c (a, omega arith) in
            rw e ((b, more), omega arith)
      ]

  entries_from-AllConsumed :
      (n base k : ℕ) (out : List (ℕ × Entry))
      → AllConsumed k out
      → AllConsumed (n + k) (entries_from r want n base out)
  unfolding entries_from
  entries_from-AllConsumed zero base k out h = (h.0, omega arith)
  entries_from-AllConsumed (suc n) base k out h = elim (Option-cases (entry_at r want base)) [
    | inl e ↦ let (a, l) = entries_from-AllConsumed n (base + 12) k out h in rw e (a, omega arith)
    | inr (te, e) ↦
        let put = put_entry-AllConsumed te k out (entry_at-IsConsumed base e) h in
        let (a, l) = entries_from-AllConsumed n (base + 12) (suc k) (put_entry te out) put in
        rw e (a, omega arith)
  ]

  -- Whatever the bytes are, each entry that the walk returns has a wanted tag, a known type and a
  -- bounded count, and its value is a part of the bytes as long as type and count say; there are at
  -- most 512 of them.
  pub walk_ifd-IsConsumed :
      (off : ℕ)
      → All IsConsumed (walk_ifd r off want) × (length (walk_ifd r off want) ≤ max_entries)
  unfolding walk_ifd
  walk_ifd-IsConsumed off = elim (Option-cases (u16 r off)) [
    | inl e ↦ rw (e, walk_ifd) (tt, omega arith)
    | inr (count, e) ↦
        let (a, l) =
          entries_from-AllConsumed (min count max_entries) (off + 2) 0 [] (tt, omega arith) in
        rw (e, walk_ifd) (a, omega arith)
  ]
