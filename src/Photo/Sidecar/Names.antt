-- ===== src/Photo/Sidecar/Names.antt =====
-- About the name that a sidecar's name gives.
use mathlib.Core.Option.{some-injective}
use roadbook.Prelude.{
  subst, All, map, if◌then◌else◌, ◌<◌, ℕ, suc, ◌+◌, ◌-◌, ◌≤◌, ◌≡◌, refl, sym, ap, ◌∙◌, inl, inr,
  Bool, true, false, not, [], ◌∷◌, ◌++◌, append_assoc, Option, none, some, Bool-cases, ◌&&◌, ltb,
  leb, length, take, drop, arith,
}
use roadbook.Detect.Bases.Numbers.{length-map}
use roadbook.Store.Tables.{Text}
use roadbook.Store.Keyed.{if_eq_then, if_eq_else}
use roadbook.Photo.Bytes.{cut, same_bytes}
use roadbook.Photo.Bytes.Cuts.{take-drop}
use roadbook.Photo.Sidecar.{
  has_prefix, has_suffix, json_suffix, last_here, last_index, suppl, has_dot, name_of_base, named,
  cut_marker, without_marker, without_json, sidecar_pair_name,
}

-- No name, or a name with a dot that the sidecar's own name begins with.
pub data IsPairName (file : Text) : Option Text → Type 0 where
  no_name : IsPairName file (some [])
  pair_name :
      (name rest : Text) → file ≡ name ++ rest → has_dot name ≡ true → IsPairName file (some name)

last_here-bound :
    (b : Bool) (i n : ℕ) (o : Option ℕ) {j : ℕ}
    → i ≤ n
    → ((k : ℕ) → o ≡ some k → k ≤ n)
    → last_here b i o ≡ some j
    → j ≤ n
last_here-bound b i n (some k) {j} le rest e =
    subst (λ x. x ≤ n) (some-injective k j e) (rest k refl)
last_here-bound true i n none {j} le rest e = subst (λ x. x ≤ n) (some-injective i j e) le
last_here-bound false i n none le rest e = cc

last_index-bound :
    (sub bytes : Text) (i : ℕ) {j : ℕ} → last_index sub bytes i ≡ some j → j ≤ i + length bytes
unfolding last_index
last_index-bound sub [] i e = cc
last_index-bound sub (b ∷ bytes) i {j} e =
    last_here-bound (has_prefix (b ∷ bytes) sub) i (i + length (b ∷ bytes))
      (last_index sub bytes (suc i)) (omega arith)
      (λ k e'. omega (arith, last_index-bound sub bytes (suc i) e')) e

and_first : (a b : Bool) → (a && b) ≡ true → a ≡ true
and_first true b e = refl
and_first false b e = cc

and_last : (a b : Bool) → (a && b) ≡ true → b ≡ true
and_last true b e = e
and_last false b e = cc

-- A base of a file's name: what it begins with.
data IsBase (file : Text) : Option Text → Type 0 where
  is_base : (base rest : Text) → file ≡ base ++ rest → IsBase file (some base)

cut_front : (name : Text) (n : ℕ) → n ≤ length name → cut name 0 n ≡ some (take n name)
unfolding cut
cut_front name n le =
    if_eq_then {b = leb 0 n && leb n (length name)} _ (ground (arith, le))
    ∙ ap (λ k. some (take k name)) (omega arith)

cut-IsBase : (name : Text) (n : ℕ) → n ≤ length name → IsBase name (cut name 0 n)
cut-IsBase name n le =
    subst (IsBase name) (sym (cut_front name n le))
      (is_base (take n name) (drop n name) (take-drop n name))

cut_marker-IsBase :
    (file base rest : Text) (o : Option ℕ)
    → file ≡ base ++ rest
    → ((k : ℕ) → o ≡ some k → k ≤ length base)
    → IsBase file (cut_marker base o)
cut_marker-IsBase file base rest none e le = is_base base rest e
cut_marker-IsBase file base rest (some idx) e le = elim (Bool-cases (ltb 0 idx)) [
  | inr first ↦ rw first (is_base base rest e)
  | inl later ↦
      rw (later, cut_front base idx (le idx refl))
        (is_base (take idx base) (drop idx base ++ rest) (
          e
          ∙ ap (λ l. l ++ rest) (take-drop idx base)
          ∙ append_assoc (take idx base) (drop idx base) rest))
]

name_of_base-IsPairName :
    (file base rest : Text) → file ≡ base ++ rest → IsPairName file (some (name_of_base base))
name_of_base-IsPairName file base rest e =
    elim (Bool-cases (not (same_bytes base []) && has_dot base)) [
      | inl named ↦
          rw named
            (pair_name base rest e (and_last (not (same_bytes base [])) (has_dot base) named))
      | inr nameless ↦ rw nameless no_name
    ]

named-IsPairName : (file : Text) (o : Option Text) → IsBase file o → IsPairName file (named o)
named-IsPairName file none b = elim b [ ]
named-IsPairName file (some base) (is_base base' rest e) = name_of_base-IsPairName file base rest e

without_json-IsBase : (file : Text) → 5 ≤ length file → IsBase file (without_json file)
without_json-IsBase file le =
    subst (IsBase file) (sym (if_eq_else {b = ltb (length file) 5} _ (ground (arith, le))))
      (cut-IsBase file (length file - 5) (omega (arith, le)))

unfoldable pub IsAscii : Text → Type 0
IsAscii = All (λ b. b < 128)

abbrev pub lower_byte : ℕ → ℕ
lower_byte b = if leb 65 b && leb b 90 then b + 32 else b

-- What is documented of strings.ToLower on a text of ASCII bytes.
abbrev pub LowersAscii : (Text → Text) → Type 0
LowersAscii to_lower = (t : Text) → IsAscii t → to_lower t ≡ map lower_byte t

IsAscii-front : (xs ys : Text) → IsAscii (xs ++ ys) → IsAscii xs
unfolding IsAscii
IsAscii-front [] ys h = tt
IsAscii-front (x ∷ xs) ys (p, h) = (p, IsAscii-front xs ys h)

module _ (to_lower : Text → Text) (lowers : LowersAscii to_lower) where
  length-to_lower : (t : Text) → IsAscii t → length (to_lower t) ≡ length t
  length-to_lower t ascii = ap length (lowers t ascii) ∙ length-map lower_byte t

  without_marker-IsBase :
      (file : Text) (o : Option Text)
      → IsAscii file
      → IsBase file o
      → IsBase file (without_marker to_lower o)
  without_marker-IsBase file none ascii b = elim b [ ]
  without_marker-IsBase file (some base) ascii (is_base base' rest e) =
      let keeps = length-to_lower base (IsAscii-front base rest (subst IsAscii e ascii)) in
      cut_marker-IsBase file base rest (last_index suppl (to_lower base) 0) e
        (λ k at. omega (arith, last_index-bound suppl (to_lower base) 0 at, keeps))

  long_enough :
      (file : Text) → IsAscii file → has_suffix (to_lower file) json_suffix ≡ true → 5 ≤ length file
  long_enough file ascii json =
      let long = and_first (leb 5 (length (to_lower file))) _ json in
      ground (arith, long, length-to_lower file ascii)

  -- If the sidecar's name is ASCII, which strings.ToLower lowers byte by byte, no slice is out of its
  -- bounds, and the answer is no name or one with a dot that the sidecar's name begins with.
  pub sidecar_pair_name-IsPairName :
      (file : Text) → IsAscii file → IsPairName file (sidecar_pair_name to_lower file)
  unfolding sidecar_pair_name
  sidecar_pair_name-IsPairName file ascii =
      elim (Bool-cases (has_suffix (to_lower file) json_suffix)) [
        | inr other ↦ rw other no_name
        | inl json ↦ rw json (
            named-IsPairName file (without_marker to_lower (without_json file)) (
              without_marker-IsBase file (without_json file) ascii
                (without_json-IsBase file (long_enough file ascii json))))
      ]
