-- ===== src/Route/Keys.antt =====
-- The keys that the batch collects of a journey.
use Prim.Native.String.{String}
use text.Mathlib.TextEquality.{eq_iff}
use mathlib.Core.List.Memᴰ
use roadbook.Prelude.{
  ◌||◌, mem_cases, subst, ◌≡◌, refl, sym, inl, inr, true, false, List, [], ◌∷◌, ◌++◌, some, Memᴰ,
  All, Bool-cases, Option-cases, arith,
}
use roadbook.Prelude.Int.{ℤ}
use roadbook.Floats.{Float}
use mathlib.Core.Option.{some-injective}
use roadbook.Times.{Time}
use roadbook.Domain.{Observations}
use roadbook.Journey.Legs.{split_legs, observed_leg, gap_leg}
use roadbook.Journey.Legs.Partition.{IsAlternating, split_legs-IsAlternating}
use roadbook.Journey.Assemble.{kept_points, assemble}
use roadbook.Journey.Types.{TimedPoint, Params, Leg}
use roadbook.Route.{unknown_keys, keys_from, Key, same_int, same_key, seen, is_unknown, key_of}

same_int→eq : (a b : ℤ) → same_int a b ≡ true → a ≡ b
same_int→eq a b h = ground arith

same_key→eq : (k l : Key) → same_key k l ≡ true → k ≡ l
unfolding same_key
same_key→eq k l h = ground (
  arith,
  same_int→eq k.from_lat_e4 l.from_lat_e4,
  same_int→eq k.from_lon_e4 l.from_lon_e4,
  same_int→eq k.to_lat_e4 l.to_lat_e4,
  same_int→eq k.to_lon_e4 l.to_lon_e4,
  eq_iff k.profile l.profile,
)

seen→Mem : (k : Key) (keys : List Key) → seen k keys ≡ true → Memᴰ k keys
unfolding seen
seen→Mem k [] h = cc
seen→Mem k (l ∷ keys) h = elim (Bool-cases (same_key l k)) [
  | inl e ↦ Memᴰ.head (sym (same_key→eq l k e))
  | inr e ↦ Memᴰ.tail (seen→Mem k keys (rw e at h))
]

same_key_refl : (k : Key) → same_key k k ≡ true
unfolding same_key
same_key_refl k = rw ((eq_iff k.profile k.profile).1 refl) (ground arith)

Mem→seen : (k : Key) (keys : List Key) → Memᴰ k keys → seen k keys ≡ true
unfolding seen
Mem→seen k [] m = elim m [ ]
Mem→seen k (l ∷ keys) (Memᴰ.head e) =
    subst (λ q. (same_key q k || seen k keys) ≡ true) e (rw (same_key_refl k) refl)
Mem→seen k (l ∷ keys) (Memᴰ.tail m) = elim (Bool-cases (same_key l k)) [
  | inl e ↦ rw e refl
  | inr e ↦ rw e (Mem→seen k keys m)
]

-- No key occurs twice.
abbrev pub IsDistinct : List Key → Type 0
IsDistinct [] = Unit
IsDistinct (k ∷ keys) = (Memᴰ k keys → ⊥) × IsDistinct keys

IsDistinct-snoc :
    (keys : List Key) (q : Key)
    → seen q keys ≡ false
    → IsDistinct keys
    → IsDistinct (keys ++ (q ∷ []))
unfolding seen
IsDistinct-snoc [] q h d = ((λ m. elim m [ ]), tt)
IsDistinct-snoc (k ∷ keys) q h (fresh, d) = elim (Bool-cases (same_key k q)) [
  | inl e ↦ cc (rw e at h)
  | inr e ↦ (
    (λ m. elim (Memᴰ.append_cases keys m) [
      | inl old ↦ fresh old
      | inr last ↦ elim (mem_cases last) [
        | inl same ↦
            let differs = subst (λ l. same_key l q ≡ false) same e in
            cc (rw (same_key_refl q) at differs)
        | inr nil ↦ elim nil [ ]
      ]
    ]),
    IsDistinct-snoc keys q (rw e at h) d,
  )
]

module _ {F : Type 0} ⦃fl : Float F⦄ (profile : String) where
  -- An unknown gap has the two points that its key is made of.
  abbrev pub HasEnds : Leg F → Type 0
  HasEnds l = is_unknown l.kind l.gap_kind ≡ true → (k : Key) × (key_of profile l.points ≡ some k)

  keys_from-mono :
      (legs : List (Leg F)) (keys out : List Key) {k : Key}
      → keys_from profile keys legs ≡ some out
      → Memᴰ k keys
      → Memᴰ k out
  unfolding keys_from
  keys_from-mono [] keys out {k} e m = subst (Memᴰ k) (some-injective keys out e) m
  keys_from-mono (l ∷ legs) keys out {k} e m = elim (Bool-cases (is_unknown l.kind l.gap_kind)) [
    | inr f ↦ keys_from-mono legs keys out (rw f at e) m
    | inl f ↦ elim (Option-cases (key_of profile l.points)) [
      | inl n ↦ cc (rw (f, n) at e)
      | inr (q, s) ↦ elim (Bool-cases (seen q keys)) [
        | inl old ↦ keys_from-mono legs keys out (rw (f, s, old) at e) m
        | inr new ↦
            keys_from-mono legs (keys ++ (q ∷ [])) out (rw (f, s, new) at e)
              (Memᴰ.append_left (q ∷ []) m)
      ]
    ]
  ]

  -- The key of every unknown gap is among those that the loop collects.
  abbrev pub IsCollected : List Key → Leg F → Type 0
  IsCollected out l =
      is_unknown l.kind l.gap_kind ≡ true
      → (k : Key) × (key_of profile l.points ≡ some k) × Memᴰ k out

  pub keys_from-IsCollected :
      (legs : List (Leg F)) (keys out : List Key)
      → keys_from profile keys legs ≡ some out
      → All (IsCollected out) legs
  unfolding keys_from
  keys_from-IsCollected [] keys out e = tt
  keys_from-IsCollected (l ∷ legs) keys out e = elim (Bool-cases (is_unknown l.kind l.gap_kind)) [
    | inr f ↦ ((λ h. cc), keys_from-IsCollected legs keys out (rw f at e))
    | inl f ↦ elim (Option-cases (key_of profile l.points)) [
      | inl n ↦ cc (rw (f, n) at e)
      | inr (q, s) ↦ elim (Bool-cases (seen q keys)) [
        | inl old ↦
            let rest = rw (f, s, old) at e in
            (
              (λ h. (q, s, keys_from-mono legs keys out rest (seen→Mem q keys old))),
              keys_from-IsCollected legs keys out rest,
            )
        | inr new ↦
            let rest = rw (f, s, new) at e in
            (
              (λ h. (
                q,
                s,
                keys_from-mono legs (keys ++ (q ∷ [])) out rest
                    (Memᴰ.append_right keys (Memᴰ.head refl)),
              )),
              keys_from-IsCollected legs (keys ++ (q ∷ [])) out rest,
            )
      ]
    ]
  ]

  IsAlternating-HasEnds :
      (p : Params F) {legs : List (Leg F)} → IsAlternating p legs → All HasEnds legs
  unfolding observed_leg gap_leg
  IsAlternating-HasEnds p (IsAlternating.one run last h) = ((λ e. cc), tt)
  IsAlternating-HasEnds p (IsAlternating.more run last next legs h e f rest) =
      ((λ e. cc), ((λ e. (_, refl)), IsAlternating-HasEnds p rest))

  pub split_legs-HasEnds :
      (p : Params F) (kept : List (TimedPoint F)) → All HasEnds (split_legs p kept)
  split_legs-HasEnds p [] = unfold split_legs in tt
  split_legs-HasEnds p (k ∷ kept) = IsAlternating-HasEnds p (split_legs-IsAlternating p k kept).0

  keys_from-IsDistinct :
      (legs : List (Leg F)) (keys : List Key)
      → All HasEnds legs
      → IsDistinct keys
      → (out : List Key) × (keys_from profile keys legs ≡ some out) × IsDistinct out
  unfolding keys_from
  keys_from-IsDistinct [] keys h d = (keys, refl, d)
  keys_from-IsDistinct (l ∷ legs) keys (ends, h) d =
      elim (Bool-cases (is_unknown l.kind l.gap_kind)) [
        | inr f ↦ rw f (keys_from-IsDistinct legs keys h d)
        | inl f ↦
            let (q, s) = ends f in
            elim (Bool-cases (seen q keys)) [
              | inl old ↦ rw (f, s, old) (keys_from-IsDistinct legs keys h d)
              | inr new ↦
                  rw (f, s, new)
                    (keys_from-IsDistinct legs (keys ++ (q ∷ [])) h (IsDistinct-snoc keys q new d))
            ]
      ]

  -- On an assembled journey the batch collects its keys without a panic, none of them twice, and the
  -- key of every unknown gap is among them.
  pub unknown_keys-assemble :
      (obs : Observations F) (win_start win_end : Time) (p : Params F)
      → let j = assemble obs win_start win_end p in
        (keys : List Key) × (unknown_keys j profile ≡ some keys)
        × IsDistinct keys
        × All (IsCollected keys) j.legs
  unfolding assemble unknown_keys
  unknown_keys-assemble obs win_start win_end p =
      let legs = split_legs p (kept_points obs win_start win_end p) in
      let (keys, e, d) = keys_from-IsDistinct legs [] (split_legs-HasEnds p _) tt in
      (keys, e, d, keys_from-IsCollected legs [] keys e)
