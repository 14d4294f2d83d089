-- ===== src/Photo/Bytes.antt =====
-- Bytes, what Go's slices and encoding/binary do with them, and the loop that both walks share.
-- `none` is a panic: a read or a slice that is out of range.
pub mod Cuts
use roadbook.Prelude.{
  ℕ, zero, suc, ◌+◌, ◌-◌, ◌*◌, Bool, true, false, ◌&&◌, List, [], ◌∷◌, Option, none, some, leb,
  ◌==◌, if◌then◌else◌, length, take, drop, foldl,
}

-- `data[i:j]`.
unfoldable pub cut : List ℕ → ℕ → ℕ → Option (List ℕ)
cut bytes i j = if leb i j && leb j (length bytes) then some (take (j - i) (drop i bytes)) else none

unfoldable pub be : List ℕ → ℕ
be bytes = foldl (λ v b. v * 256 + b) 0 bytes

-- `binary.BigEndian.UintN(data[i:i+n])`.
unfoldable pub be_at : List ℕ → ℕ → ℕ → Option ℕ
be_at bytes i n = elim (cut bytes i (i + n)) [ none ↦ none | some part ↦ some (be part) ]

unfoldable pub same_bytes : List ℕ → List ℕ → Bool
same_bytes [] [] = true
same_bytes (a ∷ bytes) (b ∷ more) = a == b && same_bytes bytes more
same_bytes _ _ = false

-- What one iteration does: it returns nothing, goes on at an index, or returns a value.
pub data Step {ℓ} (A : Type ℓ) : Type ℓ where
  stop : Step A
  next : ℕ → Step A
  found : A → Step A

-- How a loop ends, if it does: `stuck` is fuel that ran out.
pub data Ending {ℓ} (A : Type ℓ) : Type ℓ where
  stuck : Ending A
  panicked : Ending A
  done : Option A → Ending A

abbrev pub follow {ℓ} : {A : Type ℓ} → (ℕ → Ending A) → Option (Step A) → Ending A
follow rest none = panicked
follow rest (some stop) = done none
follow rest (some (next j)) = rest j
follow rest (some (found a)) = done (some a)

unfoldable pub walk {ℓ} : {A : Type ℓ} → (ℕ → Option (Step A)) → ℕ → ℕ → Ending A
walk body zero i = stuck
walk body (suc fuel) i = follow (λ j. walk body fuel j) (body i)
