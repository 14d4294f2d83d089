-- ===== src/Timeline/Stream/Reads.antt =====
-- About the reads of the stream: how many tokens they leave.
use roadbook.Prelude.{ℕ, zero, suc, ◌≤◌, ◌<◌, List, [], ◌∷◌, length, arith}
use roadbook.Timeline.Stream.{
  Token, open_with, close_with, string, scalar, StreamError, Read, got, broken, token, prepend,
  read_nested, decode, skip_nested, skip_value,
}

-- A read that succeeds leaves at most `n` tokens.
abbrev Leaves {ℓ} : {A : Type ℓ} → ℕ → Read A → Type 0
Leaves n (got v dec) = length dec.tokens ≤ n
Leaves n (broken e) = Unit

Leaves-mono {ℓ} : {A : Type ℓ} (m n : ℕ) (r : Read A) → m ≤ n → Leaves m r → Leaves n r
Leaves-mono m n (got v dec) h l = omega arith
Leaves-mono m n (broken e) h l = tt

prepend-Leaves :
    (t : Token) (n : ℕ) (r : Read (List Token)) → Leaves n r → Leaves (suc n) (prepend t r)
prepend-Leaves t n (got ts dec) l = omega arith
prepend-Leaves t n (broken e) l = tt

prepend_same : (t : Token) (n : ℕ) (r : Read (List Token)) → Leaves n r → Leaves n (prepend t r)
prepend_same t n (got ts dec) l = l
prepend_same t n (broken e) l = tt

read_nested-Leaves :
    (depth : ℕ) (ts : List Token) (e : StreamError) → Leaves (length ts) (read_nested depth ts e)
unfolding read_nested
read_nested-Leaves zero ts e = omega arith
read_nested-Leaves (suc depth) [] e = tt
read_nested-Leaves (suc depth) (open_with b ∷ ts) e =
    prepend-Leaves (open_with b) _ _ (read_nested-Leaves (suc (suc depth)) ts e)
read_nested-Leaves (suc depth) (close_with b ∷ ts) e =
    prepend-Leaves (close_with b) _ _ (read_nested-Leaves depth ts e)
read_nested-Leaves (suc depth) (string s ∷ ts) e =
    prepend-Leaves (string s) _ _ (read_nested-Leaves (suc depth) ts e)
read_nested-Leaves (suc depth) (scalar v ∷ ts) e =
    prepend-Leaves (scalar v) _ _ (read_nested-Leaves (suc depth) ts e)

skip_nested-Leaves :
    (depth : ℕ) (ts : List Token) (e : StreamError) → Leaves (length ts) (skip_nested depth ts e)
unfolding skip_nested
skip_nested-Leaves zero ts e = omega arith
skip_nested-Leaves (suc depth) [] e = tt
skip_nested-Leaves (suc depth) (open_with b ∷ ts) e =
    Leaves-mono _ _ _ (omega arith) (skip_nested-Leaves (suc (suc depth)) ts e)
skip_nested-Leaves (suc depth) (close_with b ∷ ts) e =
    Leaves-mono _ _ _ (omega arith) (skip_nested-Leaves depth ts e)
skip_nested-Leaves (suc depth) (string s ∷ ts) e =
    Leaves-mono _ _ _ (omega arith) (skip_nested-Leaves (suc depth) ts e)
skip_nested-Leaves (suc depth) (scalar v ∷ ts) e =
    Leaves-mono _ _ _ (omega arith) (skip_nested-Leaves (suc depth) ts e)

-- A read takes at least one token.
abbrev pub Shrinks {ℓ} : {A : Type ℓ} → ℕ → Read A → Type 0
Shrinks n (got v dec) = length dec.tokens < n
Shrinks n (broken e) = Unit

Leaves-Shrinks {ℓ} : {A : Type ℓ} (n : ℕ) (r : Read A) → Leaves n r → Shrinks (suc n) r
Leaves-Shrinks n (got v dec) l = omega arith
Leaves-Shrinks n (broken e) l = tt

pub token-Shrinks :
    (ts : List Token) (e : StreamError)
    → Shrinks (length ts) (token (record { tokens = ts; ending = e }))
unfolding token
token-Shrinks [] e = tt
token-Shrinks (t ∷ ts) e = omega arith

pub decode-Shrinks :
    (ts : List Token) (e : StreamError)
    → Shrinks (length ts) (decode (record { tokens = ts; ending = e }))
unfolding decode token
decode-Shrinks [] e = tt
decode-Shrinks (open_with b ∷ ts) e =
    Leaves-Shrinks (length ts) _
      (prepend_same (open_with b) _ (read_nested 1 ts e) (read_nested-Leaves 1 ts e))
decode-Shrinks (close_with b ∷ ts) e = tt
decode-Shrinks (string s ∷ ts) e = omega arith
decode-Shrinks (scalar v ∷ ts) e = omega arith

pub skip_value-Shrinks :
    (ts : List Token) (e : StreamError)
    → Shrinks (length ts) (skip_value (record { tokens = ts; ending = e }))
unfolding skip_value token
skip_value-Shrinks [] e = tt
skip_value-Shrinks (open_with b ∷ ts) e = Leaves-Shrinks _ _ (skip_nested-Leaves 1 ts e)
skip_value-Shrinks (close_with b ∷ ts) e = omega arith
skip_value-Shrinks (string s ∷ ts) e = omega arith
skip_value-Shrinks (scalar v ∷ ts) e = omega arith
