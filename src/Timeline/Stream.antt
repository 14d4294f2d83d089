-- ===== src/Timeline/Stream.antt =====
-- The JSON stream under internal/timeline/parse.go: what a json.Decoder yields, and the helpers
-- `skipValue` and `expectDelim`. A decoder is the tokens up to its first error, and that error; commas
-- and colons are no tokens, and brackets that do not match are that error.
pub mod Reads
pub mod Values
use Prim.Native.String.{String}
use roadbook.Prelude.{ℕ, zero, suc, Bool, true, false, List, [], ◌∷◌}

pub data Bracket : Type 0 where
  brace square : Bracket

-- The other values: a number as its literal is written.
pub data Scalar : Type 0 where
  number : List ℕ → Scalar
  boolean : Bool → Scalar
  null : Scalar

pub data Token : Type 0 where
  open_with : Bracket → Token
  close_with : Bracket → Token
  string : String → Token
  scalar : Scalar → Token

-- `io.EOF` or `io.ErrUnexpectedEOF`, or any other error of the decoder.
pub data StreamError : Type 0 where
  early_end bad_syntax : StreamError

pub record Decoder : Type 0 where
  pub tokens : List Token
  pub ending : StreamError

-- What a read of the decoder gives.
pub data Read {ℓ} (A : Type ℓ) : Type ℓ where
  got : A → Decoder → Read A
  broken : StreamError → Read A

infixl 5 ◌>>=◌
abbrev pub ◌>>=◌ {ℓ κ} : {A : Type ℓ} {B : Type κ} → Read A → (A × Decoder → Read B) → Read B
got a dec >>= f = f (a, dec)
broken e >>= f = broken e

abbrev rest_of : List Token → StreamError → Read Token
rest_of [] e = broken e
rest_of (t ∷ ts) e = got t (record { tokens = ts; ending = e })

-- `dec.Token()`.
unfoldable pub token : Decoder → Read Token
token dec = rest_of dec.tokens dec.ending

abbrev more_in : List Token → Bool
more_in [] = false
more_in (close_with b ∷ ts) = false
more_in (t ∷ ts) = true

-- `dec.More()`.
unfoldable pub more : Decoder → Bool
more dec = more_in dec.tokens

-- The loop of `skipValue`.
unfoldable pub skip_nested : ℕ → List Token → StreamError → Read (Unit {0})
skip_nested zero ts e = got tt (record { tokens = ts; ending = e })
skip_nested (suc depth) [] e = broken e
skip_nested (suc depth) (open_with b ∷ ts) e = skip_nested (suc (suc depth)) ts e
skip_nested (suc depth) (close_with b ∷ ts) e = skip_nested depth ts e
skip_nested (suc depth) (string s ∷ ts) e = skip_nested (suc depth) ts e
skip_nested (suc depth) (scalar v ∷ ts) e = skip_nested (suc depth) ts e

abbrev skip_behind : Token → Decoder → Read (Unit {0})
unfolding skip_nested
skip_behind (open_with b) dec = skip_nested 1 dec.tokens dec.ending
skip_behind t dec = got tt dec

unfoldable pub skip_value : Decoder → Read (Unit {0})
unfolding token skip_nested
skip_value dec = token dec >>= λ (t, dec'). skip_behind t dec'

abbrev pub prepend : Token → Read (List Token) → Read (List Token)
prepend t (got ts dec) = got (t ∷ ts) dec
prepend t (broken e) = broken e

-- `dec.Decode` reads the tokens of one value before it looks at their type.
unfoldable pub read_nested : ℕ → List Token → StreamError → Read (List Token)
read_nested zero ts e = got [] (record { tokens = ts; ending = e })
read_nested (suc depth) [] e = broken e
read_nested (suc depth) (open_with b ∷ ts) e =
    prepend (open_with b) (read_nested (suc (suc depth)) ts e)
read_nested (suc depth) (close_with b ∷ ts) e = prepend (close_with b) (read_nested depth ts e)
read_nested (suc depth) (string s ∷ ts) e = prepend (string s) (read_nested (suc depth) ts e)
read_nested (suc depth) (scalar v ∷ ts) e = prepend (scalar v) (read_nested (suc depth) ts e)

abbrev read_behind : Token → Decoder → Read (List Token)
unfolding read_nested
read_behind (open_with b) dec = prepend (open_with b) (read_nested 1 dec.tokens dec.ending)
read_behind (close_with b) dec = broken bad_syntax
read_behind t dec = got (t ∷ []) dec

unfoldable pub decode : Decoder → Read (List Token)
unfolding token read_nested
decode dec = token dec >>= λ (t, dec'). read_behind t dec'
