-- ===== src/Timeline/Stream/Values.antt =====
-- JSON values, the tokens that they print to, and the reads of one value from the stream.
use Prim.Native.String.{String}
use roadbook.Prelude.{
  ℕ, suc, ◌≤◌, ◌≡◌, refl, sym, ap, ◌∙◌, true, List, [], ◌∷◌, ◌++◌, append_assoc, length, arith,
}
use roadbook.Timeline.Stream.{
  brace, square, Scalar, Token, open_with, close_with, string, scalar, StreamError, Decoder, Read,
  got, token, more, skip_nested, skip_value, prepend, read_nested, decode,
}

-- A JSON value.
mutual
  pub data Json : Type 0 where
    atom : Scalar → Json
    word : String → Json
    array_of : Elements → Json
    object_of : Fields → Json

  pub data Elements : Type 0 where
    nil : Elements
    cons : Json → Elements → Elements

  pub data Fields : Type 0 where
    nil_field : Fields
    field : String → Json → Fields → Fields

mutual
  pub tokens_of : Json → List Token
  tokens_of (atom v) = scalar v ∷ []
  tokens_of (word s) = string s ∷ []
  tokens_of (array_of es) = open_with square ∷ (element_tokens es ++ (close_with square ∷ []))
  tokens_of (object_of fs) = open_with brace ∷ (field_tokens fs ++ (close_with brace ∷ []))

  element_tokens : Elements → List Token
  element_tokens nil = []
  element_tokens (cons v es) = tokens_of v ++ element_tokens es

  field_tokens : Fields → List Token
  field_tokens nil_field = []
  field_tokens (field key v fs) = string key ∷ (tokens_of v ++ field_tokens fs)

mutual
  unfolding tokens_of element_tokens field_tokens skip_nested

  skip_nested-tokens_of :
      (v : Json) (depth : ℕ) (rest : List Token) (e : StreamError)
      → skip_nested (suc depth) (tokens_of v ++ rest) e ≡ skip_nested (suc depth) rest e
  skip_nested-tokens_of (atom v) depth rest e = refl
  skip_nested-tokens_of (word s) depth rest e = refl
  skip_nested-tokens_of (array_of es) depth rest e =
      ap (λ ts. skip_nested (suc (suc depth)) ts e) (append_assoc (element_tokens es) _ rest)
      ∙ skip_nested-element_tokens es (suc depth) (close_with square ∷ rest) e
  skip_nested-tokens_of (object_of fs) depth rest e =
      ap (λ ts. skip_nested (suc (suc depth)) ts e) (append_assoc (field_tokens fs) _ rest)
      ∙ skip_nested-field_tokens fs (suc depth) (close_with brace ∷ rest) e

  skip_nested-element_tokens :
      (es : Elements) (depth : ℕ) (rest : List Token) (e : StreamError)
      → skip_nested (suc depth) (element_tokens es ++ rest) e ≡ skip_nested (suc depth) rest e
  skip_nested-element_tokens nil depth rest e = refl
  skip_nested-element_tokens (cons v es) depth rest e =
      ap (λ ts. skip_nested (suc depth) ts e) (append_assoc (tokens_of v) (element_tokens es) rest)
      ∙ skip_nested-tokens_of v depth (element_tokens es ++ rest) e
      ∙ skip_nested-element_tokens es depth rest e

  skip_nested-field_tokens :
      (fs : Fields) (depth : ℕ) (rest : List Token) (e : StreamError)
      → skip_nested (suc depth) (field_tokens fs ++ rest) e ≡ skip_nested (suc depth) rest e
  skip_nested-field_tokens nil_field depth rest e = refl
  skip_nested-field_tokens (field key v fs) depth rest e =
      ap (λ ts. skip_nested (suc depth) ts e) (append_assoc (tokens_of v) (field_tokens fs) rest)
      ∙ skip_nested-tokens_of v depth (field_tokens fs ++ rest) e
      ∙ skip_nested-field_tokens fs depth rest e

-- The tokens put in front of what a read has given.
prepends : List Token → Read (List Token) → Read (List Token)
prepends [] r = r
prepends (t ∷ ts) r = prepend t (prepends ts r)

prepends-append :
    (ts us : List Token) (r : Read (List Token))
    → prepends (ts ++ us) r ≡ prepends ts (prepends us r)
unfolding prepends
prepends-append [] us r = refl
prepends-append (t ∷ ts) us r = ap (prepend t) (prepends-append ts us r)

prepends-got : (ts us : List Token) (dec : Decoder) → prepends ts (got us dec) ≡ got (ts ++ us) dec
unfolding prepends
prepends-got [] us dec = refl
prepends-got (t ∷ ts) us dec = ap (prepend t) (prepends-got ts us dec)

mutual
  unfolding tokens_of element_tokens field_tokens read_nested prepends

  read_nested-tokens_of :
      (v : Json) (depth : ℕ) (rest : List Token) (e : StreamError)
      → read_nested (suc depth) (tokens_of v ++ rest) e
        ≡ prepends (tokens_of v) (read_nested (suc depth) rest e)
  read_nested-tokens_of (atom v) depth rest e = refl
  read_nested-tokens_of (word s) depth rest e = refl
  read_nested-tokens_of (array_of es) depth rest e = ap (prepend (open_with square)) (
      ap (λ ts. read_nested (suc (suc depth)) ts e) (append_assoc (element_tokens es) _ rest)
      ∙ read_nested-element_tokens es (suc depth) (close_with square ∷ rest) e
      ∙ sym (prepends-append (element_tokens es) (close_with square ∷ []) _))
  read_nested-tokens_of (object_of fs) depth rest e = ap (prepend (open_with brace)) (
      ap (λ ts. read_nested (suc (suc depth)) ts e) (append_assoc (field_tokens fs) _ rest)
      ∙ read_nested-field_tokens fs (suc depth) (close_with brace ∷ rest) e
      ∙ sym (prepends-append (field_tokens fs) (close_with brace ∷ []) _))

  read_nested-element_tokens :
      (es : Elements) (depth : ℕ) (rest : List Token) (e : StreamError)
      → read_nested (suc depth) (element_tokens es ++ rest) e
        ≡ prepends (element_tokens es) (read_nested (suc depth) rest e)
  read_nested-element_tokens nil depth rest e = refl
  read_nested-element_tokens (cons v es) depth rest e =
      ap (λ ts. read_nested (suc depth) ts e) (append_assoc (tokens_of v) (element_tokens es) rest)
      ∙ read_nested-tokens_of v depth (element_tokens es ++ rest) e
      ∙ ap (prepends (tokens_of v)) (read_nested-element_tokens es depth rest e)
      ∙ sym (prepends-append (tokens_of v) (element_tokens es) _)

  read_nested-field_tokens :
      (fs : Fields) (depth : ℕ) (rest : List Token) (e : StreamError)
      → read_nested (suc depth) (field_tokens fs ++ rest) e
        ≡ prepends (field_tokens fs) (read_nested (suc depth) rest e)
  read_nested-field_tokens nil_field depth rest e = refl
  read_nested-field_tokens (field key v fs) depth rest e = ap (prepend (string key)) (
      ap (λ ts. read_nested (suc depth) ts e) (append_assoc (tokens_of v) (field_tokens fs) rest)
      ∙ read_nested-tokens_of v depth (field_tokens fs ++ rest) e
      ∙ ap (prepends (tokens_of v)) (read_nested-field_tokens fs depth rest e)
      ∙ sym (prepends-append (tokens_of v) (field_tokens fs) _))

-- The decoder on these tokens.
abbrev pub at : List Token → StreamError → Decoder
at ts e = record { tokens = ts; ending = e }

-- `skipValue` consumes exactly the tokens of one value.
pub skip_value-tokens_of :
    (v : Json) (rest : List Token) (e : StreamError)
    → skip_value (at (tokens_of v ++ rest) e) ≡ got tt (at rest e)
unfolding skip_value token tokens_of skip_nested
skip_value-tokens_of (atom v) rest e = refl
skip_value-tokens_of (word s) rest e = refl
skip_value-tokens_of (array_of es) rest e =
    ap (λ ts. skip_nested 1 ts e) (append_assoc (element_tokens es) _ rest)
    ∙ skip_nested-element_tokens es 0 (close_with square ∷ rest) e
skip_value-tokens_of (object_of fs) rest e =
    ap (λ ts. skip_nested 1 ts e) (append_assoc (field_tokens fs) _ rest)
    ∙ skip_nested-field_tokens fs 0 (close_with brace ∷ rest) e

-- `Decode` reads exactly the tokens of one value.
pub decode-tokens_of :
    (v : Json) (rest : List Token) (e : StreamError)
    → decode (at (tokens_of v ++ rest) e) ≡ got (tokens_of v) (at rest e)
unfolding decode token tokens_of read_nested
decode-tokens_of (atom v) rest e = refl
decode-tokens_of (word s) rest e = refl
decode-tokens_of (array_of es) rest e = ap (prepend (open_with square)) (
    ap (λ ts. read_nested 1 ts e) (append_assoc (element_tokens es) _ rest)
    ∙ read_nested-element_tokens es 0 (close_with square ∷ rest) e
    ∙ prepends-got (element_tokens es) _ _)
decode-tokens_of (object_of fs) rest e = ap (prepend (open_with brace)) (
    ap (λ ts. read_nested 1 ts e) (append_assoc (field_tokens fs) _ rest)
    ∙ read_nested-field_tokens fs 0 (close_with brace ∷ rest) e
    ∙ prepends-got (field_tokens fs) _ _)

pub more-tokens_of :
    (v : Json) (rest : List Token) (e : StreamError) → more (at (tokens_of v ++ rest) e) ≡ true
unfolding more tokens_of
more-tokens_of (atom v) rest e = refl
more-tokens_of (word s) rest e = refl
more-tokens_of (array_of es) rest e = refl
more-tokens_of (object_of fs) rest e = refl

pub length-tokens_of : (v : Json) → 1 ≤ length (tokens_of v)
unfolding tokens_of
length-tokens_of (atom v) = omega arith
length-tokens_of (word s) = omega arith
length-tokens_of (array_of es) = omega arith
length-tokens_of (object_of fs) = omega arith
