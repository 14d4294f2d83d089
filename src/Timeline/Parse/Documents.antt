-- ===== src/Timeline/Parse/Documents.antt =====
-- About `Parse` (internal/timeline/parse.go) on whole documents: an object whose members are the
-- segments, the raw signals and others.
use Prim.Native.String.{String}
use text.Mathlib.Text.{◌==◌ as str_eq}
use roadbook.Prelude.{
  ℕ, zero, suc, ◌+◌, ◌≤◌, ◌<◌, ◌≡◌, refl, false, List, [], ◌∷◌, ◌++◌, none, some, All, length,
  foldl, length-append, if◌then◌else◌, arith,
}
use roadbook.Timeline.Stream.{
  brace, square, Token, open_with, close_with, string, StreamError, token, more,
}
use roadbook.Timeline.Stream.Values.{
  Json, tokens_of, at, skip_value-tokens_of, decode-tokens_of, more-tokens_of, length-tokens_of,
}
use roadbook.Timeline.Codec.{Codec}
use roadbook.Timeline.Segments.{Seen}
use roadbook.Timeline.Parse.{
  unrecognised, passed, Keys, take_segment, take_signal, each, array, skip_other, value_of, member,
  members, no_seen, no_keys, parse_stream, segments_key, signals_key, add_key,
}

-- A member of the top-level object.
pub data Member : Type 0 where
  segments : List Json → Member
  signals : List Json → Member
  other : String → Json → Member

abbrev pub key_name : Member → String
key_name (segments vs) = segments_key
key_name (signals vs) = signals_key
key_name (other key v) = key

-- The other keys are none of the two.
abbrev pub IsMember : Member → Type 0
IsMember (other key v) = (str_eq key segments_key ≡ false) × (str_eq key signals_key ≡ false)
IsMember _ = Unit

-- Tokens in front of a rest.
abbrev list_tokens : List Json → List Token → List Token
list_tokens [] rest = rest
list_tokens (v ∷ vs) rest = tokens_of v ++ list_tokens vs rest

abbrev member_tokens : Member → List Token → List Token
member_tokens (segments vs) rest =
    string segments_key ∷ open_with square ∷ list_tokens vs (close_with square ∷ rest)
member_tokens (signals vs) rest =
    string signals_key ∷ open_with square ∷ list_tokens vs (close_with square ∷ rest)
member_tokens (other key v) rest = string key ∷ (tokens_of v ++ rest)

abbrev document_tokens : List Member → List Token → List Token
document_tokens [] rest = rest
document_tokens (m ∷ ms) rest = member_tokens m (document_tokens ms rest)

-- The document: the object with these members.
abbrev pub document : List Member → List Token
document ms = open_with brace ∷ document_tokens ms (close_with brace ∷ [])

-- The iterations that a member needs.
abbrev size : Member → ℕ
size (segments vs) = suc (length vs)
size (signals vs) = suc (length vs)
size (other key v) = 1

abbrev total_size : List Member → ℕ
total_size [] = 1
total_size (m ∷ ms) = size m + total_size ms

total_size_pos : (ms : List Member) → 1 ≤ total_size ms
total_size_pos [] = omega arith
total_size_pos (m ∷ ms) = omega (arith, total_size_pos ms)

length-list_tokens :
    (vs : List Json) (rest : List Token) → length vs + length rest ≤ length (list_tokens vs rest)
length-list_tokens [] rest = omega arith
length-list_tokens (v ∷ vs) rest = omega (
  arith,
  length-append (tokens_of v) (list_tokens vs rest),
  length-tokens_of v,
  length-list_tokens vs rest,
)

length-member_tokens :
    (m : Member) (rest : List Token) → size m + length rest ≤ length (member_tokens m rest)
length-member_tokens (segments vs) rest =
    omega (arith, length-list_tokens vs (close_with square ∷ rest))
length-member_tokens (signals vs) rest =
    omega (arith, length-list_tokens vs (close_with square ∷ rest))
length-member_tokens (other key v) rest =
    omega (arith, length-append (tokens_of v) rest, length-tokens_of v)

length-document_tokens :
    (ms : List Member) (rest : List Token)
    → 1 ≤ length rest
    → total_size ms ≤ length (document_tokens ms rest)
length-document_tokens [] rest h = h
length-document_tokens (m ∷ ms) rest h =
    omega
      (arith, length-member_tokens m (document_tokens ms rest), length-document_tokens ms rest h)

abbrev pub add_keys : Keys → List Member → Keys
add_keys = foldl (λ keys m. add_key (key_name m) keys)

module _ {F : Type 0} (codec : Codec F) where
  -- What a member adds to what has been seen: each element in turn.
  abbrev pub read_member : Seen F → Member → Seen F
  read_member s (segments vs) = foldl (λ t v. take_segment codec (tokens_of v) t) s vs
  read_member s (signals vs) = foldl (λ t v. take_signal codec (tokens_of v) t) s vs
  read_member s (other key v) = s

  module _ (e : StreamError) where
    each-list_tokens :
        (step : List Token → Seen F → Seen F) (fuel : ℕ) (vs : List Json) (s : Seen F)
        (rest : List Token)
        → length vs < fuel
        → each codec step fuel s (at (list_tokens vs (close_with square ∷ rest)) e)
          ≡ passed (foldl (λ t v. step (tokens_of v) t) s vs) (at rest e)
    unfolding each more token
    each-list_tokens step zero vs s rest h = absurd (omega arith)
    each-list_tokens step (suc fuel) [] s rest h = refl
    each-list_tokens step (suc fuel) (v ∷ vs) s rest h =
        let tail = list_tokens vs (close_with square ∷ rest) in
        rw (more-tokens_of v tail e, decode-tokens_of v tail e)
          (each-list_tokens step fuel vs (step (tokens_of v) s) rest (omega arith))

    value_of-segments :
        (fuel : ℕ) (vs : List Json) (s : Seen F) (rest : List Token)
        → length vs < fuel
        → value_of codec fuel segments_key s
            (at (open_with square ∷ list_tokens vs (close_with square ∷ rest)) e)
          ≡ passed (read_member s (segments vs)) (at rest e)
    unfolding value_of array token
    value_of-segments fuel vs s rest h = each-list_tokens (take_segment codec) fuel vs s rest h

    value_of-signals :
        (fuel : ℕ) (vs : List Json) (s : Seen F) (rest : List Token)
        → length vs < fuel
        → value_of codec fuel signals_key s
            (at (open_with square ∷ list_tokens vs (close_with square ∷ rest)) e)
          ≡ passed (read_member s (signals vs)) (at rest e)
    unfolding value_of array token
    value_of-signals fuel vs s rest h = each-list_tokens (take_signal codec) fuel vs s rest h

    value_of-other :
        (fuel : ℕ) (key : String) (v : Json) (s : Seen F) (rest : List Token)
        → IsMember (other key v)
        → value_of codec fuel key s (at (tokens_of v ++ rest) e) ≡ passed s (at rest e)
    unfolding value_of skip_other
    value_of-other fuel key v s rest (a, b) = rw (a, b, skip_value-tokens_of v rest e) refl

    member-member_tokens :
        (fuel : ℕ) (m : Member) (s : Seen F) (rest : List Token)
        → IsMember m
        → size m ≤ fuel
        → member codec fuel s (at (member_tokens m rest) e) ≡ passed (read_member s m) (at rest e)
    unfolding member token
    member-member_tokens fuel (segments vs) s rest i h =
        value_of-segments fuel vs s rest (omega arith)
    member-member_tokens fuel (signals vs) s rest i h =
        value_of-signals fuel vs s rest (omega arith)
    member-member_tokens fuel (other key v) s rest i h = value_of-other fuel key v s rest i

    members-document_tokens :
        (fuel : ℕ) (keys : Keys) (ms : List Member) (s : Seen F)
        → All IsMember ms
        → total_size ms ≤ fuel
        → members codec fuel keys s (at (document_tokens ms (close_with brace ∷ [])) e)
          ≡ some (
            foldl read_member s ms,
            if (add_keys keys ms).found then none else some (unrecognised (add_keys keys ms).names),
          )
    unfolding members more token
    members-document_tokens zero keys ms s i h = absurd (omega (arith, total_size_pos ms))
    members-document_tokens (suc fuel) keys [] s i h = refl
    members-document_tokens (suc fuel) keys (segments vs ∷ ms) s (im, i) h =
        rw
          (member-member_tokens fuel (segments vs) s (document_tokens ms (close_with brace ∷ [])) im
            (omega (arith, total_size_pos ms)))
          (members-document_tokens fuel (add_key (key_name (segments vs)) keys) ms
            (read_member s (segments vs)) i (omega arith))
    members-document_tokens (suc fuel) keys (signals vs ∷ ms) s (im, i) h =
        rw
          (member-member_tokens fuel (signals vs) s (document_tokens ms (close_with brace ∷ [])) im
            (omega (arith, total_size_pos ms)))
          (members-document_tokens fuel (add_key (key_name (signals vs)) keys) ms
            (read_member s (signals vs)) i (omega arith))
    members-document_tokens (suc fuel) keys (other key v ∷ ms) s (im, i) h =
        rw
          (member-member_tokens fuel (other key v) s (document_tokens ms (close_with brace ∷ [])) im
            (omega (arith, total_size_pos ms)))
          (members-document_tokens fuel (add_key (key_name (other key v)) keys) ms
            (read_member s (other key v)) i (omega arith))

-- On a document `Parse` returns what its members give in turn, each element of the segments and of the
-- raw signals taken in order and every other value skipped, with no error if it has a segments member,
-- and else the error that names its keys.
pub parse_stream-document :
    {F : Type 0} (codec : Codec F) (ms : List Member) (e : StreamError)
    → All IsMember ms
    → parse_stream codec (at (document ms) e)
      ≡ some (
        foldl (read_member codec) no_seen ms,
        if (add_keys no_keys ms).found
            then none
            else some (unrecognised (add_keys no_keys ms).names),
      )
unfolding parse_stream token
parse_stream-document codec ms e i =
    members-document_tokens codec e (suc (length (document ms))) no_keys ms no_seen i
      (omega (arith, length-document_tokens ms (close_with brace ∷ []) (omega arith)))
