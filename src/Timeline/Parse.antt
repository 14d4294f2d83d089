-- ===== src/Timeline/Parse.antt =====
-- `Parse` and `parseRawSignals` of internal/timeline/parse.go behind the sniffer: the loops over the
-- stream. What has been parsed is returned with an error too.
pub mod Loops
pub mod Documents
use Prim.Native.String.{String}
use text.Mathlib.Text.{◌==◌ as str_eq}
use roadbook.Prelude.{
  ℕ, zero, suc, Bool, true, false, List, [], ◌∷◌, ◌++◌, Option, none, some, length, if◌then◌else◌,
}
use roadbook.Timeline.Stream.{
  Bracket, brace, square, Token, open_with, close_with, string, scalar, StreamError, early_end,
  bad_syntax, Decoder, Read, got, broken, token, more, skip_value, decode,
}
use roadbook.Timeline.Codec.{Codec}
use roadbook.Timeline.Segments.{Seen, skip, process_segment, process_signal}

-- An `UnsupportedInputError` of the parser, by its slug; `unrecognised` has the keys that were seen.
pub data ParseError : Type 0 where
  truncated malformed : ParseError
  unrecognised : List String → ParseError

-- The function `truncated`.
abbrev pub stream_error : StreamError → ParseError
stream_error early_end = truncated
stream_error bad_syntax = malformed

-- How a loop ends: out of fuel, with an error, or behind what it reads.
pub data Scan (F : Type 0) : Type 0 where
  ran_out : Scan F
  halted : ParseError → Seen F → Scan F
  passed : Seen F → Decoder → Scan F

abbrev is_bracket : Bracket → Token → Bool
is_bracket brace (open_with brace) = true
is_bracket square (open_with square) = true
is_bracket b t = false

-- A failed read stops the loop, with what it has seen.
abbrev on_read {ℓ} : {A : Type ℓ} {F : Type 0} → Seen F → (A → Decoder → Scan F) → Read A → Scan F
on_read s next (broken e) = halted (stream_error e) s
on_read s next (got v dec) = next v dec

-- `expectDelim`.
abbrev expect_delim : {F : Type 0} → Bracket → Seen F → (Decoder → Scan F) → Decoder → Scan F
expect_delim b s next dec =
    on_read s (λ t dec'. if is_bracket b t then next dec' else halted malformed s) (token dec)

-- The token behind the last element.
abbrev close : {F : Type 0} → Seen F → Decoder → Scan F
close s dec = on_read s (λ t dec'. passed s dec') (token dec)

-- The keys so far and whether one of them was "semanticSegments".
pub record Keys : Type 0 where
  pub names : List String
  pub found : Bool

abbrev pub segments_key : String
segments_key = "semanticSegments"

abbrev pub signals_key : String
signals_key = "rawSignals"

abbrev add_key : String → Keys → Keys
add_key key keys = record {
  names = keys.names ++ (key ∷ []);
  found = if str_eq key segments_key then true else keys.found;
}

abbrev keys_with : Keys → List Token → Keys
keys_with keys (string key ∷ ts) = add_key key keys
keys_with keys ts = keys

abbrev pub no_keys : Keys
no_keys = record { names = []; found = false }

module _ {F : Type 0} where
  -- What `Parse` returns: what it has seen, and the error if there is one; `none` is no fuel.
  abbrev on_scan :
      (Seen F → Decoder → Option (Seen F × Option ParseError))
      → Scan F
      → Option (Seen F × Option ParseError)
  on_scan next ran_out = none
  on_scan next (halted e s) = some (s, some e)
  on_scan next (passed s dec) = next s dec

  abbrev finish : Keys → Seen F → Decoder → Option (Seen F × Option ParseError)
  finish keys s dec =
      on_scan (λ s' dec'. some (s', if keys.found then none else some (unrecognised keys.names)))
        (close s dec)

  -- A key, or else the input is malformed.
  abbrev on_key : Seen F → (String → Scan F) → Token → Scan F
  on_key s next (string key) = next key
  on_key s next t = halted malformed s

  abbrev pub no_seen : Seen F
  no_seen = record {
    obs = record { visits = []; activities = []; points = []; raw_positions = [] };
    st = record { visits = 0; activities = 0; points = 0; raw_positions = 0; skipped = 0 };
  }

module _ {F : Type 0} (codec : Codec F) where
  open codec use {segment, signal}

  -- An element of a type that does not fit is counted and skipped.
  unfoldable pub take_segment : List Token → Seen F → Seen F
  unfolding process_segment
  take_segment v s = elim (segment v) [ none ↦ skip s | some seg ↦ process_segment codec s seg ]

  unfoldable pub take_signal : List Token → Seen F → Seen F
  unfolding process_signal
  take_signal v s = elim (signal v) [ none ↦ skip s | some sig ↦ process_signal codec s sig ]

  -- The loop over an array's elements.
  each : (List Token → Seen F → Seen F) → ℕ → Seen F → Decoder → Scan F
  unfolding more decode token
  each step zero s dec = ran_out
  each step (suc fuel) s dec =
      if more dec
      then on_read s (λ v dec'. each step fuel (step v s) dec') (decode dec)
      else close s dec

  array : (List Token → Seen F → Seen F) → ℕ → Seen F → Decoder → Scan F
  unfolding each token
  array step fuel s dec = expect_delim square s (each step fuel s) dec

  skip_other : Seen F → Decoder → Scan F
  unfolding skip_value
  skip_other s dec = on_read s (λ t dec'. passed s dec') (skip_value dec)

  -- The value behind a key.
  value_of : ℕ → String → Seen F → Decoder → Scan F
  unfolding array take_segment take_signal skip_other
  value_of fuel key s dec =
      if str_eq key segments_key
      then array take_segment fuel s dec
      else if str_eq key signals_key
      then array take_signal fuel s dec
      else skip_other s dec

  -- A key and its value, and the keys with it.
  member : ℕ → Seen F → Decoder → Scan F
  unfolding token value_of
  member fuel s dec = on_read s (λ t dec'. on_key s (λ key. value_of fuel key s dec') t) (token dec)

  -- The loop over the top-level keys.
  members : ℕ → Keys → Seen F → Decoder → Option (Seen F × Option ParseError)
  unfolding more member
  members zero keys s dec = none
  members (suc fuel) keys s dec =
      let rest =
        on_scan (λ s' dec'. members fuel (keys_with keys dec.tokens) s' dec') (member fuel s dec) in
      if more dec then rest else finish keys s dec

  -- `Parse` from the decoder on. Each iteration reads a token, so that one more step than there are
  -- tokens is enough.
  unfoldable pub parse_stream : Decoder → Option (Seen F × Option ParseError)
  unfolding members token
  parse_stream dec =
      on_scan (λ s dec'. members (suc (length dec.tokens)) no_keys s dec')
        (expect_delim brace no_seen (λ dec'. passed no_seen dec') dec)
