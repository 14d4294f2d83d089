-- ===== src/Timeline/Parse/Loops.antt =====
-- About the loops of `Parse` (internal/timeline/parse.go): that they end, and what they count.
use Prim.Native.String.{String}
use text.Mathlib.Text.{◌==◌ as str_eq}
use roadbook.Prelude.{
  ℕ, zero, suc, ◌≤◌, ◌<◌, ◌-◌, ◌≡◌, refl, inl, inr, true, List, [], ◌∷◌, Option, some, length,
  Bool-cases, Option-cases, arith,
}
use roadbook.Timeline.Stream.{
  square, brace, Token, open_with, close_with, string, scalar, StreamError, Decoder, Read, got,
  broken, token, more, decode, skip_value,
}
use roadbook.Timeline.Stream.Reads.{Shrinks, token-Shrinks, decode-Shrinks, skip_value-Shrinks}
use roadbook.Timeline.Codec.{Codec}
use roadbook.Timeline.Segments.{Seen}
use roadbook.Timeline.Segments.Counts.{
  IsCounted, skip-IsCounted, process_segment-IsCounted, process_signal-IsCounted,
}
use roadbook.Timeline.Parse.{
  ParseError, Scan, ran_out, halted, passed, Keys, is_bracket, take_segment, take_signal, each,
  array, skip_other, value_of, members, no_seen, no_keys, parse_stream, segments_key, signals_key,
  close, on_read, on_scan, on_key, member,
}

shrinks {ℓ} :
    {A : Type ℓ} (n : ℕ) (r : Read A) {v : A} {dec : Decoder}
    → r ≡ got v dec
    → Shrinks n r
    → length dec.tokens < n
shrinks n r e h = rw e at h

more_tokens_of :
    (ts : List Token) (e : StreamError)
    → more (record { tokens = ts; ending = e }) ≡ true
    → 0 < length ts
unfolding more
more_tokens_of [] e h = cc
more_tokens_of (t ∷ ts) e h = omega arith

more_tokens : (dec : Decoder) → more dec ≡ true → 0 < length dec.tokens
more_tokens dec h = more_tokens_of dec.tokens dec.ending h

module _ {F : Type 0} (codec : Codec F) where
  take_segment-IsCounted :
      (v : List Token) (s : Seen F) → IsCounted s → IsCounted (take_segment codec v s)
  unfolding take_segment
  take_segment-IsCounted v s c = elim (Option-cases (codec.segment v)) [
    | inl e ↦ rw (e, take_segment) (skip-IsCounted s c)
    | inr (seg, e) ↦ rw (e, take_segment) (process_segment-IsCounted codec s seg c)
  ]

  take_signal-IsCounted :
      (v : List Token) (s : Seen F) → IsCounted s → IsCounted (take_signal codec v s)
  unfolding take_signal
  take_signal-IsCounted v s c = elim (Option-cases (codec.signal v)) [
    | inl e ↦ rw (e, take_signal) (skip-IsCounted s c)
    | inr (sig, e) ↦ rw (e, take_signal) (process_signal-IsCounted codec s sig c)
  ]

module _ {F : Type 0} (codec : Codec F) (P : Seen F → Type 0) where
  -- The loop has ended, what it has seen has the property, and no more than `n` tokens are left.
  abbrev Ends : ℕ → Scan F → Type 0
  Ends n ran_out = ⊥
  Ends n (halted e s) = P s
  Ends n (passed s dec) = P s × (length dec.tokens ≤ n)

  Ends-mono : (m n : ℕ) (r : Scan F) → m ≤ n → Ends m r → Ends n r
  Ends-mono m n ran_out h p = p
  Ends-mono m n (halted e s) h p = p
  Ends-mono m n (passed s dec) h (p, l) = (p, omega arith)

  on_read-Ends {ℓ} :
      {A : Type ℓ} (n : ℕ) (s : Seen F) (next : A → Decoder → Scan F) (r : Read A)
      → P s
      → ((v : A) (dec : Decoder) → r ≡ got v dec → Ends n (next v dec))
      → Ends n (on_read s next r)
  on_read-Ends n s next (broken e) p h = p
  on_read-Ends n s next (got v dec) p h = h v dec refl

  close-Ends : (s : Seen F) (dec : Decoder) → P s → Ends (length dec.tokens) (close s dec)
  close-Ends s dec p =
      on_read-Ends _ s _ (token dec) p λ t dec' f.
        let less = shrinks _ _ f (token-Shrinks dec.tokens dec.ending) in (p, omega arith)

  module _ (step : List Token → Seen F → Seen F)
      (keeps : (v : List Token) (s : Seen F) → P s → P (step v s)) where
    each-Ends :
        (fuel : ℕ) (s : Seen F) (dec : Decoder)
        → length dec.tokens < fuel
        → P s
        → Ends (length dec.tokens) (each codec step fuel s dec)
    unfolding each
    each-Ends zero s dec h p = absurd (omega arith)
    each-Ends (suc fuel) s dec h p = elim (Bool-cases (more dec)) [
      | inr e ↦ rw e (close-Ends s dec p)
      | inl e ↦ rw e (
          on_read-Ends _ s _ (decode dec) p λ v dec' f.
            let less = shrinks _ _ f (decode-Shrinks dec.tokens dec.ending) in
            Ends-mono (length dec'.tokens) (length dec.tokens)
              (each codec step fuel (step v s) dec') (omega arith)
              (each-Ends fuel (step v s) dec' (omega arith) (keeps v s p)))
    ]

    array-Ends :
        (fuel : ℕ) (s : Seen F) (dec : Decoder)
        → length dec.tokens ≤ fuel
        → P s
        → Ends (length dec.tokens) (array codec step fuel s dec)
    unfolding array
    array-Ends fuel s dec h p = on_read-Ends _ s _ (token dec) p λ t dec' f.
        let less = shrinks _ _ f (token-Shrinks dec.tokens dec.ending) in
        elim (Bool-cases (is_bracket square t)) [
          | inr g ↦ rw g p
          | inl g ↦ rw g (
              Ends-mono (length dec'.tokens) (length dec.tokens) (each codec step fuel s dec')
                (omega arith) (each-Ends fuel s dec' (omega arith) p))
        ]

  skip_other-Ends :
      (s : Seen F) (dec : Decoder) → P s → Ends (length dec.tokens) (skip_other codec s dec)
  unfolding skip_other
  skip_other-Ends s dec p = on_read-Ends _ s _ (skip_value dec) p λ t dec' f.
      let less = shrinks _ _ f (skip_value-Shrinks dec.tokens dec.ending) in (p, omega arith)

  abbrev pub IsParsed : Option (Seen F × Option ParseError) → Type 0
  IsParsed o = (s : Seen F) × (err : Option ParseError) × (o ≡ some (s, err)) × P s

  on_scan-IsParsed :
      (n : ℕ) (next : Seen F → Decoder → Option (Seen F × Option ParseError)) (r : Scan F)
      → Ends n r
      → ((s : Seen F) (dec : Decoder) → P s → length dec.tokens ≤ n → IsParsed (next s dec))
      → IsParsed (on_scan next r)
  on_scan-IsParsed n next ran_out p h = elim p [ ]
  on_scan-IsParsed n next (halted e s) p h = (s, some e, refl, p)
  on_scan-IsParsed n next (passed s dec) (p, l) h = h s dec p l

  module _ (segments : (v : List Token) (s : Seen F) → P s → P (take_segment codec v s))
      (signals : (v : List Token) (s : Seen F) → P s → P (take_signal codec v s)) where
    value_of-Ends :
        (fuel : ℕ) (key : String) (s : Seen F) (dec : Decoder)
        → length dec.tokens ≤ fuel
        → P s
        → Ends (length dec.tokens) (value_of codec fuel key s dec)
    unfolding value_of
    value_of-Ends fuel key s dec h p = elim (Bool-cases (str_eq key segments_key)) [
      | inl e ↦ rw e (array-Ends (take_segment codec) segments fuel s dec h p)
      | inr e ↦ elim (Bool-cases (str_eq key signals_key)) [
        | inl f ↦ rw (e, f) (array-Ends (take_signal codec) signals fuel s dec h p)
        | inr f ↦ rw (e, f) (skip_other-Ends s dec p)
      ]
    ]

    on_key-Ends :
        (n : ℕ) (s : Seen F) (next : String → Scan F) (t : Token)
        → P s
        → ((key : String) → Ends n (next key))
        → Ends n (on_key s next t)
    on_key-Ends n s next (string key) p h = h key
    on_key-Ends n s next (open_with b) p h = p
    on_key-Ends n s next (close_with b) p h = p
    on_key-Ends n s next (scalar v) p h = p

    -- One key and its value take at least a token.
    member-Ends :
        (fuel n : ℕ) (s : Seen F) (dec : Decoder)
        → length dec.tokens ≤ suc n
        → n ≤ fuel
        → P s
        → Ends n (member codec fuel s dec)
    unfolding member
    member-Ends fuel n s dec h h' p = on_read-Ends _ s _ (token dec) p λ t dec' f.
        let less = shrinks _ _ f (token-Shrinks dec.tokens dec.ending) in
        on_key-Ends n s _ t p λ key.
          Ends-mono (length dec'.tokens) n (value_of codec fuel key s dec') (omega arith)
            (value_of-Ends fuel key s dec' (omega arith) p)

    members-IsParsed :
        (fuel : ℕ) (keys : Keys) (s : Seen F) (dec : Decoder)
        → length dec.tokens < fuel
        → P s
        → IsParsed (members codec fuel keys s dec)
    unfolding members
    members-IsParsed zero keys s dec h p = absurd (omega arith)
    members-IsParsed (suc fuel) keys s dec h p = elim (Bool-cases (more dec)) [
      | inr e ↦ rw e (
          on_scan-IsParsed _ _ (close s dec) (close-Ends s dec p)
            (λ s' dec' p' l. (s', _, refl, p')))
      | inl e ↦
          let less = more_tokens dec e in
          rw e (
            on_scan-IsParsed (length dec.tokens - 1) _ (member codec fuel s dec)
              (member-Ends fuel (length dec.tokens - 1) s dec (omega arith) (omega arith) p)
              (λ s' dec' p' l. members-IsParsed fuel _ s' dec' (omega arith) p'))
    ]

no_seen-IsCounted : {F : Type 0} → IsCounted {F = F} no_seen
no_seen-IsCounted = record { visits = refl; activities = refl; points = refl; raw_positions = refl }

-- `Parse` ends on any stream, whatever it holds and wherever it breaks off, and what it returns, with
-- an error or without, has counts that are the lengths of its lists.
pub parse_stream-IsParsed :
    {F : Type 0} (codec : Codec F) (dec : Decoder)
    → IsParsed codec IsCounted (parse_stream codec dec)
unfolding parse_stream
parse_stream-IsParsed codec dec =
    on_scan-IsParsed codec IsCounted (length dec.tokens) _ _
      (on_read-Ends codec IsCounted _ no_seen _ (token dec) no_seen-IsCounted λ t dec' f.
        let less = shrinks _ _ f (token-Shrinks dec.tokens dec.ending) in
        elim (Bool-cases (is_bracket brace t)) [
          | inr g ↦ rw g no_seen-IsCounted
          | inl g ↦ rw g (no_seen-IsCounted, omega arith)
        ])
      (λ s dec' p l.
        members-IsParsed codec IsCounted (take_segment-IsCounted codec)
          (take_signal-IsCounted codec) (suc (length dec.tokens)) no_keys s dec' (omega arith) p)
