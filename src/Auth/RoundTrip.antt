-- ===== src/Auth/RoundTrip.antt =====
-- About a sign-in that begins with `begin_sign_in` and comes back from the provider.
use roadbook.Prelude.{
  ℕ, ◌/◌, ◌%◌, ◌≡◌, refl, sym, ◌∙◌, ap, inl, inr, false, not, List, [], ◌∷◌, ◌++◌, Option, none,
  some, ◌==◌, ◌≢◌, ◌↔◌, Bool-cases, arith,
}
use roadbook.Photo.Bytes.{same_bytes}
use roadbook.Photo.Bytes.Cuts.{same_bytes→eq, same_bytes_refl}
use roadbook.Store.Tables.{Text}
use roadbook.Store.Keyed.{if_eq_then, if_eq_else}
use roadbook.Auth.{
  is_empty, SignInError, hex_digit, hex_encode, random_token, cut_dot, cut_behind, IdToken,
  Provider, Identity, SignInVerdict, verified, rejected, begin_sign_in, on_claims, on_token, on_raw,
  on_exchange, on_cookie, complete_sign_in,
}

hex_digit-≢ : (n : ℕ) → (hex_digit n == 46) ≡ false
hex_digit-≢ n = ground arith

at_dot : (bytes : Text) (rest : Option (Text × Text)) → cut_behind 46 bytes rest ≡ some ([], bytes)
at_dot bytes none = refl
at_dot bytes (some cut) = refl

cut_dot-hex_encode :
    (bytes : List ℕ) (nonce : Text)
    → cut_dot (hex_encode bytes ++ (46 ∷ nonce)) ≡ some (hex_encode bytes, nonce)
unfolding cut_dot hex_encode
cut_dot-hex_encode [] nonce = at_dot nonce (cut_dot nonce)
cut_dot-hex_encode (b ∷ bytes) nonce =
    rw (cut_dot-hex_encode bytes nonce, hex_digit-≢ (b % 16), hex_digit-≢ (b / 16)) refl

-- The provider's answer to a code, with a nonce: the identity of a token that it verifies.
pub record IsAnswer (p : Provider) (code nonce : Text) (id : Identity) : Type 0 where
  pub response : p.Token
  pub raw : Text
  pub id_token : IdToken
  pub exchanged : p.exchange code ≡ some response
  pub carried : p.id_token response ≡ some raw
  pub checked : p.verify raw ≡ some id_token
  pub nonce_is : id_token.nonce ≡ nonce
  pub subject_is : id_token.subject ≡ id.subject
  pub email_is : id_token.email ≡ some id.email

rejected_ne : {r : SignInError} {id : Identity} → rejected r ≡ verified id → ⊥
rejected_ne e = cc

pub is_empty-random_token : (random : List ℕ) → random ≢ [] → is_empty (random_token random) ≡ false
unfolding hex_encode
is_empty-random_token [] filled = absurd (filled refl)
is_empty-random_token (b ∷ random) filled = refl

hex_encode_filled : (bytes : List ℕ) → bytes ≢ [] → hex_encode bytes ≢ []
unfolding hex_encode
hex_encode_filled [] filled = filled
hex_encode_filled (b ∷ bytes) filled = λ e. cc

on_claims-verified :
    (subject : Text) (email : Option Text) {id : Identity}
    → on_claims subject email ≡ verified id
    → (email ≡ some id.email) × (subject ≡ id.subject)
on_claims-verified subject none e = cc
on_claims-verified subject (some email) {id} e = (ap (λ v. some (email_of v)) e, ap subject_of e)
  where
    email_of : SignInVerdict → Text
    email_of (verified i) = i.email
    email_of (rejected r) = email

    subject_of : SignInVerdict → Text
    subject_of (verified i) = i.subject
    subject_of (rejected r) = subject

on_token-verified :
    (nonce : Text) (o : Option IdToken) {id : Identity}
    → on_token nonce o ≡ verified id
    → (t : IdToken) × (o ≡ some t)
      × (t.nonce ≡ nonce)
      × (t.email ≡ some id.email)
      × (t.subject ≡ id.subject)
on_token-verified nonce none e = cc
on_token-verified nonce (some t) {id} e = elim (Bool-cases (same_bytes t.nonce nonce)) [
  | inl same ↦
      (let (email, subject) =
          on_claims-verified t.subject t.email (sym (if_eq_else _ (ap not same)) ∙ e) in
        (t, refl, same_bytes→eq t.nonce nonce same, email, subject))
  | inr other ↦ absurd (rejected_ne (sym (if_eq_then _ (ap not other)) ∙ e))
]

module _ (p : Provider) where
  on_raw-verified :
      (code nonce : Text) (tok : p.Token) (o : Option Text) {id : Identity}
      → p.exchange code ≡ some tok
      → p.id_token tok ≡ o
      → on_raw p nonce o ≡ verified id
      → IsAnswer p code nonce id
  on_raw-verified code nonce tok none got carried e = cc
  on_raw-verified code nonce tok (some raw) got carried e =
      let (t, checked, nonce_is, email_is, subject_is) = on_token-verified nonce (p.verify raw) e in
      record {
        response = tok;
        raw = raw;
        id_token = t;
        exchanged = got;
        carried = carried;
        checked = checked;
        nonce_is = nonce_is;
        subject_is = subject_is;
        email_is = email_is;
      }

  on_exchange-verified :
      (code nonce : Text) (o : Option p.Token) {id : Identity}
      → p.exchange code ≡ o
      → on_exchange p nonce o ≡ verified id
      → IsAnswer p code nonce id
  on_exchange-verified code nonce none got e = cc
  on_exchange-verified code nonce (some tok) got e =
      on_raw-verified code nonce tok (p.id_token tok) got refl e

  verified-on_exchange :
      (code nonce : Text) {id : Identity}
      → IsAnswer p code nonce id
      → on_exchange p nonce (p.exchange code) ≡ verified id
  verified-on_exchange code nonce {id} a =
      rw
        (
          a.exchanged,
          a.carried,
          a.checked,
          a.nonce_is,
          same_bytes_refl nonce,
          a.email_is,
          a.subject_is,
        )
        refl

  on_cookie-own :
      (own nonce code state : Text) (id : Identity)
      → own ≢ []
      → (on_cookie p code state (some (own, nonce)) ≡ verified id)
        ↔ ((state ≡ own) × (code ≢ []) × IsAnswer p code nonce id)
  on_cookie-own [] nonce code state id filled = absurd (filled refl)
  on_cookie-own (x ∷ own) nonce [] state id filled = (
    λ e. elim (Bool-cases (same_bytes state (x ∷ own))) [
      | inl same ↦ absurd (rejected_ne (sym (if_eq_else _ (ap not same)) ∙ e))
      | inr other ↦ absurd (rejected_ne (sym (if_eq_then _ (ap not other)) ∙ e))
    ],
    λ (same, filled_code, answer). absurd (filled_code refl),
  )
  on_cookie-own (x ∷ own) nonce (c ∷ code) state id filled = (
    λ e. elim (Bool-cases (same_bytes state (x ∷ own))) [
      | inl same ↦ (
        same_bytes→eq state (x ∷ own) same,
        λ empty. cc,
        on_exchange-verified (c ∷ code) nonce (p.exchange (c ∷ code)) refl
            (sym (if_eq_else _ (ap not same)) ∙ e),
      )
      | inr other ↦ absurd (rejected_ne (sym (if_eq_then _ (ap not other)) ∙ e))
    ],
    λ (same, filled_code, answer).
        rw (same, same_bytes_refl (x ∷ own)) (verified-on_exchange (c ∷ code) nonce answer),
  )

  -- Only the sign-in's own state, with a code that the provider answers with the sign-in's own
  -- nonce, yields an identity, and such an answer does.
  pub complete_sign_in-begin_sign_in :
      (random_state random_nonce : List ℕ) (code state : Text) (id : Identity)
      → random_state ≢ []
      → let (own_state, nonce, cookie) = begin_sign_in random_state random_nonce in
        (complete_sign_in p code state cookie ≡ verified id)
        ↔ ((state ≡ own_state) × (code ≢ []) × IsAnswer p code nonce id)
  unfolding complete_sign_in
  complete_sign_in-begin_sign_in random_state random_nonce code state id some_bytes =
      rw (cut_dot-hex_encode random_state (random_token random_nonce)) (
        on_cookie-own (hex_encode random_state) (random_token random_nonce) code state id
          (hex_encode_filled random_state some_bytes))
