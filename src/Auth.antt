-- ===== src/Auth.antt =====
-- internal/auth/auth.go: tokens, and the two halves of a sign-in with an OIDC provider. Texts are bytes.
-- SHA-256 and the provider's client (golang.org/x/oauth2 and go-oidc) are parameters; random bytes are
-- arguments.
pub mod RoundTrip
use roadbook.Prelude.{
  ℕ, ◌+◌, ◌*◌, ◌/◌, ◌%◌, Bool, true, false, not, ◌||◌, ◌&&◌, List, [], ◌∷◌, ◌++◌, Option, none,
  some, ltb, ◌==◌, if◌then◌else◌,
}
use roadbook.Photo.Bytes.{same_bytes}
use roadbook.Store.Tables.{Text}

-- `hex.EncodeToString`.
abbrev pub hex_digit : ℕ → ℕ
hex_digit n = if ltb n 10 then 48 + n else 87 + n

unfoldable pub hex_encode : List ℕ → Text
hex_encode [] = []
hex_encode (b ∷ bytes) = hex_digit (b / 16) ∷ hex_digit (b % 16) ∷ hex_encode bytes

-- `randomToken`, from its random bytes.
abbrev pub random_token : List ℕ → Text
random_token random = hex_encode random

abbrev pub hash_token : (List ℕ → List ℕ) → Text → Text
hash_token sha256 raw = hex_encode (sha256 raw)

-- The raw token, and its hash.
abbrev pub new_session_token : (List ℕ → List ℕ) → List ℕ → Text × Text
new_session_token sha256 random = (random_token random, hash_token sha256 (random_token random))

-- 30 days.
abbrev pub session_ttl : ℕ
session_ttl = 2_592_000_000_000_000

abbrev pub cut_behind : ℕ → Text → Option (Text × Text) → Option (Text × Text)
cut_behind b bytes none = if b == 46 then some ([], bytes) else none
cut_behind b bytes (some (before, behind)) =
    if b == 46 then some ([], bytes) else some (b ∷ before, behind)

-- `strings.Cut(s, ".")`.
unfoldable pub cut_dot : Text → Option (Text × Text)
cut_dot [] = none
cut_dot (b ∷ bytes) = cut_behind b bytes (cut_dot bytes)

-- What `VerifiedIDToken` has for the code.
pub record IdToken : Type 0 where
  pub subject : Text
  pub nonce : Text
  -- The claims, unless they cannot be read.
  pub email : Option Text

-- The provider's client: the exchange of a code, the response's `id_token`, and its verification.
pub record Provider : Type 1 where
  pub Token : Type 0
  pub exchange : Text → Option Token
  pub id_token : Token → Option Text
  pub verify : Text → Option IdToken

pub record Identity : Type 0 where
  pub subject : Text
  pub email : Text

pub data SignInError : Type 0 where
  malformed_cookie state_mismatch no_code exchange_failed : SignInError
  no_id_token not_verified nonce_mismatch no_claims : SignInError

pub data SignInVerdict : Type 0 where
  rejected : SignInError → SignInVerdict
  verified : Identity → SignInVerdict

-- `BeginSignIn`: the state and the nonce that go to the provider, and the value of the cookie.
abbrev pub begin_sign_in : List ℕ → List ℕ → Text × Text × Text
begin_sign_in random_state random_nonce =
    let state = random_token random_state in
    let nonce = random_token random_nonce in (state, nonce, state ++ (46 ∷ nonce))

abbrev pub is_empty {ℓ} : {A : Type ℓ} → List A → Bool
is_empty [] = true
is_empty (x ∷ xs) = false

abbrev pub on_claims : Text → Option Text → SignInVerdict
on_claims subject none = rejected no_claims
on_claims subject (some email) = verified (record { subject = subject; email = email })

abbrev pub on_token : Text → Option IdToken → SignInVerdict
on_token nonce none = rejected not_verified
on_token nonce (some t) =
    if not (same_bytes t.nonce nonce) then rejected nonce_mismatch else on_claims t.subject t.email

module _ (p : Provider) where
  abbrev pub on_raw : Text → Option Text → SignInVerdict
  on_raw nonce none = rejected no_id_token
  on_raw nonce (some raw) = on_token nonce (p.verify raw)

  abbrev pub on_exchange : Text → Option p.Token → SignInVerdict
  on_exchange nonce none = rejected exchange_failed
  on_exchange nonce (some tok) = on_raw nonce (p.id_token tok)

  abbrev pub on_cookie : Text → Text → Option (Text × Text) → SignInVerdict
  on_cookie code state none = rejected malformed_cookie
  on_cookie code state (some (want, nonce)) =
      if is_empty want
      then rejected malformed_cookie
      else if not (same_bytes state want)
      then rejected state_mismatch
      else if is_empty code
      then rejected no_code
      else on_exchange nonce (p.exchange code)

  -- `CompleteSignIn`.
  unfoldable pub complete_sign_in : Text → Text → Text → SignInVerdict
  unfolding cut_dot
  complete_sign_in code state cookie = on_cookie code state (cut_dot cookie)
