-- ===== src/Security/Jwt/Codec.antt =====
-- Creating and verifying a token.
use sms_backend.Common.{
  ℕ, ◌+◌, ◌-◌, ◌*◌, ◌%◌, Bool, true, false, not, ◌&&◌, Option, none, some, List, [], ◌∷◌, ◌++◌,
  length,
}
use sms_backend.Common.Int.{ℤ, pos, ltb_ℤ}
use sms_backend.Security.Text.{Text, codes, text_eq, is_empty, is_ascii, replicate, rstrip, split}
use sms_backend.Security.Jwt.Claims.{
  Json, int, text, array, object, Fields, end, field, get, is_text, has_text, as_int,
}

-- what the module reads of app/core/config/settings.py
pub record Settings : Type 0 where
  pub app_auth_secret : Text
  pub app_auth_issuer : Text
  pub app_auth_audience : Text
  pub access_token_expire_minutes : ℕ

-- the functions of the standard library, over its byte strings
pub record Library (Bytes : Type 0) : Type 0 where
  -- base64.urlsafe_b64encode, decoded as ASCII
  pub urlsafe_b64encode : Bytes → Text
  -- base64.urlsafe_b64decode, which may raise
  pub urlsafe_b64decode : Text → Option Bytes
  -- json.dumps and json.loads, with UTF-8
  pub dumps : Json → Bytes
  pub loads : Bytes → Option Json
  -- hmac.new(secret, message, sha256).digest()
  pub hmac : Text → Text → Bytes
  -- str(uuid) and UUID(text), which may raise
  pub str_uuid : ℕ → Text
  pub parse_uuid : Text → Option ℕ

-- the messages of TokenVerificationError, and the TypeError of `hmac.compare_digest` on a text that is
-- not ASCII, which nothing catches
pub data TokenError : Type 0 where
  signing_not_configured not_configured invalid_token invalid_encoding invalid_payload : TokenError
  unsupported_algorithm invalid_signature expired invalid_issuer invalid_audience : TokenError
  invalid_type no_subject invalid_subject compare_refused : TokenError

pub data Verification (A : Type 0) : Type 0 where
  verified : A → Verification A
  rejected : TokenError → Verification A

infixl 5 ◌>>=◌ ◌>>◌
abbrev pub ◌>>=◌ : {A B : Type 0} → Verification A → (A → Verification B) → Verification B
verified a >>= f = f a
rejected e >>= f = rejected e

abbrev pub ◌>>◌ : {B : Type 0} → Verification (Unit {0}) → Verification B → Verification B
m >> k = m >>= λ _. k

abbrev pub reject_if : Bool → TokenError → Verification (Unit {0})
reject_if true e = rejected e
reject_if false e = verified tt

abbrev pub or_reject : {A : Type 0} → Option A → TokenError → Verification A
or_reject none e = rejected e
or_reject (some a) e = verified a

abbrev pub dot : ℕ
dot = b'.'

abbrev pub equals_sign : ℕ
equals_sign = b'='

-- AuthenticatedPrincipal
pub record AuthenticatedPrincipal : Type 0 where
  pub app_user_id : ℕ
  pub claims : Fields

-- `{"alg": "HS256", "typ": "JWT"}`
abbrev pub token_header : Fields
token_header =
    field (codes "alg") (text (codes "HS256")) (field (codes "typ") (text (codes "JWT")) end)

-- `-len(value) % 4` is never negative in Python
abbrev pub missing_padding : Text → ℕ
missing_padding value = (4 - length value % 4) % 4

abbrev as_object : Json → Verification Fields
as_object (object fs) = verified fs
as_object _ = rejected invalid_payload

abbrev audience_ok : Text → Option Json → Bool
audience_ok expected (some (array items)) = has_text expected items
audience_ok expected other = is_text expected other

abbrev pub subject_of : Option Json → Option Text
subject_of (some (text s)) = some s
subject_of _ = none

abbrev pub expired_at : ℕ → Option ℤ → Bool
expired_at now none = true
expired_at now (some e) = not (ltb_ℤ (pos now) e)

-- three parts, or an error
abbrev pub three_parts : List Text → Verification (Text × Text × Text)
three_parts (h ∷ c ∷ s ∷ []) = verified (h, c, s)
three_parts _ = rejected invalid_token

module _ {Bytes : Type 0} (lib : Library Bytes) (settings : Settings) where
  -- `base64.urlsafe_b64encode(…).rstrip(b"=")`
  unfoldable pub encode_segment : Bytes → Text
  encode_segment b = rstrip equals_sign (lib.urlsafe_b64encode b)

  -- _decode_base64url
  unfoldable pub decode_base64url : Text → Option Bytes
  decode_base64url value =
      lib.urlsafe_b64decode (value ++ replicate (missing_padding value) equals_sign)

  -- _decode_json_segment
  unfoldable pub decode_json_segment : Text → Verification Fields
  decode_json_segment value = do
    decoded ← or_reject (decode_base64url value) invalid_encoding
    parsed ← or_reject (lib.loads decoded) invalid_encoding
    as_object parsed

  unfoldable pub signing_input : Text → Text → Text
  signing_input h c = h ++ dot ∷ c

  unfoldable pub signature_of : Text → Text
  signature_of input = encode_segment (lib.hmac settings.app_auth_secret input)

  -- _verify_hs256_signature, with the configured secret
  unfoldable pub verify_hs256_signature : Text → Text → Verification (Unit {0})
  verify_hs256_signature input signature = do
    reject_if (not (is_ascii signature)) compare_refused
    reject_if (not (text_eq (signature_of input) signature)) invalid_signature

  -- the claims of a token made at a second
  unfoldable pub claims_of : ℕ → ℕ → Fields
  claims_of now app_user_id = field (codes "sub") (text (lib.str_uuid app_user_id)) (
      field (codes "iat") (int (pos now)) (
        field (codes "exp") (int (pos (now + settings.access_token_expire_minutes * 60))) (
          field (codes "iss") (text settings.app_auth_issuer) (
            field (codes "aud") (text settings.app_auth_audience)
              (field (codes "typ") (text (codes "access")) end)))))

  -- create_application_access_token
  unfoldable pub create_application_access_token : ℕ → ℕ → Verification Text
  create_application_access_token now app_user_id = do
    reject_if (is_empty settings.app_auth_secret) signing_not_configured
    let input =
        signing_input (encode_segment (lib.dumps (object token_header)))
          (encode_segment (lib.dumps (object (claims_of now app_user_id))))
    verified (input ++ dot ∷ signature_of input)

  -- `verify_application_access_token` after the signature
  unfoldable pub verify_claims : ℕ → Fields → Verification AuthenticatedPrincipal
  verify_claims now claims = do
    reject_if (expired_at now (as_int (get (codes "exp") claims))) expired
    reject_if
        (not (is_empty settings.app_auth_issuer)
          && not (is_text settings.app_auth_issuer (get (codes "iss") claims)))
        invalid_issuer
    reject_if
        (not (is_empty settings.app_auth_audience)
          && not (audience_ok settings.app_auth_audience (get (codes "aud") claims)))
        invalid_audience
    reject_if (not (is_text (codes "access") (get (codes "typ") claims))) invalid_type
    subject ← or_reject (subject_of (get (codes "sub") claims)) no_subject
    app_user_id ← or_reject (lib.parse_uuid subject) invalid_subject
    verified (record { app_user_id = app_user_id; claims = claims })

  -- `verify_application_access_token` on the three parts
  unfoldable pub verify_parts : ℕ → Text × Text × Text → Verification AuthenticatedPrincipal
  verify_parts now (h, c, s) = do
    header ← decode_json_segment h
    claims ← decode_json_segment c
    reject_if (not (is_text (codes "HS256") (get (codes "alg") header))) unsupported_algorithm
    verify_hs256_signature (signing_input h c) s
    verify_claims now claims

  -- verify_application_access_token
  unfoldable pub verify_application_access_token : ℕ → Text → Verification AuthenticatedPrincipal
  verify_application_access_token now token = do
    reject_if (is_empty settings.app_auth_secret) not_configured
    parts ← three_parts (split dot token)
    verify_parts now parts
