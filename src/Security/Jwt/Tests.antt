-- ===== src/Security/Jwt/Tests.antt =====
-- A small codec on which the theorems on tokens are applied.
use sms_backend.Common.{
  sym, ap, ℕ, suc, zero, ◌+◌, ◌%◌, ◌<◌, ◌≡◌, refl, true, Option, some, [], ◌∷◌, ◌==◌, length, arith,
  if◌then◌else◌,
}
use mathlib.Core.List.{append-nil}
use sms_backend.Common.Int.{pos}
use sms_backend.Security.Text.{text_eq, Text, codes, replicate, Lacks, is_ascii, split, rstrip}
use sms_backend.Security.Jwt.Claims.{Json, object, Fields, end, get}
use sms_backend.Security.Jwt.Codec.{
  Settings, Library, verified, token_header, dot, equals_sign, claims_of,
  create_application_access_token, verify_application_access_token, ◌>>=◌, encode_segment,
  decode_base64url, decode_json_segment, signing_input, signature_of, verify_hs256_signature,
  verify_claims, verify_parts,
}
use sms_backend.Security.Jwt.RoundTrip.{LibraryLaws, verify-create}
use sms_backend.Security.Jwt.Sound.{Signed, verified-Signed}

-- every unit of a byte string is four characters
encode : ℕ → Text
encode zero = []
encode (suc n) = 65 ∷ 66 ∷ 67 ∷ 68 ∷ encode n

decode : Text → ℕ
decode (a ∷ b ∷ c ∷ d ∷ rest) = suc (decode rest)
decode [] = 0
decode (a ∷ []) = 0
decode (a ∷ b ∷ []) = 0
decode (a ∷ b ∷ c ∷ []) = 0

decode-encode : (n : ℕ) → decode (encode n) ≡ n
unfolding decode encode
decode-encode zero = refl
decode-encode (suc n) = rw (decode-encode n) (omega arith)

abbrev settings : Settings
settings = record {
  app_auth_secret = codes "s";
  app_auth_issuer = codes "sms";
  app_auth_audience = [];
  access_token_expire_minutes = 30;
}

abbrev claims : Fields
claims = Fields.field (codes "sub") (Json.text (encode 7)) (
    Fields.field (codes "iat") (Json.int (pos 100)) (
      Fields.field (codes "exp") (Json.int (pos 1900)) (
        Fields.field (codes "iss") (Json.text (codes "sms")) (
          Fields.field (codes "aud") (Json.text [])
            (Fields.field (codes "typ") (Json.text (codes "access")) end)))))

-- the two JSON texts of the test
abbrev number_of : Json → ℕ
number_of (Json.object (Fields.field name _ _)) = if text_eq name (codes "alg") then 1 else 2
number_of _ = 0

abbrev read : ℕ → Option Json
read n = if n == 1 then some (object token_header) else some (object claims)

abbrev library : Library ℕ
library = record {
  urlsafe_b64encode = encode;
  urlsafe_b64decode = λ t. some (decode t);
  dumps = number_of;
  loads = read;
  hmac = λ secret message. 3;
  str_uuid = encode;
  parse_uuid = λ t. some (decode t);
}

encode-Lacks : (k n : ℕ) → k < 65 → Lacks k (encode n)
unfolding encode
encode-Lacks k zero h = tt
encode-Lacks k (suc n) h =
    (ground arith, (ground arith, (ground arith, (ground arith, encode-Lacks k n h))))

encode_ascii : (n : ℕ) → is_ascii (encode n) ≡ true
unfolding encode
encode_ascii zero = refl
encode_ascii (suc n) = encode_ascii n

encode_fours : (n : ℕ) → (length (encode n) + 0) % 4 ≡ 0
unfolding encode
encode_fours zero = refl
encode_fours (suc n) = omega (arith, encode_fours n)

library_laws : LibraryLaws library
unfolding replicate
library_laws = record {
  body = encode;
  padding = λ b. 0;
  padding_short = λ b. omega arith;
  whole = λ b. sym (append-nil (encode b));
  no_equals = λ b. encode-Lacks equals_sign b (omega arith);
  no_dot = λ b. encode-Lacks dot b (omega arith);
  body_ascii = encode_ascii;
  in_fours = encode_fours;
  decodes = λ b. ap some (decode-encode b);
  parses = λ u. ap some (decode-encode u);
}

claims_back :
    library.loads (library.dumps (object (claims_of library settings 100 7)))
    ≡ some (object (claims_of library settings 100 7))
unfolding claims_of
claims_back = refl

verify-create_example :
    (create_application_access_token library settings 100 7
      >>= verify_application_access_token library settings 1899)
    ≡ verified (record { app_user_id = 7; claims = claims_of library settings 100 7 })
verify-create_example =
    verify-create library library_laws settings 100 1899 7 refl (omega arith) refl claims_back

abbrev token : Text
token = codes "ABCD.ABCDABCD.ABCDABCDABCD"

token_verified :
    verify_application_access_token library settings 1899 token
    ≡ verified (record { app_user_id = 7; claims = claims })
unfolding verify_application_access_token verify_parts decode_json_segment decode_base64url
    replicate split verify_hs256_signature signature_of signing_input encode_segment rstrip encode
    decode verify_claims get
token_verified = refl

verified-Signed_example :
    Signed library settings 1899 token (record { app_user_id = 7; claims = claims })
verified-Signed_example =
    verified-Signed library settings 1899 token (record { app_user_id = 7; claims = claims })
      token_verified
