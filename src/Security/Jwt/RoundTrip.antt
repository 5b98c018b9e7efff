-- ===== src/Security/Jwt/RoundTrip.antt =====
-- A token that was created is verified.
use mathlib.Core.List.{append_assoc}
use sms_backend.Common.{
  ℕ, ◌+◌, ◌*◌, ◌%◌, ◌<◌, ◌≡◌, refl, sym, ap, ◌∙◌, Bool, true, false, not, ◌&&◌, some, ◌∷◌, ◌++◌,
  length, arith, [],
}
use sms_backend.Common.Int.{pos, ltb_ℤ}
use sms_backend.Security.Text.{
  Text, is_empty, is_ascii, replicate, split, Lacks, split-part, split_last, rstrip-append, text_eq,
  text_eq_refl,
}
use sms_backend.Security.Jwt.Claims.{object, Fields, get}
use sms_backend.Security.Jwt.Codec.{
  Settings, Library, verified, token_header, missing_padding, dot, equals_sign, encode_segment,
  decode_base64url, decode_json_segment, signing_input, signature_of, verify_hs256_signature,
  claims_of, create_application_access_token, verify_claims, verify_parts,
  verify_application_access_token, ◌>>=◌,
}

-- What the documentation of `base64` and `uuid` says.
pub record LibraryLaws {Bytes : Type 0} (lib : Library Bytes) : Type 0 where
  -- the characters that carry a byte string, without the padding, and how long the padding is
  pub body : Bytes → Text
  pub padding : Bytes → ℕ
  pub padding_short : (b : Bytes) → padding b < 3
  pub whole : (b : Bytes) → lib.urlsafe_b64encode b ≡ body b ++ replicate (padding b) equals_sign
  pub no_equals : (b : Bytes) → Lacks equals_sign (body b)
  pub no_dot : (b : Bytes) → Lacks dot (body b)
  pub body_ascii : (b : Bytes) → is_ascii (body b) ≡ true
  pub in_fours : (b : Bytes) → (length (body b) + padding b) % 4 ≡ 0
  pub decodes : (b : Bytes) → lib.urlsafe_b64decode (lib.urlsafe_b64encode b) ≡ some b
  pub parses : (u : ℕ) → lib.parse_uuid (lib.str_uuid u) ≡ some u

module _ {Bytes : Type 0} (lib : Library Bytes) (laws : LibraryLaws lib) where
  segment_body : (settings : Settings) (b : Bytes) → encode_segment lib settings b ≡ laws.body b
  unfolding encode_segment
  segment_body settings b =
      rw (laws.whole b)
        (rstrip-append equals_sign (laws.padding b) (laws.body b) (laws.no_equals b))

  padding_restored : (b : Bytes) → missing_padding (laws.body b) ≡ laws.padding b
  padding_restored b = omega (arith, laws.in_fours b, laws.padding_short b)

  decode-encode :
      (settings : Settings) (b : Bytes)
      → decode_base64url lib settings (encode_segment lib settings b) ≡ some b
  unfolding decode_base64url
  decode-encode settings b =
      ap (decode_base64url lib settings) (segment_body settings b)
      ∙ ap (λ n. lib.urlsafe_b64decode (laws.body b ++ replicate n equals_sign))
          (padding_restored b)
      ∙ ap lib.urlsafe_b64decode (sym (laws.whole b))
      ∙ laws.decodes b

  decode_json-encode :
      (settings : Settings) (fs : Fields)
      → lib.loads (lib.dumps (object fs)) ≡ some (object fs)
      → decode_json_segment lib settings (encode_segment lib settings (lib.dumps (object fs)))
        ≡ verified fs
  unfolding decode_json_segment
  decode_json-encode settings fs loads =
      rw (decode-encode settings (lib.dumps (object fs)), loads) refl

  verify-signature :
      (settings : Settings) (input : Text)
      → verify_hs256_signature lib settings input (signature_of lib settings input) ≡ verified tt
  unfolding verify_hs256_signature signature_of
  verify-signature settings input =
      rw
        (
          segment_body settings (lib.hmac settings.app_auth_secret input),
          laws.body_ascii (lib.hmac settings.app_auth_secret input),
          text_eq_refl (laws.body (lib.hmac settings.app_auth_secret input)),
        )
        refl

  accepts : (t : Text) → (not (is_empty t) && not (text_eq t t)) ≡ false
  accepts t = rw (text_eq_refl t) (and_false (not (is_empty t)))
    where
      and_false : (b : Bool) → (b && false) ≡ false
      and_false true = refl
      and_false false = refl

  -- the claims of a token that is not yet expired
  verify-claims_of :
      (settings : Settings) (made now user : ℕ)
      → now < made + settings.access_token_expire_minutes * 60
      → verify_claims lib settings now (claims_of lib settings made user)
        ≡ verified (record { app_user_id = user; claims = claims_of lib settings made user })
  unfolding verify_claims claims_of get
  verify-claims_of settings made now user fresh =
      let on_time : not (ltb_ℤ (pos now) (pos (made + settings.access_token_expire_minutes * 60)))
          ≡ false =
        ground arith in
      rw
        (
          on_time,
          accepts settings.app_auth_issuer,
          accepts settings.app_auth_audience,
          laws.parses user,
        )
        refl

  -- A token that was made for a user is verified as that user's, with the claims that were put into it,
  -- by the same settings at every second before its expiry. The header and the claims are assumed to
  -- come back from their JSON text, and the functions of the standard library to do as documented.
  pub verify-create :
      (settings : Settings) (made now user : ℕ)
      → is_empty settings.app_auth_secret ≡ false
      → now < made + settings.access_token_expire_minutes * 60
      → lib.loads (lib.dumps (object token_header)) ≡ some (object token_header)
      → lib.loads (lib.dumps (object (claims_of lib settings made user)))
        ≡ some (object (claims_of lib settings made user))
      → (create_application_access_token lib settings made user
          >>= verify_application_access_token lib settings now)
        ≡ verified (record { app_user_id = user; claims = claims_of lib settings made user })
  unfolding create_application_access_token verify_application_access_token verify_parts
      signing_input signature_of get
  verify-create settings made now user secret fresh header_back claims_back =
      let h = encode_segment lib settings (lib.dumps (object token_header)) in
      let c = encode_segment lib settings (lib.dumps (object (claims_of lib settings made user))) in
      let s = signature_of lib settings (signing_input lib settings h c) in
      rw
        (
          secret,
          three h c s (no_dot (lib.dumps (object token_header)))
              (no_dot (lib.dumps (object (claims_of lib settings made user))))
              (no_dot (lib.hmac settings.app_auth_secret (signing_input lib settings h c))),
          secret,
          decode_json-encode settings token_header header_back,
          decode_json-encode settings (claims_of lib settings made user) claims_back,
          verify-signature settings (signing_input lib settings h c),
        )
        (verify-claims_of settings made now user fresh)
    where
      no_dot : (b : Bytes) → Lacks dot (encode_segment lib settings b)
      no_dot b = rw (segment_body settings b) (laws.no_dot b)

      three :
          (h c s : Text)
          → Lacks dot h
          → Lacks dot c
          → Lacks dot s
          → split dot (signing_input lib settings h c ++ dot ∷ s) ≡ h ∷ c ∷ s ∷ []
      three h c s nh nc ns =
          ap (split dot) (append_assoc h (dot ∷ c) (dot ∷ s))
          ∙ split-part dot h (c ++ dot ∷ s) nh
          ∙ ap (◌∷◌ h) (split-part dot c s nc ∙ ap (◌∷◌ c) (split_last dot s ns))
