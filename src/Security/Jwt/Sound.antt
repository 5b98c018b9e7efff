-- ===== src/Security/Jwt/Sound.antt =====
-- What a verified token has been checked for.
use sms_backend.Common.{
  ℕ, ◌≡◌, refl, sym, ap, ◌∙◌, Bool, true, false, not, Option, none, some, List, [], ◌∷◌, Bool-cases,
  inl, inr,
}
use sms_backend.Common.Int.{ℤ, pos, ltb_ℤ}
use sms_backend.Security.Text.{Text, codes, split, text_eq, text_eq→eq}
use sms_backend.Security.Jwt.Claims.{Fields, get, as_int, is_text}
use sms_backend.Security.Jwt.Codec.{
  Settings, Library, AuthenticatedPrincipal, Verification, verified, rejected, ◌>>=◌, ◌>>◌,
  reject_if, or_reject, dot, decode_json_segment, signing_input, signature_of,
  verify_hs256_signature, verify_claims, verify_parts, verify_application_access_token, three_parts,
  subject_of, expired_at, expired, TokenError,
}

-- Inversion of the steps of a verification.
>>=-eq-verified :
    {A B : Type 0} (m : Verification A) (f : A → Verification B) {b : B}
    → (m >>= f) ≡ verified b
    → (a : A) × (m ≡ verified a) × (f a ≡ verified b)
>>=-eq-verified (verified a) f h = (a, refl, h)
>>=-eq-verified (rejected e) f h = absurd (cc h)

reject_if-passed :
    {B : Type 0} (c : Bool) (e : TokenError) (m : Verification B) {b : B}
    → (reject_if c e >> m) ≡ verified b
    → (c ≡ false) × (m ≡ verified b)
reject_if-passed true e m h = absurd (cc h)
reject_if-passed false e m h = (refl, h)

or_reject-passed :
    {A : Type 0} (o : Option A) (e : TokenError) {a : A} → or_reject o e ≡ verified a → o ≡ some a
or_reject-passed none e h = absurd (cc h)
or_reject-passed (some x) e h = cc

three_parts-passed :
    (ps : List Text) (h c s : Text) → three_parts ps ≡ verified (h, c, s) → ps ≡ h ∷ c ∷ s ∷ []
three_parts-passed [] h c s e = absurd (cc e)
three_parts-passed (a ∷ []) h c s e = absurd (cc e)
three_parts-passed (a ∷ b ∷ []) h c s e = absurd (cc e)
three_parts-passed (a ∷ b ∷ d ∷ []) h c s e = cc
three_parts-passed (a ∷ b ∷ d ∷ x ∷ r) h c s e = absurd (cc e)

not-true : (b : Bool) → not b ≡ false → b ≡ true
not-true true h = refl
not-true false h = absurd (cc h)

fresh_until :
    (now : ℕ) (e : Option ℤ)
    → expired_at now e ≡ false
    → (until : ℤ) × (e ≡ some until) × (ltb_ℤ (pos now) until ≡ true)
fresh_until now none h = absurd (cc h)
fresh_until now (some until) h = (until, refl, not-true _ h)

module _ {Bytes : Type 0} (lib : Library Bytes) (settings : Settings) (now : ℕ) where
  -- the claims that were checked
  pub record Checked (claims : Fields) (user : ℕ) : Type 0 where
    pub until : ℤ
    pub expires : as_int (get (codes "exp") claims) ≡ some until
    pub not_expired : ltb_ℤ (pos now) until ≡ true
    pub is_access : is_text (codes "access") (get (codes "typ") claims) ≡ true
    pub subject : Text
    pub subject_claim : subject_of (get (codes "sub") claims) ≡ some subject
    pub subject_user : lib.parse_uuid subject ≡ some user

  -- the parts of a token that was verified, with the signature of the first two
  pub record Signed (token : Text) (p : AuthenticatedPrincipal) : Type 0 where
    pub header_part : Text
    pub claims_part : Text
    pub three :
        split dot token
        ≡ header_part
          ∷ claims_part
          ∷ signature_of lib settings (signing_input lib settings header_part claims_part)
          ∷ []
    pub header : Fields
    pub header_decoded : decode_json_segment lib settings header_part ≡ verified header
    pub algorithm : is_text (codes "HS256") (get (codes "alg") header) ≡ true
    pub claims_decoded : decode_json_segment lib settings claims_part ≡ verified p.claims
    pub checked : Checked p.claims p.app_user_id

  verify_claims-Checked :
      (claims : Fields) (p : AuthenticatedPrincipal)
      → verify_claims lib settings now claims ≡ verified p
      → (p.claims ≡ claims) × Checked claims p.app_user_id
  unfolding verify_claims
  verify_claims-Checked claims p e0 =
      let (fresh, e1) = reject_if-passed _ expired _ e0 in
      let (issuer, e2) = reject_if-passed _ TokenError.invalid_issuer _ e1 in
      let (audience, e3) = reject_if-passed _ TokenError.invalid_audience _ e2 in
      let (kind, e4) = reject_if-passed _ TokenError.invalid_type _ e3 in
      let (subject, found, e5) =
        >>=-eq-verified (or_reject (subject_of (get (codes "sub") claims)) TokenError.no_subject) _
          e4 in
      let (user, parsed, e6) =
        >>=-eq-verified (or_reject (lib.parse_uuid subject) TokenError.invalid_subject) _ e5 in
      let (until, expires, later) = fresh_until now (as_int (get (codes "exp") claims)) fresh in
      let same = same_principal e6 in
      (
        ap (λ (q : AuthenticatedPrincipal). q.claims) (sym same),
        record {
          until = until;
          expires = expires;
          not_expired = later;
          is_access = not-true _ kind;
          subject = subject;
          subject_claim = or_reject-passed _ TokenError.no_subject found;
          subject_user =
              or_reject-passed _ TokenError.invalid_subject parsed
              ∙ ap (λ (q : AuthenticatedPrincipal). some q.app_user_id) same;
        },
      )
    where
      same_principal :
          {x y : AuthenticatedPrincipal}
          → Path (Verification AuthenticatedPrincipal) (verified x) (verified y)
          → x ≡ y
      same_principal h = cc

  -- A token that is verified has exactly three parts, the last of which is the signature under the
  -- configured secret of the first two; its header names HS256, its claims are those returned, they
  -- expire after the present second and say that it is an access token, and their subject is the text
  -- of the user's key.
  pub verified-Signed :
      (token : Text) (p : AuthenticatedPrincipal)
      → verify_application_access_token lib settings now token ≡ verified p
      → Signed token p
  unfolding verify_application_access_token verify_parts verify_hs256_signature
  verified-Signed token p e0 =
      let (secret, e1) = reject_if-passed _ TokenError.not_configured _ e0 in
      let (parts, is_three, e2) = >>=-eq-verified (three_parts (split dot token)) _ e1 in
      let (header, header_ok, e3) =
        >>=-eq-verified (decode_json_segment lib settings parts.0) _ e2 in
      let (claims, claims_ok, e4) =
        >>=-eq-verified (decode_json_segment lib settings parts.1) _ e3 in
      let (algorithm, e5) = reject_if-passed _ TokenError.unsupported_algorithm _ e4 in
      let (_, signed, e6) =
        >>=-eq-verified
          (verify_hs256_signature lib settings (signing_input lib settings parts.0 parts.1) parts.2)
          _ e5 in
      let (_, compared) = reject_if-passed _ TokenError.compare_refused _ signed in
      let (same_claims, checked) = verify_claims-Checked claims p e6 in
      record {
        header_part = parts.0;
        claims_part = parts.1;
        three =
            three_parts-passed (split dot token) parts.0 parts.1 parts.2 is_three
            ∙ ap (λ s. parts.0 ∷ parts.1 ∷ s ∷ []) (sym (same_signature compared));
        header = header;
        header_decoded = header_ok;
        algorithm = not-true _ algorithm;
        claims_decoded = claims_ok ∙ ap verified (sym same_claims);
        checked = rw same_claims checked;
      }
    where
      same_signature :
          {s t : Text}
          → reject_if (not (text_eq s t)) TokenError.invalid_signature ≡ verified tt
          → s ≡ t
      same_signature {s} {t} h = text_eq→eq s t (elim (Bool-cases (text_eq s t)) [
        | inl same ↦ same
        | inr other ↦ absurd (cc (rw other at h))
      ])
