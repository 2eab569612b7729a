-- ===== src/Relay/Token/Authentic.antt =====
-- What an admin token proves: exactly the tokens signed under the secret, and not yet expired, are
-- accepted; an issued token is good for its time to live.
use Prim.Native.Char.{Char, char, code}
use Prim.Native.String.{len}
use text.Mathlib.TextEquality.{Char-path}
use casuya_live.Common.{
  ℕ, ◌+◌, ◌/◌, ◌<◌, ◌^◌, String, true, false, Option, none, some, List, [], ◌∷◌, ◌≡◌, refl, ap, ◌∙◌,
  ◌↔◌, inl, inr, arith, eq_iff, ◌<>◌, ltb, is_empty, has_char, split_on, split_on_free,
  split_on-append, split_on_two, cons-eq-append, append-not-empty, &&-true, Bool-cases,
  Option-cases,
}
use casuya_live.Js.{Float, Runtime, SafeIntegers, Value, num, str, member, member?, is_text}
use casuya_live.Relay.Token.{
  safe_equal, admin_token_ttl_seconds, token_body, token_payload, issue_admin_token, is_later,
  check_claims, check_parts, verify_admin_token,
}

-- The lengths are compared first, and that changes no answer.
pub safe_equal_iff : (a b : String) → (safe_equal a b ≡ true) ↔ (a ≡ b)
unfolding safe_equal
safe_equal_iff a b = (λ h. ground (arith, eq_iff a b), λ e. ground (arith, eq_iff a b, ap len e))

abbrev stop : Char
stop = char 46 tt

dot : (c : Char) (t : String) → code c ≡ b'.' → String.◌∷◌ c t ≡ "." <> t
dot c t e = rw (Char-path c stop e) (cons-eq-append stop t "." refl)

module _ (F : Float) (R : Runtime F) where
  open F use {N, of_ℕ, lt, is_finite}
  open R use {parse, stringify, hmac, encode, decode}

  -- What the code relies on: the JSON of the claims reads back, their base64url decodes to what was
  -- encoded, and neither base64url nor the digest has a full stop in its alphabet.
  pub record TokenLaws : Type 0 where
    pub safe : SafeIntegers F
    pub parse-stringify :
        (now : ℕ) → parse (stringify (token_body F R now)) ≡ some (token_body F R now)
    pub decode-encode : (now : ℕ) → decode (token_payload F R now) ≡ stringify (token_body F R now)
    pub encode_no_dot : (s : String) → has_char b'.' (encode s) ≡ false
    pub hmac_no_dot : (key s : String) → has_char b'.' (hmac key s) ≡ false

  -- A token that the holder of the secret has signed, over claims that have not expired at `now`.
  pub record IsAuthentic (secret token : String) (now : ℕ) : Type 0 where
    pub configured : is_empty secret ≡ false
    pub payload : String
    pub payload_no_dot : has_char b'.' payload ≡ false
    pub sig_no_dot : has_char b'.' (hmac secret payload) ≡ false
    pub signed : token ≡ payload <> ("." <> hmac secret payload)
    pub body : Value N
    pub parsed : parse (decode payload) ≡ some body
    pub sub : member body "sub" ≡ some (str "admin")
    pub exp : N
    pub expires : member? body "exp" ≡ num exp
    pub finite : is_finite exp ≡ true
    pub later : lt (of_ℕ now) exp ≡ true

  split_signed :
      (p q : String)
      → has_char b'.' p ≡ false
      → has_char b'.' q ≡ false
      → split_on b'.' (p <> ("." <> q)) ≡ p ∷ q ∷ []
  split_signed p q h k =
      rw (← dot stop q refl, split_on-append b'.' p q stop h refl, split_on_free b'.' q k) refl

  pub not_empty_signed : (p q : String) → is_empty (p <> ("." <> q)) ≡ false
  not_empty_signed p q = rw (← dot stop q refl) (append-not-empty p q stop)

  check_parts_signed :
      (secret p : String) (now : ℕ)
      → check_parts F R secret (p ∷ hmac secret p ∷ []) now
        ≡ check_claims F R (parse (decode p)) now
  unfolding check_parts
  check_parts_signed secret p now = rw ((safe_equal_iff (hmac secret p) _).1 refl) refl

  -- What the checks say of a token in its signed form.
  verify_signed :
      (secret p : String) (now_ms : ℕ)
      → is_empty secret ≡ false
      → has_char b'.' p ≡ false
      → has_char b'.' (hmac secret p) ≡ false
      → verify_admin_token F R secret (p <> ("." <> hmac secret p)) now_ms
        ≡ check_claims F R (parse (decode p)) (now_ms / 1000)
  unfolding verify_admin_token
  verify_signed secret p now_ms some_secret h k =
      rw (not_empty_signed p (hmac secret p), some_secret, split_signed p (hmac secret p) h k)
        (check_parts_signed secret p (now_ms / 1000))

  check_claims_own :
      SafeIntegers F
      → (issued now : ℕ) → issued + admin_token_ttl_seconds < 2 ^ 53
      → now < 2 ^ 53
      → check_claims F R (some (token_body F R issued)) now
        ≡ ltb now (issued + admin_token_ttl_seconds)
  unfolding check_claims member member?
  check_claims_own safe issued now h k =
      rw (safe.finite (issued + admin_token_ttl_seconds) h)
        (safe.lt_of_ℕ now (issued + admin_token_ttl_seconds) k h)

  -- Under a secret that is not empty, and for seconds below 2^53, an issued token is accepted
  -- exactly while the present second is below the second of its issue and eight hours.
  pub verify-issue :
      TokenLaws
      → (secret : String) (issued_ms now_ms : ℕ) → is_empty secret ≡ false
      → issued_ms / 1000 + admin_token_ttl_seconds < 2 ^ 53
      → now_ms / 1000 < 2 ^ 53
      → verify_admin_token F R secret (issue_admin_token F R secret issued_ms).token now_ms
        ≡ ltb (now_ms / 1000) (issued_ms / 1000 + admin_token_ttl_seconds)
  unfolding issue_admin_token
  verify-issue laws secret issued_ms now_ms some_secret h k =
      verify_signed secret (token_payload F R issued) now_ms some_secret (laws.encode_no_dot _)
        (laws.hmac_no_dot secret _)
      ∙ rw (laws.decode-encode issued, laws.parse-stringify issued)
          (check_claims_own laws.safe issued (now_ms / 1000) h k)
    where
      issued : ℕ
      issued = issued_ms / 1000

  is_text_sound : (v : Value N) (t : String) → is_text v t ≡ true → v ≡ str t
  is_text_sound (str s) t h = ap str ((eq_iff s t).0 h)
  is_text_sound v t h = absurd (cc)

  is_later_sound :
      (v : Value N) (now : ℕ)
      → is_later F R v now ≡ true
      → (exp : N) × (v ≡ num exp) × (is_finite exp ≡ true) × (lt (of_ℕ now) exp ≡ true)
  is_later_sound (num exp) now h =
      let (finite, after) = &&-true (is_finite exp) (lt (of_ℕ now) exp) h in
      (exp, refl, finite, after)
  is_later_sound v now h = absurd (cc)

  record Claims (o : Option (Value N)) (now : ℕ) : Type 0 where
    body : Value N
    parsed : o ≡ some body
    sub : member body "sub" ≡ some (str "admin")
    exp : N
    expires : member? body "exp" ≡ num exp
    finite : is_finite exp ≡ true
    later : lt (of_ℕ now) exp ≡ true

  check_claims_sound :
      (o : Option (Value N)) (now : ℕ) → check_claims F R o now ≡ true → Claims o now
  unfolding check_claims
  check_claims_sound none now h = absurd (cc)
  check_claims_sound (some body) now h = elim (Option-cases (member body "sub")) [
    | inl e ↦ absurd (ground arith)
    | inr (sub, e) ↦
        let (named, later) = &&-true (is_text sub "admin") _ (ground arith) in
        let (exp, expires, finite, after) = is_later_sound (member? body "exp") now later in
        record {
          body = body;
          parsed = refl;
          sub = e ∙ ap some (is_text_sound sub "admin" named);
          exp = exp;
          expires = expires;
          finite = finite;
          later = after;
        }
  ]

  check_parts_sound :
      (secret : String) (parts : List String) (now : ℕ)
      → check_parts F R secret parts now ≡ true
      → (payload : String) × (parts ≡ payload ∷ hmac secret payload ∷ [])
        × (check_claims F R (parse (decode payload)) now ≡ true)
  unfolding check_parts
  check_parts_sound secret (payload ∷ sig ∷ []) now h =
      elim (Bool-cases (safe_equal (hmac secret payload) sig)) [
        | inl e ↦
            let same : hmac secret payload ≡ sig = (safe_equal_iff _ _).0 e in
            (payload, ground arith, rw e at h)
        | inr e ↦ absurd (ground arith)
      ]
  check_parts_sound secret [] now h = absurd (cc)
  check_parts_sound secret (p ∷ []) now h = absurd (cc)
  check_parts_sound secret (p ∷ q ∷ r ∷ rest) now h = absurd (cc)

  verify_sound :
      (secret token : String) (now_ms : ℕ)
      → verify_admin_token F R secret token now_ms ≡ true
      → IsAuthentic secret token (now_ms / 1000)
  unfolding verify_admin_token
  verify_sound secret token now_ms h = elim (Bool-cases (is_empty secret)) [
    | inl e ↦ absurd (ground arith)
    | inr e ↦
        let (payload, parts, valid) =
          check_parts_sound secret (split_on b'.' token) (now_ms / 1000) (ground arith) in
        let (c, is_dot, split, free, sig_free) = split_on_two b'.' token payload _ parts in
        let claims = check_claims_sound _ _ valid in
        record {
          configured = e;
          payload = payload;
          payload_no_dot = free;
          sig_no_dot = sig_free;
          signed = split ∙ ap (◌<>◌ payload) (dot c _ is_dot);
          body = claims.body;
          parsed = claims.parsed;
          sub = claims.sub;
          exp = claims.exp;
          expires = claims.expires;
          finite = claims.finite;
          later = claims.later;
        }
  ]

  check_claims_complete :
      (body : Value N) (now : ℕ) (exp : N)
      → member body "sub" ≡ some (str "admin")
      → member? body "exp" ≡ num exp
      → is_finite exp ≡ true
      → lt (of_ℕ now) exp ≡ true
      → check_claims F R (some body) now ≡ true
  unfolding check_claims
  check_claims_complete body now exp sub expires finite later =
      rw (check_claims, sub, expires, finite) later

  verify_complete :
      (secret token : String) (now_ms : ℕ)
      → IsAuthentic secret token (now_ms / 1000)
      → verify_admin_token F R secret token now_ms ≡ true
  verify_complete secret token now_ms a =
      rw
        (
          a.signed,
          verify_signed secret a.payload now_ms a.configured a.payload_no_dot a.sig_no_dot,
          a.parsed,
        )
        (check_claims_complete a.body (now_ms / 1000) a.exp a.sub a.expires a.finite a.later)

  -- A token is accepted exactly when a secret is configured, the token is a payload and the digest of
  -- that payload under the secret round one full stop, and the decoded payload is JSON whose `sub` is
  -- "admin" and whose `exp` is a finite number later than the present second.
  pub verify_iff :
      (secret token : String) (now_ms : ℕ)
      → (verify_admin_token F R secret token now_ms ≡ true)
        ↔ IsAuthentic secret token (now_ms / 1000)
  verify_iff secret token now_ms =
      (verify_sound secret token now_ms, verify_complete secret token now_ms)
