-- ===== src/Relay/Token.antt =====
-- The token primitives of web-interface-js/backend/server.js: `safeEqual`, `issueAdminToken`,
-- `verifyAdminToken` and `bearerFrom`. Times are milliseconds of the clock; `ADMIN_SECRET` is the
-- argument `secret`.
pub mod Authentic
use Prim.Native.Nat.{ℕ}
use Prim.Native.Char.{code}
use Prim.Native.String.{len}
use casuya_live.Common.{
  ℕ, suc, ◌+◌, ◌/◌, String, Bool, true, false, not, ◌&&◌, ◌||◌, Option, none, some, List, [], ◌∷◌,
  ◌==◌, ◌===◌, ◌<>◌, if◌then◌else◌, is_empty, split_on, drop_chars, trim, is_space,
}
use casuya_live.Js.{Float, Runtime, Value, num, str, obj, end, field, member, member?, is_text}

-- `Buffer.from(text)` is the text's UTF-8; buffers of one length are compared byte by byte.
unfoldable pub safe_equal : String → String → Bool
safe_equal a b = if not (len a == len b) then false else a === b

abbrev pub admin_token_ttl_seconds : ℕ
admin_token_ttl_seconds = 28800

pub record Issued : Type 0 where
  pub token : String
  pub expires_at : ℕ

module _ (F : Float) (R : Runtime F) where
  open F use {N, of_ℕ, lt, is_finite}
  open R use {parse, stringify, hmac, encode, decode, query}

  -- `{ sub: "admin", iat: now, exp: now + ADMIN_TOKEN_TTL_SECONDS }`
  abbrev pub token_body : ℕ → Value N
  token_body now = obj (
      field "sub" (str "admin") (
        field "iat" (num (of_ℕ now))
          (field "exp" (num (of_ℕ (now + admin_token_ttl_seconds))) end)))

  abbrev pub token_payload : ℕ → String
  token_payload now = encode (stringify (token_body now))

  unfoldable pub issue_admin_token : String → ℕ → Issued
  issue_admin_token secret now_ms =
      let now = now_ms / 1000 in
      let payload = token_payload now in
      let sig = hmac secret payload in
      record { token = payload <> ("." <> sig); expires_at = now + admin_token_ttl_seconds }

  -- `Number.isFinite(exp) && exp > now`
  abbrev pub is_later : Value N → ℕ → Bool
  is_later (num exp) now = is_finite exp && lt (of_ℕ now) exp
  is_later _ now = false

  -- The body of the `try`: every exception gives false.
  unfoldable pub check_claims : Option (Value N) → ℕ → Bool
  check_claims none now = false
  check_claims (some body) now = elim (member body "sub") [
    | none ↦ false
    | some sub ↦ is_text sub "admin" && is_later (member? body "exp") now
  ]

  unfoldable pub check_parts : String → List String → ℕ → Bool
  unfolding check_claims safe_equal
  check_parts secret (payload ∷ sig ∷ []) now =
      if not (safe_equal (hmac secret payload) sig)
      then false
      else check_claims (parse (decode payload)) now
  check_parts secret _ now = false

  unfoldable pub verify_admin_token : String → String → ℕ → Bool
  unfolding check_parts split_on
  verify_admin_token secret token now_ms =
      if is_empty token || is_empty secret
      then false
      else check_parts secret (split_on b'.' token) (now_ms / 1000)
