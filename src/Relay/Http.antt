-- ===== src/Relay/Http.antt =====
-- The HTTP side of web-interface-js/backend/server.js: `bearerFrom`, `sendJson`, the request
-- listener and `handleTokenIssue`. What the command client of Redis answers is an argument.
pub mod Access
pub mod Stats
use Prim.Native.Char.{Char, code}
use Prim.Native.String
use casuya_live.Common.{
  ℕ, ◌+◌, String, Bool, true, false, not, ◌&&◌, ◌||◌, Option, none, some, List, [], ◌∷◌, ◌==◌,
  ◌===◌, ◌<>◌, leb, if◌then◌else◌, is_empty, drop_chars, trim, is_space,
}
use casuya_live.Js.{
  Float, Runtime, Value, num, str, field, end, obj, member, or_else, string_of, object,
}
use casuya_live.Relay.Token.{
  Issued, safe_equal, admin_token_ttl_seconds, issue_admin_token, verify_admin_token,
}

pub record Request : Type 0 where
  pub url : String
  pub method : String
  pub authorization : Option String

pub record Response : Type 0 where
  pub status : ℕ
  pub cors : Bool
  pub json : Bool
  pub body : String

-- `/^Bearer\s+/i`: the word in any case, then white space.
abbrev lower_code : Char → ℕ
lower_code c = if leb 65 (code c) && leb (code c) 90 then code c + 32 else code c

word_then_space : String → String → Bool
word_then_space String.[] String.[] = false
word_then_space String.[] (String.◌∷◌ c s) = is_space c
word_then_space (String.◌∷◌ w ws) String.[] = false
word_then_space (String.◌∷◌ w ws) (String.◌∷◌ c s) =
    (lower_code c == code w) && word_then_space ws s

unfoldable pub is_bearer : String → Bool
unfolding word_then_space
is_bearer auth = word_then_space "bearer" auth

abbrev pub or_empty : Option (Option String) → String
or_empty none = ""
or_empty (some none) = ""
or_empty (some (some t)) = t

module _ (F : Float) (R : Runtime F) where
  open F use {N, of_ℕ}
  open R use {parse, stringify, query}

  unfoldable pub bearer_from : Request → String
  unfolding is_bearer
  bearer_from req = elim req.authorization [
    | none ↦ or_empty (query req.url "token")
    | some auth ↦
        if not (is_empty auth) && is_bearer auth
        then trim (drop_chars 7 auth)
        else or_empty (query req.url "token")
  ]

  abbrev pub send_json : ℕ → Value N → Response
  send_json code body = record { status = code; cors = true; json = true; body = stringify body }

  abbrev pub send_error : ℕ → String → Response
  send_error code message =
      send_json code (object (("status", str "error") ∷ ("message", str message) ∷ []))

  abbrev pub not_found : Response
  not_found = record { status = 404; cors = false; json = false; body = "not found" }

  abbrev pub preflight : Response
  preflight = record { status = 204; cors = true; json = false; body = "" }

  abbrev pub healthy : Response
  healthy =
      send_json 200 (object (("status", str "ok") ∷ ("service", str "casuya-live-web-relay") ∷ []))

  -- `String(JSON.parse(body).secret || "")`, and "" after an exception.
  unfoldable pub posted_secret : String → String
  posted_secret body = elim (parse body) [
    | none ↦ ""
    | some v ↦ elim (member v "secret") [ none ↦ "" | some s ↦ string_of F (or_else F s (str "")) ]
  ]

  -- `body += d` for each chunk.
  abbrev pub received_after : String → List String → String
  received_after body [] = body
  received_after body (d ∷ ds) = received_after (body <> d) ds

  abbrev pub issued_value : Issued → Value N
  issued_value issued = object (
      ("status", str "ok")
      ∷ ("token", str issued.token)
      ∷ ("expires_at", num (of_ℕ issued.expires_at))
      ∷ ("expires_in", num (of_ℕ admin_token_ttl_seconds))
      ∷ [])

  abbrev pub token_response : Issued → Response
  token_response issued = send_json 200 (issued_value issued)

  unfoldable pub handle_token_issue : String → List String → ℕ → Response
  unfolding posted_secret safe_equal
  handle_token_issue secret chunks now_ms =
      if is_empty secret
      then send_error 503 "admin tier not configured (ADMIN_SECRET unset)"
      else let given = posted_secret (received_after "" chunks) in
        if is_empty given || not (safe_equal given secret)
        then send_error 401 "invalid admin secret"
        else token_response (issue_admin_token F R secret now_ms)

  -- `stats` is the answer of `handleStats`, which is called on one branch only.
  unfoldable pub serve : String → Bool → Request → List String → ℕ → Response → Response
  unfolding handle_token_issue bearer_from
  serve secret is_open req chunks now_ms stats =
      if req.url === "/healthz"
      then healthy
      else if req.method === "OPTIONS"
      then preflight
      else if req.url === "/api/auth/token" && req.method === "POST"
      then handle_token_issue secret chunks now_ms
      else if req.url === "/api/stats" && req.method === "GET"
      then (if not is_open
          then send_json 503
              (object (("status", str "starting") ∷ ("message", str "redis connecting") ∷ []))
          else if not (verify_admin_token F R secret (bearer_from req) now_ms)
          then send_error 401 "admin bearer token required"
          else stats)
      else not_found
