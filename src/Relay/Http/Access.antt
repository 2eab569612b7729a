-- ===== src/Relay/Http/Access.antt =====
-- Who gets what from the HTTP side: the statistics, and the tokens.

use Prim.Native.String.{slice, len}
use text.Mathlib.TextPositions.{slice-append_left}
use casuya_live.Common.{
  ℕ, ◌+◌, ◌/◌, String, Bool, true, false, some, List, [], ◌≡◌, refl, sym, ap, ◌∙◌, ◌≢◌, ◌⊎◌,
  append-eq-glue, is_empty_iff, inl, inr, arith, ◌===◌, ◌<>◌, is_empty, drop_chars, trim,
  Bool-cases, ===-false_of_ne, ne_of_===-false, has_space, has_space-append, trim_free, lt→ltb, ◌<◌,
  ◌^◌,
}
use casuya_live.Js.{Float, Runtime}
use casuya_live.Relay.Token.{
  token_payload, admin_token_ttl_seconds, issue_admin_token, verify_admin_token,
}
use casuya_live.Relay.Token.Authentic.{
  IsAuthentic, TokenLaws, verify-issue, verify_iff, safe_equal_iff,
}
use casuya_live.Relay.Http.{
  Request, Response, bearer_from, posted_secret, received_after, token_response, not_found,
  handle_token_issue, serve,
}

prefix-ne : (p q t : String) → (slice t 0 (len p) === p) ≡ false → p <> q ≢ t
prefix-ne p q t h e =
    ne_of_===-false _ _ h (sym (sym (slice-append_left p q) ∙ ap (λ s. slice s 0 (len p)) e))

module _ (F : Float) (R : Runtime F) where
  -- A request without an authentic token gets an answer that does not depend on the statistics.
  pub serve-independent :
      (secret : String) (is_open : Bool) (req : Request) (chunks : List String) (now_ms : ℕ)
      (stats other : Response)
      → ¬ IsAuthentic F R secret (bearer_from F R req) (now_ms / 1000)
      → serve F R secret is_open req chunks now_ms stats
        ≡ serve F R secret is_open req chunks now_ms other
  unfolding serve
  serve-independent secret is_open req chunks now_ms stats other h =
      elim (Bool-cases (verify_admin_token F R secret (bearer_from F R req) now_ms)) [
        | inl e ↦ absurd (h ((verify_iff F R secret _ now_ms).0 e))
        | inr e ↦ rw e refl
      ]

  -- The header that the operator console sends gives its token back.
  bearer_from-header :
      (req : Request) (token : String)
      → trim token ≡ token
      → req.authorization ≡ some ("Bearer " <> token)
      → bearer_from F R req ≡ token
  unfolding bearer_from drop_chars
  bearer_from-header req token h e = rw (e, append-eq-glue "Bearer " token) h

  -- A login is answered 503 where no secret is configured, 401 where the posted secret is another,
  -- and 200 with a freshly issued token where it is the configured one.
  pub handle_token_issue_cases :
      (secret : String) (chunks : List String) (now_ms : ℕ)
      → let given = posted_secret F R (received_after F R "" chunks) in
        let answer = handle_token_issue F R secret chunks now_ms in
        ((secret ≡ "") × (answer.status ≡ 503))
        ⊎ ((secret ≢ "") × (given ≢ secret) × (answer.status ≡ 401))
        ⊎ ((secret ≢ "")
            × (given ≡ secret)
            × (answer ≡ token_response F R (issue_admin_token F R secret now_ms)))
  unfolding handle_token_issue
  handle_token_issue_cases secret chunks now_ms =
      let given = posted_secret F R (received_after F R "" chunks) in
      ground (
        arith,
        (is_empty_iff secret).0,
        (is_empty_iff secret).1,
        (is_empty_iff given).0,
        (is_empty_iff given).1,
        (safe_equal_iff given secret).0,
        (safe_equal_iff given secret).1,
      )

  -- A request whose URL is /api/stats with a query, by a method other than OPTIONS, is answered
  -- 404, whatever the query.
  serve-query :
      (secret : String) (is_open : Bool) (req : Request) (chunks : List String) (now_ms : ℕ)
      (stats : Response) (rest : String)
      → req.url ≡ "/api/stats?" <> rest
      → (req.method ≡ "OPTIONS" → ⊥)
      → serve F R secret is_open req chunks now_ms stats ≡ not_found F R
  unfolding serve
  serve-query secret is_open req chunks now_ms stats rest e h =
      rw
        (
          e,
          ===-false_of_ne _ _ (prefix-ne "/api/stats?" rest "/healthz" refl),
          ===-false_of_ne _ _ h,
          ===-false_of_ne _ _ (prefix-ne "/api/stats?" rest "/api/auth/token" refl),
          ===-false_of_ne _ _ (prefix-ne "/api/stats?" rest "/api/stats" refl),
        )
        refl

  -- The characters of an issued token.
  pub record HeaderLaws : Type 0 where
    pub encode_no_space : (s : String) → has_space (R.encode s) ≡ false
    pub hmac_no_space : (key s : String) → has_space (R.hmac key s) ≡ false

  issued_trimmed :
      HeaderLaws
      → (secret : String) (t : ℕ)
      → let token = (issue_admin_token F R secret t).token in trim token ≡ token
  unfolding issue_admin_token
  issued_trimmed laws secret t =
      let payload = token_payload F R (t / 1000) in
      let sig = R.hmac secret payload in
      trim_free _ (
        rw
          (
            has_space-append payload ("." <> sig),
            laws.encode_no_space _,
            has_space-append "." sig,
            laws.hmac_no_space secret payload,
          )
          refl)

  -- Where Redis is open and the secret is not empty, GET /api/stats with an issued token in the
  -- bearer header is answered with the statistics while the token has not expired (seconds below
  -- 2^53).
  pub serve-issued :
      TokenLaws F R
      → HeaderLaws
      → (secret : String) (issued_ms now_ms : ℕ) (req : Request) (stats : Response)
      → is_empty secret ≡ false
      → now_ms / 1000 < issued_ms / 1000 + admin_token_ttl_seconds
      → issued_ms / 1000 + admin_token_ttl_seconds < 2 ^ 53
      → req.url ≡ "/api/stats"
      → req.method ≡ "GET"
      → req.authorization ≡ some ("Bearer " <> (issue_admin_token F R secret issued_ms).token)
      → serve F R secret true req [] now_ms stats ≡ stats
  unfolding serve
  serve-issued laws header secret issued_ms now_ms req stats h early bound url method auth =
      let token = (issue_admin_token F R secret issued_ms).token in
      let from = bearer_from-header req token (issued_trimmed header secret issued_ms) auth in
      let valid : verify_admin_token F R secret token now_ms ≡ true =
        verify-issue F R laws secret issued_ms now_ms h bound (omega arith) ∙ lt→ltb _ _ early in
      rw (from, valid, url, method) refl
