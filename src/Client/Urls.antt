-- ===== src/Client/Urls.antt =====
-- The URLs of web-interface-js/frontend/src: `resolveUrl` of hooks/useWebSockets.js, `apiBase` and
-- `resolveWsUrl` of lib/session.js, `engineBase` and `engineWsUrl` of lib/engine.js. The class URL is
-- the platform's.

use Prim.Native.Char.{code}
use casuya_live.Common.{
  ℕ, String, Bool, true, false, ◌&&◌, ◌||◌, Option, none, some, ◌≡◌, ◌≢◌, refl, inl, inr, arith,
  ◌==◌, ◌===◌, ◌<>◌, is_empty, drop_chars, if◌then◌else◌, Bool-cases, eq_iff, ne_of_===-false,
  is_empty_iff,
}
use casuya_live.Js.{Float, Value, truthy, string_of}

-- `none` is an exception of the constructor.
pub record UrlClass : Type 1 where
  pub Url : Type 0
  pub new_url : String → Option Url
  pub protocol : Url → String
  pub pathname : Url → String
  pub set_protocol : String → Url → Url
  pub set_pathname : String → Url → Url
  pub set_search : String → Url → Url
  pub set_hash : String → Url → Url
  pub set_param : String → String → Url → Url
  pub href : Url → String

-- `text.startsWith(p)`
unfoldable pub begins : String → String → Bool
begins String.[] s = true
begins (String.◌∷◌ c p) String.[] = false
begins (String.◌∷◌ c p) (String.◌∷◌ d s) = code c == code d && begins p s

-- `text.includes(p)`
unfoldable pub includes : String → String → Bool
unfolding begins
includes p String.[] = begins p String.[]
includes p (String.◌∷◌ c s) = begins p (String.◌∷◌ c s) || includes p s

-- `text.replace(/\/$/, "")`
unfoldable pub strip_slash : String → String
strip_slash String.[] = String.[]
strip_slash (String.◌∷◌ c String.[]) = if code c == b'/' then String.[] else String.◌∷◌ c String.[]
strip_slash (String.◌∷◌ c (String.◌∷◌ d s)) = String.◌∷◌ c (strip_slash (String.◌∷◌ d s))

-- `text.replace(/^p/, q)`, for p of n characters.
unfoldable pub replace_start : String → ℕ → String → String → String
unfolding begins drop_chars
replace_start p n q s = if begins p s then q <> drop_chars n s else s

-- A URL without a scheme gets one.
unfoldable pub ws_base : String → String
unfolding begins
ws_base raw = if begins "ws://" raw || begins "wss://" raw then raw else "wss://" <> raw

module _ (F : Float) (W : UrlClass) where
  open F use {N}
  open W use {
    Url, new_url, protocol, pathname, set_protocol, set_pathname, set_search, set_hash, set_param,
    href,
  }

  unfoldable pub with_path : Url → Url
  with_path u = if pathname u === "/" || is_empty (pathname u) then set_pathname "/ws" u else u

  -- `resolveUrl`
  unfoldable pub resolve_url : String → String
  unfolding with_path ws_base strip_slash
  resolve_url raw = elim (new_url (ws_base raw)) [
    | none ↦ strip_slash (ws_base raw) <> "/ws"
    | some u ↦ href (with_path u)
  ]

  abbrev pub with_token : Value N → Url → Url
  with_token token u = if truthy F token then set_param "token" (string_of F token) u else u

  -- What the second constructor is given, after the first has thrown.
  abbrev pub http_fallback : String → String
  http_fallback base =
      replace_start "ws:" 3 "http:" (replace_start "wss:" 4 "https:" (strip_slash base <> "/ws"))

  -- `resolveWsUrl`, with what `getSessionToken` gives it; `none` is an exception.
  unfoldable pub resolve_ws_url : String → Value N → Option String
  unfolding with_path ws_base strip_slash replace_start
  resolve_ws_url ws_url token = elim (new_url (ws_base ws_url)) [
    | some u ↦ some (href (with_token token (with_path u)))
    | none ↦ elim (new_url (http_fallback (ws_base ws_url))) [
      | none ↦ none
      | some u ↦ some (href (with_token token u))
    ]
  ]

  abbrev pub bare : Url → Url
  bare u = set_hash "" (set_search "" u)

  -- `apiBase`
  unfoldable pub api_base : String → String
  unfolding includes strip_slash
  api_base ws_url = elim (new_url (if includes "://" ws_url then ws_url else "wss://" <> ws_url)) [
    | none ↦ "http://localhost:8080"
    | some u ↦ strip_slash (
        href (
          bare (
            set_pathname "/"
              (set_protocol (if protocol u === "wss:" then "https:" else "http:") u))))
  ]

  -- `engineBase` and `engineWsUrl`
  unfoldable pub engine_ws_url : String → String
  unfolding strip_slash
  engine_ws_url engine_url = elim (new_url (strip_slash engine_url)) [
    | none ↦ "ws://localhost:8081/api/v1/stream/signals"
    | some u ↦ href (
        bare (
          set_pathname "/api/v1/stream/signals"
            (set_protocol (if protocol u === "http:" then "ws:" else "wss:") u)))
  ]

  -- A path that is set is the path.
  pub record PathLaws : Type 0 where
    pub set_pathname-get : (u : Url) → pathname (set_pathname "/ws" u) ≡ "/ws"

  with_path-HasPath :
      PathLaws → (u : Url) → (pathname (with_path u) ≢ "/") × (pathname (with_path u) ≢ "")
  unfolding with_path
  with_path-HasPath laws u = elim (Bool-cases (pathname u === "/" || is_empty (pathname u))) [
    | inl e ↦
        rw (with_path, e, laws.set_pathname-get u)
          (ne_of_===-false _ _ refl, ne_of_===-false _ _ refl)
    | inr e ↦
        rw (with_path, e)
          (
            (λ p. ground (arith, e, (eq_iff (pathname u) "/").1 p)),
            (λ p. ground (arith, e, (is_empty_iff (pathname u)).1 p)),
          )
  ]

  -- Where the constructor takes the relay's URL, both hooks dial a URL with a path that is neither empty
  -- nor the root; without a session the operator's hook dials what the public one does, and with a
  -- session the same with the token as its parameter.
  pub resolve_ws_url-resolve_url :
      PathLaws
      → (ws_url : String) (token : Value N) (u : Url) → new_url (ws_base ws_url) ≡ some u
      → (dialled : Url) × (pathname dialled ≢ "/")
        × (pathname dialled ≢ "")
        × (resolve_url ws_url ≡ href dialled)
        × (resolve_ws_url ws_url token ≡ (
            if truthy F token
            then some (href (set_param "token" (string_of F token) dialled))
            else some (resolve_url ws_url)))
  unfolding resolve_url resolve_ws_url
  resolve_ws_url-resolve_url laws ws_url token u e =
      let (root, empty) = with_path-HasPath laws u in
      (
        with_path u,
        root,
        empty,
        rw (resolve_url, e) refl,
        rw (resolve_ws_url, resolve_url, e) (ground arith),
      )
