-- ===== src/Client/Session.antt =====
-- The stored session of the operator, web-interface-js/frontend/src/lib/session.js: `getSessionToken`,
-- `saveSessionToken` and `clearSessionToken`. A storage that throws is not modelled.
pub mod Keeping
use casuya_live.Common.{
  ℕ, String, Bool, true, false, not, ◌&&◌, ◌||◌, Option, none, some, List, [], ◌∷◌, is_empty,
  if◌then◌else◌,
}
use casuya_live.Js.{Float, Runtime, Value, null, num, object, member?, truthy, number_of}

-- `localStorage`, where it is defined, at the key of the session.
pub record Storage : Type 0 where
  pub defined : Bool
  pub item : Option String

abbrev pub removed : Storage → Storage
removed s = record s { item = none }

module _ (F : Float) (R : Runtime F) where
  open F use {N, of_ℕ, lt, eq, mul}
  open R use {parse, stringify}

  -- `a <= b` of numbers, which NaN fails.
  abbrev pub at_most : N → N → Bool
  at_most a b = lt a b || eq a b

  -- `session.expires_at * 1000 <= Date.now()`
  abbrev pub is_over : Value N → ℕ → Bool
  is_over expires_at now_ms = at_most (mul (number_of F expires_at) (of_ℕ 1000)) (of_ℕ now_ms)

  abbrev pub token_in : Storage → Value N → ℕ → Value N × Storage
  token_in s session now_ms =
      if not (truthy F (member? session "token")) || is_over (member? session "expires_at") now_ms
      then (null, removed s)
      else (member? session "token", s)

  -- `raw` is there and is not empty.
  read_session : Storage → String → ℕ → Value N × Storage
  read_session s raw now_ms = elim (parse raw) [
    | none ↦ (null, s)
    | some session ↦ token_in s session now_ms
  ]

  abbrev read_item : Storage → Option String → ℕ → Value N × Storage
  read_item s none now_ms = (null, s)
  read_item s (some raw) now_ms = if is_empty raw then (null, s) else read_session s raw now_ms

  -- `getSessionToken`: the token or null, and the storage after.
  unfoldable pub get_session_token : Storage → ℕ → Value N × Storage
  unfolding read_session
  get_session_token s now_ms = if not s.defined then (null, s) else read_item s s.item now_ms

  abbrev pub session_body : Value N → Value N → ℕ → Value N
  session_body token expires_at now_ms =
      object (("token", token) ∷ ("expires_at", expires_at) ∷ ("saved_at", num (of_ℕ now_ms)) ∷ [])

  unfoldable pub save_session_token : Storage → Value N → Value N → ℕ → Storage
  save_session_token s token expires_at now_ms =
      if not s.defined
      then s
      else record s { item = some (stringify (session_body token expires_at now_ms)) }

  unfoldable pub clear_session_token : Storage → Storage
  clear_session_token s = if not s.defined then s else removed s
