-- ===== src/Client/Login.antt =====
-- The operator's login and what uses its token: `submit` of components/AdminLogin.jsx, the session of
-- app/admin/page.jsx, and `poll` of components/ModelAccuracyPanel.jsx, all of
-- web-interface-js/frontend/src. What a request answers is an argument.
pub mod Lasting
use casuya_live.Common.{
  ℕ, String, Bool, true, false, not, Option, none, some, List, [], ◌∷◌, ◌<>◌, decimal,
  if◌then◌else◌,
}
use casuya_live.Js.{Float, Runtime, Value, null, str, member, member?, truthy, or_else, string_of}
use casuya_live.Client.Session.{Storage, get_session_token, save_session_token, clear_session_token}

-- The message of a request or of a body that failed, or `res.ok`, `res.status` and the body.
pub data Reply (N : Type 0) : Type 0 where
  failed : String → Reply N
  answered : Bool → ℕ → Value N → Reply N

pub record Form : Type 0 where
  pub error : Option String
  pub busy : Bool

-- The form, the storage, and what `onLogin` is called with.
pub record Submitted (N : Type 0) : Type 0 where
  pub form : Form
  pub storage : Storage
  pub logged_in : Option (Value N)

-- The token in the page's state, and the storage of the browser.
pub record Page (N : Type 0) : Type 0 where
  pub token : Value N
  pub storage : Storage

-- The statistics, where null is `none`, and the error.
pub record Panel (N : Type 0) : Type 0 where
  pub stats : Option (Value N)
  pub error : Option String

module _ (F : Float) (R : Runtime F) where
  open F use {N}

  abbrev pub submitting : Form
  submitting = record { error = none; busy = true }

  abbrev pub refused : Storage → String → Submitted N
  refused s message = record {
    form = record { error = some message; busy = false };
    storage = s;
    logged_in = none;
  }

  -- `submit`, when its request is answered. `thrown` is the message of a TypeError.
  unfoldable pub login_done : String → Storage → ℕ → Reply N → Submitted N
  login_done thrown s now_ms (failed message) = refused s message
  login_done thrown s now_ms (answered false status body) = elim (member body "message") [
    | none ↦ refused s thrown
    | some message ↦ refused s (string_of F (or_else F message (str ("token " <> decimal status))))
  ]
  login_done thrown s now_ms (answered true status body) = elim (member body "token") [
    | none ↦ refused s thrown
    | some token ↦ record {
      form = record { error = none; busy = false };
      storage = save_session_token F R s token (member? body "expires_at") now_ms;
      logged_in = some token;
    }
  ]

  -- The token that a page starts with when it is opened, and the storage after it has looked.
  unfoldable pub page_token : Storage → ℕ → Value N × Storage
  page_token s now_ms =
      let (token, after) = get_session_token F R s now_ms in
      (if truthy F token then token else null, after)

  -- `handleLogin`, with what `onLogin` is called with, if it is.
  abbrev pub handle_login : Value N → Option (Value N) → Value N
  handle_login token none = token
  handle_login token (some next) = next

  -- What happens in a tab: the page is opened, a request of the form is answered, the operator logs
  -- out, and the timer of `logout` fires.
  pub data PageEvent : Type 0 where
    opens : ℕ → PageEvent
    submits : String → ℕ → Reply N → PageEvent
    leaves : PageEvent
    elapses : PageEvent

  unfoldable pub page_step : Page N → PageEvent → Page N
  unfolding page_token login_done
  page_step p (opens now_ms) =
      let (token, after) = page_token p.storage now_ms in record { token = token; storage = after }
  page_step p (submits thrown now_ms reply) =
      let done = login_done thrown p.storage now_ms reply in
      record { token = handle_login p.token done.logged_in; storage = done.storage }
  page_step p leaves = record p { storage = clear_session_token F R p.storage }
  page_step p elapses = record p { token = null }

  -- `poll`, when its request is answered; without a token there is none.
  unfoldable pub poll_done : Bool → Value N → Panel N → Reply N → Panel N
  poll_done disposed token p reply =
      if not (truthy F token)
      then (if disposed then p else record p { error = some "no admin session" })
      else if disposed
      then p
      else elim reply [
        | failed message ↦ record p { error = some message }
        | answered false status body ↦ record p { error = some ("stats " <> decimal status) }
        | answered true status body ↦ record { stats = some body; error = none }
      ]
