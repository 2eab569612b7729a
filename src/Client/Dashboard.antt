-- ===== src/Client/Dashboard.antt =====
-- The state of the hooks web-interface-js/frontend/src/hooks/useWebSockets.js and
-- useAdminWebSockets.js, and what a message of the relay does to it.
pub mod Window
use casuya_live.Common.{
  ℕ, String, Bool, true, false, not, ◌&&◌, Option, none, some, List, [], ◌∷◌, take, if◌then◌else◌,
}
use casuya_live.Js.{Float, Runtime, Value, null, is_text, member, member?, truthy, strict_eq}
use casuya_live.Client.Recent.{push}

pub record Pnl (N : Type 0) : Type 0 where
  pub last : Value N
  pub history : List (Value N)

-- The public hook.
pub record Dashboard (N : Type 0) : Type 0 where
  pub last_event : Value N
  pub matches : List (Value N)
  pub diagnostics : List (Value N)
  pub pnl : Option (Pnl N)

-- The operator's hook.
pub record Console (N : Type 0) : Type 0 where
  pub last_event : Value N
  pub pnl : Option (Pnl N)
  pub diagnostics : List (Value N)
  pub commands : List (Value N)

module _ {N : Type 0} where
  -- `prev?.history || []`
  abbrev pub history_of : Option (Pnl N) → List (Value N)
  history_of none = []
  history_of (some p) = p.history

  abbrev pub pnl_after : Option (Pnl N) → Value N → Pnl N
  pnl_after prev payload = record { last = payload; history = take 40 (payload ∷ history_of prev) }

  abbrev pub log_after : List (Value N) → Value N → List (Value N)
  log_after prev payload = take 60 (payload ∷ prev)

module _ (F : Float) (R : Runtime F) where
  open F use {N}
  open R use {parse}

  -- `a.match_id === b.match_id`
  abbrev pub same_match : Value N → Value N → Bool
  same_match a b = strict_eq F (member? a "match_id") (member? b "match_id")

  -- `frame.data && frame.data.match_id`
  unfoldable pub has_match : Value N → Bool
  has_match payload = truthy F payload && truthy F (member? payload "match_id")

  -- The branches on `frame.type`.
  unfoldable pub show_frame : Dashboard N → Value N → Value N → Dashboard N
  unfolding push
  show_frame d type payload =
      if is_text type "matches:live" && has_match payload
      then record d { matches = push same_match 40 payload d.matches }
      else if is_text type "diagnostics:events" && has_match payload
      then record d { diagnostics = log_after d.diagnostics payload }
      else if is_text type "execution:pnl" && truthy F payload
      then record d { pnl = some (pnl_after d.pnl payload) }
      else d

  -- The body of the `try`: a frame that is null has been noted when it throws.
  unfoldable pub receive_frame : Dashboard N → Value N → Dashboard N
  unfolding show_frame
  receive_frame d frame =
      let d' = record d { last_event = frame } in
      elim (member frame "type") [
        | none ↦ d'
        | some type ↦ show_frame d' type (member? frame "data")
      ]

  -- `socket.onmessage` of the public hook.
  unfoldable pub receive : Dashboard N → String → Dashboard N
  unfolding receive_frame
  receive d text = elim (parse text) [ none ↦ d | some frame ↦ receive_frame d frame ]

  unfoldable pub log_frame : Console N → Value N → Value N → Console N
  log_frame c type payload =
      if is_text type "execution:pnl" && truthy F payload
      then record c { pnl = some (pnl_after c.pnl payload) }
      else if is_text type "diagnostics:events" && has_match payload
      then record c { diagnostics = log_after c.diagnostics payload }
      else if is_text type "execution:commands" && truthy F payload
      then record c { commands = log_after c.commands payload }
      else c

  unfoldable pub log_received : Console N → Value N → Console N
  unfolding log_frame
  log_received c frame =
      let c' = record c { last_event = frame } in
      elim (member frame "type") [
        | none ↦ c'
        | some type ↦ log_frame c' type (member? frame "data")
      ]

  -- `socket.onmessage` of the operator's hook.
  unfoldable pub receive_admin : Console N → String → Console N
  unfolding log_received
  receive_admin c text = elim (parse text) [ none ↦ c | some frame ↦ log_received c frame ]

  abbrev pub fresh_dashboard : Dashboard N
  fresh_dashboard = record { last_event = null; matches = []; diagnostics = []; pnl = none }

  abbrev pub fresh_console : Console N
  fresh_console = record { last_event = null; pnl = none; diagnostics = []; commands = [] }

  -- The states after a history of messages, its newest message first.
  unfoldable pub dashboard_after : List String → Dashboard N
  unfolding receive
  dashboard_after [] = fresh_dashboard
  dashboard_after (text ∷ older) = receive (dashboard_after older) text

  unfoldable pub console_after : List String → Console N
  unfolding receive_admin
  console_after [] = fresh_console
  console_after (text ∷ older) = receive_admin (console_after older) text
