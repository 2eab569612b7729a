-- ===== src/Relay/Bus.antt =====
-- The live side of web-interface-js/backend/server.js: the WebSocket upgrade with its role tiering,
-- and the subscriber callback of `main`, which relays a message and counts settled outcomes.
-- The set of sockets and their states are the `ws` library's: its changes are events. What the code
-- asks of sockets and of Redis is a list of effects, in the order of the calls.
pub mod Privacy
pub mod Delivery
pub mod Ledger
pub mod Throws
use Prim.Native.String
use casuya_live.Common.{
  ℕ, zero, suc, ◌+◌, String, Bool, true, false, not, ◌&&◌, ◌||◌, Option, none, some, List, [], ◌∷◌,
  ◌++◌, map, keep, ◌==◌, ◌===◌, if◌then◌else◌, is_empty, split_on, trim,
}
use casuya_live.Js.{
  Float, Runtime, Value, num, str, object, member, or_else, number_of, is_text, array_or_empty,
}
use casuya_live.Relay.Token.{verify_admin_token}
use casuya_live.Relay.Http.{or_empty}

-- The environment variables that name channels.
pub record Env : Type 0 where
  pub ws_matches_channel : Option String
  pub ws_diag_channel : Option String
  pub ws_pnl_channel : Option String
  pub ws_commands_channel : Option String
  pub ws_extra_channels : Option String

-- `process.env.X || d`
abbrev pub env_or : Option String → String → String
env_or none d = d
env_or (some s) d = if is_empty s then d else s

unfoldable pub public_channel : Env → String
public_channel env = env_or env.ws_matches_channel "matches:live"

unfoldable pub ws_channels : Env → List String
unfolding public_channel split_on trim
ws_channels env =
    public_channel env
    ∷ env_or env.ws_diag_channel "diagnostics:events"
    ∷ env_or env.ws_pnl_channel "execution:pnl"
    ∷ env_or env.ws_commands_channel "execution:commands"
    ∷ keep (λ c. not (is_empty c)) (map trim (split_on b',' (env_or env.ws_extra_channels "")))

pub data Role : Type 0 where
  admin anyone : Role

abbrev pub is_admin : Role → Bool
is_admin admin = true
is_admin anyone = false

-- `is_open` is `readyState === OPEN`.
pub record Socket : Type 0 where
  pub id : ℕ
  pub role : Role
  pub is_open : Bool

pub data Command (N : Type 0) : Type 0 where
  h_incr_by_float : String → String → N → Command N
  h_incr_by : String → String → ℕ → Command N
  h_set : String → String → ℕ → Command N

pub data Effect (N : Type 0) : Type 0 where
  sends : ℕ → String → Effect N
  commands : Command N → Effect N

-- What a callback has done when it returns, or when an exception leaves it.
pub record Outcome (N : Type 0) : Type 0 where
  pub effects : List (Effect N)
  pub threw : Bool

abbrev pub outcomes_hash : String
outcomes_hash = "stats:outcomes"

abbrev pub staleness_hash : String
staleness_hash = "relay:staleness"

module _ (F : Float) (R : Runtime F) where
  open F use {N, of_ℕ, add}
  open R use {parse, stringify, query}

  -- `token && verifyAdminToken(token) ? "admin" : "public"`, for the token in the URL's query.
  unfoldable pub role_of : String → String → ℕ → Role
  role_of secret token now_ms =
      if not (is_empty token) && verify_admin_token F R secret token now_ms then admin else anyone

  -- The role of an upgraded socket; `none` is `socket.destroy()`. The path is the first piece.
  unfoldable pub upgrade_parts : String → List String → String → ℕ → Option Role
  unfolding role_of
  upgrade_parts secret [] url now_ms = none
  upgrade_parts secret (pathname ∷ _) url now_ms =
      if not (pathname === "/ws")
      then none
      else some (role_of secret (or_empty (query url "token")) now_ms)

  unfoldable pub upgrade : String → String → ℕ → Option Role
  unfolding upgrade_parts split_on
  upgrade secret url now_ms = upgrade_parts secret (split_on b'?' url) url now_ms

  abbrev pub payload_of : String → Value N
  payload_of message = elim (parse message) [
    | none ↦ object (("raw", str message) ∷ [])
    | some v ↦ v
  ]

  abbrev pub frame : String → Value N → ℕ → String
  frame ch payload now_ms =
      stringify (object (("type", str ch) ∷ ("data", payload) ∷ ("ts", num (of_ℕ now_ms)) ∷ []))

  abbrev pub sees : Env → String → Role → Bool
  sees env ch role = is_admin role || ch === public_channel env

  -- The loop over `wss.clients`, with its two `continue`s.
  unfoldable pub deliver : Env → String → String → List Socket → List (Effect N)
  deliver env ch framed [] = []
  deliver env ch framed (s ∷ ss) =
      let rest = deliver env ch framed ss in
      if not s.is_open
      then rest
      else if not (is_admin s.role) && not (ch === public_channel env)
      then rest
      else sends s.id framed ∷ rest

  pub record Tally : Type 0 where
    pub net : N
    pub won : ℕ
    pub lost : ℕ

  abbrev pub count_order : Tally → Value N → Value N → Tally
  count_order t pnl result = record {
    net = add t.net (number_of F (or_else F pnl (num (of_ℕ 0))));
    won = if is_text result "won" then t.won + 1 else t.won;
    lost =
        if is_text result "won"
        then t.lost
        else if is_text result "lost"
        then t.lost + 1
        else t.lost;
  }

  -- The loop over `settled`; `none` is the TypeError of an order that is null.
  unfoldable pub tally : Tally → List (Value N) → Option Tally
  tally t [] = some t
  tally t (order ∷ orders) = elim (member order "pnl") [
    | none ↦ none
    | some pnl ↦ elim (member order "result") [
      | none ↦ none
      | some result ↦ tally (count_order t pnl result) orders
    ]
  ]

  abbrev pub no_tally : Tally
  no_tally = record { net = of_ℕ 0; won = 0; lost = 0 }

  abbrev pub tally_commands : Tally → List (Command N)
  tally_commands t =
      h_incr_by_float outcomes_hash "net" t.net
        ∷ (if t.won == 0 then [] else h_incr_by outcomes_hash "won" t.won ∷ [])
      ++ (if t.lost == 0 then [] else h_incr_by outcomes_hash "lost" t.lost ∷ [])

  abbrev pub count_settled : List (Value N) → Option (List (Command N))
  count_settled [] = some []
  count_settled (order ∷ orders) = elim (tally no_tally (order ∷ orders)) [
    | none ↦ none
    | some t ↦ some (tally_commands t)
  ]

  -- `payload.settled` and the ledger; `none` is an exception.
  unfoldable pub settle : Value N → Option (List (Command N))
  unfolding tally
  settle payload = elim (member payload "settled") [
    | none ↦ none
    | some settled ↦ count_settled (array_or_empty settled)
  ]

  unfoldable pub is_ledger_channel : Env → String → Bool
  is_ledger_channel env ch = elim env.ws_pnl_channel [
    | none ↦ ch === "execution:pnl"
    | some name ↦ ch === name || ch === "execution:pnl"
  ]

  -- The subscriber callback of `main`.
  unfoldable pub on_message : Env → List Socket → String → String → ℕ → Outcome N
  unfolding deliver settle public_channel
  on_message env sockets ch message now_ms =
      let payload = payload_of message in
      let sent = deliver env ch (frame ch payload now_ms) sockets in
      let noted = h_set staleness_hash ch now_ms ∷ [] in
      elim (if is_ledger_channel env ch then settle payload else some []) [
        | none ↦ record { effects = sent; threw = true }
        | some counted ↦ record { effects = sent ++ map commands (counted ++ noted); threw = false }
      ]

  -- What happens to the relay: upgrades, sockets that stop being open or go, and messages.
  pub data Event : Type 0 where
    upgrades : ℕ → String → ℕ → Event
    closes : ℕ → Event
    goes : ℕ → Event
    publishes : String → String → ℕ → Event

  abbrev joined_by : ℕ → Option Role → List Socket → List Socket
  joined_by id none ss = ss
  joined_by id (some role) ss = ss ++ record { id = id; role = role; is_open = true } ∷ []

  abbrev closing : ℕ → Socket → Socket
  closing id s = if s.id == id then record s { is_open = false } else s

  unfoldable pub sockets_after : String → List Socket → Event → List Socket
  unfolding upgrade
  sockets_after secret ss (upgrades id url now_ms) = joined_by id (upgrade secret url now_ms) ss
  sockets_after secret ss (closes id) = map (closing id) ss
  sockets_after secret ss (goes id) = keep (λ s. not (s.id == id)) ss
  sockets_after secret ss (publishes ch message now_ms) = ss

  -- The sockets after a history, oldest event first.
  unfoldable pub sockets_run : String → List Socket → List Event → List Socket
  unfolding sockets_after
  sockets_run secret ss [] = ss
  sockets_run secret ss (e ∷ es) = sockets_run secret (sockets_after secret ss e) es
