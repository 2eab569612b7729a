-- ===== src/Relay/History.antt =====
-- web-interface-js/backend/server.js over a history of messages: the subscriptions of `main`, whose
-- callbacks write the ledger and the freshness into Redis, from where `handleStats` reads them.
--
-- Redis and its client are no part of the source: `Redis` names what the code asks of them, and
-- `RedisLaws` what is documented of the commands. The client calls each listener of a channel, in
-- the order of the subscriptions, and `main` subscribes a new listener for each name in WS_CHANNELS.
pub mod Counts
pub mod Report
pub mod Freshness
use casuya_live.Common.{
  ℕ, zero, suc, ◌+◌, ◌*◌, ◌<◌, ◌^◌, String, Bool, true, false, ◌&&◌, Option, none, some, List, [],
  ◌∷◌, ◌≡◌, ◌===◌, decimal, if◌then◌else◌,
}
use casuya_live.Js.{Float, Runtime, Value, member?}
use casuya_live.Relay.Bus.{
  Env, ws_channels, Socket, Command, h_incr_by_float, h_incr_by, h_set, Effect, sends, commands,
  Outcome, outcomes_hash, staleness_hash, on_message,
}
use casuya_live.Relay.Http.Stats.{Hash, Replies, stats_value}

-- `h_get s h` is what `hGetAll` replies of the hash h.
pub record Redis (N : Type 0) : Type 1 where
  pub Store : Type 0
  pub h_get : Store → String → Hash
  pub run : Command N → Store → Store

module _ {N : Type 0} (D : Redis N) where
  open D use {Store, h_get, run}

  -- HSET writes a number in decimal, HINCRBY adds to a decimal below 2^63, a missing one counting
  -- as zero, and no command changes another field.
  pub record RedisLaws : Type 0 where
    pub get-h_set :
        (s : Store) (h k j f : String) (n : ℕ)
        → h_get (run (h_set h k n) s) j f
          ≡ (if h === j && k === f then some (decimal n) else h_get s j f)
    pub get-h_incr_by_none :
        (s : Store) (h k : String) (n : ℕ)
        → h_get s h k ≡ none
        → h_get (run (h_incr_by h k n) s) h k ≡ some (decimal n)
    pub get-h_incr_by_some :
        (s : Store) (h k : String) (m n : ℕ)
        → h_get s h k ≡ some (decimal m)
        → m + n < 2 ^ 63
        → h_get (run (h_incr_by h k n) s) h k ≡ some (decimal (m + n))
    pub get-h_incr_by_other :
        (s : Store) (h k j f : String) (n : ℕ)
        → (h === j && k === f) ≡ false
        → h_get (run (h_incr_by h k n) s) j f ≡ h_get s j f
    pub get-h_incr_by_float_other :
        (s : Store) (h k j f : String) (x : N)
        → (h === j && k === f) ≡ false
        → h_get (run (h_incr_by_float h k x) s) j f ≡ h_get s j f

  -- The commands that a callback has sent, in order; what goes to sockets does not touch Redis.
  unfoldable pub apply : Store → List (Effect N) → Store
  apply s [] = s
  apply s (sends id text ∷ es) = apply s es
  apply s (commands c ∷ es) = apply (run c s) es

  -- What `handleStats` reads, where the rest of the store is as given.
  abbrev pub replies_of : Store → Hash → Option String → Hash → Replies
  replies_of s model heartbeat pnl = record {
    model = model;
    heartbeat = heartbeat;
    pnl = pnl;
    outcomes = h_get s outcomes_hash;
    staleness = h_get s staleness_hash;
  }

-- Whole numbers below 2^53 in decimal are read as the numbers that they are, and are told from zero.
pub record ReadLaws (F : Float) : Type 0 where
  pub reads : (n : ℕ) → n < 2 ^ 53 → F.of_text (decimal n) ≡ F.of_ℕ n
  pub eq_self : (n : ℕ) → n < 2 ^ 53 → F.eq (F.of_ℕ n) (F.of_ℕ n) ≡ true
  pub eq_zero : (n : ℕ) → 0 < n → n < 2 ^ 53 → F.eq (F.of_ℕ n) (F.of_ℕ 0) ≡ false

-- A message that Redis delivers, with the sockets at that time.
pub record Message : Type 0 where
  pub channel : String
  pub text : String
  pub sockets : List Socket
  pub now_ms : ℕ

-- The listeners of a channel: one for each time that it is named.
abbrev pub listeners : String → List String → ℕ
listeners ch [] = 0
listeners ch (c ∷ cs) = if c === ch then suc (listeners ch cs) else listeners ch cs

module _ (F : Float) (R : Runtime F) (env : Env) where
  abbrev pub heard_once : Message → Outcome F.N
  heard_once m = on_message F R env m.sockets m.channel m.text m.now_ms

module _ (F : Float) (R : Runtime F) (D : Redis F.N) (env : Env) where
  open D use {Store}

  -- The callbacks of so many listeners; an exception that leaves one keeps the rest from being called.
  unfoldable pub call_listeners : ℕ → Message → Store → Store
  call_listeners zero m s = s
  call_listeners (suc n) m s =
      let done = heard_once F R env m in
      let after = apply D s done.effects in
      let rest = call_listeners n m after in if done.threw then after else rest

  -- The store after a history of messages, oldest first.
  unfoldable pub relay_run : Store → List Message → Store
  relay_run s [] = s
  relay_run s (m ∷ ms) = relay_run (call_listeners (listeners m.channel (ws_channels env)) m s) ms

module _ (F : Float) (R : Runtime F) (D : Redis F.N) (channels : List String) (model : Hash)
    (heartbeat : Option String) (pnl : Hash) (now_ms : ℕ) (features : Value F.N)
    (weights : List F.N) (names : List (Value F.N)) where
  -- The statistics that are answered when Redis holds the store, and two parts of them.
  abbrev pub stats_from : D.Store → Value F.N
  stats_from s =
      stats_value F R channels (replies_of D s model heartbeat pnl) now_ms features weights names

  abbrev pub outcome : D.Store → String → Value F.N
  outcome s result = member? (member? (stats_from s) "outcomes") result

  abbrev pub last_seen : D.Store → String → Value F.N
  last_seen s ch = member? (member? (member? (stats_from s) "channels") ch) "last_seen_ms"
