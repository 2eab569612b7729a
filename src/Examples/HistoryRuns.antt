-- ===== src/Examples/HistoryRuns.antt =====
-- The relay over a concrete history: the ledger's channel is named twice.
use casuya_live.Common.{ℕ, String, Option, none, some, List, [], ◌∷◌, ◌≡◌, refl, inl, inr, arith}
use casuya_live.Js.{num, array, member, member?}
use casuya_live.Relay.Bus.{Env, ws_channels, public_channel, is_ledger_channel}
use casuya_live.Relay.Bus.Ledger.{count_results}
use casuya_live.Relay.History.{Message, relay_run, outcome, last_seen}
use casuya_live.Relay.History.Counts.{total, IsOrderly}
use casuya_live.Relay.History.Report.{stats-total}
use casuya_live.Relay.History.Freshness.{stats-last_at}
use casuya_live.Examples.RedisToy.{
  texts, texts-ReadLaws, order, host, redis, redis-RedisLaws, empty_redis,
}

abbrev env : Env
env = record {
  ws_matches_channel = none;
  ws_diag_channel = none;
  ws_pnl_channel = none;
  ws_commands_channel = none;
  ws_extra_channels = some "execution:pnl";
}

abbrev message : String → String → ℕ → Message
message ch text now_ms = record { channel = ch; text = text; sockets = []; now_ms = now_ms }

abbrev day : List Message
day =
    message "execution:pnl" "settled" 1000
    ∷ message "matches:live" "settled" 2000
    ∷ message "execution:pnl" "settled" 3000
    ∷ message "diagnostics:events" "none" 4000
    ∷ []

abbrev empty : String → Option String
empty k = none

settled-IsOrderly :
    (now_ms : ℕ) → IsOrderly texts host env (message "execution:pnl" "settled" now_ms)
unfolding member
settled-IsOrderly now_ms = inr (
  array (order "won" ∷ order "lost" ∷ order "won" ∷ []),
  refl,
  ((_, refl), ((_, refl), ((_, refl), tt))),
)

stats-total_example :
    let t = relay_run texts host redis env empty_redis day in
    let count = outcome texts host redis [] empty none empty 5000 (array []) [] [] t in
    (count "won" ≡ num (texts.of_ℕ (total texts host env "won" day)))
    × (count "lost" ≡ num (texts.of_ℕ (total texts host env "lost" day)))
unfolding is_ledger_channel ws_channels public_channel count_results member member?
stats-total_example =
    stats-total texts host redis redis-RedisLaws env texts-ReadLaws [] empty none empty 5000
      (array []) [] [] day empty_redis
      (settled-IsOrderly 1000, (inl refl, (settled-IsOrderly 3000, (inl refl, tt)))) refl refl
      (omega arith) (omega arith)

stats-last_at_example :
    last_seen texts host redis
      (ws_channels env)
      empty
      none
      empty
      5000
      (array [])
      []
      []
      (relay_run texts host redis env empty_redis day)
      "execution:pnl"
    ≡ num (texts.of_ℕ 3000)
unfolding is_ledger_channel ws_channels public_channel
stats-last_at_example =
    stats-last_at texts host redis redis-RedisLaws env texts-ReadLaws empty none empty 5000
      (array []) [] [] day empty_redis "execution:pnl" 3000
      (settled-IsOrderly 1000, (inl refl, (settled-IsOrderly 3000, (inl refl, tt)))) refl refl
      (omega arith) (omega arith)
