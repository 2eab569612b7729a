-- ===== src/Vendor/Simulator.antt =====
-- mock-vendor/server.js as a whole: the feeds of all the ingestors, each with its timer, and the
-- trade server, over the one book that `publishSettlement` and the fills share. Connections and
-- their states are the `ws` library's: its changes are events, and so are the times of the clock,
-- the rolls of `Math.random` and whether Redis is ready.
pub mod Whole
pub mod Growth
pub mod Settled
use casuya_live.Common.{
  ℕ, ◌+◌, ◌-◌, ◌*◌, ◌/◌, String, Bool, Option, none, some, List, [], ◌∷◌, ◌++◌, map, ◌==◌,
  if◌then◌else◌,
}
use casuya_live.Js.{Float, Runtime}
use casuya_live.Vendor.Book.{
  Buffers, Vendor, orders_of, ids_of, cycle_at, publish_settlement, trade_message,
}
use casuya_live.Vendor.Feed.{
  Feed, Effect, streams, settles, closes, score_value, tick, connected, closed, pick_scenario,
}

-- What the simulator sends: to a feed or a trade connection, and on the settlement channel.
pub data Output : Type 0 where
  feed_sends : ℕ → String → Output
  feed_closes : ℕ → Output
  trade_sends : ℕ → String → Output
  publishes : String → Output

abbrev pub published : Option String → List Output
published none = []
published (some text) = publishes text ∷ []

module _ (F : Float) (R : Runtime F) (B : Buffers F) where
  open F use {N}

  -- `settled` keeps the names of the orders that settlements have taken from the book, in order.
  pub record Simulator : Type 0 where
    pub feeds : List (ℕ × Feed F R B)
    pub vendor : Vendor N
    pub settled : List String

  unfoldable pub feed_of : ℕ → List (ℕ × Feed F R B) → Option (Feed F R B)
  feed_of id [] = none
  feed_of id ((i, f) ∷ fs) = if i == id then some f else feed_of id fs

  -- The connection's own timer changes only its own feed.
  unfoldable pub with_feed : ℕ → Feed F R B → List (ℕ × Feed F R B) → List (ℕ × Feed F R B)
  with_feed id f = map (λ e. if e.0 == id then (e.0, f) else e)

  abbrev pub hung_up : ℕ → ℕ × Feed F R B → ℕ × Feed F R B
  hung_up id e = if e.0 == id then (e.0, closed F R B e.1) else e

  -- `MOCK_SCENARIO`, `INTERNAL_AUTH_SECRET` and the time of the start.
  module _ (forced : Option String) (secret : String) (boot_ms : ℕ) where
    -- The settlement with the final score of a feed.
    unfoldable pub settle_with : Bool → ℕ → ℕ × ℕ → Simulator → Simulator × List Output
    unfolding publish_settlement
    settle_with redis_ready now_ms score s =
        let cycle = cycle_at boot_ms now_ms in
        let p = publish_settlement F R B redis_ready s.vendor cycle (score_value F R B score) in
        (
          record s { vendor = p.0; settled = s.settled ++ ids_of (orders_of s.vendor.book) },
          published p.1,
        )

    unfoldable pub run_effects :
        ℕ → Bool → ℕ → Simulator → List (Effect F R B) → Simulator × List Output
    unfolding settle_with
    run_effects id redis_ready now_ms s [] = (s, [])
    run_effects id redis_ready now_ms s (streams text ∷ es) =
        let rest = run_effects id redis_ready now_ms s es in (rest.0, feed_sends id text ∷ rest.1)
    run_effects id redis_ready now_ms s (settles score ∷ es) =
        let done = settle_with redis_ready now_ms score s in
        let rest = run_effects id redis_ready now_ms done.0 es in (rest.0, done.1 ++ rest.1)
    run_effects id redis_ready now_ms s (closes ∷ es) =
        let rest = run_effects id redis_ready now_ms s es in (rest.0, feed_closes id ∷ rest.1)

    -- The timer of one connection.
    unfoldable pub fire_feed : ℕ → Bool → Bool → ℕ → Simulator → Simulator × List Output
    unfolding run_effects feed_of with_feed tick
    fire_feed id is_open redis_ready now_ms s = elim (feed_of id s.feeds) [
      | none ↦ (s, [])
      | some f ↦
          let (g, effects) = tick F R B f is_open in
          run_effects id redis_ready now_ms (record s { feeds = with_feed id g s.feeds }) effects
    ]

    -- What happens to the simulator.
    pub data Event : Type 0 where
      dials : ℕ → N → ℕ → Event
      fires : ℕ → Bool → Bool → ℕ → Event
      hangs_up : ℕ → Event
      trades : ℕ → String → ℕ → Event

    -- `connection` of `vendorServer`.
    unfoldable pub accept_feed : N → ℕ → Feed F R B
    unfolding pick_scenario
    accept_feed roll now_ms =
        connected F R B (pick_scenario F R B forced roll) (now_ms / 1000 - 31 * 60)

    unfoldable pub simulate_step : Simulator → Event → Simulator × List Output
    unfolding accept_feed fire_feed trade_message
    simulate_step s (dials id roll now_ms) =
        (record s { feeds = s.feeds ++ (id, accept_feed roll now_ms) ∷ [] }, [])
    simulate_step s (fires id is_open redis_ready now_ms) =
        fire_feed id is_open redis_ready now_ms s
    simulate_step s (hangs_up id) = (record s { feeds = map (hung_up id) s.feeds }, [])
    simulate_step s (trades id raw now_ms) =
        let done = trade_message F R B secret s.vendor raw boot_ms now_ms in
        (record s { vendor = done.after }, map (trade_sends id) done.sent)

    -- The simulator after a history, oldest event first.
    unfoldable pub simulate : Simulator → List Event → Simulator
    unfolding simulate_step
    simulate s [] = s
    simulate s (e ∷ es) = simulate (simulate_step s e).0 es

  abbrev pub started : Simulator
  started = record { feeds = []; vendor = record { book = []; order_seq = 0 }; settled = [] }
