-- ===== src/Vendor/Simulator/Whole.antt =====
-- What holds of the whole simulator of mock-vendor/server.js after any history.
use casuya_live.Common.{
  ℕ, String, Bool, Option, List, [], ◌∷◌, ◌++◌, ◌≡◌, refl, sym, subst, inl, inr, Option-cases,
}
use casuya_live.Js.{Float, Runtime}
use casuya_live.Vendor.Book.{Buffers, cycle_at}
use casuya_live.Vendor.Book.Conserve.{
  issued, issued-AreDistinct, AreDistinct, keys_of, IsBalanced, trade_message-Places,
  Places-IsBalanced, publish_settlement-IsBalanced,
}
use casuya_live.Vendor.Feed.{Effect, streams, settles, closes, score_value, tick}
use casuya_live.Vendor.Simulator.{
  Simulator, feed_of, with_feed, settle_with, run_effects, fire_feed, Event, dials, fires, hangs_up,
  trades, simulate_step, simulate, started,
}

module _ (F : Float) (R : Runtime F) (B : Buffers F) (forced : Option String) (secret : String)
    (boot_ms : ℕ) where
  open F use {N}

  -- The two halves of the bookkeeping of the whole simulator.
  abbrev pub Balanced : Simulator F R B → Type 0
  Balanced s = IsBalanced s.settled s.vendor

  settle_with-Balanced :
      (redis_ready : Bool) (now_ms : ℕ) (score : ℕ × ℕ) (s : Simulator F R B)
      → Balanced s
      → Balanced (settle_with F R B forced secret boot_ms redis_ready now_ms score s).0
  unfolding settle_with
  settle_with-Balanced redis_ready now_ms score s b =
      publish_settlement-IsBalanced F R B secret boot_ms s.settled redis_ready s.vendor
        (cycle_at boot_ms now_ms) (score_value F R B score) b

  pub run_effects-Balanced :
      (id : ℕ) (redis_ready : Bool) (now_ms : ℕ) (s : Simulator F R B) (es : List (Effect F R B))
      → Balanced s
      → Balanced (run_effects F R B forced secret boot_ms id redis_ready now_ms s es).0
  unfolding run_effects
  run_effects-Balanced id redis_ready now_ms s [] b = b
  run_effects-Balanced id redis_ready now_ms s (settles score ∷ es) b =
      run_effects-Balanced id redis_ready now_ms
        (settle_with F R B forced secret boot_ms redis_ready now_ms score s).0 es
        (settle_with-Balanced redis_ready now_ms score s b)
  run_effects-Balanced id redis_ready now_ms s (streams text ∷ es) b =
      run_effects-Balanced id redis_ready now_ms s es b
  run_effects-Balanced id redis_ready now_ms s (closes ∷ es) b =
      run_effects-Balanced id redis_ready now_ms s es b

  fire_feed-Balanced :
      (id : ℕ) (is_open redis_ready : Bool) (now_ms : ℕ) (s : Simulator F R B)
      → Balanced s
      → Balanced (fire_feed F R B forced secret boot_ms id is_open redis_ready now_ms s).0
  unfolding fire_feed
  fire_feed-Balanced id is_open redis_ready now_ms s b =
      elim (Option-cases (feed_of F R B id s.feeds)) [
        | inl e ↦ rw (fire_feed, e) b
        | inr (f, e) ↦
            let fs = with_feed F R B id (tick F R B f is_open).0 s.feeds in
            rw (fire_feed, e)
              (run_effects-Balanced id redis_ready now_ms
                (record { feeds = fs; vendor = s.vendor; settled = s.settled })
                (tick F R B f is_open).1 (record { keyed = b.keyed; total = b.total }))
      ]

  pub simulate_step-Balanced :
      (s : Simulator F R B) (e : Event F R B forced secret boot_ms)
      → Balanced s
      → Balanced (simulate_step F R B forced secret boot_ms s e).0
  unfolding simulate_step
  simulate_step-Balanced s (dials id roll now_ms) b = record { keyed = b.keyed; total = b.total }
  simulate_step-Balanced s (fires id is_open redis_ready now_ms) b =
      fire_feed-Balanced id is_open redis_ready now_ms s b
  simulate_step-Balanced s (hangs_up id) b = record { keyed = b.keyed; total = b.total }
  simulate_step-Balanced s (trades id raw now_ms) b =
      Places-IsBalanced F R B secret boot_ms s.settled s.vendor _
        (trade_message-Places F R B secret boot_ms s.vendor raw now_ms) b

  pub simulate-Balanced :
      (s : Simulator F R B) (es : List (Event F R B forced secret boot_ms))
      → Balanced s
      → Balanced (simulate F R B forced secret boot_ms s es)
  unfolding simulate
  simulate-Balanced s [] b = b
  simulate-Balanced s (e ∷ es) b =
      simulate-Balanced (simulate_step F R B forced secret boot_ms s e).0 es
        (simulate_step-Balanced s e b)

  pub started-Balanced : Balanced (started F R B)
  unfolding issued
  started-Balanced = record { keyed = tt; total = refl }

  -- Whatever ingestors connect, whatever their timers do, and whatever the executors send, in any
  -- order: the names of the orders that the feeds' settlements have taken from the book, followed by
  -- those still in it, are M1, M2, … in the order of their fills, and no name occurs twice.
  pub simulate-issued :
      (es : List (Event F R B forced secret boot_ms))
      → let s = simulate F R B forced secret boot_ms (started F R B) es in
        (s.settled ++ keys_of s.vendor.book ≡ issued s.vendor.order_seq)
        × AreDistinct (s.settled ++ keys_of s.vendor.book)
  simulate-issued es =
      let balanced = simulate-Balanced (started F R B) es started-Balanced in
      (balanced.total, subst AreDistinct (sym balanced.total) (issued-AreDistinct _))
