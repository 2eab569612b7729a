-- ===== src/Examples/SimulatorRuns.antt =====
-- Runs of the whole simulator on concrete histories.
use casuya_live.Common.{ℕ, zero, suc, Bool, true, false, none, some, List, [], ◌∷◌, ◌++◌, ◌≡◌, refl}
use casuya_live.Vendor.Script.{home}
use casuya_live.Vendor.Book.Conserve.{issued, keys_of, AreDistinct}
use casuya_live.Vendor.Feed.{connected, ticks}
use casuya_live.Vendor.Feed.Lifetime.{feed_after, frames, closings, live, feed_after-live}
use casuya_live.Vendor.Simulator.{
  Event, dials, fires, hangs_up, trades, simulate, simulate_step, feed_of, started,
}
use casuya_live.Vendor.Simulator.Whole.{simulate-issued}
use casuya_live.Vendor.Simulator.Settled.{dials-settled}
use casuya_live.Examples.Toy.{numbers, platform, buffers}

abbrev sixteen : List Bool
sixteen =
    true ∷ true ∷ true ∷ true ∷ true ∷ true ∷ true ∷ true ∷ true ∷ true ∷ true ∷ true ∷ true ∷ true
    ∷ true ∷ true ∷ []

feed_after-live_example :
    let f = connected numbers platform buffers home 0 in
    ((feed_after numbers platform buffers f sixteen).running ≡ live 15 sixteen)
    × (frames numbers platform buffers (ticks numbers platform buffers f sixteen) ≡ 15)
    × (closings numbers platform buffers (ticks numbers platform buffers f sixteen) ≡ 1)
feed_after-live_example = feed_after-live numbers platform buffers home 0 sixteen

-- An executor's order, and two ingestors whose timers take turns.
abbrev early : List (Event numbers platform buffers none "key" 0)
early = trades 1 "order" 1000 ∷ dials 2 (some 50) 2000 ∷ fires 2 true true 4500 ∷ []

abbrev turns : ℕ → List (Event numbers platform buffers none "key" 0)
turns zero = []
turns (suc n) = fires 3 true true 5000 ∷ fires 2 false true 5000 ∷ trades 1 "order" 5000 ∷ turns n

simulate-issued_example :
    let s =
      simulate numbers platform buffers none "key" 0
        (started numbers platform buffers)
        (early ++ hangs_up 2 ∷ []) in
    (s.settled ++ keys_of s.vendor.book ≡ issued s.vendor.order_seq)
    × AreDistinct (s.settled ++ keys_of s.vendor.book)
simulate-issued_example =
    simulate-issued numbers platform buffers none "key" 0 (early ++ hangs_up 2 ∷ [])

not_yet :
    feed_of numbers platform buffers 3
      (simulate numbers platform buffers none "key" 0
        (started numbers platform buffers)
        (trades 1 "order" 1000 ∷ [])).feeds
    ≡ none
unfolding simulate simulate_step feed_of
not_yet = refl

dials-settled_example :
    let s =
      simulate numbers platform buffers none "key" 0
        (started numbers platform buffers)
        (trades 1 "order" 1000 ∷ []) in
    let t = simulate numbers platform buffers none "key" 0 s (dials 3 (some 80) 3000 ∷ turns 15) in
    (later : List _) × (t.settled ≡ issued s.vendor.order_seq ++ later)
dials-settled_example =
    dials-settled numbers platform buffers none "key" 0 (trades 1 "order" 1000 ∷ []) (turns 15) 3
      (some 80) 3000 not_yet refl refl
