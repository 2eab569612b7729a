-- ===== src/Examples/VendorRuns.antt =====
-- The vendor simulator on concrete trade messages, settlements and ticks.
use casuya_live.Common.{
  ℕ, Bool, true, false, Option, none, some, List, [], ◌∷◌, ◌≡◌, refl, ◌≢◌, ◌⊎◌,
}
use casuya_live.Js.{num, str, null}
use casuya_live.Vendor.Book.{
  Order, Vendor, orders_of, settlement, publish_settlement, trade_message,
}
use casuya_live.Vendor.Book.Answers.{IsSigned, trade_message-IsSigned, publish_settlement_cases}
use casuya_live.Vendor.Feed.Table.{count_rolls, count_rolls-weight}
use casuya_live.Vendor.Script.{home}
use casuya_live.Vendor.Feed.{ticks, connected}
use casuya_live.Vendor.Feed.Timer.{settlements, ticks-settlements}
use casuya_live.Examples.Toy.{numbers, numbers-SafeIntegers, platform, buffers}

abbrev empty : Vendor (Option ℕ)
empty = record { book = []; order_seq = 0 }

abbrev bet : Order (Option ℕ)
bet = record {
  order_id = "M1";
  market = str "1H_1X2";
  side = str "home";
  odds = num (some 2);
  stake = num (some 10);
  cycle = 1;
  fill_ts = 1000;
}

abbrev one_bet : Vendor (Option ℕ)
one_bet = record { book = ("M1", bet) ∷ []; order_seq = 1 }

trade_message-IsSigned_example :
    ((trade_message numbers platform buffers "key" empty "order" 0 1000).after ≡ empty)
    ⊎ IsSigned numbers platform buffers "key" 0 "order"
trade_message-IsSigned_example =
    trade_message-IsSigned numbers platform buffers "key" 0 empty "order" 1000

publish_settlement_cases_example :
    let done = publish_settlement numbers platform buffers false one_bet 3 null in
    (done.0 ≡ record { book = []; order_seq = 1 })
    × (((one_bet.book ≡ []) × (done.1 ≡ none))
        ⊎ ((one_bet.book ≢ [])
            × (false ≡ true)
            × (done.1 ≡ some (settlement numbers platform buffers 3 null (orders_of one_bet.book))))
        ⊎ ((one_bet.book ≢ []) × (false ≡ false) × (done.1 ≡ none)))
publish_settlement_cases_example =
    publish_settlement_cases numbers platform buffers "key" 0 false one_bet 3 null (refl, tt)

count_rolls-weight_example : count_rolls numbers platform buffers home 100 ≡ 10
count_rolls-weight_example = count_rolls-weight numbers platform buffers numbers-SafeIntegers home

abbrev fifteen : List Bool
fifteen =
    true ∷ true ∷ true ∷ true ∷ true ∷ true ∷ true ∷ true ∷ true ∷ true ∷ true ∷ true ∷ true ∷ true
    ∷ true ∷ []

ticks-settlements_example :
    settlements numbers platform buffers
      (ticks numbers platform buffers (connected numbers platform buffers home 0) fifteen)
    ≡ (2, 1) ∷ []
ticks-settlements_example = ticks-settlements numbers platform buffers home 0 fifteen
