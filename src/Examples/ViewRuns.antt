-- ===== src/Examples/ViewRuns.antt =====
-- What the components render of concrete data.
use casuya_live.Common.{
  ℕ, ◌⊎◌, inl, String, true, false, Option, none, some, [], ◌∷◌, ◌≡◌, refl, inr,
}
use casuya_live.Js.{
  array, items_of, string_of, Value, null, num, str, object, member, member?, truthy, or_else,
  number_of,
}
use casuya_live.Js.Html.{is_plain, Shows}
use casuya_live.Client.Panels.{
  Colour, price_up, presence, favourite_of, favourite_in, best_of, has_value, value_in,
  object_values,
}
use casuya_live.Client.Views.Matches.{Locale, object_entries, live_bets_grid}
use casuya_live.Client.Views.Matches.Cards.{value_badge, IsCard, live_bets_grid-Shows}
use casuya_live.Client.Views.Matches.Blank.{away, live_bets_grid_throws}
use casuya_live.Client.Views.Tickets.{placement_of, signal_grid}
use casuya_live.Client.Views.Tickets.Buttons.{button, is_str, IsTicket, signal_grid-Shows}
use casuya_live.Relay.Bus.{Env, outcomes_hash, is_ledger_channel, on_message}
use casuya_live.Relay.Bus.Ledger.{added_to}
use casuya_live.Client.Dashboard.{Pnl}
use casuya_live.Client.Views.Execution.{execution_panel}
use casuya_live.Client.Views.Execution.Badges.{won, lost, badge_of}
use casuya_live.Client.Views.Execution.Tallied.{execution_panel-on_message}
use casuya_live.Client.Views.Profit.{pnl_tracker}
use casuya_live.Client.Views.Profit.Rows.{row, IsRow, pnl_tracker-Shows}
use casuya_live.Client.Views.Logs.{diagnostics_log}
use casuya_live.Client.Views.Logs.Audits.{danger_badge, IsAudit, diagnostics_log-Shows}
use casuya_live.Examples.Toy.{numbers, platform, settlement_message, won_order, lost_order}

abbrev clock_hall : Locale numbers
clock_hall = record { hour_minute = λ n. "15:00"; time_text = λ v. "15:00:00" }

abbrev no_flash : Value (Option ℕ) → String → String → Option (Colour numbers)
no_flash m id side = some price_up

abbrev odds_of : Value (Option ℕ) → Value (Option ℕ)
odds_of price = object (("home", num (some 2)) ∷ ("draw", num none) ∷ ("away", price) ∷ [])

abbrev market_of : Value (Option ℕ) → Value (Option ℕ)
market_of price = object (("odds", odds_of price) ∷ [])

abbrev derby : Value (Option ℕ) → Value (Option ℕ)
derby price = object (
    ("home_team", str "A")
    ∷ ("away_team", str "B")
    ∷ ("kickoff", num (some 9))
    ∷ ("markets", object (("1H_1X2", market_of price) ∷ []))
    ∷ [])

derby-IsCard : IsCard numbers clock_hall (derby (num (some 6))) true
unfolding favourite_of favourite_in best_of has_value value_in object_values object_entries presence
    truthy or_else number_of member member?
derby-IsCard = record {
  markets = object (("1H_1X2", market_of (num (some 6))) ∷ []);
  present = refl;
  fav = "home";
  leads = refl;
  has = refl;
  drawn = ((odds_of (num (some 6)), refl, inr refl, inr refl, inr refl), tt);
  league = refl;
  clock = refl;
  home_team = refl;
  away_team = refl;
  sport = refl;
}

live_bets_grid-Shows_example :
    Shows value_badge
      (live_bets_grid numbers clock_hall no_flash (derby (num (some 6)) ∷ []) null)
      1
unfolding member?
live_bets_grid-Shows_example =
    live_bets_grid-Shows numbers clock_hall no_flash (derby (num (some 6)) ∷ []) (true ∷ []) null
      (derby-IsCard, tt) refl

live_bets_grid_throws_example :
    live_bets_grid numbers clock_hall no_flash
      (derby (num (some 6)) ∷ derby (str "7") ∷ derby (num (some 6)) ∷ [])
      null
    ≡ none
unfolding object_entries truthy or_else presence number_of member member?
live_bets_grid_throws_example =
    live_bets_grid_throws numbers clock_hall no_flash (derby (num (some 6)) ∷ [])
      (derby (num (some 6)) ∷ []) (derby (str "7")) null "1H_1X2" (market_of (str "7"))
      (odds_of (str "7")) away (some 7) [] [] refl refl refl refl

abbrev tip : String → Value (Option ℕ)
tip id = object (("order_id", str id) ∷ ("odds", num (some 6)) ∷ ("market_label", str "1X2") ∷ [])

abbrev placed_tips : Value (Option ℕ)
placed_tips = object (("M1", object (("status", str "placed") ∷ [])) ∷ [])

abbrev shout : String → String
shout s = s

tip-IsTicket :
    (id : String)
    → (truthy numbers (placement_of numbers shout 0 placed_tips (tip id)) ≡ false)
      ⊎ ((is_str numbers shout 0
              (member? (placement_of numbers shout 0 placed_tips (tip id)) "status")
            ≡ true)
          × (is_plain (member? (placement_of numbers shout 0 placed_tips (tip id)) "book") ≡ true))
    → IsTicket numbers shout 0 placed_tips (tip id)
unfolding member member?
tip-IsTicket id placed = record {
  id = str id;
  present = refl;
  order_id = refl;
  league = refl;
  match_id = refl;
  market_label = refl;
  placed = placed;
}

signal_grid-Shows_example :
    Shows button
      (signal_grid numbers shout 0 (tip "M1" ∷ tip "M2" ∷ []) null true placed_tips (λ s. false))
      1
unfolding member member? truthy string_of
signal_grid-Shows_example =
    signal_grid-Shows numbers shout 0 (tip "M1" ∷ tip "M2" ∷ []) null true placed_tips (λ s. false)
      (tip-IsTicket "M1" (inr (refl, refl)), (tip-IsTicket "M2" (inl refl), tt))

abbrev settled_cycle : Pnl (Option ℕ)
settled_cycle = record { last = settlement_message; history = [] }

abbrev env : Env
env = record {
  ws_matches_channel = none;
  ws_diag_channel = none;
  ws_pnl_channel = none;
  ws_commands_channel = none;
  ws_extra_channels = none;
}

execution_panel-on_message_example :
    let done = on_message numbers platform env [] "execution:pnl" "settled" 5000 in
    (done.threw ≡ false)
    × Shows
        (badge_of won)
        (execution_panel numbers (some settled_cycle))
        (added_to outcomes_hash "won" done.effects)
    × Shows
        (badge_of lost)
        (execution_panel numbers (some settled_cycle))
        (added_to outcomes_hash "lost" done.effects)
unfolding is_ledger_channel member member? truthy
execution_panel-on_message_example =
    execution_panel-on_message numbers platform env [] "execution:pnl" "settled" 5000 settled_cycle
      (items_of (won_order ∷ lost_order ∷ [])) refl refl refl ((_, refl), ((_, refl), tt))
      (record {
        there = refl;
        match_id = refl;
        home = refl;
        away = refl;
        wins = refl;
        losses = refl;
      })
      (
        record { id = str "M1"; present = refl; market = refl; side = refl },
        (record { id = str "M2"; present = refl; market = refl; side = refl }, tt),
      )

abbrev entry : Value (Option ℕ)
entry = object (("id", str "1") ∷ ("match_id", str "epl") ∷ ("pnl", num (some 5)) ∷ [])

entry-IsRow : IsRow numbers 0 entry
unfolding member member?
entry-IsRow = record { id = str "1"; present = refl; match_id = refl; market = refl; side = refl }

pnl_tracker-Shows_example :
    Shows row (pnl_tracker numbers 0 null (array (entry ∷ entry ∷ [])) true) 3
pnl_tracker-Shows_example =
    pnl_tracker-Shows numbers 0 null (items_of (entry ∷ entry ∷ [])) true
      (entry-IsRow, (entry-IsRow, tt))

abbrev audit : Value (Option ℕ) → Value (Option ℕ)
audit drift = object (
    ("drift_score", drift)
    ∷ ("match_id", str "epl")
    ∷ ("recommendations", array (str "slow" ∷ []))
    ∷ [])

audit-IsAudit : (drift : Value (Option ℕ)) → IsAudit numbers (audit drift)
unfolding member member?
audit-IsAudit drift = record {
  drift = drift;
  present = refl;
  match_id = refl;
  home = refl;
  away = refl;
  predicted = refl;
  listed = items_of (str "slow" ∷ []);
  found = refl;
  shown_listed = (refl, tt);
}

diagnostics_log-Shows_example :
    Shows danger_badge (diagnostics_log numbers (audit (num (some 1000)) ∷ audit (num none) ∷ [])) 2
unfolding member member? number_of
diagnostics_log-Shows_example =
    diagnostics_log-Shows numbers (audit (num (some 1000)) ∷ audit (num none) ∷ [])
      (audit-IsAudit (num (some 1000)), (audit-IsAudit (num none), tt))
