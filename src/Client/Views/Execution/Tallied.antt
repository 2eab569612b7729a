-- ===== src/Client/Views/Execution/Tallied.antt =====
-- The badges of ExecutionPanel.jsx and what the relay adds to the ledger for the same message.
use casuya_live.Common.{ℕ, String, true, false, some, List, ◌≡◌, subst, sym, All}
use casuya_live.Js.{Float, Runtime, Items, items, arr, member, member?-eq}
use casuya_live.Js.Html.{Shows}
use casuya_live.Relay.Bus.{Env, Socket, outcomes_hash, is_ledger_channel, on_message}
use casuya_live.Relay.Bus.Ledger.{added_to, IsObject, on_message-Totals}
use casuya_live.Client.Dashboard.{Pnl}
use casuya_live.Client.Views.Execution.{execution_panel}
use casuya_live.Client.Views.Execution.Badges.{
  won, lost, badge_of, IsShownOrder, IsShownSettlement, execution_panel-Shows,
}

module _ (F : Float) (R : Runtime F) where
  open F use {N}
  open R use {parse}

  -- When a message on a channel of the ledger is a settlement whose orders and score can be shown, the
  -- relay's callback returns, and the panel of that settlement is rendered with as many WON badges as
  -- the callback adds to the `won` of the ledger of outcomes, and as many LOST badges as it adds to
  -- `lost`.
  pub execution_panel-on_message :
      (env : Env) (ss : List Socket) (ch message : String) (now_ms : ℕ) (p : Pnl N) (os : Items N)
      → is_ledger_channel F R env ch ≡ true
      → parse message ≡ some p.last
      → member p.last "settled" ≡ some (arr os)
      → All IsObject (items os)
      → IsShownSettlement F p.last
      → All (IsShownOrder F) (items os)
      → let done = on_message F R env ss ch message now_ms in
        (done.threw ≡ false)
        × Shows
            (badge_of won)
            (execution_panel F (some p))
            (added_to outcomes_hash "won" done.effects)
        × Shows
            (badge_of lost)
            (execution_panel F (some p))
            (added_to outcomes_hash "lost" done.effects)
  execution_panel-on_message env ss ch message now_ms p os ledger read settled objects shown drawn =
      let (returns, wins, losses, net) =
        on_message-Totals F R env ss ch message now_ms p.last os ledger read settled objects in
      let same = member?-eq p.last "settled" settled in
      (
        returns,
        subst (Shows (badge_of won) (execution_panel F (some p))) (sym wins)
            (execution_panel-Shows F won p os shown same drawn),
        subst (Shows (badge_of lost) (execution_panel F (some p))) (sym losses)
            (execution_panel-Shows F lost p os shown same drawn),
      )
