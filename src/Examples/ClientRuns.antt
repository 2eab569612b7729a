-- ===== src/Examples/ClientRuns.antt =====
-- The hooks on concrete messages and lost connections.
use casuya_live.Common.{true, String, false, List, [], ◌∷◌, ◌≡◌, refl, take}
use casuya_live.Js.{truthy}
use casuya_live.Client.Recent.{latest}
use casuya_live.Client.Link.{
  Link, connect, mount, on_close, on_timer, Reach, here, next, closes, fires, IsSound,
  Reach-IsSound,
}
use casuya_live.Client.Dashboard.{same_match, has_match, dashboard_after, console_after}
use casuya_live.Client.Dashboard.Window.{
  payloads, pnl_of, dashboard_after-windows, console_after-windows,
}
use casuya_live.Examples.Toy.{numbers, numbers-EqLaws, platform}

abbrev texts : List String
texts = "later" ∷ "pnl" ∷ "live" ∷ "bet" ∷ "no JSON" ∷ []

dashboard_after-windows_example :
    let d = dashboard_after numbers platform texts in
    (d.matches
      ≡ take 40 (
          latest
            (same_match numbers platform)
            (payloads numbers platform "matches:live" (has_match numbers platform) texts)))
    × (d.diagnostics
        ≡ take 60
            (payloads numbers platform "diagnostics:events" (has_match numbers platform) texts))
    × (d.pnl
        ≡ pnl_of numbers platform
            (payloads numbers platform "execution:pnl" (truthy numbers) texts))
dashboard_after-windows_example = dashboard_after-windows numbers platform numbers-EqLaws texts

console_after-windows_example :
    let c = console_after numbers platform texts in
    (c.pnl
      ≡ pnl_of numbers platform (payloads numbers platform "execution:pnl" (truthy numbers) texts))
    × (c.diagnostics
        ≡ take 60
            (payloads numbers platform "diagnostics:events" (has_match numbers platform) texts))
    × (c.commands ≡ take 60 (payloads numbers platform "execution:commands" (truthy numbers) texts))
console_after-windows_example = console_after-windows numbers platform texts

-- A socket that is lost and opened again.
abbrev again : Link
again = on_timer true (on_close (mount true false 0))

reconnected : Reach true (mount true false 0) again
unfolding mount connect on_close
reconnected = next (next here (closes refl)) (fires 1000 refl)

Reach-IsSound_example : IsSound true again
Reach-IsSound_example = Reach-IsSound true false 0 reconnected
