-- ===== src/Examples/PanelRuns.antt =====
-- The accuracy panel on what the relay answers of a concrete store.
use casuya_live.Common.{ℕ, String, Option, none, some, [], ◌∷◌, refl, ◌===◌, if◌then◌else◌}
use casuya_live.Js.{Value, str}
use casuya_live.Js.Html.{Shows}
use casuya_live.Relay.Http.Stats.{Hash, Replies}
use casuya_live.Client.Views.Accuracy.{accuracy_panel}
use casuya_live.Client.Views.Accuracy.Plain.{green_age}
use casuya_live.Client.Views.Accuracy.Served.{served, accuracy_panel-served}
use casuya_live.Examples.Toy.{numbers, platform}

abbrev heard : Hash
heard ch = if ch === "matches:live" then some "7" else none

abbrev no_fields : Hash
no_fields k = none

abbrev store : Replies
store = record {
  model = no_fields;
  heartbeat = none;
  pnl = no_fields;
  outcomes = no_fields;
  staleness = heard;
}

abbrev date_text : Value (Option ℕ) → String
date_text v = "today"

accuracy_panel-served_example :
    Shows green_age
      (accuracy_panel numbers date_text (record {
        stats = some (
            served numbers platform date_text
              ("matches:live" ∷ "execution:pnl" ∷ [])
              store
              9000
              (str "drift" ∷ [])
              (some 3 ∷ []));
        error = none;
      }))
      1
accuracy_panel-served_example =
    accuracy_panel-served numbers platform date_text ("matches:live" ∷ "execution:pnl" ∷ []) store
      9000 (str "drift" ∷ []) (some 3 ∷ []) none ((refl, tt), (tt, tt)) (refl, tt)
