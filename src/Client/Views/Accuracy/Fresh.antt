-- ===== src/Client/Views/Accuracy/Fresh.antt =====
-- The streams that ModelAccuracyPanel.jsx shows as fresh.
use casuya_live.Common.{
  ℕ, ◌+◌, String, Bool, true, false, Option, some, List, [], ◌∷◌, ◌++◌, map, ◌≡◌, refl, arith,
  if◌then◌else◌,
}
use casuya_live.Js.{Float, Value, member?}
use casuya_live.Js.Html.{
  words, fragment, node, class, Shows, cons-Shows, nil-Shows, node-Shows, Shows-eq, node-AllShow,
  words-Shows, free_rules, fragment-Shows,
}
use casuya_live.Relay.Bus.Ledger.{by_if}
use casuya_live.Client.Views.Fit.{color, metrics, weights}
use casuya_live.Client.Views.Accuracy.{
  outcomes_card, bankroll_card, is_hot, age_label, channel_row, channels_in, streams_card, ledgers,
  accuracy_foot, accuracy_body, accuracy_head, accuracy_panel,
}
use casuya_live.Client.Views.Accuracy.Plain.{
  green_age, IsShownStats, weights-IsFree, metrics-IsFree, outcomes-IsFree, bankroll-IsFree,
  foot-IsFree, head-IsFree,
}

module _ (F : Float) (date_text : Value F.N → String) where
  open F use {N}

  abbrev pub fresh_channels : List (String × Value N) → ℕ
  fresh_channels [] = 0
  fresh_channels ((ch, info) ∷ rest) =
      by_if (is_hot F date_text (member? info "age_seconds")) 1 + fresh_channels rest

  channel_row-Shows :
      (ch : String) (info : Value N)
      → Shows green_age
          (channel_row F date_text (ch, info))
          (by_if (is_hot F date_text (member? info "age_seconds")) 1)
  unfolding channel_row
  channel_row-Shows ch info =
      let age = member? info "age_seconds" in
      let n = by_if (is_hot F date_text age) 1 in
      let name = node "span" (class "mono") (words ch ∷ []) in
      let style =
        class "mono" ++ color (if is_hot F date_text age then "var(--go)" else "var(--danger)") in
      let label = node "span" style (words (age_label F date_text age) ∷ []) in
      let aged : Shows green_age label n =
        node-AllShow green_age "span" style (words (age_label F date_text age) ∷ []) (0 ∷ [])
          (words-Shows green_age (age_label F date_text age), tt)
          (coloured (is_hot F date_text age)) in
      node-AllShow green_age "div" [] (name ∷ label ∷ []) (0 ∷ n ∷ [])
        (search free_rules depth 8, (aged, tt)) (omega arith)
    where
      coloured :
          (b : Bool)
          → (if green_age "span"
                  (class "mono" ++ color (if b then "var(--go)" else "var(--danger)"))
                then 1
                else 0)
              + (0 + 0)
            ≡ by_if b 1
      coloured true = refl
      coloured false = refl

  channel_rows-Shows :
      (cs : List (String × Value N))
      → Shows green_age (fragment (map (channel_row F date_text) cs)) (fresh_channels cs)
  channel_rows-Shows [] = nil-Shows green_age
  channel_rows-Shows ((ch, info) ∷ cs) =
      cons-Shows green_age (channel_row F date_text (ch, info)) (map (channel_row F date_text) cs)
        (channel_row-Shows ch info) (channel_rows-Shows cs)

  streams_card-Shows :
      (stats : Value N)
      → Shows green_age
          (streams_card F date_text stats)
          (fresh_channels (channels_in F date_text stats))
  streams_card-Shows stats =
      let cs = channels_in F date_text stats in
      let n = fresh_channels cs in
      let title = node "span" (class "eyebrow") (words "stream staleness" ∷ []) in
      let rows : Shows green_age (node "div" [] (map (channel_row F date_text) cs)) n =
        Shows-eq green_age (omega arith) (
          node-Shows green_age "div" [] (map (channel_row F date_text) cs)
            (channel_rows-Shows cs)) in
      node-AllShow green_age "div" (class "card")
        (title ∷ node "div" [] (map (channel_row F date_text) cs) ∷ []) (0 ∷ n ∷ [])
        (search free_rules depth 8, (rows, tt)) (omega arith)

  ledgers-Shows :
      (stats : Value N)
      → IsShownStats F date_text stats
      → Shows green_age (ledgers F date_text stats) (fresh_channels (channels_in F date_text stats))
  ledgers-Shows stats c =
      let n = fresh_channels (channels_in F date_text stats) in
      node-AllShow green_age "div" []
        (outcomes_card F date_text (member? stats "outcomes")
          ∷ bankroll_card F date_text (member? stats "pnl")
          ∷ streams_card F date_text stats
          ∷ [])
        (0 ∷ 0 ∷ n ∷ [])
        (
          outcomes-IsFree F date_text (member? stats "outcomes") c.wins c.losses,
          (
            bankroll-IsFree F date_text (member? stats "pnl") c.cycle,
            (streams_card-Shows stats, tt),
          ),
        )
        (omega arith)

  body-Shows :
      (error : Option String) (stats : Value N)
      → IsShownStats F date_text stats
      → Shows green_age
          (accuracy_body F date_text error stats)
          (fresh_channels (channels_in F date_text stats))
  unfolding accuracy_body
  body-Shows error stats c =
      let n = fresh_channels (channels_in F date_text stats) in
      let model = member? stats "model" in
      rw (accuracy_body, c.there, c.fit.present)
        (Shows-eq green_age (omega arith) (
          fragment-Shows green_age
            (metrics F model
              ∷ weights F (member? model "weight_names")
              ∷ ledgers F date_text stats
              ∷ accuracy_foot F date_text (member? model "generated_at")
              ∷ [])
            (0 ∷ 0 ∷ n ∷ 0 ∷ [])
            (
              metrics-IsFree F date_text model,
              (
                weights-IsFree F date_text (member? model "weight_names") c.fit.weighed,
                (
                  ledgers-Shows stats c,
                  (foot-IsFree F date_text (member? model "generated_at"), tt),
                ),
              ),
            )))

  -- The panel of statistics that can be shown is rendered, whatever the error of a later poll; it has
  -- as many green ages as there are channels last heard less than a minute ago.
  pub accuracy_panel-Shows :
      (stats : Value N) (error : Option String)
      → IsShownStats F date_text stats
      → Shows green_age
          (accuracy_panel F date_text (record { stats = some stats; error = error }))
          (fresh_channels (channels_in F date_text stats))
  unfolding accuracy_panel
  accuracy_panel-Shows stats error c =
      let n = fresh_channels (channels_in F date_text stats) in
      node-AllShow green_age "section" (class "card")
        (accuracy_head F date_text stats ∷ accuracy_body F date_text error stats ∷ []) (0 ∷ n ∷ [])
        (head-IsFree F date_text stats c, (body-Shows error stats c, tt)) (omega arith)
