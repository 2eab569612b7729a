-- ===== src/Client/Views/Accuracy.antt =====
-- What web-interface-js/frontend/src/components/ModelAccuracyPanel.jsx renders.
pub mod Plain
pub mod Fresh
pub mod Served
use casuya_live.Common.{
  ℕ, String, Bool, true, false, not, ◌&&◌, Option, none, some, List, [], ◌∷◌, ◌++◌, map, ◌<>◌,
  is_empty, if◌then◌else◌,
}
use casuya_live.Js.{
  Float, Value, null, num, str, arr, nil, cons, Items, items, member, member?, truthy, or_else,
  number_of, string_of, is_text, is_present,
}
use casuya_live.Js.Html.{View, nothing, words, fragment, node, class, view_if, shown, Attributes}
use casuya_live.Client.Drawdown.{amount_of}
use casuya_live.Client.Formats.{at_least, pct}
use casuya_live.Client.Login.{Panel}
use casuya_live.Client.Panels.{no_object}
use casuya_live.Client.Views.Fit.{color, metrics, weights, weight_row}
use casuya_live.Client.Views.Execution.{amount_style}
use casuya_live.Client.Views.Matches.{object_entries}

-- `v === null`
abbrev pub is_null : {N : Type 0} → Value N → Bool
is_null null = true
is_null _ = false

module _ (F : Float) (date_text : Value F.N → String) where
  open F use {N, of_ℕ, sub, mul, floor_div, abs, lt, is_finite, show, to_fixed}

  abbrev pub badge : String → List View → View
  badge c vs = node "span" (class c) vs

  -- `statusBadge`
  abbrev pub status_badge : Value N → View
  status_badge status =
      if is_text status "adopted"
      then badge "badge badge--ok" (words "ADOPTED" ∷ [])
      else if is_text status "refused"
      then badge "badge badge--warn" (words "REFUSED" ∷ [])
      else if is_text status "insufficient"
      then badge "badge badge--danger" (words "INSUFFICIENT" ∷ [])
      else badge "badge badge--warn" (shown F (or_else F status (str "NO FIT")) ∷ [])

  abbrev pub outcomes_card : Value N → View
  outcomes_card outcomes =
      let count : String → View = λ k. shown F (or_else F (member? outcomes k) (num (of_ℕ 0))) in
      node "div" (class "card") (
        node "span" (class "eyebrow") (words "relay outcomes ledger" ∷ [])
        ∷ node "div" (class "mono") (
            node "span" [] (count "won" ∷ [])
            ∷ node "span" [] (words " / " ∷ [])
            ∷ node "span" [] (count "lost" ∷ [])
            ∷ words "  "
            ∷ node "span" [] (
                words "net "
                ∷ words
                    (to_fixed 2 (number_of F (or_else F (member? outcomes "net") (num (of_ℕ 0)))))
                ∷ [])
            ∷ [])
        ∷ [])

  abbrev pub bankroll_card : Value N → View
  bankroll_card pnl =
      let net = member? pnl "net" in
      let cycle = member? pnl "updated_cycle" in
      node "div" (class "card") (
        node "span" (class "eyebrow") (words "session bankroll (pnl:session)" ∷ [])
        ∷ node "div" (class "mono") (
            node "span" (amount_style F net)
              (words (to_fixed 2 (number_of F (or_else F net (num (of_ℕ 0))))) ∷ [])
            ∷ words "  "
            ∷ node "span" []
                (words "cycle " ∷ shown F (if is_present cycle then cycle else str "—") ∷ [])
            ∷ [])
        ∷ [])

  -- `age !== null && age < 60`
  abbrev pub is_hot : Value N → Bool
  is_hot age = not (is_null age) && lt (number_of F age) (of_ℕ 60)

  abbrev pub age_label : Value N → String
  age_label age = if is_null age then "silent" else string_of F age <> "s"

  unfoldable pub channel_row : String × Value N → View
  unfolding node
  channel_row (ch, info) =
      let age = member? info "age_seconds" in
      node "div" [] (
        node "span" (class "mono") (words ch ∷ [])
        ∷ node "span" (class "mono" ++ color (if is_hot age then "var(--go)" else "var(--danger)"))
            (words (age_label age) ∷ [])
        ∷ [])

  abbrev pub channels_in : Value N → List (String × Value N)
  channels_in stats = object_entries (or_else F (member? stats "channels") (no_object F))

  abbrev pub streams_card : Value N → View
  streams_card stats = node "div" (class "card") (
      node "span" (class "eyebrow") (words "stream staleness" ∷ [])
      ∷ node "div" [] (map channel_row (channels_in stats))
      ∷ [])

  abbrev pub ledgers : Value N → View
  ledgers stats = node "div" [] (
      outcomes_card (member? stats "outcomes")
      ∷ bankroll_card (member? stats "pnl")
      ∷ streams_card stats
      ∷ [])

  abbrev pub accuracy_foot : Value N → View
  accuracy_foot generated = node "div" (class "page-foot") (
      node "span" [] (words "calibration:model · relay /api/stats" ∷ [])
      ∷ node "span" (class "mono")
          (words (if truthy F generated then date_text generated else "fit not yet run") ∷ [])
      ∷ [])

  -- The panel below its head; a model that is missing throws.
  unfoldable pub accuracy_body : Option String → Value N → View
  unfolding node pct weight_row channel_row object_entries
  accuracy_body error stats =
      if truthy F stats
      then elim (member (member? stats "model") "train_accuracy") [
        | none ↦ none
        | some rate ↦
            let model = member? stats "model" in
            fragment (
              metrics F model
              ∷ weights F (member? model "weight_names")
              ∷ ledgers stats
              ∷ accuracy_foot (member? model "generated_at")
              ∷ [])
      ]
      else elim error [
        | none ↦ node "div" (class "empty") (words "Loading model stats…" ∷ [])
        | some message ↦ node "div" (class "empty") (
            if is_empty message
            then words "Loading model stats…" ∷ []
            else words "Can't reach relay stats: " ∷ words message ∷ [])
      ]

  abbrev pub fit_age : Value N → String
  fit_age stale =
      let seconds = number_of F stale in
      if is_null stale
      then "no fit timestamp"
      else if lt seconds (of_ℕ 900)
      then string_of F stale <> "s old"
      else "stale " <> (show (floor_div seconds (of_ℕ 60)) <> "m")

  abbrev pub accuracy_head : Value N → View
  accuracy_head stats =
      let model = member? stats "model" in
      let chip =
        node "span" (class "chip") (words (fit_age (member? model "status_age_seconds")) ∷ []) in
      node "div" (class "section-head") (
        node "div" (class "section-title") (
          node "span" (class "badge badge--value") (words "model" ∷ [])
          ∷ node "h2" [] (words "MODEL ACCURACY — CALIBRATION" ∷ [])
          ∷ node "span" (class "section-rule") []
          ∷ [])
        ∷ node "div" [] (
            status_badge (member? model "status")
            ∷ (if truthy F stats then chip else shown F stats)
            ∷ [])
        ∷ [])

  abbrev pub stats_or_null : Option (Value N) → Value N
  stats_or_null none = null
  stats_or_null (some stats) = stats

  -- `ModelAccuracyPanel`
  unfoldable pub accuracy_panel : Panel N → View
  unfolding node accuracy_body
  accuracy_panel p =
      let stats = stats_or_null p.stats in
      node "section" (class "card") (accuracy_head stats ∷ accuracy_body p.error stats ∷ [])
