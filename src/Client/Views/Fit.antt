-- ===== src/Client/Views/Fit.antt =====
-- The metrics and the weights of the fit that ModelAccuracyPanel.jsx of
-- web-interface-js/frontend/src/components renders.
use casuya_live.Common.{String, ◌&&◌, Option, none, some, [], ◌∷◌, ◌++◌, map, ◌<>◌, if◌then◌else◌}
use casuya_live.Js.{
  Float, Value, arr, nil, cons, items, member, member?, truthy, number_of, string_of, is_present,
}
use casuya_live.Js.Html.{View, nothing, words, node, class, shown, Attributes}
use casuya_live.Client.Drawdown.{amount_of}
use casuya_live.Client.Formats.{at_least, pct}

abbrev pub color : String → Attributes
color c = ("style", "color: " <> c) ∷ []

module _ (F : Float) where
  open F use {N, of_ℕ, sub, mul, abs, lt, is_finite, show, to_fixed}

  abbrev pub accent_style : Option String → Attributes
  accent_style none = []
  accent_style (some c) = color c

  abbrev pub hint_line : Option String → View
  hint_line none = nothing
  hint_line (some hint) = node "div" [] (words hint ∷ [])

  -- `Metric`
  abbrev pub metric : String → String → Option String → Option String → View
  metric label value accent hint = node "div" (class "card") (
      node "span" (class "eyebrow") (words label ∷ [])
      ∷ node "div" (class "mono" ++ accent_style accent) (words value ∷ [])
      ∷ hint_line hint
      ∷ [])

  abbrev pub three_places : Value N → String
  three_places v = if is_finite (number_of F v) then to_fixed 3 (number_of F v) else "—"

  -- `${v ?? "—"}`
  abbrev pub present_text : Value N → String
  present_text v = if is_present v then string_of F v else "—"

  abbrev pub loss_metric : Value N → Value N → View
  loss_metric fitted baseline =
      let a = number_of F fitted in
      let b = number_of F baseline in
      metric "logloss vs baseline"
        (if is_finite a && is_finite b then to_fixed 3 a <> (" / " <> to_fixed 3 b) else "—")
        (some (if lt a b then "var(--go)" else "var(--danger)"))
        (some (if lt a b then "beats baseline" else "warning"))

  abbrev pub l2_hint : Value N → Option String
  l2_hint l2 = if truthy F l2 then some ("l2 " <> string_of F l2) else none

  abbrev pub metrics : Value N → View
  metrics model = node "div" [] (
      metric "train accuracy" (pct F (member? model "train_accuracy")) (some "var(--accent)") none
      ∷ metric "validation accuracy" (pct F (member? model "val_accuracy")) (some "var(--go)") none
      ∷ metric "validation AUC" (three_places (member? model "val_auc")) none none
      ∷ loss_metric (member? model "model_logloss") (member? model "baseline_logloss")
      ∷ metric "train / val rows"
          (present_text (member? model "train_rows")
            <> (" / " <> present_text (member? model "val_rows")))
          none (l2_hint (member? model "l2"))
      ∷ metric "bias" (three_places (member? model "bias")) none none
      ∷ [])

  -- `Math.min(100, Math.abs(w) * 140)` of a number.
  abbrev pub bar_width : N → N
  bar_width w = let x = mul (abs w) (of_ℕ 140) in if lt x (of_ℕ 100) then x else of_ℕ 100

  abbrev pub bar_style : N → String
  bar_style w =
      let width = bar_width w in
      let pos = at_least F w (of_ℕ 0) in
      "left: "
      <> ((if pos then "50%" else show (sub (of_ℕ 50) width) <> "%")
          <> ("; width: "
              <> (show width
                  <> ("%; background: " <> (if pos then "var(--go)" else "var(--danger)")))))

  -- One weight; what is null cannot be taken apart, and throws.
  unfoldable pub weight_row : Value N → View
  unfolding node
  weight_row e = elim (member e "weight") [
    | none ↦ none
    | some weight ↦
        let w = amount_of F weight in
        node "div" [] (
          node "span" (class "eyebrow") (shown F (member? e "name") ∷ [])
          ∷ node "div" [] (node "div" (("style", bar_style w) ∷ []) [] ∷ [])
          ∷ node "span" (class "mono") (words (to_fixed 2 w) ∷ [])
          ∷ [])
  ]

  -- `Array.isArray(…) && ….length > 0 && …`
  abbrev pub weights : Value N → View
  weights (arr nil) = nothing
  weights (arr (cons e es)) = node "div" (class "card") (
      node "span" (class "eyebrow") (words "fitted feature weights" ∷ [])
      ∷ node "div" [] (map weight_row (e ∷ items es))
      ∷ [])
  weights v = nothing
