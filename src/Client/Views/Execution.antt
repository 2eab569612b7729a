-- ===== src/Client/Views/Execution.antt =====
-- What web-interface-js/frontend/src/components/ExecutionPanel.jsx renders.
pub mod Badges
pub mod Tallied
use casuya_live.Common.{
  ℕ, String, Bool, true, false, not, Option, none, some, List, [], ◌∷◌, ◌++◌, map, ◌<>◌, ◌==◌,
  decimal, length, if◌then◌else◌,
}
use casuya_live.Js.{
  Float, Value, null, num, str, arr, items, member, member?, or_else, truthy, string_of, number_of,
  is_text, is_present,
}
use casuya_live.Js.Html.{View, nothing, words, fragment, node, class, view_if, shown, Attributes}
use casuya_live.Client.Dashboard.{Pnl, history_of}
use casuya_live.Client.Formats.{signed, at_least}

-- `ResultBadge` of ExecutionPanel.jsx
abbrev pub result_badge : {N : Type 0} → Value N → View
result_badge result =
    if is_text result "won"
    then node "span" (class "badge badge--ok") (words "WON" ∷ [])
    else if is_text result "lost"
    then node "span" (class "badge badge--danger") (words "LOST" ∷ [])
    else node "span" (class "badge badge--warn") (words "VOID" ∷ [])

module _ (F : Float) where
  open F use {N, of_ℕ, to_fixed}

  -- The colour of an amount.
  abbrev pub amount_style : Value N → Attributes
  amount_style v =
      (
        "style",
        if at_least F (number_of F v) (of_ℕ 0) then "color: var(--go)" else "color: var(--danger)",
      )
      ∷ []

  -- `v ?? "–"`
  abbrev pub or_rule : Value N → Value N
  or_rule v = if is_present v then v else str "–"

  -- `(last.settled || []).map` calls: only an array has `map`.
  abbrev pub settled_in : Value N → Option (List (Value N))
  settled_in (arr os) = some (items os)
  settled_in v = if truthy F v then none else some []

  -- `last.settled?.length === 0`, where the orders could be told.
  abbrev pub says_none : Value N → List (Value N) → Bool
  says_none (arr os) orders = length orders == 0
  says_none (str s) orders = true
  says_none v orders = false

  abbrev pub order_names : Value N → View
  order_names o = node "div" [] (
      node "span" (class "eyebrow")
        (shown F (member? o "market") ∷ words " · " ∷ shown F (member? o "side") ∷ [])
      ∷ node "span" (class "mono") (
          words "@"
          ∷ words (to_fixed 2 (number_of F (member? o "odds")))
          ∷ words " · stake "
          ∷ words (to_fixed 2 (number_of F (member? o "stake")))
          ∷ [])
      ∷ [])

  abbrev pub order_amount : Value N → View
  order_amount o =
      node "span" (class "mono" ++ amount_style (member? o "pnl"))
        (words (signed F (member? o "pnl") 2) ∷ [])

  abbrev pub order_result : Value N → View
  order_result o = node "div" [] (result_badge (member? o "result") ∷ order_amount o ∷ [])

  -- An order that is null throws.
  unfoldable pub order_card : Value N → View
  unfolding node signed
  order_card o = elim (member o "order_id") [
    | none ↦ none
    | some id ↦
        node "div" (class "card card--lift")
          (node "div" [] (order_names o ∷ order_result o ∷ []) ∷ [])
  ]

  abbrev pub panel_head : Value N → View
  panel_head last = node "div" (class "section-head") (
      node "div" (class "section-title") (
        node "span" (class "badge badge--value") (words "exec" ∷ [])
        ∷ node "h2" [] (words "EXECUTION — REALISED P&L" ∷ [])
        ∷ node "span" (class "section-rule") []
        ∷ [])
      ∷ node "span" (class "chip") (
          words (
            if truthy F last
            then "cycle " <> string_of F (member? last "cycle")
            else "awaiting settlement")
          ∷ [])
      ∷ [])

  abbrev if_session : Value N → Value N → Value N → Value N
  if_session session v d = if truthy F session then v else d

  abbrev pub session_tiles : Value N → ℕ → View
  session_tiles session orders = node "div" [] (
      node "div" (class "card") (
        node "span" (class "eyebrow") (words "session net" ∷ [])
        ∷ node "div" (class "mono" ++ amount_style (member? session "net"))
            (words (if truthy F session then signed F (member? session "net") 2 else "—") ∷ [])
        ∷ [])
      ∷ node "div" (class "card") (
          node "span" (class "eyebrow") (words "won / lost" ∷ [])
          ∷ node "div" (class "mono") (
              node "span" []
                (shown F (if_session session (member? session "won") (num (of_ℕ 0))) ∷ [])
              ∷ node "span" [] (words " / " ∷ [])
              ∷ node "span" []
                  (shown F (if_session session (member? session "lost") (num (of_ℕ 0))) ∷ [])
              ∷ [])
          ∷ [])
      ∷ node "div" (class "card") (
          node "span" (class "eyebrow") (words "this cycle" ∷ [])
          ∷ node "div" (class "mono") (
              node "span" [] (words (decimal orders) ∷ [])
              ∷ node "span" [] (words " orders" ∷ [])
              ∷ [])
          ∷ [])
      ∷ [])

  abbrev pub match_line : Value N → Bool → View
  match_line last none_settled =
      let score = member? last "final_score" in
      node "div" [] (
        node "span" (class "eyebrow") (shown F (member? last "match_id") ∷ [])
        ∷ node "span" (class "chip mono") (
            words "final "
            ∷ shown F (or_rule (member? score "home"))
            ∷ words "–"
            ∷ shown F (or_rule (member? score "away"))
            ∷ [])
        ∷ view_if none_settled (node "span" (class "chip") (words "no orders in cycle" ∷ []))
        ∷ [])

  abbrev pub panel_foot : ℕ → View
  panel_foot settlements = node "div" (class "page-foot") (
      node "span" [] (words "pnl:session · redis hash" ∷ [])
      ∷ node "span" (class "mono") (words (decimal settlements) ∷ words " settlement(s)" ∷ [])
      ∷ [])

  abbrev pub settled_body : Value N → List (Value N) → ℕ → View
  settled_body last orders settlements = fragment (
      session_tiles (member? last "session") (length orders)
      ∷ match_line last (says_none (member? last "settled") orders)
      ∷ node "div" (class "card-grid") (map order_card orders)
      ∷ panel_foot settlements
      ∷ [])

  abbrev pub panel_body : Value N → ℕ → View
  panel_body last settlements =
      if not (truthy F last)
      then node "div" (class "empty")
          (words "No settled orders yet — waits for the first FULLTIME settlement." ∷ [])
      else elim (settled_in (member? last "settled")) [
        | none ↦ none
        | some orders ↦ settled_body last orders settlements
      ]

  -- `pnl?.last || null`
  abbrev pub last_of : Option (Pnl N) → Value N
  last_of none = null
  last_of (some p) = or_else F p.last null

  -- `ExecutionPanel`
  unfoldable pub execution_panel : Option (Pnl N) → View
  unfolding node fragment order_card
  execution_panel pnl =
      node "section" (class "card")
        (panel_head (last_of pnl) ∷ panel_body (last_of pnl) (length (history_of pnl)) ∷ [])
