-- ===== src/Client/Views/Profit.antt =====
-- What web-interface-js/frontend/src/components/PnLTracker.jsx renders.
pub mod Rows
use casuya_live.Common.{
  ℕ, String, Bool, true, false, not, ◌&&◌, Option, none, some, List, [], ◌∷◌, ◌++◌, map, take, ◌<>◌,
  ◌==◌, decimal, length, if◌then◌else◌,
}
use casuya_live.Js.{Float, Value, num, arr, items, member, member?, truthy, number_of, is_text}
use casuya_live.Js.Html.{View, nothing, words, fragment, node, class, shown, Attributes}
use casuya_live.Client.Drawdown.{amount_of, max_drawdown}
use casuya_live.Client.Formats.{signed, at_least, score_or_dash, time_ago}
use casuya_live.Client.Views.Execution.{amount_style}

-- `ResultBadge` of PnLTracker.jsx
abbrev pub ledger_badge : {N : Type 0} → Value N → View
ledger_badge result =
    if is_text result "won"
    then node "span" (class "badge badge--ok") (words "WON" ∷ [])
    else if is_text result "lost"
    then node "span" (class "badge badge--danger") (words "LOST" ∷ [])
    else if is_text result "unresolved"
    then node "span" (class "badge badge--warn") (words "UNRESOLVED" ∷ [])
    else node "span" (class "badge badge--warn") (words "VOID" ∷ [])

module _ (F : Float) (now_ms : ℕ) where
  open F use {N, of_ℕ, add, div, mul, round, lt, is_finite, show, to_fixed}

  abbrev pub cell : Attributes → List View → View
  cell attributes vs = node "td" attributes vs

  abbrev pub row_cells : Value N → List View
  row_cells e =
      cell [] (words (time_ago F (member? e "settled_at") now_ms) ∷ [])
      ∷ cell (class "mono") (shown F (member? e "match_id") ∷ [])
      ∷ cell [] (shown F (member? e "market") ∷ words " " ∷ shown F (member? e "side") ∷ [])
      ∷ cell (class "mono") (words (to_fixed 2 (number_of F (member? e "odds"))) ∷ [])
      ∷ cell (class "mono") (words (to_fixed 2 (number_of F (member? e "stake"))) ∷ [])
      ∷ cell (class "mono") (
          shown F (score_or_dash F (member? e "score_home"))
          ∷ words "–"
          ∷ shown F (score_or_dash F (member? e "score_away"))
          ∷ [])
      ∷ cell [] (ledger_badge (member? e "result") ∷ [])
      ∷ cell (class "mono" ++ amount_style F (member? e "pnl"))
          (words (signed F (member? e "pnl") 2) ∷ [])
      ∷ []

  -- A row of the ledger; an entry that is null throws.
  unfoldable pub ledger_row : Value N → View
  unfolding node time_ago score_or_dash signed
  ledger_row e = elim (member e "id") [ none ↦ none | some id ↦ node "tr" [] (row_cells e) ]

  abbrev pub heading : String → View
  heading s = node "th" [] (words s ∷ [])

  abbrev pub table_head : View
  table_head = node "thead" [] (
      node "tr" [] (
        heading "when"
        ∷ heading "match"
        ∷ heading "market"
        ∷ heading "odds"
        ∷ heading "stake"
        ∷ heading "final"
        ∷ heading "result"
        ∷ heading "pnl"
        ∷ [])
      ∷ [])

  abbrev pub ledger_table : Bool → List (Value N) → View
  ledger_table loading [] = node "div" (class "empty") (
      words (
        if loading
        then "Loading settled trades…"
        else "No settled paper trades yet — waits for the next FULLTIME grade.")
      ∷ [])
  ledger_table loading (e ∷ es) =
      node "div" [] (
        node "table" [] (table_head ∷ node "tbody" [] (map ledger_row (take 30 (e ∷ es))) ∷ [])
        ∷ [])

  abbrev pub tile : String → List View → View
  tile title vs = node "div" (class "card") (node "span" (class "eyebrow") (words title ∷ []) ∷ vs)

  -- `won + lost > 0 ? Math.round((won / (won + lost)) * 10000) / 100 : 0`, which is shown only there.
  abbrev pub win_rate : N → N → String
  win_rate won lost =
      if lt (of_ℕ 0) (add won lost)
      then to_fixed 1 (div (round (mul (div won (add won lost)) (of_ℕ 10000))) (of_ℕ 100)) <> "%"
      else "—"

  abbrev pub bets_tile : N → N → N → View
  bets_tile won lost voids = tile "total paper bets" (
      node "div" (class "mono") (words (show (add (add won lost) voids)) ∷ [])
      ∷ node "div" [] (
          words (show won)
          ∷ words " won · "
          ∷ words (show lost)
          ∷ words " lost · "
          ∷ words (show voids)
          ∷ words " void"
          ∷ [])
      ∷ [])

  abbrev pub net_tile : N → View
  net_tile net = tile "net profit (TZS)" (
      node "div" (class "mono" ++ amount_style F (num net))
        (words (if is_finite net then signed F (num net) 2 else "—") ∷ [])
      ∷ [])

  abbrev pub drawdown_tile : N → Bool → ℕ → View
  drawdown_tile dd loading n =
      let deep = lt (of_ℕ 0) dd in
      tile "max drawdown" (
        node "div"
          (class "mono"
            ++ ("style", if deep then "color: var(--danger)" else "color: var(--go)") ∷ [])
          (words (if loading && n == 0 then "—" else (if deep then "-" else "") <> to_fixed 2 dd)
            ∷ [])
        ∷ node "div" [] (words "window " ∷ words (decimal n) ∷ words " settled" ∷ [])
        ∷ [])

  abbrev pub tiles : Value N → N → Bool → ℕ → View
  tiles pnl dd loading n =
      let won = amount_of F (member? pnl "won") in
      let lost = amount_of F (member? pnl "lost") in
      node "div" [] (
        bets_tile won lost (amount_of F (member? pnl "voids"))
        ∷ tile "win rate" (node "div" (class "mono") (words (win_rate won lost) ∷ []) ∷ [])
        ∷ net_tile (number_of F (member? pnl "net"))
        ∷ drawdown_tile dd loading n
        ∷ [])

  abbrev pub tracker_head : Value N → View
  tracker_head pnl =
      let won = amount_of F (member? pnl "won") in
      let lost = amount_of F (member? pnl "lost") in
      let total = add (add won lost) (amount_of F (member? pnl "voids")) in
      node "div" (class "section-head") (
        node "div" (class "section-title") (
          node "span" (class "badge badge--value") (words "zone b" ∷ [])
          ∷ node "h2" [] (words "REAL-TIME P&L TRACKER" ∷ [])
          ∷ node "span" (class "section-rule") []
          ∷ [])
        ∷ node "span" (class "chip") (words (show total) ∷ words " paper bets" ∷ [])
        ∷ [])

  abbrev pub tracker_foot : View
  tracker_foot = node "footer" (class "page-foot") (
      node "span" [] (words "engine /api/v1/analytics · model 0.8709 AUC" ∷ [])
      ∷ node "span" (class "mono") (words "live consistency check" ∷ [])
      ∷ [])

  abbrev pub ledger_title : View
  ledger_title = node "div" [] (
      node "span" (class "eyebrow") (words "settled ledger · execution:paper_settlements" ∷ [])
      ∷ [])

  abbrev pub tracker : Value N → List (Value N) → Bool → N → View
  tracker pnl entries loading dd = node "section" (class "card") (
      tracker_head pnl
      ∷ tiles pnl dd loading (length entries)
      ∷ node "div" (class "card") (ledger_title ∷ ledger_table loading entries ∷ [])
      ∷ tracker_foot
      ∷ [])

  -- `ledger || []`, of which only an array has both `slice` and a `map` of what that gives.
  abbrev pub ledger_entries : Value N → Option (List (Value N))
  ledger_entries (arr es) = some (items es)
  ledger_entries v = if truthy F v then none else some []

  -- `PnLTracker`; the walk of `maxDrawdown` throws at an entry that is null.
  unfoldable pub pnl_tracker : Value N → Value N → Bool → View
  unfolding node ledger_row max_drawdown
  pnl_tracker pnl ledger loading = elim (ledger_entries ledger) [
    | none ↦ none
    | some entries ↦ elim (max_drawdown F entries) [
      | none ↦ none
      | some dd ↦ tracker pnl entries loading dd
    ]
  ]
