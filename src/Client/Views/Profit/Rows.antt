-- ===== src/Client/Views/Profit/Rows.antt =====
-- How many rows the ledger of PnLTracker.jsx has.
use casuya_live.Common.{
  ℕ, suc, ◌+◌, min, String, Bool, true, some, List, [], ◌∷◌, map, take, ◌≡◌, refl, arith, length,
  length-take, All, All-take,
}
use casuya_live.Js.{
  Float, Value, undefined, null, arr, obj, find_field, Items, items, member, member?,
}
use casuya_live.Js.Html.{
  View, fragment, node, class, shown, by_tag, Attributes, is_plain, Shows, IsFree, cons-Shows,
  nil-Shows, node-Shows, Shows-eq, node-AllShow, shown-Shows, free_rules,
}
use casuya_live.Client.Drawdown.{amount_of, walk, amounts, max_drawdown}
use casuya_live.Client.Formats.{score_or_dash}
use casuya_live.Client.Views.Profit.{
  ledger_badge, row_cells, ledger_row, table_head, ledger_table, tiles, tracker_head, tracker_foot,
  ledger_title, pnl_tracker, heading,
}

abbrev pub row : String → Attributes → Bool
row = by_tag "tr"

module _ (F : Float) (now_ms : ℕ) where
  open F use {N}

  abbrev Free : View → Type 0
  Free = IsFree row

  -- An entry that can be shown.
  pub record IsRow (e : Value N) : Type 0 where
    pub id : Value N
    pub present : member e "id" ≡ some id
    pub match_id : is_plain (member? e "match_id") ≡ true
    pub market : is_plain (member? e "market") ≡ true
    pub side : is_plain (member? e "side") ≡ true

  score-IsFree : (v : Value N) → Free (shown F (score_or_dash F v))
  score-IsFree v = shown-Shows row F (score_or_dash F v) (unfold score_or_dash in ground arith)

  ledger_badge-IsFree : (result : Value N) → Free (ledger_badge result)
  ledger_badge-IsFree result = search free_rules depth 14

  cells-IsFree : (e : Value N) → IsRow e → All Free (row_cells F now_ms e)
  cells-IsFree e c =
      let id = shown-Shows row F (member? e "match_id") c.match_id in
      let market = shown-Shows row F (member? e "market") c.market in
      let side = shown-Shows row F (member? e "side") c.side in
      search (free_rules, id, market, side, score-IsFree, ledger_badge-IsFree) depth 16 fits 4000

  ledger_row-Shows : (e : Value N) → IsRow e → Shows row (ledger_row F now_ms e) 1
  unfolding ledger_row
  ledger_row-Shows e c =
      rw (ledger_row, c.present)
        (node-AllShow row "tr" [] (row_cells F now_ms e) (0 ∷ 0 ∷ 0 ∷ 0 ∷ 0 ∷ 0 ∷ 0 ∷ 0 ∷ [])
          (cells-IsFree e c) (omega arith))

  rows-Shows :
      (es : List (Value N))
      → All IsRow es
      → Shows row (fragment (map (ledger_row F now_ms) es)) (length es)
  rows-Shows [] h = nil-Shows row
  rows-Shows (e ∷ es) h = Shows-eq row (omega arith) (
      cons-Shows row (ledger_row F now_ms e) (map (ledger_row F now_ms) es) (ledger_row-Shows e h.0)
        (rows-Shows es h.1))

  heading-IsFree : (s : String) → Free (heading F now_ms s)
  heading-IsFree s = search free_rules depth 8

  table_head-Shows : Shows row (table_head F now_ms) 1
  table_head-Shows =
      let names =
        heading F now_ms "when"
        ∷ heading F now_ms "match"
        ∷ heading F now_ms "market"
        ∷ heading F now_ms "odds"
        ∷ heading F now_ms "stake"
        ∷ heading F now_ms "final"
        ∷ heading F now_ms "result"
        ∷ heading F now_ms "pnl"
        ∷ [] in
      let titles : All Free names = search (heading-IsFree) in
      node-AllShow row "thead" [] (node "tr" [] names ∷ []) (1 ∷ [])
        (
          node-AllShow row "tr" [] names (0 ∷ 0 ∷ 0 ∷ 0 ∷ 0 ∷ 0 ∷ 0 ∷ 0 ∷ []) titles (omega arith),
          tt,
        )
        (omega arith)

  -- The rows of a table: its title, and one for each entry that is shown.
  abbrev pub rows_of : List (Value N) → ℕ
  rows_of [] = 0
  rows_of (e ∷ es) = suc (min 30 (length (e ∷ es)))

  ledger_table-Shows :
      (loading : Bool) (es : List (Value N))
      → All IsRow es
      → Shows row (ledger_table F now_ms loading es) (rows_of es)
  ledger_table-Shows loading [] h = search free_rules depth 8
  ledger_table-Shows loading (e ∷ es) h =
      let first = take 30 (e ∷ es) in
      let body = node "tbody" [] (map (ledger_row F now_ms) first) in
      let n = length first in
      let shown_rows : Shows row body n = Shows-eq row (omega arith) (
        node-Shows row "tbody" [] (map (ledger_row F now_ms) first)
          (rows-Shows first (All-take IsRow 30 (e ∷ es) h))) in
      let table : Shows row (node "table" [] (table_head F now_ms ∷ body ∷ [])) (1 + n) =
        node-AllShow row "table" [] (table_head F now_ms ∷ body ∷ []) (1 ∷ n ∷ [])
          (table_head-Shows, (shown_rows, tt)) (omega arith) in
      node-AllShow row "div" [] (node "table" [] (table_head F now_ms ∷ body ∷ []) ∷ [])
        ((1 + n) ∷ []) (table, tt) (omega (arith, length-take 30 (e ∷ es)))

  tiles-IsFree :
      (pnl : Value N) (dd : N) (loading : Bool) (n : ℕ) → Free (tiles F now_ms pnl dd loading n)
  tiles-IsFree pnl dd loading n = search free_rules depth 16 fits 6000

  tracker_head-IsFree : (pnl : Value N) → Free (tracker_head F now_ms pnl)
  tracker_head-IsFree pnl = search free_rules depth 14

  -- A value with one field has any other, if only as undefined.
  member_other :
      (v : Value N) (k j : String) {x : Value N}
      → member v k ≡ some x
      → (y : Value N) × (member v j ≡ some y)
  unfolding member
  member_other undefined k j h = absurd (cc)
  member_other null k j h = absurd (cc)
  member_other (obj fs) k j h = (find_field j fs, refl)
  member_other v k j h = (undefined, refl)

  rows-amounts : (es : List (Value N)) → All IsRow es → (paid : List N) × (amounts F es ≡ some paid)
  unfolding amounts
  rows-amounts [] h = ([], refl)
  rows-amounts (e ∷ es) h =
      let (pnl, p) = member_other e "id" "pnl" h.0.present in
      let (older, q) = rows-amounts es h.1 in (amount_of F pnl ∷ older, rw (amounts, p, q) refl)

  rows-max_drawdown :
      (es : List (Value N)) → All IsRow es → (dd : N) × (max_drawdown F es ≡ some dd)
  unfolding max_drawdown walk
  rows-max_drawdown es h =
      let (paid, e) = rows-amounts es h in ((walk F paid).dd, rw (max_drawdown, e) refl)

  -- The tracker of a ledger whose entries can be shown is rendered; its table has one row for each
  -- entry but never more than 30, below the row of titles, and there is no table where there are no
  -- entries.
  pub pnl_tracker-Shows :
      (pnl : Value N) (es : Items N) (loading : Bool)
      → All IsRow (items es)
      → Shows row (pnl_tracker F now_ms pnl (arr es) loading) (rows_of (items es))
  unfolding pnl_tracker
  pnl_tracker-Shows pnl es loading h =
      let (dd, e) = rows-max_drawdown (items es) h in
      let n = rows_of (items es) in
      let part = ledger_title F now_ms ∷ ledger_table F now_ms loading (items es) ∷ [] in
      let title : Free (ledger_title F now_ms) = search free_rules depth 8 in
      let foot : Free (tracker_foot F now_ms) = search free_rules depth 12 in
      let ledger : Shows row (node "div" (class "card") part) n =
        node-AllShow row "div" (class "card") part (0 ∷ n ∷ [])
          (title, (ledger_table-Shows loading (items es) h, tt)) (omega arith) in
      rw (pnl_tracker, e)
        (node-AllShow row "section" (class "card")
          (tracker_head F now_ms pnl
            ∷ tiles F now_ms pnl dd loading (length (items es))
            ∷ node "div" (class "card") part
            ∷ tracker_foot F now_ms
            ∷ [])
          (0 ∷ 0 ∷ n ∷ 0 ∷ [])
          (
            tracker_head-IsFree pnl,
            (tiles-IsFree pnl dd loading (length (items es)), (ledger, (foot, tt))),
          )
          (omega arith))
