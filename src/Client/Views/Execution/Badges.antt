-- ===== src/Client/Views/Execution/Badges.antt =====
-- The badges of ExecutionPanel.jsx are those of the ledger.
use casuya_live.Common.{
  ℕ, ◌+◌, String, Bool, true, false, some, List, [], ◌∷◌, ◌++◌, map, ◌≡◌, refl, ap, subst, sym, inl,
  inr, arith, length, All, if◌then◌else◌, Bool-cases, ne_of_===-false,
}
use casuya_live.Js.{
  Float, Value, num, arr, Items, items, member, member?, or_else, truthy, is_text, is_text_apart,
}
use casuya_live.Js.Html.{
  words, fragment, node, class, shown, by_class, has_class, Attributes, is_plain, Shows, IsFree,
  words-Shows, cons-Shows, nil-Shows, node-Shows, Shows-eq, node-AllShow, fragment-Shows,
  shown-Shows, free_rules, view_if-IsFree,
}
use casuya_live.Relay.Bus.Ledger.{by_if, count_results}
use casuya_live.Client.Dashboard.{Pnl}
use casuya_live.Client.Views.Execution.{
  result_badge, amount_style, or_rule, order_card, order_names, order_amount, order_result,
  panel_head, session_tiles, match_line, panel_foot, settled_body, panel_body, last_of,
  execution_panel, if_session, says_none, settled_in,
}

-- The two results that a settlement grades, with their texts and the classes of their badges.
pub data Result : Type 0 where
  won lost : Result

abbrev pub result_text : Result → String
result_text won = "won"
result_text lost = "lost"

abbrev pub badge_of : Result → String → Attributes → Bool
badge_of won = by_class "badge badge--ok"
badge_of lost = by_class "badge badge--danger"

module _ (F : Float) where
  open F use {N}

  -- An order that can be shown.
  pub record IsShownOrder (o : Value N) : Type 0 where
    pub id : Value N
    pub present : member o "order_id" ≡ some id
    pub market : is_plain (member? o "market") ≡ true
    pub side : is_plain (member? o "side") ≡ true

  amount_free :
      (r : Result) (v : Value N) → badge_of r "span" (class "mono" ++ amount_style F v) ≡ false
  amount_free won v = ground arith
  amount_free lost v = ground arith

  badge-Shows :
      (r : Result) (result : Value N)
      → Shows (badge_of r) (result_badge result) (by_if (is_text result (result_text r)) 1)
  badge-Shows won result =
      let free : (c label : String)
          → has_class "badge badge--ok" (class c) ≡ false
          → Shows (badge_of won) (node "span" (class c) (words label ∷ [])) 0 =
        λ c label e. search (free_rules, e) depth 8 in
      elim (Bool-cases (is_text result "won")) [
        | inl e ↦ rw e (
            node-AllShow (badge_of won) "span" (class "badge badge--ok") (words "WON" ∷ []) (0 ∷ [])
              (words-Shows (badge_of won) "WON", tt) (omega arith))
        | inr e ↦ elim (Bool-cases (is_text result "lost")) [
          | inl k ↦ rw (e, k) (free "badge badge--danger" "LOST" refl)
          | inr k ↦ rw (e, k) (free "badge badge--warn" "VOID" refl)
        ]
      ]
  badge-Shows lost result =
      let free : (c label : String)
          → has_class "badge badge--danger" (class c) ≡ false
          → Shows (badge_of lost) (node "span" (class c) (words label ∷ [])) 0 =
        λ c label e. search (free_rules, e) depth 8 in
      elim (Bool-cases (is_text result "won")) [
        | inl e ↦
            let no : is_text result "lost" ≡ false =
              is_text_apart result "won" "lost" e (ne_of_===-false "won" "lost" refl) in
            rw (e, no) (free "badge badge--ok" "WON" refl)
        | inr e ↦ elim (Bool-cases (is_text result "lost")) [
          | inr k ↦ rw (e, k) (free "badge badge--warn" "VOID" refl)
          | inl k ↦
              rw (e, k)
                (node-AllShow (badge_of lost) "span" (class "badge badge--danger")
                  (words "LOST" ∷ []) (0 ∷ []) (words-Shows (badge_of lost) "LOST", tt)
                  (omega arith))
        ]
      ]

  -- A value that can be a child has no badge.
  value-IsFree : (r : Result) (v : Value N) → is_plain v ≡ true → IsFree (badge_of r) (shown F v)
  value-IsFree r v h = shown-Shows (badge_of r) F v h

  order_names-IsFree :
      (r : Result) (o : Value N) → IsShownOrder o → IsFree (badge_of r) (order_names F o)
  order_names-IsFree won o c =
      search (free_rules, value-IsFree won _ c.market, value-IsFree won _ c.side) depth 14
  order_names-IsFree lost o c =
      search (free_rules, value-IsFree lost _ c.market, value-IsFree lost _ c.side) depth 14

  order_amount-IsFree : (r : Result) (o : Value N) → IsFree (badge_of r) (order_amount F o)
  order_amount-IsFree r o = search (free_rules, amount_free r (member? o "pnl")) depth 8

  -- What an element without the badge adds to the count.
  no_badge : (b : Bool) (m n : ℕ) → b ≡ false → m ≡ n → (if b then 1 else 0) + m ≡ n
  no_badge b m n e h = ground arith

  bare_div : (r : Result) → badge_of r "div" [] ≡ false
  bare_div won = refl
  bare_div lost = refl

  card_div : (r : Result) → badge_of r "div" (class "card card--lift") ≡ false
  card_div won = refl
  card_div lost = refl

  order_result-Shows :
      (r : Result) (o : Value N)
      → Shows
          (badge_of r)
          (order_result F o)
          (by_if (is_text (member? o "result") (result_text r)) 1)
  order_result-Shows r o =
      let n = by_if (is_text (member? o "result") (result_text r)) 1 in
      node-AllShow (badge_of r) "div" [] (result_badge (member? o "result") ∷ order_amount F o ∷ [])
        (n ∷ 0 ∷ []) (badge-Shows r (member? o "result"), (order_amount-IsFree r o, tt))
        (no_badge _ _ n (bare_div r) (omega arith))

  order_card-Shows :
      (r : Result) (o : Value N)
      → IsShownOrder o
      → Shows (badge_of r) (order_card F o) (by_if (is_text (member? o "result") (result_text r)) 1)
  unfolding order_card
  order_card-Shows r o c =
      let n = by_if (is_text (member? o "result") (result_text r)) 1 in
      let parts = order_names F o ∷ order_result F o ∷ [] in
      let inner : Shows (badge_of r) (node "div" [] parts) n =
        node-AllShow (badge_of r) "div" [] parts (0 ∷ n ∷ [])
          (order_names-IsFree r o c, (order_result-Shows r o, tt))
          (no_badge _ _ n (bare_div r) (omega arith)) in
      rw (order_card, c.present)
        (node-AllShow (badge_of r) "div" (class "card card--lift") (node "div" [] parts ∷ [])
          (n ∷ []) (inner, tt) (no_badge _ _ n (card_div r) (omega arith)))

  order_cards-Shows :
      (r : Result) (os : List (Value N))
      → All IsShownOrder os
      → Shows (badge_of r) (fragment (map (order_card F) os)) (count_results (result_text r) os)
  unfolding count_results
  order_cards-Shows r [] h = nil-Shows (badge_of r)
  order_cards-Shows r (o ∷ os) h =
      cons-Shows (badge_of r) (order_card F o) (map (order_card F) os) (order_card-Shows r o h.0)
        (order_cards-Shows r os h.1)

  -- What is shown of a settlement, beside its orders, are texts, numbers or nothing.
  pub record IsShownSettlement (last : Value N) : Type 0 where
    pub there : truthy F last ≡ true
    pub match_id : is_plain (member? last "match_id") ≡ true
    pub home : is_plain (member? (member? last "final_score") "home") ≡ true
    pub away : is_plain (member? (member? last "final_score") "away") ≡ true
    pub wins : is_plain (member? (member? last "session") "won") ≡ true
    pub losses : is_plain (member? (member? last "session") "lost") ≡ true

  or_rule-IsFree :
      (r : Result) (v : Value N) → is_plain v ≡ true → IsFree (badge_of r) (shown F (or_rule F v))
  or_rule-IsFree r v h = value-IsFree r (or_rule F v) (ground arith)

  session-IsFree :
      (r : Result) (session v : Value N) (n : ℕ)
      → is_plain v ≡ true
      → IsFree (badge_of r) (shown F (if_session F session v (num (F.of_ℕ n))))
  session-IsFree r session v n h =
      value-IsFree r (if_session F session v (num (F.of_ℕ n))) (ground arith)

  match_line-IsFree :
      (r : Result) (last : Value N) (b : Bool)
      → IsShownSettlement last
      → IsFree (badge_of r) (match_line F last b)
  match_line-IsFree won last b c =
      let score = member? last "final_score" in
      let home = or_rule-IsFree won (member? score "home") c.home in
      let away = or_rule-IsFree won (member? score "away") c.away in
      let id = value-IsFree won (member? last "match_id") c.match_id in
      let chip = node "span" (class "chip") (words "no orders in cycle" ∷ []) in
      let none_shown = view_if-IsFree (badge_of won) b chip (search free_rules depth 8) in
      search (free_rules, id, home, away, none_shown) depth 14
  match_line-IsFree lost last b c =
      let score = member? last "final_score" in
      let home = or_rule-IsFree lost (member? score "home") c.home in
      let away = or_rule-IsFree lost (member? score "away") c.away in
      let id = value-IsFree lost (member? last "match_id") c.match_id in
      let chip = node "span" (class "chip") (words "no orders in cycle" ∷ []) in
      let none_shown = view_if-IsFree (badge_of lost) b chip (search free_rules depth 8) in
      search (free_rules, id, home, away, none_shown) depth 14

  session_tiles-IsFree :
      (r : Result) (last : Value N) (n : ℕ)
      → IsShownSettlement last
      → IsFree (badge_of r) (session_tiles F (member? last "session") n)
  session_tiles-IsFree won last n c =
      let session = member? last "session" in
      search
        (free_rules, session-IsFree won session _ 0 c.wins, session-IsFree won session _ 0 c.losses)
        depth 16 fits 4000
  session_tiles-IsFree lost last n c =
      let session = member? last "session" in
      search
        (
          free_rules,
          session-IsFree lost session _ 0 c.wins,
          session-IsFree lost session _ 0 c.losses,
        )
        depth 16 fits 4000

  panel_head-IsFree : (r : Result) (last : Value N) → IsFree (badge_of r) (panel_head F last)
  panel_head-IsFree won last = search free_rules depth 14
  panel_head-IsFree lost last = search free_rules depth 14

  panel_foot-IsFree : (r : Result) (n : ℕ) → IsFree (badge_of r) (panel_foot F n)
  panel_foot-IsFree won n = search free_rules depth 14
  panel_foot-IsFree lost n = search free_rules depth 14

  settled_body-Shows :
      (r : Result) (last : Value N) (os : List (Value N)) (settlements : ℕ)
      → IsShownSettlement last
      → All IsShownOrder os
      → Shows (badge_of r) (settled_body F last os settlements) (count_results (result_text r) os)
  settled_body-Shows r last os settlements c h =
      let kind = badge_of r in
      let n = count_results (result_text r) os in
      let cards : Shows kind (node "div" (class "card-grid") (map (order_card F) os)) n =
        Shows-eq kind (no_badge _ n n (grid_div r) refl) (
          node-Shows kind "div" (class "card-grid") (map (order_card F) os)
            (order_cards-Shows r os h)) in
      Shows-eq kind (omega arith) (
        fragment-Shows kind
          (session_tiles F (member? last "session") (length os)
            ∷ match_line F last (says_none F (member? last "settled") os)
            ∷ node "div" (class "card-grid") (map (order_card F) os)
            ∷ panel_foot F settlements
            ∷ [])
          (0 ∷ 0 ∷ n ∷ 0 ∷ [])
          (
            session_tiles-IsFree r last (length os) c,
            (match_line-IsFree r last _ c, (cards, (panel_foot-IsFree r settlements, tt))),
          ))
    where
      grid_div : (r : Result) → badge_of r "div" (class "card-grid") ≡ false
      grid_div won = refl
      grid_div lost = refl

  panel_body-Shows :
      (r : Result) (last : Value N) (os : Items N) (settlements : ℕ)
      → IsShownSettlement last
      → member? last "settled" ≡ arr os
      → All IsShownOrder (items os)
      → Shows
          (badge_of r)
          (panel_body F last settlements)
          (count_results (result_text r) (items os))
  panel_body-Shows r last os settlements c e h =
      let told : settled_in F (member? last "settled") ≡ some (items os) = ap (settled_in F) e in
      rw (c.there, told) (settled_body-Shows r last (items os) settlements c h)

  last_of-there : (p : Pnl N) → truthy F p.last ≡ true → last_of F (some p) ≡ p.last
  unfolding or_else
  last_of-there p h = rw h refl

  -- After a settlement whose orders and score can be shown, the panel is rendered, and has as many
  -- WON and as many LOST badges as the relay counts into the ledger of outcomes for that message.
  pub execution_panel-Shows :
      (r : Result) (p : Pnl N) (os : Items N)
      → IsShownSettlement p.last
      → member? p.last "settled" ≡ arr os
      → All IsShownOrder (items os)
      → Shows (badge_of r) (execution_panel F (some p)) (count_results (result_text r) (items os))
  unfolding execution_panel
  execution_panel-Shows r p os c e h =
      let n = count_results (result_text r) (items os) in
      let body : Shows (badge_of r) (panel_body F (last_of F (some p)) (length p.history)) n =
        subst (λ last. Shows (badge_of r) (panel_body F last (length p.history)) n)
          (sym (last_of-there p c.there)) (panel_body-Shows r p.last os (length p.history) c e h) in
      node-AllShow (badge_of r) "section" (class "card")
        (panel_head F (last_of F (some p))
          ∷ panel_body F (last_of F (some p)) (length p.history)
          ∷ [])
        (0 ∷ n ∷ []) (panel_head-IsFree r (last_of F (some p)), (body, tt))
        (no_badge _ _ n (section_free r) (omega arith))
    where
      section_free : (r : Result) → badge_of r "section" (class "card") ≡ false
      section_free won = refl
      section_free lost = refl
