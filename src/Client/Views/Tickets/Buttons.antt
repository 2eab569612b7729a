-- ===== src/Client/Views/Tickets/Buttons.antt =====
-- Which cards of SignalGrid.jsx offer to record a placement.
use casuya_live.Common.{
  ℕ, ◌+◌, String, Bool, true, false, some, List, [], ◌∷◌, map, ◌≡◌, ◌⊎◌, inl, inr, arith, length,
  decimal, All, if◌then◌else◌, Bool-cases,
}
use casuya_live.Js.{Float, Value, num, str, member, member?, or_else, truthy}
use casuya_live.Js.Html.{
  View, words, fragment, node, class, shown, by_tag, Attributes, is_plain, Shows, IsFree,
  none-Shows, words-Shows, cons-Shows, nil-Shows, node-Shows, Shows-eq, node-AllShow, shown-Shows,
  free_rules,
}
use casuya_live.Client.Views.Tickets.{
  place_button, ticket_head, ticket_fixture, ticket_numbers, status_text, placed_badge, ticket_foot,
  signal_card, placement_of, ticket, queue_head, queue_body, signal_grid, probability_note,
}

abbrev pub button : String → Attributes → Bool
button = by_tag "button"

module _ (F : Float) (upper : String → String) (now_ms : ℕ) where
  open F use {N}

  abbrev Free : View → Type 0
  Free = IsFree button

  abbrev pub is_str : Value N → Bool
  is_str (str s) = true
  is_str v = false

  -- A signal that can be shown: it is no null, what is shown of it are texts, numbers or nothing, and
  -- where it has a placement, the status of that is a text.
  pub record IsTicket (placements s : Value N) : Type 0 where
    pub id : Value N
    pub present : member s "order_id" ≡ some id
    pub order_id : is_plain (member? s "order_id") ≡ true
    pub league : is_plain (member? s "league") ≡ true
    pub match_id : is_plain (member? s "match_id") ≡ true
    pub market_label : is_plain (member? s "market_label") ≡ true
    pub placed :
        (truthy F (placement_of F upper now_ms placements s) ≡ false)
        ⊎ ((is_str (member? (placement_of F upper now_ms placements s) "status") ≡ true)
            × (is_plain (member? (placement_of F upper now_ms placements s) "book") ≡ true))

  or_else-plain :
      (v w : Value N) → is_plain v ≡ true → is_plain w ≡ true → Free (shown F (or_else F v w))
  or_else-plain v w h k = shown-Shows button F (or_else F v w) (or_plain h k)
    where
      or_plain : is_plain v ≡ true → is_plain w ≡ true → is_plain (or_else F v w) ≡ true
      or_plain h k = unfold or_else in ground arith

  status_text-IsFree : (v : Value N) → is_str v ≡ true → Free (status_text F upper now_ms v)
  status_text-IsFree (str s) h = words-Shows button _
  status_text-IsFree v h = absurd (cc)

  probability_note-IsFree : (v : Value N) → Free (probability_note F upper now_ms v)
  probability_note-IsFree (num p) = search free_rules depth 12
  probability_note-IsFree v = none-Shows button

  ticket_head-IsFree :
      (s : Value N) → is_plain (member? s "league") ≡ true → Free (ticket_head F upper now_ms s)
  ticket_head-IsFree s h = search (free_rules, or_else-plain) depth 14

  ticket_fixture-IsFree :
      (s : Value N)
      → is_plain (member? s "match_id") ≡ true
      → is_plain (member? s "market_label") ≡ true
      → Free (ticket_fixture F upper now_ms s)
  ticket_fixture-IsFree s h k = search (free_rules, or_else-plain) depth 14

  ticket_numbers-IsFree : (s : Value N) → Free (ticket_numbers F upper now_ms s)
  ticket_numbers-IsFree s = search (free_rules, probability_note-IsFree) depth 16

  placed_badge-IsFree :
      (p : Value N)
      → is_str (member? p "status") ≡ true
      → is_plain (member? p "book") ≡ true
      → Free (placed_badge F upper now_ms p)
  placed_badge-IsFree p h k = search (free_rules, or_else-plain, status_text-IsFree) depth 16

  place_button-Shows : (busy : Bool) → Shows button (place_button busy) 1
  place_button-Shows busy =
      let label = words (if busy then "RECORDING…" else "MARK PLACED") in
      node-AllShow button "button" _ (label ∷ []) (0 ∷ []) (words-Shows button _, tt) (omega arith)

  -- The end of a card: a badge where there is a placement, or the button.
  foot_end-Shows :
      (placements s : Value N) (busy : Bool)
      → IsTicket placements s
      → let p = placement_of F upper now_ms placements s in
        Shows button
          (if truthy F p then placed_badge F upper now_ms p else place_button busy)
          (if truthy F p then 0 else 1)
  foot_end-Shows placements s busy c =
      let p = placement_of F upper now_ms placements s in
      elim (Bool-cases (truthy F p)) [
        | inr e ↦ rw e (place_button-Shows busy)
        | inl e ↦ elim c.placed [
          | inl k ↦ absurd (cc)
          | inr (h, k) ↦ rw e (placed_badge-IsFree p h k)
        ]
      ]

  ticket_foot-Shows :
      (placements s : Value N) (busy : Bool)
      → IsTicket placements s
      → let p = placement_of F upper now_ms placements s in
        Shows button (ticket_foot F upper now_ms s p busy) (if truthy F p then 0 else 1)
  ticket_foot-Shows placements s busy c =
      let p = placement_of F upper now_ms placements s in
      let end = if truthy F p then placed_badge F upper now_ms p else place_button busy in
      let name = node "span" (class "mono") (shown F (member? s "order_id") ∷ []) in
      let id = shown-Shows button F (member? s "order_id") c.order_id in
      node-AllShow button "div" [] (name ∷ node "div" [] (end ∷ []) ∷ [])
        (0 ∷ (if truthy F p then 0 else 1) ∷ [])
        (
          search (free_rules, id) depth 8,
          (
            node-AllShow button "div" [] (end ∷ []) ((if truthy F p then 0 else 1) ∷ [])
                (foot_end-Shows placements s busy c, tt) (omega arith),
            tt,
          ),
        )
        (omega arith)

  ticket-Shows :
      (flash_id placements : Value N) (busy : Value N → Bool) (s : Value N)
      → IsTicket placements s
      → Shows button
          (ticket F upper now_ms flash_id placements busy s)
          (if truthy F (placement_of F upper now_ms placements s) then 0 else 1)
  unfolding ticket signal_card
  ticket-Shows flash_id placements busy s c =
      let p = placement_of F upper now_ms placements s in
      rw (ticket, c.present)
        (node-AllShow button "article" _
          (ticket_head F upper now_ms s
            ∷ ticket_fixture F upper now_ms s
            ∷ ticket_numbers F upper now_ms s
            ∷ ticket_foot F upper now_ms s p (busy s)
            ∷ [])
          (0 ∷ 0 ∷ 0 ∷ (if truthy F p then 0 else 1) ∷ [])
          (
            ticket_head-IsFree s c.league,
            (
              ticket_fixture-IsFree s c.match_id c.market_label,
              (ticket_numbers-IsFree s, (ticket_foot-Shows placements s (busy s) c, tt)),
            ),
          )
          (omega arith))

  -- The signals of the queue without a placement.
  abbrev pub unplaced : Value N → List (Value N) → ℕ
  unplaced placements [] = 0
  unplaced placements (s ∷ ss) =
      (if truthy F (placement_of F upper now_ms placements s) then 0 else 1)
      + unplaced placements ss

  tickets-Shows :
      (flash_id placements : Value N) (busy : Value N → Bool) (ss : List (Value N))
      → All (IsTicket placements) ss
      → Shows button
          (fragment (map (ticket F upper now_ms flash_id placements busy) ss))
          (unplaced placements ss)
  tickets-Shows flash_id placements busy [] h = nil-Shows button
  tickets-Shows flash_id placements busy (s ∷ ss) h =
      cons-Shows button (ticket F upper now_ms flash_id placements busy s)
        (map (ticket F upper now_ms flash_id placements busy) ss)
        (ticket-Shows flash_id placements busy s h.0)
        (tickets-Shows flash_id placements busy ss h.1)

  queue_body-Shows :
      (flash_id placements : Value N) (connected : Bool) (busy : Value N → Bool)
      (ss : List (Value N))
      → All (IsTicket placements) ss
      → Shows button
          (queue_body F upper now_ms connected
            (map (ticket F upper now_ms flash_id placements busy) ss))
          (unplaced placements ss)
  queue_body-Shows flash_id placements connected busy [] h = search free_rules depth 8
  queue_body-Shows flash_id placements connected busy (s ∷ ss) h =
      let cards = map (ticket F upper now_ms flash_id placements busy) (s ∷ ss) in
      let foot = node "footer" (class "page-foot") (
        node "span" [] (words "market:signals:live · engine stream · operator-assisted live" ∷ [])
        ∷ node "span" (class "mono") (words (decimal (length cards)) ∷ words " in queue" ∷ [])
        ∷ []) in
      let plain : Free foot = search free_rules depth 12 in
      Shows-eq button (omega arith) (
        cons-Shows button (node "div" (class "card-grid") cards) (foot ∷ [])
          (node-Shows button "div" (class "card-grid") cards
            (tickets-Shows flash_id placements busy (s ∷ ss) h))
          (cons-Shows button foot [] plain (nil-Shows button)))

  -- The queue of signals that can all be shown is rendered, and has exactly one button to record a
  -- placement for each signal that has none; whatever is being recorded, and whatever flashes.
  pub signal_grid-Shows :
      (ss : List (Value N)) (flash_id : Value N) (connected : Bool) (placements : Value N)
      (busy : Value N → Bool)
      → All (IsTicket placements) ss
      → Shows button
          (signal_grid F upper now_ms ss flash_id connected placements busy)
          (unplaced placements ss)
  unfolding signal_grid
  signal_grid-Shows ss flash_id connected placements busy h =
      let cards = map (ticket F upper now_ms flash_id placements busy) ss in
      let head : Free (queue_head F upper now_ms connected) = search free_rules depth 14 in
      node-AllShow button "section" (class "card")
        (queue_head F upper now_ms connected ∷ queue_body F upper now_ms connected cards ∷ [])
        (0 ∷ unplaced placements ss ∷ [])
        (head, (queue_body-Shows flash_id placements connected busy ss h, tt)) (omega arith)
