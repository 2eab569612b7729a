-- ===== src/Client/Views/Tickets.antt =====
-- What web-interface-js/frontend/src/components/SignalGrid.jsx renders. `busy` tells which of the
-- cards are recording a placement, and `upper` is the host's `toUpperCase`.
pub mod Buttons
use casuya_live.Common.{
  ℕ, String, Bool, true, false, not, ◌&&◌, Option, none, some, List, [], ◌∷◌, ◌++◌, map, ◌<>◌,
  is_empty, decimal, length, if◌then◌else◌,
}
use casuya_live.Js.{
  Float, Value, num, str, member, member?, or_else, truthy, string_of, number_of, strict_eq,
  is_text,
}
use casuya_live.Js.Html.{View, nothing, words, fragment, node, class, view_if, shown, Attributes}
use casuya_live.Client.Formats.{versus, grid_time_ago}

abbrev pub style : String → Attributes
style s = ("style", s) ∷ []

-- `CopyButton`, before and after its click.
unfoldable pub copy_button : Bool → View
unfolding node
copy_button copied =
    node "button"
      (class "mono"
        ++ style (
            if copied
            then "background: rgba(52,211,153,0.14); color: var(--go)"
            else "background: var(--surface-2); color: var(--text-2)"))
      (words (if copied then "COPIED" else "COPY MATCH") ∷ [])

-- `PlaceButton`
abbrev pub place_button : Bool → View
place_button busy =
    node "button"
      (class "mono"
        ++ ("title", "Copy the ticket, place it on Helabet manually, then confirm here")
          ∷ style (if busy then "cursor: wait" else "cursor: pointer")
        ++ (if busy then ("disabled", "") ∷ [] else []))
      (words (if busy then "RECORDING…" else "MARK PLACED") ∷ [])

module _ (F : Float) (upper : String → String) (now_ms : ℕ) where
  open F use {N, of_ℕ, thousandths, sub, mul, abs, lt, is_finite, to_fixed}

  -- `n.toFixed(2)` of a finite number, or a dash.
  abbrev fixed_or_dash : N → View
  fixed_or_dash n = words (if is_finite n then to_fixed 2 n else "—")

  abbrev raw_note : N → N → View
  raw_note raw odds =
      view_if (is_finite raw && lt (thousandths 1) (abs (sub raw odds)))
        (node "div" (class "mono") (words "raw " ∷ words (to_fixed 2 raw) ∷ []))

  -- `Number.isFinite(v)` holds of numbers only.
  abbrev probability_note : Value N → View
  probability_note (num p) = view_if (is_finite p) (
      node "div" (class "mono")
        (words "model p " ∷ words (to_fixed 0 (mul p (of_ℕ 100))) ∷ words "%" ∷ []))
  probability_note v = nothing

  -- `` m.market_label || `${m.market} ${m.side}` ``
  abbrev pub market_text : Value N → Value N
  market_text s =
      or_else F (member? s "market_label")
        (str (string_of F (member? s "market") <> (" " <> string_of F (member? s "side"))))

  abbrev pub fixture_of : Value N → String
  fixture_of s = versus F (member? s "home_team") (member? s "away_team")

  abbrev pub ticket_head : Value N → View
  ticket_head s = node "div" [] (
      node "span" (class "eyebrow") (shown F (or_else F (member? s "league") (str "signal")) ∷ [])
      ∷ node "span" (class "chip") (
          node "span" (class "live-dot") []
          ∷ words (
              if truthy F (member? s "clock")
              then string_of F (member? s "clock") <> "'"
              else "live")
          ∷ [])
      ∷ [])

  abbrev pub ticket_fixture : Value N → View
  ticket_fixture s = node "div" [] (
      node "div" (class "team-name" ++ ("title", fixture_of s) ∷ [])
        (shown F (or_else F (str (fixture_of s)) (member? s "match_id")) ∷ [])
      ∷ node "div" (class "eyebrow") (shown F (market_text s) ∷ [])
      ∷ [])

  abbrev pub ticket_numbers : Value N → View
  ticket_numbers s =
      let odds = number_of F (member? s "odds") in
      node "div" [] (
        node "div" [] (
          node "div" (class "mono") (fixed_or_dash odds ∷ [])
          ∷ raw_note (number_of F (member? s "raw_odds")) odds
          ∷ [])
        ∷ node "div" [] (
            node "div" (class "mono")
              (words "stake " ∷ fixed_or_dash (number_of F (member? s "stake")) ∷ [])
            ∷ probability_note (member? s "true_prob")
            ∷ [])
        ∷ [])

  -- `status === "placed" ? "PLACED" : status.toUpperCase()`, which only a text has.
  abbrev pub status_text : Value N → View
  status_text (str s) = words (if is_text {N = N} (str s) "placed" then "PLACED" else upper s)
  status_text v = none

  abbrev placed_note : Value N → View
  placed_note placed_at =
      words
        (if truthy F placed_at then " · " <> grid_time_ago F (number_of F placed_at) now_ms else "")

  abbrev placed_style : Value N → Attributes
  placed_style status = style (
      if is_text status "void"
      then "background: rgba(142,162,192,0.14); color: var(--text-3)"
      else "background: rgba(52,211,153,0.14); color: var(--go)")

  -- The badge of a placement, which is there.
  abbrev pub placed_badge : Value N → View
  placed_badge placement =
      let status = member? placement "status" in
      node "span" (class "mono" ++ placed_style status) (
        status_text status
        ∷ words " · "
        ∷ shown F (or_else F (member? placement "book") (str "helabet"))
        ∷ placed_note (member? placement "placed_at")
        ∷ [])

  abbrev pub ticket_foot : Value N → Value N → Bool → View
  ticket_foot s placement busy = node "div" [] (
      node "span" (class "mono") (shown F (member? s "order_id") ∷ [])
      ∷ node "div" []
          ((if truthy F placement then placed_badge placement else place_button busy) ∷ [])
      ∷ [])

  -- `SignalCard`, of a signal that is there.
  unfoldable pub signal_card : Value N → Bool → Value N → Bool → View
  unfolding node grid_time_ago
  signal_card s flashing placement busy =
      node "article"
        (class "card card--lift"
          ++ (if flashing then style "animation: flash-up 1.5s ease" else []))
        (ticket_head s ∷ ticket_fixture s ∷ ticket_numbers s ∷ ticket_foot s placement busy ∷ [])

  -- `placements?.[s.order_id]`
  abbrev pub placement_of : Value N → Value N → Value N
  placement_of placements s = member? placements (string_of F (member? s "order_id"))

  -- One element of the grid; `s.order_id` throws where s is null.
  unfoldable pub ticket : Value N → Value N → (Value N → Bool) → Value N → View
  unfolding signal_card
  ticket flash_id placements busy s = elim (member s "order_id") [
    | none ↦ none
    | some id ↦ signal_card s (strict_eq F flash_id id) (placement_of placements s) (busy s)
  ]

  abbrev pub queue_head : Bool → View
  queue_head connected = node "div" (class "section-head") (
      node "div" (class "section-title") (
        node "span" (class "badge badge--live") (words "zone a" ∷ [])
        ∷ node "h2" [] (words "LIVE SIGNAL QUEUE" ∷ [])
        ∷ node "span" (class "section-rule") []
        ∷ [])
      ∷ node "span" (class "chip") (
          node "span" (class ("live-dot " <> (if connected then "" else "live-dot--off"))) []
          ∷ words (if connected then "ENGINE ONLINE" else "ENGINE OFFLINE")
          ∷ [])
      ∷ [])

  abbrev pub queue_body : Bool → List View → View
  queue_body connected [] = node "div" (class "empty") (
      words (
        if connected
        then "Waiting for the engine to place the next virtual bet…"
        else "Connecting to the execution engine…")
      ∷ [])
  queue_body connected (card ∷ cards) = fragment (
      node "div" (class "card-grid") (card ∷ cards)
      ∷ node "footer" (class "page-foot") (
          node "span" [] (words "market:signals:live · engine stream · operator-assisted live" ∷ [])
          ∷ node "span" (class "mono")
              (words (decimal (length (card ∷ cards))) ∷ words " in queue" ∷ [])
          ∷ [])
      ∷ [])

  -- `SignalGrid`
  unfoldable pub signal_grid : List (Value N) → Value N → Bool → Value N → (Value N → Bool) → View
  unfolding ticket node fragment
  signal_grid signals flash_id connected placements busy = node "section" (class "card") (
      queue_head connected
      ∷ queue_body connected (map (ticket flash_id placements busy) signals)
      ∷ [])
