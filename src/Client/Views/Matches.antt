-- ===== src/Client/Views/Matches.antt =====
-- What web-interface-js/frontend/src/components/LiveBetsGrid.jsx renders. The state of the odds
-- cells, whether they flash, is an argument; `Locale` is the host's formatting of times.
pub mod Cards
pub mod Blank
use Prim.Native.Char.{code}
use Prim.Native.String
use casuya_live.Common.{
  ℕ, suc, String, Bool, true, false, not, ◌&&◌, ◌||◌, Option, none, some, List, [], ◌∷◌, ◌++◌, map,
  ◌===◌, ◌==◌, ◌<>◌, is_empty, decimal, length, if◌then◌else◌,
}
use casuya_live.Js.{
  Float, Value, undefined, null, bool, num, str, arr, obj, Fields, end, field, items, member,
  member?, or_else, truthy,
}
use casuya_live.Js.Html.{
  View, nothing, words, fragment, node, class, view_if, shown, attribute, Attributes,
}
use casuya_live.Client.Panels.{
  Colour, price_up, price_down, presence, favourite_of, has_value, no_object,
}

-- The host's times of day.
pub record Locale (F : Float) : Type 0 where
  pub hour_minute : F.N → String
  pub time_text : Value F.N → String

-- `id.replace("_", " · ")`: the first one.
unfoldable pub spaced : String → String
spaced String.[] = ""
spaced (String.◌∷◌ c s) =
    let rest = spaced s in if code c == b'_' then " · " <> s else String.◌∷◌ c rest

-- `prettyMarket`, with MARKET_LABELS.
unfoldable pub pretty_market : String → String
unfolding spaced
pretty_market id =
    if id === "1H_1X2"
    then "1H · 1X2"
    else if id === "2H_1X2"
    then "2H · 1X2"
    else if id === "CS_1H"
    then "CS · 1H"
    else if id === "CS_2H"
    then "CS · 2H"
    else spaced id

module _ {N : Type 0} where
  unfoldable pub field_entries : Fields N → List (String × Value N)
  field_entries end = []
  field_entries (field k v fs) = (k, v) ∷ field_entries fs

  numbered : ℕ → List (Value N) → List (String × Value N)
  numbered i [] = []
  numbered i (v ∷ vs) = (decimal i, v) ∷ numbered (suc i) vs

  char_entries : ℕ → String → List (String × Value N)
  char_entries i String.[] = []
  char_entries i (String.◌∷◌ c s) =
      (decimal i, str (String.◌∷◌ c String.[])) ∷ char_entries (suc i) s

  -- `Object.entries(v)` of a value that is there, whose keys are not numerals.
  unfoldable pub object_entries : Value N → List (String × Value N)
  unfolding field_entries numbered char_entries
  object_entries (obj fs) = field_entries fs
  object_entries (arr vs) = numbered 0 (items vs)
  object_entries (str s) = char_entries 0 s
  object_entries _ = []

module _ (F : Float) (locale : Locale F) where
  open F use {N, of_ℕ, mul, round, show, to_fixed}
  open locale use {hour_minute, time_text}

  abbrev pub flash_class : Option (Colour F) → String
  flash_class none = ""
  flash_class (some price_up) = "price--up"
  flash_class (some price_down) = "price--down"

  -- `price.toFixed(2)`, which only a number has.
  abbrev pub fixed_price : Value N → View
  fixed_price (num n) = words (to_fixed 2 n)
  fixed_price v = none

  abbrev pub chip_class : Option (Colour F) → Bool → String
  chip_class flash leader =
      "price " <> (flash_class flash <> (" " <> (if leader then "price--leader" else "")))

  -- `PriceChip`. Where there is no presence, the second test for one fails too.
  unfoldable pub price_chip : Option (Colour F) → String → Value N → Bool → View
  unfolding presence node
  price_chip flash side price leader = elim (presence F price) [
    | none ↦ node "div" (class "price") (
        node "span" (class "side") (words side ∷ [])
        ∷ node "span" (class "num") (words "—" ∷ [])
        ∷ [])
    | some value ↦ node "div" (class (chip_class flash leader)) (
        node "span" (class "side") (words side ∷ [])
        ∷ node "span" (class "num") (fixed_price price ∷ [])
        ∷ [])
  ]

  -- `{n ?? "—"}`
  abbrev pub or_dash : Option N → View
  or_dash none = words "—"
  or_dash (some n) = words (show n)

  abbrev pub possession : N → Option N → Option N → View
  possession poss shots sot =
      let percent = show (round (mul poss (of_ℕ 100))) in
      fragment (
        node "div" (class "m-row") (
          node "span" [] (words "poss " ∷ words percent ∷ words "%" ∷ [])
          ∷ node "span" [] (words "shots " ∷ or_dash shots ∷ words " · sot " ∷ or_dash sot ∷ [])
          ∷ [])
        ∷ node "div" (class "m-bar") (
            node "span" (("class", "m-home") ∷ ("style", "width: " <> (percent <> "%")) ∷ []) []
            ∷ node "span" (class "m-away") []
            ∷ [])
        ∷ [])

  abbrev pub danger_row : N → View
  danger_row dangerous =
      node "div" (class "m-row")
        (node "span" [] (words "danger" ∷ []) ∷ node "span" [] (words (show dangerous) ∷ []) ∷ [])

  abbrev pub if_some : Option N → (N → View) → View
  if_some none f = nothing
  if_some (some n) f = f n

  abbrev is_some : Option N → Bool
  is_some none = false
  is_some (some n) = true

  abbrev pub momentum_of : Option N → Option N → Option N → Option N → View
  momentum_of shots sot dangerous poss =
      if not (is_some shots || is_some dangerous || is_some poss)
      then nothing
      else node "div" (class "momentum")
          (if_some poss (λ p. possession p shots sot) ∷ if_some dangerous danger_row ∷ [])

  -- `Momentum`
  unfoldable pub momentum : Value N → View
  unfolding presence node fragment
  momentum match =
      momentum_of (presence F (member? match "shots"))
        (presence F (member? match "shots_on_target"))
        (presence F (member? match "dangerous_attacks"))
        (presence F (member? match "possession_home"))

  abbrev pub market_title : String → String → View
  market_title id fav = node "div" (class "eyebrow") (
      words (pretty_market id)
      ∷ view_if (not (is_empty fav)) (node "span" [] (words "(" ∷ words fav ∷ words ")" ∷ []))
      ∷ [])

  abbrev pub odds_cell : (String → Option (Colour F)) → String → Value N → String → View
  odds_cell flash fav odds side = price_chip (flash side) side (member? odds side) (fav === side)

  -- The title and the three cells of one market; a market that is null throws.
  unfoldable pub market_block : (String → Option (Colour F)) → String → String × Value N → View
  unfolding price_chip pretty_market node
  market_block flash fav (id, market) = elim (member market "odds") [
    | none ↦ none
    | some found ↦
        let odds = or_else F found (no_object F) in
        node "div" [] (
          market_title id fav
          ∷ node "div" (class "odds-grid") (
              odds_cell flash fav odds "home"
              ∷ odds_cell flash fav odds "draw"
              ∷ odds_cell flash fav odds "away"
              ∷ [])
          ∷ [])
  ]

  abbrev pub match_head : Value N → View
  match_head match = node "header" [] (
      node "span" (class "eyebrow")
        (shown F (or_else F (member? match "league") (str "Trading")) ∷ [])
      ∷ node "span" (class "chip") (
          node "span" (class "live-dot") []
          ∷ shown F (or_else F (member? match "clock") (str "KO"))
          ∷ [])
      ∷ [])

  abbrev pub score_board : Option N → Option N → Value N → View
  score_board (some home) (some away) sport = fragment (
      node "span" (class "score-num") (words (show home) ∷ [])
      ∷ node "span" [] (words "–" ∷ [])
      ∷ node "span" (class "score-num") (words (show away) ∷ [])
      ∷ [])
  score_board _ _ sport =
      node "span" (class "mono") (shown F (or_else F sport (str "pre-match")) ∷ [])

  abbrev pub team_name : Value N → View
  team_name team = node "div" (class "team-name" ++ attribute F "title" team) (shown F team ∷ [])

  abbrev pub teams : Value N → View
  teams match = node "div" [] (
      node "div" (class "team")
        (team_name (member? match "home_team") ∷ team_name (member? match "away_team") ∷ [])
      ∷ node "div" (class "scoreboard") (
          score_board (presence F (member? (member? match "score") "home"))
            (presence F (member? (member? match "score") "away")) (member? match "sport")
          ∷ [])
      ∷ [])

  -- `kickoff ? new Date(kickoff * 1000).toLocaleTimeString(…) : null`
  abbrev pub kickoff_at : Option N → Option String
  kickoff_at none = none
  kickoff_at (some k) = if truthy F (num k) then some (hour_minute (mul k (of_ℕ 1000))) else none

  abbrev pub kick_note : Option String → View
  kick_note none = nothing
  kick_note (some at_time) = node "span" (class "mono") (words "kick " ∷ words at_time ∷ [])

  abbrev pub notes : Bool → Value N → View
  notes value match = node "div" [] (
      (if value
        then node "span" (class "badge badge--value")
            (node "span" (class "live-dot") [] ∷ words "VALUE" ∷ [])
        else node "span" (class "eyebrow")
            (shown F (or_else F (member? match "sport") (str "")) ∷ []))
      ∷ kick_note (kickoff_at (presence F (member? match "kickoff")))
      ∷ [])

  abbrev pub entries_in : Value N → List (String × Value N)
  entries_in match = object_entries (or_else F (member? match "markets") (no_object F))

  abbrev pub card_with : (String → String → Option (Colour F)) → String → Bool → Value N → View
  card_with flash fav value match = node "article" (class "card card--lift") (
      match_head match
      ∷ teams match
      ∷ notes value match
      ∷ node "div" [] (map (λ e. market_block (flash e.0) fav e) (entries_in match))
      ∷ momentum match
      ∷ [])

  -- `MatchCard`. The first line to read a field of the match throws on null.
  unfoldable pub match_card : (String → String → Option (Colour F)) → Value N → View
  unfolding market_block momentum object_entries node presence favourite_of has_value
  match_card flash match = elim (member match "markets") [
    | none ↦ none
    | some _ ↦ elim (favourite_of F match) [
      | none ↦ none
      | some fav ↦ elim (has_value F match) [
        | none ↦ none
        | some value ↦ card_with flash fav value match
      ]
    ]
  ]

  abbrev pub last_frame : Value N → View
  last_frame last_event = view_if (truthy F last_event) (
      node "footer" (class "page-foot") (
        node "span" [] (words "last frame" ∷ [])
        ∷ node "span" (class "mono") (
            shown F (member? last_event "type")
            ∷ words " @ "
            ∷ words (time_text (member? last_event "ts"))
            ∷ [])
        ∷ []))

  abbrev pub grid_head : ℕ → View
  grid_head n = node "div" (class "section-head") (
      node "div" (class "section-title") (
        node "span" (class "badge badge--live") (words "live" ∷ [])
        ∷ node "h2" [] (words "STUDY ROOM — LIVE BETS" ∷ [])
        ∷ node "span" (class "section-rule") []
        ∷ [])
      ∷ node "span" (class "chip") (words (decimal n) ∷ words " in-window" ∷ [])
      ∷ [])

  -- The cards, of which there are none where there is no match.
  abbrev pub grid_body : List View → View
  grid_body [] = node "div" (class "empty") (words "Awaiting study-phase match data…" ∷ [])
  grid_body (card ∷ cards) = node "div" (class "card-grid") (card ∷ cards)

  -- `LiveBetsGrid`
  unfoldable pub live_bets_grid :
      (Value N → String → String → Option (Colour F)) → List (Value N) → Value N → View
  unfolding match_card
  live_bets_grid flashes matches last_event = node "section" (class "card") (
      grid_head (length matches)
      ∷ grid_body (map (λ m. match_card (flashes m) m) matches)
      ∷ last_frame last_event
      ∷ [])
