-- ===== src/Client/Views/Matches/Blank.antt =====
-- The prices that take the whole grid of LiveBetsGrid.jsx off the page.
use casuya_live.Common.{
  String, Bool, false, Option, none, some, List, [], ◌∷◌, ◌++◌, map, ◌≡◌, inl, inr, refl, ap, ◌===◌,
  length, Option-cases,
}
use casuya_live.Js.{Float, Value, num, member, member?, or_else}
use casuya_live.Js.Html.{View, node, class, words, node_throws}
use casuya_live.Client.Panels.{Colour, presence, favourite_of, has_value, no_object}
use casuya_live.Client.Views.Matches.{
  Locale, fixed_price, price_chip, market_block, market_title, odds_cell, match_head, teams, notes,
  momentum, entries_in, match_card, grid_head, grid_body, last_frame, live_bets_grid, chip_class,
}
use casuya_live.Client.Views.Matches.Cards.{is_number}

-- The sides of an odds cell.
pub data Side : Type 0 where
  home draw away : Side

abbrev pub side_name : Side → String
side_name home = "home"
side_name draw = "draw"
side_name away = "away"

map-append {ℓ κ} :
    {A : Type ℓ} {B : Type κ} (f : A → B) (xs ys : List A) → map f (xs ++ ys) ≡ map f xs ++ map f ys
map-append f [] ys = refl
map-append f (x ∷ xs) ys = ap (◌∷◌ (f x)) (map-append f xs ys)

module _ (F : Float) (locale : Locale F) where
  open F use {N}

  fixed_price_throws :
      (price : Value N) → is_number F locale price ≡ false → fixed_price F locale price ≡ none
  fixed_price_throws (num m) k = absurd (cc)
  fixed_price_throws price k = refl

  price_chip_throws :
      (flash : Option (Colour F)) (side : String) (price : Value N) (leader : Bool) (n : N)
      → presence F price ≡ some n
      → is_number F locale price ≡ false
      → price_chip F locale flash side price leader ≡ none
  unfolding price_chip
  price_chip_throws flash side price leader n h k =
      let name = node "span" (class "side") (words side ∷ []) in
      rw (price_chip, h, fixed_price_throws price k, node_throws "span" (class "num") [] [])
        (node_throws "div" (class (chip_class F locale flash leader)) (name ∷ []) [])

  abbrev price_at : Value N → Side → Value N
  price_at odds side = member? odds (side_name side)

  odds_grid_throws :
      (flash : String → Option (Colour F)) (fav : String) (odds : Value N) (side : Side) (n : N)
      → presence F (price_at odds side) ≡ some n
      → is_number F locale (price_at odds side) ≡ false
      → node "div" (class "odds-grid") (
          odds_cell F locale flash fav odds "home"
          ∷ odds_cell F locale flash fav odds "draw"
          ∷ odds_cell F locale flash fav odds "away"
          ∷ [])
        ≡ none
  odds_grid_throws flash fav odds home n h k =
      rw (price_chip_throws (flash "home") "home" _ (fav === "home") n h k) (
        node_throws "div" (class "odds-grid") [] (
          odds_cell F locale flash fav odds "draw" ∷ odds_cell F locale flash fav odds "away" ∷ []))
  odds_grid_throws flash fav odds draw n h k =
      rw (price_chip_throws (flash "draw") "draw" _ (fav === "draw") n h k) (
        node_throws "div" (class "odds-grid") (odds_cell F locale flash fav odds "home" ∷ [])
          (odds_cell F locale flash fav odds "away" ∷ []))
  odds_grid_throws flash fav odds away n h k =
      rw (price_chip_throws (flash "away") "away" _ (fav === "away") n h k) (
        node_throws "div" (class "odds-grid")
          (odds_cell F locale flash fav odds "home" ∷ odds_cell F locale flash fav odds "draw" ∷ [])
          [])

  market_block_throws :
      (flash : String → Option (Colour F)) (fav id : String) (market found : Value N) (side : Side)
      (n : N)
      → let odds = or_else F found (no_object F) in
        member market "odds" ≡ some found
        → presence F (member? odds (side_name side)) ≡ some n
        → is_number F locale (member? odds (side_name side)) ≡ false
        → market_block F locale flash fav (id, market) ≡ none
  unfolding market_block
  market_block_throws flash fav id market found side n e h k =
      let odds = or_else F found (no_object F) in
      rw (market_block, e, odds_grid_throws flash fav odds side n h k)
        (node_throws "div" [] (market_title F locale id fav ∷ []) [])

  blocks_throw :
      (flash : String → String → Option (Colour F)) (fav id : String) (market found : Value N)
      (side : Side) (n : N) (es fs : List (String × Value N))
      → let odds = or_else F found (no_object F) in
        member market "odds" ≡ some found
        → presence F (member? odds (side_name side)) ≡ some n
        → is_number F locale (member? odds (side_name side)) ≡ false
        → node "div" []
            (map (λ e. market_block F locale (flash e.0) fav e) (es ++ (id, market) ∷ fs))
          ≡ none
  blocks_throw flash fav id market found side n es fs e h k =
      let f : String × Value N → View = λ e. market_block F locale (flash e.0) fav e in
      rw
        (
          map-append f es ((id, market) ∷ fs),
          market_block_throws (flash id) fav id market found side n e h k,
        )
        (node_throws "div" [] (map f es) (map f fs))

  card_throws :
      (flash : String → String → Option (Colour F)) (match : Value N) (id : String)
      (market found : Value N) (side : Side) (n : N) (es fs : List (String × Value N))
      → let odds = or_else F found (no_object F) in
        entries_in F locale match ≡ es ++ (id, market) ∷ fs
        → member market "odds" ≡ some found
        → presence F (member? odds (side_name side)) ≡ some n
        → is_number F locale (member? odds (side_name side)) ≡ false
        → match_card F locale flash match ≡ none
  unfolding match_card
  card_throws flash match id market found side n es fs p e h k =
      elim (Option-cases (member match "markets")) [
        | inl a ↦ rw (match_card, a) refl
        | inr (_, a) ↦ elim (Option-cases (favourite_of F match)) [
          | inl b ↦ rw (match_card, a, b) refl
          | inr (fav, b) ↦ elim (Option-cases (has_value F match)) [
            | inl c ↦ rw (match_card, a, b, c) refl
            | inr (value, c) ↦
                rw
                  (
                    match_card,
                    a,
                    b,
                    c,
                    p,
                    blocks_throw flash fav id market found side n es fs e h k,
                  )
                  (node_throws "article" (class "card card--lift")
                    (match_head F locale match
                      ∷ teams F locale match
                      ∷ notes F locale value match
                      ∷ [])
                    (momentum F locale match ∷ []))
          ]
        ]
      ]

  -- Where one of the matches has, in one of its markets, a price that is finite as a number and yet
  -- no number (a numeral in quotes, or null), the whole grid throws, whatever else there is.
  pub live_bets_grid_throws :
      (flashes : Value N → String → String → Option (Colour F)) (before after : List (Value N))
      (match : Value N) (last_event : Value N) (id : String) (market found : Value N) (side : Side)
      (n : N) (es fs : List (String × Value N))
      → let odds = or_else F found (no_object F) in
        entries_in F locale match ≡ es ++ (id, market) ∷ fs
        → member market "odds" ≡ some found
        → presence F (member? odds (side_name side)) ≡ some n
        → is_number F locale (member? odds (side_name side)) ≡ false
        → live_bets_grid F locale flashes (before ++ match ∷ after) last_event ≡ none
  unfolding live_bets_grid
  live_bets_grid_throws flashes before after match last_event id market found side n es fs p e h k =
      let f : Value N → View = λ m. match_card F locale (flashes m) m in
      let thrown = card_throws (flashes match) match id market found side n es fs p e h k in
      rw
        (map-append f before (match ∷ after), thrown, grid_body_throws (map f before) (map f after))
        (node_throws "section" (class "card")
          (grid_head F locale (length (before ++ match ∷ after)) ∷ [])
          (last_frame F locale last_event ∷ []))
    where
      grid_body_throws : (vs ws : List View) → grid_body F locale (vs ++ none ∷ ws) ≡ none
      grid_body_throws [] ws = node_throws "div" (class "card-grid") [] ws
      grid_body_throws (v ∷ vs) ws = node_throws "div" (class "card-grid") (v ∷ vs) ws
