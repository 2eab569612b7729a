-- ===== src/Client/Views/Matches/Cards.antt =====
-- When the match cards of LiveBetsGrid.jsx are rendered, and which show the VALUE badge.
use casuya_live.Common.{
  ℕ, ◌+◌, String, Bool, true, false, Option, none, some, List, [], ◌∷◌, ◌++◌, map, ◌≡◌, ◌⊎◌, inl,
  inr, refl, arith, length, All, if◌then◌else◌, Option-cases,
}
use casuya_live.Js.{Float, Value, num, str, member, member?, or_else, truthy}
use casuya_live.Js.Html.{
  View, words, fragment, node, class, shown, attribute, by_class, Attributes, is_plain, Shows,
  none-Shows, words-Shows, nil-Shows, cons-Shows, node-Shows, Shows-eq, node-AllShow, shown-Shows,
  IsFree, node-IsFree, view_if-IsFree, free_rules,
}
use casuya_live.Client.Panels.{
  Colour, price_up, price_down, presence, favourite_of, has_value, no_object,
}
use casuya_live.Client.Views.Matches.{
  Locale, fixed_price, chip_class, price_chip, market_block, momentum, momentum_of, possession,
  danger_row, if_some, score_board, team_name, kickoff_at, kick_note, match_head, teams, notes,
  entries_in, match_card, last_frame, live_bets_grid, grid_head, grid_body,
}

abbrev pub value_badge : String → Attributes → Bool
value_badge = by_class "badge badge--value"

module _ (F : Float) (locale : Locale F) where
  open F use {N, of_ℕ}

  abbrev pub is_number : Value N → Bool
  is_number (num n) = true
  is_number v = false

  -- A price that is no number has no presence, either.
  abbrev pub IsDrawn : Value N → Type 0
  IsDrawn price = (presence F price ≡ none) ⊎ (is_number price ≡ true)

  abbrev pub IsMarket : String × Value N → Type 0
  IsMarket (id, market) =
      (odds : Value N) × (member market "odds" ≡ some odds)
      × IsDrawn (member? (or_else F odds (no_object F)) "home")
      × IsDrawn (member? (or_else F odds (no_object F)) "draw")
      × IsDrawn (member? (or_else F odds (no_object F)) "away")

  chip_class_apart :
      (flash : Option (Colour F)) (leader : Bool)
      → value_badge "div" (class (chip_class F locale flash leader)) ≡ false
  chip_class_apart none true = refl
  chip_class_apart none false = refl
  chip_class_apart (some price_up) true = refl
  chip_class_apart (some price_up) false = refl
  chip_class_apart (some price_down) true = refl
  chip_class_apart (some price_down) false = refl

  abbrev Free : View → Type 0
  Free = IsFree value_badge

  fixed_price-IsFree :
      (price : Value N) → is_number price ≡ true → Free (fixed_price F locale price)
  fixed_price-IsFree (num n) h = words-Shows value_badge _
  fixed_price-IsFree v h = absurd (cc)

  price_chip-IsFree :
      (flash : Option (Colour F)) (side : String) (price : Value N) (leader : Bool)
      → IsDrawn price
      → Free (price_chip F locale flash side price leader)
  unfolding price_chip
  price_chip-IsFree flash side price leader h = elim (Option-cases (presence F price)) [
    | inl e ↦ rw (price_chip, e) (search free_rules depth 12)
    | inr (n, e) ↦ elim h [
      | inl k ↦ absurd (cc)
      | inr k ↦
          rw (price_chip, e)
            (search (free_rules, chip_class_apart flash leader, fixed_price-IsFree price k) depth
              12)
    ]
  ]

  possession-IsFree : (p : N) (shots sot : Option N) → Free (possession F locale p shots sot)
  possession-IsFree p none none = search free_rules depth 12
  possession-IsFree p none (some n) = search free_rules depth 12
  possession-IsFree p (some m) none = search free_rules depth 12
  possession-IsFree p (some m) (some n) = search free_rules depth 12

  if_some-IsFree :
      (o : Option N) (f : N → View) → ((n : N) → Free (f n)) → Free (if_some F locale o f)
  if_some-IsFree none f h = none-Shows value_badge
  if_some-IsFree (some n) f h = h n

  danger_row-IsFree : (n : N) → Free (danger_row F locale n)
  danger_row-IsFree n = search free_rules depth 12

  momentum_of-IsFree :
      (shots sot dangerous poss : Option N) → Free (momentum_of F locale shots sot dangerous poss)
  momentum_of-IsFree shots sot dangerous poss =
      search (free_rules, if_some-IsFree, danger_row-IsFree, possession-IsFree) depth 12

  momentum-IsFree : (match : Value N) → Free (momentum F locale match)
  unfolding momentum
  momentum-IsFree match = momentum_of-IsFree _ _ _ _

  -- A match that can be shown: it is no null, its favourite and its value can be told, each of its
  -- markets is there with prices that are numbers or have no presence, and what is shown of it are
  -- texts, numbers or nothing.
  pub record IsCard (match : Value N) (value : Bool) : Type 0 where
    pub markets : Value N
    pub present : member match "markets" ≡ some markets
    pub fav : String
    pub leads : favourite_of F match ≡ some fav
    pub has : has_value F match ≡ some value
    pub drawn : All IsMarket (entries_in F locale match)
    pub league : is_plain (member? match "league") ≡ true
    pub clock : is_plain (member? match "clock") ≡ true
    pub home_team : is_plain (member? match "home_team") ≡ true
    pub away_team : is_plain (member? match "away_team") ≡ true
    pub sport : is_plain (member? match "sport") ≡ true

  or_else-is_plain :
      (v : Value N) (s : String) → is_plain v ≡ true → is_plain (or_else F v (str s)) ≡ true
  unfolding or_else
  or_else-is_plain v s h = ground arith

  text_or-IsFree :
      (v : Value N) (s : String) → is_plain v ≡ true → Free (shown F (or_else F v (str s)))
  text_or-IsFree v s h = shown-Shows value_badge F (or_else F v (str s)) (or_else-is_plain v s h)

  market_block-IsFree :
      (flash : String → Option (Colour F)) (fav : String) (e : String × Value N)
      → IsMarket e
      → Free (market_block F locale flash fav e)
  unfolding market_block
  market_block-IsFree flash fav (id, market) (found, e, h, d, a) =
      rw (market_block, e) (search (free_rules, price_chip-IsFree) depth 14)

  blocks-IsFree :
      (flash : String → String → Option (Colour F)) (fav : String) (es : List (String × Value N))
      → All IsMarket es
      → All Free (map (λ e. market_block F locale (flash e.0) fav e) es)
  blocks-IsFree flash fav [] h = tt
  blocks-IsFree flash fav (e ∷ es) h =
      (market_block-IsFree (flash e.0) fav e h.0, blocks-IsFree flash fav es h.1)

  match_head-IsFree :
      (match : Value N)
      → is_plain (member? match "league") ≡ true
      → is_plain (member? match "clock") ≡ true
      → Free (match_head F locale match)
  match_head-IsFree match h k = search (free_rules, text_or-IsFree) depth 14

  title_apart :
      (v : Value N) → value_badge "div" (class "team-name" ++ attribute F "title" v) ≡ false
  title_apart v = ground arith

  team_name-IsFree : (v : Value N) → is_plain v ≡ true → Free (team_name F locale v)
  team_name-IsFree v h = search (free_rules, title_apart v, shown-Shows value_badge F v h) depth 14

  score_board-IsFree :
      (home away : Option N) (sport : Value N)
      → is_plain sport ≡ true
      → Free (score_board F locale home away sport)
  score_board-IsFree (some h) (some a) sport k = search free_rules depth 14
  score_board-IsFree none (some a) sport k = search (free_rules, text_or-IsFree) depth 14
  score_board-IsFree (some h) none sport k = search (free_rules, text_or-IsFree) depth 14
  score_board-IsFree none none sport k = search (free_rules, text_or-IsFree) depth 14

  kick_note-IsFree : (o : Option String) → Free (kick_note F locale o)
  kick_note-IsFree none = none-Shows value_badge
  kick_note-IsFree (some s) = search free_rules depth 12

  teams-IsFree : (match : Value N) (value : Bool) → IsCard match value → Free (teams F locale match)
  teams-IsFree match value c =
      search (free_rules, score_board-IsFree, team_name-IsFree, c.home_team, c.away_team, c.sport)
        depth 14

  notes-Shows :
      (value : Bool) (match : Value N)
      → is_plain (member? match "sport") ≡ true
      → Shows value_badge (notes F locale value match) (if value then 1 else 0)
  notes-Shows true match h =
      let badge = node "span" (class "live-dot") [] ∷ words "VALUE" ∷ [] in
      let kick = kick_note F locale (kickoff_at F locale (presence F (member? match "kickoff"))) in
      node-AllShow value_badge "div" [] (node "span" (class "badge badge--value") badge ∷ kick ∷ [])
        (1 ∷ 0 ∷ [])
        (
          node-AllShow value_badge "span" (class "badge badge--value") badge (0 ∷ 0 ∷ [])
              (search free_rules depth 8, (words-Shows value_badge "VALUE", tt)) (omega arith),
          (kick_note-IsFree _, tt),
        )
        (omega arith)
  notes-Shows false match h = search (free_rules, text_or-IsFree, kick_note-IsFree) depth 14

  -- A match that can be shown is, and its card has one VALUE badge exactly if it has value.
  pub match_card-Shows :
      (flash : String → String → Option (Colour F)) (match : Value N) (value : Bool)
      → IsCard match value
      → Shows value_badge (match_card F locale flash match) (if value then 1 else 0)
  unfolding match_card
  match_card-Shows flash match value c =
      let blocks =
        map (λ e. market_block F locale (flash e.0) c.fav e) (entries_in F locale match) in
      rw (match_card, c.present, c.leads, c.has)
        (node-AllShow value_badge "article" (class "card card--lift")
          (match_head F locale match
            ∷ teams F locale match
            ∷ notes F locale value match
            ∷ node "div" [] blocks
            ∷ momentum F locale match
            ∷ [])
          (0 ∷ 0 ∷ (if value then 1 else 0) ∷ 0 ∷ 0 ∷ [])
          (
            match_head-IsFree match c.league c.clock,
            (
              teams-IsFree match value c,
              (
                notes-Shows value match c.sport,
                (
                  node-IsFree value_badge "div" [] blocks refl
                      (blocks-IsFree flash c.fav (entries_in F locale match) c.drawn),
                  (momentum-IsFree match, tt),
                ),
              ),
            ),
          )
          (omega arith))

  -- The matches with value among some.
  abbrev pub count_true : List Bool → ℕ
  count_true [] = 0
  count_true (b ∷ bs) = (if b then 1 else 0) + count_true bs

  abbrev pub AreCards : List (Value N) → List Bool → Type 0
  AreCards [] [] = Unit
  AreCards (m ∷ ms) (b ∷ bs) = IsCard m b × AreCards ms bs
  AreCards _ _ = ⊥

  cards-Shows :
      (flashes : Value N → String → String → Option (Colour F)) (ms : List (Value N))
      (bs : List Bool)
      → AreCards ms bs
      → Shows value_badge
          (fragment (map (λ m. match_card F locale (flashes m) m) ms))
          (count_true bs)
  cards-Shows flashes [] [] h = nil-Shows value_badge
  cards-Shows flashes (m ∷ ms) (b ∷ bs) h =
      cons-Shows value_badge (match_card F locale (flashes m) m)
        (map (λ m. match_card F locale (flashes m) m) ms) (match_card-Shows (flashes m) m b h.0)
        (cards-Shows flashes ms bs h.1)
  cards-Shows flashes [] (b ∷ bs) h = absurd h
  cards-Shows flashes (m ∷ ms) [] h = absurd h

  last_frame-IsFree :
      (last_event : Value N)
      → is_plain (member? last_event "type") ≡ true
      → Free (last_frame F locale last_event)
  last_frame-IsFree last_event h =
      let kind = shown-Shows value_badge F (member? last_event "type") h in
      view_if-IsFree value_badge (truthy F last_event) _ (search (free_rules, kind) depth 14)

  grid_body-Shows :
      (flashes : Value N → String → String → Option (Colour F)) (ms : List (Value N))
      (bs : List Bool)
      → AreCards ms bs
      → Shows value_badge
          (grid_body F locale (map (λ m. match_card F locale (flashes m) m) ms))
          (count_true bs)
  grid_body-Shows flashes [] [] h = search free_rules depth 8
  grid_body-Shows flashes (m ∷ ms) (b ∷ bs) h = Shows-eq value_badge (omega arith) (
      node-Shows value_badge "div" (class "card-grid")
        (map (λ m. match_card F locale (flashes m) m) (m ∷ ms))
        (cards-Shows flashes (m ∷ ms) (b ∷ bs) h))
  grid_body-Shows flashes [] (b ∷ bs) h = absurd h
  grid_body-Shows flashes (m ∷ ms) [] h = absurd h

  -- The grid of matches that can all be shown is rendered, with as many VALUE badges as there are
  -- matches with value.
  pub live_bets_grid-Shows :
      (flashes : Value N → String → String → Option (Colour F)) (ms : List (Value N))
      (bs : List Bool) (last_event : Value N)
      → AreCards ms bs
      → is_plain (member? last_event "type") ≡ true
      → Shows value_badge (live_bets_grid F locale flashes ms last_event) (count_true bs)
  unfolding live_bets_grid
  live_bets_grid-Shows flashes ms bs last_event h k =
      node-AllShow value_badge "section" (class "card")
        (grid_head F locale (length ms)
          ∷ grid_body F locale (map (λ m. match_card F locale (flashes m) m) ms)
          ∷ last_frame F locale last_event
          ∷ [])
        (0 ∷ count_true bs ∷ 0 ∷ [])
        (
          search free_rules depth 14,
          (grid_body-Shows flashes ms bs h, (last_frame-IsFree last_event k, tt)),
        )
        (omega arith)
