-- ===== src/Client/Panels.antt =====
-- The logic of the match cards, web-interface-js/frontend/src/components/LiveBetsGrid.jsx:
-- `favouriteOf`, `hasValue`, `presence` and the effect of `PriceChip`.
pub mod Favourite
pub mod Flashing
use Prim.Native.String
use casuya_live.Common.{
  ℕ, String, Bool, true, false, not, ◌&&◌, ◌||◌, Option, none, some, List, [], ◌∷◌, map, any,
  if◌then◌else◌,
}
use casuya_live.Js.{
  Float, Value, str, arr, obj, Fields, end, field, items, member, member?, or_else, number_of,
  object,
}

module _ {N : Type 0} where
  field_values : Fields N → List (Value N)
  field_values end = []
  field_values (field k v fs) = v ∷ field_values fs

  char_values : String → List (Value N)
  char_values String.[] = []
  char_values (String.◌∷◌ c s) = str (String.◌∷◌ c String.[]) ∷ char_values s

  -- `Object.values(v)` of a value that is there, whose keys are not numerals.
  unfoldable pub object_values : Value N → List (Value N)
  unfolding field_values char_values
  object_values (obj fs) = field_values fs
  object_values (arr vs) = items vs
  object_values (str s) = char_values s
  object_values _ = []

module _ (F : Float) where
  open F use {N, of_ℕ, add, sub, lt, eq, is_finite}

  abbrev pub no_object : Value N
  no_object = object []

  -- `match.markets || {}`
  abbrev pub markets_of : Value N → List (Value N)
  markets_of m = object_values (or_else F (member? m "markets") no_object)

  -- A price that the loop of `favouriteOf` takes, where the best so far is Infinity or a price.
  abbrev pub is_better : N → Option (String × N) → Bool
  is_better price none = is_finite price && lt (of_ℕ 0) price
  is_better price (some (side, best)) = is_finite price && lt (of_ℕ 0) price && lt price best

  unfoldable pub best_of : Option (String × N) → List (String × N) → Option (String × N)
  best_of best [] = best
  best_of best ((side, price) ∷ rest) =
      best_of (if is_better price best then some (side, price) else best) rest

  abbrev pub side_or_none : Option (String × N) → String
  side_or_none none = ""
  side_or_none (some (side, price)) = side

  -- `Number(odds[side])` for the three sides.
  abbrev pub prices_of : Value N → List (String × N)
  prices_of odds =
      ("home", number_of F (member? odds "home"))
      ∷ ("draw", number_of F (member? odds "draw"))
      ∷ ("away", number_of F (member? odds "away"))
      ∷ []

  unfoldable pub favourite_in : List (Value N) → Option String
  unfolding best_of
  favourite_in [] = some ""
  favourite_in (m ∷ _) = elim (member m "odds") [
    | none ↦ none
    | some odds ↦ some (side_or_none (best_of none (prices_of (or_else F odds no_object))))
  ]

  -- `favouriteOf` of an object; `none` is the TypeError of a first market that is null.
  unfoldable pub favourite_of : Value N → Option String
  unfolding best_of
  favourite_of m = favourite_in (markets_of m)

  -- `Number(p) >= MIN_TRIGGER_ODDS && Number.isFinite(Number(p))`
  abbrev pub is_value : Value N → Bool
  is_value p = let n = number_of F p in (lt (of_ℕ 5) n || eq (of_ℕ 5) n) && is_finite n

  unfoldable pub value_in : List (Value N) → Option Bool
  unfolding object_values
  value_in [] = some false
  value_in (m ∷ rest) =
      let later = value_in rest in
      elim (member m "odds") [
        | none ↦ none
        | some odds ↦
            if any is_value (object_values (or_else F odds no_object)) then some true else later
      ]

  -- `hasValue`; `none` is the TypeError of a market that is null before one with value.
  unfoldable pub has_value : Value N → Option Bool
  unfolding value_in
  has_value m = value_in (markets_of m)

  -- `presence`, where null is `none`.
  unfoldable pub presence : Value N → Option N
  presence v = let n = number_of F v in if is_finite n then some n else none

  -- The state of an odds cell: the reference `prev`, the colour of the flash, and whether its timer
  -- runs. A price that is missing is null, here `none`.
  pub data Colour : Type 0 where
    price_up price_down : Colour

  pub record Chip : Type 0 where
    pub prev : Option N
    pub flash : Option Colour
    pub armed : Bool

  -- `prev !== value` of two prices that are there.
  abbrev flashing : Chip → N → N → Chip
  flashing c p v = record {
    prev = c.prev;
    flash = some (if lt p v then price_up else price_down);
    armed = true;
  }

  abbrev noted : Chip → Option N → Chip
  noted c value = record { prev = value; flash = c.flash; armed = false }

  abbrev compared : Chip → Option N → Option N → Chip
  compared c (some p) (some v) = if not (eq p v) then flashing c p v else noted c (some v)
  compared c p value = noted c value

  -- The effect runs when `value` has changed; what the effect before it armed is cleared first.
  unfoldable pub chip_effect : Chip → Option N → Chip
  chip_effect c value = compared c c.prev value

  -- The timer of a flash.
  unfoldable pub chip_timer : Chip → Chip
  chip_timer c = if c.armed then record c { flash = none; armed = false } else c

  abbrev pub fresh_chip : Option N → Chip
  fresh_chip value = record { prev = value; flash = none; armed = false }

  -- What happens to a cell: a new price, or the end of its flash.
  pub data ChipEvent : Type 0 where
    prices : N → ChipEvent
    elapses : ChipEvent

  abbrev chip_step : Chip → ChipEvent → Chip
  chip_step c (prices v) = chip_effect c (some v)
  chip_step c elapses = chip_timer c

  -- The cell after a history, its newest event first; it was mounted with a price.
  unfoldable pub chip_after : N → List ChipEvent → Chip
  unfolding chip_effect chip_timer
  chip_after first [] = fresh_chip (some first)
  chip_after first (e ∷ es) = chip_step (chip_after first es) e
