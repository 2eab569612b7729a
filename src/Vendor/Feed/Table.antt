-- ===== src/Vendor/Feed/Table.antt =====
-- The tables of mock-vendor/server.js against what their comments say, and the draw of a scenario.
use casuya_live.Common.{
  ℕ, zero, suc, ◌+◌, ◌<◌, ◌≤◌, Bool, true, false, none, List, [], ◌∷◌, ◌≡◌, refl, length, ltb,
  arith, if◌then◌else◌,
}
use casuya_live.Js.{Float, Runtime, SafeIntegers}
use casuya_live.Vendor.Book.{Buffers}
use casuya_live.Vendor.Script.{Scenario, away, draw, home, Score, template, scoreline}
use casuya_live.Vendor.Feed.{pick_scenario}

abbrev pub final_score : List Score → Score
final_score [] = (0, 0)
final_score (s ∷ []) = s
final_score (s ∷ t ∷ rest) = final_score (t ∷ rest)

abbrev pub result_of : Score → Scenario
result_of (h, a) = if ltb h a then away else if ltb a h then home else draw

-- Neither side loses a goal.
abbrev pub IsRising : List Score → Type 0
IsRising [] = Unit
IsRising (s ∷ []) = Unit
IsRising (s ∷ t ∷ rest) = (s.0 ≤ t.0) × (s.1 ≤ t.1) × IsRising (t ∷ rest)

-- The scoreline of a scenario gives each row of the template a score, never takes a goal back, and
-- ends in the scenario's result.
scoreline_lem :
    (s : Scenario)
    → (length (scoreline s) ≡ length template)
      × IsRising (scoreline s)
      × (result_of (final_score (scoreline s)) ≡ s)
scoreline_lem away = (refl, omega arith, refl)
scoreline_lem draw = (refl, omega arith, refl)
scoreline_lem home = (refl, omega arith, refl)

abbrev is_scenario : Scenario → Scenario → Bool
is_scenario away away = true
is_scenario draw draw = true
is_scenario home home = true
is_scenario _ _ = false

abbrev pub weight_of : Scenario → ℕ
weight_of away = 72
weight_of draw = 18
weight_of home = 10

-- The scenario of a whole roll, by the numbers themselves.
drawn : ℕ → Scenario
drawn i = if ltb i 72 then away else if ltb i 90 then draw else if ltb i 100 then home else away

module _ (F : Float) (R : Runtime F) (B : Buffers F) where
  open F use {of_ℕ}

  -- How many of the whole rolls below n give a scenario, when none is forced.
  unfoldable pub count_rolls : Scenario → ℕ → ℕ
  count_rolls s zero = 0
  count_rolls s (suc n) =
      (if is_scenario (pick_scenario F R B none (of_ℕ n)) s then 1 else 0) + count_rolls s n

  drawn_rolls : Scenario → ℕ → ℕ
  unfolding drawn
  drawn_rolls s zero = 0
  drawn_rolls s (suc n) = (if is_scenario (drawn n) s then 1 else 0) + drawn_rolls s n

  pick_scenario-drawn :
      SafeIntegers F → (i : ℕ) → i < 100 → pick_scenario F R B none (of_ℕ i) ≡ drawn i
  unfolding pick_scenario drawn
  pick_scenario-drawn safe i h =
      rw
        (
          safe.lt_of_ℕ i 72 (omega arith) (omega arith),
          safe.lt_of_ℕ i 90 (omega arith) (omega arith),
          safe.lt_of_ℕ i 100 (omega arith) (omega arith),
        )
        refl

  count_rolls-drawn :
      SafeIntegers F → (s : Scenario) (n : ℕ) → n ≤ 100 → count_rolls s n ≡ drawn_rolls s n
  unfolding count_rolls drawn_rolls
  count_rolls-drawn safe s zero h = refl
  count_rolls-drawn safe s (suc n) h =
      rw (pick_scenario-drawn safe n (omega arith), count_rolls-drawn safe s n (omega arith)) refl

  -- Where no scenario is forced, as many of the hundred whole rolls give each scenario as its
  -- weight says: 72 an away win, 18 a draw, 10 a home win.
  pub count_rolls-weight : SafeIntegers F → (s : Scenario) → count_rolls s 100 ≡ weight_of s
  unfolding drawn_rolls
  count_rolls-weight safe away = count_rolls-drawn safe away 100 (omega arith)
  count_rolls-weight safe draw = count_rolls-drawn safe draw 100 (omega arith)
  count_rolls-weight safe home = count_rolls-drawn safe home 100 (omega arith)
