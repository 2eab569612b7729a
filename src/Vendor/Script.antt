-- ===== src/Vendor/Script.antt =====
-- The script of a match in mock-vendor/server.js: TEMPLATE, SCORELINES and SCENARIO_WEIGHTS. The literals
-- with decimals are given in hundredths.
use casuya_live.Common.{ℕ, String, Option, none, some, List, [], ◌∷◌, ◌===◌, if◌then◌else◌}

-- Prices of home, draw and away.
pub record Odds : Type 0 where
  pub home : ℕ
  pub draw : ℕ
  pub away : ℕ

pub record Row : Type 0 where
  pub step : ℕ
  pub clock : String
  pub o1h : Odds
  pub o2h : Odds
  pub shots : ℕ
  pub shots_on_target : ℕ
  pub dangerous_attacks : ℕ
  pub possession_home : ℕ

abbrev odds : ℕ → ℕ → ℕ → Odds
odds h d a = record { home = h; draw = d; away = a }

abbrev row : ℕ → String → Odds → Odds → ℕ → ℕ → ℕ → ℕ → Row
row step clock o1h o2h shots on_target attacks possession = record {
  step = step;
  clock = clock;
  o1h = o1h;
  o2h = o2h;
  shots = shots;
  shots_on_target = on_target;
  dangerous_attacks = attacks;
  possession_home = possession;
}

abbrev pub template : List Row
template =
    row 0 "31" (odds 210 340 440) (odds 220 350 460) 3 0 9 36
    ∷ row 1 "34" (odds 210 340 450) (odds 220 350 470) 4 1 10 35
    ∷ row 2 "37" (odds 220 350 460) (odds 235 360 490) 5 1 11 34
    ∷ row 3 "41" (odds 230 350 470) (odds 245 360 510) 5 1 11 34
    ∷ row 4 "45" (odds 230 350 480) (odds 250 360 520) 6 1 12 33
    ∷ row 5 "HT" (odds 230 350 480) (odds 250 360 520) 6 1 12 33
    ∷ row 6 "52" (odds 240 360 480) (odds 260 370 540) 8 2 14 32
    ∷ row 7 "58" (odds 250 370 490) (odds 270 380 560) 10 2 16 32
    ∷ row 8 "64" (odds 260 370 490) (odds 280 380 590) 11 3 17 32
    ∷ row 9 "70" (odds 270 380 500) (odds 300 390 630) 13 3 18 31
    ∷ row 10 "76" (odds 280 380 510) (odds 310 400 680) 14 4 19 31
    ∷ row 11 "82" (odds 290 390 520) (odds 330 410 720) 15 4 19 32
    ∷ row 12 "88" (odds 310 390 530) (odds 350 410 780) 16 5 20 33
    ∷ row 13 "90" (odds 320 400 540) (odds 360 420 820) 17 5 20 33
    ∷ row 14 "FULLTIME" (odds 320 400 540) (odds 360 420 820) 17 5 20 33
    ∷ []

pub data Scenario : Type 0 where
  away draw home : Scenario

abbrev pub Score : Type 0
Score = ℕ × ℕ

-- The score in each row of the template.
abbrev pub scoreline : Scenario → List Score
scoreline away =
    (0, 0)
    ∷ (0, 0)
    ∷ (0, 1)
    ∷ (0, 1)
    ∷ (0, 1)
    ∷ (0, 1)
    ∷ (0, 1)
    ∷ (0, 2)
    ∷ (0, 2)
    ∷ (0, 2)
    ∷ (0, 2)
    ∷ (1, 2)
    ∷ (1, 2)
    ∷ (1, 2)
    ∷ (1, 2)
    ∷ []
scoreline draw =
    (0, 0)
    ∷ (0, 0)
    ∷ (0, 1)
    ∷ (0, 1)
    ∷ (0, 1)
    ∷ (0, 1)
    ∷ (0, 1)
    ∷ (0, 1)
    ∷ (1, 1)
    ∷ (1, 1)
    ∷ (1, 1)
    ∷ (1, 1)
    ∷ (1, 1)
    ∷ (1, 1)
    ∷ (1, 1)
    ∷ []
scoreline home =
    (0, 0)
    ∷ (0, 0)
    ∷ (0, 1)
    ∷ (0, 1)
    ∷ (0, 1)
    ∷ (0, 1)
    ∷ (0, 1)
    ∷ (1, 1)
    ∷ (1, 1)
    ∷ (2, 1)
    ∷ (2, 1)
    ∷ (2, 1)
    ∷ (2, 1)
    ∷ (2, 1)
    ∷ (2, 1)
    ∷ []

abbrev pub scenario_weights : List (Scenario × ℕ)
scenario_weights = (away, 72) ∷ (draw, 18) ∷ (home, 10) ∷ []

-- `SCORELINES[forced]`
unfoldable pub scenario_named : String → Option Scenario
scenario_named name =
    if name === "away"
    then some away
    else if name === "draw"
    then some draw
    else if name === "home"
    then some home
    else none
