-- ===== src/Vendor/Feed.antt =====
-- The vendor feed of mock-vendor/server.js: `frame`, `pickScenario` and the timer of `vendorServer`.
pub mod Timer
pub mod Lifetime
pub mod Table
use casuya_live.Common.{
  ℕ, suc, ◌+◌, ◌*◌, String, Bool, true, false, Option, none, some, List, [], ◌∷◌, ◌===◌, get_elem?,
  ◌++◌, if◌then◌else◌,
}
use casuya_live.Js.{Float, Runtime, Value, num, str, object}
use casuya_live.Vendor.Book.{Buffers, fmt}
use casuya_live.Vendor.Script.{
  Odds, Row, template, Scenario, away, draw, home, Score, scoreline, scenario_weights,
  scenario_named,
}

module _ (F : Float) (R : Runtime F) (B : Buffers F) where
  open F use {N, of_ℕ, hundredths, lt}
  open R use {stringify}

  -- The loop of `pickScenario`.
  unfoldable pub pick_from : N → ℕ → List (Scenario × ℕ) → Scenario
  pick_from roll acc [] = away
  pick_from roll acc ((id, weight) ∷ rest) =
      let later = pick_from roll (acc + weight) rest in
      if lt roll (of_ℕ (acc + weight)) then id else later

  abbrev forced_scenario : Option String → Option Scenario
  forced_scenario none = none
  forced_scenario (some name) = scenario_named name

  -- `forced` is MOCK_SCENARIO, and `roll` is `Math.random() * 100`.
  unfoldable pub pick_scenario : Option String → N → Scenario
  unfolding pick_from scenario_named
  pick_scenario forced roll = elim (forced_scenario forced) [
    | some s ↦ s
    | none ↦ pick_from roll 0 scenario_weights
  ]

  abbrev pub price : ℕ → Value N
  price n = fmt F R B (num (hundredths n))

  abbrev pub market : String → Odds → ℕ → Value N
  market id o updated_at = object (
      ("market_id", str id)
      ∷ (
        "odds",
        object (("home", price o.home) ∷ ("draw", price o.draw) ∷ ("away", price o.away) ∷ []),
      )
      ∷ ("updated_at", num (of_ℕ updated_at))
      ∷ [])

  abbrev pub score_value : Score → Value N
  score_value (h, a) = object (("home", num (of_ℕ h)) ∷ ("away", num (of_ℕ a)) ∷ [])

  unfoldable pub frame : ℕ → Row → Score → Value N
  frame kickoff r score = object (
      ("match_id", str "epl-2026-0042")
      ∷ ("sport", str "football")
      ∷ ("league", str "england_premier_league")
      ∷ ("home_team", str "Example FC")
      ∷ ("away_team", str "Casual United")
      ∷ ("kickoff", num (of_ℕ kickoff))
      ∷ ("clock", str r.clock)
      ∷ ("score", score_value score)
      ∷ (
        "markets",
        object (
            ("1H_1X2", market "1H_1X2" r.o1h (kickoff + r.step * 60))
            ∷ ("2H_1X2", market "2H_1X2" r.o2h (kickoff + r.step * 60))
            ∷ []),
      )
      ∷ ("shots", num (of_ℕ r.shots))
      ∷ ("shots_on_target", num (of_ℕ r.shots_on_target))
      ∷ ("dangerous_attacks", num (of_ℕ r.dangerous_attacks))
      ∷ ("possession_home", price r.possession_home)
      ∷ [])

  -- One connection of an ingestor: its scenario, and its timer with the counter `guard`.
  pub record Feed : Type 0 where
    pub scenario : Scenario
    pub kickoff : ℕ
    pub guard : ℕ
    pub running : Bool

  pub data Effect : Type 0 where
    streams : String → Effect
    settles : Score → Effect
    closes : Effect

  abbrev pub stopped : Feed → Feed
  stopped f = record f { running = false }

  abbrev pub advanced : Feed → Feed
  advanced f = record f { guard = suc f.guard }

  -- The branch that streams: the frame, and the settlement with the last one.
  abbrev pub stream_row : Feed → Row → Score → Feed × List Effect
  stream_row f r score = (
    advanced f,
    streams (stringify (frame f.kickoff r score))
        ∷ (if r.clock === "FULLTIME" then settles score ∷ [] else []),
  )

  -- A row of the template stands where `guard < TEMPLATE.length`, and its score beside it.
  fire : Feed → Bool → Option Row → Option Score → Feed × List Effect
  unfolding frame
  fire f is_open (some r) (some score) = if is_open then stream_row f r score else (stopped f, [])
  fire f is_open _ _ = (stopped f, if is_open then closes ∷ [] else [])

  -- The callback of `setInterval`, with the state of the socket; a cleared timer does nothing.
  unfoldable pub tick : Feed → Bool → Feed × List Effect
  unfolding fire
  tick f is_open =
      if f.running
      then fire f is_open (get_elem? template f.guard) (get_elem? (scoreline f.scenario) f.guard)
      else (f, [])

  -- `socket.on("close", ...)`
  abbrev pub closed : Feed → Feed
  closed f = stopped f

  -- The effects of a row of ticks.
  unfoldable pub ticks : Feed → List Bool → List Effect
  unfolding tick
  ticks f [] = []
  ticks f (is_open ∷ rest) = (tick f is_open).1 ++ ticks (tick f is_open).0 rest

  abbrev pub connected : Scenario → ℕ → Feed
  connected scenario kickoff = record {
    scenario = scenario;
    kickoff = kickoff;
    guard = 0;
    running = true;
  }
