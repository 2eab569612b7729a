-- ===== src/Vendor/Feed/Timer.antt =====
-- The timer of the vendor feed of mock-vendor/server.js over any row of ticks.
use casuya_live.Common.{
  ℕ, zero, suc, ◌+◌, Bool, true, false, ◌&&◌, none, some, List, [], ◌∷◌, ◌++◌, ◌≡◌, refl, ap, ◌∙◌,
  ◌===◌, length, get_elem?, arith, if◌then◌else◌,
}
use casuya_live.Js.{Float, Runtime}
use casuya_live.Vendor.Book.{Buffers}
use casuya_live.Vendor.Script.{Row, Score, Scenario, away, draw, home, template, scoreline}
use casuya_live.Vendor.Feed.{
  Feed, Effect, settles, closes, stopped, advanced, stream_row, fire, tick, ticks, connected,
}
use casuya_live.Vendor.Feed.Table.{final_score}

-- At least n ticks, and the socket is open at each of the first n.
abbrev pub all_open : ℕ → List Bool → Bool
all_open zero opens = true
all_open (suc n) [] = false
all_open (suc n) (o ∷ os) = o && all_open n os

-- Every row but the last is in play; the last is FULLTIME, at the final score.
abbrev IsScript : List Row → List Score → Score → Type 0
IsScript (r ∷ []) (s ∷ []) final = ((r.clock === "FULLTIME") ≡ true) × (s ≡ final)
IsScript (r ∷ r' ∷ rs) (s ∷ s' ∷ ss) final =
    ((r.clock === "FULLTIME") ≡ false) × IsScript (r' ∷ rs) (s' ∷ ss) final
IsScript _ _ final = ⊥

scripted : (s : Scenario) → IsScript template (scoreline s) (final_score (scoreline s))
scripted away = ground arith
scripted draw = ground arith
scripted home = ground arith

module _ (F : Float) (R : Runtime F) (B : Buffers F) where
  abbrev pub settlements : List (Effect F R B) → List Score
  settlements [] = []
  settlements (settles score ∷ es) = score ∷ settlements es
  settlements (e ∷ es) = settlements es

  pub tick_stopped : (f : Feed F R B) (o : Bool) → f.running ≡ false → tick F R B f o ≡ (f, [])
  unfolding tick
  tick_stopped f o h = ground arith

  settlements_stopped :
      (f : Feed F R B) (opens : List Bool)
      → f.running ≡ false
      → settlements (ticks F R B f opens) ≡ []
  unfolding ticks
  settlements_stopped f [] h = refl
  settlements_stopped f (o ∷ os) h = rw (tick_stopped f o h) (settlements_stopped f os h)

  pub settlements-append :
      (xs ys : List (Effect F R B)) → settlements (xs ++ ys) ≡ settlements xs ++ settlements ys
  settlements-append [] ys = refl
  settlements-append (settles s ∷ xs) ys = ap (◌∷◌ s) (settlements-append xs ys)
  settlements-append (e ∷ xs) ys = settlements-append xs ys

  -- The rows and scores that a running timer has before it.
  pub record Faces (f : Feed F R B) (rs : List Row) (ss : List Score) : Type 0 where
    pub running : f.running ≡ true
    pub rows : (i : ℕ) → get_elem? template (f.guard + i) ≡ get_elem? rs i
    pub scores : (i : ℕ) → get_elem? (scoreline f.scenario) (f.guard + i) ≡ get_elem? ss i

  pub Faces-advanced :
      (f : Feed F R B) (r : Row) (rs : List Row) (s : Score) (ss : List Score)
      → Faces f (r ∷ rs) (s ∷ ss)
      → Faces (advanced F R B f) rs ss
  Faces-advanced f r rs s ss h = record {
    running = h.running;
    rows = λ i. ap (get_elem? template) (omega arith) ∙ h.rows (suc i);
    scores = λ i. ap (get_elem? (scoreline f.scenario)) (omega arith) ∙ h.scores (suc i);
  }

  abbrev due : List Row → Score → List Bool → List Score
  due rs final opens = if all_open (length rs) opens then final ∷ [] else []

  pub tick-row :
      (f : Feed F R B) (r : Row) (rs : List Row) (s : Score) (ss : List Score) (o : Bool)
      → Faces f (r ∷ rs) (s ∷ ss)
      → tick F R B f o ≡ (if o then stream_row F R B f r s else (stopped F R B f, []))
  unfolding tick
  tick-row f r rs s ss o h =
      let row : get_elem? template f.guard ≡ some r =
        ap (get_elem? template) (omega arith) ∙ h.rows 0 in
      let score : get_elem? (scoreline f.scenario) f.guard ≡ some s =
        ap (get_elem? (scoreline f.scenario)) (omega arith) ∙ h.scores 0 in
      rw (tick, h.running, row, score) refl

  pub tick-over :
      (f : Feed F R B) (o : Bool)
      → Faces f [] []
      → tick F R B f o ≡ (stopped F R B f, if o then closes ∷ [] else [])
  unfolding tick fire
  tick-over f o h =
      let row : get_elem? template f.guard ≡ none =
        ap (get_elem? template) (omega arith) ∙ h.rows 0 in
      rw (tick, h.running, row) refl

  -- Past the last row the timer stops.
  settlements_over :
      (f : Feed F R B) (opens : List Bool) → Faces f [] [] → settlements (ticks F R B f opens) ≡ []
  unfolding ticks
  settlements_over f [] h = refl
  settlements_over f (o ∷ os) h = rw (tick-over f o h) (
      settlements-append (if o then closes ∷ [] else []) _
      ∙ rw (settlements_stopped (stopped F R B f) os refl) (ground arith))

  ticks-due :
      (rs : List Row) (ss : List Score) (f : Feed F R B) (final : Score) (opens : List Bool)
      → Faces f rs ss
      → IsScript rs ss final
      → settlements (ticks F R B f opens) ≡ due rs final opens
  unfolding ticks
  ticks-due (r ∷ []) (s ∷ []) f final [] h k = refl
  ticks-due (r ∷ []) (s ∷ []) f final (true ∷ os) h k =
      rw
        (
          tick-row f r [] s [] true h,
          k.0,
          settlements_over (advanced F R B f) os (Faces-advanced f r [] s [] h),
        )
        (ap (λ t. t ∷ []) k.1)
  ticks-due (r ∷ []) (s ∷ []) f final (false ∷ os) h k =
      rw (tick-row f r [] s [] false h) (settlements_stopped (stopped F R B f) os refl)
  ticks-due (r ∷ r' ∷ rs) (s ∷ s' ∷ ss) f final [] h k = refl
  ticks-due (r ∷ r' ∷ rs) (s ∷ s' ∷ ss) f final (true ∷ os) h k =
      rw (tick-row f r (r' ∷ rs) s (s' ∷ ss) true h, k.0)
        (ticks-due (r' ∷ rs) (s' ∷ ss) (advanced F R B f) final os
          (Faces-advanced f r (r' ∷ rs) s (s' ∷ ss) h) k.1)
  ticks-due (r ∷ r' ∷ rs) (s ∷ s' ∷ ss) f final (false ∷ os) h k =
      rw (tick-row f r (r' ∷ rs) s (s' ∷ ss) false h)
        (settlements_stopped (stopped F R B f) os refl)
  ticks-due [] ss f final os h k = absurd k
  ticks-due (r ∷ []) [] f final os h k = absurd k
  ticks-due (r ∷ []) (s ∷ s' ∷ ss) f final os h k = absurd k
  ticks-due (r ∷ r' ∷ rs) [] f final os h k = absurd k
  ticks-due (r ∷ r' ∷ rs) (s ∷ []) f final os h k = absurd k

  -- A connection settles exactly once, at its scenario's final score, if its socket is open at each
  -- of the first fifteen ticks; otherwise it never settles.
  pub ticks-settlements :
      (s : Scenario) (kickoff : ℕ) (opens : List Bool)
      → settlements (ticks F R B (connected F R B s kickoff) opens)
        ≡ (if all_open 15 opens then final_score (scoreline s) ∷ [] else [])
  ticks-settlements s kickoff opens =
      ticks-due template (scoreline s) (connected F R B s kickoff) (final_score (scoreline s)) opens
        (record {
          running = refl;
          rows = λ i. ap (get_elem? template) (omega arith);
          scores = λ i. ap (get_elem? (scoreline s)) (omega arith);
        })
        (scripted s)
