-- ===== src/Vendor/Feed/Lifetime.antt =====
-- How long a vendor feed of mock-vendor/server.js lives: the timer ends, whatever the socket does.
use casuya_live.Common.{
  ℕ, suc, ◌+◌, min, Bool, true, false, ◌&&◌, List, [], ◌∷◌, ◌++◌, ◌≡◌, refl, ap, ◌∙◌, length,
  get_elem?, arith, leb, ltb, if◌then◌else◌,
}
use casuya_live.Js.{Float, Runtime}
use casuya_live.Vendor.Book.{Buffers}
use casuya_live.Vendor.Script.{Row, Score, Scenario, template, scoreline, away, draw, home}
use casuya_live.Vendor.Feed.{
  Feed, Effect, streams, closes, stopped, advanced, stream_row, tick, ticks, connected,
}
use casuya_live.Vendor.Feed.Timer.{
  Faces, Faces-advanced, tick-row, tick-over, tick_stopped, all_open,
}

-- The ticks before the first at which the socket is not open.
abbrev pub leading : List Bool → ℕ
leading [] = 0
leading (o ∷ os) = if o then suc (leading os) else 0

-- The timer still runs where each tick found the socket open and a row was there.
abbrev pub live : ℕ → List Bool → Bool
live n opens = leb (length opens) n && all_open (length opens) opens

module _ (F : Float) (R : Runtime F) (B : Buffers F) where
  -- The feed after a row of ticks.
  unfoldable pub feed_after : Feed F R B → List Bool → Feed F R B
  unfolding tick
  feed_after f [] = f
  feed_after f (o ∷ os) = feed_after (tick F R B f o).0 os

  -- The frames that the effects stream, and the times that they close the socket.
  unfoldable pub frames : List (Effect F R B) → ℕ
  frames [] = 0
  frames (streams text ∷ es) = suc (frames es)
  frames (e ∷ es) = frames es

  unfoldable pub closings : List (Effect F R B) → ℕ
  closings [] = 0
  closings (closes ∷ es) = suc (closings es)
  closings (e ∷ es) = closings es

  frames-append : (xs ys : List (Effect F R B)) → frames (xs ++ ys) ≡ frames xs + frames ys
  unfolding frames
  frames-append [] ys = omega arith
  frames-append (streams text ∷ xs) ys = omega (arith, frames-append xs ys)
  frames-append (e ∷ xs) ys = frames-append xs ys

  closings-append : (xs ys : List (Effect F R B)) → closings (xs ++ ys) ≡ closings xs + closings ys
  unfolding closings
  closings-append [] ys = omega arith
  closings-append (closes ∷ xs) ys = omega (arith, closings-append xs ys)
  closings-append (e ∷ xs) ys = closings-append xs ys

  -- What a row of ticks comes to: whether the timer runs, the frames and the closings.
  record Ends (f : Feed F R B) (opens : List Bool) (still : Bool) (n c : ℕ) : Type 0 where
    running : (feed_after f opens).running ≡ still
    streamed : frames (ticks F R B f opens) ≡ n
    shuts : closings (ticks F R B f opens) ≡ c

  stopped-Ends : (f : Feed F R B) (opens : List Bool) → f.running ≡ false → Ends f opens false 0 0
  unfolding feed_after ticks frames closings
  stopped-Ends f [] h = record { running = h; streamed = refl; shuts = refl }
  stopped-Ends f (o ∷ os) h =
      let e = tick_stopped F R B f o h in
      let later = stopped-Ends f os h in
      record {
        running = rw (feed_after, e) later.running;
        streamed = rw (ticks, e) later.streamed;
        shuts = rw (ticks, e) later.shuts;
      }

  -- One tick before a row of them.
  tick-Ends :
      (f g : Feed F R B) (es : List (Effect F R B)) (o : Bool) (os : List Bool) (still : Bool)
      (n c : ℕ)
      → tick F R B f o ≡ (g, es)
      → Ends g os still n c
      → Ends f (o ∷ os) still (frames es + n) (closings es + c)
  unfolding feed_after ticks
  tick-Ends f g es o os still n c e later = record {
    running = rw (feed_after, e) later.running;
    streamed = rw (ticks, e) (frames-append es _ ∙ ap (◌+◌ (frames es)) later.streamed);
    shuts = rw (ticks, e) (closings-append es _ ∙ ap (◌+◌ (closings es)) later.shuts);
  }

  Ends-eq :
      (f : Feed F R B) (opens : List Bool) {still still' : Bool} {n n' c c' : ℕ}
      → still ≡ still'
      → n ≡ n'
      → c ≡ c'
      → Ends f opens still n c
      → Ends f opens still' n' c'
  Ends-eq f opens p q r h = record {
    running = h.running ∙ p;
    streamed = h.streamed ∙ q;
    shuts = h.shuts ∙ r;
  }

  -- The effects of streaming a row: one frame, and no closing.
  row_effects :
      (f : Feed F R B) (r : Row) (s : Score)
      → (frames (stream_row F R B f r s).1 ≡ 1) × (closings (stream_row F R B f r s).1 ≡ 0)
  unfolding frames closings
  row_effects f r s = (ground arith, ground arith)

  over_effects :
      (o : Bool)
      → (frames (if o then closes ∷ [] else []) ≡ 0)
        × (closings (if o then closes ∷ [] else []) ≡ (if o then 1 else 0))
  unfolding frames closings
  over_effects o = (ground arith, ground arith)

  Faces-Ends :
      (rs : List Row) (ss : List Score) (f : Feed F R B) (opens : List Bool)
      → length rs ≡ length ss
      → Faces F R B f rs ss
      → Ends f opens
          (live (length rs) opens)
          (min (length rs) (leading opens))
          (if ltb (length rs) (leading opens) then 1 else 0)
  unfolding feed_after ticks frames closings
  Faces-Ends rs ss f [] e h = record {
    running = ground (arith, h.running);
    streamed = omega arith;
    shuts = ground arith;
  }
  Faces-Ends [] [] f (o ∷ os) e h =
      let (none_streamed, shut) = over_effects o in
      Ends-eq f (o ∷ os) (ground arith) (omega (arith, none_streamed)) (ground (arith, shut)) (
        tick-Ends f (stopped F R B f) _ o os false 0 0 (tick-over F R B f o h)
          (stopped-Ends (stopped F R B f) os refl))
  Faces-Ends (r ∷ rs) (s ∷ ss) f (true ∷ os) e h =
      let (one, unshut) = row_effects f r s in
      let later =
        Faces-Ends rs ss (advanced F R B f) os (omega arith) (Faces-advanced F R B f r rs s ss h) in
      Ends-eq f (true ∷ os) (ground arith) (omega (arith, one)) (ground (arith, unshut))
        (tick-Ends f (advanced F R B f) _ true os _ _ _ (tick-row F R B f r rs s ss true h) later)
  Faces-Ends (r ∷ rs) (s ∷ ss) f (false ∷ os) e h =
      Ends-eq f (false ∷ os) (ground arith) (omega arith) (ground arith) (
        tick-Ends f (stopped F R B f) [] false os false 0 0 (tick-row F R B f r rs s ss false h)
          (stopped-Ends (stopped F R B f) os refl))
  Faces-Ends [] (s ∷ ss) f (o ∷ os) e h = absurd (omega arith)
  Faces-Ends (r ∷ rs) [] f (o ∷ os) e h = absurd (omega arith)

  -- Whatever the socket does, the timer of a connection runs after some ticks only if they were at
  -- most fifteen and all found the socket open, so it ends at the sixteenth at the latest. It has
  -- streamed one frame for each tick before the first that found the socket not open, and fifteen
  -- at most; and it has closed the socket once if there were more than fifteen such ticks, else not
  -- at all.
  pub feed_after-live :
      (s : Scenario) (kickoff : ℕ) (opens : List Bool)
      → let f = connected F R B s kickoff in
        ((feed_after f opens).running ≡ live 15 opens)
        × (frames (ticks F R B f opens) ≡ min 15 (leading opens))
        × (closings (ticks F R B f opens) ≡ (if ltb 15 (leading opens) then 1 else 0))
  feed_after-live s kickoff opens =
      let ends =
        Faces-Ends template (scoreline s) (connected F R B s kickoff) opens (same_length s)
          (record {
            running = refl;
            rows = λ i. ap (get_elem? template) (omega arith);
            scores = λ i. ap (get_elem? (scoreline s)) (omega arith);
          }) in
      (ends.running, ends.streamed, ends.shuts)
    where
      same_length : (s : Scenario) → length template ≡ length (scoreline s)
      same_length away = refl
      same_length draw = refl
      same_length home = refl
