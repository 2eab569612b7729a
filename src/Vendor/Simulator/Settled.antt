-- ===== src/Vendor/Simulator/Settled.antt =====
-- When the orders of mock-vendor/server.js are settled: by the last frame of any feed, whoever
-- placed them.
use casuya_live.Common.{
  ℕ, ◌*◌, ◌-◌, ◌/◌, String, Bool, true, false, not, ◌&&◌, Option, none, some, List, [], ◌∷◌, ◌++◌,
  map, ◌≡◌, ◌≢◌, refl, sym, ap, subst, ◌∙◌, ◌⊎◌, inl, inr, arith, ◌==◌, Option-cases, Bool-cases,
  if◌then◌else◌,
}
use casuya_live.Js.{Float, Runtime}
use casuya_live.Vendor.Book.{Buffers}
use casuya_live.Vendor.Book.Conserve.{issued}
use casuya_live.Vendor.Feed.{Feed, tick, ticks, pick_scenario}
use casuya_live.Vendor.Feed.Timer.{settlements, settlements-append, all_open, ticks-settlements}
use casuya_live.Vendor.Simulator.{
  Simulator, feed_of, with_feed, hung_up, fire_feed, Event, dials, fires, hangs_up, trades,
  accept_feed, simulate_step, simulate, started,
}
use casuya_live.Vendor.Simulator.Whole.{
  Balanced, simulate_step-Balanced, simulate-Balanced, started-Balanced,
}
use casuya_live.Vendor.Simulator.Growth.{
  Covers, Covers-le, Grows-Covers, run_effects-Grows, run_effects-Covers, step-Grows,
  simulate-Grows,
}

module _ (F : Float) (R : Runtime F) (B : Buffers F) (forced : Option String) (secret : String)
    (boot_ms : ℕ) where
  open F use {N}

  -- The ticks of one connection's timer in a history, and whether the history neither dials the
  -- connection anew nor hangs it up.
  abbrev pub fires_of : ℕ → List (Event F R B forced secret boot_ms) → List Bool
  fires_of id [] = []
  fires_of id (fires i is_open redis_ready now_ms ∷ es) =
      if i == id then is_open ∷ fires_of id es else fires_of id es
  fires_of id (e ∷ es) = fires_of id es

  abbrev pub is_undisturbed : ℕ → List (Event F R B forced secret boot_ms) → Bool
  is_undisturbed id [] = true
  is_undisturbed id (dials i roll now_ms ∷ es) = not (i == id) && is_undisturbed id es
  is_undisturbed id (hangs_up i ∷ es) = not (i == id) && is_undisturbed id es
  is_undisturbed id (e ∷ es) = is_undisturbed id es

  module _ (id : ℕ) where
    feed_of-append :
        (fs gs : List (ℕ × Feed F R B)) (f : Feed F R B)
        → feed_of F R B id fs ≡ some f
        → feed_of F R B id (fs ++ gs) ≡ some f
    unfolding feed_of
    feed_of-append [] gs f h = absurd (cc)
    feed_of-append ((i, g) ∷ fs) gs f h = ground (arith, feed_of-append fs gs f)

    pub feed_of-concat :
        (fs : List (ℕ × Feed F R B)) (f : Feed F R B)
        → feed_of F R B id fs ≡ none
        → feed_of F R B id (fs ++ (id, f) ∷ []) ≡ some f
    unfolding feed_of
    feed_of-concat [] f h = ground arith
    feed_of-concat ((i, g) ∷ fs) f h = ground (arith, feed_of-concat fs f)

    feed_of-with_feed :
        (j : ℕ) (g : Feed F R B) (fs : List (ℕ × Feed F R B)) (f : Feed F R B)
        → feed_of F R B id fs ≡ some f
        → feed_of F R B id (with_feed F R B j g fs) ≡ some (if j == id then g else f)
    unfolding feed_of with_feed
    feed_of-with_feed j g [] f h = absurd (cc)
    feed_of-with_feed j g ((i, e) ∷ fs) f h = ground (arith, feed_of-with_feed j g fs f)

    feed_of-hung_up :
        (j : ℕ) (fs : List (ℕ × Feed F R B)) (f : Feed F R B)
        → (j == id) ≡ false
        → feed_of F R B id fs ≡ some f
        → feed_of F R B id (map (hung_up F R B j) fs) ≡ some f
    unfolding feed_of
    feed_of-hung_up j [] f n h = absurd (cc)
    feed_of-hung_up j ((i, e) ∷ fs) f n h = ground (arith, feed_of-hung_up j fs f n)

    same_id : (j : ℕ) → (j == id) ≡ true → j ≡ id
    same_id j h = ground arith

    fire_feed-feed_of :
        (j : ℕ) (o redis_ready : Bool) (now_ms : ℕ) (s : Simulator F R B) (f : Feed F R B)
        → feed_of F R B id s.feeds ≡ some f
        → feed_of F R B id (fire_feed F R B forced secret boot_ms j o redis_ready now_ms s).0.feeds
          ≡ some (if j == id then (tick F R B f o).0 else f)
    unfolding fire_feed
    fire_feed-feed_of j o redis_ready now_ms s f h = elim (Option-cases (feed_of F R B j s.feeds)) [
      | inl e ↦ elim (Bool-cases (j == id)) [
        | inl k ↦ absurd (let m = ap (λ i. feed_of F R B i s.feeds) (same_id j k) in cc)
        | inr k ↦ rw (fire_feed, e, k) h
      ]
      | inr (g, e) ↦
          let fs = with_feed F R B j (tick F R B g o).0 s.feeds in
          let s' : Simulator F R B = record {
            feeds = fs;
            vendor = s.vendor;
            settled = s.settled;
          } in
          let same =
            (run_effects-Grows F R B forced secret boot_ms j redis_ready now_ms (tick F R B g o).1
              s').1 in
          rw (fire_feed, e)
            (ap (feed_of F R B id) same
              ∙ feed_of-with_feed j (tick F R B g o).0 s.feeds f h
              ∙ own_feed g e)
    ]
      where
        own_feed :
            (g : Feed F R B)
            → feed_of F R B j s.feeds ≡ some g
            → some (if j == id then (tick F R B g o).0 else f)
              ≡ some (if j == id then (tick F R B f o).0 else f)
        own_feed g e = elim (Bool-cases (j == id)) [
          | inl k ↦
              let m = ap (λ i. feed_of F R B i s.feeds) (same_id j k) in
              let p : g ≡ f = cc in rw k (ap (λ x. some (tick F R B x o).0) p)
          | inr k ↦ rw k refl
        ]

    fire_feed-Covers :
        (o redis_ready : Bool) (now_ms : ℕ) (s : Simulator F R B) (f : Feed F R B)
        → Balanced F R B forced secret boot_ms s
        → feed_of F R B id s.feeds ≡ some f
        → settlements F R B (tick F R B f o).1 ≢ []
        → Covers s.vendor.order_seq
            (fire_feed F R B forced secret boot_ms id o redis_ready now_ms s).0.settled
    unfolding fire_feed
    fire_feed-Covers o redis_ready now_ms s f b e h =
        let fs = with_feed F R B id (tick F R B f o).0 s.feeds in
        let s' : Simulator F R B = record { feeds = fs; vendor = s.vendor; settled = s.settled } in
        rw (fire_feed, e)
          (run_effects-Covers F R B forced secret boot_ms id redis_ready now_ms (tick F R B f o).1
            s' (record { keyed = b.keyed; total = b.total }) h)

    List-cases : (xs : List (ℕ × ℕ)) → (xs ≡ []) ⊎ (xs ≢ [])
    List-cases [] = inl refl
    List-cases (x ∷ xs) = inr (λ e. cc)

    later_settles :
        (f : Feed F R B) (o : Bool) (os : List Bool)
        → settlements F R B (tick F R B f o).1 ≡ []
        → settlements F R B (ticks F R B f (o ∷ os)) ≢ []
        → settlements F R B (ticks F R B (tick F R B f o).0 os) ≢ []
    unfolding ticks
    later_settles f o os e h k = h (settlements-append F R B (tick F R B f o).1 _ ∙ rw (e, k) refl)

    simulate-Covers :
        (es : List (Event F R B forced secret boot_ms)) (s : Simulator F R B) (f : Feed F R B)
        → Balanced F R B forced secret boot_ms s
        → feed_of F R B id s.feeds ≡ some f
        → is_undisturbed id es ≡ true
        → settlements F R B (ticks F R B f (fires_of id es)) ≢ []
        → Covers s.vendor.order_seq (simulate F R B forced secret boot_ms s es).settled
    unfolding simulate
    simulate-Covers [] s f b e q h = absurd (h (unfold ticks in refl))
    simulate-Covers (fires j o ready now ∷ es) s f b e q h =
        let ev = fires j o ready now in
        let t = (simulate_step F R B forced secret boot_ms s ev).0 in
        let rest = fires_of id es in
        let later = fire_feed-feed_of j o ready now s f e in
        let balanced = simulate_step-Balanced F R B forced secret boot_ms s ev b in
        let le = (step-Grows F R B forced secret boot_ms s ev).seq in
        elim (Bool-cases (j == id)) [
          | inl k ↦
              let due : settlements F R B (ticks F R B f (o ∷ rest)) ≢ [] =
                subst (λ c. settlements F R B (ticks F R B f (if c then o ∷ rest else rest)) ≢ []) k
                  h in
              elim (List-cases (settlements F R B (tick F R B f o).1)) [
                | inl not_now ↦ Covers-le _ t.vendor.order_seq _ le (
                    simulate-Covers es t (tick F R B f o).0 balanced (later ∙ rw k refl) q
                      (later_settles f o rest not_now due))
                | inr now_due ↦
                    Grows-Covers F R B forced secret boot_ms s.vendor.order_seq t _
                      (simulate-Grows F R B forced secret boot_ms es t)
                      (subst
                        (λ i.
                          Covers s.vendor.order_seq
                            (fire_feed F R B forced secret boot_ms i o ready now s).0.settled)
                        (sym (same_id j k)) (fire_feed-Covers o ready now s f b e now_due))
              ]
          | inr k ↦
              let due : settlements F R B (ticks F R B f rest) ≢ [] =
                subst (λ c. settlements F R B (ticks F R B f (if c then o ∷ rest else rest)) ≢ []) k
                  h in
              Covers-le _ t.vendor.order_seq _ le
                (simulate-Covers es t f balanced (later ∙ rw k refl) q due)
        ]
    simulate-Covers (dials j roll now ∷ es) s f b e q h =
        let ev = dials j roll now in
        let t = (simulate_step F R B forced secret boot_ms s ev).0 in
        Covers-le _ t.vendor.order_seq _ (step-Grows F R B forced secret boot_ms s ev).seq (
          simulate-Covers es t f (simulate_step-Balanced F R B forced secret boot_ms s ev b)
            (feed_of-append s.feeds _ f e) (ground (arith, q)) h)
    simulate-Covers (hangs_up j ∷ es) s f b e q h =
        let ev = hangs_up j in
        let t = (simulate_step F R B forced secret boot_ms s ev).0 in
        Covers-le _ t.vendor.order_seq _ (step-Grows F R B forced secret boot_ms s ev).seq (
          simulate-Covers es t f (simulate_step-Balanced F R B forced secret boot_ms s ev b)
            (feed_of-hung_up j s.feeds f (ground (arith, q)) e) (ground (arith, q)) h)
    simulate-Covers (trades j raw now ∷ es) s f b e q h =
        let ev = trades j raw now in
        let t = (simulate_step F R B forced secret boot_ms s ev).0 in
        Covers-le _ t.vendor.order_seq _ (step-Grows F R B forced secret boot_ms s ev).seq
          (simulate-Covers es t f (simulate_step-Balanced F R B forced secret boot_ms s ev b) e q h)

  -- After any history an ingestor connects under a new id, and is not hung up. Once its socket has
  -- been open at each of the first fifteen ticks of its timer, whatever happened in between, every
  -- order that was filled before it connected has been settled: the names of the orders that
  -- settlements have taken from the book begin with those of all the orders filled by then, in
  -- the order of their fills.
  pub dials-settled :
      (before after : List (Event F R B forced secret boot_ms)) (id : ℕ) (roll : N) (now_ms : ℕ)
      → let s = simulate F R B forced secret boot_ms (started F R B) before in
        feed_of F R B id s.feeds ≡ none
        → is_undisturbed id after ≡ true
        → all_open 15 (fires_of id after) ≡ true
        → let t = simulate F R B forced secret boot_ms s (dials id roll now_ms ∷ after) in
          (later : List String) × (t.settled ≡ issued s.vendor.order_seq ++ later)
  unfolding simulate simulate_step accept_feed
  dials-settled before after id roll now_ms fresh q opens =
      let s = simulate F R B forced secret boot_ms (started F R B) before in
      let ev = dials id roll now_ms in
      let f = accept_feed F R B forced secret boot_ms roll now_ms in
      let t = (simulate_step F R B forced secret boot_ms s ev).0 in
      let b =
        simulate-Balanced F R B forced secret boot_ms (started F R B) before
          (started-Balanced F R B forced secret boot_ms) in
      let once =
        ticks-settlements F R B (pick_scenario F R B forced roll) (now_ms / 1000 - 31 * 60)
          (fires_of id after) in
      simulate-Covers id after t f (simulate_step-Balanced F R B forced secret boot_ms s ev b)
        (feed_of-concat id s.feeds f fresh) q
        (λ none_due. absurd (let shown = sym none_due ∙ (rw opens at once) in cc))
