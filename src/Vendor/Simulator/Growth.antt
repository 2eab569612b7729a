-- ===== src/Vendor/Simulator/Growth.antt =====
-- The orders of mock-vendor/server.js, and those that are settled, are only added to.
use casuya_live.Common.{
  ℕ, zero, suc, ◌+◌, ◌≤◌, ◌-◌, String, Bool, Option, List, [], ◌∷◌, ◌++◌, ◌≡◌, ◌≢◌, refl, sym, ap,
  subst, ◌∙◌, inl, inr, arith, append_assoc, append-nil, Option-cases,
}
use casuya_live.Js.{Float, Runtime}
use casuya_live.Vendor.Book.{
  Buffers, Vendor, orders_of, ids_of, cycle_at, publish_orders, publish_settlement, order_name,
}
use casuya_live.Vendor.Book.Conserve.{issued, ids_of-orders_of, Places, trade_message-Places}
use casuya_live.Vendor.Feed.{Effect, streams, settles, closes, score_value, tick}
use casuya_live.Vendor.Feed.Timer.{settlements}
use casuya_live.Vendor.Simulator.{
  Simulator, feed_of, with_feed, settle_with, run_effects, fire_feed, Event, dials, fires, hangs_up,
  trades, simulate_step, simulate,
}
use casuya_live.Vendor.Simulator.Whole.{Balanced}

-- The names of the first n orders stand at the front of the settled ones.
abbrev pub Covers : ℕ → List String → Type 0
Covers n settled = (later : List String) × (settled ≡ issued n ++ later)

Covers-append : (n : ℕ) (xs ys : List String) → Covers n xs → Covers n (xs ++ ys)
Covers-append n xs ys (later, e) =
    (later ++ ys, ap (λ l. l ++ ys) e ∙ append_assoc (issued n) later ys)

issued-add : (n k : ℕ) → Covers n (issued (k + n))
unfolding issued
issued-add n zero = ([], ap issued {x = 0 + n} {y = n} (omega arith) ∙ sym (append-nil (issued n)))
issued-add n (suc k) =
    let (later, e) = issued-add n k in
    subst (λ m. Covers n (issued m)) {x = suc (k + n)} {y = suc k + n} (omega arith)
      (Covers-append n (issued (k + n)) (order_name (suc (k + n)) ∷ []) (later, e))

pub Covers-le : (m n : ℕ) (settled : List String) → m ≤ n → Covers n settled → Covers m settled
Covers-le m n settled h (later, e) =
    let (between, k) = issued-add m (n - m) in
    let front : issued n ≡ issued m ++ between = ap issued (omega arith) ∙ k in
    (between ++ later, e ∙ ap (λ l. l ++ later) front ∙ append_assoc (issued m) between later)

module _ (F : Float) (R : Runtime F) (B : Buffers F) (forced : Option String) (secret : String)
    (boot_ms : ℕ) where
  open F use {N}

  -- Orders are only added, and so are settled ones.
  pub record Grows (s t : Simulator F R B) : Type 0 where
    pub seq : s.vendor.order_seq ≤ t.vendor.order_seq
    pub more : List String
    pub grown : t.settled ≡ s.settled ++ more

  Grows-refl : (s : Simulator F R B) → Grows s s
  Grows-refl s = record { seq = omega arith; more = []; grown = sym (append-nil s.settled) }

  Grows-trans : (s t u : Simulator F R B) → Grows s t → Grows t u → Grows s u
  Grows-trans s t u g h = record {
    seq = omega (arith, g.seq, h.seq);
    more = g.more ++ h.more;
    grown = h.grown ∙ ap (λ l. l ++ h.more) g.grown ∙ append_assoc s.settled g.more h.more;
  }

  pub Grows-Covers :
      (n : ℕ) (s t : Simulator F R B) → Grows s t → Covers n s.settled → Covers n t.settled
  Grows-Covers n s t g c = subst (Covers n) (sym g.grown) (Covers-append n s.settled g.more c)

  publish-seq :
      (redis_ready : Bool) (v : Vendor N) (cycle : ℕ) (score : ℕ × ℕ)
      → (publish_settlement F R B redis_ready v cycle (score_value F R B score)).0.order_seq
        ≡ v.order_seq
  unfolding publish_settlement publish_orders
  publish-seq redis_ready v cycle score = ground arith

  settle_with-Grows :
      (redis_ready : Bool) (now_ms : ℕ) (score : ℕ × ℕ) (s : Simulator F R B)
      → Grows s (settle_with F R B forced secret boot_ms redis_ready now_ms score s).0
  unfolding settle_with
  settle_with-Grows redis_ready now_ms score s = record {
    seq = omega (arith, publish-seq redis_ready s.vendor (cycle_at boot_ms now_ms) score);
    more = ids_of (orders_of s.vendor.book);
    grown = refl;
  }

  -- A settlement settles every order that there is.
  settle_with-Covers :
      (redis_ready : Bool) (now_ms : ℕ) (score : ℕ × ℕ) (s : Simulator F R B)
      → Balanced F R B forced secret boot_ms s
      → Covers s.vendor.order_seq
          (settle_with F R B forced secret boot_ms redis_ready now_ms score s).0.settled
  unfolding settle_with
  settle_with-Covers redis_ready now_ms score s b = (
    [],
    ap (◌++◌ s.settled) (ids_of-orders_of s.vendor.book b.keyed)
        ∙ b.total
        ∙ sym (append-nil (issued s.vendor.order_seq)),
  )

  pub run_effects-Grows :
      (id : ℕ) (redis_ready : Bool) (now_ms : ℕ) (es : List (Effect F R B)) (s : Simulator F R B)
      → let t = (run_effects F R B forced secret boot_ms id redis_ready now_ms s es).0 in
        Grows s t × (t.feeds ≡ s.feeds)
  unfolding run_effects
  run_effects-Grows id redis_ready now_ms [] s = (Grows-refl s, refl)
  run_effects-Grows id redis_ready now_ms (settles score ∷ es) s =
      let t = (settle_with F R B forced secret boot_ms redis_ready now_ms score s).0 in
      let (later, same) = run_effects-Grows id redis_ready now_ms es t in
      (
        Grows-trans s t _ (settle_with-Grows redis_ready now_ms score s) later,
        same ∙ (unfold settle_with in refl),
      )
  run_effects-Grows id redis_ready now_ms (streams text ∷ es) s =
      run_effects-Grows id redis_ready now_ms es s
  run_effects-Grows id redis_ready now_ms (closes ∷ es) s =
      run_effects-Grows id redis_ready now_ms es s

  pub run_effects-Covers :
      (id : ℕ) (redis_ready : Bool) (now_ms : ℕ) (es : List (Effect F R B)) (s : Simulator F R B)
      → Balanced F R B forced secret boot_ms s
      → settlements F R B es ≢ []
      → Covers s.vendor.order_seq
          (run_effects F R B forced secret boot_ms id redis_ready now_ms s es).0.settled
  unfolding run_effects
  run_effects-Covers id redis_ready now_ms [] s b h = absurd (h refl)
  run_effects-Covers id redis_ready now_ms (settles score ∷ es) s b h =
      let t = (settle_with F R B forced secret boot_ms redis_ready now_ms score s).0 in
      Grows-Covers s.vendor.order_seq t _ (run_effects-Grows id redis_ready now_ms es t).0
        (settle_with-Covers redis_ready now_ms score s b)
  run_effects-Covers id redis_ready now_ms (streams text ∷ es) s b h =
      run_effects-Covers id redis_ready now_ms es s b h
  run_effects-Covers id redis_ready now_ms (closes ∷ es) s b h =
      run_effects-Covers id redis_ready now_ms es s b h

  Places-seq : (v w : Vendor N) → Places F R B secret boot_ms v w → v.order_seq ≤ w.order_seq
  Places-seq v w (inl e) = omega (arith, ap (λ (x : Vendor N). x.order_seq) e)
  Places-seq v w (inr (order, now_ms, e)) = omega (arith, ap (λ (x : Vendor N). x.order_seq) e)

  fire_feed-Grows :
      (id : ℕ) (is_open redis_ready : Bool) (now_ms : ℕ) (s : Simulator F R B)
      → Grows s (fire_feed F R B forced secret boot_ms id is_open redis_ready now_ms s).0
  unfolding fire_feed
  fire_feed-Grows id is_open redis_ready now_ms s = elim (Option-cases (feed_of F R B id s.feeds)) [
    | inl e ↦ rw (fire_feed, e) (Grows-refl s)
    | inr (f, e) ↦
        let fs = with_feed F R B id (tick F R B f is_open).0 s.feeds in
        let s' : Simulator F R B = record { feeds = fs; vendor = s.vendor; settled = s.settled } in
        let g = (run_effects-Grows id redis_ready now_ms (tick F R B f is_open).1 s').0 in
        rw (fire_feed, e) (record { seq = g.seq; more = g.more; grown = g.grown })
  ]

  pub step-Grows :
      (s : Simulator F R B) (e : Event F R B forced secret boot_ms)
      → Grows s (simulate_step F R B forced secret boot_ms s e).0
  unfolding simulate_step
  step-Grows s (dials id roll now_ms) = record {
    seq = omega arith;
    more = [];
    grown = sym (append-nil s.settled);
  }
  step-Grows s (fires id is_open redis_ready now_ms) =
      fire_feed-Grows id is_open redis_ready now_ms s
  step-Grows s (hangs_up id) = record {
    seq = omega arith;
    more = [];
    grown = sym (append-nil s.settled);
  }
  step-Grows s (trades id raw now_ms) = record {
    seq = Places-seq s.vendor _ (trade_message-Places F R B secret boot_ms s.vendor raw now_ms);
    more = [];
    grown = sym (append-nil s.settled);
  }

  pub simulate-Grows :
      (es : List (Event F R B forced secret boot_ms)) (s : Simulator F R B)
      → Grows s (simulate F R B forced secret boot_ms s es)
  unfolding simulate
  simulate-Grows [] s = Grows-refl s
  simulate-Grows (e ∷ es) s =
      let t = (simulate_step F R B forced secret boot_ms s e).0 in
      Grows-trans s t _ (step-Grows s e) (simulate-Grows es t)
