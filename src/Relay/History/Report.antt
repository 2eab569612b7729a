-- ===== src/Relay/History/Report.antt =====
-- The outcomes that the statistics report after a history of messages.
use casuya_live.Common.{
  eq_iff, ℕ, zero, suc, ◌+◌, ◌*◌, ◌<◌, ◌^◌, String, ◌&&◌, Option, none, some, List, [], ◌∷◌, ◌≡◌,
  refl, ap, ◌∙◌, ◌⊎◌, inl, inr, arith, subst, ◌===◌, decimal, decimal_not_empty, is_empty,
  if◌then◌else◌, All, Bool-cases,
}
use casuya_live.Js.{Float, Runtime, Value, num, member?}
use casuya_live.Relay.Bus.{
  Env, ws_channels, h_incr_by_float, h_incr_by, h_set, Effect, sends, commands, outcomes_hash,
}
use casuya_live.Relay.Bus.Ledger.{added_to, by_if}
use casuya_live.Relay.Http.Stats.{Hash, stats_value, outcomes_value}
use casuya_live.Relay.History.{
  Redis, RedisLaws, ReadLaws, outcome, apply, Message, listeners, heard_once, call_listeners,
  relay_run,
}
use casuya_live.Relay.History.Counts.{counted, total, IsOrderly, Spares, Heard-IsOrderly}

suc_times : (n x : ℕ) → suc n * x ≡ x + n * x
suc_times n x = omega arith

module _ (F : Float) (R : Runtime F) (D : Redis F.N) (laws : RedisLaws D) (env : Env) where
  open F use {N, of_ℕ, of_text}
  open D use {Store, h_get}

  -- A field of the ledger holds a number; a field that is missing stands for zero.
  abbrev pub Holds : String → ℕ → Store → Type 0
  Holds k n s =
      (h_get s outcomes_hash k ≡ some (decimal n)) ⊎ ((h_get s outcomes_hash k ≡ none) × (n ≡ 0))

  Holds-same :
      (k : String) (n : ℕ) (s t : Store)
      → h_get t outcomes_hash k ≡ h_get s outcomes_hash k
      → Holds k n s
      → Holds k n t
  Holds-same k n s t e (inl h) = inl (e ∙ h)
  Holds-same k n s t e (inr (h, z)) = inr (e ∙ h, z)

  Holds-incr :
      (k : String) (m n : ℕ) (s : Store)
      → m + n < 2 ^ 63
      → Holds k m s
      → Holds k (m + n) (D.run (h_incr_by outcomes_hash k n) s)
  Holds-incr k m n s b (inl h) = inl (laws.get-h_incr_by_some s outcomes_hash k m n h b)
  Holds-incr k m n s b (inr (h, z)) =
      inl (laws.get-h_incr_by_none s outcomes_hash k n h ∙ ap (λ i. some (decimal i)) (omega arith))

  Holds-step :
      (j f k : String) (m n : ℕ) (s : Store)
      → m + by_if (j === outcomes_hash && f === k) n < 2 ^ 63
      → Holds k m s
      → Holds k (m + by_if (j === outcomes_hash && f === k) n) (D.run (h_incr_by j f n) s)
  Holds-step j f k m n s b h = elim (Bool-cases (j === outcomes_hash && f === k)) [
    | inl e ↦
        let p : j ≡ outcomes_hash = ground (arith, eq_iff j outcomes_hash) in
        let q : f ≡ k = ground (arith, eq_iff f k) in
        let fits : m + n < 2 ^ 63 = ground arith in rw (e, p, q) (Holds-incr k m n s fits h)
    | inr e ↦ rw e (
        subst (λ i. Holds k i (D.run (h_incr_by j f n) s)) {x = m} {y = m + 0} (omega arith)
          (Holds-same k m s (D.run (h_incr_by j f n) s)
            (laws.get-h_incr_by_other s j f outcomes_hash k n e) h))
  ]

  -- The commands of a callback add up in the field.
  apply-Holds :
      (k : String) (es : List (Effect N)) (m : ℕ) (s : Store)
      → All (Spares F R env k) es
      → m + added_to outcomes_hash k es < 2 ^ 63
      → Holds k m s
      → Holds k (m + added_to outcomes_hash k es) (apply D s es)
  unfolding apply added_to
  apply-Holds k [] m s a b h = subst (λ i. Holds k i s) (omega arith) h
  apply-Holds k (sends id text ∷ es) m s a b h = apply-Holds k es m s a.1 b h
  apply-Holds k (commands (h_set j f n) ∷ es) m s a b h =
      let t = D.run (h_set j f n) s in
      apply-Holds k es m t a.1 b
        (Holds-same k m s t (laws.get-h_set s j f outcomes_hash k n ∙ rw a.0 refl) h)
  apply-Holds k (commands (h_incr_by_float j f x) ∷ es) m s a b h =
      let t = D.run (h_incr_by_float j f x) s in
      apply-Holds k es m t a.1 b
        (Holds-same k m s t (laws.get-h_incr_by_float_other s j f outcomes_hash k x a.0) h)
  apply-Holds k (commands (h_incr_by j f n) ∷ es) m s a b h =
      let added = by_if (j === outcomes_hash && f === k) n in
      let t = D.run (h_incr_by j f n) s in
      subst (λ i. Holds k i (apply D t es)) (omega arith)
        (apply-Holds k es (m + added) t a.1 (omega arith) (Holds-step j f k m n s (omega arith) h))

  -- A field of the ledger, and the result that it counts.
  pub record Counter (k : String) : Type 0 where
    pub spared :
        (m : Message) → IsOrderly F R env m → All (Spares F R env k) (heard_once F R env m).effects
    pub adds :
        (m : Message)
        → IsOrderly F R env m
        → added_to outcomes_hash k (heard_once F R env m).effects ≡ counted F R env k m

  won-Counter : Counter "won"
  won-Counter = record {
    spared = λ m o. (Heard-IsOrderly F R env m o).spared "won" refl;
    adds = λ m o. (Heard-IsOrderly F R env m o).won;
  }

  lost-Counter : Counter "lost"
  lost-Counter = record {
    spared = λ m o. (Heard-IsOrderly F R env m o).spared "lost" refl;
    adds = λ m o. (Heard-IsOrderly F R env m o).lost;
  }

  module _ (k : String) (c : Counter k) where
    call_listeners-Holds :
        (n : ℕ) (m : Message) (i : ℕ) (s : Store)
        → IsOrderly F R env m
        → i + n * counted F R env k m < 2 ^ 63
        → Holds k i s
        → Holds k (i + n * counted F R env k m) (call_listeners F R D env n m s)
    unfolding call_listeners
    call_listeners-Holds zero m i s o b h = subst (λ j. Holds k j s) (omega arith) h
    call_listeners-Holds (suc n) m i s o b h =
        let es = (heard_once F R env m).effects in
        let here = c.adds m o in
        let more : suc n * counted F R env k m ≡ counted F R env k m + n * counted F R env k m =
          suc_times n (counted F R env k m) in
        let first = apply-Holds k es i s (c.spared m o) (omega arith) h in
        let later =
          call_listeners-Holds n m (i + added_to outcomes_hash k es) (apply D s es) o (omega arith)
            first in
        rw (Heard-IsOrderly F R env m o).returned
          (subst (λ j. Holds k j (call_listeners F R D env n m (apply D s es))) (omega arith) later)

    relay_run-Holds :
        (ms : List Message) (i : ℕ) (s : Store)
        → All (IsOrderly F R env) ms
        → i + total F R env k ms < 2 ^ 63
        → Holds k i s
        → Holds k (i + total F R env k ms) (relay_run F R D env s ms)
    unfolding relay_run
    relay_run-Holds [] i s a b h = subst (λ j. Holds k j s) (omega arith) h
    relay_run-Holds (m ∷ ms) i s a b h =
        let n = listeners m.channel (ws_channels env) in
        let t = call_listeners F R D env n m s in
        subst (λ j. Holds k j (relay_run F R D env t ms)) (omega arith)
          (relay_run-Holds ms (i + n * counted F R env k m) t a.1 (omega arith)
            (call_listeners-Holds n m i s a.0 (omega arith) h))

  module _ (read : ReadLaws F) (channels : List String) (model : Hash) (heartbeat : Option String)
      (pnl : Hash) (now_ms : ℕ) (features : Value N) (weights : List N)
      (names : List (Value N)) where
    shown_count :
        (s : Store) (n : ℕ) (text : Option String)
        → n < 2 ^ 53
        → (text ≡ some (decimal n)) ⊎ ((text ≡ none) × (n ≡ 0))
        → elim text [
          | none ↦ num (of_ℕ 0)
          | some t ↦ num (if is_empty t then of_ℕ 0 else of_text t)
        ]
          ≡ num (of_ℕ n)
    shown_count s n text b (inl e) = rw (e, decimal_not_empty n) (ap num (read.reads n b))
    shown_count s n text b (inr (e, z)) = rw (e, z) refl

    abbrev outcome_in : Store → String → Value N
    outcome_in = outcome F R D channels model heartbeat pnl now_ms features weights names

    -- From a store without a ledger, after any history of orderly messages that between them settle
    -- fewer than 2^53 orders, the statistics report as won and as lost exactly the orders with that
    -- result in the messages of the ledger's channels, each message counted once for each time that
    -- its channel is named among WS_CHANNELS.
    pub stats-total :
        (ms : List Message) (s : Store)
        → All (IsOrderly F R env) ms
        → h_get s outcomes_hash "won" ≡ none
        → h_get s outcomes_hash "lost" ≡ none
        → total F R env "won" ms < 2 ^ 53
        → total F R env "lost" ms < 2 ^ 53
        → let t = relay_run F R D env s ms in
          (outcome_in t "won" ≡ num (of_ℕ (total F R env "won" ms)))
          × (outcome_in t "lost" ≡ num (of_ℕ (total F R env "lost" ms)))
    unfolding member? stats_value outcomes_value
    stats-total ms s a no_won no_lost bw bl =
        let t = relay_run F R D env s ms in
        let won = relay_run-Holds "won" won-Counter ms 0 s a (omega arith) (inr (no_won, refl)) in
        let lost =
          relay_run-Holds "lost" lost-Counter ms 0 s a (omega arith) (inr (no_lost, refl)) in
        (
          shown_count t (total F R env "won" ms) (h_get t outcomes_hash "won") bw
              (subst (λ i. Holds "won" i t) (omega arith) won),
          shown_count t (total F R env "lost" ms) (h_get t outcomes_hash "lost") bl
              (subst (λ i. Holds "lost" i t) (omega arith) lost),
        )
