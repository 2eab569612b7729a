-- ===== src/Relay/History/Freshness.antt =====
-- The freshness of a channel that the statistics report after a history of messages.
use casuya_live.Common.{
  ℕ, zero, suc, ◌<◌, ◌^◌, String, true, Option, none, some, List, [], ◌∷◌, ◌++◌, ◌≡◌, refl, ap, ◌∙◌,
  inl, inr, arith, eq_iff, any, ◌===◌, decimal, if◌then◌else◌, All, Bool-cases,
}
use casuya_live.Js.{Float, Runtime, Value, num, member?, end}
use casuya_live.Relay.Bus.{
  Env, ws_channels, Command, h_incr_by_float, h_incr_by, h_set, Effect, sends, commands,
  staleness_hash,
}
use casuya_live.Relay.Bus.Ledger.{IsSend, noting}
use casuya_live.Relay.Http.Stats.{Hash, channel_info, stats_value}
use casuya_live.Relay.Http.Stats.Answers.{find_field-channels_info}
use casuya_live.Relay.History.{
  Redis, RedisLaws, ReadLaws, apply, Message, listeners, heard_once, call_listeners, relay_run,
  last_seen,
}
use casuya_live.Relay.History.Counts.{IsOrderly, IsCount, Heard-IsOrderly}

-- The time of the last message on a channel.
abbrev pub last_at : String → List Message → Option ℕ
last_at ch [] = none
last_at ch (m ∷ ms) = elim (last_at ch ms) [
  | some t ↦ some t
  | none ↦ if m.channel === ch then some m.now_ms else none
]

abbrev or_before : Option ℕ → Option String → Option String
or_before none before = before
or_before (some t) before = some (decimal t)

named : (ch : String) (chs : List String) → any (λ c. c === ch) chs ≡ true → 0 < listeners ch chs
named ch [] h = absurd (cc)
named ch (c ∷ chs) h = ground (arith, named ch chs)

module _ (F : Float) (R : Runtime F) (D : Redis F.N) (laws : RedisLaws D) (env : Env) where
  open F use {N, of_ℕ, of_text}
  open D use {Store, h_get}

  abbrev stale : Store → String → Option String
  stale s k = h_get s staleness_hash k

  apply-sends :
      (es fs : List (Effect N)) (s : Store) → All IsSend es → apply D s (es ++ fs) ≡ apply D s fs
  unfolding apply
  apply-sends [] fs s h = refl
  apply-sends (sends id text ∷ es) fs s h = apply-sends es fs s h.1
  apply-sends (commands c ∷ es) fs s h = absurd h.0

  stale-noting :
      (k ch : String) (now_ms : ℕ) (cs : List (Command N)) (s : Store)
      → All (IsCount F R env) cs
      → stale (apply D s (noting F R cs ch now_ms)) k
        ≡ (if ch === k then some (decimal now_ms) else stale s k)
  unfolding apply
  stale-noting k ch now_ms [] s h = laws.get-h_set s staleness_hash ch staleness_hash k now_ms
  stale-noting k ch now_ms (h_incr_by j f n ∷ cs) s h =
      stale-noting k ch now_ms cs (D.run (h_incr_by j f n) s) h.1
      ∙ ap (λ o. if ch === k then some (decimal now_ms) else o)
          (laws.get-h_incr_by_other s j f staleness_hash k n (rw h.0 refl))
  stale-noting k ch now_ms (h_incr_by_float j f x ∷ cs) s h =
      stale-noting k ch now_ms cs (D.run (h_incr_by_float j f x) s) h.1
      ∙ ap (λ o. if ch === k then some (decimal now_ms) else o)
          (laws.get-h_incr_by_float_other s j f staleness_hash k x (rw h.0.0 refl))
  stale-noting k ch now_ms (h_set j f n ∷ cs) s h = absurd h.0

  stale-heard :
      (k : String) (m : Message) (s : Store)
      → IsOrderly F R env m
      → stale (apply D s (heard_once F R env m).effects) k
        ≡ (if m.channel === k then some (decimal m.now_ms) else stale s k)
  stale-heard k m s o =
      let h = Heard-IsOrderly F R env m o in
      ap (λ es. stale (apply D s es) k) h.effects
      ∙ ap (λ t. stale t k)
          (apply-sends h.sent (noting F R h.counts m.channel m.now_ms) s h.sends_first)
      ∙ stale-noting k m.channel m.now_ms h.counts s h.counts_then

  call_listeners-zero : (m : Message) (s : Store) → call_listeners F R D env zero m s ≡ s
  unfolding call_listeners
  call_listeners-zero m s = refl

  call_listeners-suc :
      (n : ℕ) (m : Message) (s : Store)
      → IsOrderly F R env m
      → call_listeners F R D env (suc n) m s
        ≡ call_listeners F R D env n m (apply D s (heard_once F R env m).effects)
  unfolding call_listeners
  call_listeners-suc n m s o = rw (Heard-IsOrderly F R env m o).returned refl

  -- However many listeners, they note one time.
  stale-call_listeners :
      (k : String) (n : ℕ) (m : Message) (s : Store)
      → IsOrderly F R env m
      → stale (call_listeners F R D env (suc n) m s) k
        ≡ (if m.channel === k then some (decimal m.now_ms) else stale s k)
  stale-call_listeners k zero m s o =
      ap (λ x. stale x k) (call_listeners-suc zero m s o ∙ call_listeners-zero m _)
      ∙ stale-heard k m s o
  stale-call_listeners k (suc n) m s o =
      let t = apply D s (heard_once F R env m).effects in
      ap (λ x. stale x k) (call_listeners-suc (suc n) m s o)
      ∙ stale-call_listeners k n m t o
      ∙ ground (arith, stale-heard k m s o)

  stale-message :
      (k : String) (m : Message) (s : Store)
      → IsOrderly F R env m
      → any (λ c. c === k) (ws_channels env) ≡ true
      → stale (call_listeners F R D env (listeners m.channel (ws_channels env)) m s) k
        ≡ (if m.channel === k then some (decimal m.now_ms) else stale s k)
  stale-message k m s o h = go (listeners m.channel (ws_channels env)) refl
    where
      go :
          (n : ℕ)
          → listeners m.channel (ws_channels env) ≡ n
          → stale (call_listeners F R D env n m s) k
            ≡ (if m.channel === k then some (decimal m.now_ms) else stale s k)
      go (suc n) e = stale-call_listeners k n m s o
      go zero e = elim (Bool-cases (m.channel === k)) [
        | inr other ↦ rw other (unfold call_listeners in refl)
        | inl same ↦
            let p : m.channel ≡ k = (eq_iff m.channel k).0 same in
            let q = ap (λ c. listeners c (ws_channels env)) p in
            absurd (omega (arith, named k (ws_channels env) h, q, e))
      ]

  stale-relay_run :
      (k : String) (ms : List Message) (s : Store)
      → All (IsOrderly F R env) ms
      → any (λ c. c === k) (ws_channels env) ≡ true
      → stale (relay_run F R D env s ms) k ≡ or_before (last_at k ms) (stale s k)
  unfolding relay_run
  stale-relay_run k [] s a h = refl
  stale-relay_run k (m ∷ ms) s a h =
      let t = call_listeners F R D env (listeners m.channel (ws_channels env)) m s in
      stale-relay_run k ms t a.1 h ∙ ground (arith, stale-message k m s a.0 h)

  module _ (read : ReadLaws F) (model : Hash) (heartbeat : Option String) (pnl : Hash) (now_ms : ℕ)
      (features : Value N) (weights : List N) (names : List (Value N)) where
    seen_ms :
        (t : ℕ)
        → 0 < t
        → t < 2 ^ 53
        → member? (channel_info F R now_ms (some (decimal t))) "last_seen_ms" ≡ num (of_ℕ t)
    unfolding channel_info member?
    seen_ms t p b = rw (read.reads t b, read.eq_self t b, read.eq_zero t p b) refl

    -- After any history of orderly messages, whatever Redis held before it, the statistics report a
    -- channel of WS_CHANNELS as last seen at the time of the last message on it, if there was one;
    -- times are above zero and below 2^53.
    pub stats-last_at :
        (ms : List Message) (s : Store) (ch : String) (t : ℕ)
        → All (IsOrderly F R env) ms
        → any (λ c. c === ch) (ws_channels env) ≡ true
        → last_at ch ms ≡ some t
        → 0 < t
        → t < 2 ^ 53
        → last_seen F R D
            (ws_channels env)
            model
            heartbeat
            pnl
            now_ms
            features
            weights
            names
            (relay_run F R D env s ms)
            ch
          ≡ num (of_ℕ t)
    unfolding member? stats_value
    stats-last_at ms s ch t a h e p b =
        let after = relay_run F R D env s ms in
        let held : stale after ch ≡ some (decimal t) =
          stale-relay_run ch ms s a h ∙ ap (λ o. or_before o (stale s ch)) e in
        let info =
          find_field-channels_info F R now_ms (h_get after staleness_hash) end (ws_channels env) ch
            h in
        ap (λ v. member? v "last_seen_ms") (info ∙ ap (channel_info F R now_ms) held)
        ∙ seen_ms t p b
