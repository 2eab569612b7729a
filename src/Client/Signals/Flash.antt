-- ===== src/Client/Signals/Flash.antt =====
-- What every state of the signal stream keeps, with seedings at any moment: the bound of the queue, and
-- a timer for the flash.
use casuya_live.Common.{
  ℕ, ◌≤◌, String, true, Option, none, some, List, [], ◌∷◌, ◌++◌, ◌≡◌, ◌≢◌, refl, subst, ◌⊎◌, inl,
  inr, arith, length, keep, not, length-take-le, Bool-cases, Option-cases,
}
use casuya_live.Js.{Float, Runtime, Value, arr, items, member, member?, truthy}
use casuya_live.Client.Recent.{push}
use casuya_live.Client.Signals.{
  Shown, Timer, same_order, knows, ends, ends_any, Stream, seed_queue, shown_if, seed_items,
  seed_signals, queue_frame, is_signal, receive_signal, receive_text, is_shown, ended, fire_timer,
  Event, hears, seeds, fires, stream_after,
}

module _ (F : Float) (R : Runtime F) where
  open F use {N}
  open R use {parse}

  abbrev Ends : Timer N → Shown N → Type 0
  Ends ends_any cur = Unit
  Ends (ends t) cur = t ≡ cur

  -- Some timer that is set will end the flash of this identifier.
  abbrev WillEnd : List (Timer N) → Shown N → Type 0
  WillEnd [] cur = ⊥
  WillEnd (t ∷ ts) cur = Ends t cur ⊎ WillEnd ts cur

  abbrev IsTimed : List (Timer N) → Option (Shown N) → Type 0
  IsTimed ts none = Unit
  IsTimed ts (some cur) = WillEnd ts cur

  record IsKept (st : Stream N) : Type 0 where
    bounded : length st.signals ≤ 60
    timed : IsTimed st.timers st.flash

  WillEnd-last :
      (ts : List (Timer N)) (t : Timer N) (cur : Shown N) → Ends t cur → WillEnd (ts ++ t ∷ []) cur
  WillEnd-last [] t cur h = inl h
  WillEnd-last (s ∷ ts) t cur h = inr (WillEnd-last ts t cur h)

  seed_queue-le : (prev list : List (Value N)) → length (seed_queue F R prev list) ≤ 60
  unfolding seed_queue
  seed_queue-le [] list = length-take-le 60 list
  seed_queue-le (p ∷ prev) list =
      length-take-le 60 ((p ∷ prev) ++ keep (λ s. not (knows F R (p ∷ prev) s)) list)

  shown_if-IsTimed :
      (ts : List (Timer N)) (k : ℕ) (id : Value N)
      → IsTimed (ts ++ ends_any ∷ []) (shown_if F R k id)
  shown_if-IsTimed ts k id = elim (Bool-cases (truthy F id)) [
    | inl e ↦ rw e (WillEnd-last ts ends_any (k, id) tt)
    | inr e ↦ rw e tt
  ]

  seed_items-IsKept :
      (st : Stream N) (list : List (Value N)) → IsKept st → IsKept (seed_items F R st list)
  seed_items-IsKept st [] h = h
  seed_items-IsKept st (s ∷ list) h = record {
    bounded = seed_queue-le st.signals (s ∷ list);
    timed = shown_if-IsTimed st.timers st.calls (member? s "order_id");
  }

  seed_signals-IsKept :
      (st : Stream N) (list : Value N) → IsKept st → IsKept (seed_signals F R st list)
  unfolding seed_signals
  seed_signals-IsKept st (arr list) h = seed_items-IsKept st (items list) h
  seed_signals-IsKept st _ h = h

  queue_frame-IsKept : (st : Stream N) (frame : Value N) → IsKept (queue_frame F R st frame)
  unfolding push
  queue_frame-IsKept st frame = record {
    bounded = length-take-le 60 (frame ∷ keep (λ y. not (same_order F R y frame)) st.signals);
    timed = WillEnd-last st.timers _ _ refl;
  }

  receive_signal-IsKept :
      (st : Stream N) (frame : Value N) → IsKept st → IsKept (receive_signal F R st frame)
  unfolding receive_signal
  receive_signal-IsKept st frame h = elim (Option-cases (member frame "type")) [
    | inl e ↦ rw (receive_signal, e) h
    | inr (t, e) ↦ elim (Bool-cases (is_signal F R frame)) [
      | inl k ↦ rw (receive_signal, e, k) (queue_frame-IsKept st frame)
      | inr k ↦ rw (receive_signal, e, k) h
    ]
  ]

  receive_text-IsKept :
      (st : Stream N) (text : String) → IsKept st → IsKept (receive_text F R st text)
  unfolding receive_text
  receive_text-IsKept st text h = elim (Option-cases (parse text)) [
    | inl e ↦ rw (receive_text, e) h
    | inr (frame, e) ↦ rw (receive_text, e) (receive_signal-IsKept st frame h)
  ]

  is_shown_self : (cur : Shown N) → is_shown F R cur cur ≡ true
  is_shown_self (k, id) = ground arith

  -- A timer that leaves the flash was not the one that will end it.
  ended-IsTimed :
      (t : Timer N) (ts : List (Timer N)) (cur : Option (Shown N))
      → IsTimed (t ∷ ts) cur
      → IsTimed ts (ended F R t cur)
  ended-IsTimed ends_any ts cur h = tt
  ended-IsTimed (ends u) ts none h = tt
  ended-IsTimed (ends u) ts (some cur) (inl e) = rw (e, is_shown_self cur) tt
  ended-IsTimed (ends u) ts (some cur) (inr h) = elim (Bool-cases (is_shown F R cur u)) [
    | inl e ↦ rw e tt
    | inr e ↦ rw e h
  ]

  fire_timer-IsKept :
      (st : Stream N) (ts : List (Timer N))
      → st.timers ≡ ts
      → IsKept st
      → IsKept (fire_timer F R st)
  unfolding fire_timer
  fire_timer-IsKept st [] e h = rw (fire_timer, e) h
  fire_timer-IsKept st (t ∷ ts) e h =
      rw (fire_timer, e)
        (record {
          bounded = h.bounded;
          timed = ended-IsTimed t ts st.flash (subst (λ us. IsTimed us st.flash) e h.timed);
        })

  stream_after-IsKept : (es : List (Event F R)) → IsKept (stream_after F R es)
  unfolding stream_after
  stream_after-IsKept [] = record { bounded = omega arith; timed = tt }
  stream_after-IsKept (hears text ∷ es) = receive_text-IsKept _ text (stream_after-IsKept es)
  stream_after-IsKept (seeds list ∷ es) = seed_signals-IsKept _ list (stream_after-IsKept es)
  stream_after-IsKept (fires ∷ es) = fire_timer-IsKept _ _ refl (stream_after-IsKept es)

  timed_cases :
      (ts : List (Timer N)) (cur : Option (Shown N)) → IsTimed ts cur → (ts ≢ []) ⊎ (cur ≡ none)
  timed_cases [] none h = inr refl
  timed_cases [] (some cur) h = absurd h
  timed_cases (t ∷ ts) cur h = inl (λ e. cc)

  -- After any history of messages, seedings and timers the queue has at most 60 entries, and a timer is
  -- still to fire or nothing flashes.
  pub stream_after-flash :
      (es : List (Event F R))
      → let st = stream_after F R es in
        (length st.signals ≤ 60) × ((st.timers ≢ []) ⊎ (st.flash ≡ none))
  stream_after-flash es =
      let kept = stream_after-IsKept es in
      let st = stream_after F R es in (kept.bounded, timed_cases st.timers st.flash kept.timed)
