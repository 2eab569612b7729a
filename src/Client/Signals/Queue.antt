-- ===== src/Client/Signals/Queue.antt =====
-- The queue of signals: what messages alone leave in it, and that seeding it again changes nothing.
use casuya_live.Common.{
  ℕ, ◌≤◌, ◌<◌, String, Bool, true, false, not, ◌||◌, Option, none, some, List, [], ◌∷◌, ◌++◌, ◌≡◌,
  refl, sym, ap, subst, ◌∙◌, ◌⊎◌, inl, inr, arith, length, take, keep, All, All-imp,
  take-append_left, take-take, take_all, keep_none, any-append, length-take, append-nil,
  append_assoc, if◌then◌else◌, Bool-cases, Option-cases,
}
use casuya_live.Js.{
  Float, Runtime, EqLaws, strict_eq_sym, strict_eq_trans, Value, member, member?, member?_of_throws,
}
use casuya_live.Client.Recent.{push, pushes, latest, pushes-latest}
use casuya_live.Client.Signals.{
  Stream, same_order, knows, seed_queue, is_signal, receive_signal, receive_text, fire_timer, Event,
  hears, seeds, fires, stream_after,
}

||-true_right : (a : Bool) → (a || true) ≡ true
||-true_right a = ground arith

le-or-lt : (m n : ℕ) → (m ≤ n) ⊎ (n < m)
le-or-lt m n = omega arith

module _ (F : Float) (R : Runtime F) where
  open F use {N}
  open R use {parse}

  -- Each item that a filter keeps is in a list that goes on with what it keeps.
  kept_known :
      (f : Value N → Bool) (ys list : List (Value N))
      → All (λ s. same_order F R s s ≡ true) list
      → All (λ s. f s ≡ true → knows F R (ys ++ keep f list) s ≡ true) list
  kept_known f ys [] h = tt
  kept_known f ys (s ∷ list) h = elim (Bool-cases (f s)) [
    | inl e ↦
        let more : s ∷ keep f list ≡ keep f (s ∷ list) = rw e refl in
        subst (λ z. All (λ x. f x ≡ true → knows F R (ys ++ z) x ≡ true) (s ∷ list)) more
          (
            (λ k.
                any-append (λ p. same_order F R p s) ys (s ∷ keep f list)
                ∙ rw h.0 (||-true_right _)),
            All-imp _ _ list (kept_known f (ys ++ s ∷ []) list h.1) (λ x k e'.
                subst (λ z. knows F R z x ≡ true) (append_assoc ys (s ∷ []) (keep f list)) (k e')),
          )
    | inr e ↦
        let same : keep f list ≡ keep f (s ∷ list) = rw e refl in
        subst (λ z. All (λ x. f x ≡ true → knows F R (ys ++ z) x ≡ true) (s ∷ list)) same
          ((λ k. absurd (ground arith)), kept_known f ys list h.1)
  ]

  -- After an item is added for each unknown one, all are known.
  All-knows :
      (prev list : List (Value N))
      → All (λ s. same_order F R s s ≡ true) list
      → All (λ s. not (knows F R (prev ++ keep (λ t. not (knows F R prev t)) list) s) ≡ false) list
  All-knows prev list h =
      let new = keep (λ t. not (knows F R prev t)) list in
      All-imp _ _ list (kept_known (λ t. not (knows F R prev t)) prev list h) (λ s k.
        elim (Bool-cases (knows F R prev s)) [
          | inl e ↦ rw (any-append (λ p. same_order F R p s) prev new, e) refl
          | inr e ↦ rw (k (rw e refl)) refl
        ])

  -- The empty queue is no exception: it knows none.
  seed_queue_lem :
      (prev list : List (Value N))
      → seed_queue F R prev list ≡ take 60 (prev ++ keep (λ s. not (knows F R prev s)) list)
  unfolding seed_queue
  seed_queue_lem [] list = ap (take 60) (sym (kept_by_true list))
    where
      kept_by_true : (list : List (Value N)) → keep (λ s. true) list ≡ list
      kept_by_true [] = refl
      kept_by_true (s ∷ list) = ap (◌∷◌ s) (kept_by_true list)
  seed_queue_lem (p ∷ prev) list = refl

  seed_again :
      (full list : List (Value N))
      → All (λ s. not (knows F R full s) ≡ false) list
      → seed_queue F R (take 60 full) list ≡ take 60 full
  seed_again full list h = elim (le-or-lt (length full) 60) [
    | inl short ↦ rw (take_all 60 full short) (
        seed_queue_lem full list
        ∙ rw (keep_none (λ s. not (knows F R full s)) list h, append-nil) (take_all 60 full short))
    | inr long ↦
        seed_queue_lem (take 60 full) list
        ∙ take-append_left 60 (take 60 full) _ (omega (arith, length-take 60 full))
        ∙ take-take 60 full
  ]

  -- Seeding the queue a second time from one list changes nothing, if the identifiers of the list are
  -- equal to themselves: no order is shown twice because the list is read again.
  seed_queue-seed_queue :
      (prev list : List (Value N))
      → All (λ s. same_order F R s s ≡ true) list
      → seed_queue F R (seed_queue F R prev list) list ≡ seed_queue F R prev list
  seed_queue-seed_queue prev list h =
      rw (seed_queue_lem prev list)
        (seed_again (prev ++ keep (λ s. not (knows F R prev s)) list) list (All-knows prev list h))

  -- The frame that a text brings to the queue.
  abbrev pub frame_if : Option (Value N) → List (Value N)
  frame_if none = []
  frame_if (some frame) = if is_signal F R frame then frame ∷ [] else []

  -- The frames of a history, newest first.
  unfoldable pub frames : List (Event F R) → List (Value N)
  frames [] = []
  frames (hears text ∷ es) = frame_if (parse text) ++ frames es
  frames (e ∷ es) = frames es

  abbrev pub IsUnseeded : List (Event F R) → Type 0
  IsUnseeded [] = Unit
  IsUnseeded (seeds list ∷ es) = ⊥
  IsUnseeded (e ∷ es) = IsUnseeded es

  abbrev push_all : List (Value N) → List (Value N) → List (Value N)
  push_all [] q = q
  push_all (frame ∷ _) q = push (same_order F R) 60 frame q

  receive_signal-signals :
      (st : Stream N) (frame : Value N)
      → (receive_signal F R st frame).signals ≡ push_all (frame_if (some frame)) st.signals
  unfolding receive_signal
  receive_signal-signals st frame = elim (Option-cases (member frame "type")) [
    | inl e ↦ rw (receive_signal, e, member?_of_throws frame "type" e) refl
    | inr (t, e) ↦ elim (Bool-cases (is_signal F R frame)) [
      | inl k ↦ rw (receive_signal, e, k) refl
      | inr k ↦ rw (receive_signal, e, k) refl
    ]
  ]

  receive_text-signals :
      (st : Stream N) (text : String)
      → (receive_text F R st text).signals ≡ push_all (frame_if (parse text)) st.signals
  unfolding receive_text
  receive_text-signals st text = elim (Option-cases (parse text)) [
    | inl e ↦ rw (receive_text, e) refl
    | inr (frame, e) ↦ rw (receive_text, e) (receive_signal-signals st frame)
  ]

  fire_timer-signals : (st : Stream N) → (fire_timer F R st).signals ≡ st.signals
  unfolding fire_timer
  fire_timer-signals st = ground arith

  push_all-pushes :
      (o : Option (Value N)) (vs : List (Value N))
      → push_all (frame_if o) (pushes (same_order F R) 60 vs)
        ≡ pushes (same_order F R) 60 (frame_if o ++ vs)
  unfolding pushes
  push_all-pushes none vs = refl
  push_all-pushes (some frame) vs = ground arith

  stream_after-pushes :
      (es : List (Event F R))
      → IsUnseeded es
      → (stream_after F R es).signals ≡ pushes (same_order F R) 60 (frames es)
  unfolding stream_after frames pushes
  stream_after-pushes [] h = refl
  stream_after-pushes (hears text ∷ es) h =
      receive_text-signals (stream_after F R es) text
      ∙ ap (push_all (frame_if (parse text))) (stream_after-pushes es h)
      ∙ push_all-pushes (parse text) (frames es)
  stream_after-pushes (fires ∷ es) h =
      fire_timer-signals (stream_after F R es) ∙ stream_after-pushes es h
  stream_after-pushes (seeds list ∷ es) h = absurd h

  -- After any history of messages and timers without a seeding, the queue is the first 60 of the newest
  -- signal frame for each order identifier. A text that is not JSON, is no signal or has no order
  -- identifier adds nothing.
  pub stream_after-latest :
      (laws : EqLaws F) (es : List (Event F R))
      → IsUnseeded es
      → (stream_after F R es).signals ≡ take 60 (latest (same_order F R) (frames es))
  stream_after-latest laws es h =
      let id = λ (v : Value N). member? v "order_id" in
      stream_after-pushes es h
      ∙ pushes-latest (same_order F R) (λ v w. strict_eq_sym F laws (id v) (id w))
          (λ u v w. strict_eq_trans F laws (id u) (id v) (id w)) 59 (frames es)
