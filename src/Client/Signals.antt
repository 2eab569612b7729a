-- ===== src/Client/Signals.antt =====
-- The state of the hook web-interface-js/frontend/src/hooks/useSignalStream.js: the queue of signals,
-- the one that flashes, and the timers that end the flash, which all run for 1.5 seconds and so fire
-- in the order in which they were set. Entries of a REST list are objects here: the source throws on
-- a null one while it renders.
pub mod Queue
pub mod Flash
use casuya_live.Common.{
  ℕ, suc, ◌==◌, String, Bool, true, false, not, ◌&&◌, ◌||◌, Option, none, some, List, [], ◌∷◌, ◌++◌,
  take, keep, any, if◌then◌else◌,
}
use casuya_live.Js.{Float, Runtime, Value, arr, items, is_text, member, member?, truthy, strict_eq}
use casuya_live.Client.Recent.{push}

-- The identifier on show, with the number of the call that set it: an identifier that is an object is
-- itself only.
abbrev pub Shown : Type 0 → Type 0
Shown N = ℕ × Value N

-- `setFlashId((cur) => (cur === id ? null : cur))`, and `setFlashId(null)`.
pub data Timer (N : Type 0) : Type 0 where
  ends : Shown N → Timer N
  ends_any : Timer N

pub record Stream (N : Type 0) : Type 0 where
  pub signals : List (Value N)
  pub flash : Option (Shown N)
  pub timers : List (Timer N)
  pub calls : ℕ

module _ (F : Float) (R : Runtime F) where
  open F use {N}
  open R use {parse}

  -- `p.order_id === s.order_id`
  abbrev pub same_order : Value N → Value N → Bool
  same_order p s = strict_eq F (member? p "order_id") (member? s "order_id")

  abbrev pub knows : List (Value N) → Value N → Bool
  knows prev s = any (λ p. same_order p s) prev

  -- The setter of `seedSignals`.
  unfoldable pub seed_queue : List (Value N) → List (Value N) → List (Value N)
  seed_queue [] list = take 60 list
  seed_queue (p ∷ prev) list = take 60 ((p ∷ prev) ++ keep (λ s. not (knows (p ∷ prev) s)) list)

  -- `setFlashId(id || null)`
  abbrev pub shown_if : ℕ → Value N → Option (Shown N)
  shown_if k id = if truthy F id then some (k, id) else none

  abbrev pub seed_items : Stream N → List (Value N) → Stream N
  seed_items st [] = st
  seed_items st (s ∷ list) = record {
    signals = seed_queue st.signals (s ∷ list);
    flash = shown_if st.calls (member? s "order_id");
    timers = st.timers ++ ends_any ∷ [];
    calls = suc st.calls;
  }

  -- `seedSignals`
  unfoldable pub seed_signals : Stream N → Value N → Stream N
  unfolding seed_queue
  seed_signals st (arr list) = seed_items st (items list)
  seed_signals st _ = st

  abbrev pub queue_frame : Stream N → Value N → Stream N
  queue_frame st frame = record {
    signals = push same_order 60 frame st.signals;
    flash = some (st.calls, member? frame "order_id");
    timers = st.timers ++ ends (st.calls, member? frame "order_id") ∷ [];
    calls = suc st.calls;
  }

  -- `frame.type === "signal" && frame.order_id`, where `frame.type` does not throw.
  abbrev pub is_signal : Value N → Bool
  is_signal frame = is_text (member? frame "type") "signal" && truthy F (member? frame "order_id")

  unfoldable pub receive_signal : Stream N → Value N → Stream N
  unfolding push
  receive_signal st frame = elim (member frame "type") [
    | none ↦ st
    | some type ↦ if is_signal frame then queue_frame st frame else st
  ]

  -- `socket.onmessage`
  unfoldable pub receive_text : Stream N → String → Stream N
  unfolding receive_signal
  receive_text st text = elim (parse text) [ none ↦ st | some frame ↦ receive_signal st frame ]

  abbrev pub is_shown : Shown N → Shown N → Bool
  is_shown (j, v) (k, w) = j == k || strict_eq F v w

  abbrev pub ended : Timer N → Option (Shown N) → Option (Shown N)
  ended ends_any cur = none
  ended (ends t) none = none
  ended (ends t) (some cur) = if is_shown cur t then none else some cur

  -- The timer that was set first fires.
  unfoldable pub fire_timer : Stream N → Stream N
  fire_timer st = elim st.timers [
    | [] ↦ st
    | t ∷ ts ↦ record st { flash = ended t st.flash; timers = ts }
  ]

  pub data Event : Type 0 where
    hears : String → Event
    seeds : Value N → Event
    fires : Event

  abbrev pub fresh_stream : Stream N
  fresh_stream = record { signals = []; flash = none; timers = []; calls = 0 }

  abbrev pub stream_step : Stream N → Event → Stream N
  stream_step st (hears text) = receive_text st text
  stream_step st (seeds list) = seed_signals st list
  stream_step st fires = fire_timer st

  -- The state after a history, its newest event first.
  unfoldable pub stream_after : List Event → Stream N
  unfolding receive_text seed_signals fire_timer
  stream_after [] = fresh_stream
  stream_after (e ∷ es) = stream_step (stream_after es) e
