-- ===== src/Relay/Bus/Ledger.antt =====
-- The outcome ledger of web-interface-js/backend/server.js: what the increments that a settlement
-- message causes add up to.

use casuya_live.Common.{
  ℕ, ◌+◌, String, Bool, true, false, ◌&&◌, some, List, [], ◌∷◌, ◌++◌, map, ◌≡◌, refl, ◌∙◌, arith,
  ◌===◌, if◌then◌else◌, All, eq_iff,
}
use casuya_live.Js.{
  Float, Runtime, Value, num, str, arr, obj, Fields, find_field, member, member?, or_else,
  number_of, is_text, items, Items,
}
use casuya_live.Relay.Bus.{
  Env, Socket, Command, h_incr_by_float, h_incr_by, h_set, Effect, sends, commands, outcomes_hash,
  staleness_hash, payload_of, frame, deliver, Tally, no_tally, count_order, tally, tally_commands,
  count_settled, settle, is_ledger_channel, on_message,
}

abbrev pub by_if : Bool → ℕ → ℕ
by_if b n = if b then n else 0

module _ {N : Type 0} where
  -- What the effects add to an integer field of a hash.
  unfoldable pub added_to : String → String → List (Effect N) → ℕ
  added_to hash k [] = 0
  added_to hash k (commands (h_incr_by h f n) ∷ es) =
      by_if (h === hash && f === k) n + added_to hash k es
  added_to hash k (e ∷ es) = added_to hash k es

  -- The amounts that they add to a float field, in order.
  unfoldable pub amounts_to : String → String → List (Effect N) → List N
  amounts_to hash k [] = []
  amounts_to hash k (commands (h_incr_by_float h f x) ∷ es) =
      let rest = amounts_to hash k es in if h === hash && f === k then x ∷ rest else rest
  amounts_to hash k (e ∷ es) = amounts_to hash k es

  -- The settled orders with a result.
  unfoldable pub count_results : String → List (Value N) → ℕ
  count_results result [] = 0
  count_results result (o ∷ os) =
      by_if (is_text (member? o "result") result) 1 + count_results result os

  abbrev pub IsObject : Value N → Type 0
  IsObject v = (fs : Fields N) × (v ≡ obj fs)

  abbrev pub IsSend : Effect N → Type 0
  IsSend (sends id text) = Unit {0}
  IsSend (commands c) = ⊥

  pub added_to-append :
      (hash k : String) (xs ys : List (Effect N))
      → added_to hash k (xs ++ ys) ≡ added_to hash k xs + added_to hash k ys
  unfolding added_to
  added_to-append hash k [] ys = omega arith
  added_to-append hash k (commands (h_incr_by h f n) ∷ xs) ys =
      omega (arith, added_to-append hash k xs ys)
  added_to-append hash k (e ∷ xs) ys = added_to-append hash k xs ys

  amounts_to-append :
      (hash k : String) (xs ys : List (Effect N))
      → amounts_to hash k (xs ++ ys) ≡ amounts_to hash k xs ++ amounts_to hash k ys
  unfolding amounts_to
  amounts_to-append hash k [] ys = refl
  amounts_to-append hash k (commands (h_incr_by_float h f n) ∷ xs) ys =
      ground (arith, amounts_to-append hash k xs ys)
  amounts_to-append hash k (e ∷ xs) ys = amounts_to-append hash k xs ys

  -- Sends are no part of the ledger.
  pub added_to-IsSend :
      (hash k : String) (es : List (Effect N))
      → All IsSend es
      → (added_to hash k es ≡ 0) × (amounts_to hash k es ≡ [])
  unfolding added_to amounts_to
  added_to-IsSend hash k [] h = (refl, refl)
  added_to-IsSend hash k (sends id text ∷ es) h = added_to-IsSend hash k es h.1
  added_to-IsSend hash k (commands c ∷ es) h = absurd h.0

  not_both : (v : Value N) → is_text v "won" ≡ true → is_text v "lost" ≡ false
  not_both (str s) h = let e : s ≡ "won" = (eq_iff s "won").0 h in rw e refl
  not_both v h = absurd (cc)

module _ (F : Float) (R : Runtime F) where
  open F use {N, of_ℕ, add}
  open R use {parse}

  -- The sum in the order of the loop, each order's `pnl` read as the code reads it.
  unfoldable pub net_of : N → List (Value N) → N
  net_of acc [] = acc
  net_of acc (o ∷ os) =
      net_of (add acc (number_of F (or_else F (member? o "pnl") (num (of_ℕ 0))))) os

  abbrev tallied : Tally F R → List (Value N) → Tally F R
  tallied t os = record {
    net = net_of t.net os;
    won = t.won + count_results "won" os;
    lost = t.lost + count_results "lost" os;
  }

  tally_objects :
      (t : Tally F R) (os : List (Value N)) → All IsObject os → tally F R t os ≡ some (tallied t os)
  unfolding tally net_of count_results member member?
  tally_objects t [] h = ground arith
  tally_objects t (obj fs ∷ os) h =
      let pnl = find_field "pnl" fs in
      let result = find_field "result" fs in
      ground (arith, tally_objects (count_order F R t pnl result) os h.1, not_both result)
  tally_objects t (o ∷ os) h = absurd (let e = h.0.1 in cc)

  pub deliver-IsSend :
      (env : Env) (ch framed : String) (ss : List Socket)
      → All IsSend (deliver F R env ch framed ss)
  unfolding deliver
  deliver-IsSend env ch framed [] = tt
  deliver-IsSend env ch framed (s ∷ ss) = ground (arith, deliver-IsSend env ch framed ss)

  abbrev pub noting : List (Command N) → String → ℕ → List (Effect N)
  noting cs ch now_ms = map commands (cs ++ h_set staleness_hash ch now_ms ∷ [])

  commands_totals :
      (t : Tally F R) (ch : String) (now_ms : ℕ)
      → let es = noting (tally_commands F R t) ch now_ms in
        (added_to outcomes_hash "won" es ≡ t.won)
        × (added_to outcomes_hash "lost" es ≡ t.lost)
        × (amounts_to outcomes_hash "net" es ≡ t.net ∷ [])
  unfolding added_to amounts_to
  commands_totals t ch now_ms = (ground arith, ground arith, ground arith)

  -- The net amounts that are due: none for an empty settlement.
  abbrev pub due_amounts : List (Value N) → List N
  due_amounts [] = []
  due_amounts (o ∷ os) = net_of (of_ℕ 0) (o ∷ os) ∷ []

  unfoldable pub Totals : List (Value N) → List (Effect N) → Type 0
  Totals os es =
      (added_to outcomes_hash "won" es ≡ count_results "won" os)
      × (added_to outcomes_hash "lost" es ≡ count_results "lost" os)
      × (amounts_to outcomes_hash "net" es ≡ due_amounts os)

  pub count_settled_objects :
      (os : List (Value N)) (ch : String) (now_ms : ℕ)
      → All IsObject os
      → (cs : List (Command N)) × (count_settled F R os ≡ some cs) × Totals os (noting cs ch now_ms)
  unfolding added_to amounts_to count_results Totals
  count_settled_objects [] ch now_ms h = ([], refl, (refl, refl, refl))
  count_settled_objects (o ∷ os) ch now_ms h =
      let all = o ∷ os in
      let e = tally_objects (no_tally F R) all h in
      let totals = commands_totals (tallied (no_tally F R) all) ch now_ms in
      (
        tally_commands F R (tallied (no_tally F R) all),
        rw (e, count_settled) refl,
        (totals.0 ∙ omega arith, totals.1 ∙ omega arith, totals.2),
      )

  pub on_message-settled :
      (env : Env) (ss : List Socket) (ch message : String) (now_ms : ℕ) (cs : List (Command N))
      → is_ledger_channel F R env ch ≡ true
      → settle F R (payload_of F R message) ≡ some cs
      → on_message F R env ss ch message now_ms ≡ record {
        effects =
            deliver F R env ch (frame F R ch (payload_of F R message) now_ms) ss
            ++ noting cs ch now_ms;
        threw = false;
      }
  unfolding on_message
  on_message-settled env ss ch message now_ms cs h k = rw (on_message, h, k) refl

  pub Totals-after_sends :
      (os : List (Value N)) (xs ys : List (Effect N))
      → All IsSend xs
      → Totals os ys
      → Totals os (xs ++ ys)
  unfolding Totals
  Totals-after_sends os xs ys h t =
      let won = added_to-IsSend outcomes_hash "won" xs h in
      let lost = added_to-IsSend outcomes_hash "lost" xs h in
      let net = added_to-IsSend outcomes_hash "net" xs h in
      (
        omega (arith, added_to-append outcomes_hash "won" xs ys, won.0, t.0),
        omega (arith, added_to-append outcomes_hash "lost" xs ys, lost.0, t.1),
        amounts_to-append outcomes_hash "net" xs ys ∙ rw net.1 t.2,
      )

  -- A settlement message on the ledger's channel, whose `settled` is an array of objects, adds to the
  -- ledger of outcomes exactly the number of its orders won and lost, and the sum of their `pnl` in the
  -- order of the array (nothing if the array is empty); and the callback returns.
  pub on_message-Totals :
      (env : Env) (ss : List Socket) (ch message : String) (now_ms : ℕ) (payload : Value N)
      (os : Items N)
      → is_ledger_channel F R env ch ≡ true
      → parse message ≡ some payload
      → member payload "settled" ≡ some (arr os)
      → All IsObject (items os)
      → let done = on_message F R env ss ch message now_ms in
        (done.threw ≡ false)
        × (added_to outcomes_hash "won" done.effects ≡ count_results "won" (items os))
        × (added_to outcomes_hash "lost" done.effects ≡ count_results "lost" (items os))
        × (amounts_to outcomes_hash "net" done.effects ≡ due_amounts (items os))
  unfolding settle Totals member
  on_message-Totals env ss ch message now_ms payload os h e k objects =
      let (cs, counted, totals) = count_settled_objects (items os) ch now_ms objects in
      let settled : settle F R (payload_of F R message) ≡ some cs = rw (e, settle, k) counted in
      let (won, lost, net) =
        Totals-after_sends (items os) _ (noting cs ch now_ms)
          (deliver-IsSend env ch (frame F R ch (payload_of F R message) now_ms) ss) totals in
      rw (on_message-settled env ss ch message now_ms cs h settled) (refl, won, lost, net)
