-- ===== src/Relay/History/Counts.antt =====
-- What each message of a history adds to the ledger of outcomes.
use casuya_live.Common.{
  ℕ, ◌+◌, ◌*◌, String, true, false, ◌&&◌, Option, none, some, List, [], ◌∷◌, ◌++◌, ◌≡◌, refl, sym,
  ap, ◌∙◌, ◌⊎◌, inl, inr, arith, subst, ◌===◌, ◌==◌, if◌then◌else◌, All, All-append, Bool-cases,
  Option-cases,
}
use casuya_live.Js.{
  Float, Runtime, Value, undefined, str, object, member, member?, member?-eq, array_or_empty,
}
use casuya_live.Relay.Bus.{
  Env, ws_channels, Command, h_incr_by_float, h_incr_by, h_set, Effect, sends, commands, Outcome,
  outcomes_hash, payload_of, frame, deliver, Tally, no_tally, tally, tally_commands, count_settled,
  settle, is_ledger_channel, on_message,
}
use casuya_live.Relay.Bus.Ledger.{
  added_to, added_to-append, added_to-IsSend, count_results, IsObject, IsSend, Totals, noting,
  count_settled_objects, on_message-settled, Totals-after_sends, deliver-IsSend,
}
use casuya_live.Relay.History.{Message, listeners, heard_once}

module _ (F : Float) (R : Runtime F) (env : Env) where
  open F use {N}
  open R use {parse}

  -- The settled orders that a message carries.
  abbrev pub orders_in : String → List (Value N)
  orders_in text = elim (parse text) [
    | none ↦ []
    | some payload ↦ array_or_empty (member? payload "settled")
  ]

  -- The orders with a result in a message, which count on the ledger's channel.
  abbrev pub counted : String → Message → ℕ
  counted result m =
      if is_ledger_channel F R env m.channel then count_results result (orders_in m.text) else 0

  -- Each message counts once for each listener of its channel.
  abbrev pub total : String → List Message → ℕ
  total result [] = 0
  total result (m ∷ ms) = listeners m.channel (ws_channels env) * counted result m + total result ms

  -- A message of another channel, or one that is not null and whose settled orders are objects.
  abbrev pub IsOrderly : Message → Type 0
  IsOrderly m =
      (is_ledger_channel F R env m.channel ≡ false)
      ⊎ ((settled : Value N) × (member (payload_of F R m.text) "settled" ≡ some settled)
          × All IsObject (array_or_empty settled))

  settled_orders :
      (text : String) (settled : Value N)
      → member (payload_of F R text) "settled" ≡ some settled
      → array_or_empty settled ≡ orders_in text
  unfolding member
  settled_orders text settled h = go (parse text) h
    where
      go :
          (read : Option (Value N))
          → member (elim read [ none ↦ object (("raw", str text) ∷ []) | some v ↦ v ]) "settled"
            ≡ some settled
          → array_or_empty settled
            ≡ elim read [ none ↦ [] | some v ↦ array_or_empty (member? v "settled") ]
      go none k = let p : settled ≡ undefined = cc in ap array_or_empty p
      go (some v) k = ap array_or_empty (sym (member?-eq v "settled" k))

  -- An effect that does not overwrite a field of the ledger.
  abbrev pub Spares : String → Effect N → Type 0
  Spares k (sends id text) = Unit {0}
  Spares k (commands (h_incr_by h f n)) = Unit {0}
  Spares k (commands (h_incr_by_float h f x)) = (h === outcomes_hash && f === k) ≡ false
  Spares k (commands (h_set h f n)) = (h === outcomes_hash && f === k) ≡ false

  -- An increment of the ledger.
  abbrev pub IsCount : Command N → Type 0
  IsCount (h_incr_by h f n) = h ≡ outcomes_hash
  IsCount (h_incr_by_float h f x) = (h ≡ outcomes_hash) × (f ≡ "net")
  IsCount (h_set h f n) = ⊥

  tally_commands-IsCount : (t : Tally F R) → All IsCount (tally_commands F R t)
  tally_commands-IsCount t = elim (Bool-cases (t.won == 0)) [
    | inl a ↦ elim (Bool-cases (t.lost == 0)) [
      | inl b ↦ rw (a, b) ((refl, refl), tt)
      | inr b ↦ rw (a, b) ((refl, refl), (refl, tt))
    ]
    | inr a ↦ elim (Bool-cases (t.lost == 0)) [
      | inl b ↦ rw (a, b) ((refl, refl), (refl, tt))
      | inr b ↦ rw (a, b) ((refl, refl), (refl, (refl, tt)))
    ]
  ]

  count_settled-IsCount :
      (os : List (Value N)) (cs : List (Command N))
      → count_settled F R os ≡ some cs
      → All IsCount cs
  count_settled-IsCount [] cs h = let e : cs ≡ [] = cc in rw e tt
  count_settled-IsCount (o ∷ os) cs h = elim (Option-cases (tally F R (no_tally F R) (o ∷ os))) [
    | inl e ↦ absurd (let bad = rw (e, count_settled) at h in cc)
    | inr (t, e) ↦
        let good : some (tally_commands F R t) ≡ some cs = rw (e, count_settled) at h in
        let same : cs ≡ tally_commands F R t = cc in rw same (tally_commands-IsCount t)
  ]

  noting-Spares :
      (k : String) (cs : List (Command N)) (ch : String) (now_ms : ℕ)
      → ("net" === k) ≡ false
      → All IsCount cs
      → All (Spares k) (noting F R cs ch now_ms)
  noting-Spares k [] ch now_ms nk h = (refl, tt)
  noting-Spares k (h_incr_by j f n ∷ cs) ch now_ms nk h = (tt, noting-Spares k cs ch now_ms nk h.1)
  noting-Spares k (h_incr_by_float j f x ∷ cs) ch now_ms nk h =
      (rw (h.0.0, h.0.1) nk, noting-Spares k cs ch now_ms nk h.1)
  noting-Spares k (h_set j f n ∷ cs) ch now_ms nk h = absurd h.0

  deliver-Spares : (k : String) (es : List (Effect N)) → All IsSend es → All (Spares k) es
  deliver-Spares k [] h = tt
  deliver-Spares k (sends id text ∷ es) h = (tt, deliver-Spares k es h.1)
  deliver-Spares k (commands c ∷ es) h = absurd h.0

  -- What one call of the listener for an orderly message does.
  pub record Heard (m : Message) : Type 0 where
    pub sent : List (Effect N)
    pub counts : List (Command N)
    pub effects : (heard_once F R env m).effects ≡ sent ++ noting F R counts m.channel m.now_ms
    pub sends_first : All IsSend sent
    pub counts_then : All IsCount counts
    pub returned : (heard_once F R env m).threw ≡ false
    pub spared :
        (k : String) → ("net" === k) ≡ false → All (Spares k) (heard_once F R env m).effects
    pub won : added_to outcomes_hash "won" (heard_once F R env m).effects ≡ counted "won" m
    pub lost : added_to outcomes_hash "lost" (heard_once F R env m).effects ≡ counted "lost" m

  counted_ledger :
      (result : String) (m : Message)
      → is_ledger_channel F R env m.channel ≡ true
      → counted result m ≡ count_results result (orders_in m.text)
  counted_ledger result m h = rw h refl

  counted_other :
      (result : String) (m : Message)
      → is_ledger_channel F R env m.channel ≡ false
      → counted result m ≡ 0
  counted_other result m h = rw h refl

  Heard-ledger :
      (m : Message) (settled : Value N)
      → is_ledger_channel F R env m.channel ≡ true
      → member (payload_of F R m.text) "settled" ≡ some settled
      → All IsObject (array_or_empty settled)
      → Heard m
  unfolding settle Totals
  Heard-ledger m settled h k objects =
      let payload = payload_of F R m.text in
      let os = array_or_empty settled in
      let sent = deliver F R env m.channel (frame F R m.channel payload m.now_ms) m.sockets in
      let free =
        deliver-IsSend F R env m.channel (frame F R m.channel payload m.now_ms) m.sockets in
      let (cs, counts, totals) = count_settled_objects F R os m.channel m.now_ms objects in
      let done : settle F R payload ≡ some cs = rw (settle, k) counts in
      let e = on_message-settled F R env m.sockets m.channel m.text m.now_ms cs h done in
      let (won, lost, net) =
        Totals-after_sends F R os sent (noting F R cs m.channel m.now_ms) free totals in
      let same = settled_orders m.text settled k in
      record {
        sent = sent;
        counts = cs;
        effects = ap (λ (o : Outcome N). o.effects) e;
        sends_first = free;
        counts_then = count_settled-IsCount os cs counts;
        returned = ap (λ (o : Outcome N). o.threw) e;
        spared = λ f nk. subst (All (Spares f)) (sym (ap (λ (o : Outcome N). o.effects) e)) (
            All-append _ sent (noting F R cs m.channel m.now_ms) (deliver-Spares f sent free)
              (noting-Spares f cs m.channel m.now_ms nk (count_settled-IsCount os cs counts)));
        won =
            ap (λ (o : Outcome N). added_to outcomes_hash "won" o.effects) e
            ∙ won
            ∙ ap (count_results "won") same
            ∙ sym (counted_ledger "won" m h);
        lost =
            ap (λ (o : Outcome N). added_to outcomes_hash "lost" o.effects) e
            ∙ lost
            ∙ ap (count_results "lost") same
            ∙ sym (counted_ledger "lost" m h);
      }

  Heard-other : (m : Message) → is_ledger_channel F R env m.channel ≡ false → Heard m
  unfolding on_message added_to
  Heard-other m h =
      let payload = payload_of F R m.text in
      let sent = deliver F R env m.channel (frame F R m.channel payload m.now_ms) m.sockets in
      let free =
        deliver-IsSend F R env m.channel (frame F R m.channel payload m.now_ms) m.sockets in
      let noted = noting F R [] m.channel m.now_ms in
      let e : heard_once F R env m ≡ record { effects = sent ++ noted; threw = false } =
        rw (on_message, h) refl in
      let none_of : (f : String) → added_to outcomes_hash f (sent ++ noted) ≡ 0 = λ f. omega (
        arith,
        added_to-append outcomes_hash f sent noted,
        (added_to-IsSend outcomes_hash f sent free).0,
      ) in
      record {
        sent = sent;
        counts = [];
        effects = ap (λ (o : Outcome N). o.effects) e;
        sends_first = free;
        counts_then = tt;
        returned = ap (λ (o : Outcome N). o.threw) e;
        spared = λ f nk.
            subst (All (Spares f)) (sym (ap (λ (o : Outcome N). o.effects) e))
              (All-append _ sent noted (deliver-Spares f sent free) (refl, tt));
        won =
            ap (λ (o : Outcome N). added_to outcomes_hash "won" o.effects) e
            ∙ none_of "won"
            ∙ sym (counted_other "won" m h);
        lost =
            ap (λ (o : Outcome N). added_to outcomes_hash "lost" o.effects) e
            ∙ none_of "lost"
            ∙ sym (counted_other "lost" m h);
      }

  pub Heard-IsOrderly : (m : Message) → IsOrderly m → Heard m
  Heard-IsOrderly m (inl h) = Heard-other m h
  Heard-IsOrderly m (inr (settled, k, objects)) =
      elim (Bool-cases (is_ledger_channel F R env m.channel)) [
        | inl h ↦ Heard-ledger m settled h k objects
        | inr h ↦ Heard-other m h
      ]
