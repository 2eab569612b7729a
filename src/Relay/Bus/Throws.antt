-- ===== src/Relay/Bus/Throws.antt =====
-- When an exception leaves the subscriber callback of web-interface-js/backend/server.js, and what it
-- loses.
use casuya_live.Common.{
  ℕ, String, Bool, true, false, not, ◌&&◌, ◌||◌, Option, none, some, List, [], ◌∷◌, ◌≡◌, refl, ◌∙◌,
  subst, any, inl, inr, ◌⊎◌, Bool-cases, Option-cases,
}
use casuya_live.Js.{
  Float, Runtime, Value, undefined, null, bool, num, str, arr, obj, member, member?, is_present,
  array_or_empty, member?-eq,
}
use casuya_live.Relay.Bus.{
  Env, Socket, payload_of, frame, deliver, Tally, no_tally, count_order, tally, tally_commands,
  count_settled, settle, is_ledger_channel, on_message,
}

module _ (F : Float) (R : Runtime F) where
  open F use {N}

  -- null, or nothing at all.
  abbrev pub is_nothing : Value N → Bool
  is_nothing v = not (is_present v)

  abbrev throws : {A : Type 0} → Option A → Bool
  throws none = true
  throws (some x) = false

  -- A field is read of everything but those.
  member_cases :
      (v : Value N) (k : String)
      → ((is_nothing v ≡ true) × (member v k ≡ none))
        ⊎ ((is_nothing v ≡ false) × ((x : Value N) × (member v k ≡ some x)))
  unfolding member
  member_cases undefined k = inl (refl, refl)
  member_cases null k = inl (refl, refl)
  member_cases (bool b) k = inr (refl, (_, refl))
  member_cases (num n) k = inr (refl, (_, refl))
  member_cases (str s) k = inr (refl, (_, refl))
  member_cases (arr vs) k = inr (refl, (_, refl))
  member_cases (obj fs) k = inr (refl, (_, refl))

  tally-throws : (t : Tally F R) (os : List (Value N)) → throws (tally F R t os) ≡ any is_nothing os
  unfolding tally
  tally-throws t [] = refl
  tally-throws t (o ∷ os) = elim (member_cases o "pnl") [
    | inl (n, e) ↦ rw (tally, e, n) refl
    | inr (y, (pnl, e)) ↦ elim (member_cases o "result") [
      | inl (n, k) ↦ rw (tally, e, k, n) refl
      | inr (z, (result, k)) ↦ rw (tally, e, k, y) (tally-throws (count_order F R t pnl result) os)
    ]
  ]

  map-throws :
      {A B : Type 0} (f : A → B) (o : Option A)
      → let mapped : Option B = elim o [ none ↦ none | some x ↦ some (f x) ] in
        throws mapped ≡ throws o
  map-throws f none = refl
  map-throws f (some x) = refl

  count_settled-throws : (os : List (Value N)) → throws (count_settled F R os) ≡ any is_nothing os
  count_settled-throws [] = refl
  count_settled-throws (o ∷ os) =
      map-throws (tally_commands F R) (tally F R (no_tally F R) (o ∷ os))
      ∙ tally-throws (no_tally F R) (o ∷ os)

  -- A payload whose settlement cannot be counted.
  abbrev pub is_broken : Value N → Bool
  is_broken payload =
      is_nothing payload || any is_nothing (array_or_empty (member? payload "settled"))

  settle-throws : (payload : Value N) → throws (settle F R payload) ≡ is_broken payload
  unfolding settle member?
  settle-throws payload = elim (member_cases payload "settled") [
    | inl (n, e) ↦ rw (settle, e, n) refl
    | inr (y, (settled, e)) ↦
        rw (settle, member?-eq payload "settled" e, e, y)
          (count_settled-throws (array_or_empty settled))
  ]

  -- The callback ends in an exception exactly if the message is on a channel of the ledger and either
  -- it is the JSON text null, or an entry of its `settled` is null. Then the sockets have got their
  -- frames, and nothing is counted or noted.
  pub on_message_throws :
      (env : Env) (ss : List Socket) (ch message : String) (now_ms : ℕ)
      → let done = on_message F R env ss ch message now_ms in
        (done.threw ≡ (is_ledger_channel F R env ch && is_broken (payload_of F R message)))
        × (done.threw ≡ true
            → done.effects ≡ deliver F R env ch (frame F R ch (payload_of F R message) now_ms) ss)
  unfolding on_message
  on_message_throws env ss ch message now_ms =
      let payload = payload_of F R message in
      let broken = settle-throws payload in
      elim (Bool-cases (is_ledger_channel F R env ch)) [
        | inr e ↦ rw (on_message, e) (refl, (λ h. absurd (cc)))
        | inl e ↦ elim (Option-cases (settle F R payload)) [
          | inl k ↦
              rw (on_message, e, k)
                (subst (λ o. throws o ≡ is_broken payload) k broken, (λ h. refl))
          | inr (cs, k) ↦
              rw (on_message, e, k)
                (subst (λ o. throws o ≡ is_broken payload) k broken, (λ h. absurd (cc)))
        ]
      ]
