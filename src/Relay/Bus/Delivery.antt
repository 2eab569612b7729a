-- ===== src/Relay/Bus/Delivery.antt =====
-- What one relayed message of web-interface-js/backend/server.js brings to each socket.

use casuya_live.Common.{
  ℕ, String, ◌&&◌, some, List, [], ◌∷◌, ◌++◌, map, ◌≡◌, refl, ◌∙◌, ◌≢◌, ◌⊎◌, inl, inr, arith, ◌==◌,
  if◌then◌else◌, All, Option-cases, append-nil,
}
use casuya_live.Js.{Float, Runtime}
use casuya_live.Relay.Bus.{
  Env, Socket, Command, Effect, sends, commands, payload_of, frame, sees, deliver, settle,
  is_ledger_channel, on_message,
}

module _ {N : Type 0} where
  -- The texts that the effects send to one socket, in order.
  unfoldable pub sent_to : ℕ → List (Effect N) → List String
  sent_to id [] = []
  sent_to id (sends i text ∷ es) = let rest = sent_to id es in if i == id then text ∷ rest else rest
  sent_to id (commands c ∷ es) = sent_to id es

  sent_to-append :
      (id : ℕ) (xs ys : List (Effect N)) → sent_to id (xs ++ ys) ≡ sent_to id xs ++ sent_to id ys
  unfolding sent_to
  sent_to-append id [] ys = refl
  sent_to-append id (sends i text ∷ xs) ys = ground (arith, sent_to-append id xs ys)
  sent_to-append id (commands c ∷ xs) ys = sent_to-append id xs ys

  sent_to-commands : (id : ℕ) (cs : List (Command N)) → sent_to id (map commands cs) ≡ []
  unfolding sent_to
  sent_to-commands id [] = refl
  sent_to-commands id (c ∷ cs) = sent_to-commands id cs

-- The library that keeps the sockets gives each its own identity.
abbrev pub Fresh : ℕ → List Socket → Type 0
Fresh id = All (λ s. s.id ≢ id)

abbrev pub Among : Socket → List Socket → Type 0
Among s [] = ⊥
Among s (t ∷ ts) = (s ≡ t) ⊎ Among s ts

abbrev pub Distinct : List Socket → Type 0
Distinct [] = Unit
Distinct (s ∷ ss) = Fresh s.id ss × Distinct ss

module _ (F : Float) (R : Runtime F) where
  open F use {N}

  deliver-Fresh :
      (env : Env) (ch framed : String) (ss : List Socket) (id : ℕ)
      → Fresh id ss
      → sent_to id (deliver F R env ch framed ss) ≡ []
  unfolding deliver sent_to
  deliver-Fresh env ch framed [] id h = refl
  deliver-Fresh env ch framed (s ∷ ss) id h =
      ground (arith, h.0, deliver-Fresh env ch framed ss id h.1)

  -- What a socket is to receive.
  abbrev pub due : Env → String → String → Socket → List String
  due env ch framed s = if s.is_open && sees F R env ch s.role then framed ∷ [] else []

  deliver_head :
      (env : Env) (ch framed : String) (s : Socket) (ss : List Socket)
      → Fresh s.id ss
      → sent_to s.id (deliver F R env ch framed (s ∷ ss)) ≡ due env ch framed s
  unfolding deliver sent_to
  deliver_head env ch framed s ss h = ground (arith, deliver-Fresh env ch framed ss s.id h)

  deliver_tail :
      (env : Env) (ch framed : String) (s t : Socket) (ss : List Socket)
      → t.id ≢ s.id
      → sent_to t.id (deliver F R env ch framed (s ∷ ss))
        ≡ sent_to t.id (deliver F R env ch framed ss)
  unfolding deliver sent_to
  deliver_tail env ch framed s t ss h = ground arith

  Fresh-Among : (id : ℕ) (s : Socket) (ss : List Socket) → Fresh id ss → Among s ss → s.id ≢ id
  Fresh-Among id s [] h m = absurd m
  Fresh-Among id s (t ∷ ts) h (inl e) = rw e h.0
  Fresh-Among id s (t ∷ ts) h (inr m) = Fresh-Among id s ts h.1 m

  deliver-due :
      (env : Env) (ch framed : String) (ss : List Socket) (s : Socket)
      → Distinct ss
      → Among s ss
      → sent_to s.id (deliver F R env ch framed ss) ≡ due env ch framed s
  deliver-due env ch framed [] s d m = absurd m
  deliver-due env ch framed (t ∷ ts) s d (inl e) = rw e (deliver_head env ch framed t ts d.0)
  deliver-due env ch framed (t ∷ ts) s d (inr m) =
      deliver_tail env ch framed t s ts (Fresh-Among t.id s ts d.0 m)
      ∙ deliver-due env ch framed ts s d.1 m

  -- Of sockets with different identities, each gets a message at most once, in its frame: an open
  -- socket gets it if it is an admin's or the channel is the public one, and otherwise gets
  -- nothing, whatever the ledger does with the message.
  pub on_message-due :
      (env : Env) (ss : List Socket) (s : Socket) (ch message : String) (now_ms : ℕ)
      → Distinct ss
      → Among s ss
      → sent_to s.id (on_message F R env ss ch message now_ms).effects
        ≡ due env ch (frame F R ch (payload_of F R message) now_ms) s
  unfolding on_message
  on_message-due env ss s ch message now_ms d m =
      let payload = payload_of F R message in
      let framed = frame F R ch payload now_ms in
      let served = deliver-due env ch framed ss s d m in
      elim (Option-cases (if is_ledger_channel F R env ch then settle F R payload else some [])) [
        | inl e ↦ rw (on_message, e) served
        | inr (counted, e) ↦
            rw (on_message, e)
              (sent_to-append s.id (deliver F R env ch framed ss) _
                ∙ rw (sent_to-commands s.id, append-nil) served)
      ]
