-- ===== src/Relay/Bus/Privacy.antt =====
-- The role tiering of web-interface-js/backend/server.js over whole histories.

use casuya_live.Common.{
  ℕ, ◌/◌, String, Bool, false, Option, none, some, List, [], ◌∷◌, ◌++◌, map, keep, ◌≡◌, refl, ap,
  ◌≢◌, ◌⊎◌, inl, inr, arith, ◌===◌, if◌then◌else◌, split_on, All, All-append, Bool-cases,
  Option-cases, ===-false_of_ne,
}
use casuya_live.Js.{Float, Runtime}
use casuya_live.Relay.Token.Authentic.{IsAuthentic, verify_iff}
use casuya_live.Relay.Http.{or_empty}
use casuya_live.Relay.Bus.{
  Env, public_channel, Role, admin, Socket, Command, Effect, sends, commands, role_of,
  upgrade_parts, upgrade, payload_of, frame, deliver, settle, is_ledger_channel, on_message, Event,
  upgrades, closes, goes, publishes, joined_by, closing, sockets_after, sockets_run,
}

module _ (F : Float) (R : Runtime F) (secret : String) where
  open F use {N}
  open R use {query}

  -- The event that upgraded the socket with a token that was authentic at that moment.
  abbrev pub Vouches : Event F R → ℕ → Type 0
  Vouches (upgrades i url now_ms) id =
      (i ≡ id)
      × (token : String) × (query url "token" ≡ some (some token))
      × IsAuthentic F R secret token (now_ms / 1000)
  Vouches e id = ⊥

  -- Some event of the history did.
  abbrev pub Vouched : List (Event F R) → ℕ → Type 0
  Vouched [] id = ⊥
  Vouched (e ∷ es) id = Vouches e id ⊎ Vouched es id

  abbrev HasAdmin : List Socket → ℕ → Type 0
  HasAdmin [] id = ⊥
  HasAdmin (s ∷ ss) id = ((s.role ≡ admin) × (s.id ≡ id)) ⊎ HasAdmin ss id

  abbrev Entitled : String → ℕ → Type 0
  Entitled url now_ms =
      (token : String) × (query url "token" ≡ some (some token))
      × IsAuthentic F R secret token (now_ms / 1000)

  role_of-admin :
      (url : String) (now_ms : ℕ) (q : Option (Option String))
      → query url "token" ≡ q
      → role_of F R secret (or_empty q) now_ms ≡ admin
      → Entitled url now_ms
  unfolding role_of
  role_of-admin url now_ms none e h = absurd (cc)
  role_of-admin url now_ms (some none) e h = absurd (cc)
  role_of-admin url now_ms (some (some token)) e h =
      (token, e, (verify_iff F R secret token now_ms).0 (ground arith))

  upgrade-admin :
      (parts : List String) (url : String) (now_ms : ℕ)
      → upgrade_parts F R secret parts url now_ms ≡ some admin
      → Entitled url now_ms
  unfolding upgrade_parts
  upgrade-admin [] url now_ms h = absurd (cc)
  upgrade-admin (pathname ∷ rest) url now_ms h =
      role_of-admin url now_ms (query url "token") refl (ground arith)

  HasAdmin-append :
      (ss ts : List Socket) (id : ℕ) → HasAdmin (ss ++ ts) id → HasAdmin ss id ⊎ HasAdmin ts id
  HasAdmin-append [] ts id h = inr h
  HasAdmin-append (s ∷ ss) ts id (inl here) = inl (inl here)
  HasAdmin-append (s ∷ ss) ts id (inr there) = elim (HasAdmin-append ss ts id there) [
    | inl a ↦ inl (inr a)
    | inr b ↦ inr b
  ]

  HasAdmin-closing :
      (i : ℕ) (ss : List Socket) (id : ℕ) → HasAdmin (map (closing F R i) ss) id → HasAdmin ss id
  HasAdmin-closing i [] id h = h
  HasAdmin-closing i (s ∷ ss) id (inl here) = inl (ground arith)
  HasAdmin-closing i (s ∷ ss) id (inr there) = inr (HasAdmin-closing i ss id there)

  HasAdmin-keep :
      (p : Socket → Bool) (ss : List Socket) (id : ℕ) → HasAdmin (keep p ss) id → HasAdmin ss id
  HasAdmin-keep p [] id h = h
  HasAdmin-keep p (s ∷ ss) id h = elim (Bool-cases (p s)) [
    | inl e ↦
        let h' : ((s.role ≡ admin) × (s.id ≡ id)) ⊎ HasAdmin (keep p ss) id = rw e at h in
        elim h' [ inl here ↦ inl here | inr there ↦ inr (HasAdmin-keep p ss id there) ]
    | inr e ↦ inr (HasAdmin-keep p ss id (rw e at h))
  ]

  HasAdmin-joined :
      (i : ℕ) (o : Option Role) (ss : List Socket) (id : ℕ)
      → HasAdmin (joined_by F R i o ss) id
      → HasAdmin ss id ⊎ ((o ≡ some admin) × (i ≡ id))
  HasAdmin-joined i none ss id h = inl h
  HasAdmin-joined i (some role) ss id h = elim (HasAdmin-append ss _ id h) [
    | inl old ↦ inl old
    | inr (inl new) ↦ inr (ap some new.0, new.1)
    | inr (inr no_more) ↦ absurd no_more
  ]

  -- Only an upgrade makes an admin socket.
  HasAdmin-step :
      (ss : List Socket) (e : Event F R) (id : ℕ)
      → HasAdmin (sockets_after F R secret ss e) id
      → HasAdmin ss id ⊎ Vouches e id
  unfolding sockets_after upgrade
  HasAdmin-step ss (upgrades i url now_ms) id h =
      elim (HasAdmin-joined i (upgrade F R secret url now_ms) ss id h) [
        | inl old ↦ inl old
        | inr (role, same) ↦
            let (token, given, authentic) = upgrade-admin (split_on b'?' url) url now_ms role in
            inr (same, token, given, authentic)
      ]
  HasAdmin-step ss (closes i) id h = inl (HasAdmin-closing i ss id h)
  HasAdmin-step ss (goes i) id h = inl (HasAdmin-keep _ ss id h)
  HasAdmin-step ss (publishes ch message now_ms) id h = inl h

  HasAdmin-run :
      (ss : List Socket) (es : List (Event F R)) (id : ℕ)
      → HasAdmin (sockets_run F R secret ss es) id
      → HasAdmin ss id ⊎ Vouched es id
  unfolding sockets_run
  HasAdmin-run ss [] id h = inl h
  HasAdmin-run ss (e ∷ es) id h = elim (HasAdmin-run (sockets_after F R secret ss e) es id h) [
    | inl before ↦ elim (HasAdmin-step ss e id before) [
      | inl old ↦ inl old
      | inr now ↦ inr (inl now)
    ]
    | inr later ↦ inr (inr later)
  ]

  -- An effect that shows a message to sockets of the history's admins only.
  abbrev pub IsPrivate : List (Event F R) → Effect N → Type 0
  IsPrivate es (sends id text) = Vouched es id
  IsPrivate es (commands c) = Unit {0}

  abbrev ToAdmin : List Socket → Effect N → Type 0
  ToAdmin ss (sends id text) = HasAdmin ss id
  ToAdmin ss (commands c) = Unit {0}

  ToAdmin-tail :
      (s : Socket) (ss : List Socket) (es : List (Effect N))
      → All (ToAdmin ss) es
      → All (ToAdmin (s ∷ ss)) es
  ToAdmin-tail s ss [] h = tt
  ToAdmin-tail s ss (sends id text ∷ es) h = (inr h.0, ToAdmin-tail s ss es h.1)
  ToAdmin-tail s ss (commands c ∷ es) h = (tt, ToAdmin-tail s ss es h.1)

  deliver-ToAdmin :
      (env : Env) (ch framed : String) (ss : List Socket)
      → (ch === public_channel env) ≡ false
      → All (ToAdmin ss) (deliver F R env ch framed ss)
  unfolding deliver
  deliver-ToAdmin env ch framed [] h = tt
  deliver-ToAdmin env ch framed (s ∷ ss) h =
      let rest =
        ToAdmin-tail s ss (deliver F R env ch framed ss) (deliver-ToAdmin env ch framed ss h) in
      ground (arith, rest, h)

  ToAdmin-IsPrivate :
      (es : List (Event F R)) (effects : List (Effect N))
      → All (ToAdmin (sockets_run F R secret [] es)) effects
      → All (IsPrivate es) effects
  ToAdmin-IsPrivate es [] h = tt
  ToAdmin-IsPrivate es (sends id text ∷ rest) h = elim (HasAdmin-run [] es id h.0) [
    | inl no_socket ↦ absurd no_socket
    | inr vouched ↦ (vouched, ToAdmin-IsPrivate es rest h.1)
  ]
  ToAdmin-IsPrivate es (commands c ∷ rest) h = (tt, ToAdmin-IsPrivate es rest h.1)

  commands-ToAdmin : (ss : List Socket) (cs : List (Command N)) → All (ToAdmin ss) (map commands cs)
  commands-ToAdmin ss [] = tt
  commands-ToAdmin ss (c ∷ cs) = (tt, commands-ToAdmin ss cs)

  on_message-ToAdmin :
      (env : Env) (ss : List Socket) (ch message : String) (now_ms : ℕ)
      → (ch === public_channel env) ≡ false
      → All (ToAdmin ss) (on_message F R env ss ch message now_ms).effects
  unfolding on_message
  on_message-ToAdmin env ss ch message now_ms h =
      let payload = payload_of F R message in
      let sent = deliver-ToAdmin env ch (frame F R ch payload now_ms) ss h in
      elim (Option-cases (if is_ledger_channel F R env ch then settle F R payload else some [])) [
        | inl e ↦ rw (on_message, e) sent
        | inr (counted, e) ↦
            rw (on_message, e) (All-append (ToAdmin ss) _ _ sent (commands-ToAdmin ss _))
      ]

  -- From no sockets and after any history of upgrades, closings and messages, a message on a
  -- channel other than the public one is sent only to sockets that an event of that history
  -- upgraded with a token that was authentic at that moment.
  pub on_message-IsPrivate :
      (env : Env) (es : List (Event F R)) (ch message : String) (now_ms : ℕ)
      → ch ≢ public_channel env
      → All
          (IsPrivate es)
          (on_message F R env (sockets_run F R secret [] es) ch message now_ms).effects
  on_message-IsPrivate env es ch message now_ms h =
      ToAdmin-IsPrivate es _ (on_message-ToAdmin env _ ch message now_ms (===-false_of_ne _ _ h))
