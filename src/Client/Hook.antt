-- ===== src/Client/Hook.antt =====
-- The effects of useWebSockets.js, useAdminWebSockets.js and useSignalStream.js as a whole: the
-- connection and the state that messages change, and for the signal stream also seedSignals and the
-- timers of the flash. Once the page has gone the handlers return early, and React drops what the
-- other setters are called with. `dials` is that of Client/Link.
use casuya_live.Common.{
  ℕ, String, Bool, true, false, not, none, List, [], ◌∷◌, ◌≡◌, refl, ap, ◌∙◌, arith, if◌then◌else◌,
  any, Bool-cases, inl, inr,
}
use casuya_live.Js.{Float, Runtime, Value, truthy}
use casuya_live.Client.Link.{
  Link, connect, on_open, on_close, on_timer, dispose, mount, Step, Reach, opens, closes, fires,
  leaves, here, next,
}
use casuya_live.Client.Signals.{Event, stream_step, Stream, fresh_stream, stream_after}
use casuya_live.Client.Dashboard.{
  Dashboard, Console, receive, receive_admin, fresh_dashboard, fresh_console, dashboard_after,
  console_after,
}

pub record Hook (S : Type 0) : Type 0 where
  pub link : Link
  pub state : S

-- What befalls a hook: its socket and the timer that dials again, the page's leaving, and an event of
-- its own: a message, or for the signal stream also a seeding or a timer of the flash.
pub data HookEvent (E : Type 0) : Type 0 where
  opened closed due left : HookEvent E
  heard : E → HookEvent E

module _ {S E : Type 0} (dials : Bool) where
  -- What an event does, by the handler of the hook's own.
  unfoldable pub hook_step : (S → E → S) → Hook S → HookEvent E → Hook S
  unfolding on_open on_close on_timer dispose
  hook_step hear h opened = record h { link = on_open h.link }
  hook_step hear h closed = record h { link = on_close h.link }
  hook_step hear h due = record h { link = on_timer dials h.link }
  hook_step hear h left = record h { link = dispose h.link }
  hook_step hear h (heard event) =
      if h.link.disposed then h else record h { state = hear h.state event }

  -- The hook after a history, its newest event first.
  unfoldable pub hook_after : (S → E → S) → Hook S → List (HookEvent E) → Hook S
  unfolding hook_step
  hook_after hear start [] = start
  hook_after hear start (e ∷ es) = hook_step hear (hook_after hear start es) e

-- `useEffect` of the public hook.
abbrev pub dashboard_hook :
    (F : Float) → Runtime F → Bool → Bool → ℕ → List (HookEvent String) → Hook (Dashboard F.N)
dashboard_hook F R dials connected retry =
    hook_after dials (receive F R)
      (record { link = mount dials connected retry; state = fresh_dashboard F R })

-- `useEffect` of the operator's hook, which connects for a token only.
unfoldable pub admin_mount : (F : Float) → Value F.N → Bool → Bool → ℕ → Link
unfolding mount
admin_mount F token dials connected retry =
    if not (truthy F token)
    then record { connected = false; retry = retry; socket = false; timer = none; disposed = false }
    else mount dials connected retry

abbrev pub console_hook :
    (F : Float)
    → Runtime F
    → Value F.N
    → Bool
    → Bool
    → ℕ
    → List (HookEvent String)
    → Hook (Console F.N)
console_hook F R token dials connected retry =
    hook_after dials (receive_admin F R)
      (record { link = admin_mount F token dials connected retry; state = fresh_console F R })

-- `useSignalStream`: its effect, `seedSignals` and the timers of the flash.
abbrev pub signals_hook :
    (F : Float) (R : Runtime F) → Bool → Bool → ℕ → List (HookEvent (Event F R)) → Hook (Stream F.N)
signals_hook F R dials connected retry =
    hook_after dials (stream_step F R)
      (record { link = mount dials connected retry; state = fresh_stream F R })

module _ {E : Type 0} where
  abbrev is_left : HookEvent E → Bool
  is_left left = true
  is_left _ = false

  abbrev pub has_left : List (HookEvent E) → Bool
  has_left es = any is_left es

  -- The events of its own that came before the page went, newest first.
  unfoldable pub events_heard : List (HookEvent E) → List E
  events_heard [] = []
  events_heard (heard event ∷ es) =
      let older = events_heard es in if has_left es then older else event ∷ older
  events_heard (e ∷ es) = events_heard es

mount_disposed :
    (dials connected : Bool) (retry : ℕ) → (mount dials connected retry).disposed ≡ false
unfolding mount connect
mount_disposed true connected retry = refl
mount_disposed false connected retry = refl

admin_mount_disposed :
    (F : Float) (token : Value F.N) (dials connected : Bool) (retry : ℕ)
    → (admin_mount F token dials connected retry).disposed ≡ false
unfolding admin_mount
admin_mount_disposed F token dials connected retry =
    ground (arith, mount_disposed dials connected retry)

module _ {S E : Type 0} (dials : Bool) (hear : S → E → S) (start : Hook S) where
  hook_after-disposed :
      (es : List (HookEvent E))
      → start.link.disposed ≡ false
      → (hook_after dials hear start es).link.disposed ≡ has_left es
  unfolding hook_after hook_step on_open on_close on_timer connect dispose
  hook_after-disposed [] h = h
  hook_after-disposed (opened ∷ es) h = ground (arith, hook_after-disposed es h)
  hook_after-disposed (closed ∷ es) h = ground (arith, hook_after-disposed es h)
  hook_after-disposed (due ∷ es) h = ground (arith, hook_after-disposed es h)
  hook_after-disposed (left ∷ es) h = refl
  hook_after-disposed (heard event ∷ es) h = ground (arith, hook_after-disposed es h)

  abbrev hear_all : List E → S
  hear_all [] = start.state
  hear_all (event ∷ older) = hear (hear_all older) event

  hook_after-state :
      (es : List (HookEvent E))
      → start.link.disposed ≡ false
      → (hook_after dials hear start es).state ≡ hear_all (events_heard es)
  unfolding hook_after hook_step events_heard
  hook_after-state [] h = refl
  hook_after-state (opened ∷ es) h = hook_after-state es h
  hook_after-state (closed ∷ es) h = hook_after-state es h
  hook_after-state (due ∷ es) h = hook_after-state es h
  hook_after-state (left ∷ es) h = hook_after-state es h
  hook_after-state (heard event ∷ es) h = elim (Bool-cases (has_left es)) [
    | inl e ↦ rw (hook_after, hook_after-disposed es h, e) (hook_after-state es h)
    | inr e ↦
        rw (hook_after, hook_after-disposed es h, e)
          (ap (λ s. hear s event) (hook_after-state es h))
  ]

module _ (F : Float) (R : Runtime F) where
  hear_all-dashboard :
      (dials : Bool) (link : Link) (texts : List String)
      → hear_all dials (receive F R) (record { link = link; state = fresh_dashboard F R }) texts
        ≡ dashboard_after F R texts
  unfolding dashboard_after
  hear_all-dashboard dials link [] = refl
  hear_all-dashboard dials link (text ∷ texts) =
      ap (λ d. receive F R d text) (hear_all-dashboard dials link texts)

  hear_all-console :
      (dials : Bool) (link : Link) (texts : List String)
      → hear_all dials (receive_admin F R) (record { link = link; state = fresh_console F R }) texts
        ≡ console_after F R texts
  unfolding console_after
  hear_all-console dials link [] = refl
  hear_all-console dials link (text ∷ texts) =
      ap (λ c. receive_admin F R c text) (hear_all-console dials link texts)

  hear_all-signals :
      (dials : Bool) (link : Link) (es : List (Event F R))
      → hear_all dials (stream_step F R) (record { link = link; state = fresh_stream F R }) es
        ≡ stream_after F R es
  unfolding stream_after
  hear_all-signals dials link [] = refl
  hear_all-signals dials link (e ∷ es) =
      ap (λ st. stream_step F R st e) (hear_all-signals dials link es)

  -- Whatever sockets open, close and are dialled again, or refused, the dashboard and the operator's
  -- console are what the messages that came before the page went make of empty ones, and the signal
  -- stream is what the messages, the seedings and the ends of the flash before that make of an empty
  -- one: a lost connection loses nothing of what is shown, and a page that is gone is not changed.
  pub hook_after-events_heard :
      (token : Value F.N) (dials connected : Bool) (retry : ℕ) (es : List (HookEvent String))
      (ss : List (HookEvent (Event F R)))
      → ((dashboard_hook F R dials connected retry es).state
          ≡ dashboard_after F R (events_heard es))
        × ((console_hook F R token dials connected retry es).state
            ≡ console_after F R (events_heard es))
        × ((signals_hook F R dials connected retry ss).state ≡ stream_after F R (events_heard ss))
  hook_after-events_heard token dials connected retry es ss =
      let there = mount_disposed dials connected retry in
      let told = admin_mount_disposed F token dials connected retry in
      (
        hook_after-state dials (receive F R) _ es there
            ∙ hear_all-dashboard dials (mount dials connected retry) (events_heard es),
        hook_after-state dials (receive_admin F R) _ es told
            ∙ hear_all-console dials (admin_mount F token dials connected retry) (events_heard es),
        hook_after-state dials (stream_step F R) _ ss there
            ∙ hear_all-signals dials (mount dials connected retry) (events_heard ss),
      )

-- No socket and no timer, now and later.
abbrev IsIdle : Link → Type 0
IsIdle l = (l.socket ≡ false) × (l.timer ≡ none)

Step-IsIdle : {dials : Bool} {l m : Link} → Step dials l m → IsIdle l → IsIdle m
unfolding dispose
Step-IsIdle (opens s) (i, t) = absurd (cc)
Step-IsIdle (closes s) (i, t) = absurd (cc)
Step-IsIdle (fires d s) (i, t) = absurd (cc)
Step-IsIdle leaves (i, t) = (i, refl)

Reach-IsIdle : {dials : Bool} {l m : Link} → Reach dials l m → IsIdle l → IsIdle m
Reach-IsIdle here h = h
Reach-IsIdle (next r s) h = Step-IsIdle s (Reach-IsIdle r h)

-- Without a token the operator's hook never has a socket, nor a timer that would open one.
Reach-admin_mount :
    (F : Float) (token : Value F.N) (dials connected : Bool) (retry : ℕ) {l : Link}
    → truthy F token ≡ false
    → Reach dials (admin_mount F token dials connected retry) l
    → (l.socket ≡ false) × (l.timer ≡ none)
unfolding admin_mount
Reach-admin_mount F token dials connected retry h r = Reach-IsIdle r (rw h (refl, refl))
