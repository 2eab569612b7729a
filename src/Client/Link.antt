-- ===== src/Client/Link.antt =====
-- The connection that the hooks useWebSockets, useAdminWebSockets and useSignalStream of
-- web-interface-js/frontend/src/hooks keep alive: one socket at a time, and a timer that opens the
-- next one. `socket` says that a socket stands that has not closed; `timer` is the delay of an
-- armed timer. `dials` says whether the address can be dialled: where it cannot, resolveWsUrl,
-- engineWsUrl or `new WebSocket` throws, and no handler is set.
use casuya_live.Common.{
  ℕ, suc, ◌*◌, ◌<◌, min, Bool, true, false, Option, none, some, ◌≡◌, refl, arith, if◌then◌else◌,
}

pub record Link : Type 0 where
  pub connected : Bool
  pub retry : ℕ
  pub socket : Bool
  pub timer : Option ℕ
  pub disposed : Bool

-- `connect`
unfoldable pub connect : Bool → Link → Link
connect dials l = if l.disposed then l else if dials then record l { socket = true } else l

-- `socket.onopen`
unfoldable pub on_open : Link → Link
on_open l = if l.disposed then l else record l { connected = true; retry = 0 }

abbrev pub delay_after : ℕ → ℕ
delay_after retry = min (1000 * retry) 15000

-- `socket.onclose`; `onerror` closes the socket, and so leads here.
unfoldable pub on_close : Link → Link
on_close l = if l.disposed then record l { socket = false } else record l {
  socket = false;
  connected = false;
  retry = suc l.retry;
  timer = some (delay_after (suc l.retry));
}

-- The timer runs `connect`.
unfoldable pub on_timer : Bool → Link → Link
unfolding connect
on_timer dials l = connect dials (record l { timer = none })

-- The clean-up of the effect; the socket's `onclose` is still to come.
unfoldable pub dispose : Link → Link
dispose l = record l { disposed = true; timer = none }

-- The effect runs: `connect()` on what earlier runs have left in the state and the references.
unfoldable pub mount : Bool → Bool → ℕ → Link
unfolding connect
mount dials connected retry = connect dials (record {
  connected = connected;
  retry = retry;
  socket = false;
  timer = none;
  disposed = false;
})

-- What can happen next: a standing socket opens or closes, an armed timer fires, the page goes. The
-- address of a page does not change.
pub data Step (dials : Bool) (l : Link) : Link → Type 0 where
  opens : l.socket ≡ true → Step dials l (on_open l)
  closes : l.socket ≡ true → Step dials l (on_close l)
  fires : (d : ℕ) → l.timer ≡ some d → Step dials l (on_timer dials l)
  leaves : Step dials l (dispose l)

pub data Reach (dials : Bool) (l : Link) : Link → Type 0 where
  here : Reach dials l l
  next : {m n : Link} → Reach dials l m → Step dials m n → Reach dials l n

-- Exactly one of a standing socket and an armed timer, and the timer's delay is that of the failures
-- counted; or the page has gone, and no timer is armed; or the address is refused, and there is
-- neither.
pub data IsSound (dials : Bool) (l : Link) : Type 0 where
  standing : dials ≡ true → l.disposed ≡ false → l.socket ≡ true → l.timer ≡ none → IsSound dials l
  waiting :
      dials ≡ true
      → l.disposed ≡ false
      → l.socket ≡ false
      → l.timer ≡ some (delay_after l.retry)
      → 0 < l.retry
      → l.connected ≡ false
      → IsSound dials l
  gone : dials ≡ true → l.disposed ≡ true → l.timer ≡ none → IsSound dials l
  undialled : dials ≡ false → l.socket ≡ false → l.timer ≡ none → IsSound dials l

on_open-IsSound :
    (dials : Bool) (l : Link) → l.socket ≡ true → IsSound dials l → IsSound dials (on_open l)
unfolding on_open
on_open-IsSound dials l s (standing y d k t) =
    standing y (ground arith) (ground arith) (ground arith)
on_open-IsSound dials l s (waiting y d k t r c) = absurd (ground arith)
on_open-IsSound dials l s (gone y d t) = gone y (ground arith) (ground arith)
on_open-IsSound dials l s (undialled n k t) = absurd (ground arith)

on_close-IsSound :
    (dials : Bool) (l : Link) → l.socket ≡ true → IsSound dials l → IsSound dials (on_close l)
unfolding on_close
on_close-IsSound dials l s (standing y d k t) =
    waiting y (ground arith) (ground arith) (ground arith) (ground arith) (ground arith)
on_close-IsSound dials l s (waiting y d k t r c) = absurd (ground arith)
on_close-IsSound dials l s (gone y d t) = gone y (ground arith) (ground arith)
on_close-IsSound dials l s (undialled n k t) = absurd (ground arith)

on_timer-IsSound :
    (dials : Bool) (l : Link) (d : ℕ)
    → l.timer ≡ some d
    → IsSound dials l
    → IsSound dials (on_timer dials l)
unfolding on_timer connect
on_timer-IsSound dials l d a (standing y e k t) = absurd (ground arith)
on_timer-IsSound dials l d a (waiting y e k t r c) =
    standing y (ground arith) (ground arith) (ground arith)
on_timer-IsSound dials l d a (gone y e t) = absurd (ground arith)
on_timer-IsSound dials l d a (undialled n k t) = absurd (ground arith)

Step-IsSound : {dials : Bool} {l m : Link} → Step dials l m → IsSound dials l → IsSound dials m
unfolding dispose
Step-IsSound (opens s) h = on_open-IsSound _ _ s h
Step-IsSound (closes s) h = on_close-IsSound _ _ s h
Step-IsSound (fires d t) h = on_timer-IsSound _ _ d t h
Step-IsSound leaves (standing y d k t) = gone y refl refl
Step-IsSound leaves (waiting y d k t r c) = gone y refl refl
Step-IsSound leaves (gone y d t) = gone y refl refl
Step-IsSound leaves (undialled n k t) = undialled n k refl

Reach-Keeps : {dials : Bool} {l m : Link} → Reach dials l m → IsSound dials l → IsSound dials m
Reach-Keeps here h = h
Reach-Keeps (next r s) h = Step-IsSound s (Reach-Keeps r h)

-- From the moment the effect runs, while the page stands and its address is one that WebSocket takes,
-- either a socket stands and no timer is armed, or none stands, a timer is armed with one second for
-- each failure since the last success and fifteen at most, and the hook says that it is not connected;
-- once the page is gone no timer is armed; and where the address is refused, there is never a socket
-- nor a timer that would try again.
pub Reach-IsSound :
    (dials connected : Bool) (retry : ℕ) {l : Link}
    → Reach dials (mount dials connected retry) l
    → IsSound dials l
unfolding mount connect
Reach-IsSound true connected retry r = Reach-Keeps r (standing refl refl refl refl)
Reach-IsSound false connected retry r = Reach-Keeps r (undialled refl refl refl)
