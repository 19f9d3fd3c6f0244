-- ===== src/Conn/Counted.antt =====
-- The references of a connection of lib/io/conn.c count who still uses it.
use libioma.Base.{Bool, List, [], ◌∷◌, ◌≡◌, refl, ap, arith}
use libioma.Conn.State.{Conn, Completion, armed, starved, state_eq, conn_new, arm_recv}
use libioma.Conn.Coroutine.{Act, run}
use libioma.Conn.Receive.{on_recv, recv_drain}
use libioma.Conn.Refs.{IsCounted, arm_recv-IsCounted, run-IsCounted}
use libioma.Conn.Ended.{starved-live}
use libioma.Conn.Completed.{on_recv-IsCounted, recv_drain-IsCounted}

-- What happens to a connection: a completion of its receive, the end of a drained one, the coroutine
-- going on after another await, the receive armed again when buffers came back.
pub data Event : Type 0 where
  completed : List Act → List Act → Bool → Completion → Event
  drained : List Act → Event
  goes_on : List Act → Event
  rearmed : Event

unfoldable pub event : Event → Conn → Conn
unfolding on_recv recv_drain run arm_recv
event (completed acts later each q) c = on_recv acts later each q c
event (drained acts) c = recv_drain acts c
event (goes_on acts) c = run acts c
event rearmed c = arm_recv c

unfoldable pub events : List Event → Conn → Conn
unfolding event
events [] c = c
events (e ∷ es) c = events es (event e c)

-- The kernel completes a receive only while it is armed; only a starved one is armed again.
unfoldable pub Allowed : Event → Conn → Type 0
Allowed (completed acts later each q) c = c.recv ≡ armed
Allowed (drained acts) c = Unit
Allowed (goes_on acts) c = Unit
Allowed rearmed c = c.recv ≡ starved

unfoldable pub AllAllowed : List Event → Conn → Type 0
unfolding Allowed event
AllAllowed [] c = Unit
AllAllowed (e ∷ es) c = Allowed e c × AllAllowed es (event e c)

event-IsCounted : (e : Event) (c : Conn) → Allowed e c → IsCounted 0 c → IsCounted 0 (event e c)
unfolding event Allowed
event-IsCounted (completed acts later each q) c a v = on_recv-IsCounted acts later each q c (v, a)
event-IsCounted (drained acts) c a v = recv_drain-IsCounted acts c v
event-IsCounted (goes_on acts) c a v = run-IsCounted acts 0 c v
event-IsCounted rearmed c a v =
    arm_recv-IsCounted 0 c (starved-live c (ap (λ s. state_eq s starved) a)) v

events-IsCounted :
    (es : List Event) (c : Conn) → AllAllowed es c → IsCounted 0 c → IsCounted 0 (events es c)
unfolding events AllAllowed
events-IsCounted [] c a v = v
events-IsCounted (e ∷ es) c a v = events-IsCounted es (event e c) a.1 (event-IsCounted e c a.0 v)

conn_new-IsCounted : (tls_ : Bool) → IsCounted 0 (conn_new tls_)
unfolding conn_new state_eq
conn_new-IsCounted tls_ = ((refl, refl), ((λ e. refl), (λ e. refl), omega arith))

-- Whatever the kernel completes and the coroutine does, in any order, also while it is woken within a
-- completion: a connection has one reference for its coroutine until that closed it, and one for its
-- receive until the last completion; it is recycled exactly once when it has none, and never before; a
-- closed one has an empty ring; and the ring never holds more than it has room for.
pub conn_events-IsCounted :
    (tls_ : Bool) (es : List Event)
    → AllAllowed es (conn_new tls_)
    → IsCounted 0 (events es (conn_new tls_))
conn_events-IsCounted tls_ es a = events-IsCounted es (conn_new tls_) a (conn_new-IsCounted tls_)
