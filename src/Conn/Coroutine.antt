-- ===== src/Conn/Coroutine.antt =====
-- What the coroutine of a connection calls (lib/io/conn.c). A coroutine is a list of what it does when it
-- is woken, up to where it yields.
use libioma.Base.{ℕ, ◌-◌, Bool, true, false, not, ◌||◌, List, [], ◌∷◌, ◌++◌, if◌then◌else◌}
use libioma.Reader.State.{Item}
use libioma.Conn.State.{
  armed, starved, paused, done, Conn, ecanceled, state_eq, cancel_recv, end_input, conn_unref,
  arm_recv, recv_done,
}

-- The end of the receive in `ioxd__conn_close`.
unfoldable pub close_recv : Conn → Conn
unfolding cancel_recv state_eq
close_recv c =
    if state_eq c.recv armed
    then cancel_recv c
    else if state_eq c.recv starved || state_eq c.recv paused
    then record c { recv = done; refs = c.refs - 1 }
    else c

unfoldable pub ids : List Item → List ℕ
ids [] = []
ids (it ∷ its) = it.buf_id ∷ ids its

unfoldable pub drop_rx : Conn → Conn
unfolding ids
drop_rx c = record c { rx = []; returned = ids c.rx ++ c.returned }

unfoldable pub close : Conn → Conn
unfolding close_recv drop_rx conn_unref
close c = conn_unref (drop_rx (close_recv (record c { closed = true })))

-- `ioxd__conn_recv_pause`, up to where it waits, and from there on.
unfoldable pub pause_begin : Conn → Conn
unfolding cancel_recv state_eq
pause_begin c =
    if state_eq c.recv armed
    then record (cancel_recv (record c { pausing = true })) { waiter = true }
    else c

unfoldable pub pause_end : Conn → Conn
unfolding state_eq
pause_end c =
    if state_eq c.recv armed
    then record c { waiter = true }
    else if state_eq c.recv starved
    then record c { pausing = false; recv = paused }
    else record c { pausing = false }

-- `ioxd__conn_recv_resume`, and whether the worker is draining.
unfoldable pub resume : Bool → Conn → Conn
unfolding state_eq end_input recv_done conn_unref arm_recv
resume draining c =
    if not (state_eq c.recv paused) || c.eof || c.closed
    then c
    else if draining
    then conn_unref (recv_done (end_input ecanceled c))
    else arm_recv c

-- `ioxd__conn_recv_item`: the ring's next item, or waiting for one.
unfoldable pub recv_item : Conn → Conn
recv_item c = elim c.rx [
  | it ∷ rest ↦ record c { rx = rest }
  | [] ↦ if c.eof then c else record c { waiter = true }
]

-- What the coroutine does.
pub data Act : Type 0 where
  receiving : Act
  begin_pause : Act
  end_pause : Act
  resuming : Bool → Act
  closing : Act

unfoldable pub act : Act → Conn → Conn
unfolding recv_item pause_begin pause_end resume close
act receiving c = recv_item c
act begin_pause c = pause_begin c
act end_pause c = pause_end c
act (resuming draining) c = resume draining c
act closing c = close c

-- The coroutine runs until it waits or has ended.
unfoldable pub run : List Act → Conn → Conn
unfolding act
run [] c = c
run (a ∷ acts) c = let c' = run acts (act a c) in if c.waiter || c.closed then c else c'

unfoldable pub wake_reader : List Act → Conn → Conn
unfolding run
wake_reader acts c = if c.waiter then run acts (record c { waiter = false }) else c
