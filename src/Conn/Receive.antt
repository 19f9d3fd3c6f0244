-- ===== src/Conn/Receive.antt =====
-- A completion of the receive (`ioxd__conn_on_recv`, lib/io/conn.c) and the end of a parked one.
use libioma.Base.{Bool, false, not, ◌&&◌, List, [], ◌∷◌, ◌++◌, length, ◌==◌, if◌then◌else◌, pos}
use libioma.Conn.State.{
  rx_queue, starved, paused, Conn, Completion, enobufs, ecanceled, eproto, eio, int_eq, is_positive,
  state_eq, cancel_recv, end_input, conn_unref, arm_recv, bufring_return, recv_done,
}
use libioma.Conn.Coroutine.{Act, wake_reader}

-- `ioxd__conn_on_recv` where the kernel had no buffer.
unfoldable pub on_starved : List Act → Conn → Conn
unfolding recv_done conn_unref wake_reader
on_starved acts c =
    if c.closed
    then conn_unref (recv_done c)
    else if c.pausing
    then wake_reader acts (record c { pausing = false; recv = paused })
    else if c.eof
    then conn_unref (wake_reader acts (recv_done c))
    else record c { recv = starved }

-- The same where the receive has ended.
unfoldable pub on_ended : List Act → Completion → Conn → Conn
unfolding bufring_return wake_reader end_input recv_done conn_unref int_eq
on_ended acts q c =
    let c' : Conn = if q.has_buf then bufring_return q.item.buf_id c else c in
    if c'.pausing && not c'.closed && int_eq q.result ecanceled
    then wake_reader acts (record c' { pausing = false; recv = paused })
    else conn_unref (
        wake_reader acts
          (recv_done (end_input (if int_eq q.result eio && c'.tls then pos 0 else q.result) c')))

-- The same where bytes were received.
unfoldable pub on_data : List Act → Completion → Conn → Conn
unfolding end_input cancel_recv wake_reader bufring_return
on_data acts q c =
    if not q.has_buf
    then wake_reader acts
        (if q.is_more then cancel_recv (end_input eproto c) else end_input eproto c)
    else if c.closed
    then bufring_return q.item.buf_id c
    else if length c.rx == rx_queue
    then wake_reader acts (
        if q.is_more
        then cancel_recv (end_input enobufs (bufring_return q.item.buf_id c))
        else end_input enobufs (bufring_return q.item.buf_id c))
    else wake_reader acts (record c { rx = c.rx ++ q.item ∷ [] })

-- The end of `ioxd__conn_on_recv`, whether more completions follow; `each` is the worker's `cancel_each`.
unfoldable pub after_data : List Act → Bool → Bool → Conn → Conn
unfolding wake_reader arm_recv recv_done conn_unref cancel_recv
after_data acts is_more each c =
    if not is_more
    then (if c.pausing && not c.closed
        then wake_reader acts (record c { pausing = false; recv = paused })
        else if not c.closed && not c.eof
        then arm_recv c
        else conn_unref (recv_done c))
    else if each && not c.closed
    then cancel_recv c
    else c

-- The coroutine may be woken twice: `acts` is what it does at first, `later` what at the second time.
unfoldable pub on_recv : List Act → List Act → Bool → Completion → Conn → Conn
unfolding int_eq is_positive on_starved on_ended on_data after_data
on_recv acts later each q c =
    let c' : Conn = if q.is_more then c else record c { cancelling = false } in
    if int_eq q.result enobufs
    then on_starved acts c'
    else if not (is_positive q.result)
    then on_ended acts q c'
    else after_data later q.is_more each (on_data acts q c')

-- `ioxd__conn_recv_drain`
unfoldable pub recv_drain : List Act → Conn → Conn
unfolding state_eq end_input recv_done wake_reader conn_unref
recv_drain acts c =
    if not (state_eq c.recv starved)
    then c
    else conn_unref (wake_reader acts (recv_done (end_input ecanceled c)))
