-- ===== src/Conn/Ended.antt =====
-- The end of the receive (lib/io/conn.c), and that an armed one stays so while the coroutine runs.
use libioma.Base.{
  Bool, true, false, not, ◌&&◌, ◌||◌, List, [], ◌∷◌, ◌≡◌, ap, ◌∙◌, arith, if◌then◌else◌, ℤ, pos,
}
use libioma.Conn.State.{
  Conn, Completion, armed, starved, paused, done, state_eq, cancel_recv, end_input, conn_unref,
  arm_recv, bufring_return, recv_done, int_eq, ecanceled, eio,
}
use libioma.Conn.Coroutine.{
  close_recv, drop_rx, close, pause_begin, pause_end, resume, recv_item, Act, receiving,
  begin_pause, end_pause, resuming, closing, act, run, wake_reader,
}
use libioma.Conn.Receive.{on_starved, on_ended}
use libioma.Conn.Refs.{
  IsCounted, conn_unref-IsCounted, recv_done-IsCounted, end_input-IsCounted, end_input-live,
  wake_reader-IsCounted,
}

pub pause_begin-armed : (c : Conn) → c.recv ≡ armed → (pause_begin c).recv ≡ armed
unfolding pause_begin cancel_recv
pause_begin-armed c e = ground arith

pub pause_end-armed : (c : Conn) → c.recv ≡ armed → (pause_end c).recv ≡ armed
unfolding pause_end state_eq
pause_end-armed c e = ground arith

pub resume-armed : (draining : Bool) (c : Conn) → c.recv ≡ armed → (resume draining c).recv ≡ armed
unfolding resume state_eq
resume-armed draining c e =
    go (not (state_eq c.recv paused) || c.eof || c.closed)
      (ap (λ s. not (state_eq s paused) || c.eof || c.closed) e)
  where
    P : Conn → Type 0
    P d = d.recv ≡ armed

    go :
        (x : Bool)
        → x ≡ true
        → P (
            if x
            then c
            else if draining
            then conn_unref (recv_done (end_input ecanceled c))
            else arm_recv c)
    go true h = e
    go false h = absurd (cc h)

pub close_recv-armed : (c : Conn) → c.recv ≡ armed → (close_recv c).recv ≡ armed
unfolding close_recv cancel_recv state_eq
close_recv-armed c e = ground arith

pub conn_unref-recv : (c : Conn) → (conn_unref c).recv ≡ c.recv
unfolding conn_unref
conn_unref-recv c = ground arith

pub close-armed : (c : Conn) → c.recv ≡ armed → (close c).recv ≡ armed
unfolding close drop_rx
close-armed c e =
    conn_unref-recv (drop_rx (close_recv (record c { closed = true })))
    ∙ close_recv-armed (record c { closed = true }) e

pub recv_item-armed : (c : Conn) → c.recv ≡ armed → (recv_item c).recv ≡ armed
unfolding recv_item
recv_item-armed c e = ground arith

-- A receive that is armed stays so until its completion says otherwise, whatever the coroutine does.
pub act-armed : (a : Act) (c : Conn) → c.recv ≡ armed → (act a c).recv ≡ armed
unfolding act
act-armed receiving c e = recv_item-armed c e
act-armed begin_pause c e = pause_begin-armed c e
act-armed end_pause c e = pause_end-armed c e
act-armed (resuming draining) c e = resume-armed draining c e
act-armed closing c e = close-armed c e

pub run-armed : (acts : List Act) (c : Conn) → c.recv ≡ armed → (run acts c).recv ≡ armed
unfolding run
run-armed [] c e = e
run-armed (a ∷ acts) c e = go c.waiter c.closed (run-armed acts (act a c) (act-armed a c e))
  where
    P : Conn → Type 0
    P d = d.recv ≡ armed

    go : (x y : Bool) → P (run acts (act a c)) → P (if x || y then c else run acts (act a c))
    go true y h = e
    go false true h = e
    go false false h = h

pub wake_reader-armed :
    (acts : List Act) (c : Conn) → c.recv ≡ armed → (wake_reader acts c).recv ≡ armed
unfolding wake_reader
wake_reader-armed acts c e = go c.waiter
  where
    P : Conn → Type 0
    P d = d.recv ≡ armed

    go : (x : Bool) → P (if x then run acts (record c { waiter = false }) else c)
    go true = run-armed acts (record c { waiter = false }) e
    go false = e

-- A connection with a receive in flight.
abbrev pub Armed : Conn → Type 0
Armed c = IsCounted 0 c × (c.recv ≡ armed)

pub armed-live : (c : Conn) → c.recv ≡ armed → state_eq c.recv done ≡ false
unfolding state_eq
armed-live c e = ap (λ s. state_eq s done) e

pub done-IsCounted :
    (acts : List Act) (err_ : ℤ) (c : Conn)
    → Armed c
    → IsCounted 0 (conn_unref (wake_reader acts (recv_done (end_input err_ c))))
done-IsCounted acts err_ c (v, e) =
    conn_unref-IsCounted 0 (wake_reader acts (recv_done (end_input err_ c))) (
      wake_reader-IsCounted acts 1 (recv_done (end_input err_ c)) (
        recv_done-IsCounted 0 (end_input err_ c) (end_input-live err_ c (armed-live c e))
          (end_input-IsCounted 0 err_ c v)))

-- Pausing an armed receive changes no count.
pub paused_now-IsCounted :
    (acts : List Act) (c : Conn)
    → Armed c
    → IsCounted 0 (wake_reader acts (record c { pausing = false; recv = paused }))
unfolding state_eq
paused_now-IsCounted acts c (((r, o), q), e) =
    wake_reader-IsCounted acts 0 (record c { pausing = false; recv = paused })
      ((ground (arith, r, armed-live c e), o), q)

pub starved-live : (c : Conn) → state_eq c.recv starved ≡ true → state_eq c.recv done ≡ false
unfolding state_eq
starved-live c h = ground arith

pub on_starved-IsCounted : (acts : List Act) (c : Conn) → Armed c → IsCounted 0 (on_starved acts c)
unfolding on_starved state_eq
on_starved-IsCounted acts c (v, e) = go c.closed c.pausing c.eof
  where
    go :
        (x y z : Bool)
        → IsCounted 0 (
            if x
            then conn_unref (recv_done c)
            else if y
            then wake_reader acts (record c { pausing = false; recv = paused })
            else if z
            then conn_unref (wake_reader acts (recv_done c))
            else record c { recv = starved })
    go true y z = conn_unref-IsCounted 0 (recv_done c) (recv_done-IsCounted 0 c (armed-live c e) v)
    go false true z = paused_now-IsCounted acts c (v, e)
    go false false true =
        conn_unref-IsCounted 0 (wake_reader acts (recv_done c))
          (wake_reader-IsCounted acts 1 (recv_done c) (recv_done-IsCounted 0 c (armed-live c e) v))
    go false false false = ((ground (arith, v.0.0, armed-live c e), v.0.1), v.1)

pub on_ended-IsCounted :
    (acts : List Act) (q : Completion) (c : Conn) → Armed c → IsCounted 0 (on_ended acts q c)
unfolding on_ended bufring_return
on_ended-IsCounted acts q c (v, e) = go q.has_buf
  where
    body : Conn → Conn
    body c' =
        if c'.pausing && not c'.closed && int_eq q.result ecanceled
        then wake_reader acts (record c' { pausing = false; recv = paused })
        else conn_unref (
            wake_reader acts (
              recv_done (end_input (if int_eq q.result eio && c'.tls then pos 0 else q.result) c')))

    either :
        (c' : Conn) (x : Bool)
        → Armed c'
        → IsCounted 0 (
            if x
            then wake_reader acts (record c' { pausing = false; recv = paused })
            else conn_unref (
                wake_reader acts (
                  recv_done
                    (end_input (if int_eq q.result eio && c'.tls then pos 0 else q.result) c'))))
    either c' true a = paused_now-IsCounted acts c' a
    either c' false a =
        done-IsCounted acts (if int_eq q.result eio && c'.tls then pos 0 else q.result) c' a

    go : (x : Bool) → IsCounted 0 (body (if x then bufring_return q.item.buf_id c else c))
    go true =
        either (bufring_return q.item.buf_id c)
          (c.pausing && not c.closed && int_eq q.result ecanceled) (v, e)
    go false = either c (c.pausing && not c.closed && int_eq q.result ecanceled) (v, e)
