-- ===== src/Conn/Completed.antt =====
-- What a completion of the receive (lib/io/conn.c) does to the references.
use libioma.Base.{
  Bool, true, false, not, ◌&&◌, List, [], ◌∷◌, ◌++◌, ◌≡◌, refl, arith, length, ◌==◌, if◌then◌else◌,
  ℤ, length-append,
}
use libioma.Reader.State.{Item}
use libioma.Conn.State.{
  Conn, Completion, starved, paused, done, rx_queue, state_eq, cancel_recv, end_input, conn_unref,
  arm_recv, bufring_return, recv_done, int_eq, is_positive, ecanceled, enobufs, eproto,
}
use libioma.Conn.Coroutine.{Act, wake_reader}
use libioma.Conn.Receive.{on_starved, on_ended, on_data, after_data, on_recv, recv_drain}
use libioma.Conn.Refs.{
  IsCounted, conn_unref-IsCounted, recv_done-IsCounted, end_input-IsCounted, arm_recv-IsCounted,
  end_input-live, wake_reader-IsCounted,
}
use libioma.Conn.Ended.{
  wake_reader-armed, Armed, armed-live, paused_now-IsCounted, starved-live, on_starved-IsCounted,
  on_ended-IsCounted,
}

end_input-Armed : (err_ : ℤ) (c : Conn) → Armed c → Armed (end_input err_ c)
unfolding end_input
end_input-Armed err_ c (v, e) = (end_input-IsCounted 0 err_ c v, ground arith)

pub wake_reader-Armed : (acts : List Act) (c : Conn) → Armed c → Armed (wake_reader acts c)
wake_reader-Armed acts c (v, e) = (wake_reader-IsCounted acts 0 c v, wake_reader-armed acts c e)

pub cancel_recv-Armed : (c : Conn) → Armed c → Armed (cancel_recv c)
unfolding cancel_recv
cancel_recv-Armed c a = a

-- The input ends with an error, and the receive is told so when more completions would follow.
pub cut_short-Armed :
    (is_more : Bool) (err_ : ℤ) (c : Conn)
    → Armed c
    → Armed (if is_more then cancel_recv (end_input err_ c) else end_input err_ c)
cut_short-Armed true err_ c a = cancel_recv-Armed (end_input err_ c) (end_input-Armed err_ c a)
cut_short-Armed false err_ c a = end_input-Armed err_ c a

pub push-Armed :
    (it : Item) (c : Conn)
    → c.closed ≡ false
    → (length c.rx == rx_queue) ≡ false
    → Armed c
    → Armed (record c { rx = c.rx ++ it ∷ [] })
push-Armed it c o room ((r, (x, w, f)), e) =
    ((r, ((λ y. absurd (cc (y, o))), w, ground (arith, length-append c.rx (it ∷ [])))), e)

pub on_data-Armed :
    (acts : List Act) (q : Completion) (c : Conn) → Armed c → Armed (on_data acts q c)
unfolding on_data bufring_return
on_data-Armed acts q c a = go (not q.has_buf) c.closed (length c.rx == rx_queue) refl refl
  where
    go :
        (x y z : Bool)
        → c.closed ≡ y
        → (length c.rx == rx_queue) ≡ z
        → Armed (
            if x
            then wake_reader acts
                (if q.is_more then cancel_recv (end_input eproto c) else end_input eproto c)
            else if y
            then bufring_return q.item.buf_id c
            else if z
            then wake_reader acts (
                if q.is_more
                then cancel_recv (end_input enobufs (bufring_return q.item.buf_id c))
                else end_input enobufs (bufring_return q.item.buf_id c))
            else wake_reader acts (record c { rx = c.rx ++ q.item ∷ [] }))
    go true y z h k =
        wake_reader-Armed acts
          (if q.is_more then cancel_recv (end_input eproto c) else end_input eproto c)
          (cut_short-Armed q.is_more eproto c a)
    go false true z h k = a
    go false false true h k =
        wake_reader-Armed acts
          (if q.is_more
            then cancel_recv (end_input enobufs (bufring_return q.item.buf_id c))
            else end_input enobufs (bufring_return q.item.buf_id c))
          (cut_short-Armed q.is_more enobufs (bufring_return q.item.buf_id c) a)
    go false false false h k =
        wake_reader-Armed acts (record c { rx = c.rx ++ q.item ∷ [] }) (push-Armed q.item c h k a)

pub after_data-IsCounted :
    (acts : List Act) (is_more each : Bool) (c : Conn)
    → Armed c
    → IsCounted 0 (after_data acts is_more each c)
unfolding after_data
after_data-IsCounted acts is_more each c a =
    go (not is_more) (c.pausing && not c.closed) (not c.closed && not c.eof) (each && not c.closed)
  where
    go :
        (x y z w : Bool)
        → IsCounted 0 (
            if x
            then (if y
                then wake_reader acts (record c { pausing = false; recv = paused })
                else if z
                then arm_recv c
                else conn_unref (recv_done c))
            else if w
            then cancel_recv c
            else c)
    go true true z w = paused_now-IsCounted acts c a
    go true false true w = arm_recv-IsCounted 0 c (armed-live c a.1) a.0
    go true false false w =
        conn_unref-IsCounted 0 (recv_done c) (recv_done-IsCounted 0 c (armed-live c a.1) a.0)
    go false y z true = (cancel_recv-Armed c a).0
    go false y z false = a.0

pub on_recv-IsCounted :
    (acts later : List Act) (each : Bool) (q : Completion) (c : Conn)
    → Armed c
    → IsCounted 0 (on_recv acts later each q c)
unfolding on_recv
on_recv-IsCounted acts later each q c a = go q.is_more
  where
    body :
        (x y : Bool) (c' : Conn)
        → Armed c'
        → IsCounted 0 (
            if x
            then on_starved acts c'
            else if y
            then on_ended acts q c'
            else after_data later q.is_more each (on_data acts q c'))
    body true y c' a' = on_starved-IsCounted acts c' a'
    body false true c' a' = on_ended-IsCounted acts q c' a'
    body false false c' a' =
        after_data-IsCounted later q.is_more each (on_data acts q c') (on_data-Armed acts q c' a')

    now : Conn → Conn
    now c' =
        if int_eq q.result enobufs
        then on_starved acts c'
        else if not (is_positive q.result)
        then on_ended acts q c'
        else after_data later q.is_more each (on_data acts q c')

    go : (m : Bool) → IsCounted 0 (now (if m then c else record c { cancelling = false }))
    go true = body (int_eq q.result enobufs) (not (is_positive q.result)) c a
    go false =
        body (int_eq q.result enobufs) (not (is_positive q.result))
          (record c { cancelling = false }) a

pub recv_drain-IsCounted :
    (acts : List Act) (c : Conn) → IsCounted 0 c → IsCounted 0 (recv_drain acts c)
unfolding recv_drain
recv_drain-IsCounted acts c v =
    go (not (state_eq c.recv starved)) (λ e. starved-live c (ground arith))
  where
    go :
        (x : Bool)
        → (x ≡ false → state_eq c.recv done ≡ false)
        → IsCounted 0
            (if x then c else conn_unref (wake_reader acts (recv_done (end_input ecanceled c))))
    go true h = v
    go false h = conn_unref-IsCounted 0 (wake_reader acts (recv_done (end_input ecanceled c))) (
        wake_reader-IsCounted acts 1 (recv_done (end_input ecanceled c)) (
          recv_done-IsCounted 0 (end_input ecanceled c) (end_input-live ecanceled c (h refl))
            (end_input-IsCounted 0 ecanceled c v)))
