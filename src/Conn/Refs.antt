-- ===== src/Conn/Refs.antt =====
-- The references of a connection of lib/io/conn.c while its coroutine runs.
use libioma.Base.{
  ℕ, suc, ◌+◌, ◌≤◌, Bool, true, false, not, ◌||◌, List, [], ◌∷◌, ◌≡◌, refl, ap, ◌∙◌, arith, length,
  ◌==◌, if◌then◌else◌, ℤ,
}
use libioma.Reader.State.{Item}
use libioma.Conn.State.{
  Conn, RecvState, armed, starved, paused, done, rx_queue, state_eq, cancel_recv, end_input,
  conn_unref, arm_recv, recv_done, ecanceled,
}
use libioma.Conn.Coroutine.{
  close_recv, drop_rx, close, pause_begin, pause_end, resume, recv_item, Act, receiving,
  begin_pause, end_pause, resuming, closing, act, run, wake_reader,
}

-- A reference for the coroutine, until it has closed the connection.
abbrev pub coroutine_ref : Conn → ℕ
coroutine_ref c = if c.closed then 0 else 1

-- A reference for the receive, until its last completion.
abbrev pub recv_ref : Conn → ℕ
recv_ref c = if state_eq c.recv done then 0 else 1

-- One for each user, and `n` that are about to be dropped; recycled once, when there is none.
abbrev pub Refs : ℕ → Conn → Type 0
Refs n c =
    (c.refs ≡ coroutine_ref c + recv_ref c + n) × (c.recycled ≡ (if c.refs == 0 then 1 else 0))

-- The coroutine that closed waits for nothing and left nothing in the ring, which holds no more than it
-- can.
abbrev pub Ring : Conn → Type 0
Ring c =
    (c.closed ≡ true → length c.rx ≡ 0)
    × (c.closed ≡ true → c.waiter ≡ false)
    × (length c.rx ≤ rx_queue)

abbrev pub IsCounted : ℕ → Conn → Type 0
IsCounted n c = Refs n c × Ring c

pub conn_unref-IsCounted : (n : ℕ) (c : Conn) → IsCounted (suc n) c → IsCounted n (conn_unref c)
unfolding conn_unref state_eq
conn_unref-IsCounted n c ((r, o), (e, w, f)) =
    ((ground arith, ground arith), (ground arith, ground arith, ground arith))

pub close_recv-Refs : (n : ℕ) (c : Conn) → Refs (suc n) c → Refs (suc n) (close_recv c)
unfolding close_recv cancel_recv state_eq
close_recv-Refs n c (r, o) = go c.recv refl
  where
    go : (s : RecvState) → c.recv ≡ s → Refs (suc n) (close_recv c)
    go armed e = (ground arith, ground arith)
    go starved e = (ground arith, ground arith)
    go paused e = (ground arith, ground arith)
    go done e = (ground arith, ground arith)

pub close_recv-waiter : (c : Conn) → (close_recv c).waiter ≡ c.waiter
unfolding close_recv cancel_recv
close_recv-waiter c = ground arith

pub drop_rx-IsCounted : (n : ℕ) (c : Conn) → c.waiter ≡ false → Refs n c → IsCounted n (drop_rx c)
unfolding drop_rx
drop_rx-IsCounted n c w r = (r, ((λ e. refl), (λ e. w), omega arith))

pub close-IsCounted :
    (n : ℕ) (c : Conn) → c.closed ≡ false → c.waiter ≡ false → IsCounted n c → IsCounted n (close c)
unfolding close
close-IsCounted n c o w ((r, u), q) = conn_unref-IsCounted n (drop_rx (close_recv closed)) (
    drop_rx-IsCounted (suc n) (close_recv closed) (close_recv-waiter closed ∙ w)
      (close_recv-Refs n closed (ground arith, u)))
  where
    closed : Conn
    closed = record c { closed = true }

pub pause_begin-IsCounted :
    (n : ℕ) (c : Conn) → c.closed ≡ false → IsCounted n c → IsCounted n (pause_begin c)
unfolding pause_begin cancel_recv state_eq
pause_begin-IsCounted n c o ((r, o'), (e, w, f)) =
    ((ground arith, ground arith), (ground arith, ground arith, ground arith))

pub pause_end-IsCounted :
    (n : ℕ) (c : Conn) → c.closed ≡ false → IsCounted n c → IsCounted n (pause_end c)
unfolding pause_end cancel_recv state_eq
pause_end-IsCounted n c o ((r, o'), (e, w, f)) =
    ((ground arith, ground arith), (ground arith, ground arith, ground arith))

pub recv_done-IsCounted :
    (n : ℕ) (c : Conn)
    → state_eq c.recv done ≡ false
    → IsCounted n c
    → IsCounted (suc n) (recv_done c)
unfolding recv_done state_eq
recv_done-IsCounted n c e ((r, o), q) = ((ground arith, ground arith), q)

pub end_input-IsCounted :
    (n : ℕ) (err_ : ℤ) (c : Conn) → IsCounted n c → IsCounted n (end_input err_ c)
unfolding end_input
end_input-IsCounted n err_ c ((r, o), (e, w, f)) =
    ((ground arith, ground arith), (ground arith, ground arith, ground arith))

pub arm_recv-IsCounted :
    (n : ℕ) (c : Conn) → state_eq c.recv done ≡ false → IsCounted n c → IsCounted n (arm_recv c)
unfolding arm_recv state_eq
arm_recv-IsCounted n c e ((r, o), q) = ((ground arith, ground arith), q)

pub recv_item-IsCounted :
    (n : ℕ) (c : Conn) → c.closed ≡ false → IsCounted n c → IsCounted n (recv_item c)
unfolding recv_item
recv_item-IsCounted n c o ((r, o'), (e, w, f)) = go c.rx refl
  where
    go :
        (rx : List Item)
        → c.rx ≡ rx
        → IsCounted n (elim rx [
          | it ∷ rest ↦ record c { rx = rest }
          | [] ↦ if c.eof then c else record c { waiter = true }
        ])
    go (it ∷ rest) x = ((r, o'), ((λ y. absurd (cc (y, o))), w, omega (arith, f, ap length x)))
    go [] x = ((ground arith, ground arith), (ground arith, ground arith, ground arith))

pub paused-live : (c : Conn) → state_eq c.recv paused ≡ true → state_eq c.recv done ≡ false
unfolding state_eq
paused-live c h = ground arith

pub end_input-live :
    (err_ : ℤ) (c : Conn)
    → state_eq c.recv done ≡ false
    → state_eq (end_input err_ c).recv done ≡ false
unfolding end_input
end_input-live err_ c h = ground arith

pub resume-IsCounted :
    (draining : Bool) (n : ℕ) (c : Conn) → IsCounted n c → IsCounted n (resume draining c)
unfolding resume
resume-IsCounted draining n c v =
    go (not (state_eq c.recv paused) || c.eof || c.closed) draining
      (λ e. paused-live c (ground arith))
  where
    go :
        (x y : Bool)
        → (x ≡ false → state_eq c.recv done ≡ false)
        → IsCounted n (
            if x
            then c
            else if y
            then conn_unref (recv_done (end_input ecanceled c))
            else arm_recv c)
    go true y h = v
    go false true h = conn_unref-IsCounted n (recv_done (end_input ecanceled c)) (
        recv_done-IsCounted n (end_input ecanceled c) (end_input-live ecanceled c (h refl))
          (end_input-IsCounted n ecanceled c v))
    go false false h = arm_recv-IsCounted n c (h refl) v

pub act-IsCounted :
    (a : Act) (n : ℕ) (c : Conn)
    → c.closed ≡ false
    → c.waiter ≡ false
    → IsCounted n c
    → IsCounted n (act a c)
unfolding act
act-IsCounted receiving n c o w v = recv_item-IsCounted n c o v
act-IsCounted begin_pause n c o w v = pause_begin-IsCounted n c o v
act-IsCounted end_pause n c o w v = pause_end-IsCounted n c o v
act-IsCounted (resuming draining) n c o w v = resume-IsCounted draining n c v
act-IsCounted closing n c o w v = close-IsCounted n c o w v

pub run-IsCounted : (acts : List Act) (n : ℕ) (c : Conn) → IsCounted n c → IsCounted n (run acts c)
unfolding run
run-IsCounted [] n c v = v
run-IsCounted (a ∷ acts) n c v =
    go c.waiter c.closed (λ e f. run-IsCounted acts n (act a c) (act-IsCounted a n c f e v)) refl
      refl
  where
    go :
        (x y : Bool)
        → (c.waiter ≡ false → c.closed ≡ false → IsCounted n (run acts (act a c)))
        → c.waiter ≡ x
        → c.closed ≡ y
        → IsCounted n (if x || y then c else run acts (act a c))
    go true y h e f = v
    go false true h e f = v
    go false false h e f = h e f

pub wake_reader-IsCounted :
    (acts : List Act) (n : ℕ) (c : Conn) → IsCounted n c → IsCounted n (wake_reader acts c)
unfolding wake_reader
wake_reader-IsCounted acts n c (r, (e, w, f)) = go c.waiter
  where
    go : (x : Bool) → IsCounted n (if x then run acts (record c { waiter = false }) else c)
    go true = run-IsCounted acts n (record c { waiter = false }) (r, (e, (λ x. refl), f))
    go false = (r, (e, w, f))
