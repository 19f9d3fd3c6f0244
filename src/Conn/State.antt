-- ===== src/Conn/State.antt =====
-- A connection of lib/io/conn.c and what changes one field or two of it. `recycled` counts the ends of
-- `conn_unref`, where the connection goes back to the pool or is freed.
use libioma.Base.{
  ℕ, ◌+◌, ◌-◌, Bool, true, false, not, List, [], ◌∷◌, ◌==◌, if◌then◌else◌, ℤ, pos, negsuc,
}
use libioma.Reader.State.{Item}

-- RX_QUEUE
abbrev pub rx_queue : ℕ
rx_queue = 64

-- `enum recv_state`
pub data RecvState : Type 0 where
  armed : RecvState
  starved : RecvState
  paused : RecvState
  done : RecvState

-- `struct conn`, with the buffers it gave back. `waiter` is whether the coroutine waits for bytes, `tls`
-- whether its listener has certificates; `rx` is the ring's content.
pub record Conn : Type 0 where
  pub waiter : Bool
  pub tls : Bool
  pub rx : List Item
  pub recv : RecvState
  pub pausing : Bool
  pub cancelling : Bool
  pub refs : ℕ
  pub closed : Bool
  pub eof : Bool
  pub err : ℤ
  pub returned : List ℕ
  pub recycled : ℕ

-- A completion of the multishot receive.
pub record Completion : Type 0 where
  pub result : ℤ
  pub is_more : Bool
  pub has_buf : Bool
  pub item : Item

-- Linux's error numbers, negated.
abbrev pub enobufs : ℤ
enobufs = negsuc 104

abbrev pub ecanceled : ℤ
ecanceled = negsuc 124

abbrev pub eproto : ℤ
eproto = negsuc 70

abbrev pub eio : ℤ
eio = negsuc 4

unfoldable pub int_eq : ℤ → ℤ → Bool
int_eq (pos m) (pos n) = m == n
int_eq (negsuc m) (negsuc n) = m == n
int_eq (pos m) (negsuc n) = false
int_eq (negsuc m) (pos n) = false

unfoldable pub is_positive : ℤ → Bool
is_positive (pos n) = not (n == 0)
is_positive (negsuc n) = false

unfoldable pub state_eq : RecvState → RecvState → Bool
state_eq armed armed = true
state_eq starved starved = true
state_eq paused paused = true
state_eq done done = true
state_eq _ _ = false

-- `ioxd__conn_new`
unfoldable pub conn_new : Bool → Conn
conn_new tls_ = record {
  waiter = false;
  tls = tls_;
  rx = [];
  recv = armed;
  pausing = false;
  cancelling = false;
  refs = 2;
  closed = false;
  eof = false;
  err = pos 0;
  returned = [];
  recycled = 0;
}

-- A cancel that is in flight is not staged again.
unfoldable pub cancel_recv : Conn → Conn
cancel_recv c = record c { cancelling = true }

unfoldable pub end_input : ℤ → Conn → Conn
end_input err_ c = if c.eof then c else record c { eof = true; err = err_ }

unfoldable pub conn_unref : Conn → Conn
conn_unref c =
    if c.refs - 1 == 0
    then record c { refs = c.refs - 1; recycled = c.recycled + 1 }
    else record c { refs = c.refs - 1 }

unfoldable pub arm_recv : Conn → Conn
arm_recv c = record c { recv = armed; cancelling = false }

unfoldable pub bufring_return : ℕ → Conn → Conn
bufring_return id c = record c { returned = id ∷ c.returned }

unfoldable pub recv_done : Conn → Conn
recv_done c = record c { recv = done }
