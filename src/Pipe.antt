-- ===== src/Pipe.antt =====
-- The writer of lib/io/pipe.c over any connection. The slab is an array of `lead`, `cap` and `slack`
-- bytes; pending is a span of it. A result is true for 0 and false for -1.
pub mod Stream
pub mod Bounds
mod Tests
use libioma.Base.{
  ℕ, ◌+◌, ◌-◌, ◌≤◌, Bool, true, false, not, ◌&&◌, ◌||◌, Option, none, some, List, [], ◌∷◌, ◌++◌,
  ◌≡◌, Bytes, length, take, drop, blit, ltb, leb, ◌==◌, if◌then◌else◌,
}

-- What the writer asks of lib/io/conn.c: `ioxd__conn_send`, and `ioxd__conn_sendv` of two pieces. The
-- answer is whether the result was no error.
pub record Conn (C : Type 0) : Type 0 where
  pub send : C → Bytes → C × Bool
  pub sendv : C → Bytes → Bytes → C × Bool

-- As lib/io/conn.h says of them: all of the bytes, or an error.
pub record ConnLaws {C : Type 0} (k : Conn C) : Type 0 where
  pub sent : C → Bytes
  pub sent-send : (c : C) (b : Bytes) → (k.send c b).1 ≡ true → sent (k.send c b).0 ≡ sent c ++ b
  pub sent-sendv :
      (c : C) (a b : Bytes) → (k.sendv c a b).1 ≡ true → sent (k.sendv c a b).0 ≡ sent c ++ (a ++ b)

-- `ioxd_pipewriter`
pub record Writer (C : Type 0) : Type 0 where
  pub conn : C
  pub buf : Bytes
  pub lead : ℕ
  pub cap : ℕ
  pub slack : ℕ
  pub head : ℕ
  pub len : ℕ
  pub tail : ℕ
  pub failed : Bool

unfoldable pub init : {C : Type 0} → C → Bytes → ℕ → ℕ → ℕ → Writer C
init conn buf lead cap_ slack = record {
  conn = conn;
  buf = buf;
  lead = lead;
  cap = cap_;
  slack = slack;
  head = 0;
  len = 0;
  tail = 0;
  failed = false;
}

unfoldable pub reset : {C : Type 0} → Writer C → Writer C
reset pw = record pw { head = 0; len = 0; tail = 0 }

unfoldable pub room : {C : Type 0} → Writer C → ℕ
room pw = pw.cap - pw.len

-- The span that is sent: `total` bytes at `buf + lead - head`.
unfoldable pub pending : {C : Type 0} → Writer C → Bytes
pending pw = take (pw.head + pw.len + pw.tail) (drop (pw.lead - pw.head) pw.buf)

unfoldable pub advance : {C : Type 0} → ℕ → Writer C → Writer C
unfolding room
advance n pw = record pw { len = pw.len + (if ltb n (room pw) then n else room pw) }

-- `front`: where its bytes go, none for a null pointer.
unfoldable pub front : {C : Type 0} → ℕ → Writer C → Writer C × Option ℕ
front n pw =
    if ltb (pw.lead - pw.head) n
    then (pw, none)
    else (record pw { head = pw.head + n }, some (pw.lead - (pw.head + n)))

unfoldable pub back : {C : Type 0} → ℕ → Writer C → Writer C × Option ℕ
back n pw =
    if ltb (pw.slack - pw.tail) n
    then (pw, none)
    else (record pw { tail = pw.tail + n }, some (pw.lead + pw.len + pw.tail))

-- The end of `flush_with`, from what the connection answered.
unfoldable pub after_send : {C : Type 0} → Writer C → C × Bool → Writer C × Bool
unfolding reset
after_send pw (conn, done) =
    if done
    then (record (reset pw) { conn = conn }, true)
    else (record (reset pw) { conn = conn; failed = true }, false)

module _ {C : Type 0} (k : Conn C) where
  unfoldable pub flush_with : Bytes → Writer C → Writer C × Bool
  unfolding after_send pending
  flush_with bytes pw =
      let total : ℕ = pw.head + pw.len + pw.tail in
      if pw.failed
      then (pw, false)
      else if not (total == 0) && not (length bytes == 0)
      then after_send pw (k.sendv pw.conn (pending pw) bytes)
      else if not (total == 0)
      then after_send pw (k.send pw.conn (pending pw))
      else if not (length bytes == 0)
      then after_send pw (k.send pw.conn bytes)
      else after_send pw (pw.conn, true)

  unfoldable pub flush : Writer C → Writer C × Bool
  unfolding flush_with
  flush pw = flush_with [] pw

  -- Whether there is room for `n` bytes at `buf + lead + len`, false for a null pointer.
  unfoldable pub reserve : ℕ → Writer C → Writer C × Bool
  unfolding flush
  reserve n pw =
      if pw.failed || ltb pw.cap n
      then (pw, false)
      else if ltb pw.cap (pw.len + n)
      then flush pw
      else (pw, true)

  unfoldable pub through : Bytes → Writer C → Writer C × Bool
  through bytes pw =
      if pw.failed
      then (pw, false)
      else let (conn, done) = k.send pw.conn bytes in
        if done
        then (record pw { conn = conn }, true)
        else (record pw { conn = conn; failed = true }, false)

  -- `memcpy(at, bytes, n); pw->len += n;`
  unfoldable pub copy_in : Bytes → Writer C → Writer C
  unfolding blit
  copy_in bytes pw = record pw {
    buf = blit (pw.lead + pw.len) bytes pw.buf;
    len = pw.len + length bytes;
  }

  unfoldable pub write : Bytes → Writer C → Writer C × Bool
  unfolding flush through reserve copy_in
  write bytes pw =
      if pw.failed
      then (pw, false)
      else if ltb pw.cap (length bytes)
      then (let (pw', flushed) = flush pw in if flushed then through bytes pw' else (pw', false))
      else let (pw', at) = reserve (length bytes) pw in
        if at then (copy_in bytes pw', true) else (pw', false)

  unfoldable pub send : Bytes → Writer C → Writer C × Bool
  unfolding write flush
  send bytes pw = let (pw', written) = write bytes pw in if written then flush pw' else (pw', false)
