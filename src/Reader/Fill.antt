-- ===== src/Reader/Fill.antt =====
-- Received buffers come in: `gather`, `compact`, `more` and `ioxd__pipereader_read` of lib/io/pipe.c, and
-- `ioxd__conn_recv_item` of lib/io/conn.c. What a call that waits sees of the connection is the list of the
-- items still to come.
use libioma.Base.{
  ℕ, zero, suc, ◌+◌, ◌-◌, Bool, true, false, not, ◌&&◌, Option, none, some, [], ◌∷◌, Bytes, length,
  take, drop, blit, ltb, ◌==◌, if◌then◌else◌,
}
use libioma.Reader.State.{
  Item, Input, gone, full, Answer, ok, at_end, failed, Span, Reader, live_span, give_back, cur_done,
}

unfoldable pub compact : Reader → Reader
unfolding blit
compact pr =
    if ltb pr.floor pr.buf_pos
    then record pr {
      buf = blit pr.floor (take (pr.buf_end - pr.buf_pos) (drop pr.buf_pos pr.buf)) pr.buf;
      buf_end = pr.buf_end - (pr.buf_pos - pr.floor);
      buf_pos = pr.floor;
    }
    else pr

-- `pinned = cur`
unfoldable pub pin : Reader → Reader
pin pr = record pr { pinned = pr.cur; has_pinned = true; cur_is_pinned = true }

-- The run in the kernel's buffer, copied behind the kept bytes.
unfoldable pub gather_run : ℕ → Reader → Reader
unfolding blit pin
gather_run run pr =
    if run == 0
    then pr
    else let moved : Reader = record pr {
      buf = blit pr.floor (take run (drop pr.run_start pr.cur.bytes)) pr.buf;
      run_start = pr.floor;
      floor = pr.floor + run;
    } in
      if pr.has_pinned then moved else pin moved

-- The live bytes, copied behind the run.
unfoldable pub gather_live : ℕ → Reader → Reader
unfolding blit
gather_live live pr = record pr {
  buf = blit pr.floor (take live (drop pr.cur_pos pr.cur.bytes)) pr.buf;
  run_in_cur = false;
  buf_pos = pr.floor;
  buf_end = pr.floor + live;
  live_in_buf = true;
}

unfoldable pub use_up : Reader → Reader
unfolding cur_done
use_up pr = if pr.has_cur then cur_done (record pr { cur_pos = length pr.cur.bytes }) else pr

unfoldable pub gather : Reader → Reader × Bool
unfolding gather_run gather_live use_up
gather pr =
    let live : ℕ = if pr.has_cur then length pr.cur.bytes - pr.cur_pos else 0 in
    let run : ℕ = if pr.run_in_cur then pr.run_len else 0 in
    if ltb pr.cap (pr.floor + run + live)
    then (pr, false)
    else (use_up (gather_live live (gather_run run pr)), true)

unfoldable pub refuse : Item → Reader → Reader × Answer Unit
unfolding give_back
refuse item pr = (record (give_back item.buf_id pr) { error = some full }, failed full)

-- `memcpy(buf + buf_end, bytes, n); buf_end += n;`
unfoldable pub append : Bytes → Reader → Reader
unfolding blit
append bytes pr = record pr {
  buf = blit pr.buf_end bytes pr.buf;
  buf_end = pr.buf_end + length bytes;
}

-- Room for `n` bytes at `buf_end`, after moving the live bytes down when that is needed.
unfoldable pub make_room : ℕ → Reader → Reader × Bool
unfolding compact
make_room n pr =
    if ltb pr.cap (pr.buf_end + n)
    then (let pr' : Reader = compact pr in (pr', not (ltb pr'.cap (pr'.buf_end + n))))
    else (pr, true)

-- `ioxd__conn_recv_item`: the ring's next item, one that arrives while the caller waits, or the end.
pub data Received : Type 0 where
  item : Item → Received
  ended : Bool → Received

unfoldable pub recv_item : Input → Input × Received
recv_item c = elim c.rx [
  | it ∷ rest ↦ (record c { rx = rest }, item it)
  | [] ↦ elim c.arriving [
    | it ∷ rest ↦ (record c { arriving = rest }, item it)
    | [] ↦ (c, ended c.err)
  ]
]

unfoldable pub take_in : Item → Reader → Reader
take_in it pr = record pr { cur = it; has_cur = true; cur_pos = 0; cur_is_pinned = false }

-- The item's bytes behind the live bytes of the gathering buffer.
unfoldable pub append_item : Item → Reader × Bool → Reader × Answer Unit
unfolding make_room append give_back refuse
append_item it (pr, gathered) =
    if gathered
    then (let (pr', room) = make_room (length it.bytes) pr in
        if room then (give_back it.buf_id (append it.bytes pr'), ok tt) else refuse it pr')
    else refuse it pr

unfoldable pub receive : Item → Reader → Reader × Answer Unit
unfolding take_in append_item gather
receive it pr =
    if not pr.live_in_buf && not pr.has_cur
    then (take_in it pr, ok tt)
    else append_item it (if pr.live_in_buf then (pr, true) else gather pr)

unfoldable pub more : Reader → Reader × Answer Unit
unfolding recv_item receive
more pr =
    if pr.eof
    then (pr, at_end)
    else let (conn, received) = recv_item pr.conn in
      elim received [
        | item it ↦ receive it (record pr { conn = conn })
        | ended err ↦
            if err
            then (record pr { conn = conn; eof = true; error = some gone }, failed gone)
            else (record pr { conn = conn; eof = true }, at_end)
      ]

-- The loop of `ioxd__pipereader_read`; none when the fuel is used up.
unfoldable pub read_loop : ℕ → Reader → Option (Reader × Answer Span)
unfolding live_span more
read_loop zero pr = none
read_loop (suc fuel) pr =
    if ltb pr.examined (live_span pr).len then some (pr, ok (live_span pr)) else elim (more pr).1 [
      | ok _ ↦ read_loop fuel (more pr).0
      | at_end ↦ some ((more pr).0, at_end)
      | failed e ↦ some ((more pr).0, failed e)
    ]

-- How many items are to come.
unfoldable pub to_come : Reader → ℕ
to_come pr = length pr.conn.rx + length pr.conn.arriving

unfoldable pub read : Reader → Option (Reader × Answer Span)
unfolding read_loop to_come
read pr = elim pr.error [ some e ↦ some (pr, failed e) | none ↦ read_loop (suc (to_come pr)) pr ]
