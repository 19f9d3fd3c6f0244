-- ===== src/Reader/Consume.antt =====
-- Consuming and keeping live bytes, and ending the run (lib/io/pipe.c).
use libioma.Base.{
  ℕ, ◌+◌, ◌-◌, true, false, not, ◌&&◌, ◌||◌, Option, none, some, take, drop, blit, ltb, leb, ◌==◌,
  if◌then◌else◌,
}
use libioma.Reader.State.{full, Place, in_buf, in_cur, Span, Reader, live_span, give_back, cur_done}
use libioma.Reader.Fill.{pin}

unfoldable pub examine : ℕ → Reader → Reader
examine n pr = record pr { examined = n }

unfoldable pub skip : ℕ → Reader → Reader
unfolding cur_done
skip n pr =
    if pr.live_in_buf
    then (if leb pr.buf_end (pr.buf_pos + n)
        then record pr { buf_pos = pr.floor; buf_end = pr.floor; live_in_buf = false }
        else record pr { buf_pos = pr.buf_pos + n })
    else if pr.has_cur
    then cur_done (record pr { cur_pos = pr.cur_pos + n })
    else pr

-- No more than there is of the live bytes.
unfoldable pub at_most_live : ℕ → Reader → ℕ
unfolding live_span
at_most_live n pr = if ltb (live_span pr).len n then (live_span pr).len else n

unfoldable pub consume : ℕ → Reader → Reader
unfolding at_most_live skip
consume n pr = examine (pr.examined - at_most_live n pr) (skip (at_most_live n pr) pr)

unfoldable pub drop_live : ℕ → Reader → Reader
unfolding consume
drop_live n pr = consume n pr

-- The first `n` live bytes of the gathering buffer, moved to the end of the run.
unfoldable pub keep_in_buf : ℕ → Reader → Reader
unfolding blit
keep_in_buf n pr =
    if pr.run_len == 0
    then record pr { run_in_cur = false; run_start = pr.buf_pos; floor = pr.buf_pos + n }
    else if not (pr.buf_pos == pr.floor)
    then record pr {
      buf = blit pr.floor (take n (drop pr.buf_pos pr.buf)) pr.buf;
      floor = pr.floor + n;
    }
    else record pr { floor = pr.floor + n }

-- The first `n` live bytes of the kernel's buffer, moved to the end of the run in it.
unfoldable pub keep_in_cur : ℕ → Reader → Reader
unfolding blit
keep_in_cur n pr =
    let begun : Reader =
      if pr.run_len == 0 then record pr { run_in_cur = true; run_start = pr.cur_pos } else pr in
    if not (begun.run_start + begun.run_len == begun.cur_pos)
    then record begun {
      cur = record begun.cur {
        bytes =
            blit (begun.run_start + begun.run_len) (take n (drop begun.cur_pos begun.cur.bytes))
              begun.cur.bytes;
      };
    }
    else begun

-- The first `n` live bytes of the kernel's buffer, copied to the run in the gathering buffer.
unfoldable pub keep_out : ℕ → Reader → Reader
unfolding blit
keep_out n pr = record pr {
  buf = blit pr.floor (take n (drop pr.cur_pos pr.cur.bytes)) pr.buf;
  floor = pr.floor + n;
  buf_pos = pr.floor + n;
  buf_end = pr.floor + n;
}

unfoldable pub add_run : ℕ → Reader → Reader
add_run n pr = record pr { run_len = pr.run_len + n }

unfoldable pub kept : ℕ → Place → ℕ → Reader → Reader × Option Span
unfolding add_run consume
kept n place at pr = (consume n (add_run n pr), some (record { place = place; at = at; len = n }))

-- Where the bytes are, none for a null pointer.
unfoldable pub keep : ℕ → Reader → Reader × Option Span
unfolding live_span keep_in_buf keep_in_cur keep_out kept
keep n pr =
    if ltb (live_span pr).len n
    then (pr, none)
    else if n == 0
    then (pr, some (record (live_span pr) { len = 0 }))
    else if pr.live_in_buf
    then kept n in_buf (if pr.run_len == 0 then pr.buf_pos else pr.floor) (keep_in_buf n pr)
    else if pr.has_cur && (pr.run_len == 0 || pr.run_in_cur)
    then kept n in_cur (if pr.run_len == 0 then pr.cur_pos else pr.run_start + pr.run_len)
        (keep_in_cur n pr)
    else if pr.has_cur
    then (if ltb pr.cap (pr.floor + n)
        then (record pr { error = some full }, none)
        else kept n in_buf pr.floor (keep_out n pr))
    else (pr, none)

-- The run in the kernel's buffer, held there by pinning the buffer, or copied out of it when another
-- one is pinned.
unfoldable pub freeze : Reader → Reader
unfolding blit pin
freeze pr =
    if pr.run_in_cur && not (pr.run_len == 0)
    then (if pr.has_pinned && not pr.cur_is_pinned
        then (if ltb pr.cap (pr.floor + pr.run_len)
            then record pr { error = some full }
            else record pr {
              buf = blit pr.floor (take pr.run_len (drop pr.run_start pr.cur.bytes)) pr.buf;
              floor = pr.floor + pr.run_len;
            })
        else pin pr)
    else pr

unfoldable pub end_run : Reader → Reader
end_run pr = record pr { run_len = 0; run_in_cur = false }

unfoldable pub run_begin : Reader → Reader
unfolding freeze end_run cur_done
run_begin pr = cur_done (end_run (freeze pr))

unfoldable pub run : Reader → Span
run pr = record {
  place = if pr.run_in_cur then in_cur else in_buf;
  at = pr.run_start;
  len = pr.run_len;
}

-- The live bytes of the gathering buffer, moved to its start, where no byte is kept now.
unfoldable pub move_down : Reader → Reader
unfolding blit
move_down pr =
    if pr.live_in_buf
    then record pr {
      buf = blit 0 (take (pr.buf_end - pr.buf_pos) (drop pr.buf_pos pr.buf)) pr.buf;
      buf_end = pr.buf_end - pr.buf_pos;
      buf_pos = 0;
      floor = 0;
    }
    else record pr { buf_pos = 0; buf_end = 0; floor = 0 }

unfoldable pub unpin : Reader → Reader
unfolding give_back
unpin pr =
    if pr.has_pinned
    then (if pr.cur_is_pinned
        then record pr { cur_is_pinned = false; has_pinned = false }
        else record (give_back pr.pinned.buf_id pr) { has_pinned = false })
    else pr

unfoldable pub release : Reader → Reader
unfolding end_run move_down unpin cur_done
release pr = cur_done (unpin (move_down (end_run pr)))

unfoldable pub close : Reader → Reader
unfolding give_back
close pr =
    let a : Reader =
      if pr.has_cur && not pr.cur_is_pinned then give_back pr.cur.buf_id pr else pr in
    let b : Reader = if a.has_pinned then give_back a.pinned.buf_id a else a in
    record b { has_cur = false; has_pinned = false; cur_is_pinned = false }
