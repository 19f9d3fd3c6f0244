-- ===== src/Reader/Copy.antt =====
-- `ioxd__pipereader_copy`, `ioxd__pipereader_avail` and `ioxd__pipereader_inject` of lib/io/pipe.c.
use libioma.Base.{
  ℕ, zero, suc, Bool, true, false, not, Option, none, some, Bytes, length, take, ltb, ◌==◌,
  if◌then◌else◌,
}
use libioma.Reader.State.{Answer, ok, at_end, failed, Span, Reader, contents, live_span}
use libioma.Reader.Fill.{gather, append, make_room, more, to_come}
use libioma.Reader.Consume.{consume}

-- The loop of `ioxd__pipereader_copy`: the bytes copied out; none when the fuel is used up.
unfoldable pub copy_loop : ℕ → ℕ → Reader → Option (Reader × Answer Bytes)
unfolding live_span contents consume more
copy_loop zero n pr = none
copy_loop (suc fuel) n pr =
    if not ((live_span pr).len == 0)
    then (let k : ℕ = if ltb (live_span pr).len n then (live_span pr).len else n in
        some (consume k pr, ok (take k (contents pr (live_span pr)))))
    else elim (more pr).1 [
      | ok _ ↦ copy_loop fuel n (more pr).0
      | at_end ↦ some ((more pr).0, at_end)
      | failed e ↦ some ((more pr).0, failed e)
    ]

unfoldable pub copy : ℕ → Reader → Option (Reader × Answer Bytes)
unfolding copy_loop to_come
copy n pr = elim pr.error [
  | some e ↦ some (pr, failed e)
  | none ↦ copy_loop (suc (to_come pr)) n pr
]

-- The loop of `ioxd__pipereader_avail`, which stops where the ring is empty.
unfoldable pub avail_loop : ℕ → Reader → Option (Reader × Answer Span)
unfolding live_span more
avail_loop zero pr = none
avail_loop (suc fuel) pr =
    if ltb pr.examined (live_span pr).len
    then some (pr, ok (live_span pr))
    else if length pr.conn.rx == 0
    then some (pr, at_end)
    else elim (more pr).1 [
      | ok _ ↦ avail_loop fuel (more pr).0
      | at_end ↦ some ((more pr).0, at_end)
      | failed e ↦ some ((more pr).0, failed e)
    ]

unfoldable pub avail : Reader → Option (Reader × Answer Span)
unfolding avail_loop to_come
avail pr = elim pr.error [ some e ↦ some (pr, failed e) | none ↦ avail_loop (suc (to_come pr)) pr ]

-- The live bytes brought to the gathering buffer, and whether there was room.
unfoldable pub to_buf : Reader → Reader × Bool
unfolding gather
to_buf pr =
    if pr.live_in_buf
    then (pr, true)
    else if pr.has_cur
    then gather pr
    else (record pr { buf_pos = pr.floor; buf_end = pr.floor; live_in_buf = true }, true)

unfoldable pub append_data : Bytes → Reader × Bool → Reader × Bool
unfolding make_room append
append_data data_ (pr, gathered) =
    if gathered
    then (let (pr', room) = make_room (length data_) pr in
        if room then (append data_ pr', true) else (pr', false))
    else (pr, false)

unfoldable pub inject : Bytes → Reader → Reader × Bool
unfolding to_buf append_data
inject data_ pr = elim pr.error [ some _ ↦ (pr, false) | none ↦ append_data data_ (to_buf pr) ]
