-- ===== src/Reader/Answered.antt =====
-- The fuel of the waiting loops of lib/io/pipe.c is enough, whatever state the reader is in: a round takes
-- an item of the connection.
use libioma.Base.{
  ℕ, zero, suc, ◌+◌, ◌<◌, Bool, true, false, not, Option, none, some, ◌≡◌, arith, length, ltb, ◌==◌,
  if◌then◌else◌,
}
use libioma.Reader.State.{Input, Reader, Answer, ok, at_end, failed, gone, Error, live_span}
use libioma.Reader.Fill.{Received, item, ended, recv_item, receive, more, read_loop, read, to_come}
use libioma.Reader.Copy.{avail_loop, avail, copy_loop, copy}
use libioma.Reader.Waiting.{GivesUp, recv_item-GivesUp, receive-conn}

unfoldable pub HasAnswer : {A : Type 0} → Option A → Type 0
HasAnswer none = ⊥
HasAnswer (some x) = Unit

unfoldable Fewer : Reader → Reader × Answer Unit → Type 0
Fewer pr (q, ok _) = suc (to_come q) ≡ to_come pr
Fewer pr (q, at_end) = Unit
Fewer pr (q, failed e) = Unit

received-Fewer :
    (pr : Reader) (c : Input) (r : Reader × Answer Unit)
    → r.0.conn ≡ c
    → suc (length c.rx + length c.arriving) ≡ length pr.conn.rx + length pr.conn.arriving
    → Fewer pr r
unfolding Fewer to_come
received-Fewer pr c (q, ok _) e n = rw e n
received-Fewer pr c (q, at_end) e n = tt
received-Fewer pr c (q, failed x) e n = tt

more-Fewer : (pr : Reader) → Fewer pr (more pr)
unfolding more Fewer GivesUp
more-Fewer pr = go pr.eof (recv_item pr.conn) (recv_item-GivesUp pr.conn)
  where
    go :
        (e : Bool) (r : Input × Received)
        → GivesUp pr.conn r
        → Fewer pr (
            if e then (pr, at_end) else elim r.1 [
              | item it ↦ receive it (record pr { conn = r.0 })
              | ended err ↦
                  if err
                  then (record pr { conn = r.0; eof = true; error = some gone }, failed gone)
                  else (record pr { conn = r.0; eof = true }, at_end)
            ])
    go true r g = tt
    go false (c, item it) (f, n) =
        received-Fewer pr c (receive it (record pr { conn = c }))
          (receive-conn it (record pr { conn = c })) n
    go false (c, ended true) g = tt
    go false (c, ended false) g = tt

again-HasAnswer :
    {A : Type 0} (pr : Reader) (r : Reader × Answer Unit) (o : Option (Reader × Answer A))
    → Fewer pr r
    → (suc (to_come r.0) ≡ to_come pr → HasAnswer o)
    → HasAnswer
        (elim r.1 [ ok _ ↦ o | at_end ↦ some (r.0, at_end) | failed e ↦ some (r.0, failed e) ])
unfolding Fewer HasAnswer
again-HasAnswer pr (q, ok _) o n h = h n
again-HasAnswer pr (q, at_end) o n h = tt
again-HasAnswer pr (q, failed e) o n h = tt

test-HasAnswer :
    {A : Type 0} (c : Bool) (x y : Option A)
    → HasAnswer x
    → HasAnswer y
    → HasAnswer (if c then x else y)
test-HasAnswer true x y f g = f
test-HasAnswer false x y f g = g

read_loop-HasAnswer : (fuel : ℕ) (pr : Reader) → to_come pr < fuel → HasAnswer (read_loop fuel pr)
unfolding read_loop HasAnswer
read_loop-HasAnswer zero pr h = absurd (omega arith)
read_loop-HasAnswer (suc fuel) pr h = test-HasAnswer (ltb pr.examined (live_span pr).len) _ _ tt (
    again-HasAnswer pr (more pr) (read_loop fuel (more pr).0) (more-Fewer pr)
      λ n. read_loop-HasAnswer fuel (more pr).0 (omega (arith, n, h)))

avail_loop-HasAnswer : (fuel : ℕ) (pr : Reader) → to_come pr < fuel → HasAnswer (avail_loop fuel pr)
unfolding avail_loop HasAnswer
avail_loop-HasAnswer zero pr h = absurd (omega arith)
avail_loop-HasAnswer (suc fuel) pr h = test-HasAnswer (ltb pr.examined (live_span pr).len) _ _ tt (
    test-HasAnswer (length pr.conn.rx == 0) _ _ tt (
      again-HasAnswer pr (more pr) (avail_loop fuel (more pr).0) (more-Fewer pr)
        λ n. avail_loop-HasAnswer fuel (more pr).0 (omega (arith, n, h))))

copy_loop-HasAnswer :
    (fuel n : ℕ) (pr : Reader) → to_come pr < fuel → HasAnswer (copy_loop fuel n pr)
unfolding copy_loop HasAnswer
copy_loop-HasAnswer zero n pr h = absurd (omega arith)
copy_loop-HasAnswer (suc fuel) n pr h = test-HasAnswer (not ((live_span pr).len == 0)) _ _ tt (
    again-HasAnswer pr (more pr) (copy_loop fuel n (more pr).0) (more-Fewer pr)
      λ m. copy_loop-HasAnswer fuel n (more pr).0 (omega (arith, m, h)))

sticky-HasAnswer :
    {A : Type 0} (pr : Reader) (error : Option Error) (o : Option (Reader × Answer A))
    → HasAnswer o
    → HasAnswer (elim error [ some e ↦ some (pr, failed e) | none ↦ o ])
unfolding HasAnswer
sticky-HasAnswer pr none o h = h
sticky-HasAnswer pr (some e) o h = tt

pub read-HasAnswer : (pr : Reader) → HasAnswer (read pr)
unfolding read
read-HasAnswer pr =
    sticky-HasAnswer pr pr.error _ (read_loop-HasAnswer (suc (to_come pr)) pr (omega arith))

pub avail-HasAnswer : (pr : Reader) → HasAnswer (avail pr)
unfolding avail
avail-HasAnswer pr =
    sticky-HasAnswer pr pr.error _ (avail_loop-HasAnswer (suc (to_come pr)) pr (omega arith))

pub copy-HasAnswer : (n : ℕ) (pr : Reader) → HasAnswer (copy n pr)
unfolding copy
copy-HasAnswer n pr =
    sticky-HasAnswer pr pr.error _ (copy_loop-HasAnswer (suc (to_come pr)) n pr (omega arith))
