-- ===== src/Reader/Waiting.antt =====
-- What the waiting loops of lib/io/pipe.c get from the connection, and that they end.
use libioma.Base.{
  ℕ, zero, suc, ◌+◌, ◌-◌, ◌<◌, Bool, true, false, not, ◌&&◌, Option, none, some, List, [], ◌∷◌,
  ◌++◌, ◌≡◌, refl, sym, ap, ◌∙◌, arith, Bytes, length, ltb, ◌==◌, if◌then◌else◌, append_assoc,
}
use libioma.Reader.State.{
  Item, Input, Reader, Answer, ok, at_end, failed, gone, Span, live_span, give_back, forget_cur,
  cur_done,
}
use libioma.Reader.Fill.{
  Received, item, ended, use_up, compact, pin, gather_run, gather_live, gather, refuse, append,
  make_room, recv_item, take_in, append_item, receive, more, read_loop, to_come,
}
use libioma.Reader.Copy.{avail_loop}
use libioma.Reader.Live.{IsValid, live, live-if}
use libioma.Reader.Gathered.{Adds, receive-Adds}

-- The bytes of items, joined.
unfoldable pub joined : List Item → Bytes
joined [] = []
joined (it ∷ its) = it.bytes ++ joined its

unfoldable pub coming : Input → Bytes
unfolding joined
coming c = joined c.rx ++ joined c.arriving

-- The bytes that are not yet consumed, received or not.
unfoldable pub stream : Reader → Bytes
unfolding live coming
stream pr = live pr ++ coming pr.conn

use_up-conn : (pr : Reader) → (use_up pr).conn ≡ pr.conn
unfolding use_up cur_done forget_cur give_back
use_up-conn pr = ground arith

gather_run-conn : (n : ℕ) (pr : Reader) → (gather_run n pr).conn ≡ pr.conn
unfolding gather_run pin
gather_run-conn n pr = ground arith

gather_live-conn : (n : ℕ) (pr : Reader) → (gather_live n pr).conn ≡ pr.conn
unfolding gather_live
gather_live-conn n pr = refl

gather-conn : (pr : Reader) → (gather pr).0.conn ≡ pr.conn
unfolding gather
gather-conn pr = go (ltb pr.cap (pr.floor + m + n))
  where
    n : ℕ
    n = if pr.has_cur then length pr.cur.bytes - pr.cur_pos else 0

    m : ℕ
    m = if pr.run_in_cur then pr.run_len else 0

    P : Reader × Bool → Type 0
    P r = r.0.conn ≡ pr.conn

    go :
        (c : Bool) → P (if c then (pr, false) else (use_up (gather_live n (gather_run m pr)), true))
    go true = refl
    go false =
        use_up-conn (gather_live n (gather_run m pr))
        ∙ (gather_live-conn n (gather_run m pr) ∙ gather_run-conn m pr)

make_room-conn : (n : ℕ) (pr : Reader) → (make_room n pr).0.conn ≡ pr.conn
unfolding make_room compact
make_room-conn n pr = ground arith

append_item-conn : (it : Item) (r : Reader × Bool) → (append_item it r).0.conn ≡ r.0.conn
unfolding append_item append refuse give_back
append_item-conn it (pr, false) = refl
append_item-conn it (pr, true) = go (make_room (length it.bytes) pr).1
  where
    room : Reader
    room = (make_room (length it.bytes) pr).0

    done : Answer Unit
    done = ok tt

    P : Reader × Answer Unit → Type 0
    P r = r.0.conn ≡ pr.conn

    go :
        (c : Bool)
        → P (if c then (give_back it.buf_id (append it.bytes room), done) else refuse it room)
    go true = make_room-conn (length it.bytes) pr
    go false = make_room-conn (length it.bytes) pr

pub receive-conn : (it : Item) (pr : Reader) → (receive it pr).0.conn ≡ pr.conn
unfolding receive take_in
receive-conn it pr = go pr.live_in_buf pr.has_cur
  where
    P : Reader × Answer Unit → Type 0
    P r = r.0.conn ≡ pr.conn

    go :
        (l c : Bool)
        → P (
            if not l && not c
            then (take_in it pr, ok tt)
            else append_item it (if l then (pr, true) else gather pr))
    go false false = refl
    go true c = append_item-conn it (pr, true)
    go false true = append_item-conn it (gather pr) ∙ gather-conn pr

-- What the connection gives is what it had.
unfoldable pub GivesUp : Input → Input × Received → Type 0
unfolding coming
GivesUp c (c', item it) =
    (it.bytes ++ coming c' ≡ coming c)
    × (suc (length c'.rx + length c'.arriving) ≡ length c.rx + length c.arriving)
GivesUp c (c', ended err) = c' ≡ c

pub recv_item-GivesUp : (c : Input) → GivesUp c (recv_item c)
unfolding GivesUp recv_item coming joined
recv_item-GivesUp c = go c.rx c.arriving refl refl
  where
    go :
        (rx arriving : List Item)
        → c.rx ≡ rx
        → c.arriving ≡ arriving
        → GivesUp c (elim rx [
          | it ∷ rest ↦ (record c { rx = rest }, item it)
          | [] ↦ elim arriving [
            | it ∷ rest ↦ (record c { arriving = rest }, item it)
            | [] ↦ (c, ended c.err)
          ]
        ])
    go (it ∷ rest) arriving e f =
        (rw e (sym (append_assoc it.bytes (joined rest) (joined c.arriving))), rw e (omega arith))
    go [] (it ∷ rest) e f = rw (e, f) (refl, omega arith)
    go [] [] e f = refl

-- What is left after `more`: the stream and one item less to come, the stream at its end, or an error.
unfoldable pub MoreGives : Reader → Reader × Answer Unit → Type 0
MoreGives pr (q, ok _) = IsValid q × (stream q ≡ stream pr) × (suc (to_come q) ≡ to_come pr)
MoreGives pr (q, at_end) = IsValid q × (stream q ≡ stream pr)
MoreGives pr (q, failed e) = IsValid q × (q.error ≡ some e)

pub received-MoreGives :
    (it : Item) (pr p : Reader) (c : Input) (r : Reader × Answer Unit)
    → live p ≡ live pr
    → Adds p it.bytes r
    → r.0.conn ≡ c
    → it.bytes ++ coming c ≡ coming pr.conn
    → suc (length c.rx + length c.arriving) ≡ length pr.conn.rx + length pr.conn.arriving
    → MoreGives pr r
unfolding Adds MoreGives stream to_come
received-MoreGives it pr p c (q, ok _) same (v, l) e f n = (
  v,
  rw (l, e, same) (append_assoc (live pr) it.bytes (coming c) ∙ ap (λ x. live pr ++ x) f),
  rw e n,
)
received-MoreGives it pr p c (q, at_end) same a e f n = absurd a
received-MoreGives it pr p c (q, failed x) same a e f n = a

-- The live bytes do not depend on the connection.
pub live-conn : (c : Input) (pr : Reader) → live (record pr { conn = c }) ≡ live pr
live-conn c pr = live-if (record pr { conn = c }) ∙ sym (live-if pr)

pub more-MoreGives : (pr : Reader) → IsValid pr → MoreGives pr (more pr)
unfolding more GivesUp MoreGives stream
more-MoreGives pr v = go pr.eof (recv_item pr.conn) (recv_item-GivesUp pr.conn)
  where
    go :
        (e : Bool) (r : Input × Received)
        → GivesUp pr.conn r
        → MoreGives pr (
            if e then (pr, at_end) else elim r.1 [
              | item it ↦ receive it (record pr { conn = r.0 })
              | ended err ↦
                  if err
                  then (record pr { conn = r.0; eof = true; error = some gone }, failed gone)
                  else (record pr { conn = r.0; eof = true }, at_end)
            ])
    go true r g = (v, refl)
    go false (c, item it) (f, n) =
        received-MoreGives it pr (record pr { conn = c }) c (receive it (record pr { conn = c }))
          (live-conn c pr) (receive-Adds it (record pr { conn = c }) v)
          (receive-conn it (record pr { conn = c })) f n
    go false (c, ended true) g = (v, refl)
    go false (c, ended false) g = (
      v,
      rw g (
          ap (λ x. x ++ coming pr.conn)
            (live-if (record pr { conn = c; eof = true }) ∙ sym (live-if pr))),
    )

-- What a loop gives: bytes and the stream behind them, the stream at its end, or an error; none were the
-- fuel used up.
unfoldable pub LoopGives : {A : Type 0} → (A → Bytes) → Reader → Option (Reader × Answer A) → Type 0
LoopGives out pr none = ⊥
LoopGives out pr (some (q, ok x)) = IsValid q × (out x ++ stream q ≡ stream pr)
LoopGives out pr (some (q, at_end)) = IsValid q × (stream q ≡ stream pr)
LoopGives out pr (some (q, failed e)) = IsValid q × (q.error ≡ some e)

pub LoopGives-after :
    {A : Type 0} (out : A → Bytes) (pr q : Reader) (o : Option (Reader × Answer A))
    → stream q ≡ stream pr
    → LoopGives out q o
    → LoopGives out pr o
unfolding LoopGives
LoopGives-after out pr q none e l = l
LoopGives-after out pr q (some (q', ok x)) e (v, l) = (v, l ∙ e)
LoopGives-after out pr q (some (q', at_end)) e (v, l) = (v, l ∙ e)
LoopGives-after out pr q (some (q', failed x)) e l = l

-- A loop that stops with the result of `more` or goes on.
pub again-LoopGives :
    {A : Type 0} (out : A → Bytes) (pr : Reader) (o : Option (Reader × Answer A))
    → IsValid pr
    → (IsValid (more pr).0 → suc (to_come (more pr).0) ≡ to_come pr → LoopGives out (more pr).0 o)
    → LoopGives out pr (elim (more pr).1 [
      | ok _ ↦ o
      | at_end ↦ some ((more pr).0, at_end)
      | failed e ↦ some ((more pr).0, failed e)
    ])
unfolding LoopGives MoreGives
again-LoopGives {A = A} out pr o v h = go (more pr) (more-MoreGives pr v) h
  where
    go :
        (r : Reader × Answer Unit)
        → MoreGives pr r
        → (IsValid r.0 → suc (to_come r.0) ≡ to_come pr → LoopGives out r.0 o)
        → LoopGives out pr
            (elim r.1 [ ok _ ↦ o | at_end ↦ some (r.0, at_end) | failed e ↦ some (r.0, failed e) ])
    go (q, ok _) (v', e, n) h = LoopGives-after out pr q o e (h v' n)
    go (q, at_end) g h = g
    go (q, failed e) g h = g

pub test-LoopGives :
    {A : Type 0} (out : A → Bytes) (pr : Reader) (c : Bool) (x y : Option (Reader × Answer A))
    → LoopGives out pr x
    → LoopGives out pr y
    → LoopGives out pr (if c then x else y)
test-LoopGives out pr true x y f g = f
test-LoopGives out pr false x y f g = g

unfoldable pub no_bytes : Span → Bytes
no_bytes s = []

pub read_loop-LoopGives :
    (fuel : ℕ) (pr : Reader)
    → IsValid pr
    → to_come pr < fuel
    → LoopGives no_bytes pr (read_loop fuel pr)
unfolding read_loop LoopGives no_bytes
read_loop-LoopGives zero pr v h = absurd (omega arith)
read_loop-LoopGives (suc fuel) pr v h =
    test-LoopGives no_bytes pr (ltb pr.examined (live_span pr).len) _ _ (v, refl)
      (again-LoopGives no_bytes pr (read_loop fuel (more pr).0) v
        λ v' n. read_loop-LoopGives fuel (more pr).0 v' (omega (arith, n, h)))

pub avail_loop-LoopGives :
    (fuel : ℕ) (pr : Reader)
    → IsValid pr
    → to_come pr < fuel
    → LoopGives no_bytes pr (avail_loop fuel pr)
unfolding avail_loop LoopGives no_bytes
avail_loop-LoopGives zero pr v h = absurd (omega arith)
avail_loop-LoopGives (suc fuel) pr v h =
    test-LoopGives no_bytes pr (ltb pr.examined (live_span pr).len) _ _ (v, refl)
      (test-LoopGives no_bytes pr (length pr.conn.rx == 0) _ _ (v, refl)
        (again-LoopGives no_bytes pr (avail_loop fuel (more pr).0) v
          λ v' n. avail_loop-LoopGives fuel (more pr).0 v' (omega (arith, n, h))))
