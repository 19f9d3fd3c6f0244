-- ===== src/Reader/Room.antt =====
-- Room for received bytes: when `gather` and `compact` of lib/io/pipe.c refuse it, and what they leave of
-- the reader as it was.
use libioma.Base.{
  ℕ, ◌+◌, ◌-◌, ◌<◌, Bool, true, false, not, ◌&&◌, ◌≡◌, refl, ap, ◌∙◌, arith, length, ltb,
  if◌then◌else◌, length-drop,
}
use libioma.Reader.State.{
  Item, Reader, Answer, ok, at_end, failed, gone, full, live_span, give_back, forget_cur, cur_done,
}
use libioma.Reader.Fill.{
  use_up, compact, pin, gather_run, gather_live, gather, refuse, append, make_room, take_in,
  append_item, receive,
}
use libioma.Reader.Live.{IsValid, live, length-live, live-in_cur}
use libioma.Reader.Gathered.{gather-Lives}

-- How many bytes the run holds in the gathering buffer, or will once it is moved there.
unfoldable pub kept_len : Reader → ℕ
kept_len pr = pr.floor + (if pr.run_in_cur then pr.run_len else 0)

-- What waiting leaves as it was.
abbrev pub Same : Reader → Reader → Type 0
Same pr q =
    (q.examined ≡ pr.examined) × (q.eof ≡ pr.eof) × (q.cap ≡ pr.cap) × (kept_len q ≡ kept_len pr)

use_up-Same : (pr : Reader) → Same pr (use_up pr)
unfolding use_up cur_done forget_cur give_back kept_len
use_up-Same pr = (ground arith, ground arith, ground arith, ground arith)

gather_run-Same :
    (n : ℕ) (pr : Reader)
    → ((gather_run n pr).examined ≡ pr.examined)
      × ((gather_run n pr).eof ≡ pr.eof)
      × ((gather_run n pr).cap ≡ pr.cap)
      × ((gather_run n pr).floor ≡ pr.floor + n)
unfolding gather_run pin
gather_run-Same n pr = (ground arith, ground arith, ground arith, ground arith)

gathered-Same :
    (n : ℕ) (pr : Reader)
    → Same pr (use_up (gather_live n (gather_run (if pr.run_in_cur then pr.run_len else 0) pr)))
unfolding gather_live kept_len
gathered-Same n pr =
    let run = gather_run-Same (if pr.run_in_cur then pr.run_len else 0) pr in
    let used =
      use_up-Same (gather_live n (gather_run (if pr.run_in_cur then pr.run_len else 0) pr)) in
    (used.0 ∙ run.0, used.1 ∙ run.1, used.2 ∙ run.2, used.3 ∙ omega (arith, run.3))

-- A buffer that is too small for the run and the live bytes is the one reason not to gather.
gather-Same :
    (pr : Reader)
    → pr.live_in_buf ≡ false
    → pr.has_cur ≡ true
    → Same pr (gather pr).0 × ((gather pr).1 ≡ false → pr.cap < kept_len pr + length (live pr))
unfolding gather kept_len
gather-Same pr e g = go (ltb pr.cap (pr.floor + m + n)) (λ h. short (ground arith))
  where
    n : ℕ
    n = if pr.has_cur then length pr.cur.bytes - pr.cur_pos else 0

    m : ℕ
    m = if pr.run_in_cur then pr.run_len else 0

    short : pr.cap < pr.floor + m + n → pr.cap < kept_len pr + length (live pr)
    short h = rw (live-in_cur pr e g) (ground (arith, length-drop pr.cur_pos pr.cur.bytes))

    P : Reader × Bool → Type 0
    P r = Same pr r.0 × (r.1 ≡ false → pr.cap < kept_len pr + length (live pr))

    go :
        (c : Bool)
        → (c ≡ true → pr.cap < kept_len pr + length (live pr))
        → P (if c then (pr, false) else (use_up (gather_live n (gather_run m pr)), true))
    go true h = ((refl, refl, refl, refl), λ x. h refl)
    go false h = (gathered-Same n pr, λ x. absurd (cc x))

make_room-Same : (n : ℕ) (pr : Reader) → Same pr (make_room n pr).0
unfolding make_room compact kept_len
make_room-Same n pr = (ground arith, ground arith, ground arith, ground arith)

-- Room is refused where the bytes do not fit even behind live bytes moved down to the run.
make_room-refused :
    (n : ℕ) (pr : Reader)
    → IsValid pr
    → pr.live_in_buf ≡ true
    → (make_room n pr).1 ≡ false
    → pr.cap < kept_len pr + length (live pr) + n
unfolding make_room compact kept_len live_span
make_room-refused n pr v e h = rw (length-live pr v) (ground arith)

-- What taking in `n` bytes gives: the reader with what waiting leaves as it was, or no room.
unfoldable pub Takes : Reader → ℕ → Reader × Answer Unit → Type 0
Takes pr n (q, ok _) = Same pr q
Takes pr n (q, at_end) = ⊥
Takes pr n (q, failed gone) = ⊥
Takes pr n (q, failed full) = pr.cap < kept_len pr + length (live pr) + n

appended-Same : (it : Item) (pr : Reader) → Same pr (give_back it.buf_id (append it.bytes pr))
unfolding give_back append kept_len
appended-Same it pr = (refl, refl, refl, refl)

Same-trans : (p q r : Reader) → Same p q → Same q r → Same p r
Same-trans p q r (a, b, c, d) (a', b', c', d') = (a' ∙ a, b' ∙ b, c' ∙ c, d' ∙ d)

append_item-Takes :
    (it : Item) (pr : Reader) (r : Reader × Bool)
    → IsValid r.0
    → live r.0 ≡ live pr
    → (r.1 ≡ true → r.0.live_in_buf ≡ true)
    → Same pr r.0
    → (r.1 ≡ false → pr.cap < kept_len pr + length (live pr))
    → Takes pr (length it.bytes) (append_item it r)
unfolding append_item refuse Takes
append_item-Takes it pr (q, false) v e g s h = omega (arith, h refl)
append_item-Takes it pr (q, true) v e g s h =
    go (make_room n q) (make_room-Same n q) (make_room-refused n q v (g refl))
  where
    n : ℕ
    n = length it.bytes

    done : Answer Unit
    done = ok tt

    go :
        (r : Reader × Bool)
        → Same q r.0
        → (r.1 ≡ false → q.cap < kept_len q + length (live q) + n)
        → Takes pr n
            (if r.1 then (give_back it.buf_id (append it.bytes r.0), done) else refuse it r.0)
    go (p, false) t h = omega (arith, h refl, s.2, s.3, ap (λ b. length b) e)
    go (p, true) t h =
        Same-trans pr p (give_back it.buf_id (append it.bytes p)) (Same-trans pr q p s t)
          (appended-Same it p)

pub receive-Takes :
    (it : Item) (pr : Reader) → IsValid pr → Takes pr (length it.bytes) (receive it pr)
unfolding receive take_in Takes kept_len
receive-Takes it pr v = go pr.live_in_buf pr.has_cur refl refl
  where
    go :
        (l c : Bool)
        → pr.live_in_buf ≡ l
        → pr.has_cur ≡ c
        → Takes pr (length it.bytes) (
            if not l && not c
            then (take_in it pr, ok tt)
            else append_item it (if l then (pr, true) else gather pr))
    go false false f g = (refl, refl, refl, refl)
    go true c f g =
        append_item-Takes it pr (pr, true) v refl (λ x. f) (refl, refl, refl, refl)
          (λ x. absurd (cc x))
    go false true f g =
        let gathered = gather-Lives pr f g v in
        let same = gather-Same pr f g in
        append_item-Takes it pr (gather pr) gathered.0 gathered.1 gathered.2 same.0 same.1
