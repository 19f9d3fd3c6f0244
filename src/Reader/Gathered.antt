-- ===== src/Reader/Gathered.antt =====
-- Received bytes go behind the live ones (`gather`, `compact` and `more`, lib/io/pipe.c).
use libioma.Base.{
  ℕ, ◌+◌, ◌-◌, ◌≤◌, ◌<◌, Bool, true, false, not, ◌&&◌, some, ◌++◌, ◌≡◌, refl, sym, ap, ◌∙◌, arith,
  Bytes, length, take, drop, blit, ltb, ◌==◌, if◌then◌else◌, length-take, length-drop, length-blit,
  take_all, take-drop-blit, take-drop-blit_self,
}
use libioma.Reader.State.{Item, Reader, Answer, ok, at_end, failed, give_back, forget_cur, cur_done}
use libioma.Reader.Fill.{
  use_up, compact, pin, gather_run, gather_live, gather, refuse, append, make_room, take_in,
  append_item, receive,
}
use libioma.Reader.Live.{IsValid, live, live-in_buf, live-in_cur, live-nowhere, Lives}

pub compact-Lives : (pr : Reader) → pr.live_in_buf ≡ true → Lives pr (live pr) (compact pr)
unfolding compact
compact-Lives pr e (b, f, l, c, r) = go (ltb pr.floor pr.buf_pos) (λ e. ground arith)
  where
    bytes : Bytes
    bytes = take (pr.buf_end - pr.buf_pos) (drop pr.buf_pos pr.buf)

    many : length bytes ≡ pr.buf_end - pr.buf_pos
    many = omega (
      arith,
      length-take (pr.buf_end - pr.buf_pos) (drop pr.buf_pos pr.buf),
      length-drop pr.buf_pos pr.buf,
      l e,
      b,
    )

    moved : Reader
    moved = record pr {
      buf = blit pr.floor bytes pr.buf;
      buf_end = pr.buf_end - (pr.buf_pos - pr.floor);
      buf_pos = pr.floor;
    }

    go :
        (low : Bool)
        → (low ≡ true → pr.floor < pr.buf_pos)
        → IsValid (if low then moved else pr) × (live (if low then moved else pr) ≡ live pr)
    go false h = ((b, f, l, c, r), refl)
    go true h = (
      (
        length-blit pr.floor bytes pr.buf (omega (arith, many, l e, b, h refl)) ∙ b,
        f,
        (λ e'. ((l e).0, omega arith, omega (arith, l e, h refl), omega (arith, l e, h refl))),
        c,
        r,
      ),
      live-in_buf moved e
          ∙ (take-drop-blit_self (pr.buf_end - (pr.buf_pos - pr.floor) - pr.floor) pr.floor bytes
                pr.buf (omega (arith, many, l e, h refl)) (omega (arith, b, f))
              ∙ sym (live-in_buf pr e)),
    )

pub make_room-Lives :
    (n : ℕ) (pr : Reader) → pr.live_in_buf ≡ true → Lives pr (live pr) (make_room n pr).0
unfolding make_room
make_room-Lives n pr e v = go (ltb pr.cap (pr.buf_end + n))
  where
    P : Reader × Bool → Type 0
    P r = IsValid r.0 × (live r.0 ≡ live pr)

    go :
        (c : Bool)
        → P (
            if c
            then (compact pr, not (ltb (compact pr).cap ((compact pr).buf_end + n)))
            else (pr, true))
    go true = compact-Lives pr e v
    go false = (v, refl)

-- When there is room, the bytes fit behind the live ones, which are still in the gathering buffer.
pub make_room-fits :
    (n : ℕ) (pr : Reader)
    → pr.live_in_buf ≡ true
    → (make_room n pr).1 ≡ true
    → ((make_room n pr).0.buf_end + n ≤ (make_room n pr).0.cap)
      × ((make_room n pr).0.live_in_buf ≡ true)
unfolding make_room compact
make_room-fits n pr e h = (ground arith, ground arith)

pub append-Lives :
    (bytes : Bytes) (pr : Reader)
    → pr.live_in_buf ≡ true
    → pr.buf_end + length bytes ≤ pr.cap
    → Lives pr (live pr ++ bytes) (append bytes pr)
unfolding append
append-Lives bytes pr e fits (b, f, l, c, r) = (
  (
    length-blit pr.buf_end bytes pr.buf (omega (arith, b)) ∙ b,
    f,
    (λ e'. ((l e).0, (l e).1, omega (arith, l e), fits)),
    c,
    r,
  ),
  live-in_buf (append bytes pr) e
      ∙ (take-drop-blit (pr.buf_end + length bytes - pr.buf_pos) pr.buf_pos
            (pr.buf_end - pr.buf_pos) pr.buf_end bytes pr.buf (omega (arith, l e))
            (omega (arith, l e)) (omega (arith, l e, b))
          ∙ ap (λ x. x ++ bytes) (sym (live-in_buf pr e))),
)

-- Only memory, the spans and their flags count.
pub take_in-Lives :
    (it : Item) (pr : Reader)
    → pr.live_in_buf ≡ false
    → pr.has_cur ≡ false
    → Lives pr (live pr ++ it.bytes) (take_in it pr)
unfolding take_in
take_in-Lives it pr e g (b, f, l, c, r) = (
  (b, f, (λ e'. absurd (ground arith)), (λ e'. omega arith), (λ e'. absurd (ground arith))),
  live-in_cur (take_in it pr) e refl ∙ ap (λ x. x ++ it.bytes) (sym (live-nowhere pr e g)),
)

-- Two readers with the same live bytes in the gathering buffer.
pub live-ext :
    (pr q : Reader)
    → pr.live_in_buf ≡ true
    → q.live_in_buf ≡ true
    → q.buf ≡ pr.buf
    → q.buf_pos ≡ pr.buf_pos
    → q.buf_end ≡ pr.buf_end
    → live q ≡ live pr
live-ext pr q e f b p n = live-in_buf q f ∙ (rw (b, p, n) refl ∙ sym (live-in_buf pr e))

-- A reader whose kernel buffer was copied out, before that buffer is given up.
abbrev pub IsLanded : Reader → Type 0
IsLanded pr =
    (pr.live_in_buf ≡ true)
    × (pr.run_in_cur ≡ false)
    × (length pr.buf ≡ pr.cap)
    × (pr.floor ≤ pr.cap)
    × (pr.floor ≤ pr.buf_pos)
    × (pr.buf_pos ≤ pr.buf_end)
    × (pr.buf_end ≤ pr.cap)

pub use_up-Lives :
    (pr : Reader)
    → IsLanded pr
    → IsValid (use_up pr) × (live (use_up pr) ≡ live pr) × ((use_up pr).live_in_buf ≡ true)
unfolding use_up cur_done forget_cur give_back
use_up-Lives pr (e, r, b, f, x, y, z) = (
  (ground arith, ground arith, ground arith, ground arith, ground arith),
  live-ext pr (use_up pr) e (ground arith) (ground arith) (ground arith) (ground arith),
  ground arith,
)

-- The run is copied, and the live bytes of the kernel's buffer stay.
pub gather_run-same :
    (n : ℕ) (pr : Reader)
    → ((gather_run n pr).cur ≡ pr.cur)
      × ((gather_run n pr).cur_pos ≡ pr.cur_pos)
      × ((gather_run n pr).cap ≡ pr.cap)
      × ((gather_run n pr).floor ≡ pr.floor + n)
unfolding gather_run pin
gather_run-same n pr = (ground arith, ground arith, ground arith, ground arith)

pub length-take_le : (n : ℕ) (xs : Bytes) → length (take n xs) ≤ n
length-take_le n xs = omega (arith, length-take n xs)

pub length-gather_run :
    (n : ℕ) (pr : Reader)
    → length pr.buf ≡ pr.cap
    → pr.floor + n ≤ pr.cap
    → length (gather_run n pr).buf ≡ pr.cap
unfolding gather_run pin
length-gather_run n pr b f = go (n == 0) pr.has_pinned
  where
    moved : Reader
    moved = record pr {
      buf = blit pr.floor (take n (drop pr.run_start pr.cur.bytes)) pr.buf;
      run_start = pr.floor;
      floor = pr.floor + n;
    }

    go :
        (z p : Bool)
        → length (Reader.buf (if z then pr else if p then moved else pin moved)) ≡ pr.cap
    go true p = b
    go false true =
        length-blit pr.floor (take n (drop pr.run_start pr.cur.bytes)) pr.buf
          (omega (arith, b, f, length-take_le n (drop pr.run_start pr.cur.bytes)))
        ∙ b
    go false false =
        length-blit pr.floor (take n (drop pr.run_start pr.cur.bytes)) pr.buf
          (omega (arith, b, f, length-take_le n (drop pr.run_start pr.cur.bytes)))
        ∙ b

pub gather_live-Lives :
    (n : ℕ) (pr : Reader)
    → length pr.buf ≡ pr.cap
    → pr.floor + n ≤ pr.cap
    → n ≡ length pr.cur.bytes - pr.cur_pos
    → IsLanded (gather_live n pr) × (live (gather_live n pr) ≡ drop pr.cur_pos pr.cur.bytes)
unfolding gather_live
gather_live-Lives n pr b f e = (
  (
    refl,
    refl,
    length-blit pr.floor bytes pr.buf (omega (arith, many, b, f)) ∙ b,
    omega (arith, f),
    omega arith,
    omega arith,
    f,
  ),
  live-in_buf (gather_live n pr) refl
      ∙ (take-drop-blit_self (pr.floor + n - pr.floor) pr.floor bytes pr.buf (omega (arith, many))
            (omega (arith, b, f))
          ∙ take_all n (drop pr.cur_pos pr.cur.bytes)
              (omega (arith, length-drop pr.cur_pos pr.cur.bytes, e))),
)
  where
    bytes : Bytes
    bytes = take n (drop pr.cur_pos pr.cur.bytes)

    many : length bytes ≡ n
    many = omega (
      arith,
      length-take n (drop pr.cur_pos pr.cur.bytes),
      length-drop pr.cur_pos pr.cur.bytes,
      e,
    )

pub gather-Lives :
    (pr : Reader)
    → pr.live_in_buf ≡ false
    → pr.has_cur ≡ true
    → IsValid pr
    → IsValid (gather pr).0
      × (live (gather pr).0 ≡ live pr)
      × ((gather pr).1 ≡ true → (gather pr).0.live_in_buf ≡ true)
unfolding gather
gather-Lives pr e g (b, f, l, c, r) = go (ltb pr.cap (pr.floor + m + n)) (λ h. ground arith)
  where
    n : ℕ
    n = if pr.has_cur then length pr.cur.bytes - pr.cur_pos else 0

    m : ℕ
    m = if pr.run_in_cur then pr.run_len else 0

    q : Reader
    q = gather_run m pr

    same : (q.cur ≡ pr.cur) × (q.cur_pos ≡ pr.cur_pos) × (q.cap ≡ pr.cap) × (q.floor ≡ pr.floor + m)
    same = gather_run-same m pr

    P : Reader × Bool → Type 0
    P r = IsValid r.0 × (live r.0 ≡ live pr) × (r.1 ≡ true → r.0.live_in_buf ≡ true)

    go :
        (c : Bool)
        → (c ≡ false → pr.floor + m + n ≤ pr.cap)
        → P (if c then (pr, false) else (use_up (gather_live n q), true))
    go true h = ((b, f, l, c, r), refl, λ x. absurd (cc x))
    go false h =
        let landed =
          gather_live-Lives n q (length-gather_run m pr b (omega (arith, h refl)) ∙ sym same.2)
            (omega (arith, h refl, same.2, same.3)) (rw (same.0, same.1, g) refl) in
        let used = use_up-Lives (gather_live n q) landed.0 in
        (
          used.0,
          used.1 ∙ (landed.1 ∙ (rw (same.0, same.1) refl ∙ sym (live-in_cur pr e g))),
          λ x. used.2,
        )

-- What taking an item leaves: live bytes with the item's behind them, or an error.
unfoldable pub Adds : Reader → Bytes → Reader × Answer Unit → Type 0
Adds pr bytes (pr', ok _) = IsValid pr' × (live pr' ≡ live pr ++ bytes)
Adds pr bytes (pr', at_end) = ⊥
Adds pr bytes (pr', failed e) = IsValid pr' × (pr'.error ≡ some e)

pub append_item-Adds :
    (it : Item) (pr : Reader) (r : Reader × Bool)
    → IsValid r.0
    → live r.0 ≡ live pr
    → (r.1 ≡ true → r.0.live_in_buf ≡ true)
    → Adds pr it.bytes (append_item it r)
unfolding append_item refuse give_back Adds
append_item-Adds it pr (q, false) v e g = (v, refl)
append_item-Adds it pr (q, true) v e g =
    go (make_room (length it.bytes) q) (make_room-Lives (length it.bytes) q (g refl) v)
      (make_room-fits (length it.bytes) q (g refl))
  where
    done : Answer Unit
    done = ok tt

    go :
        (r : Reader × Bool)
        → IsValid r.0 × (live r.0 ≡ live q)
        → (r.1 ≡ true → (r.0.buf_end + length it.bytes ≤ r.0.cap) × (r.0.live_in_buf ≡ true))
        → Adds pr it.bytes
            (if r.1 then (give_back it.buf_id (append it.bytes r.0), done) else refuse it r.0)
    go (q', false) (v', e') h = (v', refl)
    go (q', true) (v', e') h =
        let appended = append-Lives it.bytes q' (h refl).1 (h refl).0 v' in
        (
          appended.0,
          live-ext (append it.bytes q') (give_back it.buf_id (append it.bytes q')) (h refl).1
                (h refl).1 refl refl refl
              ∙ (appended.1 ∙ ap (λ y. y ++ it.bytes) (e' ∙ e)),
        )

pub receive-Adds : (it : Item) (pr : Reader) → IsValid pr → Adds pr it.bytes (receive it pr)
unfolding receive Adds
receive-Adds it pr v = go pr.live_in_buf pr.has_cur refl refl
  where
    go :
        (l c : Bool)
        → pr.live_in_buf ≡ l
        → pr.has_cur ≡ c
        → Adds pr it.bytes (
            if not l && not c
            then (take_in it pr, ok tt)
            else append_item it (if l then (pr, true) else gather pr))
    go false false f g = take_in-Lives it pr f g v
    go true c f g = append_item-Adds it pr (pr, true) v refl (λ x. f)
    go false true f g =
        let gathered = gather-Lives pr f g v in
        append_item-Adds it pr (gather pr) gathered.0 gathered.1 gathered.2
