-- ===== src/Reader/Consumed.antt =====
-- What consuming and keeping leave of the live bytes (`consume` and `ioxd__pipereader_keep`, lib/io/pipe.c).
use libioma.Base.{
  ℕ, ◌+◌, ◌-◌, ◌≤◌, ◌<◌, Bool, true, false, not, ◌&&◌, some, [], ◌≡◌, refl, sym, ap, ◌∙◌, arith,
  Bytes, length, take, drop, blit, ltb, leb, ◌==◌, if◌then◌else◌, length-take, length-drop,
  length-blit, drop_all, drop-part, drop-drop, take-drop-blit_self,
}
use libioma.Reader.State.{Reader, Error, full, live_span, give_back, cur_done}
use libioma.Reader.Consume.{
  skip, at_most_live, freeze, end_run, consume, examine, run_begin, move_down, unpin, release,
}
use libioma.Reader.Fill.{pin}
use libioma.Reader.Live.{
  IsValid, live, live-in_buf, live-in_cur, live-nowhere, cur_done-IsValid, live_if, live-if,
  cur_done-live, Lives,
}

skip_buf-Lives :
    (n : ℕ) (pr : Reader)
    → pr.live_in_buf ≡ true
    → n ≤ pr.buf_end - pr.buf_pos
    → pr.buf_pos + n < pr.buf_end
    → Lives pr (drop n (live pr)) (record pr { buf_pos = pr.buf_pos + n })
skip_buf-Lives n pr e h lt (b, f, l, c, r) = (
  (b, f, (λ e'. ((l e).0, omega (arith, (l e).1), omega (arith, lt), (l e).3)), c, r),
  live-in_buf (record pr { buf_pos = pr.buf_pos + n }) e
      ∙ (sym (
            drop-part n (pr.buf_end - pr.buf_pos) (pr.buf_end - (pr.buf_pos + n)) pr.buf_pos
              (pr.buf_pos + n) pr.buf (omega (arith, lt)) refl)
          ∙ ap (drop n) (sym (live-in_buf pr e))),
)

used_up-Lives :
    (n : ℕ) (pr : Reader)
    → pr.live_in_buf ≡ true
    → pr.buf_end ≤ pr.buf_pos + n
    → Lives pr
        (drop n (live pr))
        (record pr { buf_pos = pr.floor; buf_end = pr.floor; live_in_buf = false })
used_up-Lives n pr e h (b, f, l, c, r) = (
  (b, f, (λ e'. absurd (cc e')), c, r),
  live-nowhere (record pr { buf_pos = pr.floor; buf_end = pr.floor; live_in_buf = false }) refl
        (l e).0
      ∙ sym (
          drop_all n (live pr) (
            rw (live-in_buf pr e)
              (omega (arith, length-take (pr.buf_end - pr.buf_pos) (drop pr.buf_pos pr.buf), h)))),
)

skip_cur-Lives :
    (n : ℕ) (pr : Reader)
    → pr.live_in_buf ≡ false
    → pr.has_cur ≡ true
    → n ≤ length pr.cur.bytes - pr.cur_pos
    → Lives pr (drop n (live pr)) (cur_done (record pr { cur_pos = pr.cur_pos + n }))
skip_cur-Lives n pr e g h (b, f, l, c, r) = (
  cur_done-IsValid (record pr { cur_pos = pr.cur_pos + n })
      (
        b,
        f,
        l,
        (λ e'. omega (arith, h, c g)),
        (λ e'. ((r e').0, (r e').1, omega (arith, (r e').2))),
      ),
  cur_done-live (record pr { cur_pos = pr.cur_pos + n })
      ∙ (live-in_cur (record pr { cur_pos = pr.cur_pos + n }) e g
          ∙ (sym (drop-drop n pr.cur_pos (pr.cur_pos + n) pr.cur.bytes refl)
              ∙ ap (drop n) (sym (live-in_cur pr e g)))),
)

pub skip-Lives :
    (n : ℕ) (pr : Reader) → n ≤ (live_span pr).len → Lives pr (drop n (live pr)) (skip n pr)
unfolding skip live_span
skip-Lives n pr h v =
    go pr.live_in_buf pr.has_cur (leb pr.buf_end (pr.buf_pos + n)) refl refl (λ e. ground arith)
      (λ e. ground arith) (λ e. ground arith) (λ e g. ground arith)
  where
    Moved : Reader → Type 0
    Moved q = IsValid q × (live q ≡ drop n (live pr))

    go :
        (l c z : Bool)
        → pr.live_in_buf ≡ l
        → pr.has_cur ≡ c
        → (z ≡ true → pr.buf_end ≤ pr.buf_pos + n)
        → (z ≡ false → pr.buf_pos + n < pr.buf_end)
        → (pr.live_in_buf ≡ true → n ≤ pr.buf_end - pr.buf_pos)
        → (pr.live_in_buf ≡ false → pr.has_cur ≡ true → n ≤ length pr.cur.bytes - pr.cur_pos)
        → Moved (
            if l
            then (if z
                then record pr { buf_pos = pr.floor; buf_end = pr.floor; live_in_buf = false }
                else record pr { buf_pos = pr.buf_pos + n })
            else if c
            then cur_done (record pr { cur_pos = pr.cur_pos + n })
            else pr)
    go true c true e g z z' m m' = used_up-Lives n pr e (z refl) v
    go true c false e g z z' m m' = skip_buf-Lives n pr e (m e) (z' refl) v
    go false true z0 e g z z' m m' = skip_cur-Lives n pr e g (m' e g) v
    go false false z0 e g z z' m m' = (
      v,
      live-nowhere pr e g
          ∙ (sym (drop_all n [] (omega arith)) ∙ ap (drop n) (sym (live-nowhere pr e g))),
    )

pub examine-Lives : (n : ℕ) (pr : Reader) → Lives pr (live pr) (examine n pr)
unfolding examine
examine-Lives n pr v = (v, live-if (examine n pr) ∙ sym (live-if pr))

pub at_most_live-le : (n : ℕ) (pr : Reader) → at_most_live n pr ≤ (live_span pr).len
unfolding at_most_live
at_most_live-le n pr = ground arith

pub end_run-Lives : (pr : Reader) → Lives pr (live pr) (end_run pr)
unfolding end_run
end_run-Lives pr (b, f, l, c, r) =
    ((b, f, l, c, λ e. absurd (cc e)), live-if (end_run pr) ∙ sym (live-if pr))

pub consume-Lives :
    (n : ℕ) (pr : Reader) → Lives pr (drop (at_most_live n pr) (live pr)) (consume n pr)
unfolding consume
consume-Lives n pr v =
    let skipped = skip-Lives (at_most_live n pr) pr (at_most_live-le n pr) v in
    let looked =
      examine-Lives (pr.examined - at_most_live n pr) (skip (at_most_live n pr) pr) skipped.0 in
    (looked.0, looked.1 ∙ skipped.1)

pin-Lives : (pr : Reader) → Lives pr (live pr) (pin pr)
unfolding pin
pin-Lives pr v = (v, live-if (pin pr) ∙ sym (live-if pr))

-- The run, copied behind the kept bytes, leaves live bytes that are in the kernel's buffer.
moved-Lives :
    (pr : Reader)
    → pr.has_cur ≡ true
    → pr.floor + pr.run_len ≤ pr.cap
    → Lives pr (live pr) (record pr {
      buf = blit pr.floor (take pr.run_len (drop pr.run_start pr.cur.bytes)) pr.buf;
      floor = pr.floor + pr.run_len;
    })
moved-Lives pr g h (b, f, l, c, r) = (
  (
    length-blit pr.floor (take pr.run_len (drop pr.run_start pr.cur.bytes)) pr.buf
          (omega (arith, h, b, length-take pr.run_len (drop pr.run_start pr.cur.bytes)))
        ∙ b,
    h,
    (λ e. absurd (ground arith)),
    c,
    r,
  ),
  live-if moved ∙ (go pr.live_in_buf (λ e. ground arith) ∙ sym (live-if pr)),
)
  where
    moved : Reader
    moved = record pr {
      buf = blit pr.floor (take pr.run_len (drop pr.run_start pr.cur.bytes)) pr.buf;
      floor = pr.floor + pr.run_len;
    }

    go : (x : Bool) → (x ≡ true → ⊥) → live_if x pr.has_cur moved ≡ live_if x pr.has_cur pr
    go true n = absurd (n refl)
    go false n = refl

failed-Lives : (e : Error) (pr : Reader) → Lives pr (live pr) (record pr { error = some e })
failed-Lives e pr v = (v, live-if (record pr { error = some e }) ∙ sym (live-if pr))

freeze-Lives : (pr : Reader) → Lives pr (live pr) (freeze pr)
unfolding freeze
freeze-Lives pr v =
    go (pr.run_in_cur && not (pr.run_len == 0)) (pr.has_pinned && not pr.cur_is_pinned)
      (ltb pr.cap (pr.floor + pr.run_len)) (λ e. (v.4 (ground arith)).0) (λ e. ground arith)
  where
    P : Reader → Type 0
    P q = IsValid q × (live q ≡ live pr)

    go :
        (x y z : Bool)
        → (x ≡ true → pr.has_cur ≡ true)
        → (z ≡ false → pr.floor + pr.run_len ≤ pr.cap)
        → P (
            if x
            then (if y
                then (if z then record pr { error = some full } else record pr {
                  buf = blit pr.floor (take pr.run_len (drop pr.run_start pr.cur.bytes)) pr.buf;
                  floor = pr.floor + pr.run_len;
                })
                else pin pr)
            else pr)
    go false y z f g = (v, refl)
    go true false z f g = pin-Lives pr v
    go true true true f g = failed-Lives full pr v
    go true true false f g = moved-Lives pr (f refl) (g refl) v

move_down-Lives : (pr : Reader) → Lives pr (live pr) (move_down pr)
unfolding move_down
move_down-Lives pr (b, f, l, c, r) = go pr.live_in_buf refl
  where
    bytes : Bytes
    bytes = take (pr.buf_end - pr.buf_pos) (drop pr.buf_pos pr.buf)

    low : Reader
    low = record pr {
      buf = blit 0 bytes pr.buf;
      buf_end = pr.buf_end - pr.buf_pos;
      buf_pos = 0;
      floor = 0;
    }

    P : Reader → Type 0
    P q = IsValid q × (live q ≡ live pr)

    go :
        (x : Bool)
        → pr.live_in_buf ≡ x
        → P (if x then low else record pr { buf_pos = 0; buf_end = 0; floor = 0 })
    go false e = (
      (b, omega arith, (λ e'. absurd (ground arith)), c, r),
      live-if (record pr { buf_pos = 0; buf_end = 0; floor = 0 }) ∙ (rw e refl ∙ sym (live-if pr)),
    )
    go true e =
        let many : length bytes ≡ pr.buf_end - pr.buf_pos = omega (
          arith,
          length-take (pr.buf_end - pr.buf_pos) (drop pr.buf_pos pr.buf),
          length-drop pr.buf_pos pr.buf,
          (l e).3,
          b,
        ) in
        (
          (
            length-blit 0 bytes pr.buf (omega (arith, many, b, (l e).3)) ∙ b,
            omega arith,
            (λ e'. ((l e).0, omega arith, omega arith, omega (arith, (l e).3))),
            c,
            r,
          ),
          live-in_buf low e
              ∙ (take-drop-blit_self (pr.buf_end - pr.buf_pos - 0) 0 bytes pr.buf
                    (omega (arith, many)) (omega arith)
                  ∙ sym (live-in_buf pr e)),
        )

unpin-Lives : (pr : Reader) → Lives pr (live pr) (unpin pr)
unfolding unpin give_back
unpin-Lives pr v = (go pr.has_pinned pr.cur_is_pinned)
  where
    P : Reader → Type 0
    P q = IsValid q × (live q ≡ live pr)

    go :
        (x y : Bool)
        → P (
            if x
            then (if y
                then record pr { cur_is_pinned = false; has_pinned = false }
                else record (give_back pr.pinned.buf_id pr) { has_pinned = false })
            else pr)
    go false y = (v, refl)
    go true true =
        (v, live-if (record pr { cur_is_pinned = false; has_pinned = false }) ∙ sym (live-if pr))
    go true false = (
      v,
      live-if (record (give_back pr.pinned.buf_id pr) { has_pinned = false }) ∙ sym (live-if pr),
    )

pub run_begin-Lives : (pr : Reader) → Lives pr (live pr) (run_begin pr)
unfolding run_begin
run_begin-Lives pr v =
    let frozen = freeze-Lives pr v in
    let ended_ = end_run-Lives (freeze pr) frozen.0 in
    (
      cur_done-IsValid (end_run (freeze pr)) ended_.0,
      cur_done-live (end_run (freeze pr)) ∙ (ended_.1 ∙ frozen.1),
    )

pub release-Lives : (pr : Reader) → Lives pr (live pr) (release pr)
unfolding release
release-Lives pr v =
    let a = end_run-Lives pr v in
    let b = move_down-Lives (end_run pr) a.0 in
    let c = unpin-Lives (move_down (end_run pr)) b.0 in
    (
      cur_done-IsValid (unpin (move_down (end_run pr))) c.0,
      cur_done-live (unpin (move_down (end_run pr))) ∙ (c.1 ∙ (b.1 ∙ a.1)),
    )
