-- ===== src/Reader/Moved.antt =====
-- Keeping bytes in the gathering buffer, or copying them there (lib/io/pipe.c).
use libioma.Base.{
  ℕ, ◌+◌, ◌-◌, ◌≤◌, ◌<◌, inl, inr, Bool-cases, Bool, true, false, ◌≡◌, refl, sym, ap, ◌∙◌, arith,
  length, take, drop, blit, leb, ◌==◌, ==_iff, if◌then◌else◌, length-take, length-drop, length-blit,
  drop_all, drop-part, take-take, take-drop-blit_self, drop-blit,
}
use libioma.Reader.State.{Reader, in_buf, contents, live_span, give_back, forget_cur, cur_done}
use libioma.Reader.Consume.{skip, consume, examine, keep_in_buf, keep_out, add_run}
use libioma.Reader.Live.{IsValid, live, live-in_buf, live-in_cur, live-nowhere}
use libioma.Reader.Consumed.{consume-Lives}
use libioma.Reader.Keeping.{==-true, ==-false, at_most_live-all, consume-all, Keeps}

pub skip-in_buf :
    (n : ℕ) (pr : Reader)
    → pr.live_in_buf ≡ true
    → skip n pr ≡ (
        if leb pr.buf_end (pr.buf_pos + n)
        then record pr { buf_pos = pr.floor; buf_end = pr.floor; live_in_buf = false }
        else record pr { buf_pos = pr.buf_pos + n })
unfolding skip
skip-in_buf n pr e = rw e refl

-- When a step has moved `n` live bytes of the gathering buffer to the run there, at `at`.
pub after_buf :
    (n at : ℕ) (pr q : Reader)
    → pr.live_in_buf ≡ true
    → IsValid pr
    → n ≤ pr.buf_end - pr.buf_pos
    → (q.live_in_buf ≡ true) × (q.has_cur ≡ false) × (q.run_in_cur ≡ false)
    → (q.buf_pos ≡ pr.buf_pos) × (q.buf_end ≡ pr.buf_end) × (q.cap ≡ pr.cap)
    → length q.buf ≡ q.cap
    → q.floor ≤ pr.buf_pos + n
    → drop (pr.buf_pos + n) q.buf ≡ drop (pr.buf_pos + n) pr.buf
    → take n (drop at q.buf) ≡ take n (drop pr.buf_pos pr.buf)
    → Keeps n pr (record { place = in_buf; at = at; len = n }) (consume n q)
unfolding contents live_span examine
after_buf n at pr q e (b, f, l, c, r) h (e', g', r') (qp, qe, qc) qb fl same there =
    rw (consume-all n q (rw e' (omega (arith, qp, qe, h))), skip-in_buf n q e')
      (go (leb q.buf_end (q.buf_pos + n)) (λ z. ground arith) (λ z. ground arith))
  where
    kept_bytes : take n (drop at q.buf) ≡ take n (live pr)
    kept_bytes =
        there
        ∙ (sym (take-take n (pr.buf_end - pr.buf_pos) (drop pr.buf_pos pr.buf) h)
            ∙ ap (take n) (sym (live-in_buf pr e)))

    P : Reader → Type 0
    P x = Keeps n pr (record { place = in_buf; at = at; len = n }) (examine (q.examined - n) x)

    go :
        (z : Bool)
        → (z ≡ true → q.buf_end ≤ q.buf_pos + n)
        → (z ≡ false → q.buf_pos + n < q.buf_end)
        → P (
            if z
            then record q { buf_pos = q.floor; buf_end = q.floor; live_in_buf = false }
            else record q { buf_pos = q.buf_pos + n })
    go true z z' = (
      (
        qb,
        omega (arith, l e, fl, qp, qc, h),
        (λ x. absurd (cc x)),
        (λ x. absurd (ground arith)),
        (λ x. absurd (ground arith)),
      ),
      live-nowhere
            (record q {
              buf_pos = q.floor;
              buf_end = q.floor;
              live_in_buf = false;
              examined = q.examined - n;
            })
            refl g'
          ∙ sym (
              drop_all n (live pr) (
                rw (live-in_buf pr e) (
                  omega (
                    arith,
                    length-take (pr.buf_end - pr.buf_pos) (drop pr.buf_pos pr.buf),
                    z refl,
                    qe,
                    qp,
                  )))),
      kept_bytes,
      λ x. absurd (cc x),
    )
    go false z z' = (
      (
        qb,
        omega (arith, l e, fl, qp, qc, h),
        (λ x. (g', omega (arith, fl, qp), omega (arith, z' refl), omega (arith, qe, qc, l e))),
        (λ x. absurd (ground arith)),
        (λ x. absurd (ground arith)),
      ),
      live-in_buf (record q { buf_pos = q.buf_pos + n; examined = q.examined - n }) e'
          ∙ (rw (qe, qp, same) refl
              ∙ (sym (
                    drop-part n (pr.buf_end - pr.buf_pos) (pr.buf_end - (pr.buf_pos + n)) pr.buf_pos
                      (pr.buf_pos + n) pr.buf (omega (arith, h)) refl)
                  ∙ ap (drop n) (sym (live-in_buf pr e)))),
      kept_bytes,
      λ x. absurd (cc x),
    )

abbrev pub moved_back : ℕ → Reader → Reader
moved_back n pr = record pr {
  buf = blit pr.floor (take n (drop pr.buf_pos pr.buf)) pr.buf;
  floor = pr.floor + n;
}

pub keep_in_buf-begun :
    (n : ℕ) (pr : Reader)
    → pr.run_len ≡ 0
    → keep_in_buf n pr
      ≡ record pr { run_in_cur = false; run_start = pr.buf_pos; floor = pr.buf_pos + n }
unfolding keep_in_buf
keep_in_buf-begun n pr e = rw (==-true pr.run_len 0 e) refl

pub keep_in_buf-on :
    (n : ℕ) (pr : Reader)
    → 0 < pr.run_len
    → pr.buf_pos ≡ pr.floor
    → keep_in_buf n pr ≡ record pr { floor = pr.floor + n }
unfolding keep_in_buf
keep_in_buf-on n pr h e =
    rw (==-false pr.run_len 0 (omega arith)) (rw (==-true pr.buf_pos pr.floor e) refl)

pub keep_in_buf-moved :
    (n : ℕ) (pr : Reader)
    → 0 < pr.run_len
    → pr.floor < pr.buf_pos
    → keep_in_buf n pr ≡ moved_back n pr
unfolding keep_in_buf
keep_in_buf-moved n pr h e =
    rw (==-false pr.run_len 0 (omega arith)) (rw (==-false pr.buf_pos pr.floor (omega arith)) refl)

pub keep_in_buf-Keeps :
    (n : ℕ) (pr : Reader)
    → pr.live_in_buf ≡ true
    → n ≤ pr.buf_end - pr.buf_pos
    → IsValid pr
    → Keeps n pr
        (record { place = in_buf; at = if pr.run_len == 0 then pr.buf_pos else pr.floor; len = n })
        (consume n (add_run n (keep_in_buf n pr)))
unfolding add_run
keep_in_buf-Keeps n pr e h v = elim (Bool-cases (pr.run_len == 0)) [
  | inl z ↦
      rw (keep_in_buf-begun n pr ((==_iff pr.run_len 0).0 z), z)
        (after_buf n pr.buf_pos pr
          (add_run n
            (record pr { run_in_cur = false; run_start = pr.buf_pos; floor = pr.buf_pos + n }))
          e v h (e, (v.2 e).0, refl) (refl, refl, refl) v.0 (omega arith) refl refl)
  | inr z ↦ elim (Bool-cases (pr.buf_pos == pr.floor)) [
    | inl w ↦
        rw (keep_in_buf-on n pr (pos_of z) ((==_iff pr.buf_pos pr.floor).0 w), z)
          (after_buf n pr.floor pr (add_run n (record pr { floor = pr.floor + n })) e v h
            (e, (v.2 e).0, not_there) (refl, refl, refl) v.0 (omega (arith, (v.2 e).1)) refl
            (ap (λ i. take n (drop i pr.buf)) (sym ((==_iff pr.buf_pos pr.floor).0 w))))
    | inr w ↦
        rw (keep_in_buf-moved n pr (pos_of z) (before w), z)
          (after_buf n pr.floor pr (add_run n (moved_back n pr)) e v h (e, (v.2 e).0, not_there)
            (refl, refl, refl)
            (length-blit pr.floor (take n (drop pr.buf_pos pr.buf)) pr.buf
                (omega (arith, many, before w, h, v.0, (v.2 e).3))
              ∙ v.0)
            (omega (arith, before w))
            (drop-blit (pr.buf_pos + n) pr.floor (take n (drop pr.buf_pos pr.buf)) pr.buf
              (omega (arith, v.0, v.1)) (omega (arith, many, before w)))
            (take-drop-blit_self n pr.floor (take n (drop pr.buf_pos pr.buf)) pr.buf
              (omega (arith, many)) (omega (arith, v.0, v.1))))
  ]
]
  where
    many : length (take n (drop pr.buf_pos pr.buf)) ≡ n
    many = omega (
      arith,
      length-take n (drop pr.buf_pos pr.buf),
      length-drop pr.buf_pos pr.buf,
      h,
      v.0,
      (v.2 e).3,
    )

    pos_of : (pr.run_len == 0) ≡ false → 0 < pr.run_len
    pos_of z = ground arith

    not_there : pr.run_in_cur ≡ false
    not_there = ground (arith, v.2, v.4)

    before : (pr.buf_pos == pr.floor) ≡ false → pr.floor < pr.buf_pos
    before w = ground (arith, (v.2 e).1)

pub consume-buf :
    (n : ℕ) (pr : Reader) → pr.live_in_buf ≡ false → pr.has_cur ≡ true → (consume n pr).buf ≡ pr.buf
unfolding consume skip examine cur_done forget_cur give_back
consume-buf n pr e g = ground arith

pub keep_out-Keeps :
    (n : ℕ) (pr : Reader)
    → pr.live_in_buf ≡ false
    → pr.has_cur ≡ true
    → pr.run_in_cur ≡ false
    → n ≤ length pr.cur.bytes - pr.cur_pos
    → pr.floor + n ≤ pr.cap
    → IsValid pr
    → Keeps n pr
        (record { place = in_buf; at = pr.floor; len = n })
        (consume n (add_run n (keep_out n pr)))
unfolding keep_out add_run live_span contents
keep_out-Keeps n pr e g r h fits v =
    let q : Reader = add_run n (keep_out n pr) in
    let consumed = consume-Lives n q (
      length-blit pr.floor (take n (drop pr.cur_pos pr.cur.bytes)) pr.buf
            (omega (arith, many, v.0, fits))
          ∙ v.0,
      fits,
      (λ x. absurd (ground arith)),
      v.3,
      (λ x. absurd (ground arith)),
    ) in
    (
      consumed.0,
      consumed.1
          ∙ (ap (λ k. drop k (live q)) (at_most_live-all n q (rw (e, g) h))
              ∙ ap (drop n) (live-in_cur q e g ∙ sym (live-in_cur pr e g))),
      ap (λ m. take n (drop pr.floor m)) (consume-buf n q e g)
          ∙ (take-drop-blit_self n pr.floor (take n (drop pr.cur_pos pr.cur.bytes)) pr.buf
                (omega (arith, many)) (omega (arith, v.0, v.1))
              ∙ ap (take n) (sym (live-in_cur pr e g))),
      λ x. absurd (cc x),
    )
  where
    many : length (take n (drop pr.cur_pos pr.cur.bytes)) ≡ n
    many = omega (
      arith,
      length-take n (drop pr.cur_pos pr.cur.bytes),
      length-drop pr.cur_pos pr.cur.bytes,
      h,
    )
