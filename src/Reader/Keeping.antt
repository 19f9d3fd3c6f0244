-- ===== src/Reader/Keeping.antt =====
-- What keeping bytes in the kernel's buffer leaves of the live ones, and where the kept ones are
-- (`ioxd__pipereader_keep`, lib/io/pipe.c).
use libioma.Base.{
  ℕ, ◌+◌, ◌-◌, ◌≤◌, ◌<◌, ◌⊎◌, inl, inr, Bool-cases, Bool, true, false, not, ◌&&◌, ◌||◌, ◌≡◌, refl,
  sym, ap, ◌∙◌, arith, length, take, drop, blit, ltb, ◌==◌, ==_iff, if◌then◌else◌, length-take,
  length-drop, length-blit, drop-drop, take-drop-blit_self, drop-blit,
}
use libioma.Reader.State.{
  Reader, in_cur, Span, contents, live_span, give_back, forget_cur, cur_done,
}
use libioma.Reader.Consume.{skip, at_most_live, consume, examine, keep_in_cur, add_run}
use libioma.Reader.Live.{IsValid, live, live-in_cur}

pub ==-true : (m n : ℕ) → m ≡ n → (m == n) ≡ true
==-true m n e = ground arith

pub ==-false : (m n : ℕ) → (m ≡ n → ⊥) → (m == n) ≡ false
==-false m n e = ground arith

pub at_most_live-all : (n : ℕ) (pr : Reader) → n ≤ (live_span pr).len → at_most_live n pr ≡ n
unfolding at_most_live
at_most_live-all n pr h = ground arith

pub consume-all :
    (n : ℕ) (pr : Reader)
    → n ≤ (live_span pr).len
    → consume n pr ≡ examine (pr.examined - n) (skip n pr)
unfolding consume
consume-all n pr h = ap (λ k. examine (pr.examined - k) (skip k pr)) (at_most_live-all n pr h)

pub skip-in_cur :
    (n : ℕ) (pr : Reader)
    → pr.live_in_buf ≡ false
    → pr.has_cur ≡ true
    → skip n pr ≡ cur_done (record pr { cur_pos = pr.cur_pos + n })
unfolding skip
skip-in_cur n pr e g = rw (e, g) refl

pub cur_done-held : (pr : Reader) → pr.run_in_cur ≡ true → 0 < pr.run_len → cur_done pr ≡ pr
unfolding cur_done
cur_done-held pr e h =
    go
      (not pr.has_cur
        || ltb pr.cur_pos (length pr.cur.bytes)
        || (pr.run_in_cur && not (pr.run_len == 0)))
      (ground arith)
  where
    go :
        (x : Bool)
        → x ≡ true
        → (if x
            then pr
            else forget_cur (if pr.cur_is_pinned then pr else give_back pr.cur.buf_id pr))
          ≡ pr
    go true e = refl
    go false e = absurd (cc e)

-- The reader after consuming in a kernel's buffer that the run holds.
abbrev moved_on : ℕ → Reader → Reader
moved_on n pr = record pr { cur_pos = pr.cur_pos + n; examined = pr.examined - n }

pub consume-in_cur :
    (n : ℕ) (pr : Reader)
    → n ≤ (live_span pr).len
    → pr.live_in_buf ≡ false
    → pr.has_cur ≡ true
    → pr.run_in_cur ≡ true
    → 0 < pr.run_len
    → consume n pr ≡ moved_on n pr
unfolding examine
consume-in_cur n pr h e g r1 r2 =
    consume-all n pr h
    ∙ ap (examine (pr.examined - n))
        (skip-in_cur n pr e g ∙ cur_done-held (record pr { cur_pos = pr.cur_pos + n }) r1 r2)

-- What keeping gives: the bytes are where the span says, in memory that is still held, and the live
-- bytes go on behind them.
abbrev pub Keeps : ℕ → Reader → Span → Reader → Type 0
Keeps n pr s q =
    IsValid q
    × (live q ≡ drop n (live pr))
    × (contents q s ≡ take n (live pr))
    × (s.place ≡ in_cur → q.has_cur ≡ true)

-- When a step has moved `n` live bytes of the kernel's buffer to the run there, at `at`.
after_cur :
    (n at : ℕ) (pr q : Reader)
    → pr.live_in_buf ≡ false
    → pr.has_cur ≡ true
    → IsValid pr
    → n ≤ (live_span q).len
    → (q.live_in_buf ≡ false) × (q.has_cur ≡ true) × (q.cur_pos ≡ pr.cur_pos)
    → (length q.buf ≡ q.cap) × (q.floor ≤ q.cap)
    → pr.cur_pos + n ≤ length q.cur.bytes
    → (q.run_in_cur ≡ true) × (0 < q.run_len) × (q.run_start + q.run_len ≤ pr.cur_pos + n)
    → drop (pr.cur_pos + n) q.cur.bytes ≡ drop (pr.cur_pos + n) pr.cur.bytes
    → take n (drop at q.cur.bytes) ≡ take n (drop pr.cur_pos pr.cur.bytes)
    → Keeps n pr (record { place = in_cur; at = at; len = n }) (consume n q)
unfolding contents
after_cur n at pr q e g v h (e', g', p) (b, f) le (r1, r2, r3) same there =
    rw (consume-in_cur n q h e' g' r1 r2) (
      (
        b,
        f,
        (λ x. absurd (ground arith)),
        (λ x. omega (arith, p, le)),
        (λ x. (g', r2, omega (arith, p, r3))),
      ),
      live-in_cur (moved_on n q) e' g'
          ∙ (rw p same
              ∙ (sym (drop-drop n pr.cur_pos (pr.cur_pos + n) pr.cur.bytes refl)
                  ∙ ap (drop n) (sym (live-in_cur pr e g)))),
      there ∙ ap (take n) (sym (live-in_cur pr e g)),
      λ x. g',
    )

-- The three ways of keeping in the kernel's buffer: the run begins, goes on in place, or is moved up.
abbrev begun : Reader → Reader
begun pr = record pr { run_in_cur = true; run_start = pr.cur_pos }

abbrev moved_up : ℕ → Reader → Reader
moved_up n pr = record pr {
  cur = record pr.cur {
    bytes = blit (pr.run_start + pr.run_len) (take n (drop pr.cur_pos pr.cur.bytes)) pr.cur.bytes;
  };
}

pub keep_in_cur-begun : (n : ℕ) (pr : Reader) → pr.run_len ≡ 0 → keep_in_cur n pr ≡ begun pr
unfolding keep_in_cur
keep_in_cur-begun n pr e =
    rw (==-true pr.run_len 0 e)
      (rw (==-true (pr.cur_pos + pr.run_len) pr.cur_pos (omega arith)) refl)

pub keep_in_cur-on :
    (n : ℕ) (pr : Reader)
    → 0 < pr.run_len
    → pr.run_start + pr.run_len ≡ pr.cur_pos
    → keep_in_cur n pr ≡ pr
unfolding keep_in_cur
keep_in_cur-on n pr h e =
    rw (==-false pr.run_len 0 (omega arith))
      (rw (==-true (pr.run_start + pr.run_len) pr.cur_pos e) refl)

pub keep_in_cur-moved :
    (n : ℕ) (pr : Reader)
    → 0 < pr.run_len
    → pr.run_start + pr.run_len < pr.cur_pos
    → keep_in_cur n pr ≡ moved_up n pr
unfolding keep_in_cur
keep_in_cur-moved n pr h e =
    rw (==-false pr.run_len 0 (omega arith))
      (rw (==-false (pr.run_start + pr.run_len) pr.cur_pos (omega arith)) refl)

pub keep_in_cur-Keeps :
    (n : ℕ) (pr : Reader)
    → pr.live_in_buf ≡ false
    → pr.has_cur ≡ true
    → pr.run_len ≡ 0 ⊎ pr.run_in_cur ≡ true
    → 0 < n
    → n ≤ length pr.cur.bytes - pr.cur_pos
    → IsValid pr
    → Keeps n pr
        (record {
          place = in_cur;
          at = if pr.run_len == 0 then pr.cur_pos else pr.run_start + pr.run_len;
          len = n;
        })
        (consume n (add_run n (keep_in_cur n pr)))
unfolding add_run live_span
keep_in_cur-Keeps n pr e g how pos h v = elim (Bool-cases (pr.run_len == 0)) [
  | inl z ↦
      rw (keep_in_cur-begun n pr ((==_iff pr.run_len 0).0 z), z)
        (after_cur n pr.cur_pos pr (add_run n (begun pr)) e g v (rw (e, g) h) (e, g, refl)
          (v.0, v.1) (omega (arith, h, v.3 g, pos))
          (refl, omega (arith, pos), (omega (arith, (==_iff pr.run_len 0).0 z))) refl refl)
  | inr z ↦ elim (Bool-cases (pr.run_start + pr.run_len == pr.cur_pos)) [
    | inl w ↦
        rw (keep_in_cur-on n pr (pos_of z) ((==_iff (pr.run_start + pr.run_len) pr.cur_pos).0 w), z)
          (after_cur n (pr.run_start + pr.run_len) pr (add_run n pr) e g v (rw (e, g) h)
            (e, g, refl) (v.0, v.1) (omega (arith, h, v.3 g, pos))
            (
              run_there z,
              omega (arith, pos),
              (omega (arith, (==_iff (pr.run_start + pr.run_len) pr.cur_pos).0 w)),
            )
            refl
            (ap (λ i. take n (drop i pr.cur.bytes))
              ((==_iff (pr.run_start + pr.run_len) pr.cur_pos).0 w)))
    | inr w ↦
        rw (keep_in_cur-moved n pr (pos_of z) (before z w), z)
          (after_cur n (pr.run_start + pr.run_len) pr (add_run n (moved_up n pr)) e g v
            (rw (e, g) (omega (arith, h, same_length z w))) (e, g, refl) (v.0, v.1)
            (omega (arith, h, v.3 g, pos, same_length z w))
            (run_there z, omega (arith, pos), omega (arith, before z w))
            (drop-blit (pr.cur_pos + n) (pr.run_start + pr.run_len)
              (take n (drop pr.cur_pos pr.cur.bytes)) pr.cur.bytes
              (omega (arith, before z w, v.3 g)) (omega (arith, many, before z w)))
            (take-drop-blit_self n (pr.run_start + pr.run_len)
              (take n (drop pr.cur_pos pr.cur.bytes)) pr.cur.bytes (omega (arith, many))
              (omega (arith, before z w, v.3 g))))
  ]
]
  where
    many : length (take n (drop pr.cur_pos pr.cur.bytes)) ≡ n
    many = omega (
      arith,
      length-take n (drop pr.cur_pos pr.cur.bytes),
      length-drop pr.cur_pos pr.cur.bytes,
      h,
    )

    pos_of : (pr.run_len == 0) ≡ false → 0 < pr.run_len
    pos_of z = ground arith

    run_there : (pr.run_len == 0) ≡ false → pr.run_in_cur ≡ true
    run_there z = ground arith

    before :
        (pr.run_len == 0) ≡ false
        → (pr.run_start + pr.run_len == pr.cur_pos) ≡ false
        → pr.run_start + pr.run_len < pr.cur_pos
    before z w = ground (arith, (v.4 (run_there z)).2)

    same_length :
        (pr.run_len == 0) ≡ false
        → (pr.run_start + pr.run_len == pr.cur_pos) ≡ false
        → length
            (blit (pr.run_start + pr.run_len) (take n (drop pr.cur_pos pr.cur.bytes)) pr.cur.bytes)
          ≡ length pr.cur.bytes
    same_length z w =
        length-blit (pr.run_start + pr.run_len) (take n (drop pr.cur_pos pr.cur.bytes)) pr.cur.bytes
          (omega (arith, many, h, v.3 g, before z w, pos))
