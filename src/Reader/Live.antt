-- ===== src/Reader/Live.antt =====
-- The live bytes of the reader of lib/io/pipe.c, and the invariant of its spans.
use libioma.Base.{
  ◌+◌, ◌-◌, ◌≤◌, ◌<◌, inl, inr, Bool-cases, Bool, true, false, not, ◌&&◌, ◌||◌, [], ◌≡◌, refl, sym,
  ◌∙◌, arith, Bytes, length, take, drop, ltb, ◌==◌, if◌then◌else◌, length-take, length-drop,
  take_all, drop_all,
}
use libioma.Reader.State.{
  Reader, in_buf, in_cur, nowhere, Span, contents, live_span, give_back, forget_cur, cur_done,
}

-- The spans lie within the memory they point into, the kept bytes in front of the live ones, and only
-- one memory holds live bytes.
abbrev pub IsValid : Reader → Type 0
IsValid pr =
    (length pr.buf ≡ pr.cap)
    × (pr.floor ≤ pr.cap)
    × (pr.live_in_buf ≡ true
        → (pr.has_cur ≡ false)
          × (pr.floor ≤ pr.buf_pos)
          × (pr.buf_pos ≤ pr.buf_end)
          × (pr.buf_end ≤ pr.cap))
    × (pr.has_cur ≡ true → pr.cur_pos ≤ length pr.cur.bytes)
    × (pr.run_in_cur ≡ true
        → (pr.has_cur ≡ true) × (0 < pr.run_len) × (pr.run_start + pr.run_len ≤ pr.cur_pos))

-- The live bytes.
unfoldable pub live : Reader → Bytes
unfolding live_span contents
live pr = contents pr (live_span pr)

pub live-in_buf :
    (pr : Reader)
    → pr.live_in_buf ≡ true
    → live pr ≡ take (pr.buf_end - pr.buf_pos) (drop pr.buf_pos pr.buf)
unfolding live live_span contents
live-in_buf pr e = rw e refl

pub live-in_cur :
    (pr : Reader)
    → pr.live_in_buf ≡ false
    → pr.has_cur ≡ true
    → live pr ≡ drop pr.cur_pos pr.cur.bytes
unfolding live live_span contents
live-in_cur pr e f =
    rw (e, f)
      (take_all (length pr.cur.bytes - pr.cur_pos) (drop pr.cur_pos pr.cur.bytes)
        (omega (arith, length-drop pr.cur_pos pr.cur.bytes)))

pub live-nowhere : (pr : Reader) → pr.live_in_buf ≡ false → pr.has_cur ≡ false → live pr ≡ []
unfolding live live_span contents
live-nowhere pr e f = rw (e, f) refl

-- The live bytes are as many as the span says.
pub length-live : (pr : Reader) → IsValid pr → length (live pr) ≡ (live_span pr).len
unfolding live_span live contents
length-live pr (b, f, l, c, r) = go pr.live_in_buf pr.has_cur l
  where
    span_of : Bool → Bool → Span
    span_of x y =
        if x
        then record { place = in_buf; at = pr.buf_pos; len = pr.buf_end - pr.buf_pos }
        else if y
        then record { place = in_cur; at = pr.cur_pos; len = length pr.cur.bytes - pr.cur_pos }
        else record { place = nowhere; at = 0; len = 0 }

    go :
        (x y : Bool)
        → (x ≡ true
            → (pr.has_cur ≡ false)
              × (pr.floor ≤ pr.buf_pos)
              × (pr.buf_pos ≤ pr.buf_end)
              × (pr.buf_end ≤ pr.cap))
        → length (contents pr (span_of x y)) ≡ (span_of x y).len
    go true y l = omega (
      arith,
      length-take (pr.buf_end - pr.buf_pos) (drop pr.buf_pos pr.buf),
      length-drop pr.buf_pos pr.buf,
      (l refl).3,
      b,
    )
    go false true l = omega (
      arith,
      length-take (length pr.cur.bytes - pr.cur_pos) (drop pr.cur_pos pr.cur.bytes),
      length-drop pr.cur_pos pr.cur.bytes,
    )
    go false false l = refl

pub cur_done-IsValid : (pr : Reader) → IsValid pr → IsValid (cur_done pr)
unfolding cur_done forget_cur give_back
cur_done-IsValid pr (b, f, l, c, r) =
    (ground arith, ground arith, ground arith, ground arith, ground arith)

-- The live bytes where the two flags are known.
abbrev pub live_if : Bool → Bool → Reader → Bytes
live_if x y pr =
    if x
    then take (pr.buf_end - pr.buf_pos) (drop pr.buf_pos pr.buf)
    else if y
    then drop pr.cur_pos pr.cur.bytes
    else []

pub live-if : (pr : Reader) → live pr ≡ live_if pr.live_in_buf pr.has_cur pr
live-if pr = elim (Bool-cases pr.live_in_buf) [
  | inl e ↦ live-in_buf pr e ∙ rw e refl
  | inr e ↦ elim (Bool-cases pr.has_cur) [
    | inl f ↦ live-in_cur pr e f ∙ rw (e, f) refl
    | inr f ↦ live-nowhere pr e f ∙ rw (e, f) refl
  ]
]

pub forget-live : (pr : Reader) → length pr.cur.bytes ≤ pr.cur_pos → live (forget_cur pr) ≡ live pr
unfolding forget_cur
forget-live pr h = live-if (forget_cur pr) ∙ (go pr.live_in_buf pr.has_cur ∙ sym (live-if pr))
  where
    go : (x y : Bool) → live_if x false (forget_cur pr) ≡ live_if x y pr
    go true y = refl
    go false true = sym (drop_all pr.cur_pos pr.cur.bytes h)
    go false false = refl

pub cur_done-live : (pr : Reader) → live (cur_done pr) ≡ live pr
unfolding cur_done give_back
cur_done-live pr =
    go
      (not pr.has_cur
        || ltb pr.cur_pos (length pr.cur.bytes)
        || (pr.run_in_cur && not (pr.run_len == 0)))
      pr.cur_is_pinned (λ e. ground arith)
  where
    go :
        (stay shared : Bool)
        → (stay ≡ false → length pr.cur.bytes ≤ pr.cur_pos)
        → live (if stay then pr else forget_cur (if shared then pr else give_back pr.cur.buf_id pr))
          ≡ live pr
    go true shared h = refl
    go false true h = forget-live pr (h refl)
    go false false h =
        forget-live (give_back pr.cur.buf_id pr) (h refl)
        ∙ (live-if (give_back pr.cur.buf_id pr) ∙ sym (live-if pr))

-- What a step leaves valid, and the live bytes after it.
abbrev pub Lives : Reader → Bytes → Reader → Type 0
Lives pr bytes pr' = IsValid pr → IsValid pr' × (live pr' ≡ bytes)
