-- ===== src/Reader/Keeps.antt =====
-- What keeping bytes leaves of the live ones, and where the kept ones are
-- (`ioxd__pipereader_keep`, lib/io/pipe.c).
use libioma.Base.{
  ℕ, ◌+◌, ◌-◌, ◌≤◌, ◌<◌, ◌⊎◌, Bool, true, false, ◌&&◌, ◌||◌, Option, none, some, [], ◌≡◌, refl, sym,
  ◌∙◌, arith, length, ltb, ◌==◌, if◌then◌else◌,
}
use libioma.Reader.State.{Reader, in_buf, in_cur, nowhere, full, Span, contents, live_span}
use libioma.Reader.Consume.{keep_in_buf, keep_in_cur, keep_out, kept, keep}
use libioma.Reader.Live.{IsValid, live, live-if}
use libioma.Reader.Keeping.{Keeps, keep_in_cur-Keeps}
use libioma.Reader.Moved.{keep_in_buf-Keeps, keep_out-Keeps}

-- What a keep leaves, whether or not it gives a pointer.
abbrev pub KeepsSome : ℕ → Reader → Reader × Option Span → Type 0
KeepsSome n pr (q, none) = IsValid q × (live q ≡ live pr)
KeepsSome n pr (q, some s) = Keeps n pr s q

-- The facts that the tests of `keep` decide.
keep-none :
    (n : ℕ) (pr : Reader)
    → n ≡ 0
    → IsValid pr
    → KeepsSome n pr (pr, some (record (live_span pr) { len = 0 }))
unfolding live_span contents
keep-none n pr z v =
    rw z (v, refl, go pr.live_in_buf pr.has_cur, held_there pr.live_in_buf pr.has_cur (λ e. e))
  where
    span_if : Bool → Bool → Span
    span_if x y =
        if x
        then record { place = in_buf; at = pr.buf_pos; len = pr.buf_end - pr.buf_pos }
        else if y
        then record { place = in_cur; at = pr.cur_pos; len = length pr.cur.bytes - pr.cur_pos }
        else record { place = nowhere; at = 0; len = 0 }

    go : (x y : Bool) → contents pr (record (span_if x y) { len = 0 }) ≡ []
    go true y = refl
    go false true = refl
    go false false = refl

    held_there :
        (x y : Bool)
        → (y ≡ true → pr.has_cur ≡ true)
        → Span.place (span_if x y) ≡ in_cur
        → pr.has_cur ≡ true
    held_there true y f e = absurd (cc e)
    held_there false true f e = f refl
    held_there false false f e = absurd (cc e)

live_len-in_buf :
    (pr : Reader) → pr.live_in_buf ≡ true → (live_span pr).len ≡ pr.buf_end - pr.buf_pos
unfolding live_span
live_len-in_buf pr e = rw e refl

live_len-in_cur :
    (pr : Reader)
    → pr.live_in_buf ≡ false
    → pr.has_cur ≡ true
    → (live_span pr).len ≡ length pr.cur.bytes - pr.cur_pos
unfolding live_span
live_len-in_cur pr e g = rw (e, g) refl

-- Keeping that succeeds gives a pointer to the first live bytes, in memory that is still held after it,
-- and the live bytes go on behind them; keeping that fails leaves the live bytes as they were.
pub keep-KeepsSome : (n : ℕ) (pr : Reader) → IsValid pr → KeepsSome n pr (keep n pr)
unfolding keep kept
keep-KeepsSome n pr v =
    go (ltb (live_span pr).len n) (n == 0) pr.live_in_buf
      (pr.has_cur && (pr.run_len == 0 || pr.run_in_cur)) pr.has_cur (ltb pr.cap (pr.floor + n))
      (λ e. ground arith) (λ e. ground arith) (λ e. ground arith) refl refl (λ e. ground arith)
      (λ e g. ground arith) (λ e. ground arith)
  where
    go :
        (short none_asked in_b in_c held_ no_room : Bool)
        → (none_asked ≡ true → n ≡ 0)
        → (none_asked ≡ false → 0 < n)
        → (short ≡ false → n ≤ (live_span pr).len)
        → pr.live_in_buf ≡ in_b
        → pr.has_cur ≡ held_
        → (in_c ≡ true → (pr.has_cur ≡ true) × (pr.run_len ≡ 0 ⊎ pr.run_in_cur ≡ true))
        → (in_c ≡ false → pr.has_cur ≡ true → pr.run_in_cur ≡ false)
        → (no_room ≡ false → pr.floor + n ≤ pr.cap)
        → KeepsSome n pr (
            if short
            then (pr, none)
            else if none_asked
            then (pr, some (record (live_span pr) { len = 0 }))
            else if in_b
            then kept n in_buf (if pr.run_len == 0 then pr.buf_pos else pr.floor) (keep_in_buf n pr)
            else if in_c
            then kept n in_cur
                (if pr.run_len == 0 then pr.cur_pos else pr.run_start + pr.run_len)
                (keep_in_cur n pr)
            else if held_
            then (if no_room
                then (record pr { error = some full }, none)
                else kept n in_buf pr.floor (keep_out n pr))
            else (pr, none))
    go true na ib ic hc nr z p h e g c c' r = (v, refl)
    go false true ib ic hc nr z p h e g c c' r = keep-none n pr (z refl) v
    go false false true ic hc nr z p h e g c c' r =
        keep_in_buf-Keeps n pr e (omega (arith, h refl, live_len-in_buf pr e)) v
    go false false false true hc nr z p h e g c c' r =
        keep_in_cur-Keeps n pr e (c refl).0 (c refl).1 (p refl)
          (omega (arith, h refl, live_len-in_cur pr e (c refl).0)) v
    go false false false false true true z p h e g c c' r =
        (v, live-if (record pr { error = some full }) ∙ sym (live-if pr))
    go false false false false true false z p h e g c c' r =
        keep_out-Keeps n pr e g (c' refl g) (omega (arith, h refl, live_len-in_cur pr e g)) (r refl)
          v
    go false false false false false nr z p h e g c c' r = (v, refl)
