-- ===== src/Reader/Kept.antt =====
-- Keeping bytes (`ioxd__pipereader_keep`, lib/io/pipe.c) leaves the buffers' owners as they are.
use libioma.Base.{
  ℕ, ◌+◌, Bool, true, false, ◌&&◌, ◌||◌, Option, none, some, ◌≡◌, refl, arith, ltb, ◌==◌,
  if◌then◌else◌,
}
use libioma.Reader.State.{Reader, Place, in_buf, in_cur, full, Span, live_span}
use libioma.Reader.Consume.{keep_in_buf, keep_in_cur, keep_out, add_run, kept, keep}
use libioma.Reader.Tally.{
  count, held, tally, IsOwned, Owns, Owns-trans, keep_in_buf-Owns, keep_in_cur-Owns, consume-Owns,
}

-- The run is in a buffer that is there.
abbrev InHand : Reader → Type 0
InHand pr = pr.run_in_cur ≡ true → pr.has_cur ≡ true

pub add_run-Owns : (n b : ℕ) (pr : Reader) → InHand pr → Owns b pr (add_run n pr)
unfolding add_run tally count held
add_run-Owns n b pr e h = ((ground arith, ground arith), ground arith)

pub kept-Owns :
    (n at b : ℕ) (place : Place) (pr : Reader) → InHand pr → Owns b pr (kept n place at pr).0
unfolding kept
kept-Owns n at b place pr e =
    Owns-trans b pr (add_run n pr) (kept n place at pr).0 (add_run-Owns n b pr e)
      (consume-Owns n b (add_run n pr))

pub keep_in_buf-InHand : (n : ℕ) (pr : Reader) → IsOwned pr → InHand (keep_in_buf n pr)
unfolding keep_in_buf
keep_in_buf-InHand n pr h = ground arith

pub keep_in_cur-InHand : (n : ℕ) (pr : Reader) → pr.has_cur ≡ true → InHand (keep_in_cur n pr)
unfolding keep_in_cur
keep_in_cur-InHand n pr h = ground arith

pub fail_full-Owns : (b : ℕ) (pr : Reader) → Owns b pr (record pr { error = some full })
unfolding tally held
fail_full-Owns b pr h = (h, refl)

pub keep_out-has_cur : (n : ℕ) (pr : Reader) → pr.has_cur ≡ true → (keep_out n pr).has_cur ≡ true
unfolding keep_out
keep_out-has_cur n pr e = e

pub keep_out-Owns : (n b : ℕ) (pr : Reader) → Owns b pr (keep_out n pr)
unfolding keep_out tally count held
keep_out-Owns n b pr h = ((ground arith, ground arith), ground arith)

pub keep-Owns : (n b : ℕ) (pr : Reader) → Owns b pr (keep n pr).0
unfolding keep
keep-Owns n b pr h =
    go (ltb (live_span pr).len n) (n == 0) pr.live_in_buf
      (pr.has_cur && (pr.run_len == 0 || pr.run_in_cur)) pr.has_cur (ltb pr.cap (pr.floor + n))
      (λ e. ground arith) (λ e. e)
  where
    buf_at : ℕ
    buf_at = if pr.run_len == 0 then pr.buf_pos else pr.floor

    cur_at : ℕ
    cur_at = if pr.run_len == 0 then pr.cur_pos else pr.run_start + pr.run_len

    P : Reader × Option Span → Type 0
    P r = IsOwned r.0 × (tally b r.0 ≡ tally b pr)

    go :
        (short none_asked in_b in_c held_ no_room : Bool)
        → (in_c ≡ true → pr.has_cur ≡ true)
        → (held_ ≡ true → pr.has_cur ≡ true)
        → P (
            if short
            then (pr, none)
            else if none_asked
            then (pr, some (record (live_span pr) { len = 0 }))
            else if in_b
            then kept n in_buf buf_at (keep_in_buf n pr)
            else if in_c
            then kept n in_cur cur_at (keep_in_cur n pr)
            else if held_
            then (if no_room
                then (record pr { error = some full }, none)
                else kept n in_buf pr.floor (keep_out n pr))
            else (pr, none))
    go true na ib ic hc nr f g = (h, refl)
    go false true ib ic hc nr f g = (h, refl)
    go false false true ic hc nr f g =
        Owns-trans b pr (keep_in_buf n pr) (kept n in_buf buf_at (keep_in_buf n pr)).0
          (keep_in_buf-Owns n b pr)
          (kept-Owns n buf_at b in_buf (keep_in_buf n pr) (keep_in_buf-InHand n pr h)) h
    go false false false true hc nr f g =
        Owns-trans b pr (keep_in_cur n pr) (kept n in_cur cur_at (keep_in_cur n pr)).0
          (keep_in_cur-Owns n b pr (f refl))
          (kept-Owns n cur_at b in_cur (keep_in_cur n pr) (keep_in_cur-InHand n pr (f refl))) h
    go false false false false true true f g = fail_full-Owns b pr h
    go false false false false true false f g =
        Owns-trans b pr (keep_out n pr) (kept n in_buf pr.floor (keep_out n pr)).0
          (keep_out-Owns n b pr)
          (kept-Owns n pr.floor b in_buf (keep_out n pr) (λ _. keep_out-has_cur n pr (g refl))) h
    go false false false false false nr f g = (h, refl)
