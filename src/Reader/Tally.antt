-- ===== src/Reader/Tally.antt =====
-- How often each buffer stands among those that the reader of lib/io/pipe.c has given back, holds and
-- is still to get, and the steps that leave it.
use libioma.Base.{
  ℕ, ◌+◌, ◌-◌, inl, inr, Bool-cases, true, false, not, ◌&&◌, List, [], ◌∷◌, ◌≡◌, refl, arith,
  length, ltb, ◌==◌, if◌then◌else◌,
}
use libioma.Reader.State.{Item, Reader, give_back, forget_cur, cur_done}
use libioma.Reader.Fill.{use_up, compact, pin, gather_run, gather_live, gather, make_room}
use libioma.Reader.Consume.{
  skip, at_most_live, freeze, end_run, consume, examine, keep_in_buf, keep_in_cur, run_begin,
  move_down, unpin, release,
}

-- How often an id stands in a list.
unfoldable pub count : ℕ → List ℕ → ℕ
count b [] = 0
count b (x ∷ xs) = (if x == b then 1 else 0) + count b xs

unfoldable pub ids_count : ℕ → List Item → ℕ
ids_count b [] = 0
ids_count b (it ∷ its) = (if it.buf_id == b then 1 else 0) + ids_count b its

-- How often a buffer stands among those held.
unfoldable pub held : ℕ → Reader → ℕ
held b pr =
    (if pr.has_cur && not pr.cur_is_pinned then (if pr.cur.buf_id == b then 1 else 0) else 0)
    + (if pr.has_pinned then (if pr.pinned.buf_id == b then 1 else 0) else 0)

-- How often a buffer stands among those returned, held and to come.
unfoldable pub tally : ℕ → Reader → ℕ
unfolding count ids_count held
tally b pr =
    count b pr.returned + held b pr + (ids_count b pr.conn.rx + ids_count b pr.conn.arriving)

-- A current buffer that is the pinned one is there, and so is the pinned one; a run in the current
-- buffer is in one that is there.
abbrev pub IsOwned : Reader → Type 0
IsOwned pr =
    (pr.cur_is_pinned ≡ true
      → (pr.has_cur ≡ true) × (pr.has_pinned ≡ true) × (pr.pinned.buf_id ≡ pr.cur.buf_id))
    × ((pr.run_in_cur && not (pr.run_len == 0)) ≡ true → pr.has_cur ≡ true)

-- What an operation keeps.
abbrev pub Owns : ℕ → Reader → Reader → Type 0
Owns b pr pr' = IsOwned pr → IsOwned pr' × (tally b pr' ≡ tally b pr)

pub Owns-trans : (b : ℕ) (pr pr' pr'' : Reader) → Owns b pr pr' → Owns b pr' pr'' → Owns b pr pr''
Owns-trans b pr pr' pr'' f g h = ((g (f h).0).0, ground arith)

pub cur_done-Owns : (b : ℕ) (pr : Reader) → Owns b pr (cur_done pr)
unfolding cur_done give_back forget_cur tally count held
cur_done-Owns b pr h = ((ground arith, ground arith), ground arith)

pub use_up-Owns : (b : ℕ) (pr : Reader) → pr.run_in_cur ≡ false → Owns b pr (use_up pr)
unfolding use_up cur_done give_back forget_cur tally count held
use_up-Owns b pr e h = ((ground arith, ground arith), ground arith)

pub gather_live-Owns : (n b : ℕ) (pr : Reader) → Owns b pr (gather_live n pr)
unfolding gather_live tally count held
gather_live-Owns n b pr h = ((ground arith, ground arith), ground arith)

pub gather_run-Owns : (n b : ℕ) (pr : Reader) → pr.has_cur ≡ true → Owns b pr (gather_run n pr)
unfolding gather_run pin tally count held
gather_run-Owns n b pr e h = ((ground arith, ground arith), ground arith)

pub make_room-Owns : (n b : ℕ) (pr : Reader) → Owns b pr (make_room n pr).0
unfolding make_room compact tally count held
make_room-Owns n b pr h = ((ground arith, ground arith), ground arith)

pub skip-Owns : (n b : ℕ) (pr : Reader) → Owns b pr (skip n pr)
unfolding skip cur_done give_back forget_cur tally count held
skip-Owns n b pr h = ((ground arith, ground arith), ground arith)

pub examine-Owns : (n b : ℕ) (pr : Reader) → Owns b pr (examine n pr)
unfolding examine tally count held
examine-Owns n b pr h = ((ground arith, ground arith), ground arith)

pub freeze-Owns : (b : ℕ) (pr : Reader) → Owns b pr (freeze pr)
unfolding freeze pin tally count held
freeze-Owns b pr h = ((ground arith, ground arith), ground arith)

pub end_run-Owns : (b : ℕ) (pr : Reader) → Owns b pr (end_run pr)
unfolding end_run tally count held
end_run-Owns b pr h = ((ground arith, ground arith), ground arith)

pub unpin-Owns : (b : ℕ) (pr : Reader) → Owns b pr (unpin pr)
unfolding unpin give_back tally count held
unpin-Owns b pr h = ((ground arith, ground arith), ground arith)

pub move_down-Owns : (b : ℕ) (pr : Reader) → Owns b pr (move_down pr)
unfolding move_down give_back tally count held
move_down-Owns b pr h = ((ground arith, ground arith), ground arith)

pub keep_in_buf-Owns : (n b : ℕ) (pr : Reader) → Owns b pr (keep_in_buf n pr)
unfolding keep_in_buf tally count held
keep_in_buf-Owns n b pr h = ((ground arith, ground arith), ground arith)

pub keep_in_cur-Owns : (n b : ℕ) (pr : Reader) → pr.has_cur ≡ true → Owns b pr (keep_in_cur n pr)
unfolding keep_in_cur tally count held
keep_in_cur-Owns n b pr e h = ((ground arith, ground arith), ground arith)

pub gather-Owns : (b : ℕ) (pr : Reader) → pr.has_cur ≡ true → Owns b pr (gather pr).0
unfolding gather gather_live
gather-Owns b pr e =
    elim (Bool-cases (
      ltb pr.cap (
        pr.floor
        + (if pr.run_in_cur then pr.run_len else 0)
        + (if pr.has_cur then length pr.cur.bytes - pr.cur_pos else 0)))) [
          | inl over ↦ rw over (λ h. (h, refl))
          | inr fits ↦ rw fits (
              Owns-trans b pr (gather_run run_bytes pr)
                (use_up (gather_live live_bytes (gather_run run_bytes pr)))
                (gather_run-Owns run_bytes b pr e)
                (Owns-trans b (gather_run run_bytes pr)
                  (gather_live live_bytes (gather_run run_bytes pr))
                  (use_up (gather_live live_bytes (gather_run run_bytes pr)))
                  (gather_live-Owns live_bytes b (gather_run run_bytes pr))
                  (use_up-Owns b (gather_live live_bytes (gather_run run_bytes pr)) refl)))
        ]
  where
    run_bytes : ℕ
    run_bytes = if pr.run_in_cur then pr.run_len else 0

    live_bytes : ℕ
    live_bytes = if pr.has_cur then length pr.cur.bytes - pr.cur_pos else 0

pub consume-Owns : (n b : ℕ) (pr : Reader) → Owns b pr (consume n pr)
unfolding consume
consume-Owns n b pr =
    Owns-trans b pr (skip (at_most_live n pr) pr) (consume n pr)
      (skip-Owns (at_most_live n pr) b pr)
      (examine-Owns (pr.examined - at_most_live n pr) b (skip (at_most_live n pr) pr))

pub run_begin-Owns : (b : ℕ) (pr : Reader) → Owns b pr (run_begin pr)
unfolding run_begin
run_begin-Owns b pr = Owns-trans b pr (freeze pr) (run_begin pr) (freeze-Owns b pr) (
    Owns-trans b (freeze pr) (end_run (freeze pr)) (run_begin pr) (end_run-Owns b (freeze pr))
      (cur_done-Owns b (end_run (freeze pr))))

pub release-Owns : (b : ℕ) (pr : Reader) → Owns b pr (release pr)
unfolding release
release-Owns b pr = Owns-trans b pr (end_run pr) (release pr) (end_run-Owns b pr) (
    Owns-trans b (end_run pr) (move_down (end_run pr)) (release pr) (move_down-Owns b (end_run pr))
      (Owns-trans b (move_down (end_run pr)) (unpin (move_down (end_run pr))) (release pr)
        (unpin-Owns b (move_down (end_run pr))) (cur_done-Owns b (unpin (move_down (end_run pr))))))
