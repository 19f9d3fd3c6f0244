-- ===== src/Reader/Owned.antt =====
-- Each buffer that the kernel lends the reader of lib/io/pipe.c goes back to it.
use libioma.Base.{
  ℕ, zero, suc, ◌+◌, Bool, true, false, not, Option, none, some, List, [], ◌∷◌, ◌≡◌, refl, arith,
  Bytes, length, ltb, ◌==◌, if◌then◌else◌,
}
use libioma.Reader.State.{
  Input, Reader, Answer, ok, at_end, failed, Error, init, live_span, give_back,
}
use libioma.Reader.Fill.{gather, append, make_room, more, read_loop, read, to_come}
use libioma.Reader.Consume.{examine, drop_live, keep, run_begin, release, close}
use libioma.Reader.Copy.{copy_loop, copy, avail_loop, avail, to_buf, append_data, inject}
use libioma.Reader.Tally.{
  count, ids_count, held, tally, IsOwned, Owns, Owns-trans, make_room-Owns, examine-Owns,
  gather-Owns, consume-Owns, run_begin-Owns, release-Owns,
}
use libioma.Reader.Kept.{keep-Owns}
use libioma.Reader.Taken.{more-Owns}
use libioma.Reader.Answered.{HasAnswer, read-HasAnswer, avail-HasAnswer, copy-HasAnswer}

close-Owns : (b : ℕ) (pr : Reader) → IsOwned pr → tally b (close pr) ≡ tally b pr
unfolding close give_back tally held count
close-Owns b pr h = ground arith

close-held : (b : ℕ) (pr : Reader) → held b (close pr) ≡ 0
unfolding close held
close-held b pr = refl

to_buf-Owns : (b : ℕ) (pr : Reader) → Owns b pr (to_buf pr).0
unfolding to_buf tally held
to_buf-Owns b pr h = go pr.live_in_buf pr.has_cur (λ e. e)
  where
    P : Reader × Bool → Type 0
    P r = IsOwned r.0 × (tally b r.0 ≡ tally b pr)

    go :
        (l c : Bool)
        → (c ≡ true → pr.has_cur ≡ true)
        → P (
            if l
            then (pr, true)
            else if c
            then gather pr
            else (record pr { buf_pos = pr.floor; buf_end = pr.floor; live_in_buf = true }, true))
    go true c f = (h, refl)
    go false true f = gather-Owns b pr (f refl) h
    go false false f = (h, refl)

append-Owns : (data_ : Bytes) (b : ℕ) (pr : Reader) → Owns b pr (append data_ pr)
unfolding append tally held
append-Owns data_ b pr h = (h, refl)

append_data-Owns : (data_ : Bytes) (b : ℕ) (r : Reader × Bool) → Owns b r.0 (append_data data_ r).0
unfolding append_data
append_data-Owns data_ b (pr, false) h = (h, refl)
append_data-Owns data_ b (pr, true) h =
    go (make_room (length data_) pr) (make_room-Owns (length data_) b pr)
  where
    P : Reader × Bool → Type 0
    P r = IsOwned r.0 × (tally b r.0 ≡ tally b pr)

    go :
        (r : Reader × Bool)
        → Owns b pr r.0
        → P (if r.1 then (append data_ r.0, true) else (r.0, false))
    go (pr', true) own = Owns-trans b pr pr' (append data_ pr') own (append-Owns data_ b pr') h
    go (pr', false) own = own h

inject-Owns : (data_ : Bytes) (b : ℕ) (pr : Reader) → Owns b pr (inject data_ pr).0
unfolding inject
inject-Owns data_ b pr = go pr.error
  where
    P : Reader × Bool → Type 0
    P r = Owns b pr r.0

    go :
        (e : Option Error)
        → P (elim e [ some _ ↦ (pr, false) | none ↦ append_data data_ (to_buf pr) ])
    go (some e) = λ h. (h, refl)
    go none =
        Owns-trans b pr (to_buf pr).0 (append_data data_ (to_buf pr)).0 (to_buf-Owns b pr)
          (append_data-Owns data_ b (to_buf pr))

-- A loop's result, also where the fuel is used up.
OwnsSome : {A : Type 0} → ℕ → Reader → Option (Reader × A) → Type 0
OwnsSome b pr none = Unit
OwnsSome b pr (some r) = Owns b pr r.0

same-Owns : {A : Type 0} (b : ℕ) (pr : Reader) (x : A) → OwnsSome b pr (some (pr, x))
unfolding OwnsSome
same-Owns b pr x h = (h, refl)

OwnsSome-trans :
    {A : Type 0} (b : ℕ) (pr pr' : Reader) (o : Option (Reader × A))
    → Owns b pr pr'
    → OwnsSome b pr' o
    → OwnsSome b pr o
unfolding OwnsSome
OwnsSome-trans b pr pr' none f g = tt
OwnsSome-trans b pr pr' (some r) f g = Owns-trans b pr pr' r.0 f g

-- A loop that stops with the result of `more` or goes on.
again-Owns :
    {A : Type 0} (b : ℕ) (pr : Reader) (o : Option (Reader × Answer A))
    → OwnsSome b (more pr).0 o
    → OwnsSome b pr (elim (more pr).1 [
      | ok _ ↦ o
      | at_end ↦ some ((more pr).0, at_end)
      | failed e ↦ some ((more pr).0, failed e)
    ])
unfolding OwnsSome
again-Owns {A = A} b pr o h = go (more pr).1
  where
    go :
        (a : Answer Unit)
        → OwnsSome b pr (elim a [
          | ok _ ↦ o
          | at_end ↦ some ((more pr).0, at_end)
          | failed e ↦ some ((more pr).0, failed e)
        ])
    go (ok _) = OwnsSome-trans b pr (more pr).0 o (more-Owns b pr) h
    go at_end = more-Owns b pr
    go (failed e) = more-Owns b pr

test-Owns :
    {A : Type 0} (b : ℕ) (pr : Reader) (c : Bool) (x y : Option (Reader × A))
    → OwnsSome b pr x
    → OwnsSome b pr y
    → OwnsSome b pr (if c then x else y)
test-Owns b pr true x y f g = f
test-Owns b pr false x y f g = g

read_loop-Owns : (fuel b : ℕ) (pr : Reader) → OwnsSome b pr (read_loop fuel pr)
unfolding read_loop OwnsSome
read_loop-Owns zero b pr = tt
read_loop-Owns (suc fuel) b pr =
    test-Owns b pr (ltb pr.examined (live_span pr).len) _ _ (λ h. (h, refl))
      (again-Owns b pr (read_loop fuel (more pr).0) (read_loop-Owns fuel b (more pr).0))

avail_loop-Owns : (fuel b : ℕ) (pr : Reader) → OwnsSome b pr (avail_loop fuel pr)
unfolding avail_loop OwnsSome
avail_loop-Owns zero b pr = tt
avail_loop-Owns (suc fuel) b pr =
    test-Owns b pr (ltb pr.examined (live_span pr).len) _ _ (λ h. (h, refl))
      (test-Owns b pr (length pr.conn.rx == 0) _ _ (λ h. (h, refl))
        (again-Owns b pr (avail_loop fuel (more pr).0) (avail_loop-Owns fuel b (more pr).0)))

copy_loop-Owns : (fuel n b : ℕ) (pr : Reader) → OwnsSome b pr (copy_loop fuel n pr)
unfolding copy_loop OwnsSome
copy_loop-Owns zero n b pr = tt
copy_loop-Owns (suc fuel) n b pr =
    test-Owns b pr (not ((live_span pr).len == 0)) _ _
      (consume-Owns (if ltb (live_span pr).len n then (live_span pr).len else n) b pr)
      (again-Owns b pr (copy_loop fuel n (more pr).0) (copy_loop-Owns fuel n b (more pr).0))

-- A call that fails at once after an error, and else is a loop.
sticky-Owns :
    {A : Type 0} (b : ℕ) (pr : Reader) (o : Option (Reader × Answer A))
    → OwnsSome b pr o
    → OwnsSome b pr (elim pr.error [ some e ↦ some (pr, failed e) | none ↦ o ])
sticky-Owns {A = A} b pr o f = go pr.error
  where
    go :
        (error : Option Error)
        → OwnsSome b pr (elim error [ some e ↦ some (pr, failed e) | none ↦ o ])
    go none = f
    go (some e) = same-Owns b pr (failed e)

-- A call on a reader.
pub data Call : Type 0 where
  reading : Call
  availing : Call
  examining : ℕ → Call
  dropping : ℕ → Call
  keeping : ℕ → Call
  beginning : Call
  releasing : Call
  copying : ℕ → Call
  injecting : Bytes → Call

-- The reader of a call that has its answer.
unfoldable pub settle : {A : Type 0} (o : Option (Reader × A)) → HasAnswer o → Reader
unfolding HasAnswer
settle none h = absurd h
settle (some r) h = r.0

unfoldable pub call : Call → Reader → Reader
unfolding settle read avail examine drop_live keep run_begin release copy inject
call reading pr = settle (read pr) (read-HasAnswer pr)
call availing pr = settle (avail pr) (avail-HasAnswer pr)
call (examining n) pr = examine n pr
call (dropping n) pr = drop_live n pr
call (keeping n) pr = (keep n pr).0
call beginning pr = run_begin pr
call releasing pr = release pr
call (copying n) pr = settle (copy n pr) (copy-HasAnswer n pr)
call (injecting data_) pr = (inject data_ pr).0

unfoldable pub calls : List Call → Reader → Reader
unfolding call
calls [] pr = pr
calls (c ∷ cs) pr = calls cs (call c pr)

settle-Owns :
    {A : Type 0} (b : ℕ) (pr : Reader) (o : Option (Reader × A)) (h : HasAnswer o)
    → OwnsSome b pr o
    → Owns b pr (settle o h)
unfolding settle OwnsSome HasAnswer
settle-Owns b pr none h f = absurd h
settle-Owns b pr (some r) h f = f

call-Owns : (b : ℕ) (c : Call) (pr : Reader) → Owns b pr (call c pr)
unfolding call read avail copy drop_live
call-Owns b reading pr =
    settle-Owns b pr (read pr) (read-HasAnswer pr)
      (sticky-Owns b pr (read_loop (suc (to_come pr)) pr) (read_loop-Owns (suc (to_come pr)) b pr))
call-Owns b availing pr =
    settle-Owns b pr (avail pr) (avail-HasAnswer pr) (
      sticky-Owns b pr (avail_loop (suc (to_come pr)) pr) (avail_loop-Owns (suc (to_come pr)) b pr))
call-Owns b (examining n) pr = examine-Owns n b pr
call-Owns b (dropping n) pr = consume-Owns n b pr
call-Owns b (keeping n) pr = keep-Owns n b pr
call-Owns b beginning pr = run_begin-Owns b pr
call-Owns b releasing pr = release-Owns b pr
call-Owns b (copying n) pr = settle-Owns b pr (copy n pr) (copy-HasAnswer n pr) (
    sticky-Owns b pr (copy_loop (suc (to_come pr)) n pr) (copy_loop-Owns (suc (to_come pr)) n b pr))
call-Owns b (injecting data_) pr = inject-Owns data_ b pr

calls-Owns : (b : ℕ) (cs : List Call) (pr : Reader) → Owns b pr (calls cs pr)
unfolding calls
calls-Owns b [] pr h = (h, refl)
calls-Owns b (c ∷ cs) pr h =
    Owns-trans b pr (call c pr) (calls cs (call c pr)) (call-Owns b c pr)
      (calls-Owns b cs (call c pr)) h

-- Whatever calls are made on a reader, once it is closed each buffer of the connection's input has been
-- given back exactly as often as it was taken from there: what was given back and what is still to come
-- are together what was to come at first, and nothing is held.
pub close-returned :
    (b : ℕ) (cs : List Call) (conn' : Input) (memory : Bytes) (n : ℕ)
    → let closed : Reader = close (calls cs (init conn' memory n)) in
      (count b closed.returned + (ids_count b closed.conn.rx + ids_count b closed.conn.arriving)
        ≡ ids_count b conn'.rx + ids_count b conn'.arriving)
      × (held b closed ≡ 0)
unfolding tally init held count
close-returned b cs conn' memory n =
    let owned =
      calls-Owns b cs (init conn' memory n) ((λ e. absurd (cc e)), (λ e. absurd (cc e))) in
    (
      omega (
        arith,
        close-Owns b (calls cs (init conn' memory n)) owned.0,
        owned.1,
        close-held b (calls cs (init conn' memory n)),
      ),
      close-held b (calls cs (init conn' memory n)),
    )
