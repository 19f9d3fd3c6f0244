-- ===== src/Reader/Stream.antt =====
-- The bytes that the reader of lib/io/pipe.c hands out are those of the connection, in order.
use libioma.Base.{
  ℕ, suc, ◌<◌, Bool, true, false, Option, none, some, List, [], ◌∷◌, ◌++◌, ◌≡◌, refl, sym, ap, ◌∙◌,
  arith, Bytes, take, ltb, if◌then◌else◌, take_all, append_assoc,
}
use libioma.Reader.State.{Reader, Answer, failed, Error, live_span, give_back, forget_cur, cur_done}
use libioma.Reader.Consume.{
  at_most_live, freeze, end_run, consume, examine, drop_live, run_begin, move_down, unpin, release,
}
use libioma.Reader.Fill.{pin, read_loop, read, to_come}
use libioma.Reader.Copy.{copy_loop, copy, avail_loop, avail}
use libioma.Reader.Live.{IsValid, live, length-live}
use libioma.Reader.Consumed.{consume-Lives, run_begin-Lives, release-Lives, examine-Lives}
use libioma.Reader.Owned.{
  Call, reading, availing, examining, dropping, keeping, beginning, releasing, copying, injecting,
  call, calls,
}
use libioma.Reader.Waiting.{stream, LoopGives, no_bytes, read_loop-LoopGives, avail_loop-LoopGives}
use libioma.Reader.Steps.{
  consume-stream, copy_loop-LoopGives, copied, consumed, consumed_by, Plain, Quiet, Streams,
  settle-Streams, stream-ext, keep-Streams,
}
use libioma.Reader.Answered.{read-HasAnswer, avail-HasAnswer, copy-HasAnswer}

-- No more is taken than there is.
take-at_most_live :
    (n : ℕ) (pr : Reader) → IsValid pr → take n (live pr) ≡ take (at_most_live n pr) (live pr)
unfolding at_most_live
take-at_most_live n pr v = go (ltb (live_span pr).len n) (λ e. ground arith)
  where
    go :
        (c : Bool)
        → (c ≡ true → (live_span pr).len < n)
        → take n (live pr) ≡ take (if c then (live_span pr).len else n) (live pr)
    go false h = refl
    go true h =
        take_all n (live pr) (omega (arith, length-live pr v, h refl))
        ∙ sym (take_all (live_span pr).len (live pr) (omega (arith, length-live pr v)))

cur_done-conn : (pr : Reader) → (cur_done pr).conn ≡ pr.conn
unfolding cur_done forget_cur give_back
cur_done-conn pr = ground arith

freeze-conn : (pr : Reader) → (freeze pr).conn ≡ pr.conn
unfolding freeze pin
freeze-conn pr = ground arith

unpin-conn : (pr : Reader) → (unpin pr).conn ≡ pr.conn
unfolding unpin give_back
unpin-conn pr = ground arith

move_down-conn : (pr : Reader) → (move_down (end_run pr)).conn ≡ pr.conn
unfolding move_down end_run
move_down-conn pr = ground arith

end_run-conn : (pr : Reader) → (end_run pr).conn ≡ pr.conn
unfolding end_run
end_run-conn pr = refl

examine-conn : (n : ℕ) (pr : Reader) → (examine n pr).conn ≡ pr.conn
unfolding examine
examine-conn n pr = refl

run_begin-conn : (pr : Reader) → (run_begin pr).conn ≡ pr.conn
unfolding run_begin
run_begin-conn pr =
    cur_done-conn (end_run (freeze pr)) ∙ (end_run-conn (freeze pr) ∙ freeze-conn pr)

release-conn : (pr : Reader) → (release pr).conn ≡ pr.conn
unfolding release
release-conn pr =
    cur_done-conn (unpin (move_down (end_run pr)))
    ∙ (unpin-conn (move_down (end_run pr)) ∙ move_down-conn pr)

-- Without an error a call is its loop.
unfailed-LoopGives :
    {A : Type 0} (out : A → Bytes) (pr : Reader) (o : Option (Reader × Answer A))
    → pr.error ≡ none
    → LoopGives out pr o
    → LoopGives out pr (elim pr.error [ some e ↦ some (pr, failed e) | none ↦ o ])
unfailed-LoopGives {A = A} out pr o e l = go pr.error e
  where
    go :
        (error : Option Error)
        → error ≡ none
        → LoopGives out pr (elim error [ some e ↦ some (pr, failed e) | none ↦ o ])
    go none e = l
    go (some x) e = absurd (cc e)

pub read-LoopGives : (pr : Reader) → pr.error ≡ none → IsValid pr → LoopGives no_bytes pr (read pr)
unfolding read
read-LoopGives pr e v =
    unfailed-LoopGives no_bytes pr (read_loop (suc (to_come pr)) pr) e
      (read_loop-LoopGives (suc (to_come pr)) pr v (omega arith))

avail-LoopGives : (pr : Reader) → pr.error ≡ none → IsValid pr → LoopGives no_bytes pr (avail pr)
unfolding avail
avail-LoopGives pr e v =
    unfailed-LoopGives no_bytes pr (avail_loop (suc (to_come pr)) pr) e
      (avail_loop-LoopGives (suc (to_come pr)) pr v (omega arith))

copy-LoopGives :
    (n : ℕ) (pr : Reader) → pr.error ≡ none → IsValid pr → LoopGives (λ b. b) pr (copy n pr)
unfolding copy
copy-LoopGives n pr e v =
    unfailed-LoopGives (λ b. b) pr (copy_loop (suc (to_come pr)) n pr) e
      (copy_loop-LoopGives (suc (to_come pr)) n pr v (omega arith))

call-Streams :
    (c : Call) (pr : Reader)
    → pr.error ≡ none
    → IsValid pr
    → Plain c
    → Streams (consumed c pr) pr (call c pr)
unfolding call consumed drop_live copied no_bytes
call-Streams reading pr n v p e =
    settle-Streams no_bytes (λ o. []) pr (read pr) (read-HasAnswer pr) (λ q x. refl) (λ q. refl)
      (read-LoopGives pr n v) e
call-Streams availing pr n v p e =
    settle-Streams no_bytes (λ o. []) pr (avail pr) (avail-HasAnswer pr) (λ q x. refl) (λ q. refl)
      (avail-LoopGives pr n v) e
call-Streams (examining k) pr n v p e = (
  (examine-Lives k pr v).0,
  stream-ext pr (examine k pr) (examine-Lives k pr v).1 (examine-conn k pr),
)
call-Streams (dropping k) pr n v p e = (
  (consume-Lives k pr v).0,
  ap (λ b. b ++ stream (consume k pr)) (take-at_most_live k pr v) ∙ consume-stream k pr v,
)
call-Streams (keeping k) pr n v p e = keep-Streams k pr v e
call-Streams beginning pr n v p e = (
  (run_begin-Lives pr v).0,
  stream-ext pr (run_begin pr) (run_begin-Lives pr v).1 (run_begin-conn pr),
)
call-Streams releasing pr n v p e =
    ((release-Lives pr v).0, stream-ext pr (release pr) (release-Lives pr v).1 (release-conn pr))
call-Streams (copying k) pr n v p e =
    settle-Streams (λ b. b) copied pr (copy k pr) (copy-HasAnswer k pr) (λ q x. refl) (λ q. refl)
      (copy-LoopGives k pr n v) e
call-Streams (injecting data_) pr n v p e = absurd p

-- Calls that meet no error, and inject nothing, consume the connection's bytes in order: what they drop,
-- keep and copy out, joined, and the bytes still to consume are the bytes there were to consume, and
-- the spans stay within the memory they point into.
pub calls-stream :
    (cs : List Call) (pr : Reader)
    → pr.error ≡ none
    → IsValid pr
    → Quiet cs pr
    → IsValid (calls cs pr) × (consumed_by cs pr ++ stream (calls cs pr) ≡ stream pr)
unfolding calls consumed_by Quiet
calls-stream [] pr n v h = (v, refl)
calls-stream (c ∷ cs) pr n v (p, e, h) =
    let step = call-Streams c pr n v p e in
    let rest = calls-stream cs (call c pr) e step.0 h in
    (
      rest.0,
      append_assoc (consumed c pr) (consumed_by cs (call c pr)) (stream (calls cs (call c pr)))
          ∙ (ap (λ x. consumed c pr ++ x) rest.1 ∙ step.1),
    )
