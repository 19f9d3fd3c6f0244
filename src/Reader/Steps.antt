-- ===== src/Reader/Steps.antt =====
-- What consuming, copying out and keeping leave of the stream (lib/io/pipe.c).
use libioma.Base.{
  ℕ, zero, suc, ◌+◌, ◌<◌, Bool, true, false, not, ◌&&◌, ◌||◌, Option, none, some, List, [], ◌∷◌,
  ◌++◌, ◌≡◌, refl, sym, ap, ◌∙◌, arith, Bytes, take, drop, ltb, ◌==◌, if◌then◌else◌, append_assoc,
  take-append-drop,
}
use libioma.Reader.State.{
  Reader, in_buf, in_cur, Answer, ok, at_end, failed, full, Span, contents, live_span, give_back,
  forget_cur, cur_done,
}
use libioma.Reader.Consume.{
  skip, at_most_live, consume, examine, keep_in_buf, keep_in_cur, keep_out, add_run, kept, keep,
}
use libioma.Reader.Fill.{more, to_come}
use libioma.Reader.Copy.{copy_loop, copy}
use libioma.Reader.Live.{IsValid, live}
use libioma.Reader.Consumed.{consume-Lives}
use libioma.Reader.Keeping.{at_most_live-all}
use libioma.Reader.Keeps.{KeepsSome, keep-KeepsSome}
use libioma.Reader.Answered.{HasAnswer}
use libioma.Reader.Owned.{Call, dropping, keeping, copying, injecting, call, settle}
use libioma.Reader.Waiting.{coming, stream, LoopGives, again-LoopGives, test-LoopGives}

pub consume-conn : (n : ℕ) (pr : Reader) → (consume n pr).conn ≡ pr.conn
unfolding consume skip examine cur_done forget_cur give_back
consume-conn n pr = ground arith

-- Consuming `n` live bytes takes them off the stream.
pub consume-stream :
    (n : ℕ) (pr : Reader)
    → IsValid pr
    → take (at_most_live n pr) (live pr) ++ stream (consume n pr) ≡ stream pr
unfolding stream
consume-stream n pr v =
    rw ((consume-Lives n pr v).1, consume-conn n pr)
      (sym (
          append_assoc (take (at_most_live n pr) (live pr)) (drop (at_most_live n pr) (live pr))
            (coming pr.conn))
        ∙ ap (λ x. x ++ coming pr.conn) (take-append-drop (at_most_live n pr) (live pr)))

pub copy_loop-LoopGives :
    (fuel n : ℕ) (pr : Reader)
    → IsValid pr
    → to_come pr < fuel
    → LoopGives (λ b. b) pr (copy_loop fuel n pr)
unfolding copy_loop LoopGives live
copy_loop-LoopGives zero n pr v h = absurd (omega arith)
copy_loop-LoopGives (suc fuel) n pr v h =
    test-LoopGives (λ b. b) pr (not ((live_span pr).len == 0)) _ _
      (
        (consume-Lives k pr v).0,
        ap (λ i. take i (live pr) ++ stream (consume k pr))
              (sym (at_most_live-all k pr (ground arith)))
            ∙ consume-stream k pr v,
      )
      (again-LoopGives (λ b. b) pr (copy_loop fuel n (more pr).0) v
        λ v' m. copy_loop-LoopGives fuel n (more pr).0 v' (omega (arith, m, h)))
  where
    k : ℕ
    k = if ltb (live_span pr).len n then (live_span pr).len else n

-- The bytes that a call consumes: dropped, kept where its pointer says, or copied out.
unfoldable pub copied : Option (Reader × Answer Bytes) → Bytes
copied none = []
copied (some (q, ok b)) = b
copied (some (q, at_end)) = []
copied (some (q, failed e)) = []

unfoldable pub kept_at : Reader × Option Span → Bytes
unfolding contents
kept_at (q, none) = []
kept_at (q, some s) = contents q s

unfoldable pub consumed : Call → Reader → Bytes
unfolding live copied kept_at keep copy
consumed (dropping n) pr = take n (live pr)
consumed (keeping n) pr = kept_at (keep n pr)
consumed (copying n) pr = copied (copy n pr)
consumed _ pr = []

-- The bytes that a run of calls consumes.
unfoldable pub consumed_by : List Call → Reader → Bytes
unfolding consumed call
consumed_by [] pr = []
consumed_by (c ∷ cs) pr = consumed c pr ++ consumed_by cs (call c pr)

-- A run that injects nothing and meets no error.
abbrev pub Plain : Call → Type 0
Plain (injecting data_) = ⊥
Plain _ = Unit

unfoldable pub Quiet : List Call → Reader → Type 0
unfolding call
Quiet [] pr = Unit
Quiet (c ∷ cs) pr = Plain c × ((call c pr).error ≡ none) × Quiet cs (call c pr)

-- What a call leaves.
abbrev pub Streams : Bytes → Reader → Reader → Type 0
Streams bytes pr q = q.error ≡ none → IsValid q × (bytes ++ stream q ≡ stream pr)

pub settle-Streams :
    {A : Type 0} (out : A → Bytes) (bytes : Option (Reader × Answer A) → Bytes) (pr : Reader)
    (o : Option (Reader × Answer A)) (h : HasAnswer o)
    → ((q : Reader) (x : A) → bytes (some (q, ok x)) ≡ out x)
    → ((q : Reader) → bytes (some (q, at_end)) ≡ [])
    → LoopGives out pr o
    → Streams (bytes o) pr (settle o h)
unfolding settle LoopGives HasAnswer
settle-Streams out bytes pr none h f g l e = absurd l
settle-Streams out bytes pr (some (q, ok x)) h f g (v, l) e = (v, rw (f q x) l)
settle-Streams out bytes pr (some (q, at_end)) h f g (v, l) e = (v, rw (g q) l)
settle-Streams out bytes pr (some (q, failed x)) h f g (v, l) e = absurd (cc (e, l))

pub keep_in_buf-conn : (n : ℕ) (pr : Reader) → (add_run n (keep_in_buf n pr)).conn ≡ pr.conn
unfolding add_run keep_in_buf
keep_in_buf-conn n pr = ground arith

pub keep_in_cur-conn : (n : ℕ) (pr : Reader) → (add_run n (keep_in_cur n pr)).conn ≡ pr.conn
unfolding add_run keep_in_cur
keep_in_cur-conn n pr = ground arith

pub keep_out-conn : (n : ℕ) (pr : Reader) → (add_run n (keep_out n pr)).conn ≡ pr.conn
unfolding add_run keep_out
keep_out-conn n pr = refl

pub keep-conn : (n : ℕ) (pr : Reader) → (keep n pr).0.conn ≡ pr.conn
unfolding keep kept
keep-conn n pr =
    go (ltb (live_span pr).len n) (n == 0) pr.live_in_buf
      (pr.has_cur && (pr.run_len == 0 || pr.run_in_cur)) pr.has_cur (ltb pr.cap (pr.floor + n))
  where
    P : Reader × Option Span → Type 0
    P r = r.0.conn ≡ pr.conn

    go :
        (short none_asked in_b in_c held_ no_room : Bool)
        → P (
            if short
            then (pr, none)
            else if none_asked
            then (pr, some (record (live_span pr) { len = 0 }))
            else if in_b
            then kept n in_buf (if pr.run_len == 0 then pr.buf_pos else pr.floor) (keep_in_buf n pr)
            else if in_c
            then kept n in_cur
                (if pr.run_len == 0 then pr.cur_pos else pr.run_start + pr.run_len)
                (keep_in_cur n pr)
            else if held_
            then (if no_room
                then (record pr { error = some full }, none)
                else kept n in_buf pr.floor (keep_out n pr))
            else (pr, none))
    go true na ib ic hc nr = refl
    go false true ib ic hc nr = refl
    go false false true ic hc nr =
        consume-conn n (add_run n (keep_in_buf n pr)) ∙ keep_in_buf-conn n pr
    go false false false true hc nr =
        consume-conn n (add_run n (keep_in_cur n pr)) ∙ keep_in_cur-conn n pr
    go false false false false true true = refl
    go false false false false true false =
        consume-conn n (add_run n (keep_out n pr)) ∙ keep_out-conn n pr
    go false false false false false nr = refl

-- Steps that leave the live bytes and the connection leave the stream.
pub stream-ext : (pr q : Reader) → live q ≡ live pr → q.conn ≡ pr.conn → stream q ≡ stream pr
unfolding stream
stream-ext pr q e f = rw (e, f) refl

pub parts-stream :
    (n : ℕ) (pr q : Reader) (s : Span)
    → live q ≡ drop n (live pr)
    → contents q s ≡ take n (live pr)
    → q.conn ≡ pr.conn
    → contents q s ++ stream q ≡ stream pr
unfolding stream
parts-stream n pr q s l k f =
    ap (λ x. x ++ (live q ++ coming q.conn)) k
    ∙ (ap (λ x. take n (live pr) ++ (x ++ coming q.conn)) l
        ∙ (ap (λ c. take n (live pr) ++ (drop n (live pr) ++ coming c)) f
            ∙ (sym (append_assoc (take n (live pr)) (drop n (live pr)) (coming pr.conn))
                ∙ ap (λ x. x ++ coming pr.conn) (take-append-drop n (live pr)))))

pub keep-Streams :
    (n : ℕ) (pr : Reader) → IsValid pr → Streams (kept_at (keep n pr)) pr (keep n pr).0
unfolding kept_at
keep-Streams n pr v e = go (keep n pr) (keep-KeepsSome n pr v) (keep-conn n pr)
  where
    go :
        (r : Reader × Option Span)
        → KeepsSome n pr r
        → r.0.conn ≡ pr.conn
        → IsValid r.0 × (kept_at r ++ stream r.0 ≡ stream pr)
    go (q, none) (v', l) f = (v', stream-ext pr q l f)
    go (q, some s) (v', l, k, h) f = (v', parts-stream n pr q s l k f)
