-- ===== src/Reader/Tests.antt =====
-- Runs of the reader of lib/io/pipe.c: two items arrive, and what is kept of the first is joined to the
-- second in the gathering buffer.
use libioma.Base.{ℕ, ◌+◌, false, none, some, Option, List, [], ◌∷◌, ◌++◌, ◌≡◌, refl, arith, Bytes}
use libioma.Reader.State.{Input, Reader, Answer, Span, init, contents, live_span}
use libioma.Reader.Fill.{read}
use libioma.Reader.Consume.{keep, close}
use libioma.Reader.Tally.{count, ids_count, held}
use libioma.Reader.Owned.{
  Call, reading, examining, dropping, keeping, beginning, releasing, copying, calls, close-returned,
}
use libioma.Reader.Live.{IsValid}
use libioma.Reader.Waiting.{stream}
use libioma.Reader.Keeps.{KeepsSome, keep-KeepsSome}
use libioma.Reader.Steps.{consumed_by, Quiet}
use libioma.Reader.Stream.{calls-stream}

abbrev two_items : Input
two_items = record {
  rx = record { bytes = 1 ∷ 2 ∷ 3 ∷ []; buf_id = 7 } ∷ [];
  arriving = record { bytes = 4 ∷ 5 ∷ []; buf_id = 9 } ∷ [];
  err = false;
}

abbrev eight : Bytes
eight = 0 ∷ 0 ∷ 0 ∷ 0 ∷ 0 ∷ 0 ∷ 0 ∷ 0 ∷ []

abbrev fresh : Reader
fresh = init two_items eight 8

abbrev some_calls : List Call
some_calls =
    reading
    ∷ keeping 2
    ∷ examining 1
    ∷ reading
    ∷ keeping 2
    ∷ beginning
    ∷ dropping 1
    ∷ releasing
    ∷ copying 4
    ∷ []

all_consumed : consumed_by some_calls fresh ≡ 1 ∷ 2 ∷ 3 ∷ 4 ∷ 5 ∷ []
unfolding consumed_by init
all_consumed = refl

run_joined :
    (calls (reading ∷ keeping 2 ∷ examining 1 ∷ reading ∷ keeping 2 ∷ []) fresh).run_len ≡ 4
unfolding calls init
run_joined = refl

both_returned : (close (calls some_calls fresh)).returned ≡ 7 ∷ 9 ∷ []
unfolding calls init close
both_returned = refl

fresh-IsValid : IsValid fresh
unfolding init
fresh-IsValid =
    (refl, omega arith, (λ e. absurd (cc e)), (λ e. absurd (cc e)), (λ e. absurd (cc e)))

fresh-error : fresh.error ≡ none
unfolding init
fresh-error = refl

some_calls-Quiet : Quiet some_calls fresh
unfolding Quiet init
some_calls-Quiet = (
  tt,
  refl,
  (
    tt,
    refl,
    (tt, refl, (tt, refl, (tt, refl, (tt, refl, (tt, refl, (tt, refl, (tt, refl, tt))))))),
  ),
)

close-returned_example :
    (count 7 (close (calls some_calls fresh)).returned
        + (ids_count 7 (close (calls some_calls fresh)).conn.rx
            + ids_count 7 (close (calls some_calls fresh)).conn.arriving)
      ≡ ids_count 7 two_items.rx + ids_count 7 two_items.arriving)
    × (held 7 (close (calls some_calls fresh)) ≡ 0)
close-returned_example = close-returned 7 some_calls two_items eight 8

calls-stream_example :
    IsValid (calls some_calls fresh)
    × (consumed_by some_calls fresh ++ stream (calls some_calls fresh) ≡ stream fresh)
calls-stream_example = calls-stream some_calls fresh fresh-error fresh-IsValid some_calls-Quiet

-- All of the first item has been examined, so that the read waits for the second.
abbrev examined_all : Reader
examined_all = calls (reading ∷ examining 3 ∷ []) fresh

-- What that read leaves: the second item behind the first in the gathering buffer.
abbrev seen : Option (Reader × Answer Span) → Bytes × List ℕ
seen none = ([], [])
seen (some (q, a)) = (contents q (live_span q), q.returned)

read_waits : seen (read examined_all) ≡ (1 ∷ 2 ∷ 3 ∷ 4 ∷ 5 ∷ [], 9 ∷ 7 ∷ [])
unfolding read calls init contents live_span
read_waits = refl

-- The first item has been read, and two of its bytes are kept.
abbrev after_read : Reader
after_read = calls (reading ∷ []) fresh

after_read-IsValid : IsValid after_read
unfolding calls init
after_read-IsValid =
    (refl, omega arith, (λ e. absurd (cc e)), (λ e. omega arith), (λ e. absurd (cc e)))

keep-KeepsSome_example : KeepsSome 2 after_read (keep 2 after_read)
keep-KeepsSome_example = keep-KeepsSome 2 after_read after_read-IsValid
