-- ===== src/Reader/Ends.antt =====
-- How `ioxd__pipereader_read` of lib/io/pipe.c ends: what the loop keeps of the reader while it waits, and
-- what the connection and the gathering buffer are where it answers.
use libioma.Base.{◌+◌, ◌≤◌, ◌<◌, true, false, Option, none, some, ◌≡◌, length}
use libioma.Reader.State.{Input, Reader, Answer, ok, at_end, failed, gone, full, Span, live_span}
use libioma.Reader.Fill.{Received, item, ended, to_come}
use libioma.Reader.Waiting.{stream}
use libioma.Reader.Room.{kept_len}

-- What the connection answers: an item, or that nothing is to come, with its error.
unfoldable pub Answers : Input → Input × Received → Type 0
Answers c (c', item it) = Unit
Answers c (c', ended err) = (length c'.rx + length c'.arriving ≡ 0) × (c'.err ≡ err)

-- What `more` gives: what waiting leaves as it was, the end with nothing to come, the connection's error
-- with nothing to come, or a run and bytes to come that no buffer of this size holds.
unfoldable pub Gives : Reader → Reader × Answer Unit → Type 0
Gives pr (q, ok _) =
    (q.examined ≡ pr.examined) × (q.eof ≡ false) × (q.cap ≡ pr.cap) × (kept_len q ≡ kept_len pr)
Gives pr (q, at_end) =
    (q.examined ≡ pr.examined) × (live_span q ≡ live_span pr) × (q.eof ≡ true) × (to_come q ≡ 0)
Gives pr (q, failed gone) = (to_come q ≡ 0) × (q.conn.err ≡ true)
Gives pr (q, failed full) = pr.cap < kept_len pr + length (stream pr)

-- What the loop of a read gives, on every way out of it; none were the fuel used up.
unfoldable pub ReadEnds : Reader → Option (Reader × Answer Span) → Type 0
ReadEnds pr none = ⊥
ReadEnds pr (some (q, ok s)) =
    (s ≡ live_span q)
    × (q.examined ≡ pr.examined)
    × (pr.examined < s.len)
    × (q.eof ≡ true → to_come q ≡ 0)
ReadEnds pr (some (q, at_end)) =
    (to_come q ≡ 0) × (q.examined ≡ pr.examined) × ((live_span q).len ≤ pr.examined)
ReadEnds pr (some (q, failed gone)) = (to_come q ≡ 0) × (q.conn.err ≡ true)
ReadEnds pr (some (q, failed full)) = pr.cap < kept_len pr + length (stream pr)
