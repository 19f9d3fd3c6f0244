-- ===== src/Pipe/Stream.antt =====
-- What the pipe writer promises: bytes reach the connection in the order of the calls, and no call
-- steps out of the slab.
use libioma.Base.{
  ◌+◌, ◌-◌, ◌≤◌, Bool, true, false, not, ◌&&◌, ◌||◌, [], ◌∷◌, ◌++◌, ◌≡◌, refl, sym, ap, ◌∙◌, arith,
  Bytes, length, take, drop, take-drop-blit, append-nil, append_assoc, ltb, ◌==◌, ==_iff,
  if◌then◌else◌,
}
use libioma.Pipe.{
  Conn, ConnLaws, Writer, reset, pending, after_send, flush_with, flush, reserve, through, copy_in,
  write,
}

-- The spans lie within their parts of the slab.
abbrev pub Fits : {C : Type 0} → Writer C → Type 0
Fits pw =
    (pw.head ≤ pw.lead)
    × (pw.len ≤ pw.cap)
    × (pw.tail ≤ pw.slack)
    × (length pw.buf ≡ pw.lead + pw.cap + pw.slack)

pending-none : {C : Type 0} (pw : Writer C) → pw.head + pw.len + pw.tail ≡ 0 → pending pw ≡ []
unfolding pending
pending-none pw e = ap (λ n. take n (drop (pw.lead - pw.head) pw.buf)) e

nil_of_length : (b : Bytes) → length b ≡ 0 → b ≡ []
nil_of_length [] e = refl
nil_of_length (x ∷ b) e = absurd (omega arith)

module _ {C : Type 0} {k : Conn C} (laws : ConnLaws k) where
  open laws use {sent, sent-send, sent-sendv}

  -- What a send of these bytes leaves, when it is answered true.
  abbrev Sent : Writer C → Bytes → Writer C × Bool → Type 0
  Sent pw b (pw', done) = done ≡ true → (sent pw'.conn ≡ sent pw.conn ++ b) × (pending pw' ≡ [])

  after_send-Sent :
      (pw : Writer C) (b : Bytes) (r : C × Bool)
      → (r.1 ≡ true → sent r.0 ≡ sent pw.conn ++ b)
      → Sent pw b (after_send pw r)
  unfolding after_send reset pending
  after_send-Sent pw b (conn, true) h e = (h refl, refl)
  after_send-Sent pw b (conn, false) h e = absurd (cc e)

  flush_with-Sent :
      (bytes : Bytes) (pw : Writer C) → Sent pw (pending pw ++ bytes) (flush_with k bytes pw)
  unfolding flush_with
  flush_with-Sent bytes pw =
      go pw.failed (pw.head + pw.len + pw.tail == 0) (length bytes == 0)
        (λ e. (==_iff (pw.head + pw.len + pw.tail) 0).0 e) (λ e. (==_iff (length bytes) 0).0 e)
    where
      go :
          (f t b : Bool)
          → (t ≡ true → pw.head + pw.len + pw.tail ≡ 0)
          → (b ≡ true → length bytes ≡ 0)
          → Sent pw (pending pw ++ bytes) (
              if f
              then (pw, false)
              else if not t && not b
              then after_send pw (k.sendv pw.conn (pending pw) bytes)
              else if not t
              then after_send pw (k.send pw.conn (pending pw))
              else if not b
              then after_send pw (k.send pw.conn bytes)
              else after_send pw (pw.conn, true))
      go true t b te be = λ e. absurd (cc e)
      go false false false te be =
          after_send-Sent pw (pending pw ++ bytes) (k.sendv pw.conn (pending pw) bytes)
            (sent-sendv pw.conn (pending pw) bytes)
      go false false true te be =
          after_send-Sent pw (pending pw ++ bytes) (k.send pw.conn (pending pw)) (λ e.
            sent-send pw.conn (pending pw) e
            ∙ ap (λ x. sent pw.conn ++ x)
                (sym (
                  ap (λ x. pending pw ++ x) (nil_of_length bytes (be refl))
                  ∙ append-nil (pending pw))))
      go false true false te be =
          after_send-Sent pw (pending pw ++ bytes) (k.send pw.conn bytes) (λ e.
            sent-send pw.conn bytes e
            ∙ ap (λ x. sent pw.conn ++ (x ++ bytes)) (sym (pending-none pw (te refl))))
      go false true true te be =
          after_send-Sent pw (pending pw ++ bytes) (pw.conn, true)
            (λ e. sym (
              ap (λ x. sent pw.conn ++ (x ++ bytes)) (pending-none pw (te refl))
              ∙ (ap (λ x. sent pw.conn ++ x) (nil_of_length bytes (be refl))
                  ∙ append-nil (sent pw.conn))))

  -- A flush that succeeds has sent all that was pending and the bytes given with it, in that order,
  -- and leaves nothing pending.
  pub flush_with-sent :
      (bytes : Bytes) (pw : Writer C)
      → (flush_with k bytes pw).1 ≡ true
      → (sent (flush_with k bytes pw).0.conn ≡ sent pw.conn ++ (pending pw ++ bytes))
        × (pending (flush_with k bytes pw).0 ≡ [])
  flush_with-sent bytes pw e = flush_with-Sent bytes pw e

  -- Storing within the room of the slab, with nothing behind the body.
  copy_in-pending :
      (b : Bytes) (pw : Writer C)
      → Fits pw
      → pw.tail ≡ 0
      → length b ≤ pw.cap - pw.len
      → pending (copy_in k b pw) ≡ pending pw ++ b
  unfolding pending copy_in
  copy_in-pending b pw (h, l, t, n) no_tail fits =
      take-drop-blit (pw.head + (pw.len + length b) + pw.tail) (pw.lead - pw.head)
        (pw.head + pw.len) (pw.lead + pw.len) b pw.buf (omega arith) (omega arith) (omega arith)
      ∙ ap (λ m. take m (drop (pw.lead - pw.head) pw.buf) ++ b) (omega arith)

  -- What is sent and pending after a call, when it is answered true.
  abbrev Streams : Writer C → Bytes → Writer C × Bool → Type 0
  Streams pw b (pw', done) =
      done ≡ true → sent pw'.conn ++ pending pw' ≡ (sent pw.conn ++ pending pw) ++ b

  -- After a flush that succeeds the slab is empty.
  Emptied : Writer C → Writer C × Bool → Type 0
  Emptied pw (pw', done) =
      done ≡ true → Fits pw' × (pw'.tail ≡ 0) × (pw'.len ≡ 0) × (pw'.cap ≡ pw.cap)

  after_send-Emptied : (pw : Writer C) → Fits pw → (r : C × Bool) → Emptied pw (after_send pw r)
  unfolding after_send reset Emptied
  after_send-Emptied pw (h, l, t, n) (conn, true) e =
      ((omega arith, omega arith, omega arith, n), refl, refl, refl)
  after_send-Emptied pw fits (conn, false) e = absurd (cc e)

  flush_with-Emptied :
      (bytes : Bytes) (pw : Writer C) → Fits pw → Emptied pw (flush_with k bytes pw)
  unfolding flush_with Emptied
  flush_with-Emptied bytes pw fits =
      go pw.failed (pw.head + pw.len + pw.tail == 0) (length bytes == 0)
    where
      go :
          (f t b : Bool)
          → Emptied pw (
              if f
              then (pw, false)
              else if not t && not b
              then after_send pw (k.sendv pw.conn (pending pw) bytes)
              else if not t
              then after_send pw (k.send pw.conn (pending pw))
              else if not b
              then after_send pw (k.send pw.conn bytes)
              else after_send pw (pw.conn, true))
      go true t b = λ e. absurd (cc e)
      go false false false = after_send-Emptied pw fits (k.sendv pw.conn (pending pw) bytes)
      go false false true = after_send-Emptied pw fits (k.send pw.conn (pending pw))
      go false true false = after_send-Emptied pw fits (k.send pw.conn bytes)
      go false true true = after_send-Emptied pw fits (pw.conn, true)

  through-Streams : (b : Bytes) (pw : Writer C) → pending pw ≡ [] → Streams pw b (through k b pw)
  unfolding through pending
  through-Streams b pw empty = go pw.failed (k.send pw.conn b) (sent-send pw.conn b)
    where
      go :
          (f : Bool) (r : C × Bool)
          → (r.1 ≡ true → sent r.0 ≡ sent pw.conn ++ b)
          → Streams pw b (
              if f
              then (pw, false)
              else if r.1
              then (record pw { conn = r.0 }, true)
              else (record pw { conn = r.0; failed = true }, false))
      go true r h = λ e. absurd (cc e)
      go false (c, false) h = λ e. absurd (cc e)
      go false (c, true) h = λ e.
          ap (λ x. sent c ++ x) empty
          ∙ (append-nil (sent c)
              ∙ (h refl
                  ∙ ap (λ x. x ++ b)
                      (sym (ap (λ x. sent pw.conn ++ x) empty ∙ append-nil (sent pw.conn)))))

  copy_in-Streams :
      (b : Bytes) (pw : Writer C)
      → Fits pw
      → pw.tail ≡ 0
      → length b ≤ pw.cap - pw.len
      → sent (copy_in k b pw).conn ++ pending (copy_in k b pw) ≡ (sent pw.conn ++ pending pw) ++ b
  unfolding copy_in
  copy_in-Streams b pw fits no_tail le =
      ap (λ x. sent pw.conn ++ x) (copy_in-pending b pw fits no_tail le)
      ∙ sym (append_assoc (sent pw.conn) (pending pw) b)

  -- A flush in front, and what it changes nothing of.
  flushed-Streams :
      (b : Bytes) (pw pw' : Writer C) (r : Writer C × Bool)
      → sent pw'.conn ≡ sent pw.conn ++ (pending pw ++ [])
      → pending pw' ≡ []
      → Streams pw' b r
      → Streams pw b r
  flushed-Streams b pw pw' r sent_all empty h e =
      h e
      ∙ ap (λ x. x ++ b)
          (ap (λ x. sent pw'.conn ++ x) empty
            ∙ (append-nil (sent pw'.conn)
                ∙ (sent_all ∙ ap (λ x. sent pw.conn ++ x) (append-nil (pending pw)))))

  write-Streams : (b : Bytes) (pw : Writer C) → Fits pw → pw.tail ≡ 0 → Streams pw b (write k b pw)
  unfolding write reserve flush Emptied
  write-Streams b pw fits no_tail =
      go pw.failed (ltb pw.cap (length b)) (ltb pw.cap (pw.len + length b)) refl refl (flush k pw)
        (flush_with-Sent [] pw) (flush_with-Emptied [] pw fits)
    where
      go :
          (f big full : Bool)
          → ltb pw.cap (length b) ≡ big
          → ltb pw.cap (pw.len + length b) ≡ full
          → (r : Writer C × Bool) → Sent pw (pending pw ++ []) r
          → Emptied pw r
          → Streams pw b (
              if f
              then (pw, false)
              else if big
              then (if r.1 then through k b r.0 else (r.0, false))
              else let at : Writer C × Bool =
                  if f || big then (pw, false) else if full then r else (pw, true) in
                if at.1 then (copy_in k b at.0, true) else (at.0, false))
      go true big full eb ef r se em = λ e. absurd (cc e)
      go false true full eb ef (pw', false) se em = λ e. absurd (cc e)
      go false true full eb ef (pw', true) se em =
          flushed-Streams b pw pw' (through k b pw') (se refl).0 (se refl).1
            (through-Streams b pw' (se refl).1)
      go false false true eb ef (pw', false) se em = λ e. absurd (cc e)
      go false false true eb ef (pw', true) se em =
          let (fits', tail', len', cap') = em refl in
          flushed-Streams b pw pw' (copy_in k b pw', true) (se refl).0 (se refl).1
            (λ e. copy_in-Streams b pw' fits' tail' (ground arith))
      go false false false eb ef r se em = λ e. copy_in-Streams b pw fits no_tail (ground arith)

  -- A write that succeeds puts its bytes behind all that was sent or pending, whether they are copied
  -- in, the slab is flushed for them, or they go straight out; before the frame's back is placed.
  pub write-stream :
      (b : Bytes) (pw : Writer C)
      → Fits pw
      → pw.tail ≡ 0
      → (write k b pw).1 ≡ true
      → sent (write k b pw).0.conn ++ pending (write k b pw).0 ≡ (sent pw.conn ++ pending pw) ++ b
  write-stream b pw fits no_tail e = write-Streams b pw fits no_tail e
