-- ===== src/Pipe/Bounds.antt =====
-- No call of the pipe writer lets a span leave its part of the slab.
use libioma.Base.{
  [], ℕ, ◌+◌, ◌-◌, ◌≤◌, Bool, true, false, not, ◌&&◌, ◌||◌, ◌≡◌, refl, ◌∙◌, arith, Bytes, length,
  length-blit, ltb, ◌==◌, if◌then◌else◌, Bool-cases, inl, inr,
}
use libioma.Pipe.{
  Conn, Writer, reset, room, pending, advance, front, back, after_send, flush_with, flush, reserve,
  through, copy_in, write, send,
}
use libioma.Pipe.Stream.{Fits}

-- The calls that the engine and the handlers make.
pub data Op : Type 0 where
  resets : Op
  advances : ℕ → Op
  fronts : ℕ → Op
  backs : ℕ → Op
  reserves : ℕ → Op
  goes_through : Bytes → Op
  flushes : Bytes → Op
  writes : Bytes → Op
  sends : Bytes → Op

module _ {C : Type 0} (k : Conn C) where
  unfoldable pub step : Op → Writer C → Writer C
  step resets pw = reset pw
  step (advances n) pw = advance n pw
  step (fronts n) pw = (front n pw).0
  step (backs n) pw = (back n pw).0
  step (reserves n) pw = (reserve k n pw).0
  step (goes_through b) pw = (through k b pw).0
  step (flushes b) pw = (flush_with k b pw).0
  step (writes b) pw = (write k b pw).0
  step (sends b) pw = (send k b pw).0

  advance-Fits : (n : ℕ) (pw : Writer C) → Fits pw → Fits (advance n pw)
  unfolding advance room
  advance-Fits n pw (h, l, t, e) = (h, ground arith, t, e)

  front-Fits : (n : ℕ) (pw : Writer C) → Fits pw → Fits (front n pw).0
  unfolding front
  front-Fits n pw (h, l, t, e) = elim (Bool-cases (ltb (pw.lead - pw.head) n)) [
    | inl no_ ↦ rw no_ (h, l, t, e)
    | inr in_room ↦ rw in_room (ground arith, l, t, e)
  ]

  back-Fits : (n : ℕ) (pw : Writer C) → Fits pw → Fits (back n pw).0
  unfolding back
  back-Fits n pw (h, l, t, e) = elim (Bool-cases (ltb (pw.slack - pw.tail) n)) [
    | inl no_ ↦ rw no_ (h, l, t, e)
    | inr in_room ↦ rw in_room (h, l, ground arith, e)
  ]

  reset-Fits : (pw : Writer C) → Fits pw → Fits (reset pw)
  unfolding reset
  reset-Fits pw (h, l, t, e) = (omega arith, omega arith, omega arith, e)

  -- After a flush the spans fit, and if it was answered true the body is empty.
  abbrev Flushed : Writer C → Writer C × Bool → Type 0
  Flushed pw (pw', done) = Fits pw' × (done ≡ true → pw'.len ≡ 0) × (pw'.cap ≡ pw.cap)

  after_send-Flushed : (pw : Writer C) (r : C × Bool) → Fits pw → Flushed pw (after_send pw r)
  unfolding after_send reset
  after_send-Flushed pw (c, true) (h, l, t, e) =
      ((omega arith, omega arith, omega arith, e), (λ _. refl), refl)
  after_send-Flushed pw (c, false) (h, l, t, e) =
      ((omega arith, omega arith, omega arith, e), (λ _. refl), refl)

  flush_with-Flushed : (b : Bytes) (pw : Writer C) → Fits pw → Flushed pw (flush_with k b pw)
  unfolding flush_with
  flush_with-Flushed b pw fits = go pw.failed (pw.head + pw.len + pw.tail == 0) (length b == 0)
    where
      go :
          (f t n : Bool)
          → Flushed pw (
              if f
              then (pw, false)
              else if not t && not n
              then after_send pw (k.sendv pw.conn (pending pw) b)
              else if not t
              then after_send pw (k.send pw.conn (pending pw))
              else if not n
              then after_send pw (k.send pw.conn b)
              else after_send pw (pw.conn, true))
      go true t n = (fits, (λ e. absurd (cc e)), refl)
      go false false false = after_send-Flushed pw (k.sendv pw.conn (pending pw) b) fits
      go false false true = after_send-Flushed pw (k.send pw.conn (pending pw)) fits
      go false true false = after_send-Flushed pw (k.send pw.conn b) fits
      go false true true = after_send-Flushed pw (pw.conn, true) fits

  -- Room was found only if it is there.
  abbrev Reserved : ℕ → Writer C × Bool → Type 0
  Reserved n (pw', found) = Fits pw' × (found ≡ true → pw'.len + n ≤ pw'.cap)

  reserve-Reserved : (n : ℕ) (pw : Writer C) → Fits pw → Reserved n (reserve k n pw)
  unfolding reserve flush
  reserve-Reserved n pw fits = elim (Bool-cases (pw.failed || ltb pw.cap n)) [
    | inl e ↦ rw e (fits, λ e'. absurd (cc e'))
    | inr e ↦ rw e (elim (Bool-cases (ltb pw.cap (pw.len + n))) [
      | inl full ↦ rw full (
        (flush_with-Flushed [] pw fits).0,
        λ done.
            ground
              (arith, (flush_with-Flushed [] pw fits).1 done, (flush_with-Flushed [] pw fits).2),
      )
      | inr room_ ↦ rw room_ (fits, λ _. ground arith)
    ])
  ]

  abbrev After : Writer C × Bool → Type 0
  After (pw', done) = Fits pw'

  through-Fits : (b : Bytes) (pw : Writer C) → Fits pw → Fits (through k b pw).0
  unfolding through
  through-Fits b pw fits = go pw.failed (k.send pw.conn b)
    where
      go :
          (f : Bool) (r : C × Bool)
          → After (
              if f
              then (pw, false)
              else if r.1
              then (record pw { conn = r.0 }, true)
              else (record pw { conn = r.0; failed = true }, false))
      go true r = fits
      go false (c, true) = fits
      go false (c, false) = fits

  copy_in-Fits :
      (b : Bytes) (pw : Writer C) → Fits pw → pw.len + length b ≤ pw.cap → Fits (copy_in k b pw)
  unfolding copy_in
  copy_in-Fits b pw (h, l, t, e) le =
      (h, le, t, length-blit (pw.lead + pw.len) b pw.buf (omega arith) ∙ e)

  write-Fits : (b : Bytes) (pw : Writer C) → Fits pw → Fits (write k b pw).0
  unfolding write flush
  write-Fits b pw fits =
      go pw.failed (ltb pw.cap (length b)) (flush_with k [] pw) (flush_with-Flushed [] pw fits)
        (reserve k (length b) pw) (reserve-Reserved (length b) pw fits)
    where
      go :
          (f big : Bool) (r : Writer C × Bool)
          → Flushed pw r
          → (s : Writer C × Bool) → Reserved (length b) s
          → Fits
              (if f
                then (pw, false)
                else if big
                then (if r.1 then through k b r.0 else (r.0, false))
                else if s.1
                then (copy_in k b s.0, true)
                else (s.0, false)).0
      go true big r fr s rs = fits
      go false true (pw', true) fr s rs = through-Fits b pw' fr.0
      go false true (pw', false) fr s rs = fr.0
      go false false r fr (pw', true) rs = copy_in-Fits b pw' rs.0 (rs.1 refl)
      go false false r fr (pw', false) rs = rs.0

  -- Every call of the writer leaves the frame's front within the lead, the body within the slab and
  -- the frame's back within the slack, and the array as long as it was.
  pub step-Fits : (op : Op) (pw : Writer C) → Fits pw → Fits (step op pw)
  unfolding step send flush
  step-Fits resets pw fits = reset-Fits pw fits
  step-Fits (advances n) pw fits = advance-Fits n pw fits
  step-Fits (fronts n) pw fits = front-Fits n pw fits
  step-Fits (backs n) pw fits = back-Fits n pw fits
  step-Fits (reserves n) pw fits = (reserve-Reserved n pw fits).0
  step-Fits (goes_through b) pw fits = through-Fits b pw fits
  step-Fits (flushes b) pw fits = (flush_with-Flushed b pw fits).0
  step-Fits (writes b) pw fits = write-Fits b pw fits
  step-Fits (sends b) pw fits = go (write k b pw) (write-Fits b pw fits)
    where
      go :
          (r : Writer C × Bool)
          → Fits r.0
          → Fits (if r.1 then flush_with k [] r.0 else (r.0, false)).0
      go (pw', true) f = (flush_with-Flushed [] pw' f).0
      go (pw', false) f = f
