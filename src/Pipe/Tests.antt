-- ===== src/Pipe/Tests.antt =====
-- The pipe writer at a concrete connection: a wire that keeps what it was sent while it is up.
use libioma.Base.{Bool, true, false, [], ◌++◌, ◌≡◌, refl, arith, Bytes, codes, if◌then◌else◌}
use libioma.Pipe.{Conn, ConnLaws, Writer, init, pending, write, flush, flush_with, copy_in}
use libioma.Pipe.Bounds.{writes, step, step-Fits}
use libioma.Pipe.Stream.{Fits, flush_with-sent, write-stream}

record Wire : Type 0 where
  up : Bool
  bytes : Bytes

wire_send : Wire → Bytes → Wire × Bool
wire_send w b = if w.up then (record w { bytes = w.bytes ++ b }, true) else (w, false)

wire : Conn Wire
unfolding wire_send
wire = record { send = wire_send; sendv = λ w a b. wire_send w (a ++ b) }

-- Five bytes of slab, two in front of it and one behind it.
abbrev writer : Writer Wire
writer = init (record { up = true; bytes = [] }) (codes "........") 2 5 1

-- Three bytes are copied in, five more flush them first, and six go straight out.
abbrev after_writes : Writer Wire
after_writes =
    (write wire (codes "ghijkl")
      (write wire (codes "abcdf") (write wire (codes "xyz") writer).0).0).0

writes_run : after_writes.conn.bytes ≡ codes "xyzabcdfghijkl"
unfolding init write wire flush
writes_run = refl

wire_laws : ConnLaws wire
unfolding wire
wire_laws = record {
  sent = λ w. w.bytes;
  sent-send = λ w b e. wire_sent w b e;
  sent-sendv = λ w a b e. wire_sent w (a ++ b) e;
}
  where
    wire_sent :
        (w : Wire) (b : Bytes) → (wire_send w b).1 ≡ true → (wire_send w b).0.bytes ≡ w.bytes ++ b
    wire_sent w b e = go w.up refl
      where
        go : (u : Bool) → w.up ≡ u → (wire_send w b).0.bytes ≡ w.bytes ++ b
        go true eq = ground (arith, eq)
        go false eq = ground (arith, eq, e)

filled : Writer Wire
unfolding init copy_in
filled = copy_in wire (codes "abcd") writer

write-stream_example :
    wire_laws.sent (write wire (codes "yz") filled).0.conn
      ++ pending (write wire (codes "yz") filled).0
    ≡ (wire_laws.sent filled.conn ++ pending filled) ++ codes "yz"
unfolding init filled write wire flush
write-stream_example =
    write-stream wire_laws (codes "yz") filled (omega arith, omega arith, omega arith, refl) refl
      refl

flush_with-sent_example :
    (wire_laws.sent (flush_with wire (codes "yz") filled).0.conn
      ≡ wire_laws.sent filled.conn ++ (pending filled ++ codes "yz"))
    × (pending (flush_with wire (codes "yz") filled).0 ≡ [])
unfolding init filled flush_with wire
flush_with-sent_example = flush_with-sent wire_laws (codes "yz") filled refl

step-Fits_example : Fits (step wire (writes (codes "abc")) writer)
unfolding init
step-Fits_example =
    step-Fits wire (writes (codes "abc")) writer (omega arith, omega arith, omega arith, refl)
