-- ===== src/Json/Memory.antt =====
-- A buffer as the sink of lib/json/json.c: `IOXD_JSON_TO_MEM`.
use libioma.Base.{
  ℕ, ◌+◌, ◌-◌, ◌≤◌, ◌<◌, Bool, true, false, List, [], ◌++◌, ◌≡◌, refl, sym, ap, ◌∙◌, arith, Bytes,
  length, length-append, append-nil, append_assoc, leb, if◌then◌else◌,
}
use libioma.Json.Sink.{Sink, SinkLaws}
use libioma.Json.Writer.{Json, fresh}
use libioma.Json.Calls.{json_done}
use libioma.Json.Script.{Op, run}
use libioma.Json.Document.{Value, write, print, height, InRange}
use libioma.Json.Safe.{Invariant}
use libioma.Json.Bounds
use libioma.Json.Refine

-- `to.mem`: whether `p` is a buffer, its `cap`, and the bytes below `*len`, so that `*len` is their
-- number.
pub record Memory : Type 0 where
  pub usable : Bool
  pub cap : ℕ
  pub stored : Bytes

-- `tail` of a buffer.
unfoldable pub memory_room : Memory → ℕ
memory_room m = if m.usable then m.cap - length m.stored else 0

-- The stores at the tail and `*len += n`.
unfoldable pub memory_commit : Memory → Bytes → Memory
memory_commit m b = record m { stored = m.stored ++ b }

-- A buffer never fails, and has no more than its room: `make_room` answers a null pointer.
unfoldable pub memory : Sink Memory
unfolding memory_room memory_commit
memory = record {
  room = memory_room;
  failed = λ m. false;
  commit = memory_commit;
  reserve = λ m n. (m, false);
}

-- `ioxd_json_mem`: `*len = 0`.
unfoldable pub json_mem : Bool → ℕ → Json Memory
unfolding fresh
json_mem usable cap = fresh (record { usable = usable; cap = cap; stored = [] })

pub memory_written : (m : Memory) (b : Bytes) → (memory_commit m b).stored ≡ m.stored ++ b
unfolding memory_commit
memory_written m b = refl

pub memory_fits :
    (m : Memory) (b : Bytes) (n more : ℕ)
    → more ≡ length b + n
    → leb more (memory_room m) ≡ true
    → length b ≤ memory_room m
    → leb n (memory_room (memory_commit m b)) ≡ true
unfolding memory_room memory_commit
memory_fits m b n more e f le = ground (arith, length-append m.stored b)

-- A buffer that takes `more` bytes has the room for fewer at once.
pub memory_full :
    (m : Memory) (n more : ℕ) → leb more (memory_room m) ≡ true → n ≤ more → memory_room m < n → ⊥
memory_full m n more f le full = ground arith

unfoldable pub memory_laws : SinkLaws memory
unfolding memory
memory_laws = record {
  written = λ m. m.stored;
  fits = λ m n. leb n (memory_room m);
  written-commit = λ m b le. memory_written m b;
  written-reserve = λ m n h. refl;
  room-reserve = λ m n h. absurd (cc);
  failed-fits = λ m n h. refl;
  fits-commit = memory_fits;
  fits-reserve = λ m n more f le small full. absurd (memory_full m n more f le full);
}

roomy :
    (v : Value) (size : ℕ)
    → length (print v) ≤ size
    → leb (length (print v) + 0) (memory_room (record { usable = true; cap = size; stored = [] }))
      ≡ true
unfolding memory_room
roomy v size le = ground arith

-- A buffer that holds the text of a tree takes it whole: `*len` bytes are the text.
pub write-memory :
    (v : Value) (cap : ℕ)
    → InRange v
    → height v ≤ 63
    → length (print v) ≤ cap
    → ((write memory v (json_mem true cap)).1 ≡ true)
      × ((write memory v (json_mem true cap)).0.sink.stored ≡ print v)
      × (json_done (write memory v (json_mem true cap)).0 ≡ true)
unfolding json_mem memory_laws
write-memory v size r h le =
    let m : Memory = record { usable = true; cap = size; stored = [] } in
    let (done, given, _, whole) = Refine.write-print memory_laws v m 0 r h (roomy v size le) in
    (done, given, whole)

-- The bytes in the buffer never pass its capacity.
abbrev pub Fits : ℕ → Bytes → Memory → Type 0
Fits cap old m = (m.cap ≡ cap) × (length m.stored ≤ cap) × ((new : Bytes) × (m.stored ≡ old ++ new))

pub commit-Fits :
    (size : ℕ) (old b : Bytes) (m : Memory)
    → length b ≤ memory_room m
    → Fits size old m
    → Fits size old (memory_commit m b)
unfolding memory_room memory_commit
commit-Fits size old b m room (c, l, (new, e)) = (
  c,
  ground (arith, length-append m.stored b),
  (new ++ b, ap (λ x. x ++ b) e ∙ append_assoc old new b),
)

unfoldable pub memory_invariant : ℕ → Bytes → Invariant memory
unfolding memory
memory_invariant size old = record {
  P = Fits size old;
  room-reserve = λ m n h. absurd (cc);
  P-commit = λ m b room p. commit-Fits size old b m room p;
  P-reserve = λ m n p. p;
}

-- Whatever is called, in whatever order and with whatever answers: nothing is stored past the end
-- of the buffer, and what was stored stays as it was.
pub run-Fits :
    (ops : List Op) (j : Json Memory)
    → length j.sink.stored ≤ j.sink.cap
    → Fits j.sink.cap j.sink.stored (run memory ops j).sink
unfolding memory_invariant
run-Fits ops j le =
    Bounds.run_Safe (memory_invariant j.sink.cap j.sink.stored) ops j
      (refl, le, ([], sym (append-nil j.sink.stored)))
