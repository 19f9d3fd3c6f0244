-- ===== src/Reader/State.antt =====
-- The state of the reader of lib/io/pipe.c, its spans and the end of the current buffer. Memory is the
-- gathering buffer and the bytes of the current item; a place in it is a span.
use libioma.Base.{
  ℕ, ◌-◌, Bool, false, not, ◌&&◌, ◌||◌, Option, none, List, [], ◌∷◌, Bytes, length, take, drop, ltb,
  ◌==◌, if◌then◌else◌,
}

-- `struct rx_item`; `len` is the length of the bytes at `ptr`.
pub record Item : Type 0 where
  pub bytes : Bytes
  pub buf_id : ℕ

-- A connection's input: what the ring holds, what the kernel delivers after it, and whether the end is
-- an error (`c->err`, negative) or 0.
pub record Input : Type 0 where
  pub rx : List Item
  pub arriving : List Item
  pub err : Bool

pub data Error : Type 0 where
  gone : Error
  full : Error

-- An `int` result: 1 or more with what comes with it, 0, or an error below.
pub data Answer (A : Type 0) : Type 0 where
  ok : A → Answer A
  at_end : Answer A
  failed : Error → Answer A

-- A pointer with a length: into `buf`, into the bytes of `cur`, or null.
pub data Place : Type 0 where
  in_buf : Place
  in_cur : Place
  nowhere : Place

pub record Span : Type 0 where
  pub place : Place
  pub at : ℕ
  pub len : ℕ

-- `ioxd_pipereader`; `returned` logs the ids given to `ioxd__bufring_return`, the last one first.
pub record Reader : Type 0 where
  pub conn : Input
  pub buf : Bytes
  pub cap : ℕ
  pub floor : ℕ
  pub live_in_buf : Bool
  pub buf_pos : ℕ
  pub buf_end : ℕ
  pub cur : Item
  pub has_cur : Bool
  pub cur_pos : ℕ
  pub pinned : Item
  pub has_pinned : Bool
  pub cur_is_pinned : Bool
  pub run_in_cur : Bool
  pub run_start : ℕ
  pub run_len : ℕ
  pub examined : ℕ
  pub eof : Bool
  pub error : Option Error
  pub returned : List ℕ

unfoldable pub init : Input → Bytes → ℕ → Reader
init conn buf cap_ = record {
  conn = conn;
  buf = buf;
  cap = cap_;
  floor = 0;
  live_in_buf = false;
  buf_pos = 0;
  buf_end = 0;
  cur = record { bytes = []; buf_id = 0 };
  has_cur = false;
  cur_pos = 0;
  pinned = record { bytes = []; buf_id = 0 };
  has_pinned = false;
  cur_is_pinned = false;
  run_in_cur = false;
  run_start = 0;
  run_len = 0;
  examined = 0;
  eof = false;
  error = none;
  returned = [];
}

-- The bytes that a span points at.
unfoldable pub contents : Reader → Span → Bytes
contents pr s = elim s.place [
  | in_buf ↦ take s.len (drop s.at pr.buf)
  | in_cur ↦ take s.len (drop s.at pr.cur.bytes)
  | nowhere ↦ []
]

unfoldable pub live_span : Reader → Span
live_span pr =
    if pr.live_in_buf
    then record { place = in_buf; at = pr.buf_pos; len = pr.buf_end - pr.buf_pos }
    else if pr.has_cur
    then record { place = in_cur; at = pr.cur_pos; len = length pr.cur.bytes - pr.cur_pos }
    else record { place = nowhere; at = 0; len = 0 }

-- `ioxd__bufring_return`
unfoldable pub give_back : ℕ → Reader → Reader
give_back id pr = record pr { returned = id ∷ pr.returned }

unfoldable pub forget_cur : Reader → Reader
forget_cur pr = record pr { has_cur = false; cur_is_pinned = false; cur_pos = 0 }

unfoldable pub cur_done : Reader → Reader
unfolding give_back forget_cur
cur_done pr =
    if not pr.has_cur
      || ltb pr.cur_pos (length pr.cur.bytes)
      || (pr.run_in_cur && not (pr.run_len == 0))
    then pr
    else forget_cur (if pr.cur_is_pinned then pr else give_back pr.cur.buf_id pr)
