-- ===== src/Json/Sink.antt =====
-- Where the writer of lib/json/json.c puts its bytes: the reply slab, a raw pipe's slab or a
-- buffer, as `tail`, `commit`, `sink_failed` and `make_room` see it.
use libioma.Base.{ℕ, ◌+◌, ◌≤◌, ◌<◌, Bool, true, false, ◌++◌, ◌≡◌, Bytes, length}

-- `room` is what `tail` answers, `failed` is `sink_failed`, `commit` is the store at the tail and
-- the move past it, `reserve` is the slow path behind `make_room`, false for a null pointer.
pub record Sink (S : Type 0) : Type 0 where
  pub room : S → ℕ
  pub failed : S → Bool
  pub commit : S → Bytes → S
  pub reserve : S → ℕ → S × Bool

-- What the writer relies on. `written` is all that the sink was given, in order; `fits s n` says
-- that it will take `n` more bytes, in runs of at most 1024 bytes at a time.
pub record SinkLaws {S : Type 0} (k : Sink S) : Type 0 where
  pub written : S → Bytes
  pub fits : S → ℕ → Bool
  pub written-commit :
      (s : S) (b : Bytes) → length b ≤ k.room s → written (k.commit s b) ≡ written s ++ b
  pub written-reserve :
      (s : S) (n : ℕ) → (k.reserve s n).1 ≡ true → written (k.reserve s n).0 ≡ written s
  pub room-reserve : (s : S) (n : ℕ) → (k.reserve s n).1 ≡ true → n ≤ k.room (k.reserve s n).0
  pub failed-fits : (s : S) (n : ℕ) → fits s n ≡ true → k.failed s ≡ false
  pub fits-commit :
      (s : S) (b : Bytes) (n m : ℕ)
      → m ≡ length b + n
      → fits s m ≡ true
      → length b ≤ k.room s
      → fits (k.commit s b) n ≡ true
  pub fits-reserve :
      (s : S) (n m : ℕ)
      → fits s m ≡ true
      → n ≤ m
      → n ≤ 1024
      → k.room s < n
      → ((k.reserve s n).1 ≡ true) × (fits (k.reserve s n).0 m ≡ true)
