-- ===== src/Json/Safe.antt =====
-- The writer never stores past the room that its sink answered: whatever is kept by a store within
-- the room and by `reserve` is kept by every call.
use Prim.Native.Nat.{min}
use libioma.Base.{
  ℕ, zero, suc, ◌≤◌, true, false, not, ◌&&◌, ◌||◌, [], ◌∷◌, ◌≡◌, arith, Bytes, length, length-take,
  take, drop, Bool-cases, inl, inr, ltb, leb, ◌==◌, if◌then◌else◌,
}
use libioma.Json.Sink.{Sink}
use libioma.Json.Writer.{
  Json, Call, ◌>>◌, commit, make_room, want, put_room, put_loop, put, put_escaped, put_escaped_loop,
  clean_run, run_max, escape,
}
use libioma.Json.Calls.{store}
use libioma.Json.Script.{run}

-- An invariant of the sink: kept by a store within the room, and by `reserve`, which makes the room
-- that it answers true for.
pub record Invariant {S : Type 0} (k : Sink S) : Type 1 where
  pub P : S → Type 0
  pub room-reserve : (s : S) (n : ℕ) → (k.reserve s n).1 ≡ true → n ≤ k.room (k.reserve s n).0
  pub P-commit : (s : S) (b : Bytes) → length b ≤ k.room s → P s → P (k.commit s b)
  pub P-reserve : (s : S) (n : ℕ) → P s → P (k.reserve s n).0

module _ {S : Type 0} {k : Sink S} (inv : Invariant k) where
  open inv use {P, room-reserve, P-commit, P-reserve}

  abbrev pub Safe : Call S → Type 0
  Safe c = (j : Json S) → P j.sink → P (c j).0.sink

  -- Safe, and where it is true there is room for `n` bytes.
  abbrev pub Roomy : ℕ → Call S → Type 0
  Roomy n c = (j : Json S) → P j.sink → P (c j).0.sink × ((c j).1 ≡ true → n ≤ k.room (c j).0.sink)

  pub then_Safe : (c d : Call S) → Safe c → Safe d → Safe (c >> d)
  then_Safe c d a b j p = elim (Bool-cases (c j).1) [
    | inl e ↦ rw e (b (c j).0 (a j p))
    | inr e ↦ rw e (a j p)
  ]

  pub store-Safe :
      (n : ℕ) (c : Call S) (t : Bytes) → length t ≤ n → Roomy n c → Safe (c >> store k t)
  store-Safe n c t le a j p = elim (Bool-cases (c j).1) [
    | inl e ↦ rw e (let (q, r) = a j p in P-commit (c j).0.sink t (omega (arith, r e)) q)
    | inr e ↦ rw e (a j p).0
  ]

  make_room-Roomy : (n : ℕ) → Roomy n (make_room k n)
  unfolding make_room
  make_room-Roomy n j p = elim (Bool-cases (k.reserve j.sink n).1) [
    | inl e ↦ rw e (P-reserve j.sink n p, λ _. room-reserve j.sink n e)
    | inr e ↦ rw e (P-reserve j.sink n p, λ h. cc)
  ]

  pub want-Roomy : (n : ℕ) → Roomy n (want k n)
  unfolding want
  want-Roomy n j p = elim (Bool-cases (leb n (k.room j.sink) && not (k.failed j.sink))) [
    | inl e ↦ rw e (p, λ _. ground arith)
    | inr e ↦ rw e (make_room-Roomy n j p)
  ]

  put_room-Safe : (n : ℕ) → Safe (put_room k n)
  unfolding put_room
  put_room-Safe n j p = elim (Bool-cases (k.room j.sink == 0 || k.failed j.sink)) [
    | inl e ↦ rw e (make_room-Roomy (if ltb n run_max then n else run_max) j p).0
    | inr e ↦ rw e p
  ]

  put_loop-Safe : (fuel : ℕ) (t : Bytes) → Safe (put_loop k fuel t)
  unfolding put_loop
  put_loop-Safe zero [] j p = p
  put_loop-Safe (suc fuel) [] j p = p
  put_loop-Safe zero (c ∷ t) j p = p
  put_loop-Safe (suc fuel) (c ∷ t) j p = elim (Bool-cases (put_room k (length (c ∷ t)) j).1) [
    | inl e ↦
        let s : S = (put_room k (length (c ∷ t)) j).0.sink in
        let n : ℕ = min (length (c ∷ t)) (k.room s) in
        rw e (
          put_loop-Safe fuel (drop n (c ∷ t))
            (commit k (put_room k (length (c ∷ t)) j).0 (take n (c ∷ t)))
            (P-commit s (take n (c ∷ t)) (omega (arith, length-take n (c ∷ t)))
              (put_room-Safe (length (c ∷ t)) j p)))
    | inr e ↦ rw e (put_room-Safe (length (c ∷ t)) j p)
  ]

  pub put-Safe : (t : Bytes) → Safe (put k t)
  unfolding put
  put-Safe t = put_loop-Safe (length t) t

  clean_Safe :
      (run : ℕ) (t : Bytes) → Safe (λ j. if run == 0 then (j, true) else put k (take run t) j)
  clean_Safe zero t j p = p
  clean_Safe (suc run) t j p =
      let e : (suc run == 0) ≡ false = ground arith in rw e (put-Safe (take (suc run) t) j p)

  rest_Safe :
      (fuel : ℕ) (t : Bytes)
      → ((q : Bytes) → Safe (put_escaped_loop k fuel q))
      → Safe (λ j. elim t [
        | [] ↦ (j, true)
        | d ∷ q ↦ (put k (escape d) >> put_escaped_loop k fuel q) j
      ])
  rest_Safe fuel [] ih j p = p
  rest_Safe fuel (d ∷ q) ih j p =
      then_Safe (put k (escape d)) (put_escaped_loop k fuel q) (put-Safe (escape d)) (ih q) j p

  escaped_step :
      (fuel c : ℕ) (t : Bytes)
      → ((q : Bytes) → Safe (put_escaped_loop k fuel q))
      → Safe (put_escaped_loop k (suc fuel) (c ∷ t))
  unfolding put_escaped_loop
  escaped_step fuel c t ih j p =
      then_Safe
        (λ i.
          if clean_run (c ∷ t) == 0 then (i, true) else put k (take (clean_run (c ∷ t)) (c ∷ t)) i)
        (λ i. elim (drop (clean_run (c ∷ t)) (c ∷ t)) [
          | [] ↦ (i, true)
          | d ∷ q ↦ (put k (escape d) >> put_escaped_loop k fuel q) i
        ])
        (clean_Safe (clean_run (c ∷ t)) (c ∷ t))
        (rest_Safe fuel (drop (clean_run (c ∷ t)) (c ∷ t)) ih) j p

  put_escaped_loop-Safe : (fuel : ℕ) (t : Bytes) → Safe (put_escaped_loop k fuel t)
  put_escaped_loop-Safe zero [] j p = unfold put_escaped_loop in p
  put_escaped_loop-Safe (suc fuel) [] j p = unfold put_escaped_loop in p
  put_escaped_loop-Safe zero (c ∷ t) j p = unfold put_escaped_loop in p
  put_escaped_loop-Safe (suc fuel) (c ∷ t) j p =
      escaped_step fuel c t (λ q. put_escaped_loop-Safe fuel q) j p

  pub put_escaped-Safe : (t : Bytes) → Safe (put_escaped k t)
  unfolding put_escaped
  put_escaped-Safe t = put_escaped_loop-Safe (length t) t
