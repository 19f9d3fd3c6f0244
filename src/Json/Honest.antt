-- ===== src/Json/Honest.antt =====
-- A call answers false only with the writer failed, on any sink: the loops of `put` and
-- `put_escaped` never run out of their fuel.
use Prim.Native.Nat.{min}
use libioma.Base.{
  ℕ, zero, suc, ◌+◌, ◌≤◌, true, false, not, ◌&&◌, ◌||◌, [], ◌∷◌, ◌≡◌, sym, arith, Bytes, length,
  take, drop, length-drop, Bool-cases, inl, inr, ltb, leb, ◌==◌, if◌then◌else◌,
}
use libioma.Json.Sink.{Sink}
use libioma.Json.Writer.{
  Json, Call, ◌>>◌, commit, make_room, want, put_room, put_loop, put, put_escaped, put_escaped_loop,
  put_string, comma_text, clean_run, run_max, escape,
}
use libioma.Json.Calls.{store}
use mathlib.Core.Bool.{false≢true}
use libioma.Json.Script.{run}

-- False only when failed.
abbrev pub Honest : {S : Type 0} → Call S → Type 0
Honest {S} c = (j : Json S) → (c j).1 ≡ false → (c j).0.failed ≡ true

pub then_Honest : {S : Type 0} (c d : Call S) → Honest c → Honest d → Honest (c >> d)
then_Honest c d a b j h = elim (Bool-cases (c j).1) [
  | inl e ↦ rw e (b (c j).0 (rw e at h))
  | inr e ↦ rw e (a j e)
]

module _ {S : Type 0} (k : Sink S)
    (room-reserve : (s : S) (n : ℕ) → (k.reserve s n).1 ≡ true → n ≤ k.room (k.reserve s n).0) where
  pub store-Honest : (t : Bytes) → Honest (store k t)
  store-Honest t j h = cc

  make_room-Honest : (n : ℕ) → Honest (make_room k n)
  unfolding make_room
  make_room-Honest n j h = elim (Bool-cases (k.reserve j.sink n).1) [
    | inl e ↦ ground arith
    | inr e ↦ ground arith
  ]

  pub want-Honest : (n : ℕ) → Honest (want k n)
  unfolding want
  want-Honest n j h = elim (Bool-cases (leb n (k.room j.sink) && not (k.failed j.sink))) [
    | inl e ↦ absurd (false≢true (sym (rw e at h)))
    | inr e ↦ rw e (make_room-Honest n j (rw e at h))
  ]

  put_room-Honest : (n : ℕ) → Honest (put_room k n)
  unfolding put_room
  put_room-Honest n j h = elim (Bool-cases (k.room j.sink == 0 || k.failed j.sink)) [
    | inl e ↦ rw e (make_room-Honest (if ltb n run_max then n else run_max) j (rw e at h))
    | inr e ↦ absurd (false≢true (sym (rw e at h)))
  ]

  -- A round of `put` that goes on has a byte's room.
  put_room_pos :
      (n : ℕ) (j : Json S) → 1 ≤ n → (put_room k n j).1 ≡ true → 1 ≤ k.room (put_room k n j).0.sink
  unfolding put_room make_room
  put_room_pos n j pos h = elim (Bool-cases (k.room j.sink == 0 || k.failed j.sink)) [
    | inl e ↦
        let part : ℕ = if ltb n run_max then n else run_max in
        let some_room : 1 ≤ part = ground arith in ground (arith, room-reserve j.sink part)
    | inr e ↦ ground arith
  ]

  put_loop-Honest : (fuel : ℕ) (t : Bytes) → length t ≤ fuel → Honest (put_loop k fuel t)
  unfolding put_loop
  put_loop-Honest zero [] le j h = cc
  put_loop-Honest (suc fuel) [] le j h = cc
  put_loop-Honest zero (c ∷ t) le j h = absurd (omega arith)
  put_loop-Honest (suc fuel) (c ∷ t) le j h = elim (Bool-cases (put_room k (length (c ∷ t)) j).1) [
    | inl e ↦
        let n : ℕ = min (length (c ∷ t)) (k.room (put_room k (length (c ∷ t)) j).0.sink) in
        let pos = put_room_pos (length (c ∷ t)) j (omega arith) e in
        rw e (
          put_loop-Honest fuel (drop n (c ∷ t)) (omega (arith, length-drop n (c ∷ t)))
            (commit k (put_room k (length (c ∷ t)) j).0 (take n (c ∷ t))) (rw e at h))
    | inr e ↦ rw e (put_room-Honest (length (c ∷ t)) j e)
  ]

  pub put-Honest : (t : Bytes) → Honest (put k t)
  unfolding put
  put-Honest t = put_loop-Honest (length t) t (omega arith)

  clean_Honest :
      (run : ℕ) (t : Bytes) → Honest (λ j. if run == 0 then (j, true) else put k (take run t) j)
  clean_Honest zero t j h = cc
  clean_Honest (suc run) t j h =
      let e : (suc run == 0) ≡ false = ground arith in
      rw e (put-Honest (take (suc run) t) j (rw e at h))

  rest_Honest :
      (fuel : ℕ) (t : Bytes)
      → length t ≤ suc fuel
      → ((q : Bytes) → length q ≤ fuel → Honest (put_escaped_loop k fuel q))
      → Honest {S = S} (λ j. elim t [
        | [] ↦ (j, true)
        | d ∷ q ↦ (put k (escape d) >> put_escaped_loop k fuel q) j
      ])
  rest_Honest fuel [] le ih j h = cc
  rest_Honest fuel (d ∷ q) le ih j h =
      then_Honest (put k (escape d)) (put_escaped_loop k fuel q) (put-Honest (escape d))
        (ih q (omega arith)) j h

  put_escaped_loop-Honest :
      (fuel : ℕ) (t : Bytes) → length t ≤ fuel → Honest (put_escaped_loop k fuel t)
  unfolding put_escaped_loop
  put_escaped_loop-Honest zero [] le j h = cc
  put_escaped_loop-Honest (suc fuel) [] le j h = cc
  put_escaped_loop-Honest zero (c ∷ t) le j h = absurd (omega arith)
  put_escaped_loop-Honest (suc fuel) (c ∷ t) le j h =
      then_Honest
        (λ i.
          if clean_run (c ∷ t) == 0 then (i, true) else put k (take (clean_run (c ∷ t)) (c ∷ t)) i)
        (λ i. elim (drop (clean_run (c ∷ t)) (c ∷ t)) [
          | [] ↦ (i, true)
          | d ∷ q ↦ (put k (escape d) >> put_escaped_loop k fuel q) i
        ])
        (clean_Honest (clean_run (c ∷ t)) (c ∷ t))
        (rest_Honest fuel (drop (clean_run (c ∷ t)) (c ∷ t))
          (omega (arith, length-drop (clean_run (c ∷ t)) (c ∷ t)))
          (λ q le'. put_escaped_loop-Honest fuel q le'))
        j h

  put_escaped-Honest : (t : Bytes) → Honest (put_escaped k t)
  unfolding put_escaped
  put_escaped-Honest t = put_escaped_loop-Honest (length t) t (omega arith)

  pieces_Honest :
      (a b c d : Call S)
      → Honest a
      → Honest b
      → Honest c
      → Honest d
      → Honest (a >> b >> c >> b >> d)
  pieces_Honest a b c d ha hb hc hd =
      then_Honest (a >> b >> c >> b) d
        (then_Honest (a >> b >> c) b (then_Honest (a >> b) c (then_Honest a b ha hb) hc) hb) hd

  pub put_string-Honest : (comma : ℕ) (p : Bytes) (after : ℕ) → Honest (put_string k comma p after)
  unfolding put_string
  put_string-Honest comma p after j h =
      let need = comma + length p + 2 + (if after == 0 then 0 else 1) in
      let tail : Bytes = if after == 0 then [] else after ∷ [] in
      let test =
        leb need run_max
        && clean_run p == length p
        && leb need (k.room j.sink)
        && not (k.failed j.sink) in
      elim (Bool-cases test) [
        | inl e ↦ absurd (false≢true (sym (rw e at h)))
        | inr e ↦ rw e (
            pieces_Honest (put k (comma_text comma)) (put k (b'"' ∷ [])) (put_escaped k p)
              (put k tail) (put-Honest (comma_text comma)) (put-Honest (b'"' ∷ []))
              (put_escaped-Honest p) (put-Honest tail) j (rw e at h))
      ]
