-- ===== src/Json/Answers.antt =====
-- What a sequence of calls of the writer can be told from its answers.
use libioma.Base.{
  Bool, true, false, ap, ◌⊎◌, List, [], ◌∷◌, ◌≡◌, refl, sym, ◌∙◌, arith, Bool-cases, inl, inr, All,
}
use mathlib.Core.Bool.{false≢true}
use libioma.Json.Sink.{Sink, SinkLaws}
use libioma.Json.Writer.{Json}
use libioma.Json.Calls.{json_done}
use libioma.Json.Script.{Op, call, run, answers}
use libioma.Json.Failure.{call-Refuses, call-Honest}

module _ {S : Type 0} (k : Sink S) (laws : SinkLaws k) where
  open laws use {room-reserve}

  run_failed :
      (ops : List Op) (j : Json S)
      → j.failed ≡ true
      → ((run k ops j).sink ≡ j.sink)
        × ((run k ops j).failed ≡ true)
        × All (λ b. b ≡ false) (answers k ops j)
  unfolding run answers
  run_failed [] j e = (refl, e, tt)
  run_failed (op ∷ ops) j e =
      let (no_, same, failed) = call-Refuses k room-reserve op j e in
      let (sink, still, all_no) = run_failed ops (call k op j).0 failed in
      (sink ∙ same, still, (no_, all_no))

  not_done : (j : Json S) → j.failed ≡ true → json_done j ≡ false
  unfolding json_done
  not_done j e = ground arith

  -- Once a call has answered false, every later call answers false too, nothing more is stored
  -- in the sink, and the document is not done.
  pub call-false :
      (op : Op) (ops : List Op) (j : Json S)
      → (call k op j).1 ≡ false
      → ((run k ops (call k op j).0).sink ≡ (call k op j).0.sink)
        × All (λ b. b ≡ false) (answers k ops (call k op j).0)
        × (json_done (run k ops (call k op j).0) ≡ false)
  call-false op ops j h =
      let (sink, still, all_no) =
        run_failed ops (call k op j).0 (call-Honest k room-reserve op j h) in
      (sink, all_no, not_done (run k ops (call k op j).0) still)

  -- The last call's answer, true where there was none.
  abbrev pub last_answer : List Bool → Bool
  last_answer [] = true
  last_answer (b ∷ []) = b
  last_answer (b ∷ c ∷ bs) = last_answer (c ∷ bs)

  last_false :
      (b : Bool) (bs : List Bool) → All (λ c. c ≡ false) (b ∷ bs) → last_answer (b ∷ bs) ≡ false
  last_false b [] (e, h) = e
  last_false b (c ∷ bs) (e, h) = last_false c bs h

  last_of_rest : (bs : List Bool) → last_answer (true ∷ bs) ≡ last_answer bs
  last_of_rest [] = refl
  last_of_rest (b ∷ bs) = refl

  refused_last :
      (ops : List Op) (op : Op) (j : Json S)
      → (call k op j).1 ≡ false
      → last_answer (answers k (op ∷ ops) j) ≡ false
  unfolding answers
  refused_last ops op j e =
      last_false (call k op j).1 (answers k ops (call k op j).0)
        (e, (run_failed ops (call k op j).0 (call-Honest k room-reserve op j e)).2)

  -- When `ioxd_json_done` calls the document whole after some calls, all of them answered true; and so
  -- they did when the last of them answered true.
  pub done-answers :
      (ops : List Op) (j : Json S)
      → (json_done (run k ops j) ≡ true) ⊎ (last_answer (answers k ops j) ≡ true)
      → All (λ b. b ≡ true) (answers k ops j)
  unfolding run answers
  done-answers [] j h = tt
  done-answers (op ∷ ops) j h = elim (Bool-cases (call k op j).1) [
    | inl e ↦ (e, done-answers ops (call k op j).0 (later e h))
    | inr e ↦ absurd (stopped e h)
  ]
    where
      later :
          (call k op j).1 ≡ true
          → (json_done (run k ops (call k op j).0) ≡ true)
            ⊎ (last_answer ((call k op j).1 ∷ answers k ops (call k op j).0) ≡ true)
          → (json_done (run k ops (call k op j).0) ≡ true)
            ⊎ (last_answer (answers k ops (call k op j).0) ≡ true)
      later e (inl d) = inl d
      later e (inr l) = inr (
          sym (last_of_rest (answers k ops (call k op j).0))
          ∙ (ap (λ b. last_answer (b ∷ answers k ops (call k op j).0)) (sym e) ∙ l))

      stopped :
          (call k op j).1 ≡ false
          → (json_done (run k ops (call k op j).0) ≡ true)
            ⊎ (last_answer ((call k op j).1 ∷ answers k ops (call k op j).0) ≡ true)
          → ⊥
      stopped e (inl d) = false≢true (
          sym (
            not_done (run k ops (call k op j).0)
              (run_failed ops (call k op j).0 (call-Honest k room-reserve op j e)).1)
          ∙ d)
      stopped e (inr l) = false≢true (sym (refused_last ops op j e) ∙ l)
