-- ===== src/Json/Text.antt =====
-- Strings into a sink that has the room: `put_escaped` and `put_string`.
use libioma.Base.{
  ℕ, zero, suc, ◌+◌, ◌≤◌, true, false, [], ◌∷◌, ◌++◌, ◌≡◌, refl, sym, ap, ◌∙◌, arith, Bytes, length,
  length-append, length-drop, take, drop, ◌==◌, if◌then◌else◌,
}
use libioma.Json.Sink.{Sink, SinkLaws}
use libioma.Json.Writer.{
  Json, Call, ◌>>◌, put, put_escaped, put_escaped_loop, comma_text, clean_run, escape, needs_escape,
}
use libioma.Json.Put
use libioma.Json.Put.{Takes}
use libioma.Json.Escape.{escaped, escaped-clean_run, clean_run_end}

-- A quoted text with what stands around it.
abbrev pub quoted : ℕ → Bytes → ℕ → Bytes
quoted comma p after =
    comma_text comma ++ (b'"' ∷ (escaped p ++ (b'"' ∷ (if after == 0 then [] else after ∷ []))))

module _ {S : Type 0} {k : Sink S} (laws : SinkLaws k) where
  open laws use {written, fits}

  abbrev Gives : Call S → Json S → Bytes → ℕ → Type 0
  Gives = Put.Gives laws

  -- The clean run of a round, or nothing when the text begins with an escape.
  abbrev run_call : ℕ → Bytes → Call S
  run_call run p j = if run == 0 then (j, true) else put k (take run p) j

  run_call-Gives :
      (run : ℕ) (p : Bytes) (left m : ℕ) (j : Json S)
      → m ≡ length (take run p) + left
      → fits j.sink m ≡ true
      → Gives (run_call run p) j (take run p) left
  run_call-Gives zero p left m j e f =
      let same : m ≡ left = omega arith in Put.nothing_Gives laws j left (rw (← same) f)
  run_call-Gives (suc run) p left m j e f =
      let positive : (suc run == 0) ≡ false = ground arith in
      rw positive (Put.put-Gives laws (take (suc run) p) left m j e f)

  abbrev rest_call : ℕ → Bytes → Call S
  rest_call fuel p j = elim p [
    | [] ↦ (j, true)
    | d ∷ q ↦ (put k (escape d) >> put_escaped_loop k fuel q) j
  ]

  escaped_round :
      (fuel c : ℕ) (p : Bytes) (j : Json S)
      → put_escaped_loop k (suc fuel) (c ∷ p) j
        ≡ (run_call (clean_run (c ∷ p)) (c ∷ p)
              >> rest_call fuel (drop (clean_run (c ∷ p)) (c ∷ p)))
            j
  unfolding put_escaped_loop
  escaped_round fuel c p j = refl

  length-escaped_run :
      (p : Bytes)
      → length (escaped p) ≡ length (take (clean_run p) p) + length (escaped (drop (clean_run p) p))
  length-escaped_run p =
      ap length (sym (escaped-clean_run p))
      ∙ length-append (take (clean_run p) p) (escaped (drop (clean_run p) p))

  escaped_cons :
      (d : ℕ) (q : Bytes) → needs_escape d ≡ true → escape d ++ escaped q ≡ escaped (d ∷ q)
  escaped_cons d q h = ap (λ b. (if b then escape d else d ∷ []) ++ escaped q) (sym h)

  -- The text behind the clean run, given the loop on what is behind the escape.
  rest_call-Gives :
      (fuel : ℕ) (p : Bytes) (left m : ℕ) (j : Json S)
      → ((d : ℕ) (q : Bytes) → p ≡ d ∷ q → needs_escape d ≡ true)
      → ((d : ℕ) (q : Bytes) (j' : Json S)
          → p ≡ d ∷ q
          → fits j'.sink (length (escaped q) + left) ≡ true
          → Gives (put_escaped_loop k fuel q) j' (escaped q) left)
      → m ≡ length (escaped p) + left
      → fits j.sink m ≡ true
      → Gives (rest_call fuel p) j (escaped p) left
  rest_call-Gives fuel [] left m j dirty ih e f =
      let same : m ≡ left = omega arith in Put.nothing_Gives laws j left (rw (← same) f)
  rest_call-Gives fuel (d ∷ q) left m j dirty ih e f =
      let split = escaped_cons d q (dirty d q refl) in
      Put.then_Gives laws (put k (escape d)) (put_escaped_loop k fuel q) j (escape d) (escaped q)
        (escaped (d ∷ q)) left (length (escaped q) + left) split
        (Put.put-Gives laws (escape d) (length (escaped q) + left) m j
          (omega (arith, ap length split, length-append (escape d) (escaped q))) f)
        (λ s f'. ih d q (record j { sink = s }) refl f')

  pub put_escaped_loop-Gives :
      (fuel : ℕ) (p : Bytes) (left m : ℕ) (j : Json S)
      → length p ≤ fuel
      → m ≡ length (escaped p) + left
      → fits j.sink m ≡ true
      → Gives (put_escaped_loop k fuel p) j (escaped p) left
  put_escaped_loop-Gives zero [] left m j h e f =
      let same : m ≡ left = omega arith in
      unfold put_escaped_loop in Put.nothing_Gives laws j left (rw (← same) f)
  put_escaped_loop-Gives (suc fuel) [] left m j h e f =
      let same : m ≡ left = omega arith in
      unfold put_escaped_loop in Put.nothing_Gives laws j left (rw (← same) f)
  put_escaped_loop-Gives zero (c ∷ p) left m j h e f = absurd (omega arith)
  put_escaped_loop-Gives (suc fuel) (c ∷ p) left m j h e f =
      let run = clean_run (c ∷ p) in
      let back = drop run (c ∷ p) in
      let more = length (escaped back) + left in
      let (s, eq, t) =
        Put.then_Gives laws (run_call run (c ∷ p)) (rest_call fuel back) j (take run (c ∷ p))
          (escaped back) (escaped (c ∷ p)) left more (escaped-clean_run (c ∷ p))
          (run_call-Gives run (c ∷ p) more m j (omega (arith, length-escaped_run (c ∷ p))) f)
          (λ s f'.
            rest_call-Gives fuel back left more (record j { sink = s })
              (λ d q. clean_run_end (c ∷ p) d q)
              (λ d q j' split f''.
                put_escaped_loop-Gives fuel q left (length (escaped q) + left) j'
                  (omega (arith, ap length split, length-drop run (c ∷ p))) refl f'')
              refl f') in
      (s, escaped_round fuel c p j ∙ eq, t)

  pub put_escaped-Writes : (p : Bytes) → Put.Writes laws (put_escaped k p) (escaped p)
  unfolding put_escaped
  put_escaped-Writes p left m j e f = put_escaped_loop-Gives (length p) p left m j (omega arith) e f
