-- ===== src/Json/Quote.antt =====
-- `put_string` of lib/json/json.c: the fast run and the pieces write the same text.
use libioma.Base.{
  ℕ, zero, suc, ◌+◌, ◌≤◌, Bool, true, not, ◌&&◌, [], ◌∷◌, ◌++◌, ◌≡◌, refl, sym, ap, ◌∙◌, arith,
  Bytes, length, length-append, append_assoc, Bool-cases, inl, inr, leb, ◌==◌, if◌then◌else◌,
}
use mathlib.Core.Path.{subst}
use libioma.Json.Sink.{Sink, SinkLaws}
use libioma.Json.Writer.{
  Json, Call, ◌>>◌, commit, put, put_escaped, put_string, comma_text, clean_run, run_max,
}
use libioma.Json.Put
use libioma.Json.Text.{quoted}
use libioma.Json.Text
use libioma.Json.Escape.{escaped, clean_run_all}

abbrev tail_text : ℕ → Bytes
tail_text after = if after == 0 then [] else after ∷ []

module _ {S : Type 0} {k : Sink S} (laws : SinkLaws k) where
  open laws use {fits}

  abbrev Gives : Call S → Json S → Bytes → ℕ → Type 0
  Gives = Put.Gives laws

  abbrev pieces : ℕ → Bytes → ℕ → Call S
  pieces comma p after =
      put k (comma_text comma)
      >> put k (b'"' ∷ [])
      >> put_escaped k p
      >> put k (b'"' ∷ [])
      >> put k (tail_text after)

  abbrev fast : ℕ → Bytes → ℕ → Json S → Bool
  fast comma p after j =
      let need = comma + length p + 2 + (if after == 0 then 0 else 1) in
      leb need run_max
      && clean_run p == length p
      && leb need (k.room j.sink)
      && not (k.failed j.sink)

  put_string_lem :
      (comma : ℕ) (p : Bytes) (after : ℕ) (j : Json S)
      → put_string k comma p after j ≡ (
          if fast comma p after j
          then (commit k j (comma_text comma ++ (b'"' ∷ (p ++ (b'"' ∷ tail_text after)))), true)
          else pieces comma p after j)
  unfolding put_string
  put_string_lem comma p after j = refl

  piece_text : ℕ → Bytes → ℕ → Bytes
  piece_text comma p after =
      (((comma_text comma ++ b'"' ∷ []) ++ escaped p) ++ b'"' ∷ []) ++ tail_text after

  quoted_pieces :
      (comma : ℕ) (p : Bytes) (after : ℕ) → piece_text comma p after ≡ quoted comma p after
  unfolding piece_text
  quoted_pieces comma p after = simp append_assoc

  pieces-Writes :
      (comma : ℕ) (p : Bytes) (after : ℕ)
      → Put.Writes laws (pieces comma p after) (quoted comma p after)
  unfolding piece_text
  pieces-Writes comma p after =
      subst (Put.Writes laws (pieces comma p after)) (quoted_pieces comma p after) (
        Put.then_Writes laws _ _ _ _
          (Put.then_Writes laws _ _ _ _
            (Put.then_Writes laws _ _ _ _
              (Put.then_Writes laws _ _ _ _ (Put.put-Writes laws (comma_text comma))
                (Put.put-Writes laws (b'"' ∷ [])))
              (Text.put_escaped-Writes laws p))
            (Put.put-Writes laws (b'"' ∷ [])))
          (Put.put-Writes laws (tail_text after)))

  length_quoted :
      (comma : ℕ) (p : Bytes) (after : ℕ)
      → comma ≤ 1
      → clean_run p ≡ length p
      → length (comma_text comma ++ (b'"' ∷ (p ++ (b'"' ∷ tail_text after))))
        ≡ comma + length p + 2 + (if after == 0 then 0 else 1)
  length_quoted zero p after h e = ground (arith, length-append p (b'"' ∷ tail_text after))
  length_quoted (suc zero) p after h e = ground (arith, length-append p (b'"' ∷ tail_text after))
  length_quoted (suc (suc comma)) p after h e = absurd (omega arith)

  -- A quoted text with the comma it owes and the byte behind it goes out whole, whichever way
  -- `put_string` takes.
  pub put_string-Writes :
      (comma : ℕ) (p : Bytes) (after : ℕ)
      → comma ≤ 1
      → Put.Writes laws (put_string k comma p after) (quoted comma p after)
  put_string-Writes comma p after h left m j e f = elim (Bool-cases (fast comma p after j)) [
    | inl quick ↦
        let clean : clean_run p ≡ length p = ground arith in
        let room : comma + length p + 2 + (if after == 0 then 0 else 1) ≤ k.room j.sink =
          ground arith in
        let same =
          ap (λ x. comma_text comma ++ (b'"' ∷ (x ++ (b'"' ∷ tail_text after))))
            (clean_run_all p clean) in
        (
          k.commit j.sink (quoted comma p after),
          put_string_lem comma p after j ∙ rw quick (ap (λ x. (commit k j x, true)) (sym same)),
          Put.commit_Takes laws j.sink (quoted comma p after) left m e f
              (omega (arith, room, ap length same, length_quoted comma p after h clean)),
        )
    | inr slow ↦ rw (put_string_lem, slow) (pieces-Writes comma p after left m j e f)
  ]
