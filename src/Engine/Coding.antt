-- ===== src/Engine/Coding.antt =====
-- What Transfer-Encoding headers leave in the two flags of `pick_transfer_encoding`, lib/http/engine.c.
use libioma.Base.{
  ℕ, zero, suc, ◌+◌, ◌≤◌, Bool, true, false, ◌&&◌, ◌||◌, Option, none, some, List, [], ◌∷◌, ◌++◌,
  ◌≡◌, ◌≢◌, refl, sym, ap, ◌∙◌, ◌⊎◌, inl, inr, arith, Bytes, codes, length, bytes_eq, if◌then◌else◌,
  Bool-cases,
}
use libioma.Engine.Token.{next_token, tokens, tokens_loop, eq_ci}
use libioma.Engine.Lower.{lower_inplace}
use mathlib.Core.Path.{subst}
use libioma.Engine.Pick.{
  count_te, Header, Picked, pick_coding, is_none, codings_loop, pick_transfer_encoding,
}

-- The values of the headers of a name, in order.
unfoldable pub values_of : Bytes → List Header → List Bytes
unfolding bytes_eq
values_of n [] = []
values_of n (h ∷ hs) = elim h.name [
  | none ↦ values_of n hs
  | some name ↦ if bytes_eq (lower_inplace name) n then h.value ∷ values_of n hs else values_of n hs
]

pub values_of-cons :
    (n : Bytes) (h : Header) (hs : List Header)
    → values_of n (h ∷ hs) ≡ values_of n (h ∷ []) ++ values_of n hs
unfolding values_of
values_of-cons n h hs = ground arith

-- A Transfer-Encoding whose only coding is chunked.
abbrev pub IsChunked : Bytes → Type 0
IsChunked v = (t : Bytes) × (tokens v ≡ t ∷ []) × (eq_ci t (codes "chunked") ≡ true)

-- What is picked besides the two flags of a Transfer-Encoding.
abbrev pub Kept : Type 0
Kept = Bytes × ℕ × ℕ × ℕ × Bool × Bool × Bool × ℕ

abbrev pub kept : Picked → Kept
kept p = (
  p.content_length, p.n_content_length, p.n_transfer_enc, p.n_host, p.close, p.keep_alive,
  p.expect_continue, p.refuse,
)

kept-pick_coding : (tok : Bytes) (last : Bool) (p : Picked) → kept (pick_coding tok last p) ≡ kept p
unfolding pick_coding
kept-pick_coding tok last p = elim (Bool-cases (last && eq_ci tok (codes "chunked"))) [
  | inl e ↦ rw e
  | inr e ↦ rw e
]

pub kept-codings_loop : (fuel : ℕ) (s : Bytes) (p : Picked) → kept (codings_loop fuel s p) ≡ kept p
unfolding codings_loop
kept-codings_loop zero s p = refl
kept-codings_loop (suc fuel) s p =
    go (next_token s)
      (λ tok rest. kept-codings_loop fuel rest (pick_coding tok (is_none (next_token rest)) p))
  where
    go :
        (o : Option (Bytes × Bytes))
        → ((tok rest : Bytes)
            → kept (codings_loop fuel rest (pick_coding tok (is_none (next_token rest)) p))
              ≡ kept (pick_coding tok (is_none (next_token rest)) p))
        → kept (elim o [
          | none ↦ p
          | some (tok, rest) ↦
              codings_loop fuel rest (pick_coding tok (is_none (next_token rest)) p)
        ])
          ≡ kept p
    go none ih = refl
    go (some (tok, rest)) ih = ih tok rest ∙ kept-pick_coding tok (is_none (next_token rest)) p

other-pick_coding :
    (tok : Bytes) (last : Bool) (p : Picked)
    → p.te_other ≡ true
    → (pick_coding tok last p).te_other ≡ true
unfolding pick_coding
other-pick_coding tok last p h = ground arith

abbrev HasOther : Picked → Type 0
HasOther p = p.te_other ≡ true

-- Another coding than chunked is not forgotten.
other-codings_loop :
    (fuel : ℕ) (s : Bytes) (p : Picked)
    → p.te_other ≡ true
    → (codings_loop fuel s p).te_other ≡ true
unfolding codings_loop
other-codings_loop zero s p h = h
other-codings_loop (suc fuel) s p h = go (next_token s) (λ tok rest.
    other-codings_loop fuel rest (pick_coding tok (is_none (next_token rest)) p)
      (other-pick_coding tok (is_none (next_token rest)) p h))
  where
    go :
        (o : Option (Bytes × Bytes))
        → ((tok rest : Bytes)
            → (codings_loop fuel rest (pick_coding tok (is_none (next_token rest)) p)).te_other
              ≡ true)
        → HasOther (elim o [
          | none ↦ p
          | some (tok, rest) ↦
              codings_loop fuel rest (pick_coding tok (is_none (next_token rest)) p)
        ])
    go none ih = h
    go (some (tok, rest)) ih = ih tok rest

-- What one header does to the flags of an empty start: it has no coding, or the only one is chunked,
-- or there is another.
Codes : Bytes → Picked → Type 0
Codes v q =
    (is_none (next_token v) ≡ true)
    ⊎ (((is_none (next_token v) ≡ false)
          × IsChunked v
          × (q.te_last_chunked ≡ true)
          × (q.te_other ≡ false))
        ⊎ ((is_none (next_token v) ≡ false) × (q.te_other ≡ true) × (IsChunked v → ⊥)))

tokens-none : (fuel : ℕ) (s : Bytes) → next_token s ≡ none → tokens_loop fuel s ≡ []
unfolding tokens_loop
tokens-none zero s e = refl
tokens-none (suc fuel) s e = rw (e, tokens_loop) refl

tokens-some :
    (fuel : ℕ) (s tok rest : Bytes)
    → next_token s ≡ some (tok, rest)
    → tokens_loop (suc fuel) s ≡ tok ∷ tokens_loop fuel rest
unfolding tokens_loop
tokens-some fuel s tok rest e = rw (e, tokens_loop) refl

codings-none : (fuel : ℕ) (s : Bytes) (p : Picked) → next_token s ≡ none → codings_loop fuel s p ≡ p
unfolding codings_loop
codings-none zero s p e = refl
codings-none (suc fuel) s p e = rw (e, codings_loop) refl

codings-some :
    (fuel : ℕ) (s tok rest : Bytes) (p : Picked)
    → next_token s ≡ some (tok, rest)
    → codings_loop (suc fuel) s p
      ≡ codings_loop fuel rest (pick_coding tok (is_none (next_token rest)) p)
unfolding codings_loop
codings-some fuel s tok rest p e = rw (e, codings_loop) refl

next_token-nil : next_token [] ≡ none
unfolding next_token
next_token-nil = refl

one_coding :
    (v tok rest : Bytes) (p : Picked)
    → next_token v ≡ some (tok, rest)
    → next_token rest ≡ none
    → p.te_other ≡ false
    → Codes v (codings_loop (suc (length v)) v p)
unfolding Codes tokens pick_coding
one_coding v tok rest p e last clean =
    rw
      (
        codings-some (length v) v tok rest p e,
        codings-none (length v) rest (pick_coding tok (is_none (next_token rest)) p) last,
      )
      (rw last (elim (Bool-cases (eq_ci tok (codes "chunked"))) [
        | inl ok ↦ inr (
            inl (
              rw e refl,
              (
                tok,
                tokens-some (length v) v tok rest e
                    ∙ ap (◌∷◌ tok) (tokens-none (length v) rest last),
                ok,
              ),
              rw ok refl,
              rw ok clean,
            ))
        | inr bad ↦ inr (
            inr (
              rw e refl,
              rw bad refl,
              λ (t, all_, ok). absurd (cc (all_, tokens-some (length v) v tok rest e, ok, bad)),
            ))
      ]))

some_other :
    (v tok rest tok' rest' : Bytes) (p : Picked)
    → next_token v ≡ some (tok, rest)
    → next_token rest ≡ some (tok', rest')
    → Codes v (codings_loop (suc (length v)) v p)
unfolding Codes tokens pick_coding
some_other [] tok rest tok' rest' p e more = absurd (cc (e, next_token-nil))
some_other (c ∷ v) tok rest tok' rest' p e more = inr (
    inr (
      rw e refl,
      ap (λ q. q.te_other) (codings-some (length (c ∷ v)) (c ∷ v) tok rest p e)
          ∙ other-codings_loop (length (c ∷ v)) rest (pick_coding tok (is_none (next_token rest)) p)
              (ap (λ o. (pick_coding tok (is_none o) p).te_other) more),
      λ (t, all_, ok). absurd (cc (all_, tokens-some (length (c ∷ v)) (c ∷ v) tok rest e)),
    ))

codings_loop-Codes :
    (v : Bytes) (p : Picked) → p.te_other ≡ false → Codes v (codings_loop (suc (length v)) v p)
unfolding Codes
codings_loop-Codes v p clean = go (next_token v) refl
  where
    second :
        (tok rest : Bytes) (o : Option (Bytes × Bytes))
        → next_token v ≡ some (tok, rest)
        → next_token rest ≡ o
        → Codes v (codings_loop (suc (length v)) v p)
    second tok rest none e last = one_coding v tok rest p e last clean
    second tok rest (some (tok', rest')) e more = some_other v tok rest tok' rest' p e more

    go :
        (o : Option (Bytes × Bytes))
        → next_token v ≡ o
        → Codes v (codings_loop (suc (length v)) v p)
    go none e = inl (rw e refl)
    go (some (tok, rest)) e = second tok rest (next_token rest) e refl

-- What the flags say of the Transfer-Encoding headers that were read, unless the head is refused:
-- there was none; or one, and its only coding is chunked; or they are something else.
pub data Te (vs : List Bytes) (p : Picked) : Type 0 where
  refusing : p.refuse ≢ 0 → Te vs p
  absent : vs ≡ [] → p.n_transfer_enc ≡ 0 → p.te_last_chunked ≡ false → p.te_other ≡ false → Te vs p
  chunked :
      (v : Bytes)
      → vs ≡ v ∷ []
      → IsChunked v
      → 1 ≤ p.n_transfer_enc
      → p.te_last_chunked ≡ true
      → p.te_other ≡ false
      → Te vs p
  other :
      vs ≢ []
      → ((v : Bytes) → vs ≡ v ∷ [] → IsChunked v → ⊥)
      → 1 ≤ p.n_transfer_enc
      → p.te_other ≡ true
      → Te vs p

pub append-ne-nil : (vs : List Bytes) (v : Bytes) → vs ++ v ∷ [] ≢ []
append-ne-nil [] v e = absurd (cc e)
append-ne-nil (w ∷ vs) v e = absurd (cc e)

two-ne-one : (vs : List Bytes) (v x : Bytes) → vs ≢ [] → vs ++ v ∷ [] ≢ x ∷ []
two-ne-one [] v x h e = h refl
two-ne-one (w ∷ []) v x h e = absurd (omega (arith, ap length e))
two-ne-one (w ∷ u ∷ vs) v x h e = absurd (omega (arith, ap length e))

append-one : (vs : List Bytes) (v x : Bytes) → vs ≡ [] → vs ++ v ∷ [] ≡ x ∷ [] → v ≡ x
append-one vs v x e f = cc (ap (λ w. w ++ v ∷ []) e, f)

-- The flags behind one header, from the counted start.
module _ (vs : List Bytes) (v : Bytes) (p : Picked) where
  counted : Picked
  counted = codings_loop (suc (length v)) v (count_te p)

  counted-n : counted.n_transfer_enc ≡ p.n_transfer_enc + 1
  unfolding counted count_te
  counted-n = ap (λ k. k.2) (kept-codings_loop (suc (length v)) v (count_te p))

  counted-refuse : counted.refuse ≡ p.refuse
  unfolding counted count_te
  counted-refuse = ap (λ k. k.7) (kept-codings_loop (suc (length v)) v (count_te p))

  counted-other : (p.te_last_chunked || p.te_other) ≡ true → counted.te_other ≡ true
  unfolding counted count_te
  counted-other h = other-codings_loop (suc (length v)) v (count_te p) h

  counted-Codes : (p.te_last_chunked || p.te_other) ≡ false → Codes v counted
  unfolding counted count_te
  counted-Codes h = codings_loop-Codes v (count_te p) h

  counted-Te : is_none (next_token v) ≡ false → Te vs p → Te (vs ++ v ∷ []) counted
  unfolding Codes
  counted-Te e (refusing h) = refusing (λ z. h (sym counted-refuse ∙ z))
  counted-Te e (absent none_ n last clean) = elim (counted-Codes (ground arith)) [
    | inl bad ↦ absurd (cc (bad, e))
    | inr (inl (some_, ok, l, o)) ↦
        chunked v (ap (λ w. w ++ v ∷ []) none_) ok (omega (arith, counted-n)) l o
    | inr (inr (some_, o, bad)) ↦
        other (append-ne-nil vs v)
          (λ x f ok. bad (subst IsChunked (sym (append-one vs v x none_ f)) ok))
          (omega (arith, counted-n)) o
  ]
  counted-Te e (chunked w one ok n last clean) =
      other (append-ne-nil vs v) (λ x f ok'. two-ne-one vs v x (λ z. absurd (cc (z, one))) f)
        (omega (arith, counted-n)) (counted-other (ground arith))
  counted-Te e (other some_ bad n dirty) =
      other (append-ne-nil vs v) (λ x f ok'. two-ne-one vs v x some_ f) (omega (arith, counted-n))
        (counted-other (ground arith))

  pub pick_transfer_encoding-Te : Te vs p → Te (vs ++ v ∷ []) (pick_transfer_encoding v p)
  unfolding pick_transfer_encoding counted
  pick_transfer_encoding-Te h = elim (Bool-cases (is_none (next_token v))) [
    | inl e ↦ rw e (refusing (λ z. absurd (omega (arith, z))))
    | inr e ↦ rw e (counted-Te e h)
  ]
