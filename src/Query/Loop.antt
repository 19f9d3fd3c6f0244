-- ===== src/Query/Loop.antt =====
-- The whole of `ioxd_kv_parse`: what it stores, and when it warns.
use libioma.Base.{
  ℕ, zero, suc, ◌+◌, ◌≤◌, ◌<◌, Bool, true, false, List, [], ◌∷◌, ◌++◌, ◌≡◌, refl, ap, ◌∙◌, sym,
  arith, Bytes, length, length-append, ◌==◌, if◌then◌else◌, append-nil, append_assoc, Bool-cases,
  inl, inr,
}
use libioma.Slice.Items.{cut_shorter}
use libioma.Query.{Parsed, kv_loop, kv_parse}
use libioma.Query.Parse.{
  pair, add_pair, pairs, item, behind, after_item, Steps, kv_round, after_item-Steps, pairs-step,
  item-behind,
}

-- What a step does to the warning, to the pairs, and to the arena.
step_lost : (cap_ : ℕ) (i : Bytes) (p q : Parsed) → Steps cap_ i p q → p.lost ≡ true → q.lost ≡ true
step_lost cap_ [] p q e l = ap (λ x. x.lost) e ∙ l
step_lost cap_ (c ∷ s) p q (inl (e, room)) l = ap (λ x. x.lost) e
step_lost cap_ (c ∷ s) p q (inr (u, e, lt, fits)) l = ap (λ x. x.lost) e ∙ l

step_out :
    (cap_ : ℕ) (i : Bytes) (p q : Parsed) (ps : List (Bytes × Bytes))
    → Steps cap_ i p q
    → q.lost ≡ false
    → q.out ++ ps ≡ p.out ++ add_pair i ps
step_out cap_ [] p q ps e l = ap (λ x. x.out ++ ps) e
step_out cap_ (c ∷ s) p q ps (inl (e, room)) l = absurd (cc (ap (λ x. x.lost) e, l))
step_out cap_ (c ∷ s) p q ps (inr (u, e, lt, fits)) l =
    ap (λ x. x.out ++ ps) e ∙ append_assoc p.out (pair (c ∷ s) ∷ []) ps

step-Fits :
    (cap_ n : ℕ) (i : Bytes) (p q : Parsed)
    → Steps cap_ i p q
    → p.used ≤ cap_
    → length p.out < n
    → (q.used ≤ cap_) × (length q.out ≤ n)
step-Fits cap_ n [] p q e u l =
    (omega (arith, ap (λ x. x.used) e), omega (arith, ap (λ x. length x.out) e))
step-Fits cap_ n (c ∷ s) p q (inl (e, room)) u l =
    (omega (arith, ap (λ x. x.used) e), omega (arith, ap (λ x. length x.out) e))
step-Fits cap_ n (c ∷ s) p q (inr (v, e, lt, fits)) u l = (
  omega (arith, ap (λ x. x.used) e, fits u),
  omega (arith, ap (λ x. length x.out) e, length-append p.out (pair (c ∷ s) ∷ [])),
)

step_room :
    (cap_ rest : ℕ) (i : Bytes) (p q : Parsed)
    → Steps cap_ i p q
    → p.used + length i + rest ≤ cap_
    → (q.used + rest ≤ cap_) × (q.lost ≡ p.lost)
step_room cap_ rest [] p q e room = (omega (arith, ap (λ x. x.used) e), ap (λ x. x.lost) e)
step_room cap_ rest (c ∷ s) p q (inl (e, less)) room = absurd (omega arith)
step_room cap_ rest (c ∷ s) p q (inr (u, e, lt, fits)) room =
    (omega (arith, ap (λ x. x.used) e), ap (λ x. x.lost) e)

kv_loop-lost :
    (fuel cap_ arena_cap : ℕ) (s : Bytes) (p : Parsed)
    → p.lost ≡ true
    → (kv_loop fuel cap_ arena_cap s p).lost ≡ true
unfolding kv_loop
kv_loop-lost zero cap_ arena_cap s p l = l
kv_loop-lost (suc fuel) cap_ arena_cap [] p l = l
kv_loop-lost (suc fuel) cap_ arena_cap (c ∷ s) p l =
    rw (kv_round fuel cap_ arena_cap c s p) (elim (Bool-cases (length p.out == cap_)) [
      | inl e ↦ rw e refl
      | inr e ↦ rw e (
          kv_loop-lost fuel cap_ arena_cap (behind (c ∷ s)) (after_item arena_cap (c ∷ s) p) (
            step_lost arena_cap (item (c ∷ s)) p (after_item arena_cap (c ∷ s) p)
              (after_item-Steps arena_cap (c ∷ s) p) l))
    ])

not_lost :
    (fuel cap_ arena_cap : ℕ) (s : Bytes) (p : Parsed)
    → (kv_loop fuel cap_ arena_cap s p).lost ≡ false
    → p.lost ≡ false
not_lost fuel cap_ arena_cap s p l = elim (Bool-cases p.lost) [
  | inl e ↦ absurd (cc (kv_loop-lost fuel cap_ arena_cap s p e, l))
  | inr e ↦ e
]

kv_loop-pairs :
    (fuel cap_ arena_cap : ℕ) (s : Bytes) (p : Parsed)
    → length s ≤ fuel
    → (kv_loop fuel cap_ arena_cap s p).lost ≡ false
    → (kv_loop fuel cap_ arena_cap s p).out ≡ p.out ++ pairs s
unfolding kv_loop
kv_loop-pairs zero cap_ arena_cap [] p h l = sym (append-nil p.out)
kv_loop-pairs zero cap_ arena_cap (c ∷ s) p h l = absurd (omega arith)
kv_loop-pairs (suc fuel) cap_ arena_cap [] p h l = sym (append-nil p.out)
kv_loop-pairs (suc fuel) cap_ arena_cap (c ∷ s) p h l =
    ap (λ x. x.out) (kv_round fuel cap_ arena_cap c s p)
    ∙ (go (length p.out == cap_) (sym (ap (λ x. x.lost) (kv_round fuel cap_ arena_cap c s p)) ∙ l) (
          kv_loop-pairs fuel cap_ arena_cap (behind (c ∷ s)) q
            (omega (arith, cut_shorter c s b'&')))
        ∙ ap (λ x. p.out ++ x) (sym (pairs-step (c ∷ s))))
  where
    q : Parsed
    q = after_item arena_cap (c ∷ s) p

    next : Parsed
    next = kv_loop fuel cap_ arena_cap (behind (c ∷ s)) q

    go :
        (full : Bool)
        → (if full then record p { lost = true } else next).lost ≡ false
        → (next.lost ≡ false → next.out ≡ q.out ++ pairs (behind (c ∷ s)))
        → (if full then record p { lost = true } else next).out
          ≡ p.out ++ add_pair (item (c ∷ s)) (pairs (behind (c ∷ s)))
    go true l' ih = absurd cc
    go false l' ih =
        ih l'
        ∙ step_out arena_cap (item (c ∷ s)) p q (pairs (behind (c ∷ s)))
            (after_item-Steps arena_cap (c ∷ s) p)
            (not_lost fuel cap_ arena_cap (behind (c ∷ s)) q l')

-- When `ioxd_kv_parse` does not report truncation, what it stored are exactly the pairs of the text
-- in order: one for each part between `&`s that is not empty, cut at its first `=`, both sides
-- percent-decoded.
pub kv_parse-pairs :
    (text : Bytes) (cap_ arena_cap : ℕ)
    → (kv_parse text cap_ arena_cap).1 ≡ false
    → (kv_parse text cap_ arena_cap).0 ≡ pairs text
unfolding kv_parse
kv_parse-pairs text cap_ arena_cap l =
    kv_loop-pairs (length text) cap_ arena_cap text (record { out = []; used = 0; lost = false })
      (omega arith) l

length-add_pair :
    (i : Bytes) (ps : List (Bytes × Bytes)) (p q : Parsed) (cap_ : ℕ)
    → Steps cap_ i p q
    → length q.out + length ps ≤ length p.out + length (add_pair i ps)
length-add_pair [] ps p q cap_ e = omega (arith, ap (λ x. length x.out) e)
length-add_pair (c ∷ s) ps p q cap_ (inl (e, room)) = omega (arith, ap (λ x. length x.out) e)
length-add_pair (c ∷ s) ps p q cap_ (inr (u, e, lt, fits)) =
    omega (arith, ap (λ x. length x.out) e, length-append p.out (pair (c ∷ s) ∷ []))

kv_loop_enough :
    (fuel cap_ arena_cap : ℕ) (s : Bytes) (p : Parsed)
    → length p.out + length (pairs s) < cap_
    → p.used + length s ≤ arena_cap
    → (kv_loop fuel cap_ arena_cap s p).lost ≡ p.lost
unfolding kv_loop
kv_loop_enough zero cap_ arena_cap s p few room = refl
kv_loop_enough (suc fuel) cap_ arena_cap [] p few room = refl
kv_loop_enough (suc fuel) cap_ arena_cap (c ∷ s) p few room =
    let i = item (c ∷ s) in
    let t = behind (c ∷ s) in
    let q = after_item arena_cap (c ∷ s) p in
    let steps = after_item-Steps arena_cap (c ∷ s) p in
    let (room', same) =
      step_room arena_cap (length t) i p q steps (omega (arith, item-behind (c ∷ s))) in
    let below = length-add_pair i (pairs t) p q arena_cap steps in
    let split = ap length (pairs-step (c ∷ s)) in
    let rest = kv_loop_enough fuel cap_ arena_cap t q (omega arith) room' in
    ap (λ x. x.lost) (kv_round fuel cap_ arena_cap c s p) ∙ ground (arith, rest, same)

-- With an array that holds more pairs than the text has and an arena as long as the text,
-- `ioxd_kv_parse` stores exactly the pairs of the text and reports no truncation.
pub kv_parse_enough :
    (text : Bytes) (cap_ arena_cap : ℕ)
    → length (pairs text) < cap_
    → length text ≤ arena_cap
    → kv_parse text cap_ arena_cap ≡ (pairs text, false)
unfolding kv_parse
kv_parse_enough text cap_ arena_cap few room =
    go (kv_parse-pairs text cap_ arena_cap no_loss) no_loss
  where
    no_loss : (kv_parse text cap_ arena_cap).1 ≡ false
    no_loss =
        kv_loop_enough (length text) cap_ arena_cap text
          (record { out = []; used = 0; lost = false }) (omega arith) (omega arith)

    go :
        {a b : List (Bytes × Bytes)} {c d : Bool}
        → a ≡ b
        → c ≡ d
        → ◌≡◌ {A = List (Bytes × Bytes) × Bool} (a, c) (b, d)
    go e f = rw (e, f) refl

-- The parser never stores more pairs than the array holds, nor more decoded bytes than the arena.
pub kv_loop-Fits :
    (fuel cap_ arena_cap : ℕ) (s : Bytes) (p : Parsed)
    → length p.out ≤ cap_
    → p.used ≤ arena_cap
    → (length (kv_loop fuel cap_ arena_cap s p).out ≤ cap_)
      × ((kv_loop fuel cap_ arena_cap s p).used ≤ arena_cap)
unfolding kv_loop
kv_loop-Fits zero cap_ arena_cap s p l u = (l, u)
kv_loop-Fits (suc fuel) cap_ arena_cap [] p l u = (l, u)
kv_loop-Fits (suc fuel) cap_ arena_cap (c ∷ s) p l u =
    rw (kv_round fuel cap_ arena_cap c s p) (elim (Bool-cases (length p.out == cap_)) [
      | inl e ↦ rw e (l, u)
      | inr e ↦ rw e (
          let fit =
            step-Fits arena_cap cap_ (item (c ∷ s)) p (after_item arena_cap (c ∷ s) p)
              (after_item-Steps arena_cap (c ∷ s) p) u (ground arith) in
          kv_loop-Fits fuel cap_ arena_cap (behind (c ∷ s)) (after_item arena_cap (c ∷ s) p) fit.1
            fit.0)
    ])
