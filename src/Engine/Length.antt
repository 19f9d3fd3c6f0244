-- ===== src/Engine/Length.antt =====
-- What Content-Length headers leave in what is picked by lib/http/engine.c.
use libioma.Base.{
  suc, ◌+◌, ◌≤◌, Bool, true, false, not, ◌&&◌, Option, none, some, List, [], ◌∷◌, ◌++◌, ◌≡◌, ◌≢◌,
  refl, sym, ap, ◌∙◌, inl, inr, arith, Bytes, codes, length, All, leb, bytes_eq, bytes_eq_iff,
  if◌then◌else◌, Bool-cases, append-nil, append_assoc,
}
use libioma.Engine.Coding.{values_of, values_of-cons, kept-codings_loop, append-ne-nil}
use libioma.Engine.Token.{next_token, eq_ci}
use libioma.Engine.Lower.{lower_inplace}
use mathlib.Core.Path.{subst}
use libioma.Engine.Pick.{
  count_te, Header, Picked, is_none, pick_transfer_encoding, pick_content_length, pick_connection,
  pick_expect, pick_named, pick_header, pick_loop,
}

-- What is known of the Content-Length headers that were read, unless the head is refused: there was
-- none; or all have one value.
pub data Cl (vs : List Bytes) (p : Picked) : Type 0 where
  refusing : p.refuse ≢ 0 → Cl vs p
  absent : vs ≡ [] → p.n_content_length ≡ 0 → Cl vs p
  given : vs ≢ [] → All (λ x. x ≡ p.content_length) vs → 1 ≤ p.n_content_length → Cl vs p

All-snoc :
    (vs : List Bytes) (v w : Bytes) → All (λ x. x ≡ w) vs → v ≡ w → All (λ x. x ≡ w) (vs ++ v ∷ [])
All-snoc [] v w a e = (e, tt)
All-snoc (x ∷ vs) v w (b, a) e = (b, All-snoc vs v w a e)

pick_content_length-Cl :
    (vs : List Bytes) (v : Bytes) (p : Picked)
    → Cl vs p
    → Cl (vs ++ v ∷ []) (pick_content_length v p)
unfolding pick_content_length
pick_content_length-Cl vs v p (refusing h) =
    elim (Bool-cases (leb 1 p.n_content_length && not (bytes_eq v p.content_length))) [
      | inl e ↦ rw e (refusing (λ z. absurd (omega (arith, z))))
      | inr e ↦ rw e (refusing h)
    ]
pick_content_length-Cl vs v p (absent none_ n) =
    elim (Bool-cases (leb 1 p.n_content_length && not (bytes_eq v p.content_length))) [
      | inl e ↦ rw e (refusing (λ z. absurd (omega (arith, z))))
      | inr e ↦ rw e (
          given (append-ne-nil vs v)
            (subst (λ ws. All (λ x. x ≡ v) (ws ++ v ∷ [])) (sym none_) (refl, tt)) (omega arith))
    ]
pick_content_length-Cl vs v p (given some_ same n) =
    elim (Bool-cases (leb 1 p.n_content_length && not (bytes_eq v p.content_length))) [
      | inl e ↦ rw e (refusing (λ z. absurd (omega (arith, z))))
      | inr e ↦ rw e (
          given (append-ne-nil vs v)
            (subst (λ w. All (λ x. x ≡ w) (vs ++ v ∷ [])) (sym (equal e))
              (All-snoc vs v p.content_length same (equal e)))
            (omega arith))
    ]
  where
    equal :
        (leb 1 p.n_content_length && not (bytes_eq v p.content_length)) ≡ false
        → v ≡ p.content_length
    equal e = (bytes_eq_iff v p.content_length).0 (ground arith)

-- The other headers leave the length and its count alone, and refuse at most.
abbrev Still : Picked → Picked → Type 0
Still p q =
    (q.n_content_length ≡ p.n_content_length)
    × (q.content_length ≡ p.content_length)
    × (p.refuse ≢ 0 → q.refuse ≢ 0)

Cl-same : (vs : List Bytes) (p q : Picked) → Still p q → Cl vs p → Cl vs q
Cl-same vs p q (n, c, f) (refusing h) = refusing (f h)
Cl-same vs p q (n, c, f) (absent none_ k) = absent none_ (n ∙ k)
Cl-same vs p q (n, c, f) (given some_ same k) =
    given some_ (subst (λ w. All (λ x. x ≡ w) vs) (sym c) same) (omega arith)

not_length :
    (P : Picked → Type 0) (name v : Bytes) (p : Picked)
    → bytes_eq name (codes "content-length") ≡ false
    → P (record p { n_host = p.n_host + 1 })
    → P (pick_expect v p)
    → P (pick_connection v p)
    → P (pick_transfer_encoding v p)
    → P p
    → P (pick_named name v p)
unfolding pick_named
not_length P name v p e host expect connection te rest =
    go (bytes_eq name (codes "host")) (bytes_eq name (codes "expect"))
      (bytes_eq name (codes "connection")) (bytes_eq name (codes "content-length"))
      (bytes_eq name (codes "transfer-encoding")) e
  where
    go :
        (a b c d f : Bool)
        → d ≡ false
        → P (
            if a
            then record p { n_host = p.n_host + 1 }
            else if b
            then pick_expect v p
            else if c
            then pick_connection v p
            else if d
            then pick_content_length v p
            else if f
            then pick_transfer_encoding v p
            else p)
    go true b c d f e = host
    go false true c d f e = expect
    go false false true d f e = connection
    go false false false true f e = absurd (cc e)
    go false false false false true e = te
    go false false false false false e = rest

pick_expect-Still : (v : Bytes) (p : Picked) → Still p (pick_expect v p)
unfolding pick_expect
pick_expect-Still v p = elim (Bool-cases (eq_ci v (codes "100-continue"))) [
  | inl e ↦ rw e (refl, refl, λ h. h)
  | inr e ↦ rw e (refl, refl, λ h z. absurd (omega (arith, z)))
]

pick_connection-Still : (v : Bytes) (p : Picked) → Still p (pick_connection v p)
unfolding pick_connection
pick_connection-Still v p = (refl, refl, λ h. h)

pick_transfer_encoding-Still : (v : Bytes) (p : Picked) → Still p (pick_transfer_encoding v p)
unfolding pick_transfer_encoding count_te
pick_transfer_encoding-Still v p =
    let same = kept-codings_loop (suc (length v)) v (count_te p) in
    elim (Bool-cases (is_none (next_token v))) [
      | inl e ↦ rw e (ap (λ k. k.1) same, ap (λ k. k.0) same, λ h z. absurd (omega (arith, z)))
      | inr e ↦
          rw e (ap (λ k. k.1) same, ap (λ k. k.0) same, λ h z. h (sym (ap (λ k. k.7) same) ∙ z))
    ]

pick_named-length :
    (name v : Bytes) (p : Picked)
    → bytes_eq name (codes "content-length") ≡ true
    → pick_named name v p ≡ pick_content_length v p
unfolding pick_named
pick_named-length name v p e =
    subst (λ n. pick_named n v p ≡ pick_content_length v p)
      (sym ((bytes_eq_iff name (codes "content-length")).0 e)) refl

pick_named-Cl :
    (ts : List Bytes) (name v : Bytes) (p : Picked) (b : Bool)
    → bytes_eq name (codes "content-length") ≡ b
    → Cl ts p
    → Cl (ts ++ (if b then v ∷ [] else [])) (pick_named name v p)
pick_named-Cl ts name v p true e cl =
    subst (Cl (ts ++ v ∷ [])) (sym (pick_named-length name v p e))
      (pick_content_length-Cl ts v p cl)
pick_named-Cl ts name v p false e cl =
    subst (λ w. Cl w (pick_named name v p)) (sym (append-nil ts))
      (Cl-same ts p (pick_named name v p)
        (not_length (Still p) name v p e (refl, refl, λ h. h) (pick_expect-Still v p)
          (pick_connection-Still v p) (pick_transfer_encoding-Still v p) (refl, refl, λ h. h))
        cl)

-- One header, and the value it adds if it is a Content-Length.
pick_header-Cl :
    (ts : List Bytes) (h : Header) (p : Picked)
    → Cl ts p
    → Cl (ts ++ values_of (codes "content-length") (h ∷ [])) (pick_header h p)
unfolding pick_header values_of
pick_header-Cl ts h p cl = go h.name
  where
    go :
        (o : Option Bytes)
        → Cl
            (ts ++ (elim o [
              | none ↦ []
              | some name ↦
                  if bytes_eq (lower_inplace name) (codes "content-length")
                  then h.value ∷ []
                  else []
            ]))
            (elim o [
              | none ↦ record p { refuse = 400 }
              | some name ↦ pick_named (lower_inplace name) h.value p
            ])
    go none = refusing (λ z. absurd (omega (arith, z)))
    go (some name) =
        pick_named-Cl ts (lower_inplace name) h.value p
          (bytes_eq (lower_inplace name) (codes "content-length")) refl cl

pub pick_loop-Cl :
    (hs : List Header) (ts : List Bytes) (p : Picked)
    → Cl ts p
    → Cl (ts ++ values_of (codes "content-length") hs) (pick_loop hs p)
unfolding pick_loop values_of
pick_loop-Cl [] ts p cl = subst (λ w. Cl w p) (sym (append-nil ts)) cl
pick_loop-Cl (h ∷ hs) ts p cl =
    subst (λ w. Cl w (pick_loop hs (pick_header h p)))
      (append_assoc ts (values_of (codes "content-length") (h ∷ []))
          (values_of (codes "content-length") hs)
        ∙ ap (λ w. ts ++ w) (sym (values_of-cons (codes "content-length") h hs)))
      (pick_loop-Cl hs (ts ++ values_of (codes "content-length") (h ∷ [])) (pick_header h p)
        (pick_header-Cl ts h p cl))
