-- ===== src/Engine/Coded.antt =====
-- What is picked of Transfer-Encoding (lib/http/engine.c) follows from those headers alone.
use libioma.Base.{
  ℕ, ◌+◌, Bool, true, false, not, ◌&&◌, Option, none, some, List, [], ◌∷◌, ◌++◌, ◌≡◌, ◌≢◌, refl,
  sym, ap, ◌∙◌, inl, inr, arith, Bytes, codes, leb, bytes_eq, bytes_eq_iff, if◌then◌else◌,
  Bool-cases, append-nil, append_assoc,
}
use libioma.Engine.Coding.{
  values_of, values_of-cons, Te, refusing, absent, chunked, other, pick_transfer_encoding-Te,
}
use libioma.Engine.Token.{eq_ci}
use libioma.Engine.Lower.{lower_inplace}
use mathlib.Core.Path.{subst}
use libioma.Engine.Pick.{
  Header, Picked, pick_transfer_encoding, pick_content_length, pick_connection, pick_expect,
  pick_named, pick_header, pick_loop,
}

-- The other headers leave the flags of Transfer-Encoding alone, and refuse at most.
abbrev pub te_flags : Picked → ℕ × Bool × Bool
te_flags p = (p.n_transfer_enc, p.te_last_chunked, p.te_other)

pub Te-same :
    (vs : List Bytes) (p q : Picked)
    → te_flags q ≡ te_flags p
    → (p.refuse ≢ 0 → q.refuse ≢ 0)
    → Te vs p
    → Te vs q
Te-same vs p q e f (refusing h) = refusing (f h)
Te-same vs p q e f (absent none_ n last clean) =
    absent none_ (ap (λ k. k.0) e ∙ n) (ap (λ k. k.1) e ∙ last) (ap (λ k. k.2) e ∙ clean)
Te-same vs p q e f (chunked v one ok n last clean) =
    chunked v one ok (omega (arith, ap (λ k. k.0) e)) (ap (λ k. k.1) e ∙ last)
      (ap (λ k. k.2) e ∙ clean)
Te-same vs p q e f (other some_ bad n dirty) =
    other some_ bad (omega (arith, ap (λ k. k.0) e)) (ap (λ k. k.2) e ∙ dirty)

-- The four names besides, and all others.
pub not_te :
    (P : Picked → Type 0) (name v : Bytes) (p : Picked)
    → bytes_eq name (codes "transfer-encoding") ≡ false
    → P (record p { n_host = p.n_host + 1 })
    → P (pick_expect v p)
    → P (pick_connection v p)
    → P (pick_content_length v p)
    → P p
    → P (pick_named name v p)
unfolding pick_named
not_te P name v p e host expect connection length_ rest =
    go (bytes_eq name (codes "host")) (bytes_eq name (codes "expect"))
      (bytes_eq name (codes "connection")) (bytes_eq name (codes "content-length"))
      (bytes_eq name (codes "transfer-encoding")) e
  where
    go :
        (a b c d f : Bool)
        → f ≡ false
        → P (
            if a
            then record p { n_host = p.n_host + 1 }
            else if b
            then pick_expect v p
            else if c
            then pick_connection v p
            else if d
            then pick_content_length v p
            else if f
            then pick_transfer_encoding v p
            else p)
    go true b c d f e = host
    go false true c d f e = expect
    go false false true d f e = connection
    go false false false true f e = length_
    go false false false false false e = rest
    go false false false false true e = absurd (cc e)

-- The flags are as they were, and what refused refuses.
abbrev pub Quiet : Picked → Picked → Type 0
Quiet p q = (te_flags q ≡ te_flags p) × (p.refuse ≢ 0 → q.refuse ≢ 0)

pub pick_expect-Quiet : (v : Bytes) (p : Picked) → Quiet p (pick_expect v p)
unfolding pick_expect
pick_expect-Quiet v p = elim (Bool-cases (eq_ci v (codes "100-continue"))) [
  | inl e ↦ rw e (refl, λ h. h)
  | inr e ↦ rw e (refl, λ h z. absurd (omega (arith, z)))
]

pub pick_connection-Quiet : (v : Bytes) (p : Picked) → Quiet p (pick_connection v p)
unfolding pick_connection
pick_connection-Quiet v p = (refl, λ h. h)

pub pick_content_length-Quiet : (v : Bytes) (p : Picked) → Quiet p (pick_content_length v p)
unfolding pick_content_length
pick_content_length-Quiet v p =
    elim (Bool-cases (leb 1 p.n_content_length && not (bytes_eq v p.content_length))) [
      | inl e ↦ rw e (refl, λ h z. absurd (omega (arith, z)))
      | inr e ↦ rw e (refl, λ h. h)
    ]

pub pick_named-Quiet :
    (name v : Bytes) (p : Picked)
    → bytes_eq name (codes "transfer-encoding") ≡ false
    → Quiet p (pick_named name v p)
pick_named-Quiet name v p e =
    not_te (Quiet p) name v p e (refl, λ h. h) (pick_expect-Quiet v p) (pick_connection-Quiet v p)
      (pick_content_length-Quiet v p) (refl, λ h. h)

pub pick_named-te :
    (name v : Bytes) (p : Picked)
    → bytes_eq name (codes "transfer-encoding") ≡ true
    → pick_named name v p ≡ pick_transfer_encoding v p
unfolding pick_named
pick_named-te name v p e =
    subst (λ n. pick_named n v p ≡ pick_transfer_encoding v p)
      (sym ((bytes_eq_iff name (codes "transfer-encoding")).0 e)) refl

pub pick_named-Te :
    (ts : List Bytes) (name v : Bytes) (p : Picked) (b : Bool)
    → bytes_eq name (codes "transfer-encoding") ≡ b
    → Te ts p
    → Te (ts ++ (if b then v ∷ [] else [])) (pick_named name v p)
pick_named-Te ts name v p true e te =
    subst (Te (ts ++ v ∷ [])) (sym (pick_named-te name v p e)) (pick_transfer_encoding-Te ts v p te)
pick_named-Te ts name v p false e te =
    subst (λ w. Te w (pick_named name v p)) (sym (append-nil ts))
      (Te-same ts p (pick_named name v p) (pick_named-Quiet name v p e).0
        (pick_named-Quiet name v p e).1 te)

-- One header, and the value it adds if it is a Transfer-Encoding.
pub pick_header-Te :
    (ts : List Bytes) (h : Header) (p : Picked)
    → Te ts p
    → Te (ts ++ values_of (codes "transfer-encoding") (h ∷ [])) (pick_header h p)
unfolding pick_header values_of
pick_header-Te ts h p te = go h.name
  where
    go :
        (o : Option Bytes)
        → Te
            (ts ++ (elim o [
              | none ↦ []
              | some name ↦
                  if bytes_eq (lower_inplace name) (codes "transfer-encoding")
                  then h.value ∷ []
                  else []
            ]))
            (elim o [
              | none ↦ record p { refuse = 400 }
              | some name ↦ pick_named (lower_inplace name) h.value p
            ])
    go none = refusing (λ z. absurd (omega (arith, z)))
    go (some name) =
        pick_named-Te ts (lower_inplace name) h.value p
          (bytes_eq (lower_inplace name) (codes "transfer-encoding")) refl te

pub pick_loop-Te :
    (hs : List Header) (ts : List Bytes) (p : Picked)
    → Te ts p
    → Te (ts ++ values_of (codes "transfer-encoding") hs) (pick_loop hs p)
unfolding pick_loop values_of
pick_loop-Te [] ts p te = subst (λ w. Te w p) (sym (append-nil ts)) te
pick_loop-Te (h ∷ hs) ts p te =
    subst (λ w. Te w (pick_loop hs (pick_header h p)))
      (append_assoc ts (values_of (codes "transfer-encoding") (h ∷ []))
          (values_of (codes "transfer-encoding") hs)
        ∙ ap (λ w. ts ++ w) (sym (values_of-cons (codes "transfer-encoding") h hs)))
      (pick_loop-Te hs (ts ++ values_of (codes "transfer-encoding") (h ∷ [])) (pick_header h p)
        (pick_header-Te ts h p te))
