-- ===== src/Engine/Framing.antt =====
-- How the headers decide the framing of a request's body.
use libioma.Base.{
  ℕ, Bool, true, false, not, Option, none, some, List, [], ◌∷◌, ◌≡◌, ◌≢◌, refl, arith, Bytes, codes,
  length, All, leb, ltb, ◌==◌, ==_iff, if◌then◌else◌,
}
use libioma.Engine.Request.{
  Head, Body, framed, refused, frame, check, fill_request, is_chunked, body_length, status_of,
  parse_query, split_target, origin_form,
}
use libioma.Number.{parse_length}
use libioma.Engine.Coding.{values_of, IsChunked, Te, refusing, absent, chunked, other}
use libioma.Engine.Length.{Cl, given, pick_loop-Cl}
use libioma.Engine.Length
use libioma.Engine.Pick.{Header, Picked, nothing_picked, pick_loop, pick_headers}
use libioma.Engine.Coded.{pick_loop-Te}

-- The framing that the headers ask for: no body; a length that every Content-Length header states;
-- chunks, asked for by one Transfer-Encoding header with no other coding and no Content-Length.
pub data Framed (hs : List Header) (is_coded : Bool) (n : ℕ) : Type 0 where
  no_body :
      values_of (codes "transfer-encoding") hs ≡ []
      → values_of (codes "content-length") hs ≡ []
      → is_coded ≡ false
      → n ≡ 0
      → Framed hs is_coded n
  sized :
      (v : Bytes)
      → values_of (codes "transfer-encoding") hs ≡ []
      → values_of (codes "content-length") hs ≢ []
      → All (λ x. x ≡ v) (values_of (codes "content-length") hs)
      → parse_length v ≡ some n
      → is_coded ≡ false
      → Framed hs is_coded n
  coded :
      (v : Bytes)
      → values_of (codes "transfer-encoding") hs ≡ v ∷ []
      → IsChunked v
      → values_of (codes "content-length") hs ≡ []
      → is_coded ≡ true
      → n ≡ 0
      → Framed hs is_coded n

module _ (hs : List Header) (p : Picked) (ok : p.refuse ≡ 0)
    (te : Te (values_of (codes "transfer-encoding") hs) p)
    (cl : Cl (values_of (codes "content-length") hs) p) where
  no_te : leb 1 p.n_transfer_enc ≡ false → values_of (codes "transfer-encoding") hs ≡ []
  no_te e = elim te [
    | refusing h ↦ absurd (h ok)
    | absent none_ n l o ↦ none_
    | chunked v one c n l o ↦ absurd (ground arith)
    | other some_ bad n o ↦ absurd (ground arith)
  ]

  no_cl : leb 1 p.n_content_length ≡ false → values_of (codes "content-length") hs ≡ []
  no_cl e = elim cl [
    | Length.refusing h ↦ absurd (h ok)
    | Length.absent none_ n ↦ none_
    | given some_ same n ↦ absurd (ground arith)
  ]

  one_te :
      leb 1 p.n_transfer_enc ≡ true
      → p.te_other ≡ false
      → (v : Bytes) × (values_of (codes "transfer-encoding") hs ≡ v ∷ []) × IsChunked v
  one_te e o = elim te [
    | refusing h ↦ absurd (h ok)
    | absent none_ n l o' ↦ absurd (ground arith)
    | chunked v one c n l o' ↦ (v, one, c)
    | other some_ bad n o' ↦ absurd (cc (o, o'))
  ]

  some_cl :
      leb 1 p.n_content_length ≡ true
      → (values_of (codes "content-length") hs ≢ [])
        × All (λ x. x ≡ p.content_length) (values_of (codes "content-length") hs)
  some_cl e = elim cl [
    | Length.refusing h ↦ absurd (h ok)
    | Length.absent none_ n ↦ absurd (ground arith)
    | given some_ same n ↦ (some_, same)
  ]

  abbrev Decides : Body → Type 0
  Decides b = status_of b ≡ 0 → Framed hs (is_chunked b) (body_length b)

  frame-Decides : Decides (frame p)
  unfolding frame status_of is_chunked body_length
  frame-Decides =
      go (leb 1 p.n_transfer_enc) (leb 1 p.n_content_length) p.te_other p.te_last_chunked
        (parse_length p.content_length) refl refl refl refl
    where
      go :
          (a b c d : Bool) (o : Option ℕ)
          → leb 1 p.n_transfer_enc ≡ a
          → leb 1 p.n_content_length ≡ b
          → p.te_other ≡ c
          → parse_length p.content_length ≡ o
          → Decides (
              if a
              then if b
                then refused 400
                else if c
                then refused 501
                else if not d
                then refused 400
                else framed true 0
              else if b
              then elim o [ none ↦ refused 400 | some n ↦ framed false n ]
              else framed false 0)
      go true true c d o ea eb ec eo z = absurd (omega (arith, z))
      go true false true d o ea eb ec eo z = absurd (omega (arith, z))
      go true false false false o ea eb ec eo z = absurd (omega (arith, z))
      go true false false true o ea eb ec eo z =
          let (v, one, c) = one_te ea ec in coded v one c (no_cl eb) refl refl
      go false true c d none ea eb ec eo z = absurd (omega (arith, z))
      go false true c d (some n) ea eb ec eo z =
          sized p.content_length (no_te ea) (some_cl eb).0 (some_cl eb).1 eo refl
      go false false c d o ea eb ec eo z = no_body (no_te ea) (no_cl eb) refl refl

-- What holds of a head that is not refused.
abbrev pub Accepted : ℕ → List Header → Body → Type 0
Accepted minor hs b = status_of b ≡ 0 → Framed hs (is_chunked b) (body_length b)

check-Accepted :
    (minor n : ℕ) (truncated : Bool) (hs : List Header)
    → Accepted minor hs (check minor n truncated (pick_headers hs))
unfolding check pick_headers status_of
check-Accepted minor n truncated hs =
    go (p.refuse == 0) truncated (if leb 1 minor then not (p.n_host == 1) else ltb 1 p.n_host) refl
  where
    p : Picked
    p = pick_loop hs nothing_picked

    go :
        (r t h : Bool)
        → (p.refuse == 0) ≡ r
        → Accepted minor hs (
            if not r
            then refused p.refuse
            else if t
            then refused (if n == 32 then 400 else 414)
            else if h
            then refused 400
            else frame p)
    go false t h e z = absurd (ground arith)
    go true true h e z = absurd (ground arith)
    go true false true e z = absurd (omega (arith, z))
    go true false false e z =
        frame-Decides hs p ((==_iff p.refuse 0).0 e)
          (pick_loop-Te hs [] nothing_picked (absent refl refl refl refl))
          (pick_loop-Cl hs [] nothing_picked (Length.absent refl refl)) z

-- A request that is not refused has the framing that its headers ask for, in no more than one way: its
-- body is chunked exactly when one Transfer-Encoding header is there, whose only coding is chunked, and
-- no Content-Length; else its length is the one that all Content-Length headers state, or 0 with
-- neither kind of header.
pub fill_request-Framed :
    (head : Head)
    → (fill_request head).1 ≡ 0
    → Framed head.headers (fill_request head).0.chunked (fill_request head).0.content_length
unfolding fill_request
fill_request-Framed head z =
    check-Accepted head.minor_version
      (length (parse_query (split_target (origin_form head.target)).1).0)
      (parse_query (split_target (origin_form head.target)).1).1 head.headers z
