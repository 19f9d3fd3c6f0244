-- ===== src/Router/Insert.antt =====
-- What `insert` makes of a route tree: the route's own pattern has one endpoint more, if it has none
-- for the method yet, and every other pattern has what it had.
use libioma.Base.{
  ℕ, zero, suc, ◌+◌, ◌≤◌, ◌<◌, true, false, Option, none, some, List, [], ◌∷◌, ◌++◌, ◌≡◌, ◌≢◌, refl,
  sym, ap, ◌∙◌, arith, Bytes, length, length-append, length-drop, get_or, take, drop, ◌==◌,
  bytes_eq, bytes_eq_iff, bytes_eq_refl, if◌then◌else◌, Bool-cases, inl, inr, append-nil,
  append_assoc, ==_iff, Bool, ◌||◌,
}
use mathlib.Core.Path.{subst}
use libioma.Slice.{slice_find_char}
use libioma.Slice.Split.{IsFirst, find_char-IsFirst}
use libioma.Router.{
  Endpoint, Node, node, Kids, no_kids, kid, Param, param, param_node, max_route_params,
  skip_slashes, next_segment, child, add_endpoint, insert, insert_route,
}
use libioma.Router.Lookup.{Piece, literal, capture, child_of, endpoints}

length-skip_slashes : (s : Bytes) → length (skip_slashes s) ≤ length s
unfolding skip_slashes
length-skip_slashes [] = omega arith
length-skip_slashes (c ∷ s) = ground (arith, length-skip_slashes s)

-- The first byte of what is left is no slash.
abbrev Clear : Bytes → Type 0
Clear [] = Unit
Clear (c ∷ s) = (c == b'/') ≡ false

skip_slashes-Clear : (s : Bytes) → Clear (skip_slashes s)
unfolding skip_slashes
skip_slashes-Clear [] = tt
skip_slashes-Clear (c ∷ s) = elim (Bool-cases (c == b'/')) [
  | inl e ↦ rw e (skip_slashes-Clear s)
  | inr e ↦ rw e e
]

abbrev Shorter : ℕ → Option (Bytes × Bytes) → Type 0
Shorter n none = Unit
Shorter n (some (seg, rest)) = length rest < n

-- A segment has a byte at least.
next_segment-Shorter : (s : Bytes) → Shorter (length s) (next_segment s)
unfolding next_segment
next_segment-Shorter s = go (skip_slashes s) (skip_slashes-Clear s) (length-skip_slashes s)
  where
    cut :
        (c : ℕ) (t : Bytes)
        → Clear (c ∷ t)
        → length (c ∷ t) ≤ length s
        → (o : Option ℕ) → IsFirst b'/' (c ∷ t) o
        → Shorter
            (length s)
            (elim o [ none ↦ some (c ∷ t, []) | some i ↦ some (take i (c ∷ t), drop i (c ∷ t)) ])
    cut c t clear le none first = omega arith
    cut c t clear le (some zero) (split, lacks, lt) =
        absurd (cc (clear, (==_iff c b'/').1 (ap (λ x. get_or x 0 0) split)))
    cut c t clear le (some (suc i)) first = omega (arith, length-drop i t)

    go :
        (rest : Bytes)
        → Clear rest
        → length rest ≤ length s
        → Shorter (length s) (elim rest [
          | [] ↦ none
          | c ∷ t ↦ elim (slice_find_char (c ∷ t) b'/') [
            | none ↦ some (c ∷ t, [])
            | some i ↦ some (take i (c ∷ t), drop i (c ∷ t))
          ]
        ])
    go [] clear le = tt
    go (c ∷ t) clear le =
        cut c t clear le (slice_find_char (c ∷ t) b'/') (find_char-IsFirst (c ∷ t) b'/')

-- The path of a route as a pattern, and the names of its captures.
pub data Spells : List Piece → Bytes → List Bytes → Type 0 where
  end : {at : Bytes} → next_segment at ≡ none → Spells [] at []
  on_literal :
      {at seg rest : Bytes} {c : ℕ} {pat : List Piece} {names : List Bytes}
      → next_segment at ≡ some (c ∷ seg, rest)
      → (c == b':') ≡ false
      → Spells pat rest names
      → Spells (literal (c ∷ seg) ∷ pat) at names
  on_capture :
      {at seg rest : Bytes} {c : ℕ} {pat : List Piece} {names : List Bytes}
      → next_segment at ≡ some (c ∷ seg, rest)
      → (c == b':') ≡ true
      → Spells pat rest names
      → Spells (capture ∷ pat) at (seg ∷ names)

child_of-child :
    (seg : Bytes) (f : Node → Node) (ks : Kids)
    → child_of seg (child seg f ks) ≡ f (child_of seg ks)
unfolding child
child_of-child seg f no_kids = rw (bytes_eq_refl seg) refl
child_of-child seg f (kid s n ks) = elim (Bool-cases (bytes_eq s seg)) [
  | inl e ↦ rw e (rw e refl)
  | inr e ↦ rw e (rw e (child_of-child seg f ks))
]

child_of-child_ne :
    (seg other : Bytes) (f : Node → Node) (ks : Kids)
    → seg ≢ other
    → child_of other (child seg f ks) ≡ child_of other ks
unfolding child
child_of-child_ne seg other f no_kids ne = elim (Bool-cases (bytes_eq seg other)) [
  | inl e ↦ absurd (ne ((bytes_eq_iff seg other).0 e))
  | inr e ↦ rw e refl
]
child_of-child_ne seg other f (kid s n ks) ne = elim (Bool-cases (bytes_eq s seg)) [
  | inl e ↦ rw e (elim (Bool-cases (bytes_eq s other)) [
    | inl e' ↦ absurd (ne (sym ((bytes_eq_iff s seg).0 e) ∙ (bytes_eq_iff s other).0 e'))
    | inr e' ↦ rw e' refl
  ])
  | inr e ↦ rw e (ap (λ x. if bytes_eq s other then n else x) (child_of-child_ne seg other f ks ne))
]

-- The endpoint with the names of its captures.
abbrev pub named : Endpoint → List Bytes → Endpoint
named ep names = record ep { names = ep.names ++ names }

named_assoc :
    (ep : Endpoint) (name : Bytes) (names : List Bytes)
    → named (record ep { names = ep.names ++ name ∷ [] }) names ≡ named ep (name ∷ names)
named_assoc ep name names =
    ap (λ x. record ep { names = x }) (append_assoc ep.names (name ∷ []) names)

named-nil : (ep : Endpoint) → named ep [] ≡ ep
named-nil ep = ap (λ x. record ep { names = x }) (append-nil ep.names)

-- A round of the loop, by the segment it takes.
insert_literal :
    (fuel : ℕ) (at : Bytes) (ep : Endpoint) (kids : Kids) (p : Param) (eps : List Endpoint) {c : ℕ}
    {seg rest : Bytes}
    → next_segment at ≡ some (c ∷ seg, rest)
    → (c == b':') ≡ false
    → insert (suc fuel) at ep (node kids p eps)
      ≡ node (child (c ∷ seg) (insert fuel rest ep) kids) p eps
unfolding insert
insert_literal fuel at ep kids p eps e plain = rw (e, insert, plain) refl

insert_capture :
    (fuel : ℕ) (at : Bytes) (ep : Endpoint) (kids : Kids) (p : Param) (eps : List Endpoint) {c : ℕ}
    {seg rest : Bytes}
    → next_segment at ≡ some (c ∷ seg, rest)
    → (c == b':') ≡ true
    → (length ep.names == max_route_params) ≡ false
    → insert (suc fuel) at ep (node kids p eps)
      ≡ node kids
          (param (insert fuel rest (record ep { names = ep.names ++ seg ∷ [] }) (param_node p)))
          eps
unfolding insert
insert_capture fuel at ep kids p eps e colon room = rw (e, insert, colon, room) refl

insert_end :
    (fuel : ℕ) (at : Bytes) (ep : Endpoint) (kids : Kids) (p : Param) (eps : List Endpoint)
    → next_segment at ≡ none
    → insert (suc fuel) at ep (node kids p eps) ≡ node kids p (add_endpoint ep eps)
unfolding insert
insert_end fuel at ep kids p eps e = rw (e, insert) refl

next_segment_lt :
    (at : Bytes) {seg rest : Bytes} → next_segment at ≡ some (seg, rest) → length rest < length at
next_segment_lt at e = subst (Shorter (length at)) e (next_segment-Shorter at)

insert-added :
    (fuel : ℕ) (pat : List Piece) (at : Bytes) (names : List Bytes) (ep : Endpoint) (n : Node)
    → Spells pat at names
    → length at < fuel
    → length ep.names + length names ≤ max_route_params
    → endpoints (insert fuel at ep n) pat ≡ add_endpoint (named ep names) (endpoints n pat)
unfolding endpoints
insert-added zero pat at names ep n s lt room = absurd (omega arith)
insert-added (suc fuel) _ at _ ep (node kids p eps) (end e) lt room =
    ap (λ n. endpoints n []) (insert_end fuel at ep kids p eps e)
    ∙ ap (λ x. add_endpoint x eps) (sym (named-nil ep))
insert-added (suc fuel) _ at names ep (node kids p eps)
      (on_literal {seg = seg} {rest} {c} {pat} e plain s) lt room =
    ap (λ n. endpoints n (literal (c ∷ seg) ∷ pat)) (insert_literal fuel at ep kids p eps e plain)
    ∙ (ap (λ n. endpoints n pat) (child_of-child (c ∷ seg) (insert fuel rest ep) kids)
        ∙ insert-added fuel pat rest names ep (child_of (c ∷ seg) kids) s
            (omega (arith, next_segment_lt at e)) room)
insert-added (suc fuel) _ at _ ep (node kids p eps)
      (on_capture {seg = seg} {rest} {pat = pat} {names = names} e colon s) lt room =
    let ep' = record ep { names = ep.names ++ seg ∷ [] } in
    ap (λ n. endpoints n (capture ∷ pat))
      (insert_capture fuel at ep kids p eps e colon (ground arith))
    ∙ (insert-added fuel pat rest names ep' (param_node p) s (omega (arith, next_segment_lt at e))
          (omega (arith, length-append ep.names (seg ∷ [])))
        ∙ ap (λ x. add_endpoint x (endpoints (param_node p) pat)) (named_assoc ep seg names))

-- Another pattern than the route's has the endpoints that it had.
insert_kept :
    (fuel : ℕ) (pat other : List Piece) (at : Bytes) (names : List Bytes) (ep : Endpoint) (n : Node)
    → Spells pat at names
    → length at < fuel
    → length ep.names + length names ≤ max_route_params
    → pat ≢ other
    → endpoints (insert fuel at ep n) other ≡ endpoints n other
unfolding endpoints
insert_kept zero pat other at names ep n s lt room ne = absurd (omega arith)
insert_kept (suc fuel) _ other at _ ep (node kids p eps) (end e) lt room ne =
    ap (λ n. endpoints n other) (insert_end fuel at ep kids p eps e) ∙ go other ne
  where
    go :
        (q : List Piece)
        → [] ≢ q
        → endpoints (node kids p (add_endpoint ep eps)) q ≡ endpoints (node kids p eps) q
    go [] ne = absurd (ne refl)
    go (literal s ∷ q) ne = refl
    go (capture ∷ q) ne = refl
insert_kept (suc fuel) _ other at names ep (node kids p eps)
      (on_literal {seg = seg} {rest} {c} {pat} e plain s) lt room ne =
    ap (λ n. endpoints n other) (insert_literal fuel at ep kids p eps e plain)
    ∙ go other ne (λ q.
      insert_kept fuel pat q rest names ep (child_of (c ∷ seg) kids) s
        (omega (arith, next_segment_lt at e)) room)
  where
    go :
        (q : List Piece)
        → literal (c ∷ seg) ∷ pat ≢ q
        → ((q : List Piece)
            → pat ≢ q
            → endpoints (insert fuel rest ep (child_of (c ∷ seg) kids)) q
              ≡ endpoints (child_of (c ∷ seg) kids) q)
        → endpoints (node (child (c ∷ seg) (insert fuel rest ep) kids) p eps) q
          ≡ endpoints (node kids p eps) q
    go [] ne ih = refl
    go (capture ∷ q) ne ih = refl
    go (literal t ∷ q) ne ih = elim (Bool-cases (bytes_eq (c ∷ seg) t)) [
      | inr e ↦
          ap (λ n. endpoints n q)
            (child_of-child_ne (c ∷ seg) t (insert fuel rest ep) kids
              (λ same. absurd (cc (e, (bytes_eq_iff (c ∷ seg) t).1 same))))
      | inl e ↦
          subst
            (λ t.
              literal (c ∷ seg) ∷ pat ≢ literal t ∷ q
              → endpoints (child_of t (child (c ∷ seg) (insert fuel rest ep) kids)) q
                ≡ endpoints (child_of t kids) q)
            ((bytes_eq_iff (c ∷ seg) t).0 e)
            (λ ne'.
              ap (λ n. endpoints n q) (child_of-child (c ∷ seg) (insert fuel rest ep) kids)
              ∙ ih q (λ eq. ne' (ap (◌∷◌ (literal (c ∷ seg))) eq)))
            ne
    ]
insert_kept (suc fuel) _ other at _ ep (node kids p eps)
      (on_capture {seg = seg} {rest} {pat = pat} {names = names} e colon s) lt room ne =
    let ep' = record ep { names = ep.names ++ seg ∷ [] } in
    ap (λ n. endpoints n other) (insert_capture fuel at ep kids p eps e colon (ground arith))
    ∙ go other ne (λ q.
      insert_kept fuel pat q rest names ep' (param_node p) s (omega (arith, next_segment_lt at e))
        (omega (arith, length-append ep.names (seg ∷ []))))
  where
    down : Node
    down = insert fuel rest (record ep { names = ep.names ++ seg ∷ [] }) (param_node p)

    go :
        (q : List Piece)
        → capture ∷ pat ≢ q
        → ((q : List Piece) → pat ≢ q → endpoints down q ≡ endpoints (param_node p) q)
        → endpoints (node kids (param down) eps) q ≡ endpoints (node kids p eps) q
    go [] ne ih = refl
    go (literal t ∷ q) ne ih = refl
    go (capture ∷ q) ne ih = ih q (λ eq. ne (ap (◌∷◌ capture) eq))

-- Whether one of the endpoints is for the method.
unfoldable pub has_method : Bytes → List Endpoint → Bool
unfolding bytes_eq
has_method m [] = false
has_method m (e ∷ eps) = bytes_eq e.method m || has_method m eps

add_endpoint_lem :
    (ep : Endpoint) (eps : List Endpoint)
    → add_endpoint ep eps ≡ (if has_method ep.method eps then eps else eps ++ ep ∷ [])
unfolding add_endpoint has_method
add_endpoint_lem ep [] = refl
add_endpoint_lem ep (e ∷ eps) = ground (arith, add_endpoint_lem ep eps)

-- Registering a route whose path spells a pattern with at most 8 captures puts its endpoint, with the
-- captures' names, behind those that the pattern has; when one of them is for the same method, the
-- pattern's endpoints stay as they are.
pub insert_route-added :
    (full : Bytes) (pat : List Piece) (names : List Bytes) (ep : Endpoint) (tree : Node)
    → Spells pat full names
    → length ep.names + length names ≤ max_route_params
    → endpoints (insert_route full ep tree) pat ≡ (
        if has_method ep.method (endpoints tree pat)
        then endpoints tree pat
        else endpoints tree pat ++ named ep names ∷ [])
unfolding insert_route
insert_route-added full pat names ep tree s room =
    insert-added (suc (length full)) pat full names ep tree s (omega arith) room
    ∙ add_endpoint_lem (named ep names) (endpoints tree pat)

-- Registering a route whose path spells a pattern with at most 8 captures leaves every other
-- pattern the endpoints that it had.
pub insert_route_kept :
    (full : Bytes) (pat other : List Piece) (names : List Bytes) (ep : Endpoint) (tree : Node)
    → Spells pat full names
    → length ep.names + length names ≤ max_route_params
    → pat ≢ other
    → endpoints (insert_route full ep tree) other ≡ endpoints tree other
unfolding insert_route
insert_route_kept full pat other names ep tree s room ne =
    insert_kept (suc (length full)) pat other full names ep tree s (omega arith) room ne
