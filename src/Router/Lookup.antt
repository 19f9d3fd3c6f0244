-- ===== src/Router/Lookup.antt =====
-- What `walk` finds in a route tree: an endpoint whose pattern the path matches, whenever there is one.
use libioma.Base.{
  ℕ, suc, ◌+◌, ◌≤◌, true, false, Option, none, some, List, [], ◌∷◌, ◌++◌, ◌≡◌, refl, sym, ap, ◌∙◌,
  arith, Bytes, length, length-append, ltb, bytes_eq, if◌then◌else◌, Bool-cases, inl, inr,
  append-nil, append_assoc,
}
use mathlib.Core.Path.{subst}
use libioma.Router.{
  Endpoint, Node, node, Kids, no_kids, kid, Param, no_param, param, empty_node, param_node,
  max_route_params, next_segment, endpoint_for, find_endpoint, Walk, arrive, or_else, unmark, walk,
  walk_kids, walk_param,
}

-- A segment of a pattern.
pub data Piece : Type 0 where
  literal : Bytes → Piece
  capture : Piece

-- The first child with the segment.
abbrev pub child_of : Bytes → Kids → Node
child_of seg no_kids = empty_node
child_of seg (kid s n ks) = if bytes_eq s seg then n else child_of seg ks

-- The endpoints that a tree holds at a pattern.
unfoldable pub endpoints : Node → List Piece → List Endpoint
endpoints (node kids p eps) [] = eps
endpoints (node kids p eps) (literal s ∷ pat) = endpoints (child_of s kids) pat
endpoints (node kids p eps) (capture ∷ pat) = endpoints (param_node p) pat

-- The path has the pattern's segments, and these values where it captures.
pub data Matches : List Piece → Bytes → List Bytes → Type 0 where
  end : {at : Bytes} → next_segment at ≡ none → Matches [] at []
  on_literal :
      {at seg rest : Bytes} {pat : List Piece} {vs : List Bytes}
      → next_segment at ≡ some (seg, rest)
      → Matches pat rest vs
      → Matches (literal seg ∷ pat) at vs
  on_capture :
      {at seg rest : Bytes} {pat : List Piece} {vs : List Bytes}
      → next_segment at ≡ some (seg, rest)
      → Matches pat rest vs
      → Matches (capture ∷ pat) at (seg ∷ vs)

endpoint_for-nil : (m : Bytes) → endpoint_for [] m ≡ none
unfolding endpoint_for find_endpoint
endpoint_for-nil m = ground arith

walk-empty : (at m : Bytes) (w : Walk) → walk empty_node at m w ≡ (none, w)
unfolding walk arrive
walk-empty at m w = go (next_segment at)
  where
    go :
        (o : Option (Bytes × Bytes))
        → ◌≡◌ {A = Option Endpoint × Walk}
            (elim o [
              | none ↦ (endpoint_for [] m, arrive [] w)
              | some (seg, rest) ↦
                  or_else (walk_kids no_kids seg rest m w) (walk_param no_param seg rest m)
            ])
            (none, w)
    go none = rw (endpoint_for-nil m) refl
    go (some (seg, rest)) = refl

walk_kids-child_of :
    (ks : Kids) (seg rest m : Bytes) (w : Walk)
    → walk_kids ks seg rest m w ≡ walk (child_of seg ks) rest m w
unfolding walk_kids
walk_kids-child_of no_kids seg rest m w = sym (walk-empty rest m w)
walk_kids-child_of (kid s n ks) seg rest m w = elim (Bool-cases (bytes_eq s seg)) [
  | inl e ↦ rw e refl
  | inr e ↦ rw e (walk_kids-child_of ks seg rest m w)
]

walk_param-full :
    (p : Param) (seg rest m : Bytes) (w : Walk)
    → ltb (length w.values) max_route_params ≡ false
    → walk_param p seg rest m w ≡ (none, w)
unfolding walk_param
walk_param-full no_param seg rest m w e = refl
walk_param-full (param n) seg rest m w e = rw e refl

walk_param_room :
    (p : Param) (seg rest m : Bytes) (w : Walk)
    → ltb (length w.values) max_route_params ≡ true
    → walk_param p seg rest m w
      ≡ unmark w.values (walk (param_node p) rest m (record w { values = w.values ++ seg ∷ [] }))
unfolding walk_param
walk_param_room no_param seg rest m w e =
    rw (walk-empty rest m (record w { values = w.values ++ seg ∷ [] })) refl
walk_param_room (param n) seg rest m w e = rw e refl

-- No pattern that the path matches, with room for its values, has an endpoint for the method; the
-- first number is how many values there are already.
abbrev pub Misses : ℕ → Node → Bytes → Bytes → Type 0
Misses k n at m =
    (pat : List Piece) (vs : List Bytes)
    → Matches pat at vs
    → k + length vs ≤ max_route_params
    → endpoint_for (endpoints n pat) m ≡ none

-- What an answer says: the endpoint is that of a pattern which the path matches, and the values
-- are those that it captures; or there is none, and the values are as they were.
abbrev pub Answers : Node → Bytes → Bytes → Walk → Option Endpoint × Walk → Type 0
Answers n at m w (some ep, w') =
    (pat : List Piece) × (vs : List Bytes) × Matches pat at vs
    × (endpoint_for (endpoints n pat) m ≡ some ep)
    × (w'.values ≡ w.values ++ vs)
Answers n at m w (none, w') = Misses (length w.values) n at m × (w'.values ≡ w.values)

first_of : Bytes → Option (Bytes × Bytes) → Bytes
first_of d none = d
first_of d (some (s, r)) = s

second_of : Bytes → Option (Bytes × Bytes) → Bytes
second_of d none = d
second_of d (some (s, r)) = r

module _ (m : Bytes) {at seg rest : Bytes} (e : next_segment at ≡ some (seg, rest)) (kids : Kids)
    (p : Param) (eps : List Endpoint) where
  Misses-node :
      (k : ℕ)
      → Misses k (child_of seg kids) rest m
      → Misses (suc k) (param_node p) rest m
      → Misses k (node kids p eps) at m
  unfolding endpoints first_of second_of
  Misses-node k none_kid none_param _ _ (end e') room = absurd (cc (e, e'))
  Misses-node k none_kid none_param _ vs (on_literal {seg = s} {rest = r} {pat} e' x) room =
      let same = ap (first_of seg) (sym e ∙ e') in
      let same' = ap (second_of rest) (sym e ∙ e') in
      ap (λ y. endpoint_for (endpoints (child_of y kids) pat) m) (sym same)
      ∙ none_kid pat vs (subst (λ y. Matches pat y vs) (sym same') x) room
  Misses-node k none_kid none_param _ _ (on_capture {seg = s} {rest = r} {pat} {vs} e' x) room =
      none_param pat vs (subst (λ y. Matches pat y vs) (sym (ap (second_of rest) (sym e ∙ e'))) x)
        (omega arith)

Misses-end :
    {at : Bytes} (m : Bytes) (kids : Kids) (p : Param) (eps : List Endpoint) (k : ℕ)
    → next_segment at ≡ none
    → endpoint_for eps m ≡ none
    → Misses k (node kids p eps) at m
unfolding endpoints
Misses-end m kids p eps k e none_here _ _ (end e') room = none_here
Misses-end m kids p eps k e none_here _ _ (on_literal e' x) room = absurd (cc (e, e'))
Misses-end m kids p eps k e none_here _ _ (on_capture e' x) room = absurd (cc (e, e'))

-- The children's answer, then the capture's.
or_else-Answers :
    (at m : Bytes) {seg rest : Bytes} (kids : Kids) (p : Param) (eps : List Endpoint) (w : Walk)
    → next_segment at ≡ some (seg, rest)
    → (r : Option Endpoint × Walk) → Answers (child_of seg kids) rest m w r
    → ((w' : Walk) → Answers (param_node p) rest m w' (walk (param_node p) rest m w'))
    → Answers (node kids p eps) at m w (or_else r (walk_param p seg rest m))
unfolding endpoints
or_else-Answers at m kids p eps w e (some ep, w1) (pat, vs, x, found, values) param_ih =
    (literal _ ∷ pat, vs, on_literal e x, found, values)
or_else-Answers at m {seg} {rest} kids p eps w e (none, w1) (misses, same) param_ih =
    elim (Bool-cases (ltb (length w1.values) max_route_params)) [
      | inr full ↦ rw (walk_param-full p seg rest m w1 full) (
        Misses-node m e kids p eps (length w.values) misses
            (λ pat vs x room. absurd (ground (arith, ap length same))),
        same,
      )
      | inl room ↦
          rw (walk_param_room p seg rest m w1 room)
            (unmarked (walk (param_node p) rest m pushed) (param_ih pushed))
    ]
  where
    pushed : Walk
    pushed = record w1 { values = w1.values ++ seg ∷ [] }

    unmarked :
        (r : Option Endpoint × Walk)
        → Answers (param_node p) rest m pushed r
        → Answers (node kids p eps) at m w (unmark w1.values r)
    unmarked (some ep, w2) (pat, vs, x, found, values) = (
      capture ∷ pat,
      seg ∷ vs,
      on_capture e x,
      found,
      values ∙ (append_assoc w1.values (seg ∷ []) vs ∙ ap (λ y. y ++ seg ∷ vs) same),
    )
    unmarked (none, w2) (none_param, _) = (
      Misses-node m e kids p eps (length w.values) misses (λ pat vs x room.
          none_param pat vs x (omega (arith, length-append w1.values (seg ∷ []), ap length same))),
      same,
    )

arrive_values : (eps : List Endpoint) (w : Walk) → (arrive eps w).values ≡ w.values
unfolding arrive
arrive_values eps w = ground arith

end-Answers :
    (at m : Bytes) (kids : Kids) (p : Param) (eps : List Endpoint) (w : Walk)
    → next_segment at ≡ none
    → (o : Option Endpoint) → endpoint_for eps m ≡ o
    → Answers (node kids p eps) at m w (o, arrive eps w)
unfolding endpoints
end-Answers at m kids p eps w e none here =
    (Misses-end m kids p eps (length w.values) e here, arrive_values eps w)
end-Answers at m kids p eps w e (some ep) here =
    ([], [], end e, here, arrive_values eps w ∙ sym (append-nil w.values))

endpoints-empty : (pat : List Piece) → endpoints empty_node pat ≡ []
unfolding endpoints
endpoints-empty [] = refl
endpoints-empty (literal s ∷ pat) = endpoints-empty pat
endpoints-empty (capture ∷ pat) = endpoints-empty pat

empty-Answers : (at m : Bytes) (w : Walk) → Answers empty_node at m w (walk empty_node at m w)
empty-Answers at m w =
    rw (walk-empty at m w)
      (λ pat vs x room. ap (λ y. endpoint_for y m) (endpoints-empty pat) ∙ endpoint_for-nil m, refl)

mutual
  unfolding walk

  walk-node : (n : Node) (at m : Bytes) (w : Walk) → Answers n at m w (walk n at m w)
  walk-node (node kids p eps) at m w =
      go (next_segment at) refl (λ seg rest w'. walk-child kids seg rest m w')
        (λ rest w'. walk-param p rest m w')
    where
      go :
          (o : Option (Bytes × Bytes))
          → next_segment at ≡ o
          → ((seg rest : Bytes) (w' : Walk)
              → Answers (child_of seg kids) rest m w' (walk (child_of seg kids) rest m w'))
          → ((rest : Bytes) (w' : Walk)
              → Answers (param_node p) rest m w' (walk (param_node p) rest m w'))
          → Answers (node kids p eps) at m w (elim o [
            | none ↦ (endpoint_for eps m, arrive eps w)
            | some (seg, rest) ↦ or_else (walk_kids kids seg rest m w) (walk_param p seg rest m)
          ])
      go none e kid_ih param_ih = end-Answers at m kids p eps w e (endpoint_for eps m) refl
      go (some (seg, rest)) e kid_ih param_ih =
          or_else-Answers at m kids p eps w e (walk_kids kids seg rest m w)
            (rw (walk_kids-child_of kids seg rest m w) (kid_ih seg rest w)) (param_ih rest)

  walk-child :
      (ks : Kids) (seg rest m : Bytes) (w : Walk)
      → Answers (child_of seg ks) rest m w (walk (child_of seg ks) rest m w)
  walk-child no_kids seg rest m w = empty-Answers rest m w
  walk-child (kid s n ks) seg rest m w = elim (Bool-cases (bytes_eq s seg)) [
    | inl e ↦ rw e (walk-node n rest m w)
    | inr e ↦ rw e (walk-child ks seg rest m w)
  ]

  walk-param :
      (p : Param) (rest m : Bytes) (w : Walk)
      → Answers (param_node p) rest m w (walk (param_node p) rest m w)
  walk-param no_param rest m w = empty-Answers rest m w
  walk-param (param n) rest m w = walk-node n rest m w

-- When `walk` answers an endpoint, the path matches a pattern of the tree at which that is the
-- endpoint for the method, and the values that the pattern captures were added, in order.
pub walk_sound :
    (n : Node) (at m : Bytes) (w w' : Walk) (ep : Endpoint)
    → walk n at m w ≡ (some ep, w')
    → (pat : List Piece) × (vs : List Bytes) × Matches pat at vs
      × (endpoint_for (endpoints n pat) m ≡ some ep)
      × (w'.values ≡ w.values ++ vs)
walk_sound n at m w w' ep e = subst (Answers n at m w) e (walk-node n at m w)

-- When the path matches a pattern that has an endpoint for the method, with room for the values
-- that it captures, `walk` answers an endpoint.
pub walk_complete :
    (n : Node) (at m : Bytes) (w : Walk) (pat : List Piece) (vs : List Bytes) (ep : Endpoint)
    → Matches pat at vs
    → endpoint_for (endpoints n pat) m ≡ some ep
    → length w.values + length vs ≤ max_route_params
    → (found : Endpoint) × ((walk n at m w).0 ≡ some found)
walk_complete n at m w pat vs ep x here room = go (walk n at m w) (walk-node n at m w)
  where
    go : (r : Option Endpoint × Walk) → Answers n at m w r → (found : Endpoint) × (r.0 ≡ some found)
    go (some found, w') a = (found, refl)
    go (none, w') (misses, same) = absurd (cc (here, misses pat vs x room))

-- When `walk` answers none the captures are as they were.
pub walk_restores :
    (n : Node) (at m : Bytes) (w w' : Walk) → walk n at m w ≡ (none, w') → w'.values ≡ w.values
walk_restores n at m w w' e = (subst (Answers n at m w) e (walk-node n at m w)).1
