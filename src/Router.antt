-- ===== src/Router.antt =====
-- The route tree of lib/http/router.c. A handler and a middleware are the numbers of their
-- functions; a node's segment stands with it in its parent's children.
pub mod Chain
pub mod Lookup
pub mod Insert
pub mod Allow
pub mod Dispatch
mod Tests
use libioma.Base.{
  ℕ, zero, suc, ◌+◌, ◌-◌, ◌≤◌, ◌<◌, Bool, true, false, not, ◌&&◌, ◌||◌, Option, none, some, List,
  [], ◌∷◌, ◌++◌, Bytes, codes, length, take, drop, ltb, leb, ◌==◌, bytes_eq, if◌then◌else◌,
}
use libioma.Slice.{slice_find_char}

-- `struct ioxd_endpoint`, as far as the tree reads it.
pub record Endpoint : Type 0 where
  pub method : Bytes
  pub seq : ℕ
  pub handler : ℕ
  pub names : List Bytes

-- `struct node`: the children by their segment, the capture, the endpoints.
mutual
  pub data Node : Type 0 where
    node : Kids → Param → List Endpoint → Node

  pub data Kids : Type 0 where
    no_kids : Kids
    kid : Bytes → Node → Kids → Kids

  pub data Param : Type 0 where
    no_param : Param
    param : Node → Param

-- `calloc`
abbrev pub empty_node : Node
empty_node = node no_kids no_param []

abbrev pub max_route_params : ℕ
max_route_params = 8

abbrev pub seen_max : ℕ
seen_max = 8

unfoldable pub skip_slashes : Bytes → Bytes
skip_slashes [] = []
skip_slashes (c ∷ s) = let rest = skip_slashes s in if c == b'/' then rest else c ∷ s

-- The segment and what `*at` is moved to; `none` at the end of the path.
unfoldable pub next_segment : Bytes → Option (Bytes × Bytes)
unfolding skip_slashes slice_find_char
next_segment s = elim (skip_slashes s) [
  | [] ↦ none
  | c ∷ t ↦ elim (slice_find_char (c ∷ t) b'/') [
    | none ↦ some (c ∷ t, [])
    | some i ↦ some (take i (c ∷ t), drop i (c ∷ t))
  ]
]

-- The loop of `endpoint_for`, `get` being the last endpoint for GET that it passed.
unfoldable pub find_endpoint : Option Endpoint → List Endpoint → Bytes → Option Endpoint
unfolding bytes_eq
find_endpoint get [] method = if bytes_eq method (codes "HEAD") then get else none
find_endpoint get (ep ∷ eps) method =
    let rest =
      find_endpoint (if bytes_eq ep.method (codes "GET") then some ep else get) eps method in
    if bytes_eq ep.method method then some ep else rest

unfoldable pub endpoint_for : List Endpoint → Bytes → Option Endpoint
unfolding find_endpoint
endpoint_for eps method = find_endpoint none eps method

-- The values of `req->route_params` and `struct seen`, which holds the endpoints of its nodes.
pub record Walk : Type 0 where
  pub values : List Bytes
  pub seen : List (List Endpoint)

-- The path is spent: the node is noted, if it has endpoints.
unfoldable pub arrive : List Endpoint → Walk → Walk
arrive eps w =
    if leb 1 (length eps) && ltb (length w.seen) seen_max
    then record w { seen = w.seen ++ eps ∷ [] }
    else w

-- What a node's children found, else what its capture finds from what they left.
abbrev pub or_else :
    Option Endpoint × Walk → (Walk → Option Endpoint × Walk) → Option Endpoint × Walk
or_else (some ep, w) next = (some ep, w)
or_else (none, w) next = next w

-- `n_route_params = mark`, when the capture did not find.
abbrev pub unmark : List Bytes → Option Endpoint × Walk → Option Endpoint × Walk
unmark mark (some ep, w) = (some ep, w)
unmark mark (none, w) = (none, record w { values = mark })

unfoldable mutual
  unfolding next_segment endpoint_for arrive bytes_eq

  pub walk : Node → Bytes → Bytes → Walk → Option Endpoint × Walk
  walk (node kids p eps) at method w = elim (next_segment at) [
    | none ↦ (endpoint_for eps method, arrive eps w)
    | some (seg, rest) ↦ or_else (walk_kids kids seg rest method w) (walk_param p seg rest method)
  ]

  -- Only the first child with the segment is tried.
  pub walk_kids : Kids → Bytes → Bytes → Bytes → Walk → Option Endpoint × Walk
  walk_kids no_kids seg rest method w = (none, w)
  walk_kids (kid s n ks) seg rest method w =
      let found = walk n rest method w in
      let later = walk_kids ks seg rest method w in if bytes_eq s seg then found else later

  pub walk_param : Param → Bytes → Bytes → Bytes → Walk → Option Endpoint × Walk
  walk_param no_param seg rest method w = (none, w)
  walk_param (param n) seg rest method w =
      let found = walk n rest method (record w { values = w.values ++ seg ∷ [] }) in
      if ltb (length w.values) max_route_params then unmark w.values found else (none, w)

-- A node's endpoint for the method, kept when there is one: `insert` drops a duplicate.
unfoldable pub add_endpoint : Endpoint → List Endpoint → List Endpoint
unfolding bytes_eq
add_endpoint ep [] = ep ∷ []
add_endpoint ep (e ∷ eps) =
    let rest = e ∷ add_endpoint ep eps in if bytes_eq e.method ep.method then e ∷ eps else rest

-- `child`, and what is done to the child in its place.
unfoldable pub child : Bytes → (Node → Node) → Kids → Kids
unfolding bytes_eq
child seg f no_kids = kid seg (f empty_node) no_kids
child seg f (kid s n ks) =
    let later = kid s n (child seg f ks) in if bytes_eq s seg then kid s (f n) ks else later

abbrev pub param_node : Param → Node
param_node no_param = empty_node
param_node (param n) = n

-- The loop of `insert`; each round takes a byte of the path at least.
unfoldable pub insert : ℕ → Bytes → Endpoint → Node → Node
unfolding next_segment add_endpoint child
insert zero at ep n = n
insert (suc fuel) at ep (node kids p eps) = elim (next_segment at) [
  | none ↦ node kids p (add_endpoint ep eps)
  | some ([], rest) ↦ node kids p eps
  | some (c ∷ seg, rest) ↦
      let down = insert fuel rest ep in
      let capture = insert fuel rest (record ep { names = ep.names ++ seg ∷ [] }) (param_node p) in
      if c == b':'
      then if length ep.names == max_route_params
        then node kids p eps
        else node kids (param capture) eps
      else node (child (c ∷ seg) down kids) p eps
]

-- `ioxd__router_build` for one endpoint, whose full path this is.
unfoldable pub insert_route : Bytes → Endpoint → Node → Node
unfolding insert
insert_route full ep tree = insert (suc (length full)) full ep tree
