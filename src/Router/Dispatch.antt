-- ===== src/Router/Dispatch.antt =====
-- `decoded` and `ioxd__router_dispatch` of lib/http/router.c: from a request's path to what runs.
use libioma.Base.{
  ℕ, suc, ◌+◌, ◌*◌, ◌≤◌, Bool, true, false, Option, none, some, List, [], ◌∷◌, ◌≡◌, refl, ap, arith,
  Bytes, length, ltb, ◌==◌, if◌then◌else◌,
}
use libioma.Slice.{slice_find_char}
use libioma.Query.{hexval}
use libioma.Router.{Endpoint, Node, Walk, walk, endpoint_for, max_route_params}
use libioma.Router.Lookup.{Piece, endpoints, Matches, walk_complete}
use libioma.Router.Allow.{allow_value, arena_size}

unfoldable pub hex_pair : ℕ → ℕ → Option ℕ
unfolding hexval
hex_pair a b = elim (hexval a) [
  | none ↦ none
  | some hi ↦ elim (hexval b) [ none ↦ none | some lo ↦ some (hi * 16 + lo) ]
]

-- The loop of `decoded`; unlike that of a query it knows no `+` and takes any byte.
unfoldable pub decode_segment : Bytes → Bytes
unfolding hex_pair
decode_segment [] = []
decode_segment (c ∷ []) = c ∷ []
decode_segment (c ∷ a ∷ []) = c ∷ a ∷ []
decode_segment (c ∷ a ∷ b ∷ s) =
    let skip = decode_segment s in
    let plain = c ∷ decode_segment (a ∷ b ∷ s) in
    if c == b'%' then elim (hex_pair a b) [ none ↦ plain | some v ↦ v ∷ skip ] else plain

-- `decoded`: the value, and what is used of the arena.
unfoldable pub decoded : Bytes → ℕ → ℕ → Bytes × ℕ
unfolding decode_segment slice_find_char
decoded raw cap_ used = elim (slice_find_char raw b'%') [
  | none ↦ (raw, used)
  | some _ ↦
      if ltb cap_ (used + length raw)
      then (raw, used)
      else (decode_segment raw, used + length (decode_segment raw))
]

-- The loop over the captures: each with its name, and what is used of the arena behind the last.
unfoldable pub decode_params : List Bytes → List Bytes → ℕ → List (Bytes × Bytes) × ℕ
unfolding decoded
decode_params names [] used = ([], used)
decode_params names (raw ∷ values) used =
    let (value, used') = decoded raw arena_size used in
    let (rest, end) = decode_params (rest_of names) values used' in
    ((first_of names, value) ∷ rest, end)
  where
    first_of : List Bytes → Bytes
    first_of [] = []
    first_of (n ∷ ns) = n

    rest_of : List Bytes → List Bytes
    rest_of [] = []
    rest_of (n ∷ ns) = ns

-- What runs: the endpoint with its captures, 405 with the `allow` header if there is room for it,
-- or the fallback.
pub data Outcome : Type 0 where
  found : Endpoint → List (Bytes × Bytes) → Outcome
  not_allowed : Option Bytes → Outcome
  fallback : Outcome

unfoldable pub dispatch : Node → Bytes → Bytes → Outcome
unfolding walk decode_params allow_value
dispatch tree path method =
    let (ep, w) = walk tree path method (record { values = []; seen = [] }) in
    elim ep [
      | some e ↦ found e (decode_params e.names w.values 0).0
      | none ↦ elim w.seen [ [] ↦ fallback | eps ∷ more ↦ not_allowed (allow_value (eps ∷ more)) ]
    ]

length-decode_segment : (s : Bytes) → length (decode_segment s) ≤ length s
unfolding decode_segment
length-decode_segment [] = omega arith
length-decode_segment (c ∷ []) = omega arith
length-decode_segment (c ∷ a ∷ []) = omega arith
length-decode_segment (c ∷ a ∷ b ∷ s) =
    go (c == b'%') (hex_pair a b) (length-decode_segment s) (length-decode_segment (a ∷ b ∷ s))
  where
    go :
        (percent : Bool) (o : Option ℕ)
        → length (decode_segment s) ≤ length s
        → length (decode_segment (a ∷ b ∷ s)) ≤ length (a ∷ b ∷ s)
        → length (
            if percent
            then elim o [ none ↦ c ∷ decode_segment (a ∷ b ∷ s) | some v ↦ v ∷ decode_segment s ]
            else c ∷ decode_segment (a ∷ b ∷ s))
          ≤ length (c ∷ a ∷ b ∷ s)
    go false o h h' = omega arith
    go true none h h' = omega arith
    go true (some v) h h' = omega arith

decoded-Fits :
    (raw : Bytes) (cap_ used : ℕ)
    → used ≤ cap_
    → (used ≤ (decoded raw cap_ used).1) × ((decoded raw cap_ used).1 ≤ cap_)
unfolding decoded
decoded-Fits raw cap_ used h = ground (arith, length-decode_segment raw)

-- The captures are decoded within the request's arena, one pair for each.
pub decode_params-Fits :
    (names values : List Bytes) (used : ℕ)
    → used ≤ arena_size
    → ((decode_params names values used).1 ≤ arena_size)
      × (length (decode_params names values used).0 ≡ length values)
unfolding decode_params
decode_params-Fits names [] used h = (h, refl)
decode_params-Fits [] (raw ∷ values) used h =
    let (fits, same) =
      decode_params-Fits [] values (decoded raw arena_size used).1
        (decoded-Fits raw arena_size used h).1 in
    (fits, ap suc same)
decode_params-Fits (n ∷ names) (raw ∷ values) used h =
    let (fits, same) =
      decode_params-Fits names values (decoded raw arena_size used).1
        (decoded-Fits raw arena_size used h).1 in
    (fits, ap suc same)

-- A request whose path matches a pattern of the tree that has an endpoint for its method, with at most
-- 8 captures, is given to an endpoint, and never to the fallback or a 405.
pub dispatch_finds :
    (tree : Node) (path method : Bytes) (pat : List Piece) (vs : List Bytes) (ep : Endpoint)
    → Matches pat path vs
    → endpoint_for (endpoints tree pat) method ≡ some ep
    → length vs ≤ max_route_params
    → (e : Endpoint) × (ps : List (Bytes × Bytes)) × (dispatch tree path method ≡ found e ps)
unfolding dispatch
dispatch_finds tree path method pat vs ep x here h =
    let start : Walk = record { values = []; seen = [] } in
    let (e, answer) = walk_complete tree path method start pat vs ep x here (omega arith) in
    (
      e,
      (decode_params e.names (walk tree path method start).1.values 0).0,
      ap
          (λ o. elim o [
            | some e ↦ found e (decode_params e.names (walk tree path method start).1.values 0).0
            | none ↦ elim (walk tree path method start).1.seen [
              | [] ↦ fallback
              | eps ∷ more ↦ not_allowed (allow_value (eps ∷ more))
            ]
          ])
          answer,
    )
