-- ===== src/Router/Tests.antt =====
-- Routing at concrete inputs.
use Prim.Native.String.{String}
use libioma.Base.{
  ℕ, ◌+◌, ◌≤◌, some, List, [], ◌∷◌, ◌++◌, ◌≡◌, refl, ap, arith, Bytes, codes, length, if◌then◌else◌,
}
use libioma.Router.{
  Endpoint, Node, empty_node, next_segment, endpoint_for, Walk, walk, insert_route,
}
use libioma.Router.Lookup.{
  Piece, literal, capture, endpoints, Matches, end, on_literal, on_capture, walk_sound,
  walk_complete, walk_restores,
}
use libioma.Router.Insert
use libioma.Router.Insert.{has_method, Spells, named, insert_route-added, insert_route_kept}
use libioma.Router.Chain.{
  Group, full_path, path_room, length-full_path, flatten_chain, outer_first, flatten_chain_lem,
  run_chain, plan, run_chain-plan,
}
use libioma.Router.Allow.{
  allow_value, allowed_endpoints, allowed_endpoints_once, count_method, allow_max,
  length-allow_value, arena_size,
}
use libioma.Router.Dispatch.{
  dispatch, found, not_allowed, fallback, dispatch_finds, decode_params, decode_params-Fits,
}

abbrev endpoint : String → ℕ → Endpoint
endpoint m n = record { method = codes m; seq = n; handler = n; names = [] }

abbrev show : Endpoint
show = endpoint "GET" 0

abbrev save : Endpoint
save = endpoint "PUT" 1

abbrev me : Endpoint
me = endpoint "GET" 2

abbrev user_path : Bytes
user_path = codes "/users/:id"

unfoldable one : Node
unfolding insert_route
one = insert_route user_path show empty_node

unfoldable tree : Node
unfolding one insert_route
tree = insert_route (codes "/users/me") me (insert_route user_path save one)

abbrev start : Walk
start = record { values = []; seen = [] }

dispatch_capture :
    dispatch tree (codes "//users/a%2Fb") (codes "GET")
    ≡ found (record show { names = codes "id" ∷ [] }) ((codes "id", codes "a/b") ∷ [])
unfolding dispatch tree
dispatch_capture = refl

dispatch_head : dispatch tree (codes "/users/me/") (codes "HEAD") ≡ found me []
unfolding dispatch tree
dispatch_head = refl

-- The literal segment has no PUT, so the walk comes back to the capture.
dispatch_back :
    dispatch tree (codes "/users/me") (codes "PUT")
    ≡ found (record save { names = codes "id" ∷ [] }) ((codes "id", codes "me") ∷ [])
unfolding dispatch tree
dispatch_back = refl

dispatch_refused :
    dispatch tree (codes "/users/me") (codes "POST") ≡ not_allowed (some (codes "PUT, GET, HEAD"))
unfolding dispatch tree
dispatch_refused = refl

dispatch_unknown : dispatch tree (codes "/users") (codes "GET") ≡ fallback
unfolding dispatch tree
dispatch_unknown = refl

abbrev pattern : List Piece
pattern = literal (codes "users") ∷ capture ∷ []

matches : Matches pattern (codes "/users/me") (codes "me" ∷ [])
unfolding next_segment
matches = on_literal {rest = codes "/me"} refl (on_capture {rest = []} refl (end refl))

spells : Spells pattern user_path (codes "id" ∷ [])
unfolding next_segment
spells =
    Insert.on_literal {rest = codes "/:id"} refl refl
      (Insert.on_capture {rest = []} refl refl (Insert.end refl))

walk_sound_example :
    (pat : List Piece) × (vs : List Bytes) × Matches pat (codes "/users/7") vs
    × (endpoint_for (endpoints one pat) (codes "GET")
        ≡ some (record show { names = codes "id" ∷ [] }))
    × ((codes "7" ∷ []) ≡ [] ++ vs)
unfolding one walk
walk_sound_example =
    walk_sound one (codes "/users/7") (codes "GET") start
      (record {
        values = codes "7" ∷ [];
        seen = ((record show { names = codes "id" ∷ [] }) ∷ []) ∷ [];
      })
      (record show { names = codes "id" ∷ [] }) refl

walk_complete_example :
    (e : Endpoint) × ((walk tree (codes "/users/me") (codes "PUT") start).0 ≡ some e)
unfolding tree endpoints endpoint_for
walk_complete_example =
    walk_complete tree (codes "/users/me") (codes "PUT") start pattern (codes "me" ∷ [])
      (record save { names = codes "id" ∷ [] }) matches refl (omega arith)

walk_restores_example : start.values ≡ start.values
unfolding tree walk
walk_restores_example = walk_restores tree (codes "/users") (codes "GET") start start refl

dispatch_finds_example :
    (e : Endpoint) × (ps : List (Bytes × Bytes)) × (dispatch tree (codes "/users/me") (codes "PUT")
      ≡ found e ps)
unfolding tree endpoints endpoint_for
dispatch_finds_example =
    dispatch_finds tree (codes "/users/me") (codes "PUT") pattern (codes "me" ∷ [])
      (record save { names = codes "id" ∷ [] }) matches refl (omega arith)

insert_route-added_example : endpoints (insert_route user_path save one) pattern ≡ (
    if has_method save.method (endpoints one pattern)
    then endpoints one pattern
    else endpoints one pattern ++ named save (codes "id" ∷ []) ∷ [])
insert_route-added_example =
    insert_route-added user_path pattern (codes "id" ∷ []) save one spells (omega arith)

insert_route_kept_example :
    endpoints (insert_route user_path save one) (literal (codes "users") ∷ [])
    ≡ endpoints one (literal (codes "users") ∷ [])
insert_route_kept_example =
    insert_route_kept user_path pattern (literal (codes "users") ∷ []) (codes "id" ∷ []) save one
      spells (omega arith) (λ e. absurd (omega (arith, ap length e)))

abbrev groups : List Group
groups =
    record { prefix = codes "/v1"; mws = 3 ∷ 4 ∷ [] }
    ∷ record { prefix = codes "api/"; mws = 2 ∷ [] }
    ∷ record { prefix = []; mws = 1 ∷ [] }
    ∷ []

full_path_runs : full_path (codes "users") groups ≡ codes "api//v1/users"
unfolding full_path
full_path_runs = refl

length-full_path_example :
    length (full_path (codes "users") groups) ≤ path_room (codes "users") groups
length-full_path_example = length-full_path (codes "users") groups

flatten_chain_lem_example : flatten_chain (5 ∷ []) groups ≡ outer_first groups ++ 5 ∷ []
flatten_chain_lem_example = flatten_chain_lem (5 ∷ []) groups

run_chain-plan_example : run_chain 4 (1 ∷ 2 ∷ []) 0 ≡ plan (1 ∷ 2 ∷ [])
run_chain-plan_example = run_chain-plan 4 (1 ∷ 2 ∷ []) (omega arith)

abbrev seen : List (List Endpoint)
seen = (me ∷ []) ∷ (show ∷ save ∷ []) ∷ []

allowed_endpoints_once_example :
    (count_method (codes "GET") (allowed_endpoints seen) ≤ 1)
    × (length (allowed_endpoints seen) ≤ allow_max)
allowed_endpoints_once_example = allowed_endpoints_once (codes "GET") seen

length-allow_value_example : length (codes "PUT, GET, HEAD") + 1 ≤ arena_size
unfolding allow_value
length-allow_value_example = length-allow_value seen (codes "PUT, GET, HEAD") refl

decode_params-Fits_example :
    ((decode_params (codes "id" ∷ []) (codes "a%2Fb" ∷ []) 0).1 ≤ arena_size)
    × (length (decode_params (codes "id" ∷ []) (codes "a%2Fb" ∷ []) 0).0 ≡ 1)
decode_params-Fits_example =
    decode_params-Fits (codes "id" ∷ []) (codes "a%2Fb" ∷ []) 0 (omega arith)
