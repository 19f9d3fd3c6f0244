-- ===== src/Router/Allow.antt =====
-- The answer to a method that a path does not have: `listed`, `allowed_endpoints` and `allow_value`
-- of lib/http/router.c.
use libioma.Base.{
  ℕ, suc, ◌+◌, ◌-◌, ◌*◌, ◌≤◌, Bool, true, false, not, ◌&&◌, ◌||◌, Option, none, some, List, [], ◌∷◌,
  ◌++◌, ◌≡◌, refl, ap, arith, Bytes, codes, length, length-append, ltb, ◌==◌, bytes_eq,
  bytes_eq_iff, if◌then◌else◌, Bool-cases, inl, inr,
}
use libioma.Router.{Endpoint}

abbrev pub allow_max : ℕ
allow_max = 16

-- IOXD_ROUTE_ARENA
abbrev pub arena_size : ℕ
arena_size = 256

unfoldable pub listed : List Endpoint → Endpoint → Bool
unfolding bytes_eq
listed [] ep = false
listed (o ∷ out) ep = bytes_eq o.method ep.method || listed out ep

-- The `while` and the `memmove`: in front of the first that was not registered earlier.
unfoldable pub place : Endpoint → List Endpoint → List Endpoint
place ep [] = ep ∷ []
place ep (o ∷ out) = let rest = o ∷ place ep out in if ltb o.seq ep.seq then rest else ep ∷ o ∷ out

-- The loop over one node's endpoints.
unfoldable pub allow_node : List Endpoint → List Endpoint → List Endpoint
unfolding listed place
allow_node [] out = out
allow_node (ep ∷ eps) out =
    let next = allow_node eps (if listed out ep then out else place ep out) in
    if ltb (length out) allow_max then next else out

unfoldable pub allow_nodes : List (List Endpoint) → List Endpoint → List Endpoint
unfolding allow_node
allow_nodes [] out = out
allow_nodes (eps ∷ seen) out = allow_nodes seen (allow_node eps out)

unfoldable pub allowed_endpoints : List (List Endpoint) → List Endpoint
unfolding allow_nodes
allowed_endpoints seen = allow_nodes seen []

unfoldable pub method_is : Endpoint → Bytes → Bool
unfolding bytes_eq
method_is ep name = bytes_eq ep.method name

unfoldable pub any_method : Bytes → List Endpoint → Bool
unfolding method_is
any_method name [] = false
any_method name (ep ∷ eps) = method_is ep name || any_method name eps

unfoldable pub methods_len : List Endpoint → ℕ
methods_len [] = 0
methods_len (ep ∷ eps) = length ep.method + methods_len eps

-- The second loop of `allow_value`; the flag is `i != 0`.
unfoldable pub allow_text : Bool → Bool → List Endpoint → Bytes
unfolding method_is
allow_text add_head later [] = []
allow_text add_head later (ep ∷ eps) =
    (if later then codes ", " else [])
    ++ (ep.method
        ++ ((if add_head && method_is ep (codes "GET") then codes ", HEAD" else [])
            ++ allow_text add_head true eps))

unfoldable pub allow_value : List (List Endpoint) → Option Bytes
unfolding allowed_endpoints any_method methods_len allow_text
allow_value seen =
    let eps = allowed_endpoints seen in
    let n : ℕ = length eps in
    let add_head : Bool = any_method (codes "GET") eps && not (any_method (codes "HEAD") eps) in
    let len : ℕ = (if n == 0 then 0 else (n - 1) * 2 + 1) + methods_len eps in
    if n == 0 || ltb arena_size (len + (if add_head then 6 else 0))
    then none
    else some (allow_text add_head false eps)

-- How many endpoints are for a method.
unfoldable pub count_method : Bytes → List Endpoint → ℕ
unfolding bytes_eq
count_method m [] = 0
count_method m (ep ∷ eps) = (if bytes_eq ep.method m then 1 else 0) + count_method m eps

count_method-place :
    (m : Bytes) (ep : Endpoint) (out : List Endpoint)
    → count_method m (place ep out) ≡ count_method m (ep ∷ out)
unfolding count_method place
count_method-place m ep [] = refl
count_method-place m ep (o ∷ out) = ground (arith, count_method-place m ep out)

count_method-unlisted :
    (ep : Endpoint) (out : List Endpoint) → listed out ep ≡ false → count_method ep.method out ≡ 0
unfolding listed count_method
count_method-unlisted ep [] h = refl
count_method-unlisted ep (o ∷ out) h = ground (arith, count_method-unlisted ep out)

length-place : (ep : Endpoint) (out : List Endpoint) → length (place ep out) ≡ suc (length out)
unfolding place
length-place ep [] = refl
length-place ep (o ∷ out) = ground (arith, length-place ep out)

placed_once :
    (m : Bytes) (ep : Endpoint) (out : List Endpoint)
    → count_method m out ≤ 1
    → count_method m (if listed out ep then out else place ep out) ≤ 1
unfolding count_method
placed_once m ep out h = elim (Bool-cases (listed out ep)) [
  | inl e ↦ rw e h
  | inr e ↦ rw e (
      rw (count_method-place m ep out) (elim (Bool-cases (bytes_eq ep.method m)) [
        | inl same ↦ rw same (
            ground (
              arith,
              ap (λ x. count_method x out) ((bytes_eq_iff ep.method m).0 same),
              count_method-unlisted ep out e,
            ))
        | inr other ↦ rw other (omega arith)
      ]))
]

allow_node_once :
    (m : Bytes) (eps out : List Endpoint)
    → count_method m out ≤ 1
    → count_method m (allow_node eps out) ≤ 1
unfolding allow_node
allow_node_once m [] out h = h
allow_node_once m (ep ∷ eps) out h = elim (Bool-cases (ltb (length out) allow_max)) [
  | inl e ↦
      rw e (
        allow_node_once m eps (if listed out ep then out else place ep out)
          (placed_once m ep out h))
  | inr e ↦ rw e h
]

length-allow_node :
    (eps out : List Endpoint) → length out ≤ allow_max → length (allow_node eps out) ≤ allow_max
unfolding allow_node
length-allow_node [] out h = h
length-allow_node (ep ∷ eps) out h = elim (Bool-cases (ltb (length out) allow_max)) [
  | inl e ↦ rw e (
      length-allow_node eps (if listed out ep then out else place ep out)
        (ground (arith, length-place ep out)))
  | inr e ↦ rw e h
]

allow_nodes_once :
    (m : Bytes) (seen : List (List Endpoint)) (out : List Endpoint)
    → count_method m out ≤ 1
    → length out ≤ allow_max
    → (count_method m (allow_nodes seen out) ≤ 1) × (length (allow_nodes seen out) ≤ allow_max)
unfolding allow_nodes
allow_nodes_once m [] out h l = (h, l)
allow_nodes_once m (eps ∷ seen) out h l =
    allow_nodes_once m seen (allow_node eps out) (allow_node_once m eps out h)
      (length-allow_node eps out l)

-- The methods allowed are each listed once, and at most 16: the array that holds them is never
-- overrun.
pub allowed_endpoints_once :
    (m : Bytes) (seen : List (List Endpoint))
    → (count_method m (allowed_endpoints seen) ≤ 1) × (length (allowed_endpoints seen) ≤ allow_max)
unfolding allowed_endpoints count_method
allowed_endpoints_once m seen = allow_nodes_once m seen [] (omega arith) (omega arith)

length-allow_text :
    (add : Bool) (eps : List Endpoint)
    → length (allow_text add true eps)
      ≤ 2 * length eps + methods_len eps + (if add then 6 * count_method (codes "GET") eps else 0)
unfolding allow_text methods_len count_method method_is
length-allow_text false [] = omega arith
length-allow_text true [] = omega arith
length-allow_text false (ep ∷ eps) =
    omega (arith, length-append ep.method (allow_text false true eps), length-allow_text false eps)
length-allow_text true (ep ∷ eps) = elim (Bool-cases (bytes_eq ep.method (codes "GET"))) [
  | inl get ↦ rw get (
      omega (
        arith,
        length-append ep.method (codes ", HEAD" ++ allow_text true true eps),
        length-allow_text true eps,
      ))
  | inr other ↦ rw other (
      omega (arith, length-append ep.method (allow_text true true eps), length-allow_text true eps))
]

length-allow_text_first :
    (add : Bool) (ep : Endpoint) (eps : List Endpoint)
    → length (allow_text add true (ep ∷ eps)) ≡ 2 + length (allow_text add false (ep ∷ eps))
unfolding allow_text
length-allow_text_first add ep eps = omega arith

unless :
    (b : Bool) {t text : Bytes}
    → ◌≡◌ {A = Option Bytes} (if b then none else some t) (some text)
    → (b ≡ false) × (t ≡ text)
unless true e = absurd cc
unless false e = (refl, cc)

-- What the second loop writes is what the first counted.
room :
    (add : Bool) (ep : Endpoint) (eps : List Endpoint) {text : Bytes}
    → count_method (codes "GET") (ep ∷ eps) ≤ 1
    → (length (ep ∷ eps) == 0
        || ltb arena_size (
            (if length (ep ∷ eps) == 0 then 0 else (length (ep ∷ eps) - 1) * 2 + 1)
            + methods_len (ep ∷ eps)
            + (if add then 6 else 0)))
      ≡ false
    → allow_text add false (ep ∷ eps) ≡ text
    → length text + 1 ≤ arena_size
room false ep eps once fits same = ground (
  arith,
  length-allow_text false (ep ∷ eps),
  length-allow_text_first false ep eps,
  ap length same,
)
room true ep eps once fits same =
    ground (
      arith,
      length-allow_text true (ep ∷ eps),
      length-allow_text_first true ep eps,
      ap length same,
    )

-- The value of the `allow` header and the NUL behind it fit the request's arena.
pub length-allow_value :
    (seen : List (List Endpoint)) (text : Bytes)
    → allow_value seen ≡ some text
    → length text + 1 ≤ arena_size
unfolding allow_value
length-allow_value seen text e =
    go (allowed_endpoints seen) (allowed_endpoints_once (codes "GET") seen).0 e
  where
    go :
        (eps : List Endpoint)
        → count_method (codes "GET") eps ≤ 1
        → (let n : ℕ = length eps in
            let add_head : Bool =
              any_method (codes "GET") eps && not (any_method (codes "HEAD") eps) in
            let len : ℕ = (if n == 0 then 0 else (n - 1) * 2 + 1) + methods_len eps in
            if n == 0 || ltb arena_size (len + (if add_head then 6 else 0))
            then none
            else some (allow_text add_head false eps))
          ≡ some text
        → length text + 1 ≤ arena_size
    go [] once e = absurd cc
    go (ep ∷ eps) once e =
        let add : Bool =
          any_method (codes "GET") (ep ∷ eps) && not (any_method (codes "HEAD") (ep ∷ eps)) in
        let (fits, same) =
          unless
            (length (ep ∷ eps) == 0
              || ltb arena_size (
                  (if length (ep ∷ eps) == 0 then 0 else (length (ep ∷ eps) - 1) * 2 + 1)
                  + methods_len (ep ∷ eps)
                  + (if add then 6 else 0)))
            e in
        room add ep eps once fits same
