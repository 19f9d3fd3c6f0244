-- ===== src/Engine/Request.antt =====
-- `fill_request` of lib/http/engine.c: from a parsed head to the request that a handler sees, or to
-- the status that refuses it.
use libioma.Base.{
  ℕ, ◌+◌, Bool, true, false, not, ◌&&◌, ◌||◌, none, some, List, [], ◌∷◌, Bytes, codes, length, take,
  drop, get_or, leb, ltb, ◌==◌, if◌then◌else◌,
}
use libioma.Slice.{slice_find_char}
use libioma.Number.{parse_length}
use libioma.Query.{kv_parse}
use libioma.Engine.Token.{eq_ci}
use libioma.Engine.Pick.{Header, Picked, pick_headers, keep_alive_from}

abbrev pub max_params : ℕ
max_params = 32

-- IOXD_PARAM_CAP
abbrev pub param_cap : ℕ
param_cap = 2048

-- What the head parser has found.
pub record Head : Type 0 where
  pub target : Bytes
  pub minor_version : ℕ
  pub headers : List Header

-- The fields of `ioxd_request` that are filled.
pub record Request : Type 0 where
  pub path : Bytes
  pub query : Bytes
  pub params : List (Bytes × Bytes)
  pub chunked : Bool
  pub content_length : ℕ
  pub keep_alive : Bool
  pub expect_continue : Bool

unfoldable pub starts_ci : Bytes → Bytes → Bool
unfolding eq_ci
starts_ci s lit = if ltb (length s) (length lit) then false else eq_ci (take (length lit) s) lit

-- A target in absolute form without its scheme and its authority.
unfoldable pub origin_form : Bytes → Bytes
unfolding starts_ci slice_find_char
origin_form target =
    let skip : ℕ = if get_or target 4 0 == b':' then 7 else 8 in
    let path : Bytes = elim (slice_find_char (drop skip target) b'/') [
      | some i ↦ drop i (drop skip target)
      | none ↦ codes "/"
    ] in
    if leb 1 (length target)
      && (not (get_or target 0 0 == b'/')
          && (starts_ci target (codes "http://") || starts_ci target (codes "https://")))
    then path
    else target

-- The path and the query.
unfoldable pub split_target : Bytes → Bytes × Bytes
unfolding slice_find_char
split_target target = elim (slice_find_char target b'?') [
  | some i ↦ (take i target, drop (i + 1) target)
  | none ↦ (target, [])
]

-- The body's framing, from what was picked; the chunked flag and the length, or a status.
pub data Body : Type 0 where
  framed : Bool → ℕ → Body
  refused : ℕ → Body

unfoldable pub frame : Picked → Body
unfolding parse_length
frame picked =
    if leb 1 picked.n_transfer_enc
    then if leb 1 picked.n_content_length
      then refused 400
      else if picked.te_other
      then refused 501
      else if not picked.te_last_chunked
      then refused 400
      else framed true 0
    else if leb 1 picked.n_content_length
    then elim (parse_length picked.content_length) [ none ↦ refused 400 | some n ↦ framed false n ]
    else framed false 0

-- The checks in order; `n_params` and `truncated` are what the query parser answered.
unfoldable pub check : ℕ → ℕ → Bool → Picked → Body
unfolding frame
check minor_version n_params truncated picked =
    if not (picked.refuse == 0)
    then refused picked.refuse
    else if truncated
    then refused (if n_params == max_params then 400 else 414)
    else if (if leb 1 minor_version then not (picked.n_host == 1) else ltb 1 picked.n_host)
    then refused 400
    else frame picked

unfoldable pub parse_query : Bytes → List (Bytes × Bytes) × Bool
unfolding kv_parse
parse_query [] = ([], false)
parse_query (c ∷ query) = kv_parse (c ∷ query) max_params param_cap

unfoldable pub is_chunked : Body → Bool
is_chunked (framed chunked n) = chunked
is_chunked (refused code) = false

unfoldable pub body_length : Body → ℕ
body_length (framed chunked n) = n
body_length (refused code) = 0

unfoldable pub status_of : Body → ℕ
status_of (framed chunked n) = 0
status_of (refused code) = code

-- The request and the status, 0 for none.
unfoldable pub fill_request : Head → Request × ℕ
unfolding origin_form split_target parse_query pick_headers keep_alive_from check is_chunked
    body_length status_of
fill_request head =
    let (path, query) = split_target (origin_form head.target) in
    let (params, truncated) = parse_query query in
    let picked = pick_headers head.headers in
    let body = check head.minor_version (length params) truncated picked in
    (
      record {
        path = path;
        query = query;
        params = params;
        chunked = is_chunked body;
        content_length = body_length body;
        keep_alive = keep_alive_from head.minor_version picked;
        expect_continue = picked.expect_continue;
      },
      status_of body,
    )
