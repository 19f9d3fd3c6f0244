-- ===== src/Header.antt =====
-- The response head and the request's lookups of lib/http/api.c. Of `ioxd_response` the fields that
-- these calls use; of `head` the bytes in use from its front, `own_type` being whether the content
-- type is the copy at its end.
pub mod Guard
mod Tests
use libioma.Base.{
  ℕ, zero, suc, ◌+◌, ◌-◌, ◌≤◌, Bool, true, false, not, ◌&&◌, ◌||◌, Option, none, some, List, [],
  ◌∷◌, ◌++◌, Bytes, codes, map, length, all, ltb, leb, ◌==◌, bytes_eq, if◌then◌else◌,
}
use libioma.Slice.{lower, slice_eq_ci}

abbrev pub head_cap : ℕ
head_cap = 3072

abbrev pub max_headers : ℕ
max_headers = 16

pub record Response : Type 0 where
  pub head : Bytes
  pub headers : List (Bytes × Bytes)
  pub head_sent : Bool
  pub content_type : Bytes
  pub own_type : Bool
  pub content_length : Option ℕ

-- `strchr`
unfoldable pub one_of : Bytes → ℕ → Bool
one_of [] c = false
one_of (x ∷ s) c = x == c || one_of s c

unfoldable pub is_tchar : ℕ → Bool
unfolding one_of
is_tchar c =
    (leb b'0' c && leb c b'9')
    || ((leb b'a' c && leb c b'z')
        || ((leb b'A' c && leb c b'Z') || (not (c == 0) && one_of (codes "!#$%&'*+-.^_`|~") c)))

unfoldable pub valid_char : ℕ → Bool
valid_char c = not ((ltb c 0x20 && not (c == b'\t')) || c == 0x7f)

abbrev pub valid_field_value : Bytes → Bool
valid_field_value = all valid_char

unfoldable pub content_type_reserved : Response → ℕ
content_type_reserved res = if res.own_type then length res.content_type else 0

-- `head_room` and the bytes that its caller puts there, false for a null pointer.
unfoldable pub put_head : Bytes → Response → Response × Bool
unfolding content_type_reserved
put_head line res =
    if ltb (head_cap - content_type_reserved res - length res.head) (length line)
    then (res, false)
    else (record res { head = res.head ++ line }, true)

unfoldable pub content_type : Bytes → Response → Response × Bool
unfolding valid_char
content_type type res =
    if res.head_sent
      || (not (valid_field_value type) || ltb (head_cap - length res.head) (length type))
    then (res, false)
    else (record res { content_type = type; own_type = true }, true)

abbrev pub header_line : Bytes → Bytes → Bytes
header_line name value = name ++ (codes ": " ++ (value ++ codes "\r\n"))

-- The headers that the engine writes itself.
unfoldable pub is_reserved : Bytes → Bool
unfolding slice_eq_ci
is_reserved name =
    slice_eq_ci name (codes "content-length")
    || (slice_eq_ci name (codes "transfer-encoding") || slice_eq_ci name (codes "connection"))

unfoldable pub header : Bytes → Bytes → Response → Response × Bool
unfolding is_tchar valid_char slice_eq_ci is_reserved put_head content_type lower
header name value res =
    if res.head_sent || (length res.headers == max_headers || length name == 0)
    then (res, false)
    else if not (all is_tchar name) || not (valid_field_value value)
    then (res, false)
    else if slice_eq_ci name (codes "content-type")
    then content_type value res
    else if is_reserved name
    then (res, false)
    else let (res', at) = put_head (header_line (map lower name) value) res in
      if at
      then (record res' { headers = res.headers ++ (map lower name, value) ∷ [] }, true)
      else (res', false)

unfoldable pub content_length : ℕ → Response → Response × Bool
content_length n res =
    if res.head_sent then (res, false) else (record res { content_length = some n }, true)

-- `ioxd_req_header` and `ioxd_req_param`: the first value of the name, none for a null slice.
unfoldable pub lookup : List (Bytes × Bytes) → Bytes → Option Bytes
unfolding bytes_eq
lookup [] name = none
lookup ((key, value) ∷ pairs) name = if bytes_eq key name then some value else lookup pairs name
