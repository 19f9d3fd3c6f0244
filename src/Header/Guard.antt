-- ===== src/Header/Guard.antt =====
-- What `ioxd_header` and `ioxd_content_type` keep true of a response head.
use libioma.Base.{
  ℕ, ◌+◌, ◌-◌, ◌≤◌, Bool, true, false, not, ◌||◌, some, List, [], ◌∷◌, ◌++◌, ◌≡◌, refl, sym, ap,
  ◌∙◌, arith, Bytes, codes, map, length, length-append, all, All, append-nil, append_assoc, ltb,
  ◌==◌, if◌then◌else◌,
}
use libioma.Slice.{lower, slice_eq_ci}
use libioma.Header.{
  Response, head_cap, max_headers, is_tchar, valid_field_value, content_type_reserved, put_head,
  content_type, header_line, is_reserved, header, content_length,
}

-- The calls of a handler.
pub data Op : Type 0 where
  adds : Bytes → Bytes → Op
  types : Bytes → Op
  lengths : ℕ → Op

unfoldable pub step : Op → Response → Response
step (adds name value) res = (header name value res).0
step (types type) res = (content_type type res).0
step (lengths n) res = (content_length n res).0

-- The lines of the headers.
abbrev pub lines : List (Bytes × Bytes) → Bytes
lines [] = []
lines ((name, value) ∷ hs) = header_line name value ++ lines hs

-- The name a token with nothing to lower, the value without a line's end or a control byte.
abbrev pub IsSafe : Bytes × Bytes → Type 0
IsSafe (name, value) =
    ((raw : Bytes) × (name ≡ map lower raw) × (all is_tchar raw ≡ true) × (is_reserved raw ≡ false))
    × (valid_field_value value ≡ true)

-- The head is the lines of the headers, all of them safe, and fits with the content type, which is
-- valid too if it was copied.
abbrev pub Clean : Response → Type 0
Clean res =
    (res.head ≡ lines res.headers)
    × All IsSafe res.headers
    × (length res.head + content_type_reserved res ≤ head_cap)
    × (length res.headers ≤ max_headers)
    × ((if res.own_type then valid_field_value res.content_type else true) ≡ true)

lines-append : (hs gs : List (Bytes × Bytes)) → lines (hs ++ gs) ≡ lines hs ++ lines gs
lines-append [] gs = refl
lines-append ((name, value) ∷ hs) gs =
    ap (λ x. header_line name value ++ x) (lines-append hs gs)
    ∙ sym (append_assoc (header_line name value) (lines hs) (lines gs))

All-append :
    (hs : List (Bytes × Bytes)) (h : Bytes × Bytes)
    → All IsSafe hs
    → IsSafe h
    → All IsSafe (hs ++ h ∷ [])
All-append [] h a s = (s, tt)
All-append (g ∷ hs) h (b, a) s = (b, All-append hs h a s)

abbrev After : Response × Bool → Type 0
After (res, done) = Clean res

content_type-Clean : (type : Bytes) (res : Response) → Clean res → Clean (content_type type res).0
unfolding content_type content_type_reserved
content_type-Clean type res (same, safe, room, few, valid) =
    go res.head_sent (valid_field_value type) (ltb (head_cap - length res.head) (length type)) refl
      refl
  where
    go :
        (s v full : Bool)
        → valid_field_value type ≡ v
        → ltb (head_cap - length res.head) (length type) ≡ full
        → After (
            if s || (not v || full)
            then (res, false)
            else (record res { content_type = type; own_type = true }, true))
    go true v full ev ef = (same, safe, room, few, valid)
    go false false full ev ef = (same, safe, room, few, valid)
    go false true true ev ef = (same, safe, room, few, valid)
    go false true false ev ef = (same, safe, ground (arith, ef), few, ev)

add-Clean :
    (name value : Bytes) (res : Response)
    → Clean res
    → all is_tchar name ≡ true
    → valid_field_value value ≡ true
    → is_reserved name ≡ false
    → (length res.headers == max_headers) ≡ false
    → After (
        let (res', at) = put_head (header_line (map lower name) value) res in
        if at
        then (record res' { headers = res.headers ++ (map lower name, value) ∷ [] }, true)
        else (res', false))
unfolding put_head content_type_reserved
add-Clean name value res (same, safe, room, few, valid) tok val plain below =
    go (ltb (head_cap - content_type_reserved res - length res.head) (length line)) refl
  where
    line : Bytes
    line = header_line (map lower name) value

    go :
        (full : Bool)
        → ltb (head_cap - content_type_reserved res - length res.head) (length line) ≡ full
        → After (
            let (res', at) : Response × Bool =
              (if full then (res, false) else (record res { head = res.head ++ line }, true)) in
            if at
            then (record res' { headers = res.headers ++ (map lower name, value) ∷ [] }, true)
            else (res', false))
    go true e = (same, safe, room, few, valid)
    go false e = (
      ap (λ x. x ++ line) same
          ∙ (ap (λ x. lines res.headers ++ x) (sym (append-nil line))
              ∙ sym (lines-append res.headers ((map lower name, value) ∷ []))),
      All-append res.headers (map lower name, value) safe ((name, refl, tok, plain), val),
      ground (arith, e, length-append res.head line),
      ground (arith, length-append res.headers ((map lower name, value) ∷ [])),
      valid,
    )

header-Clean : (name value : Bytes) (res : Response) → Clean res → Clean (header name value res).0
unfolding header
header-Clean name value res clean =
    go res.head_sent (length res.headers == max_headers) (length name == 0) (all is_tchar name)
      (valid_field_value value) (slice_eq_ci name (codes "content-type")) (is_reserved name) refl
      refl refl refl
  where
    go :
        (s m z t v c r : Bool)
        → (length res.headers == max_headers) ≡ m
        → all is_tchar name ≡ t
        → valid_field_value value ≡ v
        → is_reserved name ≡ r
        → After (
            if s || (m || z)
            then (res, false)
            else if not t || not v
            then (res, false)
            else if c
            then content_type value res
            else if r
            then (res, false)
            else let (res', at) = put_head (header_line (map lower name) value) res in
              if at
              then (record res' { headers = res.headers ++ (map lower name, value) ∷ [] }, true)
              else (res', false))
    go true m z t v c r em et ev er = clean
    go false true z t v c r em et ev er = clean
    go false false true t v c r em et ev er = clean
    go false false false false v c r em et ev er = clean
    go false false false true false c r em et ev er = clean
    go false false false true true true r em et ev er = content_type-Clean value res clean
    go false false false true true false true em et ev er = clean
    go false false false true true false false em et ev er =
        add-Clean name value res clean et ev er em

content_length-Clean : (n : ℕ) (res : Response) → Clean res → Clean (content_length n res).0
unfolding content_length content_type_reserved
content_length-Clean n res clean = go res.head_sent
  where
    go :
        (s : Bool)
        → After (if s then (res, false) else (record res { content_length = some n }, true))
    go true = clean
    go false = clean

-- Whatever a handler adds, the head stays the lines of its headers: each name of token characters,
-- lower-cased, none of those that frame the body, each value without a line's end or another control
-- byte, so that no call starts a line of its own; head and content type fit their 3072 bytes, and there
-- are at most 16 headers.
pub step-Clean : (op : Op) (res : Response) → Clean res → Clean (step op res)
unfolding step
step-Clean (adds name value) res clean = header-Clean name value res clean
step-Clean (types type) res clean = content_type-Clean type res clean
step-Clean (lengths n) res clean = content_length-Clean n res clean
