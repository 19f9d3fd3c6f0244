-- ===== src/Slice.antt =====
-- The slices of lib/http/api.c and include/ioxd/slice.h: comparing, trimming, cutting, and walking
-- separated lists. A slice is the bytes that it shows; a C string is its bytes without the NUL.
pub mod Compare
pub mod Trim
pub mod Split
pub mod Items
mod Tests
use libioma.Base.{
  ℕ, zero, suc, ◌+◌, ◌-◌, ◌%◌, Bool, true, false, ◌&&◌, ◌||◌, Option, none, some, List, [], ◌∷◌,
  Bytes, codes, ltb, ◌==◌, if◌then◌else◌, bytes_eq, length, take, drop,
}

-- `memcmp` over the common length; the lengths are compared first.
unfoldable pub slice_eq : Bytes → Bytes → Bool
unfolding bytes_eq
slice_eq s cstr = length cstr == length s && bytes_eq s cstr

-- `(unsigned char)(c - 'A') < 26U`, the subtraction wrapping at 256.
unfoldable pub lower : ℕ → ℕ
lower c = if ltb ((c + 256 - b'A') % 256) 26 then (c + (b'a' - b'A')) % 256 else c

-- The loop of `ioxd_slice_eq_ci` over two texts of one length.
same_lower : Bytes → Bytes → Bool
unfolding lower
same_lower (x ∷ s) (y ∷ t) = lower x == lower y && same_lower s t
same_lower _ _ = true

unfoldable pub slice_eq_ci : Bytes → Bytes → Bool
unfolding same_lower
slice_eq_ci s cstr = length cstr == length s && same_lower s cstr

unfoldable pub slice_starts_with : Bytes → Bytes → Bool
unfolding bytes_eq
slice_starts_with s prefix =
    if ltb (length s) (length prefix) then false else bytes_eq (take (length prefix) s) prefix

unfoldable pub slice_ends_with : Bytes → Bytes → Bool
unfolding bytes_eq
slice_ends_with s suffix =
    if ltb (length s) (length suffix)
    then false
    else bytes_eq (drop (length s - length suffix) s) suffix

unfoldable pub is_space : ℕ → Bool
is_space c = c == b' ' || c == b'\t' || c == b'\r' || c == b'\n'

-- `while (s.len && is_space(s.p[0]))`
unfoldable pub trim_front : Bytes → Bytes
unfolding is_space
trim_front [] = []
trim_front (c ∷ s) = let rest = trim_front s in if is_space c then rest else c ∷ s

-- `while (s.len && is_space(s.p[s.len - 1]))`: a byte goes when it and all behind it are spaces.
unfoldable pub trim_back : Bytes → Bytes
unfolding is_space
trim_back [] = []
trim_back (c ∷ s) = elim (trim_back s) [
  | [] ↦ if is_space c then [] else c ∷ []
  | d ∷ t ↦ c ∷ d ∷ t
]

unfoldable pub slice_trim : Bytes → Bytes
unfolding trim_front trim_back
slice_trim s = trim_back (trim_front s)

-- `memchr`: the index of the first `c`; `none` is -1.
unfoldable pub slice_find_char : Bytes → ℕ → Option ℕ
slice_find_char [] c = none
slice_find_char (x ∷ s) c =
    if x == c then some 0 else elim (slice_find_char s c) [ none ↦ none | some i ↦ some (suc i) ]

-- `memrchr`: the index of the last `c`.
unfoldable pub slice_rfind_char : Bytes → ℕ → Option ℕ
slice_rfind_char [] c = none
slice_rfind_char (x ∷ s) c = elim (slice_rfind_char s c) [
  | none ↦ if x == c then some 0 else none
  | some i ↦ some (suc i)
]

-- An index past the end is the end.
unfoldable pub slice_from : Bytes → ℕ → Bytes
slice_from s at = drop (if ltb (length s) at then length s else at) s

unfoldable pub slice_upto : Bytes → ℕ → Bytes
slice_upto s at = take (if ltb at (length s) then at else length s) s

-- What `ioxd_slice_cut` returns, with `*head` and `*tail`.
pub record Cut : Type 0 where
  pub found : Bool
  pub head : Bytes
  pub tail : Bytes

unfoldable pub slice_cut : Bytes → ℕ → Cut
unfolding slice_find_char slice_from slice_upto
slice_cut s sep = elim (slice_find_char s sep) [
  | none ↦ record { found = false; head = s; tail = slice_from s (length s) }
  | some at ↦ record { found = true; head = slice_upto s at; tail = slice_from s (at + 1) }
]

-- `ioxd_slice_next`: the item and what `*list` is moved to; `none` when the list is spent. The
-- loop takes at most one round for each byte of the list.
unfoldable pub next_loop : ℕ → Bytes → ℕ → Option (Bytes × Bytes)
unfolding slice_cut slice_trim
next_loop zero list sep = none
next_loop (suc fuel) [] sep = none
next_loop (suc fuel) (b ∷ bs) sep =
    let cut = slice_cut (b ∷ bs) sep in
    let again = next_loop fuel cut.tail sep in
    elim (slice_trim cut.head) [ [] ↦ again | c ∷ item ↦ some (c ∷ item, cut.tail) ]

unfoldable pub slice_next : Bytes → ℕ → Option (Bytes × Bytes)
unfolding next_loop
slice_next list sep = next_loop (length list) list sep

-- `ioxd_cstr`: whether the copy is the slice, and the bytes that `buf` holds before the
-- terminator; nothing is written at cap 0.
unfoldable pub cstr : Bytes → ℕ → Bool × Option Bytes
unfolding slice_find_char
cstr s zero = (false, none)
cstr s (suc room) =
    let n : ℕ = if ltb (length s) (suc room) then length s else room in
    (
      n == length s && elim (slice_find_char (take n s) 0) [ none ↦ true | some _ ↦ false ],
      some (take n s),
    )
