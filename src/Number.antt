-- ===== src/Number.antt =====
-- Decimal numbers: the conversions of lib/http/api.c, `parse_length` and `put_uint` of
-- lib/http/engine.c and the digits of lib/json/json.c.
pub mod Value
pub mod Read
pub mod Print
pub mod RoundTrip
mod Tests
use libioma.Base.{
  ℕ, zero, suc, ◌+◌, ◌-◌, ◌*◌, ◌/◌, ◌%◌, ◌^◌, Bool, true, false, ◌||◌, ◌&&◌, Option, none, some, [],
  ◌∷◌, Bytes, codes, ltb, ◌==◌, if◌then◌else◌, ℤ, pos, negsuc,
}
use libioma.Slice.{slice_eq_ci}

-- `(unsigned char)c - (unsigned)'0'`, a 32-bit subtraction.
unfoldable pub digit_of : ℕ → ℕ
digit_of c = (c + 2 ^ 32 - b'0') % 2 ^ 32

-- The loop of `digits_to_u64`: fails on a byte that is no digit, and
-- before the value would pass the limit. The arithmetic is that of `uint64_t`.
unfoldable pub digits_loop : ℕ → Bytes → ℕ → Option ℕ
unfolding digit_of
digits_loop limit [] v = some v
digits_loop limit (c ∷ cs) v =
    let d = digit_of c in
    let rest = digits_loop limit cs ((v * 10 + d) % 2 ^ 64) in
    if ltb 9 d || ltb ((limit + 2 ^ 64 - d) % 2 ^ 64 / 10) v then none else rest

unfoldable pub digits_to_u64 : Bytes → ℕ → Option ℕ
unfolding digits_loop
digits_to_u64 [] limit = none
digits_to_u64 (c ∷ cs) limit = digits_loop limit (c ∷ cs) 0

-- The loop of `parse_length` of engine.c, up to SIZE_MAX.
unfoldable pub length_loop : Bytes → ℕ → Option ℕ
unfolding digit_of
length_loop [] v = some v
length_loop (c ∷ cs) v =
    let d = digit_of c in
    let rest = length_loop cs ((v * 10 + d) % 2 ^ 64) in
    if ltb 9 d || ltb ((2 ^ 64 - 1 + 2 ^ 64 - d) % 2 ^ 64 / 10) v then none else rest

unfoldable pub parse_length : Bytes → Option ℕ
unfolding length_loop
parse_length [] = none
parse_length (c ∷ cs) = length_loop (c ∷ cs) 0

unfoldable pub to_u64 : Bytes → Option ℕ
unfolding digits_to_u64
to_u64 s = digits_to_u64 s (2 ^ 64 - 1)

-- `magnitude ? -(int64_t)(magnitude - 1) - 1 : 0`
unfoldable pub negated : ℕ → ℤ
negated magnitude = if magnitude == 0 then pos 0 else negsuc (magnitude - 1)

unfoldable pub to_i64 : Bytes → Option ℤ
unfolding digits_to_u64 negated
to_i64 [] = elim (digits_to_u64 [] (2 ^ 63 - 1)) [ none ↦ none | some m ↦ some (pos m) ]
to_i64 (c ∷ s) =
    if c == b'-'
    then elim (digits_to_u64 s (2 ^ 63)) [ none ↦ none | some m ↦ some (negated m) ]
    else elim (digits_to_u64 (c ∷ s) (2 ^ 63 - 1)) [ none ↦ none | some m ↦ some (pos m) ]

-- `v < INT_MIN || v > INT_MAX`
fits_int : ℤ → Bool
fits_int (pos n) = ltb n (2 ^ 31)
fits_int (negsuc n) = ltb n (2 ^ 31)

unfoldable pub to_int : Bytes → Option ℤ
unfolding to_i64 fits_int
to_int s = elim (to_i64 s) [ none ↦ none | some v ↦ if fits_int v then some v else none ]

-- `yes` and `no`, tried in pairs.
unfoldable pub to_bool : Bytes → Option Bool
unfolding slice_eq_ci
to_bool s =
    if slice_eq_ci s (codes "true")
    then some true
    else if slice_eq_ci s (codes "false")
    then some false
    else if slice_eq_ci s (codes "1")
    then some true
    else if slice_eq_ci s (codes "0")
    then some false
    else if slice_eq_ci s (codes "yes")
    then some true
    else if slice_eq_ci s (codes "no")
    then some false
    else if slice_eq_ci s (codes "on")
    then some true
    else if slice_eq_ci s (codes "off")
    then some false
    else none

-- `do { *--p = '0' + v % 10; v /= 10; } while (v)` into a buffer with `room` bytes in front of what
-- is written; `none` is a write past its start.
unfoldable pub digits_back : ℕ → ℕ → Bytes → Option Bytes
digits_back zero v out = none
digits_back (suc room) v out =
    let rest = digits_back room (v / 10) ((b'0' + v % 10) ∷ out) in
    if v / 10 == 0 then some ((b'0' + v % 10) ∷ out) else rest

-- `digits` of json.c: `char tmp[24]`.
unfoldable pub digits : ℕ → Option Bytes
unfolding digits_back
digits v = digits_back 24 v []

-- `put_uint` of engine.c: the same digits in `char tmp[20]`, least significant first, then copied
-- in the other order.
unfoldable pub put_uint : ℕ → Option Bytes
unfolding digits_back
put_uint v = digits_back 20 v []

-- `ioxd_json_int`: the magnitude in `uint64_t`, and `*--p = '-'` in front.
unfoldable pub int_text : ℤ → Option Bytes
unfolding digits
int_text (pos n) = digits n
int_text (negsuc n) = elim (digits ((n + 1) % 2 ^ 64)) [ none ↦ none | some t ↦ some (b'-' ∷ t) ]
