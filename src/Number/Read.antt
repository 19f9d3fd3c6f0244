-- ===== src/Number/Read.antt =====
-- Reading: exactly the decimal numbers within the limit are accepted, at their value.
use libioma.Base.{
  ℕ, ◌+◌, ◌-◌, ◌*◌, ◌/◌, ◌%◌, ◌^◌, ◌≤◌, ◌<◌, true, false, ◌&&◌, [], ◌∷◌, ◌≡◌, refl, Bytes, ltb, leb,
  arith, all, ◌∙◌, Option, none, some, if◌then◌else◌, ◌||◌, Bool-cases, All, IsByte, inl, inr,
  length, sym, ap,
}
use libioma.Number.{digit_of, digits_loop, digits_to_u64, parse_length, to_u64, length_loop}
use libioma.Number.Value.{is_digit, value, le-value}

-- The answer that the specification asks for.
abbrev pub number_below : ℕ → Bytes → Option ℕ
number_below limit s = if all is_digit s && leb (value 0 s) limit then some (value 0 s) else none

digit_of_digit : (c : ℕ) → is_digit c ≡ true → (digit_of c ≡ c - b'0') × (c - b'0' ≤ 9)
unfolding digit_of
digit_of_digit c h = ground arith

digit_of_other : (c : ℕ) → c < 256 → is_digit c ≡ false → 9 < digit_of c
unfolding digit_of
digit_of_other c h e = ground arith

-- One round at a digit: the guard is exactly that the next value passes the limit.
digit_round :
    (limit c v : ℕ) (cs : Bytes)
    → 9 ≤ limit
    → limit < 2 ^ 64
    → is_digit c ≡ true
    → v ≤ limit
    → digits_loop limit (c ∷ cs) v ≡ (
        if leb (v * 10 + (c - b'0')) limit
        then digits_loop limit cs (v * 10 + (c - b'0'))
        else none)
unfolding digits_loop
digit_round limit c v cs h k e lt = let d = digit_of_digit c e in rw (d.0) (round (c - b'0') d.1)
  where
    round :
        (d : ℕ)
        → d ≤ 9
        → (if ltb 9 d || ltb ((limit + 2 ^ 64 - d) % 2 ^ 64 / 10) v
            then none
            else digits_loop limit cs ((v * 10 + d) % 2 ^ 64))
          ≡ (if leb (v * 10 + d) limit then digits_loop limit cs (v * 10 + d) else none)
    round d le = elim (Bool-cases (leb (v * 10 + d) limit)) [
      | inl fits ↦
          let same : (v * 10 + d) % 2 ^ 64 ≡ v * 10 + d = ground arith in rw same (ground arith)
      | inr over ↦ ground arith
    ]

digits_loop_lem :
    (limit : ℕ) (cs : Bytes) (v : ℕ)
    → 9 ≤ limit
    → limit < 2 ^ 64
    → All IsByte cs
    → v ≤ limit
    → digits_loop limit cs v
      ≡ (if all is_digit cs && leb (value v cs) limit then some (value v cs) else none)
digits_loop_lem limit [] v h k b lt = unfold digits_loop in ground arith
digits_loop_lem limit (c ∷ cs) v h k (b, bs) lt = elim (Bool-cases (is_digit c)) [
  | inl e ↦
      digit_round limit c v cs h k e lt ∙ elim (Bool-cases (leb (v * 10 + (c - b'0')) limit)) [
        | inl fits ↦
            rw (fits, e) (digits_loop_lem limit cs (v * 10 + (c - b'0')) h k bs (ground arith))
        | inr over ↦ ground (arith, le-value cs (v * 10 + (c - b'0')))
      ]
  | inr e ↦ unfold digits_loop in ground (arith, digit_of_other c b e)
]

-- For a limit from 9 up to 2^64 - 1 (the program's are 2^63 - 1, 2^63 and 2^64 - 1), `digits_to_u64`
-- accepts a text of bytes exactly when it is not empty, all digits and at most the limit, and then
-- answers its value.
pub digits_to_u64_lem :
    (s : Bytes) (limit : ℕ)
    → 9 ≤ limit
    → limit < 2 ^ 64
    → All IsByte s
    → digits_to_u64 s limit ≡ (if leb 1 (length s) then number_below limit s else none)
unfolding digits_to_u64
digits_to_u64_lem [] limit h k b = refl
digits_to_u64_lem (c ∷ cs) limit h k b =
    digits_loop_lem limit (c ∷ cs) 0 h k b (omega arith) ∙ ground arith

-- The loop of `parse_length` and that of `digits_to_u64` up to SIZE_MAX agree.
length_loop-digits_loop : (cs : Bytes) (v : ℕ) → length_loop cs v ≡ digits_loop (2 ^ 64 - 1) cs v
unfolding length_loop digits_loop
length_loop-digits_loop [] v = refl
length_loop-digits_loop (c ∷ cs) v =
    ap
      (λ r.
        if ltb 9 (digit_of c) || ltb ((2 ^ 64 - 1 + 2 ^ 64 - digit_of c) % 2 ^ 64 / 10) v
        then none
        else r)
      (length_loop-digits_loop cs ((v * 10 + digit_of c) % 2 ^ 64))

-- On a text of bytes `parse_length`, by which a Content-Length is read, answers a value exactly for a
-- non-empty run of digits that fits 64 bits, and `ioxd_to_u64` answers the same.
pub parse_length_lem :
    (s : Bytes)
    → All IsByte s
    → (parse_length s ≡ (if leb 1 (length s) then number_below (2 ^ 64 - 1) s else none))
      × (to_u64 s ≡ parse_length s)
unfolding parse_length to_u64 digits_to_u64
parse_length_lem [] b = (refl, refl)
parse_length_lem (c ∷ cs) b = (
  length_loop-digits_loop (c ∷ cs) 0
      ∙ (digits_loop_lem (2 ^ 64 - 1) (c ∷ cs) 0 (omega arith) (omega arith) b (omega arith)
          ∙ ground arith),
  sym (length_loop-digits_loop (c ∷ cs) 0),
)
