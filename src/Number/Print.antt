-- ===== src/Number/Print.antt =====
-- Printing: the digits fit their buffer and stand for the number.
use libioma.Base.{
  ℕ, zero, suc, ◌+◌, ◌/◌, ◌%◌, ◌^◌, ◌≤◌, ◌<◌, true, [], ◌∷◌, ◌++◌, ◌≡◌, refl, Bytes, arith, all,
  ◌∙◌, some, if◌then◌else◌, Bool-cases, inl, inr, length, ◌==◌, ◌≢◌, append_assoc, length-append,
  all-append, append-nil, ap, sym, ==_iff,
}
use libioma.Number.{digits_back, digits, put_uint}
use libioma.Number.Value.{is_digit, value, value-append, pow10}

-- A number spelled by its digits: no leading zero, and as many places as `room` at most.
pub record Spells (room v : ℕ) (ds : Bytes) : Type 0 where
  pub digits_only : all is_digit ds ≡ true
  pub stands_for : value 0 ds ≡ v
  pub not_empty : 1 ≤ length ds
  pub fits : length ds ≤ room
  pub no_leading_zero : (rest : Bytes) → ds ≡ b'0' ∷ rest → v ≡ 0

digits_back_round :
    (room v : ℕ) (out : Bytes)
    → digits_back (suc room) v out ≡ (
        if v / 10 == 0
        then some ((b'0' + v % 10) ∷ out)
        else digits_back room (v / 10) ((b'0' + v % 10) ∷ out))
unfolding digits_back
digits_back_round room v out = refl

one_digit : (room v : ℕ) → v / 10 ≡ 0 → Spells (suc room) v ((b'0' + v % 10) ∷ [])
one_digit room v e = record {
  digits_only = ground arith;
  stands_for = omega arith;
  not_empty = omega arith;
  fits = omega arith;
  no_leading_zero = λ rest same. ground arith;
}

more_digits :
    (room v : ℕ) (ds : Bytes)
    → v / 10 ≢ 0
    → Spells room (v / 10) ds
    → Spells (suc room) v (ds ++ (b'0' + v % 10) ∷ [])
more_digits room v [] ne h = absurd (omega (arith, h.not_empty))
more_digits room v (d ∷ ds) ne h = record {
  digits_only = ground (arith, all-append is_digit ds ((b'0' + v % 10) ∷ []), h.digits_only);
  stands_for = value-append (d ∷ ds) ((b'0' + v % 10) ∷ []) 0 ∙ omega (arith, h.stands_for);
  not_empty = omega arith;
  fits = omega (arith, h.fits, length-append ds ((b'0' + v % 10) ∷ []));
  no_leading_zero = λ rest same. absurd (ne (h.no_leading_zero ds (ground arith)));
}

room_left : (room v : ℕ) → v < pow10 (suc room) → v / 10 ≢ 0 → 1 ≤ room
room_left zero v lt ne = absurd (ne (omega arith))
room_left (suc room) v lt ne = omega arith

-- With room for as many places as the number needs, the loop writes its digits in front of what
-- is there.
pub digits_back-Spells :
    (room v : ℕ) (out : Bytes)
    → v < pow10 room
    → 1 ≤ room
    → (ds : Bytes) × (digits_back room v out ≡ some (ds ++ out)) × Spells room v ds
digits_back-Spells zero v out lt h = absurd (omega arith)
digits_back-Spells (suc room) v out lt h = elim (Bool-cases (v / 10 == 0)) [
  | inl e ↦ (
    (b'0' + v % 10) ∷ [],
    digits_back_round room v out ∙ rw e,
    one_digit room v ((==_iff (v / 10) 0).0 e),
  )
  | inr e ↦
      let ne : v / 10 ≢ 0 = ground arith in
      let (ds, eq, sp) =
        digits_back-Spells room (v / 10) ((b'0' + v % 10) ∷ out) (omega arith)
          (room_left room v lt ne) in
      (
        ds ++ (b'0' + v % 10) ∷ [],
        digits_back_round room v out
            ∙ rw e (eq ∙ ap some (sym (append_assoc ds ((b'0' + v % 10) ∷ []) out))),
        more_digits room v ds ne sp,
      )
]

-- More room changes nothing.
digits_back_more :
    (room extra v : ℕ) (out ds : Bytes)
    → digits_back room v out ≡ some ds
    → digits_back (extra + room) v out ≡ some ds
unfolding digits_back
digits_back_more zero extra v out ds h = cc
digits_back_more (suc room) extra v out ds h =
    let same : extra + suc room ≡ suc (extra + room) = omega arith in
    rw same (ground (arith, digits_back_more room extra (v / 10) ((b'0' + v % 10) ∷ out) ds))

-- `digits` writes every `uint64_t` inside its 24 bytes, and `put_uint` inside its 20: the decimal
-- text of the number, with no leading zero, the same from both.
pub digits-Spells :
    (v : ℕ)
    → v < 2 ^ 64
    → (ds : Bytes) × (digits v ≡ some ds) × (put_uint v ≡ some ds) × Spells 20 v ds
unfolding digits put_uint
digits-Spells v lt =
    let (ds, e, sp) = digits_back-Spells 20 v [] (omega arith) (omega arith) in
    (
      ds,
      digits_back_more 20 4 v [] (ds ++ []) e ∙ ap some (append-nil ds),
      e ∙ ap some (append-nil ds),
      sp,
    )
