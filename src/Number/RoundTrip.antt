-- ===== src/Number/RoundTrip.antt =====
-- Numbers printed by json.c and engine.c are read back by api.c.
use libioma.Base.{
  ℕ, ◌+◌, ◌-◌, ◌%◌, ◌^◌, ◌≤◌, ◌<◌, true, false, [], ◌∷◌, ◌≡◌, refl, sym, Bytes, arith, all, ◌∙◌,
  Option, none, some, ◌==◌, ap, ℤ, pos, negsuc, All, IsByte,
}
use libioma.Number.{
  digits_to_u64, digits, put_uint, to_u64, to_i64, int_text, negated, parse_length,
}
use libioma.Number.Value.{is_digit}
use libioma.Number.Read.{digits_to_u64_lem, parse_length_lem}
use libioma.Number.Print.{Spells, digits-Spells}

digits-IsByte : (s : Bytes) → all is_digit s ≡ true → All IsByte s
digits-IsByte [] h = tt
digits-IsByte (c ∷ s) h = (ground arith, digits-IsByte s (ground arith))

Spells-read :
    (s : Bytes) (v limit : ℕ)
    → Spells 20 v s
    → 9 ≤ limit
    → limit < 2 ^ 64
    → v ≤ limit
    → digits_to_u64 s limit ≡ some v
Spells-read s v limit sp h k le =
    digits_to_u64_lem s limit h k (digits-IsByte s sp.digits_only)
    ∙ ground (arith, sp.digits_only, sp.stands_for, sp.not_empty)

-- What is printed for a `uint64_t` reads back as it, by `ioxd_to_u64` and as a Content-Length.
pub to_u64-digits :
    (v : ℕ)
    → v < 2 ^ 64
    → (s : Bytes) × (digits v ≡ some s)
      × (put_uint v ≡ some s)
      × (to_u64 s ≡ some v)
      × (parse_length s ≡ some v)
to_u64-digits v lt =
    let (s, e, e', sp) = digits-Spells v lt in
    let read = Spells-read s v (2 ^ 64 - 1) sp (omega arith) (omega arith) (omega arith) in
    let read' : to_u64 s ≡ some v = unfold to_u64 in read in
    (s, e, e', read', sym (parse_length_lem s (digits-IsByte s sp.digits_only)).1 ∙ read')

abbrev pub IsI64 : ℤ → Type 0
IsI64 (pos n) = n < 2 ^ 63
IsI64 (negsuc n) = n < 2 ^ 63

to_i64-unsigned :
    (s : Bytes)
    → all is_digit s ≡ true
    → to_i64 s ≡ elim (digits_to_u64 s (2 ^ 63 - 1)) [ none ↦ none | some m ↦ some (pos m) ]
unfolding to_i64
to_i64-unsigned [] h = refl
to_i64-unsigned (c ∷ s) h = let e : (c == b'-') ≡ false = ground arith in rw e

to_i64-minus :
    (s : Bytes)
    → to_i64 (b'-' ∷ s)
      ≡ elim (digits_to_u64 s (2 ^ 63)) [ none ↦ none | some m ↦ some (negated m) ]
unfolding to_i64
to_i64-minus s = refl

pub int_text_minus :
    (n : ℕ) (s : Bytes) → digits ((n + 1) % 2 ^ 64) ≡ some s → int_text (negsuc n) ≡ some (b'-' ∷ s)
unfolding int_text
int_text_minus n s e =
    ap
      (λ (o : Option Bytes). elim o as (λ _. Option Bytes) [
        | none ↦ none
        | some t ↦ some (b'-' ∷ t)
      ])
      e

negated-suc : (n : ℕ) → some (negated (n + 1)) ≡ some (negsuc n)
unfolding negated
negated-suc n = ground arith

-- What `ioxd_json_int` prints for an `int64_t`, INT64_MIN included, reads back as it by
-- `ioxd_to_i64`.
pub to_i64-int_text : (v : ℤ) → IsI64 v → (s : Bytes) × (int_text v ≡ some s) × (to_i64 s ≡ some v)
to_i64-int_text (pos n) h =
    let (s, e, _, sp) = digits-Spells n (omega arith) in
    let read = Spells-read s n (2 ^ 63 - 1) sp (omega arith) (omega arith) (omega arith) in
    (s, unfold int_text in e, to_i64-unsigned s sp.digits_only ∙ rw read)
to_i64-int_text (negsuc n) h =
    let (s, e, _, sp) = digits-Spells ((n + 1) % 2 ^ 64) (omega arith) in
    let m : (n + 1) % 2 ^ 64 ≡ n + 1 = omega arith in
    let read =
      Spells-read s ((n + 1) % 2 ^ 64) (2 ^ 63) sp (omega arith) (omega arith) (omega arith) in
    (b'-' ∷ s, int_text_minus n s e, to_i64-minus s ∙ rw read (rw m (negated-suc n)))
