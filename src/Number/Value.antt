-- ===== src/Number/Value.antt =====
-- What a string of decimal digits stands for.
use libioma.Base.{
  ℕ, zero, suc, ◌+◌, ◌-◌, ◌*◌, ◌≤◌, Bool, ◌&&◌, [], ◌∷◌, ◌++◌, ◌≡◌, refl, Bytes, leb, arith,
}

abbrev pub is_digit : ℕ → Bool
is_digit c = leb b'0' c && leb c b'9'

-- The number that the digits continue from `v`.
abbrev pub value : ℕ → Bytes → ℕ
value v [] = v
value v (c ∷ cs) = value (v * 10 + (c - b'0')) cs

pub le-value : (cs : Bytes) (v : ℕ) → v ≤ value v cs
le-value [] v = omega arith
le-value (c ∷ cs) v = omega (arith, le-value cs (v * 10 + (c - b'0')))

pub value-append : (a b : Bytes) (v : ℕ) → value v (a ++ b) ≡ value (value v a) b
value-append [] b v = refl
value-append (c ∷ a) b v = value-append a b (v * 10 + (c - b'0'))

-- Ten times itself for each place.
abbrev pub pow10 : ℕ → ℕ
pow10 zero = 1
pow10 (suc k) = 10 * pow10 k
