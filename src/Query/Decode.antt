-- ===== src/Query/Decode.antt =====
-- What percent decoding does: it never lengthens, leaves clean text alone, and undoes an encoding.
use libioma.Base.{
  ℕ, ◌/◌, ◌%◌, ◌≤◌, Bool, true, false, not, ◌||◌, Option, none, some, [], ◌∷◌, ◌≡◌, refl, arith,
  Bytes, codes, length, ◌==◌, get_or, all,
}
use libioma.Query.{decode}

pub length-decode : (s : Bytes) → length (decode s) ≤ length s
unfolding decode
length-decode [] = omega arith
length-decode (c ∷ []) = omega arith
length-decode (c ∷ a ∷ []) = omega arith
length-decode (c ∷ a ∷ b ∷ s) = ground (arith, length-decode s, length-decode (a ∷ b ∷ s))

-- Nothing to decode.
abbrev pub is_clean : ℕ → Bool
is_clean c = not (c == b'%' || c == b'+')

pub decode_clean : (s : Bytes) → all is_clean s ≡ true → decode s ≡ s
unfolding decode
decode_clean [] h = refl
decode_clean (c ∷ []) h = ground arith
decode_clean (c ∷ a ∷ []) h = ground arith
decode_clean (c ∷ a ∷ b ∷ s) h = ground (arith, decode_clean (a ∷ b ∷ s))

-- A byte as `%XX`, in capitals as RFC 3986 wants.
abbrev hex_upper : ℕ → ℕ
hex_upper d = get_or (codes "0123456789ABCDEF") d 0

abbrev pub encode : Bytes → Bytes
encode [] = []
encode (c ∷ s) = b'%' ∷ hex_upper (c / 16) ∷ hex_upper (c % 16) ∷ encode s

abbrev is_some : ℕ → Option ℕ → Bool
is_some c none = false
is_some c (some v) = v == c
