-- ===== src/Json/Escape.antt =====
-- The escaping of lib/json/json.c: what `put_escaped` writes for a text, and that a JSON reader has
-- the text back.
use libioma.Base.{
  ℕ, zero, suc, ◌+◌, ◌-◌, ◌*◌, ◌/◌, ◌%◌, ◌<◌, true, ◌&&◌, Option, none, some, [], ◌∷◌, ◌++◌, ◌≡◌,
  refl, ap, ◌∙◌, arith, Bytes, length, take, drop, append_assoc, Bool-cases, inl, inr, ltb, leb,
  ◌==◌, if◌then◌else◌, all_below, all_below_sound, ==_iff,
}
use libioma.Json.Writer.{needs_escape, clean_run, hex_digit, escape}

-- One byte of a text as it stands between the quotes.
abbrev pub unit : ℕ → Bytes
unit c = if needs_escape c then escape c else c ∷ []

abbrev pub escaped : Bytes → Bytes
escaped [] = []
escaped (c ∷ p) = unit c ++ escaped p

-- A clean run stands for itself.
pub escaped-clean_run :
    (p : Bytes) → take (clean_run p) p ++ escaped (drop (clean_run p) p) ≡ escaped p
unfolding clean_run
escaped-clean_run [] = refl
escaped-clean_run (c ∷ p) = elim (Bool-cases (needs_escape c)) [
  | inl e ↦ ground arith
  | inr e ↦ ground (arith, escaped-clean_run p)
]

-- Where a clean run ends before the text does, a byte that needs an escape follows.
pub clean_run_end :
    (p : Bytes) (d : ℕ) (q : Bytes) → drop (clean_run p) p ≡ d ∷ q → needs_escape d ≡ true
unfolding clean_run
clean_run_end [] d q h = cc
clean_run_end (c ∷ p) d q h = elim (Bool-cases (needs_escape c)) [
  | inl e ↦ ground arith
  | inr e ↦ clean_run_end p d q (ground arith)
]

pub clean_run_all : (p : Bytes) → clean_run p ≡ length p → escaped p ≡ p
unfolding clean_run
clean_run_all [] h = refl
clean_run_all (c ∷ p) h = elim (Bool-cases (needs_escape c)) [
  | inl e ↦ absurd (ground arith)
  | inr e ↦ rw e (ap (◌∷◌ c) (clean_run_all p (ground arith)))
]

-- The value of a lower case hexadecimal digit.
abbrev hex_value : ℕ → ℕ
hex_value c = if leb c b'9' then c - b'0' else c - b'a' + 10

-- The byte behind a backslash, `none` for `u`.
abbrev short_escape : ℕ → Option ℕ
short_escape c =
    if c == b'"'
    then some b'"'
    else if c == b'\\'
    then some b'\\'
    else if c == b'n'
    then some b'\n'
    else if c == b'r'
    then some b'\r'
    else if c == b't'
    then some b'\t'
    else if c == b'b'
    then some 8
    else if c == b'f'
    then some 12
    else none

abbrev push : ℕ → Option (Bytes × Bytes) → Option (Bytes × Bytes)
push c none = none
push c (some (p, rest)) = some (c ∷ p, rest)

-- The four digits of a `\u` escape below 256.
abbrev hex_escape : (Bytes → Option (Bytes × Bytes)) → Bytes → Option (Bytes × Bytes)
hex_escape go (a ∷ b ∷ c ∷ d ∷ s) =
    if a == b'0' && b == b'0' then push (hex_value c * 16 + hex_value d) (go s) else none
hex_escape go _ = none

abbrev read_escape : (Bytes → Option (Bytes × Bytes)) → Bytes → Option (Bytes × Bytes)
read_escape go [] = none
read_escape go (c ∷ s) = elim (short_escape c) [
  | some b ↦ push b (go s)
  | none ↦ if c == b'u' then hex_escape go s else none
]

-- A JSON reader behind an opening quote: the text up to the closing one, and what is behind it.
-- A bare control character is refused.
pub read_text : ℕ → Bytes → Option (Bytes × Bytes)
read_text zero s = none
read_text (suc fuel) [] = none
read_text (suc fuel) (c ∷ s) =
    let more = read_text fuel s in
    let escape = read_escape (read_text fuel) s in
    if c == b'"'
    then some ([], s)
    else if c == b'\\'
    then escape
    else if ltb c 0x20
    then none
    else push c more

hex_table :
    all_below 32 (λ c. hex_value (hex_digit (c / 16)) * 16 + hex_value (hex_digit (c % 16)) == c)
    ≡ true
unfolding all_below hex_digit
hex_table = refl

hex_back :
    (c : ℕ) → c < 32 → hex_value (hex_digit (c / 16)) * 16 + hex_value (hex_digit (c % 16)) ≡ c
hex_back c h = (==_iff _ c).0 (all_below_sound 32 _ c hex_table h)

-- One unit is read as its byte.
read_unit :
    (fuel c : ℕ) (s : Bytes) → read_text (suc fuel) (unit c ++ s) ≡ push c (read_text fuel s)
unfolding read_text needs_escape escape
read_unit fuel c s = ground (arith, hex_back c)

-- The text of a string, escaped and closed by a quote, is read back as it was, and nothing of what
-- follows is taken for a part of it: no byte of the text can end the string early.
pub read_text-escaped :
    (p rest : Bytes) (fuel : ℕ)
    → length p < fuel
    → read_text fuel (escaped p ++ b'"' ∷ rest) ≡ some (p, rest)
read_text-escaped p rest zero h = absurd (omega arith)
read_text-escaped [] rest (suc fuel) h = unfold read_text in refl
read_text-escaped (c ∷ p) rest (suc fuel) h =
    ap (read_text (suc fuel)) (append_assoc (unit c) (escaped p) (b'"' ∷ rest))
    ∙ read_unit fuel c (escaped p ++ b'"' ∷ rest)
    ∙ ap (push c) (read_text-escaped p rest fuel (omega arith))
