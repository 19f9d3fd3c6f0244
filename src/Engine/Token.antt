-- ===== src/Engine/Token.antt =====
-- The comma-separated values of a header: `eq_ci`, `next_token` and `token_present_ci` of
-- lib/http/engine.c. `value + *at` is the text that is left.
use libioma.Base.{
  ℕ, zero, suc, ◌+◌, Bool, true, false, ◌&&◌, ◌||◌, Option, none, some, List, [], ◌∷◌, Bytes,
  length, leb, ◌==◌, if◌then◌else◌,
}

-- `(unsigned)(a - 'A') < 26U ? a | 0x20 : a`; the bit is clear in a capital.
unfoldable pub lower_ascii : ℕ → ℕ
lower_ascii a = if leb b'A' a && leb a b'Z' then a + 0x20 else a

unfoldable pub same_ci : Bytes → Bytes → Bool
unfolding lower_ascii
same_ci (x ∷ a) (y ∷ b) = lower_ascii x == lower_ascii y && same_ci a b
same_ci _ _ = true

unfoldable pub eq_ci : Bytes → Bytes → Bool
unfolding same_ci
eq_ci a b = length a == length b && same_ci a b

abbrev pub is_blank : ℕ → Bool
is_blank c = c == b' ' || c == b'\t'

abbrev pub is_gap : ℕ → Bool
is_gap c = c == b' ' || (c == b',' || c == b'\t')

unfoldable pub skip_gaps : Bytes → Bytes
skip_gaps [] = []
skip_gaps (c ∷ s) = let rest = skip_gaps s in if is_gap c then rest else c ∷ s

-- `while (*at < len && value[*at] != ',')`
unfoldable pub before_comma : Bytes → Bytes
before_comma [] = []
before_comma (c ∷ s) = let rest = c ∷ before_comma s in if c == b',' then [] else rest

unfoldable pub from_comma : Bytes → Bytes
from_comma [] = []
from_comma (c ∷ s) = let rest = from_comma s in if c == b',' then c ∷ s else rest

-- `while (end > start && ...) end--`: a byte goes when it and all behind it are blank.
unfoldable pub trim_end : Bytes → Bytes
trim_end [] = []
trim_end (c ∷ s) = elim (trim_end s) [ [] ↦ if is_blank c then [] else c ∷ [] | d ∷ t ↦ c ∷ d ∷ t ]

-- The token and the text behind it.
unfoldable pub next_token : Bytes → Option (Bytes × Bytes)
unfolding skip_gaps before_comma from_comma trim_end
next_token s = elim (skip_gaps s) [
  | [] ↦ none
  | c ∷ t ↦ some (trim_end (before_comma (c ∷ t)), from_comma (c ∷ t))
]

-- `while (next_token(...))`, the tokens in order; every round takes a byte at least.
unfoldable pub tokens_loop : ℕ → Bytes → List Bytes
unfolding next_token
tokens_loop zero s = []
tokens_loop (suc fuel) s = elim (next_token s) [
  | none ↦ []
  | some (tok, rest) ↦ tok ∷ tokens_loop fuel rest
]

unfoldable pub tokens : Bytes → List Bytes
unfolding tokens_loop
tokens s = tokens_loop (suc (length s)) s

unfoldable pub any_ci : List Bytes → Bytes → Bool
unfolding eq_ci
any_ci [] tok = false
any_ci (t ∷ ts) tok = eq_ci t tok || any_ci ts tok

unfoldable pub token_present_ci : Bytes → Bytes → Bool
unfolding tokens any_ci
token_present_ci value tok = any_ci (tokens value) tok
