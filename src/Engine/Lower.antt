-- ===== src/Engine/Lower.antt =====
-- `lower_inplace` of lib/http/engine.c: eight bytes at a time in one word, and the rest one by one.
use Prim.Native.Nat.{bit_and, bit_or}
use libioma.Base.{
  ℕ, zero, suc, ◌+◌, ◌-◌, ◌*◌, ◌/◌, ◌%◌, ◌^◌, ◌&&◌, [], ◌∷◌, ◌++◌, Bytes, map, leb, if◌then◌else◌,
}

-- `memcpy` to and from a 64-bit word, the first byte lowest as on x86-64.
unfoldable pub load : Bytes → ℕ
load [] = 0
load (c ∷ s) = c + 256 * load s

unfoldable pub store : ℕ → ℕ → Bytes
store zero w = []
store (suc n) w = w % 256 ∷ store n (w / 256)

-- `~w` of 64 bits.
abbrev pub complement : ℕ → ℕ
complement w = 2 ^ 64 - 1 - w % 2 ^ 64

-- Bit 5 of every byte whose bit 7 is set in `upper`.
unfoldable pub lower_word : ℕ → ℕ
lower_word w =
    let upper =
      bit_and
        (bit_and ((w + 0x3f3f3f3f3f3f3f3f) % 2 ^ 64)
          (complement ((w + 0x2525252525252525) % 2 ^ 64)))
        0x8080808080808080 in
    bit_or w (upper / 4)

unfoldable pub lower_byte : ℕ → ℕ
lower_byte c = if leb b'A' c && leb c b'Z' then c + 32 else c

-- `for (; i + 8 <= n; i += 8)`, then `for (; i < n; i++)`.
unfoldable pub lower_inplace : Bytes → Bytes
unfolding load store lower_word lower_byte
lower_inplace (a ∷ b ∷ c ∷ d ∷ e ∷ f ∷ g ∷ h ∷ s) =
    store 8 (lower_word (load (a ∷ b ∷ c ∷ d ∷ e ∷ f ∷ g ∷ h ∷ []))) ++ lower_inplace s
lower_inplace s = map lower_byte s
