-- ===== src/Query.antt =====
-- Percent decoding and `ioxd_kv_parse` of lib/http/api.c, and the hex digits of
-- lib/http/internal.h. A decoded slice is its bytes; of the arena only the bytes used are kept.
pub mod Decode
pub mod Parse
pub mod Loop
mod Tests
use Prim.Native.Nat.{bit_or}
use libioma.Base.{
  ℕ, zero, suc, ◌+◌, ◌-◌, ◌*◌, Bool, true, false, not, ◌&&◌, ◌||◌, Option, none, some, List, [],
  ◌∷◌, ◌++◌, Bytes, length, take, drop, ltb, leb, ◌==◌, if◌then◌else◌,
}

-- `ioxd__http_hexval`: `none` is -1.
unfoldable pub hexval : ℕ → Option ℕ
hexval c =
    if leb b'0' c && leb c b'9'
    then some (c - b'0')
    else let d = bit_or c 0x20 in if leb b'a' d && leb d b'f' then some (d - b'a' + 10) else none

-- `%XX`: the byte, if both are digits and it is not NUL.
unfoldable pub coded : ℕ → ℕ → Option ℕ
unfolding hexval
coded a b = elim (hexval a) [
  | none ↦ none
  | some hi ↦ elim (hexval b) [
    | none ↦ none
    | some lo ↦ if hi == 0 && lo == 0 then none else some (hi * 16 + lo)
  ]
]

abbrev pub plus : ℕ → ℕ
plus c = if c == b'+' then b' ' else c

-- `decode`: `i + 2 < len` says that two bytes are behind the `%`.
unfoldable pub decode : Bytes → Bytes
unfolding coded
decode [] = []
decode (c ∷ []) = plus c ∷ []
decode (c ∷ a ∷ []) = plus c ∷ plus a ∷ []
decode (c ∷ a ∷ b ∷ s) =
    let skip = decode s in
    let plain = plus c ∷ decode (a ∷ b ∷ s) in
    if c == b'%' then elim (coded a b) [ some v ↦ v ∷ skip | none ↦ plain ] else plain

-- `decode_into`: the text and what is used of the arena behind it; `none` when it has no room.
unfoldable pub decode_into : Bytes → ℕ → ℕ → Option (Bytes × ℕ)
unfolding decode
decode_into slice cap_ used =
    if ltb cap_ (used + length slice)
    then none
    else some (decode slice, used + length (decode slice))

-- What one pass over an item finds: the bytes before and behind its first `=`, and whether each
-- side has something to decode.
pub record Item : Type 0 where
  pub key : Bytes
  pub value : Bytes
  pub has_eq : Bool
  pub key_needs_decode : Bool
  pub value_needs_decode : Bool

abbrev pub no_item : Item
no_item = record {
  key = [];
  value = [];
  has_eq = false;
  key_needs_decode = false;
  value_needs_decode = false;
}

-- One byte of the inner `for`, the byte being no `&`.
unfoldable pub scan_byte : Item → ℕ → Item
scan_byte it ch =
    let coded = ch == b'%' || ch == b'+' in
    if it.has_eq
    then record it {
      value = it.value ++ ch ∷ [];
      value_needs_decode = it.value_needs_decode || coded;
    }
    else if ch == b'='
    then record it { has_eq = true }
    else record it { key = it.key ++ ch ∷ []; key_needs_decode = it.key_needs_decode || coded }

-- The inner `for`: the item up to the next `&`, and the text behind it.
unfoldable pub scan : Item → Bytes → Item × Bytes
unfolding scan_byte
scan it [] = (it, [])
scan it (ch ∷ text) = if ch == b'&' then (it, text) else scan (scan_byte it ch) text

-- Decode a side that needs it.
unfoldable pub decode_side : Bool → Bytes → ℕ → ℕ → Option (Bytes × ℕ)
unfolding decode_into
decode_side needs slice cap_ used =
    if needs then decode_into slice cap_ used else some (slice, used)

pub record Parsed : Type 0 where
  pub out : List (Bytes × Bytes)
  pub used : ℕ
  pub lost : Bool

-- One item that is not empty: both sides decoded, or neither and the arena as it was.
unfoldable pub put_pair : ℕ → Item → Parsed → Parsed
unfolding decode_side
put_pair arena_cap it p = elim (decode_side it.key_needs_decode it.key arena_cap p.used) [
  | none ↦ record p { lost = true }
  | some (key, used) ↦ elim (decode_side it.value_needs_decode it.value arena_cap used) [
    | none ↦ record p { lost = true }
    | some (value, used') ↦ record p { out = p.out ++ (key, value) ∷ []; used = used' }
  ]
]

-- `end > start`
abbrev pub nonempty : Item → Bool
nonempty it = it.has_eq || leb 1 (length it.key)

-- The outer `while`; every round takes a byte at least.
unfoldable pub kv_loop : ℕ → ℕ → ℕ → Bytes → Parsed → Parsed
unfolding scan put_pair
kv_loop zero cap_ arena_cap text p = p
kv_loop (suc fuel) cap_ arena_cap [] p = p
kv_loop (suc fuel) cap_ arena_cap (c ∷ text) p =
    let (it, rest) = scan no_item (c ∷ text) in
    let next =
      kv_loop fuel cap_ arena_cap rest (if nonempty it then put_pair arena_cap it p else p) in
    if length p.out == cap_ then record p { lost = true } else next

-- `ioxd_kv_parse`: the pairs, and whether one was left out.
unfoldable pub kv_parse : Bytes → ℕ → ℕ → List (Bytes × Bytes) × Bool
unfolding kv_loop
kv_parse text cap_ arena_cap =
    let p =
      kv_loop (length text) cap_ arena_cap text (record { out = []; used = 0; lost = false }) in
    (p.out, p.lost)
