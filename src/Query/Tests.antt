-- ===== src/Query/Tests.antt =====
-- Query strings at concrete inputs.
use libioma.Base.{◌≤◌, true, false, [], ◌∷◌, ◌≡◌, refl, arith, Bytes, codes, length}
use libioma.Query.{decode, kv_parse, Parsed, kv_loop}
use libioma.Query.Decode.{length-decode}
use libioma.Query.Parse.{pairs}
use libioma.Query.Loop.{kv_parse-pairs, kv_parse_enough, kv_loop-Fits}

-- A NUL stays as it was written, and so does a sequence without two digits.
decode_runs : decode (codes "a%20b+%00%4g%2") ≡ codes "a b %00%4g%2"
unfolding decode
decode_runs = refl

abbrev text : Bytes
text = codes "q=a+b&&x%3D=%41=&lone"

kv_parse_runs :
    kv_parse text 8 64
    ≡ ((codes "q", codes "a b") ∷ (codes "x=", codes "A=") ∷ (codes "lone", []) ∷ [], false)
unfolding kv_parse
kv_parse_runs = refl

kv_parse_full : kv_parse text 1 64 ≡ ((codes "q", codes "a b") ∷ [], true)
unfolding kv_parse
kv_parse_full = refl

kv_parse_small : kv_parse text 8 4 ≡ ((codes "q", codes "a b") ∷ (codes "lone", []) ∷ [], true)
unfolding kv_parse
kv_parse_small = refl

length-decode_example : length (decode (codes "%41%42c")) ≤ length (codes "%41%42c")
length-decode_example = length-decode (codes "%41%42c")

kv_parse-pairs_example : (kv_parse text 8 64).0 ≡ pairs text
unfolding kv_parse
kv_parse-pairs_example = kv_parse-pairs text 8 64 refl

kv_parse_enough_example : kv_parse text 8 64 ≡ (pairs text, false)
unfolding kv_parse
kv_parse_enough_example = kv_parse_enough text 8 64 (omega arith) (omega arith)

abbrev nothing : Parsed
nothing = record { out = []; used = 0; lost = false }

kv_loop-Fits_example :
    (length (kv_loop 30 1 4 text nothing).out ≤ 1) × ((kv_loop 30 1 4 text nothing).used ≤ 4)
kv_loop-Fits_example = kv_loop-Fits 30 1 4 text nothing (omega arith) (omega arith)
