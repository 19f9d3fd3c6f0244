-- ===== src/Number/Tests.antt =====
-- Numbers at concrete inputs.
use libioma.Base.{◌^◌, ◌-◌, true, ◌≡◌, refl, Bytes, codes, some, none, if◌then◌else◌, arith, negsuc}
use libioma.Number.{
  digits_to_u64, parse_length, to_u64, to_i64, to_int, to_bool, digits, put_uint, int_text,
}
use libioma.Number.Read.{number_below, digits_to_u64_lem, parse_length_lem}
use libioma.Number.RoundTrip.{to_u64-digits, to_i64-int_text}

max_runs : to_u64 (codes "18446744073709551615") ≡ some (2 ^ 64 - 1)
unfolding to_u64
max_runs = refl

over_runs : to_u64 (codes "18446744073709551616") ≡ none
unfolding to_u64
over_runs = refl

min_runs : to_i64 (codes "-9223372036854775808") ≡ some (negsuc (2 ^ 63 - 1))
unfolding to_i64
min_runs = refl

int_runs : to_int (codes "2147483648") ≡ none
unfolding to_int
int_runs = refl

bool_runs : to_bool (codes "ON") ≡ some true
unfolding to_bool
bool_runs = refl

print_runs : int_text (negsuc 1234) ≡ some (codes "-1235")
unfolding int_text
print_runs = refl

digits_to_u64_lem_example :
    digits_to_u64 (codes "1234") 1000 ≡ (if true then number_below 1000 (codes "1234") else none)
digits_to_u64_lem_example =
    digits_to_u64_lem (codes "1234") 1000 (omega arith) (omega arith) (omega arith)

parse_length_lem_example :
    (parse_length (codes "42") ≡ (if true then number_below (2 ^ 64 - 1) (codes "42") else none))
    × (to_u64 (codes "42") ≡ parse_length (codes "42"))
parse_length_lem_example = parse_length_lem (codes "42") (omega arith)

to_u64-digits_example :
    (s : Bytes) × (digits 907 ≡ some s)
    × (put_uint 907 ≡ some s)
    × (to_u64 s ≡ some 907)
    × (parse_length s ≡ some 907)
to_u64-digits_example = to_u64-digits 907 (omega arith)

to_i64-int_text_example :
    (s : Bytes) × (int_text (negsuc 41) ≡ some s) × (to_i64 s ≡ some (negsuc 41))
to_i64-int_text_example = to_i64-int_text (negsuc 41) (omega arith)
