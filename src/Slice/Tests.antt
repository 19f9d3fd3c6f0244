-- ===== src/Slice/Tests.antt =====
-- Slices at concrete inputs.
use libioma.Base.{true, false, [], ◌∷◌, ◌++◌, ◌≡◌, ◌↔◌, ◌⊎◌, refl, Bytes, codes, all, some, arith}
use libioma.Slice.{
  slice_eq, slice_eq_ci, slice_starts_with, slice_trim, is_space, slice_find_char, slice_cut,
  slice_next, cstr,
}
use libioma.Slice.Compare.{SameText, slice_eq_iff, slice_eq_ci_iff, slice_starts_with_iff}
use libioma.Slice.Trim.{slice_trim_split, front_ok, back_ok}
use libioma.Slice.Split.{Lacks, IsFirst, find_char-IsFirst, slice_cut_cases}
use libioma.Slice.Items.{collect, parts, nonblank, collect-parts}

next_runs : slice_next (codes " , br;q=1, gzip") b',' ≡ some (codes "br;q=1", codes " gzip")
unfolding slice_next
next_runs = refl

collect_runs : collect 20 (codes " br;q=1, ,gzip ") b',' ≡ codes "br;q=1" ∷ codes "gzip" ∷ []
unfolding collect slice_next
collect_runs = refl

cstr_runs : cstr (codes "index") 4 ≡ (false, some (codes "ind"))
unfolding cstr
cstr_runs = refl

slice_eq_iff_example : (slice_eq (codes "q") (codes "q") ≡ true) ↔ (codes "q" ≡ codes "q")
slice_eq_iff_example = slice_eq_iff (codes "q") (codes "q")

slice_eq_ci_iff_example :
    (slice_eq_ci (codes "CZk") (codes "czk") ≡ true) ↔ SameText (codes "CZk") (codes "czk")
slice_eq_ci_iff_example =
    slice_eq_ci_iff (codes "CZk") (codes "czk") (omega arith, (omega arith, (omega arith, tt)))
      (omega arith, (omega arith, (omega arith, tt)))

slice_starts_with_iff_example :
    (slice_starts_with (codes "/api/x") (codes "/api") ≡ true)
    ↔ ((rest : Bytes) × (codes "/api/x" ≡ codes "/api" ++ rest))
slice_starts_with_iff_example = slice_starts_with_iff (codes "/api/x") (codes "/api")

slice_trim_split_example :
    (pre post : Bytes) × (codes " a b\r\n" ≡ pre ++ (slice_trim (codes " a b\r\n") ++ post))
    × (all is_space pre ≡ true)
    × (all is_space post ≡ true)
    × (front_ok (slice_trim (codes " a b\r\n")) ≡ true)
    × (back_ok (slice_trim (codes " a b\r\n")) ≡ true)
slice_trim_split_example = slice_trim_split (codes " a b\r\n")

find_char-IsFirst_example : IsFirst b'=' (codes "k=v=w") (slice_find_char (codes "k=v=w") b'=')
find_char-IsFirst_example = find_char-IsFirst (codes "k=v=w") b'='

slice_cut_cases_example :
    (Lacks b'=' (codes "k=v")
      × (slice_cut (codes "k=v") b'=' ≡ record { found = false; head = codes "k=v"; tail = [] }))
    ⊎ ((h t : Bytes) × (codes "k=v" ≡ h ++ b'=' ∷ t)
        × Lacks b'=' h
        × (slice_cut (codes "k=v") b'=' ≡ record { found = true; head = h; tail = t }))
slice_cut_cases_example = slice_cut_cases (codes "k=v") b'='

collect-parts_example :
    collect 20 (codes " br;q=1, ,gzip ") b',' ≡ nonblank (parts [] (codes " br;q=1, ,gzip ") b',')
collect-parts_example = collect-parts 20 (codes " br;q=1, ,gzip ") b',' (omega arith)
