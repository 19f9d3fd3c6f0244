-- ===== src/Router/Chain.antt =====
-- The full path of an endpoint, its chain of middleware, and how the chain runs: `prepend`,
-- `full_path`, `flatten_chain` and `ioxd_next_run` of lib/http/router.c.
use libioma.Base.{
  blit, ℕ, zero, suc, ◌+◌, ◌-◌, ◌≤◌, ◌<◌, Bool, not, ◌&&◌, Option, none, some, List, [], ◌∷◌, ◌++◌,
  ◌≡◌, refl, sym, ap, ◌∙◌, arith, Bytes, length, length-append, get_elem?, take, drop, length-take,
  ==_iff, ltb, leb, ◌==◌, if◌then◌else◌, Bool-cases, inl, inr, append-nil, append_assoc,
}

-- `struct ioxd_group` without its parent: an endpoint's groups are listed from its own outwards.
pub record Group : Type 0 where
  pub prefix : Bytes
  pub mws : List ℕ

abbrev last_or : ℕ → Bytes → ℕ
last_or d [] = d
last_or d (c ∷ s) = last_or c s

abbrev head_or : ℕ → Bytes → ℕ
head_or d [] = d
head_or d (c ∷ s) = c

-- `prepend`: what stands in the buffer from `*at` on; its first byte is NUL while it is empty.
unfoldable pub prepend : Bytes → Bytes → Bytes
prepend part buf =
    let slash : Bool =
      leb 1 (length part)
      && (leb 1 (length buf) && (not (last_or 0 part == b'/') && not (head_or 0 buf == b'/'))) in
    if slash then part ++ b'/' ∷ buf else part ++ buf

unfoldable pub prepend_groups : List Group → Bytes → Bytes
unfolding prepend
prepend_groups [] buf = buf
prepend_groups (g ∷ gs) buf = prepend_groups gs (prepend g.prefix buf)

unfoldable pub full_path : Bytes → List Group → Bytes
unfolding prepend_groups
full_path path groups = prepend_groups groups (prepend path [])

-- `len + parts` of `full_path`: what `malloc` is asked for, less the NUL.
unfoldable pub path_room : Bytes → List Group → ℕ
path_room path [] = length path + 1
path_room path (g ∷ gs) = length g.prefix + 1 + path_room path gs

abbrev pub zeros : ℕ → List ℕ
zeros zero = []
zeros (suc n) = 0 ∷ zeros n

unfoldable pub count_mws : List Group → ℕ
count_mws [] = 0
count_mws (g ∷ gs) = length g.mws + count_mws gs

-- The loop over the groups, from the endpoint's outwards, filling the chain from its end.
unfoldable pub fill_groups : List Group → ℕ → List ℕ → List ℕ
unfolding blit
fill_groups [] at chain = chain
fill_groups (g ∷ gs) at chain =
    fill_groups gs (at - length g.mws) (blit (at - length g.mws) g.mws chain)

unfoldable pub flatten_chain : List ℕ → List Group → List ℕ
unfolding count_mws fill_groups blit
flatten_chain own groups =
    let n : ℕ = length own + count_mws groups in
    if n == 0 then [] else fill_groups groups (n - length own) (blit (n - length own) own (zeros n))

-- What `ioxd_next_run` calls: the middleware or, behind the last, the handler.
pub data Called : Type 0 where
  middleware : ℕ → Called
  handler : Called

-- `ioxd_next_run`: the call, and the new `i`.
unfoldable pub next_run : List ℕ → ℕ → Option Called × ℕ
next_run mws i = if ltb (length mws) i then (none, i) else elim (get_elem? mws i) [
  | some mw ↦ (some (middleware mw), i + 1)
  | none ↦ (some handler, i + 1)
]

-- The calls of `next_run` in a row, as the middleware make them.
unfoldable pub run_chain : ℕ → List ℕ → ℕ → List Called
unfolding next_run
run_chain zero mws i = []
run_chain (suc k) mws i =
    let (called, j) = next_run mws i in
    elim called [ none ↦ run_chain k mws j | some c ↦ c ∷ run_chain k mws j ]

-- `run`: the handler at once, or the first call of the chain; the middleware make up to `k`.
unfoldable pub run : ℕ → List ℕ → List Called
unfolding run_chain
run k mws = if length mws == 0 then handler ∷ [] else run_chain k mws 0

length-prepend : (part buf : Bytes) → length (prepend part buf) ≤ length part + 1 + length buf
unfolding prepend
length-prepend part buf = ground (arith, length-append part (b'/' ∷ buf), length-append part buf)

length-prepend_groups :
    (groups : List Group) (path buf : Bytes)
    → length (prepend_groups groups buf) + (length path + 1) ≤ length buf + path_room path groups
unfolding prepend_groups path_room
length-prepend_groups [] path buf = omega arith
length-prepend_groups (g ∷ gs) path buf =
    omega (arith, length-prepend_groups gs path (prepend g.prefix buf), length-prepend g.prefix buf)

-- The full path of an endpoint fits the memory that `full_path` asks for, whatever slashes it puts
-- between the parts.
pub length-full_path :
    (path : Bytes) (groups : List Group) → length (full_path path groups) ≤ path_room path groups
unfolding full_path
length-full_path path groups =
    omega (arith, length-prepend_groups groups path (prepend path []), length-prepend path [])

-- The middleware of the groups, the outermost group's first.
abbrev pub outer_first : List Group → List ℕ
outer_first [] = []
outer_first (g ∷ gs) = outer_first gs ++ g.mws

drop-append : (pre rest : List ℕ) (n : ℕ) → length pre ≡ n → drop n (pre ++ rest) ≡ rest
drop-append [] rest n e = rw (sym e) refl
drop-append (x ∷ pre) rest zero e = absurd (omega arith)
drop-append (x ∷ pre) rest (suc n) e = drop-append pre rest n (omega arith)

blit-append :
    (at : ℕ) (src pre rest : List ℕ)
    → length pre ≡ at + length src
    → blit at src (pre ++ rest) ≡ take at (pre ++ rest) ++ (src ++ rest)
unfolding blit
blit-append at src pre rest e =
    ap (λ x. take at (pre ++ rest) ++ (src ++ x)) (drop-append pre rest (at + length src) e)

fill_groups-append :
    (groups : List Group) (at : ℕ) (pre rest : List ℕ)
    → length pre ≡ at
    → at ≡ count_mws groups
    → fill_groups groups at (pre ++ rest) ≡ outer_first groups ++ rest
unfolding fill_groups count_mws
fill_groups-append [] at [] rest e f = refl
fill_groups-append [] at (x ∷ pre) rest e f = absurd (omega arith)
fill_groups-append (g ∷ gs) at pre rest e f =
    ap (fill_groups gs (at - length g.mws))
      (blit-append (at - length g.mws) g.mws pre rest (omega arith))
    ∙ (fill_groups-append gs (at - length g.mws) (take (at - length g.mws) (pre ++ rest))
          (g.mws ++ rest)
          (omega (arith, length-take (at - length g.mws) (pre ++ rest), length-append pre rest))
          (omega arith)
        ∙ sym (append_assoc (outer_first gs) g.mws rest))

length-zeros : (n : ℕ) → length (zeros n) ≡ n
length-zeros zero = refl
length-zeros (suc n) = ap suc (length-zeros n)

nil_of_length : (m : List ℕ) → length m ≡ 0 → m ≡ []
nil_of_length [] e = refl
nil_of_length (x ∷ m) e = absurd (omega arith)

count_zero :
    (own : List ℕ) (groups : List Group)
    → length own + count_mws groups ≡ 0
    → outer_first groups ++ own ≡ []
unfolding count_mws
count_zero own [] h = nil_of_length own (omega arith)
count_zero own (g ∷ gs) h =
    ap (λ m. (outer_first gs ++ m) ++ own) (nil_of_length g.mws (omega arith))
    ∙ (ap (λ x. x ++ own) (append-nil (outer_first gs)) ∙ count_zero own gs (omega arith))

-- The chain of an endpoint is the middleware of its groups, from the root's to its own group's, and
-- then its own.
pub flatten_chain_lem :
    (own : List ℕ) (groups : List Group) → flatten_chain own groups ≡ outer_first groups ++ own
unfolding flatten_chain
flatten_chain_lem own groups = elim (Bool-cases (n == 0)) [
  | inl e ↦ rw e (sym (count_zero own groups ((==_iff n 0).0 e)))
  | inr e ↦ rw e (
      ap (λ z. fill_groups groups at (blit at own z)) (sym (append-nil (zeros n)))
      ∙ (ap (fill_groups groups at)
            (blit-append at own (zeros n) [] (omega (arith, length-zeros n)))
          ∙ (fill_groups-append groups at (take at (zeros n ++ [])) (own ++ [])
                (omega (
                  arith,
                  length-take at (zeros n ++ []),
                  length-append (zeros n) [],
                  length-zeros n,
                ))
                (omega arith)
              ∙ ap (λ x. outer_first groups ++ x) (append-nil own))))
]
  where
    n : ℕ
    n = length own + count_mws groups

    at : ℕ
    at = n - length own

-- Each middleware once, in order, and then the handler once.
abbrev pub plan : List ℕ → List Called
plan [] = handler ∷ []
plan (mw ∷ mws) = middleware mw ∷ plan mws

get_elem?-past : (mws : List ℕ) → get_elem? mws (length mws) ≡ none
get_elem?-past [] = refl
get_elem?-past (x ∷ mws) = get_elem?-past mws

get_elem?-append :
    (done mws : List ℕ) (mw : ℕ) → get_elem? (done ++ mw ∷ mws) (length done) ≡ some mw
get_elem?-append [] mws mw = refl
get_elem?-append (x ∷ done) mws mw = get_elem?-append done mws mw

run_past : (k : ℕ) (mws : List ℕ) (i : ℕ) → length mws < i → run_chain k mws i ≡ []
unfolding run_chain next_run
run_past zero mws i h = refl
run_past (suc k) mws i h = ground (arith, run_past k mws i h)

run_end : (k : ℕ) (mws : List ℕ) → run_chain (suc k) mws (length mws) ≡ handler ∷ []
unfolding run_chain next_run
run_end k mws = ground (arith, get_elem?-past mws, run_past k mws (length mws + 1) (omega arith))

run_next :
    (k : ℕ) (done mws : List ℕ) (mw : ℕ)
    → run_chain (suc k) (done ++ mw ∷ mws) (length done)
      ≡ middleware mw ∷ run_chain k (done ++ mw ∷ mws) (length done + 1)
unfolding run_chain next_run
run_next k done mws mw = ground (arith, get_elem?-append done mws mw, length-append done (mw ∷ mws))

run_from :
    (k : ℕ) (done mws : List ℕ)
    → length mws < k
    → run_chain k (done ++ mws) (length done) ≡ plan mws
run_from zero done mws h = absurd (omega arith)
run_from (suc k) done [] h =
    ap (λ x. run_chain (suc k) x (length done)) (append-nil done) ∙ run_end k done
run_from (suc k) done (mw ∷ mws) h =
    run_next k done mws mw
    ∙ ap (◌∷◌ (middleware mw)) (
        ap (λ x. run_chain k x (length done + 1)) (sym (append_assoc done (mw ∷ []) mws))
        ∙ (ap (run_chain k ((done ++ mw ∷ []) ++ mws)) (sym (length-append done (mw ∷ [])))
            ∙ run_from k (done ++ mw ∷ []) mws (omega arith)))

-- However often a chain is asked for its next function, more than once for each middleware, it calls
-- each middleware once, in order, then the handler once, and nothing after it.
pub run_chain-plan : (k : ℕ) (mws : List ℕ) → length mws < k → run_chain k mws 0 ≡ plan mws
run_chain-plan k mws h = run_from k [] mws h

-- `run` makes the calls that are planned, without middleware too.
pub run-plan : (k : ℕ) (mws : List ℕ) → length mws < k → run k mws ≡ plan mws
unfolding run
run-plan k [] h = refl
run-plan k (mw ∷ mws) h = ground (arith, run_chain-plan k (mw ∷ mws) h)
