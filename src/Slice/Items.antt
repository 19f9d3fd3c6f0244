-- ===== src/Slice/Items.antt =====
-- `ioxd_slice_next` called until it answers false, as its callers do: the items of a separated
-- list.
use libioma.Base.{
  ℕ, zero, suc, ◌≤◌, ◌<◌, List, [], ◌∷◌, ◌++◌, ◌≡◌, refl, sym, ap, ◌∙◌, arith, Bytes, if◌then◌else◌,
  length, length-append, inl, inr, ◌⊎◌, ◌==◌, Option, none, some, append_assoc, append-nil,
}
use libioma.Slice.{slice_cut, slice_trim, slice_next, next_loop}
use libioma.Slice.Split.{Lacks, slice_cut_cases}

-- `while (ioxd_slice_next(&list, sep, &item))`, the items in order.
unfoldable pub collect : ℕ → Bytes → ℕ → List Bytes
collect zero list sep = []
collect (suc fuel) list sep = elim (slice_next list sep) [
  | none ↦ []
  | some (item, rest) ↦ item ∷ collect fuel rest sep
]

-- The text between the separators, `cur` standing before it.
abbrev pub parts : Bytes → Bytes → ℕ → List Bytes
parts cur [] sep = cur ∷ []
parts cur (c ∷ s) sep = if c == sep then cur ∷ parts [] s sep else parts (cur ++ c ∷ []) s sep

abbrev pub keep : Bytes → List Bytes → List Bytes
keep [] ps = ps
keep (c ∷ t) ps = (c ∷ t) ∷ ps

-- Each part trimmed, the empty ones left out.
abbrev pub nonblank : List Bytes → List Bytes
nonblank [] = []
nonblank (p ∷ ps) = keep (slice_trim p) (nonblank ps)

pub parts-Lacks : (cur s : Bytes) (sep : ℕ) → Lacks sep s → parts cur s sep ≡ (cur ++ s) ∷ []
parts-Lacks cur [] sep k = rw append-nil
parts-Lacks cur (c ∷ s) sep k =
    ground (arith, parts-Lacks (cur ++ c ∷ []) s sep, append_assoc cur (c ∷ []) s)

pub parts_at :
    (cur h t : Bytes) (sep : ℕ)
    → Lacks sep h
    → parts cur (h ++ sep ∷ t) sep ≡ (cur ++ h) ∷ parts [] t sep
parts_at cur [] t sep k = ground (arith, append-nil cur)
parts_at cur (c ∷ h) t sep k =
    ground (arith, parts_at (cur ++ c ∷ []) h t sep, append_assoc cur (c ∷ []) h)

trim-nil : slice_trim [] ≡ []
unfolding slice_trim
trim-nil = refl

-- One cut takes one part off.
cut_parts :
    (s : Bytes) (sep : ℕ)
    → (nonblank (parts [] s sep)
        ≡ keep (slice_trim (slice_cut s sep).head) (nonblank (parts [] (slice_cut s sep).tail sep)))
      × ((slice_cut s sep).tail ≡ [] ⊎ length (slice_cut s sep).tail < length s)
cut_parts s sep = elim (slice_cut_cases s sep) [
  | inl (k, e) ↦ (rw (e, parts-Lacks [] s sep k, trim-nil), inl (rw e))
  | inr (h, t, split, k, e) ↦ (
    rw e (ap (λ x. nonblank (parts [] x sep)) split ∙ rw (parts_at [] h t sep k)),
    inr (rw e (omega (arith, ap length split, length-append h (sep ∷ t)))),
  )
]

pub cut_shorter :
    (b : ℕ) (bs : Bytes) (sep : ℕ) → length (slice_cut (b ∷ bs) sep).tail < length (b ∷ bs)
cut_shorter b bs sep = elim (cut_parts (b ∷ bs) sep).1 [ inl e ↦ rw e (omega arith) | inr h ↦ h ]

-- What one call leaves, said of its answer: the items that are still to come.
abbrev Remaining : Bytes → ℕ → Option (Bytes × Bytes) → Type 0
Remaining list sep none = nonblank (parts [] list sep) ≡ []
Remaining list sep (some (item, rest)) =
    (nonblank (parts [] list sep) ≡ item ∷ nonblank (parts [] rest sep))
    × (length rest < length list)

Remaining-skip :
    (s t : Bytes) (sep : ℕ) (o : Option (Bytes × Bytes))
    → nonblank (parts [] s sep) ≡ nonblank (parts [] t sep)
    → length t < length s
    → Remaining t sep o
    → Remaining s sep o
Remaining-skip s t sep none e lt r = e ∙ r
Remaining-skip s t sep (some (item, rest)) e lt (r, less) = (e ∙ r, omega arith)

parts-nil : (sep : ℕ) → nonblank (parts [] [] sep) ≡ []
parts-nil sep = ap (λ p. keep p []) trim-nil

-- One round of the loop: `item` is the trimmed head, `rest` the tail, `o` what the next round gives.
next_round :
    (s item rest : Bytes) (sep : ℕ) (o : Option (Bytes × Bytes))
    → nonblank (parts [] s sep) ≡ keep item (nonblank (parts [] rest sep))
    → length rest < length s
    → Remaining rest sep o
    → Remaining s sep (elim item [ [] ↦ o | c ∷ t ↦ some (c ∷ t, rest) ])
next_round s [] rest sep o e lt r = Remaining-skip s rest sep o e lt r
next_round s (c ∷ t) rest sep o e lt r = (e, lt)

next_loop-Remaining :
    (fuel : ℕ) (list : Bytes) (sep : ℕ)
    → length list ≤ fuel
    → Remaining list sep (next_loop fuel list sep)
unfolding next_loop
next_loop-Remaining zero [] sep h = parts-nil sep
next_loop-Remaining zero (b ∷ bs) sep h = absurd (omega arith)
next_loop-Remaining (suc fuel) [] sep h = parts-nil sep
next_loop-Remaining (suc fuel) (b ∷ bs) sep h =
    let less = cut_shorter b bs sep in
    next_round (b ∷ bs) (slice_trim (slice_cut (b ∷ bs) sep).head) (slice_cut (b ∷ bs) sep).tail sep
      (next_loop fuel (slice_cut (b ∷ bs) sep).tail sep) (cut_parts (b ∷ bs) sep).0 less
      (next_loop-Remaining fuel (slice_cut (b ∷ bs) sep).tail sep (omega arith))

slice_next-Remaining : (list : Bytes) (sep : ℕ) → Remaining list sep (slice_next list sep)
unfolding slice_next
slice_next-Remaining list sep = next_loop-Remaining (length list) list sep (omega arith)

-- Walking a list by `ioxd_slice_next` yields exactly the parts between its separators, trimmed, in
-- order, the empty ones skipped; a call for each byte of the list and one more are enough.
pub collect-parts :
    (fuel : ℕ) (list : Bytes) (sep : ℕ)
    → length list < fuel
    → collect fuel list sep ≡ nonblank (parts [] list sep)
unfolding collect
collect-parts zero list sep h = absurd (omega arith)
collect-parts (suc fuel) list sep h =
    finish (slice_next list sep) (slice_next-Remaining list sep)
      (λ rest lt. collect-parts fuel rest sep (omega arith))
  where
    finish :
        (o : Option (Bytes × Bytes))
        → Remaining list sep o
        → ((rest : Bytes)
            → length rest < length list
            → collect fuel rest sep ≡ nonblank (parts [] rest sep))
        → (elim o [ none ↦ [] | some (item, rest) ↦ item ∷ collect fuel rest sep ])
          ≡ nonblank (parts [] list sep)
    finish none r ih = sym r
    finish (some (item, rest)) (e, lt) ih = ap (◌∷◌ item) (ih rest lt) ∙ sym e
