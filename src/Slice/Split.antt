-- ===== src/Slice/Split.antt =====
-- Searching for one byte, and cutting at it.
use libioma.Base.{
  ℕ, suc, ◌+◌, ◌<◌, true, false, [], ◌∷◌, ◌++◌, ◌≡◌, refl, ap, ◌∙◌, arith, Bytes, if◌then◌else◌,
  Bool-cases, length, length-append, all, inl, inr, ◌⊎◌, not, ◌==◌, Option, none, some, take, drop,
  ==_iff,
}
use libioma.Slice.{slice_find_char, slice_rfind_char, slice_cut}

-- The byte does not occur.
abbrev pub Lacks : ℕ → Bytes → Type 0
Lacks c s = all (λ x. not (x == c)) s ≡ true

-- What `memchr` promises of its answer: at the index stands the byte and before it there is none,
-- or there is none at all.
abbrev pub IsFirst : ℕ → Bytes → Option ℕ → Type 0
IsFirst c s none = Lacks c s
IsFirst c s (some i) = (s ≡ take i s ++ c ∷ drop (suc i) s) × Lacks c (take i s) × (i < length s)

IsFirst-cons :
    (x c : ℕ) (s : Bytes) (o : Option ℕ)
    → (x == c) ≡ false
    → IsFirst c s o
    → IsFirst c (x ∷ s) (elim o [ none ↦ none | some i ↦ some (suc i) ])
IsFirst-cons x c s none e h = rw e h
IsFirst-cons x c s (some i) e (split, lacks, lt) = (ap (◌∷◌ x) split, rw e lacks, omega arith)

pub find_char-IsFirst : (s : Bytes) (c : ℕ) → IsFirst c s (slice_find_char s c)
unfolding slice_find_char
find_char-IsFirst [] c = refl
find_char-IsFirst (x ∷ s) c = elim (Bool-cases (x == c)) [
  | inl e ↦ rw e (ap (λ y. y ∷ s) ((==_iff x c).0 e), refl, omega arith)
  | inr e ↦ rw e (IsFirst-cons x c s (slice_find_char s c) e (find_char-IsFirst s c))
]

pub find_char-Lacks : (s : Bytes) (c : ℕ) → Lacks c s → slice_find_char s c ≡ none
unfolding slice_find_char
find_char-Lacks [] c h = refl
find_char-Lacks (x ∷ s) c h = ground (arith, find_char-Lacks s c)

pub find_char_at :
    (h t : Bytes) (c : ℕ) → Lacks c h → slice_find_char (h ++ c ∷ t) c ≡ some (length h)
unfolding slice_find_char
find_char_at [] t c k = ground arith
find_char_at (x ∷ h) t c k = ground (arith, find_char_at h t c)

-- What `memrchr` promises: nothing behind the index is the byte.
abbrev pub IsLast : ℕ → Bytes → Option ℕ → Type 0
IsLast c s none = Lacks c s
IsLast c s (some i) =
    (s ≡ take i s ++ c ∷ drop (suc i) s) × Lacks c (drop (suc i) s) × (i < length s)

IsLast-cons :
    (x c : ℕ) (s : Bytes) (o : Option ℕ)
    → IsLast c s o
    → IsLast c (x ∷ s) (elim o [ none ↦ if x == c then some 0 else none | some i ↦ some (suc i) ])
IsLast-cons x c s none h = elim (Bool-cases (x == c)) [
  | inl e ↦ rw e (ap (λ y. y ∷ s) ((==_iff x c).0 e), h, omega arith)
  | inr e ↦ rw e (rw e h)
]
IsLast-cons x c s (some i) (split, lacks, lt) = (ap (◌∷◌ x) split, lacks, omega arith)

-- `ioxd_slice_rfind_char` answers the last index of the byte, or that there is none.
pub rfind_char-IsLast : (s : Bytes) (c : ℕ) → IsLast c s (slice_rfind_char s c)
unfolding slice_rfind_char
rfind_char-IsLast [] c = refl
rfind_char-IsLast (x ∷ s) c = IsLast-cons x c s (slice_rfind_char s c) (rfind_char-IsLast s c)

take-length-append : (h t : Bytes) → take (length h) (h ++ t) ≡ h
take-length-append [] t = refl
take-length-append (x ∷ h) t = ap (◌∷◌ x) (take-length-append h t)

drop-length-append : (h t : Bytes) (c n : ℕ) → n ≡ suc (length h) → drop n (h ++ c ∷ t) ≡ t
drop-length-append [] t c n e = rw e
drop-length-append (x ∷ h) t c n e = rw e (drop-length-append h t c (suc (length h)) refl)

drop-length : (s : Bytes) → drop (length s) s ≡ []
drop-length [] = refl
drop-length (x ∷ s) = drop-length s

-- With a separator in it the slice is cut at the first one: before it and after it.
pub slice_cut_at :
    (h t : Bytes) (sep : ℕ)
    → Lacks sep h
    → slice_cut (h ++ sep ∷ t) sep ≡ record { found = true; head = h; tail = t }
unfolding slice_cut
slice_cut_at h t sep k = ground (
  arith,
  find_char_at h t sep k,
  length-append h (sep ∷ t),
  take-length-append h (sep ∷ t),
  drop-length-append h t sep (length h + 1),
)

-- Without one the head is the whole slice and the tail is empty.
pub slice_cut_whole :
    (s : Bytes) (sep : ℕ)
    → Lacks sep s
    → slice_cut s sep ≡ record { found = false; head = s; tail = [] }
unfolding slice_cut
slice_cut_whole s sep k = ground (arith, find_char-Lacks s sep k, drop-length s)

-- `ioxd_slice_cut` has two ways. Where the separator is not in the slice, none is found, the head is the
-- whole slice and the tail is empty. Else the head is what stands in front of the first separator, without
-- one itself, and the tail is what stands behind it.
pub slice_cut_cases :
    (s : Bytes) (sep : ℕ)
    → (Lacks sep s × (slice_cut s sep ≡ record { found = false; head = s; tail = [] }))
      ⊎ ((h t : Bytes) × (s ≡ h ++ sep ∷ t)
          × Lacks sep h
          × (slice_cut s sep ≡ record { found = true; head = h; tail = t }))
slice_cut_cases s sep = cases (slice_find_char s sep) (find_char-IsFirst s sep)
  where
    cases :
        (o : Option ℕ)
        → IsFirst sep s o
        → (Lacks sep s × (slice_cut s sep ≡ record { found = false; head = s; tail = [] }))
          ⊎ ((h t : Bytes) × (s ≡ h ++ sep ∷ t)
              × Lacks sep h
              × (slice_cut s sep ≡ record { found = true; head = h; tail = t }))
    cases none k = inl (k, slice_cut_whole s sep k)
    cases (some i) (split, k, lt) = inr (
      take i s,
      drop (suc i) s,
      split,
      k,
      ap (λ x. slice_cut x sep) split ∙ slice_cut_at (take i s) (drop (suc i) s) sep k,
    )
