-- ===== src/Slice/Trim.antt =====
-- What `ioxd_slice_trim` removes, and what it leaves.
use libioma.Base.{
  ℕ, ◌≤◌, Bool, true, [], ◌∷◌, ◌++◌, ◌≡◌, refl, ap, ◌∙◌, arith, Bytes, Bool-cases, length,
  length-append, all, inl, inr, not,
}
use libioma.Slice.{is_space, trim_front, trim_back, slice_trim}

-- No space at the front.
abbrev pub front_ok : Bytes → Bool
front_ok [] = true
front_ok (c ∷ s) = not (is_space c)

-- No space at the back.
abbrev pub back_ok : Bytes → Bool
back_ok [] = true
back_ok (c ∷ []) = not (is_space c)
back_ok (c ∷ d ∷ s) = back_ok (d ∷ s)

trim_front_split :
    (s : Bytes)
    → (pre : Bytes) × (s ≡ pre ++ trim_front s)
      × (all is_space pre ≡ true)
      × (front_ok (trim_front s) ≡ true)
unfolding trim_front
trim_front_split [] = ([], refl, refl, refl)
trim_front_split (c ∷ s) = elim (Bool-cases (is_space c)) [
  | inl e ↦
      let (pre, split, spaces, front) = trim_front_split s in
      (c ∷ pre, rw e (ap (◌∷◌ c) split), rw e spaces, rw e front)
  | inr e ↦ ([], rw e, refl, rw e (rw e))
]

-- What `trim_back` does with one byte in front of a text that is trimmed to `t`.
trim_back_step :
    (c : ℕ) (s t post : Bytes)
    → trim_back s ≡ t
    → s ≡ t ++ post
    → all is_space post ≡ true
    → back_ok t ≡ true
    → (post' : Bytes) × (c ∷ s ≡ trim_back (c ∷ s) ++ post')
      × (all is_space post' ≡ true)
      × (back_ok (trim_back (c ∷ s)) ≡ true)
unfolding trim_back
trim_back_step c s [] post e split spaces back = elim (Bool-cases (is_space c)) [
  | inl h ↦ (c ∷ post, rw (e, trim_back, h) (ap (◌∷◌ c) split), rw h spaces, rw (e, trim_back, h))
  | inr h ↦ (post, rw (e, trim_back, h) (ap (◌∷◌ c) split), spaces, rw (e, trim_back, h) (rw h))
]
trim_back_step c s (d ∷ t) post e split spaces back =
    (post, rw (e, trim_back) (ap (◌∷◌ c) split), spaces, rw (e, trim_back) back)

trim_back_split :
    (s : Bytes)
    → (post : Bytes) × (s ≡ trim_back s ++ post)
      × (all is_space post ≡ true)
      × (back_ok (trim_back s) ≡ true)
trim_back_split [] = ([], unfold trim_back in refl, refl, unfold trim_back in refl)
trim_back_split (c ∷ s) =
    let (post, split, spaces, back) = trim_back_split s in
    trim_back_step c s (trim_back s) post refl split spaces back

front_ok-prefix : (t post : Bytes) → front_ok (t ++ post) ≡ true → front_ok t ≡ true
front_ok-prefix [] post h = refl
front_ok-prefix (c ∷ t) post h = h

-- `ioxd_slice_trim` takes spaces only, and all of them: the slice is the result between two runs
-- of spaces, and the result neither begins nor ends with one.
pub slice_trim_split :
    (s : Bytes)
    → (pre post : Bytes) × (s ≡ pre ++ (slice_trim s ++ post))
      × (all is_space pre ≡ true)
      × (all is_space post ≡ true)
      × (front_ok (slice_trim s) ≡ true)
      × (back_ok (slice_trim s) ≡ true)
unfolding slice_trim
slice_trim_split s =
    let (pre, split, spaces, front) = trim_front_split s in
    let (post, split', spaces', back) = trim_back_split (trim_front s) in
    (
      pre,
      post,
      split ∙ ap (λ t. pre ++ t) split',
      spaces,
      spaces',
      front_ok-prefix (trim_back (trim_front s)) post (rw split' at front),
      back,
    )

trim_front_id : (s : Bytes) → front_ok s ≡ true → trim_front s ≡ s
unfolding trim_front
trim_front_id [] h = refl
trim_front_id (c ∷ s) h = ground arith

trim_back_id : (s : Bytes) → back_ok s ≡ true → trim_back s ≡ s
unfolding trim_back
trim_back_id [] h = refl
trim_back_id (c ∷ []) h = ground arith
trim_back_id (c ∷ d ∷ s) h = rw (trim_back_id (d ∷ s) h, trim_back)

-- A text with no space at either end is left alone.
pub slice_trim_id : (s : Bytes) → front_ok s ≡ true → back_ok s ≡ true → slice_trim s ≡ s
unfolding slice_trim
slice_trim_id s f b = rw (trim_front_id s f, trim_back_id s b)

pub length-slice_trim : (s : Bytes) → length (slice_trim s) ≤ length s
length-slice_trim s =
    let (pre, post, split, _, _, _, _) = slice_trim_split s in
    omega (
      arith,
      ap length split,
      length-append pre (slice_trim s ++ post),
      length-append (slice_trim s) post,
    )
