-- ===== src/Slice/Compare.antt =====
-- The comparisons of lib/http/api.c, against equality of bytes.
use libioma.Base.{
  ℕ, true, [], ◌∷◌, ◌++◌, ◌≡◌, ◌↔◌, refl, ap, map, arith, ◌-◌, Bytes, bytes_eq_iff, length, take,
  drop, take-append-drop, length-append, ◌+◌, ◌≤◌, ◌⊎◌, All, IsByte,
}
use libioma.Slice.{lower, same_lower, slice_eq, slice_eq_ci, slice_starts_with, slice_ends_with}

-- `ioxd_slice_eq` holds of equal texts, and of no others.
pub slice_eq_iff : (s t : Bytes) → (slice_eq s t ≡ true) ↔ (s ≡ t)
unfolding slice_eq
slice_eq_iff s t = ground (arith, bytes_eq_iff s t)

-- An ASCII capital letter.
abbrev pub IsUpper : ℕ → Type 0
IsUpper c = (b'A' ≤ c) × (c ≤ b'Z')

-- The same byte, or the two cases of one ASCII letter: a small letter is its capital and 32.
abbrev pub SameLetter : ℕ → ℕ → Type 0
SameLetter x y = (x ≡ y) ⊎ ((IsUpper x × (y ≡ x + 32)) ⊎ (IsUpper y × (x ≡ y + 32)))

-- Texts of one length, each pair of bytes at one place the same letter.
abbrev pub SameText : Bytes → Bytes → Type 0
SameText [] [] = Unit
SameText [] (y ∷ t) = ⊥
SameText (x ∷ s) [] = ⊥
SameText (x ∷ s) (y ∷ t) = SameLetter x y × SameText s t

lower-cases :
    (c : ℕ) → IsByte c → (IsUpper c × (lower c ≡ c + 32)) ⊎ ((IsUpper c → ⊥) × (lower c ≡ c))
unfolding lower
lower-cases c h = ground arith

lower_iff : (x y : ℕ) → IsByte x → IsByte y → (lower x ≡ lower y) ↔ SameLetter x y
lower_iff x y h k = ground (arith, lower-cases x h, lower-cases y k)

same_lower_iff :
    (s t : Bytes)
    → All IsByte s
    → All IsByte t
    → length s ≡ length t
    → (same_lower s t ≡ true) ↔ SameText s t
unfolding same_lower
same_lower_iff [] [] b d h = ground arith
same_lower_iff [] (y ∷ t) b d h = absurd (omega arith)
same_lower_iff (x ∷ s) [] b d h = absurd (omega arith)
same_lower_iff (x ∷ s) (y ∷ t) b d h =
    ground (arith, lower_iff x y b.0 d.0, same_lower_iff s t b.1 d.1 (omega arith))

length-SameText : (s t : Bytes) → SameText s t → length s ≡ length t
length-SameText [] [] h = refl
length-SameText [] (y ∷ t) h = absurd h
length-SameText (x ∷ s) [] h = absurd h
length-SameText (x ∷ s) (y ∷ t) h = ap ℕ.suc (length-SameText s t h.1)

pub length-map : (f : ℕ → ℕ) (s : Bytes) → length (map f s) ≡ length s
length-map f [] = refl
length-map f (x ∷ s) = ap ℕ.suc (length-map f s)

take-length-append : (p rest : Bytes) → take (length p) (p ++ rest) ≡ p
take-length-append [] rest = refl
take-length-append (c ∷ p) rest = ap (◌∷◌ c) (take-length-append p rest)

drop_suffix : (front p : Bytes) (n : ℕ) → n ≡ length front → drop n (front ++ p) ≡ p
drop_suffix [] p n e = rw e
drop_suffix (c ∷ front) p n e = rw e (drop_suffix front p (length front) refl)

-- `ioxd_slice_eq_ci` holds of two texts of bytes exactly when they have one length and differ, place by
-- place, at most in the case of an ASCII letter.
pub slice_eq_ci_iff :
    (s t : Bytes) → All IsByte s → All IsByte t → (slice_eq_ci s t ≡ true) ↔ SameText s t
unfolding slice_eq_ci
slice_eq_ci_iff s t b d = (
  λ h. (same_lower_iff s t b d (ground arith)).0 (ground arith),
  λ e.
      let same : length s ≡ length t = length-SameText s t e in
      ground (arith, (same_lower_iff s t b d same).1 e),
)

-- `ioxd_slice_starts_with` holds exactly when some rest follows the prefix.
pub starts_with-append : (p rest : Bytes) → slice_starts_with (p ++ rest) p ≡ true
unfolding slice_starts_with
starts_with-append p rest =
    ground (arith, length-append p rest, take-length-append p rest, bytes_eq_iff p p)

pub starts_with_split : (s p : Bytes) → slice_starts_with s p ≡ true → s ≡ p ++ drop (length p) s
unfolding slice_starts_with
starts_with_split s p h =
    ground (arith, bytes_eq_iff (take (length p) s) p, take-append-drop (length p) s)

pub slice_starts_with_iff :
    (s p : Bytes) → (slice_starts_with s p ≡ true) ↔ ((rest : Bytes) × (s ≡ p ++ rest))
slice_starts_with_iff s p = (
  λ h. (drop (length p) s, starts_with_split s p h),
  λ (rest, e). rw e (starts_with-append p rest),
)

-- `ioxd_slice_ends_with` holds exactly when something precedes the suffix.
pub slice_ends_with_iff :
    (s p : Bytes) → (slice_ends_with s p ≡ true) ↔ ((front : Bytes) × (s ≡ front ++ p))
unfolding slice_ends_with
slice_ends_with_iff s p = (
  λ h. (
    take (length s - length p) s,
    ground (
      arith,
      bytes_eq_iff (drop (length s - length p) s) p,
      take-append-drop (length s - length p) s,
    ),
  ),
  λ (front, e). ground (
    arith,
    ap length e,
    length-append front p,
    drop_suffix front p (length s - length p),
    bytes_eq_iff (drop (length s - length p) s) p,
  ),
)
