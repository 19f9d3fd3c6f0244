-- ===== src/Base/Lists.antt =====
-- Lists measured and cut by native numbers, under the library's names.
use Prim.Native.Nat.{ℕ, zero, suc, ◌+◌, ◌-◌, ◌≤◌, ◌<◌, min}
use mathlib.Core.Path.{◌≡◌, refl, ap, ◌∙◌}
use mathlib.Core.Logic.{◌≢◌}
use mathlib.Core.Bool.{Bool, true, ◌&&◌}
use mathlib.Core.List.{List, [], ◌∷◌, ◌++◌}
use mathlib.Core.Option.{Option, none, some}
use native.Mathlib.Omega.{arith}

module _ {ℓ} {A : Type ℓ} where
  abbrev pub length : List A → ℕ
  length [] = 0
  length (x ∷ xs) = suc (length xs)

  abbrev pub get_elem? : List A → ℕ → Option A
  get_elem? [] i = none
  get_elem? (x ∷ xs) zero = some x
  get_elem? (x ∷ xs) (suc i) = get_elem? xs i

  -- A write out of bounds changes nothing.
  abbrev pub set : List A → ℕ → A → List A
  set [] i v = []
  set (x ∷ xs) zero v = v ∷ xs
  set (x ∷ xs) (suc i) v = x ∷ set xs i v

  abbrev pub take : ℕ → List A → List A
  take zero xs = []
  take (suc n) [] = []
  take (suc n) (x ∷ xs) = x ∷ take n xs

  abbrev pub drop : ℕ → List A → List A
  drop zero xs = xs
  drop (suc n) [] = []
  drop (suc n) (x ∷ xs) = drop n xs

  abbrev pub get_or : List A → ℕ → A → A
  get_or [] i d = d
  get_or (x ∷ xs) zero d = x
  get_or (x ∷ xs) (suc i) d = get_or xs i d

module _ {ℓ} {A : Type ℓ} where
  pub length-append : (xs ys : List A) → length (xs ++ ys) ≡ length xs + length ys
  length-append [] ys = omega arith
  length-append (x ∷ xs) ys = omega (arith, length-append xs ys)

  pub length-set : (xs : List A) (i : ℕ) (v : A) → length (set xs i v) ≡ length xs
  length-set [] i v = refl
  length-set (x ∷ xs) zero v = refl
  length-set (x ∷ xs) (suc i) v = ap suc (length-set xs i v)

  pub take-append-drop : (n : ℕ) (xs : List A) → take n xs ++ drop n xs ≡ xs
  take-append-drop zero xs = refl
  take-append-drop (suc n) [] = refl
  take-append-drop (suc n) (x ∷ xs) = rw (take-append-drop n xs)

  pub length-take : (n : ℕ) (xs : List A) → length (take n xs) ≡ min n (length xs)
  length-take zero xs = omega arith
  length-take (suc n) [] = omega arith
  length-take (suc n) (x ∷ xs) = omega (arith, length-take n xs)

  pub length-drop : (n : ℕ) (xs : List A) → length (drop n xs) ≡ length xs - n
  length-drop zero xs = omega arith
  length-drop (suc n) [] = omega arith
  length-drop (suc n) (x ∷ xs) = omega (arith, length-drop n xs)

  pub take_all : (n : ℕ) (xs : List A) → length xs ≤ n → take n xs ≡ xs
  take_all zero [] h = refl
  take_all zero (x ∷ xs) h = absurd (omega arith)
  take_all (suc n) [] h = refl
  take_all (suc n) (x ∷ xs) h = ap (◌∷◌ x) (take_all n xs (omega arith))

  pub get_or-set_self :
      (xs : List A) (i : ℕ) (v d : A) → i < length xs → get_or (set xs i v) i d ≡ v
  get_or-set_self [] i v d h = absurd (omega arith)
  get_or-set_self (x ∷ xs) zero v d h = refl
  get_or-set_self (x ∷ xs) (suc i) v d h = get_or-set_self xs i v d (omega arith)

  pub get_or-set_ne :
      (xs : List A) {i j : ℕ} (v d : A) → i ≢ j → get_or (set xs i v) j d ≡ get_or xs j d
  get_or-set_ne [] v d h = refl
  get_or-set_ne (x ∷ xs) {i = zero} {j = zero} v d h = absurd (h refl)
  get_or-set_ne (x ∷ xs) {i = zero} {j = suc j} v d h = refl
  get_or-set_ne (x ∷ xs) {i = suc i} {j = zero} v d h = refl
  get_or-set_ne (x ∷ xs) {i = suc i} {j = suc j} v d h = get_or-set_ne xs v d (λ e. h (ap suc e))

-- A property of every element, as a type and as a test.
abbrev pub All {ℓ κ} : {A : Type ℓ} → (A → Type κ) → List A → Type κ
All P [] = Unit
All P (x ∷ xs) = P x × All P xs

abbrev pub all {ℓ} : {A : Type ℓ} → (A → Bool) → List A → Bool
all p [] = true
all p (x ∷ xs) = p x && all p xs

pub all-append : (p : ℕ → Bool) (xs ys : List ℕ) → all p (xs ++ ys) ≡ (all p xs && all p ys)
all-append p [] ys = refl
all-append p (x ∷ xs) ys = ground (arith, all-append p xs ys)

-- `memcpy` into an array.
unfoldable pub blit : ℕ → List ℕ → List ℕ → List ℕ
blit at src dst = take at dst ++ (src ++ drop (at + length src) dst)

pub length-blit :
    (at : ℕ) (src dst : List ℕ)
    → at + length src ≤ length dst
    → length (blit at src dst) ≡ length dst
unfolding blit
length-blit at src dst h = omega (
  arith,
  length-append (take at dst) (src ++ drop (at + length src) dst),
  length-append src (drop (at + length src) dst),
  length-take at dst,
  length-drop (at + length src) dst,
)

take-parts :
    (n at : ℕ) (src dst rest : List ℕ)
    → n ≡ at + length src
    → at ≤ length dst
    → take n (take at dst ++ (src ++ rest)) ≡ take at dst ++ src
take-parts zero zero [] dst rest e h = refl
take-parts (suc n) zero [] dst rest e h = absurd (omega arith)
take-parts zero zero (x ∷ src) dst rest e h = absurd (omega arith)
take-parts (suc n) zero (x ∷ src) dst rest e h =
    ap (◌∷◌ x) (take-parts n zero src dst rest (omega arith) h)
take-parts n (suc at) src [] rest e h = absurd (omega arith)
take-parts zero (suc at) src (x ∷ dst) rest e h = absurd (omega arith)
take-parts (suc n) (suc at) src (x ∷ dst) rest e h =
    ap (◌∷◌ x) (take-parts n at src dst rest (omega arith) (omega arith))

drop-parts :
    (m s at : ℕ) (dst tail : List ℕ)
    → m ≡ s + at
    → s ≤ length dst
    → drop s (take m dst ++ tail) ≡ take at (drop s dst) ++ tail
drop-parts m zero at dst tail e h = ap (λ k. take k dst ++ tail) (omega arith)
drop-parts m (suc s) at [] tail e h = absurd (omega arith)
drop-parts zero (suc s) at (x ∷ dst) tail e h = absurd (omega arith)
drop-parts (suc m) (suc s) at (x ∷ dst) tail e h =
    drop-parts m s at dst tail (omega arith) (omega arith)

-- What an array holds from `s` on up to the end of a copy.
pub take-drop-blit :
    (n s at m : ℕ) (src dst : List ℕ)
    → m ≡ s + at
    → n ≡ at + length src
    → m ≤ length dst
    → take n (drop s (blit m src dst)) ≡ take at (drop s dst) ++ src
unfolding blit
take-drop-blit n s at m src dst e f h =
    ap (take n) (drop-parts m s at dst (src ++ drop (m + length src) dst) e (omega arith))
    ∙ take-parts n at src (drop s dst) (drop (m + length src) dst) f
        (omega (arith, length-drop s dst))
