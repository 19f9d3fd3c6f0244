-- ===== src/Base/Copies.antt =====
-- Parts of an array, and what a copy into it leaves.
use Prim.Native.Nat.{ℕ, zero, suc, ◌+◌, ◌-◌, ◌≤◌}
use mathlib.Core.Path.{◌≡◌, refl, ap, ◌∙◌, sym}
use mathlib.Core.List.{List, [], ◌∷◌, ◌++◌}
use native.Mathlib.Omega.{arith}
use libioma.Base.Lists.{length, take, drop, blit, take-drop-blit}

pub drop_all : (n : ℕ) (xs : List ℕ) → length xs ≤ n → drop n xs ≡ []
drop_all zero [] h = refl
drop_all zero (x ∷ xs) h = absurd (omega arith)
drop_all (suc n) [] h = refl
drop_all (suc n) (x ∷ xs) h = drop_all n xs (omega arith)

pub drop-drop : (m n k : ℕ) (xs : List ℕ) → k ≡ n + m → drop m (drop n xs) ≡ drop k xs
drop-drop m zero k xs e = ap (λ i. drop i xs) (omega arith)
drop-drop zero (suc n) k [] e = sym (drop_all k [] (omega arith))
drop-drop (suc m) (suc n) k [] e = sym (drop_all k [] (omega arith))
drop-drop m (suc n) zero (x ∷ xs) e = absurd (omega arith)
drop-drop m (suc n) (suc k) (x ∷ xs) e = drop-drop m n k xs (omega arith)

pub drop-take : (m n k : ℕ) (xs : List ℕ) → n ≡ m + k → drop m (take n xs) ≡ take k (drop m xs)
drop-take zero n k xs e = ap (λ i. take i xs) (omega arith)
drop-take (suc m) zero k xs e = absurd (omega arith)
drop-take (suc m) (suc n) zero [] e = refl
drop-take (suc m) (suc n) (suc k) [] e = refl
drop-take (suc m) (suc n) k (x ∷ xs) e = drop-take m n k xs (omega arith)

pub take-take : (m n : ℕ) (xs : List ℕ) → m ≤ n → take m (take n xs) ≡ take m xs
take-take zero n xs h = refl
take-take (suc m) zero xs h = absurd (omega arith)
take-take (suc m) (suc n) [] h = refl
take-take (suc m) (suc n) (x ∷ xs) h = ap (◌∷◌ x) (take-take m n xs (omega arith))

-- The rest of a part, from `m` on.
pub drop-part :
    (m n k s t : ℕ) (xs : List ℕ)
    → n ≡ m + k
    → t ≡ s + m
    → drop m (take n (drop s xs)) ≡ take k (drop t xs)
drop-part m n k s t xs e f = drop-take m n k (drop s xs) e ∙ ap (take k) (drop-drop m s t xs f)

-- What was copied is what is read there.
pub take-drop-blit_self :
    (n at : ℕ) (src dst : List ℕ)
    → n ≡ length src
    → at ≤ length dst
    → take n (drop at (blit at src dst)) ≡ src
take-drop-blit_self n at src dst e h =
    take-drop-blit n at 0 at src dst (omega arith) (omega arith) h

drop-parts_behind :
    (k at : ℕ) (src rest dst : List ℕ)
    → at ≤ length dst
    → at + length src ≤ k
    → drop k (take at dst ++ (src ++ rest)) ≡ drop (k - (at + length src)) rest
drop-parts_behind k zero [] rest dst h f = ap (λ i. drop i rest) (omega arith)
drop-parts_behind zero zero (x ∷ src) rest dst h f = absurd (omega arith)
drop-parts_behind (suc k) zero (x ∷ src) rest dst h f =
    drop-parts_behind k zero src rest dst h (omega arith) ∙ ap (λ i. drop i rest) (omega arith)
drop-parts_behind k (suc at) src rest [] h f = absurd (omega arith)
drop-parts_behind zero (suc at) src rest (x ∷ dst) h f = absurd (omega arith)
drop-parts_behind (suc k) (suc at) src rest (x ∷ dst) h f =
    drop-parts_behind k at src rest dst (omega arith) (omega arith)
    ∙ ap (λ i. drop i rest) (omega arith)

-- What lies behind a copy is left.
pub drop-blit :
    (k at : ℕ) (src dst : List ℕ)
    → at ≤ length dst
    → at + length src ≤ k
    → drop k (blit at src dst) ≡ drop k dst
unfolding blit
drop-blit k at src dst h f =
    drop-parts_behind k at src (drop (at + length src) dst) dst h f
    ∙ drop-drop (k - (at + length src)) (at + length src) k dst (omega arith)
