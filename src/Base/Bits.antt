-- ===== src/Base/Bits.antt =====
-- One bit of an unsigned word: `w & (1 << i)`, `w | (1 << i)` and `w & ~(1 << i)`, by the digits of
-- the word.
use Prim.Native.Nat.{ℕ, zero, suc, ◌+◌, ◌*◌, ◌/◌, ◌%◌}
use mathlib.Core.Path.{◌≡◌, refl, ap, ◌∙◌}
use mathlib.Core.Logic.{◌≢◌}
use mathlib.Core.Bool.{Bool, true, false}
use native.Mathlib.Omega.{arith}
use libioma.Base.Tests.{◌==◌}

unfoldable pub test_bit : ℕ → ℕ → Bool
test_bit w zero = w % 2 == 1
test_bit w (suc i) = test_bit (w / 2) i

unfoldable pub set_bit : ℕ → ℕ → ℕ
set_bit w zero = w / 2 * 2 + 1
set_bit w (suc i) = set_bit (w / 2) i * 2 + w % 2

unfoldable pub clear_bit : ℕ → ℕ → ℕ
clear_bit w zero = w / 2 * 2
clear_bit w (suc i) = clear_bit (w / 2) i * 2 + w % 2

half_double : (a w : ℕ) → (a * 2 + w % 2) / 2 ≡ a
half_double a w = omega arith

pub test-set_self : (w i : ℕ) → test_bit (set_bit w i) i ≡ true
unfolding test_bit set_bit
test-set_self w zero = ground arith
test-set_self w (suc i) =
    ap (λ x. test_bit x i) (half_double (set_bit (w / 2) i) w) ∙ test-set_self (w / 2) i

pub test-clear_self : (w i : ℕ) → test_bit (clear_bit w i) i ≡ false
unfolding test_bit clear_bit
test-clear_self w zero = ground arith
test-clear_self w (suc i) =
    ap (λ x. test_bit x i) (half_double (clear_bit (w / 2) i) w) ∙ test-clear_self (w / 2) i

pub test-set_ne : (w i j : ℕ) → i ≢ j → test_bit (set_bit w i) j ≡ test_bit w j
unfolding test_bit set_bit
test-set_ne w zero zero h = absurd (h refl)
test-set_ne w zero (suc j) h = ap (λ x. test_bit x j) (omega arith)
test-set_ne w (suc i) zero h = ap (λ x. x == 1) (omega arith)
test-set_ne w (suc i) (suc j) h =
    ap (λ x. test_bit x j) (half_double (set_bit (w / 2) i) w)
    ∙ test-set_ne (w / 2) i j (λ e. h (ap suc e))

pub test-clear_ne : (w i j : ℕ) → i ≢ j → test_bit (clear_bit w i) j ≡ test_bit w j
unfolding test_bit clear_bit
test-clear_ne w zero zero h = absurd (h refl)
test-clear_ne w zero (suc j) h = ap (λ x. test_bit x j) (omega arith)
test-clear_ne w (suc i) zero h = ap (λ x. x == 1) (omega arith)
test-clear_ne w (suc i) (suc j) h =
    ap (λ x. test_bit x j) (half_double (clear_bit (w / 2) i) w)
    ∙ test-clear_ne (w / 2) i j (λ e. h (ap suc e))
