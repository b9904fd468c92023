-- ===== src/Prelude/Bits.antt =====
-- Masks on one byte as arithmetic, checked for every byte by evaluation.
use Prim.Native.Nat.{ℕ, zero, suc, ◌+◌, ◌*◌, ◌/◌, ◌%◌, ◌<◌, bit_and, bit_or}
use mathlib.Core.Path.{◌≡◌, refl}
use mathlib.Core.Bool.{Bool, true, ◌&&◌}
use native.Mathlib.Omega.{arith}
use pipistrelle.Prelude.Tests.{◌==◌}

-- Two functions with the same values below `n`.
same_below : (ℕ → ℕ) → (ℕ → ℕ) → ℕ → Bool
same_below f g zero = true
same_below f g (suc n) = f n == g n && same_below f g n

same_below→eq : (f g : ℕ → ℕ) (n : ℕ) → same_below f g n ≡ true → (i : ℕ) → i < n → f i ≡ g i
unfolding same_below
same_below→eq f g zero e i h = absurd (omega arith)
same_below→eq f g (suc n) e i h = ground (arith, same_below→eq f g n (ground arith) i)

pub low_seven : (b : ℕ) → b < 256 → bit_and b 127 ≡ b % 128
unfolding same_below
low_seven = same_below→eq _ _ 256 refl

pub top_bit : (b : ℕ) → b < 256 → bit_and b 128 ≡ b / 128 * 128
unfolding same_below
top_bit = same_below→eq _ _ 256 refl

pub set_top_bit : (b : ℕ) → b < 128 → bit_or b 128 ≡ b + 128
unfolding same_below
set_top_bit = same_below→eq _ _ 128 refl

pub low_four : (b : ℕ) → b < 256 → bit_and b 15 ≡ b % 16
unfolding same_below
low_four = same_below→eq _ _ 256 refl
