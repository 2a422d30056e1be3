-- ===== src/Transport/Security/Bits.antt =====
-- When the bitwise or and the bitwise exclusive or of two numbers are zero.
use Prim.Native.Nat.{max, digits, differ, bit_or, bit_xor, bit_or-bitwise, bit_xor-bitwise}
use native.Mathlib.Nat.{le_refl}
use nexum_core.Common.{ℕ, zero, suc, ◌/◌, ◌%◌, ◌≤◌, ◌≡◌, refl, ◌∙◌, sym, arith}

differ_zero : (x y : ℕ) → differ x y ≡ 0 → x ≡ y
differ_zero zero y h = omega arith
differ_zero (suc x) zero h = absurd (omega arith)
differ_zero (suc x) (suc y) h = omega (arith, differ_zero x y h)

differ_self : (x : ℕ) → differ x x ≡ 0
differ_self zero = refl
differ_self (suc x) = differ_self x

xor_digits_zero : (n a b : ℕ) → a ≤ n → digits (λ y. y) differ n a b ≡ 0 → a ≡ b
xor_digits_zero zero zero b f h = omega arith
xor_digits_zero zero (suc a) b f h = absurd (omega arith)
xor_digits_zero (suc n) zero b f h = omega arith
xor_digits_zero (suc n) (suc a) b f h = omega (
  arith,
  xor_digits_zero n (suc a / 2) (b / 2) (omega arith) (omega arith),
  differ_zero (suc a % 2) (b % 2) (omega arith),
)

xor_digits_self : (n a : ℕ) → a ≤ n → digits (λ y. y) differ n a a ≡ 0
xor_digits_self zero zero f = refl
xor_digits_self zero (suc a) f = absurd (omega arith)
xor_digits_self (suc n) zero f = refl
xor_digits_self (suc n) (suc a) f =
    omega (arith, xor_digits_self n (suc a / 2) (omega arith), differ_self (suc a % 2))

or_digits_zero : (n a b : ℕ) → a ≤ n → digits (λ y. y) max n a b ≡ 0 → (a ≡ 0) × (b ≡ 0)
or_digits_zero zero zero b f h = omega arith
or_digits_zero zero (suc a) b f h = absurd (omega arith)
or_digits_zero (suc n) zero b f h = omega arith
or_digits_zero (suc n) (suc a) b f h =
    omega (arith, or_digits_zero n (suc a / 2) (b / 2) (omega arith) (omega arith))

pub xor_zero : (a b : ℕ) → bit_xor a b ≡ 0 → a ≡ b
xor_zero a b h = xor_digits_zero a a b (le_refl a) (sym (λ i. bit_xor-bitwise a b i) ∙ h)

pub xor_self : (a : ℕ) → bit_xor a a ≡ 0
xor_self a = (λ i. bit_xor-bitwise a a i) ∙ xor_digits_self a a (le_refl a)

pub or_zero : (a b : ℕ) → bit_or a b ≡ 0 → (a ≡ 0) × (b ≡ 0)
or_zero a b h = or_digits_zero a a b (le_refl a) (sym (λ i. bit_or-bitwise a b i) ∙ h)

pub zero_or : bit_or 0 0 ≡ 0
zero_or = refl
