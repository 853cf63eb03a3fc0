-- ===== src/Base/Powers.antt =====
-- Quotients and remainders by powers of two: the top and the low bits of a number.
use Prim.Native.Nat.{ℕ, zero, suc, ◌+◌, ◌*◌, ◌/◌, ◌%◌, ◌^◌, ◌<◌, ◌≤◌}
use mathlib.Core.Path.{◌≡◌, sym, ap, ◌∙◌}
use native.Mathlib.Omega.{arith}
use native.Mathlib.Nat.{
  mul-add-div_right, mul-le-mul_right, div-eq_of_lt, div-div-eq-div-mul, div-add-mod,
  add-mul-mod_self_left, mod-eq_of_lt, mod-lt,
}

pub pow_pos : (n : ℕ) → 0 < 2 ^ n
pow_pos zero = omega arith
pow_pos (suc n) = let p = pow_pos n in omega (arith, p)

pub pow_add : (m n : ℕ) → 2 ^ (m + n) ≡ 2 ^ m * 2 ^ n
pow_add zero n = let none : 0 + n ≡ n = omega arith in ap (λ k. 2 ^ k) none ∙ omega arith
pow_add (suc m) n =
    let p = pow_add m n in
    let step : suc m + n ≡ suc (m + n) = omega arith in
    let twice : 2 ^ suc m ≡ 2 * 2 ^ m = omega arith in
    ap (λ k. 2 ^ k) step ∙ omega (arith, p, ap (λ k. k * 2 ^ n) twice)

-- One more byte.
pub pow_byte : (l : ℕ) → 2 ^ (8 * suc l) ≡ 256 * 2 ^ (8 * l)
pow_byte l =
    let size : 8 * suc l ≡ 8 + 8 * l = omega arith in ap (λ k. 2 ^ k) size ∙ pow_add 8 (8 * l)

-- A number in two parts, of which the upper one is shifted.
pub quotient_upper : (a p r : ℕ) → r < p → (a * p + r) / p ≡ a
quotient_upper a p r small =
    let zeroes = div-eq_of_lt small in
    mul-add-div_right (omega (arith, small)) a r ∙ omega (arith, zeroes)

pub div_mul : (n p q : ℕ) → n / (p * q) ≡ n / p / q
div_mul n p q = sym (div-div-eq-div-mul n p q)

-- A digit and the rest below it.
pub below_product : (b c q r : ℕ) → b < c → r < q → b * q + r < q * c
below_product b c q r h s =
    let grown : suc b * q ≤ c * q = mul-le-mul_right q (omega (arith, h)) in omega (arith, grown, s)

-- The remainder by a product: the digit above, and the remainder by the lower factor.
pub mod_split : (m q c : ℕ) → 0 < q → 0 < c → m % (q * c) ≡ m / q % c * q + m % q
mod_split m q c pos some =
    let h = m / q / c in
    let b = m / q % c in
    let r = m % q in
    let parts : c * h + b ≡ m / q = div-add-mod (m / q) c in
    let whole : q * (m / q) + r ≡ m = div-add-mod m q in
    let together : (b * q + r) + (q * c) * h ≡ m = omega (arith, whole, ap (λ n. q * n) parts) in
    ap (λ n. n % (q * c)) (sym together)
    ∙ add-mul-mod_self_left (b * q + r) (q * c) h
    ∙ mod-eq_of_lt (below_product b c q r (mod-lt (m / q) some) (mod-lt m pos))

-- The bit above the lowest ones.
pub mod_double : (m q : ℕ) → 0 < q → m % (q * 2) ≡ m / q % 2 * q + m % q
mod_double m q pos = mod_split m q 2 pos (omega arith)
