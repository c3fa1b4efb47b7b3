-- ===== src/Prelude/Bits.antt =====
-- `&` with a mask of low bits is the remainder by a power of two.
use Prim.Native.Nat.{
  ℕ, zero, suc, ◌+◌, ◌-◌, ◌*◌, ◌/◌, ◌%◌, ◌^◌, ◌≤◌, ◌<◌, min, bit_and, digits, bit_and-bitwise,
}
use mathlib.Core.Path.{◌≡◌, refl, sym, ap, ap₂, ◌≡⟨◌⟩◌, ◌∎}
use native.Mathlib.Nat.{pow-suc, add-mul-mod_self_left, mod-eq_of_lt, mod-lt, div-add-mod}
use native.Mathlib.Omega.{arith}

-- The native operation is defined by a recursion on fuel over the binary digits.
abbrev meet : ℕ → ℕ → ℕ → ℕ
meet fuel a b = digits (λ b. zero) min fuel a b

meet_fuel : (f g a b : ℕ) → a ≤ f → a ≤ g → meet f a b ≡ meet g a b
meet_fuel zero zero a b p q = refl
meet_fuel (suc f) zero zero b p q = refl
meet_fuel (suc f) zero (suc a) b p q = absurd (omega arith)
meet_fuel zero (suc g) zero b p q = refl
meet_fuel zero (suc g) (suc a) b p q = absurd (omega arith)
meet_fuel (suc f) (suc g) zero b p q = refl
meet_fuel (suc f) (suc g) (suc a) b p q =
    omega (arith, meet_fuel f g (suc a / 2) (b / 2) (omega arith) (omega arith))

none_set : (b : ℕ) → bit_and 0 b ≡ 0
none_set b = bit_and-bitwise 0 b

-- The lowest digit apart.
pub low_digit : (a b : ℕ) → bit_and a b ≡ bit_and (a / 2) (b / 2) * 2 + min (a % 2) (b % 2)
low_digit zero b = omega (arith, none_set b, none_set (b / 2))
low_digit (suc a) b = omega (
  arith,
  meet_fuel a (suc a / 2) (suc a / 2) (b / 2) (omega arith) (omega arith),
  bit_and-bitwise (suc a) b,
  bit_and-bitwise (suc a / 2) (b / 2),
)

and_zero_below : (n a : ℕ) → a ≤ n → bit_and a 0 ≡ 0
and_zero_below n zero h = refl
and_zero_below zero (suc a) h = absurd (omega arith)
and_zero_below (suc n) (suc a) h =
    omega (arith, low_digit (suc a) 0, and_zero_below n (suc a / 2) (omega arith))

pub pow_pos : (k : ℕ) → 0 < 2 ^ k
pow_pos zero = omega arith
pow_pos (suc k) = omega (arith, pow-suc 2 k, pow_pos k)

halve_mod : (a p : ℕ) → 0 < p → a % (2 * p) ≡ a / 2 % p * 2 + a % 2
halve_mod a p h =
    a % (2 * p)
    ≡⟨ ap (λ (t : ℕ). t % (2 * p)) split ⟩ (r + 2 * p * q) % (2 * p)
    ≡⟨ add-mul-mod_self_left r (2 * p) q ⟩ r % (2 * p)
    ≡⟨ mod-eq_of_lt (omega (arith, mod-lt (a / 2) h)) ⟩ r ∎
  where
    q : ℕ
    q = a / 2 / p

    r : ℕ
    r = a / 2 % p * 2 + a % 2

    split : a ≡ r + 2 * p * q
    split = omega (arith, div-add-mod (a / 2) p)

-- A mask of `k` low bits.
pub bit_and-mask : (k a : ℕ) → bit_and a (2 ^ k - 1) ≡ a % 2 ^ k
bit_and-mask zero a = omega (arith, and_zero_below a a (omega arith))
bit_and-mask (suc k) a =
    bit_and a (2 ^ suc k - 1)
    ≡⟨ low_digit a (2 ^ suc k - 1) ⟩ bit_and (a / 2) (m / 2) * 2 + min (a % 2) (m % 2)
    ≡⟨ ap₂ (λ (s t : ℕ). bit_and (a / 2) s * 2 + t) halved odd ⟩
      bit_and (a / 2) (2 ^ k - 1) * 2 + a % 2
    ≡⟨ ap (λ (t : ℕ). t * 2 + a % 2) (bit_and-mask k (a / 2)) ⟩ a / 2 % 2 ^ k * 2 + a % 2
    ≡⟨ sym (halve_mod a (2 ^ k) (pow_pos k)) ⟩ a % (2 * 2 ^ k)
    ≡⟨ ap (λ (t : ℕ). a % t) (omega (arith, pow-suc 2 k)) ⟩ a % 2 ^ suc k ∎
  where
    m : ℕ
    m = 2 ^ suc k - 1

    halved : m / 2 ≡ 2 ^ k - 1
    halved = omega (arith, pow-suc 2 k, pow_pos k)

    odd : min (a % 2) (m % 2) ≡ a % 2
    odd = omega (arith, pow-suc 2 k, pow_pos k)
