-- ===== src/Ring/Inv.antt =====
-- The representation invariant of a ring, and the masks under it.
use native.Mathlib.Nat.{
  pow-suc, pow-le-pow_right, zero-add, mod-eq_of_lt, mul-sub, sub-zero, mod_self,
  add-mul-mod_self_left,
}
use pega_s.Prelude.{
  ℕ, zero, suc, ◌+◌, ◌-◌, ◌*◌, ◌/◌, ◌%◌, ◌^◌, ◌≤◌, ◌<◌, bit_and, ◌≡◌, refl, sym, ap, ◌∙◌, u64, List,
  arith, length, some,
}
use native.Mathlib.Decide.{dec_lt}
use pega_s.Prelude.Bits.{bit_and-mask, low_digit, pow_pos}
use pega_s.Ring.{Ring, is_power_of_two, init, success, next_index, size}

-- `bits` is the number k of the capacity 2 ^ k.
pub record IsValid {ℓ} {A : Type ℓ} (bits : ℕ) (rb : Ring A) : Type 0 where
  pub power : rb.capacity ≡ 2 ^ bits
  pub mask_lem : rb.mask ≡ 2 ^ bits - 1
  pub block : length rb.buffer ≡ 2 ^ bits
  pub head_in : rb.head < 2 ^ bits
  pub tail_in : rb.tail < 2 ^ bits
  pub small : bits ≤ 63

pub pow_fits : {bits : ℕ} → bits ≤ 63 → 2 ^ bits ≤ 2 ^ 63
pow_fits h = pow-le-pow_right {n = 2} (omega arith) h

and_self : (n m : ℕ) → m ≤ n → bit_and m m ≡ m
and_self n zero h = refl
and_self zero (suc m) h = absurd (omega arith)
and_self (suc n) (suc m) h =
    omega (arith, low_digit (suc m) (suc m), and_self n (suc m / 2) (omega arith))

-- The test `n & (n - 1)` finds the powers of two: an odd n ends the digits.
power_of_and : (f n : ℕ) → n ≤ f → 0 < n → bit_and n (n - 1) ≡ 0 → (k : ℕ) × (n ≡ 2 ^ k)
power_of_and zero n h p e = absurd (omega arith)
power_of_and (suc f) n h p e = elim (dec_lt 0 (n % 2)) [
  | yes odd ↦ (0, omega (arith, low_digit n (n - 1), and_self (n / 2) (n / 2) (omega arith), same))
  | no even ↦
      let (k, q) =
        power_of_and f (n / 2) (omega arith) (omega arith)
          (omega (arith, low_digit n (n - 1), lower)) in
      (suc k, omega (arith, pow-suc 2 k))
]
  where
    same : n % 2 ≡ 1 → bit_and (n / 2) ((n - 1) / 2) ≡ bit_and (n / 2) (n / 2)
    same o = ap (bit_and (n / 2)) (omega arith)

    lower : n % 2 ≡ 0 → bit_and (n / 2) ((n - 1) / 2) ≡ bit_and (n / 2) (n / 2 - 1)
    lower o = ap (bit_and (n / 2)) (omega arith)

pow-add : (a b : ℕ) → 2 ^ (a + b) ≡ 2 ^ a * 2 ^ b
pow-add zero b = rw zero-add (omega arith)
pow-add (suc a) b =
    let shift : suc a + b ≡ suc (a + b) = omega arith in
    rw (shift, pow-suc, pow-add a b, pow-suc 2 a) (omega arith)

-- `(i + 1) & mask`, where it does not wrap.
pub next_index-mod {ℓ} :
    {A : Type ℓ} {bits : ℕ} {rb : Ring A}
    → IsValid bits rb
    → (i : ℕ) → i < 2 ^ bits
    → next_index rb i ≡ (i + 1) % 2 ^ bits
next_index-mod {bits} {rb} v i h =
    rw
      (
        v.mask_lem,
        bit_and-mask bits,
        mod-eq_of_lt {n = i + 1} {m = 2 ^ 64} (omega (arith, pow_fits v.small)),
      )
      refl

pub bit_and-mask_self {ℓ} :
    {A : Type ℓ} {bits : ℕ} {rb : Ring A}
    → IsValid bits rb
    → (i : ℕ) → i < 2 ^ bits
    → bit_and i rb.mask ≡ i
bit_and-mask_self {bits} v i h = rw (v.mask_lem, bit_and-mask bits) (mod-eq_of_lt h)

-- The number of elements between `tail` and `head`, going round.
abbrev pub fill {ℓ} : {A : Type ℓ} → ℕ → Ring A → ℕ
fill bits rb = (rb.head + 2 ^ bits - rb.tail) % 2 ^ bits

-- `head - tail` wraps at 2 ^ 64, which is a multiple of the capacity.
wrap-mod :
    (bits h t : ℕ)
    → bits ≤ 63
    → h < 2 ^ bits
    → t < 2 ^ bits
    → u64 (h + 2 ^ 64 - t) % 2 ^ bits ≡ (h + 2 ^ bits - t) % 2 ^ bits
wrap-mod bits h t small hh ht = elim (dec_lt h t) [
  | yes below ↦
      rw
        (
          mod-eq_of_lt {n = h + 2 ^ 64 - t} {m = 2 ^ 64} (omega (arith, pow_fits small)),
          around below,
        )
        (add-mul-mod_self_left (h + 2 ^ bits - t) (2 ^ bits) (2 ^ (64 - bits) - 1))
  | no above ↦
      ap (λ (n : ℕ). n % 2 ^ bits) (straight above)
      ∙ sym
          (ap (λ (n : ℕ). n % 2 ^ bits) (omega arith) ∙ add-mul-mod_self_left (h - t) (2 ^ bits) 1)
]
  where
    around : h < t → h + 2 ^ 64 - t ≡ h + 2 ^ bits - t + 2 ^ bits * (2 ^ (64 - bits) - 1)
    around b =
        let whole : 2 ^ bits * 2 ^ (64 - bits) ≡ 2 ^ 64 =
          sym (pow-add bits (64 - bits)) ∙ ap (λ (t : ℕ). 2 ^ t) {y = 64} (omega arith) in
        omega (arith, whole, mul-sub (2 ^ bits) (2 ^ (64 - bits)) 1, pow_fits small)

    straight : ¬ (h < t) → u64 (h + 2 ^ 64 - t) ≡ h - t
    straight a = omega (arith, pow_fits small)

-- On a valid ring `buffer_size`, whose difference may wrap, is the number of steps from `tail` round
-- to `head`.
pub size-fill {ℓ} : {A : Type ℓ} {bits : ℕ} {rb : Ring A} → IsValid bits rb → size rb ≡ fill bits rb
unfolding size
size-fill {bits} {rb} v =
    rw (v.mask_lem, bit_and-mask bits) (wrap-mod bits rb.head rb.tail v.small v.head_in v.tail_in)

init_fields {ℓ} :
    {A : Type ℓ} (old : Ring A) (capacity element_size : ℕ) (cells : List A) {rb : Ring A}
    → length cells ≡ capacity
    → init old capacity element_size (some cells) ≡ (success, rb)
    → (bits : ℕ) → bits ≤ 63
    → capacity ≡ 2 ^ bits
    → IsValid bits rb × (fill bits rb ≡ 0)
unfolding init is_power_of_two
init_fields old capacity element_size cells {rb} len e bits small power =
    (ground (arith, pow_pos bits), rw (at_head, at_tail, zero-add, sub-zero) (mod_self (2 ^ bits)))
  where
    at_head : rb.head ≡ 0
    at_head = ground arith

    at_tail : rb.tail ≡ 0
    at_tail = ground arith

-- What `buffer_init` accepts, for a block of `capacity` cells and at most 2^63 of them, is a valid
-- ring, whose capacity is a power of two, and it is empty.
pub init-IsValid {ℓ} :
    {A : Type ℓ} (old : Ring A) (capacity element_size : ℕ) (cells : List A) {rb : Ring A}
    → length cells ≡ capacity
    → capacity ≤ 2 ^ 63
    → init old capacity element_size (some cells) ≡ (success, rb)
    → (bits : ℕ) × (IsValid bits rb × (fill bits rb ≡ 0))
unfolding init is_power_of_two
init-IsValid old capacity element_size cells {rb} len small e =
    let pos_cap : 0 < capacity = ground arith in
    let test : bit_and capacity (u64 (capacity + (2 ^ 64 - 1))) ≡ 0 = ground arith in
    let below : u64 (capacity + (2 ^ 64 - 1)) ≡ capacity - 1 = omega arith in
    let (k, power) = power_of_and capacity capacity (omega arith) pos_cap (rw below at test) in
    let small_k : k ≤ 63 = elim (dec_lt 63 k) [
      | yes h ↦ absurd (omega (arith, pow-le-pow_right {n = 2} (omega arith) h))
      | no h ↦ omega arith
    ] in
    (k, init_fields old capacity element_size cells len e k small_k power)
