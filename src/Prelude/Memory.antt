-- ===== src/Prelude/Memory.antt =====
-- Accesses to C arrays that may be out of bounds. `none` is undefined behaviour: an access outside a
-- block, or through a null or freed pointer.
use Prim.Native.Nat.{ℕ, zero, suc, ◌<◌}
use mathlib.Core.Path.{◌≡◌, refl, ap, subst}
use mathlib.Core.Logic.{◌⊎◌, inl, inr}
use mathlib.Core.Bool.{Bool, true, false}
use mathlib.Core.Option.{Option, none, some}
use mathlib.Core.List.{List, [], ◌∷◌}
use native.Mathlib.Omega.{arith}
use pega_s.Prelude.Tests.{ltb, if◌then◌else◌}
use pega_s.Prelude.Lists.{length, get_elem?, set, length-set}

infixl 5 ◌>>=◌ ◌>>◌
abbrev pub ◌>>=◌ {ℓ κ} : {A : Type ℓ} {B : Type κ} → Option A → (A → Option B) → Option B
none >>= f = none
some a >>= f = f a

abbrev pub ◌>>◌ {ℓ} : {B : Type ℓ} → Option (Unit {0}) → Option B → Option B
m >> k = m >>= λ _. k

module _ {ℓ} {A : Type ℓ} where
  -- a[i], for a block of the list's length.
  abbrev pub load : List A → ℕ → Option A
  load xs i = get_elem? xs i

  -- a[i] = v.
  abbrev pub store : List A → ℕ → A → Option (List A)
  store xs i v = if ltb i (length xs) then some (set xs i v) else none

  pub load_in_bounds : (xs : List A) (i : ℕ) → i < length xs → (a : A) × (load xs i ≡ some a)
  load_in_bounds [] i h = absurd (omega arith)
  load_in_bounds (x ∷ xs) zero h = (x, refl)
  load_in_bounds (x ∷ xs) (suc i) h = load_in_bounds xs i (omega arith)

  pub load-lt-length : (xs : List A) (i : ℕ) {a : A} → load xs i ≡ some a → i < length xs
  load-lt-length [] i h = absurd (cc)
  load-lt-length (x ∷ xs) zero h = omega arith
  load-lt-length (x ∷ xs) (suc i) h = omega (arith, load-lt-length xs i h)

  pub store_in_bounds :
      (xs : List A) (i : ℕ) (v : A) → i < length xs → store xs i v ≡ some (set xs i v)
  store_in_bounds xs i v h = ground arith

  pub store-eq-set :
      (xs : List A) (i : ℕ) (v : A) {ys : List A} → store xs i v ≡ some ys → set xs i v ≡ ys
  store-eq-set xs i v h = ground arith

  pub length-store :
      (xs : List A) (i : ℕ) (v : A) {ys : List A} → store xs i v ≡ some ys → length ys ≡ length xs
  length-store xs i v h = ground (arith, length-set xs i v)

-- What a write leaves at an index.
pub load-set_cases {ℓ} :
    {A : Type ℓ} (xs : List A) (i j : ℕ) {v w : A}
    → load (set xs i v) j ≡ some w
    → ((i ≡ j) × (v ≡ w)) ⊎ (load xs j ≡ some w)
load-set_cases [] i j h = inr h
load-set_cases (x ∷ xs) zero zero h = inl (refl, ground arith)
load-set_cases (x ∷ xs) zero (suc j) h = inr h
load-set_cases (x ∷ xs) (suc i) zero h = inr h
load-set_cases (x ∷ xs) (suc i) (suc j) h = elim (load-set_cases xs i j h) [
  | inl (same, e) ↦ inl (ap suc same, e)
  | inr old ↦ inr old
]

-- A cell in bounds is empty or holds a value.
pub load_cases {ℓ} :
    {A : Type ℓ} (xs : List (Option A)) (i : ℕ)
    → i < length xs
    → (load xs i ≡ some none) ⊎ ((a : A) × (load xs i ≡ some (some a)))
load_cases [] i h = absurd (omega arith)
load_cases (none ∷ xs) zero h = inl refl
load_cases (some a ∷ xs) zero h = inr (a, refl)
load_cases (x ∷ xs) (suc i) h = load_cases xs i (omega arith)

-- Inversion of a step that succeeds.
pub >>=-eq-some {ℓ κ} :
    {A : Type ℓ} {B : Type κ} (m : Option A) (f : A → Option B) {b : B}
    → (m >>= f) ≡ some b
    → (a : A) × (m ≡ some a) × (f a ≡ some b)
>>=-eq-some (some a) f h = (a, refl, h)
>>=-eq-some none f h = absurd (cc)

-- The code runs without undefined behaviour, and its result satisfies `P`.
abbrev pub Returns {ℓ κ} : {A : Type ℓ} → Option A → (A → Type κ) → Type (ℓ ⊔ κ)
Returns {A = A} r P = (a : A) × (r ≡ some a) × P a

-- Whatever the code returns, if it runs without undefined behaviour, satisfies `P`.
abbrev pub Keeps {ℓ κ} : {A : Type ℓ} → Option A → (A → Type κ) → Type (ℓ ⊔ κ)
Keeps {A = A} r P = (a : A) → r ≡ some a → P a

pub keeps_some {ℓ κ} : {A : Type ℓ} (P : A → Type κ) (a : A) → P a → Keeps (some a) P
keeps_some P a p b e = subst P {x = a} {y = b} (cc) p

pub keeps_bind {ℓ κ μ} :
    {A : Type ℓ} {B : Type κ} (P : B → Type μ) (m : Option A) (f : A → Option B)
    → ((a : A) → m ≡ some a → Keeps (f a) P)
    → Keeps (m >>= f) P
keeps_bind P (some a) f h b e = h a refl b e
keeps_bind P none f h b e = absurd (cc)

pub keeps_if {ℓ κ} :
    {A : Type ℓ} (P : A → Type κ) (t : Bool) (m n : Option A)
    → (t ≡ true → Keeps m P)
    → (t ≡ false → Keeps n P)
    → Keeps (if t then m else n) P
keeps_if P true m n h k = h refl
keeps_if P false m n h k = k refl
