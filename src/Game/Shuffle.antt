-- ===== src/Game/Shuffle.antt =====
-- `melange_ids` reorders a deck, whatever numbers `getrandom` gives.
use native.Mathlib.Decide.{ℕ_discrete}
use native.Mathlib.Nat.{mod-lt}
use pega_s.Prelude.{
  ℕ, zero, suc, ◌+◌, ◌-◌, ◌%◌, ◌≤◌, ◌<◌, ◌≡◌, refl, ◌∙◌, subst, Option, none, some, List, [], ◌∷◌,
  ℤ, pos, minus_one, arith, ◌==◌, if◌then◌else◌, length, length-set, set, get_elem?-set_self,
  get_elem?-set_ne, load, load_in_bounds, store_in_bounds, Returns,
}
use pega_s.Game.Deal.{swap, melange_round, melange_from, melange_ids}

abbrev pub one_if : ℕ → ℕ → ℕ
one_if x y = if x == y then 1 else 0

-- How often a number occurs.
unfoldable pub count : ℕ → List ℕ → ℕ
count x [] = 0
count x (y ∷ ys) = one_if x y + count x ys

-- The same numbers, each as often.
pub record Shuffled (xs ys : List ℕ) : Type 0 where
  pub same_length : length ys ≡ length xs
  pub same_count : (x : ℕ) → count x ys ≡ count x xs

pub Shuffled-refl : (xs : List ℕ) → Shuffled xs xs
Shuffled-refl xs = record { same_length = refl; same_count = λ x. refl }

pub Shuffled-trans : {xs ys zs : List ℕ} → Shuffled xs ys → Shuffled ys zs → Shuffled xs zs
Shuffled-trans p q = record {
  same_length = q.same_length ∙ p.same_length;
  same_count = λ x. q.same_count x ∙ p.same_count x;
}

count-set :
    (x : ℕ) (xs : List ℕ) (i : ℕ) {old : ℕ} (v : ℕ)
    → load xs i ≡ some old
    → count x (set xs i v) + one_if x old ≡ count x xs + one_if x v
unfolding count
count-set x [] i v h = absurd (cc)
count-set x (y ∷ xs) zero {old} v h = let same : y ≡ old = cc in rw same (omega arith)
count-set x (y ∷ xs) (suc i) v h = omega (arith, count-set x xs i v h)

pub swap-Shuffled :
    (ids : List ℕ) (i j : ℕ)
    → i < length ids
    → j < length ids
    → Returns (swap ids i j) (Shuffled ids)
unfolding swap
swap-Shuffled ids i j hi hj =
    let (temp, at_i) = load_in_bounds ids i hi in
    let (other, at_j) = load_in_bounds ids j hj in
    let ids₁ = set ids i other in
    let length₁ = length-set ids i other in
    let still : load ids₁ j ≡ some other = elim (ℕ_discrete i j) [
      | yes e ↦ subst (λ k. load ids₁ k ≡ some other) e (get_elem?-set_self ids i other hi)
      | no ne ↦ get_elem?-set_ne ids other ne ∙ at_j
    ] in
    rw
      (
        at_i,
        at_j,
        store_in_bounds ids i other hi,
        store_in_bounds ids₁ j temp (omega (arith, length₁)),
      )
      (
        set ids₁ j temp,
        refl,
        record {
          same_length = length-set ids₁ j temp ∙ length₁;
          same_count =
              λ x. omega (arith, count-set x ids i other at_i, count-set x ids₁ j temp still);
        },
      )

melange_round-Shuffled :
    (rest : List ℕ → Option (ℤ × List ℕ)) (ids : List ℕ) (i : ℕ) (random : Option ℕ)
    → i < length ids
    → ((ids' : List ℕ) → length ids' ≡ length ids → Returns (rest ids') (λ r. Shuffled ids' r.1))
    → Returns (melange_round rest ids i random) (λ r. Shuffled ids r.1)
unfolding melange_round
melange_round-Shuffled rest ids i none inside next = ((minus_one, ids), refl, Shuffled-refl ids)
melange_round-Shuffled rest ids i (some buffer) inside next =
    let below : buffer % (i + 1) < i + 1 = mod-lt buffer (omega arith) in
    let (ids', e, s) = swap-Shuffled ids i (buffer % (i + 1)) inside (omega arith) in
    let (r, e', s') = next ids' s.same_length in rw (e, e') (r, refl, Shuffled-trans s s')

melange_from-Shuffled :
    (random : ℕ → Option ℕ) (ids : List ℕ) (i : ℕ)
    → i ≤ length ids - 1
    → Returns (melange_from random ids i) (λ r. Shuffled ids r.1)
unfolding melange_from
melange_from-Shuffled random ids zero h = ((pos 0, ids), refl, Shuffled-refl ids)
melange_from-Shuffled random ids (suc i) h =
    melange_round-Shuffled (λ ids'. melange_from random ids' i) ids (suc i) (random (suc i))
      (omega arith) (λ ids' e. melange_from-Shuffled random ids' i (omega arith))

-- Whatever `getrandom` gives, and also when it fails, `melange_ids` does not fault on a block of at
-- least the length it is given, and leaves the same ids, each as often as before.
pub melange_ids-Shuffled :
    (random : ℕ → Option ℕ) (ids : List ℕ) (n : ℕ)
    → n ≤ length ids
    → Returns (melange_ids random ids n) (λ r. Shuffled ids r.1)
unfolding melange_ids
melange_ids-Shuffled random ids n room = melange_from-Shuffled random ids (n - 1) (omega arith)
