-- ===== src/Game/Ids.antt =====
-- The ids of a deck: below the number of cards, each once, also after a shuffle.
use native.Mathlib.Decide.{ℕ_discrete, dec_lt}
use pega_s.Prelude.{
  ℕ, zero, suc, ◌+◌, ◌≤◌, ◌<◌, ◌≡◌, ◌≢◌, refl, ap, ◌∙◌, some, List, [], ◌∷◌, arith, length, take,
  load,
}
use pega_s.Game.Deal.{first_ids}
use pega_s.Game.Shuffle.{one_if, count, Shuffled}

pub length-first_ids : (n i : ℕ) → length (first_ids n i) ≡ n
unfolding first_ids
length-first_ids zero i = refl
length-first_ids (suc n) i = ap suc (length-first_ids n (i + 1))

one_if_ne : (x y : ℕ) → x ≢ y → one_if x y ≡ 0
one_if_ne x y ne = ground arith

one_if_le : (x y : ℕ) → one_if x y ≤ 1
one_if_le x y = ground arith

count-below : (x n i : ℕ) → x < i → count x (first_ids n i) ≡ 0
unfolding first_ids count
count-below x zero i h = refl
count-below x (suc n) i h =
    omega (arith, one_if_ne x i (omega arith), count-below x n (i + 1) (omega arith))

count-past : (x n i : ℕ) → i + n ≤ x → count x (first_ids n i) ≡ 0
unfolding first_ids count
count-past x zero i h = refl
count-past x (suc n) i h =
    omega (arith, one_if_ne x i (omega arith), count-past x n (i + 1) (omega arith))

count_once : (x n i : ℕ) → count x (first_ids n i) ≤ 1
unfolding first_ids count
count_once x zero i = omega arith
count_once x (suc n) i = elim (ℕ_discrete x i) [
  | yes same ↦ omega (arith, one_if_le x i, count-below x n (i + 1) (omega arith))
  | no ne ↦ omega (arith, one_if_ne x i ne, count_once x n (i + 1))
]

count-load : (x : ℕ) (xs : List ℕ) (i : ℕ) → load xs i ≡ some x → 0 < count x xs
unfolding count
count-load x [] i h = absurd (cc)
count-load x (y ∷ xs) zero h =
    let same : y ≡ x = cc in let one : one_if x y ≡ 1 = ground arith in omega arith
count-load x (y ∷ xs) (suc i) h = omega (arith, count-load x xs i h)

count-take : (x n : ℕ) (xs : List ℕ) → count x (take n xs) ≤ count x xs
unfolding count
count-take x zero xs = omega arith
count-take x (suc n) [] = omega arith
count-take x (suc n) (y ∷ xs) = omega (arith, count-take x n xs)

module _ (n : ℕ) {ids : List ℕ} (s : Shuffled (first_ids n 0) ids) where
  pub length-ids : length ids ≡ n
  length-ids = s.same_length ∙ length-first_ids n 0

  -- A shuffled deck has the ids below the number of cards.
  pub id_below : (i : ℕ) {id : ℕ} → load ids i ≡ some id → id < n
  id_below i {id} h = elim (dec_lt id n) [
    | yes below ↦ below
    | no past ↦
        absurd
          (omega (arith, count-load id ids i h, s.same_count id, count-past id n 0 (omega arith)))
  ]

  -- And each once, in every prefix too.
  pub take_once : (x m : ℕ) → count x (take m ids) ≤ 1
  take_once x m = omega (arith, count-take x m ids, s.same_count x, count_once x n 0)

  pub take_below : (x m : ℕ) → 0 < count x (take m ids) → x < n
  take_below x m h = elim (dec_lt x n) [
    | yes below ↦ below
    | no past ↦
        absurd (omega (arith, count-take x m ids, s.same_count x, count-past x n 0 (omega arith)))
  ]
