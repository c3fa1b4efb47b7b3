-- ===== src/Game/Smallest.antt =====
-- Which card `place_card` places next: the smallest of those that were played.
use native.Mathlib.Decide.{ℕ_discrete}
use pega_s.Prelude.{
  ℕ, zero, suc, ◌+◌, ◌≤◌, ◌<◌, ◌≡◌, refl, Option, none, some, List, arith, length, load, load_cases,
  Returns, ltb, ltb→lt, Bool-cases, inl, inr,
}
use pega_s.Player.{Cell}
use pega_s.Game.Place.{smaller, min_card}

-- What `min_card_index` is after the first `k` cells: the first of the smallest cards.
abbrev pub Smallest : List Cell → ℕ → Option ℕ → Type 0
Smallest ready k none = (j : ℕ) → j < k → load ready j ≡ some none
Smallest ready k (some m) =
    (c : ℕ) × (load ready m ≡ some (some c))
    × (m < k)
    × ((j d : ℕ) → j < k → load ready j ≡ some (some d) → (c ≤ d) × (j < m → c < d))

Smallest-empty :
    (ready : List Cell) (i : ℕ) (best : Option ℕ)
    → load ready i ≡ some none
    → Smallest ready i best
    → Smallest ready (i + 1) best
Smallest-empty ready i none h s =
    λ j lt. elim (ℕ_discrete j i) [ yes e ↦ rw e h | no ne ↦ s j (omega arith) ]
Smallest-empty ready i (some m) h (c, at, inside, least) = (
  c,
  at,
  omega arith,
  λ j d lt e. elim (ℕ_discrete j i) [
    | yes same ↦ absurd (let e' : load ready i ≡ some (some d) = rw (← same) e in cc)
    | no ne ↦ least j d (omega arith) e
  ],
)

-- A bound over the first `i` cells and the cell `i`.
least_snoc :
    (ready : List Cell) (i c m n : ℕ)
    → load ready i ≡ some (some c)
    → ((j d : ℕ) → j < i → load ready j ≡ some (some d) → (n ≤ d) × (j < m → n < d))
    → n ≤ c
    → m ≤ i
    → (j d : ℕ) → j < i + 1
    → load ready j ≡ some (some d)
    → (n ≤ d) × (j < m → n < d)
least_snoc ready i c m n h old le before j d lt e = elim (ℕ_discrete j i) [
  | yes same ↦
      let e' : load ready i ≡ some (some d) = rw (← same) e in
      let equal : c ≡ d = cc in (omega arith, λ less. absurd (omega arith))
  | no ne ↦ old j d (omega arith) e
]

Smallest-card :
    (ready : List Cell) (i c : ℕ) (best : Option ℕ)
    → load ready i ≡ some (some c)
    → Smallest ready i best
    → Returns (smaller ready c i best) (Smallest ready (i + 1))
unfolding smaller
Smallest-card ready i c none h s = (
  some i,
  refl,
  (
    c,
    h,
    omega arith,
    least_snoc ready i c i c h (λ j d lt e. let empty = s j lt in absurd (cc)) (omega arith)
        (omega arith),
  ),
)
Smallest-card ready i c (some m) h (n, at, inside, least) = rw at (elim (Bool-cases (ltb c n)) [
  | inl less ↦
      let lt : c < n = ltb→lt c n less in
      rw less (
        some i,
        refl,
        (
          c,
          h,
          omega arith,
          least_snoc ready i c i c h
              (λ j d before e. let old = (least j d before e).0 in (omega arith, λ _. omega arith))
              (omega arith) (omega arith),
        ),
      )
  | inr more ↦ rw more (
    some m,
    refl,
    (n, at, omega arith, least_snoc ready i c m n h least (ground arith) (omega arith)),
  )
])

min_card_lem :
    (ready : List Cell) (rounds i k : ℕ) (best : Option ℕ)
    → i + rounds ≡ k
    → k ≤ length ready
    → Smallest ready i best
    → Returns (min_card ready rounds i best) (Smallest ready k)
unfolding min_card
min_card_lem ready zero i k best e room s =
    let e' : i ≡ k = omega arith in (best, refl, rw (← e') s)
min_card_lem ready (suc rounds) i k best e room s = elim (load_cases ready i (omega arith)) [
  | inl h ↦ rw h (
      min_card_lem ready rounds (i + 1) k best (omega arith) room (Smallest-empty ready i best h s))
  | inr (c, h) ↦
      let (best', found, s') = Smallest-card ready i c best h s in
      rw (h, found) (min_card_lem ready rounds (i + 1) k best' (omega arith) room s')
]

-- The search of `place_card` over as many cells as there are at least does not fault, and finds the
-- first of the smallest cards among them; it finds none only if all are empty.
pub min_card-Smallest :
    (ready : List Cell) (capacity : ℕ)
    → capacity ≤ length ready
    → Returns (min_card ready capacity 0 none) (Smallest ready capacity)
min_card-Smallest ready capacity room =
    min_card_lem ready capacity 0 capacity none (omega arith) room (λ j h. absurd (omega arith))
