-- ===== src/Bot/Played.antt =====
-- A simulated turn plays every card: `simulation_step` of Bot/bot_high_dif.c.
use native.Mathlib.Decide.{ℕ_discrete}
use pega_s.Prelude.{
  ℕ, zero, suc, ◌+◌, ◌≤◌, ◌<◌, ◌≡◌, ◌≢◌, ◌⊎◌, refl, subst, Bool, Option, none, some, List, [], ◌∷◌,
  ltb, ◌==◌, if◌then◌else◌, arith, length, load, set, load_in_bounds, Returns, Bool-cases, inl, inr,
}
use pega_s.Bot.Step.{least_of, least_played}

-- The least card among the first ones that has not been played.
abbrev pub Least : List ℕ → ℕ → Option ℕ → Type 0
Least played n none = (j card : ℕ) → j < n → load played j ≡ some card → card ≡ 0
Least played n (some m) =
    (least : ℕ) × (load played m ≡ some least)
    × (least ≢ 0)
    × (m < n)
    × ((j card : ℕ) → j < n → load played j ≡ some card → card ≢ 0 → least ≤ card)

module _ (played : List ℕ) where
  at_either :
      (P : ℕ → Type 0) (p card : ℕ)
      → load played p ≡ some card
      → P card
      → ((j other : ℕ) → j < p → load played j ≡ some other → P other)
      → (j other : ℕ) → j < p + 1
      → load played j ≡ some other
      → P other
  at_either P p card here this before j other below at = elim (ℕ_discrete j p) [
    | yes same ↦
        let at' : load played p ≡ some other = rw (← same) at in
        let equal : card ≡ other = cc in subst P equal this
    | no ne ↦ before j other (omega arith) at
  ]

  Least-zero :
      (p : ℕ) (kept : Option ℕ)
      → load played p ≡ some 0
      → Least played p kept
      → Least played (p + 1) kept
  Least-zero p none here h = at_either (λ card. card ≡ 0) p 0 here refl h
  Least-zero p (some m) here h = (
    h.0,
    h.1,
    h.2,
    omega (arith, h.3),
    at_either (λ card. card ≢ 0 → h.0 ≤ card) p 0 here (λ ne. absurd (ne refl)) h.4,
  )

  least_of-Least :
      (p card : ℕ) (kept : Option ℕ)
      → load played p ≡ some card
      → card ≢ 0
      → Least played p kept
      → Returns (least_of played card p kept) (Least played (p + 1))
  unfolding least_of
  least_of-Least p card none here ne h = (
    some p,
    refl,
    (
      card,
      here,
      ne,
      omega arith,
      at_either (λ other. other ≢ 0 → card ≤ other) p card here (λ _. omega arith)
          (λ j other below at nonzero. absurd (nonzero (h j other below at))),
    ),
  )
  least_of-Least p card (some m) here ne (old, at, old_ne, below_m, least) =
      elim (Bool-cases (ltb card old)) [
        | inl less ↦
            rw (at, less)
              (
                some p,
                refl,
                (
                  card,
                  here,
                  ne,
                  omega arith,
                  at_either (λ other. other ≢ 0 → card ≤ other) p card here (λ _. omega arith)
                      (λ j other below at_j nonzero.
                        let low : old ≤ other = least j other below at_j nonzero in ground arith),
                ),
              )
        | inr more ↦
            rw (at, more)
              (
                some m,
                refl,
                (
                  old,
                  at,
                  old_ne,
                  omega arith,
                  at_either (λ other. other ≢ 0 → old ≤ other) p card here (λ _. ground arith)
                      least,
                ),
              )
      ]

  pub least_played-Least :
      (rounds p : ℕ) (kept : Option ℕ)
      → p + rounds ≤ length played
      → Least played p kept
      → Returns (least_played played rounds p kept) (Least played (p + rounds))
  unfolding least_played
  least_played-Least zero p kept room h =
      let same : p ≡ p + 0 = omega arith in
      (kept, refl, subst (λ (n : ℕ). Least played n kept) same h)
  least_played-Least (suc rounds) p kept room h =
      let (card, here) = load_in_bounds played p (omega arith) in
      let (kept', e, h') = next card here (Bool-cases (card == 0)) in
      let (found, e', least) = least_played-Least rounds (p + 1) kept' (omega arith) h' in
      let same : (p + 1) + rounds ≡ p + suc rounds = omega arith in
      (found, rw (here, e) e', subst (λ (n : ℕ). Least played n found) same least)
    where
      next :
          (card : ℕ)
          → load played p ≡ some card
          → (((card == 0) ≡ Bool.true) ⊎ ((card == 0) ≡ Bool.false))
          → Returns
              (if card == 0 then some kept else least_of played card p kept)
              (Least played (p + 1))
      next card here (inl z) =
          let gone : card ≡ 0 = ground arith in
          let here₀ : load played p ≡ some 0 = rw (← gone) here in
          rw z (kept, refl, Least-zero p kept here₀ h)
      next card here (inr nz) =
          let (kept', e, least) = least_of-Least p card kept here (ground arith) h in
          rw nz (kept', e, least)

-- How many cards have not been played.
unfoldable pub unplayed : List ℕ → ℕ
unplayed [] = 0
unplayed (zero ∷ cards) = unplayed cards
unplayed (suc n ∷ cards) = suc (unplayed cards)

pub unplayed-set :
    (cards : List ℕ) (i : ℕ) {card : ℕ}
    → load cards i ≡ some card
    → card ≢ 0
    → unplayed (set cards i 0) + 1 ≡ unplayed cards
unfolding unplayed
unplayed-set [] i at ne = absurd (cc)
unplayed-set (zero ∷ cards) zero at ne = absurd (ne (cc))
unplayed-set (suc n ∷ cards) zero at ne = omega arith
unplayed-set (zero ∷ cards) (suc i) at ne = unplayed-set cards i at ne
unplayed-set (suc n ∷ cards) (suc i) at ne = omega (arith, unplayed-set cards i at ne)

pub unplayed-some :
    (cards : List ℕ)
    → 0 < unplayed cards
    → (i card : ℕ) × (load cards i ≡ some card) × (card ≢ 0) × (i < length cards)
unfolding unplayed
unplayed-some [] h = absurd (omega arith)
unplayed-some (zero ∷ cards) h =
    let (i, card, at, ne, below) = unplayed-some cards h in (suc i, card, at, ne, omega arith)
unplayed-some (suc n ∷ cards) h = (0, suc n, refl, λ e. omega arith, omega arith)
