-- ===== src/Bot/Guess.antt =====
-- What `simple_enemy_choice` of Bot/bot_high_dif.c returns.
use native.Mathlib.Decide.{ℕ_discrete}
use pega_s.Prelude.{
  ℕ, zero, suc, ◌+◌, ◌≤◌, ◌<◌, ◌≡◌, ◌≢◌, ◌⊎◌, refl, sym, subst, ◌∙◌, Bool, true, false, some, List,
  ℤ, pos, negsuc, minus_one, ltb, ◌==◌, arith, length, load, load_in_bounds, ◌>>=◌, Returns,
  Bool-cases, inl, inr,
}
use pega_s.Bot.Enemy.{uint16_max, extreme_card, chosen_card, simple_enemy_choice}
use pega_s.Bot.Rivals.{Apart, Follows, Crowded, Free, Known, against_hand-Known}

-- A card at a place of the hand.
abbrev pub Held : List ℕ → ℕ → ℕ → ℕ → Type 0
Held array base n card = (i : ℕ) × (i < n) × (load array (base + i) ≡ some card)

-- The card kept by a loop for the greatest or the least card: `R` orders it before the first card
-- and before each of the cards seen, and it is the first one or not 0.
abbrev Kept : (ℕ → ℕ → Type 0) → List ℕ → ℕ → ℕ → ℕ → Type 0
Kept R array base i old =
    ((first : ℕ) → load array base ≡ some first → R old first × ((old ≡ first) ⊎ (old ≢ 0)))
    × ((k card : ℕ) → k < i → load array (base + k) ≡ some card → card ≢ 0 → R old card)

module _ (R : ℕ → ℕ → Type 0) (better : ℕ → ℕ → Bool) (array : List ℕ) (base n : ℕ)
    (same : (a : ℕ) → R a a) (trans : (a b c : ℕ) → R a b → R b c → R a c)
    (taken : (card old : ℕ) → better card old ≡ true → R card old)
    (left : (card old : ℕ) → better card old ≡ false → R old card) where
  keep_on :
      (i card old : ℕ)
      → load array (base + i) ≡ some card
      → (card ≢ 0 → R old card)
      → Kept R array base i old
      → Kept R array base (i + 1) old
  keep_on i card old at this (first, before) = (
    first,
    λ k other below at_k held. elim (ℕ_discrete k i) [
      | yes equal ↦
          let at' : load array (base + i) ≡ some other =
            subst (λ (m : ℕ). load array (base + m) ≡ some other) equal at_k in
          let one : card ≡ other = cc in subst (R old) one (this (λ gone. held (sym one ∙ gone)))
      | no ne ↦ before k other (omega arith) at_k held
    ],
  )

  take_new :
      (i card old : ℕ)
      → load array (base + i) ≡ some card
      → card ≢ 0
      → R card old
      → Kept R array base i old
      → Kept R array base (i + 1) card
  take_new i card old at held less (first, before) =
      keep_on i card card at (λ ne. same card)
        (
          λ f at_f. (trans card old f less (first f at_f).0, inr held),
          λ k other below at_k ne. trans card old other less (before k other below at_k ne),
        )

  extreme_card-Kept :
      (rounds i kept old : ℕ)
      → i + rounds ≡ n
      → base + n ≤ length array
      → kept < n
      → load array (base + kept) ≡ some old
      → Kept R array base i old
      → Returns (extreme_card better array base rounds i kept) (λ k.
        (k < n) × (card : ℕ) × (load array (base + k) ≡ some card) × Kept R array base n card)
  unfolding extreme_card
  extreme_card-Kept zero i kept old e room inside at_old h =
      let all : i ≡ n = omega arith in
      (kept, refl, (inside, old, at_old, subst (λ (m : ℕ). Kept R array base m old) all h))
  extreme_card-Kept (suc rounds) i kept old e room inside at_old h =
      let (card, at) = load_in_bounds array (base + i) (omega arith) in
      elim (Bool-cases (card == 0)) [
        | inl gone ↦
            let zero_card : card ≡ 0 = ground arith in
            let (r, e', ok) =
              extreme_card-Kept rounds (i + 1) kept old (omega arith) room inside at_old
                (keep_on i card old at (λ ne. absurd (ne zero_card)) h) in
            rw (at, gone) (r, e', ok)
        | inr held ↦ elim (Bool-cases (better card old)) [
          | inl new ↦
              let (r, e', ok) =
                extreme_card-Kept rounds (i + 1) i card (omega arith) room (omega arith) at
                  (take_new i card old at (ground arith) (taken card old new) h) in
              rw (at, held, at_old, new) (r, e', ok)
          | inr stays ↦
              let (r, e', ok) =
                extreme_card-Kept rounds (i + 1) kept old (omega arith) room inside at_old
                  (keep_on i card old at (λ ne. left card old stays) h) in
              rw (at, held, at_old, stays) (r, e', ok)
        ]
      ]

  extreme-Kept :
      0 < n
      → base + n ≤ length array
      → Returns
          (extreme_card better array base n 0 0 >>= λ i. load array (base + i))
          (λ card. Held array base n card × Kept R array base n card)
  extreme-Kept some_place room =
      let (first, at) = load_in_bounds array (base + 0) (omega arith) in
      let origin : base + 0 ≡ base = omega arith in
      let at₀ : load array base ≡ some first =
        subst (λ (m : ℕ). load array m ≡ some first) origin at in
      let (k, e, (below, card, at_k, kept)) =
        extreme_card-Kept n 0 0 first (omega arith) room some_place at (
          λ f at_f. let one : first ≡ f = cc in (subst (R first) one (same first), inl one),
          λ k card below. absurd (omega arith),
        ) in
      rw (e, at_k) (card, refl, ((k, below, at_k), kept))

module _ (last_in_row cards_in_row : List ℕ) (row_number row_length : ℕ) (array : List ℕ)
    (base n : ℕ) where
  -- The card follows a row as closely as a card of the hand can.
  abbrev pub IsClosest : ℕ → Type 0
  IsClosest card =
      (i : ℕ) × (d : ℕ) × Follows last_in_row cards_in_row row_number row_length array base n i card
        d
      × Apart last_in_row cards_in_row row_number row_length array base n n d

  -- A row is full, and the card is the greatest of the hand.
  abbrev pub IsGreatest : ℕ → Type 0
  IsGreatest card =
      Crowded last_in_row cards_in_row row_number row_length array base n
      × Held array base n card
      × (card ≢ 0)
      × ((k other : ℕ) → k < n → load array (base + k) ≡ some other → other ≤ card)

  -- No row is full, if the hand has a card, and no card of the hand follows a row, or only from
  -- 65535 away: the card is the least of the hand, but 0 if the first place of the hand is empty.
  abbrev pub IsLeast : ℕ → Type 0
  IsLeast card =
      Free last_in_row cards_in_row row_number row_length array base n n
      × Apart last_in_row cards_in_row row_number row_length array base n n uint16_max
      × Held array base n card
      × ((first : ℕ)
          → load array base ≡ some first
          → (card ≤ first) × ((card ≡ first) ⊎ (card ≢ 0)))
      × ((k other : ℕ) → k < n → load array (base + k) ≡ some other → other ≢ 0 → card ≤ other)

  abbrev pub IsGuess : ℕ → Type 0
  IsGuess card = IsClosest card ⊎ IsGreatest card ⊎ IsLeast card

  chosen_card-IsGuess :
      (best : ℕ × ℤ)
      → 0 < n
      → base + n ≤ length array
      → Known last_in_row cards_in_row row_number row_length array base n n best
      → Returns (chosen_card array base n best.1) IsGuess
  unfolding chosen_card
  chosen_card-IsGuess (d, pos i) some_place room (apart, (card, follows)) =
      rw follows.1 (card, refl, inl (i, d, follows, apart))
  chosen_card-IsGuess (d, negsuc zero) some_place room (apart, (same, free)) =
      let (card, e, (held, kept)) =
        extreme-Kept (λ a b. a ≤ b) ltb array base n (λ a. omega arith) (λ a b c h h'. omega arith)
          (λ a b h. ground arith) (λ a b h. ground arith) some_place room in
      (
        card,
        e,
        inr (
            inr (
              free,
              subst (Apart last_in_row cards_in_row row_number row_length array base n n) same
                  apart,
              held,
              kept.0,
              kept.1,
            )),
      )
  chosen_card-IsGuess (d, negsuc (suc zero)) some_place room (apart, crowded) =
      let (card, e, (held, kept)) =
        extreme-Kept (λ a b. b ≤ a) (λ card old. ltb old card) array base n (λ a. omega arith)
          (λ a b c h h'. omega arith) (λ a b h. ground arith) (λ a b h. ground arith) some_place
          room in
      let (j, k, other, _, _, below, at, ne) = crowded in
      let above : other ≤ card = kept.1 k other below at ne in
      (
        card,
        e,
        inr (
            inl (
              crowded,
              held,
              λ gone. ne (omega arith),
              λ m less inside at_m. elim (Bool-cases (less == 0)) [
                | inl gone ↦ ground arith
                | inr some_card ↦ kept.1 m less inside at_m (ground arith)
              ],
            )),
      )
  chosen_card-IsGuess (d, negsuc (suc (suc k))) some_place room (apart, never) = absurd never

-- For a hand of one place or more inside its array, and over rows that there are,
-- `simple_enemy_choice` does not fault. It returns a card of the hand that is above the end of a row
-- that is not full, by no more than any card of the hand is above the end of such a row; or, if a
-- row is full and the hand has a card, the greatest card of the hand; or, if no row is full or the
-- hand has no card, and no card is above the end of a row that is not full by less than 65535, the
-- least card of the hand, but 0 if the first place of the hand is 0.
pub simple_enemy_choice-IsGuess :
    (last_in_row cards_in_row : List ℕ) (row_number row_length : ℕ) (array : List ℕ) (base n : ℕ)
    → row_number ≤ length last_in_row
    → row_number ≤ length cards_in_row
    → base + n ≤ length array
    → 0 < n
    → Returns
        (simple_enemy_choice last_in_row cards_in_row row_number row_length array base n)
        (IsGuess last_in_row cards_in_row row_number row_length array base n)
unfolding simple_enemy_choice
simple_enemy_choice-IsGuess last_in_row cards_in_row row_number row_length array base n lasts counts
      room some_place =
    let (best, e, known) =
      against_hand-Known last_in_row cards_in_row row_number row_length array base n n 0
        (uint16_max, minus_one) (omega arith) room lasts counts
        (λ k card below. absurd (omega arith), (refl, λ k card below. absurd (omega arith))) in
    rw e (
      chosen_card-IsGuess last_in_row cards_in_row row_number row_length array base n best
        some_place room known)
