-- ===== src/Bot/Rivals.antt =====
-- Which card `simple_enemy_choice` of Bot/bot_high_dif.c finds among the rows.
use native.Mathlib.Decide.{ℕ_discrete}
use pega_s.Prelude.{
  ℕ, zero, suc, ◌+◌, ◌-◌, ◌≤◌, ◌<◌, ◌≡◌, ◌≢◌, refl, sym, subst, ◌∙◌, some, List, ℤ, pos, negsuc,
  ltb, ◌==◌, ◌&&◌, arith, length, load, load_in_bounds, Returns, Bool-cases, inl, inr,
}
use pega_s.Bot.Enemy.{uint16_max, nearer, against_rows, against_hand}

-- The rows, and a hand: the part of an array from `base` on, of `n` cards.
module _ (last_in_row cards_in_row : List ℕ) (row_number row_length : ℕ) (array : List ℕ)
    (base n : ℕ) where
  -- None of the first rows that are not full ends below a card by less than `d`.
  abbrev pub RowsApart : ℕ → ℕ → ℕ → Type 0
  RowsApart card m d =
      (j last : ℕ)
      → j < m
      → load last_in_row j ≡ some last
      → load cards_in_row j ≢ some row_length
      → last < card
      → last + d ≤ card

  -- The same of each of the hand's first cards.
  abbrev pub Apart : ℕ → ℕ → Type 0
  Apart i d =
      (k card : ℕ)
      → k < i
      → load array (base + k) ≡ some card
      → card ≢ 0
      → RowsApart card row_number d

  -- A card of the hand, `d` above the end of a row that is not full.
  abbrev pub Follows : ℕ → ℕ → ℕ → Type 0
  Follows i card d =
      (i < n)
      × (load array (base + i) ≡ some card)
      × (card ≢ 0)
      × (j : ℕ) × (last : ℕ) × (j < row_number)
      × (load last_in_row j ≡ some last)
      × (load cards_in_row j ≢ some row_length)
      × (last + d ≡ card)
      × (0 < d)

  -- A row is full, and the hand has a card.
  abbrev pub Crowded : Type 0
  Crowded =
      (j : ℕ) × (k : ℕ) × (card : ℕ) × (j < row_number)
      × (load cards_in_row j ≡ some row_length)
      × (k < n)
      × (load array (base + k) ≡ some card)
      × (card ≢ 0)

  -- None of the first rows is full.
  abbrev Roomy : ℕ → Type 0
  Roomy m = (j : ℕ) → j < m → load cards_in_row j ≢ some row_length

  -- If one of the hand's first places has a card, no row is full.
  abbrev pub Free : ℕ → Type 0
  Free i = (k card : ℕ) → k < i → load array (base + k) ≡ some card → card ≢ 0 → Roomy row_number

  -- What `min_diff` and `best_card_index` say; `P` is what -1 says.
  abbrev pub Best : Type 0 → ℕ × ℤ → Type 0
  Best P (d, pos i) = (card : ℕ) × Follows i card d
  Best P (d, negsuc zero) = (d ≡ uint16_max) × P
  Best P (d, negsuc (suc zero)) = Crowded
  Best P (d, negsuc (suc (suc k))) = ⊥

  Best-imp : (P Q : Type 0) (best : ℕ × ℤ) → (P → Q) → Best P best → Best Q best
  Best-imp P Q (d, pos i) f h = h
  Best-imp P Q (d, negsuc zero) f h = (h.0, f h.1)
  Best-imp P Q (d, negsuc (suc zero)) f h = h
  Best-imp P Q (d, negsuc (suc (suc k))) f h = h

  RowsApart-full :
      (card row d : ℕ)
      → load cards_in_row row ≡ some row_length
      → RowsApart card row d
      → RowsApart card (row + 1) d
  RowsApart-full card row d full apart = λ j last below at ok under. elim (ℕ_discrete j row) [
    | yes same ↦
        absurd (ok (subst (λ (i : ℕ). load cards_in_row i ≡ some row_length) (sym same) full))
    | no ne ↦ apart j last (omega arith) at ok under
  ]

  RowsApart-step :
      (card row end d d' : ℕ)
      → load last_in_row row ≡ some end
      → d' ≤ d
      → (end < card → end + d' ≤ card)
      → RowsApart card row d
      → RowsApart card (row + 1) d'
  RowsApart-step card row end d d' here less this apart = λ j last below at ok under.
      elim (ℕ_discrete j row) [
        | yes same ↦
            let at' : load last_in_row row ≡ some last =
              subst (λ (i : ℕ). load last_in_row i ≡ some last) same at in
            let equal : end ≡ last = cc in omega (arith, equal, this (omega (arith, equal)))
        | no ne ↦ omega (arith, apart j last (omega arith) at ok under)
      ]

  Apart-le : (i d d' : ℕ) → d' ≤ d → Apart i d → Apart i d'
  Apart-le i d d' less apart = λ k card below at held j last inside here ok under.
      omega (arith, apart k card below at held j last inside here ok under)

  Roomy-step : (row : ℕ) → load cards_in_row row ≢ some row_length → Roomy row → Roomy (row + 1)
  Roomy-step row this roomy = λ j below full. elim (ℕ_discrete j row) [
    | yes same ↦ this (subst (λ (i : ℕ). load cards_in_row i ≡ some row_length) same full)
    | no ne ↦ roomy j (omega arith) full
  ]

  -- What is known after some rows, for the card at a place of the hand.
  abbrev After : ℕ → ℕ → ℕ → ℕ × ℤ → Type 0
  After i card m best = RowsApart card m best.0 × Apart i best.0 × Best (Free i × Roomy m) best

  module _ (i card : ℕ) (inside : i < n) (at : load array (base + i) ≡ some card)
      (held : card ≢ 0) where
    full_row :
        (row : ℕ) (best : ℕ × ℤ)
        → row < row_number
        → load cards_in_row row ≡ some row_length
        → After i card row best
        → After i card (row + 1) (best.0, negsuc 1)
    full_row row best below full (rows, hand, h) = (
      RowsApart-full card row best.0 full rows,
      hand,
      (row, i, card, below, full, inside, at, held),
    )

    free_row :
        (row end : ℕ) (best : ℕ × ℤ)
        → row < row_number
        → load last_in_row row ≡ some end
        → load cards_in_row row ≢ some row_length
        → After i card row best
        → After i card (row + 1) (nearer card end i best)
    free_row row end best below here ok (rows, hand, h) =
        elim (Bool-cases (ltb end card && ltb (card - end) best.0)) [
          | inl closer ↦ rw closer (
            RowsApart-step card row end best.0 (card - end) here (ground arith)
                (λ under. omega arith) rows,
            Apart-le i best.0 (card - end) (ground arith) hand,
            (card, (inside, at, held, row, end, below, here, ok, ground arith, ground arith)),
          )
          | inr farther ↦ rw farther (
            RowsApart-step card row end best.0 best.0 here (omega arith) (λ under. ground arith)
                rows,
            hand,
            Best-imp (Free i × Roomy row) (Free i × Roomy (row + 1)) best
                (λ known. (known.0, Roomy-step row ok known.1)) h,
          )
        ]

    against_rows-After :
        (rounds row : ℕ) (best : ℕ × ℤ)
        → row + rounds ≡ row_number
        → row_number ≤ length last_in_row
        → row_number ≤ length cards_in_row
        → After i card row best
        → Returns
            (against_rows last_in_row cards_in_row row_length card i rounds row best)
            (After i card row_number)
    unfolding against_rows
    against_rows-After zero row best e lasts counts h =
        let same : row ≡ row_number = omega arith in
        (best, refl, subst (λ (m : ℕ). After i card m best) same h)
    against_rows-After (suc rounds) row best e lasts counts h =
        let (count, at_count) = load_in_bounds cards_in_row row (omega arith) in
        let (end, here) = load_in_bounds last_in_row row (omega arith) in
        elim (Bool-cases (count == row_length)) [
          | inl full ↦
              let same : count ≡ row_length = ground arith in
              let (r, e', ok) =
                against_rows-After rounds (row + 1) (best.0, negsuc 1) (omega arith) lasts counts
                  (full_row row best (omega arith) (rw (← same) at_count) h) in
              rw (at_count, full) (r, e', ok)
          | inr more ↦
              let free : load cards_in_row row ≢ some row_length =
                λ full. let same : count ≡ row_length = cc in absurd (ground arith) in
              let (r, e', ok) =
                against_rows-After rounds (row + 1) (nearer card end i best) (omega arith) lasts
                  counts (free_row row end best (omega arith) here free h) in
              rw (at_count, more, here) (r, e', ok)
        ]

  -- What is known after some cards of the hand.
  abbrev pub Known : ℕ → ℕ × ℤ → Type 0
  Known i best = Apart i best.0 × Best (Free i) best

  -- What holds of the cards before a place, and of the card there.
  with_place :
      (P : ℕ → Type 0) (i card : ℕ)
      → load array (base + i) ≡ some card
      → (card ≢ 0 → P card)
      → ((k other : ℕ) → k < i → load array (base + k) ≡ some other → other ≢ 0 → P other)
      → (k other : ℕ) → k < i + 1
      → load array (base + k) ≡ some other
      → other ≢ 0
      → P other
  with_place P i card at this before k other below at_k held = elim (ℕ_discrete k i) [
    | yes same ↦
        let at' : load array (base + i) ≡ some other =
          subst (λ (m : ℕ). load array (base + m) ≡ some other) same at_k in
        let equal : other ≡ card = cc in
        subst P (sym equal) (this (λ zero_card. held (equal ∙ zero_card)))
    | no ne ↦ before k other (omega arith) at_k held
  ]

  Known-gone :
      (i : ℕ) (best : ℕ × ℤ) → load array (base + i) ≡ some 0 → Known i best → Known (i + 1) best
  Known-gone i best at (hand, h) = (
    with_place (λ card. RowsApart card row_number best.0) i 0 at (λ ne. absurd (ne refl)) hand,
    Best-imp (Free i) (Free (i + 1)) best
        (with_place (λ card. Roomy row_number) i 0 at (λ ne. absurd (ne refl))) h,
  )

  After-Known :
      (i card : ℕ) (best : ℕ × ℤ)
      → load array (base + i) ≡ some card
      → After i card row_number best
      → Known (i + 1) best
  After-Known i card best at (rows, hand, h) = (
    with_place (λ other. RowsApart other row_number best.0) i card at (λ ne. rows) hand,
    Best-imp (Free i × Roomy row_number) (Free (i + 1)) best
        (λ known. with_place (λ other. Roomy row_number) i card at (λ ne. known.1) known.0) h,
  )

  pub against_hand-Known :
      (rounds i : ℕ) (best : ℕ × ℤ)
      → i + rounds ≡ n
      → base + n ≤ length array
      → row_number ≤ length last_in_row
      → row_number ≤ length cards_in_row
      → Known i best
      → Returns
          (against_hand last_in_row cards_in_row row_number row_length array base rounds i best)
          (Known n)
  unfolding against_hand
  against_hand-Known zero i best e room lasts counts h =
      let same : i ≡ n = omega arith in (best, refl, subst (λ (m : ℕ). Known m best) same h)
  against_hand-Known (suc rounds) i best e room lasts counts h =
      let (card, at) = load_in_bounds array (base + i) (omega arith) in
      elim (Bool-cases (card == 0)) [
        | inl gone ↦
            let zero_card : card ≡ 0 = ground arith in
            let (r, e', ok) =
              against_hand-Known rounds (i + 1) best (omega arith) room lasts counts
                (Known-gone i best (rw (← zero_card) at) h) in
            rw (at, gone) (r, e', ok)
        | inr held ↦
            let start : After i card 0 best = (
              λ j last below. absurd (omega arith),
              h.0,
              Best-imp (Free i) (Free i × Roomy 0) best
                  (λ free. (free, λ j below. absurd (omega arith))) h.1,
            ) in
            let (best', e', after) =
              against_rows-After i card (omega arith) at (ground arith) row_number 0 best
                (omega arith) lasts counts start in
            let (r, e'', ok) =
              against_hand-Known rounds (i + 1) best' (omega arith) room lasts counts
                (After-Known i card best' at after) in
            rw (at, held, e') (r, e'', ok)
      ]
