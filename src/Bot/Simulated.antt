-- ===== src/Bot/Simulated.antt =====
-- A simulated turn ends, with every card played and no row too long: `simulation_step` of
-- Bot/bot_high_dif.c.
use pega_s.Prelude.{
  ℕ, zero, suc, ◌+◌, ◌-◌, ◌≤◌, ◌<◌, ◌≡◌, ◌⊎◌, refl, subst, ◌∙◌, true, false, Option, none, some,
  List, ltb, ◌==◌, arith, length, length-set, load, set, load_in_bounds, store_in_bounds,
  load-set_cases, Returns, Bool-cases, inl, inr,
}
use pega_s.Bot.Enemy.{uint16_max}
use pega_s.Bot.Step.{
  Rows, fitter, optimal_row, cheaper, cheapest_row, restart, extend, charged, put_simulated,
  place_least, placed_cards, simulation_step,
}
use pega_s.Bot.Played.{Least, least_played-Least, unplayed, unplayed-set, unplayed-some}

-- There are arrays for so many rows, and no row has more cards than it may.
pub record Fits (row_number row_length : ℕ) (rows : Rows) : Type 0 where
  pub last : length rows.last_in_row ≡ row_number
  pub counts : length rows.cards_in_row ≡ row_number
  pub penalties : length rows.row_penalty ≡ row_number
  pub short : (j n : ℕ) → load rows.cards_in_row j ≡ some n → n ≤ row_length

optimal_row-below :
    (last_in_row : List ℕ) (card row_number rounds row : ℕ) (best : Option ℕ × ℕ)
    → row + rounds ≡ row_number
    → row_number ≤ length last_in_row
    → ((i : ℕ) → best.0 ≡ some i → i < row)
    → Returns
        (optimal_row last_in_row card rounds row best)
        (λ found. (i : ℕ) → found.0 ≡ some i → i < row_number)
unfolding optimal_row
optimal_row-below last_in_row card row_number zero row best e room inside =
    (best, refl, λ i same. omega (arith, inside i same))
optimal_row-below last_in_row card row_number (suc rounds) row best e room inside =
    let (last, here) = load_in_bounds last_in_row row (omega arith) in
    let (found, e', ok) =
      optimal_row-below last_in_row card row_number rounds (row + 1) (fitter card last row best)
        (omega arith) room
        (after last (Bool-cases (ltb card last)) (Bool-cases (ltb (card - last) best.1))) in
    (found, rw here e', ok)
  where
    old : (i : ℕ) → best.0 ≡ some i → i < row + 1
    old i same = omega (arith, inside i same)

    after :
        (last : ℕ)
        → ((ltb card last ≡ true) ⊎ (ltb card last ≡ false))
        → ((ltb (card - last) best.1 ≡ true) ⊎ (ltb (card - last) best.1 ≡ false))
        → (i : ℕ) → (fitter card last row best).0 ≡ some i
        → i < row + 1
    after last (inl above) _ = rw above old
    after last (inr below) (inl less) =
        rw (below, less) (λ i same. let same' : row ≡ i = cc in omega (arith, same'))
    after last (inr below) (inr more) = rw (below, more) old

cheapest_row-below :
    (row_penalty : List ℕ) (row_number rounds row : ℕ) (best : ℕ × ℕ)
    → row + rounds ≡ row_number
    → row_number ≤ length row_penalty
    → best.0 < row
    → Returns (cheapest_row row_penalty rounds row best) (λ found. found.0 < row_number)
unfolding cheapest_row
cheapest_row-below row_penalty row_number zero row best e room inside = (best, refl, omega arith)
cheapest_row-below row_penalty row_number (suc rounds) row best e room inside =
    let (penalty, here) = load_in_bounds row_penalty row (omega arith) in
    let (found, e', ok) =
      cheapest_row-below row_penalty row_number rounds (row + 1) (cheaper penalty row best)
        (omega arith) room
        (elim (Bool-cases (ltb penalty best.1)) [
          | inl less ↦ rw less (omega arith)
          | inr more ↦ rw more (omega arith)
        ]) in
    (found, rw here e', ok)

module _ (row_number row_length : ℕ) (rows : Rows) (fits : Fits row_number row_length rows) where
  -- New values at a row.
  changed : ℕ → ℕ → ℕ → ℕ → Rows
  changed row card count penalty = record {
    last_in_row = set rows.last_in_row row card;
    cards_in_row = set rows.cards_in_row row count;
    row_penalty = set rows.row_penalty row penalty;
  }

  changed-Fits :
      (row card count penalty : ℕ)
      → count ≤ row_length
      → Fits row_number row_length (changed row card count penalty)
  unfolding changed
  changed-Fits row card count penalty short = record {
    last = length-set rows.last_in_row row card ∙ fits.last;
    counts = length-set rows.cards_in_row row count ∙ fits.counts;
    penalties = length-set rows.row_penalty row penalty ∙ fits.penalties;
    short = λ j n at. elim (load-set_cases rows.cards_in_row row j at) [
      | inl (_, same) ↦ omega (arith, same)
      | inr old ↦ fits.short j n old
    ];
  }

  restart-Fits :
      (row card penalty : ℕ)
      → row < row_number
      → 1 ≤ row_length
      → Returns (restart rows row card penalty) (Fits row_number row_length)
  unfolding restart changed
  restart-Fits row card penalty inside wide =
      rw
        (
          store_in_bounds rows.last_in_row row card (omega (arith, fits.last)),
          store_in_bounds rows.cards_in_row row 1 (omega (arith, fits.counts)),
          store_in_bounds rows.row_penalty row penalty (omega (arith, fits.penalties)),
        )
        (_, refl, changed-Fits row card 1 penalty wide)

  extend-Fits :
      (row card count : ℕ)
      → row < row_number
      → count < row_length
      → Returns (extend rows row card count) (Fits row_number row_length)
  unfolding extend changed
  extend-Fits row card count inside room =
      let (penalty, at) = load_in_bounds rows.row_penalty row (omega (arith, fits.penalties)) in
      rw
        (
          store_in_bounds rows.last_in_row row card (omega (arith, fits.last)),
          store_in_bounds rows.cards_in_row row (count + 1) (omega (arith, fits.counts)),
          at,
          store_in_bounds rows.row_penalty row (penalty + 3) (omega (arith, fits.penalties)),
        )
        (_, refl, changed-Fits row card (count + 1) (penalty + 3) (omega arith))

  put_simulated-Fits :
      (player card : ℕ) (best : Option ℕ)
      → 0 < row_number
      → 1 ≤ row_length
      → ((i : ℕ) → best ≡ some i → i < row_number)
      → Returns
          (put_simulated rows row_number row_length player card best)
          (λ r. Fits row_number row_length r.1)
  unfolding put_simulated
  put_simulated-Fits player card none some_row wide inside =
      let (first, at) = load_in_bounds rows.row_penalty 0 (omega (arith, fits.penalties)) in
      let ((row, penalty), e, below) =
        cheapest_row-below rows.row_penalty row_number (row_number - 1) 1 (0, first) (omega arith)
          (omega (arith, fits.penalties)) (omega arith) in
      let (rows', e', fits') = restart-Fits row card 3 below wide in
      rw (at, e, e') ((charged player penalty, rows'), refl, fits')
  put_simulated-Fits player card (some row) some_row wide inside =
      let (count, at) =
        load_in_bounds rows.cards_in_row row (omega (arith, fits.counts, inside row refl)) in
      let (penalty, at') =
        load_in_bounds rows.row_penalty row (omega (arith, fits.penalties, inside row refl)) in
      elim (Bool-cases (count == row_length)) [
        | inl full ↦
            let (rows', e, fits') = restart-Fits row card 2 (inside row refl) wide in
            rw (at, at', full, e) ((charged player penalty, rows'), refl, fits')
        | inr more ↦
            let low : count ≤ row_length = fits.short row count at in
            let (rows', e, fits') = extend-Fits row card count (inside row refl) (ground arith) in
            rw (at, at', more, e) ((0, rows'), refl, fits')
      ]

  -- What placing the least card leaves behind.
  abbrev Shorter : List ℕ → ℕ × Rows × List ℕ → Type 0
  Shorter played (penalty, rows', played') =
      Fits row_number row_length rows'
      × (length played' ≡ length played)
      × (unplayed played' + 1 ≡ unplayed played)

  place_least-Shorter :
      (played : List ℕ) (least : Option ℕ)
      → 0 < row_number
      → 1 ≤ row_length
      → Least played (length played) least
      → 0 < unplayed played
      → Returns (place_least rows row_number row_length played least) (Shorter played)
  unfolding place_least
  place_least-Shorter played none some_row wide least more =
      let (i, card, at, ne, below) = unplayed-some played more in
      absurd (ne (least i card below at))
  place_least-Shorter played (some player) some_row wide (card, at, ne, inside, _) more =
      let (best, e, below) =
        optimal_row-below rows.last_in_row card row_number row_number 0 (none, uint16_max)
          (omega arith) (omega (arith, fits.last)) (λ i same. absurd (cc)) in
      let ((penalty, rows'), e', fits') =
        put_simulated-Fits player card best.0 some_row wide below in
      rw (at, e, e', store_in_bounds played player 0 inside)
        (
          (penalty, rows', set played player 0),
          refl,
          (fits', length-set played player 0, unplayed-set played player at ne),
        )

placed_cards-Fits :
    (row_number row_length players : ℕ) (rows : Rows) (played : List ℕ) (rounds penalty : ℕ)
    → Fits row_number row_length rows
    → 0 < row_number
    → 1 ≤ row_length
    → length played ≡ players
    → unplayed played ≡ rounds
    → Returns
        (placed_cards players rows row_number row_length played rounds penalty)
        (λ r. Fits row_number row_length r.1 × (length r.2 ≡ players) × (unplayed r.2 ≡ 0))
unfolding placed_cards
placed_cards-Fits row_number row_length players rows played zero penalty fits some_row wide size
      left =
    ((penalty, rows, played), refl, (fits, size, left))
placed_cards-Fits row_number row_length players rows played (suc rounds) penalty fits some_row wide
      size left =
    let (least, e, h) =
      least_played-Least played players 0 none (omega arith)
        (λ j card below. absurd (omega arith)) in
    let whole : 0 + players ≡ length played = omega arith in
    let ((more, rows', played'), e', (fits', size', left')) =
      place_least-Shorter row_number row_length rows fits played least some_row wide
        (subst (λ (n : ℕ). Least played n least) whole h) (omega arith) in
    let (r, e'', done) =
      placed_cards-Fits row_number row_length players rows' played' rounds (penalty + more) fits'
        some_row wide (omega arith) (omega arith) in
    rw (e, e') (r, e'', done)

-- With arrays for at least one row, no row longer than its length, which is not 0, and for each
-- player a card that is not 0, `simulation_step` does not fault: it plays every card, and leaves
-- such rows.
pub simulation_step-Fits :
    (row_number row_length : ℕ) (rows : Rows) (played : List ℕ)
    → Fits row_number row_length rows
    → 0 < row_number
    → 1 ≤ row_length
    → unplayed played ≡ length played
    → Returns
        (simulation_step rows row_number row_length played (length played))
        (λ r. Fits row_number row_length r.1 × (length r.2 ≡ length played) × (unplayed r.2 ≡ 0))
unfolding simulation_step
simulation_step-Fits row_number row_length rows played fits some_row wide all =
    placed_cards-Fits row_number row_length (length played) rows played (length played) 0 fits
      some_row wide refl all
