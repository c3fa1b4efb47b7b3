-- ===== src/Bot/Danger.antt =====
-- The bot of level 0: `calculate_danger` and `bot_choose_card` of Bot/bot_play.c.
use native.Mathlib.Decide.{ℕ_discrete}
use pega_s.Prelude.{
  ℕ, zero, suc, ◌+◌, ◌-◌, ◌*◌, ◌≤◌, ◌<◌, ◌≡◌, ◌⊎◌, refl, subst, false, Option, none, some, List,
  ltb, ◌==◌, ◌&&◌, if◌then◌else◌, arith, length, load, load_in_bounds, ◌>>=◌, Returns, Bool-cases,
  inl, inr,
}

-- `row_t`.
pub record Row : Type 0 where
  pub last_card : ℕ
  pub count : ℕ
  pub bulls_sum : ℕ

abbrev pub int16_max : ℕ
int16_max = 32767

-- A row that the card can follow, and that is nearer than the one before: the new `best_row` and
-- `min_diff`.
abbrev pub follow : ℕ → Row → ℕ → Option ℕ × ℕ → Option ℕ × ℕ
follow my_card row i (best, min_diff) =
    if ltb row.last_card my_card && ltb (my_card - row.last_card) min_diff
    then (some i, my_card - row.last_card)
    else (best, min_diff)

unfoldable pub nearest_row : ℕ → List Row → ℕ → ℕ → Option ℕ × ℕ → Option (Option ℕ × ℕ)
nearest_row my_card rows zero i best = some best
nearest_row my_card rows (suc rounds) i best = do
  row ← load rows i
  nearest_row my_card rows rounds (i + 1) (follow my_card row i best)

-- The danger of a row that the card would follow, `diff` away.
unfoldable pub row_danger : Row → ℕ → ℕ → ℕ
row_danger row diff player_count =
    if row.count == 5
    then 1000 + row.bulls_sum * 10
    else ((if row.count == 4 && ltb 1 diff then 50 * player_count else 0)
        + (if ltb player_count diff then diff * 2 else 0))

unfoldable pub danger_at : List Row → ℕ → Option ℕ × ℕ → Option ℕ
danger_at rows player_count (none, diff) = some 500
danger_at rows player_count (some i, diff) =
    load rows i >>= λ row. some (row_danger row diff player_count)

unfoldable pub calculate_danger : ℕ → List Row → ℕ → Option ℕ
calculate_danger my_card rows player_count = do
  best ← nearest_row my_card rows 4 0 (none, int16_max)
  danger_at rows player_count best

-- The new `best_card_index` and `min_danger`.
abbrev pub safer : ℕ → ℕ → Option ℕ × ℕ → Option ℕ × ℕ
safer i danger (best, min_danger) =
    if ltb danger min_danger then (some i, danger) else (best, min_danger)

-- The numbers of the cards; none for -1.
unfoldable pub safest : List ℕ → List Row → ℕ → ℕ → ℕ → Option ℕ × ℕ → Option (Option ℕ × ℕ)
safest cards rows player_count zero i best = some best
safest cards rows player_count (suc rounds) i best = do
  card ← load cards i
  danger ← calculate_danger card rows player_count
  safest cards rows player_count rounds (i + 1) (safer i danger best)

unfoldable pub bot_choose_card : List ℕ → ℕ → List Row → ℕ → Option (Option ℕ)
bot_choose_card cards hand_count rows player_count =
    safest cards rows player_count hand_count 0 (none, int16_max) >>= λ best. some best.0

-- No row among the first ones that the card can follow is nearer than `diff`.
abbrev Near : ℕ → List Row → ℕ → ℕ → Type 0
Near my_card rows n diff =
    (j : ℕ) (row : Row)
    → j < n
    → load rows j ≡ some row
    → row.last_card < my_card
    → row.last_card + diff ≤ my_card

abbrev Nearest : ℕ → List Row → ℕ → Option ℕ × ℕ → Type 0
Nearest my_card rows n (none, diff) = (diff ≡ int16_max) × Near my_card rows n diff
Nearest my_card rows n (some i, diff) =
    (row : Row) × (load rows i ≡ some row)
    × (i < n)
    × (row.last_card + diff ≡ my_card)
    × (0 < diff)
    × Near my_card rows n diff

Near-step :
    (my_card : ℕ) (rows : List Row) (i diff diff' : ℕ) (row : Row)
    → load rows i ≡ some row
    → Near my_card rows i diff
    → diff' ≤ diff
    → (row.last_card < my_card → row.last_card + diff' ≤ my_card)
    → Near my_card rows (i + 1) diff'
Near-step my_card rows i diff diff' row here near less this = λ j other below at under.
    elim (ℕ_discrete j i) [
      | yes same ↦
          let at' : load rows i ≡ some other = rw (← same) at in
          let equal : row ≡ other = cc in
          subst (λ (r : Row). r.last_card < my_card → r.last_card + diff' ≤ my_card) equal this
            under
      | no ne ↦ omega (arith, near j other (omega arith) at under)
    ]

follow-Nearest :
    (my_card : ℕ) (rows : List Row) (i : ℕ) (row : Row) (best : Option ℕ) (diff : ℕ)
    → load rows i ≡ some row
    → Nearest my_card rows i (best, diff)
    → Nearest my_card rows (i + 1) (follow my_card row i (best, diff))
follow-Nearest my_card rows i row best diff here h =
    elim (Bool-cases (ltb row.last_card my_card && ltb (my_card - row.last_card) diff)) [
      | inl nearer ↦ rw nearer (
        row,
        here,
        omega arith,
        ground arith,
        ground arith,
        Near-step my_card rows i diff (my_card - row.last_card) row here (near best h)
            (ground arith) (λ under. omega arith),
      )
      | inr farther ↦ rw farther (kept best h farther)
    ]
  where
    near : (best : Option ℕ) → Nearest my_card rows i (best, diff) → Near my_card rows i diff
    near none h = h.1
    near (some k) h = h.5

    step :
        (best : Option ℕ)
        → Nearest my_card rows i (best, diff)
        → (ltb row.last_card my_card && ltb (my_card - row.last_card) diff) ≡ false
        → Near my_card rows (i + 1) diff
    step best h farther =
        Near-step my_card rows i diff diff row here (near best h) (omega arith)
          (λ under. ground arith)

    kept :
        (best : Option ℕ)
        → Nearest my_card rows i (best, diff)
        → (ltb row.last_card my_card && ltb (my_card - row.last_card) diff) ≡ false
        → Nearest my_card rows (i + 1) (best, diff)
    kept none h farther = (h.0, step none h farther)
    kept (some k) h farther = (h.0, h.1, omega (arith, h.2), h.3, h.4, step (some k) h farther)

nearest_row-Nearest :
    (my_card : ℕ) (rows : List Row) (rounds i : ℕ) (best : Option ℕ × ℕ)
    → i + rounds ≤ length rows
    → Nearest my_card rows i best
    → Returns (nearest_row my_card rows rounds i best) (Nearest my_card rows (i + rounds))
unfolding nearest_row
nearest_row-Nearest my_card rows zero i best room h =
    let same : i ≡ i + 0 = omega arith in
    (best, refl, subst (λ (n : ℕ). Nearest my_card rows n best) same h)
nearest_row-Nearest my_card rows (suc rounds) i best room h =
    let (row, here) = load_in_bounds rows i (omega arith) in
    let (found, e, near) =
      nearest_row-Nearest my_card rows rounds (i + 1) (follow my_card row i best) (omega arith)
        (follow-Nearest my_card rows i row best.0 best.1 here h) in
    let same : (i + 1) + rounds ≡ i + suc rounds = omega arith in
    (found, rw here e, subst (λ (n : ℕ). Nearest my_card rows n found) same near)

-- What the danger of a card is.
abbrev pub Dangerous : ℕ → List Row → ℕ → ℕ → Type 0
Dangerous my_card rows player_count danger =
    ((danger ≡ 500) × Near my_card rows 4 int16_max)
    ⊎ ((i : ℕ) × (row : Row) × (diff : ℕ) × (i < 4)
        × (load rows i ≡ some row)
        × (row.last_card + diff ≡ my_card)
        × (0 < diff)
        × Near my_card rows 4 diff
        × (danger ≡ row_danger row diff player_count))

-- Over four rows or more, `calculate_danger` does not fault. A card that no row takes, or only one
-- 32767 or more below, has danger 500; any other card has the danger of the row that takes it: the
-- one with the greatest last card below it.
pub calculate_danger-Dangerous :
    (my_card : ℕ) (rows : List Row) (player_count : ℕ)
    → 4 ≤ length rows
    → Returns (calculate_danger my_card rows player_count) (Dangerous my_card rows player_count)
unfolding calculate_danger danger_at
calculate_danger-Dangerous my_card rows player_count room =
    let (best, e, near) =
      nearest_row-Nearest my_card rows 4 0 (none, int16_max) room
        (refl, λ j row below. absurd (omega arith)) in
    rw e (at_row best.0 best.1 near)
  where
    at_row :
        (best : Option ℕ) (diff : ℕ)
        → Nearest my_card rows 4 (best, diff)
        → Returns (danger_at rows player_count (best, diff)) (Dangerous my_card rows player_count)
    at_row none diff (same, near) = (500, refl, inl (refl, rw (← same) near))
    at_row (some i) diff (row, here, below, far, positive, near) =
        rw here (_, refl, inr (i, row, diff, below, here, far, positive, near, refl))
