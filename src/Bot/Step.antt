-- ===== src/Bot/Step.antt =====
-- A turn as a bot simulates it: `simulation_step` of Bot/bot_high_dif.c.
use pega_s.Prelude.{
  ℕ, zero, suc, ◌+◌, ◌-◌, Option, none, some, List, ltb, ◌==◌, if◌then◌else◌, load, store, ◌>>=◌,
}
use pega_s.Bot.Enemy.{uint16_max}

-- `last_in_row`, `number_of_cards_in_row` and `row_penalty`.
pub record Rows : Type 0 where
  pub last_in_row : List ℕ
  pub cards_in_row : List ℕ
  pub row_penalty : List ℕ

-- The card kept, or -1, and the next one.
unfoldable pub least_of : List ℕ → ℕ → ℕ → Option ℕ → Option (Option ℕ)
least_of played card p none = some (some p)
least_of played card p (some m) =
    load played m >>= λ old. some (if ltb card old then some p else some m)

-- The least card that has not been played, over the rounds left.
unfoldable pub least_played : List ℕ → ℕ → ℕ → Option ℕ → Option (Option ℕ)
least_played played zero p kept = some kept
least_played played (suc rounds) p kept = do
  card ← load played p
  kept' ← if card == 0 then some kept else least_of played card p kept
  least_played played rounds (p + 1) kept'

abbrev pub fitter : ℕ → ℕ → ℕ → Option ℕ × ℕ → Option ℕ × ℕ
fitter card last row (optimal, min_diff) =
    if ltb card last
    then (optimal, min_diff)
    else if ltb (card - last) min_diff
    then (some row, card - last)
    else (optimal, min_diff)

unfoldable pub optimal_row : List ℕ → ℕ → ℕ → ℕ → Option ℕ × ℕ → Option (Option ℕ × ℕ)
optimal_row last_in_row card zero row best = some best
optimal_row last_in_row card (suc rounds) row best = do
  last ← load last_in_row row
  optimal_row last_in_row card rounds (row + 1) (fitter card last row best)

abbrev pub cheaper : ℕ → ℕ → ℕ × ℕ → ℕ × ℕ
cheaper penalty row (taken, min_penalty) =
    if ltb penalty min_penalty then (row, penalty) else (taken, min_penalty)

unfoldable pub cheapest_row : List ℕ → ℕ → ℕ → ℕ × ℕ → Option (ℕ × ℕ)
cheapest_row row_penalty zero row best = some best
cheapest_row row_penalty (suc rounds) row best = do
  penalty ← load row_penalty row
  cheapest_row row_penalty rounds (row + 1) (cheaper penalty row best)

-- A row starts again with a card.
unfoldable pub restart : Rows → ℕ → ℕ → ℕ → Option Rows
restart rows row card penalty = do
  last_in_row ← store rows.last_in_row row card
  cards_in_row ← store rows.cards_in_row row 1
  row_penalty ← store rows.row_penalty row penalty
  some
      (record { last_in_row = last_in_row; cards_in_row = cards_in_row; row_penalty = row_penalty })

-- A card follows a row.
unfoldable pub extend : Rows → ℕ → ℕ → ℕ → Option Rows
extend rows row card count = do
  last_in_row ← store rows.last_in_row row card
  cards_in_row ← store rows.cards_in_row row (count + 1)
  penalty ← load rows.row_penalty row
  row_penalty ← store rows.row_penalty row (penalty + 3)
  some
      (record { last_in_row = last_in_row; cards_in_row = cards_in_row; row_penalty = row_penalty })

-- The penalty counts for the player 0 only.
abbrev pub charged : ℕ → ℕ → ℕ
charged player penalty = if player == 0 then penalty else 0

-- A card goes to a row, or takes one: the penalty, and the rows.
unfoldable pub put_simulated : Rows → ℕ → ℕ → ℕ → ℕ → Option ℕ → Option (ℕ × Rows)
put_simulated rows row_number row_length player card none = do
  first ← load rows.row_penalty 0
  (row, penalty) ← cheapest_row rows.row_penalty (row_number - 1) 1 (0, first)
  rows' ← restart rows row card 3
  some (charged player penalty, rows')
put_simulated rows row_number row_length player card (some row) = do
  count ← load rows.cards_in_row row
  penalty ← load rows.row_penalty row
  if count == row_length
      then (restart rows row card 2 >>= λ rows'. some (charged player penalty, rows'))
      else (extend rows row card count >>= λ rows'. some (0, rows'))

-- One card is placed. `played_cards[-1]` is read when there is none.
unfoldable pub place_least : Rows → ℕ → ℕ → List ℕ → Option ℕ → Option (ℕ × Rows × List ℕ)
place_least rows row_number row_length played none = none
place_least rows row_number row_length played (some player) = do
  card ← load played player
  best ← optimal_row rows.last_in_row card row_number 0 (none, uint16_max)
  (penalty, rows') ← put_simulated rows row_number row_length player card best.0
  played' ← store played player 0
  some (penalty, rows', played')

-- The rounds left, and the penalty so far.
unfoldable pub placed_cards : ℕ → Rows → ℕ → ℕ → List ℕ → ℕ → ℕ → Option (ℕ × Rows × List ℕ)
placed_cards players rows row_number row_length played zero penalty = some (penalty, rows, played)
placed_cards players rows row_number row_length played (suc rounds) penalty = do
  least ← least_played played players 0 none
  (more, rows', played') ← place_least rows row_number row_length played least
  placed_cards players rows' row_number row_length played' rounds (penalty + more)

-- The penalty, and what the arrays hold afterwards.
unfoldable pub simulation_step : Rows → ℕ → ℕ → List ℕ → ℕ → Option (ℕ × Rows × List ℕ)
simulation_step rows row_number row_length played players =
    placed_cards players rows row_number row_length played players 0
