-- ===== src/Bot/Tests.antt =====
-- A bot with two cards, and a simulated turn of two players.
use pega_s.Prelude.{
  ℕ, ◌≡◌, refl, some, List, [], ◌∷◌, arith, length, load, Returns, subst, zero, suc, ◌≤◌,
}
use pega_s.Bot.Danger.{Row, bot_choose_card}
use pega_s.Bot.Choice.{Safest, bot_choose_card-Safest}
use pega_s.Bot.Enemy.{simple_enemy_choice}
use pega_s.Bot.Guess.{IsGuess, simple_enemy_choice-IsGuess}
use pega_s.Bot.Step.{Rows, simulation_step}
use pega_s.Bot.Played.{unplayed}
use pega_s.Bot.Simulated.{Fits, simulation_step-Fits}
use pega_s.Bot.Deep.{GameState, simulate_full_game}
use pega_s.Bot.Blind.{choosing, simulate_full_game-choosing}

abbrev row : ℕ → ℕ → ℕ → Row
row last count bulls = record { last_card = last; count = count; bulls_sum = bulls }

abbrev board : List Row
board = row 10 5 7 ∷ row 20 4 9 ∷ row 40 1 2 ∷ row 90 2 3 ∷ []

bot_choose_card-Safest_example :
    Returns
      (bot_choose_card (12 ∷ 45 ∷ []) 2 board 3)
      (λ index. (danger : ℕ) × Safest (12 ∷ 45 ∷ []) board 3 2 (index, danger))
bot_choose_card-Safest_example =
    bot_choose_card-Safest (12 ∷ 45 ∷ []) 2 board 3 (omega arith) (omega arith)

simple_enemy_choice-IsGuess_example :
    Returns
      (simple_enemy_choice (10 ∷ 20 ∷ []) (1 ∷ 5 ∷ []) 2 5 (3 ∷ 15 ∷ 22 ∷ []) 1 2)
      (IsGuess (10 ∷ 20 ∷ []) (1 ∷ 5 ∷ []) 2 5 (3 ∷ 15 ∷ 22 ∷ []) 1 2)
simple_enemy_choice-IsGuess_example =
    simple_enemy_choice-IsGuess (10 ∷ 20 ∷ []) (1 ∷ 5 ∷ []) 2 5 (3 ∷ 15 ∷ 22 ∷ []) 1 2 (omega arith)
      (omega arith) (omega arith) (omega arith)

abbrev two_rows : Rows
two_rows = record {
  last_in_row = 10 ∷ 20 ∷ [];
  cards_in_row = 5 ∷ 1 ∷ [];
  row_penalty = 9 ∷ 1 ∷ [];
}

short_rows : (j n : ℕ) → load (5 ∷ 1 ∷ []) j ≡ some n → n ≤ 5
short_rows zero n e = subst (λ (k : ℕ). k ≤ 5) {x = 5} {y = n} (cc) (omega arith)
short_rows (suc zero) n e = subst (λ (k : ℕ). k ≤ 5) {x = 1} {y = n} (cc) (omega arith)
short_rows (suc (suc j)) n e = absurd (cc)

two_rows-Fits : Fits 2 5 two_rows
two_rows-Fits = record { last = refl; counts = refl; penalties = refl; short = short_rows }

simulation_step-Fits_example :
    Returns
      (simulation_step two_rows 2 5 (15 ∷ 3 ∷ []) 2)
      (λ r. Fits 2 5 r.1 × (length r.2 ≡ 2) × (unplayed r.2 ≡ 0))
simulation_step-Fits_example =
    simulation_step-Fits 2 5 two_rows (15 ∷ 3 ∷ []) two_rows-Fits (omega arith) (omega arith)
      (unfold unplayed in refl)

abbrev last_card : GameState
last_card = record {
  rows = two_rows;
  row_number = 2;
  row_length = 5;
  num_players = 2;
  our_card_choice = 15;
}

simulate_full_game-choosing_example :
    simulate_full_game (choosing last_card 99) ((15 ∷ []) ∷ (3 ∷ []) ∷ []) 1 3
    ≡ simulate_full_game last_card ((15 ∷ []) ∷ (3 ∷ []) ∷ []) 1 3
simulate_full_game-choosing_example =
    simulate_full_game-choosing 1 3 last_card ((15 ∷ []) ∷ (3 ∷ []) ∷ []) 99 (omega arith)
