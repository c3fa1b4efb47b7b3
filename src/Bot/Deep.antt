-- ===== src/Bot/Deep.antt =====
-- The bot of higher levels: Bot/bot_test_dif.c.
use pega_s.Prelude.{
  ℕ, zero, suc, ◌+◌, ◌-◌, ◌*◌, Option, none, some, List, [], ◌∷◌, ltb, not, ◌==◌, ◌&&◌,
  if◌then◌else◌, load, store, replicate, ◌>>=◌,
}
use pega_s.Bot.{shuffle}
use pega_s.Bot.Enemy.{simple_enemy_choice}
use pega_s.Bot.Step.{Rows, simulation_step}
use pega_s.Bot.Best.{PktCard, Scene, copy, survey}

-- `GameState`; its arrays are those of the rows, of four elements at most.
pub record GameState : Type 0 where
  pub rows : Rows
  pub row_number : ℕ
  pub row_length : ℕ
  pub num_players : ℕ
  pub our_card_choice : ℕ

-- What each player plays, the rounds left and the player.
unfoldable pub played_from : GameState → List (List ℕ) → ℕ → ℕ → ℕ → ℕ → Option (List ℕ)
played_from state hands cards_remaining depth zero p = some []
played_from state hands cards_remaining depth (suc rounds) p = do
  card ← if p == 0 && depth == 0 then some state.our_card_choice else do
    hand ← load hands p
    simple_enemy_choice state.rows.last_in_row state.rows.cards_in_row state.row_number
        state.row_length hand 0 cards_remaining
  rest ← played_from state hands cards_remaining depth rounds (p + 1)
  some (card ∷ rest)

-- A turn: the penalty, and the state after it.
unfoldable pub full_turn : GameState → List (List ℕ) → ℕ → ℕ → Option (ℕ × GameState)
full_turn state hands cards_remaining depth = do
  played ← played_from state hands cards_remaining depth state.num_players 0
  (penalty, rows, _) ←
      simulation_step state.rows state.row_number state.row_length played state.num_players
  some (penalty, record state { rows = rows })

-- The turns from a depth on down to 0. The first call's depth is not negative.
unfoldable pub simulate_full_game : GameState → List (List ℕ) → ℕ → ℕ → Option ℕ
simulate_full_game state hands zero depth = some 0
simulate_full_game state hands (suc remaining) zero = do
  (penalty, _) ← full_turn state hands (suc remaining) 0
  some penalty
simulate_full_game state hands (suc remaining) (suc depth) = do
  (penalty, next_state) ← full_turn state hands (suc remaining) (suc depth)
  more ← simulate_full_game next_state hands remaining depth
  some (penalty + more)

-- The hands of the others, each a part of the unknown cards.
unfoldable pub enemy_hands : List ℕ → ℕ → ℕ → ℕ → Option (List (List ℕ))
enemy_hands unknown hand_length zero enemy = some []
enemy_hands unknown hand_length (suc rounds) enemy = do
  hand ← copy unknown hand_length (enemy * hand_length)
  rest ← enemy_hands unknown hand_length rounds (enemy + 1)
  some (hand ∷ rest)

abbrev state_for : Scene → ℕ → GameState
state_for s card = record {
  rows = s.rows;
  row_number = s.row_number;
  row_length = s.row_length;
  num_players = s.players;
  our_card_choice = card;
}

-- The penalty of a card of the hand. A `GameState` has room for four rows.
unfoldable pub deep_trial : Scene → List ℕ → ℕ → ℕ → Option ℕ
deep_trial s unknown depth card = if ltb 4 s.row_number then none else do
  hand ← copy s.hand s.hand_length 0
  hands ← enemy_hands unknown s.hand_length (s.players - 1) 0
  simulate_full_game (state_for s card) (hand ∷ hands) s.hand_length depth

unfoldable pub deep_trials : Scene → List ℕ → ℕ → ℕ → ℕ → List ℕ → Option (List ℕ)
deep_trials s unknown depth zero i total = some total
deep_trials s unknown depth (suc rounds) i total = do
  card ← load s.hand i
  total' ← if card == 0 then some total else do
    penalty ← deep_trial s unknown depth card
    old ← load total i
    store total i (old + penalty)
  deep_trials s unknown depth rounds (i + 1) total'

unfoldable pub deep_simulate : Scene → ℕ → ℕ → ℕ → List ℕ → List ℕ → Option (ℕ × List ℕ)
deep_simulate s depth zero rand unknown total = some (rand, total)
deep_simulate s depth (suc rounds) rand unknown total = do
  (rand', unknown') ← shuffle rand unknown s.unknown_count
  total' ← deep_trials s unknown' depth s.hand_length 0 total
  deep_simulate s depth rounds rand' unknown' total'

-- The first of the least penalties among the cards of the hand.
unfoldable pub least_held : List ℕ → List ℕ → ℕ → ℕ → ℕ × ℕ → Option ℕ
least_held hand total zero i (best, min_penalty) = some best
least_held hand total (suc rounds) i (best, min_penalty) = do
  card ← load hand i
  penalty ← load total i
  least_held hand total rounds (i + 1)
      (if not (card == 0) && ltb penalty min_penalty then (i, penalty) else (best, min_penalty))

-- The state of the generator, and `best_card_index`.
unfoldable pub best_card_choice_deep :
    (ℕ → List ℕ) → ℕ → List ℕ → List PktCard → ℕ → ℕ → List PktCard → ℕ → ℕ → ℕ → ℕ → Option (ℕ × ℕ)
best_card_choice_deep unset rand placed my_hand hand_length players board row_number row_length
      max_value depth =
    do
      (s, unknown) ←
          survey unset placed my_hand hand_length players board row_number row_length max_value
      (rand', total) ← deep_simulate s depth 1000 rand unknown (replicate hand_length 0)
      first ← load total 0
      best ← least_held s.hand total (hand_length - 1) 1 (0, first)
      some (rand', best)
