-- ===== src/Bot/Blind.antt =====
-- What the bot's card changes in `simulate_full_game` of Bot/bot_test_dif.c.
use pega_s.Prelude.{
  ℕ, zero, suc, ◌+◌, ◌≤◌, ◌≡◌, refl, Bool, Option, Option-cases, some, List, ◌==◌, ◌&&◌, inl, inr,
  ◌>>=◌, arith,
}
use pega_s.Bot.Step.{simulation_step}
use pega_s.Bot.Deep.{GameState, played_from, full_turn, simulate_full_game}

-- The state with another card.
abbrev pub choosing : GameState → ℕ → GameState
choosing state card = record state { our_card_choice = card }

never_both : (p depth : ℕ) → (p == 0 && suc depth == 0) ≡ Bool.false
never_both p depth = ground arith

played_from-choosing :
    (state : GameState) (hands : List (List ℕ)) (card remaining depth rounds p : ℕ)
    → played_from (choosing state card) hands remaining (suc depth) rounds p
      ≡ played_from state hands remaining (suc depth) rounds p
unfolding played_from
played_from-choosing state hands card remaining depth zero p = refl
played_from-choosing state hands card remaining depth (suc rounds) p =
    rw (never_both p depth, played_from-choosing state hands card remaining depth rounds (p + 1))
      refl

-- A turn's result for the state with another card.
abbrev chosen_after : ℕ → ℕ × GameState → Option (ℕ × GameState)
chosen_after card t = some (t.0, choosing t.1 card)

full_turn-choosing :
    (state : GameState) (hands : List (List ℕ)) (card remaining depth : ℕ)
    → full_turn (choosing state card) hands remaining (suc depth)
      ≡ (full_turn state hands remaining (suc depth) >>= chosen_after card)
unfolding full_turn
full_turn-choosing state hands card remaining depth =
    rw (played_from-choosing state hands card remaining depth state.num_players 0)
      (elim (Option-cases (played_from state hands remaining (suc depth) state.num_players 0)) [
        | inl e ↦ rw e refl
        | inr (played, e) ↦
            rw e
              (elim (Option-cases (
                simulation_step state.rows state.row_number state.row_length played
                  state.num_players)) [ inl e' ↦ rw e' refl | inr (r, e') ↦ rw e' refl ])
      ])

-- With at most as many cards remaining as the depth, what `simulate_full_game` returns is the same
-- whatever card the bot would choose.
pub simulate_full_game-choosing :
    (remaining depth : ℕ) (state : GameState) (hands : List (List ℕ)) (card : ℕ)
    → remaining ≤ depth
    → simulate_full_game (choosing state card) hands remaining depth
      ≡ simulate_full_game state hands remaining depth
unfolding simulate_full_game
simulate_full_game-choosing zero depth state hands card h = refl
simulate_full_game-choosing (suc remaining) zero state hands card h = absurd (omega arith)
simulate_full_game-choosing (suc remaining) (suc depth) state hands card h =
    rw (full_turn-choosing state hands card (suc remaining) depth)
      (elim (Option-cases (full_turn state hands (suc remaining) (suc depth))) [
        | inl e ↦ rw e refl
        | inr (t, e) ↦
            rw (e, simulate_full_game-choosing remaining depth t.1 hands card (omega arith)) refl
      ])
