-- ===== src/Bot/Enemy.antt =====
-- What a bot thinks that another player plays: `simple_enemy_choice` of Bot/bot_high_dif.c.
use pega_s.Prelude.{
  ℕ, zero, suc, ◌+◌, ◌-◌, Bool, Option, some, List, ℤ, pos, negsuc, minus_one, ltb, ◌==◌, ◌&&◌,
  if◌then◌else◌, load, ◌>>=◌,
}

abbrev pub uint16_max : ℕ
uint16_max = 65535

-- `min_diff` and `best_card_index`, which is -2 once a row was full.
abbrev pub nearer : ℕ → ℕ → ℕ → ℕ × ℤ → ℕ × ℤ
nearer card last i (min_diff, best) =
    if ltb last card && ltb (card - last) min_diff then (card - last, pos i) else (min_diff, best)

-- The rows, over the rounds left.
unfoldable pub against_rows : List ℕ → List ℕ → ℕ → ℕ → ℕ → ℕ → ℕ → ℕ × ℤ → Option (ℕ × ℤ)
against_rows last_in_row cards_in_row row_length card i zero row best = some best
against_rows last_in_row cards_in_row row_length card i (suc rounds) row best = do
  count ← load cards_in_row row
  best' ←
      if count == row_length
      then some (best.0, negsuc 1)
      else (load last_in_row row >>= λ last. some (nearer card last i best))
  against_rows last_in_row cards_in_row row_length card i rounds (row + 1) best'

-- The hand is the part of an array from `base` on.
unfoldable pub against_hand : List ℕ → List ℕ → ℕ → ℕ → List ℕ → ℕ → ℕ → ℕ → ℕ × ℤ → Option (ℕ × ℤ)
against_hand last_in_row cards_in_row row_number row_length array base zero i best = some best
against_hand last_in_row cards_in_row row_number row_length array base (suc rounds) i best = do
  card ← load array (base + i)
  best' ←
      if card == 0
      then some best
      else against_rows last_in_row cards_in_row row_length card i row_number 0 best
  against_hand last_in_row cards_in_row row_number row_length array base rounds (i + 1) best'

-- The loops for the greatest and the least card: `better` compares a card with the one kept.
unfoldable pub extreme_card : (ℕ → ℕ → Bool) → List ℕ → ℕ → ℕ → ℕ → ℕ → Option ℕ
extreme_card better array base zero i kept = some kept
extreme_card better array base (suc rounds) i kept = do
  card ← load array (base + i)
  kept' ←
      if card == 0
      then some kept
      else (load array (base + kept) >>= λ old. some (if better card old then i else kept))
  extreme_card better array base rounds (i + 1) kept'

unfoldable pub chosen_card : List ℕ → ℕ → ℕ → ℤ → Option ℕ
chosen_card array base hand_length (pos i) = load array (base + i)
chosen_card array base hand_length (negsuc (suc zero)) =
    extreme_card (λ card old. ltb old card) array base hand_length 0 0 >>= λ i.
    load array (base + i)
chosen_card array base hand_length (negsuc zero) =
    extreme_card ltb array base hand_length 0 0 >>= λ i. load array (base + i)
chosen_card array base hand_length (negsuc (suc (suc n))) =
    extreme_card ltb array base hand_length 0 0 >>= λ i. load array (base + i)

unfoldable pub simple_enemy_choice : List ℕ → List ℕ → ℕ → ℕ → List ℕ → ℕ → ℕ → Option ℕ
simple_enemy_choice last_in_row cards_in_row row_number row_length array base hand_length = do
  best ←
      against_hand last_in_row cards_in_row row_number row_length array base hand_length 0
        (uint16_max, minus_one)
  chosen_card array base hand_length best.1
