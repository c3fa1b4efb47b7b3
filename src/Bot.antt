-- ===== src/Bot.antt =====
-- How a bot chooses a card: Bot/bot_play.c (level 0), Bot/bot_high_dif.c (level 1) and
-- Bot/bot_test_dif.c (higher levels). An `int` is a natural number: cards, heads and counts are not
-- negative, and a difference is taken only where the code tests that it is not. `none` is an access
-- out of bounds. What is printed is left out.
pub mod Danger
pub mod Choice
pub mod Enemy
pub mod Rivals
pub mod Guess
pub mod Step
pub mod Played
pub mod Simulated
pub mod Shuffle
pub mod Best
pub mod Deep
pub mod Blind
mod Tests
use pega_s.Game.Deal.{swap}
use pega_s.Prelude.{
  ℕ, zero, suc, ◌+◌, ◌-◌, ◌*◌, ◌%◌, ◌/◌, bit_xor, Bool, Option, none, some, List, leb,
  if◌then◌else◌, u32, load, store, ◌>>=◌,
}

-- `fast_rand`: the value is the new `rand_state`.
unfoldable pub fast_rand : ℕ → ℕ
fast_rand x =
    let a = bit_xor x (u32 (x * 8192)) in let b = bit_xor a (a / 131072) in bit_xor b (u32 (b * 32))

-- The rounds from `i` down to 1.
unfoldable pub shuffle_from : ℕ → List ℕ → ℕ → Option (ℕ × List ℕ)
shuffle_from rand array zero = some (rand, array)
shuffle_from rand array (suc i) = do
  let rand' = fast_rand rand
  let j = rand' % (suc i + 1)
  array' ← swap array (suc i) j
  shuffle_from rand' array' i

unfoldable pub shuffle : ℕ → List ℕ → ℕ → Option (ℕ × List ℕ)
shuffle rand array len = if leb len 1 then some (rand, array) else shuffle_from rand array (len - 1)
