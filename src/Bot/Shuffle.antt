-- ===== src/Bot/Shuffle.antt =====
-- The bot's `shuffle` of Bot/bot_high_dif.c reorders an array.
use native.Mathlib.Nat.{mod-lt}
use pega_s.Prelude.{
  ℕ, zero, suc, ◌+◌, ◌-◌, ◌%◌, ◌≤◌, ◌<◌, List, leb, arith, length, Returns, Bool-cases, refl, inl,
  inr,
}
use pega_s.Game.Shuffle.{Shuffled, Shuffled-refl, Shuffled-trans, swap-Shuffled}
use pega_s.Bot.{fast_rand, shuffle_from, shuffle}

shuffle_from-Shuffled :
    (rand : ℕ) (array : List ℕ) (i : ℕ)
    → i < length array
    → Returns (shuffle_from rand array i) (λ r. Shuffled array r.1)
unfolding shuffle_from
shuffle_from-Shuffled rand array zero inside = ((rand, array), refl, Shuffled-refl array)
shuffle_from-Shuffled rand array (suc i) inside =
    let j = fast_rand rand % (suc i + 1) in
    let below : j < suc i + 1 = mod-lt (fast_rand rand) (omega arith) in
    let (array', e, s) = swap-Shuffled array (suc i) j inside (omega arith) in
    let (r, e', s') =
      shuffle_from-Shuffled (fast_rand rand) array' i (omega (arith, s.same_length)) in
    rw (e, e') (r, refl, Shuffled-trans s s')

-- On an array of at least the length it is given, whatever the state of the generator, `shuffle` does
-- not fault, and leaves the same numbers, each as often as before.
pub shuffle-Shuffled :
    (rand : ℕ) (array : List ℕ) (len : ℕ)
    → len ≤ length array
    → Returns (shuffle rand array len) (λ r. Shuffled array r.1)
unfolding shuffle
shuffle-Shuffled rand array len room = elim (Bool-cases (leb len 1)) [
  | inl short ↦ rw short ((rand, array), refl, Shuffled-refl array)
  | inr long ↦ rw long (shuffle_from-Shuffled rand array (len - 1) (ground arith))
]
