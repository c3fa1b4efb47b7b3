-- ===== src/Bot/Choice.antt =====
-- The bot of level 0 plays its safest card: `bot_choose_card` of Bot/bot_play.c.
use native.Mathlib.Decide.{ℕ_discrete}
use pega_s.Prelude.{
  ℕ, zero, suc, ◌+◌, ◌≤◌, ◌<◌, ◌≡◌, refl, subst, Option, none, some, List, ltb, arith, length, load,
  load_in_bounds, Returns, Bool-cases, inl, inr,
}
use pega_s.Bot.Danger.{
  Row, int16_max, calculate_danger, calculate_danger-Dangerous, safer, safest, bot_choose_card,
}

-- Each of the first cards is at least as dangerous as `d`.
abbrev pub AllAbove : List ℕ → List Row → ℕ → ℕ → ℕ → Type 0
AllAbove cards rows player_count n d =
    (j card danger : ℕ)
    → j < n
    → load cards j ≡ some card
    → calculate_danger card rows player_count ≡ some danger
    → d ≤ danger

-- The safest of the first cards.
abbrev pub Safest : List ℕ → List Row → ℕ → ℕ → Option ℕ × ℕ → Type 0
Safest cards rows player_count n (none, d) = (d ≡ int16_max) × AllAbove cards rows player_count n d
Safest cards rows player_count n (some i, d) =
    (card : ℕ) × (i < n)
    × (load cards i ≡ some card)
    × (calculate_danger card rows player_count ≡ some d)
    × (d < int16_max)
    × AllAbove cards rows player_count n d
    × AllAbove cards rows player_count i (d + 1)

AllAbove-step :
    (cards : List ℕ) (rows : List Row) (player_count i card danger d d' : ℕ)
    → load cards i ≡ some card
    → calculate_danger card rows player_count ≡ some danger
    → AllAbove cards rows player_count i d
    → d' ≤ d
    → d' ≤ danger
    → AllAbove cards rows player_count (i + 1) d'
AllAbove-step cards rows player_count i card danger d d' here is_danger above less this =
    λ j other danger_j below at e. elim (ℕ_discrete j i) [
      | yes same ↦
          let at' : load cards i ≡ some other = rw (← same) at in
          let equal : card ≡ other = cc in
          let e' : calculate_danger card rows player_count ≡ some danger_j = rw equal e in
          let dangers : danger ≡ danger_j = cc in omega (arith, dangers)
      | no ne ↦ omega (arith, above j other danger_j (omega arith) at e)
    ]

module _ (cards : List ℕ) (rows : List Row) (player_count : ℕ) where
  above_of :
      (i : ℕ) (best : Option ℕ) (d : ℕ)
      → Safest cards rows player_count i (best, d)
      → (d ≤ int16_max) × AllAbove cards rows player_count i d
  above_of i none d h = (omega (arith, h.0), h.1)
  above_of i (some k) d h = (omega (arith, h.4), h.5)

  safer-Safest :
      (i card danger : ℕ) (best : Option ℕ) (d : ℕ)
      → load cards i ≡ some card
      → calculate_danger card rows player_count ≡ some danger
      → Safest cards rows player_count i (best, d)
      → Safest cards rows player_count (i + 1) (safer i danger (best, d))
  safer-Safest i card danger best d here is_danger h = elim (Bool-cases (ltb danger d)) [
    | inl less ↦
        let (bound, above) = above_of i best d h in
        rw less (
          card,
          omega arith,
          here,
          is_danger,
          ground arith,
          AllAbove-step cards rows player_count i card danger d danger here is_danger above
              (ground arith) (omega arith),
          λ j other danger_j below at e.
              let low : d ≤ danger_j = above j other danger_j below at e in ground arith,
        )
    | inr more ↦ rw more (
        kept best h (
          AllAbove-step cards rows player_count i card danger d d here is_danger
            (above_of i best d h).1 (omega arith) (ground arith)))
  ]
    where
      kept :
          (best : Option ℕ)
          → Safest cards rows player_count i (best, d)
          → AllAbove cards rows player_count (i + 1) d
          → Safest cards rows player_count (i + 1) (best, d)
      kept none h above = (h.0, above)
      kept (some k) h above = (h.0, omega (arith, h.1), h.2, h.3, h.4, above, h.6)

  safest-Safest :
      (rounds i : ℕ) (best : Option ℕ × ℕ)
      → 4 ≤ length rows
      → i + rounds ≤ length cards
      → Safest cards rows player_count i best
      → Returns
          (safest cards rows player_count rounds i best)
          (Safest cards rows player_count (i + rounds))
  unfolding safest
  safest-Safest zero i best wide room h =
      let same : i ≡ i + 0 = omega arith in
      (best, refl, subst (λ (n : ℕ). Safest cards rows player_count n best) same h)
  safest-Safest (suc rounds) i best wide room h =
      let (card, here) = load_in_bounds cards i (omega arith) in
      let (danger, is_danger, _) = calculate_danger-Dangerous card rows player_count wide in
      let (found, e, ok) =
        safest-Safest rounds (i + 1) (safer i danger best) wide (omega arith)
          (safer-Safest i card danger best.0 best.1 here is_danger h) in
      let same : (i + 1) + rounds ≡ i + suc rounds = omega arith in
      (
        found,
        rw (here, is_danger) e,
        subst (λ (n : ℕ). Safest cards rows player_count n found) same ok,
      )

-- Over four rows or more and at least as many cards as counted, `bot_choose_card` does not fault. It
-- returns the first of the counted cards whose danger is the least, or -1 if every danger is 32767
-- or more.
pub bot_choose_card-Safest :
    (cards : List ℕ) (hand_count : ℕ) (rows : List Row) (player_count : ℕ)
    → hand_count ≤ length cards
    → 4 ≤ length rows
    → Returns
        (bot_choose_card cards hand_count rows player_count)
        (λ index. (danger : ℕ) × Safest cards rows player_count hand_count (index, danger))
unfolding bot_choose_card
bot_choose_card-Safest cards hand_count rows player_count room wide =
    let (best, e, ok) =
      safest-Safest cards rows player_count hand_count 0 (none, int16_max) wide (omega arith)
        (refl, λ j card danger below. absurd (omega arith)) in
    let same : 0 + hand_count ≡ hand_count = omega arith in
    (best.0, rw e refl, (best.1, subst (λ (n : ℕ). Safest cards rows player_count n best) same ok))
