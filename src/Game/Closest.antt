-- ===== src/Game/Closest.antt =====
-- In which row `place_card` places a card: the row whose last card is the closest below it.
use native.Mathlib.Decide.{ℕ_discrete}
use pega_s.Prelude.{
  ℕ, zero, suc, ◌+◌, ◌-◌, ◌*◌, ◌≤◌, ◌<◌, ◌≡◌, refl, Option, none, some, List, [], ◌∷◌, arith,
  length, load_cases, Returns, ltb, Bool-cases, inl, inr, ◌&&◌, Option-cases,
}
use pega_s.Player.{Cell}
use pega_s.Game.{Game}
use pega_s.Game.Row.{row_cards, row_cards_none, row_cards_stop, row_cards_card}
use pega_s.Game.Place.{row_end, Best, closer, best_row}

-- The last of some cards and its column, counting from `j`; `last` if there is none.
pub end_of : List ℕ → ℕ → Option (ℕ × ℕ) → Option (ℕ × ℕ)
end_of [] j last = last
end_of (c ∷ cs) j last = end_of cs (j + 1) (some (c, j))

row_end_lem :
    (board : List Cell) (base rounds j at : ℕ) (last : Option (ℕ × ℕ))
    → base + j ≡ at
    → at + rounds ≤ length board
    → row_end board base rounds j last ≡ some (end_of (row_cards board at rounds) j last)
unfolding row_end end_of
row_end_lem board base zero j at last e room = rw row_cards_none
row_end_lem board base (suc rounds) j at last e room = elim (load_cases board at (omega arith)) [
  | inl h ↦ rw (e, h, row_cards_stop board at rounds h)
  | inr (c, h) ↦
      rw (e, h, row_cards_card board at rounds h)
        (row_end_lem board base rounds (j + 1) (at + 1) (some (c, j)) (omega arith) (omega arith))
]

-- The cards of a row of the board, and its last card with its column.
abbrev pub row : Game → ℕ → List ℕ
row g r = row_cards g.board (r * g.nbr_cards_lign) g.nbr_cards_lign

abbrev pub last_card : Game → ℕ → Option (ℕ × ℕ)
last_card g r = end_of (row g r) 0 none

-- What the search over the first `k` rows has found: the row whose last card is below the card by
-- the least, by less than `limit`, and the column after that last card.
pub record Closest (g : Game) (card limit k : ℕ) (b : Best) : Type 0 where
  pub least :
      (r last col : ℕ)
      → r < k
      → last_card g r ≡ some (last, col)
      → last < card
      → card - last < limit
      → b.min_diff ≤ card - last
  pub none_found : b.target ≡ none → b.min_diff ≡ limit
  pub found :
      (r col : ℕ)
      → b.target ≡ some (r, col)
      → (last : ℕ) × (last_card g r ≡ some (last, col - 1))
        × (r < k)
        × (0 < col)
        × (last < card)
        × (b.min_diff ≡ card - last)
        × (card - last < limit)
  pub within : b.min_diff ≤ limit

module _ (g : Game) (card limit k : ℕ) (b : Best) (c : Closest g card limit k b) where
  keep-Closest :
      ((last col : ℕ) → last_card g k ≡ some (last, col) → last < card → b.min_diff ≤ card - last)
      → Closest g card limit (k + 1) b
  keep-Closest far = record {
    least = λ r last col lt h below small. elim (ℕ_discrete r k) [
      | yes same ↦ far last col (rw (← same) h) below
      | no ne ↦ c.least r last col (omega arith) h below small
    ];
    none_found = c.none_found;
    found = λ r col e.
        let (last, h, inside, after, below, diff, small) = c.found r col e in
        (last, h, omega arith, after, below, diff, small);
    within = c.within;
  }

  new-Closest :
      (last col : ℕ)
      → last_card g k ≡ some (last, col)
      → last < card
      → card - last < b.min_diff
      → Closest g card limit (k + 1) (record { min_diff = card - last; target = some (k, col + 1) })
  new-Closest last col h below less = record {
    least = λ r other at lt h' below' small. elim (ℕ_discrete r k) [
      | yes same ↦
          let h'' : last_card g k ≡ some (other, at) = rw (← same) h' in
          let equal : last ≡ other = ground arith in omega arith
      | no ne ↦ omega (arith, c.least r other at (omega arith) h' below' small)
    ];
    none_found = λ e. absurd (cc);
    found = λ r at e.
        let same : k ≡ r = ground arith in
        let next : at - 1 ≡ col = ground arith in
        let h' : last_card g r ≡ some (last, at - 1) = rw (← same, next) h in
        (last, h', ground arith, ground arith, below, refl, omega (arith, c.within));
    within = omega (arith, c.within);
  }

  closer-Closest : Closest g card limit (k + 1) (closer card k (last_card g k) b)
  unfolding closer
  closer-Closest = elim (Option-cases (last_card g k)) [
    | inl h ↦ rw h (keep-Closest (λ last col e. absurd (cc)))
    | inr ((last, col), h) ↦ elim (Bool-cases (ltb last card && ltb (card - last) b.min_diff)) [
      | inl closer_row ↦ rw (h, closer_row) (new-Closest last col h (ground arith) (ground arith))
      | inr farther ↦
          rw (h, farther)
            (keep-Closest
              (λ other at e below. let same : last ≡ other = ground arith in ground arith))
    ]
  ]

row_in_board : (r k w n : ℕ) → r < k → k * w ≤ n → r * w + w ≤ n
row_in_board r k w n lt room = grind arith

best_row_lem :
    (g : Game) (card limit rounds r k : ℕ) (b : Best)
    → r + rounds ≡ k
    → k * g.nbr_cards_lign ≤ length g.board
    → Closest g card limit r b
    → Returns (best_row g card rounds r b) (Closest g card limit k)
unfolding best_row
best_row_lem g card limit zero r k b e room c =
    let e' : r ≡ k = omega arith in (b, refl, rw (← e') c)
best_row_lem g card limit (suc rounds) r k b e room c =
    let w = g.nbr_cards_lign in
    rw
      (row_end_lem g.board (r * w) w 0 (r * w) none (omega arith)
        (row_in_board r k w _ (omega arith) room))
      (best_row_lem g card limit rounds (r + 1) k (closer card r (last_card g r) b) (omega arith)
        room (closer-Closest g card limit r b c))

-- The search of `place_card` over the rows of a board that has them all does not fault. The row it
-- finds ends in a card below the one to place, by the least difference among the rows that do so
-- within the limit, and the column is the one after that card; it finds none only if no row does.
pub best_row-Closest :
    (g : Game) (card limit : ℕ)
    → g.nbr_lign * g.nbr_cards_lign ≤ length g.board
    → Returns
        (best_row g card g.nbr_lign 0 (record { min_diff = limit; target = none }))
        (Closest g card limit g.nbr_lign)
best_row-Closest g card limit room =
    best_row_lem g card limit g.nbr_lign 0 g.nbr_lign (record { min_diff = limit; target = none })
      (omega arith) room
      (record {
        least = λ r last col lt. absurd (omega arith);
        none_found = λ _. refl;
        found = λ r col e. absurd (cc);
        within = omega arith;
      })
