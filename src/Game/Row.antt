-- ===== src/Game/Row.antt =====
-- The rows of the board, as lists of cards, and what `take_line` does to one.
use pega_s.Prelude.{
  ℕ, zero, suc, ◌+◌, ◌*◌, ◌≤◌, ◌<◌, ◌≡◌, refl, ap, ◌∙◌, none, some, List, [], ◌∷◌, arith, length,
  length-set, load-set_cases, get_elem?-set_self, get_elem?-set_ne, set, u8, load, store_in_bounds,
  load_in_bounds, load_cases, load-set_cases, load-lt-length, inl, inr,
}
use pega_s.Player.{Cell, Player}
use pega_s.Game.{Card, Game}
use pega_s.Game.Place.{take_cells, take_line}

-- The cards of a row, up to the first empty cell: the `rounds` cells from the index `at` on.
unfoldable pub row_cards : List Cell → ℕ → ℕ → List ℕ
row_cards board at zero = []
row_cards board at (suc rounds) =
    let rest = row_cards board (at + 1) rounds in
    elim (load board at) [ none ↦ [] | some cell ↦ elim cell [ none ↦ [] | some id ↦ id ∷ rest ] ]

-- Empties `n` cells from the index `at` on.
unfoldable pub clear : List Cell → ℕ → ℕ → List Cell
clear board at zero = board
clear board at (suc n) = clear (set board at none) (at + 1) n

-- The heads of the card with the given index.
unfoldable pub heads_of : List Card → ℕ → ℕ
heads_of deck id = elim (load deck id) [ none ↦ 0 | some card ↦ card.number_head ]

heads_of_card :
    (deck : List Card) (id : ℕ) {card : Card}
    → load deck id ≡ some card
    → heads_of deck id ≡ card.number_head
unfolding heads_of
heads_of_card deck id h = rw (h, heads_of)

unfoldable pub sum_heads : List Card → List ℕ → ℕ
sum_heads deck [] = 0
sum_heads deck (id ∷ ids) = heads_of deck id + sum_heads deck ids

-- Every card of a list of cells is in the deck.
abbrev pub InDeck : List Card → List Cell → Type 0
InDeck deck cells = (i id : ℕ) → load cells i ≡ some (some id) → id < length deck

pub length-clear : (board : List Cell) (at n : ℕ) → length (clear board at n) ≡ length board
unfolding clear
length-clear board at zero = refl
length-clear board at (suc n) =
    length-clear (set board at none) (at + 1) n ∙ length-set board at none

pub row_cards_none : (board : List Cell) (at : ℕ) → row_cards board at 0 ≡ []
unfolding row_cards
row_cards_none board at = refl

-- A write below a row leaves its cards.
row_cards-set :
    (board : List Cell) (i at rounds : ℕ) (c : Cell)
    → i < at
    → row_cards (set board i c) at rounds ≡ row_cards board at rounds
unfolding row_cards
row_cards-set board i at zero c h = refl
row_cards-set board i at (suc rounds) c h = ground (
  arith,
  get_elem?-set_ne board {i = i} {j = at} c,
  row_cards-set board i (at + 1) rounds c (omega arith),
)

pub set-set {ℓ} : {A : Type ℓ} (xs : List A) (i : ℕ) (v w : A) → set (set xs i v) i w ≡ set xs i w
set-set [] i v w = refl
set-set (x ∷ xs) zero v w = refl
set-set (x ∷ xs) (suc i) v w = ap (◌∷◌ x) (set-set xs i v w)

set_self {ℓ} : {A : Type ℓ} (xs : List A) (i : ℕ) {v : A} → load xs i ≡ some v → set xs i v ≡ xs
set_self [] i h = refl
set_self (x ∷ xs) zero h = ground arith
set_self (x ∷ xs) (suc i) h = ap (◌∷◌ x) (set_self xs i h)

pub InDeck-set :
    (deck : List Card) (cells : List Cell) (i : ℕ) (c : Cell)
    → ((id : ℕ) → c ≡ some id → id < length deck)
    → InDeck deck cells
    → InDeck deck (set cells i c)
InDeck-set deck cells i c new ok j id h = elim (load-set_cases cells i j h) [
  | inl (same, e) ↦ new id e
  | inr old ↦ ok j id old
]

pub InDeck-clear :
    (deck : List Card) (board : List Cell) (at n : ℕ)
    → InDeck deck board
    → InDeck deck (clear board at n)
unfolding clear
InDeck-clear deck board at zero ok = ok
InDeck-clear deck board at (suc n) ok =
    InDeck-clear deck (set board at none) (at + 1) n
      (InDeck-set deck board at none (λ j absent. absurd (cc)) ok)

-- The loop, at a cell that holds no card.
same_heads : (p : Player) → p.nb_head < 256 → record p { nb_head = u8 (p.nb_head + 0) } ≡ p
same_heads p h = let e : u8 (p.nb_head + 0) ≡ p.nb_head = omega arith in rw e

-- The player after the heads of some cards.
abbrev pub with_heads : Player → ℕ → Player
with_heads p n = record p { nb_head = u8 (p.nb_head + n) }

module _ (rounds i : ℕ) (g : Game) (ps : List Player) (base index at : ℕ) (e : base + i ≡ at) where
  take_cells_stop :
      load g.board at ≡ some none → take_cells g ps base index (suc rounds) i ≡ some (g, ps)
  unfolding take_cells
  take_cells_stop h = rw (e, h)

  take_cells_card :
      {p : Player} {card : Card} {id : ℕ}
      → load g.board at ≡ some (some id)
      → load ps index ≡ some p
      → load g.deck id ≡ some card
      → take_cells g ps base index (suc rounds) i
        ≡ take_cells
            (record g { board = set g.board at none })
            (set ps index (with_heads p card.number_head))
            base
            index
            rounds
            (i + 1)
  unfolding take_cells
  take_cells_card {p} {card} h hp hc = simp (
    e,
    h,
    hp,
    hc,
    store_in_bounds ps index (with_heads p card.number_head) (load-lt-length ps index hp),
    store_in_bounds g.board at none (load-lt-length g.board at h),
  )

pub row_cards_stop :
    (board : List Cell) (at rounds : ℕ)
    → load board at ≡ some none
    → row_cards board at (suc rounds) ≡ []
unfolding row_cards
row_cards_stop board at rounds h = rw (h, row_cards)

pub row_cards_card :
    (board : List Cell) (at rounds : ℕ) {id : ℕ}
    → load board at ≡ some (some id)
    → row_cards board at (suc rounds) ≡ id ∷ row_cards board (at + 1) rounds
unfolding row_cards
row_cards_card board at rounds h = rw (h, row_cards)

-- `take_cells` gives the heads of the row's cards to the player, modulo 256, and empties their cells.
take_cells_lem :
    (rounds i : ℕ) (g : Game) (ps : List Player) (base index at : ℕ) (p : Player)
    → base + i ≡ at
    → load ps index ≡ some p
    → p.nb_head < 256
    → at + rounds ≤ length g.board
    → InDeck g.deck g.board
    → let cards = row_cards g.board at rounds in
      take_cells g ps base index rounds i
      ≡ some (
        record g { board = clear g.board at (length cards) },
        set ps index (with_heads p (sum_heads g.deck cards)),
      )
unfolding clear sum_heads
take_cells_lem zero i g ps base index at p e here byte room ok =
    unfold take_cells row_cards in rw (same_heads p byte, set_self ps index here)
take_cells_lem (suc rounds) i g ps base index at p e here byte room ok =
    elim (load_cases g.board at (omega arith)) [
      | inl h ↦ rw (
        take_cells_stop rounds i g ps base index at e h,
        row_cards_stop g.board at rounds h,
        same_heads p byte,
        set_self ps index here,
      )
      | inr (id, h) ↦
          let (card, hc) = load_in_bounds g.deck id (ok at id h) in
          let p' = with_heads p card.number_head in
          let board' = set g.board at none in
          let ih =
            take_cells_lem rounds (i + 1) (record g { board = board' }) (set ps index p') base index
              (at + 1) p' (omega arith)
              (get_elem?-set_self ps index p' (load-lt-length ps index here)) (omega arith)
              (omega (arith, length-set g.board at none))
              (InDeck-set g.deck g.board at none (λ j absent. absurd (cc)) ok) in
          let rest = sum_heads g.deck (row_cards g.board (at + 1) rounds) in
          let total : u8 (u8 (p.nb_head + card.number_head) + rest)
              ≡ u8 (p.nb_head + (heads_of g.deck id + rest)) =
            omega (arith, heads_of_card g.deck id hc) in
          rw
            (
              take_cells_card rounds i g ps base index at e h here hc,
              ih,
              row_cards_card g.board at rounds h,
              row_cards-set g.board at (at + 1) rounds none (omega arith),
              set-set ps index p',
            )
            (rw total)
    ]

-- `take_line`, where the row is on the board, its cards are in the deck, the index is one of a
-- player and of the waiting cards, and the player's heads are a byte: the player gets the heads of
-- the row, up to the first empty cell, modulo 256; the cells of those cards are emptied and the
-- first holds the waiting card; the card is no longer waiting. Nothing else changes.
pub take_line_lem :
    (g : Game) (ps : List Player) (line index : ℕ) (p : Player) (c : Cell)
    → load ps (u8 index) ≡ some p
    → load g.card_ready_to_place (u8 index) ≡ some c
    → p.nb_head < 256
    → 0 < g.nbr_cards_lign
    → u8 line * g.nbr_cards_lign + g.nbr_cards_lign ≤ length g.board
    → InDeck g.deck g.board
    → let at = u8 line * g.nbr_cards_lign in
      let cards = row_cards g.board at g.nbr_cards_lign in
      take_line g ps line index
      ≡ some (
        record g {
          board = set (clear g.board at (length cards)) at c;
          card_ready_to_place = set g.card_ready_to_place (u8 index) none;
        },
        set ps (u8 index) (with_heads p (sum_heads g.deck cards)),
      )
unfolding take_line
take_line_lem g ps line index p c hp hc byte wide room ok =
    let at = u8 line * g.nbr_cards_lign in
    let n = length (row_cards g.board at g.nbr_cards_lign) in
    rw (
      hc,
      take_cells_lem g.nbr_cards_lign 0 g ps at (u8 index) at p (omega arith) hp byte room ok,
      hc,
      store_in_bounds (clear g.board at n) at c (omega (arith, length-clear g.board at n)),
      store_in_bounds g.card_ready_to_place (u8 index) none (load-lt-length _ _ hc),
    )
