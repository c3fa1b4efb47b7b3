-- ===== src/Game/Place.antt =====
-- Placing the cards that were played: Session/Game/game_alt.c. Each loop recurs on the rounds that its
-- bound leaves, so it ends as the source's does.
use pega_s.Prelude.{
  ℕ, zero, suc, ◌+◌, ◌-◌, ◌*◌, Bool, true, false, not, ◌&&◌, ◌||◌, Option, none, some, List, ℤ,
  int_of, negsuc, ltb, leb, ◌==◌, if◌then◌else◌, u8, load, store, ◌>>=◌,
}
use pega_s.Player.{Cell, Player, is_player}
use pega_s.Game.{Game, State, checking_cards}

-- The loop of `take_line` over the cells of a row, from the cell `i` on: each card's heads go to the
-- player at `index`, and the cell is emptied.
unfoldable pub take_cells : Game → List Player → ℕ → ℕ → ℕ → ℕ → Option (Game × List Player)
take_cells g ps base index zero i = some (g, ps)
take_cells g ps base index (suc rounds) i = do
  c ← load g.board (base + i)
  elim c [
    | none ↦ some (g, ps)
    | some id ↦ do
      p ← load ps index
      card ← load g.deck id
      ps' ← store ps index (record p { nb_head = u8 (p.nb_head + card.number_head) })
      board ← store g.board (base + i) none
      take_cells (record g { board = board }) ps' base index rounds (i + 1)
  ]

-- The row and the player are `uint8_t`; the caller's values are cast.
unfoldable pub take_line : Game → List Player → ℕ → ℕ → Option (Game × List Player)
take_line g ps line index = do
  _ ← load g.card_ready_to_place (u8 index)
  (g', ps') ← take_cells g ps (u8 line * g.nbr_cards_lign) (u8 index) g.nbr_cards_lign 0
  c ← load g'.card_ready_to_place (u8 index)
  board ← store g'.board (u8 line * g'.nbr_cards_lign) c
  ready ← store g'.card_ready_to_place (u8 index) none
  some (record g' { board = board; card_ready_to_place = ready }, ps')

-- `card_ready_to_place[i] < card_ready_to_place[min_card_index]`, the first being `c`.
unfoldable pub smaller : List Cell → ℕ → ℕ → Option ℕ → Option (Option ℕ)
smaller ready c i none = some (some i)
smaller ready c i (some m) = do
  d ← load ready m
  elim d [ none ↦ some (some m) | some n ↦ if ltb c n then some (some i) else some (some m) ]

-- `min_card_index`, `none` for -1.
unfoldable pub min_card : List Cell → ℕ → ℕ → Option ℕ → Option (Option ℕ)
min_card ready zero i best = some best
min_card ready (suc rounds) i best = do
  cell ← load ready i
  best' ← elim cell [ none ↦ some best | some c ↦ smaller ready c i best ]
  min_card ready rounds (i + 1) best'

-- `last_card_in_row` and `last_col`, which are -1 together.
unfoldable pub row_end : List Cell → ℕ → ℕ → ℕ → Option (ℕ × ℕ) → Option (Option (ℕ × ℕ))
row_end board base zero j last = some last
row_end board base (suc rounds) j last = do
  value ← load board (base + j)
  elim value [ none ↦ some last | some v ↦ row_end board base rounds (j + 1) (some (v, j)) ]

-- `min_diff`, and `best_row` with `targe_coll_index`, which are -1 together.
pub record Best : Type 0 where
  pub min_diff : ℕ
  pub target : Option (ℕ × ℕ)

unfoldable pub closer : ℕ → ℕ → Option (ℕ × ℕ) → Best → Best
closer card row none b = b
closer card row (some (last, col)) b =
    if ltb last card && ltb (card - last) b.min_diff
    then record { min_diff = card - last; target = some (row, col + 1) }
    else b

unfoldable pub best_row : Game → ℕ → ℕ → ℕ → Best → Option Best
best_row g card zero row b = some b
best_row g card (suc rounds) row b = do
  last ← row_end g.board (row * g.nbr_cards_lign) g.nbr_cards_lign 0 none
  best_row g card rounds (row + 1) (closer card row last b)

-- How a round of `place_card` ends: no card is left, the player at an index must choose a row, or
-- the smallest card has been placed.
pub data Round : Type 0 where
  none_left placed : Round
  must_choose : ℕ → Round

-- `board[best_row * nbrCardsLign + targe_coll_index] = current_card_value`, or the row is taken.
unfoldable pub put_card : Game → List Player → ℕ → ℕ → ℕ → ℕ → Option (Game × List Player)
put_card g ps index card row col = if leb g.nbr_cards_lign col then take_line g ps row index else do
  board ← store g.board (row * g.nbr_cards_lign + col) (some card)
  some (record g { board = board }, ps)

-- The rest of the round, once the row is known.
unfoldable pub place_in :
    Game → List Player → ℕ → ℕ → Option (ℕ × ℕ) → Option (Round × Game × List Player)
place_in g ps index card none = some (must_choose index, g, ps)
place_in g ps index card (some (row, col)) = do
  (g', ps') ← put_card g ps index card row col
  ready ← store g'.card_ready_to_place index none
  some (placed, record g' { card_ready_to_place = ready }, ps')

-- The rest of the round, once the smallest card is known. `min_card` finds an index whose cell holds a
-- card, so the first clause stands for no run of the code.
unfoldable pub place_at : Game → List Player → ℕ → Cell → Option (Round × Game × List Player)
place_at g ps index none = none
place_at g ps index (some card) = do
  b ← best_row g card g.nbr_lign 0 (record { min_diff = g.nbr_cards + 100; target = none })
  place_in g ps index card b.target

unfoldable pub place_chosen : Game → List Player → Option ℕ → Option (Round × Game × List Player)
place_chosen g ps none = some (none_left, g, ps)
place_chosen g ps (some index) = do
  cell ← load g.card_ready_to_place index
  place_at g ps index cell

-- One turn of the outer loop.
unfoldable pub place_round : Game → List Player → ℕ → Option (Round × Game × List Player)
place_round g ps capacity = do
  best ← min_card g.card_ready_to_place capacity 0 none
  place_chosen g ps best

-- The code that `place_card` returns from inside the loop, if it does: a player's id.
abbrev pub Halt : Type 0
Halt = Option ℤ × Game × List Player

-- `player[min_card_index].player_id` as an `int`, in the state that waits for the player.
unfoldable pub ask_player : Game → List Player → ℕ → Option Halt
ask_player g ps index = do
  p ← load ps index
  some (some (int_of p.player_id), record g { game_state = State.waiting_extra }, ps)

-- What follows a round; `next` is the rest of the loop.
unfoldable pub after_round :
    (Game → List Player → Option Halt) → Round × Game × List Player → Option Halt
after_round next (none_left, g, ps) = some (none, g, ps)
after_round next (placed, g, ps) = next g ps
after_round next (must_choose index, g, ps) = ask_player g ps index

unfoldable pub place_rounds : ℕ → Game → List Player → ℕ → Option Halt
place_rounds zero g ps capacity = some (none, g, ps)
place_rounds (suc steps) g ps capacity = do
  round ← place_round g ps capacity
  after_round (λ g' ps'. place_rounds steps g' ps' capacity) round

-- Whether the scan over the players finds one with no card left.
unfoldable pub hand_empty : Game → List Player → ℕ → ℕ → Option Bool
hand_empty g ps zero i = some false
hand_empty g ps (suc rounds) i = do
  p ← load ps i
  let rest = hand_empty g ps rounds (i + 1)
  if p.player_id == 0 || not (is_player p.role)
      then rest
      else do finished ← checking_cards g p; elim finished [ true ↦ some true | false ↦ rest ]

abbrev pub turn_over : ℤ
turn_over = negsuc 1

abbrev pub phase_over : ℤ
phase_over = negsuc 2

-- The end of `place_card`, when the loop returns nothing.
unfoldable pub end_turn : Game → List Player → Bool → ℤ × Game × List Player
end_turn g ps true = (phase_over, record g { game_state = State.inactive }, ps)
end_turn g ps false = (turn_over, record g { game_state = State.waiting }, ps)

unfoldable pub after_rounds : ℕ → Halt → Option (ℤ × Game × List Player)
after_rounds capacity (some id, g, ps) = some (id, g, ps)
after_rounds capacity (none, g, ps) = do
  let g' = record g { card_ready_to_place_count = 0 }
  over ← hand_empty g' ps capacity 0
  some (end_turn g' ps over)

-- A player's id: that player must take a row. -2: the turn is over. -3: the phase is over.
unfoldable pub place_card : Game → List Player → ℕ → Option (ℤ × Game × List Player)
place_card g ps capacity = do halt ← place_rounds capacity g ps capacity; after_rounds capacity halt
