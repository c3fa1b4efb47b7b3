-- ===== src/Game/Tests.antt =====
-- Runs of the game at concrete boards.
use mathlib.Core.Option
use pega_s.Prelude.{
  ◌+◌, ◌*◌, ◌==◌, if◌then◌else◌, ℕ, zero, suc, ◌≤◌, Option, none, some, List, [], ◌∷◌, ◌≡◌, refl,
  subst, ℤ, map, Bool, true, ◌↔◌, ltb, ◌&&◌, length, load, arith, Returns,
}
use pega_s.Game.Deal.{melange_ids, distrib_cards}
use pega_s.Game.Visible.{get_real_index_from_visible, Visible, get_real_index_from_visible-Visible}
use pega_s.Game.Shuffle.{Shuffled, melange_ids-Shuffled}
use pega_s.Game.Distrib.{CanDeal, Distributed, distrib_cards-Distributed}
use pega_s.Game.Row.{InDeck, row_cards, clear, heads_of, sum_heads, with_heads, take_line_lem}
use pega_s.Game.Closest.{Closest, best_row-Closest}
use pega_s.Game.Smallest.{Smallest, min_card-Smallest}
use pega_s.Game.Hands.{Finished, checking_cards_lem}
use pega_s.Game.Table.{IsTable, IsSeat}
use pega_s.Game.Turn.{Stepped, place_round-Stepped, take_line-IsTable}
use pega_s.Game.Outcome.{Ended, place_card-Ended}
use pega_s.Player.{Cell, Player, Role}
use pega_s.Game.{Card, Game, State, checking_cards}
use pega_s.Game.Place.{
  take_cells, take_line, smaller, min_card, row_end, closer, best_row, put_card, place_in, place_at,
  place_chosen, place_round, ask_player, after_round, end_turn, after_rounds, place_rounds,
  hand_empty, place_card, turn_over,
}

abbrev card : ℕ → ℕ → Card
card n h = record { num = n; number_head = h; client_id = 0 }

abbrev some_deck : List Card
some_deck =
    card 1 1 ∷ card 2 2 ∷ card 3 3 ∷ card 4 1 ∷ card 5 5 ∷ card 6 1 ∷ card 7 1 ∷ card 8 1 ∷ []

abbrev pub seat : ℕ → Option (List Cell) → Player
seat id cards = record {
  player_id = id;
  player_cards_id = cards;
  nb_head = 0;
  role = Role.player;
  is_connected = 1;
}

-- Two rows of two cells; the first is full. Two players have each chosen a card and keep another.
abbrev pub table : Game
table = record {
  nbr_lign = 2;
  nbr_cards_lign = 2;
  nbr_cards_player = 2;
  nbr_cards = 8;
  nb_head = 5;
  next_cards = 6;
  extra_wait_from = 0;
  game_state = State.playing;
  deck = some_deck;
  board = some 1 ∷ some 2 ∷ some 4 ∷ none ∷ [];
  card_ready_to_place = some 5 ∷ some 3 ∷ [];
  card_ready_to_place_count = 2;
}

abbrev pub seats : List Player
seats = seat 11 (some (some 6 ∷ none ∷ [])) ∷ seat 12 (some (none ∷ some 7 ∷ [])) ∷ []

abbrev seen : ℤ × Game × List Player → ℤ × List Cell × List ℕ
seen (code, g, ps) = (code, g.board, map (λ p. p.nb_head) ps)

place_card_run :
    Option.map seen (place_card table seats 2)
    ≡ some (turn_over, some 3 ∷ none ∷ some 4 ∷ some 5 ∷ [], 0 ∷ 5 ∷ [])
unfolding take_cells take_line smaller min_card row_end closer best_row put_card place_in place_at
    place_chosen place_round ask_player after_round end_turn after_rounds place_rounds hand_empty
    place_card checking_cards
place_card_run = refl

-- Cards below a bound.
abbrev pub all_below : ℕ → List Cell → Bool
all_below n [] = true
all_below n (none ∷ cells) = all_below n cells
all_below n (some c ∷ cells) = ltb c n && all_below n cells

pub all_below-InDeck :
    (deck : List Card) (cells : List Cell)
    → all_below (length deck) cells ≡ true
    → InDeck deck cells
all_below-InDeck deck [] e i id h = absurd (cc)
all_below-InDeck deck (none ∷ cells) e zero id h = absurd (cc)
all_below-InDeck deck (none ∷ cells) e (suc i) id h = all_below-InDeck deck cells e i id h
all_below-InDeck deck (some c ∷ cells) e zero id h = let same : c ≡ id = cc in ground arith
all_below-InDeck deck (some c ∷ cells) e (suc i) id h =
    all_below-InDeck deck cells (ground arith) i id h

-- What holds of two players holds of each.
pub two_seats :
    (P : Player → Type 0) (p q r : Player) (i : ℕ) → P p → P q → load (p ∷ q ∷ []) i ≡ some r → P r
two_seats P p q r zero hp hq e = subst P {x = p} (cc) hp
two_seats P p q r (suc zero) hp hq e = subst P {x = q} (cc) hq
two_seats P p q r (suc (suc i)) hp hq e = absurd (cc)

two_cards-IsSeat : (id : ℕ) (c d : Cell) → IsSeat 2 (seat id (some (c ∷ d ∷ [])))
two_cards-IsSeat id c d = (
  omega arith,
  λ cards e not_zero playing. subst (λ cs. 2 ≤ length cs) {x = c ∷ d ∷ []} (cc) (omega arith),
)

pub table-IsTable : IsTable 2 table seats
table-IsTable = record {
  seats = refl;
  ready = refl;
  small = omega arith;
  lines = omega arith;
  wide = omega arith;
  cells = refl;
  dealt = refl;
  board_ok = all_below-InDeck some_deck table.board refl;
  ready_ok = all_below-InDeck some_deck table.card_ready_to_place refl;
  seats_ok = λ i p h.
      two_seats (IsSeat 2) _ _ p i (two_cards-IsSeat 11 (some 6) none)
        (two_cards-IsSeat 12 none (some 7)) h;
}

place_card-Ended_example : Returns (place_card table seats 2) (λ r. IsTable 2 r.1 r.2 × Ended 2 r)
place_card-Ended_example = place_card-Ended table-IsTable

place_round-Stepped_example : Returns (place_round table seats 2) (Stepped 2 table seats)
place_round-Stepped_example = place_round-Stepped table-IsTable

take_line-IsTable_example :
    Returns
      (take_line table seats 0 1)
      (λ r. IsTable 2 r.0 r.1 × (r.0.card_ready_to_place ≡ some 5 ∷ none ∷ []))
take_line-IsTable_example = take_line-IsTable table-IsTable 0 1 refl (omega arith)

-- The first row is 1 and 2, with five heads; the player gives 5 for it.
abbrev taken : Game
taken = record table {
  board = some 5 ∷ none ∷ some 4 ∷ none ∷ [];
  card_ready_to_place = none ∷ some 3 ∷ [];
}

take_line_lem_example :
    take_line table seats 0 0
    ≡ some (
      taken,
      with_heads (seat 11 (some (some 6 ∷ none ∷ []))) 5 ∷ seat 12 (some (none ∷ some 7 ∷ [])) ∷ [],
    )
unfolding row_cards clear sum_heads heads_of
take_line_lem_example =
    take_line_lem table seats 0 0 (seat 11 (some (some 6 ∷ none ∷ []))) (some 5) refl refl
      (omega arith) (omega arith) (omega arith) table-IsTable.board_ok

best_row-Closest_example :
    Returns
      (best_row table 5 2 0 (record { min_diff = 108; target = none }))
      (Closest table 5 108 2)
best_row-Closest_example = best_row-Closest table 5 108 (omega arith)

min_card-Smallest_example :
    Returns (min_card table.card_ready_to_place 2 0 none) (Smallest table.card_ready_to_place 2)
min_card-Smallest_example = min_card-Smallest table.card_ready_to_place 2 (omega arith)

checking_cards_lem_example :
    (b : Bool) × (checking_cards table (seat 11 (some (none ∷ none ∷ []))) ≡ some b)
    × ((b ≡ true) ↔ Finished 2 (seat 11 (some (none ∷ none ∷ []))))
checking_cards_lem_example =
    checking_cards_lem table (seat 11 (some (none ∷ none ∷ [])))
      (λ cards e. subst (λ cs. 2 ≤ length cs) {x = none ∷ none ∷ []} (cc) (omega arith))

-- The numbers that `getrandom` gives, with a failure.
abbrev random : ℕ → Option ℕ
random i = if i == 3 then none else some (7 * i + 5)

melange_ids-Shuffled_example :
    Returns (melange_ids random (4 ∷ 9 ∷ 1 ∷ []) 3) (λ r. Shuffled (4 ∷ 9 ∷ 1 ∷ []) r.1)
melange_ids-Shuffled_example = melange_ids-Shuffled random (4 ∷ 9 ∷ 1 ∷ []) 3 (omega arith)

table-CanDeal : CanDeal table seats
table-CanDeal = record {
  dealt = refl;
  byte = omega arith;
  wide = omega arith;
  cells = refl;
  hands = (
    λ cards e. subst (λ cs. 2 ≤ length cs) {x = some 6 ∷ none ∷ []} (cc) (omega arith),
    (λ cards e. subst (λ cs. 2 ≤ length cs) {x = none ∷ some 7 ∷ []} (cc) (omega arith), tt),
  );
  enough = omega arith;
}

distrib_cards-Distributed_example :
    Returns (distrib_cards true random random table seats 2) (Distributed table seats)
distrib_cards-Distributed_example =
    distrib_cards-Distributed random random table seats table-CanDeal

get_real_index_from_visible-Visible_example :
    Returns
      (get_real_index_from_visible (none ∷ some 4 ∷ none ∷ some 9 ∷ []) 4 1)
      (Visible (none ∷ some 4 ∷ none ∷ some 9 ∷ []) 4 1)
get_real_index_from_visible-Visible_example =
    get_real_index_from_visible-Visible (none ∷ some 4 ∷ none ∷ some 9 ∷ []) 4 1 (omega arith)
