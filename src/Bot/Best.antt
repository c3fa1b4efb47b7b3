-- ===== src/Bot/Best.antt =====
-- The bot of level 1: `best_card_choice` of Bot/bot_high_dif.c. What an array on the stack holds before
-- the code fills it is `unset n`, some list of `n` numbers.
use pega_s.Prelude.{
  ℕ, zero, suc, ◌+◌, ◌-◌, ◌*◌, true, false, Option, none, some, List, [], ◌∷◌, ltb, ◌==◌,
  if◌then◌else◌, load, store, replicate, ◌>>=◌,
}
use pega_s.Bot.{shuffle}
use pega_s.Bot.Enemy.{simple_enemy_choice}
use pega_s.Bot.Step.{Rows, simulation_step}

-- `pkt_card_t`, without the client.
pub record PktCard : Type 0 where
  pub num : ℕ
  pub number_head : ℕ

-- The rows, and which cards have been seen.
pub record Seen : Type 0 where
  pub rows : Rows
  pub all_cards : List ℕ

-- The element before an index: none before the first.
unfoldable pub load_before : List PktCard → ℕ → Option PktCard
load_before board zero = none
load_before board (suc i) = load board i

-- `all_cards[number - 1] = 1`.
unfoldable pub see : List ℕ → ℕ → Option (List ℕ)
see all_cards zero = none
see all_cards (suc n) = store all_cards n 1

-- The first empty cell ends a row: the card before it is the last.
unfoldable pub end_row : List PktCard → ℕ → ℕ → Seen → Option Seen
end_row board row at s = do
  before ← load_before board at
  last_in_row ← store s.rows.last_in_row row before.num
  some (record s { rows = record (s.rows) { last_in_row = last_in_row } })

unfoldable pub see_card : PktCard → ℕ → Seen → Option Seen
see_card card row s = do
  count ← load s.rows.cards_in_row row
  cards_in_row ← store s.rows.cards_in_row row (count + 1)
  all_cards ← see s.all_cards card.num
  penalty ← load s.rows.row_penalty row
  row_penalty ← store s.rows.row_penalty row (penalty + card.number_head)
  some (record {
    rows = record (s.rows) { cards_in_row = cards_in_row; row_penalty = row_penalty };
    all_cards = all_cards;
  })

-- A row, over the rounds left.
unfoldable pub see_row : List PktCard → ℕ → ℕ → ℕ → Seen → Option Seen
see_row board row zero at s = some s
see_row board row (suc rounds) at s = do
  card ← load board at
  elim (card.num == 0) [
    | true ↦ end_row board row at s
    | false ↦ (see_card card row s >>= λ s'. see_row board row rounds (at + 1) s')
  ]

unfoldable pub see_board : List PktCard → ℕ → ℕ → ℕ → Seen → Option Seen
see_board board row_length zero row s = some s
see_board board row_length (suc rounds) row s = do
  s' ← see_row board row row_length (row * row_length) s
  see_board board row_length rounds (row + 1) s'

-- The numbers of the hand's cards, and the cards seen.
unfoldable pub see_hand : List PktCard → ℕ → ℕ → List ℕ → List ℕ → Option (List ℕ × List ℕ)
see_hand my_hand zero c hand all_cards = some (hand, all_cards)
see_hand my_hand (suc rounds) c hand all_cards = do
  card ← load my_hand c
  (hand', all_cards') ← if card.num == 0 then some (hand, all_cards) else do
    hand' ← store hand c card.num
    all_cards' ← see all_cards card.num
    some (hand', all_cards')
  see_hand my_hand rounds (c + 1) hand' all_cards'

unfoldable pub count_unknown : List ℕ → ℕ → ℕ → ℕ → Option ℕ
count_unknown all_cards zero c count = some count
count_unknown all_cards (suc rounds) c count = do
  seen ← load all_cards c
  count_unknown all_cards rounds (c + 1) (if seen == 0 then count + 1 else count)

unfoldable pub unknown_from : List ℕ → ℕ → ℕ → ℕ → List ℕ → Option (List ℕ)
unknown_from all_cards zero c index unknown = some unknown
unknown_from all_cards (suc rounds) c index unknown = do
  seen ← load all_cards c
  (unknown', index') ←
      if seen == 1
      then some (unknown, index)
      else (store unknown index (c + 1) >>= λ unknown'. some (unknown', index + 1))
  unknown_from all_cards rounds (c + 1) index' unknown'

-- What a simulation reads: the rows, the hand, and how many players and unknown cards there are.
pub record Scene : Type 0 where
  pub rows : Rows
  pub row_number : ℕ
  pub row_length : ℕ
  pub hand : List ℕ
  pub hand_length : ℕ
  pub players : ℕ
  pub unknown_count : ℕ

-- What the others play; each has its part of the unknown cards. `enemy` is the player less one.
unfoldable pub enemies_from : Scene → List ℕ → ℕ → ℕ → List ℕ → Option (List ℕ)
enemies_from s unknown zero enemy choices = some choices
enemies_from s unknown (suc rounds) enemy choices = do
  card ←
      simple_enemy_choice s.rows.last_in_row s.rows.cards_in_row s.row_number s.row_length unknown
        (enemy * s.hand_length) s.hand_length
  choices' ← store choices (enemy + 1) card
  enemies_from s unknown rounds (enemy + 1) choices'

-- Each card of the hand is tried on copies of the arrays: `card_choices` and `total_penalty`.
unfoldable pub trials : Scene → ℕ → ℕ → List ℕ → List ℕ → Option (List ℕ × List ℕ)
trials s zero i choices total = some (choices, total)
trials s (suc rounds) i choices total = do
  card ← load s.hand i
  choices' ← store choices 0 card
  (penalty, _, _) ← simulation_step s.rows s.row_number s.row_length choices' s.players
  old ← load total i
  total' ← store total i (old + penalty)
  trials s rounds (i + 1) choices' total'

-- The state of the generator, and `total_penalty`.
unfoldable pub simulate : Scene → ℕ → ℕ → List ℕ → List ℕ → List ℕ → Option (ℕ × List ℕ)
simulate s zero rand unknown choices total = some (rand, total)
simulate s (suc rounds) rand unknown choices total = do
  (rand', unknown') ← shuffle rand unknown s.unknown_count
  choices' ← enemies_from s unknown' (s.players - 1) 0 choices
  (choices'', total') ← trials s s.hand_length 0 choices' total
  simulate s rounds rand' unknown' choices'' total'

-- The first of the least penalties, over the rounds left.
unfoldable pub least_penalty : List ℕ → ℕ → ℕ → ℕ × ℕ → Option ℕ
least_penalty total zero i (best, min_penalty) = some best
least_penalty total (suc rounds) i (best, min_penalty) = do
  penalty ← load total i
  least_penalty total rounds (i + 1)
      (if ltb penalty min_penalty then (i, penalty) else (best, min_penalty))

-- `memcpy` of the first elements.
unfoldable pub copy : List ℕ → ℕ → ℕ → Option (List ℕ)
copy source zero i = some []
copy source (suc rounds) i = do
  x ← load source i
  rest ← copy source rounds (i + 1)
  some (x ∷ rest)

-- What the code knows of the game: the scene, and the unknown cards.
unfoldable pub survey :
    (ℕ → List ℕ)
    → List ℕ
    → List PktCard
    → ℕ
    → ℕ
    → List PktCard
    → ℕ
    → ℕ
    → ℕ
    → Option (Scene × List ℕ)
survey unset placed my_hand hand_length players board row_number row_length max_value = do
  all_cards ← copy placed max_value 0
  seen ← see_board board row_length row_number 0 (record {
    rows = record {
      last_in_row = unset row_number;
      cards_in_row = replicate row_number 0;
      row_penalty = replicate row_number 0;
    };
    all_cards = all_cards;
  })
  (hand, all_cards') ← see_hand my_hand hand_length 0 (unset hand_length) seen.all_cards
  unknown_count ← count_unknown all_cards' max_value 0 0
  unknown ← unknown_from all_cards' max_value 0 0 (unset unknown_count)
  some (
    record {
      rows = seen.rows;
      row_number = row_number;
      row_length = row_length;
      hand = hand;
      hand_length = hand_length;
      players = players;
      unknown_count = unknown_count;
    },
    unknown,
  )

-- The state of the generator, and `best_card_index`.
unfoldable pub best_card_choice :
    (ℕ → List ℕ) → ℕ → List ℕ → List PktCard → ℕ → ℕ → List PktCard → ℕ → ℕ → ℕ → Option (ℕ × ℕ)
best_card_choice unset rand placed my_hand hand_length players board row_number row_length
      max_value =
    do
      (s, unknown) ←
          survey unset placed my_hand hand_length players board row_number row_length max_value
      (rand', total) ← simulate s 1000 rand unknown (unset players) (replicate hand_length 0)
      first ← load total 0
      best ← least_penalty total hand_length 0 (0, first)
      some (rand', best)
