-- ===== src/Game/Deal.antt =====
-- Shuffling and dealing: `melange_ids`, `melange_head` and `distrib_cards` of Session/Game/game.c.
-- What the logs are told is left out.
use pega_s.Prelude.{
  ℕ, zero, suc, ◌+◌, ◌-◌, ◌*◌, ◌/◌, ◌%◌, Bool, not, ◌&&◌, ◌||◌, Option, none, some, List, [], ◌∷◌,
  ◌++◌, map, ℤ, pos, minus_one, ltb, leb, ◌==◌, if◌then◌else◌, u8, load, store, take, drop, length,
  ◌>>=◌,
}
use pega_s.Player.{Cell, Player, is_player}
use pega_s.Game.{Card, State, Game}

-- The two reads come before the two writes.
unfoldable pub swap : List ℕ → ℕ → ℕ → Option (List ℕ)
swap ids i j = do temp ← load ids i; other ← load ids j; ids' ← store ids i other; store ids' j temp

-- A round at `i`, whose random number is `buffer`, none if `getrandom` fails; `rest` is what follows.
unfoldable pub melange_round :
    (List ℕ → Option (ℤ × List ℕ)) → List ℕ → ℕ → Option ℕ → Option (ℤ × List ℕ)
melange_round rest ids i none = some (minus_one, ids)
melange_round rest ids i (some buffer) = do ids' ← swap ids i (buffer % (i + 1)); rest ids'

-- `random i` is what `getrandom` gives to the round at `i`.
unfoldable pub melange_from : (ℕ → Option ℕ) → List ℕ → ℕ → Option (ℤ × List ℕ)
melange_from random ids zero = some (pos 0, ids)
melange_from random ids (suc i) =
    melange_round (λ ids'. melange_from random ids' i) ids (suc i) (random (suc i))

unfoldable pub melange_ids : (ℕ → Option ℕ) → List ℕ → ℕ → Option (ℤ × List ℕ)
melange_ids random ids n = melange_from random ids (n - 1)

-- The rounds left of the loop over `k`, and `current_card_index`.
unfoldable pub give_heads : ℕ → ℕ → List ℕ → List Card → ℕ → ℕ → Option (List Card × ℕ)
give_heads nbr_cards h ids deck zero current = some (deck, current)
give_heads nbr_cards h ids deck (suc rounds) current =
    if not (ltb current nbr_cards) then give_heads nbr_cards h ids deck rounds current else do
      id ← load ids current
      card ← load deck id
      deck' ← store deck id (record card { number_head = h })
      give_heads nbr_cards h ids deck' rounds (current + 1)

-- `nbr_cartes_attribuer`, when `remaining` cards have no heads.
unfoldable pub cards_with : Game → ℕ → ℕ → ℕ
cards_with g h remaining =
    let share = g.nbr_cards * (g.nb_head - h + 1) / (g.nb_head * (g.nb_head + 1) / 2) in
    if h == g.nb_head then remaining else if ltb remaining share then remaining else share

-- The rounds left of the loop over `h`.
unfoldable pub head_rounds : Game → List ℕ → ℕ → ℕ → List Card → ℕ → ℕ → Option (List Card)
head_rounds g ids zero h deck current remaining = some deck
head_rounds g ids (suc rounds) h deck current remaining = do
  let n = cards_with g h remaining
  (deck', current') ← give_heads g.nbr_cards h ids deck n current
  if leb (remaining - n) 0
      then some deck'
      else head_rounds g ids rounds (h + 1) deck' current' (remaining - n)

unfoldable pub melange_head : List ℕ → Game → Option (ℤ × Game)
melange_head ids g = if (g.nb_head == 0) || (g.nbr_cards == 0) then some (minus_one, g) else do
  deck ← head_rounds g ids g.nb_head 1 g.deck 0 g.nbr_cards
  some (pos 0, record g { deck = deck })

-- The cards are numbered from 1 and have no heads.
unfoldable pub fill_deck : List Card → ℕ → ℕ → Option (List Card)
fill_deck deck zero i = some deck
fill_deck deck (suc rounds) i = do
  deck' ← store deck i (record { num = i + 1; number_head = 0; client_id = 0 })
  fill_deck deck' rounds (i + 1)

-- `ids[i] = i`, for the rounds left.
unfoldable pub first_ids : ℕ → ℕ → List ℕ
first_ids zero i = []
first_ids (suc rounds) i = i ∷ first_ids rounds (i + 1)

-- The board's cell `i`: each row begins with the next card, if there is one.
unfoldable pub deal_board : Game → List ℕ → List Cell → ℕ → ℕ → ℕ → Option (List Cell × ℕ)
deal_board g ids board next zero i = some (board, next)
deal_board g ids board next (suc rounds) i =
    if (i % g.nbr_cards_lign == 0) && ltb next g.nbr_cards
    then (do
      id ← load ids next
      board' ← store board i (some id)
      deal_board g ids board' (u8 (next + 1)) rounds (i + 1))
    else (do board' ← store board i none; deal_board g ids board' next rounds (i + 1))

-- `memcpy(player_cards_id, ids + next, count * sizeof(int))`.
unfoldable pub copy_ids : List Cell → List ℕ → ℕ → ℕ → Option (List Cell)
copy_ids cells ids next count =
    if ltb (length cells) count || ltb (length ids) (next + count)
    then none
    else some (map some (take count (drop next ids)) ++ drop count cells)

-- A player's hand, and `nextCards`; a player with a null hand gets none.
unfoldable pub deal_hand : Game → List ℕ → Player → ℕ → Option (List Cell) → Option (Player × ℕ)
deal_hand g ids p next none = some (p, next)
deal_hand g ids p next (some cells) = do
  cells' ← copy_ids cells ids next g.nbr_cards_player
  some (record p { player_cards_id = some cells' }, u8 (next + g.nbr_cards_player))

unfoldable pub deal_player : Game → List ℕ → Player → ℕ → Option (Player × ℕ)
deal_player g ids p next =
    if (p.player_id == 0) || not (is_player p.role)
    then some (p, next)
    else if leb (next + g.nbr_cards_player) g.nbr_cards
    then deal_hand g ids p next p.player_cards_id
    else some (p, next)

unfoldable pub deal_hands : Game → List ℕ → List Player → ℕ → ℕ → ℕ → Option (List Player × ℕ)
deal_hands g ids ps next zero i = some (ps, next)
deal_hands g ids ps next (suc rounds) i = do
  p ← load ps i
  (p', next') ← deal_player g ids p next
  ps' ← store ps i p'
  deal_hands g ids ps' next' rounds (i + 1)

-- `distrib_cards` once the cards are numbered and `ids` is there; the code of a shuffle is not looked at.
unfoldable pub deal :
    (ℕ → Option ℕ) → (ℕ → Option ℕ) → Game → List Player → ℕ → Option (ℤ × Game × List Player)
deal random₁ random₂ g ps nb_player = do
  (_, ids₁) ← melange_ids random₁ (first_ids g.nbr_cards 0) g.nbr_cards
  (_, g') ← melange_head ids₁ g
  (_, ids) ← melange_ids random₂ ids₁ g.nbr_cards
  (board, next) ← deal_board g' ids g'.board 0 (g'.nbr_cards_lign * g'.nbr_lign) 0
  (ps', next') ← deal_hands g' ids ps next nb_player 0
  some (pos 0, record g' { board = board; next_cards = next'; game_state = State.waiting }, ps')

-- `room` says whether malloc finds room for `ids`.
unfoldable pub distrib_cards :
    Bool
    → (ℕ → Option ℕ)
    → (ℕ → Option ℕ)
    → Game
    → List Player
    → ℕ
    → Option (ℤ × Game × List Player)
distrib_cards room random₁ random₂ g ps nb_player = do
  deck ← fill_deck g.deck g.nbr_cards 0
  if room
      then deal random₁ random₂ (record g { deck = deck }) ps nb_player
      else some (minus_one, record g { deck = deck }, ps)
