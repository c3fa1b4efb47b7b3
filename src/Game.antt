-- ===== src/Game.antt =====
-- The game: Session/Game/game.h, card.h, and the set-up of Session/Game/game.c. A session plays
-- "6 nimmt": cards go to the rows of a board, and a player who takes a row gets its heads.
pub mod Place
pub mod Deal
pub mod Shuffle
pub mod Dealt
pub mod Board
pub mod Ids
pub mod Heads
pub mod Distrib
pub mod Visible
pub mod Smallest
pub mod Closest
pub mod Table
pub mod Turn
pub mod Hands
pub mod Outcome
pub mod Frame
pub mod Row
pub mod Tests
use pega_s.Prelude.{
  ℕ, zero, suc, ◌+◌, ◌-◌, ◌*◌, Bool, Option, none, some, List, [], ◌∷◌, ℤ, pos, minus_one, leb,
  if◌then◌else◌, replicate, u8, load, ◌>>=◌,
}
use pega_s.Player.{Cell, Player}

-- `card_t`.
pub record Card : Type 0 where
  pub num : ℕ
  pub number_head : ℕ
  pub client_id : ℕ

-- `state_t`.
pub data State : Type 0 where
  inactive waiting waiting_extra playing : State

-- `game_t`. A freed block is the empty list: every access to it is out of bounds.
pub record Game : Type 0 where
  pub nbr_lign : ℕ
  pub nbr_cards_lign : ℕ
  pub nbr_cards_player : ℕ
  pub nbr_cards : ℕ
  pub nb_head : ℕ
  pub next_cards : ℕ
  pub extra_wait_from : ℕ
  pub game_state : State
  pub deck : List Card
  pub board : List Cell
  pub card_ready_to_place : List Cell
  pub card_ready_to_place_count : ℕ

-- What malloc returns to `init_game`: the cards' block, whose contents it does not set, and whether
-- the other two blocks, which it sets, are there.
pub record Blocks : Type 0 where
  pub deck_block : Option (List Card)
  pub board_block : Bool
  pub ready_block : Bool

-- The fields that `init_game` sets before it allocates.
abbrev pub with_rules : Game → ℕ → ℕ → ℕ → ℕ → ℕ → Game
with_rules g lines line_cards player_cards cards heads = record g {
  nbr_lign = lines;
  nbr_cards_lign = line_cards;
  nbr_cards_player = player_cards;
  nbr_cards = cards;
  nb_head = heads;
  game_state = State.inactive;
  card_ready_to_place_count = 0;
  next_cards = 0;
}

-- `malloc` first writes the pointer, so that a failure leaves a null or freed block.
unfoldable pub init_game : Blocks → Game → ℕ → ℕ → ℕ → ℕ → ℕ → ℕ → ℕ → ℤ × Game
init_game blocks g lines line_cards player_cards cards heads nb_player game_capacity =
    if leb cards (u8 (player_cards * game_capacity))
    then (minus_one, g)
    else elim blocks.deck_block [
      | none ↦ (minus_one, record ruled { deck = [] })
      | some deck ↦
          if blocks.board_block
          then if blocks.ready_block
            then (
              pos 0,
              record ruled {
                deck = deck;
                board = replicate (line_cards * lines) none;
                card_ready_to_place = replicate nb_player none;
              },
            )
            else (minus_one, record ruled { deck = []; board = []; card_ready_to_place = [] })
          else (minus_one, record ruled { deck = []; board = [] })
    ]
  where
    ruled : Game
    ruled = with_rules g lines line_cards player_cards cards heads

-- `free` of the three blocks; the pointers are kept.
unfoldable pub cleanup_game : Game → Game
cleanup_game g = record g { board = []; deck = []; card_ready_to_place = [] }

-- `for (i = 0; i < nbrCardsPlayer; i++) if (player_cards_id[i] != -1) return 0; return 1;`
pub all_played : List Cell → ℕ → ℕ → Option Bool
all_played cards zero i = some Bool.true
all_played cards (suc rounds) i = do
  c ← load cards i
  elim c [ none ↦ all_played cards rounds (i + 1) | some _ ↦ some Bool.false ]

-- Whether the player has no card left; one with no cards at all has none.
unfoldable pub checking_cards : Game → Player → Option Bool
unfolding all_played
checking_cards g p = elim p.player_cards_id [
  | none ↦ some Bool.true
  | some cards ↦ all_played cards g.nbr_cards_player 0
]
