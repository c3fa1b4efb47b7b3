-- ===== src/Player.antt =====
-- The players of a session: Session/player.c and its header.
use pega_s.Prelude.{
  ℕ, zero, suc, ◌+◌, Bool, Option, none, some, List, ℤ, pos, minus_one, ltb, if◌then◌else◌, load,
  ◌>>=◌, u16,
}

-- An `int` that holds the index of a card, or -1, which is `none`.
abbrev pub Cell : Type 0
Cell = Option ℕ

pub data Role : Type 0 where
  nobody player observer : Role

-- `player_t`. `none` is a null `player_cards_id`, and `some []` a block that has been freed: every
-- access to it is out of bounds.
pub record Player : Type 0 where
  pub player_id : ℕ
  pub player_cards_id : Option (List Cell)
  pub nb_head : ℕ
  pub role : Role
  pub is_connected : ℕ

abbrev pub is_player : Role → Bool
is_player Role.player = Bool.true
is_player Role.observer = Bool.false
is_player Role.nobody = Bool.false

-- `player->player_cards_id`, where the code reads through it.
abbrev pub hand_of : Player → Option (List Cell)
hand_of p = p.player_cards_id

-- `block` is what malloc returns for `nb_cards` integers. A failed malloc leaves the null pointer.
unfoldable pub create_player : Player → ℕ → ℕ → Option (List Cell) → ℤ × Player
create_player p client_id nb_cards block =
    if ltb 0 nb_cards
    then elim block [
      | none ↦ (minus_one, record p { player_id = client_id; player_cards_id = none })
      | some cells ↦ (pos 0, record p { player_id = client_id; player_cards_id = some cells })
    ]
    else (pos 0, record p { player_id = client_id; player_cards_id = none })

abbrev free_cards : Option (List Cell) → Option (List Cell)
free_cards none = none
free_cards (some cells) = some List.[]

-- The pointer is freed and kept.
unfoldable pub cleanup_player : Player → Player
cleanup_player p = record p { player_id = 0; player_cards_id = free_cards p.player_cards_id }

abbrev pub count_cell : Cell → ℕ → ℕ
count_cell none n = n
count_cell (some c) n = n + 1

-- The rounds left, the index `i`, and `count`.
unfoldable pub count_from : List Cell → ℕ → ℕ → ℕ → Option ℕ
count_from cards zero i count = some count
count_from cards (suc rounds) i count = do
  c ← load cards i
  count_from cards rounds (i + 1) (u16 (count_cell c count))

unfoldable pub calc_hand_count : Player → ℕ → Option ℕ
unfolding count_from
calc_hand_count p max_card = do cards ← p.player_cards_id; count_from cards max_card 0 0
