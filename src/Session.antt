-- ===== src/Session.antt =====
-- A session and its seats: Session/session.c and its header. The queue that the session reads, the log
-- and the timer are left out: the functions modelled do not read them.
pub mod Seats
pub mod Members
pub mod Join
pub mod Move
pub mod Send
pub mod Sound
pub mod Info
pub mod Filled
pub mod Report
pub mod Turn
pub mod Roster
pub mod Removed
pub mod Remove
pub mod Choose
pub mod Result
pub mod Leave
pub mod Play
pub mod Handle
mod Tests
use pega_s.Prelude.{
  ℕ, zero, suc, ◌+◌, Bool, true, false, not, ◌&&◌, Option, none, some, List, ℤ, pos, negsuc,
  minus_one, ◌==◌, if◌then◌else◌, load, store, ◌>>=◌, u8,
}
use pega_s.Player.{Cell, Role, Player, is_player, create_player}
use pega_s.Game.{State, Game}
use pega_s.Ring.{Ring}
use pega_s.SessionBus.{Message}

-- `session_t`.
pub record Session : Type 0 where
  pub id : ℕ
  pub is_visible : ℕ
  pub id_creator : ℕ
  pub players : List Player
  pub max_clients : ℕ
  pub game_capacity : ℕ
  pub number_clients : ℕ
  pub active_players : ℕ
  pub unregister_send : ℕ
  pub running : ℕ
  pub game : Game
  pub write_queue : Ring Message

-- `role != ROLE_NONE`.
abbrev pub has_role : Role → Bool
has_role Role.nobody = false
has_role Role.player = true
has_role Role.observer = true

-- `game_state != INACTIVE`.
abbrev pub started : State → Bool
started State.inactive = false
started State.waiting = true
started State.waiting_extra = true
started State.playing = true

-- The loop of both searches: the first seat that passes a test, none for -1.
unfoldable pub first_seat : (Player → Bool) → List Player → ℕ → ℕ → Option (Option ℕ)
first_seat test ps zero i = some none
first_seat test ps (suc rounds) i = do
  p ← load ps i
  let later = first_seat test ps rounds (i + 1)
  if test p then some (some i) else later

abbrev pub is_user : ℕ → Player → Bool
is_user user_id p = has_role p.role && (p.player_id == user_id)

abbrev pub is_free : Player → Bool
is_free p = p.player_id == 0

unfoldable pub get_index_by_id : Session → ℕ → Option (Option ℕ)
get_index_by_id s user_id =
    if user_id == 0 then some none else first_seat (is_user user_id) s.players s.max_clients 0

unfoldable pub get_first_free_player_place : Session → Option (Option ℕ)
get_first_free_player_place s = first_seat is_free s.players s.max_clients 0

-- The role that a new client gets.
unfoldable pub role_for : Session → Role → Role
role_for s role = if is_player role && started s.game.game_state then Role.observer else role

-- `card_to_alloc`.
abbrev pub cards_for : Session → Role → ℕ
cards_for s role = if is_player role then s.game.nbr_cards_player else 0

-- `active_players++` for a player.
abbrev pub joined : Role → ℕ → ℕ
joined Role.player n = n + 1
joined Role.observer n = n
joined Role.nobody n = n

-- The new client takes a seat. The code of `create_player` is not looked at.
unfoldable pub seat_client : Option (List Cell) → Session → ℕ → Role → ℕ → Option (ℤ × Session)
seat_client block s client_id role index = do
  p ← load s.players index
  let p' = (create_player p client_id (u8 (cards_for s role)) block).1
  players ← store s.players index (record p' { role = role; is_connected = 1 })
  some (
    pos 0,
    record s {
      players = players;
      number_clients = s.number_clients + 1;
      active_players = joined role s.active_players;
    },
  )

-- The rest of `add_player`, once it is known whether the client has a seat, and which one is free.
unfoldable pub add_at :
    Option (List Cell) → Session → ℕ → Role → Option ℕ → Option ℕ → Option (ℤ × Session)
add_at block s client_id role (some index) free = some (minus_one, s)
add_at block s client_id role none none = some (negsuc 1, s)
add_at block s client_id role none (some index) =
    seat_client block s client_id (role_for s role) index

-- `block` is what malloc returns for the client's cards.
unfoldable pub add_player : Option (List Cell) → Session → ℕ → Role → Option (ℤ × Session)
add_player block s client_id role = do
  found ← get_index_by_id s client_id
  free ← get_first_free_player_place s
  add_at block s client_id role found free
