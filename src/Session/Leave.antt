-- ===== src/Session/Leave.antt =====
-- `remove_player` and `change_player_role` of Session/session.c.
use pega_s.Prelude.{
  ℕ, zero, suc, ◌+◌, ◌-◌, ◌^◌, Bool, true, false, ◌&&◌, Option, none, some, List, ℤ, pos, negsuc,
  minus_one, ltb, leb, ◌==◌, if◌then◌else◌, u64, load, store, replicate, ◌>>=◌,
}
use pega_s.Player.{Cell, Role, Player, is_player, cleanup_player}
use pega_s.Session.{Session, started, get_index_by_id}
use pega_s.Session.Move.{start_move}
use pega_s.Session.Result.{handle_result_of_play}

-- A `size_t` less one.
abbrev pub less_one : ℕ → ℕ
less_one n = u64 (n + (2 ^ 64 - 1))

abbrev pub is_observer : Role → Bool
is_observer Role.observer = true
is_observer Role.player = false
is_observer Role.nobody = false

-- A search for a new creator. The `break` after its test ends the loop at the first seat that is not
-- the one at `index`.
unfoldable pub other_seat : (Role → Bool) → List Player → ℕ → ℕ → ℕ → Option (Option ℕ)
other_seat test ps index zero i = some none
other_seat test ps index (suc rounds) i = do
  let later = other_seat test ps index rounds (i + 1)
  if i == index then later else (load ps i >>= λ p. some (if test p.role then some i else none))

unfoldable pub or_observer : Session → ℕ → Option ℕ → Option (Option ℕ)
or_observer s index (some i) = some (some i)
or_observer s index none = other_seat is_observer s.players index s.max_clients 0

unfoldable pub made_creator : Session → Option ℕ → Option Session
made_creator s none = some s
made_creator s (some i) = load s.players i >>= λ p. some (record s { id_creator = p.player_id })

unfoldable pub new_creator : Session → ℕ → Option Session
new_creator s index = do
  player ← other_seat is_player s.players index s.max_clients 0
  other ← or_observer s index player
  made_creator s other

-- The card of a seat is taken back, and the turn goes on if the others have chosen.
unfoldable pub play_without : Session → ℕ → Option Session
play_without s index = do
  ready ← store s.game.card_ready_to_place index none
  (result, s') ← start_move (record s { game = record (s.game) { card_ready_to_place = ready } })
  handle_result_of_play s' result

-- A player goes: `active_players--`, and the game goes on without.
unfoldable pub player_gone : Session → ℕ → Option Session
player_gone s index =
    let s' = record s { active_players = less_one s.active_players } in
    if started s.game.game_state then play_without s' index else some s'

-- The seat is freed.
unfoldable pub free_seat : Session → ℕ → Option Session
free_seat s index = do
  p ← load s.players index
  players ←
      store s.players index (record (cleanup_player p) { role = Role.nobody; is_connected = 0 })
  some (record s { players = players; number_clients = less_one s.number_clients })

unfoldable pub remove_at : Session → ℕ → Option ℕ → Option Session
remove_at s client_id none = some s
remove_at s client_id (some index) = do
  p ← load s.players index
  s₁ ← if client_id == s.id_creator && ltb 1 s.number_clients then new_creator s index else some s
  s₂ ← if is_player p.role then player_gone s₁ index else some s₁
  free_seat s₂ index

-- It returns 0 in every case; here it returns the session.
unfoldable pub remove_player : Session → ℕ → Option Session
remove_player s client_id = do index ← get_index_by_id s client_id; remove_at s client_id index

-- `p->role = new_role`. There is no return statement after it, so no code.
unfoldable pub set_role : Session → ℕ → Role → Option (Option ℤ × Session)
set_role s index role = do
  p ← load s.players index
  players ← store s.players index (record p { role = role })
  some (none, record s { players = players })

abbrev pub with_cards : Session → ℕ → Player → Option (List Cell) → Option Session
with_cards s index p cards =
    store s.players index (record p { player_cards_id = cards }) >>= λ players.
    some (record s { players = players })

-- A null hand gets a block of empty cells.
unfoldable pub deal_in : Bool → Session → ℕ → Player → Option (List Cell) → Option (Option Session)
deal_in room s index p (some cards) = some (some s)
deal_in true s index p none =
    with_cards s index p (some (replicate s.game.nbr_cards_player none)) >>= λ s'. some (some s')
deal_in false s index p none = some none

unfoldable pub enter_game : Session → ℕ → Option Session → Option (Option ℤ × Session)
enter_game s index none = some (some (negsuc 3), s)
enter_game s index (some s') =
    set_role (record s' { active_players = s'.active_players + 1 }) index Role.player

unfoldable pub become_player : Bool → Session → ℕ → Player → Option (Option ℤ × Session)
become_player room s index p =
    if leb s.game_capacity s.active_players
    then some (some (negsuc 1), s)
    else if started s.game.game_state
    then some (some (negsuc 2), s)
    else (deal_in room s index p p.player_cards_id >>= λ dealt. enter_game s index dealt)

-- The hand is freed before the game goes on, while the seat still has its old role.
unfoldable pub become_observer : Session → ℕ → Player → Option (Option ℤ × Session)
become_observer s index p = do
  s₁ ← with_cards s index p none
  s₂ ← player_gone s₁ index
  set_role s₂ index Role.observer

abbrev pub same_role : Role → Role → Bool
same_role Role.nobody Role.nobody = true
same_role Role.nobody Role.player = false
same_role Role.nobody Role.observer = false
same_role Role.player Role.nobody = false
same_role Role.player Role.player = true
same_role Role.player Role.observer = false
same_role Role.observer Role.nobody = false
same_role Role.observer Role.player = false
same_role Role.observer Role.observer = true

unfoldable pub change_to : Bool → Session → ℕ → Player → Role → Option (Option ℤ × Session)
change_to room s index p Role.player = become_player room s index p
change_to room s index p Role.observer = become_observer s index p
change_to room s index p Role.nobody = set_role s index Role.nobody

unfoldable pub change_at : Bool → Session → Role → Option ℕ → Option (Option ℤ × Session)
change_at room s role none = some (some minus_one, s)
change_at room s role (some index) = do
  p ← load s.players index
  if same_role p.role role then some (some (pos 0), s) else change_to room s index p role

-- `room` says whether malloc succeeds.
unfoldable pub change_player_role : Bool → Session → ℕ → Role → Option (Option ℤ × Session)
change_player_role room s player_id role = do
  index ← get_index_by_id s player_id
  change_at room s role index
