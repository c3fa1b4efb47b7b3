-- ===== src/Session/Tests.antt =====
-- A session of two seats, one of them taken.
use pega_s.Prelude.{
  true, negsuc, ℕ, zero, suc, ◌≡◌, ◌≢◌, ◌∙◌, sym, List, length, Option, ap, refl, subst, none, some,
  [], ◌∷◌, arith, load, Returns, inl, inr,
}
use pega_s.Player.{Cell, Role, Player}
use pega_s.Game.{State, Game}
use pega_s.Ring.{Ring}
use pega_s.SessionBus.{Message, UserMessage}
use pega_s.Session.{Session, add_player, first_seat, get_index_by_id}
use pega_s.Session.Sound.{QueueOk, HasHand, Sound}
use pega_s.Session.Result.{handle_result_of_play}
use pega_s.Session.Report.{Reported, handle_result_of_play-Reported}
use pega_s.Session.Play.{game_handle_info_return, play_card}
use pega_s.Session.Choose.{Chosen, game_handle_info_return-Chosen}
use pega_s.Session.Send.{hand_count_of, count_scored, info_payload, info_size}
use pega_s.Session.Filled.{info_payload-length}
use pega_s.Session.Leave.{remove_player}
use pega_s.Session.Remove.{Gone, remove_player-Gone}
use pega_s.Session.Turn.{Played, play_card-Sound}
use pega_s.Session.Members.{number, IsSeat, Members, Added}
use pega_s.Game.Outcome.{IsTable-state}
use pega_s.Game.Table.{IsTable-ready_none}
use pega_s.Game.Tests.{table, seat, seats, table-IsTable, two_seats, all_below, all_below-InDeck}
use pega_s.Session.Join.{add_player-Added}

abbrev empty_seat : Player
empty_seat = record {
  player_id = 0;
  player_cards_id = none;
  nb_head = 0;
  role = Role.nobody;
  is_connected = 0;
}

abbrev taken_seat : Player
taken_seat = record {
  player_id = 40;
  player_cards_id = some (none ∷ none ∷ []);
  nb_head = 3;
  role = Role.player;
  is_connected = 1;
}

abbrev quiet_game : Game
quiet_game = record {
  nbr_lign = 4;
  nbr_cards_lign = 5;
  nbr_cards_player = 2;
  nbr_cards = 104;
  nb_head = 5;
  next_cards = 0;
  extra_wait_from = 0;
  game_state = State.inactive;
  deck = [];
  board = [];
  card_ready_to_place = [];
  card_ready_to_place_count = 0;
}

abbrev quiet_queue : Ring Message
quiet_queue = record { buffer = []; element_size = 8; capacity = 0; mask = 0; head = 0; tail = 0 }

abbrev session : Session
session = record {
  id = 1;
  is_visible = 1;
  id_creator = 40;
  players = empty_seat ∷ taken_seat ∷ [];
  max_clients = 2;
  game_capacity = 2;
  number_clients = 1;
  active_players = 1;
  unregister_send = 0;
  running = 1;
  game = quiet_game;
  write_queue = quiet_queue;
}

seat_of : (i : ℕ) (p : Player) → load session.players i ≡ some p → IsSeat p
seat_of zero p h = subst IsSeat {x = empty_seat} {y = p} (cc) (inl (refl, refl))
seat_of (suc zero) p h = subst IsSeat {x = taken_seat} {y = p} (cc) (inr (omega arith, refl))
seat_of (suc (suc i)) p h = absurd (cc)

-- Only the second seat has a client.
taken_index : (i : ℕ) (p : Player) → load session.players i ≡ some p → p.player_id ≢ 0 → i ≡ 1
taken_index zero p h taken =
    let same : empty_seat ≡ p = cc in absurd (subst (λ q. q.player_id ≢ 0) (sym same) taken refl)
taken_index (suc zero) p h taken = refl
taken_index (suc (suc i)) p h taken = absurd (cc)

session-Members : Members session
unfolding number
session-Members = record {
  size = refl;
  seated = refl;
  playing = refl;
  seats = seat_of;
  unique = λ i j p q at_i at_j same taken.
      taken_index i p at_i taken ∙ sym (taken_index j q at_j (λ free. taken (same ∙ free)));
}

add_player-Added_example :
    Returns
      (add_player (some (none ∷ none ∷ [])) session 41 Role.player)
      (Added session 41 Role.player)
add_player-Added_example =
    add_player-Added (some (none ∷ none ∷ [])) 41 Role.player session-Members (omega arith) refl

-- Both players have chosen a card, and the game waits.
abbrev chosen : Session
chosen = record session {
  players = seats;
  active_players = 2;
  game = record table { game_state = State.waiting };
}

abbrev blank : Message
blank = Message.user (record { client_id = 0; packet_type = 0; payload = [] })

abbrev four_cells : Ring Message
four_cells = record {
  buffer = blank ∷ blank ∷ blank ∷ blank ∷ [];
  element_size = 8;
  capacity = 4;
  mask = 3;
  head = 0;
  tail = 0;
}

four_cells-QueueOk : QueueOk four_cells
four_cells-QueueOk = (
  2,
  [],
  record {
    valid = record {
      power = refl;
      mask_lem = refl;
      block = refl;
      head_in = omega arith;
      tail_in = omega arith;
      small = omega arith;
    };
    count = refl;
    cells = tt;
  },
)

-- The first player has not chosen.
abbrev choosing : Session
choosing = record session {
  players = seats;
  number_clients = 2;
  active_players = 2;
  game = record table {
    game_state = State.waiting;
    card_ready_to_place = none ∷ some 3 ∷ [];
    card_ready_to_place_count = 1;
  };
  write_queue = four_cells;
}

hand_of_two :
    (c d : Cell) (id : ℕ)
    → all_below 8 (c ∷ d ∷ []) ≡ true
    → HasHand choosing.game (seat id (some (c ∷ d ∷ [])))
hand_of_two c d id low =
    (c ∷ d ∷ [], refl, all_below-InDeck table.deck (c ∷ d ∷ []) low, omega arith)

choosing-Sound : Sound choosing
choosing-Sound = record {
  table = IsTable-state State.waiting 1 (IsTable-ready_none table-IsTable 0);
  queue = four_cells-QueueOk;
  hands = λ i p at plays.
      two_seats (HasHand choosing.game) _ _ p i (hand_of_two (some 6) none 11 refl)
        (hand_of_two none (some 7) 12 refl) at;
}

abbrev first_card : UserMessage
first_card = record { client_id = 11; packet_type = 0; payload = 0 ∷ [] }

abbrev first_player : Player
first_player = seat 11 (some (some 6 ∷ none ∷ []))

first_found : get_index_by_id choosing 11 ≡ some (some 0)
unfolding get_index_by_id first_seat
first_found = refl

game_handle_info_return-Chosen_example :
    Returns
      (game_handle_info_return choosing first_card)
      (Chosen choosing first_card 0 first_player)
game_handle_info_return-Chosen_example =
    game_handle_info_return-Chosen choosing first_card 0 first_player choosing-Sound first_found
      refl refl

play_card-Sound_example :
    Returns
      (play_card choosing first_card)
      (λ s'. Sound s' × Played choosing first_card 0 first_player s')
play_card-Sound_example =
    play_card-Sound choosing first_card 0 first_player choosing-Sound first_found refl refl

handle_result_of_play-Reported_example :
    Returns (handle_result_of_play choosing (negsuc 2)) (Reported choosing (negsuc 2))
handle_result_of_play-Reported_example =
    handle_result_of_play-Reported choosing (negsuc 2) choosing-Sound

abbrev id_of : Option Player → ℕ
id_of none = 0
id_of (some p) = p.player_id

two_ids :
    (i j : ℕ) (p q : Player)
    → load seats i ≡ some p
    → load seats j ≡ some q
    → p.player_id ≡ q.player_id
    → i ≡ j
two_ids zero zero p q at_i at_j same = refl
two_ids zero (suc zero) p q at_i at_j same =
    let first : p.player_id ≡ 11 = sym (ap (λ (o : Option Player). id_of o) at_i) in
    let second : q.player_id ≡ 12 = sym (ap (λ (o : Option Player). id_of o) at_j) in
    absurd (omega arith)
two_ids (suc zero) zero p q at_i at_j same =
    let second : p.player_id ≡ 12 = sym (ap (λ (o : Option Player). id_of o) at_i) in
    let first : q.player_id ≡ 11 = sym (ap (λ (o : Option Player). id_of o) at_j) in
    absurd (omega arith)
two_ids (suc zero) (suc zero) p q at_i at_j same = refl
two_ids i (suc (suc j)) p q at_i at_j same = absurd (cc)
two_ids (suc (suc i)) j p q at_i at_j same = absurd (cc)

choosing-Members : Members choosing
unfolding number
choosing-Members = record {
  size = refl;
  seated = refl;
  playing = refl;
  seats = λ i p at. two_seats IsSeat _ _ p i (inr (omega arith, refl)) (inr (omega arith, refl)) at;
  unique = λ i j p q at_i at_j same taken. two_ids i j p q at_i at_j same;
}

remove_player-Gone_example :
    Returns (remove_player choosing 11) (λ s'. Sound s' × Members s' × Gone choosing 11 s')
remove_player-Gone_example =
    remove_player-Gone choosing 11 choosing-Members choosing-Sound (omega arith)

info_payload-length_example :
    (hand_count active : ℕ) × (payload : List ℕ) × (hand_count_of choosing.game first_player
      ≡ some hand_count)
    × (count_scored choosing.players 2 0 0 ≡ some active)
    × (info_payload choosing first_player hand_count active ≡ some payload)
    × (length payload ≡ info_size choosing hand_count active)
info_payload-length_example =
    info_payload-length choosing 0 first_player choosing-Sound refl (omega arith)
