-- ===== src/Session/Info.antt =====
-- The packets that show the game to a client, and sending them to all: a sound session sends them
-- without a fault.
use pega_s.Prelude.{
  ℕ, zero, suc, ◌+◌, ◌*◌, ◌≤◌, ◌<◌, ◌≡◌, refl, true, Option, none, some, List, [], ℤ, minus_one,
  ltb, ◌==◌, arith, length, load, load_in_bounds, Returns, Bool-cases, inl, inr,
}
use pega_s.Protocol.{protocol_max_size, header_size}
use pega_s.Protocol.Packets.{score_size}
use pega_s.Player.{Cell, Player, is_player, calc_hand_count}
use pega_s.Game.{Game}
use pega_s.Game.Row.{InDeck}
use pega_s.Session.{Session, get_index_by_id, is_user}
use pega_s.Session.Seats.{FirstSeat, first_seat-FirstSeat}
use pega_s.Session.Send.{
  board_length, hand_of_player, hand_count_of, info_payload, info_size, send_info_of,
  session_send_info, session_send_phase_result, send_to_all,
}
use pega_s.Session.Sound.{
  Sound, Sound-queue, Sent, Sent-refl, Fine, session_send_to_player-Sent, count_scored-Fine,
  scores_from-Fine, board_from-Fine, hand_from-Fine, count_from-Fine,
}

hand-Fine :
    (g : Game) (p : Player) (cards : List Cell)
    → p.player_cards_id ≡ some cards
    → InDeck g.deck cards
    → g.nbr_cards_player ≤ length cards
    → Fine (calc_hand_count p g.nbr_cards_player) × Fine (hand_of_player g true p.player_cards_id)
unfolding calc_hand_count hand_of_player
hand-Fine g p cards has ok room =
    let (n, e) = count_from-Fine cards g.nbr_cards_player 0 0 (omega arith) in
    let (bytes, e') = hand_from-Fine g cards g.nbr_cards_player 0 ok (omega arith) in
    rw has ((n, e), (bytes, e'))

player-Fine :
    (s : Session) (i : ℕ) (p : Player)
    → Sound s
    → load s.players i ≡ some p
    → Fine (hand_count_of s.game p)
      × Fine (hand_of_player s.game (is_player p.role) p.player_cards_id)
unfolding hand_count_of hand_of_player
player-Fine s i p v at = elim (Bool-cases (is_player p.role)) [
  | inr watches ↦ rw watches ((0, refl), ([], refl))
  | inl plays ↦
      let (cards, has, ok, room) = v.hands i p at plays in
      let (counted, shown) = hand-Fine s.game p cards has ok room in rw plays (counted, shown)
]

info_payload-Fine :
    (s : Session) (i : ℕ) (p : Player) (hand_count active : ℕ)
    → Sound s
    → load s.players i ≡ some p
    → Fine (info_payload s p hand_count active)
unfolding info_payload
info_payload-Fine s i p hand_count active v at =
    let (scores, e) = scores_from-Fine s.players s.max_clients 0 (omega (arith, v.table.seats)) in
    let (board, e') =
      board_from-Fine s.game (board_length s.game) 0 v.table.board_ok
        (omega (arith, v.table.cells)) in
    let (hand, e'') = (player-Fine s i p v at).1 in rw (e, e', e'') (_, refl)

send_info_of-Sent :
    (s : Session) (user_id : ℕ) (found : Option ℕ)
    → Sound s
    → ((i : ℕ) → found ≡ some i → i < length s.players)
    → Returns (send_info_of s user_id found) (λ r. Sent s r.1)
unfolding send_info_of
send_info_of-Sent s user_id none v inside = ((minus_one, s), refl, Sent-refl s v.queue)
send_info_of-Sent s user_id (some i) v inside =
    let (p, at) = load_in_bounds s.players i (inside i refl) in
    let (hand_count, e) = (player-Fine s i p v at).0 in
    let (active, e') =
      count_scored-Fine s.players s.max_clients 0 0 (omega (arith, v.table.seats)) in
    let (payload, e'') = info_payload-Fine s i p hand_count active v at in
    elim (Bool-cases (ltb protocol_max_size (header_size + info_size s hand_count active))) [
      | inl long ↦ rw (at, e, e', long) ((minus_one, s), refl, Sent-refl s v.queue)
      | inr fits ↦
          rw (at, e, e', fits, e'') (session_send_to_player-Sent s user_id _ payload v.queue)
    ]

found_inside :
    (s : Session) (user_id : ℕ)
    → length s.players ≡ s.max_clients
    → Returns (get_index_by_id s user_id) (λ found. (i : ℕ) → found ≡ some i → i < length s.players)
unfolding get_index_by_id
found_inside s user_id size = elim (Bool-cases (user_id == 0)) [
  | inl nobody ↦ rw nobody (none, refl, λ i e. absurd (cc))
  | inr user ↦
      let (found, e, place) =
        first_seat-FirstSeat (is_user user_id) s.players s.max_clients 0 s.max_clients (omega arith)
          (omega (arith, size)) in
      rw user (found, e, below found place)
]
  where
    below :
        (found : Option ℕ)
        → FirstSeat (is_user user_id) s.players 0 s.max_clients found
        → (i : ℕ) → found ≡ some i
        → i < length s.players
    below none place i e = absurd (cc)
    below (some k) (p, at, _, _, inside, _) i e =
        let same : k ≡ i = cc in omega (arith, same, inside, size)

pub session_send_info-Sent :
    (s : Session) (user_id : ℕ) → Sound s → Returns (session_send_info s user_id) (λ r. Sent s r.1)
unfolding session_send_info
session_send_info-Sent s user_id v =
    let (found, e, inside) = found_inside s user_id v.table.seats in
    rw e (send_info_of-Sent s user_id found v inside)

pub session_send_phase_result-Sent :
    (s : Session) (user_id : ℕ)
    → Sound s
    → Returns (session_send_phase_result s user_id) (λ r. Sent s r.1)
unfolding session_send_phase_result
session_send_phase_result-Sent s user_id v =
    let (active, e) =
      count_scored-Fine s.players s.max_clients 0 0 (omega (arith, v.table.seats)) in
    let (scores, e') = scores_from-Fine s.players s.max_clients 0 (omega (arith, v.table.seats)) in
    elim (Bool-cases (ltb protocol_max_size (header_size + (2 + active * score_size)))) [
      | inl long ↦ rw (e, long) ((minus_one, s), refl, Sent-refl s v.queue)
      | inr fits ↦ rw (e, fits, e') (session_send_to_player-Sent s user_id _ _ v.queue)
    ]

pub send_to_all-Sent :
    (to_client : Session → ℕ → Option (ℤ × Session))
    → ((s : Session) (user_id : ℕ) → Sound s → Returns (to_client s user_id) (λ r. Sent s r.1))
    → (s : Session) (rounds i : ℕ) → Sound s
    → i + rounds ≤ length s.players
    → Returns (send_to_all to_client s rounds i) (Sent s)
unfolding send_to_all
send_to_all-Sent to_client each s zero i v h = (s, refl, Sent-refl s v.queue)
send_to_all-Sent to_client each s (suc rounds) i v h =
    let (p, at) = load_in_bounds s.players i (omega arith) in
    elim (Bool-cases (p.player_id == 0)) [
      | inl free ↦ rw (at, free) (send_to_all-Sent to_client each s rounds (i + 1) v (omega arith))
      | inr taken ↦
          let ((code, _), e, (queue, same, ok)) = each s p.player_id v in
          let (s', e', (queue', same', ok')) =
            send_to_all-Sent to_client each (record s { write_queue = queue }) rounds (i + 1)
              (Sound-queue queue ok v) (omega arith) in
          rw (at, taken, e, same, e') (s', refl, (queue', same', ok'))
    ]
