-- ===== src/Session/Sound.antt =====
-- Sends never fault on a sound session, and change nothing but the ring.
use pega_s.Prelude.{
  ℕ, zero, suc, ◌+◌, ◌≤◌, ◌<◌, ◌≡◌, refl, true, Option, none, some, List, [], ℤ, pos, negsuc,
  minus_one, ltb, if◌then◌else◌, arith, u16, length, load, load_in_bounds, ◌>>=◌, Returns,
  Bool-cases, inl, inr,
}
use pega_s.Ring.{Ring}
use pega_s.Ring.Refine.{Holds, push_refines}
use pega_s.SessionBus.{Message, SystemType, sp_max_frame, session_bus_push}
use pega_s.Player.{Cell, Player, is_player, count_cell, count_from}
use pega_s.Game.{Game}
use pega_s.Game.Row.{InDeck}
use pega_s.Session.{Session}
use pega_s.Session.Move.{AtTable}
use pega_s.Session.Send.{
  sent, session_send_to_player, send_system_message_to_server, count_scored, is_scored, scores_from,
  card_at, cell_at, board_from, held_at, hand_from,
}

-- The ring holds some messages.
abbrev pub QueueOk : Ring Message → Type 0
QueueOk queue = (bits : ℕ) × (q : List Message) × Holds bits queue q

-- A player in the game has a hand, of cards of the deck.
abbrev pub HasHand : Game → Player → Type 0
HasHand g p =
    (cards : List Cell) × (p.player_cards_id ≡ some cards)
    × InDeck g.deck cards
    × (g.nbr_cards_player ≤ length cards)

pub record Sound (s : Session) : Type 0 where
  pub table : AtTable s
  pub queue : QueueOk s.write_queue
  pub hands :
      (i : ℕ) (p : Player) → load s.players i ≡ some p → is_player p.role ≡ true → HasHand s.game p

-- Only the ring has changed.
abbrev pub Sent : Session → Session → Type 0
Sent s s' = (queue : Ring Message) × (s' ≡ record s { write_queue = queue }) × QueueOk queue

pub Sound-queue :
    {s : Session} (queue : Ring Message)
    → QueueOk queue
    → Sound s
    → Sound (record s { write_queue = queue })
Sound-queue queue ok v = record { table = v.table; queue = ok; hands = v.hands }

pub Sent-refl : (s : Session) → QueueOk s.write_queue → Sent s s
Sent-refl s ok = (s.write_queue, refl, ok)

sent-Sent : (s : Session) (r : ℤ × Ring Message) → QueueOk r.1 → Sent s (sent s r).1
unfolding sent
sent-Sent s (pos zero, queue) ok = (queue, refl, ok)
sent-Sent s (pos (suc n), queue) ok = (queue, refl, ok)
sent-Sent s (negsuc n, queue) ok = (queue, refl, ok)

push-Sent :
    (s : Session) (message : Message)
    → QueueOk s.write_queue
    → Returns (session_bus_push s.write_queue message >>= λ r. some (sent s r)) (λ r. Sent s r.1)
unfolding session_bus_push
push-Sent s message (bits, q, h) =
    let (queue, e, h') = push_refines message h in
    rw e (_, refl, sent-Sent s (_, queue) (bits, _, h'))

-- Whatever a session sends to a player, or to the server, if its ring is in order: the send does not
-- fault, and changes nothing but the ring, which stays in order.
pub session_send_to_player-Sent :
    (s : Session) (user_id packet_type : ℕ) (payload : List ℕ)
    → QueueOk s.write_queue
    → Returns (session_send_to_player s user_id packet_type payload) (λ r. Sent s r.1)
unfolding session_send_to_player
session_send_to_player-Sent s user_id packet_type payload ok =
    elim (Bool-cases (ltb sp_max_frame (length payload))) [
      | inl long ↦ rw long ((minus_one, s), refl, Sent-refl s ok)
      | inr fits ↦ rw fits (push-Sent s _ ok)
    ]

pub send_system_message_to_server-Sent :
    (s : Session) (user_id : ℕ) (message_type : SystemType)
    → QueueOk s.write_queue
    → Returns (send_system_message_to_server s user_id message_type) (λ r. Sent s r.1)
unfolding send_system_message_to_server
send_system_message_to_server-Sent s user_id message_type ok = push-Sent s _ ok

abbrev pub Fine : {A : Type 0} → Option A → Type 0
Fine {A} r = (a : A) × (r ≡ some a)

pub count_scored-Fine :
    (ps : List Player) (rounds i count : ℕ)
    → i + rounds ≤ length ps
    → Fine (count_scored ps rounds i count)
unfolding count_scored
count_scored-Fine ps zero i count h = (count, refl)
count_scored-Fine ps (suc rounds) i count h =
    let (p, at) = load_in_bounds ps i (omega arith) in
    let (n, e) =
      count_scored-Fine ps rounds (i + 1) (if is_scored p then u16 (count + 1) else count)
        (omega arith) in
    (n, rw at e)

pub scores_from-Fine :
    (ps : List Player) (rounds i : ℕ) → i + rounds ≤ length ps → Fine (scores_from ps rounds i)
unfolding scores_from
scores_from-Fine ps zero i h = ([], refl)
scores_from-Fine ps (suc rounds) i h =
    let (p, at) = load_in_bounds ps i (omega arith) in
    let (rest, e) = scores_from-Fine ps rounds (i + 1) (omega arith) in rw (at, e) (_, refl)

card_at-Fine : (g : Game) (id : ℕ) → id < length g.deck → Fine (card_at g id)
unfolding card_at
card_at-Fine g id h = let (card, e) = load_in_bounds g.deck id h in rw e (_, refl)

pub held_at-Fine :
    (g : Game) (c : Cell) → ((id : ℕ) → c ≡ some id → id < length g.deck) → Fine (held_at g c)
unfolding held_at
held_at-Fine g none h = ([], refl)
held_at-Fine g (some id) h = card_at-Fine g id (h id refl)

cell_at-Fine :
    (g : Game) (c : Cell) → ((id : ℕ) → c ≡ some id → id < length g.deck) → Fine (cell_at g c)
unfolding cell_at
cell_at-Fine g none h = (_, refl)
cell_at-Fine g (some id) h = card_at-Fine g id (h id refl)

pub InDeck-at :
    (g : Game) (cells : List Cell) (i : ℕ) (c : Cell)
    → InDeck g.deck cells
    → load cells i ≡ some c
    → (id : ℕ) → c ≡ some id
    → id < length g.deck
InDeck-at g cells i c ok at id e = ok i id (rw (← e) at)

pub board_from-Fine :
    (g : Game) (rounds i : ℕ)
    → InDeck g.deck g.board
    → i + rounds ≤ length g.board
    → Fine (board_from g rounds i)
unfolding board_from
board_from-Fine g zero i ok h = ([], refl)
board_from-Fine g (suc rounds) i ok h =
    let (c, at) = load_in_bounds g.board i (omega arith) in
    let (bytes, e) = cell_at-Fine g c (InDeck-at g g.board i c ok at) in
    let (rest, e') = board_from-Fine g rounds (i + 1) ok (omega arith) in rw (at, e, e') (_, refl)

pub hand_from-Fine :
    (g : Game) (cards : List Cell) (rounds i : ℕ)
    → InDeck g.deck cards
    → i + rounds ≤ length cards
    → Fine (hand_from g cards rounds i)
unfolding hand_from
hand_from-Fine g cards zero i ok h = ([], refl)
hand_from-Fine g cards (suc rounds) i ok h =
    let (c, at) = load_in_bounds cards i (omega arith) in
    let (bytes, e) = held_at-Fine g c (InDeck-at g cards i c ok at) in
    let (rest, e') = hand_from-Fine g cards rounds (i + 1) ok (omega arith) in
    rw (at, e, e') (_, refl)

pub count_from-Fine :
    (cards : List Cell) (rounds i count : ℕ)
    → i + rounds ≤ length cards
    → Fine (count_from cards rounds i count)
unfolding count_from
count_from-Fine cards zero i count h = (count, refl)
count_from-Fine cards (suc rounds) i count h =
    let (c, at) = load_in_bounds cards i (omega arith) in
    let (n, e) = count_from-Fine cards rounds (i + 1) (u16 (count_cell c count)) (omega arith) in
    (n, rw at e)
