-- ===== src/Session/Filled.antt =====
-- The block of PKT_SESSION_INFO is filled to its last byte: `session_send_info` of
-- Session/session_packet.c.
use pega_s.Prelude.{
  ℕ, zero, suc, ◌+◌, ◌*◌, ◌≤◌, ◌<◌, ◌≡◌, refl, none, some, List, [], ◌++◌, u16, arith, length,
  length-append, load, load_in_bounds, Returns, Bool-cases, inl, inr,
}
use native.Mathlib.Nat.{mod-eq_of_lt}
use pega_s.ByteBuffer.{bytes_of_uint16}
use pega_s.Protocol.Packets.{score_size, score_payload, card_size}
use pega_s.Player.{Cell, Player, is_player, count_cell, count_from, calc_hand_count}
use pega_s.Game.{Game}
use pega_s.Game.Row.{InDeck}
use pega_s.Session.{Session}
use pega_s.Session.Send.{
  is_scored, count_scored, scores_from, card_at, cell_at, held_at, board_from, hand_from,
  board_length, hand_of_player, hand_count_of, info_payload, info_size,
}
use pega_s.Session.Sound.{Sound, InDeck-at}

-- As many scores as are counted.
scores_filled :
    (ps : List Player) (rounds i count : ℕ)
    → i + rounds ≤ length ps
    → count + rounds < 65536
    → Returns (count_scored ps rounds i count) (λ n.
      Returns
        (scores_from ps rounds i)
        (λ scores. length scores + count * score_size ≡ n * score_size))
unfolding count_scored scores_from
scores_filled ps zero i count room few = (count, refl, ([], refl, omega arith))
scores_filled ps (suc rounds) i count room few =
    let (p, at) = load_in_bounds ps i (omega arith) in
    elim (Bool-cases (is_scored p)) [
      | inl scored ↦
          let more : u16 (count + 1) ≡ count + 1 = mod-eq_of_lt (omega arith) in
          let (n, e, (scores, e', size)) =
            scores_filled ps rounds (i + 1) (count + 1) (omega arith) (omega arith) in
          let sizes = length-append (score_payload p.player_id p.nb_head) scores in
          rw (at, scored, more, e, e') (n, refl, (_, refl, omega arith))
      | inr free ↦
          let (n, e, (scores, e', size)) =
            scores_filled ps rounds (i + 1) count (omega arith) (omega arith) in
          rw (at, free, e, e') (n, refl, (scores, refl, size))
    ]

card_filled :
    (g : Game) (id : ℕ)
    → id < length g.deck
    → Returns (card_at g id) (λ bytes. length bytes ≡ card_size)
unfolding card_at
card_filled g id inside = let (card, e) = load_in_bounds g.deck id inside in rw e (_, refl, refl)

cell_filled :
    (g : Game) (c : Cell)
    → ((id : ℕ) → c ≡ some id → id < length g.deck)
    → Returns (cell_at g c) (λ bytes. length bytes ≡ card_size)
unfolding cell_at
cell_filled g none ok = (_, refl, refl)
cell_filled g (some id) ok = card_filled g id (ok id refl)

board_filled :
    (g : Game) (rounds i : ℕ)
    → InDeck g.deck g.board
    → i + rounds ≤ length g.board
    → Returns (board_from g rounds i) (λ bytes. length bytes ≡ rounds * card_size)
unfolding board_from
board_filled g zero i ok room = ([], refl, refl)
board_filled g (suc rounds) i ok room =
    let (c, at) = load_in_bounds g.board i (omega arith) in
    let (bytes, e, size) = cell_filled g c (InDeck-at g g.board i c ok at) in
    let (rest, e', size') = board_filled g rounds (i + 1) ok (omega arith) in
    let sizes = length-append bytes rest in rw (at, e, e') (_, refl, omega arith)

-- An empty cell of a hand is not shown, and not counted.
held_filled :
    (g : Game) (c : Cell) (count : ℕ)
    → ((id : ℕ) → c ≡ some id → id < length g.deck)
    → Returns
        (held_at g c)
        (λ bytes. length bytes + count * card_size ≡ count_cell c count * card_size)
unfolding held_at
held_filled g none count ok = ([], refl, omega arith)
held_filled g (some id) count ok =
    let (bytes, e, size) = card_filled g id (ok id refl) in (bytes, e, omega arith)

count_cell_le : (c : Cell) (count : ℕ) → count_cell c count ≤ count + 1
count_cell_le none count = omega arith
count_cell_le (some id) count = omega arith

hand_filled :
    (g : Game) (cards : List Cell) (rounds i count : ℕ)
    → InDeck g.deck cards
    → i + rounds ≤ length cards
    → count + rounds < 65536
    → Returns (count_from cards rounds i count) (λ n.
      Returns
        (hand_from g cards rounds i)
        (λ bytes. length bytes + count * card_size ≡ n * card_size))
unfolding count_from hand_from
hand_filled g cards zero i count ok room few = (count, refl, ([], refl, omega arith))
hand_filled g cards (suc rounds) i count ok room few =
    let (c, at) = load_in_bounds cards i (omega arith) in
    let low = count_cell_le c count in
    let more : u16 (count_cell c count) ≡ count_cell c count = mod-eq_of_lt (omega arith) in
    let (bytes, e, size) = held_filled g c count (InDeck-at g cards i c ok at) in
    let (n, e', (rest, e'', size')) =
      hand_filled g cards rounds (i + 1) (count_cell c count) ok (omega arith) (omega arith) in
    let sizes = length-append bytes rest in
    rw (at, more, e, e', e'') (n, refl, (_, refl, omega arith))

-- A player's cards, or an observer's none.
player_filled :
    (s : Session) (i : ℕ) (p : Player)
    → Sound s
    → load s.players i ≡ some p
    → s.game.nbr_cards_player < 65536
    → Returns (hand_count_of s.game p) (λ n.
      Returns
        (hand_of_player s.game (is_player p.role) p.player_cards_id)
        (λ bytes. length bytes ≡ n * card_size))
unfolding hand_count_of hand_of_player calc_hand_count
player_filled s i p v at few = elim (Bool-cases (is_player p.role)) [
  | inr watches ↦ rw watches (0, refl, ([], refl, refl))
  | inl plays ↦
      let (cards, has, ok, room) = v.hands i p at plays in
      let (n, e, (bytes, e', size)) =
        hand_filled s.game cards s.game.nbr_cards_player 0 0 ok (omega arith) (omega arith) in
      rw (plays, has, e, e') (n, refl, (bytes, refl, omega arith))
]

-- For a seat of a sound session whose hands have fewer than 65536 places, the hand and the scores
-- are counted, and the payload of PKT_SESSION_INFO is built without a fault, with exactly as many
-- bytes as are computed from the two counts for its block.
pub info_payload-length :
    (s : Session) (i : ℕ) (p : Player)
    → Sound s
    → load s.players i ≡ some p
    → s.game.nbr_cards_player < 65536
    → (hand_count active : ℕ) × (payload : List ℕ) × (hand_count_of s.game p ≡ some hand_count)
      × (count_scored s.players s.max_clients 0 0 ≡ some active)
      × (info_payload s p hand_count active ≡ some payload)
      × (length payload ≡ info_size s hand_count active)
unfolding info_payload
info_payload-length s i p v at few =
    let small = v.table.small in
    let seats = v.table.seats in
    let (active, e, (scores, e', scored)) =
      scores_filled s.players s.max_clients 0 0 (omega arith) (omega arith) in
    let (board, e'', shown) =
      board_filled s.game (board_length s.game) 0 v.table.board_ok (omega (arith, v.table.cells)) in
    let (hand_count, e₃, (hand, e₄, held)) = player_filled s i p v at few in
    let step : info_payload s p hand_count active
        ≡ some (
            bytes_of_uint16 hand_count ++ (bytes_of_uint16 active ++ (scores ++ (board ++ hand)))) =
      rw (e', e'', e₄) refl in
    let sizes = length-append board hand in
    let sizes' = length-append scores (board ++ hand) in
    (hand_count, active, _, e₃, e, step, omega arith)
