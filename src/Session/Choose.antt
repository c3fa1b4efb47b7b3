-- ===== src/Session/Choose.antt =====
-- The card that a player names leaves the hand and waits to be placed.
use pega_s.Prelude.{
  ℕ, ◌+◌, ◌≤◌, ◌<◌, ◌≡◌, ◌⊎◌, refl, subst, ◌∙◌, true, false, Option, none, some, List, ℤ, pos,
  minus_one, ltb, arith, u16, length, load, set, length-set, get_elem?-set_self, load_in_bounds,
  store_in_bounds, load-set_cases, load-lt-length, Returns, Bool-cases, inl, inr,
}
use native.Mathlib.Nat.{mod-eq_of_lt}
use pega_s.Prelude.Text.{codes}
use pega_s.Player.{Cell, Player, is_player}
use pega_s.Game.{Card}
use pega_s.Game.Row.{InDeck, InDeck-set}
use pega_s.Game.Table.{IsSeat}
use pega_s.Game.Visible.{cards_before, Visible, get_real_index_from_visible-Visible}
use pega_s.Session.{Session, get_index_by_id}
use pega_s.SessionBus.{UserMessage}
use pega_s.Session.Send.{session_send_error_packet}
use pega_s.Session.Sound.{QueueOk, HasHand, Sound, Sent, Sent-refl, session_send_to_player-Sent}
use pega_s.Session.Play.{waits, refuse, put_ready, play_real, choose_card, game_handle_info_return}
use pega_s.Protocol.Pkt
use pega_s.Protocol.Packets.{error_payload}
use pega_s.Protocol.{protocol_max_size, header_size}

-- The session after a card is played.
abbrev after_choice : Session → ℕ → ℕ → Player → List Cell → ℕ → ℕ → Card → Session
after_choice s user_id index p cards real card_id card = record s {
  players = set s.players index (record p { player_cards_id = some (set cards real none) });
  game = record (s.game) {
    deck = set s.game.deck card_id (record card { client_id = user_id });
    card_ready_to_place = set s.game.card_ready_to_place index (some card_id);
    card_ready_to_place_count = s.game.card_ready_to_place_count + 1;
  };
}

module _ (s : Session) (user_id index : ℕ) (p : Player) (cards : List Cell) (real card_id : ℕ)
    (card : Card) (v : Sound s) (at : load s.players index ≡ some p)
    (plays : is_player p.role ≡ true) (has : p.player_cards_id ≡ some cards)
    (held : load cards real ≡ some (some card_id)) where
  hand_ok : InDeck s.game.deck cards × (s.game.nbr_cards_player ≤ length cards)
  hand_ok =
      let (cards', has', ok, room) = v.hands index p at plays in
      let same : cards' ≡ cards = cc in (subst (InDeck s.game.deck) same ok, rw (← same) room)

  dealt_same :
      length (set s.game.deck card_id (record card { client_id = user_id })) ≡ length s.game.deck
  dealt_same = length-set s.game.deck card_id (record card { client_id = user_id })

  deck_ok :
      (cells : List Cell)
      → InDeck s.game.deck cells
      → InDeck (set s.game.deck card_id (record card { client_id = user_id })) cells
  deck_ok cells ok i id h = omega (arith, ok i id h, dealt_same)

  new_hand :
      HasHand
        (after_choice s user_id index p cards real card_id card).game
        (record p { player_cards_id = some (set cards real none) })
  new_hand = (
    set cards real none,
    refl,
    deck_ok (set cards real none)
        (InDeck-set s.game.deck cards real none (λ id absent. absurd (cc)) (hand_ok.0)),
    omega (arith, hand_ok.1, length-set cards real none),
  )

  new_seat :
      IsSeat s.game.nbr_cards_player (record p { player_cards_id = some (set cards real none) })
  new_seat = (
    (v.table.seats_ok index p at).0,
    λ cells has_q id role.
        let same : set cards real none ≡ cells = cc in
        rw (← same) (omega (arith, hand_ok.1, length-set cards real none)),
  )

  after_choice-Sound : Sound (after_choice s user_id index p cards real card_id card)
  after_choice-Sound =
      let t = v.table in
      record {
        table = record {
          seats =
              length-set s.players index (record p { player_cards_id = some (set cards real none) })
              ∙ t.seats;
          ready = length-set s.game.card_ready_to_place index (some card_id) ∙ t.ready;
          small = t.small;
          lines = t.lines;
          wide = t.wide;
          cells = t.cells;
          dealt = dealt_same ∙ t.dealt;
          board_ok = deck_ok s.game.board t.board_ok;
          ready_ok = deck_ok _ (
              InDeck-set s.game.deck s.game.card_ready_to_place index (some card_id)
                (λ id same.
                  let same' : card_id ≡ id = cc in rw (← same') (hand_ok.0 real card_id held))
                t.ready_ok);
          seats_ok = λ j q at_j. elim (load-set_cases s.players index j at_j) [
            | inl (same, e) ↦ subst (IsSeat s.game.nbr_cards_player) e new_seat
            | inr old ↦ t.seats_ok j q old
          ];
        };
        queue = v.queue;
        hands = λ j q at_j role. elim (load-set_cases s.players index j at_j) [
          | inl (same, e) ↦
              subst (HasHand (after_choice s user_id index p cards real card_id card).game) e
                new_hand
          | inr old ↦
              let (cells, has', ok, room) = v.hands j q old role in
              (cells, has', deck_ok cells ok, room)
        ];
      }

-- What a player's choice leaves behind: at most messages, or a card of its hand that waits.
abbrev pub Chosen : Session → UserMessage → ℕ → Player → ℤ × Session → Type 0
Chosen s msg index p (code, s') =
    ((code ≡ minus_one) × Sent s s')
    ⊎ ((code ≡ pos 0)
        × Sound s'
        × (cards : List Cell) × (real card_id visible : ℕ) × (load msg.payload 0 ≡ some visible)
        × (load s.game.card_ready_to_place index ≡ some none)
        × (p.player_cards_id ≡ some cards)
        × (load cards real ≡ some (some card_id))
        × (cards_before cards real ≡ visible)
        × (load s'.game.card_ready_to_place index ≡ some (some card_id))
        × (s'.players
            ≡ set s.players index (record p { player_cards_id = some (set cards real none) }))
        × (s'.game.card_ready_to_place_count ≡ s.game.card_ready_to_place_count + 1))

module _ (s : Session) (msg : UserMessage) (index : ℕ) (p : Player) (v : Sound s)
    (at : load s.players index ≡ some p) (plays : is_player p.role ≡ true) where
  real-Chosen :
      (cards : List Cell) (visible : ℕ) (found : Option ℕ)
      → load msg.payload 0 ≡ some visible
      → load s.game.card_ready_to_place index ≡ some none
      → p.player_cards_id ≡ some cards
      → Visible cards s.game.nbr_cards_player visible found
      → Returns (play_real s msg.client_id index p cards found) (Chosen s msg index p)
  unfolding play_real put_ready
  real-Chosen cards visible none named waiting has place =
      ((minus_one, s), refl, inl (refl, Sent-refl s v.queue))
  real-Chosen cards visible (some real) named waiting has (card_id, held, inside, before) =
      let ok =
        hand_ok s msg.client_id index p cards real card_id
          (record { num = 0; number_head = 0; client_id = 0 }) v at plays has held in
      let (card, dealt) = load_in_bounds s.game.deck card_id (ok.0 real card_id held) in
      let seat : index < length s.players = load-lt-length s.players index at in
      let place : index < length s.game.card_ready_to_place =
        load-lt-length s.game.card_ready_to_place index waiting in
      rw
        (
          held,
          store_in_bounds cards real none (load-lt-length cards real held),
          store_in_bounds s.players index
              (record p { player_cards_id = some (set cards real none) }) seat,
          dealt,
          store_in_bounds s.game.deck card_id (record card { client_id = msg.client_id })
              (ok.0 real card_id held),
          store_in_bounds s.game.card_ready_to_place index (some card_id) place,
        )
        (
          (pos 0, after_choice s msg.client_id index p cards real card_id card),
          refl,
          inr (
            refl,
            after_choice-Sound s msg.client_id index p cards real card_id card v at plays has held,
            cards,
            real,
            card_id,
            visible,
            named,
            waiting,
            has,
            held,
            before,
            get_elem?-set_self s.game.card_ready_to_place index (some card_id) place,
            refl,
            refl,
          ),
        )

  choice-Chosen :
      (visible : ℕ) (waiting : Cell)
      → load msg.payload 0 ≡ some visible
      → load s.game.card_ready_to_place index ≡ some waiting
      → Returns (choose_card s msg.client_id index visible waiting) (Chosen s msg index p)
  unfolding choose_card
  choice-Chosen visible (some card) named waiting =
      ((minus_one, s), refl, inl (refl, Sent-refl s v.queue))
  choice-Chosen visible none named waiting =
      let (cards, has, _, room) = v.hands index p at plays in
      let (found, e, place) =
        get_real_index_from_visible-Visible cards s.game.nbr_cards_player visible room in
      let (r, done, chosen) = real-Chosen cards visible found named waiting has place in
      let step : choose_card s msg.client_id index visible none
          ≡ play_real s msg.client_id index p cards found =
        rw (at, has, e) refl in
      (r, step ∙ done, chosen)

refuse-Sent :
    (s : Session) (user_id code : ℕ) (text : List ℕ)
    → QueueOk s.write_queue
    → Returns (refuse s user_id code text) (λ r. (r.0 ≡ minus_one) × Sent s r.1)
unfolding refuse session_send_error_packet
refuse-Sent s user_id code text ok =
    elim (Bool-cases (ltb protocol_max_size (header_size + (3 + length text)))) [
      | inl long ↦ rw long ((minus_one, s), refl, (refl, Sent-refl s ok))
      | inr fits ↦
          let (r, e, did) =
            session_send_to_player-Sent s user_id Pkt.error
              (error_payload code text (u16 (length text))) ok in
          rw (fits, e) (_, refl, (refl, did))
    ]

named_card :
    (s : Session) (msg : UserMessage) (index visible : ℕ) (waiting : Cell)
    → waits s.game.game_state ≡ true
    → ltb (length msg.payload) 1 ≡ false
    → load msg.payload 0 ≡ some visible
    → get_index_by_id s msg.client_id ≡ some (some index)
    → index < 256
    → load s.game.card_ready_to_place index ≡ some waiting
    → game_handle_info_return s msg ≡ choose_card s msg.client_id index visible waiting
unfolding game_handle_info_return
named_card s msg index visible waiting ready long named found byte there =
    rw (ready, long, named, found, mod-eq_of_lt byte, there) refl

-- For a player with a seat in a sound session, `game_handle_info_return` does not fault. It returns
-- -1 and changes nothing but the ring, or it returns 0 and leaves a sound session, in which the card
-- that has as many cards of the hand before it as the packet says has left the hand, and waits at
-- the player's place, which was empty.
pub game_handle_info_return-Chosen :
    (s : Session) (msg : UserMessage) (index : ℕ) (p : Player)
    → Sound s
    → get_index_by_id s msg.client_id ≡ some (some index)
    → load s.players index ≡ some p
    → is_player p.role ≡ true
    → Returns (game_handle_info_return s msg) (Chosen s msg index p)
unfolding game_handle_info_return
game_handle_info_return-Chosen s msg index p v found at plays =
    elim (Bool-cases (waits s.game.game_state)) [
      | inr idle ↦ rw idle ((minus_one, s), refl, inl (refl, Sent-refl s v.queue))
      | inl ready ↦ elim (Bool-cases (ltb (length msg.payload) 1)) [
        | inl short ↦
            let (r, e, did) =
              refuse-Sent s msg.client_id 0x34 (codes "Bad session info return payload\n")
                v.queue in
            rw (ready, short) (r, e, inl did)
        | inr long ↦
            let (visible, named) = load_in_bounds msg.payload 0 (ground arith) in
            let inside : index < length s.players = load-lt-length s.players index at in
            let (waiting, there) =
              load_in_bounds s.game.card_ready_to_place index
                (omega (arith, v.table.ready, v.table.seats)) in
            let (r, e, chosen) =
              choice-Chosen s msg index p v at plays visible waiting named there in
            (
              r,
              named_card s msg index visible waiting ready long named found
                    (omega (arith, inside, v.table.seats, v.table.small)) there
                  ∙ e,
              chosen,
            )
      ]
    ]
