-- ===== src/Game/Table.antt =====
-- The table of a game: when `place_card` can run with no undefined behaviour, and what it keeps.
use pega_s.Prelude.{
  ℕ, zero, suc, ◌+◌, ◌*◌, ◌≤◌, ◌<◌, ◌≡◌, ◌≢◌, subst, ◌∙◌, none, some, List, [], ◌∷◌, arith, length,
  length-set, set, load, load-set_cases, true, inl, inr,
}
use pega_s.Player.{Cell, Player, is_player}
use pega_s.Game.{Game}
use pega_s.Game.Row.{InDeck, InDeck-set, with_heads}

-- Bytes are bytes, and a player in the game has room for a full hand.
abbrev pub IsSeat : ℕ → Player → Type 0
IsSeat hand p =
    (p.nb_head < 256)
    × ((cards : List Cell)
        → p.player_cards_id ≡ some cards
        → p.player_id ≢ 0
        → is_player p.role ≡ true
        → hand ≤ length cards)

pub record IsTable (capacity : ℕ) (g : Game) (ps : List Player) : Type 0 where
  pub seats : length ps ≡ capacity
  pub ready : length g.card_ready_to_place ≡ capacity
  pub small : capacity < 256
  pub lines : g.nbr_lign < 256
  pub wide : 0 < g.nbr_cards_lign
  pub cells : length g.board ≡ g.nbr_lign * g.nbr_cards_lign
  pub dealt : length g.deck ≡ g.nbr_cards
  pub board_ok : InDeck g.deck g.board
  pub ready_ok : InDeck g.deck g.card_ready_to_place
  pub seats_ok : (i : ℕ) (p : Player) → load ps i ≡ some p → IsSeat g.nbr_cards_player p

-- The number of cards among some cells.
pub occupied : List Cell → ℕ
occupied [] = 0
occupied (none ∷ cells) = occupied cells
occupied (some c ∷ cells) = suc (occupied cells)

pub occupied-le-length : (cells : List Cell) → occupied cells ≤ length cells
unfolding occupied
occupied-le-length [] = omega arith
occupied-le-length (none ∷ cells) = omega (arith, occupied-le-length cells)
occupied-le-length (some c ∷ cells) = omega (arith, occupied-le-length cells)

pub occupied-set-none :
    (cells : List Cell) (i : ℕ) {c : ℕ}
    → load cells i ≡ some (some c)
    → occupied (set cells i none) + 1 ≡ occupied cells
unfolding occupied
occupied-set-none [] i h = absurd (cc)
occupied-set-none (none ∷ cells) zero h = absurd (cc)
occupied-set-none (some c ∷ cells) zero h = omega arith
occupied-set-none (none ∷ cells) (suc i) h = occupied-set-none cells i h
occupied-set-none (some c ∷ cells) (suc i) h = omega (arith, occupied-set-none cells i h)

pub occupied-zero :
    (cells : List Cell) → occupied cells ≡ 0 → (i : ℕ) {c : ℕ} → load cells i ≢ some (some c)
unfolding occupied
occupied-zero [] e i h = absurd (cc)
occupied-zero (none ∷ cells) e zero h = absurd (cc)
occupied-zero (none ∷ cells) e (suc i) h = occupied-zero cells e i h
occupied-zero (some c ∷ cells) e i h = absurd (omega arith)

-- The parts of a table that placing cards changes.
module _ {capacity : ℕ} {g : Game} {ps : List Player} (t : IsTable capacity g ps) where
  pub IsTable-board :
      (board : List Cell)
      → length board ≡ length g.board
      → InDeck g.deck board
      → IsTable capacity (record g { board = board }) ps
  IsTable-board board len ok = record {
    seats = t.seats;
    ready = t.ready;
    small = t.small;
    lines = t.lines;
    wide = t.wide;
    cells = len ∙ t.cells;
    dealt = t.dealt;
    board_ok = ok;
    ready_ok = t.ready_ok;
    seats_ok = t.seats_ok;
  }

  pub IsTable-ready_none :
      (i : ℕ)
      → IsTable capacity (record g { card_ready_to_place = set g.card_ready_to_place i none }) ps
  IsTable-ready_none i = record {
    seats = t.seats;
    ready = length-set g.card_ready_to_place i none ∙ t.ready;
    small = t.small;
    lines = t.lines;
    wide = t.wide;
    cells = t.cells;
    dealt = t.dealt;
    board_ok = t.board_ok;
    ready_ok = InDeck-set g.deck g.card_ready_to_place i none (λ j absent. absurd (cc)) t.ready_ok;
    seats_ok = t.seats_ok;
  }

  pub IsTable-heads :
      (i n : ℕ) {p : Player} → load ps i ≡ some p → IsTable capacity g (set ps i (with_heads p n))
  IsTable-heads i n {p} h = record {
    seats = length-set ps i (with_heads p n) ∙ t.seats;
    ready = t.ready;
    small = t.small;
    lines = t.lines;
    wide = t.wide;
    cells = t.cells;
    dealt = t.dealt;
    board_ok = t.board_ok;
    ready_ok = t.ready_ok;
    seats_ok = λ j q at. elim (load-set_cases ps i j at) [
      | inl (same, e) ↦ subst (IsSeat g.nbr_cards_player) e (omega arith, (t.seats_ok i p h).1)
      | inr old ↦ t.seats_ok j q old
    ];
  }
