-- ===== src/Game/Turn.antt =====
-- `place_card` on a table: it never faults, keeps the table, and ends in one of three ways.
use pega_s.Prelude.{
  ℕ, ◌+◌, ◌*◌, ◌≤◌, ◌<◌, ◌≡◌, refl, ap, ◌∙◌, Option, none, some, List, arith, length, length-set,
  set, load, load_in_bounds, load-lt-length, store_in_bounds, Returns, Bool-cases, inl, inr, u8,
  leb,
}
use pega_s.Player.{Cell, Player}
use pega_s.Game.{Game}
use pega_s.Game.Row.{
  InDeck, InDeck-set, InDeck-clear, clear, length-clear, row_cards, with_heads, take_line_lem,
  sum_heads, set-set,
}
use pega_s.Game.Smallest.{Smallest, min_card-Smallest}
use pega_s.Game.Closest.{Closest, best_row-Closest}
use pega_s.Game.Table.{
  IsTable, IsTable-board, IsTable-ready_none, IsTable-heads, occupied, occupied-set-none,
}
use pega_s.Game.Place.{
  take_line, Best, put_card, place_in, place_at, place_chosen, place_round, Round, none_left,
  placed, must_choose,
}

-- What a round does to a table.
abbrev pub Stepped : ℕ → Game → List Player → Round × Game × List Player → Type 0
Stepped capacity g ps (none_left, g', ps') =
    (g' ≡ g) × (ps' ≡ ps) × ((i : ℕ) → i < capacity → load g.card_ready_to_place i ≡ some none)
Stepped capacity g ps (placed, g', ps') =
    IsTable capacity g' ps' × (occupied g'.card_ready_to_place + 1 ≡ occupied g.card_ready_to_place)
Stepped capacity g ps (must_choose i, g', ps') =
    (g' ≡ g) × (ps' ≡ ps) × (c : ℕ) × (load g.card_ready_to_place i ≡ some (some c))

module _ {capacity : ℕ} {g : Game} {ps : List Player} (t : IsTable capacity g ps) where
  ready_below :
      (index : ℕ) {c : Cell} → load g.card_ready_to_place index ≡ some c → index < capacity
  ready_below index h = omega (arith, load-lt-length g.card_ready_to_place index h, t.ready)

  row_below :
      (row : ℕ) → row < g.nbr_lign → row * g.nbr_cards_lign + g.nbr_cards_lign ≤ length g.board
  row_below row inside = let e = t.cells in grind arith

  -- `take_line` by a player who has played a card, on a row of the board.
  take_line_at :
      (row index : ℕ) {card : ℕ} (p : Player)
      → load ps index ≡ some p
      → load g.card_ready_to_place index ≡ some (some card)
      → row < g.nbr_lign
      → Returns (take_line g ps row index) (λ r.
        IsTable capacity r.0 r.1 × (r.0.card_ready_to_place ≡ set g.card_ready_to_place index none))
  take_line_at row index {card} p hp h inside =
      let same_index : u8 index ≡ index = omega (arith, ready_below index h, t.small) in
      let same_row : u8 row ≡ row = omega (arith, t.lines) in
      let at = row * g.nbr_cards_lign in
      let cards = row_cards g.board at g.nbr_cards_lign in
      let heads = sum_heads g.deck cards in
      let n = length cards in
      let board = set (clear g.board at n) at (some card) in
      let e =
        take_line_lem g ps row index p (some card) (rw same_index hp) (rw same_index h)
          (t.seats_ok index p hp).0 t.wide (rw same_row (row_below row inside)) t.board_ok in
      let board_len : length board ≡ length g.board =
        length-set (clear g.board at n) at (some card) ∙ length-clear g.board at n in
      let board_in : InDeck g.deck board =
        InDeck-set g.deck (clear g.board at n) at (some card)
          (λ id same. t.ready_ok index id (h ∙ ap some same))
          (InDeck-clear g.deck g.board at n t.board_ok) in
      let seated = IsTable-heads t index heads hp in
      (
        (
          record g { board = board; card_ready_to_place = set g.card_ready_to_place index none },
          set ps index (with_heads p heads),
        ),
        rw (same_index, same_row) at e,
        (IsTable-ready_none (IsTable-board seated board board_len board_in) index, refl),
      )

  -- On a table, for a row of the board and an index at which a card waits, `take_line` does not
  -- fault, leaves a table, and of the waiting cards takes away the one at the index and no other.
  pub take_line-IsTable :
      (row index : ℕ) {card : ℕ}
      → load g.card_ready_to_place index ≡ some (some card)
      → row < g.nbr_lign
      → Returns (take_line g ps row index) (λ r.
        IsTable capacity r.0 r.1 × (r.0.card_ready_to_place ≡ set g.card_ready_to_place index none))
  take_line-IsTable row index h inside =
      let (p, hp) = load_in_bounds ps index (omega (arith, ready_below index h, t.seats)) in
      take_line_at row index p hp h inside

  -- The row is taken, or the card is put after its last card.
  put_card-IsTable :
      (index card row col : ℕ)
      → load g.card_ready_to_place index ≡ some (some card)
      → row < g.nbr_lign
      → Returns (put_card g ps index card row col) (λ r.
        IsTable capacity r.0 r.1
        × (set r.0.card_ready_to_place index none ≡ set g.card_ready_to_place index none))
  unfolding put_card
  put_card-IsTable index card row col h inside = elim (Bool-cases (leb g.nbr_cards_lign col)) [
    | inl full ↦
        let (r, e, kept) = take_line-IsTable row index h inside in
        rw full (
          r,
          e,
          (
            kept.0,
            ap (λ (xs : List Cell). set xs index none) kept.1
                ∙ set-set g.card_ready_to_place index none none,
          ),
        )
    | inr room ↦
        let at = row * g.nbr_cards_lign + col in
        let short : col < g.nbr_cards_lign = ground arith in
        let board = set g.board at (some card) in
        rw
          (
            room,
            store_in_bounds g.board at (some card) (omega (arith, row_below row inside, short)),
          )
          (
            (record g { board = board }, ps),
            refl,
            (
              IsTable-board t board (length-set g.board at (some card)) (
                  InDeck-set g.deck g.board at (some card)
                    (λ id same. t.ready_ok index id (h ∙ ap some same)) t.board_ok),
              refl,
            ),
          )
  ]

  -- The rest of a round, at a card that was played.
  place_in-Stepped :
      (index card limit : ℕ) (b : Best)
      → load g.card_ready_to_place index ≡ some (some card)
      → Closest g card limit g.nbr_lign b
      → (target : Option (ℕ × ℕ)) → b.target ≡ target
      → Returns (place_in g ps index card target) (Stepped capacity g ps)
  unfolding place_in
  place_in-Stepped index card limit b h c none e =
      ((must_choose index, g, ps), refl, (refl, refl, card, h))
  place_in-Stepped index card limit b h c (some (row, col)) e =
      let inside : row < g.nbr_lign = (c.found row col e).2 in
      let (r, put, done) = put_card-IsTable index card row col h inside in
      let bound : index < length r.0.card_ready_to_place =
        omega (arith, done.0.ready, ready_below index h) in
      rw (put, store_in_bounds r.0.card_ready_to_place index none bound)
        (
          (
            placed,
            record r.0 { card_ready_to_place = set r.0.card_ready_to_place index none },
            r.1,
          ),
          refl,
          (
            IsTable-ready_none done.0 index,
            rw done.1 (occupied-set-none g.card_ready_to_place index h),
          ),
        )

  place_at-Stepped :
      (index card : ℕ)
      → load g.card_ready_to_place index ≡ some (some card)
      → Returns (place_at g ps index (some card)) (Stepped capacity g ps)
  unfolding place_at
  place_at-Stepped index card h =
      let limit = g.nbr_cards + 100 in
      let (b, e, c) = best_row-Closest g card limit (omega (arith, t.cells)) in
      rw e (place_in-Stepped index card limit b h c b.target refl)

  place_chosen-Stepped :
      (best : Option ℕ)
      → Smallest g.card_ready_to_place capacity best
      → Returns (place_chosen g ps best) (Stepped capacity g ps)
  unfolding place_chosen
  place_chosen-Stepped none s = ((none_left, g, ps), refl, (refl, refl, s))
  place_chosen-Stepped (some index) (card, h, _, _) = rw h (place_at-Stepped index card h)

  -- On a table a round of `place_card` never faults. If it finds no card to place there is none, and
  -- nothing changes; if it places a card it leaves a table with one card less to place; if a player
  -- must choose a row nothing changes and a card waits at the player's place.
  pub place_round-Stepped : Returns (place_round g ps capacity) (Stepped capacity g ps)
  unfolding place_round
  place_round-Stepped =
      let (best, e, s) =
        min_card-Smallest g.card_ready_to_place capacity (omega (arith, t.ready)) in
      rw e (place_chosen-Stepped best s)
