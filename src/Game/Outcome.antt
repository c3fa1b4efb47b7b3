-- ===== src/Game/Outcome.antt =====
-- The whole of `place_card` on a table: its loop, and how it ends.
use pega_s.Prelude.{
  ℕ, zero, suc, ◌≤◌, ◌<◌, ◌≡◌, ◌≢◌, refl, sym, subst, Option, none, some, List, arith, load,
  load_in_bounds, load-lt-length, Returns, Bool, true, false, inl, inr, ℤ, pos, int_of, ◌⊎◌, ◌%◌,
}
use pega_s.Player.{Player}
use pega_s.Game.{Game, State}
use pega_s.Game.Hands.{Finished, InGame, Scanned, hand_empty-Scanned}
use pega_s.Game.Table.{IsTable, occupied, occupied-zero, occupied-le-length}
use pega_s.Game.Turn.{Stepped, place_round-Stepped}
use pega_s.Game.Place.{
  Round, none_left, placed, must_choose, Halt, ask_player, place_rounds, end_turn, after_rounds,
  after_round, place_card, turn_over, phase_over,
}

-- No card is left to place.
abbrev pub AllPlaced : Game → ℕ → Type 0
AllPlaced g capacity = (i c : ℕ) → i < capacity → load g.card_ready_to_place i ≢ some (some c)

-- The player at an index is asked, and has a card to place; the code is its id, as an `int`.
abbrev pub Asked : Game → List Player → ℤ → Type 0
Asked g ps code =
    (i c : ℕ) × (p : Player) × (load ps i ≡ some p)
    × (code ≡ int_of p.player_id)
    × (p.player_id < 2147483648 → code ≡ pos p.player_id)
    × (load g.card_ready_to_place i ≡ some (some c))
    × (g.game_state ≡ State.waiting_extra)

abbrev pub Halted : ℕ → Halt → Type 0
Halted capacity (none, g, ps) = IsTable capacity g ps × AllPlaced g capacity
Halted capacity (some code, g, ps) = IsTable capacity g ps × Asked g ps code

-- A table does not depend on the state of the game or on the count of the cards played.
pub IsTable-state :
    {capacity : ℕ} {g : Game} {ps : List Player} (s : State) (n : ℕ)
    → IsTable capacity g ps
    → IsTable capacity (record g { game_state = s; card_ready_to_place_count = n }) ps
IsTable-state s n t = record {
  seats = t.seats;
  ready = t.ready;
  small = t.small;
  lines = t.lines;
  wide = t.wide;
  cells = t.cells;
  dealt = t.dealt;
  board_ok = t.board_ok;
  ready_ok = t.ready_ok;
  seats_ok = t.seats_ok;
}

int_of-small : (x : ℕ) → x < 2147483648 → int_of x ≡ pos x
int_of-small x small = let same : x % 4294967296 ≡ x = omega arith in ground arith

ask_player-Halted :
    (capacity : ℕ) {g : Game} {ps : List Player} (index c : ℕ)
    → IsTable capacity g ps
    → load g.card_ready_to_place index ≡ some (some c)
    → Returns (ask_player g ps index) (Halted capacity)
unfolding ask_player
ask_player-Halted capacity {g} {ps} index c t h =
    let (p, hp) =
      load_in_bounds ps index
        (omega (arith, t.seats, t.ready, load-lt-length g.card_ready_to_place index h)) in
    rw hp (
      (some (int_of p.player_id), record g { game_state = State.waiting_extra }, ps),
      refl,
      (
        IsTable-state State.waiting_extra g.card_ready_to_place_count t,
        (index, c, p, hp, refl, int_of-small p.player_id, h, refl),
      ),
    )

after_round-Halted :
    (capacity steps : ℕ) {g : Game} {ps : List Player} (next : Game → List Player → Option Halt)
    → IsTable capacity g ps
    → occupied g.card_ready_to_place ≤ suc steps
    → ((g' : Game) (ps' : List Player)
        → IsTable capacity g' ps'
        → occupied g'.card_ready_to_place ≤ steps
        → Returns (next g' ps') (Halted capacity))
    → (round : Round × Game × List Player) → Stepped capacity g ps round
    → Returns (after_round next round) (Halted capacity)
unfolding after_round
after_round-Halted capacity steps {g} {ps} next t few rest (none_left, g', ps')
      (same, same_ps, empty) =
    (
      (none, g', ps'),
      refl,
      (
        subst (λ qs. IsTable capacity g' qs) (sym same_ps)
            (subst (λ h. IsTable capacity h ps) (sym same) t),
        subst (λ h. AllPlaced h capacity) (sym same)
            (λ i c inside card. let none_here = empty i inside in absurd (cc)),
      ),
    )
after_round-Halted capacity steps {g} {ps} next t few rest (placed, g', ps') (t', less) =
    rest g' ps' t' (omega arith)
after_round-Halted capacity steps {g} {ps} next t few rest (must_choose i, g', ps')
      (same, same_ps, c, h) =
    subst (λ qs. Returns (ask_player g' qs i) (Halted capacity)) (sym same_ps)
      (subst (λ k. Returns (ask_player k ps i) (Halted capacity)) (sym same)
        (ask_player-Halted capacity i c t h))

-- `capacity` rounds are enough: each places one of at most `capacity` cards.
place_rounds-Halted :
    (steps capacity : ℕ) {g : Game} {ps : List Player}
    → IsTable capacity g ps
    → occupied g.card_ready_to_place ≤ steps
    → Returns (place_rounds steps g ps capacity) (Halted capacity)
unfolding place_rounds
place_rounds-Halted zero capacity {g} {ps} t few =
    ((none, g, ps), refl, (t, λ i c _. occupied-zero g.card_ready_to_place (omega arith) i))
place_rounds-Halted (suc steps) capacity {g} {ps} t few =
    let (r, e, s) = place_round-Stepped t in
    rw e (
      after_round-Halted capacity steps (λ g' ps'. place_rounds steps g' ps' capacity) t few
        (λ g' ps' t' less. place_rounds-Halted steps capacity {g = g'} {ps = ps'} t' less) r s)

-- How `place_card` ends.
abbrev pub Ended : ℕ → ℤ × Game × List Player → Type 0
Ended capacity (code, g, ps) =
    Asked g ps code
    ⊎ ((code ≡ turn_over)
        × (g.game_state ≡ State.waiting)
        × AllPlaced g capacity
        × ((i : ℕ) (p : Player)
            → i < capacity
            → load ps i ≡ some p
            → InGame p
            → ¬ Finished g.nbr_cards_player p))
    ⊎ ((code ≡ phase_over)
        × (g.game_state ≡ State.inactive)
        × AllPlaced g capacity
        × (i : ℕ) × (p : Player) × (load ps i ≡ some p)
        × InGame p
        × Finished g.nbr_cards_player p)

after_rounds-Ended :
    (capacity : ℕ) (halt : Halt)
    → Halted capacity halt
    → Returns (after_rounds capacity halt) (λ r. IsTable capacity r.1 r.2 × Ended capacity r)
unfolding after_rounds end_turn
after_rounds-Ended capacity (some id, g, ps) (t, asked) = ((id, g, ps), refl, (t, inl asked))
after_rounds-Ended capacity (none, g, ps) (t, placed_all) =
    let g' = record g { card_ready_to_place_count = 0 } in
    let (b, e, s) =
      hand_empty-Scanned g' ps capacity 0 capacity (omega arith) (omega (arith, t.seats))
        t.seats_ok in
    rw e (end_turn g' ps b, refl, last b s)
  where
    last :
        (b : Bool)
        → Scanned g.nbr_cards_player ps 0 capacity b
        → let r = end_turn (record g { card_ready_to_place_count = 0 }) ps b in
          IsTable capacity r.1 r.2 × Ended capacity r
    last true (i, p, h, _, playing, finished) = (
      IsTable-state State.inactive 0 t,
      inr (inr (refl, refl, placed_all, i, p, h, playing, finished)),
    )
    last false s = (
      IsTable-state State.waiting 0 t,
      inr (
          inl
            (refl, refl, placed_all, λ j p inside h playing. s j p (omega arith) inside h playing)),
    )

-- On a table `place_card` never faults and leaves a table. It returns the id of a player, converted
-- to an `int` and so the id itself if it is below 2^31, and then a card still waits at the player's
-- place, and the game waits for it; or -2 when no card waits and every player in the game has a card
-- left; or -3 when no card waits and a player in the game has no card left.
pub place_card-Ended :
    {capacity : ℕ} {g : Game} {ps : List Player}
    → IsTable capacity g ps
    → Returns (place_card g ps capacity) (λ r. IsTable capacity r.1 r.2 × Ended capacity r)
unfolding place_card
place_card-Ended {capacity} {g} t =
    let (halt, e, h) =
      place_rounds-Halted capacity capacity t
        (omega (arith, t.ready, occupied-le-length g.card_ready_to_place)) in
    rw e (after_rounds-Ended capacity halt h)
