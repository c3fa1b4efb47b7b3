-- ===== src/Session/Move.antt =====
-- The start of a turn's placing: `start_move` of Session/Game/game_packet.c. What the log is told is
-- left out.
use pega_s.Prelude.{
  ℕ, zero, suc, ◌+◌, ◌<◌, ◌≡◌, ◌⊎◌, refl, Bool, true, false, not, ◌&&◌, ◌||◌, Option, none, some,
  List, ℤ, pos, arith, ltb, leb_int, int_of, ◌==◌, if◌then◌else◌, length, load, store, set,
  load_in_bounds, store_in_bounds, ◌>>=◌, Returns, Bool-cases, inl, inr,
}
use pega_s.Player.{Cell, Player, is_player}
use pega_s.Game.{State, Game}
use pega_s.Game.Place.{place_card}
use pega_s.Game.Table.{IsTable, IsTable-ready_none}
use pega_s.Game.Outcome.{Ended, IsTable-state, place_card-Ended}
use pega_s.Session.{Session}

-- `game_state` is WAITING or WAITING_EXTRA.
abbrev pub is_waiting : State → Bool
is_waiting State.inactive = false
is_waiting State.waiting = true
is_waiting State.waiting_extra = true
is_waiting State.playing = false

-- The loop that takes away the cards at seats that nobody has.
unfoldable pub clear_absent : List Player → List Cell → ℕ → ℕ → Option (List Cell)
clear_absent ps ready zero i = some ready
clear_absent ps ready (suc rounds) i = do
  p ← load ps i
  ready' ← if not (p.player_id == 0) || is_player p.role then some ready else store ready i none
  clear_absent ps ready' rounds (i + 1)

-- Every player has chosen a card; the number of the players is taken as an `int`.
abbrev pub all_chosen : Session → Bool
all_chosen s =
    leb_int (int_of s.active_players) s.game.card_ready_to_place_count
    && ltb 0 s.game.card_ready_to_place_count

abbrev pub with_game : Session → ℤ × Game × List Player → ℤ × Session
with_game s (code, g, ps) = (code, record s { game = g; players = ps })

unfoldable pub play_cards : Session → Option (ℤ × Session)
play_cards s = do
  ready ← clear_absent s.players s.game.card_ready_to_place s.max_clients 0
  let g = record s.game { game_state = State.playing; card_ready_to_place = ready }
  result ← place_card g s.players s.max_clients
  some (with_game s result)

unfoldable pub start_move : Session → Option (ℤ × Session)
start_move s =
    if not (is_waiting s.game.game_state)
    then some (pos 0, s)
    else if all_chosen s
    then play_cards s
    else some (pos 0, s)

clear_absent-IsTable :
    (capacity : ℕ) (g : Game) (ps : List Player) (ready : List Cell) (rounds i : ℕ)
    → i + rounds ≡ capacity
    → IsTable capacity (record g { card_ready_to_place = ready }) ps
    → Returns
        (clear_absent ps ready rounds i)
        (λ ready'. IsTable capacity (record g { card_ready_to_place = ready' }) ps)
unfolding clear_absent
clear_absent-IsTable capacity g ps ready zero i e t = (ready, refl, t)
clear_absent-IsTable capacity g ps ready (suc rounds) i e t =
    let (p, here) = load_in_bounds ps i (omega (arith, t.seats)) in
    step p here (Bool-cases (not (p.player_id == 0) || is_player p.role))
      (clear_absent-IsTable capacity g ps ready rounds (i + 1) (omega arith) t)
      (clear_absent-IsTable capacity g ps (set ready i none) rounds (i + 1) (omega arith)
        (IsTable-ready_none t i))
  where
    step :
        (p : Player)
        → load ps i ≡ some p
        → (((not (p.player_id == 0) || is_player p.role) ≡ true)
            ⊎ ((not (p.player_id == 0) || is_player p.role) ≡ false))
        → Returns
            (clear_absent ps ready rounds (i + 1))
            (λ ready'. IsTable capacity (record g { card_ready_to_place = ready' }) ps)
        → Returns
            (clear_absent ps (set ready i none) rounds (i + 1))
            (λ ready'. IsTable capacity (record g { card_ready_to_place = ready' }) ps)
        → Returns
            (clear_absent ps ready (suc rounds) i)
            (λ ready'. IsTable capacity (record g { card_ready_to_place = ready' }) ps)
    step p here (inl kept) (ready', rest, done) cleared = (ready', rw (here, kept) rest, done)
    step p here (inr absent) kept (ready', rest, done) =
        let inside : i < length ready = omega (arith, t.ready) in
        (ready', rw (here, absent, store_in_bounds ready i none inside) rest, done)

-- A session's game and players are at a table.
abbrev pub AtTable : Session → Type 0
AtTable s = IsTable s.max_clients s.game s.players

-- What `start_move` leaves behind.
abbrev pub Moved : Session → ℤ × Session → Type 0
Moved s (code, s') =
    AtTable s'
    × (((code ≡ pos 0) × (s' ≡ s) × ((is_waiting s.game.game_state && all_chosen s) ≡ false))
        ⊎ (((is_waiting s.game.game_state && all_chosen s) ≡ true)
            × Ended s.max_clients (code, s'.game, s'.players)))

play_cards-Ended :
    (s : Session)
    → AtTable s
    → Returns (play_cards s) (λ r. AtTable r.1 × Ended s.max_clients (r.0, r.1.game, r.1.players))
unfolding play_cards
play_cards-Ended s t =
    let (ready, e, t') =
      clear_absent-IsTable s.max_clients s.game s.players s.game.card_ready_to_place s.max_clients 0
        (omega arith) t in
    let g = record s.game { card_ready_to_place = ready } in
    let ((code, g', ps'), e', (t'', ended)) =
      place_card-Ended (IsTable-state State.playing g.card_ready_to_place_count t') in
    ((code, record s { game = g'; players = ps' }), rw (e, e') refl, (t'', ended))

pub start_move-Moved : {s : Session} → AtTable s → Returns (start_move s) (Moved s)
unfolding start_move
start_move-Moved {s} t = elim (Bool-cases (is_waiting s.game.game_state)) [
  | inr idle ↦ rw idle ((pos 0, s), refl, (t, inl (refl, refl, refl)))
  | inl waits ↦ elim (Bool-cases (all_chosen s)) [
    | inr early ↦ rw (waits, early) ((pos 0, s), refl, (t, inl (refl, refl, refl)))
    | inl chosen ↦
        let (r, e, (t', ended)) = play_cards-Ended s t in
        rw (waits, chosen) (r, e, (t', inr (refl, ended)))
  ]
]
