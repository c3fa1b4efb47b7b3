-- ===== src/Session/Removed.antt =====
-- A client who is removed: the game goes on without it.
use pega_s.Prelude.{
  ℕ, zero, suc, ◌+◌, ◌≤◌, ◌<◌, ◌≡◌, refl, ap, ◌∙◌, Bool, Option, none, some, List, map, ℤ, ◌==◌,
  arith, length, set, load_in_bounds, store_in_bounds, Returns, Bool-cases, inl, inr,
}
use pega_s.Player.{Role, Player, is_player}
use pega_s.Game.Table.{IsTable-ready_none}
use pega_s.Game.Frame.{core, SamePlayers}
use pega_s.Session.{Session, started}
use pega_s.Session.Sound.{Sound}
use pega_s.Session.Report.{Reported, handle_result_of_play-Reported}
use pega_s.Session.Turn.{Plays, start_move-Plays, start_move-Sound, Reported-Sound}
use pega_s.Session.Leave.{
  less_one, is_observer, other_seat, or_observer, made_creator, new_creator, play_without,
  player_gone,
}

-- The same clients in the same seats, up to their heads.
abbrev pub Continued : Session → Session → Type 0
Continued s s' =
    SamePlayers s.players s'.players
    × (s'.number_clients ≡ s.number_clients)
    × (s'.active_players ≡ s.active_players)
    × (s'.max_clients ≡ s.max_clients)

Continued-trans : (s t u : Session) → Continued s t → Continued t u → Continued s u
Continued-trans s t u (p, n, a, m) (p', n', a', m') = (p' ∙ p, n' ∙ n, a' ∙ a, m' ∙ m)

Plays-Continued : (s : Session) (r : ℤ × Session) → Plays s r → Continued s r.1
Plays-Continued s (code, s') (framed, e) = (
  framed.players,
  ap (λ (x : Session). x.number_clients) e,
  ap (λ (x : Session). x.active_players) e,
  ap (λ (x : Session). x.max_clients) e,
)

Reported-Continued : (s s' : Session) (code : ℤ) → Reported s code s' → Continued s s'
Reported-Continued s s' code (queue, awaited, ok, e, _) = (
  ap (λ (x : Session). map core x.players) e,
  ap (λ (x : Session). x.number_clients) e,
  ap (λ (x : Session). x.active_players) e,
  ap (λ (x : Session). x.max_clients) e,
)

play_without-Continued :
    (s : Session) (index : ℕ)
    → Sound s
    → index < length s.players
    → Returns (play_without s index) (λ s'. Sound s' × Continued s s')
unfolding play_without
play_without-Continued s index v inside =
    let ready = set s.game.card_ready_to_place index none in
    let s₁ : Session = record s { game = record (s.game) { card_ready_to_place = ready } } in
    let v₁ : Sound s₁ = record {
      table = IsTable-ready_none v.table index;
      queue = v.queue;
      hands = v.hands;
    } in
    let ((code, moved), e, (v₂, _)) = start_move-Sound s₁ v₁ in
    let plays = start_move-Plays s₁ (code, moved) e in
    let (s', e', reported) = handle_result_of_play-Reported moved code v₂ in
    let place : index < length s.game.card_ready_to_place =
      omega (arith, v.table.seats, v.table.ready) in
    rw (store_in_bounds s.game.card_ready_to_place index none place, e, e')
      (
        s',
        refl,
        (
          Reported-Sound moved s' code v₂ reported,
          Continued-trans s₁ moved s' (Plays-Continued s₁ (code, moved) plays)
              (Reported-Continued moved s' code reported),
        ),
      )

-- One player less.
abbrev pub one_less : Session → Session
one_less s = record s { active_players = less_one s.active_players }

pub player_gone-Continued :
    (s : Session) (index : ℕ)
    → Sound s
    → index < length s.players
    → Returns (player_gone s index) (λ s'. Sound s' × Continued (one_less s) s')
unfolding player_gone
player_gone-Continued s index v inside =
    let v' : Sound (one_less s) = record { table = v.table; queue = v.queue; hands = v.hands } in
    elim (Bool-cases (started s.game.game_state)) [
      | inr idle ↦ rw idle (one_less s, refl, (v', (refl, refl, refl, refl)))
      | inl plays ↦ rw plays (play_without-Continued (one_less s) index v' inside)
    ]

other_seat-lt :
    (test : Role → Bool) (ps : List Player) (index rounds i : ℕ)
    → i + rounds ≤ length ps
    → Returns
        (other_seat test ps index rounds i)
        (λ found. (k : ℕ) → found ≡ some k → k < length ps)
unfolding other_seat
other_seat-lt test ps index zero i room = (none, refl, λ k e. absurd (cc))
other_seat-lt test ps index (suc rounds) i room =
    let (p, at) = load_in_bounds ps i (omega arith) in
    elim (Bool-cases (i == index)) [
      | inl own ↦ rw own (other_seat-lt test ps index rounds (i + 1) (omega arith))
      | inr other ↦ elim (Bool-cases (test p.role)) [
        | inl fits ↦
            rw (other, at, fits) (some i, refl, λ k e. let same : i ≡ k = cc in omega (arith, same))
        | inr fails ↦ rw (other, at, fails) (none, refl, λ k e. absurd (cc))
      ]
    ]

-- Only the creator may be another.
abbrev pub Recreated : Session → Session → Type 0
Recreated s s' = (creator : ℕ) × (s' ≡ record s { id_creator = creator })

made_creator-Recreated :
    (s : Session) (found : Option ℕ)
    → ((k : ℕ) → found ≡ some k → k < length s.players)
    → Returns (made_creator s found) (Recreated s)
unfolding made_creator
made_creator-Recreated s none inside = (s, refl, (s.id_creator, refl))
made_creator-Recreated s (some i) inside =
    let (p, at) = load_in_bounds s.players i (inside i refl) in rw at (_, refl, (p.player_id, refl))

pub new_creator-Recreated :
    (s : Session) (index : ℕ)
    → s.max_clients ≤ length s.players
    → Returns (new_creator s index) (Recreated s)
unfolding new_creator
new_creator-Recreated s index room =
    let (found, e, inside) =
      other_seat-lt is_player s.players index s.max_clients 0 (omega arith) in
    let (found', e', inside') = observer found inside in
    let (s', e'', made) = made_creator-Recreated s found' inside' in
    rw (e, e', e'') (s', refl, made)
  where
    observer :
        (found : Option ℕ)
        → ((k : ℕ) → found ≡ some k → k < length s.players)
        → Returns
            (or_observer s index found)
            (λ found. (k : ℕ) → found ≡ some k → k < length s.players)
    observer (some i) inside = unfold or_observer in (some i, refl, inside)
    observer none inside =
        unfold or_observer in
        other_seat-lt is_observer s.players index s.max_clients 0 (omega arith)
