-- ===== src/Session/Remove.antt =====
-- `remove_player` frees one seat.
use pega_s.Prelude.{
  ℕ, ◌+◌, ◌<◌, ◌≡◌, ◌≢◌, ◌⊎◌, refl, sym, ap, subst, ◌∙◌, Option, none, some, List, map, ltb, ◌==◌,
  ◌&&◌, if◌then◌else◌, arith, length, length-set, load, set, load_in_bounds, store_in_bounds,
  load-lt-length, load-set_cases, ◌>>=◌, Returns, Bool-cases, inl, inr,
}
use pega_s.Player.{Player, is_player, cleanup_player}
use pega_s.Game.Table.{IsSeat as IsHandSeat}
use pega_s.Game.Frame.{core, SamePlayers}
use pega_s.Session.{Session, is_user}
use pega_s.Session.Sound.{Sound}
use pega_s.Session.Turn.{same_player}
use pega_s.Session.Seats.{FirstSeat}
use pega_s.Session.Join.{find_user, not_found-Absent}
use pega_s.Session.Members.{one, number-set, is_taken, in_game, Members, Absent}
use pega_s.Session.Removed.{player_gone-Continued, Recreated, new_creator-Recreated}
use pega_s.Session.Leave.{less_one, player_gone, free_seat, remove_at, remove_player}
use pega_s.Session.Roster.{
  number-same, number-le-length, Roster, id_core, Roster-same, freed, freed_at, Roster-freed,
  less_one-suc,
}

-- What `remove_player` leaves behind.
abbrev pub Gone : Session → ℕ → Session → Type 0
Gone s client_id s' =
    (Absent s client_id × (s' ≡ s))
    ⊎ ((i : ℕ) × (p : Player) × (load s.players i ≡ some p)
        × (p.player_id ≡ client_id)
        × Absent s' client_id
        × (s'.number_clients + 1 ≡ s.number_clients)
        × (s'.active_players + one (is_player p.role) ≡ s.active_players)
        × ((j : ℕ) (q' : Player)
            → i ≢ j
            → load s'.players j ≡ some q'
            → (q : Player) × (load s.players j ≡ some q) × (core q ≡ core q')))

module _ (s : Session) (m : Members s) (client_id i : ℕ) (p : Player) (client : client_id ≢ 0)
    (at : load s.players i ≡ some p) (is_client : p.player_id ≡ client_id)
    -- The session before the seat is freed.
    (t : Session) (v : Sound t) (players : SamePlayers s.players t.players)
    (clients : t.number_clients ≡ s.number_clients) (capacity : t.max_clients ≡ s.max_clients)
    (active : t.active_players + one (is_player p.role) ≡ s.active_players) where
  emptied : Player → Session
  emptied p' = record t {
    players = set t.players i (freed p');
    number_clients = less_one t.number_clients;
  }

  module _ (p' : Player) (at' : load t.players i ≡ some p') (same : core p ≡ core p') where
    roster : Roster t.players
    roster = Roster-same s.players t.players players (record { seats = m.seats; unique = m.unique })

    emptied-Sound : Sound (emptied p')
    unfolding emptied cleanup_player
    emptied-Sound = record {
      table = record {
        seats = length-set t.players i (freed p') ∙ v.table.seats;
        ready = v.table.ready;
        small = v.table.small;
        lines = v.table.lines;
        wide = v.table.wide;
        cells = v.table.cells;
        dealt = v.table.dealt;
        board_ok = v.table.board_ok;
        ready_ok = v.table.ready_ok;
        seats_ok = λ j q at_j. elim (load-set_cases t.players i j at_j) [
          | inl (_, e) ↦
              subst (IsHandSeat t.game.nbr_cards_player) e
                ((v.table.seats_ok i p' at').0, λ cards has taken. absurd (taken refl))
          | inr before ↦ v.table.seats_ok j q before
        ];
      };
      queue = v.queue;
      hands = λ j q at_j plays. elim (freed_at t.players i p' at' roster j q at_j) [
        | inl (_, nobody, _) ↦ absurd (ground arith)
        | inr (_, before) ↦ v.hands j q before plays
      ];
    }

    was_taken : one (is_taken p') ≡ 1
    was_taken =
        let taken : p'.player_id ≢ 0 = λ free. client (sym is_client ∙ id_core p p' same ∙ free) in
        ground arith

    now_free : one (is_taken (freed p')) ≡ 0
    unfolding cleanup_player
    now_free = refl

    clients_left : less_one t.number_clients + 1 ≡ s.number_clients
    clients_left =
        let old = number-same is_taken s.players t.players (λ q. refl) players in
        let low = number-le-length is_taken s.players in
        let step = number-set is_taken t.players i (freed p') at' in
        let seated = m.seated in
        let size = m.size in
        let small = v.table.small in
        let some_client : 0 < s.number_clients = omega (arith, was_taken, now_free) in
        rw clients (less_one-suc s.number_clients some_client (omega arith))

    emptied-Members : Members (emptied p')
    unfolding emptied cleanup_player
    emptied-Members =
        let r = Roster-freed t.players i p' at' roster in
        record {
          size = length-set t.players i (freed p') ∙ v.table.seats;
          seated =
              let old = number-same is_taken s.players t.players (λ q. refl) players in
              let step = number-set is_taken t.players i (freed p') at' in
              omega (arith, m.seated, was_taken, now_free, clients_left);
          playing =
              let old = number-same in_game s.players t.players (λ q. refl) players in
              let step = number-set in_game t.players i (freed p') at' in
              let role : one (is_player p.role) ≡ one (is_player p'.role) =
                ap (λ (q : Player). one (is_player q.role)) same in
              omega (arith, m.playing);
          seats = r.seats;
          unique = r.unique;
        }

    emptied-Gone : Gone s client_id (emptied p')
    unfolding emptied
    emptied-Gone = inr (
      i,
      p,
      at,
      is_client,
      λ j q at_j equal. elim (freed_at t.players i p' at' roster j q at_j) [
        | inl (zero_id, _, _) ↦ client (sym equal ∙ zero_id)
        | inr (ne, before) ↦ ne (
            roster.unique i j p' q at' before (sym (id_core p p' same) ∙ is_client ∙ sym equal)
              (λ free. client (sym is_client ∙ id_core p p' same ∙ free)))
      ],
      clients_left,
      active,
      λ j q' ne at_j. elim (freed_at t.players i p' at' roster j q' at_j) [
        | inl (_, _, equal) ↦ absurd (ne equal)
        | inr (_, before) ↦ same_player s.players t.players j q' players before
      ],
    )

    freed_seat : Returns (free_seat t i) (λ s'. Sound s' × Members s' × Gone s client_id s')
    unfolding free_seat emptied
    freed_seat =
        rw (at', store_in_bounds t.players i (freed p') (load-lt-length t.players i at'))
          (emptied p', refl, (emptied-Sound, emptied-Members, emptied-Gone))

module _ (s : Session) (m : Members s) (v : Sound s) (client_id : ℕ) (client : client_id ≢ 0) where
  -- The seat is freed, whatever happened to the creator.
  removed_from :
      (i : ℕ) (p : Player) (s₁ : Session)
      → load s.players i ≡ some p
      → p.player_id ≡ client_id
      → Recreated s s₁
      → Returns
          ((if is_player p.role then player_gone s₁ i else some s₁) >>= λ t. free_seat t i)
          (λ s'. Sound s' × Members s' × Gone s client_id s')
  removed_from i p s₁ at is_client (creator, made) =
      let v₁ : Sound s₁ =
        subst Sound (sym made) (record { table = v.table; queue = v.queue; hands = v.hands }) in
      let players₁ : s₁.players ≡ s.players = ap (λ (x : Session). x.players) made in
      let clients₁ : s₁.number_clients ≡ s.number_clients =
        ap (λ (x : Session). x.number_clients) made in
      let active₁ : s₁.active_players ≡ s.active_players =
        ap (λ (x : Session). x.active_players) made in
      let capacity₁ : s₁.max_clients ≡ s.max_clients = ap (λ (x : Session). x.max_clients) made in
      elim (Bool-cases (is_player p.role)) [
        | inr watches ↦
            let at₁ : load s₁.players i ≡ some p = rw players₁ at in
            let none_less : s₁.active_players + one (is_player p.role) ≡ s.active_players =
              rw watches (omega (arith, active₁)) in
            rw watches (
              freed_seat s m client_id i p client at is_client s₁ v₁ (ap (map core) players₁)
                clients₁ capacity₁ none_less p at₁ refl)
        | inl plays ↦
            let inside : i < length s.players = load-lt-length s.players i at in
            let size₁ = ap (λ (ps : List Player). length ps) players₁ in
            let (t, e, (v', (players, clients, active, capacity))) =
              player_gone-Continued s₁ i v₁ (omega arith) in
            let whole : SamePlayers s.players t.players = players ∙ ap (map core) players₁ in
            let sizes = v'.table.seats in
            let size = v₁.table.seats in
            let (p', at') = load_in_bounds t.players i (omega arith) in
            let (q, at_q, equal) = same_player s.players t.players i p' whole at' in
            let mine : p ≡ q = cc in
            let one_player : 0 < s.active_players =
              let step = number-set in_game s.players i (freed p) at in
              let role : one (in_game p) ≡ 1 = ap one plays in
              omega (arith, m.playing, role, none_playing p) in
            let few : s.active_players < 18446744073709551616 = omega (
              arith,
              m.playing,
              number-le-length in_game s.players,
              v.table.seats,
              v.table.small,
            ) in
            let less : less_one s₁.active_players + 1 ≡ s.active_players =
              rw active₁ (less_one-suc s.active_players one_player few) in
            let one_less' : t.active_players + one (is_player p.role) ≡ s.active_players =
              rw plays (omega (arith, active, less)) in
            let (s', e', done) =
              freed_seat s m client_id i p client at is_client t v' whole (clients ∙ clients₁)
                (capacity ∙ capacity₁) one_less' p' at' (ap core mine ∙ equal) in
            rw (plays, e) (s', e', done)
      ]
    where
      none_playing : (p : Player) → one (in_game (freed p)) ≡ 0
      none_playing p = refl

  found_Gone :
      (found : Option ℕ)
      → FirstSeat (is_user client_id) s.players 0 s.max_clients found
      → Returns (remove_at s client_id found) (λ s'. Sound s' × Members s' × Gone s client_id s')
  unfolding remove_at
  found_Gone none missing =
      (s, refl, (v, m, inl (not_found-Absent m client_id client missing, refl)))
  found_Gone (some i) (p, at, user, _, _, _) =
      let is_client : p.player_id ≡ client_id = ground arith in
      elim (Bool-cases (client_id == s.id_creator && ltb 1 s.number_clients)) [
        | inr stays ↦ rw (at, stays) (removed_from i p s at is_client (s.id_creator, refl))
        | inl goes ↦
            let (s₁, e, made) = new_creator-Recreated s i (omega (arith, m.size)) in
            rw (at, goes, e) (removed_from i p s₁ at is_client made)
      ]

-- On a sound session whose counts are those of its seats, where every seat is free or has a client
-- with a role, and no client has two, `remove_player` of a client's id does not fault, and leaves
-- such a session, although the game may go on without the client. A client without a seat changes
-- nothing. Otherwise no seat is the client's any more, there is one client less, and one player less
-- if it was one, and every other seat is as before, up to the heads.
pub remove_player-Gone :
    (s : Session) (client_id : ℕ)
    → Members s
    → Sound s
    → client_id ≢ 0
    → Returns (remove_player s client_id) (λ s'. Sound s' × Members s' × Gone s client_id s')
unfolding remove_player
remove_player-Gone s client_id m v client =
    let (found, e, user) = find_user m client_id client in
    rw e (found_Gone s m v client_id client found user)
