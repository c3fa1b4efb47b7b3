-- ===== src/Session/Join.antt =====
-- `add_player`, on every branch.
use pega_s.Prelude.{
  ℕ, ◌+◌, ◌<◌, ◌≡◌, ◌≢◌, refl, sym, ◌∙◌, true, false, Option, none, some, List, pos, negsuc,
  minus_one, arith, length, set, get_elem?-set_self, get_elem?-set_ne, load-lt-length,
  store_in_bounds, ◌==◌, u8, Returns, inl, inr,
}
use pega_s.Player.{Cell, Role, Player, create_player}
use pega_s.Session.{
  Session, has_role, is_user, is_free, get_index_by_id, get_first_free_player_place, role_for,
  cards_for, joined, seat_client, add_at, add_player,
}
use pega_s.Session.Seats.{FirstSeat, first_seat-FirstSeat}
use pega_s.Session.Members.{
  Members, Absent, Added, role_for-has_role, create_player-id, seat_taken-Members,
}

module _ {s : Session} (m : Members s) (client_id : ℕ) (client : client_id ≢ 0) where
  pub find_user :
      Returns
        (get_index_by_id s client_id)
        (FirstSeat (is_user client_id) s.players 0 s.max_clients)
  unfolding get_index_by_id
  find_user =
      let is_client : (client_id == 0) ≡ false = ground arith in
      rw is_client (
        first_seat-FirstSeat (is_user client_id) s.players s.max_clients 0 s.max_clients
          (omega arith) (omega (arith, m.size)))

  find_free : Returns (get_first_free_player_place s) (FirstSeat is_free s.players 0 s.max_clients)
  unfolding get_first_free_player_place
  find_free =
      first_seat-FirstSeat is_free s.players s.max_clients 0 s.max_clients (omega arith)
        (omega (arith, m.size))

  pub not_found-Absent :
      FirstSeat (is_user client_id) s.players 0 s.max_clients none → Absent s client_id
  not_found-Absent missing i p at same =
      let fails =
        missing i p (omega arith) (omega (arith, load-lt-length s.players i at, m.size)) at in
      elim (m.seats i p at) [
        | inl (nobody, _) ↦ client (sym same ∙ nobody)
        | inr (_, has) ↦ absurd (ground arith)
      ]

  seat_client-Added :
      (block : Option (List Cell)) (role : Role) (i : ℕ)
      → has_role role ≡ true
      → Absent s client_id
      → FirstSeat is_free s.players 0 s.max_clients (some i)
      → Returns (seat_client block s client_id (role_for s role) i) (Added s client_id role)
  unfolding seat_client
  seat_client-Added block role i has absent (old, here, free, _, inside, _) =
      let role' = role_for s role in
      let made = (create_player old client_id (u8 (cards_for s role')) block).1 in
      let p : Player = record made { role = role'; is_connected = 1 } in
      let is_client : p.player_id ≡ client_id =
        create_player-id old client_id (u8 (cards_for s role')) block in
      let below : i < length s.players = load-lt-length s.players i here in
      rw (here, store_in_bounds s.players i p below)
        (
          (
            pos 0,
            record s {
              players = set s.players i p;
              number_clients = s.number_clients + 1;
              active_players = joined role' s.active_players;
            },
          ),
          refl,
          inr (
              inr (
                refl,
                seat_taken-Members s i old p role' m here (ground arith)
                    (λ zero_id. client (sym is_client ∙ zero_id)) refl
                    (role_for-has_role s role has)
                    (λ j q at same. absent j q at (same ∙ is_client)),
                absent,
                i,
                p,
                get_elem?-set_self s.players i p below,
                is_client,
                refl,
                refl,
                λ j other. get_elem?-set_ne s.players p other,
              )),
        )

  add_at-Added :
      (block : Option (List Cell)) (role : Role) (found free : Option ℕ)
      → has_role role ≡ true
      → FirstSeat (is_user client_id) s.players 0 s.max_clients found
      → FirstSeat is_free s.players 0 s.max_clients free
      → Returns (add_at block s client_id role found free) (Added s client_id role)
  unfolding add_at
  add_at-Added block role (some i) free has (p, at, user, _, _, _) free_seat =
      ((minus_one, s), refl, inl (refl, refl, i, p, at, ground arith))
  add_at-Added block role none none has missing full = (
    (negsuc 1, s),
    refl,
    inr (
        inl (
          refl,
          refl,
          not_found-Absent missing,
          λ i p at empty.
              let taken =
                full i p (omega arith) (omega (arith, load-lt-length s.players i at, m.size)) at in
              absurd (ground arith),
        )),
  )
  add_at-Added block role none (some i) has missing free =
      seat_client-Added block role i has (not_found-Absent missing) free

-- On a session whose counts are those of its seats, where every seat is free or has a client with a
-- role, and no client has two, `add_player` of a client's id with a role does not fault, whatever
-- malloc returns. It returns -1 and changes nothing if the client has a seat; or -2 and changes
-- nothing if the client has none and every seat is taken; or 0 if the client had none, and then the
-- client has one, with the role asked for or, once the game has started, an observer's in place of a
-- player's, the other seats are as before, there is one client more, and the session is again such a
-- one.
pub add_player-Added :
    {s : Session} (block : Option (List Cell)) (client_id : ℕ) (role : Role)
    → Members s
    → client_id ≢ 0
    → has_role role ≡ true
    → Returns (add_player block s client_id role) (Added s client_id role)
unfolding add_player
add_player-Added {s} block client_id role m client has =
    let (found, e, user) = find_user m client_id client in
    let (free, e', seat) = find_free m client_id client in
    let (r, e'', added) = add_at-Added m client_id client block role found free has user seat in
    (r, rw (e, e') e'', added)
