-- ===== src/Session/Members.antt =====
-- Who has a seat in a session, and what `add_player` does to it.
use pega_s.Prelude.{
  ℕ, zero, suc, ◌+◌, ◌≡◌, ◌≢◌, ◌⊎◌, refl, sym, ap, subst, ◌∙◌, Bool, true, false, not, ◌&&◌, Option,
  none, some, List, [], ◌∷◌, ℤ, pos, negsuc, minus_one, arith, length, load, set, length-set,
  load-set_cases, Bool-cases, inl, inr,
}
use pega_s.Player.{Cell, Role, Player, is_player, create_player}
use pega_s.Session.{Session, has_role, started, is_free, role_for, joined}

abbrev pub one : Bool → ℕ
one true = 1
one false = 0

-- How many seats pass a test.
unfoldable pub number : (Player → Bool) → List Player → ℕ
number test [] = 0
number test (p ∷ ps) = one (test p) + number test ps

pub number-set :
    (test : Player → Bool) (ps : List Player) (i : ℕ) {old : Player} (p : Player)
    → load ps i ≡ some old
    → number test (set ps i p) + one (test old) ≡ number test ps + one (test p)
unfolding number
number-set test [] i p h = absurd (cc)
number-set test (q ∷ ps) zero {old} p h =
    let same : q ≡ old = cc in
    let ones : one (test q) ≡ one (test old) = ap (λ r. one (test r)) same in omega arith
number-set test (q ∷ ps) (suc i) p h = omega (arith, number-set test ps i p h)

abbrev pub is_taken : Player → Bool
is_taken p = not (is_free p)

abbrev pub in_game : Player → Bool
in_game p = is_player p.role

-- A seat is free, or a client with a role has it.
abbrev pub IsSeat : Player → Type 0
IsSeat p =
    ((p.player_id ≡ 0) × (p.role ≡ Role.nobody)) ⊎ ((p.player_id ≢ 0) × (has_role p.role ≡ true))

pub record Members (s : Session) : Type 0 where
  pub size : length s.players ≡ s.max_clients
  pub seated : s.number_clients ≡ number is_taken s.players
  pub playing : s.active_players ≡ number in_game s.players
  pub seats : (i : ℕ) (p : Player) → load s.players i ≡ some p → IsSeat p
  pub unique :
      (i j : ℕ) (p q : Player)
      → load s.players i ≡ some p
      → load s.players j ≡ some q
      → p.player_id ≡ q.player_id
      → p.player_id ≢ 0
      → i ≡ j

-- No seat is the client's.
abbrev pub Absent : Session → ℕ → Type 0
Absent s client_id = (i : ℕ) (p : Player) → load s.players i ≡ some p → p.player_id ≢ client_id

-- What `add_player` leaves behind.
abbrev pub Added : Session → ℕ → Role → ℤ × Session → Type 0
Added s client_id role (code, s') =
    ((code ≡ minus_one)
      × (s' ≡ s)
      × (i : ℕ) × (p : Player) × (load s.players i ≡ some p)
      × (p.player_id ≡ client_id))
    ⊎ ((code ≡ negsuc 1)
        × (s' ≡ s)
        × Absent s client_id
        × ((i : ℕ) (p : Player) → load s.players i ≡ some p → p.player_id ≢ 0))
    ⊎ ((code ≡ pos 0)
        × Members s'
        × Absent s client_id
        × (i : ℕ) × (p : Player) × (load s'.players i ≡ some p)
        × (p.player_id ≡ client_id)
        × (p.role ≡ role_for s role)
        × (s'.number_clients ≡ s.number_clients + 1)
        × ((j : ℕ) → i ≢ j → load s'.players j ≡ load s.players j))

pub role_for-has_role :
    (s : Session) (role : Role) → has_role role ≡ true → has_role (role_for s role) ≡ true
unfolding role_for
role_for-has_role s role h = elim (Bool-cases (is_player role && started s.game.game_state)) [
  | inl late ↦ rw late refl
  | inr in_time ↦ rw in_time h
]

joined_lem : (role : Role) (n : ℕ) → joined role n ≡ n + one (is_player role)
joined_lem Role.player n = refl
joined_lem Role.observer n = omega arith
joined_lem Role.nobody n = omega arith

pub create_player-id :
    (p : Player) (client_id n : ℕ) (block : Option (List Cell))
    → (create_player p client_id n block).1.player_id ≡ client_id
unfolding create_player
create_player-id p client_id n none = ground arith
create_player-id p client_id n (some cells) = ground arith

-- A session in which a client has taken a free seat.
pub seat_taken-Members :
    (s : Session) (i : ℕ) (old p : Player) (role : Role)
    → Members s
    → load s.players i ≡ some old
    → old.player_id ≡ 0
    → p.player_id ≢ 0
    → p.role ≡ role
    → has_role role ≡ true
    → Absent s p.player_id
    → Members (record s {
      players = set s.players i p;
      number_clients = s.number_clients + 1;
      active_players = joined role s.active_players;
    })
seat_taken-Members s i old p role m here free client is_role has absent = record {
  size = length-set s.players i p ∙ m.size;
  seated =
      let was : one (is_taken old) ≡ 0 = ground arith in
      let now : one (is_taken p) ≡ 1 = ground arith in
      omega (arith, m.seated, number-set is_taken s.players i p here);
  playing =
      let was : one (in_game old) ≡ 0 = elim (m.seats i old here) [
        | inl (_, nobody) ↦ rw nobody refl
        | inr (taken, _) ↦ absurd (taken free)
      ] in
      let now : one (in_game p) ≡ one (is_player role) = ap (λ r. one (is_player r)) is_role in
      omega
        (arith, m.playing, joined_lem role s.active_players, number-set in_game s.players i p here);
  seats = λ j q at. elim (load-set_cases s.players i j at) [
    | inl (_, same) ↦ subst IsSeat same (inr (client, rw is_role has))
    | inr before ↦ m.seats j q before
  ];
  unique = λ j k q r at_j at_k same taken. elim (load-set_cases s.players i j at_j) [
    | inl (here_j, p_q) ↦ elim (load-set_cases s.players i k at_k) [
      | inl (here_k, _) ↦ sym here_j ∙ here_k
      | inr before_k ↦ absurd (absent k r before_k (sym same ∙ sym (ap (λ x. x.player_id) p_q)))
    ]
    | inr before_j ↦ elim (load-set_cases s.players i k at_k) [
      | inl (_, p_r) ↦ absurd (absent j q before_j (same ∙ sym (ap (λ x. x.player_id) p_r)))
      | inr before_k ↦ m.unique j k q r before_j before_k same taken
    ]
  ];
}
