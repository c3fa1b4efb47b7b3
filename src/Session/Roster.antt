-- ===== src/Session/Roster.antt =====
-- The seats when one of them is freed.
use native.Mathlib.Decide.{ℕ_discrete}
use pega_s.Prelude.{
  ℕ, ◌+◌, ◌≤◌, ◌<◌, ◌≡◌, ◌≢◌, ◌⊎◌, refl, sym, ap, ap₂, subst, ◌∙◌, Bool, some, List, [], ◌∷◌, map,
  arith, length, load, set, load-lt-length, get_elem?-set_self, get_elem?-set_ne, Bool-cases, inl,
  inr,
}
use pega_s.Player.{Role, Player, cleanup_player}
use pega_s.Game.Frame.{core, SamePlayers}
use pega_s.Session.Turn.{same_player}
use pega_s.Session.Members.{one, number, IsSeat}
use pega_s.Session.Leave.{less_one}

number-core :
    (test : Player → Bool) (ps : List Player)
    → ((p : Player) → test (core p) ≡ test p)
    → number test (map core ps) ≡ number test ps
unfolding number
number-core test [] blind = refl
number-core test (p ∷ ps) blind =
    ap₂ (λ (b : Bool) (n : ℕ). one b + n) (blind p) (number-core test ps blind)

pub number-same :
    (test : Player → Bool) (ps ps' : List Player)
    → ((p : Player) → test (core p) ≡ test p)
    → SamePlayers ps ps'
    → number test ps' ≡ number test ps
number-same test ps ps' blind same =
    sym (number-core test ps' blind) ∙ ap (number test) same ∙ number-core test ps blind

pub number-le-length : (test : Player → Bool) (ps : List Player) → number test ps ≤ length ps
unfolding number
number-le-length test [] = omega arith
number-le-length test (p ∷ ps) = elim (Bool-cases (test p)) [
  | inl yes_it ↦ rw yes_it (omega (arith, number-le-length test ps))
  | inr not_it ↦ rw not_it (omega (arith, number-le-length test ps))
]

-- The seats of `Members`, without the counts.
pub record Roster (ps : List Player) : Type 0 where
  pub seats : (i : ℕ) (p : Player) → load ps i ≡ some p → IsSeat p
  pub unique :
      (i j : ℕ) (p q : Player)
      → load ps i ≡ some p
      → load ps j ≡ some q
      → p.player_id ≡ q.player_id
      → p.player_id ≢ 0
      → i ≡ j

pub id_core : (p q : Player) → core p ≡ core q → p.player_id ≡ q.player_id
id_core p q e = ap (λ (r : Player). r.player_id) e

pub Roster-same : (ps ps' : List Player) → SamePlayers ps ps' → Roster ps → Roster ps'
Roster-same ps ps' same r = record {
  seats = λ i p' at.
      let (p, at₀, e) = same_player ps ps' i p' same at in
      subst (λ (q : Player). IsSeat q) e (r.seats i p at₀);
  unique = λ i j p' q' at_i at_j equal taken.
      let (p, at_p, e) = same_player ps ps' i p' same at_i in
      let (q, at_q, e') = same_player ps ps' j q' same at_j in
      r.unique i j p q at_p at_q (id_core p p' e ∙ equal ∙ sym (id_core q q' e'))
        (λ free. taken (sym (id_core p p' e) ∙ free));
}

abbrev pub freed : Player → Player
freed p = record (cleanup_player p) { role = Role.nobody; is_connected = 0 }

freed_id : (p : Player) → (freed p).player_id ≡ 0
unfolding cleanup_player
freed_id p = refl

module _ (ps : List Player) (i : ℕ) (p : Player) (at : load ps i ≡ some p) (r : Roster ps) where
  -- What is at another seat was there before, and the seat itself is free.
  pub freed_at :
      (j : ℕ) (q : Player)
      → load (set ps i (freed p)) j ≡ some q
      → (q.player_id ≡ 0) × (q.role ≡ Role.nobody) × (i ≡ j) ⊎ ((i ≢ j) × (load ps j ≡ some q))
  unfolding cleanup_player
  freed_at j q at_j = elim (ℕ_discrete i j) [
    | yes same ↦
        let here : load (set ps i (freed p)) i ≡ some q =
          subst (λ (k : ℕ). load (set ps i (freed p)) k ≡ some q) (sym same) at_j in
        let there = get_elem?-set_self ps i (freed p) (load-lt-length ps i at) in
        let equal : freed p ≡ q = cc in
        inl (
          sym (ap (λ (x : Player). x.player_id) equal) ∙ freed_id p,
          sym (ap (λ (x : Player). x.role) equal),
          same,
        )
    | no ne ↦ inr (ne, sym (get_elem?-set_ne ps (freed p) ne) ∙ at_j)
  ]

  pub Roster-freed : Roster (set ps i (freed p))
  Roster-freed = record {
    seats = λ j q at_j. elim (freed_at j q at_j) [
      | inl (zero_id, nobody, _) ↦ inl (zero_id, nobody)
      | inr (_, before) ↦ r.seats j q before
    ];
    unique = λ j k q q' at_j at_k equal taken. elim (freed_at j q at_j) [
      | inl (zero_id, _, _) ↦ absurd (taken zero_id)
      | inr (_, before) ↦ elim (freed_at k q' at_k) [
        | inl (zero_id, _, _) ↦ absurd (taken (equal ∙ zero_id))
        | inr (_, before') ↦ r.unique j k q q' before before' equal taken
      ]
    ];
  }

pub less_one-suc : (n : ℕ) → 0 < n → n < 18446744073709551616 → less_one n + 1 ≡ n
less_one-suc n positive small = omega arith
