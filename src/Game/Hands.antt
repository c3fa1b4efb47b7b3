-- ===== src/Game/Hands.antt =====
-- Which players have played every card: `checking_cards`, and the scan at the end of `place_card`.
use pega_s.Prelude.{
  ℕ, zero, suc, ◌+◌, ◌≤◌, ◌<◌, ◌≡◌, ◌≢◌, refl, subst, none, some, List, arith, length, load,
  load_in_bounds, load_cases, if◌then◌else◌, Returns, ◌>>=◌, Bool, true, false, not, ◌||◌, ◌==◌,
  Bool-cases, inl, inr, ◌↔◌, Option-cases, ◌⊎◌,
}
use native.Mathlib.Decide.{ℕ_discrete}
use pega_s.Player.{Cell, Player, is_player}
use pega_s.Game.{Game, all_played, checking_cards}
use pega_s.Game.Table.{IsSeat}
use pega_s.Game.Place.{hand_empty}

-- Whether a hand of cards has been played to the end.
abbrev pub Finished : ℕ → Player → Type 0
Finished hand p =
    (cards : List Cell)
    → p.player_cards_id ≡ some cards
    → (i : ℕ) → i < hand
    → load cards i ≡ some none

-- A player that the scan of `place_card` looks at.
abbrev pub InGame : Player → Type 0
InGame p = (p.player_id ≢ 0) × (is_player p.role ≡ true)

all_played_lem :
    (cards : List Cell) (rounds i n : ℕ)
    → i + rounds ≡ n
    → n ≤ length cards
    → ((j : ℕ) → j < i → load cards j ≡ some none)
    → (b : Bool) × (all_played cards rounds i ≡ some b)
      × ((b ≡ true) ↔ ((j : ℕ) → j < n → load cards j ≡ some none))
unfolding all_played
all_played_lem cards zero i n e room before =
    let same : i ≡ n = omega arith in
    (
      true,
      refl,
      ((λ _. subst (λ k. (j : ℕ) → j < k → load cards j ≡ some none) same before), λ _. refl),
    )
all_played_lem cards (suc rounds) i n e room before = elim (load_cases cards i (omega arith)) [
  | inl h ↦ rw h (
      all_played_lem cards rounds (i + 1) n (omega arith) room
        (λ j lt. elim (ℕ_discrete j i) [ yes same ↦ rw same h | no ne ↦ before j (omega arith) ]))
  | inr (c, h) ↦
      rw h
        (false, refl, ((λ f. absurd (cc)), λ all. let empty = all i (omega arith) in absurd (cc)))
]

-- `checking_cards` does not fault on a player whose hand, if it has one, is as long as the rules
-- say, and returns true exactly when every cell of that hand is empty.
pub checking_cards_lem :
    (g : Game) (p : Player)
    → ((cards : List Cell) → p.player_cards_id ≡ some cards → g.nbr_cards_player ≤ length cards)
    → (b : Bool) × (checking_cards g p ≡ some b) × ((b ≡ true) ↔ Finished g.nbr_cards_player p)
unfolding checking_cards
checking_cards_lem g p room = elim (Option-cases p.player_cards_id) [
  | inl h ↦ rw h (true, refl, ((λ _ cards e. absurd (cc)), λ _. refl))
  | inr (cards, h) ↦
      let (b, e, iff) =
        all_played_lem cards g.nbr_cards_player 0 g.nbr_cards_player (omega arith) (room cards h)
          (λ j lt. absurd (omega arith)) in
      rw h (
        b,
        e,
        (
          (λ done others same.
              let eq : cards ≡ others = cc in
              subst (λ xs. (i : ℕ) → i < g.nbr_cards_player → load xs i ≡ some none) eq
                (iff.0 done)),
          λ all. iff.1 (all cards refl),
        ),
      )
]

-- What the scan over the players from index `i` on answers.
abbrev pub Scanned : ℕ → List Player → ℕ → ℕ → Bool → Type 0
Scanned hand ps i n true =
    (j : ℕ) × (p : Player) × (load ps j ≡ some p) × (j < n) × InGame p × Finished hand p
Scanned hand ps i n false =
    (j : ℕ) (p : Player) → i ≤ j → j < n → load ps j ≡ some p → InGame p → ¬ Finished hand p

Scanned-cons :
    (hand : ℕ) (ps : List Player) (i n : ℕ) (p : Player) (b : Bool)
    → load ps i ≡ some p
    → (InGame p → ¬ Finished hand p)
    → Scanned hand ps (i + 1) n b
    → Scanned hand ps i n b
Scanned-cons hand ps i n p true here not_now s = s
Scanned-cons hand ps i n p false here not_now s = λ j q from below at playing.
    elim (ℕ_discrete j i) [
      | yes same ↦
          let at' : load ps i ≡ some q = rw (← same) at in
          let equal : p ≡ q = cc in subst (λ r. InGame r → ¬ Finished hand r) equal not_now playing
      | no ne ↦ s j q (omega arith) below at playing
    ]

pub hand_empty-Scanned :
    (g : Game) (ps : List Player) (rounds i n : ℕ)
    → i + rounds ≡ n
    → n ≤ length ps
    → ((j : ℕ) (p : Player) → load ps j ≡ some p → IsSeat g.nbr_cards_player p)
    → Returns (hand_empty g ps rounds i) (Scanned g.nbr_cards_player ps i n)
unfolding hand_empty
hand_empty-Scanned g ps zero i n e room ok = (false, refl, λ j p from below. absurd (omega arith))
hand_empty-Scanned g ps (suc rounds) i n e room ok =
    let (p, h) = load_in_bounds ps i (omega arith) in
    let (b, later, s) = hand_empty-Scanned g ps rounds (i + 1) n (omega arith) room ok in
    rw h (player_at p h b later s (Bool-cases (p.player_id == 0 || not (is_player p.role))))
  where
    hand : ℕ
    hand = g.nbr_cards_player

    player_at :
        (p : Player)
        → load ps i ≡ some p
        → (b : Bool) → hand_empty g ps rounds (i + 1) ≡ some b
        → Scanned hand ps (i + 1) n b
        → (((p.player_id == 0 || not (is_player p.role)) ≡ true)
            ⊎ ((p.player_id == 0 || not (is_player p.role)) ≡ false))
        → Returns
            (if p.player_id == 0 || not (is_player p.role)
              then hand_empty g ps rounds (i + 1)
              else (checking_cards g p >>= λ finished. elim finished [
                | true ↦ some true
                | false ↦ hand_empty g ps rounds (i + 1)
              ]))
            (Scanned hand ps i n)
    player_at p h b later s (inl out) =
        rw out (b, later, Scanned-cons hand ps i n p b h (λ playing. absurd (ground arith)) s)
    player_at p h b later s (inr playing) =
        let in_game : InGame p = (ground arith, ground arith) in
        let (done, e', iff) =
          checking_cards_lem g p (λ cards eq. (ok i p h).1 cards eq in_game.0 in_game.1) in
        rw (playing, e')
          (elim (Bool-cases done) [
            | inl finished ↦
                rw finished (true, refl, (i, p, h, omega arith, in_game, iff.0 finished))
            | inr holds ↦ rw holds (
              b,
              later,
              Scanned-cons hand ps i n p b h (λ _ all. let f = iff.1 all in absurd (cc)) s,
            )
          ])
