-- ===== src/Game/Visible.antt =====
-- The card that a client names by its place among the cards it still has:
-- `get_real_index_from_visible` of Session/Game/game_packet.c.
use native.Mathlib.Nat.{suc-add}
use pega_s.Prelude.{
  ℕ, zero, suc, ◌+◌, ◌≤◌, ◌<◌, ◌≡◌, refl, Option, none, some, List, [], ◌∷◌, arith, length, load,
  load_cases, ◌==◌, if◌then◌else◌, ◌>>=◌, Returns, Bool-cases, inl, inr,
}
use pega_s.Player.{Cell}

-- The rounds left, the index `i`, and `v`; none for -1.
unfoldable pub visible_from : List Cell → ℕ → ℕ → ℕ → ℕ → Option (Option ℕ)
visible_from cards visible_idx zero i v = some none
visible_from cards visible_idx (suc rounds) i v = do
  c ← load cards i
  let skipped = visible_from cards visible_idx rounds (i + 1) v
  let passed = visible_from cards visible_idx rounds (i + 1) (v + 1)
  elim c [ none ↦ skipped | some _ ↦ if v == visible_idx then some (some i) else passed ]

unfoldable pub get_real_index_from_visible : List Cell → ℕ → ℕ → Option (Option ℕ)
get_real_index_from_visible cards len visible_idx = visible_from cards visible_idx len 0 0

-- How many cards there are before an index.
unfoldable pub cards_before : List Cell → ℕ → ℕ
cards_before cards zero = 0
cards_before [] (suc n) = 0
cards_before (none ∷ cards) (suc n) = cards_before cards n
cards_before (some c ∷ cards) (suc n) = cards_before cards n + 1

-- What the search finds: a card with as many cards before it, or fewer cards than that.
abbrev pub Visible : List Cell → ℕ → ℕ → Option ℕ → Type 0
Visible cards len visible_idx none = cards_before cards len ≤ visible_idx
Visible cards len visible_idx (some k) =
    (c : ℕ) × (load cards k ≡ some (some c)) × (k < len) × (cards_before cards k ≡ visible_idx)

cards_before-none :
    (cards : List Cell) (i : ℕ)
    → load cards i ≡ some none
    → cards_before cards (i + 1) ≡ cards_before cards i
unfolding cards_before
cards_before-none [] i h = absurd (cc)
cards_before-none (none ∷ cards) zero h = refl
cards_before-none (some c ∷ cards) zero h = absurd (cc)
cards_before-none (none ∷ cards) (suc i) h = rw (suc-add i 1) (cards_before-none cards i h)
cards_before-none (some c ∷ cards) (suc i) h =
    rw (suc-add i 1) (omega (arith, cards_before-none cards i h))

cards_before-some :
    (cards : List Cell) (i : ℕ) {c : ℕ}
    → load cards i ≡ some (some c)
    → cards_before cards (i + 1) ≡ cards_before cards i + 1
unfolding cards_before
cards_before-some [] i h = absurd (cc)
cards_before-some (none ∷ cards) zero h = absurd (cc)
cards_before-some (some c ∷ cards) zero h = refl
cards_before-some (none ∷ cards) (suc i) h = rw (suc-add i 1) (cards_before-some cards i h)
cards_before-some (some c ∷ cards) (suc i) h =
    rw (suc-add i 1) (omega (arith, cards_before-some cards i h))

visible_from-Visible :
    (cards : List Cell) (visible_idx rounds i v len : ℕ)
    → i + rounds ≡ len
    → len ≤ length cards
    → v ≡ cards_before cards i
    → v ≤ visible_idx
    → Returns (visible_from cards visible_idx rounds i v) (Visible cards len visible_idx)
unfolding visible_from
visible_from-Visible cards visible_idx zero i v len e room seen before =
    let same : i ≡ len = omega arith in (none, refl, rw (← same) (omega arith))
visible_from-Visible cards visible_idx (suc rounds) i v len e room seen before =
    elim (load_cases cards i (omega arith)) [
      | inl h ↦ rw h (
          visible_from-Visible cards visible_idx rounds (i + 1) v len (omega arith) room
            (omega (arith, cards_before-none cards i h)) before)
      | inr (c, h) ↦ rw h (elim (Bool-cases (v == visible_idx)) [
        | inl here ↦
            let same : v ≡ visible_idx = ground arith in
            rw here (some i, refl, (c, h, omega arith, omega arith))
        | inr later ↦ rw later (
            visible_from-Visible cards visible_idx rounds (i + 1) (v + 1) len (omega arith) room
              (omega (arith, cards_before-some cards i h)) (ground arith))
      ])
    ]

-- Over as many cells as there are at least, `get_real_index_from_visible` does not fault, and finds
-- the cell of a card that has as many cards before it as asked; it finds none only if there are at
-- most that many cards.
pub get_real_index_from_visible-Visible :
    (cards : List Cell) (len visible_idx : ℕ)
    → len ≤ length cards
    → Returns (get_real_index_from_visible cards len visible_idx) (Visible cards len visible_idx)
unfolding get_real_index_from_visible
get_real_index_from_visible-Visible cards len visible_idx room =
    visible_from-Visible cards visible_idx len 0 0 len (omega arith) room
      (unfold cards_before in refl) (omega arith)
