-- ===== src/Game/Heads.antt =====
-- The deck while `distrib_cards` numbers its cards and `melange_head` gives them their heads.
use pega_s.Prelude.{
  ℕ, zero, suc, ◌+◌, ◌-◌, ◌≤◌, ◌<◌, ◌≡◌, ◌⊎◌, refl, ap, ◌∙◌, true, false, ◌||◌, some, List, ℤ, pos,
  minus_one, arith, ltb, leb, ◌==◌, length, length-set, set, load, load_in_bounds, store_in_bounds,
  Returns, Bool-cases, inl, inr,
}
use pega_s.Game.{Card, Game}
use pega_s.Game.Deal.{first_ids, give_heads, cards_with, head_rounds, melange_head, fill_deck}
use pega_s.Game.Shuffle.{Shuffled}
use pega_s.Game.Ids.{length-ids, id_below}

pub fill_deck-length :
    (deck : List Card) (rounds i : ℕ)
    → i + rounds ≤ length deck
    → Returns (fill_deck deck rounds i) (λ d. length d ≡ length deck)
unfolding fill_deck
fill_deck-length deck zero i h = (deck, refl, refl)
fill_deck-length deck (suc rounds) i h =
    let card : Card = record { num = i + 1; number_head = 0; client_id = 0 } in
    let len = length-set deck i card in
    let (d, e, same) = fill_deck-length (set deck i card) rounds (i + 1) (omega arith) in
    (d, rw (store_in_bounds deck i card (omega arith)) e, same ∙ len)

give_step :
    (n h : ℕ) (ids : List ℕ) (deck : List Card) (rounds current id : ℕ) (card : Card)
    → ltb current n ≡ true
    → load ids current ≡ some id
    → load deck id ≡ some card
    → id < length deck
    → give_heads n h ids deck (suc rounds) current
      ≡ give_heads n h ids (set deck id (record card { number_head = h })) rounds (current + 1)
unfolding give_heads
give_step n h ids deck rounds current id card below at here inside =
    rw (below, at, here, store_in_bounds deck id (record card { number_head = h }) inside) refl

module _ (n : ℕ) {ids : List ℕ} (s : Shuffled (first_ids n 0) ids) where
  give_heads-length :
      (h : ℕ) (deck : List Card) (rounds current : ℕ)
      → length deck ≡ n
      → Returns (give_heads n h ids deck rounds current) (λ r. length r.0 ≡ n)
  give_heads-length h deck zero current len = unfold give_heads in ((deck, current), refl, len)
  give_heads-length h deck (suc rounds) current len = elim (Bool-cases (ltb current n)) [
    | inr past ↦
        let (r, e, done) = give_heads-length h deck rounds current len in
        let skipped : give_heads n h ids deck (suc rounds) current
            ≡ give_heads n h ids deck rounds current =
          unfold give_heads in rw past refl in
        (r, skipped ∙ e, done)
    | inl below ↦
        let (id, at) = load_in_bounds ids current (ground (arith, length-ids n s)) in
        let inside : id < length deck = omega (arith, id_below n s current at) in
        let (card, here) = load_in_bounds deck id inside in
        let deck' = set deck id (record card { number_head = h }) in
        let (r, e, done) =
          give_heads-length h deck' rounds (current + 1)
            (length-set deck id (record card { number_head = h }) ∙ len) in
        (r, give_step n h ids deck rounds current id card below at here inside ∙ e, done)
  ]

  head_rounds-length :
      (g : Game) (rounds h : ℕ) (deck : List Card) (current remaining : ℕ)
      → g.nbr_cards ≡ n
      → length deck ≡ n
      → Returns (head_rounds g ids rounds h deck current remaining) (λ d. length d ≡ n)
  unfolding head_rounds
  head_rounds-length g zero h deck current remaining cards len = (deck, refl, len)
  head_rounds-length g (suc rounds) h deck current remaining cards len =
      let m = cards_with g h remaining in
      let ((deck', current'), e, len') = give_heads-length h deck m current len in
      let e' : give_heads g.nbr_cards h ids deck m current ≡ some (deck', current') =
        ap (λ k. give_heads k h ids deck m current) cards ∙ e in
      let (d, last, done) =
        head_rounds-length g rounds (h + 1) deck' current' (remaining - m) cards len' in
      step deck' current' e' len' d last done (Bool-cases (leb (remaining - m) 0))
    where
      step :
          (deck' : List Card) (current' : ℕ)
          → give_heads g.nbr_cards h ids deck (cards_with g h remaining) current
            ≡ some (deck', current')
          → length deck' ≡ n
          → (d : List Card)
          → head_rounds g ids rounds (h + 1) deck' current' (remaining - cards_with g h remaining)
            ≡ some d
          → length d ≡ n
          → ((leb (remaining - cards_with g h remaining) 0 ≡ true)
              ⊎ (leb (remaining - cards_with g h remaining) 0 ≡ false))
          → Returns (head_rounds g ids (suc rounds) h deck current remaining) (λ d. length d ≡ n)
      step deck' current' e len' d last done (inl over) = rw (e, over) (deck', refl, len')
      step deck' current' e len' d last done (inr more) = rw (e, more) (d, last, done)

  -- Heads are given to the cards of the deck, and nothing else changes.
  pub melange_head-deck :
      (g : Game)
      → g.nbr_cards ≡ n
      → length g.deck ≡ n
      → (code : ℤ) × (deck : List Card) × (melange_head ids g
          ≡ some (code, record g { deck = deck }))
        × (length deck ≡ n)
  unfolding melange_head
  melange_head-deck g cards len = elim (Bool-cases ((g.nb_head == 0) || (g.nbr_cards == 0))) [
    | inl nothing ↦ (minus_one, g.deck, rw nothing refl, len)
    | inr heads ↦
        let (deck, e, len') = head_rounds-length g g.nb_head 1 g.deck 0 g.nbr_cards cards len in
        (pos 0, deck, rw (heads, e) refl, len')
  ]
