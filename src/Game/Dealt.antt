-- ===== src/Game/Dealt.antt =====
-- What `distrib_cards` puts on the board and in the hands: a prefix of the shuffled deck.
use native.Mathlib.Nat.{suc-add, zero-add}
use pega_s.Prelude.{
  ℕ, zero, suc, ◌+◌, ◌≤◌, ◌<◌, ◌≡◌, refl, sym, ap, ap₂, ◌∙◌, Bool, false, not, ◌||◌, Option, none,
  some, List, [], ◌∷◌, ◌++◌, map, append_assoc, arith, ltb, leb, ◌==◌, if◌then◌else◌, u8, length,
  length-append, length-take, length-drop, take, drop, take-append, take_all, drop-drop, set, load,
  store, store_in_bounds, Returns, Bool-cases, inl, inr,
}
use pega_s.Player.{Cell, Player, is_player}
use pega_s.Game.{Game}
use pega_s.Game.Deal.{copy_ids, deal_hand, deal_player, deal_hands}

-- The cards of some cells, in order.
abbrev pub cards_of : List Cell → List ℕ
cards_of [] = []
cards_of (none ∷ cells) = cards_of cells
cards_of (some c ∷ cells) = c ∷ cards_of cells

cards_of-append : (xs ys : List Cell) → cards_of (xs ++ ys) ≡ cards_of xs ++ cards_of ys
cards_of-append [] ys = refl
cards_of-append (none ∷ xs) ys = cards_of-append xs ys
cards_of-append (some c ∷ xs) ys = ap (◌∷◌ c) (cards_of-append xs ys)

cards_of-map-some : (ids : List ℕ) → cards_of (map some ids) ≡ ids
cards_of-map-some [] = refl
cards_of-map-some (c ∷ ids) = ap (◌∷◌ c) (cards_of-map-some ids)

length-map-some : (ids : List ℕ) → length (map {B = Cell} some ids) ≡ length ids
length-map-some [] = refl
length-map-some (c ∷ ids) = ap suc (length-map-some ids)

pub take_add : (m n : ℕ) (xs : List ℕ) → take (m + n) xs ≡ take m xs ++ take n (drop m xs)
take_add zero n xs = rw zero-add refl
take_add (suc m) n [] = rw (suc-add m n) (sym (take-nil n))
  where
    take-nil : (k : ℕ) → take {A = ℕ} k [] ≡ []
    take-nil zero = refl
    take-nil (suc k) = refl
take_add (suc m) n (x ∷ xs) = rw (suc-add m n) (ap (◌∷◌ x) (take_add m n xs))

-- The players that get no cards.
abbrev pub out : Player → Bool
out p = (p.player_id == 0) || not (is_player p.role)

abbrev share_of : ℕ → Option (List Cell) → ℕ
share_of hand none = 0
share_of hand (some cells) = hand

-- How many cards the players are to get.
abbrev pub share : ℕ → Player → ℕ
share hand p = if out p then 0 else share_of hand p.player_cards_id

abbrev pub shares : ℕ → List Player → ℕ
shares hand [] = 0
shares hand (p ∷ ps) = share hand p + shares hand ps

abbrev held_in : ℕ → Option (List Cell) → List ℕ
held_in hand none = []
held_in hand (some cells) = cards_of (take hand cells)

-- The cards in the hands of the players who get any.
abbrev pub held : ℕ → Player → List ℕ
held hand p = if out p then [] else held_in hand p.player_cards_id

abbrev pub all_held : ℕ → List Player → List ℕ
all_held hand [] = []
all_held hand (p ∷ ps) = held hand p ++ all_held hand ps

-- A hand has room for as many cards as are dealt.
abbrev pub IsHand : ℕ → Player → Type 0
IsHand hand p = (cells : List Cell) → p.player_cards_id ≡ some cells → hand ≤ length cells

abbrev pub AllHands : ℕ → List Player → Type 0
AllHands hand [] = Unit
AllHands hand (p ∷ ps) = IsHand hand p × AllHands hand ps

pub load_at :
    {A : Type 0} (front : List A) (a : A) (back : List A)
    → load (front ++ (a ∷ back)) (length front) ≡ some a
load_at [] a back = refl
load_at (x ∷ front) a back = load_at front a back

pub store_at :
    {A : Type 0} (front : List A) (a b : A) (back : List A)
    → store (front ++ (a ∷ back)) (length front) b ≡ some ((front ++ (b ∷ [])) ++ back)
store_at {A} front a b back =
    let inside : length front < length (front ++ (a ∷ back)) =
      omega (arith, length-append front (a ∷ back)) in
    store_in_bounds (front ++ (a ∷ back)) (length front) b inside ∙ ap some (set_at front)
  where
    set_at : (xs : List A) → set (xs ++ (a ∷ back)) (length xs) b ≡ (xs ++ (b ∷ [])) ++ back
    set_at [] = refl
    set_at (x ∷ xs) = ap (◌∷◌ x) (set_at xs)

module _ (g : Game) (ids : List ℕ) (small : g.nbr_cards < 256)
    (enough : g.nbr_cards ≤ length ids) where
  abbrev hand : ℕ
  hand = g.nbr_cards_player

  -- A player and `nextCards` after the player's turn.
  abbrev Got : Player → ℕ → Player × ℕ → Type 0
  Got p next (p', next') =
      (next' ≡ next + share hand p) × (held hand p' ≡ take (share hand p) (drop next ids))

  deal_hand-Got :
      (p : Player) (next : ℕ) (cards : Option (List Cell))
      → p.player_cards_id ≡ cards
      → IsHand hand p
      → out p ≡ false
      → next + share_of hand cards ≤ g.nbr_cards
      → Returns (deal_hand g ids p next cards) (Got p next)
  unfolding deal_hand copy_ids
  deal_hand-Got p next none e room playing fits =
      ((p, next), refl, (rw (playing, e) (omega arith), rw (playing, e) refl))
  deal_hand-Got p next (some cells) e room playing fits =
      let slice = take hand (drop next ids) in
      let long = room cells e in
      let ok : (ltb (length cells) hand || ltb (length ids) (next + hand)) ≡ false = ground arith in
      let cells' = map some slice ++ drop hand cells in
      let slice_length : length (map {B = Cell} some slice) ≡ hand =
        length-map-some slice
        ∙ omega (arith, length-take hand (drop next ids), length-drop next ids) in
      let word : u8 (next + hand) ≡ next + hand = omega arith in
      rw (ok, word)
        (
          (record p { player_cards_id = some cells' }, next + hand),
          refl,
          (
            rw (playing, e) refl,
            rw (playing, e)
                (ap cards_of (
                    take-append hand (map some slice) (drop hand cells) (omega arith)
                    ∙ take_all hand (map some slice) (omega arith))
                  ∙ cards_of-map-some slice),
          ),
        )

  -- A player for whom there are not enough cards left is to get none.
  passed-Got :
      (p : Player) (next : ℕ) (cards : Option (List Cell))
      → p.player_cards_id ≡ cards
      → out p ≡ false
      → next + share_of hand cards ≤ g.nbr_cards
      → leb (next + hand) g.nbr_cards ≡ false
      → Got p next (p, next)
  passed-Got p next none e playing fits late = (rw (playing, e) (omega arith), rw (playing, e) refl)
  passed-Got p next (some cells) e playing fits late = absurd (ground arith)

  deal_player-Got :
      (p : Player) (next : ℕ)
      → IsHand hand p
      → next + share hand p ≤ g.nbr_cards
      → Returns (deal_player g ids p next) (Got p next)
  unfolding deal_player
  deal_player-Got p next room fits = elim (Bool-cases (out p)) [
    | inl excluded ↦ rw excluded ((p, next), refl, (omega arith, rw excluded refl))
    | inr playing ↦
        let to_get : share hand p ≡ share_of hand p.player_cards_id = rw playing refl in
        let fits' : next + share_of hand p.player_cards_id ≤ g.nbr_cards = omega arith in
        elim (Bool-cases (leb (next + hand) g.nbr_cards)) [
          | inl left ↦
              let step : deal_player g ids p next ≡ deal_hand g ids p next p.player_cards_id =
                rw (playing, left) refl in
              let (r, e, got) = deal_hand-Got p next p.player_cards_id refl room playing fits' in
              (r, step ∙ e, got)
          | inr late ↦
              let step : deal_player g ids p next ≡ some (p, next) = rw (playing, late) refl in
              ((p, next), step, passed-Got p next p.player_cards_id refl playing fits' late)
        ]
  ]

  -- The players from an index on after their turns.
  abbrev pub AllGot : List Player → List Player → ℕ → List Player × ℕ → Type 0
  AllGot front back next (ps', next') =
      (next' ≡ next + shares hand back)
      × (back' : List Player) × (ps' ≡ front ++ back')
      × (all_held hand back' ≡ take (shares hand back) (drop next ids))

  pub deal_hands-AllGot :
      (front back : List Player) (next i : ℕ)
      → i ≡ length front
      → AllHands hand back
      → next + shares hand back ≤ g.nbr_cards
      → Returns (deal_hands g ids (front ++ back) next (length back) i) (AllGot front back next)
  unfolding deal_hands
  deal_hands-AllGot front [] next i e room fits =
      ((front ++ [], next), refl, (omega arith, [], refl, refl))
  deal_hands-AllGot front (p ∷ back) next i e room fits =
      let ((p', next'), dealt, (count, cards)) = deal_player-Got p next room.0 (omega arith) in
      let ((ps', last), rest, (total, back', split, later)) =
        deal_hands-AllGot (front ++ (p' ∷ [])) back next' (i + 1)
          (omega (arith, length-append front (p' ∷ []))) room.1 (omega arith) in
      rw (e, load_at front p back, dealt, store_at front p p' back)
        (
          (ps', last),
          rw (← e) rest,
          (
            omega arith,
            p' ∷ back',
            split ∙ append_assoc front (p' ∷ []) back',
            ap₂ (λ (xs ys : List ℕ). xs ++ ys) cards
                  (later
                    ∙ rw count
                        (ap (take (shares hand back)) (sym (drop-drop (share hand p) next ids))))
                ∙ sym (take_add (share hand p) (shares hand back) (drop next ids)),
          ),
        )
