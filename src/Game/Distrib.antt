-- ===== src/Game/Distrib.antt =====
-- The whole of `distrib_cards`.
use pega_s.Prelude.{
  ℕ, ◌+◌, ◌*◌, ◌≤◌, ◌<◌, ◌≡◌, refl, sym, ap, ap₂, ◌∙◌, true, some, List, [], ◌++◌, ℤ, pos, Option,
  arith, length, length-take, take, drop, Returns,
}
use pega_s.Player.{Cell, Player}
use pega_s.Game.{Card, State, Game}
use pega_s.Game.Deal.{
  first_ids, melange_ids, melange_head, deal, distrib_cards, deal_board, deal_hands,
}
use pega_s.Game.Shuffle.{Shuffled, Shuffled-trans, count, melange_ids-Shuffled}
use pega_s.Game.Ids.{length-first_ids, length-ids, take_once, take_below}
use pega_s.Game.Heads.{fill_deck-length, melange_head-deck}
use pega_s.Game.Dealt.{cards_of, take_add, shares, all_held, AllHands, deal_hands-AllGot}
use pega_s.Game.Board.{starts, starts-rows, deal_board-Laid}

-- What dealing needs of the blocks: the deck, the board and the hands have the sizes that the rules
-- give, and there are cards for every row and every hand.
pub record CanDeal (g : Game) (ps : List Player) : Type 0 where
  pub dealt : length g.deck ≡ g.nbr_cards
  pub byte : g.nbr_cards < 256
  pub wide : 0 < g.nbr_cards_lign
  pub cells : length g.board ≡ g.nbr_cards_lign * g.nbr_lign
  pub hands : AllHands g.nbr_cards_player ps
  pub enough : g.nbr_lign + shares g.nbr_cards_player ps ≤ g.nbr_cards

-- The cards on the board and then those in the hands.
abbrev pub all_dealt : Game → List Player → List ℕ
all_dealt g ps = cards_of g.board ++ all_held g.nbr_cards_player ps

-- How `distrib_cards` ends.
abbrev pub Distributed : Game → List Player → ℤ × Game × List Player → Type 0
Distributed g ps (code, g', ps') =
    let n = g.nbr_lign + shares g.nbr_cards_player ps in
    (code ≡ pos 0)
    × (g'.game_state ≡ State.waiting)
    × (g'.next_cards ≡ n)
    × (length g'.board ≡ length g.board)
    × (length (all_dealt g' ps') ≡ n)
    × ((x : ℕ) → count x (all_dealt g' ps') ≤ 1)
    × ((x : ℕ) → 0 < count x (all_dealt g' ps') → x < g.nbr_cards)

-- The parts put together.
finish :
    (g : Game) (ps : List Player) (ids : List ℕ) (deck : List Card) (board : List Cell)
    (ps' : List Player)
    → g.nbr_lign + shares g.nbr_cards_player ps ≤ g.nbr_cards
    → Shuffled (first_ids g.nbr_cards 0) ids
    → length board ≡ length g.board
    → cards_of board ≡ take g.nbr_lign ids
    → all_held g.nbr_cards_player ps' ≡ take (shares g.nbr_cards_player ps) (drop g.nbr_lign ids)
    → Distributed g ps (
      pos 0,
      record g {
        deck = deck;
        board = board;
        next_cards = g.nbr_lign + shares g.nbr_cards_player ps;
        game_state = State.waiting;
      },
      ps',
    )
finish g ps ids deck board ps' enough s len on_board in_hands =
    let m = g.nbr_lign + shares g.nbr_cards_player ps in
    let prefix : cards_of board ++ all_held g.nbr_cards_player ps' ≡ take m ids =
      ap₂ (λ (xs ys : List ℕ). xs ++ ys) on_board in_hands
      ∙ sym (take_add g.nbr_lign (shares g.nbr_cards_player ps) ids) in
    (
      refl,
      refl,
      refl,
      len,
      ap length prefix ∙ omega (arith, length-take m ids, length-ids g.nbr_cards s),
      λ x. rw prefix (take_once g.nbr_cards s x m),
      λ x. rw prefix (take_below g.nbr_cards s x m),
    )

deal-Distributed :
    (random₁ random₂ : ℕ → Option ℕ) (g : Game) (ps : List Player)
    → CanDeal g ps
    → Returns (deal random₁ random₂ g ps (length ps)) (Distributed g ps)
unfolding deal
deal-Distributed random₁ random₂ g ps c =
    let n = g.nbr_cards in
    let ids₀ = first_ids n 0 in
    let ((code₁, ids₁), e₁, s₁) =
      melange_ids-Shuffled random₁ ids₀ n (omega (arith, length-first_ids n 0)) in
    let (code₂, deck, e₂, _) = melange_head-deck n s₁ g refl c.dealt in
    let ((code₃, ids), e₃, s₂) =
      melange_ids-Shuffled random₂ ids₁ n (omega (arith, length-ids n s₁)) in
    let s = Shuffled-trans s₁ s₂ in
    let g' = record g { deck = deck } in
    let rows : starts g.nbr_cards_lign (length g.board) 0 ≡ g.nbr_lign =
      ap (λ k. starts g.nbr_cards_lign k 0) c.cells
      ∙ starts-rows g.nbr_cards_lign g.nbr_lign c.wide in
    let ((board, next), e₄, (total, back, split, len, cards)) =
      deal_board-Laid g' ids c.byte (omega (arith, length-ids n s)) [] g.board 0 0 refl
        (omega (arith, c.enough)) in
    let ((ps', last), e₅, (got, players, same, held)) =
      deal_hands-AllGot g' ids c.byte (omega (arith, length-ids n s)) [] ps next 0 refl c.hands
        (omega (arith, c.enough)) in
    put_together ids₁ e₁ deck e₂ ids e₃ s board next e₄ (omega arith) ps' last e₅ (omega arith)
      (ap length split ∙ len) (ap cards_of split ∙ cards ∙ ap (λ k. take k ids) rows)
      (ap (all_held g.nbr_cards_player) same
        ∙ held
        ∙ ap (λ k. take (shares g.nbr_cards_player ps) (drop k ids)) {x = next} (omega arith))
  where
    put_together :
        (ids₁ : List ℕ) {code₁ : ℤ}
        → melange_ids random₁ (first_ids g.nbr_cards 0) g.nbr_cards ≡ some (code₁, ids₁)
        → (deck : List Card) {code₂ : ℤ}
        → melange_head ids₁ g ≡ some (code₂, record g { deck = deck })
        → (ids : List ℕ) {code₃ : ℤ} → melange_ids random₂ ids₁ g.nbr_cards ≡ some (code₃, ids)
        → Shuffled (first_ids g.nbr_cards 0) ids
        → (board : List Cell) (next : ℕ)
        → deal_board (record g { deck = deck }) ids g.board 0 (length g.board) 0
          ≡ some (board, next)
        → next ≡ g.nbr_lign
        → (ps' : List Player) (last : ℕ)
        → deal_hands (record g { deck = deck }) ids ps next (length ps) 0 ≡ some (ps', last)
        → last ≡ g.nbr_lign + shares g.nbr_cards_player ps
        → length board ≡ length g.board
        → cards_of board ≡ take g.nbr_lign ids
        → all_held g.nbr_cards_player ps'
          ≡ take (shares g.nbr_cards_player ps) (drop g.nbr_lign ids)
        → Returns (deal random₁ random₂ g ps (length ps)) (Distributed g ps)
    put_together ids₁ e₁ deck e₂ ids e₃ s board next e₄ at ps' last e₅ end len on_board in_hands =
        let e₄' : deal_board (record g { deck = deck }) ids g.board 0
              (g.nbr_cards_lign * g.nbr_lign) 0
            ≡ some (board, next) =
          ap (λ k. deal_board (record g { deck = deck }) ids g.board 0 k 0) (sym c.cells) ∙ e₄ in
        (
          (
            pos 0,
            record g {
              deck = deck;
              board = board;
              next_cards = g.nbr_lign + shares g.nbr_cards_player ps;
              game_state = State.waiting;
            },
            ps',
          ),
          rw (e₁, e₂, e₃, e₄', e₅, end) refl,
          finish g ps ids deck board ps' c.enough s len on_board in_hands,
        )

-- Whatever `getrandom` gives, and also when it fails, if malloc finds room then `distrib_cards` does
-- not fault on a game whose blocks have the sizes that the rules give, with a card for every row and
-- every cell of a hand. It returns 0 in the state that waits for the players, and has dealt as many
-- cards as rows and hands need; no card of those on the board and in the hands occurs twice, and
-- each is of the deck.
pub distrib_cards-Distributed :
    (random₁ random₂ : ℕ → Option ℕ) (g : Game) (ps : List Player)
    → CanDeal g ps
    → Returns (distrib_cards true random₁ random₂ g ps (length ps)) (Distributed g ps)
unfolding distrib_cards
distrib_cards-Distributed random₁ random₂ g ps c =
    let (deck, e, len) = fill_deck-length g.deck g.nbr_cards 0 (omega (arith, c.dealt)) in
    let c' : CanDeal (record g { deck = deck }) ps = record {
      dealt = len ∙ c.dealt;
      byte = c.byte;
      wide = c.wide;
      cells = c.cells;
      hands = c.hands;
      enough = c.enough;
    } in
    let (r, e', done) = deal-Distributed random₁ random₂ (record g { deck = deck }) ps c' in
    (r, rw e e', done)
