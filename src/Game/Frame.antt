-- ===== src/Game/Frame.antt =====
-- What `place_card` leaves alone: the rules, the deck, and all of a player but the heads.
use pega_s.Prelude.{
  ℕ, zero, suc, ◌+◌, ◌*◌, ◌≡◌, refl, sym, ap, ◌∙◌, Bool, true, false, Option, none, some, List, [],
  ◌∷◌, map, ℤ, load, store, store-eq-set, set, u8, Keeps, keeps_some, keeps_bind, keeps_if, leb,
  Option-cases, inl, inr,
}
use pega_s.Player.{Cell, Player}
use pega_s.Game.{Game}
use pega_s.Game.Place.{
  take_cells, take_line, put_card, place_in, place_at, place_chosen, place_round, ask_player,
  after_round, place_rounds, after_rounds, place_card, Round, none_left, placed, must_choose, Halt,
  hand_empty, end_turn, min_card, best_row,
}

-- A player without the heads.
abbrev pub core : Player → Player
core p = record p { nb_head = 0 }

-- The same players, up to their heads.
abbrev pub SamePlayers : List Player → List Player → Type 0
SamePlayers ps ps' = map core ps' ≡ map core ps

map-core-set :
    (ps : List Player) (i : ℕ) {p : Player} (q : Player)
    → load ps i ≡ some p
    → core q ≡ core p
    → map core (set ps i q) ≡ map core ps
map-core-set [] i q h e = absurd (cc)
map-core-set (x ∷ ps) zero {p} q h e =
    let same : x ≡ p = cc in ap (λ (r : Player). r ∷ map core ps) (e ∙ ap core (sym same))
map-core-set (x ∷ ps) (suc i) q h e = ap (◌∷◌ (core x)) (map-core-set ps i q h e)

-- What stays of a game.
pub record Framed (g : Game) (ps : List Player) (g' : Game) (ps' : List Player) : Type 0 where
  pub players : SamePlayers ps ps'
  pub deck : g'.deck ≡ g.deck
  pub rules :
      (g'.nbr_lign ≡ g.nbr_lign)
      × (g'.nbr_cards_lign ≡ g.nbr_cards_lign)
      × (g'.nbr_cards_player ≡ g.nbr_cards_player)
      × (g'.nbr_cards ≡ g.nbr_cards)

pub Framed-trans :
    {g h k : Game} {ps qs rs : List Player} → Framed g ps h qs → Framed h qs k rs → Framed g ps k rs
Framed-trans a b = record {
  players = b.players ∙ a.players;
  deck = b.deck ∙ a.deck;
  rules =
      (b.rules.0 ∙ a.rules.0, b.rules.1 ∙ a.rules.1, b.rules.2 ∙ a.rules.2, b.rules.3 ∙ a.rules.3);
}

-- A step that changes neither the players nor the rules.
pub Framed-same :
    {g g' : Game} (ps : List Player)
    → g'.deck ≡ g.deck
    → ((g'.nbr_lign ≡ g.nbr_lign)
        × (g'.nbr_cards_lign ≡ g.nbr_cards_lign)
        × (g'.nbr_cards_player ≡ g.nbr_cards_player)
        × (g'.nbr_cards ≡ g.nbr_cards))
    → Framed g ps g' ps
Framed-same ps deck rules = record { players = refl; deck = deck; rules = rules }

abbrev FramedBy : Game → List Player → Game × List Player → Type 0
FramedBy g ps r = Framed g ps r.0 r.1

unchanged : (g : Game) (ps : List Player) → Framed g ps g ps
unchanged g ps = Framed-same ps refl (refl, refl, refl, refl)

same_board :
    (g : Game) (ps : List Player) (board : List Cell) → Framed g ps (record g { board = board }) ps
same_board g ps board = Framed-same ps refl (refl, refl, refl, refl)

same_ready :
    (g : Game) (ps : List Player) (ready : List Cell)
    → Framed g ps (record g { card_ready_to_place = ready }) ps
same_ready g ps ready = Framed-same ps refl (refl, refl, refl, refl)

take_cells-Framed :
    (g : Game) (ps : List Player) (base index rounds i : ℕ)
    → Keeps (take_cells g ps base index rounds i) (FramedBy g ps)
unfolding take_cells
take_cells-Framed g ps base index zero i = keeps_some (FramedBy g ps) (g, ps) (unchanged g ps)
take_cells-Framed g ps base index (suc rounds) i =
    let P = FramedBy g ps in
    keeps_bind P (load g.board (base + i)) _ (λ c _. elim (Option-cases c) [
      | inl e ↦ rw e (keeps_some P (g, ps) (unchanged g ps))
      | inr (id, e) ↦ rw e (
          keeps_bind P (load ps index) _ (λ p at. keeps_bind P (load g.deck id) _ (λ card _.
            keeps_bind P (store ps index _) _ (λ ps' stored.
              keeps_bind P (store g.board (base + i) none) _ (λ board _ r e.
                let p' = record p { nb_head = u8 (p.nb_head + card.number_head) } in
                let same : SamePlayers ps ps' =
                  ap (map core) (sym (store-eq-set ps index p' stored))
                  ∙ map-core-set ps index p' at refl in
                Framed-trans
                  (record { players = same; deck = refl; rules = (refl, refl, refl, refl) })
                  (take_cells-Framed (record g { board = board }) ps' base index rounds (i + 1) r
                    e))))))
    ])

take_line-Framed :
    (g : Game) (ps : List Player) (line index : ℕ)
    → Keeps (take_line g ps line index) (FramedBy g ps)
unfolding take_line
take_line-Framed g ps line index =
    let P = FramedBy g ps in
    keeps_bind P (load g.card_ready_to_place (u8 index)) _ (λ _ _.
      keeps_bind P (take_cells g ps (u8 line * g.nbr_cards_lign) (u8 index) g.nbr_cards_lign 0) _
        (λ r taken. keeps_bind P (load r.0.card_ready_to_place (u8 index)) _ (λ c _.
          keeps_bind P (store r.0.board (u8 line * r.0.nbr_cards_lign) c) _ (λ board _.
            keeps_bind P (store r.0.card_ready_to_place (u8 index) none) _ (λ ready _.
              keeps_some P (record (r.0) { board = board; card_ready_to_place = ready }, r.1)
                (Framed-trans
                  (take_cells-Framed g ps (u8 line * g.nbr_cards_lign) (u8 index) g.nbr_cards_lign 0
                    r taken)
                  (Framed-same r.1 refl (refl, refl, refl, refl))))))))

put_card-Framed :
    (g : Game) (ps : List Player) (index card row col : ℕ)
    → Keeps (put_card g ps index card row col) (FramedBy g ps)
unfolding put_card
put_card-Framed g ps index card row col =
    let P = FramedBy g ps in
    keeps_if P (leb g.nbr_cards_lign col) _ _ (λ _. take_line-Framed g ps row index)
      (λ _.
        keeps_bind P (store g.board (row * g.nbr_cards_lign + col) (some card)) _
          (λ board _. keeps_some P (record g { board = board }, ps) (same_board g ps board)))

abbrev FramedRound : Game → List Player → Round × Game × List Player → Type 0
FramedRound g ps r = Framed g ps r.1 r.2

place_in-Framed :
    (g : Game) (ps : List Player) (index card : ℕ) (target : Option (ℕ × ℕ))
    → Keeps (place_in g ps index card target) (FramedRound g ps)
unfolding place_in
place_in-Framed g ps index card none =
    keeps_some (FramedRound g ps) (must_choose index, g, ps) (unchanged g ps)
place_in-Framed g ps index card (some (row, col)) =
    let P = FramedRound g ps in
    keeps_bind P (put_card g ps index card row col) _ (λ r put.
      keeps_bind P (store r.0.card_ready_to_place index none) _ (λ ready _.
        keeps_some P (placed, record (r.0) { card_ready_to_place = ready }, r.1)
          (Framed-trans (put_card-Framed g ps index card row col r put)
            (same_ready r.0 r.1 ready))))

place_at-Framed :
    (g : Game) (ps : List Player) (index : ℕ) (cell : Cell)
    → Keeps (place_at g ps index cell) (FramedRound g ps)
unfolding place_at
place_at-Framed g ps index none = λ r e. absurd (cc)
place_at-Framed g ps index (some card) =
    keeps_bind (FramedRound g ps) (best_row g card g.nbr_lign 0 _) _
      (λ b _. place_in-Framed g ps index card b.target)

place_chosen-Framed :
    (g : Game) (ps : List Player) (best : Option ℕ)
    → Keeps (place_chosen g ps best) (FramedRound g ps)
unfolding place_chosen
place_chosen-Framed g ps none = keeps_some (FramedRound g ps) (none_left, g, ps) (unchanged g ps)
place_chosen-Framed g ps (some index) =
    keeps_bind (FramedRound g ps) (load g.card_ready_to_place index) _
      (λ cell _. place_at-Framed g ps index cell)

place_round-Framed :
    (g : Game) (ps : List Player) (capacity : ℕ)
    → Keeps (place_round g ps capacity) (FramedRound g ps)
unfolding place_round
place_round-Framed g ps capacity =
    keeps_bind (FramedRound g ps) (min_card g.card_ready_to_place capacity 0 none) _
      (λ best _. place_chosen-Framed g ps best)

abbrev FramedHalt : Game → List Player → Halt → Type 0
FramedHalt g ps r = Framed g ps r.1 r.2

ask_player-Framed :
    (g : Game) (ps : List Player) (index : ℕ) → Keeps (ask_player g ps index) (FramedHalt g ps)
unfolding ask_player
ask_player-Framed g ps index =
    keeps_bind (FramedHalt g ps) (load ps index) _
      (λ p _. keeps_some (FramedHalt g ps) _ (Framed-same ps refl (refl, refl, refl, refl)))

after_round-Framed :
    (g : Game) (ps : List Player) (next : Game → List Player → Option Halt)
    → ((g' : Game) (ps' : List Player) → Keeps (next g' ps') (FramedHalt g' ps'))
    → (r : Round × Game × List Player) → FramedRound g ps r
    → Keeps (after_round next r) (FramedHalt g ps)
unfolding after_round
after_round-Framed g ps next rest (none_left, g', ps') f =
    keeps_some (FramedHalt g ps) (none, g', ps') f
after_round-Framed g ps next rest (placed, g', ps') f = λ r e. Framed-trans f (rest g' ps' r e)
after_round-Framed g ps next rest (must_choose i, g', ps') f =
    λ r e. Framed-trans f (ask_player-Framed g' ps' i r e)

place_rounds-Framed :
    (steps : ℕ) (g : Game) (ps : List Player) (capacity : ℕ)
    → Keeps (place_rounds steps g ps capacity) (FramedHalt g ps)
unfolding place_rounds
place_rounds-Framed zero g ps capacity = keeps_some (FramedHalt g ps) (none, g, ps) (unchanged g ps)
place_rounds-Framed (suc steps) g ps capacity =
    keeps_bind (FramedHalt g ps) (place_round g ps capacity) _ (λ round e.
      after_round-Framed g ps (λ g' ps'. place_rounds steps g' ps' capacity)
        (λ g' ps'. place_rounds-Framed steps g' ps' capacity) round
        (place_round-Framed g ps capacity round e))

abbrev FramedEnd : Game → List Player → ℤ × Game × List Player → Type 0
FramedEnd g ps r = Framed g ps r.1 r.2

end_turn-Framed : (g : Game) (ps : List Player) (b : Bool) → FramedEnd g ps (end_turn g ps b)
unfolding end_turn
end_turn-Framed g ps true = Framed-same ps refl (refl, refl, refl, refl)
end_turn-Framed g ps false = Framed-same ps refl (refl, refl, refl, refl)

after_rounds-Framed :
    (g : Game) (ps : List Player) (capacity : ℕ) (halt : Halt)
    → FramedHalt g ps halt
    → Keeps (after_rounds capacity halt) (FramedEnd g ps)
unfolding after_rounds
after_rounds-Framed g ps capacity (some id, g', ps') f = keeps_some (FramedEnd g ps) (id, g', ps') f
after_rounds-Framed g ps capacity (none, g', ps') f =
    let g₀ = record g' { card_ready_to_place_count = 0 } in
    keeps_bind (FramedEnd g ps) (hand_empty g₀ ps' capacity 0) _ (λ over _.
      keeps_some (FramedEnd g ps) (end_turn g₀ ps' over) (
        Framed-trans f (
          Framed-trans (Framed-same ps' refl (refl, refl, refl, refl))
            (end_turn-Framed g₀ ps' over))))

-- Whatever `place_card` does, it leaves the rules and the deck as they are, and of the players it
-- changes nothing but their heads.
pub place_card-Framed :
    (g : Game) (ps : List Player) (capacity : ℕ)
    → Keeps (place_card g ps capacity) (λ r. Framed g ps r.1 r.2)
unfolding place_card
place_card-Framed g ps capacity =
    keeps_bind (FramedEnd g ps) (place_rounds capacity g ps capacity) _ (λ halt e.
      after_rounds-Framed g ps capacity halt (place_rounds-Framed capacity g ps capacity halt e))
