-- ===== src/Game/Board.antt =====
-- The board that `distrib_cards` deals: each row begins with one card.
use native.Mathlib.Nat.{suc-add, zero-add, mul-add-mod_self_right, mod-eq_of_lt}
use pega_s.Prelude.{
  ℕ, zero, suc, ◌+◌, ◌*◌, ◌%◌, ◌≤◌, ◌<◌, ◌≡◌, refl, sym, ap, ◌∙◌, true, false, none, some, List, [],
  ◌∷◌, ◌++◌, append_assoc, arith, ltb, ◌==◌, if◌then◌else◌, u8, length, length-append, take, drop,
  load, store, load_in_bounds, Returns, Bool-cases, inl, inr,
}
use pega_s.Player.{Cell}
use pega_s.Game.{Game}
use pega_s.Game.Deal.{deal_board}
use pega_s.Game.Dealt.{cards_of, store_at}

-- How many rows of a width begin among some cells from an index on.
unfoldable pub starts : ℕ → ℕ → ℕ → ℕ
starts w zero i = 0
starts w (suc n) i = (if i % w == 0 then 1 else 0) + starts w n (i + 1)

starts_add : (w m n i : ℕ) → starts w (m + n) i ≡ starts w m i + starts w n (i + m)
unfolding starts
starts_add w zero n i = let here : i + 0 ≡ i = omega arith in rw (zero-add n, here) (omega arith)
starts_add w (suc m) n i =
    let shift : i + 1 + m ≡ i + suc m = omega arith in
    rw (suc-add m n)
      (omega (arith, starts_add w m n (i + 1) ∙ ap (λ k. starts w m (i + 1) + starts w n k) shift))

inside_row : (w r j n : ℕ) → 0 < j → j + n ≤ w → starts w n (r * w + j) ≡ 0
unfolding starts
inside_row w r j zero positive room = refl
inside_row w r j (suc n) positive room =
    let column : (r * w + j) % w ≡ j = mul-add-mod_self_right r w j ∙ mod-eq_of_lt (omega arith) in
    let not_first : (j == 0) ≡ false = ground arith in
    let later : starts w n (r * w + j + 1) ≡ 0 =
      ap (starts w n) {x = r * w + j + 1} {y = r * w + (j + 1)} (omega arith)
      ∙ inside_row w r (j + 1) n (omega arith) (omega arith) in
    rw (column, not_first, later) refl

one_row : (w r : ℕ) → 0 < w → starts w w (r * w) ≡ 1
unfolding starts
one_row zero r h = absurd (omega arith)
one_row (suc m) r h =
    let w = suc m in
    let column : (r * w) % w ≡ 0 =
      ap (λ (n : ℕ). n % w) {y = r * w + 0} (omega arith)
      ∙ mul-add-mod_self_right r w 0
      ∙ mod-eq_of_lt (omega arith) in
    rw (column, inside_row w r 1 m (omega arith) (omega arith)) refl

pub starts-rows : (w lines : ℕ) → 0 < w → starts w (w * lines) 0 ≡ lines
starts-rows w zero h = unfold starts in ap (λ n. starts w n 0) {y = 0} (omega arith)
starts-rows w (suc lines) h =
    let split : w * suc lines ≡ w * lines + w = omega arith in
    let there : 0 + w * lines ≡ lines * w = omega arith in
    rw (split, starts_add w (w * lines) w 0, starts-rows w lines h, there, one_row w lines h)
      (omega arith)

module _ (g : Game) (ids : List ℕ) (small : g.nbr_cards < 256)
    (enough : g.nbr_cards ≤ length ids) where
  abbrev w : ℕ
  w = g.nbr_cards_lign

  -- The cells from an index on after they are dealt.
  abbrev pub Laid : List Cell → ℕ → ℕ → ℕ → List Cell × ℕ → Type 0
  Laid front n next i (board, next') =
      (next' ≡ next + starts w n i)
      × (back' : List Cell) × (board ≡ front ++ back')
      × (length back' ≡ n)
      × (cards_of back' ≡ take (starts w n i) (drop next ids))

  first_step :
      (front back : List Cell) (old : Cell) (next i id : ℕ)
      → i ≡ length front
      → (i % w == 0) ≡ true
      → next < g.nbr_cards
      → load ids next ≡ some id
      → deal_board g ids (front ++ (old ∷ back)) next (suc (length back)) i
        ≡ deal_board g ids ((front ++ (some id ∷ [])) ++ back) (next + 1) (length back) (i + 1)
  unfolding deal_board
  first_step front back old next i id e first below at =
      let left : ltb next g.nbr_cards ≡ true = ground arith in
      let word : u8 (next + 1) ≡ next + 1 = omega arith in
      let stored : store (front ++ (old ∷ back)) i (some id)
          ≡ some ((front ++ (some id ∷ [])) ++ back) =
        rw e (store_at front old (some id) back) in
      rw (first, left, at, stored, word) refl

  other_step :
      (front back : List Cell) (old : Cell) (next i : ℕ)
      → i ≡ length front
      → (i % w == 0) ≡ false
      → deal_board g ids (front ++ (old ∷ back)) next (suc (length back)) i
        ≡ deal_board g ids ((front ++ (none ∷ [])) ++ back) next (length back) (i + 1)
  unfolding deal_board
  other_step front back old next i e other =
      let stored : store (front ++ (old ∷ back)) i none ≡ some ((front ++ (none ∷ [])) ++ back) =
        rw e (store_at front old none back) in
      rw (other, stored) refl

  starts_first : (n i : ℕ) → (i % w == 0) ≡ true → starts w (suc n) i ≡ 1 + starts w n (i + 1)
  unfolding starts
  starts_first n i first = rw first refl

  starts_other : (n i : ℕ) → (i % w == 0) ≡ false → starts w (suc n) i ≡ starts w n (i + 1)
  unfolding starts
  starts_other n i other = rw other (omega arith)

  -- The cell before cells that are laid.
  Laid-first :
      (front : List Cell) (n next i id : ℕ) (r : List Cell × ℕ)
      → (i % w == 0) ≡ true
      → load ids next ≡ some id
      → Laid (front ++ (some id ∷ [])) n (next + 1) (i + 1) r
      → Laid front (suc n) next i r
  Laid-first front n next i id (board, last) first at (total, back', split, len, cards) =
      let one = starts_first n i first in
      (
        omega arith,
        some id ∷ back',
        split ∙ append_assoc front (some id ∷ []) back',
        ap suc len,
        rw one (ap (◌∷◌ id) cards ∙ sym (take-load (starts w n (i + 1)) next id ids at)),
      )
    where
      take-load :
          (k m c : ℕ) (xs : List ℕ)
          → load xs m ≡ some c
          → take (1 + k) (drop m xs) ≡ c ∷ take k (drop (m + 1) xs)
      take-load k m c [] h = absurd (cc)
      take-load k zero c (x ∷ xs) h =
          let same : x ≡ c = cc in
          let one_more : 1 + k ≡ suc k = omega arith in rw (one_more, same) refl
      take-load k (suc m) c (x ∷ xs) h = rw (suc-add m 1) (take-load k m c xs h)

  Laid-other :
      (front : List Cell) (n next i : ℕ) (r : List Cell × ℕ)
      → (i % w == 0) ≡ false
      → Laid (front ++ (none ∷ [])) n next (i + 1) r
      → Laid front (suc n) next i r
  Laid-other front n next i (board, last) other (total, back', split, len, cards) =
      let same = starts_other n i other in
      (
        omega arith,
        none ∷ back',
        split ∙ append_assoc front (none ∷ []) back',
        ap suc len,
        rw same cards,
      )

  pub deal_board-Laid :
      (front back : List Cell) (next i : ℕ)
      → i ≡ length front
      → next + starts w (length back) i ≤ g.nbr_cards
      → Returns
          (deal_board g ids (front ++ back) next (length back) i)
          (Laid front (length back) next i)
  deal_board-Laid front [] next i e fits =
      unfold deal_board starts in ((front ++ [], next), refl, (omega arith, [], refl, refl, refl))
  deal_board-Laid front (old ∷ back) next i e fits = elim (Bool-cases (i % w == 0)) [
    | inl first ↦
        let one = starts_first (length back) i first in
        let (id, at) = load_in_bounds ids next (omega arith) in
        let (r, rest, laid) =
          deal_board-Laid (front ++ (some id ∷ [])) back (next + 1) (i + 1)
            (omega (arith, length-append front (some id ∷ []))) (omega arith) in
        (
          r,
          first_step front back old next i id e first (omega arith) at ∙ rest,
          Laid-first front (length back) next i id r first at laid,
        )
    | inr other ↦
        let same = starts_other (length back) i other in
        let (r, rest, laid) =
          deal_board-Laid (front ++ (none ∷ [])) back next (i + 1)
            (omega (arith, length-append front (none ∷ []))) (omega arith) in
        (
          r,
          other_step front back old next i e other ∙ rest,
          Laid-other front (length back) next i r other laid,
        )
  ]
