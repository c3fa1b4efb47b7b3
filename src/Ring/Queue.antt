-- ===== src/Ring/Queue.antt =====
-- What the ring promises: a first-in first-out queue of at most `room` elements, oldest first.
use pega_s.Prelude.{ℕ, Option, none, some, List, [], ◌∷◌, ◌++◌, ℤ, length, ltb, if◌then◌else◌}
use pega_s.Ring.{success, efull, eempty}

-- The calls of a client, and what each returns: the code, and what goes through `data`.
pub data Op {ℓ} (A : Type ℓ) : Type ℓ where
  put : A → Op A
  get look : Op A

abbrev pub Reply {ℓ} : Type ℓ → Type ℓ
Reply A = ℤ × Option A

module _ {ℓ} {A : Type ℓ} where
  unfoldable pub push : ℕ → List A → A → ℤ × List A
  push room q x = if ltb (length q) room then (success, q ++ x ∷ []) else (efull, q)

  unfoldable pub pop : List A → ℤ × Option A × List A
  pop [] = (eempty, none, [])
  pop (x ∷ q) = (success, some x, q)

  unfoldable pub peek : List A → ℤ × Option A
  peek [] = (eempty, none)
  peek (x ∷ q) = (success, some x)

  unfoldable pub run : ℕ → List A → List (Op A) → List (Reply A)
  run room q [] = []
  run room q (put x ∷ ops) = let (code, q') = push room q x in (code, none) ∷ run room q' ops
  run room q (get ∷ ops) = let (code, out, q') = pop q in (code, out) ∷ run room q' ops
  run room q (look ∷ ops) = peek q ∷ run room q ops
