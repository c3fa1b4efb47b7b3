-- ===== src/Ring/Tests.antt =====
-- A ring of four cells.
use pega_s.Prelude.{ℕ, ◌≡◌, refl, some, List, [], ◌∷◌, arith}
use pega_s.Ring.{Ring, success, init, is_power_of_two, size, push, pop, peek}
use pega_s.Ring.Inv.{IsValid, fill, size-fill, init-IsValid}
use pega_s.Ring.Queue
use pega_s.Ring.Queue.{Op, put, get, look}
use pega_s.Ring.Refine.{Holds, push_refines, pop_refines, peek_refines, run, run_refines}

abbrev freed : Ring ℕ
freed = record { buffer = []; element_size = 0; capacity = 0; mask = 0; head = 0; tail = 0 }

-- Two elements that go round the end of the block.
abbrev two : Ring ℕ
two = record {
  buffer = 8 ∷ 0 ∷ 0 ∷ 7 ∷ [];
  element_size = 4;
  capacity = 4;
  mask = 3;
  head = 1;
  tail = 3;
}

two-IsValid : IsValid 2 two
two-IsValid = record {
  power = refl;
  mask_lem = refl;
  block = refl;
  head_in = omega arith;
  tail_in = omega arith;
  small = omega arith;
}

two-Holds : Holds 2 two (7 ∷ 8 ∷ [])
two-Holds = record { valid = two-IsValid; count = refl; cells = (refl, (refl, tt)) }

push_refines_example :
    (rb' : Ring ℕ) × (push two 9 ≡ some (success, rb')) × Holds 2 rb' (7 ∷ 8 ∷ 9 ∷ [])
unfolding Queue.push
push_refines_example = push_refines 9 two-Holds

pop_refines_example :
    (rb' : Ring ℕ) × (pop two ≡ some (success, some 7, rb')) × Holds 2 rb' (8 ∷ [])
unfolding Queue.pop
pop_refines_example = pop_refines (7 ∷ 8 ∷ []) two-Holds

peek_refines_example : peek two ≡ some (success, some 7)
unfolding Queue.peek
peek_refines_example = peek_refines (7 ∷ 8 ∷ []) two-Holds

abbrev calls : List (Op ℕ)
calls = put 9 ∷ put 10 ∷ get ∷ look ∷ get ∷ get ∷ get ∷ []

run_refines_example : run two calls ≡ some (Queue.run 3 (7 ∷ 8 ∷ []) calls)
run_refines_example = run_refines calls (7 ∷ 8 ∷ []) two-Holds

size-fill_example : size two ≡ 2
size-fill_example = size-fill two-IsValid

init-IsValid_example :
    (bits : ℕ) × (IsValid bits (init freed 4 8 (some (0 ∷ 0 ∷ 0 ∷ 0 ∷ []))).1
      × (fill bits (init freed 4 8 (some (0 ∷ 0 ∷ 0 ∷ 0 ∷ []))).1 ≡ 0))
unfolding init is_power_of_two
init-IsValid_example =
    init-IsValid freed 4 8 (0 ∷ 0 ∷ 0 ∷ 0 ∷ [])
      {rb = (init freed 4 8 (some (0 ∷ 0 ∷ 0 ∷ 0 ∷ []))).1} refl (omega arith) refl
