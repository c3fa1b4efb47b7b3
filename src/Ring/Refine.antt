-- ===== src/Ring/Refine.antt =====
-- A valid ring behaves as the queue of the elements that it holds.
use native.Mathlib.Nat.{mod-eq_of_lt, mod-lt, mod-add-mod}
use pega_s.Prelude.{
  ℕ, suc, ◌+◌, ◌-◌, ◌%◌, ◌^◌, ◌<◌, bit_and, ◌≡◌, ◌≢◌, refl, sym, ap, ◌∙◌, subst, Bool-cases, ltb,
  ltb→lt, Option, none, some, List, [], ◌∷◌, ◌++◌, arith, length, length-append, length-set, set,
  get_elem?, get_elem?-set_self, get_elem?-set_ne, inl, inr, ◌>>=◌,
}
use pega_s.Prelude.Bits.{pow_pos}
use pega_s.Ring.{Ring, success, efull, next_index, push, pop, peek}
use pega_s.Ring.Inv.{IsValid, fill, next_index-mod, bit_and-mask_self}
use pega_s.Ring.Round.{
  not_round, gap_full, gap_room, gap_push, gap_end, gap_empty, gap_some, gap_pop, gap,
}
use pega_s.Ring.Queue
use pega_s.Ring.Queue.{Op, put, get, look, Reply}

module _ {ℓ} {A : Type ℓ} where
  -- The cells from index `h` on, going round at `p`, are the elements of the list.
  abbrev pub Window : List A → ℕ → ℕ → List A → Type ℓ
  Window cells p h [] = Unit
  Window cells p h (x ∷ q) = (get_elem? cells h ≡ some x) × Window cells p ((h + 1) % p) q

  pub record Holds (bits : ℕ) (rb : Ring A) (q : List A) : Type ℓ where
    pub valid : IsValid bits rb
    pub count : length q ≡ fill bits rb
    pub cells : Window rb.buffer (2 ^ bits) rb.tail q

  -- A write at an index outside a window leaves the window, and one just past it extends it.
  pub Window-set :
      (cells : List A) (p : ℕ) (x : A) (q : List A) (h i : ℕ)
      → length cells ≡ p
      → h < p
      → length q < p
      → i ≡ (h + length q) % p
      → Window cells p h q
      → Window (set cells i x) p h (q ++ x ∷ [])
  Window-set cells p x [] h i len hh hq e w =
      let here : i ≡ h = e ∙ ap (λ (n : ℕ). n % p) {y = h} (omega arith) ∙ mod-eq_of_lt hh in
      rw here (get_elem?-set_self cells h x (omega arith), tt)
  Window-set cells p x (y ∷ q) h i len hh hq e w = (
    get_elem?-set_ne cells x (λ z. not_round h (length q) p hh hq (sym e ∙ z)) ∙ w.0,
    Window-set cells p x q ((h + 1) % p) i len (mod-lt (h + 1) (omega arith)) (omega arith)
        (e ∙ shift) w.1,
  )
    where
      shift : (h + suc (length q)) % p ≡ ((h + 1) % p + length q) % p
      shift = rw mod-add-mod (ap (λ (n : ℕ). n % p) (omega arith))

  -- `buffer_push` appends, or refuses with `BUFFER_EFULL` when all but one of the cells are taken.
  push_full :
      {bits : ℕ} {rb : Ring A} {q : List A} (x : A)
      → Holds bits rb q
      → length q ≡ 2 ^ bits - 1
      → push rb x ≡ some (efull, rb)
  unfolding push
  push_full {bits} {rb} {q} x h e = ground (
    arith,
    next_index-mod h.valid rb.head h.valid.head_in,
    gap_full rb.head rb.tail (2 ^ bits) h.valid.head_in h.valid.tail_in,
  )

  abbrev pushed : Ring A → A → Ring A
  pushed rb x = record rb { buffer = set rb.buffer rb.head x; head = next_index rb rb.head }

  push_room :
      {bits : ℕ} {rb : Ring A} {q : List A} (x : A)
      → Holds bits rb q
      → length q < 2 ^ bits - 1
      → (push rb x ≡ some (success, pushed rb x)) × Holds bits (pushed rb x) (q ++ x ∷ [])
  unfolding push
  push_room {bits} {rb} {q} x h e =
      let v = h.valid in
      let slot : bit_and rb.head rb.mask ≡ rb.head = bit_and-mask_self v rb.head v.head_in in
      let next : next_index rb rb.head ≡ (rb.head + 1) % 2 ^ bits =
        next_index-mod v rb.head v.head_in in
      let room : (rb.head + 1) % 2 ^ bits ≢ rb.tail =
        gap_room rb.head rb.tail (2 ^ bits) v.head_in v.tail_in (omega arith) in
      (
        ground arith,
        record {
          valid = record {
            power = v.power;
            mask_lem = v.mask_lem;
            block = length-set rb.buffer rb.head x ∙ v.block;
            head_in = rw next (mod-lt (rb.head + 1) (pow_pos bits));
            tail_in = v.tail_in;
            small = v.small;
          };
          count =
              let c : length (q ++ x ∷ []) ≡ gap ((rb.head + 1) % 2 ^ bits) rb.tail (2 ^ bits) =
                omega (
                  arith,
                  h.count,
                  length-append q (x ∷ []),
                  gap_push rb.head rb.tail (2 ^ bits) v.head_in v.tail_in (omega (arith, h.count)),
                ) in
              c ∙ sym (ap (λ (i : ℕ). gap i rb.tail (2 ^ bits)) next);
          cells =
              Window-set rb.buffer (2 ^ bits) x q rb.tail rb.head v.block v.tail_in (omega arith)
                (sym (gap_end rb.head rb.tail (2 ^ bits) v.head_in v.tail_in)
                  ∙ ap (λ (n : ℕ). (rb.tail + n) % 2 ^ bits) (sym h.count))
                h.cells;
        },
      )

  -- `buffer_push` of a ring that holds `q` does not fault, returns what the bounded queue's push
  -- returns, and leaves a ring that holds the queue that the latter leaves.
  pub push_refines :
      {bits : ℕ} {rb : Ring A} {q : List A} (x : A)
      → Holds bits rb q
      → let (code, q') = Queue.push (2 ^ bits - 1) q x in
        (rb' : Ring A) × (push rb x ≡ some (code, rb')) × Holds bits rb' q'
  unfolding Queue.push
  push_refines {bits} {rb} {q} x h = elim (Bool-cases (ltb (length q) (2 ^ bits - 1))) [
    | inl room ↦ let r = push_room x h (ltb→lt _ _ room) in rw room (pushed rb x, r.0, r.1)
    | inr full ↦
        let all_taken : length q ≡ 2 ^ bits - 1 =
          ground
            (arith, h.count, pow_pos bits, mod-lt (rb.head + 2 ^ bits - rb.tail) (pow_pos bits)) in
        rw full (rb, push_full x h all_taken, h)
  ]

  abbrev popped : Ring A → Ring A
  popped rb = record rb { tail = next_index rb rb.tail }

  pop-some :
      {bits : ℕ} {rb : Ring A} {x : A} {q : List A}
      → Holds bits rb (x ∷ q)
      → (pop rb ≡ some (success, some x, popped rb)) × Holds bits (popped rb) q
  unfolding pop
  pop-some {bits} {rb} {x} {q} h =
      let v = h.valid in
      let slot : bit_and rb.tail rb.mask ≡ rb.tail = bit_and-mask_self v rb.tail v.tail_in in
      let next : next_index rb rb.tail ≡ (rb.tail + 1) % 2 ^ bits =
        next_index-mod v rb.tail v.tail_in in
      let some_left : rb.tail ≢ rb.head =
        gap_some rb.head rb.tail (2 ^ bits) v.head_in v.tail_in (omega (arith, h.count)) in
      let first = h.cells.0 in
      (
        ground (arith, first),
        record {
          valid = record {
            power = v.power;
            mask_lem = v.mask_lem;
            block = v.block;
            head_in = v.head_in;
            tail_in = rw next (mod-lt (rb.tail + 1) (pow_pos bits));
            small = v.small;
          };
          count =
              let c : length q ≡ gap rb.head ((rb.tail + 1) % 2 ^ bits) (2 ^ bits) = omega (
                arith,
                h.count,
                gap_pop rb.head rb.tail (2 ^ bits) v.head_in v.tail_in (omega (arith, h.count)),
              ) in
              c ∙ sym (ap (λ (i : ℕ). gap rb.head i (2 ^ bits)) next);
          cells = subst (λ (i : ℕ). Window rb.buffer (2 ^ bits) i q) (sym next) h.cells.1;
        },
      )

  empty_ends : {bits : ℕ} {rb : Ring A} → Holds bits rb [] → rb.tail ≡ rb.head
  empty_ends {bits} {rb} h =
      gap_empty rb.head rb.tail (2 ^ bits) h.valid.head_in h.valid.tail_in (sym h.count)

  -- `buffer_pop` of a ring that holds `q` does not fault, returns the code and the element that the
  -- queue's pop returns, and leaves a ring that holds the queue that the latter leaves.
  pub pop_refines :
      {bits : ℕ} {rb : Ring A} (q : List A)
      → Holds bits rb q
      → let (code, out, q') = Queue.pop q in
        (rb' : Ring A) × (pop rb ≡ some (code, out, rb')) × Holds bits rb' q'
  unfolding Queue.pop pop
  pop_refines {rb} [] h = let e = empty_ends h in (rb, ground (arith, e), h)
  pop_refines {rb} (x ∷ q) h = let r = pop-some h in (popped rb, r.0, r.1)

  -- `buffer_peek` of a ring that holds `q` does not fault and returns the code and the element that
  -- the queue's peek returns.
  pub peek_refines :
      {bits : ℕ} {rb : Ring A} (q : List A) → Holds bits rb q → peek rb ≡ some (Queue.peek q)
  unfolding Queue.peek peek
  peek_refines {rb} [] h = let e = empty_ends h in ground (arith, e)
  peek_refines {bits} {rb} (x ∷ q) h =
      let v = h.valid in
      let slot : bit_and rb.tail rb.mask ≡ rb.tail = bit_and-mask_self v rb.tail v.tail_in in
      let some_left : rb.tail ≢ rb.head =
        gap_some rb.head rb.tail (2 ^ bits) v.head_in v.tail_in (omega (arith, h.count)) in
      let first = h.cells.0 in ground (arith, first)

  -- A client's calls in order, with what each returns; `none` if one of them faults.
  unfoldable pub run : Ring A → List (Op A) → Option (List (Reply A))
  run rb [] = some []
  run rb (put x ∷ ops) = do (code, rb') ← push rb x; rest ← run rb' ops; some ((code, none) ∷ rest)
  run rb (get ∷ ops) = do (code, out, rb') ← pop rb; rest ← run rb' ops; some ((code, out) ∷ rest)
  run rb (look ∷ ops) = do reply ← peek rb; rest ← run rb ops; some (reply ∷ rest)

  -- Whatever calls a client makes of a ring that holds the elements of a queue, none faults, and
  -- what they return is what the queue of at most `capacity - 1` elements returns.
  pub run_refines :
      (ops : List (Op A)) {bits : ℕ} {rb : Ring A} (q : List A)
      → Holds bits rb q
      → run rb ops ≡ some (Queue.run (2 ^ bits - 1) q ops)
  unfolding run Queue.run
  run_refines [] q h = refl
  run_refines (put x ∷ ops) q h = let r = push_refines x h in rw (r.1, run_refines ops _ r.2)
  run_refines (get ∷ ops) q h = let r = pop_refines q h in rw (r.1, run_refines ops _ r.2)
  run_refines (look ∷ ops) q h = rw (peek_refines q h, run_refines ops q h)
