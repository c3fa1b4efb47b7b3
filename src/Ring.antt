-- ===== src/Ring.antt =====
-- The lock-free ring between the network thread and a session thread: SupportStructure/spsc_buffer.c
-- and its header. A function that updates `*rb` returns the new ring beside its code. `none` is
-- undefined behaviour. Null arguments are left out: no caller passes one.
pub mod Inv
mod Round
pub mod Queue
pub mod Refine
mod Tests
use pega_s.Prelude.{
  ℕ, ◌+◌, ◌-◌, ◌^◌, ◌≤◌, bit_and, Bool, Option, none, some, List, [], ◌==◌, if◌then◌else◌, ◌||◌,
  not, ℤ, pos, negsuc, u64, load, store, ◌>>=◌,
}

abbrev pub success : ℤ
success = pos 0

abbrev pub einval : ℤ
einval = negsuc 0

abbrev pub enomem : ℤ
enomem = negsuc 1

abbrev pub efull : ℤ
efull = negsuc 2

abbrev pub eempty : ℤ
eempty = negsuc 3

-- `ring_buffer_t`. The block holds elements in place of bytes; a freed block is the empty list.
pub record Ring {ℓ} (A : Type ℓ) : Type ℓ where
  pub buffer : List A
  pub element_size : ℕ
  pub capacity : ℕ
  pub mask : ℕ
  pub head : ℕ
  pub tail : ℕ

-- `n - 1` wraps at `n == 0`.
unfoldable pub is_power_of_two : ℕ → Bool
is_power_of_two n = bit_and n (u64 (n + (2 ^ 64 - 1))) == 0

module _ {ℓ} {A : Type ℓ} where
  -- `block` is what malloc returns for `capacity * element_size` bytes. The old `*rb` is lost only
  -- when the call succeeds, or to a null buffer.
  unfoldable pub init : Ring A → ℕ → ℕ → Option (List A) → ℤ × Ring A
  init rb capacity element_size block =
      if capacity == 0 || element_size == 0
      then (einval, rb)
      else if not (is_power_of_two capacity)
      then (einval, rb)
      else elim block [
        | none ↦ (enomem, record rb { buffer = [] })
        | some cells ↦ (
          success,
          record {
            buffer = cells;
            element_size = element_size;
            capacity = capacity;
            mask = capacity - 1;
            head = 0;
            tail = 0;
          },
        )
      ]

  unfoldable pub destroy : Ring A → Ring A
  destroy rb = record rb { buffer = [] }

  unfoldable pub is_empty : Ring A → Bool
  is_empty rb = rb.head == rb.tail

  -- The index after `i`, as `push` and `pop` compute it.
  abbrev pub next_index : Ring A → ℕ → ℕ
  next_index rb i = bit_and (u64 (i + 1)) rb.mask

  unfoldable pub is_full : Ring A → Bool
  is_full rb = next_index rb rb.head == rb.tail

  -- `head - tail` wraps.
  unfoldable pub size : Ring A → ℕ
  size rb = bit_and (u64 (rb.head + 2 ^ 64 - rb.tail)) rb.mask

  unfoldable pub push : Ring A → A → Option (ℤ × Ring A)
  push rb x = if next_index rb rb.head == rb.tail then some (efull, rb) else do
    cells ← store rb.buffer (bit_and rb.head rb.mask) x
    some (success, record rb { buffer = cells; head = next_index rb rb.head })

  -- The option in the result is what goes through `data`.
  unfoldable pub pop : Ring A → Option (ℤ × Option A × Ring A)
  pop rb = if rb.tail == rb.head then some (eempty, none, rb) else do
    x ← load rb.buffer (bit_and rb.tail rb.mask)
    some (success, some x, record rb { tail = next_index rb rb.tail })

  unfoldable pub peek : Ring A → Option (ℤ × Option A)
  peek rb =
      if rb.tail == rb.head
      then some (eempty, none)
      else do x ← load rb.buffer (bit_and rb.tail rb.mask); some (success, some x)
