-- ===== src/FdMap.antt =====
-- The growing table from file descriptors, and from player and session ids, to pointers:
-- SupportStructure/fd_map.c. `none` in the buffer is the null pointer.
pub mod Laws
mod Tests
use pega_s.Prelude.{
  ℕ, zero, suc, ◌+◌, ◌-◌, ◌*◌, Bool, true, false, Option, none, some, List, ◌++◌, ℤ, pos, negsuc,
  minus_one, leb, ltb, if◌then◌else◌, ◌&&◌, u16, take, replicate, load, store, set, length, ◌>>=◌,
}

-- `fd_map_t`. The block may be longer than `capacity` says, which is a `uint16_t`.
pub record FdMap {ℓ} (A : Type ℓ) : Type ℓ where
  pub buffer : List (Option A)
  pub capacity : ℕ

module _ {ℓ} {A : Type ℓ} where
  -- The two mallocs succeed or not.
  unfoldable pub create : Bool → Bool → ℕ → Option (FdMap A)
  create map_block buffer_block initial_capacity =
      let capacity = if ltb 0 initial_capacity then initial_capacity else 64 in
      if map_block && buffer_block
      then some (record { buffer = replicate capacity none; capacity = capacity })
      else none

  -- `realloc` to `(fd + 1) * 2` cells, of which those past the old capacity are cleared.
  unfoldable pub grow : FdMap A → ℕ → FdMap A
  grow map fd =
      let new_capacity = (fd + 1) * 2 in
      record {
        buffer = take map.capacity map.buffer ++ replicate (new_capacity - map.capacity) none;
        capacity = u16 new_capacity;
      }

  -- `map->buffer[fd] = ptr`.
  unfoldable pub put_at : FdMap A → ℕ → Option A → Option (ℤ × FdMap A)
  put_at map fd ptr = do
    buffer ← store map.buffer fd ptr
    some (pos 0, record map { buffer = buffer })

  -- `room` says whether realloc succeeds.
  unfoldable pub fd_map_set : Bool → FdMap A → ℤ → Option A → Option (ℤ × FdMap A)
  fd_map_set room map (negsuc n) ptr = some (minus_one, map)
  fd_map_set room map (pos fd) ptr =
      if leb map.capacity fd
      then if room then put_at (grow map fd) fd ptr else some (minus_one, map)
      else put_at map fd ptr

  unfoldable pub fd_map_get : FdMap A → ℤ → Option (Option A)
  fd_map_get map (negsuc n) = some none
  fd_map_get map (pos fd) = if leb map.capacity fd then some none else load map.buffer fd

  -- The index 0 is left alone.
  unfoldable pub fd_map_remove : FdMap A → ℤ → Option (FdMap A)
  fd_map_remove map (negsuc n) = some map
  fd_map_remove map (pos fd) =
      if ltb 0 fd && ltb fd map.capacity
      then (store map.buffer fd none >>= λ buffer. some (record map { buffer = buffer }))
      else some map

  abbrev found_code : Option A → ℤ
  found_code none = minus_one
  found_code (some p) = pos 0

  unfoldable pub fd_map_exists : FdMap A → ℤ → Option ℤ
  fd_map_exists map (negsuc n) = some minus_one
  fd_map_exists map (pos fd) =
      if ltb fd map.capacity
      then (load map.buffer fd >>= λ p. some (found_code p))
      else some minus_one

  -- The rounds left, and the index.
  unfoldable pub first_null : List (Option A) → ℕ → ℕ → Option ℤ
  first_null buffer zero i = some minus_one
  first_null buffer (suc rounds) i = do
    p ← load buffer i
    elim p [ none ↦ some (pos i) | some _ ↦ first_null buffer rounds (i + 1) ]

  -- `for (int i = 1; i < bound; i++)` makes `bound - 1` rounds.
  unfoldable pub fd_map_get_first_null_id : FdMap A → ℤ → Option ℤ
  fd_map_get_first_null_id map (negsuc n) = some minus_one
  fd_map_get_first_null_id map (pos next_free_id) =
      let bound = if leb map.capacity next_free_id then map.capacity - 1 else next_free_id in
      first_null map.buffer (bound - 1) 1
