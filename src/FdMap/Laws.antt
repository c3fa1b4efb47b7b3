-- ===== src/FdMap/Laws.antt =====
-- The table as a map: what a client reads after each call.
use pega_s.Prelude.{
  ℕ, zero, suc, ◌+◌, ◌-◌, ◌*◌, ◌≤◌, ◌<◌, ◌≡◌, ◌≢◌, refl, ap, ◌∙◌, true, Option, none, some, List,
  ◌++◌, ℤ, pos, negsuc, minus_one, arith, leb, leb→le, ltb, ◌==◌, if◌then◌else◌, length,
  length-append, length-take, length-replicate, length-set, take, replicate, set, get_or,
  get_or-past, get_or-append_replicate, get_or-set_self, get_or-set_ne, get_elem?-get_or, take_all,
  ◌&&◌, store_in_bounds, load_cases, Returns, Bool-cases, inl, inr,
}
use native.Mathlib.Decide.{ℕ_discrete, dec_lt}
use pega_s.FdMap.{
  FdMap, grow, put_at, fd_map_set, fd_map_get, fd_map_remove, first_null, fd_map_get_first_null_id,
}

pub record IsValid {A : Type 0} (map : FdMap A) : Type 0 where
  pub block : length map.buffer ≡ map.capacity
  pub word : map.capacity < 65536

-- What is at an index, `none` for the null pointer and past the end.
abbrev pub entry : {A : Type 0} → FdMap A → ℕ → Option A
entry map i = get_or map.buffer i none

module _ {A : Type 0} where
  -- A read never faults, and finds the entry.
  pub fd_map_get-entry :
      {map : FdMap A} → IsValid map → (fd : ℕ) → fd_map_get map (pos fd) ≡ some (entry map fd)
  unfolding fd_map_get
  fd_map_get-entry {map} v fd =
      ground (arith, get_or-past map.buffer fd none, get_elem?-get_or map.buffer fd none)

  entry-grow :
      {map : FdMap A} (fd : ℕ) → IsValid map → (i : ℕ) → entry (grow map fd) i ≡ entry map i
  unfolding grow
  entry-grow {map} fd v i =
      get_or-append_replicate (take map.capacity map.buffer) ((fd + 1) * 2 - map.capacity) i none
      ∙ ap (λ (xs : List (Option A)). get_or xs i none)
          (take_all map.capacity map.buffer (omega (arith, v.block)))

  grow-IsValid :
      {map : FdMap A} (fd : ℕ)
      → IsValid map
      → map.capacity ≤ fd
      → fd < 32767
      → IsValid (grow map fd)
  unfolding grow
  grow-IsValid {map} fd v past small = record {
    block = omega (
      arith,
      v.block,
      length-append (take map.capacity map.buffer) (replicate ((fd + 1) * 2 - map.capacity) none),
      length-take map.capacity map.buffer,
      length-replicate {A = Option A} ((fd + 1) * 2 - map.capacity) none,
    );
    word = omega arith;
  }

  put_at-Returns :
      {map : FdMap A} (fd : ℕ) (ptr : Option A)
      → IsValid map
      → fd < map.capacity
      → Returns (put_at map fd ptr) (λ r.
        (r.0 ≡ pos 0)
        × IsValid r.1
        × ((i : ℕ) → entry r.1 i ≡ (if fd == i then ptr else entry map i)))
  unfolding put_at
  put_at-Returns {map} fd ptr v inside =
      rw (store_in_bounds map.buffer fd ptr (omega (arith, v.block))) (
        (pos 0, record map { buffer = set map.buffer fd ptr }),
        refl,
        (
          refl,
          record { block = length-set map.buffer fd ptr ∙ v.block; word = v.word },
          λ i. ground (
            arith,
            get_or-set_self map.buffer i ptr none,
            get_or-set_ne map.buffer fd i ptr none,
            v.block,
          ),
        ),
      )

  in_grown : (map : FdMap A) (fd : ℕ) → fd < 32767 → fd < (grow map fd).capacity
  unfolding grow
  in_grown map fd small = omega arith

  -- On a valid table, and if realloc succeeds, `fd_map_set` at an index below 32767 does not fault,
  -- returns 0 and leaves a valid table, also when the table grows; a read of that index then finds
  -- the pointer, and a read of any other finds what was there.
  pub fd_map_set-Returns :
      {map : FdMap A} (fd : ℕ) (ptr : Option A)
      → IsValid map
      → fd < 32767
      → Returns (fd_map_set true map (pos fd) ptr) (λ r.
        (r.0 ≡ pos 0)
        × IsValid r.1
        × ((i : ℕ) → fd_map_get r.1 (pos i) ≡ some (if fd == i then ptr else entry map i)))
  unfolding fd_map_set
  fd_map_set-Returns {map} fd ptr v small = elim (Bool-cases (leb map.capacity fd)) [
    | inl past ↦
        let v' = grow-IsValid fd v (leb→le _ _ past) small in
        let (r, e, done) = put_at-Returns {map = grow map fd} fd ptr v' (in_grown map fd small) in
        rw past (
          r,
          e,
          (
            done.0,
            done.1,
            λ i.
                fd_map_get-entry done.1 i
                ∙ ap some (done.2 i ∙ ap (λ o. if fd == i then ptr else o) (entry-grow fd v i)),
          ),
        )
    | inr inside ↦
        let (r, e, done) = put_at-Returns fd ptr v (ground arith) in
        rw inside (r, e, (done.0, done.1, λ i. fd_map_get-entry done.1 i ∙ ap some (done.2 i)))
  ]

  -- On a valid table of at most 32767 entries, if realloc succeeds, `fd_map_set` at 32767 returns 0
  -- and every later read, of that index too, finds null.
  pub fd_map_set_wraps :
      {map : FdMap A} (ptr : Option A)
      → IsValid map
      → map.capacity ≤ 32767
      → Returns
          (fd_map_set true map (pos 32767) ptr)
          (λ r. (r.0 ≡ pos 0) × ((i : ℕ) → fd_map_get r.1 (pos i) ≡ some none))
  unfolding fd_map_set put_at grow fd_map_get
  fd_map_set_wraps {map} ptr v past =
      let cells = take map.capacity map.buffer ++ replicate (65536 - map.capacity) none in
      let long : 32767 < length cells = omega (
        arith,
        v.block,
        length-append (take map.capacity map.buffer) (replicate (65536 - map.capacity) none),
        length-take map.capacity map.buffer,
        length-replicate {A = Option A} (65536 - map.capacity) none,
      ) in
      let grows : leb map.capacity 32767 ≡ true = ground arith in
      rw (grows, store_in_bounds cells 32767 ptr long)
        (
          (pos 0, record { buffer = set cells 32767 ptr; capacity = 0 }),
          refl,
          (refl, λ i. ground arith),
        )

  -- On a valid table `fd_map_remove` does not fault and leaves a valid table, in which a read of the
  -- index finds null, unless the index is 0, and a read of any other finds what was there.
  pub fd_map_remove-Returns :
      {map : FdMap A} (fd : ℕ)
      → IsValid map
      → Returns (fd_map_remove map (pos fd)) (λ r.
        IsValid r
        × ((i : ℕ)
            → fd_map_get r (pos i) ≡ some (if ltb 0 fd && (fd == i) then none else entry map i)))
  unfolding fd_map_remove
  fd_map_remove-Returns {map} fd v = elim (Bool-cases (ltb 0 fd && ltb fd map.capacity)) [
    | inl inside ↦
        let bound : fd < length map.buffer = ground (arith, v.block) in
        let v' : IsValid (record map { buffer = set map.buffer fd none }) = record {
          block = length-set map.buffer fd none ∙ v.block;
          word = v.word;
        } in
        rw (inside, store_in_bounds map.buffer fd none bound)
          (
            record map { buffer = set map.buffer fd none },
            refl,
            (
              v',
              λ i.
                  fd_map_get-entry v' i
                  ∙ ap some (
                      ground (
                        arith,
                        get_or-set_self map.buffer fd none none bound,
                        get_or-set_ne map.buffer fd i none none,
                      )),
            ),
          )
    | inr outside ↦ rw outside (
      map,
      refl,
      (
        v,
        λ i.
            fd_map_get-entry v i ∙ ap some (ground (arith, v.block, get_or-past map.buffer i none)),
      ),
    )
  ]

  -- What the search for a free index finds among the indices 1 to `bound - 1`.
  abbrev pub FirstNull : FdMap A → ℕ → ℤ → Type 0
  FirstNull map bound (pos id) =
      (0 < id)
      × (id < bound)
      × (entry map id ≡ none)
      × ((i : ℕ) → 0 < i → i < id → entry map i ≢ none)
  FirstNull map bound (negsuc n) = (n ≡ 0) × ((i : ℕ) → 0 < i → i < bound → entry map i ≢ none)

  first_null-FirstNull :
      (map : FdMap A) (bound rounds i : ℕ)
      → 0 < i
      → i + rounds ≡ bound
      → bound ≤ length map.buffer
      → ((j : ℕ) → 0 < j → j < i → entry map j ≢ none)
      → Returns (first_null map.buffer rounds i) (FirstNull map bound)
  unfolding first_null
  first_null-FirstNull map bound zero i positive e room before =
      (minus_one, refl, (refl, λ j low high. before j low (omega arith)))
  first_null-FirstNull map bound (suc rounds) i positive e room before =
      elim (load_cases map.buffer i (omega arith)) [
        | inl h ↦ rw h (
          pos i,
          refl,
          (positive, omega arith, ground (arith, get_elem?-get_or map.buffer i none), before),
        )
        | inr (p, h) ↦ rw h (
            first_null-FirstNull map bound rounds (i + 1) (omega arith) (omega arith) room
              (λ j low high. elim (ℕ_discrete j i) [
                | yes same ↦ rw same (λ empty.
                    let read = get_elem?-get_or map.buffer i none (omega arith) in absurd (cc))
                | no ne ↦ before j low (omega arith)
              ]))
      ]

  -- The indices that the search looks at are 1 to `search_bound - 1`.
  abbrev pub search_bound : FdMap A → ℕ → ℕ
  search_bound map next = if leb map.capacity next then map.capacity - 1 else next

  -- On a valid table `fd_map_get_first_null_id` does not fault, and returns the smallest free index
  -- from 1 on below its bound, which is `next_free_id` or one less than the capacity; it returns -1
  -- only if there is none.
  pub fd_map_get_first_null_id-FirstNull :
      {map : FdMap A} (next : ℕ)
      → IsValid map
      → Returns (fd_map_get_first_null_id map (pos next)) (FirstNull map (search_bound map next))
  unfolding fd_map_get_first_null_id
  fd_map_get_first_null_id-FirstNull {map} next v =
      let bound = search_bound map next in
      elim (dec_lt 0 bound) [
        | yes some_round ↦
            first_null-FirstNull map bound (bound - 1) 1 (omega arith) (omega arith)
              (ground (arith, v.block)) (λ j low high. absurd (omega arith))
        | no no_round ↦
            let zero_rounds : bound - 1 ≡ 0 = omega arith in
            unfold first_null in
            rw zero_rounds (minus_one, refl, (refl, λ i low high. absurd (omega arith)))
      ]
