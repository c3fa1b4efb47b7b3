-- ===== src/LogBus/Refine.antt =====
-- The log's ring is a first-in first-out queue of at most 1024 entries.
use native.Mathlib.Nat.{mod-lt, mod-eq_of_lt}
use pega_s.Prelude.{
  ℕ, ◌+◌, ◌%◌, ◌≤◌, ◌<◌, ◌≡◌, ◌⊎◌, refl, ap, subst, ◌∙◌, true, false, Option, none, some, List, [],
  ◌∷◌, ◌++◌, ℤ, pos, minus_one, leb, arith, u64, length, length-append, length-set, load,
  store_in_bounds, Returns, Bool-cases, inl, inr,
}
use pega_s.Prelude.Bits.{bit_and-mask}
use pega_s.Ring.Refine.{Window, Window-set}
use pega_s.LogBus.{
  Entry, LogBus, is_full, is_empty, slot, put_entry, take_entry, log_bus_push_blocking,
  log_bus_push, log_bus_pop,
}

-- The bus holds the entries of a queue, and its counters have not gone round.
pub record Holds (bus : LogBus) (q : List Entry) : Type 0 where
  pub count : bus.read_position + length q ≡ bus.write_position
  pub room : length q ≤ 1024
  pub block : length bus.entries ≡ 1024
  pub small : bus.write_position < 18446744073709551616
  pub cells : Window bus.entries 1024 (bus.read_position % 1024) q

slot-mod : (position : ℕ) → slot position ≡ position % 1024
slot-mod position = bit_and-mask 10 position

is_full-eq : {bus : LogBus} {q : List Entry} → Holds bus q → is_full bus ≡ leb 1024 (length q)
is_full-eq {bus} {q} h = ap (λ (n : ℕ). leb 1024 n) (omega (arith, h.count, h.small))

is_empty-false :
    {bus : LogBus} {x : Entry} {q : List Entry} → Holds bus (x ∷ q) → is_empty bus ≡ false
is_empty-false {bus} {x} {q} h = let e = h.count in ground arith

is_empty-true : {bus : LogBus} → Holds bus [] → is_empty bus ≡ true
is_empty-true {bus} h = let e = h.count in ground arith

-- What a write leaves behind.
abbrev pub Put : LogBus → List Entry → Entry → ℤ × LogBus → Type 0
Put bus q x (code, bus') =
    (code ≡ pos 0) × (bus'.write_position ≡ bus.write_position + 1) × Holds bus' (q ++ x ∷ [])

put_entry-Put :
    {bus : LogBus} {q : List Entry} (x : Entry)
    → Holds bus q
    → length q < 1024
    → bus.write_position + 1 < 18446744073709551616
    → Returns (put_entry bus x) (Put bus q x)
unfolding put_entry
put_entry-Put {bus} {q} x h free more =
    let at = slot-mod bus.write_position in
    let inside : bus.write_position % 1024 < 1024 = mod-lt bus.write_position (omega arith) in
    let next : u64 (bus.write_position + 1) ≡ bus.write_position + 1 = mod-eq_of_lt more in
    let place : bus.write_position % 1024 ≡ (bus.read_position % 1024 + length q) % 1024 =
      omega (arith, h.count) in
    rw
      (at, store_in_bounds bus.entries (bus.write_position % 1024) x (omega (arith, h.block)), next)
      (
        _,
        refl,
        (
          refl,
          refl,
          record {
            count = omega (arith, h.count, length-append q (x ∷ []));
            room = omega (arith, length-append q (x ∷ []));
            block = length-set bus.entries (bus.write_position % 1024) x ∙ h.block;
            small = more;
            cells =
                Window-set bus.entries 1024 x q (bus.read_position % 1024)
                  (bus.write_position % 1024) h.block (mod-lt bus.read_position (omega arith)) free
                  place h.cells;
          },
        ),
      )

-- The bus has written fewer than 2^64 - 1 entries.
abbrev pub CanCount : LogBus → Type 0
CanCount bus = bus.write_position + 1 < 18446744073709551616

-- `log_bus_push` to a bus that holds a queue does not fault. If the queue has fewer than 1024 entries
-- it returns 0 and appends the entry; otherwise it returns -1 and changes nothing.
pub log_bus_push-Put :
    {bus : LogBus} {q : List Entry} (x : Entry)
    → Holds bus q
    → CanCount bus
    → Returns (log_bus_push bus x) (λ r.
      ((length q < 1024) × Put bus q x r) ⊎ ((length q ≡ 1024) × (r.0 ≡ minus_one) × (r.1 ≡ bus)))
unfolding log_bus_push
log_bus_push-Put {bus} {q} x h more = elim (Bool-cases (leb 1024 (length q))) [
  | inl full ↦
      rw (is_full-eq h, full)
        ((minus_one, bus), refl, inr (let low = h.room in ground arith, refl, refl))
  | inr free ↦
      let (r, e, put) = put_entry-Put x h (ground arith) more in
      rw (is_full-eq h, free, e) (r, refl, inl (ground arith, put))
]

-- What a pop leaves behind.
abbrev pub Taken : LogBus → List Entry → ℤ × Option Entry × LogBus → Type 0
Taken bus [] (code, out, bus') = (code ≡ minus_one) × (out ≡ none) × (bus' ≡ bus)
Taken bus (x ∷ q) (code, out, bus') =
    (code ≡ pos 0) × (out ≡ some x) × (bus'.write_position ≡ bus.write_position) × Holds bus' q

take_entry-Taken :
    {bus : LogBus} {x : Entry} {q : List Entry}
    → Holds bus (x ∷ q)
    → Returns (take_entry bus) (Taken bus (x ∷ q))
unfolding take_entry
take_entry-Taken {bus} {x} {q} h =
    let next : u64 (bus.read_position + 1) ≡ bus.read_position + 1 =
      mod-eq_of_lt (omega (arith, h.count, h.small)) in
    let around : (bus.read_position % 1024 + 1) % 1024 ≡ (bus.read_position + 1) % 1024 =
      omega arith in
    let oldest : load bus.entries (bus.read_position % 1024) ≡ some x = h.cells.0 in
    rw (slot-mod bus.read_position, oldest, next)
      (
        _,
        refl,
        (
          refl,
          refl,
          refl,
          record {
            count = omega (arith, h.count);
            room = omega (arith, h.room);
            block = h.block;
            small = h.small;
            cells = subst (λ (i : ℕ). Window bus.entries 1024 i q) around h.cells.1;
          },
        ),
      )

-- `log_bus_pop` from a bus that holds a queue does not fault. It returns -1 and changes nothing if
-- the queue is empty; otherwise it returns 0 and the oldest entry, which leaves the queue.
pub log_bus_pop-Taken :
    {bus : LogBus} (q : List Entry) → Holds bus q → Returns (log_bus_pop bus) (Taken bus q)
unfolding log_bus_pop
log_bus_pop-Taken {bus} [] h =
    rw (is_empty-true h) ((minus_one, none, bus), refl, (refl, refl, refl))
log_bus_pop-Taken {bus} (x ∷ q) h = rw (is_empty-false h) (take_entry-Taken h)

-- Every bus of some wake-ups holds 1024 entries.
abbrev pub AllFull : List LogBus → Type 0
AllFull [] = Unit
AllFull (bus ∷ buses) = ((q : List Entry) × Holds bus q × (length q ≡ 1024)) × AllFull buses

-- If the bus is full, and so is what each wake-up finds up to one that finds a queue with room,
-- whose counter does not go round, then `log_bus_push_blocking` returns 0 and has appended its entry
-- to that queue.
pub log_bus_push_blocking-Put :
    (bus : LogBus) (fulls : List LogBus) (woken : LogBus) (later : List LogBus) {q : List Entry}
    (x : Entry)
    → AllFull (bus ∷ fulls)
    → Holds woken q
    → length q < 1024
    → CanCount woken
    → Returns (log_bus_push_blocking (fulls ++ woken ∷ later) bus x) (Put woken q x)
unfolding log_bus_push_blocking
log_bus_push_blocking-Put bus (next ∷ fulls) woken later x ((q', h', all), rest) h free more =
    let (r, e, put) = log_bus_push_blocking-Put next fulls woken later x rest h free more in
    let full : leb 1024 (length q') ≡ true = ground arith in
    rw (is_full-eq h', full, e) (r, refl, put)
log_bus_push_blocking-Put bus [] woken [] {q} x ((q', h', all), rest) h free more =
    let full : leb 1024 (length q') ≡ true = ground arith in
    let room : leb 1024 (length q) ≡ false = ground arith in
    rw (is_full-eq h', full, is_full-eq h, room) (put_entry-Put x h free more)
log_bus_push_blocking-Put bus [] woken (last ∷ later) {q} x ((q', h', all), rest) h free more =
    let full : leb 1024 (length q') ≡ true = ground arith in
    let room : leb 1024 (length q) ≡ false = ground arith in
    rw (is_full-eq h', full, is_full-eq h, room) (put_entry-Put x h free more)
