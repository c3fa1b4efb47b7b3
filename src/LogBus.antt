-- ===== src/LogBus.antt =====
-- The log's ring, which many threads write and one reads: SupportStructure/log_bus.c and its header.
-- A call runs under the mutex, so it is one step. A blocking call that waits goes on from what the bus
-- is at its next wake-up; the wake-ups are a list, and `none` is a call that still waits. An index is
-- always in bounds, and so the same `none` is never an access out of bounds, which `Refine` shows.
pub mod Refine
pub mod Run
mod Tests
use pega_s.Prelude.{
  ℕ, zero, suc, ◌+◌, ◌-◌, ◌^◌, bit_and, Bool, true, false, Option, none, some, List, [], ◌∷◌, ℤ,
  pos, minus_one, leb, if◌then◌else◌, u64, load, store, replicate, take, ◌>>=◌,
}

abbrev pub mpsc_buffer_size : ℕ
mpsc_buffer_size = 1024

-- `log_level_t`.
pub data Level : Type 0 where
  log_info log_warn log_error log_debug log_session : Level

-- `log_entry_t`.
pub record Entry : Type 0 where
  pub timestamp : ℕ
  pub session_id : ℕ
  pub level : Level
  pub message : List ℕ

-- `log_bus_t`, without the mutex and the conditions.
pub record LogBus : Type 0 where
  pub write_position : ℕ
  pub read_position : ℕ
  pub entries : List Entry

abbrev pub zero_entry : Entry
zero_entry = record { timestamp = 0; session_id = 0; level = Level.log_info; message = [] }

-- `room` says whether malloc and the three initialisations succeed.
unfoldable pub log_bus_init : Bool → Option LogBus
log_bus_init false = none
log_bus_init true = some (record {
  write_position = 0;
  read_position = 0;
  entries = replicate mpsc_buffer_size zero_entry;
})

abbrev pub is_full : LogBus → Bool
is_full bus = leb mpsc_buffer_size (u64 (bus.write_position + 2 ^ 64 - bus.read_position))

abbrev pub is_empty : LogBus → Bool
is_empty bus = leb bus.write_position bus.read_position

abbrev pub slot : ℕ → ℕ
slot position = bit_and position (mpsc_buffer_size - 1)

-- The entry is written.
unfoldable pub put_entry : LogBus → Entry → Option (ℤ × LogBus)
put_entry bus entry = do
  entries ← store bus.entries (slot bus.write_position) entry
  some (pos 0, record bus { entries = entries; write_position = u64 (bus.write_position + 1) })

-- The oldest entry is read.
unfoldable pub take_entry : LogBus → Option (ℤ × Option Entry × LogBus)
take_entry bus = do
  entry ← load bus.entries (slot bus.read_position)
  some (pos 0, some entry, record bus { read_position = u64 (bus.read_position + 1) })

unfoldable pub log_bus_push_blocking : List LogBus → LogBus → Entry → Option (ℤ × LogBus)
log_bus_push_blocking [] bus entry = if is_full bus then none else put_entry bus entry
log_bus_push_blocking (woken ∷ later) bus entry =
    let waited = log_bus_push_blocking later woken entry in
    if is_full bus then waited else put_entry bus entry

unfoldable pub log_bus_push : LogBus → Entry → Option (ℤ × LogBus)
log_bus_push bus entry = if is_full bus then some (minus_one, bus) else put_entry bus entry

unfoldable pub log_bus_pop : LogBus → Option (ℤ × Option Entry × LogBus)
log_bus_pop bus = if is_empty bus then some (minus_one, none, bus) else take_entry bus

-- It waits once: a wake-up that finds the bus empty ends it.
unfoldable pub log_bus_pop_blocking : Option LogBus → LogBus → Option (ℤ × Option Entry × LogBus)
log_bus_pop_blocking none bus = if is_empty bus then none else take_entry bus
log_bus_pop_blocking (some woken) bus =
    if is_empty bus
    then (if is_empty woken then some (minus_one, none, woken) else take_entry woken)
    else take_entry bus

unfoldable pub log_bus_mutex_available : LogBus → ℕ
log_bus_mutex_available bus = u64 (bus.write_position + 2 ^ 64 - bus.read_position)

abbrev is_session : Level → Bool
is_session Level.log_info = false
is_session Level.log_warn = false
is_session Level.log_error = false
is_session Level.log_debug = false
is_session Level.log_session = true

-- A text is cut to what a buffer of 256 bytes holds. The code of the push is not looked at. `clock` is the time in milliseconds, and `wakes` the
-- wake-ups of a push that waits.
unfoldable pub log_bus_push_message :
    ℕ → List LogBus → Option LogBus → ℕ → Level → List ℕ → Option (ℤ × Option LogBus)
log_bus_push_message clock wakes none session_id level message = some (minus_one, none)
log_bus_push_message clock wakes (some bus) session_id level message =
    let m : Entry = record {
      timestamp = u64 clock;
      session_id = session_id;
      level = level;
      message = take 255 message;
    } in
    (if is_session level then log_bus_push_blocking wakes bus m else log_bus_push bus m) >>= λ r.
    some (pos 0, some r.1)

-- `message` is what `vsnprintf` makes of the format and its arguments.
unfoldable pub log_bus_push_param :
    ℕ → List LogBus → Option LogBus → ℕ → Level → List ℕ → Option (ℤ × Option LogBus)
log_bus_push_param clock wakes none session_id level message = some (minus_one, none)
log_bus_push_param clock wakes (some bus) session_id level message =
    log_bus_push_message clock wakes (some bus) session_id level (take 255 message)
