-- ===== src/LogBus/Tests.antt =====
-- Runs of the log's ring: an empty one, and a full one.
use native.Mathlib.Nat.{mod-lt}
use pega_s.Prelude.{
  ℕ, zero, suc, ◌+◌, ◌%◌, ◌<◌, ◌≡◌, refl, some, List, [], ◌∷◌, arith, length, get_elem?, replicate,
  Returns,
}
use pega_s.Ring.Refine.{Window}
use pega_s.LogBus.{Level, Entry, LogBus, zero_entry, log_bus_push_blocking}
use pega_s.LogBus.Refine.{Holds, Put, log_bus_push_blocking-Put}
use pega_s.LogBus.Run.{Call, run, queue_run, calls_refine}

abbrev entry : ℕ → Entry
entry n = record { timestamp = n; session_id = 1; level = Level.log_session; message = [] }

-- As `log_bus_init` makes it.
abbrev fresh : LogBus
fresh = record { write_position = 0; read_position = 0; entries = replicate 1024 zero_entry }

abbrev full : LogBus
full = record { write_position = 1024; read_position = 0; entries = replicate 1024 zero_entry }

length-replicate : (n : ℕ) (x : Entry) → length (replicate n x) ≡ n
length-replicate zero x = refl
length-replicate (suc n) x = omega (arith, length-replicate n x)

get-replicate : (n i : ℕ) (x : Entry) → i < n → get_elem? (replicate n x) i ≡ some x
get-replicate zero i x h = absurd (omega arith)
get-replicate (suc n) zero x h = refl
get-replicate (suc n) (suc i) x h = get-replicate n i x (omega arith)

-- Equal cells hold so many equal entries, from any index on.
Window-replicate : (p h n : ℕ) (x : Entry) → h < p → Window (replicate p x) p h (replicate n x)
Window-replicate p h zero x inside = tt
Window-replicate p h (suc n) x inside = (
  get-replicate p h x inside,
  Window-replicate p ((h + 1) % p) n x (mod-lt (h + 1) (omega arith)),
)

fresh-Holds : Holds fresh []
fresh-Holds = record {
  count = refl;
  room = omega arith;
  block = length-replicate 1024 zero_entry;
  small = omega arith;
  cells = tt;
}

full-Holds : Holds full (replicate 1024 zero_entry)
full-Holds = record {
  count = omega (arith, length-replicate 1024 zero_entry);
  room = omega (arith, length-replicate 1024 zero_entry);
  block = length-replicate 1024 zero_entry;
  small = omega arith;
  cells = Window-replicate 1024 0 1024 zero_entry (omega arith);
}

abbrev calls : List Call
calls = Call.put (entry 1) ∷ Call.put (entry 2) ∷ Call.get ∷ Call.get ∷ Call.get ∷ []

calls_refine_example : run fresh calls ≡ some (queue_run [] calls)
calls_refine_example = calls_refine calls [] fresh-Holds (omega arith)

log_bus_push_blocking-Put_example :
    Returns (log_bus_push_blocking (full ∷ fresh ∷ []) full (entry 3)) (Put fresh [] (entry 3))
log_bus_push_blocking-Put_example =
    log_bus_push_blocking-Put full (full ∷ []) fresh [] (entry 3)
      (
        (replicate 1024 zero_entry, full-Holds, length-replicate 1024 zero_entry),
        ((replicate 1024 zero_entry, full-Holds, length-replicate 1024 zero_entry), tt),
      )
      fresh-Holds (omega arith) (omega arith)
