-- ===== src/LogBus/Run.antt =====
-- Any calls of the log's ring, in order.
use pega_s.Prelude.{
  ◌+◌, ◌<◌, ◌≡◌, refl, true, false, Option, none, some, List, [], ◌∷◌, ◌++◌, ℤ, pos, minus_one, ltb,
  if◌then◌else◌, arith, length, ◌>>=◌, inl, inr,
}
use pega_s.LogBus.{Entry, LogBus, log_bus_push, log_bus_pop}
use pega_s.LogBus.Refine.{Holds, log_bus_push-Put, log_bus_pop-Taken}

-- The calls that do not block, and what each returns: the code, and the entry.
pub data Call : Type 0 where
  put : Entry → Call
  get : Call

unfoldable pub run : LogBus → List Call → Option (List (ℤ × Option Entry))
run bus [] = some []
run bus (Call.put x ∷ calls) = do
  (code, bus') ← log_bus_push bus x
  rest ← run bus' calls
  some ((code, none) ∷ rest)
run bus (Call.get ∷ calls) = do
  (code, out, bus') ← log_bus_pop bus
  rest ← run bus' calls
  some ((code, out) ∷ rest)

-- What the log's ring promises: a queue of at most 1024 entries.
unfoldable pub queue_run : List Entry → List Call → List (ℤ × Option Entry)
queue_run q [] = []
queue_run q (Call.put x ∷ calls) =
    let appended = queue_run (q ++ x ∷ []) calls in
    let refused = queue_run q calls in
    if ltb (length q) 1024 then (pos 0, none) ∷ appended else (minus_one, none) ∷ refused
queue_run [] (Call.get ∷ calls) = (minus_one, none) ∷ queue_run [] calls
queue_run (x ∷ q) (Call.get ∷ calls) = (pos 0, some x) ∷ queue_run q calls

-- Whatever calls are made of a bus that holds a queue, if it has not written so many entries that
-- its counters go round, none faults, and what they return is what the queue of at most 1024 entries
-- returns.
pub calls_refine :
    (calls : List Call) {bus : LogBus} (q : List Entry)
    → Holds bus q
    → bus.write_position + length calls < 18446744073709551616
    → run bus calls ≡ some (queue_run q calls)
unfolding run queue_run
calls_refine [] q h few = refl
calls_refine (Call.put x ∷ calls) {bus} q h few =
    let ((code, bus'), e, end) = log_bus_push-Put x h (omega arith) in
    elim end [
      | inl (free, (done, more, h')) ↦
          let room : ltb (length q) 1024 ≡ true = ground arith in
          rw (e, done, room, calls_refine calls (q ++ x ∷ []) h' (omega (arith, more))) refl
      | inr (full, done, same) ↦
          let room : ltb (length q) 1024 ≡ false = ground arith in
          rw (e, done, same, room, calls_refine calls q h (omega arith)) refl
    ]
calls_refine (Call.get ∷ calls) {bus} [] h few =
    let ((code, out, bus'), e, (done, nothing, same)) = log_bus_pop-Taken [] h in
    rw (e, done, nothing, same, calls_refine calls [] h (omega arith)) refl
calls_refine (Call.get ∷ calls) {bus} (x ∷ q) h few =
    let ((code, out, bus'), e, (done, first, same, h')) = log_bus_pop-Taken (x ∷ q) h in
    rw (e, done, first, calls_refine calls q h' (omega (arith, same))) refl
