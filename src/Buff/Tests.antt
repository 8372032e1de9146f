-- ===== src/Buff/Tests.antt =====
-- Runs of the buffers.
use ad_rtb_adapter.Base.Int.{pos, negsuc}
use ad_rtb_adapter.Base.{
  ℕ, ◌+◌, ◌%◌, ◌^◌, ◌≤◌, ◌≡◌, refl, some, true, false, List, [], ◌∷◌, ◌++◌, length, arith,
}
use ad_rtb_adapter.Buff.Ring.{
  Ring, Call, push_call, pop_call, pushed, popped, init, calls, full, size,
}
use ad_rtb_adapter.Buff.Ring.Queue.{queue_calls, calls-init}
use ad_rtb_adapter.Buff.Ring.Access.{
  Shared, tested, stored, moved, outside, found, at_start, test_room, store_cell, move_write,
  count_write, test_entry, Steps, stop, step, uncounted_write, uncounted_read,
}
use ad_rtb_adapter.Buff.Ring.Threads.{steps_lem}
use ad_rtb_adapter.Buff.LoopRead.{Change, added, removed, changes, fresh, check}
use ad_rtb_adapter.Buff.LoopRead.Consistent.{Consistent, stands, check-changes-fresh}
use ad_rtb_adapter.Buff.PingPong.{PingPong}

abbrev no_ring : Ring ℕ
no_ring = record { cells = []; bound = negsuc 0; read = 0; write = 0 }

abbrev six_calls : List (Call ℕ)
six_calls = push_call 5 ∷ push_call 6 ∷ push_call 7 ∷ pop_call ∷ push_call 8 ∷ pop_call ∷ []

-- Two entries fit in three cells.
queue_calls_test : queue_calls 3 six_calls [] ≡ (
  pushed true ∷ pushed true ∷ pushed false ∷ popped (some 5) ∷ pushed true ∷ popped (some 6) ∷ [],
  8 ∷ [],
)
queue_calls_test = refl

calls-init_example :
    (r' : Ring ℕ) × (calls six_calls (init 0 (pos 3) no_ring)
      ≡ some ((queue_calls 3 six_calls []).0, r'))
    × (size r' ≡ length (queue_calls 3 six_calls []).1)
calls-init_example = calls-init 2 0 no_ring six_calls (omega arith)

abbrev started : Shared ℕ
started = at_start (init 0 (pos 2) no_ring)

abbrev with_room : Shared ℕ
with_room = record started { writer = tested 9 }

abbrev with_cell : Shared ℕ
with_cell = record with_room {
  ring = record started.ring { cells = 9 ∷ 0 ∷ [] };
  writer = stored 9;
}

abbrev with_entry : Shared ℕ
with_entry = record with_cell {
  ring = record with_cell.ring { write = 1 };
  writer = moved;
  given = 9 ∷ [];
}

-- The reader finds the entry before the writer has counted it.
abbrev with_reader : Shared ℕ
with_reader = record with_entry { reader = found }

abbrev with_count : Shared ℕ
with_count = record with_reader { writer = outside; write_count = 1 }

with_count-Steps : Steps started with_count
unfolding full
with_count-Steps = step started with_room with_count (test_room started 9 refl refl) (
    step with_room with_cell with_count (store_cell with_room 9 refl) (
      step with_cell with_entry with_count (move_write with_cell 9 1 refl refl) (
        step with_entry with_reader with_count (test_entry with_entry refl refl) (
          step with_reader with_count with_count (count_write with_reader refl)
            (stop with_count)))))

steps_example :
    (q : List ℕ) × (with_count.given ≡ with_count.taken ++ q)
    × (length q ≤ 1)
    × ((with_count.write_count + uncounted_write with_count.writer) % 2 ^ 32
        ≡ ((with_count.read_count + uncounted_read with_count.reader) + length q) % 2 ^ 32)
steps_example = steps_lem 1 0 no_ring with_count with_count-Steps

abbrev three_changes : List Change
three_changes = added 30 ∷ added 20 ∷ removed 30 ∷ []

check-changes-fresh_example :
    (check 20 (changes three_changes fresh) ≡ stands 20 three_changes false)
    × Consistent (changes three_changes fresh)
check-changes-fresh_example = check-changes-fresh 20 three_changes

abbrev two_copies : PingPong ℕ
two_copies = record { request_a = 1; request_b = 2; first = false }
