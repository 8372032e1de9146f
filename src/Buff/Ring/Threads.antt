-- ===== src/Buff/Ring/Threads.antt =====
-- The ring between a thread that writes and a thread that reads.
use ad_rtb_adapter.Base.Int.{pos}
use ad_rtb_adapter.Base.{
  ℕ, suc, ◌≤◌, ◌+◌, ◌%◌, ◌^◌, ◌<◌, ◌≡◌, refl, sym, ap, ◌∙◌, append_assoc, false, List, [], ◌∷◌,
  ◌++◌, length, length-append, arith, subst, ◌==◌,
}
use mathlib.Core.Option.{some-injective}
use ad_rtb_adapter.Buff.Ring.{Ring, init}
use ad_rtb_adapter.Buff.Ring.Queue.{Holds, full_lem, empty_lem, init-Holds}
use ad_rtb_adapter.Buff.Ring.Access.{
  Shared, at_start, Step, test_room, store_cell, move_write, count_write, test_entry, load_cell,
  move_read, count_read, Steps, stop, step, uncounted_write, uncounted_read,
}
use ad_rtb_adapter.Buff.Ring.Knows.{
  Counts, counted, same-Counts, more_to_count, room_of, cell_of, entry_of, value_of, reader_keeps,
  writer_keeps, store_Holds, write_Holds, read_Holds, head_of, knows_nothing, knows_room,
  knows_cell, knows_moved, expects_nothing, expects_entry, expects_value, expects_count,
  WriterKnows, ReaderKnows, Sound,
}

module _ {ℓ} {A : Type ℓ} where
  -- Every step of either thread keeps the ring sound.
  Step-Sound :
      (n : ℕ) (s t : Shared A) (q : List A) → Step s t → Sound n s q → (p : List A) × Sound n t p
  Step-Sound n _ _ q (test_room s x o e) h =
      let free : length q + 1 < n =
        let b = some-injective (length q + 1 == n) false (sym (full_lem n s.ring q h.holds) ∙ e) in
        ground (arith, h.holds.fits) in
      (
        q,
        record {
          holds = h.holds;
          order = h.order;
          writer = knows_room x free;
          reader = h.reader;
          writes =
              subst (λ w. Counts s.write_count (uncounted_write w) (length s.given)) o h.writes;
          reads = h.reads;
        },
      )
  Step-Sound n _ _ q (store_cell s x o) h =
      let free = room_of (subst (WriterKnows n s.ring q) o h.writer) in
      let (held, cell) = store_Holds n s.ring q x h.holds in
      (
        q,
        record {
          holds = held;
          order = h.order;
          writer = knows_cell x free cell;
          reader = h.reader;
          writes =
              subst (λ w. Counts s.write_count (uncounted_write w) (length s.given)) o h.writes;
          reads = h.reads;
        },
      )
  Step-Sound n _ _ q (move_write s x i o w) h =
      let (free, cell) = cell_of (subst (WriterKnows n s.ring q) o h.writer) in
      (
        q ++ x ∷ [],
        record {
          holds = write_Holds n i s.ring q x h.holds free cell w;
          order = ap (λ l. l ++ x ∷ []) h.order ∙ append_assoc s.taken q (x ∷ []);
          writer = knows_moved;
          reader = reader_keeps q x s.reader h.reader;
          writes =
              more_to_count s.write_count (length s.given) (length (s.given ++ x ∷ []))
                (length-append s.given (x ∷ []))
                (subst (λ w. Counts s.write_count (uncounted_write w) (length s.given)) o h.writes);
          reads = h.reads;
        },
      )
  Step-Sound n _ _ q (test_entry s o e) h =
      let some_entry : 0 < length q = ground (arith, empty_lem n s.ring q h.holds) in
      (
        q,
        record {
          holds = h.holds;
          order = h.order;
          writer = h.writer;
          reader = expects_entry some_entry;
          writes = h.writes;
          reads = subst (λ w. Counts s.read_count (uncounted_read w) (length s.taken)) o h.reads;
        },
      )
  Step-Sound n _ _ q (load_cell s x o e) h =
      let (p, same) =
        head_of n s.ring q x h.holds (entry_of (subst (ReaderKnows q) o h.reader)) e in
      (
        q,
        record {
          holds = h.holds;
          order = h.order;
          writer = h.writer;
          reader = expects_value x p same;
          writes = h.writes;
          reads = subst (λ w. Counts s.read_count (uncounted_read w) (length s.taken)) o h.reads;
        },
      )
  Step-Sound n _ _ q (move_read s x i o w) h =
      let (p, same) = value_of (subst (ReaderKnows q) o h.reader) in
      (
        p,
        record {
          holds = read_Holds n i s.ring x p (subst (Holds n s.ring) same h.holds) w;
          order = h.order ∙ ap (λ l. s.taken ++ l) same ∙ sym (append_assoc s.taken (x ∷ []) p);
          writer =
              writer_keeps n i s.ring x p s.writer
                (subst (λ l. WriterKnows n s.ring l s.writer) same h.writer);
          reader = expects_count;
          writes = h.writes;
          reads =
              more_to_count s.read_count (length s.taken) (length (s.taken ++ x ∷ []))
                (length-append s.taken (x ∷ []))
                (subst (λ w. Counts s.read_count (uncounted_read w) (length s.taken)) o h.reads);
        },
      )
  Step-Sound n _ _ q (count_write s o) h = (
    q,
    record {
      holds = h.holds;
      order = h.order;
      writer = knows_nothing;
      reader = h.reader;
      writes =
          counted s.write_count (length s.given)
            (subst (λ w. Counts s.write_count (uncounted_write w) (length s.given)) o h.writes);
      reads = h.reads;
    },
  )
  Step-Sound n _ _ q (count_read s o) h = (
    q,
    record {
      holds = h.holds;
      order = h.order;
      writer = h.writer;
      reader = expects_nothing;
      writes = h.writes;
      reads =
          counted s.read_count (length s.taken)
            (subst (λ w. Counts s.read_count (uncounted_read w) (length s.taken)) o h.reads);
    },
  )

  Steps-Sound :
      (n : ℕ) (s t : Shared A) (q : List A) → Steps s t → Sound n s q → (p : List A) × Sound n t p
  Steps-Sound n _ t q (stop s) h = (q, h)
  Steps-Sound n _ _ q (step s u t a more) h =
      let (p, h') = Step-Sound n s u q a h in Steps-Sound n u t p more h'

  -- However the steps of the reader and the writer interleave, what was popped, followed by at most
  -- n entries that wait in a ring of n + 1 cells, is what was pushed, in that order; and the two
  -- counts, each with what its thread has moved and not yet counted, differ by the number of those
  -- entries, as numbers of 32 bits that wrap around. A value is pushed when the write position moves
  -- behind it, and popped when the read position does. Condition: the two start on a ring that was
  -- initialised, with the counts 0.
  pub steps_lem :
      (n : ℕ) (fresh : A) (r : Ring A) (t : Shared A)
      → Steps (at_start (init fresh (pos (suc n)) r)) t
      → (q : List A) × (t.given ≡ t.taken ++ q)
        × (length q ≤ n)
        × ((t.write_count + uncounted_write t.writer) % 2 ^ 32
            ≡ ((t.read_count + uncounted_read t.reader) + length q) % 2 ^ 32)
  steps_lem n fresh r t st =
      let start : Sound (suc n) (at_start (init fresh (pos (suc n)) r)) [] = record {
        holds = init-Holds n fresh r;
        order = refl;
        writer = knows_nothing;
        reader = expects_nothing;
        writes = (0, refl, refl);
        reads = (0, refl, refl);
      } in
      let (q, h) = Steps-Sound (suc n) (at_start (init fresh (pos (suc n)) r)) t [] st start in
      (
        q,
        h.order,
        omega (arith, h.holds.fits),
        same-Counts t.write_count (uncounted_write t.writer) (length t.given) t.read_count
            (uncounted_read t.reader) (length t.taken) (length q) h.writes h.reads
            (ap length h.order ∙ length-append t.taken q),
      )
