-- ===== src/Buff/Ring/Access.antt =====
-- A thread that writes and a thread that reads the ring at the same time, as `AdRingBufferSRSW` lets
-- them with no lock. The steps are the accesses to what the two share: the test, the access to the
-- cell, and the new position; then the thread counts, in a count that is its own. Either thread may take its next step at any time; the accesses are
-- taken to happen one after another. In the other classes the write lock lets one writer at a time
-- in, and the read lock one reader, so that the two stand for whoever is in; those classes have no
-- counts. The `pop` of MRMW and MRSW is left out: it calls itself.

use ad_rtb_adapter.Base.{ℕ, ◌+◌, ◌%◌, ◌^◌, ◌≡◌, some, false, List, [], ◌∷◌, ◌++◌, set, get_elem?}
use ad_rtb_adapter.Buff.Ring.{Ring, wrap, full, empty}
use ad_rtb_adapter.Buff.Ring.Queue.{}

-- Where the thread that calls `push` or `tryPush` stands: outside, behind a test that found room, with
-- the cell written and the position not yet, or with the position moved and `m_uiWriteCount` not yet.
pub data Writer {ℓ} (A : Type ℓ) : Type ℓ where
  outside : Writer A
  tested : A → Writer A
  stored : A → Writer A
  moved : Writer A

-- The same for `pop` and `tryPop`.
pub data Reader {ℓ} (A : Type ℓ) : Type ℓ where
  away : Reader A
  found : Reader A
  loaded : A → Reader A
  passed : Reader A

-- The state. `given` are the values that the moves of the write position have taken in, `taken` those
-- that the moves of the read position have passed; the counts are `m_uiWriteCount` and `m_uiReadCount`.
pub record Shared {ℓ} (A : Type ℓ) : Type ℓ where
  pub ring : Ring A
  pub writer : Writer A
  pub reader : Reader A
  pub given : List A
  pub taken : List A
  pub write_count : ℕ
  pub read_count : ℕ

module _ {ℓ} {A : Type ℓ} where
  abbrev pub at_start : Ring A → Shared A
  at_start r = record {
    ring = r;
    writer = outside;
    reader = away;
    given = [];
    taken = [];
    write_count = 0;
    read_count = 0;
  }

  -- A test that fails leaves the thread outside: it returns false, or waits and tests again.
  pub data Step : Shared A → Shared A → Type ℓ where
    test_room :
        (s : Shared A) (x : A)
        → s.writer ≡ outside
        → full s.ring ≡ some false
        → Step s (record s { writer = tested x })
    store_cell :
        (s : Shared A) (x : A)
        → s.writer ≡ tested x
        → Step s (record s {
          ring = record s.ring { cells = set s.ring.cells s.ring.write x };
          writer = stored x;
        })
    move_write :
        (s : Shared A) (x : A) (i : ℕ)
        → s.writer ≡ stored x
        → wrap (s.ring.write + 1) s.ring.bound ≡ some i
        → Step s (record s {
          ring = record s.ring { write = i };
          writer = moved;
          given = s.given ++ x ∷ [];
        })
    count_write :
        (s : Shared A)
        → s.writer ≡ moved
        → Step s (record s { writer = outside; write_count = (s.write_count + 1) % 2 ^ 32 })
    test_entry :
        (s : Shared A)
        → s.reader ≡ away
        → empty s.ring ≡ false
        → Step s (record s { reader = found })
    load_cell :
        (s : Shared A) (x : A)
        → s.reader ≡ found
        → get_elem? s.ring.cells s.ring.read ≡ some x
        → Step s (record s { reader = loaded x })
    move_read :
        (s : Shared A) (x : A) (i : ℕ)
        → s.reader ≡ loaded x
        → wrap (s.ring.read + 1) s.ring.bound ≡ some i
        → Step s (record s {
          ring = record s.ring { read = i };
          reader = passed;
          taken = s.taken ++ x ∷ [];
        })
    count_read :
        (s : Shared A)
        → s.reader ≡ passed
        → Step s (record s { reader = away; read_count = (s.read_count + 1) % 2 ^ 32 })

  pub data Steps : Shared A → Shared A → Type ℓ where
    stop : (s : Shared A) → Steps s s
    step : (s t u : Shared A) → Step s t → Steps t u → Steps s u

  -- What a thread has done and not yet counted.
  abbrev pub uncounted_write : Writer A → ℕ
  uncounted_write moved = 1
  uncounted_write _ = 0

  abbrev pub uncounted_read : Reader A → ℕ
  uncounted_read passed = 1
  uncounted_read _ = 0
