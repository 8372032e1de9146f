-- ===== src/Buff/Ring/Knows.antt =====
-- What each of two threads may rely on between two accesses to the ring.

use ad_rtb_adapter.Base.{
  ℕ, ◌+◌, ◌%◌, ◌^◌, ◌<◌, ◌≡◌, sym, ap, ◌∙◌, some, List, [], ◌∷◌, ◌++◌, length, length-append,
  length-set, set, get_elem?, get_elem?-set_self, arith, subst,
}
use mathlib.Core.Option.{some-injective}
use ad_rtb_adapter.Buff.Ring.{Ring, wrap}
use ad_rtb_adapter.Buff.Ring.Queue.{Holds, Window, behind, wrap_lem, Window-set, Window-push}
use ad_rtb_adapter.Buff.Ring.Access.{
  Writer, outside, tested, stored, moved, Reader, away, found, loaded, passed, Shared,
  uncounted_write, uncounted_read,
}

-- A count that wraps around has `n` done, but for those not yet counted.
abbrev pub Counts : ℕ → ℕ → ℕ → Type 0
Counts count uncounted n = (k : ℕ) × (n ≡ k + uncounted) × (count ≡ k % 2 ^ 32)

pub counted : (count n : ℕ) → Counts count 1 n → Counts ((count + 1) % 2 ^ 32) 0 n
counted count n (k, e, c) = (k + 1, omega (arith, e), omega (arith, c))

pub same-Counts :
    (w u g r v t l : ℕ)
    → Counts w u g
    → Counts r v t
    → g ≡ t + l
    → (w + u) % 2 ^ 32 ≡ ((r + v) + l) % 2 ^ 32
same-Counts w u g r v t l (k, e, c) (j, d, b) h = omega (arith, e, c, d, b, h)

pub more_to_count : (count n m : ℕ) → m ≡ n + 1 → Counts count 0 n → Counts count 1 m
more_to_count count n m l (k, e, c) = (k, omega (arith, e, l), c)

module _ {ℓ} {A : Type ℓ} where
  -- What each thread may rely on between two steps, in a ring of `n` cells that holds `q`.
  pub data WriterKnows (n : ℕ) (r : Ring A) (q : List A) : Writer A → Type ℓ where
    knows_nothing : WriterKnows n r q outside
    knows_room : (x : A) → length q + 1 < n → WriterKnows n r q (tested x)
    knows_cell :
        (x : A)
        → length q + 1 < n
        → get_elem? r.cells r.write ≡ some x
        → WriterKnows n r q (stored x)
    knows_moved : WriterKnows n r q moved

  pub data ReaderKnows (q : List A) : Reader A → Type ℓ where
    expects_nothing : ReaderKnows q away
    expects_entry : 0 < length q → ReaderKnows q found
    expects_value : (x : A) (p : List A) → q ≡ x ∷ p → ReaderKnows q (loaded x)
    expects_count : ReaderKnows q passed

  -- The ring holds what was given and not yet taken, in order.
  pub record Sound (n : ℕ) (s : Shared A) (q : List A) : Type ℓ where
    pub holds : Holds n s.ring q
    pub order : s.given ≡ s.taken ++ q
    pub writer : WriterKnows n s.ring q s.writer
    pub reader : ReaderKnows q s.reader
    pub writes : Counts s.write_count (uncounted_write s.writer) (length s.given)
    pub reads : Counts s.read_count (uncounted_read s.reader) (length s.taken)

  pub room_of :
      {n : ℕ} {r : Ring A} {q : List A} {x : A} → WriterKnows n r q (tested x) → length q + 1 < n
  room_of (knows_room x h) = h

  pub cell_of :
      {n : ℕ} {r : Ring A} {q : List A} {x : A}
      → WriterKnows n r q (stored x)
      → (length q + 1 < n) × (get_elem? r.cells r.write ≡ some x)
  cell_of (knows_cell x h e) = (h, e)

  pub entry_of : {q : List A} → ReaderKnows q found → 0 < length q
  entry_of (expects_entry h) = h

  pub value_of : {q : List A} {x : A} → ReaderKnows q (loaded x) → (p : List A) × (q ≡ x ∷ p)
  value_of (expects_value x p e) = (p, e)

  -- One thread's step keeps what the other knows.
  pub reader_keeps :
      (q : List A) (y : A) (d : Reader A) → ReaderKnows q d → ReaderKnows (q ++ y ∷ []) d
  reader_keeps q y _ expects_nothing = expects_nothing
  reader_keeps q y _ (expects_entry h) = expects_entry (omega (arith, length-append q (y ∷ [])))
  reader_keeps q y _ (expects_value x p e) = expects_value x (p ++ y ∷ []) (ap (λ l. l ++ y ∷ []) e)
  reader_keeps q y _ expects_count = expects_count

  pub writer_keeps :
      (n i : ℕ) (r : Ring A) (x : A) (p : List A) (w : Writer A)
      → WriterKnows n r (x ∷ p) w
      → WriterKnows n (record r { read = i }) p w
  writer_keeps n i r x p _ knows_nothing = knows_nothing
  writer_keeps n i r x p _ (knows_room y h) = knows_room y (omega arith)
  writer_keeps n i r x p _ (knows_cell y h e) = knows_cell y (omega arith) e
  writer_keeps n i r x p _ knows_moved = knows_moved

  -- The cell that is stored is behind the entries.
  pub store_Holds :
      (n : ℕ) (r : Ring A) (q : List A) (x : A)
      → Holds n r q
      → (Holds n (record r { cells = set r.cells r.write x }) q)
        × (get_elem? (set r.cells r.write x) r.write ≡ some x)
  store_Holds n r q x h =
      let inside : r.write < length r.cells = ground (arith, h.write, h.read, h.fits, h.cells) in
      (
        record {
          bound = h.bound;
          cells = length-set r.cells r.write x ∙ h.cells;
          read = h.read;
          fits = h.fits;
          write = h.write;
          window =
              subst (λ i. Window n (set r.cells i x) r.read q) (sym h.write)
                (Window-set n r.read (length q) r.cells q x h.read h.fits (omega arith) h.window);
        },
        get_elem?-set_self r.cells r.write x inside,
      )

  -- Moving the write position takes the stored cell in.
  pub write_Holds :
      (n i : ℕ) (r : Ring A) (q : List A) (x : A)
      → Holds n r q
      → length q + 1 < n
      → get_elem? r.cells r.write ≡ some x
      → wrap (r.write + 1) r.bound ≡ some i
      → Holds n (record r { write = i }) (q ++ x ∷ [])
  write_Holds n i r q x h room e w =
      let inside : r.write < n = ground (arith, h.write, h.read, h.fits) in
      let moved : i ≡ behind n r.write 1 =
        some-injective i (behind n r.write 1)
          (sym w ∙ ap (wrap (r.write + 1)) h.bound ∙ wrap_lem n r.write inside) in
      let more = length-append q (x ∷ []) in
      record {
        bound = h.bound;
        cells = h.cells;
        read = h.read;
        fits = omega (arith, more);
        write = moved ∙ ground (arith, more, h.write, h.read);
        window =
            Window-push n r.read r.cells q x h.read h.fits h.window
              (subst (λ j. get_elem? r.cells j ≡ some x) h.write e);
      }

  pub read_Holds :
      (n i : ℕ) (r : Ring A) (x : A) (q : List A)
      → Holds n r (x ∷ q)
      → wrap (r.read + 1) r.bound ≡ some i
      → Holds n (record r { read = i }) q
  read_Holds n i r x q h w =
      let moved : i ≡ behind n r.read 1 =
        some-injective i (behind n r.read 1)
          (sym w ∙ ap (wrap (r.read + 1)) h.bound ∙ wrap_lem n r.read h.read) in
      record {
        bound = h.bound;
        cells = h.cells;
        read = ground (arith, moved, h.read, h.fits);
        fits = omega (arith, h.fits);
        write = ground (arith, moved, h.write, h.read, h.fits);
        window = rw (sym moved) at h.window.1;
      }

  pub head_of :
      (n : ℕ) (r : Ring A) (q : List A) (x : A)
      → Holds n r q
      → 0 < length q
      → get_elem? r.cells r.read ≡ some x
      → (p : List A) × (q ≡ x ∷ p)
  head_of n r [] x h lt e = absurd (omega arith)
  head_of n r (y ∷ p) x h lt e = (p, ap (λ z. z ∷ p) (some-injective y x (sym h.window.0 ∙ e)))
