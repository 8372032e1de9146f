-- ===== src/Net/Session/Cut.antt =====
-- A packet that arrives in pieces.
use ad_rtb_adapter.Base.{
  ℕ, suc, ◌+◌, ◌≤◌, ◌<◌, ◌≡◌, refl, sym, ap, ap₂, ◌∙◌, Option, none, some, List, [], ◌∷◌, ◌++◌,
  length, length-append, append_assoc, append-nil, arith,
}
use ad_rtb_adapter.Base.Int.{ℤ, pos, negsuc, ◌+ℤ◌}
use ad_rtb_adapter.Net.Session.{Reading, no_packet, complete_packet, read_pieces, push_packet}
use ad_rtb_adapter.Protocol.Wire.{Bytes}

-- No piece has a head of its own.
abbrev pub Headless : (Bytes → ℤ) → List Bytes → Type 0
Headless f [] = Unit {0}
Headless f (c ∷ cs) = (f c ≡ negsuc 0) × Headless f cs

abbrev pub together : List Bytes → Bytes
together [] = []
together (c ∷ cs) = c ++ together cs

-- The state of a session that has read `n + 1` bytes in the pieces `cs` of a packet of length `len`.
abbrev pub waiting : ℕ → ℕ → List Bytes → Reading
waiting len n cs = record { packet_len = pos len; read_len = pos n; cache = cs }

read_pieces-fault :
    (f : Bytes → ℤ) (c : Bytes) (cs : List Bytes) (r : Reading)
    → complete_packet f c r ≡ none
    → read_pieces f (c ∷ cs) r ≡ none
unfolding read_pieces
read_pieces-fault f c cs r e = rw (read_pieces, e) refl

read_pieces-later :
    (f : Bytes → ℤ) (c : Bytes) (cs : List Bytes) (r : Reading) {s : Reading} {o : Option Bytes}
    → complete_packet f c r ≡ some (s, o)
    → read_pieces f cs s ≡ none
    → read_pieces f (c ∷ cs) r ≡ none
unfolding read_pieces
read_pieces-later f c cs r e h = rw (read_pieces, e, h) refl

read_pieces-cons :
    (f : Bytes → ℤ) (c : Bytes) (cs : List Bytes) (r : Reading) {s t : Reading} {o : Option Bytes}
    {out : List Bytes}
    → complete_packet f c r ≡ some (s, o)
    → read_pieces f cs s ≡ some (t, out)
    → read_pieces f (c ∷ cs) r ≡ some (t, push_packet o out)
unfolding read_pieces
read_pieces-cons f c cs r e h = rw (read_pieces, e, h) refl

module _ (f : Bytes → ℤ) (len : ℕ) where
  complete_waits :
      (c : Bytes) (n : ℕ) (ds : List Bytes)
      → f c ≡ negsuc 0
      → n + length c < len
      → complete_packet f c (waiting len n ds)
        ≡ some (waiting len (n + length c) (ds ++ c ∷ []), none)
  unfolding complete_packet ◌+ℤ◌
  complete_waits c n ds h l = rw h (ground (arith, l))

  read-Headless :
      (cs : List Bytes) (n : ℕ) (ds : List Bytes)
      → Headless f cs
      → n + length (together cs) < len
      → read_pieces f cs (waiting len n ds)
        ≡ some (waiting len (n + length (together cs)) (ds ++ cs), [])
  unfolding read_pieces
  read-Headless [] n ds h l =
      ap (λ (r : Reading). some (r, []))
        (ap₂ (λ (k : ℕ) (es : List Bytes). waiting len k es) (omega arith) (sym (append-nil ds)))
  read-Headless (c ∷ cs) n ds h l =
      let e = length-append c (together cs) in
      read_pieces-cons f c cs (waiting len n ds) (complete_waits c n ds h.0 (omega (arith, l, e)))
        (read-Headless cs (n + length c) (ds ++ c ∷ []) h.1 (omega (arith, l, e)))
      ∙ ap (λ (r : Reading). some (r, []))
          (ap₂ (λ (k : ℕ) (es : List Bytes). waiting len k es) (omega (arith, e))
            (append_assoc ds (c ∷ []) cs))

  start_waits :
      (c : Bytes)
      → f c ≡ pos len
      → 0 < length c
      → length c < len
      → (n : ℕ) × (length c ≡ suc n)
        × (complete_packet f c no_packet ≡ some (waiting len n (c ∷ []), none))
  unfolding complete_packet ◌+ℤ◌
  start_waits [] h z l = absurd (omega (arith, z))
  start_waits (b ∷ c) h z l = (length c, refl, rw h (ground (arith, l)))

  -- A piece announces a packet that is longer than it, and pieces without a head follow. While no more
  -- bytes have come than the packet has, nothing is delivered, not even when the packet is complete.
  pub read_pieces-cut :
      (c : Bytes) (cs : List Bytes)
      → f c ≡ pos len
      → 0 < length c
      → length c < len
      → Headless f cs
      → length (together (c ∷ cs)) ≤ len
      → (r : Reading) × (read_pieces f (c ∷ cs) no_packet ≡ some (r, [])) × (r.cache ≡ c ∷ cs)
  read_pieces-cut c cs h z l hs t =
      let (n, e, run) = start_waits c h z l in
      let bound : n + length (together cs) < len =
        omega (arith, e, t, length-append c (together cs)) in
      (
        waiting len (n + length (together cs)) (c ∷ cs),
        read_pieces-cons f c cs no_packet run (read-Headless cs n (c ∷ []) hs bound),
        refl,
      )

  complete_late :
      (c : Bytes) (n : ℕ) (ds : List Bytes)
      → f c ≡ negsuc 0
      → n + length c ≡ len
      → complete_packet f c (waiting len n ds) ≡ none
  unfolding complete_packet ◌+ℤ◌
  complete_late c n ds h l = rw h (ground (arith, l))

  Headless-late :
      (cs : List Bytes) (d : Bytes) (n : ℕ) (ds : List Bytes)
      → Headless f cs
      → f d ≡ negsuc 0
      → n + length (together cs) < len
      → n + length (together cs) + length d ≡ len
      → read_pieces f (cs ++ d ∷ []) (waiting len n ds) ≡ none
  Headless-late [] d n ds hs k l total =
      read_pieces-fault f d [] (waiting len n ds) (complete_late d n ds k (omega (arith, total)))
  Headless-late (c ∷ cs) d n ds hs k l total =
      let e = length-append c (together cs) in
      read_pieces-later f c (cs ++ d ∷ []) (waiting len n ds)
        (complete_waits c n ds hs.0 (omega (arith, l, e)))
        (Headless-late cs d (n + length c) (ds ++ c ∷ []) hs.1 k (omega (arith, l, e))
          (omega (arith, total, e)))

  -- A piece announces a packet that is longer than it, and pieces without a head follow. The pieces are
  -- put together when one byte more has come than the packet has, which ends in a read of freed memory.
  pub read_pieces-late :
      (c : Bytes) (cs : List Bytes) (d : Bytes)
      → f c ≡ pos len
      → 0 < length c
      → length c < len
      → Headless f cs
      → f d ≡ negsuc 0
      → length (together (c ∷ cs)) ≤ len
      → length (together (c ∷ cs)) + length d ≡ len + 1
      → read_pieces f (c ∷ (cs ++ d ∷ [])) no_packet ≡ none
  read_pieces-late c cs d h z l hs k t total =
      let (n, e, run) = start_waits c h z l in
      let le = length-append c (together cs) in
      read_pieces-later f c (cs ++ d ∷ []) no_packet run
        (Headless-late cs d n (c ∷ []) hs k (omega (arith, e, t, le)) (omega (arith, e, total, le)))
