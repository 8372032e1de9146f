-- ===== src/Net/Session.antt =====
-- `AdSession`: the packets that `AdSessionRead` puts together, and the queue of what is not yet sent.
-- The socket is what it gives and takes: a list of the pieces that are read, and what `Write` returns.
pub mod Cut
use ad_rtb_adapter.Base.{
  ℕ, zero, suc, ◌+◌, ◌-◌, Bool, true, false, Option, none, some, List, [], ◌∷◌, ◌++◌, length, ltb,
  ◌==◌, if◌then◌else◌,
}
use ad_rtb_adapter.Base.Int.{ℤ, pos, negsuc, ◌+ℤ◌, ltb_ℤ}
use ad_rtb_adapter.Net.Cache.{copy}
use ad_rtb_adapter.Protocol.Wire.{Bytes}

-- Equality of two `int`s, and AD_FAILURE.
abbrev pub same_int : ℤ → ℤ → Bool
same_int (pos m) (pos n) = m == n
same_int (pos m) (negsuc n) = false
same_int (negsuc m) (pos n) = false
same_int (negsuc m) (negsuc n) = m == n

abbrev pub ad_failure : ℤ
ad_failure = negsuc 0

-- `m_iPacketLen`, `m_iReadLen` and `m_ltReadCache`
pub record Reading : Type 0 where
  pub packet_len : ℤ
  pub read_len : ℤ
  pub cache : List Bytes

abbrev pub no_packet : Reading
no_packet = record { packet_len = ad_failure; read_len = ad_failure; cache = [] }

-- Old pieces are dropped, if there are any.
abbrev pub dropped : Reading → Reading
dropped r = if ltb_ℤ r.packet_len (pos 0) then r else no_packet

-- What a piece leads to: the new state, and the packet that is complete. `none` is a fault.
abbrev pub Step : Type 0
Step = Option (Reading × Option Bytes)

-- A piece without a head, behind others. When the packet is complete, the pieces are appended to the
-- first, which is read through an iterator to the element that `pop_front` has freed: a fault.
abbrev pub more_data : Reading → Step
more_data r =
    if same_int r.packet_len r.read_len
    then none
    else if ltb_ℤ r.read_len r.packet_len
    then some (r, none)
    else some (no_packet, none)

abbrev pub with_piece : Bytes → Reading → Reading
with_piece c r = record r { read_len = r.read_len +ℤ pos (length c); cache = r.cache ++ c ∷ [] }

-- `AdSessionCompletePacket` with an interface, whose `PacketLen` is `packet_len_of`.
unfoldable pub complete_packet : (Bytes → ℤ) → Bytes → Reading → Step
complete_packet packet_len_of c r =
    let len = packet_len_of c in
    if same_int len (pos (length c))
    then some (dropped r, some c)
    else if same_int len ad_failure
    then (if same_int r.packet_len ad_failure then some (r, some c) else more_data (with_piece c r))
    else some (with_piece c (record (dropped r) { packet_len = len }), none)

abbrev pub push_packet : Option Bytes → List Bytes → List Bytes
push_packet none cs = cs
push_packet (some c) cs = c ∷ cs

-- The loop of `AdSessionRead` over the pieces that the socket gives until it has no more: the packets,
-- in their order.
unfoldable pub read_pieces : (Bytes → ℤ) → List Bytes → Reading → Option (Reading × List Bytes)
read_pieces packet_len_of [] r = some (r, [])
read_pieces packet_len_of (c ∷ cs) r = elim (complete_packet packet_len_of c r) [
  | none ↦ none
  | some s ↦ elim (read_pieces packet_len_of cs s.0) [
    | none ↦ none
    | some t ↦ some (t.0, push_packet s.1 t.1)
  ]
]

-- What `AdTcp::Write` returns: nothing written yet, an error, or a number of bytes.
pub data Wrote : Type 0 where
  again : Wrote
  failed : Wrote
  wrote : ℕ → Wrote

-- The queue of caches that wait, whether the session is closed, and how many caches `AdSessionWrite()`
-- returns. Closing the session clears the queue.
pub record Sending : Type 0 where
  pub queue : List Bytes
  pub closed : Bool
  pub returned : ℕ

-- `AdSessionWrite(AdCache &)`, and whether it succeeds: of a cache of which a part is written, nothing
-- is kept.
abbrev pub write_some : Bytes → Wrote → List Bytes → Sending
write_some c again queue = record { queue = queue ++ copy c ∷ []; closed = false; returned = 0 }
write_some c failed queue = record { queue = []; closed = true; returned = 0 }
write_some c (wrote n) queue = record { queue = queue; closed = false; returned = 0 }

abbrev pub write_cache : Bytes → Wrote → List Bytes → Sending × Bool
write_cache [] w queue = (record { queue = queue; closed = false; returned = 0 }, false)
write_cache (b ∷ bs) w queue = (write_some (b ∷ bs) w queue, true)

-- `AdSessionWrite()`, while the socket takes the caches in front. `len_failed` is whether `len` is
-- AD_FAILURE, which for an empty queue is what the memory held.
abbrev pub write_queue : Bool → List Wrote → List Bytes → Sending
write_queue len_failed ws [] = record { queue = []; closed = len_failed; returned = 0 }
write_queue len_failed [] (c ∷ cs) = record {
  queue = c ∷ cs;
  closed = false;
  returned = length (c ∷ cs);
}
write_queue len_failed (again ∷ ws) (c ∷ cs) = record {
  queue = c ∷ cs;
  closed = false;
  returned = length (c ∷ cs);
}
write_queue len_failed (failed ∷ ws) (c ∷ cs) = record {
  queue = [];
  closed = true;
  returned = length cs;
}
write_queue len_failed (wrote n ∷ ws) (c ∷ cs) = write_queue false ws cs
