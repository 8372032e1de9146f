-- ===== src/Net/Tests.antt =====
-- Runs of `AdCache` and of `AdSession`.
use ad_rtb_adapter.Base.{
  ◌≡◌, ◌==◌, refl, false, none, some, [], ◌∷◌, replicate, if◌then◌else◌, arith,
}
use ad_rtb_adapter.Base.Int.{ℤ, pos, negsuc, ◌+ℤ◌}
use ad_rtb_adapter.Net.Cache.{append}
use ad_rtb_adapter.Net.Session.{
  Reading, no_packet, read_pieces, complete_packet, write_queue, wrote,
}
use ad_rtb_adapter.Net.Session.Cut.{read_pieces-cut, read_pieces-late}
use ad_rtb_adapter.Protocol.Wire.{Bytes}

-- A head is the byte 1, behind which the packet's length stands.
abbrev packet_len_of : Bytes → ℤ
packet_len_of (h ∷ n ∷ rest) = if h == 1 then pos n else negsuc 0
packet_len_of _ = negsuc 0

abbrev first : Bytes
first = 1 ∷ 5 ∷ 7 ∷ []

abbrev second : Bytes
second = 8 ∷ 9 ∷ []

whole_packets :
    read_pieces packet_len_of ((1 ∷ 2 ∷ []) ∷ (1 ∷ 3 ∷ 4 ∷ []) ∷ []) no_packet
    ≡ some (no_packet, (1 ∷ 2 ∷ []) ∷ (1 ∷ 3 ∷ 4 ∷ []) ∷ [])
unfolding read_pieces complete_packet ◌+ℤ◌
whole_packets = refl

-- Two packets in one piece are taken for the start of a longer one, and dropped with the next head.
two_in_one :
    read_pieces packet_len_of ((1 ∷ 2 ∷ 1 ∷ 2 ∷ []) ∷ (1 ∷ 3 ∷ 4 ∷ []) ∷ []) no_packet
    ≡ some (no_packet, (1 ∷ 3 ∷ 4 ∷ []) ∷ [])
unfolding read_pieces complete_packet ◌+ℤ◌
two_in_one = refl

read_pieces-cut_example :
    (r : Reading) × (read_pieces packet_len_of (first ∷ second ∷ []) no_packet ≡ some (r, []))
    × (r.cache ≡ first ∷ second ∷ [])
read_pieces-cut_example =
    read_pieces-cut packet_len_of 5 first (second ∷ []) refl (omega arith) (omega arith) (refl, tt)
      (omega arith)

read_pieces-late_example :
    read_pieces packet_len_of (first ∷ second ∷ (6 ∷ []) ∷ []) no_packet ≡ none
read_pieces-late_example =
    read_pieces-late packet_len_of 5 first (second ∷ []) (6 ∷ []) refl (omega arith) (omega arith)
      (refl, tt) refl (omega arith) (omega arith)

-- A full read leaves no room for the end mark of `Append`.
append_full : append (replicate 8192 0) (1 ∷ []) ≡ none
unfolding append
append_full = refl

-- Of a cache of which a part is written, nothing is sent again.
half_written : (write_queue false (wrote 1 ∷ []) (first ∷ [])).queue ≡ []
half_written = refl
