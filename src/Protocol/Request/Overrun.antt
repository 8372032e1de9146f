-- ===== src/Protocol/Request/Overrun.antt =====
-- The pair that `InternalToTlv(AdRtbRequest &)` writes by hand, against the size of the buffer.
use ad_rtb_adapter.Base.Int.{pos, ◌≤ℤ◌, -ℤ_parts}
use ad_rtb_adapter.Base.{
  ◌%◌, ℕ, ◌+◌, ◌≡◌, ◌≤◌, false, ◌==◌, [], ◌∷◌, ◌++◌, length, length-append, length-drop, drop,
  arith, Bool-cases, inl, inr,
}
use ad_rtb_adapter.Protocol.Wire.{Bytes, ok}
use ad_rtb_adapter.Protocol.Head.{Protocol, head_len, body_comp, put_head}
use ad_rtb_adapter.Protocol.Head.RoundTrip.{length-put_head}
use ad_rtb_adapter.Protocol.Packet.{Packet, room, overwrite, deflate}
use ad_rtb_adapter.Protocol.Pairs.{Emit, pair_len}
use ad_rtb_adapter.Protocol.Pairs.Encoded.{
  pairs_of, bytes_of, length-pair_bytes, put_fields-Emits, put_fields_room,
}
use ad_rtb_adapter.Protocol.Request.{Request, request_fields}
use ad_rtb_adapter.Protocol.Request.Codec.{start_request, finish_request, encode_request}
use ad_rtb_adapter.Protocol.Zlib.{Zlib}

-- With or without compression the pairs stay in the buffer, behind what is written over them.
length-finish_request :
    (z : Zlib) (p : Protocol) (e : Emit)
    → p.head.expand ≡ 0
    → length e.out + 12 ≤ length (finish_request z p e).1.memory
unfolding finish_request deflate
length-finish_request z p e x =
    let t : (p.head.expand == 1) ≡ false = ground arith in
    let c = z.compress room e.out ++ 0 ∷ [] in
    elim (Bool-cases (p.head.attr == body_comp)) [
      | inl h ↦
          rw (t, h)
            (omega (
              arith,
              length-append (put_head _) (overwrite e.out c),
              length-append c (drop (length c) e.out),
              length-drop (length c) e.out,
              length-put_head _,
            ))
      | inr h ↦ rw (t, h) (omega (arith, length-append (put_head _) e.out, length-put_head _))
    ]

start_request_room : (flow : Bytes) (n : ℕ) → pos n ≤ℤ (start_request flow (n + head_len)).space
start_request_room [] n = omega (arith, -ℤ_parts (pos (n + head_len)) (pos head_len))
start_request_room (b ∷ bs) n = omega (arith, -ℤ_parts (pos (n + head_len)) (pos head_len))

-- For every request with a flow there is a buffer that the encoder overruns and calls success: one
-- that the head and the pairs of the macro just fill. It writes the flow's pair once more, and so at
-- least as many bytes behind the buffer as that pair has, with compression too, which comes after.
-- Condition: no expand head, as the constructor makes it.
pub encode_request_overrun :
    (z : Zlib) (p : Protocol) (r : Request) (b : ℕ) (bs : Bytes)
    → p.head.expand ≡ 0
    → r.flow ≡ b ∷ bs
    → let len = length (bytes_of (pairs_of (request_fields r))) + head_len in
      (out : Protocol × Packet) × (encode_request z p r len ≡ ok out)
      × (len + pair_len r.flow ≤ length out.1.memory)
unfolding encode_request
encode_request_overrun z p r b bs x f =
    let n = length (bytes_of (pairs_of (request_fields r))) in
    let (e, eq) =
      put_fields_room (request_fields r) (start_request r.flow (n + head_len))
        (start_request_room r.flow n) in
    let w = put_fields-Emits (request_fields r) (start_request r.flow (n + head_len)) eq in
    let first : length (start_request r.flow (n + head_len)).out ≡ pair_len r.flow =
      rw f (length-pair_bytes 136 (b ∷ bs)) in
    let total : length e.out ≡ pair_len r.flow + n = rw w.out (
      omega (
        arith,
        first,
        length-append (start_request r.flow (n + head_len)).out
            (bytes_of (pairs_of (request_fields r))),
      )) in
    let q = record p { head = record p.head { kind = r.adx % 256 } } in
    (finish_request z q e, rw (eq, encode_request), omega (arith, length-finish_request z q e x))
