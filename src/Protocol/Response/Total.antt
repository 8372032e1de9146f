-- ===== src/Protocol/Response/Total.antt =====
-- When the encoder of responses reports success.
use ad_rtb_adapter.Base.Int.{pos, -ℤ_parts}
use ad_rtb_adapter.Base.{
  List, ap, ◌∙◌, Bool-cases, ℕ, ◌+◌, ◌≤◌, ◌≡◌, ◌≢◌, ◌↔◌, false, ◌==◌, length, arith, inl, inr,
}
use ad_rtb_adapter.Protocol.Wire.{Bytes, ok}
use ad_rtb_adapter.Protocol.Head.{Protocol, head_len, body_comp}
use ad_rtb_adapter.Protocol.Packet.{Packet, deflate}
use ad_rtb_adapter.Protocol.Packet.RoundTrip.{wire_body, length-wire_body}
use ad_rtb_adapter.Protocol.Pairs.{Field}
use ad_rtb_adapter.Protocol.Pairs.Encoded.{pairs_of, bytes_of, put_fields-Emits, put_fields_room}
use ad_rtb_adapter.Protocol.Response.{Response, response_fields}
use ad_rtb_adapter.Protocol.Response.Codec.{response_head_len, encode_response}
use ad_rtb_adapter.Protocol.Response.Success.{
  sent_head, start, made, encode_response_inv, encode_response_ok,
}
use ad_rtb_adapter.Protocol.Zlib.{Zlib}

-- A response with a bid is encoded exactly when the buffer has room for the head and the pairs, and
-- for the head and the body as it is sent, compressed or not. Conditions: no expand head, and a
-- buffer of at least the 12 bytes of a head.
pub encode_response_iff :
    (z : Zlib) (p : Protocol) (r : Response) (len : ℕ)
    → p.head.expand ≡ 0
    → r.adx ≢ 0
    → head_len ≤ len
    → ((out : Protocol × Packet) × (encode_response z p r len ≡ ok out)) ↔ (
        (length (bytes_of (pairs_of (response_fields r))) + head_len ≤ len)
        × (length (wire_body z p.head.attr (bytes_of (pairs_of (response_fields r)))) + head_len
            ≤ len))
encode_response_iff z p r len x a hl = (success, room)
  where
    fs : List Field
    fs = response_fields r

    body : Bytes
    body = bytes_of (pairs_of fs)

    narrow : response_head_len (sent_head z p r len) ≡ 12
    narrow = let e : (p.head.expand == 1) ≡ false = ground arith in rw e

    sized : (deflate z p.head.attr body).1 ≡ length (wire_body z p.head.attr body)
    sized = length-wire_body z p.head.attr body

    plain_size : p.head.attr ≢ body_comp → length (wire_body z p.head.attr body) ≡ length body
    plain_size n = let e : (p.head.attr == body_comp) ≡ false = ground arith in rw e

    success :
        (out : Protocol × Packet) × (encode_response z p r len ≡ ok out)
        → (length body + head_len ≤ len) × (length (wire_body z p.head.attr body) + head_len ≤ len)
    success (out, h) = elim (encode_response_inv z p r len h) [
      | inl (b, _) ↦ absurd (a b)
      | inr (e, eq, c, done) ↦
          let w = put_fields-Emits fs (start z p r len) eq in
          let space = -ℤ_parts (pos len) (pos (response_head_len (sent_head z p r len))) in
          let fits : length body + head_len ≤ len =
            omega (arith, narrow, w.spent, w.space_left (omega (arith, narrow, space)), space) in
          elim (Bool-cases (p.head.attr == body_comp)) [
            | inl t ↦
                let same : (deflate z p.head.attr e.out).1 ≡ length (wire_body z p.head.attr body) =
                  ap (λ o. (deflate z p.head.attr o).1) w.out ∙ sized in
                (fits, omega (arith, same, narrow, c (ground arith)))
            | inr n ↦ (fits, omega (arith, plain_size (ground arith)))
          ]
    ]

    room :
        (length body + head_len ≤ len) × (length (wire_body z p.head.attr body) + head_len ≤ len)
        → (out : Protocol × Packet) × (encode_response z p r len ≡ ok out)
    room (h, k) =
        let space = -ℤ_parts (pos len) (pos (response_head_len (sent_head z p r len))) in
        let (e, eq) = put_fields_room fs (start z p r len) (omega (arith, narrow, space)) in
        let w = put_fields-Emits fs (start z p r len) eq in
        let same : (deflate z p.head.attr e.out).1 ≡ length (wire_body z p.head.attr body) =
          ap (λ o. (deflate z p.head.attr o).1) w.out ∙ sized in
        (made z p r len e, encode_response_ok z p r len e a eq (λ c. omega (arith, same, narrow)))
