-- ===== src/Protocol/Response/Success.antt =====
-- What an encoding of a response that reports success has done.
use ad_rtb_adapter.Base.Int.{pos, ◌-ℤ◌}
use ad_rtb_adapter.Base.{
  some, ℕ, ◌+◌, ◌%◌, ◌≤◌, ◌<◌, ◌≡◌, ◌≢◌, ◌⊎◌, false, ◌&&◌, [], ◌==◌, ltb, arith, Bool-cases,
  Option-cases, inl, inr,
}
use ad_rtb_adapter.Protocol.Wire.{ok}
use ad_rtb_adapter.Protocol.Head.{Head, Protocol, body_comp, result_unknow}
use ad_rtb_adapter.Protocol.Packet.{Packet, deflate}
use ad_rtb_adapter.Protocol.Packet.RoundTrip.{ok-injective}
use ad_rtb_adapter.Protocol.Pairs.{Emit, put_fields}
use ad_rtb_adapter.Protocol.Response.{Response, response_fields}
use ad_rtb_adapter.Protocol.Response.Codec.{response_head_len, finish_response, encode_response}
use ad_rtb_adapter.Protocol.Zlib.{Zlib}

module _ (z : Zlib) (p : Protocol) (r : Response) (len : ℕ) where
  abbrev pub sent_head : Head
  sent_head = record p.head { kind = r.adx % 256 }

  abbrev pub start : Emit
  start = record { out = []; count = 0; space = pos len -ℤ pos (response_head_len sent_head) }

  abbrev pub made : Emit → Protocol × Packet
  made e =
      let (body, size) = deflate z p.head.attr e.out in
      finish_response (record p { head = sent_head }) body size e.count

  abbrev pub size_of : Emit → ℕ
  size_of e = (deflate z p.head.attr e.out).1 + response_head_len sent_head

  -- The packet of no bid, which is a head alone.
  abbrev pub no_bid : Protocol × Packet
  no_bid = finish_response (record p { head = record sent_head { result = result_unknow } }) [] 0 0

  pub encode_response_inv :
      {out : Protocol × Packet}
      → encode_response z p r len ≡ ok out
      → ((r.adx ≡ 0) × (no_bid ≡ out))
        ⊎ ((e : Emit) × (put_fields (response_fields r) start ≡ some e)
            × (p.head.attr ≡ body_comp → size_of e ≤ len)
            × (made e ≡ out))
  unfolding encode_response
  encode_response_inv {out} h = elim (Bool-cases (r.adx == 0)) [
    | inl a ↦ inl (ground arith, ok-injective _ out (rw a at h))
    | inr a ↦ elim (Option-cases (put_fields (response_fields r) start)) [
      | inl e ↦ cc (rw (a, e) at h)
      | inr (e, eq) ↦ elim (Bool-cases (p.head.attr == body_comp && ltb len (size_of e))) [
        | inl f ↦ cc (rw (a, eq, f) at h)
        | inr f ↦ inr (e, eq, (λ c. ground arith), ok-injective (made e) out (rw (a, eq, f) at h))
      ]
    ]
  ]

  pub encode_response_ok :
      (e : Emit)
      → r.adx ≢ 0
      → put_fields (response_fields r) start ≡ some e
      → (p.head.attr ≡ body_comp → size_of e ≤ len)
      → encode_response z p r len ≡ ok (made e)
  unfolding encode_response
  encode_response_ok e a eq c =
      let a' : (r.adx == 0) ≡ false = ground arith in
      elim (Bool-cases (p.head.attr == body_comp && ltb len (size_of e))) [
        | inl f ↦
            let over : (p.head.attr ≡ body_comp) × (len < size_of e) = ground arith in
            absurd (omega (arith, over.1, c over.0))
        | inr f ↦ rw (a', eq, f)
      ]
