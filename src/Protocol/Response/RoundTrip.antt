-- ===== src/Protocol/Response/RoundTrip.antt =====
-- A response that the bidder sends, as the adapter reads it.
use ad_rtb_adapter.Base.Int.{pos}
use ad_rtb_adapter.Base.{
  some, ℕ, ◌+◌, ◌%◌, ◌≤◌, ◌<◌, ◌≡◌, ◌≢◌, refl, ap, ap₂, sym, ◌∙◌, false, [], ◌++◌, ◌==◌, length,
  take, arith, append_assoc, inl, inr, subst,
}
use ad_rtb_adapter.Protocol.Wire.{Bytes, ok}
use ad_rtb_adapter.Protocol.Head.{Head, Protocol, result_ok, verb_response, put_head}
use ad_rtb_adapter.Protocol.Head.RoundTrip.{IsEncodable, get_head-put_head}
use ad_rtb_adapter.Protocol.Packet.{Packet, room, deflate}
use ad_rtb_adapter.Protocol.Packet.RoundTrip.{
  IsPlain, IsSmall, wire_body, length-wire_body, inflate-wire_body, read_expand_plain, take_packet,
  wire_body_short,
}
use ad_rtb_adapter.Protocol.Pairs.{parse}
use ad_rtb_adapter.Protocol.Pairs.Encoded.{Pairs, bytes_of, pairs_of, put_fields-Emits}
use ad_rtb_adapter.Protocol.Pairs.Parsed.{
  keep_all, parse-bytes_of, Sized-of_length, length-le-bytes,
}
use ad_rtb_adapter.Protocol.Response.{Response, clear, response_parser, response_fields}
use ad_rtb_adapter.Protocol.Response.Codec.{
  returned, check_result, decode_response, finish_response, encode_response,
}
use ad_rtb_adapter.Protocol.Response.Success.{sent_head, start, encode_response_inv}
use ad_rtb_adapter.Protocol.Response.Delivered.{delivered, keep_all-delivered}
use ad_rtb_adapter.Protocol.Zlib.{Zlib, IsZlib}

check_result_lem : (p : Protocol) → p.head.result ≡ result_ok → check_result p ≡ ok tt
unfolding check_result
check_result_lem p h = ground arith

module _ (z : Zlib) (laws : IsZlib z) (q : Protocol) where
  decode_wire :
      (h : Head) (ps : Pairs) (rest : Bytes)
      → IsEncodable h
      → h.expand ≡ 0
      → h.result ≡ result_ok
      → h.total ≡ length ps
      → h.size ≡ pos (length (wire_body z h.attr (bytes_of ps)))
      → IsSmall z (bytes_of ps)
      → decode_response z q
          (put_head h ++ (wire_body z h.attr (bytes_of ps) ++ rest))
          (length (wire_body z h.attr (bytes_of ps)) + 12)
        ≡ ok (
            returned
              (record q { head = record h { size = pos (length (bytes_of ps)) } })
              (keep_all response_parser ps clear))
  unfolding decode_response
  decode_wire h ps rest e x r t s small =
      let out = bytes_of ps in
      let wire = wire_body z h.attr out in
      let short = wire_body_short z h.attr out laws small.bound small.small in
      let (rest', inflated) =
        inflate-wire_body z laws (record q { head = h }) out rest small.bound small.small s in
      let parsed : parse h.total response_parser (out ++ rest') (pos (length out)) (pos 0) clear
          ≡ some (keep_all response_parser ps clear) =
        ap (λ n. parse n response_parser (out ++ rest') (pos (length out)) (pos 0) clear) t
        ∙ parse-bytes_of response_parser ps [] rest' (out ++ rest') (length out) clear
            (Sized-of_length ps (omega arith)) refl (omega arith) in
      rw (
        get_head-put_head h (wire ++ rest) e,
        read_expand_plain (length wire + 12) (length wire) (record q { head = h }) (wire ++ rest) x
            s (omega arith) (omega arith),
        check_result_lem (record q { head = h }) r,
        inflated,
        parsed,
      )

module _ (z : Zlib) (p : Protocol) (r : Response) (len : ℕ) where
  abbrev body_of : Bytes
  body_of = bytes_of (pairs_of (response_fields r))

  abbrev finished : ℕ → Protocol × Packet
  finished count =
      finish_response (record p { head = sent_head z p r len }) (deflate z p.head.attr body_of).0
        (deflate z p.head.attr body_of).1 count

  -- The packet is made from the pairs of the fields.
  made_finished :
      (out : Protocol × Packet)
      → r.adx ≢ 0
      → length body_of ≤ room
      → encode_response z p r len ≡ ok out
      → finished (length (pairs_of (response_fields r))) ≡ out
  made_finished out a small h = elim (encode_response_inv z p r len h) [
    | inl (b, _) ↦ absurd (a b)
    | inr (e, eq, _, done) ↦
        let ps = pairs_of (response_fields r) in
        let w = put_fields-Emits (response_fields r) (start z p r len) eq in
        let n : e.count ≡ length ps =
          omega (arith, w.count, w.count_in (omega arith), length-le-bytes ps) in
        rw (sym w.out, sym n) done
  ]

-- The finished packet is read as what it was made from.
decode_finished :
    (z : Zlib) (p q : Protocol) (r : Response) (len : ℕ) (rest : Bytes)
    → IsZlib z
    → IsPlain p.head
    → p.head.result ≡ result_ok
    → IsSmall z (bytes_of (pairs_of (response_fields r)))
    → let packet = (finished z p r len (length (pairs_of (response_fields r)))).1 in
      (q' : Protocol) × (decode_response z q (take packet.sent packet.memory ++ rest) packet.sent
        ≡ ok (q', record (delivered r) { adx = r.adx % 256 }))
unfolding finish_response
decode_finished z p q r len rest laws plain fine small =
    let ps = pairs_of (response_fields r) in
    let body = bytes_of ps in
    let attr = p.head.attr in
    let wire = wire_body z attr body in
    let size = (deflate z attr body).1 in
    let packet = (finished z p r len (length ps)).1 in
    let h : Head = record p.head {
      kind = r.adx % 256;
      size = pos size;
      total = length ps;
      verb = verb_response;
    } in
    let x : (p.head.expand == 1) ≡ false = ground (arith, plain.expand) in
    let sized : size ≡ length wire = length-wire_body z attr body in
    let short = wire_body_short z attr body laws small.bound small.small in
    let sent : packet.sent ≡ length wire + 12 = rw x (omega arith) in
    let order : size + 12 + 0 ≡ 12 + size = omega arith in
    let bytes : take packet.sent packet.memory ≡ put_head h ++ wire = rw x (
      ap (λ n. take n (put_head h ++ (deflate z attr body).0)) order ∙ take_packet h z attr body) in
    let fits : IsEncodable h = record {
      flag = plain.flag;
      version = plain.version;
      protocol = plain.protocol;
      wide = plain.wide;
      response = plain.response;
      expand = omega (arith, plain.expand);
      total = omega (arith, length-le-bytes ps);
      len = size;
      len_in = omega arith;
      size = refl;
    } in
    (
      record q { head = record h { size = pos (length body) } },
      ap₂ (λ b n. decode_response z q (b ++ rest) n) bytes sent
          ∙ ap (λ b. decode_response z q b (length wire + 12)) (append_assoc (put_head h) wire rest)
          ∙ decode_wire z laws q h ps rest fits plain.expand fine refl (ap pos sized) small
          ∙ ap (λ m. ok (returned (record q { head = record h { size = pos (length body) } }) m))
              (keep_all-delivered r),
    )

-- The bytes that the bidder sends for a response to exchange `r.adx`, with any bytes behind them,
-- are read by the adapter as that response, as far as it is sent: `delivered` says which fields are.
-- Conditions: zlib keeps to its manual; the pairs take at most AD_KBYTES4 bytes, also compressed;
-- the encoder's head has no expand head and the result OK, as the constructor makes it; `r.adx` is a byte other than 0; and the
-- encoder reported success.
pub decode-encode_response :
    (z : Zlib) (p q p' : Protocol) (r : Response) (len : ℕ) (packet : Packet) (rest : Bytes)
    → IsZlib z
    → IsPlain p.head
    → p.head.result ≡ result_ok
    → r.adx ≢ 0
    → r.adx < 256
    → IsSmall z (bytes_of (pairs_of (response_fields r)))
    → encode_response z p r len ≡ ok (p', packet)
    → (q' : Protocol) × (decode_response z q (take packet.sent packet.memory ++ rest) packet.sent
        ≡ ok (q', record (delivered r) { adx = r.adx }))
decode-encode_response z p q p' r len packet rest laws plain fine a byte small h =
    let made = made_finished z p r len (p', packet) a small.small h in
    let read = decode_finished z p q r len rest laws plain fine small in
    let same : r.adx % 256 ≡ r.adx = omega arith in
    subst
      (λ o.
        (q' : Protocol) × (decode_response z q (take o.1.sent o.1.memory ++ rest) o.1.sent
          ≡ ok (q', record (delivered r) { adx = r.adx })))
      made (read.0, read.1 ∙ ap (λ n. ok (read.0, record (delivered r) { adx = n })) same)
