-- ===== src/Protocol/Request/RoundTrip.antt =====
-- A request that the adapter sends, as the bidder reads it.
use ad_rtb_adapter.Base.Int.{pos}
use ad_rtb_adapter.Base.{
  length-append, append-nil, some, ℕ, ◌+◌, ◌%◌, ◌^◌, ◌≤◌, ◌<◌, ◌≡◌, refl, ap, ap₂, sym, ◌∙◌, false,
  [], ◌∷◌, ◌++◌, ◌==◌, ltb, length, take, arith, append_assoc, Option-cases, inl, inr, subst,
}
use ad_rtb_adapter.Protocol.Wire.{Bytes, ok}
use ad_rtb_adapter.Protocol.Head.{Head, Protocol, head_len, put_head}
use ad_rtb_adapter.Protocol.Head.RoundTrip.{IsEncodable, get_head-put_head}
use ad_rtb_adapter.Protocol.Packet.{Packet, room, deflate}
use ad_rtb_adapter.Protocol.Packet.RoundTrip.{
  IsPlain, IsSmall, ok-injective, wire_body, length-wire_body, inflate-wire_body, read_expand_plain,
  take_packet, wire_body_short,
}
use ad_rtb_adapter.Protocol.Pairs.{pair_bytes, put_fields, parse}
use ad_rtb_adapter.Protocol.Pairs.Encoded.{
  pair_of, bytes_of-append, Pairs, bytes_of, pairs_of, put_fields-Emits,
}
use ad_rtb_adapter.Protocol.Pairs.Parsed.{
  keep_all, parse-bytes_of, Sized-of_length, length-le-bytes,
}
use ad_rtb_adapter.Protocol.Request.{Request, clear, request_parser, request_fields}
use ad_rtb_adapter.Protocol.Request.Codec.{
  mode_bid_price, start_request, decode_request, finish_request, encode_request,
}
use ad_rtb_adapter.Protocol.Request.Delivered.{delivered, wire_fields, keep_all-delivered}
use ad_rtb_adapter.Protocol.Zlib.{Zlib, IsZlib}

-- The pair that is written by hand is that of a macro call, space apart.
start_request_lem :
    (flow : Bytes) (len : ℕ)
    → ((start_request flow len).out ≡ bytes_of (pair_of 136 flow))
      × ((start_request flow len).count ≡ length (pair_of 136 flow))
      × ((start_request flow len).count < 2 ^ 16)
start_request_lem [] len = (refl, refl, omega arith)
start_request_lem (b ∷ bs) len = (sym (append-nil (pair_bytes 136 (b ∷ bs))), refl, omega arith)

module _ (z : Zlib) (laws : IsZlib z) (q : Protocol) where
  decode_wire :
      (h : Head) (ps : Pairs) (rest : Bytes)
      → IsEncodable h
      → h.expand ≡ 0
      → h.total ≡ length ps
      → h.size ≡ pos (length (wire_body z h.attr (bytes_of ps)))
      → IsSmall z (bytes_of ps)
      → decode_request z q
          (put_head h ++ (wire_body z h.attr (bytes_of ps) ++ rest))
          (length (wire_body z h.attr (bytes_of ps)) + 12)
        ≡ ok (
          record q { head = record h { size = pos (length (bytes_of ps)) } },
          record (keep_all request_parser ps clear) { adx = h.kind; transaction = mode_bid_price },
        )
  unfolding decode_request
  decode_wire h ps rest e x t s small =
      let out = bytes_of ps in
      let wire = wire_body z h.attr out in
      let short = wire_body_short z h.attr out laws small.bound small.small in
      let (rest', inflated) =
        inflate-wire_body z laws (record q { head = h }) out rest small.bound small.small s in
      let parsed : parse h.total request_parser (out ++ rest') (pos (length out)) (pos 0) clear
          ≡ some (keep_all request_parser ps clear) =
        ap (λ n. parse n request_parser (out ++ rest') (pos (length out)) (pos 0) clear) t
        ∙ parse-bytes_of request_parser ps [] rest' (out ++ rest') (length out) clear
            (Sized-of_length ps (omega arith)) refl (omega arith) in
      let long : ltb (length wire + 12) head_len ≡ false = ground arith in
      rw (
        long,
        get_head-put_head h (wire ++ rest) e,
        read_expand_plain (length wire + 12) (length wire) (record q { head = h }) (wire ++ rest) x
            s (omega arith) (omega arith),
        inflated,
        parsed,
      )

module _ (z : Zlib) (p : Protocol) (r : Request) (len : ℕ) where
  abbrev sent_head : Head
  sent_head = record p.head { kind = r.adx % 256 }

  abbrev finished : Bytes → ℕ → Protocol × Packet
  finished out count =
      finish_request z (record p { head = sent_head })
        (record { out = out; count = count; space = pos 0 })

  -- What an encoding that succeeds has made.
  encode_request_inv :
      {out : Protocol × Packet}
      → length (bytes_of (pairs_of (wire_fields r))) ≤ room
      → encode_request z p r len ≡ ok out
      → finished (bytes_of (pairs_of (wire_fields r))) (length (pairs_of (wire_fields r))) ≡ out
  unfolding encode_request finish_request
  encode_request_inv {out} small h =
      let fs = request_fields r in
      let first = start_request_lem r.flow len in
      elim (Option-cases (put_fields fs (start_request r.flow len))) [
        | inl e ↦ cc (rw (e, encode_request) at h)
        | inr (e, eq) ↦
            let w = put_fields-Emits fs (start_request r.flow len) eq in
            let o : e.out ≡ bytes_of (pairs_of (wire_fields r)) =
              w.out
              ∙ ap (λ x. x ++ bytes_of (pairs_of fs)) first.0
              ∙ sym (bytes_of-append (pair_of 136 r.flow) (pairs_of fs)) in
            let n : e.count ≡ length (pairs_of (wire_fields r)) = omega (
              arith,
              w.count,
              first.1,
              w.count_in first.2,
              length-append (pair_of 136 r.flow) (pairs_of fs),
              length-le-bytes (pairs_of (wire_fields r)),
            ) in
            sym (ap (λ x. finished x (length (pairs_of (wire_fields r)))) o)
            ∙ sym (ap (finished e.out) n)
            ∙ ok-injective (finished e.out e.count) out (rw (eq, encode_request) at h)
      ]

-- The finished packet is read as what it was made from.
decode_finished :
    (z : Zlib) (p q : Protocol) (r : Request) (len : ℕ) (rest : Bytes)
    → IsZlib z
    → IsPlain p.head
    → IsSmall z (bytes_of (pairs_of (wire_fields r)))
    → let packet =
        (finished z p r len
          (bytes_of (pairs_of (wire_fields r)))
          (length (pairs_of (wire_fields r)))).1 in
      (q' : Protocol) × (decode_request z q (take packet.sent packet.memory ++ rest) packet.sent
        ≡ ok (q', record (delivered r) { adx = r.adx % 256; transaction = mode_bid_price }))
unfolding finish_request
decode_finished z p q r len rest laws plain small =
    let ps = pairs_of (wire_fields r) in
    let body = bytes_of ps in
    let attr = p.head.attr in
    let wire = wire_body z attr body in
    let size = (deflate z attr body).1 in
    let packet = (finished z p r len body (length ps)).1 in
    let h : Head = record p.head { kind = r.adx % 256; size = pos size; total = length ps } in
    let x : (p.head.expand == 1) ≡ false = ground (arith, plain.expand) in
    let sized : size ≡ length wire = length-wire_body z attr body in
    let short = wire_body_short z attr body laws small.bound small.small in
    let sent : packet.sent ≡ length wire + 12 = rw x (omega arith) in
    let order : size + 12 + 0 ≡ 12 + size = omega arith in
    let bytes : take packet.sent packet.memory ≡ put_head h ++ wire = rw x (
      ap (λ n. take n (put_head h ++ (deflate z attr body).0)) order ∙ take_packet h z attr body) in
    let fits : IsEncodable h = record {
      flag = plain.flag;
      version = plain.version;
      protocol = plain.protocol;
      wide = plain.wide;
      response = plain.response;
      expand = omega (arith, plain.expand);
      total = omega (arith, length-le-bytes ps);
      len = size;
      len_in = omega arith;
      size = refl;
    } in
    (
      record q { head = record h { size = pos (length body) } },
      ap₂ (λ b n. decode_request z q (b ++ rest) n) bytes sent
          ∙ ap (λ b. decode_request z q b (length wire + 12)) (append_assoc (put_head h) wire rest)
          ∙ decode_wire z laws q h ps rest fits plain.expand refl (ap pos sized) small
          ∙ ap
              (λ m. ok (
                record q { head = record h { size = pos (length body) } },
                record m { adx = r.adx % 256; transaction = mode_bid_price },
              ))
              (keep_all-delivered r),
    )

-- The bytes that the adapter sends for a request of exchange `r.adx`, with any bytes behind them,
-- are read by the bidder as that request, as far as it is sent (`delivered` says which fields are),
-- with the transaction type set to AD_MODE_BID_PRICE.
-- Conditions: zlib keeps to its manual; the pairs, the doubled one for the flow included, take at
-- most AD_KBYTES4 bytes, also compressed; the encoder's head has no expand head, as the constructor
-- makes it; `r.adx` is a byte; and the encoder reported success.
pub decode-encode_request :
    (z : Zlib) (p q p' : Protocol) (r : Request) (len : ℕ) (packet : Packet) (rest : Bytes)
    → IsZlib z
    → IsPlain p.head
    → r.adx < 256
    → IsSmall z (bytes_of (pairs_of (wire_fields r)))
    → encode_request z p r len ≡ ok (p', packet)
    → (q' : Protocol) × (decode_request z q (take packet.sent packet.memory ++ rest) packet.sent
        ≡ ok (q', record (delivered r) { adx = r.adx; transaction = mode_bid_price }))
decode-encode_request z p q p' r len packet rest laws plain byte small h =
    let made = encode_request_inv z p r len small.small h in
    let read = decode_finished z p q r len rest laws plain small in
    let same : r.adx % 256 ≡ r.adx = omega arith in
    subst
      (λ o.
        (q' : Protocol) × (decode_request z q (take o.1.sent o.1.memory ++ rest) o.1.sent
          ≡ ok (q', record (delivered r) { adx = r.adx; transaction = mode_bid_price })))
      made
      (
        read.0,
        read.1
            ∙ ap (λ n. ok (read.0, record (delivered r) { adx = n; transaction = mode_bid_price }))
                same,
      )
