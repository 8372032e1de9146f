-- ===== src/Protocol/Request/Codec.antt =====
-- `TlvToInternal(AdRtbRequest &, …)` and `InternalToTlv(AdRtbRequest &, …)`, without `display`.
use ad_rtb_adapter.Base.Int.{pos, ◌-ℤ◌}
use ad_rtb_adapter.Base.{ℕ, ◌+◌, ◌%◌, none, some, [], ◌∷◌, ◌++◌, ◌==◌, ltb, if◌then◌else◌, length}
use ad_rtb_adapter.Protocol.Wire.{Bytes, Run, ok, failure, ◌>>=◌, reading}
use ad_rtb_adapter.Protocol.Head.{Protocol, head_len, zero_head, put_head, get_head}
use ad_rtb_adapter.Protocol.Packet.{Packet, read_expand, inflate, deflate, with_state, overwrite}
use ad_rtb_adapter.Protocol.Pairs.{Emit, pair_bytes, put_fields, parse}
use ad_rtb_adapter.Protocol.Request.{Request, clear, request_parser, request_fields}
use ad_rtb_adapter.Protocol.Zlib.{Zlib}

-- `snprintf(sBuf, AD_BYTE128, "%d", AD_MODE_BID_PRICE)`
abbrev pub mode_bid_price : Bytes
mode_bid_price = b'1' ∷ []

unfoldable pub decode_request :
    Zlib → Protocol → Bytes → ℕ → Run (Protocol × Request) (Protocol × Request)
decode_request z p xs len =
    if ltb len head_len then failure (record p { head = zero_head }, clear) else (do
      (h, body) ← with_state (λ h. (record p { head = h }, clear)) (get_head xs)
      (p, body) ← with_state (λ p. (p, clear)) (read_expand len (record p { head = h }) body)
      (p, body) ← with_state (λ p. (p, clear)) (inflate z p body)
      r ← reading (parse p.head.total request_parser body p.head.size (pos 0) clear)
      ok (p, record r { adx = p.head.kind; transaction = mode_bid_price }))

-- The first pair, which is written by hand: not tested against `iSpace`, nor taken off it.
abbrev pub start_request : Bytes → ℕ → Emit
start_request [] len = record { out = []; count = 0; space = pos len -ℤ pos head_len }
start_request (b ∷ bs) len = record {
  out = pair_bytes 136 (b ∷ bs);
  count = 1;
  space = pos len -ℤ pos head_len;
}

-- The head is written last. With an expand head the buffer is overwritten behind the 12 bytes of
-- the head, where the pairs stand.
unfoldable pub finish_request : Zlib → Protocol → Emit → Protocol × Packet
finish_request z p e =
    let (body, size) = deflate z p.head.attr e.out in
    let h = record p.head { size = pos size; total = e.count } in
    let expand = p.head.expand == 1 in
    (
      record p { head = h },
      record {
        memory = put_head h ++ (if expand then overwrite body p.ex_head else body);
        sent = size + head_len + (if expand then length p.ex_head else 0);
      },
    )

unfoldable pub encode_request : Zlib → Protocol → Request → ℕ → Run Protocol (Protocol × Packet)
encode_request z p r len =
    let p' = record p { head = record p.head { kind = r.adx % 256 } } in
    elim (put_fields (request_fields r) (start_request r.flow len)) [
      | none ↦ failure p'
      | some e ↦ ok (finish_request z p' e)
    ]
